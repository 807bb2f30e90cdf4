-- ===== src/Bip39.antt =====
-- The wordlist helpers of src/btc_signer_gui/src/core/psbt_engine.cpp. The list itself is libwally's,
-- a parameter.
pub mod Suggest
mod Tests
use signeros.Base.{
  ℕ, zero, suc, ◌+◌, Bool, true, false, Option, none, some, List, [], ◌∷◌, ◌++◌, ◌||◌, Bytes, ltb,
  ◌==◌, if◌then◌else◌, length,
}
use signeros.Base.Equal.{starts_with}

-- `bip39_get_wordlist` and `bip39_get_word` of the English list.
pub record Wordlist : Type 0 where
  pub available : Bool
  pub get_word : ℕ → Option Bytes

-- One round of `bip39Suggestions`: the word is offered where it begins with the prefix.
unfoldable pub offer : Bytes → List Bytes → Option Bytes → List Bytes
offer prefix out none = out
offer prefix out (some word) = if starts_with prefix word then out ++ word ∷ [] else out

module _ (list : Wordlist) where
  -- The loop of `bip39Suggestions` from the index `i` on, `left` words long at most.
  unfoldable pub suggest_loop : ℕ → ℕ → ℕ → Bytes → List Bytes → List Bytes
  unfolding offer
  suggest_loop zero i max_results prefix out = out
  suggest_loop (suc left) i max_results prefix out = elim (ltb (length out) max_results) [
    | false ↦ out
    | true ↦ suggest_loop left (suc i) max_results prefix (offer prefix out (list.get_word i))
  ]

  -- `bip39Suggestions` over the first `count` words; a null prefix is `none`.
  unfoldable pub suggestions_of : ℕ → Option Bytes → ℕ → List Bytes
  unfolding suggest_loop
  suggestions_of count none max_results = []
  suggestions_of count (some []) max_results = []
  suggestions_of count (some (c ∷ cs)) max_results =
      if max_results == 0
      then []
      else if list.available
      then suggest_loop count 0 max_results (c ∷ cs) []
      else []

  unfoldable pub bip39_suggestions : Option Bytes → ℕ → List Bytes
  unfolding suggestions_of
  bip39_suggestions prefix max_results = suggestions_of 2048 prefix max_results
