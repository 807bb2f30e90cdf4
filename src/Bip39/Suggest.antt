-- ===== src/Bip39/Suggest.antt =====
-- `bip39Suggestions` is the head of the filtered wordlist.
use signeros.Base.{
  ℕ, zero, suc, ◌≤◌, ◌≡◌, inl, inr, refl, sym, ap, ◌∙◌, true, false, Option, none, some, List, [],
  ◌∷◌, ◌++◌, append_assoc, append-nil, arith, Bytes, ltb, ◌==◌, if◌then◌else◌, length,
  length-append, take, Bool-cases, if_true, if_false,
}
use signeros.Base.Equal.{starts_with}
use signeros.Bip39.{Wordlist, offer, suggest_loop, suggestions_of, bip39_suggestions}

abbrev pub only : Bytes → Option Bytes → List Bytes
only prefix none = []
only prefix (some word) = if starts_with prefix word then word ∷ [] else []

-- The words from the index `i` on that begin with the prefix, in the order of the list.
unfoldable pub matching : Wordlist → Bytes → ℕ → ℕ → List Bytes
matching list prefix i zero = []
matching list prefix i (suc n) = only prefix (list.get_word i) ++ matching list prefix (suc i) n

take_all : (out : List Bytes) (n : ℕ) → length out ≤ n → take n out ≡ out
take_all [] zero h = refl
take_all [] (suc n) h = refl
take_all (x ∷ out) zero h = absurd (omega arith)
take_all (x ∷ out) (suc n) h = ap (λ t. x ∷ t) (take_all out n (omega arith))

take_full : (out rest : List Bytes) (n : ℕ) → length out ≡ n → take n (out ++ rest) ≡ out
take_full [] rest zero h = refl
take_full [] rest (suc n) h = absurd (omega arith)
take_full (x ∷ out) rest zero h = absurd (omega arith)
take_full (x ∷ out) rest (suc n) h = ap (λ t. x ∷ t) (take_full out rest n (omega arith))

offer-only :
    (prefix : Bytes) (out : List Bytes) (o : Option Bytes)
    → offer prefix out o ≡ out ++ only prefix o
unfolding offer
offer-only prefix out none = sym (append-nil out)
offer-only prefix out (some word) = elim (Bool-cases (starts_with prefix word)) [
  | inl p ↦ rw p refl
  | inr p ↦ rw p (sym (append-nil out))
]

only-length : (prefix : Bytes) (o : Option Bytes) → length (only prefix o) ≤ 1
only-length prefix none = omega arith
only-length prefix (some word) = elim (Bool-cases (starts_with prefix word)) [
  | inl p ↦ rw p (omega arith)
  | inr p ↦ rw p (omega arith)
]

module _ (list : Wordlist) (max_results : ℕ) (prefix : Bytes) where
  suggest_loop_lem :
      (left i : ℕ) (out : List Bytes)
      → length out ≤ max_results
      → suggest_loop list left i max_results prefix out
        ≡ take max_results (out ++ matching list prefix i left)
  unfolding suggest_loop matching
  suggest_loop_lem zero i out h =
      sym (ap (take max_results) (append-nil out) ∙ take_all out max_results h)
  suggest_loop_lem (suc left) i out h = elim (Bool-cases (ltb (length out) max_results)) [
    | inl room ↦
        let next = list.get_word i in
        rw (room, suggest_loop)
          (suggest_loop_lem left (suc i) (offer prefix out next) (
              rw (offer-only prefix out next) (
                ground
                  (arith, room, length-append out (only prefix next), only-length prefix next)))
            ∙ ap (take max_results) (
                ap (λ t. t ++ matching list prefix (suc i) left) (offer-only prefix out next)
                ∙ append_assoc out (only prefix next) (matching list prefix (suc i) left)))
    | inr full ↦
        rw (full, suggest_loop) (sym (take_full out _ max_results (ground (arith, full, h))))
  ]

suggestions_of-none :
    (list : Wordlist) (count max_results c : ℕ) (cs : Bytes)
    → list.available ≡ false
    → suggestions_of list count (some (c ∷ cs)) max_results ≡ []
unfolding suggestions_of
suggestions_of-none list count max_results c cs h = elim (Bool-cases (max_results == 0)) [
  | inl z ↦ rw z refl
  | inr p ↦ rw p (if_false _ [] h)
]

suggestions_of-take :
    (list : Wordlist) (count max_results c : ℕ) (cs : Bytes)
    → list.available ≡ true
    → suggestions_of list count (some (c ∷ cs)) max_results
      ≡ take max_results (matching list (c ∷ cs) 0 count)
unfolding suggestions_of
suggestions_of-take list count zero c cs h = refl
suggestions_of-take list count (suc max) c cs h =
    let positive : (suc max == 0) ≡ false = ground arith in
    rw positive (if_true _ [] h ∙ suggest_loop_lem list (suc max) (c ∷ cs) count 0 [] (omega arith))

-- What is to be suggested: nothing without a prefix, for an empty prefix or without the word list,
-- else the first `max_results` words of the 2048 that begin with the prefix.
unfoldable pub expected : Wordlist → Option Bytes → ℕ → List Bytes
expected list none max_results = []
expected list (some []) max_results = []
expected list (some (c ∷ cs)) max_results =
    if list.available then take max_results (matching list (c ∷ cs) 0 2048) else []

-- What is suggested, for every prefix and every list, the empty prefix and the missing list included,
-- are the first `max_results` words of the list that begin with a prefix that is not empty, in the
-- order of the list, and else nothing.
pub bip39_suggestions-expected :
    (list : Wordlist) (prefix : Option Bytes) (max_results : ℕ)
    → bip39_suggestions list prefix max_results ≡ expected list prefix max_results
unfolding bip39_suggestions expected
bip39_suggestions-expected list none max_results = refl
bip39_suggestions-expected list (some []) max_results = refl
bip39_suggestions-expected list (some (c ∷ cs)) max_results = elim (Bool-cases list.available) [
  | inl there ↦ suggestions_of-take list 2048 max_results c cs there ∙ sym (if_true _ [] there)
  | inr gone ↦ suggestions_of-none list 2048 max_results c cs gone ∙ sym (if_false _ [] gone)
]
