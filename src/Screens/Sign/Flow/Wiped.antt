-- ===== src/Screens/Sign/Flow/Wiped.antt =====
-- The page that names the file runs without secrets.
use signeros.Base.{
  ℕ, ◌≡◌, inl, inr, refl, ap, ◌∙◌, Bool, true, false, ◌&&◌, not, none, some, [], if◌then◌else◌,
  length, Bool-cases,
}
use signeros.Bip39.{Wordlist, bip39_suggestions, suggestions_of}
use signeros.Psbt.Wally.{Wally, Double}
use signeros.Screens.Secrets.{Secrets, is_empty, wipe_all_secrets}
use signeros.Screens.Sign.{
  SignScreen, Field, KeySource, from_mnemonic, from_xprv, mnemonic_field, passphrase_field,
  confirm_field, is_mnemonic, found_words, refresh_suggestions, drop_confirmation, refresh_displays,
  set_osk_visible, suggestion_count,
}
use signeros.Secure.{SecureString, clear, copy_trailing_word}
use signeros.Secure.Cleared.{IsCleared, clear-IsCleared, copy_trailing_word-clear}

-- The four buffers were cleared.
pub record AllCleared (s : Secrets) : Type 0 where
  pub mnemonic : IsCleared s.mnemonic
  pub passphrase : IsCleared s.passphrase
  pub verification : IsCleared s.verification
  pub again : IsCleared s.again

module _ (w : Wally) (d : Double) (list : Wordlist) where
  -- No secret, no key, and no word that the panel would type.
  pub record Wiped (s : SignScreen w d) : Type 0 where
    pub cleared : AllCleared s.secrets
    pub keyless : s.engine.key ≡ none
    pub wordless : s.panel_shown ≡ 0

  -- A buffer that was cleared offers no word.
  found_words-cleared :
      (f : Field) (k : KeySource) (s : Secrets)
      → IsCleared s.mnemonic
      → found_words w d list f k s ≡ []
  unfolding found_words bip39_suggestions suggestions_of
  found_words-cleared mnemonic_field from_mnemonic s (b, e) =
      ap (λ m. bip39_suggestions list (copy_trailing_word m (some 16)) suggestion_count) e
      ∙ ap (λ o. bip39_suggestions list o suggestion_count) (copy_trailing_word-clear b)
  found_words-cleared mnemonic_field from_xprv s c = refl
  found_words-cleared passphrase_field k s c = refl
  found_words-cleared confirm_field k s c = refl

  refresh_suggestions-Wiped :
      (s : SignScreen w d)
      → AllCleared s.secrets
      → s.engine.key ≡ none
      → Wiped (refresh_suggestions w d list s)
  unfolding refresh_suggestions
  refresh_suggestions-Wiped s c k = record {
    cleared = c;
    keyless = k;
    wordless =
        ap (λ n. if s.osk_visible then n else 0)
          (ap length (found_words-cleared s.field s.source s.secrets c.mnemonic))
        ∙ nothing s.osk_visible;
  }
    where
      nothing : (b : Bool) → ◌≡◌ {A = ℕ} (if b then 0 else 0) 0
      nothing true = refl
      nothing false = refl

  if-IsCleared : (b : Bool) (x : SecureString) → IsCleared x → IsCleared (if b then x else clear x)
  if-IsCleared true x c = c
  if-IsCleared false x c = clear-IsCleared x

  pub refresh_displays-Wiped :
      (s : SignScreen w d)
      → AllCleared s.secrets
      → s.engine.key ≡ none
      → Wiped (refresh_displays w d list s)
  unfolding refresh_displays drop_confirmation
  refresh_displays-Wiped s c k =
      elim (Bool-cases (is_mnemonic s.source && not (is_empty s.secrets.passphrase))) [
        | inl p ↦ rw p (refresh_suggestions-Wiped s c k)
        | inr p ↦ rw p (
            refresh_suggestions-Wiped _
              (record {
                mnemonic = c.mnemonic;
                passphrase = c.passphrase;
                verification = c.verification;
                again = if-IsCleared (is_empty s.secrets.again) s.secrets.again c.again;
              })
              k)
      ]

  pub set_osk_visible-Wiped :
      (b : Bool) (s : SignScreen w d)
      → AllCleared s.secrets
      → s.engine.key ≡ none
      → Wiped (set_osk_visible w d list b s)
  unfolding set_osk_visible
  set_osk_visible-Wiped b s c k = refresh_displays-Wiped _ c k

  pub wipe_all_secrets-AllCleared : (s : Secrets) → AllCleared (wipe_all_secrets s)
  unfolding wipe_all_secrets
  wipe_all_secrets-AllCleared s = record {
    mnemonic = clear-IsCleared s.mnemonic;
    passphrase = clear-IsCleared s.passphrase;
    verification = clear-IsCleared s.verification;
    again = clear-IsCleared s.again;
  }
