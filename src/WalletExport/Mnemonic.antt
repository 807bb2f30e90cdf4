-- ===== src/WalletExport/Mnemonic.antt =====
-- `mnemonicFromEntropy` of src/btc_signer_gui/src/core/wallet_export.cpp: a new mnemonic goes into a
-- secret buffer, or the buffer is left empty.
use signeros.Base.{
  ◌+◌, ◌^◌, ◌<◌, ◌≡◌, ◌≢◌, inl, inr, refl, sym, ap, ◌∙◌, subst, Bool, true, false, Option, none,
  some, [], ◌∷◌, ◌++◌, Bytes, arith, ltb, if◌then◌else◌, length, Bool-cases, All, ne→==,
}
use signeros.Screens.Secrets.{c_str, until_nul}
use signeros.Secure.{SecureString, capacity, clear, assign}
use signeros.Secure.Edit.{put_bytes, clear-Holds, assign-Holds}
use signeros.Secure.Repr.{Holds, zeros}
use signeros.WalletExport.{
  ExportWally, ExportError, no_wordlist, bad_entropy, mnemonic_too_long, invalid_mnemonic,
}

module _ (x : ExportWally) where
  -- The end of `mnemonicFromEntropy`: what was copied is validated.
  unfoldable pub validated : SecureString × Bool → SecureString × Option ExportError
  validated (out, false) = (clear out, some mnemonic_too_long)
  validated (out, true) =
      if x.mnemonic_validate (c_str out) then (out, none) else (clear out, some invalid_mnemonic)

  unfoldable pub copied : SecureString → Option Bytes → SecureString × Option ExportError
  copied out none = (out, some bad_entropy)
  copied out (some text) = validated (assign out (some text))

  -- `mnemonicFromEntropy`, with a destination.
  unfoldable pub mnemonic_from_entropy : Bytes → SecureString → SecureString × Option ExportError
  mnemonic_from_entropy entropy out =
      if x.wordlist
      then copied (clear out) (x.mnemonic_from_bytes entropy)
      else (clear out, some no_wordlist)

  abbrev pub NoNul : Bytes → Type 0
  NoNul = All (λ c. c ≢ 0)

  until_nul-filled : (t rest : Bytes) → NoNul t → until_nul (t ++ 0 ∷ rest) ≡ t
  unfolding until_nul
  until_nul-filled [] rest h = refl
  until_nul-filled (c ∷ t) rest (hc, h) =
      rw (ne→== c 0 hc) (ap (λ u. c ∷ u) (until_nul-filled t rest h))

  c_str-Holds : (s : SecureString) (t : Bytes) → Holds s t → NoNul t → c_str s ≡ t
  c_str-Holds s t (room, e, l) h =
      ap (λ (b : SecureString). until_nul b.buf) e ∙ until_nul-filled t (zeros room) h

  -- What the buffer holds behind the call, given the text that libwally makes of the entropy.
  pub data Filled (made : Option Bytes) : SecureString × Option ExportError → Type 0 where
    emptied : (out : SecureString) (e : ExportError) → Holds out [] → Filled made (out, some e)
    holds :
        (out : SecureString) (text : Bytes)
        → made ≡ some text
        → x.mnemonic_validate text ≡ true
        → length text < capacity
        → Holds out text
        → Filled made (out, none)

  validated-Filled :
      (made : Option Bytes) (text kept : Bytes) (r : SecureString × Bool)
      → made ≡ some text
      → NoNul text
      → Holds r.0 kept
      → (r.1 ≡ true → (kept ≡ text) × (length text < capacity))
      → Filled made (validated r)
  unfolding validated
  validated-Filled made text kept (out, false) m n h fits =
      emptied (clear out) _ (clear-Holds kept h)
  validated-Filled made text kept (out, true) m n h fits =
      let (same, room) = fits refl in
      let held : Holds out text = subst (Holds out) same h in
      elim (Bool-cases (x.mnemonic_validate (c_str out))) [
        | inl ok ↦ rw ok (
            holds out text m (ap x.mnemonic_validate (sym (c_str-Holds out text held n)) ∙ ok) room
              held)
        | inr bad ↦ rw bad (emptied (clear out) _ (clear-Holds text held))
      ]

  if-Filled :
      (made : Option Bytes) (b : Bool) (r r' : SecureString × Option ExportError)
      → Filled made r
      → Filled made r'
      → Filled made (if b then r else r')
  if-Filled made true r r' p q = p
  if-Filled made false r r' p q = q

  copied-Filled :
      (out : SecureString) (made : Option Bytes)
      → Holds out []
      → ((text : Bytes) → made ≡ some text → NoNul text × (length text < 2 ^ 63))
      → Filled made (copied out made)
  unfolding copied put_bytes
  copied-Filled out none h c = emptied out _ h
  copied-Filled out (some text) h c =
      let (n, small) = c text refl in
      let (held, fits) = assign-Holds {s = out} [] text small h in
      validated-Filled (some text) text (put_bytes [] text) (assign out (some text)) refl n held
        (λ ok. fit (sym fits ∙ ok))
    where
      fit :
          ltb (length text) capacity ≡ true → (put_bytes [] text ≡ text) × (length text < capacity)
      fit q = (kept (ground (arith, q)), ground (arith, q))
        where
          kept : ltb (0 + length text) capacity ≡ true → put_bytes [] text ≡ text
          kept q' = rw q' refl

  -- After `mnemonicFromEntropy` on a buffer that holds any text, the buffer is empty and an error is
  -- reported, or it holds just the text that libwally made of the entropy, which passed the validator
  -- of the signing path and fits. The text is a C string of less than 2 ^ 63 characters.
  pub mnemonic_from_entropy-Filled :
      (entropy old : Bytes) (out : SecureString)
      → Holds out old
      → ((text : Bytes)
          → x.mnemonic_from_bytes entropy ≡ some text
          → NoNul text × (length text < 2 ^ 63))
      → Filled (x.mnemonic_from_bytes entropy) (mnemonic_from_entropy entropy out)
  unfolding mnemonic_from_entropy
  mnemonic_from_entropy-Filled entropy old out h c =
      if-Filled (x.mnemonic_from_bytes entropy) x.wordlist _ _
        (copied-Filled (clear out) (x.mnemonic_from_bytes entropy) (clear-Holds old h) c)
        (emptied (clear out) _ (clear-Holds old h))
