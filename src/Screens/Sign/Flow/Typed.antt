-- ===== src/Screens/Sign/Flow/Typed.antt =====
-- In every state of the screen, a checked key is the key that is typed.
use signeros.Base.{
  ℕ, ◌⊎◌, inl, inr, refl, ◌∙◌, Bool, false, ◌&&◌, Option, [], ◌∷◌, Bytes, ltb, leb, ◌-◌, ◌+◌,
}
use signeros.Bip39.{Wordlist}
use signeros.Disk.{Disk}
use signeros.Files.{Clock}
use signeros.Files.Result.{Serialiser, WriteError}
use signeros.Psbt.Wally.{Wally, Double}
use signeros.Psbt.Engine.{Engine, Failure, sign}
use signeros.Screens.SaveAs.{Accepted, emitted, shown, accept, is_printable_ascii}
use signeros.Screens.Sign.{
  SignScreen, Page, entry_page, confirm_page, name_page, result_page, mnemonic_field, from_mnemonic,
  is_mnemonic, suggestion_count,
}
use signeros.Screens.Sign.Flow.{
  Config, KeyEvent, Key, enter_key, backspace_key, space_key, tab_key, f2_key, f3_key, other_key,
  letter_key, digit_key, letter, show_confirm, entry_back, confirm_back, name_back, wipe_secrets,
  on_enter, do_sign, do_write, key_press, signed, sign_result, written, accepted, accept_name,
  is_enter, name_text, name_key, confirm_key, key_press_on, entry_key, picks,
}
use signeros.Screens.Sign.Flow.Run.{
  World, Step, Reachable, presses, panel_types, panel_erases, panel_deletes, panel_clears,
  panel_hides, panel_picks, row_picks, clicks_field, clicks_source, toggles_osk, clicks_check,
  clicks_review, clicks_entry_back, clicks_confirm_back, clicks_sign, clicks_save,
  clicks_clear_name, clicks_name_back, leaves, enters, then_step,
}
use signeros.Screens.Sign.Flow.Checked.{
  Checked, unchecked, if-Checked, restyle-Checked, named-Checked, set_field-Checked,
  set_osk_visible-Checked, set_key_source-Checked, type_character-Checked, press_backspace-Checked,
  delete_word-Checked, clear_all-Checked, apply_suggestion-Checked, check_key-Checked,
  refresh_displays-Checked,
}
use signeros.Screens.Sign.Flow.SameKey.{SameKey, sign-SameKey, write_result-SameKey}

module _ (w : Wally) (d : Double) (list : Wordlist) where
  with_engine-Checked :
      (s : SignScreen w d) (e : Engine w d)
      → SameKey w d s.engine e
      → Checked w d list s
      → Checked w d list (record s { engine = e })
  unfolding Checked
  with_engine-Checked s e (same, net) c =
      λ h. let ((k, held, typed, n), ready) = c h in ((k, same ∙ held, rw net typed, refl), ready)

  show_confirm-Checked :
      (s : SignScreen w d) → Checked w d list s → Checked w d list (show_confirm w d list s)
  unfolding show_confirm
  show_confirm-Checked s c =
      if-Checked w d list s.key_checked _ _ (restyle-Checked w d list s _ _ _ _ _ _ _ c)
        (restyle-Checked w d list s _ _ _ _ _ _ _ c)

  wipe_secrets-Checked : (s : SignScreen w d) → Checked w d list (wipe_secrets w d list s)
  unfolding wipe_secrets
  wipe_secrets-Checked s = unchecked w d list _ refl

  name_back-Checked : (s : SignScreen w d) → Checked w d list (name_back w d list s)
  unfolding name_back wipe_secrets
  name_back-Checked s = unchecked w d list _ refl

  on_enter-Checked :
      (config : Config) (s : SignScreen w d) → Checked w d list (on_enter w d list config s)
  unfolding on_enter
  on_enter-Checked config s = refresh_displays-Checked w d list _ (
      set_osk_visible-Checked w d list _ _ (
        set_key_source-Checked w d list from_mnemonic _
          (set_field-Checked w d list mnemonic_field _ (unchecked w d list _ refl))))

  name_text-Checked :
      (t : Bytes) (s : SignScreen w d)
      → Checked w d list s
      → Checked w d list (name_text w d list t s)
  unfolding name_text
  name_text-Checked [] s c = c
  name_text-Checked (x ∷ []) s c =
      if-Checked w d list (is_printable_ascii x) _ _ (named-Checked w d list s _ c) c
  name_text-Checked (x ∷ y ∷ t) s c = c

  entry_key-Checked :
      (key : Key) (shifted : Bool) (s : SignScreen w d)
      → Checked w d list s
      → Checked w d list (entry_key w d list key shifted s)
  unfolding entry_key
  entry_key-Checked f2_key shifted s c = set_osk_visible-Checked w d list _ s c
  entry_key-Checked f3_key shifted s c =
      if-Checked w d list (is_mnemonic s.source) _ _ (set_field-Checked w d list _ s c) c
  entry_key-Checked tab_key shifted s c =
      if-Checked w d list (picks w d list s 0) _ _ (apply_suggestion-Checked w d list 0 s c) c
  entry_key-Checked backspace_key shifted s c = press_backspace-Checked w d list s c
  entry_key-Checked space_key shifted s c = type_character-Checked w d list b' ' s c
  entry_key-Checked enter_key shifted s c =
      if-Checked w d list s.key_checked _ _ (show_confirm-Checked s c)
        (check_key-Checked w d list s)
  entry_key-Checked (letter_key n) shifted s c =
      type_character-Checked w d list (letter n shifted) s c
  entry_key-Checked (digit_key n) shifted s c =
      if-Checked w d list (ltb 0 n && leb n suggestion_count && picks w d list s (n - 1)) _ _
        (apply_suggestion-Checked w d list (n - 1) s c)
        (type_character-Checked w d list (b'0' + n) s c)
  entry_key-Checked other_key shifted s c = c

module _ (w : Wally) (d : Double) (list : Wordlist) (disk : Disk) (z : Serialiser)
    (config : Config) where
  module _ (clock : Clock) (t : disk.State) where
    signed-Checked :
        (added : ℕ) (s : SignScreen w d)
        → Checked w d list (signed w d list disk z clock config t added s)
    unfolding signed wipe_secrets
    signed-Checked added s = set_osk_visible-Checked w d list _ _ (unchecked w d list _ refl)

    sign_result-Checked :
        (s : SignScreen w d) (r : Engine w d × (Failure ⊎ ℕ))
        → SameKey w d s.engine r.0
        → Checked w d list s
        → Checked w d list (sign_result w d list disk z clock config t s r)
    unfolding sign_result
    sign_result-Checked s (e, inl f) same c =
        restyle-Checked w d list (record s { engine = e }) _ _ _ _ _ _ _
          (with_engine-Checked w d list s e same c)
    sign_result-Checked s (e, inr added) same c = signed-Checked added _

    do_sign-Checked :
        (s : SignScreen w d)
        → Checked w d list s
        → Checked w d list (do_sign w d list disk z clock config t s)
    unfolding do_sign
    do_sign-Checked s c =
        if-Checked w d list s.key_checked _ _
          (sign_result-Checked s (sign w d s.engine) (sign-SameKey w d s.engine) c)
          (restyle-Checked w d list s _ _ _ _ _ _ _ c)

    written-Checked :
        (s : SignScreen w d) (r : WriteError ⊎ (Bytes × Option Bytes))
        → Checked w d list s
        → Checked w d list (written w d list s r)
    unfolding written
    written-Checked s (inl e) c = named-Checked w d list s _ c
    written-Checked s (inr paths) c = restyle-Checked w d list s _ _ _ _ _ _ _ c

    do_write-Checked :
        (s : SignScreen w d)
        → Checked w d list s
        → Checked w d list (do_write w d list disk z clock config t s).1
    unfolding do_write
    do_write-Checked s c = written-Checked _ _ (
        with_engine-Checked w d list s _
          (write_result-SameKey w d disk z t clock s.engine config.data_dir config.write_final_tx _)
          c)

    accepted-Checked :
        (s : SignScreen w d) (a : Accepted WriteError)
        → Checked w d list s
        → Checked w d list (accepted w d list disk z clock config t s a).1
    unfolding accepted
    accepted-Checked s (emitted p) c = do_write-Checked _ (named-Checked w d list s p c)
    accepted-Checked s (shown p) c = named-Checked w d list s p c

    name_key-Checked :
        (key : Key) (text : Bytes) (s : SignScreen w d)
        → Checked w d list s
        → Checked w d list (name_key w d list disk z clock config key text t s).1
    unfolding name_key accept_name
    name_key-Checked f2_key text s c = set_osk_visible-Checked w d list _ s c
    name_key-Checked enter_key text s c = accepted-Checked s (accept s.naming) c
    name_key-Checked backspace_key text s c = named-Checked w d list s _ c
    name_key-Checked f3_key text s c = name_text-Checked w d list text s c
    name_key-Checked tab_key text s c = name_text-Checked w d list text s c
    name_key-Checked space_key text s c = name_text-Checked w d list text s c
    name_key-Checked (letter_key n) text s c = name_text-Checked w d list text s c
    name_key-Checked (digit_key n) text s c = name_text-Checked w d list text s c
    name_key-Checked other_key text s c = name_text-Checked w d list text s c

    key_press_on-Checked :
        (page : Page) (event : KeyEvent) (s : SignScreen w d)
        → Checked w d list s
        → Checked w d list (key_press_on w d list disk z clock config page event t s).1
    unfolding key_press_on confirm_key
    key_press_on-Checked entry_page event s c =
        entry_key-Checked w d list event.key event.shifted s c
    key_press_on-Checked confirm_page event s c =
        if-Checked w d list (is_enter event.key) _ _
          (if-Checked w d list s.confirm_enabled _ _ (do_sign-Checked s c) c) c
    key_press_on-Checked name_page event s c = name_key-Checked event.key event.text s c
    key_press_on-Checked result_page event s c = c

  step-Checked :
      {a b : World w d list disk z config}
      → Step w d list disk z config a b
      → Checked w d list a.1
      → Checked w d list b.1
  unfolding key_press confirm_back entry_back
  step-Checked (presses event clock t s) c = key_press_on-Checked clock t s.page event s c
  step-Checked (panel_types x t s) c = type_character-Checked w d list x s c
  step-Checked (panel_erases t s) c = press_backspace-Checked w d list s c
  step-Checked (panel_deletes t s) c = delete_word-Checked w d list s c
  step-Checked (panel_clears t s) c = clear_all-Checked w d list s c
  step-Checked (panel_hides t s) c = set_osk_visible-Checked w d list false s c
  step-Checked (panel_picks i t s lt) c = apply_suggestion-Checked w d list i s c
  step-Checked (row_picks i t s p lt) c = apply_suggestion-Checked w d list i s c
  step-Checked (clicks_field f t s p) c = set_field-Checked w d list f s c
  step-Checked (clicks_source k t s p) c = set_key_source-Checked w d list k s c
  step-Checked (toggles_osk b t s) c = set_osk_visible-Checked w d list b s c
  step-Checked (clicks_check t s p) c = check_key-Checked w d list s
  step-Checked (clicks_review t s p e) c = show_confirm-Checked w d list s c
  step-Checked (clicks_entry_back t s p) c = wipe_secrets-Checked w d list _
  step-Checked (clicks_confirm_back t s p) c = restyle-Checked w d list s _ _ _ _ _ _ _ c
  step-Checked (clicks_sign clock t s p e) c = do_sign-Checked clock t s c
  step-Checked (clicks_save clock t s p e) c = do_write-Checked clock t s c
  step-Checked (clicks_clear_name t s p) c = named-Checked w d list s _ c
  step-Checked (clicks_name_back t s p) c = name_back-Checked w d list s
  step-Checked (leaves t s) c = wipe_secrets-Checked w d list s

  -- After anything that the operator can do on the screen: a key that counts as checked is the key
  -- of the text in the buffers at that moment, and its passphrase is empty or was typed twice.
  pub Reachable-Checked :
      {a : World w d list disk z config} → Reachable w d list disk z config a → Checked w d list a.1
  Reachable-Checked (enters t s) = on_enter-Checked w d list config s
  Reachable-Checked (then_step r step) = step-Checked step (Reachable-Checked r)
