-- ===== src/Screens/Sign/Flow/Naming.antt =====
-- While the page that names the file shows, the process holds no secret and no key.
use signeros.Base.{
  ℕ, ◌<◌, ◌≡◌, ◌≢◌, ◌⊎◌, inl, inr, refl, ap, ◌∙◌, Bool, true, false, Option, none, some, [], ◌∷◌,
  Bytes, arith, if◌then◌else◌, Bool-cases,
}
use signeros.Bip39.{Wordlist}
use signeros.Disk.{Disk}
use signeros.Files.{Clock}
use signeros.Files.Result.{Serialiser, WriteError}
use signeros.Psbt.Wally.{Wally, Double}
use signeros.Psbt.Engine.{Engine, Failure, clear_key, unload, sign}
use signeros.Screens.SaveAs.{
  SaveAsPage, Accepted, emitted, shown, accept, type_name_character, is_printable_ascii,
}
use signeros.Screens.Sign.{
  SignScreen, Page, entry_page, confirm_page, name_page, result_page, is_name_page, set_osk_visible,
  type_character, press_backspace, delete_word, clear_all, check_first, apply_suggestion,
  from_mnemonic, mnemonic_field,
}
use signeros.Screens.Sign.Flow.{
  Config, KeyEvent, Key, enter_key, backspace_key, space_key, tab_key, f2_key, f3_key, other_key,
  letter_key, digit_key, wipe_secrets, entry_back, confirm_back, name_back, on_enter, do_sign,
  do_write, key_press, key_press_on, signed, sign_result, written, accepted, accept_name, is_enter,
  name_text, name_key, confirm_key,
}
use signeros.Screens.Sign.Flow.Run.{
  World, Step, Reachable, presses, panel_types, panel_erases, panel_deletes, panel_clears,
  panel_hides, panel_picks, row_picks, clicks_field, clicks_source, toggles_osk, clicks_check,
  clicks_review, clicks_entry_back, clicks_confirm_back, clicks_sign, clicks_save,
  clicks_clear_name, clicks_name_back, leaves, enters, then_step,
}
use signeros.Screens.Sign.Flow.SameKey.{SameKey, write_result-SameKey}
use signeros.Screens.Sign.Flow.Off.{
  Off, refresh_displays-Off, set_field-Off, set_osk_visible-Off, set_key_source-Off,
  type_character-Off, press_backspace-Off, delete_word-Off, clear_all-Off, apply_suggestion-Off,
  check_key-Off, show_confirm-Off, entry_key-Off,
}
use signeros.Screens.Sign.Flow.Wiped.{Wiped, set_osk_visible-Wiped, wipe_all_secrets-AllCleared}

module _ (w : Wally) (d : Double) (list : Wordlist) where
  -- What holds of every state of the screen.
  unfoldable pub Safe : SignScreen w d → Type 0
  Safe s = s.page ≡ name_page → Wiped w d list s

  off_name : (p : Page) → is_name_page p ≡ false → p ≢ name_page
  off_name entry_page h = λ e. cc
  off_name confirm_page h = λ e. cc
  off_name name_page h = absurd cc
  off_name result_page h = λ e. cc

  Off-Safe : (s : SignScreen w d) → Off w d list s → Safe s
  unfolding Safe
  Off-Safe s h = λ e. absurd (off_name s.page h e)

  at_page : (p q : Page) → p ≡ q → is_name_page q ≡ false → is_name_page p ≡ false
  at_page p q e h = ap is_name_page e ∙ h

  on_name : (p : Page) → is_name_page p ≡ true → p ≡ name_page
  on_name entry_page h = cc
  on_name confirm_page h = cc
  on_name name_page h = refl
  on_name result_page h = cc

  -- Off the page an operation may do what keeps it off; on the page it keeps what is wiped.
  by_page :
      (s s' : SignScreen w d)
      → (Off w d list s → Off w d list s')
      → (is_name_page s.page ≡ true → Wiped w d list s → Wiped w d list s')
      → Safe s
      → Safe s'
  unfolding Safe
  by_page s s' off on c = elim (Bool-cases (is_name_page s.page)) [
    | inr h ↦ Off-Safe s' (off h)
    | inl h ↦ λ e. on h (c (on_name s.page h))
  ]

  named-Wiped :
      (s : SignScreen w d) (p : SaveAsPage WriteError)
      → Wiped w d list s
      → Wiped w d list (record s { naming = p })
  named-Wiped s p c = record { cleared = c.cleared; keyless = c.keyless; wordless = c.wordless }

  named-Safe :
      (s : SignScreen w d) (p : SaveAsPage WriteError) → Safe s → Safe (record s { naming = p })
  unfolding Safe
  named-Safe s p c = λ e. named-Wiped s p (c e)

  toggle-Safe : (b : Bool) (s : SignScreen w d) → Safe s → Safe (set_osk_visible w d list b s)
  toggle-Safe b s c =
      by_page s _ (set_osk_visible-Off w d list b s)
        (λ h r. set_osk_visible-Wiped w d list b s r.cleared r.keyless) c

  type_character-Safe : (x : ℕ) (s : SignScreen w d) → Safe s → Safe (type_character w d list x s)
  unfolding type_character
  type_character-Safe x s c = by_page s _ (type_character-Off w d list x s) named c
    where
      named :
          is_name_page s.page ≡ true
          → Wiped w d list s
          → Wiped w d list (type_character w d list x s)
      named h r = rw (h, type_character) (named-Wiped s (type_name_character x s.naming) r)

  press_backspace-Safe : (s : SignScreen w d) → Safe s → Safe (press_backspace w d list s)
  unfolding press_backspace
  press_backspace-Safe s c =
      by_page s _ (press_backspace-Off w d list s)
        (λ h r. rw (h, press_backspace) (named-Wiped s _ r)) c

  delete_word-Safe : (s : SignScreen w d) → Safe s → Safe (delete_word w d list s)
  unfolding delete_word
  delete_word-Safe s c =
      by_page s _ (delete_word-Off w d list s) (λ h r. rw (h, delete_word) (named-Wiped s _ r)) c

  clear_all-Safe : (s : SignScreen w d) → Safe s → Safe (clear_all w d list s)
  unfolding clear_all
  clear_all-Safe s c =
      by_page s _ (clear_all-Off w d list s) (λ h r. rw (h, clear_all) (named-Wiped s _ r)) c

  wipe_secrets-Wiped :
      (s : SignScreen w d) → s.panel_shown ≡ 0 → Wiped w d list (wipe_secrets w d list s)
  unfolding wipe_secrets clear_key
  wipe_secrets-Wiped s n = record {
    cleared = wipe_all_secrets-AllCleared w d list s.secrets;
    keyless = refl;
    wordless = n;
  }

  wipe_secrets-Off : (s : SignScreen w d) → Off w d list s → Off w d list (wipe_secrets w d list s)
  unfolding wipe_secrets
  wipe_secrets-Off s h = h

  wipe_secrets-Safe : (s : SignScreen w d) → Safe s → Safe (wipe_secrets w d list s)
  wipe_secrets-Safe s c =
      by_page s _ (wipe_secrets-Off s) (λ h r. wipe_secrets-Wiped s r.wordless) c

  unloaded-Safe : (s : SignScreen w d) → Safe s → Safe (record s { engine = unload w d s.engine })
  unfolding Safe unload
  unloaded-Safe s c =
      λ e. let r = c e in record { cleared = r.cleared; keyless = r.keyless; wordless = r.wordless }

  name_back-Safe : (s : SignScreen w d) → Safe s → Safe (name_back w d list s)
  unfolding name_back
  name_back-Safe s c = unloaded-Safe _ (wipe_secrets-Safe _ (wipe_secrets-Safe s c))

  name_text-Safe : (t : Bytes) (s : SignScreen w d) → Safe s → Safe (name_text w d list t s)
  unfolding name_text
  name_text-Safe [] s c = c
  name_text-Safe (x ∷ []) s c = by_case (is_printable_ascii x)
    where
      by_case :
          (b : Bool) → Safe (if b then record s { naming = type_name_character x s.naming } else s)
      by_case true = named-Safe s _ c
      by_case false = c
  name_text-Safe (x ∷ y ∷ t) s c = c

  on_enter-Off : (config : Config) (s : SignScreen w d) → Off w d list (on_enter w d list config s)
  unfolding on_enter
  on_enter-Off config s = refresh_displays-Off w d list _ (
      set_osk_visible-Off w d list _ _ (
        set_key_source-Off w d list from_mnemonic _ (set_field-Off w d list mnemonic_field _ refl)))

module _ (w : Wally) (d : Double) (list : Wordlist) (disk : Disk) (z : Serialiser)
    (config : Config) where
  with_engine-Safe :
      (s : SignScreen w d) (e : Engine w d)
      → SameKey w d s.engine e
      → Safe w d list s
      → Safe w d list (record s { engine = e })
  unfolding Safe
  with_engine-Safe s e (same, net) c = λ p.
      let r = c p in
      record { cleared = r.cleared; keyless = same ∙ r.keyless; wordless = r.wordless }

  module _ (clock : Clock) (t : disk.State) where
    pub signed-Wiped :
        (added : ℕ) (s : SignScreen w d)
        → Wiped w d list (signed w d list disk z clock config t added s)
    unfolding signed wipe_secrets clear_key
    signed-Wiped added s =
        set_osk_visible-Wiped w d list _ _ (wipe_all_secrets-AllCleared w d list s.secrets) refl

    -- Where the signature is made nothing of the secrets is left; else the page stays.
    sign_result-Safe :
        (s : SignScreen w d) (r : Engine w d × (Failure ⊎ ℕ))
        → Off w d list s
        → Safe w d list (sign_result w d list disk z clock config t s r)
    unfolding sign_result Safe
    sign_result-Safe s (e, inl f) h = λ p. absurd (off_name w d list s.page h p)
    sign_result-Safe s (e, inr added) h = λ p. signed-Wiped added _

    do_sign-Safe :
        (s : SignScreen w d)
        → Off w d list s
        → Safe w d list (do_sign w d list disk z clock config t s)
    unfolding do_sign
    do_sign-Safe s h = by_case s.key_checked
      where
        by_case :
            (b : Bool)
            → Safe w d list (
                if b
                then sign_result w d list disk z clock config t s (sign w d s.engine)
                else record s { error = none; confirm_error = some check_first })
        by_case true = sign_result-Safe s (sign w d s.engine) h
        by_case false = Off-Safe w d list _ h

    written-Safe :
        (s : SignScreen w d) (r : WriteError ⊎ (Bytes × Option Bytes))
        → Safe w d list s
        → Safe w d list (written w d list s r)
    unfolding written
    written-Safe s (inl e) c = named-Safe w d list s _ c
    written-Safe s (inr paths) c = Off-Safe w d list _ refl

    do_write-Safe :
        (s : SignScreen w d)
        → Safe w d list s
        → Safe w d list (do_write w d list disk z clock config t s).1
    unfolding do_write
    do_write-Safe s c = written-Safe _ _ (
        with_engine-Safe s _
          (write_result-SameKey w d disk z t clock s.engine config.data_dir config.write_final_tx _)
          c)

    accepted-Safe :
        (s : SignScreen w d) (a : Accepted WriteError)
        → Safe w d list s
        → Safe w d list (accepted w d list disk z clock config t s a).1
    unfolding accepted
    accepted-Safe s (emitted p) c = do_write-Safe _ (named-Safe w d list s p c)
    accepted-Safe s (shown p) c = named-Safe w d list s p c

    name_key-Safe :
        (key : Key) (text : Bytes) (s : SignScreen w d)
        → Safe w d list s
        → Safe w d list (name_key w d list disk z clock config key text t s).1
    unfolding name_key accept_name
    name_key-Safe f2_key text s c = toggle-Safe w d list _ s c
    name_key-Safe enter_key text s c = accepted-Safe s (accept s.naming) c
    name_key-Safe backspace_key text s c = named-Safe w d list s _ c
    name_key-Safe f3_key text s c = name_text-Safe w d list text s c
    name_key-Safe tab_key text s c = name_text-Safe w d list text s c
    name_key-Safe space_key text s c = name_text-Safe w d list text s c
    name_key-Safe (letter_key n) text s c = name_text-Safe w d list text s c
    name_key-Safe (digit_key n) text s c = name_text-Safe w d list text s c
    name_key-Safe other_key text s c = name_text-Safe w d list text s c

    confirm_key-Safe :
        (key : Key) (s : SignScreen w d)
        → Off w d list s
        → Safe w d list (confirm_key w d list disk z clock config key t s)
    unfolding confirm_key
    confirm_key-Safe key s h = by_case (is_enter key) s.confirm_enabled
      where
        by_case :
            (b b' : Bool)
            → Safe w d list
                (if b then (if b' then do_sign w d list disk z clock config t s else s) else s)
        by_case true true = do_sign-Safe s h
        by_case true false = Off-Safe w d list s h
        by_case false b' = Off-Safe w d list s h

    key_press_on-Safe :
        (page : Page) (event : KeyEvent) (s : SignScreen w d)
        → s.page ≡ page
        → Safe w d list s
        → Safe w d list (key_press_on w d list disk z clock config page event t s).1
    unfolding key_press_on
    key_press_on-Safe entry_page event s e c =
        Off-Safe w d list _
          (entry_key-Off w d list event.key event.shifted s (at_page w d list s.page _ e refl))
    key_press_on-Safe confirm_page event s e c =
        confirm_key-Safe event.key s (at_page w d list s.page _ e refl)
    key_press_on-Safe name_page event s e c = name_key-Safe event.key event.text s c
    key_press_on-Safe result_page event s e c = c

  pick-Safe :
      (i : ℕ) (s : SignScreen w d)
      → i < s.panel_shown
      → Safe w d list s
      → Safe w d list (apply_suggestion w d list i s)
  pick-Safe i s lt c =
      by_page w d list s _ (apply_suggestion-Off w d list i s)
        (λ h r. absurd (none_shown r.wordless)) c
    where
      none_shown : s.panel_shown ≡ 0 → ⊥
      none_shown e = omega (arith, e, lt)

  at_entry : (s : SignScreen w d) (p : Page) → s.page ≡ p → is_name_page p ≡ false → Off w d list s
  at_entry s p e h = at_page w d list s.page p e h

  Step-Safe :
      {a b : World w d list disk z config}
      → Step w d list disk z config a b
      → Safe w d list a.1
      → Safe w d list b.1
  unfolding key_press confirm_back entry_back
  Step-Safe (presses event clock t s) c = key_press_on-Safe clock t s.page event s refl c
  Step-Safe (panel_types x t s) c = type_character-Safe w d list x s c
  Step-Safe (panel_erases t s) c = press_backspace-Safe w d list s c
  Step-Safe (panel_deletes t s) c = delete_word-Safe w d list s c
  Step-Safe (panel_clears t s) c = clear_all-Safe w d list s c
  Step-Safe (panel_hides t s) c = toggle-Safe w d list false s c
  Step-Safe (panel_picks i t s lt) c = pick-Safe i s lt c
  Step-Safe (row_picks i t s p lt) c =
      Off-Safe w d list _ (apply_suggestion-Off w d list i s (at_entry s _ p refl))
  Step-Safe (clicks_field f t s p) c =
      Off-Safe w d list _ (set_field-Off w d list f s (at_entry s _ p refl))
  Step-Safe (clicks_source k t s p) c =
      Off-Safe w d list _ (set_key_source-Off w d list k s (at_entry s _ p refl))
  Step-Safe (toggles_osk b t s) c = toggle-Safe w d list b s c
  Step-Safe (clicks_check t s p) c =
      Off-Safe w d list _ (check_key-Off w d list s (at_entry s _ p refl))
  Step-Safe (clicks_review t s p e) c =
      Off-Safe w d list _ (show_confirm-Off w d list s (at_entry s _ p refl))
  Step-Safe (clicks_entry_back t s p) c =
      wipe_secrets-Safe w d list _ (wipe_secrets-Safe w d list s c)
  Step-Safe (clicks_confirm_back t s p) c = Off-Safe w d list _ refl
  Step-Safe (clicks_sign clock t s p e) c = do_sign-Safe clock t s (at_entry s _ p refl)
  Step-Safe (clicks_save clock t s p e) c = do_write-Safe clock t s c
  Step-Safe (clicks_clear_name t s p) c = named-Safe w d list s _ c
  Step-Safe (clicks_name_back t s p) c = name_back-Safe w d list s c
  Step-Safe (leaves t s) c = wipe_secrets-Safe w d list s c

  Reachable-Safe :
      {a : World w d list disk z config} → Reachable w d list disk z config a → Safe w d list a.1
  Reachable-Safe (enters t s) = Off-Safe w d list _ (on_enter-Off w d list config s)
  Reachable-Safe (then_step r step) = Step-Safe step (Reachable-Safe r)

  -- After anything that the operator can do on the screen: while the page that names the file shows,
  -- the four buffers are cleared, the engine holds no key, and no suggestion can be picked.
  pub Reachable-Wiped :
      {a : World w d list disk z config}
      → Reachable w d list disk z config a
      → a.1.page ≡ name_page
      → Wiped w d list a.1
  unfolding Safe
  Reachable-Wiped r e = Reachable-Safe r e
