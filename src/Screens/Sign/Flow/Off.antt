-- ===== src/Screens/Sign/Flow/Off.antt =====
-- The operations of the entry page and of the confirmation stay off the page that names the file.
use signeros.Base.{
  ℕ, ◌≡◌, refl, Bool, true, false, ◌&&◌, not, Option, none, some, [], ◌∷◌, Bytes, ltb, leb, ◌-◌,
  ◌+◌, if◌then◌else◌, get_or,
}
use signeros.Bip39.{Wordlist}
use signeros.Psbt.Wally.{Wally, Double}
use signeros.Psbt.Engine.{Engine, Failure}
use signeros.Screens.Secrets.{is_empty}
use signeros.Screens.Sign.{
  SignScreen, Field, KeySource, confirm_field, is_mnemonic, is_name_page, is_allowed, same_source,
  refresh_suggestions, drop_confirmation, refresh_displays, set_field, set_osk_visible, uncheck,
  new_source, set_key_source, forget_checked, appended, type_character, edited, press_backspace,
  delete_word, clear_all, insert_word, apply_suggestion, suggestion_count, active_buffer,
  nothing_entered,
}
use signeros.Screens.Sign.Flow.{
  Key, enter_key, backspace_key, space_key, tab_key, f2_key, f3_key, other_key, letter_key,
  digit_key, letter, show_confirm, check_key, is_ready, report_key, keyed, derive_key, not_ready,
  entry_key, picks, next_field,
}
use signeros.Secure.{SecureString, append_char, backspace, backspace_word, clear}

module _ (w : Wally) (d : Double) (list : Wordlist) where
  -- Off the page that names the file.
  abbrev pub Off : SignScreen w d → Type 0
  Off s = is_name_page s.page ≡ false

  pub if-Off : (b : Bool) (s s' : SignScreen w d) → Off s → Off s' → Off (if b then s else s')
  if-Off true s s' p q = p
  if-Off false s s' p q = q

  pub refresh_displays-Off : (s : SignScreen w d) → Off s → Off (refresh_displays w d list s)
  unfolding refresh_displays refresh_suggestions drop_confirmation
  refresh_displays-Off s h =
      if-Off (is_mnemonic s.source && not (is_empty s.secrets.passphrase)) s
        (drop_confirmation w d list s) h h

  pub set_field-Off : (f : Field) (s : SignScreen w d) → Off s → Off (set_field w d list f s)
  unfolding set_field
  set_field-Off f s h = refresh_displays-Off _ h

  pub set_osk_visible-Off :
      (b : Bool) (s : SignScreen w d) → Off s → Off (set_osk_visible w d list b s)
  unfolding set_osk_visible
  set_osk_visible-Off b s h = refresh_displays-Off _ h

  new_source-Off : (k : KeySource) (s : SignScreen w d) → Off s → Off (new_source w d list k s)
  unfolding new_source uncheck
  new_source-Off k s h = if-Off (same_source s.source k) s _ h h

  pub set_key_source-Off :
      (k : KeySource) (s : SignScreen w d) → Off s → Off (set_key_source w d list k s)
  unfolding set_key_source
  set_key_source-Off k s h =
      set_field-Off _ (record (new_source w d list k s) { source = k }) (new_source-Off k s h)

  forget_checked-Off : (s : SignScreen w d) → Off s → Off (forget_checked w d list s)
  unfolding forget_checked uncheck
  forget_checked-Off s h = if-Off s.key_checked _ s h h

  appended-Off :
      (s : SignScreen w d) (r : SecureString × Bool) → Off s → Off (appended w d list s r)
  unfolding appended
  appended-Off s (b, false) h = h
  appended-Off s (b, true) h = refresh_displays-Off _ h

  pub type_character-Off : (c : ℕ) (s : SignScreen w d) → Off s → Off (type_character w d list c s)
  unfolding type_character
  type_character-Off c s h = if-Off (is_name_page s.page) _ _ h (
      if-Off (not (is_allowed s.field s.source c)) s _ h (
        appended-Off (forget_checked w d list s) (append_char (active_buffer s.field s.secrets) c)
          (forget_checked-Off s h)))

  edited-Off :
      (f : SecureString → SecureString) (s : SignScreen w d) → Off s → Off (edited w d list f s)
  unfolding edited uncheck
  edited-Off f s h = refresh_displays-Off _ h

  pub press_backspace-Off : (s : SignScreen w d) → Off s → Off (press_backspace w d list s)
  unfolding press_backspace
  press_backspace-Off s h = if-Off (is_name_page s.page) _ _ h (edited-Off backspace s h)

  pub delete_word-Off : (s : SignScreen w d) → Off s → Off (delete_word w d list s)
  unfolding delete_word
  delete_word-Off s h = if-Off (is_name_page s.page) _ _ h (edited-Off backspace_word s h)

  pub clear_all-Off : (s : SignScreen w d) → Off s → Off (clear_all w d list s)
  unfolding clear_all
  clear_all-Off s h =
      if-Off (is_name_page s.page) _ _ h (edited-Off clear (record s { error = none }) h)

  insert_word-Off : (t : Bytes) (s : SignScreen w d) → Off s → Off (insert_word w d list t s)
  unfolding insert_word uncheck
  insert_word-Off [] s h = h
  insert_word-Off (c ∷ cs) s h = refresh_displays-Off _ h

  pub apply_suggestion-Off :
      (i : ℕ) (s : SignScreen w d) → Off s → Off (apply_suggestion w d list i s)
  unfolding apply_suggestion
  apply_suggestion-Off i s h =
      if-Off (leb suggestion_count i) s _ h (insert_word-Off (get_or s.suggestion_words i []) s h)

  keyed-Off :
      (s : SignScreen w d) (r : Engine w d × Option Failure) → Off s → Off (keyed w d list s r)
  unfolding keyed report_key
  keyed-Off s (e, some f) h = h
  keyed-Off s (e, none) h = h

  pub check_key-Off : (s : SignScreen w d) → Off s → Off (check_key w d list s)
  unfolding check_key uncheck derive_key not_ready
  check_key-Off s h =
      let start = record (uncheck w d list s) { error = none } in
      if-Off (is_empty s.secrets.mnemonic) (record start { error = some nothing_entered }) _ h
        (if-Off (is_ready w d list start) (derive_key w d list start) (not_ready w d list start)
          (keyed-Off _ _ h) (set_field-Off confirm_field start h))

  pub show_confirm-Off : (s : SignScreen w d) → Off s → Off (show_confirm w d list s)
  unfolding show_confirm
  show_confirm-Off s h = if-Off s.key_checked _ _ refl h

  pub entry_key-Off :
      (key : Key) (shifted : Bool) (s : SignScreen w d)
      → Off s
      → Off (entry_key w d list key shifted s)
  unfolding entry_key
  entry_key-Off f2_key shifted s c = set_osk_visible-Off _ s c
  entry_key-Off f3_key shifted s c =
      if-Off (is_mnemonic s.source) _ s (set_field-Off (next_field s.field s.secrets) s c) c
  entry_key-Off tab_key shifted s c = if-Off (picks w d list s 0) _ s (apply_suggestion-Off 0 s c) c
  entry_key-Off backspace_key shifted s c = press_backspace-Off s c
  entry_key-Off space_key shifted s c = type_character-Off b' ' s c
  entry_key-Off enter_key shifted s c =
      if-Off s.key_checked _ _ (show_confirm-Off s c) (check_key-Off s c)
  entry_key-Off (letter_key n) shifted s c = type_character-Off (letter n shifted) s c
  entry_key-Off (digit_key n) shifted s c =
      if-Off (ltb 0 n && leb n suggestion_count && picks w d list s (n - 1)) _ _
        (apply_suggestion-Off (n - 1) s c) (type_character-Off (b'0' + n) s c)
  entry_key-Off other_key shifted s c = c
