-- ===== src/Screens/Sign.antt =====
-- `SignScreen` of src/btc_signer_gui/src/ui/screen_sign.cpp: its state, and what the keys and the
-- fields do to it. The engine and the buffers of the process are members of the state here.
pub mod Flow
use signeros.Base.{
  ℕ, zero, suc, ◌+◌, ◌-◌, Bool, true, false, ◌&&◌, ◌||◌, not, Option, none, some, List, [], ◌∷◌,
  ◌++◌, Bytes, ltb, leb, ◌==◌, if◌then◌else◌, length, get_or, drop,
}
use signeros.Bip39.{Wordlist, bip39_suggestions}
use signeros.Files.Result.{WriteError}
use signeros.Psbt.Wally.{Wally, Double}
use signeros.Psbt.Summary.{Reason}
use signeros.Psbt.Engine.{Engine, Failure, clear_key}
use signeros.Screens.SaveAs.{
  SaveAsPage, is_printable_ascii, type_name_character, chop_name, clear_name,
}
use signeros.Screens.Secrets.{Secrets, is_empty, wipe_all_secrets}
use signeros.Secure.{
  SecureString, append_char, append_bytes, backspace, backspace_word, clear, copy_trailing_word,
}

pub data Field : Type 0 where
  mnemonic_field passphrase_field confirm_field : Field

pub data KeySource : Type 0 where
  from_mnemonic from_xprv : KeySource

pub data Page : Type 0 where
  entry_page confirm_page name_page result_page : Page

-- The errors that the entry page and the confirmation page show.
pub data SignError : Type 0 where
  field_full nothing_entered not_confirmed check_first : SignError
  engine_failed : Failure → SignError
  blocked : Option Reason → SignError

-- `keyStatus_`: the fingerprint, the inputs that the key signs, and all inputs.
pub record KeyStatus : Type 0 where
  pub fingerprint : Bytes
  pub signable : ℕ
  pub inputs : ℕ

pub record SignScreen (w : Wally) (d : Double) : Type 0 where
  pub page : Page
  pub field : Field
  pub source : KeySource
  pub key_checked : Bool
  -- `signBtn_` and `confirmSignBtn_`
  pub sign_enabled : Bool
  pub confirm_enabled : Bool
  pub error : Option SignError
  pub confirm_error : Option SignError
  pub status : Option KeyStatus
  pub osk_visible : Bool
  -- The property "word" of the suggestion buttons, and how many buttons show one on the page and on
  -- the panel of the on-screen keyboard.
  pub suggestion_words : List Bytes
  pub row_shown : ℕ
  pub panel_shown : ℕ
  pub naming : SaveAsPage WriteError
  pub signed_inputs : ℕ
  pub signed_total : ℕ
  pub signed_fingerprint : Bytes
  pub secrets : Secrets
  pub engine : Engine w d

-- `kSuggestionCount`
abbrev pub suggestion_count : ℕ
suggestion_count = 5

abbrev pub is_bip39_char : ℕ → Bool
is_bip39_char c = (leb b'a' c && leb c b'z') || c == b' '

abbrev pub is_base58_char : ℕ → Bool
is_base58_char c =
    if c == b'0' || c == b'O' || c == b'I' || c == b'l'
    then false
    else (leb b'0' c && leb c b'9') || (leb b'A' c && leb c b'Z') || (leb b'a' c && leb c b'z')

-- The characters that a field takes.
unfoldable pub is_allowed : Field → KeySource → ℕ → Bool
is_allowed passphrase_field source c = is_printable_ascii c
is_allowed confirm_field source c = is_printable_ascii c
is_allowed mnemonic_field from_mnemonic c = is_bip39_char c
is_allowed mnemonic_field from_xprv c = is_base58_char c

abbrev pub is_mnemonic : KeySource → Bool
is_mnemonic from_mnemonic = true
is_mnemonic from_xprv = false

abbrev pub same_source : KeySource → KeySource → Bool
same_source from_mnemonic from_mnemonic = true
same_source from_mnemonic from_xprv = false
same_source from_xprv from_mnemonic = false
same_source from_xprv from_xprv = true

-- The field that `setField` ends at: there is no passphrase beside an xprv, and nothing to confirm
-- where the passphrase is empty.
unfoldable pub usable_field : KeySource → Bool → Field → Field
usable_field source no_passphrase mnemonic_field = mnemonic_field
usable_field from_mnemonic no_passphrase passphrase_field = passphrase_field
usable_field from_xprv no_passphrase passphrase_field = mnemonic_field
usable_field from_mnemonic true confirm_field = passphrase_field
usable_field from_mnemonic false confirm_field = confirm_field
usable_field from_xprv no_passphrase confirm_field = mnemonic_field

-- `activeBuffer`
unfoldable pub active_buffer : Field → Secrets → SecureString
active_buffer mnemonic_field s = s.mnemonic
active_buffer passphrase_field s = s.passphrase
active_buffer confirm_field s = s.again

unfoldable pub with_active : Field → SecureString → Secrets → Secrets
with_active mnemonic_field b s = record s { mnemonic = b }
with_active passphrase_field b s = record s { passphrase = b }
with_active confirm_field b s = record s { again = b }

-- The confirmation goes where there is nothing to confirm, and the keystrokes leave it.
abbrev pub leave_confirm : Field → Field
leave_confirm mnemonic_field = mnemonic_field
leave_confirm passphrase_field = passphrase_field
leave_confirm confirm_field = passphrase_field

abbrev pub is_name_page : Page → Bool
is_name_page entry_page = false
is_name_page confirm_page = false
is_name_page name_page = true
is_name_page result_page = false

module _ (w : Wally) (d : Double) (list : Wordlist) where
  -- The words that `refreshSuggestions` finds.
  unfoldable pub found_words : Field → KeySource → Secrets → List Bytes
  found_words mnemonic_field from_mnemonic s =
      bip39_suggestions list (copy_trailing_word s.mnemonic (some 16)) suggestion_count
  found_words mnemonic_field from_xprv s = []
  found_words passphrase_field source s = []
  found_words confirm_field source s = []

  -- `refreshSuggestions`: a button that gets no word keeps the property it had.
  unfoldable pub refresh_suggestions : SignScreen w d → SignScreen w d
  refresh_suggestions s =
      let found = found_words s.field s.source s.secrets in
      record s {
        suggestion_words = found ++ drop (length found) s.suggestion_words;
        row_shown = if s.osk_visible then 0 else length found;
        panel_shown = if s.osk_visible then length found else 0;
      }

  unfoldable pub drop_confirmation : SignScreen w d → SignScreen w d
  drop_confirmation s = record s {
    secrets = record s.secrets {
      again = if is_empty s.secrets.again then s.secrets.again else clear s.secrets.again;
    };
    field = leave_confirm s.field;
  }

  -- `refreshDisplays`: what it does beside the labels.
  unfoldable pub refresh_displays : SignScreen w d → SignScreen w d
  refresh_displays s = refresh_suggestions (
      if is_mnemonic s.source && not (is_empty s.secrets.passphrase)
      then s
      else drop_confirmation s)

  -- `setField`
  unfoldable pub set_field : Field → SignScreen w d → SignScreen w d
  set_field f s =
      refresh_displays
        (record s { field = usable_field s.source (is_empty s.secrets.passphrase) f })

  -- `setOskVisible`
  unfoldable pub set_osk_visible : Bool → SignScreen w d → SignScreen w d
  set_osk_visible visible s = refresh_displays (record s { osk_visible = visible })

  -- What every edit does to a key that was checked; only `typeCharacter` forgets the engine's.
  unfoldable pub uncheck : SignScreen w d → SignScreen w d
  uncheck s = record s { key_checked = false; sign_enabled = false; status = none }

  unfoldable pub new_source : KeySource → SignScreen w d → SignScreen w d
  new_source k s =
      if same_source s.source k
      then s
      else uncheck (record s { secrets = record s.secrets { mnemonic = clear s.secrets.mnemonic } })

  -- `setKeySource`
  unfoldable pub set_key_source : KeySource → SignScreen w d → SignScreen w d
  set_key_source k s =
      let moved = record (new_source k s) { source = k } in set_field (source_field k s.field) moved
    where
      source_field : KeySource → Field → Field
      source_field from_mnemonic f = f
      source_field from_xprv mnemonic_field = mnemonic_field
      source_field from_xprv passphrase_field = mnemonic_field
      source_field from_xprv confirm_field = confirm_field

  -- The first lines of `typeCharacter` behind its guards.
  unfoldable pub forget_checked : SignScreen w d → SignScreen w d
  forget_checked s =
      if s.key_checked then record (uncheck s) { engine = clear_key w d s.engine } else s

  unfoldable pub appended : SignScreen w d → SecureString × Bool → SignScreen w d
  appended s (b, false) = record s { error = some field_full }
  appended s (b, true) =
      refresh_displays (record s { error = none; secrets = with_active s.field b s.secrets })

  -- `typeCharacter`
  unfoldable pub type_character : ℕ → SignScreen w d → SignScreen w d
  type_character c s =
      if is_name_page s.page
      then record s { naming = type_name_character c s.naming }
      else if not (is_allowed s.field s.source c)
      then s
      else appended (forget_checked s) (append_char (active_buffer s.field s.secrets) c)

  -- `backspace`, `deleteWord` and `clearAll` off the page that names the file.
  unfoldable pub edited : (SecureString → SecureString) → SignScreen w d → SignScreen w d
  edited f s = refresh_displays (
      uncheck (record s {
        secrets = with_active s.field (f (active_buffer s.field s.secrets)) s.secrets;
      }))

  unfoldable pub press_backspace : SignScreen w d → SignScreen w d
  press_backspace s =
      if is_name_page s.page then record s { naming = chop_name s.naming } else edited backspace s

  unfoldable pub delete_word : SignScreen w d → SignScreen w d
  delete_word s =
      if is_name_page s.page
      then record s { naming = clear_name s.naming }
      else edited backspace_word s

  unfoldable pub clear_all : SignScreen w d → SignScreen w d
  clear_all s =
      if is_name_page s.page
      then record s { naming = clear_name s.naming }
      else edited clear (record s { error = none })

  unfoldable pub insert_word : Bytes → SignScreen w d → SignScreen w d
  insert_word [] s = s
  insert_word (c ∷ cs) s =
      let put = append_bytes (backspace_word s.secrets.mnemonic) (c ∷ cs) in
      refresh_displays (
        uncheck (record s { secrets = record s.secrets { mnemonic = (append_char put.0 b' ').0 } }))

  -- `applySuggestion`
  unfoldable pub apply_suggestion : ℕ → SignScreen w d → SignScreen w d
  apply_suggestion i s =
      if leb suggestion_count i then s else insert_word (get_or s.suggestion_words i []) s
