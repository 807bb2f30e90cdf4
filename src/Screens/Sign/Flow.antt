-- ===== src/Screens/Sign/Flow.antt =====
-- `SignScreen` of src/btc_signer_gui/src/ui/screen_sign.cpp: checking the key, the confirmation,
-- signing and writing, and the keys of a keyboard.
pub mod Checked
pub mod Run
pub mod SameKey
pub mod Typed
pub mod Off
pub mod Wiped
pub mod Naming
pub mod Signs
mod Tests
use signeros.Base.{
  ℕ, zero, suc, ◌+◌, ◌-◌, Bool, true, false, ◌&&◌, ◌||◌, not, Option, none, some, List, [], ◌∷◌,
  ◌++◌, Bytes, ltb, leb, ◌==◌, if◌then◌else◌, length, ◌⊎◌, inl, inr,
}
use signeros.Bip39.{Wordlist}
use signeros.Disk.{Disk}
use signeros.Files.{Clock}
use signeros.Files.Result.{Serialiser, Saved, WriteError, proposed_result_name, write_result}
use signeros.Psbt.Wally.{Wally, Double}
use signeros.Psbt.Signability.{master_fingerprint}
use signeros.Psbt.Engine.{
  Engine, Failure, clear_key, unload, set_key_from_mnemonic, set_key_from_xprv, sign,
}
use signeros.Screens.SaveAs.{
  SaveAsPage, Accepted, emitted, shown, begin_naming, file_name, set_error, accept, chop_name,
  type_name_character, is_printable_ascii, write_failed,
}
use signeros.Screens.Secrets.{Secrets, c_str, is_empty, wipe_all_secrets, passphrase_confirmed}
use signeros.Screens.Sign.{
  SignScreen, Field, KeySource, Page, SignError, mnemonic_field, passphrase_field, confirm_field,
  from_mnemonic, from_xprv, entry_page, confirm_page, name_page, result_page, nothing_entered,
  not_confirmed, check_first, engine_failed, blocked, is_mnemonic, set_field, set_osk_visible,
  set_key_source, uncheck, type_character, press_backspace, apply_suggestion, suggestion_count,
  refresh_displays,
}
use signeros.Secure.{SecureString, normalise_whitespace}

-- `AppConfig`, as far as this screen reads it.
pub record Config : Type 0 where
  pub physical_keyboard : Bool
  pub data_dir : Bytes
  pub write_final_tx : Bool

-- A key of a keyboard that `keyPressEvent` tells apart; the letters count from 0.
pub data Key : Type 0 where
  enter_key backspace_key space_key tab_key f2_key f3_key other_key : Key
  letter_key : ℕ → Key
  digit_key : ℕ → Key

-- A key event: the key, whether Shift is down, and the text that Qt gives it.
pub record KeyEvent : Type 0 where
  pub key : Key
  pub shifted : Bool
  pub text : Bytes

abbrev pub is_mnemonic_field : Field → Bool
is_mnemonic_field mnemonic_field = true
is_mnemonic_field passphrase_field = false
is_mnemonic_field confirm_field = false

-- F3: the next field.
unfoldable pub next_field : Field → Secrets → Field
next_field mnemonic_field s = passphrase_field
next_field passphrase_field s = if is_empty s.passphrase then mnemonic_field else confirm_field
next_field confirm_field s = mnemonic_field

abbrev pub letter : ℕ → Bool → ℕ
letter n shifted = if shifted then b'a' + n - 32 else b'a' + n

abbrev pub is_enter : Key → Bool
is_enter enter_key = true
is_enter _ = false

module _ (w : Wally) (d : Double) (list : Wordlist) where
  -- `wipeSecrets`
  unfoldable pub wipe_secrets : SignScreen w d → SignScreen w d
  wipe_secrets s = record s {
    secrets = wipe_all_secrets s.secrets;
    engine = clear_key w d s.engine;
    key_checked = false;
    row_shown = 0;
    sign_enabled = false;
  }

  -- `passphraseReady`
  abbrev pub is_ready : SignScreen w d → Bool
  is_ready s =
      not (is_mnemonic s.source) || is_empty s.secrets.passphrase || passphrase_confirmed s.secrets

  unfoldable pub not_ready : SignScreen w d → SignScreen w d
  not_ready s = record (set_field w d list confirm_field s) { error = some not_confirmed }

  -- The key that is typed goes to the engine.
  unfoldable pub derive_from : KeySource → Secrets → Engine w d → Engine w d × Option Failure
  derive_from from_mnemonic s e =
      set_key_from_mnemonic w d (c_str s.mnemonic) (c_str s.passphrase) e
  derive_from from_xprv s e = set_key_from_xprv w d (c_str s.mnemonic) e

  -- The end of `checkKey`, behind the derivation.
  unfoldable pub report_key : SignScreen w d → SignScreen w d
  report_key s =
      let summary = s.engine.summary in
      let can_sign = ltb 0 summary.signable_inputs in
      record s {
        status = some (record {
          fingerprint = master_fingerprint w s.engine.key;
          signable = summary.signable_inputs;
          inputs = length summary.inputs;
        });
        key_checked = can_sign;
        sign_enabled = can_sign && summary.safe_to_sign;
        error =
            if can_sign && not summary.safe_to_sign
            then some (blocked summary.block_reason)
            else s.error;
      }

  unfoldable pub keyed : SignScreen w d → Engine w d × Option Failure → SignScreen w d
  keyed s (e, some f) = record s { engine = e; error = some (engine_failed f) }
  keyed s (e, none) = report_key (record s { engine = e })

  unfoldable pub derive_key : SignScreen w d → SignScreen w d
  derive_key s =
      let secrets = record s.secrets { mnemonic = normalise_whitespace s.secrets.mnemonic } in
      keyed (record s { secrets = secrets }) (derive_from s.source secrets s.engine)

  -- `checkKey`
  unfoldable pub check_key : SignScreen w d → SignScreen w d
  check_key s =
      let start = record (uncheck w d list s) { error = none } in
      if is_empty s.secrets.mnemonic
      then record start { error = some nothing_entered }
      else if is_ready start
      then derive_key start
      else not_ready start

  -- `showConfirm` with the end of `rebuildConfirm`
  unfoldable pub show_confirm : SignScreen w d → SignScreen w d
  show_confirm s =
      if s.key_checked
      then record s {
        confirm_error = none;
        confirm_enabled = s.engine.summary.safe_to_sign && ltb 0 s.engine.summary.signable_inputs;
        page = confirm_page;
      }
      else record s { error = some check_first }

  -- The Back buttons: of the entry page, with `AppWindow::showInspect`, of the confirmation, and of
  -- the page that names the file, with `AppWindow::showScan`.
  abbrev pub on_leave : SignScreen w d → SignScreen w d
  on_leave s = wipe_secrets s

  unfoldable pub entry_back : SignScreen w d → SignScreen w d
  entry_back s = on_leave (wipe_secrets s)

  unfoldable pub confirm_back : SignScreen w d → SignScreen w d
  confirm_back s = record s { page = entry_page }

  unfoldable pub name_back : SignScreen w d → SignScreen w d
  name_back s = let left = on_leave (on_leave s) in record left { engine = unload w d left.engine }

  -- `onEnter`
  unfoldable pub on_enter : Config → SignScreen w d → SignScreen w d
  on_enter config s =
      let start = record s {
        page = entry_page;
        key_checked = false;
        sign_enabled = false;
        status = none;
        error = none;
        confirm_error = none;
      } in
      refresh_displays w d list (
        set_osk_visible w d list (not config.physical_keyboard)
          (set_key_source w d list from_mnemonic (set_field w d list mnemonic_field start)))

  unfoldable pub written : SignScreen w d → WriteError ⊎ (Bytes × Option Bytes) → SignScreen w d
  written s (inl e) = record s { naming = set_error (write_failed e) s.naming }
  written s (inr paths) = record s { page = result_page }

  -- `SaveAsPage::handleKey` for a key that types; a key with another text is left alone.
  unfoldable pub name_text : Bytes → SignScreen w d → SignScreen w d
  name_text [] s = s
  name_text (c ∷ []) s =
      if is_printable_ascii c then record s { naming = type_name_character c s.naming } else s
  name_text (c ∷ c' ∷ cs) s = s

  -- The suggestion that a key picks, where the row of the page shows it.
  unfoldable pub picks : SignScreen w d → ℕ → Bool
  picks s i = is_mnemonic s.source && is_mnemonic_field s.field && ltb i s.row_shown

  -- `keyPressEvent` on the entry page, with Shift or without it.
  unfoldable pub entry_key : Key → Bool → SignScreen w d → SignScreen w d
  entry_key f2_key shifted s = set_osk_visible w d list (not s.osk_visible) s
  entry_key f3_key shifted s =
      if is_mnemonic s.source then set_field w d list (next_field s.field s.secrets) s else s
  entry_key tab_key shifted s = if picks s 0 then apply_suggestion w d list 0 s else s
  entry_key backspace_key shifted s = press_backspace w d list s
  entry_key space_key shifted s = type_character w d list b' ' s
  entry_key enter_key shifted s = if s.key_checked then show_confirm s else check_key s
  entry_key (letter_key n) shifted s = type_character w d list (letter n shifted) s
  entry_key (digit_key n) shifted s =
      if ltb 0 n && leb n suggestion_count && picks s (n - 1)
      then apply_suggestion w d list (n - 1) s
      else type_character w d list (b'0' + n) s
  entry_key other_key shifted s = s

  module _ (disk : Disk) (z : Serialiser) (clock : Clock) (config : Config) where
    -- The end of `doSign`, where the signature is made: what was signed, the secrets go, and the
    -- page that names the file is shown.
    unfoldable pub signed : disk.State → ℕ → SignScreen w d → SignScreen w d
    signed store added s =
        let wiped = wipe_secrets (record s {
          signed_inputs = added;
          signed_total = length s.engine.summary.inputs;
          signed_fingerprint = master_fingerprint w s.engine.key;
        }) in
        set_osk_visible w d list (not config.physical_keyboard) (record wiped {
          naming = begin_naming (proposed_result_name disk store clock config.data_dir) s.naming;
          page = name_page;
          panel_shown = 0;
        })

    unfoldable pub sign_result :
        disk.State → SignScreen w d → Engine w d × (Failure ⊎ ℕ) → SignScreen w d
    sign_result store s (e, inl f) = record s {
      engine = e;
      error = none;
      confirm_error = some (engine_failed f);
    }
    sign_result store s (e, inr added) =
        signed store added (record s { engine = e; error = none; confirm_error = none })

    -- `doSign`
    unfoldable pub do_sign : disk.State → SignScreen w d → SignScreen w d
    do_sign store s =
        if s.key_checked
        then sign_result store s (sign w d s.engine)
        else record s { error = none; confirm_error = some check_first }

    -- `doWrite`
    unfoldable pub do_write : disk.State → SignScreen w d → disk.State × SignScreen w d
    do_write store s =
        let r =
          write_result disk w d z store clock s.engine config.data_dir (file_name s.naming)
            config.write_final_tx in
        (r.disk, written (record s { engine = r.engine }) r.outcome)

    unfoldable pub accepted :
        disk.State → SignScreen w d → Accepted WriteError → disk.State × SignScreen w d
    accepted store s (emitted p) = do_write store (record s { naming = p })
    accepted store s (shown p) = (store, record s { naming = p })

    -- Enter on the page that names the file, from `AppWindow::eventFilter`.
    unfoldable pub accept_name : disk.State → SignScreen w d → disk.State × SignScreen w d
    accept_name store s = accepted store s (accept s.naming)

    -- `keyPressEvent` on the page that names the file; the text is what Qt gives the event.
    unfoldable pub name_key :
        Key → Bytes → disk.State → SignScreen w d → disk.State × SignScreen w d
    name_key f2_key text store s = (store, set_osk_visible w d list (not s.osk_visible) s)
    name_key enter_key text store s = accept_name store s
    name_key backspace_key text store s = (store, record s { naming = chop_name s.naming })
    name_key f3_key text store s = (store, name_text text s)
    name_key tab_key text store s = (store, name_text text s)
    name_key space_key text store s = (store, name_text text s)
    name_key (letter_key n) text store s = (store, name_text text s)
    name_key (digit_key n) text store s = (store, name_text text s)
    name_key other_key text store s = (store, name_text text s)

    -- `keyPressEvent` on the confirmation: nothing but Enter does something.
    unfoldable pub confirm_key : Key → disk.State → SignScreen w d → SignScreen w d
    confirm_key key store s =
        if is_enter key then (if s.confirm_enabled then do_sign store s else s) else s

    unfoldable pub key_press_on :
        Page → KeyEvent → disk.State → SignScreen w d → disk.State × SignScreen w d
    key_press_on entry_page event store s = (store, entry_key event.key event.shifted s)
    key_press_on confirm_page event store s = (store, confirm_key event.key store s)
    key_press_on name_page event store s = name_key event.key event.text store s
    key_press_on result_page event store s = (store, s)

    -- `keyPressEvent`
    unfoldable pub key_press : KeyEvent → disk.State → SignScreen w d → disk.State × SignScreen w d
    key_press event store s = key_press_on s.page event store s
