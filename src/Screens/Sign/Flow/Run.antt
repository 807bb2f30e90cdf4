-- ===== src/Screens/Sign/Flow/Run.antt =====
-- The screen as it is used: what each page offers, and any sequence of that.
use signeros.Base.{ℕ, ◌<◌, ◌≡◌, Bool, true, false}
use signeros.Bip39.{Wordlist}
use signeros.Disk.{Disk}
use signeros.Files.{Clock}
use signeros.Files.Result.{Serialiser}
use signeros.Psbt.Wally.{Wally, Double}
use signeros.Screens.SaveAs.{clear_name}
use signeros.Screens.Sign.{
  SignScreen, Field, KeySource, entry_page, confirm_page, name_page, set_field, set_osk_visible,
  set_key_source, type_character, press_backspace, delete_word, clear_all, apply_suggestion,
}
use signeros.Screens.Sign.Flow.{
  Config, KeyEvent, check_key, show_confirm, entry_back, confirm_back, name_back, wipe_secrets,
  on_enter, do_sign, do_write, key_press,
}

module _ (w : Wally) (d : Double) (list : Wordlist) (disk : Disk) (z : Serialiser)
    (config : Config) where
  -- The stick and the screen.
  abbrev pub World : Type 0
  World = disk.State × SignScreen w d

  -- One thing that the operator can do. The widgets of a page answer while it shows, and a disabled
  -- button does not; the panel of the on-screen keyboard floats over every page.
  pub data Step : World → World → Type 0 where
    presses :
        (event : KeyEvent) (clock : Clock) (t : disk.State) (s : SignScreen w d)
        → Step (t, s) (key_press w d list disk z clock config event t s)
    panel_types :
        (c : ℕ) (t : disk.State) (s : SignScreen w d) → Step (t, s) (t, type_character w d list c s)
    panel_erases :
        (t : disk.State) (s : SignScreen w d) → Step (t, s) (t, press_backspace w d list s)
    panel_deletes : (t : disk.State) (s : SignScreen w d) → Step (t, s) (t, delete_word w d list s)
    panel_clears : (t : disk.State) (s : SignScreen w d) → Step (t, s) (t, clear_all w d list s)
    panel_hides :
        (t : disk.State) (s : SignScreen w d) → Step (t, s) (t, set_osk_visible w d list false s)
    panel_picks :
        (i : ℕ) (t : disk.State) (s : SignScreen w d)
        → i < s.panel_shown
        → Step (t, s) (t, apply_suggestion w d list i s)
    row_picks :
        (i : ℕ) (t : disk.State) (s : SignScreen w d)
        → s.page ≡ entry_page
        → i < s.row_shown
        → Step (t, s) (t, apply_suggestion w d list i s)
    clicks_field :
        (f : Field) (t : disk.State) (s : SignScreen w d)
        → s.page ≡ entry_page
        → Step (t, s) (t, set_field w d list f s)
    clicks_source :
        (k : KeySource) (t : disk.State) (s : SignScreen w d)
        → s.page ≡ entry_page
        → Step (t, s) (t, set_key_source w d list k s)
    toggles_osk :
        (b : Bool) (t : disk.State) (s : SignScreen w d)
        → Step (t, s) (t, set_osk_visible w d list b s)
    clicks_check :
        (t : disk.State) (s : SignScreen w d)
        → s.page ≡ entry_page
        → Step (t, s) (t, check_key w d list s)
    clicks_review :
        (t : disk.State) (s : SignScreen w d)
        → s.page ≡ entry_page
        → s.sign_enabled ≡ true
        → Step (t, s) (t, show_confirm w d list s)
    clicks_entry_back :
        (t : disk.State) (s : SignScreen w d)
        → s.page ≡ entry_page
        → Step (t, s) (t, entry_back w d list s)
    clicks_confirm_back :
        (t : disk.State) (s : SignScreen w d)
        → s.page ≡ confirm_page
        → Step (t, s) (t, confirm_back w d list s)
    clicks_sign :
        (clock : Clock) (t : disk.State) (s : SignScreen w d)
        → s.page ≡ confirm_page
        → s.confirm_enabled ≡ true
        → Step (t, s) (t, do_sign w d list disk z clock config t s)
    clicks_save :
        (clock : Clock) (t : disk.State) (s : SignScreen w d)
        → s.page ≡ name_page
        → (s.naming).accept_enabled ≡ true
        → Step (t, s) (do_write w d list disk z clock config t s)
    clicks_clear_name :
        (t : disk.State) (s : SignScreen w d)
        → s.page ≡ name_page
        → Step (t, s) (t, record s { naming = clear_name s.naming })
    clicks_name_back :
        (t : disk.State) (s : SignScreen w d)
        → s.page ≡ name_page
        → Step (t, s) (t, name_back w d list s)
    leaves : (t : disk.State) (s : SignScreen w d) → Step (t, s) (t, wipe_secrets w d list s)

  -- A visit of the screen begins with `onEnter`, whatever was there before.
  pub data Reachable : World → Type 0 where
    enters : (t : disk.State) (s : SignScreen w d) → Reachable (t, on_enter w d list config s)
    then_step : {a b : World} → Reachable a → Step a b → Reachable b
