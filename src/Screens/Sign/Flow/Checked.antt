-- ===== src/Screens/Sign/Flow/Checked.antt =====
-- What a checked key is, and that every operation of the screen keeps it.
use signeros.Base.{
  ℕ, ◌≡◌, inl, inr, refl, ◌∙◌, subst, Bool, true, false, ◌&&◌, not, Option, none, some, ◌∷◌, [],
  Bytes, get_or, arith, leb, if◌then◌else◌, Bool-cases, Option-cases,
}
use signeros.Bip39.{Wordlist}
use signeros.Psbt.Wally.{Wally, Double, Network, Psbt}
use signeros.Psbt.Engine.{
  Engine, Failure, clear_key, install_key, set_key_from_mnemonic, set_key_from_xprv, mark_valid,
  resummarise,
}
use signeros.Files.Result.{WriteError}
use signeros.Screens.SaveAs.{SaveAsPage, type_name_character, chop_name, clear_name}
use signeros.Screens.Secrets.{Secrets, c_str, is_empty, passphrase_confirmed}
use signeros.Screens.Sign.{
  SignScreen, Field, KeySource, Page, SignError, confirm_field, nothing_entered, from_mnemonic,
  from_xprv, is_mnemonic, same_source, refresh_displays, refresh_suggestions, drop_confirmation,
  set_field, set_osk_visible, new_source, set_key_source, uncheck, forget_checked, appended,
  type_character, edited, press_backspace, delete_word, clear_all, insert_word, apply_suggestion,
  suggestion_count, is_name_page, is_allowed, active_buffer,
}
use signeros.Screens.Sign.Flow.{
  is_ready, not_ready, derive_from, report_key, keyed, derive_key, check_key,
}
use signeros.Secure.{SecureString, append_char, backspace, backspace_word, clear}

-- The master key that a typed text stands for.
unfoldable pub typed_key : (w : Wally) → Network → KeySource → Bytes → Bytes → Option w.Key
typed_key w n from_mnemonic mnemonic passphrase =
    if w.mnemonic_validate mnemonic
    then elim (w.mnemonic_seed mnemonic passphrase) [ none ↦ none | some seed ↦ w.seed_key n seed ]
    else none
typed_key w n from_xprv xprv passphrase = elim (w.base58_key xprv) [
  | none ↦ none
  | some k ↦ if w.is_private k then some k else none
]

module _ (w : Wally) (d : Double) (list : Wordlist) where
  -- The engine `e` came by the key of the text.
  abbrev pub HasKey : Network → KeySource → Bytes → Bytes → Engine w d → Type 0
  HasKey n source mnemonic passphrase e =
      (k : w.Key) × (e.key ≡ some k)
      × (typed_key w n source mnemonic passphrase ≡ some k)
      × (e.network ≡ n)

  install_key-key :
      (k : w.Key) (e : Engine w d)
      → ((install_key w d k e).key ≡ some k) × ((install_key w d k e).network ≡ e.network)
  unfolding install_key resummarise
  install_key-key k e = by_psbt e.psbt
    where
      by_psbt :
          (o : Option Psbt)
          → ((elim o as (λ x. Engine w d) [
            | none ↦ mark_valid w d k e
            | some q ↦ resummarise w d (mark_valid w d k e)
          ]).key
              ≡ some k)
            × ((elim o as (λ x. Engine w d) [
              | none ↦ mark_valid w d k e
              | some q ↦ resummarise w d (mark_valid w d k e)
            ]).network
                ≡ e.network)
      by_psbt none = (refl, refl)
      by_psbt (some q) = (refl, refl)

  clear_key-network : (e : Engine w d) → (clear_key w d e).network ≡ e.network
  unfolding clear_key
  clear_key-network e = refl

  pub mnemonic-HasKey :
      (m p : Bytes) (e : Engine w d)
      → (set_key_from_mnemonic w d m p e).1 ≡ none
      → HasKey e.network from_mnemonic m p (set_key_from_mnemonic w d m p e).0
  unfolding set_key_from_mnemonic typed_key
  mnemonic-HasKey m p e = elim (Bool-cases (w.mnemonic_validate m)) [
    | inr bad ↦ rw bad (λ h. absurd cc)
    | inl ok ↦ elim (Option-cases (w.mnemonic_seed m p)) [
      | inl no_seed ↦ rw (ok, no_seed) (λ h. absurd cc)
      | inr (seed, made) ↦ elim (Option-cases (w.seed_key e.network seed)) [
        | inl no_key ↦ rw (ok, made, no_key) (λ h. absurd cc)
        | inr (k, derived) ↦
            rw (ok, made, derived)
              (λ h.
                let (same, net) = install_key-key k (clear_key w d e) in
                (k, same, refl, net ∙ clear_key-network e))
      ]
    ]
  ]

  pub xprv-HasKey :
      (x p : Bytes) (e : Engine w d)
      → (set_key_from_xprv w d x e).1 ≡ none
      → HasKey e.network from_xprv x p (set_key_from_xprv w d x e).0
  unfolding set_key_from_xprv typed_key
  xprv-HasKey x p e = elim (Option-cases (w.base58_key x)) [
    | inl bad ↦ rw (bad, set_key_from_xprv) (λ h. absurd cc)
    | inr (k, decoded) ↦ elim (Bool-cases (w.is_private k)) [
      | inl private ↦
          rw (decoded, private, set_key_from_xprv, typed_key)
            (λ h.
              let (same, net) = install_key-key k (clear_key w d e) in
              (k, same, refl, net ∙ clear_key-network e))
      | inr public ↦ rw (decoded, public, set_key_from_xprv) (λ h. absurd cc)
    ]
  ]

  pub derive_from-HasKey :
      (source : KeySource) (t : Secrets) (e : Engine w d)
      → (derive_from w d list source t e).1 ≡ none
      → HasKey e.network source
          (c_str t.mnemonic)
          (c_str t.passphrase)
          (derive_from w d list source t e).0
  unfolding derive_from
  derive_from-HasKey from_mnemonic t e h =
      mnemonic-HasKey (c_str t.mnemonic) (c_str t.passphrase) e h
  derive_from-HasKey from_xprv t e h = xprv-HasKey (c_str t.mnemonic) (c_str t.passphrase) e h

  -- A key that counts as checked is the key of the text in the buffers, and its passphrase is empty
  -- or was typed twice.
  unfoldable pub Checked : SignScreen w d → Type 0
  Checked s =
      s.key_checked ≡ true
      → HasKey s.engine.network s.source (c_str s.secrets.mnemonic) (c_str s.secrets.passphrase)
          s.engine
        × (is_ready w d list s ≡ true)

  pub unchecked : (s : SignScreen w d) → s.key_checked ≡ false → Checked s
  unfolding Checked
  unchecked s h = λ e. absurd (clash e h)
    where
      clash : {b : Bool} → b ≡ true → b ≡ false → ⊥
      clash p q = cc

  pub drop_confirmation-Checked :
      (s : SignScreen w d)
      → (is_mnemonic s.source && not (is_empty s.secrets.passphrase)) ≡ false
      → Checked s
      → Checked (drop_confirmation w d list s)
  unfolding drop_confirmation Checked
  drop_confirmation-Checked s h c = λ e. let (k, ready) = c e in (k, ground (arith, h))

  pub refresh_suggestions-Checked :
      (s : SignScreen w d) → Checked s → Checked (refresh_suggestions w d list s)
  unfolding refresh_suggestions Checked
  refresh_suggestions-Checked s c = c

  pub refresh_displays-Checked :
      (s : SignScreen w d) → Checked s → Checked (refresh_displays w d list s)
  unfolding refresh_displays
  refresh_displays-Checked s c =
      elim (Bool-cases (is_mnemonic s.source && not (is_empty s.secrets.passphrase))) [
        | inl p ↦ rw p (refresh_suggestions-Checked s c)
        | inr p ↦ rw p (
            refresh_suggestions-Checked (drop_confirmation w d list s)
              (drop_confirmation-Checked s p c))
      ]

  -- What `Checked` does not look at may change.
  pub restyle-Checked :
      (s : SignScreen w d) (page : Page) (f : Field) (osk enabled : Bool)
      (error confirm_error : Option SignError) (naming : SaveAsPage WriteError)
      → Checked s
      → Checked (record s {
        page = page;
        field = f;
        osk_visible = osk;
        confirm_enabled = enabled;
        error = error;
        confirm_error = confirm_error;
        naming = naming;
      })
  unfolding Checked
  restyle-Checked s page f osk enabled error confirm_error naming c = c

  pub named-Checked :
      (s : SignScreen w d) (p : SaveAsPage WriteError)
      → Checked s
      → Checked (record s { naming = p })
  unfolding Checked
  named-Checked s p c = c

  pub set_field-Checked :
      (f : Field) (s : SignScreen w d) → Checked s → Checked (set_field w d list f s)
  unfolding set_field
  set_field-Checked f s c = refresh_displays-Checked _ (restyle-Checked s _ _ _ _ _ _ _ c)

  pub set_osk_visible-Checked :
      (b : Bool) (s : SignScreen w d) → Checked s → Checked (set_osk_visible w d list b s)
  unfolding set_osk_visible
  set_osk_visible-Checked b s c = refresh_displays-Checked _ (restyle-Checked s _ _ _ _ _ _ _ c)

  same_source_sound : (a b : KeySource) → same_source a b ≡ true → a ≡ b
  same_source_sound from_mnemonic from_mnemonic h = refl
  same_source_sound from_mnemonic from_xprv h = cc
  same_source_sound from_xprv from_mnemonic h = cc
  same_source_sound from_xprv from_xprv h = refl

  pub new_source-Checked :
      (k : KeySource) (s : SignScreen w d)
      → Checked s
      → Checked (record (new_source w d list k s) { source = k })
  unfolding new_source uncheck Checked
  new_source-Checked k s c = elim (Bool-cases (same_source s.source k)) [
    | inl p ↦
        rw p (subst (λ x. Checked (record s { source = x })) (same_source_sound s.source k p) c)
    | inr p ↦ rw p (λ e. absurd cc)
  ]

  pub set_key_source-Checked :
      (k : KeySource) (s : SignScreen w d) → Checked s → Checked (set_key_source w d list k s)
  unfolding set_key_source
  set_key_source-Checked k s c = set_field-Checked _ _ (new_source-Checked k s c)

  forget_checked_lem : (s : SignScreen w d) → (forget_checked w d list s).key_checked ≡ false
  unfolding forget_checked uncheck
  forget_checked_lem s = elim (Bool-cases s.key_checked) [ inl p ↦ rw p refl | inr p ↦ rw p refl ]

  pub appended-Checked :
      (s : SignScreen w d) (r : SecureString × Bool)
      → s.key_checked ≡ false
      → Checked (appended w d list s r)
  unfolding appended
  appended-Checked s (b, false) h = unchecked _ h
  appended-Checked s (b, true) h = refresh_displays-Checked _ (unchecked _ h)

  pub if-Checked :
      (b : Bool) (s s' : SignScreen w d) → Checked s → Checked s' → Checked (if b then s else s')
  if-Checked true s s' c c' = c
  if-Checked false s s' c c' = c'

  pub type_character-Checked :
      (c : ℕ) (s : SignScreen w d) → Checked s → Checked (type_character w d list c s)
  unfolding type_character
  type_character-Checked c s h =
      if-Checked (is_name_page s.page) _ _ (named-Checked s (type_name_character c s.naming) h) (
        if-Checked (not (is_allowed s.field s.source c)) _ _ h (
          appended-Checked (forget_checked w d list s)
            (append_char (active_buffer s.field s.secrets) c) (forget_checked_lem s)))

  pub edited-Checked :
      (f : SecureString → SecureString) (s : SignScreen w d) → Checked (edited w d list f s)
  unfolding edited uncheck
  edited-Checked f s = refresh_displays-Checked _ (unchecked _ refl)

  pub press_backspace-Checked :
      (s : SignScreen w d) → Checked s → Checked (press_backspace w d list s)
  unfolding press_backspace
  press_backspace-Checked s h =
      if-Checked (is_name_page s.page) _ _ (named-Checked s (chop_name s.naming) h)
        (edited-Checked backspace s)

  pub delete_word-Checked : (s : SignScreen w d) → Checked s → Checked (delete_word w d list s)
  unfolding delete_word
  delete_word-Checked s h =
      if-Checked (is_name_page s.page) _ _ (named-Checked s (clear_name s.naming) h)
        (edited-Checked backspace_word s)

  pub clear_all-Checked : (s : SignScreen w d) → Checked s → Checked (clear_all w d list s)
  unfolding clear_all
  clear_all-Checked s h =
      if-Checked (is_name_page s.page) _ _ (named-Checked s (clear_name s.naming) h)
        (edited-Checked clear (record s { error = none }))

  pub insert_word-Checked :
      (t : Bytes) (s : SignScreen w d) → Checked s → Checked (insert_word w d list t s)
  unfolding insert_word uncheck
  insert_word-Checked [] s h = h
  insert_word-Checked (c ∷ cs) s h = refresh_displays-Checked _ (unchecked _ refl)

  pub apply_suggestion-Checked :
      (i : ℕ) (s : SignScreen w d) → Checked s → Checked (apply_suggestion w d list i s)
  unfolding apply_suggestion
  apply_suggestion-Checked i s h =
      if-Checked (leb suggestion_count i) _ _ h
        (insert_word-Checked (get_or s.suggestion_words i []) s h)

  pub report_key-Checked :
      (s : SignScreen w d)
      → HasKey s.engine.network s.source
          (c_str s.secrets.mnemonic)
          (c_str s.secrets.passphrase)
          s.engine
      → is_ready w d list s ≡ true
      → Checked (report_key w d list s)
  unfolding report_key Checked
  report_key-Checked s k ready = λ e. (k, ready)

  pub keyed-Checked :
      (s : SignScreen w d) (n : Network) (r : Engine w d × Option Failure)
      → s.key_checked ≡ false
      → is_ready w d list s ≡ true
      → (r.1 ≡ none → HasKey n s.source (c_str s.secrets.mnemonic) (c_str s.secrets.passphrase) r.0)
      → Checked (keyed w d list s r)
  unfolding keyed
  keyed-Checked s n (e, some f) h ready k = unchecked _ h
  keyed-Checked s n (e, none) h ready k =
      let (key, held, typed, net) = k refl in
      report_key-Checked (record s { engine = e }) (key, held, rw net typed, refl) ready

  pub derive_key-Checked :
      (s : SignScreen w d)
      → s.key_checked ≡ false
      → is_ready w d list s ≡ true
      → Checked (derive_key w d list s)
  unfolding derive_key passphrase_confirmed
  derive_key-Checked s h ready =
      keyed-Checked _ s.engine.network _ h ready (derive_from-HasKey s.source _ s.engine)

  pub not_ready-Checked :
      (s : SignScreen w d) → s.key_checked ≡ false → Checked (not_ready w d list s)
  unfolding not_ready
  not_ready-Checked s h =
      restyle-Checked (set_field w d list confirm_field s) _ _ _ _ _ _ _
        (set_field-Checked confirm_field s (unchecked s h))

  -- Whatever the buffers hold, a key that `checkKey` lets count as checked is the key of the
  -- normalised text, with a passphrase that is empty or was typed twice.
  pub check_key-Checked : (s : SignScreen w d) → Checked (check_key w d list s)
  unfolding check_key uncheck
  check_key-Checked s =
      let start = record (uncheck w d list s) { error = none } in
      if-Checked (is_empty s.secrets.mnemonic) (record start { error = some nothing_entered })
        (if is_ready w d list start then derive_key w d list start else not_ready w d list start)
        (unchecked _ refl)
        (elim (Bool-cases (is_ready w d list start)) [
          | inl p ↦ rw p (derive_key-Checked start refl p)
          | inr p ↦ rw p (not_ready-Checked start refl)
        ])
