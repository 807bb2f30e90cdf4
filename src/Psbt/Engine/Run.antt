-- ===== src/Psbt/Engine/Run.antt =====
-- The life of an engine as a sequence of its public operations.
use signeros.Base.{
  ◌≡◌, refl, ◌∷◌, ◌++◌, Bool-cases, ◌⊎◌, inl, inr, Option, none, some, Bytes, [], Bool, true, false,
  ◌==◌, leb, not, ℕ, if◌then◌else◌, length,
}
use signeros.Disk.{Disk}
use signeros.Files.{Clock, file_timestamp, path_in, write_file}
use signeros.Files.Result.{
  Serialiser, Saved, note_clock, saved, write_new, write_payload, write_serialised, write_loaded,
  write_result, newline, result_name,
}
use signeros.Psbt.Wally.{Wally, Double, Network, Psbt}
use signeros.Psbt.Summary.{empty_summary}
use signeros.Psbt.Engine.{
  Engine, load, unload, clear_key, set_key_from_mnemonic, set_key_from_xprv, set_network, sign,
  Failure, mark_valid, with_psbt, resummarise, load_parsed, parse, install_key, finish_signing,
  count_signatures, no_seed, no_master, bad_xprv, public_key, refused, nothing_to_sign, not_loaded,
  no_key,
}

if-pair :
    {A B : Type 0} (P : A → Type 0) (c : Bool) (x y : A × B)
    → P x.0
    → P y.0
    → P (if c then x else y).0
if-pair P true x y p q = p
if-pair P false x y p q = q

module _ (w : Wally) (d : Double) where
  -- The constructor of the class, in a process that holds no key.
  abbrev pub fresh : Network → Engine w d
  fresh n = record {
    network = n;
    psbt = none;
    source_path = [];
    source_name = [];
    summary = empty_summary (d.from_nat 0);
    loose_parse = false;
    key = none;
  }

  pub data Step (e : Engine w d) : Engine w d → Type 1 where
    loads : (path : Bytes) (contents : Option Bytes) → Step e (load w d path contents e).0
    unloads : Step e (unload w d e)
    clears : Step e (clear_key w d e)
    enters_mnemonic :
        (mnemonic passphrase : Bytes) → Step e (set_key_from_mnemonic w d mnemonic passphrase e).0
    enters_xprv : (xprv : Bytes) → Step e (set_key_from_xprv w d xprv e).0
    picks_network : (n : Network) → Step e (set_network w d n e)
    signs : Step e (sign w d e).0
    writes :
        (disk : Disk) (z : Serialiser) (t : disk.State) (clock : Clock) (dir file_name : Bytes)
        (also_final : Bool)
        → Step e (write_result disk w d z t clock e dir file_name also_final).engine

  pub data Reachable : Engine w d → Type 1 where
    start : (n : Network) → Reachable (fresh n)
    then_step : {e e' : Engine w d} → Reachable e → Step e e' → Reachable e'

  -- The operations follow a few paths; this record asks for those.
  pub record Follows (P : Engine w d → Type 0) : Type 0 where
    pub refreshes : (e : Engine w d) → P (resummarise w d e)
    pub forgets : (e : Engine w d) → P e → P (clear_key w d e)
    pub empties : (e : Engine w d) → P (unload w d e)
    pub marks :
        (k : w.Key) (e : Engine w d)
        → (clear_key w d e).psbt ≡ none
        → P e
        → P (mark_valid w d k (clear_key w d e))
    pub relabels : (n : Network) (e : Engine w d) → P e → P (set_network w d n e)
    pub replaces :
        (q : Psbt) (k : w.Key) (e : Engine w d)
        → e.psbt ≡ some q
        → P e
        → P (with_psbt w d (w.sign_bip32 k q).1 e)
    pub notes : (unset : Bool) (e : Engine w d) → P e → P (note_clock w d unset e)

  module _ (P : Engine w d → Type 0) (f : Follows P) where
    load_parsed-Follows :
        (path : Bytes) (r : Failure ⊎ (Psbt × Bool)) (e : Engine w d)
        → P e
        → P (load_parsed w d path r e).0
    unfolding load_parsed
    load_parsed-Follows path (inl x) e p = p
    load_parsed-Follows path (inr (q, loose)) e p = f.refreshes _

    load-Follows :
        (path : Bytes) (contents : Option Bytes) (e : Engine w d) → P (load w d path contents e).0
    unfolding load
    load-Follows path none e = f.empties e
    load-Follows path (some raw) e =
        if-pair P (length raw == 0) _ _ (f.empties e)
          (load_parsed-Follows path (parse w d raw) (unload w d e) (f.empties e))

    install_key-Follows :
        (k : w.Key) (e : Engine w d) → P e → P (install_key w d k (clear_key w d e))
    unfolding install_key
    install_key-Follows k e p = by_psbt (clear_key w d e).psbt refl
      where
        by_psbt :
            (o : Option Psbt)
            → (clear_key w d e).psbt ≡ o
            → P (elim o [
              | none ↦ mark_valid w d k (clear_key w d e)
              | some q ↦ resummarise w d (mark_valid w d k (clear_key w d e))
            ])
        by_psbt none unloaded = f.marks k e unloaded p
        by_psbt (some q) loaded = f.refreshes _

    mnemonic-Follows :
        (mnemonic passphrase : Bytes) (e : Engine w d)
        → P e
        → P (set_key_from_mnemonic w d mnemonic passphrase e).0
    unfolding set_key_from_mnemonic
    mnemonic-Follows mnemonic passphrase e p =
        if-pair P (w.mnemonic_validate mnemonic) _ _ (seeded (w.mnemonic_seed mnemonic passphrase))
          (f.forgets e p)
      where
        keyed :
            (o : Option w.Key)
            → P (
                (elim o as (λ x. Engine w d × Option Failure) [
                  | none ↦ (clear_key w d e, some no_master)
                  | some k ↦ (install_key w d k (clear_key w d e), none)
                ]).0)
        keyed none = f.forgets e p
        keyed (some k) = install_key-Follows k e p

        seeded :
            (o : Option Bytes)
            → P (
                (elim o as (λ x. Engine w d × Option Failure) [
                  | none ↦ (clear_key w d e, some no_seed)
                  | some seed ↦ elim (w.seed_key e.network seed) [
                    | none ↦ (clear_key w d e, some no_master)
                    | some k ↦ (install_key w d k (clear_key w d e), none)
                  ]
                ]).0)
        seeded none = f.forgets e p
        seeded (some seed) = keyed (w.seed_key e.network seed)

    xprv-Follows : (xprv : Bytes) (e : Engine w d) → P e → P (set_key_from_xprv w d xprv e).0
    unfolding set_key_from_xprv
    xprv-Follows xprv e p = decoded (w.base58_key xprv)
      where
        decoded :
            (o : Option w.Key)
            → P (
                (elim o as (λ x. Engine w d × Option Failure) [
                  | none ↦ (clear_key w d e, some bad_xprv)
                  | some k ↦
                      if w.is_private k
                      then (install_key w d k (clear_key w d e), none)
                      else (clear_key w d e, some public_key)
                ]).0)
        decoded none = f.forgets e p
        decoded (some k) =
            if-pair P (w.is_private k) _ _ (install_key-Follows k e p) (f.forgets e p)

    finish_signing-Follows :
        (before : ℕ) (q : Psbt) (k : w.Key) (e : Engine w d)
        → e.psbt ≡ some q
        → P e
        → P (finish_signing w d before (w.sign_bip32 k q) e).0
    unfolding finish_signing
    finish_signing-Follows before q k e held p =
        let r = w.sign_bip32 k q in
        if-pair P (not r.0) _ _ (f.replaces q k e held p) (
          if-pair P (leb (count_signatures r.1.inputs) before) _ _ (f.replaces q k e held p)
            (f.refreshes _))

    sign-Follows : (e : Engine w d) → P e → P (sign w d e).0
    unfolding sign
    sign-Follows e p = loaded e.psbt refl
      where
        guarded :
            (q : Psbt) (k : w.Key)
            → e.psbt ≡ some q
            → P
                (if not e.summary.safe_to_sign
                  then (e, inl refused)
                  else if e.summary.signable_inputs == 0
                  then (e, inl nothing_to_sign)
                  else finish_signing w d (count_signatures q.inputs) (w.sign_bip32 k q) e).0
        guarded q k held = if-pair P (not e.summary.safe_to_sign) _ _ p (
            if-pair P (e.summary.signable_inputs == 0) _ _ p
              (finish_signing-Follows _ q k e held p))

        keyed :
            (q : Psbt) (o : Option w.Key)
            → e.psbt ≡ some q
            → P (
                (elim o as (λ x. Engine w d × (Failure ⊎ ℕ)) [
                  | none ↦ (e, inl no_key)
                  | some k ↦
                      if not e.summary.safe_to_sign
                      then (e, inl refused)
                      else if e.summary.signable_inputs == 0
                      then (e, inl nothing_to_sign)
                      else finish_signing w d (count_signatures q.inputs) (w.sign_bip32 k q) e
                ]).0)
        keyed q none held = p
        keyed q (some k) held = guarded q k held

        loaded :
            (o : Option Psbt)
            → e.psbt ≡ o
            → P (
                (elim o as (λ x. Engine w d × (Failure ⊎ ℕ)) [
                  | none ↦ (e, inl not_loaded)
                  | some q ↦ elim (e.key) [
                    | none ↦ (e, inl no_key)
                    | some k ↦
                        if not e.summary.safe_to_sign
                        then (e, inl refused)
                        else if e.summary.signable_inputs == 0
                        then (e, inl nothing_to_sign)
                        else finish_signing w d (count_signatures q.inputs) (w.sign_bip32 k q) e
                  ]
                ]).0)
        loaded none held = p
        loaded (some q) held = keyed q e.key held

    module _ (disk : Disk) (z : Serialiser) (t : disk.State) (clock : Clock) (e : Engine w d)
        (dir : Bytes) (also_final : Bool) (p : P e) where
      if-Saved :
          (b : Bool) (x y : Saved disk.State (Engine w d))
          → P x.engine
          → P y.engine
          → P (if b then x else y).engine
      if-Saved true x y h k = h
      if-Saved false x y h k = k

      write_payload-Follows :
          (q : Psbt) (payload name : Bytes)
          → P (write_payload disk w d z t clock e q payload dir name also_final).engine
      unfolding write_payload write_new saved
      write_payload-Follows q payload name = elim (Bool-cases (disk.exists t (path_in dir name))) [
        | inl there ↦ rw (there, write_payload) p
        | inr free ↦
            rw (free, write_payload)
              (if-Saved (write_file disk t (path_in dir name) payload).1 _ _
                (f.notes (file_timestamp clock).1 e p) p)
      ]

      write_serialised-Follows :
          (file_name : Bytes) (q : Psbt) (o : Option Bytes)
          → P (write_serialised disk w d z t clock e dir file_name also_final q o).engine
      unfolding write_serialised
      write_serialised-Follows file_name q none = p
      write_serialised-Follows file_name q (some b64) =
          write_payload-Follows q (b64 ++ newline ∷ []) (result_name disk t clock dir file_name)

      write_result-Follows :
          (file_name : Bytes)
          → P (write_result disk w d z t clock e dir file_name also_final).engine
      unfolding write_result write_loaded
      write_result-Follows file_name = loaded e.psbt
        where
          loaded :
              (o : Option Psbt)
              → P (write_loaded disk w d z t clock e dir file_name also_final o).engine
          loaded none = p
          loaded (some q) = write_serialised-Follows file_name q (z.to_base64 q)

    Step-Follows : {e e' : Engine w d} → Step e e' → P e → P e'
    Step-Follows {e = e} (loads path contents) p = load-Follows path contents e
    Step-Follows {e = e} unloads p = f.empties e
    Step-Follows {e = e} clears p = f.forgets e p
    Step-Follows {e = e} (enters_mnemonic mnemonic passphrase) p =
        mnemonic-Follows mnemonic passphrase e p
    Step-Follows {e = e} (enters_xprv xprv) p = xprv-Follows xprv e p
    Step-Follows {e = e} (picks_network n) p = f.relabels n e p
    Step-Follows {e = e} signs p = sign-Follows e p
    Step-Follows {e = e} (writes disk z t clock dir file_name also_final) p =
        write_result-Follows disk z t clock e dir also_final p file_name

    pub Reachable-Follows : ((n : Network) → P (fresh n)) → (e : Engine w d) → Reachable e → P e
    Reachable-Follows s e (start n) = s n
    Reachable-Follows s e' (then_step {e = e} r t) = Step-Follows t (Reachable-Follows s e r)
