-- ===== src/Screens/Sign/Flow/SameKey.antt =====
-- Signing and writing leave the engine's key and its network as they are.
use signeros.Base.{
  ◌++◌, ℕ, ◌≡◌, ◌⊎◌, inl, inr, refl, Bool, true, false, not, Option, none, some, [], ◌∷◌, Bytes,
  leb, ◌==◌, if◌then◌else◌, Bool-cases,
}
use signeros.Disk.{Disk}
use signeros.Files.{Clock, file_timestamp, path_in, write_file}
use signeros.Files.Result.{
  Serialiser, Saved, note_clock, saved, write_new, write_payload, write_serialised, write_loaded,
  write_result, newline, result_name,
}
use signeros.Psbt.Wally.{Wally, Double, Psbt}
use signeros.Psbt.Engine.{
  Engine, Failure, sign, finish_signing, with_psbt, resummarise, count_signatures, not_loaded,
  no_key, refused, nothing_to_sign,
}

-- Two engines with the same key and network.
module _ (w : Wally) (d : Double) where
  abbrev pub SameKey : Engine w d → Engine w d → Type 0
  SameKey e e' = (e'.key ≡ e.key) × (e'.network ≡ e.network)

  if-SameKey :
      (b : Bool) (e : Engine w d) (x y : Engine w d × (Failure ⊎ ℕ))
      → SameKey e x.0
      → SameKey e y.0
      → SameKey e (if b then x else y).0
  if-SameKey true e x y p q = p
  if-SameKey false e x y p q = q

  finish_signing-SameKey :
      (before : ℕ) (r : Bool × Psbt) (e : Engine w d) → SameKey e (finish_signing w d before r e).0
  unfolding finish_signing with_psbt resummarise
  finish_signing-SameKey before r e =
      if-SameKey (not r.0) e _ _ (refl, refl)
        (if-SameKey (leb (count_signatures r.1.inputs) before) e _ _ (refl, refl) (refl, refl))

  pub sign-SameKey : (e : Engine w d) → SameKey e (sign w d e).0
  unfolding sign
  sign-SameKey e = loaded e.psbt
    where
      keyed :
          (p : Psbt) (o : Option w.Key)
          → SameKey e
              (elim o as (λ x. Engine w d × (Failure ⊎ ℕ)) [
                | none ↦ (e, inl no_key)
                | some k ↦
                    if not e.summary.safe_to_sign
                    then (e, inl refused)
                    else if e.summary.signable_inputs == 0
                    then (e, inl nothing_to_sign)
                    else finish_signing w d (count_signatures p.inputs) (w.sign_bip32 k p) e
              ]).0
      keyed p none = (refl, refl)
      keyed p (some k) =
          if-SameKey (not e.summary.safe_to_sign) e _ _ (refl, refl)
            (if-SameKey (e.summary.signable_inputs == 0) e _ _ (refl, refl)
              (finish_signing-SameKey (count_signatures p.inputs) (w.sign_bip32 k p) e))

      loaded :
          (o : Option Psbt)
          → SameKey e
              (elim o as (λ x. Engine w d × (Failure ⊎ ℕ)) [
                | none ↦ (e, inl not_loaded)
                | some p ↦ elim (e.key) [
                  | none ↦ (e, inl no_key)
                  | some k ↦
                      if not e.summary.safe_to_sign
                      then (e, inl refused)
                      else if e.summary.signable_inputs == 0
                      then (e, inl nothing_to_sign)
                      else finish_signing w d (count_signatures p.inputs) (w.sign_bip32 k p) e
                ]
              ]).0
      loaded none = (refl, refl)
      loaded (some p) = keyed p e.key

-- `writeResult` leaves the key and the network.
module _ (w : Wally) (d : Double) (disk : Disk) (z : Serialiser) where
  note_clock-SameKey : (b : Bool) (e : Engine w d) → SameKey w d e (note_clock w d b e)
  unfolding note_clock
  note_clock-SameKey true e = (refl, refl)
  note_clock-SameKey false e = (refl, refl)

  if-Saved :
      (b : Bool) (e : Engine w d) (x y : Saved disk.State (Engine w d))
      → SameKey w d e x.engine
      → SameKey w d e y.engine
      → SameKey w d e (if b then x else y).engine
  if-Saved true e x y p q = p
  if-Saved false e x y p q = q

  module _ (t : disk.State) (clock : Clock) (e : Engine w d) (dir : Bytes) (also_final : Bool) where
    write_payload-SameKey :
        (p : Psbt) (payload name : Bytes)
        → SameKey w d e (write_payload disk w d z t clock e p payload dir name also_final).engine
    unfolding write_payload write_new saved
    write_payload-SameKey p payload name = elim (Bool-cases (disk.exists t (path_in dir name))) [
      | inl there ↦ rw (there, write_payload) (refl, refl)
      | inr free ↦
          rw (free, write_payload)
            (if-Saved (write_file disk t (path_in dir name) payload).1 e _ _
              (note_clock-SameKey (file_timestamp clock).1 e) (refl, refl))
    ]

    write_serialised-SameKey :
        (file_name : Bytes) (p : Psbt) (o : Option Bytes)
        → SameKey w d e (write_serialised disk w d z t clock e dir file_name also_final p o).engine
    unfolding write_serialised
    write_serialised-SameKey file_name p none = (refl, refl)
    write_serialised-SameKey file_name p (some b64) =
        write_payload-SameKey p (b64 ++ newline ∷ []) (result_name disk t clock dir file_name)

    write_loaded-SameKey :
        (file_name : Bytes) (o : Option Psbt)
        → SameKey w d e (write_loaded disk w d z t clock e dir file_name also_final o).engine
    unfolding write_loaded
    write_loaded-SameKey file_name none = (refl, refl)
    write_loaded-SameKey file_name (some p) = write_serialised-SameKey file_name p (z.to_base64 p)

    pub write_result-SameKey :
        (file_name : Bytes)
        → SameKey w d e (write_result disk w d z t clock e dir file_name also_final).engine
    unfolding write_result
    write_result-SameKey file_name = write_loaded-SameKey file_name e.psbt
