-- ===== src/Files/Result.antt =====
-- `proposedResultName` and `writeResult` of src/btc_signer_gui/src/core/psbt_engine.cpp: the signed
-- PSBT, and the final transaction beside it, go onto the stick.
pub mod Kept
use signeros.Base.{
  ℕ, ◌-◌, Bool, true, false, Option, none, some, [], ◌∷◌, ◌++◌, ◌⊎◌, inl, inr, Bytes, codes, length,
  take, if◌then◌else◌,
}
use signeros.Disk.{Disk}
use signeros.Files.{
  Clock, file_timestamp, sanitise_file_name, is_empty, has_suffix, path_in, free_file_name,
  write_file,
}
use signeros.Psbt.Wally.{Wally, Double, Psbt, Tx}
use signeros.Psbt.Summary.{TxSummary, Finding, info, clock_unset}
use signeros.Psbt.Engine.{Engine}

-- What `writeResult` calls of libwally; the clone is finalised, never the PSBT itself.
pub record Serialiser : Type 0 where
  pub to_base64 : Psbt → Option Bytes
  pub clone : Psbt → Option Psbt
  pub finalize : Psbt → Option Psbt
  pub is_finalized : Psbt → Option Bool
  pub extract_final : Psbt → Option Tx
  pub tx_to_hex : Tx → Option Bytes

pub data WriteError : Type 0 where
  no_psbt unserialisable : WriteError
  name_taken unwritable : Bytes → WriteError

abbrev pub psbt_suffix : Bytes
psbt_suffix = codes ".psbt"

abbrev pub newline : ℕ
newline = 10

-- The name of the transaction file: the extension is swapped.
unfoldable pub tx_name : Bytes → Bytes
tx_name name =
    (if has_suffix name psbt_suffix then take (length name - 5) name else name) ++ codes ".tx"

module _ (z : Serialiser) where
  unfoldable pub extract_done : Psbt → Option Bool → Option Bytes
  extract_done p none = none
  extract_done p (some false) = none
  extract_done p (some true) = elim (z.extract_final p) [
    | none ↦ none
    | some tx ↦ elim (z.tx_to_hex tx) [ none ↦ none | some hex ↦ some (hex ++ newline ∷ []) ]
  ]

  -- The text of the transaction file, where the PSBT is complete.
  unfoldable pub final_tx : Psbt → Option Bytes
  unfolding extract_done
  final_tx p = elim (z.clone p) [
    | none ↦ none
    | some c ↦ elim (z.finalize c) [ none ↦ none | some f ↦ extract_done f (z.is_finalized f) ]
  ]

-- The result of a write: the disk, the engine, and the paths of the two files or the error.
pub record Saved (S E : Type 0) : Type 0 where
  pub disk : S
  pub engine : E
  pub outcome : WriteError ⊎ (Bytes × Option Bytes)

module _ (w : Wally) (d : Double) where
  unfoldable pub note_clock : Bool → Engine w d → Engine w d
  note_clock false e = e
  note_clock true e = record e {
    summary = record e.summary {
      findings = e.summary.findings ++ record { severity = info; text = clock_unset } ∷ [];
    };
  }

module _ (disk : Disk) where
  -- `proposedResultName`
  unfoldable pub proposed_result_name : disk.State → Clock → Bytes → Bytes
  proposed_result_name s clock dir =
      free_file_name disk s dir (codes "signed_" ++ (file_timestamp clock).0) psbt_suffix

  -- The name typed, or the proposed one where nothing usable was typed.
  unfoldable pub result_name : disk.State → Clock → Bytes → Bytes → Bytes
  unfolding proposed_result_name
  result_name s clock dir file_name =
      let name = sanitise_file_name file_name psbt_suffix in
      if is_empty name then proposed_result_name s clock dir else name

  unfoldable pub new_tx_file : disk.State → Bytes → Bytes → disk.State × Option Bytes
  new_tx_file s path text = elim (disk.exists s path) [
    | true ↦ (s, none)
    | false ↦
        let written = write_file disk s path text in
        (written.0, if written.1 then some path else none)
  ]

  -- The last part of `writeResult`.
  unfoldable pub write_final : disk.State → Bytes → Bytes → Option Bytes → disk.State × Option Bytes
  unfolding new_tx_file tx_name
  write_final s dir name none = (s, none)
  write_final s dir name (some text) = new_tx_file s (path_in dir (tx_name name)) text

  module _ (w : Wally) (d : Double) (z : Serialiser) where
    unfoldable pub saved :
        disk.State
        → Clock
        → Engine w d
        → Psbt
        → Bytes
        → Bytes
        → Bool
        → Saved disk.State (Engine w d)
    unfolding note_clock write_final final_tx
    saved s clock e p dir name also_final =
        let final = write_final s dir name (if also_final then final_tx z p else none) in
        record {
          disk = final.0;
          engine = note_clock w d (file_timestamp clock).1 e;
          outcome = inr (path_in dir name, final.1);
        }

    unfoldable pub write_new :
        disk.State
        → Clock
        → Engine w d
        → Psbt
        → Bytes
        → Bytes
        → Bytes
        → Bool
        → Saved disk.State (Engine w d)
    unfolding saved
    write_new s clock e p payload dir name also_final =
        let written = write_file disk s (path_in dir name) payload in
        if written.1
        then saved written.0 clock e p dir name also_final
        else record { disk = written.0; engine = e; outcome = inl (unwritable (path_in dir name)) }

    unfoldable pub write_payload :
        disk.State
        → Clock
        → Engine w d
        → Psbt
        → Bytes
        → Bytes
        → Bytes
        → Bool
        → Saved disk.State (Engine w d)
    unfolding write_new
    write_payload s clock e p payload dir name also_final =
        elim (disk.exists s (path_in dir name)) [
          | true ↦ record { disk = s; engine = e; outcome = inl (name_taken name) }
          | false ↦ write_new s clock e p payload dir name also_final
        ]

    unfoldable pub write_serialised :
        disk.State
        → Clock
        → Engine w d
        → Bytes
        → Bytes
        → Bool
        → Psbt
        → Option Bytes
        → Saved disk.State (Engine w d)
    unfolding write_payload result_name
    write_serialised s clock e dir file_name also_final p none = record {
      disk = s;
      engine = e;
      outcome = inl unserialisable;
    }
    write_serialised s clock e dir file_name also_final p (some b64) =
        write_payload s clock e p (b64 ++ newline ∷ []) dir (result_name s clock dir file_name)
          also_final

    unfoldable pub write_loaded :
        disk.State
        → Clock
        → Engine w d
        → Bytes
        → Bytes
        → Bool
        → Option Psbt
        → Saved disk.State (Engine w d)
    unfolding write_serialised
    write_loaded s clock e dir file_name also_final none = record {
      disk = s;
      engine = e;
      outcome = inl no_psbt;
    }
    write_loaded s clock e dir file_name also_final (some p) =
        write_serialised s clock e dir file_name also_final p (z.to_base64 p)

    -- `writeResult`
    unfoldable pub write_result :
        disk.State → Clock → Engine w d → Bytes → Bytes → Bool → Saved disk.State (Engine w d)
    unfolding write_loaded
    write_result s clock e dir file_name also_final =
        write_loaded s clock e dir file_name also_final e.psbt
