-- ===== src/Files/Result/Kept.antt =====
-- `writeResult`: no file is overwritten, and what a success leaves on the stick.
use signeros.Base.{
  ◌≡◌, inl, inr, refl, subst, sym, ap, ◌∙◌, Bool, true, Option, none, some, [], ◌∷◌, ◌++◌, Bytes,
  Bool-cases, Option-cases, if◌then◌else◌,
}
use signeros.Disk.{Disk, IsLawful}
use signeros.Files.{Clock, file_timestamp, path_in, write_file}
use signeros.Files.Write.{write_file-writes, write_file-keeps}
use signeros.Files.Result.{
  Serialiser, Saved, newline, result_name, tx_name, final_tx, new_tx_file, write_final, note_clock,
  saved, write_new, write_payload, write_serialised, write_loaded, write_result, name_taken,
  unwritable,
}
use signeros.Psbt.Wally.{Wally, Double, Psbt}
use signeros.Psbt.Engine.{Engine}

module _ (disk : Disk) (law : IsLawful disk) where
  -- Every file of `s` is a file of `s'` with the same bytes.
  abbrev pub Keeps : disk.State → disk.State → Type 0
  Keeps s s' = (path old : Bytes) → disk.lookup s path ≡ some old → disk.lookup s' path ≡ some old

  new_tx_file-Keeps :
      (s : disk.State) (path text : Bytes) → Keeps s (new_tx_file disk s path text).0
  unfolding new_tx_file
  new_tx_file-Keeps s path text q old l = elim (Bool-cases (disk.exists s path)) [
    | inl e ↦ rw (e, new_tx_file) l
    | inr e ↦ rw (e, new_tx_file) (write_file-keeps disk law s path text q old l)
  ]

  write_final-Keeps :
      (s : disk.State) (dir name : Bytes) (t : Option Bytes)
      → Keeps s (write_final disk s dir name t).0
  unfolding write_final
  write_final-Keeps s dir name none q old l = l
  write_final-Keeps s dir name (some t) q old l =
      new_tx_file-Keeps s (path_in dir (tx_name name)) t q old l

  new_tx_file_path :
      (s : disk.State) (path text p : Bytes)
      → (new_tx_file disk s path text).1 ≡ some p
      → (p ≡ path) × (disk.lookup (new_tx_file disk s path text).0 path ≡ some text)
  unfolding new_tx_file
  new_tx_file_path s path text p = elim (Bool-cases (disk.exists s path)) [
    | inl e ↦ rw (e, new_tx_file) (λ h. absurd cc)
    | inr e ↦ elim (Bool-cases (write_file disk s path text).1) [
      | inl ok ↦
          rw (e, new_tx_file, ok) (λ h. (same h, (write_file-writes disk law s path text ok).1))
      | inr bad ↦ rw (e, new_tx_file, bad) (λ h. absurd cc)
    ]
  ]
    where
      same : some path ≡ some p → p ≡ path
      same h = cc

  -- The transaction file, where one is reported.
  unfoldable pub TxWritten : disk.State → Bytes → Bytes → Option Bytes → Option Bytes → Type 0
  TxWritten s' dir name t none = Unit
  TxWritten s' dir name t (some p) =
      (text : Bytes) × (t ≡ some text)
      × (p ≡ path_in dir (tx_name name))
      × (disk.lookup s' p ≡ some text)

  write_final-TxWritten :
      (s : disk.State) (dir name : Bytes) (t : Option Bytes)
      → TxWritten (write_final disk s dir name t).0 dir name t (write_final disk s dir name t).1
  unfolding write_final TxWritten
  write_final-TxWritten s dir name none = tt
  write_final-TxWritten s dir name (some t) =
      elim (Option-cases (new_tx_file disk s (path_in dir (tx_name name)) t).1) [
        | inl e ↦ rw e tt
        | inr (p, e) ↦
            let (same, held) = new_tx_file_path s (path_in dir (tx_name name)) t p e in
            rw e (t, refl, same, rw same held)
      ]

  module _ (w : Wally) (d : Double) (z : Serialiser) where
    -- What a call of `writeResult` leaves behind, given the PSBT's text `b64`.
    pub data Outcome (s : disk.State) (clock : Clock) (e : Engine w d) (p : Psbt)
        (b64 dir name : Bytes) (also_final : Bool) : Saved disk.State (Engine w d) → Type 0 where
      taken :
          disk.exists s (path_in dir name) ≡ true
          → Outcome s clock e p b64 dir name also_final
              (record { disk = s; engine = e; outcome = inl (name_taken name) })
      unwritten :
          (s' : disk.State)
          → Keeps s s'
          → Outcome s clock e p b64 dir name also_final
              (record { disk = s'; engine = e; outcome = inl (unwritable (path_in dir name)) })
      done :
          (s' : disk.State) (tx : Option Bytes)
          → Keeps s s'
          → disk.lookup s (path_in dir name) ≡ none
          → disk.lookup s' (path_in dir name) ≡ some (b64 ++ newline ∷ [])
          → TxWritten s' dir name (if also_final then final_tx z p else none) tx
          → Outcome s clock e p b64 dir name also_final (record {
            disk = s';
            engine = note_clock w d (file_timestamp clock).1 e;
            outcome = inr (path_in dir name, tx);
          })

    module _ (s : disk.State) (clock : Clock) (e : Engine w d) (p : Psbt) (b64 dir name : Bytes)
        (also_final : Bool) where
      write_new-Outcome :
          Outcome s clock e p b64 dir name also_final
            (write_new disk w d z s clock e p (b64 ++ newline ∷ []) dir name also_final)
      unfolding write_new saved
      write_new-Outcome =
          let r = write_file disk s (path_in dir name) (b64 ++ newline ∷ []) in
          let kept : Keeps s r.0 = λ q old l.
            write_file-keeps disk law s (path_in dir name) (b64 ++ newline ∷ []) q old l in
          elim (Bool-cases r.1) [
            | inl ok ↦
                let text = if also_final then final_tx z p else none in
                let (was, held) =
                  write_file-writes disk law s (path_in dir name) (b64 ++ newline ∷ []) ok in
                rw ok (
                  done (write_final disk r.0 dir name text).0 (write_final disk r.0 dir name text).1
                    (λ q old l. write_final-Keeps r.0 dir name text q old (kept q old l)) was
                    (write_final-Keeps r.0 dir name text _ _ held)
                    (write_final-TxWritten r.0 dir name text))
            | inr bad ↦ rw bad (unwritten r.0 kept)
          ]

      write_payload-Outcome :
          Outcome s clock e p b64 dir name also_final
            (write_payload disk w d z s clock e p (b64 ++ newline ∷ []) dir name also_final)
      unfolding write_payload
      write_payload-Outcome = elim (Bool-cases (disk.exists s (path_in dir name))) [
        | inl there ↦ rw (there, write_payload) (taken there)
        | inr free ↦ rw (free, write_payload) write_new-Outcome
      ]

    Outcome-Keeps :
        {s : disk.State} {clock : Clock} {e : Engine w d} {p : Psbt} {b64 dir name : Bytes}
        {also_final : Bool} {r : Saved disk.State (Engine w d)}
        → Outcome s clock e p b64 dir name also_final r
        → Keeps s r.disk
    Outcome-Keeps (taken there) = λ q old l. l
    Outcome-Keeps (unwritten s' kept) = kept
    Outcome-Keeps (done s' tx kept was held written) = kept

    module _ (s : disk.State) (clock : Clock) (e : Engine w d) (dir file_name : Bytes)
        (also_final : Bool) where
      write_serialised-Keeps :
          (p : Psbt) (t : Option Bytes)
          → Keeps s (write_serialised disk w d z s clock e dir file_name also_final p t).disk
      unfolding write_serialised
      write_serialised-Keeps p none = λ q old l. l
      write_serialised-Keeps p (some b64) = Outcome-Keeps (
          write_payload-Outcome s clock e p b64 dir (result_name disk s clock dir file_name)
            also_final)

      write_loaded-Keeps :
          (o : Option Psbt)
          → Keeps s (write_loaded disk w d z s clock e dir file_name also_final o).disk
      unfolding write_loaded
      write_loaded-Keeps none = λ q old l. l
      write_loaded-Keeps (some p) = write_serialised-Keeps p (z.to_base64 p)

    -- `writeResult` on a loaded PSBT that libwally serialises ends in one of three ways: the name is
    -- in use and nothing happens; the file could not be written; or a file that was not there holds
    -- the PSBT's text and a newline, and a transaction file that is reported holds the text of the
    -- finalised clone. In none of them a file that was on the stick changes, and the
    -- engine is left as it is but for a warning on an unset clock.
    pub write_result-Outcome :
        (s : disk.State) (clock : Clock) (e : Engine w d) (dir file_name : Bytes)
        (also_final : Bool) (p : Psbt) (b64 : Bytes)
        → e.psbt ≡ some p
        → z.to_base64 p ≡ some b64
        → Outcome s clock e p b64 dir
            (result_name disk s clock dir file_name)
            also_final
            (write_result disk w d z s clock e dir file_name also_final)
    unfolding write_result write_loaded write_serialised
    write_result-Outcome s clock e dir file_name also_final p b64 loaded text =
        subst (Outcome s clock e p b64 dir (result_name disk s clock dir file_name) also_final)
          (sym (
            ap (write_loaded disk w d z s clock e dir file_name also_final) loaded
            ∙ ap (write_serialised disk w d z s clock e dir file_name also_final p) text))
          (write_payload-Outcome s clock e p b64 dir (result_name disk s clock dir file_name)
            also_final)

    -- Whatever `writeResult` does and answers, a file that is on the stick before the call is there
    -- after it with the same bytes.
    pub write_result-Keeps :
        (s : disk.State) (clock : Clock) (e : Engine w d) (dir file_name : Bytes)
        (also_final : Bool) (path old : Bytes)
        → disk.lookup s path ≡ some old
        → disk.lookup (write_result disk w d z s clock e dir file_name also_final).disk path
          ≡ some old
    unfolding write_result
    write_result-Keeps s clock e dir file_name also_final path old held =
        write_loaded-Keeps s clock e dir file_name also_final e.psbt path old held
