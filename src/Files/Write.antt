-- ===== src/Files/Write.antt =====
-- The closure `writeFile`: the loop over write(2) ends, and a file that is reported as written holds
-- the bytes it was given, where there was no file before.
use signeros.Base.{
  ℕ, zero, suc, ◌+◌, ◌≤◌, ◌≡◌, ◌≢◌, inl, inr, refl, sym, ap, ◌∙◌, Bool, true, false, Option, none,
  some, [], ◌∷◌, ◌++◌, append_assoc, append-nil, arith, Bytes, length, take, drop, take-drop,
  Option-cases,
}
use signeros.Disk.{Disk, IsLawful, Written, wrote, interrupted, failed}
use signeros.Files.{write_all, sync_written, write_file}

length-drop : (n : ℕ) (t : Bytes) → n ≤ length t → n + length (drop n t) ≡ length t
length-drop zero t h = omega arith
length-drop (suc n) [] h = absurd (omega arith)
length-drop (suc n) (c ∷ t) h = omega (arith, length-drop n t (omega arith))

module _ (disk : Disk) (law : IsLawful disk) where
  -- The cases of an answer of `write`, with its equation.
  data Outcome (s : disk.State) (path text : Bytes) : Type 0 where
    went : (n : ℕ) → (disk.write s path text).1 ≡ wrote n → Outcome s path text
    broke : (disk.write s path text).1 ≡ interrupted → Outcome s path text
    died : (disk.write s path text).1 ≡ failed → Outcome s path text

  outcome : (s : disk.State) (path text : Bytes) → Outcome s path text
  outcome s path text = by_answer (disk.write s path text).1 refl
    where
      by_answer : (a : Written) → (disk.write s path text).1 ≡ a → Outcome s path text
      by_answer (wrote n) e = went n e
      by_answer interrupted e = broke e
      by_answer failed e = died e

  -- Enough fuel for the loop: it ends, with success or with an error.
  write_all-ends :
      (fuel : ℕ) (s : disk.State) (path text : Bytes)
      → length text + disk.patience s ≤ fuel
      → (write_all disk fuel s path text).1 ≢ none
  unfolding write_all
  write_all-ends fuel s path [] h = λ e. cc
  write_all-ends zero s path (c ∷ cs) h = absurd (omega arith)
  write_all-ends (suc fuel) s path (c ∷ cs) h = elim (outcome s path (c ∷ cs)) [
    | went n e ↦
        rw (e, write_all)
          (write_all-ends fuel (disk.write s path (c ∷ cs)).0 path (drop n (c ∷ cs)) (
            omega (
              arith,
              h,
              length-drop n (c ∷ cs) (law.writes_part s path (c ∷ cs) n e),
              law.writes_some s path (c ∷ cs) n e (omega arith),
              law.writes_patient s path (c ∷ cs) n e,
            )))
    | broke e ↦
        rw (e, write_all)
          (write_all-ends fuel (disk.write s path (c ∷ cs)).0 path (c ∷ cs)
            (omega (arith, h, law.interrupts_less s path (c ∷ cs) e)))
    | died e ↦ rw (e, write_all) (λ e'. cc)
  ]

  -- What the loop appends where it reports success.
  write_all-appends :
      (fuel : ℕ) (s : disk.State) (path old text : Bytes)
      → disk.lookup s path ≡ some old
      → (write_all disk fuel s path text).1 ≡ some true
      → disk.lookup (write_all disk fuel s path text).0 path ≡ some (old ++ text)
  unfolding write_all
  write_all-appends fuel s path old [] l = λ h. l ∙ ap some (sym (append-nil old))
  write_all-appends zero s path old (c ∷ cs) l = λ h. absurd cc
  write_all-appends (suc fuel) s path old (c ∷ cs) l = elim (outcome s path (c ∷ cs)) [
    | went n e ↦
        rw (e, write_all)
          (λ h.
            write_all-appends fuel (disk.write s path (c ∷ cs)).0 path (old ++ take n (c ∷ cs))
              (drop n (c ∷ cs)) (law.writes_behind s path old (c ∷ cs) n e l) h
            ∙ ap some (
                append_assoc old (take n (c ∷ cs)) (drop n (c ∷ cs))
                ∙ ap (λ t. old ++ t) (take-drop n (c ∷ cs))))
    | broke e ↦
        rw (e, write_all)
          (write_all-appends fuel (disk.write s path (c ∷ cs)).0 path old (c ∷ cs)
            (law.interrupts_clean s path (c ∷ cs) e ∙ l))
    | died e ↦ rw (e, write_all) (λ h. absurd cc)
  ]

  write_all-others :
      (fuel : ℕ) (s : disk.State) (path other text : Bytes)
      → other ≢ path
      → disk.lookup (write_all disk fuel s path text).0 other ≡ disk.lookup s other
  unfolding write_all
  write_all-others fuel s path other [] n = refl
  write_all-others zero s path other (c ∷ cs) n = refl
  write_all-others (suc fuel) s path other (c ∷ cs) ne = elim (outcome s path (c ∷ cs)) [
    | went n e ↦
        rw (e, write_all)
          (write_all-others fuel (disk.write s path (c ∷ cs)).0 path other (drop n (c ∷ cs)) ne
            ∙ law.writes_only s path other (c ∷ cs) ne)
    | broke e ↦
        rw (e, write_all)
          (write_all-others fuel (disk.write s path (c ∷ cs)).0 path other (c ∷ cs) ne
            ∙ law.writes_only s path other (c ∷ cs) ne)
    | died e ↦ rw (e, write_all) (law.writes_only s path other (c ∷ cs) ne)
  ]

  sync_written-lookup :
      (path other : Bytes) (r : disk.State × Option Bool)
      → disk.lookup (sync_written disk path r).0 other ≡ disk.lookup r.0 other
  unfolding sync_written
  sync_written-lookup path other (s, some true) = law.syncs_only s path other
  sync_written-lookup path other (s, some false) = refl
  sync_written-lookup path other (s, none) = refl

  sync_written_done :
      (path : Bytes) (r : disk.State × Option Bool)
      → (sync_written disk path r).1 ≡ true
      → r.1 ≡ some true
  unfolding sync_written
  sync_written_done path (s, some true) h = refl
  sync_written_done path (s, some false) h = cc
  sync_written_done path (s, none) h = cc

  -- A file reported as written was not there before and holds the bytes given.
  pub write_file-writes :
      (s : disk.State) (path text : Bytes)
      → (write_file disk s path text).1 ≡ true
      → (disk.lookup s path ≡ none) × (disk.lookup (write_file disk s path text).0 path ≡ some text)
  unfolding write_file
  write_file-writes s path text = elim (Option-cases (disk.open_new s path)) [
    | inl e ↦ rw (e, write_file) (λ h. absurd cc)
    | inr (opened, e) ↦
        rw (e, write_file)
          (λ h.
            let fuel = length text + disk.patience opened in
            let r = write_all disk fuel opened path text in
            (
              law.opens_new s opened path e,
              sync_written-lookup path path r
                  ∙ write_all-appends fuel opened path [] text (law.opens_empty s opened path e)
                      (sync_written_done path r h),
            ))
  ]

  -- No other file changes, whatever the calls answer.
  pub write_file-others :
      (s : disk.State) (path other text : Bytes)
      → other ≢ path
      → disk.lookup (write_file disk s path text).0 other ≡ disk.lookup s other
  unfolding write_file
  write_file-others s path other text ne = elim (Option-cases (disk.open_new s path)) [
    | inl e ↦ rw (e, write_file) refl
    | inr (opened, e) ↦
        rw (e, write_file)
          (sync_written-lookup path other _
            ∙ write_all-others _ opened path other text ne
            ∙ law.opens_only s opened path other e ne)
  ]

  -- On a disk that writes a byte at each answer with a count and bounds its interruptions, which the
  -- laws assume, the loop over write(2) ends within the rounds that the call of it is given.
  pub write_all-terminates :
      (s : disk.State) (path text : Bytes)
      → (write_all disk (length text + disk.patience s) s path text).1 ≢ none
  write_all-terminates s path text = write_all-ends _ s path text (omega arith)

  -- A file that is on the stick stays as it is.
  pub write_file-keeps :
      (s : disk.State) (path text other old : Bytes)
      → disk.lookup s other ≡ some old
      → disk.lookup (write_file disk s path text).0 other ≡ some old
  unfolding write_file
  write_file-keeps s path text other old l = elim (Option-cases (disk.open_new s path)) [
    | inl e ↦ rw (e, write_file) l
    | inr (opened, e) ↦
        write_file-others s path other text (λ same.
          absurd (missing (law.opens_new s opened path e) (ap (disk.lookup s) (sym same) ∙ l)))
        ∙ l
  ]
    where
      missing : {o : Option Bytes} → o ≡ none → o ≡ some old → ⊥
      missing p q = cc
