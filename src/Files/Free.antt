-- ===== src/Files/Free.antt =====
-- `freeFileName`: what the attempts come to.
use signeros.Base.{
  ℕ, zero, suc, ◌+◌, ◌<◌, ◌≤◌, ◌≡◌, inl, inr, refl, true, false, ◌++◌, arith, Bytes, Bool-cases,
  ◌==◌, ==→eq, subst, sym, ap, ◌∙◌,
}
use signeros.Disk.{Disk}
use signeros.Files.{path_in, numbered, next_free, free_file_name}

-- The name that stands before the attempt `n`: the plain one, then the numbered ones.
abbrev pub attempted : Bytes → Bytes → ℕ → Bytes
attempted stem suffix zero = stem ++ suffix
attempted stem suffix (suc n) = numbered stem suffix (suc (suc n))

module _ (disk : Disk) (s : disk.State) (dir stem suffix : Bytes) where
  abbrev pub Taken : Bytes → Type 0
  Taken name = disk.exists s (path_in dir name) ≡ true

  -- The answer after the attempts from `n` on, `left` of them.
  pub data Answer (n left : ℕ) (answer : Bytes) : Type 0 where
    found :
        (k : ℕ)
        → n ≤ k
        → k < n + left
        → disk.exists s (path_in dir answer) ≡ false
        → answer ≡ attempted stem suffix k
        → ((j : ℕ) → n ≤ j → j < k → Taken (attempted stem suffix j))
        → Answer n left answer
    gave_up :
        answer ≡ attempted stem suffix (n + left)
        → ((j : ℕ) → n ≤ j → j < n + left → Taken (attempted stem suffix j))
        → Answer n left answer

  from_next :
      (n k : ℕ)
      → Taken (attempted stem suffix n)
      → ((j : ℕ) → suc n ≤ j → j < k → Taken (attempted stem suffix j))
      → (j : ℕ) → n ≤ j
      → j < k
      → Taken (attempted stem suffix j)
  from_next n k t taken j lo hi = elim (Bool-cases (j == n)) [
    | inl p ↦ subst (λ i. Taken (attempted stem suffix i)) (sym (==→eq j n p)) t
    | inr p ↦ taken j (ground (arith, p)) hi
  ]

  later :
      (n left : ℕ) (answer : Bytes)
      → Taken (attempted stem suffix n)
      → Answer (suc n) left answer
      → Answer n (suc left) answer
  later n left answer t (found k lo hi free e taken) =
      found k (omega arith) (omega arith) free e (from_next n k t taken)
  later n left answer t (gave_up e taken) =
      let shift : suc n + left ≡ n + suc left = omega arith in
      gave_up (e ∙ ap (attempted stem suffix) shift)
        (λ j lo hi. from_next n (suc n + left) t taken j lo (omega (arith, hi)))

  next_free-Answer :
      (n left : ℕ)
      → Answer n left
          (next_free disk s dir stem suffix left (suc (suc n)) (attempted stem suffix n))
  unfolding next_free
  next_free-Answer n zero =
      let same : n ≡ n + 0 = omega arith in
      gave_up (ap (attempted stem suffix) same) (λ j lo hi. absurd (omega (arith, lo, hi)))
  next_free-Answer n (suc left) =
      elim (Bool-cases (disk.exists s (path_in dir (attempted stem suffix n)))) [
        | inl p ↦ rw (p, next_free) (later n left _ p (next_free-Answer (suc n) left))
        | inr p ↦
            rw (p, next_free)
              (found n (omega arith) (omega arith) p refl
                (λ j lo hi. absurd (omega (arith, lo, hi))))
      ]

  -- The name that is offered is the first one, the plain name before the numbers 2 to 998, of which
  -- no file is on the stick; only where all of them are taken it is the name with the number 999,
  -- which is not looked at.
  pub free_file_name-Answer : Answer 0 998 (free_file_name disk s dir stem suffix)
  unfolding free_file_name
  free_file_name-Answer = next_free-Answer 0 998
