-- ===== src/Files/Memory.antt =====
-- A disk in memory that keeps the promises of `IsLawful`.
use signeros.Base.{
  ℕ, ◌≡◌, ◌≢◌, inl, inr, refl, sym, ap, ◌∙◌, Bool, true, false, Option, none, some, [], ◌∷◌, ◌++◌,
  arith, Bytes, length, take, if◌then◌else◌, Bool-cases, Option-cases,
}
use signeros.Base.Equal.{bytes_eq, bytes_eq→eq, bytes_eq_refl}
use signeros.Disk.{Disk, IsLawful, Written, wrote}

abbrev Store : Type 0
Store = Bytes → Option Bytes

abbrev put : Store → Bytes → Bytes → Store
put s p text = λ q. if bytes_eq q p then some text else s q

abbrev is_some : Option Bytes → Bool
is_some none = false
is_some (some t) = true

abbrev or_empty : Option Bytes → Bytes
or_empty none = []
or_empty (some t) = t

abbrev open_empty : Store → Bytes → Option Bytes → Option Store
open_empty s p none = some (put s p [])
open_empty s p (some t) = none

abbrev pub memory : Disk
memory = record {
  State = Store;
  lookup = λ s p. s p;
  exists = λ s p. is_some (s p);
  open_new = λ s p. open_empty s p (s p);
  write = λ s p text. (put s p (or_empty (s p) ++ text), wrote (length text));
  fsync = λ s p. (s, true);
  patience = λ s. 0;
}

put-same : (s : Store) (p text : Bytes) → put s p text p ≡ some text
put-same s p text = rw (bytes_eq_refl p) refl

put-other : (s : Store) (p q text : Bytes) → q ≢ p → put s p text q ≡ s q
put-other s p q text n = elim (Bool-cases (bytes_eq q p)) [
  | inl e ↦ absurd (n (bytes_eq→eq q p e))
  | inr e ↦ rw e refl
]

take_all : (t : Bytes) → take (length t) t ≡ t
take_all [] = refl
take_all (c ∷ t) = ap (λ u. c ∷ u) (take_all t)

opened :
    (s s' : Store) (p : Bytes) → open_empty s p (s p) ≡ some s' → (s p ≡ none) × (s' ≡ put s p [])
opened s s' p = elim (Option-cases (s p)) [
  | inl e ↦ rw e (λ h. (refl, inside h))
  | inr (t, e) ↦ rw e (λ h. absurd cc)
]
  where
    inside : some (put s p []) ≡ some s' → s' ≡ put s p []
    inside h = cc

went : (n m : ℕ) → ◌≡◌ {A = Written} (wrote n) (wrote m) → n ≡ m
went n m h = cc

pub memory-IsLawful : IsLawful memory
memory-IsLawful = record {
  exists-lookup = λ s p text h. ap is_some h;
  opens_new = λ s s' p h. (opened s s' p h).0;
  opens_empty = λ s s' p h. ap (λ (u : Store). u p) (opened s s' p h).1 ∙ put-same s p [];
  opens_only = λ s s' p q h n. ap (λ (u : Store). u q) (opened s s' p h).1 ∙ put-other s p q [] n;
  writes_part = λ s p text n h. omega (arith, went (length text) n h);
  writes_some = λ s p text n h lt. omega (arith, went (length text) n h, lt);
  writes_behind = λ s p old text n h l.
      put-same s p (or_empty (s p) ++ text)
      ∙ ap some (
          ap (λ u. or_empty u ++ text) l
          ∙ ap (λ u. old ++ u)
              (sym (ap (λ k. take k text) (sym (went (length text) n h)) ∙ take_all text)));
  interrupts_clean = λ s p text h. absurd (never h);
  writes_only = λ s p q text n. put-other s p q (or_empty (s p) ++ text) n;
  syncs_only = λ s p q. refl;
  interrupts_less = λ s p text h. absurd (never h);
  writes_patient = λ s p text n h. omega arith;
}
  where
    never : {n : ℕ} → wrote n ≡ Written.interrupted → ⊥
    never h = cc
