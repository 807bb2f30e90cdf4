-- ===== src/Base/Segments.antt =====
-- Arrays cut into segments: what a read or a write at the end of a segment does.
use signeros.Base.Lists.{length, get_or, set}
use Prim.Native.Nat.{ℕ, zero, suc, ◌≤◌}
use mathlib.Core.Path.{◌≡◌, refl, ap}
use mathlib.Core.List.{List, [], ◌∷◌, ◌++◌}
use native.Mathlib.Omega.{arith}

module _ {ℓ} {A : Type ℓ} where
  pub get_or-append :
      (xs : List A) (x d : A) (ys : List A) {i : ℕ} → i ≡ length xs → get_or (xs ++ x ∷ ys) i d ≡ x
  get_or-append [] x d ys e = rw e
  get_or-append (y ∷ xs) x d ys e = rw e (get_or-append xs x d ys refl)

  pub set-append :
      (xs : List A) (x v : A) (ys : List A) {i : ℕ}
      → i ≡ length xs
      → set (xs ++ x ∷ ys) i v ≡ xs ++ v ∷ ys
  set-append [] x v ys e = rw e
  set-append (y ∷ xs) x v ys e = rw e (ap (λ zs. y ∷ zs) (set-append xs x v ys refl))

  -- The last element of a list that has one.
  pub unsnoc :
      (x : A) (xs : List A)
      → (ys : List A) × (y : A) × (x ∷ xs ≡ ys ++ y ∷ []) × (length ys ≡ length xs)
  unsnoc x [] = ([], x, refl, refl)
  unsnoc x (z ∷ xs) = let (ys, y, e, l) = unsnoc z xs in (x ∷ ys, y, ap (λ zs. x ∷ zs) e, ap suc l)

  -- A list cut at a length that it has.
  pub split_at :
      (n : ℕ) (xs : List A)
      → n ≤ length xs
      → (ys : List A) × (zs : List A) × (xs ≡ ys ++ zs) × (length ys ≡ n)
  split_at zero xs h = ([], xs, refl, refl)
  split_at (suc n) [] h = absurd (omega arith)
  split_at (suc n) (x ∷ xs) h =
      let (ys, zs, e, l) = split_at n xs (omega arith) in
      (x ∷ ys, zs, ap (λ ts. x ∷ ts) e, ap suc l)
