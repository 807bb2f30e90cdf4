-- ===== src/Base/Equal.antt =====
-- Equality of byte strings, as `memcmp` and `std::string` decide it, and search inside one.

use signeros.Base.Tests.{Bytes, ◌==◌, ==→eq, Bool-cases}
use Prim.Native.Nat.{ℕ}
use mathlib.Core.Bool.{Bool, true, false, ◌&&◌, ◌||◌}
use mathlib.Core.List.{[], ◌∷◌, ◌++◌}
use mathlib.Core.Logic.{inl, inr}
use mathlib.Core.Path.{◌≡◌, refl, ap}
use native.Mathlib.Omega.{arith}

unfoldable pub bytes_eq : Bytes → Bytes → Bool
bytes_eq [] [] = true
bytes_eq [] (y ∷ ys) = false
bytes_eq (x ∷ xs) [] = false
bytes_eq (x ∷ xs) (y ∷ ys) = x == y && bytes_eq xs ys

pub bytes_eq→eq : (a b : Bytes) → bytes_eq a b ≡ true → a ≡ b
unfolding bytes_eq
bytes_eq→eq [] [] h = refl
bytes_eq→eq [] (y ∷ ys) h = cc
bytes_eq→eq (x ∷ xs) [] h = cc
bytes_eq→eq (x ∷ xs) (y ∷ ys) h = ground (arith, bytes_eq→eq xs ys)

pub bytes_eq_refl : (a : Bytes) → bytes_eq a a ≡ true
unfolding bytes_eq
bytes_eq_refl [] = refl
bytes_eq_refl (x ∷ xs) = ground (arith, bytes_eq_refl xs)

-- `memcmp(h, needle, needleLen) == 0` where `needleLen` bytes are left.
unfoldable pub starts_with : Bytes → Bytes → Bool
starts_with [] h = true
starts_with (n ∷ ns) [] = false
starts_with (n ∷ ns) (x ∷ h) = n == x && starts_with ns h

-- Does `needle` stand somewhere in `h`?
unfoldable pub occurs : Bytes → Bytes → Bool
unfolding starts_with
occurs needle [] = starts_with needle []
occurs needle (x ∷ h) = starts_with needle (x ∷ h) || occurs needle h

-- `h` is `needle` with bytes before it and behind it.
abbrev pub Contains : Bytes → Bytes → Type 0
Contains h needle = (a : Bytes) × (b : Bytes) × (h ≡ a ++ (needle ++ b))

starts_with_sound :
    (needle h : Bytes) → starts_with needle h ≡ true → (b : Bytes) × (h ≡ needle ++ b)
unfolding starts_with
starts_with_sound [] h e = (h, refl)
starts_with_sound (n ∷ ns) [] e = cc
starts_with_sound (n ∷ ns) (x ∷ h) e = elim (Bool-cases (n == x)) [
  | inl p ↦
      let (b, eq) = starts_with_sound ns h (ground (arith, e, p)) in (b, cons_eq (==→eq n x p) eq)
  | inr p ↦ cc
]
  where
    cons_eq : {a b : ℕ} {u v : Bytes} → a ≡ b → u ≡ v → b ∷ u ≡ a ∷ v
    cons_eq p q = cc

pub occurs_sound : (needle h : Bytes) → occurs needle h ≡ true → Contains h needle
unfolding occurs
occurs_sound needle [] e = let (b, eq) = starts_with_sound needle [] e in ([], b, eq)
occurs_sound needle (x ∷ h) e = elim (Bool-cases (starts_with needle (x ∷ h))) [
  | inl p ↦ let (b, eq) = starts_with_sound needle (x ∷ h) p in ([], b, eq)
  | inr p ↦ let (a, b, eq) = occurs_sound needle h (later p e) in (x ∷ a, b, ap (λ t. x ∷ t) eq)
]
  where
    later : {p q : Bool} → p ≡ false → (p || q) ≡ true → q ≡ true
    later u w = ground arith
