-- ===== src/Text/Decimal.antt =====
-- `to_string` against the number that digits spell.
use native.Mathlib.Nat.{pow-suc}
use signeros.Base.{
  ℕ, zero, suc, ◌+◌, ◌-◌, ◌*◌, ◌/◌, ◌%◌, ◌^◌, ◌≤◌, ◌<◌, ◌≡◌, inl, inr, refl, ◌∙◌, [], ◌∷◌, ◌++◌,
  arith, Bytes, ltb, Bool-cases, All, All-append, ltb→lt,
}
use signeros.Text.{digits, to_string}

-- The number that digits spell behind `acc`.
abbrev pub value : ℕ → Bytes → ℕ
value acc [] = acc
value acc (c ∷ t) = value (acc * 10 + (c - b'0')) t

abbrev pub IsDigit : ℕ → Type 0
IsDigit c = (b'0' ≤ c) × (c ≤ b'9')

pub value-append : (a b : Bytes) (acc : ℕ) → value acc (a ++ b) ≡ value (value acc a) b
value-append [] b acc = refl
value-append (c ∷ a) b acc = value-append a b (acc * 10 + (c - b'0'))

pub digits-IsDigit : (fuel n : ℕ) → All IsDigit (digits fuel n)
unfolding digits
digits-IsDigit zero n = tt
digits-IsDigit (suc fuel) n = elim (Bool-cases (ltb n 10)) [
  | inl h ↦ rw h (omega (arith, ltb→lt n 10 h))
  | inr h ↦ rw h (
      All-append IsDigit (digits fuel (n / 10)) ((b'0' + n % 10) ∷ [])
        (digits-IsDigit fuel (n / 10)) (omega arith))
]

pub value-digits : (fuel n : ℕ) → n < 10 ^ fuel → value 0 (digits fuel n) ≡ n
unfolding digits
value-digits zero n h = omega arith
value-digits (suc fuel) n h = elim (Bool-cases (ltb n 10)) [
  | inl p ↦ rw p (omega arith)
  | inr p ↦ rw p (
      value-append (digits fuel (n / 10)) ((b'0' + n % 10) ∷ []) 0
      ∙ last (value-digits fuel (n / 10) (omega (arith, pow-suc 10 fuel))))
]
  where
    last :
        value 0 (digits fuel (n / 10)) ≡ n / 10
        → value 0 (digits fuel (n / 10)) * 10 + (b'0' + n % 10 - b'0') ≡ n
    last e = omega arith

-- Every 64-bit number is read back from its decimal text, which is digits alone.
pub value-to_string : (n : ℕ) → n < 2 ^ 64 → (value 0 (to_string n) ≡ n) × All IsDigit (to_string n)
unfolding to_string
value-to_string n h = (value-digits 20 n (omega arith), digits-IsDigit 20 n)
