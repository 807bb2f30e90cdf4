-- ===== src/Secure/Equals.antt =====
-- `SecureString::equals`: the bits that are gathered vanish only where the texts are the same.
use Prim.Native.Nat.{bit_or, bit_xor, bit_or-bitwise, bit_xor-bitwise, digits, differ, max}
use signeros.Base.{
  ℕ, zero, suc, ◌+◌, ◌*◌, ◌/◌, ◌%◌, ◌^◌, ◌≤◌, ◌<◌, ◌≡◌, ◌↔◌, inl, inr, refl, sym, ap, ap₂, subst,
  ◌∙◌, Bool, true, false, [], ◌∷◌, ◌++◌, arith, Bytes, ◌==◌, if◌then◌else◌, length, get_or,
  Bool-cases, ==→eq, eq→==, All,
}
use signeros.Secure.{SecureString, diff_from, equals}
use signeros.Secure.Repr.{Holds, filled, zeros, length-snoc, segment-shift}
use signeros.Base.Segments.{get_or-append}

differ_zero : (x y : ℕ) → differ x y ≡ 0 → x ≡ y
differ_zero zero y h = sym h
differ_zero (suc x) zero h = absurd (omega arith)
differ_zero (suc x) (suc y) h = ap suc (differ_zero x y h)

differ_same : (x : ℕ) → differ x x ≡ 0
differ_same zero = refl
differ_same (suc x) = differ_same x

max_zero : (x y : ℕ) → max x y ≡ 0 → (x ≡ 0) × (y ≡ 0)
max_zero x y h = (omega arith, omega arith)

differ_bound : (x y : ℕ) → x < 2 → y < 2 → differ x y < 2
differ_bound zero y hx hy = hy
differ_bound (suc x) zero hx hy = hx
differ_bound (suc x) (suc y) hx hy = differ_bound x y (omega arith) (omega arith)

xor_digits_zero : (n a b : ℕ) → a ≤ n → digits (λ b. b) differ n a b ≡ 0 → a ≡ b
xor_digits_zero zero a b h e = omega arith
xor_digits_zero (suc n) zero b h e = sym e
xor_digits_zero (suc n) (suc a) b h e =
    let high = xor_digits_zero n (suc a / 2) (b / 2) (omega arith) (omega arith) in
    let low = differ_zero (suc a % 2) (b % 2) (omega arith) in omega (arith, high, low)

xor_digits_same : (n a : ℕ) → a ≤ n → digits (λ b. b) differ n a a ≡ 0
xor_digits_same zero a h = omega arith
xor_digits_same (suc n) zero h = refl
xor_digits_same (suc n) (suc a) h =
    omega (arith, xor_digits_same n (suc a / 2) (omega arith), differ_same (suc a % 2))

xor_digits_bound : (k n a b : ℕ) → a < 2 ^ k → b < 2 ^ k → digits (λ b. b) differ n a b < 2 ^ k
xor_digits_bound k zero a b ha hb = hb
xor_digits_bound k (suc n) zero b ha hb = hb
xor_digits_bound zero (suc n) (suc a) b ha hb = absurd (omega arith)
xor_digits_bound (suc k) (suc n) (suc a) b ha hb =
    let double : 2 ^ suc k ≡ 2 * 2 ^ k = omega arith in
    let high = xor_digits_bound k n (suc a / 2) (b / 2) (omega arith) (omega arith) in
    let low = differ_bound (suc a % 2) (b % 2) (omega arith) (omega arith) in
    omega (arith, double, high, low)

or_digits_zero : (n a b : ℕ) → a ≤ n → digits (λ b. b) max n a b ≡ 0 → (a ≡ 0) × (b ≡ 0)
or_digits_zero zero a b h e = (omega arith, e)
or_digits_zero (suc n) zero b h e = (refl, e)
or_digits_zero (suc n) (suc a) b h e =
    let (high, high_b) = or_digits_zero n (suc a / 2) (b / 2) (omega arith) (omega arith) in
    absurd (omega (arith, high, e))

or_digits_same : (n a : ℕ) → digits (λ b. b) max n 0 a ≡ a
or_digits_same zero a = refl
or_digits_same (suc n) a = refl

bit_xor_zero : (a b : ℕ) → bit_xor a b ≡ 0 → a ≡ b
bit_xor_zero a b e = xor_digits_zero a a b (omega arith) (sym (bit_xor-bitwise a b) ∙ e)

bit_xor_same : (a : ℕ) → bit_xor a a ≡ 0
bit_xor_same a = bit_xor-bitwise a a ∙ xor_digits_same a a (omega arith)

bit_xor_bound : (k a b : ℕ) → a < 2 ^ k → b < 2 ^ k → bit_xor a b < 2 ^ k
bit_xor_bound k a b ha hb =
    subst (λ n. n < 2 ^ k) (sym (bit_xor-bitwise a b)) (xor_digits_bound k a a b ha hb)

bit_or_zero : (a b : ℕ) → bit_or a b ≡ 0 → (a ≡ 0) × (b ≡ 0)
bit_or_zero a b e = or_digits_zero a a b (omega arith) (sym (bit_or-bitwise a b) ∙ e)

abbrev pub IsByte : ℕ → Type 0
IsByte c = c < 2 ^ 8

-- The position before the texts, in both buffers.
module _ (rest rest' : Bytes) where
  diff_from-suc :
      (pre pre' t t' : Bytes) (x y n diff : ℕ) {i : ℕ}
      → i ≡ length pre
      → i ≡ length pre'
      → diff_from (pre ++ ((x ∷ t) ++ rest)) (pre' ++ ((y ∷ t') ++ rest')) i (suc n) diff
        ≡ diff_from
            ((pre ++ x ∷ []) ++ (t ++ rest))
            ((pre' ++ y ∷ []) ++ (t' ++ rest'))
            (i + 1)
            n
            (bit_or diff (bit_xor x y % 256))
  unfolding diff_from
  diff_from-suc pre pre' t t' x y n diff {i} e e' =
      ap₂
        (λ a b. diff_from a b (i + 1) n (bit_or diff (bit_xor (get_or a i 0) (get_or b i 0) % 256)))
        (segment-shift pre x t rest) (segment-shift pre' y t' rest')
      ∙ ap₂
          (λ u v.
            diff_from ((pre ++ x ∷ []) ++ (t ++ rest)) ((pre' ++ y ∷ []) ++ (t' ++ rest')) (i + 1) n
              (bit_or diff (bit_xor u v % 256)))
          (ap (λ a. get_or a i 0) (sym (segment-shift pre x t rest))
            ∙ get_or-append pre x 0 (t ++ rest) e)
          (ap (λ a. get_or a i 0) (sym (segment-shift pre' y t' rest'))
            ∙ get_or-append pre' y 0 (t' ++ rest') e')

  diff_from_zero :
      (pre pre' t t' : Bytes) (diff : ℕ) {i n : ℕ}
      → i ≡ length pre
      → i ≡ length pre'
      → n ≡ length t
      → n ≡ length t'
      → All IsByte t
      → All IsByte t'
      → diff_from (pre ++ (t ++ rest)) (pre' ++ (t' ++ rest')) i n diff ≡ 0
      → (diff ≡ 0) × (t ≡ t')
  unfolding diff_from
  diff_from_zero pre pre' [] [] diff {n = zero} e e' l l' h h' z = (z, refl)
  diff_from_zero pre pre' [] (y ∷ t') diff {n = zero} e e' l l' h h' z = absurd (omega arith)
  diff_from_zero pre pre' (x ∷ t) t' diff {n = zero} e e' l l' h h' z = absurd (omega arith)
  diff_from_zero pre pre' [] t' diff {n = suc n} e e' l l' h h' z = absurd (omega arith)
  diff_from_zero pre pre' (x ∷ t) [] diff {n = suc n} e e' l l' h h' z = absurd (omega arith)
  diff_from_zero pre pre' (x ∷ t) (y ∷ t') diff {i} {n = suc n} e e' l l' (hx, h) (hy, h') z =
      let (gathered, same) =
        diff_from_zero (pre ++ x ∷ []) (pre' ++ y ∷ []) t t' (bit_or diff (bit_xor x y % 256))
          {i = i + 1} {n = n} (omega (arith, e, length-snoc pre x))
          (omega (arith, e', length-snoc pre' y)) (omega arith) (omega arith) h h'
          (sym (diff_from-suc pre pre' t t' x y n diff {i = i} e e') ∙ z) in
      let (was, now) = bit_or_zero diff (bit_xor x y % 256) gathered in
      let small = bit_xor_bound 8 x y hx hy in
      (was, ap₂ (λ a b. a ∷ b) (bit_xor_zero x y (omega (arith, now, small))) same)

  diff_from_same :
      (pre pre' t : Bytes) {i n : ℕ}
      → i ≡ length pre
      → i ≡ length pre'
      → n ≡ length t
      → diff_from (pre ++ (t ++ rest)) (pre' ++ (t ++ rest')) i n 0 ≡ 0
  unfolding diff_from
  diff_from_same pre pre' [] {n = zero} e e' l = refl
  diff_from_same pre pre' (x ∷ t) {n = zero} e e' l = absurd (omega arith)
  diff_from_same pre pre' [] {n = suc n} e e' l = absurd (omega arith)
  diff_from_same pre pre' (x ∷ t) {i} {n = suc n} e e' l =
      diff_from-suc pre pre' t t x x n 0 {i = i} e e'
      ∙ ap (diff_from ((pre ++ x ∷ []) ++ (t ++ rest)) ((pre' ++ x ∷ []) ++ (t ++ rest')) (i + 1) n)
          (nothing (bit_xor_same x))
      ∙ diff_from_same (pre ++ x ∷ []) (pre' ++ x ∷ []) t {i = i + 1} {n = n}
          (omega (arith, e, length-snoc pre x)) (omega (arith, e', length-snoc pre' x))
          (omega arith)
    where
      nothing : {v : ℕ} → v ≡ 0 → bit_or 0 (v % 256) ≡ 0
      nothing q = rw q refl

-- `equals` answers `true` just where the two buffers hold the same text, whatever stands behind it.
pub equals_iff :
    (s s' : SecureString) (t t' : Bytes)
    → Holds s t
    → Holds s' t'
    → All IsByte t
    → All IsByte t'
    → (equals s s' ≡ true) ↔ (t ≡ t')
unfolding equals
equals_iff s s' t t' (room, e, l) (room', e', l') h h' = rw (e, e') (sound, complete)
  where
    sound : equals (filled t room) (filled t' room') ≡ true → t ≡ t'
    sound q = elim (Bool-cases (length t == length t')) [
      | inl p ↦
          (diff_from_zero (0 ∷ zeros room) (0 ∷ zeros room') [] [] t t' 0 {i = 0} {n = length t}
            refl refl refl (==→eq _ _ p) h h' (==→eq _ _ (then_branch p q))).1
      | inr p ↦ absurd (no_branch _ p q)
    ]
      where
        then_branch : {b c : Bool} → b ≡ true → (if b then c else false) ≡ true → c ≡ true
        then_branch u v = ground (arith, u, v)

        no_branch : {b : Bool} (c : Bool) → b ≡ false → (if b then c else false) ≡ true → ⊥
        no_branch c u v = ground (arith, u, v)

    complete : t ≡ t' → equals (filled t room) (filled t' room') ≡ true
    complete same =
        let p = eq→== (length t) (length t') (ap length same) in
        let d =
          subst (λ u. diff_from (t ++ 0 ∷ zeros room) (u ++ 0 ∷ zeros room') 0 (length t) 0 ≡ 0)
            same
            (diff_from_same (0 ∷ zeros room) (0 ∷ zeros room') [] [] t {i = 0} {n = length t} refl
              refl refl) in
        ifs p (eq→== _ 0 d)
      where
        ifs : {b c : Bool} → b ≡ true → c ≡ true → (if b then c else false) ≡ true
        ifs u v = ground (arith, u, v)
