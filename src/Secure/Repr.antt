-- ===== src/Secure/Repr.antt =====
-- What a `SecureString` stands for: a text, with zeros behind it up to the end of the storage.
use signeros.Base.{
  ℕ, zero, suc, ◌+◌, ◌≡◌, refl, ap, ap₂, sym, ◌∙◌, [], ◌∷◌, ◌++◌, append_assoc, arith, Bytes,
  length, length-append, foldl,
}
use signeros.Base.Segments.{get_or-append, set-append}
use signeros.Secure.{SecureString, capacity, secure_wipe, write, read, scan}

unfoldable pub zeros : ℕ → Bytes
zeros zero = []
zeros (suc n) = 0 ∷ zeros n

abbrev pub filled : Bytes → ℕ → SecureString
filled t room = record { buf = t ++ 0 ∷ zeros room; len = length t }

-- `s` holds the text `t`: the storage is the text and then zeros, at least one, to its end.
abbrev pub Holds : SecureString → Bytes → Type 0
Holds s t = (room : ℕ) × (s ≡ filled t room) × (length t + suc room ≡ capacity)

pub zeros-suc : (n : ℕ) → zeros (suc n) ≡ 0 ∷ zeros n
unfolding zeros
zeros-suc n = refl

pub zeros-append : (m n : ℕ) {k : ℕ} → k ≡ m + n → zeros m ++ zeros n ≡ zeros k
unfolding zeros
zeros-append zero n {k = k} e = let e' : k ≡ n = omega arith in rw e'
zeros-append (suc m) n {k = zero} e = absurd (omega arith)
zeros-append (suc m) n {k = suc k} e = ap (λ xs. 0 ∷ xs) (zeros-append m n {k = k} (omega arith))

pub length-zeros : (n : ℕ) → length (zeros n) ≡ n
unfolding zeros
length-zeros zero = refl
length-zeros (suc n) = ap suc (length-zeros n)

pub append-cons : (a : Bytes) (x : ℕ) (b : Bytes) → (a ++ x ∷ []) ++ b ≡ a ++ x ∷ b
append-cons a x b = append_assoc a (x ∷ []) b

pub length-snoc : (a : Bytes) (x : ℕ) → length (a ++ x ∷ []) ≡ length a + 1
length-snoc a x = omega (arith, length-append a (x ∷ []))

pub segment-shift :
    (a : Bytes) (y : ℕ) (b c : Bytes) → a ++ ((y ∷ b) ++ c) ≡ (a ++ y ∷ []) ++ (b ++ c)
segment-shift a y b c = sym (append_assoc a (y ∷ []) (b ++ c))

-- Writing over a segment of the same length.
pub write-segment :
    (a b c cs : Bytes) {i : ℕ}
    → i ≡ length a
    → length b ≡ length cs
    → write (a ++ (b ++ c)) i cs ≡ a ++ (cs ++ c)
unfolding write
write-segment a [] c [] e h = refl
write-segment a [] c (x ∷ cs) e h = absurd (omega arith)
write-segment a (y ∷ b) c [] e h = absurd (omega arith)
write-segment a (y ∷ b) c (x ∷ cs) {i} e h =
    rw (set-append a y x (b ++ c) e, ← append-cons a x (b ++ c))
      (write-segment (a ++ x ∷ []) b c cs (omega (arith, length-snoc a x)) (omega arith)
        ∙ append-cons a x (cs ++ c))

pub wipe-segment :
    (a b c : Bytes) {i n : ℕ}
    → i ≡ length a
    → n ≡ length b
    → secure_wipe (a ++ (b ++ c)) i n ≡ a ++ (zeros n ++ c)
unfolding secure_wipe zeros
wipe-segment a [] c {n = zero} e h = refl
wipe-segment a [] c {n = suc n} e h = absurd (omega arith)
wipe-segment a (y ∷ b) c {n = zero} e h = absurd (omega arith)
wipe-segment a (y ∷ b) c {n = suc n} e h =
    rw (set-append a y 0 (b ++ c) e, ← append-cons a 0 (b ++ c))
      (wipe-segment (a ++ 0 ∷ []) b c (omega (arith, length-snoc a 0)) (omega arith)
        ∙ append-cons a 0 (zeros n ++ c))

pub read-segment :
    (a b c : Bytes) {i n : ℕ} → i ≡ length a → n ≡ length b → read (a ++ (b ++ c)) i n ≡ b
unfolding read
read-segment a [] c {n = zero} e h = refl
read-segment a [] c {n = suc n} e h = absurd (omega arith)
read-segment a (y ∷ b) c {n = zero} e h = absurd (omega arith)
read-segment a (y ∷ b) c {i} {n = suc n} e h =
    ap₂ (λ x xs. x ∷ xs) (get_or-append a y 0 (b ++ c) e)
      (ap (λ bs. read bs (i + 1) n) (segment-shift a y b c)
        ∙ read-segment (a ++ y ∷ []) b c (omega (arith, length-snoc a y)) (omega arith))

-- A loop over the characters is a fold of the text.
pub scan-segment {ℓ} :
    {S : Type ℓ} (step : S → ℕ → S) (a b c : Bytes) (st : S) {i n : ℕ}
    → i ≡ length a
    → n ≡ length b
    → scan step (a ++ (b ++ c)) i n st ≡ foldl step st b
unfolding scan
scan-segment step a [] c st {n = zero} e h = refl
scan-segment step a [] c st {n = suc n} e h = absurd (omega arith)
scan-segment step a (y ∷ b) c st {n = zero} e h = absurd (omega arith)
scan-segment step a (y ∷ b) c st {i} {n = suc n} e h =
    ap₂ (λ bs st'. scan step bs (i + 1) n st') (segment-shift a y b c)
      (ap (step st) (get_or-append a y 0 (b ++ c) e))
    ∙ scan-segment step (a ++ y ∷ []) b c (step st y) {i = i + 1} {n = n}
        (omega (arith, length-snoc a y)) (omega arith)
