-- ===== src/Secure/Grid/Span.antt =====
-- `slotCount` and `slotSpan` against the fields that are shown.
use signeros.Base.{
  ℕ, zero, suc, ◌+◌, ◌-◌, ◌≤◌, ◌<◌, ◌≡◌, refl, sym, ap, ◌∙◌, Bool, false, not, ◌&&◌, Option, none,
  some, List, [], ◌∷◌, ◌++◌, append_assoc, arith, Bytes, ◌==◌, if◌then◌else◌, length, get_or,
  length-append, All, foldl, ne→==, eq→==,
}
use native.Mathlib.Numerals.{add-one}
use signeros.Base.Fields.{after, join}
use signeros.Base.Segments.{get_or-append}
use signeros.Secure.{SecureString, space, scan}
use signeros.Secure.Grid.{slot_step, slot_count, span_from, slot_span}
use signeros.Secure.Grid.Text.{before, Lacks, Shows}
use signeros.Secure.Repr.{zeros, append-cons, length-snoc, scan-segment}

fold_field :
    (f rest : Bytes) (n : ℕ) → Lacks f → foldl slot_step n (f ++ rest) ≡ foldl slot_step n rest
unfolding slot_step
fold_field [] rest n h = refl
fold_field (c ∷ f) rest n (hc, hf) =
    ap (λ (b : Bool). foldl slot_step (if b then n + 1 else n) (f ++ rest)) (ne→== c space hc)
    ∙ fold_field f rest n hf

fold_after :
    (fs : List Bytes) (n : ℕ) → All Lacks fs → foldl slot_step n (after space fs) ≡ n + length fs
unfolding after slot_step
fold_after [] n h = omega arith
fold_after (f ∷ fs) n (hf, hs) =
    fold_field f (after space fs) (n + 1) hf ∙ fold_after fs (n + 1) hs ∙ shift
  where
    shift : n + 1 + length fs ≡ n + length (f ∷ fs)
    shift = omega arith

fold_join :
    (fs : List Bytes) → All Lacks fs → 0 < length fs → foldl slot_step 1 (join space fs) ≡ length fs
unfolding join
fold_join [] h l = absurd (omega arith)
fold_join (f ∷ fs) (hf, hs) l = fold_field f (after space fs) 1 hf ∙ fold_after fs 1 hs ∙ shift
  where
    shift : 1 + length fs ≡ length (f ∷ fs)
    shift = omega arith

-- `slotCount` is the number of fields.
pub slot_count-length : {s : SecureString} (fs : List Bytes) → Shows s fs → slot_count s ≡ length fs
unfolding slot_count
slot_count-length fs v =
    let (room, e, h) = v.held in
    ap (λ (w : SecureString). scan slot_step w.buf 0 w.len 1) e
    ∙ scan-segment slot_step [] (join space fs) (0 ∷ zeros room) 1 {i = 0}
        {n = length (join space fs)} refl refl
    ∙ fold_join fs v.clean v.nonempty

-- Where field `index` begins and how long it is, if the first of `fs` is number `slot` at `begin`.
span_of : List Bytes → ℕ → ℕ → ℕ → Option (ℕ × ℕ)
span_of [] slot index begin = none
span_of (f ∷ fs) slot index begin =
    if slot == index
    then some (begin, length f)
    else span_of fs (slot + 1) index (begin + length f + 1)

-- One round of the loop at a character that is no separator.
span_inside :
    (buf : Bytes) (len index i n slot begin c : ℕ)
    → get_or buf i 0 ≡ c
    → (c == space) ≡ false
    → i < len
    → span_from buf len index i (suc n) slot begin ≡ span_from buf len index (i + 1) n slot begin
unfolding span_from
span_inside buf len index i n slot begin c e h l = rw (e, h, ne→== i len (omega arith))

-- One round at the end of a field.
span_close :
    (buf : Bytes) (len index i n slot begin : ℕ)
    → (not (i == len) && not (get_or buf i 0 == space)) ≡ false
    → span_from buf len index i (suc n) slot begin ≡ (
        if slot == index
        then some (begin, i - begin)
        else span_from buf len index (i + 1) n (slot + 1) (i + 1))
unfolding span_from
span_close buf len index i n slot begin h = rw h

span_cong :
    {a b : ℕ × ℕ} {c d : Option (ℕ × ℕ)} (t : Bool)
    → a ≡ b
    → c ≡ d
    → (if t then some a else c) ≡ (if t then some b else d)
span_cong t p q = λ i. if t then some (p i) else q i

pair_eq : {a b c d : ℕ} → a ≡ b → c ≡ d → ◌≡◌ {A = ℕ × ℕ} (a, c) (b, d)
pair_eq p q = λ i. (p i, q i)

span_at :
    (fs : List Bytes) (slot index : ℕ) {a b : ℕ}
    → a ≡ b
    → span_of fs slot index a ≡ span_of fs slot index b
span_at fs slot index e = ap (λ k. span_of fs slot index k) e

-- The rest of the loop, at position `i` of the field that began at `begin`, of which `f` is unread.
span_lem :
    (fs : List Bytes) (f p z : Bytes) (len index i n slot begin : ℕ)
    → Lacks f
    → All Lacks fs
    → i ≡ length p
    → begin ≤ i
    → n ≡ length f + length (after space fs)
    → len ≡ i + n
    → span_from (p ++ (f ++ (after space fs ++ 0 ∷ z))) len index i (suc n) slot begin ≡ (
        if slot == index
        then some (begin, i - begin + length f)
        else span_of fs (slot + 1) index (i + length f + 1))
unfolding after span_of
span_lem fs (c ∷ f) p z len index i zero slot begin h hs e le en el = absurd (omega arith)
span_lem fs (c ∷ f) p z len index i (suc n) slot begin (hc, hf) hs e le en el =
    span_inside (p ++ ((c ∷ f) ++ (after space fs ++ 0 ∷ z))) len index i (suc n) slot begin c
      (get_or-append p c 0 (f ++ (after space fs ++ 0 ∷ z)) e) (ne→== c space hc) (omega arith)
    ∙ ap (λ b. span_from b len index (i + 1) (suc n) slot begin)
        (sym (append-cons p c (f ++ (after space fs ++ 0 ∷ z))))
    ∙ span_lem fs f (p ++ c ∷ []) z len index (i + 1) n slot begin hf hs
        (omega (arith, length-snoc p c)) (omega arith) (omega arith) (omega arith)
    ∙ span_cong (slot == index) (pair_eq refl (omega arith))
        (span_at fs (slot + 1) index (omega arith))
span_lem [] [] p z len index i n slot begin h hs e le en el =
    let e0 : n ≡ 0 = omega arith in
    rw e0 (
      span_close (p ++ 0 ∷ z) len index i 0 slot begin at_end
      ∙ unfold span_from in span_cong (slot == index) (pair_eq refl (omega arith)) refl)
  where
    at_end : (not (i == len) && not (get_or (p ++ 0 ∷ z) i 0 == space)) ≡ false
    at_end = rw (eq→== i len (omega arith))
span_lem (g ∷ fs) [] p z len index i zero slot begin h hs e le en el = absurd (omega arith)
span_lem (g ∷ fs) [] p z len index i (suc n) slot begin h (hg, hs) e le en el =
    span_close (p ++ (space ∷ (g ++ after space fs) ++ 0 ∷ z)) len index i (suc n) slot begin at_sep
    ∙ span_cong (slot == index) (pair_eq refl (omega arith)) (
        ap (λ b. span_from b len index (i + 1) (suc n) (slot + 1) (i + 1)) regroup
        ∙ span_lem fs g (p ++ space ∷ []) z len index (i + 1) n (slot + 1) (i + 1) hg hs
            (omega (arith, length-snoc p space)) (omega arith)
            (omega (arith, length-append g (after space fs))) (omega arith)
        ∙ span_cong (slot + 1 == index) (pair_eq (omega arith) (omega arith))
            (span_at fs (slot + 1 + 1) index (omega arith)))
  where
    at_sep :
        (not (i == len)
          && not (get_or (p ++ (space ∷ (g ++ after space fs) ++ 0 ∷ z)) i 0 == space))
        ≡ false
    at_sep = (λ i'.
        not (ne→== i len (omega arith) i')
        && not (get_or-append p space 0 ((g ++ after space fs) ++ 0 ∷ z) e i' == space))

    regroup :
        p ++ (space ∷ (g ++ after space fs) ++ 0 ∷ z)
        ≡ (p ++ space ∷ []) ++ (g ++ (after space fs ++ 0 ∷ z))
    regroup =
        sym (append-cons p space ((g ++ after space fs) ++ 0 ∷ z))
        ∙ ap (λ b. (p ++ space ∷ []) ++ b) (append_assoc g (after space fs) (0 ∷ z))

span_of-nth :
    (l : List Bytes) (f : Bytes) (r : List Bytes) (slot index begin : ℕ)
    → index ≡ slot + length l
    → span_of (l ++ f ∷ r) slot index begin ≡ some (begin + length (before l), length f)
unfolding span_of before
span_of-nth [] f r slot index begin e =
    rw (eq→== slot index (omega arith)) (ap some (pair_eq (omega arith) refl))
span_of-nth (g ∷ l) f r slot index begin e = rw (ne→== slot index (omega arith)) (
    span_of-nth l f r (slot + 1) index (begin + length g + 1) (omega arith)
    ∙ ap some (pair_eq (omega (arith, length-append g (space ∷ before l))) refl))

span_of-none :
    (fs : List Bytes) (slot index begin : ℕ)
    → slot + length fs ≤ index
    → span_of fs slot index begin ≡ none
unfolding span_of
span_of-none [] slot index begin h = refl
span_of-none (f ∷ fs) slot index begin h =
    rw (ne→== slot index (omega arith))
      (span_of-none fs (slot + 1) index (begin + length f + 1) (omega arith))

slot_span-span_of :
    {s : SecureString} (fs : List Bytes) (index : ℕ)
    → Shows s fs
    → slot_span s index ≡ span_of fs 0 index 0
unfolding slot_span span_of join
slot_span-span_of [] index v = absurd (omega (arith, v.nonempty))
slot_span-span_of (f ∷ fs) index v =
    let (room, e, h) = v.held in
    ap (λ (w : SecureString). span_from w.buf w.len index 0 (w.len + 1) 0 0) e
    ∙ (λ i.
        span_from (append_assoc f (after space fs) (0 ∷ zeros room) i)
          (length (f ++ after space fs)) index 0 (add-one (length (f ++ after space fs)) i) 0 0)
    ∙ span_lem fs f [] (zeros room) (length (f ++ after space fs)) index 0
        (length (f ++ after space fs)) 0 0 v.clean.0 v.clean.1 refl (omega arith)
        (length-append f (after space fs)) (omega arith)
    ∙ span_cong (0 == index) (pair_eq refl (omega arith)) (span_at fs 1 index (omega arith))

-- `slotSpan` finds a field that is there, and says where it begins and how long it is.
pub slot_span-some :
    {s : SecureString} (l : List Bytes) (f : Bytes) (r : List Bytes)
    → Shows s (l ++ f ∷ r)
    → slot_span s (length l) ≡ some (length (before l), length f)
slot_span-some l f r v =
    slot_span-span_of (l ++ f ∷ r) (length l) v
    ∙ span_of-nth l f r 0 (length l) 0 (omega arith)
    ∙ ap some (pair_eq (omega arith) refl)

-- `slotSpan` finds no other.
pub slot_span-none :
    {s : SecureString} (fs : List Bytes) (index : ℕ)
    → Shows s fs
    → length fs ≤ index
    → slot_span s index ≡ none
slot_span-none fs index v h = slot_span-span_of fs index v ∙ span_of-none fs 0 index 0 (omega arith)
