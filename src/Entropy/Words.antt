-- ===== src/Entropy/Words.antt =====
-- Which runs of hardware words are credited.
use signeros.Base.{
  ℕ, zero, suc, ◌≤◌, ◌≡◌, ◌≢◌, ◌↔◌, refl, sym, Bool, true, false, not, ◌&&◌, ◌||◌, Option, none,
  some, List, [], ◌∷◌, arith, ltb, ◌==◌, if◌then◌else◌, length, All, ==→ne,
}
use signeros.Entropy.{
  all_ones, try_word, draw_cpu_words, cons_if, seen_before, sane_after, cpu_words_look_sane,
}

abbrev pub Usable : ℕ → Type 0
Usable v = (v ≢ 0) × (v ≢ all_ones)

abbrev pub NotIn : List ℕ → ℕ → Type 0
NotIn seen v = All (λ s. v ≢ s) seen

pub Distinct : List ℕ → Type 0
Distinct [] = Unit
Distinct (v ∷ vs) = NotIn vs v × Distinct vs

-- Two words at least, none of them a constant that broken parts answer, and no two alike.
pub record Sane (words : List ℕ) : Type 0 where
  pub enough : 2 ≤ length words
  pub usable : All Usable words
  pub distinct : Distinct words

seen_before-NotIn : (v : ℕ) (seen : List ℕ) → seen_before v seen ≡ false ↔ NotIn seen v
unfolding seen_before
seen_before-NotIn v [] = ((λ e. tt), (λ h. refl))
seen_before-NotIn v (s ∷ seen) = (
  (λ e. (==→ne v s (ground (arith, e)), (seen_before-NotIn v seen).0 (ground (arith, e)))),
  (λ h. let r = (seen_before-NotIn v seen).1 h.1 in let n = h.0 in ground (arith, r, n)),
)

-- Adding a word to what has been seen adds one comparison to each of the words to come.
NotIn-split :
    (v : ℕ) (seen vs : List ℕ) → All (NotIn (v ∷ seen)) vs → NotIn vs v × All (NotIn seen) vs
NotIn-split v seen [] h = (tt, tt)
NotIn-split v seen (x ∷ vs) h =
    let (a, b) = NotIn-split v seen vs h.1 in (((λ e. h.0.0 (sym e)), a), (h.0.1, b))

NotIn-join :
    (v : ℕ) (seen vs : List ℕ) → NotIn vs v → All (NotIn seen) vs → All (NotIn (v ∷ seen)) vs
NotIn-join v seen [] a b = tt
NotIn-join v seen (x ∷ vs) a b = (((λ e. a.0 (sym e)), b.0), NotIn-join v seen vs a.1 b.1)

Usable-test : (v : ℕ) → not (v == 0 || v == all_ones) ≡ true ↔ Usable v
Usable-test v = (
  (λ e. (==→ne v 0 (ground (arith, e)), ==→ne v all_ones (ground (arith, e)))),
  (λ h. let a = h.0 in let b = h.1 in ground (arith, a, b)),
)

sane_after_sound :
    (seen vs : List ℕ)
    → sane_after seen vs ≡ true
    → All Usable vs × Distinct vs × All (NotIn seen) vs
unfolding sane_after Distinct
sane_after_sound seen [] h = (tt, tt, tt)
sane_after_sound seen (v ∷ vs) h =
    let c = not (v == 0 || v == all_ones) in
    let s = seen_before v seen in
    let r = sane_after (v ∷ seen) vs in
    let good = (Usable-test v).0 (first c s r h) in
    let unseen = (seen_before-NotIn v seen).0 (second c s r h) in
    let (u, d, n) = sane_after_sound (v ∷ seen) vs (third c s r h) in
    let (a, b) = NotIn-split v seen vs n in ((good, u), (a, d), (unseen, b))
  where
    first : (a b c : Bool) → (a && (not b && c)) ≡ true → a ≡ true
    first a b c e = ground arith

    second : (a b c : Bool) → (a && (not b && c)) ≡ true → b ≡ false
    second a b c e = ground arith

    third : (a b c : Bool) → (a && (not b && c)) ≡ true → c ≡ true
    third a b c e = ground arith

sane_after_complete :
    (seen vs : List ℕ)
    → All Usable vs
    → Distinct vs
    → All (NotIn seen) vs
    → sane_after seen vs ≡ true
unfolding sane_after Distinct
sane_after_complete seen [] u d n = refl
sane_after_complete seen (v ∷ vs) u d n =
    rw ((Usable-test v).1 u.0, (seen_before-NotIn v seen).1 n.0)
      (sane_after_complete (v ∷ seen) vs u.1 d.1 (NotIn-join v seen vs d.0 n.1))

nothing_seen : (vs : List ℕ) → All (NotIn []) vs
nothing_seen [] = tt
nothing_seen (v ∷ vs) = (tt, nothing_seen vs)

-- A run of words is credited exactly when it has two words at least, no word is zero or all ones, and
-- no two words are equal.
pub cpu_words_look_sane-Sane : (words : List ℕ) → cpu_words_look_sane words ≡ true ↔ Sane words
unfolding cpu_words_look_sane
cpu_words_look_sane-Sane words = (to, from)
  where
    to : (if ltb (length words) 2 then false else sane_after [] words) ≡ true → Sane words
    to h =
        let (u, d, n) = sane_after_sound [] words (ground (arith, h)) in
        record { enough = ground (arith, h); usable = u; distinct = d }

    from : Sane words → (if ltb (length words) 2 then false else sane_after [] words) ≡ true
    from s =
        let e = s.enough in
        let r = sane_after_complete [] words s.usable s.distinct (nothing_seen words) in
        ground (arith, e, r)

-- One instruction gives at most as many words as were asked for.
pub length-draw_cpu_words :
    (answers : List (Option ℕ)) (want : ℕ) → length (draw_cpu_words answers want) ≤ want
unfolding draw_cpu_words
length-draw_cpu_words answers zero = omega arith
length-draw_cpu_words answers (suc want) =
    counted (try_word 10 answers).0 _ (length-draw_cpu_words (try_word 10 answers).1 want)
  where
    counted : (o : Option ℕ) (ws : List ℕ) → length ws ≤ want → length (cons_if o ws) ≤ suc want
    counted none ws h = omega arith
    counted (some v) ws h = omega arith
