-- ===== src/Base/Fields.antt =====
-- A text cut into fields at the characters that pass a test, and put together again.
use signeros.Base.Lists.{All}
use signeros.Base.Tests.{Bytes, ◌==◌, if◌then◌else◌, Bool-cases, ==→eq, ==→ne, ne→==, eq→==}
use Prim.Native.Nat.{ℕ}
use mathlib.Core.Bool.{Bool, true, false}
use mathlib.Core.List.{List, [], ◌∷◌, ◌++◌}
use mathlib.Core.Logic.{◌≢◌, inl, inr}
use mathlib.Core.Path.{◌≡◌, refl, ap, ◌∙◌}

-- The first field, and the others.
unfoldable pub cut : (ℕ → Bool) → Bytes → Bytes × List Bytes
cut p [] = ([], [])
cut p (c ∷ t) = let (f, fs) = cut p t in if p c then ([], f ∷ fs) else (c ∷ f, fs)

abbrev pub fields : (ℕ → Bool) → Bytes → List Bytes
fields p t = (cut p t).0 ∷ (cut p t).1

unfoldable pub nonempties : List Bytes → List Bytes
nonempties [] = []
nonempties ([] ∷ fs) = nonempties fs
nonempties ((c ∷ f) ∷ fs) = (c ∷ f) ∷ nonempties fs

-- The words of a text: its fields that hold something.
abbrev pub words : (ℕ → Bool) → Bytes → List Bytes
words p t = nonempties (fields p t)

-- Fields behind a separator each.
unfoldable pub after : ℕ → List Bytes → Bytes
after sep [] = []
after sep (f ∷ fs) = sep ∷ (f ++ after sep fs)

unfoldable pub join : ℕ → List Bytes → Bytes
unfolding after
join sep [] = []
join sep (f ∷ fs) = f ++ after sep fs

pub cut-cons_sep :
    (p : ℕ → Bool) (c : ℕ) (t : Bytes) → p c ≡ true → cut p (c ∷ t) ≡ ([], fields p t)
unfolding cut
cut-cons_sep p c t h = rw h

pub cut-cons_char :
    (p : ℕ → Bool) (c : ℕ) (t : Bytes)
    → p c ≡ false
    → cut p (c ∷ t) ≡ (c ∷ (cut p t).0, (cut p t).1)
unfolding cut
cut-cons_char p c t h = rw h

module _ (sep : ℕ) where
  abbrev pub is_sep : ℕ → Bool
  is_sep c = c == sep

  abbrev pub LacksSep : Bytes → Type 0
  LacksSep = All (λ c. c ≢ sep)

  pub cut-join :
      (f : Bytes) (fs : List Bytes)
      → LacksSep f
      → All LacksSep fs
      → cut is_sep (f ++ after sep fs) ≡ (f, fs)
  unfolding cut after
  cut-join [] [] _ _ = refl
  cut-join [] (g ∷ fs) _ (hg, hs) =
      cut-cons_sep is_sep sep (g ++ after sep fs) (eq→== sep sep refl)
      ∙ ap (λ (r : Bytes × List Bytes). ([], r.0 ∷ r.1)) (cut-join g fs hg hs)
  cut-join (c ∷ f) fs (hc, hf) hs =
      cut-cons_char is_sep c (f ++ after sep fs) (ne→== c sep hc)
      ∙ ap (λ (r : Bytes × List Bytes). (c ∷ r.0, r.1)) (cut-join f fs hf hs)

  -- Fields that are joined are found again.
  pub fields-join :
      (f : Bytes) (fs : List Bytes)
      → LacksSep f
      → All LacksSep fs
      → fields is_sep (join sep (f ∷ fs)) ≡ f ∷ fs
  unfolding join
  fields-join f fs hf hs = ap (λ (r : Bytes × List Bytes). r.0 ∷ r.1) (cut-join f fs hf hs)

  pub join-fields : (t : Bytes) → join sep (fields is_sep t) ≡ t
  unfolding cut after join
  join-fields [] = refl
  join-fields (c ∷ t) = elim (Bool-cases (c == sep)) [
    | inl h ↦ rw h (cons_eq (==→eq c sep h) (join-fields t))
    | inr h ↦ rw h (ap (λ xs. c ∷ xs) (join-fields t))
  ]
    where
      cons_eq : {a b : ℕ} {u v : Bytes} → a ≡ b → u ≡ v → b ∷ u ≡ a ∷ v
      cons_eq p q = cc

  pub fields-LacksSep : (t : Bytes) → All LacksSep (fields is_sep t)
  unfolding cut
  fields-LacksSep [] = (tt, tt)
  fields-LacksSep (c ∷ t) = elim (Bool-cases (c == sep)) [
    | inl h ↦ rw h (tt, fields-LacksSep t)
    | inr h ↦ rw h ((==→ne c sep h, (fields-LacksSep t).0), (fields-LacksSep t).1)
  ]
