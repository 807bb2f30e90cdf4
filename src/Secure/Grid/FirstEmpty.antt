-- ===== src/Secure/Grid/FirstEmpty.antt =====
-- `firstEmptySlot` against the fields that are shown.
use native.Mathlib.Nat.{zero-add}
use signeros.Base.{
  ℕ, suc, ◌+◌, ◌≡◌, refl, sym, ap, ◌∙◌, false, List, [], ◌∷◌, ◌++◌, append_assoc, arith, Bytes,
  ◌==◌, length, length-append, subst, ne→==,
}
use signeros.Secure.{SecureString}
use signeros.Secure.Grid.{slot_length, first_empty_from, first_empty_slot}
use signeros.Secure.Grid.Slots.{slot_length-length}
use signeros.Secure.Grid.Span.{slot_count-length}
use signeros.Secure.Grid.Text.{Shows}

-- The place of the first empty field, or the number of fields.
abbrev pub find_empty : List Bytes → ℕ
find_empty [] = 0
find_empty ([] ∷ fs) = 0
find_empty ((c ∷ f) ∷ fs) = suc (find_empty fs)

module _ {s : SecureString} where
  first_empty_lem :
      (r l : List Bytes) (i : ℕ)
      → Shows s (l ++ r)
      → i ≡ length l
      → first_empty_from s i (length r) ≡ i + find_empty r
  unfolding first_empty_from
  first_empty_lem [] l i v e = omega arith
  first_empty_lem ([] ∷ r) l i v e = rw (e, slot_length-length l [] r v) (omega arith)
  first_empty_lem ((c ∷ f) ∷ r) l i v e =
      rw (at_slot e)
        (first_empty_lem r (l ++ (c ∷ f) ∷ []) (i + 1) shown (omega (arith, more)) ∙ shift)
    where
      at_slot : i ≡ length l → (slot_length s i == 0) ≡ false
      at_slot p = rw (p, slot_length-length l (c ∷ f) r v) (ne→== (suc (length f)) 0 (omega arith))

      shown : Shows s ((l ++ (c ∷ f) ∷ []) ++ r)
      shown = subst (Shows s) (sym (append_assoc l ((c ∷ f) ∷ []) r)) v

      more : length (l ++ (c ∷ f) ∷ []) ≡ length l + 1
      more = length-append l ((c ∷ f) ∷ [])

      shift : i + 1 + find_empty r ≡ i + suc (find_empty r)
      shift = omega arith

  -- `firstEmptySlot` finds the first field that holds nothing.
  pub first_empty_slot-find_empty :
      (fs : List Bytes) → Shows s fs → first_empty_slot s ≡ find_empty fs
  unfolding first_empty_slot
  first_empty_slot-find_empty fs v =
      ap (λ n. first_empty_from s 0 n) (slot_count-length fs v)
      ∙ first_empty_lem fs [] 0 v refl
      ∙ zero-add (find_empty fs)
