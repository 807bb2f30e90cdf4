-- ===== src/Secure/Grid/Count.antt =====
-- `setSlotCount` and `firstEmptySlot` against the fields that are shown.

use signeros.Base.{
  ℕ, zero, suc, ◌+◌, ◌-◌, ◌≤◌, ◌<◌, ◌^◌, ◌≡◌, inl, inr, refl, sym, ap, ◌∙◌, Bool, true, false, List,
  [], ◌∷◌, ◌++◌, append_assoc, arith, Bytes, ltb, if◌then◌else◌, length, length-append, Bool-cases,
  All, All-append, ne→==, lt→ltb, le→ltb, ltb→lt, replicate, set,
}
use signeros.Base.Fields.{after, join}
use signeros.Secure.{SecureString, capacity, space, write, add_size}
use signeros.Secure.Edit.{write_tail}
use signeros.Secure.Grid.{write_spaces, set_slot_count}
use signeros.Secure.Grid.Span.{slot_count-length}
use signeros.Secure.Grid.Text.{Lacks, Shows}
use signeros.Secure.Repr.{zeros, filled}

abbrev pub empties : ℕ → List Bytes
empties n = replicate n []

after_empties : ℕ → Bytes
after_empties n = after space (empties n)

length-after_empties : (n : ℕ) → length (after_empties n) ≡ n
unfolding after_empties after
length-after_empties zero = refl
length-after_empties (suc n) = ap suc (length-after_empties n)

write_spaces-write :
    (n : ℕ) (b : Bytes) (at : ℕ) → write_spaces b at n ≡ write b at (after_empties n)
unfolding write_spaces write after_empties after
write_spaces-write zero b at = refl
write_spaces-write (suc n) b at = write_spaces-write n (set b at space) (at + 1)

after-append : (fs gs : List Bytes) → after space (fs ++ gs) ≡ after space fs ++ after space gs
unfolding after
after-append [] gs = refl
after-append (f ∷ fs) gs =
    ap (λ w. space ∷ (f ++ w)) (after-append fs gs)
    ∙ ap (λ w. space ∷ w) (sym (append_assoc f (after space fs) (after space gs)))

join-append :
    (fs gs : List Bytes) → 0 < length fs → join space (fs ++ gs) ≡ join space fs ++ after space gs
unfolding join
join-append [] gs h = absurd (omega arith)
join-append (f ∷ fs) gs h =
    ap (λ w. f ++ w) (after-append fs gs) ∙ sym (append_assoc f (after space fs) (after space gs))

All-empties : (n : ℕ) → All Lacks (empties n)
All-empties zero = tt
All-empties (suc n) = (tt, All-empties n)

module _ {s : SecureString} (fs : List Bytes) (count : ℕ) (v : Shows s fs) where
  abbrev add : ℕ
  add = count - length fs

  abbrev has_room : Bool
  has_room = ltb (length (join space fs) + add) capacity

  grow_room :
      (room : ℕ)
      → room ≡ add + (room - add)
      → set
          (write_spaces (join space fs ++ 0 ∷ zeros room) (length (join space fs)) add)
          (length (join space fs) + add)
          0
        ≡ join space (fs ++ empties add) ++ 0 ∷ zeros (room - add)
  unfolding after_empties
  grow_room room e =
      ap (λ b. set b (length (join space fs) + add) 0)
        (write_spaces-write add (join space fs ++ 0 ∷ zeros room) (length (join space fs)))
      ∙ ap
          (λ k.
            set
              (write (join space fs ++ 0 ∷ zeros room) (length (join space fs)) (after_empties add))
              (length (join space fs) + k) 0)
          (sym (length-after_empties add))
      ∙ write_tail (join space fs) (after_empties add) (room - add)
          (omega (arith, length-after_empties add, e))
      ∙ ap (λ w. w ++ 0 ∷ zeros (room - add)) (sym (join-append fs (empties add) v.nonempty))

  -- What `setSlotCount` computes to where it has to grow.
  abbrev grown : SecureString → SecureString × Bool
  grown w = if ltb capacity (add_size (add_size w.len add) 1) then (w, false) else (
    record { buf = set (write_spaces w.buf w.len add) (w.len + add) 0; len = w.len + add },
    true,
  )

  grow_step : length fs < count → set_slot_count s count ≡ grown s
  unfolding set_slot_count
  grow_step more = rw (
    slot_count-length fs v,
    ne→== count 0 (omega arith),
    ne→== (length fs) count (omega arith),
    lt→ltb (length fs) count more,
  )

  grow_fits :
      (room : ℕ) → length (join space fs) + suc room ≡ capacity → has_room ≡ true → add ≤ room
  grow_fits room h p = omega (arith, ltb→lt (length (join space fs) + add) capacity p)

  grow_filled :
      (room : ℕ)
      → length (join space fs) + suc room ≡ capacity
      → add ≤ room
      → grown (filled (join space fs) room)
        ≡ (filled (join space (fs ++ empties add)) (room - add), true)
  grow_filled room h fits =
      rw (le→ltb capacity (add_size (add_size (length (join space fs)) add) 1) (omega arith))
        (λ i. (record { buf = grow_room room (omega arith) i; len = longer i }, true))
    where
      longer : length (join space fs) + add ≡ length (join space (fs ++ empties add))
      longer = sym (
          ap (λ w. length w) (join-append fs (empties add) v.nonempty)
          ∙ length-append (join space fs) (after space (empties add))
          ∙ ap (λ k. length (join space fs) + k) (unfold after_empties in length-after_empties add))

  grow_full :
      (room : ℕ)
      → length (join space fs) + suc room ≡ capacity
      → count < 2 ^ 63
      → has_room ≡ false
      → grown (filled (join space fs) room) ≡ (filled (join space fs) room, false)
  grow_full room h small p = rw (too_long (omega arith) beyond)
    where
      beyond : capacity ≤ length (join space fs) + add
      beyond = ground arith

      too_long :
          add_size (add_size (length (join space fs)) add) 1 ≡ length (join space fs) + add + 1
          → capacity ≤ length (join space fs) + add
          → ltb capacity (add_size (add_size (length (join space fs)) add) 1) ≡ true
      too_long q b = lt→ltb _ _ (omega arith)

  -- Each new slot is empty, and the old ones stay; without room nothing changes.
  pub set_slot_count-grow :
      length fs < count
      → count < 2 ^ 63
      → Shows (set_slot_count s count).0 (if has_room then fs ++ empties add else fs)
        × ((set_slot_count s count).1 ≡ has_room)
  set_slot_count-grow more small =
      let (room, e, h) = v.held in
      rw (grow_step more, e)
        (elim (Bool-cases has_room) [
          | inl p ↦
              rw (p, grow_filled room h (grow_fits room h p))
                (
                  record {
                    held = (
                      room - add,
                      refl,
                      omega (
                        arith,
                        h,
                        grow_fits room h p,
                        ap (λ w. length w) (join-append fs (empties add) v.nonempty),
                        length-append (join space fs) (after space (empties add)),
                        length_empties,
                      ),
                    );
                    clean = All-append Lacks fs (empties add) v.clean (All-empties add);
                    nonempty = omega (arith, length-append fs (empties add), v.nonempty);
                  },
                  refl,
                )
          | inr p ↦
              rw (p, grow_full room h small p)
                (record { held = (room, refl, h); clean = v.clean; nonempty = v.nonempty }, refl)
        ])
    where
      length_empties : length (after space (empties add)) ≡ add
      length_empties = unfold after_empties in length-after_empties add
