-- ===== src/Secure/Grid/Shrink.antt =====
-- `setSlotCount` where it drops slots: what they held is wiped.
use signeros.Base.{
  ℕ, suc, ◌+◌, ◌-◌, ◌≡◌, refl, sym, ap, ◌∙◌, true, List, [], ◌∷◌, ◌++◌, append_assoc, append-nil,
  arith, Bytes, ltb, if◌then◌else◌, length, length-append, All-append, All-append_left,
  All-append_right, ne→==, lt→ltb, le→ltb, set,
}
use signeros.Base.Fields.{after, join}
use signeros.Base.Segments.{set-append}
use signeros.Secure.{SecureString, space, secure_wipe}
use signeros.Secure.Edit.{zeros-cut}
use signeros.Secure.Grid.{keep_slots, set_slot_count}
use signeros.Secure.Grid.Span.{slot_count-length, slot_span-some}
use signeros.Secure.Grid.Text.{before, join_split, Lacks, Shows}
use signeros.Secure.Repr.{zeros, filled, wipe-segment}

module _ {s : SecureString} (l : List Bytes) (f g : Bytes) (r : List Bytes)
    (v : Shows s (l ++ f ∷ g ∷ r)) where
  kept_text : Bytes
  kept_text = before l ++ f

  whole_text : join space (l ++ f ∷ g ∷ r) ≡ kept_text ++ after space (g ∷ r)
  unfolding kept_text
  whole_text = join_split l f (g ∷ r) ∙ sym (append_assoc (before l) f (after space (g ∷ r)))

  length-kept_text : length kept_text ≡ length (before l) + length f
  unfolding kept_text
  length-kept_text = length-append (before l) f

  join-kept : join space (l ++ f ∷ []) ≡ kept_text
  unfolding kept_text after
  join-kept = join_split l f [] ∙ ap (λ w. before l ++ w) (append-nil f)

  cut_filled :
      (room k : ℕ)
      → k ≡ length kept_text
      → (if ltb k (length (kept_text ++ after space (g ∷ r)))
          then secure_wipe
              ((kept_text ++ after space (g ∷ r)) ++ 0 ∷ zeros room)
              k
              (length (kept_text ++ after space (g ∷ r)) - k)
          else (kept_text ++ after space (g ∷ r)) ++ 0 ∷ zeros room)
        ≡ kept_text ++ 0 ∷ zeros (length (after space (g ∷ r)) + room)
  unfolding after
  cut_filled room k e =
      rw (lt→ltb k (length (kept_text ++ dropped)) (omega (arith, length-append kept_text dropped)))
        (ap (λ b. secure_wipe b k (length (kept_text ++ dropped) - k))
            (append_assoc kept_text dropped (0 ∷ zeros room))
          ∙ wipe-segment kept_text dropped (0 ∷ zeros room) {i = k}
              {n = length (kept_text ++ dropped) - k} e
              (omega (arith, length-append kept_text dropped))
          ∙ ap (λ b. kept_text ++ b)
              (sym (
                zeros-cut (length (kept_text ++ dropped) - k) room
                  (omega (arith, length-append kept_text dropped)))))
    where
      dropped : Bytes
      dropped = space ∷ (g ++ after space r)

  -- What `keep_slots` leaves of `w` with the end of the last slot at `k`.
  abbrev kept : SecureString → ℕ → SecureString
  kept w k = record {
    buf = set (if ltb k w.len then secure_wipe w.buf k (w.len - k) else w.buf) k 0;
    len = k;
  }

  keep_step : keep_slots s (suc (length l)) ≡ (kept s (length (before l) + length f), true)
  unfolding keep_slots
  keep_step = rw (index, slot_span-some l f (g ∷ r) v, keep_slots)
    where
      index : suc (length l) - 1 ≡ length l
      index = omega arith

  kept_filled :
      (room k : ℕ)
      → k ≡ length kept_text
      → kept (filled (kept_text ++ after space (g ∷ r)) room) k
        ≡ filled kept_text (length (after space (g ∷ r)) + room)
  kept_filled room k e = λ i. record {
    buf =
        (ap (λ b. set b k 0) (cut_filled room k e)
            ∙ set-append kept_text 0 0 (zeros (length (after space (g ∷ r)) + room)) e)
          i;
    len = e i;
  }

  shrink_step : set_slot_count s (suc (length l)) ≡ keep_slots s (suc (length l))
  unfolding set_slot_count
  shrink_step = rw (
    slot_count-length (l ++ f ∷ g ∷ r) v,
    ne→== (suc (length l)) 0 (omega arith),
    ne→== (length (l ++ f ∷ g ∷ r)) (suc (length l)) (omega (arith, more)),
    le→ltb (length (l ++ f ∷ g ∷ r)) (suc (length l)) (omega (arith, more)),
  )
    where
      more : length (l ++ f ∷ g ∷ r) ≡ length l + suc (suc (length r))
      more = length-append l (f ∷ g ∷ r)

  -- `setSlotCount` keeps the first slots as they were; the text of the others is overwritten.
  pub set_slot_count-shrink :
      Shows (set_slot_count s (suc (length l))).0 (l ++ f ∷ [])
      × ((set_slot_count s (suc (length l))).1 ≡ true)
  set_slot_count-shrink =
      let (room, e, h) = v.held in
      rw (shrink_step, keep_step)
        (
          record {
            held = (
              length (after space (g ∷ r)) + room,
              ap (λ w. kept w (length (before l) + length f))
                    (e ∙ ap (λ t. filled t room) whole_text)
                  ∙ kept_filled room (length (before l) + length f) (sym length-kept_text)
                  ∙ ap (λ t. filled t (length (after space (g ∷ r)) + room)) (sym join-kept),
              omega (
                arith,
                h,
                ap (λ t. length t) whole_text,
                ap (λ t. length t) join-kept,
                length-append kept_text (after space (g ∷ r)),
              ),
            );
            clean =
                All-append Lacks l (f ∷ []) (All-append_left Lacks l (f ∷ g ∷ r) v.clean)
                  ((All-append_right Lacks l (f ∷ g ∷ r) v.clean).0, tt);
            nonempty = omega (arith, length-append l (f ∷ []));
          },
          refl,
        )
