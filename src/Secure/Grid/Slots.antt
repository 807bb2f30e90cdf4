-- ===== src/Secure/Grid/Slots.antt =====
-- The edits of one slot, and `firstEmptySlot`, against the fields that are shown.
use signeros.Base.{
  ℕ, suc, ◌+◌, ◌-◌, ◌≤◌, ◌<◌, ◌^◌, ◌≡◌, ◌≢◌, inl, inr, refl, sym, ap, ◌∙◌, Bool, true, false, none,
  some, List, [], ◌∷◌, ◌++◌, append_assoc, arith, Bytes, ltb, ◌==◌, if◌then◌else◌, length,
  length-append, subst, Bool-cases, All-append, All-append_left, All-append_right, ne→==, ==→ne,
  ==→eq, ltb→lt, if_true, if_false,
}
use signeros.Base.Fields.{after}
use signeros.Base.Segments.{unsnoc}
use signeros.Secure.{SecureString, capacity, space}
use signeros.Secure.Grid.{
  slot_length, append_to_slot, backspace_in_slot, clear_slot, has_space, set_slot, insert_at,
  erase_at, slot_span,
}
use signeros.Secure.Grid.Span.{slot_span-some, slot_span-none}
use signeros.Secure.Grid.Splice.{spliced, erase_at-Holds, insert_at-Holds}
use signeros.Secure.Grid.Text.{before, join_split, Lacks, Shows}
use signeros.Secure.Backspace.{drop_last, drop_last-snoc}
use signeros.Secure.Repr.{Holds, length-snoc}

answered : {r : SecureString × Bool} {b : Bool} → r.1 ≡ b → (r.0, b) ≡ r
answered {r} e = ap (λ c. (r.0, c)) (sym e)

module _ {s : SecureString} (l : List Bytes) (f : Bytes) (r : List Bytes)
    (v : Shows s (l ++ f ∷ r)) where
  held_split : Holds s (before l ++ (f ++ after space r))
  held_split = subst (Holds s) (join_split l f r) v.held

  -- The same slots with another text in this one.
  reshow :
      {s' : SecureString} (w : Bytes)
      → Lacks w
      → Holds s' (before l ++ (w ++ after space r))
      → Shows s' (l ++ w ∷ r)
  reshow {s'} w lacks h = record {
    held = subst (Holds s') (sym (join_split l w r)) h;
    clean =
        All-append Lacks l (w ∷ r) (All-append_left Lacks l (f ∷ r) v.clean)
          (lacks, (All-append_right Lacks l (f ∷ r) v.clean).1);
    nonempty = omega (arith, length-append l (w ∷ r));
  }

  slot-Lacks : Lacks f
  slot-Lacks = (All-append_right Lacks l (f ∷ r) v.clean).0

  -- `slotLength` is the length of the field.
  pub slot_length-length : slot_length s (length l) ≡ length f
  unfolding slot_length
  slot_length-length = rw (slot_span-some l f r v, slot_length)

  -- `clearSlot` empties this slot and leaves every other as it was.
  pub clear_slot-Shows : Shows (clear_slot s (length l)) (l ++ [] ∷ r)
  unfolding clear_slot
  clear_slot-Shows = elim (Bool-cases (length f == 0)) [
    | inl e ↦
        rw (slot_span-some l f r v, clear_slot, e)
          (subst (λ w. Shows s (l ++ w ∷ r)) (nil_of f e) v)
    | inr n ↦
        rw (slot_span-some l f r v, clear_slot, n)
          (reshow [] tt (erase_at-Holds (before l) f (after space r) held_split))
  ]
    where
      nil_of : (w : Bytes) → (length w == 0) ≡ true → w ≡ []
      nil_of [] p = refl
      nil_of (c ∷ w) p = absurd (ground arith)

  has_space-Lacks : (w : Bytes) → Lacks w → has_space w ≡ false
  unfolding has_space
  has_space-Lacks [] h = refl
  has_space-Lacks (c ∷ w) (hc, h) = rw (ne→== c space hc) (has_space-Lacks w h)

  abbrev fits_in : Bytes → Bool
  fits_in w = ltb (length (before l ++ after space r) + length w) capacity

  -- `setSlot` replaces the text of this slot and leaves every other as it was. Where the text does
  -- not fit it answers false, and the slot is left empty.
  set_slot-fitting :
      (w : Bytes)
      → Lacks w
      → length w < 2 ^ 63
      → Shows (set_slot s (length l) (some w)).0 (if fits_in w then l ++ w ∷ r else l ++ [] ∷ r)
        × ((set_slot s (length l) (some w)).1 ≡ fits_in w)
  unfolding set_slot
  set_slot-fitting w lacks small =
      rw (has_space-Lacks w lacks, slot_span-some l f r v)
        (shown (fits_in w) inserted.0, inserted.1)
    where
      s' : SecureString × Bool
      s' = insert_at (erase_at s (length (before l)) (length f)) (length (before l)) (some w)

      inserted : Holds s'.0 (spliced (before l) w (after space r)) × (s'.1 ≡ fits_in w)
      inserted =
          insert_at-Holds (before l) w (after space r) small
            (erase_at-Holds (before l) f (after space r) held_split)

      shown :
          (b : Bool)
          → Holds s'.0 (if b then before l ++ (w ++ after space r) else before l ++ after space r)
          → Shows s'.0 (if b then l ++ w ∷ r else l ++ [] ∷ r)
      shown true h = reshow w lacks h
      shown false h = reshow [] tt h

  -- The ways that `setSlot` ends on a slot that is there.
  pub data SlotSet (w : Bytes) : SecureString × Bool → Type 0 where
    -- The text has the separator in it: nothing changes.
    separated : ¬ Lacks w → SlotSet w (s, false)
    placed :
        {s' : SecureString}
        → Lacks w
        → length (before l ++ after space r) + length w < capacity
        → Shows s' (l ++ w ∷ r)
        → SlotSet w (s', true)
    -- The text does not fit: the slot is left empty.
    emptied :
        {s' : SecureString}
        → Lacks w
        → capacity ≤ length (before l ++ after space r) + length w
        → Shows s' (l ++ [] ∷ r)
        → SlotSet w (s', false)

  has_space-not : (w : Bytes) → has_space w ≡ true → ¬ Lacks w
  has_space-not w h lacks = absurd (false_true (sym (has_space-Lacks w lacks) ∙ h))
    where
      false_true : false ≡ true → ⊥
      false_true e = cc

  Lacks-has_space : (w : Bytes) → has_space w ≡ false → Lacks w
  unfolding has_space
  Lacks-has_space [] h = tt
  Lacks-has_space (c ∷ w) h =
      (==→ne c space (ground (arith, h)), Lacks-has_space w (ground (arith, h)))

  -- `setSlot` of a text shorter than 2 ^ 63 on a slot that is there: a text with a space in it is
  -- refused and nothing changes; a text that fits replaces the slot and the other slots stay; else the
  -- answer is false, the slot is left empty and the other slots stay.
  pub set_slot-SlotSet :
      (w : Bytes) → length w < 2 ^ 63 → SlotSet w (set_slot s (length l) (some w))
  unfolding set_slot
  set_slot-SlotSet w small = elim (Bool-cases (has_space w)) [
    | inl p ↦ rw (p, set_slot) (separated (has_space-not w p))
    | inr p ↦
        let lacks = Lacks-has_space w p in
        let (shown, answer) = set_slot-fitting w lacks small in
        elim (Bool-cases (fits_in w)) [
          | inl room ↦ subst (SlotSet w) (answered (answer ∙ room)) (
              placed lacks (ltb→lt _ _ room)
                (subst (Shows (set_slot s (length l) (some w)).0) (if_true _ _ room) shown))
          | inr full ↦ subst (SlotSet w) (answered (answer ∙ full)) (
              emptied lacks (ground (arith, full))
                (subst (Shows (set_slot s (length l) (some w)).0) (if_false _ _ full) shown))
        ]
  ]

  -- `backspaceInSlot` drops the last character of this slot, if it has one.
  pub backspace_in_slot-Shows : Shows (backspace_in_slot s (length l)) (l ++ drop_last f ∷ r)
  unfolding backspace_in_slot
  backspace_in_slot-Shows = rw (slot_span-some l f r v, backspace_in_slot) (choose f refl)
    where
      choose :
          (g : Bytes)
          → f ≡ g
          → Shows
              (if length f == 0 then s else erase_at s (length (before l) + length f - 1) 1)
              (l ++ drop_last f ∷ r)
      choose [] e = rw e (subst (λ w. Shows s (l ++ w ∷ r)) e v)
      choose (c ∷ g) e =
          let (u, x, eu, lu) = unsnoc c g in
          rw (nonempty (ap (λ w. length w) e)) (shorter u x (e ∙ eu))
        where
          nonempty : length f ≡ suc (length g) → (length f == 0) ≡ false
          nonempty p = ground arith

          shorter :
              (u : Bytes) (x : ℕ)
              → f ≡ u ++ x ∷ []
              → Shows (erase_at s (length (before l) + length f - 1) 1) (l ++ drop_last f ∷ r)
          shorter u x p =
              subst (λ k. Shows (erase_at s k 1) (l ++ drop_last f ∷ r)) (position u x p)
                (subst (λ w. Shows (erase_at s (length (before l ++ u)) 1) (l ++ w ∷ r))
                  (sym (ap drop_last p ∙ drop_last-snoc u x))
                  (reshow u (All-append_left (λ d. d ≢ space) u (x ∷ []) (subst Lacks p slot-Lacks))
                    (subst (Holds (erase_at s (length (before l ++ u)) 1))
                      (append_assoc (before l) u (after space r))
                      (erase_at-Holds (before l ++ u) (x ∷ []) (after space r) (cut_last u x p)))))
            where
              position :
                  (u : Bytes) (x : ℕ)
                  → f ≡ u ++ x ∷ []
                  → length (before l ++ u) ≡ length (before l) + length f - 1
              position u x p =
                  omega (arith, length-append (before l) u, ap (λ w. length w) p, length-snoc u x)

              cut_last :
                  (u : Bytes) (x : ℕ)
                  → f ≡ u ++ x ∷ []
                  → Holds s ((before l ++ u) ++ (x ∷ after space r))
              cut_last u x p =
                  subst (Holds s)
                    (ap (λ w. before l ++ (w ++ after space r)) p
                      ∙ ap (λ w. before l ++ w) (append_assoc u (x ∷ []) (after space r))
                      ∙ sym (append_assoc (before l) u (x ∷ after space r)))
                    held_split

  abbrev grown : ℕ → Bytes
  grown c = if ltb (length (before l ++ (f ++ after space r)) + 1) capacity then f ++ c ∷ [] else f

  append_to_slot-typed :
      (c : ℕ)
      → c ≢ space
      → Shows (append_to_slot s (length l) c).0 (l ++ grown c ∷ r)
        × ((append_to_slot s (length l) c).1
            ≡ ltb (length (before l ++ (f ++ after space r)) + 1) capacity)
  unfolding append_to_slot
  append_to_slot-typed c ne =
      rw (ne→== c space ne, slot_span-some l f r v)
        (subst Result (length-append (before l) f) (shown room inserted.0, inserted.1))
    where
      room : Bool
      room = ltb (length (before l ++ (f ++ after space r)) + 1) capacity

      Result : ℕ → Type 0
      Result k =
          Shows (insert_at s k (some (c ∷ []))).0 (l ++ grown c ∷ r)
          × ((insert_at s k (some (c ∷ []))).1 ≡ room)

      same : before l ++ (f ++ after space r) ≡ (before l ++ f) ++ after space r
      same = sym (append_assoc (before l) f (after space r))

      inserted :
          Holds (insert_at s (length (before l ++ f)) (some (c ∷ []))).0 (
            if room
            then (before l ++ f) ++ (c ∷ after space r)
            else (before l ++ f) ++ after space r)
          × ((insert_at s (length (before l ++ f)) (some (c ∷ []))).1 ≡ room)
      inserted =
          subst
            (λ w.
              Holds (insert_at s (length (before l ++ f)) (some (c ∷ []))).0 (
                if ltb (length w + 1) capacity
                then (before l ++ f) ++ (c ∷ after space r)
                else (before l ++ f) ++ after space r)
              × ((insert_at s (length (before l ++ f)) (some (c ∷ []))).1
                  ≡ ltb (length w + 1) capacity))
            (sym same)
            (insert_at-Holds (before l ++ f) (c ∷ []) (after space r) (omega arith)
              (subst (Holds s) same held_split))

      longer : (before l ++ f) ++ (c ∷ after space r) ≡ before l ++ ((f ++ c ∷ []) ++ after space r)
      longer =
          append_assoc (before l) f (c ∷ after space r)
          ∙ ap (λ w. before l ++ w) (sym (append_assoc f (c ∷ []) (after space r)))

      shown :
          (b : Bool)
          → Holds (insert_at s (length (before l ++ f)) (some (c ∷ []))).0 (
              if b
              then (before l ++ f) ++ (c ∷ after space r)
              else (before l ++ f) ++ after space r)
          → Shows
              (insert_at s (length (before l ++ f)) (some (c ∷ []))).0
              (l ++ (if b then f ++ c ∷ [] else f) ∷ r)
      shown true h =
          reshow (f ++ c ∷ []) (All-append (λ d. d ≢ space) f (c ∷ []) slot-Lacks (ne, tt))
            (subst (Holds (insert_at s (length (before l ++ f)) (some (c ∷ []))).0) longer h)
      shown false h =
          reshow f slot-Lacks
            (subst (Holds (insert_at s (length (before l ++ f)) (some (c ∷ []))).0) (sym same) h)

module _ {s : SecureString} (l : List Bytes) (f : Bytes) (r : List Bytes)
    (v : Shows s (l ++ f ∷ r)) where
  -- The ways that `appendToSlot` ends on a slot that is there.
  pub data SlotTyped (c : ℕ) : SecureString × Bool → Type 0 where
    -- The separator is refused: nothing changes.
    separator : c ≡ space → SlotTyped c (s, false)
    added :
        {s' : SecureString}
        → c ≢ space
        → length (before l ++ (f ++ after space r)) + 1 < capacity
        → Shows s' (l ++ (f ++ c ∷ []) ∷ r)
        → SlotTyped c (s', true)
    full_up :
        {s' : SecureString}
        → c ≢ space
        → capacity ≤ length (before l ++ (f ++ after space r)) + 1
        → Shows s' (l ++ f ∷ r)
        → SlotTyped c (s', false)

  -- `appendToSlot` on a slot that is there: a space is refused and nothing changes; another character
  -- is added to this slot where the storage has room, and the other slots stay; else the answer is
  -- false and every slot shows what it did.
  pub append_to_slot-SlotTyped : (c : ℕ) → SlotTyped c (append_to_slot s (length l) c)
  unfolding append_to_slot
  append_to_slot-SlotTyped c = elim (Bool-cases (c == space)) [
    | inl p ↦ rw (p, append_to_slot) (separator (==→eq c space p))
    | inr p ↦
        let ne = ==→ne c space p in
        let (shown, answer) = append_to_slot-typed l f r v c ne in
        elim (Bool-cases (ltb (length (before l ++ (f ++ after space r)) + 1) capacity)) [
          | inl room ↦ subst (SlotTyped c) (answered (answer ∙ room)) (
              added ne (ltb→lt _ _ room) (
                subst (λ g. Shows (append_to_slot s (length l) c).0 (l ++ g ∷ r)) (if_true _ _ room)
                  shown))
          | inr full ↦ subst (SlotTyped c) (answered (answer ∙ full)) (
              full_up ne (ground (arith, full)) (
                subst (λ g. Shows (append_to_slot s (length l) c).0 (l ++ g ∷ r))
                  (if_false _ _ full) shown))
        ]
  ]

-- An edit of a slot that is not there changes nothing, and fails.
pub edits_outside :
    {s : SecureString} (fs : List Bytes) (k c : ℕ) (w : Bytes)
    → Shows s fs
    → length fs ≤ k
    → (clear_slot s k ≡ s)
      × (backspace_in_slot s k ≡ s)
      × (append_to_slot s k c ≡ (s, false))
      × (set_slot s k (some w) ≡ (s, false))
unfolding clear_slot backspace_in_slot append_to_slot set_slot
edits_outside {s} fs k c w v h = (
  rw (missing, clear_slot),
  rw (missing, backspace_in_slot),
  (elim (Bool-cases (c == space)) [ inl p ↦ rw p | inr p ↦ rw (p, missing) ]),
  (elim (Bool-cases (has_space w)) [ inl p ↦ rw p | inr p ↦ rw (p, missing) ]),
)
  where
    missing : slot_span s k ≡ none
    missing = slot_span-none fs k v h
