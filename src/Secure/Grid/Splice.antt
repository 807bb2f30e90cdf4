-- ===== src/Secure/Grid/Splice.antt =====
-- `insertAt` and `eraseAt` against the text: the shift loops move what stands behind the place.
use signeros.Base.{
  ℕ, zero, suc, ◌+◌, ◌-◌, ◌≤◌, ◌<◌, ◌^◌, ◌≡◌, inl, inr, refl, sym, ap, ◌∙◌, true, false, ◌||◌, some,
  [], ◌∷◌, ◌++◌, append_assoc, arith, Bytes, ltb, leb, ◌==◌, if◌then◌else◌, length, get_or, set,
  length-append, subst, Bool-cases, lt→ltb, le→ltb, ltb→lt,
}
use signeros.Base.Segments.{get_or-append, set-append, unsnoc}
use signeros.Secure.{SecureString, capacity, secure_wipe, write, add_size}
use signeros.Secure.Edit.{zeros-cut}
use signeros.Secure.Grid.{shift_up, shift_down, insert_at, erase_at}
use signeros.Secure.Repr.{
  zeros, filled, Holds, append-cons, length-snoc, length-zeros, write-segment, wipe-segment,
}

shift_down_lem :
    (b a z g : Bytes) (i n k : ℕ)
    → i ≡ length a
    → n ≡ length g
    → k ≡ length b
    → 0 < n
    → (left : Bytes) × (shift_down (a ++ (g ++ (b ++ z))) i n k ≡ a ++ (b ++ (left ++ z)))
      × (length left ≡ n)
unfolding shift_down
shift_down_lem [] a z g i n zero ei en ek pos = (g, refl, sym en)
shift_down_lem [] a z g i n (suc k) ei en ek pos = absurd (omega arith)
shift_down_lem (x ∷ b) a z g i n zero ei en ek pos = absurd (omega arith)
shift_down_lem (x ∷ b) a z [] i n (suc k) ei en ek pos = absurd (omega arith)
shift_down_lem (x ∷ b) a z (y ∷ g) i n (suc k) ei en ek pos =
    let (left, eq, size) =
      shift_down_lem b (a ++ x ∷ []) z (g ++ x ∷ []) (i + 1) n k (omega (arith, length-snoc a x))
        (omega (arith, length-snoc g x)) (omega arith) pos in
    (
      left,
      ap (λ c. shift_down (set buf i c) (i + 1) n k) found
          ∙ ap (λ v. shift_down v (i + 1) n k) (written ∙ regroup)
          ∙ eq
          ∙ append-cons a x (b ++ (left ++ z)),
      size,
    )
  where
    buf : Bytes
    buf = a ++ ((y ∷ g) ++ ((x ∷ b) ++ z))

    found : get_or buf (i + n) 0 ≡ x
    found =
        ap (λ v. get_or v (i + n) 0) (sym (append_assoc a (y ∷ g) ((x ∷ b) ++ z)))
        ∙ get_or-append (a ++ y ∷ g) x 0 (b ++ z) (omega (arith, length-append a (y ∷ g)))

    written : set buf i x ≡ a ++ x ∷ (g ++ ((x ∷ b) ++ z))
    written = set-append a y x (g ++ ((x ∷ b) ++ z)) ei

    regroup : a ++ x ∷ (g ++ ((x ∷ b) ++ z)) ≡ (a ++ x ∷ []) ++ ((g ++ x ∷ []) ++ (b ++ z))
    regroup =
        sym (append-cons a x (g ++ ((x ∷ b) ++ z)))
        ∙ ap (λ v. (a ++ x ∷ []) ++ v) (sym (append-cons g x (b ++ z)))

-- One round of the loop of `insertAt`: the last byte `y` goes to the end of the gap.
module _ (a u g g' z : Bytes) (y w pos k n : ℕ) where
  up_read :
      pos ≡ length a → k ≡ length u → get_or (a ++ ((u ++ y ∷ []) ++ (g ++ z))) (pos + k) 0 ≡ y
  up_read ep ek =
      ap (λ v. get_or v (pos + k) 0)
        (ap (λ v. a ++ v) (append-cons u y (g ++ z)) ∙ sym (append_assoc a u (y ∷ (g ++ z))))
      ∙ get_or-append (a ++ u) y 0 (g ++ z) (omega (arith, length-append a u))

  up_write :
      pos ≡ length a
      → k ≡ length u
      → n ≡ length g'
      → y ∷ g ≡ g' ++ w ∷ []
      → set (a ++ ((u ++ y ∷ []) ++ (g ++ z))) (pos + k + n) y ≡ a ++ (u ++ (g' ++ y ∷ z))
  up_write ep ek en eg =
      ap (λ v. set v (pos + k + n) y) gap_end
      ∙ set-append ((a ++ u) ++ g') w y z
          (omega (arith, length-append (a ++ u) g', length-append a u))
      ∙ append_assoc (a ++ u) g' (y ∷ z)
      ∙ append_assoc a u (g' ++ y ∷ z)
    where
      gap_end : a ++ ((u ++ y ∷ []) ++ (g ++ z)) ≡ ((a ++ u) ++ g') ++ w ∷ z
      gap_end =
          ap (λ v. a ++ v) (append-cons u y (g ++ z))
          ∙ ap (λ v. a ++ (u ++ (v ++ z))) eg
          ∙ ap (λ v. a ++ (u ++ v)) (append-cons g' w z)
          ∙ sym (append_assoc a u (g' ++ w ∷ z))
          ∙ sym (append_assoc (a ++ u) g' (w ∷ z))

shift_up_lem :
    (k : ℕ) (b a z g : Bytes) (pos n : ℕ)
    → pos ≡ length a
    → n ≡ length g
    → k ≡ length b
    → (left : Bytes) × (shift_up (a ++ (b ++ (g ++ z))) pos n k ≡ a ++ (left ++ (b ++ z)))
      × (length left ≡ n)
unfolding shift_up
shift_up_lem zero [] a z g pos n ep en ek = (g, refl, sym en)
shift_up_lem zero (x ∷ b) a z g pos n ep en ek = absurd (omega arith)
shift_up_lem (suc k) [] a z g pos n ep en ek = absurd (omega arith)
shift_up_lem (suc k) (x ∷ b) a z g pos n ep en ek =
    let (u, y, eb, lu) = unsnoc x b in
    let (g', w, eg, lg) = unsnoc y g in
    let (left, eq, l) =
      shift_up_lem k u a (y ∷ z) g' pos n ep (omega (arith, lg, en)) (omega (arith, lu)) in
    let step = λ (v : Bytes). shift_up (set v (pos + k + n) (get_or v (pos + k) 0)) pos n k in
    (
      left,
      ap (λ v. step (a ++ (v ++ (g ++ z)))) eb
          ∙ ap (λ c. shift_up (set (a ++ ((u ++ y ∷ []) ++ (g ++ z))) (pos + k + n) c) pos n k)
              (up_read a u g g' z y w pos k n ep (omega (arith, lu)))
          ∙ ap (λ v. shift_up v pos n k)
              (up_write a u g g' z y w pos k n ep (omega (arith, lu)) (omega (arith, lg, en)) eg)
          ∙ eq
          ∙ ap (λ v. a ++ (left ++ v)) (sym (append-cons u y z) ∙ ap (λ v. v ++ z) (sym eb)),
      l,
    )

erase_zero : (s : SecureString) (pos : ℕ) → erase_at s pos 0 ≡ s
unfolding erase_at
erase_zero s pos = ground arith

module _ (a g b : Bytes) (y room : ℕ) where
  abbrev whole : Bytes
  whole = a ++ ((y ∷ g) ++ b)

  length-whole : length whole ≡ length a + suc (length g) + length b
  length-whole = omega (arith, length-append a ((y ∷ g) ++ b), length-append (y ∷ g) b)

  -- The three stages of `eraseAt`: shift, wipe, terminate.
  erased :
      (len n k : ℕ)
      → len ≡ length a + length b
      → n ≡ suc (length g)
      → k ≡ length b
      → set (secure_wipe (shift_down (whole ++ 0 ∷ zeros room) (length a) n k) len n) len 0
        ≡ (a ++ b) ++ 0 ∷ zeros (n + room)
  erased len n k el en ek =
      let (left, eq, size) =
        shift_down_lem b a (0 ∷ zeros room) (y ∷ g) (length a) n k refl en ek (omega arith) in
      ap (λ v. set (secure_wipe v len n) len 0)
        (ap (λ v. shift_down v (length a) n k)
            (append_assoc a ((y ∷ g) ++ b) (0 ∷ zeros room)
              ∙ ap (λ v. a ++ v) (append_assoc (y ∷ g) b (0 ∷ zeros room)))
          ∙ eq
          ∙ sym (append_assoc a b (left ++ 0 ∷ zeros room)))
      ∙ ap (λ v. set v len 0)
          (wipe-segment (a ++ b) left (0 ∷ zeros room) {i = len} {n = n}
              (omega (arith, length-append a b)) (sym size)
            ∙ ap (λ v. (a ++ b) ++ v) (sym (zeros-cut n room refl)))
      ∙ set-append (a ++ b) 0 0 (zeros (n + room)) (omega (arith, length-append a b))

  erase_filled :
      erase_at (filled whole room) (length a) (suc (length g))
      ≡ filled (a ++ b) (suc (length g) + room)
  unfolding erase_at
  erase_filled =
      rw (guard length-whole, clamp length-whole)
        (λ i. record {
          buf =
              erased (length whole - suc (length g)) (suc (length g))
                (length whole - suc (length g) - length a) (omega (arith, length-whole)) refl
                (omega (arith, length-whole)) i;
          len = shorter length-whole (length-append a b) i;
        })
    where
      guard :
          length whole ≡ length a + suc (length g) + length b
          → (leb (length whole) (length a) || suc (length g) == 0) ≡ false
      guard e = ground arith

      clamp :
          length whole ≡ length a + suc (length g) + length b
          → ltb (length whole - length a) (suc (length g)) ≡ false
      clamp e = ground arith

      shorter :
          length whole ≡ length a + suc (length g) + length b
          → length (a ++ b) ≡ length a + length b
          → length whole - suc (length g) ≡ length (a ++ b)
      shorter e e' = omega arith

-- `eraseAt` takes a segment out of the text, and wipes as many bytes at its end.
pub erase_at-Holds :
    {s : SecureString} (a g b : Bytes)
    → Holds s (a ++ (g ++ b))
    → Holds (erase_at s (length a) (length g)) (a ++ b)
erase_at-Holds {s} a [] b h = subst (λ v. Holds v (a ++ b)) (sym (erase_zero s (length a))) h
erase_at-Holds a (y ∷ g) b (room, e, h) = (
  suc (length g) + room,
  ap (λ v. erase_at v (length a) (suc (length g))) e ∙ erase_filled a g b y room,
  omega (arith, h, length-whole a g b y room, length-append a b),
)

module _ (a b cs : Bytes) (room r : ℕ) (fits : room ≡ length cs + r) where
  inserted :
      (k : ℕ)
      → k ≡ length b
      → set
          (write (shift_up ((a ++ b) ++ 0 ∷ zeros room) (length a) (length cs) k) (length a) cs)
          (length (a ++ b) + length cs)
          0
        ≡ (a ++ (cs ++ b)) ++ 0 ∷ zeros r
  inserted k ek =
      let (left, eq, size) =
        shift_up_lem k b a (0 ∷ zeros r) (zeros (length cs)) (length a) (length cs) refl
          (sym (length-zeros (length cs))) ek in
      ap (λ v. set (write (shift_up v (length a) (length cs) k) (length a) cs) end 0)
        (append_assoc a b (0 ∷ zeros room) ∙ ap (λ v. a ++ (b ++ v)) (zeros-cut (length cs) r fits))
      ∙ ap (λ v. set (write v (length a) cs) end 0) eq
      ∙ ap (λ v. set v end 0)
          (write-segment a left (b ++ 0 ∷ zeros r) cs refl size
            ∙ ap (λ v. a ++ v) (sym (append_assoc cs b (0 ∷ zeros r)))
            ∙ sym (append_assoc a (cs ++ b) (0 ∷ zeros r)))
      ∙ set-append (a ++ (cs ++ b)) 0 0 (zeros r)
          (omega (arith, length-append a b, length-append a (cs ++ b), length-append cs b))
    where
      end : ℕ
      end = length (a ++ b) + length cs

  insert_filled :
      0 < length cs
      → length (a ++ b) + suc room ≡ capacity
      → insert_at (filled (a ++ b) room) (length a) (some cs) ≡ (filled (a ++ (cs ++ b)) r, true)
  unfolding insert_at
  insert_filled pos h =
      rw (within (length-append a b), nonempty, fitting)
        (λ i. (
          record {
            buf = inserted (length (a ++ b) - length a) (omega (arith, length-append a b)) i;
            len = longer (length-append a b) (length-append a (cs ++ b)) (length-append cs b) i;
          },
          true,
        ))
    where
      within : length (a ++ b) ≡ length a + length b → ltb (length (a ++ b)) (length a) ≡ false
      within e = ground arith

      nonempty : (length cs == 0) ≡ false
      nonempty = ground arith

      fitting : ltb capacity (add_size (add_size (length (a ++ b)) (length cs)) 1) ≡ false
      fitting = le→ltb _ _ (omega arith)

      longer :
          length (a ++ b) ≡ length a + length b
          → length (a ++ (cs ++ b)) ≡ length a + length (cs ++ b)
          → length (cs ++ b) ≡ length cs + length b
          → length (a ++ b) + length cs ≡ length (a ++ (cs ++ b))
      longer e e' e'' = omega arith

insert_nil : (s : SecureString) (pos : ℕ) → pos ≤ s.len → insert_at s pos (some []) ≡ (s, true)
unfolding insert_at
insert_nil s pos h = ground arith

insert_full :
    (a b cs : Bytes) (room : ℕ)
    → 0 < length cs
    → length cs < 2 ^ 63
    → length (a ++ b) < capacity
    → capacity ≤ length (a ++ b) + length cs
    → insert_at (filled (a ++ b) room) (length a) (some cs) ≡ (filled (a ++ b) room, false)
unfolding insert_at
insert_full a b cs room pos small within over =
    rw (inside (length-append a b), nonempty, too_long (omega arith))
  where
    inside : length (a ++ b) ≡ length a + length b → ltb (length (a ++ b)) (length a) ≡ false
    inside e = ground arith

    nonempty : (length cs == 0) ≡ false
    nonempty = ground arith

    too_long :
        add_size (add_size (length (a ++ b)) (length cs)) 1 ≡ length (a ++ b) + length cs + 1
        → ltb capacity (add_size (add_size (length (a ++ b)) (length cs)) 1) ≡ true
    too_long p = lt→ltb _ _ (omega arith)

abbrev pub spliced : Bytes → Bytes → Bytes → Bytes
spliced a cs b = if ltb (length (a ++ b) + length cs) capacity then a ++ (cs ++ b) else a ++ b

-- `insertAt` puts bytes into the text exactly if they fit, and says so.
pub insert_at-Holds :
    {s : SecureString} (a cs b : Bytes)
    → length cs < 2 ^ 63
    → Holds s (a ++ b)
    → Holds (insert_at s (length a) (some cs)).0 (spliced a cs b)
      × ((insert_at s (length a) (some cs)).1 ≡ ltb (length (a ++ b) + length cs) capacity)
insert_at-Holds {s} a [] b small (room, e, h) =
    rw (lt→ltb (length (a ++ b) + 0) capacity (omega arith), done) ((room, e, h), refl)
  where
    reach : s.len ≡ length (a ++ b)
    reach = ap (λ (v : SecureString). v.len) e

    done : insert_at s (length a) (some []) ≡ (s, true)
    done = insert_nil s (length a) (omega (arith, reach, length-append a b))
insert_at-Holds {s} a (c ∷ cs) b small (room, e, h) =
    elim (Bool-cases (ltb (length (a ++ b) + length (c ∷ cs)) capacity)) [
      | inl fits ↦ rw (fits, put fits) ((room - suc (length cs), refl, left fits), refl)
      | inr over ↦ rw (over, refused over) ((room, refl, h), refl)
    ]
  where
    below : ltb (length (a ++ b) + suc (length cs)) capacity ≡ true → suc (length cs) ≤ room
    below p = omega (arith, ltb→lt (length (a ++ b) + suc (length cs)) capacity p, h)

    put :
        ltb (length (a ++ b) + suc (length cs)) capacity ≡ true
        → insert_at s (length a) (some (c ∷ cs))
          ≡ (filled (a ++ ((c ∷ cs) ++ b)) (room - suc (length cs)), true)
    put p =
        ap (λ v. insert_at v (length a) (some (c ∷ cs))) e
        ∙ insert_filled a b (c ∷ cs) room (room - suc (length cs)) (omega (arith, below p))
            (omega arith) h

    left :
        ltb (length (a ++ b) + suc (length cs)) capacity ≡ true
        → length (a ++ ((c ∷ cs) ++ b)) + suc (room - suc (length cs)) ≡ capacity
    left p = omega (
      arith,
      h,
      below p,
      length-append a b,
      length-append a ((c ∷ cs) ++ b),
      length-append (c ∷ cs) b,
    )

    refused :
        ltb (length (a ++ b) + suc (length cs)) capacity ≡ false
        → insert_at s (length a) (some (c ∷ cs)) ≡ (filled (a ++ b) room, false)
    refused p =
        ap (λ v. insert_at v (length a) (some (c ∷ cs))) e
        ∙ insert_full a b (c ∷ cs) room (omega arith) small (omega arith) beyond
      where
        beyond : capacity ≤ length (a ++ b) + suc (length cs)
        beyond = ground arith
