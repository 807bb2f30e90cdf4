-- ===== src/Secure/Normalise.antt =====
-- `normaliseWhitespace` against the text that is held: the loop reads and writes one buffer.
use signeros.Base.{
  ℕ, ◌+◌, ◌-◌, ◌≤◌, ◌<◌, ◌≡◌, inl, inr, refl, sym, ap, subst, ◌∙◌, Bool, true, false, [], ◌∷◌, ◌++◌,
  append_assoc, append-nil, arith, Bytes, ltb, if◌then◌else◌, length, get_or, set, length-append,
  Bool-cases, foldl, lt→ltb, le→ltb,
}
use signeros.Base.Segments.{get_or-append, set-append}
use signeros.Base.Fields.{cut, words, nonempties, after, join}
use signeros.Secure.{
  SecureString, space, is_ws, normalise_step, normalise_loop, normalise_whitespace, secure_wipe,
}
use signeros.Secure.Edit.{zeros-cut}
use signeros.Secure.Repr.{zeros, filled, Holds, append-cons, length-snoc, wipe-segment}

-- One round of the loop on texts: what has been written, and whether a space is due.
emit : Bytes × Bool → ℕ → Bytes × Bool
emit (out, pending) c =
    if is_ws c
    then (out, if ltb 0 (length out) then true else pending)
    else if pending
    then ((out ++ space ∷ []) ++ c ∷ [], false)
    else (out ++ c ∷ [], false)

abbrev due : Bool → ℕ
due b = if b then 1 else 0

-- One round on the buffer `o ++ (g ++ z)`, of which `g` has been read and not yet overwritten.
record Stepped (o g z : Bytes) (pending : Bool) (c : ℕ) : Type 0 where
  gap : Bytes
  result : normalise_step (o ++ (g ++ z)) (length o) pending c ≡ (
    (emit (o, pending) c).0 ++ (gap ++ z),
    length (emit (o, pending) c).0,
    (emit (o, pending) c).1,
  )
  total : length (emit (o, pending) c).0 + length gap ≡ length o + length g
  room : due (emit (o, pending) c).1 ≤ length gap

module _ (o z : Bytes) (c : ℕ) where
  step_ws : (g : Bytes) (pending : Bool) → is_ws c ≡ true → 1 ≤ length g → Stepped o g z pending c
  unfolding normalise_step emit
  step_ws g pending h l = record { gap = g; result = rw h; total = rw h; room = ground arith }

  step_char : (y : ℕ) (g : Bytes) → is_ws c ≡ false → Stepped o (y ∷ g) z false c
  unfolding normalise_step emit
  step_char y g h = record {
    gap = g;
    result = rw h (λ i. (
      (set-append o y c (g ++ z) refl ∙ sym (append-cons o c (g ++ z))) i,
      sym (length-snoc o c) i,
      false,
    ));
    total = rw h (omega (arith, length-snoc o c));
    room = rw h (omega arith);
  }

  step_pending : (y y' : ℕ) (g : Bytes) → is_ws c ≡ false → Stepped o (y ∷ y' ∷ g) z true c
  unfolding normalise_step emit
  step_pending y y' g h = record {
    gap = g;
    result =
        rw h (λ i.
          (written i, sizes (length-snoc (o ++ space ∷ []) c) (length-snoc o space) i, false));
    total = rw h (omega (arith, length-snoc (o ++ space ∷ []) c, length-snoc o space));
    room = rw h (omega arith);
  }
    where
      sizes :
          length ((o ++ space ∷ []) ++ c ∷ []) ≡ length (o ++ space ∷ []) + 1
          → length (o ++ space ∷ []) ≡ length o + 1
          → length o + 2 ≡ length ((o ++ space ∷ []) ++ c ∷ [])
      sizes p q = omega arith

      written :
          set (set (o ++ ((y ∷ y' ∷ g) ++ z)) (length o) space) (length o + 1) c
          ≡ ((o ++ space ∷ []) ++ c ∷ []) ++ (g ++ z)
      written =
          ap (λ b. set b (length o + 1) c)
            (set-append o y space (y' ∷ (g ++ z)) refl ∙ sym (append-cons o space (y' ∷ (g ++ z))))
          ∙ set-append (o ++ space ∷ []) y' c (g ++ z) (sym (length-snoc o space))
          ∙ sym (append-cons (o ++ space ∷ []) c (g ++ z))

  step_lem : (g : Bytes) (pending : Bool) → 1 + due pending ≤ length g → Stepped o g z pending c
  step_lem [] pending l = absurd (omega arith)
  step_lem (y ∷ []) true l = absurd (omega arith)
  step_lem (y ∷ y' ∷ g) true l = elim (Bool-cases (is_ws c)) [
    | inl h ↦ step_ws (y ∷ y' ∷ g) true h (omega arith)
    | inr h ↦ step_pending y y' g h
  ]
  step_lem (y ∷ g) false l = elim (Bool-cases (is_ws c)) [
    | inl h ↦ step_ws (y ∷ g) false h (omega arith)
    | inr h ↦ step_char y g h
  ]

record Looped (o g rest z : Bytes) (pending : Bool) : Type 0 where
  gap : Bytes
  result :
      normalise_loop
        (o ++ (g ++ (rest ++ z)))
        (length o + length g)
        (length rest)
        (length o)
        pending
      ≡ ((foldl emit (o, pending) rest).0 ++ (gap ++ z), length (foldl emit (o, pending) rest).0)
  total : length (foldl emit (o, pending) rest).0 + length gap ≡ length o + length g + length rest

module _ (o g : Bytes) (c : ℕ) (rest z : Bytes) (pending : Bool) where
  reading : get_or (o ++ (g ++ ((c ∷ rest) ++ z))) (length o + length g) 0 ≡ c
  reading =
      ap (λ b. get_or b (length o + length g) 0) (sym (append_assoc o g ((c ∷ rest) ++ z)))
      ∙ get_or-append (o ++ g) c 0 (rest ++ z) (sym (length-append o g))

  regroup : o ++ (g ++ ((c ∷ rest) ++ z)) ≡ o ++ ((g ++ c ∷ []) ++ (rest ++ z))
  regroup = ap (λ b. o ++ b) (sym (append-cons g c (rest ++ z)))

  loop_step :
      (st : Stepped o (g ++ c ∷ []) (rest ++ z) pending c)
      → Looped (emit (o, pending) c).0 st.gap rest z (emit (o, pending) c).1
      → Looped o g (c ∷ rest) z pending
  unfolding normalise_loop
  loop_step st more = record {
    gap = more.gap;
    result =
        (λ i.
          let (b, w, p) = normalise_step (regroup i) (length o) pending (reading i) in
          normalise_loop b (length o + length g + 1) (length rest) w p)
        ∙ (λ i. let (b, w, p) = st.result i in normalise_loop b (position i) (length rest) w p)
        ∙ more.result;
    total = omega (arith, more.total, st.total, length-snoc g c);
  }
    where
      position : length o + length g + 1 ≡ length (emit (o, pending) c).0 + length st.gap
      position = omega (arith, st.total, length-snoc g c)

loop_lem :
    (o g rest z : Bytes) (pending : Bool) → due pending ≤ length g → Looped o g rest z pending
unfolding normalise_loop
loop_lem o g [] z pending l = record { gap = g; result = refl; total = omega arith }
loop_lem o g (c ∷ rest) z pending l =
    let st = step_lem o (rest ++ z) c (g ++ c ∷ []) pending (omega (arith, length-snoc g c)) in
    loop_step o g c rest z pending st
      (loop_lem (emit (o, pending) c).0 st.gap rest z (emit (o, pending) c).1 st.room)

emit_ws : (o : Bytes) (p : Bool) (c : ℕ) → 0 < length o → is_ws c ≡ true → emit (o, p) c ≡ (o, true)
unfolding emit
emit_ws o p c l h = rw (h, lt→ltb 0 (length o) l)

emit_ws_first : (c : ℕ) → is_ws c ≡ true → emit ([], false) c ≡ ([], false)
unfolding emit
emit_ws_first c h = rw h

emit_char : (o : Bytes) (c : ℕ) → is_ws c ≡ false → emit (o, false) c ≡ (o ++ c ∷ [], false)
unfolding emit
emit_char o c h = rw h

emit_pending :
    (o : Bytes) (c : ℕ) → is_ws c ≡ false → emit (o, true) c ≡ ((o ++ space ∷ []) ++ c ∷ [], false)
unfolding emit
emit_pending o c h = rw h

abbrev finish : Bytes × Bool → Bytes → Bytes
finish st t = (foldl emit st t).0

-- Inside a word, the rest of the word is next; behind a word, the other words are.
emit_lem :
    (t o : Bytes)
    → 0 < length o
    → (finish (o, false) t ≡ o ++ ((cut is_ws t).0 ++ after space (nonempties (cut is_ws t).1)))
      × (finish (o, true) t ≡ o ++ after space (words is_ws t))
unfolding cut nonempties after
emit_lem [] o l = (sym (append-nil o), sym (append-nil o))
emit_lem (c ∷ t) o l = elim (Bool-cases (is_ws c)) [
  | inl h ↦ rw h (
    ap (λ st. finish st t) (emit_ws o false c l h) ∙ (emit_lem t o l).1,
    ap (λ st. finish st t) (emit_ws o true c l h) ∙ (emit_lem t o l).1,
  )
  | inr h ↦ rw h (
    ap (λ st. finish st t) (emit_char o c h)
        ∙ (emit_lem t (o ++ c ∷ []) (omega (arith, length-snoc o c))).0
        ∙ append-cons o c _,
    ap (λ st. finish st t) (emit_pending o c h)
        ∙ (emit_lem t ((o ++ space ∷ []) ++ c ∷ [])
            (omega (arith, length-snoc (o ++ space ∷ []) c))).0
        ∙ append-cons (o ++ space ∷ []) c _
        ∙ append-cons o space _,
  )
]

-- The rounds write the words of the text, with one space between two of them.
emit-words : (t : Bytes) → finish ([], false) t ≡ join space (words is_ws t)
unfolding cut nonempties after join
emit-words [] = refl
emit-words (c ∷ t) = elim (Bool-cases (is_ws c)) [
  | inl h ↦ rw h (ap (λ st. finish st t) (emit_ws_first c h) ∙ emit-words t)
  | inr h ↦ rw h (ap (λ st. finish st t) (emit_char [] c h) ∙ (emit_lem t (c ∷ []) (omega arith)).0)
]

-- The tail behind the new text is wiped, up to the length of the old one.
abbrev wipe_gap : Bytes → Bytes → ℕ → Bytes
wipe_gap out b len =
    if ltb (length out) len then secure_wipe b (length out) (len - length out) else b

wipe_gap_lem :
    (out gap : Bytes) (room len left : ℕ)
    → length out + length gap ≡ len
    → left ≡ length gap + room
    → wipe_gap out (out ++ (gap ++ 0 ∷ zeros room)) len ≡ out ++ 0 ∷ zeros left
wipe_gap_lem out [] room len left e l =
    rw (le→ltb (length out) len (omega arith)) (ap (λ n. out ++ 0 ∷ zeros n) same)
  where
    same : room ≡ left
    same = omega arith
wipe_gap_lem out (y ∷ g) room len left e l = rw (lt→ltb (length out) len (omega arith)) (
    wipe-segment out (y ∷ g) (0 ∷ zeros room) {i = length out} {n = len - length out} refl size
    ∙ ap (λ b. out ++ b) (sym (zeros-cut (len - length out) room (omega arith))))
  where
    size : len - length out ≡ length (y ∷ g)
    size = omega arith

looped_text : (t : Bytes) (room : ℕ) → Looped [] [] t (0 ∷ zeros room) false
looped_text t room = loop_lem [] [] t (0 ∷ zeros room) false (omega arith)

normalise_filled :
    (t : Bytes) (room : ℕ)
    → normalise_whitespace (filled t room)
      ≡ filled (finish ([], false) t) (length (looped_text t room).gap + room)
unfolding normalise_whitespace
normalise_filled t room =
    (λ i.
      let (b, w) = loop.result i in
      record {
        buf = set (if ltb w (length t) then secure_wipe b w (length t - w) else b) w 0;
        len = w;
      })
    ∙ (λ i. record {
      buf =
          (ap (λ b. set b (length out) 0) (wipe_gap_lem out loop.gap room (length t) left size refl)
              ∙ set-append out 0 0 (zeros left) refl)
            i;
      len = length out;
    })
  where
    loop : Looped [] [] t (0 ∷ zeros room) false
    loop = looped_text t room

    out : Bytes
    out = finish ([], false) t

    left : ℕ
    left = length loop.gap + room

    size : length out + length loop.gap ≡ length t
    size = omega (arith, loop.total)

-- `normaliseWhitespace` leaves the words of the text with one space between two of them, no blank
-- at either end, and wipes the bytes by which the text became shorter.
pub normalise_whitespace-Holds :
    {s : SecureString} (t : Bytes)
    → Holds s t
    → Holds (normalise_whitespace s) (join space (words is_ws t))
normalise_whitespace-Holds {s} t (room, e, h) =
    subst (Holds (normalise_whitespace s)) (emit-words t) (
      length (looped_text t room).gap + room,
      ap normalise_whitespace e ∙ normalise_filled t room,
      omega (arith, (looped_text t room).total),
    )
