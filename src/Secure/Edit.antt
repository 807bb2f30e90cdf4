-- ===== src/Secure/Edit.antt =====
-- `append`, `assign` and `clear` against the text that is held.
use signeros.Base.{
  ℕ, zero, suc, ◌+◌, ◌-◌, ◌≤◌, ◌<◌, ◌^◌, ◌≡◌, inl, inr, refl, sym, ap, ◌∙◌, true, false, some, [],
  ◌∷◌, ◌++◌, append_assoc, append-nil, arith, Bytes, ltb, leb, if◌then◌else◌, length, set,
  length-append, Bool-cases, lt→ltb, le→ltb, ltb→lt,
}
use signeros.Base.Segments.{set-append}
use signeros.Secure.{
  SecureString, capacity, add_size, secure_wipe, write, append_char, append_bytes, append, clear,
  assign,
}
use signeros.Secure.Repr.{
  zeros, filled, Holds, zeros-suc, zeros-append, length-zeros, append-cons, length-snoc,
  write-segment, wipe-segment,
}

abbrev pub put_char : Bytes → ℕ → Bytes
put_char t c = if ltb (length t + 1) capacity then t ++ c ∷ [] else t

set_twice :
    (t z : Bytes) (a b c d : ℕ)
    → set (set (t ++ a ∷ b ∷ z) (length t) c) (length t + 1) d ≡ (t ++ c ∷ []) ++ d ∷ z
set_twice t z a b c d =
    ap (λ bs. set bs (length t + 1) d)
      (set-append t a c (b ∷ z) refl ∙ sym (append-cons t c (b ∷ z)))
    ∙ set-append (t ++ c ∷ []) b d z (omega (arith, length-snoc t c))

filled-snoc :
    (t : Bytes) (c room : ℕ) (s : SecureString)
    → s.buf ≡ (t ++ c ∷ []) ++ 0 ∷ zeros room
    → s.len ≡ length t + 1
    → s ≡ filled (t ++ c ∷ []) room
filled-snoc t c room s e l = λ i. record { buf = e i; len = (l ∙ sym (length-snoc t c)) i }

append_char-room :
    (t : Bytes) (c room : ℕ)
    → length t + suc (suc room) ≡ capacity
    → append_char (filled t (suc room)) c ≡ (filled (t ++ c ∷ []) room, true)
unfolding append_char zeros
append_char-room t c room h = rw (le→leb (omega arith)) (
    ap (λ s. (s, true))
      (filled-snoc t c room
        (record {
          buf = set (set (t ++ 0 ∷ 0 ∷ zeros room) (length t) c) (length t + 1) 0;
          len = length t + 1;
        })
        (set_twice t (zeros room) 0 0 c 0) refl))
  where
    le→leb : length t + 1 < capacity → leb capacity (length t + 1) ≡ false
    le→leb p = ground arith

append_char-full :
    (t : Bytes) (c : ℕ) → length t + 1 ≡ capacity → append_char (filled t 0) c ≡ (filled t 0, false)
unfolding append_char
append_char-full t c h = ground arith

-- A character is appended exactly if it fits in front of the terminator, and the result says so.
pub append_char-Holds :
    {s : SecureString} (t : Bytes) (c : ℕ)
    → Holds s t
    → Holds (append_char s c).0 (put_char t c) × ((append_char s c).1 ≡ ltb (length t + 1) capacity)
append_char-Holds t c (zero, e, h) =
    rw (e, append_char-full t c (omega arith), le→ltb (length t + 1) capacity (omega arith))
      ((zero, refl, h), refl)
append_char-Holds t c (suc room, e, h) =
    rw (e, append_char-room t c room h, lt→ltb (length t + 1) capacity (omega arith))
      ((room, refl, omega (arith, length-snoc t c)), refl)

pub zeros-cut : (m r : ℕ) {room : ℕ} → room ≡ m + r → 0 ∷ zeros room ≡ zeros m ++ 0 ∷ zeros r
unfolding zeros
zeros-cut m r {room} e = sym (zeros-append m (suc r) {k = suc room} (omega arith))

-- Bytes written behind the text, and the terminator behind them.
pub write_tail :
    (t cs : Bytes) (r : ℕ) {room : ℕ}
    → room ≡ length cs + r
    → set (write (t ++ 0 ∷ zeros room) (length t) cs) (length t + length cs) 0
      ≡ (t ++ cs) ++ 0 ∷ zeros r
write_tail t cs r {room} e =
    ap (λ z. set (write (t ++ z) (length t) cs) (length t + length cs) 0)
      (zeros-cut (length cs) r e)
    ∙ ap (λ b. set b (length t + length cs) 0)
        (write-segment t (zeros (length cs)) (0 ∷ zeros r) cs refl (length-zeros (length cs))
          ∙ sym (append_assoc t cs (0 ∷ zeros r)))
    ∙ set-append (t ++ cs) 0 0 (zeros r) (omega (arith, length-append t cs))

abbrev pub put_bytes : Bytes → Bytes → Bytes
put_bytes t cs = if ltb (length t + length cs) capacity then t ++ cs else t

pub append_bytes-room :
    (t cs : Bytes) (room r : ℕ)
    → room ≡ length cs + r
    → length t + suc room ≡ capacity
    → append_bytes (filled t room) cs ≡ (filled (t ++ cs) r, true)
unfolding append_bytes
append_bytes-room t cs room r e h = rw (fits (omega arith)) (λ i.
    (record { buf = write_tail t cs r {room = room} e i; len = sym (length-append t cs) i }, true))
  where
    fits :
        length t + length cs < capacity
        → ltb capacity (add_size (add_size (length t) (length cs)) 1) ≡ false
    fits p = le→ltb _ _ (omega arith)

pub append_bytes-full :
    (t cs : Bytes) (room : ℕ)
    → length cs < 2 ^ 63
    → length t < capacity
    → capacity ≤ length t + length cs
    → append_bytes (filled t room) cs ≡ (filled t room, false)
unfolding append_bytes
append_bytes-full t cs room small within over = rw (too_long (omega arith))
  where
    too_long :
        add_size (add_size (length t) (length cs)) 1 ≡ length t + length cs + 1
        → ltb capacity (add_size (add_size (length t) (length cs)) 1) ≡ true
    too_long p = lt→ltb _ _ (omega arith)

-- `append` puts the bytes behind the text exactly if they fit, and says so; otherwise the text stays.
-- The bytes are fewer than 2 ^ 63, as those of an object in memory are.
pub append_bytes-Holds :
    {s : SecureString} (t cs : Bytes)
    → length cs < 2 ^ 63
    → Holds s t
    → Holds (append_bytes s cs).0 (put_bytes t cs)
      × ((append_bytes s cs).1 ≡ ltb (length t + length cs) capacity)
append_bytes-Holds t cs small (room, e, h) =
    elim (Bool-cases (ltb (length t + length cs) capacity)) [
      | inl fits ↦
          rw (e, append_bytes-room t cs room (room - length cs) (cut fits) h, fits)
            ((room - length cs, refl, omega (arith, length-append t cs, cut fits)), refl)
      | inr over ↦
          rw (e, append_bytes-full t cs room small (omega arith) (beyond over), over)
            ((room, refl, h), refl)
    ]
  where
    cut : ltb (length t + length cs) capacity ≡ true → room ≡ length cs + (room - length cs)
    cut p = omega (arith, ltb→lt (length t + length cs) capacity p)

    beyond : ltb (length t + length cs) capacity ≡ false → capacity ≤ length t + length cs
    beyond p = ground arith

-- `clear` leaves nothing: the whole storage is zeros, whatever it held.
pub clear-Holds : {s : SecureString} (t : Bytes) → Holds s t → Holds (clear s) []
unfolding clear
clear-Holds t (room, e, h) = rw e (319, (λ i. record { buf = wiped i; len = 0 }), refl)
  where
    wiped : secure_wipe (t ++ 0 ∷ zeros room) 0 capacity ≡ 0 ∷ zeros 319
    wiped =
        ap (λ b. secure_wipe b 0 capacity) (sym (append-nil (t ++ 0 ∷ zeros room)))
        ∙ wipe-segment [] (t ++ 0 ∷ zeros room) [] refl
            (omega (arith, length-append t (0 ∷ zeros room), length-zeros room))
        ∙ append-nil (zeros capacity)
        ∙ zeros-suc 319

-- `assign` keeps nothing of the old text.
pub assign-Holds :
    {s : SecureString} (t cs : Bytes)
    → length cs < 2 ^ 63
    → Holds s t
    → Holds (assign s (some cs)).0 (put_bytes [] cs)
      × ((assign s (some cs)).1 ≡ ltb (length cs) capacity)
unfolding assign append
assign-Holds {s} t cs small h =
    let r = append_bytes-Holds {s = clear s} [] cs small (clear-Holds t h) in
    (r.0, r.1 ∙ ap (λ n. ltb n capacity) zero_plus)
  where
    zero_plus : 0 + length cs ≡ length cs
    zero_plus = omega arith
