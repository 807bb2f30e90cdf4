-- ===== src/Secure/Backspace.antt =====
-- `backspace` and `backspaceWord` against the text that is held.
use signeros.Base.{
  ℕ, zero, suc, ◌+◌, ◌-◌, ◌≡◌, inl, inr, refl, sym, ap, subst, ◌∙◌, Bool, true, false, not, [], ◌∷◌,
  ◌++◌, append_assoc, append-nil, arith, Bytes, ◌==◌, if◌then◌else◌, length, get_or, set,
  length-append, All, All-append, Bool-cases,
}
use signeros.Base.Segments.{get_or-append, set-append, unsnoc}
use signeros.Secure.{SecureString, capacity, backspace, is_blank, erase_back, backspace_word}
use signeros.Secure.Repr.{zeros, filled, Holds, append-cons, length-snoc}

-- The text without its last character, if it has one.
abbrev pub drop_last : Bytes → Bytes
drop_last [] = []
drop_last (c ∷ []) = []
drop_last (c ∷ d ∷ t) = c ∷ drop_last (d ∷ t)

pub drop_last-snoc : (t : Bytes) (c : ℕ) → drop_last (t ++ c ∷ []) ≡ t
drop_last-snoc [] c = refl
drop_last-snoc (d ∷ []) c = refl
drop_last-snoc (d ∷ e ∷ t) c = ap (λ xs. d ∷ xs) (drop_last-snoc (e ∷ t) c)

data Ends (t : Bytes) : Type 0 where
  empty : t ≡ [] → Ends t
  snoc : (u : Bytes) (x : ℕ) → t ≡ u ++ x ∷ [] → Ends t

ends : (t : Bytes) → Ends t
ends [] = empty refl
ends (c ∷ t) = let (u, x, e, l) = unsnoc c t in snoc u x e

backspace-filled :
    (u : Bytes) (x room : ℕ) → backspace (filled (u ++ x ∷ []) room) ≡ filled u (suc room)
unfolding backspace zeros
backspace-filled u x room =
    rw (nonzero (omega (arith, length-snoc u x)))
      (λ i. record { buf = wiped i; len = shorter (omega (arith, length-snoc u x)) i })
  where
    nonzero : length (u ++ x ∷ []) ≡ length u + 1 → (length (u ++ x ∷ []) == 0) ≡ false
    nonzero e = ground arith

    shorter : length (u ++ x ∷ []) ≡ length u + 1 → length (u ++ x ∷ []) - 1 ≡ length u
    shorter e = omega arith

    wiped :
        set ((u ++ x ∷ []) ++ 0 ∷ zeros room) (length (u ++ x ∷ []) - 1) 0 ≡ u ++ 0 ∷ 0 ∷ zeros room
    wiped =
        ap (λ b. set b (length (u ++ x ∷ []) - 1) 0) (append-cons u x (0 ∷ zeros room))
        ∙ set-append u x 0 (0 ∷ zeros room) (shorter (length-snoc u x))

pub backspace-Holds : {s : SecureString} (t : Bytes) → Holds s t → Holds (backspace s) (drop_last t)
backspace-Holds t (room, e, h) = elim (ends t) [
  | empty n ↦ rw (e, n) (room, unfold backspace in refl, omega (arith, h, ap (λ xs. length xs) n))
  | snoc u x n ↦
      rw (e, n, backspace-filled u x room, drop_last-snoc u x)
        (suc room, refl, omega (arith, h, ap (λ xs. length xs) n, length-snoc u x))
]

abbrev pub Passes : (ℕ → Bool) → ℕ → Type 0
Passes p c = p c ≡ true

-- The last character of `t`, if it has one, fails the test.
pub data StopsAt (p : ℕ → Bool) (t : Bytes) : Type 0 where
  nothing : t ≡ [] → StopsAt p t
  char : (u : Bytes) (x : ℕ) → t ≡ u ++ x ∷ [] → p x ≡ false → StopsAt p t

-- What `erase_back` leaves of `t`: the text `kept`, with the rest overwritten by zeros.
pub record Erased (p : ℕ → Bool) (t : Bytes) (room : ℕ) : Type 0 where
  pub kept : Bytes
  pub gone : Bytes
  pub parts : t ≡ kept ++ gone
  pub gone_pass : All (Passes p) gone
  pub stops : StopsAt p kept
  pub left : ℕ
  pub counted : left ≡ length gone + room
  pub result : erase_back p (t ++ 0 ∷ zeros room) (length t) ≡ filled kept left

module _ (p : ℕ → Bool) where
  erase_back-snoc :
      (u : Bytes) (x room : ℕ)
      → erase_back p ((u ++ x ∷ []) ++ 0 ∷ zeros room) (suc (length u)) ≡ (
          if p x
          then erase_back p (u ++ 0 ∷ zeros (suc room)) (length u)
          else filled (u ++ x ∷ []) room)
  unfolding erase_back zeros
  erase_back-snoc u x room = λ i.
      if p (seen i)
      then erase_back p (wiped i) (length u)
      else record { buf = (u ++ x ∷ []) ++ 0 ∷ zeros room; len = counted i }
    where
      seen : get_or ((u ++ x ∷ []) ++ 0 ∷ zeros room) (length u) 0 ≡ x
      seen =
          ap (λ b. get_or b (length u) 0) (append-cons u x (0 ∷ zeros room))
          ∙ get_or-append u x 0 (0 ∷ zeros room) refl

      wiped : set ((u ++ x ∷ []) ++ 0 ∷ zeros room) (length u) 0 ≡ u ++ 0 ∷ 0 ∷ zeros room
      wiped =
          ap (λ b. set b (length u) 0) (append-cons u x (0 ∷ zeros room))
          ∙ set-append u x 0 (0 ∷ zeros room) refl

      counted : suc (length u) ≡ length (u ++ x ∷ [])
      counted = omega (arith, length-snoc u x)

  Erased-nil : (room : ℕ) → Erased p [] room
  unfolding erase_back
  Erased-nil room = record {
    kept = [];
    gone = [];
    parts = refl;
    gone_pass = tt;
    stops = nothing refl;
    left = room;
    counted = omega arith;
    result = refl;
  }

  module _ (u : Bytes) (x room : ℕ) {t : Bytes} (e : t ≡ u ++ x ∷ []) where
    at_last : erase_back p (t ++ 0 ∷ zeros room) (length t) ≡ (
        if p x
        then erase_back p (u ++ 0 ∷ zeros (suc room)) (length u)
        else filled (u ++ x ∷ []) room)
    at_last =
        ap (λ v. erase_back p (v ++ 0 ∷ zeros room) (length v)) e
        ∙ ap (λ n. erase_back p ((u ++ x ∷ []) ++ 0 ∷ zeros room) n) one_more
        ∙ erase_back-snoc u x room
      where
        one_more : length (u ++ x ∷ []) ≡ suc (length u)
        one_more = omega (arith, length-snoc u x)

    Erased-keep : p x ≡ false → Erased p t room
    Erased-keep f = record {
      kept = t;
      gone = [];
      parts = sym (append-nil t);
      gone_pass = tt;
      stops = char u x e f;
      left = room;
      counted = omega arith;
      result = at_last ∙ rw (f, e);
    }

    Erased-drop : p x ≡ true → Erased p u (suc room) → Erased p t room
    Erased-drop f r = record {
      kept = r.kept;
      gone = r.gone ++ x ∷ [];
      parts = e ∙ ap (λ v. v ++ x ∷ []) r.parts ∙ append_assoc r.kept r.gone (x ∷ []);
      gone_pass = All-append (Passes p) r.gone (x ∷ []) r.gone_pass (f, tt);
      stops = r.stops;
      left = r.left;
      counted = omega (arith, r.counted, length-snoc r.gone x);
      result = at_last ∙ rw f r.result;
    }

  pub erase_back-Erased : (n : ℕ) (t : Bytes) (room : ℕ) → length t ≡ n → Erased p t room
  erase_back-Erased zero [] room h = Erased-nil room
  erase_back-Erased zero (c ∷ t) room h = absurd (omega arith)
  erase_back-Erased (suc n) [] room h = absurd (omega arith)
  erase_back-Erased (suc n) (c ∷ t) room h =
      let (u, x, e, l) = unsnoc c t in
      let rest = erase_back-Erased n u (suc room) (omega (arith, l)) in
      elim (Bool-cases (p x)) [
        | inl f ↦ Erased-drop u x room e f rest
        | inr f ↦ Erased-keep u x room e f
      ]

abbrev not_blank : ℕ → Bool
not_blank c = not (is_blank c)

-- What `backspaceWord` leaves of `t`: a word and the blanks behind it are gone, and nothing else.
pub record WordGone (t kept : Bytes) : Type 0 where
  pub word : Bytes
  pub blanks : Bytes
  pub parts : t ≡ kept ++ (word ++ blanks)
  pub word_chars : All (Passes (λ c. not (is_blank c))) word
  pub blank_chars : All (Passes is_blank) blanks
  pub whole_word : StopsAt (λ c. not (is_blank c)) kept
  pub all_blanks : StopsAt is_blank (kept ++ word)

module _ {s : SecureString} (t : Bytes) (room : ℕ) (e : s ≡ filled t room)
    (first : Erased is_blank t room) (second : Erased not_blank first.kept first.left) where
  two_loops : backspace_word s ≡ filled second.kept second.left
  unfolding backspace_word
  two_loops =
      ap
        (λ (v : SecureString).
          let w = erase_back is_blank v.buf v.len in erase_back not_blank w.buf w.len)
        e
      ∙ ap (λ (w : SecureString). erase_back not_blank w.buf w.len) first.result
      ∙ second.result

  two_parts : WordGone t second.kept
  two_parts = record {
    word = second.gone;
    blanks = first.gone;
    parts =
        first.parts
        ∙ ap (λ v. v ++ first.gone) second.parts
        ∙ append_assoc second.kept second.gone first.gone;
    word_chars = second.gone_pass;
    blank_chars = first.gone_pass;
    whole_word = second.stops;
    all_blanks = subst (StopsAt is_blank) second.parts first.stops;
  }

  two_lengths : length t + suc room ≡ capacity → length second.kept + suc second.left ≡ capacity
  two_lengths h = omega (
    arith,
    h,
    first.counted,
    second.counted,
    ap (λ v. length v) first.parts,
    ap (λ v. length v) second.parts,
    length-append first.kept first.gone,
    length-append second.kept second.gone,
  )

-- `backspaceWord` drops the blanks at the end, then the whole word before them, and nothing else.
pub backspace_word-Holds :
    {s : SecureString} (t : Bytes)
    → Holds s t
    → (kept : Bytes) × WordGone t kept × Holds (backspace_word s) kept
backspace_word-Holds {s} t (room, e, h) =
    let first = erase_back-Erased is_blank (length t) t room refl in
    let second = erase_back-Erased not_blank (length first.kept) first.kept first.left refl in
    (
      second.kept,
      two_parts t room e first second,
      (second.left, two_loops t room e first second, two_lengths t room e first second h),
    )
