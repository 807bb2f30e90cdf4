-- ===== src/Secure/Words.antt =====
-- `wordCount`, `trailingWordLength` and `copyTrailingWord` against the text that is held.
use signeros.Base.{
  ℕ, zero, suc, ◌+◌, ◌-◌, ◌<◌, ◌≡◌, inl, inr, refl, sym, ap, ◌∙◌, Bool, true, false, not, some, [],
  ◌∷◌, ◌++◌, append_assoc, append-nil, arith, Bytes, ltb, ◌==◌, if◌then◌else◌, length,
  length-append, All, All-append, Bool-cases, foldl,
}
use Prim.Native.Nat.{min}
use native.Mathlib.Nat.{zero-add}
use signeros.Base.Fields.{cut, words, nonempties}
use signeros.Base.Segments.{get_or-append, unsnoc, split_at}
use signeros.Secure.{
  SecureString, is_ws, scan, count_step, word_count, trailing_from, trailing_word_length,
  copy_trailing_word, read,
}
use signeros.Secure.Backspace.{Passes, StopsAt}
use signeros.Secure.Repr.{
  zeros, filled, Holds, append-cons, length-snoc, scan-segment, read-segment,
}

-- The count so far, and whether the loop stands inside a word.
count_lem :
    (t : Bytes) (n : ℕ)
    → ((foldl count_step (n, false) t).0 ≡ n + length (words is_ws t))
      × ((foldl count_step (n, true) t).0 ≡ n + length (nonempties (cut is_ws t).1))
unfolding cut nonempties count_step
count_lem [] n = (omega arith, omega arith)
count_lem (c ∷ t) n = ground (arith, count_lem t n, count_lem t (n + 1))

-- `wordCount` is the number of words of the text.
pub word_count-words :
    {s : SecureString} (t : Bytes) → Holds s t → word_count s ≡ length (words is_ws t)
unfolding word_count
word_count-words t (room, e, h) =
    ap (λ (v : SecureString). (scan count_step v.buf 0 v.len (0, false)).0) e
    ∙ ap (λ (r : ℕ × Bool). r.0)
        (scan-segment count_step [] t (0 ∷ zeros room) (0, false) {i = 0} {n = length t} refl refl)
    ∙ (count_lem t 0).0
    ∙ zero-add _

-- The text as what stands in front of its last word, and that word, which may be empty.
pub record LastWord (t : Bytes) : Type 0 where
  pub before : Bytes
  pub word : Bytes
  pub parts : t ≡ before ++ word
  pub word_chars : All (Passes (λ c. not (is_ws c))) word
  pub whole_word : StopsAt (λ c. not (is_ws c)) before
  pub counted : (z : Bytes) (k : ℕ) → trailing_from (t ++ z) (length t) k ≡ k + length word

module _ (u : Bytes) (x : ℕ) {t : Bytes} (e : t ≡ u ++ x ∷ []) where
  trailing_step :
      (z : Bytes) (k : ℕ)
      → trailing_from (t ++ z) (length t) k
        ≡ (if is_ws x then k else trailing_from (u ++ x ∷ z) (length u) (k + 1))
  unfolding trailing_from
  trailing_step z k =
      ap (λ v. trailing_from (v ++ z) (length v) k) e
      ∙ ap (λ n. trailing_from ((u ++ x ∷ []) ++ z) n k) one_more
      ∙ ap (λ b. trailing_from b (suc (length u)) k) (append-cons u x z)
      ∙ ap (λ c. if is_ws c then k else trailing_from (u ++ x ∷ z) (length u) (k + 1))
          (get_or-append u x 0 z refl)
    where
      one_more : length (u ++ x ∷ []) ≡ suc (length u)
      one_more = omega (arith, length-snoc u x)

  LastWord-stop : is_ws x ≡ true → LastWord t
  LastWord-stop f = record {
    before = t;
    word = [];
    parts = sym (append-nil t);
    word_chars = tt;
    whole_word = StopsAt.char u x e (rw f);
    counted = λ z k. trailing_step z k ∙ rw f (omega arith);
  }

  LastWord-more : is_ws x ≡ false → LastWord u → LastWord t
  LastWord-more f r = record {
    before = r.before;
    word = r.word ++ x ∷ [];
    parts = e ∙ ap (λ v. v ++ x ∷ []) r.parts ∙ append_assoc r.before r.word (x ∷ []);
    word_chars = All-append (Passes (λ c. not (is_ws c))) r.word (x ∷ []) r.word_chars (rw f, tt);
    whole_word = r.whole_word;
    counted = λ z k.
        trailing_step z k ∙ rw f (omega (arith, r.counted (x ∷ z) (k + 1), length-snoc r.word x));
  }

last_word : (n : ℕ) (t : Bytes) → length t ≡ n → LastWord t
unfolding trailing_from
last_word zero [] h = record {
  before = [];
  word = [];
  parts = refl;
  word_chars = tt;
  whole_word = StopsAt.nothing refl;
  counted = λ z k. omega arith;
}
last_word zero (c ∷ t) h = absurd (omega arith)
last_word (suc n) [] h = absurd (omega arith)
last_word (suc n) (c ∷ t) h =
    let (u, x, e, l) = unsnoc c t in
    let rest = last_word n u (omega (arith, l)) in
    elim (Bool-cases (is_ws x)) [
      | inl f ↦ LastWord-stop u x e f
      | inr f ↦ LastWord-more u x e f rest
    ]

-- What `copyTrailingWord` shows of the last word of the text.
pub record Copied (s : SecureString) (t : Bytes) (out_len : ℕ) : Type 0 where
  pub last : LastWord t
  pub length_of : trailing_word_length s ≡ length last.word
  pub shown : Bytes
  pub hidden : Bytes
  pub cut : last.word ≡ shown ++ hidden
  pub size : length shown ≡ min (length last.word) (out_len - 1)
  pub result : copy_trailing_word s (some out_len) ≡ some shown

copy_filled :
    (t : Bytes) (room out_len : ℕ) (w : LastWord t) (shown hidden : Bytes)
    → 0 < out_len
    → w.word ≡ shown ++ hidden
    → length shown ≡ min (length w.word) (out_len - 1)
    → copy_trailing_word (filled t room) (some out_len) ≡ some shown
unfolding copy_trailing_word
copy_filled t room out_len w shown hidden pos cut size =
    rw (nonzero, w.counted (0 ∷ zeros room) 0) (ap some all)
  where
    nonzero : (out_len == 0) ≡ false
    nonzero = ground arith

    chosen :
        (if ltb (0 + length w.word) (out_len - 1) then 0 + length w.word else out_len - 1)
        ≡ length shown
    chosen = ground (arith, size)

    start : length t - (0 + length w.word) ≡ length w.before
    start = omega (arith, ap (λ v. length v) w.parts, length-append w.before w.word)

    text : t ++ 0 ∷ zeros room ≡ w.before ++ (shown ++ (hidden ++ 0 ∷ zeros room))
    text =
        ap (λ v. v ++ 0 ∷ zeros room) (w.parts ∙ ap (λ v. w.before ++ v) cut)
        ∙ append_assoc w.before (shown ++ hidden) (0 ∷ zeros room)
        ∙ ap (λ v. w.before ++ v) (append_assoc shown hidden (0 ∷ zeros room))

    all :
        read
          (t ++ 0 ∷ zeros room)
          (length t - (0 + length w.word))
          (if ltb (0 + length w.word) (out_len - 1) then 0 + length w.word else out_len - 1)
        ≡ shown
    all =
        (λ i. read (text i) (start i) (chosen i))
        ∙ read-segment w.before shown (hidden ++ 0 ∷ zeros room) refl refl

-- `copyTrailingWord` shows the last word of the text, cut to the destination.
pub copy_trailing_word-Copied :
    {s : SecureString} (t : Bytes) (out_len : ℕ) → Holds s t → 0 < out_len → Copied s t out_len
unfolding trailing_word_length
copy_trailing_word-Copied {s} t out_len (room, e, h) pos = of_word (last_word (length t) t refl)
  where
    of_cut :
        (w : LastWord t) (shown hidden : Bytes)
        → w.word ≡ shown ++ hidden
        → length shown ≡ min (length w.word) (out_len - 1)
        → Copied s t out_len
    of_cut w shown hidden cut size = record {
      last = w;
      length_of =
          ap (λ (v : SecureString). trailing_word_length v) e
          ∙ w.counted (0 ∷ zeros room) 0
          ∙ zero-add _;
      shown = shown;
      hidden = hidden;
      cut = cut;
      size = size;
      result =
          ap (λ (v : SecureString). copy_trailing_word v (some out_len)) e
          ∙ copy_filled t room out_len w shown hidden pos cut size;
    }

    of_word : LastWord t → Copied s t out_len
    of_word w =
        let (shown, hidden, cut, size) =
          split_at (min (length w.word) (out_len - 1)) w.word (omega arith) in
        of_cut w shown hidden cut size
