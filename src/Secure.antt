-- ===== src/Secure.antt =====
-- `SecureString` of src/btc_signer_gui/src/core/secure_memory.h and .cpp: a NUL-terminated secret
-- text in 320 inline bytes. A pointer argument that may be null is an `Option`; `mlock` and the
-- destructor are not modelled. The children prove what the operations do to the text that the
-- buffer holds, and that nothing but zeros stands behind it.
pub mod Repr
pub mod Edit
pub mod Backspace
pub mod Words
pub mod Normalise
pub mod Grid
pub mod Equals
pub mod Cleared
mod Tests
use Prim.Native.Nat.{bit_or, bit_xor}
use signeros.Base.{
  ℕ, zero, suc, ◌+◌, ◌-◌, ◌%◌, ◌^◌, Bool, true, false, not, ◌&&◌, ◌||◌, Option, none, some, List,
  [], ◌∷◌, Bytes, ltb, leb, ◌==◌, if◌then◌else◌, length, get_or, set,
}

pub record SecureString : Type 0 where
  pub buf : Bytes
  pub len : ℕ

-- `kCapacity`
abbrev pub capacity : ℕ
capacity = 320

abbrev pub space : ℕ
space = 32

-- `size_t` addition
abbrev pub add_size : ℕ → ℕ → ℕ
add_size a b = (a + b) % 2 ^ 64

-- The store loop of `secureWipe`: `n` zero bytes from `p` on.
unfoldable pub secure_wipe : Bytes → ℕ → ℕ → Bytes
secure_wipe buf p zero = buf
secure_wipe buf p (suc n) = secure_wipe (set buf p 0) (p + 1) n

-- `for (i = 0; i < n; ++i) buf_[at + i] = s[i];`
pub write : Bytes → ℕ → Bytes → Bytes
write buf at [] = buf
write buf at (c ∷ cs) = write (set buf at c) (at + 1) cs

-- A read of `n` bytes from `i` on.
pub read : Bytes → ℕ → ℕ → Bytes
read buf i zero = []
read buf i (suc n) = get_or buf i 0 ∷ read buf (i + 1) n

pub full : SecureString → Bool
full s = leb capacity (s.len + 1)

unfoldable pub append_char : SecureString → ℕ → SecureString × Bool
append_char s c =
    if leb capacity (s.len + 1)
    then (s, false)
    else (record { buf = set (set s.buf s.len c) (s.len + 1) 0; len = s.len + 1 }, true)

pub append_bytes : SecureString → Bytes → SecureString × Bool
unfolding write
append_bytes s cs = if ltb capacity (add_size (add_size s.len (length cs)) 1) then (s, false) else (
  record { buf = set (write s.buf s.len cs) (s.len + length cs) 0; len = s.len + length cs },
  true,
)

pub append : SecureString → Option Bytes → SecureString × Bool
unfolding append_bytes
append s none = (s, false)
append s (some cs) = append_bytes s cs

unfoldable pub clear : SecureString → SecureString
unfolding secure_wipe
clear s = record { buf = secure_wipe s.buf 0 capacity; len = 0 }

pub assign : SecureString → Option Bytes → SecureString × Bool
unfolding append clear
assign s cs = append (clear s) cs

pub backspace : SecureString → SecureString
backspace s = if s.len == 0 then s else record { buf = set s.buf (s.len - 1) 0; len = s.len - 1 }

-- The separators of `backspaceWord`.
pub is_blank : ℕ → Bool
is_blank c = c == space || c == 9

-- `while (len_ > 0 && p(buf_[len_ - 1])) buf_[--len_] = '\0';`
pub erase_back : (ℕ → Bool) → Bytes → ℕ → SecureString
erase_back p buf zero = record { buf = buf; len = 0 }
erase_back p buf (suc n) =
    let rest = erase_back p (set buf n 0) n in
    if p (get_or buf n 0) then rest else record { buf = buf; len = suc n }

pub backspace_word : SecureString → SecureString
unfolding erase_back is_blank
backspace_word s =
    let s' = erase_back is_blank s.buf s.len in erase_back (λ c. not (is_blank c)) s'.buf s'.len

-- The separators of `wordCount`, `trailingWordLength` and `normaliseWhitespace`.
pub is_ws : ℕ → Bool
is_ws c = c == space || c == 9 || c == 10 || c == 13

-- `for (i = 0; i < n; ++i) state = step(state, buf_[i]);`
pub scan {ℓ} : {S : Type ℓ} → (S → ℕ → S) → Bytes → ℕ → ℕ → S → S
scan step buf i zero st = st
scan step buf i (suc n) st = scan step buf (i + 1) n (step st (get_or buf i 0))

-- One round of `wordCount`: the count, and `inWord`.
pub count_step : ℕ × Bool → ℕ → ℕ × Bool
unfolding is_ws
count_step (count, in_word) c =
    if not (is_ws c) && not in_word
    then (count + 1, true)
    else if is_ws c
    then (count, false)
    else (count, in_word)

pub word_count : SecureString → ℕ
unfolding scan count_step
word_count s = (scan count_step s.buf 0 s.len (0, false)).0

-- The loop of `trailingWordLength`, from `i` down.
pub trailing_from : Bytes → ℕ → ℕ → ℕ
unfolding is_ws
trailing_from buf zero n = n
trailing_from buf (suc i) n =
    let rest = trailing_from buf i (n + 1) in if is_ws (get_or buf i 0) then n else rest

pub trailing_word_length : SecureString → ℕ
unfolding trailing_from
trailing_word_length s = trailing_from s.buf s.len 0

-- `none` for a null or empty destination, which is left alone; else what stands there before the
-- NUL. The source returns the length of it, or 0.
pub copy_trailing_word : SecureString → Option ℕ → Option Bytes
unfolding trailing_word_length read
copy_trailing_word s none = none
copy_trailing_word s (some out_len) =
    let word_len = trailing_word_length s in
    let n = if ltb word_len (out_len - 1) then word_len else out_len - 1 in
    if out_len == 0 then none else some (read s.buf (s.len - word_len) n)

-- One round of `normaliseWhitespace` at the character `c`: the buffer, `w` and `pendingSpace`.
pub normalise_step : Bytes → ℕ → Bool → ℕ → Bytes × ℕ × Bool
unfolding is_ws
normalise_step buf w pending c =
    if is_ws c
    then (buf, w, if ltb 0 w then true else pending)
    else if pending
    then (set (set buf w space) (w + 1) c, w + 2, false)
    else (set buf w c, w + 1, false)

pub normalise_loop : Bytes → ℕ → ℕ → ℕ → Bool → Bytes × ℕ
unfolding normalise_step
normalise_loop buf r zero w pending = (buf, w)
normalise_loop buf r (suc n) w pending =
    let (buf', w', pending') = normalise_step buf w pending (get_or buf r 0) in
    normalise_loop buf' (r + 1) n w' pending'

pub normalise_whitespace : SecureString → SecureString
unfolding normalise_loop secure_wipe
normalise_whitespace s =
    let (b, w) = normalise_loop s.buf 0 s.len 0 false in
    let wiped = if ltb w s.len then secure_wipe b w (s.len - w) else b in
    record { buf = set wiped w 0; len = w }

-- The loop of `equals`: the bits in which the first `n` bytes differ.
unfoldable pub diff_from : Bytes → Bytes → ℕ → ℕ → ℕ → ℕ
diff_from a b i zero diff = diff
diff_from a b i (suc n) diff =
    diff_from a b (i + 1) n (bit_or diff (bit_xor (get_or a i 0) (get_or b i 0) % 256))

unfoldable pub equals : SecureString → SecureString → Bool
unfolding diff_from
equals s other = if s.len == other.len then diff_from s.buf other.buf 0 s.len 0 == 0 else false
