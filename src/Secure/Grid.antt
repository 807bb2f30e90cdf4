-- ===== src/Secure/Grid.antt =====
-- The grid view of `SecureString`: the text as fields with one space between two of them.
pub mod Text
pub mod Span
pub mod Splice
pub mod Slots
pub mod Count
pub mod Shrink
pub mod FirstEmpty
use signeros.Base.{
  ℕ, zero, suc, ◌+◌, ◌-◌, Bool, true, false, not, ◌&&◌, ◌||◌, Option, none, some, List, [], ◌∷◌,
  Bytes, ltb, leb, ◌==◌, if◌then◌else◌, length, get_or, set,
}
use signeros.Secure.{SecureString, capacity, space, add_size, secure_wipe, write, read, scan}

-- `for (i = len_; i-- > pos;) buf_[i + n] = buf_[i];` with `count` characters behind `pos`.
pub shift_up : Bytes → ℕ → ℕ → ℕ → Bytes
shift_up buf pos n zero = buf
shift_up buf pos n (suc k) = shift_up (set buf (pos + k + n) (get_or buf (pos + k) 0)) pos n k

pub insert_bytes : SecureString → ℕ → Bytes → SecureString × Bool
unfolding shift_up write
insert_bytes s pos cs =
    if ltb s.len pos
    then (s, false)
    else if length cs == 0
    then (s, true)
    else if ltb capacity (add_size (add_size s.len (length cs)) 1)
    then (s, false)
    else (
      record {
        buf =
            set (write (shift_up s.buf pos (length cs) (s.len - pos)) pos cs) (s.len + length cs) 0;
        len = s.len + length cs;
      },
      true,
    )

pub insert_at : SecureString → ℕ → Option Bytes → SecureString × Bool
unfolding insert_bytes
insert_at s pos none = (s, false)
insert_at s pos (some cs) = insert_bytes s pos cs

-- `for (i = pos; i + n < len_; ++i) buf_[i] = buf_[i + n];` with the rounds as a count.
pub shift_down : Bytes → ℕ → ℕ → ℕ → Bytes
shift_down buf i n zero = buf
shift_down buf i n (suc k) = shift_down (set buf i (get_or buf (i + n) 0)) (i + 1) n k

pub erase_at : SecureString → ℕ → ℕ → SecureString
unfolding shift_down secure_wipe
erase_at s pos n' =
    let n = if ltb (s.len - pos) n' then s.len - pos else n' in
    if leb s.len pos || n' == 0 then s else record {
      buf =
          set (secure_wipe (shift_down s.buf pos n (s.len - n - pos)) (s.len - n) n) (s.len - n) 0;
      len = s.len - n;
    }

pub slot_step : ℕ → ℕ → ℕ
slot_step n c = if c == space then n + 1 else n

pub slot_count : SecureString → ℕ
unfolding scan slot_step
slot_count s = scan slot_step s.buf 0 s.len 1

-- The loop of `slotSpan` over `i <= len_`, with the rounds that are left.
pub span_from : Bytes → ℕ → ℕ → ℕ → ℕ → ℕ → ℕ → Option (ℕ × ℕ)
span_from buf len index i zero slot begin = none
span_from buf len index i (suc n) slot begin =
    let inside = span_from buf len index (i + 1) n slot begin in
    let next = span_from buf len index (i + 1) n (slot + 1) (i + 1) in
    if not (i == len) && not (get_or buf i 0 == space)
    then inside
    else if slot == index
    then some (begin, i - begin)
    else next

pub slot_span : SecureString → ℕ → Option (ℕ × ℕ)
unfolding span_from
slot_span s index = span_from s.buf s.len index 0 (s.len + 1) 0 0

pub slot_length : SecureString → ℕ → ℕ
unfolding slot_span
slot_length s index = elim (slot_span s index) [ none ↦ 0 | some (start, len) ↦ len ]

-- `none` for a null or empty destination; else what stands there before the NUL.
pub copy_slot : SecureString → ℕ → Option ℕ → Option Bytes
unfolding slot_span read
copy_slot s index none = none
copy_slot s index (some out_len) = if out_len == 0 then none else elim (slot_span s index) [
  | none ↦ some []
  | some (start, len) ↦ some (read s.buf start (if ltb len (out_len - 1) then len else out_len - 1))
]

-- The part of `setSlotCount` that drops slots.
pub keep_slots : SecureString → ℕ → SecureString × Bool
keep_slots s count = elim (slot_span s (count - 1)) [
  | none ↦ (s, false)
  | some (start, len) ↦ (
    record {
      buf =
          set
            (if ltb (start + len) s.len
              then secure_wipe s.buf (start + len) (s.len - (start + len))
              else s.buf)
            (start + len) 0;
      len = start + len;
    },
    true,
  )
]

-- `for (i = 0; i < n; ++i) buf_[at + i] = ' ';`
pub write_spaces : Bytes → ℕ → ℕ → Bytes
write_spaces buf at zero = buf
write_spaces buf at (suc n) = write_spaces (set buf at space) (at + 1) n

pub set_slot_count : SecureString → ℕ → SecureString × Bool
set_slot_count s count =
    let cur = slot_count s in
    if count == 0
    then (s, false)
    else if cur == count
    then (s, true)
    else if ltb cur count
    then (if ltb capacity (add_size (add_size s.len (count - cur)) 1) then (s, false) else (
      record {
        buf = set (write_spaces s.buf s.len (count - cur)) (s.len + (count - cur)) 0;
        len = s.len + (count - cur);
      },
      true,
    ))
    else keep_slots s count

pub append_to_slot : SecureString → ℕ → ℕ → SecureString × Bool
append_to_slot s index c = if c == space then (s, false) else elim (slot_span s index) [
  | none ↦ (s, false)
  | some (start, len) ↦ insert_at s (start + len) (some (c ∷ []))
]

pub backspace_in_slot : SecureString → ℕ → SecureString
backspace_in_slot s index = elim (slot_span s index) [
  | none ↦ s
  | some (start, len) ↦ if len == 0 then s else erase_at s (start + len - 1) 1
]

pub clear_slot : SecureString → ℕ → SecureString
clear_slot s index = elim (slot_span s index) [
  | none ↦ s
  | some (start, len) ↦ if len == 0 then s else erase_at s start len
]

pub has_space : Bytes → Bool
has_space [] = false
has_space (c ∷ cs) = c == space || has_space cs

pub set_slot : SecureString → ℕ → Option Bytes → SecureString × Bool
set_slot s index none = (s, false)
set_slot s index (some cs) = if has_space cs then (s, false) else elim (slot_span s index) [
  | none ↦ (s, false)
  | some (start, len) ↦ insert_at (erase_at s start len) start (some cs)
]

-- The loop of `firstEmptySlot` from slot `i` on, with the slots that are left.
pub first_empty_from : SecureString → ℕ → ℕ → ℕ
first_empty_from s i zero = i
first_empty_from s i (suc n) =
    let rest = first_empty_from s (i + 1) n in if slot_length s i == 0 then i else rest

pub first_empty_slot : SecureString → ℕ
first_empty_slot s = first_empty_from s 0 (slot_count s)
