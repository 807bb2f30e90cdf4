-- ===== src/Secure/Tests.antt =====
-- The theorems on `SecureString` at concrete texts.
use signeros.Base.{
  ◌+◌, ◌≡◌, refl, some, List, [], ◌∷◌, ◌++◌, Bytes, arith, ltb, codes, length, true, false,
  if◌then◌else◌, All, ◌↔◌,
}
use signeros.Base.Fields.{words, join}
use signeros.Secure.{
  SecureString, capacity, space, is_ws, append_bytes, backspace_word, word_count,
  normalise_whitespace, equals,
}
use signeros.Secure.Repr.{filled, Holds}
use signeros.Secure.Equals.{equals_iff, IsByte}
use signeros.Secure.Edit.{put_bytes, append_bytes-Holds}
use signeros.Secure.Backspace.{WordGone, backspace_word-Holds}
use signeros.Secure.Words.{word_count-words, Copied, copy_trailing_word-Copied}
use signeros.Secure.Normalise.{normalise_whitespace-Holds}
use signeros.Secure.Grid.{
  insert_at, set_slot_count, append_to_slot, backspace_in_slot, clear_slot, set_slot,
  first_empty_slot,
}
use signeros.Secure.Grid.Text.{Shows}
use signeros.Secure.Grid.Splice.{spliced, insert_at-Holds}
use signeros.Secure.Grid.Slots.{
  SlotSet, SlotTyped, set_slot-SlotSet, append_to_slot-SlotTyped, edits_outside,
}
use signeros.Secure.Grid.Count.{empties, set_slot_count-grow}
use signeros.Secure.Grid.Shrink.{set_slot_count-shrink}
use signeros.Secure.Grid.FirstEmpty.{find_empty, first_empty_slot-find_empty}

abbrev typed : Bytes
typed = codes " ab  cd"

abbrev typed_string : SecureString
typed_string = filled typed 312

typed-Holds : Holds typed_string typed
typed-Holds = (312, refl, refl)

typed-IsByte : All IsByte typed
typed-IsByte = (
  omega arith,
  (omega arith, (omega arith, (omega arith, (omega arith, (omega arith, (omega arith, tt)))))),
)

equals_iff_example : (equals typed_string typed_string ≡ true) ↔ (typed ≡ typed)
equals_iff_example =
    equals_iff typed_string typed_string typed typed typed-Holds typed-Holds typed-IsByte
      typed-IsByte

append_bytes-Holds_example :
    Holds (append_bytes typed_string (codes "xy")).0 (put_bytes typed (codes "xy"))
    × ((append_bytes typed_string (codes "xy")).1
        ≡ ltb (length typed + length (codes "xy")) capacity)
append_bytes-Holds_example =
    append_bytes-Holds {s = typed_string} typed (codes "xy") (omega arith) typed-Holds

backspace_word-Holds_example :
    (kept : Bytes) × WordGone typed kept × Holds (backspace_word typed_string) kept
backspace_word-Holds_example = backspace_word-Holds {s = typed_string} typed typed-Holds

word_count-words_example : word_count typed_string ≡ length (words is_ws typed)
word_count-words_example = word_count-words {s = typed_string} typed typed-Holds

copy_trailing_word-Copied_example : Copied typed_string typed 2
copy_trailing_word-Copied_example =
    copy_trailing_word-Copied {s = typed_string} typed 2 typed-Holds (omega arith)

normalise_whitespace-Holds_example :
    Holds (normalise_whitespace typed_string) (join space (words is_ws typed))
normalise_whitespace-Holds_example = normalise_whitespace-Holds {s = typed_string} typed typed-Holds

insert_at-Holds_example :
    Holds
      (insert_at typed_string (length (codes " ab")) (some (codes "xy"))).0
      (spliced (codes " ab") (codes "xy") (codes "  cd"))
    × ((insert_at typed_string (length (codes " ab")) (some (codes "xy"))).1
        ≡ ltb (length (codes " ab" ++ codes "  cd") + length (codes "xy")) capacity)
insert_at-Holds_example =
    insert_at-Holds {s = typed_string} (codes " ab") (codes "xy") (codes "  cd") (omega arith)
      typed-Holds

-- A grid of four cells, the second of them empty.
abbrev cells : List Bytes
cells = codes "ab" ∷ [] ∷ codes "cd" ∷ codes "e" ∷ []

abbrev grid : SecureString
grid = filled (join space cells) 311

grid-Shows : Shows grid cells
unfolding join
grid-Shows = record {
  held = (311, refl, refl);
  clean = (
    ((λ e. omega (arith, e)), ((λ e. omega (arith, e)), tt)),
    (
      tt,
      (
        ((λ e. omega (arith, e)), ((λ e. omega (arith, e)), tt)),
        (((λ e. omega (arith, e)), tt), tt),
      ),
    ),
  );
  nonempty = omega arith;
}

edits_outside_example :
    (clear_slot grid 4 ≡ grid)
    × (backspace_in_slot grid 4 ≡ grid)
    × (append_to_slot grid 4 b'x' ≡ (grid, false))
    × (set_slot grid 4 (some (codes "xy")) ≡ (grid, false))
edits_outside_example = edits_outside {s = grid} cells 4 b'x' (codes "xy") grid-Shows (omega arith)

set_slot_count-shrink_example :
    Shows (set_slot_count grid 2).0 (codes "ab" ∷ [] ∷ []) × ((set_slot_count grid 2).1 ≡ true)
set_slot_count-shrink_example =
    set_slot_count-shrink {s = grid} (codes "ab" ∷ []) [] (codes "cd") (codes "e" ∷ []) grid-Shows

first_empty_slot-find_empty_example : first_empty_slot grid ≡ find_empty cells
first_empty_slot-find_empty_example = first_empty_slot-find_empty {s = grid} cells grid-Shows

set_slot-SlotSet_example :
    SlotSet {s = grid}
      (codes "ab" ∷ [] ∷ [])
      (codes "cd")
      (codes "e" ∷ [])
      grid-Shows
      (codes "xyz")
      (set_slot grid 2 (some (codes "xyz")))
set_slot-SlotSet_example =
    set_slot-SlotSet {s = grid} (codes "ab" ∷ [] ∷ []) (codes "cd") (codes "e" ∷ []) grid-Shows
      (codes "xyz") (omega arith)

append_to_slot-SlotTyped_example :
    SlotTyped {s = grid}
      (codes "ab" ∷ [] ∷ [])
      (codes "cd")
      (codes "e" ∷ [])
      grid-Shows
      b'x'
      (append_to_slot grid 2 b'x')
append_to_slot-SlotTyped_example =
    append_to_slot-SlotTyped {s = grid} (codes "ab" ∷ [] ∷ []) (codes "cd") (codes "e" ∷ [])
      grid-Shows b'x'

set_slot_count-grow_example :
    Shows
      (set_slot_count grid 6).0
      (if ltb (length (join space cells) + 2) capacity then cells ++ empties 2 else cells)
    × ((set_slot_count grid 6).1 ≡ ltb (length (join space cells) + 2) capacity)
set_slot_count-grow_example =
    set_slot_count-grow {s = grid} cells 6 grid-Shows (omega arith) (omega arith)
