-- ===== src/Touchpad.antt =====
-- The gestures of ui/touchpad.cpp: the events of the kernel's input layer, the contacts on the pad, and
-- what is delivered of them. The calls of `movePointer`, `scroll` and `deliver` are the actions, the
-- newest first. Differences of positions fit in an `int`; real numbers are a parameter.
pub mod WellFormed
mod Tests
use signeros.Base.{
  ℕ, zero, suc, ◌+◌, ◌-◌, Bool, true, false, not, ◌&&◌, ◌||◌, Option, none, some, List, [], ◌∷◌,
  ◌==◌, leb, if◌then◌else◌, length, get_elem?, set, replicate,
}

-- The values of the kernel and the positions on the pad.
pub data ℤ : Type 0 where
  pos negsuc : ℕ → ℤ

abbrev pub sub : ℕ → ℕ → ℤ
sub a b = if leb b a then pos (a - b) else negsuc (b - a - 1)

abbrev pub minus : ℤ → ℤ → ℤ
minus (pos a) (pos b) = sub a b
minus (pos a) (negsuc b) = pos (a + b + 1)
minus (negsuc a) (pos b) = negsuc (a + b)
minus (negsuc a) (negsuc b) = sub b a

abbrev pub is_down : ℤ → Bool
is_down (pos n) = true
is_down (negsuc n) = false

-- `qreal`
pub record Real : Type 1 where
  pub R : Type 0
  pub of_int : ℤ → R
  pub of_ratio : ℕ → ℕ → R
  pub plus : R → R → R
  pub times : R → R → R
  pub over : R → R → R
  pub fabs : R → R
  pub sqrt : R → R
  pub exceeds : R → R → Bool

pub record Contact : Type 0 where
  pub tracking_id : ℤ
  pub x : ℤ
  pub y : ℤ

pub data Button : Type 0 where
  left_button right_button middle_button : Button

pub record Buttons : Type 0 where
  pub left : Bool
  pub right : Bool
  pub middle : Bool

abbrev pub flag : Button → Buttons → Bool
flag left_button b = b.left
flag right_button b = b.right
flag middle_button b = b.middle

abbrev pub set_flag : Button → Bool → Buttons → Buttons
set_flag left_button v b = record b { left = v }
set_flag right_button v b = record b { right = v }
set_flag middle_button v b = record b { middle = v }

pub data Action : Type 0 where
  pressed released : Button → Action
  moved scrolled : ℤ → ℤ → Action

pub data Event : Type 0 where
  mt_slot mt_tracking_id mt_position_x mt_position_y abs_x abs_y : ℤ → Event
  btn_touch tool_finger_bit tool_double_bit tool_triple_bit btn_left btn_right btn_middle :
      Bool → Event
  syn_report : ℕ → Event
  other_event : Event

pub record Touchpad : Type 0 where
  pub span_x : ℤ
  pub span_y : ℤ
  pub multitouch : Bool
  pub contacts : List Contact
  pub current_slot : ℕ
  pub single_x : ℤ
  pub single_y : ℤ
  pub single_touch : Bool
  pub tool_finger : Bool
  pub tool_double : Bool
  pub tool_triple : Bool
  pub prev_fingers : ℕ
  pub prev_x : ℤ
  pub prev_y : ℤ
  pub have_prev : Bool
  pub tap_started : Option ℕ
  pub tap_candidate : Bool
  pub tap_start_x : ℤ
  pub tap_start_y : ℤ
  pub physical_button_down : Bool
  pub buttons : Buttons
  pub actions : List Action

abbrev pub tap_ms : ℕ
tap_ms = 180

abbrev pub no_contact : Contact
no_contact = record { tracking_id = negsuc 0; x = pos 0; y = pos 0 }

abbrev pub no_buttons : Buttons
no_buttons = record { left = false; right = false; middle = false }

-- The slots that `init` makes room for, from the highest slot that the pad states.
unfoldable pub slot_count : Bool → Option ℤ → ℕ
slot_count true (some (pos n)) = if leb 16 n then 16 else n + 1
slot_count true (some (negsuc n)) = 1
slot_count true none = 1
slot_count false maximum = 1

-- The pad behind `init`.
unfoldable pub init : ℤ → ℤ → Bool → Option ℤ → Touchpad
init span_x span_y multitouch maximum = record {
  span_x = span_x;
  span_y = span_y;
  multitouch = multitouch;
  contacts = replicate (slot_count multitouch maximum) no_contact;
  current_slot = 0;
  single_x = pos 0;
  single_y = pos 0;
  single_touch = false;
  tool_finger = false;
  tool_double = false;
  tool_triple = false;
  prev_fingers = 0;
  prev_x = pos 0;
  prev_y = pos 0;
  have_prev = false;
  tap_started = none;
  tap_candidate = false;
  tap_start_x = pos 0;
  tap_start_y = pos 0;
  physical_button_down = false;
  buttons = no_buttons;
  actions = [];
}

abbrev pub same : Bool → Bool → Bool
same true b = b
same false b = not b

abbrev pub delivered : Button → Bool → Action
delivered b true = pressed b
delivered b false = released b

-- `setButton`
unfoldable pub set_button : Button → Bool → Touchpad → Touchpad
set_button b v p =
    if same v (flag b p.buttons)
    then p
    else record p { buttons = set_flag b v p.buttons; actions = delivered b v ∷ p.actions }

-- `contacts_[currentSlot_]`: a slot outside of the array is no slot.
abbrev pub with_contact : (Contact → Contact) → List Contact → ℕ → List Contact
with_contact f [] i = []
with_contact f (c ∷ cs) zero = f c ∷ cs
with_contact f (c ∷ cs) (suc i) = c ∷ with_contact f cs i

unfoldable pub slot_of : ℤ → ℕ → ℕ
slot_of (pos n) size = if leb size n then 0 else n
slot_of (negsuc n) size = 0

unfoldable pub count_down : List Contact → ℕ
count_down [] = 0
count_down (c ∷ cs) = let rest = count_down cs in if is_down c.tracking_id then rest + 1 else rest

-- `activeContacts`
unfoldable pub active_contacts : Touchpad → ℕ
active_contacts p =
    if p.multitouch
    then count_down p.contacts
    else if p.tool_triple
    then 3
    else if p.tool_double
    then 2
    else if p.tool_finger || p.single_touch
    then 1
    else 0

unfoldable pub first_down : List Contact → Option (ℤ × ℤ)
first_down [] = none
first_down (c ∷ cs) =
    let rest = first_down cs in if is_down c.tracking_id then some (c.x, c.y) else rest

-- `primaryPosition`
unfoldable pub primary_position : Touchpad → Option (ℤ × ℤ)
primary_position p =
    if p.multitouch
    then first_down p.contacts
    else if p.tool_finger || p.tool_double || p.tool_triple || p.single_touch
    then some (p.single_x, p.single_y)
    else none

-- A finger comes down on an empty pad.
unfoldable pub begin_tap : ℕ → ℤ → ℤ → Touchpad → Touchpad
begin_tap now x y p = record p {
  tap_candidate = not p.physical_button_down;
  tap_start_x = x;
  tap_start_y = y;
  tap_started = some now;
}

abbrev pub in_time : ℕ → Option ℕ → Bool
in_time now none = false
in_time now (some started) = leb (now - started) tap_ms

-- The last finger is lifted.
unfoldable pub end_tap : ℕ → Touchpad → Touchpad
end_tap now p =
    let clicked =
      if p.tap_candidate
        && p.prev_fingers == 1
        && not p.physical_button_down
        && in_time now p.tap_started
      then set_button left_button false (set_button left_button true p)
      else p in
    record clicked { tap_candidate = false }

unfoldable pub lift_or_add : ℕ → ℕ → Touchpad → Touchpad
lift_or_add now fingers p =
    if fingers == 0 then end_tap now p else record p { tap_candidate = false }

unfoldable pub new_count : ℕ → ℕ → Option (ℤ × ℤ) → Touchpad → Touchpad
new_count now fingers none p = lift_or_add now fingers p
new_count now fingers (some (x, y)) p =
    if p.prev_fingers == 0 && fingers == 1 then begin_tap now x y p else lift_or_add now fingers p

abbrev pub any_button : Buttons → Bool
any_button b = b.left || b.right || b.middle

unfoldable pub gesture : ℕ → ℤ → ℤ → Touchpad → Touchpad
gesture fingers dx dy p =
    if fingers == 1 || (fingers == 2 && any_button p.buttons)
    then record p { actions = moved dx dy ∷ p.actions }
    else if fingers == 2
    then record p { actions = scrolled dx dy ∷ p.actions }
    else p

module _ (r : Real) where
  unfoldable pub jumped : ℤ → ℤ → Touchpad → Bool
  jumped dx dy p =
      r.exceeds (r.fabs (r.over (r.of_int dx) (r.of_int p.span_x))) (r.of_ratio 35 100)
      || r.exceeds (r.fabs (r.over (r.of_int dy) (r.of_int p.span_y))) (r.of_ratio 35 100)

  unfoldable pub slipped : ℤ → ℤ → Touchpad → Bool
  slipped x y p =
      let tx = r.over (r.of_int (minus x p.tap_start_x)) (r.of_int p.span_x) in
      let ty = r.over (r.of_int (minus y p.tap_start_y)) (r.of_int p.span_y) in
      r.exceeds (r.sqrt (r.plus (r.times tx tx) (r.times ty ty))) (r.of_ratio 3 100)

  unfoldable pub slip : ℤ → ℤ → Touchpad → Touchpad
  slip x y p = if p.tap_candidate && slipped x y p then record p { tap_candidate = false } else p

  unfoldable pub travel : ℕ → ℤ → ℤ → Touchpad → Touchpad
  travel fingers x y p =
      let dx = minus x p.prev_x in
      let dy = minus y p.prev_y in
      if jumped dx dy p
      then record p { prev_x = x; prev_y = y }
      else record (slip x y (gesture fingers dx dy p)) { prev_x = x; prev_y = y; have_prev = true }

  -- The part of `frameComplete` behind the count of the fingers.
  unfoldable pub follow : ℕ → Option (ℤ × ℤ) → Touchpad → Touchpad
  follow fingers none p = record p { have_prev = false }
  follow fingers (some (x, y)) p =
      if p.have_prev
      then travel fingers x y p
      else record p { prev_x = x; prev_y = y; have_prev = true }

  -- `frameComplete` at a moment of the tap's clock
  unfoldable pub frame_complete : ℕ → Touchpad → Touchpad
  frame_complete now p =
      let fingers = active_contacts p in
      let position = primary_position p in
      let counted =
        if fingers == p.prev_fingers
        then p
        else new_count now fingers position (record p { have_prev = false }) in
      follow fingers position (record counted { prev_fingers = fingers })

  -- `handleEvent`
  unfoldable pub handle_event : Event → Touchpad → Touchpad
  handle_event (mt_slot v) p = record p { current_slot = slot_of v (length p.contacts) }
  handle_event (mt_tracking_id v) p = record p {
    contacts = with_contact (λ c. record c { tracking_id = v }) p.contacts p.current_slot;
  }
  handle_event (mt_position_x v) p = record p {
    contacts = with_contact (λ c. record c { x = v }) p.contacts p.current_slot;
  }
  handle_event (mt_position_y v) p = record p {
    contacts = with_contact (λ c. record c { y = v }) p.contacts p.current_slot;
  }
  handle_event (abs_x v) p = record p { single_x = v }
  handle_event (abs_y v) p = record p { single_y = v }
  handle_event (btn_touch v) p = record p { single_touch = v }
  handle_event (tool_finger_bit v) p = record p { tool_finger = v }
  handle_event (tool_double_bit v) p = record p { tool_double = v }
  handle_event (tool_triple_bit v) p = record p { tool_triple = v }
  handle_event (btn_left v) p =
      set_button left_button v (record p {
        physical_button_down = v;
        tap_candidate = if v then false else p.tap_candidate;
      })
  handle_event (btn_right v) p = set_button right_button v p
  handle_event (btn_middle v) p = set_button middle_button v p
  handle_event (syn_report now) p = frame_complete now p
  handle_event other_event p = p

  -- The events of `readEvents`, in their order.
  unfoldable pub handle_events : List Event → Touchpad → Touchpad
  handle_events [] p = p
  handle_events (e ∷ es) p = handle_events es (handle_event e p)
