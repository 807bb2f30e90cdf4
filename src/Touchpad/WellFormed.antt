-- ===== src/Touchpad/WellFormed.antt =====
-- What holds of the touchpad whatever the kernel reports.
use signeros.Base.{
  ℕ, zero, suc, ◌<◌, ◌≡◌, inl, inr, refl, ap, ◌∙◌, Bool, true, false, not, Option, none, some, List,
  [], ◌∷◌, arith, ◌==◌, ◌&&◌, ◌||◌, if◌then◌else◌, length, length-replicate, Bool-cases,
}
use signeros.Touchpad.{
  ℤ, pos, negsuc, Real, Contact, Button, Buttons, left_button, right_button, middle_button, flag,
  set_flag, Action, pressed, released, moved, scrolled, Event, mt_slot, mt_tracking_id,
  mt_position_x, mt_position_y, abs_x, abs_y, btn_touch, tool_finger_bit, tool_double_bit,
  tool_triple_bit, btn_left, btn_right, btn_middle, syn_report, other_event, Touchpad, no_buttons,
  no_contact, slot_count, init, same, delivered, set_button, with_contact, slot_of, begin_tap,
  end_tap, lift_or_add, new_count, any_button, gesture, jumped, slip, travel, follow,
  frame_complete, handle_event, handle_events, active_contacts, primary_position, minus,
}

-- The buttons that somebody sees who follows the actions.
unfoldable pub replay : List Action → Buttons
replay [] = no_buttons
replay (pressed b ∷ as') = set_flag b true (replay as')
replay (released b ∷ as') = set_flag b false (replay as')
replay (moved x y ∷ as') = replay as'
replay (scrolled x y ∷ as') = replay as'

-- A button is pressed only where it is up, and released only where it is down.
unfoldable pub Alternates : List Action → Type 0
Alternates [] = Unit
Alternates (pressed b ∷ as') = (flag b (replay as') ≡ false) × Alternates as'
Alternates (released b ∷ as') = (flag b (replay as') ≡ true) × Alternates as'
Alternates (moved x y ∷ as') = Alternates as'
Alternates (scrolled x y ∷ as') = Alternates as'

pub record Fine (slot size : ℕ) (physical candidate : Bool) (b : Buttons) (as' : List Action)
    : Type 0 where
  pub in_range : slot < size
  pub quiet : physical ≡ true → candidate ≡ false
  pub shown : replay as' ≡ b
  pub alternates : Alternates as'

abbrev FineOf : Touchpad → Type 0
FineOf p =
    Fine p.current_slot (length p.contacts) p.physical_button_down p.tap_candidate p.buttons
      p.actions

unfoldable pub WellFormed : Touchpad → Type 0
WellFormed p = FineOf p

read : (p : Touchpad) → WellFormed p → FineOf p
unfolding WellFormed
read p h = h

seen : (p : Touchpad) → FineOf p → WellFormed p
unfolding WellFormed
seen p h = h

if-WellFormed :
    (b : Bool) (p q : Touchpad) → WellFormed p → WellFormed q → WellFormed (if b then p else q)
if-WellFormed true p q h k = h
if-WellFormed false p q h k = k

uncandidate :
    {slot size : ℕ} {physical candidate : Bool} {b : Buttons} {as' : List Action}
    → Fine slot size physical candidate b as'
    → Fine slot size physical false b as'
uncandidate h = record {
  in_range = h.in_range;
  quiet = λ e. refl;
  shown = h.shown;
  alternates = h.alternates;
}

no_candidate : (p : Touchpad) → WellFormed p → WellFormed (record p { tap_candidate = false })
no_candidate p h = seen _ (uncandidate (read p h))

delivered-Fine :
    {slot size : ℕ} {physical candidate : Bool} {bs : Buttons} {as' : List Action} (b : Button)
    (v : Bool)
    → same v (flag b bs) ≡ false
    → Fine slot size physical candidate bs as'
    → Fine slot size physical candidate (set_flag b v bs) (delivered b v ∷ as')
unfolding replay Alternates
delivered-Fine b true e h = record {
  in_range = h.in_range;
  quiet = h.quiet;
  shown = ap (set_flag b true) h.shown;
  alternates = (ap (flag b) h.shown ∙ e, h.alternates);
}
delivered-Fine b false e h = record {
  in_range = h.in_range;
  quiet = h.quiet;
  shown = ap (set_flag b false) h.shown;
  alternates = (ap (flag b) h.shown ∙ up e, h.alternates);
}
  where
    up : {c : Bool} → not c ≡ false → c ≡ true
    up k = ground (arith, k)

set_button-WellFormed :
    (b : Button) (v : Bool) (p : Touchpad) → WellFormed p → WellFormed (set_button b v p)
unfolding set_button
set_button-WellFormed b v p h = elim (Bool-cases (same v (flag b p.buttons))) [
  | inl e ↦ rw (e, set_button) h
  | inr e ↦ rw (e, set_button) (seen _ (delivered-Fine b v e (read p h)))
]

end_tap-WellFormed : (now : ℕ) (p : Touchpad) → WellFormed p → WellFormed (end_tap now p)
unfolding end_tap
end_tap-WellFormed now p h = no_candidate _ (
    if-WellFormed _ _ p
      (set_button-WellFormed left_button false _ (set_button-WellFormed left_button true p h)) h)

lift_or_add-WellFormed :
    (now fingers : ℕ) (p : Touchpad) → WellFormed p → WellFormed (lift_or_add now fingers p)
unfolding lift_or_add
lift_or_add-WellFormed now fingers p h =
    if-WellFormed _ _ _ (end_tap-WellFormed now p h) (no_candidate p h)

begin_tap-WellFormed :
    (now : ℕ) (x y : ℤ) (p : Touchpad) → WellFormed p → WellFormed (begin_tap now x y p)
unfolding begin_tap
begin_tap-WellFormed now x y p h = seen _ (record {
  in_range = (read p h).in_range;
  quiet = λ e. ap not e;
  shown = (read p h).shown;
  alternates = (read p h).alternates;
})

new_count-WellFormed :
    (now fingers : ℕ) (o : Option (ℤ × ℤ)) (p : Touchpad)
    → WellFormed p
    → WellFormed (new_count now fingers o p)
unfolding new_count
new_count-WellFormed now fingers none p h = lift_or_add-WellFormed now fingers p h
new_count-WellFormed now fingers (some (x, y)) p h =
    if-WellFormed _ _ _ (begin_tap-WellFormed now x y p h) (lift_or_add-WellFormed now fingers p h)

moved-Fine :
    {slot size : ℕ} {physical candidate : Bool} {bs : Buttons} {as' : List Action} (dx dy : ℤ)
    → Fine slot size physical candidate bs as'
    → Fine slot size physical candidate bs (moved dx dy ∷ as')
unfolding replay Alternates
moved-Fine dx dy h = record {
  in_range = h.in_range;
  quiet = h.quiet;
  shown = h.shown;
  alternates = h.alternates;
}

scrolled-Fine :
    {slot size : ℕ} {physical candidate : Bool} {bs : Buttons} {as' : List Action} (dx dy : ℤ)
    → Fine slot size physical candidate bs as'
    → Fine slot size physical candidate bs (scrolled dx dy ∷ as')
unfolding replay Alternates
scrolled-Fine dx dy h = record {
  in_range = h.in_range;
  quiet = h.quiet;
  shown = h.shown;
  alternates = h.alternates;
}

gesture-WellFormed :
    (fingers : ℕ) (dx dy : ℤ) (p : Touchpad) → WellFormed p → WellFormed (gesture fingers dx dy p)
unfolding gesture
gesture-WellFormed fingers dx dy p h =
    if-WellFormed (fingers == 1 || (fingers == 2 && any_button p.buttons))
      (record p { actions = moved dx dy ∷ p.actions })
      (if fingers == 2 then record p { actions = scrolled dx dy ∷ p.actions } else p)
      (seen _ (moved-Fine dx dy (read p h)))
      (if-WellFormed (fingers == 2) (record p { actions = scrolled dx dy ∷ p.actions }) p
        (seen _ (scrolled-Fine dx dy (read p h))) h)

slot_of-in_range : (v : ℤ) (n : ℕ) → 0 < n → slot_of v n < n
unfolding slot_of
slot_of-in_range (pos k) n h = ground (arith, h)
slot_of-in_range (negsuc k) n h = h

length-with_contact :
    (f : Contact → Contact) (cs : List Contact) (i : ℕ) → length (with_contact f cs i) ≡ length cs
length-with_contact f [] i = refl
length-with_contact f (c ∷ cs) zero = refl
length-with_contact f (c ∷ cs) (suc i) = ap suc (length-with_contact f cs i)

contact-WellFormed :
    (f : Contact → Contact) (p : Touchpad)
    → WellFormed p
    → WellFormed (record p { contacts = with_contact f p.contacts p.current_slot })
contact-WellFormed f p h = seen _ (record {
  in_range = omega (arith, (read p h).in_range, length-with_contact f p.contacts p.current_slot);
  quiet = (read p h).quiet;
  shown = (read p h).shown;
  alternates = (read p h).alternates;
})

slot-WellFormed :
    (v : ℤ) (p : Touchpad)
    → WellFormed p
    → WellFormed (record p { current_slot = slot_of v (length p.contacts) })
slot-WellFormed v p h =
    let f = read p h in
    let some_slot : 0 < length p.contacts = omega (arith, f.in_range) in
    seen _ (record {
      in_range = slot_of-in_range v (length p.contacts) some_slot;
      quiet = f.quiet;
      shown = f.shown;
      alternates = f.alternates;
    })

left-WellFormed :
    (v : Bool) (p : Touchpad)
    → WellFormed p
    → WellFormed (record p {
      physical_button_down = v;
      tap_candidate = if v then false else p.tap_candidate;
    })
left-WellFormed true p h = seen _ (record {
  in_range = (read p h).in_range;
  quiet = λ e. refl;
  shown = (read p h).shown;
  alternates = (read p h).alternates;
})
left-WellFormed false p h = seen _ (record {
  in_range = (read p h).in_range;
  quiet = λ e. absurd cc;
  shown = (read p h).shown;
  alternates = (read p h).alternates;
})

slot_count-some : (multitouch : Bool) (maximum : Option ℤ) → 0 < slot_count multitouch maximum
unfolding slot_count
slot_count-some true (some (pos n)) = ground arith
slot_count-some true (some (negsuc n)) = omega arith
slot_count-some true none = omega arith
slot_count-some false maximum = omega arith

init-WellFormed :
    (span_x span_y : ℤ) (multitouch : Bool) (maximum : Option ℤ)
    → WellFormed (init span_x span_y multitouch maximum)
unfolding init replay Alternates
init-WellFormed span_x span_y multitouch maximum = seen _ (record {
  in_range = omega (
    arith,
    slot_count-some multitouch maximum,
    length-replicate (slot_count multitouch maximum) no_contact,
  );
  quiet = λ e. refl;
  shown = refl;
  alternates = tt;
})

module _ (r : Real) where
  slip-WellFormed : (x y : ℤ) (p : Touchpad) → WellFormed p → WellFormed (slip r x y p)
  unfolding slip
  slip-WellFormed x y p h = if-WellFormed _ _ p (no_candidate p h) h

  travel-WellFormed :
      (fingers : ℕ) (x y : ℤ) (p : Touchpad) → WellFormed p → WellFormed (travel r fingers x y p)
  unfolding travel
  travel-WellFormed fingers x y p h =
      let dx = minus x p.prev_x in
      let dy = minus y p.prev_y in
      let moved_on = slip-WellFormed x y _ (gesture-WellFormed fingers dx dy p h) in
      if-WellFormed (jumped r dx dy p) (record p { prev_x = x; prev_y = y })
        (record (slip r x y (gesture fingers dx dy p)) { prev_x = x; prev_y = y; have_prev = true })
        (seen _ (read p h)) (seen _ (read (slip r x y (gesture fingers dx dy p)) moved_on))

  follow-WellFormed :
      (fingers : ℕ) (o : Option (ℤ × ℤ)) (p : Touchpad)
      → WellFormed p
      → WellFormed (follow r fingers o p)
  unfolding follow
  follow-WellFormed fingers none p h = seen _ (read p h)
  follow-WellFormed fingers (some (x, y)) p h =
      if-WellFormed p.have_prev (travel r fingers x y p)
        (record p { prev_x = x; prev_y = y; have_prev = true }) (travel-WellFormed fingers x y p h)
        (seen _ (read p h))

  frame_complete-WellFormed :
      (now : ℕ) (p : Touchpad) → WellFormed p → WellFormed (frame_complete r now p)
  unfolding frame_complete
  frame_complete-WellFormed now p h =
      let fingers = active_contacts p in
      let unmoved = record p { have_prev = false } in
      let counted =
        if-WellFormed (fingers == p.prev_fingers) p
          (new_count now fingers (primary_position p) unmoved) h
          (new_count-WellFormed now fingers (primary_position p) unmoved (seen _ (read p h))) in
      follow-WellFormed fingers (primary_position p) _ (seen _ (read _ counted))

  handle_event-WellFormed :
      (e : Event) (p : Touchpad) → WellFormed p → WellFormed (handle_event r e p)
  unfolding handle_event
  handle_event-WellFormed (mt_slot v) p h = slot-WellFormed v p h
  handle_event-WellFormed (mt_tracking_id v) p h = contact-WellFormed _ p h
  handle_event-WellFormed (mt_position_x v) p h = contact-WellFormed _ p h
  handle_event-WellFormed (mt_position_y v) p h = contact-WellFormed _ p h
  handle_event-WellFormed (abs_x v) p h = seen _ (read p h)
  handle_event-WellFormed (abs_y v) p h = seen _ (read p h)
  handle_event-WellFormed (btn_touch v) p h = seen _ (read p h)
  handle_event-WellFormed (tool_finger_bit v) p h = seen _ (read p h)
  handle_event-WellFormed (tool_double_bit v) p h = seen _ (read p h)
  handle_event-WellFormed (tool_triple_bit v) p h = seen _ (read p h)
  handle_event-WellFormed (btn_left v) p h =
      set_button-WellFormed left_button v _ (left-WellFormed v p h)
  handle_event-WellFormed (btn_right v) p h = set_button-WellFormed right_button v p h
  handle_event-WellFormed (btn_middle v) p h = set_button-WellFormed middle_button v p h
  handle_event-WellFormed (syn_report now) p h = frame_complete-WellFormed now p h
  handle_event-WellFormed other_event p h = h

  events-WellFormed :
      (es : List Event) (p : Touchpad) → WellFormed p → WellFormed (handle_events r es p)
  unfolding handle_events
  events-WellFormed [] p h = h
  events-WellFormed (e ∷ es) p h = events-WellFormed es _ (handle_event-WellFormed e p h)

  -- Whatever events the kernel reports to a pad that was opened: the current slot is one of the pad's
  -- contacts, no tap is possible while the pad is pressed, and the presses and releases that were
  -- delivered alternate for each button and end at the buttons that count as down.
  pub handle_events-WellFormed :
      (span_x span_y : ℤ) (multitouch : Bool) (maximum : Option ℤ) (es : List Event)
      → WellFormed (handle_events r es (init span_x span_y multitouch maximum))
  handle_events-WellFormed span_x span_y multitouch maximum es =
      events-WellFormed es _ (init-WellFormed span_x span_y multitouch maximum)
