-- ===== src/Touchpad/Tests.antt =====
-- The touchpad at one short click with a finger on the pad, on numbers that measure nothing.
use signeros.Base.{ℕ, ◌≡◌, refl, true, false, some, List, [], ◌∷◌}
use signeros.Touchpad.{
  pos, negsuc, Real, Event, mt_slot, mt_tracking_id, mt_position_x, btn_left, syn_report,
  left_button, pressed, released, init, slot_count, slot_of, set_button, count_down,
  active_contacts, first_down, primary_position, begin_tap, end_tap, lift_or_add, new_count,
  gesture, jumped, slipped, slip, travel, follow, frame_complete, handle_event, handle_events,
}
use signeros.Touchpad.WellFormed.{WellFormed, handle_events-WellFormed}

abbrev still : Real
still = record {
  R = ℕ;
  of_int = λ z. 0;
  of_ratio = λ n d. 1;
  plus = λ a b. 0;
  times = λ a b. 0;
  over = λ a b. 0;
  fabs = λ a. a;
  sqrt = λ a. a;
  exceeds = λ a b. false;
}

-- A finger comes down, presses the pad, lets it go and is lifted, all in 90 ms.
abbrev short_click : List Event
short_click =
    mt_slot (pos 40)
    ∷ mt_tracking_id (pos 7)
    ∷ mt_position_x (pos 100)
    ∷ syn_report 10
    ∷ btn_left true
    ∷ btn_left false
    ∷ mt_tracking_id (negsuc 0)
    ∷ syn_report 100
    ∷ []

-- One press and one release are delivered, and no second click.
short_click_once :
    (handle_events still short_click (init (pos 1000) (pos 600) true (some (pos 4)))).actions
    ≡ released left_button ∷ pressed left_button ∷ []
unfolding init slot_count slot_of set_button count_down active_contacts first_down primary_position
    begin_tap end_tap lift_or_add new_count gesture jumped slipped slip travel follow frame_complete
    handle_event handle_events
short_click_once = refl

handle_events-WellFormed_example :
    WellFormed (handle_events still short_click (init (pos 1000) (pos 600) true (some (pos 4))))
handle_events-WellFormed_example =
    handle_events-WellFormed still (pos 1000) (pos 600) true (some (pos 4)) short_click
