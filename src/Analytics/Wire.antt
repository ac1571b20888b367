-- ===== src/Analytics/Wire.antt =====
-- The records that the event engine sends (inference/events/event_types.py) against those that the
-- aggregator (backend/analytics/aggregator.py) waits for.
use omnitrack_ai_platform.Prelude.{◌≡◌, refl, none}
use omnitrack_ai_platform.Analytics.{StreamAgg, handle, handle_event, kind_of}
use omnitrack_ai_platform.Events.{
  EventType, object_appeared, object_disappeared, object_entered, object_exited, crossing_direction,
  dwell_time, stationary_object, near_collision, Event, to_dict, value,
}

kind_of-value : (t : EventType) → kind_of (value t) ≡ none
unfolding kind_of
kind_of-value object_appeared = refl
kind_of-value object_disappeared = refl
kind_of-value object_entered = refl
kind_of-value object_exited = refl
kind_of-value crossing_direction = refl
kind_of-value dwell_time = refl
kind_of-value stationary_object = refl
kind_of-value near_collision = refl

-- The record of an event of the engine changes no counter of the window, whatever its type: the
-- types are written in lower case and compared with names in upper case.
pub handle_event-to_dict : (a : StreamAgg) (e : Event) → handle_event a (to_dict e) ≡ a
unfolding handle_event to_dict handle
handle_event-to_dict a e = rw (kind_of-value e.event_type)
