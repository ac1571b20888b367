-- ===== src/Analytics.antt =====
-- backend/analytics/aggregator.py, _StreamAgg: the counters of one stream and their flush. Names are
-- numbers, times and durations too. The records are those of inference/events/event_types.py.
use omnitrack_ai_platform.Prelude.{
  ℕ, ◌+◌, ◌-◌, Option, none, some, List, [], ◌∷◌, ◌++◌, ◌==◌, if◌then◌else◌, mem,
}
use omnitrack_ai_platform.Prelude.Dict.{Dict, lookup, insert, erase}
use Prim.Native.String.{String}
use text.Mathlib.Text.{◌==◌ as str_eq}
use omnitrack_ai_platform.Events.{
  EventType, object_appeared, object_disappeared, object_entered, object_exited, crossing_direction,
  dwell_time, stationary_object, near_collision, EventRecord,
}
pub mod Flush
pub mod Registry
pub mod Wire
pub mod Conservation
pub mod Counts
pub mod Totals
mod Tests

-- The names the code gives itself: "unknown", "" and "positive".
abbrev pub unknown : ℕ
unknown = 0

abbrev pub empty_name : ℕ
empty_name = 1

abbrev pub positive_name : ℕ
positive_name = 2

abbrev pub or_default : Option ℕ → ℕ → ℕ
or_default none d = d
or_default (some n) d = n

-- `class_name or "unknown"`.
abbrev pub or_unknown : Option ℕ → ℕ
or_unknown none = unknown
or_unknown (some n) = if n == empty_name then unknown else n

pub record ZoneStats : Type 0 where
  pub entries : ℕ
  pub exits : ℕ
  pub occupancy_seconds : ℕ
  pub dwell_seconds : ℕ
  pub unique_tracks : List ℕ

pub record LineStats : Type 0 where
  pub positive : ℕ
  pub negative : ℕ
  pub line_tracks : List ℕ

pub record StreamAgg : Type 0 where
  pub object_counts : Dict ℕ
  pub tracks : Dict ℕ
  pub zone_tracks : Dict (Dict ℕ)
  pub zone_stats : Dict ZoneStats
  pub line_stats : Dict LineStats
  pub dwell_time_total : ℕ
  pub stationary_count : ℕ
  pub near_collision_count : ℕ
  pub window_start : ℕ

unfoldable pub empty_window : ℕ → StreamAgg
empty_window now = record {
  object_counts = [];
  tracks = [];
  zone_tracks = [];
  zone_stats = [];
  line_stats = [];
  dwell_time_total = 0;
  stationary_count = 0;
  near_collision_count = 0;
  window_start = now;
}

-- The comparisons of `handle_event`, in their order.
unfoldable pub kind_of : String → Option EventType
kind_of s =
    if str_eq s "OBJECT_APPEARED"
    then some object_appeared
    else if str_eq s "OBJECT_DISAPPEARED"
    then some object_disappeared
    else if str_eq s "OBJECT_ENTERED"
    then some object_entered
    else if str_eq s "OBJECT_EXITED"
    then some object_exited
    else if str_eq s "CROSSING_DIRECTION"
    then some crossing_direction
    else if str_eq s "DWELL_TIME"
    then some dwell_time
    else if str_eq s "STATIONARY_OBJECT"
    then some stationary_object
    else if str_eq s "NEAR_COLLISION"
    then some near_collision
    else none

abbrev pub count_in : ℕ → Dict ℕ → ℕ
count_in name m = or_default (lookup name m) 0

-- `counts[name] += 1`.
unfoldable pub bump : ℕ → Dict ℕ → Dict ℕ
unfolding lookup insert
bump name m = insert name (count_in name m + 1) m

abbrev pub no_stats : ZoneStats
no_stats = record {
  entries = 0;
  exits = 0;
  occupancy_seconds = 0;
  dwell_seconds = 0;
  unique_tracks = [];
}

-- `_ensure_zone_stats`, and the change of the zone's entry.
unfoldable pub change_zone : ℕ → (ZoneStats → ZoneStats) → Dict ZoneStats → Dict ZoneStats
unfolding lookup insert
change_zone name f m = elim (lookup name m) [
  | none ↦ insert name (f no_stats) m
  | some z ↦ insert name (f z) m
]

abbrev pub no_line : LineStats
no_line = record { positive = 0; negative = 0; line_tracks = [] }

unfoldable pub change_line : ℕ → (LineStats → LineStats) → Dict LineStats → Dict LineStats
unfolding lookup insert
change_line name f m = elim (lookup name m) [
  | none ↦ insert name (f no_line) m
  | some l ↦ insert name (f l) m
]

-- `self._zone_tracks[zone_name]`.
unfoldable pub inside : ℕ → Dict (Dict ℕ) → Dict ℕ
unfolding lookup
inside zone m = elim (lookup zone m) [ none ↦ [] | some d ↦ d ]

unfoldable pub on_appeared : StreamAgg → EventRecord → StreamAgg
unfolding bump insert
on_appeared a r =
    let name = or_unknown r.class_of in
    record a {
      object_counts = bump name a.object_counts;
      tracks = elim r.track [ none ↦ a.tracks | some t ↦ insert t name a.tracks ];
    }

unfoldable pub on_disappeared : StreamAgg → EventRecord → StreamAgg
unfolding erase
on_disappeared a r = record a {
  tracks = elim r.track [ none ↦ a.tracks | some t ↦ erase t a.tracks ];
}

unfoldable pub on_entered : StreamAgg → EventRecord → StreamAgg
unfolding inside insert change_zone
on_entered a r =
    let zone = or_default r.details.zone_name unknown in
    elim r.track [
      | none ↦ a
      | some t ↦ record a {
        zone_tracks = insert zone (insert t r.at (inside zone a.zone_tracks)) a.zone_tracks;
        zone_stats = change_zone zone (λ z. record z { entries = z.entries + 1 }) a.zone_stats;
      }
    ]

unfoldable pub on_exited : StreamAgg → EventRecord → StreamAgg
unfolding inside insert erase change_zone lookup
on_exited a r =
    let zone = or_default r.details.zone_name unknown in
    elim r.track [
      | none ↦ a
      | some t ↦
          let dwell = r.at - or_default (lookup t (inside zone a.zone_tracks)) r.at in
          record a {
            zone_tracks = insert zone (erase t (inside zone a.zone_tracks)) a.zone_tracks;
            dwell_time_total = a.dwell_time_total + dwell;
            zone_stats =
                change_zone zone
                  (λ z. record z {
                    exits = z.exits + 1;
                    occupancy_seconds = z.occupancy_seconds + dwell;
                  })
                  a.zone_stats;
          }
    ]

-- A set with one more element.
unfoldable pub add_member : Option ℕ → List ℕ → List ℕ
unfolding mem
add_member none ts = ts
add_member (some t) ts = if mem t ts then ts else ts ++ t ∷ []

unfoldable pub on_crossing : StreamAgg → EventRecord → StreamAgg
unfolding change_line add_member
on_crossing a r =
    let is_positive =
      or_default r.details.direction empty_name
      == or_default r.details.positive_label positive_name in
    record a {
      line_stats =
          change_line (or_default r.details.line_name unknown)
            (λ l. record {
              positive = if is_positive then l.positive + 1 else l.positive;
              negative = if is_positive then l.negative else l.negative + 1;
              line_tracks = add_member r.track l.line_tracks;
            })
            a.line_stats;
    }

unfoldable pub on_dwell : StreamAgg → EventRecord → StreamAgg
unfolding change_zone
on_dwell a r =
    let seconds = or_default r.details.seconds 0 in
    record a {
      dwell_time_total = a.dwell_time_total + seconds;
      zone_stats =
          change_zone (or_default r.details.zone_name unknown)
            (λ z. record z { dwell_seconds = z.dwell_seconds + seconds }) a.zone_stats;
    }

unfoldable pub handle : Option EventType → StreamAgg → EventRecord → StreamAgg
unfolding on_appeared on_disappeared on_entered on_exited on_crossing on_dwell
handle none a r = a
handle (some object_appeared) a r = on_appeared a r
handle (some object_disappeared) a r = on_disappeared a r
handle (some object_entered) a r = on_entered a r
handle (some object_exited) a r = on_exited a r
handle (some crossing_direction) a r = on_crossing a r
handle (some dwell_time) a r = on_dwell a r
handle (some stationary_object) a r = record a { stationary_count = a.stationary_count + 1 }
handle (some near_collision) a r = record a { near_collision_count = a.near_collision_count + 1 }

-- `_StreamAgg.handle_event`.
unfoldable pub handle_event : StreamAgg → EventRecord → StreamAgg
unfolding kind_of handle
handle_event a r = handle (kind_of r.type_name) a r
