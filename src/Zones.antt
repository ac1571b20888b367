-- ===== src/Zones.antt =====
-- inference/events/geometry_detectors.py, ZoneDetector and LineCrossingDetector, with the regions of
-- inference/events/regions.py. Detections are opaque numbers, as in Tracker.antt; whether a polygon
-- contains the centre of one, and which way a movement crosses a line, which are computations on
-- floats, are functions of the region. Names are numbers, and their order is that of the texts.
use omnitrack_ai_platform.Prelude.{
  ℕ, ◌-◌, Bool, false, not, ◌&&◌, ◌||◌, Option, none, some, List, [], ◌∷◌, ◌++◌, map, leb, ◌==◌,
  if◌then◌else◌, keep, mem,
}
use omnitrack_ai_platform.Prelude.Dict.{Dict, lookup, insert}
use omnitrack_ai_platform.Tracker.{TrackedObject, current_detection}
use omnitrack_ai_platform.Stationary.{active_objects}
use omnitrack_ai_platform.Appearance.{difference, sorted}
pub mod Entries
pub mod Lines
pub mod Dwell
pub mod Stays
pub mod Frames
mod Tests

pub record Zone : Type 0 where
  pub name : ℕ
  pub contains : ℕ → Bool

pub record Line : Type 0 where
  pub line_name : ℕ
  pub direction_of : ℕ → ℕ → Option ℕ

pub record Config : Type 0 where
  pub zones : List Zone
  pub lines : List Line
  pub dwell_seconds : ℕ

-- The track, the zone or line, and the seconds or the direction.
pub data Event : Type 0 where
  object_entered : ℕ → ℕ → Event
  object_exited dwell_time : ℕ → ℕ → ℕ → Event
  crossing_direction : ℕ → ℕ → ℕ → Event

-- `(track_id, zone_name)`.
abbrev pub Key : Type 0
Key = ℕ × ℕ

pub record ZoneDetector : Type 0 where
  pub inside : Dict (List ℕ)
  pub entry_ts : List (Key × ℕ)
  pub dwell_fired : List Key

unfoldable pub init : ZoneDetector
init = record { inside = []; entry_ts = []; dwell_fired = [] }

abbrev pub same_key : Key → Key → Bool
same_key j k = j.0 == k.0 && j.1 == k.1

-- `_entry_ts.get(key)`, `_entry_ts[key] = ts`, `_entry_ts.pop(key, None)`.
unfoldable pub entry_of : Key → List (Key × ℕ) → Option ℕ
entry_of k [] = none
entry_of k ((j, ts) ∷ m) = if same_key k j then some ts else entry_of k m

unfoldable pub set_entry : Key → ℕ → List (Key × ℕ) → List (Key × ℕ)
set_entry k ts [] = (k, ts) ∷ []
set_entry k ts ((j, old) ∷ m) = if same_key k j then (k, ts) ∷ m else (j, old) ∷ set_entry k ts m

unfoldable pub drop_entry : Key → List (Key × ℕ) → List (Key × ℕ)
drop_entry k [] = []
drop_entry k ((j, ts) ∷ m) = if same_key k j then drop_entry k m else (j, ts) ∷ drop_entry k m

unfoldable pub is_fired : Key → List Key → Bool
is_fired k [] = false
is_fired k (j ∷ js) = same_key k j || is_fired k js

unfoldable pub discard_key : Key → List Key → List Key
discard_key k = keep (λ j. not (same_key k j))

-- A `frozenset` of names.
unfoldable pub as_set : List ℕ → List ℕ
unfolding mem
as_set [] = []
as_set (x ∷ xs) = let rest = as_set xs in if mem x rest then rest else x ∷ rest

-- The names of the zones that contain a detection.
unfoldable pub zones_of : Config → Option ℕ → List ℕ
unfolding as_set
zones_of cfg none = []
zones_of cfg (some d) = as_set (map (λ z. z.name) (keep (λ z. z.contains d) cfg.zones))

unfoldable pub enter : ℕ → ℕ → ℕ → ZoneDetector → ZoneDetector
unfolding set_entry discard_key
enter now track zone s = record s {
  entry_ts = set_entry (track, zone) now s.entry_ts;
  dwell_fired = discard_key (track, zone) s.dwell_fired;
}

-- The loop of entries.
unfoldable pub enter_all : ℕ → ℕ → List ℕ → ZoneDetector → ZoneDetector × List Event
unfolding enter
enter_all now track [] s = (s, [])
enter_all now track (z ∷ zs) s =
    let rest = enter_all now track zs (enter now track z s) in
    (rest.0, object_entered track z ∷ rest.1)

unfoldable pub exit : ℕ → ℕ → ZoneDetector → ZoneDetector
unfolding drop_entry discard_key
exit track zone s = record s {
  entry_ts = drop_entry (track, zone) s.entry_ts;
  dwell_fired = discard_key (track, zone) s.dwell_fired;
}

-- The time in a zone that is left, 0 without an entry.
unfoldable pub dwell_of : ℕ → Option ℕ → ℕ
dwell_of now none = 0
dwell_of now (some entry) = now - entry

-- The loop of exits.
unfoldable pub exit_all : ℕ → ℕ → List ℕ → ZoneDetector → ZoneDetector × List Event
unfolding exit entry_of dwell_of
exit_all now track [] s = (s, [])
exit_all now track (z ∷ zs) s =
    let rest = exit_all now track zs (exit track z s) in
    (rest.0, object_exited track z (dwell_of now (entry_of (track, z) s.entry_ts)) ∷ rest.1)

-- One turn of the loop of dwells.
unfoldable pub dwell : Config → ℕ → ℕ → ℕ → ZoneDetector → ZoneDetector × List Event
unfolding entry_of set_entry is_fired
dwell cfg now track z s = elim (entry_of (track, z) s.entry_ts) [
  | none ↦ (record s { entry_ts = set_entry (track, z) now s.entry_ts }, [])
  | some entry ↦
      if is_fired (track, z) s.dwell_fired
      then (s, [])
      else if leb cfg.dwell_seconds (now - entry)
      then (
        record s { dwell_fired = (track, z) ∷ s.dwell_fired },
        dwell_time track z (now - entry) ∷ [],
      )
      else (s, [])
]

unfoldable pub dwell_all : Config → ℕ → ℕ → List ℕ → ZoneDetector → ZoneDetector × List Event
unfolding dwell
dwell_all cfg now track [] s = (s, [])
dwell_all cfg now track (z ∷ zs) s =
    let first = dwell cfg now track z s in
    let rest = dwell_all cfg now track zs first.0 in (rest.0, first.1 ++ rest.1)

-- `self._inside.get(tid, frozenset())`.
unfoldable pub zones_inside : ℕ → ZoneDetector → List ℕ
unfolding lookup
zones_inside track s = elim (lookup track s.inside) [ none ↦ [] | some zs ↦ zs ]

-- One object of `update`, which is in the zones `current`.
unfoldable pub watch : Config → ℕ → ℕ → List ℕ → ZoneDetector → ZoneDetector × List Event
unfolding enter_all exit_all dwell_all zones_inside difference sorted insert
watch cfg now track current s =
    let previous = zones_inside track s in
    let entered = enter_all now track (sorted (difference current previous)) s in
    let exited = exit_all now track (sorted (difference previous current)) entered.0 in
    let dwelt = dwell_all cfg now track (sorted current) exited.0 in
    (
      record (dwelt.0) { inside = insert track current dwelt.0.inside },
      entered.1 ++ exited.1 ++ dwelt.1,
    )

unfoldable pub watch_all :
    Config → ℕ → List TrackedObject → ZoneDetector → ZoneDetector × List Event
unfolding watch zones_of current_detection
watch_all cfg now [] s = (s, [])
watch_all cfg now (t ∷ ts) s =
    let first = watch cfg now t.track_id (zones_of cfg (current_detection t)) s in
    let rest = watch_all cfg now ts first.0 in (rest.0, first.1 ++ rest.1)

-- `ZoneDetector.update`.
unfoldable pub update_zones :
    Config → ℕ → List TrackedObject → ZoneDetector → ZoneDetector × List Event
unfolding watch_all active_objects
update_zones cfg now objects s = elim cfg.zones [
  | [] ↦ (s, [])
  | z ∷ zs ↦ watch_all cfg now (active_objects objects) s
]

-- `ZoneDetector.cleanup`.
unfoldable pub cleanup_zones : List ℕ → ZoneDetector → ZoneDetector
unfolding mem
cleanup_zones active_ids s = record {
  inside = keep (λ e. mem e.0 active_ids) s.inside;
  entry_ts = keep (λ e. mem e.0.0 active_ids) s.entry_ts;
  dwell_fired = keep (λ k. mem k.0 active_ids) s.dwell_fired;
}

-- `ZoneDetector.reset`.
unfoldable pub reset_zones : ZoneDetector → ZoneDetector
reset_zones s = record { inside = []; entry_ts = []; dwell_fired = [] }
