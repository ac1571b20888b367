-- ===== src/Zones/Lines.antt =====
-- LineCrossingDetector of inference/events/geometry_detectors.py: the last centroid of each track, and
-- the crossings of a movement from there.

use omnitrack_ai_platform.Prelude.{ℕ, Option, none, some, List, [], ◌∷◌, ◌++◌, keep, mem}
use omnitrack_ai_platform.Prelude.Dict.{Dict, lookup, insert}
use omnitrack_ai_platform.Tracker.{TrackedObject, current_detection}
use omnitrack_ai_platform.Stationary.{active_objects}
use omnitrack_ai_platform.Zones.{Config, Event, Line, crossing_direction}

unfoldable pub crossings : ℕ → ℕ → ℕ → List Line → List Event
crossings track previous current [] = []
crossings track previous current (l ∷ ls) =
    let rest = crossings track previous current ls in
    elim (l.direction_of previous current) [
      | none ↦ rest
      | some direction ↦ crossing_direction track l.line_name direction ∷ rest
    ]

-- One object of `LineCrossingDetector.update`.
unfoldable pub follow : Config → ℕ → Option ℕ → Dict ℕ → Dict ℕ × List Event
unfolding crossings lookup insert
follow cfg track none prev = (prev, [])
follow cfg track (some current) prev = (
  insert track current prev,
  (elim (lookup track prev) [ none ↦ [] | some p ↦ crossings track p current cfg.lines ]),
)

unfoldable pub follow_all : Config → List TrackedObject → Dict ℕ → Dict ℕ × List Event
unfolding follow current_detection
follow_all cfg [] prev = (prev, [])
follow_all cfg (t ∷ ts) prev =
    let first = follow cfg t.track_id (current_detection t) prev in
    let rest = follow_all cfg ts first.0 in (rest.0, first.1 ++ rest.1)

-- `LineCrossingDetector.update`.
unfoldable pub update_lines : Config → List TrackedObject → Dict ℕ → Dict ℕ × List Event
unfolding follow_all active_objects
update_lines cfg objects prev = elim cfg.lines [
  | [] ↦ ([], [])
  | l ∷ ls ↦ follow_all cfg (active_objects objects) prev
]

-- `LineCrossingDetector.cleanup`, and `reset`.
unfoldable pub cleanup_lines : List ℕ → Dict ℕ → Dict ℕ
unfolding mem
cleanup_lines active_ids prev = keep (λ e. mem e.0 active_ids) prev

unfoldable pub reset_lines : Dict ℕ → Dict ℕ
reset_lines prev = []
