-- ===== src/Stationary.antt =====
-- inference/events/detectors.py, StationaryDetector, with the active objects of a FrameContext and
-- `_trajectory_spread`. The greatest distance of some points from their mean, which is a computation
-- on floats, is the function `radius` of the configuration. An event is the id of its track.
use omnitrack_ai_platform.Prelude.{
  ℕ, Bool, not, ◌&&◌, Option, none, some, List, [], ◌∷◌, ◌++◌, map, ltb, leb, ◌==◌, if◌then◌else◌,
  is_some, length, keep, last_n, mem,
}
use omnitrack_ai_platform.Tracker.{TrackedObject, TrajectoryPoint, current_detection, is_lost}
pub mod Latch
pub mod Tests

pub record EventEngineConfig : Type 0 where
  pub stationary_min_frames : ℕ
  pub stationary_max_spread_px : ℕ
  pub stationary_clear_spread_px : ℕ
  pub radius : List TrajectoryPoint → ℕ

-- `points[-window:]`, all of them for a window of 0.
unfoldable pub window_of : ℕ → List TrajectoryPoint → List TrajectoryPoint
window_of window points = if window == 0 then points else last_n window points

unfoldable pub trajectory_spread : EventEngineConfig → TrackedObject → Option ℕ
unfolding window_of
trajectory_spread cfg t =
    if ltb (length t.trajectory_points) cfg.stationary_min_frames
    then none
    else some (cfg.radius (window_of cfg.stationary_min_frames t.trajectory_points))

unfoldable pub is_active : TrackedObject → Bool
unfolding current_detection
is_active t = not (is_lost t) && is_some (current_detection t)

-- `active_objects`.
unfoldable pub active_objects : List TrackedObject → List TrackedObject
unfolding is_active
active_objects = keep is_active

-- `self._latched.discard(id)`.
unfoldable pub discard : ℕ → List ℕ → List ℕ
discard id = keep (λ k. not (id == k))

-- One object of `update`: the set of latched ids, and the events.
unfoldable pub inspect : EventEngineConfig → List ℕ → TrackedObject → List ℕ × List ℕ
unfolding trajectory_spread mem discard
inspect cfg latched t = elim (trajectory_spread cfg t) [
  | none ↦ (latched, [])
  | some spread ↦
      if mem t.track_id latched
      then (
        if ltb cfg.stationary_clear_spread_px spread then discard t.track_id latched else latched,
        [],
      )
      else if leb spread cfg.stationary_max_spread_px
      then (t.track_id ∷ latched, t.track_id ∷ [])
      else (latched, [])
]

unfoldable pub inspect_all : EventEngineConfig → List ℕ → List TrackedObject → List ℕ × List ℕ
unfolding inspect
inspect_all cfg latched [] = (latched, [])
inspect_all cfg latched (t ∷ ts) =
    let first = inspect cfg latched t in
    let rest = inspect_all cfg first.0 ts in (rest.0, first.1 ++ rest.1)

-- `update`.
unfoldable pub update_latches : EventEngineConfig → List ℕ → List TrackedObject → List ℕ × List ℕ
unfolding inspect_all active_objects
update_latches cfg latched objects = inspect_all cfg latched (active_objects objects)

-- `self._latched.intersection_update(active_ids)`.
unfoldable pub cleanup : List ℕ → List ℕ → List ℕ
unfolding mem
cleanup active_ids = keep (λ k. mem k active_ids)

-- `reset`.
unfoldable pub reset : List ℕ → List ℕ
reset latched = []

-- The calls of the engine for one frame: `update`, then `cleanup` with the ids of the frame.
unfoldable pub frame : EventEngineConfig → List ℕ → List TrackedObject → List ℕ × List ℕ
unfolding update_latches cleanup
frame cfg latched objects =
    let r = update_latches cfg latched objects in (cleanup (map (λ t. t.track_id) objects) r.0, r.1)
