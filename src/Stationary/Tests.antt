-- ===== src/Stationary/Tests.antt =====
-- The theorems on the detector of stationary objects at concrete inputs.
use omnitrack_ai_platform.Prelude.{ℕ, ◌≡◌, refl, false, List, [], ◌∷◌, map, length, mem}
use omnitrack_ai_platform.Tracker.{TrackedObject, current_detection}
use omnitrack_ai_platform.Stationary.{EventEngineConfig, is_active, trajectory_spread, window_of}
use omnitrack_ai_platform.Stationary.Latch.{
  raises, watches, raises-watches, latched_quiet, stays, find,
}

stationary : Unit {0}
unfolding stays find is_active trajectory_spread window_of current_detection mem
stationary = tt

abbrev steps_config : EventEngineConfig
steps_config = record {
  stationary_min_frames = 2;
  stationary_max_spread_px = 5;
  stationary_clear_spread_px = 9;
  radius = λ ps. length ps;
}

abbrev standing : ℕ → TrackedObject
standing id = record {
  track_id = id;
  detections = 4 ∷ [];
  trajectory_points =
      record { point_frame = 1; centre_of = 4; timestamp = 1 }
      ∷ record { point_frame = 2; centre_of = 4; timestamp = 2 }
      ∷ [];
  first_seen_frame = 1;
  last_seen_frame = 2;
  times_disappeared = 0;
}

abbrev scene : List (List TrackedObject)
scene = (standing 3 ∷ standing 5 ∷ []) ∷ (standing 3 ∷ []) ∷ []

raises-watches_example :
    map (λ events. mem 3 events) (raises steps_config [] scene)
    ≡ watches steps_config 3 (mem 3 []) scene
unfolding stationary
raises-watches_example =
    raises-watches steps_config 3 [] scene ((refl, (refl, tt)), ((refl, tt), tt))

latched_quiet_example :
    map (λ events. mem 3 events) (raises steps_config (3 ∷ []) scene) ≡ false ∷ false ∷ []
unfolding stationary
latched_quiet_example =
    latched_quiet steps_config 3 (3 ∷ []) scene ((refl, (refl, tt)), ((refl, tt), tt))
      (refl, (refl, tt)) refl
