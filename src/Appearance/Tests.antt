-- ===== src/Appearance/Tests.antt =====
-- The theorems on appearance events at concrete inputs.
use omnitrack_ai_platform.Prelude.{ℕ, ◌+◌, ◌≡◌, true, some, List, [], ◌∷◌, mem}
use omnitrack_ai_platform.Tracker.{TrackedObject}
use omnitrack_ai_platform.Appearance.{EngineConfig, init}
use omnitrack_ai_platform.Appearance.Presence.{
  run, appearances_balance, appeared_count, disappeared_count, one_if,
}

abbrev watching : EngineConfig
watching = record { enabled = true; class_of = λ d. some d }

abbrev passing : ℕ → TrackedObject
passing id = record {
  track_id = id;
  detections = 4 ∷ [];
  trajectory_points = record { point_frame = 1; centre_of = 4; timestamp = 1 } ∷ [];
  first_seen_frame = 1;
  last_seen_frame = 1;
  times_disappeared = 0;
}

abbrev film : List (EngineConfig × ℕ × List TrackedObject)
film =
    (watching, 1, passing 3 ∷ passing 5 ∷ [])
    ∷ (watching, 2, passing 5 ∷ [])
    ∷ (watching, 3, passing 3 ∷ [])
    ∷ []

appearances_balance_example :
    appeared_count 3 (run init film).1
    ≡ disappeared_count 3 (run init film).1 + one_if (mem 3 (run init film).0.known_ids)
appearances_balance_example = appearances_balance film 3
