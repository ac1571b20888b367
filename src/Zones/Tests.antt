-- ===== src/Zones/Tests.antt =====
-- The theorem on stays at concrete frames.

-- One zone, the detections from 10 on.
use omnitrack_ai_platform.Prelude.{
  ℕ, ◌+◌, ◌≤◌, ◌≡◌, refl, true, List, [], ◌∷◌, ltb, is_some, take, drop, mem,
}
use omnitrack_ai_platform.Tracker.{TrackedObject}
use omnitrack_ai_platform.Zones.{Config, init, zones_inside, entry_of}
use omnitrack_ai_platform.Zones.Entries.{enters, dwells}
use omnitrack_ai_platform.Zones.Frames.{Step, frame, run, dwell_once}

abbrev gate : Config
gate = record {
  zones = record { name = 4; contains = λ d. ltb 9 d } ∷ [];
  lines = [];
  dwell_seconds = 5;
}

abbrev walker : ℕ → TrackedObject
walker d = record {
  track_id = 7;
  detections = d ∷ [];
  trajectory_points = [];
  first_seen_frame = 0;
  last_seen_frame = 0;
  times_disappeared = 0;
}

-- In at 1, still in at 7 and 9, out at 11, in again at 12.
abbrev visit : List Step
visit =
    frame gate 1 (walker 12 ∷ [])
    ∷ frame gate 7 (walker 13 ∷ [])
    ∷ frame gate 9 (walker 14 ∷ [])
    ∷ frame gate 11 (walker 2 ∷ [])
    ∷ frame gate 12 (walker 11 ∷ [])
    ∷ []

visits : (enters 7 4 (run visit init).1 ≡ 2) × (dwells 7 4 (run visit init).1 ≡ 1)
unfolding run enters dwells init
visits = (refl, refl)

-- The zone is entered in the first frame, and the rest of that stay begins with the second.
dwell_once_example :
    let before = run (take 1 visit) init in
    let r = run (drop 1 visit) before.0 in
    (dwells 7 4 before.1 ≤ enters 7 4 before.1)
    × (dwells 7 4 r.1 ≤ 1 + enters 7 4 r.1)
    × (dwells 7 4 before.1 + dwells 7 4 r.1 ≤ enters 7 4 before.1 + enters 7 4 r.1)
    × ((q y : ℕ)
        → mem y (zones_inside q r.0) ≡ true
        → is_some (entry_of (q, y) r.0.entry_ts) ≡ true)
dwell_once_example = dwell_once 7 4 (take 1 visit) (drop 1 visit)
