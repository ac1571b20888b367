-- ===== src/Tracker/Tests.antt =====
-- The tracker's theorems at concrete inputs.
use omnitrack_ai_platform.Prelude.{
  ℕ, ◌+◌, ◌-◌, ◌≤◌, ◌<◌, ◌≡◌, refl, ◌⊎◌, true, some, List, [], ◌∷◌, arith, mem,
}
use omnitrack_ai_platform.Prelude.Dict.{Dict, lookup, insert, erase, values}
use omnitrack_ai_platform.Tracker.{
  TrackingConfig, TrackedObject, init, update_tracker, get_active_objects,
  match_detections_to_tracks, centroids, entry_at, distance_pairs, row, sort, insert_pair,
  is_before, assign, range, unmatched, age_all, age, change, mark_disappeared, add_matched,
  create_all, create_new_track, add_detection, current_detection,
}
use omnitrack_ai_platform.Tracker.Matching.{is_covered}
use omnitrack_ai_platform.Tracker.Stable.{match_stable}
use omnitrack_ai_platform.Tracker.Identity.{IsSound}
use omnitrack_ai_platform.Tracker.Sound.{
  Call, updates, run, call, run-init-IsSound, get_active_objects-run,
}
use omnitrack_ai_platform.Tracker.Reuse.{ids_not_reused, after_frames, has_frame}

tracking : Unit {0}
unfolding after_frames has_frame centroids entry_at run init call update_tracker
    match_detections_to_tracks distance_pairs row sort insert_pair is_before assign range unmatched
    age_all age change mark_disappeared add_matched create_all create_new_track add_detection insert
    current_detection lookup erase mem
tracking = tt

abbrev line_config : TrackingConfig
line_config = record {
  max_age = 1;
  centroid_distance_threshold = 10;
  distance = λ a b. (a - b) + (b - a);
}

abbrev frames : List Call
frames =
    updates (20 ∷ 50 ∷ []) 1 100
    ∷ updates (53 ∷ []) 2 200
    ∷ updates [] 3 300
    ∷ updates (54 ∷ 90 ∷ []) 4 400
    ∷ []

abbrev table : Dict TrackedObject
table = (run line_config init (updates (20 ∷ 50 ∷ []) 1 100 ∷ [])).tracked_objects

run-init-IsSound_example : IsSound 1 (run line_config init frames)
run-init-IsSound_example = run-init-IsSound line_config frames

get_active_objects-run_example :
    let objects = values (run line_config init frames).tracked_objects in
    get_active_objects objects ≡ objects
get_active_objects-run_example = get_active_objects-run line_config frames

match_stable_example :
    is_covered
      (record { length_of = 3; track_idx = 1; det_idx = 0 })
      (match_detections_to_tracks line_config table (53 ∷ 22 ∷ [])).assigned
    ≡ true
unfolding tracking
match_stable_example =
    match_stable line_config table (53 ∷ 22 ∷ []) 1 0 50 53 refl refl (omega arith)

-- The track that the second frame continues.
abbrev continued : TrackedObject
continued = record {
  track_id = 1;
  detections = 50 ∷ 53 ∷ [];
  trajectory_points =
      record { point_frame = 1; centre_of = 50; timestamp = 100 }
      ∷ record { point_frame = 2; centre_of = 53; timestamp = 200 }
      ∷ [];
  first_seen_frame = 1;
  last_seen_frame = 2;
  times_disappeared = 0;
}

-- A second frame with both objects.
abbrev two_more : List (List ℕ × ℕ × ℕ)
two_more = (53 ∷ 20 ∷ [], 2, 200) ∷ []

ids_not_reused_example :
    let p = run line_config init (updates (20 ∷ 50 ∷ []) 1 100 ∷ []) in
    ((u : TrackedObject) × (1 < p.next_id)
      × (lookup 1 p.tracked_objects ≡ some u)
      × (continued.first_seen_frame ≡ u.first_seen_frame))
    ⊎ ((p.next_id ≤ 1) × (has_frame continued.first_seen_frame two_more ≡ true))
unfolding tracking
ids_not_reused_example =
    ids_not_reused line_config (updates (20 ∷ 50 ∷ []) 1 100 ∷ []) two_more 1 continued refl
