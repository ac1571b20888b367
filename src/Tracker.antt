-- ===== src/Tracker.antt =====
-- inference/tracker.py, CentroidTracker, and inference/tracking_types.py, TrackedObject. A detection
-- is an opaque number; the Euclidean distance of two centroids, which numpy computes, is a function
-- on detections that the tracker is given. Frames and times are numbers.
use omnitrack_ai_platform.Prelude.{
  ℕ, zero, suc, ◌+◌, Bool, not, ◌&&◌, ◌||◌, Option, none, some, List, [], ◌∷◌, ◌++◌, map, ltb, leb,
  ◌==◌, if◌then◌else◌, is_some, length, keep, last_n, last?, mem,
}
use omnitrack_ai_platform.Prelude.Dict.{Dict, lookup, insert, erase, keys}
pub mod Matching
pub mod Stable
pub mod Identity
pub mod Sound
pub mod Origin
pub mod Reuse
pub mod Tests

-- `TrackingConfig`, the fields that the tracker reads, with the distance of two centroids, which the
-- tracker computes on floats. The bound on trajectories that the tracker uses is its own.
pub record TrackingConfig : Type 0 where
  pub max_age : ℕ
  pub centroid_distance_threshold : ℕ
  pub distance : ℕ → ℕ → ℕ

pub record TrajectoryPoint : Type 0 where
  pub point_frame : ℕ
  pub centre_of : ℕ
  pub timestamp : ℕ

pub record TrackedObject : Type 0 where
  pub track_id : ℕ
  pub detections : List ℕ
  pub trajectory_points : List TrajectoryPoint
  pub first_seen_frame : ℕ
  pub last_seen_frame : ℕ
  pub times_disappeared : ℕ

unfoldable pub current_detection : TrackedObject → Option ℕ
current_detection t = last? t.detections

abbrev pub is_lost : TrackedObject → Bool
is_lost t = ltb 0 t.times_disappeared

unfoldable pub add_detection : ℕ → ℕ → ℕ → TrackedObject → TrackedObject
add_detection detection frame time t = record t {
  detections = last_n 30 (t.detections ++ detection ∷ []);
  last_seen_frame = frame;
  times_disappeared = 0;
  trajectory_points = last_n 100 (
      t.trajectory_points
      ++ record { point_frame = frame; centre_of = detection; timestamp = time } ∷ []);
}

unfoldable pub mark_disappeared : TrackedObject → TrackedObject
mark_disappeared t = record t { times_disappeared = t.times_disappeared + 1 }

pub record Tracker : Type 0 where
  pub tracked_objects : Dict TrackedObject
  pub next_id : ℕ

unfoldable pub init : Tracker
init = record { tracked_objects = []; next_id = 0 }

-- `(distance, track_idx, det_idx)`.
pub record Pair : Type 0 where
  pub length_of : ℕ
  pub track_idx : ℕ
  pub det_idx : ℕ

-- The order of the tuples.
unfoldable pub is_before : Pair → Pair → Bool
is_before p q =
    ltb p.length_of q.length_of
    || (p.length_of == q.length_of
        && (ltb p.track_idx q.track_idx || (p.track_idx == q.track_idx && leb p.det_idx q.det_idx)))

unfoldable pub insert_pair : Pair → List Pair → List Pair
unfolding is_before
insert_pair p [] = p ∷ []
insert_pair p (q ∷ qs) = if is_before p q then p ∷ q ∷ qs else q ∷ insert_pair p qs

-- `distance_pairs.sort()`.
unfoldable pub sort : List Pair → List Pair
unfolding insert_pair
sort [] = []
sort (p ∷ ps) = insert_pair p (sort ps)

-- `track_centroids`: the current detections there are, in the order of the tracks.
unfoldable pub centroids : Dict TrackedObject → List ℕ
unfolding current_detection
centroids [] = []
centroids ((id, t) ∷ m) =
    let rest = centroids m in elim (current_detection t) [ none ↦ rest | some d ↦ d ∷ rest ]

-- Row `i` of the distances from column `j` on, and the rows from `i` on.
unfoldable pub row : TrackingConfig → ℕ → ℕ → ℕ → List ℕ → List Pair
row config i d j [] = []
row config i d j (e ∷ es) =
    record { length_of = config.distance d e; track_idx = i; det_idx = j }
    ∷ row config i d (j + 1) es

unfoldable pub distance_pairs : TrackingConfig → ℕ → List ℕ → List ℕ → List Pair
unfolding row
distance_pairs config i [] detections = []
distance_pairs config i (d ∷ ds) detections =
    row config i d 0 detections ++ distance_pairs config (i + 1) ds detections

-- The greedy loop over the sorted pairs, from the indices already matched: the pairs it assigns.
unfoldable pub assign : ℕ → List ℕ → List ℕ → List Pair → List Pair
unfolding mem
assign threshold tracks dets [] = []
assign threshold tracks dets (p ∷ ps) =
    let taken = p ∷ assign threshold (p.track_idx ∷ tracks) (p.det_idx ∷ dets) ps in
    let rest = assign threshold tracks dets ps in
    if ltb threshold p.length_of
    then []
    else if not (mem p.track_idx tracks) && not (mem p.det_idx dets)
    then taken
    else rest

unfoldable pub entry_at : ℕ → List ℕ → Option ℕ
entry_at i [] = none
entry_at zero (x ∷ xs) = some x
entry_at (suc i) (x ∷ xs) = entry_at i xs

-- `range(a, a + n)`.
unfoldable pub range : ℕ → ℕ → List ℕ
range a zero = []
range a (suc n) = a ∷ range (a + 1) n

-- The entries whose index, counted from `i`, is not among the given ones.
unfoldable pub unmatched : List ℕ → ℕ → List ℕ → List ℕ
unfolding mem
unmatched matched i [] = []
unmatched matched i (x ∷ xs) =
    let rest = unmatched matched (i + 1) xs in if mem i matched then rest else x ∷ rest

pub record Match : Type 0 where
  pub assigned : List Pair
  pub unmatched_det_indices : List ℕ
  pub unmatched_track_ids : List ℕ

-- `_match_detections_to_tracks`; a pair names its track by the index in the list of ids.
unfoldable pub match_detections_to_tracks : TrackingConfig → Dict TrackedObject → List ℕ → Match
unfolding centroids distance_pairs sort assign range unmatched
match_detections_to_tracks config m detections =
    let indices = range 0 (length detections) in
    let pairs =
      assign config.centroid_distance_threshold [] []
        (sort (distance_pairs config 0 (centroids m) detections)) in
    record {
      assigned = pairs;
      unmatched_det_indices = unmatched (map (λ p. p.det_idx) pairs) 0 indices;
      unmatched_track_ids = unmatched (map (λ p. p.track_idx) pairs) 0 (keys m);
    }

-- The change of the object of an id.
unfoldable pub change :
    ℕ → (TrackedObject → TrackedObject) → Dict TrackedObject → Dict TrackedObject
change id f [] = []
change id f ((k, t) ∷ m) = if id == k then (k, f t) ∷ m else (k, t) ∷ change id f m

-- Step 3 of `update`; an index out of range, which does not occur, changes nothing.
unfoldable pub add_matched :
    List ℕ → List ℕ → ℕ → ℕ → List Pair → Dict TrackedObject → Dict TrackedObject
unfolding entry_at change add_detection
add_matched ids detections frame time [] m = m
add_matched ids detections frame time (p ∷ ps) m =
    add_matched ids detections frame time ps (elim (entry_at p.track_idx ids) [
      | none ↦ m
      | some id ↦ elim (entry_at p.det_idx detections) [
        | none ↦ m
        | some d ↦ change id (add_detection d frame time) m
      ]
    ])

-- The mark, and the deletion of a track that is gone for too long.
unfoldable pub age : ℕ → ℕ → Dict TrackedObject → Dict TrackedObject
unfolding change mark_disappeared lookup erase
age max_age id m =
    let m' = change id mark_disappeared m in
    elim (lookup id m') [
      | none ↦ m'
      | some t ↦ (if ltb max_age t.times_disappeared then erase id m' else m')
    ]

-- Step 4.
unfoldable pub age_all : ℕ → List ℕ → Dict TrackedObject → Dict TrackedObject
unfolding age
age_all max_age [] m = m
age_all max_age (id ∷ ids) m = age_all max_age ids (age max_age id m)

unfoldable pub create_new_track : ℕ → ℕ → ℕ → Tracker → Tracker
unfolding add_detection insert
create_new_track detection frame time p = record {
  next_id = p.next_id + 1;
  tracked_objects =
      insert p.next_id
        (add_detection detection frame time (record {
          track_id = p.next_id;
          detections = [];
          trajectory_points = [];
          first_seen_frame = frame;
          last_seen_frame = frame;
          times_disappeared = 0;
        }))
        p.tracked_objects;
}

-- Step 5.
unfoldable pub create_all : List ℕ → ℕ → ℕ → List ℕ → Tracker → Tracker
unfolding entry_at create_new_track
create_all detections frame time [] p = p
create_all detections frame time (j ∷ js) p =
    create_all detections frame time js
      (elim (entry_at j detections) [ none ↦ p | some d ↦ create_new_track d frame time p ])

-- `update`; the first branch is `_handle_no_detections`.
unfoldable pub update_tracker : TrackingConfig → Tracker → List ℕ → ℕ → ℕ → Tracker
unfolding match_detections_to_tracks add_matched age_all create_all
update_tracker config p [] frame time = record p {
  tracked_objects = age_all config.max_age (keys p.tracked_objects) p.tracked_objects;
}
update_tracker config p (d ∷ ds) frame time =
    let detections = d ∷ ds in
    let m = match_detections_to_tracks config p.tracked_objects detections in
    create_all detections frame time m.unmatched_det_indices (record p {
      tracked_objects =
          age_all config.max_age m.unmatched_track_ids (
            add_matched (keys p.tracked_objects) detections frame time m.assigned
              p.tracked_objects);
    })

-- `reset`.
unfoldable pub reset : Tracker → Tracker
reset p = record { tracked_objects = []; next_id = 0 }

-- `TrackingResult.get_active_objects`.
unfoldable pub get_active_objects : List TrackedObject → List TrackedObject
unfolding current_detection
get_active_objects = keep (λ t. is_some (current_detection t))

-- `TrackingResult.get_lost_objects`.
unfoldable pub get_lost_objects : List TrackedObject → List TrackedObject
get_lost_objects = keep is_lost
