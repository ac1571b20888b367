-- ===== src/Tracker/Sound.antt =====
-- inference/tracker.py: every call of CentroidTracker on tables whose tracks are sound, and runs of calls.
use omnitrack_ai_platform.Prelude.{
  ℕ, ◌+◌, ◌<◌, ◌≡◌, refl, subst, inl, inr, none, some, List, [], ◌∷◌, arith, ltb, Bool-cases,
  Option-cases, All,
}
use omnitrack_ai_platform.Prelude.Dict.{Dict, lookup, keys, values, insert-HasOnce, erase-HasOnce}
use omnitrack_ai_platform.Tracker.{TrackedObject}
use omnitrack_ai_platform.Tracker.{Tracker, change}
use omnitrack_ai_platform.Tracker.{add_detection, age, mark_disappeared}
use omnitrack_ai_platform.Tracker.{
  Pair, TrackingConfig, add_matched, age_all, create_all, create_new_track, current_detection,
  entry_at, get_active_objects, init, match_detections_to_tracks, reset,
}
use omnitrack_ai_platform.Tracker.{update_tracker}
use omnitrack_ai_platform.Tracker.Identity.{
  All-change, All-erase, All-insert, All-lookup, IsSound, IsTable, IsTrack, add_detection-IsTrack,
  age_absent, age_old, age_young, keys-change, last_some, mark-IsTrack,
}

age-IsTable :
    (next max_age id : ℕ) (m : Dict TrackedObject)
    → IsTable next max_age m
    → IsTable next max_age (age max_age id m)
unfolding IsTable
age-IsTable next max_age id m h = elim (Option-cases (lookup id m)) [
  | inl none_e ↦ rw (age_absent max_age id m none_e) h
  | inr (t, e) ↦ elim (Bool-cases (ltb t.times_disappeared max_age)) [
    | inl lt ↦ rw (age_young max_age id m t e (ground arith)) (
      rw (keys-change id mark_disappeared m) h.0,
      All-change (IsTrack next max_age) id mark_disappeared m h.1 (λ u a.
          let u_t : t ≡ u = cc in
          mark-IsTrack next max_age id u (All-lookup (IsTrack next max_age) id m u h.1 a)
            (subst (λ v. v.times_disappeared < max_age) u_t (ground arith))),
    )
    | inr ge ↦
        rw (age_old max_age id m t e (ground arith))
          (erase-HasOnce id m h.0, All-erase (IsTrack next max_age) id m h.1)
  ]
]

age_all-IsTable :
    (next max_age : ℕ) (ids : List ℕ) (m : Dict TrackedObject)
    → IsTable next max_age m
    → IsTable next max_age (age_all max_age ids m)
unfolding age_all
age_all-IsTable next max_age [] m h = h
age_all-IsTable next max_age (id ∷ ids) m h =
    age_all-IsTable next max_age ids (age max_age id m) (age-IsTable next max_age id m h)

-- One round of step 3.
unfoldable pub add_one : List ℕ → List ℕ → ℕ → ℕ → Pair → Dict TrackedObject → Dict TrackedObject
unfolding entry_at change add_detection
add_one ids detections frame time p m = elim (entry_at p.track_idx ids) [
  | none ↦ m
  | some id ↦ elim (entry_at p.det_idx detections) [
    | none ↦ m
    | some d ↦ change id (add_detection d frame time) m
  ]
]

add_one-IsTable :
    (next max_age : ℕ) (ids detections : List ℕ) (frame time : ℕ) (p : Pair)
    (m : Dict TrackedObject)
    → IsTable next max_age m
    → IsTable next max_age (add_one ids detections frame time p m)
unfolding add_one IsTable
add_one-IsTable next max_age ids detections frame time p m h =
    elim (Option-cases (entry_at p.track_idx ids)) [
      | inl e ↦ rw (add_one, e) h
      | inr (id, e) ↦ elim (Option-cases (entry_at p.det_idx detections)) [
        | inl k ↦ rw (add_one, e, k) h
        | inr (d, k) ↦
            rw (add_one, e, k)
              (
                rw (keys-change id (add_detection d frame time) m) h.0,
                All-change (IsTrack next max_age) id (add_detection d frame time) m h.1 (λ t a.
                    let old = All-lookup (IsTrack next max_age) id m t h.1 a in
                    add_detection-IsTrack next max_age id d frame time t old.issued old.named),
              )
      ]
    ]

add_matched-IsTable :
    (next max_age : ℕ) (ids detections : List ℕ) (frame time : ℕ) (ps : List Pair)
    (m : Dict TrackedObject)
    → IsTable next max_age m
    → IsTable next max_age (add_matched ids detections frame time ps m)
unfolding add_matched add_one
add_matched-IsTable next max_age ids detections frame time [] m h = h
add_matched-IsTable next max_age ids detections frame time (p ∷ ps) m h =
    add_matched-IsTable next max_age ids detections frame time ps
      (add_one ids detections frame time p m)
      (add_one-IsTable next max_age ids detections frame time p m h)

All-issued :
    (next max_age : ℕ) (m : Dict TrackedObject)
    → All (IsTrack next max_age) m
    → All (IsTrack (next + 1) max_age) m
All-issued next max_age [] h = tt
All-issued next max_age (e ∷ m) h = (
  record {
    issued = let lt = h.0.issued in omega arith;
    named = h.0.named;
    young = h.0.young;
    seen = h.0.seen;
    few = h.0.few;
    short = h.0.short;
  },
  All-issued next max_age m h.1,
)

create_new_track-IsSound :
    (max_age d frame time : ℕ) (p : Tracker)
    → IsSound max_age p
    → IsSound max_age (create_new_track d frame time p)
unfolding create_new_track
create_new_track-IsSound max_age d frame time p h =
    let fresh : TrackedObject = record {
      track_id = p.next_id;
      detections = [];
      trajectory_points = [];
      first_seen_frame = frame;
      last_seen_frame = frame;
      times_disappeared = 0;
    } in
    record {
      once = insert-HasOnce p.next_id (add_detection d frame time fresh) p.tracked_objects h.once;
      tracks =
          All-insert (IsTrack (p.next_id + 1) max_age) p.next_id (add_detection d frame time fresh)
            p.tracked_objects (All-issued p.next_id max_age p.tracked_objects h.tracks)
            (add_detection-IsTrack (p.next_id + 1) max_age p.next_id d frame time fresh
              (omega arith) refl);
    }

create_all-IsSound :
    (max_age : ℕ) (detections : List ℕ) (frame time : ℕ) (js : List ℕ) (p : Tracker)
    → IsSound max_age p
    → IsSound max_age (create_all detections frame time js p)
unfolding create_all
create_all-IsSound max_age detections frame time [] p h = h
create_all-IsSound max_age detections frame time (j ∷ js) p h =
    elim (Option-cases (entry_at j detections)) [
      | inl e ↦ rw e (create_all-IsSound max_age detections frame time js p h)
      | inr (d, e) ↦ rw e (
          create_all-IsSound max_age detections frame time js (create_new_track d frame time p)
            (create_new_track-IsSound max_age d frame time p h))
    ]

pub update_tracker-IsSound :
    (config : TrackingConfig) (p : Tracker) (detections : List ℕ) (frame time : ℕ)
    → IsSound config.max_age p
    → IsSound config.max_age (update_tracker config p detections frame time)
unfolding update_tracker IsTable
update_tracker-IsSound config p [] frame time h =
    let r =
      age_all-IsTable p.next_id config.max_age (keys p.tracked_objects) p.tracked_objects
        (h.once, h.tracks) in
    record { once = r.0; tracks = r.1 }
update_tracker-IsSound config p (d ∷ ds) frame time h =
    let m = match_detections_to_tracks config p.tracked_objects (d ∷ ds) in
    let added =
      add_matched (keys p.tracked_objects) (d ∷ ds) frame time m.assigned p.tracked_objects in
    let r = age_all-IsTable p.next_id config.max_age m.unmatched_track_ids added (
      add_matched-IsTable p.next_id config.max_age (keys p.tracked_objects) (d ∷ ds) frame time
        m.assigned p.tracked_objects (h.once, h.tracks)) in
    create_all-IsSound config.max_age (d ∷ ds) frame time m.unmatched_det_indices
      (record p { tracked_objects = age_all config.max_age m.unmatched_track_ids added })
      (record { once = r.0; tracks = r.1 })

pub data Call : Type 0 where
  updates : List ℕ → ℕ → ℕ → Call
  resets : Call

unfoldable pub call : TrackingConfig → Tracker → Call → Tracker
call config p (updates detections frame time) = update_tracker config p detections frame time
call config p resets = reset p

unfoldable pub run : TrackingConfig → Tracker → List Call → Tracker
run config p [] = p
run config p (c ∷ cs) = run config (call config p c) cs

run-IsSound :
    (config : TrackingConfig) (p : Tracker) (cs : List Call)
    → IsSound config.max_age p
    → IsSound config.max_age (run config p cs)
unfolding run call reset
run-IsSound config p [] h = h
run-IsSound config p (updates detections frame time ∷ cs) h =
    run-IsSound config (update_tracker config p detections frame time) cs
      (update_tracker-IsSound config p detections frame time h)
run-IsSound config p (resets ∷ cs) h =
    run-IsSound config (reset p) cs (record { once = tt; tracks = tt })

-- Whatever frames a new tracker is given, each id stands for one track, is below the next id to be
-- issued and is the one written in the track; no track is kept that was missing for more than
-- `max_age` frames; and every track holds at least one and at most 30 detections and at most 100
-- points of its trajectory.
pub run-init-IsSound :
    (config : TrackingConfig) (cs : List Call) → IsSound config.max_age (run config init cs)
unfolding init
run-init-IsSound config cs = run-IsSound config init cs (record { once = tt; tracks = tt })

-- Every track of a tracker counts as active, whether or not it is lost: the last detection of a
-- lost track is still its current one.
keep-active :
    (next max_age : ℕ) (m : Dict TrackedObject)
    → All (IsTrack next max_age) m
    → get_active_objects (values m) ≡ values m
unfolding get_active_objects current_detection
keep-active next max_age [] h = refl
keep-active next max_age ((k, t) ∷ m) h =
    ground (arith, keep-active next max_age m h.1, last_some t.detections h.0.seen)

-- In every state that a new tracker reaches, `get_active_objects` answers all its objects: a lost
-- track keeps its last detection as the current one, so it is counted as active too.
pub get_active_objects-run :
    (config : TrackingConfig) (cs : List Call)
    → let objects = values (run config init cs).tracked_objects in
      get_active_objects objects ≡ objects
get_active_objects-run config cs =
    let p = run config init cs in
    keep-active p.next_id config.max_age p.tracked_objects (run-init-IsSound config cs).tracks
