-- ===== src/Tracker/Origin.antt =====
-- Where the tracks of inference/tracker.py come from: what one frame keeps and what it creates.

-- Each entry of the second table stands in the first under its id, first seen in the same frame.
use omnitrack_ai_platform.Prelude.{
  ℕ, ◌≤◌, ◌<◌, ◌≡◌, refl, sym, ap, ◌∙◌, inl, inr, some, List, [], ◌∷◌, arith, ltb, ◌==◌, Bool-cases,
  Option-cases,
}
use omnitrack_ai_platform.Prelude.Dict.{Dict, lookup, erase, keys, lookup-insert, lookup-erase}
use omnitrack_ai_platform.Tracker.{TrackedObject}
use omnitrack_ai_platform.Tracker.{age, change, mark_disappeared}
use omnitrack_ai_platform.Tracker.Identity.{age_absent, age_old, age_young}
use omnitrack_ai_platform.Tracker.{
  Pair, Tracker, TrackingConfig, add_detection, add_matched, age_all, create_all, create_new_track,
  entry_at, match_detections_to_tracks, update_tracker,
}
use omnitrack_ai_platform.Tracker.Identity.{All-lookup, IsSound, IsTrack, lookup-change}
use omnitrack_ai_platform.Tracker.Sound.{add_one}

IsKept : Dict TrackedObject → Dict TrackedObject → Type 0
IsKept m n =
    (q : ℕ) (t : TrackedObject)
    → lookup q n ≡ some t
    → (u : TrackedObject) × (lookup q m ≡ some u) × (t.first_seen_frame ≡ u.first_seen_frame)

IsKept-refl : (m : Dict TrackedObject) → IsKept m m
unfolding IsKept
IsKept-refl m q t h = (t, h, refl)

IsKept-trans : (l m n : Dict TrackedObject) → IsKept l m → IsKept m n → IsKept l n
unfolding IsKept
IsKept-trans l m n h k q t a = let (u, b, e) = k q t a in let (v, c, f) = h q u b in (v, c, e ∙ f)

change-IsKept :
    (id : ℕ) (f : TrackedObject → TrackedObject) (m : Dict TrackedObject)
    → ((t : TrackedObject) → (f t).first_seen_frame ≡ t.first_seen_frame)
    → IsKept m (change id f m)
unfolding IsKept
change-IsKept id f m same q t h = elim (Option-cases (lookup q m)) [
  | inl e ↦ absurd (ground (arith, lookup-change q id f m))
  | inr (u, e) ↦ elim (Bool-cases (q == id)) [
    | inl b ↦
        let k : some (f u) ≡ some t = ground (arith, lookup-change q id f m) in
        let j : f u ≡ t = cc in (u, e, ap (λ v. v.first_seen_frame) (sym j) ∙ same u)
    | inr b ↦
        let k : some u ≡ some t = ground (arith, lookup-change q id f m) in
        let j : u ≡ t = cc in (u, e, ap (λ v. v.first_seen_frame) (sym j))
  ]
]

erase-IsKept : (id : ℕ) (m : Dict TrackedObject) → IsKept m (erase id m)
unfolding IsKept
erase-IsKept id m q t h = (t, ground (arith, lookup-erase q id m), refl)

mark_disappeared-first :
    (t : TrackedObject) → (mark_disappeared t).first_seen_frame ≡ t.first_seen_frame
unfolding mark_disappeared
mark_disappeared-first t = refl

add_detection-first :
    (d frame time : ℕ) (t : TrackedObject)
    → (add_detection d frame time t).first_seen_frame ≡ t.first_seen_frame
unfolding add_detection
add_detection-first d frame time t = refl

age-IsKept : (max_age id : ℕ) (m : Dict TrackedObject) → IsKept m (age max_age id m)
age-IsKept max_age id m = elim (Option-cases (lookup id m)) [
  | inl none_e ↦ rw (age_absent max_age id m none_e) (IsKept-refl m)
  | inr (t, e) ↦ elim (Bool-cases (ltb t.times_disappeared max_age)) [
    | inl lt ↦
        rw (age_young max_age id m t e (ground arith))
          (change-IsKept id mark_disappeared m mark_disappeared-first)
    | inr ge ↦ rw (age_old max_age id m t e (ground arith)) (erase-IsKept id m)
  ]
]

age_all-IsKept :
    (max_age : ℕ) (ids : List ℕ) (m : Dict TrackedObject) → IsKept m (age_all max_age ids m)
unfolding age_all
age_all-IsKept max_age [] m = IsKept-refl m
age_all-IsKept max_age (id ∷ ids) m =
    IsKept-trans m (age max_age id m) (age_all max_age ids (age max_age id m))
      (age-IsKept max_age id m) (age_all-IsKept max_age ids (age max_age id m))

add_one-IsKept :
    (ids detections : List ℕ) (frame time : ℕ) (p : Pair) (m : Dict TrackedObject)
    → IsKept m (add_one ids detections frame time p m)
unfolding add_one
add_one-IsKept ids detections frame time p m = elim (Option-cases (entry_at p.track_idx ids)) [
  | inl e ↦ rw (add_one, e) (IsKept-refl m)
  | inr (id, e) ↦ elim (Option-cases (entry_at p.det_idx detections)) [
    | inl k ↦ rw (add_one, e, k) (IsKept-refl m)
    | inr (d, k) ↦
        rw (add_one, e, k)
          (change-IsKept id (add_detection d frame time) m (add_detection-first d frame time))
  ]
]

add_matched-IsKept :
    (ids detections : List ℕ) (frame time : ℕ) (ps : List Pair) (m : Dict TrackedObject)
    → IsKept m (add_matched ids detections frame time ps m)
unfolding add_matched add_one
add_matched-IsKept ids detections frame time [] m = IsKept-refl m
add_matched-IsKept ids detections frame time (p ∷ ps) m =
    let n = add_one ids detections frame time p m in
    IsKept-trans m n (add_matched ids detections frame time ps n)
      (add_one-IsKept ids detections frame time p m)
      (add_matched-IsKept ids detections frame time ps n)

-- The tracks of `q` whose id is old are those of `p`, and the others are first seen in this frame.
pub record IsContinued (frame : ℕ) (p q : Tracker) : Type 0 where
  pub grows : p.next_id ≤ q.next_id
  pub old :
      (id : ℕ) (t : TrackedObject)
      → id < p.next_id
      → lookup id q.tracked_objects ≡ some t
      → (u : TrackedObject) × (lookup id p.tracked_objects ≡ some u)
        × (t.first_seen_frame ≡ u.first_seen_frame)
  pub new :
      (id : ℕ) (t : TrackedObject)
      → p.next_id ≤ id
      → lookup id q.tracked_objects ≡ some t
      → t.first_seen_frame ≡ frame

abbrev fresh : ℕ → ℕ → TrackedObject
fresh frame id = record {
  track_id = id;
  detections = [];
  trajectory_points = [];
  first_seen_frame = frame;
  last_seen_frame = frame;
  times_disappeared = 0;
}

create_new_track-IsContinued :
    (d frame time : ℕ) (p q : Tracker)
    → IsContinued frame p q
    → IsContinued frame p (create_new_track d frame time q)
unfolding create_new_track add_detection
create_new_track-IsContinued d frame time p q h = record {
  grows = let le = h.grows in omega arith;
  old = λ id t lt a.
      let le = h.grows in
      h.old id t lt (
        ground (
          arith,
          lookup-insert id q.next_id (add_detection d frame time (fresh frame q.next_id))
              q.tracked_objects,
        ));
  new = λ id t le a. elim (Bool-cases (id == q.next_id)) [
    | inl e ↦
        let k : some (add_detection d frame time (fresh frame q.next_id)) ≡ some t = ground (
          arith,
          lookup-insert id q.next_id (add_detection d frame time (fresh frame q.next_id))
              q.tracked_objects,
        ) in
        let j : add_detection d frame time (fresh frame q.next_id) ≡ t = cc in
        ap (λ v. v.first_seen_frame) (sym j)
    | inr e ↦ h.new id t le (
        ground (
          arith,
          lookup-insert id q.next_id (add_detection d frame time (fresh frame q.next_id))
              q.tracked_objects,
        ))
  ];
}

create_all-IsContinued :
    (detections : List ℕ) (frame time : ℕ) (js : List ℕ) (p q : Tracker)
    → IsContinued frame p q
    → IsContinued frame p (create_all detections frame time js q)
unfolding create_all
create_all-IsContinued detections frame time [] p q h = h
create_all-IsContinued detections frame time (j ∷ js) p q h =
    elim (Option-cases (entry_at j detections)) [
      | inl e ↦ rw e (create_all-IsContinued detections frame time js p q h)
      | inr (d, e) ↦ rw e (
          create_all-IsContinued detections frame time js p (create_new_track d frame time q)
            (create_new_track-IsContinued d frame time p q h))
    ]

-- A table that only keeps tracks, with every id below the next one.
kept-IsContinued :
    (max_age frame : ℕ) (p : Tracker) (m : Dict TrackedObject)
    → IsSound max_age p
    → IsKept p.tracked_objects m
    → IsContinued frame p (record p { tracked_objects = m })
unfolding IsKept
kept-IsContinued max_age frame p m s h = record {
  grows = omega arith;
  old = λ id t lt a. h id t a;
  new = λ id t le a.
      let (u, b, e) = h id t a in
      let lt = (All-lookup (IsTrack p.next_id max_age) id p.tracked_objects u s.tracks b).issued in
      absurd (omega arith);
}

pub update_tracker-IsContinued :
    (config : TrackingConfig) (p : Tracker) (detections : List ℕ) (frame time : ℕ)
    → IsSound config.max_age p
    → IsContinued frame p (update_tracker config p detections frame time)
unfolding update_tracker
update_tracker-IsContinued config p [] frame time h =
    kept-IsContinued config.max_age frame p
      (age_all config.max_age (keys p.tracked_objects) p.tracked_objects) h
      (age_all-IsKept config.max_age (keys p.tracked_objects) p.tracked_objects)
update_tracker-IsContinued config p (d ∷ ds) frame time h =
    let m = match_detections_to_tracks config p.tracked_objects (d ∷ ds) in
    let added =
      add_matched (keys p.tracked_objects) (d ∷ ds) frame time m.assigned p.tracked_objects in
    let aged = age_all config.max_age m.unmatched_track_ids added in
    create_all-IsContinued (d ∷ ds) frame time m.unmatched_det_indices p
      (record p { tracked_objects = aged })
      (kept-IsContinued config.max_age frame p aged h (
        IsKept-trans p.tracked_objects added aged
          (add_matched-IsKept (keys p.tracked_objects) (d ∷ ds) frame time m.assigned
            p.tracked_objects)
          (age_all-IsKept config.max_age m.unmatched_track_ids added)))
