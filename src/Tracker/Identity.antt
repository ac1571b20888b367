-- ===== src/Tracker/Identity.antt =====
-- The tracks that inference/tracker.py keeps: their ids, ages and bounded histories.

-- A track of the table under its id, issued before `next`.
use omnitrack_ai_platform.Prelude.{
  ℕ, ◌-◌, ◌≤◌, ◌<◌, min, ◌≡◌, refl, subst, inl, inr, true, none, some, List, [], ◌∷◌, ◌++◌, arith,
  ◌==◌, if◌then◌else◌, Bool-cases, is_some, length, last_n, last?, All, length-append, length-drop,
}
use omnitrack_ai_platform.Prelude.Dict.{Dict, lookup, insert, erase, keys, HasOnce}
use omnitrack_ai_platform.Tracker.{TrackedObject}
use omnitrack_ai_platform.Tracker.{Tracker, change}
use omnitrack_ai_platform.Tracker.{TrajectoryPoint, add_detection, age, mark_disappeared}

pub record IsTrack (next max_age : ℕ) (e : ℕ × TrackedObject) : Type 0 where
  pub issued : e.0 < next
  pub named : e.1.track_id ≡ e.0
  pub young : e.1.times_disappeared ≤ max_age
  pub seen : 0 < length e.1.detections
  pub few : length e.1.detections ≤ 30
  pub short : length e.1.trajectory_points ≤ 100

pub record IsSound (max_age : ℕ) (p : Tracker) : Type 0 where
  pub once : HasOnce (keys p.tracked_objects)
  pub tracks : All (IsTrack p.next_id max_age) p.tracked_objects

length-last_n : (n : ℕ) (A : Type 0) (xs : List A) → length (last_n n xs) ≡ min n (length xs)
length-last_n n A xs = omega (arith, length-drop (length xs - n) xs)

pub keys-change :
    (id : ℕ) (f : TrackedObject → TrackedObject) (m : Dict TrackedObject)
    → keys (change id f m) ≡ keys m
unfolding change
keys-change id f [] = refl
keys-change id f ((k, t) ∷ m) = ground (arith, keys-change id f m)

pub lookup-change :
    (q id : ℕ) (f : TrackedObject → TrackedObject) (m : Dict TrackedObject)
    → lookup q (change id f m)
      ≡ (elim (lookup q m) [ none ↦ none | some t ↦ some (if q == id then f t else t) ])
unfolding change lookup
lookup-change q id f [] = refl
lookup-change q id f ((k, u) ∷ m) = ground (arith, lookup-change q id f m)

-- A deleted track is not missed by an earlier change of it.
erase-change :
    (id : ℕ) (f : TrackedObject → TrackedObject) (m : Dict TrackedObject)
    → erase id (change id f m) ≡ erase id m
unfolding change erase
erase-change id f [] = refl
erase-change id f ((k, t) ∷ m) = ground (arith, erase-change id f m)

change_absent :
    (id : ℕ) (f : TrackedObject → TrackedObject) (m : Dict TrackedObject)
    → lookup id m ≡ none
    → change id f m ≡ m
unfolding change lookup
change_absent id f [] h = refl
change_absent id f ((k, t) ∷ m) h = ground (arith, change_absent id f m)

pub All-change :
    (Q : ℕ × TrackedObject → Type 0) (id : ℕ) (f : TrackedObject → TrackedObject)
    (m : Dict TrackedObject)
    → All Q m
    → ((t : TrackedObject) → lookup id m ≡ some t → Q (id, f t))
    → All Q (change id f m)
unfolding change lookup
All-change Q id f [] h g = tt
All-change Q id f ((k, t) ∷ m) h g = elim (Bool-cases (id == k)) [
  | inl e ↦
      let same : id ≡ k = ground arith in rw e (subst (λ j. Q (j, f t)) same (g t (rw e refl)), h.1)
  | inr e ↦ rw e (h.0, All-change Q id f m h.1 (λ u a. g u (rw e a)))
]

pub All-lookup :
    (Q : ℕ × TrackedObject → Type 0) (id : ℕ) (m : Dict TrackedObject) (t : TrackedObject)
    → All Q m
    → lookup id m ≡ some t
    → Q (id, t)
unfolding lookup
All-lookup Q id [] t h a = cc
All-lookup Q id ((k, u) ∷ m) t h a = elim (Bool-cases (id == k)) [
  | inl e ↦
      let same : k ≡ id = ground arith in
      let first : some u ≡ some t = ground arith in
      let u_t : u ≡ t = cc in subst (λ j. Q (j, t)) same (subst (λ v. Q (k, v)) u_t h.0)
  | inr e ↦ All-lookup Q id m t h.1 (ground arith)
]

pub All-erase :
    (Q : ℕ × TrackedObject → Type 0) (id : ℕ) (m : Dict TrackedObject)
    → All Q m
    → All Q (erase id m)
unfolding erase
All-erase Q id [] h = tt
All-erase Q id ((k, t) ∷ m) h = elim (Bool-cases (id == k)) [
  | inl e ↦ rw e (All-erase Q id m h.1)
  | inr e ↦ rw e (h.0, All-erase Q id m h.1)
]

pub All-insert :
    (Q : ℕ × TrackedObject → Type 0) (id : ℕ) (t : TrackedObject) (m : Dict TrackedObject)
    → All Q m
    → Q (id, t)
    → All Q (insert id t m)
unfolding insert
All-insert Q id t [] h k = (k, tt)
All-insert Q id t ((j, u) ∷ m) h k = elim (Bool-cases (id == j)) [
  | inl e ↦ rw e (k, h.1)
  | inr e ↦ rw e (h.0, All-insert Q id t m h.1 k)
]

pub last_some : (xs : List ℕ) → 0 < length xs → is_some (last? xs) ≡ true
last_some [] h = absurd (omega arith)
last_some (x ∷ []) h = refl
last_some (x ∷ y ∷ xs) h = last_some (y ∷ xs) (omega arith)

pub add_detection-IsTrack :
    (next max_age id d frame time : ℕ) (t : TrackedObject)
    → id < next
    → t.track_id ≡ id
    → IsTrack next max_age (id, add_detection d frame time t)
unfolding add_detection
add_detection-IsTrack next max_age id d frame time t h k =
    let point : TrajectoryPoint = record { point_frame = frame; centre_of = d; timestamp = time } in
    record {
      issued = h;
      named = k;
      young = omega arith;
      seen =
          omega (
            arith,
            length-last_n 30 ℕ (t.detections ++ d ∷ []),
            length-append t.detections (d ∷ []),
          );
      few = omega (arith, length-last_n 30 ℕ (t.detections ++ d ∷ []));
      short = omega (arith, length-last_n 100 TrajectoryPoint (t.trajectory_points ++ point ∷ []));
    }

pub mark-IsTrack :
    (next max_age id : ℕ) (t : TrackedObject)
    → IsTrack next max_age (id, t)
    → t.times_disappeared < max_age
    → IsTrack next max_age (id, mark_disappeared t)
unfolding mark_disappeared
mark-IsTrack next max_age id t h lt = record {
  issued = h.issued;
  named = h.named;
  young = omega arith;
  seen = h.seen;
  few = h.few;
  short = h.short;
}

unfoldable pub IsTable : ℕ → ℕ → Dict TrackedObject → Type 0
IsTable next max_age m = HasOnce (keys m) × All (IsTrack next max_age) m

pub age_absent :
    (max_age id : ℕ) (m : Dict TrackedObject) → lookup id m ≡ none → age max_age id m ≡ m
unfolding age
age_absent max_age id m h = ground (arith, change_absent id mark_disappeared m h)

-- One round of step 4, for an id of the table.
pub age_old :
    (max_age id : ℕ) (m : Dict TrackedObject) (t : TrackedObject)
    → lookup id m ≡ some t
    → max_age ≤ t.times_disappeared
    → age max_age id m ≡ erase id m
unfolding age mark_disappeared
age_old max_age id m t h le =
    ground (arith, lookup-change id id mark_disappeared m, erase-change id mark_disappeared m)

pub age_young :
    (max_age id : ℕ) (m : Dict TrackedObject) (t : TrackedObject)
    → lookup id m ≡ some t
    → t.times_disappeared < max_age
    → age max_age id m ≡ change id mark_disappeared m
unfolding age mark_disappeared
age_young max_age id m t h lt = ground (arith, lookup-change id id mark_disappeared m)
