-- ===== src/Tracker/Stable.antt =====
-- inference/tracker.py, _match_detections_to_tracks: the greedy loop over the sorted pairs.

-- What is settled after `p` is assigned is settled before, for what is no shorter.
use omnitrack_ai_platform.Prelude.{
  ℕ, ◌+◌, ◌≤◌, ◌≡◌, refl, sym, subst, inl, inr, true, false, not, ◌&&◌, some, List, [], ◌∷◌, map,
  arith, ltb, Bool-cases, All, mem,
}
use omnitrack_ai_platform.Prelude.Dict.{Dict, HasOnce}
use omnitrack_ai_platform.Tracker.{Pair}
use omnitrack_ai_platform.Tracker.{sort}
use omnitrack_ai_platform.Tracker.{TrackingConfig, assign, distance_pairs, entry_at}
use omnitrack_ai_platform.Tracker.{TrackedObject, centroids, match_detections_to_tracks}
use omnitrack_ai_platform.Tracker.Matching.{
  All-distance_pairs, All-unsort, All-weaken, IsSettled, IsSorted, is_covered, is_settled,
  sort-IsSorted,
}

settled-assigned :
    (threshold : ℕ) (tracks dets : List ℕ) (out : List Pair) (p q : Pair)
    → p.length_of ≤ q.length_of
    → is_settled threshold (p.track_idx ∷ tracks) (p.det_idx ∷ dets) out q ≡ true
    → is_settled threshold tracks dets (p ∷ out) q ≡ true
unfolding is_settled is_covered mem
settled-assigned threshold tracks dets out p q le h = ground arith

All-settled_assigned :
    (threshold : ℕ) (tracks dets : List ℕ) (out : List Pair) (p : Pair) (qs : List Pair)
    → All (λ q. p.length_of ≤ q.length_of) qs
    → All (λ q. is_settled threshold (p.track_idx ∷ tracks) (p.det_idx ∷ dets) out q ≡ true) qs
    → All (λ q. is_settled threshold tracks dets (p ∷ out) q ≡ true) qs
All-settled_assigned threshold tracks dets out p [] h k = tt
All-settled_assigned threshold tracks dets out p (q ∷ qs) h k = (
  settled-assigned threshold tracks dets out p q h.0 k.0,
  All-settled_assigned threshold tracks dets out p qs h.1 k.1,
)

settled_far :
    (threshold : ℕ) (tracks dets : List ℕ) (p q : Pair)
    → ltb threshold p.length_of ≡ true
    → p.length_of ≤ q.length_of
    → is_settled threshold tracks dets [] q ≡ true
unfolding is_settled
settled_far threshold tracks dets p q far le =
    let e : ltb threshold q.length_of ≡ true = ground arith in rw e

settled-near :
    (threshold : ℕ) (out : List Pair) (p : Pair)
    → p.length_of ≤ threshold
    → is_settled threshold [] [] out p ≡ true
    → is_covered p out ≡ true
unfolding is_settled mem
settled-near threshold out p le h = ground arith

settled_self :
    (threshold : ℕ) (tracks dets : List ℕ) (out : List Pair) (p : Pair)
    → is_settled threshold tracks dets (p ∷ out) p ≡ true
unfolding is_settled is_covered
settled_self threshold tracks dets out p = ground arith

settled_taken :
    (threshold : ℕ) (tracks dets : List ℕ) (out : List Pair) (p : Pair)
    → (not (mem p.track_idx tracks) && not (mem p.det_idx dets)) ≡ false
    → is_settled threshold tracks dets out p ≡ true
unfolding is_settled
settled_taken threshold tracks dets out p h = ground arith

assign_far :
    (threshold : ℕ) (tracks dets : List ℕ) (p : Pair) (ps : List Pair)
    → ltb threshold p.length_of ≡ true
    → assign threshold tracks dets (p ∷ ps) ≡ []
unfolding assign
assign_far threshold tracks dets p ps h = rw h

assign_free :
    (threshold : ℕ) (tracks dets : List ℕ) (p : Pair) (ps : List Pair)
    → ltb threshold p.length_of ≡ false
    → (not (mem p.track_idx tracks) && not (mem p.det_idx dets)) ≡ true
    → assign threshold tracks dets (p ∷ ps)
      ≡ p ∷ assign threshold (p.track_idx ∷ tracks) (p.det_idx ∷ dets) ps
unfolding assign
assign_free threshold tracks dets p ps h k = rw (h, k)

assign_taken :
    (threshold : ℕ) (tracks dets : List ℕ) (p : Pair) (ps : List Pair)
    → ltb threshold p.length_of ≡ false
    → (not (mem p.track_idx tracks) && not (mem p.det_idx dets)) ≡ false
    → assign threshold tracks dets (p ∷ ps) ≡ assign threshold tracks dets ps
unfolding assign
assign_taken threshold tracks dets p ps h k = rw (h, k)

All-assign :
    (threshold : ℕ) (tracks dets : List ℕ) (ps : List Pair)
    → IsSorted ps
    → All (IsSettled threshold tracks dets (assign threshold tracks dets ps)) ps
unfolding IsSorted
All-assign threshold tracks dets [] h = tt
All-assign threshold tracks dets (p ∷ ps) h = elim (Bool-cases (ltb threshold p.length_of)) [
  | inl far ↦
      subst (λ out. All (IsSettled threshold tracks dets out) (p ∷ ps))
        (sym (assign_far threshold tracks dets p ps far))
        (
          settled_far threshold tracks dets p p far (omega arith),
          All-weaken (λ q. p.length_of ≤ q.length_of) (IsSettled threshold tracks dets []) ps
              (λ q le. settled_far threshold tracks dets p q far le) h.0,
        )
  | inr near ↦ elim (Bool-cases (not (mem p.track_idx tracks) && not (mem p.det_idx dets))) [
    | inl free ↦
        let out = assign threshold (p.track_idx ∷ tracks) (p.det_idx ∷ dets) ps in
        subst (λ out. All (IsSettled threshold tracks dets out) (p ∷ ps))
          (sym (assign_free threshold tracks dets p ps near free))
          (
            settled_self threshold tracks dets out p,
            All-settled_assigned threshold tracks dets out p ps h.0
                (All-assign threshold (p.track_idx ∷ tracks) (p.det_idx ∷ dets) ps h.1),
          )
    | inr taken ↦
        subst (λ out. All (IsSettled threshold tracks dets out) (p ∷ ps))
          (sym (assign_taken threshold tracks dets p ps near taken))
          (
            settled_taken threshold tracks dets (assign threshold tracks dets ps) p taken,
            All-assign threshold tracks dets ps h.1,
          )
  ]
]

-- A track and a detection within the threshold are passed over only for a pair that is no longer
-- and that takes the track or the detection: with `d` the centre of track `i` and `e` that of
-- detection `j`, some assigned pair is at most as long and shares `i` or `j`.
pub match_stable :
    (config : TrackingConfig) (m : Dict TrackedObject) (detections : List ℕ) (i j d e : ℕ)
    → entry_at i (centroids m) ≡ some d
    → entry_at j detections ≡ some e
    → config.distance d e ≤ config.centroid_distance_threshold
    → is_covered
        (record { length_of = config.distance d e; track_idx = i; det_idx = j })
        (match_detections_to_tracks config m detections).assigned
      ≡ true
unfolding match_detections_to_tracks
match_stable config m detections i j d e a b near =
    let pairs = distance_pairs config 0 (centroids m) detections in
    let out = assign config.centroid_distance_threshold [] [] (sort pairs) in
    let P = IsSettled config.centroid_distance_threshold [] [] out in
    let settled =
      All-unsort P pairs
        (All-assign config.centroid_distance_threshold [] [] (sort pairs) (sort-IsSorted pairs)) in
    let n : 0 + i ≡ i = omega arith in
    settled-near config.centroid_distance_threshold out
      (record { length_of = config.distance d e; track_idx = i; det_idx = j }) near
      (subst (λ k. P (record { length_of = config.distance d e; track_idx = k; det_idx = j })) n
        (All-distance_pairs P config 0 i j d e (centroids m) detections settled a b))

mem-assign_track :
    (x threshold : ℕ) (tracks dets : List ℕ) (ps : List Pair)
    → mem x tracks ≡ true
    → mem x (map (λ p. p.track_idx) (assign threshold tracks dets ps)) ≡ false
unfolding assign mem
mem-assign_track x threshold tracks dets [] h = refl
mem-assign_track x threshold tracks dets (p ∷ ps) h = ground (
  arith,
  mem-assign_track x threshold tracks dets ps h,
  mem-assign_track x threshold (p.track_idx ∷ tracks) (p.det_idx ∷ dets) ps,
)

mem-assign_det :
    (x threshold : ℕ) (tracks dets : List ℕ) (ps : List Pair)
    → mem x dets ≡ true
    → mem x (map (λ p. p.det_idx) (assign threshold tracks dets ps)) ≡ false
unfolding assign mem
mem-assign_det x threshold tracks dets [] h = refl
mem-assign_det x threshold tracks dets (p ∷ ps) h = ground (
  arith,
  mem-assign_det x threshold tracks dets ps h,
  mem-assign_det x threshold (p.track_idx ∷ tracks) (p.det_idx ∷ dets) ps,
)

mem_head : (x : ℕ) (xs : List ℕ) → mem x (x ∷ xs) ≡ true
unfolding mem
mem_head x xs = ground arith

abbrev pub IsMatching : ℕ → List Pair → Type 0
IsMatching threshold ps =
    HasOnce (map (λ p. p.track_idx) ps)
    × (HasOnce (map (λ p. p.det_idx) ps) × All (λ p. p.length_of ≤ threshold) ps)

assign-IsMatching :
    (threshold : ℕ) (tracks dets : List ℕ) (ps : List Pair)
    → IsMatching threshold (assign threshold tracks dets ps)
unfolding assign
assign-IsMatching threshold tracks dets [] = (tt, (tt, tt))
assign-IsMatching threshold tracks dets (p ∷ ps) =
    let taken = assign-IsMatching threshold (p.track_idx ∷ tracks) (p.det_idx ∷ dets) ps in
    elim (Bool-cases (ltb threshold p.length_of)) [
      | inl far ↦ rw far (tt, (tt, tt))
      | inr near ↦ elim (Bool-cases (not (mem p.track_idx tracks) && not (mem p.det_idx dets))) [
        | inl free ↦
            rw (near, free)
              (
                (
                  mem-assign_track p.track_idx threshold (p.track_idx ∷ tracks) (p.det_idx ∷ dets)
                      ps (mem_head p.track_idx tracks),
                  taken.0,
                ),
                (
                  (
                    mem-assign_det p.det_idx threshold (p.track_idx ∷ tracks) (p.det_idx ∷ dets) ps
                        (mem_head p.det_idx dets),
                    taken.1.0,
                  ),
                  (ground arith, taken.1.1),
                ),
              )
        | inr held ↦ rw (near, held) (assign-IsMatching threshold tracks dets ps)
      ]
    ]

-- No track and no detection is matched twice, and no pair is farther apart than the threshold.
match-IsMatching :
    (config : TrackingConfig) (m : Dict TrackedObject) (detections : List ℕ)
    → IsMatching config.centroid_distance_threshold
        (match_detections_to_tracks config m detections).assigned
unfolding match_detections_to_tracks
match-IsMatching config m detections =
    assign-IsMatching config.centroid_distance_threshold [] []
      (sort (distance_pairs config 0 (centroids m) detections))
