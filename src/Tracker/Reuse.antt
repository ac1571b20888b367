-- ===== src/Tracker/Reuse.antt =====
-- inference/tracker.py over frames with no reset in between: what becomes of the ids.

-- Frames `(detections, frame, time)` in their order.
use omnitrack_ai_platform.Prelude.{
  ℕ, ◌≤◌, ◌<◌, ◌≡◌, refl, ◌∙◌, ◌⊎◌, inl, inr, Bool, true, false, ◌||◌, some, List, [], ◌∷◌, arith,
  dec_lt, ◌==◌,
}
use omnitrack_ai_platform.Prelude.Dict.{lookup}
use omnitrack_ai_platform.Tracker.{TrackedObject, Tracker, TrackingConfig, init, update_tracker}
use omnitrack_ai_platform.Tracker.Identity.{All-lookup, IsSound, IsTrack}
use omnitrack_ai_platform.Tracker.Sound.{Call, run, run-init-IsSound, update_tracker-IsSound}
use omnitrack_ai_platform.Tracker.Origin.{update_tracker-IsContinued}

unfoldable pub after_frames : TrackingConfig → Tracker → List (List ℕ × ℕ × ℕ) → Tracker
after_frames config p [] = p
after_frames config p ((ds, frame, time) ∷ fs) =
    after_frames config (update_tracker config p ds frame time) fs

-- One of the frames has the number.
unfoldable pub has_frame : ℕ → List (List ℕ × ℕ × ℕ) → Bool
has_frame n [] = false
has_frame n ((ds, frame, time) ∷ fs) = (n == frame) || has_frame n fs

-- What is said of a track after the frames from `p` on.
abbrev Comes : Tracker → List (List ℕ × ℕ × ℕ) → ℕ → TrackedObject → Type 0
Comes p fs id t =
    ((u : TrackedObject) × (id < p.next_id)
      × (lookup id p.tracked_objects ≡ some u)
      × (t.first_seen_frame ≡ u.first_seen_frame))
    ⊎ ((p.next_id ≤ id) × (has_frame t.first_seen_frame fs ≡ true))

after_frames-Comes :
    (config : TrackingConfig) (p : Tracker) (fs : List (List ℕ × ℕ × ℕ)) (id : ℕ)
    (t : TrackedObject)
    → IsSound config.max_age p
    → lookup id (after_frames config p fs).tracked_objects ≡ some t
    → Comes p fs id t
unfolding after_frames has_frame
after_frames-Comes config p [] id t h a =
    let below = (All-lookup (IsTrack p.next_id config.max_age) id p.tracked_objects t h.tracks a) in
    inl (t, below.issued, a, refl)
after_frames-Comes config p ((ds, frame, time) ∷ fs) id t h a =
    let q = update_tracker config p ds frame time in
    let c = update_tracker-IsContinued config p ds frame time h in
    let le = c.grows in
    elim (after_frames-Comes config q fs id t (update_tracker-IsSound config p ds frame time h) a) [
      | inl (u, lt, b, e) ↦ elim (dec_lt id p.next_id) [
        | yes old ↦ (let (v, k, f) = c.old id u old b in inl (v, old, k, e ∙ f))
        | no new ↦
            let first = c.new id u (omega arith) b in inr (omega arith, ground (arith, e ∙ first))
      ]
      | inr (ge, later) ↦ inr (omega arith, ground (arith, later))
    ]

-- After any calls on a new tracker, resets among them, take any frames with no reset in between. A
-- track that is kept after them either has an id below the next one at their start, issued since the
-- last reset, and then it stood under this id already, first seen in the same frame; or its id is a
-- later one, and it is first seen in one of these frames. So between two resets no id is given to
-- another object, also when its track is dropped.
pub ids_not_reused :
    (config : TrackingConfig) (cs : List Call) (fs : List (List ℕ × ℕ × ℕ)) (id : ℕ)
    (t : TrackedObject)
    → let p = run config init cs in
      lookup id (after_frames config p fs).tracked_objects ≡ some t
      → ((u : TrackedObject) × (id < p.next_id)
          × (lookup id p.tracked_objects ≡ some u)
          × (t.first_seen_frame ≡ u.first_seen_frame))
        ⊎ ((p.next_id ≤ id) × (has_frame t.first_seen_frame fs ≡ true))
ids_not_reused config cs fs id t a =
    after_frames-Comes config (run config init cs) fs id t (run-init-IsSound config cs) a
