-- ===== src/Recording/Segments.antt =====
-- The segments of a stream in backend/recording/manager.py, and the bound of its queue.
use omnitrack_ai_platform.Prelude.{
  ℕ, ◌≤◌, ◌≡◌, refl, ap, ◌∙◌, inl, inr, Bool, true, false, Option, none, some, List, [], ◌∷◌, map,
  arith, ltb, ◌==◌, Bool-cases, length, length-append,
}
use omnitrack_ai_platform.Recording.{
  Recorder, Recording, start, stop, push_frame, trigger_event, drain, switch_segment, complete,
  capacity,
}
use omnitrack_ai_platform.Recording.{init}

pub data Call : Type 0 where
  starts : ℕ → Call
  stops drains : Call
  pushes : ℕ → ℕ → Call
  triggers : ℕ → ℕ → ℕ → ℕ → Call

unfoldable pub call : Call → Recorder → Recorder
unfolding start stop push_frame trigger_event drain
call (starts id) r = start id r
call stops r = stop r
call drains r = drain r
call (pushes max_pre f) r = push_frame max_pre f r
call (triggers max_pre now id event) r = trigger_event max_pre now id event r

unfoldable pub run : List Call → Recorder → Recorder
unfolding call
run [] r = r
run (x ∷ xs) r = run xs (call x r)

-- The recorder has begun its one recording, under `id`.
abbrev IsBegun : ℕ → Recorder → Type 0
IsBegun id r =
    (r.active_recording ≡ some id)
    × (map (λ rec. rec.id) r.recordings ≡ id ∷ [])
    × (length r.frame_queue ≤ capacity)

ids-complete :
    (id now : ℕ) (rs : List Recording)
    → map (λ rec. rec.id) (map (complete id now) rs) ≡ map (λ rec. rec.id) rs
ids-complete id now [] = refl
ids-complete id now (rec ∷ rs) = elim (Bool-cases (rec.id == id)) [
  | inl e ↦ rw e (ap (λ t. rec.id ∷ t) (ids-complete id now rs))
  | inr e ↦ rw e (ap (λ t. rec.id ∷ t) (ids-complete id now rs))
]

call-IsBegun : (id : ℕ) (x : Call) (r : Recorder) → IsBegun id r → IsBegun id (call x r)
unfolding call start stop push_frame trigger_event drain switch_segment
call-IsBegun id (starts k) r h = rw (h.0, start) h
call-IsBegun id stops r h = (h.0, h.1, ground (arith, h.2, length-append r.frame_queue (none ∷ [])))
call-IsBegun id drains r h = by_queue r.running r.frame_queue h.2
  where
    by_queue :
        (b : Bool) (q : List (Option ℕ))
        → length q ≤ capacity
        → IsBegun id (drain (record r { running = b; frame_queue = q }))
    by_queue false q le = (h.0, h.1, le)
    by_queue true [] le = (h.0, h.1, le)
    by_queue true (none ∷ fs) le = (h.0, h.1, omega arith)
    by_queue true (some f ∷ fs) le = (h.0, h.1, omega arith)
call-IsBegun id (pushes max_pre f) r h = by_active r.running r.active_recording h.0
  where
    by_active :
        (b : Bool) (a : Option ℕ)
        → a ≡ some id
        → IsBegun id (push_frame max_pre f (record r { running = b; active_recording = a }))
    by_active false a e = (e, h.1, h.2)
    by_active true none e = absurd cc
    by_active true (some k) e = elim (Bool-cases (ltb (length r.frame_queue) capacity)) [
      | inl room ↦ rw room (e, h.1, ground (arith, room, length-append r.frame_queue (some f ∷ [])))
      | inr full ↦ rw full (e, h.1, h.2)
    ]
call-IsBegun id (triggers max_pre now k event) r h = by_active r.running r.active_recording h.0
  where
    by_active :
        (b : Bool) (a : Option ℕ)
        → a ≡ some id
        → IsBegun id
            (trigger_event max_pre now k event (record r { running = b; active_recording = a }))
    by_active false a e = (e, h.1, h.2)
    by_active true none e = absurd cc
    by_active true (some old) e = (e, ids-complete old now r.recordings ∙ h.1, h.2)

run-IsBegun : (id : ℕ) (xs : List Call) (r : Recorder) → IsBegun id r → IsBegun id (run xs r)
unfolding run
run-IsBegun id [] r h = h
run-IsBegun id (x ∷ xs) r h = run-IsBegun id xs (call x r) (call-IsBegun id x r h)

-- Whatever is called on a recorder after its start, events and further starts included, it has the one
-- recording that the start made, which stays the active one, so that an event begins no new segment;
-- and the queue holds at most 120 entries.
pub one_segment :
    (id : ℕ) (xs : List Call)
    → let r = run xs (start id init) in
      (map (λ rec. rec.id) r.recordings ≡ id ∷ [])
      × (r.active_recording ≡ some id)
      × (length r.frame_queue ≤ capacity)
unfolding start init
one_segment id xs =
    let h = run-IsBegun id xs (start id init) (refl, refl, omega arith) in (h.1, h.0, h.2)
