-- ===== src/Scheduler/Steps.antt =====
-- The threads of backend/scheduler.py as one step relation: any of them makes its next critical
-- section, in any order.
use omnitrack_ai_platform.Prelude.{
  ℕ, ◌<◌, ◌≡◌, refl, Bool, true, false, Option, none, some, List, [], ◌∷◌, arith, is_some, length,
}
use omnitrack_ai_platform.Prelude.Dict.{lookup}
use omnitrack_ai_platform.Scheduler.{Scheduler}
use omnitrack_ai_platform.Scheduler.{
  Flight, Job, Owner, finish, pickup, queue_job, queues, register, run_one, skips, starts, stop,
  submit_attempt, unregister, unregister_waits,
}
use omnitrack_ai_platform.Scheduler.{Pickup, exits, sleeps}
use omnitrack_ai_platform.Scheduler.{take_newest}

-- A submitter goes on with a channel that it has looked up before, under the stream's own name; a
-- worker picks up only between two frames; `unregister` passes its loop when the test fails, with
-- the deadline passing at any time.
pub data Step : Scheduler → Scheduler → Type 0 where
  registers : (p : Scheduler) (s : ℕ) (owner : Option Owner) → Step p (register p s owner)
  submits :
      (p : Scheduler) (o : ℕ) (job : Job) {q : Scheduler}
      → o < p.next_object
      → submit_attempt p o (p.objects o).stream_id job ≡ queues q
      → Step p q
  unregisters :
      (p : Scheduler) (s : ℕ) (found : Option ℕ) (past_deadline : Bool)
      → unregister_waits p found past_deadline ≡ false
      → Step p (unregister p s)
  stops : (p : Scheduler) → Step p (stop p)
  passes :
      (p : Scheduler) (w : ℕ) {q : Scheduler}
      → w < p.num_workers
      → p.running w ≡ none
      → pickup p w ≡ skips q
      → Step p q
  picks :
      (p : Scheduler) (w : ℕ) {q : Scheduler}
      → w < p.num_workers
      → p.running w ≡ none
      → pickup p w ≡ starts q
      → Step p q
  processes :
      (p : Scheduler) (w : ℕ) (f : Flight) (outcome : Option ℕ)
      → p.running w ≡ some f
      → Step p (run_one p f.stream outcome)
  finishes :
      (p : Scheduler) (w : ℕ) (f : Flight)
      → w < p.num_workers
      → p.running w ≡ some f
      → Step p (finish p w f)

pub data Reach (p : Scheduler) : Scheduler → Type 0 where
  here : Reach p p
  next : {q r : Scheduler} → Reach p q → Step q r → Reach p r

-- What is left of a queueing attempt.
pub submit_attempt-queues :
    (p : Scheduler) (o s : ℕ) (job : Job) {q : Scheduler}
    → submit_attempt p o s job ≡ queues q
    → (q ≡ queue_job p o s job)
      × (length (p.objects o).pending < (p.objects o).capacity)
      × (p.stopping ≡ false)
      × (is_some (lookup s p.channels) ≡ true)
unfolding submit_attempt
submit_attempt-queues p o s job h = ground arith

-- The scheduler that a pick-up leaves, if it leaves one.
abbrev pub After {ℓ} : (Scheduler → Type ℓ) → Pickup → Type ℓ
After P sleeps = Unit
After P exits = Unit
After P (skips q) = P q
After P (starts q) = P q

-- A pick-up finds nothing only in an empty queue.
pub take_newest-none : (js : List Job) → take_newest js ≡ none → length js ≡ 0
unfolding take_newest
take_newest-none [] h = refl
take_newest-none (j ∷ []) h = cc
take_newest-none (j ∷ k ∷ js) h = ground (arith, take_newest-none (k ∷ js))
