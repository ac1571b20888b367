-- ===== src/Scheduler/Stopping.antt =====
-- What a pick-up takes, and how backend/scheduler.py runs down after `stop`.

-- A pick-up takes the newest queued job and counts all others as dropped; it takes none exactly
-- from an empty queue.
use omnitrack_ai_platform.Prelude.{
  ℕ, ◌+◌, ◌≤◌, ◌≡◌, refl, ap, subst, ◌⊎◌, inl, inr, true, Option, none, some, List, [], ◌∷◌, ◌++◌,
  arith, ℕ_discrete, length, update,
}
use omnitrack_ai_platform.Prelude.Dict.{lookup}
use omnitrack_ai_platform.Scheduler.{Scheduler}
use omnitrack_ai_platform.Scheduler.Steps.{Step}
use omnitrack_ai_platform.Scheduler.{
  Job, Pickup, exits, finish, fresh_channel, pickup, pickup_channel, pickup_job, pickup_ready,
  register, run_one, skips, starts, stop, take_newest, unregister,
}
use omnitrack_ai_platform.Scheduler.Steps.{
  After, finishes, passes, picks, processes, registers, stops, submit_attempt-queues, submits,
  unregisters,
}

pub take_newest_lem :
    (js : List Job)
    → ((js ≡ []) × (take_newest js ≡ none))
      ⊎ ((older : List Job) × (newest : Job) × (js ≡ older ++ newest ∷ [])
          × (take_newest js ≡ some (newest, length older)))
unfolding take_newest
take_newest_lem [] = inl (refl, refl)
take_newest_lem (j ∷ []) = inr ([], j, refl, refl)
take_newest_lem (j ∷ k ∷ js) = elim (take_newest_lem (k ∷ js)) [
  | inl (e, _) ↦ absurd (ground arith)
  | inr (older, newest, e, t) ↦ inr (j ∷ older, newest, ap (◌∷◌ j) e, rw t)
]

-- No ready list and no queue has grown.
pub record Shrinks (p q : Scheduler) : Type 0 where
  pub halted : q.stopping ≡ true
  pub lists : (w : ℕ) → length (q.ready w) ≤ length (p.ready w)
  pub queues_le : (o : ℕ) → length (q.objects o).pending ≤ length (p.objects o).pending

pickup_job-Shrinks :
    (p : Scheduler) (w s o : ℕ) (taken : Option (Job × ℕ))
    → p.stopping ≡ true
    → After (Shrinks p) (pickup_job p w s o taken)
unfolding pickup_job
pickup_job-Shrinks p w s o none h = record {
  halted = h;
  lists = λ v. omega arith;
  queues_le = λ o'. ground arith;
}
pickup_job-Shrinks p w s o (some (job, dropped)) h = record {
  halted = h;
  lists = λ v. omega arith;
  queues_le = λ o'. ground arith;
}

-- A pick-up of a stopping worker ends it, or takes one stream off its ready list.
pub data Drains (p : Scheduler) (w : ℕ) : Pickup → Type 0 where
  ended : p.ready w ≡ [] → Drains p w exits
  skipped : {q : Scheduler} → length (q.ready w) + 1 ≡ length (p.ready w) → Drains p w (skips q)
  started : {q : Scheduler} → length (q.ready w) + 1 ≡ length (p.ready w) → Drains p w (starts q)

drain_channel :
    (p : Scheduler) (w s : ℕ) (rest : List ℕ) (found : Option ℕ)
    → p.ready w ≡ s ∷ rest
    → Drains p w (pickup_channel (record p { ready = update p.ready w rest }) w s found)
unfolding pickup_channel
drain_channel p w s rest none e = skipped (ground arith)
drain_channel p w s rest (some o) e = job (take_newest (p.objects o).pending)
  where
    job :
        (taken : Option (Job × ℕ))
        → Drains p w (pickup_job (record p { ready = update p.ready w rest }) w s o taken)
    job none = skipped (ground arith)
    job (some (j, dropped)) = started (ground arith)

drain_ready :
    (p : Scheduler) (w : ℕ) (rs : List ℕ)
    → p.stopping ≡ true
    → p.ready w ≡ rs
    → Drains p w (pickup_ready p w rs)
unfolding pickup_ready
drain_ready p w [] h e = rw h (ended e)
drain_ready p w (s ∷ rest) h e = drain_channel p w s rest (lookup s p.channels) e

-- After `stop` every pick-up of a worker either ends its loop, its ready list being empty, or
-- takes exactly one stream off that list; so the worker exits after as many more rounds as the
-- list is long, since nothing is added to it.
pickup-Drains : (p : Scheduler) (w : ℕ) → p.stopping ≡ true → Drains p w (pickup p w)
unfolding pickup
pickup-Drains p w h = drain_ready p w (p.ready w) h refl

pickup-Shrinks :
    (p : Scheduler) (w : ℕ) (rs : List ℕ)
    → p.stopping ≡ true
    → p.ready w ≡ rs
    → After (Shrinks p) (pickup_ready p w rs)
unfolding pickup_ready pickup_channel
pickup-Shrinks p w [] h e = rw h tt
pickup-Shrinks p w (s ∷ rest) h e = channel (lookup s p.channels)
  where
    popped : Scheduler
    popped = record p { ready = update p.ready w rest }

    shorter : (v : ℕ) → length (popped.ready v) ≤ length (p.ready v)
    shorter v = elim (ℕ_discrete w v) [
      | yes same ↦ ground (arith, subst (λ x. p.ready x ≡ s ∷ rest) same e)
      | no other ↦ ground arith
    ]

    job : (o : ℕ) (taken : Option (Job × ℕ)) → After (Shrinks p) (pickup_job popped w s o taken)
    job o none = record { halted = h; lists = shorter; queues_le = λ o'. ground arith }
    job o (some (j, dropped)) = record {
      halted = h;
      lists = shorter;
      queues_le = λ o'. ground arith;
    }

    channel : (found : Option ℕ) → After (Shrinks p) (pickup_channel popped w s found)
    channel none = record { halted = h; lists = shorter; queues_le = λ o'. omega arith }
    channel (some o) = job o (take_newest (p.objects o).pending)

-- Once the scheduler is stopping, no step of any thread makes a ready list or a queue longer, and
-- it stays stopping.
stopping-Step : {p q : Scheduler} → Step p q → p.stopping ≡ true → Shrinks p q
unfolding stop register unregister run_one finish fresh_channel pickup
stopping-Step (registers p s owner) h = record {
  halted = ground arith;
  lists = λ w. ground arith;
  queues_le = λ o. ground arith;
}
stopping-Step (submits p o job known e) h =
    let (_, _, go, _) = submit_attempt-queues p o (p.objects o).stream_id job e in
    absurd (ground arith)
stopping-Step (unregisters p s found late e) h = record {
  halted = ground arith;
  lists = λ w. ground arith;
  queues_le = λ o. ground arith;
}
stopping-Step (stops p) h = record {
  halted = refl;
  lists = λ w. omega arith;
  queues_le = λ o. omega arith;
}
stopping-Step (passes p w lt idle e) h =
    subst (After (Shrinks p)) e (pickup-Shrinks p w (p.ready w) h refl)
stopping-Step (picks p w lt idle e) h =
    subst (After (Shrinks p)) e (pickup-Shrinks p w (p.ready w) h refl)
stopping-Step (processes p w f outcome e) h = record {
  halted = ground arith;
  lists = λ v. ground arith;
  queues_le = λ o. ground arith;
}
stopping-Step (finishes p w f lt e) h = record {
  halted = ground arith;
  lists = λ v. ground arith;
  queues_le = λ o. ground arith;
}
