-- ===== src/Scheduler/Progress.antt =====
-- Every reachable state of backend/scheduler.py serves its channels.
use omnitrack_ai_platform.Prelude.{
  ℕ, ◌<◌, ◌≡◌, sym, subst, ◌⊎◌, inl, inr, false, Option, none, some, arith, Option-cases, length,
}
use omnitrack_ai_platform.Prelude.Dict.{lookup, lookup-erase}
use omnitrack_ai_platform.Scheduler.Service.{Service}
use omnitrack_ai_platform.Scheduler.{Scheduler}
use omnitrack_ai_platform.Scheduler.Steps.{Step}
use omnitrack_ai_platform.Scheduler.Service.{Service}
use omnitrack_ai_platform.Scheduler.Service.{Service}
use omnitrack_ai_platform.Scheduler.{init, run_one, stop, unregister}
use omnitrack_ai_platform.Scheduler.Steps.{
  After, Reach, finishes, here, next, passes, picks, processes, registers, stops,
  submit_attempt-queues, submits, unregisters,
}
use omnitrack_ai_platform.Scheduler.Service.{InHand, Waiting, pickup-Service, queue_job-Service}
use omnitrack_ai_platform.Scheduler.Serving.{finish-Service, register-Service}

unregister-Service : (p : Scheduler) (s : ℕ) → Service p → Service (unregister p s)
unfolding unregister
unregister-Service p s h = elim (Option-cases (lookup s p.channels)) [
  | inl e ↦
      rw (e, unregister)
        (record {
          workers = h.workers;
          named = h.named;
          flights = h.flights;
          serves = λ t o x.
              let old = h.serves t o x in
              record { served = old.served; queued = old.queued; flying = old.flying };
        })
  | inr (o', e) ↦
      rw (e, unregister)
        (record {
          workers = h.workers;
          named = λ t o x. ground (arith, lookup-erase t s p.channels, h.named t o);
          flights = h.flights;
          serves = λ t o x.
              let old = h.serves t o (ground (arith, lookup-erase t s p.channels)) in
              record { served = old.served; queued = old.queued; flying = old.flying };
        })
]

run_one-Service :
    (p : Scheduler) (s : ℕ) (outcome : Option ℕ) → Service p → Service (run_one p s outcome)
unfolding run_one
run_one-Service p s none h = h
run_one-Service p s (some e) h = elim (Option-cases (lookup s p.owners)) [
  | inl x ↦ rw (x, run_one) h
  | inr (o', x) ↦
      rw (x, run_one)
        (record {
          workers = h.workers;
          named = h.named;
          flights = h.flights;
          serves = λ t o y.
              let old = h.serves t o y in
              record { served = old.served; queued = old.queued; flying = old.flying };
        })
]

Step-Service : {p q : Scheduler} → Step p q → Service p → Service q
unfolding stop
Step-Service (registers p s owner) h = register-Service p s owner (omega (arith, h.workers 0)) h
Step-Service (submits p o job known e) h =
    let (eq, _, _, _) = submit_attempt-queues p o (p.objects o).stream_id job e in
    subst Service (sym eq) (queue_job-Service p o job known h)
Step-Service (unregisters p s found late e) h = unregister-Service p s h
Step-Service (stops p) h = record {
  workers = h.workers;
  named = h.named;
  flights = h.flights;
  serves = λ t o x.
      let old = h.serves t o x in
      record { served = λ n z. cc; queued = old.queued; flying = old.flying };
}
Step-Service (passes p w lt idle e) h = subst (After Service) e (pickup-Service p w lt idle h)
Step-Service (picks p w lt idle e) h = subst (After Service) e (pickup-Service p w lt idle h)
Step-Service (processes p w f outcome e) h = run_one-Service p f.stream outcome h
Step-Service (finishes p w f lt e) h = finish-Service p w f lt e h

Reach-Service : {p q : Scheduler} → Reach p q → Service p → Service q
Reach-Service here h = h
Reach-Service (next r st) h = Step-Service st (Reach-Service r h)

init-Service : (n c : ℕ) → Service (init n c)
unfolding init lookup
init-Service n c = record {
  workers = λ o. omega arith;
  named = λ s o e. cc;
  flights = λ w f e. cc;
  serves = λ s o e. cc;
}

-- In every state that the threads can reach from a new scheduler and that is not stopping, a
-- registered channel with queued frames has its stream on the ready list of a worker of the pool,
-- or a worker of the pool is busy with a frame of that channel: no frame is left where nobody
-- will look for it.
pub no_frame_stranded :
    (n c s o : ℕ) {q : Scheduler}
    → Reach (init n c) q
    → q.stopping ≡ false
    → lookup s q.channels ≡ some o
    → 0 < length (q.objects o).pending
    → Waiting q s ⊎ InHand q o
no_frame_stranded n c s o {q} r go e some_pending =
    let h = (Reach-Service r (init-Service n c)).serves s o e in
    elim (h.served some_pending go) [ inl x ↦ inl (h.queued x) | inr x ↦ inr (h.flying x) ]
