-- ===== src/Scheduler/Bounds.antt =====
-- The queues of backend/scheduler.py stay bounded.
use omnitrack_ai_platform.Prelude.{
  ℕ, ◌≤◌, ◌<◌, sym, subst, inl, inr, Option, none, some, List, [], ◌∷◌, arith, Bool-cases, length,
  length-append, update,
}
use omnitrack_ai_platform.Prelude.Dict.{lookup}
use omnitrack_ai_platform.Scheduler.{Scheduler}
use omnitrack_ai_platform.Scheduler.{Job, Owner, queue_job, register}
use omnitrack_ai_platform.Scheduler.{pickup}
use omnitrack_ai_platform.Scheduler.{
  Flight, finish, init, pickup_channel, pickup_job, pickup_ready, run_one, stop, take_newest,
  unregister,
}
use omnitrack_ai_platform.Scheduler.Steps.{
  After, Reach, Step, here, next, registers, stops, submit_attempt-queues,
}
use omnitrack_ai_platform.Scheduler.Steps.{finishes, passes, picks, processes, submits, unregisters}

-- No channel queues more than its capacity, which is positive.
abbrev pub IsBounded : Scheduler → Type 0
IsBounded p =
    (o : ℕ) → (0 < (p.objects o).capacity) × (length (p.objects o).pending ≤ (p.objects o).capacity)

abbrev pub Sound : Scheduler → Type 0
Sound p = (0 < p.queue_capacity) × IsBounded p

register-Sound :
    (p : Scheduler) (s : ℕ) (owner : Option Owner) → Sound p → Sound (register p s owner)
unfolding register
register-Sound p s owner (c, b) = (ground arith, λ o. ground (arith, b o))

queue_job-Sound :
    (p : Scheduler) (o s : ℕ) (job : Job)
    → length (p.objects o).pending < (p.objects o).capacity
    → Sound p
    → Sound (queue_job p o s job)
unfolding queue_job
queue_job-Sound p o s job room (c, b) =
    (ground arith, λ o'. ground (arith, b o', length-append (p.objects o).pending (job ∷ [])))

pickup_job-Sound :
    (p : Scheduler) (w s o : ℕ) (taken : Option (Job × ℕ))
    → Sound p
    → After Sound (pickup_job p w s o taken)
unfolding pickup_job
pickup_job-Sound p w s o none (c, b) = (c, λ o'. ground (arith, b o'))
pickup_job-Sound p w s o (some (job, dropped)) (c, b) = (c, λ o'. ground (arith, b o'))

pickup_channel-Sound :
    (p : Scheduler) (w s : ℕ) (found : Option ℕ)
    → Sound p
    → After Sound (pickup_channel p w s found)
unfolding pickup_channel
pickup_channel-Sound p w s none h = h
pickup_channel-Sound p w s (some o) h =
    pickup_job-Sound p w s o (take_newest (p.objects o).pending) h

pickup_ready-Sound :
    (p : Scheduler) (w : ℕ) (rs : List ℕ) → Sound p → After Sound (pickup_ready p w rs)
unfolding pickup_ready
pickup_ready-Sound p w [] h = elim (Bool-cases p.stopping) [ inl e ↦ rw e tt | inr e ↦ rw e tt ]
pickup_ready-Sound p w (s ∷ rest) h =
    pickup_channel-Sound (record p { ready = update p.ready w rest }) w s (lookup s p.channels) h

pickup-Sound : (p : Scheduler) (w : ℕ) → Sound p → After Sound (pickup p w)
unfolding pickup
pickup-Sound p w = pickup_ready-Sound p w (p.ready w)

finish-Sound : (p : Scheduler) (w : ℕ) (f : Flight) → Sound p → Sound (finish p w f)
unfolding finish
finish-Sound p w f (c, b) = (ground arith, λ o. ground (arith, b o))

run_one-Sound : (p : Scheduler) (s : ℕ) (outcome : Option ℕ) → Sound p → Sound (run_one p s outcome)
unfolding run_one
run_one-Sound p s outcome (c, b) = (ground arith, λ o. ground (arith, b o))

unregister-Sound : (p : Scheduler) (s : ℕ) → Sound p → Sound (unregister p s)
unfolding unregister
unregister-Sound p s (c, b) = (ground arith, λ o. ground (arith, b o))

Step-Sound : {p q : Scheduler} → Step p q → Sound p → Sound q
unfolding stop
Step-Sound (registers p s owner) h = register-Sound p s owner h
Step-Sound (submits p o job known e) h =
    let (eq, room, _, _) = submit_attempt-queues p o (p.objects o).stream_id job e in
    subst Sound (sym eq) (queue_job-Sound p o (p.objects o).stream_id job room h)
Step-Sound (unregisters p s found late e) h = unregister-Sound p s h
Step-Sound (stops p) h = h
Step-Sound (passes p w lt idle e) h = subst (After Sound) e (pickup-Sound p w h)
Step-Sound (picks p w lt idle e) h = subst (After Sound) e (pickup-Sound p w h)
Step-Sound (processes p w f outcome e) h = run_one-Sound p f.stream outcome h
Step-Sound (finishes p w f lt e) h = finish-Sound p w f h

Reach-Sound : {p q : Scheduler} → Reach p q → Sound p → Sound q
Reach-Sound here h = h
Reach-Sound (next r st) h = Step-Sound st (Reach-Sound r h)

init-Sound : (n c : ℕ) → Sound (init n c)
unfolding init
init-Sound n c = (omega arith, λ o. (omega arith, omega arith))

-- In every state that the threads can reach from a new scheduler, by any interleaving, no channel
-- queues more frames than its capacity, whether it is still registered or not.
pub pending_bounded :
    (n c o : ℕ) {q : Scheduler}
    → Reach (init n c) q
    → length (q.objects o).pending ≤ (q.objects o).capacity
pending_bounded n c o r = ((Reach-Sound r (init-Sound n c)).1 o).1
