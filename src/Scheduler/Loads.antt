-- ===== src/Scheduler/Loads.antt =====
-- The load table of backend/scheduler.py, against the channels that are registered.
use omnitrack_ai_platform.Prelude.{
  ℕ, zero, suc, ◌+◌, ◌-◌, ◌≤◌, ◌<◌, ◌≡◌, refl, sym, subst, inl, inr, true, false, not, ◌&&◌, Option,
  none, some, List, [], ◌∷◌, ◌++◌, arith, ltb, leb, ◌==◌, if◌then◌else◌, leb→le, Bool-cases,
  Option-cases, is_some, length, All, update,
}
use omnitrack_ai_platform.Prelude.Dict.{
  Dict, lookup, insert, erase, keys, lookup-insert, HasOnce, insert-HasOnce, erase-HasOnce,
  erase_absent,
}
use omnitrack_ai_platform.Scheduler.{Scheduler}
use omnitrack_ai_platform.Scheduler.{Channel, Owner, fresh_channel, register, unregister}
use omnitrack_ai_platform.Scheduler.{
  Flight, Job, enqueue, finish, init, least_loaded, pickup, pickup_channel, pickup_job,
  pickup_ready, queue_job, run_one, stop, take_newest,
}
use omnitrack_ai_platform.Scheduler.Steps.{
  After, Reach, Step, finishes, here, next, passes, picks, processes, registers, stops,
  submit_attempt-queues, submits, unregisters,
}

-- The registered channels that are pinned to a worker.
unfoldable pub pinned : (ℕ → Channel) → ℕ → Dict ℕ → ℕ
pinned objects w [] = 0
pinned objects w ((s, o) ∷ m) =
    if (objects o).worker_index == w then suc (pinned objects w m) else pinned objects w m

abbrev pub KnownObjects : ℕ → Dict ℕ → Type 0
KnownObjects n = All (λ e. e.1 < n)

abbrev Counted : Scheduler → Type 0
Counted p = (w : ℕ) → p.load w ≡ pinned p.objects w p.channels

record Loads (p : Scheduler) : Type 0 where
  once : HasOnce (keys p.channels)
  known : KnownObjects p.next_object p.channels
  counted : Counted p

pinned-update :
    (objects : ℕ → Channel) (w o : ℕ) (c : Channel) (m : Dict ℕ)
    → c.worker_index ≡ (objects o).worker_index
    → pinned (update objects o c) w m ≡ pinned objects w m
unfolding pinned
pinned-update objects w o c [] h = refl
pinned-update objects w o c ((s, o') ∷ m) h = ground (arith, pinned-update objects w o c m h)

pinned-update_new :
    (objects : ℕ → Channel) (w n : ℕ) (c : Channel) (m : Dict ℕ)
    → KnownObjects n m
    → pinned (update objects n c) w m ≡ pinned objects w m
unfolding pinned
pinned-update_new objects w n c [] h = refl
pinned-update_new objects w n c ((s, o) ∷ m) h =
    ground (arith, pinned-update_new objects w n c m h.1)

pinned-insert :
    (objects : ℕ → Channel) (w s o : ℕ) (m : Dict ℕ)
    → lookup s m ≡ none
    → pinned objects w (insert s o m)
      ≡ pinned objects w m + (if (objects o).worker_index == w then 1 else 0)
unfolding pinned lookup insert
pinned-insert objects w s o [] h = ground arith
pinned-insert objects w s o ((s', o') ∷ m) h = ground (arith, pinned-insert objects w s o m)

pinned-erase :
    (objects : ℕ → Channel) (w s o : ℕ) (m : Dict ℕ)
    → HasOnce (keys m)
    → lookup s m ≡ some o
    → pinned objects w (erase s m) + (if (objects o).worker_index == w then 1 else 0)
      ≡ pinned objects w m
unfolding pinned lookup erase
pinned-erase objects w s o [] d h = cc
pinned-erase objects w s o ((s', o') ∷ m) d h =
    ground (arith, pinned-erase objects w s o m d.1, erase_absent s m)

KnownObjects-weaken : (n : ℕ) (m : Dict ℕ) → KnownObjects n m → KnownObjects (n + 1) m
KnownObjects-weaken n [] h = tt
KnownObjects-weaken n ((s, o) ∷ m) h = (omega arith, KnownObjects-weaken n m h.1)

KnownObjects-erase : (n s : ℕ) (m : Dict ℕ) → KnownObjects n m → KnownObjects n (erase s m)
unfolding erase
KnownObjects-erase n s [] h = tt
KnownObjects-erase n s ((s', o) ∷ m) h = ground (arith, KnownObjects-erase n s m h.1)

KnownObjects-insert :
    (n s : ℕ) (m : Dict ℕ) → KnownObjects n m → KnownObjects (n + 1) (insert s n m)
unfolding insert
KnownObjects-insert n s [] h = (omega arith, tt)
KnownObjects-insert n s ((s', o) ∷ m) h =
    ground (arith, KnownObjects-insert n s m h.1, KnownObjects-weaken n m h.1)

-- A step that keeps the table of channels and every channel's worker keeps the loads.
Loads-same :
    (p : Scheduler) (o : ℕ) (c : Channel)
    → c.worker_index ≡ (p.objects o).worker_index
    → Loads p
    → Loads (record p { objects = update p.objects o c })
Loads-same p o c e h = record {
  once = h.once;
  known = h.known;
  counted = λ w. ground (arith, h.counted w, pinned-update p.objects w o c p.channels e);
}

register-Loads :
    (p : Scheduler) (s : ℕ) (owner : Option Owner) → Loads p → Loads (register p s owner)
unfolding register
register-Loads p s owner h = elim (Option-cases (lookup s p.channels)) [
  | inr (o, e) ↦ rw (e, register) h
  | inl e ↦
      rw (e, register)
        (record {
          once = insert-HasOnce s p.next_object p.channels h.once;
          known = KnownObjects-insert p.next_object s p.channels h.known;
          counted = λ w. ground (
            arith,
            h.counted w,
            pinned-insert (update p.objects p.next_object (fresh_channel p s)) w s p.next_object
                p.channels e,
            pinned-update_new p.objects w p.next_object (fresh_channel p s) p.channels h.known,
          );
        })
]

unregister-Loads : (p : Scheduler) (s : ℕ) → Loads p → Loads (unregister p s)
unfolding unregister
unregister-Loads p s h = elim (Option-cases (lookup s p.channels)) [
  | inl e ↦ rw (e, unregister) (record { once = h.once; known = h.known; counted = h.counted })
  | inr (o, e) ↦
      rw (e, unregister)
        (record {
          once = erase-HasOnce s p.channels h.once;
          known = KnownObjects-erase p.next_object s p.channels h.known;
          counted = λ w. ground (
            arith,
            h.counted w,
            h.counted (p.objects o).worker_index,
            pinned-erase p.objects w s o p.channels h.once e,
          );
        })
]

enqueue-Loads :
    (p : Scheduler) (w o : ℕ) (c : Channel) (s : ℕ)
    → c.worker_index ≡ (p.objects o).worker_index
    → Loads p
    → Loads (enqueue p w o c s)
unfolding enqueue
enqueue-Loads p w o c s e h =
    let h' = Loads-same p o (record c { enqueued = true }) e h in
    record { once = h.once; known = h.known; counted = h'.counted }

queue_job-Loads : (p : Scheduler) (o s : ℕ) (job : Job) → Loads p → Loads (queue_job p o s job)
unfolding queue_job
queue_job-Loads p o s job h =
    let c = p.objects o in
    let c' : Channel = record c { pending = c.pending ++ job ∷ [] } in
    elim (Bool-cases (not c.in_flight && not c.enqueued)) [
      | inl e ↦ rw e (enqueue-Loads p c.worker_index o c' s refl h)
      | inr e ↦ rw e (Loads-same p o c' refl h)
    ]

pickup_job-Loads :
    (p : Scheduler) (w s o : ℕ) (taken : Option (Job × ℕ))
    → Loads p
    → After Loads (pickup_job p w s o taken)
unfolding pickup_job
pickup_job-Loads p w s o none h = Loads-same p o _ refl h
pickup_job-Loads p w s o (some (job, dropped)) h =
    let h' =
      Loads-same p o (record (p.objects o) { pending = []; enqueued = false; in_flight = true })
        refl h in
    record { once = h.once; known = h.known; counted = h'.counted }

pickup_ready-Loads :
    (p : Scheduler) (w : ℕ) (rs : List ℕ) → Loads p → After Loads (pickup_ready p w rs)
unfolding pickup_ready
pickup_ready-Loads p w [] h = elim (Bool-cases p.stopping) [ inl e ↦ rw e tt | inr e ↦ rw e tt ]
pickup_ready-Loads p w (s ∷ rest) h =
    channel (lookup s p.channels) (record { once = h.once; known = h.known; counted = h.counted })
  where
    popped : Scheduler
    popped = record p { ready = update p.ready w rest }

    channel : (found : Option ℕ) → Loads popped → After Loads (pickup_channel popped w s found)
    channel none h' = h'
    channel (some o) h' = pickup_job-Loads popped w s o (take_newest (p.objects o).pending) h'

pickup-Loads : (p : Scheduler) (w : ℕ) → Loads p → After Loads (pickup p w)
unfolding pickup
pickup-Loads p w = pickup_ready-Loads p w (p.ready w)

finish-Loads : (p : Scheduler) (w : ℕ) (f : Flight) → Loads p → Loads (finish p w f)
unfolding finish
finish-Loads p w f h =
    let c = p.objects f.channel in
    let c' : Channel = record c { in_flight = false } in
    let landed : Scheduler = record p { busy = p.busy - 1; running = update p.running w none } in
    let h' : Loads landed = record { once = h.once; known = h.known; counted = h.counted } in
    elim (Bool-cases (
      not p.stopping
      && ltb 0 (length c.pending)
      && not c.enqueued
      && is_some (lookup f.stream p.channels))) [
        | inl e ↦ rw e (enqueue-Loads landed w f.channel c' f.stream refl h')
        | inr e ↦ rw e (Loads-same landed f.channel c' refl h')
      ]

run_one-Loads : (p : Scheduler) (s : ℕ) (outcome : Option ℕ) → Loads p → Loads (run_one p s outcome)
unfolding run_one
run_one-Loads p s none h = h
run_one-Loads p s (some e) h = elim (Option-cases (lookup s p.owners)) [
  | inl x ↦ rw (x, run_one) h
  | inr (o, x) ↦ rw (x, run_one) (record { once = h.once; known = h.known; counted = h.counted })
]

Step-Loads : {p q : Scheduler} → Step p q → Loads p → Loads q
unfolding stop
Step-Loads (registers p s owner) h = register-Loads p s owner h
Step-Loads (submits p o job known e) h =
    let (eq, _, _, _) = submit_attempt-queues p o (p.objects o).stream_id job e in
    subst Loads (sym eq) (queue_job-Loads p o (p.objects o).stream_id job h)
Step-Loads (unregisters p s found late e) h = unregister-Loads p s h
Step-Loads (stops p) h = record { once = h.once; known = h.known; counted = h.counted }
Step-Loads (passes p w lt idle e) h = subst (After Loads) e (pickup-Loads p w h)
Step-Loads (picks p w lt idle e) h = subst (After Loads) e (pickup-Loads p w h)
Step-Loads (processes p w f outcome e) h = run_one-Loads p f.stream outcome h
Step-Loads (finishes p w f lt e) h = finish-Loads p w f h

Reach-Loads : {p q : Scheduler} → Reach p q → Loads p → Loads q
Reach-Loads here h = h
Reach-Loads (next r st) h = Step-Loads st (Reach-Loads r h)

init-Loads : (n c : ℕ) → Loads (init n c)
unfolding init pinned
init-Loads n c = record { once = tt; known = tt; counted = λ w. refl }

-- In every state that the threads can reach from a new scheduler, the load on record for a worker
-- is the number of registered channels that are pinned to it: no registration or removal of a
-- stream, in whatever order with the workers' steps, miscounts.
pub load_counts :
    (n c w : ℕ) {q : Scheduler} → Reach (init n c) q → q.load w ≡ pinned q.objects w q.channels
load_counts n c w r = (Reach-Loads r (init-Loads n c)).counted w

least_loaded-le : (load : ℕ → ℕ) (n w : ℕ) → w ≤ n → load (least_loaded load n) ≤ load w
unfolding least_loaded
least_loaded-le load zero w h = let e : w ≡ 0 = omega arith in rw e (omega arith)
least_loaded-le load (suc n) w h = elim (Bool-cases (leb w n)) [
  | inl e ↦ ground (arith, least_loaded-le load n w (leb→le w n e))
  | inr e ↦ ground (arith, least_loaded-le load n n)
]

pub least_loaded-range : (load : ℕ → ℕ) (n : ℕ) → least_loaded load n ≤ n
unfolding least_loaded
least_loaded-range load zero = omega arith
least_loaded-range load (suc n) = ground (arith, least_loaded-range load n)

-- A stream that is not registered is pinned to a worker of the pool that carries no more streams
-- than any other worker of the pool.
register_least :
    (p : Scheduler) (s w : ℕ) (owner : Option Owner)
    → w < p.num_workers
    → lookup s p.channels ≡ none
    → (lookup s (register p s owner).channels ≡ some p.next_object)
      × (((register p s owner).objects p.next_object).worker_index < p.num_workers)
      × (p.load ((register p s owner).objects p.next_object).worker_index ≤ p.load w)
unfolding register fresh_channel
register_least p s w owner lt e = ground (
  arith,
  lookup-insert s s p.next_object p.channels,
  least_loaded-range p.load (p.num_workers - 1),
  least_loaded-le p.load (p.num_workers - 1) w,
)
