-- ===== src/Scheduler/Service.antt =====
-- No frame of backend/scheduler.py is left behind: where a registered channel has queued frames,
-- some worker has its stream on the ready list or is busy with it.

-- The stream stands on the ready list of a worker of the pool.
use omnitrack_ai_platform.Prelude.{
  ℕ, ◌+◌, ◌<◌, ◌≡◌, refl, sym, ap, ◌∙◌, subst, ◌≢◌, ◌⊎◌, inl, inr, true, false, not, ◌&&◌, Option,
  none, some, List, [], ◌∷◌, ◌++◌, arith, ℕ_discrete, Bool-cases, length, mem, update, mem-append,
}
use omnitrack_ai_platform.Prelude.Dict.{lookup}
use omnitrack_ai_platform.Scheduler.{Scheduler}
use omnitrack_ai_platform.Scheduler.{Channel, Flight}
use omnitrack_ai_platform.Scheduler.{Job, enqueue, queue_job}
use omnitrack_ai_platform.Scheduler.{pickup_job, take_newest}
use omnitrack_ai_platform.Scheduler.Steps.{After}
use omnitrack_ai_platform.Scheduler.{pickup, pickup_channel, pickup_ready}
use omnitrack_ai_platform.Scheduler.Steps.{take_newest-none}

abbrev pub Waiting : Scheduler → ℕ → Type 0
Waiting p s = (w : ℕ) × (w < p.num_workers) × (mem s (p.ready w) ≡ true)

-- A worker of the pool is busy with a frame of the channel.
abbrev pub InHand : Scheduler → ℕ → Type 0
InHand p o = (w : ℕ) × (f : Flight) × (w < p.num_workers) × (p.running w ≡ some f) × (f.channel ≡ o)

-- The facts about one registered channel.
pub record Serves (p : Scheduler) (s o : ℕ) : Type 0 where
  pub served :
      0 < length (p.objects o).pending
      → p.stopping ≡ false
      → ((p.objects o).enqueued ≡ true) ⊎ ((p.objects o).in_flight ≡ true)
  pub queued : (p.objects o).enqueued ≡ true → Waiting p s
  pub flying : (p.objects o).in_flight ≡ true → InHand p o

pub record Service (p : Scheduler) : Type 0 where
  pub workers : (o : ℕ) → (p.objects o).worker_index < p.num_workers
  pub named :
      (s o : ℕ) → lookup s p.channels ≡ some o → ((p.objects o).stream_id ≡ s) × (o < p.next_object)
  pub flights :
      (w : ℕ) (f : Flight)
      → p.running w ≡ some f
      → ((p.objects f.channel).stream_id ≡ f.stream) × (f.channel < p.next_object)
  pub serves : (s o : ℕ) → lookup s p.channels ≡ some o → Serves p s o

-- A change of one channel, of the ready lists and of what the workers have in hand.
abbrev pub changed : Scheduler → ℕ → Channel → (ℕ → List ℕ) → ℕ → (ℕ → Option Flight) → Scheduler
changed p o c ready busy running = record p {
  objects = update p.objects o c;
  ready = ready;
  busy = busy;
  running = running;
}

module _ (p : Scheduler) (o : ℕ) (c : Channel) (ready : ℕ → List ℕ) (busy : ℕ)
    (running : ℕ → Option Flight) (name : c.stream_id ≡ (p.objects o).stream_id)
    (pin : c.worker_index ≡ (p.objects o).worker_index)
    (keeps_ready : (s w : ℕ)
      → lookup s p.channels ≢ some o
      → mem s (p.ready w) ≡ true
      → mem s (ready w) ≡ true)
    (keeps_flights : (w : ℕ) (f : Flight)
      → p.running w ≡ some f
      → f.channel ≢ o
      → running w ≡ some f)
    (new_flights : (w : ℕ) (f : Flight)
      → running w ≡ some f
      → (p.running w ≡ some f)
        ⊎ ((f.channel ≡ o) × (f.stream ≡ (p.objects o).stream_id) × (o < p.next_object)))
    (own : (s : ℕ)
      → lookup s p.channels ≡ some o
      → Serves (changed p o c ready busy running) s o) where
  Serves-other :
      (s o' : ℕ)
      → o' ≢ o
      → lookup s p.channels ≢ some o
      → Serves p s o'
      → Serves (changed p o c ready busy running) s o'
  Serves-other s o' other differs h = record {
    served = λ n e. ground (arith, h.served (ground arith) e);
    queued = λ e. let (w, lt, m) = h.queued (ground arith) in (w, lt, keeps_ready s w differs m);
    flying = λ e.
        let (w, f, lt, r, same) = h.flying (ground arith) in
        (w, f, lt, keeps_flights w f r (λ x. other (sym same ∙ x)), same);
  }

  pub Service-changed : Service p → Service (changed p o c ready busy running)
  Service-changed h = record {
    workers = λ o'. ground (arith, h.workers o', pin);
    named = λ s o' e. ground (arith, h.named s o' e, name);
    flights = λ w f e. elim (new_flights w f e) [
      | inl old ↦ ground (arith, h.flights w f old, name)
      | inr (x, y, z) ↦ ground (arith, x, y, z, name)
    ];
    serves = λ s o' e. elim (ℕ_discrete o' o) [
      | yes same ↦
          subst (Serves (changed p o c ready busy running) s) (sym same) (own s (e ∙ ap some same))
      | no other ↦ Serves-other s o' other (λ x. other (ground arith)) (h.serves s o' e)
    ];
  }

pub mem-last : (s : ℕ) (rs : List ℕ) → mem s (rs ++ s ∷ []) ≡ true
unfolding mem
mem-last s rs = ground (arith, mem-append s rs (s ∷ []))

pub mem-grow : (s t : ℕ) (rs : List ℕ) → mem s rs ≡ true → mem s (rs ++ t ∷ []) ≡ true
mem-grow s t rs h = ground (arith, mem-append s rs (t ∷ []))

pub queue_job-Service :
    (p : Scheduler) (o : ℕ) (job : Job)
    → o < p.next_object
    → Service p
    → Service (queue_job p o (p.objects o).stream_id job)
unfolding queue_job enqueue
queue_job-Service p o job known h = elim (Bool-cases (not c.in_flight && not c.enqueued)) [
  | inl e ↦ rw e (
      Service-changed p o (record c { pending = c.pending ++ job ∷ []; enqueued = true })
        (update p.ready c.worker_index (p.ready c.worker_index ++ c.stream_id ∷ [])) p.busy
        p.running refl refl (λ s w _ m. ground (arith, mem-grow s c.stream_id (p.ready w) m))
        (λ w f e _. e) (λ w f e. inl e)
        (λ s e'. record {
          served = λ _ _. inl (ground arith);
          queued = λ _. (
            c.worker_index,
            h.workers o,
            ground (arith, h.named s o e', mem-last c.stream_id (p.ready c.worker_index)),
          );
          flying = λ x. absurd (ground arith);
        })
        h)
  | inr e ↦ rw e (
      Service-changed p o (record c { pending = c.pending ++ job ∷ [] }) p.ready p.busy p.running
        refl refl (λ s w _ m. m) (λ w f e _. e) (λ w f e. inl e)
        (λ s e'.
          let old = h.serves s o e' in
          record {
            served = λ _ _. ground arith;
            queued = λ x. old.queued (ground arith);
            flying = λ x. old.flying (ground arith);
          })
        h)
]
  where
    c : Channel
    c = p.objects o

module _ (p : Scheduler) (w s : ℕ) (rest : List ℕ) (lt : w < p.num_workers)
    (idle : p.running w ≡ none) (head : p.ready w ≡ s ∷ rest) (h : Service p) where
  popped : Scheduler
  popped = record p { ready = update p.ready w rest }

  -- Taking `s` off a ready list leaves every other stream where it is.
  popped-keeps :
      (t v : ℕ) → t ≢ s → mem t (p.ready v) ≡ true → mem t (update p.ready w rest v) ≡ true
  unfolding mem
  popped-keeps t v other m = elim (ℕ_discrete w v) [
    | yes same ↦ ground (arith, subst (λ x. mem t (p.ready x) ≡ true) (sym same) m)
    | no differs ↦ ground arith
  ]

  missing-Service : lookup s p.channels ≡ none → Service popped
  unfolding popped
  missing-Service gone = record {
    workers = h.workers;
    named = h.named;
    flights = h.flights;
    serves = λ t o e.
        let old = h.serves t o e in
        record {
          served = old.served;
          queued = λ x.
              let (v, lv, m) = old.queued x in (v, lv, popped-keeps t v (λ same. ground arith) m);
          flying = old.flying;
        };
  }

  module _ (o : ℕ) (found : lookup s p.channels ≡ some o) where
    job-Service :
        (taken : Option (Job × ℕ))
        → take_newest (p.objects o).pending ≡ taken
        → After Service (pickup_job popped w s o taken)
    unfolding popped pickup_job
    job-Service none e =
        Service-changed p o (record (p.objects o) { enqueued = false }) (update p.ready w rest)
          p.busy p.running refl refl
          (λ t v other m. popped-keeps t v (λ same. other (rw same found)) m) (λ v f r _. r)
          (λ v f r. inl r)
          (λ t e'.
            let old = h.serves t o e' in
            record {
              served = λ n _. absurd (ground (arith, take_newest-none (p.objects o).pending e));
              queued = λ x. absurd (ground arith);
              flying = λ x. old.flying (ground arith);
            })
          h
    job-Service (some (job, dropped)) e =
        Service-changed p o
          (record (p.objects o) { pending = []; enqueued = false; in_flight = true })
          (update p.ready w rest) (p.busy + 1) (update p.running w (some flight)) refl refl
          (λ t v other m. popped-keeps t v (λ same. other (rw same found)) m)
          (λ v f r _. ground arith) (λ v f r. ground (arith, h.named s o found))
          (λ t e'. record {
            served = λ n _. inr (ground arith);
            queued = λ x. absurd (ground arith);
            flying = λ _. (w, flight, lt, ground arith, refl);
          })
          h
      where
        flight : Flight
        flight = record { stream = s; channel = o; job = job; dropped = dropped }

    channel-Service : After Service (pickup_channel popped w s (some o))
    unfolding popped pickup_channel
    channel-Service = job-Service (take_newest (p.objects o).pending) refl

  found-Service :
      (found : Option ℕ)
      → lookup s p.channels ≡ found
      → After Service (pickup_channel popped w s found)
  unfolding pickup_channel
  found-Service none e = missing-Service e
  found-Service (some o) e = channel-Service o e

pickup_ready-Service :
    (p : Scheduler) (w : ℕ) (rs : List ℕ)
    → w < p.num_workers
    → p.running w ≡ none
    → p.ready w ≡ rs
    → Service p
    → After Service (pickup_ready p w rs)
unfolding pickup_ready popped
pickup_ready-Service p w [] lt idle e h = elim (Bool-cases p.stopping) [
  | inl x ↦ rw x tt
  | inr x ↦ rw x tt
]
pickup_ready-Service p w (s ∷ rest) lt idle e h =
    found-Service p w s rest lt idle e h (lookup s p.channels) refl

pub pickup-Service :
    (p : Scheduler) (w : ℕ)
    → w < p.num_workers
    → p.running w ≡ none
    → Service p
    → After Service (pickup p w)
unfolding pickup
pickup-Service p w lt idle h = pickup_ready-Service p w (p.ready w) lt idle refl h
