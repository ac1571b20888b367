-- ===== src/Scheduler.antt =====
-- backend/scheduler.py: the inference scheduler. Each critical section under `_cond` is one
-- operation; what a thread keeps in its local variables between two of them is an argument
-- (`submit`'s channel, `unregister`'s channel) or stands in `running` (a worker's pick-up).
-- Channels are objects on a heap, since a thread may hold a channel that `_channels` has forgotten.
use omnitrack_ai_platform.Prelude.{
  ℕ, zero, suc, ◌+◌, ◌-◌, max, Bool, true, false, not, ◌&&◌, ◌||◌, Option, none, some, List, [],
  ◌∷◌, ◌++◌, ltb, leb, if◌then◌else◌, is_some, length, update,
}
use omnitrack_ai_platform.Prelude.Dict.{Dict, lookup, insert, erase}
pub mod Steps
pub mod Bounds
pub mod Loads
pub mod Service
pub mod Serving
pub mod Progress
pub mod Stopping
pub mod Repinning
mod Tests

-- A frame with its arrival time, as `submit` queues it.
pub record Job : Type 0 where
  pub frame : ℕ
  pub submit_ts : ℕ

-- `_StreamChannel`; the newest job stands last.
pub record Channel : Type 0 where
  pub stream_id : ℕ
  pub capacity : ℕ
  pub worker_index : ℕ
  pub pending : List Job
  pub in_flight : Bool
  pub enqueued : Bool

-- The locals of a worker between its pick-up of a frame and the section after `_run_one`.
pub record Flight : Type 0 where
  pub stream : ℕ
  pub channel : ℕ
  pub job : Job
  pub dropped : ℕ

-- What `_run_one` reads and writes of a stream's owner.
pub record Owner : Type 0 where
  pub is_running : Bool
  pub is_active : Bool
  pub error_message : Option ℕ

pub record Scheduler : Type 0 where
  pub num_workers : ℕ
  pub queue_capacity : ℕ
  pub channels : Dict ℕ
  pub objects : ℕ → Channel
  pub next_object : ℕ
  pub ready : ℕ → List ℕ
  pub load : ℕ → ℕ
  pub owners : Dict Owner
  pub busy : ℕ
  pub stopping : Bool
  pub running : ℕ → Option Flight

abbrev no_channel : Channel
no_channel = record {
  stream_id = 0;
  capacity = 1;
  worker_index = 0;
  pending = [];
  in_flight = false;
  enqueued = false;
}

-- `InferenceScheduler(session_factory, num_workers, stream_queue_capacity)`.
unfoldable pub init : ℕ → ℕ → Scheduler
init num_workers capacity = record {
  num_workers = max num_workers 1;
  queue_capacity = max capacity 1;
  channels = [];
  objects = λ _. no_channel;
  next_object = 0;
  ready = λ _. [];
  load = λ _. 0;
  owners = [];
  busy = 0;
  stopping = false;
  running = λ _. none;
}

-- `take_newest`: the newest job, the number dropped, and what stays queued.
unfoldable pub take_newest : List Job → Option (Job × ℕ)
take_newest [] = none
take_newest (j ∷ []) = some (j, 0)
take_newest (j ∷ k ∷ js) = elim (take_newest (k ∷ js)) [
  | none ↦ none
  | some (newest, dropped) ↦ some (newest, suc dropped)
]

-- `min(range(n + 1), key=load)`: the first index with the least load.
unfoldable pub least_loaded : (ℕ → ℕ) → ℕ → ℕ
least_loaded load zero = 0
least_loaded load (suc n) =
    let best = least_loaded load n in if ltb (load (suc n)) (load best) then suc n else best

-- `_StreamChannel(stream_id, self._capacity, process_fn, worker_index)` for the worker chosen.
unfoldable pub fresh_channel : Scheduler → ℕ → Channel
unfolding least_loaded
fresh_channel p s = record {
  stream_id = s;
  capacity = p.queue_capacity;
  worker_index = least_loaded p.load (p.num_workers - 1);
  pending = [];
  in_flight = false;
  enqueued = false;
}

unfoldable pub register : Scheduler → ℕ → Option Owner → Scheduler
unfolding fresh_channel
register p s owner = elim (lookup s p.channels) [
  | some _ ↦ p
  | none ↦
      let w = (fresh_channel p s).worker_index in
      record p {
        channels = insert s p.next_object p.channels;
        objects = update p.objects p.next_object (fresh_channel p s);
        next_object = p.next_object + 1;
        load = update p.load w (p.load w + 1);
        owners = (elim owner [ none ↦ p.owners | some o ↦ insert s o p.owners ]);
      }
]

-- The first lines of `submit` under the lock: the channel that the call goes on with.
unfoldable pub submit_channel : Scheduler → ℕ → Option ℕ
submit_channel p s = if p.stopping then none else lookup s p.channels

-- One evaluation of the waiting loop of `submit`, and what follows it: the call waits, returns
-- without queueing, or queues the job and returns.
pub data Attempt : Type 0 where
  waits returns : Attempt
  queues : Scheduler → Attempt

-- `channel.enqueued = True; self._ready[w].append(stream_id)`, for a channel that has become `c`.
unfoldable pub enqueue : Scheduler → ℕ → ℕ → Channel → ℕ → Scheduler
enqueue p w o c s = record p {
  objects = update p.objects o (record c { enqueued = true });
  ready = update p.ready w (p.ready w ++ s ∷ []);
}

unfoldable pub queue_job : Scheduler → ℕ → ℕ → Job → Scheduler
unfolding enqueue
queue_job p o s job =
    let c = p.objects o in
    let c' : Channel = record c { pending = c.pending ++ job ∷ [] } in
    if not c.in_flight && not c.enqueued
    then enqueue p c.worker_index o c' s
    else record p { objects = update p.objects o c' }

unfoldable pub submit_attempt : Scheduler → ℕ → ℕ → Job → Attempt
unfolding queue_job
submit_attempt p o s job =
    if is_some (lookup s p.channels)
      && leb (p.objects o).capacity (length (p.objects o).pending)
      && not p.stopping
    then waits
    else if p.stopping || not (is_some (lookup s p.channels))
    then returns
    else queues (queue_job p o s job)

-- The test of the waiting loop of `unregister` for the channel that it found.
unfoldable pub unregister_waits : Scheduler → Option ℕ → Bool → Bool
unregister_waits p found past_deadline = elim found [
  | none ↦ false
  | some o ↦ (p.objects o).in_flight && not p.stopping && not past_deadline
]

-- The section of `unregister` after its waiting loop.
unfoldable pub unregister : Scheduler → ℕ → Scheduler
unregister p s = elim (lookup s p.channels) [
  | none ↦ record p { owners = erase s p.owners }
  | some o ↦
      let w = (p.objects o).worker_index in
      record p {
        channels = erase s p.channels;
        owners = erase s p.owners;
        load = update p.load w (p.load w - 1);
      }
]

unfoldable pub stop : Scheduler → Scheduler
stop p = record p { stopping = true }

-- The first critical section of one round of `_worker_loop`.
pub data Pickup : Type 0 where
  sleeps exits : Pickup
  skips starts : Scheduler → Pickup

-- The item is `none`, or a job with the number of older ones dropped.
unfoldable pub pickup_job : Scheduler → ℕ → ℕ → ℕ → Option (Job × ℕ) → Pickup
pickup_job p w s o none =
    skips (record p { objects = update p.objects o (record (p.objects o) { enqueued = false }) })
pickup_job p w s o (some (job, dropped)) = starts (record p {
  objects =
      update p.objects o
        (record (p.objects o) { pending = []; enqueued = false; in_flight = true });
  busy = p.busy + 1;
  running =
      update p.running w (some (record { stream = s; channel = o; job = job; dropped = dropped }));
})

unfoldable pub pickup_channel : Scheduler → ℕ → ℕ → Option ℕ → Pickup
unfolding pickup_job take_newest
pickup_channel p w s none = skips p
pickup_channel p w s (some o) = pickup_job p w s o (take_newest (p.objects o).pending)

unfoldable pub pickup_ready : Scheduler → ℕ → List ℕ → Pickup
unfolding pickup_channel
pickup_ready p w [] = if p.stopping then exits else sleeps
pickup_ready p w (s ∷ rest) =
    pickup_channel (record p { ready = update p.ready w rest }) w s (lookup s p.channels)

unfoldable pub pickup : Scheduler → ℕ → Pickup
unfolding pickup_ready
pickup p w = pickup_ready p w (p.ready w)

-- `_run_one`: `none` is a return of `process_fn`, `some e` an exception with message `e`.
unfoldable pub run_one : Scheduler → ℕ → Option ℕ → Scheduler
run_one p s outcome = elim outcome [
  | none ↦ p
  | some e ↦ (elim (lookup s p.owners) [
    | none ↦ p
    | some o ↦ record p {
      owners =
          insert s (record { is_running = false; is_active = false; error_message = some e })
            p.owners;
    }
  ])
]

-- The critical section after `_run_one`.
unfoldable pub finish : Scheduler → ℕ → Flight → Scheduler
unfolding enqueue
finish p w f =
    let c = p.objects f.channel in
    let c' : Channel = record c { in_flight = false } in
    let p' = record p { busy = p.busy - 1; running = update p.running w none } in
    if not p.stopping
      && ltb 0 (length c.pending)
      && not c.enqueued
      && is_some (lookup f.stream p.channels)
    then enqueue p' w f.channel c' f.stream
    else record p' { objects = update p.objects f.channel c' }
