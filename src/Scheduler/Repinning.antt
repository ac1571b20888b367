-- ===== src/Scheduler/Repinning.antt =====
-- A ready entry of backend/scheduler.py that outlives its channel.
use omnitrack_ai_platform.Prelude.{ℕ, ◌≡◌, ◌≢◌, Option, none, some, List, ◌∷◌, arith}
use omnitrack_ai_platform.Prelude.Dict.{lookup, lookup-insert}
use omnitrack_ai_platform.Scheduler.{
  Flight, Job, Owner, Pickup, Scheduler, fresh_channel, pickup, queue_job, register, starts,
}

-- What the worker has in hand after a pick-up, if it starts on a frame.
abbrev pub started_by : Pickup → ℕ → Option Flight
started_by (starts q) w = q.running w
started_by other w = none

-- The pinning is broken by a stale ready entry: where a stream that is not registered stands at the
-- head of worker `w`'s ready list, and it is registered again, pinned to another worker, and sends
-- a frame, then worker `w` starts on that frame of a channel that is pinned to the other worker.
pub stale_entry_repins :
    (p : Scheduler) (s w : ℕ) (rest : List ℕ) (owner : Option Owner) (job : Job)
    → lookup s p.channels ≡ none
    → p.ready w ≡ s ∷ rest
    → (fresh_channel p s).worker_index ≢ w
    → let q = queue_job (register p s owner) p.next_object s job in
      (started_by (pickup q w) w
        ≡ some (record { stream = s; channel = p.next_object; job = job; dropped = 0 }))
      × ((q.objects p.next_object).worker_index ≢ w)
unfolding register queue_job fresh_channel pickup
stale_entry_repins p s w rest owner job e head other =
    ground (arith, lookup-insert s s p.next_object p.channels)
