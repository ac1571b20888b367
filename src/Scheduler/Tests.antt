-- ===== src/Scheduler/Tests.antt =====
-- The scheduler's theorems at concrete inputs.
use omnitrack_ai_platform.Prelude.{
  ◌≤◌, ◌≡◌, refl, ◌≢◌, ◌⊎◌, none, some, List, [], ◌∷◌, ◌++◌, arith, length,
}
use omnitrack_ai_platform.Prelude.Dict.{lookup, insert, erase}
use omnitrack_ai_platform.Scheduler.{
  Scheduler, Job, init, register, least_loaded, fresh_channel, submit_attempt, queue_job,
  unregister, pickup, stop, enqueue, take_newest,
}
use omnitrack_ai_platform.Scheduler.Steps.{Reach, here, next, registers, submits}
use omnitrack_ai_platform.Scheduler.Bounds.{pending_bounded}
use omnitrack_ai_platform.Scheduler.Loads.{load_counts, pinned}
use omnitrack_ai_platform.Scheduler.Service.{Waiting, InHand}
use omnitrack_ai_platform.Scheduler.Progress.{no_frame_stranded}
use omnitrack_ai_platform.Scheduler.Stopping.{take_newest_lem}
use omnitrack_ai_platform.Scheduler.Repinning.{stale_entry_repins, started_by}

scheduling : Unit {0}
unfolding init register fresh_channel least_loaded submit_attempt queue_job unregister pickup
    enqueue stop lookup insert erase
scheduling = tt

abbrev job : Job
job = record { frame = 70; submit_ts = 3 }

abbrev registered : Scheduler
registered = register (init 2 2) 5 none

abbrev loaded : Scheduler
loaded = queue_job registered 0 5 job

loaded-Reach : Reach (init 2 2) loaded
unfolding scheduling
loaded-Reach =
    next (next here (registers (init 2 2) 5 none)) (submits registered 0 job (omega arith) refl)

pending_bounded_example : length (loaded.objects 0).pending ≤ (loaded.objects 0).capacity
pending_bounded_example = pending_bounded 2 2 0 loaded-Reach

load_counts_example : loaded.load 0 ≡ pinned loaded.objects 0 loaded.channels
load_counts_example = load_counts 2 2 0 loaded-Reach

no_frame_stranded_example : Waiting loaded 5 ⊎ InHand loaded 0
unfolding scheduling
no_frame_stranded_example = no_frame_stranded 2 2 5 0 loaded-Reach refl refl (omega arith)

take_newest_lem_example :
    ((job ∷ job ∷ [] ≡ []) × (take_newest (job ∷ job ∷ []) ≡ none))
    ⊎ ((older : List Job) × (newest : Job) × (job ∷ job ∷ [] ≡ older ++ newest ∷ [])
        × (take_newest (job ∷ job ∷ []) ≡ some (newest, length older)))
take_newest_lem_example = take_newest_lem (job ∷ job ∷ [])

-- Stream 5 is removed with its entry still on worker 0's list; stream 6 takes its place.
abbrev stale : Scheduler
stale = register (unregister loaded 5) 6 none

stale_entry_repins_example :
    let q = queue_job (register stale 5 none) stale.next_object 5 job in
    (started_by (pickup q 0) 0
      ≡ some (record { stream = 5; channel = stale.next_object; job = job; dropped = 0 }))
    × ((q.objects stale.next_object).worker_index ≢ 0)
unfolding scheduling
stale_entry_repins_example = stale_entry_repins stale 5 0 [] none job refl refl (omega arith)
