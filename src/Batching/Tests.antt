-- ===== src/Batching/Tests.antt =====
-- The theorems on batches at a concrete run: frames are numbers, and the detector doubles them.
use omnitrack_ai_platform.Prelude.{
  ℕ, ◌+◌, ◌≡◌, refl, true, false, none, some, List, [], ◌∷◌, ◌++◌, map, arith, ◌==◌, if◌then◌else◌,
  length, All,
}
use omnitrack_ai_platform.Batching.{
  ended, Compute, Coordinator, init, stop, linger, begin_batch, dispatch,
}
use omnitrack_ai_platform.Batching.Order.{
  Step, predicts, begins, lingers, dispatches, run, admitted, frames, in_hand,
}
use omnitrack_ai_platform.Batching.Answers.{IsPointwise, IsOwn, answered_in_order}
use omnitrack_ai_platform.Batching.Drain.{rounds, stop_drains}

abbrev twice : ℕ → ℕ
twice n = n + n

-- A batch of three raises.
abbrev detector : Compute ℕ ℕ
detector batch = if length batch == 3 then none else some (map twice batch)

detector-IsPointwise : IsPointwise detector twice
detector-IsPointwise batch results e = ground (arith, e)

abbrev steps : List (Step ℕ)
steps =
    predicts 1 ∷ predicts 2 ∷ begins ∷ lingers false ∷ predicts 3 ∷ lingers true ∷ dispatches ∷ []

two_answered : (run detector steps (init 2)).answered ≡ (1, some 2) ∷ (2, some 4) ∷ []
unfolding run init
two_answered = refl

answered_in_order_example :
    let c = run detector steps (init 2) in
    (frames c.answered ++ (in_hand c.phase ++ c.queue) ≡ admitted detector steps (init 2))
    × All (IsOwn twice) c.answered
answered_in_order_example = answered_in_order detector twice detector-IsPointwise 2 steps

abbrev busy : Coordinator ℕ ℕ
busy = run detector (predicts 1 ∷ predicts 2 ∷ begins ∷ predicts 3 ∷ []) (init 2)

stop_drains_example :
    let s = dispatch detector (linger true (stop busy)) in
    let d = begin_batch (rounds detector (length s.queue) s) in
    (d.phase ≡ ended)
    × (d.queue ≡ [])
    × (frames d.answered ≡ frames busy.answered ++ (in_hand busy.phase ++ busy.queue))
unfolding run init
stop_drains_example = stop_drains detector twice detector-IsPointwise busy (λ e. absurd cc)
