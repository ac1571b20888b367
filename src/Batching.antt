-- ===== src/Batching.antt =====
-- backend/batching.py, BatchCoordinator and BatchManager. The critical sections under the condition
-- variable are functions; the caller that waits for its slot is a request that has no answer yet. A
-- frame and a result are opaque; `Compute` is `Detector.predict_batch`, which raises where it gives
-- none.
use omnitrack_ai_platform.Prelude.{
  ℕ, max, Bool, true, false, not, ◌&&◌, Option, none, some, List, [], ◌∷◌, ◌++◌, map, ltb,
  if◌then◌else◌, length,
}
pub mod Order
pub mod Answers
pub mod Drain
mod Tests

abbrev pub Compute : Type 0 → Type 0 → Type 0
Compute F R = List F → Option (List R)

-- What the batch thread does: it waits for a first request, lingers for more, or computes.
pub data Phase (F : Type 0) : Type 0 where
  waiting : Phase F
  lingering computing : List F → Phase F
  ended : Phase F

pub record Coordinator (F R : Type 0) : Type 0 where
  pub max_size : ℕ
  pub queue : List F
  pub stopping : Bool
  pub phase : Phase F
  pub answered : List (F × Option R)

module _ {F R : Type 0} where
  unfoldable pub init : ℕ → Coordinator F R
  init size = record {
    max_size = max size 1;
    queue = [];
    stopping = false;
    phase = waiting;
    answered = [];
  }

  -- `predict` of a stream that is not alone: the request is queued, or refused while stopping.
  unfoldable pub predict : F → Coordinator F R → Coordinator F R
  predict f c = if c.stopping then c else record c { queue = c.queue ++ f ∷ [] }

  unfoldable pub stop : Coordinator F R → Coordinator F R
  stop c = record c { stopping = true }

  -- The head of `_batch_loop`: the end, or the first request of a batch.
  unfoldable pub begin_batch : Coordinator F R → Coordinator F R
  begin_batch c = elim c.phase [
    | waiting ↦ elim c.queue [
      | [] ↦ if c.stopping then record c { phase = ended } else c
      | f ∷ fs ↦ record c { queue = fs; phase = lingering (f ∷ []) }
    ]
    | other ↦ c
  ]

  -- A turn of the loop that lingers; where nothing is queued the deadline, or a wake for nothing,
  -- closes the batch.
  unfoldable pub linger : Bool → Coordinator F R → Coordinator F R
  linger timed_out c = elim c.phase [
    | lingering batch ↦
        if ltb (length batch) c.max_size && not c.stopping
        then (elim c.queue [
          | [] ↦ if timed_out then record c { phase = computing batch } else c
          | f ∷ fs ↦ record c { queue = fs; phase = lingering (batch ++ f ∷ []) }
        ])
        else record c { phase = computing batch }
    | other ↦ c
  ]

  -- `zip(batch, results)`.
  unfoldable pub scatter : List F → List R → List (F × Option R)
  scatter [] rs = []
  scatter (f ∷ fs) [] = []
  scatter (f ∷ fs) (r ∷ rs) = (f, some r) ∷ scatter fs rs

  -- The results of a batch, or its error for each.
  unfoldable pub answers : List F → Option (List R) → List (F × Option R)
  unfolding scatter
  answers batch none = map (λ f. (f, none)) batch
  answers batch (some results) = scatter batch results

  -- `_dispatch`.
  unfoldable pub dispatch : Compute F R → Coordinator F R → Coordinator F R
  unfolding answers
  dispatch compute c = elim c.phase [
    | computing batch ↦ record c {
      phase = waiting;
      answered = c.answered ++ answers batch (compute batch);
    }
    | other ↦ c
  ]
