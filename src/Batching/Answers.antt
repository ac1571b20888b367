-- ===== src/Batching/Answers.antt =====
-- backend/batching.py: the answers of the batches, and runs of the callers and the batch thread.

-- Where a fused pass gives results, they are those of the single frames, in their order.
use omnitrack_ai_platform.Prelude.{
  ℕ, ◌≡◌, refl, sym, ap, ◌∙◌, subst, ◌⊎◌, inl, inr, Bool, true, false, Option, none, some, List, [],
  ◌∷◌, ◌++◌, map, if◌then◌else◌, All,
}
use mathlib.Core.List.{append_assoc, append-nil}
use omnitrack_ai_platform.Batching.{
  answers, Phase, waiting, lingering, computing, ended, Coordinator, Compute, predict, stop,
  begin_batch, linger, scatter, dispatch,
}
use omnitrack_ai_platform.Batching.{init}
use omnitrack_ai_platform.Batching.Order.{
  All-append, Step, admitted, begins, dispatches, everything, frames, frames-none_for, in_hand,
  lingers, none_for, predicts, run, step, stops,
}
use omnitrack_ai_platform.Batching.Order.{
  begin_batch-everything, frames-append, frames-scatter, linger-answered, linger-everything,
}

abbrev pub IsPointwise : {F R : Type 0} → Compute F R → (F → R) → Type 0
IsPointwise {F} {R} compute one =
    (batch : List F) (results : List R) → compute batch ≡ some results → results ≡ map one batch

-- An answer is an error, or the result of its own frame.
abbrev pub IsOwn : {F R : Type 0} → (F → R) → F × Option R → Type 0
IsOwn one a = (a.1 ≡ none) ⊎ (a.1 ≡ some (one a.0))

module _ {F R : Type 0} (compute : Compute F R) (one : F → R)
    (pointwise : IsPointwise compute one) where
  pub answers-frames : (batch : List F) → frames (answers batch (compute batch)) ≡ batch
  unfolding answers
  answers-frames batch = by_result (compute batch) refl
    where
      by_result : (o : Option (List R)) → compute batch ≡ o → frames (answers batch o) ≡ batch
      by_result none e = frames-none_for F R batch
      by_result (some results) e =
          subst (λ rs. frames (scatter batch rs) ≡ batch) (sym (pointwise batch results e))
            (frames-scatter one batch)

  dispatch-everything : (c : Coordinator F R) → everything (dispatch compute c) ≡ everything c
  unfolding dispatch
  dispatch-everything c = by_phase c.phase
    where
      by_phase :
          (p : Phase F)
          → everything (dispatch compute (record c { phase = p }))
            ≡ frames c.answered ++ (in_hand p ++ c.queue)
      by_phase waiting = refl
      by_phase (lingering batch) = refl
      by_phase (computing batch) =
          ap (λ x. x ++ c.queue)
            (frames-append c.answered (answers batch (compute batch))
              ∙ ap (λ x. frames c.answered ++ x) (answers-frames batch))
          ∙ append_assoc (frames c.answered) batch c.queue
      by_phase ended = refl

  predict-everything :
      (f : F) (c : Coordinator F R)
      → everything (predict f c) ≡ (if c.stopping then everything c else everything c ++ f ∷ [])
  unfolding predict
  predict-everything f c = by_stopping c.stopping
    where
      by_stopping :
          (b : Bool)
          → everything (if b then c else record c { queue = c.queue ++ f ∷ [] })
            ≡ (if b then everything c else everything c ++ f ∷ [])
      by_stopping true = refl
      by_stopping false =
          ap (λ x. frames c.answered ++ x) (sym (append_assoc (in_hand c.phase) c.queue (f ∷ [])))
          ∙ sym (append_assoc (frames c.answered) (in_hand c.phase ++ c.queue) (f ∷ []))

  run-everything :
      (xs : List (Step F)) (c : Coordinator F R)
      → everything (run compute xs c) ≡ everything c ++ admitted compute xs c
  unfolding run step admitted
  run-everything [] c = sym (append-nil (everything c))
  run-everything (stops ∷ xs) c = run-everything xs (stop c)
  run-everything (begins ∷ xs) c =
      run-everything xs (begin_batch c)
      ∙ ap (λ x. x ++ admitted compute xs (begin_batch c)) (begin_batch-everything c)
  run-everything (lingers t ∷ xs) c =
      run-everything xs (linger t c)
      ∙ ap (λ x. x ++ admitted compute xs (linger t c)) (linger-everything t c)
  run-everything (dispatches ∷ xs) c =
      run-everything xs (dispatch compute c)
      ∙ ap (λ x. x ++ admitted compute xs (dispatch compute c)) (dispatch-everything c)
  run-everything (predicts f ∷ xs) c =
      run-everything xs (predict f c)
      ∙ ap (λ x. x ++ later) (predict-everything f c)
      ∙ by_stopping c.stopping
    where
      later : List F
      later = admitted compute xs (predict f c)

      by_stopping :
          (b : Bool)
          → (if b then everything c else everything c ++ f ∷ []) ++ later
            ≡ everything c ++ (if b then later else f ∷ later)
      by_stopping true = refl
      by_stopping false = append_assoc (everything c) (f ∷ []) later

  -- The answers are those of own frames.
  answers-IsOwn : (batch : List F) → All (IsOwn one) (answers batch (compute batch))
  unfolding scatter answers
  answers-IsOwn batch = by_result (compute batch) refl
    where
      errors : (fs : List F) → All (IsOwn one) (none_for F R fs)
      errors [] = tt
      errors (f ∷ fs) = (inl refl, errors fs)

      results_of : (fs : List F) → All (IsOwn one) (scatter fs (map one fs))
      results_of [] = tt
      results_of (f ∷ fs) = (inr refl, results_of fs)

      by_result : (o : Option (List R)) → compute batch ≡ o → All (IsOwn one) (answers batch o)
      by_result none e = errors batch
      by_result (some results) e =
          subst (λ rs. All (IsOwn one) (scatter batch rs)) (sym (pointwise batch results e))
            (results_of batch)

  step-IsOwn :
      (x : Step F) (c : Coordinator F R)
      → All (IsOwn one) c.answered
      → All (IsOwn one) (step compute x c).answered
  unfolding step predict stop begin_batch linger dispatch
  step-IsOwn (predicts f) c h =
      elim c.stopping
        as (λ b.
          All (IsOwn one) (if b then c else record c { queue = c.queue ++ f ∷ [] }).answered) [
            | true ↦ h
            | false ↦ h
          ]
  step-IsOwn stops c h = h
  step-IsOwn begins c h = by_phase c.phase c.queue c.stopping
    where
      by_phase :
          (p : Phase F) (q : List F) (b : Bool)
          → All (IsOwn one) (begin_batch (record c { phase = p; queue = q; stopping = b })).answered
      by_phase waiting [] true = h
      by_phase waiting [] false = h
      by_phase waiting (f ∷ fs) b = h
      by_phase (lingering batch) q b = h
      by_phase (computing batch) q b = h
      by_phase ended q b = h
  step-IsOwn (lingers t) c h = subst (All (IsOwn one)) (sym (linger-answered t c)) h
  step-IsOwn dispatches c h = by_phase c.phase
    where
      by_phase :
          (p : Phase F) → All (IsOwn one) (dispatch compute (record c { phase = p })).answered
      by_phase waiting = h
      by_phase (lingering batch) = h
      by_phase (computing batch) =
          All-append (IsOwn one) c.answered (answers batch (compute batch)) h (answers-IsOwn batch)
      by_phase ended = h

  run-IsOwn :
      (xs : List (Step F)) (c : Coordinator F R)
      → All (IsOwn one) c.answered
      → All (IsOwn one) (run compute xs c).answered
  unfolding run
  run-IsOwn [] c h = h
  run-IsOwn (x ∷ xs) c h = run-IsOwn xs (step compute x c) (step-IsOwn x c h)

  -- Where the fused passes give the results of the single frames: over any steps of the callers and of
  -- the batch thread, the requests that are answered, those in its hand and those queued are, in this
  -- order, the ones that were not refused. So none is lost, answered twice or overtaken; and an
  -- answer is an error or the result of its own frame.
  pub answered_in_order :
      (size : ℕ) (xs : List (Step F))
      → let c = run compute xs (init size) in
        (frames c.answered ++ (in_hand c.phase ++ c.queue) ≡ admitted compute xs (init size))
        × All (IsOwn one) c.answered
  unfolding init
  answered_in_order size xs = (run-everything xs (init size), run-IsOwn xs (init size) tt)
