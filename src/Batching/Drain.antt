-- ===== src/Batching/Drain.antt =====
-- The end of the batch thread of backend/batching.py.

-- `n` rounds of `_batch_loop` while nobody calls.
use omnitrack_ai_platform.Prelude.{
  ℕ, zero, suc, ◌≡◌, refl, sym, ap, ◌∙◌, subst, ◌≢◌, Bool, true, false, ◌&&◌, Option, List, [], ◌∷◌,
  ◌++◌, ltb, if◌then◌else◌, length,
}
use mathlib.Core.List.{append_assoc, append-nil}
use omnitrack_ai_platform.Batching.{
  waiting, ended, Coordinator, Compute, begin_batch, linger, dispatch,
}
use omnitrack_ai_platform.Batching.Order.{frames}
use omnitrack_ai_platform.Batching.Answers.{IsPointwise}
use omnitrack_ai_platform.Batching.{Phase, computing, lingering, stop}
use omnitrack_ai_platform.Batching.Order.{frames-append, in_hand}
use omnitrack_ai_platform.Batching.Answers.{answers-frames}
use omnitrack_ai_platform.Batching.{answers}

unfoldable pub rounds : {F R : Type 0} → Compute F R → ℕ → Coordinator F R → Coordinator F R
unfolding begin_batch linger dispatch
rounds compute zero c = c
rounds compute (suc n) c = rounds compute n (dispatch compute (linger true (begin_batch c)))

module _ {F R : Type 0} (compute : Compute F R) (one : F → R)
    (pointwise : IsPointwise compute one) where
  -- A coordinator that is stopping, between two batches.
  abbrev between : ℕ → List F → List (F × Option R) → Coordinator F R
  between size q done = record {
    max_size = size;
    queue = q;
    stopping = true;
    phase = waiting;
    answered = done;
  }

  never_then : (b : Bool) (x y : Coordinator F R) → (if b && false then x else y) ≡ y
  never_then true x y = refl
  never_then false x y = refl

  -- A batch is closed where the coordinator is stopping.
  linger-stopping :
      (t : Bool) (size : ℕ) (batch q : List F) (done : List (F × Option R))
      → linger t (record (between size q done) { phase = lingering batch })
        ≡ record (between size q done) { phase = computing batch }
  unfolding linger
  linger-stopping t size batch q done = never_then (ltb (length batch) size) _ _

  round-between :
      (size : ℕ) (f : F) (fs : List F) (done : List (F × Option R))
      → dispatch compute (linger true (begin_batch (between size (f ∷ fs) done)))
        ≡ between size fs (done ++ answers (f ∷ []) (compute (f ∷ [])))
  unfolding begin_batch dispatch
  round-between size f fs done = ap (dispatch compute) (linger-stopping true size (f ∷ []) fs done)

  rounds-between :
      (size : ℕ) (q : List F) (done : List (F × Option R))
      → let d = begin_batch (rounds compute (length q) (between size q done)) in
        (d.phase ≡ ended) × (d.queue ≡ []) × (frames d.answered ≡ frames done ++ q)
  unfolding rounds begin_batch
  rounds-between size [] done = (refl, refl, sym (append-nil (frames done)))
  rounds-between size (f ∷ fs) done =
      let next = done ++ answers (f ∷ []) (compute (f ∷ [])) in
      let rest = rounds-between size fs next in
      let told : frames next ++ fs ≡ frames done ++ f ∷ fs =
        ap (λ x. x ++ fs)
          (frames-append done (answers (f ∷ []) (compute (f ∷ [])))
            ∙ ap (λ x. frames done ++ x) (answers-frames compute one pointwise (f ∷ [])))
        ∙ append_assoc (frames done) (f ∷ []) fs in
      subst
        (λ c.
          let d = begin_batch (rounds compute (length fs) c) in
          (d.phase ≡ ended) × (d.queue ≡ []) × (frames d.answered ≡ frames done ++ f ∷ fs))
        (sym (round-between size f fs done)) (rest.0, rest.1, rest.2 ∙ told)

  -- Where a fused pass either raises or gives one result for each of its frames, the one that its
  -- frame gives alone: once `stop` is called and nobody calls any more, a batch thread that has not
  -- ended ends. It closes the batch that it has, takes one request a round, as many rounds as there
  -- are requests queued, and then every request that it had or that was queued is answered, in their
  -- order.
  pub stop_drains :
      (c : Coordinator F R)
      → c.phase ≢ ended
      → let s = dispatch compute (linger true (stop c)) in
        let d = begin_batch (rounds compute (length s.queue) s) in
        (d.phase ≡ ended)
        × (d.queue ≡ [])
        × (frames d.answered ≡ frames c.answered ++ (in_hand c.phase ++ c.queue))
  unfolding stop linger dispatch
  stop_drains c on = by_phase c.phase on
    where
      Ends : List F → Coordinator F R → Type 0
      Ends batch s =
          let d = begin_batch (rounds compute (length s.queue) s) in
          (d.phase ≡ ended)
          × (d.queue ≡ [])
          × (frames d.answered ≡ frames c.answered ++ (batch ++ c.queue))

      closes :
          (batch : List F)
          → Ends batch (between c.max_size c.queue (c.answered ++ answers batch (compute batch)))
      closes batch =
          let r = rounds-between c.max_size c.queue (c.answered ++ answers batch (compute batch)) in
          (
            r.0,
            r.1,
            r.2
                ∙ ap (λ x. x ++ c.queue)
                    (frames-append c.answered (answers batch (compute batch))
                      ∙ ap (λ x. frames c.answered ++ x)
                          (answers-frames compute one pointwise batch))
                ∙ append_assoc (frames c.answered) batch c.queue,
          )

      by_phase :
          (p : Phase F)
          → p ≢ ended
          → Ends
              (in_hand p)
              (dispatch compute (linger true (record c { stopping = true; phase = p })))
      by_phase waiting on = rounds-between c.max_size c.queue c.answered
      by_phase (lingering batch) on =
          subst (λ x. Ends batch (dispatch compute x))
            (sym (linger-stopping true c.max_size batch c.queue c.answered)) (closes batch)
      by_phase (computing batch) on = closes batch
      by_phase ended on = absurd (on refl)
