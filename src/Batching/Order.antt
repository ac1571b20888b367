-- ===== src/Batching/Order.antt =====
-- The order of the answers of backend/batching.py, whatever the callers and the batch thread do.

-- A step of a caller or of the batch thread.
use omnitrack_ai_platform.Prelude.{
  ◌≡◌, refl, ap, Bool, true, false, not, ◌&&◌, Option, none, List, [], ◌∷◌, ◌++◌, map, arith, ltb,
  if◌then◌else◌, length, All,
}
use mathlib.Core.List.{append_assoc}
use omnitrack_ai_platform.Batching.{
  Phase, waiting, lingering, computing, ended, Coordinator, Compute, predict, stop, begin_batch,
  linger, scatter, dispatch,
}

pub data Step (F : Type 0) : Type 0 where
  predicts : F → Step F
  stops begins : Step F
  lingers : Bool → Step F
  dispatches : Step F

module _ {F R : Type 0} (compute : Compute F R) where
  unfoldable pub step : Step F → Coordinator F R → Coordinator F R
  unfolding predict stop begin_batch linger dispatch
  step (predicts f) c = predict f c
  step stops c = stop c
  step begins c = begin_batch c
  step (lingers b) c = linger b c
  step dispatches c = dispatch compute c

  unfoldable pub run : List (Step F) → Coordinator F R → Coordinator F R
  unfolding step
  run [] c = c
  run (x ∷ xs) c = run xs (step x c)

  -- The frames that are not refused, in their order.
  unfoldable pub admitted : List (Step F) → Coordinator F R → List F
  unfolding step
  admitted [] c = []
  admitted (predicts f ∷ xs) c =
      let rest = admitted xs (step (predicts f) c) in if c.stopping then rest else f ∷ rest
  admitted (x ∷ xs) c = admitted xs (step x c)

-- The requests of the batch thread.
abbrev pub in_hand : {F : Type 0} → Phase F → List F
in_hand waiting = []
in_hand (lingering batch) = batch
in_hand (computing batch) = batch
in_hand ended = []

abbrev pub frames : {F R : Type 0} → List (F × Option R) → List F
frames = map (λ a. a.0)

abbrev pub none_for : (F R : Type 0) → List F → List (F × Option R)
none_for F R fs = map (λ f. (f, none)) fs

pub frames-none_for : (F R : Type 0) (fs : List F) → frames (none_for F R fs) ≡ fs
frames-none_for F R [] = refl
frames-none_for F R (f ∷ fs) = ap (λ t. f ∷ t) (frames-none_for F R fs)

pub All-append :
    {A : Type 0} (P : A → Type 0) (xs ys : List A) → All P xs → All P ys → All P (xs ++ ys)
All-append P [] ys hs ks = ks
All-append P (x ∷ xs) ys hs ks = (hs.0, All-append P xs ys hs.1 ks)

module _ {F R : Type 0} where
  pub frames-append : (xs ys : List (F × Option R)) → frames (xs ++ ys) ≡ frames xs ++ frames ys
  frames-append [] ys = refl
  frames-append (x ∷ xs) ys = ap (λ t. x.0 ∷ t) (frames-append xs ys)

  pub frames-scatter : (one : F → R) (fs : List F) → frames (scatter fs (map one fs)) ≡ fs
  unfolding scatter
  frames-scatter one [] = refl
  frames-scatter one (f ∷ fs) = ap (λ t. f ∷ t) (frames-scatter one fs)

  -- All the requests, in the order of their answers to come.
  abbrev pub everything : Coordinator F R → List F
  everything c = frames c.answered ++ (in_hand c.phase ++ c.queue)

  pub begin_batch-everything : (c : Coordinator F R) → everything (begin_batch c) ≡ everything c
  unfolding begin_batch
  begin_batch-everything c = by_phase c.phase c.queue c.stopping
    where
      by_phase :
          (p : Phase F) (q : List F) (b : Bool)
          → everything (begin_batch (record c { phase = p; queue = q; stopping = b }))
            ≡ frames c.answered ++ (in_hand p ++ q)
      by_phase waiting [] true = refl
      by_phase waiting [] false = refl
      by_phase waiting (f ∷ fs) b = refl
      by_phase (lingering batch) q b = refl
      by_phase (computing batch) q b = refl
      by_phase ended q b = refl

  pub linger-everything : (t : Bool) (c : Coordinator F R) → everything (linger t c) ≡ everything c
  unfolding linger
  linger-everything t c = by_phase c.phase c.queue t
    where
      at : Phase F → List F → Coordinator F R
      at p q = record c { phase = p; queue = q }

      by_phase :
          (p : Phase F) (q : List F) (u : Bool)
          → everything (linger u (at p q)) ≡ frames c.answered ++ (in_hand p ++ q)
      by_phase waiting q u = refl
      by_phase (lingering batch) q u = by_room (ltb (length batch) c.max_size && not c.stopping) q u
        where
          by_room :
              (room : Bool) (q : List F) (u : Bool)
              → everything (
                  if room
                  then (elim q as (λ x. Coordinator F R) [
                    | [] ↦
                        if u
                        then record c { phase = computing batch; queue = q }
                        else at (lingering batch) q
                    | f ∷ fs ↦ record c { queue = fs; phase = lingering (batch ++ f ∷ []) }
                  ])
                  else record c { phase = computing batch; queue = q })
                ≡ frames c.answered ++ (batch ++ q)
          by_room false q u = refl
          by_room true [] true = refl
          by_room true [] false = refl
          by_room true (f ∷ fs) u =
              ap (λ x. frames c.answered ++ x) (append_assoc batch (f ∷ []) fs)
      by_phase (computing batch) q u = refl
      by_phase ended q u = refl

  pub linger-answered : (t : Bool) (c : Coordinator F R) → (linger t c).answered ≡ c.answered
  unfolding linger
  linger-answered t c = by_phase c.phase c.queue t
    where
      by_phase :
          (p : Phase F) (q : List F) (u : Bool)
          → (linger u (record c { phase = p; queue = q })).answered ≡ c.answered
      by_phase waiting q u = refl
      by_phase (lingering batch) [] true = ground arith
      by_phase (lingering batch) [] false = ground arith
      by_phase (lingering batch) (f ∷ fs) u = ground arith
      by_phase (computing batch) q u = refl
      by_phase ended q u = refl
