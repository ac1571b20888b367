-- ===== src/Appearance/Presence.antt =====
-- What the appearance events of inference/events say of the tracks that are present.
use omnitrack_ai_platform.Prelude.{
  ℕ, ◌+◌, ◌≡◌, refl, ap, ◌∙◌, subst, inl, inr, Bool, false, not, ◌&&◌, ◌||◌, List, [], ◌∷◌, ◌++◌,
  arith, ◌==◌, if◌then◌else◌, Bool-cases, keep, mem,
}
use omnitrack_ai_platform.Prelude.Dict.{
  Dict, lookup, insert, erase, keys, HasOnce, mem-keys-insert, mem-keys-erase, insert-HasOnce,
  mem-keep, keep-HasOnce,
}
use omnitrack_ai_platform.Tracker.{TrackedObject}
use omnitrack_ai_platform.Appearance.{Event}
use omnitrack_ai_platform.Appearance.{
  Engine, EngineConfig, TrackMeta, appearances, difference, disappearances, insert_id,
  object_appeared, object_disappeared, objects_by_id, process, refresh_meta, sorted,
}
use omnitrack_ai_platform.Appearance.{forget, init, new_meta}

unfoldable pub appeared_count : ℕ → List Event → ℕ
appeared_count q [] = 0
appeared_count q (object_appeared id name ∷ es) =
    let rest = appeared_count q es in if q == id then rest + 1 else rest
appeared_count q (object_disappeared id name n ∷ es) = appeared_count q es

unfoldable pub disappeared_count : ℕ → List Event → ℕ
disappeared_count q [] = 0
disappeared_count q (object_appeared id name ∷ es) = disappeared_count q es
disappeared_count q (object_disappeared id name n ∷ es) =
    let rest = disappeared_count q es in if q == id then rest + 1 else rest

unfoldable count_of : ℕ → List ℕ → ℕ
count_of q [] = 0
count_of q (x ∷ xs) = let rest = count_of q xs in if q == x then rest + 1 else rest

abbrev pub one_if : Bool → ℕ
one_if b = if b then 1 else 0

count_of-HasOnce : (q : ℕ) (xs : List ℕ) → HasOnce xs → count_of q xs ≡ one_if (mem q xs)
unfolding count_of mem
count_of-HasOnce q [] h = refl
count_of-HasOnce q (x ∷ xs) h = elim (Bool-cases (q == x)) [
  | inl e ↦
      let same : x ≡ q = ground arith in
      let no : mem q xs ≡ false = subst (λ k. mem k xs ≡ false) same h.0 in
      ground (arith, count_of-HasOnce q xs h.1)
  | inr e ↦ ground (arith, count_of-HasOnce q xs h.1)
]

count_of-insert_id : (q k : ℕ) (xs : List ℕ) → count_of q (insert_id k xs) ≡ count_of q (k ∷ xs)
unfolding count_of insert_id
count_of-insert_id q k [] = refl
count_of-insert_id q k (x ∷ xs) = ground (arith, count_of-insert_id q k xs)

count_of-sorted : (q : ℕ) (xs : List ℕ) → count_of q (sorted xs) ≡ count_of q xs
unfolding count_of sorted
count_of-sorted q [] = refl
count_of-sorted q (x ∷ xs) =
    ground (arith, count_of-insert_id q x (sorted xs), count_of-sorted q xs)

appeared_count-append :
    (q : ℕ) (xs ys : List Event)
    → appeared_count q (xs ++ ys) ≡ appeared_count q xs + appeared_count q ys
unfolding appeared_count
appeared_count-append q [] ys = omega arith
appeared_count-append q (object_appeared id n ∷ xs) ys =
    ground (arith, appeared_count-append q xs ys)
appeared_count-append q (object_disappeared id n k ∷ xs) ys = appeared_count-append q xs ys

disappeared_count-append :
    (q : ℕ) (xs ys : List Event)
    → disappeared_count q (xs ++ ys) ≡ disappeared_count q xs + disappeared_count q ys
unfolding disappeared_count
disappeared_count-append q [] ys = omega arith
disappeared_count-append q (object_appeared id n ∷ xs) ys = disappeared_count-append q xs ys
disappeared_count-append q (object_disappeared id n k ∷ xs) ys =
    ground (arith, disappeared_count-append q xs ys)

appearances-count :
    (config : EngineConfig) (objects : Dict TrackedObject) (q : ℕ) (xs : List ℕ)
    → (appeared_count q (appearances config objects xs) ≡ count_of q xs)
      × (disappeared_count q (appearances config objects xs) ≡ 0)
unfolding appearances appeared_count disappeared_count count_of
appearances-count config objects q [] = (refl, refl)
appearances-count config objects q (x ∷ xs) = ground (arith, appearances-count config objects q xs)

disappearances-count :
    (metas : Dict TrackMeta) (q : ℕ) (xs : List ℕ)
    → (disappeared_count q (disappearances metas xs) ≡ count_of q xs)
      × (appeared_count q (disappearances metas xs) ≡ 0)
unfolding disappearances appeared_count disappeared_count count_of
disappearances-count metas q [] = (refl, refl)
disappearances-count metas q (x ∷ xs) = ground (arith, disappearances-count metas q xs)

difference-count :
    (q : ℕ) (xs ys : List ℕ)
    → HasOnce xs
    → count_of q (sorted (difference xs ys)) ≡ one_if (mem q xs && not (mem q ys))
unfolding difference
difference-count q xs ys h =
    count_of-sorted q (keep (λ k. not (mem k ys)) xs)
    ∙ count_of-HasOnce q (keep (λ k. not (mem k ys)) xs) (keep-HasOnce (λ k. not (mem k ys)) xs h)
    ∙ ap one_if (mem-keep q (λ k. not (mem k ys)) xs)

objects_by_id-HasOnce :
    (m : Dict TrackedObject) (ts : List TrackedObject)
    → HasOnce (keys m)
    → HasOnce (keys (objects_by_id m ts))
unfolding objects_by_id
objects_by_id-HasOnce m [] h = h
objects_by_id-HasOnce m (t ∷ ts) h =
    objects_by_id-HasOnce (insert t.track_id t m) ts (insert-HasOnce t.track_id t m h)

process-HasOnce :
    (config : EngineConfig) (e : Engine) (frame : ℕ) (ts : List TrackedObject)
    → HasOnce e.known_ids
    → HasOnce (process config e frame ts).0.known_ids
unfolding process
process-HasOnce config e frame ts h = elim (Bool-cases config.enabled) [
  | inl on ↦ rw on (objects_by_id-HasOnce [] ts tt)
  | inr off ↦ rw off h
]

-- One frame keeps the account of a track.
process-account :
    (config : EngineConfig) (e : Engine) (frame : ℕ) (ts : List TrackedObject) (q : ℕ)
    → HasOnce e.known_ids
    → appeared_count q (process config e frame ts).1 + one_if (mem q e.known_ids)
      ≡ disappeared_count q (process config e frame ts).1
        + one_if (mem q (process config e frame ts).0.known_ids)
unfolding process appeared_count disappeared_count
process-account config e frame ts q h = elim (Bool-cases config.enabled) [
  | inl on ↦
      let current = objects_by_id [] ts in
      let gone = difference e.known_ids (keys current) in
      let metas = refresh_meta config frame current e.meta_by_id in
      let ins = sorted (difference (keys current) e.known_ids) in
      let a = appearances config current ins in
      let d = disappearances metas (sorted gone) in
      rw on (
        ground (
          arith,
          appeared_count-append q a d,
          disappeared_count-append q a d,
          appearances-count config current q ins,
          disappearances-count metas q (sorted gone),
          difference-count q (keys current) e.known_ids (objects_by_id-HasOnce [] ts tt),
          difference-count q e.known_ids (keys current) h,
        ))
  | inr off ↦ rw off refl
]

-- The events of some frames, each with its number, its tracks and the configuration of the time.
unfoldable pub run : Engine → List (EngineConfig × ℕ × List TrackedObject) → Engine × List Event
unfolding process
run e [] = (e, [])
run e ((config, frame, ts) ∷ frames) =
    let first = process config e frame ts in
    let rest = run first.0 frames in (rest.0, first.1 ++ rest.1)

run-account :
    (e : Engine) (frames : List (EngineConfig × ℕ × List TrackedObject)) (q : ℕ)
    → HasOnce e.known_ids
    → appeared_count q (run e frames).1 + one_if (mem q e.known_ids)
      ≡ disappeared_count q (run e frames).1 + one_if (mem q (run e frames).0.known_ids)
unfolding run appeared_count disappeared_count
run-account e [] q h = refl
run-account e ((config, frame, ts) ∷ frames) q h =
    let first = process config e frame ts in
    let rest = run first.0 frames in
    let a = process-account config e frame ts q h in
    let b = run-account first.0 frames q (process-HasOnce config e frame ts h) in
    omega (
      arith,
      a,
      b,
      appeared_count-append q first.1 rest.1,
      disappeared_count-append q first.1 rest.1,
    )

-- Over any frames of a new engine, with its configuration switched on and off at will, a track is
-- reported as appeared exactly once more often than as disappeared if it is known at the end, and
-- equally often if not: no appearance is raised twice and none is left without its end.
pub appearances_balance :
    (frames : List (EngineConfig × ℕ × List TrackedObject)) (q : ℕ)
    → appeared_count q (run init frames).1
      ≡ disappeared_count q (run init frames).1 + one_if (mem q (run init frames).0.known_ids)
unfolding init mem
appearances_balance frames q = let a = run-account init frames q tt in omega (arith, a)

mem-keys-refresh_meta :
    (config : EngineConfig) (frame q : ℕ) (objects : Dict TrackedObject) (metas : Dict TrackMeta)
    → mem q (keys (refresh_meta config frame objects metas))
      ≡ (mem q (keys objects) || mem q (keys metas))
unfolding refresh_meta mem
mem-keys-refresh_meta config frame q [] metas = refl
mem-keys-refresh_meta config frame q ((id, t) ∷ objects) metas =
    let new = new_meta config frame t (lookup id metas) in
    ground (
      arith,
      mem-keys-refresh_meta config frame q objects (insert id new metas),
      mem-keys-insert q id new metas,
    )

mem-keys-forget :
    (q : ℕ) (ids : List ℕ) (metas : Dict TrackMeta)
    → mem q (keys (forget ids metas)) ≡ (mem q (keys metas) && not (mem q ids))
unfolding forget mem
mem-keys-forget q [] metas = ground arith
mem-keys-forget q (id ∷ ids) metas =
    ground (arith, mem-keys-forget q ids (erase id metas), mem-keys-erase q id metas)

-- The summaries are those of the known tracks.
IsPruned : Engine → Type 0
IsPruned e = (q : ℕ) → mem q (keys e.meta_by_id) ≡ mem q e.known_ids

process-IsPruned :
    (config : EngineConfig) (e : Engine) (frame : ℕ) (ts : List TrackedObject)
    → IsPruned e
    → IsPruned (process config e frame ts).0
unfolding process IsPruned difference
process-IsPruned config e frame ts h q = elim (Bool-cases config.enabled) [
  | inl on ↦
      let current = objects_by_id [] ts in
      let gone = difference e.known_ids (keys current) in
      let metas = refresh_meta config frame current e.meta_by_id in
      rw on (
        ground (
          arith,
          mem-keys-forget q gone metas,
          mem-keys-refresh_meta config frame q current e.meta_by_id,
          mem-keep q (λ k. not (mem k (keys current))) e.known_ids,
          h q,
        ))
  | inr off ↦ rw off (h q)
]

run-IsPruned :
    (e : Engine) (frames : List (EngineConfig × ℕ × List TrackedObject))
    → IsPruned e
    → IsPruned (run e frames).0
unfolding run
run-IsPruned e [] h = h
run-IsPruned e ((config, frame, ts) ∷ frames) h =
    run-IsPruned (process config e frame ts).0 frames (process-IsPruned config e frame ts h)

-- After any frames of a new engine, a track has a summary exactly when it is known: the memory of
-- the engine is bounded by the tracks of the last frame it derived events for.
summaries_pruned :
    (frames : List (EngineConfig × ℕ × List TrackedObject)) (q : ℕ)
    → mem q (keys (run init frames).0.meta_by_id) ≡ mem q (run init frames).0.known_ids
unfolding init IsPruned
summaries_pruned frames q = run-IsPruned init frames (λ k. refl) q
