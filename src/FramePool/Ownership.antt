-- ===== src/FramePool/Ownership.antt =====
-- Who owns a buffer of inference/frame_pool.py.

-- How often a bucket holds a buffer, and how often the pool does.
use omnitrack_ai_platform.Prelude.{
  ℕ, zero, suc, ◌+◌, ◌-◌, ◌≤◌, ◌<◌, min, ◌≡◌, refl, ◌≢◌, inl, inr, Bool, ◌&&◌, some, List, [], ◌∷◌,
  ◌++◌, arith, ltb, leb, ◌==◌, if◌then◌else◌, Option-cases, keep,
}
use omnitrack_ai_platform.Prelude.Dict.{Dict, lookup, insert}
use omnitrack_ai_platform.FramePool.{FramePool}
use omnitrack_ai_platform.FramePool.{
  Free, bucket, cleanup_rounds, is_fresh, pop_last, seed, seed_rounds,
}
use omnitrack_ai_platform.FramePool.{acquire, cleanup_locked, put_back, release}

unfoldable pub count : ℕ → List Free → ℕ
count a [] = 0
count a (f ∷ fs) = if a == f.array then suc (count a fs) else count a fs

unfoldable pub holds : ℕ → Dict (List Free) → ℕ
unfolding count
holds a [] = 0
holds a ((key, fs) ∷ m) = count a fs + holds a m

-- No buffer is in the pool twice, and none that was never allocated.
abbrev pub IsOwned : FramePool → Type 0
IsOwned p = (a : ℕ) → (holds a p.free ≤ 1) × (p.allocations ≤ a → holds a p.free ≡ 0)

count-append : (a : ℕ) (fs gs : List Free) → count a (fs ++ gs) ≡ count a fs + count a gs
unfolding count
count-append a [] gs = omega arith
count-append a (f ∷ fs) gs = ground (arith, count-append a fs gs)

count-keep_le : (a : ℕ) (p : Free → Bool) (fs : List Free) → count a (keep p fs) ≤ count a fs
unfolding count
count-keep_le a p [] = omega arith
count-keep_le a p (f ∷ fs) = ground (arith, count-keep_le a p fs)

pub holds-insert :
    (a key : ℕ) (fs : List Free) (m : Dict (List Free))
    → holds a (insert key fs m) + count a (bucket key m) ≡ holds a m + count a fs
unfolding holds insert bucket lookup
holds-insert a key fs [] = omega arith
holds-insert a key fs ((k, gs) ∷ m) = ground (arith, holds-insert a key fs m)

pub count-bucket_le : (a key : ℕ) (m : Dict (List Free)) → count a (bucket key m) ≤ holds a m
unfolding holds bucket lookup
count-bucket_le a key [] = omega arith
count-bucket_le a key ((k, gs) ∷ m) = ground (arith, count-bucket_le a key m)

pub count-pop_last :
    (a : ℕ) (fs : List Free) (f : Free) (rest : List Free)
    → pop_last fs ≡ some (f, rest)
    → count a fs ≡ count a rest + (if a == f.array then 1 else 0)
unfolding pop_last count
count-pop_last a [] f rest h = cc
count-pop_last a (x ∷ []) f rest h = ground arith
count-pop_last a (x ∷ y ∷ fs) f rest h = elim (Option-cases (pop_last (y ∷ fs))) [
  | inl e ↦ absurd (ground arith)
  | inr ((l, r), e) ↦ ground (arith, count-pop_last a (y ∷ fs) l r e)
]

count-one :
    (a next now : ℕ)
    → count a (record { array = next; released_at = now } ∷ []) ≡ (if a == next then 1 else 0)
unfolding count
count-one a next now = ground arith

-- The seeding adds each new buffer once.
pub count-seed_rounds :
    (a n next now : ℕ) (fs : List Free)
    → count a (seed_rounds n next now fs)
      ≡ count a fs + (if leb next a && ltb a (next + n) then 1 else 0)
unfolding seed_rounds
count-seed_rounds a zero next now fs = ground arith
count-seed_rounds a (suc n) next now fs = ground (
  arith,
  count-seed_rounds a n (next + 1) now (fs ++ record { array = next; released_at = now } ∷ []),
  count-append a fs (record { array = next; released_at = now } ∷ []),
  count-one a next now,
)

pub holds-cleanup_rounds :
    (a now idle : ℕ) (m : Dict (List Free)) → holds a (cleanup_rounds now idle m).0 ≤ holds a m
unfolding holds cleanup_rounds
holds-cleanup_rounds a now idle [] = omega arith
holds-cleanup_rounds a now idle ((key, fs) ∷ m) =
    ground (arith, holds-cleanup_rounds a now idle m, count-keep_le a (is_fresh now idle) fs)

seed-holds :
    (p : FramePool) (key now a : ℕ)
    → IsOwned p
    → (holds a (seed p key now).free ≤ 1)
      × ((seed p key now).allocations ≤ a → holds a (seed p key now).free ≡ 0)
      × (p.allocations ≤ (seed p key now).allocations)
unfolding seed
seed-holds p key now a h = ground (
  arith,
  h a,
  count-bucket_le a key p.free,
  holds-insert a key (seed_rounds n p.allocations now (bucket key p.free)) p.free,
  count-seed_rounds a n p.allocations now (bucket key p.free),
)
  where
    n : ℕ
    n = min p.initial_size (p.max_size - p.free_count)

allocations-cleanup :
    (p : FramePool) (now idle : ℕ) → (cleanup_locked p now idle).0.allocations ≡ p.allocations
unfolding cleanup_locked
allocations-cleanup p now idle = refl

-- A buffer that is handed out is allocated and no longer in the pool.
pub acquire_exclusive :
    (p : FramePool) (key now : ℕ)
    → IsOwned p
    → IsOwned (acquire p key now).0
      × (holds (acquire p key now).1 (acquire p key now).0.free ≡ 0)
      × ((acquire p key now).1 < (acquire p key now).0.allocations)
      × (p.allocations ≤ (acquire p key now).0.allocations)
unfolding acquire
acquire_exclusive p key now h = elim (Option-cases (pop_last (bucket key p.free))) [
  | inl e ↦
      let missed : FramePool = record p { misses = p.misses + 1 } in
      let s = seed-holds missed key now in
      let grown = (s 0 h).2 in
      rw (e, acquire)
        (
          (λ a. (omega (arith, (s a h).0), λ le. (s a h).1 (omega arith))),
          (s (seed missed key now).allocations h).1 (omega arith),
          omega arith,
          omega arith,
        )
  | inr ((f, rest), e) ↦
      let moved = λ (a : ℕ). holds-insert a key rest p.free in
      let popped = λ (a : ℕ). count-pop_last a (bucket key p.free) f rest e in
      rw (e, acquire)
        (
          (λ a. (
            omega (arith, (h a).0, moved a, popped a, count-bucket_le a key p.free),
            λ le. omega (arith, (h a).1 le, moved a, popped a, count-bucket_le a key p.free),
          )),
          ground
              (arith, h f.array, moved f.array, popped f.array, count-bucket_le f.array key p.free),
          ground (arith, h f.array, popped f.array, count-bucket_le f.array key p.free),
          omega arith,
        )
]

put_back-IsOwned :
    (p : FramePool) (key array now : ℕ)
    → IsOwned p
    → holds array p.free ≡ 0
    → array < p.allocations
    → IsOwned (put_back p key array now)
      × ((a : ℕ) → a ≢ array → holds a (put_back p key array now).free ≤ holds a p.free)
      × ((put_back p key array now).allocations ≡ p.allocations)
unfolding put_back
put_back-IsOwned p key array now h out lt = (
  λ a. ground (arith, h a, added a, counted a, moved a),
  λ a other. ground (arith, added a, counted a, moved a),
  ground arith,
)
  where
    grown : List Free
    grown = bucket key p.free ++ record { array = array; released_at = now } ∷ []

    added :
        (a : ℕ)
        → count a grown
          ≡ count a (bucket key p.free) + count a (record { array = array; released_at = now } ∷ [])
    added a = count-append a (bucket key p.free) (record { array = array; released_at = now } ∷ [])

    counted :
        (a : ℕ)
        → count a (record { array = array; released_at = now } ∷ []) ≡ (if a == array then 1 else 0)
    counted a = count-one a array now

    moved :
        (a : ℕ)
        → holds a (insert key grown p.free) + count a (bucket key p.free)
          ≡ holds a p.free + count a grown
    moved a = holds-insert a key grown p.free

-- A release puts at most the buffer itself into the pool.
pub release-IsOwned :
    (p : FramePool) (key array now : ℕ)
    → IsOwned p
    → holds array p.free ≡ 0
    → array < p.allocations
    → IsOwned (release p key array now)
      × ((a : ℕ) → a ≢ array → holds a (release p key array now).free ≤ holds a p.free)
      × ((release p key array now).allocations ≡ p.allocations)
unfolding release cleanup_locked
release-IsOwned p key array now h out lt =
    let (owned, others, same) = put_back-IsOwned p key array now h out lt in
    let cleaned =
      λ (a : ℕ). holds-cleanup_rounds a now p.idle_seconds (put_back p key array now).free in
    (
      λ a. ground (arith, h a, owned a, cleaned a, same),
      λ a other. ground (arith, others a other, cleaned a),
      ground (arith, same),
    )
