-- ===== src/FramePool.antt =====
-- inference/frame_pool.py: the pool of reusable image buffers. A (shape, dtype) pair is an opaque
-- key, a buffer is named by the number of its allocation, and times are numbers of one unit.
use omnitrack_ai_platform.Prelude.{
  ℕ, zero, suc, ◌+◌, ◌-◌, min, max, Bool, not, ◌&&◌, Option, none, some, List, [], ◌∷◌, ◌++◌, ltb,
  leb, if◌then◌else◌, length, keep, mem,
}
use omnitrack_ai_platform.Prelude.Dict.{Dict, lookup, insert}
pub mod Counting
pub mod Ownership
pub mod Uses
mod Tests

-- A free buffer with the time of its release.
pub record Free : Type 0 where
  pub array : ℕ
  pub released_at : ℕ

pub record FramePool : Type 0 where
  pub enabled : Bool
  pub initial_size : ℕ
  pub max_size : ℕ
  pub idle_seconds : ℕ
  pub free : Dict (List Free)
  pub seeded : List ℕ
  pub free_count : ℕ
  pub next_cleanup_at : ℕ
  pub hits : ℕ
  pub misses : ℕ
  pub allocations : ℕ
  pub copies : ℕ

-- `FramePool(enabled, initial_size, max_size, idle_seconds)`.
unfoldable pub init : Bool → ℕ → ℕ → ℕ → FramePool
init enabled initial_size max_size idle_seconds = record {
  enabled = enabled;
  initial_size = initial_size;
  max_size = max max_size 1;
  idle_seconds = idle_seconds;
  free = [];
  seeded = [];
  free_count = 0;
  next_cleanup_at = 0;
  hits = 0;
  misses = 0;
  allocations = 0;
  copies = 0;
}

unfoldable pub bucket : ℕ → Dict (List Free) → List Free
bucket key m = elim (lookup key m) [ none ↦ [] | some fs ↦ fs ]

-- `bucket.pop()`: the last entry and what stays; `none` for an empty bucket.
unfoldable pub pop_last : List Free → Option (Free × List Free)
pop_last [] = none
pop_last (f ∷ []) = some (f, [])
pop_last (f ∷ g ∷ fs) = elim (pop_last (g ∷ fs)) [
  | none ↦ none
  | some (last, rest) ↦ some (last, f ∷ rest)
]

-- The seeding loop: `n` new buffers at the end of the bucket.
unfoldable pub seed_rounds : ℕ → ℕ → ℕ → List Free → List Free
seed_rounds zero next now fs = fs
seed_rounds (suc n) next now fs =
    seed_rounds n (next + 1) now (fs ++ record { array = next; released_at = now } ∷ [])

-- The spares that a first miss of a key makes; none once the key is seeded or the pool is disabled.
unfoldable pub seed : FramePool → ℕ → ℕ → FramePool
unfolding bucket seed_rounds
seed p key now =
    if p.enabled && not (mem key p.seeded)
    then (let n = min p.initial_size (p.max_size - p.free_count) in
        if ltb 0 n
        then record p {
          seeded = key ∷ p.seeded;
          free = insert key (seed_rounds n p.allocations now (bucket key p.free)) p.free;
          allocations = p.allocations + n;
          free_count = p.free_count + n;
        }
        else record p { seeded = key ∷ p.seeded })
    else p

-- The pool afterwards and the buffer; a fresh one has the next allocation number.
unfoldable pub acquire : FramePool → ℕ → ℕ → FramePool × ℕ
unfolding bucket pop_last seed
acquire p key now = elim (pop_last (bucket key p.free)) [
  | some (f, rest) ↦ (
    record p { free = insert key rest p.free; free_count = p.free_count - 1; hits = p.hits + 1 },
    f.array,
  )
  | none ↦
      let p' = seed (record p { misses = p.misses + 1 }) key now in
      (record p' { allocations = p'.allocations + 1 }, p'.allocations)
]

-- `t >= now - idle`, with the subtraction moved to the other side.
unfoldable pub is_fresh : ℕ → ℕ → Free → Bool
is_fresh now idle f = leb now (f.released_at + idle)

-- The loop of `_cleanup_locked` over the keys: the buckets that stay, the number of buffers
-- dropped, and the keys deleted.
unfoldable pub cleanup_rounds : ℕ → ℕ → Dict (List Free) → Dict (List Free) × ℕ × List ℕ
unfolding is_fresh
cleanup_rounds now idle [] = ([], 0, [])
cleanup_rounds now idle ((key, fs) ∷ m) =
    let rest = cleanup_rounds now idle m in
    let kept = keep (is_fresh now idle) fs in
    let dropped = length fs - length kept in
    if ltb 0 (length kept)
    then ((key, kept) ∷ rest.0, dropped + rest.1, rest.2)
    else (rest.0, dropped + rest.1, key ∷ rest.2)

unfoldable pub cleanup_locked : FramePool → ℕ → ℕ → FramePool × ℕ
unfolding cleanup_rounds
cleanup_locked p now idle =
    let r = cleanup_rounds now idle p.free in
    (
      record p {
        free = r.0;
        seeded = keep (λ k. not (mem k r.2)) p.seeded;
        free_count = p.free_count - r.1;
      },
      r.1,
    )

-- `cleanup(idle_seconds)`.
unfoldable pub cleanup : FramePool → Option ℕ → ℕ → FramePool × ℕ
unfolding cleanup_locked
cleanup p none now = cleanup_locked p now p.idle_seconds
cleanup p (some idle) now = cleanup_locked p now idle

unfoldable pub put_back : FramePool → ℕ → ℕ → ℕ → FramePool
unfolding bucket
put_back p key array now =
    if ltb p.free_count p.max_size
    then record p {
      free =
          insert key (bucket key p.free ++ record { array = array; released_at = now } ∷ []) p.free;
      free_count = p.free_count + 1;
    }
    else p

-- `release(array)` for a buffer of the key's shape.
unfoldable pub release : FramePool → ℕ → ℕ → ℕ → FramePool
unfolding put_back cleanup_locked
release p key array now =
    if not p.enabled
    then p
    else (let p' = put_back p key array now in
        if leb p'.next_cleanup_at now
        then (cleanup_locked (record p' { next_cleanup_at = now + p.idle_seconds }) now
            p.idle_seconds).0
        else p')

-- `copy_of`: the contents are copied by numpy and stand outside the model.
unfoldable pub copy_of : FramePool → ℕ → ℕ → FramePool × ℕ
unfolding acquire
copy_of p key now = let r = acquire p key now in (record r.0 { copies = r.0.copies + 1 }, r.1)

unfoldable pub shutdown : FramePool → FramePool
shutdown p = record p { free = []; seeded = []; free_count = 0 }
