-- ===== src/FramePool/Uses.antt =====
-- inference/frame_pool.py: callers that acquire and release buffers.

-- Callers that take buffers and give back what they have taken.
use omnitrack_ai_platform.Prelude.{
  ℕ, ◌+◌, ◌-◌, ◌≤◌, ◌<◌, min, ◌≡◌, refl, ◌≢◌, inl, inr, Bool, true, false, not, Option, none, some,
  List, [], ◌∷◌, arith, ℕ_discrete, ◌==◌, if◌then◌else◌, Bool-cases, Option-cases, keep, mem,
}
use omnitrack_ai_platform.Prelude.Dict.{HasOnce}
use omnitrack_ai_platform.FramePool.{FramePool}
use omnitrack_ai_platform.FramePool.{bucket, pop_last, seed, seed_rounds}
use omnitrack_ai_platform.FramePool.{acquire, release, copy_of, cleanup, cleanup_locked, shutdown}
use omnitrack_ai_platform.FramePool.{init}
use omnitrack_ai_platform.FramePool.Ownership.{
  IsOwned, acquire_exclusive, count-bucket_le, count-pop_last, count-seed_rounds, holds,
  holds-insert, holds-cleanup_rounds, release-IsOwned,
}

pub data Use : Type 0 where
  takes copies_in : ℕ → ℕ → Use
  cleans : Option ℕ → ℕ → Use
  shuts : Use
  gives : ℕ → ℕ → ℕ → Use

-- The pool with the buffers that are out.
unfoldable pub use_step : FramePool × List ℕ → Use → FramePool × List ℕ
use_step (p, out) (takes key now) = let r = acquire p key now in (r.0, r.1 ∷ out)
use_step (p, out) (copies_in key now) = let r = copy_of p key now in (r.0, r.1 ∷ out)
use_step (p, out) (cleans idle now) = ((cleanup p idle now).0, out)
use_step (p, out) shuts = (shutdown p, out)
use_step (p, out) (gives key array now) =
    if mem array out then (release p key array now, keep (λ a. not (a == array)) out) else (p, out)

unfoldable pub uses : FramePool × List ℕ → List Use → FramePool × List ℕ
uses s [] = s
uses s (u ∷ us) = uses (use_step s u) us

abbrev Apart : FramePool × List ℕ → Type 0
Apart s =
    IsOwned s.0
    × HasOnce s.1
    × ((a : ℕ) → mem a s.1 ≡ true → (holds a s.0.free ≡ 0) × (a < s.0.allocations))

mem-keep_other :
    (b array : ℕ) (out : List ℕ)
    → mem b (keep (λ a. not (a == array)) out) ≡ (if b == array then false else mem b out)
unfolding mem
mem-keep_other b array [] = ground arith
mem-keep_other b array (x ∷ out) = ground (arith, mem-keep_other b array out)

keep_other-HasOnce :
    (array : ℕ) (out : List ℕ) → HasOnce out → HasOnce (keep (λ a. not (a == array)) out)
keep_other-HasOnce array [] h = tt
keep_other-HasOnce array (x ∷ out) h =
    ground (arith, keep_other-HasOnce array out h.1, mem-keep_other x array out)

-- The spares are new buffers.
seed_keeps :
    (p : FramePool) (key now a : ℕ)
    → a < p.allocations
    → holds a (seed p key now).free ≡ holds a p.free
unfolding seed
seed_keeps p key now a lt = ground (
  arith,
  holds-insert a key (seed_rounds n p.allocations now (bucket key p.free)) p.free,
  count-seed_rounds a n p.allocations now (bucket key p.free),
)
  where
    n : ℕ
    n = min p.initial_size (p.max_size - p.free_count)

seed-grows : (p : FramePool) (key now : ℕ) → p.allocations ≤ (seed p key now).allocations
unfolding seed
seed-grows p key now = ground arith

-- A buffer that is out stays out, and is not handed out again.
acquire_keeps_out :
    (p : FramePool) (key now a : ℕ)
    → holds a p.free ≡ 0
    → a < p.allocations
    → (holds a (acquire p key now).0.free ≡ 0) × ((acquire p key now).1 ≢ a)
unfolding acquire
acquire_keeps_out p key now a out lt = elim (Option-cases (pop_last (bucket key p.free))) [
  | inl e ↦
      let missed : FramePool = record p { misses = p.misses + 1 } in
      rw (e, acquire)
        (omega (arith, seed_keeps missed key now a lt), omega (arith, seed-grows missed key now))
  | inr ((f, rest), e) ↦
      rw (e, acquire)
        (
          omega (
            arith,
            holds-insert a key rest p.free,
            count-pop_last a (bucket key p.free) f rest e,
            count-bucket_le a key p.free,
          ),
          ground
              (arith, count-pop_last a (bucket key p.free) f rest e, count-bucket_le a key p.free),
        )
]

-- A buffer is taken.
takes-Apart :
    (p : FramePool) (out : List ℕ) (key now : ℕ)
    → Apart (p, out)
    → let r = acquire p key now in Apart (r.0, r.1 ∷ out)
unfolding mem
takes-Apart p out key now (owned, once, apart) =
    let (owned', gone, below, grows) = acquire_exclusive p key now owned in
    (
      owned',
      (
        elim (Bool-cases (mem (acquire p key now).1 out)) [
          | inl e ↦
              let (h, lt) = apart (acquire p key now).1 e in
              absurd ((acquire_keeps_out p key now (acquire p key now).1 h lt).1 refl)
          | inr e ↦ e
        ],
        once,
      ),
      λ a m. elim (ℕ_discrete a (acquire p key now).1) [
        | yes same ↦ ground (arith, gone, below)
        | no other ↦
            let (h, lt) = apart a (ground arith) in
            ((acquire_keeps_out p key now a h lt).0, omega arith)
      ],
    )

-- Buffers are dropped, and none is made.
drops-Apart :
    (p q : FramePool) (out : List ℕ)
    → ((a : ℕ) → holds a q.free ≤ holds a p.free)
    → q.allocations ≡ p.allocations
    → Apart (p, out)
    → Apart (q, out)
drops-Apart p q out fewer same (owned, once, apart) = (
  λ a. (
    omega (arith, fewer a, (owned a).0),
    λ le. omega (arith, fewer a, (owned a).1 (omega arith)),
  ),
  once,
  λ a m. let (h, lt) = apart a m in (omega (arith, fewer a), omega arith),
)

use_step-Apart : (s : FramePool × List ℕ) (u : Use) → Apart s → Apart (use_step s u)
unfolding use_step copy_of cleanup cleanup_locked shutdown holds
use_step-Apart (p, out) (takes key now) h = takes-Apart p out key now h
use_step-Apart (p, out) (copies_in key now) h = takes-Apart p out key now h
use_step-Apart (p, out) (cleans none now) h =
    drops-Apart p (cleanup p none now).0 out (λ a. holds-cleanup_rounds a now p.idle_seconds p.free)
      refl h
use_step-Apart (p, out) (cleans (some idle) now) h =
    drops-Apart p (cleanup p (some idle) now).0 out (λ a. holds-cleanup_rounds a now idle p.free)
      refl h
use_step-Apart (p, out) shuts h = drops-Apart p (shutdown p) out (λ a. omega arith) refl h
use_step-Apart (p, out) (gives key array now) (owned, once, apart) =
    elim (Bool-cases (mem array out)) [
      | inr e ↦ rw e (owned, once, apart)
      | inl e ↦
          let (h, lt) = apart array e in
          let (owned', others, same) = release-IsOwned p key array now owned h lt in
          rw e (
            owned',
            keep_other-HasOnce array out once,
            λ a m. ground (arith, mem-keep_other a array out, apart a, others a, same),
          )
    ]

uses-Apart : (s : FramePool × List ℕ) (us : List Use) → Apart s → Apart (uses s us)
unfolding uses
uses-Apart s [] h = h
uses-Apart s (u ∷ us) h = uses-Apart (use_step s u) us (use_step-Apart s u h)

-- Callers that give back only what they have taken never share a buffer: after any sequence of the
-- pool's calls on a new pool (`acquire`, `copy_of`, such a `release`, `cleanup`, `shutdown`) the
-- buffers that are out are pairwise different, and none of them is free in the pool.
pub no_buffer_shared :
    (enabled : Bool) (initial_size max_size idle : ℕ) (us : List Use)
    → let s = uses (init enabled initial_size max_size idle, []) us in
      HasOnce s.1 × ((a : ℕ) → mem a s.1 ≡ true → holds a s.0.free ≡ 0)
unfolding init holds mem
no_buffer_shared enabled initial_size max_size idle us =
    let (_, once, apart) =
      uses-Apart (init enabled initial_size max_size idle, []) us
        (λ a. (omega arith, λ _. refl), tt, λ a m. cc) in
    (once, λ a m. (apart a m).0)
