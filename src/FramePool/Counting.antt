-- ===== src/FramePool/Counting.antt =====
-- The count and the bound of inference/frame_pool.py.
use omnitrack_ai_platform.Prelude.{
  ℕ, zero, suc, ◌+◌, ◌-◌, ◌≤◌, min, ◌≡◌, refl, inl, inr, Bool, false, not, Option, none, some, List,
  [], ◌∷◌, ◌++◌, arith, leb, Bool-cases, Option-cases, length, length-append, length-keep-le, mem,
}
use omnitrack_ai_platform.Prelude.Dict.{Dict, lookup, insert, keys, HasOnce, insert-HasOnce}
use omnitrack_ai_platform.FramePool.{FramePool}
use omnitrack_ai_platform.FramePool.{Free, bucket, pop_last, seed, seed_rounds}
use omnitrack_ai_platform.FramePool.{
  acquire, cleanup, cleanup_locked, cleanup_rounds, copy_of, init, is_fresh, put_back, release,
  shutdown,
}

-- The buffers that the buckets hold.
unfoldable pub total : Dict (List Free) → ℕ
total [] = 0
total ((key, fs) ∷ m) = length fs + total m

-- The counter is right, the cap holds, and a key stands once.
pub record IsCounted (p : FramePool) : Type 0 where
  pub counted : p.free_count ≡ total p.free
  pub capped : p.free_count ≤ p.max_size
  pub once : HasOnce (keys p.free)

total-insert :
    (key : ℕ) (fs : List Free) (m : Dict (List Free))
    → total (insert key fs m) + length (bucket key m) ≡ total m + length fs
unfolding total insert bucket lookup
total-insert key fs [] = omega arith
total-insert key fs ((k, gs) ∷ m) = ground (arith, total-insert key fs m)

length-bucket-le : (key : ℕ) (m : Dict (List Free)) → length (bucket key m) ≤ total m
unfolding total bucket lookup
length-bucket-le key [] = omega arith
length-bucket-le key ((k, gs) ∷ m) = ground (arith, length-bucket-le key m)

length-pop_last :
    (fs : List Free) (f : Free) (rest : List Free)
    → pop_last fs ≡ some (f, rest)
    → length rest + 1 ≡ length fs
unfolding pop_last
length-pop_last [] f rest h = cc
length-pop_last (x ∷ []) f rest h = ground arith
length-pop_last (x ∷ y ∷ fs) f rest h = elim (Option-cases (pop_last (y ∷ fs))) [
  | inl e ↦ absurd (ground arith)
  | inr ((l, r), e) ↦ ground (arith, length-pop_last (y ∷ fs) l r e)
]

length-seed_rounds :
    (n next now : ℕ) (fs : List Free) → length (seed_rounds n next now fs) ≡ length fs + n
unfolding seed_rounds
length-seed_rounds zero next now fs = omega arith
length-seed_rounds (suc n) next now fs = omega (
  arith,
  length-seed_rounds n (next + 1) now (fs ++ record { array = next; released_at = now } ∷ []),
  length-append fs (record { array = next; released_at = now } ∷ []),
)

seed-IsCounted : (p : FramePool) (key now : ℕ) → IsCounted p → IsCounted (seed p key now)
unfolding seed
seed-IsCounted p key now h = record {
  counted = ground (
    arith,
    total-insert key (seed_rounds n p.allocations now (bucket key p.free)) p.free,
    length-seed_rounds n p.allocations now (bucket key p.free),
  );
  capped = ground arith;
  once = ground (
    arith,
    insert-HasOnce key (seed_rounds n p.allocations now (bucket key p.free)) p.free h.once,
  );
}
  where
    n : ℕ
    n = min p.initial_size (p.max_size - p.free_count)

pub acquire-IsCounted :
    (p : FramePool) (key now : ℕ) → IsCounted p → IsCounted (acquire p key now).0
unfolding acquire
acquire-IsCounted p key now h = elim (Option-cases (pop_last (bucket key p.free))) [
  | inl e ↦
      let h' =
        seed-IsCounted (record p { misses = p.misses + 1 }) key now
          (record { counted = h.counted; capped = h.capped; once = h.once }) in
      rw (e, acquire) (record { counted = h'.counted; capped = h'.capped; once = h'.once })
  | inr ((f, rest), e) ↦
      rw (e, acquire)
        (record {
          counted = omega (
            arith,
            h.counted,
            total-insert key rest p.free,
            length-pop_last (bucket key p.free) f rest e,
            length-bucket-le key p.free,
          );
          capped = omega (arith, h.capped);
          once = insert-HasOnce key rest p.free h.once;
        })
]

total-cleanup_rounds :
    (now idle : ℕ) (m : Dict (List Free))
    → total (cleanup_rounds now idle m).0 + (cleanup_rounds now idle m).1 ≡ total m
unfolding total cleanup_rounds
total-cleanup_rounds now idle [] = omega arith
total-cleanup_rounds now idle ((key, fs) ∷ m) =
    ground (arith, total-cleanup_rounds now idle m, length-keep-le (is_fresh now idle) fs)

mem-keys_cleanup :
    (k now idle : ℕ) (m : Dict (List Free))
    → mem k (keys m) ≡ false
    → mem k (keys (cleanup_rounds now idle m).0) ≡ false
unfolding mem cleanup_rounds
mem-keys_cleanup k now idle [] h = refl
mem-keys_cleanup k now idle ((key, fs) ∷ m) h = ground (arith, mem-keys_cleanup k now idle m)

cleanup_rounds-HasOnce :
    (now idle : ℕ) (m : Dict (List Free))
    → HasOnce (keys m)
    → HasOnce (keys (cleanup_rounds now idle m).0)
unfolding cleanup_rounds
cleanup_rounds-HasOnce now idle [] h = tt
cleanup_rounds-HasOnce now idle ((key, fs) ∷ m) h =
    ground (arith, cleanup_rounds-HasOnce now idle m h.1, mem-keys_cleanup key now idle m h.0)

pub cleanup_locked-IsCounted :
    (p : FramePool) (now idle : ℕ) → IsCounted p → IsCounted (cleanup_locked p now idle).0
unfolding cleanup_locked
cleanup_locked-IsCounted p now idle h = record {
  counted = omega (arith, h.counted, total-cleanup_rounds now idle p.free);
  capped = omega (arith, h.capped);
  once = cleanup_rounds-HasOnce now idle p.free h.once;
}

put_back-IsCounted :
    (p : FramePool) (key array now : ℕ) → IsCounted p → IsCounted (put_back p key array now)
unfolding put_back
put_back-IsCounted p key array now h = record {
  counted = ground (
    arith,
    added,
    total-insert key (bucket key p.free ++ record { array = array; released_at = now } ∷ []) p.free,
  );
  capped = ground arith;
  once = ground (
    arith,
    insert-HasOnce key (bucket key p.free ++ record { array = array; released_at = now } ∷ [])
        p.free h.once,
  );
}
  where
    added :
        length (bucket key p.free ++ record { array = array; released_at = now } ∷ [])
        ≡ length (bucket key p.free) + 1
    added = length-append (bucket key p.free) (record { array = array; released_at = now } ∷ [])

pub release-IsCounted :
    (p : FramePool) (key array now : ℕ) → IsCounted p → IsCounted (release p key array now)
unfolding release
release-IsCounted p key array now h = elim (Bool-cases (not p.enabled)) [
  | inl e ↦ rw e h
  | inr e ↦
      let p' = put_back p key array now in
      let h' = put_back-IsCounted p key array now h in
      elim (Bool-cases (leb p'.next_cleanup_at now)) [
        | inl due ↦
            rw (e, due)
              (cleanup_locked-IsCounted (record p' { next_cleanup_at = now + p.idle_seconds }) now
                p.idle_seconds
                (record { counted = h'.counted; capped = h'.capped; once = h'.once }))
        | inr later ↦ rw (e, later) h'
      ]
]

-- The calls on a pool.
pub data Call : Type 0 where
  acquires copies_of : ℕ → ℕ → Call
  releases : ℕ → ℕ → ℕ → Call
  cleans : Option ℕ → ℕ → Call
  shuts : Call

unfoldable pub step : FramePool → Call → FramePool
step p (acquires key now) = (acquire p key now).0
step p (copies_of key now) = (copy_of p key now).0
step p (releases key array now) = release p key array now
step p (cleans idle now) = (cleanup p idle now).0
step p shuts = shutdown p

unfoldable pub run : FramePool → List Call → FramePool
run p [] = p
run p (c ∷ cs) = run (step p c) cs

pub step-IsCounted : (p : FramePool) (c : Call) → IsCounted p → IsCounted (step p c)
unfolding step copy_of cleanup shutdown total
step-IsCounted p (acquires key now) h = acquire-IsCounted p key now h
step-IsCounted p (copies_of key now) h =
    let h' = acquire-IsCounted p key now h in
    record { counted = h'.counted; capped = h'.capped; once = h'.once }
step-IsCounted p (releases key array now) h = release-IsCounted p key array now h
step-IsCounted p (cleans none now) h = cleanup_locked-IsCounted p now p.idle_seconds h
step-IsCounted p (cleans (some idle) now) h = cleanup_locked-IsCounted p now idle h
step-IsCounted p shuts h = record { counted = refl; capped = omega arith; once = tt }

run-IsCounted : (p : FramePool) (cs : List Call) → IsCounted p → IsCounted (run p cs)
unfolding run
run-IsCounted p [] h = h
run-IsCounted p (c ∷ cs) h = run-IsCounted (step p c) cs (step-IsCounted p c h)

-- Whatever is called on a new pool, the count of free buffers on record is the number that the
-- buckets hold, and it never exceeds the cap: seeding, releases and clean-ups included.
pub pool_bounded :
    (enabled : Bool) (initial_size max_size idle : ℕ) (cs : List Call)
    → let p = run (init enabled initial_size max_size idle) cs in
      (p.free_count ≡ total p.free) × (p.free_count ≤ p.max_size)
unfolding init total
pool_bounded enabled initial_size max_size idle cs =
    let h =
      run-IsCounted (init enabled initial_size max_size idle) cs
        (record { counted = refl; capped = omega arith; once = tt }) in
    (h.counted, h.capped)
