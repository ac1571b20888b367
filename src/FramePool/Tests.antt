-- ===== src/FramePool/Tests.antt =====
-- The pool's theorems at concrete inputs.
use omnitrack_ai_platform.Prelude.{ℕ, ◌≤◌, ◌≡◌, true, none, some, List, [], ◌∷◌, mem}
use omnitrack_ai_platform.Prelude.Dict.{HasOnce}
use omnitrack_ai_platform.FramePool.{init}
use omnitrack_ai_platform.FramePool.Counting.{Call, acquires, releases, run, pool_bounded, total}
use omnitrack_ai_platform.FramePool.Ownership.{holds}
use omnitrack_ai_platform.FramePool.Uses.{
  Use, takes, copies_in, cleans, shuts, gives, uses, no_buffer_shared,
}

abbrev calls : List Call
calls = acquires 1 10 ∷ releases 1 0 11 ∷ acquires 2 12 ∷ Call.cleans (some 5) 40 ∷ []

pool_bounded_example :
    let p = run (init true 3 4 30) calls in
    (p.free_count ≡ total p.free) × (p.free_count ≤ p.max_size)
pool_bounded_example = pool_bounded true 3 4 30 calls

abbrev taken : List Use
taken =
    takes 1 10
    ∷ takes 1 11
    ∷ gives 1 2 12
    ∷ copies_in 1 13
    ∷ cleans none 90
    ∷ takes 1 91
    ∷ shuts
    ∷ takes 1 92
    ∷ []

no_buffer_shared_example :
    let s = uses (init true 2 4 30, []) taken in
    HasOnce s.1 × ((a : ℕ) → mem a s.1 ≡ true → holds a s.0.free ≡ 0)
no_buffer_shared_example = no_buffer_shared true 2 4 30 taken
