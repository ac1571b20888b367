-- ===== src/RateLimit/Tests.antt =====
-- The limiter's theorems at concrete inputs.
use omnitrack_ai_platform.Prelude.{
  ℕ, ◌+◌, ◌-◌, ◌≤◌, ◌≡◌, refl, ◌↔◌, List, [], ◌∷◌, arith, ltb, length, keep,
}
use omnitrack_ai_platform.Prelude.Dict.{lookup, insert}
use omnitrack_ai_platform.RateLimit.{
  check, get_remaining, too_many_requests, history, recent, cleanup_old,
}
use omnitrack_ai_platform.RateLimit.Window.{window_limit, refused_iff, accepted, new, after}

abbrev calls : List (ℕ × ℕ)
calls = (7, 0) ∷ (7, 10) ∷ (8, 11) ∷ (7, 20) ∷ (7, 70) ∷ []

accepted_run :
    accepted 7 (record { requests_per_minute = 2; requests = [] }) calls ≡ 0 ∷ 10 ∷ 70 ∷ []
unfolding accepted check cleanup_old history recent lookup insert
accepted_run = refl

window_limit_example :
    let counted = length (keep (λ t. ltb 75 (t + 60)) (accepted 7 (new 2) calls)) in
    (counted ≤ 2) × ((get_remaining (after (new 2) calls) 7 75).1 ≡ 2 - counted)
window_limit_example = window_limit 75 7 2 calls (omega arith) (omega arith)

refused_iff_example :
    ((check (after (new 2) calls) 7 75).1 ≡ too_many_requests)
    ↔ (2 ≤ length (keep (λ t. ltb 75 (t + 60)) (accepted 7 (new 2) calls)))
refused_iff_example = refused_iff 75 7 2 calls (omega arith) (omega arith)
