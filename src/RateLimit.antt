-- ===== src/RateLimit.antt =====
-- backend/auth/rate_limit.py: the sliding-window limiter of the authentication endpoints.
use omnitrack_ai_platform.Prelude.{
  ℕ, ◌+◌, ◌-◌, Bool, none, some, List, [], ◌∷◌, ◌++◌, ltb, leb, if◌then◌else◌, length, keep,
}
use omnitrack_ai_platform.Prelude.Dict.{Dict, lookup, insert}
pub mod Window
mod Tests

-- `requests_per_minute` (a limit below 0 acts as 0) and `_requests`; an address is an opaque key.
pub record RateLimiter : Type 0 where
  pub requests_per_minute : ℕ
  pub requests : Dict (List ℕ)

-- `self._requests[ip]` of a `defaultdict(list)`.
unfoldable pub history : ℕ → Dict (List ℕ) → List ℕ
history ip m = elim (lookup ip m) [ none ↦ [] | some ts ↦ ts ]

-- `t > now - 60`, with the subtraction of the source moved to the other side.
unfoldable pub recent : ℕ → ℕ → Bool
recent now t = ltb now (t + 60)

unfoldable pub cleanup_old : RateLimiter → ℕ → ℕ → RateLimiter
unfolding history recent
cleanup_old r ip now = record r {
  requests = insert ip (keep (recent now) (history ip r.requests)) r.requests;
}

pub data Verdict : Type 0 where
  allowed too_many_requests : Verdict

-- `check`: the limiter afterwards, and whether 429 is raised.
unfoldable pub check : RateLimiter → ℕ → ℕ → RateLimiter × Verdict
unfolding cleanup_old
check r ip now =
    if leb r.requests_per_minute 0
    then (r, allowed)
    else (let r' = cleanup_old r ip now in
        if leb r.requests_per_minute (length (history ip r'.requests))
        then (r', too_many_requests)
        else (
          record r' { requests = insert ip (history ip r'.requests ++ now ∷ []) r'.requests },
          allowed,
        ))

unfoldable pub get_remaining : RateLimiter → ℕ → ℕ → RateLimiter × ℕ
unfolding cleanup_old
get_remaining r ip now =
    let r' = cleanup_old r ip now in (r', r.requests_per_minute - length (history ip r'.requests))
