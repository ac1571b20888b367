-- ===== src/RateLimit/Window.antt =====
-- What the limiter of backend/auth/rate_limit.py promises of its window.

-- A time is in the last minute before `now`: less than 60 time units have passed.
use omnitrack_ai_platform.Prelude.{
  ℕ, ◌+◌, ◌-◌, ◌≤◌, ◌<◌, ◌≡◌, refl, ap, ◌∙◌, ◌↔◌, Bool, true, false, ◌&&◌, List, [], ◌∷◌, ◌++◌,
  arith, ltb, ◌==◌, if◌then◌else◌, length, keep, All, length-append, length-keep-le,
}
use omnitrack_ai_platform.Prelude.Dict.{lookup, insert, lookup-insert}
use omnitrack_ai_platform.RateLimit.{
  RateLimiter, Verdict, allowed, too_many_requests, history, recent, cleanup_old, check,
  get_remaining,
}

abbrev pub last_minute : ℕ → ℕ → Bool
last_minute now t = ltb now (t + 60)

-- The number of requests of `ip` on record in the last minute before `now`.
abbrev pub load : ℕ → ℕ → RateLimiter → ℕ
load now ip r = length (keep (last_minute now) (history ip r.requests))

abbrev pub is_allowed : Verdict → Bool
is_allowed allowed = true
is_allowed too_many_requests = false

keep-append {ℓ} :
    {A : Type ℓ} (p : A → Bool) (xs ys : List A) → keep p (xs ++ ys) ≡ keep p xs ++ keep p ys
keep-append p [] ys = refl
keep-append p (x ∷ xs) ys = ground (arith, keep-append p xs ys)

-- What counts later counted earlier.
keep-keep-recent :
    (t now : ℕ) (xs : List ℕ)
    → t ≤ now
    → keep (last_minute now) (keep (recent t) xs) ≡ keep (last_minute now) xs
unfolding recent
keep-keep-recent t now [] h = refl
keep-keep-recent t now (x ∷ xs) h = ground (arith, keep-keep-recent t now xs h)

history-insert :
    (ip a : ℕ) (ts : List ℕ) (r : RateLimiter)
    → history ip (insert a ts r.requests) ≡ (if ip == a then ts else history ip r.requests)
unfolding history
history-insert ip a ts r = ground (arith, lookup-insert ip a ts r.requests)

-- An allowed call adds its own time to the record of its address; nothing else adds to any.
load-check :
    (now ip : ℕ) (r : RateLimiter) (a t : ℕ)
    → t ≤ now
    → 0 < r.requests_per_minute
    → load now ip (check r a t).0
      ≡ load now ip r
        + (if (ip == a) && is_allowed (check r a t).1
            then length (keep (last_minute now) (t ∷ []))
            else 0)
unfolding check cleanup_old
load-check now ip r a t h pos = ground (
  arith,
  history-insert ip a (keep (recent t) (history a r.requests)) r,
  history-insert a a (keep (recent t) (history a r.requests)) r,
  history-insert ip a
      (history a (insert a (keep (recent t) (history a r.requests)) r.requests) ++ t ∷ [])
      (cleanup_old r a t),
  keep-append (last_minute now) (keep (recent t) (history a r.requests)) (t ∷ []),
  length-append (keep (last_minute now) (keep (recent t) (history a r.requests)))
      (keep (last_minute now) (t ∷ [])),
  keep-keep-recent t now (history a r.requests) h,
)

-- No address has more requests on record than the limit.
abbrev pub IsBounded : RateLimiter → Type 0
IsBounded r = (ip : ℕ) → length (history ip r.requests) ≤ r.requests_per_minute

pub check-IsBounded :
    (r : RateLimiter) (a t : ℕ)
    → 0 < r.requests_per_minute
    → IsBounded r
    → IsBounded (check r a t).0
unfolding check cleanup_old
check-IsBounded r a t pos b ip = ground (
  arith,
  b ip,
  b a,
  length-keep-le (recent t) (history a r.requests),
  history-insert ip a (keep (recent t) (history a r.requests)) r,
  history-insert a a (keep (recent t) (history a r.requests)) r,
  history-insert ip a
      (history a (insert a (keep (recent t) (history a r.requests)) r.requests) ++ t ∷ [])
      (cleanup_old r a t),
  length-append (keep (recent t) (history a r.requests)) (t ∷ []),
)

-- The times at which calls `(address, time)` of `ip` are allowed.
unfoldable pub accepted : ℕ → RateLimiter → List (ℕ × ℕ) → List ℕ
accepted ip r [] = []
accepted ip r ((a, t) ∷ cs) =
    let rest = accepted ip (check r a t).0 cs in
    if (ip == a) && is_allowed (check r a t).1 then t ∷ rest else rest

limit-check :
    (r : RateLimiter) (a t : ℕ) → (check r a t).0.requests_per_minute ≡ r.requests_per_minute
unfolding check cleanup_old
limit-check r a t = ground arith

-- The limiter after calls `(address, time)`.
unfoldable pub after : RateLimiter → List (ℕ × ℕ) → RateLimiter
after r [] = r
after r ((a, t) ∷ cs) = after (check r a t).0 cs

abbrev pub new : ℕ → RateLimiter
new limit = record { requests_per_minute = limit; requests = [] }

limit-after :
    (r : RateLimiter) (cs : List (ℕ × ℕ)) → (after r cs).requests_per_minute ≡ r.requests_per_minute
unfolding after
limit-after r [] = refl
limit-after r ((a, t) ∷ cs) = limit-after (check r a t).0 cs ∙ limit-check r a t

after-IsBounded :
    (r : RateLimiter) (cs : List (ℕ × ℕ))
    → 0 < r.requests_per_minute
    → IsBounded r
    → IsBounded (after r cs)
unfolding after
after-IsBounded r [] pos b = b
after-IsBounded r ((a, t) ∷ cs) pos b =
    after-IsBounded (check r a t).0 cs (rw limit-check pos) (check-IsBounded r a t pos b)

-- What is on record of the last minute is what was accepted in it.
load-after :
    (now ip : ℕ) (r : RateLimiter) (cs : List (ℕ × ℕ))
    → All (λ c. c.1 ≤ now) cs
    → 0 < r.requests_per_minute
    → load now ip (after r cs) ≡ load now ip r + length (keep (last_minute now) (accepted ip r cs))
unfolding accepted after
load-after now ip r [] h pos = omega arith
load-after now ip r ((a, t) ∷ cs) h pos = ground (
  arith,
  load-check now ip r a t h.0 pos,
  load-after now ip (check r a t).0 cs h.1 (rw limit-check pos),
)

load-new :
    (now ip limit : ℕ) (cs : List (ℕ × ℕ))
    → 0 < limit
    → All (λ c. c.1 ≤ now) cs
    → load now ip (after (new limit) cs)
      ≡ length (keep (last_minute now) (accepted ip (new limit) cs))
unfolding history lookup
load-new now ip limit cs pos h = omega (arith, load-after now ip (new limit) cs h pos)

load-cleanup :
    (r : RateLimiter) (ip now : ℕ)
    → length (history ip (cleanup_old r ip now).requests) ≡ load now ip r
unfolding cleanup_old recent
load-cleanup r ip now =
    ground (arith, history-insert ip ip (keep (last_minute now) (history ip r.requests)) r)

remaining-load :
    (r : RateLimiter) (ip now : ℕ)
    → (get_remaining r ip now).1 ≡ r.requests_per_minute - load now ip r
unfolding get_remaining
remaining-load r ip now = ap (λ n. r.requests_per_minute - n) (load-cleanup r ip now)

load-le : (r : RateLimiter) (now ip : ℕ) → IsBounded r → load now ip r ≤ r.requests_per_minute
load-le r now ip b = omega (arith, b ip, length-keep-le (last_minute now) (history ip r.requests))

-- Whatever calls are made on a new limiter with a positive limit, in whatever order of addresses and
-- of times up to `now`, no address has more than `requests_per_minute` allowed calls less than 60
-- time units before `now`, and `get_remaining` answers what is left of the limit after them.
pub window_limit :
    (now ip limit : ℕ) (cs : List (ℕ × ℕ))
    → 0 < limit
    → All (λ c. c.1 ≤ now) cs
    → let counted = length (keep (λ t. ltb now (t + 60)) (accepted ip (new limit) cs)) in
      (counted ≤ limit) × ((get_remaining (after (new limit) cs) ip now).1 ≡ limit - counted)
unfolding history lookup
window_limit now ip limit cs pos h =
    let r = after (new limit) cs in
    let same = load-new now ip limit cs pos h in
    let kept = limit-after (new limit) cs in
    let bounded = load-le r now ip (after-IsBounded (new limit) cs pos (λ a. omega arith)) in
    (omega (arith, bounded, same, kept), ground (arith, remaining-load r ip now, same, kept))

refused-load :
    (r : RateLimiter) (ip now : ℕ)
    → ((check r ip now).1 ≡ too_many_requests)
      ↔ ((0 < r.requests_per_minute) × (r.requests_per_minute ≤ load now ip r))
unfolding check
refused-load r ip now = ground (arith, load-cleanup r ip now)

-- After any calls on a new limiter with a positive limit, with times up to `now`, a call at `now` is
-- refused exactly when at least `requests_per_minute` calls of its address were allowed less than 60
-- time units before `now`: refused calls do not count, nor do those of other addresses.
pub refused_iff :
    (now ip limit : ℕ) (cs : List (ℕ × ℕ))
    → 0 < limit
    → All (λ c. c.1 ≤ now) cs
    → ((check (after (new limit) cs) ip now).1 ≡ too_many_requests)
      ↔ (limit ≤ length (keep (λ t. ltb now (t + 60)) (accepted ip (new limit) cs)))
refused_iff now ip limit cs pos h =
    let same = load-new now ip limit cs pos h in
    let kept = limit-after (new limit) cs in
    ground (arith, refused-load (after (new limit) cs) ip now, same, kept)
