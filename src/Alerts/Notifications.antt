-- ===== src/Alerts/Notifications.antt =====
-- backend/alerts/notifications.py, NotificationDispatcher. Whether a provider's attempt succeeds is a
-- function of the provider and the number of the attempt, and whether the database takes a row is a
-- function of the row; the session factory itself answers.
use omnitrack_ai_platform.Prelude.{
  ℕ, zero, suc, ◌+◌, Bool, List, [], ◌∷◌, ◌++◌, leb, if◌then◌else◌, keep,
}
pub mod Retries

pub data Status : Type 0 where
  success retrying failed : Status

-- `NotificationAttempt`, for one alert.
pub record Attempt : Type 0 where
  pub provider : ℕ
  pub status : Status
  pub attempt_number : ℕ

pub record Dispatcher : Type 0 where
  pub providers : List ℕ
  pub max_retries : ℕ
  pub sends : ℕ → ℕ → Bool
  pub commits : Attempt → Bool

-- The rounds of `_dispatch_one` after `attempt` of them: the rows that `_record` is called with.
unfoldable pub rounds : Dispatcher → ℕ → ℕ → ℕ → List Attempt
rounds d p zero attempt = []
rounds d p (suc fuel) attempt =
    let n = attempt + 1 in
    let rest = rounds d p fuel n in
    if d.sends p n
    then record { provider = p; status = success; attempt_number = n } ∷ []
    else if leb n d.max_retries
    then record { provider = p; status = retrying; attempt_number = n } ∷ rest
    else record { provider = p; status = failed; attempt_number = n } ∷ []

-- `_dispatch_one`; a round is a last one unless its number is at most `max_retries`.
unfoldable pub dispatch_one : Dispatcher → ℕ → List Attempt
unfolding rounds
dispatch_one d p = rounds d p (d.max_retries + 1) 0

-- `_record`: a row that is not committed is rolled back.
unfoldable pub record_rows : Dispatcher → List Attempt → List Attempt
record_rows d = keep d.commits

-- `dispatch`: the rows that are stored.
unfoldable pub dispatch : Dispatcher → List ℕ → List Attempt
unfolding dispatch_one record_rows
dispatch d [] = []
dispatch d (p ∷ ps) = record_rows d (dispatch_one d p) ++ dispatch d ps
