-- ===== src/Ownership/Takeover.antt =====
-- The key of a stream in Redis, after an instance acquired it with backend/ownership, while this and
-- other instances send their commands. Redis runs commands one at a time.

-- The calls of the instances, each on its own lease as it then is.
use omnitrack_ai_platform.Prelude.{ℕ, ◌≤◌, ◌<◌, ◌≡◌, ◌≢◌, some, List, [], ◌∷◌}
use omnitrack_ai_platform.Ownership.{
  Redis, StreamLease, Exchange, acquire_attempt, heartbeat, release,
}

pub data Command : Type 0 where
  tries beats checks releases : StreamLease → Exchange → Command

abbrev pub time_of : Command → ℕ
time_of (tries l x) = x.ran_at
time_of (beats l x) = x.ran_at
time_of (checks l x) = x.ran_at
time_of (releases l x) = x.ran_at

-- Each command is run no earlier than the one before, from one time to another.
abbrev pub IsOrdered : ℕ → List Command → ℕ → Type 0
IsOrdered from [] to = from ≤ to
IsOrdered from (c ∷ cs) to = (from ≤ time_of c) × IsOrdered (time_of c) cs to

-- The command is on the key, with the time to live, and is no release by the instance.
abbrev pub IsOthers : ℕ → ℕ → ℕ → Command → Type 0
IsOthers me key ttl (tries l x) = (l.key ≡ key) × (l.ttl ≡ ttl)
IsOthers me key ttl (beats l x) = (l.key ≡ key) × (l.ttl ≡ ttl)
IsOthers me key ttl (checks l x) = (l.key ≡ key) × (l.ttl ≡ ttl)
IsOthers me key ttl (releases l x) = (l.key ≡ key) × (l.ttl ≡ ttl) × (l.instance_id ≢ me)

abbrev pub AllOthers : ℕ → ℕ → ℕ → List Command → Type 0
AllOthers me key ttl [] = Unit {0}
AllOthers me key ttl (c ∷ cs) = IsOthers me key ttl c × AllOthers me key ttl cs

module _ {S : Type 0} (redis : Redis S) where
  -- What a command leaves in Redis.
  unfoldable pub perform : S → Command → S
  unfolding acquire_attempt heartbeat release
  perform s (tries l x) = (acquire_attempt redis l s x).1
  perform s (beats l x) = (heartbeat redis l s x).1
  perform s (checks l x) = s
  perform s (releases l x) = (release redis l s x).1

  unfoldable pub run : S → List Command → S
  run s [] = s
  run s (c ∷ cs) = run (perform s c) cs

  -- From `now` until `end` the key is the instance's.
  abbrev IsHeld : ℕ → ℕ → ℕ → S → ℕ → Type 0
  IsHeld me key end s now =
      (later : ℕ) → now ≤ later → later < end → redis.get s later key ≡ some me
