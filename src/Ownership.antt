-- ===== src/Ownership.antt =====
-- backend/ownership: leases of streams in Redis. Redis is another program: `Redis` has the commands
-- that the code sends, on any type of states, and what they document. Its clock is the one that the
-- leases read, in milliseconds.
use omnitrack_ai_platform.Prelude.{
  ℕ, ◌+◌, ◌-◌, ◌≤◌, ◌<◌, max, ◌≡◌, Bool, true, false, Option, none, some, [], ◌∷◌, leb, ◌==◌,
  if◌then◌else◌,
}
use omnitrack_ai_platform.Prelude.Dict.{Dict, lookup, insert, erase}
pub mod Freshness
pub mod Takeover
pub mod Tests

pub record Redis (S : Type 0) : Type 0 where
  pub get : S → ℕ → ℕ → Option ℕ
  pub set_nx : S → ℕ → ℕ → ℕ → ℕ → S × Bool
  pub del : S → ℕ → ℕ → S
  pub pexpire : S → ℕ → ℕ → ℕ → S
  -- A key that is there keeps its value and its time to live.
  pub set_nx_held :
      (s : S) (now key token px owner : ℕ)
      → get s now key ≡ some owner
      → set_nx s now key token px ≡ (s, false)
  pub set_nx_free :
      (s : S) (now key token px : ℕ) → get s now key ≡ none → (set_nx s now key token px).1 ≡ true
  pub get-set_nx :
      (s : S) (now key token px later : ℕ)
      → get s now key ≡ none
      → now ≤ later
      → later < now + px
      → get (set_nx s now key token px).0 later key ≡ some token
  pub get-pexpire :
      (s : S) (now key px owner later : ℕ)
      → get s now key ≡ some owner
      → now ≤ later
      → later < now + px
      → get (pexpire s now key px) later key ≡ some owner

-- How a command ends: Redis runs it and answers; it raises a RedisError and was not run; or it raises
-- one, say a timeout, and was run all the same.
pub data Reply : Type 0 where
  answered not_run unanswered : Reply

-- A command's exchange with Redis: when it is run, and when the reply or the error is there.
pub record Exchange : Type 0 where
  pub ran_at : ℕ
  pub replied_at : ℕ
  pub reply : Reply

-- `StreamLease`.
pub record StreamLease : Type 0 where
  pub key : ℕ
  pub instance_id : ℕ
  pub ttl : ℕ
  pub last_heartbeat_ok : Bool
  pub last_renewed_at : Option ℕ
  pub lost : Bool

unfoldable pub new_lease : ℕ → ℕ → ℕ → StreamLease
new_lease key instance_id ttl = record {
  key = key;
  instance_id = instance_id;
  ttl = ttl;
  last_heartbeat_ok = false;
  last_renewed_at = none;
  lost = false;
}

-- `_mark_lost`, less the callback.
unfoldable pub mark_lost : StreamLease → StreamLease
mark_lost l = if l.lost then l else record l { lost = true; last_heartbeat_ok = false }

-- `_stale_for_locked`.
unfoldable pub stale_for : StreamLease → ℕ → ℕ
stale_for l now = elim l.last_renewed_at [ none ↦ 0 | some r ↦ now - r ]

-- The comparison of the scripts, `redis.call('get', KEYS[1]) == ARGV[1]`.
abbrev pub is_owner : Option ℕ → ℕ → Bool
is_owner none me = false
is_owner (some owner) me = owner == me

-- What `heartbeat` does to the lease on a RedisError.
unfoldable pub outage : StreamLease → ℕ → StreamLease
unfolding mark_lost stale_for
outage l now =
    let l' : StreamLease = record l { last_heartbeat_ok = false } in
    if leb l.ttl (stale_for l now) then mark_lost l' else l'

module _ {S : Type 0} (redis : Redis S) where
  -- One round of the loop of `acquire`, which is made again until it succeeds or time is up.
  unfoldable pub acquire_attempt : StreamLease → S → Exchange → StreamLease × S × Bool
  acquire_attempt l s x =
      let set = redis.set_nx s x.ran_at l.key l.instance_id (max l.ttl 1) in
      elim x.reply [
        | not_run ↦ (l, s, false)
        | unanswered ↦ (l, set.0, false)
        | answered ↦
            if set.1
            then (
              record l {
                lost = false;
                last_heartbeat_ok = true;
                last_renewed_at = some x.replied_at;
              },
              set.0,
              true,
            )
            else (l, set.0, false)
      ]

  unfoldable pub release_script : S → ℕ → ℕ → ℕ → S × Bool
  release_script s now key me =
      if is_owner (redis.get s now key) me then (redis.del s now key, true) else (s, false)

  -- `release`.
  unfoldable pub release : StreamLease → S → Exchange → StreamLease × S × Bool
  unfolding release_script
  release l s x =
      let r = release_script s x.ran_at l.key l.instance_id in
      elim x.reply [
        | not_run ↦ (l, s, false)
        | unanswered ↦ (l, r.0, false)
        | answered ↦
            if r.1
            then (record l { lost = true; last_heartbeat_ok = false }, r.0, true)
            else (l, r.0, false)
      ]

  -- `check_ownership`, which changes nothing in Redis.
  unfoldable pub check_ownership : StreamLease → S → Exchange → StreamLease × Bool
  unfolding mark_lost
  check_ownership l s x = if l.lost then (l, false) else (elim x.reply [
    | not_run ↦ (l, false)
    | unanswered ↦ (l, false)
    | answered ↦
        if is_owner (redis.get s x.ran_at l.key) l.instance_id
        then (l, true)
        else (mark_lost l, false)
  ])

  unfoldable pub heartbeat_script : S → ℕ → ℕ → ℕ → ℕ → S × Bool
  heartbeat_script s now key me px =
      if is_owner (redis.get s now key) me then (redis.pexpire s now key px, true) else (s, false)

  -- `heartbeat` where Redis answers.
  unfoldable pub renew : StreamLease → S → Exchange → StreamLease × S × Bool
  unfolding heartbeat_script mark_lost
  renew l s x =
      let r = heartbeat_script s x.ran_at l.key l.instance_id l.ttl in
      if r.1
      then (record l { last_heartbeat_ok = true; last_renewed_at = some x.replied_at }, r.0, true)
      else (mark_lost (record l { last_heartbeat_ok = false }), r.0, false)

  -- `heartbeat`.
  unfoldable pub heartbeat : StreamLease → S → Exchange → StreamLease × S × Bool
  unfolding renew outage heartbeat_script
  heartbeat l s x = if l.lost then (l, s, false) else (elim x.reply [
    | not_run ↦ (outage l x.replied_at, s, false)
    | unanswered ↦
        (outage l x.replied_at, (heartbeat_script s x.ran_at l.key l.instance_id l.ttl).0, false)
    | answered ↦ renew l s x
  ])

  -- `LeaderLease.claim`.
  unfoldable pub claim : ℕ → ℕ → ℕ → S → Exchange → S × Bool
  claim key me ttl s x =
      let set = redis.set_nx s x.ran_at key me (max ttl 1) in
      elim x.reply [ not_run ↦ (s, true) | unanswered ↦ (set.0, true) | answered ↦ set ]

  -- `LeaseManager.acquire`, with one round of the loop: the leases, and the lease if it is held.
  unfoldable pub manager_acquire :
      ℕ → ℕ → Dict StreamLease → ℕ → S → Exchange → Dict StreamLease × S × Option StreamLease
  unfolding acquire_attempt new_lease lookup insert
  manager_acquire me ttl leases stream s x =
      let attempt = acquire_attempt (new_lease stream me ttl) s x in
      let made =
        if attempt.2
        then (insert stream attempt.0 leases, attempt.1, some attempt.0)
        else (leases, attempt.1, none) in
      elim (lookup stream leases) [
        | none ↦ made
        | some l ↦ if l.lost then made else (leases, s, some l)
      ]

  -- `LeaseManager.release`.
  unfoldable pub manager_release : Dict StreamLease → ℕ → S → Exchange → Dict StreamLease × S × Bool
  unfolding release lookup erase
  manager_release leases stream s x = elim (lookup stream leases) [
    | none ↦ (leases, s, false)
    | some l ↦ let r = release l s x in (erase stream leases, r.1, r.2)
  ]

  -- The loop of `heartbeat_all`, each stream with its exchange: the leases, and how many were renewed.
  unfoldable pub heartbeat_all : Dict StreamLease → S → (ℕ → Exchange) → Dict StreamLease × S × ℕ
  unfolding heartbeat
  heartbeat_all [] s x = ([], s, 0)
  heartbeat_all ((stream, l) ∷ leases) s x =
      let r = heartbeat l s (x stream) in
      let rest = heartbeat_all leases r.1 x in
      ((stream, r.0) ∷ rest.0, rest.1, (if r.2 then rest.2 + 1 else rest.2))

  -- The loop of `release_all`: how many were released.
  unfoldable pub release_all : Dict StreamLease → S → (ℕ → Exchange) → S × ℕ
  unfolding release
  release_all [] s x = (s, 0)
  release_all ((stream, l) ∷ leases) s x =
      let r = release l s (x stream) in
      let rest = release_all leases r.1 x in (rest.0, (if r.2 then rest.1 + 1 else rest.1))
