-- ===== src/Ownership/Tests.antt =====
-- The theorems on leases at concrete inputs, with a Redis that keeps a value and a deadline.
use omnitrack_ai_platform.Prelude.{
  ℕ, ◌+◌, ◌≤◌, ◌<◌, ◌≡◌, refl, ◌⊎◌, Bool, true, false, Option, none, some, List, [], ◌∷◌, arith,
  ltb, if◌then◌else◌, update,
}
use omnitrack_ai_platform.Ownership.{
  Redis, StreamLease, Reply, Exchange, answered, not_run, unanswered, heartbeat, new_lease,
}
use omnitrack_ai_platform.Ownership.Takeover.{Command, tries, beats, releases}
use omnitrack_ai_platform.Ownership.Freshness.{heartbeat_fresh}

abbrev Keys : Type 0
Keys = ℕ → Option (ℕ × ℕ)

abbrev live : ℕ → Option (ℕ × ℕ) → Option ℕ
live now none = none
live now (some (value, deadline)) = if ltb now deadline then some value else none

abbrev read : Keys → ℕ → ℕ → Option ℕ
read s now key = live now (s key)

abbrev write : Keys → ℕ → ℕ → ℕ → ℕ → Keys × Bool
write s now key token px = elim (read s now key) [
  | none ↦ (update s key (some (token, now + px)), true)
  | some owner ↦ (s, false)
]

abbrev prolong : Keys → ℕ → ℕ → ℕ → Keys
prolong s now key px = elim (read s now key) [
  | none ↦ s
  | some owner ↦ update s key (some (owner, now + px))
]

write_held :
    (s : Keys) (now key token px owner : ℕ)
    → read s now key ≡ some owner
    → write s now key token px ≡ (s, false)
write_held s now key token px owner h = rw (write, h) refl

write_free :
    (s : Keys) (now key token px : ℕ) → read s now key ≡ none → (write s now key token px).1 ≡ true
write_free s now key token px h = rw (write, h) refl

read-write :
    (s : Keys) (now key token px later : ℕ)
    → read s now key ≡ none
    → now ≤ later
    → later < now + px
    → read (write s now key token px).0 later key ≡ some token
read-write s now key token px later h le lt = rw (write, h) (ground arith)

read-prolong :
    (s : Keys) (now key px owner later : ℕ)
    → read s now key ≡ some owner
    → now ≤ later
    → later < now + px
    → read (prolong s now key px) later key ≡ some owner
read-prolong s now key px owner later h le lt = rw (prolong, h) (ground arith)

abbrev memory : Redis Keys
memory = record {
  get = read;
  set_nx = write;
  del = λ s now key. update s key none;
  pexpire = prolong;
  set_nx_held = write_held;
  set_nx_free = write_free;
  get-set_nx = read-write;
  get-pexpire = read-prolong;
}

abbrev at : ℕ → Reply → Exchange
at t reply = record { ran_at = t; replied_at = t + 2; reply = reply }

abbrev mine : StreamLease
mine = new_lease 5 1 10

abbrev theirs : StreamLease
theirs = new_lease 5 2 10

-- The other instance tries twice and releases what it does not own, and a heartbeat gets no answer.
abbrev calls : List Command
calls =
    tries theirs (at 101 answered)
    ∷ beats mine (at 104 unanswered)
    ∷ releases theirs (at 105 answered)
    ∷ tries theirs (at 106 unanswered)
    ∷ []

abbrev renewed : StreamLease
renewed = record {
  key = 5;
  instance_id = 1;
  ttl = 10;
  last_heartbeat_ok = true;
  last_renewed_at = some 100;
  lost = false;
}

heartbeat_fresh_example :
    let l' = (heartbeat memory renewed (λ k. none) (at 103 not_run)).0 in
    (l'.lost ≡ true) ⊎ ((t : ℕ) × (l'.last_renewed_at ≡ some t) × (105 < t + 10))
heartbeat_fresh_example =
    heartbeat_fresh memory renewed (λ k. none) (at 103 not_run) 100 refl (omega arith)
