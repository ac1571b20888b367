-- ===== src/Alerts/Store.antt =====
-- backend/alerts/state.py, AlertStateStore: cooldowns and keys already seen, with their expiry times.
-- A key of a dictionary is the number of its text, which `key_of` makes of a rule and a dedup key;
-- what the shared cache answers to `exists` is an argument.
use omnitrack_ai_platform.Prelude.{
  ℕ, ◌+◌, Bool, true, false, none, some, ltb, ◌==◌, if◌then◌else◌, keep,
}
use omnitrack_ai_platform.Prelude.Dict.{Dict, lookup, insert}

pub record Store : Type 0 where
  pub cooldowns : Dict ℕ
  pub dedup : Dict ℕ

-- The entries of a dictionary that have not expired.
unfoldable pub live : ℕ → Dict ℕ → Dict ℕ
live now = keep (λ e. ltb now e.1)

-- `_purge_locked`.
unfoldable pub purge : ℕ → Store → Store
unfolding live
purge now s = record { cooldowns = live now s.cooldowns; dedup = live now s.dedup }

-- `get(key, 0) > now`.
unfoldable pub holds : ℕ → ℕ → Dict ℕ → Bool
unfolding lookup
holds now key m = elim (lookup key m) [ none ↦ false | some exp ↦ ltb now exp ]

unfoldable pub in_cooldown : ℕ → ℕ → Bool → Store → Store × Bool
unfolding purge holds
in_cooldown now key elsewhere s =
    let s' = purge now s in (s', (if holds now key s'.cooldowns then true else elsewhere))

unfoldable pub is_duplicate : ℕ → ℕ → Bool → Store → Store × Bool
unfolding purge holds
is_duplicate now key elsewhere s =
    let s' = purge now s in (s', (if holds now key s'.dedup then true else elsewhere))

unfoldable pub set_cooldown : ℕ → ℕ → ℕ → Store → Store
unfolding insert
set_cooldown now key seconds s =
    if seconds == 0 then s else record s { cooldowns = insert key (now + seconds) s.cooldowns }

unfoldable pub mark_seen : ℕ → ℕ → ℕ → Store → Store
unfolding insert
mark_seen now key window s =
    if window == 0 then s else record s { dedup = insert key (now + window) s.dedup }
