-- ===== src/Ownership/Freshness.antt =====
-- The heartbeat of backend/ownership, and the leadership of periodic work.
use omnitrack_ai_platform.Prelude.{
  ℕ, ◌+◌, ◌-◌, ◌<◌, ◌≡◌, refl, sym, ap, ◌∙◌, subst, ◌⊎◌, inl, inr, true, false, some, arith, leb,
  Bool-cases,
}
use omnitrack_ai_platform.Ownership.{
  Redis, StreamLease, Reply, Exchange, answered, not_run, unanswered, heartbeat, heartbeat_script,
  is_owner, mark_lost, outage, renew, stale_for,
}

module _ {S : Type 0} (redis : Redis S) where
  abbrev IsFresh : ℕ → ℕ → StreamLease → Type 0
  IsFresh ttl now l = (l.lost ≡ true) ⊎ ((t : ℕ) × (l.last_renewed_at ≡ some t) × (now < t + ttl))

  lost-mark : (l : StreamLease) → (mark_lost l).lost ≡ true
  unfolding mark_lost
  lost-mark l = ground arith

  renew-IsFresh :
      (l : StreamLease) (s : S) (x : Exchange)
      → 0 < l.ttl
      → IsFresh l.ttl x.replied_at (renew redis l s x).0
  unfolding renew heartbeat_script
  renew-IsFresh l s x pos =
      elim (Bool-cases (is_owner (redis.get s x.ran_at l.key) l.instance_id)) [
        | inl e ↦ rw e (inr (x.replied_at, refl, omega arith))
        | inr e ↦ rw e (inl (lost-mark (record l { last_heartbeat_ok = false })))
      ]

  outage-IsFresh :
      (l : StreamLease) (now r : ℕ)
      → l.lost ≡ false
      → l.last_renewed_at ≡ some r
      → IsFresh l.ttl now (outage l now)
  unfolding outage stale_for mark_lost
  outage-IsFresh l now r known e = elim (Bool-cases (leb l.ttl (now - r))) [
    | inl old ↦ inl (ground arith)
    | inr new ↦ inr (r, ground arith, ground arith)
  ]

  heartbeat_lost :
      (l : StreamLease) (s : S) (x : Exchange)
      → l.lost ≡ true
      → heartbeat redis l s x ≡ (l, s, false)
  unfolding heartbeat
  heartbeat_lost l s x e = rw e refl

  -- A heartbeat of a lease that is not known to be lost.
  heartbeat_answered :
      (l : StreamLease) (s : S) (ran replied : ℕ)
      → l.lost ≡ false
      → let x : Exchange = record { ran_at = ran; replied_at = replied; reply = answered } in
        heartbeat redis l s x ≡ renew redis l s x
  unfolding heartbeat
  heartbeat_answered l s ran replied e = ground arith

  heartbeat_not_run :
      (l : StreamLease) (s : S) (ran replied : ℕ)
      → l.lost ≡ false
      → (heartbeat redis l s (record { ran_at = ran; replied_at = replied; reply = not_run })).0
        ≡ outage l replied
  unfolding heartbeat
  heartbeat_not_run l s ran replied e = ground arith

  heartbeat_unanswered :
      (l : StreamLease) (s : S) (ran replied : ℕ)
      → l.lost ≡ false
      → (heartbeat redis l s (record { ran_at = ran; replied_at = replied; reply = unanswered })).0
        ≡ outage l replied
  unfolding heartbeat
  heartbeat_unanswered l s ran replied e = ground arith

  heartbeat_known :
      (l : StreamLease) (s : S) (ran replied : ℕ) (reply : Reply) (r : ℕ)
      → l.lost ≡ false
      → l.last_renewed_at ≡ some r
      → 0 < l.ttl
      → IsFresh l.ttl replied
          (heartbeat redis l s (record { ran_at = ran; replied_at = replied; reply = reply })).0
  heartbeat_known l s ran replied answered r known e pos =
      subst (λ y. IsFresh l.ttl replied y.0) (sym (heartbeat_answered l s ran replied known))
        (renew-IsFresh l s (record { ran_at = ran; replied_at = replied; reply = answered }) pos)
  heartbeat_known l s ran replied not_run r known e pos =
      subst (IsFresh l.ttl replied) (sym (heartbeat_not_run l s ran replied known))
        (outage-IsFresh l replied r known e)
  heartbeat_known l s ran replied unanswered r known e pos =
      subst (IsFresh l.ttl replied) (sym (heartbeat_unanswered l s ran replied known))
        (outage-IsFresh l replied r known e)

  -- When a heartbeat has its reply or its error, the lease is known to be lost, or it was acquired or
  -- renewed, as the lease has it, less than the time to live ago. The lease has been acquired, and the
  -- time to live is positive.
  pub heartbeat_fresh :
      (l : StreamLease) (s : S) (x : Exchange) (r : ℕ)
      → l.last_renewed_at ≡ some r
      → 0 < l.ttl
      → let l' = (heartbeat redis l s x).0 in
        (l'.lost ≡ true) ⊎ ((t : ℕ) × (l'.last_renewed_at ≡ some t) × (x.replied_at < t + l.ttl))
  heartbeat_fresh l s x r e pos = elim (Bool-cases l.lost) [
    | inl gone ↦ inl (ap (λ y. y.0.lost) (heartbeat_lost l s x gone) ∙ gone)
    | inr known ↦ heartbeat_known l s x.ran_at x.replied_at x.reply r known e pos
  ]
