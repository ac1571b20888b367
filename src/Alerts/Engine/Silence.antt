-- ===== src/Alerts/Engine/Silence.antt =====
-- The cooldown of backend/alerts/engine.py with the store of backend/alerts/state.py, over any
-- evaluations in between.
use omnitrack_ai_platform.Prelude.{
  ℕ, ◌+◌, ◌≤◌, ◌<◌, ◌≡◌, refl, sym, subst, inl, inr, Bool, true, false, Option, none, some, List,
  [], ◌∷◌, arith, ◌==◌, Bool-cases, All,
}
use omnitrack_ai_platform.Prelude.Dict.{Dict, lookup, lookup-insert}
use omnitrack_ai_platform.Alerts.Lifecycle.{Database}
use omnitrack_ai_platform.Alerts.Store.{
  Store, holds, in_cooldown, live, mark_seen, purge, set_cooldown,
}
use omnitrack_ai_platform.Alerts.Engine.Calls.{Call, perform, perform_calls, key_of, perform-elim}
use omnitrack_ai_platform.Alerts.Engine.{mark, Config, RuleRow, raise_alert}

lookup-live :
    (now k exp : ℕ) (m : Dict ℕ)
    → lookup k m ≡ some exp
    → now < exp
    → lookup k (live now m) ≡ some exp
unfolding lookup live
lookup-live now k exp [] h p = absurd cc
lookup-live now k exp ((j, e) ∷ m) h p = ground (arith, lookup-live now k exp m)

-- The key cools down at least until `end`.
abbrev IsCooling : ℕ → ℕ → Store → Type 0
IsCooling end k s = (exp : ℕ) × (lookup k s.cooldowns ≡ some exp) × (end ≤ exp)

purge-IsCooling :
    (end k now : ℕ) (s : Store) → IsCooling end k s → now < end → IsCooling end k (purge now s)
unfolding purge
purge-IsCooling end k now s (exp, e, le) p =
    (exp, lookup-live now k exp s.cooldowns e (omega arith), le)

in_cooldown-true :
    (end k now : ℕ) (elsewhere : Bool) (s : Store)
    → IsCooling end k s
    → now < end
    → (in_cooldown now k elsewhere s).1 ≡ true
unfolding in_cooldown holds
in_cooldown-true end k now elsewhere s c p =
    let (exp, e, le) = purge-IsCooling end k now s c p in ground (arith, e)

mark-IsCooling :
    (end k now : ℕ) (cfg : Config) (r : RuleRow) (key : ℕ) (alert : Option ℕ) (s : Store)
    → (k == cfg.store_key r.id key) ≡ false
    → IsCooling end k s
    → IsCooling end k (mark cfg now r key alert s)
unfolding mark mark_seen set_cooldown
mark-IsCooling end k now cfg r key none s other c = c
mark-IsCooling end k now cfg r key (some alert) s other (exp, e, le) =
    let kept = lookup-insert k (cfg.store_key r.id key) (now + r.cooldown_seconds) s.cooldowns in
    (exp, ground (arith, kept, e), le)

perform-IsCooling :
    (end k : ℕ) (cfg : Config) (c : Call) (s : Store) (db : Database)
    → c.at < end
    → IsCooling end k s
    → IsCooling end k (perform cfg c s db).0.0
unfolding raise_alert key_of
perform-IsCooling end k cfg c s db p h =
    let h1 = purge-IsCooling end k c.at s h p in
    let h2 = purge-IsCooling end k c.at (purge c.at s) h1 p in
    perform-elim cfg c s db (λ x. IsCooling end k x.0.0) h h1 h2
      (λ free. elim (Bool-cases (k == key_of cfg c)) [
        | inl same ↦
            let here : k ≡ key_of cfg c = ground arith in
            let cooling = subst (λ x. IsCooling end x s) here h in
            absurd (cc (in_cooldown-true end (key_of cfg c) c.at _ s cooling p))
        | inr other ↦ mark-IsCooling end k c.at cfg c.row _ _ _ other h2
      ])

perform_calls-IsCooling :
    (end k : ℕ) (cfg : Config) (cs : List Call) (s : Store) (db : Database)
    → All (λ c. c.at < end) cs
    → IsCooling end k s
    → IsCooling end k (perform_calls cfg cs s db).0
unfolding perform_calls
perform_calls-IsCooling end k cfg [] s db ps h = h
perform_calls-IsCooling end k cfg (c ∷ cs) s db ps h =
    let r = perform cfg c s db in
    perform_calls-IsCooling end k cfg cs r.0.0 r.0.1 ps.1
      (perform-IsCooling end k cfg c s db ps.0 h)

-- Nothing is raised and the database stays while the key of the call cools down.
perform_cooling :
    (end : ℕ) (cfg : Config) (c : Call) (s : Store) (db : Database)
    → c.at < end
    → IsCooling end (key_of cfg c) s
    → let r = perform cfg c s db in (r.0.1 ≡ db) × (r.1 ≡ none)
perform_cooling end cfg c s db p h =
    perform-elim cfg c s db (λ r. (r.0.1 ≡ db) × (r.1 ≡ none)) (refl, refl) (refl, refl)
      (refl, refl) (λ free. absurd (cc (in_cooldown-true end (key_of cfg c) c.at _ s h p)))

mark-cools :
    (cfg : Config) (now : ℕ) (r : RuleRow) (key a : ℕ) (alert : Option ℕ) (s : Store)
    → 0 < r.cooldown_seconds
    → alert ≡ some a
    → IsCooling (now + r.cooldown_seconds) (cfg.store_key r.id key) (mark cfg now r key alert s)
unfolding mark mark_seen set_cooldown
mark-cools cfg now r key a none s pos h = absurd cc
mark-cools cfg now r key a (some b) s pos h =
    let k = cfg.store_key r.id key in
    let kept = lookup-insert k k (now + r.cooldown_seconds) s.cooldowns in
    (now + r.cooldown_seconds, ground (arith, kept), omega arith)

-- An evaluation that returns an alert leaves its key cooling.
perform-cools :
    (cfg : Config) (c : Call) (s : Store) (db : Database) (a : ℕ)
    → (perform cfg c s db).1 ≡ some a
    → 0 < c.row.cooldown_seconds
    → IsCooling (c.at + c.row.cooldown_seconds) (key_of cfg c) (perform cfg c s db).0.0
unfolding raise_alert key_of
perform-cools cfg c s db a h pos =
    perform-elim cfg c s db
      (λ x. x.1 ≡ some a → IsCooling (c.at + c.row.cooldown_seconds) (key_of cfg c) x.0.0)
      (λ e. absurd cc) (λ e. absurd cc) (λ e. absurd cc)
      (λ free e. mark-cools cfg c.at c.row _ a _ _ pos e) h

-- Once an evaluation of a rule has returned an alert, then until its cooldown has passed no
-- evaluation under the same key of the store returns an alert or changes the database, whatever
-- other evaluations are made in between, at times before the end of the cooldown.
pub cooldown_silences :
    (cfg : Config) (c : Call) (cs : List Call) (later : Call) (s : Store) (db : Database) (a : ℕ)
    → (perform cfg c s db).1 ≡ some a
    → All (λ d. d.at < c.at + c.row.cooldown_seconds) cs
    → c.at ≤ later.at
    → later.at < c.at + c.row.cooldown_seconds
    → key_of cfg later ≡ key_of cfg c
    → let first = perform cfg c s db in
      let w = perform_calls cfg cs first.0.0 first.0.1 in
      let r = perform cfg later w.0 w.1 in (r.0.1 ≡ w.1) × (r.1 ≡ none)
cooldown_silences cfg c cs later s db a h before le soon same =
    let end = c.at + c.row.cooldown_seconds in
    let first = perform cfg c s db in
    let w = perform_calls cfg cs first.0.0 first.0.1 in
    let cools = perform-cools cfg c s db a h (omega arith) in
    let still =
      perform_calls-IsCooling end (key_of cfg c) cfg cs first.0.0 first.0.1 before cools in
    perform_cooling end cfg later w.0 w.1 soon (subst (λ k. IsCooling end k w.0) (sym same) still)
