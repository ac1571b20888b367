-- ===== src/Alerts/Engine/Calls.antt =====
-- The evaluations of backend/alerts/engine.py as calls, and the ends that one may have.

-- The three ends of `admit`.
use omnitrack_ai_platform.Prelude.{
  ℕ, ◌≡◌, refl, Bool, true, false, Option, none, some, List, [], ◌∷◌, if◌then◌else◌,
}
use omnitrack_ai_platform.Alerts.Lifecycle.{Database}
use omnitrack_ai_platform.Alerts.Store.{Store, in_cooldown, purge}
use omnitrack_ai_platform.Alerts.Engine.{Config, Outside, RuleRow, admit, raise_alert}
use omnitrack_ai_platform.Alerts.Store.{is_duplicate}
use omnitrack_ai_platform.Alerts.Rules.{Event, Snapshot, evaluate_rule}
use omnitrack_ai_platform.Alerts.Engine.{dedup_key, try_rule}

pub admit-elim :
    (cfg : Config) (out : Outside) (now stream : ℕ) (r : RuleRow) (key : ℕ) (s : Store)
    (db : Database) (P : (Store × Database) × Option ℕ → Type 0)
    → let k = cfg.store_key r.id key in
      let s' = purge now s in
      P ((s', db), none)
      → P ((purge now s', db), none)
      → ((in_cooldown now k (out.cached_cooldown k) s).1 ≡ false
          → P (raise_alert cfg out now stream r key (purge now s') db))
      → P (admit cfg out now stream r key s db)
unfolding admit in_cooldown is_duplicate
admit-elim cfg out now stream r key s db P cools seen raised =
    by_tests (in_cooldown now k (out.cached_cooldown k) s).1
      (is_duplicate now k (out.cached_dedup k) (purge now s)).1 raised
  where
    k : ℕ
    k = cfg.store_key r.id key

    twice : Store
    twice = purge now (purge now s)

    by_tests :
        (b c : Bool)
        → (b ≡ false → P (raise_alert cfg out now stream r key twice db))
        → P (
            if b
            then ((purge now s, db), none)
            else if c
            then ((twice, db), none)
            else raise_alert cfg out now stream r key twice db)
    by_tests true c f = cools
    by_tests false true f = seen
    by_tests false false f = f refl

-- One evaluation of a rule.
pub record Call : Type 0 where
  pub at : ℕ
  pub outside : Outside
  pub for_stream : ℕ
  pub snapshot : Snapshot
  pub event : Event
  pub row : RuleRow

unfoldable pub perform : Config → Call → Store → Database → (Store × Database) × Option ℕ
unfolding try_rule
perform cfg c s db = try_rule cfg c.outside c.at c.for_stream c.snapshot c.event c.row s db

unfoldable pub perform_calls : Config → List Call → Store → Database → Store × Database
unfolding perform
perform_calls cfg [] s db = (s, db)
perform_calls cfg (c ∷ cs) s db = let r = perform cfg c s db in perform_calls cfg cs r.0.0 r.0.1

-- The key of the store for a call.
unfoldable pub key_of : Config → Call → ℕ
unfolding dedup_key
key_of cfg c = cfg.store_key c.row.id (dedup_key cfg c.row c.for_stream c.event)

-- The ends of a call.
pub perform-elim :
    (cfg : Config) (c : Call) (s : Store) (db : Database)
    (P : (Store × Database) × Option ℕ → Type 0)
    → let k = key_of cfg c in
      let s' = purge c.at s in
      let key = dedup_key cfg c.row c.for_stream c.event in
      P ((s, db), none)
      → P ((s', db), none)
      → P ((purge c.at s', db), none)
      → ((in_cooldown c.at k (c.outside.cached_cooldown k) s).1 ≡ false
          → P (raise_alert cfg c.outside c.at c.for_stream c.row key (purge c.at s') db))
      → P (perform cfg c s db)
unfolding perform try_rule key_of
perform-elim cfg c s db P unmatched cools seen raised =
    elim (evaluate_rule c.row.conditions c.row.condition_logic c.snapshot (some c.event)).matched
      as (λ b. P (
        if b
        then admit cfg c.outside c.at c.for_stream c.row (dedup_key cfg c.row c.for_stream c.event)
            s db
        else ((s, db), none))) [
          | true ↦
              admit-elim cfg c.outside c.at c.for_stream c.row
                (dedup_key cfg c.row c.for_stream c.event) s db P cools seen raised
          | false ↦ unmatched
        ]
