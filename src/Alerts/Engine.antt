-- ===== src/Alerts/Engine.antt =====
-- backend/alerts/engine.py, AlertRuleEngine: the queue of events, the cache of rules and the
-- evaluation of an event against the rules of its stream, with backend/alerts/state.py,
-- backend/alerts/rules.py and the `trigger` of backend/alerts/manager.py. The clock is read once for
-- a rule; what `str.format` and the shared cache answer are functions; a cooldown below 0 is one of 0.
use omnitrack_ai_platform.Prelude.{ℕ, Bool, Option, none, some, List, [], ◌∷◌, ◌==◌, if◌then◌else◌}
use omnitrack_ai_platform.Alerts.Lifecycle.{Database, Rule, trigger}
use omnitrack_ai_platform.Alerts.Rules.{Condition, RuleLogic, Snapshot, Event, evaluate_rule}
use omnitrack_ai_platform.Alerts.Store.{Store, in_cooldown, is_duplicate, set_cooldown, mark_seen}
pub mod Calls
pub mod Silence
pub mod Latest
pub mod Standing

-- A row of `alert_rules`. `template` is what `format` makes of the template for a stream and an
-- event, or none where there is no template or it raises.
pub record RuleRow : Type 0 where
  pub id : ℕ
  pub rule_stream : Option ℕ
  pub enabled : Bool
  pub severity : ℕ
  pub priority : ℕ
  pub cooldown_seconds : ℕ
  pub conditions : List Condition
  pub condition_logic : RuleLogic
  pub template : ℕ → Event → Option ℕ
  pub expiry_seconds : Option ℕ

pub record Config : Type 0 where
  pub dedup_window : ℕ
  pub rule_cache_ttl : ℕ
  pub queue_capacity : ℕ
  -- f"{rule}:{stream}", as a number.
  pub default_key : ℕ → ℕ → ℕ
  -- f"{rule}:{dedup_key}", as a number.
  pub store_key : ℕ → ℕ → ℕ

-- What is outside of the process at the time of a call: the shared cache, and the database.
pub record Outside : Type 0 where
  pub cached_cooldown : ℕ → Bool
  pub cached_dedup : ℕ → Bool
  pub commits : ℕ → Bool

-- The number of the empty text.
abbrev pub no_text : ℕ
no_text = 0

unfoldable pub dedup_key : Config → RuleRow → ℕ → Event → ℕ
dedup_key cfg r stream event = elim (r.template stream event) [
  | none ↦ cfg.default_key r.id stream
  | some k ↦ k
]

-- What `trigger` reads of the rule: an empty key is replaced by the default.
unfoldable pub payload : Config → RuleRow → ℕ → ℕ → Rule
payload cfg r stream key = record {
  rule = r.id;
  key = if key == no_text then cfg.default_key r.id stream else key;
  rule_severity = r.severity;
  rule_priority = r.priority;
  expiry_seconds = r.expiry_seconds;
}

-- The two marks where an alert is returned.
unfoldable pub mark : Config → ℕ → RuleRow → ℕ → Option ℕ → Store → Store
unfolding set_cooldown mark_seen
mark cfg now r key none s = s
mark cfg now r key (some alert) s =
    let k = cfg.store_key r.id key in
    mark_seen now k cfg.dedup_window (set_cooldown now k r.cooldown_seconds s)

-- The end of an evaluation: `trigger`, and the marks.
unfoldable pub raise_alert :
    Config → Outside → ℕ → ℕ → RuleRow → ℕ → Store → Database → (Store × Database) × Option ℕ
unfolding trigger payload mark
raise_alert cfg out now stream r key s db =
    let t = trigger db (payload cfg r stream key) stream now (out.commits r.id) in
    ((mark cfg now r key t.1 s, t.0), t.1)

-- The tests of an evaluation after the rule matched.
unfoldable pub admit :
    Config → Outside → ℕ → ℕ → RuleRow → ℕ → Store → Database → (Store × Database) × Option ℕ
unfolding in_cooldown is_duplicate raise_alert
admit cfg out now stream r key s db =
    let k = cfg.store_key r.id key in
    let cooling = in_cooldown now k (out.cached_cooldown k) s in
    let seen = is_duplicate now k (out.cached_dedup k) cooling.0 in
    if cooling.1
    then ((cooling.0, db), none)
    else if seen.1
    then ((seen.0, db), none)
    else raise_alert cfg out now stream r key seen.0 db

-- One turn of the loop of `_evaluate`.
unfoldable pub try_rule :
    Config
    → Outside
    → ℕ
    → ℕ
    → Snapshot
    → Event
    → RuleRow
    → Store
    → Database
    → (Store × Database) × Option ℕ
unfolding evaluate_rule dedup_key admit
try_rule cfg out now stream snapshot event r s db =
    if (evaluate_rule r.conditions r.condition_logic snapshot (some event)).matched
    then admit cfg out now stream r (dedup_key cfg r stream event) s db
    else ((s, db), none)

-- The loop of `_evaluate`.
unfoldable pub try_rules :
    Config
    → Outside
    → ℕ
    → ℕ
    → Snapshot
    → Event
    → List RuleRow
    → Store
    → Database
    → (Store × Database) × List ℕ
unfolding try_rule
try_rules cfg out now stream snapshot event [] s db = ((s, db), [])
try_rules cfg out now stream snapshot event (r ∷ rs) s db =
    let first = try_rule cfg out now stream snapshot event r s db in
    let rest = try_rules cfg out now stream snapshot event rs first.0.0 first.0.1 in
    (rest.0, (elim first.1 [ none ↦ rest.1 | some alert ↦ alert ∷ rest.1 ]))
