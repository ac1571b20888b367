-- ===== src/Alerts/Tests.antt =====
-- The theorems on alerts at concrete inputs.
use omnitrack_ai_platform.Prelude.{
  ℕ, ◌+◌, ◌-◌, ◌*◌, ◌≤◌, ◌<◌, ◌≡◌, refl, ◌↔◌, ◌⊎◌, true, false, Option, none, some, List, [], ◌∷◌,
  arith, ltb, if◌then◌else◌, All, mem,
}
use omnitrack_ai_platform.Prelude.Dict.{keys}
use omnitrack_ai_platform.Alerts.Lifecycle.{Rule, acknowledge, suppress, resolve}
use omnitrack_ai_platform.Alerts.Rules.Totals.{unnamed_totals, sum_over, count_under}
use omnitrack_ai_platform.Alerts.Rules.{
  evaluate_condition, line_crossing_threshold, lt, Condition, Snapshot, zone_occupancy_threshold,
  gte, is_and,
}
use omnitrack_ai_platform.Alerts.Notifications.{Dispatcher, dispatch_one}
use omnitrack_ai_platform.Alerts.Notifications.Retries.{
  report, failures_before, dispatch_one-report,
}
use omnitrack_ai_platform.Alerts.Lifecycle.Audit.{recorded, current, IsLegal}
use omnitrack_ai_platform.Alerts.Lifecycle.Histories.{
  Command, triggers, acts, expires, notifies, perform_all, empty_database, history_audits,
}
use omnitrack_ai_platform.Alerts.Store.{Store}
use omnitrack_ai_platform.Alerts.Engine.{RuleRow, Config}
use omnitrack_ai_platform.Alerts.Engine.Calls.{Call, perform}
use omnitrack_ai_platform.Alerts.Lifecycle.{Instance}
use omnitrack_ai_platform.Alerts.RuleCache.{get_rules, load_rules}
use omnitrack_ai_platform.Alerts.RuleCache.Staleness.{asks, empty_cache, rules_fresh, use_all}
use omnitrack_ai_platform.Alerts.Engine.Silence.{cooldown_silences}
use omnitrack_ai_platform.Alerts.Engine.Calls.{perform_calls}
use omnitrack_ai_platform.Alerts.Engine.Standing.{perform_latest, rule_of}
use omnitrack_ai_platform.Alerts.Engine.Latest.{Has, IsOpen, IsClosed}
use omnitrack_ai_platform.Alerts.Engine.Calls.{key_of}

abbrev crowded : Condition
crowded = record {
  ctype = zone_occupancy_threshold;
  operator = gte;
  threshold = some 2;
  class_name = none;
  zone_name = some 4;
  line_name = none;
  expected_type = none;
}

abbrev snapshot : Snapshot
snapshot = record {
  object_counts = (1, 6) ∷ [];
  zone_occupancy = (4, record { entries = 5; exits = 2; zone_dwell_seconds = 30 }) ∷ [];
  line_crossings = [];
  dwell_time_total_seconds = 30;
}

abbrev halls : Snapshot
halls = record snapshot {
  zone_occupancy =
      (4, record { entries = 5; exits = 2; zone_dwell_seconds = 30 })
      ∷ (6, record { entries = 1; exits = 3; zone_dwell_seconds = 0 })
      ∷ [];
  line_crossings = (8, record { positive = 2; negative = 1 }) ∷ [];
}

unnamed_totals_example :
    let zones = keys halls.zone_occupancy in
    let entries = sum_over (count_under (λ z. z.entries) halls.zone_occupancy) zones in
    let exits = sum_over (count_under (λ z. z.exits) halls.zone_occupancy) zones in
    let crossings =
      sum_over
        (count_under (λ l. l.positive + l.negative) halls.line_crossings)
        (keys halls.line_crossings) in
    let occupants : Condition = record crowded {
      ctype = zone_occupancy_threshold;
      zone_name = none;
      operator = gte;
    } in
    let crossed : Condition = record crowded {
      ctype = line_crossing_threshold;
      line_name = none;
      operator = gte;
    } in
    ((evaluate_condition occupants halls none ≡ true) ↔ (2 + exits ≤ entries))
    × ((evaluate_condition (record occupants { operator = lt }) halls none ≡ true)
        ↔ (entries < 2 + exits))
    × ((evaluate_condition crossed halls none ≡ true) ↔ (2 ≤ crossings))
unfolding mem
unnamed_totals_example = unnamed_totals crowded halls none (refl, (refl, tt)) (refl, tt)

abbrev dispatcher : Dispatcher
dispatcher = record {
  providers = 1 ∷ 2 ∷ [];
  max_retries = 3;
  sends = λ p n. ltb p n;
  commits = λ row. true;
}

dispatch_one-report_example :
    dispatch_one dispatcher 2 ≡ report dispatcher 2 0 4 (failures_before dispatcher 2 0 4)
dispatch_one-report_example = dispatch_one-report dispatcher 2

abbrev lived_rule : Rule
lived_rule = record {
  rule = 3;
  key = 8;
  rule_severity = 2;
  rule_priority = 1;
  expiry_seconds = some 60;
}

abbrev commands : List Command
commands =
    triggers lived_rule 5 100 true
    ∷ acts 1 acknowledge (some 7) none 110 true
    ∷ triggers lived_rule 5 120 true
    ∷ notifies 1 121 true
    ∷ acts 1 (suppress 30) none none 130 true
    ∷ expires 200 true
    ∷ acts 1 resolve none none 210 true
    ∷ []

history_audits_example :
    let db = perform_all empty_database commands in
    (recorded 1 db.history ≡ current 1 db.instances) × IsLegal db.history
history_audits_example = history_audits commands 1

abbrev crowd_rule : RuleRow
crowd_rule = record {
  id = 3;
  rule_stream = none;
  enabled = true;
  severity = 1;
  priority = 5;
  cooldown_seconds = 60;
  conditions = crowded ∷ [];
  condition_logic = is_and;
  template = λ stream event. none;
  expiry_seconds = none;
}

abbrev engine : Config
engine = record {
  dedup_window = 0;
  rule_cache_ttl = 10;
  queue_capacity = 2;
  default_key = λ r s. r * 100 + s;
  store_key = λ r k. r * 1000 + k;
}

abbrev call_at : ℕ → Call
call_at t = record {
  at = t;
  outside = record { cached_cooldown = λ k. false; cached_dedup = λ k. false; commits = λ r. true };
  for_stream = 8;
  snapshot = snapshot;
  event = record { event_type = 1; class_of = none; seconds = none };
  row = crowd_rule;
}

abbrev no_store : Store
no_store = record { cooldowns = []; dedup = [] }

raises : (perform engine (call_at 100) no_store empty_database).1 ≡ some 1
unfolding perform
raises = refl

cooldown_silences_example :
    let first = perform engine (call_at 100) no_store empty_database in
    let w = perform_calls engine (call_at 120 ∷ call_at 130 ∷ []) first.0.0 first.0.1 in
    let r = perform engine (call_at 159) w.0 w.1 in (r.0.1 ≡ w.1) × (r.1 ≡ none)
unfolding perform key_of
cooldown_silences_example =
    cooldown_silences engine (call_at 100) (call_at 120 ∷ call_at 130 ∷ []) (call_at 159) no_store
      empty_database 1 refl (omega arith, (omega arith, tt)) (omega arith) (omega arith) refl

perform_latest_example :
    let r = rule_of engine (call_at 100) in
    let rows = (perform engine (call_at 100) no_store empty_database).0.1.instances in
    (i : Instance) × (i.id ≡ 1)
    × Has i rows
    × IsOpen r.rule r.key i
    × All (λ j. IsClosed r.rule r.key j ⊎ (j.triggered_at ≤ i.triggered_at)) rows
unfolding perform
perform_latest_example = perform_latest engine (call_at 100) no_store empty_database 1 refl

rules_fresh_example :
    let tables : ℕ → Option (List RuleRow) =
      λ t. if ltb t 50 then some [] else some (crowd_rule ∷ []) in
    let rules =
      (get_rules engine 52 8 (tables 52) (use_all engine tables (asks 45 8 ∷ []) empty_cache)).1 in
    (rules ≡ load_rules 8 (tables 52))
    ⊎ ((ts : ℕ) × (rules ≡ load_rules 8 (tables ts)) × (52 - ts < 10))
rules_fresh_example =
    rules_fresh engine (λ t. if ltb t 50 then some [] else some (crowd_rule ∷ [])) (asks 45 8 ∷ [])
      52 8
