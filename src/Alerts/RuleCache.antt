-- ===== src/Alerts/RuleCache.antt =====
-- backend/alerts/engine.py, AlertRuleEngine: the rules of a stream, cached for a while, and the queue of
-- events. What the database holds at a time is an argument; a load that fails gives no rules.
use omnitrack_ai_platform.Prelude.{
  ℕ, ◌-◌, Bool, true, not, ◌&&◌, Option, none, some, List, [], ◌∷◌, ◌++◌, ltb, leb, ◌==◌,
  if◌then◌else◌, length, keep,
}
use omnitrack_ai_platform.Prelude.Dict.{Dict, lookup, insert}
use omnitrack_ai_platform.Alerts.Engine.{Config, RuleRow}
pub mod Staleness

pub record RuleCache : Type 0 where
  pub rule_cache : Dict (List RuleRow)
  pub cache_ts : Dict ℕ

-- The filter of `_load_rules`.
unfoldable pub is_for : ℕ → RuleRow → Bool
is_for stream r = r.enabled && (elim r.rule_stream [ none ↦ true | some s ↦ s == stream ])

unfoldable pub insert_rule : RuleRow → List RuleRow → List RuleRow
insert_rule r [] = r ∷ []
insert_rule r (q ∷ qs) = if leb q.priority r.priority then r ∷ q ∷ qs else q ∷ insert_rule r qs

-- `order_by(priority.desc())`.
unfoldable pub by_priority : List RuleRow → List RuleRow
unfolding insert_rule
by_priority [] = []
by_priority (r ∷ rs) = insert_rule r (by_priority rs)

-- `_load_rules`, with the rows of the table, or none where the query fails.
unfoldable pub load_rules : ℕ → Option (List RuleRow) → List RuleRow
unfolding is_for by_priority
load_rules stream none = []
load_rules stream (some rows) = by_priority (keep (is_for stream) rows)

-- `_get_rules` where nothing fresh is cached.
unfoldable pub reload : ℕ → ℕ → Option (List RuleRow) → RuleCache → RuleCache × List RuleRow
unfolding load_rules insert
reload now stream table c =
    let rules = load_rules stream table in
    (
      record {
        rule_cache = insert stream rules c.rule_cache;
        cache_ts = insert stream now c.cache_ts;
      },
      rules,
    )

-- `_get_rules`.
unfoldable pub get_rules :
    Config → ℕ → ℕ → Option (List RuleRow) → RuleCache → RuleCache × List RuleRow
unfolding lookup reload
get_rules cfg now stream table c = elim (lookup stream c.rule_cache) [
  | none ↦ reload now stream table c
  | some cached ↦
      if ltb (now - (elim (lookup stream c.cache_ts) [ none ↦ 0 | some ts ↦ ts ]))
        cfg.rule_cache_ttl
      then (c, cached)
      else reload now stream table c
]

-- `invalidate_cache`, and `reload_rules`.
unfoldable pub invalidate_cache : RuleCache → RuleCache
invalidate_cache c = record { rule_cache = []; cache_ts = [] }

-- `handle_event`: an event is dropped where the queue is full; a capacity of 0 is no bound.
unfoldable pub handle_event : {A : Type 0} → Config → A → List A → List A
handle_event cfg event queue =
    if not (cfg.queue_capacity == 0) && leb cfg.queue_capacity (length queue)
    then queue
    else queue ++ event ∷ []
