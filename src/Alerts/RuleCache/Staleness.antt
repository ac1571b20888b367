-- ===== src/Alerts/RuleCache/Staleness.antt =====
-- How old the rules are that backend/alerts/engine.py evaluates, and their order.

-- A use of the cache: rules are asked for a stream, or the cache is invalidated.
use omnitrack_ai_platform.Prelude.{
  ℕ, ◌-◌, ◌<◌, ◌≡◌, refl, sym, subst, ◌⊎◌, inl, inr, true, false, Option, none, some, List, [], ◌∷◌,
  arith, ltb, ◌==◌, if◌then◌else◌, Bool-cases, Option-cases,
}
use omnitrack_ai_platform.Prelude.Dict.{lookup, lookup-insert}
use omnitrack_ai_platform.Alerts.Engine.{Config, RuleRow}
use omnitrack_ai_platform.Alerts.RuleCache.{
  RuleCache, get_rules, reload, invalidate_cache, load_rules,
}

pub data Use : Type 0 where
  asks : ℕ → ℕ → Use
  invalidates : Use

-- `tables t` is what the database answers at the time `t`.
unfoldable pub use_cache : Config → (ℕ → Option (List RuleRow)) → Use → RuleCache → RuleCache
unfolding get_rules invalidate_cache
use_cache cfg tables (asks now stream) c = (get_rules cfg now stream (tables now) c).0
use_cache cfg tables invalidates c = invalidate_cache c

unfoldable pub use_all : Config → (ℕ → Option (List RuleRow)) → List Use → RuleCache → RuleCache
unfolding use_cache
use_all cfg tables [] c = c
use_all cfg tables (u ∷ us) c = use_all cfg tables us (use_cache cfg tables u c)

abbrev pub empty_cache : RuleCache
empty_cache = record { rule_cache = []; cache_ts = [] }

-- Every entry is what was loaded at its time.
abbrev IsLoaded : (ℕ → Option (List RuleRow)) → RuleCache → Type 0
IsLoaded tables c =
    (stream : ℕ) (rules : List RuleRow)
    → lookup stream c.rule_cache ≡ some rules
    → (ts : ℕ) × (lookup stream c.cache_ts ≡ some ts) × (rules ≡ load_rules stream (tables ts))

reload-IsLoaded :
    (tables : ℕ → Option (List RuleRow)) (now stream : ℕ) (c : RuleCache)
    → IsLoaded tables c
    → IsLoaded tables (reload now stream (tables now) c).0
unfolding reload
reload-IsLoaded tables now stream c h q rules e = elim (Bool-cases (q == stream)) [
  | inl same ↦
      let here : q ≡ stream = ground arith in
      let fresh = load_rules stream (tables now) in
      let there : some fresh ≡ some rules =
        ground (arith, lookup-insert q stream fresh c.rule_cache, e) in
      (
        now,
        ground (arith, lookup-insert q stream now c.cache_ts),
        subst (λ x. rules ≡ load_rules x (tables now)) (sym here) (cc there),
      )
  | inr other ↦
      let was : lookup q c.rule_cache ≡ some rules =
        ground (arith, lookup-insert q stream (load_rules stream (tables now)) c.rule_cache, e) in
      let (ts, at, loaded) = h q rules was in
      (ts, ground (arith, lookup-insert q stream now c.cache_ts, at), loaded)
]

get_rules-IsLoaded :
    (cfg : Config) (tables : ℕ → Option (List RuleRow)) (now stream : ℕ) (c : RuleCache)
    → IsLoaded tables c
    → IsLoaded tables (get_rules cfg now stream (tables now) c).0
unfolding get_rules
get_rules-IsLoaded cfg tables now stream c h = by_cached (lookup stream c.rule_cache)
  where
    fresh : RuleCache × List RuleRow
    fresh = reload now stream (tables now) c

    by_cached :
        (o : Option (List RuleRow))
        → IsLoaded tables
            (elim o as (λ x. RuleCache × List RuleRow) [
              | none ↦ fresh
              | some cached ↦
                  if ltb
                    (now
                      - (elim (lookup stream c.cache_ts) as (λ x. ℕ) [ none ↦ 0 | some ts ↦ ts ]))
                    cfg.rule_cache_ttl
                  then (c, cached)
                  else fresh
            ]).0
    by_cached none = reload-IsLoaded tables now stream c h
    by_cached (some cached) =
        elim (ltb (now - (elim (lookup stream c.cache_ts) as (λ x. ℕ) [ none ↦ 0 | some ts ↦ ts ]))
            cfg.rule_cache_ttl)
          as (λ b. IsLoaded tables (if b then (c, cached) else fresh).0) [
            | true ↦ h
            | false ↦ reload-IsLoaded tables now stream c h
          ]

use_all-IsLoaded :
    (cfg : Config) (tables : ℕ → Option (List RuleRow)) (us : List Use) (c : RuleCache)
    → IsLoaded tables c
    → IsLoaded tables (use_all cfg tables us c)
unfolding use_all use_cache invalidate_cache lookup
use_all-IsLoaded cfg tables [] c h = h
use_all-IsLoaded cfg tables (asks now stream ∷ us) c h =
    use_all-IsLoaded cfg tables us _ (get_rules-IsLoaded cfg tables now stream c h)
use_all-IsLoaded cfg tables (invalidates ∷ us) c h =
    use_all-IsLoaded cfg tables us _ (λ stream rules e. absurd cc)

cache_fresh :
    (cfg : Config) (tables : ℕ → Option (List RuleRow)) (now stream : ℕ) (c : RuleCache)
    → IsLoaded tables c
    → let rules = (get_rules cfg now stream (tables now) c).1 in
      (rules ≡ load_rules stream (tables now))
      ⊎ ((ts : ℕ) × (rules ≡ load_rules stream (tables ts)) × (now - ts < cfg.rule_cache_ttl))
unfolding get_rules reload
cache_fresh cfg tables now stream c h = elim (Option-cases (lookup stream c.rule_cache)) [
  | inl e ↦ rw (e, get_rules) (inl refl)
  | inr (cached, e) ↦
      let (ts, at, loaded) = h stream cached e in
      rw (e, get_rules, at)
        (elim (Bool-cases (ltb (now - ts) cfg.rule_cache_ttl)) [
          | inl young ↦ rw young (inr (ts, loaded, ground arith))
          | inr old ↦ rw old (inl refl)
        ])
]

-- The rules that an event is evaluated against are those that the database gave for its stream now, or
-- at a time less than the time to live ago; a clock that went back counts as no time.
pub rules_fresh :
    (cfg : Config) (tables : ℕ → Option (List RuleRow)) (us : List Use) (now stream : ℕ)
    → let rules = (get_rules cfg now stream (tables now) (use_all cfg tables us empty_cache)).1 in
      (rules ≡ load_rules stream (tables now))
      ⊎ ((ts : ℕ) × (rules ≡ load_rules stream (tables ts)) × (now - ts < cfg.rule_cache_ttl))
unfolding lookup
rules_fresh cfg tables us now stream =
    cache_fresh cfg tables now stream (use_all cfg tables us empty_cache)
      (use_all-IsLoaded cfg tables us empty_cache (λ stream rules e. absurd cc))
