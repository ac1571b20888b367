-- ===== src/Alerts/Engine/Standing.antt =====
-- The alert that an evaluation of backend/alerts/engine.py returns, in the database of
-- backend/alerts/manager.py.
use omnitrack_ai_platform.Prelude.{
  ℕ, ◌≤◌, ◌≡◌, refl, sym, ap, ◌∙◌, subst, ◌⊎◌, Bool, true, false, Option, none, some, List, [], ◌∷◌,
  ◌++◌, arith, All,
}
use omnitrack_ai_platform.Alerts.Lifecycle.{
  Database, Instance, Rule, existing, is_match, newer, trigger,
}
use omnitrack_ai_platform.Alerts.Lifecycle.{new_instance}
use omnitrack_ai_platform.Alerts.Engine.Calls.{Call, perform, perform-elim}
use omnitrack_ai_platform.Alerts.Engine.{raise_alert, dedup_key, payload, Config}
use omnitrack_ai_platform.Alerts.Store.{Store}
use omnitrack_ai_platform.Alerts.Engine.Latest.{
  Has, IsOpen, IsClosed, existing-Has, existing-IsOpen, existing-latest,
}

existing-append :
    (rule key : ℕ) (xs : List Instance) (i : Instance)
    → existing rule key xs ≡ none
    → is_match rule key i ≡ true
    → existing rule key (xs ++ i ∷ []) ≡ some i
unfolding existing newer
existing-append rule key [] i h m = ground (arith, m)
existing-append rule key (x ∷ xs) i h m = ground (arith, m, existing-append rule key xs i)

trigger_held :
    (db : Database) (r : Rule) (stream now : ℕ) (commits : Bool) (i : Instance)
    → existing r.rule r.key db.instances ≡ some i
    → trigger db r stream now commits ≡ (db, some i.id)
unfolding trigger
trigger_held db r stream now commits i e = rw (e, trigger)

trigger_new :
    (db : Database) (r : Rule) (stream now : ℕ)
    → existing r.rule r.key db.instances ≡ none
    → ((trigger db r stream now true).0.instances
        ≡ db.instances ++ new_instance db.next_id r stream now ∷ [])
      × ((trigger db r stream now true).1 ≡ some db.next_id)
      × ((trigger db r stream now false).1 ≡ none)
unfolding trigger
trigger_new db r stream now e = (rw (e, trigger), rw (e, trigger), rw (e, trigger))

new-is_match :
    (id : ℕ) (r : Rule) (stream now : ℕ)
    → is_match r.rule r.key (new_instance id r stream now) ≡ true
unfolding is_match new_instance
new-is_match id r stream now = ground arith

-- The instance that stands after `trigger` returned an id has that id.
trigger-existing :
    (db : Database) (r : Rule) (stream now : ℕ) (commits : Bool) (a : ℕ)
    → (trigger db r stream now commits).1 ≡ some a
    → (i : Instance) × (existing r.rule r.key (trigger db r stream now commits).0.instances
        ≡ some i)
      × (i.id ≡ a)
unfolding trigger
trigger-existing db r stream now commits a h =
    by_row (existing r.rule r.key db.instances) refl commits h
  where
    by_row :
        (o : Option Instance)
        → existing r.rule r.key db.instances ≡ o
        → (b : Bool) → (trigger db r stream now b).1 ≡ some a
        → (i : Instance) × (existing r.rule r.key (trigger db r stream now b).0.instances ≡ some i)
          × (i.id ≡ a)
    by_row (some i) e b g =
        let held = trigger_held db r stream now b i e in
        subst (λ t. (i : Instance) × (existing r.rule r.key t.0.instances ≡ some i) × (i.id ≡ a))
          (sym held) (i, e, cc (sym (ap (λ t. t.1) held) ∙ g))
    by_row none e true g =
        let (rows, id, gone) = trigger_new db r stream now e in
        let i = new_instance db.next_id r stream now in
        (
          i,
          ap (existing r.rule r.key) rows
              ∙ existing-append r.rule r.key db.instances i e
                  (new-is_match db.next_id r stream now),
          cc (sym id ∙ g),
        )
    by_row none e false g =
        let (rows, id, gone) = trigger_new db r stream now e in absurd (cc (sym gone ∙ g))

-- The rule that `trigger` is given by a call.
abbrev pub rule_of : Config → Call → Rule
unfolding payload dedup_key
rule_of cfg c = payload cfg c.row c.for_stream (dedup_key cfg c.row c.for_stream c.event)

-- Where an evaluation returns an alert, the database has an instance with that id, of the rule and
-- under its dedup key, that is triggered, acknowledged or suppressed, and no other such instance is
-- triggered later: all others that are as late or later belong to another rule or another key, or are
-- resolved or expired. So it is whether the evaluation opened the alert or found it.
pub perform_latest :
    (cfg : Config) (c : Call) (s : Store) (db : Database) (a : ℕ)
    → (perform cfg c s db).1 ≡ some a
    → let r = rule_of cfg c in
      let rows = (perform cfg c s db).0.1.instances in
      (i : Instance) × (i.id ≡ a)
      × Has i rows
      × IsOpen r.rule r.key i
      × All (λ j. IsClosed r.rule r.key j ⊎ (j.triggered_at ≤ i.triggered_at)) rows
unfolding raise_alert rule_of dedup_key
perform_latest cfg c s db a h =
    let r = rule_of cfg c in
    let (i, e, same) =
      perform-elim cfg c s db
        (λ x.
          x.1 ≡ some a
          → (i : Instance) × (existing r.rule r.key x.0.1.instances ≡ some i) × (i.id ≡ a))
        (λ e. absurd cc) (λ e. absurd cc) (λ e. absurd cc)
        (λ free e. trigger-existing db r c.for_stream c.at (c.outside.commits c.row.id) a e) h in
    let rows = (perform cfg c s db).0.1.instances in
    (
      i,
      same,
      existing-Has r.rule r.key rows i e,
      existing-IsOpen r.rule r.key rows i e,
      existing-latest r.rule r.key rows i e,
    )
