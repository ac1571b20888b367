-- ===== src/Alerts/Lifecycle/Histories.antt =====
-- The operations of backend/alerts/manager.py on audited tables, and runs of them.
use omnitrack_ai_platform.Prelude.{
  ℕ, ◌+◌, ◌<◌, ◌≡◌, refl, inl, inr, Bool, true, false, Option, none, some, List, [], ◌∷◌, ◌++◌,
  arith, if◌then◌else◌, Bool-cases, Option-cases, All, mem,
}
use omnitrack_ai_platform.Prelude.Dict.{HasOnce}
use omnitrack_ai_platform.Alerts.Lifecycle.{Database}
use omnitrack_ai_platform.Alerts.Lifecycle.{Change, Instance, Rule, State, expired, find, trigger}
use omnitrack_ai_platform.Alerts.Lifecycle.{
  Action, acknowledge, change_at, expire_all, expiry_changes, is_allowed, is_due, mark_notified,
  resolve, run_expiry, set_fields, suppress, target, transition,
}
use omnitrack_ai_platform.Alerts.Lifecycle.Audit.{
  Audited, IsLegal, IsLegal-append, below-change_at, current, find-change_at, ids, ids-change_at,
  is_edge, recorded, recorded-append, trigger-Audited,
}

set_fields-id :
    (action : Action) (user : Option ℕ) (now : ℕ) (i : Instance)
    → ((set_fields action user now i).id ≡ i.id)
      × ((set_fields action user now i).state ≡ target action)
unfolding set_fields
set_fields-id acknowledge user now i = (refl, refl)
set_fields-id resolve user now i = (refl, refl)
set_fields-id (suppress seconds) user now i = (refl, refl)

is_allowed-is_edge :
    (action : Action) (s : State)
    → is_allowed action s ≡ true
    → is_edge (some s) (target action) ≡ true
unfolding is_allowed
is_allowed-is_edge acknowledge s h = ground arith
is_allowed-is_edge resolve s h = ground arith
is_allowed-is_edge (suppress seconds) s h = ground arith

transition-Audited :
    (db : Database) (id : ℕ) (action : Action) (user note : Option ℕ) (now : ℕ) (commits : Bool)
    → Audited db
    → Audited (transition db id action user note now commits).0
unfolding transition recorded current
transition-Audited db id action user note now commits h =
    elim (Option-cases (find id db.instances)) [
      | inl e ↦ rw (e, transition) h
      | inr (i, e) ↦
          rw (e, transition)
            (elim (Bool-cases (is_allowed action i.state)) [
              | inr no_edge ↦ rw no_edge h
              | inl ok_edge ↦ rw ok_edge (elim (Bool-cases commits) [
                | inr fails ↦ rw fails h
                | inl works ↦ rw works (changed i e ok_edge)
              ])
            ])
    ]
  where
    f : Instance → Instance
    f = set_fields action user now

    keeps : (i : Instance) → (f i).id ≡ i.id
    keeps i = (set_fields-id action user now i).0

    change : State → Change
    change s = record {
      alert_instance_id = id;
      from_state = some s;
      to_state = target action;
      changed_at = now;
      changed_by = user;
      note = note;
    }

    changed :
        (i : Instance)
        → find id db.instances ≡ some i
        → is_allowed action i.state ≡ true
        → Audited (record db {
          instances = change_at id f db.instances;
          history = db.history ++ change i.state ∷ [];
        })
    changed i e edge = record {
      agrees = λ q. ground (
        arith,
        h.agrees q,
        recorded-append q db.history (change i.state ∷ []),
        find-change_at q id f db.instances keeps,
        set_fields-id action user now i,
      );
      legal =
          IsLegal-append db.history (change i.state ∷ []) h.legal
            (is_allowed-is_edge action i.state edge, tt);
      below = below-change_at db.next_id id f db.instances keeps h.below;
      once = rw (ids-change_at id f db.instances keeps) h.once;
    }

find-expire_all :
    (q now : ℕ) (is : List Instance)
    → find q (expire_all now is) ≡ (elim (find q is) [
      | none ↦ none
      | some i ↦ some (if is_due now i then record i { state = expired } else i)
    ])
unfolding find expire_all
find-expire_all q now [] = refl
find-expire_all q now (x ∷ is) = ground (arith, find-expire_all q now is)

ids-expire_all : (now : ℕ) (is : List Instance) → ids (expire_all now is) ≡ ids is
unfolding expire_all
ids-expire_all now [] = refl
ids-expire_all now (x ∷ is) = ground (arith, ids-expire_all now is)

below-expire_all :
    (n now : ℕ) (is : List Instance)
    → All (λ i. i.id < n) is
    → All (λ i. i.id < n) (expire_all now is)
unfolding expire_all
below-expire_all n now [] h = tt
below-expire_all n now (x ∷ is) h = ground (arith, below-expire_all n now is h.1)

find_absent : (q : ℕ) (is : List Instance) → mem q (ids is) ≡ false → find q is ≡ none
unfolding find mem
find_absent q [] h = refl
find_absent q (x ∷ is) h = ground (arith, find_absent q is)

recorded-expiry_changes :
    (q now : ℕ) (is : List Instance)
    → HasOnce (ids is)
    → recorded q (expiry_changes now is)
      ≡ (elim (find q is) [ none ↦ none | some i ↦ (if is_due now i then some expired else none) ])
unfolding recorded expiry_changes find
recorded-expiry_changes q now [] h = refl
recorded-expiry_changes q now (x ∷ is) h =
    ground (arith, recorded-expiry_changes q now is h.1, find_absent x.id is h.0)

expiry_changes-IsLegal : (now : ℕ) (is : List Instance) → IsLegal (expiry_changes now is)
unfolding expiry_changes is_due
expiry_changes-IsLegal now [] = tt
expiry_changes-IsLegal now (x ∷ is) = ground (arith, expiry_changes-IsLegal now is)

run_expiry-Audited :
    (db : Database) (now : ℕ) (commits : Bool) → Audited db → Audited (run_expiry db now commits).0
unfolding run_expiry recorded current
run_expiry-Audited db now false h = h
run_expiry-Audited db now true h = record {
  agrees = λ q. ground (
    arith,
    h.agrees q,
    recorded-append q db.history (expiry_changes now db.instances),
    find-expire_all q now db.instances,
    recorded-expiry_changes q now db.instances h.once,
  );
  legal =
      IsLegal-append db.history (expiry_changes now db.instances) h.legal
        (expiry_changes-IsLegal now db.instances);
  below = below-expire_all db.next_id now db.instances h.below;
  once = rw (ids-expire_all now db.instances) h.once;
}

mark_notified-Audited :
    (db : Database) (id now : ℕ) (commits : Bool)
    → Audited db
    → Audited (mark_notified db id now commits)
unfolding mark_notified recorded current
mark_notified-Audited db id now false h = h
mark_notified-Audited db id now true h = record {
  agrees = λ q. ground (arith, h.agrees q, find-change_at q id f db.instances (λ i. refl));
  legal = h.legal;
  below = below-change_at db.next_id id f db.instances (λ i. refl) h.below;
  once = rw (ids-change_at id f db.instances (λ i. refl)) h.once;
}
  where
    f : Instance → Instance
    f i = record i { last_notified_at = some now; notification_count = i.notification_count + 1 }

-- The calls that write to the tables.
pub data Command : Type 0 where
  triggers : Rule → ℕ → ℕ → Bool → Command
  acts : ℕ → Action → Option ℕ → Option ℕ → ℕ → Bool → Command
  expires : ℕ → Bool → Command
  notifies : ℕ → ℕ → Bool → Command

unfoldable pub perform : Database → Command → Database
perform db (triggers r stream now commits) = (trigger db r stream now commits).0
perform db (acts id action user note now commits) =
    (transition db id action user note now commits).0
perform db (expires now commits) = (run_expiry db now commits).0
perform db (notifies id now commits) = mark_notified db id now commits

unfoldable pub perform_all : Database → List Command → Database
perform_all db [] = db
perform_all db (c ∷ cs) = perform_all (perform db c) cs

abbrev pub empty_database : Database
empty_database = record { instances = []; history = []; next_id = 1 }

perform-Audited : (db : Database) (c : Command) → Audited db → Audited (perform db c)
unfolding perform
perform-Audited db (triggers r stream now commits) h = trigger-Audited db r stream now commits h
perform-Audited db (acts id action user note now commits) h =
    transition-Audited db id action user note now commits h
perform-Audited db (expires now commits) h = run_expiry-Audited db now commits h
perform-Audited db (notifies id now commits) h = mark_notified-Audited db id now commits h

perform_all-Audited : (db : Database) (cs : List Command) → Audited db → Audited (perform_all db cs)
unfolding perform_all
perform_all-Audited db [] h = h
perform_all-Audited db (c ∷ cs) h = perform_all-Audited (perform db c) cs (perform-Audited db c h)

-- After any commands on empty tables, whether their commits succeed or not, the last state that
-- the history records for an id is the state of that alert, none for an id that has no alert, and
-- every recorded change is an edge of the alert's life: from nothing to triggered, then
-- acknowledged, suppressed, resolved or expired, and never out of resolved or expired.
pub history_audits :
    (cs : List Command) (id : ℕ)
    → let db = perform_all empty_database cs in
      (recorded id db.history ≡ current id db.instances) × IsLegal db.history
unfolding recorded current find
history_audits cs id =
    let h =
      perform_all-Audited empty_database cs
        (record { agrees = λ q. refl; legal = tt; below = tt; once = tt }) in
    (h.agrees id, h.legal)
