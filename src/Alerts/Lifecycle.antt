-- ===== src/Alerts/Lifecycle.antt =====
-- backend/alerts/manager.py: alert instances in the database, their transitions and their history.
-- Identifiers, users, notes, severities and keys are opaque numbers, and times are numbers. A
-- `commits` argument says whether the session's work succeeds; where it does not, the session is
-- rolled back.
use omnitrack_ai_platform.Prelude.{
  ℕ, ◌+◌, Bool, true, false, not, ◌&&◌, Option, none, some, List, [], ◌∷◌, ◌++◌, ltb, ◌==◌,
  if◌then◌else◌, length,
}
pub mod Audit
pub mod Histories

pub data State : Type 0 where
  triggered acknowledged suppressed resolved expired : State

-- `AlertInstance`, the columns that the manager reads or writes.
pub record Instance : Type 0 where
  pub id : ℕ
  pub rule_id : ℕ
  pub stream_id : ℕ
  pub state : State
  pub severity : ℕ
  pub priority : ℕ
  pub dedup_key : ℕ
  pub triggered_at : ℕ
  pub expires_at : Option ℕ
  pub acknowledged_at : Option ℕ
  pub acknowledged_by : Option ℕ
  pub resolved_at : Option ℕ
  pub suppressed_until : Option ℕ
  pub last_notified_at : Option ℕ
  pub notification_count : ℕ

-- `AlertStateHistory`.
pub record Change : Type 0 where
  pub alert_instance_id : ℕ
  pub from_state : Option State
  pub to_state : State
  pub changed_at : ℕ
  pub changed_by : Option ℕ
  pub note : Option ℕ

-- The two tables, oldest row first, and the next primary key.
pub record Database : Type 0 where
  pub instances : List Instance
  pub history : List Change
  pub next_id : ℕ

-- What `trigger` reads of a rule; the key is the one after the default `rule:stream`.
pub record Rule : Type 0 where
  pub rule : ℕ
  pub key : ℕ
  pub rule_severity : ℕ
  pub rule_priority : ℕ
  pub expiry_seconds : Option ℕ

-- `state.in_(ACTIVE_STATES)`.
abbrev pub is_active : State → Bool
is_active triggered = true
is_active acknowledged = true
is_active suppressed = true
is_active resolved = false
is_active expired = false

-- The filter of `trigger`: an active instance of the rule under the key.
unfoldable pub is_match : ℕ → ℕ → Instance → Bool
is_match rule key i = i.rule_id == rule && i.dedup_key == key && is_active i.state

-- The later of two matches; among equal times the earlier row.
unfoldable pub newer : Instance → Option Instance → Instance
newer i none = i
newer i (some j) = if ltb i.triggered_at j.triggered_at then j else i

-- `order_by(triggered_at.desc()).first()` of the matches.
unfoldable pub existing : ℕ → ℕ → List Instance → Option Instance
unfolding is_match newer
existing rule key [] = none
existing rule key (i ∷ is) =
    let rest = existing rule key is in if is_match rule key i then some (newer i rest) else rest

-- `now + timedelta(seconds=...)` unless the rule's expiry is absent or 0.
unfoldable pub expiry : ℕ → Option ℕ → Option ℕ
expiry now none = none
expiry now (some seconds) = if seconds == 0 then none else some (now + seconds)

unfoldable pub new_instance : ℕ → Rule → ℕ → ℕ → Instance
unfolding expiry
new_instance id r stream now = record {
  id = id;
  rule_id = r.rule;
  stream_id = stream;
  state = triggered;
  severity = r.rule_severity;
  priority = r.rule_priority;
  dedup_key = r.key;
  triggered_at = now;
  expires_at = expiry now r.expiry_seconds;
  acknowledged_at = none;
  acknowledged_by = none;
  resolved_at = none;
  suppressed_until = none;
  last_notified_at = none;
  notification_count = 0;
}

-- `trigger`: the database and the alert id returned.
unfoldable pub trigger : Database → Rule → ℕ → ℕ → Bool → Database × Option ℕ
unfolding new_instance existing
trigger db r stream now commits = elim (existing r.rule r.key db.instances) [
  | some i ↦ (db, some i.id)
  | none ↦
      (if commits
        then (
          record {
            instances = db.instances ++ new_instance db.next_id r stream now ∷ [];
            history =
                db.history
                ++ record {
                  alert_instance_id = db.next_id;
                  from_state = none;
                  to_state = triggered;
                  changed_at = now;
                  changed_by = none;
                  note = none;
                }
                  ∷ [];
            next_id = db.next_id + 1;
          },
          some db.next_id,
        )
        else (db, none))
]

-- The three calls of `_transition`.
pub data Action : Type 0 where
  acknowledge resolve : Action
  suppress : ℕ → Action

abbrev pub target : Action → State
target acknowledge = acknowledged
target resolve = resolved
target (suppress seconds) = suppressed

-- `instance.state in allowed_from`.
unfoldable pub is_allowed : Action → State → Bool
is_allowed acknowledge triggered = true
is_allowed acknowledge other = false
is_allowed resolve triggered = true
is_allowed resolve acknowledged = true
is_allowed resolve suppressed = true
is_allowed resolve other = false
is_allowed (suppress seconds) triggered = true
is_allowed (suppress seconds) acknowledged = true
is_allowed (suppress seconds) other = false

-- `instance.state = to_state; set_fields(instance, now)`.
unfoldable pub set_fields : Action → Option ℕ → ℕ → Instance → Instance
set_fields acknowledge user now i = record i {
  state = acknowledged;
  acknowledged_at = some now;
  acknowledged_by = user;
}
set_fields resolve user now i = record i { state = resolved; resolved_at = some now }
set_fields (suppress seconds) user now i = record i {
  state = suppressed;
  suppressed_until = some (now + seconds);
}

pub data Outcome : Type 0 where
  done : State → Outcome
  not_found database_error : Outcome
  cannot_transition : State → State → Outcome

unfoldable pub find : ℕ → List Instance → Option Instance
find id [] = none
find id (i ∷ is) = if id == i.id then some i else find id is

-- The row of that primary key, changed in place.
unfoldable pub change_at : ℕ → (Instance → Instance) → List Instance → List Instance
change_at id f [] = []
change_at id f (i ∷ is) = if id == i.id then f i ∷ is else i ∷ change_at id f is

unfoldable pub transition :
    Database → ℕ → Action → Option ℕ → Option ℕ → ℕ → Bool → Database × Outcome
unfolding find is_allowed change_at set_fields
transition db id action user note now commits = elim (find id db.instances) [
  | none ↦ (db, not_found)
  | some i ↦
      (if not (is_allowed action i.state)
        then (db, cannot_transition i.state (target action))
        else if not commits
        then (db, database_error)
        else (
          record db {
            instances = change_at id (set_fields action user now) db.instances;
            history =
                db.history
                ++ record {
                  alert_instance_id = id;
                  from_state = some i.state;
                  to_state = target action;
                  changed_at = now;
                  changed_by = user;
                  note = note;
                }
                  ∷ [];
          },
          done (target action),
        ))
]

-- The filter of `run_expiry`.
unfoldable pub is_due : ℕ → Instance → Bool
is_due now i = elim i.expires_at [
  | none ↦ false
  | some at ↦ ltb at now && (elim i.state [ triggered ↦ true | acknowledged ↦ true | _ ↦ false ])
]

unfoldable pub expire_all : ℕ → List Instance → List Instance
unfolding is_due
expire_all now [] = []
expire_all now (i ∷ is) =
    (if is_due now i then record i { state = expired } else i) ∷ expire_all now is

unfoldable pub expiry_changes : ℕ → List Instance → List Change
unfolding is_due
expiry_changes now [] = []
expiry_changes now (i ∷ is) =
    let rest = expiry_changes now is in
    if is_due now i
    then record {
      alert_instance_id = i.id;
      from_state = some i.state;
      to_state = expired;
      changed_at = now;
      changed_by = none;
      note = none;
    }
      ∷ rest
    else rest

-- `run_expiry`: the database; its result counts the rows due, whether or not the commit succeeds.
unfoldable pub run_expiry : Database → ℕ → Bool → Database × ℕ
unfolding expire_all expiry_changes
run_expiry db now commits = (
  if commits
      then record db {
        instances = expire_all now db.instances;
        history = db.history ++ expiry_changes now db.instances;
      }
      else db,
  length (expiry_changes now db.instances),
)

-- `_mark_notified`.
unfoldable pub mark_notified : Database → ℕ → ℕ → Bool → Database
unfolding change_at
mark_notified db id now commits =
    if commits
    then record db {
      instances =
          change_at id
            (λ i. record i {
              last_notified_at = some now;
              notification_count = i.notification_count + 1;
            })
            db.instances;
    }
    else db
