-- ===== src/Alerts/Lifecycle/Audit.antt =====
-- The history table of backend/alerts/manager.py tells the state of every alert.

-- The last state that the history records for an alert.
use omnitrack_ai_platform.Prelude.{
  ℕ, ◌+◌, ◌≤◌, ◌<◌, ◌≡◌, refl, inl, inr, Bool, true, false, ◌||◌, Option, none, some, List, [], ◌∷◌,
  ◌++◌, map, arith, ◌==◌, if◌then◌else◌, Option-cases, All, mem,
}
use omnitrack_ai_platform.Prelude.Dict.{HasOnce}
use omnitrack_ai_platform.Alerts.Lifecycle.{Database}
use omnitrack_ai_platform.Alerts.Lifecycle.{
  Change, Instance, Rule, State, acknowledged, existing, expired, find, new_instance, resolved,
  suppressed, trigger, triggered,
}
use omnitrack_ai_platform.Alerts.Lifecycle.{change_at}

unfoldable pub recorded : ℕ → List Change → Option State
recorded id [] = none
recorded id (c ∷ cs) = elim (recorded id cs) [
  | some s ↦ some s
  | none ↦ (if c.alert_instance_id == id then some c.to_state else none)
]

-- The state of an alert in the table of instances.
unfoldable pub current : ℕ → List Instance → Option State
unfolding find
current id is = elim (find id is) [ none ↦ none | some i ↦ some i.state ]

-- The edges of an alert's life.
abbrev pub is_edge : Option State → State → Bool
is_edge none triggered = true
is_edge (some triggered) acknowledged = true
is_edge (some triggered) suppressed = true
is_edge (some triggered) resolved = true
is_edge (some triggered) expired = true
is_edge (some acknowledged) suppressed = true
is_edge (some acknowledged) resolved = true
is_edge (some acknowledged) expired = true
is_edge (some suppressed) resolved = true
is_edge other to = false

abbrev pub IsLegal : List Change → Type 0
IsLegal = All (λ c. is_edge c.from_state c.to_state ≡ true)

abbrev pub ids : List Instance → List ℕ
ids = map (λ i. i.id)

pub record Audited (db : Database) : Type 0 where
  pub agrees : (id : ℕ) → recorded id db.history ≡ current id db.instances
  pub legal : IsLegal db.history
  pub below : All (λ i. i.id < db.next_id) db.instances
  pub once : HasOnce (ids db.instances)

pub recorded-append :
    (id : ℕ) (xs ys : List Change)
    → recorded id (xs ++ ys) ≡ (elim (recorded id ys) [ some s ↦ some s | none ↦ recorded id xs ])
unfolding recorded
recorded-append id [] ys = ground arith
recorded-append id (x ∷ xs) ys = ground (arith, recorded-append id xs ys)

pub IsLegal-append : (xs ys : List Change) → IsLegal xs → IsLegal ys → IsLegal (xs ++ ys)
IsLegal-append [] ys h k = k
IsLegal-append (x ∷ xs) ys h k = (h.0, IsLegal-append xs ys h.1 k)

find-append :
    (id : ℕ) (is : List Instance) (i : Instance)
    → find id (is ++ i ∷ [])
      ≡ (elim (find id is) [ some j ↦ some j | none ↦ (if id == i.id then some i else none) ])
unfolding find
find-append id [] i = ground arith
find-append id (x ∷ is) i = ground (arith, find-append id is i)

find_below : (id n : ℕ) (is : List Instance) → All (λ i. i.id < n) is → n ≤ id → find id is ≡ none
unfolding find
find_below id n [] h le = refl
find_below id n (x ∷ is) h le = ground (arith, find_below id n is h.1)

below-append :
    (n : ℕ) (is : List Instance) (i : Instance)
    → All (λ x. x.id < n) is
    → i.id ≡ n
    → All (λ x. x.id < n + 1) (is ++ i ∷ [])
below-append n [] i h e = (omega arith, tt)
below-append n (x ∷ is) i h e = (omega (arith, h.0), below-append n is i h.1 e)

mem-ids_below :
    (id n : ℕ) (is : List Instance) → All (λ i. i.id < n) is → n ≤ id → mem id (ids is) ≡ false
unfolding mem
mem-ids_below id n [] h le = refl
mem-ids_below id n (x ∷ is) h le = ground (arith, mem-ids_below id n is h.1)

mem-ids_append :
    (id : ℕ) (is : List Instance) (i : Instance)
    → mem id (ids (is ++ i ∷ [])) ≡ (mem id (ids is) || id == i.id)
unfolding mem
mem-ids_append id [] i = ground arith
mem-ids_append id (x ∷ is) i = ground (arith, mem-ids_append id is i)

once-append :
    (is : List Instance) (i : Instance)
    → HasOnce (ids is)
    → mem i.id (ids is) ≡ false
    → HasOnce (ids (is ++ i ∷ []))
unfolding mem
once-append [] i h e = (refl, tt)
once-append (x ∷ is) i h e = ground (arith, once-append is i h.1, mem-ids_append x.id is i)

pub trigger-Audited :
    (db : Database) (r : Rule) (stream now : ℕ) (commits : Bool)
    → Audited db
    → Audited (trigger db r stream now commits).0
unfolding trigger recorded current new_instance
trigger-Audited db r stream now false h = elim (Option-cases (existing r.rule r.key db.instances)) [
  | inl e ↦ rw (e, trigger) h
  | inr (i, e) ↦ rw (e, trigger) h
]
trigger-Audited db r stream now true h = elim (Option-cases (existing r.rule r.key db.instances)) [
  | inr (i, e) ↦ rw (e, trigger) h
  | inl e ↦
      let i = new_instance db.next_id r stream now in
      rw (e, trigger)
        (record {
          agrees = λ id. ground (
            arith,
            h.agrees id,
            recorded-append id db.history (opening ∷ []),
            find-append id db.instances i,
            find_below id db.next_id db.instances h.below,
          );
          legal = IsLegal-append db.history (opening ∷ []) h.legal (refl, tt);
          below = below-append db.next_id db.instances i h.below refl;
          once =
              once-append db.instances i h.once
                (mem-ids_below db.next_id db.next_id db.instances h.below (omega arith));
        })
]
  where
    opening : Change
    opening = record {
      alert_instance_id = db.next_id;
      from_state = none;
      to_state = triggered;
      changed_at = now;
      changed_by = none;
      note = none;
    }

pub find-change_at :
    (q id : ℕ) (f : Instance → Instance) (is : List Instance)
    → ((i : Instance) → (f i).id ≡ i.id)
    → find q (change_at id f is)
      ≡ (elim (find q is) [ none ↦ none | some i ↦ some (if q == id then f i else i) ])
unfolding find change_at
find-change_at q id f [] h = refl
find-change_at q id f (x ∷ is) h = ground (arith, find-change_at q id f is h, h x)

pub ids-change_at :
    (id : ℕ) (f : Instance → Instance) (is : List Instance)
    → ((i : Instance) → (f i).id ≡ i.id)
    → ids (change_at id f is) ≡ ids is
unfolding change_at
ids-change_at id f [] h = refl
ids-change_at id f (x ∷ is) h = ground (arith, ids-change_at id f is h, h x)

pub below-change_at :
    (n id : ℕ) (f : Instance → Instance) (is : List Instance)
    → ((i : Instance) → (f i).id ≡ i.id)
    → All (λ i. i.id < n) is
    → All (λ i. i.id < n) (change_at id f is)
unfolding change_at
below-change_at n id f [] h b = tt
below-change_at n id f (x ∷ is) h b = ground (arith, below-change_at n id f is h b.1, h x)
