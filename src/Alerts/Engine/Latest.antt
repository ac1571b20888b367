-- ===== src/Alerts/Engine/Latest.antt =====
-- backend/alerts/manager.py: which row the query of `trigger` finds, said without the query.

-- A row of the table.
use omnitrack_ai_platform.Prelude.{
  ℕ, ◌≤◌, ◌≡◌, refl, ◌≢◌, ◌⊎◌, inl, inr, true, false, none, some, List, [], ◌∷◌, arith, ◌==◌,
  Bool-cases, Option-cases, All,
}
use omnitrack_ai_platform.Alerts.Lifecycle.{
  Instance, State, triggered, acknowledged, suppressed, resolved, expired, existing, is_match,
  newer, is_active,
}

abbrev pub Has : Instance → List Instance → Type 0
Has i [] = ⊥
Has i (x ∷ xs) = (i ≡ x) ⊎ Has i xs

-- An alert of the rule under the key that is not over yet.
pub record IsOpen (rule key : ℕ) (i : Instance) : Type 0 where
  pub of_rule : i.rule_id ≡ rule
  pub of_key : i.dedup_key ≡ key
  pub open_state : (i.state ≡ triggered) ⊎ ((i.state ≡ acknowledged) ⊎ (i.state ≡ suppressed))

-- An alert of another rule or key, or one that is over.
abbrev pub IsClosed : ℕ → ℕ → Instance → Type 0
IsClosed rule key i =
    (i.rule_id ≢ rule) ⊎ ((i.dedup_key ≢ key) ⊎ ((i.state ≡ resolved) ⊎ (i.state ≡ expired)))

active-open :
    (s : State) → is_active s ≡ true → (s ≡ triggered) ⊎ ((s ≡ acknowledged) ⊎ (s ≡ suppressed))
active-open triggered h = inl refl
active-open acknowledged h = inr (inl refl)
active-open suppressed h = inr (inr refl)
active-open resolved h = absurd cc
active-open expired h = absurd cc

inactive-over : (s : State) → is_active s ≡ false → (s ≡ resolved) ⊎ (s ≡ expired)
inactive-over triggered h = absurd cc
inactive-over acknowledged h = absurd cc
inactive-over suppressed h = absurd cc
inactive-over resolved h = inl refl
inactive-over expired h = inr refl

is_match-IsOpen : (rule key : ℕ) (i : Instance) → is_match rule key i ≡ true → IsOpen rule key i
unfolding is_match
is_match-IsOpen rule key i h = record {
  of_rule = ground arith;
  of_key = ground arith;
  open_state = active-open i.state (ground arith);
}

is_match-IsClosed :
    (rule key : ℕ) (i : Instance) → is_match rule key i ≡ false → IsClosed rule key i
unfolding is_match
is_match-IsClosed rule key i h = elim (Bool-cases (i.rule_id == rule)) [
  | inr e ↦ inl (ground arith)
  | inl e ↦ elim (Bool-cases (i.dedup_key == key)) [
    | inr k ↦ inr (inl (ground arith))
    | inl k ↦ inr (inr (inactive-over i.state (ground arith)))
  ]
]

newer-either :
    (x j : Instance)
    → ((newer x (some j) ≡ x) × (j.triggered_at ≤ x.triggered_at))
      ⊎ ((newer x (some j) ≡ j) × (x.triggered_at ≤ j.triggered_at))
unfolding newer
newer-either x j = ground arith

-- What the query finds is the first row, where that one matches and none of the others is later, or
-- what it finds in the other rows.
record Found (rule key : ℕ) (x : Instance) (xs : List Instance) (i : Instance) : Type 0 where
  placed : ((i ≡ x) × (is_match rule key x ≡ true)) ⊎ ((existing rule key xs ≡ some i))

existing-Found :
    (rule key : ℕ) (x : Instance) (xs : List Instance) (i : Instance)
    → existing rule key (x ∷ xs) ≡ some i
    → Found rule key x xs i
unfolding existing newer
existing-Found rule key x xs i h = record {
  placed = ground (arith, Bool-cases (is_match rule key x));
}

pub existing-Has :
    (rule key : ℕ) (xs : List Instance) (i : Instance) → existing rule key xs ≡ some i → Has i xs
unfolding existing
existing-Has rule key [] i h = absurd cc
existing-Has rule key (x ∷ xs) i h = elim ((existing-Found rule key x xs i h).placed) [
  | inl (same, m) ↦ inl same
  | inr later ↦ inr (existing-Has rule key xs i later)
]

pub existing-IsOpen :
    (rule key : ℕ) (xs : List Instance) (i : Instance)
    → existing rule key xs ≡ some i
    → IsOpen rule key i
unfolding existing
existing-IsOpen rule key [] i h = absurd cc
existing-IsOpen rule key (x ∷ xs) i h = elim ((existing-Found rule key x xs i h).placed) [
  | inl (same, m) ↦ rw same (is_match-IsOpen rule key x m)
  | inr later ↦ existing-IsOpen rule key xs i later
]

existing-none :
    (rule key : ℕ) (xs : List Instance) (i : Instance)
    → existing rule key xs ≡ none
    → All (λ j. IsClosed rule key j ⊎ (j.triggered_at ≤ i.triggered_at)) xs
unfolding existing
existing-none rule key [] i h = tt
existing-none rule key (x ∷ xs) i h =
    (inl (is_match-IsClosed rule key x (ground arith)), existing-none rule key xs i (ground arith))

-- What is not later than one time is not later than a later time.
raised :
    (rule key : ℕ) (xs : List Instance) (i j : Instance)
    → i.triggered_at ≤ j.triggered_at
    → All (λ k. IsClosed rule key k ⊎ (k.triggered_at ≤ i.triggered_at)) xs
    → All (λ k. IsClosed rule key k ⊎ (k.triggered_at ≤ j.triggered_at)) xs
raised rule key [] i j le h = tt
raised rule key (x ∷ xs) i j le (here, rest) = (
  elim here [ inl over ↦ inl over | inr before ↦ inr (omega arith) ],
  raised rule key xs i j le rest,
)

existing-match :
    (rule key : ℕ) (x : Instance) (xs : List Instance)
    → is_match rule key x ≡ true
    → existing rule key (x ∷ xs) ≡ some (newer x (existing rule key xs))
unfolding existing
existing-match rule key x xs m = ground (arith, m)

pub existing-latest :
    (rule key : ℕ) (xs : List Instance) (i : Instance)
    → existing rule key xs ≡ some i
    → All (λ j. IsClosed rule key j ⊎ (j.triggered_at ≤ i.triggered_at)) xs
unfolding existing newer
existing-latest rule key [] i h = tt
existing-latest rule key (x ∷ xs) i h = elim (Bool-cases (is_match rule key x)) [
  | inr other ↦ (
    inl (is_match-IsClosed rule key x other),
    existing-latest rule key xs i (ground (arith, other)),
  )
  | inl m ↦ elim (Option-cases (existing rule key xs)) [
    | inl nothing ↦
        let same : some x ≡ some i = ground (arith, m, nothing) in
        let at : x.triggered_at ≡ i.triggered_at = cc in
        (inr (omega arith), existing-none rule key xs i nothing)
    | inr (j, found) ↦
        let same : some (newer x (some j)) ≡ some i =
          ground (arith, existing-match rule key x xs m, found) in
        let rest = existing-latest rule key xs j found in
        elim (newer-either x j) [
          | inl (e, le) ↦
              let at : x.triggered_at ≡ i.triggered_at = cc in
              (inr (omega arith), raised rule key xs j i (omega arith) rest)
          | inr (e, le) ↦
              let at : j.triggered_at ≡ i.triggered_at = cc in
              (inr (omega arith), raised rule key xs j i (omega arith) rest)
        ]
  ]
]
