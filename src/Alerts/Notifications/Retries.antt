-- ===== src/Alerts/Notifications/Retries.antt =====
-- The retries of backend/alerts/notifications.py.

-- The failures before the first success among the `n` attempts after `a`, if there is one.
use omnitrack_ai_platform.Prelude.{
  ℕ, zero, suc, ◌+◌, ◌-◌, ◌≡◌, refl, sym, ap, ◌∙◌, inl, inr, true, false, Option, none, some, List,
  [], ◌∷◌, ◌++◌, arith, leb, if◌then◌else◌, Bool-cases, Option-cases,
}
use omnitrack_ai_platform.Alerts.Notifications.{Dispatcher}
use omnitrack_ai_platform.Alerts.Notifications.{Attempt, failed, retrying, rounds, success}
use omnitrack_ai_platform.Alerts.Notifications.{dispatch_one}

unfoldable pub failures_before : Dispatcher → ℕ → ℕ → ℕ → Option ℕ
failures_before d p a zero = none
failures_before d p a (suc n) =
    let rest = failures_before d p (a + 1) n in
    if d.sends p (a + 1) then some 0 else (elim rest [ none ↦ none | some j ↦ some (suc j) ])

-- The rows of `n` failures after `a` attempts.
unfoldable pub retried : ℕ → ℕ → ℕ → List Attempt
retried p a zero = []
retried p a (suc n) =
    record { provider = p; status = retrying; attempt_number = a + 1 } ∷ retried p (a + 1) n

abbrev pub report : Dispatcher → ℕ → ℕ → ℕ → Option ℕ → List Attempt
report d p a fuel (some j) =
    retried p a j ++ record { provider = p; status = success; attempt_number = a + j + 1 } ∷ []
report d p a fuel none =
    retried p a (fuel - 1)
    ++ record { provider = p; status = failed; attempt_number = a + fuel } ∷ []

abbrev shifted : Option ℕ → Option ℕ
shifted none = none
shifted (some j) = some (suc j)

rounds_good :
    (d : Dispatcher) (p fuel a : ℕ)
    → d.sends p (a + 1) ≡ true
    → rounds d p (suc fuel) a ≡ report d p a (suc fuel) (failures_before d p a (suc fuel))
unfolding rounds failures_before retried
rounds_good d p fuel a good = let e : a + 0 + 1 ≡ a + 1 = omega arith in rw (good, e) refl

rounds_last :
    (d : Dispatcher) (p a : ℕ)
    → d.sends p (a + 1) ≡ false
    → leb (a + 1) d.max_retries ≡ false
    → rounds d p 1 a ≡ report d p a 1 (failures_before d p a 1)
unfolding rounds failures_before retried
rounds_last d p a bad last = let e : 1 - 1 ≡ 0 = omega arith in rw (bad, last) refl

rounds_retry :
    (d : Dispatcher) (p fuel a : ℕ)
    → d.sends p (a + 1) ≡ false
    → leb (a + 1) d.max_retries ≡ true
    → rounds d p (suc fuel) a
      ≡ record { provider = p; status = retrying; attempt_number = a + 1 } ∷ rounds d p fuel (a + 1)
unfolding rounds
rounds_retry d p fuel a bad more = rw (bad, more) refl

failures_before_bad :
    (d : Dispatcher) (p a n : ℕ)
    → d.sends p (a + 1) ≡ false
    → failures_before d p a (suc n) ≡ shifted (failures_before d p (a + 1) n)
unfolding failures_before
failures_before_bad d p a n bad = elim (Option-cases (failures_before d p (a + 1) n)) [
  | inl e ↦ rw (bad, e) refl
  | inr (j, e) ↦ rw (bad, e) refl
]

report-shifted :
    (d : Dispatcher) (p a fuel : ℕ) (o : Option ℕ)
    → record { provider = p; status = retrying; attempt_number = a + 1 }
        ∷ report d p (a + 1) (suc fuel) o
      ≡ report d p a (suc (suc fuel)) (shifted o)
unfolding retried
report-shifted d p a fuel (some j) =
    let e : a + suc j + 1 ≡ a + 1 + j + 1 = omega arith in rw e refl
report-shifted d p a fuel none =
    let e : suc (suc fuel) - 1 ≡ suc fuel = omega arith in
    let f : suc fuel - 1 ≡ fuel = omega arith in
    let g : a + suc (suc fuel) ≡ a + 1 + suc fuel = omega arith in rw (e, f, g) refl

rounds-report :
    (d : Dispatcher) (p fuel a : ℕ)
    → a + suc fuel ≡ d.max_retries + 1
    → rounds d p (suc fuel) a ≡ report d p a (suc fuel) (failures_before d p a (suc fuel))
rounds-report d p zero a h = elim (Bool-cases (d.sends p (a + 1))) [
  | inl good ↦ rounds_good d p 0 a good
  | inr bad ↦ rounds_last d p a bad (ground arith)
]
rounds-report d p (suc fuel) a h = elim (Bool-cases (d.sends p (a + 1))) [
  | inl good ↦ rounds_good d p (suc fuel) a good
  | inr bad ↦
      rounds_retry d p (suc fuel) a bad (ground arith)
      ∙ ap (◌∷◌ (record { provider = p; status = retrying; attempt_number = a + 1 }))
          (rounds-report d p fuel (a + 1) (omega arith))
      ∙ report-shifted d p a fuel (failures_before d p (a + 1) (suc fuel))
      ∙ ap (report d p a (suc (suc fuel))) (sym (failures_before_bad d p a (suc fuel) bad))
]

-- A provider is tried at most `max_retries + 1` times: up to the first attempt that succeeds, with
-- the failures before it recorded as retries and that attempt as the success; or, where all those
-- attempts fail, with the last one recorded as the failure and the others as retries. The loop
-- always ends with one of the two.
pub dispatch_one-report :
    (d : Dispatcher) (p : ℕ)
    → dispatch_one d p
      ≡ report d p 0 (d.max_retries + 1) (failures_before d p 0 (d.max_retries + 1))
unfolding dispatch_one
dispatch_one-report d p =
    let e : d.max_retries + 1 ≡ suc d.max_retries = omega arith in
    rw e (rounds-report d p d.max_retries 0 (omega arith))
