-- ===== src/Alerts/Rules/Totals.antt =====
-- backend/alerts/rules.py: the conditions that name no zone or line, against the named ones.

-- The sum of a count over names.
use omnitrack_ai_platform.Prelude.{
  ℕ, ◌+◌, ◌≤◌, ◌<◌, ◌≡◌, refl, ◌↔◌, true, false, Option, none, some, List, [], ◌∷◌, arith, mem,
}
use omnitrack_ai_platform.Prelude.Dict.{Dict, lookup, keys, HasOnce}
use omnitrack_ai_platform.Alerts.Rules.{
  Condition, Event, Snapshot, Zone, compare_to, compare_value, evaluate_condition,
  zone_occupancy_of, zone_occupancy_threshold, line_crossings_of, line_crossing_threshold,
  sum_zones, sum_lines, threshold_of, Line, gte, lt,
}

unfoldable pub sum_over : (ℕ → ℕ) → List ℕ → ℕ
sum_over f [] = 0
sum_over f (k ∷ ks) = f k + sum_over f ks

module _ {A : Type 0} (f : A → ℕ) where
  -- The count of the entry under a name.
  abbrev pub count_under : Dict A → ℕ → ℕ
  count_under m k = elim (lookup k m) [ none ↦ 0 | some z ↦ f z ]

  unfoldable total : Dict A → ℕ
  total [] = 0
  total ((k, z) ∷ m) = f z + total m

  sum_over-absent :
      (a : ℕ) (z : A) (m : Dict A) (ks : List ℕ)
      → mem a ks ≡ false
      → sum_over (count_under ((a, z) ∷ m)) ks ≡ sum_over (count_under m) ks
  unfolding sum_over lookup mem
  sum_over-absent a z m [] h = refl
  sum_over-absent a z m (k ∷ ks) h = ground (arith, sum_over-absent a z m ks)

  total-sum_over : (m : Dict A) → HasOnce (keys m) → sum_over (count_under m) (keys m) ≡ total m
  unfolding sum_over total lookup
  total-sum_over [] h = refl
  total-sum_over ((k, z) ∷ m) h =
      ground (arith, sum_over-absent k z m (keys m) h.0, total-sum_over m h.1)

plus-sum_zones : (m : Dict Zone) → (sum_zones m).plus ≡ total (λ z. z.entries) m
unfolding sum_zones total
plus-sum_zones [] = refl
plus-sum_zones ((k, z) ∷ m) = omega (arith, plus-sum_zones m)

minus-sum_zones : (m : Dict Zone) → (sum_zones m).minus ≡ total (λ z. z.exits) m
unfolding sum_zones total
minus-sum_zones [] = refl
minus-sum_zones ((k, z) ∷ m) = omega (arith, minus-sum_zones m)

sum_lines-total : (m : Dict Line) → sum_lines m ≡ total (λ l. l.positive + l.negative) m
unfolding sum_lines total
sum_lines-total [] = refl
sum_lines-total ((k, l) ∷ m) = omega (arith, sum_lines-total m)

-- A condition without a zone asks for the zones together, and one without a line for the lines: at
-- least a threshold of occupants is met exactly when the entries of all named zones are no fewer than
-- the threshold with all their exits, fewer than it exactly when they are fewer, and at least a
-- threshold of crossings exactly when the crossings of all named lines, either way, are as many. Each
-- name stands once in the snapshot.
pub unnamed_totals :
    (c : Condition) (s : Snapshot) (event : Option Event)
    → HasOnce (keys s.zone_occupancy)
    → HasOnce (keys s.line_crossings)
    → let zones = keys s.zone_occupancy in
      let entries = sum_over (count_under (λ z. z.entries) s.zone_occupancy) zones in
      let exits = sum_over (count_under (λ z. z.exits) s.zone_occupancy) zones in
      let crossings =
        sum_over
          (count_under (λ l. l.positive + l.negative) s.line_crossings)
          (keys s.line_crossings) in
      let occupants : Condition = record c {
        ctype = zone_occupancy_threshold;
        zone_name = none;
        operator = gte;
      } in
      let crossed : Condition = record c {
        ctype = line_crossing_threshold;
        line_name = none;
        operator = gte;
      } in
      ((evaluate_condition occupants s event ≡ true) ↔ (threshold_of c + exits ≤ entries))
      × ((evaluate_condition (record occupants { operator = lt }) s event ≡ true)
          ↔ (entries < threshold_of c + exits))
      × ((evaluate_condition crossed s event ≡ true) ↔ (threshold_of c ≤ crossings))
unfolding evaluate_condition compare_value compare_to zone_occupancy_of line_crossings_of
unnamed_totals c s event zones_once lines_once =
    let entered = total-sum_over (λ z. z.entries) s.zone_occupancy zones_once in
    let exited = total-sum_over (λ z. z.exits) s.zone_occupancy zones_once in
    let crossed = total-sum_over (λ l. l.positive + l.negative) s.line_crossings lines_once in
    let plus = plus-sum_zones s.zone_occupancy in
    let minus = minus-sum_zones s.zone_occupancy in
    let lines = sum_lines-total s.line_crossings in
    (
      ground (arith, entered, exited, plus, minus),
      ground (arith, entered, exited, plus, minus),
      ground (arith, crossed, lines),
    )
