-- ===== src/Alerts/Rules.antt =====
-- backend/alerts/rules.py: conditions of rules against an analytics snapshot and an event. Names are
-- numbers, a missing or empty name is `none`; floats are numbers. A value is the difference of
-- two counts, since an occupancy may be below 0; a missing threshold is 0.
use omnitrack_ai_platform.Prelude.{
  ℕ, ◌+◌, Bool, true, false, not, ◌&&◌, ◌||◌, Option, none, some, List, [], ◌∷◌, map, ltb, leb,
  ◌==◌, if◌then◌else◌, is_some, keep,
}
use omnitrack_ai_platform.Prelude.Dict.{Dict, lookup}
pub mod Totals

pub data Operator : Type 0 where
  gte gt lte lt eq ne unknown_operator : Operator

-- `plus - minus`.
pub record Value : Type 0 where
  pub plus : ℕ
  pub minus : ℕ

unfoldable pub compare_to : ℕ → Operator → ℕ → Bool
compare_to value gte threshold = leb threshold value
compare_to value gt threshold = ltb threshold value
compare_to value lte threshold = leb value threshold
compare_to value lt threshold = ltb value threshold
compare_to value eq threshold = value == threshold
compare_to value ne threshold = not (value == threshold)
compare_to value unknown_operator threshold = false

-- `compare`, with what is subtracted moved to the other side.
unfoldable pub compare_value : Value → Operator → ℕ → Bool
unfolding compare_to
compare_value v op threshold = compare_to v.plus op (threshold + v.minus)

pub record Zone : Type 0 where
  pub entries : ℕ
  pub exits : ℕ
  pub zone_dwell_seconds : ℕ

pub record Line : Type 0 where
  pub positive : ℕ
  pub negative : ℕ

pub record Snapshot : Type 0 where
  pub object_counts : Dict ℕ
  pub zone_occupancy : Dict Zone
  pub line_crossings : Dict Line
  pub dwell_time_total_seconds : ℕ

pub record Event : Type 0 where
  pub event_type : ℕ
  pub class_of : Option ℕ
  pub seconds : Option ℕ

unfoldable pub sum_counts : Dict ℕ → ℕ
sum_counts [] = 0
sum_counts ((k, n) ∷ m) = n + sum_counts m

unfoldable pub object_count : Snapshot → Option ℕ → Value
unfolding lookup sum_counts
object_count s none = record { plus = sum_counts s.object_counts; minus = 0 }
object_count s (some name) = elim (lookup name s.object_counts) [
  | none ↦ record { plus = 0; minus = 0 }
  | some n ↦ record { plus = n; minus = 0 }
]

unfoldable pub sum_zones : Dict Zone → Value
sum_zones [] = record { plus = 0; minus = 0 }
sum_zones ((k, z) ∷ m) =
    let rest = sum_zones m in record { plus = z.entries + rest.plus; minus = z.exits + rest.minus }

unfoldable pub zone_occupancy_of : Snapshot → Option ℕ → Value
unfolding lookup sum_zones
zone_occupancy_of s none = sum_zones s.zone_occupancy
zone_occupancy_of s (some name) = elim (lookup name s.zone_occupancy) [
  | none ↦ record { plus = 0; minus = 0 }
  | some z ↦ record { plus = z.entries; minus = z.exits }
]

unfoldable pub zone_dwell : Snapshot → Option ℕ → ℕ
unfolding lookup
zone_dwell s none = s.dwell_time_total_seconds
zone_dwell s (some name) = elim (lookup name s.zone_occupancy) [
  | none ↦ 0
  | some z ↦ z.zone_dwell_seconds
]

unfoldable pub dwell_seconds : Snapshot → Option ℕ → Option Event → Value
unfolding zone_dwell
dwell_seconds s zone none = record { plus = zone_dwell s zone; minus = 0 }
dwell_seconds s zone (some e) = elim e.seconds [
  | none ↦ record { plus = zone_dwell s zone; minus = 0 }
  | some n ↦ record { plus = n; minus = 0 }
]

unfoldable pub sum_lines : Dict Line → ℕ
sum_lines [] = 0
sum_lines ((k, l) ∷ m) = l.positive + l.negative + sum_lines m

unfoldable pub line_crossings_of : Snapshot → Option ℕ → Value
unfolding lookup sum_lines
line_crossings_of s none = record { plus = sum_lines s.line_crossings; minus = 0 }
line_crossings_of s (some name) = elim (lookup name s.line_crossings) [
  | none ↦ record { plus = 0; minus = 0 }
  | some l ↦ record { plus = l.positive + l.negative; minus = 0 }
]

pub data ConditionType : Type 0 where
  object_count_threshold zone_occupancy_threshold dwell_time_threshold : ConditionType
  line_crossing_threshold event_type_match class_specific unknown_type : ConditionType

pub record Condition : Type 0 where
  pub ctype : ConditionType
  pub operator : Operator
  pub threshold : Option ℕ
  pub class_name : Option ℕ
  pub zone_name : Option ℕ
  pub line_name : Option ℕ
  pub expected_type : Option ℕ

abbrev pub threshold_of : Condition → ℕ
threshold_of c = elim c.threshold [ none ↦ 0 | some n ↦ n ]

-- The equality of two optional names; two missing ones are equal.
abbrev pub same_name : Option ℕ → Option ℕ → Bool
same_name none none = true
same_name (some a) (some b) = a == b
same_name other name = false

unfoldable pub class_matches : Condition → Snapshot → Option Event → Bool
unfolding object_count compare_value
class_matches c s (some e) = same_name e.class_of c.class_name
class_matches c s none =
    if is_some c.threshold
    then compare_value (object_count s c.class_name) c.operator (threshold_of c)
    else same_name none c.class_name

unfoldable pub type_matches : Condition → Option Event → Bool
type_matches c none = false
type_matches c (some e) = same_name (some e.event_type) c.expected_type

-- `evaluate_condition`, the first component of its result.
unfoldable pub evaluate_condition : Condition → Snapshot → Option Event → Bool
unfolding compare_value object_count zone_occupancy_of dwell_seconds line_crossings_of type_matches
    class_matches
evaluate_condition c s event = elim c.ctype [
  | object_count_threshold ↦ compare_value (object_count s c.class_name) c.operator (threshold_of c)
  | zone_occupancy_threshold ↦
      compare_value (zone_occupancy_of s c.zone_name) c.operator (threshold_of c)
  | dwell_time_threshold ↦
      compare_value (dwell_seconds s c.zone_name event) c.operator (threshold_of c)
  | line_crossing_threshold ↦
      compare_value (line_crossings_of s c.line_name) c.operator (threshold_of c)
  | event_type_match ↦ type_matches c event
  | class_specific ↦ class_matches c s event
  | unknown_type ↦ false
]

unfoldable pub any : List Bool → Bool
any [] = false
any (b ∷ bs) = b || any bs

unfoldable pub all : List Bool → Bool
all [] = true
all (b ∷ bs) = b && all bs

-- `(logic or "AND").upper()`: whether it is "OR".
pub data RuleLogic : Type 0 where
  is_or is_and : RuleLogic

pub record RuleResult : Type 0 where
  pub matched : Bool
  pub matched_conditions : List Condition

-- `evaluate_rule`, less the computed values.
unfoldable pub evaluate_rule : List Condition → RuleLogic → Snapshot → Option Event → RuleResult
unfolding evaluate_condition any all
evaluate_rule [] logic s event = record { matched = false; matched_conditions = [] }
evaluate_rule (c ∷ cs) logic s event =
    let results = map (λ d. evaluate_condition d s event) (c ∷ cs) in
    record {
      matched = elim logic [ is_or ↦ any results | is_and ↦ all results ];
      matched_conditions = keep (λ d. evaluate_condition d s event) (c ∷ cs);
    }
