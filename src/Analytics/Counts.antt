-- ===== src/Analytics/Counts.antt =====
-- The quantities of backend/analytics/aggregator.py that reach the tables: the objects of a class and
-- the entries of a zone.

-- A number under a name.
use omnitrack_ai_platform.Prelude.{
  ℕ, ◌+◌, ◌-◌, ◌≡◌, refl, ap, inl, inr, Option, none, some, List, [], ◌∷◌, ◌++◌, map, arith, ◌==◌,
  if◌then◌else◌, Option-cases,
}
use omnitrack_ai_platform.Prelude.Dict.{Dict, lookup, insert}
use omnitrack_ai_platform.Events.{
  EventType, object_appeared, object_disappeared, object_entered, object_exited, crossing_direction,
  dwell_time, stationary_object, near_collision, EventRecord,
}
use omnitrack_ai_platform.Analytics.Flush.{SummaryRow, ZoneRow, summary_row, zone_row}
use omnitrack_ai_platform.Analytics.{StreamAgg, ZoneStats, bump, change_zone, no_stats}
use omnitrack_ai_platform.Analytics.{
  count_in, handle, handle_event, kind_of, on_appeared, on_crossing, on_disappeared, on_dwell,
  on_entered, on_exited, or_default, or_unknown, unknown,
}
use omnitrack_ai_platform.Analytics.{inside}

abbrev pub under : ℕ → ℕ → ℕ → ℕ
under c name n = if c == name then n else 0

unfoldable pub sum_under : {V : Type 0} → (V → ℕ) → ℕ → List (ℕ × V) → ℕ
sum_under f c [] = 0
sum_under f c ((name, v) ∷ m) = under c name (f v) + sum_under f c m

unfoldable pub sum_summaries : ℕ → List SummaryRow → ℕ
sum_summaries c [] = 0
sum_summaries c (row ∷ rows) = under c row.class_name row.object_count + sum_summaries c rows

unfoldable pub sum_zone_rows : ℕ → List ZoneRow → ℕ
sum_zone_rows c [] = 0
sum_zone_rows c (row ∷ rows) = under c row.zone_name row.entry_count + sum_zone_rows c rows

pub sum_summaries-append :
    (c : ℕ) (xs ys : List SummaryRow)
    → sum_summaries c (xs ++ ys) ≡ sum_summaries c xs + sum_summaries c ys
unfolding sum_summaries
sum_summaries-append c [] ys = omega arith
sum_summaries-append c (x ∷ xs) ys = omega (arith, sum_summaries-append c xs ys)

pub sum_zone_rows-append :
    (c : ℕ) (xs ys : List ZoneRow)
    → sum_zone_rows c (xs ++ ys) ≡ sum_zone_rows c xs + sum_zone_rows c ys
unfolding sum_zone_rows
sum_zone_rows-append c [] ys = omega arith
sum_zone_rows-append c (x ∷ xs) ys = omega (arith, sum_zone_rows-append c xs ys)

pub sum_summaries-map :
    (c stream now : ℕ) (a : StreamAgg) (m : Dict ℕ)
    → sum_summaries c (map (summary_row stream now a) m) ≡ sum_under (λ n. n) c m
unfolding sum_summaries sum_under summary_row
sum_summaries-map c stream now a [] = refl
sum_summaries-map c stream now a ((name, n) ∷ m) =
    ap (λ k. under c name n + k) (sum_summaries-map c stream now a m)

pub sum_zone_rows-map :
    (c stream now : ℕ) (a : StreamAgg) (m : Dict ZoneStats)
    → sum_zone_rows c (map (zone_row stream now a) m) ≡ sum_under (λ z. z.entries) c m
unfolding sum_zone_rows sum_under zone_row
sum_zone_rows-map c stream now a [] = refl
sum_zone_rows-map c stream now a ((name, z) ∷ m) =
    ap (λ k. under c name z.entries + k) (sum_zone_rows-map c stream now a m)

-- What an entry held before.
abbrev held : {V : Type 0} → (V → ℕ) → Option V → ℕ
held f none = 0
held f (some v) = f v

sum_under-insert :
    {V : Type 0} (f : V → ℕ) (c name : ℕ) (w : V) (m : List (ℕ × V))
    → sum_under f c (insert name w m) + under c name (held f (lookup name m))
      ≡ sum_under f c m + under c name (f w)
unfolding sum_under insert lookup
sum_under-insert f c name w [] = ground arith
sum_under-insert f c name w ((k, v) ∷ m) = ground (arith, sum_under-insert f c name w m)

sum_under-bump :
    (c name : ℕ) (m : Dict ℕ)
    → sum_under (λ n. n) c (bump name m) ≡ sum_under (λ n. n) c m + under c name 1
unfolding bump
sum_under-bump c name m = ground (arith, sum_under-insert (λ n. n) c name (count_in name m + 1) m)

sum_under-change_zone :
    (c name d : ℕ) (f : ZoneStats → ZoneStats) (m : Dict ZoneStats)
    → ((z : ZoneStats) → (f z).entries ≡ z.entries + d)
    → sum_under (λ z. z.entries) c (change_zone name f m)
      ≡ sum_under (λ z. z.entries) c m + under c name d
unfolding change_zone
sum_under-change_zone c name d f m h = elim (Option-cases (lookup name m)) [
  | inl e ↦
      rw (e, change_zone)
        (ground (arith, sum_under-insert (λ z. z.entries) c name (f no_stats) m, h no_stats, e))
  | inr (z, e) ↦
      rw (e, change_zone) (ground (arith, sum_under-insert (λ z. z.entries) c name (f z) m, h z, e))
]

-- The objects that the record of a class brings.
unfoldable pub appeared : ℕ → EventRecord → ℕ
unfolding kind_of
appeared c r = elim (kind_of r.type_name) [
  | some object_appeared ↦ under c (or_unknown r.class_of) 1
  | _ ↦ 0
]

-- The entry of a known track into a zone.
unfoldable pub entered : ℕ → EventRecord → ℕ
unfolding kind_of
entered c r = elim (kind_of r.type_name) [
  | some object_entered ↦ elim r.track [
    | none ↦ 0
    | some t ↦ under c (or_default r.details.zone_name unknown) 1
  ]
  | _ ↦ 0
]

pub appeared-adds :
    (c : ℕ) (a : StreamAgg) (r : EventRecord)
    → sum_under (λ n. n) c (handle_event a r).object_counts
      ≡ sum_under (λ n. n) c a.object_counts + appeared c r
unfolding handle_event appeared handle on_appeared on_disappeared on_entered on_exited on_crossing
    on_dwell
appeared-adds c a r = by_kind (kind_of r.type_name)
  where
    by_kind :
        (k : Option EventType)
        → sum_under (λ n. n) c (handle k a r).object_counts
          ≡ sum_under (λ n. n) c a.object_counts + (elim k as (λ x. ℕ) [
            | some object_appeared ↦ under c (or_unknown r.class_of) 1
            | _ ↦ 0
          ])
    by_kind none = omega arith
    by_kind (some object_appeared) = sum_under-bump c (or_unknown r.class_of) a.object_counts
    by_kind (some object_disappeared) = omega arith
    by_kind (some object_entered) =
        elim r.track
          as (λ x.
            sum_under (λ n. n) c
              (handle (some object_entered) a (record r { track = x })).object_counts
            ≡ sum_under (λ n. n) c a.object_counts + 0) [
              | none ↦ omega arith
              | some t ↦ omega arith
            ]
    by_kind (some object_exited) =
        elim r.track
          as (λ x.
            sum_under (λ n. n) c
              (handle (some object_exited) a (record r { track = x })).object_counts
            ≡ sum_under (λ n. n) c a.object_counts + 0) [
              | none ↦ omega arith
              | some t ↦ omega arith
            ]
    by_kind (some crossing_direction) = omega arith
    by_kind (some dwell_time) = omega arith
    by_kind (some stationary_object) = omega arith
    by_kind (some near_collision) = omega arith

pub entered-adds :
    (c : ℕ) (a : StreamAgg) (r : EventRecord)
    → sum_under (λ z. z.entries) c (handle_event a r).zone_stats
      ≡ sum_under (λ z. z.entries) c a.zone_stats + entered c r
unfolding handle_event entered handle on_appeared on_disappeared on_entered on_exited on_crossing
    on_dwell
entered-adds c a r = by_kind (kind_of r.type_name)
  where
    zone : ℕ
    zone = or_default r.details.zone_name unknown

    count : ℕ
    count = sum_under (λ z. z.entries) c a.zone_stats

    same :
        (f : ZoneStats → ZoneStats)
        → ((z : ZoneStats) → (f z).entries ≡ z.entries)
        → sum_under (λ z. z.entries) c (change_zone zone f a.zone_stats) ≡ count + 0
    same f h =
        ground (arith, sum_under-change_zone c zone 0 f a.zone_stats (λ z. omega (arith, h z)))

    by_kind :
        (k : Option EventType)
        → sum_under (λ z. z.entries) c (handle k a r).zone_stats
          ≡ count + (elim k as (λ x. ℕ) [
            | some object_entered ↦ elim r.track as (λ x. ℕ) [ none ↦ 0 | some t ↦ under c zone 1 ]
            | _ ↦ 0
          ])
    by_kind none = omega arith
    by_kind (some object_appeared) = omega arith
    by_kind (some object_disappeared) = omega arith
    by_kind (some object_entered) =
        elim r.track
          as (λ x.
            sum_under (λ z. z.entries) c
              (handle (some object_entered) a (record r { track = x })).zone_stats
            ≡ count + (elim x as (λ x. ℕ) [ none ↦ 0 | some t ↦ under c zone 1 ])) [
              | none ↦ omega arith
              | some t ↦
                  sum_under-change_zone c zone 1 (λ z. record z { entries = z.entries + 1 })
                    a.zone_stats (λ z. refl)
            ]
    by_kind (some object_exited) =
        elim r.track
          as (λ x.
            sum_under (λ z. z.entries) c
              (handle (some object_exited) a (record r { track = x })).zone_stats
            ≡ count + 0) [
              | none ↦ omega arith
              | some t ↦
                  same
                    (λ z. record z {
                      exits = z.exits + 1;
                      occupancy_seconds =
                          z.occupancy_seconds
                          + (r.at - or_default (lookup t (inside zone a.zone_tracks)) r.at);
                    })
                    (λ z. refl)
            ]
    by_kind (some crossing_direction) = omega arith
    by_kind (some dwell_time) =
        same (λ z. record z { dwell_seconds = z.dwell_seconds + or_default r.details.seconds 0 })
          (λ z. refl)
    by_kind (some stationary_object) = omega arith
    by_kind (some near_collision) = omega arith
