-- ===== src/Analytics/Totals.antt =====
-- backend/analytics/aggregator.py: what is counted and what is stored over a run.

-- What comes after the rows of the classes are made and before the counters are reset is lost.
use omnitrack_ai_platform.Prelude.{ℕ, ◌+◌, [], map, arith}
use omnitrack_ai_platform.Analytics.Flush.{
  Meanwhile, Tables, add_lines, add_summaries, add_zones, before_reset, clear_counts, clear_stats,
  flush, handle_all, reset, summary_row, zone_row,
}
use omnitrack_ai_platform.Analytics.Conservation.{Measure, gains, handle_all-adds}
use omnitrack_ai_platform.Analytics.Counts.{
  appeared, appeared-adds, entered, entered-adds, sum_summaries, sum_summaries-append,
  sum_summaries-map, sum_under, sum_zone_rows, sum_zone_rows-append, sum_zone_rows-map,
}

abbrev pub missed_objects : ℕ → Meanwhile → ℕ
missed_objects c w =
    gains (appeared c) w.after_summaries
    + gains (appeared c) w.after_zones
    + gains (appeared c) w.after_lines

-- Likewise for the zones, whose rows are made later and whose counters are reset later.
abbrev pub missed_entries : ℕ → Meanwhile → ℕ
missed_entries c w =
    gains (entered c) w.after_zones + gains (entered c) w.after_lines + gains (entered c) w.in_reset

objects : ℕ → Measure
unfolding flush reset clear_counts clear_stats add_summaries add_zones add_lines before_reset
    sum_under
objects c = record {
  in_window = λ a. sum_under (λ n. n) c a.object_counts;
  in_tables = λ db. sum_summaries c db.summaries;
  gain = appeared c;
  lost = missed_objects c;
  adds = appeared-adds c;
  commits = λ stream now w a db.
      let cleared = clear_counts now (before_reset w a) in
      omega (
        arith,
        sum_summaries-append c db.summaries (map (summary_row stream now a) a.object_counts),
        sum_summaries-map c stream now a a.object_counts,
        handle_all-adds (λ x. sum_under (λ n. n) c x.object_counts) (appeared c) (appeared-adds c)
            w.in_reset cleared,
      );
}

zone_entries : ℕ → Measure
unfolding flush reset clear_counts clear_stats add_summaries add_zones add_lines before_reset
    sum_under
zone_entries c = record {
  in_window = λ a. sum_under (λ z. z.entries) c a.zone_stats;
  in_tables = λ db. sum_zone_rows c db.zones;
  gain = entered c;
  lost = missed_entries c;
  adds = entered-adds c;
  commits = λ stream now w a db.
      let seen = handle_all w.after_summaries a in
      omega (
        arith,
        sum_zone_rows-append c db.zones (map (zone_row stream now seen) seen.zone_stats),
        sum_zone_rows-map c stream now seen seen.zone_stats,
        handle_all-adds (λ x. sum_under (λ z. z.entries) c x.zone_stats) (entered c)
            (entered-adds c) w.after_summaries a,
      );
}

-- The tables before the first flush.
abbrev pub no_tables : Tables
no_tables = record { summaries = []; zones = []; lines = [] }
