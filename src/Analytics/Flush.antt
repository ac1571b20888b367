-- ===== src/Analytics/Flush.antt =====
-- backend/analytics/aggregator.py, _StreamAgg.flush: the window's counters become rows of three
-- tables (backend/analytics/models.py). A commit may fail, and so may the opening of a session.
use omnitrack_ai_platform.Prelude.{ℕ, ◌+◌, List, [], ◌∷◌, ◌++◌, map, length}
use omnitrack_ai_platform.Prelude.Dict.{Dict}
use omnitrack_ai_platform.Events.{EventRecord}
use omnitrack_ai_platform.Analytics.{LineStats, StreamAgg, ZoneStats, handle_event}

pub record SummaryRow : Type 0 where
  pub stream_id : ℕ
  pub class_name : ℕ
  pub time_window_start : ℕ
  pub time_window_end : ℕ
  pub object_count : ℕ
  pub unique_tracks : ℕ
  pub zone_entry_count : ℕ
  pub zone_exit_count : ℕ
  pub zone_occupancy_seconds : ℕ
  pub dwell_time_total_seconds : ℕ
  pub stationary_events : ℕ
  pub near_collision_events : ℕ

pub record ZoneRow : Type 0 where
  pub stream_id : ℕ
  pub zone_name : ℕ
  pub time_window_start : ℕ
  pub time_window_end : ℕ
  pub entry_count : ℕ
  pub exit_count : ℕ
  pub unique_tracks : ℕ
  pub total_occupancy_seconds : ℕ

pub record LineRow : Type 0 where
  pub stream_id : ℕ
  pub line_name : ℕ
  pub time_window_start : ℕ
  pub time_window_end : ℕ
  pub positive_count : ℕ
  pub negative_count : ℕ
  pub unique_tracks : ℕ

pub record Tables : Type 0 where
  pub summaries : List SummaryRow
  pub zones : List ZoneRow
  pub lines : List LineRow

-- How a flush ends: no session is opened; making the rows raises (a record with a new name changes a
-- dictionary that is being read) or the commit does; or the rows are committed.
pub data Outcome : Type 0 where
  no_session failed committed : Outcome

-- `sum(z[field] for z in self._zone_stats.values())`.
unfoldable pub sum_zones : (ZoneStats → ℕ) → Dict ZoneStats → ℕ
sum_zones f [] = 0
sum_zones f ((name, z) ∷ m) = f z + sum_zones f m

unfoldable pub summary_row : ℕ → ℕ → StreamAgg → ℕ × ℕ → SummaryRow
unfolding sum_zones
summary_row stream now a (name, count) = record {
  stream_id = stream;
  class_name = name;
  time_window_start = a.window_start;
  time_window_end = now;
  object_count = count;
  unique_tracks = length a.tracks;
  zone_entry_count = sum_zones (λ z. z.entries) a.zone_stats;
  zone_exit_count = sum_zones (λ z. z.exits) a.zone_stats;
  zone_occupancy_seconds = sum_zones (λ z. z.occupancy_seconds) a.zone_stats;
  dwell_time_total_seconds = a.dwell_time_total;
  stationary_events = a.stationary_count;
  near_collision_events = a.near_collision_count;
}

unfoldable pub zone_row : ℕ → ℕ → StreamAgg → ℕ × ZoneStats → ZoneRow
zone_row stream now a (name, z) = record {
  stream_id = stream;
  zone_name = name;
  time_window_start = a.window_start;
  time_window_end = now;
  entry_count = z.entries;
  exit_count = z.exits;
  unique_tracks = length z.unique_tracks;
  total_occupancy_seconds = z.occupancy_seconds;
}

unfoldable pub line_row : ℕ → ℕ → StreamAgg → ℕ × LineStats → LineRow
line_row stream now a (name, l) = record {
  stream_id = stream;
  line_name = name;
  time_window_start = a.window_start;
  time_window_end = now;
  positive_count = l.positive;
  negative_count = l.negative;
  unique_tracks = length l.line_tracks;
}

-- The loops over the counters of classes, of zones and of lines, each adding its rows.
unfoldable pub add_summaries : ℕ → ℕ → StreamAgg → Tables → Tables
unfolding summary_row
add_summaries stream now a db = record db {
  summaries = db.summaries ++ map (summary_row stream now a) a.object_counts;
}

unfoldable pub add_zones : ℕ → ℕ → StreamAgg → Tables → Tables
unfolding zone_row
add_zones stream now a db = record db {
  zones = db.zones ++ map (zone_row stream now a) a.zone_stats;
}

unfoldable pub add_lines : ℕ → ℕ → StreamAgg → Tables → Tables
unfolding line_row
add_lines stream now a db = record db {
  lines = db.lines ++ map (line_row stream now a) a.line_stats;
}

unfoldable pub handle_all : List EventRecord → StreamAgg → StreamAgg
unfolding handle_event
handle_all [] a = a
handle_all (r ∷ rs) a = handle_all rs (handle_event a r)

-- The records that the inference thread hands over during a flush, for which no lock is held: after
-- the rows of the classes are made, after those of the zones, after those of the lines (and so during
-- the commit), and between the first and the other resets. One that comes within a loop changes a single
-- one of the counters that the loop walks through, and so counts as before or after it.
pub record Meanwhile : Type 0 where
  pub after_summaries : List EventRecord
  pub after_zones : List EventRecord
  pub after_lines : List EventRecord
  pub in_reset : List EventRecord

-- The resets down to `_zone_tracks`, and those from `_zone_stats` on; `_trajectory_snapshots` is never
-- filled.
unfoldable pub clear_counts : ℕ → StreamAgg → StreamAgg
clear_counts now a = record a {
  object_counts = [];
  tracks = [];
  zone_tracks = [];
  window_start = now;
}

unfoldable pub clear_stats : StreamAgg → StreamAgg
clear_stats a = record a {
  zone_stats = [];
  line_stats = [];
  dwell_time_total = 0;
  stationary_count = 0;
  near_collision_count = 0;
}

unfoldable pub reset : ℕ → List EventRecord → StreamAgg → StreamAgg
unfolding clear_counts clear_stats handle_all
reset now during a = clear_stats (handle_all during (clear_counts now a))

-- The window as it is when the resets begin.
unfoldable pub before_reset : Meanwhile → StreamAgg → StreamAgg
unfolding handle_all
before_reset w a =
    handle_all w.after_lines (handle_all w.after_zones (handle_all w.after_summaries a))

unfoldable pub flush : ℕ → ℕ → Outcome → Meanwhile → StreamAgg → Tables → StreamAgg × Tables
unfolding add_summaries add_zones add_lines handle_all before_reset reset
flush stream now no_session w a db = (handle_all w.in_reset (before_reset w a), db)
flush stream now failed w a db = (reset now w.in_reset (before_reset w a), db)
flush stream now committed w a db =
    let seen = handle_all w.after_summaries a in
    (
      reset now w.in_reset (before_reset w a),
      add_lines stream now (handle_all w.after_zones seen)
          (add_zones stream now seen (add_summaries stream now a db)),
    )
