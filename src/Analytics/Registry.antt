-- ===== src/Analytics/Registry.antt =====
-- backend/analytics/aggregator.py, AnalyticsAggregator: the windows of all streams, their queries,
-- the flush of all of them and the deletion of old rows.
use omnitrack_ai_platform.Prelude.{
  ℕ, ◌-◌, Bool, not, Option, none, some, [], ◌∷◌, ltb, ◌==◌, if◌then◌else◌, keep,
}
use omnitrack_ai_platform.Prelude.Dict.{Dict, lookup, insert}
use omnitrack_ai_platform.Analytics.{StreamAgg, count_in, empty_name, empty_window, handle_event}
use omnitrack_ai_platform.Analytics.Flush.{Outcome, Meanwhile, Tables, flush}
use omnitrack_ai_platform.Events.{EventRecord}
use omnitrack_ai_platform.Analytics.Flush.{Outcome, Meanwhile, Tables, flush}

pub record Aggregator : Type 0 where
  pub per_stream : Dict StreamAgg
  pub stored : Tables

-- `_get_or_create`.
unfoldable pub get_or_create : ℕ → ℕ → Dict StreamAgg → StreamAgg
unfolding lookup empty_window
get_or_create now stream m = elim (lookup stream m) [ none ↦ empty_window now | some a ↦ a ]

-- `AnalyticsAggregator.handle_event`: a record without a stream is ignored.
unfoldable pub consume : ℕ → Aggregator → EventRecord → Aggregator
unfolding get_or_create handle_event insert
consume now g r = if r.stream == empty_name then g else record g {
  per_stream =
      insert r.stream (handle_event (get_or_create now r.stream g.per_stream) r) g.per_stream;
}

unfoldable pub get_object_counts : Option ℕ → StreamAgg → Dict ℕ
get_object_counts none a = a.object_counts
get_object_counts (some name) a =
    if name == empty_name then a.object_counts else (name, count_in name a.object_counts) ∷ []

-- `AnalyticsAggregator.get_object_counts`.
unfoldable pub object_counts_of : ℕ → Option ℕ → Aggregator → Dict ℕ
unfolding lookup get_object_counts
object_counts_of stream name g = elim (lookup stream g.per_stream) [
  | none ↦ []
  | some a ↦ get_object_counts name a
]

-- `_flush_once`: each stream with what the database does with it and what comes during its flush.
unfoldable pub flush_all :
    ℕ → (ℕ → Outcome) → (ℕ → Meanwhile) → Dict StreamAgg → Tables → Dict StreamAgg × Tables
unfolding flush
flush_all now outcome during [] db = ([], db)
flush_all now outcome during ((stream, a) ∷ m) db =
    let r = flush stream now (outcome stream) (during stream) a db in
    let rest = flush_all now outcome during m r.1 in ((stream, r.0) ∷ rest.0, rest.1)

unfoldable pub flush_once : ℕ → (ℕ → Outcome) → (ℕ → Meanwhile) → Aggregator → Aggregator
unfolding flush_all
flush_once now outcome during g =
    let r = flush_all now outcome during g.per_stream g.stored in
    record { per_stream = r.0; stored = r.1 }

-- `_enforce_retention`: the summaries whose window ended before the cutoff are deleted.
unfoldable pub enforce_retention : ℕ → ℕ → Bool → Tables → Tables
enforce_retention now retention ok db =
    if ok
    then record db {
      summaries = keep (λ row. not (ltb row.time_window_end (now - retention))) db.summaries;
    }
    else db
