-- ===== src/Analytics/Tests.antt =====
-- Runs of the model of backend/analytics/aggregator.py.
use omnitrack_ai_platform.Prelude.{◌≡◌, refl, none, some, List, [], ◌∷◌}
use Prim.Native.String.{String}
use omnitrack_ai_platform.Events.{EventRecord, Metadata, object_entered, Event, high, to_dict}
use omnitrack_ai_platform.Analytics.Conservation.{Action, record_of, flush_at, run}
use omnitrack_ai_platform.Analytics.Flush.{Meanwhile, committed}
use omnitrack_ai_platform.Analytics.Counts.{sum_summaries}
use omnitrack_ai_platform.Analytics.Totals.{no_tables}
use omnitrack_ai_platform.Analytics.Wire.{handle_event-to_dict}
use omnitrack_ai_platform.Analytics.{
  empty_window, handle, handle_event, kind_of, on_appeared, on_entered,
}

abbrev no_details : Metadata
no_details = record {
  zone_name = some 7;
  line_name = none;
  direction = none;
  positive_label = none;
  seconds = none;
}

-- A record of the type named.
abbrev record_named : String → EventRecord
record_named name = record {
  stream = 5;
  type_name = name;
  severity_name = "LOW";
  severity_rank = 1;
  frame = 1;
  at = 20;
  track = some 3;
  class_of = some 9;
  details = no_details;
}

-- An object appears while the commit of the flush runs.
abbrev commit_time : Meanwhile
commit_time = record {
  after_summaries = [];
  after_zones = [];
  after_lines = record_named "OBJECT_APPEARED" ∷ [];
  in_reset = [];
}

abbrev day : List Action
day =
    record_of (record_named "OBJECT_APPEARED")
    ∷ record_of (record_named "OBJECT_ENTERED")
    ∷ flush_at 60 committed commit_time
    ∷ record_of (record_named "OBJECT_APPEARED")
    ∷ []

abbrev entry : Event
entry = record {
  stream_id = 5;
  event_type = object_entered;
  severity = high;
  frame_id = 1;
  timestamp = 20;
  track_id = some 3;
  class_name = some 9;
  metadata = no_details;
}

stored_counts : sum_summaries 9 (run 5 day (empty_window 0) no_tables).1.summaries ≡ 1
unfolding run sum_summaries handle_event kind_of handle on_appeared on_entered empty_window
stored_counts = refl

handle_event-to_dict_example : handle_event (empty_window 0) (to_dict entry) ≡ empty_window 0
handle_event-to_dict_example = handle_event-to_dict (empty_window 0) entry
