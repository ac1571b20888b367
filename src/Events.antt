-- ===== src/Events.antt =====
-- inference/events/event_types.py: the types and severities of events, and their wire form.
use omnitrack_ai_platform.Prelude.{ℕ, Option}
use Prim.Native.String.{String}

pub data EventType : Type 0 where
  object_appeared object_disappeared object_entered object_exited : EventType
  crossing_direction dwell_time stationary_object near_collision : EventType

-- `EventType.value`.
abbrev pub value : EventType → String
value object_appeared = "object_appeared"
value object_disappeared = "object_disappeared"
value object_entered = "object_entered"
value object_exited = "object_exited"
value crossing_direction = "crossing_direction"
value dwell_time = "dwell_time"
value stationary_object = "stationary_object"
value near_collision = "near_collision"

pub data Severity : Type 0 where
  info low medium high critical : Severity

abbrev pub severity_value : Severity → String
severity_value info = "info"
severity_value low = "low"
severity_value medium = "medium"
severity_value high = "high"
severity_value critical = "critical"

-- `Severity.rank`.
abbrev pub rank : Severity → ℕ
rank info = 0
rank low = 1
rank medium = 2
rank high = 3
rank critical = 4

-- What the detectors put in `metadata`, of the keys that are read again.
pub record Metadata : Type 0 where
  pub zone_name : Option ℕ
  pub line_name : Option ℕ
  pub direction : Option ℕ
  pub positive_label : Option ℕ
  pub seconds : Option ℕ

pub record Event : Type 0 where
  pub stream_id : ℕ
  pub event_type : EventType
  pub severity : Severity
  pub frame_id : ℕ
  pub timestamp : ℕ
  pub track_id : Option ℕ
  pub class_name : Option ℕ
  pub metadata : Metadata

-- The record of an event.
pub record EventRecord : Type 0 where
  pub stream : ℕ
  pub type_name : String
  pub severity_name : String
  pub severity_rank : ℕ
  pub frame : ℕ
  pub at : ℕ
  pub track : Option ℕ
  pub class_of : Option ℕ
  pub details : Metadata

unfoldable pub to_dict : Event → EventRecord
to_dict e = record {
  stream = e.stream_id;
  type_name = value e.event_type;
  severity_name = severity_value e.severity;
  severity_rank = rank e.severity;
  frame = e.frame_id;
  at = e.timestamp;
  track = e.track_id;
  class_of = e.class_name;
  details = e.metadata;
}
