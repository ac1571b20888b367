-- ===== src/Recording.antt =====
-- backend/recording/manager.py, StreamRecorder, with the row of backend/recording/models.py. Frames are
-- opaque, and the writing of clips on the executor is what it is given. Commits succeed.
use omnitrack_ai_platform.Prelude.{
  ℕ, ◌+◌, Bool, true, false, not, Option, none, some, List, [], ◌∷◌, ◌++◌, map, ltb, ◌==◌,
  if◌then◌else◌, length, last_n,
}
pub mod Segments
mod Tests

pub data Status : Type 0 where
  active completed : Status

pub record Recording : Type 0 where
  pub id : ℕ
  pub status : Status
  pub end_time : Option ℕ

-- What `_process_event_clip` is given: the recording, the event type and the frames before.
pub record Clip : Type 0 where
  pub recording_id : ℕ
  pub event_type : ℕ
  pub pre_frames : List ℕ

-- The recorder, with the rows and the clips that it made. The end of the queue is `none`.
pub record Recorder : Type 0 where
  pub pre_buffer : List ℕ
  pub frame_queue : List (Option ℕ)
  pub active_recording : Option ℕ
  pub running : Bool
  pub writer_task_active : Bool
  pub recordings : List Recording
  pub clips : List Clip
  pub dropped : ℕ

unfoldable pub init : Recorder
init = record {
  pre_buffer = [];
  frame_queue = [];
  active_recording = none;
  running = false;
  writer_task_active = false;
  recordings = [];
  clips = [];
  dropped = 0;
}

-- `start`, where `id` is the key of a new row.
unfoldable pub start : ℕ → Recorder → Recorder
start id r = elim r.active_recording [
  | some old ↦ r
  | none ↦ record r {
    recordings = r.recordings ++ record { id = id; status = active; end_time = none } ∷ [];
    active_recording = some id;
    running = true;
  }
]

-- `Queue(maxsize=120)`.
abbrev pub capacity : ℕ
capacity = 120

-- `stop`: where the queue stays full for five seconds the end is not put.
unfoldable pub stop : Recorder → Recorder
stop r = record r {
  running = false;
  frame_queue =
      if ltb (length r.frame_queue) capacity then r.frame_queue ++ none ∷ [] else r.frame_queue;
}

-- `frames[-n:]`, all of them for 0.
unfoldable pub last_frames : ℕ → List ℕ → List ℕ
last_frames n frames = if n == 0 then frames else last_n n frames

unfoldable pub buffer : ℕ → ℕ → List ℕ → List ℕ
unfolding last_frames
buffer max_pre f frames =
    let all = frames ++ f ∷ [] in if ltb max_pre (length all) then last_frames max_pre all else all

unfoldable pub push_frame : ℕ → ℕ → Recorder → Recorder
unfolding buffer
push_frame max_pre f r =
    if not r.running
    then r
    else (let r' : Recorder = record r { pre_buffer = buffer max_pre f r.pre_buffer } in
        elim r.active_recording [
          | none ↦ r'
          | some id ↦
              (if ltb (length r.frame_queue) capacity
                then record r' {
                  frame_queue = r.frame_queue ++ some f ∷ [];
                  writer_task_active = true;
                }
                else record r' { dropped = r.dropped + 1 })
        ])

abbrev pub complete : ℕ → ℕ → Recording → Recording
complete id now rec =
    if rec.id == id then record rec { status = completed; end_time = some now } else rec

-- `_switch_segment`.
unfoldable pub switch_segment : ℕ → ℕ → ℕ → Recorder → Recorder
unfolding start
switch_segment old now id r =
    start id (record r { recordings = map (complete old now) r.recordings })

-- `trigger_event`; the clip is that of the recording which `start` returns.
unfoldable pub trigger_event : ℕ → ℕ → ℕ → ℕ → Recorder → Recorder
unfolding switch_segment last_frames
trigger_event max_pre now id event r = if not r.running then r else (elim r.active_recording [
  | none ↦ r
  | some old ↦
      let r' = switch_segment old now id r in
      record r' {
        clips =
            r'.clips
            ++ record {
              recording_id = elim r'.active_recording [ none ↦ old | some k ↦ k ];
              event_type = event;
              pre_frames = last_frames max_pre r.pre_buffer;
            }
              ∷ [];
      }
])

-- One turn of `_writer_drain_task`, which takes a frame from the queue, or ends.
unfoldable pub drain : Recorder → Recorder
drain r = if not r.running then record r { writer_task_active = false } else (elim r.frame_queue [
  | [] ↦ record r { writer_task_active = false }
  | none ∷ fs ↦ record r { frame_queue = fs; writer_task_active = ltb 0 (length fs) }
  | some f ∷ fs ↦ record r { frame_queue = fs }
])
