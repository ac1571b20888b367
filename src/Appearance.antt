-- ===== src/Appearance.antt =====
-- inference/events/engine.py, EventEngine, with AppearanceDetector of inference/events/detectors.py
-- as its only detector, on the tracks of inference/tracker.py. The class name of a detection, an
-- opaque number, is a function of the configuration.
use omnitrack_ai_platform.Prelude.{
  ℕ, ◌-◌, Bool, not, Option, none, some, List, [], ◌∷◌, ◌++◌, leb, if◌then◌else◌, keep, last?, mem,
}
use omnitrack_ai_platform.Prelude.Dict.{Dict, lookup, insert, erase, keys}
use omnitrack_ai_platform.Tracker.{TrackedObject, current_detection}
pub mod Presence
pub mod Tests

pub record EngineConfig : Type 0 where
  pub enabled : Bool
  pub class_of : ℕ → Option ℕ

pub record TrackMeta : Type 0 where
  pub meta_class : Option ℕ
  pub first_frame : ℕ
  pub first_timestamp : ℕ
  pub last_frame : ℕ
  pub last_timestamp : ℕ
  pub last_centroid_of : Option ℕ

-- The track, its class name and, on leaving, `visible_seconds`.
pub data Event : Type 0 where
  object_appeared : ℕ → Option ℕ → Event
  object_disappeared : ℕ → Option ℕ → ℕ → Event

pub record Engine : Type 0 where
  pub known_ids : List ℕ
  pub meta_by_id : Dict TrackMeta

unfoldable pub init : Engine
init = record { known_ids = []; meta_by_id = [] }

-- `{obj.track_id: obj for obj in tracked_objects}`, from the entries there are.
unfoldable pub objects_by_id : Dict TrackedObject → List TrackedObject → Dict TrackedObject
unfolding insert
objects_by_id m [] = m
objects_by_id m (t ∷ ts) = objects_by_id (insert t.track_id t m) ts

-- `a - b` of two sets.
unfoldable pub difference : List ℕ → List ℕ → List ℕ
unfolding mem
difference a b = keep (λ k. not (mem k b)) a

unfoldable pub insert_id : ℕ → List ℕ → List ℕ
insert_id k [] = k ∷ []
insert_id k (j ∷ js) = if leb k j then k ∷ j ∷ js else j ∷ insert_id k js

-- `sorted(ids)`.
unfoldable pub sorted : List ℕ → List ℕ
unfolding insert_id
sorted [] = []
sorted (k ∷ ks) = insert_id k (sorted ks)

unfoldable pub object_timestamp : TrackedObject → ℕ
object_timestamp t = elim (last? t.trajectory_points) [ none ↦ 0 | some p ↦ p.timestamp ]

unfoldable pub class_name : EngineConfig → Option ℕ → Option ℕ
class_name config none = none
class_name config (some d) = config.class_of d

abbrev pub or_else : Option ℕ → Option ℕ → Option ℕ
or_else none b = b
or_else (some a) b = some a

unfoldable pub new_meta : EngineConfig → ℕ → TrackedObject → Option TrackMeta → TrackMeta
unfolding class_name object_timestamp current_detection
new_meta config frame t none = record {
  meta_class = class_name config (current_detection t);
  first_frame = t.first_seen_frame;
  first_timestamp = object_timestamp t;
  last_frame = frame;
  last_timestamp = object_timestamp t;
  last_centroid_of = current_detection t;
}
new_meta config frame t (some existing) = record {
  meta_class = or_else (class_name config (current_detection t)) existing.meta_class;
  first_frame = existing.first_frame;
  first_timestamp = existing.first_timestamp;
  last_frame = frame;
  last_timestamp = object_timestamp t;
  last_centroid_of = current_detection t;
}

unfoldable pub refresh_meta :
    EngineConfig → ℕ → Dict TrackedObject → Dict TrackMeta → Dict TrackMeta
unfolding new_meta insert lookup
refresh_meta config frame [] metas = metas
refresh_meta config frame ((id, t) ∷ objects) metas =
    refresh_meta config frame objects (insert id (new_meta config frame t (lookup id metas)) metas)

-- The two loops of `AppearanceDetector.update`.
unfoldable pub appearances : EngineConfig → Dict TrackedObject → List ℕ → List Event
unfolding lookup class_name current_detection
appearances config objects [] = []
appearances config objects (id ∷ ids) =
    object_appeared id
      (elim (lookup id objects) [ none ↦ none | some t ↦ class_name config (current_detection t) ])
    ∷ appearances config objects ids

unfoldable pub disappearances : Dict TrackMeta → List ℕ → List Event
unfolding lookup
disappearances metas [] = []
disappearances metas (id ∷ ids) =
    let rest = disappearances metas ids in
    elim (lookup id metas) [
      | none ↦ object_disappeared id none 0 ∷ rest
      | some m ↦ object_disappeared id m.meta_class (m.last_timestamp - m.first_timestamp) ∷ rest
    ]

unfoldable pub forget : List ℕ → Dict TrackMeta → Dict TrackMeta
unfolding erase
forget [] metas = metas
forget (id ∷ ids) metas = forget ids (erase id metas)

-- `_process_locked`: the engine afterwards and the events of the frame.
unfoldable pub process : EngineConfig → Engine → ℕ → List TrackedObject → Engine × List Event
unfolding objects_by_id difference sorted refresh_meta appearances disappearances forget
process config e frame objects =
    let current = objects_by_id [] objects in
    let gone = difference e.known_ids (keys current) in
    let metas = refresh_meta config frame current e.meta_by_id in
    if not config.enabled then (e, []) else (
      record { known_ids = keys current; meta_by_id = forget gone metas },
      appearances config current (sorted (difference (keys current) e.known_ids))
          ++ disappearances metas (sorted gone),
    )

-- `reset`.
unfoldable pub reset : Engine → Engine
reset e = record { known_ids = []; meta_by_id = [] }
