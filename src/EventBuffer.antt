-- ===== src/EventBuffer.antt =====
-- backend/event_store.py: the bounded ring buffer of derived events, one per stream, its
-- subscribers, and the registry of buffers. Types and severities are opaque keys; what else a
-- record holds is `body`; a subscriber's callback is named by a number.
use omnitrack_ai_platform.Prelude.{
  ℕ, ◌+◌, Bool, true, false, Option, none, some, List, [], ◌∷◌, ◌++◌, map, ltb, leb, ◌==◌,
  if◌then◌else◌, keep, take, last_n,
}
use omnitrack_ai_platform.Prelude.Dict.{Dict, lookup, insert, erase, values}
use mathlib.Core.List.{reverse}
pub mod Retention
pub mod Order
pub mod Delivery
mod Tests

pub record Record : Type 0 where
  pub event_type : Option ℕ
  pub severity : Option ℕ
  pub body : ℕ

-- `dict(record)` with its `seq`.
pub record Stored : Type 0 where
  pub record_of : Record
  pub seq : ℕ

pub record EventBuffer : Type 0 where
  pub capacity : ℕ
  pub records : List Stored
  pub seq : ℕ
  pub subscribers : Dict ℕ
  pub sub_seq : ℕ

-- `EventBuffer(capacity)`; `none` is the `ValueError`.
unfoldable pub init : ℕ → Option EventBuffer
init capacity =
    if ltb capacity 1
    then none
    else some (record { capacity = capacity; records = []; seq = 0; subscribers = []; sub_seq = 0 })

-- A call of a subscriber: its callback with the record.
abbrev pub Calls : Type 0
Calls = List (ℕ × Stored)

-- `_append_locked`; the deque keeps its last `capacity` entries.
unfoldable pub append_locked : EventBuffer → Record → EventBuffer × Stored
append_locked b r =
    let stored : Stored = record { record_of = r; seq = b.seq + 1 } in
    (record b { seq = b.seq + 1; records = last_n b.capacity (b.records ++ stored ∷ []) }, stored)

unfoldable pub append_all : EventBuffer → List Record → EventBuffer × List Stored
unfolding append_locked
append_all b [] = (b, [])
append_all b (r ∷ rs) =
    let first = append_locked b r in let rest = append_all first.0 rs in (rest.0, first.1 ∷ rest.1)

-- `_notify`: every record to every subscriber; what a callback does or raises stays outside.
unfoldable pub notify : List ℕ → List Stored → Calls
notify callbacks [] = []
notify callbacks (r ∷ rs) = map (λ c. (c, r)) callbacks ++ notify callbacks rs

unfoldable pub append : EventBuffer → Record → EventBuffer × Stored × Calls
unfolding append_locked notify
append b r = let s = append_locked b r in (s.0, s.1, notify (values b.subscribers) (s.1 ∷ []))

unfoldable pub extend : EventBuffer → List Record → EventBuffer × List Stored × Calls
unfolding append_all notify
extend b rs = let s = append_all b rs in (s.0, s.1, notify (values b.subscribers) s.1)

-- `subscribe(callback)`: the buffer and the token.
unfoldable pub subscribe : EventBuffer → ℕ → EventBuffer × ℕ
subscribe b callback = (
  record b { sub_seq = b.sub_seq + 1; subscribers = insert (b.sub_seq + 1) callback b.subscribers },
  b.sub_seq + 1,
)

unfoldable pub unsubscribe : EventBuffer → ℕ → EventBuffer
unsubscribe b token = record b { subscribers = erase token b.subscribers }

abbrev pub matches : Option ℕ → Option ℕ → Bool
matches none field = true
matches (some wanted) none = false
matches (some wanted) (some value) = value == wanted

-- `records[:limit]` after the test `limit <= 0`; a negative limit acts as 0.
unfoldable pub limited : Option ℕ → List Stored → List Stored
limited none rs = rs
limited (some limit) rs = if leb limit 0 then [] else take limit rs

unfoldable pub latest : EventBuffer → Option ℕ → Option ℕ → Option ℕ → List Stored
unfolding limited
latest b limit event_type severity = limited limit (
    keep (λ r. matches severity r.record_of.severity)
      (keep (λ r. matches event_type r.record_of.event_type) (reverse b.records)))

unfoldable pub clear : EventBuffer → EventBuffer
clear b = record b { records = [] }

-- `EventStore`: the buffers by stream id.
pub record EventStore : Type 0 where
  pub store_capacity : ℕ
  pub buffers : Dict EventBuffer

-- The constructor has checked the capacity, so a new buffer is always made.
abbrev pub new_buffer : ℕ → EventBuffer
new_buffer capacity = record {
  capacity = capacity;
  records = [];
  seq = 0;
  subscribers = [];
  sub_seq = 0;
}

unfoldable pub get_or_create : EventStore → ℕ → EventStore × EventBuffer
get_or_create s stream_id = elim (lookup stream_id s.buffers) [
  | some b ↦ (s, b)
  | none ↦ (
    record s { buffers = insert stream_id (new_buffer s.store_capacity) s.buffers },
    new_buffer s.store_capacity,
  )
]

unfoldable pub remove : EventStore → ℕ → EventStore
remove s stream_id = record s { buffers = erase stream_id s.buffers }
