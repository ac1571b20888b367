-- ===== src/EventBuffer/Tests.antt =====
-- The buffer's theorems at concrete inputs.
use omnitrack_ai_platform.Prelude.{◌≡◌, some, List, [], ◌∷◌, last_n}
use omnitrack_ai_platform.EventBuffer.{Record, new_buffer}
use omnitrack_ai_platform.EventBuffer.Retention.{
  Write, appends, extends, clears, writes, notes, records-history,
}

abbrev seen : Record
seen = record { event_type = some 1; severity = some 0; body = 5 }

abbrev script : List Write
script = appends seen ∷ clears ∷ extends (seen ∷ seen ∷ seen ∷ []) ∷ appends seen ∷ []

records-history_example :
    let b = writes (new_buffer 3) script in
    let h = notes (record { kept = []; total = 0 }) script in
    (b.records ≡ last_n 3 h.kept) × (b.seq ≡ h.total)
records-history_example = records-history 3 script
