-- ===== src/EventBuffer/Retention.antt =====
-- What a buffer of backend/event_store.py retains, against an unbounded history.
use omnitrack_ai_platform.Prelude.{
  ℕ, zero, suc, ◌+◌, ◌-◌, ◌≡◌, refl, sym, ap, ◌∙◌, List, [], ◌∷◌, ◌++◌, arith, length, drop, last_n,
  last_n-append,
}
use mathlib.Core.List.{append-nil, append_assoc}
use omnitrack_ai_platform.EventBuffer.{EventBuffer}
use omnitrack_ai_platform.EventBuffer.{Record, Stored, append, append_all, clear, extend}
use omnitrack_ai_platform.EventBuffer.{append_locked, new_buffer}

-- The calls that write.
pub data Write : Type 0 where
  appends : Record → Write
  extends : List Record → Write
  clears : Write

unfoldable pub write : EventBuffer → Write → EventBuffer
write b (appends r) = (append b r).0
write b (extends rs) = (extend b rs).0
write b clears = clear b

unfoldable pub writes : EventBuffer → List Write → EventBuffer
writes b [] = b
writes b (w ∷ ws) = writes (write b w) ws

-- Records stamped with consecutive numbers after `n`.
unfoldable pub stamped : ℕ → List Record → List Stored
stamped n [] = []
stamped n (r ∷ rs) = record { record_of = r; seq = n + 1 } ∷ stamped (n + 1) rs

-- All that was ever appended since the last `clear`, with the number of records ever appended.
pub record History : Type 0 where
  pub kept : List Stored
  pub total : ℕ

unfoldable pub note : History → Write → History
unfolding stamped
note h (appends r) = record { kept = h.kept ++ stamped h.total (r ∷ []); total = h.total + 1 }
note h (extends rs) = record { kept = h.kept ++ stamped h.total rs; total = h.total + length rs }
note h clears = record { kept = []; total = h.total }

unfoldable pub notes : History → List Write → History
notes h [] = h
notes h (w ∷ ws) = notes (note h w) ws

-- The buffer shows the last `capacity` records of the history.
pub record Shows (capacity : ℕ) (b : EventBuffer) (h : History) : Type 0 where
  cap : b.capacity ≡ capacity
  window : b.records ≡ last_n capacity h.kept
  numbered : b.seq ≡ h.total

pub drop_empty : (n : ℕ) → drop {A = Stored} n [] ≡ []
drop_empty zero = refl
drop_empty (suc n) = refl

append_locked-Shows :
    (capacity : ℕ) (b : EventBuffer) (h : History) (r : Record)
    → Shows capacity b h
    → Shows capacity (append_locked b r).0 (record {
      kept = h.kept ++ record { record_of = r; seq = h.total + 1 } ∷ [];
      total = h.total + 1;
    })
unfolding append_locked
append_locked-Shows capacity b h r s = record {
  cap = s.cap;
  window =
      rw (s.cap, s.window, s.numbered)
        (last_n-append capacity h.kept (record { record_of = r; seq = h.total + 1 } ∷ []));
  numbered = omega (arith, s.numbered);
}

append_all-Shows :
    (capacity : ℕ) (b : EventBuffer) (h : History) (rs : List Record)
    → Shows capacity b h
    → Shows capacity (append_all b rs).0 (note h (extends rs))
unfolding append_all note
append_all-Shows capacity b h [] s = record {
  cap = s.cap;
  window = rw append-nil s.window;
  numbered = omega (arith, s.numbered);
}
append_all-Shows capacity b h (r ∷ rs) s =
    let x : Stored = record { record_of = r; seq = h.total + 1 } in
    let rest =
      append_all-Shows capacity (append_locked b r).0
        (record { kept = h.kept ++ x ∷ []; total = h.total + 1 }) rs
        (append_locked-Shows capacity b h r s) in
    record {
      cap = rest.cap;
      window =
          rest.window
          ∙ ap (last_n capacity) (append_assoc h.kept (x ∷ []) (stamped (h.total + 1) rs));
      numbered = omega (arith, rest.numbered);
    }

write-Shows :
    (capacity : ℕ) (b : EventBuffer) (h : History) (w : Write)
    → Shows capacity b h
    → Shows capacity (write b w) (note h w)
unfolding write note append extend clear
write-Shows capacity b h (appends r) s = append_locked-Shows capacity b h r s
write-Shows capacity b h (extends rs) s = append_all-Shows capacity b h rs s
write-Shows capacity b h clears s = record {
  cap = s.cap;
  window = sym (drop_empty (0 - capacity));
  numbered = s.numbered;
}

pub writes-Shows :
    (capacity : ℕ) (b : EventBuffer) (h : History) (ws : List Write)
    → Shows capacity b h
    → Shows capacity (writes b ws) (notes h ws)
unfolding writes notes
writes-Shows capacity b h [] s = s
writes-Shows capacity b h (w ∷ ws) s =
    writes-Shows capacity (write b w) (note h w) ws (write-Shows capacity b h w s)

-- After any writes to a new buffer it holds exactly the last `capacity` records of those appended
-- since the last `clear`, in order, each with the number of records appended up to it; `clear`
-- does not reset that number.
pub records-history :
    (capacity : ℕ) (ws : List Write)
    → let b = writes (new_buffer capacity) ws in
      let h = notes (record { kept = []; total = 0 }) ws in
      (b.records ≡ last_n capacity h.kept) × (b.seq ≡ h.total)
records-history capacity ws =
    let s =
      writes-Shows capacity (new_buffer capacity) (record { kept = []; total = 0 }) ws
        (record { cap = refl; window = sym (drop_empty (0 - capacity)); numbered = refl }) in
    (s.window, s.numbered)
