-- ===== src/Zones/Entries.antt =====
-- The tables of ZoneDetector (inference/events/geometry_detectors.py) under the loops of an update.

-- Whether a track has the time of its entry into a zone.
use omnitrack_ai_platform.Prelude.{
  ℕ, ◌+◌, ◌≤◌, ◌≡◌, refl, Bool, false, not, ◌&&◌, none, some, List, [], ◌∷◌, ◌++◌, arith,
  if◌then◌else◌, is_some,
}
use omnitrack_ai_platform.Zones.{
  Event, Key, ZoneDetector, enter, enter_all, entry_of, exit, exit_all, drop_entry, set_entry,
  same_key, is_fired, discard_key, object_entered, object_exited, dwell_time, crossing_direction,
}

abbrev pub has_entry : ℕ → ℕ → ZoneDetector → Bool
has_entry t z s = is_some (entry_of (t, z) s.entry_ts)

abbrev pub fired : ℕ → ℕ → ZoneDetector → Bool
fired t z s = is_fired (t, z) s.dwell_fired

pub entry_of-set_entry :
    (a b t z now : ℕ) (m : List (Key × ℕ))
    → entry_of (a, b) (set_entry (t, z) now m)
      ≡ (if same_key (a, b) (t, z) then some now else entry_of (a, b) m)
unfolding entry_of set_entry
entry_of-set_entry a b t z now [] = refl
entry_of-set_entry a b t z now (((c, d), ts) ∷ m) = ground (arith, entry_of-set_entry a b t z now m)

pub entry_of-drop_entry :
    (a b t z : ℕ) (m : List (Key × ℕ))
    → entry_of (a, b) (drop_entry (t, z) m)
      ≡ (if same_key (a, b) (t, z) then none else entry_of (a, b) m)
unfolding entry_of drop_entry
entry_of-drop_entry a b t z [] = ground arith
entry_of-drop_entry a b t z (((c, d), ts) ∷ m) = ground (arith, entry_of-drop_entry a b t z m)

pub is_fired-discard_key :
    (a b t z : ℕ) (ks : List Key)
    → is_fired (a, b) (discard_key (t, z) ks)
      ≡ (if same_key (a, b) (t, z) then false else is_fired (a, b) ks)
unfolding is_fired discard_key
is_fired-discard_key a b t z [] = ground arith
is_fired-discard_key a b t z ((c, d) ∷ ks) = ground (arith, is_fired-discard_key a b t z ks)

-- How often a track enters a zone, and dwells in it.
unfoldable pub enters : ℕ → ℕ → List Event → ℕ
enters t z [] = 0
enters t z (object_entered a b ∷ es) = (if same_key (t, z) (a, b) then 1 else 0) + enters t z es
enters t z (object_exited a b n ∷ es) = enters t z es
enters t z (dwell_time a b n ∷ es) = enters t z es
enters t z (crossing_direction a b n ∷ es) = enters t z es

unfoldable pub dwells : ℕ → ℕ → List Event → ℕ
dwells t z [] = 0
dwells t z (object_entered a b ∷ es) = dwells t z es
dwells t z (object_exited a b n ∷ es) = dwells t z es
dwells t z (dwell_time a b n ∷ es) = (if same_key (t, z) (a, b) then 1 else 0) + dwells t z es
dwells t z (crossing_direction a b n ∷ es) = dwells t z es

pub enters-append :
    (t z : ℕ) (xs ys : List Event) → enters t z (xs ++ ys) ≡ enters t z xs + enters t z ys
unfolding enters
enters-append t z [] ys = omega arith
enters-append t z (object_entered a b ∷ xs) ys = omega (arith, enters-append t z xs ys)
enters-append t z (object_exited a b n ∷ xs) ys = enters-append t z xs ys
enters-append t z (dwell_time a b n ∷ xs) ys = enters-append t z xs ys
enters-append t z (crossing_direction a b n ∷ xs) ys = enters-append t z xs ys

pub dwells-append :
    (t z : ℕ) (xs ys : List Event) → dwells t z (xs ++ ys) ≡ dwells t z xs + dwells t z ys
unfolding dwells
dwells-append t z [] ys = omega arith
dwells-append t z (object_entered a b ∷ xs) ys = dwells-append t z xs ys
dwells-append t z (object_exited a b n ∷ xs) ys = dwells-append t z xs ys
dwells-append t z (dwell_time a b n ∷ xs) ys = omega (arith, dwells-append t z xs ys)
dwells-append t z (crossing_direction a b n ∷ xs) ys = dwells-append t z xs ys

-- A dwell of the track in the zone is owed: it is inside and the event has not come.
abbrev pub owed : ℕ → ℕ → ZoneDetector → ℕ
owed t z s = if has_entry t z s && not (fired t z s) then 1 else 0

enter-owed :
    (t z now a b : ℕ) (s : ZoneDetector)
    → owed t z (enter now a b s) ≤ owed t z s + (if same_key (t, z) (a, b) then 1 else 0)
unfolding enter
enter-owed t z now a b s =
    ground
      (arith, entry_of-set_entry t z a b now s.entry_ts, is_fired-discard_key t z a b s.dwell_fired)

exit-owed : (t z a b : ℕ) (s : ZoneDetector) → owed t z (exit a b s) ≤ owed t z s
unfolding exit
exit-owed t z a b s =
    ground
      (arith, entry_of-drop_entry t z a b s.entry_ts, is_fired-discard_key t z a b s.dwell_fired)

pub enter_all-owed :
    (t z now a : ℕ) (bs : List ℕ) (s : ZoneDetector)
    → let r = enter_all now a bs s in owed t z r.0 + dwells t z r.1 ≤ owed t z s + enters t z r.1
unfolding enter_all enters dwells
enter_all-owed t z now a [] s = omega arith
enter_all-owed t z now a (b ∷ bs) s =
    omega (arith, enter_all-owed t z now a bs (enter now a b s), enter-owed t z now a b s)

pub exit_all-owed :
    (t z now a : ℕ) (bs : List ℕ) (s : ZoneDetector)
    → let r = exit_all now a bs s in owed t z r.0 + dwells t z r.1 ≤ owed t z s + enters t z r.1
unfolding exit_all enters dwells
exit_all-owed t z now a [] s = omega arith
exit_all-owed t z now a (b ∷ bs) s =
    omega (arith, exit_all-owed t z now a bs (exit a b s), exit-owed t z a b s)
