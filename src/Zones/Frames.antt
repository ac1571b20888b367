-- ===== src/Zones/Frames.antt =====
-- ZoneDetector of inference/events/geometry_detectors.py over the frames of a stream, as
-- inference/events/engine.py calls it.
use omnitrack_ai_platform.Prelude.{
  ℕ, ◌+◌, ◌≤◌, ◌≡◌, ap, inl, inr, true, ◌&&◌, none, List, [], ◌∷◌, ◌++◌, map, arith, ◌==◌,
  if◌then◌else◌, Bool-cases, is_some, keep, mem,
}
use omnitrack_ai_platform.Prelude.Dict.{Dict, lookup}
use omnitrack_ai_platform.Tracker.{TrackedObject, current_detection}
use omnitrack_ai_platform.Stationary.{active_objects}
use omnitrack_ai_platform.Zones.{
  Config, Zone, Event, Key, ZoneDetector, entry_of, same_key, is_fired, watch, watch_all,
  zones_inside, zones_of, update_zones, cleanup_zones, reset_zones, init,
}
use omnitrack_ai_platform.Zones.Entries.{enters, dwells, enters-append, dwells-append, owed}
use omnitrack_ai_platform.Zones.Stays.{IsSound, watch-stays}

watch_all-stays :
    (cfg : Config) (t z now : ℕ) (ts : List TrackedObject) (s : ZoneDetector)
    → IsSound s
    → let r = watch_all cfg now ts s in
      IsSound r.0 × (owed t z r.0 + dwells t z r.1 ≤ owed t z s + enters t z r.1)
unfolding watch_all dwells enters
watch_all-stays cfg t z now [] s h = (h, omega arith)
watch_all-stays cfg t z now (o ∷ os) s h =
    let current = zones_of cfg (current_detection o) in
    let first = watch cfg now o.track_id current s in
    let here = watch-stays cfg t z now o.track_id current s h in
    let rest = watch_all-stays cfg t z now os first.0 here.0 in
    let later = watch_all cfg now os first.0 in
    (
      rest.0,
      omega (
        arith,
        here.1,
        rest.1,
        dwells-append t z first.1 later.1,
        enters-append t z first.1 later.1,
      ),
    )

update_zones-stays :
    (cfg : Config) (t z now : ℕ) (objects : List TrackedObject) (s : ZoneDetector)
    → IsSound s
    → let r = update_zones cfg now objects s in
      IsSound r.0 × (owed t z r.0 + dwells t z r.1 ≤ owed t z s + enters t z r.1)
unfolding update_zones dwells enters
update_zones-stays cfg t z now objects s h = by_zones cfg.zones
  where
    watched : ZoneDetector × List Event
    watched = watch_all cfg now (active_objects objects) s

    by_zones :
        (zs : List Zone)
        → let r = elim zs as (λ x. ZoneDetector × List Event) [ [] ↦ (s, []) | y ∷ ys ↦ watched ] in
          IsSound r.0 × (owed t z r.0 + dwells t z r.1 ≤ owed t z s + enters t z r.1)
    by_zones [] = (h, omega arith)
    by_zones (y ∷ ys) = watch_all-stays cfg t z now (active_objects objects) s h

-- The entries that a clean-up keeps.
entry_of-keep :
    (t z : ℕ) (ids : List ℕ) (m : List (Key × ℕ))
    → entry_of (t, z) (keep (λ e. mem e.0.0 ids) m)
      ≡ (if mem t ids then entry_of (t, z) m else none)
unfolding entry_of
entry_of-keep t z ids [] = ground arith
entry_of-keep t z ids (((a, b), ts) ∷ m) = elim (Bool-cases (same_key (t, z) (a, b))) [
  | inl same ↦
      let here : t ≡ a = ground arith in
      ground (arith, same, ap (λ x. mem x ids) here, entry_of-keep t z ids m)
  | inr other ↦ ground (arith, other, entry_of-keep t z ids m)
]

is_fired-keep :
    (t z : ℕ) (ids : List ℕ) (ks : List Key)
    → is_fired (t, z) (keep (λ k. mem k.0 ids) ks) ≡ (mem t ids && is_fired (t, z) ks)
unfolding is_fired
is_fired-keep t z ids [] = ground arith
is_fired-keep t z ids ((a, b) ∷ ks) = elim (Bool-cases (same_key (t, z) (a, b))) [
  | inl same ↦
      let here : t ≡ a = ground arith in
      ground (arith, same, ap (λ x. mem x ids) here, is_fired-keep t z ids ks)
  | inr other ↦ ground (arith, other, is_fired-keep t z ids ks)
]

lookup-keep :
    (t : ℕ) (ids : List ℕ) (m : Dict (List ℕ))
    → lookup t (keep (λ e. mem e.0 ids) m) ≡ (if mem t ids then lookup t m else none)
unfolding lookup
lookup-keep t ids [] = ground arith
lookup-keep t ids ((a, zs) ∷ m) = elim (Bool-cases (t == a)) [
  | inl same ↦
      let here : t ≡ a = ground arith in
      ground (arith, same, ap (λ x. mem x ids) here, lookup-keep t ids m)
  | inr other ↦ ground (arith, other, lookup-keep t ids m)
]

cleanup_zones-owed :
    (t z : ℕ) (ids : List ℕ) (s : ZoneDetector) → owed t z (cleanup_zones ids s) ≤ owed t z s
unfolding cleanup_zones
cleanup_zones-owed t z ids s =
    ground (arith, entry_of-keep t z ids s.entry_ts, is_fired-keep t z ids s.dwell_fired)

zones_inside-cleanup :
    (t : ℕ) (ids : List ℕ) (s : ZoneDetector)
    → zones_inside t (cleanup_zones ids s) ≡ (if mem t ids then zones_inside t s else [])
unfolding zones_inside cleanup_zones
zones_inside-cleanup t ids s = ground (arith, lookup-keep t ids s.inside)

cleanup_zones-IsSound :
    (ids : List ℕ) (s : ZoneDetector) → IsSound s → IsSound (cleanup_zones ids s)
unfolding cleanup_zones mem
cleanup_zones-IsSound ids s h t z m =
    ground (arith, m, h t z, zones_inside-cleanup t ids s, entry_of-keep t z ids s.entry_ts)

-- A frame: its time, its objects, and the regions of the time. The engine cleans up with the ids of
-- the frame; where the detector is reset there is a frame of none.
pub data Step : Type 0 where
  frame : Config → ℕ → List TrackedObject → Step
  resets : Step

unfoldable pub step : Step → ZoneDetector → ZoneDetector × List Event
unfolding update_zones cleanup_zones reset_zones
step (frame cfg now objects) s =
    let r = update_zones cfg now objects s in
    (cleanup_zones (map (λ o. o.track_id) objects) r.0, r.1)
step resets s = (reset_zones s, [])

unfoldable pub run : List Step → ZoneDetector → ZoneDetector × List Event
unfolding step
run [] s = (s, [])
run (x ∷ xs) s = let first = step x s in let rest = run xs first.0 in (rest.0, first.1 ++ rest.1)

step-stays :
    (t z : ℕ) (x : Step) (s : ZoneDetector)
    → IsSound s
    → let r = step x s in
      IsSound r.0 × (owed t z r.0 + dwells t z r.1 ≤ owed t z s + enters t z r.1)
unfolding step reset_zones dwells enters zones_inside entry_of mem lookup
step-stays t z (frame cfg now objects) s h =
    let updated = update_zones cfg now objects s in
    let u = update_zones-stays cfg t z now objects s h in
    let ids = map (λ o. o.track_id) objects in
    (
      cleanup_zones-IsSound ids updated.0 u.0,
      omega (arith, u.1, cleanup_zones-owed t z ids updated.0),
    )
step-stays t z resets s h = (λ q y m. absurd cc, ground arith)

run-stays :
    (t z : ℕ) (xs : List Step) (s : ZoneDetector)
    → IsSound s
    → let r = run xs s in
      IsSound r.0 × (owed t z r.0 + dwells t z r.1 ≤ owed t z s + enters t z r.1)
unfolding run dwells enters
run-stays t z [] s h = (h, omega arith)
run-stays t z (x ∷ xs) s h =
    let first = step x s in
    let here = step-stays t z x s h in
    let rest = run-stays t z xs first.0 here.0 in
    let later = run xs first.0 in
    (
      rest.0,
      omega (
        arith,
        here.1,
        rest.1,
        dwells-append t z first.1 later.1,
        enters-append t z first.1 later.1,
      ),
    )

owed-le : (t z : ℕ) (s : ZoneDetector) → owed t z s ≤ 1
owed-le t z s = ground arith

-- Take any frames, with any changes of the regions and resets in between, and then any more. In those
-- further frames a track has at most one dwell event for a zone more than it has entries into it, so
-- that frames without an entry, the rest of a stay however long it is, bring one at most. From the
-- start on, dwell events are no more than entries. And at the end every zone that a track is recorded
-- to be inside has the time of its entry, which is what the branch of the code that is called
-- defensive is about.
pub dwell_once :
    (t z : ℕ) (xs ys : List Step)
    → let before = run xs init in
      let r = run ys before.0 in
      (dwells t z before.1 ≤ enters t z before.1)
      × (dwells t z r.1 ≤ 1 + enters t z r.1)
      × (dwells t z before.1 + dwells t z r.1 ≤ enters t z before.1 + enters t z r.1)
      × ((q y : ℕ)
          → mem y (zones_inside q r.0) ≡ true
          → is_some (entry_of (q, y) r.0.entry_ts) ≡ true)
unfolding init zones_inside entry_of mem lookup
dwell_once t z xs ys =
    let before = run xs init in
    let first = run-stays t z xs init (λ q y m. absurd cc) in
    let rest = run-stays t z ys before.0 first.0 in
    (
      omega (arith, first.1),
      omega (arith, rest.1, owed-le t z before.0),
      omega (arith, first.1, rest.1),
      rest.0,
    )
