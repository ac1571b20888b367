-- ===== src/Zones/Stays.antt =====
-- The stays of tracks in zones, over the frames that ZoneDetector
-- (inference/events/geometry_detectors.py) sees.
use omnitrack_ai_platform.Prelude.{
  ℕ, ◌+◌, ◌≤◌, ◌≡◌, refl, ap, ◌∙◌, inl, inr, true, not, ◌&&◌, ◌||◌, none, some, List, [], ◌∷◌, ◌++◌,
  arith, ◌==◌, if◌then◌else◌, Option-cases, is_some, mem,
}
use omnitrack_ai_platform.Prelude.Dict.{lookup, insert, lookup-insert, mem-keep}
use omnitrack_ai_platform.Appearance.{difference, insert_id, sorted}
use omnitrack_ai_platform.Zones.{
  Config, ZoneDetector, dwell, dwell_all, enter, enter_all, entry_of, exit, exit_all, zones_inside,
}
use omnitrack_ai_platform.Zones.Entries.{has_entry}
use omnitrack_ai_platform.Zones.Dwell.{enter_all-entry, exit_all-entry}
use omnitrack_ai_platform.Zones.{watch}
use omnitrack_ai_platform.Zones.Entries.{
  dwells, dwells-append, enter_all-owed, enters, enters-append, exit_all-owed, owed,
}
use omnitrack_ai_platform.Zones.Dwell.{dwell_all-owed}

mem-insert_id : (q k : ℕ) (xs : List ℕ) → mem q (insert_id k xs) ≡ (q == k || mem q xs)
unfolding mem insert_id
mem-insert_id q k [] = refl
mem-insert_id q k (x ∷ xs) = ground (arith, mem-insert_id q k xs)

mem-sorted : (q : ℕ) (xs : List ℕ) → mem q (sorted xs) ≡ mem q xs
unfolding mem sorted
mem-sorted q [] = refl
mem-sorted q (x ∷ xs) = ground (arith, mem-sorted q xs, mem-insert_id q x (sorted xs))

mem-sorted-difference :
    (q : ℕ) (xs ys : List ℕ) → mem q (sorted (difference xs ys)) ≡ (mem q xs && not (mem q ys))
unfolding difference
mem-sorted-difference q xs ys =
    mem-sorted q (difference xs ys) ∙ mem-keep q (λ k. not (mem k ys)) xs

-- Every zone that a track is recorded to be inside has the time of its entry.
abbrev pub IsSound : ZoneDetector → Type 0
IsSound s = (t z : ℕ) → mem z (zones_inside t s) ≡ true → has_entry t z s ≡ true

enter_all-inside :
    (now a : ℕ) (bs : List ℕ) (s : ZoneDetector) → (enter_all now a bs s).0.inside ≡ s.inside
unfolding enter_all enter
enter_all-inside now a [] s = refl
enter_all-inside now a (b ∷ bs) s = enter_all-inside now a bs (enter now a b s)

exit_all-inside :
    (now a : ℕ) (bs : List ℕ) (s : ZoneDetector) → (exit_all now a bs s).0.inside ≡ s.inside
unfolding exit_all exit
exit_all-inside now a [] s = refl
exit_all-inside now a (b ∷ bs) s = exit_all-inside now a bs (exit a b s)

dwell-inside :
    (cfg : Config) (now a b : ℕ) (s : ZoneDetector) → (dwell cfg now a b s).0.inside ≡ s.inside
unfolding dwell
dwell-inside cfg now a b s = elim (Option-cases (entry_of (a, b) s.entry_ts)) [
  | inl e ↦ rw (e, dwell) refl
  | inr (entry, e) ↦ rw (e, dwell) (ground arith)
]

dwell_all-inside :
    (cfg : Config) (now a : ℕ) (bs : List ℕ) (s : ZoneDetector)
    → (dwell_all cfg now a bs s).0.inside ≡ s.inside
unfolding dwell_all
dwell_all-inside cfg now a [] s = refl
dwell_all-inside cfg now a (b ∷ bs) s =
    dwell_all-inside cfg now a bs (dwell cfg now a b s).0 ∙ dwell-inside cfg now a b s

-- The state before the loop of dwells.
abbrev moved : ℕ → ℕ → List ℕ → ZoneDetector → ZoneDetector
unfolding enter_all
moved now a current s =
    let previous = zones_inside a s in
    (exit_all now a (sorted (difference previous current))
      (enter_all now a (sorted (difference current previous)) s).0).0

moved-entry :
    (t z now a : ℕ) (current : List ℕ) (s : ZoneDetector)
    → IsSound s
    → (if t == a then mem z current else mem z (zones_inside t s)) ≡ true
    → has_entry t z (moved now a current s) ≡ true
unfolding moved
moved-entry t z now a current s h m =
    let previous = zones_inside a s in
    let entered = (enter_all now a (sorted (difference current previous)) s).0 in
    ground (
      arith,
      m,
      h t z,
      exit_all-entry t z now a (sorted (difference previous current)) entered,
      enter_all-entry t z now a (sorted (difference current previous)) s,
      mem-sorted-difference z current previous,
      mem-sorted-difference z previous current,
    )

lookup_inside :
    (t a : ℕ) (current : List ℕ) (s : ZoneDetector)
    → zones_inside t (record s { inside = insert a current s.inside })
      ≡ (if t == a then current else zones_inside t s)
unfolding zones_inside
lookup_inside t a current s = ground (arith, lookup-insert t a current s.inside)

zones_inside-eq :
    (q : ℕ) (s s' : ZoneDetector) → s.inside ≡ s'.inside → zones_inside q s ≡ zones_inside q s'
unfolding zones_inside
zones_inside-eq q s s' e =
    ap (λ x. elim (lookup {V = List ℕ} q x) as (λ o. List ℕ) [ none ↦ [] | some zs ↦ zs ]) e

-- What one object of an update does to the stays of every track.
pub watch-stays :
    (cfg : Config) (t z now a : ℕ) (current : List ℕ) (s : ZoneDetector)
    → IsSound s
    → let r = watch cfg now a current s in
      IsSound r.0 × (owed t z r.0 + dwells t z r.1 ≤ owed t z s + enters t z r.1)
unfolding watch moved
watch-stays cfg t z now a current s h =
    let previous = zones_inside a s in
    let came = sorted (difference current previous) in
    let went = sorted (difference previous current) in
    let entered = enter_all now a came s in
    let exited = exit_all now a went entered.0 in
    let present : (b : ℕ) → mem b (sorted current) ≡ true → has_entry a b exited.0 ≡ true =
      λ b m. moved-entry a b now a current s h (ground (arith, m, mem-sorted b current)) in
    let dwelt = dwell_all cfg now a (sorted current) exited.0 in
    let loop = dwell_all-owed cfg t z now a (sorted current) exited.0 present in
    let same_inside : dwelt.0.inside ≡ s.inside =
      dwell_all-inside cfg now a (sorted current) exited.0
      ∙ exit_all-inside now a went entered.0
      ∙ enter_all-inside now a came s in
    let result = watch cfg now a current s in
    let all = entered.1 ++ exited.1 ++ dwelt.1 in
    let told : owed t z dwelt.0 + dwells t z all ≤ owed t z s + enters t z all = omega (
      arith,
      loop.0,
      enter_all-owed t z now a came s,
      exit_all-owed t z now a went entered.0,
      dwells-append t z (entered.1 ++ exited.1) dwelt.1,
      dwells-append t z entered.1 exited.1,
      enters-append t z (entered.1 ++ exited.1) dwelt.1,
      enters-append t z entered.1 exited.1,
    ) in
    let inside_then : (q : ℕ)
        → zones_inside q result.0 ≡ (if q == a then current else zones_inside q s) =
      λ q.
        ground
          (arith, lookup_inside q a current dwelt.0, zones_inside-eq q dwelt.0 s same_inside) in
    (
      λ q y m.
          ap (λ x. is_some (entry_of (q, y) x)) loop.1
          ∙ moved-entry q y now a current s h (ground (arith, m, inside_then q)),
      told,
    )
