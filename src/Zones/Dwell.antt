-- ===== src/Zones/Dwell.antt =====
-- ZoneDetector of inference/events/geometry_detectors.py: the loops of an update on the entries, and
-- the dwells that are owed.

-- A turn of the loop of dwells for a zone that has an entry: the other branch, which the code calls
-- defensive, changes the entries.
use omnitrack_ai_platform.Prelude.{
  ℕ, ◌+◌, ◌≤◌, ◌≡◌, refl, ap, ◌∙◌, inl, inr, true, not, ◌&&◌, ◌||◌, List, [], ◌∷◌, arith, ◌==◌,
  Bool-cases, Option-cases, is_some, mem,
}
use omnitrack_ai_platform.Zones.{
  Config, ZoneDetector, dwell, dwell_all, entry_of, same_key, is_fired,
}
use omnitrack_ai_platform.Zones.Entries.{has_entry, enters, dwells, owed}
use omnitrack_ai_platform.Zones.{enter, enter_all, exit, exit_all}
use omnitrack_ai_platform.Zones.Entries.{
  dwells-append, enters-append, entry_of-drop_entry, entry_of-set_entry,
}

dwell-entry_ts :
    (cfg : Config) (now a b : ℕ) (s : ZoneDetector)
    → has_entry a b s ≡ true
    → (dwell cfg now a b s).0.entry_ts ≡ s.entry_ts
unfolding dwell
dwell-entry_ts cfg now a b s h = elim (Option-cases (entry_of (a, b) s.entry_ts)) [
  | inl e ↦ absurd (ground (arith, e))
  | inr (entry, e) ↦ rw (e, dwell) (ground arith)
]

dwell-owed_self :
    (cfg : Config) (now a b : ℕ) (s : ZoneDetector)
    → has_entry a b s ≡ true
    → let r = dwell cfg now a b s in owed a b r.0 + dwells a b r.1 ≤ owed a b s + enters a b r.1
unfolding dwell is_fired enters dwells
dwell-owed_self cfg now a b s h = elim (Option-cases (entry_of (a, b) s.entry_ts)) [
  | inl e ↦ absurd (ground (arith, e))
  | inr (entry, e) ↦ rw (e, dwell) (ground (arith, e))
]

dwell-owed :
    (cfg : Config) (t z now a b : ℕ) (s : ZoneDetector)
    → has_entry a b s ≡ true
    → let r = dwell cfg now a b s in owed t z r.0 + dwells t z r.1 ≤ owed t z s + enters t z r.1
unfolding dwell is_fired enters dwells
dwell-owed cfg t z now a b s h = elim (Option-cases (entry_of (a, b) s.entry_ts)) [
  | inl e ↦ absurd (ground (arith, e))
  | inr (entry, e) ↦ elim (Bool-cases (same_key (t, z) (a, b))) [
    | inl same ↦
        let here : (t ≡ a) × (z ≡ b) = (ground arith, ground arith) in
        rw (here.0, here.1) (dwell-owed_self cfg now a b s h)
    | inr other ↦ rw (e, dwell) (ground (arith, other))
  ]
]

pub dwell_all-owed :
    (cfg : Config) (t z now a : ℕ) (bs : List ℕ) (s : ZoneDetector)
    → ((b : ℕ) → mem b bs ≡ true → has_entry a b s ≡ true)
    → let r = dwell_all cfg now a bs s in
      (owed t z r.0 + dwells t z r.1 ≤ owed t z s + enters t z r.1) × (r.0.entry_ts ≡ s.entry_ts)
unfolding dwell_all dwells enters mem
dwell_all-owed cfg t z now a [] s h = (omega arith, refl)
dwell_all-owed cfg t z now a (b ∷ bs) s h =
    let first = dwell cfg now a b s in
    let present = h b (ground arith) in
    let kept = dwell-entry_ts cfg now a b s present in
    let rest =
      dwell_all-owed cfg t z now a bs first.0
        (λ c m. ap (λ x. is_some (entry_of (a, c) x)) kept ∙ h c (ground (arith, m))) in
    (
      omega (
        arith,
        rest.0,
        dwell-owed cfg t z now a b s present,
        dwells-append t z first.1 (dwell_all cfg now a bs first.0).1,
        enters-append t z first.1 (dwell_all cfg now a bs first.0).1,
      ),
      rest.1 ∙ kept,
    )

-- The entries after the loops of entries and exits.
pub enter_all-entry :
    (t z now a : ℕ) (bs : List ℕ) (s : ZoneDetector)
    → has_entry t z (enter_all now a bs s).0 ≡ (has_entry t z s || (t == a && mem z bs))
unfolding enter_all enter mem
enter_all-entry t z now a [] s = ground arith
enter_all-entry t z now a (b ∷ bs) s = ground (
  arith,
  enter_all-entry t z now a bs (enter now a b s),
  entry_of-set_entry t z a b now s.entry_ts,
)

pub exit_all-entry :
    (t z now a : ℕ) (bs : List ℕ) (s : ZoneDetector)
    → has_entry t z (exit_all now a bs s).0 ≡ (has_entry t z s && not (t == a && mem z bs))
unfolding exit_all exit mem
exit_all-entry t z now a [] s = ground arith
exit_all-entry t z now a (b ∷ bs) s =
    ground (arith, exit_all-entry t z now a bs (exit a b s), entry_of-drop_entry t z a b s.entry_ts)
