-- ===== src/Stationary/Latch.antt =====
-- The detector of stationary objects of inference/events/detectors.py, track by track.
use omnitrack_ai_platform.Prelude.{
  ℕ, ◌≡◌, refl, ap, ◌∙◌, subst, inl, inr, Bool, true, false, not, ◌&&◌, Option, none, some, List,
  [], ◌∷◌, ◌++◌, map, arith, ltb, leb, ◌==◌, if◌then◌else◌, Bool-cases, Option-cases, is_some, keep,
  All, mem, mem-append,
}
use omnitrack_ai_platform.Prelude.Dict.{HasOnce, mem-keep}
use omnitrack_ai_platform.Tracker.{TrackedObject}
use omnitrack_ai_platform.Stationary.{EventEngineConfig}
use omnitrack_ai_platform.Stationary.{discard, inspect, is_active, trajectory_spread}
use omnitrack_ai_platform.Stationary.{inspect_all}
use omnitrack_ai_platform.Stationary.{active_objects, cleanup, frame, update_latches}

abbrev pub ids : List TrackedObject → List ℕ
ids = map (λ t. t.track_id)

unfoldable pub find : ℕ → List TrackedObject → Option TrackedObject
find q [] = none
find q (t ∷ ts) = if q == t.track_id then some t else find q ts

-- One track's latch in a frame that shows the track active with this spread: the latch after the
-- frame, and whether an event is raised.
unfoldable pub latch : EventEngineConfig → Bool → Option ℕ → Bool × Bool
latch cfg held none = (held, false)
latch cfg true (some spread) = (not (ltb cfg.stationary_clear_spread_px spread), false)
latch cfg false (some spread) =
    (leb spread cfg.stationary_max_spread_px, leb spread cfg.stationary_max_spread_px)

-- A track that is not in the frame loses its latch, and one that is lost keeps it.
unfoldable pub observe : EventEngineConfig → Bool → Option TrackedObject → Bool × Bool
unfolding latch is_active trajectory_spread
observe cfg held none = (false, false)
observe cfg held (some t) =
    if is_active t then latch cfg held (trajectory_spread cfg t) else (held, false)

inspect_self :
    (cfg : EventEngineConfig) (latched : List ℕ) (t : TrackedObject)
    → (mem t.track_id (inspect cfg latched t).0
        ≡ (latch cfg (mem t.track_id latched) (trajectory_spread cfg t)).0)
      × (mem t.track_id (inspect cfg latched t).1
          ≡ (latch cfg (mem t.track_id latched) (trajectory_spread cfg t)).1)
unfolding inspect latch discard mem
inspect_self cfg latched t =
    ground (arith, mem-keep t.track_id (λ k. not (t.track_id == k)) latched)

inspect_other :
    (cfg : EventEngineConfig) (latched : List ℕ) (t : TrackedObject) (q : ℕ)
    → (q == t.track_id) ≡ false
    → (mem q (inspect cfg latched t).0 ≡ mem q latched) × (mem q (inspect cfg latched t).1 ≡ false)
unfolding inspect discard mem
inspect_other cfg latched t q ne = ground (arith, mem-keep q (λ k. not (t.track_id == k)) latched)

find_absent : (q : ℕ) (ts : List TrackedObject) → mem q (ids ts) ≡ false → find q ts ≡ none
unfolding find mem
find_absent q [] h = refl
find_absent q (t ∷ ts) h = ground (arith, find_absent q ts)

find_present : (q : ℕ) (ts : List TrackedObject) → is_some (find q ts) ≡ mem q (ids ts)
unfolding find mem
find_present q [] = refl
find_present q (t ∷ ts) = ground (arith, find_present q ts)

-- What a list of active objects does to one track's latch.
latch_in : EventEngineConfig → Bool → Option TrackedObject → Bool × Bool
latch_in cfg held none = (held, false)
latch_in cfg held (some t) = latch cfg held (trajectory_spread cfg t)

inspect_all-latch :
    (cfg : EventEngineConfig) (latched : List ℕ) (ts : List TrackedObject) (q : ℕ)
    → HasOnce (ids ts)
    → (mem q (inspect_all cfg latched ts).0 ≡ (latch_in cfg (mem q latched) (find q ts)).0)
      × (mem q (inspect_all cfg latched ts).1 ≡ (latch_in cfg (mem q latched) (find q ts)).1)
unfolding inspect_all latch_in find mem
inspect_all-latch cfg latched [] q h = (refl, refl)
inspect_all-latch cfg latched (t ∷ ts) q h =
    let first = inspect cfg latched t in
    let rest = inspect_all-latch cfg first.0 ts q h.1 in
    elim (Bool-cases (q == t.track_id)) [
      | inl e ↦
          let same : q ≡ t.track_id = ground arith in
          let gone : find q ts ≡ none = find_absent q ts (rw same h.0) in
          let self = inspect_self cfg latched t in
          let a : mem q (inspect_all cfg first.0 ts).0 ≡ mem q first.0 =
            ground (arith, rest.0, gone) in
          let b : mem q (inspect_all cfg first.0 ts).1 ≡ false = ground (arith, rest.1, gone) in
          let rest_l = inspect_all cfg first.0 ts in
          let a' : mem t.track_id rest_l.0 ≡ mem t.track_id first.0 =
            subst (λ x. mem x rest_l.0 ≡ mem x first.0) same a in
          let b' : mem t.track_id rest_l.1 ≡ false = subst (λ x. mem x rest_l.1 ≡ false) same b in
          let two : mem t.track_id (first.1 ++ rest_l.1) ≡ mem t.track_id first.1 =
            mem-append t.track_id first.1 rest_l.1 ∙ ground (arith, b') in
          rw (e, same) (a' ∙ self.0, two ∙ self.1)
      | inr e ↦
          let other = inspect_other cfg latched t q e in
          (
            ground (arith, rest.0, other.0),
            ground (arith, rest.1, other.1, mem-append q first.1 (inspect_all cfg first.0 ts).1),
          )
    ]

mem-ids-keep :
    (q : ℕ) (p : TrackedObject → Bool) (ts : List TrackedObject)
    → mem q (ids ts) ≡ false
    → mem q (ids (keep p ts)) ≡ false
unfolding mem
mem-ids-keep q p [] h = refl
mem-ids-keep q p (t ∷ ts) h = ground (arith, mem-ids-keep q p ts)

keep_tracks-HasOnce :
    (p : TrackedObject → Bool) (ts : List TrackedObject)
    → HasOnce (ids ts)
    → HasOnce (ids (keep p ts))
keep_tracks-HasOnce p [] h = tt
keep_tracks-HasOnce p (t ∷ ts) h =
    ground (arith, keep_tracks-HasOnce p ts h.1, mem-ids-keep t.track_id p ts h.0)

find-keep :
    (q : ℕ) (p : TrackedObject → Bool) (ts : List TrackedObject)
    → HasOnce (ids ts)
    → find q (keep p ts)
      ≡ (elim (find q ts) [ none ↦ none | some t ↦ (if p t then some t else none) ])
unfolding find
find-keep q p [] h = refl
find-keep q p (t ∷ ts) h = elim (Bool-cases (q == t.track_id)) [
  | inl e ↦
      let same : t.track_id ≡ q = ground arith in
      let gone = find_absent q (keep p ts) (mem-ids-keep q p ts (rw (← same) h.0)) in
      ground (arith, gone)
  | inr e ↦ ground (arith, find-keep q p ts h.1)
]

update_latches-latch :
    (cfg : EventEngineConfig) (latched : List ℕ) (ts : List TrackedObject) (q : ℕ)
    → HasOnce (ids ts)
    → (mem q (update_latches cfg latched ts).0
        ≡ (latch_in cfg (mem q latched) (find q (active_objects ts))).0)
      × (mem q (update_latches cfg latched ts).1
          ≡ (latch_in cfg (mem q latched) (find q (active_objects ts))).1)
unfolding update_latches active_objects
update_latches-latch cfg latched ts q h =
    inspect_all-latch cfg latched (keep is_active ts) q (keep_tracks-HasOnce is_active ts h)

latch_in-observe :
    (cfg : EventEngineConfig) (held : Bool) (q : ℕ) (ts : List TrackedObject)
    → HasOnce (ids ts)
    → (((latch_in cfg held (find q (active_objects ts))).0 && is_some (find q ts))
        ≡ (observe cfg held (find q ts)).0)
      × ((latch_in cfg held (find q (active_objects ts))).1 ≡ (observe cfg held (find q ts)).1)
unfolding latch_in active_objects observe
latch_in-observe cfg held q ts h = elim (Option-cases (find q ts)) [
  | inl e ↦
      let gone : find q (keep is_active ts) ≡ none = ground (arith, find-keep q is_active ts h) in
      rw (gone, e) (ground arith, refl)
  | inr (t, e) ↦ elim (Bool-cases (is_active t)) [
    | inl a ↦
        let found : find q (keep is_active ts) ≡ some t =
          ground (arith, find-keep q is_active ts h) in
        rw (found, e, a) (ground arith, refl)
    | inr a ↦
        let gone : find q (keep is_active ts) ≡ none = ground (arith, find-keep q is_active ts h) in
        rw (gone, e, a) (ground arith, refl)
  ]
]

frame-observe :
    (cfg : EventEngineConfig) (latched : List ℕ) (ts : List TrackedObject) (q : ℕ)
    → HasOnce (ids ts)
    → (mem q (frame cfg latched ts).0 ≡ (observe cfg (mem q latched) (find q ts)).0)
      × (mem q (frame cfg latched ts).1 ≡ (observe cfg (mem q latched) (find q ts)).1)
unfolding frame cleanup
frame-observe cfg latched ts q h =
    let u = update_latches-latch cfg latched ts q h in
    let o = latch_in-observe cfg (mem q latched) q ts h in
    (
      mem-keep q (λ k. mem k (ids ts)) (update_latches cfg latched ts).0
          ∙ ground (arith, u.0, find_present q ts)
          ∙ o.0,
      u.1 ∙ o.1,
    )

-- The events of the detector over some frames, and those of the latch of one track.
unfoldable pub raises : EventEngineConfig → List ℕ → List (List TrackedObject) → List (List ℕ)
unfolding frame
raises cfg latched [] = []
raises cfg latched (ts ∷ frames) = let r = frame cfg latched ts in r.1 ∷ raises cfg r.0 frames

unfoldable pub watches : EventEngineConfig → ℕ → Bool → List (List TrackedObject) → List Bool
unfolding observe find
watches cfg q held [] = []
watches cfg q held (ts ∷ frames) =
    let r = observe cfg held (find q ts) in r.1 ∷ watches cfg q r.0 frames

-- Over any frames, each with at most one track of an id, the frames in which the detector reports a
-- track are those in which a latch of that track alone would raise: it is set, with a report, where
-- the spread is small, cleared where the spread is large or the track is not in the frame, and left
-- as it is where the track is lost. The tracks do not disturb each other.
pub raises-watches :
    (cfg : EventEngineConfig) (q : ℕ) (latched : List ℕ) (frames : List (List TrackedObject))
    → All (λ ts. HasOnce (ids ts)) frames
    → map (λ events. mem q events) (raises cfg latched frames)
      ≡ watches cfg q (mem q latched) frames
unfolding raises watches
raises-watches cfg q latched [] h = refl
raises-watches cfg q latched (ts ∷ frames) h =
    let r = frame-observe cfg latched ts q h.0 in
    let rest = raises-watches cfg q (frame cfg latched ts).0 frames h.1 in
    ap (λ b. b ∷ map (λ events. mem q events) (raises cfg (frame cfg latched ts).0 frames)) r.1
    ∙ ap (λ bs. (observe cfg (mem q latched) (find q ts)).1 ∷ bs)
        (rest ∙ ap (λ b. watches cfg q b frames) r.0)

-- A frame that gives a latched track no reason to be armed again.
unfoldable pub stays : EventEngineConfig → ℕ → List TrackedObject → Bool
unfolding find is_active trajectory_spread
stays cfg q ts = elim (find q ts) [
  | none ↦ false
  | some t ↦
      if is_active t
      then (elim (trajectory_spread cfg t) [
        | none ↦ true
        | some spread ↦ leb spread cfg.stationary_clear_spread_px
      ])
      else true
]

observe-stays :
    (cfg : EventEngineConfig) (q : ℕ) (ts : List TrackedObject)
    → stays cfg q ts ≡ true
    → observe cfg true (find q ts) ≡ (true, false)
unfolding stays observe latch
observe-stays cfg q ts h = elim (Option-cases (find q ts)) [
  | inl e ↦ ground arith
  | inr (t, e) ↦ elim (Bool-cases (is_active t)) [
    | inl a ↦ elim (Option-cases (trajectory_spread cfg t)) [
      | inl s ↦ rw (e, a, s) refl
      | inr (n, s) ↦
          let near : ltb cfg.stationary_clear_spread_px n ≡ false = ground arith in
          rw (e, a, s, near) refl
    ]
    | inr a ↦ rw (e, a) refl
  ]
]

watches_quiet :
    (cfg : EventEngineConfig) (q : ℕ) (frames : List (List TrackedObject))
    → All (λ ts. stays cfg q ts ≡ true) frames
    → watches cfg q true frames ≡ map (λ ts. false) frames
unfolding watches
watches_quiet cfg q [] h = refl
watches_quiet cfg q (ts ∷ frames) h =
    rw (observe-stays cfg q ts h.0) (ap (λ bs. false ∷ bs) (watches_quiet cfg q frames h.1))

-- A track that is latched is not reported again in frames that keep it, each time lost, with too
-- short a trajectory, or with a spread that is not beyond the clearing threshold.
pub latched_quiet :
    (cfg : EventEngineConfig) (q : ℕ) (latched : List ℕ) (frames : List (List TrackedObject))
    → All (λ ts. HasOnce (ids ts)) frames
    → All (λ ts. stays cfg q ts ≡ true) frames
    → mem q latched ≡ true
    → map (λ events. mem q events) (raises cfg latched frames) ≡ map (λ ts. false) frames
latched_quiet cfg q latched frames h k m =
    raises-watches cfg q latched frames h
    ∙ ap (λ b. watches cfg q b frames) m
    ∙ watches_quiet cfg q frames k
