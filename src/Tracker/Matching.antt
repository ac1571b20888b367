-- ===== src/Tracker/Matching.antt =====
-- The matching of inference/tracker.py: no better pair is passed over, and nothing is matched twice.

-- Whether an assigned pair that is no longer shares the track or the detection of `p`.
use omnitrack_ai_platform.Prelude.{
  ℕ, zero, suc, ◌+◌, ◌≤◌, ◌≡◌, inl, inr, Bool, true, false, ◌&&◌, ◌||◌, some, List, [], ◌∷◌, ◌++◌,
  arith, ltb, leb, ◌==◌, if◌then◌else◌, Bool-cases, All, mem,
}
use omnitrack_ai_platform.Tracker.{Pair}
use omnitrack_ai_platform.Tracker.{insert_pair, is_before, sort}
use omnitrack_ai_platform.Tracker.{TrackingConfig, distance_pairs, entry_at, row}

unfoldable pub is_covered : Pair → List Pair → Bool
is_covered p [] = false
is_covered p (q ∷ qs) =
    (leb q.length_of p.length_of && (q.track_idx == p.track_idx || q.det_idx == p.det_idx))
    || is_covered p qs

-- `p` is out of reach, meets an index that is taken, or is covered by an assigned pair.
unfoldable pub is_settled : ℕ → List ℕ → List ℕ → List Pair → Pair → Bool
unfolding is_covered mem
is_settled threshold tracks dets out p =
    ltb threshold p.length_of
    || (mem p.track_idx tracks || (mem p.det_idx dets || is_covered p out))

abbrev pub IsSettled : ℕ → List ℕ → List ℕ → List Pair → Pair → Type 0
IsSettled threshold tracks dets out p = is_settled threshold tracks dets out p ≡ true

unfoldable pub IsSorted : List Pair → Type 0
IsSorted [] = Unit {0}
IsSorted (p ∷ ps) = All (λ q. p.length_of ≤ q.length_of) ps × IsSorted ps

All-insert_pair :
    (P : Pair → Type 0) (p : Pair) (qs : List Pair) → P p → All P qs → All P (insert_pair p qs)
unfolding insert_pair
All-insert_pair P p [] h k = (h, tt)
All-insert_pair P p (q ∷ qs) h k = elim (Bool-cases (is_before p q)) [
  | inl e ↦ rw e (h, k)
  | inr e ↦ rw e (k.0, All-insert_pair P p qs h k.1)
]

pub All-weaken :
    (P Q : Pair → Type 0) (ps : List Pair) → ((p : Pair) → P p → Q p) → All P ps → All Q ps
All-weaken P Q [] f h = tt
All-weaken P Q (p ∷ ps) f h = (f p h.0, All-weaken P Q ps f h.1)

insert_pair-IsSorted : (p : Pair) (qs : List Pair) → IsSorted qs → IsSorted (insert_pair p qs)
unfolding insert_pair IsSorted is_before
insert_pair-IsSorted p [] h = (tt, tt)
insert_pair-IsSorted p (q ∷ qs) h = elim (Bool-cases (is_before p q)) [
  | inl e ↦
      let le : p.length_of ≤ q.length_of = ground arith in
      rw e (
        (
          le,
          All-weaken (λ r. q.length_of ≤ r.length_of) (λ r. p.length_of ≤ r.length_of) qs
              (λ r k. omega arith) h.0,
        ),
        h,
      )
  | inr e ↦
      let le : q.length_of ≤ p.length_of = ground arith in
      rw e (
        All-insert_pair (λ r. q.length_of ≤ r.length_of) p qs le h.0,
        insert_pair-IsSorted p qs h.1,
      )
]

pub sort-IsSorted : (ps : List Pair) → IsSorted (sort ps)
unfolding sort IsSorted
sort-IsSorted [] = tt
sort-IsSorted (p ∷ ps) = insert_pair-IsSorted p (sort ps) (sort-IsSorted ps)

All-uninsert_if :
    (P : Pair → Type 0) (p q : Pair) (qs : List Pair) (b : Bool)
    → (All P (insert_pair p qs) → P p × All P qs)
    → All P (if b then p ∷ q ∷ qs else q ∷ insert_pair p qs)
    → P p × (P q × All P qs)
All-uninsert_if P p q qs true f h = h
All-uninsert_if P p q qs false f h = let r = f h.1 in (r.0, (h.0, r.1))

All-uninsert :
    (P : Pair → Type 0) (p : Pair) (qs : List Pair) → All P (insert_pair p qs) → P p × All P qs
unfolding insert_pair
All-uninsert P p [] h = h
All-uninsert P p (q ∷ qs) h = All-uninsert_if P p q qs (is_before p q) (All-uninsert P p qs) h

pub All-unsort : (P : Pair → Type 0) (ps : List Pair) → All P (sort ps) → All P ps
unfolding sort
All-unsort P [] h = tt
All-unsort P (p ∷ ps) h = let r = All-uninsert P p (sort ps) h in (r.0, All-unsort P ps r.1)

All-row :
    (P : Pair → Type 0) (config : TrackingConfig) (i d j k e : ℕ) (es : List ℕ)
    → All P (row config i d j es)
    → entry_at k es ≡ some e
    → P (record { length_of = config.distance d e; track_idx = i; det_idx = j + k })
unfolding row entry_at
All-row P config i d j k e [] h a = cc
All-row P config i d j zero e (x ∷ xs) h a =
    let n : j + 0 ≡ j = omega arith in let x_e : x ≡ e = cc in rw (n, ← x_e) h.0
All-row P config i d j (suc k) e (x ∷ xs) h a =
    let n : j + suc k ≡ j + 1 + k = omega arith in rw n (All-row P config i d (j + 1) k e xs h.1 a)

All-append_left : (P : Pair → Type 0) (xs ys : List Pair) → All P (xs ++ ys) → All P xs
All-append_left P [] ys h = tt
All-append_left P (x ∷ xs) ys h = (h.0, All-append_left P xs ys h.1)

All-append_right : (P : Pair → Type 0) (xs ys : List Pair) → All P (xs ++ ys) → All P ys
All-append_right P [] ys h = h
All-append_right P (x ∷ xs) ys h = All-append_right P xs ys h.1

pub All-distance_pairs :
    (P : Pair → Type 0) (config : TrackingConfig) (i k l d e : ℕ) (ds es : List ℕ)
    → All P (distance_pairs config i ds es)
    → entry_at k ds ≡ some d
    → entry_at l es ≡ some e
    → P (record { length_of = config.distance d e; track_idx = i + k; det_idx = l })
unfolding distance_pairs entry_at
All-distance_pairs P config i k l d e [] es h a b = cc
All-distance_pairs P config i zero l d e (x ∷ xs) es h a b =
    let n : i + 0 ≡ i = omega arith in
    let m : 0 + l ≡ l = omega arith in
    let x_d : x ≡ d = cc in
    let all = All-append_left P (row config i x 0 es) (distance_pairs config (i + 1) xs es) h in
    let found = All-row P config i x 0 l e es all b in rw (n, ← x_d, ← m) found
All-distance_pairs P config i (suc k) l d e (x ∷ xs) es h a b =
    let n : i + suc k ≡ i + 1 + k = omega arith in
    let all = All-append_right P (row config i x 0 es) (distance_pairs config (i + 1) xs es) h in
    rw n (All-distance_pairs P config (i + 1) k l d e xs es all a b)
