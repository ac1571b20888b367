-- ===== src/ModelManager/Runs.antt =====
-- Sequences of calls on the pool of backend/model_manager.py.
use omnitrack_ai_platform.Prelude.{
  ℕ, ◌+◌, ◌<◌, ◌≡◌, refl, ap, ◌∙◌, ◌≢◌, inl, inr, Bool, some, List, [], ◌∷◌, ◌++◌, arith,
  Option-cases, length,
}
use omnitrack_ai_platform.ModelManager.{Manager}
use omnitrack_ai_platform.ModelManager.{
  Entry, acquire, drop_reference, evict, get, init, load_entry, release, shutdown, warm, without,
}
use omnitrack_ai_platform.ModelManager.Holding.{
  Op, acquires, counted, granted, shuts, evict-Distinct, get-drop_reference, get-evict_held,
  get-evict-none, max_loaded-evict_rounds, references-step, releases, step, warms,
}
use omnitrack_ai_platform.ModelManager.Pool.{
  Distinct, Distinct-append, Distinct-without, get-append, get-signature, get-without_ne,
  get-without_self, references,
}

Distinct-drop_reference : (s : ℕ) (es : List Entry) → Distinct es → Distinct (drop_reference s es)
unfolding drop_reference
Distinct-drop_reference s [] d = d
Distinct-drop_reference s (x ∷ es) d =
    ground (arith, Distinct-drop_reference s es d.1, get-drop_reference x.signature s es)

Distinct-moved :
    (s : ℕ) (es : List Entry) (e : Entry)
    → Distinct es
    → e.signature ≡ s
    → Distinct (without s es ++ e ∷ [])
Distinct-moved s es e d h =
    ground
      (arith, Distinct-append (without s es) e (Distinct-without s es d), get-without_self s es d)

pub step-Distinct :
    (m : Manager) (op : Op) → Distinct m.entries → 0 < m.max_loaded → Distinct (step m op).entries
unfolding step acquire release warm load_entry shutdown
step-Distinct m (acquires s built) d p = elim (Option-cases (get s m.entries)) [
  | inl e ↦ ground (
    arith,
    Distinct-append (evict m).entries
        (record { signature = s; detector = (evict m).loads; refcount = 1 }) (evict-Distinct m d p)
        (get-evict-none m d p s e),
    evict-Distinct m d p,
  )
  | inr (x, e) ↦ ground (
    arith,
    get-signature s m.entries x e,
    Distinct-moved s m.entries (record x { refcount = x.refcount + 1 }) d,
  )
]
step-Distinct m (releases s) d p = Distinct-drop_reference s m.entries d
step-Distinct m shuts d p = tt
step-Distinct m (warms s built) d p = elim (Option-cases (get s m.entries)) [
  | inl e ↦ ground (
    arith,
    Distinct-append (evict m).entries
        (record { signature = s; detector = (evict m).loads; refcount = 0 }) (evict-Distinct m d p)
        (get-evict-none m d p s e),
    evict-Distinct m d p,
  )
  | inr (x, e) ↦ ground (arith, get-signature s m.entries x e, Distinct-moved s m.entries x d)
]

max_loaded-step : (m : Manager) (op : Op) → (step m op).max_loaded ≡ m.max_loaded
unfolding step acquire release warm load_entry shutdown evict
max_loaded-step m (acquires s built) = ground (arith, max_loaded-evict_rounds (length m.entries) m)
max_loaded-step m (releases s) = refl
max_loaded-step m shuts = refl
max_loaded-step m (warms s built) = ground (arith, max_loaded-evict_rounds (length m.entries) m)

unfoldable pub run : Manager → List Op → Manager
run m [] = m
run m (op ∷ ops) = run (step m op) ops

-- The calls with whether they returned.
unfoldable pub log : Manager → List Op → List (Op × Bool)
log m [] = []
log m (op ∷ ops) = (op, granted m op) ∷ log (step m op) ops

unfoldable pub counted_all : ℕ → List (Op × Bool) → ℕ → ℕ
counted_all q [] n = n
counted_all q ((op, out) ∷ ops) n = counted_all q ops (counted q op out n)

run-references :
    (q : ℕ) (m : Manager) (ops : List Op)
    → Distinct m.entries
    → 0 < m.max_loaded
    → references q (run m ops).entries ≡ counted_all q (log m ops) (references q m.entries)
unfolding run log counted_all
run-references q m [] d p = refl
run-references q m (op ∷ ops) d p =
    run-references q (step m op) ops (step-Distinct m op d p) (rw max_loaded-step p)
    ∙ ap (counted_all q (log (step m op) ops)) (references-step q m op d p)

-- From a new pool of any cap, after any calls of `acquire`, `release`, `warm` and `shutdown`, the
-- references on record for every signature are the acquisitions that returned a detector less the
-- releases, since the last `shutdown`, a release at 0 being ignored: no eviction and no load that
-- fails loses a reference or makes one up.
pub references-run-init :
    (max_loaded q : ℕ) (ops : List Op)
    → references q (run (init max_loaded) ops).entries ≡ counted_all q (log (init max_loaded) ops) 0
unfolding init references get
references-run-init max_loaded q ops = run-references q (init max_loaded) ops tt (omega arith)

-- A model in use outlives every call but `shutdown`, also one whose load fails: after the call its
-- signature still finds the same detector, with the references that the call leaves. The pool holds
-- each signature once and the cap is positive.
pub held_stays :
    (q : ℕ) (m : Manager) (op : Op) (e : Entry)
    → Distinct m.entries
    → 0 < m.max_loaded
    → op ≢ shuts
    → get q m.entries ≡ some e
    → 0 < e.refcount
    → get q (step m op).entries
      ≡ some (record e { refcount = counted q op (granted m op) e.refcount })
unfolding step granted counted acquire release warm load_entry
held_stays q m (acquires s built) e d p open_still h r = elim (Option-cases (get s m.entries)) [
  | inl miss ↦ ground (
    arith,
    get-append q (evict m).entries
        (record { signature = s; detector = (evict m).loads; refcount = 1 }),
    get-evict_held m d p q e h r,
  )
  | inr (x, hit) ↦ ground (
    arith,
    get-signature s m.entries x hit,
    get-append q (without s m.entries) (record x { refcount = x.refcount + 1 }),
    get-without_self s m.entries d,
    get-without_ne q s m.entries,
  )
]
held_stays q m (releases s) e d p open_still h r = ground (arith, get-drop_reference q s m.entries)
held_stays q m (warms s built) e d p open_still h r = elim (Option-cases (get s m.entries)) [
  | inl miss ↦ ground (
    arith,
    get-append q (evict m).entries
        (record { signature = s; detector = (evict m).loads; refcount = 0 }),
    get-evict_held m d p q e h r,
  )
  | inr (x, hit) ↦ ground (
    arith,
    get-signature s m.entries x hit,
    get-append q (without s m.entries) x,
    get-without_self s m.entries d,
    get-without_ne q s m.entries,
  )
]
held_stays q m shuts e d p open_still h r = absurd (open_still refl)
