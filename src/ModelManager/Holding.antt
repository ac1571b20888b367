-- ===== src/ModelManager/Holding.antt =====
-- What the calls on the pool do to the references of every signature.
use omnitrack_ai_platform.Prelude.{
  ℕ, zero, suc, ◌+◌, ◌-◌, ◌<◌, ◌≡◌, refl, inl, inr, Bool, true, ◌&&◌, none, some, List, [], ◌∷◌,
  ◌++◌, arith, ◌==◌, if◌then◌else◌, Option-cases, is_some,
}
use omnitrack_ai_platform.ModelManager.{Manager}
use omnitrack_ai_platform.ModelManager.{
  Entry, acquire, shutdown, drop_reference, evict, evict_rounds, get, release, victim, warm,
  without,
}
use omnitrack_ai_platform.ModelManager.Pool.{Distinct, references}
use omnitrack_ai_platform.ModelManager.Eviction.{
  Distinct-drop_idle, evict-drop_idle, get-drop_idle_held, get-drop_idle-none, get-drop_idle_sub,
}
use omnitrack_ai_platform.ModelManager.{load_entry}
use omnitrack_ai_platform.ModelManager.Pool.{
  get-append, get-signature, get-without_ne, get-without_self,
}

module _ (m : Manager) (d : Distinct m.entries) (p : 0 < m.max_loaded) where
  pub evict-Distinct : Distinct (evict m).entries
  evict-Distinct = rw (evict-drop_idle m d p) (Distinct-drop_idle _ m.entries d)

  pub get-evict-none : (q : ℕ) → get q m.entries ≡ none → get q (evict m).entries ≡ none
  get-evict-none q h = rw (evict-drop_idle m d p) (get-drop_idle-none q _ m.entries h)

  pub get-evict_held :
      (q : ℕ) (e : Entry)
      → get q m.entries ≡ some e
      → 0 < e.refcount
      → get q (evict m).entries ≡ some e
  get-evict_held q e h r = rw (evict-drop_idle m d p) (get-drop_idle_held q _ m.entries e h r)

  pub get-evict_sub :
      (q : ℕ) (e : Entry) → get q (evict m).entries ≡ some e → get q m.entries ≡ some e
  get-evict_sub q e h = get-drop_idle_sub q _ m.entries e d (rw (evict-drop_idle m d p) at h)

  pub references-evict : (q : ℕ) → references q (evict m).entries ≡ references q m.entries
  unfolding references
  references-evict q = elim (Option-cases (get q m.entries)) [
    | inl e ↦ ground (arith, get-evict-none q e)
    | inr (x, e) ↦ elim (Option-cases (get q (evict m).entries)) [
      | inl gone ↦ ground (arith, get-evict_held q x e)
      | inr (y, stays) ↦ ground (arith, get-evict_sub q y stays)
    ]
  ]

pub max_loaded-evict_rounds :
    (fuel : ℕ) (m : Manager) → (evict_rounds fuel m).max_loaded ≡ m.max_loaded
unfolding evict_rounds
max_loaded-evict_rounds zero m = refl
max_loaded-evict_rounds (suc fuel) m = elim (Option-cases (victim m.entries)) [
  | inl e ↦ rw (e, evict_rounds) (ground arith)
  | inr (v, e) ↦
      rw (e, evict_rounds)
        (ground (
          arith,
          max_loaded-evict_rounds fuel (record m {
            entries = without v.signature m.entries;
            unloaded = v.detector ∷ m.unloaded;
          }),
        ))
]

pub data Op : Type 0 where
  acquires warms : ℕ → Bool → Op
  releases : ℕ → Op
  shuts : Op

unfoldable pub step : Manager → Op → Manager
step m (acquires s built) = (acquire m s built).0
step m (releases s) = release m s
step m (warms s built) = warm m s built
step m shuts = shutdown m

-- Whether the call returns; only an `acquire` is asked for this.
unfoldable pub granted : Manager → Op → Bool
granted m (acquires s built) = is_some (acquire m s built).1
granted m (releases s) = true
granted m (warms s built) = true
granted m shuts = true

-- How one call, which hands a detector out or raises, changes the count of references of a signature.
unfoldable pub counted : ℕ → Op → Bool → ℕ → ℕ
counted q (acquires s built) out n = if (q == s) && out then n + 1 else n
counted q (releases s) out n = if q == s then n - 1 else n
counted q (warms s built) out n = n
counted q shuts out n = 0

pub get-drop_reference :
    (q s : ℕ) (es : List Entry)
    → get q (drop_reference s es) ≡ (elim (get q es) [
      | none ↦ none
      | some e ↦ some (if q == s then record e { refcount = e.refcount - 1 } else e)
    ])
unfolding get drop_reference
get-drop_reference q s [] = refl
get-drop_reference q s (e ∷ es) = ground (arith, get-drop_reference q s es)

references-append :
    (q : ℕ) (es : List Entry) (e : Entry)
    → get e.signature es ≡ none
    → references q (es ++ e ∷ []) ≡ (if q == e.signature then e.refcount else references q es)
unfolding references
references-append q es e h = ground (arith, get-append q es e)

references-moved :
    (q s : ℕ) (es : List Entry) (e : Entry)
    → Distinct es
    → e.signature ≡ s
    → references q (without s es ++ e ∷ []) ≡ (if q == s then e.refcount else references q es)
unfolding references
references-moved q s es e d h =
    ground (arith, get-append q (without s es) e, get-without_self s es d, get-without_ne q s es)

references-none : (q : ℕ) (es : List Entry) → get q es ≡ none → references q es ≡ 0
unfolding references
references-none q es h = rw (h, references)

references-some :
    (q : ℕ) (es : List Entry) (e : Entry) → get q es ≡ some e → references q es ≡ e.refcount
unfolding references
references-some q es e h = rw (h, references)

references-drop_reference :
    (q s : ℕ) (es : List Entry)
    → references q (drop_reference s es) ≡ (if q == s then references q es - 1 else references q es)
unfolding references
references-drop_reference q s es = ground (arith, get-drop_reference q s es)

-- Whatever is called, the references of every signature change as the calls say: an `acquire` that
-- returns adds one to its signature, a `release` takes one away and stops at 0, `shutdown` takes all,
-- `warm` and a call whose load fails change none, and no other signature is touched, whichever models
-- are evicted on the way. The pool holds each signature once and the cap is positive.
pub references-step :
    (q : ℕ) (m : Manager) (op : Op)
    → Distinct m.entries
    → 0 < m.max_loaded
    → references q (step m op).entries ≡ counted q op (granted m op) (references q m.entries)
unfolding step granted counted acquire release warm load_entry shutdown references get
references-step q m (acquires s built) d p = elim (Option-cases (get s m.entries)) [
  | inl e ↦ ground (
    arith,
    references-append q (evict m).entries
        (record { signature = s; detector = (evict m).loads; refcount = 1 })
        (get-evict-none m d p s e),
    references-evict m d p q,
    references-none s m.entries e,
  )
  | inr (x, e) ↦ ground (
    arith,
    get-signature s m.entries x e,
    references-some s m.entries x e,
    references-moved q s m.entries (record x { refcount = x.refcount + 1 }) d,
  )
]
references-step q m (releases s) d p = ground (arith, references-drop_reference q s m.entries)
references-step q m (warms s built) d p = elim (Option-cases (get s m.entries)) [
  | inl e ↦ ground (
    arith,
    references-append q (evict m).entries
        (record { signature = s; detector = (evict m).loads; refcount = 0 })
        (get-evict-none m d p s e),
    references-evict m d p q,
    references-none s m.entries e,
  )
  | inr (x, e) ↦ ground (
    arith,
    get-signature s m.entries x e,
    references-some s m.entries x e,
    references-moved q s m.entries x d,
  )
]
references-step q m shuts d p = refl
