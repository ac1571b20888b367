-- ===== src/ModelManager/Eviction.antt =====
-- The eviction loop of backend/model_manager.py, against a direct description of what it drops.

-- The pool without its first `k` idle entries.
use omnitrack_ai_platform.Prelude.{
  ℕ, zero, suc, ◌+◌, ◌-◌, ◌≤◌, ◌<◌, ◌≡◌, refl, sym, ◌⊎◌, inl, inr, none, some, List, [], ◌∷◌, arith,
  ltb, ◌==◌, if◌then◌else◌, tests, Bool-cases, Option-cases, length, All,
}
use omnitrack_ai_platform.ModelManager.{Entry, Manager, without, victim, evict_rounds}
use omnitrack_ai_platform.ModelManager.Pool.{Distinct, victim-get}
use omnitrack_ai_platform.ModelManager.Pool.{Distinct-without, length-without}
use omnitrack_ai_platform.ModelManager.{evict, get}

unfoldable pub drop_idle : ℕ → List Entry → List Entry
drop_idle zero es = es
drop_idle (suc k) [] = []
drop_idle (suc k) (e ∷ es) = if e.refcount == 0 then drop_idle k es else e ∷ drop_idle (suc k) es

drop_idle-zero : (es : List Entry) → drop_idle 0 es ≡ es
unfolding drop_idle
drop_idle-zero es = refl

drop_idle-victim-none : (k : ℕ) (es : List Entry) → victim es ≡ none → drop_idle k es ≡ es
unfolding drop_idle victim
drop_idle-victim-none zero es h = refl
drop_idle-victim-none (suc k) [] h = refl
drop_idle-victim-none (suc k) (e ∷ es) h = ground (arith, drop_idle-victim-none (suc k) es)

drop_idle-without :
    (k : ℕ) (es : List Entry) (e : Entry)
    → Distinct es
    → victim es ≡ some e
    → drop_idle k (without e.signature es) ≡ drop_idle (suc k) es
unfolding drop_idle victim without
drop_idle-without k [] e d h = cc
drop_idle-without zero (x ∷ es) e d h =
    ground (arith, drop_idle-without zero es e d.1, victim-get es e d.1)
drop_idle-without (suc k) (x ∷ es) e d h =
    ground (arith, drop_idle-without (suc k) es e d.1, victim-get es e d.1)

evict_rounds-drop_idle :
    (fuel : ℕ) (m : Manager)
    → Distinct m.entries
    → length m.entries ≤ fuel
    → 0 < m.max_loaded
    → (evict_rounds fuel m).entries ≡ drop_idle (length m.entries + 1 - m.max_loaded) m.entries
unfolding evict_rounds
evict_rounds-drop_idle zero m d h p =
    let k : length m.entries + 1 - m.max_loaded ≡ 0 = omega arith in
    rw k (sym (drop_idle-zero m.entries))
evict_rounds-drop_idle (suc fuel) m d h p = elim (Option-cases (victim m.entries)) [
  | inl e ↦ rw (drop_idle-victim-none _ m.entries e) (ground arith)
  | inr (v, e) ↦
      let (found, idle) = victim-get m.entries v d e in
      let shorter = length-without v.signature m.entries v found in
      elim (Bool-cases (ltb (length m.entries) m.max_loaded)) [
        | inl roomy ↦
            let k : length m.entries + 1 - m.max_loaded ≡ 0 = omega tests in
            rw (roomy, k) (sym (drop_idle-zero m.entries))
        | inr full ↦
            let k : length m.entries + 1 - m.max_loaded
                ≡ suc (length (without v.signature m.entries) + 1 - m.max_loaded) =
              ground arith in
            rw (full, e, evict_rounds, k, ← drop_idle-without _ m.entries v d e)
              (evict_rounds-drop_idle fuel _ (Distinct-without v.signature m.entries d)
                (omega arith) p)
      ]
]

-- The eviction loop drops the idle entries from the least recently used end, as many as it takes to
-- make room for one more entry below the cap, or all of them, and no other entry; the pool holds
-- each signature once and the cap is positive.
pub evict-drop_idle :
    (m : Manager)
    → Distinct m.entries
    → 0 < m.max_loaded
    → (evict m).entries ≡ drop_idle (length m.entries + 1 - m.max_loaded) m.entries
unfolding evict
evict-drop_idle m d p = evict_rounds-drop_idle (length m.entries) m d (omega arith) p

-- Either `k` entries are dropped, or no idle one is left.
pub length-drop_idle :
    (k : ℕ) (es : List Entry)
    → (length (drop_idle k es) + k ≡ length es)
      ⊎ (All (λ e. 0 < e.refcount) (drop_idle k es) × (length (drop_idle k es) ≤ length es))
unfolding drop_idle
length-drop_idle zero es = inl (omega arith)
length-drop_idle (suc k) [] = inr (tt, omega arith)
length-drop_idle (suc k) (e ∷ es) =
    ground (arith, length-drop_idle k es, length-drop_idle (suc k) es)

-- After an eviction there is room below the cap, or every entry that is left is in use.
evict_room :
    (m : Manager)
    → Distinct m.entries
    → 0 < m.max_loaded
    → (length (evict m).entries < m.max_loaded) ⊎ All (λ e. 0 < e.refcount) (evict m).entries
evict_room m d p =
    rw (evict-drop_idle m d p)
      (ground (arith, length-drop_idle (length m.entries + 1 - m.max_loaded) m.entries))

pub get-drop_idle-none :
    (q k : ℕ) (es : List Entry) → get q es ≡ none → get q (drop_idle k es) ≡ none
unfolding get drop_idle
get-drop_idle-none q zero es h = h
get-drop_idle-none q (suc k) [] h = h
get-drop_idle-none q (suc k) (e ∷ es) h =
    ground (arith, get-drop_idle-none q k es, get-drop_idle-none q (suc k) es)

-- An entry in use stays.
pub get-drop_idle_held :
    (q k : ℕ) (es : List Entry) (e : Entry)
    → get q es ≡ some e
    → 0 < e.refcount
    → get q (drop_idle k es) ≡ some e
unfolding get drop_idle
get-drop_idle_held q zero es e h p = h
get-drop_idle_held q (suc k) [] e h p = cc
get-drop_idle_held q (suc k) (x ∷ es) e h p =
    ground (arith, get-drop_idle_held q k es e, get-drop_idle_held q (suc k) es e)

-- What is found after an eviction was there before.
pub get-drop_idle_sub :
    (q k : ℕ) (es : List Entry) (e : Entry)
    → Distinct es
    → get q (drop_idle k es) ≡ some e
    → get q es ≡ some e
unfolding get drop_idle
get-drop_idle_sub q zero es e d h = h
get-drop_idle_sub q (suc k) [] e d h = h
get-drop_idle_sub q (suc k) (x ∷ es) e d h = ground (
  arith,
  get-drop_idle_sub q k es e d.1,
  get-drop_idle_sub q (suc k) es e d.1,
  get-drop_idle-none q k es,
)

pub Distinct-drop_idle : (k : ℕ) (es : List Entry) → Distinct es → Distinct (drop_idle k es)
unfolding drop_idle
Distinct-drop_idle zero es d = d
Distinct-drop_idle (suc k) [] d = d
Distinct-drop_idle (suc k) (x ∷ es) d = ground (
  arith,
  Distinct-drop_idle k es d.1,
  Distinct-drop_idle (suc k) es d.1,
  get-drop_idle-none x.signature (suc k) es d.0,
)
