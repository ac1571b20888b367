-- ===== src/ModelManager/Pool.antt =====
-- What the pool of backend/model_manager.py promises.
use omnitrack_ai_platform.Prelude.{
  ℕ, ◌+◌, ◌≡◌, refl, ◌≢◌, none, some, List, [], ◌∷◌, ◌++◌, arith, ◌==◌, if◌then◌else◌, is_some,
  length,
}
use omnitrack_ai_platform.ModelManager.{Entry, get, without, victim}

-- The references that are held on a signature.
unfoldable pub references : ℕ → List Entry → ℕ
unfolding get
references s es = elim (get s es) [ none ↦ 0 | some e ↦ e.refcount ]

pub get-append :
    (q : ℕ) (es : List Entry) (e : Entry)
    → get q (es ++ e ∷ [])
      ≡ (if is_some (get q es) then get q es else if q == e.signature then some e else none)
unfolding get
get-append q [] e = ground arith
get-append q (x ∷ es) e = ground (arith, get-append q es e)

pub get-without_ne : (q s : ℕ) (es : List Entry) → q ≢ s → get q (without s es) ≡ get q es
unfolding get without
get-without_ne q s [] h = refl
get-without_ne q s (x ∷ es) h = ground (arith, get-without_ne q s es h)

-- A pool holds each signature once.
abbrev pub Distinct : List Entry → Type 0
Distinct [] = Unit {0}
Distinct (e ∷ es) = (get e.signature es ≡ none) × Distinct es

pub get-without_self : (s : ℕ) (es : List Entry) → Distinct es → get s (without s es) ≡ none
unfolding get without
get-without_self s [] h = refl
get-without_self s (x ∷ es) h = ground (arith, get-without_self s es h.1)

pub Distinct-without : (s : ℕ) (es : List Entry) → Distinct es → Distinct (without s es)
unfolding without
Distinct-without s [] h = tt
Distinct-without s (x ∷ es) h =
    ground (arith, Distinct-without s es h.1, get-without_ne x.signature s es)

pub Distinct-append :
    (es : List Entry) (e : Entry)
    → Distinct es
    → get e.signature es ≡ none
    → Distinct (es ++ e ∷ [])
unfolding get
Distinct-append [] e d h = (refl, tt)
Distinct-append (x ∷ es) e d h =
    ground (arith, Distinct-append es e d.1, get-append x.signature es e)

pub get-signature : (s : ℕ) (es : List Entry) (e : Entry) → get s es ≡ some e → e.signature ≡ s
unfolding get
get-signature s [] e h = cc
get-signature s (x ∷ es) e h = ground (arith, get-signature s es e)

-- The entry to evict is idle and in the pool, and so its signature finds it.
pub victim-get :
    (es : List Entry) (e : Entry)
    → Distinct es
    → victim es ≡ some e
    → (get e.signature es ≡ some e) × (e.refcount ≡ 0)
unfolding victim get
victim-get [] e d h = cc
victim-get (x ∷ es) e d h = ground (arith, victim-get es e d.1)

pub length-without :
    (s : ℕ) (es : List Entry) (e : Entry)
    → get s es ≡ some e
    → length (without s es) + 1 ≡ length es
unfolding get without
length-without s [] e h = cc
length-without s (x ∷ es) e h = ground (arith, length-without s es e)
