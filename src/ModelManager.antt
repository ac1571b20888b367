-- ===== src/ModelManager.antt =====
-- backend/model_manager.py: the shared, reference-counted pool of detectors, least recently used
-- first. A signature is an opaque key; a detector is named by the number of the load that built it.
use omnitrack_ai_platform.Prelude.{
  ℕ, zero, suc, ◌+◌, ◌-◌, max, Bool, Option, none, some, List, [], ◌∷◌, ◌++◌, map, ltb, ◌==◌,
  if◌then◌else◌, length,
}
pub mod Pool
pub mod Eviction
pub mod Holding
pub mod Runs
mod Tests

-- `_Entry`, with its key in `_entries`.
pub record Entry : Type 0 where
  pub signature : ℕ
  pub detector : ℕ
  pub refcount : ℕ

-- `_max_loaded` and the ordered dictionary `_entries`; `loads` numbers the detectors built and
-- `unloaded` lists the detectors whose references `_unload` has dropped.
pub record Manager : Type 0 where
  pub max_loaded : ℕ
  pub entries : List Entry
  pub loads : ℕ
  pub unloaded : List ℕ

-- `ModelManager(max_loaded)`.
pub init : ℕ → Manager
init max_loaded = record { max_loaded = max max_loaded 1; entries = []; loads = 0; unloaded = [] }

pub get : ℕ → List Entry → Option Entry
get s [] = none
get s (e ∷ es) = if s == e.signature then some e else get s es

-- `_entries.pop(signature)`.
pub without : ℕ → List Entry → List Entry
without s [] = []
without s (e ∷ es) = if s == e.signature then es else e ∷ without s es

-- The search of `_evict_locked`: the first entry that nobody holds.
pub victim : List Entry → Option Entry
victim [] = none
victim (e ∷ es) = if e.refcount == 0 then some e else victim es

-- The loop of `_evict_locked`; every round drops one entry, so the number of entries is fuel enough.
pub evict_rounds : ℕ → Manager → Manager
unfolding victim without
evict_rounds zero m = m
evict_rounds (suc fuel) m =
    if ltb (length m.entries) m.max_loaded then m else (elim (victim m.entries) [
      | none ↦ m
      | some e ↦
          evict_rounds fuel (record m {
            entries = without e.signature m.entries;
            unloaded = e.detector ∷ m.unloaded;
          })
    ])

pub evict : Manager → Manager
unfolding evict_rounds
evict m = evict_rounds (length m.entries) m

-- `_load` and the insertion at the end.
pub load_entry : Manager → ℕ → ℕ → Manager
load_entry m s refcount = record m {
  entries = m.entries ++ record { signature = s; detector = m.loads; refcount = refcount } ∷ [];
  loads = m.loads + 1;
}

-- `acquire`: the pool afterwards and the detector handed out; `none` where the factory raises, after
-- the eviction. `built` is whether a call of the factory returns.
pub acquire : Manager → ℕ → Bool → Manager × Option ℕ
unfolding get without evict load_entry
acquire m s built = elim (get s m.entries) [
  | some e ↦ (
    record m { entries = without s m.entries ++ record e { refcount = e.refcount + 1 } ∷ [] },
    some e.detector,
  )
  | none ↦ if built then (load_entry (evict m) s 1, some (evict m).loads) else (evict m, none)
]

-- `entry.refcount = max(entry.refcount - 1, 0)`, in place.
pub drop_reference : ℕ → List Entry → List Entry
drop_reference s [] = []
drop_reference s (e ∷ es) =
    if s == e.signature
    then record e { refcount = e.refcount - 1 } ∷ es
    else e ∷ drop_reference s es

pub release : Manager → ℕ → Manager
unfolding drop_reference
release m s = record m { entries = drop_reference s m.entries }

pub warm : Manager → ℕ → Bool → Manager
unfolding get without evict load_entry
warm m s built = elim (get s m.entries) [
  | some e ↦ record m { entries = without s m.entries ++ e ∷ [] }
  | none ↦ if built then load_entry (evict m) s 0 else evict m
]

pub shutdown : Manager → Manager
shutdown m = record m { entries = []; unloaded = map (λ e. e.detector) m.entries ++ m.unloaded }

-- `stats()["in_use"]`.
pub in_use : List Entry → ℕ
in_use [] = 0
in_use (e ∷ es) = if ltb 0 e.refcount then suc (in_use es) else in_use es
