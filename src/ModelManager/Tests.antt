-- ===== src/ModelManager/Tests.antt =====
-- The pool's theorems at concrete inputs.
use omnitrack_ai_platform.Prelude.{
  ◌+◌, ◌-◌, ◌≡◌, refl, true, false, some, List, [], ◌∷◌, arith, length,
}
use omnitrack_ai_platform.ModelManager.{
  Manager, Entry, init, get, without, victim, evict_rounds, evict, load_entry, acquire,
}
use omnitrack_ai_platform.ModelManager.Eviction.{evict-drop_idle, drop_idle}
use omnitrack_ai_platform.ModelManager.Holding.{
  Op, acquires, releases, warms, counted, granted, step,
}
use omnitrack_ai_platform.ModelManager.Runs.{references-run-init, held_stays, run, log, counted_all}
use omnitrack_ai_platform.ModelManager.Pool.{references, Distinct}

abbrev held : Entry
held = record { signature = 4; detector = 0; refcount = 2 }

abbrev idle : Entry
idle = record { signature = 6; detector = 1; refcount = 0 }

abbrev crowded : Manager
crowded = record { max_loaded = 2; entries = held ∷ idle ∷ []; loads = 2; unloaded = [] }

crowded-Distinct : Distinct crowded.entries
unfolding get
crowded-Distinct = (refl, (refl, tt))

acquired_third :
    (acquire crowded 9 true).0.entries
    ≡ held ∷ record { signature = 9; detector = 2; refcount = 1 } ∷ []
unfolding acquire get evict evict_rounds victim without load_entry
acquired_third = refl

evict-drop_idle_example :
    (evict crowded).entries ≡ drop_idle (length crowded.entries + 1 - 2) crowded.entries
evict-drop_idle_example = evict-drop_idle crowded crowded-Distinct (omega arith)

-- The load of the third call fails.
abbrev calls : List Op
calls =
    acquires 4 true
    ∷ acquires 6 true
    ∷ acquires 7 false
    ∷ acquires 4 true
    ∷ releases 4
    ∷ warms 8 true
    ∷ []

references-run-init_example :
    references 4 (run (init 1) calls).entries ≡ counted_all 4 (log (init 1) calls) 0
references-run-init_example = references-run-init 1 4 calls

held_stays_example :
    get 4 (step crowded (acquires 9 false)).entries
    ≡ some (record held {
      refcount = counted 4 (acquires 9 false) (granted crowded (acquires 9 false)) 2;
    })
unfolding get
held_stays_example =
    held_stays 4 crowded (acquires 9 false) held crowded-Distinct (omega arith) (λ e. cc) refl
      (omega arith)
