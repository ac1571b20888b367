-- ===== src/EventBuffer/Delivery.antt =====
-- What the subscribers of backend/event_store.py are told.
-- The calls of one callback.
use omnitrack_ai_platform.Prelude.{
  ℕ, ◌≡◌, refl, ◌∙◌, inl, inr, true, false, List, [], ◌∷◌, ◌++◌, map, arith, ◌==◌, if◌then◌else◌,
  Bool-cases, keep, mem,
}
use omnitrack_ai_platform.Prelude.Dict.{HasOnce}
use omnitrack_ai_platform.EventBuffer.{Calls, Stored, notify}

abbrev pub told : ℕ → Calls → Calls
told c xs = keep (λ x. x.0 == c) xs

told-append : (c : ℕ) (xs ys : Calls) → told c (xs ++ ys) ≡ told c xs ++ told c ys
told-append c [] ys = refl
told-append c ((d, r) ∷ xs) ys = ground (arith, told-append c xs ys)

told_none :
    (c : ℕ) (callbacks : List ℕ) (r : Stored)
    → mem c callbacks ≡ false
    → told c (map (λ d. (d, r)) callbacks) ≡ []
unfolding mem
told_none c [] r h = refl
told_none c (d ∷ ds) r h = ground (arith, told_none c ds r)

told_once :
    (c : ℕ) (callbacks : List ℕ) (r : Stored)
    → HasOnce callbacks
    → mem c callbacks ≡ true
    → told c (map (λ d. (d, r)) callbacks) ≡ (c, r) ∷ []
unfolding mem
told_once c [] r o h = cc
told_once c (d ∷ ds) r o h = ground (arith, told_once c ds r o.1, told_none c ds r)

-- A callback that is subscribed once is called with every stored record exactly once and in the
-- order of the records, and one that is not subscribed is not called.
notify-each :
    (c : ℕ) (callbacks : List ℕ) (rs : List Stored)
    → HasOnce callbacks
    → told c (notify callbacks rs) ≡ (if mem c callbacks then map (λ r. (c, r)) rs else [])
unfolding notify
notify-each c callbacks [] o = ground arith
notify-each c callbacks (r ∷ rs) o =
    told-append c (map (λ d. (d, r)) callbacks) (notify callbacks rs)
    ∙ elim (Bool-cases (mem c callbacks)) [
      | inl e ↦ ground (arith, told_once c callbacks r o e, notify-each c callbacks rs o)
      | inr e ↦ ground (arith, told_none c callbacks r e, notify-each c callbacks rs o)
    ]
