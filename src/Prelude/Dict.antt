-- ===== src/Prelude/Dict.antt =====
-- A Python `dict` with opaque keys: entries in insertion order. A key is a number that is only ever
-- compared; `insert` replaces in place or appends, `erase` is `pop(key, None)`.
use Prim.Native.Nat.{ℕ, ◌≤◌}
use mathlib.Core.Path.{◌≡◌, refl, ap}
use mathlib.Core.Logic.{inl, inr}
use mathlib.Core.Bool.{Bool, true, false, ◌&&◌}
use mathlib.Core.List.{List, [], ◌∷◌, map}
use mathlib.Core.Option.{Option, none, some}
use native.Mathlib.Omega.{arith}
use omnitrack_ai_platform.Prelude.Tests.{◌==◌, if◌then◌else◌, Bool-cases}
use omnitrack_ai_platform.Prelude.Lists.{length, mem, keep}

abbrev pub Dict {ℓ} : Type ℓ → Type ℓ
Dict V = List (ℕ × V)

module _ {ℓ} {V : Type ℓ} where
  unfoldable pub lookup : ℕ → List (ℕ × V) → Option V
  lookup k [] = none
  lookup k ((j, v) ∷ m) = if k == j then some v else lookup k m

  unfoldable pub insert : ℕ → V → List (ℕ × V) → List (ℕ × V)
  insert k v [] = (k, v) ∷ []
  insert k v ((j, w) ∷ m) = if k == j then (k, v) ∷ m else (j, w) ∷ insert k v m

  unfoldable pub erase : ℕ → List (ℕ × V) → List (ℕ × V)
  erase k [] = []
  erase k ((j, w) ∷ m) = if k == j then erase k m else (j, w) ∷ erase k m

  abbrev pub keys : List (ℕ × V) → List ℕ
  keys = map (λ e. e.0)

  abbrev pub values : List (ℕ × V) → List V
  values = map (λ e. e.1)

  pub lookup-insert :
      (q k : ℕ) (v : V) (m : List (ℕ × V))
      → lookup q (insert k v m) ≡ (if q == k then some v else lookup q m)
  unfolding lookup insert
  lookup-insert q k v [] = refl
  lookup-insert q k v ((j, w) ∷ m) = ground (arith, lookup-insert q k v m)

  pub lookup-erase :
      (q k : ℕ) (m : List (ℕ × V)) → lookup q (erase k m) ≡ (if q == k then none else lookup q m)
  unfolding lookup erase
  lookup-erase q k [] = ground arith
  lookup-erase q k ((j, w) ∷ m) = ground (arith, lookup-erase q k m)

  pub length-erase-le : (k : ℕ) (m : List (ℕ × V)) → length (erase k m) ≤ length m
  unfolding erase
  length-erase-le k [] = omega arith
  length-erase-le k ((j, w) ∷ m) = ground (arith, length-erase-le k m)

  pub mem-keys : (k : ℕ) (m : List (ℕ × V)) → lookup k m ≡ none → mem k (keys m) ≡ false
  unfolding lookup mem
  mem-keys k [] h = refl
  mem-keys k ((j, w) ∷ m) h = ground (arith, mem-keys k m)

-- A dictionary has each key once.
abbrev pub HasOnce : List ℕ → Type 0
HasOnce [] = Unit {0}
HasOnce (k ∷ ks) = (mem k ks ≡ false) × HasOnce ks

module _ {ℓ} {V : Type ℓ} where
  pub mem-keys-insert :
      (q k : ℕ) (v : V) (m : List (ℕ × V))
      → mem q (keys (insert k v m)) ≡ (if q == k then true else mem q (keys m))
  unfolding mem insert
  mem-keys-insert q k v [] = ground arith
  mem-keys-insert q k v ((j, w) ∷ m) = ground (arith, mem-keys-insert q k v m)

  pub mem-keys-erase :
      (q k : ℕ) (m : List (ℕ × V))
      → mem q (keys (erase k m)) ≡ (if q == k then false else mem q (keys m))
  unfolding mem erase
  mem-keys-erase q k [] = ground arith
  mem-keys-erase q k ((j, w) ∷ m) = ground (arith, mem-keys-erase q k m)

  pub insert-HasOnce :
      (k : ℕ) (v : V) (m : List (ℕ × V)) → HasOnce (keys m) → HasOnce (keys (insert k v m))
  unfolding insert mem
  insert-HasOnce k v [] h = (refl, tt)
  insert-HasOnce k v ((j, w) ∷ m) h =
      ground (arith, insert-HasOnce k v m h.1, mem-keys-insert j k v m)

  pub erase-HasOnce : (k : ℕ) (m : List (ℕ × V)) → HasOnce (keys m) → HasOnce (keys (erase k m))
  unfolding erase
  erase-HasOnce k [] h = tt
  erase-HasOnce k ((j, w) ∷ m) h = ground (arith, erase-HasOnce k m h.1, mem-keys-erase j k m)

  -- A key that is not there is erased for nothing.
  pub erase_absent : (k : ℕ) (m : List (ℕ × V)) → mem k (keys m) ≡ false → erase k m ≡ m
  unfolding erase mem
  erase_absent k [] h = refl
  erase_absent k ((j, w) ∷ m) h = ground (arith, erase_absent k m)

  pub lookup-mem : (k : ℕ) (m : List (ℕ × V)) (v : V) → lookup k m ≡ some v → mem k (keys m) ≡ true
  unfolding lookup mem
  lookup-mem k [] v h = cc
  lookup-mem k ((j, w) ∷ m) v h = ground (arith, lookup-mem k m v)

pub mem-keep : (q : ℕ) (p : ℕ → Bool) (xs : List ℕ) → mem q (keep p xs) ≡ (mem q xs && p q)
unfolding mem
mem-keep q p [] = refl
mem-keep q p (x ∷ xs) = elim (Bool-cases (q == x)) [
  | inl e ↦ let same : q ≡ x = ground arith in ground (arith, mem-keep q p xs, ap p same)
  | inr e ↦ ground (arith, mem-keep q p xs)
]

pub keep-HasOnce : (p : ℕ → Bool) (xs : List ℕ) → HasOnce xs → HasOnce (keep p xs)
keep-HasOnce p [] h = tt
keep-HasOnce p (x ∷ xs) h = ground (arith, keep-HasOnce p xs h.1, mem-keep x p xs)
