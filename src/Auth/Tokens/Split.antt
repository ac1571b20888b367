-- ===== src/Auth/Tokens/Split.antt =====
-- The texts of backend/auth/security.py: splitting at dots, stripping and restoring the padding.
use omnitrack_ai_platform.Prelude.{
  ℕ, zero, suc, ◌+◌, ◌-◌, ◌%◌, ◌<◌, ◌≡◌, refl, inl, inr, true, false, List, [], ◌∷◌, ◌++◌, arith,
  ◌==◌, Bool-cases, mem,
}
use omnitrack_ai_platform.Auth.Tokens.{dot}
use omnitrack_ai_platform.Auth.Tokens.{equals_sign, padding, rstrip, same_bytes, split}

split_cases : (xs : List ℕ) → (p : List ℕ) × (ps : List (List ℕ)) × (split xs ≡ p ∷ ps)
unfolding split
split_cases [] = ([], [], refl)
split_cases (x ∷ xs) =
    let (p, ps, e) = split_cases xs in
    elim (Bool-cases (x == dot)) [
      | inl b ↦ ([], p ∷ ps, rw (e, b) refl)
      | inr b ↦ (x ∷ p, ps, rw (e, b) refl)
    ]

pub split-clean : (xs : List ℕ) → mem dot xs ≡ false → split xs ≡ xs ∷ []
unfolding split mem
split-clean [] h = refl
split-clean (x ∷ xs) h = ground (arith, split-clean xs)

pub split-dot : (xs ys : List ℕ) → mem dot xs ≡ false → split (xs ++ dot ∷ ys) ≡ xs ∷ split ys
unfolding split mem
split-dot [] ys h = let (p, ps, e) = split_cases ys in rw e refl
split-dot (x ∷ xs) ys h = ground (arith, split-dot xs ys)

rstrip-padding : (n : ℕ) → rstrip (padding n) ≡ []
unfolding rstrip padding
rstrip-padding zero = refl
rstrip-padding (suc n) = ground (arith, rstrip-padding n)

rstrip_step :
    (x : ℕ) (ys xs : List ℕ)
    → (x == equals_sign) ≡ false
    → rstrip ys ≡ xs
    → rstrip (x ∷ ys) ≡ x ∷ xs
unfolding rstrip
rstrip_step x ys [] h k = rw (k, h) refl
rstrip_step x ys (z ∷ zs) h k = rw k refl

pub rstrip-body : (xs : List ℕ) (n : ℕ) → mem equals_sign xs ≡ false → rstrip (xs ++ padding n) ≡ xs
unfolding rstrip mem
rstrip-body [] n h = rstrip-padding n
rstrip-body (x ∷ xs) n h =
    rstrip_step x (xs ++ padding n) xs (ground arith) (rstrip-body xs n (ground arith))

-- The number of signs that the decoder restores is the number that was stripped.
pub padding_restored : (l pads : ℕ) → pads < 3 → (l + pads) % 4 ≡ 0 → (4 - l % 4) % 4 ≡ pads
padding_restored l pads few full = omega arith

pub same_bytes_refl : (xs : List ℕ) → same_bytes xs xs ≡ true
unfolding same_bytes
same_bytes_refl [] = refl
same_bytes_refl (x ∷ xs) = ground (arith, same_bytes_refl xs)

pub same_bytes-eq : (xs ys : List ℕ) → same_bytes xs ys ≡ true → xs ≡ ys
unfolding same_bytes
same_bytes-eq [] [] h = refl
same_bytes-eq [] (y ∷ ys) h = cc
same_bytes-eq (x ∷ xs) [] h = cc
same_bytes-eq (x ∷ xs) (y ∷ ys) h = ground (arith, same_bytes-eq xs ys)
