-- ===== src/Auth/Sessions/Ended.antt =====
-- Sessions of backend/auth that have ended, and how the writes to their rows keep them so.

-- No session under the identifier is active.
use omnitrack_ai_platform.Prelude.{
  ℕ, ◌≡◌, refl, subst, inl, inr, Bool, true, false, ◌&&◌, none, some, List, [], ◌∷◌, ◌++◌, map,
  arith, ◌==◌, Bool-cases, All, mem,
}
use omnitrack_ai_platform.Prelude.Dict.{HasOnce}
use omnitrack_ai_platform.Auth.Sessions.{Session, change_first, deactivate, first, revoked_for}

abbrev pub IsDead : ℕ → List Session → Type 0
IsDead j = All (λ s. (s.token_jti == j && s.is_active) ≡ false)

abbrev pub jtis : List Session → List ℕ
jtis = map (λ s. s.token_jti)

pub first-dead :
    (j : ℕ) (p : Session → Bool) (ss : List Session)
    → ((s : Session) → (s.token_jti == j && s.is_active) ≡ false → p s ≡ false)
    → IsDead j ss
    → first p ss ≡ none
unfolding first
first-dead j p [] only h = refl
first-dead j p (s ∷ ss) only h = rw (only s h.0) (first-dead j p ss only h.1)

pub deactivate-IsDead :
    (j : ℕ) (p : Session → Bool) (ss : List Session)
    → IsDead j ss
    → IsDead j (change_first p deactivate ss)
unfolding change_first
deactivate-IsDead j p [] h = tt
deactivate-IsDead j p (s ∷ ss) h = elim (Bool-cases (p s)) [
  | inl e ↦ rw e (ground arith, h.1)
  | inr e ↦ rw e (h.0, deactivate-IsDead j p ss h.1)
]

pub revoke_all-IsDead :
    (j user : ℕ) (ss : List Session) → IsDead j ss → IsDead j (map (revoked_for user) ss)
revoke_all-IsDead j user [] h = tt
revoke_all-IsDead j user (s ∷ ss) h = (ground arith, revoke_all-IsDead j user ss h.1)

pub append-IsDead :
    (j : ℕ) (ss : List Session) (s : Session)
    → IsDead j ss
    → (s.token_jti == j) ≡ false
    → IsDead j (ss ++ s ∷ [])
append-IsDead j [] s h k = (ground arith, tt)
append-IsDead j (x ∷ ss) s h k = (h.0, append-IsDead j ss s h.1 k)

mem-jti : (j : ℕ) (ss : List Session) → mem j (jtis ss) ≡ false → IsDead j ss
unfolding mem
mem-jti j [] h = tt
mem-jti j (s ∷ ss) h = (ground arith, mem-jti j ss (ground arith))

first-mem :
    (j : ℕ) (p : Session → Bool) (ss : List Session) (s : Session)
    → ((x : Session) → p x ≡ true → x.token_jti ≡ j)
    → first p ss ≡ some s
    → mem j (jtis ss) ≡ true
unfolding first mem
first-mem j p [] s only h = cc
first-mem j p (x ∷ ss) s only h = elim (Bool-cases (p x)) [
  | inl e ↦ let same : x.token_jti ≡ j = only x e in ground arith
  | inr e ↦ ground (arith, first-mem j p ss s only (ground arith))
]

other_dead :
    (j : ℕ) (x : Session) (ks : List ℕ)
    → mem x.token_jti ks ≡ false
    → mem j ks ≡ true
    → (x.token_jti == j && x.is_active) ≡ false
other_dead j x ks h k = elim (Bool-cases (x.token_jti == j)) [
  | inl e ↦
      let same : x.token_jti ≡ j = ground arith in
      let no : mem j ks ≡ false = subst (λ i. mem i ks ≡ false) same h in absurd (ground arith)
  | inr e ↦ ground arith
]

-- The only session under an identifier is dead once the first that a filter finds is deactivated.
pub ended-IsDead :
    (j : ℕ) (p : Session → Bool) (ss : List Session) (s : Session)
    → HasOnce (jtis ss)
    → ((x : Session) → p x ≡ true → x.token_jti ≡ j)
    → first p ss ≡ some s
    → IsDead j (change_first p deactivate ss)
unfolding first change_first
ended-IsDead j p [] s once only h = cc
ended-IsDead j p (x ∷ ss) s once only h = elim (Bool-cases (p x)) [
  | inl e ↦
      let same : x.token_jti ≡ j = only x e in
      rw e (ground arith, mem-jti j ss (subst (λ k. mem k (jtis ss) ≡ false) same once.0))
  | inr e ↦
      let found : first p ss ≡ some s = ground arith in
      let there = first-mem j p ss s only found in
      rw e (other_dead j x (jtis ss) once.0 there, ended-IsDead j p ss s once.1 only found)
]
