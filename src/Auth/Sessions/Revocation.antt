-- ===== src/Auth/Sessions/Revocation.antt =====
-- A session that has ended in backend/auth stays ended: its tokens are refused.
use omnitrack_ai_platform.Prelude.{
  ℕ, ◌≡◌, refl, sym, ap, ◌∙◌, subst, inl, inr, Bool, true, false, ◌&&◌, none, some, List, [], ◌∷◌,
  arith, ◌==◌, Bool-cases, Option-cases, All,
}
use omnitrack_ai_platform.Prelude.Dict.{HasOnce}
use omnitrack_ai_platform.Auth.Sessions.{Session, change_first, deactivate, first}
use omnitrack_ai_platform.Auth.Tokens.{Claims}
use omnitrack_ai_platform.Auth.Sessions.{
  Database, Env, User, create_session, is_valid_session, logout, refresh_decoded, rotate,
}
use omnitrack_ai_platform.Auth.Tokens.{TokenType, access, refresh}
use omnitrack_ai_platform.Auth.Sessions.{
  Failure, Result, current_user, failed, invalid_refresh_token, refresh_claims, revoke_session,
}
use omnitrack_ai_platform.Auth.Sessions.{session_revoked, user_not_found}
use omnitrack_ai_platform.Auth.Sessions.{Issued, issued}
use omnitrack_ai_platform.Auth.Sessions.Calls.{
  Avoids, Command, IsRefused, perform_all, perform_all-IsDead,
}
use omnitrack_ai_platform.Auth.Sessions.Ended.{
  IsDead, append-IsDead, deactivate-IsDead, ended-IsDead, first-dead, jtis,
}

no_user_dead :
    (j : ℕ) (env : Env) (db : Database) (c : Claims) (now : ℕ)
    → env.session_management_enabled ≡ true
    → c.jti ≡ some j
    → IsDead j db.sessions
    → current_user env db (some c) now ≡ none
unfolding current_user
no_user_dead j env db c now on k h =
    let gone : first (is_valid_session now j) db.sessions ≡ none =
      first-dead j (is_valid_session now j) db.sessions (λ s d. ground arith) h in
    ground arith

refresh_claims_dead :
    (j : ℕ) (env : Env) (db : Database) (c : Claims) (now jti : ℕ)
    → env.session_management_enabled ≡ true
    → c.jti ≡ some j
    → IsDead j db.sessions
    → (f : Failure) × (refresh_claims env db c now jti ≡ (db, failed f))
unfolding refresh_claims rotate
refresh_claims_dead j env db c now jti on k h =
    elim (Option-cases (first (λ u. u.id == c.sub && u.user_active) db.users)) [
      | inl e ↦ (user_not_found, rw (refresh_claims, e) refl)
      | inr (u, e) ↦
          let here : Session → Bool = λ s. is_valid_session now j s && s.user_id == u.id in
          let gone : first here db.sessions ≡ none =
            first-dead j here db.sessions (λ s d. ground arith) h in
          (session_revoked, rw (refresh_claims, e, on, k, rotate, gone) refl)
    ]

no_tokens_dead :
    (j : ℕ) (env : Env) (db : Database) (c : Claims) (now jti : ℕ)
    → env.session_management_enabled ≡ true
    → c.jti ≡ some j
    → IsDead j db.sessions
    → (f : Failure) × (refresh_decoded env db (some c) now jti ≡ (db, failed f))
unfolding refresh_decoded
no_tokens_dead j env db c now jti on k h = by_type c.type_of
  where
    by_type :
        (t : TokenType)
        → (f : Failure) × ((elim t as (λ x. Database × Result) [
          | access ↦ (db, failed invalid_refresh_token)
          | refresh ↦ refresh_claims env db c now jti
        ])
            ≡ (db, failed f))
    by_type access = (invalid_refresh_token, refl)
    by_type refresh = refresh_claims_dead j env db c now jti on k h

dead-IsRefused :
    (j : ℕ) (env : Env) (db : Database) (c : Claims) (now jti : ℕ)
    → env.session_management_enabled ≡ true
    → c.jti ≡ some j
    → IsDead j db.sessions
    → IsRefused env db c now jti
dead-IsRefused j env db c now jti on k h =
    let (f, e) = no_tokens_dead j env db c now jti on k h in
    record { no_user = no_user_dead j env db c now on k h; failure = f; no_tokens = e }

none-IsDead :
    (j : ℕ) (ss : List Session)
    → first (λ s. s.token_jti == j && s.is_active) ss ≡ none
    → IsDead j ss
unfolding first
none-IsDead j [] h = tt
none-IsDead j (s ∷ ss) h = elim (Bool-cases (s.token_jti == j && s.is_active)) [
  | inl e ↦ absurd (ground arith)
  | inr e ↦ (e, none-IsDead j ss (ground arith))
]

logout-IsDead :
    (j : ℕ) (env : Env) (db : Database)
    → env.session_management_enabled ≡ true
    → HasOnce (jtis db.sessions)
    → IsDead j (logout env db j).0.sessions
unfolding logout revoke_session
logout-IsDead j env db on once =
    let here : Session → Bool = λ s. s.token_jti == j && s.is_active in
    elim (Option-cases (first here db.sessions)) [
      | inl e ↦ rw on (deactivate-IsDead j here db.sessions (none-IsDead j db.sessions e))
      | inr (s, e) ↦ rw on (ended-IsDead j here db.sessions s once (λ x h. ground arith) e)
    ]

-- Once a session is logged out, no token that names it is accepted any more: after any later calls,
-- neither as an access token, nor as a refresh token, which also leaves the tables unchanged.
-- Sessions are managed, each has its own identifier, and no later session draws this one.
pub logout-IsRefused :
    (env : Env) (db : Database) (j : ℕ) (cs : List Command) (c : Claims) (now jti : ℕ)
    → env.session_management_enabled ≡ true
    → HasOnce (jtis db.sessions)
    → All (Avoids j) cs
    → c.jti ≡ some j
    → IsRefused env (perform_all env (logout env db j).0 cs) c now jti
logout-IsRefused env db j cs c now jti on once ne k =
    dead-IsRefused j env (perform_all env (logout env db j).0 cs) c now jti on k
      (perform_all-IsDead j env (logout env db j).0 cs ne (logout-IsDead j env db on once))

rotated-IsDead :
    (j : ℕ) (env : Env) (db : Database) (u : User) (now jti : ℕ) (t : Issued)
    → HasOnce (jtis db.sessions)
    → (jti == j) ≡ false
    → (rotate env db u j now jti).1 ≡ issued t
    → IsDead j (rotate env db u j now jti).0.sessions
unfolding rotate create_session
rotated-IsDead j env db u now jti t once ne h =
    let here : Session → Bool = λ s. is_valid_session now j s && s.user_id == u.id in
    elim (Option-cases (first here db.sessions)) [
      | inl e ↦ absurd (ground arith)
      | inr (s, e) ↦
          rw (rotate, e)
            (append-IsDead j (change_first here deactivate db.sessions) _
              (ended-IsDead j here db.sessions s once (λ x k. ground arith) e) ne)
    ]

refreshed_claims-IsDead :
    (j : ℕ) (env : Env) (db : Database) (c : Claims) (now jti : ℕ) (t : Issued)
    → env.session_management_enabled ≡ true
    → HasOnce (jtis db.sessions)
    → (jti == j) ≡ false
    → c.jti ≡ some j
    → (refresh_claims env db c now jti).1 ≡ issued t
    → IsDead j (refresh_claims env db c now jti).0.sessions
unfolding refresh_claims
refreshed_claims-IsDead j env db c now jti t on once ne k h =
    let here : User → Bool = λ u. u.id == c.sub && u.user_active in
    elim (Option-cases (first here db.users)) [
      | inl e ↦ absurd (ground arith)
      | inr (u, e) ↦
          let same : refresh_claims env db c now jti ≡ rotate env db u j now jti =
            rw (refresh_claims, e, on, k) refl in
          subst (λ r. IsDead j r.0.sessions) (sym same)
            (rotated-IsDead j env db u now jti t once ne (ap (λ r. r.1) (sym same) ∙ h))
    ]

refreshed-IsDead :
    (j : ℕ) (env : Env) (db : Database) (c : Claims) (now jti : ℕ) (t : Issued)
    → env.session_management_enabled ≡ true
    → HasOnce (jtis db.sessions)
    → (jti == j) ≡ false
    → c.jti ≡ some j
    → (refresh_decoded env db (some c) now jti).1 ≡ issued t
    → IsDead j (refresh_decoded env db (some c) now jti).0.sessions
unfolding refresh_decoded
refreshed-IsDead j env db c now jti t on once ne k = by_type c.type_of
  where
    by_type :
        (type : TokenType)
        → (elim type as (λ x. Database × Result) [
          | access ↦ (db, failed invalid_refresh_token)
          | refresh ↦ refresh_claims env db c now jti
        ]).1
          ≡ issued t
        → IsDead j
            (elim type as (λ x. Database × Result) [
              | access ↦ (db, failed invalid_refresh_token)
              | refresh ↦ refresh_claims env db c now jti
            ]).0.sessions
    by_type access h = absurd (ground arith)
    by_type refresh h = refreshed_claims-IsDead j env db c now jti t on once ne k h

-- A refresh token works once: after a refresh with it that issues tokens, and after any later calls,
-- a token that names its session is refused, as an access token and as a refresh token. Sessions
-- are managed, each has its own identifier, and no new session draws this one.
pub refresh-IsRefused :
    (env : Env) (db : Database) (j : ℕ) (c : Claims) (now jti : ℕ) (t : Issued) (cs : List Command)
    (later new : ℕ)
    → env.session_management_enabled ≡ true
    → HasOnce (jtis db.sessions)
    → (jti == j) ≡ false
    → c.jti ≡ some j
    → (refresh_decoded env db (some c) now jti).1 ≡ issued t
    → All (Avoids j) cs
    → IsRefused env (perform_all env (refresh_decoded env db (some c) now jti).0 cs) c later new
refresh-IsRefused env db j c now jti t cs later new on once ne k h avoid =
    let db' = (refresh_decoded env db (some c) now jti).0 in
    dead-IsRefused j env (perform_all env db' cs) c later new on k
      (perform_all-IsDead j env db' cs avoid (refreshed-IsDead j env db c now jti t on once ne k h))
