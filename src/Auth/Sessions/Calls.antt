-- ===== src/Auth/Sessions/Calls.antt =====
-- The calls of backend/auth/services.py that write sessions: none revives one that has ended.

-- The calls that write to the tables; a new session carries the identifier that the call draws.
use omnitrack_ai_platform.Prelude.{
  ℕ, ◌≡◌, sym, subst, inl, inr, Bool, false, ◌&&◌, Option, none, some, List, [], ◌∷◌, arith, ◌==◌,
  Bool-cases, Option-cases, All,
}
use omnitrack_ai_platform.Auth.Sessions.{Session, change_first, deactivate, first}
use omnitrack_ai_platform.Auth.Tokens.{Claims}
use omnitrack_ai_platform.Auth.Sessions.{
  Database, Env, User, authenticate, create_session, is_valid_session, login, logout,
  refresh_decoded, revoke_all_user_sessions, rotate,
}
use omnitrack_ai_platform.Auth.Tokens.{TokenType, access, refresh}
use omnitrack_ai_platform.Auth.Sessions.{
  Failure, Result, current_user, failed, invalid_refresh_token, refresh_claims, revoke_session,
}
use omnitrack_ai_platform.Auth.Sessions.Ended.{
  IsDead, append-IsDead, deactivate-IsDead, revoke_all-IsDead,
}

pub data Command : Type 0 where
  logs_in : ℕ → ℕ → ℕ → ℕ → Command
  refreshes : Option Claims → ℕ → ℕ → Command
  logs_out : ℕ → Command
  revokes_all : ℕ → Command

-- The identifier that a command may draw for a new session is not `j`.
abbrev pub Avoids : ℕ → Command → Type 0
Avoids j (logs_in name password now jti) = (jti == j) ≡ false
Avoids j (refreshes c now jti) = (jti == j) ≡ false
Avoids j (logs_out jti) = Unit {0}
Avoids j (revokes_all user) = Unit {0}

unfoldable pub perform : Env → Database → Command → Database
perform env db (logs_in name password now jti) = (login env db name password now jti).0
perform env db (refreshes c now jti) = (refresh_decoded env db c now jti).0
perform env db (logs_out jti) = (logout env db jti).0
perform env db (revokes_all user) = (revoke_all_user_sessions db user).0

unfoldable pub perform_all : Env → Database → List Command → Database
perform_all env db [] = db
perform_all env db (c ∷ cs) = perform_all env (perform env db c) cs

authenticate-sessions :
    (env : Env) (db : Database) (name password now : ℕ)
    → (authenticate env db name password now).0.sessions ≡ db.sessions
unfolding authenticate
authenticate-sessions env db name password now = ground arith

login-IsDead :
    (j : ℕ) (env : Env) (db : Database) (name password now jti : ℕ)
    → (jti == j) ≡ false
    → IsDead j db.sessions
    → IsDead j (login env db name password now jti).0.sessions
unfolding login create_session
login-IsDead j env db name password now jti ne h =
    let a = authenticate env db name password now in
    let kept : IsDead j a.0.sessions =
      subst (IsDead j) (sym (authenticate-sessions env db name password now)) h in
    elim (Option-cases a.1) [
      | inl e ↦ rw (login, e) kept
      | inr (u, e) ↦ elim (Bool-cases env.session_management_enabled) [
        | inl on ↦ rw (login, e, on) (append-IsDead j a.0.sessions _ kept ne)
        | inr off ↦ rw (login, e, off) kept
      ]
    ]

rotate-IsDead :
    (j : ℕ) (env : Env) (db : Database) (u : User) (old now jti : ℕ)
    → (jti == j) ≡ false
    → IsDead j db.sessions
    → IsDead j (rotate env db u old now jti).0.sessions
unfolding rotate create_session
rotate-IsDead j env db u old now jti ne h =
    let here : Session → Bool = λ s. is_valid_session now old s && s.user_id == u.id in
    elim (Option-cases (first here db.sessions)) [
      | inl e ↦ rw (rotate, e) h
      | inr (s, e) ↦
          rw (rotate, e)
            (append-IsDead j (change_first here deactivate db.sessions) _
              (deactivate-IsDead j here db.sessions h) ne)
    ]

refresh_claims-IsDead :
    (j : ℕ) (env : Env) (db : Database) (c : Claims) (now jti : ℕ)
    → (jti == j) ≡ false
    → IsDead j db.sessions
    → IsDead j (refresh_claims env db c now jti).0.sessions
unfolding refresh_claims
refresh_claims-IsDead j env db c now jti ne h =
    let here : User → Bool = λ u. u.id == c.sub && u.user_active in
    elim (Option-cases (first here db.users)) [
      | inl e ↦ rw (refresh_claims, e) h
      | inr (u, e) ↦ elim (Bool-cases env.session_management_enabled) [
        | inl on ↦ elim (Option-cases c.jti) [
          | inl k ↦ rw (refresh_claims, e, on, k) h
          | inr (old, k) ↦ rw (refresh_claims, e, on, k) (rotate-IsDead j env db u old now jti ne h)
        ]
        | inr off ↦ rw (refresh_claims, e, off) h
      ]
    ]

refresh_decoded-IsDead :
    (j : ℕ) (env : Env) (db : Database) (o : Option Claims) (now jti : ℕ)
    → (jti == j) ≡ false
    → IsDead j db.sessions
    → IsDead j (refresh_decoded env db o now jti).0.sessions
unfolding refresh_decoded
refresh_decoded-IsDead j env db none now jti ne h = h
refresh_decoded-IsDead j env db (some c) now jti ne h = by_type c.type_of
  where
    by_type :
        (t : TokenType)
        → IsDead j
            (elim t as (λ x. Database × Result) [
              | access ↦ (db, failed invalid_refresh_token)
              | refresh ↦ refresh_claims env db c now jti
            ]).0.sessions
    by_type access = h
    by_type refresh = refresh_claims-IsDead j env db c now jti ne h

perform-IsDead :
    (j : ℕ) (env : Env) (db : Database) (c : Command)
    → Avoids j c
    → IsDead j db.sessions
    → IsDead j (perform env db c).sessions
unfolding perform logout revoke_session revoke_all_user_sessions
perform-IsDead j env db (logs_in name password now jti) ne h =
    login-IsDead j env db name password now jti ne h
perform-IsDead j env db (refreshes c now jti) ne h = refresh_decoded-IsDead j env db c now jti ne h
perform-IsDead j env db (logs_out jti) ne h = elim (Bool-cases env.session_management_enabled) [
  | inl on ↦ rw on (deactivate-IsDead j (λ s. s.token_jti == jti && s.is_active) db.sessions h)
  | inr off ↦ rw off h
]
perform-IsDead j env db (revokes_all user) ne h = revoke_all-IsDead j user db.sessions h

pub perform_all-IsDead :
    (j : ℕ) (env : Env) (db : Database) (cs : List Command)
    → All (Avoids j) cs
    → IsDead j db.sessions
    → IsDead j (perform_all env db cs).sessions
unfolding perform_all
perform_all-IsDead j env db [] ne h = h
perform_all-IsDead j env db (c ∷ cs) ne h =
    perform_all-IsDead j env (perform env db c) cs ne.1 (perform-IsDead j env db c ne.0 h)

-- The claims are refused as an access token, and as a refresh token with the tables unchanged.
pub record IsRefused (env : Env) (db : Database) (c : Claims) (now jti : ℕ) : Type 0 where
  pub no_user : current_user env db (some c) now ≡ none
  pub failure : Failure
  pub no_tokens : refresh_decoded env db (some c) now jti ≡ (db, failed failure)
