-- ===== src/Auth/Sessions.antt =====
-- backend/auth/services.py, AuthService: log-in and sessions, with get_current_user of
-- backend/auth/dependencies.py. The tables are lists of rows; names,
-- passwords and identifiers are numbers. A new session's JTI is random, so it is an argument, as are
-- the clock and the check of a password against its PBKDF2 hash. Commits succeed.
use omnitrack_ai_platform.Prelude.{
  ℕ, ◌+◌, ◌*◌, Bool, true, false, not, ◌&&◌, Option, none, some, List, [], ◌∷◌, ◌++◌, map, ltb,
  ◌==◌, if◌then◌else◌, is_some, length, keep,
}
use omnitrack_ai_platform.Auth.Tokens.{Codec, Claims}
use omnitrack_ai_platform.Auth.Tokens.{access, decode_jwt, encode_jwt, refresh}
pub mod Ended
pub mod Calls
pub mod Revocation

pub record User : Type 0 where
  pub id : ℕ
  pub username : ℕ
  pub email : Option ℕ
  pub password_hash : ℕ
  pub user_role : ℕ
  pub user_active : Bool
  pub last_login_at : Option ℕ

pub record Session : Type 0 where
  pub user_id : ℕ
  pub token_jti : ℕ
  pub is_active : Bool
  pub expires_at : ℕ

pub record Database : Type 0 where
  pub users : List User
  pub sessions : List Session

pub record Env : Type 0 where
  pub session_management_enabled : Bool
  pub access_minutes : ℕ
  pub refresh_days : ℕ
  pub jwt_secret : List ℕ
  pub codec : Codec
  pub verify_password : ℕ → ℕ → Bool

pub data Failure : Type 0 where
  invalid_credentials invalid_refresh_token user_not_found : Failure
  missing_session session_revoked : Failure

pub record Issued : Type 0 where
  pub access_token : List ℕ
  pub refresh_token : Option (List ℕ)
  pub session : Option ℕ

pub data Result : Type 0 where
  issued : Issued → Result
  failed : Failure → Result

-- `query(...).filter(p).first()`.
unfoldable pub first {ℓ} : {A : Type ℓ} → (A → Bool) → List A → Option A
first p [] = none
first p (x ∷ xs) = if p x then some x else first p xs

-- The first row of the filter, changed in place.
unfoldable pub change_first {ℓ} : {A : Type ℓ} → (A → Bool) → (A → A) → List A → List A
change_first p f [] = []
change_first p f (x ∷ xs) = if p x then f x ∷ xs else x ∷ change_first p f xs

abbrev pub deactivate : Session → Session
deactivate s = record s { is_active = false }

-- `authenticate`, where `last_login_at` is set at a success.
unfoldable pub authenticate : Env → Database → ℕ → ℕ → ℕ → Database × Option User
unfolding first change_first
authenticate env db name password now =
    let here : User → Bool = λ u. u.username == name && u.user_active in
    elim (first here db.users) [
      | none ↦ (db, none)
      | some u ↦
          if env.verify_password password u.password_hash
          then (
            record db {
              users = change_first here (λ v. record v { last_login_at = some now }) db.users;
            },
            some u,
          )
          else (db, none)
    ]

unfoldable pub create_access_token : Env → User → Option ℕ → ℕ → List ℕ
create_access_token env u jti now =
    encode_jwt env.codec env.jwt_secret
      (record {
        sub = u.id;
        role = u.user_role;
        type_of = access;
        jti = jti;
        iat = some now;
        exp = some (now + env.access_minutes * 60);
      })
      now 3600

unfoldable pub create_refresh_token : Env → User → ℕ → ℕ → List ℕ
create_refresh_token env u jti now =
    encode_jwt env.codec env.jwt_secret
      (record {
        sub = u.id;
        role = u.user_role;
        type_of = refresh;
        jti = some jti;
        iat = some now;
        exp = some (now + env.refresh_days * 86400);
      })
      now 3600

unfoldable pub create_session : Env → Database → ℕ → ℕ → ℕ → Database
create_session env db user now jti = record db {
  sessions =
      db.sessions
      ++ record {
        user_id = user;
        token_jti = jti;
        is_active = true;
        expires_at = now + env.refresh_days * 86400;
      }
        ∷ [];
}

-- `revoke_session`: whether an active session was found.
unfoldable pub revoke_session : Database → ℕ → Database × Bool
unfolding first change_first
revoke_session db jti =
    let here : Session → Bool = λ s. s.token_jti == jti && s.is_active in
    (
      record db { sessions = change_first here deactivate db.sessions },
      is_some (first here db.sessions),
    )

abbrev pub revoked_for : ℕ → Session → Session
revoked_for user s = if s.user_id == user && s.is_active then deactivate s else s

-- `revoke_all_user_sessions`.
unfoldable pub revoke_all_user_sessions : Database → ℕ → Database × ℕ
revoke_all_user_sessions db user = (
  record db { sessions = map (revoked_for user) db.sessions },
  length (keep (λ s. s.user_id == user && s.is_active) db.sessions),
)

-- The tokens for a user and the session that they stand on, if any.
unfoldable pub issue : Env → User → Option ℕ → ℕ → Issued
unfolding create_access_token create_refresh_token
issue env u jti now = record {
  access_token = create_access_token env u jti now;
  refresh_token = elim jti [ none ↦ none | some j ↦ some (create_refresh_token env u j now) ];
  session = jti;
}

-- `login`; the JTI is used where sessions are managed.
unfoldable pub login : Env → Database → ℕ → ℕ → ℕ → ℕ → Database × Result
unfolding authenticate create_session issue
login env db name password now jti =
    let entered = authenticate env db name password now in
    elim entered.1 [
      | none ↦ (entered.0, failed invalid_credentials)
      | some u ↦
          if env.session_management_enabled
          then (create_session env entered.0 u.id now jti, issued (issue env u (some jti) now))
          else (entered.0, issued (issue env u none now))
    ]

abbrev pub is_valid_session : ℕ → ℕ → Session → Bool
is_valid_session now jti s = s.token_jti == jti && s.is_active && ltb now s.expires_at

-- `refresh_token` once the user is found and sessions are managed.
unfoldable pub rotate : Env → Database → User → ℕ → ℕ → ℕ → Database × Result
unfolding first change_first create_session issue
rotate env db u old_jti now jti =
    let here : Session → Bool = λ s. is_valid_session now old_jti s && s.user_id == u.id in
    elim (first here db.sessions) [
      | none ↦ (db, failed session_revoked)
      | some s ↦ (
        create_session env (record db { sessions = change_first here deactivate db.sessions }) u.id
            now jti,
        issued (issue env u (some jti) now),
      )
    ]

-- `refresh_token` for a token whose claims say refresh.
unfoldable pub refresh_claims : Env → Database → Claims → ℕ → ℕ → Database × Result
unfolding first rotate issue
refresh_claims env db c now jti = elim (first (λ u. u.id == c.sub && u.user_active) db.users) [
  | none ↦ (db, failed user_not_found)
  | some u ↦
      if env.session_management_enabled
      then (elim c.jti [
        | none ↦ (db, failed missing_session)
        | some old_jti ↦ rotate env db u old_jti now jti
      ])
      else (db, issued (issue env u c.jti now))
]

-- `refresh_token` after the token is decoded.
unfoldable pub refresh_decoded : Env → Database → Option Claims → ℕ → ℕ → Database × Result
unfolding refresh_claims
refresh_decoded env db none now jti = (db, failed invalid_refresh_token)
refresh_decoded env db (some c) now jti = elim c.type_of [
  | access ↦ (db, failed invalid_refresh_token)
  | refresh ↦ refresh_claims env db c now jti
]

unfoldable pub refresh_with : Env → Database → List ℕ → ℕ → ℕ → Database × Result
unfolding refresh_decoded decode_jwt
refresh_with env db token now jti =
    refresh_decoded env db (decode_jwt env.codec env.jwt_secret now token) now jti

-- `logout`.
unfoldable pub logout : Env → Database → ℕ → Database × Bool
unfolding revoke_session
logout env db jti = if env.session_management_enabled then revoke_session db jti else (db, true)

-- `get_current_user` for decoded claims: the user, or none for a 401.
unfoldable pub current_user : Env → Database → Option Claims → ℕ → Option User
unfolding first
current_user env db none now = none
current_user env db (some c) now = elim c.type_of [
  | refresh ↦ none
  | access ↦ elim (first (λ u. u.id == c.sub && u.user_active) db.users) [
    | none ↦ none
    | some u ↦ if not env.session_management_enabled then some u else (elim c.jti [
      | none ↦ some u
      | some j ↦ (if is_some (first (is_valid_session now j) db.sessions) then some u else none)
    ])
  ]
]

unfoldable pub get_current_user : Env → Database → List ℕ → ℕ → Option User
unfolding current_user decode_jwt
get_current_user env db token now =
    current_user env db (decode_jwt env.codec env.jwt_secret now token) now
