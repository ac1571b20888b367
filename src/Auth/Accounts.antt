-- ===== src/Auth/Accounts.antt =====
-- backend/auth/services.py, AuthService: users and API keys; with the roles of backend/auth/security.py
-- and the checks of backend/auth/dependencies.py. A password hash is salted, so it is an argument, as
-- are primary keys and the SHA-256 hash of an API key; what the code calls a role is a number.
use omnitrack_ai_platform.Prelude.{
  ℕ, ◌+◌, ◌*◌, Bool, true, false, not, ◌&&◌, ◌||◌, Option, none, some, List, [], ◌∷◌, ◌++◌, ltb,
  leb, ◌==◌, if◌then◌else◌, is_some,
}
use omnitrack_ai_platform.Prelude.Dict.{keys}
use omnitrack_ai_platform.Auth.Sessions.{User, Database, first, change_first}
pub mod Creation
pub mod Keys

pub data Role : Type 0 where
  viewer operator admin : Role

-- `Role(name)`, none for a ValueError: 1, 2 and 3 are "viewer", "operator" and "admin".
unfoldable pub role_of : ℕ → Option Role
role_of name =
    if name == 1
    then some viewer
    else if name == 2
    then some operator
    else if name == 3
    then some admin
    else none

-- `ROLE_HIERARCHY`.
abbrev pub hierarchy : Role → ℕ
hierarchy viewer = 1
hierarchy operator = 2
hierarchy admin = 3

unfoldable pub role_satisfies : ℕ → ℕ → Bool
unfolding role_of
role_satisfies user_role required = elim (role_of user_role) [
  | none ↦ false
  | some u ↦ elim (role_of required) [ none ↦ false | some r ↦ leb (hierarchy r) (hierarchy u) ]
]

pub data AccountError : Type 0 where
  invalid_role already_exists constraint_violation : AccountError

pub data AccountResult : Type 0 where
  created : User → AccountResult
  refused : AccountError → AccountResult

-- `User.email == email`, which SQLAlchemy makes `IS NULL` for None.
abbrev pub same_email : Option ℕ → Option ℕ → Bool
same_email none none = true
same_email none (some b) = false
same_email (some a) none = false
same_email (some a) (some b) = a == b

-- The filter of `create_user`.
abbrev pub conflicts : ℕ → Option ℕ → User → Bool
conflicts name email u = u.username == name || same_email u.email email

abbrev pub new_user : ℕ → ℕ → Option ℕ → ℕ → ℕ → User
new_user id name email hash role = record {
  id = id;
  username = name;
  email = email;
  password_hash = hash;
  user_role = role;
  user_active = true;
  last_login_at = none;
}

unfoldable pub create_user : Database → ℕ → ℕ → Option ℕ → ℕ → ℕ → Bool → Database × AccountResult
unfolding role_of first
create_user db id name email hash role commits =
    if not (is_some (role_of role))
    then (db, refused invalid_role)
    else (elim (first (conflicts name email) db.users) [
      | some u ↦ (db, refused already_exists)
      | none ↦
          (if commits
            then (
              record db { users = db.users ++ new_user id name email hash role ∷ [] },
              created (new_user id name email hash role),
            )
            else (db, refused constraint_violation))
    ])

abbrev pub given {ℓ} : {A : Type ℓ} → Option A → A → A
given none old = old
given (some new) old = new

-- `update_user`: the attributes that are allowed, where they are given.
unfoldable pub update_user :
    Database → ℕ → Option (Option ℕ) → Option ℕ → Option Bool → Database × Bool
unfolding first change_first
update_user db id email role active =
    let here : User → Bool = λ u. u.id == id in
    (
      record db {
        users =
            change_first here
              (λ u. record u {
                email = given email u.email;
                user_role = given role u.user_role;
                user_active = given active u.user_active;
              })
              db.users;
      },
      is_some (first here db.users),
    )

pub record ApiKey : Type 0 where
  pub key_id : ℕ
  pub key_user : ℕ
  pub key_hash : ℕ
  pub key_active : Bool
  pub key_expires_at : Option ℕ
  pub last_used_at : Option ℕ

-- `create_api_key`: an expiry of 0 days is none.
unfoldable pub create_api_key :
    Database → List ApiKey → ℕ → ℕ → ℕ → Option ℕ → ℕ → List ApiKey × Bool
unfolding first
create_api_key db keys id user hash days now =
    elim (first (λ u. u.id == user && u.user_active) db.users) [
      | none ↦ (keys, false)
      | some u ↦ (
        keys
            ++ record {
              key_id = id;
              key_user = user;
              key_hash = hash;
              key_active = true;
              key_expires_at = elim days [
                | none ↦ none
                | some n ↦ if n == 0 then none else some (now + n * 86400)
              ];
              last_used_at = none;
            }
              ∷ [],
        true,
      )
    ]

-- `revoke_api_key`, of any user's key or of that of one.
unfoldable pub revoke_api_key : List ApiKey → ℕ → Option ℕ → List ApiKey × Bool
unfolding first change_first
revoke_api_key keys id user =
    let here : ApiKey → Bool =
      λ k. k.key_id == id && (elim user [ none ↦ true | some u ↦ k.key_user == u ]) in
    (change_first here (λ k. record k { key_active = false }) keys, is_some (first here keys))

-- The candidates of `get_api_key_user`.
abbrev pub is_usable : ℕ → ApiKey → Bool
is_usable now k = k.key_active && (elim k.key_expires_at [ none ↦ true | some t ↦ ltb now t ])

-- `get_api_key_user`, for the hash of the key: the keys, and the user or none for a 401.
unfoldable pub get_api_key_user : Database → List ApiKey → ℕ → ℕ → List ApiKey × Option User
unfolding first change_first
get_api_key_user db keys hash now =
    let here : ApiKey → Bool = λ k. is_usable now k && k.key_hash == hash in
    elim (first here keys) [
      | none ↦ (keys, none)
      | some k ↦ elim (first (λ u. u.id == k.key_user && u.user_active) db.users) [
        | none ↦ (keys, none)
        | some u ↦ (change_first here (λ k. record k { last_used_at = some now }) keys, some u)
      ]
    ]
