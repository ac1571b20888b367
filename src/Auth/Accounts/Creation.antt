-- ===== src/Auth/Accounts/Creation.antt =====
-- New users of backend/auth/services.py: they can log in, and what prevents their creation.
use omnitrack_ai_platform.Prelude.{
  ℕ, ◌≡◌, refl, sym, ap, ◌∙◌, subst, Bool, true, false, not, ◌&&◌, ◌||◌, Option, none, some, List,
  [], ◌∷◌, ◌++◌, arith, ◌==◌, if◌then◌else◌, is_some,
}
use omnitrack_ai_platform.Auth.Sessions.{User, Database, Env, first, authenticate}
use omnitrack_ai_platform.Auth.Accounts.{
  AccountResult, created, refused, already_exists, create_user, new_user, conflicts, role_of,
}
use omnitrack_ai_platform.Auth.Accounts.{constraint_violation, invalid_role}
use omnitrack_ai_platform.Auth.Accounts.{same_email}

pub first-append :
    {A : Type 0} (p : A → Bool) (xs : List A) (x : A)
    → first p xs ≡ none
    → p x ≡ true
    → first p (xs ++ x ∷ []) ≡ some x
unfolding first
first-append p [] x h e = ground (arith, e)
first-append p (y ∷ ys) x h e = ground (arith, e, first-append p ys x)

first-weaken :
    {A : Type 0} (p q : A → Bool) (xs : List A)
    → ((x : A) → q x ≡ true → p x ≡ true)
    → first p xs ≡ none
    → first q xs ≡ none
unfolding first
first-weaken p q [] w h = refl
first-weaken p q (x ∷ xs) w h = ground (arith, w x, first-weaken p q xs w)

created-eq :
    (db : Database) (id name : ℕ) (email : Option ℕ) (hash role : ℕ) (commits : Bool) (u : User)
    → (create_user db id name email hash role commits).1 ≡ created u
    → (first (conflicts name email) db.users ≡ none)
      × (u ≡ new_user id name email hash role)
      × ((create_user db id name email hash role commits).0.users ≡ db.users ++ u ∷ [])
unfolding create_user
created-eq db id name email hash role commits u h =
    by_role (is_some (role_of role)) (first (conflicts name email) db.users) refl commits h
  where
    fresh : User
    fresh = new_user id name email hash role

    outcome : Bool → Option User → Bool → Database × AccountResult
    outcome r o b =
        if not r then (db, refused invalid_role) else (elim o as (λ x. Database × AccountResult) [
          | some v ↦ (db, refused already_exists)
          | none ↦
              (if b
                then (record db { users = db.users ++ fresh ∷ [] }, created fresh)
                else (db, refused constraint_violation))
        ])

    by_role :
        (r : Bool) (o : Option User)
        → first (conflicts name email) db.users ≡ o
        → (b : Bool) → (outcome r o b).1 ≡ created u
        → (first (conflicts name email) db.users ≡ none)
          × (u ≡ fresh)
          × ((outcome r o b).0.users ≡ db.users ++ u ∷ [])
    by_role false o e b g = absurd cc
    by_role true (some v) e b g = absurd cc
    by_role true none e false g = absurd cc
    by_role true none e true g =
        let same : fresh ≡ u = cc g in (e, sym same, ap (λ x. db.users ++ x ∷ []) same)

authenticate_found :
    (env : Env) (db : Database) (name password now : ℕ) (u : User)
    → first (λ v. v.username == name && v.user_active) db.users ≡ some u
    → env.verify_password password u.password_hash ≡ true
    → (authenticate env db name password now).1 ≡ some u
unfolding authenticate
authenticate_found env db name password now u e ok = rw (e, authenticate, ok) refl

-- A user that was created can log in with the password: where its hash verifies, `authenticate` finds
-- the new user and none that was there before.
pub authenticate-create_user :
    (env : Env) (db : Database) (id name : ℕ) (email : Option ℕ) (password hash role : ℕ)
    (commits : Bool) (u : User) (now : ℕ)
    → (create_user db id name email hash role commits).1 ≡ created u
    → env.verify_password password hash ≡ true
    → (authenticate env (create_user db id name email hash role commits).0 name password now).1
      ≡ some u
authenticate-create_user env db id name email password hash role commits u now h ok =
    let (free, new, users) = created-eq db id name email hash role commits u h in
    let here : User → Bool = λ v. v.username == name && v.user_active in
    let mine : here u ≡ true = subst (λ v. here v ≡ true) (sym new) (ground arith) in
    let others =
      first-weaken (conflicts name email) here db.users (λ v e. ground (arith, e)) free in
    authenticate_found env (create_user db id name email hash role commits).0 name password now u
      (ap (first here) users ∙ first-append here db.users u others mine)
      (subst (λ v. env.verify_password password v.password_hash ≡ true) (sym new) ok)

-- Where a user without an email is there, no other can be created without one: the filter for None
-- is the test of a missing email.
pub no_email_twice :
    (db : Database) (id name hash role : ℕ) (commits : Bool) (v : User)
    → first (λ u. not (is_some u.email)) db.users ≡ some v
    → ¬ ((u : User) × ((create_user db id name none hash role commits).1 ≡ created u))
no_email_twice db id name hash role commits v h (u, made) =
    let (free, new, users) = created-eq db id name none hash role commits u made in
    let gone =
      first-weaken (conflicts name none) (λ u. not (is_some u.email)) db.users
        (λ w e. nobody w.username w.email e) free in
    cc (sym gone ∙ h)
  where
    nobody :
        (n : ℕ) (email : Option ℕ)
        → not (is_some email) ≡ true
        → (n == name || same_email email none) ≡ true
    nobody n none e = ground arith
    nobody n (some m) e = absurd cc
