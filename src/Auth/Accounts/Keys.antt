-- ===== src/Auth/Accounts/Keys.antt =====
-- Revoked API keys of backend/auth/services.py at the check of backend/auth/dependencies.py.

-- The hashes of the keys, which are unique in the database.
use omnitrack_ai_platform.Prelude.{
  ℕ, ◌≡◌, refl, sym, ap, ◌∙◌, subst, inl, inr, Bool, true, false, ◌&&◌, Option, none, some, List,
  [], ◌∷◌, map, arith, ◌==◌, Bool-cases, is_some, mem,
}
use omnitrack_ai_platform.Prelude.Dict.{keys, HasOnce}
use omnitrack_ai_platform.Auth.Sessions.{first, change_first}
use omnitrack_ai_platform.Auth.Accounts.{ApiKey, is_usable}
use omnitrack_ai_platform.Auth.Sessions.{Database}
use omnitrack_ai_platform.Auth.Accounts.{get_api_key_user, revoke_api_key}

abbrev pub hashes : List ApiKey → List ℕ
hashes = map (λ k. k.key_hash)

abbrev usable_under : ℕ → ℕ → ApiKey → Bool
usable_under now hash k = is_usable now k && k.key_hash == hash

-- No key has a hash that is not there.
absent_hash :
    (now hash : ℕ) (keys : List ApiKey)
    → mem hash (hashes keys) ≡ false
    → first (usable_under now hash) keys ≡ none
unfolding first mem
absent_hash now hash [] h = refl
absent_hash now hash (k ∷ js) h = ground (arith, absent_hash now hash js)

hash_there :
    (p : ApiKey → Bool) (keys : List ApiKey) (k : ApiKey)
    → first p keys ≡ some k
    → mem k.key_hash (hashes keys) ≡ true
unfolding first mem
hash_there p [] k h = absurd cc
hash_there p (j ∷ js) k h = elim (Bool-cases (p j)) [
  | inl e ↦
      let got : some j ≡ some k = ground (arith, e, h) in
      let whole : j ≡ k = cc got in
      let same : j.key_hash ≡ k.key_hash = ap (λ (x : ApiKey). x.key_hash) whole in ground arith
  | inr e ↦ ground (arith, e, hash_there p js k)
]

revoked_row :
    (now : ℕ) (p : ApiKey → Bool) (keys : List ApiKey) (k : ApiKey)
    → HasOnce (hashes keys)
    → first p keys ≡ some k
    → first
        (usable_under now k.key_hash)
        (change_first p (λ j. record j { key_active = false }) keys)
      ≡ none
unfolding first change_first
revoked_row now p [] k once h = absurd cc
revoked_row now p (j ∷ js) k once h = elim (Bool-cases (p j)) [
  | inl e ↦
      let got : some j ≡ some k = ground (arith, e, h) in
      let whole : j ≡ k = cc got in
      let same : j.key_hash ≡ k.key_hash = ap (λ (x : ApiKey). x.key_hash) whole in
      let gone : mem k.key_hash (hashes js) ≡ false =
        subst (λ x. mem x (hashes js) ≡ false) same once.0 in
      rw e (absent_hash now k.key_hash js gone)
  | inr e ↦
      let found : first p js ≡ some k = ground (arith, e, h) in
      let rest = revoked_row now p js k once.1 found in
      let there = hash_there p js k found in
      rw e (elim (Bool-cases (j.key_hash == k.key_hash)) [
        | inl same ↦
            let one : j.key_hash ≡ k.key_hash = ground arith in
            absurd (cc (sym (subst (λ x. mem x (hashes js) ≡ false) one once.0) ∙ there))
        | inr other ↦ ground (arith, other, rest)
      ])
]

-- Where the hashes of the keys are unique, a key that was revoked authenticates nobody afterwards: for
-- its hash `get_api_key_user` answers with no user and changes no key, at any time.
pub revoke-get_api_key_user :
    (db : Database) (keys : List ApiKey) (id : ℕ) (user : Option ℕ) (k : ApiKey) (now : ℕ)
    → HasOnce (hashes keys)
    → first
        (λ j.
          j.key_id == id && (elim user as (λ x. Bool) [ none ↦ true | some u ↦ j.key_user == u ]))
        keys
      ≡ some k
    → let r = revoke_api_key keys id user in
      (r.1 ≡ true) × (get_api_key_user db r.0 k.key_hash now ≡ (r.0, none))
unfolding revoke_api_key get_api_key_user
revoke-get_api_key_user db keys id user k now once found =
    let p : ApiKey → Bool = λ j.
      j.key_id == id && (elim user as (λ x. Bool) [ none ↦ true | some u ↦ j.key_user == u ]) in
    let none_left = revoked_row now p keys k once found in
    (ap is_some found, rw (none_left, get_api_key_user) refl)
