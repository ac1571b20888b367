-- ===== src/Auth/Tests.antt =====
-- The theorems on tokens and sessions at concrete inputs.
use omnitrack_ai_platform.Prelude.{
  ◌≡◌, refl, true, false, none, some, [], ◌∷◌, ◌==◌, if◌then◌else◌, mem,
}
use omnitrack_ai_platform.Auth.Tokens.{
  Claims, refresh, encode_jwt, decode_jwt, stamped, is_expired, split, decode_parts, decode_payload,
  accept, b64decode_url, b64encode_url, signing_input, same_bytes, rstrip, padding,
}
use omnitrack_ai_platform.Auth.Tokens.RoundTrip.{decode-encode_jwt, decode_jwt-IsSigned, IsSigned}
use omnitrack_ai_platform.Auth.Sample.{sample_codec}
use omnitrack_ai_platform.Auth.Sessions.{
  Env, Database, User, logout, refresh_decoded, issue, first, rotate, refresh_claims,
  create_session,
}
use omnitrack_ai_platform.Auth.Sessions.Calls.{logs_in, revokes_all, perform_all, IsRefused}
use omnitrack_ai_platform.Auth.Sessions.Revocation.{logout-IsRefused, refresh-IsRefused}
use omnitrack_ai_platform.Auth.Sessions.{authenticate}
use omnitrack_ai_platform.Auth.Accounts.{
  ApiKey, create_user, created, new_user, revoke_api_key, get_api_key_user,
}
use omnitrack_ai_platform.Auth.Accounts.Creation.{authenticate-create_user, no_email_twice}
use omnitrack_ai_platform.Auth.Accounts.Keys.{revoke-get_api_key_user}

signing : Unit {0}
unfolding decode_jwt split decode_parts decode_payload accept b64decode_url b64encode_url
    signing_input same_bytes rstrip padding encode_jwt stamped is_expired
signing = tt

abbrev payload : Claims
payload = record { sub = 3; role = 1; type_of = refresh; jti = some 8; iat = none; exp = none }

decode-encode_jwt_example :
    let c = stamped payload 100 50 in
    decode_jwt sample_codec (7 ∷ []) 120 (encode_jwt sample_codec (7 ∷ []) payload 100 50)
    ≡ (if is_expired 120 c then none else some c)
decode-encode_jwt_example = decode-encode_jwt sample_codec (7 ∷ []) payload 100 50 120

decode_jwt-IsSigned_example :
    let token = encode_jwt sample_codec (7 ∷ []) payload 100 50 in
    let c : Claims = record payload { iat = some 100; exp = some 150 } in
    IsSigned sample_codec (7 ∷ []) token 120 c × (is_expired 120 c ≡ false)
unfolding signing
decode_jwt-IsSigned_example =
    decode_jwt-IsSigned sample_codec (7 ∷ []) (encode_jwt sample_codec (7 ∷ []) payload 100 50) 120
      (record payload { iat = some 100; exp = some 150 }) refl

abbrev managed : Env
managed = record {
  session_management_enabled = true;
  access_minutes = 15;
  refresh_days = 7;
  jwt_secret = 7 ∷ [];
  codec = sample_codec;
  verify_password = λ password hash. password == hash;
}

abbrev operator : User
operator = record {
  id = 3;
  username = 20;
  email = none;
  password_hash = 55;
  user_role = 1;
  user_active = true;
  last_login_at = none;
}

abbrev entered : Database
entered = record {
  users = operator ∷ [];
  sessions = record { user_id = 3; token_jti = 8; is_active = true; expires_at = 1000 } ∷ [];
}

logout-IsRefused_example :
    IsRefused managed
      (perform_all managed (logout managed entered 8).0 (logs_in 20 55 210 9 ∷ []))
      payload
      220
      10
unfolding mem
logout-IsRefused_example =
    logout-IsRefused managed entered 8 (logs_in 20 55 210 9 ∷ []) payload 220 10 refl (refl, tt)
      (refl, tt) refl

refresh-IsRefused_example :
    IsRefused managed
      (perform_all managed
        (refresh_decoded managed entered (some payload) 200 9).0
        (logs_in 20 55 210 10 ∷ revokes_all 4 ∷ []))
      payload
      220
      11
unfolding refresh_decoded refresh_claims rotate first create_session mem
refresh-IsRefused_example =
    refresh-IsRefused managed entered 8 payload 200 9 (issue managed operator (some 9) 200)
      (logs_in 20 55 210 10 ∷ revokes_all 4 ∷ []) 220 11 refl (refl, tt) refl refl refl
      (refl, (tt, tt))

-- The second user has no email either; the third has one.
made : (create_user entered 4 30 (some 77) 81 2 true).1 ≡ created (new_user 4 30 (some 77) 81 2)
unfolding create_user
made = refl

authenticate-create_user_example :
    (authenticate managed (create_user entered 4 30 (some 77) 81 2 true).0 30 81 50).1
    ≡ some (new_user 4 30 (some 77) 81 2)
unfolding create_user
authenticate-create_user_example =
    authenticate-create_user managed entered 4 30 (some 77) 81 81 2 true
      (new_user 4 30 (some 77) 81 2) 50 refl refl

no_email_twice_example : ¬ ((u : User) × ((create_user entered 4 30 none 81 2 true).1 ≡ created u))
unfolding first
no_email_twice_example = no_email_twice entered 4 30 81 2 true operator refl

abbrev key : ApiKey
key = record {
  key_id = 1;
  key_user = 3;
  key_hash = 400;
  key_active = true;
  key_expires_at = none;
  last_used_at = none;
}

revoke-get_api_key_user_example :
    let r = revoke_api_key (key ∷ []) 1 (some 3) in
    (r.1 ≡ true) × (get_api_key_user entered r.0 400 60 ≡ (r.0, none))
unfolding first mem
revoke-get_api_key_user_example =
    revoke-get_api_key_user entered (key ∷ []) 1 (some 3) key 60 (refl, tt) refl
