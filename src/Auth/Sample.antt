-- ===== src/Auth/Sample.antt =====
-- A codec with the facts that backend/auth/security.py relies on, for the tests.
use omnitrack_ai_platform.Prelude.{
  ℕ, zero, suc, ◌+◌, ◌-◌, ◌*◌, ◌≡◌, refl, sym, false, Option, none, some, List, [], ◌∷◌, ◌++◌,
  arith, length, mem,
}
use mathlib.Core.List.{append-nil}
use omnitrack_ai_platform.Auth.Tokens.{Codec, Claims}
use omnitrack_ai_platform.Auth.Tokens.{
  IsBase64, TokenType, access, dot, equals_sign, padding, refresh,
}

abbrev tag : Option ℕ → ℕ
tag none = 0
tag (some n) = 1

abbrev value : Option ℕ → ℕ
value none = 0
value (some n) = n

abbrev to_option : ℕ → ℕ → Option ℕ
to_option zero n = none
to_option (suc k) n = some n

to_option-tag : (o : Option ℕ) → to_option (tag o) (value o) ≡ o
to_option-tag none = refl
to_option-tag (some n) = refl

abbrev type_code : TokenType → ℕ
type_code access = 0
type_code refresh = 1

abbrev to_type : ℕ → TokenType
to_type zero = access
to_type (suc n) = refresh

to_type-code : (t : TokenType) → to_type (type_code t) ≡ t
to_type-code access = refl
to_type-code refresh = refl

abbrev sample_dumps : Claims → List ℕ
sample_dumps c =
    c.sub
    ∷ c.role
    ∷ type_code c.type_of
    ∷ tag c.jti
    ∷ value c.jti
    ∷ tag c.iat
    ∷ value c.iat
    ∷ tag c.exp
    ∷ value c.exp
    ∷ []

abbrev sample_loads : List ℕ → Option Claims
sample_loads (sub ∷ role ∷ t ∷ j ∷ jti ∷ i ∷ iat ∷ e ∷ exp ∷ []) = some (record {
  sub = sub;
  role = role;
  type_of = to_type t;
  jti = to_option j jti;
  iat = to_option i iat;
  exp = to_option e exp;
})
sample_loads other = none

pub loads-sample_dumps : (c : Claims) → sample_loads (sample_dumps c) ≡ some c
loads-sample_dumps c =
    rw (to_type-code c.type_of, to_option-tag c.jti, to_option-tag c.iat, to_option-tag c.exp) refl

-- Four letters for each number, none of them a dot or an equals sign.
abbrev sample_encode : List ℕ → List ℕ
sample_encode [] = []
sample_encode (x ∷ xs) = (x + 100) ∷ 100 ∷ 100 ∷ 100 ∷ sample_encode xs

abbrev after : ℕ → Option (List ℕ) → Option (List ℕ)
after x none = none
after x (some xs) = some (x ∷ xs)

abbrev sample_decode : List ℕ → Option (List ℕ)
sample_decode [] = some []
sample_decode (a ∷ b ∷ c ∷ d ∷ rest) = after (a - 100) (sample_decode rest)
sample_decode other = none

pub decode-sample_encode : (xs : List ℕ) → sample_decode (sample_encode xs) ≡ some xs
decode-sample_encode [] = refl
decode-sample_encode (x ∷ xs) =
    let e : x + 100 - 100 ≡ x = omega arith in rw (decode-sample_encode xs, e) refl

length-sample_encode : (xs : List ℕ) → length (sample_encode xs) ≡ length xs * 4
length-sample_encode [] = refl
length-sample_encode (x ∷ xs) = omega (arith, length-sample_encode xs)

no_dot_sample : (xs : List ℕ) → mem dot (sample_encode xs) ≡ false
unfolding mem
no_dot_sample [] = refl
no_dot_sample (x ∷ xs) = ground (arith, no_dot_sample xs)

no_equals_sample : (xs : List ℕ) → mem equals_sign (sample_encode xs) ≡ false
unfolding mem
no_equals_sample [] = refl
no_equals_sample (x ∷ xs) = ground (arith, no_equals_sample xs)

pub sample_encode-IsBase64 : (xs : List ℕ) → IsBase64 (sample_encode xs)
unfolding padding
sample_encode-IsBase64 xs = record {
  body = sample_encode xs;
  pads = 0;
  written = sym (append-nil (sample_encode xs));
  few = omega arith;
  no_dot = no_dot_sample xs;
  no_equals = no_equals_sample xs;
  full = omega (arith, length-sample_encode xs);
}

abbrev pub sample_codec : Codec
sample_codec = record {
  header_json = 1 ∷ [];
  dumps = sample_dumps;
  loads = sample_loads;
  urlsafe_b64encode = sample_encode;
  urlsafe_b64decode = sample_decode;
  hmac_sha256 = λ key message. key ++ message;
  loads-dumps = loads-sample_dumps;
  decode-encode = decode-sample_encode;
  encode-IsBase64 = sample_encode-IsBase64;
}
