-- ===== src/Auth/Tokens.antt =====
-- backend/auth/security.py: encode_jwt and decode_jwt. Texts and bytes are lists of numbers. JSON,
-- base64 and HMAC are the standard library's: `Codec` has their functions and the documented facts
-- on them that the code relies on.
use omnitrack_ai_platform.Prelude.{
  ℕ, zero, suc, ◌+◌, ◌-◌, ◌%◌, ◌<◌, ◌≡◌, Bool, true, false, ◌&&◌, Option, none, some, List, [], ◌∷◌,
  ◌++◌, ltb, ◌==◌, if◌then◌else◌, length, mem,
}
pub mod Split
pub mod RoundTrip

pub data TokenType : Type 0 where
  access refresh : TokenType

-- The claims that the services put in a token.
pub record Claims : Type 0 where
  pub sub : ℕ
  pub role : ℕ
  pub type_of : TokenType
  pub jti : Option ℕ
  pub iat : Option ℕ
  pub exp : Option ℕ

-- `.` and `=`.
abbrev pub dot : ℕ
dot = 46

abbrev pub equals_sign : ℕ
equals_sign = 61

-- `"=" * n`.
unfoldable pub padding : ℕ → List ℕ
padding zero = []
padding (suc n) = equals_sign ∷ padding n

-- What base64 writes: `body`, with neither `.` nor `=`, and at most two `=` that make the length a
-- multiple of 4.
pub record IsBase64 (text : List ℕ) : Type 0 where
  pub body : List ℕ
  pub pads : ℕ
  pub written : text ≡ body ++ padding pads
  pub few : pads < 3
  pub no_dot : mem dot body ≡ false
  pub no_equals : mem equals_sign body ≡ false
  pub full : (length body + pads) % 4 ≡ 0

pub record Codec : Type 0 where
  pub header_json : List ℕ
  pub dumps : Claims → List ℕ
  pub loads : List ℕ → Option Claims
  pub urlsafe_b64encode : List ℕ → List ℕ
  pub urlsafe_b64decode : List ℕ → Option (List ℕ)
  pub hmac_sha256 : List ℕ → List ℕ → List ℕ
  pub loads-dumps : (c : Claims) → loads (dumps c) ≡ some c
  pub decode-encode : (xs : List ℕ) → urlsafe_b64decode (urlsafe_b64encode xs) ≡ some xs
  pub encode-IsBase64 : (xs : List ℕ) → IsBase64 (urlsafe_b64encode xs)

-- `rstrip(b"=")`.
unfoldable pub rstrip : List ℕ → List ℕ
rstrip [] = []
rstrip (x ∷ xs) = elim (rstrip xs) [
  | [] ↦ (if x == equals_sign then [] else x ∷ [])
  | y ∷ ys ↦ x ∷ y ∷ ys
]

unfoldable pub b64encode_url : Codec → List ℕ → List ℕ
unfolding rstrip
b64encode_url codec xs = rstrip (codec.urlsafe_b64encode xs)

-- The padding of `-len(data) % 4` signs.
unfoldable pub b64decode_url : Codec → List ℕ → Option (List ℕ)
unfolding padding
b64decode_url codec xs = codec.urlsafe_b64decode (xs ++ padding ((4 - length xs % 4) % 4))

-- `token.split(".")`.
unfoldable pub split : List ℕ → List (List ℕ)
split [] = [] ∷ []
split (x ∷ xs) = elim (split xs) [
  | [] ↦ (x ∷ []) ∷ []
  | part ∷ parts ↦ (if x == dot then [] ∷ part ∷ parts else (x ∷ part) ∷ parts)
]

abbrev pub or_else : Option ℕ → ℕ → Option ℕ
or_else none n = some n
or_else (some a) n = some a

-- The claims with `iat` and `exp` set where they are missing.
unfoldable pub stamped : Claims → ℕ → ℕ → Claims
stamped c now expires_in = record c {
  iat = or_else c.iat now;
  exp = or_else c.exp (now + expires_in);
}

unfoldable pub signing_input : Codec → Claims → List ℕ
unfolding b64encode_url
signing_input codec c =
    b64encode_url codec codec.header_json ++ dot ∷ b64encode_url codec (codec.dumps c)

unfoldable pub encode_jwt : Codec → List ℕ → Claims → ℕ → ℕ → List ℕ
unfolding stamped signing_input b64encode_url
encode_jwt codec secret payload now expires_in =
    let input = signing_input codec (stamped payload now expires_in) in
    input ++ dot ∷ b64encode_url codec (codec.hmac_sha256 secret input)

-- `hmac.compare_digest`.
unfoldable pub same_bytes : List ℕ → List ℕ → Bool
same_bytes [] [] = true
same_bytes (x ∷ xs) (y ∷ ys) = x == y && same_bytes xs ys
same_bytes xs ys = false

-- `exp is not None and time.time() > float(exp)`.
unfoldable pub is_expired : ℕ → Claims → Bool
is_expired now c = elim c.exp [ none ↦ false | some at ↦ ltb at now ]

unfoldable pub accept : ℕ → Option Claims → Option Claims
unfolding is_expired
accept now none = none
accept now (some c) = if is_expired now c then none else some c

unfoldable pub decode_payload : Codec → ℕ → List ℕ → Option Claims
unfolding b64decode_url accept
decode_payload codec now payload = elim (b64decode_url codec payload) [
  | none ↦ none
  | some bytes ↦ accept now (codec.loads bytes)
]

-- The three parts of a token.
unfoldable pub decode_parts : Codec → List ℕ → ℕ → List ℕ → List ℕ → List ℕ → Option Claims
unfolding b64decode_url same_bytes decode_payload
decode_parts codec secret now header payload signature = elim (b64decode_url codec signature) [
  | none ↦ none
  | some actual ↦
      if same_bytes (codec.hmac_sha256 secret (header ++ dot ∷ payload)) actual
      then decode_payload codec now payload
      else none
]

unfoldable pub decode_jwt : Codec → List ℕ → ℕ → List ℕ → Option Claims
unfolding split decode_parts
decode_jwt codec secret now token = elim (split token) [
  | header ∷ payload ∷ signature ∷ [] ↦ decode_parts codec secret now header payload signature
  | _ ↦ none
]
