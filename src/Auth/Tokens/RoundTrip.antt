-- ===== src/Auth/Tokens/RoundTrip.antt =====
-- Tokens of backend/auth/security.py: what is signed is read back, and nothing else is accepted.
use omnitrack_ai_platform.Prelude.{
  ℕ, ◌+◌, ◌-◌, ◌%◌, ◌<◌, ◌≡◌, refl, sym, ap, ◌∙◌, inl, inr, false, Option, none, some, List, [],
  ◌∷◌, ◌++◌, arith, if◌then◌else◌, Bool-cases, Option-cases, length, mem,
}
use mathlib.Core.List.{append_assoc}
use omnitrack_ai_platform.Auth.Tokens.{Codec}
use omnitrack_ai_platform.Auth.Tokens.{
  Claims, b64decode_url, b64encode_url, dot, encode_jwt, padding, signing_input, split, stamped,
}
use omnitrack_ai_platform.Auth.Tokens.Split.{padding_restored, rstrip-body, split-clean, split-dot}
use omnitrack_ai_platform.Auth.Tokens.{
  accept, decode_jwt, decode_parts, decode_payload, is_expired, same_bytes,
}
use omnitrack_ai_platform.Auth.Tokens.Split.{same_bytes-eq, same_bytes_refl}

stripped :
    (codec : Codec) (xs : List ℕ)
    → (body : List ℕ) × (pads : ℕ) × (codec.urlsafe_b64encode xs ≡ body ++ padding pads)
      × (b64encode_url codec xs ≡ body)
      × (pads < 3)
      × (mem dot body ≡ false)
      × ((length body + pads) % 4 ≡ 0)
unfolding b64encode_url
stripped codec xs =
    let w = codec.encode-IsBase64 xs in
    (
      w.body,
      w.pads,
      w.written,
      rw w.written (rstrip-body w.body w.pads w.no_equals),
      w.few,
      w.no_dot,
      w.full,
    )

decode_body :
    (codec : Codec) (body : List ℕ) (pads : ℕ)
    → (4 - length body % 4) % 4 ≡ pads
    → b64decode_url codec body ≡ codec.urlsafe_b64decode (body ++ padding pads)
unfolding b64decode_url
decode_body codec body pads e = ap (λ k. codec.urlsafe_b64decode (body ++ padding k)) e

-- The URL-safe form without padding is decoded to what was encoded.
b64decode-b64encode :
    (codec : Codec) (xs : List ℕ) → b64decode_url codec (b64encode_url codec xs) ≡ some xs
b64decode-b64encode codec xs =
    let (body, pads, written, short, few, clean, full) = stripped codec xs in
    ap (b64decode_url codec) short
    ∙ decode_body codec body pads (padding_restored (length body) pads few full)
    ∙ ap codec.urlsafe_b64decode (sym written)
    ∙ codec.decode-encode xs

b64encode_clean : (codec : Codec) (xs : List ℕ) → mem dot (b64encode_url codec xs) ≡ false
b64encode_clean codec xs =
    let (body, pads, written, short, few, clean, full) = stripped codec xs in rw short clean

-- A token splits into its three parts.
split-encode :
    (codec : Codec) (secret : List ℕ) (payload : Claims) (now expires_in : ℕ)
    → split (encode_jwt codec secret payload now expires_in)
      ≡ b64encode_url codec codec.header_json
        ∷ b64encode_url codec (codec.dumps (stamped payload now expires_in))
        ∷ b64encode_url codec
            (codec.hmac_sha256 secret (signing_input codec (stamped payload now expires_in)))
        ∷ []
unfolding encode_jwt signing_input
split-encode codec secret payload now expires_in =
    let h = b64encode_url codec codec.header_json in
    let p = b64encode_url codec (codec.dumps (stamped payload now expires_in)) in
    let s = b64encode_url codec (codec.hmac_sha256 secret (h ++ dot ∷ p)) in
    ap split (append_assoc h (dot ∷ p) (dot ∷ s))
    ∙ split-dot h (p ++ dot ∷ s) (b64encode_clean codec codec.header_json)
    ∙ ap (λ parts. h ∷ parts)
        (split-dot p s (b64encode_clean codec (codec.dumps (stamped payload now expires_in)))
          ∙ ap (λ parts. p ∷ parts)
              (split-clean s (b64encode_clean codec (codec.hmac_sha256 secret (h ++ dot ∷ p)))))

decode-three :
    (codec : Codec) (secret : List ℕ) (now : ℕ) (token h p s : List ℕ)
    → split token ≡ h ∷ p ∷ s ∷ []
    → decode_jwt codec secret now token ≡ decode_parts codec secret now h p s
unfolding decode_jwt
decode-three codec secret now token h p s e = rw (decode_jwt, e) refl

decode_parts_good :
    (codec : Codec) (secret : List ℕ) (now : ℕ) (h p s : List ℕ)
    → b64decode_url codec s ≡ some (codec.hmac_sha256 secret (h ++ dot ∷ p))
    → decode_parts codec secret now h p s ≡ decode_payload codec now p
unfolding decode_parts
decode_parts_good codec secret now h p s e =
    rw (decode_parts, e, same_bytes_refl (codec.hmac_sha256 secret (h ++ dot ∷ p))) refl

decode_payload_good :
    (codec : Codec) (now : ℕ) (p bytes : List ℕ) (c : Claims)
    → b64decode_url codec p ≡ some bytes
    → codec.loads bytes ≡ some c
    → decode_payload codec now p ≡ (if is_expired now c then none else some c)
unfolding decode_payload accept
decode_payload_good codec now p bytes c e k = rw (decode_payload, e, k) refl

-- A token that was issued under a secret and is read under it at any later time gives back its
-- claims, with the times of issue and of expiry that were filled in, unless it has expired by then.
-- Base64, JSON and HMAC do what they document.
pub decode-encode_jwt :
    (codec : Codec) (secret : List ℕ) (payload : Claims) (now expires_in later : ℕ)
    → let c = stamped payload now expires_in in
      decode_jwt codec secret later (encode_jwt codec secret payload now expires_in)
      ≡ (if is_expired later c then none else some c)
unfolding signing_input
decode-encode_jwt codec secret payload now expires_in later =
    let c = stamped payload now expires_in in
    let h = b64encode_url codec codec.header_json in
    let p = b64encode_url codec (codec.dumps c) in
    let mac = codec.hmac_sha256 secret (h ++ dot ∷ p) in
    let s = b64encode_url codec mac in
    decode-three codec secret later (encode_jwt codec secret payload now expires_in) h p s
      (split-encode codec secret payload now expires_in)
    ∙ decode_parts_good codec secret later h p s (b64decode-b64encode codec mac)
    ∙ decode_payload_good codec later p (codec.dumps c) c
        (b64decode-b64encode codec (codec.dumps c)) (codec.loads-dumps c)

-- What an accepted token shows.
pub record IsSigned (codec : Codec) (secret token : List ℕ) (now : ℕ) (c : Claims) : Type 0 where
  pub header : List ℕ
  pub payload : List ℕ
  pub signature : List ℕ
  pub parts : split token ≡ header ∷ payload ∷ signature ∷ []
  pub signed :
      b64decode_url codec signature ≡ some (codec.hmac_sha256 secret (header ++ dot ∷ payload))
  pub read : decode_payload codec now payload ≡ some c

accept-unexpired :
    (now : ℕ) (o : Option Claims) (c : Claims) → accept now o ≡ some c → is_expired now c ≡ false
unfolding accept
accept-unexpired now none c h = cc
accept-unexpired now (some d) c h = elim (Bool-cases (is_expired now d)) [
  | inl e ↦ absurd (ground arith)
  | inr e ↦ let same : some d ≡ some c = ground arith in let d_c : d ≡ c = cc in rw (← d_c) e
]

payload-unexpired :
    (codec : Codec) (now : ℕ) (p : List ℕ) (c : Claims)
    → decode_payload codec now p ≡ some c
    → is_expired now c ≡ false
unfolding decode_payload
payload-unexpired codec now p c h = elim (Option-cases (b64decode_url codec p)) [
  | inl bad ↦ absurd (ground arith)
  | inr (bytes, good) ↦ accept-unexpired now (codec.loads bytes) c (ground arith)
]

parts-IsSigned :
    (codec : Codec) (secret token : List ℕ) (now : ℕ) (c : Claims) (h p s : List ℕ)
    → split token ≡ h ∷ p ∷ s ∷ []
    → decode_parts codec secret now h p s ≡ some c
    → IsSigned codec secret token now c
unfolding decode_parts
parts-IsSigned codec secret token now c h p s e k = elim (Option-cases (b64decode_url codec s)) [
  | inl bad ↦ absurd (ground arith)
  | inr (actual, good) ↦
      elim (Bool-cases (same_bytes (codec.hmac_sha256 secret (h ++ dot ∷ p)) actual)) [
        | inl same ↦
            let mac = same_bytes-eq (codec.hmac_sha256 secret (h ++ dot ∷ p)) actual same in
            record {
              header = h;
              payload = p;
              signature = s;
              parts = e;
              signed = good ∙ ap some (sym mac);
              read = ground arith;
            }
        | inr other ↦ absurd (ground arith)
      ]
]

decode-IsSigned_of :
    (codec : Codec) (secret token : List ℕ) (now : ℕ) (c : Claims) (parts : List (List ℕ))
    → split token ≡ parts
    → decode_jwt codec secret now token ≡ some c
    → IsSigned codec secret token now c
unfolding decode_jwt
decode-IsSigned_of codec secret token now c [] e k = absurd (ground arith)
decode-IsSigned_of codec secret token now c (h ∷ []) e k = absurd (ground arith)
decode-IsSigned_of codec secret token now c (h ∷ p ∷ []) e k = absurd (ground arith)
decode-IsSigned_of codec secret token now c (h ∷ p ∷ s ∷ []) e k =
    parts-IsSigned codec secret token now c h p s e
      (sym (decode-three codec secret now token h p s e) ∙ k)
decode-IsSigned_of codec secret token now c (h ∷ p ∷ s ∷ r ∷ rest) e k = absurd (ground arith)

-- A token is accepted only if it has three parts of which the last one is the keyed hash of the
-- two others under the secret, and the claims that it gives are those of its second part and have
-- not expired.
pub decode_jwt-IsSigned :
    (codec : Codec) (secret token : List ℕ) (now : ℕ) (c : Claims)
    → decode_jwt codec secret now token ≡ some c
    → IsSigned codec secret token now c × (is_expired now c ≡ false)
decode_jwt-IsSigned codec secret token now c k =
    let signed = decode-IsSigned_of codec secret token now c (split token) refl k in
    (signed, payload-unexpired codec now signed.payload c signed.read)
