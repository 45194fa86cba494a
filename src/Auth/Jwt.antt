-- ===== src/Auth/Jwt.antt =====
-- The token manager of internal/auth/jwt.go. JSON, base64 and HMAC-SHA256 are Go's libraries: they
-- are the record `Codec`, with what their documentation promises of a round trip.
pub mod RoundTrip
use skylens_azure.Common.{
  ℕ, ◌+◌, ◌/◌, ◌<◌, ◌≡◌, ◌≢◌, Bytes, codes, same, Option, none, some, List, [], ◌∷◌, ◌++◌, Bool,
  true, false, ltb, if◌then◌else◌, length, ◌==◌, ◌&&◌, All,
}
use skylens_azure.Auth.Models.{User, JwtClaims}

pub record Codec : Type 0 where
  pub marshal_header : Bytes
  pub marshal : JwtClaims → Bytes
  pub unmarshal : Bytes → Option JwtClaims
  pub base64 : Bytes → Bytes
  pub base64_decode : Bytes → Option Bytes
  pub hmac_sha256 : Bytes → Bytes → Bytes

-- The byte of ".".
abbrev pub dot : ℕ
dot = b'.'

-- The claims at hand survive JSON, the raw URL alphabet has no dot, and decoding undoes encoding.
pub record RoundTrips (c : Codec) (claims : JwtClaims) : Type 0 where
  pub unmarshal-marshal : c.unmarshal (c.marshal claims) ≡ some claims
  pub decode-base64 : (b : Bytes) → c.base64_decode (c.base64 b) ≡ some b
  pub base64-dotless : (b : Bytes) → All (λ x. x ≢ dot) (c.base64 b)

pub data JwtError : Type 0 where
  token_malformed token_expired token_invalid : JwtError

pub data Decoded : Type 0 where
  ok : JwtClaims → Decoded
  err : JwtError → Decoded

-- Expiries are nanoseconds, as time.Duration.
pub record JwtManager : Type 0 where
  pub codec : Codec
  pub secret : Bytes
  pub access_expiry : ℕ
  pub refresh_expiry : ℕ

-- `time.Time.Unix`.
abbrev pub unix : ℕ → ℕ
unix t = t / 1_000_000_000

abbrev pub access : Bytes
access = codes "access"

abbrev pub refresh : Bytes
refresh = codes "refresh"

unfoldable pub sign : JwtManager → Bytes → Bytes
sign m b = m.codec.hmac_sha256 m.secret b

unfoldable pub encode : JwtManager → JwtClaims → Bytes
unfolding sign
encode m claims =
    let header = m.codec.base64 m.codec.marshal_header in
    let payload = m.codec.base64 (m.codec.marshal claims) in
    let signing_input = header ++ (dot ∷ payload) in
    signing_input ++ (dot ∷ m.codec.base64 (sign m signing_input))

unfoldable pub access_claims : JwtManager → User → Bytes → ℕ → JwtClaims
access_claims m u session_id now = record {
  user_id = u.id;
  username = u.username;
  role_id = u.role_id;
  role_name = u.role_name;
  session_id = session_id;
  permissions = u.permissions;
  issued_at = unix now;
  expires_at = unix (now + m.access_expiry);
  not_before = unix now;
  token_type = access;
}

unfoldable pub generate_access_token : JwtManager → User → Bytes → ℕ → Bytes
unfolding access_claims encode
generate_access_token m u session_id now = encode m (access_claims m u session_id now)

unfoldable pub refresh_claims : JwtManager → User → Bytes → ℕ → JwtClaims
refresh_claims m u session_id now = record {
  user_id = u.id;
  username = u.username;
  role_id = u.role_id;
  role_name = u.role_name;
  session_id = session_id;
  permissions = [];
  issued_at = unix now;
  expires_at = unix (now + m.refresh_expiry);
  not_before = unix now;
  token_type = refresh;
}

unfoldable pub generate_refresh_token : JwtManager → User → Bytes → ℕ → Bytes
unfolding refresh_claims encode
generate_refresh_token m u session_id now = encode m (refresh_claims m u session_id now)

-- `strings.Split` at the dots: `piece` is the part read so far.
unfoldable pub split : Bytes → Bytes → List Bytes
split piece [] = piece ∷ []
split piece (x ∷ xs) =
    let more = split [] xs in
    let longer = split (piece ++ x ∷ []) xs in if x == dot then piece ∷ more else longer

-- What `decode` does with the three parts.
unfoldable pub check_parts : JwtManager → Bytes → Bytes → Bytes → Decoded
unfolding sign
check_parts m header payload signature = elim (m.codec.base64_decode signature) [
  | none ↦ err token_malformed
  | some actual ↦
      if same (sign m (header ++ (dot ∷ payload))) actual
      then elim (m.codec.base64_decode payload) [
        | none ↦ err token_malformed
        | some json ↦ elim (m.codec.unmarshal json) [
          | none ↦ err token_malformed
          | some claims ↦ ok claims
        ]
      ]
      else err token_invalid
]

abbrev pub three_parts : JwtManager → List Bytes → Decoded
three_parts m (header ∷ payload ∷ signature ∷ []) = check_parts m header payload signature
three_parts m _ = err token_malformed

unfoldable pub decode : JwtManager → Bytes → Decoded
unfolding split
decode m token = three_parts m (split [] token)

abbrev check_times : ℕ → Decoded → Decoded
check_times now (err e) = err e
check_times now (ok claims) =
    if ltb claims.expires_at (unix now)
    then err token_expired
    else if ltb 0 claims.not_before && ltb (unix now) claims.not_before
    then err token_invalid
    else ok claims

unfoldable pub validate_token : JwtManager → Bytes → ℕ → Decoded
unfolding decode
validate_token m token now = check_times now (decode m token)
