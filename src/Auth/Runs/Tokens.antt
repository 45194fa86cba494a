-- ===== src/Auth/Runs/Tokens.antt =====
-- The theorems on internal/auth/jwt.go at a concrete codec, user and session.
use skylens_azure.Common.{◌≡◌, refl, Bytes, codes, some, ◌∷◌, ◌++◌, arith, bytes_discrete}
use skylens_azure.Auth.Models.{JwtClaims}
use skylens_azure.Auth.Samples.{codec-RoundTrips, viewer, empty_claims, manager, unshift}
use skylens_azure.Auth.Jwt.{
  ok, err, token_expired, dot, encode, sign, access_claims, generate_access_token, refresh_claims,
  split, check_parts, decode, validate_token,
}
use skylens_azure.Auth.Jwt.RoundTrip.{validate-access_token, decode-ok_signed}

abbrev viewer_access : JwtClaims
viewer_access =
    unfold access_claims in access_claims (manager empty_claims) viewer (codes "s1") 1_000_000_000

abbrev viewer_refresh : JwtClaims
viewer_refresh =
    unfold refresh_claims in refresh_claims (manager empty_claims) viewer (codes "s1") 1_000_000_000

validate-access_token_example :
    validate_token
      (manager viewer_access)
      (generate_access_token (manager viewer_access) viewer (codes "s1") 1_000_000_000)
      28_802_000_000_000
    ≡ err token_expired
unfolding access_claims
validate-access_token_example =
    validate-access_token (manager viewer_access) viewer (codes "s1") 1_000_000_000
      28_802_000_000_000 (codec-RoundTrips viewer_access) (omega arith)

abbrev issued : Bytes
unfolding encode sign
issued = encode (manager empty_claims) empty_claims

issued_decodes : decode (manager empty_claims) issued ≡ ok empty_claims
unfolding decode split check_parts sign bytes_discrete encode
issued_decodes = refl

decode-ok_signed_example :
    (header : Bytes) × (payload : Bytes) × (signature : Bytes) × (issued
      ≡ header ++ (dot ∷ (payload ++ (dot ∷ signature))))
    × (unshift signature ≡ some (sign (manager empty_claims) (header ++ (dot ∷ payload))))
decode-ok_signed_example =
    decode-ok_signed (manager empty_claims) issued empty_claims issued_decodes
