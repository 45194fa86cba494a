-- ===== src/Auth/Jwt/RoundTrip.antt =====
-- A token that internal/auth/jwt.go issues is read back, and a token with another signature is not.
use skylens_azure.Common.{
  ℕ, ◌+◌, ◌≤◌, ◌≡◌, ◌≢◌, refl, ap, sym, ◌∙◌, inl, inr, Bool-cases, ◌==◌, ltb, if◌then◌else◌, Bytes,
  some, List, [], ◌∷◌, ◌++◌, All, arith, same_refl,
}
use mathlib.Core.List.{append_assoc, append-nil}
use skylens_azure.Auth.Models.{User, JwtClaims}
use skylens_azure.Auth.Jwt.{
  RoundTrips, JwtManager, ok, err, token_expired, dot, unix, sign, encode, access_claims,
  generate_access_token, refresh_claims, generate_refresh_token, split, check_parts, three_parts,
  decode, validate_token,
}

-- A part without dots is read up to the dot behind it, or to the end.
split_part :
    (piece part rest : Bytes)
    → All (λ x. x ≢ dot) part
    → split piece (part ++ (dot ∷ rest)) ≡ (piece ++ part) ∷ split [] rest
unfolding split
split_part piece [] rest h = ground (arith, append-nil piece)
split_part piece (x ∷ part) rest (ne, h) =
    ground (arith, split_part (piece ++ x ∷ []) part rest h, append_assoc piece (x ∷ []) part)

split_end : (piece part : Bytes) → All (λ x. x ≢ dot) part → split piece part ≡ (piece ++ part) ∷ []
unfolding split
split_end piece [] h = ground (arith, append-nil piece)
split_end piece (x ∷ part) (ne, h) =
    ground (arith, split_end (piece ++ x ∷ []) part h, append_assoc piece (x ∷ []) part)

-- Three parts with dots between them are found again.
split_token :
    (header payload signature : Bytes)
    → All (λ x. x ≢ dot) header
    → All (λ x. x ≢ dot) payload
    → All (λ x. x ≢ dot) signature
    → split [] ((header ++ (dot ∷ payload)) ++ (dot ∷ signature))
      ≡ header ∷ payload ∷ signature ∷ []
split_token header payload signature h p s =
    rw (append_assoc header (dot ∷ payload) (dot ∷ signature)) (
      split_part [] header (payload ++ (dot ∷ signature)) h
      ∙ ap (◌∷◌ header)
          (split_part [] payload signature p ∙ ap (◌∷◌ payload) (split_end [] signature s)))

-- What `encode` wrote, `decode` reads back.
decode-encode :
    (m : JwtManager) (claims : JwtClaims)
    → RoundTrips m.codec claims
    → decode m (encode m claims) ≡ ok claims
unfolding decode encode check_parts
decode-encode m claims c =
    let header = m.codec.base64 m.codec.marshal_header in
    let payload = m.codec.base64 (m.codec.marshal claims) in
    let signature = m.codec.base64 (sign m (header ++ (dot ∷ payload))) in
    rw
      (split_token header payload signature (c.base64-dotless _) (c.base64-dotless _)
        (c.base64-dotless _))
      (ground (
        arith,
        c.decode-base64 (sign m (header ++ (dot ∷ payload))),
        same_refl (sign m (header ++ (dot ∷ payload))),
        c.decode-base64 (m.codec.marshal claims),
        c.unmarshal-marshal,
      ))

-- From its issue on an access token is read back with the claims of its user and session, until the
-- second in which it expires has passed; from then on it is refused as expired.
pub validate-access_token :
    (m : JwtManager) (u : User) (session_id : Bytes) (now later : ℕ)
    → RoundTrips m.codec (access_claims m u session_id now)
    → now ≤ later
    → validate_token m (generate_access_token m u session_id now) later ≡ (
        if ltb (unix (now + m.access_expiry)) (unix later)
        then err token_expired
        else ok (access_claims m u session_id now))
unfolding validate_token generate_access_token
validate-access_token m u session_id now later c le =
    ground (arith, decode-encode m (access_claims m u session_id now) c)

-- From its issue on a refresh token is read back with the claims of its user and session, until the
-- second in which it expires has passed; from then on it is refused as expired.
validate-refresh_token :
    (m : JwtManager) (u : User) (session_id : Bytes) (now later : ℕ)
    → RoundTrips m.codec (refresh_claims m u session_id now)
    → now ≤ later
    → validate_token m (generate_refresh_token m u session_id now) later ≡ (
        if ltb (unix (now + m.refresh_expiry)) (unix later)
        then err token_expired
        else ok (refresh_claims m u session_id now))
unfolding validate_token generate_refresh_token
validate-refresh_token m u session_id now later c le =
    ground (arith, decode-encode m (refresh_claims m u session_id now) c)

-- The parts with dots between them again.
abbrev join : List Bytes → Bytes
join [] = []
join (p ∷ []) = p
join (p ∷ q ∷ qs) = p ++ (dot ∷ join (q ∷ qs))

split-cons : (piece xs : Bytes) → (q : Bytes) × (qs : List Bytes) × (split piece xs ≡ q ∷ qs)
unfolding split
split-cons piece [] = (piece, [], refl)
split-cons piece (x ∷ xs) = elim (Bool-cases (x == dot)) [
  | inl e ↦ (piece, split [] xs, rw e)
  | inr e ↦ rw e (split-cons (piece ++ x ∷ []) xs)
]

join-cons : (p : Bytes) (xs : Bytes) → join (p ∷ split [] xs) ≡ p ++ (dot ∷ join (split [] xs))
join-cons p xs = let (q, qs, e) = split-cons [] xs in rw e

join-split : (piece xs : Bytes) → join (split piece xs) ≡ piece ++ xs
unfolding split
join-split piece [] = ground (arith, append-nil piece)
join-split piece (x ∷ xs) = ground (
  arith,
  join-cons piece xs,
  join-split [] xs,
  join-split (piece ++ x ∷ []) xs,
  append_assoc piece (x ∷ []) xs,
)

checked_signed :
    (m : JwtManager) (header payload signature : Bytes) (claims : JwtClaims)
    → check_parts m header payload signature ≡ ok claims
    → m.codec.base64_decode signature ≡ some (sign m (header ++ (dot ∷ payload)))
unfolding check_parts
checked_signed m header payload signature claims e = ground arith

parts_signed :
    (m : JwtManager) (ps : List Bytes) (claims : JwtClaims)
    → three_parts m ps ≡ ok claims
    → (header : Bytes) × (payload : Bytes) × (signature : Bytes) × (ps
        ≡ header ∷ payload ∷ signature ∷ [])
      × (m.codec.base64_decode signature ≡ some (sign m (header ++ (dot ∷ payload))))
parts_signed m (h ∷ p ∷ s ∷ []) claims e = (h, p, s, refl, checked_signed m h p s claims e)
parts_signed m _ claims e = cc

-- A token is accepted only if it has three parts and the last is the encoded signature, under the
-- manager's secret, of the first two.
pub decode-ok_signed :
    (m : JwtManager) (token : Bytes) (claims : JwtClaims)
    → decode m token ≡ ok claims
    → (header : Bytes) × (payload : Bytes) × (signature : Bytes) × (token
        ≡ header ++ (dot ∷ (payload ++ (dot ∷ signature))))
      × (m.codec.base64_decode signature ≡ some (sign m (header ++ (dot ∷ payload))))
unfolding decode
decode-ok_signed m token claims e =
    let (h, p, s, parts, signed) = parts_signed m (split [] token) claims e in
    (h, p, s, rw parts at (sym (join-split [] token)), signed)
