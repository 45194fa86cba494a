-- ===== src/Auth/Samples.antt =====
-- Sample values for the runs of the parts of internal/auth.
use skylens_azure.Common.{
  ℕ, ◌+◌, ◌-◌, ◌≡◌, ◌≢◌, refl, Bytes, codes, Option, none, some, [], ◌∷◌, ◌++◌, All, arith, true,
  false, leb, if◌then◌else◌,
}
use skylens_azure.Auth.Models.{User, JwtClaims}
use skylens_azure.Auth.Jwt.{Codec, RoundTrips, JwtManager, dot}

-- Stand-ins for the libraries: bytes are moved past the dot, and the signature is the message.
abbrev pub shift : Bytes → Bytes
shift [] = []
shift (x ∷ xs) = (x + 47) ∷ shift xs

abbrev pub cons_option : ℕ → Option Bytes → Option Bytes
cons_option x none = none
cons_option x (some xs) = some (x ∷ xs)

abbrev pub unshift : Bytes → Option Bytes
unshift [] = some []
unshift (x ∷ xs) = let rest = unshift xs in if leb 47 x then cons_option (x - 47) rest else none

unshift-shift : (b : Bytes) → unshift (shift b) ≡ some b
unshift-shift [] = refl
unshift-shift (x ∷ xs) = ground (arith, unshift-shift xs)

shift-dotless : (b : Bytes) → All (λ x. x ≢ dot) (shift b)
shift-dotless [] = tt
shift-dotless (x ∷ xs) = (omega arith, shift-dotless xs)

abbrev pub codec : JwtClaims → Codec
codec claims = record {
  marshal_header = codes "H";
  marshal = λ _. codes "C";
  unmarshal = λ _. some claims;
  base64 = shift;
  base64_decode = unshift;
  hmac_sha256 = λ secret message. secret ++ message;
}

pub codec-RoundTrips : (claims : JwtClaims) → RoundTrips (codec claims) claims
codec-RoundTrips claims = record {
  unmarshal-marshal = refl;
  decode-base64 = unshift-shift;
  base64-dotless = shift-dotless;
}

abbrev pub viewer : User
viewer = record {
  id = 3;
  username = codes "ada";
  password_hash = codes "secret";
  role_id = 2;
  role_name = codes "viewer";
  is_active = true;
  is_locked = false;
  locked_until = none;
  failed_attempts = 0;
  last_login = none;
  permissions = codes "drones:read" ∷ [];
  allowed_taps = codes "tap-1" ∷ [];
}

abbrev pub empty_claims : JwtClaims
empty_claims = record {
  user_id = 0;
  username = [];
  role_id = 0;
  role_name = [];
  session_id = [];
  permissions = [];
  issued_at = 0;
  expires_at = 0;
  not_before = 0;
  token_type = [];
}

abbrev pub manager : JwtClaims → JwtManager
manager claims = record {
  codec = codec claims;
  secret = codes "key";
  access_expiry = 28_800_000_000_000;
  refresh_expiry = 604_800_000_000_000;
}
