-- ===== src/Intel/Dji/Encrypted.antt =====
-- What internal/intel/dji_parser.go reads of a payload of version 2 or later, whose telemetry is
-- encrypted.
use skylens_azure.Common.{
  ℕ, zero, suc, ◌+◌, ◌≤◌, ◌<◌, ◌≡◌, refl, sym, ap, ◌∙◌, Bytes, Option, none, some, [], ◌∷◌, Bool,
  true, ltb, leb, ◌&&◌, length, take, arith, Bool-cases, inl, inr, is_some, not, ◌||◌,
}
use skylens_azure.Common.Int.{ℤ, pos, abs, signed}
use skylens_azure.Intel.Bits.{byte_at, slice, uint16_at, int16_at}
use skylens_azure.Intel.Dji.{
  DjiDroneId, parse_dji_drone_id, has_valid_position, has_home_position, has_pilot_position,
  with_product, cleartext, with_uuid, with_pilot, with_telemetry,
}
use skylens_azure.Intel.Dji.Models.{normalize_yaw-range}

byte_at-take : (i n : ℕ) (s : Bytes) → i < n → byte_at i (take n s) ≡ byte_at i s
byte_at-take i zero s h = absurd (omega arith)
byte_at-take i (suc n) [] h = refl
byte_at-take zero (suc n) (x ∷ xs) h = refl
byte_at-take (suc i) (suc n) (x ∷ xs) h = byte_at-take i n xs (omega arith)

slice-take : (from n m : ℕ) (s : Bytes) → from + n ≡ m → slice from n (take m s) ≡ slice from n s
slice-take zero zero m s e = refl
slice-take zero (suc n) zero s e = absurd (omega arith)
slice-take zero (suc n) (suc m) [] e = refl
slice-take zero (suc n) (suc m) (x ∷ xs) e = ap (λ t. x ∷ t) (slice-take zero n m xs (omega arith))
slice-take (suc f) n zero s e = absurd (omega arith)
slice-take (suc f) n (suc m) [] e = refl
slice-take (suc f) n (suc m) (x ∷ xs) e = slice-take f n m xs (omega arith)

byte-agrees : (i : ℕ) (a b : Bytes) → take 21 a ≡ take 21 b → i < 21 → byte_at i a ≡ byte_at i b
byte-agrees i a b e h = sym (byte_at-take i 21 a h) ∙ ap (byte_at i) e ∙ byte_at-take i 21 b h

serial-agrees : (a b : Bytes) → take 21 a ≡ take 21 b → slice 5 16 a ≡ slice 5 16 b
serial-agrees a b e =
    sym (slice-take 5 16 21 a refl) ∙ ap (slice 5 16) e ∙ slice-take 5 16 21 b refl

-- Of an encrypted payload only the first 21 bytes, the product byte and the length matter: two payloads
-- that agree there are decoded alike, whatever their other bytes are.
parse-encrypted :
    (hypot : ℤ → ℤ → ℕ) (a b : Bytes)
    → 2 ≤ byte_at 0 a
    → take 21 a ≡ take 21 b
    → byte_at 53 a ≡ byte_at 53 b
    → length a ≡ length b
    → parse_dji_drone_id hypot a ≡ parse_dji_drone_id hypot b
unfolding parse_dji_drone_id
parse-encrypted hypot a b v e p l =
    let v0 : byte_at 0 b ≡ byte_at 0 a = sym (byte-agrees 0 a b e (omega arith)) in
    let v1 : byte_at 1 b ≡ byte_at 1 a = sym (byte-agrees 1 a b e (omega arith)) in
    let v2 : byte_at 2 b ≡ byte_at 2 a = sym (byte-agrees 2 a b e (omega arith)) in
    let v3 : byte_at 3 b ≡ byte_at 3 a = sym (byte-agrees 3 a b e (omega arith)) in
    let v4 : byte_at 4 b ≡ byte_at 4 a = sym (byte-agrees 4 a b e (omega arith)) in
    let enc : leb 2 (byte_at 0 a) ≡ true = ground arith in
    rw (sym l, v0, v1, v2, v3, v4, sym p, sym (serial-agrees a b e), enc) refl

-- No position of an encrypted payload passes for a valid one.
abbrev pub no_position : Option DjiDroneId → Bool
no_position none = true
no_position (some d) = not (has_valid_position d || (has_home_position d || has_pilot_position d))

product_no_position :
    (bytes s : Bytes) → no_position (some (with_product bytes (cleartext s))) ≡ true
unfolding has_valid_position has_home_position has_pilot_position
product_no_position bytes s = elim (Bool-cases (leb 54 (length bytes))) [
  | inl e ↦ rw e (ground arith)
  | inr e ↦ rw e (ground arith)
]

-- A payload of version 2 or later yields no position of the drone, its home or its pilot that passes for
-- valid, whatever its bytes are.
encrypted-no_position :
    (hypot : ℤ → ℤ → ℕ) (bytes : Bytes)
    → 2 ≤ byte_at 0 bytes
    → no_position (parse_dji_drone_id hypot bytes) ≡ true
unfolding parse_dji_drone_id
encrypted-no_position hypot bytes v =
    let enc : leb 2 (byte_at 0 bytes) ≡ true = ground arith in
    elim (Bool-cases (ltb (length bytes) 53)) [
      | inl e ↦ rw e refl
      | inr e ↦ rw (e, enc) (product_no_position bytes bytes)
    ]

abbrev pub YawInTurn : Option DjiDroneId → Type 0
YawInTurn none = Unit
YawInTurn (some d) = (n : ℕ) × (d.yaw ≡ pos n) × (n < 36_000)

signed-small : (n : ℕ) → abs (signed 32_768 n) < 36_000
signed-small n = ground arith

yaw-with_product : (bytes : Bytes) (d : DjiDroneId) → (with_product bytes d).yaw ≡ d.yaw
yaw-with_product bytes d = elim (Bool-cases (leb 54 (length bytes))) [
  | inl e ↦ rw e refl
  | inr e ↦ rw e refl
]

yaw-with_uuid : (bytes : Bytes) (d : DjiDroneId) → (with_uuid bytes d).yaw ≡ d.yaw
yaw-with_uuid bytes d =
    elim (Bool-cases
      (leb 75 (length bytes) && ltb 0 (byte_at 54 bytes) && leb (byte_at 54 bytes) 20)) [
        | inl e ↦ rw e refl
        | inr e ↦ rw e refl
      ]

yaw-with_pilot : (bytes : Bytes) (d : DjiDroneId) → (with_pilot bytes d).yaw ≡ d.yaw
yaw-with_pilot bytes d = elim (Bool-cases (leb 88 (length bytes))) [
  | inl e ↦ rw e refl
  | inr e ↦ rw e refl
]

-- A payload is decoded exactly when it has at least 53 bytes, and the yaw angle that comes out is from 0 to
-- below 360 degrees: the rounds that normalise the angle are enough.
pub parse_dji-yaw :
    (hypot : ℤ → ℤ → ℕ) (bytes : Bytes)
    → (is_some (parse_dji_drone_id hypot bytes) ≡ leb 53 (length bytes))
      × YawInTurn (parse_dji_drone_id hypot bytes)
unfolding parse_dji_drone_id
parse_dji-yaw hypot bytes =
    let (n, y, lt, near) =
      normalize_yaw-range (int16_at 43 bytes) (signed-small (uint16_at 43 bytes)) in
    let d = with_telemetry hypot bytes (cleartext bytes) in
    let q = with_product bytes d in
    elim (Bool-cases (ltb (length bytes) 53)) [
      | inl e ↦ rw e (ground arith, tt)
      | inr e ↦ elim (Bool-cases (leb 2 (byte_at 0 bytes))) [
        | inl v ↦
            rw (e, v) (ground arith, (0, yaw-with_product bytes (cleartext bytes), omega arith))
        | inr v ↦
            rw (e, v)
              (
                ground arith,
                (
                  n,
                  yaw-with_pilot bytes (with_uuid bytes q)
                      ∙ yaw-with_uuid bytes q
                      ∙ yaw-with_product bytes d
                      ∙ y,
                  lt,
                ),
              )
      ]
    ]
