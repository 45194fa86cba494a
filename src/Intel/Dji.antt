-- ===== src/Intel/Dji.antt =====
-- The DJI DroneID decoder of internal/intel/dji_parser.go. Coordinates keep the unit of their encoding,
-- 1/174533 degrees, velocities are cm/s and angles 1/100 degrees, so the source's divisions are left
-- out; altitudes are metres. The square root of the ground speed is an argument.
mod Tables
pub mod Models
pub mod Encrypted
unfoldable pub use Tables.{dji_product_types, dji_serial_prefixes}
use skylens_azure.Common.{
  ℕ, zero, suc, ◌+◌, ◌-◌, ◌*◌, ◌/◌, ◌%◌, Bytes, codes, same, Option, none, some, List, [], ◌∷◌,
  ◌++◌, Bool, true, false, not, ltb, leb, ◌==◌, ◌&&◌, ◌||◌, if◌then◌else◌, length, take, drop, any,
}
use skylens_azure.Common.Int.{ℤ, pos, negsuc, pos_part, neg_part, sub_ℕ, is_zero, abs}
use skylens_azure.Common.Maps.{Map, lookup}
use skylens_azure.Intel.Bits.{byte_at, slice, uint16_at, int16_at, int32_at, extract_ascii}

pub record DjiDroneId : Type 0 where
  pub product_type : ℕ
  pub product_model : Bytes
  pub serial_number : Bytes
  pub drone_uuid : Bytes
  pub latitude : ℤ
  pub longitude : ℤ
  pub altitude : ℤ
  pub height : ℤ
  pub home_lat : ℤ
  pub home_lon : ℤ
  pub velocity_x : ℤ
  pub velocity_y : ℤ
  pub velocity_z : ℤ
  pub speed : ℕ
  pub yaw : ℤ
  pub pitch : ℤ
  pub roll : ℤ
  pub pilot_lat : ℤ
  pub pilot_lon : ℤ
  pub state_info : ℕ
  pub motors_on : Bool
  pub in_air : Bool
  pub gps_valid : Bool
  pub altitude_valid : Bool
  pub sequence_number : ℕ
  pub version : ℕ

abbrev pub find_product : ℕ → List (ℕ × Bytes) → Option Bytes
find_product code [] = none
find_product code ((c, name) ∷ ps) = if c == code then some name else find_product code ps

unfoldable pub get_dji_model_name : ℕ → Bytes
get_dji_model_name code = elim (find_product code dji_product_types) [
  | none ↦ []
  | some name ↦ name
]

-- A digit of `%02X`.
abbrev hex_digit : ℕ → ℕ
hex_digit n = if ltb n 10 then n + 48 else n + 55

unfoldable pub product_name : ℕ → Bytes
product_name code = elim (find_product code dji_product_types) [
  | none ↦ codes "Unknown DJI (0x" ++ hex_digit (code / 16 % 16) ∷ hex_digit (code % 16) ∷ codes ")"
  | some name ↦ name
]

-- The loop of `DecodeModelFromSerial`: the prefix of n + 3 characters, then the shorter ones.
unfoldable pub longest_prefix : ℕ → Bytes → Bytes
longest_prefix zero serial = []
longest_prefix (suc n) serial =
    let rest = longest_prefix n serial in
    if leb (n + 4) (length serial)
    then elim (lookup (take (n + 4) serial) dji_serial_prefixes) [
      | none ↦ rest
      | some model ↦ model
    ]
    else rest

unfoldable pub decode_model_from_serial : Bytes → Bytes
unfolding longest_prefix
decode_model_from_serial serial = if ltb (length serial) 4 then [] else longest_prefix 5 serial

-- The loop of `containsSubstr`, on what is left of the text.
unfoldable pub contains_substr : Bytes → Bytes → Bool
contains_substr [] sub = leb (length sub) 0 && same [] sub
contains_substr (x ∷ xs) sub =
    let rest = contains_substr xs sub in
    leb (length sub) (length (x ∷ xs)) && (same (take (length sub) (x ∷ xs)) sub || rest)

unfoldable pub contains : Bytes → Bytes → Bool
unfolding contains_substr
contains s sub =
    leb (length sub) (length s)
    && (same s sub
        || (ltb (length sub) (length s)
            && (same (take (length sub) s) sub || contains_substr s sub)))

abbrev pub contains_any : Bytes → List Bytes → Bool
contains_any model = any (λ word. contains model word)

unfoldable pub classify_drone_type : Bytes → Bytes
unfolding contains
classify_drone_type model =
    if same model []
    then codes "unknown"
    else if contains_any model (
        codes "Matrice"
        ∷ codes "Enterprise"
        ∷ codes "RTK"
        ∷ codes "Inspire"
        ∷ codes "FlyCart"
        ∷ codes "Dock"
        ∷ [])
    then codes "enterprise"
    else if contains_any model
        (codes "Agras" ∷ codes "T10" ∷ codes "T20" ∷ codes "T30" ∷ codes "T40" ∷ [])
    then codes "agricultural"
    else if contains_any model (codes "FPV" ∷ codes "Avata" ∷ [])
    then codes "fpv_racing"
    else if contains_any model (codes "Mini" ∷ codes "Spark" ∷ codes "Neo" ∷ codes "Flip" ∷ [])
    then codes "consumer"
    else if contains_any model (codes "Mavic" ∷ codes "Air" ∷ codes "Phantom" ∷ [])
    then codes "prosumer"
    else codes "unknown"

-- The two loops that bring an angle into a turn; the fuel bounds the rounds.
unfoldable pub add_turns : ℕ → ℤ → ℤ
add_turns zero y = y
add_turns (suc n) (pos y) = pos y
add_turns (suc n) (negsuc y) = add_turns n (sub_ℕ 36_000 (suc y))

unfoldable pub take_turns : ℕ → ℤ → ℤ
take_turns zero y = y
take_turns (suc n) (negsuc y) = negsuc y
take_turns (suc n) (pos y) =
    let rest = take_turns n (pos (y - 36_000)) in if leb 36_000 y then rest else pos y

unfoldable pub normalize_yaw : ℤ → ℤ
unfolding add_turns take_turns
normalize_yaw raw = take_turns 1 (add_turns 1 raw)

-- The fields before the encrypted part.
abbrev pub cleartext : Bytes → DjiDroneId
cleartext bytes = record {
  product_type = 0;
  product_model = [];
  serial_number = extract_ascii (slice 5 16 bytes);
  drone_uuid = [];
  latitude = pos 0;
  longitude = pos 0;
  altitude = pos 0;
  height = pos 0;
  home_lat = pos 0;
  home_lon = pos 0;
  velocity_x = pos 0;
  velocity_y = pos 0;
  velocity_z = pos 0;
  speed = 0;
  yaw = pos 0;
  pitch = pos 0;
  roll = pos 0;
  pilot_lat = pos 0;
  pilot_lon = pos 0;
  state_info = uint16_at 3 bytes;
  motors_on = not (uint16_at 3 bytes % 2 == 0);
  in_air = ltb 0 (uint16_at 3 bytes / 2 % 4);
  gps_valid = not (uint16_at 3 bytes / 8 % 2 == 0);
  altitude_valid = not (uint16_at 3 bytes / 16 % 2 == 0);
  sequence_number = uint16_at 1 bytes;
  version = byte_at 0 bytes;
}

abbrev pub with_product : Bytes → DjiDroneId → DjiDroneId
with_product bytes d =
    if leb 54 (length bytes)
    then record d {
      product_type = byte_at 53 bytes;
      product_model = product_name (byte_at 53 bytes);
    }
    else d

abbrev pub with_uuid : Bytes → DjiDroneId → DjiDroneId
with_uuid bytes d =
    if leb 75 (length bytes) && ltb 0 (byte_at 54 bytes) && leb (byte_at 54 bytes) 20
    then record d { drone_uuid = slice 55 (byte_at 54 bytes) bytes }
    else d

abbrev pub with_pilot : Bytes → DjiDroneId → DjiDroneId
with_pilot bytes d =
    if leb 88 (length bytes)
    then record d { pilot_lon = int32_at 75 bytes; pilot_lat = int32_at 79 bytes }
    else d

module _ (hypot : ℤ → ℤ → ℕ) where
  abbrev pub with_telemetry : Bytes → DjiDroneId → DjiDroneId
  with_telemetry bytes d = record d {
    longitude = int32_at 21 bytes;
    latitude = int32_at 25 bytes;
    altitude = int16_at 29 bytes;
    height = int16_at 31 bytes;
    velocity_x = int16_at 33 bytes;
    velocity_y = int16_at 35 bytes;
    velocity_z = int16_at 37 bytes;
    speed = hypot (int16_at 33 bytes) (int16_at 35 bytes);
    pitch = int16_at 39 bytes;
    roll = int16_at 41 bytes;
    yaw = normalize_yaw (int16_at 43 bytes);
    home_lon = int32_at 45 bytes;
    home_lat = int32_at 49 bytes;
  }

  -- `none` is the error of a payload that is too short.
  unfoldable pub parse_dji_drone_id : Bytes → Option DjiDroneId
  unfolding normalize_yaw extract_ascii product_name
  parse_dji_drone_id bytes =
      if ltb (length bytes) 53
      then none
      else if leb 2 (byte_at 0 bytes)
      then some (with_product bytes (cleartext bytes))
      else some (
          with_pilot bytes
            (with_uuid bytes (with_product bytes (with_telemetry bytes (cleartext bytes)))))

-- `math.Abs(lat) <= 90` in the unit of the encoding.
abbrev in_range : ℤ → ℤ → Bool
in_range lat lon =
    not (is_zero lat) && not (is_zero lon) && leb (abs lat) 15_707_970 && leb (abs lon) 31_415_940

unfoldable pub has_valid_position : DjiDroneId → Bool
has_valid_position d = d.gps_valid && in_range d.latitude d.longitude

unfoldable pub has_home_position : DjiDroneId → Bool
has_home_position d = in_range d.home_lat d.home_lon

unfoldable pub has_pilot_position : DjiDroneId → Bool
has_pilot_position d = in_range d.pilot_lat d.pilot_lon
