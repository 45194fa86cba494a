-- ===== src/Intel/RemoteId.antt =====
-- The Remote-ID decoder of internal/intel/remoteid_parser.go. Fields that the source scales to floats
-- keep the unit of their encoding: coordinates 1e-7 degrees, altitudes and heights 0.5 m (after the
-- offset of -1000 m), speeds 0.25 m/s, the vertical speed 0.5 m/s. A type code is its number. The
-- fields that no code of the file sets (the validity flags of Location) are left out.
pub mod WellFormed
pub mod Packs
use skylens_azure.Common.{
  ℕ, zero, suc, ◌+◌, ◌*◌, ◌/◌, ◌%◌, Bytes, Option, none, some, List, [], ◌∷◌, ◌++◌, Bool, true,
  false, not, ltb, leb, ◌==◌, ◌&&◌, ◌||◌, if◌then◌else◌, length, take, drop,
}
use skylens_azure.Common.Int.{ℤ, pos, sub_ℕ, signed}
use skylens_azure.Intel.Bits.{
  byte_at, high_nibble, low_nibble, slice, uint16_at, uint32_at, int32_at, extract_ascii,
}

pub record ParsedRemoteId : Type 0 where
  pub serial_number : Bytes
  pub id_type : ℕ
  pub ua_type : ℕ
  pub latitude : ℤ
  pub longitude : ℤ
  pub altitude_geo : ℤ
  pub altitude_baro : ℤ
  pub height_agl : ℤ
  pub height_ref : ℕ
  pub speed : ℕ
  pub vertical_speed : ℤ
  pub track_direction : ℕ
  pub timestamp : ℕ
  pub accuracy_h : ℕ
  pub accuracy_v : ℕ
  pub accuracy_speed : ℕ
  pub operator_lat : ℤ
  pub operator_lon : ℤ
  pub operator_alt : ℤ
  pub operator_loc_type : ℕ
  pub area_count : ℕ
  pub area_radius : ℕ
  pub area_ceiling : ℤ
  pub area_floor : ℤ
  pub classification_type : ℕ
  pub category_eu : ℕ
  pub class_eu : ℕ
  pub description_type : ℕ
  pub description : Bytes
  pub auth_type : ℕ
  pub auth_page_count : ℕ
  pub auth_length : ℕ
  pub auth_timestamp : ℕ
  pub auth_data : Bytes
  pub operator_id : Bytes
  pub operator_id_type : ℕ
  pub protocol_version : ℕ
  pub message_types : List ℕ

abbrev pub no_fields : ParsedRemoteId
no_fields = record {
  serial_number = [];
  id_type = 0;
  ua_type = 0;
  latitude = pos 0;
  longitude = pos 0;
  altitude_geo = pos 0;
  altitude_baro = pos 0;
  height_agl = pos 0;
  height_ref = 0;
  speed = 0;
  vertical_speed = pos 0;
  track_direction = 0;
  timestamp = 0;
  accuracy_h = 0;
  accuracy_v = 0;
  accuracy_speed = 0;
  operator_lat = pos 0;
  operator_lon = pos 0;
  operator_alt = pos 0;
  operator_loc_type = 0;
  area_count = 0;
  area_radius = 0;
  area_ceiling = pos 0;
  area_floor = pos 0;
  classification_type = 0;
  category_eu = 0;
  class_eu = 0;
  description_type = 0;
  description = [];
  auth_type = 0;
  auth_page_count = 0;
  auth_length = 0;
  auth_timestamp = 0;
  auth_data = [];
  operator_id = [];
  operator_id_type = 0;
  protocol_version = 0;
  message_types = [];
}

-- An empty new text leaves the old one.
abbrev pub unless_empty : Bytes → Bytes → Bytes
unless_empty [] old = old
unless_empty (x ∷ xs) old = x ∷ xs

-- `raw * 0.5 - 1000` unless the raw value is one of the two that stand for unknown.
abbrev pub altitude_or : ℕ → ℤ → ℤ
altitude_or raw old = if not (raw == 0) && not (raw == 65_535) then sub_ℕ raw 2000 else old

-- A coordinate, unless its raw value is 0.
abbrev pub coordinate_or : ℕ → ℤ → ℤ
coordinate_or raw old = if raw == 0 then old else signed 2_147_483_648 raw

unfoldable pub parse_basic_id : Bytes → ParsedRemoteId → ParsedRemoteId
unfolding extract_ascii
parse_basic_id bytes r = if ltb (length bytes) 24 then r else record r {
  id_type = high_nibble (byte_at 0 bytes);
  ua_type = low_nibble (byte_at 0 bytes);
  serial_number = unless_empty (extract_ascii (slice 1 20 bytes)) r.serial_number;
}

abbrev pub direction_or : ℕ → ℕ → ℕ → ℕ
direction_or raw ew old = if leb raw 179 then (if ew == 0 then raw else raw + 180) else old

abbrev pub speed_or : ℕ → ℕ → ℕ → ℕ
speed_or raw mult old = if raw == 255 then old else if mult == 0 then raw else 3 * raw + 255

unfoldable pub parse_location : Bytes → ParsedRemoteId → ParsedRemoteId
parse_location bytes r =
    if ltb (length bytes) 24
    then r
    else let flags = byte_at 0 bytes in
      record r {
        height_ref = flags / 4 % 2;
        track_direction = direction_or (byte_at 1 bytes) (flags / 2 % 2) r.track_direction;
        speed = speed_or (byte_at 2 bytes) (flags % 2) r.speed;
        vertical_speed =
            if byte_at 3 bytes == 63 then r.vertical_speed else signed 128 (byte_at 3 bytes);
        latitude = coordinate_or (uint32_at 4 bytes) r.latitude;
        longitude = coordinate_or (uint32_at 8 bytes) r.longitude;
        altitude_baro = altitude_or (uint16_at 12 bytes) r.altitude_baro;
        altitude_geo = altitude_or (uint16_at 14 bytes) r.altitude_geo;
        height_agl = altitude_or (uint16_at 16 bytes) r.height_agl;
        accuracy_v = high_nibble (byte_at 18 bytes);
        accuracy_h = low_nibble (byte_at 18 bytes);
        accuracy_speed = high_nibble (byte_at 19 bytes);
        timestamp = uint16_at 20 bytes;
      }

unfoldable pub parse_system : Bytes → ParsedRemoteId → ParsedRemoteId
parse_system bytes r =
    if ltb (length bytes) 24
    then r
    else let flags = byte_at 0 bytes in
      record r {
        operator_loc_type = flags % 4;
        classification_type = flags / 4 % 8;
        operator_lat = coordinate_or (uint32_at 1 bytes) r.operator_lat;
        operator_lon = coordinate_or (uint32_at 5 bytes) r.operator_lon;
        area_count = uint16_at 9 bytes % 256;
        area_radius = byte_at 11 bytes * 10;
        area_ceiling = altitude_or (uint16_at 12 bytes) r.area_ceiling;
        area_floor = altitude_or (uint16_at 14 bytes) r.area_floor;
        category_eu = low_nibble (byte_at 16 bytes);
        class_eu = high_nibble (byte_at 16 bytes);
        operator_alt = altitude_or (uint16_at 17 bytes) r.operator_alt;
      }

unfoldable pub parse_operator_id : Bytes → ParsedRemoteId → ParsedRemoteId
unfolding extract_ascii
parse_operator_id bytes r = if ltb (length bytes) 24 then r else record r {
  operator_id_type = byte_at 0 bytes;
  operator_id = unless_empty (extract_ascii (slice 1 20 bytes)) r.operator_id;
}

unfoldable pub parse_self_id : Bytes → ParsedRemoteId → ParsedRemoteId
unfolding extract_ascii
parse_self_id bytes r = if ltb (length bytes) 24 then r else record r {
  description_type = byte_at 0 bytes;
  description = unless_empty (extract_ascii (slice 1 23 bytes)) r.description;
}

-- The first page carries the metadata, the others continue the data.
unfoldable pub parse_auth : Bytes → ParsedRemoteId → ParsedRemoteId
parse_auth bytes r =
    if ltb (length bytes) 24
    then r
    else if low_nibble (byte_at 0 bytes) == 0
    then record r {
      auth_type = high_nibble (byte_at 0 bytes);
      auth_page_count = byte_at 1 bytes;
      auth_length = byte_at 2 bytes;
      auth_timestamp = uint32_at 3 bytes;
      auth_data = slice 7 17 bytes;
    }
    else record r {
      auth_type = high_nibble (byte_at 0 bytes);
      auth_data = r.auth_data ++ slice 1 23 bytes;
    }

-- The switch on the message type.
unfoldable pub parse_body : ℕ → Bytes → ParsedRemoteId → ParsedRemoteId
parse_body msg_type bytes r =
    if msg_type == 0
    then parse_basic_id bytes r
    else if msg_type == 1
    then parse_location bytes r
    else if msg_type == 4
    then parse_system bytes r
    else if msg_type == 5
    then parse_operator_id bytes r
    else if msg_type == 3
    then parse_self_id bytes r
    else if msg_type == 2
    then parse_auth bytes r
    else r

-- An error carries the length that is too short; the result so far comes with it.
pub data Outcome : Type 0 where
  ok : ParsedRemoteId → Outcome
  too_short : ℕ → ParsedRemoteId → Outcome
  empty_payload : Outcome

unfoldable pub parse_single_message : Bytes → ParsedRemoteId → Outcome
unfolding parse_body
parse_single_message bytes r =
    if ltb (length bytes) 25
    then too_short (length bytes) r
    else ok (
        parse_body (high_nibble (byte_at 0 bytes)) (drop 1 bytes) (record r {
          protocol_version = low_nibble (byte_at 0 bytes);
          message_types = r.message_types ++ high_nibble (byte_at 0 bytes) ∷ [];
        }))

-- The result that the caller of a message of a pack goes on with: it drops the error.
abbrev pub result_or : ParsedRemoteId → Outcome → ParsedRemoteId
result_or r (ok s) = s
result_or r (too_short n s) = s
result_or r empty_payload = r

-- The loop over the messages of a pack: how many are left, and the data from the offset on.
unfoldable pub pack_loop : ℕ → ℕ → Bytes → ParsedRemoteId → ParsedRemoteId
unfolding parse_single_message
pack_loop zero msg_size bytes r = r
pack_loop (suc n) msg_size bytes r =
    let rest =
      pack_loop n msg_size (drop msg_size bytes)
        (result_or r (parse_single_message (take msg_size bytes) r)) in
    if leb msg_size (length bytes) then rest else r

unfoldable pub parse_message_pack : Bytes → ParsedRemoteId → Outcome
unfolding pack_loop
parse_message_pack bytes r =
    if ltb (length bytes) 3
    then too_short (length bytes) r
    else let msg_size = (if byte_at 1 bytes == 0 then 25 else byte_at 1 bytes) in
      ok (
        pack_loop (byte_at 2 bytes) msg_size (drop 3 bytes)
          (record r { protocol_version = low_nibble (byte_at 0 bytes) }))

-- A header byte of a known message type and protocol version.
abbrev pub is_valid_header : ℕ → Bool
is_valid_header b = (leb (high_nibble b) 5 || high_nibble b == 15) && leb (low_nibble b) 2

abbrev pub is_pack_header : ℕ → Bool
is_pack_header b = is_valid_header b && high_nibble b == 15

-- Whether the first byte is framing of a WiFi Aware frame, by the second one.
abbrev pub is_framed : Bytes → Bool
is_framed [] = false
is_framed (b ∷ []) = false
is_framed (b ∷ c ∷ cs) = is_pack_header c || (not (is_valid_header b) && is_valid_header c)

abbrev pub parse_message : Bytes → Outcome
parse_message bytes =
    if high_nibble (byte_at 0 bytes) == 15
    then parse_message_pack bytes no_fields
    else parse_single_message bytes no_fields

unfoldable pub parse_remote_id_payload : Bytes → Outcome
unfolding parse_message_pack parse_single_message
parse_remote_id_payload [] = empty_payload
parse_remote_id_payload (b ∷ bs) =
    if is_framed (b ∷ bs) then parse_message bs else parse_message (b ∷ bs)
