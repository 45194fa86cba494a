-- ===== src/Intel/Oui.antt =====
-- The prefixes of MAC addresses of internal/intel/fingerprint.go. A text is its bytes; upper case is
-- that of ASCII.
use skylens_azure.Common.{
  ℕ, ◌-◌, Bytes, codes, same, Option, none, some, [], ◌∷◌, map, Bool, ltb, leb, ◌&&◌, ◌||◌,
  if◌then◌else◌, length, take, drop,
}
use skylens_azure.Common.Maps.{Map, lookup}

abbrev pub upper_byte : ℕ → ℕ
upper_byte c = if leb 97 c && leb c 122 then c - 32 else c

abbrev pub upper : Bytes → Bytes
upper = map upper_byte

abbrev pub oui_map : Map Bytes
oui_map =
    (codes "04:A8:5A", codes "DJI (drone)")
    ∷ (codes "0C:9A:E6", codes "DJI (drone)")
    ∷ (codes "34:D2:62", codes "DJI (drone)")
    ∷ (codes "48:1C:B9", codes "DJI (drone)")
    ∷ (codes "4C:43:F6", codes "DJI (drone)")
    ∷ (codes "58:B8:58", codes "DJI (drone)")
    ∷ (codes "60:60:1F", codes "DJI (drone)")
    ∷ (codes "88:29:85", codes "DJI (drone)")
    ∷ (codes "8C:58:23", codes "DJI (drone)")
    ∷ (codes "E4:7A:2C", codes "DJI (drone)")
    ∷ (codes "9C:5A:8A", codes "DJI Baiwang (drone)")
    ∷ (codes "00:12:1C", codes "Parrot (drone)")
    ∷ (codes "00:26:7E", codes "Parrot (drone)")
    ∷ (codes "90:03:B7", codes "Parrot (controller)")
    ∷ (codes "90:3A:E6", codes "Parrot (drone)")
    ∷ (codes "A0:14:3D", codes "Parrot (drone)")
    ∷ (codes "38:1D:14", codes "Skydio (drone)")
    ∷ (codes "EC:5B:CD", codes "Autel Robotics (drone)")
    ∷ (codes "18:D7:93", codes "Autel Intelligent (drone)")
    ∷ (codes "70:88:6B", codes "Autel (drone)")
    ∷ (codes "E0:B6:F5", codes "Yuneec (drone)")
    ∷ (codes "18:FE:34", codes "Hubsan/Espressif (drone)")
    ∷ (codes "24:0A:C4", codes "Hubsan/Espressif (drone)")
    ∷ (codes "98:AA:FC", codes "Hubsan (drone)")
    ∷ (codes "64:CE:91", codes "FIMI/Xiaomi (drone)")
    ∷ (codes "6C:DF:FB", codes "FIMI/Xiaomi (drone)")
    ∷ (codes "18:C8:E7", codes "Holy Stone (drone)")
    ∷ (codes "F4:12:FA", codes "Zero Zero (drone)")
    ∷ (codes "C8:63:14", codes "Zero Zero Robotics (drone)")
    ∷ (codes "84:83:19", codes "ZeroTech (drone)")
    ∷ (codes "00:1A:79", codes "Walkera (drone)")
    ∷ (codes "74:B8:0F", codes "Zipline (drone)")
    ∷ (codes "A4:51:29", codes "XAG (drone)")
    ∷ (codes "C4:CC:37", codes "Joby Aviation (drone)")
    ∷ (codes "B0:30:C8", codes "Teal Drones (drone)")
    ∷ (codes "00:1A:F9", codes "AeroVironment (drone)")
    ∷ (codes "70:A6:6A", codes "Black Hornet (drone)")
    ∷ (codes "6A:5C:35", codes "French DRI (RemoteID)")
    ∷ (codes "00:0C:BF", codes "Holy Stone (drone)")
    ∷ []

-- "" for a prefix that the table does not have.
abbrev pub text_at : Option Bytes → Bytes
text_at none = []
text_at (some t) = t

unfoldable pub match_oui : Bytes → Bytes
match_oui mac = if ltb (length mac) 8 then [] else text_at (lookup (upper (take 8 mac)) oui_map)

-- The second digit is 2, 6, A or E.
unfoldable pub is_locally_administered_mac : Bytes → Bool
is_locally_administered_mac mac =
    let second = upper (take 1 (drop 1 mac)) in
    leb 2 (length mac)
    && (same second (codes "2")
        || same second (codes "6")
        || same second (codes "A")
        || same second (codes "E"))
