-- ===== src/Processor/Spoof/Tables.antt =====
-- The tables of internal/processor/spoof.go.
use skylens_azure.Common.{ℕ, Bytes, codes, List, [], ◌∷◌}
use skylens_azure.Common.Maps.{Map}

abbrev pub penalties : Map ℕ
penalties =
    (codes "coordinate_jump", 30)
    ∷ (codes "altitude_spike", 20)
    ∷ (codes "speed_violation", 25)
    ∷ (codes "no_serial", 5)
    ∷ (codes "invalid_coordinates", 40)
    ∷ (codes "timestamp_anomaly", 15)
    ∷ (codes "duplicate_id", 35)
    ∷ (codes "rssi_impossible", 20)
    ∷ (codes "randomized_mac", 15)
    ∷ (codes "rssi_distance_mismatch", 25)
    ∷ (codes "low_confidence", 15)
    ∷ (codes "oui_ssid_mismatch", 35)
    ∷ (codes "impossible_vendor", 40)
    ∷ []

abbrev pub ssid_vendor_patterns : Map (List Bytes)
ssid_vendor_patterns =
    (
      codes "DJI",
      codes "DJI"
          ∷ codes "MAVIC"
          ∷ codes "PHANTOM"
          ∷ codes "INSPIRE"
          ∷ codes "MATRICE"
          ∷ codes "MINI"
          ∷ codes "AIR"
          ∷ codes "AVATA"
          ∷ codes "FPV"
          ∷ codes "SPARK"
          ∷ codes "AGRAS"
          ∷ codes "TELLO"
          ∷ codes "NEO"
          ∷ codes "FLIP"
          ∷ codes "FLYCART"
          ∷ [],
    )
    ∷ (
      codes "PARROT",
      codes "PARROT"
          ∷ codes "ANAFI"
          ∷ codes "BEBOP"
          ∷ codes "DISCO"
          ∷ codes "MAMBO"
          ∷ codes "SWING"
          ∷ codes "SKYCONTROLLER"
          ∷ [],
    )
    ∷ (
      codes "AUTEL",
      codes "AUTEL" ∷ codes "EVO" ∷ codes "DRAGONFISH" ∷ codes "TITAN" ∷ codes "ALPHA" ∷ [],
    )
    ∷ (codes "SKYDIO", codes "SKYDIO" ∷ codes "X2" ∷ codes "X10" ∷ [])
    ∷ (codes "YUNEEC", codes "YUNEEC" ∷ codes "TYPHOON" ∷ codes "MANTIS" ∷ codes "H520" ∷ [])
    ∷ (codes "HUBSAN", codes "HUBSAN" ∷ codes "ZINO" ∷ [])
    ∷ (codes "HOLY STONE", codes "HOLYSTONE" ∷ codes "HS720" ∷ codes "HS710" ∷ codes "HS175" ∷ [])
    ∷ (codes "FIMI", codes "FIMI" ∷ codes "X8SE" ∷ codes "X8MINI" ∷ [])
    ∷ (codes "GOPRO", codes "GOPRO" ∷ codes "KARMA" ∷ [])
    ∷ (codes "ESPRESSIF", codes "ESP-DRONE" ∷ [])
    ∷ (codes "POTENSIC", codes "POTENSIC" ∷ codes "DREAMER" ∷ codes "ATOM" ∷ [])
    ∷ (codes "RUKO", codes "RUKO" ∷ codes "F11" ∷ codes "U11" ∷ [])
    ∷ (codes "AGEAGLE", codes "EBEE" ∷ codes "AGEAGLE" ∷ codes "SENSEFLY" ∷ [])
    ∷ (codes "INSPIRED FLIGHT", codes "IF1200" ∷ codes "IF800" ∷ codes "INSPIRED" ∷ [])
    ∷ (codes "FREEFLY", codes "FREEFLY" ∷ codes "ALTA" ∷ codes "ASTRO" ∷ [])
    ∷ []

abbrev pub vendor_prefix_map : Map Bytes
vendor_prefix_map =
    (codes "DJI", codes "DJI")
    ∷ (codes "MAVIC", codes "DJI")
    ∷ (codes "PHANTOM", codes "DJI")
    ∷ (codes "INSPIRE", codes "DJI")
    ∷ (codes "MATRICE", codes "DJI")
    ∷ (codes "MINI", codes "DJI")
    ∷ (codes "AIR", codes "DJI")
    ∷ (codes "AVATA", codes "DJI")
    ∷ (codes "FPV", codes "DJI")
    ∷ (codes "SPARK", codes "DJI")
    ∷ (codes "AGRAS", codes "DJI")
    ∷ (codes "TELLO", codes "DJI")
    ∷ (codes "NEO", codes "DJI")
    ∷ (codes "FLIP", codes "DJI")
    ∷ (codes "FLYCART", codes "DJI")
    ∷ (codes "ANAFI", codes "PARROT")
    ∷ (codes "BEBOP", codes "PARROT")
    ∷ (codes "PARROT", codes "PARROT")
    ∷ (codes "DISCO", codes "PARROT")
    ∷ (codes "SKYCONTROL", codes "PARROT")
    ∷ (codes "AUTEL", codes "AUTEL")
    ∷ (codes "EVO", codes "AUTEL")
    ∷ (codes "DRAGONFISH", codes "AUTEL")
    ∷ (codes "TITAN", codes "AUTEL")
    ∷ (codes "ALPHA", codes "AUTEL")
    ∷ (codes "SKYDIO", codes "SKYDIO")
    ∷ (codes "X10", codes "SKYDIO")
    ∷ (codes "X2", codes "SKYDIO")
    ∷ (codes "YUNEEC", codes "YUNEEC")
    ∷ (codes "TYPHOON", codes "YUNEEC")
    ∷ (codes "MANTIS", codes "YUNEEC")
    ∷ (codes "HUBSAN", codes "HUBSAN")
    ∷ (codes "ZINO", codes "HUBSAN")
    ∷ (codes "HOLYSTONE", codes "HOLY STONE")
    ∷ (codes "HS", codes "HOLY STONE")
    ∷ (codes "FIMI", codes "FIMI")
    ∷ (codes "X8SE", codes "FIMI")
    ∷ (codes "GOPRO", codes "GOPRO")
    ∷ (codes "KARMA", codes "GOPRO")
    ∷ (codes "HOVERAIR", codes "ZERO ZERO")
    ∷ (codes "POTENSIC", codes "POTENSIC")
    ∷ (codes "DREAMER", codes "POTENSIC")
    ∷ (codes "ATOM", codes "POTENSIC")
    ∷ (codes "RUKO", codes "RUKO")
    ∷ (codes "F11", codes "RUKO")
    ∷ (codes "U11", codes "RUKO")
    ∷ (codes "EBEE", codes "AGEAGLE")
    ∷ (codes "AGEAGLE", codes "AGEAGLE")
    ∷ (codes "SENSEFLY", codes "AGEAGLE")
    ∷ (codes "IF1200", codes "INSPIRED FLIGHT")
    ∷ (codes "IF800", codes "INSPIRED FLIGHT")
    ∷ (codes "FREEFLY", codes "FREEFLY")
    ∷ (codes "ALTA", codes "FREEFLY")
    ∷ (codes "ASTRO", codes "FREEFLY")
    ∷ []
