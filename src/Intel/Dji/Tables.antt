-- ===== src/Intel/Dji/Tables.antt =====
-- The two tables of internal/intel/dji_parser.go.
use skylens_azure.Common.{ℕ, Bytes, codes, List, [], ◌∷◌}
use skylens_azure.Common.Maps.{Map}

unfoldable pub dji_product_types : List (ℕ × Bytes)
dji_product_types =
    (0x10, codes "Phantom 3 Standard")
    ∷ (0x11, codes "Phantom 3 Advanced")
    ∷ (0x12, codes "Phantom 3 Professional")
    ∷ (0x13, codes "Phantom 3 4K")
    ∷ (0x14, codes "Phantom 3 SE")
    ∷ (0x20, codes "Phantom 4")
    ∷ (0x21, codes "Phantom 4 Pro")
    ∷ (0x22, codes "Phantom 4 Pro V2")
    ∷ (0x23, codes "Phantom 4 Advanced")
    ∷ (0x24, codes "Phantom 4 RTK")
    ∷ (0x30, codes "Mavic Pro")
    ∷ (0x31, codes "Mavic Pro Platinum")
    ∷ (0x32, codes "Mavic 2 Pro")
    ∷ (0x33, codes "Mavic 2 Zoom")
    ∷ (0x34, codes "Mavic 2 Enterprise")
    ∷ (0x35, codes "Mavic Air")
    ∷ (0x36, codes "Mavic Air 2")
    ∷ (0x37, codes "Mavic Air 2S")
    ∷ (0x38, codes "Mavic 3")
    ∷ (0x39, codes "Mavic 3 Pro")
    ∷ (0x3A, codes "Mavic 3 Cine")
    ∷ (0x3B, codes "Mavic 3 Classic")
    ∷ (0x3C, codes "Mavic 3 Enterprise")
    ∷ (0x40, codes "Mavic Mini")
    ∷ (0x41, codes "Mini 2")
    ∷ (0x42, codes "Mini SE")
    ∷ (0x43, codes "Mini 3")
    ∷ (0x44, codes "Mini 3 Pro")
    ∷ (0x45, codes "Mini 4 Pro")
    ∷ (0x46, codes "Mini 4K")
    ∷ (0x47, codes "Mini 5")
    ∷ (0x48, codes "Mini 5 Pro")
    ∷ (0x49, codes "Mini 5 SE")
    ∷ (0x3D, codes "Mavic 4")
    ∷ (0x3E, codes "Mavic 4 Pro")
    ∷ (0x3F, codes "Mavic 4 Classic")
    ∷ (0x4A, codes "Air 4")
    ∷ (0x4B, codes "Air 4S")
    ∷ (0x4C, codes "Air 4 Pro")
    ∷ (0x4D, codes "Neo 2")
    ∷ (0x4E, codes "Neo 2 Pro")
    ∷ (0x4F, codes "Flip 2")
    ∷ (0x50, codes "Spark")
    ∷ (0x60, codes "Inspire 1")
    ∷ (0x61, codes "Inspire 2")
    ∷ (0x62, codes "Inspire 3")
    ∷ (0x70, codes "Matrice 100")
    ∷ (0x71, codes "Matrice 200")
    ∷ (0x72, codes "Matrice 210")
    ∷ (0x73, codes "Matrice 210 RTK")
    ∷ (0x74, codes "Matrice 300 RTK")
    ∷ (0x75, codes "Matrice 30")
    ∷ (0x76, codes "Matrice 30T")
    ∷ (0x77, codes "Matrice 350 RTK")
    ∷ (0x78, codes "Matrice 4E")
    ∷ (0x79, codes "Matrice 4T")
    ∷ (0x7A, codes "Matrice 4S")
    ∷ (0x7B, codes "Matrice 4 RTK")
    ∷ (0x80, codes "FPV")
    ∷ (0x81, codes "Avata")
    ∷ (0x82, codes "Avata 2")
    ∷ (0x83, codes "Avata 3")
    ∷ (0x84, codes "FPV 2")
    ∷ (0x85, codes "FPV Pro")
    ∷ (0x90, codes "Dock 2")
    ∷ (0x91, codes "Dock 3")
    ∷ (0xA0, codes "FlyCart 30")
    ∷ (0xA1, codes "FlyCart 100")
    ∷ (0xF0, codes "Agras MG-1")
    ∷ (0xF1, codes "Agras T10")
    ∷ (0xF2, codes "Agras T20")
    ∷ (0xF3, codes "Agras T30")
    ∷ (0xF4, codes "Agras T40")
    ∷ []

unfoldable pub dji_serial_prefixes : Map Bytes
dji_serial_prefixes =
    (codes "1581F45T", codes "Mavic 3")
    ∷ (codes "1581F45", codes "Mavic 3")
    ∷ (codes "1581F67P", codes "Mavic 3 Classic")
    ∷ (codes "1581F67Q", codes "Mavic 3 Classic")
    ∷ (codes "1581F67", codes "Mavic 3 Classic")
    ∷ (codes "1581F3YT", codes "Air 2S")
    ∷ (codes "1581F3Y", codes "Air 2S")
    ∷ (codes "1581F163", codes "Mavic 2 Pro")
    ∷ (codes "1581F16", codes "Mavic 2")
    ∷ (codes "1581F1WN", codes "Mavic Air 2")
    ∷ (codes "1581F1W", codes "Mavic Air 2")
    ∷ (codes "1581F4QW", codes "Avata")
    ∷ (codes "1581F4Q", codes "Avata")
    ∷ (codes "1581F0M6", codes "Mavic 2 Zoom")
    ∷ (codes "1581F0M", codes "Mavic 2 Zoom")
    ∷ (codes "1581F11V", codes "Phantom 4 Pro V2")
    ∷ (codes "1581F11", codes "Phantom 4 Pro V2")
    ∷ (codes "1581F1SC", codes "Mavic Mini")
    ∷ (codes "1581F1S", codes "Mavic Mini")
    ∷ (codes "1581F3NZ", codes "Mini 2")
    ∷ (codes "1581F3N", codes "Mini 2")
    ∷ (codes "1581F6MK", codes "Mavic 3 Pro")
    ∷ (codes "1581F6M", codes "Mavic 3 Pro")
    ∷ (codes "1581F5BK", codes "Mavic 3 Cine")
    ∷ (codes "1581F5FK", codes "Mavic 3 Cine")
    ∷ (codes "1581F5FH", codes "Mavic 3 Enterprise")
    ∷ (codes "1581F5B", codes "Mavic 3")
    ∷ (codes "1581F5F", codes "Mavic 3")
    ∷ (codes "1581F5", codes "Mavic 3")
    ∷ (codes "1581F6N8", codes "Air 2S")
    ∷ (codes "1581F6QA", codes "Air 3S")
    ∷ (codes "1581F6Z", codes "Air 3S")
    ∷ (codes "1581F895", codes "Phantom 4 Pro")
    ∷ (codes "1581F89", codes "Phantom 4 Pro")
    ∷ (codes "1581F8LQ", codes "Matrice 30")
    ∷ (codes "1581F8L", codes "Matrice 30")
    ∷ (codes "1581F9DE", codes "Inspire 3")
    ∷ (codes "1581F9D", codes "Inspire 3")
    ∷ (codes "1581F7FV", codes "Matrice 4T")
    ∷ (codes "1581F37QB", codes "FPV")
    ∷ (codes "1581F37Q", codes "FPV")
    ∷ (codes "1581F4XF", codes "Neo 2")
    ∷ (codes "1581F4X", codes "Neo 2")
    ∷ (codes "1581F4AE", codes "Mini SE")
    ∷ (codes "1581F4DT", codes "Mini SE")
    ∷ (codes "1581F6C5", codes "Mini 2 SE")
    ∷ (codes "1581F6C", codes "Mini 2 SE")
    ∷ (codes "1748", codes "Autel EVO")
    ∷ (codes "1588E", codes "Parrot Anafi")
    ∷ (codes "1668B", codes "Skydio")
    ∷ (codes "1581F1", codes "Mini (Unknown)")
    ∷ (codes "1581F3", codes "DJI (Unknown)")
    ∷ (codes "1581F6", codes "Air (Unknown)")
    ∷ (codes "1581F", codes "DJI (Unknown)")
    ∷ (codes "163CF", codes "Mavic 2 Pro")
    ∷ (codes "163DF", codes "Mavic 2 Zoom")
    ∷ (codes "163EF", codes "Mavic 2 Enterprise")
    ∷ (codes "1WMD", codes "Air 2S")
    ∷ (codes "1WMC", codes "Mavic Air 2")
    ∷ (codes "1W6A", codes "Mavic Air")
    ∷ (codes "2FWA", codes "Air 3")
    ∷ (codes "2FWB", codes "Air 3S")
    ∷ (codes "1WMJL", codes "Mini 2")
    ∷ (codes "1WMJK", codes "Mavic Mini")
    ∷ (codes "1WMJM", codes "Mini SE")
    ∷ (codes "3WMA", codes "Mini 3")
    ∷ (codes "3WMB", codes "Mini 3 Pro")
    ∷ (codes "4WMA", codes "Mini 4 Pro")
    ∷ (codes "4WMB", codes "Mini 4K")
    ∷ (codes "1FGAA", codes "DJI FPV")
    ∷ (codes "5LKA", codes "Avata")
    ∷ (codes "5LKB", codes "Avata 2")
    ∷ (codes "0YLDF", codes "Matrice 300 RTK")
    ∷ (codes "1ZNDF", codes "Matrice 30")
    ∷ (codes "1ZNEF", codes "Matrice 30T")
    ∷ (codes "5ZNA", codes "Matrice 350 RTK")
    ∷ (codes "1A3DF", codes "Phantom 4 Pro")
    ∷ (codes "1A3CF", codes "Phantom 4")
    ∷ (codes "1A3EF", codes "Phantom 4 Pro V2")
    ∷ (codes "0HYBF", codes "Inspire 2")
    ∷ (codes "5HAA", codes "Inspire 3")
    ∷ []
