-- ===== src/Processor/Spoof/Vendors.antt =====
-- The vendors that a MAC and an SSID claim, in internal/processor/spoof.go. Go visits its maps of patterns
-- in any order; here it is that of the table.
use skylens_azure.Common.{
  ℕ, Bytes, codes, same, Option, none, some, List, [], ◌∷◌, Bool, not, leb, ◌&&◌, ◌||◌,
  if◌then◌else◌, length, take, any, map, ◌++◌,
}
use skylens_azure.Common.Maps.{Map}
use skylens_azure.Intel.Dji.{contains}
use skylens_azure.Intel.Oui.{upper, match_oui}
use skylens_azure.Processor.Spoof.Tables.{ssid_vendor_patterns, vendor_prefix_map}
use skylens_azure.Processor.Model.{Drone}

abbrev pub starts_with : Bytes → Bytes → Bool
starts_with s prefix = same (take (length prefix) s) prefix

-- What stands before the first " (", if that occurs.
unfoldable pub before_paren : Bytes → Option Bytes
before_paren [] = none
before_paren (c ∷ cs) =
    let rest = before_paren cs in
    if starts_with (c ∷ cs) (codes " (")
    then some []
    else elim rest [ none ↦ none | some t ↦ some (c ∷ t) ]

unfoldable pub extract_vendor_from_oui : Bytes → Bytes
unfolding before_paren
extract_vendor_from_oui desc = elim (before_paren desc) [
  | none ↦ desc
  | some t ↦ elim t [ [] ↦ desc | c ∷ cs ↦ c ∷ cs ]
]

unfoldable pub vendor_matches : Bytes → Bytes → Bool
unfolding contains
vendor_matches oui_vendor ssid_vendor =
    let oui = upper oui_vendor in
    let ssid = upper ssid_vendor in
    contains oui ssid
    || contains ssid oui
    || (same ssid (codes "DJI")
        && (contains oui (codes "GOERTEK") || contains oui (codes "BAIWANG")))
    || (same ssid (codes "FIMI") && contains oui (codes "XIAOMI"))

-- The first vendor with a pattern in the SSID.
unfoldable pub claimed_vendor : Bytes → Map (List Bytes) → Option Bytes
claimed_vendor ssid [] = none
claimed_vendor ssid ((vendor, patterns) ∷ m) =
    let rest = claimed_vendor ssid m in if any (contains ssid) patterns then some vendor else rest

abbrev pub is_brand : Bytes → Bool
is_brand vendor =
    same vendor (codes "DJI")
    || same vendor (codes "PARROT")
    || same vendor (codes "AUTEL")
    || same vendor (codes "SKYDIO")

abbrev pub consistency : Bytes → Bytes → Bytes
consistency oui_vendor vendor =
    if (contains oui_vendor (codes "ESP") || contains oui_vendor (codes "ESPRESSIF"))
      && is_brand vendor
    then codes "impossible_vendor"
    else if not (vendor_matches oui_vendor vendor)
    then codes "oui_ssid_mismatch"
    else []

abbrev pub dash_to_colon : ℕ → ℕ
dash_to_colon c = if same (c ∷ []) (codes "-") then 58 else c

-- The flag to raise, "" for none.
unfoldable pub check_oui_ssid_consistency : Bytes → Bytes → Bytes
unfolding match_oui extract_vendor_from_oui claimed_vendor vendor_matches
check_oui_ssid_consistency mac ssid =
    let desc = match_oui (upper (map dash_to_colon mac)) in
    if same mac [] || same ssid [] || same desc []
    then []
    else elim (claimed_vendor (upper ssid) ssid_vendor_patterns) [
      | none ↦ []
      | some vendor ↦ consistency (upper (extract_vendor_from_oui desc)) vendor
    ]

-- A prefix of five bytes is found anywhere, a shorter one at the start or after a separator.
abbrev pub has_vendor_prefix : Bytes → Bytes → Bool
has_vendor_prefix ssid prefix =
    starts_with ssid prefix
    || (if leb 5 (length prefix)
        then contains ssid prefix
        else any (λ sep. contains ssid (sep ++ prefix)) (codes "-" ∷ codes "_" ∷ codes " " ∷ []))

unfoldable pub first_vendor : Bytes → Map Bytes → Bytes
first_vendor ssid [] = []
first_vendor ssid ((prefix, vendor) ∷ m) =
    let rest = first_vendor ssid m in if has_vendor_prefix ssid prefix then vendor else rest

unfoldable pub extract_vendor_from_ssid : Bytes → Bytes
unfolding first_vendor
extract_vendor_from_ssid ssid = first_vendor (upper ssid) vendor_prefix_map

-- The bonus for the vendors of the OUI, the SSID and the remote identification.
abbrev pub vendor_bonus : Bytes → Bytes → Bytes → Bool → Bool → ℕ
vendor_bonus oui ssid remote has_remote has_serial =
    let named = not (same ssid []) in
    let all_match = vendor_matches oui ssid && vendor_matches oui remote in
    if named && has_remote && has_serial && all_match
    then 20
    else if named && has_remote && all_match
    then 15
    else if named && not has_remote && vendor_matches oui ssid
    then 10
    else 0

unfoldable pub calculate_correlation_bonus : Drone → ℕ
unfolding match_oui extract_vendor_from_oui extract_vendor_from_ssid vendor_matches
calculate_correlation_bonus d =
    let desc = match_oui d.mac_address in
    let has_remote = not (same d.manufacturer []) && not (same d.detection_source (codes "wifi")) in
    if same d.mac_address [] || same desc []
    then 0
    else vendor_bonus (upper (extract_vendor_from_oui desc))
        (if same d.ssid [] then [] else extract_vendor_from_ssid d.ssid)
        (if has_remote then upper d.manufacturer else []) has_remote (not (same d.serial_number []))
