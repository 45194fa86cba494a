-- ===== src/Intel/Runs.antt =====
-- Runs of the decoders of internal/intel, and their theorems at concrete payloads.
use skylens_azure.Common.{
  none, length, subst, ◌≤◌, ℕ, ◌<◌, ◌≡◌, refl, Bytes, bytes_discrete, codes, [], ◌∷◌, ◌++◌, true,
  arith, is_some,
}
use skylens_azure.Common.Int.{ℤ}
use skylens_azure.Common.Maps.{lookup}
use skylens_azure.Intel.Bits.{extract_ascii}
use skylens_azure.Intel.RemoteId.{
  ParsedRemoteId, no_fields, ok, parse_single_message, parse_message_pack, parse_remote_id_payload,
  pack_loop, parse_body, parse_basic_id,
}
use skylens_azure.Intel.RemoteId.WellFormed.{Each, IsWellFormed, parse-IsWellFormed}
use skylens_azure.Intel.RemoteId.Packs.{
  concat, read_all, basic_id_message, zeros, parse_message_pack-messages,
}
use skylens_azure.Intel.Dji.{
  dji_serial_prefixes, contains, contains_substr, classify_drone_type, parse_dji_drone_id,
}
use skylens_azure.Intel.Dji.Models.{NoneLonger, model_at}
use skylens_azure.Intel.Dji.Encrypted.{YawInTurn, parse_dji-yaw}

abbrev serial : Bytes
serial = codes "1581F6N8725170H3A1CJ"

abbrev message : Bytes
message = basic_id_message 1 2 serial

abbrev read_message : ParsedRemoteId
read_message = record no_fields {
  id_type = 1;
  ua_type = 2;
  serial_number = serial;
  protocol_version = 2;
  message_types = 0 ∷ [];
}

abbrev framed_pack : Bytes
framed_pack = 0x22 ∷ 0xF2 ∷ 25 ∷ 1 ∷ message

framed_runs : parse_remote_id_payload framed_pack ≡ ok read_message
unfolding parse_remote_id_payload parse_message_pack pack_loop parse_single_message parse_body
    parse_basic_id extract_ascii
framed_runs = refl

parse-IsWellFormed_example : Each IsWellFormed (parse_remote_id_payload framed_pack)
parse-IsWellFormed_example = parse-IsWellFormed framed_pack

parse_message_pack-messages_example :
    parse_message_pack (0xF2 ∷ 25 ∷ 3 ∷ concat (message ∷ zeros 25 ∷ []) (1 ∷ 2 ∷ [])) no_fields
    ≡ ok (read_all (message ∷ zeros 25 ∷ []) (record no_fields { protocol_version = 2 }))
parse_message_pack-messages_example =
    parse_message_pack-messages 0xF2 25 3 (message ∷ zeros 25 ∷ []) (1 ∷ 2 ∷ []) no_fields
      (omega arith) (refl, (refl, tt)) (omega arith)

-- The table has the first seven characters, and not all eight.
abbrev short_serial : Bytes
short_serial = codes "1581F6ZX"

eight_missing : model_at 8 short_serial ≡ none
unfolding dji_serial_prefixes lookup bytes_discrete
eight_missing = refl

only_eight : (j : ℕ) → 7 < j → j ≤ 8 → j ≤ length short_serial → model_at j short_serial ≡ none
only_eight j a b c =
    let e : 8 ≡ j = omega arith in subst (λ i. model_at i short_serial ≡ none) e eight_missing

four_missing : model_at 4 (codes "ZZZZ") ≡ none
unfolding dji_serial_prefixes lookup bytes_discrete
four_missing = refl

only_four : NoneLonger 3 5 (codes "ZZZZ")
only_four j a b c =
    let e : 4 ≡ j = omega arith in subst (λ i. model_at i (codes "ZZZZ") ≡ none) e four_missing

-- Case matters.
case_runs : classify_drone_type (codes "mavic pro") ≡ codes "unknown"
unfolding classify_drone_type contains contains_substr bytes_discrete
case_runs = refl

-- A payload of 54 bytes of the version, with the given encrypted bytes.
abbrev dji_payload : ℕ → Bytes → Bytes
dji_payload version cipher =
    version
    ∷ 1
    ∷ 0
    ∷ 8
    ∷ 0
    ∷ (codes "1581F6N872517" ++ (zeros 3 ++ (cipher ++ (zeros 30 ++ 0x3D ∷ []))))

abbrev hypot : ℤ → ℤ → ℕ
hypot _ _ = 0

parse_dji-yaw_example :
    (is_some (parse_dji_drone_id hypot (dji_payload 1 (1 ∷ 2 ∷ []))) ≡ true)
    × YawInTurn (parse_dji_drone_id hypot (dji_payload 1 (1 ∷ 2 ∷ [])))
parse_dji-yaw_example = parse_dji-yaw hypot (dji_payload 1 (1 ∷ 2 ∷ []))
