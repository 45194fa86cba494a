-- ===== src/Intel/RemoteId/WellFormed.antt =====
-- What holds of everything that internal/intel/remoteid_parser.go decodes.
use skylens_azure.Common.{
  ℕ, zero, suc, ◌≤◌, ◌<◌, Bytes, [], ◌∷◌, ltb, ◌==◌, length, take, drop, All, arith, Bool-cases,
  inl, inr,
}
use skylens_azure.Intel.Bits.{byte_at, high_nibble, low_nibble, slice, extract_ascii}
use skylens_azure.Intel.RemoteId.{
  ParsedRemoteId, no_fields, unless_empty, parse_basic_id, parse_location, parse_system,
  parse_operator_id, parse_self_id, parse_auth, parse_body, Outcome, ok, too_short, empty_payload,
  parse_single_message, result_or, pack_loop, parse_message_pack, parse_message,
  parse_remote_id_payload,
}

-- A text of at most n printable characters.
abbrev pub IsText : ℕ → Bytes → Type 0
IsText n s = (length s ≤ n) × All (λ b. (32 ≤ b) × (b ≤ 126)) s

pub record IsWellFormed (r : ParsedRemoteId) : Type 0 where
  pub serial : IsText 20 r.serial_number
  pub operator : IsText 20 r.operator_id
  pub text : IsText 23 r.description
  pub ids : (r.id_type < 16) × (r.ua_type < 16)
  pub course : r.track_direction < 360

extract_ascii-IsText : (n : ℕ) (s : Bytes) → length s ≤ n → IsText n (extract_ascii s)
unfolding extract_ascii
extract_ascii-IsText n [] h = (omega arith, tt)
extract_ascii-IsText zero (b ∷ bs) h = absurd (omega arith)
extract_ascii-IsText (suc n) (b ∷ bs) h =
    let (l, p) = extract_ascii-IsText n bs (omega arith) in ground arith

length-take-le : (n : ℕ) (s : Bytes) → length (take n s) ≤ n
length-take-le zero s = omega arith
length-take-le (suc n) [] = omega arith
length-take-le (suc n) (b ∷ bs) = omega (arith, length-take-le n bs)

unless_empty-IsText :
    (n : ℕ) (s old : Bytes) → IsText n s → IsText n old → IsText n (unless_empty s old)
unless_empty-IsText n [] old h k = k
unless_empty-IsText n (b ∷ bs) old h k = h

text_of :
    (from n : ℕ) (bytes old : Bytes)
    → IsText n old
    → IsText n (unless_empty (extract_ascii (slice from n bytes)) old)
text_of from n bytes old h =
    unless_empty-IsText n _ old
      (extract_ascii-IsText n (slice from n bytes) (length-take-le n (drop from bytes))) h

basic_id-IsWellFormed :
    (bytes : Bytes) (r : ParsedRemoteId) → IsWellFormed r → IsWellFormed (parse_basic_id bytes r)
unfolding parse_basic_id
basic_id-IsWellFormed bytes r v = elim (Bool-cases (ltb (length bytes) 24)) [
  | inl e ↦ rw e v
  | inr e ↦ rw e (record {
    serial = text_of 1 20 bytes r.serial_number v.serial;
    operator = v.operator;
    text = v.text;
    ids = (omega arith, omega arith);
    course = v.course;
  })
]

location-IsWellFormed :
    (bytes : Bytes) (r : ParsedRemoteId) → IsWellFormed r → IsWellFormed (parse_location bytes r)
unfolding parse_location
location-IsWellFormed bytes r v = elim (Bool-cases (ltb (length bytes) 24)) [
  | inl e ↦ rw e v
  | inr e ↦
      let old = v.course in
      rw e (record {
        serial = v.serial;
        operator = v.operator;
        text = v.text;
        ids = v.ids;
        course = ground arith;
      })
]

system-IsWellFormed :
    (bytes : Bytes) (r : ParsedRemoteId) → IsWellFormed r → IsWellFormed (parse_system bytes r)
unfolding parse_system
system-IsWellFormed bytes r v = elim (Bool-cases (ltb (length bytes) 24)) [
  | inl e ↦ rw e v
  | inr e ↦ rw e (record {
    serial = v.serial;
    operator = v.operator;
    text = v.text;
    ids = v.ids;
    course = v.course;
  })
]

operator_id-IsWellFormed :
    (bytes : Bytes) (r : ParsedRemoteId) → IsWellFormed r → IsWellFormed (parse_operator_id bytes r)
unfolding parse_operator_id
operator_id-IsWellFormed bytes r v = elim (Bool-cases (ltb (length bytes) 24)) [
  | inl e ↦ rw e v
  | inr e ↦ rw e (record {
    serial = v.serial;
    operator = text_of 1 20 bytes r.operator_id v.operator;
    text = v.text;
    ids = v.ids;
    course = v.course;
  })
]

self_id-IsWellFormed :
    (bytes : Bytes) (r : ParsedRemoteId) → IsWellFormed r → IsWellFormed (parse_self_id bytes r)
unfolding parse_self_id
self_id-IsWellFormed bytes r v = elim (Bool-cases (ltb (length bytes) 24)) [
  | inl e ↦ rw e v
  | inr e ↦ rw e (record {
    serial = v.serial;
    operator = v.operator;
    text = text_of 1 23 bytes r.description v.text;
    ids = v.ids;
    course = v.course;
  })
]

auth-IsWellFormed :
    (bytes : Bytes) (r : ParsedRemoteId) → IsWellFormed r → IsWellFormed (parse_auth bytes r)
unfolding parse_auth
auth-IsWellFormed bytes r v = elim (Bool-cases (ltb (length bytes) 24)) [
  | inl e ↦ rw e v
  | inr e ↦ elim (Bool-cases (low_nibble (byte_at 0 bytes) == 0)) [
    | inl f ↦
        rw (e, f)
          (record {
            serial = v.serial;
            operator = v.operator;
            text = v.text;
            ids = v.ids;
            course = v.course;
          })
    | inr f ↦
        rw (e, f)
          (record {
            serial = v.serial;
            operator = v.operator;
            text = v.text;
            ids = v.ids;
            course = v.course;
          })
  ]
]

body-IsWellFormed :
    (t : ℕ) (bytes : Bytes) (r : ParsedRemoteId)
    → IsWellFormed r
    → IsWellFormed (parse_body t bytes r)
unfolding parse_body
body-IsWellFormed t bytes r v = ground (
  arith,
  basic_id-IsWellFormed bytes r v,
  location-IsWellFormed bytes r v,
  system-IsWellFormed bytes r v,
  operator_id-IsWellFormed bytes r v,
  self_id-IsWellFormed bytes r v,
  auth-IsWellFormed bytes r v,
)

-- Both parts of an outcome that carries a result.
abbrev pub Each : (ParsedRemoteId → Type 0) → Outcome → Type 0
Each P (ok r) = P r
Each P (too_short n r) = P r
Each P empty_payload = Unit

single-IsWellFormed :
    (bytes : Bytes) (r : ParsedRemoteId)
    → IsWellFormed r
    → Each IsWellFormed (parse_single_message bytes r)
unfolding parse_single_message
single-IsWellFormed bytes r v = elim (Bool-cases (ltb (length bytes) 25)) [
  | inl e ↦ rw e v
  | inr e ↦ rw e (
      body-IsWellFormed (high_nibble (byte_at 0 bytes)) (drop 1 bytes) _ (record {
        serial = v.serial;
        operator = v.operator;
        text = v.text;
        ids = v.ids;
        course = v.course;
      }))
]

result_or-IsWellFormed :
    (r : ParsedRemoteId) (o : Outcome)
    → IsWellFormed r
    → Each IsWellFormed o
    → IsWellFormed (result_or r o)
result_or-IsWellFormed r (ok s) v w = w
result_or-IsWellFormed r (too_short n s) v w = w
result_or-IsWellFormed r empty_payload v w = v

pack_loop-IsWellFormed :
    (n size : ℕ) (bytes : Bytes) (r : ParsedRemoteId)
    → IsWellFormed r
    → IsWellFormed (pack_loop n size bytes r)
unfolding pack_loop
pack_loop-IsWellFormed zero size bytes r v = v
pack_loop-IsWellFormed (suc n) size bytes r v =
    let o = parse_single_message (take size bytes) r in
    ground (
      arith,
      pack_loop-IsWellFormed n size (drop size bytes) (result_or r o)
          (result_or-IsWellFormed r o v (single-IsWellFormed (take size bytes) r v)),
    )

no_fields-IsWellFormed : IsWellFormed no_fields
no_fields-IsWellFormed = record {
  serial = (omega arith, tt);
  operator = (omega arith, tt);
  text = (omega arith, tt);
  ids = (omega arith, omega arith);
  course = omega arith;
}

pack-IsWellFormed :
    (bytes : Bytes) (r : ParsedRemoteId)
    → IsWellFormed r
    → Each IsWellFormed (parse_message_pack bytes r)
unfolding parse_message_pack
pack-IsWellFormed bytes r v = elim (Bool-cases (ltb (length bytes) 3)) [
  | inl e ↦ rw e v
  | inr e ↦ rw e (
      pack_loop-IsWellFormed (byte_at 2 bytes) _ (drop 3 bytes) _ (record {
        serial = v.serial;
        operator = v.operator;
        text = v.text;
        ids = v.ids;
        course = v.course;
      }))
]

message-IsWellFormed : (bytes : Bytes) → Each IsWellFormed (parse_message bytes)
message-IsWellFormed bytes = ground (
  arith,
  pack-IsWellFormed bytes no_fields no_fields-IsWellFormed,
  single-IsWellFormed bytes no_fields no_fields-IsWellFormed,
)

-- Whatever bytes are received, a result of the decoder, also one that comes with an error, has printable
-- texts within the lengths of their fields, type codes of four bits and a direction below 360 degrees.
pub parse-IsWellFormed : (bytes : Bytes) → Each IsWellFormed (parse_remote_id_payload bytes)
unfolding parse_remote_id_payload
parse-IsWellFormed [] = tt
parse-IsWellFormed (b ∷ bs) = ground (arith, message-IsWellFormed bs, message-IsWellFormed (b ∷ bs))
