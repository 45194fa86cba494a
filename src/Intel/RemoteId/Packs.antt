-- ===== src/Intel/RemoteId/Packs.antt =====
-- The framing of internal/intel/remoteid_parser.go: packs of messages, the prefix byte of WiFi Aware
-- frames, and a Basic ID message read back.
use skylens_azure.Common.{
  ℕ, zero, suc, ◌+◌, ◌-◌, ◌*◌, ◌≤◌, ◌<◌, ◌≡◌, refl, sym, ap, Bytes, List, [], ◌∷◌, ◌++◌, true,
  false, ltb, leb, ◌==◌, length, take, drop, All, arith, length-append,
}
use skylens_azure.Intel.Bits.{high_nibble, low_nibble, extract_ascii}
use skylens_azure.Intel.RemoteId.{
  ParsedRemoteId, unless_empty, parse_basic_id, parse_body, ok, parse_single_message, result_or,
  pack_loop, parse_message_pack, is_pack_header, parse_remote_id_payload,
}

-- The messages one after the other; a message that is too short changes nothing.
abbrev pub read_all : List Bytes → ParsedRemoteId → ParsedRemoteId
read_all [] r = r
read_all (m ∷ ms) r = read_all ms (result_or r (parse_single_message m r))

abbrev pub concat : List Bytes → Bytes → Bytes
concat [] tail = tail
concat (m ∷ ms) tail = m ++ concat ms tail

take-append : (m rest : Bytes) → take (length m) (m ++ rest) ≡ m
take-append [] rest = refl
take-append (b ∷ m) rest = ap (λ x. b ∷ x) (take-append m rest)

drop-append : (m rest : Bytes) → drop (length m) (m ++ rest) ≡ rest
drop-append [] rest = refl
drop-append (b ∷ m) rest = drop-append m rest

pack_loop-concat :
    (count n : ℕ) (ms : List Bytes) (tail : Bytes) (r : ParsedRemoteId)
    → All (λ m. length m ≡ n) ms
    → length tail < n
    → pack_loop count n (concat ms tail) r ≡ read_all (take count ms) r
unfolding pack_loop
pack_loop-concat zero n ms tail r h l = refl
pack_loop-concat (suc k) n [] tail r h l = ground arith
pack_loop-concat (suc k) n (m ∷ ms) tail r (e, h) l =
    let rest = concat ms tail in
    let now : take n (m ++ rest) ≡ m = rw (sym e) (take-append m rest) in
    let later : drop n (m ++ rest) ≡ rest = rw (sym e) (drop-append m rest) in
    let fits : leb n (length (m ++ rest)) ≡ true = ground (arith, length-append m rest) in
    let ih = pack_loop-concat k n ms tail (result_or r (parse_single_message m r)) h l in
    rw (fits, now, later) ih

-- A pack whose size byte is that of its messages is read message by message, as many as the count says
-- or as the data holds; what is left at the end and is shorter than a message is ignored.
pub parse_message_pack-messages :
    (h n count : ℕ) (ms : List Bytes) (tail : Bytes) (r : ParsedRemoteId)
    → 1 ≤ n
    → All (λ m. length m ≡ n) ms
    → length tail < n
    → parse_message_pack (h ∷ n ∷ count ∷ concat ms tail) r
      ≡ ok (read_all (take count ms) (record r { protocol_version = low_nibble h }))
unfolding parse_message_pack
parse_message_pack-messages h n count ms tail r p a l =
    let e : (n == 0) ≡ false = ground arith in
    let long : ltb (suc (suc (suc (length (concat ms tail))))) 3 ≡ false = ground arith in
    rw (long, e)
      (ap ok (pack_loop-concat count n ms tail (record r { protocol_version = low_nibble h }) a l))

-- A byte before a message pack changes nothing, whatever it is, unless the pack's size byte looks like
-- a pack header itself.
parse-framed :
    (b h size : ℕ) (rest : Bytes)
    → is_pack_header h ≡ true
    → is_pack_header size ≡ false
    → parse_remote_id_payload (b ∷ h ∷ size ∷ rest) ≡ parse_remote_id_payload (h ∷ size ∷ rest)
unfolding parse_remote_id_payload
parse-framed b h size rest p q = ground arith

abbrev pub zeros : ℕ → Bytes
zeros zero = []
zeros (suc n) = 0 ∷ zeros n

-- The 25 bytes of a Basic ID message of protocol version 2.
abbrev pub basic_id_message : ℕ → ℕ → Bytes → Bytes
basic_id_message id_type ua_type serial =
    2 ∷ (id_type * 16 + ua_type) ∷ (serial ++ zeros (23 - length serial))

abbrev pub IsPrintable : Bytes → Type 0
IsPrintable = All (λ b. (32 ≤ b) × (b ≤ 126))

length-zeros : (n : ℕ) → length (zeros n) ≡ n
length-zeros zero = refl
length-zeros (suc n) = ap suc (length-zeros n)

extract_ascii-zeros : (n k : ℕ) → extract_ascii (take k (zeros n)) ≡ []
unfolding extract_ascii
extract_ascii-zeros n zero = refl
extract_ascii-zeros zero (suc k) = refl
extract_ascii-zeros (suc n) (suc k) = refl

extract_ascii-padded :
    (s : Bytes) (n k : ℕ) → IsPrintable s → length s ≤ k → extract_ascii (take k (s ++ zeros n)) ≡ s
unfolding extract_ascii
extract_ascii-padded [] n k p l = extract_ascii-zeros n k
extract_ascii-padded (b ∷ s) n zero p l = absurd (omega arith)
extract_ascii-padded (b ∷ s) n (suc k) ((lo, hi), p) l =
    ground (arith, extract_ascii-padded s n k p (omega arith))

unless_empty-some : (s old : Bytes) → 1 ≤ length s → unless_empty s old ≡ s
unless_empty-some [] old h = absurd (omega arith)
unless_empty-some (b ∷ s) old h = refl

-- A Basic ID message with a serial number of one to twenty printable characters is read back: the type
-- codes, the serial number and the version are the message's.
parse-basic_id_message :
    (id_type ua_type : ℕ) (serial : Bytes) (r : ParsedRemoteId)
    → id_type < 16
    → ua_type < 16
    → IsPrintable serial
    → 1 ≤ length serial
    → length serial ≤ 20
    → parse_single_message (basic_id_message id_type ua_type serial) r
      ≡ ok (record r {
        id_type = id_type;
        ua_type = ua_type;
        serial_number = serial;
        protocol_version = 2;
        message_types = r.message_types ++ 0 ∷ [];
      })
unfolding parse_single_message parse_body parse_basic_id
parse-basic_id_message i u s r hi hu p lo hl =
    let pad = zeros (23 - length s) in
    let size : length (s ++ pad) ≡ 23 =
      omega (arith, length-append s pad, length-zeros (23 - length s), hl) in
    let long : ltb (suc (suc (length (s ++ pad)))) 25 ≡ false = ground arith in
    let long' : ltb (suc (length (s ++ pad))) 24 ≡ false = ground arith in
    let hn : high_nibble (i * 16 + u) ≡ i = omega arith in
    let ln : low_nibble (i * 16 + u) ≡ u = omega arith in
    rw
      (
        long,
        long',
        hn,
        ln,
        extract_ascii-padded s (23 - length s) 20 p hl,
        unless_empty-some s r.serial_number lo,
      )
      refl
