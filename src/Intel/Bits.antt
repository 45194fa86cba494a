-- ===== src/Intel/Bits.antt =====
-- Reading bytes, shared by internal/intel/remoteid_parser.go and internal/intel/dji_parser.go. A
-- read past the end of the data panics in the source; `byte_at` gives 0 there, and the callers test the
-- length first, as the source does.
use skylens_azure.Common.{
  ℕ, ◌+◌, ◌*◌, ◌/◌, ◌%◌, Bytes, [], ◌∷◌, Bool, leb, ◌==◌, ◌&&◌, if◌then◌else◌, take, drop, get_or,
}
use skylens_azure.Common.Int.{ℤ, signed}

abbrev pub byte_at : ℕ → Bytes → ℕ
byte_at i bytes = get_or bytes i 0

-- The two halves of a byte.
abbrev pub high_nibble : ℕ → ℕ
high_nibble b = b / 16 % 16

abbrev pub low_nibble : ℕ → ℕ
low_nibble b = b % 16

-- `data[from:to]` with `to` = from + n.
abbrev pub slice : ℕ → ℕ → Bytes → Bytes
slice from n bytes = take n (drop from bytes)

-- `binary.LittleEndian.Uint16` and `Uint32` at an offset.
abbrev pub uint16_at : ℕ → Bytes → ℕ
uint16_at i bytes = byte_at i bytes + 256 * byte_at (i + 1) bytes

abbrev pub uint32_at : ℕ → Bytes → ℕ
uint32_at i bytes = uint16_at i bytes + 65_536 * uint16_at (i + 2) bytes

abbrev pub int16_at : ℕ → Bytes → ℤ
int16_at i bytes = signed 32_768 (uint16_at i bytes)

abbrev pub int32_at : ℕ → Bytes → ℤ
int32_at i bytes = signed 2_147_483_648 (uint32_at i bytes)

abbrev pub is_printable : ℕ → Bool
is_printable b = leb 32 b && leb b 126

-- The printable bytes before the first zero byte.
unfoldable pub extract_ascii : Bytes → Bytes
extract_ascii [] = []
extract_ascii (b ∷ bs) =
    let rest = extract_ascii bs in if b == 0 then [] else if is_printable b then b ∷ rest else rest
