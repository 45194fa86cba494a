-- ===== src/Auth/Passwords.antt =====
-- The password policy of internal/auth/password.go. A password is its bytes, and `runes` is what Go's
-- `range` makes of them. The classes of
-- Unicode runes and bcrypt's generation and comparison, all of libraries, are the fields of a `Library`.
pub mod Policy
use skylens_azure.Common.{
  ℕ, zero, suc, ◌%◌, ◌-◌, ◌+◌, ◌*◌, ◌==◌, Bytes, Option, none, some, List, [], ◌∷◌, Bool, true,
  false, not, ltb, leb, ◌&&◌, ◌||◌, if◌then◌else◌, length, any,
}

pub record Library : Type 0 where
  pub is_upper : ℕ → Bool
  pub is_lower : ℕ → Bool
  pub is_digit : ℕ → Bool
  pub is_punct : ℕ → Bool
  pub is_symbol : ℕ → Bool
  pub generate_from_password : Bytes → Option Bytes
  pub compare_hash_and_password : Bytes → Bytes → Bool

pub data PasswordError : Type 0 where
  too_short too_long no_upper no_lower no_digit no_special hash_failed : PasswordError

abbrev pub min_password_length : ℕ
min_password_length = 8

abbrev pub max_password_length : ℕ
max_password_length = 128

-- What a byte that is no part of a valid encoding stands for, and its width.
abbrev pub rune_error : ℕ × ℕ
rune_error = (0xFFFD, 1)

abbrev pub is_between : ℕ → ℕ → ℕ → Bool
is_between low high b = leb low b && leb b high

-- The second byte after some first bytes has a smaller range: no overlong encoding, no surrogate, and
-- nothing above 0x10FFFF.
abbrev pub is_second : ℕ → ℕ → Bool
is_second first b =
    if first == 0xE0
    then is_between 0xA0 0xBF b
    else if first == 0xED
    then is_between 0x80 0x9F b
    else if first == 0xF0
    then is_between 0x90 0xBF b
    else if first == 0xF4
    then is_between 0x80 0x8F b
    else is_between 0x80 0xBF b

abbrev pub two_bytes : ℕ → Bytes → ℕ × ℕ
two_bytes a (b ∷ bs) = if is_second a b then (a % 32 * 64 + b % 64, 2) else rune_error
two_bytes a bs = rune_error

abbrev pub three_bytes : ℕ → Bytes → ℕ × ℕ
three_bytes a (b ∷ c ∷ bs) =
    if is_second a b && is_between 0x80 0xBF c
    then ((a % 16 * 64 + b % 64) * 64 + c % 64, 3)
    else rune_error
three_bytes a bs = rune_error

abbrev pub four_bytes : ℕ → Bytes → ℕ × ℕ
four_bytes a (b ∷ c ∷ d ∷ bs) =
    if is_second a b && (is_between 0x80 0xBF c && is_between 0x80 0xBF d)
    then (((a % 8 * 64 + b % 64) * 64 + c % 64) * 64 + d % 64, 4)
    else rune_error
four_bytes a bs = rune_error

-- The rune at the first byte, and its width.
unfoldable pub decode_rune : ℕ → Bytes → ℕ × ℕ
decode_rune a bs =
    if ltb a 0x80
    then (a, 1)
    else if is_between 0xC2 0xDF a
    then two_bytes a bs
    else if is_between 0xE0 0xEF a
    then three_bytes a bs
    else if is_between 0xF0 0xF4 a
    then four_bytes a bs
    else rune_error

-- The runes of a text whose first bytes, so many, belong to a rune that is read.
unfoldable pub runes_from : ℕ → Bytes → List ℕ
unfolding decode_rune
runes_from skip [] = []
runes_from zero (a ∷ bs) = let (r, width) = decode_rune a bs in r ∷ runes_from (width - 1) bs
runes_from (suc skip) (a ∷ bs) = runes_from skip bs

abbrev pub runes : Bytes → List ℕ
runes = runes_from 0

-- The four flags of the loop over the runes.
pub record Classes : Type 0 where
  pub upper : Bool
  pub lower : Bool
  pub digit : Bool
  pub special : Bool

abbrev pub no_classes : Classes
no_classes = record { upper = false; lower = false; digit = false; special = false }

unfoldable pub note_rune : Library → ℕ → Classes → Classes
note_rune lib r c =
    if lib.is_upper r
    then record c { upper = true }
    else if lib.is_lower r
    then record c { lower = true }
    else if lib.is_digit r
    then record c { digit = true }
    else if lib.is_punct r || lib.is_symbol r
    then record c { special = true }
    else c

unfoldable pub note_runes : Library → List ℕ → Classes → Classes
unfolding note_rune
note_runes lib [] c = c
note_runes lib (r ∷ rs) c = note_runes lib rs (note_rune lib r c)

-- `none` is the absence of an error.
unfoldable pub validate_password : Library → Bytes → Option PasswordError
unfolding note_runes runes_from
validate_password lib password =
    let c = note_runes lib (runes password) no_classes in
    if ltb (length password) min_password_length
    then some too_short
    else if ltb max_password_length (length password)
    then some too_long
    else if not c.upper
    then some no_upper
    else if not c.lower
    then some no_lower
    else if not c.digit
    then some no_digit
    else if not c.special
    then some no_special
    else none

pub data HashResult : Type 0 where
  hashed : Bytes → HashResult
  refused : PasswordError → HashResult

unfoldable pub hash_password : Library → Bytes → HashResult
unfolding validate_password
hash_password lib password = elim (validate_password lib password) [
  | some e ↦ refused e
  | none ↦ elim (lib.generate_from_password password) [
    | none ↦ refused hash_failed
    | some hash ↦ hashed hash
  ]
]

unfoldable pub verify_password : Library → Bytes → Bytes → Bool
verify_password lib password hash = lib.compare_hash_and_password hash password

-- The number of different runes.
unfoldable pub unique_runes : List ℕ → ℕ
unique_runes [] = 0
unique_runes (r ∷ rs) =
    let rest = unique_runes rs in if any (λ s. s == r) rs then rest else rest + 1

abbrev pub points : Bool → ℕ → ℕ
points b n = if b then n else 0

-- `unique / length` against 0.8, 0.6, 0.4 and 0.2.
abbrev pub entropy_bonus : ℕ → ℕ → ℕ
entropy_bonus unique len =
    if ltb (8 * len) (10 * unique)
    then 20
    else if ltb (6 * len) (10 * unique)
    then 15
    else if ltb (4 * len) (10 * unique)
    then 10
    else if ltb (2 * len) (10 * unique)
    then 5
    else 0

abbrev pub class_points : Classes → ℕ
class_points c = points c.upper 10 + points c.lower 10 + points c.digit 10 + points c.special 10

abbrev pub length_points : ℕ → ℕ
length_points len =
    points (leb min_password_length len) 20 + points (leb 16 len) 10 + points (leb 20 len) 10

unfoldable pub password_strength : Library → Bytes → ℕ
unfolding note_runes unique_runes runes_from
password_strength lib password =
    let len = length password in
    let score =
      length_points len
      + class_points (note_runes lib (runes password) no_classes)
      + entropy_bonus (unique_runes (runes password)) len in
    if len == 0 then 0 else if ltb 100 score then 100 else score

pub data StrengthLabel : Type 0 where
  strong good fair weak very_weak : StrengthLabel

unfoldable pub password_strength_label : ℕ → StrengthLabel
password_strength_label score =
    if leb 80 score
    then strong
    else if leb 60 score
    then good
    else if leb 40 score
    then fair
    else if leb 20 score
    then weak
    else very_weak
