-- ===== src/Auth/Passwords/Policy.antt =====
-- The theorems on internal/auth/password.go.
use skylens_azure.Common.{
  length, Bytes, ℕ, ◌+◌, ◌≡◌, ◌≤◌, ◌↔◌, refl, ◌∙◌, subst, none, List, [], ◌∷◌, Bool, true, false,
  not, ltb, ◌==◌, ◌&&◌, ◌||◌, if◌then◌else◌, any, arith, inl, inr, Bool-cases,
}
use skylens_azure.Auth.Passwords.{
  Library, Classes, no_classes, note_rune, note_runes, validate_password, runes, unique_runes,
  class_points, length_points, entropy_bonus, password_strength,
}

-- The class of a rune, which is the first that the switch finds.
abbrev pub is_lower_rune : Library → ℕ → Bool
is_lower_rune lib r = not (lib.is_upper r) && lib.is_lower r

abbrev pub is_digit_rune : Library → ℕ → Bool
is_digit_rune lib r = not (lib.is_upper r) && not (lib.is_lower r) && lib.is_digit r

abbrev pub is_special_rune : Library → ℕ → Bool
is_special_rune lib r =
    not (lib.is_upper r)
    && not (lib.is_lower r)
    && not (lib.is_digit r)
    && (lib.is_punct r || lib.is_symbol r)

-- The flags as searches.
abbrev pub found : Library → List ℕ → Classes → Classes
found lib rs c = record {
  upper = c.upper || any lib.is_upper rs;
  lower = c.lower || any (is_lower_rune lib) rs;
  digit = c.digit || any (is_digit_rune lib) rs;
  special = c.special || any (is_special_rune lib) rs;
}

or_true : (a : Bool) → (a || true) ≡ true
or_true true = refl
or_true false = refl

or_false : (a : Bool) → (a || false) ≡ a
or_false true = refl
or_false false = refl

found-note_rune :
    (lib : Library) (r : ℕ) (rs : List ℕ) (c : Classes)
    → found lib rs (note_rune lib r c) ≡ found lib (r ∷ rs) c
unfolding note_rune
found-note_rune lib r rs c = elim (Bool-cases (lib.is_upper r)) [
  | inl u ↦ rw (u, or_true c.upper) refl
  | inr u ↦ elim (Bool-cases (lib.is_lower r)) [
    | inl l ↦ rw (u, l, or_true c.lower) refl
    | inr l ↦ elim (Bool-cases (lib.is_digit r)) [
      | inl d ↦ rw (u, l, d, or_true c.digit) refl
      | inr d ↦ elim (Bool-cases (lib.is_punct r || lib.is_symbol r)) [
        | inl p ↦ rw (u, l, d, p, or_true c.special) refl
        | inr p ↦ rw (u, l, d, p) refl
      ]
    ]
  ]
]

note_runes-found :
    (lib : Library) (rs : List ℕ) (c : Classes) → note_runes lib rs c ≡ found lib rs c
unfolding note_runes
note_runes-found lib [] c =
    rw (or_false c.upper, or_false c.lower, or_false c.digit, or_false c.special) refl
note_runes-found lib (r ∷ rs) c =
    note_runes-found lib rs (note_rune lib r c) ∙ found-note_rune lib r rs c

-- A password that meets the policy.
abbrev pub Meets : Library → Bytes → Type 0
Meets lib password =
    (8 ≤ length password)
    × (length password ≤ 128)
    × (any lib.is_upper (runes password) ≡ true)
    × (any (is_lower_rune lib) (runes password) ≡ true)
    × (any (is_digit_rune lib) (runes password) ≡ true)
    × (any (is_special_rune lib) (runes password) ≡ true)

-- The test of the policy on a length and the flags.
abbrev pub Passes : ℕ → Classes → Type 0
Passes len c =
    (8 ≤ len)
    × (len ≤ 128)
    × (c.upper ≡ true)
    × (c.lower ≡ true)
    × (c.digit ≡ true)
    × (c.special ≡ true)

validate-Passes :
    (lib : Library) (password : Bytes)
    → (validate_password lib password ≡ none)
      ↔ Passes (length password) (note_runes lib (runes password) no_classes)
unfolding validate_password
validate-Passes lib password = (λ e. ground (arith, e), λ h. ground (arith, h))

-- A password is accepted exactly when it has from 8 to 128 bytes, not characters, and a rune of each of the
-- four classes, where a rune belongs to the first class that the switch finds, and a byte that is no part
-- of a valid encoding is the rune 0xFFFD.
pub validate_password-Meets_iff :
    (lib : Library) (password : Bytes)
    → (validate_password lib password ≡ none) ↔ Meets lib password
validate_password-Meets_iff lib password =
    subst (λ c. (validate_password lib password ≡ none) ↔ Passes (length password) c)
      (note_runes-found lib (runes password) no_classes) (validate-Passes lib password)

length_points-ge : (len : ℕ) → 8 ≤ len → 20 ≤ length_points len
length_points-ge len h = ground (arith, h)

class_points-all :
    (c : Classes)
    → c.upper ≡ true
    → c.lower ≡ true
    → c.digit ≡ true
    → c.special ≡ true
    → class_points c ≡ 40
class_points-all c u l d p = rw (u, l, d, p) refl

capped :
    (len score : ℕ)
    → 8 ≤ len
    → 60 ≤ score
    → (60 ≤ (if len == 0 then 0 else if ltb 100 score then 100 else score))
      × ((if len == 0 then 0 else if ltb 100 score then 100 else score) ≤ 100)
capped len score h le = ground (arith, h, le)

-- An accepted password has a strength from 60 to 100.
accepted-strength :
    (lib : Library) (password : Bytes)
    → validate_password lib password ≡ none
    → (60 ≤ password_strength lib password) × (password_strength lib password ≤ 100)
unfolding password_strength
accepted-strength lib password e =
    let c = note_runes lib (runes password) no_classes in
    let len = length password in
    let (h, most, u, l, d, p) = (validate-Passes lib password).0 e in
    capped len
      (length_points len + class_points c + entropy_bonus (unique_runes (runes password)) len) h
      (omega (arith, length_points-ge len h, class_points-all c u l d p))
