-- ===== src/Auth/Runs/Policies.antt =====
-- Runs of the password policy of internal/auth/password.go, and its theorems at a concrete password.
use skylens_azure.Common.{
  ◌++◌, ◌∷◌, [], ℕ, ◌≡◌, ◌↔◌, refl, codes, none, some, Bool, false, leb, ◌&&◌, ◌||◌,
}
use skylens_azure.Auth.Passwords.{
  Library, validate_password, runes, password_strength, password_strength_label, note_runes,
  runes_from, decode_rune, note_rune, unique_runes, no_special, strong,
}
use skylens_azure.Auth.Passwords.Policy.{Meets, validate_password-Meets_iff}

abbrev between : ℕ → ℕ → ℕ → Bool
between low high r = leb low r && leb r high

abbrev ascii : Library
ascii = record {
  is_upper = between 65 90;
  is_lower = between 97 122;
  is_digit = between 48 57;
  is_punct = λ r. between 33 47 r || between 58 64 r;
  is_symbol = λ r. false;
  generate_from_password = λ p. some p;
  compare_hash_and_password = λ h p. false;
}

accepted_runs : validate_password ascii (codes "Sky-lens2") ≡ none
unfolding validate_password runes_from decode_rune note_runes note_rune
accepted_runs = refl

-- Six characters, two of them of two bytes.
six_characters_runs :
    validate_password ascii (codes "Aa1!" ++ 0xC3 ∷ 0xA9 ∷ 0xC3 ∷ 0xA9 ∷ []) ≡ none
unfolding validate_password runes_from decode_rune note_runes note_rune
six_characters_runs = refl

invalid_runs :
    runes (0x41 ∷ 0xE2 ∷ 0x82 ∷ 0xAC ∷ 0xC3 ∷ 0x28 ∷ []) ≡ 0x41 ∷ 0x20AC ∷ 0xFFFD ∷ 0x28 ∷ []
unfolding runes_from decode_rune
invalid_runs = refl

no_special_runs : validate_password ascii (codes "Skylens22") ≡ some no_special
unfolding validate_password runes_from decode_rune note_runes note_rune
no_special_runs = refl

strength_runs : password_strength_label (password_strength ascii (codes "Sky-lens2")) ≡ strong
unfolding password_strength_label password_strength runes_from decode_rune note_runes note_rune
    unique_runes
strength_runs = refl

validate_password-Meets_iff_example :
    (validate_password ascii (codes "Sky-lens2") ≡ none) ↔ Meets ascii (codes "Sky-lens2")
validate_password-Meets_iff_example = validate_password-Meets_iff ascii (codes "Sky-lens2")
