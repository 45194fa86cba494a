-- ===== src/Intel/Dji/Models.antt =====
-- Model names, keyword search and the yaw angle of internal/intel/dji_parser.go.
use skylens_azure.Common.{
  ℕ, zero, suc, ◌+◌, ◌-◌, ◌≤◌, ◌<◌, ◌≡◌, refl, sym, ap, ◌∙◌, subst, Bytes, same, same→eq, same_refl,
  Option, none, some, [], ◌∷◌, ◌++◌, true, false, ltb, leb, length, take, drop, arith, ◌↔◌, ◌⊎◌,
  inl, inr, Bool-cases, length-append,
}
use skylens_azure.Common.Int.{ℤ, pos, negsuc, abs}
use skylens_azure.Common.Maps.{lookup}
use skylens_azure.Intel.Dji.{
  dji_serial_prefixes, longest_prefix, decode_model_from_serial, contains_substr, contains,
  normalize_yaw,
}

-- The table's entry for the first k characters.
abbrev pub model_at : ℕ → Bytes → Option Bytes
model_at k serial = lookup (take k serial) dji_serial_prefixes

-- No prefix of more than k characters and at most n + 3 is in the table.
abbrev pub NoneLonger : ℕ → ℕ → Bytes → Type 0
NoneLonger k n serial = (j : ℕ) → k < j → j ≤ n + 3 → j ≤ length serial → model_at j serial ≡ none

longest_prefix-finds :
    (n k : ℕ) (serial model : Bytes)
    → 4 ≤ k
    → k ≤ n + 3
    → k ≤ length serial
    → model_at k serial ≡ some model
    → NoneLonger k n serial
    → longest_prefix n serial ≡ model
unfolding longest_prefix
longest_prefix-finds zero k serial model lo hi fits e longer = absurd (omega arith)
longest_prefix-finds (suc n) k serial model lo hi fits e longer =
    let here : (n + 4 ≡ k) ⊎ (k ≤ n + 3) = ground arith in
    elim here [
      | inl q ↦
          let found : model_at (n + 4) serial ≡ some model = rw q e in
          let long : leb (n + 4) (length serial) ≡ true = ground arith in rw (long, found) refl
      | inr q ↦
          let ih =
            longest_prefix-finds n k serial model lo q fits e
              (λ j a b c. longer j a (omega arith) c) in
          elim (Bool-cases (leb (n + 4) (length serial))) [
            | inl l ↦ rw (l, longer (n + 4) (omega arith) (omega arith) (ground arith)) ih
            | inr l ↦ rw l ih
          ]
    ]

-- The decoded model is the one of the longest prefix of four to eight characters that the table has.
decode_model-longest :
    (k : ℕ) (serial model : Bytes)
    → 4 ≤ k
    → k ≤ 8
    → k ≤ length serial
    → model_at k serial ≡ some model
    → NoneLonger k 5 serial
    → decode_model_from_serial serial ≡ model
unfolding decode_model_from_serial
decode_model-longest k serial model lo hi fits e longer =
    let long : ltb (length serial) 4 ≡ false = ground arith in
    rw long (longest_prefix-finds 5 k serial model lo hi fits e longer)

longest_prefix-none :
    (n : ℕ) (serial : Bytes) → NoneLonger 3 n serial → longest_prefix n serial ≡ []
unfolding longest_prefix
longest_prefix-none zero serial h = refl
longest_prefix-none (suc n) serial h =
    let ih = longest_prefix-none n serial (λ j a b c. h j a (omega arith) c) in
    elim (Bool-cases (leb (n + 4) (length serial))) [
      | inl l ↦ rw (l, h (n + 4) (omega arith) (omega arith) (ground arith)) ih
      | inr l ↦ rw l ih
    ]

-- With no prefix of four to eight characters in the table, no model is decoded.
decode_model-none : (serial : Bytes) → NoneLonger 3 5 serial → decode_model_from_serial serial ≡ []
unfolding decode_model_from_serial
decode_model-none serial h = ground (arith, longest_prefix-none 5 serial h)

-- A text with another one inside.
abbrev pub Within : Bytes → Bytes → Type 0
Within sub s = (pre : Bytes) × (post : Bytes) × (s ≡ pre ++ (sub ++ post))

take-drop : (n : ℕ) (s : Bytes) → take n s ++ drop n s ≡ s
take-drop zero s = refl
take-drop (suc n) [] = refl
take-drop (suc n) (x ∷ xs) = ap (λ t. x ∷ t) (take-drop n xs)

prefix-Within : (sub s : Bytes) → same (take (length sub) s) sub ≡ true → Within sub s
prefix-Within sub s e = (
  [],
  drop (length sub) s,
  sym (take-drop (length sub) s)
      ∙ ap (λ t. t ++ drop (length sub) s) (same→eq (take (length sub) s) sub e),
)

contains_substr-Within : (s sub : Bytes) → contains_substr s sub ≡ true → Within sub s
unfolding contains_substr
contains_substr-Within [] [] e = ([], [], refl)
contains_substr-Within [] (y ∷ ys) e = absurd (ground arith)
contains_substr-Within (x ∷ xs) sub e = elim (Bool-cases (same (take (length sub) (x ∷ xs)) sub)) [
  | inl p ↦ prefix-Within sub (x ∷ xs) p
  | inr p ↦
      let later : contains_substr xs sub ≡ true = ground arith in
      let (pre, post, q) = contains_substr-Within xs sub later in (x ∷ pre, post, ap (λ t. x ∷ t) q)
]

take-append : (m rest : Bytes) → take (length m) (m ++ rest) ≡ m
take-append [] rest = refl
take-append (b ∷ m) rest = ap (λ x. b ∷ x) (take-append m rest)

contains_substr-finds : (pre sub post : Bytes) → contains_substr (pre ++ (sub ++ post)) sub ≡ true
unfolding contains_substr
contains_substr-finds [] [] [] = ground (arith, same_refl [])
contains_substr-finds [] [] (y ∷ ys) = ground (arith, same_refl [])
contains_substr-finds [] (x ∷ xs) post =
    ground (arith, length-append xs post, take-append xs post, same_refl (x ∷ xs))
contains_substr-finds (x ∷ pre) sub post = ground (
  arith,
  length-append pre (sub ++ post),
  length-append sub post,
  contains_substr-finds pre sub post,
)

append-nil : (s : Bytes) → s ≡ s ++ []
append-nil [] = refl
append-nil (x ∷ xs) = ap (λ t. x ∷ t) (append-nil xs)

contains-finds : (pre sub post : Bytes) → contains (pre ++ (sub ++ post)) sub ≡ true
unfolding contains
contains-finds [] sub [] = rw (sym (append-nil sub)) (ground (arith, same_refl sub))
contains-finds [] sub (y ∷ ys) =
    ground (arith, length-append sub (y ∷ ys), contains_substr-finds [] sub (y ∷ ys))
contains-finds (x ∷ pre) sub post = ground (
  arith,
  length-append pre (sub ++ post),
  length-append sub post,
  contains_substr-finds (x ∷ pre) sub post,
)

contains-Within : (s sub : Bytes) → contains s sub ≡ true → Within sub s
unfolding contains
contains-Within s sub e = elim (Bool-cases (same s sub)) [
  | inl p ↦ ([], [], same→eq s sub p ∙ append-nil sub)
  | inr p ↦ elim (Bool-cases (same (take (length sub) s) sub)) [
    | inl q ↦ prefix-Within sub s q
    | inr q ↦ contains_substr-Within s sub (ground arith)
  ]
]

-- The keyword test is the search for a part of the text, with the case of letters respected.
contains_iff : (s sub : Bytes) → (contains s sub ≡ true) ↔ Within sub s
contains_iff s sub = (
  contains-Within s sub,
  λ (pre, post, e). subst (λ t. contains t sub ≡ true) (sym e) (contains-finds pre sub post),
)

-- A yaw angle of less than one turn in absolute value, as every 16-bit one is, becomes the angle from 0
-- to a turn that differs from it by nothing or by one turn.
pub normalize_yaw-range :
    (raw : ℤ)
    → abs raw < 36_000
    → (n : ℕ) × (normalize_yaw raw ≡ pos n)
      × (n < 36_000)
      × ((raw ≡ pos n) ⊎ (n + abs raw ≡ 36_000))
unfolding normalize_yaw
normalize_yaw-range (pos n) h = (n, ground arith, h, inl refl)
normalize_yaw-range (negsuc n) h = (36_000 - suc n, ground arith, omega arith, inr (omega arith))
