-- ===== src/Common/Texts.antt =====
-- A Go string is its bytes. Equality of byte strings is decided.
use Prim.Native.Nat.{ℕ}
use Prim.Native.Char.{code}
use Prim.Native.String.{String}
use mathlib.Core.Path.{◌≡◌, refl}
use mathlib.Core.Bool.{Bool, true, false}
use mathlib.Core.List.{List, [], ◌∷◌}
use native.Mathlib.Omega.{arith}
unfoldable use native.Mathlib.Decide.{ℕ_discrete}

abbrev pub Bytes : Type 0
Bytes = List ℕ

-- The bytes of an ASCII literal of the source.
abbrev pub codes : String → Bytes
codes String.[] = []
codes (String.◌∷◌ c s) = code c ∷ codes s

pub tail-same : {x y : ℕ} {xs ys : Bytes} → x ∷ xs ≡ y ∷ ys → xs ≡ ys
tail-same e = ground arith

pub head-same : {x y : ℕ} {xs ys : Bytes} → x ∷ xs ≡ y ∷ ys → x ≡ y
head-same e = ground arith

pub cons-same : {x y : ℕ} {xs ys : Bytes} → x ≡ y → xs ≡ ys → x ∷ xs ≡ y ∷ ys
cons-same p q = cc

unfoldable pub bytes_discrete : Discrete Bytes
unfolding ℕ_discrete
bytes_discrete [] [] = yes refl
bytes_discrete [] (y ∷ ys) = no (λ e. cc)
bytes_discrete (x ∷ xs) [] = no (λ e. cc)
bytes_discrete (x ∷ xs) (y ∷ ys) = elim (ℕ_discrete x y) [
  | yes p ↦ elim (bytes_discrete xs ys) [
    | yes q ↦ yes (cons-same p q)
    | no q ↦ no (λ e. q (tail-same e))
  ]
  | no p ↦ no (λ e. p (head-same e))
]

-- `==` of Go on strings.
abbrev pub same : Bytes → Bytes → Bool
same a b = elim (bytes_discrete a b) [ yes _ ↦ true | no _ ↦ false ]

pub same_refl : (a : Bytes) → same a a ≡ true
same_refl a = ground arith

pub same→eq : (a b : Bytes) → same a b ≡ true → a ≡ b
same→eq a b h = ground arith

same_runs : same (codes "1581F45") (codes "1581F45") ≡ true
unfolding bytes_discrete
same_runs = refl

same_tells : same (codes "1581F45") (codes "1581F4Q") ≡ false
unfolding bytes_discrete
same_tells = refl
