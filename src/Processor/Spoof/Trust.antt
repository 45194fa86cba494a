-- ===== src/Processor/Spoof/Trust.antt =====
-- The trust score and the flags of the spoofing detector, internal/processor/spoof.go.
use skylens_azure.Common.{
  ℕ, suc, ◌+◌, ◌-◌, ◌≡◌, ◌≤◌, ◌⊎◌, refl, Bytes, bytes_discrete, same, some, List, [], ◌∷◌, Bool,
  true, false, ltb, leb, ◌==◌, ◌&&◌, ◌||◌, if◌then◌else◌, any, length, arith, inl, inr, Bool-cases,
}
use skylens_azure.Common.Int.{ℤ}
use skylens_azure.Common.Maps.{Map, lookup, insert, lookup-insert}
use skylens_azure.Intel.Oui.{match_oui}
use skylens_azure.Processor.Model.{Drone}
use skylens_azure.Processor.Suspects.{cap_at}
use skylens_azure.Processor.Spoof.Vendors.{vendor_bonus, calculate_correlation_bonus}
use skylens_azure.Processor.Spoof.{SpoofDetector, Checks, add_flags}
use skylens_azure.Processor.Spoof.Analysis.{
  total_penalty, confidence_bonus, recovery, trust_score, bonus_of, analyze, next_track,
  spoof_shard, flag_names,
}

vendor_bonus-cases : (a b c : Bool) → (if a then 20 else if b then 15 else if c then 10 else 0) ≤ 20
vendor_bonus-cases true b c = omega arith
vendor_bonus-cases false true c = omega arith
vendor_bonus-cases false false true = omega arith
vendor_bonus-cases false false false = omega arith

vendor_bonus-le :
    (oui ssid remote : Bytes) (has_remote has_serial : Bool)
    → vendor_bonus oui ssid remote has_remote has_serial ≤ 20
vendor_bonus-le oui ssid remote has_remote has_serial = vendor_bonus-cases _ _ _

correlation-le : (d : Drone) → calculate_correlation_bonus d ≤ 20
unfolding calculate_correlation_bonus
correlation-le d = elim (Bool-cases (same d.mac_address [] || same (match_oui d.mac_address) [])) [
  | inl e ↦ rw e (omega arith)
  | inr e ↦ rw e (vendor_bonus-cases _ _ _)
]

confidence-cases : (a b : Bool) → (if a then 10 else if b then 5 else 0) ≤ 10
confidence-cases true b = omega arith
confidence-cases false true = omega arith
confidence-cases false false = omega arith

bonus-le : (d : Drone) → bonus_of d ≤ 30
unfolding bonus_of
bonus-le d =
    let signal : confidence_bonus d ≤ 10 =
      confidence-cases (leb 36_000 d.confidence) (leb 32_000 d.confidence) in
    omega (arith, signal, correlation-le d)

recovery-cases : (a : Bool) → (if a then 5 else 0) ≤ 5
recovery-cases true = omega arith
recovery-cases false = omega arith

recovery-le : (clean total : ℕ) → recovery clean total ≤ 5
recovery-le clean total = recovery-cases (leb 5 clean && ltb 0 total)

-- What the score says of the penalties.
abbrev pub Bounded : ℕ → ℕ → ℕ → Type 0
Bounded score total bonus =
    (score ≤ 100) × (100 ≤ score + total) × ((score ≡ 0) ⊎ (score + total ≤ 105 + bonus))

capped-Bounded :
    (total bonus extra : ℕ)
    → extra ≤ 5
    → Bounded (cap_at 100 (100 + bonus + extra - total)) total bonus
capped-Bounded total bonus extra le = ground (arith, le)

suc-nonzero : (n : ℕ) → (suc n == 0) ≡ false
suc-nonzero n = ground arith

score-Bounded :
    (clean : ℕ) (flags : List Bytes) (bonus : ℕ)
    → Bounded (trust_score clean flags bonus) (total_penalty flags) bonus
unfolding trust_score total_penalty
score-Bounded clean [] bonus = elim (Bool-cases (leb 10 clean)) [
  | inl e ↦ rw e (omega arith, omega arith, inr (omega arith))
  | inr e ↦ rw e (capped-Bounded 0 bonus (recovery clean 0) (recovery-le clean 0))
]
score-Bounded clean (f ∷ fs) bonus =
    let total = total_penalty (f ∷ fs) in
    let capped = capped-Bounded total bonus (recovery clean total) (recovery-le clean total) in
    elim (Bool-cases (leb 10 clean)) [
      | inl e ↦ rw (e, suc-nonzero (length fs)) capped
      | inr e ↦ rw e capped
    ]

-- Whether some check of the name is raised.
abbrev pub raises : Bytes → Checks → Bool
raises flag checks = any (λ c. same c.0 flag && c.1) checks

pub lookup-add_flags :
    (now : ℕ) (flag : Bytes) (checks : Checks) (flags : Map ℕ)
    → lookup flag (add_flags now checks flags).0
      ≡ (if raises flag checks then some now else lookup flag flags)
unfolding add_flags
lookup-add_flags now flag [] flags = refl
lookup-add_flags now flag ((name, true) ∷ checks) flags =
    let rest = lookup-add_flags now flag checks (insert name now flags) in
    elim (bytes_discrete name flag) [
      | yes e ↦ elim (Bool-cases (raises flag checks)) [
        | inl r ↦ ground (arith, rest, r, lookup-insert name flag now flags)
        | inr r ↦ ground (arith, rest, r, lookup-insert name flag now flags)
      ]
      | no n ↦ elim (Bool-cases (raises flag checks)) [
        | inl r ↦ ground (arith, rest, r, lookup-insert name flag now flags)
        | inr r ↦ ground (arith, rest, r, lookup-insert name flag now flags)
      ]
    ]
lookup-add_flags now flag ((name, false) ∷ checks) flags =
    let rest = lookup-add_flags now flag checks flags in
    elim (Bool-cases (same name flag)) [ inl e ↦ rw e rest | inr e ↦ rw e rest ]

widen :
    (score total bonus more : ℕ)
    → bonus ≤ more
    → Bounded score total bonus
    → Bounded score total more
widen score total bonus more le (p, q, inl z) = (p, q, inl z)
widen score total bonus more le (p, q, inr z) = (p, q, inr (omega arith))

module _ (haversine : ℤ → ℤ → ℤ → ℤ → ℕ) (estimate : ℤ → Bytes → ℕ) where
  -- The score that Analyze answers is at most 100, at least 100 less the penalties of the flags that it
  -- answers, and, unless it is 0, at most 135 less these penalties.
  pub analyze-Bounded :
      (now : ℕ) (d : Drone) (sd : SpoofDetector)
      → let a = analyze haversine estimate now d sd in Bounded a.score (total_penalty a.flags) 30
  unfolding analyze
  analyze-Bounded now d sd =
      let t = next_track haversine estimate now d (spoof_shard d.identifier sd) in
      let names = flag_names t.flags in
      widen (trust_score t.consecutive_clean names (bonus_of d)) (total_penalty names) (bonus_of d)
        30 (bonus-le d) (score-Bounded t.consecutive_clean names (bonus_of d))
