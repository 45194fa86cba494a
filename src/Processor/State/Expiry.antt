-- ===== src/Processor/State/Expiry.antt =====
-- The two loops of the clean-up of internal/processor/state.go that collect the identifiers of expired
-- drones over all shards and delete them.
use skylens_azure.Common.{
  ℕ, zero, suc, ◌≡◌, ◌≢◌, refl, ◌∙◌, subst, Bytes, bytes_discrete, same, Option, none, some, List,
  [], ◌∷◌, ◌++◌, Bool, false, arith, inl, inr, Bool-cases, if◌then◌else◌, ◌||◌, any, get_or,
}
use skylens_azure.Common.Maps.{Map, lookup, Unique, Absent, Absent-lookup}
use skylens_azure.Processor.Model.{Drone}
use skylens_azure.Processor.Drones.{ShardedDrones, get, get_shard}
use skylens_azure.Processor.Drones.Refinement.{removed, get-delete}
use skylens_azure.Processor.Drones.Placement.{IsStore, removed-IsStore}
use skylens_azure.Processor.State.Cleanup.{is_expired, expired_ids, all_expired_ids}

abbrev pub names : List Bytes → Bytes → Bool
names ids j = any (λ i. same i j) ids

names-append : (a b : List Bytes) (j : Bytes) → names (a ++ b) j ≡ (names a j || names b j)
names-append [] b j = refl
names-append (i ∷ a) b j = elim (Bool-cases (same i j)) [
  | inl e ↦ rw e refl
  | inr e ↦ rw e (names-append a b j)
]

abbrev pub expired_at : ℕ → ℕ → Option Drone → Bool
expired_at evict_after now none = false
expired_at evict_after now (some d) = is_expired evict_after now d

names-expired_ids :
    (evict_after now : ℕ) (j : Bytes) (m : Map Drone)
    → Unique m
    → names (expired_ids evict_after now m) j ≡ expired_at evict_after now (lookup j m)
unfolding expired_ids lookup
names-expired_ids evict_after now j [] u = refl
names-expired_ids evict_after now j ((i, d) ∷ m) (a, u) =
    let rest = names-expired_ids evict_after now j m u in
    elim (bytes_discrete i j) [
      | yes e ↦ elim (Bool-cases (is_expired evict_after now d)) [
        | inl x ↦ ground (arith, x, e)
        | inr x ↦
            let gone = Absent-lookup j m (subst (λ k. Absent k m) e a) in
            ground (arith, x, e, gone, rest)
      ]
      | no n ↦ elim (Bool-cases (is_expired evict_after now d)) [
        | inl x ↦ ground (arith, x, n, rest)
        | inr x ↦ ground (arith, x, n, rest)
      ]
    ]

-- Over the shards, an identifier that only one of them can have.
names-none :
    (evict_after now : ℕ) (j : Bytes) (ss : List (Map Drone))
    → ((i : ℕ) → Unique (get_or ss i []))
    → ((i : ℕ) → lookup j (get_or ss i []) ≡ none)
    → names (all_expired_ids evict_after now ss) j ≡ false
unfolding all_expired_ids
names-none evict_after now j [] u h = refl
names-none evict_after now j (m ∷ ss) u h =
    names-append (expired_ids evict_after now m) _ j
    ∙ rw
        (
          names-expired_ids evict_after now j m (u 0),
          h 0,
          names-none evict_after now j ss (λ i. u (suc i)) (λ i. h (suc i)),
        )
        refl

names-all :
    (evict_after now : ℕ) (j : Bytes) (k : ℕ) (ss : List (Map Drone))
    → ((i : ℕ) → Unique (get_or ss i []))
    → ((i : ℕ) → k ≢ i → lookup j (get_or ss i []) ≡ none)
    → names (all_expired_ids evict_after now ss) j
      ≡ expired_at evict_after now (lookup j (get_or ss k []))
unfolding all_expired_ids lookup
names-all evict_after now j k [] u h = refl
names-all evict_after now j zero (m ∷ ss) u h =
    names-append (expired_ids evict_after now m) _ j
    ∙ rw
        (
          names-expired_ids evict_after now j m (u 0),
          names-none evict_after now j ss (λ i. u (suc i)) (λ i. h (suc i) (λ e. omega arith)),
        )
        (elim (Bool-cases (expired_at evict_after now (lookup j m))) [
          | inl e ↦ rw e refl
          | inr e ↦ rw e refl
        ])
names-all evict_after now j (suc k) (m ∷ ss) u h =
    names-append (expired_ids evict_after now m) _ j
    ∙ rw (names-expired_ids evict_after now j m (u 0), h 0 (λ e. omega arith))
        (names-all evict_after now j k ss (λ i. u (suc i))
          (λ i n. h (suc i) (λ e. n (omega arith))))

pub names-store :
    (evict_after now : ℕ) (j : Bytes) (sd : ShardedDrones)
    → IsStore sd
    → names (all_expired_ids evict_after now sd.shards) j ≡ expired_at evict_after now (get j sd)
unfolding get
names-store evict_after now j sd v =
    names-all evict_after now j (get_shard j) sd.shards v.distinct (λ i n. v.placed i j n)

abbrev pub drop_all : List Bytes → ShardedDrones → ShardedDrones
drop_all [] sd = sd
drop_all (id ∷ ids) sd = drop_all ids (removed id sd)

pub drop_all-IsStore :
    (ids : List Bytes) (sd : ShardedDrones) → IsStore sd → IsStore (drop_all ids sd)
drop_all-IsStore [] sd v = v
drop_all-IsStore (id ∷ ids) sd v = drop_all-IsStore ids (removed id sd) (removed-IsStore id sd v)

pub get-drop_all :
    (ids : List Bytes) (j : Bytes) (sd : ShardedDrones)
    → IsStore sd
    → get j (drop_all ids sd) ≡ (if names ids j then none else get j sd)
get-drop_all [] j sd v = refl
get-drop_all (id ∷ ids) j sd v =
    get-drop_all ids j (removed id sd) (removed-IsStore id sd v) ∙ (elim (bytes_discrete id j) [
      | yes e ↦ ground (arith, get-delete id j sd v.size)
      | no n ↦ ground (arith, get-delete id j sd v.size)
    ])
