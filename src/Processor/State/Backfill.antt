-- ===== src/Processor/State/Backfill.antt =====
-- BackfillTrackNumbers of internal/processor/state.go: the drones that have no track number get the next
-- ones, and no two drones share one afterwards.
use skylens_azure.Common.{
  ◌⊎◌, ℕ, ◌+◌, ◌≡◌, ◌≢◌, ◌≤◌, ◌<◌, refl, sym, ap, ◌∙◌, subst, Bytes, bytes_discrete, some, List, [],
  ◌∷◌, true, false, zero, suc, length, get_or, arith, inl, inr, Bool-cases, Option-cases, ◌==◌,
}
use skylens_azure.Common.Maps.{Map, lookup, Absent, Unique, Absent-lookup}
use skylens_azure.Processor.Model.{Drone}
use skylens_azure.Processor.Drones.{get, get_shard}
use skylens_azure.Processor.State.{StateManager}
use skylens_azure.Processor.State.Changes.{
  needs_number, number_drones, number_shards, backfill_track_numbers,
}
use skylens_azure.Processor.State.Resolution.{IsState}
use skylens_azure.Processor.State.Numbers.{some-inj, none-ne, ite-cases}

-- A drone keeps its number or has a new one.
abbrev Fate : ℕ → ℕ → Drone → Drone → Type 0
Fate n last o e =
    (e.identifier ≡ o.identifier)
    × ((e.track_number ≡ o.track_number) ⊎ ((n < e.track_number) × (e.track_number ≤ last)))

-- What an entry of the numbered map comes from.
abbrev Origin : ℕ → ℕ → Map Drone → Bytes → Drone → Type 0
Origin n last m id e = (o : Drone) × (lookup id m ≡ some o) × Fate n last o e

abbrev Below : ℕ → Map Drone → Type 0
Below n m = (id : Bytes) (o : Drone) → lookup id m ≡ some o → o.track_number ≤ n

record Numbering (n last : ℕ) (m new : Map Drone) : Type 0 where
  rise : n ≤ last
  absent : (id : Bytes) → Absent id m → Absent id new
  distinct : Unique m → Unique new
  from : (id : Bytes) (e : Drone) → lookup id new ≡ some e → Origin n last m id e
  apart :
      (id j : Bytes) (e f : Drone)
      → lookup id new ≡ some e
      → lookup j new ≡ some f
      → n < e.track_number
      → e.track_number ≡ f.track_number
      → id ≡ j

Fate-wider : (n k last : ℕ) (o e : Drone) → n ≤ k → Fate k last o e → Fate n last o e
Fate-wider n k last o e le (i, inl t) = (i, inl t)
Fate-wider n k last o e le (i, inr (a, b)) = (i, inr (omega arith, b))

Fate-higher : (n k last : ℕ) (o e : Drone) → k ≤ last → Fate n k o e → Fate n last o e
Fate-higher n k last o e le (i, inl t) = (i, inl t)
Fate-higher n k last o e le (i, inr (a, b)) = (i, inr (a, omega arith))

lookup-head :
    (id j : Bytes) (d : Drone) (m : Map Drone) (e : Drone)
    → lookup j ((id, d) ∷ m) ≡ some e
    → ((id ≡ j) × (d ≡ e)) ⊎ ((id ≢ j) × (lookup j m ≡ some e))
unfolding lookup
lookup-head id j d m e h = elim (ite-cases (bytes_discrete id j) (some d) (lookup j m) (some e) h) [
  | inl (q, z) ↦ inl (q, some-inj z)
  | inr (q, z) ↦ inr (q, z)
]

lookup-here : (id : Bytes) (d : Drone) (m : Map Drone) → lookup id ((id, d) ∷ m) ≡ some d
unfolding lookup
lookup-here id d m = ground arith

lookup-there :
    (id j : Bytes) (d : Drone) (m : Map Drone) → id ≢ j → lookup j ((id, d) ∷ m) ≡ lookup j m
unfolding lookup
lookup-there id j d m n = ground arith

Below-tail :
    (n : ℕ) (id : Bytes) (d : Drone) (m : Map Drone)
    → Absent id m
    → Below n ((id, d) ∷ m)
    → Below n m
Below-tail n id d m a b j o h = elim (bytes_discrete id j) [
  | yes q ↦
      absurd (none-ne (sym (Absent-lookup id m a) ∙ subst (λ x. lookup x m ≡ some o) (sym q) h))
  | no ne ↦ b j o (lookup-there id j d m ne ∙ h)
]

-- Over a bound on the old numbers, a drone with a number above it has a new one.
new_number :
    (n k last : ℕ) (o e : Drone)
    → n ≤ k
    → o.track_number ≤ n
    → n < e.track_number
    → Fate k last o e
    → k < e.track_number
new_number n k last o e le old lt (i, inl t) = absurd (omega arith)
new_number n k last o e le old lt (i, inr (a, b)) = a

new_bound :
    (n last : ℕ) (o e : Drone)
    → o.track_number ≤ n
    → n < e.track_number
    → Fate n last o e
    → e.track_number ≤ last
new_bound n last o e old lt (i, inl t) = absurd (omega arith)
new_bound n last o e old lt (i, inr (a, b)) = b

-- An entry in front.
module _ (n k last : ℕ) (id : Bytes) (d new_d : Drone) (m new : Map Drone) (le : n ≤ k)
    (a : Absent id m) (b : Below n ((id, d) ∷ m)) (head : Fate n k d new_d)
    (r : Numbering k last m new) where
  head_old : d.track_number ≤ n
  head_old = b id d (lookup-here id d m)

  -- A number above the bound stands at the front or in the rest, not in both.
  split_numbers :
      (j : Bytes) (f : Drone)
      → lookup j new ≡ some f
      → n < f.track_number
      → new_d.track_number ≢ f.track_number
  split_numbers j f h lt same_number =
      let (o, p, fate) = r.from j f h in
      let old = Below-tail n id d m a b j o p in
      let above = new_number n k last o f le old lt fate in
      let below = new_bound n k d new_d head_old (omega (arith, lt, same_number)) head in
      omega (arith, above, below, same_number)

  consed : Numbering n last ((id, d) ∷ m) ((id, new_d) ∷ new)
  consed = record {
    rise = omega (arith, le, r.rise);
    absent = λ j x. (x.0, r.absent j x.1);
    distinct = λ u. (r.absent id u.0, r.distinct u.1);
    from = λ j e h. elim (lookup-head id j new_d new e h) [
      | inl (q, z) ↦ (
        d,
        subst (λ x. lookup x ((id, d) ∷ m) ≡ some d) q (lookup-here id d m),
        subst (Fate n last d) z (Fate-higher n k last d new_d r.rise head),
      )
      | inr (ne, h') ↦
          let (o, p, fate) = r.from j e h' in
          (o, lookup-there id j d m ne ∙ p, Fate-wider n k last o e le fate)
    ];
    apart = λ i j e f h g lt same_number. elim (lookup-head id i new_d new e h) [
      | inl (q, z) ↦ elim (lookup-head id j new_d new f g) [
        | inl (q', y) ↦ sym q ∙ q'
        | inr (ne, g') ↦
            absurd (split_numbers j f g' (omega arith) (ap (λ x. x.track_number) z ∙ same_number))
      ]
      | inr (ne, h') ↦ elim (lookup-head id j new_d new f g) [
        | inl (q, y) ↦
            absurd (split_numbers i e h' lt (ap (λ x. x.track_number) y ∙ sym same_number))
        | inr (ne', g') ↦
            let (o, p, fate) = r.from i e h' in
            r.apart i j e f h' g'
              (new_number n k last o e le (Below-tail n id d m a b i o p) lt fate) same_number
      ]
    ];
  }

number_drones-Numbering :
    (n : ℕ) (m : Map Drone)
    → Unique m
    → Below n m
    → Numbering n (number_drones n m).1 m (number_drones n m).0
unfolding number_drones lookup
number_drones-Numbering n [] u b = record {
  rise = omega arith;
  absent = λ id x. x;
  distinct = λ x. x;
  from = λ id e h. absurd (none-ne h);
  apart = λ id j e f h g lt same_number. absurd (none-ne h);
}
number_drones-Numbering n ((id, d) ∷ m) (a, u) b =
    let tail = Below-tail n id d m a b in
    elim (Bool-cases (needs_number d)) [
      | inl e ↦
          rw (e, number_drones)
            (consed n (n + 1) _ id d (record d { track_number = n + 1 }) m _ (omega arith) a b
              (refl, inr (omega arith, omega arith))
              (number_drones-Numbering (n + 1) m u (λ j o h. omega (arith, tail j o h))))
      | inr e ↦
          rw (e, number_drones)
            (consed n n _ id d d m _ (omega arith) a b (refl, inl refl)
              (number_drones-Numbering n m u tail))
    ]

-- The same for the shards, whose entries stand at an index.
abbrev at : ℕ → List (Map Drone) → Map Drone
at i ss = get_or ss i []

abbrev AllBelow : ℕ → List (Map Drone) → Type 0
AllBelow n ss = (i : ℕ) → Below n (at i ss)

record Renumbering (n last : ℕ) (ss new : List (Map Drone)) : Type 0 where
  rise : n ≤ last
  size : length new ≡ length ss
  distinct : (i : ℕ) → Unique (at i ss) → Unique (at i new)
  from :
      (i : ℕ) (id : Bytes) (e : Drone)
      → lookup id (at i new) ≡ some e
      → Origin n last (at i ss) id e
  apart :
      (i k : ℕ) (id j : Bytes) (e f : Drone)
      → lookup id (at i new) ≡ some e
      → lookup j (at k new) ≡ some f
      → n < e.track_number
      → e.track_number ≡ f.track_number
      → id ≡ j

module _ (n k last : ℕ) (m new_m : Map Drone) (ss new : List (Map Drone)) (b : AllBelow n (m ∷ ss))
    (h : Numbering n k m new_m) (r : Renumbering k last ss new) where
  -- A number above the bound stands in the first shard or in the others, not in both.
  split_shards :
      (i : ℕ) (id j : Bytes) (e f : Drone)
      → lookup id new_m ≡ some e
      → lookup j (at i new) ≡ some f
      → n < e.track_number
      → e.track_number ≢ f.track_number
  split_shards i id j e f p q lt same_number =
      let (o, p', fate) = h.from id e p in
      let (o', q', fate') = r.from i j f q in
      let low = new_bound n k o e (b 0 id o p') lt fate in
      let high =
        new_number n k last o' f h.rise (b (suc i) j o' q') (omega (arith, lt, same_number))
          fate' in
      omega (arith, low, high, same_number)

  distinct_shards : (i : ℕ) → Unique (at i (m ∷ ss)) → Unique (at i (new_m ∷ new))
  distinct_shards zero u = h.distinct u
  distinct_shards (suc i) u = r.distinct i u

  from_shards :
      (i : ℕ) (id : Bytes) (e : Drone)
      → lookup id (at i (new_m ∷ new)) ≡ some e
      → Origin n last (at i (m ∷ ss)) id e
  from_shards zero id e p =
      let (o, q, fate) = h.from id e p in (o, q, Fate-higher n k last o e r.rise fate)
  from_shards (suc i) id e p =
      let (o, q, fate) = r.from i id e p in (o, q, Fate-wider n k last o e h.rise fate)

  apart_shards :
      (i l : ℕ) (id j : Bytes) (e f : Drone)
      → lookup id (at i (new_m ∷ new)) ≡ some e
      → lookup j (at l (new_m ∷ new)) ≡ some f
      → n < e.track_number
      → e.track_number ≡ f.track_number
      → id ≡ j
  apart_shards zero zero id j e f p q lt t = h.apart id j e f p q lt t
  apart_shards zero (suc l) id j e f p q lt t = absurd (split_shards l id j e f p q lt t)
  apart_shards (suc i) zero id j e f p q lt t =
      absurd (split_shards i j id f e q p (omega (arith, lt, t)) (sym t))
  apart_shards (suc i) (suc l) id j e f p q lt t =
      let (o, p', fate) = r.from i id e p in
      r.apart i l id j e f p q (new_number n k last o e h.rise (b (suc i) id o p') lt fate) t

  first_shard : Renumbering n last (m ∷ ss) (new_m ∷ new)
  first_shard = record {
    rise = omega (arith, h.rise, r.rise);
    size = ap suc r.size;
    distinct = distinct_shards;
    from = from_shards;
    apart = apart_shards;
  }

no_entry : (id : Bytes) (e : Drone) → lookup id [] ≢ some e
unfolding lookup
no_entry id e h = none-ne h

number_shards-Renumbering :
    (n : ℕ) (ss : List (Map Drone))
    → ((i : ℕ) → Unique (at i ss))
    → AllBelow n ss
    → Renumbering n (number_shards n ss).1 ss (number_shards n ss).0
unfolding number_shards
number_shards-Renumbering n [] u b = record {
  rise = omega arith;
  size = refl;
  distinct = λ i x. x;
  from = λ i id e h. absurd (no_entry id e h);
  apart = λ i k id j e f h g lt t. absurd (no_entry id e h);
}
number_shards-Renumbering n (m ∷ ss) u b =
    let first = number_drones-Numbering n m (u 0) (b 0) in
    first_shard n (number_drones n m).1 (number_shards (number_drones n m).1 ss).1 m
      (number_drones n m).0 ss (number_shards (number_drones n m).1 ss).0 b first
      (number_shards-Renumbering (number_drones n m).1 ss (λ i. u (suc i))
        (λ i id o h. omega (arith, first.rise, b (suc i) id o h)))

index-eq : (a b : ℕ) → (a == b) ≡ true → a ≡ b
index-eq a b e = ground arith

index-ne : (a b : ℕ) → (a == b) ≡ false → a ≢ b
index-ne a b e = λ q. ground arith

number-le :
    (n last : ℕ) (o e : Drone)
    → n ≤ last
    → o.track_number ≤ n
    → Fate n last o e
    → e.track_number ≤ last
number-le n last o e rise old (i, inl t) = omega arith
number-le n last o e rise old (i, inr (a, b)) = b

old_or_new :
    (n last : ℕ) (o e : Drone)
    → Fate n last o e
    → (e.track_number ≡ o.track_number) ⊎ (n < e.track_number)
old_or_new n last o e (i, inl t) = inl t
old_or_new n last o e (i, inr (a, b)) = inr a

below_counter : (s : StateManager) → IsState s → AllBelow s.next_track_num s.drones.shards
unfolding get
below_counter s v i id o h = elim (Bool-cases (get_shard id == i)) [
  | inl e ↦
      v.numbered id o
        (subst (λ k. lookup id (at k s.drones.shards) ≡ some o) (sym (index-eq _ i e)) h)
  | inr e ↦ absurd (none-ne (sym (v.store.placed i id (index-ne _ i e)) ∙ h))
]

-- BackfillTrackNumbers keeps a state well-formed.
pub backfill_track_numbers-IsState :
    (s : StateManager) → IsState s → IsState (backfill_track_numbers s).0
unfolding backfill_track_numbers get
backfill_track_numbers-IsState s v =
    let n = s.next_track_num in
    let ss = s.drones.shards in
    let r = number_shards-Renumbering n ss v.store.distinct (below_counter s v) in
    record {
      store = record {
        size = r.size ∙ v.store.size;
        distinct = λ i. r.distinct i (v.store.distinct i);
        placed = λ i id ne. elim (Option-cases (lookup id (at i (number_shards n ss).0))) [
          | inl e ↦ e
          | inr (f, e) ↦
              let (o, p, fate) = r.from i id f e in
              absurd (none-ne (sym (v.store.placed i id ne) ∙ p))
        ];
      };
      named = λ id e h. let (o, p, fate) = r.from _ id e h in fate.0 ∙ v.named id o p;
      numbered = λ id e h.
          let (o, p, fate) = r.from _ id e h in
          number-le n (number_shards n ss).1 o e r.rise (v.numbered id o p) fate;
      apart = λ id j e f h g nz t.
          let (o, p, fate) = r.from _ id e h in
          let (o', p', fate') = r.from _ j f g in
          elim (old_or_new n (number_shards n ss).1 o e fate) [
            | inr lt ↦ r.apart _ _ id j e f h g lt t
            | inl kept ↦ elim (old_or_new n (number_shards n ss).1 o' f fate') [
              | inr lt ↦ absurd (omega (arith, kept, v.numbered id o p, t, lt))
              | inl kept' ↦ v.apart id j o o' p p' (λ z. nz (kept ∙ z)) (sym kept ∙ t ∙ kept')
            ]
          ];
    }
