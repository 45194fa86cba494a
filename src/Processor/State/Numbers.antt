-- ===== src/Processor/State/Numbers.antt =====
-- The calls of the state manager, internal/processor/state.go, keep its drones well-formed: each stands
-- under its identifier in the shard of its hash, and no two have the same track number.
use skylens_azure.Common.{
  ◌⊎◌, ℕ, ◌≡◌, ◌≢◌, ◌≤◌, refl, sym, ap, ◌∙◌, subst, Bytes, bytes_discrete, none, some, [], true,
  arith, inl, inr, Bool-cases, Option-cases, ite,
}
use skylens_azure.Common.Int.{ℤ}
use skylens_azure.Processor.Model.{Drone}
use skylens_azure.Processor.Drones.{ShardedDrones, get, put_drone, for_each_mut}
use skylens_azure.Processor.Drones.Refinement.{removed, get-delete}
use skylens_azure.Common.Maps.{map_found}
use skylens_azure.Processor.Drones.Placement.{
  IsStore, get-put_drone, put_drone-IsStore, get-for_each_mut, for_each_mut-IsStore,
  removed-IsStore,
}
use skylens_azure.Processor.State.{StateManager, Updated, update_drone}
use skylens_azure.Processor.State.Resolution.{
  IsNumbered, IsState, Stores, update_drone-unnamed, number_of, next_after, update_drone-Stores,
}

pub some-inj {ℓ} : {A : Type ℓ} {x y : A} → some x ≡ some y → x ≡ y
some-inj e = cc

-- Of an existing store, a new one whose drones are among the old ones, changed in other fields at most.
pub record Within (sd new : ShardedDrones) : Type 0 where
  pub store : IsStore new
  pub from :
      (j : Bytes) (e : Drone)
      → get j new ≡ some e
      → (o : Drone) × (get j sd ≡ some o)
        × (e.identifier ≡ o.identifier)
        × (e.track_number ≡ o.track_number)

pub Within-IsNumbered :
    (sd new : ShardedDrones) (n : ℕ) → IsNumbered sd n → Within sd new → IsNumbered new n
Within-IsNumbered sd new n v w = record {
  store = w.store;
  named = λ id e h. let (o, q, same_id, t) = w.from id e h in same_id ∙ v.named id o q;
  numbered =
      λ id e h. let (o, q, i, t) = w.from id e h in subst (λ x. x ≤ n) (sym t) (v.numbered id o q);
  apart = λ id j e f h k nz same_number.
      let (o, q, i, t) = w.from id e h in
      let (p, r, l, u) = w.from j f k in
      v.apart id j o p q r (λ z. nz (t ∙ z)) (sym t ∙ same_number ∙ u);
}

pub ite-cases {ℓ} :
    {A : Type ℓ} {i j : Bytes} (c : Dec (i ≡ j)) (a b x : A)
    → ite c a b ≡ x
    → ((i ≡ j) × (a ≡ x)) ⊎ ((i ≢ j) × (b ≡ x))
ite-cases (yes p) a b x h = inl (p, h)
ite-cases (no n) a b x h = inr (n, h)

-- The lookup of a store in which one drone was put.
pub after_put :
    (sd new : ShardedDrones) (id : Bytes) (d : Drone)
    → ((j : Bytes) → get j new ≡ ite (bytes_discrete id j) (some d) (get j sd))
    → (j : Bytes) (e : Drone) → get j new ≡ some e
    → ((id ≡ j) × (d ≡ e)) ⊎ ((id ≢ j) × (get j sd ≡ some e))
after_put sd new id d reads j e h =
    elim (ite-cases (bytes_discrete id j) (some d) (get j sd) (some e) (sym (reads j) ∙ h)) [
      | inl (q, z) ↦ inl (q, some-inj z)
      | inr (n, z) ↦ inr (n, z)
    ]

number_le :
    (d : Drone) (sd : ShardedDrones) (n : ℕ) (id : Bytes)
    → IsNumbered sd n
    → (d.is_controller ≡ true → d.track_number ≡ 0)
    → (number_of d n (get id sd) ≤ next_after d n (get id sd)) × (n ≤ next_after d n (get id sd))
number_le d sd n id v unnumbered = elim (Option-cases (get id sd)) [
  | inl m ↦ rw m (elim (Bool-cases d.is_controller) [
    | inl c ↦ rw (c, unnumbered c) (omega arith, omega arith)
    | inr c ↦ rw c (omega arith, omega arith)
  ])
  | inr (e, m) ↦ rw m (v.numbered id e m, omega arith)
]

-- A drone of the old store with the number of the one that is put is the one that was there.
number_new :
    (d f : Drone) (sd : ShardedDrones) (n : ℕ) (id j : Bytes)
    → IsNumbered sd n
    → (d.is_controller ≡ true → d.track_number ≡ 0)
    → get j sd ≡ some f
    → f.track_number ≢ 0
    → number_of d n (get id sd) ≡ f.track_number
    → id ≡ j
number_new d f sd n id j v unnumbered k nz q = elim (Option-cases (get id sd)) [
  | inl m ↦ elim (Bool-cases d.is_controller) [
    | inl c ↦ absurd (ground (arith, m, c, unnumbered c, q, nz))
    | inr c ↦ absurd (ground (arith, m, c, v.numbered j f k, q))
  ]
  | inr (e, m) ↦
      let same_number : e.track_number ≡ f.track_number = ground (arith, m, q) in
      v.apart id j e f m k (λ z. nz (sym same_number ∙ z)) same_number
]

pub Stores-IsState :
    (now : ℕ) (d : Drone) (s : StateManager) (u : Updated)
    → IsState s
    → (d.is_controller ≡ true → d.track_number ≡ 0)
    → Stores now d s u
    → IsState u.state
Stores-IsState now d s u v unnumbered c =
    let n = s.next_track_num in
    let id = u.resolved_id in
    let bound = number_le d s.drones n id v unnumbered in
    let back = after_put s.drones u.state.drones id c.drone c.stored in
    record {
      store = c.store;
      named = λ j e h. elim (back j e h) [
        | inl (q, z) ↦ sym (ap (λ x. x.identifier) z) ∙ c.named ∙ q
        | inr (q, z) ↦ v.named j e z
      ];
      numbered = λ j e h. elim (back j e h) [
        | inl (q, z) ↦ omega (arith, ap (λ x. x.track_number) z, c.number, c.next, bound.0)
        | inr (q, z) ↦ omega (arith, v.numbered j e z, c.next, bound.1)
      ];
      apart = λ i j e f h k nz same_number. elim (back i e h) [
        | inl (q, z) ↦ elim (back j f k) [
          | inl (r, y) ↦ sym q ∙ r
          | inr (r, y) ↦
              sym q
              ∙ number_new d f s.drones n id j v unnumbered y (λ w. nz (same_number ∙ w))
                  (sym c.number ∙ ap (λ x. x.track_number) z ∙ same_number)
        ]
        | inr (q, z) ↦ elim (back j f k) [
          | inl (r, y) ↦
              sym (
                number_new d e s.drones n id i v unnumbered z nz
                  (sym c.number ∙ ap (λ x. x.track_number) y ∙ sym same_number))
              ∙ r
          | inr (r, y) ↦ v.apart i j e f z y nz same_number
        ]
      ];
    }

module _ (haversine : ℤ → ℤ → ℤ → ℤ → ℕ) where
  pub update_drone-IsState :
      (now : ℕ) (d : Drone) (s : StateManager)
      → IsState s
      → (d.is_controller ≡ true → d.track_number ≡ 0)
      → IsState (update_drone haversine now d s).state
  update_drone-IsState now d s v unnumbered = elim (bytes_discrete d.identifier []) [
    | yes e ↦ subst (λ u. IsState u.state) (sym (update_drone-unnamed haversine now d s e)) v
    | no n ↦ Stores-IsState now d s _ v unnumbered (update_drone-Stores haversine now d s v n)
  ]

-- The calls that change no identifier and no track number, and add no drone.
pub put_drone-Within :
    (id : Bytes) (e new : Drone) (sd : ShardedDrones)
    → IsStore sd
    → get id sd ≡ some e
    → new.identifier ≡ e.identifier
    → new.track_number ≡ e.track_number
    → Within sd (put_drone id new sd)
put_drone-Within id e new sd v found i t = record {
  store = put_drone-IsStore id new sd v;
  from = λ j f h.
      elim (after_put sd (put_drone id new sd) id new (λ k. get-put_drone id k new sd v) j f h) [
        | inl (q, z) ↦ (
          e,
          ap (λ x. get x sd) (sym q) ∙ found,
          sym (ap (λ x. x.identifier) z) ∙ i,
          sym (ap (λ x. x.track_number) z) ∙ t,
        )
        | inr (q, z) ↦ (f, z, refl, refl)
      ];
}

pub removed-Within : (id : Bytes) (sd : ShardedDrones) → IsStore sd → Within sd (removed id sd)
removed-Within id sd v = record {
  store = removed-IsStore id sd v;
  from = λ j f h. elim (bytes_discrete id j) [
    | yes q ↦ absurd (ground (arith, get-delete id j sd v.size, h))
    | no n ↦ (f, ground (arith, get-delete id j sd v.size, h), refl, refl)
  ];
}

pub none-ne : {e : Drone} → none ≢ some e
none-ne q = cc

pub for_each_mut-Within :
    (f : Drone → Drone) (sd : ShardedDrones)
    → IsStore sd
    → ((d : Drone) → ((f d).identifier ≡ d.identifier) × ((f d).track_number ≡ d.track_number))
    → Within sd (for_each_mut f sd)
unfolding map_found
for_each_mut-Within f sd v same_core = record {
  store = for_each_mut-IsStore f sd v;
  from = λ j e h. elim (Option-cases (get j sd)) [
    | inl q ↦ absurd (none-ne (sym (ap (map_found f) q) ∙ sym (get-for_each_mut f j sd) ∙ h))
    | inr (o, q) ↦
        let z : f o ≡ e = some-inj (sym (ap (map_found f) q) ∙ sym (get-for_each_mut f j sd) ∙ h) in
        let (i, t) = same_core o in
        (o, q, sym (ap (λ x. x.identifier) z) ∙ i, sym (ap (λ x. x.track_number) z) ∙ t)
  ];
}

pub Within-trans : (a b c : ShardedDrones) → Within a b → Within b c → Within a c
Within-trans a b c v w = record {
  store = w.store;
  from = λ j e h.
      let (o, q, i, t) = w.from j e h in let (p, r, k, u) = v.from j o q in (p, r, i ∙ k, t ∙ u);
}

pub Within-refl : (sd : ShardedDrones) → IsStore sd → Within sd sd
Within-refl sd v = record { store = v; from = λ j e h. (e, h, refl, refl) }
