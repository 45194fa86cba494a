-- ===== src/Processor/State/Resolution.antt =====
-- What UpdateDrone of internal/processor/state.go does to the stored drones: one drone is created or
-- refreshed, under the identifier that the detection resolves to.
use skylens_azure.Common.{
  ◌⊎◌, ℕ, ◌+◌, ◌≡◌, ◌≢◌, ◌≤◌, refl, sym, ap, ◌∙◌, Bytes, bytes_discrete, same, same→eq, same_refl,
  Option, none, some, [], ◌∷◌, Bool, true, false, not, arith, inl, inr, Bool-cases, Option-cases,
  ite, is_some, if◌then◌else◌,
}
use skylens_azure.Common.Int.{ℤ}
use skylens_azure.Processor.Model.{Drone}
use skylens_azure.Processor.Drones.{ShardedDrones, get, set, update_indexes}
use skylens_azure.Processor.Drones.Placement.{
  IsStore, get-put_drone, put_drone-IsStore, same_shards-IsStore,
}
use skylens_azure.Processor.Merge.{active, update_existing, merge_into_existing}
use skylens_azure.Processor.Merge.Kept.{core-update_existing, core-merge_into_existing}
use skylens_azure.Processor.State.{
  StateManager, Updated, update_drone, merge_target, merge_drone, create_drone, refresh_drone,
  broadcast, started, find_drone_by_serial, find_drone_by_mac, at_id, or_else, serial_target,
  mac_target,
}

-- A store whose keys are the identifiers and whose track numbers are distinct and at most `n`.
pub record IsNumbered (sd : ShardedDrones) (n : ℕ) : Type 0 where
  pub store : IsStore sd
  pub named : (id : Bytes) (e : Drone) → get id sd ≡ some e → e.identifier ≡ id
  pub numbered : (id : Bytes) (e : Drone) → get id sd ≡ some e → e.track_number ≤ n
  pub apart :
      (id j : Bytes) (e f : Drone)
      → get id sd ≡ some e
      → get j sd ≡ some f
      → e.track_number ≢ 0
      → e.track_number ≡ f.track_number
      → id ≡ j

abbrev pub IsState : StateManager → Type 0
IsState s = IsNumbered s.drones s.next_track_num

abbrev pub count_of : Option Drone → ℕ
count_of none = 0
count_of (some e) = e.detection_count

-- A drone keeps its track number; a new one that is no controller gets the next.
abbrev pub number_of : Drone → ℕ → Option Drone → ℕ
number_of d next none = if d.is_controller then d.track_number else next + 1
number_of d next (some e) = e.track_number

abbrev pub next_after : Drone → ℕ → Option Drone → ℕ
next_after d next none = if d.is_controller then next else next + 1
next_after d next (some e) = next

-- The answer `u` to the detection `d` in the state `s`: the drone that the store has under the
-- resolved identifier, and that every other identifier reads as before.
pub record Stores (now : ℕ) (d : Drone) (s : StateManager) (u : Updated) : Type 0 where
  pub drone : Drone
  pub stored :
      (j : Bytes)
      → get j u.state.drones ≡ ite (bytes_discrete u.resolved_id j) (some drone) (get j s.drones)
  pub store : IsStore u.state.drones
  pub is_new : u.is_new ≡ not (is_some (get u.resolved_id s.drones))
  pub named : drone.identifier ≡ u.resolved_id
  pub seen : drone.last_seen ≡ now
  pub in_contact : drone.status ≡ active
  pub counted : drone.detection_count ≡ count_of (get u.resolved_id s.drones) + 1
  pub number : drone.track_number ≡ number_of d s.next_track_num (get u.resolved_id s.drones)
  pub next : u.state.next_track_num ≡ next_after d s.next_track_num (get u.resolved_id s.drones)

merge_drone-Stores :
    (now : ℕ) (d : Drone) (id : Bytes) (e : Drone) (s : StateManager)
    → IsState s
    → get id s.drones ≡ some e
    → Stores now d s (merge_drone now d (id, e) s)
unfolding merge_drone broadcast
merge_drone-Stores now d id e s v found =
    let kept = core-merge_into_existing now d e in
    record {
      drone = merge_into_existing now d e;
      stored = λ j. get-put_drone id j _ s.drones v.store;
      store = put_drone-IsStore id _ s.drones v.store;
      is_new = rw found refl;
      named = ap (λ c. c.identifier) kept ∙ v.named id e found;
      seen = ap (λ c. c.last_seen) kept;
      in_contact = ap (λ c. c.status) kept;
      counted = rw found (ap (λ c. c.detection_count) kept);
      number = rw found (ap (λ c. c.track_number) kept);
      next = rw found refl;
    }

module _ (haversine : ℤ → ℤ → ℤ → ℤ → ℕ) where
  refresh_drone-Stores :
      (now : ℕ) (d e : Drone) (s : StateManager)
      → IsState s
      → get d.identifier s.drones ≡ some e
      → Stores now d s (refresh_drone haversine now d e s)
  unfolding refresh_drone broadcast update_indexes get
  refresh_drone-Stores now d e s v found =
      let kept = core-update_existing now d e in
      let id = v.named d.identifier e found in
      let same_id : (update_existing now d e).identifier ≡ d.identifier =
        ap (λ c. c.identifier) kept ∙ id in
      let here = ap (λ x. get x s.drones) same_id ∙ found in
      record {
        drone = update_existing now d e;
        stored = λ j.
            get-put_drone d.identifier j (update_existing now d e) s.drones v.store
            ∙ ap (λ x. ite (bytes_discrete x j) (some (update_existing now d e)) (get j s.drones))
                (sym same_id);
        store = same_shards-IsStore _ _ refl (put_drone-IsStore d.identifier _ s.drones v.store);
        is_new = rw here refl;
        named = refl;
        seen = ap (λ c. c.last_seen) kept;
        in_contact = ap (λ c. c.status) kept;
        counted = rw here (ap (λ c. c.detection_count) kept);
        number = rw here (ap (λ c. c.track_number) kept);
        next = rw here refl;
      }

  create_drone-Stores :
      (now : ℕ) (d : Drone) (s : StateManager)
      → IsState s
      → get d.identifier s.drones ≡ none
      → Stores now d s (create_drone haversine now d s)
  unfolding create_drone broadcast started set update_indexes get
  create_drone-Stores now d s v missing = record {
    drone = started now (s.next_track_num + 1) d;
    stored = λ j. get-put_drone d.identifier j _ s.drones v.store;
    store = same_shards-IsStore _ _ refl (put_drone-IsStore d.identifier _ s.drones v.store);
    is_new = rw missing refl;
    named = refl;
    seen = refl;
    in_contact = refl;
    counted = rw missing refl;
    number = rw missing refl;
    next = rw missing refl;
  }

at_id-get :
    (want id : Bytes) (e : Drone) (sd : ShardedDrones)
    → at_id want sd ≡ some (id, e)
    → get id sd ≡ some e
at_id-get [] id e sd h = ground arith
at_id-get (c ∷ cs) id e sd h = elim (Option-cases (get (c ∷ cs) sd)) [
  | inl q ↦ absurd (ground (arith, h, q))
  | inr (f, q) ↦ ground (arith, h, q)
]

or_else-cases {ℓ} :
    {A : Type ℓ} (a b : Option A) (x : A) → or_else a b ≡ some x → (a ≡ some x) ⊎ (b ≡ some x)
or_else-cases none b x h = inr h
or_else-cases (some a) b x h = inl h

if-some {ℓ} :
    {A : Type ℓ} (c : Bool) (o : Option A) (x : A) → (if c then none else o) ≡ some x → o ≡ some x
if-some true o x h = ground (arith, h)
if-some false o x h = h

merge_target-get :
    (d : Drone) (id : Bytes) (e : Drone) (sd : ShardedDrones)
    → merge_target d sd ≡ some (id, e)
    → get id sd ≡ some e
unfolding merge_target
merge_target-get d id e sd h =
    let by_serial = find_drone_by_serial d.serial_number d.identifier sd in
    let by_mac = find_drone_by_mac d.mac_address d.identifier sd in
    elim (or_else-cases (serial_target d sd) (mac_target d sd) (id, e) h) [
      | inl a ↦
          at_id-get by_serial id e sd
            (if-some (same d.serial_number []) (at_id by_serial sd) (id, e) a)
      | inr b ↦
          at_id-get by_mac id e sd (if-some (same d.mac_address []) (at_id by_mac sd) (id, e) b)
    ]

pub same-false : (a b : Bytes) → a ≢ b → same a b ≡ false
same-false a b n = elim (Bool-cases (same a b)) [ inl e ↦ absurd (n (same→eq a b e)) | inr e ↦ e ]

module _ (haversine : ℤ → ℤ → ℤ → ℤ → ℕ) where
  pub minutes-update_drone :
      (now : ℕ) (d : Drone) (s : StateManager)
      → (update_drone haversine now d s).state.evict_after_min ≡ s.evict_after_min
  unfolding update_drone merge_drone create_drone refresh_drone broadcast
  minutes-update_drone now d s = elim (Bool-cases (same d.identifier [])) [
    | inl e ↦ rw e refl
    | inr e ↦ rw e (elim (Option-cases (merge_target d s.drones)) [
      | inr (found, q) ↦ rw q refl
      | inl q ↦ rw q (elim (Option-cases (get d.identifier s.drones)) [
        | inl m ↦ rw m refl
        | inr (old, m) ↦ rw m refl
      ])
    ])
  ]

  pub update_drone-unnamed :
      (now : ℕ) (d : Drone) (s : StateManager)
      → d.identifier ≡ []
      → update_drone haversine now d s ≡ record { state = s; is_new = false; resolved_id = [] }
  unfolding update_drone
  update_drone-unnamed now d s e = rw (e, same_refl []) refl

  -- In a well-formed state, UpdateDrone with a detection that has an identifier stores exactly one drone:
  -- under the identifier that it answers, in contact, seen now, with a count that is one more than before
  -- and the track number it had, or the next one if it is new and no controller. It is new exactly when
  -- the store had nothing there, and every other identifier reads as before.
  pub update_drone-Stores :
      (now : ℕ) (d : Drone) (s : StateManager)
      → IsState s
      → d.identifier ≢ []
      → Stores now d s (update_drone haversine now d s)
  unfolding update_drone
  update_drone-Stores now d s v n =
      rw (same-false d.identifier [] n) (elim (Option-cases (merge_target d s.drones)) [
        | inr ((id, e), q) ↦
            rw q (merge_drone-Stores now d id e s v (merge_target-get d id e s.drones q))
        | inl q ↦ rw q (elim (Option-cases (get d.identifier s.drones)) [
          | inl m ↦ rw m (create_drone-Stores haversine now d s v m)
          | inr (e, m) ↦ rw m (refresh_drone-Stores haversine now d e s v m)
        ])
      ])

pub here_stored :
    (new sd : ShardedDrones) (id : Bytes) (d : Drone)
    → ((j : Bytes) → get j new ≡ ite (bytes_discrete id j) (some d) (get j sd))
    → get id new ≡ some d
here_stored new sd id d reads = ground (arith, reads id)
