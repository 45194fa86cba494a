-- ===== src/Processor/State/Settling.antt =====
-- What the clean-up of internal/processor/state.go leaves of each drone, as a function of that drone.
use skylens_azure.Common.{
  Bool, codes, ℕ, ◌+◌, ◌*◌, ◌≡◌, ◌≢◌, ◌<◌, ◌≤◌, refl, sym, ap, ◌∙◌, subst, Bytes, bytes_discrete,
  same, same_refl, Option, none, some, List, [], ◌∷◌, true, false, not, ltb, arith, inl, inr,
  Bool-cases, Option-cases, if◌then◌else◌, ◌==◌, ◌&&◌, lt→ltb,
}
use skylens_azure.Common.Maps.{map_found}
unfoldable use skylens_azure.Common.{bytes_discrete}
use skylens_azure.Common.Int.{ℤ}
use skylens_azure.Processor.Model.{Drone}
use skylens_azure.Processor.Drones.{ShardedDrones, get, for_each_mut}
use skylens_azure.Processor.Drones.Refinement.{removed}
use skylens_azure.Processor.Drones.Placement.{
  IsStore, removed-IsStore, get-for_each_mut, for_each_mut-IsStore,
}
use skylens_azure.Processor.Merge.{active, lost}
use skylens_azure.Processor.State.{StateManager, StateEvent, broadcast}
use skylens_azure.Processor.State.Cleanup.{
  is_silent, mark_lost, broadcast_all, mark_drones, is_expired, all_expired_ids, evict,
  evict_drones, mark_taps, expire_suspects, cleanup, with_lost, offline_events, with_offline,
  lost_events,
}
use skylens_azure.Processor.State.Expiry.{expired_at, names-store, drop_all, get-drop_all}
use skylens_azure.Processor.State.Resolution.{
  IsNumbered, IsState, Stores, update_drone-Stores, minutes-update_drone, here_stored,
}
use skylens_azure.Processor.State.{update_drone}
use skylens_azure.Processor.State.Numbers.{
  Within, Within-trans, Within-refl, removed-Within, for_each_mut-Within, Within-IsNumbered,
}

-- What the broadcasts and the deletes leave alone.
pub kept-broadcast_all :
    (es : List StateEvent) (s : StateManager)
    → broadcast_all es s ≡ record s { subscribers = (broadcast_all es s).subscribers }
unfolding broadcast_all broadcast
kept-broadcast_all [] s = refl
kept-broadcast_all (e ∷ es) s = kept-broadcast_all es (broadcast e s)

pub kept-evict :
    (ids : List Bytes) (s : StateManager)
    → evict ids s ≡ record s { drones = drop_all ids s.drones; trails = (evict ids s).trails }
unfolding evict
kept-evict [] s = refl
kept-evict (id ∷ ids) s = kept-evict ids _

-- The drones after the two loops.
abbrev pub marked : ℕ → ℕ → StateManager → ShardedDrones
marked threshold now s = for_each_mut (mark_lost threshold now) s.drones

kept-mark_drones :
    (threshold now : ℕ) (s : StateManager)
    → mark_drones threshold now s ≡ record (with_lost threshold now s) {
      subscribers = (mark_drones threshold now s).subscribers;
    }
unfolding mark_drones
kept-mark_drones threshold now s =
    kept-broadcast_all (lost_events threshold now s) (with_lost threshold now s)

abbrev pub evicted : ℕ → ℕ → ShardedDrones → ShardedDrones
evicted minutes now sd =
    if minutes == 0
    then sd
    else drop_all (all_expired_ids (minutes * 60_000_000_000) now sd.shards) sd

drones-evict_drones :
    (now : ℕ) (s : StateManager)
    → (evict_drones now s).drones ≡ evicted s.evict_after_min now s.drones
unfolding evict_drones
drones-evict_drones now s = elim (Bool-cases (s.evict_after_min == 0)) [
  | inl e ↦ rw e refl
  | inr e ↦ rw e (
      ap (λ x. x.drones)
        (kept-evict (all_expired_ids (s.evict_after_min * 60_000_000_000) now s.drones.shards) s))
]

pub drones-cleanup :
    (threshold tap now : ℕ) (s : StateManager)
    → (cleanup threshold tap now s).drones
      ≡ evicted s.evict_after_min now (for_each_mut (mark_lost threshold now) s.drones)
unfolding cleanup mark_taps expire_suspects
drones-cleanup threshold tap now s =
    let s1 = mark_drones threshold now s in
    let s2 = evict_drones now s1 in
    ap (λ x. x.drones) (kept-broadcast_all (offline_events tap now s2) (with_offline tap now s2))
    ∙ drones-evict_drones now s1
    ∙ ap (λ x. evicted x.evict_after_min now x.drones) (kept-mark_drones threshold now s)

-- What a drone is after the two loops, if it is still there.
abbrev after_loops : ℕ → ℕ → ℕ → Option Drone → Option Drone
after_loops threshold minutes now none = none
after_loops threshold minutes now (some d) =
    let e = mark_lost threshold now d in
    if not (minutes == 0) && is_expired (minutes * 60_000_000_000) now e then none else some e

-- What is left of one drone, as rules on its status and the time it was last seen.
abbrev pub settle : ℕ → ℕ → ℕ → Option Drone → Option Drone
settle threshold minutes now none = none
settle threshold minutes now (some d) =
    let old = not (minutes == 0) && ltb (d.last_seen + minutes * 60_000_000_000) now in
    if same d.status (codes "active") && ltb (d.last_seen + threshold) now
    then if old
      then none
      else some (record d { status = codes "lost"; contact_status = codes "lost" })
    else if same d.status (codes "lost") && old
    then none
    else some d

both_orders : (a b c : Bool) → (a && (b && c)) ≡ (b && (a && c))
both_orders a b c = ground arith

settle-loops :
    (threshold minutes now : ℕ) (o : Option Drone)
    → after_loops threshold minutes now o ≡ settle threshold minutes now o
unfolding mark_lost
settle-loops threshold minutes now none = refl
settle-loops threshold minutes now (some d) =
    let late = ltb (d.last_seen + minutes * 60_000_000_000) now in
    elim (Bool-cases (same d.status active && ltb (d.last_seen + threshold) now)) [
      | inl e ↦ rw (e, same_refl lost) refl
      | inr e ↦ rw (e, both_orders (not (minutes == 0)) (same d.status lost) late) refl
    ]

get-evicted :
    (minutes now : ℕ) (j : Bytes) (sd : ShardedDrones)
    → IsStore sd
    → get j (evicted minutes now sd) ≡ (
        if not (minutes == 0) && expired_at (minutes * 60_000_000_000) now (get j sd)
        then none
        else get j sd)
get-evicted minutes now j sd v = elim (Bool-cases (minutes == 0)) [
  | inl e ↦ rw e refl
  | inr e ↦ rw e (
      get-drop_all (all_expired_ids (minutes * 60_000_000_000) now sd.shards) j sd v
      ∙ ap (λ b. if b then none else get j sd) (names-store (minutes * 60_000_000_000) now j sd v))
]

get-loops :
    (threshold tap now : ℕ) (j : Bytes) (s : StateManager)
    → IsStore s.drones
    → get j (cleanup threshold tap now s).drones
      ≡ after_loops threshold s.evict_after_min now (get j s.drones)
unfolding map_found
get-loops threshold tap now j s v =
    let marked = for_each_mut (mark_lost threshold now) s.drones in
    ap (get j) (drones-cleanup threshold tap now s)
    ∙ get-evicted s.evict_after_min now j marked (for_each_mut-IsStore _ s.drones v)
    ∙ rw (get-for_each_mut (mark_lost threshold now) j s.drones)
        (elim (Option-cases (get j s.drones)) [
          | inl e ↦
              rw e (elim (Bool-cases (s.evict_after_min == 0)) [
                | inl m ↦ rw m refl
                | inr m ↦ rw m refl
              ])
          | inr (d, e) ↦ rw e refl
        ])

-- In a well-formed store a clean-up does to every drone the following, whatever the others are: one whose
-- status is "active" and that was not seen for longer than the threshold becomes "lost"; one that then
-- is "lost" and was not seen for longer than the minutes of the configuration is gone, unless these are 0;
-- any other stays as it is.
pub get-cleanup :
    (threshold tap now : ℕ) (j : Bytes) (s : StateManager)
    → IsStore s.drones
    → get j (cleanup threshold tap now s).drones
      ≡ settle threshold s.evict_after_min now (get j s.drones)
get-cleanup threshold tap now j s v =
    get-loops threshold tap now j s v
    ∙ settle-loops threshold s.evict_after_min now (get j s.drones)

next-cleanup :
    (threshold tap now : ℕ) (s : StateManager)
    → (cleanup threshold tap now s).next_track_num ≡ s.next_track_num
unfolding cleanup mark_taps expire_suspects evict_drones
next-cleanup threshold tap now s =
    let s1 = mark_drones threshold now s in
    let s2 = evict_drones now s1 in
    let ids = all_expired_ids (s1.evict_after_min * 60_000_000_000) now s1.drones.shards in
    ap (λ x. x.next_track_num)
      (kept-broadcast_all (offline_events tap now s2) (with_offline tap now s2))
    ∙ (elim (Bool-cases (s1.evict_after_min == 0)) [
      | inl e ↦ rw e refl
      | inr e ↦ rw e (ap (λ x. x.next_track_num) (kept-evict ids s1))
    ])
    ∙ ap (λ x. x.next_track_num) (kept-mark_drones threshold now s)

drop_all-Within : (ids : List Bytes) (sd : ShardedDrones) → IsStore sd → Within sd (drop_all ids sd)
drop_all-Within [] sd v = Within-refl sd v
drop_all-Within (id ∷ ids) sd v =
    Within-trans sd (removed id sd) _ (removed-Within id sd v)
      (drop_all-Within ids (removed id sd) (removed-IsStore id sd v))

evicted-Within :
    (minutes now : ℕ) (sd : ShardedDrones) → IsStore sd → Within sd (evicted minutes now sd)
evicted-Within minutes now sd v = elim (Bool-cases (minutes == 0)) [
  | inl e ↦ rw e (Within-refl sd v)
  | inr e ↦ rw e (drop_all-Within (all_expired_ids (minutes * 60_000_000_000) now sd.shards) sd v)
]

mark_lost-same :
    (threshold now : ℕ) (d : Drone)
    → ((mark_lost threshold now d).identifier ≡ d.identifier)
      × ((mark_lost threshold now d).track_number ≡ d.track_number)
unfolding mark_lost
mark_lost-same threshold now d = elim (Bool-cases (is_silent threshold now d)) [
  | inl e ↦ rw e (refl, refl)
  | inr e ↦ rw e (refl, refl)
]

pub cleanup-IsState :
    (threshold tap now : ℕ) (s : StateManager) → IsState s → IsState (cleanup threshold tap now s)
cleanup-IsState threshold tap now s v =
    let marked = for_each_mut (mark_lost threshold now) s.drones in
    let w =
      for_each_mut-Within (mark_lost threshold now) s.drones v.store
        (mark_lost-same threshold now) in
    let all =
      Within-trans s.drones marked _ w (evicted-Within s.evict_after_min now marked w.store) in
    subst (λ n. IsNumbered (cleanup threshold tap now s).drones n)
      (sym (next-cleanup threshold tap now s))
      (subst (λ sd. IsNumbered sd s.next_track_num) (sym (drones-cleanup threshold tap now s))
        (Within-IsNumbered s.drones _ s.next_track_num v all))

mark_lost-silent :
    (threshold now : ℕ) (d : Drone)
    → d.status ≡ active
    → d.last_seen + threshold < now
    → mark_lost threshold now d ≡ record d { status = lost; contact_status = lost }
unfolding mark_lost
mark_lost-silent threshold now d a lt =
    let silent : is_silent threshold now d ≡ true =
      rw (a, same_refl active, lt→ltb (d.last_seen + threshold) now lt) refl in
    rw silent refl

mark_lost-recent :
    (threshold now : ℕ) (d : Drone) → now ≤ d.last_seen + threshold → mark_lost threshold now d ≡ d
unfolding mark_lost
mark_lost-recent threshold now d le =
    let late : ltb (d.last_seen + threshold) now ≡ false = ground arith in
    rw late (elim (Bool-cases (same d.status active)) [ inl e ↦ rw e refl | inr e ↦ rw e refl ])

settle-gone :
    (threshold minutes now : ℕ) (d : Drone)
    → minutes ≢ 0
    → d.status ≡ active
    → d.last_seen + threshold < now
    → d.last_seen + minutes * 60_000_000_000 < now
    → after_loops threshold minutes now (some d) ≡ none
settle-gone threshold minutes now d nz a lt late =
    let on : (minutes == 0) ≡ false = ground (arith, nz) in
    let expired : ltb (d.last_seen + minutes * 60_000_000_000) now ≡ true =
      lt→ltb (d.last_seen + minutes * 60_000_000_000) now late in
    rw (mark_lost-silent threshold now d a lt, on, same_refl lost, expired) refl

active-not_lost : same active lost ≡ false
unfolding bytes_discrete
active-not_lost = refl

settle-stays :
    (threshold minutes now : ℕ) (d : Drone)
    → d.status ≡ active
    → now ≤ d.last_seen + threshold
    → after_loops threshold minutes now (some d) ≡ some d
settle-stays threshold minutes now d a le =
    rw (mark_lost-recent threshold now d le, a, active-not_lost)
      (elim (Bool-cases (minutes == 0)) [ inl e ↦ rw e refl | inr e ↦ rw e refl ])

module _ (haversine : ℤ → ℤ → ℤ → ℤ → ℕ) where
  -- What the store has of a detected drone after a later clean-up.
  abbrev pub at_cleanup : ℕ → Drone → ℕ → ℕ → ℕ → StateManager → Option Drone
  at_cleanup now d threshold tap later s =
      let u = update_drone haversine now d s in
      get u.resolved_id (cleanup threshold tap later u.state).drones

  settled :
      (now : ℕ) (d : Drone) (threshold tap later : ℕ) (s : StateManager)
      → IsState s
      → (c : Stores now d s (update_drone haversine now d s))
      → at_cleanup now d threshold tap later s
        ≡ after_loops threshold
            (update_drone haversine now d s).state.evict_after_min
            later
            (some c.drone)
  settled now d threshold tap later s v c =
      let u = update_drone haversine now d s in
      get-loops threshold tap later u.resolved_id u.state c.store
      ∙ ap (after_loops threshold u.state.evict_after_min later)
          (here_stored u.state.drones s.drones u.resolved_id c.drone c.stored)

  -- In a well-formed state with an eviction time, a drone that is detected and not seen again is gone
  -- after a clean-up that comes when both the threshold and the eviction time have passed.
  pub unseen-evicted :
      (now : ℕ) (d : Drone) (threshold tap later : ℕ) (s : StateManager)
      → IsState s
      → d.identifier ≢ []
      → s.evict_after_min ≢ 0
      → now + threshold < later
      → now + s.evict_after_min * 60_000_000_000 < later
      → at_cleanup now d threshold tap later s ≡ none
  unseen-evicted now d threshold tap later s v n nz lt late =
      let c = update_drone-Stores haversine now d s v n in
      let minutes = minutes-update_drone haversine now d s in
      settled now d threshold tap later s v c
      ∙ settle-gone threshold _ later c.drone (λ z. nz (sym minutes ∙ z)) c.in_contact
          (omega (arith, c.seen, lt))
          (subst (λ m. c.drone.last_seen + m * 60_000_000_000 < later) (sym minutes)
            (omega (arith, c.seen, late)))

  -- In a well-formed state, a drone that is detected is still there after a clean-up that comes before
  -- the threshold has passed, in contact and last seen at that detection.
  pub seen-stays :
      (now : ℕ) (d : Drone) (threshold tap later : ℕ) (s : StateManager)
      → IsState s
      → d.identifier ≢ []
      → later ≤ now + threshold
      → (e : Drone) × (at_cleanup now d threshold tap later s ≡ some e)
        × (e.status ≡ active)
        × (e.last_seen ≡ now)
  seen-stays now d threshold tap later s v n le =
      let c = update_drone-Stores haversine now d s v n in
      (
        c.drone,
        settled now d threshold tap later s v c
            ∙ settle-stays threshold _ later c.drone c.in_contact (omega (arith, c.seen, le)),
        c.in_contact,
        c.seen,
      )
