-- ===== src/Processor/State/Changes.antt =====
-- The changes to stored drones and taps in internal/processor/state.go that are not detections: tags,
-- hiding, range rings, estimated positions, missing track numbers, and the heartbeats of taps.
use skylens_azure.Common.{
  ℕ, ◌+◌, ◌==◌, Bytes, codes, same, Option, none, some, List, [], ◌∷◌, ◌++◌, Bool, true, false, not,
  ltb, ◌&&◌, ◌||◌, if◌then◌else◌, any, keep,
}
use skylens_azure.Common.Int.{ℤ, pos, ltb_ℤ, eq_ℤ}
use skylens_azure.Common.Maps.{Map, lookup, insert}
use skylens_azure.Processor.Model.{Drone, Tap, RangeRing, EstimatedPosition}
use skylens_azure.Processor.Drones.{get, put_drone, get_all, for_each_mut}
use skylens_azure.Processor.Merge.{active, lost}
use skylens_azure.Processor.State.{StateManager, drone_update, tap_status, broadcast}

-- A change of one drone, and whether it is there.
unfoldable pub change_drone : (Drone → Drone) → Bytes → StateManager → StateManager × Bool
unfolding get broadcast
change_drone f id s = elim (get id s.drones) [
  | none ↦ (s, false)
  | some d ↦
      (broadcast (drone_update (f d)) (record s { drones = put_drone id (f d) s.drones }), true)
]

unfoldable pub set_drone_tag : Bytes → Bytes → StateManager → StateManager × Bool
unfolding change_drone
set_drone_tag id tag s = change_drone (λ d. record d { tag = tag }) id s

unfoldable pub set_drone_classification : Bytes → Bytes → StateManager → StateManager × Bool
unfolding change_drone
set_drone_classification id classification s =
    change_drone (λ d. record d { classification = classification }) id s

unfoldable pub set_drone_hidden : Bytes → Bool → StateManager → StateManager × Bool
unfolding change_drone
set_drone_hidden id hidden s = change_drone (λ d. record d { hidden = hidden }) id s

abbrev pub hide_if_lost : Drone → Drone
hide_if_lost d =
    if same d.status lost || same d.contact_status lost then record d { hidden = true } else d

unfoldable pub hide_all_lost : StateManager → StateManager
unfolding for_each_mut
hide_all_lost s = record s { drones = for_each_mut hide_if_lost s.drones }

unfoldable pub unhide_all : StateManager → StateManager
unfolding for_each_mut
unhide_all s = record s { drones = for_each_mut (λ d. record d { hidden = false }) s.drones }

unfoldable pub get_active_drones : StateManager → List Drone
get_active_drones s = keep (λ d. same d.status active) (get_all s.drones)

unfoldable pub get_visible_drones : StateManager → List Drone
get_visible_drones s = keep (λ d. not d.hidden) (get_all s.drones)

-- The ring of a tap is replaced, or added at the end.
unfoldable pub put_ring : RangeRing → List RangeRing → List RangeRing
put_ring ring [] = ring ∷ []
put_ring ring (r ∷ rs) = if same r.tap_id ring.tap_id then ring ∷ rs else r ∷ put_ring ring rs

-- The first ring of the highest confidence.
unfoldable pub best_ring : RangeRing → List RangeRing → RangeRing
best_ring best [] = best
best_ring best (r ∷ rs) = best_ring (if ltb best.confidence r.confidence then r else best) rs

abbrev pub best_distance : ℕ → List RangeRing → ℕ
best_distance old [] = old
best_distance old (r ∷ rs) = (best_ring r rs).distance

unfoldable pub with_ring : RangeRing → Drone → Drone
unfolding put_ring best_ring
with_ring ring d =
    let rings = put_ring ring d.range_rings in
    record d { range_rings = rings; distance_est = best_distance d.distance_est rings }

-- A change that no subscriber is told of.
unfoldable pub change_silently : (Drone → Drone) → Bytes → StateManager → StateManager × Bool
unfolding get
change_silently f id s = elim (get id s.drones) [
  | none ↦ (s, false)
  | some d ↦ (record s { drones = put_drone id (f d) s.drones }, true)
]

unfoldable pub update_drone_range_ring : ℕ → Bytes → RangeRing → StateManager → StateManager × Bool
unfolding change_silently with_ring
update_drone_range_ring now id ring s =
    change_silently (with_ring (record ring { updated_at = now })) id s

unfoldable pub set_drone_estimated_position :
    Bytes → Option EstimatedPosition → StateManager → StateManager × Bool
unfolding change_silently
set_drone_estimated_position id position s =
    change_silently (λ d. record d { estimated_pos = position }) id s

unfoldable pub get_drone_estimated_position : Bytes → StateManager → Option EstimatedPosition
unfolding get
get_drone_estimated_position id s = elim (get id s.drones) [
  | none ↦ none
  | some d ↦ d.estimated_pos
]

unfoldable pub get_drone_range_rings : Bytes → StateManager → List RangeRing
unfolding get
get_drone_range_rings id s = elim (get id s.drones) [ none ↦ [] | some d ↦ d.range_rings ]

-- `ring.UpdatedAt.After(now.Add(-maxAge))`.
abbrev pub is_fresh_ring : ℕ → ℕ → RangeRing → Bool
is_fresh_ring max_age now r = r.updated_at == 0 || ltb now (r.updated_at + max_age)

unfoldable pub clear_old_range_rings : ℕ → ℕ → StateManager → StateManager
unfolding for_each_mut
clear_old_range_rings max_age now s = record s {
  drones =
      for_each_mut (λ d. record d { range_rings = keep (is_fresh_ring max_age now) d.range_rings })
        s.drones;
}

abbrev pub needs_number : Drone → Bool
needs_number d = d.track_number == 0 && not d.is_controller

-- The next numbers for the drones of a shard that have none, and what is saved of them.
unfoldable pub number_drones : ℕ → Map Drone → Map Drone × ℕ × List (Bytes × ℕ)
number_drones n [] = ([], n, [])
number_drones n ((id, d) ∷ m) =
    let (rest, last, saved) = number_drones (if needs_number d then n + 1 else n) m in
    if needs_number d
    then ((id, record d { track_number = n + 1 }) ∷ rest, last, (d.identifier, n + 1) ∷ saved)
    else ((id, d) ∷ rest, last, saved)

unfoldable pub number_shards : ℕ → List (Map Drone) → List (Map Drone) × ℕ × List (Bytes × ℕ)
unfolding number_drones
number_shards n [] = ([], n, [])
number_shards n (shard ∷ shards) =
    let (first, next, saved) = number_drones n shard in
    let (rest, last, more) = number_shards next shards in (first ∷ rest, last, saved ++ more)

-- The state, and the calls of the saver.
unfoldable pub backfill_track_numbers : StateManager → StateManager × List (Bytes × ℕ)
unfolding number_shards
backfill_track_numbers s =
    let (shards, last, saved) = number_shards s.next_track_num s.drones.shards in
    (record s { drones = record s.drones { shards = shards }; next_track_num = last }, saved)

-- A list without elements stands for a nil slice.
abbrev pub carried : Option Tap → Tap → List ℤ
carried none t = t.seen_channels
carried (some old) t = elim old.seen_channels [ [] ↦ t.seen_channels | c ∷ cs ↦ c ∷ cs ]

unfoldable pub note_channel : ℤ → List ℤ → List ℤ
note_channel channel seen =
    if ltb_ℤ (pos 0) channel && not (any (λ c. eq_ℤ c channel) seen)
    then seen ++ channel ∷ []
    else seen

unfoldable pub update_tap : ℕ → Tap → StateManager → StateManager
unfolding broadcast note_channel
update_tap now t s =
    let stored = record t {
      seen_channels = note_channel t.current_channel (carried (lookup t.id s.taps) t);
      status = codes "online";
      last_seen = now;
    } in
    broadcast (tap_status stored) (record s { taps = insert t.id stored s.taps })
