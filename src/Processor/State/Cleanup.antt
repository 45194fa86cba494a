-- ===== src/Processor/State/Cleanup.antt =====
-- The periodic clean-up of internal/processor/state.go: drones that are lost, drones that leave the
-- memory, taps that are offline and suspects that expire. Durations are nanoseconds, and `a.Sub(b) > d`
-- is `b + d < a`.
use skylens_azure.Common.{
  ℕ, ◌+◌, ◌*◌, ◌==◌, Bytes, codes, same, List, [], ◌∷◌, ◌++◌, map, Bool, not, ltb, ◌&&◌,
  if◌then◌else◌, keep,
}
use skylens_azure.Common.Maps.{Map, keep_values, map_values}
use skylens_azure.Processor.Model.{Drone, Tap}
use skylens_azure.Processor.Trails.{remove_trail}
use skylens_azure.Processor.Drones.{delete_drone, get_all, for_each_mut}
use skylens_azure.Processor.Merge.{active, lost}
use skylens_azure.Processor.State.{StateManager, StateEvent, drone_lost, tap_status, broadcast}

abbrev pub is_silent : ℕ → ℕ → Drone → Bool
is_silent threshold now d = same d.status active && ltb (d.last_seen + threshold) now

unfoldable pub mark_lost : ℕ → ℕ → Drone → Drone
mark_lost threshold now d =
    if is_silent threshold now d then record d { status = lost; contact_status = lost } else d

unfoldable pub broadcast_all : List StateEvent → StateManager → StateManager
unfolding broadcast
broadcast_all [] s = s
broadcast_all (e ∷ es) s = broadcast_all es (broadcast e s)

abbrev pub lost_events : ℕ → ℕ → StateManager → List StateEvent
lost_events threshold now s =
    map (λ d. drone_lost (mark_lost threshold now d))
      (keep (is_silent threshold now) (get_all s.drones))

abbrev pub with_lost : ℕ → ℕ → StateManager → StateManager
with_lost threshold now s = record s { drones = for_each_mut (mark_lost threshold now) s.drones }

unfoldable pub mark_drones : ℕ → ℕ → StateManager → StateManager
unfolding for_each_mut mark_lost broadcast_all
mark_drones threshold now s =
    broadcast_all (lost_events threshold now s) (with_lost threshold now s)

abbrev pub is_expired : ℕ → ℕ → Drone → Bool
is_expired evict_after now d = same d.status lost && ltb (d.last_seen + evict_after) now

unfoldable pub expired_ids : ℕ → ℕ → Map Drone → List Bytes
expired_ids evict_after now [] = []
expired_ids evict_after now ((id, d) ∷ m) =
    let rest = expired_ids evict_after now m in
    if is_expired evict_after now d then id ∷ rest else rest

unfoldable pub all_expired_ids : ℕ → ℕ → List (Map Drone) → List Bytes
unfolding expired_ids
all_expired_ids evict_after now [] = []
all_expired_ids evict_after now (shard ∷ shards) =
    expired_ids evict_after now shard ++ all_expired_ids evict_after now shards

-- `DeleteDrone`, and what the clean-up adds to it.
abbrev pub forget : Bytes → StateManager → StateManager
forget id s = record s { drones = (delete_drone id s.drones).0; trails = remove_trail s.trails id }

unfoldable pub evict : List Bytes → StateManager → StateManager
unfolding remove_trail
evict [] s = s
evict (id ∷ ids) s = evict ids (forget id s)

-- 0 minutes keep the lost drones for ever.
unfoldable pub evict_drones : ℕ → StateManager → StateManager
unfolding all_expired_ids evict
evict_drones now s =
    if s.evict_after_min == 0
    then s
    else evict (all_expired_ids (s.evict_after_min * 60_000_000_000) now s.drones.shards) s

abbrev pub is_quiet : ℕ → ℕ → Tap → Bool
is_quiet threshold now t = same t.status (codes "online") && ltb (t.last_seen + threshold) now

abbrev pub offline : Tap → Tap
offline t = record t { status = codes "offline" }

unfoldable pub mark_tap : ℕ → ℕ → Tap → Tap
mark_tap threshold now t = if is_quiet threshold now t then offline t else t

abbrev pub offline_events : ℕ → ℕ → StateManager → List StateEvent
offline_events threshold now s =
    map (λ t. tap_status (offline t)) (keep (is_quiet threshold now) (map (λ p. p.1) s.taps))

abbrev pub with_offline : ℕ → ℕ → StateManager → StateManager
with_offline threshold now s = record s { taps = map_values (mark_tap threshold now) s.taps }

unfoldable pub mark_taps : ℕ → ℕ → StateManager → StateManager
unfolding mark_tap broadcast_all
mark_taps threshold now s =
    broadcast_all (offline_events threshold now s) (with_offline threshold now s)

unfoldable pub expire_suspects : ℕ → StateManager → StateManager
expire_suspects now s = record s {
  suspect_candidates =
      keep_values (λ c. not (ltb (c.last_seen + 90_000_000_000) now)) s.suspect_candidates;
}

unfoldable pub cleanup : ℕ → ℕ → ℕ → StateManager → StateManager
unfolding mark_drones evict_drones mark_taps expire_suspects
cleanup drone_threshold tap_threshold now s =
    expire_suspects now
      (mark_taps tap_threshold now (evict_drones now (mark_drones drone_threshold now s)))
