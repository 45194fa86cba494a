-- ===== src/Processor/Drones.antt =====
-- The drone store of internal/processor/state.go: shards chosen by a hash of the identifier, and the
-- indexes by serial number and MAC. An operation takes its locks one after the other; here
-- it is one step.
pub mod Refinement
pub mod Indexes
pub mod Placement
use skylens_azure.Common.{
  ℕ, zero, suc, ◌+◌, ◌*◌, ◌%◌, ◌^◌, Bytes, bytes_discrete, same, Option, none, some, List, [], ◌∷◌,
  ◌++◌, map, Bool, if◌then◌else◌, length, get_or, is_some,
}
use Prim.Native.Nat.{bit_xor}
use skylens_azure.Processor.Model.{Drone}
use skylens_azure.Common.Maps.{Map, lookup, insert, delete, map_values}

pub record ShardedDrones : Type 0 where
  pub shards : List (Map Drone)
  pub by_serial : Map Bytes
  pub by_mac : Map Bytes

abbrev pub num_drone_shards : ℕ
num_drone_shards = 16

abbrev pub empty_shards : ℕ → List (Map Drone)
empty_shards zero = []
empty_shards (suc n) = [] ∷ empty_shards n

unfoldable pub new_sharded_drones : ShardedDrones
new_sharded_drones = record { shards = empty_shards num_drone_shards; by_serial = []; by_mac = [] }

-- The FNV-1a loop, in 32 bits.
unfoldable pub fnv : ℕ → Bytes → ℕ
fnv h [] = h
fnv h (b ∷ bs) = fnv (bit_xor h b * 16_777_619 % 2 ^ 32) bs

-- The index of the shard: `h & 15`.
unfoldable pub get_shard : Bytes → ℕ
unfolding fnv
get_shard identifier = fnv 2_166_136_261 identifier % num_drone_shards

abbrev pub put_at : ℕ → Map Drone → List (Map Drone) → List (Map Drone)
put_at i m [] = []
put_at zero m (s ∷ ss) = m ∷ ss
put_at (suc i) m (s ∷ ss) = s ∷ put_at i m ss

abbrev pub shard_at : Bytes → ShardedDrones → Map Drone
shard_at id sd = get_or sd.shards (get_shard id) []

unfoldable pub get : Bytes → ShardedDrones → Option Drone
get id sd = lookup id (shard_at id sd)

-- Index entries for the names that are not empty.
abbrev pub index : Bytes → Bytes → Map Bytes → Map Bytes
index [] id m = m
index (c ∷ cs) id m = insert (c ∷ cs) id m

-- A missing entry of a Go map of strings reads as "".
abbrev pub or_empty : Option Bytes → Bytes
or_empty none = []
or_empty (some id) = id

abbrev pub unindex : Bytes → Bytes → Map Bytes → Map Bytes
unindex [] id m = m
unindex (c ∷ cs) id m = if same (or_empty (lookup (c ∷ cs) m)) id then delete (c ∷ cs) m else m

unfoldable pub update_indexes : Bytes → Drone → ShardedDrones → ShardedDrones
update_indexes id d sd = record sd {
  by_serial = index d.serial_number id sd.by_serial;
  by_mac = index d.mac_address id sd.by_mac;
}

unfoldable pub remove_from_indexes : Bytes → Drone → ShardedDrones → ShardedDrones
remove_from_indexes id d sd = record sd {
  by_serial = unindex d.serial_number id sd.by_serial;
  by_mac = unindex d.mac_address id sd.by_mac;
}

-- `shard.drones[id] = d`, with the indexes as they are.
abbrev pub put_drone : Bytes → Drone → ShardedDrones → ShardedDrones
put_drone id d sd = record sd {
  shards = put_at (get_shard id) (insert id d (shard_at id sd)) sd.shards;
}

unfoldable pub set : Bytes → Drone → ShardedDrones → ShardedDrones
unfolding update_indexes
set id d sd = update_indexes id d (put_drone id d sd)

abbrev pub delete_found : Bytes → ShardedDrones → Option Drone → ShardedDrones
delete_found id sd none = sd
delete_found id sd (some d) =
    remove_from_indexes id d
      (record sd { shards = put_at (get_shard id) (delete id (shard_at id sd)) sd.shards })

-- The store afterwards, and whether the drone was there.
unfoldable pub delete_drone : Bytes → ShardedDrones → ShardedDrones × Bool
unfolding get remove_from_indexes
delete_drone id sd = (delete_found id sd (get id sd), is_some (get id sd))

unfoldable pub lookup_by_serial : Bytes → ShardedDrones → Bytes
lookup_by_serial serial sd = or_empty (lookup serial sd.by_serial)

unfoldable pub lookup_by_mac : Bytes → ShardedDrones → Bytes
lookup_by_mac mac sd = or_empty (lookup mac sd.by_mac)

abbrev pub get_unless_empty : Bytes → ShardedDrones → Option Drone
get_unless_empty [] sd = none
get_unless_empty (c ∷ cs) sd = get (c ∷ cs) sd

unfoldable pub get_by_mac : Bytes → ShardedDrones → Option Drone
unfolding lookup_by_mac get
get_by_mac mac sd = get_unless_empty (lookup_by_mac mac sd) sd

abbrev pub total : List (Map Drone) → ℕ
total [] = 0
total (s ∷ ss) = length s + total ss

unfoldable pub count_drones : ShardedDrones → ℕ
count_drones sd = total sd.shards

abbrev pub drones_of : Map Drone → List Drone
drones_of = map (λ p. p.1)

abbrev pub collect : List (Map Drone) → List Drone
collect [] = []
collect (s ∷ ss) = drones_of s ++ collect ss

unfoldable pub get_all : ShardedDrones → List Drone
get_all sd = collect sd.shards

-- `forEachMut`: every drone of every shard, changed in place.
unfoldable pub for_each_mut : (Drone → Drone) → ShardedDrones → ShardedDrones
for_each_mut f sd = record sd { shards = map (map_values f) sd.shards }
