-- ===== src/Processor/Runs/StoreRuns.antt =====
-- Runs of the drone store of internal/processor/state.go, and its theorems at concrete drones.
use skylens_azure.Common.{ℕ, ◌≡◌, refl, Bytes, bytes_discrete, codes, List, [], ◌∷◌, length, map}
use skylens_azure.Common.Maps.{lookup, insert, delete}
use skylens_azure.Processor.Model.{Drone, no_drone}
use skylens_azure.Processor.Drones.{
  new_sharded_drones, get_shard, fnv, get, set, delete_drone, count_drones, get_all, update_indexes,
  remove_from_indexes,
}
use skylens_azure.Processor.Drones.Refinement.{Op, sets, deletes, run, map_run, run-refines}

abbrev drone : Bytes → ℕ → Drone
drone mac count = record no_drone {
  serial_number = codes "1581F45T";
  mac_address = mac;
  detection_count = count;
}

abbrev ops : List Op
ops =
    sets (codes "a") (drone (codes "m1") 1)
    ∷ sets (codes "b") (drone (codes "m2") 2)
    ∷ sets (codes "a") (drone (codes "m3") 3)
    ∷ deletes (codes "b")
    ∷ []

-- The FNV-1a hash of "a" is 0xE40C292C.
hash_runs : fnv 2_166_136_261 (codes "a") ≡ 0xE40C292C
unfolding fnv
hash_runs = refl

all_runs : map (λ d. d.detection_count) (get_all (run new_sharded_drones ops)) ≡ 3 ∷ []
unfolding get_all new_sharded_drones set get get_shard fnv update_indexes delete_drone
    remove_from_indexes lookup insert delete bytes_discrete
all_runs = refl

run-refines_example :
    (get (codes "a") (run new_sharded_drones ops) ≡ lookup (codes "a") (map_run [] ops))
    × (count_drones (run new_sharded_drones ops) ≡ length (map_run [] ops))
run-refines_example = run-refines ops (codes "a")
