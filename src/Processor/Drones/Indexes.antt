-- ===== src/Processor/Drones/Indexes.antt =====
-- The index by MAC of the drone store of internal/processor/state.go.
use skylens_azure.Common.{
  ◌≡◌, ◌≢◌, refl, ap, ◌∙◌, Bytes, bytes_discrete, some, List, [], ◌∷◌, length, ite, arith,
}
use skylens_azure.Common.Maps.{Map, lookup, lookup-insert}
use skylens_azure.Processor.Model.{Drone}
use skylens_azure.Processor.Drones.{
  ShardedDrones, index, get_unless_empty, get, set, get_by_mac, lookup_by_mac, update_indexes,
}
use skylens_azure.Processor.Drones.Refinement.{Op, run, get-set, run-size, size-set}
use skylens_azure.Processor.Drones.{new_sharded_drones}

by_mac-set :
    (id : Bytes) (d : Drone) (sd : ShardedDrones)
    → (set id d sd).by_mac ≡ index d.mac_address id sd.by_mac
unfolding set update_indexes
by_mac-set id d sd = refl

lookup-index :
    (name j id : Bytes) (m : Map Bytes)
    → name ≢ []
    → lookup j (index name id m) ≡ ite (bytes_discrete name j) (some id) (lookup j m)
lookup-index [] j id m n = absurd (n refl)
lookup-index (c ∷ cs) j id m n = lookup-insert (c ∷ cs) j id m

get_unless_empty-nonempty :
    (id : Bytes) (sd : ShardedDrones) → id ≢ [] → get_unless_empty id sd ≡ get id sd
get_unless_empty-nonempty [] sd n = absurd (n refl)
get_unless_empty-nonempty (c ∷ cs) sd n = refl

lookup-index_other :
    (name j id : Bytes) (m : Map Bytes) → name ≢ j → lookup j (index name id m) ≡ lookup j m
lookup-index_other [] j id m n = refl
lookup-index_other (c ∷ cs) j id m n = ground (arith, lookup-insert (c ∷ cs) j id m)

found :
    (mac id : Bytes) (sd : ShardedDrones)
    → lookup mac sd.by_mac ≡ some id
    → id ≢ []
    → get_by_mac mac sd ≡ get id sd
unfolding get_by_mac lookup_by_mac
found mac id sd e n = rw e (get_unless_empty-nonempty id sd n)

entry-set :
    (id : Bytes) (d : Drone) (sd : ShardedDrones)
    → d.mac_address ≢ []
    → lookup d.mac_address (set id d sd).by_mac ≡ some id
entry-set id d sd n =
    ap (lookup d.mac_address) (by_mac-set id d sd)
    ∙ ground (arith, lookup-index d.mac_address d.mac_address id sd.by_mac n)

get-own :
    (id : Bytes) (d : Drone) (sd : ShardedDrones)
    → length sd.shards ≡ 16
    → get id (set id d sd) ≡ some d
get-own id d sd h = ground (arith, get-set id id d sd h)

-- In a store after any sequence of calls, a drone that is stored with an identifier and a MAC that are
-- not empty is found under this MAC.
get_by_mac-set :
    (os : List Op) (id : Bytes) (d : Drone)
    → id ≢ []
    → d.mac_address ≢ []
    → get_by_mac d.mac_address (set id d (run new_sharded_drones os)) ≡ some d
get_by_mac-set os id d ni nm =
    let sd = run new_sharded_drones os in
    found d.mac_address id (set id d sd) (entry-set id d sd nm) ni ∙ get-own id d sd (run-size os)

-- When a drone is stored again with another MAC, or with none, its old MAC still leads to it: the store
-- keeps the old entry of the index.
get_by_mac-stale :
    (os : List Op) (id : Bytes) (d e : Drone)
    → id ≢ []
    → d.mac_address ≢ []
    → e.mac_address ≢ d.mac_address
    → get_by_mac d.mac_address (set id e (set id d (run new_sharded_drones os))) ≡ some e
get_by_mac-stale os id d e ni nm ne =
    let sd = run new_sharded_drones os in
    let first = set id d sd in
    let entry : lookup d.mac_address (set id e first).by_mac ≡ some id =
      ap (lookup d.mac_address) (by_mac-set id e first)
      ∙ lookup-index_other e.mac_address d.mac_address id first.by_mac ne
      ∙ entry-set id d sd nm in
    found d.mac_address id (set id e first) entry ni
    ∙ get-own id e first (size-set id d sd ∙ run-size os)
