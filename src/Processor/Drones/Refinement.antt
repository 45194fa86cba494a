-- ===== src/Processor/Drones/Refinement.antt =====
-- The sharded store of internal/processor/state.go is one map.
use skylens_azure.Common.{
  ℕ, zero, suc, ◌+◌, ◌<◌, ◌≡◌, refl, sym, ap, ◌∙◌, Bytes, bytes_discrete, none, some, List, [], ◌∷◌,
  Bool, true, false, length, get_or, ite, is_some, arith, ◌==◌, if◌then◌else◌, Option-cases,
  Bool-cases, inl, inr, subst,
}
use skylens_azure.Common.Maps.{
  Map, lookup, insert, delete, lookup-insert, lookup-delete, length-insert, length-delete, Unique,
  insert-Unique, delete-Unique,
}
use skylens_azure.Processor.Model.{Drone}
use skylens_azure.Processor.Drones.{
  ShardedDrones, empty_shards, new_sharded_drones, get_shard, put_at, shard_at, get, set,
  delete_drone, update_indexes, remove_from_indexes, total, count_drones,
}

pub get_shard-lt : (id : Bytes) → get_shard id < 16
unfolding get_shard
get_shard-lt id = omega arith

pub length-put_at :
    (i : ℕ) (m : Map Drone) (ss : List (Map Drone)) → length (put_at i m ss) ≡ length ss
length-put_at i m [] = refl
length-put_at zero m (s ∷ ss) = refl
length-put_at (suc i) m (s ∷ ss) = ap suc (length-put_at i m ss)

pub get_or-put_at :
    (i j : ℕ) (m : Map Drone) (ss : List (Map Drone))
    → i < length ss
    → get_or (put_at i m ss) j [] ≡ (if i == j then m else get_or ss j [])
get_or-put_at i j m [] h = absurd (omega arith)
get_or-put_at zero zero m (s ∷ ss) h = refl
get_or-put_at zero (suc j) m (s ∷ ss) h = ground arith
get_or-put_at (suc i) zero m (s ∷ ss) h = ground arith
get_or-put_at (suc i) (suc j) m (s ∷ ss) h = ground (arith, get_or-put_at i j m ss (omega arith))

total-put_at :
    (i : ℕ) (m : Map Drone) (ss : List (Map Drone))
    → i < length ss
    → total (put_at i m ss) + length (get_or ss i []) ≡ total ss + length m
total-put_at i m [] h = absurd (omega arith)
total-put_at zero m (s ∷ ss) h = omega arith
total-put_at (suc i) m (s ∷ ss) h = omega (arith, total-put_at i m ss (omega arith))

pub shard_at-put :
    (id j : Bytes) (m : Map Drone) (sd : ShardedDrones)
    → length sd.shards ≡ 16
    → get_or (put_at (get_shard id) m sd.shards) (get_shard j) []
      ≡ (if get_shard id == get_shard j then m else shard_at j sd)
shard_at-put id j m sd h =
    get_or-put_at (get_shard id) (get_shard j) m sd.shards (omega (arith, get_shard-lt id, h))

pub get-set :
    (id j : Bytes) (d : Drone) (sd : ShardedDrones)
    → length sd.shards ≡ 16
    → get j (set id d sd) ≡ ite (bytes_discrete id j) (some d) (get j sd)
unfolding get set update_indexes
get-set id j d sd h =
    let m = insert id d (shard_at id sd) in
    let here : (id ≡ j) → get_shard id ≡ get_shard j = λ e. ap get_shard e in
    let same_map : get_shard id ≡ get_shard j
        → lookup j (shard_at id sd) ≡ lookup j (shard_at j sd) =
      λ e. ap (λ i. lookup j (get_or sd.shards i [])) e in
    let put = lookup-insert id j d (shard_at id sd) in
    rw (shard_at-put id j m sd h) (elim (bytes_discrete id j) [
      | yes e ↦ ground (arith, here e, put)
      | no n ↦ elim (Bool-cases (get_shard id == get_shard j)) [
        | inl q ↦ ground (arith, same_map (ground arith), put)
        | inr q ↦ ground arith
      ]
    ])

abbrev pub removed : Bytes → ShardedDrones → ShardedDrones
removed id sd = (delete_drone id sd).0

pub get-delete :
    (id j : Bytes) (sd : ShardedDrones)
    → length sd.shards ≡ 16
    → get j (removed id sd) ≡ ite (bytes_discrete id j) none (get j sd)
unfolding get delete_drone remove_from_indexes
get-delete id j sd h =
    let m = delete id (shard_at id sd) in
    let gone = lookup-delete id j (shard_at id sd) in
    let same_map : get_shard id ≡ get_shard j
        → lookup j (shard_at id sd) ≡ lookup j (shard_at j sd) =
      λ e. ap (λ i. lookup j (get_or sd.shards i [])) e in
    elim (Option-cases (lookup id (shard_at id sd))) [
      | inl e ↦ rw e (elim (bytes_discrete id j) [
        | yes q ↦ ground (arith, ap (λ x. lookup x (shard_at x sd)) q, e)
        | no n ↦ ground arith
      ])
      | inr (d, e) ↦
          rw (e, shard_at-put id j m sd h)
            (elim (bytes_discrete id j) [
              | yes q ↦ ground (arith, ap get_shard q, gone)
              | no n ↦ elim (Bool-cases (get_shard id == get_shard j)) [
                | inl q ↦ ground (arith, same_map (ground arith), gone)
                | inr q ↦ ground arith
              ]
            ])
    ]

-- The calls that change the store.
pub data Op : Type 0 where
  sets : Bytes → Drone → Op
  deletes : Bytes → Op

abbrev pub step : ShardedDrones → Op → ShardedDrones
step sd (sets id d) = set id d sd
step sd (deletes id) = removed id sd

abbrev pub run : ShardedDrones → List Op → ShardedDrones
run sd [] = sd
run sd (o ∷ os) = run (step sd o) os

-- What the calls do to one map.
abbrev pub map_step : Map Drone → Op → Map Drone
map_step m (sets id d) = insert id d m
map_step m (deletes id) = delete id m

abbrev pub map_run : Map Drone → List Op → Map Drone
map_run m [] = m
map_run m (o ∷ os) = map_run (map_step m o) os

record Refines (sd : ShardedDrones) (m : Map Drone) : Type 0 where
  size : length sd.shards ≡ 16
  distinct : (id : Bytes) → Unique (shard_at id sd)
  one_map : Unique m
  same_get : (id : Bytes) → get id sd ≡ lookup id m
  same_count : count_drones sd ≡ length m

pub put-Unique :
    (id : Bytes) (new : Map Drone) (sd : ShardedDrones)
    → length sd.shards ≡ 16
    → ((j : Bytes) → Unique (shard_at j sd))
    → Unique new
    → (j : Bytes) → Unique (get_or (put_at (get_shard id) new sd.shards) (get_shard j) [])
put-Unique id new sd h u un j =
    subst Unique (sym (shard_at-put id j new sd h))
      (elim (Bool-cases (get_shard id == get_shard j)) [ inl q ↦ rw q un | inr q ↦ rw q (u j) ])

count-set :
    (id : Bytes) (d : Drone) (sd : ShardedDrones) (m : Map Drone)
    → Refines sd m
    → count_drones (set id d sd) ≡ length (insert id d m)
unfolding count_drones set update_indexes get
count-set id d sd m v = ground (
  arith,
  total-put_at (get_shard id) (insert id d (shard_at id sd)) sd.shards
      (omega (arith, get_shard-lt id, v.size)),
  length-insert id d (shard_at id sd),
  length-insert id d m,
  v.same_get id,
  v.same_count,
)

set-Refines :
    (id : Bytes) (d : Drone) (sd : ShardedDrones) (m : Map Drone)
    → Refines sd m
    → Refines (set id d sd) (insert id d m)
set-Refines id d sd m v = record {
  size = unfold set update_indexes in length-put_at _ _ sd.shards ∙ v.size;
  distinct =
      unfold set update_indexes in
      put-Unique id _ sd v.size v.distinct (insert-Unique id d (shard_at id sd) (v.distinct id));
  one_map = insert-Unique id d m v.one_map;
  same_get = λ j. ground (arith, get-set id j d sd v.size, lookup-insert id j d m, v.same_get j);
  same_count = count-set id d sd m v;
}

-- The delete of a drone that is there, and of one that is not.
abbrev pub without : Bytes → ShardedDrones → List (Map Drone)
without id sd = put_at (get_shard id) (delete id (shard_at id sd)) sd.shards

pub shards-removed :
    (id : Bytes) (sd : ShardedDrones)
    → (removed id sd).shards ≡ (if is_some (get id sd) then without id sd else sd.shards)
unfolding delete_drone remove_from_indexes get
shards-removed id sd = elim (Option-cases (lookup id (shard_at id sd))) [
  | inl e ↦ rw e refl
  | inr (d, e) ↦ rw e refl
]

count-delete :
    (id : Bytes) (sd : ShardedDrones) (m : Map Drone)
    → Refines sd m
    → total (if is_some (get id sd) then without id sd else sd.shards) ≡ length (delete id m)
unfolding count_drones get
count-delete id sd m v = ground (
  arith,
  total-put_at (get_shard id) (delete id (shard_at id sd)) sd.shards
      (omega (arith, get_shard-lt id, v.size)),
  length-delete id (shard_at id sd) (v.distinct id),
  length-delete id m v.one_map,
  v.same_get id,
  v.same_count,
)

removed-Unique :
    (id : Bytes) (sd : ShardedDrones) (m : Map Drone) (b : Bool)
    → Refines sd m
    → (j : Bytes) → Unique (get_or (if b then without id sd else sd.shards) (get_shard j) [])
removed-Unique id sd m true v j =
    put-Unique id _ sd v.size v.distinct (delete-Unique id (shard_at id sd) (v.distinct id)) j
removed-Unique id sd m false v j = v.distinct j

pub removed-length :
    (id : Bytes) (sd : ShardedDrones) (b : Bool)
    → length (if b then without id sd else sd.shards) ≡ length sd.shards
removed-length id sd true = length-put_at _ _ sd.shards
removed-length id sd false = refl

delete-Refines :
    (id : Bytes) (sd : ShardedDrones) (m : Map Drone)
    → Refines sd m
    → Refines (removed id sd) (delete id m)
delete-Refines id sd m v = record {
  size = ap length (shards-removed id sd) ∙ removed-length id sd (is_some (get id sd)) ∙ v.size;
  distinct = λ j.
      subst (λ ss. Unique (get_or ss (get_shard j) [])) (sym (shards-removed id sd))
        (removed-Unique id sd m (is_some (get id sd)) v j);
  one_map = delete-Unique id m v.one_map;
  same_get = λ j. ground (arith, get-delete id j sd v.size, lookup-delete id j m, v.same_get j);
  same_count = unfold count_drones in ap total (shards-removed id sd) ∙ count-delete id sd m v;
}

run-Refines :
    (sd : ShardedDrones) (m : Map Drone) (os : List Op)
    → Refines sd m
    → Refines (run sd os) (map_run m os)
run-Refines sd m [] v = v
run-Refines sd m (sets id d ∷ os) v =
    run-Refines (set id d sd) (insert id d m) os (set-Refines id d sd m v)
run-Refines sd m (deletes id ∷ os) v =
    run-Refines (removed id sd) (delete id m) os (delete-Refines id sd m v)

pub empty-get : (n i : ℕ) → get_or (empty_shards n) i [] ≡ []
empty-get zero i = refl
empty-get (suc n) zero = refl
empty-get (suc n) (suc i) = empty-get n i

new-Refines : Refines new_sharded_drones []
unfolding new_sharded_drones get count_drones lookup
new-Refines = record {
  size = refl;
  distinct = λ id. subst Unique (sym (empty-get 16 (get_shard id))) tt;
  one_map = tt;
  same_get = λ id. ap (lookup id) (empty-get 16 (get_shard id));
  same_count = refl;
}

-- After any sequence of stores and deletes the shards together are one map that went through the
-- same sequence: every identifier reads the same, and the count is the number of the map's entries.
pub run-refines :
    (os : List Op) (id : Bytes)
    → (get id (run new_sharded_drones os) ≡ lookup id (map_run [] os))
      × (count_drones (run new_sharded_drones os) ≡ length (map_run [] os))
run-refines os id =
    let v = run-Refines new_sharded_drones [] os new-Refines in (v.same_get id, v.same_count)

pub size-set :
    (id : Bytes) (d : Drone) (sd : ShardedDrones) → length (set id d sd).shards ≡ length sd.shards
unfolding set update_indexes
size-set id d sd = length-put_at _ _ sd.shards

pub run-size : (os : List Op) → length (run new_sharded_drones os).shards ≡ 16
run-size os = (run-Refines new_sharded_drones [] os new-Refines).size
