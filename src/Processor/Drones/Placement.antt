-- ===== src/Processor/Drones/Placement.antt =====
-- The shards of internal/processor/state.go between calls: there are 16, no identifier occurs twice in
-- one, and each stands in the shard of its hash. The calls keep this.
use skylens_azure.Common.{
  ℕ, zero, suc, ◌≡◌, ◌≢◌, refl, sym, ap, ◌∙◌, subst, Bytes, bytes_discrete, none, some, List, [],
  ◌∷◌, map, Bool, true, false, length, get_or, ite, is_some, arith, ◌==◌, if◌then◌else◌, Bool-cases,
  inl, inr,
}
use skylens_azure.Common.Maps.{
  Map, lookup, insert, delete, lookup-insert, lookup-delete, Unique, insert-Unique, delete-Unique,
  map_values, map_found, lookup-map_values, map_values-Unique,
}
use skylens_azure.Processor.Model.{Drone}
use skylens_azure.Processor.Drones.{
  ShardedDrones, new_sharded_drones, get_shard, shard_at, get, set, put_drone, update_indexes,
  for_each_mut,
}
use skylens_azure.Processor.Drones.Refinement.{
  get_shard-lt, length-put_at, get_or-put_at, get-set, removed, without, shards-removed, empty-get,
}

abbrev pub shard : ℕ → ShardedDrones → Map Drone
shard i sd = get_or sd.shards i []

pub record IsStore (sd : ShardedDrones) : Type 0 where
  pub size : length sd.shards ≡ 16
  pub distinct : (i : ℕ) → Unique (shard i sd)
  pub placed : (i : ℕ) (id : Bytes) → get_shard id ≢ i → lookup id (shard i sd) ≡ none

pub get-put_drone :
    (id j : Bytes) (d : Drone) (sd : ShardedDrones)
    → IsStore sd
    → get j (put_drone id d sd) ≡ ite (bytes_discrete id j) (some d) (get j sd)
get-put_drone id j d sd v =
    let same_get : get j (put_drone id d sd) ≡ get j (set id d sd) =
      unfold get set update_indexes in refl in
    same_get ∙ get-set id j d sd v.size

pub put_drone-IsStore :
    (id : Bytes) (d : Drone) (sd : ShardedDrones) → IsStore sd → IsStore (put_drone id d sd)
put_drone-IsStore id d sd v =
    let m = insert id d (shard_at id sd) in
    let read : (i : ℕ)
        → shard i (put_drone id d sd) ≡ (if get_shard id == i then m else shard i sd) =
      λ i. get_or-put_at (get_shard id) i m sd.shards (omega (arith, get_shard-lt id, v.size)) in
    record {
      size = length-put_at _ _ sd.shards ∙ v.size;
      distinct = λ i. subst Unique (sym (read i)) (elim (Bool-cases (get_shard id == i)) [
        | inl e ↦ rw e (insert-Unique id d _ (v.distinct (get_shard id)))
        | inr e ↦ rw e (v.distinct i)
      ]);
      placed = λ i j ne.
          subst (λ x. lookup j x ≡ none) (sym (read i))
            (elim (Bool-cases (get_shard id == i)) [
              | inl e ↦ rw e ground (
                arith,
                lookup-insert id j d (shard_at id sd),
                v.placed (get_shard id) j (λ q. ne (ground arith)),
              )
              | inr e ↦ rw e (v.placed i j ne)
            ]);
    }

-- The indexes do not matter to it.
pub same_shards-IsStore :
    (sd new : ShardedDrones) → new.shards ≡ sd.shards → IsStore sd → IsStore new
same_shards-IsStore sd new e v = record {
  size = ap length e ∙ v.size;
  distinct = λ i. subst (λ ss. Unique (get_or ss i [])) (sym e) (v.distinct i);
  placed = λ i j ne. subst (λ ss. lookup j (get_or ss i []) ≡ none) (sym e) (v.placed i j ne);
}

without-IsStore :
    (id : Bytes) (sd : ShardedDrones) → IsStore sd → IsStore (record sd { shards = without id sd })
without-IsStore id sd v =
    let m = delete id (shard_at id sd) in
    let read : (i : ℕ)
        → get_or (without id sd) i [] ≡ (if get_shard id == i then m else shard i sd) =
      λ i. get_or-put_at (get_shard id) i m sd.shards (omega (arith, get_shard-lt id, v.size)) in
    record {
      size = length-put_at _ _ sd.shards ∙ v.size;
      distinct = λ i. subst Unique (sym (read i)) (elim (Bool-cases (get_shard id == i)) [
        | inl e ↦ rw e (delete-Unique id _ (v.distinct (get_shard id)))
        | inr e ↦ rw e (v.distinct i)
      ]);
      placed = λ i j ne.
          subst (λ x. lookup j x ≡ none) (sym (read i))
            (elim (Bool-cases (get_shard id == i)) [
              | inl e ↦ rw e ground (
                arith,
                lookup-delete id j (shard_at id sd),
                v.placed (get_shard id) j (λ q. ne (ground arith)),
              )
              | inr e ↦ rw e (v.placed i j ne)
            ]);
    }

removed_if-IsStore :
    (id : Bytes) (sd : ShardedDrones) (b : Bool)
    → IsStore sd
    → IsStore (record sd { shards = if b then without id sd else sd.shards })
removed_if-IsStore id sd true v = without-IsStore id sd v
removed_if-IsStore id sd false v = v

pub removed-IsStore : (id : Bytes) (sd : ShardedDrones) → IsStore sd → IsStore (removed id sd)
removed-IsStore id sd v =
    same_shards-IsStore _ (removed id sd) (shards-removed id sd)
      (removed_if-IsStore id sd (is_some (get id sd)) v)

pub length-map {ℓ κ} :
    {A : Type ℓ} {B : Type κ} (f : A → B) (xs : List A) → length (map f xs) ≡ length xs
length-map f [] = refl
length-map f (x ∷ xs) = ap suc (length-map f xs)

pub get_or-map :
    (f : Drone → Drone) (ss : List (Map Drone)) (i : ℕ)
    → get_or (map (map_values f) ss) i [] ≡ map_values f (get_or ss i [])
unfolding map_values
get_or-map f [] i = refl
get_or-map f (s ∷ ss) zero = refl
get_or-map f (s ∷ ss) (suc i) = get_or-map f ss i

pub get-for_each_mut :
    (f : Drone → Drone) (id : Bytes) (sd : ShardedDrones)
    → get id (for_each_mut f sd) ≡ map_found f (get id sd)
unfolding get for_each_mut
get-for_each_mut f id sd =
    ap (lookup id) (get_or-map f sd.shards (get_shard id)) ∙ lookup-map_values id f (shard_at id sd)

pub for_each_mut-IsStore :
    (f : Drone → Drone) (sd : ShardedDrones) → IsStore sd → IsStore (for_each_mut f sd)
unfolding map_found for_each_mut
for_each_mut-IsStore f sd v = record {
  size = length-map (map_values f) sd.shards ∙ v.size;
  distinct =
      λ i. subst Unique (sym (get_or-map f sd.shards i)) (map_values-Unique f _ (v.distinct i));
  placed = λ i j ne.
      ap (lookup j) (get_or-map f sd.shards i)
      ∙ lookup-map_values j f (shard i sd)
      ∙ ap (map_found f) (v.placed i j ne);
}

pub new-IsStore : IsStore new_sharded_drones
unfolding new_sharded_drones lookup
new-IsStore = record {
  size = refl;
  distinct = λ i. subst Unique (sym (empty-get 16 i)) tt;
  placed = λ i id ne. ap (lookup id) (empty-get 16 i);
}

pub new-get : (id : Bytes) → get id new_sharded_drones ≡ none
unfolding get new_sharded_drones lookup
new-get id = ap (lookup id) (empty-get 16 (get_shard id))
