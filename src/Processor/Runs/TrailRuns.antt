-- ===== src/Processor/Runs/TrailRuns.antt =====
-- Runs of the trails of internal/processor/trails.go, and their theorems at concrete samples.
use skylens_azure.Common.{
  ℕ, ◌≡◌, refl, bytes_discrete, codes, none, some, List, [], ◌∷◌, length, arith, map, ◌*◌,
}
use skylens_azure.Common.Int.{ℤ, pos, negsuc, sub_ℕ, abs}
use skylens_azure.Common.Maps.{lookup, delete, Unique}
use skylens_azure.Processor.Trails.{
  PositionSample, DroneTrail, TrailConfig, TrailManager, new_trail, new_trail_manager, add_sample,
  is_duplicate, trim, cleanup, stale_ids, delete_all,
}
use skylens_azure.Processor.Trails.Spacing.{IsTrail, feed, feed-IsTrail, add_sample-grows_small}
use skylens_azure.Processor.Trails.Manager.{Op, records, cleans, run, follow_all, lookup-run}

-- A distance for the runs: that of the latitudes.
abbrev north : ℤ → ℤ → ℤ → ℤ → ℕ
north (pos a) _ (pos b) _ = abs (sub_ℕ a b) * 11
north _ _ _ _ = 0

abbrev sample : ℕ → ℕ → PositionSample
sample time lat = record {
  time = time;
  lat = pos lat;
  lon = pos 7;
  alt = pos 0;
  alt_agl = pos 0;
  speed = pos 0;
  heading = pos 0;
  v_speed = pos 0;
  rssi = negsuc 60;
  tap_id = codes "TAP-1";
}

abbrev config : TrailConfig
config = record { max_size = 10; min_interval = 5; min_distance = 100 }

-- A sample, one too soon, one too near, and one that is far enough.
abbrev samples : List (PositionSample × ℕ)
samples = (sample 10 100, 10) ∷ (sample 12 300, 12) ∷ (sample 20 101, 20) ∷ (sample 21 200, 21) ∷ []

feed_runs : map (λ s. s.time) (feed north (new_trail config) samples).samples ≡ 10 ∷ 21 ∷ []
unfolding feed add_sample is_duplicate trim
feed_runs = refl

feed-IsTrail_example : IsTrail north config (feed north (new_trail config) samples)
feed-IsTrail_example = feed-IsTrail north config samples

abbrev tiny : DroneTrail
tiny = record (new_trail config) {
  max_size = 1;
  samples = sample 10 100 ∷ sample 21 200 ∷ [];
  last_sample = some (sample 21 200);
}

add_sample-grows_small_example : length (add_sample north tiny (sample 40 400) 40).0.samples ≡ 3
unfolding add_sample is_duplicate trim
add_sample-grows_small_example =
    add_sample-grows_small north tiny (sample 40 400) 40 (omega arith) refl

abbrev manager : TrailManager
manager = record {
  trails =
      (codes "a", tiny)
      ∷ (codes "b", new_trail config)
      ∷ (codes "c", record tiny { samples = sample 90 5 ∷ [] })
      ∷ [];
  config = config;
  max_age = 50;
}

manager-Unique : Unique manager.trails
manager-Unique = ground arith

cleanup_runs : map (λ p. p.0) (cleanup manager 100).trails ≡ codes "c" ∷ []
unfolding cleanup stale_ids delete_all delete bytes_discrete
cleanup_runs = refl

abbrev ops : List Op
ops =
    records (codes "a") (sample 10 100) 10
    ∷ records (codes "b") (sample 12 100) 12
    ∷ records (codes "a") (sample 30 500) 30
    ∷ cleans 1_000_000_000_000
    ∷ []

lookup-run_example :
    lookup (codes "a") (run north (new_trail_manager config) ops).trails
    ≡ follow_all north config (codes "a") none ops
lookup-run_example = lookup-run north config (codes "a") ops
