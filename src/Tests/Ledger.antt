-- ===== src/Tests/Ledger.antt =====
-- The ledger of the example cluster through an allocation, a stop and a deletion.
use runner_loom.Base.{ℕ, [], ◌≡◌, refl, ok, arith}
use runner_loom.Base.Int64
use runner_loom.Base.Int64.{pos}
use runner_loom.Resources
use runner_loom.Resources.Laws.{cpus, memories, disks}
use runner_loom.Config.{charge, find_pool, eligible, image_or_zero}
use runner_loom.Instance.{Instance}
use runner_loom.Reservations.{protection, validate_owners}
use runner_loom.Scheduler.{
  candidates, candidate, share_of, shares, held_on, pool_count, standing, reason_if, observed, sort,
}
use runner_loom.Scheduler.Place.{place, after_minutes}
use runner_loom.Store.{Store, read_config, insert_instance, observations_of}
use runner_loom.Store.Allocate.{allocate}
use runner_loom.Ledger.{IsSound, Ledger}
use runner_loom.Safety.{IsSafe}
use runner_loom.Safety.Operations.{allocate-IsSafe}
use runner_loom.Tests.Fixtures.{value, home, home_store, no_instance}

pub home-IsSound : IsSound home
unfolding charge Int64.add
home-IsSound = record {
  named = (refl, tt);
  unique = (refl, tt);
  nodes_distinct = (refl, tt);
  pools_distinct = (refl, (refl, tt));
  targets = (refl, tt);
  slots_small = omega arith;
  slots_nonneg = omega arith;
  sizes_nonneg = omega arith;
  sizes_small = elim [ cpus ↦ omega arith | memories ↦ omega arith | disks ↦ omega arith ];
  budgets_nonneg = omega arith;
  budgets_small = elim [ cpus ↦ omega arith | memories ↦ omega arith | disks ↦ omega arith ];
  limits_nonneg = omega arith;
}

pub home-Ledger : Ledger home []
unfolding charge Int64.add find_pool pool_count
home-Ledger = record {
  nonneg = tt;
  owned = tt;
  in_slots = (tt, tt);
  slots_suffice = omega arith;
  within_budget = elim [ cpus ↦ omega arith | memories ↦ omega arith | disks ↦ omega arith ];
  within_limits = omega arith;
}

pub home_store-IsSafe : IsSafe home_store
unfolding read_config
home_store-IsSafe = record { sound = home-IsSound; ledger = home-Ledger; distinct = tt }

-- One second later.
abbrev pub now : ℕ
now = 1000000000

unfoldable pub first : Store × Instance
unfolding allocate read_config find_pool place candidates candidate share_of held_on pool_count
    observed validate_owners protection insert_instance observations_of standing reason_if sort
    image_or_zero eligible shares charge Int64.add Int64.sub Int64.mul Resources.fits Resources.add
    Resources.sub Resources.mul Resources.empty after_minutes
first = value (allocate now "aa" "request-1" "linux-lite" home_store) (home_store, no_instance)

pub first_eq : allocate now "aa" "request-1" "linux-lite" home_store ≡ ok (first.0, first.1)
unfolding first
first_eq = refl

pub first-IsSafe : IsSafe first.0
first-IsSafe =
    allocate-IsSafe now "aa" "request-1" "linux-lite" home_store first.0 first.1 home_store-IsSafe
      first_eq

allocate-IsSafe_example : IsSafe first.0
allocate-IsSafe_example =
    allocate-IsSafe now "aa" "request-1" "linux-lite" home_store first.0 first.1 home_store-IsSafe
      first_eq
