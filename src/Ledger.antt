-- ===== src/Ledger.antt =====
-- What the resource ledger of internal/core promises, in natural numbers: on every Node what runs
-- outside a reservation and all reserved slots together fit in the budget, every VM in a reserved
-- slot is counted there, and no Pool has more VMs than its limit.
pub mod Sums
pub mod Exact
pub mod Shares
pub mod Loop
pub mod Shrink
pub mod Place
pub mod Grow
pub mod Allocate
pub mod Rows
pub mod Alike
pub mod Admit
pub mod Capacity
use Prim.Native.Nat.{suc}
use runner_loom.Base.{
  ℕ, ◌+◌, ◌*◌, ◌≤◌, ◌<◌, Bool, true, false, not, ◌&&◌, String, Option, none, some, List, [], ◌∷◌,
  ◌≡◌, ◌⊎◌, str_eq, contains, sum, All, In, if◌then◌else◌,
}
use runner_loom.Base.Int64.{pos_part, neg_part, two63}
use runner_loom.Resources
use runner_loom.Resources.{Resources}
use runner_loom.Resources.Laws.{Kind, at, amount, IsNonneg}
use runner_loom.Config.{Config, Node, Pool, Reservation, charge, find_pool}
use runner_loom.Instance.{Instance}
use runner_loom.Reservations.{charged}
use runner_loom.Scheduler.{pool_count}

-- The size of a Pool's VM, zero for a missing Pool.
abbrev pub size_of : Option Pool → Resources
size_of none = Resources.zero
size_of (some p) = charge p

abbrev pub size : Config → Reservation → Resources
size c r = size_of (find_pool c.pools r.pool)

-- Held by the VMs of a Node.
abbrev pub held_sum : Kind → String → List Instance → ℕ
held_sum k node = sum (λ a. if str_eq a.node node then amount k a.held else 0)

-- Held by those of them that have no reservation.
abbrev pub free_sum : Kind → String → List Instance → ℕ
free_sum k node =
    sum (λ a. if str_eq a.node node && str_eq a.reservation "" then amount k a.held else 0)

-- Held by the VMs of a reservation, and how many they are.
abbrev pub charged_sum : Kind → Reservation → List Instance → ℕ
charged_sum k r = sum (λ a. if str_eq a.reservation r.name then amount k a.held else 0)

abbrev pub used : Reservation → List Instance → ℕ
used r = sum (λ a. if charged r a then 1 else 0)

abbrev pub slot_size : Kind → Config → Reservation → ℕ
slot_size k c r = amount k (size c r) * pos_part r.slots

-- All slots that are reserved on a Node.
abbrev pub reserved_sum : Kind → Config → String → List Reservation → ℕ
reserved_sum k c node = sum (λ r. if str_eq r.node node then slot_size k c r else 0)

-- The names of a list, and that none stands twice.
abbrev pub keys : {A : Type 0} → (A → String) → List A → List String
keys f [] = []
keys f (x ∷ xs) = f x ∷ keys f xs

abbrev pub Distinct : {A : Type 0} → (A → String) → List A → Type 0
Distinct f [] = Unit {0}
Distinct f (x ∷ xs) = (contains (keys f xs) (f x) ≡ false) × Distinct f xs

abbrev pub names : List Reservation → List String
names = keys λ r. r.name

abbrev pub Unique : List Reservation → Type 0
Unique = Distinct λ r. r.name

-- A reservation belongs to the VM: same Node, same Pool.
pub record Owner (r : Reservation) (a : Instance) : Type 0 where
  pub same_name : a.reservation ≡ r.name
  pub same_node : a.node ≡ r.node
  pub same_pool : a.pool.name ≡ r.pool

abbrev pub IsOwned : List Reservation → Instance → Type 0
IsOwned rs a =
    (str_eq a.reservation "" ≡ true)
    ⊎ ((Resources.empty a.held ≡ true) ⊎ ((r : Reservation) × In r rs × Owner r a))

-- What `Config.Validate` makes sure of, as far as the ledger needs it.
pub record IsSound (c : Config) : Type 0 where
  pub named : All (λ r. str_eq r.name "" ≡ false) c.reservations
  pub unique : Unique c.reservations
  pub nodes_distinct : Distinct (λ n. n.name) c.nodes
  pub pools_distinct : Distinct (λ p. p.name) c.pools
  pub targets : All (λ r. contains (keys (λ n. n.name) c.nodes) r.node ≡ true) c.reservations
  pub slots_small : All (λ r. pos_part r.slots ≤ 10000) c.reservations
  pub slots_nonneg : All (λ r. neg_part r.slots ≡ 0) c.reservations
  pub sizes_nonneg : All (λ p. IsNonneg (charge p)) c.pools
  pub sizes_small : (k : Kind) → All (λ p. amount k (charge p) ≤ 4294967296) c.pools
  pub budgets_nonneg : All (λ n. IsNonneg n.budget) c.nodes
  pub budgets_small : (k : Kind) → All (λ n. amount k n.budget ≤ 4294967296) c.nodes
  pub limits_nonneg : All (λ p. neg_part p.max_runners ≡ 0) c.pools

-- A VM in a reserved slot is no larger than the slot.
abbrev pub InSlot : Config → List Instance → Reservation → Type 0
InSlot c runs r = All (λ a. charged r a ≡ true → Resources.fits a.held (size c r) ≡ true) runs

pub record Ledger (c : Config) (runs : List Instance) : Type 0 where
  pub nonneg : All (λ a. IsNonneg a.held) runs
  pub owned : All (IsOwned c.reservations) runs
  pub in_slots : All (InSlot c runs) c.reservations
  pub slots_suffice : All (λ r. used r runs ≤ pos_part r.slots) c.reservations
  pub within_budget :
      (k : Kind)
      → All
          (λ n. free_sum k n.name runs + reserved_sum k c n.name c.reservations ≤ amount k n.budget)
          c.nodes
  pub within_limits : All (λ p. pool_count p.name runs ≤ pos_part p.max_runners) c.pools
