-- ===== src/Scheduler.antt =====
-- internal/core/store.go: `candidates`, which says of every Node whether a Pool's next VM can go
-- there and why not, and orders the Nodes by preference. `Scheduler.Place` is `placeTx` of task.go.
pub mod Place
pub mod Order
pub mod Choice
use runner_loom.Base.{
  ℕ, zero, suc, ◌+◌, ◌-◌, Bool, true, false, not, ◌&&◌, ◌||◌, String, Option, none, some, List, [],
  ◌∷◌, ◌++◌, str_eq, str_lt, contains, ltb, is_empty, Result, ok, err, if◌then◌else◌,
}
use runner_loom.Base.Int64
use runner_loom.Base.Int64.{ℤ, pos, lt_ℤ, le_ℤ, eq_ℤ}
use runner_loom.Resources
use runner_loom.Resources.{Resources}
use runner_loom.Config.{Config, Pool, Node, Reservation, charge, eligible, image_or_zero}
use runner_loom.Instance.{Instance, Observation}
use runner_loom.Reservations.{validate_owners, protection}

pub data Reason : Type 0 where
  reservation_inconsistent pool_disabled node_not_allowed pool_limit node_not_ready : Reason
  network_not_verified local_ceiling image_missing insufficient_budget : Reason
  insufficient_physical_disk : Reason

pub record Candidate : Type 0 where
  pub node : String
  pub available : Resources
  pub reservation : String
  pub reasons : List Reason

-- `map[string]Observation` as an association list.
abbrev pub Observations : Type 0
Observations = List (String × Observation)

unfoldable pub observed : Observations → String → Option Observation
observed [] s = none
observed ((k, o) ∷ obs) s = if str_eq k s then some o else observed obs s

abbrev pub no_observation : Observation
no_observation = record {
  node = "";
  boot_id = "";
  sequence = pos 0;
  seen = 0;
  ready = false;
  drained = false;
  isolation = false;
  ceiling = Resources.zero;
  free_disk_gib = pos 0;
  digests = [];
  instances = [];
  error = "";
}

-- 45 seconds.
abbrev pub freshness : ℕ
freshness = 45000000000

-- The instance still holds something of this pool's share.
unfoldable pub holds_pool : String → Instance → Bool
holds_pool pool a = str_eq a.pool.name pool && not (Resources.empty a.held)

-- `count` is at most the length of a slice, and does not wrap.
unfoldable pub pool_count : String → List Instance → ℕ
unfolding holds_pool
pool_count pool [] = 0
pool_count pool (a ∷ runs) =
    let rest = pool_count pool runs in if holds_pool pool a then suc rest else rest

unfoldable pub held_on : String → Resources → List Instance → Resources
held_on node acc [] = acc
held_on node acc (a ∷ runs) =
    held_on node (if str_eq a.node node then Resources.add acc a.held else acc) runs

pub record Share : Type 0 where
  pub unused : Resources
  pub reservation : String
  pub reasons : List Reason

-- One round of the loop over the reservations, on a reservation of this Node.
unfoldable pub add_share : Pool → Reservation → Result (Resources × ℤ) → Share → Share
add_share p r (err e) s = record s { reasons = s.reasons ++ reservation_inconsistent ∷ [] }
add_share p r (ok (protected, slots)) s = record s {
  unused = Resources.add s.unused protected;
  reservation =
      if lt_ℤ (pos 0) slots && str_eq r.pool p.name && str_eq s.reservation ""
      then r.name
      else s.reservation;
}

unfoldable pub shares : Config → Pool → Node → List Instance → Share → List Reservation → Share
unfolding add_share
shares c p n runs s [] = s
shares c p n runs s (r ∷ rs) =
    shares c p n runs (if str_eq r.node n.name then add_share p r (protection c r runs) s else s) rs

unfoldable pub reason_if : Bool → Reason → List Reason
reason_if true reason = reason ∷ []
reason_if false reason = []

unfoldable pub ready_at : ℕ → Option Observation → Bool
ready_at now none = false
ready_at now (some o) =
    o.ready && not o.drained && not (ltb freshness (now - o.seen)) && not (ltb now o.seen)

abbrev pub or_zero : Option Observation → Observation
or_zero none = no_observation
or_zero (some o) = o

abbrev pub owners_fail : Result (Unit {0}) → Bool
owners_fail (ok _) = false
owners_fail (err _) = true

-- The reasons that do not depend on the resources in use.
unfoldable pub standing : Config → Pool → Node → List Instance → Observations → ℕ → List Reason
unfolding reason_if ready_at
standing c p n runs obs now =
    reason_if (owners_fail (validate_owners c runs)) reservation_inconsistent
    ++ (reason_if (not p.enabled) pool_disabled
        ++ (reason_if (not (eligible p n)) node_not_allowed
            ++ (reason_if (le_ℤ p.max_runners (pos (pool_count p.name runs))) pool_limit
                ++ (reason_if (not (ready_at now (observed obs n.name))) node_not_ready
                    ++ (reason_if (not o.isolation) network_not_verified
                        ++ (reason_if (not (Resources.fits n.budget o.ceiling)) local_ceiling
                            ++ reason_if (not (contains o.digests (image_or_zero c p.image).digest))
                                image_missing))))))
  where
    o : Observation
    o = or_zero (observed obs n.name)

unfoldable pub share_of : Config → Pool → Node → List Instance → Share
share_of c p n runs =
    shares c p n runs (record { unused = Resources.zero; reservation = ""; reasons = [] })
      c.reservations

-- What the Node can still give: its budget less all that is held or kept for a reservation, plus
-- the slot's own size if the VM goes into a reserved slot.
unfoldable pub available : Pool → Node → Resources → Share → Resources
available p n held s =
    let rest = Resources.sub (Resources.sub n.budget held) s.unused in
    if str_eq s.reservation "" then rest else Resources.add rest (charge p)

unfoldable pub physical : Pool → Observation → Resources → Share → ℤ
physical p o held s =
    let rest = Int64.sub (Int64.sub (Int64.sub o.free_disk_gib (pos 2)) held.disk) s.unused.disk in
    if str_eq s.reservation "" then rest else Int64.add rest (charge p).disk

unfoldable pub candidate : Config → Pool → List Instance → Observations → ℕ → Node → Candidate
unfolding standing reason_if available physical
candidate c p runs obs now n = record {
  node = n.name;
  available = room;
  reservation = s.reservation;
  reasons =
      standing c p n runs obs now
      ++ (s.reasons
          ++ (reason_if (not (Resources.fits (charge p) room)) insufficient_budget
              ++ reason_if
                  (lt_ℤ (physical p (or_zero (observed obs n.name)) held s) (charge p).disk)
                  insufficient_physical_disk));
}
  where
    held : Resources
    held = held_on n.name Resources.zero runs

    s : Share
    s = share_of c p n runs

    room : Resources
    room = available p n held s

pub rows_of : Config → Pool → List Instance → Observations → ℕ → List Node → List Candidate
rows_of c p runs obs now [] = []
rows_of c p runs obs now (n ∷ ns) = candidate c p runs obs now n ∷ rows_of c p runs obs now ns

xor : Bool → Bool → Bool
xor true b = not b
xor false b = b

-- The order of `sort.Slice`: usable Nodes first, then a reserved slot, then the tightest fit.
unfoldable pub before : Candidate → Candidate → Bool
unfolding xor
before a b =
    if xor (is_empty a.reasons) (is_empty b.reasons)
    then is_empty a.reasons
    else if xor (str_eq a.reservation "") (str_eq b.reservation "")
    then not (str_eq a.reservation "")
    else if not (eq_ℤ a.available.memory b.available.memory)
    then lt_ℤ a.available.memory b.available.memory
    else str_lt a.node b.node

-- `sort.Slice`, of which the program uses only that the result is in order.
unfoldable pub insert : Candidate → List Candidate → List Candidate
insert a [] = a ∷ []
insert a (b ∷ bs) = if before b a then b ∷ insert a bs else a ∷ b ∷ bs

unfoldable pub sort : List Candidate → List Candidate
unfolding insert
sort [] = []
sort (a ∷ rest) = insert a (sort rest)

unfoldable pub candidates : Config → Pool → List Instance → Observations → ℕ → List Candidate
unfolding rows_of sort
candidates c p runs obs now = sort (rows_of c p runs obs now c.nodes)
