-- ===== src/Store/Plans.antt =====
-- internal/core/store.go: `mergeConfig`, `Plan`, `checkCapacityUpdate` and `Apply`.
pub mod Capacity
pub mod Merge
use Prim.Native.String.{◌++◌ as str_append}
use Capacity.{check_capacity}
use runner_loom.Base.{
  ℕ, ◌+◌, Bool, true, false, not, ◌&&◌, ◌||◌, String, Option, none, some, List, [], ◌∷◌, ◌++◌,
  str_eq, leb, Result, ok, err, fail, plain, ◌>>=◌, ◌>>◌, or_fail, require, is_some, if◌then◌else◌,
  ◌/◌, ◌%◌, ◌==◌, zero, suc, ltb,
}
use runner_loom.Base.Int64
use runner_loom.Base.Int64.{ℤ, pos, lt_ℤ, eq_ℤ, negsuc}
use runner_loom.Config.{Config, Node, Pool, Image, Reservation, find_node, find_pool, find_image}
use runner_loom.Config.Validate.{validate}
use runner_loom.Config.Validate.Check.{Platform}
use runner_loom.Store.{Store, Plan, read_config, read_instances, add_audit, seconds}

-- Each loop appends to the list in which it looks for the next name.
unfoldable pub merge_nodes : List Node → List Node → List Node
merge_nodes [] next = next
merge_nodes (v ∷ old) next =
    merge_nodes old (if is_some (find_node next v.name) then next else next ++ v ∷ [])

unfoldable pub merge_pools : List Pool → List Pool → List Pool
merge_pools [] next = next
merge_pools (v ∷ old) next =
    merge_pools old (if is_some (find_pool next v.name) then next else next ++ v ∷ [])

unfoldable pub merge_images : List Image → List Image → List Image
merge_images [] next = next
merge_images (v ∷ old) next =
    merge_images old (if is_some (find_image next v.name) then next else next ++ v ∷ [])

unfoldable pub has_reservation : List Reservation → String → Bool
has_reservation [] s = false
has_reservation (r ∷ rs) s = str_eq r.name s || has_reservation rs s

unfoldable pub merge_reservations : List Reservation → List Reservation → List Reservation
unfolding has_reservation
merge_reservations [] next = next
merge_reservations (v ∷ old) next =
    merge_reservations old (if has_reservation next v.name then next else next ++ v ∷ [])

unfoldable pub merge_config : Config → Config → Config
unfolding merge_nodes merge_pools merge_images merge_reservations
merge_config old next = record next {
  nodes = merge_nodes old.nodes next.nodes;
  pools = merge_pools old.pools next.pools;
  images = merge_images old.images next.images;
  reservations = merge_reservations old.reservations next.reservations;
}

-- `INSERT INTO plans`: the key is unique.
unfoldable pub has_plan : String → List Plan → Bool
has_plan id [] = false
has_plan id (p ∷ ps) = str_eq p.id id || has_plan id ps

-- Ten minutes.
abbrev pub plan_lifetime : ℕ
plan_lifetime = 600000000000

-- The column `expires` holds whole seconds.
unfoldable pub plan : Platform → ℕ → String → Config → Store → Result (Store × Plan)
unfolding has_plan
plan e now id c s = do
  validate e c
  let (old, r) = read_config s
  require (not (lt_ℤ (pos 0) r && not (str_eq old.name c.name))) (fail "CLUSTER_MISMATCH")
  let merged = merge_config old c
  validate e merged
  let p : Plan = record {
    id = id;
    base = r;
    expires = seconds (now + plan_lifetime);
    payload = merged;
    applied = none;
  }
  require (not (has_plan id s.plans)) (plain "UNIQUE constraint failed")
  ok (record s { plans = s.plans ++ p ∷ [] }, p)

unfoldable pub find_plan : String → List Plan → Option Plan
find_plan id [] = none
find_plan id (p ∷ ps) = if str_eq p.id id then some p else find_plan id ps

-- `UPDATE plans SET applied=? WHERE id=?`.
unfoldable pub mark_applied : String → ℤ → List Plan → List Plan
mark_applied id revision [] = []
mark_applied id revision (p ∷ ps) =
    (if str_eq p.id id then record p { applied = some revision } else p)
    ∷ mark_applied id revision ps

unfoldable pub digit : ℕ → String
digit n =
    if n == 0
    then "0"
    else if n == 1
    then "1"
    else if n == 2
    then "2"
    else if n == 3
    then "3"
    else if n == 4
    then "4"
    else if n == 5
    then "5"
    else if n == 6
    then "6"
    else if n == 7
    then "7"
    else if n == 8
    then "8"
    else "9"

-- The decimal digits of a number in front of a text, `left` of them at most.
unfoldable pub decimal : ℕ → ℕ → String → String
unfolding digit
decimal zero n text = text
decimal (suc left) n text =
    let rest = decimal left (n / 10) (str_append (digit (n % 10)) text) in
    if ltb n 10 then str_append (digit n) text else rest

-- `%d` of an int64, which has 19 digits at most.
unfoldable pub show_int : ℤ → String
unfolding decimal
show_int (pos n) = decimal 19 n ""
show_int (negsuc n) = str_append "-" (decimal 19 (suc n) "")

-- The change of the settings, when the plan does change them.
unfoldable pub commit : ℕ → Plan → ℤ → Store → Store
unfolding mark_applied show_int
commit now p revision s =
    add_audit now "config.apply" (str_append "revision:" (show_int revision)) (record s {
      settings = some (record { revision = revision; payload = p.payload });
      plans = mark_applied p.id revision s.plans;
    })

unfoldable pub apply_checked : Platform → (Config → String) → ℕ → Plan → Store → Result (Store × ℤ)
unfolding commit mark_applied
apply_checked e fingerprint now p s = do
  require (not (leb p.expires (seconds now))) (fail "PLAN_EXPIRED")
  let (previous, r) = read_config s
  require (eq_ℤ r p.base) (fail "REVISION_CONFLICT")
  validate e p.payload
  check_capacity p.payload (read_instances s)
  if str_eq (fingerprint previous) (fingerprint p.payload)
      then ok (record s { plans = mark_applied p.id r s.plans }, r)
      else ok (commit now p (Int64.add r (pos 1)) s, Int64.add r (pos 1))

-- `fingerprint` is the SHA-256 of the JSON text.
unfoldable pub apply : Platform → (Config → String) → ℕ → String → Store → Result (Store × ℤ)
unfolding find_plan apply_checked
apply e fingerprint now id s = do
  p ← or_fail (find_plan id s.plans) (fail "PLAN_NOT_FOUND")
  elim p.applied [ some revision ↦ ok (s, revision) | none ↦ apply_checked e fingerprint now p s ]
