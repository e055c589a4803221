-- ===== src/Reservations.antt =====
-- internal/core/reservations.go: which reservation a running VM is charged to, and what of a
-- reservation is still free.
use runner_loom.Base.{
  ℕ, suc, Bool, false, not, ◌&&◌, ◌||◌, String, Option, none, some, List, [], ◌∷◌, str_eq, Result,
  ok, err, fail, ◌>>=◌, ◌>>◌, or_fail, require, if◌then◌else◌,
}
use runner_loom.Base.Int64
use runner_loom.Base.Int64.{ℤ, pos, lt_ℤ}
use runner_loom.Resources
use runner_loom.Resources.{Resources}
use runner_loom.Config.{Config, Reservation, charge, find_pool}
use runner_loom.Instance.{Instance}

-- `byName[r.Name] = r` over the list: the last entry of a name counts.
unfoldable pub by_name : List Reservation → String → Option Reservation
by_name [] s = none
by_name (r ∷ rs) s = elim (by_name rs s) [
  | none ↦ if str_eq r.name s then some r else none
  | some q ↦ some q
]

-- The instance is charged to no reservation, or holds nothing any more.
unfoldable pub unreserved : Instance → Bool
unreserved a = str_eq a.reservation "" || Resources.empty a.held

unfoldable pub owns : Option Reservation → Instance → Bool
owns none a = false
owns (some r) a = str_eq r.node a.node && str_eq r.pool a.pool.name

unfoldable pub validate_owners : Config → List Instance → Result (Unit {0})
unfolding unreserved owns by_name
validate_owners c [] = ok tt
validate_owners c (a ∷ runs) =
    let rest = validate_owners c runs in
    if unreserved a || owns (by_name c.reservations a.reservation) a
    then rest
    else err (fail "RESERVATION_BUSY")

pub record Tally : Type 0 where
  pub used : ℕ
  pub held : Resources

-- An instance counts against the reservation it names until it holds nothing.
unfoldable pub charged : Reservation → Instance → Bool
charged r a = str_eq a.reservation r.name && not (Resources.empty a.held)

unfoldable pub consistent : Reservation → Resources → Instance → Bool
consistent r size a =
    str_eq a.node r.node && str_eq a.pool.name r.pool && Resources.fits a.held size

-- The loop of `reservationProtection`; `used` counts entries of a slice, and does not wrap.
unfoldable pub tally : Reservation → Resources → Tally → List Instance → Result Tally
unfolding charged consistent
tally r size t [] = ok t
tally r size t (a ∷ runs) =
    let counted =
      tally r size (record { used = suc t.used; held = Resources.add t.held a.held }) runs in
    let skipped = tally r size t runs in
    if charged r a
    then (if consistent r size a then counted else err (fail "RESERVATION_INCONSISTENT"))
    else skipped

unfoldable pub protection : Config → Reservation → List Instance → Result (Resources × ℤ)
unfolding tally
protection c r runs = do
  p ← or_fail (find_pool c.pools r.pool) (fail "RESERVATION_INCONSISTENT")
  t ← tally r (charge p) (record { used = 0; held = Resources.zero }) runs
  require (not (lt_ℤ r.slots (pos t.used))) (fail "RESERVATION_BUSY")
  ok (Resources.sub (Resources.mul (charge p) r.slots) t.held, Int64.sub r.slots (pos t.used))
