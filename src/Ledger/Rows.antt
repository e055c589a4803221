-- ===== src/Ledger/Rows.antt =====
-- The ledger does not depend on where a new row stands in the table.
use runner_loom.Base.{ℕ, ◌+◌, List, [], ◌∷◌, ◌≡◌, refl, sum, In, arith}
use runner_loom.Config.{Config}
use runner_loom.Instance.{Instance}
use runner_loom.Ledger.{Ledger}
use runner_loom.Ledger.Alike.{Alike, Ledger-Alike}
use runner_loom.Store.{InstanceRow, payloads, place_row}

sum-place_row :
    (f : Instance → ℕ) (r : InstanceRow) (rows : List InstanceRow)
    → sum f (payloads (place_row r rows)) ≡ f r.payload + sum f (payloads rows)
unfolding place_row
sum-place_row f r [] = refl
sum-place_row f r (q ∷ rows) = ground (arith, sum-place_row f r rows)

place_row-In :
    (b : Instance) (r : InstanceRow) (rows : List InstanceRow)
    → In b (payloads (place_row r rows))
    → In b (r.payload ∷ payloads rows)
unfolding place_row
place_row-In b r [] m = m
place_row-In b r (q ∷ rows) m = ground (arith, place_row-In b r rows)

In-place_row :
    (b : Instance) (r : InstanceRow) (rows : List InstanceRow)
    → In b (r.payload ∷ payloads rows)
    → In b (payloads (place_row r rows))
unfolding place_row
In-place_row b r [] m = m
In-place_row b r (q ∷ rows) m = ground (arith, In-place_row b r rows)

pub place_row-Alike :
    (r : InstanceRow) (rows : List InstanceRow)
    → Alike (payloads (place_row r rows)) (r.payload ∷ payloads rows)
place_row-Alike r rows = record {
  same_sums = λ f. sum-place_row f r rows;
  members = λ b m. place_row-In b r rows m;
  members_back = λ b m. In-place_row b r rows m;
}

pub Ledger-place_row :
    (c : Config) (r : InstanceRow) (rows : List InstanceRow)
    → Ledger c (r.payload ∷ payloads rows)
    → Ledger c (payloads (place_row r rows))
Ledger-place_row c r rows l =
    Ledger-Alike c (payloads (place_row r rows)) (r.payload ∷ payloads rows)
      (place_row-Alike r rows) l
