-- ===== src/Ledger/Sums.antt =====
-- A Node's VMs counted by reservation: what they hold is what the free ones hold and, for each
-- reservation on the Node, what its VMs hold.
use runner_loom.Base.{
  ℕ, ◌+◌, true, false, ◌&&◌, String, List, [], ◌∷◌, ◌≡◌, refl, ap, inl, inr, str_eq, contains, sum,
  All, In, All_of_In, arith, eq_iff, if◌then◌else◌,
}
use runner_loom.Base.Int64.{pos, pos_part}
use runner_loom.Resources.Laws.{Kind, at, amount, empty-amount}
use runner_loom.Config.{Reservation}
use runner_loom.Instance.{Instance}
use runner_loom.Ledger.{held_sum, free_sum, charged_sum, names, Unique, Owner, IsOwned}

module _ {A : Type 0} where
  pub sum-plus : (f g : A → ℕ) (xs : List A) → sum (λ x. f x + g x) xs ≡ sum f xs + sum g xs
  sum-plus f g [] = omega arith
  sum-plus f g (x ∷ xs) = omega (arith, sum-plus f g xs)

  pub sum-zero : (xs : List A) → sum (λ (x : A). 0) xs ≡ 0
  sum-zero [] = refl
  sum-zero (x ∷ xs) = omega (arith, sum-zero xs)

-- What one VM adds to the reservations on a Node.
abbrev share : Kind → String → Instance → List Reservation → ℕ
share k node a = sum λ r.
    if str_eq r.node node then (if str_eq a.reservation r.name then amount k a.held else 0) else 0

share_absent :
    (k : Kind) (node : String) (a : Instance) (rs : List Reservation)
    → contains (names rs) a.reservation ≡ false
    → share k node a rs ≡ 0
share_absent k node a [] h = refl
share_absent k node a (r ∷ rs) h =
    ground
      (arith, share_absent k node a rs, eq_iff r.name a.reservation, eq_iff a.reservation r.name)

contains-In :
    (s : String) (rs : List Reservation) (r : Reservation)
    → In r rs
    → s ≡ r.name
    → contains (names rs) s ≡ true
contains-In s [] r m e = absurd m
contains-In s (q ∷ rs) r m e =
    ground (
      arith,
      contains-In s rs r,
      eq_iff q.name s,
      λ (p : q ≡ r). ap (λ (x : Reservation). x.name) p,
    )

share_present :
    (k : Kind) (node : String) (a : Instance) (r : Reservation) (rs : List Reservation)
    → Unique rs
    → In r rs
    → Owner r a
    → share k node a rs ≡ (if str_eq a.node node then amount k a.held else 0)
share_present k node a r [] u m o = absurd m
share_present k node a r (q ∷ rs) u (inl e) o = ground (
  arith,
  share_absent k node a rs,
  ap (λ (x : Reservation). x.name) e,
  ap (λ (x : Reservation). x.node) e,
  eq_iff a.reservation q.name,
)
share_present k node a r (q ∷ rs) u (inr m) o = ground (
  arith,
  share_present k node a r rs u.1 m o,
  contains-In r.name rs r,
  eq_iff a.reservation q.name,
)

share_unnamed :
    (k : Kind) (node : String) (a : Instance) (rs : List Reservation)
    → All (λ r. str_eq r.name "" ≡ false) rs
    → str_eq a.reservation "" ≡ true
    → share k node a rs ≡ 0
share_unnamed k node a [] h e = refl
share_unnamed k node a (r ∷ rs) h e = ground (
  arith,
  share_unnamed k node a rs h.1 e,
  eq_iff a.reservation r.name,
  eq_iff a.reservation "",
  eq_iff r.name "",
)

share_empty :
    (k : Kind) (node : String) (a : Instance) (rs : List Reservation)
    → at k a.held ≡ pos 0
    → share k node a rs ≡ 0
share_empty k node a [] e = refl
share_empty k node a (r ∷ rs) e = ground (arith, share_empty k node a rs e, ap pos_part e)

share_owned :
    (k : Kind) (node : String) (a : Instance) (rs : List Reservation)
    → All (λ r. str_eq r.name "" ≡ false) rs
    → Unique rs
    → IsOwned rs a
    → share k node a rs
        + (if str_eq a.node node && str_eq a.reservation "" then amount k a.held else 0)
      ≡ (if str_eq a.node node then amount k a.held else 0)
share_owned k node a rs nm u (inl e) = ground (arith, share_unnamed k node a rs nm e)
share_owned k node a rs nm u (inr (inl e)) =
    let z = empty-amount k a.held e in ground (arith, share_empty k node a rs z, ap pos_part z)
share_owned k node a rs nm u (inr (inr (r, m, o))) =
    ground (arith, share_present k node a r rs u m o, not_unnamed r rs nm m, o.same_name)
  where
    not_unnamed :
        (r : Reservation) (rs : List Reservation)
        → All (λ r. str_eq r.name "" ≡ false) rs
        → In r rs
        → str_eq r.name "" ≡ false
    not_unnamed r rs h m = All_of_In (λ r. str_eq r.name "" ≡ false) rs h m

-- What the reservations on a Node have in use.
abbrev pub charged_on : Kind → String → List Instance → List Reservation → ℕ
charged_on k node runs = sum λ r. if str_eq r.node node then charged_sum k r runs else 0

charged_on-cons :
    (k : Kind) (node : String) (a : Instance) (runs : List Instance) (rs : List Reservation)
    → charged_on k node (a ∷ runs) rs ≡ share k node a rs + charged_on k node runs rs
charged_on-cons k node a runs [] = refl
charged_on-cons k node a runs (r ∷ rs) = ground (arith, charged_on-cons k node a runs rs)

charged_on-nil : (k : Kind) (node : String) (rs : List Reservation) → charged_on k node [] rs ≡ 0
charged_on-nil k node [] = refl
charged_on-nil k node (r ∷ rs) = ground (arith, charged_on-nil k node rs)

-- All that a Node's VMs hold is either free or in the slots of the Node's reservations.
pub held_sum-split :
    (k : Kind) (node : String) (rs : List Reservation) (runs : List Instance)
    → All (λ r. str_eq r.name "" ≡ false) rs
    → Unique rs
    → All (IsOwned rs) runs
    → held_sum k node runs ≡ free_sum k node runs + charged_on k node runs rs
held_sum-split k node rs [] nm u h = omega (arith, charged_on-nil k node rs)
held_sum-split k node rs (a ∷ runs) nm u h = omega (
  arith,
  held_sum-split k node rs runs nm u h.1,
  charged_on-cons k node a runs rs,
  share_owned k node a rs nm u h.0,
)
