-- ===== src/Ledger/Admit.antt =====
-- internal/core/store.go: what `checkCapacityUpdate` accepts keeps the ledger.
use runner_loom.Base.{
  ℕ, ◌+◌, ◌-◌, ◌≤◌, ◌<◌, true, false, ◌||◌, String, some, List, [], ◌∷◌, ◌≡◌, refl, ap, ◌∙◌, sym,
  inl, inr, str_eq, All, In, arith, Bool-cases, Option-cases, eq_iff, ok, ok-injective, >>=-eq-ok,
  require-eq-ok,
}
use runner_loom.Base.Int64.{pos, pos_part, neg_part, lt_ℤ, two63}
use runner_loom.Resources
use runner_loom.Resources.{Resources}
use runner_loom.Resources.Laws.{Kind, at, amount, IsNonneg, at-IsNonneg, fits-le}
use runner_loom.Config.{Config, Pool, Node, Reservation, find_pool}
use runner_loom.Instance.{Instance}
use runner_loom.Reservations.{by_name, protection}
use runner_loom.Scheduler.{pool_count, held_on}
use runner_loom.Store.Plans.Capacity.{limits, running_on, reserved_on, node_fits, unchanged}
use runner_loom.Ledger.{
  IsOwned, Unique, size, slot_size, free_sum, held_sum, charged_sum, reserved_sum,
}
use runner_loom.Ledger.Sums.{charged_on, held_sum-split}
use runner_loom.Ledger.Exact.{add_exact_at, held_on-exact}
use runner_loom.Ledger.Shares.{granted, Granted-kept, Granted-charged_sum, zero-at}
use runner_loom.Ledger.Loop.{Kept, unused_sum}

pub by_name-In :
    (rs : List Reservation) (s : String) (r : Reservation)
    → by_name rs s ≡ some r
    → In r rs × (r.name ≡ s)
unfolding by_name
by_name-In [] s r h = cc
by_name-In (q ∷ rs) s r h = elim (Option-cases (by_name rs s)) [
  | inr (x, e) ↦ let (m, n) = by_name-In rs s r (e ∙ rw (e, by_name) at h) in (inr m, n)
  | inl e ↦ elim (Bool-cases (str_eq q.name s)) [
    | inl f ↦
        let p : q ≡ r = cc (rw f at (rw (e, by_name) at h)) in
        (inl p, ap (λ (x : Reservation). x.name) (sym p) ∙ (eq_iff q.name s).0 f)
    | inr f ↦ cc (rw f at (rw (e, by_name) at h))
  ]
]

pub limits-ok :
    (runs : List Instance) (ps : List Pool)
    → All (λ p. neg_part p.max_runners ≡ 0) ps
    → limits runs ps ≡ ok tt
    → All (λ p. pool_count p.name runs ≤ pos_part p.max_runners) ps
unfolding limits
limits-ok runs [] n h = tt
limits-ok runs (p ∷ ps) n h =
    elim (Bool-cases (lt_ℤ p.max_runners (pos (pool_count p.name runs)))) [
      | inl e ↦ cc (rw (e, limits) at h)
      | inr e ↦ (ground arith, limits-ok runs ps n.1 (rw (e, limits) at h))
    ]

running_on-held_on :
    (c : Config) (n : Node) (acc held : Resources) (runs : List Instance)
    → running_on c n acc runs ≡ ok held
    → held ≡ held_on n.name acc runs
unfolding running_on held_on
running_on-held_on c n acc held [] h = sym (ok-injective h)
running_on-held_on c n acc held (a ∷ runs) h = elim (Bool-cases (str_eq a.node n.name)) [
  | inr e ↦ rw e (running_on-held_on c n acc held runs (rw (e, running_on) at h))
  | inl e ↦
      elim (Bool-cases (Resources.empty a.held || unchanged c (find_pool c.pools a.pool.name) a)) [
        | inl f ↦ rw e (
            running_on-held_on c n (Resources.add acc a.held) held runs
              (rw f at (rw (e, running_on) at h)))
        | inr f ↦ cc (rw f at (rw (e, running_on) at h))
      ]
]

-- The protections that `checkCapacityUpdate` adds up on a Node.
reserved_on-Kept :
    (c : Config) (n : Node) (runs : List Instance) (held all : Resources) (rs : List Reservation)
    → reserved_on c n runs held rs ≡ ok all
    → All (λ r. str_eq r.node n.name ≡ true → Kept c r runs) rs
unfolding reserved_on
reserved_on-Kept c n runs held all [] h = tt
reserved_on-Kept c n runs held all (r ∷ rs) h = elim (Bool-cases (str_eq r.node n.name)) [
  | inr e ↦ (λ on. cc, reserved_on-Kept c n runs held all rs (rw (e, reserved_on) at h))
  | inl e ↦
      let ((kept, left), p, q) = >>=-eq-ok (protection c r runs) _ (rw (e, reserved_on) at h) in
      (
        λ on. record { kept = kept; left = left; granted_eq = p },
        reserved_on-Kept c n runs (Resources.add held kept) all rs q,
      )
]

module _ (c : Config) (runs : List Instance) (nonneg : All (λ a. IsNonneg a.held) runs) where
  abbrev pub Readable : Reservation → Type 0
  Readable r = (neg_part r.slots ≡ 0) × IsNonneg (size c r)

  reserved_on-exact :
      (k : Kind) (n : Node) (held all : Resources) (rs : List Reservation) (x : ℕ)
      → reserved_on c n runs held rs ≡ ok all
      → All Readable rs
      → at k held ≡ pos x
      → x + reserved_sum k c n.name rs < two63
      → at k all ≡ pos (x + unused_sum k c n.name runs rs)
  unfolding reserved_on
  reserved_on-exact k n held all [] x h v z b =
      ap (at k) (sym (ok-injective h)) ∙ z ∙ ap pos (omega arith)
  reserved_on-exact k n held all (r ∷ rs) x h v z b = elim (Bool-cases (str_eq r.node n.name)) [
    | inr e ↦
        reserved_on-exact k n held all rs x (rw (e, reserved_on) at h) v.1 z (ground arith)
        ∙ ap pos (ground arith)
    | inl e ↦
        let ((kept, left), p, q) = >>=-eq-ok (protection c r runs) _ (rw (e, reserved_on) at h) in
        let g = granted c r runs kept left p in
        let small : slot_size k c r < two63 = ground arith in
        let u = slot_size k c r - charged_sum k r runs in
        let kept_at : at k kept ≡ pos u = Granted-kept c r runs g nonneg v.0.0 v.0.1 k small in
        reserved_on-exact k n (Resources.add held kept) all rs (x + u) q v.1
          (add_exact_at k held kept x u z kept_at (ground arith)) (ground arith)
        ∙ ap pos (ground arith)
  ]

  balance :
      (k : Kind) (node : String) (rs : List Reservation)
      → All Readable rs
      → All (λ r. str_eq r.node node ≡ true → Kept c r runs) rs
      → charged_on k node runs rs + unused_sum k c node runs rs ≡ reserved_sum k c node rs
  balance k node [] h g = refl
  balance k node (r ∷ rs) h g = elim (Bool-cases (str_eq r.node node)) [
    | inr off ↦ ground (arith, balance k node rs h.1 g.1)
    | inl on ↦
        let q : Kept c r runs = g.0 on in
        ground (
          arith,
          balance k node rs h.1 g.1,
          Granted-charged_sum c r runs (granted c r runs q.kept q.left q.granted_eq) nonneg h.0.0
              h.0.1 k,
        )
  ]

  -- A Node that passes has found the protection of each of its reservations.
  pub node_fits-Kept :
      (n : Node)
      → node_fits c runs n ≡ ok tt
      → All (λ r. str_eq r.node n.name ≡ true → Kept c r runs) c.reservations
  unfolding node_fits
  node_fits-Kept n h =
      let (held, p, h1) = >>=-eq-ok (running_on c n Resources.zero runs) _ h in
      let (all, q, h2) = >>=-eq-ok (reserved_on c n runs held c.reservations) _ h1 in
      reserved_on-Kept c n runs held all c.reservations q

  -- The sums of one Node that passes.
  pub node_fits-budget :
      (k : Kind) (n : Node)
      → All Readable c.reservations
      → All (λ r. str_eq r.name "" ≡ false) c.reservations
      → Unique c.reservations
      → All (IsOwned c.reservations) runs
      → IsNonneg n.budget
      → held_sum k n.name runs + reserved_sum k c n.name c.reservations < two63
      → node_fits c runs n ≡ ok tt
      → free_sum k n.name runs + reserved_sum k c n.name c.reservations ≤ amount k n.budget
  unfolding node_fits
  node_fits-budget k n v nm un ow nn b h =
      let (held, p, h1) = >>=-eq-ok (running_on c n Resources.zero runs) _ h in
      let (all, q, h2) = >>=-eq-ok (reserved_on c n runs held c.reservations) _ h1 in
      let fit = require-eq-ok (Resources.fits all n.budget) _ h2 in
      let held_at : at k held ≡ pos (held_sum k n.name runs) =
        ap (at k) (running_on-held_on c n Resources.zero held runs p)
        ∙ held_on-exact k n.name Resources.zero 0 runs (zero-at k) nonneg (omega arith)
        ∙ ap pos (omega arith) in
      let all_at =
        reserved_on-exact k n held all c.reservations (held_sum k n.name runs) q v held_at b in
      omega (
        arith,
        fits-le k all n.budget fit,
        ap pos_part all_at,
        ap neg_part all_at,
        at-IsNonneg k n.budget nn,
        held_sum-split k n.name c.reservations runs nm un ow,
        balance k n.name c.reservations v (reserved_on-Kept c n runs held all c.reservations q),
      )
