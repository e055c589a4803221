-- ===== src/Ledger/Loop.antt =====
-- The loop of `candidates` over the reservations, in natural numbers.
use runner_loom.Base.{
  ℕ, ◌+◌, ◌-◌, ◌<◌, Bool, true, false, ◌&&◌, String, List, [], ◌∷◌, ◌++◌, ◌≡◌, refl, ap, ◌∙◌, sym,
  ◌⊎◌, inl, inr, str_eq, sum, All, In, is_empty, arith, Bool-cases, eq_iff, Fault, Result-cases, ok,
  err, if◌then◌else◌,
}
use runner_loom.Base.Int64.{ℤ, pos, neg_part, lt_ℤ, two63}
use runner_loom.Resources
use runner_loom.Resources.{Resources}
use runner_loom.Resources.Laws.{Kind, at, IsNonneg}
use runner_loom.Config.{Config, Pool, Node, Reservation}
use runner_loom.Instance.{Instance}
use runner_loom.Reservations.{protection}
use runner_loom.Scheduler.{Share, Reason, reservation_inconsistent, shares, add_share}
use runner_loom.Ledger.{size, slot_size, charged_sum, reserved_sum}
use runner_loom.Ledger.Sums.{charged_on}
use runner_loom.Ledger.Exact.{add_exact_at}
use runner_loom.Ledger.Shares.{granted, Granted-kept, Granted-charged_sum}

-- What the reservations of a Node keep free.
abbrev pub unused_sum : Kind → Config → String → List Instance → List Reservation → ℕ
unused_sum k c node runs =
    sum λ r. if str_eq r.node node then slot_size k c r - charged_sum k r runs else 0

step : Config → Pool → Node → List Instance → Share → Reservation → Share
step c p n runs s r = if str_eq r.node n.name then add_share p r (protection c r runs) s else s

grown : (xs : List Reason) (x : Reason) → is_empty (xs ++ x ∷ []) ≡ false
grown [] x = refl
grown (y ∷ xs) x = refl

pub record Kept (c : Config) (r : Reservation) (runs : List Instance) : Type 0 where
  pub kept : Resources
  pub left : ℤ
  pub granted_eq : protection c r runs ≡ ok (kept, left)

module _ (c : Config) (p : Pool) (n : Node) (runs : List Instance) where
  -- A round on a reservation of the Node that leaves no reason found its protection.
  step-Kept :
      (s : Share) (r : Reservation)
      → str_eq r.node n.name ≡ true
      → is_empty (step c p n runs s r).reasons ≡ true
      → Kept c r runs
  unfolding step add_share
  step-Kept s r on e = elim (Result-cases (protection c r runs)) [
    | inl ((kept, left), q) ↦ record { kept = kept; left = left; granted_eq = q }
    | inr (f, q) ↦ absurd (ground (arith, grown s.reasons reservation_inconsistent))
  ]

  step_reasons :
      (s : Share) (r : Reservation)
      → is_empty (step c p n runs s r).reasons ≡ true
      → is_empty s.reasons ≡ true
  unfolding step add_share
  step_reasons s r e = ground (arith, grown s.reasons reservation_inconsistent)

  pub shares_reasons :
      (s : Share) (rs : List Reservation)
      → is_empty (shares c p n runs s rs).reasons ≡ true
      → is_empty s.reasons ≡ true
  unfolding shares step
  shares_reasons s [] e = e
  shares_reasons s (r ∷ rs) e = step_reasons s r (shares_reasons (step c p n runs s r) rs e)

  -- Without a reason, every reservation of the Node has its protection.
  pub shares-Kept :
      (s : Share) (rs : List Reservation)
      → is_empty (shares c p n runs s rs).reasons ≡ true
      → All (λ r. str_eq r.node n.name ≡ true → Kept c r runs) rs
  unfolding shares step
  shares-Kept s [] e = tt
  shares-Kept s (r ∷ rs) e = (
    λ on. step-Kept s r on (shares_reasons (step c p n runs s r) rs e),
    shares-Kept (step c p n runs s r) rs e,
  )

  -- What the loop learns of a reservation: enough to read its numbers.
  abbrev pub Readable : Reservation → Type 0
  Readable r = (neg_part r.slots ≡ 0) × IsNonneg (size c r)

  module _ (nonneg : All (λ a. IsNonneg a.held) runs) where
    kept_amount :
        (k : Kind) (r : Reservation) (kept : Resources) (left : ℤ)
        → Readable r
        → slot_size k c r < two63
        → protection c r runs ≡ ok (kept, left)
        → at k kept ≡ pos (slot_size k c r - charged_sum k r runs)
    kept_amount k r kept left h b q =
        Granted-kept c r runs (granted c r runs kept left q) nonneg h.0 h.1 k b

    step_off :
        (s : Share) (r : Reservation) → str_eq r.node n.name ≡ false → step c p n runs s r ≡ s
    unfolding step
    step_off s r off = ground arith

    step_on :
        (s : Share) (r : Reservation) (kept : Resources) (left : ℤ)
        → str_eq r.node n.name ≡ true
        → protection c r runs ≡ ok (kept, left)
        → (step c p n runs s r).unused ≡ Resources.add s.unused kept
    unfolding step add_share
    step_on s r kept left on q = ground arith

    step_unused :
        (k : Kind) (s : Share) (r : Reservation) (u : ℕ)
        → Readable r
        → is_empty (step c p n runs s r).reasons ≡ true
        → at k s.unused ≡ pos u
        → u + reserved_sum k c n.name (r ∷ []) < two63
        → at k (step c p n runs s r).unused ≡ pos (u + unused_sum k c n.name runs (r ∷ []))
    step_unused k s r u h e z b = elim (Bool-cases (str_eq r.node n.name)) [
      | inr off ↦ ap (λ (t : Share). at k t.unused) (step_off s r off) ∙ z ∙ ap pos (ground arith)
      | inl on ↦
          let g : Kept c r runs = step-Kept s r on e in
          let small : slot_size k c r < two63 = ground arith in
          ap (at k) (step_on s r g.kept g.left on g.granted_eq)
          ∙ add_exact_at k s.unused g.kept u (slot_size k c r - charged_sum k r runs) z
              (kept_amount k r g.kept g.left h small g.granted_eq) (ground arith)
          ∙ ap pos (ground arith)
    ]

    -- The loop adds up what the Node's reservations keep free.
    pub shares_unused :
        (k : Kind) (s : Share) (rs : List Reservation) (u : ℕ)
        → All Readable rs
        → is_empty (shares c p n runs s rs).reasons ≡ true
        → at k s.unused ≡ pos u
        → u + reserved_sum k c n.name rs < two63
        → at k (shares c p n runs s rs).unused ≡ pos (u + unused_sum k c n.name runs rs)
    unfolding shares step
    shares_unused k s [] u h e z b = z ∙ ap pos (omega arith)
    shares_unused k s (r ∷ rs) u h e z b =
        shares_unused k (step c p n runs s r) rs (u + unused_sum k c n.name runs (r ∷ [])) h.1 e
          (step_unused k s r u h.0 (shares_reasons (step c p n runs s r) rs e) z (omega arith))
          (ground arith)
        ∙ ap pos (omega arith)

    -- In use and kept free make up what is reserved.
    pub balance :
        (k : Kind) (rs : List Reservation)
        → All Readable rs
        → All (λ r. str_eq r.node n.name ≡ true → Kept c r runs) rs
        → charged_on k n.name runs rs + unused_sum k c n.name runs rs ≡ reserved_sum k c n.name rs
    balance k [] h g = refl
    balance k (r ∷ rs) h g = elim (Bool-cases (str_eq r.node n.name)) [
      | inr off ↦ ground (arith, balance k rs h.1 g.1)
      | inl on ↦
          let q : Kept c r runs = g.0 on in
          ground (
            arith,
            balance k rs h.1 g.1,
            Granted-charged_sum c r runs (granted c r runs q.kept q.left q.granted_eq) nonneg h.0.0
                h.0.1 k,
          )
    ]

  -- The slot that the loop chose.
  pub record Chosen (name : String) (rs : List Reservation) : Type 0 where
    pub slot : Reservation
    pub listed : In slot rs
    pub same_name : slot.name ≡ name
    pub same_node : slot.node ≡ n.name
    pub same_pool : slot.pool ≡ p.name
    pub kept : Resources
    pub left : ℤ
    pub granted_eq : protection c slot runs ≡ ok (kept, left)
    pub is_left : lt_ℤ (pos 0) left ≡ true

  widen :
      {name : String} {rs : List Reservation} (r : Reservation)
      → Chosen name rs
      → Chosen name (r ∷ rs)
  widen r h = record {
    slot = h.slot;
    listed = inr h.listed;
    same_name = h.same_name;
    same_node = h.same_node;
    same_pool = h.same_pool;
    kept = h.kept;
    left = h.left;
    granted_eq = h.granted_eq;
    is_left = h.is_left;
  }

  rename :
      {name name' : String} {r : Reservation} {rs : List Reservation}
      → name' ≡ name
      → Chosen name (r ∷ [])
      → Chosen name' (r ∷ rs)
  rename e h = record {
    slot = h.slot;
    listed = elim h.listed [ inl q ↦ inl q | inr m ↦ absurd m ];
    same_name = h.same_name ∙ sym e;
    same_node = h.same_node;
    same_pool = h.same_pool;
    kept = h.kept;
    left = h.left;
    granted_eq = h.granted_eq;
    is_left = h.is_left;
  }

  takes : Share → Reservation → ℤ → Bool
  takes s r left = lt_ℤ (pos 0) left && str_eq r.pool p.name && str_eq s.reservation ""

  step_taken :
      (s : Share) (r : Reservation) (kept : Resources) (left : ℤ)
      → str_eq r.node n.name ≡ true
      → protection c r runs ≡ ok (kept, left)
      → (step c p n runs s r).reservation ≡ (if takes s r left then r.name else s.reservation)
  unfolding step add_share takes
  step_taken s r kept left on q = ground arith

  step_failed :
      (s : Share) (r : Reservation) (e : Fault)
      → protection c r runs ≡ err e
      → (step c p n runs s r).reservation ≡ s.reservation
  unfolding step add_share
  step_failed s r e q = ground arith

  step_unmoved :
      (s : Share) (r : Reservation)
      → str_eq r.node n.name ≡ false
      → (step c p n runs s r).reservation ≡ s.reservation
  unfolding step
  step_unmoved s r off = ground arith

  Chosen-here :
      (s : Share) (r : Reservation) (kept : Resources) (left : ℤ)
      → str_eq r.node n.name ≡ true
      → protection c r runs ≡ ok (kept, left)
      → takes s r left ≡ true
      → Chosen r.name (r ∷ [])
  unfolding takes
  Chosen-here s r kept left on q t = record {
    slot = r;
    listed = inl refl;
    same_name = refl;
    same_node = (eq_iff r.node n.name).0 on;
    same_pool = (eq_iff r.pool p.name).0 (ground arith);
    kept = kept;
    left = left;
    granted_eq = q;
    is_left = ground arith;
  }

  step-Chosen :
      (s : Share) (r : Reservation)
      → ((step c p n runs s r).reservation ≡ s.reservation)
        ⊎ Chosen (step c p n runs s r).reservation (r ∷ [])
  step-Chosen s r = elim (Bool-cases (str_eq r.node n.name)) [
    | inr off ↦ inl (step_unmoved s r off)
    | inl on ↦ elim (Result-cases (protection c r runs)) [
      | inr (e, q) ↦ inl (step_failed s r e q)
      | inl ((kept, left), q) ↦ elim (Bool-cases (takes s r left)) [
        | inl t ↦
            inr (rename (step_taken s r kept left on q ∙ rw t) (Chosen-here s r kept left on q t))
        | inr t ↦ inl (step_taken s r kept left on q ∙ rw t)
      ]
    ]
  ]

  -- The loop leaves the reservation as it was, or takes one of the Node and the Pool with a free
  -- slot.
  pub shares-Chosen :
      (s : Share) (rs : List Reservation)
      → ((shares c p n runs s rs).reservation ≡ s.reservation)
        ⊎ Chosen (shares c p n runs s rs).reservation rs
  unfolding shares step
  shares-Chosen s [] = inl refl
  shares-Chosen s (r ∷ rs) = elim (shares-Chosen (step c p n runs s r) rs) [
    | inr h ↦ inr (widen r h)
    | inl e ↦ elim (step-Chosen s r) [ inl f ↦ inl (e ∙ f) | inr h ↦ inr (rename e h) ]
  ]
