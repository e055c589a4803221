-- ===== src/Safety/Rows.antt =====
-- The tables before and after a write, one row at a time.
use runner_loom.Base.{
  false, ◌||◌, String, Option, none, some, List, [], ◌∷◌, ◌≤◌, ◌≡◌, refl, ap, ap₂, ◌∙◌, sym, subst,
  inl, inr, str_eq, str_lt, contains, All, In, head_eq, tail_eq, arith, Bool-cases, eq_iff,
}
use runner_loom.Base.Int64.{pos}
use runner_loom.Resources
use runner_loom.Resources.{Resources}
use runner_loom.Resources.Laws.{Kind, cpus, memories, disks, amount, IsNonneg}
use runner_loom.Instance.{
  Instance, VmReport, ReportState, running, stopped, deleted, failed, unknown, other,
}
use runner_loom.Store.{InstanceRow, payloads, place_row, taken, find_row}
use runner_loom.Store.Sync.Report.{report_of}
use runner_loom.Store.Sync.Moves.{Move, untouched, moved, Same, Reported, ReportedIf}
use runner_loom.Store.Sync.Moves.Rows.{save_run}
use runner_loom.Ledger.{keys, Distinct}
use runner_loom.Ledger.Shrink.{Below, Below-refl, Pointwise}

pub Below-Same_held : (b a : Instance) → Same b a → b.held ≡ a.held → IsNonneg a.held → Below b a
Below-Same_held b a h e n = record {
  same_node = h.same_node;
  same_pool = h.same_pool;
  same_reservation = h.same_reservation;
  nonneg = subst IsNonneg (sym e) n;
  held_le = λ k. omega (arith, ap (amount k) e);
}

released : Resources → Resources
released r = record r { cpu = pos 0; memory = pos 0 }

released_le : (k : Kind) (r : Resources) → amount k (released r) ≤ amount k r
unfolding released
released_le cpus r = omega arith
released_le memories r = omega arith
released_le disks r = omega arith

zero_le : (k : Kind) (r : Resources) → amount k Resources.zero ≤ amount k r
zero_le cpus r = omega arith
zero_le memories r = omega arith
zero_le disks r = omega arith

Reported-Below :
    (x : ReportState) (b a : Instance) → Same b a → Reported x b a → IsNonneg a.held → Below b a
unfolding released
Reported-Below running b a s h n = Below-Same_held b a s h.0 n
Reported-Below stopped b a s h n = record {
  same_node = s.same_node;
  same_pool = s.same_pool;
  same_reservation = s.same_reservation;
  nonneg = subst IsNonneg (sym h.0) (refl, refl, n.2);
  held_le = λ k. omega (arith, ap (amount k) h.0, released_le k a.held);
}
Reported-Below deleted b a s h n = record {
  same_node = s.same_node;
  same_pool = s.same_pool;
  same_reservation = s.same_reservation;
  nonneg = subst IsNonneg (sym h.1) (refl, refl, refl);
  held_le = λ k. omega (arith, ap (amount k) h.1, zero_le k a.held);
}
Reported-Below failed b a s h n = Below-Same_held b a s h.0 n
Reported-Below unknown b a s h n = Below-Same_held b a s h.0 n
Reported-Below (other w) b a s h n = absurd h

ReportedIf-Below :
    (r : Option VmReport) (b a : Instance)
    → Same b a
    → ReportedIf r b a
    → IsNonneg a.held
    → Below b a
ReportedIf-Below none b a s h n = Below-Same_held b a s h.0 n
ReportedIf-Below (some r) b a s h n = Reported-Below r.state b a s h n

-- A move never makes a VM hold more.
pub Move-Below :
    (name : String) (reports : List VmReport) (b a : Instance)
    → IsNonneg a.held
    → Move name reports b a
    → Below b a
Move-Below name reports b a n (untouched off e) = subst (λ b. Below b a) (sym e) (Below-refl a n)
Move-Below name reports b a n (moved on s h) = ReportedIf-Below (report_of reports a.id) b a s h n

pub Moves-Below :
    (name : String) (reports : List VmReport) (bs runs : List Instance)
    → All (λ a. IsNonneg a.held) runs
    → Pointwise (Move name reports) bs runs
    → Pointwise Below bs runs
Moves-Below name reports [] [] n p = tt
Moves-Below name reports [] (a ∷ runs) n p = absurd p
Moves-Below name reports (b ∷ bs) [] n p = absurd p
Moves-Below name reports (b ∷ bs) (a ∷ runs) n p =
    (Move-Below name reports b a n.0 p.0, Moves-Below name reports bs runs n.1 p.1)

pub Move-id :
    (name : String) (reports : List VmReport) (b a : Instance) → Move name reports b a → b.id ≡ a.id
Move-id name reports b a (untouched off e) = ap (λ (x : Instance). x.id) e
Move-id name reports b a (moved on s h) = s.same_id

-- The keys of the table stay.
pub Pointwise-ids :
    (R : Instance → Instance → Type 0)
    → ((b a : Instance) → R b a → b.id ≡ a.id)
    → (bs runs : List Instance) → Pointwise R bs runs
    → keys (λ a. a.id) bs ≡ keys (λ a. a.id) runs
Pointwise-ids R f [] [] p = refl
Pointwise-ids R f [] (a ∷ runs) p = absurd p
Pointwise-ids R f (b ∷ bs) [] p = absurd p
Pointwise-ids R f (b ∷ bs) (a ∷ runs) p = cc (f b a p.0, Pointwise-ids R f bs runs p.1)

pub Distinct-keys :
    (bs runs : List Instance)
    → keys (λ a. a.id) bs ≡ keys (λ a. a.id) runs
    → Distinct (λ a. a.id) runs
    → Distinct (λ a. a.id) bs
Distinct-keys [] [] e d = tt
Distinct-keys [] (a ∷ runs) e d = tt
Distinct-keys (b ∷ bs) [] e d = cc
Distinct-keys (b ∷ bs) (a ∷ runs) e d =
    (ap₂ contains (tail_eq e) (head_eq e) ∙ d.0, Distinct-keys bs runs (tail_eq e) d.1)

-- A write of one row, where every row of its ID may become it.
pub save_run-Below :
    (b : Instance) (runs : List Instance)
    → All (λ a. IsNonneg a.held) runs
    → All (λ a. a.id ≡ b.id → Below b a) runs
    → Pointwise Below (save_run b runs) runs
save_run-Below b [] n h = tt
save_run-Below b (a ∷ runs) n h = elim (Bool-cases (str_eq a.id b.id)) [
  | inl e ↦ rw e (h.0 ((eq_iff a.id b.id).0 e), save_run-Below b runs n.1 h.1)
  | inr e ↦ rw e (Below-refl a n.0, save_run-Below b runs n.1 h.1)
]

pub save_run-keys :
    (b : Instance) (runs : List Instance)
    → keys (λ a. a.id) (save_run b runs) ≡ keys (λ a. a.id) runs
save_run-keys b [] = refl
save_run-keys b (a ∷ runs) = ground (arith, save_run-keys b runs, eq_iff a.id b.id)

pub find_row-In :
    (id : String) (rows : List InstanceRow) (r : InstanceRow)
    → find_row id rows ≡ some r
    → In r.payload (payloads rows) × (r.payload.id ≡ id)
unfolding find_row
find_row-In id [] r h = cc
find_row-In id (q ∷ rows) r h = elim (Bool-cases (str_eq q.payload.id id)) [
  | inl e ↦
      let p : q ≡ r = cc (rw e at h) in
      (
        inl (ap (λ (x : InstanceRow). x.payload) p),
        ap (λ (x : InstanceRow). x.payload.id) (sym p) ∙ (eq_iff q.payload.id id).0 e,
      )
  | inr e ↦ let (m, i) = find_row-In id rows r (rw e at h) in (inr m, i)
]

-- A new row has a new key.
absent_id :
    (a : Instance) (rows : List InstanceRow)
    → taken a rows ≡ false
    → contains (keys (λ x. x.id) (payloads rows)) a.id ≡ false
unfolding taken
absent_id a [] h = refl
absent_id a (r ∷ rows) h = ground (arith, absent_id a rows)

contains-place_row :
    (r : InstanceRow) (rows : List InstanceRow) (x : String)
    → contains (keys (λ a. a.id) (payloads (place_row r rows))) x
      ≡ (str_eq r.payload.id x || contains (keys (λ a. a.id) (payloads rows)) x)
unfolding place_row
contains-place_row r [] x = refl
contains-place_row r (q ∷ rows) x = ground (arith, contains-place_row r rows x)

pub Distinct-place_row :
    (r : InstanceRow) (rows : List InstanceRow)
    → contains (keys (λ a. a.id) (payloads rows)) r.payload.id ≡ false
    → Distinct (λ a. a.id) (payloads rows)
    → Distinct (λ a. a.id) (payloads (place_row r rows))
unfolding place_row
Distinct-place_row r [] h d = (refl, tt)
Distinct-place_row r (q ∷ rows) h d = elim (Bool-cases (str_lt q.payload.id r.payload.id)) [
  | inl e ↦ rw e (
    ground (
      arith,
      contains-place_row r rows q.payload.id,
      eq_iff r.payload.id q.payload.id,
      eq_iff q.payload.id r.payload.id,
    ),
    Distinct-place_row r rows (ground arith) d.1,
  )
  | inr e ↦ rw e (h, d)
]

pub Distinct-insert :
    (a : Instance) (r : InstanceRow) (rows : List InstanceRow)
    → r.payload ≡ a
    → taken a rows ≡ false
    → Distinct (λ a. a.id) (payloads rows)
    → Distinct (λ a. a.id) (payloads (place_row r rows))
Distinct-insert a r rows e h d =
    Distinct-place_row r rows
      (ap (λ (x : Instance). contains (keys (λ x. x.id) (payloads rows)) x.id) e
        ∙ absent_id a rows h)
      d
