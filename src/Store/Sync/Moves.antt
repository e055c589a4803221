-- ===== src/Store/Sync/Moves.antt =====
-- What `Sync` does to the table of instances: each row moves by itself, as its own report says.
pub mod Rows
use runner_loom.Store.Sync.Moves.Rows.{
  payloads-set_jit_row, save_run, payloads-save_row, save_run-middle,
}
use runner_loom.Base.{
  ℕ, true, false, ◌||◌, String, Option, none, some, List, [], ◌∷◌, ◌++◌, ◌≡◌, refl, ap, ◌∙◌, sym,
  subst, inl, inr, str_eq, contains, All, arith, Bool-cases, eq_iff, ok, ok-injective, >>=-eq-ok,
  if◌then◌else◌,
}
use mathlib.Core.List.{append_assoc}
use runner_loom.Base.Int64.{pos}
use runner_loom.Resources
use runner_loom.Resources.{Resources}
use runner_loom.Instance.{
  Instance, State, VmReport, ReportState, running, stopped, deleted, failed, unknown, other,
  is_provisioning, is_deleting,
}
use runner_loom.Store.Seal.{Sealed}
use runner_loom.Store.{
  Store, InstanceRow, payloads, save_row, save_instance, set_jit_row, read_instances,
}
use runner_loom.Store.Sync.Report.{
  observe, observe_if, advance, advance_one, concerns, report_of, Pending, erase, fence, queue, due,
}
use runner_loom.Ledger.{keys, Distinct}
use runner_loom.Ledger.Shrink.{Pointwise}

-- The VM that a row is about stays the same.
pub record Same (b a : Instance) : Type 0 where
  pub same_id : b.id ≡ a.id
  pub same_request : b.request_id ≡ a.request_id
  pub same_node : b.node ≡ a.node
  pub same_pool : b.pool ≡ a.pool
  pub same_image : b.image ≡ a.image
  pub same_reservation : b.reservation ≡ a.reservation
  pub same_task : b.task ≡ a.task
  pub same_deadline : b.deadline ≡ a.deadline

-- State and resources after a report: only a stop gives back CPU and memory, and only a deletion that
-- was asked for gives back the disk.
abbrev pub Reported : ReportState → Instance → Instance → Type 0
Reported running b a =
    (b.held ≡ a.held) × (b.state ≡ (if is_provisioning a.state then State.idle else a.state))
Reported stopped b a =
    (b.held ≡ record a.held { cpu = pos 0; memory = pos 0 }) × (b.state ≡ State.deleting)
Reported deleted b a =
    (a.state ≡ State.deleting) × (b.held ≡ Resources.zero) × (b.state ≡ State.deleted)
Reported failed b a = (b.held ≡ a.held) × (b.state ≡ State.stopping)
Reported unknown b a = (b.held ≡ a.held) × (b.state ≡ a.state)
Reported (other t) b a = ⊥

abbrev pub ReportedIf : Option VmReport → Instance → Instance → Type 0
ReportedIf none b a = (b.held ≡ a.held) × (b.state ≡ a.state)
ReportedIf (some r) b a = Reported r.state b a

pub data Move (name : String) (reports : List VmReport) (b a : Instance) : Type 0 where
  untouched : concerns name a ≡ false → b ≡ a → Move name reports b a
  moved :
      concerns name a ≡ true
      → Same b a
      → ReportedIf (report_of reports a.id) b a
      → Move name reports b a

-- What one report does: the table and the settings stay, and the copy of the row moves.
abbrev Effect : Store → Instance → (Instance → Type 0) → Store × Instance → Type 0
Effect s a P (t, b) =
    (read_instances t ≡ read_instances s) × (t.settings ≡ s.settings) × Same b a × P b

observe-Effect :
    (x : ReportState) (a : Instance) (s : Store) (z : Store × Instance)
    → observe x a s ≡ ok z
    → Effect s a (λ b. Reported x b a) z
unfolding observe erase fence
observe-Effect running a s z h =
    subst (Effect s a (λ b. Reported running b a)) (ok-injective h) (ground arith)
observe-Effect stopped a s z h =
    subst (Effect s a (λ b. Reported stopped b a)) (ok-injective h) (ground arith)
observe-Effect deleted a s z h = elim (Bool-cases (is_deleting a.state)) [
  | inl e ↦
      subst (Effect s a (λ b. Reported deleted b a)) (ok-injective (rw e at h))
        (payloads-set_jit_row a.id none s.instances, refl, ground arith, ground arith)
  | inr e ↦ cc (rw e at h)
]
observe-Effect failed a s z h =
    subst (Effect s a (λ b. Reported failed b a)) (ok-injective h) (ground arith)
observe-Effect unknown a s z h =
    subst (Effect s a (λ b. Reported unknown b a)) (ok-injective h) (ground arith)
observe-Effect (other w) a s z h = cc

observe_if-Effect :
    (r : Option VmReport) (a : Instance) (s : Store) (z : Store × Instance)
    → observe_if r a s ≡ ok z
    → Effect s a (λ b. ReportedIf r b a) z
unfolding observe_if
observe_if-Effect none a s z h =
    subst (Effect s a (λ b. ReportedIf none b a)) (ok-injective h) (ground arith)
observe_if-Effect (some r) a s z h = observe-Effect r.state a s z h

ReportedIf-updated :
    (r : Option VmReport) (b a : Instance) (now : ℕ)
    → ReportedIf r b a
    → ReportedIf r (record b { updated = now }) a
ReportedIf-updated none b a now h = h
ReportedIf-updated (some r) b a now h = go r.state h
  where
    go : (x : ReportState) → Reported x b a → Reported x (record b { updated = now }) a
    go running h = h
    go stopped h = h
    go deleted h = h
    go failed h = h
    go unknown h = h
    go (other w) h = h

-- The row that one round writes.
pub record Round (now : ℕ) (r : Option VmReport) (a : Instance) (s : Store) (pending : List Pending)
    (t : Store) (pending' : List Pending) : Type 0 where
  pub row : Instance
  pub same : Same row a
  pub reported : ReportedIf r row a
  pub written : read_instances t ≡ save_run row (read_instances s)
  pub settings_kept : t.settings ≡ s.settings
  pub stamped : row.updated ≡ now
  pub queued : pending' ≡ queue row (due now r row) pending

pub advance_one-Round :
    (now : ℕ) (r : Option VmReport) (a : Instance) (s : Store) (pending : List Pending) (t : Store)
    (pending' : List Pending)
    → advance_one now r a (s, pending) ≡ ok (t, pending')
    → Round now r a s pending t pending'
unfolding advance_one save_instance
advance_one-Round now r a s pending t pending' h =
    let (z, e, f) = >>=-eq-ok (observe_if r a s) _ h in
    let (inst, sett, same, rep) = observe_if-Effect r a s z e in
    record {
      row = record (z.1) { updated = now };
      same = ground arith;
      reported = ReportedIf-updated r z.1 a now rep;
      written =
          ap (λ (y : Store × List Pending). read_instances y.0) (sym (ok-injective f))
          ∙ payloads-save_row _ z.0.instances
          ∙ ap (save_run (record (z.1) { updated = now })) inst;
      settings_kept = ap (λ (y : Store × List Pending). y.0.settings) (sym (ok-injective f)) ∙ sett;
      stamped = refl;
      queued = ap (λ (y : Store × List Pending). y.1) (sym (ok-injective f));
    }

abbrev ids : List Instance → List String
ids = keys λ a. a.id

ids-snoc :
    (bs : List Instance) (b : Instance) (x : String)
    → contains (ids (bs ++ b ∷ [])) x ≡ (contains (ids bs) x || str_eq b.id x)
ids-snoc [] b x = ground arith
ids-snoc (q ∷ bs) b x = ground (arith, ids-snoc bs b x)

fresh_after :
    (bs : List Instance) (b a : Instance) (runs : List Instance)
    → All (λ x. contains (ids bs) x.id ≡ false) runs
    → contains (ids runs) a.id ≡ false
    → b.id ≡ a.id
    → All (λ x. contains (ids (bs ++ b ∷ [])) x.id ≡ false) runs
fresh_after bs b a [] h g e = tt
fresh_after bs b a (x ∷ runs) h g e = (
  ground (arith, ids-snoc bs b x.id, h.0, eq_iff b.id x.id, eq_iff x.id a.id),
  fresh_after bs b a runs h.1 (ground arith) e,
)

-- The outcome of the loop from a point on: the rows before it stay, each later one has moved.
pub record Swept (name : String) (reports : List VmReport) (bs runs : List Instance) (s t : Store)
    : Type 0 where
  pub rows : List Instance
  pub written : read_instances t ≡ bs ++ rows
  pub moves : Pointwise (Move name reports) rows runs
  pub settings_kept : t.settings ≡ s.settings

Swept-cons :
    (name : String) (reports : List VmReport) (bs runs : List Instance) (b a : Instance)
    (s u t : Store)
    → Move name reports b a
    → u.settings ≡ s.settings
    → Swept name reports (bs ++ b ∷ []) runs u t
    → Swept name reports bs (a ∷ runs) s t
Swept-cons name reports bs runs b a s u t m e w = record {
  rows = b ∷ w.rows;
  written = w.written ∙ append_assoc bs (b ∷ []) w.rows;
  moves = (m, w.moves);
  settings_kept = w.settings_kept ∙ e;
}

pub advance-Swept :
    (now : ℕ) (name : String) (reports : List VmReport) (bs runs : List Instance) (s : Store)
    (pending : List Pending) (t : Store) (pending' : List Pending)
    → read_instances s ≡ bs ++ runs
    → All (λ x. contains (ids bs) x.id ≡ false) runs
    → Distinct (λ x. x.id) runs
    → advance now name reports runs (s, pending) ≡ ok (t, pending')
    → Swept name reports bs runs s t
unfolding advance
advance-Swept now name reports bs [] s pending t pending' e fresh d h =
    let q = ok-injective h in
    record {
      rows = [];
      written = ap (λ (y : Store × List Pending). read_instances y.0) (sym q) ∙ e;
      moves = tt;
      settings_kept = ap (λ (y : Store × List Pending). y.0.settings) (sym q);
    }
advance-Swept now name reports bs (a ∷ runs) s pending t pending' e fresh d h =
    elim (Bool-cases (concerns name a)) [
      | inr off ↦ Swept-cons name reports bs runs a a s s t (untouched off refl) refl (
          advance-Swept now name reports (bs ++ a ∷ []) runs s pending t pending'
            (e ∙ sym (append_assoc bs (a ∷ []) runs)) (fresh_after bs a a runs fresh.1 d.0 refl) d.1
            (rw off at h))
      | inl on ↦
          let ((u, mid), e1, e2) =
            >>=-eq-ok (advance_one now (report_of reports a.id) a (s, pending)) _ (rw on at h) in
          let w = advance_one-Round now (report_of reports a.id) a s pending u mid e1 in
          Swept-cons name reports bs runs w.row a s u t (moved on w.same w.reported) w.settings_kept
            (advance-Swept now name reports (bs ++ w.row ∷ []) runs u mid t pending'
              (w.written
                ∙ ap (save_run w.row) e
                ∙ save_run-middle w.row a bs runs (ap (contains (ids bs)) w.same.same_id ∙ fresh.0)
                    (ap (contains (ids runs)) w.same.same_id ∙ d.0) (sym w.same.same_id)
                ∙ sym (append_assoc bs (w.row ∷ []) runs))
              (fresh_after bs w.row a runs fresh.1 d.0 w.same.same_id) d.1 e2)
    ]
