-- ===== src/Agent/Synced.antt =====
-- The Controller's reply to a report, as the agent reads it.
use runner_loom.Base.{
  ℕ, ◌≤◌, true, not, String, Option, none, some, List, [], ◌∷◌, ◌≡◌, ap, ◌∙◌, sym, subst, inl, inr,
  length, str_eq, All, All-snoc, arith, Bool-cases, ok, fail, require, or_fail, ok-injective,
  >>=-eq-ok,
}
use runner_loom.Resources
use runner_loom.Resources.{Resources}
use runner_loom.Config.{charge, find_node, Pool}
use runner_loom.Instance.{Instance, Observation, VmReport}
use runner_loom.Scheduler.{observed}
use runner_loom.Task.{TaskPayload}
use runner_loom.Store.{Store, read_config, read_instances, read_nodes}
use runner_loom.Store.Sync.{
  SyncResponse, sync, good_report, is_stale, put_node, duplicated, seen_at,
}
use runner_loom.Store.Sync.Report.{
  Pending, Action, advance, advance_one, concerns, due, queue, report_of,
}
use runner_loom.Store.Sync.Delivery.{deliver, sort_pending, insert_pending, precedes, reply_budget}
use runner_loom.Store.Sync.Moves.{Same, advance_one-Round}
use runner_loom.Agent.{accept_command}
use runner_loom.Agent.Delivered.{IsFit, deliver-accept_command}

-- The VM's size is within the ceiling, and it has a task exactly when its Pool is one for tasks.
pub record IsSized (ceiling : Resources) (a : Instance) : Type 0 where
  pub fits : Resources.fits (charge a.pool) ceiling ≡ true
  pub linked : a.pool.tasks ≡ not (str_eq a.task "")

module _ (node : String) (ceiling : Resources) where
  abbrev AllFit : List Pending → Type 0
  AllFit = All (λ item. IsFit node ceiling item.run)

  IsFit-Same :
      (b a : Instance)
      → Same b a
      → IsSized ceiling a
      → str_eq a.node node ≡ true
      → IsFit node ceiling b
  IsFit-Same b a same z n = record {
    same_node = ap (λ x. str_eq x node) same.same_node ∙ n;
    fits = ap (λ p. Resources.fits (charge p) ceiling) same.same_pool ∙ z.fits;
    linked =
        ap (λ (x : Pool). x.tasks) same.same_pool
        ∙ (z.linked ∙ ap (λ t. not (str_eq t "")) (sym same.same_task));
  }

  queue-AllFit :
      (a : Instance) (o : Option Action) (pending : List Pending)
      → IsFit node ceiling a
      → AllFit pending
      → AllFit (queue a o pending)
  unfolding queue
  queue-AllFit a none pending f h = h
  queue-AllFit a (some x) pending f h = All-snoc (λ item. IsFit node ceiling item.run) pending _ h f

  advance-AllFit :
      (now : ℕ) (reports : List VmReport) (runs : List Instance) (s t : Store)
      (pending out : List Pending)
      → All (IsSized ceiling) runs
      → AllFit pending
      → advance now node reports runs (s, pending) ≡ ok (t, out)
      → AllFit out
  unfolding advance concerns
  advance-AllFit now reports [] s t pending out z f h =
      subst AllFit (ap (λ (x : Store × List Pending). x.1) (ok-injective h)) f
  advance-AllFit now reports (a ∷ runs) s t pending out z f h =
      elim (Bool-cases (concerns node a)) [
        | inr e ↦ advance-AllFit now reports runs s t pending out z.1 f (rw e at h)
        | inl e ↦
            let ((u, more), g, k) =
              >>=-eq-ok (advance_one now (report_of reports a.id) a (s, pending)) _ (rw e at h) in
            let round = advance_one-Round now (report_of reports a.id) a s pending u more g in
            let fit = IsFit-Same round.row a round.same z.0 (ground arith) in
            advance-AllFit now reports runs u t more out z.1
              (subst AllFit (sym round.queued)
                (queue-AllFit round.row (due now (report_of reports a.id) round.row) pending fit f))
              k
      ]

  insert_pending-AllFit :
      (item : Pending) (items : List Pending)
      → IsFit node ceiling item.run
      → AllFit items
      → AllFit (insert_pending item items)
  unfolding insert_pending
  insert_pending-AllFit item [] f h = (f, tt)
  insert_pending-AllFit item (b ∷ bs) f h = elim (Bool-cases (precedes b item)) [
    | inl e ↦ rw e (h.0, insert_pending-AllFit item bs f h.1)
    | inr e ↦ rw e (f, h)
  ]

  sort_pending-AllFit : (items : List Pending) → AllFit items → AllFit (sort_pending items)
  unfolding sort_pending
  sort_pending-AllFit [] h = tt
  sort_pending-AllFit (item ∷ items) h =
      insert_pending-AllFit item (sort_pending items) h.0 (sort_pending-AllFit items h.1)

-- When each VM in the database fits the Node's ceiling and has a task exactly when its Pool is
-- one for tasks, the agent accepts every command of a successful Sync's reply, and there are at
-- most four.
pub sync-accept_command :
    (payload_size : TaskPayload → ℕ) (now : ℕ) (name : String) (ceiling : Resources)
    (o : Observation) (s t : Store) (response : SyncResponse)
    → All (IsSized ceiling) (read_instances s)
    → sync payload_size now name o s ≡ ok (t, response)
    → All (λ cmd. accept_command name ceiling cmd ≡ ok tt) response.commands
      × (length response.commands ≤ 4)
unfolding sync
sync-accept_command payload_size now name ceiling o s t response z h =
    let (_, _, h1) = >>=-eq-ok (require (good_report name o) (fail "NODE_REPORT")) _ h in
    let (n, _, h2) =
      >>=-eq-ok (or_fail (find_node (read_config s).0.nodes name) (fail "NODE_NOT_CONFIGURED")) _
        h1 in
    let (_, _, h3) =
      >>=-eq-ok (require (Resources.fits n.budget o.ceiling) (fail "LOCAL_CEILING")) _ h2 in
    let (_, _, h4) =
      >>=-eq-ok (require (not (is_stale (observed (read_nodes s) name) o)) (fail "STALE_REPORT")) _
        h3 in
    let (_, _, h5) =
      >>=-eq-ok (require (not (duplicated o.instances)) (fail "DUPLICATE_REPORT")) _ h4 in
    let ((u, pending), e6, h6) =
      >>=-eq-ok
        (advance now name o.instances (read_instances s)
          (record s { nodes = put_node name (seen_at now o) s.nodes }, []))
        _ h5 in
    let (commands, e7, h7) =
      >>=-eq-ok (deliver payload_size u (sort_pending pending) (reply_budget, [])) _ h6 in
    let q = ap (λ (x : Store × SyncResponse). x.1.commands) (ok-injective h7) in
    let fit =
      advance-AllFit name ceiling now o.instances (read_instances s)
        (record s { nodes = put_node name (seen_at now o) s.nodes }) u [] pending z tt e6 in
    subst (λ x. All (λ cmd. accept_command name ceiling cmd ≡ ok tt) x × (length x ≤ 4)) q
      (deliver-accept_command payload_size name ceiling u (sort_pending pending) reply_budget []
        commands (sort_pending-AllFit name ceiling pending fit) tt (omega arith) e7)
