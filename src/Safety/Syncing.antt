-- ===== src/Safety/Syncing.antt =====
-- `Sync` moves each VM as its report says, and keeps the database sound.
use runner_loom.Base.{
  ℕ, false, not, String, List, [], ◌≡◌, refl, ap, ◌∙◌, sym, subst, contains, All-of_All, ok, fail,
  ok-injective, or_fail, require, >>=-eq-ok,
}
use runner_loom.Resources
use runner_loom.Config.{find_node}
use runner_loom.Instance.{Instance, Observation}
use runner_loom.Task.{TaskPayload}
use runner_loom.Store.{Store, read_config, read_instances, read_nodes}
use runner_loom.Scheduler.{observed}
use runner_loom.Store.Sync.{
  SyncResponse, sync, put_node, seen_at, good_report, is_stale, duplicated,
}
use runner_loom.Store.Sync.Report.{advance, Pending}
use runner_loom.Store.Sync.Delivery.{deliver, sort_pending, reply_budget}
use runner_loom.Store.Sync.Moves.{Move, Swept, advance-Swept}
use runner_loom.Ledger.{Ledger, IsSound, Distinct}
use runner_loom.Ledger.Shrink.{Pointwise, Ledger-Below}
use runner_loom.Safety.{IsSafe}
use runner_loom.Safety.Rows.{Moves-Below, Move-id, Pointwise-ids, Distinct-keys}
use runner_loom.Safety.Operations.{read_config-eq}

-- A report that `Sync` accepts has gone through its loop.
pub record Accepted (now : ℕ) (name : String) (o : Observation) (s t : Store) : Type 0 where
  pub pending : List Pending
  pub swept :
      advance now name o.instances
        (read_instances s)
        (record s { nodes = put_node name (seen_at now o) s.nodes }, [])
      ≡ ok (t, pending)

pub sync-Accepted :
    (payload_size : TaskPayload → ℕ) (now : ℕ) (name : String) (o : Observation) (s t : Store)
    (response : SyncResponse)
    → sync payload_size now name o s ≡ ok (t, response)
    → Accepted now name o s t
unfolding sync
sync-Accepted payload_size now name o s t response h =
    let (_, _, h1) = >>=-eq-ok (require (good_report name o) (fail "NODE_REPORT")) _ h in
    let (n, _, h2) =
      >>=-eq-ok (or_fail (find_node (read_config s).0.nodes name) (fail "NODE_NOT_CONFIGURED")) _
        h1 in
    let (_, _, h3) =
      >>=-eq-ok (require (Resources.fits n.budget o.ceiling) (fail "LOCAL_CEILING")) _ h2 in
    let (_, _, h4) =
      >>=-eq-ok (require (not (is_stale (observed (read_nodes s) name) o)) (fail "STALE_REPORT")) _
        h3 in
    let (_, _, h5) =
      >>=-eq-ok (require (not (duplicated o.instances)) (fail "DUPLICATE_REPORT")) _ h4 in
    let ((u, pending), e6, h6) =
      >>=-eq-ok
        (advance now name o.instances (read_instances s)
          (record s { nodes = put_node name (seen_at now o) s.nodes }, []))
        _ h5 in
    let (commands, _, h7) =
      >>=-eq-ok (deliver payload_size u (sort_pending pending) (reply_budget, [])) _ h6 in
    record {
      pending = pending;
      swept = e6 ∙ ap (λ (z : Store × SyncResponse). ok (z.0, pending)) (ok-injective h7);
    }

sync-Swept :
    (payload_size : TaskPayload → ℕ) (now : ℕ) (name : String) (o : Observation) (s t : Store)
    (response : SyncResponse)
    → Distinct (λ a. a.id) (read_instances s)
    → sync payload_size now name o s ≡ ok (t, response)
    → Swept name o.instances []
        (read_instances s)
        (record s { nodes = put_node name (seen_at now o) s.nodes })
        t
sync-Swept payload_size now name o s t response d h =
    let a = sync-Accepted payload_size now name o s t response h in
    advance-Swept now name o.instances [] (read_instances s)
      (record s { nodes = put_node name (seen_at now o) s.nodes }) [] t a.pending refl
      (All-of_All (λ (x : Instance). contains [] x.id ≡ false) (λ x. refl) (read_instances s)) d
      a.swept

pub sync-Move :
    (payload_size : TaskPayload → ℕ) (now : ℕ) (name : String) (o : Observation) (s t : Store)
    (response : SyncResponse)
    → Distinct (λ a. a.id) (read_instances s)
    → sync payload_size now name o s ≡ ok (t, response)
    → Pointwise (Move name o.instances) (read_instances t) (read_instances s)
sync-Move payload_size now name o s t response d h =
    let w = sync-Swept payload_size now name o s t response d h in
    subst (λ rows. Pointwise (Move name o.instances) rows (read_instances s)) (sym w.written)
      w.moves

-- A report that Sync accepts on a sound database leaves a sound database, whatever the Node
-- claims of its VMs.
pub sync-IsSafe :
    (payload_size : TaskPayload → ℕ) (now : ℕ) (name : String) (o : Observation) (s t : Store)
    (response : SyncResponse)
    → IsSafe s
    → sync payload_size now name o s ≡ ok (t, response)
    → IsSafe t
sync-IsSafe payload_size now name o s t response v h =
    let w = sync-Swept payload_size now name o s t response v.distinct h in
    let moves = sync-Move payload_size now name o s t response v.distinct h in
    let same = read_config-eq t s w.settings_kept in
    record {
      sound = subst IsSound (sym same) v.sound;
      ledger =
          subst (λ c. Ledger c (read_instances t)) (sym same)
            (Ledger-Below (read_config s).0 (read_instances t) (read_instances s)
              (Moves-Below name o.instances (read_instances t) (read_instances s) v.ledger.nonneg
                moves)
              v.ledger);
      distinct =
          Distinct-keys (read_instances t) (read_instances s)
            (Pointwise-ids (Move name o.instances) (Move-id name o.instances) (read_instances t)
              (read_instances s) moves)
            v.distinct;
    }
