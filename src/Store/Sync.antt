-- ===== src/Store/Sync.antt =====
-- internal/core/store.go: `Sync`, which takes a Node's report and answers with commands for its VMs.
pub mod Report
pub mod Images
pub mod Delivery
pub mod Moves
use runner_loom.Base.{
  len, ℕ, Bool, true, false, not, ◌&&◌, ◌||◌, String, Option, none, some, List, [], ◌∷◌, str_eq,
  ltb, length, is_some, Result, ok, err, fail, ◌>>=◌, ◌>>◌, or_fail, require, if◌then◌else◌,
}
use runner_loom.Base.Int64.{ℤ, pos, lt_ℤ, le_ℤ}
use runner_loom.Resources
use runner_loom.Config.{Image, find_node}
use runner_loom.Config.Names.{valid_name}
use runner_loom.Instance.{VmReport, Observation}
use runner_loom.Scheduler.{observed}
use runner_loom.Task.{TaskPayload}
use runner_loom.Store.{Store, NodeRow, read_config, read_instances, read_nodes}
use Report.{Pending, report_of, advance}
use Images.{pool_images, run_images}
use Delivery.{Command, sort_pending, deliver, reply_budget}

pub record SyncResponse : Type 0 where
  pub commands : List Command
  pub interval_seconds : ℕ
  pub images : List Image

unfoldable pub good_report : String → Observation → Bool
good_report name o =
    str_eq o.node name
    && valid_name name
    && le_ℤ (pos 1) o.sequence
    && not (str_eq o.boot_id "")
    && not (ltb 128 (len o.boot_id))
    && Resources.valid o.ceiling
    && le_ℤ (pos 0) o.free_disk_gib
    && le_ℤ o.free_disk_gib (pos 1073741824)
    && not (ltb 10000 (length o.instances))
    && not (ltb 4096 (length o.digests))

unfoldable pub is_stale : Option Observation → Observation → Bool
is_stale none o = false
is_stale (some old) o = le_ℤ o.sequence old.sequence

-- `INSERT INTO nodes … ON CONFLICT(name) DO UPDATE SET payload`.
unfoldable pub put_node : String → Observation → List NodeRow → List NodeRow
put_node name o [] = record { name = name; payload = o; drained = false } ∷ []
put_node name o (r ∷ rows) =
    if str_eq r.name name then record r { payload = o } ∷ rows else r ∷ put_node name o rows

unfoldable pub duplicated : List VmReport → Bool
unfolding report_of
duplicated [] = false
duplicated (r ∷ rs) = is_some (report_of rs r.id) || duplicated rs

unfoldable pub seen_at : ℕ → Observation → Observation
seen_at now o = record o { seen = now; error = "" }

unfoldable pub sync :
    (TaskPayload → ℕ) → ℕ → String → Observation → Store → Result (Store × SyncResponse)
unfolding good_report is_stale put_node duplicated seen_at advance
sync payload_size now name o s = do
  require (good_report name o) (fail "NODE_REPORT")
  let c = (read_config s).0
  n ← or_fail (find_node c.nodes name) (fail "NODE_NOT_CONFIGURED")
  require (Resources.fits n.budget o.ceiling) (fail "LOCAL_CEILING")
  require (not (is_stale (observed (read_nodes s) name) o)) (fail "STALE_REPORT")
  let heard = record s { nodes = put_node name (seen_at now o) s.nodes }
  require (not (duplicated o.instances)) (fail "DUPLICATE_REPORT")
  let runs = read_instances s
  (t, pending) ← advance now name o.instances runs (heard, [])
  commands ← deliver payload_size t (sort_pending pending) (reply_budget, [])
  ok (
    t,
    record {
      commands = commands;
      interval_seconds = 5;
      images = run_images name runs (pool_images c n c.pools []);
    },
  )
