-- ===== src/Store/Identity/Approval.antt =====
-- internal/core/identity.go: `Approve`, which signs a Node's certificate and configures the Node.
use runner_loom.Store.Identity.{
  Pki, Enrollment, find_invite, find_enrollment, enrollment_of, find_identity,
}
use runner_loom.Base.{
  ℕ, Bool, true, false, not, ◌&&◌, String, Option, none, some, List, [], ◌∷◌, ◌++◌, ltb, str_eq,
  is_some, Result, ok, fail, plain, require, or_fail, ◌>>=◌, ◌>>◌, if◌then◌else◌,
}
use runner_loom.Base.Int64.{ℤ, pos, add, eq_ℤ}
use runner_loom.Resources
use runner_loom.Resources.{Resources}
use runner_loom.Config.{Config, Node, Pool, charge, find_node}
use runner_loom.Config.Validate.{validate}
use runner_loom.Config.Validate.Check.{Platform}
use runner_loom.Store.{Store, Settings, InviteRow, EnrollmentRow, seconds, read_config}

-- The Pools for GitHub whose VMs fit the ceiling.
unfoldable pub fitting_pools : Resources → List Pool → List String
fitting_pools ceiling [] = []
fitting_pools ceiling (p ∷ ps) =
    let rest = fitting_pools ceiling ps in
    if Resources.fits (charge p) ceiling && not p.tasks then p.name ∷ rest else rest

-- The configuration with the Node: a configured one must fit its ceiling.
unfoldable pub with_node : Config → String → Resources → Option Node → Result Config
unfolding fitting_pools
with_node c name ceiling (some n) = do
  require (Resources.fits n.budget ceiling) (fail "LOCAL_CEILING")
  ok c
with_node c name ceiling none = ok (record c {
  nodes =
      c.nodes
      ++ record {
        name = name;
        budget = ceiling;
        local_ceiling = ceiling;
        labels = [];
        allowed_pools = fitting_pools ceiling c.pools;
      }
        ∷ [];
})

unfoldable pub approve_row : String → String → List EnrollmentRow → List EnrollmentRow
approve_row id certificate [] = []
approve_row id certificate (r ∷ rows) =
    (if str_eq r.id id then record r { status = "Approved"; certificate = certificate } else r)
    ∷ approve_row id certificate rows

unfoldable pub use_invite : String → List InviteRow → List InviteRow
use_invite id [] = []
use_invite id (r ∷ rows) =
    (if str_eq r.id id then record r { used = true } else r) ∷ use_invite id rows

-- `UPDATE settings`, of the one row.
unfoldable pub set_settings : Config → ℤ → Option Settings → Option Settings
set_settings c revision none = none
set_settings c revision (some r) = some (record { revision = revision; payload = c })

unfoldable pub is_usable : ℕ → InviteRow → Bool
is_usable now i = not i.used && not i.revoked && ltb (seconds now) i.expires

-- The writes of `Approve`.
unfoldable pub enrol : Pki → EnrollmentRow → Config → ℤ → String → Store → Store
unfolding approve_row use_invite set_settings
enrol k r c revision certificate s = record s {
  identities =
      record { name = r.name; certificate_hash = k.hash certificate; revoked = false }
      ∷ s.identities;
  enrollments = approve_row r.id certificate s.enrollments;
  invites = use_invite r.invite s.invites;
  settings = set_settings c revision s.settings;
}

-- `Approve` of a request that is still pending.
unfoldable pub approve_pending :
    Platform → Pki → ℕ → String → EnrollmentRow → Store → Result (Store × Enrollment)
unfolding find_invite is_usable find_identity with_node enrol enrollment_of
approve_pending e k now raw r s = do
  i ← or_fail (find_invite r.invite s.invites) (plain "sql: no rows in result set")
  require (is_usable now i) (fail "INVITE_INVALID")
  let (c, revision) = read_config s
  require (not (eq_ℤ revision (pos 0))) (fail "NOT_CONFIGURED")
  require (not (is_some (find_identity r.name s.identities))) (fail "NODE_NAME_EXISTS")
  d ← with_node c r.name r.ceiling (find_node c.nodes r.name)
  validate e d
  certificate ← k.sign r.csr c.name r.name
  ok (
    enrol k r d (add revision (pos 1)) certificate s,
    enrollment_of (record r { status = "Approved"; certificate = certificate }) (k.hash raw),
  )

-- `Approve`.
unfoldable pub approve : Platform → Pki → ℕ → String → Store → Result (Store × Enrollment)
unfolding find_enrollment approve_pending enrollment_of
approve e k now id s = do
  r ← or_fail (find_enrollment id s.enrollments) (fail "ENROLLMENT_NOT_FOUND")
  raw ← or_fail (k.parse_csr r.csr) (fail "CSR_INVALID")
  if str_eq r.status "Approved"
      then ok (s, enrollment_of r (k.hash raw))
      else approve_pending e k now raw r s
