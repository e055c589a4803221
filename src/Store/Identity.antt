-- ===== src/Store/Identity.antt =====
-- internal/core/identity.go: invitations, enrolments and the identities of the Nodes.
pub mod Authorization
pub mod Approval
use runner_loom.Base.{
  ℕ, ◌+◌, Bool, true, false, not, ◌&&◌, ◌||◌, String, Option, none, some, List, [], ◌∷◌, ◌++◌, ltb,
  str_eq, str_lt, len, is_some, Result, ok, fail, plain, require, or_fail, ◌>>=◌, ◌>>◌,
  if◌then◌else◌,
}
use runner_loom.Base.Int64.{ℤ, pos, add, eq_ℤ}
use runner_loom.Resources
use runner_loom.Resources.{Resources}
use runner_loom.Config.{Config, Node, Pool, charge, find_node}
use runner_loom.Config.Names.{valid_name, valid_id}
use runner_loom.Config.Validate.{validate}
use runner_loom.Config.Validate.Check.{Platform, Url}
use runner_loom.Store.{Store, Settings, InviteRow, EnrollmentRow, IdentityRow, seconds, read_config}
use runner_loom.Store.Messages.{drain_rows}

-- What the code takes from crypto: a request's raw bytes, if it is one, a signed certificate for a
-- request, a cluster and a Node's name, and SHA-256.
pub record Pki : Type 0 where
  pub parse_csr : String → Option String
  pub sign : String → String → String → Result String
  pub hash : String → String

pub record Invitation : Type 0 where
  pub id : String
  pub secret : String
  pub url : String
  pub expires : ℕ

pub record JoinRequest : Type 0 where
  pub id : String
  pub secret : String
  pub name : String
  pub csr : String
  pub ceiling : Resources

pub record Enrollment : Type 0 where
  pub id : String
  pub name : String
  pub csr_hash : String
  pub ceiling : Resources
  pub status : String
  pub certificate : String

unfoldable pub is_origin : Option Url → Bool
is_origin none = false
is_origin (some u) =
    str_eq u.scheme "https"
    && not (str_eq u.host "")
    && not u.has_user
    && str_eq u.raw_query ""
    && str_eq u.fragment ""
    && str_eq u.path ""

abbrev pub minute : ℕ
minute = 60000000000

abbrev pub hour : ℕ
hour = 3600000000000

unfoldable pub find_invite : String → List InviteRow → Option InviteRow
find_invite id [] = none
find_invite id (r ∷ rows) = if str_eq r.id id then some r else find_invite id rows

-- `Invite`, with its random ID and secret. The lifetime is in nanoseconds.
unfoldable pub invite :
    Platform → Pki → ℕ → String → String → String → ℕ → Store → Result (Store × Invitation)
unfolding is_origin find_invite
invite e k now id secret endpoint ttl s = do
  require (is_origin (e.parse_url endpoint)) (plain "advertised endpoint must be an https origin")
  require (not (ltb ttl minute) && not (ltb hour ttl))
      (plain "invitation lifetime must be 1..60 minutes")
  require (not (is_some (find_invite id s.invites))) (plain "UNIQUE constraint failed")
  let row : InviteRow = record {
    id = id;
    hash = k.hash secret;
    expires = seconds (now + ttl);
    used = false;
    revoked = false;
  }
  ok (
    record s { invites = row ∷ s.invites },
    record { id = id; secret = secret; url = endpoint; expires = now + ttl },
  )

unfoldable pub by_invite : String → List EnrollmentRow → Option EnrollmentRow
by_invite id [] = none
by_invite id (r ∷ rows) = if str_eq r.invite id then some r else by_invite id rows

unfoldable pub find_enrollment : String → List EnrollmentRow → Option EnrollmentRow
find_enrollment id [] = none
find_enrollment id (r ∷ rows) = if str_eq r.id id then some r else find_enrollment id rows

-- The table in the order of its IDs.
unfoldable pub place_enrollment : EnrollmentRow → List EnrollmentRow → List EnrollmentRow
place_enrollment r [] = r ∷ []
place_enrollment r (q ∷ rows) =
    if str_lt q.id r.id then q ∷ place_enrollment r rows else r ∷ q ∷ rows

unfoldable pub same_resources : Resources → Resources → Bool
same_resources a b = eq_ℤ a.cpu b.cpu && eq_ℤ a.memory b.memory && eq_ℤ a.disk b.disk

-- An invitation that admits whoever knows its secret.
unfoldable pub admits : Pki → ℕ → String → InviteRow → Bool
admits k now secret i =
    not i.revoked && ltb (seconds now) i.expires && str_eq i.hash (k.hash secret)

unfoldable pub enrollment_of : EnrollmentRow → String → Enrollment
enrollment_of r csr_hash = record {
  id = r.id;
  name = r.name;
  csr_hash = csr_hash;
  ceiling = r.ceiling;
  status = r.status;
  certificate = r.certificate;
}

-- A request that comes again must be the one that the invitation is bound to.
unfoldable pub rejoin :
    Pki → String → JoinRequest → EnrollmentRow → Store → Result (Store × Enrollment)
unfolding same_resources enrollment_of
rejoin k raw q r s = do
  require (str_eq (k.hash r.csr) (k.hash q.csr) && str_eq r.name q.name) (fail "INVITE_BOUND")
  require (same_resources r.ceiling q.ceiling) (fail "INVITE_BOUND")
  ok (s, enrollment_of r (k.hash raw))

unfoldable pub join_new :
    Pki → String → String → JoinRequest → InviteRow → Store → Result (Store × Enrollment)
unfolding find_enrollment place_enrollment enrollment_of
join_new k id raw q i s = do
  require (not i.used) (fail "INVITE_USED")
  require (not (is_some (find_enrollment id s.enrollments))) (plain "UNIQUE constraint failed")
  let row : EnrollmentRow = record {
    id = id;
    invite = q.id;
    name = q.name;
    csr = q.csr;
    ceiling = q.ceiling;
    status = "PendingApproval";
    certificate = "";
  }
  ok (record s { enrollments = place_enrollment row s.enrollments }, enrollment_of row (k.hash raw))

-- The transaction of `Join`, on a request that parses.
unfoldable pub join_row :
    Pki
    → String
    → String
    → JoinRequest
    → InviteRow
    → Option EnrollmentRow
    → Store
    → Result (Store × Enrollment)
unfolding rejoin join_new
join_row k id raw q i (some r) s = rejoin k raw q r s
join_row k id raw q i none s = join_new k id raw q i s

unfoldable pub good_request : JoinRequest → Bool
good_request q =
    valid_name q.name && valid_id q.id && not (ltb 128 (len q.secret)) && Resources.valid q.ceiling

-- `Join`. `id` is the fresh ID of an enrolment.
unfoldable pub join_cluster : Pki → ℕ → String → JoinRequest → Store → Result (Store × Enrollment)
unfolding good_request find_invite by_invite admits join_row
join_cluster k now id q s = do
  require (good_request q) (fail "ENROLLMENT_INPUT")
  raw ← or_fail (k.parse_csr q.csr) (fail "CSR_INVALID")
  i ← or_fail (find_invite q.id s.invites) (fail "INVITE_INVALID")
  require (admits k now q.secret i) (fail "INVITE_INVALID")
  join_row k id raw q i (by_invite q.id s.enrollments) s

-- `Pending`, over the rows in the order of their IDs.
unfoldable pub pending_enrollments : Pki → List EnrollmentRow → Result (List Enrollment)
unfolding enrollment_of
pending_enrollments k [] = ok []
pending_enrollments k (r ∷ rows) =
    let rest = pending_enrollments k rows in
    if str_eq r.status "PendingApproval"
    then (or_fail (k.parse_csr r.csr) (fail "CSR_INVALID") >>= λ raw.
        rest >>= λ more. ok (enrollment_of r (k.hash raw) ∷ more))
    else rest

unfoldable pub find_identity : String → List IdentityRow → Option IdentityRow
find_identity name [] = none
find_identity name (r ∷ rows) = if str_eq r.name name then some r else find_identity name rows
