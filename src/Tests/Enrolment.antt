-- ===== src/Tests/Enrolment.antt =====
-- An invitation, a Node's request, its approval and revocation; and the maintenance of the tables.
use runner_loom.Safety.Tasks.{IsSafe-same}
use runner_loom.Config.Validate.Reserved.{reservations_loop, totals, node_totals, pool_totals}
use runner_loom.Config.Validate.Pools.{pools_loop}
use runner_loom.Config.Validate.Entries.{images_loop, nodes_loop, allowed_loop}
use runner_loom.Config.Validate.GitHubBlock.{github_block}
use runner_loom.Config.Validate.{validate, problems}
use runner_loom.Base.Split.{split, trim_right, trim_left, contains_any}
use runner_loom.Base.{ℕ, true, false, String, some, [], ◌∷◌, ◌≡◌, refl, ok, err, fail, ◌+◌}
use runner_loom.Base.Int64
use runner_loom.Base.Int64.{pos}
use runner_loom.Resources
use runner_loom.Config.{
  charge, find_node, find_pool, find_image, uses_github, eligible, image_or_zero,
}
use runner_loom.Config.Names.{valid_name, valid_id, valid_digest}
use runner_loom.Store.{Store, InviteRow, EnrollmentRow, read_config}
use runner_loom.Store.Identity.{
  Enrollment, JoinRequest, admits, by_invite, find_enrollment, find_identity, find_invite,
  good_request, join_cluster,
}
use runner_loom.Store.Identity.Approval.{approve, with_node}
use runner_loom.Store.Identity.Authorization.{authorize, revoke}
use runner_loom.Store.Maintenance.{MaintenancePolicy, MaintenanceReport, maintain, referenced}
use runner_loom.Safety.{IsSafe}
use runner_loom.Safety.Enrol.{approve-IsSafe}
use runner_loom.Safety.Joined.{request_of, join_cluster-again, approve-join_cluster}
use runner_loom.Safety.History.{History, beginning, then_event, maintained, revoked_node-refused}
use runner_loom.Safety.Retire.{Retired, maintain-Retired, maintain-invite}
use runner_loom.Tests.Fixtures.{value, home_store, node_a, no_pki}
use runner_loom.Tests.Validation.{platform}
use runner_loom.Tests.Ledger.{now, home_store-IsSafe}

abbrev invite_id : String
invite_id = "0123456789abcdef0123456789abcdef"

abbrev invitation : InviteRow
invitation = record {
  id = invite_id;
  hash = "secret";
  expires = 3600;
  used = false;
  revoked = false;
}

abbrev invited : Store
invited = record home_store { invites = invitation ∷ [] }

-- The configured Node enrols with the budget that it has.
abbrev request : JoinRequest
request = record {
  id = invite_id;
  secret = "secret";
  name = "node-a";
  csr = "request";
  ceiling = node_a.budget;
}

abbrev asked : Enrollment
asked = record {
  id = "e1";
  name = "node-a";
  csr_hash = "request";
  ceiling = node_a.budget;
  status = "PendingApproval";
  certificate = "";
}

unfoldable joined_store : Store × Enrollment
unfolding join_cluster valid_name valid_id Resources.valid
joined_store = value (join_cluster no_pki now "e1" request invited) (invited, asked)

joined_eq : join_cluster no_pki now "e1" request invited ≡ ok (joined_store.0, asked)
unfolding joined_store
joined_eq = refl

join_cluster-again_example :
    join_cluster no_pki 2000 "e2" request joined_store.0 ≡ ok (joined_store.0, asked)
unfolding find_invite admits
join_cluster-again_example =
    join_cluster-again no_pki now 2000 "e1" "e2" request invited joined_store.0 asked invitation
      joined_eq refl refl

abbrev row : EnrollmentRow
row = record {
  id = "e1";
  invite = invite_id;
  name = "node-a";
  csr = "request";
  ceiling = node_a.budget;
  status = "PendingApproval";
  certificate = "";
}

abbrev answer : Enrollment
answer = record asked { status = "Approved"; certificate = "requestnode-a" }

unfoldable approved_store : Store × Enrollment
unfolding approve find_enrollment find_invite find_identity with_node read_config joined_store
    validate problems valid_name uses_github github_block valid_digest charge find_pool find_image
    find_node images_loop nodes_loop allowed_loop pools_loop reservations_loop totals node_totals
    pool_totals Resources.fits Resources.mul Resources.add Resources.valid eligible split trim_right
    trim_left contains_any image_or_zero Int64.add Int64.mul
approved_store = value (approve platform no_pki 2000 "e1" joined_store.0) (invited, asked)

approved_eq : approve platform no_pki 2000 "e1" joined_store.0 ≡ ok (approved_store.0, answer)
unfolding approved_store
approved_eq = refl

joined-IsSafe : IsSafe joined_store.0
unfolding joined_store
joined-IsSafe = IsSafe-same joined_store.0 home_store refl refl home_store-IsSafe

approve-IsSafe_example : IsSafe approved_store.0
unfolding joined_store read_config
approve-IsSafe_example =
    approve-IsSafe platform no_pki 2000 "e1" joined_store.0 approved_store.0 answer joined-IsSafe tt
      approved_eq

approve-join_cluster_example :
    (w : Enrollment) × (join_cluster no_pki 3000 "e2" (request_of row "secret") approved_store.0
      ≡ ok (approved_store.0, w))
    × (w.status ≡ "Approved")
    × (w.certificate ≡ answer.certificate)
unfolding joined_store find_enrollment by_invite find_invite good_request valid_name valid_id
    Resources.valid admits
approve-join_cluster_example =
    approve-join_cluster platform no_pki 2000 3000 "e1" "e2" "secret" "request" row invitation
      joined_store.0 approved_store.0 answer refl refl refl refl refl refl refl approved_eq

unfoldable barred_store : Store
unfolding revoke find_identity approved_store
barred_store = value (revoke "node-a" approved_store.0) invited

barred_eq : revoke "node-a" approved_store.0 ≡ ok barred_store
unfolding barred_store
barred_eq = refl

abbrev a_day : ℕ
a_day = 86400000000000

abbrev policy : MaintenancePolicy
policy = record { before = some 5000000000000; minimum_audit_rows = 1 }

abbrev no_report : MaintenanceReport
no_report = record {
  applied = true;
  expired_plans = 0;
  unreferenced_invites = 0;
  old_audit_rows = 0;
  protected_instances = 0;
  protected_inbox_rows = 0;
  protected_enrollments = 1;
}

-- The invitation is out of date, and its enrolment keeps it.
unfoldable cleaned : Store × MaintenanceReport
unfolding maintain barred_store
cleaned =
    value (maintain (a_day + a_day) "stamp" policy true barred_store) (barred_store, no_report)

cleaned_eq : maintain (a_day + a_day) "stamp" policy true barred_store ≡ ok (cleaned.0, no_report)
unfolding cleaned
cleaned_eq = refl

afterwards : History platform no_pki (λ p. 0) barred_store cleaned.0
afterwards =
    then_event beginning (maintained (a_day + a_day) "stamp" policy true no_report cleaned_eq)

revoked_node-refused_example :
    authorize "node-a" "requestnode-a" cleaned.0 ≡ err (fail "NODE_UNAUTHORIZED")
revoked_node-refused_example =
    revoked_node-refused platform no_pki (λ p. 0) "node-a" "requestnode-a" approved_store.0
      barred_store cleaned.0 barred_eq afterwards

maintain-Retired_example :
    Retired (a_day + a_day) policy barred_store cleaned.0 no_report
    × (maintain (a_day + a_day) "stamp" policy false barred_store
        ≡ ok (barred_store, record no_report { applied = false }))
maintain-Retired_example =
    maintain-Retired (a_day + a_day) "stamp" policy barred_store cleaned.0 no_report cleaned_eq

maintain-invite_example :
    find_invite invite_id cleaned.0.invites ≡ find_invite invite_id barred_store.invites
unfolding referenced barred_store approved_store
maintain-invite_example =
    maintain-invite (a_day + a_day) "stamp" invite_id policy barred_store cleaned.0 no_report refl
      cleaned_eq
