-- ===== src/Safety/Joined/Bound.antt =====
-- A Join that succeeded is bound to its invitation.
use runner_loom.Base.{
  ℕ, true, not, ◌&&◌, String, none, some, List, [], ◌∷◌, ◌≡◌, refl, ap, ◌∙◌, sym, inl, inr, str_eq,
  str_lt, is_some, Bool-cases, Option-cases, eq_iff, ok, fail, plain, require, or_fail,
  ok-injective, or_fail-eq-ok, require-eq-ok, >>=-eq-ok,
}
use runner_loom.Resources.{Resources}
use runner_loom.Store.{Store, InviteRow, EnrollmentRow}
use runner_loom.Store.Identity.{
  Pki, JoinRequest, Enrollment, admits, by_invite, enrollment_of, find_enrollment, find_invite,
  good_request, join_cluster, join_new, join_row, place_enrollment, rejoin, same_resources,
}
use runner_loom.Safety.Repeats.{eq_ℤ-refl}

pub same_resources_refl : (r : Resources) → same_resources r r ≡ true
unfolding same_resources
same_resources_refl r = rw (eq_ℤ-refl r.cpu, eq_ℤ-refl r.memory, eq_ℤ-refl r.disk) refl

by_invite-place_enrollment :
    (r : EnrollmentRow) (rows : List EnrollmentRow)
    → by_invite r.invite rows ≡ none
    → by_invite r.invite (place_enrollment r rows) ≡ some r
unfolding by_invite place_enrollment
by_invite-place_enrollment r [] h = rw ((eq_iff r.invite r.invite).1 refl) refl
by_invite-place_enrollment r (q ∷ rows) h = elim (Bool-cases (str_lt q.id r.id)) [
  | inr e ↦ rw e (rw ((eq_iff r.invite r.invite).1 refl) refl)
  | inl e ↦ elim (Bool-cases (str_eq q.invite r.invite)) [
    | inl f ↦ cc (rw f at h)
    | inr f ↦ rw e (rw f (by_invite-place_enrollment r rows (rw f at h)))
  ]
]

-- What an accepted request has passed.
pub record Admitted (k : Pki) (now : ℕ) (id : String) (q : JoinRequest) (s t : Store)
    (out : Enrollment) : Type 0 where
  pub good : good_request q ≡ true
  pub raw : String
  pub parsed : k.parse_csr q.csr ≡ some raw
  pub invitation : InviteRow
  pub invited : find_invite q.id s.invites ≡ some invitation
  pub taken : join_row k id raw q invitation (by_invite q.id s.enrollments) s ≡ ok (t, out)

pub join_cluster-Admitted :
    (k : Pki) (now : ℕ) (id : String) (q : JoinRequest) (s t : Store) (out : Enrollment)
    → join_cluster k now id q s ≡ ok (t, out)
    → Admitted k now id q s t out
unfolding join_cluster
join_cluster-Admitted k now id q s t out h =
    let (_, e1, h1) = >>=-eq-ok (require (good_request q) (fail "ENROLLMENT_INPUT")) _ h in
    let (raw, e2, h2) = >>=-eq-ok (or_fail (k.parse_csr q.csr) (fail "CSR_INVALID")) _ h1 in
    let (i, e3, h3) =
      >>=-eq-ok (or_fail (find_invite q.id s.invites) (fail "INVITE_INVALID")) _ h2 in
    let (_, _, h4) = >>=-eq-ok (require (admits k now q.secret i) (fail "INVITE_INVALID")) _ h3 in
    record {
      good = require-eq-ok _ _ e1;
      raw = raw;
      parsed = or_fail-eq-ok _ _ e2;
      invitation = i;
      invited = or_fail-eq-ok _ _ e3;
      taken = h4;
    }

-- The row that a request has left, or has found.
pub record Bound (k : Pki) (raw : String) (q : JoinRequest) (s t : Store) (out : Enrollment)
    : Type 0 where
  pub row : EnrollmentRow
  pub found : by_invite q.id t.enrollments ≡ some row
  pub same_csr : (str_eq (k.hash row.csr) (k.hash q.csr) && str_eq row.name q.name) ≡ true
  pub same_ceiling : same_resources row.ceiling q.ceiling ≡ true
  pub answered : out ≡ enrollment_of row (k.hash raw)
  pub same_invites : t.invites ≡ s.invites

rejoin-Bound :
    (k : Pki) (raw : String) (q : JoinRequest) (r : EnrollmentRow) (s t : Store) (out : Enrollment)
    → by_invite q.id s.enrollments ≡ some r
    → rejoin k raw q r s ≡ ok (t, out)
    → Bound k raw q s t out
unfolding rejoin
rejoin-Bound k raw q r s t out f h =
    let (_, e1, h1) =
      >>=-eq-ok
        (require (str_eq (k.hash r.csr) (k.hash q.csr) && str_eq r.name q.name)
          (fail "INVITE_BOUND"))
        _ h in
    let (_, e2, h2) =
      >>=-eq-ok (require (same_resources r.ceiling q.ceiling) (fail "INVITE_BOUND")) _ h1 in
    let p = ap (λ (x : Store × Enrollment). x.0) (ok-injective h2) in
    record {
      row = r;
      found = ap (λ (x : Store). by_invite q.id x.enrollments) (sym p) ∙ f;
      same_csr = require-eq-ok _ _ e1;
      same_ceiling = require-eq-ok _ _ e2;
      answered = ap (λ (x : Store × Enrollment). x.1) (sym (ok-injective h2));
      same_invites = ap (λ (x : Store). x.invites) (sym p);
    }

join_new-Bound :
    (k : Pki) (id raw : String) (q : JoinRequest) (i : InviteRow) (s t : Store) (out : Enrollment)
    → by_invite q.id s.enrollments ≡ none
    → join_new k id raw q i s ≡ ok (t, out)
    → Bound k raw q s t out
unfolding join_new
join_new-Bound k id raw q i s t out f h =
    let (_, _, h1) = >>=-eq-ok (require (not i.used) (fail "INVITE_USED")) _ h in
    let (_, _, h2) =
      >>=-eq-ok
        (require (not (is_some (find_enrollment id s.enrollments)))
          (plain "UNIQUE constraint failed"))
        _ h1 in
    let p = ap (λ (x : Store × Enrollment). x.0) (ok-injective h2) in
    let row : EnrollmentRow = record {
      id = id;
      invite = q.id;
      name = q.name;
      csr = q.csr;
      ceiling = q.ceiling;
      status = "PendingApproval";
      certificate = "";
    } in
    record {
      row = row;
      found =
          ap (λ (x : Store). by_invite q.id x.enrollments) (sym p)
          ∙ by_invite-place_enrollment row s.enrollments f;
      same_csr =
          rw ((eq_iff (k.hash q.csr) (k.hash q.csr)).1 refl, (eq_iff q.name q.name).1 refl) refl;
      same_ceiling = same_resources_refl q.ceiling;
      answered = ap (λ (x : Store × Enrollment). x.1) (sym (ok-injective h2));
      same_invites = ap (λ (x : Store). x.invites) (sym p);
    }

pub join_row-Bound :
    (k : Pki) (id raw : String) (q : JoinRequest) (i : InviteRow) (s t : Store) (out : Enrollment)
    → join_row k id raw q i (by_invite q.id s.enrollments) s ≡ ok (t, out)
    → Bound k raw q s t out
unfolding join_row
join_row-Bound k id raw q i s t out h = elim (Option-cases (by_invite q.id s.enrollments)) [
  | inl e ↦ join_new-Bound k id raw q i s t out e (rw (e, join_row) at h)
  | inr (r, e) ↦ rejoin-Bound k raw q r s t out e (rw (e, join_row) at h)
]

-- A request of a bound invitation is answered from the row.
pub bound_join :
    (k : Pki) (later : ℕ) (id raw : String) (q : JoinRequest) (i : InviteRow) (r : EnrollmentRow)
    (u : Store)
    → good_request q ≡ true
    → k.parse_csr q.csr ≡ some raw
    → find_invite q.id u.invites ≡ some i
    → admits k later q.secret i ≡ true
    → by_invite q.id u.enrollments ≡ some r
    → (str_eq (k.hash r.csr) (k.hash q.csr) && str_eq r.name q.name) ≡ true
    → same_resources r.ceiling q.ceiling ≡ true
    → join_cluster k later id q u ≡ ok (u, enrollment_of r (k.hash raw))
unfolding join_cluster join_row rejoin
bound_join k later id raw q i r u good parsed known admitted bound csr ceiling =
    rw (good, parsed, known, admitted, bound, csr, ceiling) refl
