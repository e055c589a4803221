-- ===== src/Safety/Joined.antt =====
-- `Join` may come again, and fetches the certificate once the enrolment is approved.
pub mod Bound
use runner_loom.Safety.Joined.Bound.{
  same_resources_refl, join_cluster-Admitted, join_row-Bound, bound_join,
}
use runner_loom.Base.{
  ℕ, true, false, not, ◌&&◌, String, none, some, List, [], ◌∷◌, ◌≡◌, refl, ap, ◌∙◌, sym, subst, inl,
  inr, str_eq, str_lt, is_some, Bool-cases, Option-cases, eq_iff, ok, fail, plain, require, or_fail,
  ok-injective, or_fail-eq-ok, require-eq-ok, >>=-eq-ok,
}
use runner_loom.Base.Int64.{pos, add}
use runner_loom.Resources.{Resources}
use runner_loom.Config.Validate.Check.{Platform}
use runner_loom.Store.{Store, InviteRow, EnrollmentRow, read_config}
use runner_loom.Store.Identity.{
  Pki, JoinRequest, Enrollment, admits, by_invite, enrollment_of, find_enrollment, find_invite,
  good_request, join_cluster, join_new, join_row, place_enrollment, rejoin, same_resources,
}
use runner_loom.Store.Identity.Approval.{approve, approve_row, enrol, use_invite}
use runner_loom.Safety.Repeats.{eq_ℤ-refl}
use runner_loom.Safety.Enrol.{Approved, approve-cases}

-- After a successful Join the same request is answered alike and changes nothing, at every time
-- at which its invitation admits its secret, and with any fresh ID.
pub join_cluster-again :
    (k : Pki) (now later : ℕ) (id id2 : String) (q : JoinRequest) (s t : Store) (out : Enrollment)
    (i : InviteRow)
    → join_cluster k now id q s ≡ ok (t, out)
    → find_invite q.id s.invites ≡ some i
    → admits k later q.secret i ≡ true
    → join_cluster k later id2 q t ≡ ok (t, out)
join_cluster-again k now later id id2 q s t out i h f admitted =
    let a = join_cluster-Admitted k now id q s t out h in
    let b = join_row-Bound k id a.raw q a.invitation s t out a.taken in
    bound_join k later id2 a.raw q i b.row t a.good a.parsed
      (ap (find_invite q.id) b.same_invites ∙ f) admitted b.found b.same_csr b.same_ceiling
    ∙ ap (λ x. ok (t, x)) (sym b.answered)

by_invite-approve_row :
    (invite id certificate : String) (rows : List EnrollmentRow) (r : EnrollmentRow)
    → by_invite invite rows ≡ some r
    → str_eq r.id id ≡ true
    → by_invite invite (approve_row id certificate rows)
      ≡ some (record r { status = "Approved"; certificate = certificate })
unfolding by_invite approve_row
by_invite-approve_row invite id certificate [] r h e = cc
by_invite-approve_row invite id certificate (q ∷ rows) r h e =
    elim (Bool-cases (str_eq q.invite invite)) [
      | inl f ↦
          let p : q ≡ r = cc (rw f at h) in
          let g : str_eq q.id id ≡ true = ap (λ (x : EnrollmentRow). str_eq x.id id) p ∙ e in
          rw g (
            rw f (
              ap
                (λ (x : EnrollmentRow).
                  some (record x { status = "Approved"; certificate = certificate }))
                p))
      | inr f ↦
          let rest = by_invite-approve_row invite id certificate rows r (rw f at h) e in
          elim (Bool-cases (str_eq q.id id)) [ inl g ↦ rw g (rw f rest) | inr g ↦ rw g (rw f rest) ]
    ]

find_invite-use_invite :
    (id : String) (rows : List InviteRow) (i : InviteRow)
    → find_invite id rows ≡ some i
    → find_invite id (use_invite id rows) ≡ some (record i { used = true })
unfolding find_invite use_invite
find_invite-use_invite id [] i h = cc
find_invite-use_invite id (r ∷ rows) i h = elim (Bool-cases (str_eq r.id id)) [
  | inl e ↦
      let p : r ≡ i = cc (rw e at h) in
      rw e (rw e (ap (λ (x : InviteRow). some (record x { used = true })) p))
  | inr e ↦ rw e (rw e (find_invite-use_invite id rows i (rw e at h)))
]

find_enrollment-id :
    (id : String) (rows : List EnrollmentRow) (r : EnrollmentRow)
    → find_enrollment id rows ≡ some r
    → str_eq r.id id ≡ true
unfolding find_enrollment
find_enrollment-id id [] r h = cc
find_enrollment-id id (q ∷ rows) r h = elim (Bool-cases (str_eq q.id id)) [
  | inl e ↦
      let p : q ≡ r = cc (rw e at h) in subst (λ (x : EnrollmentRow). str_eq x.id id ≡ true) p e
  | inr e ↦ find_enrollment-id id rows r (rw e at h)
]

-- The request of an enrolment, with the secret of its invitation.
abbrev pub request_of : EnrollmentRow → String → JoinRequest
request_of r secret = record {
  id = r.invite;
  secret = secret;
  name = r.name;
  csr = r.csr;
  ceiling = r.ceiling;
}

-- After a successful Approve of a pending enrolment that is bound to its invitation, the same
-- Node's Join, while the invitation admits its secret, succeeds, changes nothing and answers the
-- status Approved with the certificate that Approve signed.
pub approve-join_cluster :
    (e : Platform) (k : Pki) (now later : ℕ) (id id2 secret raw : String) (r : EnrollmentRow)
    (i : InviteRow) (s t : Store) (out : Enrollment)
    → find_enrollment id s.enrollments ≡ some r
    → by_invite r.invite s.enrollments ≡ some r
    → find_invite r.invite s.invites ≡ some i
    → str_eq r.status "Approved" ≡ false
    → good_request (request_of r secret) ≡ true
    → k.parse_csr r.csr ≡ some raw
    → admits k later secret i ≡ true
    → approve e k now id s ≡ ok (t, out)
    → (w : Enrollment) × (join_cluster k later id2 (request_of r secret) t ≡ ok (t, w))
      × (w.status ≡ "Approved")
      × (w.certificate ≡ out.certificate)
unfolding enrol admits enrollment_of
approve-join_cluster e k now later id id2 secret raw r i s t out f b v pending good parsed admitted
      h =
    let (q, g, c) = approve-cases e k now id s t out h in
    let same : q ≡ r = cc (sym g ∙ f) in
    elim c [
      | inl (x, _) ↦ cc (pending, ap (λ (y : EnrollmentRow). str_eq y.status "Approved") same, x)
      | inr (_, approved) ↦
          let a = subst (λ x. Approved e k now x s t out) same approved in
          let done : EnrollmentRow = record r {
            status = "Approved";
            certificate = a.certificate;
          } in
          let u = enrol k r a.config (add (read_config s).1 (pos 1)) a.certificate s in
          let joined : join_cluster k later id2 (request_of r secret) u
              ≡ ok (u, enrollment_of done (k.hash raw)) =
            bound_join k later id2 raw (request_of r secret) (record i { used = true }) done u good
              parsed (find_invite-use_invite r.invite s.invites i v) admitted
              (by_invite-approve_row r.invite r.id a.certificate s.enrollments r b
                ((eq_iff r.id r.id).1 refl))
              (rw ((eq_iff (k.hash r.csr) (k.hash r.csr)).1 refl, (eq_iff r.name r.name).1 refl)
                refl)
              (same_resources_refl r.ceiling) in
          (
            enrollment_of done (k.hash raw),
            subst
                (λ x.
                  join_cluster k later id2 (request_of r secret) x
                  ≡ ok (x, enrollment_of done (k.hash raw)))
                a.written joined,
            refl,
            sym a.answered,
          )
    ]
