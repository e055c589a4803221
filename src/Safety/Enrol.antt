-- ===== src/Safety/Enrol.antt =====
-- `Approve` adds a Node to the cluster and keeps the database sound.
use runner_loom.Base.{
  ℕ, true, false, not, String, Option, none, some, List, [], ◌∷◌, ◌++◌, ◌≡◌, refl, ap, ◌∙◌, sym,
  subst, inl, inr, str_eq, contains, is_some, All, arith, Bool-cases, Option-cases, eq_iff, ok,
  fail, plain, require, or_fail, ok-injective, or_fail-eq-ok, require-eq-ok, >>=-eq-ok, ◌⊎◌,
  All-snoc,
}
use runner_loom.Base.Int64.{ℤ, pos, add, eq_ℤ}
use runner_loom.Resources
use runner_loom.Resources.{Resources}
use runner_loom.Resources.Laws.{Kind}
use runner_loom.Config.{Config, Node, Reservation, find_node}
use runner_loom.Config.Validate.{validate}
use runner_loom.Config.Validate.Check.{Platform}
use runner_loom.Instance.{Instance}
use runner_loom.Store.{Store, InviteRow, EnrollmentRow, read_config, read_instances}
use runner_loom.Store.Identity.{
  Pki, Enrollment, find_invite, find_identity, find_enrollment, enrollment_of,
}
use runner_loom.Store.Identity.Approval.{
  with_node, set_settings, enrol, is_usable, approve_pending, approve,
}
use runner_loom.Ledger.{IsSound, Ledger, keys, free_sum, reserved_sum}
use runner_loom.Safety.{IsSafe}
use runner_loom.Safety.Sound.{validate-IsSound}

-- Every VM is on a configured Node.
abbrev pub IsHoused : Config → List Instance → Type 0
IsHoused c = All (λ a. is_some (find_node c.nodes a.node) ≡ true)

find_node-absent :
    (ns : List Node) (name : String)
    → find_node ns name ≡ none
    → contains (keys (λ n. n.name) ns) name ≡ false
unfolding find_node
find_node-absent [] name h = refl
find_node-absent (n ∷ ns) name h = elim (Bool-cases (str_eq n.name name)) [
  | inl e ↦ cc (rw e at h)
  | inr e ↦ rw e (find_node-absent ns name (rw e at h))
]

-- Nothing is held on a Node that is not configured, and nothing is reserved there.
free_sum-absent :
    (k : Kind) (c : Config) (name : String) (runs : List Instance)
    → find_node c.nodes name ≡ none
    → IsHoused c runs
    → free_sum k name runs ≡ 0
free_sum-absent k c name [] f h = refl
free_sum-absent k c name (a ∷ runs) f h =
    let rest = free_sum-absent k c name runs f h.1 in
    elim (Bool-cases (str_eq a.node name)) [
      | inl e ↦
          let q : find_node c.nodes a.node ≡ none =
            ap (find_node c.nodes) ((eq_iff a.node name).0 e) ∙ f in
          absurd (nowhere (h.0) q)
      | inr e ↦ rw e (omega (arith, rest))
    ]
  where
    nowhere : {o : Option Node} → is_some o ≡ true → o ≡ none → ⊥
    nowhere {o = none} p q = ground arith
    nowhere {o = some n} p q = cc

reserved_sum-absent :
    (k : Kind) (c : Config) (name : String) (rs : List Reservation)
    → contains (keys (λ n. n.name) c.nodes) name ≡ false
    → All (λ r. contains (keys (λ n. n.name) c.nodes) r.node ≡ true) rs
    → reserved_sum k c name rs ≡ 0
reserved_sum-absent k c name [] f h = refl
reserved_sum-absent k c name (r ∷ rs) f h =
    let rest = reserved_sum-absent k c name rs f h.1 in
    elim (Bool-cases (str_eq r.node name)) [
      | inl e ↦
          let q : contains (keys (λ n. n.name) c.nodes) r.node ≡ false =
            ap (contains (keys (λ n. n.name) c.nodes)) ((eq_iff r.node name).0 e) ∙ f in
          cc (h.0, q)
      | inr e ↦ rw e (omega (arith, rest))
    ]

-- The ledger with one more Node.
node_added-Ledger :
    (c : Config) (n : Node) (runs : List Instance)
    → IsSound c
    → find_node c.nodes n.name ≡ none
    → IsHoused c runs
    → Ledger c runs
    → Ledger (record c { nodes = c.nodes ++ n ∷ [] }) runs
node_added-Ledger c n runs v f h l = record {
  nonneg = l.nonneg;
  owned = l.owned;
  in_slots = l.in_slots;
  slots_suffice = l.slots_suffice;
  within_budget = λ k. All-snoc _ c.nodes n (l.within_budget k) (
      omega (
        arith,
        free_sum-absent k c n.name runs f h,
        reserved_sum-absent k c n.name c.reservations (find_node-absent c.nodes n.name f) v.targets,
      ));
  within_limits = l.within_limits;
}

with_node-Ledger :
    (c d : Config) (name : String) (ceiling : Resources) (o : Option Node) (runs : List Instance)
    → find_node c.nodes name ≡ o
    → IsSound c
    → IsHoused c runs
    → Ledger c runs
    → with_node c name ceiling o ≡ ok d
    → Ledger d runs
unfolding with_node
with_node-Ledger c d name ceiling none runs f v h l e =
    subst (λ x. Ledger x runs) (ok-injective e) (node_added-Ledger c _ runs v f h l)
with_node-Ledger c d name ceiling (some n) runs f v h l e =
    let (_, _, e1) =
      >>=-eq-ok (require (Resources.fits n.budget ceiling) (fail "LOCAL_CEILING")) _ e in
    subst (λ x. Ledger x runs) (ok-injective e1) l

set_settings-config :
    (k : Pki) (r : EnrollmentRow) (d : Config) (revision : ℤ) (certificate : String) (s : Store)
    → not (eq_ℤ (read_config s).1 (pos 0)) ≡ true
    → (read_config (enrol k r d revision certificate s)).0 ≡ d
unfolding read_config enrol set_settings
set_settings-config k r d revision certificate s h = elim (Option-cases s.settings) [
  | inl e ↦ let q = rw e at h in ground arith
  | inr (x, e) ↦ rw e refl
]

-- What an approval that is new has checked, and what it writes.
pub record Approved (e : Platform) (k : Pki) (now : ℕ) (r : EnrollmentRow) (s t : Store)
    (out : Enrollment) : Type 0 where
  pub invitation : InviteRow
  pub invited : find_invite r.invite s.invites ≡ some invitation
  pub usable : is_usable now invitation ≡ true
  pub configured : not (eq_ℤ (read_config s).1 (pos 0)) ≡ true
  pub new_name : not (is_some (find_identity r.name s.identities)) ≡ true
  pub config : Config
  pub extended :
      with_node (read_config s).0 r.name r.ceiling (find_node (read_config s).0.nodes r.name)
      ≡ ok config
  pub valid : validate e config ≡ ok tt
  pub certificate : String
  pub written : enrol k r config (add (read_config s).1 (pos 1)) certificate s ≡ t
  pub answered : out.certificate ≡ certificate

pub approve_pending-Approved :
    (e : Platform) (k : Pki) (now : ℕ) (raw : String) (r : EnrollmentRow) (s t : Store)
    (out : Enrollment)
    → approve_pending e k now raw r s ≡ ok (t, out)
    → Approved e k now r s t out
unfolding approve_pending enrollment_of
approve_pending-Approved e k now raw r s t out h =
    let (c, revision) = read_config s in
    let (i, e1, h1) =
      >>=-eq-ok (or_fail (find_invite r.invite s.invites) (plain "sql: no rows in result set")) _
        h in
    let (_, e2, h2) = >>=-eq-ok (require (is_usable now i) (fail "INVITE_INVALID")) _ h1 in
    let (_, e3, h3) =
      >>=-eq-ok (require (not (eq_ℤ revision (pos 0))) (fail "NOT_CONFIGURED")) _ h2 in
    let (_, e4, h4) =
      >>=-eq-ok
        (require (not (is_some (find_identity r.name s.identities))) (fail "NODE_NAME_EXISTS")) _
        h3 in
    let (d, e5, h5) = >>=-eq-ok (with_node c r.name r.ceiling (find_node c.nodes r.name)) _ h4 in
    let (_, e6, h6) = >>=-eq-ok (validate e d) _ h5 in
    let (certificate, e7, h7) = >>=-eq-ok (k.sign r.csr c.name r.name) _ h6 in
    record {
      invitation = i;
      invited = or_fail-eq-ok _ _ e1;
      usable = require-eq-ok _ _ e2;
      configured = require-eq-ok _ _ e3;
      new_name = require-eq-ok _ _ e4;
      config = d;
      extended = e5;
      valid = e6;
      certificate = certificate;
      written = ap (λ (x : Store × Enrollment). x.0) (ok-injective h7);
      answered = ap (λ (x : Store × Enrollment). x.1.certificate) (sym (ok-injective h7));
    }

pub approve-cases :
    (e : Platform) (k : Pki) (now : ℕ) (id : String) (s t : Store) (out : Enrollment)
    → approve e k now id s ≡ ok (t, out)
    → (r : EnrollmentRow) × (find_enrollment id s.enrollments ≡ some r)
      × (((str_eq r.status "Approved" ≡ true) × (s ≡ t))
          ⊎ ((str_eq r.status "Approved" ≡ false) × Approved e k now r s t out))
unfolding approve
approve-cases e k now id s t out h =
    let (r, e1, h1) =
      >>=-eq-ok (or_fail (find_enrollment id s.enrollments) (fail "ENROLLMENT_NOT_FOUND")) _ h in
    let (raw, _, h2) = >>=-eq-ok (or_fail (k.parse_csr r.csr) (fail "CSR_INVALID")) _ h1 in
    (
      r,
      or_fail-eq-ok _ _ e1,
      elim (Bool-cases (str_eq r.status "Approved")) [
        | inl f ↦ inl (f, ap (λ (x : Store × Enrollment). x.0) (ok-injective (rw f at h2)))
        | inr f ↦ inr (f, approve_pending-Approved e k now raw r s t out (rw f at h2))
      ],
    )

-- A successful Approve on a sound database, in which every VM is on a configured Node, leaves a
-- sound database.
pub approve-IsSafe :
    (e : Platform) (k : Pki) (now : ℕ) (id : String) (s t : Store) (out : Enrollment)
    → IsSafe s
    → IsHoused (read_config s).0 (read_instances s)
    → approve e k now id s ≡ ok (t, out)
    → IsSafe t
unfolding enrol
approve-IsSafe e k now id s t out v housed h =
    let (r, _, c) = approve-cases e k now id s t out h in
    elim c [
      | inl (_, q) ↦ subst IsSafe q v
      | inr (_, a) ↦
          let same =
            set_settings-config k r a.config (add (read_config s).1 (pos 1)) a.certificate s
              a.configured in
          subst IsSafe a.written (record {
            sound = subst IsSound (sym same) (validate-IsSound e a.config a.valid);
            ledger =
                subst (λ d. Ledger d (read_instances s)) (sym same)
                  (with_node-Ledger (read_config s).0 a.config r.name r.ceiling _ (read_instances s)
                    refl v.sound housed v.ledger a.extended);
            distinct = v.distinct;
          })
    ]
