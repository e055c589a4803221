-- ===== src/Safety/Access/Nodes.antt =====
-- A Node whose identity is revoked stays out under the operations on identities.
use runner_loom.Base.{
  ℕ, true, not, ◌&&◌, ◌||◌, String, some, List, [], ◌∷◌, ◌≡◌, refl, ap, ◌∙◌, sym, subst, inl, inr,
  str_eq, is_some, arith, Bool-cases, eq_iff, ok, err, fail, plain, require, ok-injective,
  >>=-eq-ok, require-eq-ok, if◌then◌else◌,
}
use runner_loom.Config.Names.{valid_name}
use runner_loom.Config.Validate.Check.{Platform}
use runner_loom.Store.{Store, IdentityRow}
use runner_loom.Store.Identity.{Pki, Enrollment, find_identity}
use runner_loom.Store.Identity.Approval.{approve, enrol}
use runner_loom.Store.Identity.Authorization.{
  set_identity, revoke_identity, update_identity_certificate, holds_identity, revoke, is_authorized,
  authorize,
}
use runner_loom.Safety.Enrol.{approve-cases}

-- The identity is stored as revoked.
pub record IsBarred (name : String) (rows : List IdentityRow) : Type 0 where
  pub row : IdentityRow
  pub known : find_identity name rows ≡ some row
  pub revoked : row.revoked ≡ true

-- A write that keeps the names and takes no revocation back.
pub record Follows (b a : IdentityRow) : Type 0 where
  pub same_name : b.name ≡ a.name
  pub still : not a.revoked || b.revoked ≡ true

abbrev AllFollow : List IdentityRow → List IdentityRow → Type 0
AllFollow [] [] = Unit {0}
AllFollow [] (a ∷ rows) = ⊥
AllFollow (b ∷ next) [] = ⊥
AllFollow (b ∷ next) (a ∷ rows) = Follows b a × AllFollow next rows

IsBarred-AllFollow :
    (name : String) (next rows : List IdentityRow)
    → AllFollow next rows
    → IsBarred name rows
    → IsBarred name next
unfolding find_identity
IsBarred-AllFollow name [] [] f o = o
IsBarred-AllFollow name [] (a ∷ rows) f o = absurd f
IsBarred-AllFollow name (b ∷ next) [] f o = absurd f
IsBarred-AllFollow name (b ∷ next) (a ∷ rows) f o =
    let same : str_eq b.name name ≡ str_eq a.name name = ap (λ n. str_eq n name) f.0.same_name in
    elim (Bool-cases (str_eq a.name name)) [
      | inl e ↦
          let q : a ≡ o.row = cc (rw e at o.known) in
          let gone : a.revoked ≡ true = ap (λ (x : IdentityRow). x.revoked) q ∙ o.revoked in
          let kept = f.0.still in
          record { row = b; known = rw (same, e) refl; revoked = ground arith }
      | inr e ↦
          let rest =
            IsBarred-AllFollow name next rows f.1
              (record { row = o.row; known = rw e at o.known; revoked = o.revoked }) in
          record { row = rest.row; known = rw (same, e) rest.known; revoked = rest.revoked }
    ]

set_identity-follow :
    (name hash : String) (rows : List IdentityRow) → AllFollow (set_identity name hash rows) rows
unfolding set_identity
set_identity-follow name hash [] = tt
set_identity-follow name hash (r ∷ rows) = elim (Bool-cases (str_eq r.name name && not r.revoked)) [
  | inl e ↦
      rw e (record { same_name = refl; still = ground arith }, set_identity-follow name hash rows)
  | inr e ↦
      rw e (record { same_name = refl; still = ground arith }, set_identity-follow name hash rows)
]

revoke_identity-follow :
    (name : String) (rows : List IdentityRow) → AllFollow (revoke_identity name rows) rows
unfolding revoke_identity
revoke_identity-follow name [] = tt
revoke_identity-follow name (r ∷ rows) = elim (Bool-cases (str_eq r.name name)) [
  | inl e ↦
      rw e (record { same_name = refl; still = ground arith }, revoke_identity-follow name rows)
  | inr e ↦
      rw e (record { same_name = refl; still = ground arith }, revoke_identity-follow name rows)
]

pub update_identity_certificate-IsBarred :
    (k : Pki) (other cert : String) (s t : Store)
    → update_identity_certificate k other cert s ≡ ok t
    → ((name : String) → IsBarred name s.identities → IsBarred name t.identities)
      × (t.clients ≡ s.clients)
unfolding update_identity_certificate
update_identity_certificate-IsBarred k other cert s t h =
    let (_, _, h1) =
      >>=-eq-ok (require (valid_name other && not (str_eq cert "")) (fail "NODE_UNAUTHORIZED")) _
        h in
    let (_, _, h2) =
      >>=-eq-ok (require (holds_identity other s.identities) (fail "NODE_UNAUTHORIZED")) _ h1 in
    let q = ok-injective h2 in
    (
      λ name o.
          subst (λ (x : Store). IsBarred name x.identities) q
            (IsBarred-AllFollow name _ s.identities
              (set_identity-follow other (k.hash cert) s.identities) o),
      ap (λ (x : Store). x.clients) (sym q),
    )

pub revoke-IsBarred :
    (other : String) (s t : Store)
    → revoke other s ≡ ok t
    → ((name : String) → IsBarred name s.identities → IsBarred name t.identities)
      × (t.clients ≡ s.clients)
unfolding revoke
revoke-IsBarred other s t h =
    let (_, _, h1) =
      >>=-eq-ok (require (is_some (find_identity other s.identities)) (plain "node not found")) _
        h in
    let q = ok-injective h1 in
    (
      λ name o.
          subst (λ (x : Store). IsBarred name x.identities) q
            (IsBarred-AllFollow name _ s.identities (revoke_identity-follow other s.identities) o),
      ap (λ (x : Store). x.clients) (sym q),
    )

behind :
    (name other : String) (row : IdentityRow) (rows : List IdentityRow) (o : IsBarred name rows)
    → not (is_some (find_identity other rows)) ≡ true
    → (if str_eq other name then some row else find_identity name rows) ≡ some o.row
behind name other row rows o free = elim (Bool-cases (str_eq other name)) [
  | inl f ↦
      let q : find_identity other rows ≡ some o.row =
        ap (λ x. find_identity x rows) ((eq_iff other name).0 f) ∙ o.known in
      cc (rw q at free)
  | inr f ↦ rw f o.known
]

pub approve-IsBarred :
    (e : Platform) (k : Pki) (now : ℕ) (id : String) (s t : Store) (out : Enrollment)
    → approve e k now id s ≡ ok (t, out)
    → ((name : String) → IsBarred name s.identities → IsBarred name t.identities)
      × (t.clients ≡ s.clients)
unfolding enrol find_identity
approve-IsBarred e k now id s t out h =
    let (r, _, c) = approve-cases e k now id s t out h in
    elim c [
      | inl (_, q) ↦ (
        λ name o. subst (λ (x : Store). IsBarred name x.identities) q o,
        ap (λ (x : Store). x.clients) (sym q),
      )
      | inr (_, a) ↦ (
        λ name o.
            subst (λ (x : Store). IsBarred name x.identities) a.written
              (record {
                row = o.row;
                known = behind name r.name _ s.identities o a.new_name;
                revoked = o.revoked;
              }),
        ap (λ (x : Store). x.clients) (sym a.written),
      )
    ]

-- A Node that is out is not authorized.
pub authorize-IsBarred :
    (name wanted : String) (s : Store)
    → IsBarred name s.identities
    → authorize name wanted s ≡ err (fail "NODE_UNAUTHORIZED")
unfolding authorize is_authorized
authorize-IsBarred name wanted s o = rw (o.known, o.revoked) refl

find_identity-revoke_identity :
    (name : String) (rows : List IdentityRow)
    → is_some (find_identity name rows) ≡ true
    → IsBarred name (revoke_identity name rows)
unfolding find_identity revoke_identity
find_identity-revoke_identity name [] h = cc
find_identity-revoke_identity name (r ∷ rows) h = elim (Bool-cases (str_eq r.name name)) [
  | inl e ↦ rw e (record { row = record r { revoked = true }; known = rw e refl; revoked = refl })
  | inr e ↦
      let rest = find_identity-revoke_identity name rows (rw e at h) in
      rw e (record { row = rest.row; known = rw e rest.known; revoked = rest.revoked })
]

-- A successful Revoke.
pub revoke-bars : (name : String) (s t : Store) → revoke name s ≡ ok t → IsBarred name t.identities
unfolding revoke
revoke-bars name s t h =
    let (_, e, h1) =
      >>=-eq-ok (require (is_some (find_identity name s.identities)) (plain "node not found")) _
        h in
    subst (λ (x : Store). IsBarred name x.identities) (ok-injective h1)
      (find_identity-revoke_identity name s.identities (require-eq-ok _ _ e))
