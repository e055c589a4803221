-- ===== src/Safety/Access/Clients.antt =====
-- A client that is revoked stays so under the operations on clients.
use runner_loom.Base.{
  ℕ, Bool, true, false, not, ◌||◌, String, none, some, List, [], ◌∷◌, ◌≡◌, refl, ap, ◌∙◌, sym,
  subst, inl, inr, str_eq, str_lt, is_some, arith, Bool-cases, Option-cases, eq_iff, Result, ok,
  fail, require, ok-injective, >>=-eq-ok, require-eq-ok,
}
use runner_loom.Base.Int64.{pos, eq_ℤ}
use runner_loom.Config.Names.{valid_name}
use runner_loom.Store.{Store, ClientRow, find_client, read_config}
use runner_loom.Store.Clients.{
  recertify, place_client, put_client, is_revoked, approve_client, renew_row, is_current,
  any_current, update_client_certificate, revoke_row, revoke_client, live_tasks,
}
use runner_loom.Safety.Clients.{cancel_loop-access}

-- The client is stored as revoked.
pub record IsOut (name : String) (rows : List ClientRow) : Type 0 where
  pub row : ClientRow
  pub known : find_client name rows ≡ some row
  pub revoked : row.revoked ≡ true

-- A row that is written keeps its name, and no revocation is taken back.
pub record Follows (b a : ClientRow) : Type 0 where
  pub same_name : b.name ≡ a.name
  pub still : not a.revoked || b.revoked ≡ true

Follows-refl : (a : ClientRow) → Follows a a
Follows-refl a = record { same_name = refl; still = ground arith }

abbrev AllFollow : List ClientRow → List ClientRow → Type 0
AllFollow [] [] = Unit {0}
AllFollow [] (a ∷ rows) = ⊥
AllFollow (b ∷ next) [] = ⊥
AllFollow (b ∷ next) (a ∷ rows) = Follows b a × AllFollow next rows

IsOut-AllFollow :
    (name : String) (next rows : List ClientRow)
    → AllFollow next rows
    → IsOut name rows
    → IsOut name next
unfolding find_client
IsOut-AllFollow name [] [] f o = o
IsOut-AllFollow name [] (a ∷ rows) f o = absurd f
IsOut-AllFollow name (b ∷ next) [] f o = absurd f
IsOut-AllFollow name (b ∷ next) (a ∷ rows) f o =
    let same : str_eq b.name name ≡ str_eq a.name name = ap (λ n. str_eq n name) f.0.same_name in
    elim (Bool-cases (str_eq a.name name)) [
      | inl e ↦
          let q : a ≡ o.row = cc (rw e at o.known) in
          let gone : a.revoked ≡ true = ap (λ (x : ClientRow). x.revoked) q ∙ o.revoked in
          let kept = f.0.still in
          record { row = b; known = rw (same, e) refl; revoked = ground arith }
      | inr e ↦
          let rest =
            IsOut-AllFollow name next rows f.1
              (record { row = o.row; known = rw e at o.known; revoked = o.revoked }) in
          record { row = rest.row; known = rw (same, e) rest.known; revoked = rest.revoked }
    ]

recertify-follow :
    (name hash : String) (rows : List ClientRow) → AllFollow (recertify name hash rows) rows
unfolding recertify
recertify-follow name hash [] = tt
recertify-follow name hash (r ∷ rows) = elim (Bool-cases (str_eq r.name name)) [
  | inl e ↦
      rw e (record { same_name = refl; still = ground arith }, recertify-follow name hash rows)
  | inr e ↦ rw e (Follows-refl r, recertify-follow name hash rows)
]

renew_row-follow :
    (until : ℕ) (name hash : String) (rows : List ClientRow)
    → AllFollow (renew_row until name hash rows) rows
unfolding renew_row
renew_row-follow until name hash [] = tt
renew_row-follow until name hash (r ∷ rows) = elim (Bool-cases (is_current name r)) [
  | inl e ↦
      rw e
        (record { same_name = refl; still = ground arith }, renew_row-follow until name hash rows)
  | inr e ↦ rw e (Follows-refl r, renew_row-follow until name hash rows)
]

revoke_row-follow : (name : String) (rows : List ClientRow) → AllFollow (revoke_row name rows) rows
unfolding revoke_row
revoke_row-follow name [] = tt
revoke_row-follow name (r ∷ rows) = elim (Bool-cases (str_eq r.name name)) [
  | inl e ↦ rw e (record { same_name = refl; still = ground arith }, revoke_row-follow name rows)
  | inr e ↦ rw e (Follows-refl r, revoke_row-follow name rows)
]

find_client-place_client :
    (name : String) (c : ClientRow) (rows : List ClientRow)
    → str_eq c.name name ≡ false
    → find_client name (place_client c rows) ≡ find_client name rows
unfolding find_client place_client
find_client-place_client name c [] h = rw h refl
find_client-place_client name c (r ∷ rows) h = elim (Bool-cases (str_lt r.name c.name)) [
  | inl e ↦ rw e (elim (Bool-cases (str_eq r.name name)) [
    | inl f ↦ rw f refl
    | inr f ↦ rw f (find_client-place_client name c rows h)
  ])
  | inr e ↦ rw e (rw h refl)
]

put_client-IsOut :
    (now : ℕ) (other hash name : String) (rows : List ClientRow)
    → IsOut name rows
    → is_revoked (find_client other rows) ≡ false
    → IsOut name (put_client now other hash rows)
unfolding put_client is_revoked
put_client-IsOut now other hash name rows o h = elim (Option-cases (find_client other rows)) [
  | inr (r, e) ↦
      rw e
        (IsOut-AllFollow name (recertify other hash rows) rows (recertify-follow other hash rows) o)
  | inl e ↦ rw e (elim (Bool-cases (str_eq other name)) [
    | inl f ↦
        let q : find_client name rows ≡ none =
          ap (λ x. find_client x rows) (sym ((eq_iff other name).0 f)) ∙ e in
        cc (sym o.known ∙ q)
    | inr f ↦ record {
      row = o.row;
      known = find_client-place_client name _ rows f ∙ o.known;
      revoked = o.revoked;
    }
  ])
]

pub approve_client-IsOut :
    (now : ℕ) (hash : String → String) (sign : String → String → Result String) (other : String)
    (replace : Bool) (s t : Store) (answer : String × String)
    → approve_client now hash sign other replace s ≡ ok (t, answer)
    → ((name : String) → IsOut name s.clients → IsOut name t.clients)
      × (t.identities ≡ s.identities)
unfolding approve_client
approve_client-IsOut now hash sign other replace s t answer h =
    let known = find_client other s.clients in
    let (_, _, h1) = >>=-eq-ok (require (valid_name other) (fail "CLIENT_INPUT")) _ h in
    let (_, _, h2) =
      >>=-eq-ok (require (not (eq_ℤ (read_config s).1 (pos 0))) (fail "NOT_CONFIGURED")) _ h1 in
    let (_, e, h3) = >>=-eq-ok (require (not (is_revoked known)) (fail "CLIENT_REVOKED")) _ h2 in
    let (_, _, h4) =
      >>=-eq-ok (require (not (is_some known) || replace) (fail "CLIENT_EXISTS")) _ h3 in
    let (cert, _, h5) = >>=-eq-ok (sign (read_config s).0.name other) _ h4 in
    let q = ap (λ (x : Store × (String × String)). x.0) (ok-injective h5) in
    let free : not (is_revoked known) ≡ true = require-eq-ok _ _ e in
    (
      λ name o.
          subst (λ (x : Store). IsOut name x.clients) q
            (put_client-IsOut now other (hash cert) name s.clients o (ground arith)),
      ap (λ (x : Store). x.identities) (sym q),
    )

pub update_client_certificate-IsOut :
    (now : ℕ) (hash : String → String) (other cert : String) (s t : Store)
    → update_client_certificate now hash other cert s ≡ ok t
    → ((name : String) → IsOut name s.clients → IsOut name t.clients)
      × (t.identities ≡ s.identities)
unfolding update_client_certificate
update_client_certificate-IsOut now hash other cert s t h =
    let (_, _, h1) =
      >>=-eq-ok (require (any_current other s.clients) (fail "CLIENT_UNAUTHORIZED")) _ h in
    let q = ok-injective h1 in
    (
      λ name o.
          subst (λ (x : Store). IsOut name x.clients) q
            (IsOut-AllFollow name _ s.clients (renew_row-follow _ other (hash cert) s.clients) o),
      ap (λ (x : Store). x.identities) (sym q),
    )

pub revoke_client-IsOut :
    (now : ℕ) (other : String) (s t : Store) (n : ℕ)
    → revoke_client now other s ≡ ok (t, n)
    → ((name : String) → IsOut name s.clients → IsOut name t.clients)
      × (t.identities ≡ s.identities)
unfolding revoke_client
revoke_client-IsOut now other s t n h =
    let (_, _, h1) =
      >>=-eq-ok (require (is_some (find_client other s.clients)) (fail "CLIENT_NOT_FOUND")) _ h in
    let marked = record s { clients = revoke_row other s.clients } in
    let kept = cancel_loop-access now (live_tasks other s.tasks) marked 0 in
    let q = ap (λ (x : Store × ℕ). x.0) (ok-injective h1) in
    (
      λ name o.
          subst (λ (x : Store). IsOut name x.clients) q
            (subst (IsOut name) (ap (λ x. x.0) (sym kept))
              (IsOut-AllFollow name _ s.clients (revoke_row-follow other s.clients) o)),
      ap (λ (x : Store). x.identities) (sym q) ∙ ap (λ x. x.1) kept,
    )
