-- ===== src/Safety/Certificates.antt =====
-- What a client's certificates open: after a revocation nothing, after a renewal the new one, and
-- the old one for seven days.
use runner_loom.Safety.Tasks.{IsSafe-same}
use runner_loom.Safety.{IsSafe}
use runner_loom.Base.{
  ℕ, ◌+◌, Bool, true, false, not, ◌&&◌, ◌||◌, String, none, some, List, [], ◌∷◌, ◌≡◌, refl, ap, ◌∙◌,
  sym, subst, inl, inr, ltb, str_eq, arith, Bool-cases, Option-cases, eq_iff, ok, err, fail,
  require, Result, ok-injective, >>=-eq-ok, is_some,
}
use runner_loom.Base.Int64.{pos, eq_ℤ}
use runner_loom.Config.Names.{valid_name}
use runner_loom.Store.{Store, TaskRow, ClientRow, find_client, find_task, read_config, seconds}
use runner_loom.Store.Sync.Delivery.{task_payload, may_deliver, is_live_client}
use runner_loom.Store.Clients.{
  accepts, authorize_client, approve_client, update_client_certificate, renewal_grace, renew_row,
  any_current, is_current, is_revoked,
}
use runner_loom.Safety.Access.Clients.{IsOut}

-- A client that is revoked is not authorized, whatever its certificate and the time.
pub authorize_client-IsOut :
    (later : ℕ) (hash : String → String) (name cert : String) (s : Store)
    → IsOut name s.clients
    → authorize_client later hash name cert s ≡ err (fail "CLIENT_UNAUTHORIZED")
unfolding authorize_client accepts
authorize_client-IsOut later hash name cert s l = rw (l.known, l.revoked) refl

-- No payload of its tasks is handed out.
pub task_payload-IsOut :
    (name id : String) (s : Store) (row : TaskRow)
    → IsOut name s.clients
    → find_task id s.tasks ≡ some row
    → row.payload.client ≡ name
    → task_payload id s ≡ ok none
unfolding task_payload may_deliver is_live_client
task_payload-IsOut name id s row l f e = elim (Option-cases row.secret) [
  | inl g ↦ rw (f, g) refl
  | inr (box, g) ↦ rw (f, g, closed) refl
]
  where
    closed :
        (may_deliver row.payload && is_live_client (find_client row.payload.client s.clients))
        ≡ false
    closed = rw (e, l.known, l.revoked) (ground arith)

find_client-name :
    (name : String) (rows : List ClientRow) (r : ClientRow)
    → find_client name rows ≡ some r
    → str_eq r.name name ≡ true
unfolding find_client
find_client-name name [] r h = cc
find_client-name name (q ∷ rows) r h = elim (Bool-cases (str_eq q.name name)) [
  | inl e ↦
      let p : q ≡ r = cc (rw e at h) in subst (λ (x : ClientRow). str_eq x.name name ≡ true) p e
  | inr e ↦ find_client-name name rows r (rw e at h)
]

abbrev renewed : ℕ → String → ClientRow → ClientRow
renewed until hash r = record r {
  previous_hash = r.certificate_hash;
  previous_until = until;
  certificate_hash = hash;
}

find_client-renew_row :
    (until : ℕ) (name hash : String) (rows : List ClientRow) (r : ClientRow)
    → find_client name rows ≡ some r
    → r.revoked ≡ false
    → find_client name (renew_row until name hash rows) ≡ some (renewed until hash r)
unfolding find_client renew_row is_current
find_client-renew_row until name hash [] r h v = cc
find_client-renew_row until name hash (q ∷ rows) r h v = elim (Bool-cases (str_eq q.name name)) [
  | inl e ↦
      let p : q ≡ r = cc (rw e at h) in
      let w : q.revoked ≡ false = ap (λ (x : ClientRow). x.revoked) p ∙ v in
      let k : (str_eq q.name name && not q.revoked) ≡ true = ground arith in
      rw k (rw e (ap (λ x. some (renewed until hash x)) p))
  | inr e ↦ rw e (rw e (find_client-renew_row until name hash rows r (rw e at h) v))
]

-- After a successful UpdateClientCertificate of a stored client that is not revoked, the new
-- certificate is authorized at every time, and the old one, when its hash is not empty and not
-- the new one's, exactly before the second in which seven days have passed.
pub update_client_certificate-grace :
    (now later : ℕ) (hash : String → String) (name fresh old : String) (s t : Store) (r : ClientRow)
    → find_client name s.clients ≡ some r
    → r.revoked ≡ false
    → r.certificate_hash ≡ hash old
    → str_eq (hash old) "" ≡ false
    → str_eq (hash fresh) (hash old) ≡ false
    → update_client_certificate now hash name fresh s ≡ ok t
    → (authorize_client later hash name fresh t ≡ ok tt)
      × (authorize_client later hash name old t
          ≡ require
              (ltb (seconds later) (seconds (now + renewal_grace)))
              (fail "CLIENT_UNAUTHORIZED"))
unfolding update_client_certificate authorize_client accepts
update_client_certificate-grace now later hash name fresh old s t r f v c e d h =
    let (_, _, h1) =
      >>=-eq-ok (require (any_current name s.clients) (fail "CLIENT_UNAUTHORIZED")) _ h in
    let until = seconds (now + renewal_grace) in
    let g : find_client name t.clients ≡ some (renewed until (hash fresh) r) =
      ap (λ (x : Store). find_client name x.clients) (sym (ok-injective h1))
      ∙ find_client-renew_row until name (hash fresh) s.clients r f v in
    let same : str_eq (hash fresh) (hash fresh) ≡ true =
      (eq_iff (hash fresh) (hash fresh)).1 refl in
    let kept : str_eq (hash old) (hash old) ≡ true = (eq_iff (hash old) (hash old)).1 refl in
    (rw (g, v, same) refl, rw (g, v, d, c, e, kept) refl)

pub approve_client-IsSafe :
    (now : ℕ) (hash : String → String) (sign : String → String → Result String) (name : String)
    (replace : Bool) (s t : Store) (answer : String × String)
    → IsSafe s
    → approve_client now hash sign name replace s ≡ ok (t, answer)
    → IsSafe t
unfolding approve_client
approve_client-IsSafe now hash sign name replace s t answer v h =
    let known = find_client name s.clients in
    let (_, _, h1) = >>=-eq-ok (require (valid_name name) (fail "CLIENT_INPUT")) _ h in
    let (_, _, h2) =
      >>=-eq-ok (require (not (eq_ℤ (read_config s).1 (pos 0))) (fail "NOT_CONFIGURED")) _ h1 in
    let (_, _, h3) = >>=-eq-ok (require (not (is_revoked known)) (fail "CLIENT_REVOKED")) _ h2 in
    let (_, _, h4) =
      >>=-eq-ok (require (not (is_some known) || replace) (fail "CLIENT_EXISTS")) _ h3 in
    let (cert, _, h5) = >>=-eq-ok (sign (read_config s).0.name name) _ h4 in
    subst IsSafe (ap (λ (x : Store × (String × String)). x.0) (ok-injective h5))
      (IsSafe-same _ s refl refl v)

pub update_client_certificate-IsSafe :
    (now : ℕ) (hash : String → String) (name cert : String) (s t : Store)
    → IsSafe s
    → update_client_certificate now hash name cert s ≡ ok t
    → IsSafe t
unfolding update_client_certificate
update_client_certificate-IsSafe now hash name cert s t v h =
    let (_, _, h1) =
      >>=-eq-ok (require (any_current name s.clients) (fail "CLIENT_UNAUTHORIZED")) _ h in
    subst IsSafe (ok-injective h1) (IsSafe-same _ s refl refl v)
