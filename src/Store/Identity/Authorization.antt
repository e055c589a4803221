-- ===== src/Store/Identity/Authorization.antt =====
-- internal/core/identity.go: who is authorized: `authorize`, `UpdateIdentityCertificate` and `Revoke`.
use runner_loom.Store.Identity.{Pki, find_identity}
use runner_loom.Base.{
  Bool, true, false, not, ◌&&◌, ◌||◌, String, Option, none, some, List, [], ◌∷◌, str_eq, is_some,
  Result, ok, fail, plain, require, ◌>>◌, if◌then◌else◌,
}
use runner_loom.Config.Names.{valid_name}
use runner_loom.Store.{Store, IdentityRow}
use runner_loom.Store.Messages.{drain_rows}

-- The identity is there, is not revoked, and its certificate is the wanted one. An empty hash is not
-- compared.
unfoldable pub is_authorized : String → Option IdentityRow → Bool
is_authorized wanted none = false
is_authorized wanted (some r) =
    not r.revoked
    && not (
        not (str_eq wanted "")
        && not (str_eq r.certificate_hash "")
        && not (str_eq r.certificate_hash wanted))

-- `authorize`, which `Authorize` calls with no hash and `AuthorizePeer` with the certificate's.
unfoldable pub authorize : String → String → Store → Result (Unit {0})
unfolding is_authorized find_identity
authorize name wanted s =
    require (is_authorized wanted (find_identity name s.identities)) (fail "NODE_UNAUTHORIZED")

unfoldable pub holds_identity : String → List IdentityRow → Bool
holds_identity name [] = false
holds_identity name (r ∷ rows) = str_eq r.name name && not r.revoked || holds_identity name rows

unfoldable pub set_identity : String → String → List IdentityRow → List IdentityRow
set_identity name hash [] = []
set_identity name hash (r ∷ rows) =
    (if str_eq r.name name && not r.revoked then record r { certificate_hash = hash } else r)
    ∷ set_identity name hash rows

-- `UpdateIdentityCertificate`.
unfoldable pub update_identity_certificate : Pki → String → String → Store → Result Store
unfolding holds_identity set_identity
update_identity_certificate k name cert s = do
  require (valid_name name && not (str_eq cert "")) (fail "NODE_UNAUTHORIZED")
  require (holds_identity name s.identities) (fail "NODE_UNAUTHORIZED")
  ok (record s { identities = set_identity name (k.hash cert) s.identities })

unfoldable pub revoke_identity : String → List IdentityRow → List IdentityRow
revoke_identity name [] = []
revoke_identity name (r ∷ rows) =
    (if str_eq r.name name then record r { revoked = true } else r) ∷ revoke_identity name rows

-- `Revoke`: the Node is drained too.
unfoldable pub revoke : String → Store → Result Store
unfolding find_identity revoke_identity drain_rows
revoke name s = do
  require (is_some (find_identity name s.identities)) (plain "node not found")
  ok (record s {
    identities = revoke_identity name s.identities;
    nodes = drain_rows name true s.nodes;
  })
