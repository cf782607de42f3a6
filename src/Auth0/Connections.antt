-- ===== src/Auth0/Connections.antt =====
-- The connections that are enabled for a client: `update_client_auth_connections` of `ExtendedAuth0` in
-- controlpanel/api/auth0.py, behind the creation of custom connections, with `enable_client` and
-- `disable_client`. The state is the list of connections that the API keeps, each of which is read in its turn.
pub mod Enabled
use analytics_platform_contr.Prelude.{
  ◌≡◌, refl, ap, Text, teq, teq_refl, teq_iff, teq_comm, mem, mem-append, true, false, not, ◌&&◌,
  ◌||◌, List, [], ◌∷◌, ◌++◌, map, if◌then◌else◌, arith, difference, mem-difference, IsDistinct,
  Bool, Bool-cases, inl, inr, filter, sym,
}
use analytics_platform_contr.Aws.S3AccessPolicy.{remove_first}

pub record Connection : Type 0 where
  pub id : Text
  pub name : Text
  pub enabled_clients : List Text

unfoldable pub disable_client : Text → Connection → Connection
disable_client client_id c =
    if mem client_id c.enabled_clients
    then record c { enabled_clients = remove_first client_id c.enabled_clients }
    else c

unfoldable pub enable_client : Text → Connection → Connection
enable_client client_id c =
    if not (mem client_id c.enabled_clients)
    then record c { enabled_clients = c.enabled_clients ++ client_id ∷ [] }
    else c

-- One round of the loop, given the removed and the really new connections
unfoldable pub update_connection : List Text → List Text → Text → Connection → Connection
update_connection removed_connections real_new_connections client_id c =
    let d = if mem c.name removed_connections then disable_client client_id c else c in
    if mem d.name real_new_connections then enable_client client_id d else d

unfoldable pub update_client_auth_connections :
    Text → List Text → List Text → List Connection → List Connection
update_client_auth_connections client_id new_connections existing_conns = map (
    update_connection (difference existing_conns new_connections)
      (difference new_connections existing_conns) client_id)

-- `_enable_connections_for_new_client`
unfoldable pub enable_connections_for_new_client :
    Text → List Text → List Connection → List Connection
enable_connections_for_new_client client_id chosen_connections =
    map (λ c. if mem c.name chosen_connections then enable_client client_id c else c)

-- The names that `get_client_enabled_connections` lists for one client
unfoldable pub get_client_enabled_connections : Text → List Connection → List Text
get_client_enabled_connections client_id [] = []
get_client_enabled_connections client_id (c ∷ cs) =
    let rest = get_client_enabled_connections client_id cs in
    if not (mem client_id c.enabled_clients) then rest else c.name ∷ rest
