-- ===== src/Auth0/Tests.antt =====
-- An API that serves three names in pages of two, one that counts wrongly, and the connections of a client.
use analytics_platform_contr.Prelude.{
  ◌≡◌, refl, ℕ, ◌+◌, Text, codes, teq, mem, true, some, List, [], ◌∷◌, filter, arith,
}
use analytics_platform_contr.Prelude.Exec.{Result, ok}
use analytics_platform_contr.Auth0.Paging.{Error, Response, Start, get_all, enough}
use analytics_platform_contr.Auth0.Paging.Termination.{get_all_ends}
use analytics_platform_contr.Auth0.Paging.Pages.{page_of, answer, get_all_pages}
use analytics_platform_contr.Auth0.Connections.{
  Connection, update_client_auth_connections, get_client_enabled_connections,
}
use analytics_platform_contr.Auth0.Connections.Enabled.{
  names_of, update_client_auth_connections_lem,
}

abbrev email : Text
email = codes "email"

abbrev github : Text
github = codes "github"

abbrev nomis : Text
nomis = codes "nomis"

abbrev three : List Text
three = email ∷ github ∷ nomis ∷ []

abbrev serve : ℕ → Result Error (Response Text)
serve page = answer 3 (page_of 2 page three)

-- Every page has the same name, and the total is never what was promised.
abbrev repeating : ℕ → Result Error (Response Text)
repeating page = answer 5 (email ∷ [])

abbrev from_zero : Start
from_zero = record { has_pagination_option = true; page_number = 0 }

get_all_ends_example :
    (r : Result Error (List Text)) × (get_all repeating from_zero (enough repeating from_zero)
      ≡ some r)
get_all_ends_example = get_all_ends repeating from_zero

served : (k : ℕ) → serve (0 + k) ≡ answer 3 (page_of 2 k three)
served k = let same : 0 + k ≡ k = omega arith in rw same refl

get_all_pages_example : get_all serve from_zero (enough serve from_zero) ≡ some (ok three)
get_all_pages_example = get_all_pages serve 1 0 three served

abbrev a_client : Text
a_client = codes "c1"

abbrev b_client : Text
b_client = codes "c2"

abbrev connections : List Connection
connections =
    record { id = codes "1"; name = email; enabled_clients = a_client ∷ b_client ∷ [] }
    ∷ record { id = codes "2"; name = github; enabled_clients = b_client ∷ [] }
    ∷ []

update_client_auth_connections_lem_example :
    let after =
      update_client_auth_connections a_client
        (github ∷ [])
        (get_client_enabled_connections a_client connections)
        connections in
    (get_client_enabled_connections a_client after
      ≡ filter (λ n. mem n (github ∷ [])) (names_of connections))
    × (get_client_enabled_connections b_client after
        ≡ get_client_enabled_connections b_client connections)
unfolding mem teq
update_client_auth_connections_lem_example =
    update_client_auth_connections_lem a_client b_client (github ∷ []) connections
      (refl, (refl, tt)) ((refl, (refl, tt)), ((refl, tt), tt)) refl
