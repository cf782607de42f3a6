-- ===== src/Tools/Deployment.antt =====
-- `ToolDeployment.get_deployment` and `ToolDeployment.get_status` of controlpanel/api/cluster.py, over
-- the deployments that the Kubernetes API lists for the chart.
use analytics_platform_contr.Prelude.{
  ℕ, ◌≡◌, ◌↔◌, refl, Text, codes, teq, teq_refl, Bool, true, false, Option, none, some, List, [],
  ◌∷◌, ◌++◌, ◌==◌, if◌then◌else◌, arith,
}

-- `type` and `status` of a condition
pub record Condition : Type 0 where
  pub type_name : Text
  pub status : Text

pub record Deployment : Type 0 where
  pub replicas : ℕ
  pub conditions : List Condition

pub data Status : Type 0 where
  deploying deploy_failed idled not_deployed ready unknown : Status

pub data Lookup : Type 0 where
  does_not_exist multiple_objects_returned : Lookup
  found : Deployment → Lookup

unfoldable pub get_deployment : List Deployment → Lookup
get_deployment [] = does_not_exist
get_deployment (d ∷ []) = found d
get_deployment (d ∷ _ ∷ _) = multiple_objects_returned

-- {condition.type: condition for …}: the last condition of a type stays.
unfoldable pub condition_of : Text → List Condition → Option Condition
condition_of name [] = none
condition_of name (c ∷ cs) = elim (condition_of name cs) [
  | some d ↦ some d
  | none ↦ if teq c.type_name name then some c else none
]

-- Whether there is a condition of that type with that status.
unfoldable pub is_condition : Text → Text → List Condition → Bool
is_condition name value cs = elim (condition_of name cs) [
  | none ↦ false
  | some c ↦ teq c.status value
]

-- `get_status` of a deployment
unfoldable pub status_of : Deployment → Status
status_of d =
    if is_condition (codes "Available") (codes "True") d.conditions
    then (if d.replicas == 0 then idled else ready)
    else if is_condition (codes "Progressing") (codes "True") d.conditions
    then deploying
    else if is_condition (codes "Progressing") (codes "False") d.conditions
    then deploy_failed
    else unknown

-- `get_status`, given the deployment or the list to look for it
unfoldable pub get_status : Option Deployment → List Deployment → Status
get_status (some d) listed = status_of d
get_status none listed = elim (get_deployment listed) [
  | does_not_exist ↦ not_deployed
  | multiple_objects_returned ↦ unknown
  | found d ↦ status_of d
]

condition_of-append :
    (name : Text) (cs : List Condition) (c : Condition) (ds : List Condition)
    → teq c.type_name name ≡ false
    → condition_of name (cs ++ c ∷ ds) ≡ condition_of name (cs ++ ds)
unfolding condition_of
condition_of-append name [] c ds h = ground arith
condition_of-append name (x ∷ cs) c ds h = rw (condition_of-append name cs c ds h) refl

condition_of-last :
    (name : Text) (cs : List Condition) (c : Condition)
    → teq c.type_name name ≡ true
    → condition_of name (cs ++ c ∷ []) ≡ some c
unfolding condition_of
condition_of-last name [] c h = ground arith
condition_of-last name (x ∷ cs) c h = ground (arith, condition_of-last name cs c h)

is_condition-append :
    (name value : Text) (cs : List Condition) (c : Condition) (ds : List Condition)
    → teq c.type_name name ≡ false
    → is_condition name value (cs ++ c ∷ ds) ≡ is_condition name value (cs ++ ds)
unfolding is_condition
is_condition-append name value cs c ds h = ground (arith, condition_of-append name cs c ds h)

-- The condition that the deployment is available
abbrev available : Condition
available = record { type_name = codes "Available"; status = codes "True" }

is_condition-last :
    (cs : List Condition)
    → is_condition (codes "Available") (codes "True") (cs ++ available ∷ []) ≡ true
unfolding is_condition
is_condition-last cs = ground (
  arith,
  condition_of-last (codes "Available") cs available (teq_refl (codes "Available")),
  teq_refl (codes "True"),
)

-- A condition of a deployment that is neither "Available" nor "Progressing" does not change the
-- status, wherever it stands.
get_status_other_condition :
    (n : ℕ) (cs ds : List Condition) (c : Condition) (listed : List Deployment)
    → teq c.type_name (codes "Available") ≡ false
    → teq c.type_name (codes "Progressing") ≡ false
    → get_status (some (record { replicas = n; conditions = cs ++ c ∷ ds })) listed
      ≡ get_status (some (record { replicas = n; conditions = cs ++ ds })) listed
unfolding get_status status_of
get_status_other_condition n cs ds c listed h k = ground (
  arith,
  is_condition-append (codes "Available") (codes "True") cs c ds h,
  is_condition-append (codes "Progressing") (codes "True") cs c ds k,
  is_condition-append (codes "Progressing") (codes "False") cs c ds k,
)

-- A deployment whose last condition is that it is available is ready, or idled if it has no
-- replicas, whatever the conditions before it.
get_status-available :
    (n : ℕ) (cs : List Condition) (listed : List Deployment)
    → get_status (some (record { replicas = n; conditions = cs ++ available ∷ [] })) listed
      ≡ (if n == 0 then idled else ready)
unfolding get_status status_of
get_status-available n cs listed = rw (is_condition-last cs) refl

-- With no deployment given, the status is "Not deployed" exactly where none is listed.
get_status_not_deployed :
    (listed : List Deployment) → (get_status none listed ≡ not_deployed) ↔ (listed ≡ [])
unfolding get_status get_deployment status_of
get_status_not_deployed listed = ground arith
