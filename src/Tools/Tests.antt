-- ===== src/Tools/Tests.antt =====
-- A run of the status of a tool.
use analytics_platform_contr.Prelude.{◌≡◌, refl, codes, teq, some, [], ◌∷◌}
use analytics_platform_contr.Tools.Deployment.{
  Condition, deploying, get_status, status_of, is_condition, condition_of,
}

abbrev progressing : Condition
progressing = record { type_name = codes "Progressing"; status = codes "True" }

still_deploying :
    get_status (some (record { replicas = 1; conditions = progressing ∷ [] })) [] ≡ deploying
unfolding get_status status_of is_condition condition_of teq
still_deploying = refl
