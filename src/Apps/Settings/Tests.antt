-- ===== src/Apps/Settings/Tests.antt =====
-- The listing under the settings of settings.yaml, and the theorems about it at these.
use analytics_platform_contr.Prelude.{
  ◌≡◌, refl, Text, codes, teq, mem, true, not, ◌&&◌, ◌||◌, List, [], ◌∷◌, starts_with, contains,
  IsDistinct, all,
}
use analytics_platform_contr.Apps.Settings.{
  Settings, app_role_arn, is_hidden_secret, get_env_secrets,
}
use analytics_platform_contr.Apps.Settings.Listing.{
  names_of, is_masked, get_env_secrets-names, get_env_secrets-masked,
}

abbrev defaults : Settings
defaults = record {
  auth_settings_secrets =
      codes "AUTH0_CLIENT_ID"
      ∷ codes "AUTH0_CLIENT_SECRET"
      ∷ codes "IP_RANGES"
      ∷ codes "APP_ROLE_ARN"
      ∷ [];
  auth_settings_envs =
      codes "AUTH0_DOMAIN" ∷ codes "AUTHENTICATION_REQUIRED" ∷ codes "AUTH0_PASSWORDLESS" ∷ [];
  auth_settings_no_edit =
      codes "AUTH0_CLIENT_ID"
      ∷ codes "AUTH0_CLIENT_SECRET"
      ∷ codes "AUTH0_DOMAIN"
      ∷ codes "AUTH0_PASSWORDLESS"
      ∷ codes "APP_ROLE_ARN"
      ∷ [];
  other_system_secrets = codes "ECR_" ∷ codes "KUBE_" ∷ [];
  secret_display_value = codes "*******";
  app_self_define_setting_prefix = codes "XXX_";
}

abbrev dev : Text
dev = codes "dev"

abbrev db_password : Text
db_password = codes "XXX_DB"

abbrev on_github : List Text
on_github = codes "KUBE_TOKEN" ∷ codes "IP_RANGES" ∷ db_password ∷ []

abbrev arn : Text
arn = codes "arn"

abbrev office : Text
office = codes "office"

-- A name of another system is hidden wherever the mark stands.
hidden_inside : is_hidden_secret defaults (codes "XXX_KUBE_CONFIG") ≡ true
unfolding is_hidden_secret starts_with contains
hidden_inside = refl

get_env_secrets-names_example :
    let shown = names_of (get_env_secrets defaults arn office dev on_github) in
    (mem db_password shown ≡ (
      teq app_role_arn db_password
      || (mem db_password defaults.auth_settings_secrets
          || (mem db_password on_github && not (is_hidden_secret defaults db_password)))))
    × IsDistinct shown
unfolding mem teq
get_env_secrets-names_example =
    get_env_secrets-names defaults dev office arn on_github db_password (refl, (refl, (refl, tt)))
      (refl, (refl, (refl, (refl, tt))))

get_env_secrets-masked_example :
    all (is_masked defaults dev) (get_env_secrets defaults arn office dev on_github) ≡ true
get_env_secrets-masked_example = get_env_secrets-masked defaults dev arn office on_github
