-- ===== src/Apps/AuthSettings/Tests.antt =====
-- Settings of an app with two environments, and the theorems about them.
use analytics_platform_contr.Prelude.{◌≡◌, refl, Text, codes, teq, some, [], ◌∷◌}
use analytics_platform_contr.Prelude.Dicts.{get, put_key}
use analytics_platform_contr.Apps.AuthSettings.{
  AppConf, AppRow, get_auth_client, info_of, save_auth_settings, get_auth0_group_list, group_list,
  auth_settings, m2m_client_id,
}
use analytics_platform_contr.Apps.AuthSettings.Laws.{save_auth_settings-get}

abbrev dev : Text
dev = codes "dev"

abbrev prod : Text
prod = codes "prod"

abbrev conf : AppConf
conf = record {
  auth_settings = some (
      (dev, (codes "client_id", some (codes "c1")) ∷ [])
      ∷ (prod, (codes "client_id", some (codes "c2")) ∷ (codes "group_id", some (codes "g2")) ∷ [])
      ∷ []);
  m2m = some (some (codes "m"));
}

abbrev row : AppRow
row = record { app_conf = some conf; stored = some conf }

groups : get_auth0_group_list row ≡ (codes "g2", prod) ∷ []
unfolding get_auth0_group_list group_list auth_settings info_of get put_key teq
groups = refl

save_auth_settings-get_example :
    let r' = save_auth_settings dev (some (some (codes "c3"))) (some (some (codes "g3"))) row in
    (info_of (codes "client_id") (get_auth_client dev r') ≡ some (codes "c3"))
    × (info_of (codes "group_id") (get_auth_client dev r') ≡ some (codes "g3"))
    × (get_auth_client prod r' ≡ get_auth_client prod row)
    × (m2m_client_id r' ≡ m2m_client_id row)
    × (r'.stored ≡ r'.app_conf)
unfolding teq
save_auth_settings-get_example =
    save_auth_settings-get dev row refl (some (codes "c3")) (some (codes "g3")) prod refl refl
