-- ===== src/Tools/InstallTests.antt =====
-- An installation of a tool, and the theorems on installations and charts at it.
use analytics_platform_contr.Prelude.{◌≡◌, ◌≢◌, Text, codes, some, List, [], ◌∷◌, IsDistinct, arith}
use analytics_platform_contr.Prelude.Dicts.{keys, get, get_last}
use analytics_platform_contr.Prelude.Exec.{ok}
use analytics_platform_contr.Tools.Helm.{Process, finished}
use analytics_platform_contr.Tools.Install.{
  text, falsy, truthy, Tool, User, Settings, with_token, token_or, base_values, set_values, install,
}
use analytics_platform_contr.Tools.Install.Values.{value_at, flags, shown, set_values_lem}
use analytics_platform_contr.Tools.Install.Outcome.{install_outcome, install_lem}

abbrev settings : Settings
settings = record {
  tools_domain = codes "tools";
  max_release_name_len = 53;
  helm_chart_repository = codes "oci://charts";
  helm_delete_timeout = codes "7m0s";
}

abbrev user : User
user = record {
  username = codes "Ada";
  slug = codes "ada";
  iam_role_name = codes "dev_user_ada";
  k8s_namespace = codes "user-ada";
}

abbrev tool : Tool
tool = record {
  chart_name = codes "rstudio";
  version = codes "1.0.0";
  values =
      (codes "key", text (codes "<SECRET_TOKEN>"))
      ∷ (codes "image.tag", text (codes "old"))
      ∷ (codes "proxy", falsy)
      ∷ [];
  image_tag_key = codes "image.tag";
  image_tag = codes "4.1";
}

abbrev token_of : Text → Text
token_of key = codes "token"

all_text : (j : Text) → value_at settings user tool token_of [] j ≢ some truthy
unfolding get_last get with_token token_or base_values
all_text j = ground arith

-- The image tag of the tool goes before the one among its values.
set_values_lem_example :
    (ps : List (Text × Text)) × (set_values settings user tool token_of [] ≡ ok (flags ps))
    × IsDistinct (keys ps)
    × ((j : Text) → get j ps ≡ shown (value_at settings user tool token_of [] j))
set_values_lem_example = set_values_lem settings user tool token_of [] all_text

abbrev busy : Process
busy = finished 1 [] (codes "Error: Another operation (install/upgrade/rollback) is in progress")

install_lem_example :
    install settings user tool token_of [] busy
    ≡ install_outcome (set_values settings user tool token_of []) busy
install_lem_example = install_lem settings user tool token_of [] busy
