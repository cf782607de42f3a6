-- ===== src/Tools/Install.antt =====
-- `install` and `uninstall` of `ToolDeployment` in controlpanel/api/cluster.py. The tokens that are generated
-- for the placeholders and what comes of the helm process are arguments.
pub mod Values
pub mod Outcome
use analytics_platform_contr.Prelude.{
  ℕ, ◌==◌, Text, codes, teq, true, false, Option, List, [], ◌∷◌, ◌++◌, map, take, if◌then◌else◌,
}
use analytics_platform_contr.Prelude.Dicts.{put_all}
use analytics_platform_contr.Prelude.Exec.{Result, ok, err}
use analytics_platform_contr.Aws.Arn.{lower}
use analytics_platform_contr.Tools.Helm as Helm
use analytics_platform_contr.Tools.Helm.{Process, upgrade_release}

-- A value of the JSON of a tool, or of a keyword argument: a text, one that is empty or false, such as None
-- or 0, or another one that is no text.
pub data Value : Type 0 where
  text : Text → Value
  falsy truthy : Value

pub record Tool : Type 0 where
  pub chart_name : Text
  pub version : Text
  pub values : List (Text × Value)
  pub image_tag_key : Text
  pub image_tag : Text

pub record User : Type 0 where
  pub username : Text
  pub slug : Text
  pub iam_role_name : Text
  pub k8s_namespace : Text

pub record Settings : Type 0 where
  pub tools_domain : Text
  pub max_release_name_len : ℕ
  pub helm_chart_repository : Text
  pub helm_delete_timeout : Text

-- ToolDeploymentError and its subclasses, and the AttributeError of a value that has no `replace`
pub data DeploymentError : Type 0 where
  deployment_error timeout_error conflict_error attribute_error : DeploymentError

-- What `uninstall` raises: HelmReleaseNotFound as it is, ToolDeploymentError, or the ValueError of `delete`
pub data UninstallError : Type 0 where
  release_not_found not_uninstalled no_namespace : UninstallError

-- val.replace(",", r"\,"); 92 is the backslash.
unfoldable pub escaped : Text → Text
escaped [] = []
escaped (c ∷ s) = let rest = escaped s in if c == b',' then 92 ∷ b',' ∷ rest else c ∷ rest

-- f"{key}={escaped_val}"
unfoldable pub assignment : Text → Text → Text
assignment key val = key ++ (codes "=" ++ escaped val)

-- One value, before the arguments of the rest; an empty one is left out.
unfoldable pub add_arg :
    Text → Value → Result DeploymentError (List Text) → Result DeploymentError (List Text)
add_arg key falsy rest = rest
add_arg key truthy rest = err attribute_error
add_arg key (text val) (err e) = err e
add_arg key (text val) (ok rest) =
    ok (if teq val [] then rest else codes "--set" ∷ assignment key val ∷ rest)

-- The arguments for a dictionary of values
unfoldable pub set_args : List (Text × Value) → Result DeploymentError (List Text)
set_args [] = ok []
set_args ((key, val) ∷ values) = add_arg key val (set_args values)

-- A token for a placeholder
unfoldable pub token_or : Text → Value → Value
token_or token falsy = falsy
token_or token truthy = truthy
token_or token (text value) = text (if teq value (codes "<SECRET_TOKEN>") then token else value)

unfoldable pub with_token : (Text → Text) → Text × Value → Text × Value
with_token token_of (key, value) = (key, token_or (token_of key) value)

unfoldable pub raised : Result Helm.Error (Option Text) → Result DeploymentError (Option Text)
raised (ok proc) = ok proc
raised (err Helm.timed_out) = err timeout_error
raised (err Helm.in_progress) = err conflict_error
raised (err e) = err deployment_error

unfoldable pub raised_uninstall : Result Helm.Error Unit → Result UninstallError Unit
raised_uninstall (ok u) = ok u
raised_uninstall (err Helm.release_not_found) = err release_not_found
raised_uninstall (err Helm.value_error) = err no_namespace
raised_uninstall (err e) = err not_uninstalled

module _ (settings : Settings) (user : User) (tool : Tool) where
  unfoldable pub release_name : Text
  release_name = take settings.max_release_name_len (tool.chart_name ++ (codes "-" ++ user.slug))

  unfoldable pub base_values : List (Text × Value)
  base_values =
      (codes "username", text (lower user.username))
      ∷ (codes "Username", text (lower user.username))
      ∷ (codes "aws.iamRole", text user.iam_role_name)
      ∷ (codes "toolsDomain", text settings.tools_domain)
      ∷ []

  -- Later dictionaries take precedence: the tool's values, the keyword arguments, the image tag.
  unfoldable pub values_of : (Text → Text) → List (Text × Value) → List (Text × Value)
  values_of token_of kwargs =
      put_all ((tool.image_tag_key, text tool.image_tag) ∷ [])
        (put_all kwargs (put_all (map (with_token token_of) tool.values) base_values))

  unfoldable pub set_values :
      (Text → Text) → List (Text × Value) → Result DeploymentError (List Text)
  set_values token_of kwargs = set_args (values_of token_of kwargs)

  -- helm.get_chart_reference(self.chart_name)
  unfoldable pub chart_reference : Text
  chart_reference = settings.helm_chart_repository ++ (codes "/" ++ tool.chart_name)

  unfoldable pub install :
      (Text → Text) → List (Text × Value) → Process → Result DeploymentError (Option Text)
  install token_of kwargs proc = elim (set_values token_of kwargs) [
    | err e ↦ err e
    | ok args ↦ raised (
        upgrade_release release_name chart_reference
          (codes "--version" ∷ tool.version ∷ codes "--namespace" ∷ user.k8s_namespace ∷ args) proc)
  ]

  unfoldable pub uninstall : Process → Result UninstallError Unit
  uninstall proc = raised_uninstall (
      Helm.delete settings.helm_delete_timeout user.k8s_namespace (release_name ∷ []) false true
        proc)
