-- ===== src/Apps/Settings.antt =====
-- The listing of an app's secrets and variables on GitHub, and the names of its keys: `App` of
-- controlpanel/api/cluster.py. What GitHub lists is an argument.
pub mod Listing
pub mod Keys
mod Tests
use analytics_platform_contr.Prelude.{
  Text, codes, teq, mem, Bool, true, false, not, ◌||◌, Option, none, some, List, [], ◌∷◌, ◌++◌, any,
  if◌then◌else◌, starts_with, contains, remove_once, difference,
}

-- The settings that the listing reads
pub record Settings : Type 0 where
  pub auth_settings_secrets : List Text
  pub auth_settings_envs : List Text
  pub auth_settings_no_edit : List Text
  pub other_system_secrets : List Text
  pub secret_display_value : Text
  pub app_self_define_setting_prefix : Text

-- An item of the listing
pub record Item : Type 0 where
  pub name : Text
  pub env_name : Text
  pub value : Option Text
  pub created : Bool
  pub removable : Bool
  pub editable : Bool

abbrev pub ip_ranges : Text
ip_ranges = codes "IP_RANGES"

abbrev pub app_role_arn : Text
app_role_arn = codes "APP_ROLE_ARN"

-- The lists that `_append_value` appends to
pub record Listed : Type 0 where
  pub variables : List Item
  pub created_names : List Text

module _ (settings : Settings) where
  unfoldable pub is_hidden_secret : Text → Bool
  is_hidden_secret name =
      any (λ item. starts_with name item || contains item name) settings.other_system_secrets

  -- An item that GitHub does not have
  unfoldable pub missing_item : Text → Text → Item
  missing_item env_name item_name = record {
    name = item_name;
    env_name = env_name;
    value = none;
    created = false;
    removable = false;
    editable = not (mem item_name settings.auth_settings_no_edit);
  }

  unfoldable pub add_missing : Text → List Text → List Item → List Item
  add_missing env_name [] items = items
  add_missing env_name (name ∷ names) items =
      add_missing env_name names (items ++ missing_item env_name name ∷ [])

  unfoldable pub add_missing_mandatory_secrets : Text → Listed → List Item
  add_missing_mandatory_secrets env_name l =
      add_missing env_name (difference settings.auth_settings_secrets l.created_names) l.variables

  unfoldable pub add_missing_mandatory_vars : Text → Listed → List Item
  add_missing_mandatory_vars env_name l =
      add_missing env_name (difference settings.auth_settings_envs l.created_names) l.variables

  unfoldable pub created_item : Text → Text → Text → Item
  created_item env_name item_name value = record {
    name = item_name;
    env_name = env_name;
    value = some value;
    created = true;
    removable = not (mem item_name settings.auth_settings_secrets);
    editable = not (mem item_name settings.auth_settings_no_edit);
  }

  unfoldable pub append_value : Text → Text → Text → Listed → Listed
  append_value item_name env_name value l = record {
    variables = l.variables ++ created_item env_name item_name value ∷ [];
    created_names = l.created_names ++ item_name ∷ [];
  }

  -- visible_values.get(name, settings.SECRET_DISPLAY_VALUE)
  unfoldable pub shown_value : Text → Text → Text
  shown_value ip_ranges_names name =
      if teq ip_ranges name then ip_ranges_names else settings.secret_display_value

  -- One round of the loop over the secrets that GitHub lists by name
  unfoldable pub add_secret : Text → Text → Text → Listed → Listed
  add_secret env_name ip_ranges_names name l =
      if is_hidden_secret name || teq name app_role_arn
      then l
      else append_value name env_name (shown_value ip_ranges_names name) l

  unfoldable pub add_secrets : Text → Text → List Text → Listed → Listed
  add_secrets env_name ip_ranges_names [] l = l
  add_secrets env_name ip_ranges_names (name ∷ names) l =
      add_secrets env_name ip_ranges_names names (add_secret env_name ip_ranges_names name l)

  unfoldable pub get_env_secrets : Text → Text → Text → List Text → List Item
  get_env_secrets iam_role_arn ip_ranges_names env_name names =
      let start =
        append_value app_role_arn env_name iam_role_arn
          (record { variables = []; created_names = [] }) in
      add_missing_mandatory_secrets env_name (add_secrets env_name ip_ranges_names names start)

  unfoldable pub add_vars : Text → List (Text × Text) → Listed → Listed
  add_vars env_name [] l = l
  add_vars env_name ((name, value) ∷ items) l =
      add_vars env_name items (append_value name env_name value l)

  unfoldable pub get_env_vars : Text → List (Text × Text) → List Item
  get_env_vars env_name items =
      add_missing_mandatory_vars env_name
        (add_vars env_name items (record { variables = []; created_names = [] }))

  unfoldable pub format_github_key_name : Text → Text
  format_github_key_name key_name =
      if mem key_name settings.auth_settings_envs
      then key_name
      else if mem key_name settings.auth_settings_secrets
      then key_name
      else if starts_with key_name settings.app_self_define_setting_prefix
      then key_name
      else settings.app_self_define_setting_prefix ++ key_name

  unfoldable pub get_github_key_display_name : Text → Text
  get_github_key_display_name key_name =
      if not (starts_with key_name settings.app_self_define_setting_prefix)
      then key_name
      else remove_once settings.app_self_define_setting_prefix key_name
