-- ===== src/Rules/Table.antt =====
-- The permissions that controlpanel/api/rules.py adds, each with its rule, and what a rule says.
use analytics_platform_contr.Prelude.{
  Text, codes, teq, Bool, true, false, Option, none, some, List, [], ◌∷◌, ◌++◌, if◌then◌else◌,
}
use analytics_platform_contr.Rules.{
  Library, Tables, User, Object, is_iam_user, is_internal_user, is_database_admin, is_app_admin,
  has_bucket_access, any_row, has_bucket_write_access, is_bucket_admin, is_self, is_owner,
  is_dashboard_admin,
}

-- The predicates that rules are made of, and the combinations by `&` and `|`.
pub data Rule : Type 0 where
  authenticated superuser iam_user internal_user database_admin : Rule
  app_admin bucket_access bucket_write_access bucket_admin self_user owner dashboard_admin : Rule
  both either : Rule → Rule → Rule

-- `&` and `|` ask their second predicate only where the first leaves it open; a predicate that raises
-- is `none`.
unfoldable pub test : Library → Tables → User → Option Object → Rule → Option Bool
test lib t user obj authenticated = some (lib.is_authenticated user)
test lib t user obj superuser = some (lib.is_superuser user)
test lib t user obj iam_user = some (is_iam_user user)
test lib t user obj internal_user = some (is_internal_user user)
test lib t user obj database_admin = some (is_database_admin lib user)
test lib t user obj app_admin = some (is_app_admin lib t user obj)
test lib t user obj bucket_access = some (has_bucket_access any_row t user obj)
test lib t user obj bucket_write_access = some (has_bucket_write_access t user obj)
test lib t user obj bucket_admin = some (is_bucket_admin t user obj)
test lib t user obj self_user = some (is_self user obj)
test lib t user obj owner = is_owner user obj
test lib t user obj dashboard_admin = some (is_dashboard_admin lib user obj)
test lib t user obj (both a b) =
    let second = test lib t user obj b in
    elim (test lib t user obj a) [ none ↦ none | some x ↦ if x then second else some false ]
test lib t user obj (either a b) =
    let second = test lib t user obj b in
    elim (test lib t user obj a) [ none ↦ none | some x ↦ if x then some true else second ]

unfoldable pub app_permissions : List (Text × Rule)
app_permissions =
    (codes "api.list_app", both (both authenticated iam_user) internal_user)
    ∷ (codes "api.create_app", both authenticated superuser)
    ∷ (codes "api.retrieve_app", both authenticated app_admin)
    ∷ (codes "api.update_app", both authenticated app_admin)
    ∷ (codes "api.add_cloud_platform_arn", both authenticated app_admin)
    ∷ (codes "api.destroy_app", both authenticated superuser)
    ∷ (codes "api.add_app_customer", both authenticated app_admin)
    ∷ (codes "api.remove_app_customer", both authenticated app_admin)
    ∷ (codes "api.add_app_admin", both authenticated app_admin)
    ∷ (codes "api.revoke_app_admin", both authenticated app_admin)
    ∷ (codes "api.add_app_bucket", both authenticated app_admin)
    ∷ (codes "api.remove_app_bucket", both authenticated superuser)
    ∷ (codes "api.view_app_logs", both authenticated app_admin)
    ∷ (codes "api.manage_groups", both authenticated superuser)
    ∷ (codes "api.create_policys3bucket", both authenticated superuser)
    ∷ (codes "api.update_app_settings", both authenticated app_admin)
    ∷ (codes "api.customers_app", both authenticated app_admin)
    ∷ (codes "api.add_customers_app", both authenticated app_admin)
    ∷ (codes "api.update_app_ip_allowlists", both authenticated app_admin)
    ∷ []

unfoldable pub bucket_permissions : List (Text × Rule)
bucket_permissions =
    (codes "api.list_s3bucket", both authenticated iam_user)
    ∷ (codes "api.list_webapp_bucket", both (both authenticated iam_user) internal_user)
    ∷ (codes "api.create_s3bucket", both (both authenticated iam_user) internal_user)
    ∷ (codes "api.retrieve_s3bucket", both authenticated bucket_access)
    ∷ (codes "api.update_s3bucket", both authenticated bucket_write_access)
    ∷ (codes "api.destroy_s3bucket", both authenticated bucket_admin)
    ∷ (codes "api.add_s3bucket_admin", both authenticated bucket_admin)
    ∷ (codes "api.remove_s3bucket_admin", both authenticated bucket_admin)
    ∷ (codes "api.grant_s3bucket_access", both authenticated bucket_admin)
    ∷ (codes "api.view_s3bucket_logs", both authenticated bucket_admin)
    ∷ (codes "api.is_database_admin", both authenticated database_admin)
    ∷ []

unfoldable pub user_permissions : List (Text × Rule)
user_permissions =
    (codes "api.list_user", both authenticated superuser)
    ∷ (codes "api.create_user", both authenticated superuser)
    ∷ (codes "api.retrieve_user", both authenticated self_user)
    ∷ (codes "api.update_user", both authenticated self_user)
    ∷ (codes "api.update_user_quicksight", both authenticated internal_user)
    ∷ (codes "api.update_user_bedrock", both authenticated internal_user)
    ∷ (codes "api.destroy_user", both authenticated superuser)
    ∷ (codes "api.add_superuser", both authenticated superuser)
    ∷ (codes "api.reset_mfa", both authenticated superuser)
    ∷ (codes "api.list_tool_release", both authenticated superuser)
    ∷ (codes "api.create_tool_release", both authenticated superuser)
    ∷ (codes "api.destroy_tool_release", both authenticated superuser)
    ∷ (codes "api.update_tool_release", both authenticated superuser)
    ∷ []

unfoldable pub access_permissions : List (Text × Rule)
access_permissions =
    (codes "api.list_apps3bucket", both authenticated iam_user)
    ∷ (codes "api.create_apps3bucket", both authenticated superuser)
    ∷ (codes "api.retrieve_apps3bucket", both authenticated (either app_admin bucket_admin))
    ∷ (codes "api.update_apps3bucket", both (both authenticated app_admin) bucket_admin)
    ∷ (codes "api.destroy_apps3bucket", both authenticated superuser)
    ∷ (codes "api.list_users3bucket", both authenticated iam_user)
    ∷ (codes "api.create_users3bucket", both authenticated bucket_admin)
    ∷ (codes "api.retrieve_users3bucket", both authenticated bucket_admin)
    ∷ (codes "api.update_users3bucket", both authenticated bucket_admin)
    ∷ (codes "api.destroy_users3bucket", both authenticated bucket_admin)
    ∷ (codes "api.destroy_users3bucket_self", both authenticated self_user)
    ∷ []

unfoldable pub tool_permissions : List (Text × Rule)
tool_permissions =
    (codes "api.list_tool", both authenticated iam_user)
    ∷ (codes "api.create_tool", both authenticated superuser)
    ∷ (codes "api.retrieve_tool", both authenticated superuser)
    ∷ (codes "api.update_tool", both authenticated superuser)
    ∷ (codes "api.destroy_tool", both authenticated superuser)
    ∷ (codes "api.list_ip_allowlists", both authenticated superuser)
    ∷ (codes "api.create_ip_allowlists", both authenticated superuser)
    ∷ (codes "api.update_ip_allowlists", both authenticated superuser)
    ∷ (codes "api.destroy_ip_allowlists", both authenticated superuser)
    ∷ (codes "api.create_connections", both authenticated superuser)
    ∷ []

unfoldable pub owner_permissions : List (Text × Rule)
owner_permissions =
    (codes "api.list_deployment", authenticated)
    ∷ (codes "api.create_deployment", authenticated)
    ∷ (codes "api.retrieve_deployment", both authenticated owner)
    ∷ (codes "api.update_deployment", both authenticated owner)
    ∷ (codes "api.destroy_deployment", both authenticated owner)
    ∷ (codes "api.list_parameter", both (both authenticated iam_user) internal_user)
    ∷ (codes "api.create_parameter", both (both authenticated iam_user) internal_user)
    ∷ (codes "api.retrieve_parameter", both authenticated owner)
    ∷ (codes "api.update_parameter", both authenticated owner)
    ∷ (codes "api.destroy_parameter", both authenticated owner)
    ∷ (codes "api.list_task", both authenticated superuser)
    ∷ []

unfoldable pub dashboard_permissions : List (Text × Rule)
dashboard_permissions =
    (codes "api.list_dashboard", authenticated)
    ∷ (codes "api.register_dashboard", authenticated)
    ∷ (codes "api.retrieve_dashboard", both authenticated dashboard_admin)
    ∷ (codes "api.update_dashboard", both authenticated dashboard_admin)
    ∷ (codes "api.destroy_dashboard", both authenticated dashboard_admin)
    ∷ (codes "api.add_dashboard_viewer", both authenticated dashboard_admin)
    ∷ (codes "api.add_dashboard_admin", both authenticated dashboard_admin)
    ∷ (codes "api.revoke_dashboard_admin", both authenticated dashboard_admin)
    ∷ (codes "api.revoke_dashboard_viewer", both authenticated dashboard_admin)
    ∷ (codes "api.add_dashboard_domain", both authenticated dashboard_admin)
    ∷ (codes "api.remove_dashboard_domain", both authenticated dashboard_admin)
    ∷ []

-- All that add_perm adds, in the order of the file.
unfoldable pub permissions : List (Text × Rule)
permissions =
    app_permissions
    ++ (bucket_permissions
        ++ (user_permissions
            ++ (access_permissions
                ++ (tool_permissions ++ (owner_permissions ++ dashboard_permissions)))))

-- The rule of a permission
unfoldable pub rule_of : Text → List (Text × Rule) → Option Rule
rule_of name [] = none
rule_of name ((n, r) ∷ rest) = let later = rule_of name rest in if teq n name then some r else later
