-- ===== src/Rules/Gates.antt =====
-- What holds of every permission of the table.
use analytics_platform_contr.Prelude.{
  ◌≡◌, refl, Text, Bool, true, false, Option, none, some, List, [], ◌∷◌, all, arith,
}
use analytics_platform_contr.Rules.{
  Library, Tables, User, Object, tool_deployment, is_app_admin, has_bucket_access,
  has_bucket_write_access, is_bucket_admin, is_owner,
}
use analytics_platform_contr.Rules.Table.{
  Rule, authenticated, superuser, iam_user, internal_user, database_admin, app_admin, bucket_access,
  bucket_write_access, bucket_admin, self_user, owner, dashboard_admin, both, either, test,
  app_permissions, bucket_permissions, user_permissions, access_permissions, tool_permissions,
  owner_permissions, dashboard_permissions, permissions, rule_of,
}

-- Whether the first predicate of a rule is that the user is authenticated.
abbrev asks_authenticated : Rule → Bool
asks_authenticated authenticated = true
asks_authenticated (both a b) = asks_authenticated a
asks_authenticated _ = false

test-asks :
    (lib : Library) (t : Tables) (user : User) (obj : Option Object) (r : Rule)
    → asks_authenticated r ≡ true
    → test lib t user obj r ≡ some true
    → lib.is_authenticated user ≡ true
unfolding test
test-asks lib t user obj authenticated h k = ground arith
test-asks lib t user obj (both a b) h k = ground (arith, test-asks lib t user obj a h)
test-asks lib t user obj (either a b) h k = ground arith
test-asks lib t user obj superuser h k = ground arith
test-asks lib t user obj iam_user h k = ground arith
test-asks lib t user obj internal_user h k = ground arith
test-asks lib t user obj database_admin h k = ground arith
test-asks lib t user obj app_admin h k = ground arith
test-asks lib t user obj bucket_access h k = ground arith
test-asks lib t user obj bucket_write_access h k = ground arith
test-asks lib t user obj bucket_admin h k = ground arith
test-asks lib t user obj self_user h k = ground arith
test-asks lib t user obj owner h k = ground arith
test-asks lib t user obj dashboard_admin h k = ground arith

rule_of-all :
    (p : Rule → Bool) (name : Text) (r : Rule) (ps : List (Text × Rule))
    → all (λ e. p e.1) ps ≡ true
    → rule_of name ps ≡ some r
    → p r ≡ true
unfolding rule_of
rule_of-all p name r [] h k = ground arith
rule_of-all p name r ((n, q) ∷ ps) h k = ground (arith, rule_of-all p name r ps)

all_ask : all (λ e. asks_authenticated e.1) permissions ≡ true
unfolding permissions app_permissions bucket_permissions user_permissions access_permissions
    tool_permissions owner_permissions dashboard_permissions
all_ask = refl

-- For every permission of the table, user and object: if its rule says yes, the user is
-- authenticated.
pub permission_authenticated :
    (lib : Library) (t : Tables) (user : User) (obj : Option Object) (name : Text) (r : Rule)
    → rule_of name permissions ≡ some r
    → test lib t user obj r ≡ some true
    → lib.is_authenticated user ≡ true
permission_authenticated lib t user obj name r h k =
    test-asks lib t user obj r (rule_of-all asks_authenticated name r permissions all_ask h) k

-- Where there is no object, every rule gives the same answer for all rows of the tables.
test-none :
    (lib : Library) (t t' : Tables) (user : User) (r : Rule)
    → test lib t user none r ≡ test lib t' user none r
unfolding test is_app_admin has_bucket_access has_bucket_write_access is_bucket_admin
test-none lib t t' user (both a b) =
    ground (arith, test-none lib t t' user a, test-none lib t t' user b)
test-none lib t t' user (either a b) =
    ground (arith, test-none lib t t' user a, test-none lib t t' user b)
test-none lib t t' user authenticated = refl
test-none lib t t' user superuser = refl
test-none lib t t' user iam_user = refl
test-none lib t t' user internal_user = refl
test-none lib t t' user database_admin = refl
test-none lib t t' user app_admin = refl
test-none lib t t' user bucket_access = refl
test-none lib t t' user bucket_write_access = refl
test-none lib t t' user bucket_admin = refl
test-none lib t t' user self_user = refl
test-none lib t t' user owner = refl
test-none lib t t' user dashboard_admin = refl

is_owner_raises :
    (user : User) (obj : Option Object) → is_owner user obj ≡ none → obj ≡ some tool_deployment
unfolding is_owner
is_owner_raises user obj h = ground arith

-- A rule raises for no object but a tool deployment.
pub test-raises :
    (lib : Library) (t : Tables) (user : User) (obj : Option Object) (r : Rule)
    → test lib t user obj r ≡ none
    → obj ≡ some tool_deployment
unfolding test
test-raises lib t user obj (both a b) h =
    ground (arith, test-raises lib t user obj a, test-raises lib t user obj b)
test-raises lib t user obj (either a b) h =
    ground (arith, test-raises lib t user obj a, test-raises lib t user obj b)
test-raises lib t user obj owner h = is_owner_raises user obj h
test-raises lib t user obj r h = ground arith
