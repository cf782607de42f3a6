-- ===== src/Rules/Tests.antt =====
-- The theorems on permissions at users and rows that meet their hypotheses.
use analytics_platform_contr.Prelude.{◌≡◌, refl, codes, teq, true, false, some, none, [], ◌∷◌}
use analytics_platform_contr.Rules.{
  Library, Tables, User, UserApp, UserS3Bucket, s3bucket, users3bucket, userapp, tool_deployment,
  has_row, is_readwrite, has_bucket_access, is_bucket_admin, is_app_admin, is_owner,
}
use analytics_platform_contr.Rules.Table.{
  both, authenticated, bucket_access, owner, test, permissions, rule_of, app_permissions,
  bucket_permissions, user_permissions, access_permissions, tool_permissions, owner_permissions,
  dashboard_permissions,
}
use analytics_platform_contr.Rules.Gates.{permission_authenticated}

abbrev ada : User
ada = record {
  auth0_id = codes "github|1";
  is_external_user = false;
  is_database_admin = false;
  k8s_namespace = codes "user-ada";
}

abbrev bob : User
bob = record ada { auth0_id = codes "github|2"; k8s_namespace = codes "user-bob" }

-- All are authenticated, and none is a superuser.
abbrev library : Library
library = record { is_authenticated = λ u. true; is_superuser = λ u. false }

abbrev admin_row : UserS3Bucket
admin_row = record {
  user = codes "github|1";
  s3bucket = 5;
  access_level = codes "readwrite";
  is_admin = true;
}

abbrev tables : Tables
tables = record { userapps = []; users3buckets = admin_row ∷ [] }

abbrev empty : Tables
empty = record { userapps = []; users3buckets = [] }

retrieve_rule :
    rule_of (codes "api.retrieve_s3bucket") permissions ≡ some (both authenticated bucket_access)
unfolding rule_of permissions app_permissions bucket_permissions user_permissions access_permissions
    tool_permissions owner_permissions dashboard_permissions teq
retrieve_rule = refl

ada_retrieves :
    test library tables ada (some (s3bucket 5)) (both authenticated bucket_access) ≡ some true
unfolding test has_bucket_access has_row teq
ada_retrieves = refl

permission_authenticated_example : library.is_authenticated ada ≡ true
permission_authenticated_example =
    permission_authenticated library tables ada (some (s3bucket 5)) (codes "api.retrieve_s3bucket")
      (both authenticated bucket_access) retrieve_rule ada_retrieves

deployment_raises : test library tables ada (some tool_deployment) (both authenticated owner) ≡ none
unfolding test is_owner
deployment_raises = refl

ada_writes : has_bucket_access is_readwrite tables ada (some (s3bucket 5)) ≡ true
unfolding has_bucket_access has_row teq
ada_writes = refl

ada_admin : is_bucket_admin tables ada (some (users3bucket admin_row)) ≡ true
unfolding is_bucket_admin has_bucket_access has_row teq
ada_admin = refl

other_user : teq (codes "github|1") (codes "github|2") ≡ false
unfolding teq
other_user = refl

abbrev app_row : UserApp
app_row = record { user = codes "github|1"; app = 3; is_admin = true }

-- Bob passes for the row that makes Ada an admin of an app.
bob_passes : is_app_admin library tables bob (some (userapp app_row)) ≡ true
unfolding is_app_admin
bob_passes = refl
