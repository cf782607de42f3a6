-- ===== src/Rules.antt =====
-- The predicates of controlpanel/api/rules.py on a user and the object of a request, if there is one.
-- `is_authenticated` and `is_superuser` of the package `rules` are parameters.
pub mod Table
pub mod Admins
pub mod Gates
mod Tests
use analytics_platform_contr.Prelude.{
  ℕ, Text, codes, teq, Bool, true, false, not, ◌&&◌, ◌||◌, Option, none, some, List, any, ◌==◌,
  starts_with, if◌then◌else◌,
}

pub record User : Type 0 where
  pub auth0_id : Text
  pub is_external_user : Bool
  pub is_database_admin : Bool
  pub k8s_namespace : Text

pub record Library : Type 0 where
  pub is_authenticated : User → Bool
  pub is_superuser : User → Bool

-- A row of UserApp, and one of UserS3Bucket. A user is known by its key.
pub record UserApp : Type 0 where
  pub user : Text
  pub app : ℕ
  pub is_admin : Bool

pub record UserS3Bucket : Type 0 where
  pub user : Text
  pub s3bucket : ℕ
  pub access_level : Text
  pub is_admin : Bool

pub record Tables : Type 0 where
  pub userapps : List UserApp
  pub users3buckets : List UserS3Bucket

-- The objects that the predicates tell apart, by what these read of them: the keys of an app or a
-- bucket, the creator of a parameter if it is still there, and the admins of a dashboard.
pub data Object : Type 0 where
  app : ℕ → Object
  apps3bucket : ℕ → ℕ → Object
  userapp : UserApp → Object
  s3bucket : ℕ → Object
  users3bucket : UserS3Bucket → Object
  user_object : User → Object
  tool_deployment : Object
  parameter : Option Text → Object
  dashboard : List Text → Object
  other : Object

-- `User.is_iam_user`
unfoldable pub is_iam_user : User → Bool
is_iam_user user = starts_with user.auth0_id (codes "github|")

unfoldable pub is_internal_user : User → Bool
is_internal_user user = not user.is_external_user

-- user in app.admins
unfoldable pub in_admins : Tables → Text → ℕ → Bool
in_admins t u a = any (λ row. row.app == a && (row.is_admin && teq row.user u)) t.userapps

-- `is_app_admin`; for a row of UserApp it is the row that is asked.
unfoldable pub is_app_admin : Library → Tables → User → Option Object → Bool
is_app_admin lib t user none = true
is_app_admin lib t user (some obj) = lib.is_superuser user || elim obj [
  | app a ↦ in_admins t user.auth0_id a
  | apps3bucket a _ ↦ in_admins t user.auth0_id a
  | userapp row ↦ row.is_admin
  | s3bucket _ ↦ false
  | users3bucket _ ↦ false
  | user_object _ ↦ false
  | tool_deployment ↦ false
  | parameter _ ↦ false
  | dashboard _ ↦ false
  | other ↦ false
]

-- UserS3Bucket.objects.get(user=user, s3bucket=obj, **kwargs), where the keyword arguments are a test
-- of the row. A user has one row for a bucket at most.
unfoldable pub has_row : (UserS3Bucket → Bool) → Tables → User → ℕ → Bool
has_row criteria t user b =
    any (λ row. teq row.user user.auth0_id && (row.s3bucket == b && criteria row)) t.users3buckets

-- No keyword arguments
abbrev pub any_row : UserS3Bucket → Bool
any_row row = true

-- `has_bucket_access`, which passes its keyword arguments on for a bucket only.
unfoldable pub has_bucket_access : (UserS3Bucket → Bool) → Tables → User → Option Object → Bool
has_bucket_access criteria t user none = true
has_bucket_access criteria t user (some (s3bucket b)) = has_row criteria t user b
has_bucket_access criteria t user (some (apps3bucket _ b)) = has_row any_row t user b
has_bucket_access criteria t user (some (users3bucket row)) = has_row any_row t user row.s3bucket
has_bucket_access criteria t user (some _) = false

-- access_level=UserS3Bucket.READWRITE
abbrev pub is_readwrite : UserS3Bucket → Bool
is_readwrite row = teq row.access_level (codes "readwrite")

unfoldable pub has_bucket_write_access : Tables → User → Option Object → Bool
has_bucket_write_access t user obj = has_bucket_access is_readwrite t user obj

-- is_admin=True
abbrev pub is_admin_row : UserS3Bucket → Bool
is_admin_row row = row.is_admin

-- `is_bucket_admin`, which asks for the bucket of a row.
unfoldable pub is_bucket_admin : Tables → User → Option Object → Bool
is_bucket_admin t user none = true
is_bucket_admin t user (some (s3bucket b)) =
    has_bucket_access is_admin_row t user (some (s3bucket b))
is_bucket_admin t user (some (apps3bucket _ b)) =
    has_bucket_access is_admin_row t user (some (s3bucket b))
is_bucket_admin t user (some (users3bucket row)) =
    has_bucket_access is_admin_row t user (some (s3bucket row.s3bucket))
is_bucket_admin t user (some _) = false

unfoldable pub is_database_admin : Library → User → Bool
is_database_admin lib user = lib.is_superuser user || user.is_database_admin

-- user == other: the same key of the same model.
unfoldable pub is_self : User → Option Object → Bool
is_self user none = true
is_self user (some (user_object u)) = teq user.auth0_id u.auth0_id
is_self user (some _) = false

-- `is_owner`: a tool deployment has no attribute `deployment`, and AttributeError is raised, which is
-- `none`.
unfoldable pub is_owner : User → Option Object → Option Bool
is_owner user none = some true
is_owner user (some tool_deployment) = none
is_owner user (some (parameter none)) = some false
is_owner user (some (parameter (some creator))) = some (teq creator user.auth0_id)
is_owner user (some _) = some false

unfoldable pub is_dashboard_admin : Library → User → Option Object → Bool
is_dashboard_admin lib user none = true
is_dashboard_admin lib user (some obj) = lib.is_superuser user || elim obj [
  | app _ ↦ false
  | apps3bucket _ _ ↦ false
  | userapp _ ↦ false
  | s3bucket _ ↦ false
  | users3bucket _ ↦ false
  | user_object _ ↦ false
  | tool_deployment ↦ false
  | parameter _ ↦ false
  | dashboard admins ↦ any (λ a. teq a user.auth0_id) admins
  | other ↦ false
]
