-- ===== src/Aws/Tests.antt =====
-- Runs of the policy code on small documents, and the theorems at inputs that meet their hypotheses.

use analytics_platform_contr.Prelude.{
  ◌≡◌, ◌≢◌, refl, Text, codes, teq, mem, true, false, none, some, [], ◌∷◌, starts_with, all, filter,
  ◌++◌, ◌∙◌,
}
use analytics_platform_contr.Prelude.Exec.{ok, err, ◌>>◌}
use analytics_platform_contr.Prelude.{List, not, any, ◌&&◌}
use analytics_platform_contr.Aws.Attachments.{policy_arn, remove_policy, remove_policy_result}
use analytics_platform_contr.Aws.Arn.{s3_arn}
use analytics_platform_contr.Aws.Statement.{
  Condition, base_statement, base_s3_access_statement, known_readonly,
}
use analytics_platform_contr.Aws.Document.{Document, has_sid, find, update}
use analytics_platform_contr.Aws.S3AccessPolicy.{
  is_arn_part_of_resource, ends_part, construct_sid, is_name_char, remove_parts, remove_resource,
  statement, through, ensure, build_statement, drop_resource,
}
use analytics_platform_contr.Aws.S3AccessPolicy.Parts.{is_kept, remove_parts-eq-filter}
use analytics_platform_contr.Aws.S3AccessPolicy.Resources.{resources}
use analytics_platform_contr.Aws.S3AccessPolicy.Conditions.{condition_at}
use analytics_platform_contr.Aws.S3AccessPolicy.Folders.{
  prefixes_or, remove_prefix, narrow, outside, set_prefixes, lists_nothing, revoke_folder,
  grant_paths, add_bucket,
}
use analytics_platform_contr.Aws.S3AccessPolicy.FolderAccess.{
  revoke_folder_unlists, revoked_folder_view,
}
use analytics_platform_contr.Aws.S3AccessPolicy.Narrow.{folder_sid, sub_folders_sid}
use analytics_platform_contr.Aws.S3AccessPolicy.FolderPaths.{
  grant_folder_lists, listed, listed_below,
}
use analytics_platform_contr.Aws.Samples.{
  list_iam, list_iam-Detaches, zeros, flat_md5, bucket, allowing, stored, role, role-IsOpen,
  readwrite_level,
}
use analytics_platform_contr.Aws.Role.{
  no_such_entity, IamRole, targets, grant_bucket_access, revoke_bucket_access,
}
use analytics_platform_contr.Aws.Role.Access.{granted_view, revoked_view}
use analytics_platform_contr.Aws.Role.Buckets.{
  IsOpen, holding, grant_bucket_access-view, revoke_bucket_access-view, grant_then_revoke,
}
use analytics_platform_contr.Aws.Role.Folders.{
  grant_folder_access, revoke_folder_access, folder_outcome, grant_folder_access_result,
}
use analytics_platform_contr.Aws.Role.FolderRevocations.{revoke_folder_access-view}
use analytics_platform_contr.Aws.S3AccessPolicy.Folders.{get_bucket_and_path}
use analytics_platform_contr.Aws.Role.Errors.{outcome, grant_bucket_access_result}

-- The other bucket's objects are no part of the first bucket.
other_bucket : is_arn_part_of_resource (codes "arn:aws:s3:::dev-ab/*") bucket ≡ false
unfolding is_arn_part_of_resource starts_with ends_part is_name_char
other_bucket = refl

own_objects : is_arn_part_of_resource (codes "arn:aws:s3:::dev-a/*") bucket ≡ true
unfolding is_arn_part_of_resource starts_with ends_part is_name_char
own_objects = refl

-- A character that no bucket name has ends the name: a folder with a longer name is taken for a
-- part of the folder "x".
longer_folder :
    is_arn_part_of_resource (codes "arn:aws:s3:::dev-a/x_y/*") (codes "arn:aws:s3:::dev-a/x") ≡ true
unfolding is_arn_part_of_resource starts_with ends_part is_name_char
longer_folder = refl

remove_parts-eq-filter_example :
    remove_parts bucket
      (codes "arn:aws:s3:::dev-a/*" ∷ bucket ∷ [])
      (codes "arn:aws:s3:::dev-a/*" ∷ bucket ∷ [])
    ≡ filter (is_kept bucket) (codes "arn:aws:s3:::dev-a/*" ∷ bucket ∷ [])
remove_parts-eq-filter_example =
    remove_parts-eq-filter bucket (codes "arn:aws:s3:::dev-a/*" ∷ bucket ∷ [])

bucket_nonempty : bucket ≢ []
bucket_nonempty = cc

grant_bucket_access-view_example :
    (q : Document) × (grant_bucket_access flat_md5 bucket (codes "readwrite") [] role
      ≡ (ok tt, holding role q))
    × IsOpen (holding role q) q
    × (resources (codes "readonly") q
        ≡ granted_view bucket
            (codes "readwrite")
            []
            (codes "readonly")
            (resources (codes "readonly") stored))
grant_bucket_access-view_example =
    grant_bucket_access-view flat_md5 bucket (codes "readwrite") [] role stored role-IsOpen
      (codes "readonly") readwrite_level

revoke_bucket_access-view_example :
    (q : Document) × (revoke_bucket_access flat_md5 (some bucket) role ≡ (ok tt, holding role q))
    × IsOpen (holding role q) q
    × (resources (codes "readonly") q
        ≡ revoked_view bucket (codes "readonly") (resources (codes "readonly") stored))
revoke_bucket_access-view_example =
    revoke_bucket_access-view flat_md5 bucket role stored role-IsOpen (codes "readonly")
      bucket_nonempty

bucket_objects :
    all (λ a. is_arn_part_of_resource (a ++ codes "/*") bucket) (targets bucket []) ≡ true
unfolding targets is_arn_part_of_resource starts_with ends_part is_name_char teq
bucket_objects = refl

grant_then_revoke_example :
    (q : Document) × ((grant_bucket_access flat_md5 bucket (codes "readwrite") []
          >> revoke_bucket_access flat_md5 (some bucket))
        role
      ≡ (ok tt, holding role q))
    × (resources (codes "readonly") q
        ≡ revoked_view bucket (codes "readonly") (resources (codes "readonly") stored))
grant_then_revoke_example =
    grant_then_revoke flat_md5 bucket (codes "readwrite") [] role stored role-IsOpen
      (codes "readonly") bucket_nonempty readwrite_level bucket_objects

abbrev no_role : IamRole
no_role = record { exists = false; policy = none }

grant_bucket_access_result_example :
    (grant_bucket_access flat_md5 bucket (codes "admin") [] role).0 ≡ outcome (codes "admin") role
grant_bucket_access_result_example =
    grant_bucket_access_result flat_md5 bucket (codes "admin") [] role

missing_role :
    (grant_bucket_access flat_md5 bucket (codes "readwrite") [] no_role).0 ≡ err no_such_entity
missing_role =
    grant_bucket_access_result flat_md5 bucket (codes "readwrite") [] no_role ∙ rw readwrite_level

-- The policy of a role with two folders of one bucket, "x", "xy" and "y".
abbrev folder_condition : Condition
folder_condition = record {
  operator = codes "StringEquals";
  prefix = [] ∷ codes "x" ∷ codes "xy" ∷ codes "y" ∷ [];
  delimiter = codes "/" ∷ [];
}

abbrev folders : Document
folders =
    allowing (codes "listFolder" ++ zeros) (codes "arn:aws:s3:::dev-f" ∷ []) (some folder_condition)
    ∷ []

folders_listed :
    mem (s3_arn (codes "dev-f")) (resources (folder_sid flat_md5 (codes "dev-f")) folders) ≡ true
unfolding mem s3_arn resources find has_sid construct_sid teq
folders_listed = refl

-- Revoking the folder "x" stops the listing of the folder "xy" as well; "y" stays.
siblings_unlisted :
    prefixes_or [] (codes "StringEquals") (
      condition_at
        (folder_sid flat_md5 (codes "dev-f"))
        (revoke_folder flat_md5 (codes "dev-f/x") (codes "dev-f") (codes "x") folders))
    ≡ [] ∷ codes "y" ∷ []
unfolding prefixes_or condition_at find has_sid construct_sid teq revoke_folder remove_prefix narrow
    mem s3_arn outside starts_with set_prefixes lists_nothing remove_resource statement through
    ensure update build_statement drop_resource base_statement base_s3_access_statement
siblings_unlisted = refl

y_listed :
    mem (codes "y") (
      prefixes_or [] (codes "StringEquals") (
        condition_at
          (folder_sid flat_md5 (codes "dev-f"))
          (revoke_folder flat_md5 (codes "dev-f/x") (codes "dev-f") (codes "x") folders)))
    ≡ true
unfolding mem teq
y_listed = rw siblings_unlisted

revoke_folder_unlists_example : starts_with (codes "y") (codes "x") ≡ false
revoke_folder_unlists_example =
    revoke_folder_unlists flat_md5 (codes "dev-f/x") (codes "dev-f") (codes "x") folders (codes "y")
      folders_listed y_listed

readonly_ne_folder : teq (folder_sid flat_md5 (codes "dev-f")) (codes "readonly") ≡ false
unfolding construct_sid teq
readonly_ne_folder = refl

readonly_ne_sub_folders : teq (sub_folders_sid flat_md5 (codes "dev-f")) (codes "readonly") ≡ false
unfolding construct_sid teq
readonly_ne_sub_folders = refl

x_among : mem (codes "x") (codes "x" ∷ []) ≡ true
unfolding mem teq
x_among = refl

grant_folder_lists_example :
    let e =
      grant_paths flat_md5
        (codes "dev-f")
        (codes "readonly")
        (codes "x" ∷ [])
        (add_bucket flat_md5 (codes "dev-f") folders) in
    (mem (codes "x") (listed flat_md5 (codes "dev-f") (codes "readonly") known_readonly.1 e) ≡ true)
    × (mem
          (codes "x/*")
          (listed_below flat_md5 (codes "dev-f") (codes "readonly") known_readonly.1 e)
        ≡ true)
grant_folder_lists_example =
    grant_folder_lists flat_md5 (codes "dev-f") (codes "readonly") known_readonly.1 (codes "x")
      (codes "x" ∷ []) folders x_among

folder_path : get_bucket_and_path (codes "dev-f/x") ≡ some (codes "dev-f", codes "x")
unfolding get_bucket_and_path
folder_path = refl

revoke_folder_access-view_example :
    (q : Document) × (revoke_folder_access flat_md5 (codes "dev-f/x") role
      ≡ (ok tt, holding role q))
    × IsOpen (holding role q) q
    × (resources (codes "readonly") q
        ≡ revoked_folder_view
            (codes "dev-f/x")
            (codes "dev-f")
            (codes "readonly")
            (resources (codes "readonly") stored))
revoke_folder_access-view_example =
    revoke_folder_access-view flat_md5 (codes "dev-f/x") (codes "dev-f") (codes "x") role stored
      role-IsOpen (codes "readonly") folder_path readonly_ne_folder readonly_ne_sub_folders

grant_folder_access_result_example :
    (grant_folder_access flat_md5 (codes "dev-f") (codes "readonly") [] role).0
    ≡ folder_outcome (codes "dev-f") (codes "readonly") role
grant_folder_access_result_example =
    grant_folder_access_result flat_md5 (codes "dev-f") (codes "readonly") [] role

remove_policy_result_example :
    (left : List Text) × (remove_policy list_iam
        (codes "1")
        (codes "a" ∷ [])
        (policy_arn (codes "1") (codes "a") ∷ [])
      ≡ (ok tt, left))
    × ((q : Text)
        → mem q left ≡ (
            mem q (policy_arn (codes "1") (codes "a") ∷ [])
            && not (any (λ p. teq q (policy_arn (codes "1") p)) (codes "a" ∷ []))))
remove_policy_result_example =
    remove_policy_result list_iam list_iam-Detaches (codes "1") (codes "a" ∷ [])
      (policy_arn (codes "1") (codes "a") ∷ []) refl
