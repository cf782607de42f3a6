-- ===== src/Aws/S3AccessPolicy/Folders.antt =====
-- The methods of `S3AccessPolicy` in controlpanel/api/aws.py for folders: access to a folder is a
-- resource for its objects, and a condition on the prefixes that may be listed.
use mathlib.Core.Option
use analytics_platform_contr.Prelude.{
  Text, codes, teq, mem, Bool, true, false, not, Option, none, some, List, [], ◌∷◌, ◌++◌, map,
  filter, starts_with, join, split, ◌==◌, if◌then◌else◌,
}
use analytics_platform_contr.Aws.Arn.{s3_arn}
use analytics_platform_contr.Aws.Statement.{Statement, Condition}
use analytics_platform_contr.Aws.Document.{Document}
use analytics_platform_contr.Aws.S3AccessPolicy.{
  Md5, statement, through, resource_list, insert, add_resource, remove_resource,
  grant_object_access,
}

abbrev cons_bucket : Text → Option (Text × Text) → Option (Text × Text)
cons_bucket bucket_name none = none
cons_bucket bucket_name (some (b, path)) = some (bucket_name ++ b, path)

-- `get_bucket_and_path`: folder_path.split("/", 1), taken apart into two. With no "/" there is one
-- part, and ValueError is raised, which is `none`.
unfoldable pub get_bucket_and_path : Text → Option (Text × Text)
get_bucket_and_path [] = none
get_bucket_and_path (c ∷ s) =
    let rest = cons_bucket (c ∷ []) (get_bucket_and_path s) in
    if c == b'/' then some ([], s) else rest

-- statement["Condition"][operator]["s3:prefix"], with a default for a KeyError
unfoldable pub prefixes_or : List Text → Text → Option Condition → List Text
prefixes_or default operator none = default
prefixes_or default operator (some c) = if teq c.operator operator then c.prefix else default

-- prefixes[:] = …, on the list in the condition, if there is one
unfoldable pub set_prefixes : Text → List Text → Option Condition → Option Condition
set_prefixes operator prefixes none = none
set_prefixes operator prefixes (some c) =
    some (if teq c.operator operator then record c { prefix = prefixes } else c)

-- prefixes == [] or prefixes == [""]
unfoldable pub lists_nothing : List Text → Bool
lists_nothing [] = true
lists_nothing ([] ∷ []) = true
lists_nothing _ = false

-- [prefix for prefix in prefixes if not prefix.startswith(folder)]
unfoldable pub outside : Text → List Text → List Text
outside folder = filter (λ prefix. not (starts_with prefix folder))

-- What `remove_prefix` does to the statement of the bucket.
unfoldable pub narrow : Text → Text → Text → Statement → Statement
narrow bucket_arn folder operator s =
    if mem bucket_arn (resource_list s)
    then (let kept = outside folder (prefixes_or [] operator s.condition) in
        record s {
          resource = if lists_nothing kept then none else s.resource;
          condition = set_prefixes operator kept s.condition;
        })
    else s

-- `remove_prefix`, its path taken apart
unfoldable pub remove_prefix : Md5 → Text → Text → Text → Text → Document → Document
remove_prefix md5 bucket_name folder sid operator d =
    through (narrow (s3_arn bucket_name) folder operator) (statement md5 sid (some bucket_name) d)

-- subfolders, folder.split("/")[:-1]
unfoldable pub but_last : List Text → List Text
but_last [] = []
but_last (p ∷ []) = []
but_last (p ∷ q ∷ ps) = p ∷ but_last (q ∷ ps)

-- One round of the loop over the subfolders, `seen` being subfolders[:index].
unfoldable pub parent_path : List Text → Text → Text
parent_path seen path =
    let prev = join (codes "/") seen in if teq prev [] then path else prev ++ (codes "/" ++ path)

unfoldable pub add_parents : List Text → List Text → List Text → List Text
add_parents seen [] prefixes = prefixes
add_parents seen (path ∷ rest) prefixes =
    let p = parent_path seen path in
    add_parents (seen ++ path ∷ []) rest
      (if mem p prefixes then prefixes else prefixes ++ (p ∷ (p ++ codes "/") ∷ []))

-- The prefixes of `_add_folder_to_list_folder_prefixes`
unfoldable pub list_folder_prefixes : Text → List Text → List Text
list_folder_prefixes folder prefixes =
    insert folder (add_parents [] (but_last (split b'/' folder)) prefixes)

-- The statement is that of the bucket: `grant_folder_access` has put its ARN under "Resource".
unfoldable pub list_folder : Text → Text → Statement → Statement
list_folder bucket_arn folder s =
    if mem bucket_arn (resource_list s)
    then record s {
      condition = some (record {
        operator = codes "StringEquals";
        prefix =
            list_folder_prefixes folder (prefixes_or ([] ∷ []) (codes "StringEquals") s.condition);
        delimiter = codes "/" ∷ [];
      });
    }
    else s

unfoldable pub list_sub_folders : Text → Text → Statement → Statement
list_sub_folders bucket_arn folder s =
    if mem bucket_arn (resource_list s)
    then record s {
      condition = some (record {
        operator = codes "StringLike";
        prefix = insert (folder ++ codes "/*") (prefixes_or [] (codes "StringLike") s.condition);
        delimiter = [];
      });
    }
    else s

-- `_add_folder_to_list_folder_prefixes`
unfoldable pub add_folder_to_list_folder_prefixes : Md5 → Text → Text → Document → Document
add_folder_to_list_folder_prefixes md5 folder bucket_name d =
    through (list_folder (s3_arn bucket_name) folder)
      (statement md5 (codes "listFolder") (some bucket_name) d)

-- `_add_folder_to_list_sub_folders_prefixes`
unfoldable pub add_folder_to_list_sub_folders_prefixes : Md5 → Text → Text → Document → Document
add_folder_to_list_sub_folders_prefixes md5 folder bucket_name d =
    through (list_sub_folders (s3_arn bucket_name) folder)
      (statement md5 (codes "listSubFolders") (some bucket_name) d)

-- The folder, or each path behind it.
unfoldable pub folder_paths : Text → List Text → List Text
folder_paths folder [] = folder ∷ []
folder_paths folder (p ∷ ps) = map (λ path. folder ++ path) (p ∷ ps)

-- The loop of `grant_folder_access`
unfoldable pub grant_paths : Md5 → Text → Text → List Text → Document → Document
grant_paths md5 bucket_name access_level [] d = d
grant_paths md5 bucket_name access_level (folder_path ∷ rest) d =
    grant_paths md5 bucket_name access_level rest (
      add_folder_to_list_sub_folders_prefixes md5 folder_path bucket_name (
        add_folder_to_list_folder_prefixes md5 folder_path bucket_name (
          grant_object_access md5 (s3_arn bucket_name ++ (codes "/" ++ folder_path)) access_level
            d)))

-- The ARN of the bucket under the three Sids of a folder.
unfoldable pub add_bucket : Md5 → Text → Document → Document
add_bucket md5 bucket_name d =
    add_resource md5 (s3_arn bucket_name) (codes "listSubFolders") (some bucket_name) (
      add_resource md5 (s3_arn bucket_name) (codes "listFolder") (some bucket_name)
        (add_resource md5 (s3_arn bucket_name) (codes "rootFolderBucketMeta") none d))

unfoldable pub grant_folder_access : Md5 → Text → Text → List Text → Document → Option Document
grant_folder_access md5 root_folder_path access_level paths d =
    Option.map
      (λ (bucket_name, folder).
        grant_paths md5 bucket_name access_level (folder_paths folder paths)
          (add_bucket md5 bucket_name d))
      (get_bucket_and_path root_folder_path)

-- What `revoke_folder_access` does, its path taken apart. The ARN of the folder is that of the path.
unfoldable pub revoke_folder : Md5 → Text → Text → Text → Document → Document
revoke_folder md5 root_folder_path bucket_name folder d =
    remove_prefix md5 bucket_name folder (codes "listSubFolders") (codes "StringLike") (
      remove_prefix md5 bucket_name folder (codes "listFolder") (codes "StringEquals") (
        remove_resource md5 (s3_arn bucket_name) (codes "rootFolderBucketMeta") (
          remove_resource md5 (s3_arn root_folder_path) (codes "readwrite")
            (remove_resource md5 (s3_arn root_folder_path) (codes "readonly") d))))

unfoldable pub revoke_folder_access : Md5 → Text → Document → Option Document
revoke_folder_access md5 root_folder_path d =
    Option.map (λ (bucket_name, folder). revoke_folder md5 root_folder_path bucket_name folder d)
      (get_bucket_and_path root_folder_path)
