-- ===== src/Aws/S3AccessPolicy/FolderGrants.antt =====
-- Granting a folder puts its objects under the level, and the folder among the prefixes that may
-- be listed.
use analytics_platform_contr.Prelude.{
  ◌≡◌, Text, codes, teq, teq_refl, mem, mem-append, true, Option, some, List, [], ◌∷◌, ◌++◌,
  if◌then◌else◌, arith,
}
use analytics_platform_contr.Aws.Arn.{s3_arn}
use analytics_platform_contr.Aws.Statement.{
  Statement, Condition, known_list_folder, known_list_sub_folders,
}
use analytics_platform_contr.Aws.Document.{Document}
use analytics_platform_contr.Aws.S3AccessPolicy.{Md5, resource_list, insert}
use analytics_platform_contr.Aws.S3AccessPolicy.Resources.{resources}
use analytics_platform_contr.Aws.S3AccessPolicy.Conditions.{
  condition_at, resources-through, condition_at-through,
}
use analytics_platform_contr.Aws.S3AccessPolicy.Narrow.{folder_sid, sub_folders_sid}
use analytics_platform_contr.Aws.S3AccessPolicy.Folders.{
  prefixes_or, list_folder_prefixes, add_parents, parent_path, list_folder, list_sub_folders,
  add_folder_to_list_folder_prefixes, add_folder_to_list_sub_folders_prefixes,
}

pub mem-insert_self : (t : Text) (ts : List Text) → mem t (insert t ts) ≡ true
unfolding insert mem
mem-insert_self t ts = ground (arith, mem-append t ts (t ∷ []), teq_refl t)

pub mem-insert : (p t : Text) (ts : List Text) → mem p ts ≡ true → mem p (insert t ts) ≡ true
unfolding insert mem
mem-insert p t ts h = ground (arith, mem-append p ts (t ∷ []))

mem-add_parents :
    (p : Text) (seen rest prefixes : List Text)
    → mem p prefixes ≡ true
    → mem p (add_parents seen rest prefixes) ≡ true
unfolding add_parents
mem-add_parents p seen [] prefixes h = h
mem-add_parents p seen (path ∷ rest) prefixes h =
    let q = parent_path seen path in
    mem-add_parents p (seen ++ path ∷ []) rest
      (if mem q prefixes then prefixes else prefixes ++ (q ∷ (q ++ codes "/") ∷ []))
      (ground (arith, mem-append p prefixes (q ∷ (q ++ codes "/") ∷ [])))

pub mem-list_folder_prefixes :
    (p folder : Text) (ps : List Text)
    → mem p ps ≡ true
    → mem p (list_folder_prefixes folder ps) ≡ true
unfolding list_folder_prefixes
mem-list_folder_prefixes p folder ps h = mem-insert p folder _ (mem-add_parents p [] _ ps h)

pub mem-list_folder_prefixes_self :
    (folder : Text) (ps : List Text) → mem folder (list_folder_prefixes folder ps) ≡ true
unfolding list_folder_prefixes
mem-list_folder_prefixes_self folder ps = mem-insert_self folder _

-- The default matters only where no prefix is there.
pub mem-prefixes_or :
    (p operator : Text) (default : List Text) (c : Option Condition)
    → mem p (prefixes_or [] operator c) ≡ true
    → mem p (prefixes_or default operator c) ≡ true
unfolding prefixes_or mem
mem-prefixes_or p operator default c h = ground arith

abbrev pub listed_condition : Text → Text → List Text → Option Condition → Option Condition
listed_condition arn folder rs c =
    if mem arn rs
    then some (record {
      operator = codes "StringEquals";
      prefix = list_folder_prefixes folder (prefixes_or ([] ∷ []) (codes "StringEquals") c);
      delimiter = codes "/" ∷ [];
    })
    else c

abbrev pub sub_condition : Text → Text → List Text → Option Condition → Option Condition
sub_condition arn folder rs c =
    if mem arn rs
    then some (record {
      operator = codes "StringLike";
      prefix = insert (folder ++ codes "/*") (prefixes_or [] (codes "StringLike") c);
      delimiter = [];
    })
    else c

module _ (arn folder : Text) (s : Statement) where
  list_folder_fields :
      ((list_folder arn folder s).sid ≡ s.sid)
      × (resource_list (list_folder arn folder s) ≡ resource_list s)
      × ((list_folder arn folder s).condition
          ≡ listed_condition arn folder (resource_list s) s.condition)
  unfolding list_folder
  list_folder_fields = ground arith

  list_sub_folders_fields :
      ((list_sub_folders arn folder s).sid ≡ s.sid)
      × (resource_list (list_sub_folders arn folder s) ≡ resource_list s)
      × ((list_sub_folders arn folder s).condition
          ≡ sub_condition arn folder (resource_list s) s.condition)
  unfolding list_sub_folders
  list_sub_folders_fields = ground arith

module _ (md5 : Md5) (folder bucket_name j : Text) (d : Document) where
  abbrev pub arn : Text
  arn = s3_arn bucket_name

  pub resources-list_folder :
      resources j (add_folder_to_list_folder_prefixes md5 folder bucket_name d) ≡ resources j d
  unfolding add_folder_to_list_folder_prefixes
  resources-list_folder = ground (
    arith,
    resources-through md5 (codes "listFolder") known_list_folder.1 (list_folder arn folder)
        (λ rs _. rs) (listed_condition arn folder) (λ s. (list_folder_fields arn folder s).0)
        (λ s. (list_folder_fields arn folder s).1) (λ s. (list_folder_fields arn folder s).2)
        (some bucket_name) j d,
  )

  pub condition_at-list_folder :
      condition_at j (add_folder_to_list_folder_prefixes md5 folder bucket_name d) ≡ (
        if teq (folder_sid md5 bucket_name) j
        then listed_condition arn folder (resources j d) (condition_at j d)
        else condition_at j d)
  unfolding add_folder_to_list_folder_prefixes
  condition_at-list_folder =
      condition_at-through md5 (codes "listFolder") known_list_folder.1 (list_folder arn folder)
        (λ rs _. rs) (listed_condition arn folder) (λ s. (list_folder_fields arn folder s).0)
        (λ s. (list_folder_fields arn folder s).1) (λ s. (list_folder_fields arn folder s).2)
        (some bucket_name) j d

  pub resources-list_sub_folders :
      resources j (add_folder_to_list_sub_folders_prefixes md5 folder bucket_name d) ≡ resources j d
  unfolding add_folder_to_list_sub_folders_prefixes
  resources-list_sub_folders = ground (
    arith,
    resources-through md5 (codes "listSubFolders") known_list_sub_folders.1
        (list_sub_folders arn folder) (λ rs _. rs) (sub_condition arn folder)
        (λ s. (list_sub_folders_fields arn folder s).0)
        (λ s. (list_sub_folders_fields arn folder s).1)
        (λ s. (list_sub_folders_fields arn folder s).2) (some bucket_name) j d,
  )

  pub condition_at-list_sub_folders :
      condition_at j (add_folder_to_list_sub_folders_prefixes md5 folder bucket_name d) ≡ (
        if teq (sub_folders_sid md5 bucket_name) j
        then sub_condition arn folder (resources j d) (condition_at j d)
        else condition_at j d)
  unfolding add_folder_to_list_sub_folders_prefixes
  condition_at-list_sub_folders =
      condition_at-through md5 (codes "listSubFolders") known_list_sub_folders.1
        (list_sub_folders arn folder) (λ rs _. rs) (sub_condition arn folder)
        (λ s. (list_sub_folders_fields arn folder s).0)
        (λ s. (list_sub_folders_fields arn folder s).1)
        (λ s. (list_sub_folders_fields arn folder s).2) (some bucket_name) j d
