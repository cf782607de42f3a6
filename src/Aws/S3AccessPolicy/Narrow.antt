-- ===== src/Aws/S3AccessPolicy/Narrow.antt =====
-- The views of a document after `remove_prefix`, which narrows the condition of a bucket's statement.
use analytics_platform_contr.Prelude.{
  ◌≡◌, refl, Text, codes, teq, mem, Option, none, some, List, [], filter, if◌then◌else◌, arith,
}
use analytics_platform_contr.Aws.Arn.{s3_arn}
use analytics_platform_contr.Aws.Statement.{Statement, Condition, base_statement}
use analytics_platform_contr.Aws.Document.{Document}
use analytics_platform_contr.Aws.S3AccessPolicy.{
  Md5, construct_sid, resource_list, insert, append_resource, add_resource, drop_resource,
  remove_resource,
}
use analytics_platform_contr.Aws.S3AccessPolicy.Parts.{is_kept}
use analytics_platform_contr.Aws.S3AccessPolicy.Resources.{
  resources, drop_resource-sid, drop_resource-resource_list,
}
use analytics_platform_contr.Aws.S3AccessPolicy.Conditions.{
  condition_at, resources-through, condition_at-through,
}
use analytics_platform_contr.Aws.S3AccessPolicy.Folders.{
  prefixes_or, set_prefixes, lists_nothing, outside, narrow, remove_prefix,
}

-- The Sids of the two statements that list the folders of a bucket.
abbrev pub folder_sid : Md5 → Text → Text
folder_sid md5 bucket_name = construct_sid md5 (codes "listFolder") (some bucket_name)

abbrev pub sub_folders_sid : Md5 → Text → Text
sub_folders_sid md5 bucket_name = construct_sid md5 (codes "listSubFolders") (some bucket_name)

module _ (md5 : Md5) (base_sid : Text) {base : Statement}
    (known : base_statement base_sid ≡ some base) where
  -- Resources come and go without a change of any condition.
  pub condition_at-add_resource :
      (arn : Text) (suffix : Option Text) (j : Text) (d : Document)
      → condition_at j (add_resource md5 arn base_sid suffix d) ≡ condition_at j d
  unfolding add_resource append_resource
  condition_at-add_resource arn suffix j d = ground (
    arith,
    condition_at-through md5 base_sid known (append_resource arn) (λ rs _. insert arn rs) (λ _ c. c)
        (λ s. refl) (λ s. refl) (λ s. refl) suffix j d,
  )

  drop_resource-condition :
      (arn : Text) (s : Statement) → (drop_resource arn s).condition ≡ s.condition
  unfolding drop_resource
  drop_resource-condition arn s = ground arith

  pub condition_at-remove_resource :
      (arn j : Text) (d : Document)
      → condition_at j (remove_resource md5 arn base_sid d) ≡ condition_at j d
  unfolding remove_resource
  condition_at-remove_resource arn j d = ground (
    arith,
    condition_at-through md5 base_sid known (drop_resource arn) (λ rs _. filter (is_kept arn) rs)
        (λ _ c. c) (drop_resource-sid arn) (drop_resource-resource_list arn)
        (drop_resource-condition arn) none j d,
  )

-- What `remove_prefix` does to the resources and to the condition of the statement of a bucket.
abbrev narrowed_resources : Text → Text → Text → List Text → Option Condition → List Text
narrowed_resources arn folder operator rs c =
    if mem arn rs
    then (if lists_nothing (outside folder (prefixes_or [] operator c)) then [] else rs)
    else rs

abbrev pub narrowed_condition : Text → Text → Text → List Text → Option Condition → Option Condition
narrowed_condition arn folder operator rs c =
    if mem arn rs then set_prefixes operator (outside folder (prefixes_or [] operator c)) c else c

module _ (arn folder operator : Text) (s : Statement) where
  pub narrow-sid : (narrow arn folder operator s).sid ≡ s.sid
  unfolding narrow
  narrow-sid = ground arith

  narrow-resources :
      resource_list (narrow arn folder operator s)
      ≡ narrowed_resources arn folder operator (resource_list s) s.condition
  unfolding narrow
  narrow-resources = ground arith

  narrow-condition :
      (narrow arn folder operator s).condition
      ≡ narrowed_condition arn folder operator (resource_list s) s.condition
  unfolding narrow
  narrow-condition = ground arith

module _ (md5 : Md5) (bucket_name folder base_sid operator : Text) {base : Statement}
    (known : base_statement base_sid ≡ some base) (j : Text) (d : Document) where
  pub resources-remove_prefix :
      resources j (remove_prefix md5 bucket_name folder base_sid operator d) ≡ (
        if teq (construct_sid md5 base_sid (some bucket_name)) j
        then narrowed_resources
            (s3_arn bucket_name)
            folder
            operator
            (resources j d)
            (condition_at j d)
        else resources j d)
  unfolding remove_prefix
  resources-remove_prefix =
      let arn = s3_arn bucket_name in
      resources-through md5 base_sid known (narrow arn folder operator)
        (narrowed_resources arn folder operator) (narrowed_condition arn folder operator)
        (narrow-sid arn folder operator) (narrow-resources arn folder operator)
        (narrow-condition arn folder operator) (some bucket_name) j d

  pub condition_at-remove_prefix :
      condition_at j (remove_prefix md5 bucket_name folder base_sid operator d) ≡ (
        if teq (construct_sid md5 base_sid (some bucket_name)) j
        then narrowed_condition
            (s3_arn bucket_name)
            folder
            operator
            (resources j d)
            (condition_at j d)
        else condition_at j d)
  unfolding remove_prefix
  condition_at-remove_prefix =
      let arn = s3_arn bucket_name in
      condition_at-through md5 base_sid known (narrow arn folder operator)
        (narrowed_resources arn folder operator) (narrowed_condition arn folder operator)
        (narrow-sid arn folder operator) (narrow-resources arn folder operator)
        (narrow-condition arn folder operator) (some bucket_name) j d
