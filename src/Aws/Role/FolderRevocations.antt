-- ===== src/Aws/Role/FolderRevocations.antt =====
-- What `revoke_folder_access` of `AWSRole` does to an IAM role.
use analytics_platform_contr.Prelude.{
  ◌≡◌, Text, teq, false, Option, some, none, arith, Option-cases, inl, inr,
}
use analytics_platform_contr.Prelude.Exec.{ok}
use analytics_platform_contr.Aws.Arn.{s3_arn}
use analytics_platform_contr.Aws.Statement.{Statement, base_statement}
use analytics_platform_contr.Aws.Document.{Document, IsUnique, IsUnique-update, update}
use analytics_platform_contr.Aws.S3AccessPolicy.{
  Md5, construct_sid, ensure, statement, through, put, drop_resource, remove_resource,
}
use analytics_platform_contr.Aws.S3AccessPolicy.Resources.{
  resources, resources-put, IsUnique-ensure, IsUnique-put, drop_resource-sid,
}
use analytics_platform_contr.Aws.S3AccessPolicy.Load.{resources-load, IsUnique-load}
use analytics_platform_contr.Aws.S3AccessPolicy.Sids.{
  HasSids, HasSids-load, HasSids-put, HasSids-through, HasSids-remove_resource,
}
use analytics_platform_contr.Aws.S3AccessPolicy.Folders as Policy
use analytics_platform_contr.Aws.S3AccessPolicy.Folders.{
  get_bucket_and_path, narrow, remove_prefix, revoke_folder,
}
use analytics_platform_contr.Aws.S3AccessPolicy.FolderAccess.{
  revoked_folder_view, resources-revoke_folder,
}
use analytics_platform_contr.Aws.S3AccessPolicy.Narrow.{folder_sid, sub_folders_sid, narrow-sid}
use analytics_platform_contr.Aws.Role.{IamRole}
use analytics_platform_contr.Aws.Role.Buckets.{
  IsOpen, holding, open_policy_lem, save_policy_document_lem, IsOpen-holding,
}
use analytics_platform_contr.Aws.Role.Folders.{revoke_folder_access}

module _ (md5 : Md5) (f : Statement → Statement) (base_sid : Text) (suffix : Option Text)
    (d : Document) where
  through_known :
      (b : Statement)
      → base_statement base_sid ≡ some b
      → through f (statement md5 base_sid suffix d)
        ≡ update
            (construct_sid md5 base_sid suffix)
            f
            (ensure b (construct_sid md5 base_sid suffix) d)
  unfolding through statement
  through_known b e = ground arith

  through_unknown : base_statement base_sid ≡ none → through f (statement md5 base_sid suffix d) ≡ d
  unfolding through statement
  through_unknown e = ground arith

  IsUnique-through :
      ((s : Statement) → (f s).sid ≡ s.sid)
      → IsUnique d
      → IsUnique (through f (statement md5 base_sid suffix d))
  IsUnique-through keeps h = elim (Option-cases (base_statement base_sid)) [
    | inl e ↦ rw (through_unknown e) h
    | inr (b, e) ↦
        let sid = construct_sid md5 base_sid suffix in
        rw (through_known b e)
          (IsUnique-update sid f (ensure b sid d) keeps (IsUnique-ensure b sid d h))
  ]

module _ (md5 : Md5) (arn base_sid : Text) (d : Document) where
  IsUnique-remove_any : IsUnique d → IsUnique (remove_resource md5 arn base_sid d)
  unfolding remove_resource
  IsUnique-remove_any =
      IsUnique-through md5 (drop_resource arn) base_sid none d (drop_resource-sid arn)

module _ (md5 : Md5) (bucket_name folder base_sid operator : Text) (d : Document) where
  IsUnique-remove_prefix :
      IsUnique d → IsUnique (remove_prefix md5 bucket_name folder base_sid operator d)
  unfolding remove_prefix
  IsUnique-remove_prefix =
      IsUnique-through md5 (narrow (s3_arn bucket_name) folder operator) base_sid (some bucket_name)
        d (narrow-sid (s3_arn bucket_name) folder operator)

  HasSids-remove_prefix :
      HasSids d → HasSids (remove_prefix md5 bucket_name folder base_sid operator d)
  unfolding remove_prefix
  HasSids-remove_prefix =
      HasSids-through md5 (narrow (s3_arn bucket_name) folder operator) base_sid (some bucket_name)
        d (narrow-sid (s3_arn bucket_name) folder operator)

module _ (md5 : Md5) (root bucket_name folder : Text) (d : Document) where
  IsUnique-revoke_folder : IsUnique d → IsUnique (revoke_folder md5 root bucket_name folder d)
  unfolding revoke_folder
  IsUnique-revoke_folder h = IsUnique-remove_prefix md5 bucket_name folder _ _ _ (
      IsUnique-remove_prefix md5 bucket_name folder _ _ _ (
        IsUnique-remove_any md5 _ _ _
          (IsUnique-remove_any md5 _ _ _ (IsUnique-remove_any md5 _ _ d h))))

  HasSids-revoke_folder : HasSids d → HasSids (revoke_folder md5 root bucket_name folder d)
  unfolding revoke_folder
  HasSids-revoke_folder h = HasSids-remove_prefix md5 bucket_name folder _ _ _ (
      HasSids-remove_prefix md5 bucket_name folder _ _ _ (
        HasSids-remove_resource md5 _ _ _
          (HasSids-remove_resource md5 _ _ _ (HasSids-remove_resource md5 _ _ d h))))

module _ (md5 : Md5) (root bucket_name folder : Text) (r : IamRole) (d : Document)
    (h : IsOpen r d) where
  -- The revocation of a folder, whose path has a "/", from a role whose policy has Sids, no two the
  -- same, succeeds and saves such a policy again; under every Sid but the two of the bucket's
  -- folders it has the resources that were there, less the parts of the folder under both levels
  -- and those of the bucket under "rootFolderBucketMeta".
  pub revoke_folder_access-view :
      (j : Text)
      → get_bucket_and_path root ≡ some (bucket_name, folder)
      → teq (folder_sid md5 bucket_name) j ≡ false
      → teq (sub_folders_sid md5 bucket_name) j ≡ false
      → (q : Document) × (revoke_folder_access md5 root r ≡ (ok tt, holding r q))
        × IsOpen (holding r q) q
        × (resources j q ≡ revoked_folder_view root bucket_name j (resources j d))
  unfolding revoke_folder_access Policy.revoke_folder_access
  revoke_folder_access-view j path ne ne' =
      let (e, opened, loaded) = open_policy_lem r d h in
      let g = revoke_folder md5 root bucket_name folder e in
      let u =
        IsUnique-revoke_folder md5 root bucket_name folder e (IsUnique-load d e loaded h.unique) in
      let s = HasSids-revoke_folder md5 root bucket_name folder e (HasSids-load d e loaded) in
      (
        put g,
        ground (arith, h.exists, opened, path, save_policy_document_lem r (put g) h.exists),
        IsOpen-holding r d (put g) h (HasSids-put g s) (IsUnique-put g u),
        rw (
          resources-put j g u,
          resources-revoke_folder md5 root bucket_name folder e j ne ne',
          resources-load j d e loaded,
        ),
      )
