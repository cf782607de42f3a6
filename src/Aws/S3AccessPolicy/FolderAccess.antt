-- ===== src/Aws/S3AccessPolicy/FolderAccess.antt =====
-- What grants and revocations for folders do to the resources and the conditions of a document.
use analytics_platform_contr.Prelude.{
  ◌≡◌, refl, Text, codes, teq, teq_iff, teq_refl, teq_comm, mem, true, false, not, ◌||◌, Option,
  List, [], filter, filter-filter, mem-filter, if◌then◌else◌, arith, Bool-cases, inl, inr,
  starts_with,
}
use analytics_platform_contr.Aws.Arn.{s3_arn}
use analytics_platform_contr.Aws.Statement.{
  Condition, known_readonly, known_readwrite, known_meta, known_list_folder, known_list_sub_folders,
}
use analytics_platform_contr.Aws.Document.{Document}
use analytics_platform_contr.Aws.S3AccessPolicy.{Md5, construct_sid, remove_resource}
use analytics_platform_contr.Aws.S3AccessPolicy.Parts.{is_kept}
use analytics_platform_contr.Aws.S3AccessPolicy.Resources.{resources, resources-remove_resource}
use analytics_platform_contr.Aws.S3AccessPolicy.Conditions.{condition_at}
use analytics_platform_contr.Aws.S3AccessPolicy.Folders.{
  prefixes_or, set_prefixes, outside, revoke_folder,
}
use analytics_platform_contr.Aws.S3AccessPolicy.Narrow.{
  condition_at-remove_prefix, condition_at-remove_resource, folder_sid, narrowed_condition,
  resources-remove_prefix, sub_folders_sid,
}

-- The Sids of folders are none of the others, whatever the bucket.
module _ (md5 : Md5) (bucket_name : Text) where
  pub folder_sid-ne :
      (teq (folder_sid md5 bucket_name) (codes "readonly") ≡ false)
      × (teq (folder_sid md5 bucket_name) (codes "readwrite") ≡ false)
      × (teq (folder_sid md5 bucket_name) (codes "rootFolderBucketMeta") ≡ false)
      × (teq (folder_sid md5 bucket_name) (sub_folders_sid md5 bucket_name) ≡ false)
  unfolding construct_sid
  folder_sid-ne = elim (Bool-cases (teq bucket_name [])) [
    | inl e ↦ rw e (unfold teq in (refl, refl, refl, refl))
    | inr e ↦ rw e (unfold teq in (refl, refl, refl, refl))
  ]

  pub sub_folders_sid-ne :
      (teq (sub_folders_sid md5 bucket_name) (codes "readonly") ≡ false)
      × (teq (sub_folders_sid md5 bucket_name) (codes "readwrite") ≡ false)
      × (teq (sub_folders_sid md5 bucket_name) (codes "rootFolderBucketMeta") ≡ false)
      × (teq (sub_folders_sid md5 bucket_name) (folder_sid md5 bucket_name) ≡ false)
  unfolding construct_sid
  sub_folders_sid-ne = elim (Bool-cases (teq bucket_name [])) [
    | inl e ↦ rw e (unfold teq in (refl, refl, refl, refl))
    | inr e ↦ rw e (unfold teq in (refl, refl, refl, refl))
  ]

-- The prefixes under a condition after a change of them.
prefixes_or-set_prefixes :
    (operator folder : Text) (c : Option Condition)
    → prefixes_or [] operator (set_prefixes operator (outside folder (prefixes_or [] operator c)) c)
      ≡ outside folder (prefixes_or [] operator c)
unfolding prefixes_or set_prefixes outside
prefixes_or-set_prefixes operator folder c = ground arith

outside_lem :
    (p folder : Text) (ps : List Text)
    → mem p (outside folder ps) ≡ true
    → starts_with p folder ≡ false
unfolding outside
outside_lem p folder ps h =
    ground (arith, mem-filter p (λ prefix. not (starts_with prefix folder)) ps h)

-- The Sids of objects and of the bucket are three.
level_sids_ne :
    (teq (codes "readonly") (codes "rootFolderBucketMeta") ≡ false)
    × (teq (codes "readwrite") (codes "rootFolderBucketMeta") ≡ false)
    × (teq (codes "readonly") (codes "readwrite") ≡ false)
unfolding teq
level_sids_ne = (refl, refl, refl)

-- The view of the first three steps of `revoke_folder_access`.
unfoldable pub revoked_folder_view : Text → Text → Text → List Text → List Text
revoked_folder_view root bucket_name j rs =
    if teq (codes "readonly") j || teq (codes "readwrite") j
    then filter (is_kept (s3_arn root)) rs
    else if teq (codes "rootFolderBucketMeta") j
    then filter (is_kept (s3_arn bucket_name)) rs
    else rs

module _ (md5 : Md5) (root bucket_name folder : Text) (d : Document) where
  abbrev without_objects : Document
  without_objects = remove_resource md5 (s3_arn bucket_name) (codes "rootFolderBucketMeta") (
      remove_resource md5 (s3_arn root) (codes "readwrite")
        (remove_resource md5 (s3_arn root) (codes "readonly") d))

  condition_at-without_objects : (j : Text) → condition_at j without_objects ≡ condition_at j d
  condition_at-without_objects j = rw (
    condition_at-remove_resource md5 (codes "rootFolderBucketMeta") known_meta.1
        (s3_arn bucket_name) j _,
    condition_at-remove_resource md5 (codes "readwrite") known_readwrite.1 (s3_arn root) j _,
    condition_at-remove_resource md5 (codes "readonly") known_readonly.1 (s3_arn root) j d,
  )

  resources-without_objects :
      (j : Text)
      → resources j without_objects ≡ revoked_folder_view root bucket_name j (resources j d)
  unfolding revoked_folder_view
  resources-without_objects j =
      rw
        (
          resources-remove_resource md5 (codes "rootFolderBucketMeta") known_meta.1
              (s3_arn bucket_name) j _,
          resources-remove_resource md5 (codes "readwrite") known_readwrite.1 (s3_arn root) j _,
          resources-remove_resource md5 (codes "readonly") known_readonly.1 (s3_arn root) j d,
        )
        (ground (
          arith,
          filter-filter (is_kept (s3_arn root)) (resources j d),
          teq_iff (codes "rootFolderBucketMeta") j,
          teq_iff (codes "readwrite") j,
          teq_iff (codes "readonly") j,
          level_sids_ne,
        ))

  -- Under every Sid but the two of the bucket's folders, revoking a folder from a document leaves
  -- the resources that were there, less the parts of the folder under both levels and those of the
  -- bucket under "rootFolderBucketMeta".
  pub resources-revoke_folder :
      (j : Text)
      → teq (folder_sid md5 bucket_name) j ≡ false
      → teq (sub_folders_sid md5 bucket_name) j ≡ false
      → resources j (revoke_folder md5 root bucket_name folder d)
        ≡ revoked_folder_view root bucket_name j (resources j d)
  unfolding revoke_folder
  resources-revoke_folder j ne ne' =
      rw
        (
          resources-remove_prefix md5 bucket_name folder (codes "listSubFolders")
              (codes "StringLike") known_list_sub_folders.1 j _,
          ne',
          resources-remove_prefix md5 bucket_name folder (codes "listFolder") (codes "StringEquals")
              known_list_folder.1 j _,
          ne,
        )
        (resources-without_objects j)

  resources-without_objects_folder :
      resources (folder_sid md5 bucket_name) without_objects
      ≡ resources (folder_sid md5 bucket_name) d
  unfolding revoked_folder_view
  resources-without_objects_folder =
      let sid = folder_sid md5 bucket_name in
      ground (
        arith,
        resources-without_objects sid,
        folder_sid-ne md5 bucket_name,
        teq_comm sid (codes "readonly"),
        teq_comm sid (codes "readwrite"),
        teq_comm sid (codes "rootFolderBucketMeta"),
      )

  -- What is left of the condition under "listFolder".
  pub condition_at-revoke_folder :
      condition_at (folder_sid md5 bucket_name) (revoke_folder md5 root bucket_name folder d)
      ≡ narrowed_condition
          (s3_arn bucket_name)
          folder
          (codes "StringEquals")
          (resources (folder_sid md5 bucket_name) d)
          (condition_at (folder_sid md5 bucket_name) d)
  unfolding revoke_folder
  condition_at-revoke_folder =
      let sid = folder_sid md5 bucket_name in
      rw (
        condition_at-remove_prefix md5 bucket_name folder (codes "listSubFolders")
            (codes "StringLike") known_list_sub_folders.1 sid _,
        (sub_folders_sid-ne md5 bucket_name).3,
        condition_at-remove_prefix md5 bucket_name folder (codes "listFolder")
            (codes "StringEquals") known_list_folder.1 sid without_objects,
        teq_refl sid,
        resources-without_objects_folder,
        condition_at-without_objects sid,
      )

  -- Where the "listFolder" statement has the bucket, after the revocation of a folder no prefix
  -- left under that statement begins with the folder.
  pub revoke_folder_unlists :
      (p : Text)
      → mem (s3_arn bucket_name) (resources (folder_sid md5 bucket_name) d) ≡ true
      → mem p (
          prefixes_or [] (codes "StringEquals") (
            condition_at
              (folder_sid md5 bucket_name)
              (revoke_folder md5 root bucket_name folder d)))
        ≡ true
      → starts_with p folder ≡ false
  revoke_folder_unlists p listed left =
      let c = condition_at (folder_sid md5 bucket_name) d in
      let kept = outside folder (prefixes_or [] (codes "StringEquals") c) in
      ground (
        arith,
        condition_at-revoke_folder,
        prefixes_or-set_prefixes (codes "StringEquals") folder c,
        outside_lem p folder (prefixes_or [] (codes "StringEquals") c),
      )
