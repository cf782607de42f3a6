-- ===== src/Aws/S3AccessPolicy/FolderPaths.antt =====
-- The loop of `grant_folder_access` over the paths of a folder.
use analytics_platform_contr.Prelude.{
  ◌≡◌, refl, Text, codes, teq, teq_iff, teq_refl, mem, true, ◌||◌, none, some, List, [], ◌∷◌, ◌++◌,
  if◌then◌else◌, arith, Bool-cases, inl, inr,
}
use analytics_platform_contr.Aws.Arn.{s3_arn}
use analytics_platform_contr.Aws.Statement.{
  Statement, base_statement, known_meta, known_list_folder, known_list_sub_folders,
}
use analytics_platform_contr.Aws.Document.{Document}
use analytics_platform_contr.Aws.S3AccessPolicy.{Md5, construct_sid, insert, grant_object_access}
use analytics_platform_contr.Aws.S3AccessPolicy.Resources.{resources, resources-add_resource}
use analytics_platform_contr.Aws.S3AccessPolicy.Conditions.{condition_at}
use analytics_platform_contr.Aws.S3AccessPolicy.FolderAccess.{folder_sid-ne, sub_folders_sid-ne}
use analytics_platform_contr.Aws.S3AccessPolicy.Narrow.{
  folder_sid, sub_folders_sid, condition_at-add_resource,
}
use analytics_platform_contr.Aws.S3AccessPolicy.Folders.{
  prefixes_or, list_folder_prefixes, add_folder_to_list_folder_prefixes,
  add_folder_to_list_sub_folders_prefixes, grant_paths, add_bucket,
}
use analytics_platform_contr.Aws.S3AccessPolicy.FolderGrants.{
  mem-insert_self, mem-insert, mem-list_folder_prefixes, mem-list_folder_prefixes_self,
  mem-prefixes_or, resources-list_folder, condition_at-list_folder, resources-list_sub_folders,
  condition_at-list_sub_folders,
}

insert_again : (t : Text) (ts : List Text) → insert t (insert t ts) ≡ insert t ts
unfolding insert
insert_again t ts = insert_mem t (insert t ts) (mem-insert_self t ts)
  where
    insert_mem : (t : Text) (ts : List Text) → mem t ts ≡ true → insert t ts ≡ ts
    insert_mem t ts h = ground arith

construct_sid-none : (md5 : Md5) (sid : Text) → construct_sid md5 sid none ≡ sid
unfolding construct_sid
construct_sid-none md5 sid = refl

module _ (md5 : Md5) (bucket_name level : Text) {base : Statement}
    (known : base_statement level ≡ some base) where
  abbrev granted_object : Text → Document → Document
  granted_object f d = grant_object_access md5 (s3_arn bucket_name ++ (codes "/" ++ f)) level d

  -- One round of the loop.
  abbrev round : Text → Document → Document
  round f d =
      add_folder_to_list_sub_folders_prefixes md5 f bucket_name
        (add_folder_to_list_folder_prefixes md5 f bucket_name (granted_object f d))

  -- The objects that the loop grants, put under the level.
  abbrev pub folder_objects : List Text → List Text → List Text
  folder_objects [] rs = rs
  folder_objects (f ∷ fs) rs =
      folder_objects fs (insert ((s3_arn bucket_name ++ (codes "/" ++ f)) ++ codes "/*") rs)

  resources-round :
      (f j : Text) (d : Document)
      → resources j (round f d) ≡ (
          if teq level j
          then insert ((s3_arn bucket_name ++ (codes "/" ++ f)) ++ codes "/*") (resources j d)
          else resources j d)
  unfolding grant_object_access construct_sid
  resources-round f j d =
      rw
        (
          resources-list_sub_folders md5 f bucket_name j
              (add_folder_to_list_folder_prefixes md5 f bucket_name (granted_object f d)),
          resources-list_folder md5 f bucket_name j (granted_object f d),
        )
        (resources-add_resource md5 level known
          ((s3_arn bucket_name ++ (codes "/" ++ f)) ++ codes "/*") none j d)

  pub resources-grant_paths :
      (fs : List Text) (j : Text) (d : Document)
      → resources j (grant_paths md5 bucket_name level fs d)
        ≡ (if teq level j then folder_objects fs (resources j d) else resources j d)
  unfolding grant_paths
  resources-grant_paths [] j d = ground arith
  resources-grant_paths (f ∷ fs) j d =
      ground (arith, resources-grant_paths fs j (round f d), resources-round f j d)

  -- A round keeps the ARN of the bucket wherever it is.
  has_bucket-round :
      (f j : Text) (d : Document)
      → mem (s3_arn bucket_name) (resources j d) ≡ true
      → mem (s3_arn bucket_name) (resources j (round f d)) ≡ true
  has_bucket-round f j d h =
      let o = (s3_arn bucket_name ++ (codes "/" ++ f)) ++ codes "/*" in
      ground (arith, resources-round f j d, mem-insert (s3_arn bucket_name) o (resources j d) h)

  has_bucket-object :
      (f j : Text) (d : Document)
      → mem (s3_arn bucket_name) (resources j d) ≡ true
      → mem (s3_arn bucket_name) (resources j (granted_object f d)) ≡ true
  unfolding grant_object_access
  has_bucket-object f j d h =
      let o = (s3_arn bucket_name ++ (codes "/" ++ f)) ++ codes "/*" in
      ground (
        arith,
        resources-add_resource md5 level known o none j d,
        mem-insert (s3_arn bucket_name) o (resources j d) h,
      )

  condition_at-object :
      (f j : Text) (d : Document) → condition_at j (granted_object f d) ≡ condition_at j d
  unfolding grant_object_access
  condition_at-object f j d =
      condition_at-add_resource md5 level known
        ((s3_arn bucket_name ++ (codes "/" ++ f)) ++ codes "/*") none j d

  -- What may be listed, and what below it.
  abbrev pub listed : Document → List Text
  listed d = prefixes_or [] (codes "StringEquals") (condition_at (folder_sid md5 bucket_name) d)

  abbrev pub listed_below : Document → List Text
  listed_below d =
      prefixes_or [] (codes "StringLike") (condition_at (sub_folders_sid md5 bucket_name) d)

  listed-round :
      (f : Text) (d : Document)
      → mem (s3_arn bucket_name) (resources (folder_sid md5 bucket_name) d) ≡ true
      → listed (round f d)
        ≡ list_folder_prefixes f (
            prefixes_or
              ([] ∷ [])
              (codes "StringEquals")
              (condition_at (folder_sid md5 bucket_name) d))
  unfolding prefixes_or
  listed-round f d h =
      let sid = folder_sid md5 bucket_name in
      let o = granted_object f d in
      rw (
        condition_at-list_sub_folders md5 f bucket_name sid
            (add_folder_to_list_folder_prefixes md5 f bucket_name o),
        (sub_folders_sid-ne md5 bucket_name).3,
        condition_at-list_folder md5 f bucket_name sid o,
        teq_refl sid,
        has_bucket-object f sid d h,
        condition_at-object f sid d,
        teq_refl (codes "StringEquals"),
      )

  listed_below-round :
      (f : Text) (d : Document)
      → mem (s3_arn bucket_name) (resources (sub_folders_sid md5 bucket_name) d) ≡ true
      → listed_below (round f d) ≡ insert (f ++ codes "/*") (listed_below d)
  unfolding prefixes_or
  listed_below-round f d h =
      let sid = sub_folders_sid md5 bucket_name in
      let o = granted_object f d in
      rw (
        condition_at-list_sub_folders md5 f bucket_name sid
            (add_folder_to_list_folder_prefixes md5 f bucket_name o),
        teq_refl sid,
        resources-list_folder md5 f bucket_name sid o,
        has_bucket-object f sid d h,
        condition_at-list_folder md5 f bucket_name sid o,
        (folder_sid-ne md5 bucket_name).3,
        condition_at-object f sid d,
        teq_refl (codes "StringLike"),
      )

  -- What is listed stays listed.
  listed-grant_paths_mono :
      (p : Text) (fs : List Text) (d : Document)
      → mem (s3_arn bucket_name) (resources (folder_sid md5 bucket_name) d) ≡ true
      → mem p (listed d) ≡ true
      → mem p (listed (grant_paths md5 bucket_name level fs d)) ≡ true
  unfolding grant_paths
  listed-grant_paths_mono p [] d h k = k
  listed-grant_paths_mono p (f ∷ fs) d h k =
      let c = condition_at (folder_sid md5 bucket_name) d in
      listed-grant_paths_mono p fs (round f d) (has_bucket-round f (folder_sid md5 bucket_name) d h)
        (rw (listed-round f d h) (
          mem-list_folder_prefixes p f (prefixes_or ([] ∷ []) (codes "StringEquals") c)
            (mem-prefixes_or p (codes "StringEquals") ([] ∷ []) c k)))

  listed_below-grant_paths_mono :
      (p : Text) (fs : List Text) (d : Document)
      → mem (s3_arn bucket_name) (resources (sub_folders_sid md5 bucket_name) d) ≡ true
      → mem p (listed_below d) ≡ true
      → mem p (listed_below (grant_paths md5 bucket_name level fs d)) ≡ true
  unfolding grant_paths
  listed_below-grant_paths_mono p [] d h k = k
  listed_below-grant_paths_mono p (f ∷ fs) d h k =
      listed_below-grant_paths_mono p fs (round f d)
        (has_bucket-round f (sub_folders_sid md5 bucket_name) d h)
        (rw (listed_below-round f d h) (mem-insert p (f ++ codes "/*") (listed_below d) k))

  -- Every path of the loop is listed at its end.
  listed-grant_paths :
      (f : Text) (fs : List Text) (d : Document)
      → mem (s3_arn bucket_name) (resources (folder_sid md5 bucket_name) d) ≡ true
      → mem f fs ≡ true
      → mem f (listed (grant_paths md5 bucket_name level fs d)) ≡ true
  unfolding grant_paths mem
  listed-grant_paths f [] d h k = ground arith
  listed-grant_paths f (x ∷ fs) d h k = elim (Bool-cases (teq x f)) [
    | inl e ↦ rw (← (teq_iff x f).0 e) (
        listed-grant_paths_mono x fs (round x d)
          (has_bucket-round x (folder_sid md5 bucket_name) d h)
          (rw (listed-round x d h) (mem-list_folder_prefixes_self x _)))
    | inr e ↦
        listed-grant_paths f fs (round x d) (has_bucket-round x (folder_sid md5 bucket_name) d h)
          (ground arith)
  ]

  listed_below-grant_paths :
      (f : Text) (fs : List Text) (d : Document)
      → mem (s3_arn bucket_name) (resources (sub_folders_sid md5 bucket_name) d) ≡ true
      → mem f fs ≡ true
      → mem (f ++ codes "/*") (listed_below (grant_paths md5 bucket_name level fs d)) ≡ true
  unfolding grant_paths mem
  listed_below-grant_paths f [] d h k = ground arith
  listed_below-grant_paths f (x ∷ fs) d h k = elim (Bool-cases (teq x f)) [
    | inl e ↦ rw (← (teq_iff x f).0 e) (
        listed_below-grant_paths_mono (x ++ codes "/*") fs (round x d)
          (has_bucket-round x (sub_folders_sid md5 bucket_name) d h)
          (rw (listed_below-round x d h) (mem-insert_self (x ++ codes "/*") _)))
    | inr e ↦
        listed_below-grant_paths f fs (round x d)
          (has_bucket-round x (sub_folders_sid md5 bucket_name) d h) (ground arith)
  ]

  -- `add_bucket` puts the ARN of the bucket under the three Sids of a folder.
  pub resources-add_bucket :
      (j : Text) (d : Document)
      → resources j (add_bucket md5 bucket_name d) ≡ (
          if teq (codes "rootFolderBucketMeta") j
            || (teq (folder_sid md5 bucket_name) j || teq (sub_folders_sid md5 bucket_name) j)
          then insert (s3_arn bucket_name) (resources j d)
          else resources j d)
  unfolding add_bucket
  resources-add_bucket j d =
      let arn = s3_arn bucket_name in
      rw
        (
          resources-add_resource md5 (codes "listSubFolders") known_list_sub_folders.1 arn
              (some bucket_name) j _,
          resources-add_resource md5 (codes "listFolder") known_list_folder.1 arn (some bucket_name)
              j _,
          resources-add_resource md5 (codes "rootFolderBucketMeta") known_meta.1 arn none j d,
          construct_sid-none md5 (codes "rootFolderBucketMeta"),
        )
        (ground (arith, insert_again arn (resources j d)))

  has_bucket-add_bucket :
      (j : Text) (d : Document)
      → (teq (folder_sid md5 bucket_name) j || teq (sub_folders_sid md5 bucket_name) j) ≡ true
      → mem (s3_arn bucket_name) (resources j (add_bucket md5 bucket_name d)) ≡ true
  has_bucket-add_bucket j d h =
      ground (arith, resources-add_bucket j d, mem-insert_self (s3_arn bucket_name) (resources j d))

  -- After a grant of folders of a bucket at a known level, each of them is among the prefixes that
  -- "listFolder" lists, and with "/*" among those that "listSubFolders" lists.
  pub grant_folder_lists :
      (f : Text) (fs : List Text) (d : Document)
      → mem f fs ≡ true
      → let e = grant_paths md5 bucket_name level fs (add_bucket md5 bucket_name d) in
        (mem f (listed e) ≡ true) × (mem (f ++ codes "/*") (listed_below e) ≡ true)
  grant_folder_lists f fs d k =
      let b = add_bucket md5 bucket_name d in
      (
        listed-grant_paths f fs b
            (has_bucket-add_bucket (folder_sid md5 bucket_name) d
              (ground (arith, teq_refl (folder_sid md5 bucket_name))))
            k,
        listed_below-grant_paths f fs b
            (has_bucket-add_bucket (sub_folders_sid md5 bucket_name) d
              (ground (arith, teq_refl (sub_folders_sid md5 bucket_name))))
            k,
      )
