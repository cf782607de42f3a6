-- ===== src/Tasks/Buckets/Taken.antt =====
-- A new row for a bucket that is there.
use analytics_platform_contr.Prelude.{ℕ, Text, codes, false, Option, List, [], ◌∷◌, ◌++◌, map}
use analytics_platform_contr.Aws.Bucket.{Setting, S3Client}
use analytics_platform_contr.Aws.Bucket.Laws.{KeepsBucket, KeepsSettings}
use analytics_platform_contr.Aws.ManagedPolicy.{PolicyClient}
use analytics_platform_contr.Aws.S3AccessPolicy.{Md5}
use analytics_platform_contr.Tasks.World.{World, S3Bucket, bucket_arn}
use analytics_platform_contr.Tasks.Handlers.{
  Message, revoke_user_s3bucket_access, revoke_app_s3bucket_access,
}
use analytics_platform_contr.Tasks.Deletion.{Site, Config, rows_of}

-- The messages that revoke the access of the users and apps with rows for a bucket that is no folder
abbrev pub revocations : S3Bucket → World → List Message
revocations b w =
    map (λ a. revoke_user_s3bucket_access (bucket_arn b) a.holder false)
      (rows_of b.pk w.users3buckets)
    ++ map (λ a. revoke_app_s3bucket_access (bucket_arn b) a.holder) (rows_of b.pk w.apps3buckets)

-- The names of their tasks
abbrev pub names_of_revocations : S3Bucket → World → List Text
names_of_revocations b w =
    map (λ a. codes "revoke_user_s3bucket_access") (rows_of b.pk w.users3buckets)
    ++ map (λ a. codes "revoke_app_s3bucket_access") (rows_of b.pk w.apps3buckets)

module _ {Store Managed : Type 0} (client : S3Client Store) (iam : PolicyClient Managed) (md5 : Md5)
    (config : Config Store) (object : S3Bucket) (keeps : KeepsBucket client object.name)
    (setting : ℕ → Store → Option Setting) (laws : KeepsSettings client object.name setting)
    (site : Site Store Managed) (task_id : ℕ) where
  abbrev to_archive : List (Text × Text)
  to_archive = (codes "to-archive", codes "true") ∷ []
