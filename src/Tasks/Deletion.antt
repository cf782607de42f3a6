-- ===== src/Tasks/Deletion.antt =====
-- `delete` of the row of a bucket in controlpanel/api/models/s3bucket.py, with the signal of
-- controlpanel/api/models/access_to_s3bucket.py that revokes access for each row that goes with it.
use analytics_platform_contr.Prelude.{
  ℕ, Text, codes, ◌==◌, Bool, not, none, some, List, [], ◌∷◌, ◌++◌, filter, if◌then◌else◌,
}
use analytics_platform_contr.Prelude.Exec.{Result, Exec, ok, err, pure, for_each}
use analytics_platform_contr.Aws.Bucket.{ClientError, S3Client, tag_bucket}
use analytics_platform_contr.Aws.S3AccessPolicy.{Md5}
use analytics_platform_contr.Aws.ManagedPolicy as ManagedPolicy
use analytics_platform_contr.Aws.ManagedPolicy.{
  PolicyClient, revoke_policy_bucket_access, revoke_policy_folder_access,
}
use analytics_platform_contr.Tasks.World.{World, S3Bucket, AccessToS3Bucket, is_folder, bucket_arn}
use analytics_platform_contr.Tasks.Handlers.{Message}
use analytics_platform_contr.Tasks.Creation.{
  Request, revoke_from_user, revoke_from_app, create_task,
}

-- What stops the code: DoesNotExist, or an error of a call of S3 or of IAM
pub data Stopped : Type 0 where
  does_not_exist : Stopped
  s3_error : ClientError → Stopped
  policy_error : ManagedPolicy.Error → Stopped

-- The tables, the rows of PolicyS3Bucket, the managed policies by the keys of their rows, the messages that
-- were sent, and S3
pub record Site (Store Managed : Type 0) : Type 0 where
  pub world : World
  pub policys3buckets : List (AccessToS3Bucket ℕ)
  pub policies : ℕ → Managed
  pub sent : List Message
  pub store : Store

-- What the code reads beside the rows: settings, the time, a uuid that is new to the table, the column
-- is_data_warehouse by key, and `AWSFolder.create`
pub record Config (Store : Type 0) : Type 0 where
  pub region : Text
  pub logs : Text
  pub iam_queue : Text
  pub now : ℕ
  pub new_task_id : World → ℕ
  pub is_data_warehouse : ℕ → Bool
  pub create_folder : Text → Exec ClientError Store Unit

-- The rows on access to a bucket
abbrev pub rows_of : {K : Type 0} → ℕ → List (AccessToS3Bucket K) → List (AccessToS3Bucket K)
rows_of pk = filter (λ a. a.s3bucket == pk)

abbrev pub other_rows : {K : Type 0} → ℕ → List (AccessToS3Bucket K) → List (AccessToS3Bucket K)
other_rows pk = filter (λ a. not (a.s3bucket == pk))

-- The rows of the database that go with that of the bucket
unfoldable pub drop_row : ℕ → World → World
drop_row pk w = record w {
  s3buckets = filter (λ b. not (b.pk == pk)) w.s3buckets;
  users3buckets = other_rows pk w.users3buckets;
  apps3buckets = other_rows pk w.apps3buckets;
}

-- `revoke_bucket_access` of rows of users or of apps: a task for each, with no user
unfoldable pub revoke_each :
    {Store K : Type 0}
    → Config Store
    → (AccessToS3Bucket K → Request)
    → List (AccessToS3Bucket K)
    → World
    → List Message × World
revoke_each config request [] w = ([], w)
revoke_each config request (a ∷ rows) w =
    let (m, w') =
      create_task config.iam_queue (config.new_task_id w) config.now none (request a) w in
    let (ms, w'') = revoke_each config request rows w' in (m ∷ ms, w'')

-- The signal for the rows of users and of apps
unfoldable pub revoke_rows :
    {Store : Type 0} → Config Store → S3Bucket → World → List Message × World
revoke_rows config object w =
    let (ms, w') =
      revoke_each config (revoke_from_user object) (rows_of object.pk w.users3buckets) w in
    let (ns, w'') =
      revoke_each config (revoke_from_app object) (rows_of object.pk w.apps3buckets) w' in
    (ms ++ ns, w'')

raised_policy : Result ManagedPolicy.Error Unit → Result Stopped Unit
raised_policy (ok _) = ok tt
raised_policy (err e) = err (policy_error e)

module _ {Managed : Type 0} (iam : PolicyClient Managed) (md5 : Md5) where
  -- `PolicyS3Bucket.revoke_bucket_access`, at once
  unfoldable pub revoke_policy : S3Bucket → AccessToS3Bucket ℕ → Exec Stopped (ℕ → Managed) Unit
  unfolding raised_policy
  revoke_policy object a policies =
      let (r, policy) =
        (if is_folder object
            then revoke_policy_folder_access iam md5 object.name
            else revoke_policy_bucket_access iam md5 (some (bucket_arn object)))
          (policies a.holder) in
      (raised_policy r, λ n. if n == a.holder then policy else policies n)

-- super().delete(): where a call of IAM fails the tables are as they were, what was sent is sent.
unfoldable pub dropped :
    {Store Managed : Type 0}
    → S3Bucket
    → List Message × World
    → Result Stopped Unit
    → Exec Stopped (Site Store Managed) Unit
dropped object (ms, w) (ok _) site = (
  ok tt,
  record site {
    world = drop_row object.pk w;
    policys3buckets = other_rows object.pk site.policys3buckets;
    sent = site.sent ++ ms;
  },
)
dropped object (ms, w) (err e) site = (err e, record site { sent = site.sent ++ ms })

-- `S3Bucket.mark_for_archival`
unfoldable pub mark_for_archival :
    {Store : Type 0} → S3Client Store → S3Bucket → Exec ClientError Store Unit
mark_for_archival client object =
    tag_bucket client object.name ((codes "to-archive", codes "true") ∷ [])

module _ {Store Managed : Type 0} (client : S3Client Store) (iam : PolicyClient Managed) (md5 : Md5)
    (config : Config Store) where
  -- The cascade, after the bucket is marked: the rows of users, of apps and of policies
  unfoldable pub deleted :
      S3Bucket → Result ClientError Unit → Exec Stopped (Site Store Managed) Unit
  deleted object (err e) site = (err (s3_error e), site)
  deleted object (ok _) site =
      let (r, policies) =
        for_each (revoke_policy iam md5 object) (rows_of object.pk site.policys3buckets)
          site.policies in
      dropped object (revoke_rows config object site.world) r (record site { policies = policies })

  -- `S3Bucket.delete` of the model, in one transaction
  unfoldable pub delete : S3Bucket → Exec Stopped (Site Store Managed) Unit
  delete object site =
      let (r, store) =
        (if is_folder object then pure tt else mark_for_archival client object) site.store in
      deleted object r (record site { store = store })
