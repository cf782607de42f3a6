-- ===== src/Tasks/Journey.antt =====
-- A grant from the creation of its task to the policy of the user's role.
use analytics_platform_contr.Prelude.{ℕ, ◌≡◌, Text, teq, mem, ◌==◌, true, false, Option, none, some}
use analytics_platform_contr.Prelude.Exec.{ok}
use analytics_platform_contr.Aws.Document.{Document}
use analytics_platform_contr.Aws.S3AccessPolicy.{Md5}
use analytics_platform_contr.Aws.S3AccessPolicy.Resources.{resources}
use analytics_platform_contr.Aws.Role.{access_levels}
use analytics_platform_contr.Aws.Role.Access.{granted_view}
use analytics_platform_contr.Aws.Role.Buckets.{IsOpen, holding}
use analytics_platform_contr.Tasks.World.{
  World, User, S3Bucket, AccessToS3Bucket, first, find_task, is_folder, bucket_arn,
  access_resources, user_role_name,
}
use analytics_platform_contr.Tasks.Handlers.{run, is_finished}
use analytics_platform_contr.Tasks.Creation.{
  grant_to_user, create_task, row_of, message_of, find_task-create_task,
}
use analytics_platform_contr.Tasks.Delivery.{run_completes}
use analytics_platform_contr.Tasks.Access.{grant_reaches_role}

module _ (md5 : Md5) (env iam_queue : Text) (i now : ℕ) (sender : Option User) (w : World)
    (user : User) (d : Document) where
  -- A task that is created with a new id to grant a user access, and delivered after that, returns,
  -- its row is finished, and the user's role has, under every Sid, the resources of the view of a
  -- grant; where the access row, its bucket, which is no folder, and its user are in their tables,
  -- the level is known, and the role is there with a policy with Sids, no two the same.
  pub grant_journey :
      (access : AccessToS3Bucket Text) (bucket : S3Bucket) (j : Text)
      → find_task i w.tasks ≡ none
      → IsOpen (w.roles (user_role_name env user)) d
      → first (λ o. o.pk == access.pk) w.users3buckets ≡ some access
      → first (λ b. b.pk == access.s3bucket) w.s3buckets ≡ some bucket
      → first (λ u. teq u.auth0_id access.holder) w.users ≡ some user
      → is_folder bucket ≡ false
      → mem access.access_level access_levels ≡ true
      → let (message, created) = create_task iam_queue i now sender (grant_to_user access) w in
        let (result, after) = run md5 env i message created in
        (q : Document) × (result ≡ ok tt)
        × (is_finished (find_task i after.tasks) ≡ true)
        × (after.roles (user_role_name env user) ≡ holding (w.roles (user_role_name env user)) q)
        × (resources j q
            ≡ granted_view
                (bucket_arn bucket)
                access.access_level
                (access_resources bucket access.paths)
                j
                (resources j d))
  unfolding create_task message_of
  grant_journey access bucket j new h found of_bucket of_user plain known =
      let (at, pending) =
        find_task-create_task iam_queue i now sender (grant_to_user access) w new in
      let (message, created) = create_task iam_queue i now sender (grant_to_user access) w in
      let (q, returned, role, view) =
        grant_reaches_role md5 env i created user d pending h access.pk access bucket j found
          of_bucket of_user plain known in
      (
        q,
        returned,
        run_completes md5 env i message created
            (row_of iam_queue i now sender (grant_to_user access)) at returned,
        role,
        view,
      )
