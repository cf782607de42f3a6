-- ===== src/Tasks/Access.antt =====
-- From a row that gives a user access to a bucket to the policy of the user's role: the message,
-- the handler, `AWSRole.grant_bucket_access` and `S3AccessPolicy` together.
use analytics_platform_contr.Prelude.{
  ℕ, ◌≡◌, refl, Text, teq, teq_refl, mem, ◌==◌, true, false, Option, none, some, arith,
}
use analytics_platform_contr.Prelude.Exec.{Exec, ok, ◌>>◌}
use analytics_platform_contr.Aws.Document.{Document}
use analytics_platform_contr.Aws.S3AccessPolicy.{Md5}
use analytics_platform_contr.Aws.S3AccessPolicy.Resources.{resources}
use analytics_platform_contr.Aws.Role.{Error, IamRole, access_levels, grant_bucket_access}
use analytics_platform_contr.Aws.Role.Access.{granted_view}
use analytics_platform_contr.Aws.Role.Buckets.{IsOpen, holding, grant_bucket_access-view}
use analytics_platform_contr.Tasks.Status.{Task}
use analytics_platform_contr.Tasks.World.{
  World, User, S3Bucket, AccessToS3Bucket, first, find_task, is_folder, bucket_arn,
  access_resources, user_role_name, at_role, save,
}
use analytics_platform_contr.Tasks.Handlers.{
  grant_user_s3bucket_access, complete, run, handle, grant_user, is_finished,
}

-- The role after a method that returns.
act_lem :
    (name : Text) (method : Exec Error IamRole Unit) (t : Option Task) (w : World) (r : IamRole)
    → method (w.roles name) ≡ (ok tt, r)
    → (((at_role name method >> complete t) w).0 ≡ ok tt)
      × (((at_role name method >> complete t) w).1.roles name ≡ r)
unfolding at_role complete save
act_lem name method none w r h = ground (arith, h, teq_refl name)
act_lem name method (some t) w r h = ground (arith, h, teq_refl name)

module _ (md5 : Md5) (env : Text) (i : ℕ) (w : World) (user : User) (d : Document)
    (pending : is_finished (find_task i w.tasks) ≡ false)
    (h : IsOpen (w.roles (user_role_name env user)) d) where
  run_grant_user :
      (pk : ℕ) (row : AccessToS3Bucket Text) (bucket : S3Bucket)
      → first (λ o. o.pk == pk) w.users3buckets ≡ some row
      → first (λ b. b.pk == row.s3bucket) w.s3buckets ≡ some bucket
      → first (λ u. teq u.auth0_id row.holder) w.users ≡ some user
      → is_folder bucket ≡ false
      → run md5 env i (grant_user_s3bucket_access pk) w
        ≡ (at_role (user_role_name env user) (
                grant_bucket_access md5
                  (bucket_arn bucket)
                  row.access_level
                  (access_resources bucket row.paths))
              >> complete (find_task i w.tasks))
            w
  unfolding run handle grant_user
  run_grant_user pk row bucket found of_bucket of_user plain =
      rw (pending, found, of_bucket, of_user, plain) refl

  -- For a message whose row is pending, where the access row, its bucket, which is no folder, and
  -- its user are in their tables, the level is known and the role of the user is there with a
  -- policy with Sids, no two the same: the delivery of the message that grants the user access
  -- returns, and the role then holds a document with, under every Sid, the resources of the view of
  -- a grant of the row's paths at its level.
  pub grant_reaches_role :
      (pk : ℕ) (row : AccessToS3Bucket Text) (bucket : S3Bucket) (j : Text)
      → first (λ o. o.pk == pk) w.users3buckets ≡ some row
      → first (λ b. b.pk == row.s3bucket) w.s3buckets ≡ some bucket
      → first (λ u. teq u.auth0_id row.holder) w.users ≡ some user
      → is_folder bucket ≡ false
      → mem row.access_level access_levels ≡ true
      → (q : Document) × ((run md5 env i (grant_user_s3bucket_access pk) w).0 ≡ ok tt)
        × ((run md5 env i (grant_user_s3bucket_access pk) w).1.roles (user_role_name env user)
            ≡ holding (w.roles (user_role_name env user)) q)
        × (resources j q
            ≡ granted_view
                (bucket_arn bucket)
                row.access_level
                (access_resources bucket row.paths)
                j
                (resources j d))
  grant_reaches_role pk row bucket j found of_bucket of_user plain known =
      let name = user_role_name env user in
      let paths = access_resources bucket row.paths in
      let method = grant_bucket_access md5 (bucket_arn bucket) row.access_level paths in
      let (q, ran, opened, view) =
        grant_bucket_access-view md5 (bucket_arn bucket) row.access_level paths (w.roles name) d h j
          known in
      let (returned, at) =
        act_lem name method (find_task i w.tasks) w (holding (w.roles name) q) ran in
      let e = run_grant_user pk row bucket found of_bucket of_user plain in
      (q, rw e returned, rw e at, view)
