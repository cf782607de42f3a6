-- ===== src/Tasks/Handlers/Plan.antt =====
-- What a message asks for, read off the tables before anything is done: the specification that the
-- handlers implement.
use analytics_platform_contr.Prelude.{
  ◌≡◌, Text, teq, ◌==◌, Bool, Option, none, some, if◌then◌else◌, arith,
}
use analytics_platform_contr.Prelude.Exec.{Exec, err, raise, ◌>>◌}
use analytics_platform_contr.Aws.S3AccessPolicy.{Md5}
use analytics_platform_contr.Aws.Role.{Error, IamRole, grant_bucket_access, revoke_bucket_access}
use analytics_platform_contr.Aws.Role.Folders.{grant_folder_access, revoke_folder_access}
use analytics_platform_contr.Tasks.Status.{Task}
use analytics_platform_contr.Tasks.World.{
  World, Raised, does_not_exist, unbound_local, S3Bucket, AccessToS3Bucket, first, is_folder,
  bucket_arn, access_resources, user_role_name, app_role_name, at_role,
}
use analytics_platform_contr.Tasks.Handlers.{
  Message, grant_app_s3bucket_access, grant_user_s3bucket_access, revoke_user_s3bucket_access,
  revoke_app_s3bucket_access, complete, grant_app, grant_user, revoke_user, revoke_app, handle,
}

-- Stop because a row is gone, have nothing to do, which for an app ends in an error, or change one
-- role.
pub data Plan : Type 0 where
  stop skip skip_and_fail : Plan
  change : Text → Exec Error IamRole Unit → Plan

unfoldable pub follow : Option Task → Plan → Exec Raised World Unit
follow task_obj stop w = (err does_not_exist, w)
follow task_obj skip w = complete task_obj w
follow task_obj skip_and_fail w = (complete task_obj >> raise unbound_local) w
follow task_obj (change name method) w = (at_role name method >> complete task_obj) w

-- With the row at hand, or DoesNotExist.
abbrev needing {ℓ} : {A : Type ℓ} → Option A → (A → Plan) → Plan
needing none f = stop
needing (some a) f = f a

abbrev user_grant : Md5 → S3Bucket → AccessToS3Bucket Text → Exec Error IamRole Unit
user_grant md5 b o =
    if is_folder b
    then grant_folder_access md5 b.name o.access_level o.paths
    else grant_bucket_access md5 (bucket_arn b) o.access_level (access_resources b o.paths)

abbrev user_revocation : Md5 → Text → Bool → Exec Error IamRole Unit
user_revocation md5 identifier folder =
    if folder
    then revoke_folder_access md5 identifier
    else revoke_bucket_access md5 (some identifier)

unfoldable pub plan : Md5 → Text → Message → World → Plan
plan md5 env (grant_app_s3bucket_access pk) w =
    needing (first (λ o. o.pk == pk) w.apps3buckets) (λ o.
      needing (first (λ a. a.pk == o.holder) w.apps) (λ a.
        needing (first (λ b. b.pk == o.s3bucket) w.s3buckets) (λ b.
          change (app_role_name env a)
            (grant_bucket_access md5 (bucket_arn b) o.access_level (access_resources b o.paths)))))
plan md5 env (grant_user_s3bucket_access pk) w =
    needing (first (λ o. o.pk == pk) w.users3buckets) (λ o.
      needing (first (λ b. b.pk == o.s3bucket) w.s3buckets) (λ b.
        needing (first (λ u. teq u.auth0_id o.holder) w.users)
          (λ u. change (user_role_name env u) (user_grant md5 b o))))
plan md5 env (revoke_user_s3bucket_access identifier pk folder) w =
    elim (first (λ u. teq u.auth0_id pk) w.users) [
      | none ↦ skip
      | some u ↦ change (user_role_name env u) (user_revocation md5 identifier folder)
    ]
plan md5 env (revoke_app_s3bucket_access arn pk) w = elim (first (λ a. a.pk == pk) w.apps) [
  | none ↦ skip_and_fail
  | some a ↦ change (app_role_name env a) (revoke_bucket_access md5 (some arn))
]

-- Every handler follows the plan of its message.
pub handle-plan :
    (md5 : Md5) (env : Text) (t : Option Task) (m : Message) (w : World)
    → handle md5 env t m w ≡ follow t (plan md5 env m w) w
unfolding handle grant_app grant_user revoke_user revoke_app plan follow
handle-plan md5 env t (grant_app_s3bucket_access pk) w = ground arith
handle-plan md5 env t (grant_user_s3bucket_access pk) w = ground arith
handle-plan md5 env t (revoke_user_s3bucket_access identifier pk folder) w = ground arith
handle-plan md5 env t (revoke_app_s3bucket_access arn pk) w = ground arith
