-- ===== src/Tasks/Handlers.antt =====
-- The handlers of controlpanel/api/tasks/handlers for the messages on access to buckets, and
-- the `run` methods that call them.
pub mod Plan
use analytics_platform_contr.Prelude.{
  ℕ, Text, teq, ◌==◌, Bool, true, false, ◌||◌, Option, none, some, List, [], ◌∷◌, if◌then◌else◌,
}
use analytics_platform_contr.Prelude.Exec.{Exec, ok, err, pure, raise, ◌>>=◌, ◌>>◌}
use analytics_platform_contr.Aws.S3AccessPolicy.{Md5}
use analytics_platform_contr.Aws.Role.{grant_bucket_access, revoke_bucket_access}
use analytics_platform_contr.Aws.Role.Folders.{grant_folder_access, revoke_folder_access}
use analytics_platform_contr.Tasks.Status.{Task}
use analytics_platform_contr.Tasks.World.{
  World, Raised, does_not_exist, unbound_local, S3Bucket, AccessToS3Bucket, first, is_folder,
  bucket_arn, access_resources, user_role_name, app_role_name, find_task, save, at_role,
}

-- The messages, with the arguments that the handlers receive. The user who sent the message is not
-- used by these.
pub data Message : Type 0 where
  grant_app_s3bucket_access : ℕ → Message
  grant_user_s3bucket_access : ℕ → Message
  revoke_user_s3bucket_access : Text → Text → Bool → Message
  revoke_app_s3bucket_access : Text → ℕ → Message

-- `complete`: with no row there is nothing to mark.
unfoldable pub complete : Option Task → Exec Raised World Unit
complete none w = (ok tt, w)
complete (some task_obj) w = (ok tt, save (record task_obj { completed = true }) w)

-- `get_object`, and the row behind a foreign key: DoesNotExist is raised again.
or_does_not_exist : {A : Type 0} → Option A → Exec Raised World A
or_does_not_exist none w = (err does_not_exist, w)
or_does_not_exist (some a) w = (ok a, w)

-- GrantAppS3BucketAccess
unfoldable pub grant_app : Md5 → Text → Option Task → ℕ → Exec Raised World Unit
unfolding or_does_not_exist
grant_app md5 env task_obj obj_pk w =
    (do
      object ← or_does_not_exist (first (λ a. a.pk == obj_pk) w.apps3buckets)
      app ← or_does_not_exist (first (λ a. a.pk == object.holder) w.apps)
      s3bucket ← or_does_not_exist (first (λ b. b.pk == object.s3bucket) w.s3buckets)
      at_role (app_role_name env app) (
          grant_bucket_access md5 (bucket_arn s3bucket) object.access_level
            (access_resources s3bucket object.paths))
      complete task_obj)
      w

-- GrantUserS3BucketAccess
unfoldable pub grant_user : Md5 → Text → Option Task → ℕ → Exec Raised World Unit
unfolding or_does_not_exist
grant_user md5 env task_obj obj_pk w =
    (do
      object ← or_does_not_exist (first (λ a. a.pk == obj_pk) w.users3buckets)
      s3bucket ← or_does_not_exist (first (λ b. b.pk == object.s3bucket) w.s3buckets)
      user ← or_does_not_exist (first (λ u. teq u.auth0_id object.holder) w.users)
      at_role (user_role_name env user) (
          if is_folder s3bucket
          then grant_folder_access md5 s3bucket.name object.access_level object.paths
          else grant_bucket_access md5 (bucket_arn s3bucket) object.access_level
              (access_resources s3bucket object.paths))
      complete task_obj)
      w

-- S3BucketRevokeUserAccess: a user who is gone has nothing to revoke.
unfoldable pub revoke_user : Md5 → Text → Option Task → Text → Text → Bool → Exec Raised World Unit
revoke_user md5 env task_obj bucket_identifier bucket_user_pk folder w =
    elim (first (λ u. teq u.auth0_id bucket_user_pk) w.users) [
      | none ↦ complete task_obj w
      | some bucket_user ↦
          (at_role (user_role_name env bucket_user) (
                if folder
                then revoke_folder_access md5 bucket_identifier
                else revoke_bucket_access md5 (some bucket_identifier))
              >> complete task_obj)
            w
    ]

-- S3BucketRevokeAppAccess: for an app that is gone the task is marked completed, and then the unset
-- name `app` is read.
unfoldable pub revoke_app : Md5 → Text → Option Task → Text → ℕ → Exec Raised World Unit
revoke_app md5 env task_obj arn app_pk w = elim (first (λ a. a.pk == app_pk) w.apps) [
  | none ↦ (complete task_obj >> raise unbound_local) w
  | some app ↦
      (at_role (app_role_name env app) (revoke_bucket_access md5 (some arn)) >> complete task_obj) w
]

unfoldable pub handle : Md5 → Text → Option Task → Message → Exec Raised World Unit
handle md5 env task_obj (grant_app_s3bucket_access pk) = grant_app md5 env task_obj pk
handle md5 env task_obj (grant_user_s3bucket_access pk) = grant_user md5 env task_obj pk
handle md5 env task_obj (revoke_user_s3bucket_access identifier pk folder) =
    revoke_user md5 env task_obj identifier pk folder
handle md5 env task_obj (revoke_app_s3bucket_access arn pk) = revoke_app md5 env task_obj arn pk

-- self.task_obj and (self.task_obj.completed or self.task_obj.cancelled)
unfoldable pub is_finished : Option Task → Bool
is_finished none = false
is_finished (some task_obj) = task_obj.completed || task_obj.cancelled

-- `run`, for the message with that task id
unfoldable pub run : Md5 → Text → ℕ → Message → Exec Raised World Unit
run md5 env task_id message w =
    let task_obj = find_task task_id w.tasks in
    if is_finished task_obj then (ok tt, w) else handle md5 env task_obj message w
