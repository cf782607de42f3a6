-- ===== src/Tasks/Creation.antt =====
-- `TaskBase.create_task` of controlpanel/api/tasks/task_base.py, for the four tasks on access of
-- controlpanel/api/tasks/s3bucket.py: the message that is sent, and the row that is created.
use analytics_platform_contr.Prelude.{
  ℕ, ◌≡◌, refl, Text, codes, false, Option, none, some, List, [], ◌∷◌, ◌++◌, if◌then◌else◌, arith,
}
use analytics_platform_contr.Aws.Arn.{lower}
use analytics_platform_contr.Tasks.Status.{Task}
use analytics_platform_contr.Tasks.World.{
  World, User, S3Bucket, AccessToS3Bucket, first, find_task, is_folder, bucket_arn,
}
use analytics_platform_contr.Tasks.Handlers.{
  Message, grant_app_s3bucket_access, grant_user_s3bucket_access, revoke_user_s3bucket_access,
  revoke_app_s3bucket_access, is_finished,
}

-- The entity of a task, by the class of the task: S3BucketGrantToUser, S3BucketGrantToApp,
-- S3BucketRevokeUserAccess and S3BucketRevokeAppAccess, the last two with the bucket of the entity.
pub data Request : Type 0 where
  grant_to_user : AccessToS3Bucket Text → Request
  grant_to_app : AccessToS3Bucket ℕ → Request
  revoke_from_user : S3Bucket → AccessToS3Bucket Text → Request
  revoke_from_app : S3Bucket → AccessToS3Bucket ℕ → Request

-- ACTION and ROLE
unfoldable pub action : Request → Text
action (grant_to_user _) = codes "GRANT"
action (grant_to_app _) = codes "GRANT"
action (revoke_from_user _ _) = codes "REVOKE"
action (revoke_from_app _ _) = codes "REVOKE"

unfoldable pub role_of : Request → Text
role_of (grant_to_user _) = codes "USER"
role_of (grant_to_app _) = codes "APP"
role_of (revoke_from_user _ _) = codes "USER"
role_of (revoke_from_app _ _) = codes "APP"

-- `S3AccessMixin.task_name`
unfoldable pub name_of_task : Request → Text
name_of_task r = lower (action r) ++ (codes "_" ++ (lower (role_of r) ++ codes "_s3bucket_access"))

-- `S3AccessMixin.task_description`
unfoldable pub description_of_task : Request → Text
description_of_task r = lower (action r) ++ (codes " access to the " ++ lower (role_of r))

-- `_get_args_list`, as the handler of the task's name receives it
unfoldable pub message_of : Request → Message
message_of (grant_to_user access) = grant_user_s3bucket_access access.pk
message_of (grant_to_app access) = grant_app_s3bucket_access access.pk
message_of (revoke_from_user b access) =
    revoke_user_s3bucket_access (if is_folder b then b.name else bucket_arn b) access.holder
      (is_folder b)
message_of (revoke_from_app b access) = revoke_app_s3bucket_access (bucket_arn b) access.holder

-- self.user.auth0_id if self.user else "None"
unfoldable pub sender_of : Option User → Text
sender_of none = codes "None"
sender_of (some user) = user.auth0_id

-- The row that is created, at a time, with a new id; the description stands in both columns.
unfoldable pub row_of : Text → ℕ → ℕ → Option User → Request → Task
row_of iam_queue task_id now user r = record {
  task_id = task_id;
  task_name = name_of_task r;
  task_description = description_of_task r;
  entity_description = description_of_task r;
  user_id = sender_of user;
  queue_name = iam_queue;
  completed = false;
  cancelled = false;
  created = now;
  retried_at = none;
}

-- `create_task`: the message that is sent, and the world with the row.
unfoldable pub create_task : Text → ℕ → ℕ → Option User → Request → World → Message × World
create_task iam_queue task_id now user r w =
    (message_of r, record w { tasks = w.tasks ++ row_of iam_queue task_id now user r ∷ [] })

find_task-append :
    (i : ℕ) (t : Task) (rows : List Task)
    → find_task i rows ≡ none
    → t.task_id ≡ i
    → find_task i (rows ++ t ∷ []) ≡ some t
unfolding first
find_task-append i t [] h k = ground arith
find_task-append i t (row ∷ rows) h k = ground (arith, find_task-append i t rows)

-- The row of a task that was created with a new id is found by that id, and it is not finished.
pub find_task-create_task :
    (iam_queue : Text) (i now : ℕ) (user : Option User) (r : Request) (w : World)
    → find_task i w.tasks ≡ none
    → let e = create_task iam_queue i now user r w in
      (find_task i e.1.tasks ≡ some (row_of iam_queue i now user r))
      × (is_finished (find_task i e.1.tasks) ≡ false)
unfolding create_task row_of is_finished
find_task-create_task iam_queue i now user r w h =
    let e = find_task-append i (row_of iam_queue i now user r) w.tasks h refl in (e, rw e refl)
