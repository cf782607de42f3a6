-- ===== src/Tasks/Tests.antt =====
-- The theorems on tasks at rows, messages and worlds that meet their hypotheses.
use analytics_platform_contr.Prelude.{
  ◌≡◌, refl, codes, teq, ◌==◌, Text, true, false, none, some, [], ◌∷◌,
}
use analytics_platform_contr.Prelude.Exec.{Exec, ok, err, ◌>>◌}
use analytics_platform_contr.Aws.Arn.{lower}
use analytics_platform_contr.Aws.Document.{Document}
use analytics_platform_contr.Aws.S3AccessPolicy.Resources.{resources}
use analytics_platform_contr.Aws.Role.Access.{granted_view}
use analytics_platform_contr.Aws.Role.Buckets.{holding}
use analytics_platform_contr.Aws.Samples.{
  flat_md5, bucket, stored, role, role-IsOpen, readwrite_level,
}
use analytics_platform_contr.Tasks.Status.{Task, retrying, status}
use analytics_platform_contr.Tasks.World.{
  World, Raised, does_not_exist, unbound_local, User, S3Bucket, AccessToS3Bucket, first, find_task,
  is_folder, bucket_arn, access_resources, user_role_name, save,
}
use analytics_platform_contr.Tasks.Handlers.{
  Message, grant_user_s3bucket_access, revoke_app_s3bucket_access, run, handle, grant_user,
  is_finished,
}
use analytics_platform_contr.Tasks.Handlers.Plan.{plan}
use analytics_platform_contr.Tasks.Creation.{
  grant_to_user, create_task, name_of_task, action, role_of,
}
use analytics_platform_contr.Tasks.Journey.{grant_journey}
use analytics_platform_contr.Tasks.Delivery.{
  finished, touches, run_completes, run_twice, run_isolated, revoke_missing_app,
}
use analytics_platform_contr.Tasks.Access.{grant_reaches_role}

abbrev row : Task
row = record {
  task_id = 1;
  task_name = codes "create_s3bucket";
  task_description = codes "creating s3 bucket";
  entity_description = codes "dev-a";
  user_id = codes "github|1";
  queue_name = codes "s3";
  completed = false;
  cancelled = false;
  created = 100;
  retried_at = some 400000;
}

retried_row : status row 500000 ≡ retrying
unfolding status
retried_row = refl

abbrev user : User
user = record { auth0_id = codes "github|1"; username = codes "Ada" }

abbrev s3bucket : S3Bucket
s3bucket = record { pk = 5; name = codes "dev-a" }

abbrev access : AccessToS3Bucket Text
access = record {
  pk = 7;
  holder = codes "github|1";
  s3bucket = 5;
  access_level = codes "readwrite";
  paths = [];
}

-- A user with access to a bucket, whose row waits for its message.
abbrev world : World
world = record {
  tasks = row ∷ [];
  users = user ∷ [];
  apps = [];
  s3buckets = s3bucket ∷ [];
  users3buckets = access ∷ [];
  apps3buckets = [];
  roles = λ n. role;
  events = [];
}

abbrev grant : Exec Raised World Unit
grant = run flat_md5 (codes "dev") 1 (grant_user_s3bucket_access 7)

row_found : find_task 1 world.tasks ≡ some row
unfolding first
row_found = refl

row_pending : is_finished (find_task 1 world.tasks) ≡ false
unfolding is_finished first
row_pending = refl

access_found : first (λ o. o.pk == 7) world.users3buckets ≡ some access
unfolding first
access_found = refl

bucket_found : first (λ b. b.pk == 5) world.s3buckets ≡ some s3bucket
unfolding first
bucket_found = refl

user_found : first (λ u. teq u.auth0_id (codes "github|1")) world.users ≡ some user
unfolding first teq
user_found = refl

bucket_plain : is_folder s3bucket ≡ false
unfolding is_folder
bucket_plain = refl

grant_reaches_role_example :
    (q : Document) × ((grant world).0 ≡ ok tt)
    × ((grant world).1.roles (user_role_name (codes "dev") user) ≡ holding role q)
    × (resources (codes "readwrite") q
        ≡ granted_view
            (bucket_arn s3bucket)
            (codes "readwrite")
            (access_resources s3bucket [])
            (codes "readwrite")
            (resources (codes "readwrite") stored))
grant_reaches_role_example =
    grant_reaches_role flat_md5 (codes "dev") 1 world user stored row_pending role-IsOpen 7 access
      s3bucket (codes "readwrite") access_found bucket_found user_found bucket_plain readwrite_level

grant_returns : (grant world).0 ≡ ok tt
grant_returns =
    (grant_reaches_role flat_md5 (codes "dev") 1 world user stored row_pending role-IsOpen 7 access
      s3bucket (codes "readwrite") access_found bucket_found user_found bucket_plain
      readwrite_level).1

run_completes_example : is_finished (find_task 1 (grant world).1.tasks) ≡ true
run_completes_example =
    run_completes flat_md5 (codes "dev") 1 (grant_user_s3bucket_access 7) world row row_found
      grant_returns

run_twice_example : (grant >> grant) world ≡ grant world
run_twice_example =
    run_twice flat_md5 (codes "dev") 1 (grant_user_s3bucket_access 7) world row row_found
      grant_returns

-- The message is there before the row.
abbrev rowless : World
rowless = record world { tasks = [] }

no_row : find_task 1 rowless.tasks ≡ none
unfolding first
no_row = refl

-- A message for an access row that is gone.
abbrev stale : Message
stale = grant_user_s3bucket_access 8

stale_raises : (run flat_md5 (codes "dev") 1 stale world).0 ≡ err does_not_exist
unfolding run handle grant_user first is_finished
stale_raises = refl

others_untouched :
    touches
      (plan flat_md5 (codes "dev") (grant_user_s3bucket_access 7) world)
      (codes "dev_user_bob")
    ≡ false
unfolding plan first teq user_role_name lower
others_untouched = refl

run_isolated_example :
    (grant world).1.roles (codes "dev_user_bob") ≡ world.roles (codes "dev_user_bob")
run_isolated_example =
    run_isolated flat_md5 (codes "dev") 1 (grant_user_s3bucket_access 7) world
      (codes "dev_user_bob") others_untouched

no_app : first (λ a. a.pk == 9) world.apps ≡ none
unfolding first
no_app = refl

row_open : is_finished (some row) ≡ false
unfolding is_finished
row_open = refl

revoke_missing_app_example :
    let deliver = run flat_md5 (codes "dev") 1 (revoke_app_s3bucket_access bucket 9) in
    (deliver world ≡ (err unbound_local, save (finished row) world))
    × (deliver (save (finished row) world) ≡ (ok tt, save (finished row) world))
revoke_missing_app_example =
    revoke_missing_app flat_md5 (codes "dev") 1 bucket 9 world row row_found row_open no_app

grant_journey_example :
    let (message, created) =
      create_task (codes "iam") 1 100 (some user) (grant_to_user access) rowless in
    let (result, after) = run flat_md5 (codes "dev") 1 message created in
    (q : Document) × (result ≡ ok tt)
    × (is_finished (find_task 1 after.tasks) ≡ true)
    × (after.roles (user_role_name (codes "dev") user) ≡ holding role q)
    × (resources (codes "readwrite") q
        ≡ granted_view
            (bucket_arn s3bucket)
            (codes "readwrite")
            (access_resources s3bucket [])
            (codes "readwrite")
            (resources (codes "readwrite") stored))
grant_journey_example =
    grant_journey flat_md5 (codes "dev") (codes "iam") 1 100 (some user) rowless user stored access
      s3bucket (codes "readwrite") no_row role-IsOpen access_found bucket_found user_found
      bucket_plain readwrite_level

task_named : name_of_task (grant_to_user access) ≡ codes "grant_user_s3bucket_access"
unfolding name_of_task action role_of lower
task_named = refl
