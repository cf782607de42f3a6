-- ===== src/Tasks/Buckets.antt =====
-- CreateS3Bucket of controlpanel/api/tasks/handlers/s3.py, with `create` of `S3Bucket` in
-- controlpanel/api/cluster.py.
pub mod Taken
mod Tests
use analytics_platform_contr.Prelude.{
  ℕ, Text, codes, ◌==◌, Bool, true, false, not, Option, none, some, List, [], ◌∷◌, filter,
  if◌then◌else◌,
}
use analytics_platform_contr.Prelude.Exec.{Result, Exec, ok, err, pure, ◌>>◌}
use analytics_platform_contr.Aws.Bucket.{
  ClientError, Error, not_available, raised_from, S3Client, create, tag_bucket, told,
}
use analytics_platform_contr.Aws.S3AccessPolicy.{Md5}
use analytics_platform_contr.Aws.ManagedPolicy.{PolicyClient}
use analytics_platform_contr.Tasks.Deletion.{
  Stopped, does_not_exist, s3_error, Site, Config, delete,
}
use analytics_platform_contr.Tasks.Status.{Task}
use analytics_platform_contr.Tasks.World.{World, S3Bucket, first, is_folder, find_task, save}
use analytics_platform_contr.Tasks.Handlers.{is_finished}

unfoldable pub complete : Option Task → World → World
complete none w = w
complete (some task_obj) w = save (record task_obj { completed = true }) w

module _ {Store Managed : Type 0} (client : S3Client Store) (iam : PolicyClient Managed) (md5 : Md5)
    (config : Config Store) where
  -- `create` of `cluster.S3Bucket` or `cluster.S3Folder`
  unfoldable pub create_object : S3Bucket → Exec Error Store Unit
  create_object object =
      if is_folder object
      then told (λ r. elim r [ ok _ ↦ ok tt | err e ↦ err (raised_from e) ])
          (config.create_folder object.name)
      else create client object.name config.region config.logs (config.is_data_warehouse object.pk)

  -- The `except` of the handler, and `complete`
  unfoldable pub after_create :
      Option Task → S3Bucket → Result Error Unit → Exec Stopped (Site Store Managed) Unit
  after_create task_obj object (ok _) site =
      (ok tt, record site { world = complete task_obj site.world })
  after_create task_obj object (err not_available) site = delete client iam md5 config object site
  after_create task_obj object (err (raised_from e)) site = (err (s3_error e), site)

  unfoldable pub handle : Option Task → S3Bucket → Exec Stopped (Site Store Managed) Unit
  handle task_obj object site =
      let (r, store) = create_object object site.store in
      after_create task_obj object r (record site { store = store })

  -- `run`, for the message with that task id
  unfoldable pub run : ℕ → ℕ → Exec Stopped (Site Store Managed) Unit
  run task_id obj_pk site =
      let task_obj = find_task task_id site.world.tasks in
      if is_finished task_obj
      then (ok tt, site)
      else elim (first (λ b. b.pk == obj_pk) site.world.s3buckets) [
        | none ↦ (err does_not_exist, site)
        | some object ↦ handle task_obj object site
      ]
