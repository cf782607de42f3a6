-- ===== src/Tasks/Buckets/Tests.antt =====
-- A row for a bucket that somebody else has made, at the store of one bucket.
use analytics_platform_contr.Prelude.{ℕ, Text, codes, true, some, none, List, [], ◌∷◌, ◌+◌, length}
use analytics_platform_contr.Prelude.Exec.{Result, ok, for_each}
use analytics_platform_contr.Aws.Bucket.{tags, versioning}
use analytics_platform_contr.Aws.Bucket.OneBucket.{Store}
use analytics_platform_contr.Tasks.World.{World, S3Bucket}
use analytics_platform_contr.Tasks.Deletion.{Stopped, Site, Config, rows_of, revoke_policy}
use analytics_platform_contr.Aws.Role.{PolicyDocument}
use analytics_platform_contr.Aws.ManagedPolicy.{PolicyClient}
use analytics_platform_contr.Aws.Samples.{role, flat_md5}

abbrev data_bucket : S3Bucket
data_bucket = record { pk = 5; name = codes "data" }

abbrev tables : World
tables = record {
  tasks = [];
  users = [];
  apps = [];
  s3buckets = data_bucket ∷ [];
  users3buckets =
      record {
        pk = 7;
        holder = codes "github|1";
        s3bucket = 5;
        access_level = codes "readonly";
        paths = [];
      }
      ∷ record {
        pk = 8;
        holder = codes "github|1";
        s3bucket = 6;
        access_level = codes "readonly";
        paths = [];
      }
      ∷ [];
  apps3buckets =
      record { pk = 9; holder = 3; s3bucket = 5; access_level = codes "readwrite"; paths = [] }
      ∷ [];
  roles = λ n. role;
  events = [];
}

abbrev colour : List (Text × Text)
colour = (codes "colour", codes "red") ∷ []

-- A managed policy that is its document
abbrev one_document : PolicyClient PolicyDocument
one_document = record {
  create_policy = λ d s. (ok tt, d);
  load = λ s. ok tt;
  delete_policy = λ s. (ok tt, s);
  default_document = λ s. ok s;
  default_version_id = λ s. ok (codes "v1");
  versions = λ s. ok (codes "v1" ∷ []);
  create_version = λ d s. (ok tt, d);
  delete_version = λ v s. (ok tt, s);
  attached_roles = λ s. ok [];
  attach_role = λ r s. (ok tt, s);
  detach_role = λ r s. (ok tt, s);
}

abbrev site : Site Store PolicyDocument
site = record {
  world = tables;
  policys3buckets =
      record { pk = 2; holder = 4; s3bucket = 5; access_level = codes "readonly"; paths = [] } ∷ [];
  policies = λ n. record { version = none; statement = none };
  sent = [];
  store = some (tags colour ∷ versioning ∷ []);
}

abbrev config : Config Store
config = record {
  region = codes "eu-west-1";
  logs = codes "logs";
  iam_queue = codes "iam";
  now = 100;
  new_task_id = λ w. 10 + length w.tasks;
  is_data_warehouse = λ pk. true;
  create_folder = λ n s. (ok tt, s);
}

abbrev revoked : Result Stopped Unit × (ℕ → PolicyDocument)
revoked =
    for_each (revoke_policy one_document flat_md5 data_bucket) (rows_of 5 site.policys3buckets)
      site.policies
