-- ===== src/Tasks/World.antt =====
-- The state that a worker reads and changes: the tables of the database that the access tasks use,
-- the IAM roles by name, and the events sent to browsers. Rows are those of controlpanel/api/models.
use analytics_platform_contr.Prelude.{
  ℕ, Text, codes, teq, Bool, Option, none, some, List, [], ◌∷◌, ◌++◌, map, any, ◌==◌, if◌then◌else◌,
}
use analytics_platform_contr.Prelude.Exec.{Result, ok, err, Exec}
use analytics_platform_contr.Aws.Arn.{lower, s3_arn}
use analytics_platform_contr.Aws.Role.{Error, IamRole}
use analytics_platform_contr.Tasks.Status.{Task}

pub record User : Type 0 where
  pub auth0_id : Text
  pub username : Text

pub record App : Type 0 where
  pub pk : ℕ
  pub slug : Text

pub record S3Bucket : Type 0 where
  pub pk : ℕ
  pub name : Text

-- A row of UserS3Bucket or of AppS3Bucket: `holder` is the key of the user, a text, or of the app.
pub record AccessToS3Bucket (Key : Type 0) : Type 0 where
  pub pk : ℕ
  pub holder : Key
  pub s3bucket : ℕ
  pub access_level : Text
  pub paths : List Text

-- The event that `Task.save` sends.
pub record Event : Type 0 where
  pub user_id : Text
  pub entity_name : Text
  pub task_description : Text

pub record World : Type 0 where
  pub tasks : List Task
  pub users : List User
  pub apps : List App
  pub s3buckets : List S3Bucket
  pub users3buckets : List (AccessToS3Bucket Text)
  pub apps3buckets : List (AccessToS3Bucket ℕ)
  pub roles : Text → IamRole
  pub events : List Event

-- Model.objects.get(…), and filter(…).first(), by a test of the key
unfoldable pub first {ℓ} : {A : Type ℓ} → (A → Bool) → List A → Option A
first p [] = none
first p (row ∷ rows) = let rest = first p rows in if p row then some row else rest

-- What stops a task: an error of the call of AWS, DoesNotExist, or UnboundLocalError.
pub data Raised : Type 0 where
  aws_error : Error → Raised
  does_not_exist unbound_local : Raised

-- `S3Bucket.is_folder`
unfoldable pub is_folder : S3Bucket → Bool
is_folder b = any (λ c. c == b'/') b.name

-- `S3Bucket.arn`
unfoldable pub bucket_arn : S3Bucket → Text
bucket_arn b = s3_arn b.name

-- `AccessToS3Bucket.resources`
unfoldable pub access_resources : S3Bucket → List Text → List Text
access_resources b paths = elim paths [
  | [] ↦ bucket_arn b ∷ []
  | p ∷ ps ↦ map (λ path. bucket_arn b ++ path) (p ∷ ps)
]

-- `iam_role_name` of a user, `env` being settings.ENV
unfoldable pub user_role_name : Text → User → Text
user_role_name env user = env ++ (codes "_user_" ++ lower user.username)

-- `iam_role_name` of an app
unfoldable pub app_role_name : Text → App → Text
app_role_name env app = env ++ (codes "_app_" ++ app.slug)

-- Task.objects.filter(task_id=task_id).first()
abbrev pub find_task : ℕ → List Task → Option Task
find_task i ts = first (λ t. t.task_id == i) ts

-- `save` of a row that is there.
unfoldable pub update_row : Task → List Task → List Task
update_row t [] = []
update_row t (row ∷ rows) =
    let rest = update_row t rows in if row.task_id == t.task_id then t ∷ rest else row ∷ rest

-- super().save(): the row is updated, or inserted where it is gone.
unfoldable pub save_row : Task → List Task → List Task
save_row t rows = elim (find_task t.task_id rows) [
  | none ↦ rows ++ t ∷ []
  | some _ ↦ update_row t rows
]

-- send_sse
unfoldable pub event_of : Task → Event
event_of t = record {
  user_id = t.user_id;
  entity_name = t.entity_description;
  task_description = t.task_description;
}

-- `Task.save`
unfoldable pub save : Task → World → World
save t w = record w {
  tasks = save_row t w.tasks;
  events = if t.completed then w.events ++ event_of t ∷ [] else w.events;
}

as_raised : Result Error Unit → Result Raised Unit
as_raised (ok a) = ok a
as_raised (err e) = err (aws_error e)

-- A method of `AWSRole` at the role of that name.
unfoldable pub at_role : Text → Exec Error IamRole Unit → Exec Raised World Unit
unfolding as_raised
at_role name method w =
    let (result, role) = method (w.roles name) in
    (as_raised result, record w { roles = λ n. if teq n name then role else w.roles n })
