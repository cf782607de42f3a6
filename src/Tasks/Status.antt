-- ===== src/Tasks/Status.antt =====
-- `Task.status` of controlpanel/api/models/task.py, over times in seconds.
use analytics_platform_contr.Prelude.{
  ℕ, ◌+◌, ◌≤◌, ◌≡◌, Text, Bool, true, false, Option, none, some, ltb, if◌then◌else◌, arith,
}

-- The fields of a row that the program reads again.
pub record Task : Type 0 where
  pub task_id : ℕ
  pub task_name : Text
  pub task_description : Text
  pub entity_description : Text
  pub user_id : Text
  pub queue_name : Text
  pub completed : Bool
  pub cancelled : Bool
  pub created : ℕ
  pub retried_at : Option ℕ

pub data Status : Type 0 where
  cancelled_status completed_status pending failed retrying : Status

-- timedelta(days=4)
abbrev pub four_days : ℕ
four_days = 345600

-- t > timezone.now() - timedelta(days=4)
abbrev is_recent : ℕ → ℕ → Bool
is_recent t now = ltb now (t + four_days)

unfoldable pub status : Task → ℕ → Status
status t now =
    if t.cancelled
    then cancelled_status
    else if t.completed
    then completed_status
    else if is_recent t.created now
    then pending
    else elim t.retried_at [ none ↦ failed | some r ↦ if is_recent r now then retrying else failed ]

-- Whether the task is over, one way or the other.
abbrev is_over : Status → Bool
is_over cancelled_status = true
is_over completed_status = true
is_over _ = false

-- At every time, a row reads as cancelled or completed if it is, and no other row does.
status_over :
    (t : Task) (now : ℕ) → is_over (status t now) ≡ (if t.cancelled then true else t.completed)
unfolding status
status_over t now = ground arith

-- The order in which a row that nobody writes moves through the states.
abbrev pub age : Status → ℕ
age pending = 0
age retrying = 1
age failed = 2
age cancelled_status = 3
age completed_status = 3

-- As time passes, a row that nobody writes goes from pending to retrying to failed, never back.
status_ages : (t : Task) (now later : ℕ) → now ≤ later → age (status t now) ≤ age (status t later)
unfolding status
status_ages t now later h = ground arith
