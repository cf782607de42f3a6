-- ===== src/Tasks/Delivery.antt =====
-- What the delivery of a message does to the rows and to the roles, and what a second delivery does:
-- the queue delivers a message again until a worker returns.
use analytics_platform_contr.Prelude.{
  ℕ, ◌≡◌, ◌≢◌, refl, Text, teq, ◌==◌, Bool, true, false, Option, none, some, List, [], ◌∷◌, arith,
  Bool-cases, inl, inr, ap,
}
use analytics_platform_contr.Prelude.Exec.{Exec, ok, err, ◌>>◌}
use analytics_platform_contr.Aws.S3AccessPolicy.{Md5}
use analytics_platform_contr.Aws.Role.{Error, IamRole}
use analytics_platform_contr.Tasks.Status.{Task}
use analytics_platform_contr.Tasks.World.{
  World, Raised, unbound_local, first, find_task, update_row, save_row, save, at_role,
}
use analytics_platform_contr.Tasks.Handlers.{
  Message, revoke_app_s3bucket_access, revoke_app, complete, handle, run, is_finished,
}
use analytics_platform_contr.Tasks.Handlers.Plan.{
  Plan, stop, skip, skip_and_fail, change, follow, plan, handle-plan,
}

-- The row as the handler saves it.
abbrev pub finished : Task → Task
finished t = record t { completed = true }

find_task-update_row :
    (i : ℕ) (t u : Task) (rows : List Task)
    → find_task i rows ≡ some t
    → u.task_id ≡ i
    → find_task i (update_row u rows) ≡ some u
unfolding first update_row
find_task-update_row i t u [] h k = ground arith
find_task-update_row i t u (row ∷ rows) h k = ground (arith, find_task-update_row i t u rows)

task_id_of_find : (i : ℕ) (t : Task) (rows : List Task) → find_task i rows ≡ some t → t.task_id ≡ i
unfolding first
task_id_of_find i t [] h = ground arith
task_id_of_find i t (row ∷ rows) h = grind (arith, task_id_of_find i t rows)

save_row_known :
    (t u : Task) (rows : List Task)
    → find_task u.task_id rows ≡ some t
    → save_row u rows ≡ update_row u rows
unfolding save_row
save_row_known t u rows h = ground (arith, h)

find_task-save_row :
    (i : ℕ) (t : Task) (rows : List Task)
    → find_task i rows ≡ some t
    → find_task i (save_row (finished t) rows) ≡ some (finished t)
find_task-save_row i t rows h = ground (
  arith,
  task_id_of_find i t rows,
  save_row_known t (finished t) rows,
  find_task-update_row i t (finished t) rows,
)

tasks-at_role :
    (name : Text) (method : Exec Error IamRole Unit) (w : World)
    → (at_role name method w).1.tasks ≡ w.tasks
unfolding at_role
tasks-at_role name method w = refl

roles-at_role :
    (name n : Text) (method : Exec Error IamRole Unit) (w : World)
    → teq n name ≡ false
    → (at_role name method w).1.roles n ≡ w.roles n
unfolding at_role
roles-at_role name n method w h = rw h

roles-complete : (t : Option Task) (w : World) → (complete t w).1.roles ≡ w.roles
unfolding complete save
roles-complete none w = refl
roles-complete (some t) w = refl

module _ (md5 : Md5) (env : Text) (i : ℕ) (m : Message) (w : World) where
  run_finished : is_finished (find_task i w.tasks) ≡ true → run md5 env i m w ≡ (ok tt, w)
  unfolding run
  run_finished h = rw h

  run_unfinished :
      is_finished (find_task i w.tasks) ≡ false
      → run md5 env i m w ≡ follow (find_task i w.tasks) (plan md5 env m w) w
  unfolding run
  run_unfinished h = rw h (handle-plan md5 env (find_task i w.tasks) m w)

-- Whether the plan changes the role of that name.
abbrev pub touches : Plan → Text → Bool
touches (change name method) n = teq n name
touches _ n = false

result-complete : (t : Option Task) (w : World) → (complete t w).0 ≡ ok tt
unfolding complete
result-complete none w = refl
result-complete (some t) w = refl

tasks-complete :
    (t : Task) (w : World) → (complete (some t) w).1.tasks ≡ save_row (finished t) w.tasks
unfolding complete save
tasks-complete t w = refl

module _ (t : Option Task) (w : World) where
  tasks-follow_failed :
      (p : Plan) (e : Raised)
      → (follow t p w).0 ≡ err e
      → e ≢ unbound_local
      → (follow t p w).1.tasks ≡ w.tasks
  unfolding follow
  tasks-follow_failed stop e h k = refl
  tasks-follow_failed skip e h k = ground (arith, result-complete t w)
  tasks-follow_failed skip_and_fail e h k = ground (arith, result-complete t w)
  tasks-follow_failed (change name method) e h k =
      ground (arith, tasks-at_role name method w, result-complete t (at_role name method w).1)

  roles-follow : (p : Plan) (n : Text) → touches p n ≡ false → (follow t p w).1.roles n ≡ w.roles n
  unfolding follow
  roles-follow stop n h = refl
  roles-follow skip n h = rw (roles-complete t w) refl
  roles-follow skip_and_fail n h = rw (result-complete t w, roles-complete t w) refl
  roles-follow (change name method) n h =
      let u = (at_role name method w).1 in
      ground (
        arith,
        roles-at_role name n method w,
        roles-complete t u,
        ap (λ r. r n) (roles-complete t u),
      )

tasks-follow_ok :
    (t : Task) (w : World) (p : Plan)
    → (follow (some t) p w).0 ≡ ok tt
    → (follow (some t) p w).1.tasks ≡ save_row (finished t) w.tasks
unfolding follow
tasks-follow_ok t w stop h = ground arith
tasks-follow_ok t w skip h = tasks-complete t w
tasks-follow_ok t w skip_and_fail h = ground (arith, result-complete (some t) w)
tasks-follow_ok t w (change name method) h =
    let u = (at_role name method w).1 in
    ground (arith, tasks-at_role name method w, tasks-complete t u)

tasks-follow-none : (w : World) (p : Plan) → (follow none p w).1.tasks ≡ w.tasks
unfolding follow complete
tasks-follow-none w stop = refl
tasks-follow-none w skip = refl
tasks-follow-none w skip_and_fail = refl
tasks-follow-none w (change name method) = ground (arith, tasks-at_role name method w)

module _ (md5 : Md5) (env : Text) (i : ℕ) (m : Message) (w : World) where
  -- A delivery that raises anything but UnboundLocalError leaves the rows as they were.
  run_failed :
      (e : Raised)
      → (run md5 env i m w).0 ≡ err e
      → e ≢ unbound_local
      → (run md5 env i m w).1.tasks ≡ w.tasks
  run_failed e h k = elim (Bool-cases (is_finished (find_task i w.tasks))) [
    | inl done ↦ rw (run_finished md5 env i m w done)
    | inr pending ↦ ground (
      arith,
      run_unfinished md5 env i m w,
      tasks-follow_failed (find_task i w.tasks) w (plan md5 env m w) e,
    )
  ]

  -- A delivery leaves every role unchanged but the one that the message names.
  pub run_isolated :
      (n : Text) → touches (plan md5 env m w) n ≡ false → (run md5 env i m w).1.roles n ≡ w.roles n
  run_isolated n h = elim (Bool-cases (is_finished (find_task i w.tasks))) [
    | inl done ↦ rw (run_finished md5 env i m w done)
    | inr pending ↦
        rw (run_unfinished md5 env i m w pending)
          (roles-follow (find_task i w.tasks) w (plan md5 env m w) n h)
  ]

  tasks-run_ok :
      (t : Task)
      → find_task i w.tasks ≡ some t
      → is_finished (find_task i w.tasks) ≡ false
      → (run md5 env i m w).0 ≡ ok tt
      → (run md5 env i m w).1.tasks ≡ save_row (finished t) w.tasks
  tasks-run_ok t h pending k =
      let e = run_unfinished md5 env i m w pending in
      ground (arith, e, h, tasks-follow_ok t w (plan md5 env m w))

  -- After a delivery that returns, the row of the message, if it was in the table, is completed or
  -- cancelled.
  pub run_completes :
      (t : Task)
      → find_task i w.tasks ≡ some t
      → (run md5 env i m w).0 ≡ ok tt
      → is_finished (find_task i (run md5 env i m w).1.tasks) ≡ true
  unfolding is_finished
  run_completes t h k = elim (Bool-cases (is_finished (find_task i w.tasks))) [
    | inl done ↦ rw (run_finished md5 env i m w done) done
    | inr pending ↦ rw (tasks-run_ok t h pending k, find_task-save_row i t w.tasks h) refl
  ]

  -- A message whose row is in the table and whose delivery returned does nothing when it comes
  -- again.
  pub run_twice :
      (t : Task)
      → find_task i w.tasks ≡ some t
      → (run md5 env i m w).0 ≡ ok tt
      → (run md5 env i m >> run md5 env i m) w ≡ run md5 env i m w
  run_twice t h k =
      let w' = (run md5 env i m w).1 in
      ground (arith, run_finished md5 env i m w', run_completes t h k)

-- The revocation for an app that is gone, with a row that is not finished, saves the row as
-- completed and raises UnboundLocalError; delivered again it returns and changes nothing.
pub revoke_missing_app :
    (md5 : Md5) (env : Text) (i : ℕ) (arn : Text) (pk : ℕ) (w : World) (t : Task)
    → find_task i w.tasks ≡ some t
    → is_finished (some t) ≡ false
    → first (λ a. a.pk == pk) w.apps ≡ none
    → let deliver = run md5 env i (revoke_app_s3bucket_access arn pk) in
      (deliver w ≡ (err unbound_local, save (finished t) w))
      × (deliver (save (finished t) w) ≡ (ok tt, save (finished t) w))
unfolding run handle revoke_app complete is_finished save
revoke_missing_app md5 env i arn pk w t h pending gone =
    (ground (arith, h, gone), ground (arith, find_task-save_row i t w.tasks h))
