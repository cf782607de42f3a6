-- ===== src/Aws/Role/Folders.antt =====
-- The methods of `AWSRole` in controlpanel/api/aws.py that grant and revoke access to a folder.
use analytics_platform_contr.Prelude.{
  ◌≡◌, all, arith, Option-cases, Bool-cases, inl, inr, Text, mem, Option, none, some, List,
  if◌then◌else◌,
}
use analytics_platform_contr.Prelude.Exec.{Result, Exec, ok, err, raise, ◌>>=◌}
use analytics_platform_contr.Aws.Document.{Document}
use analytics_platform_contr.Aws.S3AccessPolicy.{Md5, put}
use analytics_platform_contr.Aws.S3AccessPolicy.Folders as Policy
use analytics_platform_contr.Aws.S3AccessPolicy.Folders.{get_bucket_and_path}
use analytics_platform_contr.Aws.S3AccessPolicy.Sids.{names_sid, load_total, load_fails}
use analytics_platform_contr.Aws.Role.Errors.{loads, base_loads}
use analytics_platform_contr.Aws.Role.{
  Error, value_error, type_error, no_such_entity, IamRole, statement_list, load_policy_document,
  access_levels, open_policy, save_policy_document,
}

-- A path without "/" raises ValueError where it is taken apart.
or_value_error : Option Document → Exec Error IamRole Document
or_value_error none r = (err value_error, r)
or_value_error (some d) r = (ok d, r)

-- `grant_folder_access`: what the role had of the folder goes first.
unfoldable pub grant_folder_access : Md5 → Text → Text → List Text → Exec Error IamRole Unit
unfolding or_value_error
grant_folder_access md5 root_folder_path access_level paths =
    if mem access_level access_levels
    then (do
      d ← open_policy
      revoked ← or_value_error (Policy.revoke_folder_access md5 root_folder_path d)
      granted ←
          or_value_error
            (Policy.grant_folder_access md5 root_folder_path access_level paths revoked)
      save_policy_document (put granted))
    else raise value_error

revoke_in : Md5 → Text → Exec Error IamRole Unit
unfolding or_value_error
revoke_in md5 root_folder_path = do
  d ← open_policy
  revoked ← or_value_error (Policy.revoke_folder_access md5 root_folder_path d)
  save_policy_document (put revoked)

-- `revoke_folder_access`: a role that does not exist has nothing to revoke.
unfoldable pub revoke_folder_access : Md5 → Text → Exec Error IamRole Unit
unfolding revoke_in
revoke_folder_access md5 root_folder_path r =
    if r.exists then revoke_in md5 root_folder_path r else (ok tt, r)

abbrev pub folder_outcome : Text → Text → IamRole → Result Error Unit
folder_outcome root level r =
    if mem level access_levels
    then (if r.exists
        then (if loads r
            then (elim (get_bucket_and_path root) [ none ↦ err value_error | some _ ↦ ok tt ])
            else err type_error)
        else err no_such_entity)
    else err value_error

module _ (md5 : Md5) (root level : Text) (paths : List Text) (r : IamRole) where
  -- The result of a grant on a folder, for all arguments and roles: ValueError for an unknown
  -- level, NoSuchEntity for a missing role, TypeError for a stored statement with no Sid,
  -- ValueError for a path without "/", and success in all other cases.
  pub grant_folder_access_result :
      (grant_folder_access md5 root level paths r).0 ≡ folder_outcome root level r
  unfolding grant_folder_access open_policy load_policy_document save_policy_document
      Policy.revoke_folder_access Policy.grant_folder_access
  grant_folder_access_result = elim (Option-cases r.policy) [
    | inl e ↦ ground (arith, base_loads)
    | inr (p, e) ↦ elim (Bool-cases (all names_sid (statement_list p))) [
      | inl sids ↦ ground (arith, load_total (statement_list p) sids)
      | inr missing ↦ ground (arith, load_fails (statement_list p) missing)
    ]
  ]
