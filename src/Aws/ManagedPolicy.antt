-- ===== src/Aws/ManagedPolicy.antt =====
-- `ManagedS3AccessPolicy` and `AWSPolicy` of controlpanel/api/aws.py, over one managed policy. The calls of
-- IAM are a parameter. A set of role names is a list of them, in the order in which it is gone through.
pub mod Versions
pub mod Members
pub mod Access
mod Tests
use analytics_platform_contr.Prelude.{
  Text, teq, mem, not, difference, Option, none, some, List, [], filter, if◌then◌else◌,
}
use analytics_platform_contr.Prelude.Exec.{
  Result, Exec, ok, err, pure, raise, read, for_each, ◌>>=◌, ◌>>◌,
}
use analytics_platform_contr.Aws.Document.{Document}
use analytics_platform_contr.Aws.S3AccessPolicy.{Md5, revoke_access, put}
use analytics_platform_contr.Aws.S3AccessPolicy.Folders as Policy
use analytics_platform_contr.Aws.S3AccessPolicy.Load.{load_statements}
use analytics_platform_contr.Aws.Role.{
  PolicyDocument, base_s3_access_policy, saved, statement_list, access_levels, granted,
}

-- ValueError, TypeError, the client's NoSuchEntity and EntityAlreadyExists, and its other errors
pub data Error : Type 0 where
  value_error type_error no_such_entity already_exists other_error : Error

pub record PolicyClient (Store : Type 0) : Type 0 where
  pub create_policy : PolicyDocument → Exec Error Store Unit
  pub load : Store → Result Error Unit
  pub delete_policy : Exec Error Store Unit
  pub default_document : Store → Result Error PolicyDocument
  pub default_version_id : Store → Result Error Text
  pub versions : Store → Result Error (List Text)
  pub create_version : PolicyDocument → Exec Error Store Unit
  pub delete_version : Text → Exec Error Store Unit
  pub attached_roles : Store → Result Error (List Text)
  pub attach_role : Text → Exec Error Store Unit
  pub detach_role : Text → Exec Error Store Unit

module _ {Store : Type 0} (client : PolicyClient Store) where
  -- The loop over the versions: all go but the default one.
  unfoldable pub delete_versions : List Text → Exec Error Store Unit
  delete_versions vs = do
    v ← read client.default_version_id
    for_each client.delete_version (filter (λ w. not (teq w v)) vs)

  -- `ManagedS3AccessPolicy.save_policy_document`
  unfoldable pub save_policy_document : Document → Exec Error Store Unit
  save_policy_document d = do
    client.create_version (saved d)
    vs ← read client.versions
    delete_versions vs

  or_error : Error → Option Document → Exec Error Store Document
  or_error e none s = (err e, s)
  or_error e (some d) s = (ok d, s)

  -- The `except` branch of `__init__`, and what follows it
  unfoldable pub create_base : Exec Error Store Document
  unfolding or_error
  create_base = do
    save_policy_document (put base_s3_access_policy)
    or_error type_error (load_statements (put base_s3_access_policy))

  unfoldable pub opened : Result Error PolicyDocument → Exec Error Store Document
  unfolding or_error
  opened (ok p) = or_error type_error (load_statements (statement_list p))
  opened (err no_such_entity) = create_base
  opened (err value_error) = raise value_error
  opened (err type_error) = raise type_error
  opened (err already_exists) = raise already_exists
  opened (err other_error) = raise other_error

  -- ManagedS3AccessPolicy(policy)
  unfoldable pub open_policy : Exec Error Store Document
  open_policy s = opened (client.default_document s) s

  -- EntityAlreadyExists is logged only.
  unfoldable pub skip_existing : Result Error Unit → Result Error Unit
  skip_existing (err already_exists) = ok tt
  skip_existing r = r

  -- No document, or an empty one, is `none`.
  unfoldable pub create_policy : Option PolicyDocument → Exec Error Store Unit
  create_policy none s =
      let (r, s') = client.create_policy (saved base_s3_access_policy) s in (skip_existing r, s')
  create_policy (some d) s = let (r, s') = client.create_policy d s in (skip_existing r, s')

  unfoldable pub update_policy_members : List Text → Exec Error Store Unit
  update_policy_members role_names = do
    existing ← read client.attached_roles
    for_each client.attach_role (difference role_names existing)
    for_each client.detach_role (difference existing role_names)

  remove_all : Exec Error Store Unit
  remove_all = do
    roles ← read client.attached_roles
    for_each client.detach_role roles
    vs ← read client.versions
    delete_versions vs
    client.delete_policy

  unfoldable pub delete_policy : Exec Error Store Unit
  unfolding remove_all
  delete_policy s = elim (client.load s) [
    | ok _ ↦ remove_all s
    | err no_such_entity ↦ (ok tt, s)
    | err e ↦ (err e, s)
  ]

  unfoldable pub grant_policy_bucket_access : Md5 → Text → Text → List Text → Exec Error Store Unit
  grant_policy_bucket_access md5 bucket_arn access_level path_arns =
      if mem access_level access_levels
      then (do
        d ← open_policy
        save_policy_document (put (granted md5 bucket_arn access_level path_arns d)))
      else raise value_error

  revoke_named : Md5 → Text → Exec Error Store Unit
  revoke_named md5 bucket_arn = do
    d ← open_policy
    save_policy_document (put (revoke_access md5 bucket_arn d))

  -- No ARN, or an empty one, revokes nothing.
  unfoldable pub revoke_policy_bucket_access : Md5 → Option Text → Exec Error Store Unit
  unfolding revoke_named
  revoke_policy_bucket_access md5 none = pure tt
  revoke_policy_bucket_access md5 (some bucket_arn) =
      if teq bucket_arn [] then pure tt else revoke_named md5 bucket_arn

  unfoldable pub grant_folder_access : Md5 → Text → Text → List Text → Exec Error Store Unit
  unfolding or_error
  grant_folder_access md5 root_folder_path access_level paths =
      if mem access_level access_levels
      then (do
        d ← open_policy
        revoked ← or_error value_error (Policy.revoke_folder_access md5 root_folder_path d)
        granted ←
            or_error value_error
              (Policy.grant_folder_access md5 root_folder_path access_level paths revoked)
        save_policy_document (put granted))
      else raise value_error

  unfoldable pub revoke_policy_folder_access : Md5 → Text → Exec Error Store Unit
  unfolding or_error
  revoke_policy_folder_access md5 root_folder_path = do
    d ← open_policy
    revoked ← or_error value_error (Policy.revoke_folder_access md5 root_folder_path d)
    save_policy_document (put revoked)
