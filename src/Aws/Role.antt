-- ===== src/Aws/Role.antt =====
-- The methods of `AWSRole` in controlpanel/api/aws.py that grant and revoke access to a bucket,
-- over one IAM role: whether it exists, and its inline policy "s3-access".
pub mod Access
pub mod Buckets
pub mod Errors
pub mod Calls
pub mod Folders
pub mod FolderRevocations
use analytics_platform_contr.Prelude.{
  Text, codes, teq, mem, Bool, true, false, Option, none, some, List, [], ◌∷◌, ◌++◌, if◌then◌else◌,
}
use analytics_platform_contr.Prelude.Exec.{Exec, ok, err, pure, raise, ◌>>=◌, ◌>>◌}
use analytics_platform_contr.Aws.Statement.{Statement}
use analytics_platform_contr.Aws.Document.{Document}
use analytics_platform_contr.Aws.S3AccessPolicy.{
  Md5, grant_object_access, grant_list_access, revoke_access, put,
}
use analytics_platform_contr.Aws.S3AccessPolicy.Load.{load_statements}

-- ValueError, TypeError, and the client error NoSuchEntity.
pub data Error : Type 0 where
  value_error type_error no_such_entity : Error

-- A document as IAM keeps it; a member that is not there is `none`.
pub record PolicyDocument : Type 0 where
  pub version : Option Text
  pub statement : Option Document

pub record IamRole : Type 0 where
  pub exists : Bool
  pub policy : Option PolicyDocument

-- BASE_S3_ACCESS_POLICY. Its resource, a text in the source, is a list of one text here.
unfoldable pub base_s3_access_policy : Document
base_s3_access_policy =
    record {
      sid = some (codes "ListUserBuckets");
      action =
          codes "s3:ListAllMyBuckets"
          ∷ codes "s3:ListAccessPoints"
          ∷ codes "s3:GetAccountPublicAccessBlock"
          ∷ [];
      effect = codes "Allow";
      resource = some (codes "*" ∷ []);
      condition = none;
    }
    ∷ []

-- `load_policy_document`: the call of IAM fails if the role or the policy is not there.
unfoldable pub load_policy_document : IamRole → Option PolicyDocument
load_policy_document r = if r.exists then r.policy else none

-- policy_document["Version"] = "2012-10-17", and json.dumps
unfoldable pub saved : Document → PolicyDocument
saved d = record { version = some (codes "2012-10-17"); statement = some d }

-- `save_policy_document`: IAM has no policy to put where there is no role; Calls has its other errors.
unfoldable pub save_policy_document : Document → Exec Error IamRole Unit
unfolding saved
save_policy_document d r =
    if r.exists then (ok tt, record r { policy = some (saved d) }) else (err no_such_entity, r)

-- policy_document.setdefault("Statement", [])
abbrev pub statement_list : PolicyDocument → Document
statement_list p = elim p.statement [ none ↦ [] | some d ↦ d ]

or_type_error : Option Document → Exec Error IamRole Document
or_type_error none r = (err type_error, r)
or_type_error (some d) r = (ok d, r)

-- The `except` branch of `__init__`
create_base : Exec Error IamRole Document
unfolding save_policy_document or_type_error
create_base = do
  save_policy_document (put base_s3_access_policy)
  or_type_error (load_statements (put base_s3_access_policy))

-- S3AccessPolicy(role.Policy("s3-access"))
unfoldable pub open_policy : Exec Error IamRole Document
unfolding or_type_error create_base
open_policy r = elim (load_policy_document r) [
  | some p ↦ or_type_error (load_statements (statement_list p)) r
  | none ↦ create_base r
]

-- ("readonly", "readwrite")
unfoldable pub access_levels : List Text
access_levels = codes "readonly" ∷ codes "readwrite" ∷ []

-- The path ARNs, which are the bucket if none are given.
unfoldable pub targets : Text → List Text → List Text
targets bucket_arn [] = if teq bucket_arn [] then [] else bucket_arn ∷ []
targets bucket_arn (arn ∷ path_arns) = arn ∷ path_arns

-- for arn in path_arns: policy.grant_object_access(arn, access_level)
unfoldable pub grant_objects : Md5 → Text → List Text → Document → Document
grant_objects md5 access_level [] d = d
grant_objects md5 access_level (arn ∷ arns) d =
    grant_objects md5 access_level arns (grant_object_access md5 arn access_level d)

-- What `grant_bucket_access` does to an open policy before it puts it.
unfoldable pub granted : Md5 → Text → Text → List Text → Document → Document
granted md5 bucket_arn access_level path_arns d =
    grant_objects md5 access_level (targets bucket_arn path_arns)
      (grant_list_access md5 bucket_arn (revoke_access md5 bucket_arn d))

unfoldable pub grant_bucket_access : Md5 → Text → Text → List Text → Exec Error IamRole Unit
grant_bucket_access md5 bucket_arn access_level path_arns =
    if mem access_level access_levels
    then (do
      d ← open_policy
      save_policy_document (put (granted md5 bucket_arn access_level path_arns d)))
    else raise value_error

revoke_named : Md5 → Text → Exec Error IamRole Unit
revoke_named md5 bucket_arn = do
  d ← open_policy
  save_policy_document (put (revoke_access md5 bucket_arn d))

-- `revoke_bucket_access`: no ARN, an empty one and a role that does not exist revoke nothing.
unfoldable pub revoke_bucket_access : Md5 → Option Text → Exec Error IamRole Unit
unfolding revoke_named
revoke_bucket_access md5 none r = (ok tt, r)
revoke_bucket_access md5 (some bucket_arn) r =
    if teq bucket_arn []
    then (ok tt, r)
    else if r.exists
    then revoke_named md5 bucket_arn r
    else (ok tt, r)
