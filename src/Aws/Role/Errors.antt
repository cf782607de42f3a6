-- ===== src/Aws/Role/Errors.antt =====
-- The results of `grant_bucket_access`, errors included.
use analytics_platform_contr.Prelude.{
  ◌≡◌, refl, Text, mem, Bool, true, none, some, List, all, if◌then◌else◌, arith, Bool-cases,
  Option-cases, inl, inr, teq,
}
use analytics_platform_contr.Prelude.Exec.{Result, ok, err}
use analytics_platform_contr.Aws.Statement.{base_statement, base_s3_access_statement}
use analytics_platform_contr.Aws.Document.{Document}
use analytics_platform_contr.Aws.S3AccessPolicy.{Md5, put, has_resource}
use analytics_platform_contr.Aws.S3AccessPolicy.Load.{
  load_statements, load_statement, without_suffix,
}
use analytics_platform_contr.Aws.S3AccessPolicy.Sids.{names_sid, load_total, load_fails}
use analytics_platform_contr.Aws.Role.{
  Error, value_error, type_error, no_such_entity, IamRole, statement_list, access_levels,
  base_s3_access_policy, grant_bucket_access, open_policy, load_policy_document,
  save_policy_document,
}

-- Whether the policy of the role, if there is one, can be loaded.
abbrev pub loads : IamRole → Bool
loads r = elim r.policy [ none ↦ true | some p ↦ all names_sid (statement_list p) ]

-- What the call returns, by its arguments and the role.
abbrev pub outcome : Text → IamRole → Result Error Unit
outcome level r =
    if mem level access_levels
    then (if r.exists then (if loads r then ok tt else err type_error) else err no_such_entity)
    else err value_error

pub base_loads : (d : Document) × (load_statements (put base_s3_access_policy) ≡ some d)
unfolding load_statements load_statement put has_resource base_s3_access_policy base_statement
    base_s3_access_statement teq without_suffix
base_loads = (_, refl)

module _ (md5 : Md5) (arn level : Text) (paths : List Text) (r : IamRole) where
  -- The result of a grant, for all arguments and roles: ValueError for an unknown level,
  -- NoSuchEntity for a missing role, TypeError for a stored statement with no Sid, and success in
  -- all other cases.
  pub grant_bucket_access_result : (grant_bucket_access md5 arn level paths r).0 ≡ outcome level r
  unfolding grant_bucket_access open_policy load_policy_document save_policy_document
  grant_bucket_access_result = elim (Option-cases r.policy) [
    | inl e ↦ ground (arith, base_loads)
    | inr (p, e) ↦ elim (Bool-cases (all names_sid (statement_list p))) [
      | inl sids ↦ ground (arith, load_total (statement_list p) sids)
      | inr missing ↦ ground (arith, load_fails (statement_list p) missing)
    ]
  ]
