-- ===== src/Aws/Role/Calls/Tests.antt =====
-- A role with a quota of changes to its policy, and a grant that goes beyond it.
use analytics_platform_contr.Prelude.{
  ◌≡◌, ◌⊎◌, refl, ℕ, zero, suc, Option, none, some, [], codes, teq, mem, arith,
}
use analytics_platform_contr.Prelude.Exec.{Result, ok, err}
use analytics_platform_contr.Aws.Samples.{flat_md5, bucket}
use analytics_platform_contr.Aws.Role.{PolicyDocument, access_levels, base_s3_access_policy}
use analytics_platform_contr.Aws.S3AccessPolicy.{put, has_resource}
use analytics_platform_contr.Aws.S3AccessPolicy.Load.{
  load_statements, load_statement, without_suffix,
}
use analytics_platform_contr.Aws.Statement.{base_statement, base_s3_access_statement}
use analytics_platform_contr.Aws.Role.Calls.{
  CallError, no_such_entity, other_error, client_error, RolePolicy, raised, save_policy_document,
  create_base, opened, open_policy, grant_bucket_access, FailsClean, HasBase,
  grant_bucket_access_atomic,
}

record Limited : Type 0 where
  left : ℕ
  kept : Option PolicyDocument

abbrev read_kept : Option PolicyDocument → Result CallError PolicyDocument
read_kept none = err no_such_entity
read_kept (some p) = ok p

abbrev keep : ℕ → PolicyDocument → Limited → Result CallError Unit × Limited
keep zero p s = (err other_error, s)
keep (suc n) p s = (ok tt, record { left = n; kept = some p })

abbrev limited : RolePolicy Limited
limited = record { document = λ s. read_kept s.kept; put_document = λ p s. keep s.left p s }

keep_clean :
    (n : ℕ) (p : PolicyDocument) (e : CallError) (s : Limited)
    → (keep n p s).0 ≡ err e
    → (keep n p s).1 ≡ s
keep_clean zero p e s h = refl
keep_clean (suc n) p e s h = ground arith

limited-FailsClean : FailsClean limited
limited-FailsClean p e s h = keep_clean s.left p e s h

abbrev once : Limited
once = record { left = 1; kept = none }

grant_fails :
    (grant_bucket_access limited flat_md5 bucket (codes "readonly") [] once).0
    ≡ err (client_error other_error)
unfolding grant_bucket_access open_policy opened create_base save_policy_document raised mem teq
    access_levels load_statements load_statement put has_resource base_s3_access_policy
    base_statement base_s3_access_statement without_suffix
grant_fails = refl

-- The second change is refused, and the base policy stays.
grant_bucket_access_atomic_example :
    ((grant_bucket_access limited flat_md5 bucket (codes "readonly") [] once).1 ≡ once)
    ⊎ HasBase limited once
        (grant_bucket_access limited flat_md5 bucket (codes "readonly") [] once).1
grant_bucket_access_atomic_example =
    grant_bucket_access_atomic limited limited-FailsClean flat_md5 bucket (codes "readonly") [] once
      (client_error other_error) grant_fails
