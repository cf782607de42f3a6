-- ===== src/Aws/Role/Calls.antt =====
-- `AWSRole.grant_bucket_access` of controlpanel/api/aws.py over the calls of IAM on a policy of a role, with
-- every error of theirs; Aws/Role is the case in which they fail with NoSuchEntity only.
mod Tests
use analytics_platform_contr.Prelude.{
  ◌≡◌, refl, sym, ◌∙◌, ap, ◌⊎◌, inl, inr, Text, mem, Bool-cases, true, false, Option, none, some,
  List, arith, if◌then◌else◌, Option-cases,
}
use analytics_platform_contr.Prelude.Exec.{Result, Exec, ok, err, raise, go_on, ◌>>=◌, ◌>>◌}
use analytics_platform_contr.Aws.Document.{Document}
use analytics_platform_contr.Aws.S3AccessPolicy.{Md5, put}
use analytics_platform_contr.Aws.S3AccessPolicy.Load.{load_statements}
use analytics_platform_contr.Aws.Role as Role
use analytics_platform_contr.Aws.Role.{
  PolicyDocument, IamRole, base_s3_access_policy, saved, statement_list, access_levels, granted,
}
use analytics_platform_contr.Aws.Role.Errors.{base_loads}

-- NoSuchEntity, and the other errors of the client, such as LimitExceeded and MalformedPolicyDocument
pub data CallError : Type 0 where
  no_such_entity other_error : CallError

pub data Error : Type 0 where
  value_error type_error : Error
  client_error : CallError → Error

-- The calls on the policy "s3-access" of a role
pub record RolePolicy (Store : Type 0) : Type 0 where
  pub document : Store → Result CallError PolicyDocument
  pub put_document : PolicyDocument → Exec CallError Store Unit

unfoldable pub raised : {A : Type 0} → Result CallError A → Result Error A
raised (ok a) = ok a
raised (err e) = err (client_error e)

module _ {Store : Type 0} (policy : RolePolicy Store) where
  unfoldable pub save_policy_document : Document → Exec Error Store Unit
  save_policy_document d s = let (r, s') = policy.put_document (saved d) s in (raised r, s')

  or_type_error : Option Document → Exec Error Store Document
  or_type_error none s = (err type_error, s)
  or_type_error (some d) s = (ok d, s)

  -- The `except` branch of `__init__`, and what follows it
  unfoldable pub create_base : Exec Error Store Document
  unfolding or_type_error
  create_base = do
    save_policy_document (put base_s3_access_policy)
    or_type_error (load_statements (put base_s3_access_policy))

  unfoldable pub opened : Result CallError PolicyDocument → Exec Error Store Document
  unfolding or_type_error
  opened (ok p) = or_type_error (load_statements (statement_list p))
  opened (err no_such_entity) = create_base
  opened (err other_error) = raise (client_error other_error)

  -- S3AccessPolicy(role.Policy("s3-access"))
  unfoldable pub open_policy : Exec Error Store Document
  open_policy s = opened (policy.document s) s

  unfoldable pub grant_bucket_access : Md5 → Text → Text → List Text → Exec Error Store Unit
  grant_bucket_access md5 bucket_arn access_level path_arns =
      if mem access_level access_levels
      then (do
        d ← open_policy
        save_policy_document (put (granted md5 bucket_arn access_level path_arns d)))
      else raise value_error

-- A call that fails changes nothing.
abbrev pub FailsClean : {Store : Type 0} → RolePolicy Store → Type 0
FailsClean {Store} policy =
    (p : PolicyDocument) (e : CallError) (s : Store)
    → (policy.put_document p s).0 ≡ err e
    → (policy.put_document p s).1 ≡ s

-- The base policy was put where there was none.
abbrev pub HasBase : {Store : Type 0} → RolePolicy Store → Store → Store → Type 0
HasBase policy s after =
    let base = policy.put_document (saved (put base_s3_access_policy)) s in
    (policy.document s ≡ err no_such_entity) × (base.0 ≡ ok tt) × (after ≡ base.1)

Result-cases :
    {A : Type 0} (r : Result CallError A) → ((a : A) × (r ≡ ok a)) ⊎ ((e : CallError) × (r ≡ err e))
Result-cases (ok a) = inl (a, refl)
Result-cases (err e) = inr (e, refl)

module _ {Store : Type 0} (policy : RolePolicy Store) (clean : FailsClean policy) where
  save-clean :
      (d : Document) (e : Error) (s : Store)
      → (save_policy_document policy d s).0 ≡ err e
      → (save_policy_document policy d s).1 ≡ s
  unfolding save_policy_document raised
  save-clean d e s h = elim (Result-cases (policy.put_document (saved d) s).0) [
    | inl (a, k) ↦ ground (arith, k)
    | inr (x, k) ↦ clean (saved d) x s k
  ]

  -- A policy is opened as it is, or with the base policy, or it is not.
  open_cases :
      (s : Store)
      → ((e : Error) × (open_policy policy s ≡ (err e, s)))
        ⊎ ((d : Document) × (open_policy policy s ≡ (ok d, s)))
        ⊎ ((d : Document) × (after : Store) × HasBase policy s after
            × (open_policy policy s ≡ (ok d, after)))
  unfolding open_policy opened create_base or_type_error save_policy_document raised
  open_cases s = elim (Result-cases (policy.document s)) [
    | inl (p, k) ↦ elim (Option-cases (load_statements (statement_list p))) [
      | inl n ↦ inl (type_error, rw (k, n) refl)
      | inr (d, l) ↦ inr (inl (d, rw (k, l) refl))
    ]
    | inr (other_error, k) ↦ inl (client_error other_error, rw k refl)
    | inr (no_such_entity, k) ↦
        let base = saved (put base_s3_access_policy) in
        elim (Result-cases (policy.put_document base s).0) [
          | inl (a, l) ↦ inr (
              inr (
                base_loads.0,
                (policy.put_document base s).1,
                (k, l, refl),
                rw (k, l, base_loads.1) refl,
              ))
          | inr (x, l) ↦ inl (client_error x, rw (k, l, clean base x s l) refl)
        ]
  ]

  -- A grant at a known level, by what the opening of the policy comes to
  grant_opened :
      (md5 : Md5) (arn level : Text) (paths : List Text) (s : Store)
      (o : Result Error Document × Store)
      → mem level access_levels ≡ true
      → open_policy policy s ≡ o
      → grant_bucket_access policy md5 arn level paths s
        ≡ go_on o.0 (λ d. save_policy_document policy (put (granted md5 arn level paths d))) o.1
  unfolding grant_bucket_access
  grant_opened md5 arn level paths s o y h =
      let save : Document → Exec Error Store Unit =
        λ d. save_policy_document policy (put (granted md5 arn level paths d)) in
      ap (λ b. (if b then (open_policy policy >>= save) else raise value_error) s) y
      ∙ ap (λ r. go_on r.0 save r.1) h

  -- Where a call of IAM that fails changes nothing, whatever its error: a grant that raises leaves
  -- the policy as it was or, where there was none and the base policy was put, with the base
  -- policy.
  pub grant_bucket_access_atomic :
      (md5 : Md5) (arn level : Text) (paths : List Text) (s : Store) (e : Error)
      → (grant_bucket_access policy md5 arn level paths s).0 ≡ err e
      → ((grant_bucket_access policy md5 arn level paths s).1 ≡ s)
        ⊎ HasBase policy s (grant_bucket_access policy md5 arn level paths s).1
  unfolding grant_bucket_access
  grant_bucket_access_atomic md5 arn level paths s e h =
      elim (Bool-cases (mem level access_levels)) [
        | inr n ↦ inl (ground (arith, n))
        | inl y ↦ elim (open_cases s) [
          | inl (x, o) ↦ inl (ap (λ r. r.1) (grant_opened md5 arn level paths s (err x, s) y o))
          | inr (inl (d, o)) ↦
              let same = grant_opened md5 arn level paths s (ok d, s) y o in
              inl (
                ap (λ r. r.1) same
                ∙ save-clean (put (granted md5 arn level paths d)) e s
                    (ap (λ r. r.0) (sym same) ∙ h))
          | inr (inr (d, after, (missing, made, based), o)) ↦
              let same = grant_opened md5 arn level paths s (ok d, after) y o in
              let clean_after =
                save-clean (put (granted md5 arn level paths d)) e after
                  (ap (λ r. r.0) (sym same) ∙ h) in
              inr (missing, made, ap (λ r. r.1) same ∙ clean_after ∙ based)
        ]
      ]

-- The calls as Aws/Role has them: they fail with NoSuchEntity where the role or the policy is not there.
abbrev pub role_policy : RolePolicy IamRole
role_policy = record {
  document = λ r. elim (Role.load_policy_document r) [ none ↦ err no_such_entity | some p ↦ ok p ];
  put_document =
      λ p r. if r.exists then (ok tt, record r { policy = some p }) else (err no_such_entity, r);
}

abbrev pub as_error : Role.Error → Error
as_error Role.value_error = value_error
as_error Role.type_error = type_error
as_error Role.no_such_entity = client_error no_such_entity

abbrev pub as_result : Result Role.Error Unit × IamRole → Result Error Unit × IamRole
as_result (ok a, r) = (ok a, r)
as_result (err e, r) = (err (as_error e), r)

-- A grant of Aws/Role is a grant over these calls.
pub grant_role_policy :
    (md5 : Md5) (arn level : Text) (paths : List Text) (r : IamRole)
    → grant_bucket_access role_policy md5 arn level paths r
      ≡ as_result (Role.grant_bucket_access md5 arn level paths r)
unfolding grant_bucket_access open_policy opened create_base or_type_error save_policy_document
    raised Role.grant_bucket_access Role.open_policy Role.save_policy_document
    Role.load_policy_document
grant_role_policy md5 arn level paths r = elim (Option-cases r.policy) [
  | inl n ↦ ground (arith, n, base_loads)
  | inr (p, e) ↦ ground (arith, e)
]
