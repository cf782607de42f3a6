-- ===== src/Apps/CloudPlatform.antt =====
-- The access of an app's role to roles of Cloud Platform: `update_cloud_platform_access` and
-- `update_inline_policy` of controlpanel/api/models/app.py, with `_generate_assume_role_policy` and
-- `update_trust_policy` of `App` in controlpanel/api/cluster.py. The statements that come from templates are
-- parameters.
mod Tests
use analytics_platform_contr.Prelude.{
  ◌≡◌, ◌≢◌, refl, ◌⊎◌, inl, inr, Text, codes, teq, true, List, [], ◌∷◌, ◌++◌, if◌then◌else◌, arith,
  teq_refl,
}
use analytics_platform_contr.Prelude.Exec.{Result, Exec, ok, err, ◌>>◌}
use analytics_platform_contr.Aws.Attachments.{ClientError, no_such_entity, other_code}
use analytics_platform_contr.Aws.InlinePolicies.{
  InlineClient, is_found, policy_exists, add_inline_policy, delete_inline_policy,
  update_assume_role_policy,
}

-- A statement of BASE_CLOUD_PLATFORM_ASSUME_ROLE_POLICY
pub record RoleStatement : Type 0 where
  pub sid : Text
  pub action : List Text
  pub effect : Text
  pub resource : List Text

pub record RolePolicy : Type 0 where
  pub version : Text
  pub statement : List RoleStatement

-- BASE_CLOUD_PLATFORM_ASSUME_ROLE_POLICY with the ARNs as its resource
unfoldable pub inline_policy : List Text → RolePolicy
inline_policy arns = record {
  version = codes "2012-10-17";
  statement =
      record {
        sid = codes "CloudPlatformAccess";
        action = codes "sts:AssumeRole" ∷ [];
        effect = codes "Allow";
        resource = arns;
      }
      ∷ [];
}

-- The statements of trust policies: the one of BASE_ASSUME_ROLE_POLICY, that of the OIDC provider, and that
-- of Cloud Platform roles.
pub record TrustStatements (Statement : Type 0) : Type 0 where
  pub base : Statement
  pub oidc : Statement
  pub xacct : List Text → Statement

unfoldable pub generate_assume_role_policy :
    {Statement : Type 0} → TrustStatements Statement → List Text → List Statement
generate_assume_role_policy ts [] = ts.base ∷ ts.oidc ∷ []
generate_assume_role_policy ts (arn ∷ arns) = ts.base ∷ ts.oidc ∷ ts.xacct (arn ∷ arns) ∷ []

-- f"cloud-platform-access-{self.slug}"
unfoldable pub policy_name_of : Text → Text
policy_name_of slug = codes "cloud-platform-access-" ++ slug

module _ {Statement Store : Type 0} (client : InlineClient RolePolicy (List Statement) Store) where
  unfoldable pub update_inline_policy : Text → List Text → Exec ClientError Store Unit
  update_inline_policy slug [] = delete_inline_policy client (policy_name_of slug)
  update_inline_policy slug (arn ∷ arns) =
      add_inline_policy client (policy_name_of slug) (inline_policy (arn ∷ arns))

  unfoldable pub update_cloud_platform_access :
      TrustStatements Statement → Text → List Text → Exec ClientError Store Unit
  update_cloud_platform_access ts slug arns =
      update_assume_role_policy client (generate_assume_role_policy ts arns)
      >> update_inline_policy slug arns

-- What IAM documents of inline policies and of the trust policy, of a role that is there; `trust` is what the
-- role has.
pub record KeepsPolicies {Policy Trust Store : Type 0} (client : InlineClient Policy Trust Store)
    (trust : Store → Trust) : Type 0 where
  pub put_kept :
      (n : Text) (p : Policy) (s : Store)
      → let (result, after) = client.put_role_policy n p s in
        (result ≡ ok tt) × (client.get_role_policy n after ≡ ok p) × (trust after ≡ trust s)
  pub deleted :
      (n : Text) (p : Policy) (s : Store)
      → client.get_role_policy n s ≡ ok p
      → let (result, after) = client.delete_role_policy n s in
        (result ≡ ok tt)
        × (client.get_role_policy n after ≡ err no_such_entity)
        × (trust after ≡ trust s)
  pub trusted :
      (t : Trust) (s : Store)
      → let (result, after) = client.update_assume_role_policy t s in
        (result ≡ ok tt)
        × (trust after ≡ t)
        × ((n : Text) → client.get_role_policy n after ≡ client.get_role_policy n s)
  pub answers :
      (n : Text) (s : Store)
      → (client.get_role_policy n s ≡ err no_such_entity)
        ⊎ ((p : Policy) × (client.get_role_policy n s ≡ ok p))

-- The inline policy after an update: none without ARNs; else the one that was there, or a new one.
abbrev pub after_update : List Text → Result ClientError RolePolicy → Result ClientError RolePolicy
after_update [] r = err no_such_entity
after_update (arn ∷ arns) (ok old) = ok old
after_update (arn ∷ arns) (err e) = ok (inline_policy (arn ∷ arns))

module _ {Statement Store : Type 0} (client : InlineClient RolePolicy (List Statement) Store)
    (trust : Store → List Statement) (laws : KeepsPolicies client trust) (slug : Text) where
  update_inline_policy_lem :
      (arns : List Text) (s : Store)
      → (s' : Store) × (update_inline_policy client slug arns s ≡ (ok tt, s'))
        × (client.get_role_policy (policy_name_of slug) s'
            ≡ after_update arns (client.get_role_policy (policy_name_of slug) s))
        × (trust s' ≡ trust s)
  unfolding update_inline_policy add_inline_policy delete_inline_policy policy_exists is_found
  update_inline_policy_lem [] s = elim (laws.answers (policy_name_of slug) s) [
    | inl gone ↦ (s, rw gone refl, gone, refl)
    | inr (p, there) ↦
        let (made, now, same) = laws.deleted (policy_name_of slug) p s there in
        (
          (client.delete_role_policy (policy_name_of slug) s).1,
          ground (arith, there, made),
          now,
          same,
        )
  ]
  update_inline_policy_lem (arn ∷ arns) s = elim (laws.answers (policy_name_of slug) s) [
    | inl gone ↦
        let q = inline_policy (arn ∷ arns) in
        let (made, now, same) = laws.put_kept (policy_name_of slug) q s in
        (
          (client.put_role_policy (policy_name_of slug) q s).1,
          ground (arith, gone, made),
          rw gone now,
          same,
        )
    | inr (p, there) ↦ (s, rw there refl, rw there refl, refl)
  ]

  -- For a role that is there, where IAM keeps what it is given: updating the access of an app to
  -- roles of Cloud Platform succeeds, and the trust policy is that of the given ARNs; the inline
  -- policy is gone if there are no ARNs, is the one that was there, whatever its ARNs, if there was
  -- one, and is that of the given ARNs otherwise.
  pub update_cloud_platform_access_lem :
      (ts : TrustStatements Statement) (arns : List Text) (s : Store)
      → (s' : Store) × (update_cloud_platform_access client ts slug arns s ≡ (ok tt, s'))
        × (trust s' ≡ generate_assume_role_policy ts arns)
        × (client.get_role_policy (policy_name_of slug) s'
            ≡ after_update arns (client.get_role_policy (policy_name_of slug) s))
  unfolding update_cloud_platform_access update_assume_role_policy
  update_cloud_platform_access_lem ts arns s =
      let t = generate_assume_role_policy ts arns in
      let (made, now, rest) = laws.trusted t s in
      let (s', ran, view, same) =
        update_inline_policy_lem arns (client.update_assume_role_policy t s).1 in
      (s', ground (arith, made, ran), rw same now, rw view (rw (rest (policy_name_of slug)) refl))
