-- ===== src/Apps/CloudPlatform/Tests.antt =====
-- A role as a dictionary of inline policies with a trust policy, and the update of an app's access at it.
use analytics_platform_contr.Prelude.{
  ◌≡◌, refl, ◌⊎◌, inl, inr, Text, codes, teq, teq_refl, Option, none, some, List, [], ◌∷◌,
}
use analytics_platform_contr.Prelude.Dicts.{get, put_key, del_key, get-put_key, get-del_key}
use analytics_platform_contr.Prelude.Exec.{Result, ok, err}
use analytics_platform_contr.Aws.Attachments.{ClientError, no_such_entity}
use analytics_platform_contr.Aws.InlinePolicies.{InlineClient}
use analytics_platform_contr.Apps.CloudPlatform.{
  RolePolicy, inline_policy, TrustStatements, generate_assume_role_policy, policy_name_of,
  update_cloud_platform_access, KeepsPolicies, after_update, update_cloud_platform_access_lem,
}

abbrev Role : Type 0
Role = List (Text × RolePolicy) × List Text

abbrev found : Option RolePolicy → Result ClientError RolePolicy
found none = err no_such_entity
found (some p) = ok p

abbrev dict_client : InlineClient RolePolicy (List Text) Role
dict_client = record {
  get_role_policy = λ n s. found (get n s.0);
  put_role_policy = λ n p s. (ok tt, (put_key n p s.0, s.1));
  delete_role_policy = λ n s. (ok tt, (del_key n s.0, s.1));
  update_assume_role_policy = λ t s. (ok tt, (s.0, t));
}

found_answers :
    (o : Option RolePolicy) → (found o ≡ err no_such_entity) ⊎ ((p : RolePolicy) × (found o ≡ ok p))
found_answers none = inl refl
found_answers (some p) = inr (p, refl)

dict_client-KeepsPolicies : KeepsPolicies dict_client (λ s. s.1)
dict_client-KeepsPolicies = record {
  put_kept = λ n p s. (refl, rw (get-put_key n n p s.0, teq_refl n) refl, refl);
  deleted = λ n p s h. (refl, rw (get-del_key n n s.0, teq_refl n) refl, refl);
  trusted = λ t s. (refl, refl, λ n. refl);
  answers = λ n s. found_answers (get n s.0);
}

abbrev statements : TrustStatements Text
statements = record { base = codes "ec2"; oidc = codes "oidc"; xacct = λ arns. codes "xacct" }

abbrev slug : Text
slug = codes "app"

abbrev old_arns : List Text
old_arns = codes "arn:aws:iam::1:role/old" ∷ []

abbrev new_arns : List Text
new_arns = codes "arn:aws:iam::1:role/new" ∷ []

abbrev app_role : Role
app_role = ((policy_name_of slug, inline_policy old_arns) ∷ [], [])

update_cloud_platform_access_lem_example :
    (s' : Role) × (update_cloud_platform_access dict_client statements slug new_arns app_role
      ≡ (ok tt, s'))
    × (s'.1 ≡ generate_assume_role_policy statements new_arns)
    × (found (get (policy_name_of slug) s'.0)
        ≡ after_update new_arns (found (get (policy_name_of slug) app_role.0)))
update_cloud_platform_access_lem_example =
    update_cloud_platform_access_lem dict_client (λ s. s.1) dict_client-KeepsPolicies slug
      statements new_arns app_role

-- The role of the app keeps the ARN that is no longer its own.
stale_policy :
    after_update new_arns (found (get (policy_name_of slug) app_role.0))
    ≡ ok (inline_policy old_arns)
unfolding get policy_name_of teq
stale_policy = refl
