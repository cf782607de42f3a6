-- ===== src/Aws/InlinePolicies.antt =====
-- The inline policies and the trust policy of a role: `update_assume_role_policy`, `_policy_exists`,
-- `add_inline_policy` and `delete_inline_policy` of `AWSRole` in controlpanel/api/aws.py. The calls of IAM are a
-- parameter, and so are the kinds of documents.
use analytics_platform_contr.Prelude.{Text, Bool, true, false, if◌then◌else◌}
use analytics_platform_contr.Prelude.Exec.{Result, Exec, ok, err, pure, read, ◌>>=◌}
use analytics_platform_contr.Aws.Attachments.{ClientError, no_such_entity, other_code}

pub record InlineClient (Policy Trust Store : Type 0) : Type 0 where
  pub get_role_policy : Text → Store → Result ClientError Policy
  pub put_role_policy : Text → Policy → Exec ClientError Store Unit
  pub delete_role_policy : Text → Exec ClientError Store Unit
  pub update_assume_role_policy : Trust → Exec ClientError Store Unit

-- True for a policy that is read, False for NoSuchEntity
unfoldable pub is_found : {A : Type 0} → Result ClientError A → Result ClientError Bool
is_found (ok p) = ok true
is_found (err no_such_entity) = ok false
is_found (err other_code) = err other_code

module _ {Policy Trust Store : Type 0} (client : InlineClient Policy Trust Store) where
  -- Every error is sent to a monitor and raised again.
  unfoldable pub update_assume_role_policy : Trust → Exec ClientError Store Unit
  update_assume_role_policy assume_role_policy = client.update_assume_role_policy assume_role_policy

  unfoldable pub policy_exists : Text → Exec ClientError Store Bool
  policy_exists policy_name = read (λ s. is_found (client.get_role_policy policy_name s))

  unfoldable pub add_inline_policy : Text → Policy → Exec ClientError Store Unit
  add_inline_policy policy_name policy = do
    there ← policy_exists policy_name
    if there then pure tt else client.put_role_policy policy_name policy

  unfoldable pub delete_inline_policy : Text → Exec ClientError Store Unit
  delete_inline_policy policy_name = do
    there ← policy_exists policy_name
    if there then client.delete_role_policy policy_name else pure tt
