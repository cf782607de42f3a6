-- ===== src/Aws/S3AccessPolicy/Conditions.antt =====
-- The second view of a document: the condition under each Sid. What grants and revocations for
-- folders do to it, and to the resources.
use analytics_platform_contr.Prelude.{
  ◌≡◌, Text, teq, teq_iff, Option, none, some, List, if◌then◌else◌, arith, Option-cases, inl, inr,
}
use analytics_platform_contr.Aws.Statement.{
  Statement, Condition, base_statement, base_statement_fields,
}
use analytics_platform_contr.Aws.Document.{
  Document, find, update, has_sid, find-update, find-append_new,
}
use analytics_platform_contr.Aws.S3AccessPolicy.{
  Md5, construct_sid, build_statement, ensure, statement, through, resource_list,
}
use analytics_platform_contr.Aws.S3AccessPolicy.Resources.{resources, resources-ensure, find-ensure}

abbrev its_condition : Option Statement → Option Condition
its_condition none = none
its_condition (some s) = s.condition

-- The condition under a Sid.
unfoldable pub condition_at : Text → Document → Option Condition
condition_at j d = its_condition (find j d)

condition_at-ensure :
    (base : Statement) (sid j : Text) (d : Document)
    → base.condition ≡ none
    → condition_at j (ensure base sid d) ≡ condition_at j d
unfolding condition_at ensure build_statement has_sid
condition_at-ensure base sid j d h = elim (Option-cases (find sid d)) [
  | inl e ↦ ground (arith, find-append_new j d (record base { sid = some sid }), teq_iff sid j)
  | inr (u, e) ↦ ground arith
]

-- What an operation does through a handle, in both views: `g` is its effect on the resources and
-- the condition of a statement.
module _ (md5 : Md5) (base_sid : Text) {base : Statement}
    (known : base_statement base_sid ≡ some base) (f : Statement → Statement)
    (g : List Text → Option Condition → List Text)
    (h : List Text → Option Condition → Option Condition)
    (keeps : (s : Statement) → (f s).sid ≡ s.sid)
    (lists : (s : Statement) → resource_list (f s) ≡ g (resource_list s) s.condition)
    (conditions : (s : Statement) → (f s).condition ≡ h (resource_list s) s.condition)
    (suffix : Option Text) (j : Text) (d : Document) where
  through_known :
      through f (statement md5 base_sid suffix d)
      ≡ update
          (construct_sid md5 base_sid suffix)
          f
          (ensure base (construct_sid md5 base_sid suffix) d)
  unfolding through statement
  through_known = ground arith

  pub resources-through : resources j (through f (statement md5 base_sid suffix d)) ≡ (
      if teq (construct_sid md5 base_sid suffix) j
      then g (resources j d) (condition_at j d)
      else resources j d)
  unfolding resources condition_at
  resources-through =
      let sid = construct_sid md5 base_sid suffix in
      let (u, found) = find-ensure base sid d in
      rw through_known (
        ground (
          arith,
          find-update sid f keeps j (ensure base sid d),
          teq_iff sid j,
          lists u,
          resources-ensure base sid j d (base_statement_fields base_sid base known).1,
          condition_at-ensure base sid j d (base_statement_fields base_sid base known).2,
        ))

  pub condition_at-through : condition_at j (through f (statement md5 base_sid suffix d)) ≡ (
      if teq (construct_sid md5 base_sid suffix) j
      then h (resources j d) (condition_at j d)
      else condition_at j d)
  unfolding resources condition_at
  condition_at-through =
      let sid = construct_sid md5 base_sid suffix in
      let (u, found) = find-ensure base sid d in
      rw through_known (
        ground (
          arith,
          find-update sid f keeps j (ensure base sid d),
          teq_iff sid j,
          conditions u,
          resources-ensure base sid j d (base_statement_fields base_sid base known).1,
          condition_at-ensure base sid j d (base_statement_fields base_sid base known).2,
        ))
