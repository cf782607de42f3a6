-- ===== src/Aws/S3AccessPolicy/Resources.antt =====
-- The view of a document that grants and revocations are about: the resources under each Sid.
-- Each operation changes that view in one place, and keeps the Sids of a document unique.
use analytics_platform_contr.Prelude.{
  ◌≡◌, refl, Text, teq, teq_iff, Option, none, some, List, [], ◌∷◌, ◌++◌, filter, if◌then◌else◌,
  arith, Option-cases, Bool-cases, any, inl, inr,
}
use analytics_platform_contr.Aws.Statement.{Statement, base_statement, base_statement_fields}
use analytics_platform_contr.Aws.Document.{
  Document, find, update, has_sid, find-update, find-append_new, find-some, find-none,
  any-has_sid_of_find, IsUnique, IsUnique-update, IsUnique-append_new, IsUnique-filter, find-filter,
}
use analytics_platform_contr.Aws.S3AccessPolicy.{
  Md5, construct_sid, build_statement, ensure, statement, resource_list, insert, append_resource,
  through, add_resource, drop_resource, remove_resource, has_resource, put,
}
use analytics_platform_contr.Aws.S3AccessPolicy.Parts.{is_kept, remove_parts-eq-filter}

abbrev listed : Option Statement → List Text
listed none = []
listed (some s) = resource_list s

-- The resources under a Sid: none if no statement has it.
unfoldable pub resources : Text → Document → List Text
resources j d = listed (find j d)

-- The view of a longer document.
pub resources-cons :
    (j : Text) (s : Statement) (d : Document)
    → resources j (s ∷ d)
      ≡ (if any (has_sid j) d then resources j d else if has_sid j s then resource_list s else [])
unfolding resources find
resources-cons j s d = elim (Bool-cases (any (has_sid j) d)) [
  | inl e ↦ let (u, p) = find-some j d e in ground arith
  | inr e ↦ ground (arith, find-none j d e)
]

append_resource-sid : (arn : Text) (s : Statement) → (append_resource arn s).sid ≡ s.sid
unfolding append_resource
append_resource-sid arn s = refl

append_resource-resource_list :
    (arn : Text) (s : Statement)
    → resource_list (append_resource arn s) ≡ insert arn (resource_list s)
unfolding append_resource
append_resource-resource_list arn s = refl

pub drop_resource-resource_list :
    (arn : Text) (s : Statement)
    → resource_list (drop_resource arn s) ≡ filter (is_kept arn) (resource_list s)
unfolding drop_resource
drop_resource-resource_list arn s = elim (Option-cases s.resource) [
  | inl e ↦ ground arith
  | inr (rs, e) ↦ ground (arith, remove_parts-eq-filter arn rs)
]

pub drop_resource-sid : (arn : Text) (s : Statement) → (drop_resource arn s).sid ≡ s.sid
unfolding drop_resource
drop_resource-sid arn s = ground arith

ensure_missing :
    (base : Statement) (sid : Text) (d : Document)
    → find sid d ≡ none
    → ensure base sid d ≡ d ++ record base { sid = some sid } ∷ []
unfolding ensure build_statement
ensure_missing base sid d e = ground arith

ensure_found :
    (base : Statement) (sid : Text) (d : Document) {u : Statement}
    → find sid d ≡ some u
    → ensure base sid d ≡ d
unfolding ensure
ensure_found base sid d e = ground arith

pub resources-ensure :
    (base : Statement) (sid j : Text) (d : Document)
    → base.resource ≡ none
    → resources j (ensure base sid d) ≡ resources j d
unfolding resources ensure build_statement has_sid
resources-ensure base sid j d h = elim (Option-cases (find sid d)) [
  | inl e ↦ ground (arith, find-append_new j d (record base { sid = some sid }), teq_iff sid j)
  | inr (u, e) ↦ ground arith
]

pub IsUnique-ensure :
    (base : Statement) (sid : Text) (d : Document) → IsUnique d → IsUnique (ensure base sid d)
unfolding has_sid
IsUnique-ensure base sid d h = elim (Option-cases (find sid d)) [
  | inl e ↦ rw (ensure_missing base sid d e) (
      IsUnique-append_new d (record base { sid = some sid })
        (λ t k. rw (← (teq_iff sid t).0 k) (any-has_sid_of_find sid d e)) h)
  | inr (u, e) ↦ rw (ensure_found base sid d e) h
]

-- After a lookup there is a statement with the Sid.
pub find-ensure :
    (base : Statement) (sid : Text) (d : Document)
    → (s : Statement) × (find sid (ensure base sid d) ≡ some s)
unfolding ensure build_statement has_sid
find-ensure base sid d = elim (Option-cases (find sid d)) [
  | inl e ↦ (
    record base { sid = some sid },
    ground (arith, find-append_new sid d (record base { sid = some sid }), teq_iff sid sid),
  )
  | inr (u, e) ↦ (u, ground arith)
]

-- A change of the resources through a handle, in the view.
resources-update :
    (t j : Text) (f : Statement → Statement) (g : List Text → List Text) (d : Document)
    {u : Statement}
    → ((s : Statement) → (f s).sid ≡ s.sid)
    → ((s : Statement) → resource_list (f s) ≡ g (resource_list s))
    → find t d ≡ some u
    → resources j (update t f d) ≡ (if teq t j then g (resources j d) else resources j d)
unfolding resources
resources-update t j f g d {u} keeps acts e =
    ground (arith, find-update t f keeps j d, teq_iff t j, acts u)

module _ (md5 : Md5) (base_sid : Text) {base : Statement}
    (known : base_statement base_sid ≡ some base) where
  add_resource_known :
      (arn : Text) (suffix : Option Text) (d : Document)
      → let sid = construct_sid md5 base_sid suffix in
        add_resource md5 arn base_sid suffix d
        ≡ update sid (append_resource arn) (ensure base sid d)
  unfolding add_resource statement through
  add_resource_known arn suffix d = ground arith

  remove_resource_known :
      (arn : Text) (d : Document)
      → remove_resource md5 arn base_sid d
        ≡ update base_sid (drop_resource arn) (ensure base base_sid d)
  unfolding remove_resource statement through construct_sid
  remove_resource_known arn d = ground arith

  -- `add_resource` puts the ARN under its Sid, once, and leaves the other Sids alone.
  pub resources-add_resource :
      (arn : Text) (suffix : Option Text) (j : Text) (d : Document)
      → resources j (add_resource md5 arn base_sid suffix d) ≡ (
          if teq (construct_sid md5 base_sid suffix) j
          then insert arn (resources j d)
          else resources j d)
  resources-add_resource arn suffix j d =
      let sid = construct_sid md5 base_sid suffix in
      let (u, found) = find-ensure base sid d in
      rw (add_resource_known arn suffix d) (
        rw
          (resources-update sid j (append_resource arn) (insert arn) (ensure base sid d)
            (append_resource-sid arn) (append_resource-resource_list arn) found)
          (rw (resources-ensure base sid j d (base_statement_fields base_sid base known).1)))

  -- `remove_resource` takes the parts of the ARN from under its Sid, and leaves the others alone.
  pub resources-remove_resource :
      (arn j : Text) (d : Document)
      → resources j (remove_resource md5 arn base_sid d)
        ≡ (if teq base_sid j then filter (is_kept arn) (resources j d) else resources j d)
  resources-remove_resource arn j d =
      let (u, found) = find-ensure base base_sid d in
      rw (remove_resource_known arn d) (
        rw
          (resources-update base_sid j (drop_resource arn) (filter (is_kept arn))
            (ensure base base_sid d) (drop_resource-sid arn) (drop_resource-resource_list arn)
            found)
          (rw (resources-ensure base base_sid j d (base_statement_fields base_sid base known).1)))

  pub IsUnique-add_resource :
      (arn : Text) (suffix : Option Text) (d : Document)
      → IsUnique d
      → IsUnique (add_resource md5 arn base_sid suffix d)
  IsUnique-add_resource arn suffix d h =
      let sid = construct_sid md5 base_sid suffix in
      rw (add_resource_known arn suffix d) (
        IsUnique-update sid (append_resource arn) (ensure base sid d) (append_resource-sid arn)
          (IsUnique-ensure base sid d h))

  pub IsUnique-remove_resource :
      (arn : Text) (d : Document) → IsUnique d → IsUnique (remove_resource md5 arn base_sid d)
  IsUnique-remove_resource arn d h = rw (remove_resource_known arn d) (
      IsUnique-update base_sid (drop_resource arn) (ensure base base_sid d) (drop_resource-sid arn)
        (IsUnique-ensure base base_sid d h))

-- Saving removes statements without resources only: the view stays.
pub resources-put : (j : Text) (d : Document) → IsUnique d → resources j (put d) ≡ resources j d
unfolding resources put has_resource
resources-put j d h = rw (find-filter j has_resource d h) (ground arith)

pub IsUnique-put : (d : Document) → IsUnique d → IsUnique (put d)
unfolding put
IsUnique-put d h = IsUnique-filter has_resource d h
