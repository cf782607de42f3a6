-- ===== src/Aws/Role/Access.antt =====
-- What granting and revoking access to a bucket does to the resources of a policy document.
use mathlib.Core.List.{append-nil}
use analytics_platform_contr.Prelude.{
  ◌≡◌, refl, Text, codes, teq, teq_iff, mem, Bool, true, false, ◌||◌, none, some, filter-filter,
  filter-append, all, List, [], ◌∷◌, ◌++◌, filter, if◌then◌else◌, arith, Bool-cases, inl, inr,
}
use analytics_platform_contr.Aws.Statement.{
  Statement, base_statement, known_readonly, known_readwrite, known_list,
}
use analytics_platform_contr.Aws.Document.{Document, IsUnique}
use analytics_platform_contr.Aws.S3AccessPolicy.{
  Md5, construct_sid, insert, is_arn_part_of_resource, ends_part, add_resource, grant_object_access,
  grant_list_access, revoke_access,
}
use analytics_platform_contr.Aws.S3AccessPolicy.Parts.{is_kept, part-append}
use analytics_platform_contr.Aws.S3AccessPolicy.Resources.{
  resources, resources-add_resource, resources-remove_resource, IsUnique-add_resource,
  IsUnique-remove_resource,
}
use analytics_platform_contr.Aws.S3AccessPolicy.Sids.{
  HasSids, HasSids-add_resource, HasSids-remove_resource,
}
use analytics_platform_contr.Aws.Role.{access_levels, targets, grant_objects, granted}

-- Both access levels have a base statement.
pub known_level :
    (level : Text)
    → mem level access_levels ≡ true
    → (b : Statement) × (base_statement level ≡ some b)
unfolding access_levels mem
known_level level h = elim (Bool-cases (teq (codes "readonly") level)) [
  | inl e ↦ rw (← (teq_iff (codes "readonly") level).0 e) known_readonly
  | inr e ↦ rw (← (teq_iff (codes "readwrite") level).0 (ground arith)) known_readwrite
]

-- The Sids that `revoke_access` looks at.
unfoldable pub is_bucket_sid : Text → Bool
is_bucket_sid j = teq (codes "readonly") j || (teq (codes "readwrite") j || teq (codes "list") j)

-- The view of a revocation: under those Sids, what is no part of the ARN.
unfoldable pub revoked_view : Text → Text → List Text → List Text
revoked_view arn j rs = if is_bucket_sid j then filter (is_kept arn) rs else rs

-- The view of grants of objects: "/*" behind each ARN.
unfoldable pub insert_objects : List Text → List Text → List Text
insert_objects [] rs = rs
insert_objects (arn ∷ arns) rs = insert_objects arns (insert (arn ++ codes "/*") rs)

-- The view of a grant: a revocation, the bucket under "list", the objects under the level.
unfoldable pub granted_view : Text → Text → List Text → Text → List Text → List Text
granted_view arn level paths j rs =
    let kept = revoked_view arn j rs in
    let with_bucket = if teq (codes "list") j then insert arn kept else kept in
    if teq level j then insert_objects (targets arn paths) with_bucket else with_bucket

module _ (md5 : Md5) (arn : Text) where
  pub resources-revoke_access :
      (j : Text) (d : Document)
      → resources j (revoke_access md5 arn d) ≡ revoked_view arn j (resources j d)
  unfolding revoke_access revoked_view is_bucket_sid
  resources-revoke_access j d =
      rw
        (
          resources-remove_resource md5 (codes "list") known_list.1 arn j _,
          resources-remove_resource md5 (codes "readwrite") known_readwrite.1 arn j _,
          resources-remove_resource md5 (codes "readonly") known_readonly.1 arn j d,
        )
        (ground (arith, filter-filter (is_kept arn) (resources j d)))

  pub HasSids-revoke_access : (d : Document) → HasSids d → HasSids (revoke_access md5 arn d)
  unfolding revoke_access
  HasSids-revoke_access d h = HasSids-remove_resource md5 arn (codes "list") _ (
      HasSids-remove_resource md5 arn (codes "readwrite") _
        (HasSids-remove_resource md5 arn (codes "readonly") d h))

  pub IsUnique-revoke_access : (d : Document) → IsUnique d → IsUnique (revoke_access md5 arn d)
  unfolding revoke_access
  IsUnique-revoke_access d h = IsUnique-remove_resource md5 (codes "list") known_list.1 arn _ (
      IsUnique-remove_resource md5 (codes "readwrite") known_readwrite.1 arn _
        (IsUnique-remove_resource md5 (codes "readonly") known_readonly.1 arn d h))

module _ (md5 : Md5) (level : Text) where
  HasSids-grant_objects :
      (arns : List Text) (d : Document) → HasSids d → HasSids (grant_objects md5 level arns d)
  unfolding grant_objects grant_object_access
  HasSids-grant_objects [] d h = h
  HasSids-grant_objects (a ∷ arns) d h =
      HasSids-grant_objects arns (grant_object_access md5 a level d)
        (HasSids-add_resource md5 (a ++ codes "/*") level none d h)

  pub HasSids-granted :
      (arn : Text) (paths : List Text) (d : Document)
      → HasSids d
      → HasSids (granted md5 arn level paths d)
  unfolding granted grant_list_access
  HasSids-granted arn paths d h =
      HasSids-grant_objects (targets arn paths) _
        (HasSids-add_resource md5 arn (codes "list") none _ (HasSids-revoke_access md5 arn d h))

module _ (md5 : Md5) (level : Text) {base : Statement}
    (known : base_statement level ≡ some base) where
  pub resources-grant_objects :
      (arns : List Text) (j : Text) (d : Document)
      → resources j (grant_objects md5 level arns d)
        ≡ (if teq level j then insert_objects arns (resources j d) else resources j d)
  unfolding grant_objects insert_objects grant_object_access construct_sid
  resources-grant_objects [] j d = ground arith
  resources-grant_objects (a ∷ arns) j d = ground (
    arith,
    resources-grant_objects arns j (grant_object_access md5 a level d),
    resources-add_resource md5 level known (a ++ codes "/*") none j d,
  )

  pub IsUnique-grant_objects :
      (arns : List Text) (d : Document) → IsUnique d → IsUnique (grant_objects md5 level arns d)
  unfolding grant_objects grant_object_access
  IsUnique-grant_objects [] d h = h
  IsUnique-grant_objects (a ∷ arns) d h =
      IsUnique-grant_objects arns (grant_object_access md5 a level d)
        (IsUnique-add_resource md5 level known (a ++ codes "/*") none d h)

  pub resources-granted :
      (arn : Text) (paths : List Text) (j : Text) (d : Document)
      → resources j (granted md5 arn level paths d) ≡ granted_view arn level paths j (resources j d)
  unfolding granted granted_view grant_list_access construct_sid
  resources-granted arn paths j d = ground (
    arith,
    resources-grant_objects (targets arn paths) j
        (add_resource md5 arn (codes "list") none (revoke_access md5 arn d)),
    resources-add_resource md5 (codes "list") known_list.1 arn none j (revoke_access md5 arn d),
    resources-revoke_access md5 arn j d,
  )

  pub IsUnique-granted :
      (arn : Text) (paths : List Text) (d : Document)
      → IsUnique d
      → IsUnique (granted md5 arn level paths d)
  unfolding granted grant_list_access
  IsUnique-granted arn paths d h = IsUnique-grant_objects (targets arn paths) _ (
      IsUnique-add_resource md5 (codes "list") known_list.1 arn none _
        (IsUnique-revoke_access md5 arn d h))

filter-insert :
    (p : Text → Bool) (x : Text) (rs : List Text)
    → p x ≡ false
    → filter p (insert x rs) ≡ filter p rs
unfolding insert
filter-insert p x rs h = ground (arith, filter-append p rs (x ∷ []), append-nil (filter p rs))

-- Objects behind ARNs that are parts of the bucket do not outlive its revocation.
pub filter-insert_objects :
    (arn : Text) (arns rs : List Text)
    → all (λ a. is_arn_part_of_resource (a ++ codes "/*") arn) arns ≡ true
    → filter (is_kept arn) (insert_objects arns rs) ≡ filter (is_kept arn) rs
unfolding insert_objects
filter-insert_objects arn [] rs h = refl
filter-insert_objects arn (a ∷ arns) rs h = ground (
  arith,
  filter-insert_objects arn arns (insert (a ++ codes "/*") rs),
  filter-insert (is_kept arn) (a ++ codes "/*") rs,
)

-- The Sids that a grant writes to are among those that a revocation looks at.
is_bucket_sid_level : (level : Text) → mem level access_levels ≡ true → is_bucket_sid level ≡ true
unfolding is_bucket_sid access_levels mem
is_bucket_sid_level level h = ground arith

is_bucket_sid_list : is_bucket_sid (codes "list") ≡ true
unfolding is_bucket_sid teq
is_bucket_sid_list = refl

is_part_self : (arn : Text) → is_kept arn arn ≡ false
unfolding is_arn_part_of_resource ends_part
is_part_self arn = ground (arith, part-append arn [], append-nil arn)

-- A revocation forgets the grant before it.
pub revoked_view-granted_view :
    (arn level : Text) (paths : List Text) (j : Text) (rs : List Text)
    → mem level access_levels ≡ true
    → all (λ a. is_arn_part_of_resource (a ++ codes "/*") arn) (targets arn paths) ≡ true
    → revoked_view arn j (granted_view arn level paths j rs) ≡ revoked_view arn j rs
unfolding revoked_view granted_view
revoked_view-granted_view arn level paths j rs known parts = elim (Bool-cases (is_bucket_sid j)) [
  | inl e ↦
      let kept = filter (is_kept arn) rs in
      ground (
        arith,
        filter-insert_objects arn (targets arn paths) kept,
        filter-insert_objects arn (targets arn paths) (insert arn kept),
        filter-insert (is_kept arn) arn kept (is_part_self arn),
        filter-filter (is_kept arn) rs,
      )
  | inr e ↦ ground (
    arith,
    teq_iff level j,
    teq_iff (codes "list") j,
    is_bucket_sid_level level known,
    is_bucket_sid_list,
  )
]
