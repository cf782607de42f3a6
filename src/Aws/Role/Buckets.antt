-- ===== src/Aws/Role/Buckets.antt =====
-- What `grant_bucket_access` and `revoke_bucket_access` of `AWSRole` do to an IAM role, on every path.
use analytics_platform_contr.Prelude.{
  ◌≡◌, ◌≢◌, refl, Text, codes, teq_iff, mem, true, some, List, [], ◌++◌, arith, all, ap, ◌∙◌,
}
use analytics_platform_contr.Prelude.Exec.{ok, ◌>>◌}
use analytics_platform_contr.Aws.Document.{Document, IsUnique}
use analytics_platform_contr.Aws.S3AccessPolicy.{Md5, is_arn_part_of_resource, revoke_access, put}
use analytics_platform_contr.Aws.S3AccessPolicy.Resources.{resources, resources-put, IsUnique-put}
use analytics_platform_contr.Aws.S3AccessPolicy.Load.{
  load_statements, resources-load, IsUnique-load,
}
use analytics_platform_contr.Aws.S3AccessPolicy.Sids.{
  HasSids, HasSids-load, load_total, HasSids-put,
}
use analytics_platform_contr.Aws.Role.{
  IamRole, PolicyDocument, saved, statement_list, access_levels, targets, granted,
  grant_bucket_access, revoke_bucket_access, open_policy, load_policy_document,
  save_policy_document,
}
use analytics_platform_contr.Aws.Role.Access.{
  known_level, revoked_view, granted_view, revoked_view-granted_view, resources-revoke_access,
  IsUnique-revoke_access, HasSids-revoke_access, HasSids-granted, resources-granted,
  IsUnique-granted,
}

-- The role is there, and its policy is a document with Sids, no two the same.
pub record IsOpen (r : IamRole) (d : Document) : Type 0 where
  pub exists : r.exists ≡ true
  pub policy : (p : PolicyDocument) × (r.policy ≡ some p) × (statement_list p ≡ d)
  pub sids : HasSids d
  pub unique : IsUnique d

-- The state after a save.
abbrev pub holding : IamRole → Document → IamRole
holding r d = record r { policy = some (saved d) }

pub IsOpen-holding :
    (r : IamRole) (d q : Document) → IsOpen r d → HasSids q → IsUnique q → IsOpen (holding r q) q
unfolding saved
IsOpen-holding r d q h s u = record {
  exists = h.exists;
  policy = (saved q, refl, refl);
  sids = s;
  unique = u;
}

-- Such a role opens to a document with the same resources.
pub open_policy_lem :
    (r : IamRole) (d : Document)
    → IsOpen r d
    → (e : Document) × (open_policy r ≡ (ok e, r)) × (load_statements d ≡ some e)
unfolding open_policy load_policy_document
open_policy_lem r d h =
    let (e, loaded) = load_total d h.sids in (e, ground (arith, h.exists, h.policy), loaded)

pub save_policy_document_lem :
    (r : IamRole) (d : Document) → r.exists ≡ true → save_policy_document d r ≡ (ok tt, holding r d)
unfolding save_policy_document
save_policy_document_lem r d h = rw h

module _ (md5 : Md5) (arn : Text) (r : IamRole) (d : Document) (h : IsOpen r d) where
  -- A revocation of a non-empty ARN from a role that is there and whose policy has Sids, no two the
  -- same, succeeds and saves such a policy again; under every Sid it has the resources that were
  -- there, less the parts of the bucket under both levels and "list".
  pub revoke_bucket_access-view :
      (j : Text)
      → arn ≢ []
      → (q : Document) × (revoke_bucket_access md5 (some arn) r ≡ (ok tt, holding r q))
        × IsOpen (holding r q) q
        × (resources j q ≡ revoked_view arn j (resources j d))
  unfolding revoke_bucket_access
  revoke_bucket_access-view j nonempty =
      let (e, opened, loaded) = open_policy_lem r d h in
      let g = revoke_access md5 arn e in
      let u = IsUnique-revoke_access md5 arn e (IsUnique-load d e loaded h.unique) in
      let s = HasSids-revoke_access md5 arn e (HasSids-load d e loaded) in
      (
        put g,
        ground
            (arith, teq_iff arn [], h.exists, opened, save_policy_document_lem r (put g) h.exists),
        IsOpen-holding r d (put g) h (HasSids-put g s) (IsUnique-put g u),
        rw (resources-put j g u, resources-revoke_access md5 arn j e, resources-load j d e loaded),
      )

module _ (md5 : Md5) (arn level : Text) (paths : List Text) (r : IamRole) (d : Document)
    (h : IsOpen r d) where
  -- A grant at a known level to a role that is there and whose policy has Sids, no two the same,
  -- succeeds and saves such a policy again; under every Sid its resources are those of the view:
  -- the parts of the bucket gone from under both levels and "list", the bucket added under "list"
  -- and the objects under the level.
  pub grant_bucket_access-view :
      (j : Text)
      → mem level access_levels ≡ true
      → (q : Document) × (grant_bucket_access md5 arn level paths r ≡ (ok tt, holding r q))
        × IsOpen (holding r q) q
        × (resources j q ≡ granted_view arn level paths j (resources j d))
  unfolding grant_bucket_access
  grant_bucket_access-view j known =
      let (e, opened, loaded) = open_policy_lem r d h in
      let (b, at) = known_level level known in
      let g = granted md5 arn level paths e in
      let u = IsUnique-granted md5 level at arn paths e (IsUnique-load d e loaded h.unique) in
      let s = HasSids-granted md5 level arn paths e (HasSids-load d e loaded) in
      (
        put g,
        rw (known, opened) (save_policy_document_lem r (put g) h.exists),
        IsOpen-holding r d (put g) h (HasSids-put g s) (IsUnique-put g u),
        rw (
          resources-put j g u,
          resources-granted md5 level at arn paths j e,
          resources-load j d e loaded,
        ),
      )

  -- A grant at a known level with a revocation of the same bucket after it succeeds and leaves,
  -- under every Sid, the resources that the revocation alone leaves, where the granted objects are
  -- parts of the bucket, its ARN is not empty, and the role is there with a policy with Sids, no
  -- two the same.
  pub grant_then_revoke :
      (j : Text)
      → arn ≢ []
      → mem level access_levels ≡ true
      → all (λ a. is_arn_part_of_resource (a ++ codes "/*") arn) (targets arn paths) ≡ true
      → (q : Document) × ((grant_bucket_access md5 arn level paths
              >> revoke_bucket_access md5 (some arn))
            r
          ≡ (ok tt, holding r q))
        × (resources j q ≡ revoked_view arn j (resources j d))
  grant_then_revoke j nonempty known parts =
      let (g, ran, opened, view) = grant_bucket_access-view j known in
      let (q, ran', _, view') =
        revoke_bucket_access-view md5 arn (holding r g) g opened j nonempty in
      (
        q,
        ground (arith, ran, ran'),
        view'
            ∙ (ap (revoked_view arn j) view
                ∙ revoked_view-granted_view arn level paths j (resources j d) known parts),
      )
