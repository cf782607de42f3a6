-- ===== src/Aws/ManagedPolicy/Access.antt =====
-- What granting and revoking access to a bucket does to a managed policy.
use analytics_platform_contr.Prelude.{
  ◌≡◌, ◌≢◌, refl, Text, teq_iff, mem, true, some, List, [], ◌∷◌, length, leb, arith, IsDistinct,
}
use analytics_platform_contr.Prelude.Exec.{ok}
use analytics_platform_contr.Aws.Document.{Document, IsUnique}
use analytics_platform_contr.Aws.S3AccessPolicy.{Md5, revoke_access, put}
use analytics_platform_contr.Aws.S3AccessPolicy.Resources.{resources, resources-put, IsUnique-put}
use analytics_platform_contr.Aws.S3AccessPolicy.Load.{
  load_statements, resources-load, IsUnique-load,
}
use analytics_platform_contr.Aws.S3AccessPolicy.Sids.{
  HasSids, HasSids-load, load_total, HasSids-put,
}
use analytics_platform_contr.Aws.Role.{
  PolicyDocument, saved, statement_list, access_levels, granted,
}
use analytics_platform_contr.Aws.Role.Access.{
  known_level, revoked_view, granted_view, resources-revoke_access, IsUnique-revoke_access,
  HasSids-revoke_access, HasSids-granted, resources-granted, IsUnique-granted,
}
use analytics_platform_contr.Aws.ManagedPolicy.{
  PolicyClient, open_policy, opened, save_policy_document, grant_policy_bucket_access,
  revoke_policy_bucket_access,
}
use analytics_platform_contr.Aws.ManagedPolicy.Versions.{
  KeepsVersions, save_policy_document-versions,
}

-- The default version is a document with Sids, no two the same, and there are four versions at most.
pub record IsOpen {Store : Type 0} (client : PolicyClient Store) (s : Store) (d : Document)
    : Type 0 where
  pub document : (p : PolicyDocument) × (client.default_document s ≡ ok p) × (statement_list p ≡ d)
  pub sids : HasSids d
  pub unique : IsUnique d
  pub versions :
      (vs : List Text) × (client.versions s ≡ ok vs) × IsDistinct vs × (leb (length vs) 4 ≡ true)

-- The policy keeps this document as its only version, and the roles are those of before.
pub record IsSaved {Store : Type 0} (client : PolicyClient Store) (before after : Store)
    (q : Document) : Type 0 where
  pub is_open : IsOpen client after q
  pub only : (v : Text) × (client.versions after ≡ ok (v ∷ []))
  pub attached : client.attached_roles after ≡ client.attached_roles before

module _ {Store : Type 0} (client : PolicyClient Store) (laws : KeepsVersions client) (s : Store)
    (d : Document) (h : IsOpen client s d) where
  open_policy_lem :
      (e : Document) × (open_policy client s ≡ (ok e, s)) × (load_statements d ≡ some e)
  unfolding open_policy opened
  open_policy_lem =
      let (e, loaded) = load_total d h.sids in (e, ground (arith, h.document, loaded), loaded)

  saved_lem :
      (q : Document)
      → HasSids q
      → IsUnique q
      → (s' : Store) × (save_policy_document client q s ≡ (ok tt, s')) × IsSaved client s s' q
  unfolding saved mem
  saved_lem q sids unique =
      let (vs, listed, distinct, few) = h.versions in
      let (s', v, ran, only, _, document, roles) =
        save_policy_document-versions client laws q s vs listed distinct few in
      (
        s',
        ran,
        record {
          is_open = record {
            document = (saved q, document, refl);
            sids = sids;
            unique = unique;
            versions = (v ∷ [], only, (refl, tt), refl);
          };
          only = (v, only);
          attached = roles;
        },
      )

  module _ (md5 : Md5) (arn : Text) where
    -- A revocation of a non-empty ARN succeeds, and under every Sid leaves the view of a revocation.
    revoke_policy_bucket_access-view :
        (j : Text)
        → arn ≢ []
        → (s' : Store) × (q : Document) × (revoke_policy_bucket_access client md5 (some arn) s
            ≡ (ok tt, s'))
          × IsSaved client s s' q
          × (resources j q ≡ revoked_view arn j (resources j d))
    unfolding revoke_policy_bucket_access
    revoke_policy_bucket_access-view j nonempty =
        let (e, opened, loaded) = open_policy_lem in
        let g = revoke_access md5 arn e in
        let u = IsUnique-revoke_access md5 arn e (IsUnique-load d e loaded h.unique) in
        let k = HasSids-revoke_access md5 arn e (HasSids-load d e loaded) in
        let (s', ran, is_saved) = saved_lem (put g) (HasSids-put g k) (IsUnique-put g u) in
        (
          s',
          put g,
          ground (arith, teq_iff arn [], opened, ran),
          is_saved,
          rw (resources-put j g u, resources-revoke_access md5 arn j e, resources-load j d e loaded)
              refl,
        )

    -- Where IAM keeps versions as it documents: a grant at a known level to a managed policy whose
    -- default version has Sids, no two the same, and which has four versions at most, succeeds;
    -- after it the policy is of that kind again with one version, the attached roles are those of
    -- before, and under every Sid the resources are those of the view of a grant.
    pub grant_policy_bucket_access-view :
        (level : Text) (paths : List Text) (j : Text)
        → mem level access_levels ≡ true
        → (s' : Store) × (q : Document) × (grant_policy_bucket_access client md5 arn level paths s
            ≡ (ok tt, s'))
          × IsSaved client s s' q
          × (resources j q ≡ granted_view arn level paths j (resources j d))
    unfolding grant_policy_bucket_access
    grant_policy_bucket_access-view level paths j known =
        let (e, opened, loaded) = open_policy_lem in
        let (b, at) = known_level level known in
        let g = granted md5 arn level paths e in
        let u = IsUnique-granted md5 level at arn paths e (IsUnique-load d e loaded h.unique) in
        let k = HasSids-granted md5 level arn paths e (HasSids-load d e loaded) in
        let (s', ran, is_saved) = saved_lem (put g) (HasSids-put g k) (IsUnique-put g u) in
        (
          s',
          put g,
          rw (known, opened) ran,
          is_saved,
          rw
              (
                resources-put j g u,
                resources-granted md5 level at arn paths j e,
                resources-load j d e loaded,
              )
              refl,
        )
