-- ===== src/Aws/ManagedPolicy/Versions.antt =====
-- Saving a managed policy: the versions that IAM keeps of it stay far from IAM's bound of five.
use analytics_platform_contr.Prelude.{
  ◌≡◌, refl, Text, teq, teq_comm, teq_refl, mem, true, false, not, List, [], ◌∷◌, filter, length,
  leb, arith, filter-missing, IsDistinct,
}
use analytics_platform_contr.Prelude.Exec.{ok, for_each}
use analytics_platform_contr.Aws.Document.{Document}
use analytics_platform_contr.Aws.Role.{PolicyDocument, saved}
use analytics_platform_contr.Aws.ManagedPolicy.{PolicyClient, delete_versions, save_policy_document}

-- What IAM documents of versions: a policy with four or fewer takes a new one, which becomes the default,
-- and one that is not the default can be deleted. Neither changes the attached roles.
pub record KeepsVersions {Store : Type 0} (client : PolicyClient Store) : Type 0 where
  pub created :
      (d : PolicyDocument) (s : Store) (vs : List Text)
      → client.versions s ≡ ok vs
      → leb (length vs) 4 ≡ true
      → let (result, after) = client.create_version d s in
        (v : Text) × (result ≡ ok tt)
        × (client.versions after ≡ ok (v ∷ vs))
        × (mem v vs ≡ false)
        × (client.default_version_id after ≡ ok v)
        × (client.default_document after ≡ ok d)
        × (client.attached_roles after ≡ client.attached_roles s)
  pub version_deleted :
      (w v : Text) (s : Store) (vs : List Text)
      → client.versions s ≡ ok vs
      → client.default_version_id s ≡ ok v
      → teq w v ≡ false
      → mem w vs ≡ true
      → let (result, after) = client.delete_version w s in
        (result ≡ ok tt)
        × (client.versions after ≡ ok (filter (λ x. not (teq x w)) vs))
        × (client.default_version_id after ≡ ok v)
        × (client.default_document after ≡ client.default_document s)
        × (client.attached_roles after ≡ client.attached_roles s)

-- One version is left, with this document, and the roles are as before.
pub record IsOnly {Store : Type 0} (client : PolicyClient Store) (v : Text) (before after : Store)
    : Type 0 where
  pub versions : client.versions after ≡ ok (v ∷ [])
  pub default_version : client.default_version_id after ≡ ok v
  pub document : client.default_document after ≡ client.default_document before
  pub attached : client.attached_roles after ≡ client.attached_roles before

module _ {Store : Type 0} (client : PolicyClient Store) (laws : KeepsVersions client)
    (v : Text) where
  delete_each :
      (vs : List Text) (s : Store)
      → IsDistinct vs
      → mem v vs ≡ false
      → client.versions s ≡ ok (v ∷ vs)
      → client.default_version_id s ≡ ok v
      → (s' : Store) × (for_each client.delete_version vs s ≡ (ok tt, s')) × IsOnly client v s s'
  unfolding for_each mem
  delete_each [] s h n e f =
      (s, refl, record { versions = e; default_version = f; document = refl; attached = refl })
  delete_each (w ∷ vs) s (fresh, h) n e f =
      let (gone, left, kept, same, roles) =
        laws.version_deleted w v s (v ∷ w ∷ vs) e f (ground arith) (ground (arith, teq_refl w)) in
      let (s', ran, only) =
        delete_each vs (client.delete_version w s).1 h (ground arith)
          (ground (arith, left, filter-missing w vs fresh, teq_comm v w, teq_refl w)) kept in
      (
        s',
        rw gone ran,
        record {
          versions = only.versions;
          default_version = only.default_version;
          document = rw only.document same;
          attached = rw only.attached roles;
        },
      )

  pub delete_versions_lem :
      (vs : List Text) (s : Store)
      → IsDistinct vs
      → mem v vs ≡ false
      → client.versions s ≡ ok (v ∷ vs)
      → client.default_version_id s ≡ ok v
      → (s' : Store) × (delete_versions client (v ∷ vs) s ≡ (ok tt, s')) × IsOnly client v s s'
  unfolding delete_versions
  delete_versions_lem vs s h n e f =
      let (s', ran, only) = delete_each vs s h n e f in
      (s', rw (f, teq_refl v, filter-missing v vs n) ran, only)

module _ {Store : Type 0} (client : PolicyClient Store) (laws : KeepsVersions client) where
  -- Where IAM takes a new version of a policy with four versions or fewer, and deletes any but the
  -- default one: saving a managed policy that has four distinct versions at most succeeds and
  -- leaves one version, the default one, with the saved document, and the same attached roles.
  pub save_policy_document-versions :
      (d : Document) (s : Store) (vs : List Text)
      → client.versions s ≡ ok vs
      → IsDistinct vs
      → leb (length vs) 4 ≡ true
      → (s' : Store) × (v : Text) × (save_policy_document client d s ≡ (ok tt, s'))
        × (client.versions s' ≡ ok (v ∷ []))
        × (client.default_version_id s' ≡ ok v)
        × (client.default_document s' ≡ ok (saved d))
        × (client.attached_roles s' ≡ client.attached_roles s)
  unfolding save_policy_document
  save_policy_document-versions d s vs e h few =
      let (v, made, listed, fresh, default, document, roles) = laws.created (saved d) s vs e few in
      let (s', ran, only) =
        delete_versions_lem client laws v vs (client.create_version (saved d) s).1 h fresh listed
          default in
      (
        s',
        v,
        rw (made, listed) ran,
        only.versions,
        only.default_version,
        rw only.document document,
        rw only.attached roles,
      )
