-- ===== src/Aws/ManagedPolicy/Tests.antt =====
-- A managed policy kept as a record, and the theorems on managed policies at one that has an old version.
use analytics_platform_contr.Prelude.{
  ◌≡◌, refl, Text, codes, teq, teq_iff, teq_comm, mem, Bool, true, false, not, List, [], ◌∷◌, ◌++◌,
  filter, length, leb, length-append, arith, Bool-cases, inl, inr, ap,
}
use analytics_platform_contr.Prelude.Exec.{Result, ok, err}
use analytics_platform_contr.Aws.Samples.{flat_md5, bucket, stored, readwrite_level}
use analytics_platform_contr.Aws.S3AccessPolicy.Resources.{resources}
use analytics_platform_contr.Aws.Role.{PolicyDocument, saved}
use analytics_platform_contr.Aws.Role.Access.{granted_view}
use analytics_platform_contr.Aws.ManagedPolicy.{
  Error, no_such_entity, PolicyClient, save_policy_document, update_policy_members, delete_policy,
  grant_policy_bucket_access,
}
use analytics_platform_contr.Aws.ManagedPolicy.Versions.{
  KeepsVersions, save_policy_document-versions,
}
use analytics_platform_contr.Aws.ManagedPolicy.Members.{
  KeepsRoles, TakesRoles, update_policy_members_lem, delete_policy_lem,
}
use analytics_platform_contr.Aws.ManagedPolicy.Access.{
  IsOpen, IsSaved, grant_policy_bucket_access-view,
}

-- The ids of the versions, the default one first, with its document
record Managed : Type 0 where
  live : Bool
  versions : List Text
  document : PolicyDocument
  roles : List Text
  known : List Text

abbrev first_of : List Text → Result Error Text
first_of [] = err no_such_entity
first_of (v ∷ vs) = ok v

abbrev concat : List Text → Text
concat [] = []
concat (v ∷ vs) = v ++ concat vs

-- An id that is longer than all ids in use
abbrev fresh_id : List Text → Text
fresh_id vs = 118 ∷ concat vs

abbrev loaded : Bool → Result Error Unit
loaded true = ok tt
loaded false = err no_such_entity

abbrev attach : Bool → Text → Managed → Result Error Unit × Managed
attach true r s = (ok tt, record s { roles = s.roles ++ r ∷ [] })
attach false r s = (err no_such_entity, s)

abbrev managed_client : PolicyClient Managed
managed_client = record {
  create_policy = λ d s. (ok tt, record s { live = true; document = d });
  load = λ s. loaded s.live;
  delete_policy = λ s. (ok tt, record s { live = false });
  default_document = λ s. ok s.document;
  default_version_id = λ s. first_of s.versions;
  versions = λ s. ok s.versions;
  create_version =
      λ d s. (ok tt, record s { versions = fresh_id s.versions ∷ s.versions; document = d });
  delete_version = λ v s. (ok tt, record s { versions = filter (λ w. not (teq w v)) s.versions });
  attached_roles = λ s. ok s.roles;
  attach_role = λ r s. attach (mem r s.known) r s;
  detach_role = λ r s. (ok tt, record s { roles = filter (λ q. not (teq q r)) s.roles });
}

mem_longer :
    (t : Text) (vs : List Text) → mem t vs ≡ true → leb (length t) (length (concat vs)) ≡ true
unfolding mem
mem_longer t [] h = ground arith
mem_longer t (v ∷ vs) h = elim (Bool-cases (teq v t)) [
  | inl e ↦ ground (arith, ap length ((teq_iff v t).0 e), length-append v (concat vs))
  | inr n ↦ ground (arith, mem_longer t vs, length-append v (concat vs))
]

fresh_id_new : (vs : List Text) → mem (fresh_id vs) vs ≡ false
fresh_id_new vs = ground (arith, mem_longer (fresh_id vs) vs, Bool-cases (mem (fresh_id vs) vs))

first_left :
    (w v : Text) (vs : List Text)
    → first_of vs ≡ ok v
    → teq w v ≡ false
    → first_of (filter (λ x. not (teq x w)) vs) ≡ ok v
first_left w v [] e n = ground arith
first_left w v (x ∷ vs) e n = ground (arith, teq_comm x w)

abbrev answer : List Text → Result Error (List Text)
answer vs = ok vs

same_ok : (vs ws : List Text) → answer vs ≡ ok ws → vs ≡ ws
same_ok vs ws e = ground arith

managed_client-KeepsVersions : KeepsVersions managed_client
managed_client-KeepsVersions = record {
  created = λ d s vs e few. (
    fresh_id s.versions,
    refl,
    rw (same_ok s.versions vs e) refl,
    rw (← same_ok s.versions vs e) (fresh_id_new s.versions),
    refl,
    refl,
    refl,
  );
  version_deleted = λ w v s vs e f n m.
      (refl, rw (same_ok s.versions vs e) refl, first_left w v s.versions f n, refl, refl);
}

abbrev is_known : Text → Managed → Bool
is_known r s = mem r s.known

managed_client-TakesRoles : TakesRoles managed_client is_known
managed_client-TakesRoles = record {
  attached = λ r s rs e n k. rw k (refl, rw (same_ok s.roles rs e) refl, λ q m. refl);
  refused = λ r s n. (no_such_entity, rw n refl);
}

managed_client-KeepsRoles : KeepsRoles managed_client
managed_client-KeepsRoles = record {
  detached = λ r s rs e m. (refl, rw (same_ok s.roles rs e) refl, refl, refl);
  policy_deleted = λ v s e f g. (refl, refl);
}

abbrev old_version : Text
old_version = codes "v1"

abbrev new_version : Text
new_version = codes "v2"

abbrev alice : Text
alice = codes "alice"

abbrev bob : Text
bob = codes "bob"

abbrev carol : Text
carol = codes "carol"

abbrev policy : Managed
policy = record {
  live = true;
  versions = new_version ∷ old_version ∷ [];
  document = saved stored;
  roles = alice ∷ bob ∷ [];
  known = alice ∷ bob ∷ carol ∷ [];
}

policy-IsOpen : IsOpen managed_client policy stored
unfolding saved mem teq
policy-IsOpen = record {
  document = (saved stored, refl, refl);
  sids = refl;
  unique = ((λ t h. refl), tt);
  versions = (new_version ∷ old_version ∷ [], refl, (refl, (refl, tt)), refl);
}

save_policy_document-versions_example :
    (s' : Managed) × (v : Text) × (save_policy_document managed_client [] policy ≡ (ok tt, s'))
    × (managed_client.versions s' ≡ ok (v ∷ []))
    × (managed_client.default_version_id s' ≡ ok v)
    × (managed_client.default_document s' ≡ ok (saved []))
    × (managed_client.attached_roles s' ≡ ok (alice ∷ bob ∷ []))
unfolding mem teq
save_policy_document-versions_example =
    save_policy_document-versions managed_client managed_client-KeepsVersions [] policy
      (new_version ∷ old_version ∷ []) refl (refl, (refl, tt)) refl

new_are_known :
    (q : Text)
    → mem q (carol ∷ bob ∷ []) ≡ true
    → mem q (alice ∷ bob ∷ []) ≡ false
    → mem q (alice ∷ bob ∷ carol ∷ []) ≡ true
unfolding mem
new_are_known q m n = ground arith

update_policy_members_lem_example :
    (s' : Managed) × (left : List Text) × (update_policy_members managed_client
        (carol ∷ bob ∷ [])
        policy
      ≡ (ok tt, s'))
    × (managed_client.attached_roles s' ≡ ok left)
    × ((q : Text) → mem q left ≡ mem q (carol ∷ bob ∷ []))
unfolding mem teq
update_policy_members_lem_example =
    update_policy_members_lem managed_client managed_client-KeepsRoles is_known
      managed_client-TakesRoles (carol ∷ bob ∷ []) (alice ∷ bob ∷ []) policy refl (refl, (refl, tt))
      (refl, (refl, tt)) new_are_known

delete_policy_lem_example :
    (s' : Managed) × (delete_policy managed_client policy ≡ (ok tt, s'))
    × (loaded s'.live ≡ err no_such_entity)
    × (delete_policy managed_client s' ≡ (ok tt, s'))
unfolding mem teq
delete_policy_lem_example =
    delete_policy_lem managed_client managed_client-KeepsRoles new_version (old_version ∷ [])
      (alice ∷ bob ∷ []) policy managed_client-KeepsVersions refl refl (refl, (refl, tt)) refl refl
      (refl, (refl, tt))

grant_policy_bucket_access-view_example :
    (s' : Managed) × (q : List _) × (grant_policy_bucket_access managed_client flat_md5 bucket
        (codes "readwrite")
        []
        policy
      ≡ (ok tt, s'))
    × IsSaved managed_client policy s' q
    × (resources (codes "readwrite") q
        ≡ granted_view bucket
            (codes "readwrite")
            []
            (codes "readwrite")
            (resources (codes "readwrite") stored))
grant_policy_bucket_access-view_example =
    grant_policy_bucket_access-view managed_client managed_client-KeepsVersions policy stored
      policy-IsOpen flat_md5 bucket (codes "readwrite") [] (codes "readwrite") readwrite_level
