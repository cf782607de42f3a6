-- ===== src/Aws/Bucket/Laws.antt =====
-- What S3 keeps of a bucket, and what a new bucket is told.
use analytics_platform_contr.Prelude.{
  ◌≡◌, ℕ, Text, codes, ◌==◌, Bool, true, Option, none, some, List, [], ◌∷◌, ◌++◌, if◌then◌else◌,
}
use analytics_platform_contr.Prelude.Exec.{Result, ok, err}
use analytics_platform_contr.Aws.Bucket.{
  ClientError, already_owned_by_you, no_such_tag_set, not_found, Setting, versioning, lifecycle,
  tags, logging, encryption, public_access_block, bucket_policy, S3Client, PolicyStatement,
}

-- Which setting of a bucket it is
unfoldable pub kind : Setting → ℕ
kind versioning = 0
kind (lifecycle i d c) = 1
kind (tags d) = 2
kind (logging t p) = 3
kind (encryption a) = 4
kind (public_access_block a b c d) = 5
kind (bucket_policy ps) = 6

unfoldable pub tags_of : Option Setting → Result ClientError (List (Text × Text))
tags_of none = err no_such_tag_set
tags_of (some (tags d)) = ok d
tags_of (some s) = err no_such_tag_set

-- S3 has one bucket of a name: it can be created if it is not there, stays whatever it is told, and a
-- second creation is refused.
pub record KeepsBucket {Store : Type 0} (client : S3Client Store) (name : Text) : Type 0 where
  pub there-create :
      (region : Text) (s : Store)
      → (client.create_bucket name region s).0 ≡ ok tt
      → client.head_bucket name (client.create_bucket name region s).1 ≡ ok tt
  pub there-put :
      (c : Setting) (s : Store)
      → client.head_bucket name s ≡ ok tt
      → client.head_bucket name (client.put name c s).1 ≡ ok tt
  pub taken :
      (region : Text) (s : Store)
      → client.head_bucket name s ≡ ok tt
      → client.create_bucket name region s ≡ (err already_owned_by_you, s)

-- Where no call fails: a bucket that is not there is created with no settings, and one that is there has
-- the last setting of each kind.
pub record KeepsSettings {Store : Type 0} (client : S3Client Store) (name : Text)
    (setting : ℕ → Store → Option Setting) : Type 0 where
  pub created :
      (region : Text) (s : Store)
      → client.head_bucket name s ≡ err not_found
      → (client.create_bucket name region s).0 ≡ ok tt
  pub setting-create :
      (region : Text) (s : Store) (k : ℕ)
      → client.head_bucket name s ≡ err not_found
      → setting k (client.create_bucket name region s).1 ≡ none
  pub put_ok :
      (c : Setting) (s : Store)
      → client.head_bucket name s ≡ ok tt
      → (client.put name c s).0 ≡ ok tt
  pub setting-put :
      (c : Setting) (s : Store) (k : ℕ)
      → client.head_bucket name s ≡ ok tt
      → setting k (client.put name c s).1 ≡ (if k == kind c then some c else setting k s)
  pub tag_set_read :
      (s : Store)
      → client.head_bucket name s ≡ ok tt
      → client.tag_set name s ≡ tags_of (setting 2 s)

-- The setting of a kind in a list that has one of each kind
unfoldable pub of_kind : ℕ → List Setting → Option Setting
of_kind k [] = none
of_kind k (c ∷ cs) = let rest = of_kind k cs in if k == kind c then some c else rest

abbrev pub warehouse_tags : List (Text × Text)
warehouse_tags = (codes "buckettype", codes "datawarehouse") ∷ []

-- The rule that moves every object to the tier INTELLIGENT_TIERING at once
abbrev pub tiering_rule : Text → Setting
tiering_rule name =
    lifecycle (name ++ codes "_lifecycle_configuration") 0 (codes "INTELLIGENT_TIERING")

-- Every action of anybody on the bucket and what is in it is denied where aws:SecureTransport is "false".
abbrev pub deny_insecure_transport : Text → PolicyStatement
deny_insecure_transport name = record {
  sid = codes "DenyInsecureTransport";
  action = codes "s3:*";
  effect = codes "Deny";
  principal = codes "*";
  resources =
      (codes "arn:aws:s3:::" ++ name) ∷ (codes "arn:aws:s3:::" ++ (name ++ codes "/*")) ∷ [];
  secure_transport = codes "false";
}

-- All that a new bucket is told
unfoldable pub new_settings : Text → Text → Bool → List Setting
new_settings name logs is_data_warehouse =
    let rest =
      versioning
      ∷ tiering_rule name
      ∷ logging logs (name ++ codes "/")
      ∷ encryption (codes "AES256")
      ∷ public_access_block true true true true
      ∷ bucket_policy (deny_insecure_transport name ∷ [])
      ∷ [] in
    if is_data_warehouse then tags warehouse_tags ∷ rest else rest
