-- ===== src/Aws/Bucket.antt =====
-- `AWSBucket` of controlpanel/api/aws.py: the creation of a bucket, its tags, and whether it is there. The
-- client of S3 is a parameter; the settings that it is sent are data.
pub mod Laws
pub mod Creation
pub mod Retries
pub mod OneBucket
mod Tests
use analytics_platform_contr.Prelude.{
  ℕ, Text, codes, Bool, true, false, List, [], ◌∷◌, ◌++◌, if◌then◌else◌,
}
use analytics_platform_contr.Prelude.Dicts.{put_all}
use analytics_platform_contr.Prelude.Exec.{Result, Exec, ok, err, pure, ◌>>◌}

-- The codes of the client's errors that the methods tell from others
pub data ClientError : Type 0 where
  already_owned_by_you already_exists no_such_bucket no_such_tag_set not_found other_code :
      ClientError

-- BucketAlreadyExistsError, or an error of the client
pub data Error : Type 0 where
  not_available : Error
  raised_from : ClientError → Error

-- BUCKET_TLS_STATEMENT: `secure_transport` is the value under "Bool" of the condition.
pub record PolicyStatement : Type 0 where
  pub sid : Text
  pub action : Text
  pub effect : Text
  pub principal : Text
  pub resources : List Text
  pub secure_transport : Text

-- What a bucket is told: a rule is an id, the days, and the class of storage.
pub data Setting : Type 0 where
  versioning : Setting
  lifecycle : Text → ℕ → Text → Setting
  tags : List (Text × Text) → Setting
  logging : Text → Text → Setting
  encryption : Text → Setting
  public_access_block : Bool → Bool → Bool → Bool → Setting
  bucket_policy : List PolicyStatement → Setting

-- The calls on S3, the name of the bucket first; `create_bucket` has the region, and is always private.
pub record S3Client (Store : Type 0) : Type 0 where
  pub head_bucket : Text → Store → Result ClientError Unit
  pub tag_set : Text → Store → Result ClientError (List (Text × Text))
  pub create_bucket : Text → Text → Exec ClientError Store Unit
  pub put : Text → Setting → Exec ClientError Store Unit

-- `except … NoSuchBucket`: a warning
unfoldable pub skip_no_such_bucket : Result ClientError Unit → Result ClientError Unit
skip_no_such_bucket (ok u) = ok u
skip_no_such_bucket (err no_such_bucket) = ok tt
skip_no_such_bucket (err e) = err e

-- The two `except` of `create`
unfoldable pub already_exists_error : Result ClientError Unit → Result Error Unit
already_exists_error (ok u) = ok u
already_exists_error (err already_owned_by_you) = err not_available
already_exists_error (err already_exists) = err not_available
already_exists_error (err e) = err (raised_from e)

unfoldable pub raised : Result ClientError Unit → Result Error Unit
raised (ok u) = ok u
raised (err e) = err (raised_from e)

-- The existing tags, none for NoSuchTagSet
unfoldable pub existing_tag_set :
    Result ClientError (List (Text × Text)) → Result ClientError (List (Text × Text))
existing_tag_set (ok d) = ok d
existing_tag_set (err no_such_tag_set) = ok []
existing_tag_set (err e) = err e

-- {**tags_existing, **tags}
unfoldable pub merged_tags : List (Text × Text) → List (Text × Text) → List (Text × Text)
merged_tags new existing = put_all new (put_all existing [])

unfoldable pub lifecycle_config : Text → Setting
lifecycle_config bucket_name =
    lifecycle (bucket_name ++ codes "_lifecycle_configuration") 0 (codes "INTELLIGENT_TIERING")

unfoldable pub tls_statement : Text → PolicyStatement
tls_statement bucket_name = record {
  sid = codes "DenyInsecureTransport";
  action = codes "s3:*";
  effect = codes "Deny";
  principal = codes "*";
  resources =
      (codes "arn:aws:s3:::" ++ bucket_name)
      ∷ (codes "arn:aws:s3:::" ++ (bucket_name ++ codes "/*"))
      ∷ [];
  secure_transport = codes "false";
}

-- A method whose result is told otherwise
abbrev pub told : {E F S : Type 0} → (Result E Unit → Result F Unit) → Exec E S Unit → Exec F S Unit
told f m s = let (r, s') = m s in (f r, s')

module _ {Store : Type 0} (client : S3Client Store) (bucket_name : Text) where
  -- True but for the code 404
  unfoldable pub exists : Store → Bool
  exists s = elim (client.head_bucket bucket_name s) [
    | ok _ ↦ true
    | err e ↦ elim e [ not_found ↦ false | _ ↦ true ]
  ]

  unfoldable pub apply_lifecycle_config : Exec ClientError Store Unit
  apply_lifecycle_config =
      told skip_no_such_bucket (client.put bucket_name (lifecycle_config bucket_name))

  -- `_tag_bucket`
  unfoldable pub put_tags : List (Text × Text) → Exec ClientError Store Unit
  put_tags new s = elim (existing_tag_set (client.tag_set bucket_name s)) [
    | err e ↦ (err e, s)
    | ok existing ↦ client.put bucket_name (tags (merged_tags new existing)) s
  ]

  unfoldable pub tag_bucket : List (Text × Text) → Exec ClientError Store Unit
  tag_bucket new = told skip_no_such_bucket (put_tags new)

  -- The `try` of `create`
  unfoldable pub create_and_tier : Text → Bool → Exec ClientError Store Unit
  create_and_tier region is_data_warehouse =
      client.create_bucket bucket_name region
      >> client.put bucket_name versioning
      >> apply_lifecycle_config
      >> (if is_data_warehouse
          then put_tags ((codes "buckettype", codes "datawarehouse") ∷ [])
          else pure tt)

  -- The settings behind it, `_apply_tls_restrictions` being the last
  unfoldable pub secure : Text → Exec ClientError Store Unit
  secure logs =
      client.put bucket_name (logging logs (bucket_name ++ codes "/"))
      >> client.put bucket_name (encryption (codes "AES256"))
      >> client.put bucket_name (public_access_block true true true true)
      >> client.put bucket_name (bucket_policy (tls_statement bucket_name ∷ []))

  -- `create`, with settings.BUCKET_REGION and settings.LOGS_BUCKET_NAME
  unfoldable pub create : Text → Text → Bool → Exec Error Store Unit
  create region logs is_data_warehouse =
      told already_exists_error (create_and_tier region is_data_warehouse)
      >> told raised (secure logs)
