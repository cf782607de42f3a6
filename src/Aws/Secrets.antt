-- ===== src/Aws/Secrets.antt =====
-- `AWSSecretManager` of controlpanel/api/aws.py. The client of Secrets Manager and base64 are
-- parameters; a secret is a dictionary, kept as JSON, or bytes.
pub mod Laws
use analytics_platform_contr.Prelude.{
  Text, Bool, true, false, Option, none, some, List, [], ◌∷◌, if◌then◌else◌,
}
use analytics_platform_contr.Prelude.Dicts.{put_all, del_all}
use analytics_platform_contr.Prelude.Exec.{Result, Exec, ok, err, pure, raise, ◌>>=◌}

-- A ClientError: its code is ResourceNotFoundException, or another.
pub data ClientError : Type 0 where
  resource_not_found other_code : ClientError

-- SecretString, the JSON of a dictionary, or SecretBinary
pub data Secret : Type 0 where
  secret_string : List (Text × Text) → Secret
  secret_binary : Text → Secret

-- What the callers pass and get: a dictionary or bytes.
pub data SecretData : Type 0 where
  entries : List (Text × Text) → SecretData
  bytes : Text → SecretData

pub record Base64 : Type 0 where
  pub b64encode : Text → Text
  pub b64decode : Text → Text

pub record SecretsClient (Store : Type 0) : Type 0 where
  pub get_secret_value : Text → Store → Result ClientError Secret
  pub create_secret : Text → Secret → Exec ClientError Store Unit
  pub update_secret : Text → Secret → Exec ClientError Store Unit
  pub delete_secret : Text → Bool → Exec ClientError Store Unit

-- AWSSecretManagerError, raised from the client's error
pub data SecretManagerError : Type 0 where
  raised_from : ClientError → SecretManagerError

unfoldable pub wrapped : {A : Type 0} → Result ClientError A → Result SecretManagerError A
wrapped (ok a) = ok a
wrapped (err e) = err (raised_from e)

-- `except ClientError`: False for ResourceNotFoundException, and the error of the class for others
unfoldable pub not_found_is_false : Result ClientError Bool → Result SecretManagerError Bool
not_found_is_false (ok b) = ok b
not_found_is_false (err resource_not_found) = ok false
not_found_is_false (err other_code) = err (raised_from other_code)

-- What is kept of the data
unfoldable pub secret_of : Base64 → SecretData → Secret
secret_of b64 (entries d) = secret_string d
secret_of b64 (bytes t) = secret_binary (b64.b64encode t)

unfoldable pub data_of : Base64 → Secret → SecretData
data_of b64 (secret_string d) = entries d
data_of b64 (secret_binary t) = bytes (b64.b64decode t)

-- The dictionary of a secret; bytes count as an empty one.
unfoldable pub origin_data : Secret → List (Text × Text)
origin_data (secret_string d) = d
origin_data (secret_binary t) = []

module _ {Store : Type 0} (client : SecretsClient Store) where
  unfoldable pub has_existed : Text → Exec SecretManagerError Store Bool
  has_existed name s = elim (client.get_secret_value name s) [
    | ok _ ↦ (ok true, s)
    | err e ↦ (not_found_is_false (err e), s)
  ]

  unfoldable pub create_secret : Base64 → Text → SecretData → Exec SecretManagerError Store Unit
  create_secret b64 name value s =
      let (r, s') = client.create_secret name (secret_of b64 value) s in (wrapped r, s')

  unfoldable pub get_secret : Base64 → Text → Exec SecretManagerError Store SecretData
  get_secret b64 name s = elim (client.get_secret_value name s) [
    | ok secret ↦ (ok (data_of b64 secret), s)
    | err e ↦ (err (raised_from e), s)
  ]

  -- The secret that an update writes: bytes replace what is there, a dictionary is merged into it.
  unfoldable pub updated : Base64 → SecretData → Secret → Secret
  updated b64 (bytes t) old = secret_binary (b64.b64encode t)
  updated b64 (entries d) old = secret_string (put_all d (origin_data old))

  -- `update_secret`, which returns None, here true, or False where there is no such secret
  unfoldable pub update_secret : Base64 → Text → SecretData → Exec SecretManagerError Store Bool
  update_secret b64 name value s = elim (client.get_secret_value name s) [
    | err e ↦ (not_found_is_false (err e), s)
    | ok old ↦
        let (r, s') = client.update_secret name (updated b64 value old) s in
        (elim r [ ok _ ↦ ok true | err e ↦ not_found_is_false (err e) ], s')
  ]

  -- The call that `delete_keys_in_secret` makes for a dictionary
  unfoldable pub put_without :
      Text → List Text → List (Text × Text) → Exec SecretManagerError Store Bool
  put_without name keys d s =
      let (r, s') = client.update_secret name (secret_string (del_all keys d)) s in
      (elim r [ ok _ ↦ ok true | err e ↦ not_found_is_false (err e) ], s')

  -- Bytes are left alone.
  unfoldable pub delete_keys_in_secret : Text → List Text → Exec SecretManagerError Store Bool
  delete_keys_in_secret name keys s = elim (client.get_secret_value name s) [
    | err e ↦ (not_found_is_false (err e), s)
    | ok (secret_string d) ↦ put_without name keys d s
    | ok (secret_binary t) ↦ (ok false, s)
  ]

  unfoldable pub delete_secret : Text → Bool → Exec SecretManagerError Store Unit
  delete_secret name without_recovery = do
    existed ← has_existed name
    if existed
        then (λ s. let (r, s') = client.delete_secret name without_recovery s in (wrapped r, s'))
        else pure tt

  -- The result of `update_secret` is dropped by the callers, and here.
  unfoldable pub create_or_update : Base64 → Text → SecretData → Exec SecretManagerError Store Unit
  create_or_update b64 name value = do
    existed ← has_existed name
    if existed then (do r ← update_secret b64 name value; pure tt) else create_secret b64 name value

  unfoldable pub get_secret_if_found : Base64 → Text → Exec SecretManagerError Store SecretData
  get_secret_if_found b64 name = do
    existed ← has_existed name
    if existed then get_secret b64 name else pure (entries [])
