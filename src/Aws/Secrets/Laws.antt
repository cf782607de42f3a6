-- ===== src/Aws/Secrets/Laws.antt =====
-- What writes to a secret and reads of it come to, where the client keeps what it is given.
use analytics_platform_contr.Prelude.{
  ◌≡◌, ◌≢◌, ◌⊎◌, refl, Text, teq, teq_refl, mem, true, false, none, List, [], arith, if◌then◌else◌,
  inl, inr,
}
use analytics_platform_contr.Prelude.Dicts.{
  IsDict, get, or_else, put_all, get-put_all, del_all, get-del_all,
}
use analytics_platform_contr.Prelude.Exec.{Result, ok, err, ◌>>◌}
use analytics_platform_contr.Aws.Secrets.{
  ClientError, resource_not_found, other_code, Secret, secret_string, SecretData, entries, Base64,
  SecretsClient, has_existed, create_secret, get_secret, update_secret, delete_keys_in_secret,
  put_without, create_or_update, get_secret_if_found, origin_data, secret_of, data_of, updated,
  wrapped, not_found_is_false,
}

-- The client keeps what it is given: a secret that is not there can be created, one that is there can be
-- updated, and a read then finds what was written, and the other secrets as they were.
pub record KeepsSecrets {Store : Type 0} (client : SecretsClient Store) : Type 0 where
  pub created :
      (name : Text) (v : Secret) (s : Store)
      → client.get_secret_value name s ≡ err resource_not_found
      → (client.create_secret name v s).0 ≡ ok tt
  pub updated_ok :
      (name : Text) (v old : Secret) (s : Store)
      → client.get_secret_value name s ≡ ok old
      → (client.update_secret name v s).0 ≡ ok tt
  pub get-create :
      (name other : Text) (v : Secret) (s : Store)
      → client.get_secret_value name s ≡ err resource_not_found
      → client.get_secret_value other (client.create_secret name v s).1
        ≡ (if teq name other then ok v else client.get_secret_value other s)
  pub get-update :
      (name other : Text) (v old : Secret) (s : Store)
      → client.get_secret_value name s ≡ ok old
      → client.get_secret_value other (client.update_secret name v s).1
        ≡ (if teq name other then ok v else client.get_secret_value other s)

-- The entries of a secret as it is, none where there is no such secret.
abbrev pub held : Result ClientError Secret → List (Text × Text)
held (ok v) = origin_data v
held (err e) = []

Result-cases :
    {A : Type 0} (r : Result ClientError A)
    → ((a : A) × (r ≡ ok a)) ⊎ ((e : ClientError) × (r ≡ err e))
Result-cases (ok a) = inl (a, refl)
Result-cases (err e) = inr (e, refl)

module _ {Store : Type 0} (client : SecretsClient Store) (laws : KeepsSecrets client) (b64 : Base64)
    (name : Text) (s : Store) where
  create_or_update_missing :
      (v : SecretData)
      → client.get_secret_value name s ≡ err resource_not_found
      → create_or_update client b64 name v s
        ≡ (ok tt, (client.create_secret name (secret_of b64 v) s).1)
  unfolding create_or_update has_existed create_secret wrapped not_found_is_false
  create_or_update_missing v h = ground (arith, laws.created name (secret_of b64 v) s)

  create_or_update_there :
      (v : SecretData) (old : Secret)
      → client.get_secret_value name s ≡ ok old
      → create_or_update client b64 name v s
        ≡ (ok tt, (client.update_secret name (updated client b64 v old) s).1)
  unfolding create_or_update has_existed update_secret
  create_or_update_there v old h =
      ground (arith, laws.updated_ok name (updated client b64 v old) old s)

  get_secret_if_found_there :
      (v : Secret) (r : Store)
      → client.get_secret_value name r ≡ ok v
      → get_secret_if_found client b64 name r ≡ (ok (data_of b64 v), r)
  unfolding get_secret_if_found has_existed get_secret
  get_secret_if_found_there v r h = ground arith

  read_back :
      (d : List (Text × Text)) (j : Text)
      → client.get_secret_value name s ≢ err other_code
      → IsDict d
      → (e : List (Text × Text)) × (client.get_secret_value name
            (create_or_update client b64 name (entries d) s).1
          ≡ ok (secret_string e))
        × ((create_or_update client b64 name (entries d) s).0 ≡ ok tt)
        × (get j e ≡ or_else (get j d) (get j (held (client.get_secret_value name s))))
  unfolding updated secret_of get
  read_back d j known unique = elim (Result-cases (client.get_secret_value name s)) [
    | inl (old, h) ↦
        let e = create_or_update_there (entries d) old h in
        (
          put_all d (origin_data old),
          ground (
            arith,
            e,
            laws.get-update name name (updated client b64 (entries d) old) old s,
            teq_refl name,
          ),
          rw e refl,
          ground (arith, get-put_all j d (origin_data old), unique j),
        )
    | inr (resource_not_found, h) ↦
        let e = create_or_update_missing (entries d) h in
        (
          d,
          ground (arith, e, laws.get-create name name (secret_of b64 (entries d)) s, teq_refl name),
          rw e refl,
          ground arith,
        )
    | inr (other_code, h) ↦ absurd (known h)
  ]

  -- Where the client keeps what it is given and the first read ends in no other error than that the
  -- secret is not there: creating or updating a secret with a dictionary and reading it gives a
  -- dictionary in which a key has its new value, or else the one it had; every other secret is as
  -- it was.
  pub create_or_update-get :
      (d : List (Text × Text)) (j other : Text)
      → client.get_secret_value name s ≢ err other_code
      → IsDict d
      → teq name other ≡ false
      → let (_, after) = create_or_update client b64 name (entries d) s in
        (e : List (Text × Text)) × ((create_or_update client b64 name (entries d)
              >> get_secret_if_found client b64 name)
            s
          ≡ (ok (entries e), after))
        × (get j e ≡ or_else (get j d) (get j (held (client.get_secret_value name s))))
        × (client.get_secret_value other after ≡ client.get_secret_value other s)
  unfolding data_of
  create_or_update-get d j other known unique apart =
      let (e, there, returned, view) = read_back d j known unique in
      (
        e,
        ground (
          arith,
          there,
          returned,
          get_secret_if_found_there (secret_string e)
              (create_or_update client b64 name (entries d) s).1,
        ),
        view,
        elim (Result-cases (client.get_secret_value name s)) [
          | inl (old, h) ↦ ground (
            arith,
            create_or_update_there (entries d) old h,
            apart,
            laws.get-update name other (updated client b64 (entries d) old) old s,
          )
          | inr (resource_not_found, h) ↦ ground (
            arith,
            create_or_update_missing (entries d) h,
            apart,
            laws.get-create name other (secret_of b64 (entries d)) s,
          )
          | inr (other_code, h) ↦ absurd (known h)
        ],
      )

  -- Deleting keys of a dictionary succeeds, and of the keys that are read after it just these are gone.
  delete_keys-get :
      (keys : List Text) (d : List (Text × Text)) (j : Text)
      → client.get_secret_value name s ≡ ok (secret_string d)
      → let (result, after) = delete_keys_in_secret client name keys s in
        (e : List (Text × Text)) × (result ≡ ok true)
        × (client.get_secret_value name after ≡ ok (secret_string e))
        × (get j e ≡ (if mem j keys then none else get j d))
  unfolding delete_keys_in_secret put_without
  delete_keys-get keys d j h = (
    del_all keys d,
    ground (arith, h, laws.updated_ok name (secret_string (del_all keys d)) (secret_string d) s),
    ground (
      arith,
      h,
      laws.get-update name name (secret_string (del_all keys d)) (secret_string d) s,
      teq_refl name,
    ),
    get-del_all j keys d,
  )
