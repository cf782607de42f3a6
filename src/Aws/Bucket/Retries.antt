-- ===== src/Aws/Bucket/Retries.antt =====
-- A creation that is called again, after one that went through or stopped in between.
use analytics_platform_contr.Prelude.{
  ◌≡◌, Text, codes, Bool, true, false, List, [], ◌∷◌, ◌++◌, arith, if◌then◌else◌,
}
use analytics_platform_contr.Prelude.Exec.{Result, Exec, ok, err, go_on, ◌>>◌}
use analytics_platform_contr.Aws.Bucket.{
  ClientError, not_available, Setting, versioning, tags, logging, encryption, public_access_block,
  bucket_policy, S3Client, already_exists_error, raised, existing_tag_set, merged_tags,
  lifecycle_config, tls_statement, told, apply_lifecycle_config, put_tags, create_and_tier, secure,
  create,
}
use analytics_platform_contr.Aws.Bucket.Laws.{KeepsBucket, warehouse_tags}

module _ {Store : Type 0} (client : S3Client Store) (name : Text)
    (keeps : KeepsBucket client name) where
  -- The bucket is there after a method, whether it raises or not.
  abbrev IsThere : {E : Type 0} → Result E Unit × Store → Type 0
  IsThere r = client.head_bucket name r.1 ≡ ok tt

  abbrev StaysAfter : {E : Type 0} → Exec E Store Unit → Type 0
  StaysAfter m = (s : Store) → client.head_bucket name s ≡ ok tt → IsThere (m s)

  go_on-IsThere :
      {E : Type 0} (n : Exec E Store Unit) (r : Result E Unit) (s : Store)
      → StaysAfter n
      → client.head_bucket name s ≡ ok tt
      → IsThere (go_on r (λ u. n) s)
  go_on-IsThere n (ok u) s stays h = stays s h
  go_on-IsThere n (err e) s stays h = h

  bind-IsThere :
      {E : Type 0} (m n : Exec E Store Unit) (s : Store)
      → IsThere (m s)
      → StaysAfter n
      → IsThere ((m >> n) s)
  bind-IsThere m n s h stays = go_on-IsThere n (m s).0 (m s).1 stays h

  put-IsThere :
      (m : Exec ClientError Store Unit) (c : Setting) (s : Store)
      → IsThere (m s)
      → IsThere ((m >> client.put name c) s)
  put-IsThere m c s h = bind-IsThere m (client.put name c) s h (keeps.there-put c)

  put_tags-StaysAfter : (new : List (Text × Text)) → StaysAfter (put_tags client name new)
  unfolding put_tags
  put_tags-StaysAfter new s h =
      elim (existing_tag_set (client.tag_set name s))
        as (λ r. IsThere {E = ClientError} (elim r [
          | err e ↦ (err e, s)
          | ok existing ↦ client.put name (tags (merged_tags new existing)) s
        ])) [ err e ↦ h | ok existing ↦ keeps.there-put (tags (merged_tags new existing)) s h ]

  secure-StaysAfter : (logs : Text) → StaysAfter (secure client name logs)
  unfolding secure
  secure-StaysAfter logs s h =
      let l = logging logs (name ++ codes "/") in
      let e = encryption (codes "AES256") in
      let b = public_access_block true true true true in
      let m = client.put name l >> client.put name e in
      put-IsThere (m >> client.put name b) (bucket_policy (tls_statement name ∷ [])) s
        (put-IsThere m b s (put-IsThere (client.put name l) e s (keeps.there-put l s h)))

  create_and_tier-IsThere :
      (region : Text) (wh : Bool) (s : Store)
      → (client.create_bucket name region s).0 ≡ ok tt
      → IsThere (create_and_tier client name region wh s)
  unfolding create_and_tier apply_lifecycle_config
  create_and_tier-IsThere region wh s h =
      let m = client.create_bucket name region >> client.put name versioning in
      let l = apply_lifecycle_config client name in
      let w = if wh then put_tags client name warehouse_tags else (λ t. (ok tt, t)) in
      bind-IsThere (m >> l) w s
        (bind-IsThere m l s
          (put-IsThere (client.create_bucket name region) versioning s
            (keeps.there-create region s h))
          (keeps.there-put (lifecycle_config name)))
        (elim wh
          as (λ b.
            StaysAfter (if b then put_tags client name warehouse_tags else (λ t. (ok tt, t)))) [
              | true ↦ put_tags-StaysAfter warehouse_tags
              | false ↦ λ t there. there
            ])

  pub create_again :
      (region logs : Text) (wh : Bool) (s : Store)
      → client.head_bucket name s ≡ ok tt
      → create client name region logs wh s ≡ (err not_available, s)
  unfolding create create_and_tier already_exists_error
  create_again region logs wh s h = ground (arith, keeps.taken region s h)

  -- Where a bucket that is there stays so, and cannot be created again: whichever later call fails,
  -- once S3 has created the bucket it is there after create, and the next create raises
  -- BucketAlreadyExistsError and tells the bucket nothing more.
  pub create-retry :
      (region logs : Text) (is_data_warehouse : Bool) (s : Store)
      → (client.create_bucket name region s).0 ≡ ok tt
      → let r = create client name region logs is_data_warehouse s in
        (client.head_bucket name r.1 ≡ ok tt)
        × (create client name region logs is_data_warehouse r.1 ≡ (err not_available, r.1))
  unfolding create
  create-retry region logs wh s h =
      let there =
        bind-IsThere (told already_exists_error (create_and_tier client name region wh))
          (told raised (secure client name logs)) s (create_and_tier-IsThere region wh s h)
          (secure-StaysAfter logs) in
      (there, create_again region logs wh (create client name region logs wh s).1 there)
