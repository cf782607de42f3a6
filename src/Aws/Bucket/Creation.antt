-- ===== src/Aws/Bucket/Creation.antt =====
-- What a created bucket is told, and what its tags are, where no call fails.
use analytics_platform_contr.Prelude.{
  ◌≡◌, ◌≢◌, ◌∙◌, ap, refl, ℕ, Text, codes, ◌==◌, Bool, true, false, Option, none, some,
  Option-cases, List, [], ◌∷◌, ◌++◌, arith, if◌then◌else◌,
}
use analytics_platform_contr.Prelude.Dicts.{get, get_last, or_else, put_all, get-put_all, put_key}
use analytics_platform_contr.Prelude.Exec.{Result, Exec, ok, err, ◌>>◌}
use analytics_platform_contr.Aws.Bucket.{
  ClientError, not_found, not_available, Setting, versioning, tags, logging, encryption,
  public_access_block, bucket_policy, S3Client, skip_no_such_bucket, already_exists_error, raised,
  existing_tag_set, merged_tags, lifecycle_config, tls_statement, told, apply_lifecycle_config,
  put_tags, tag_bucket, create_and_tier, secure, create,
}
use analytics_platform_contr.Aws.Bucket.Laws.{
  kind, tags_of, KeepsBucket, KeepsSettings, of_kind, warehouse_tags, new_settings,
}
use analytics_platform_contr.Aws.Bucket.Retries.{create_again}

get-merged_tags :
    (k : Text) (new existing : List (Text × Text))
    → get k (merged_tags new existing) ≡ or_else (get_last k new) (get_last k existing)
unfolding merged_tags get
get-merged_tags k new existing = ground (
  arith,
  get-put_all k new (put_all existing []),
  get-put_all k existing [],
  Option-cases (get_last k existing),
)

module _ {Store : Type 0} (client : S3Client Store) (name : Text) (keeps : KeepsBucket client name)
    (setting : ℕ → Store → Option Setting) (laws : KeepsSettings client name setting) where
  -- A bucket that is there, with these settings
  abbrev Has : (ℕ → Option Setting) → Store → Type 0
  Has f s = (client.head_bucket name s ≡ ok tt) × ((k : ℕ) → setting k s ≡ f k)

  abbrev Leaves : {E : Type 0} → (ℕ → Option Setting) → Result E Unit × Store → Type 0
  Leaves f r = (r.0 ≡ ok tt) × Has f r.1

  abbrev with_setting : Setting → (ℕ → Option Setting) → ℕ → Option Setting
  with_setting c f k = if k == kind c then some c else f k

  put-Leaves :
      (c : Setting) (f : ℕ → Option Setting) (s : Store)
      → Has f s
      → Leaves (with_setting c f) (client.put name c s)
  put-Leaves c f s h = (
    laws.put_ok c s h.0,
    (keeps.there-put c s h.0, λ k. ground (arith, laws.setting-put c s k h.0, h.1 k)),
  )

  bind-Leaves :
      {E : Type 0} (m n : Exec E Store Unit) (f g : ℕ → Option Setting) (s : Store)
      → Leaves f (m s)
      → ((t : Store) → Has f t → Leaves g (n t))
      → Leaves g ((m >> n) s)
  bind-Leaves m n f g s h next = rw h.0 (next (m s).1 h.1)

  told-Leaves :
      {E F : Type 0} (t : Result E Unit → Result F Unit) (m : Exec E Store Unit)
      (f : ℕ → Option Setting) (s : Store)
      → t (ok tt) ≡ ok tt
      → Leaves f (m s)
      → Leaves f (told t m s)
  told-Leaves t m f s e h = (ap t h.0 ∙ e, h.1)

  abbrev no_setting : ℕ → Option Setting
  no_setting k = none

  -- A setting after what a method leaves
  then_put-Leaves :
      (m : Exec ClientError Store Unit) (c : Setting) (f : ℕ → Option Setting) (s : Store)
      → Leaves f (m s)
      → Leaves (with_setting c f) ((m >> client.put name c) s)
  then_put-Leaves m c f s h =
      bind-Leaves m (client.put name c) f (with_setting c f) s h (put-Leaves c f)

  create-Leaves :
      (region : Text) (s : Store)
      → client.head_bucket name s ≡ err not_found
      → Leaves no_setting (client.create_bucket name region s)
  create-Leaves region s h = (
    laws.created region s h,
    (keeps.there-create region s (laws.created region s h), λ k. laws.setting-create region s k h),
  )

  lifecycle-Leaves :
      (f : ℕ → Option Setting) (s : Store)
      → Has f s
      → Leaves (with_setting (lifecycle_config name) f) (apply_lifecycle_config client name s)
  unfolding apply_lifecycle_config skip_no_such_bucket
  lifecycle-Leaves f s h =
      let c = lifecycle_config name in
      told-Leaves skip_no_such_bucket (client.put name c) (with_setting c f) s refl
        (put-Leaves c f s h)

  put_tags_read :
      (new existing : List (Text × Text)) (s : Store)
      → existing_tag_set (client.tag_set name s) ≡ ok existing
      → put_tags client name new s ≡ client.put name (tags (merged_tags new existing)) s
  unfolding put_tags
  put_tags_read new existing s h = ground (arith, h)

  -- The tags of a bucket that has none
  put_tags-Leaves :
      (f : ℕ → Option Setting) (s : Store)
      → f 2 ≡ none
      → Has f s
      → Leaves (with_setting (tags warehouse_tags) f) (put_tags client name warehouse_tags s)
  unfolding existing_tag_set merged_tags put_all tags_of put_key
  put_tags-Leaves f s e h =
      rw (put_tags_read warehouse_tags [] s (ground (arith, laws.tag_set_read s h.0, h.1 2, e)))
        (put-Leaves (tags warehouse_tags) f s h)

  secure-Leaves :
      (logs : Text) (f : ℕ → Option Setting) (s : Store)
      → Has f s
      → Leaves
          (with_setting (bucket_policy (tls_statement name ∷ [])) (
            with_setting (public_access_block true true true true) (
              with_setting
                (encryption (codes "AES256"))
                (with_setting (logging logs (name ++ codes "/")) f))))
          (secure client name logs s)
  unfolding secure
  secure-Leaves logs f s h =
      let l = logging logs (name ++ codes "/") in
      let e = encryption (codes "AES256") in
      let b = public_access_block true true true true in
      let to_encryption = client.put name l >> client.put name e in
      then_put-Leaves (to_encryption >> client.put name b) (bucket_policy (tls_statement name ∷ []))
        _ s
        (then_put-Leaves to_encryption b _ s
          (then_put-Leaves (client.put name l) e _ s (put-Leaves l f s h)))

  abbrev tiered : ℕ → Option Setting
  tiered = with_setting (lifecycle_config name) (with_setting versioning no_setting)

  tier-Leaves :
      (region : Text) (s : Store)
      → client.head_bucket name s ≡ err not_found
      → Leaves tiered (
          (client.create_bucket name region
              >> client.put name versioning
              >> apply_lifecycle_config client name)
            s)
  tier-Leaves region s h =
      bind-Leaves (client.create_bucket name region >> client.put name versioning)
        (apply_lifecycle_config client name) _ tiered s
        (then_put-Leaves (client.create_bucket name region) versioning no_setting s
          (create-Leaves region s h))
        (lifecycle-Leaves (with_setting versioning no_setting))

  tiered_or_tagged : Bool → ℕ → Option Setting
  tiered_or_tagged true = with_setting (tags warehouse_tags) tiered
  tiered_or_tagged false = tiered

  tiered_no_tags : tiered 2 ≡ none
  unfolding kind lifecycle_config
  tiered_no_tags = ground arith

  create_and_tier-Leaves :
      (region : Text) (wh : Bool) (s : Store)
      → client.head_bucket name s ≡ err not_found
      → Leaves (tiered_or_tagged wh) (create_and_tier client name region wh s)
  unfolding create_and_tier tiered_or_tagged
  create_and_tier-Leaves region true s h =
      let m =
        client.create_bucket name region
        >> client.put name versioning
        >> apply_lifecycle_config client name in
      bind-Leaves m (put_tags client name warehouse_tags) tiered
        (with_setting (tags warehouse_tags) tiered) s (tier-Leaves region s h)
        (λ t. put_tags-Leaves tiered t tiered_no_tags)
  create_and_tier-Leaves region false s h =
      let m =
        client.create_bucket name region
        >> client.put name versioning
        >> apply_lifecycle_config client name in
      bind-Leaves m (λ t. (ok tt, t)) tiered tiered s (tier-Leaves region s h)
        (λ t has. (refl, has))

  abbrev secured : Text → (ℕ → Option Setting) → ℕ → Option Setting
  secured logs f = with_setting (bucket_policy (tls_statement name ∷ [])) (
      with_setting (public_access_block true true true true) (
        with_setting (encryption (codes "AES256"))
          (with_setting (logging logs (name ++ codes "/")) f)))

  create-Leaves_all :
      (region logs : Text) (wh : Bool) (s : Store)
      → client.head_bucket name s ≡ err not_found
      → Leaves (secured logs (tiered_or_tagged wh)) (create client name region logs wh s)
  unfolding create already_exists_error raised
  create-Leaves_all region logs wh s h =
      let f = tiered_or_tagged wh in
      let m = create_and_tier client name region wh in
      bind-Leaves (told already_exists_error m) (told raised (secure client name logs)) f
        (secured logs f) s
        (told-Leaves already_exists_error m f s refl (create_and_tier-Leaves region wh s h))
        (λ t has.
          told-Leaves raised (secure client name logs) (secured logs f) t refl
            (secure-Leaves logs f t has))

  secured-new_settings :
      (logs : Text) (wh : Bool) (k : ℕ)
      → secured logs (tiered_or_tagged wh) k ≡ of_kind k (new_settings name logs wh)
  unfolding tiered_or_tagged of_kind new_settings kind lifecycle_config tls_statement
  secured-new_settings logs true k = ground arith
  secured-new_settings logs false k = ground arith

  -- Where S3 takes every call and keeps the last setting of each kind: creating a bucket that is
  -- not there succeeds, the bucket has versioning, the lifecycle rule, the logs, the encryption,
  -- the block of public access, the policy that denies insecure transport, the tag of a data
  -- warehouse just if it is one, and no other setting; creating it again raises
  -- BucketAlreadyExistsError and changes nothing.
  pub create_lem :
      (region logs : Text) (is_data_warehouse : Bool) (s : Store)
      → client.head_bucket name s ≡ err not_found
      → let r = create client name region logs is_data_warehouse s in
        (r.0 ≡ ok tt)
        × ((k : ℕ) → setting k r.1 ≡ of_kind k (new_settings name logs is_data_warehouse))
        × (create client name region logs is_data_warehouse r.1 ≡ (err not_available, r.1))
  create_lem region logs wh s h =
      let after = create-Leaves_all region logs wh s h in
      let there = after.1.0 in
      (
        after.0,
        λ k. after.1.1 k ∙ secured-new_settings logs wh k,
        create_again client name keeps region logs wh (create client name region logs wh s).1 there,
      )

  tag_bucket-Leaves :
      (new existing : List (Text × Text)) (s : Store)
      → client.head_bucket name s ≡ ok tt
      → existing_tag_set (tags_of (setting 2 s)) ≡ ok existing
      → Leaves
          (with_setting (tags (merged_tags new existing)) (λ k. setting k s))
          (tag_bucket client name new s)
  unfolding tag_bucket skip_no_such_bucket
  tag_bucket-Leaves new existing s h e =
      let d = merged_tags new existing in
      let read = ap existing_tag_set (laws.tag_set_read s h) ∙ e in
      told-Leaves skip_no_such_bucket (put_tags client name new)
        (with_setting (tags d) (λ k. setting k s)) s refl
        (rw (put_tags_read new existing s read)
          (put-Leaves (tags d) (λ k. setting k s) s (h, λ k. refl)))

  -- Where S3 takes every call and keeps the last setting of each kind: tagging a bucket that is
  -- there succeeds; the value of a tag is the new one if there is one, and else the one that it
  -- had; the other settings are as before.
  pub tag_bucket_lem :
      (new existing : List (Text × Text)) (s : Store)
      → client.head_bucket name s ≡ ok tt
      → existing_tag_set (tags_of (setting 2 s)) ≡ ok existing
      → let r = tag_bucket client name new s in
        (r.0 ≡ ok tt)
        × ((d : List (Text × Text)) × (setting 2 r.1 ≡ some (tags d))
            × ((k : Text) → get k d ≡ or_else (get_last k new) (get_last k existing)))
        × ((k : ℕ) → k ≢ 2 → setting k r.1 ≡ setting k s)
  unfolding kind
  tag_bucket_lem new existing s h e =
      let after = tag_bucket-Leaves new existing s h e in
      (
        after.0,
        (
          merged_tags new existing,
          ground (arith, after.1.1 2),
          λ k. get-merged_tags k new existing,
        ),
        λ k n. ground (arith, after.1.1 k),
      )
