-- ===== src/Aws/Bucket/Tests.antt =====
-- The theorems on buckets at S3 with one bucket.
use analytics_platform_contr.Prelude.{
  ◌≡◌, ◌≢◌, refl, ℕ, Text, codes, ◌==◌, true, false, none, some, List, [], ◌∷◌, if◌then◌else◌,
}
use analytics_platform_contr.Prelude.Dicts.{get, get_last, or_else}
use analytics_platform_contr.Prelude.Exec.{ok, err}
use analytics_platform_contr.Aws.Bucket.{
  not_found, not_available, versioning, tags, S3Client, create, tag_bucket, existing_tag_set,
  other_code,
}
use analytics_platform_contr.Aws.Bucket.Laws.{kind, tags_of, KeepsBucket, of_kind, new_settings}
use analytics_platform_contr.Aws.Bucket.Creation.{create_lem, tag_bucket_lem}
use analytics_platform_contr.Aws.Bucket.Retries.{create-retry}
use analytics_platform_contr.Aws.Bucket.OneBucket.{
  Store, there, told_of, made, kept, client, name, keeps, laws, made-there, kept-there, made-taken,
}

abbrev region : Text
region = codes "eu-west-1"

abbrev logs : Text
logs = codes "logs"

no_bucket : there none ≡ err not_found
unfolding there
no_bucket = refl

create_lem_example :
    let r = create client name region logs true none in
    (r.0 ≡ ok tt)
    × ((k : ℕ) → told_of k r.1 ≡ of_kind k (new_settings name logs true))
    × (create client name region logs true r.1 ≡ (err not_available, r.1))
create_lem_example = create_lem client name keeps told_of laws region logs true none no_bucket

abbrev new_tags : List (Text × Text)
new_tags = (codes "colour", codes "BLUE") ∷ (codes "buckettype", codes "datawarehouse") ∷ []

abbrev old_tags : List (Text × Text)
old_tags = (codes "colour", codes "red") ∷ (codes "foo", codes "bar") ∷ []

abbrev tagged : Store
tagged = some (tags old_tags ∷ versioning ∷ [])

tagged-there : there tagged ≡ ok tt
unfolding there
tagged-there = refl

tagged_read : existing_tag_set (tags_of (told_of 2 tagged)) ≡ ok old_tags
unfolding existing_tag_set tags_of told_of of_kind kind
tagged_read = refl

tag_bucket_lem_example :
    let r = tag_bucket client name new_tags tagged in
    (r.0 ≡ ok tt)
    × ((d : List (Text × Text)) × (told_of 2 r.1 ≡ some (tags d))
        × ((k : Text) → get k d ≡ or_else (get_last k new_tags) (get_last k old_tags)))
    × ((k : ℕ) → k ≢ 2 → told_of k r.1 ≡ told_of k tagged)
tag_bucket_lem_example =
    tag_bucket_lem client name keeps told_of laws new_tags old_tags tagged tagged-there tagged_read

-- S3, but no setting of encryption is taken.
abbrev failing : S3Client Store
failing = record client {
  put = λ n c s. (if kind c == 4 then err other_code else (kept c s).0, (kept c s).1);
}

failing_keeps : KeepsBucket failing name
failing_keeps = record {
  there-create = λ r s h. made-there s h;
  there-put = λ c s h. kept-there c s h;
  taken = λ r s h. made-taken s h;
}

made-none : (made none).0 ≡ ok tt
unfolding made
made-none = refl

create-retry_example :
    let r = create failing name region logs false none in
    (there r.1 ≡ ok tt) × (create failing name region logs false r.1 ≡ (err not_available, r.1))
create-retry_example = create-retry failing name failing_keeps region logs false none made-none
