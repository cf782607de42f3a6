-- ===== src/Aws/Bucket/OneBucket.antt =====
-- S3 with one bucket: none, or a list of what it was told with the last setting first. It meets the laws.
use analytics_platform_contr.Prelude.{
  ◌≡◌, refl, ℕ, Text, codes, ◌==◌, Option, none, some, List, [], ◌∷◌, arith, if◌then◌else◌,
}
use analytics_platform_contr.Prelude.Exec.{Result, ok, err}
use analytics_platform_contr.Aws.Bucket.{
  ClientError, already_owned_by_you, no_such_bucket, not_found, Setting, S3Client,
}
use analytics_platform_contr.Aws.Bucket.Laws.{kind, tags_of, KeepsBucket, KeepsSettings, of_kind}

abbrev pub Store : Type 0
Store = Option (List Setting)

unfoldable pub there : Store → Result ClientError Unit
there none = err not_found
there (some cs) = ok tt

unfoldable pub told_of : ℕ → Store → Option Setting
told_of k none = none
told_of k (some cs) = of_kind k cs

unfoldable pub made : Store → Result ClientError Unit × Store
made none = (ok tt, some [])
made (some cs) = (err already_owned_by_you, some cs)

unfoldable pub kept : Setting → Store → Result ClientError Unit × Store
kept c none = (err no_such_bucket, none)
kept c (some cs) = (ok tt, some (c ∷ cs))

abbrev pub client : S3Client Store
client = record {
  head_bucket = λ n s. there s;
  tag_set = λ n s. tags_of (told_of 2 s);
  create_bucket = λ n r s. made s;
  put = λ n c s. kept c s;
}

abbrev pub name : Text
name = codes "data"

Store-cases : (s : Store) → there s ≡ ok tt → (cs : List Setting) × (s ≡ some cs)
unfolding there
Store-cases none h = ground (arith, h)
Store-cases (some cs) h = (cs, refl)

pub made-there : (s : Store) → (made s).0 ≡ ok tt → there (made s).1 ≡ ok tt
unfolding made there
made-there none h = refl
made-there (some cs) h = refl

pub kept-there : (c : Setting) (s : Store) → there s ≡ ok tt → there (kept c s).1 ≡ ok tt
unfolding kept there
kept-there c none h = h
kept-there c (some cs) h = refl

pub made-taken : (s : Store) → there s ≡ ok tt → made s ≡ (err already_owned_by_you, s)
unfolding made there
made-taken none h = ground (arith, h)
made-taken (some cs) h = refl

pub keeps : KeepsBucket client name
keeps = record {
  there-create = λ r s h. made-there s h;
  there-put = λ c s h. kept-there c s h;
  taken = λ r s h. made-taken s h;
}

made-new : (s : Store) → there s ≡ err not_found → (made s).0 ≡ ok tt
unfolding made there
made-new none h = refl
made-new (some cs) h = ground (arith, h)

told-made : (s : Store) (k : ℕ) → there s ≡ err not_found → told_of k (made s).1 ≡ none
unfolding made there told_of of_kind
told-made none k h = refl
told-made (some cs) k h = ground (arith, h)

kept_ok : (c : Setting) (s : Store) → there s ≡ ok tt → (kept c s).0 ≡ ok tt
unfolding kept there
kept_ok c none h = ground (arith, h)
kept_ok c (some cs) h = refl

told-kept :
    (c : Setting) (s : Store) (k : ℕ)
    → there s ≡ ok tt
    → told_of k (kept c s).1 ≡ (if k == kind c then some c else told_of k s)
unfolding kept there told_of of_kind
told-kept c none k h = ground (arith, h)
told-kept c (some cs) k h = refl

pub laws : KeepsSettings client name told_of
laws = record {
  created = λ r s h. made-new s h;
  setting-create = λ r s k h. told-made s k h;
  put_ok = λ c s h. kept_ok c s h;
  setting-put = λ c s k h. told-kept c s k h;
  tag_set_read = λ s h. refl;
}
