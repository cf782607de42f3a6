-- ===== src/Aws/Statement.antt =====
-- The statements of an S3 access policy and the table BASE_S3_ACCESS_STATEMENT of
-- controlpanel/api/aws.py. A JSON object is a record, an absent member is `none`.
use analytics_platform_contr.Prelude.{
  ◌≡◌, refl, Text, codes, teq, Bool, true, false, Option, none, some, List, [], ◌∷◌, ◌++◌, map,
  if◌then◌else◌, arith, teq_iff,
}

-- {operator: {"s3:prefix": prefix, "s3:delimiter": delimiter}}, no delimiter being []
pub record Condition : Type 0 where
  pub operator : Text
  pub prefix : List Text
  pub delimiter : List Text

pub record Statement : Type 0 where
  pub sid : Option Text
  pub action : List Text
  pub effect : Text
  pub resource : Option (List Text)
  pub condition : Option Condition

unfoldable pub read_actions : List Text
read_actions =
    codes "s3:GetObject"
    ∷ codes "s3:GetObjectTagging"
    ∷ codes "s3:GetObjectAcl"
    ∷ codes "s3:GetObjectVersion"
    ∷ codes "s3:GetObjectVersionAcl"
    ∷ codes "s3:GetObjectVersionTagging"
    ∷ []

unfoldable pub write_actions : List Text
write_actions =
    codes "s3:DeleteObject"
    ∷ codes "s3:DeleteObjectVersion"
    ∷ codes "s3:PutObject"
    ∷ codes "s3:PutObjectAcl"
    ∷ codes "s3:RestoreObject"
    ∷ []

unfoldable pub list_bucket_meta_actions : List Text
list_bucket_meta_actions =
    codes "s3:GetBucketPublicAccessBlock"
    ∷ codes "s3:GetBucketPolicyStatus"
    ∷ codes "s3:GetBucketTagging"
    ∷ codes "s3:GetBucketPolicy"
    ∷ codes "s3:GetBucketAcl"
    ∷ codes "s3:GetBucketCORS"
    ∷ codes "s3:GetBucketVersioning"
    ∷ codes "s3:GetBucketLocation"
    ∷ codes "s3:ListBucketVersions"
    ∷ []

unfoldable pub list_bucket_contents_actions : List Text
list_bucket_contents_actions = codes "s3:ListBucket" ∷ []

allow : Text → List Text → Text × Statement
allow key actions = (
  key,
  record {
    sid = some key;
    action = actions;
    effect = codes "Allow";
    resource = none;
    condition = none;
  },
)

-- BASE_S3_ACCESS_STATEMENT: each key is the Sid of its statement.
unfoldable pub base_s3_access_statement : List (Text × Statement)
unfolding allow
base_s3_access_statement =
    allow (codes "list") (list_bucket_meta_actions ++ list_bucket_contents_actions)
    ∷ allow (codes "readonly") read_actions
    ∷ allow (codes "readwrite") (read_actions ++ write_actions)
    ∷ allow (codes "listFolder") list_bucket_contents_actions
    ∷ allow (codes "listSubFolders") (codes "s3:ListBucket" ∷ [])
    ∷ allow (codes "rootFolderBucketMeta") list_bucket_meta_actions
    ∷ []

lookup : Text → List (Text × Statement) → Option Statement
lookup t [] = none
lookup t ((k, s) ∷ rest) = if teq k t then some s else lookup t rest

-- BASE_S3_ACCESS_STATEMENT[sid], or `none` for a key that is not there.
unfoldable pub base_statement : Text → Option Statement
unfolding lookup
base_statement t = lookup t base_s3_access_statement

abbrev is_some {ℓ} : {A : Type ℓ} → Option A → Bool
is_some none = false
is_some (some a) = true

-- S3AccessPolicy.base_s3_access_sids
unfoldable pub base_s3_access_sids : List (Option Text)
base_s3_access_sids = map (λ e. e.1.sid) base_s3_access_statement

-- sid in self.base_s3_access_sids
unfoldable pub is_base_sid : Text → Bool
is_base_sid t = is_some (base_statement t)

mem_sids : Text → List (Option Text) → Bool
mem_sids t [] = false
mem_sids t (none ∷ rest) = mem_sids t rest
mem_sids t (some u ∷ rest) = if teq u t then true else mem_sids t rest

-- The lookup by key is the membership test on the Sids.
is_base_sid-eq-mem : (t : Text) → is_base_sid t ≡ mem_sids t base_s3_access_sids
unfolding is_base_sid base_statement base_s3_access_sids base_s3_access_statement mem_sids
is_base_sid-eq-mem t = ground arith

-- A base statement has its key for Sid, and neither resources nor conditions.
pub base_statement_fields :
    (t : Text) (s : Statement)
    → base_statement t ≡ some s
    → (s.sid ≡ some t) × (s.resource ≡ none) × (s.condition ≡ none)
unfolding base_statement base_s3_access_statement
base_statement_fields t s h = ground (
  arith,
  teq_iff (codes "list") t,
  teq_iff (codes "readonly") t,
  teq_iff (codes "readwrite") t,
  teq_iff (codes "listFolder") t,
  teq_iff (codes "listSubFolders") t,
  teq_iff (codes "rootFolderBucketMeta") t,
)

-- The base statements by name.
pub known_readonly : (b : Statement) × (base_statement (codes "readonly") ≡ some b)
unfolding base_statement base_s3_access_statement teq
known_readonly = (_, refl)

pub known_readwrite : (b : Statement) × (base_statement (codes "readwrite") ≡ some b)
unfolding base_statement base_s3_access_statement teq
known_readwrite = (_, refl)

pub known_list : (b : Statement) × (base_statement (codes "list") ≡ some b)
unfolding base_statement base_s3_access_statement teq
known_list = (_, refl)

pub known_meta : (b : Statement) × (base_statement (codes "rootFolderBucketMeta") ≡ some b)
unfolding base_statement base_s3_access_statement teq
known_meta = (_, refl)

pub known_list_folder : (b : Statement) × (base_statement (codes "listFolder") ≡ some b)
unfolding base_statement base_s3_access_statement teq
known_list_folder = (_, refl)

pub known_list_sub_folders : (b : Statement) × (base_statement (codes "listSubFolders") ≡ some b)
unfolding base_statement base_s3_access_statement teq
known_list_sub_folders = (_, refl)
