-- ===== src/Aws/Samples.antt =====
-- The documents, the role and the hash that the tests run on.
use analytics_platform_contr.Prelude.{
  ◌≡◌, refl, Text, codes, teq, mem, true, Option, none, some, List, [], ◌∷◌,
}
use analytics_platform_contr.Prelude.{not, filter, ◌++◌, if◌then◌else◌}
use analytics_platform_contr.Prelude.Exec.{ok, err}
use analytics_platform_contr.Aws.Attachments.{Iam, Detaches, no_such_entity}
use analytics_platform_contr.Aws.Statement.{Statement, Condition}
use analytics_platform_contr.Aws.Document.{Document}
use analytics_platform_contr.Aws.S3AccessPolicy.{Md5}
use analytics_platform_contr.Aws.Role.{IamRole, saved, access_levels}
use analytics_platform_contr.Aws.Role.Buckets.{IsOpen}

abbrev pub zeros : Text
zeros = codes "00000000000000000000000000000000"

-- A hash that maps every text to 32 zeros.
abbrev pub flat_md5 : Md5
flat_md5 = record { hexdigest = λ t. zeros; length-hexdigest = λ t. refl }

abbrev pub bucket : Text
bucket = codes "arn:aws:s3:::dev-a"

abbrev pub allowing : Text → List Text → Option Condition → Statement
allowing sid rs c = record {
  sid = some sid;
  action = [];
  effect = codes "Allow";
  resource = some rs;
  condition = c;
}

-- A role that may read two buckets, one named like the other with more letters.
abbrev pub stored : Document
stored =
    allowing (codes "readonly") (codes "arn:aws:s3:::dev-a/*" ∷ codes "arn:aws:s3:::dev-ab/*" ∷ [])
      none
    ∷ []

abbrev pub role : IamRole
role = record { exists = true; policy = some (saved stored) }

pub role-IsOpen : IsOpen role stored
unfolding saved
role-IsOpen = record {
  exists = refl;
  policy = (saved stored, refl, refl);
  sids = refl;
  unique = ((λ t h. refl), tt);
}

pub readwrite_level : mem (codes "readwrite") access_levels ≡ true
unfolding mem access_levels teq
readwrite_level = refl

-- The calls of IAM on a list of ARNs, as it documents them.
abbrev pub list_iam : Iam
list_iam = record {
  load = λ r. none;
  attach = λ p r. (ok tt, r ++ p ∷ []);
  detach =
      λ p r. if mem p r then (ok tt, filter (λ q. not (teq q p)) r) else (err no_such_entity, r);
}

pub list_iam-Detaches : Detaches list_iam
list_iam-Detaches = record { attached = λ p r h. rw h refl; missing = λ p r h. rw h refl }
