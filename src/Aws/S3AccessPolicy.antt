-- ===== src/Aws/S3AccessPolicy.antt =====
-- The class `S3AccessPolicy` of controlpanel/api/aws.py, for buckets. The state is the list of the
-- document's statements; a method returns the new list. `hashlib.md5` is a parameter.
pub mod Resources
pub mod Parts
pub mod Load
pub mod Sids
pub mod Folders
pub mod Conditions
pub mod Narrow
pub mod FolderAccess
pub mod FolderGrants
pub mod FolderPaths
use analytics_platform_contr.Prelude.{
  ℕ, ◌≡◌, Text, codes, teq, mem, Bool, true, false, not, ◌&&◌, ◌||◌, Option, none, some, List, [],
  ◌∷◌, ◌++◌, leb, ◌==◌, length, drop, filter, starts_with, if◌then◌else◌,
}
use analytics_platform_contr.Aws.Statement.{Statement, base_statement}
use analytics_platform_contr.Aws.Document.{Document, find, update}

-- hashlib.md5(suffix.encode()).hexdigest(), which is 32 hexadecimal digits long.
pub record Md5 : Type 0 where
  pub hexdigest : Text → Text
  pub length-hexdigest : (t : Text) → length (hexdigest t) ≡ 32

-- `_construct_sid`: an absent and an empty suffix are both false.
unfoldable pub construct_sid : Md5 → Text → Option Text → Text
construct_sid md5 base_sid none = base_sid
construct_sid md5 base_sid (some suffix) =
    if teq suffix [] then base_sid else base_sid ++ md5.hexdigest suffix

-- `_build_statement`
unfoldable pub build_statement : Statement → Text → Document → Document
build_statement base sid d = d ++ record base { sid = some sid } ∷ []

-- The lookup of `statement`, which builds what is missing.
unfoldable pub ensure : Statement → Text → Document → Document
ensure base sid d = elim (find sid d) [ some _ ↦ d | none ↦ build_statement base sid d ]

-- `statement`: the handle of the statement, or `none` for an unknown base Sid.
unfoldable pub statement : Md5 → Text → Option Text → Document → Option Text × Document
statement md5 base_sid suffix d = elim (base_statement base_sid) [
  | none ↦ (none, d)
  | some base ↦ let sid = construct_sid md5 base_sid suffix in (some sid, ensure base sid d)
]

-- statement.get("Resource", [])
abbrev pub resource_list : Statement → List Text
resource_list s = elim s.resource [ none ↦ [] | some rs ↦ rs ]

-- if arn not in resources: resources.append(arn)
unfoldable pub insert : Text → List Text → List Text
insert arn rs = if mem arn rs then rs else rs ++ arn ∷ []

unfoldable pub append_resource : Text → Statement → Statement
append_resource arn s = record s { resource = some (insert arn (resource_list s)) }

-- What a method does through a handle, if there is one.
unfoldable pub through : (Statement → Statement) → Option Text × Document → Document
through f (none, d) = d
through f (some sid, d) = update sid f d

unfoldable pub add_resource : Md5 → Text → Text → Option Text → Document → Document
add_resource md5 arn sid sid_suffix d =
    through (append_resource arn) (statement md5 sid sid_suffix d)

-- re.match("^[a-z0-9-.]$", c)
unfoldable pub is_name_char : ℕ → Bool
is_name_char c = leb b'a' c && leb c b'z' || (leb b'0' c && leb c b'9' || (c == b'-' || c == b'.'))

-- What follows the ARN in the resource; nothing does if their lengths agree.
unfoldable pub ends_part : Text → Bool
ends_part [] = true
ends_part (end_char ∷ rest) = not (is_name_char end_char)

-- `_is_arn_part_of_resource`
unfoldable pub is_arn_part_of_resource : Text → Text → Bool
is_arn_part_of_resource resource arn =
    if starts_with resource arn then ends_part (drop (length arn) resource) else false

-- resources.remove(resource): the first occurrence.
unfoldable pub remove_first : Text → List Text → List Text
remove_first t [] = []
remove_first t (r ∷ rs) = if teq r t then rs else r ∷ remove_first t rs

-- The loop of `remove_resource`, over a copy of the list that it shortens.
unfoldable pub remove_parts : Text → List Text → List Text → List Text
remove_parts arn [] resources = resources
remove_parts arn (resource ∷ copy) resources =
    remove_parts arn copy
      (if is_arn_part_of_resource resource arn then remove_first resource resources else resources)

unfoldable pub drop_resource : Text → Statement → Statement
drop_resource arn s = elim s.resource [
  | none ↦ s
  | some rs ↦ record s { resource = some (remove_parts arn rs rs) }
]

unfoldable pub remove_resource : Md5 → Text → Text → Document → Document
remove_resource md5 arn sid d = through (drop_resource arn) (statement md5 sid none d)

unfoldable pub grant_object_access : Md5 → Text → Text → Document → Document
grant_object_access md5 arn access_level d =
    add_resource md5 (arn ++ codes "/*") access_level none d

unfoldable pub grant_list_access : Md5 → Text → Document → Document
grant_list_access md5 arn d = add_resource md5 arn (codes "list") none d

unfoldable pub revoke_access : Md5 → Text → Document → Document
revoke_access md5 arn d =
    remove_resource md5 arn (codes "list")
      (remove_resource md5 arn (codes "readwrite") (remove_resource md5 arn (codes "readonly") d))

-- stmt.get("Resource"), as a condition
unfoldable pub has_resource : Statement → Bool
has_resource s = elim s.resource [ none ↦ false | some [] ↦ false | some (_ ∷ _) ↦ true ]

-- The list that `put` saves.
unfoldable pub put : Document → Document
put d = filter has_resource d
