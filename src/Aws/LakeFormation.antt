-- ===== src/Aws/LakeFormation.antt =====
-- The opt-ins of `AWSLakeFormation` in controlpanel/api/aws.py, of one principal. The client of Lake
-- Formation is a parameter; a catalog is given by its id.
pub mod Listing
pub mod Laws
pub mod Invariant
use analytics_platform_contr.Prelude.{
  ℕ, Text, teq, ◌==◌, Bool, true, false, ◌&&◌, Option, none, some, List, [], ◌∷◌, ◌++◌, length,
  if◌then◌else◌,
}
use analytics_platform_contr.Prelude.Exec.{Exec, ok, pure, ◌>>=◌, ◌>>◌}

-- The resource of an opt-in: a database or a table of a catalog, or neither.
pub data Resource : Type 0 where
  database : Text → Text → Resource
  table : Text → Text → Text → Resource
  other : Text → Resource

pub record LakeClient (E Store : Type 0) : Type 0 where
  pub list_opt_ins : Store → List Resource
  pub create_opt_in : Resource → Exec E Store Unit
  pub delete_opt_in : Resource → Exec E Store Unit

-- The result of `list_lf_opt_ins`
pub record OptIns : Type 0 where
  pub database : Option Resource
  pub tables : List Resource

unfoldable pub is_database_of : Text → Resource → Bool
is_database_of name (database _ d) = teq d name
is_database_of name (table _ _ _) = false
is_database_of name (other _) = false

unfoldable pub is_table_of : Text → Resource → Bool
is_table_of name (database _ _) = false
is_table_of name (table _ d _) = teq d name
is_table_of name (other _) = false

-- The loop of `list_lf_opt_ins`, with what it has found so far; the catalog is not looked at.
unfoldable pub collect : Text → OptIns → List Resource → OptIns
collect name found [] = found
collect name found (r ∷ rs) =
    collect name
      (if is_database_of name r
        then record found { database = some r }
        else if is_table_of name r
        then record found { tables = found.tables ++ r ∷ [] }
        else found)
      rs

unfoldable pub list_lf_opt_ins : Text → List Resource → OptIns
list_lf_opt_ins name rs = collect name (record { database = none; tables = [] }) rs

module _ {E Store : Type 0} (client : LakeClient E Store) where
  unfoldable pub create_lf_opt_in : Text → Text → Text → Exec E Store Unit
  create_lf_opt_in catalog database_name table_name s =
      let create_table = client.create_opt_in (table catalog database_name table_name) in
      elim ((list_lf_opt_ins database_name (client.list_opt_ins s)).database) [
        | none ↦ (client.create_opt_in (database catalog database_name) >> create_table) s
        | some _ ↦ create_table s
      ]

  unfoldable pub delete_lf_opt_in : Text → Text → Text → Exec E Store Unit
  delete_lf_opt_in catalog database_name table_name s =
      let delete_table = client.delete_opt_in (table catalog database_name table_name) in
      if length (list_lf_opt_ins database_name (client.list_opt_ins s)).tables == 1
      then (client.delete_opt_in (database catalog database_name) >> delete_table) s
      else delete_table s
