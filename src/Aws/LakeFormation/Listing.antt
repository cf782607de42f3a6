-- ===== src/Aws/LakeFormation/Listing.antt =====
-- Lists of opt-ins: what the loop of `list_lf_opt_ins` finds, and lists without one resource.
use analytics_platform_contr.Prelude.{
  ◌≡◌, refl, Text, teq, teq_iff, Bool, true, false, not, ◌&&◌, ◌||◌, Option, none, some, List, [],
  ◌∷◌, ◌++◌, filter, any, arith, Bool-cases, inl, inr,
}
use mathlib.Core.List.{append_assoc, append-nil}
use analytics_platform_contr.Aws.LakeFormation.{
  Resource, database, table, other, OptIns, is_database_of, is_table_of, collect, list_lf_opt_ins,
}

-- Whether two resources are the same.
unfoldable pub same : Resource → Resource → Bool
same (database c d) (database c' d') = teq c c' && teq d d'
same (table c d t) (table c' d' t') = teq c c' && (teq d d' && teq t t')
same (other t) (other t') = teq t t'
same _ _ = false

pub same_eq : (r q : Resource) → same r q ≡ true → r ≡ q
unfolding same
same_eq (database c d) (database c' d') h = ground (arith, teq_iff c c', teq_iff d d')
same_eq (table c d t) (table c' d' t') h = ground (arith, teq_iff c c', teq_iff d d', teq_iff t t')
same_eq (other t) (other t') h = ground (arith, teq_iff t t')
same_eq (database c d) (table c' d' t') h = ground arith
same_eq (database c d) (other t') h = ground arith
same_eq (table c d t) (database c' d') h = ground arith
same_eq (table c d t) (other t') h = ground arith
same_eq (other t) (database c' d') h = ground arith
same_eq (other t) (table c' d' t') h = ground arith

abbrev pub without : Resource → List Resource → List Resource
without r = filter (λ q. not (same q r))

abbrev pub has : Resource → List Resource → Bool
has r = any (λ q. same q r)

-- No resource stands twice.
abbrev pub Distinct : List Resource → Type 0
Distinct [] = Unit {0}
Distinct (r ∷ rs) = (has r rs ≡ false) × Distinct rs

abbrev pub tables_of : Text → List Resource → List Resource
tables_of name = filter (is_table_of name)

abbrev pub has_database : Text → List Resource → Bool
has_database name = any (is_database_of name)

is_both : (name : Text) (r : Resource) → is_database_of name r ≡ true → is_table_of name r ≡ false
unfolding is_database_of is_table_of
is_both name (database _ _) h = refl
is_both name (table _ _ _) h = ground arith
is_both name (other _) h = refl

-- The tables that the loop collects, in their order.
tables-collect :
    (name : Text) (found : OptIns) (rs : List Resource)
    → (collect name found rs).tables ≡ found.tables ++ tables_of name rs
unfolding collect
tables-collect name found [] = simp append-nil
tables-collect name found (r ∷ rs) = elim (Bool-cases (is_database_of name r)) [
  | inl d ↦
      ground
        (arith, d, is_both name r d, tables-collect name (record found { database = some r }) rs)
  | inr n ↦ elim (Bool-cases (is_table_of name r)) [
    | inl t ↦
        let found' = record found { tables = found.tables ++ r ∷ [] } in
        ground (
          arith,
          n,
          t,
          tables-collect name found' rs,
          append_assoc found.tables (r ∷ []) (tables_of name rs),
        )
    | inr u ↦ ground (arith, n, u, tables-collect name found rs)
  ]
]

-- Whether the loop finds the database.
abbrev pub is_there : Option Resource → Bool
is_there none = false
is_there (some _) = true

database-collect :
    (name : Text) (found : OptIns) (rs : List Resource)
    → is_there (collect name found rs).database ≡ (is_there found.database || has_database name rs)
unfolding collect
database-collect name found [] = ground arith
database-collect name found (r ∷ rs) = elim (Bool-cases (is_database_of name r)) [
  | inl d ↦ ground (arith, d, database-collect name (record found { database = some r }) rs)
  | inr n ↦ elim (Bool-cases (is_table_of name r)) [
    | inl t ↦
        ground
          (arith, n, t, database-collect name (record found { tables = found.tables ++ r ∷ [] }) rs)
    | inr u ↦ ground (arith, n, u, database-collect name found rs)
  ]
]

pub list_lf_opt_ins_lem :
    (name : Text) (rs : List Resource)
    → ((list_lf_opt_ins name rs).tables ≡ tables_of name rs)
      × (is_there (list_lf_opt_ins name rs).database ≡ has_database name rs)
unfolding list_lf_opt_ins
list_lf_opt_ins_lem name rs = (
  tables-collect name (record { database = none; tables = [] }) rs,
  database-collect name (record { database = none; tables = [] }) rs,
)
