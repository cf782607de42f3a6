-- ===== src/Aws/LakeFormation/Laws.antt =====
-- The invariant of the opt-ins: a database is opted in just while one of its tables is.
use analytics_platform_contr.Prelude.{
  ◌+◌, ◌≡◌, refl, Text, teq_refl, Bool, true, false, not, ◌&&◌, ◌||◌, List, [], ◌∷◌, ◌++◌, length,
  all, arith, if◌then◌else◌, Bool-cases, inl, inr, ltb, ap,
}
use analytics_platform_contr.Prelude.Exec.{ok}
use analytics_platform_contr.Aws.LakeFormation.{
  Resource, database, table, other, LakeClient, is_database_of, is_table_of,
}
use analytics_platform_contr.Aws.LakeFormation.Listing.{
  same, same_eq, without, has, Distinct, tables_of, has_database,
}

has-without :
    (q r : Resource) (rs : List Resource) → has q rs ≡ false → has q (without r rs) ≡ false
has-without q r [] h = refl
has-without q r (x ∷ rs) h = ground (arith, has-without q r rs)

pub Distinct-without : (r : Resource) (rs : List Resource) → Distinct rs → Distinct (without r rs)
Distinct-without r [] h = tt
Distinct-without r (x ∷ rs) (h, k) = elim (Bool-cases (same x r)) [
  | inl e ↦ rw e (Distinct-without r rs k)
  | inr n ↦ rw n (has-without x r rs h, Distinct-without r rs k)
]

without_absent : (r : Resource) (rs : List Resource) → has r rs ≡ false → without r rs ≡ rs
without_absent r [] h = refl
without_absent r (x ∷ rs) h = ground (arith, without_absent r rs)

-- Taking a table of the database out leaves one table less.
pub length-tables-without :
    (name : Text) (r : Resource) (rs : List Resource)
    → Distinct rs
    → has r rs ≡ true
    → is_table_of name r ≡ true
    → length (tables_of name (without r rs)) + 1 ≡ length (tables_of name rs)
length-tables-without name r [] d h k = ground arith
length-tables-without name r (x ∷ rs) (n, d) h k = elim (Bool-cases (same x r)) [
  | inl e ↦ ground (
    arith,
    e,
    n,
    ap (is_table_of name) (same_eq x r e),
    ap (λ y. has y rs) (same_eq x r e),
    without_absent r rs,
  )
  | inr u ↦ ground (arith, u, length-tables-without name r rs d)
]

pub database-without :
    (name : Text) (r : Resource) (rs : List Resource)
    → is_database_of name r ≡ false
    → has_database name (without r rs) ≡ has_database name rs
database-without name r [] h = refl
database-without name r (x ∷ rs) h = elim (Bool-cases (same x r)) [
  | inl e ↦ ground (
    arith,
    e,
    same_eq x r e,
    ap (is_database_of name) (same_eq x r e),
    database-without name r rs,
  )
  | inr u ↦ ground (arith, u, database-without name r rs)
]

pub tables-without :
    (name : Text) (r : Resource) (rs : List Resource)
    → is_table_of name r ≡ false
    → tables_of name (without r rs) ≡ tables_of name rs
tables-without name r [] h = refl
tables-without name r (x ∷ rs) h = elim (Bool-cases (same x r)) [
  | inl e ↦ ground (arith, e, ap (is_table_of name) (same_eq x r e), tables-without name r rs)
  | inr u ↦ ground (arith, u, tables-without name r rs)
]

-- Lists with one resource more.
pub same_refl : (r : Resource) → same r r ≡ true
unfolding same
same_refl (database c d) = ground (arith, teq_refl c, teq_refl d)
same_refl (table c d t) = ground (arith, teq_refl c, teq_refl d, teq_refl t)
same_refl (other t) = teq_refl t

same_comm : (r q : Resource) → same r q ≡ false → same q r ≡ false
same_comm r q h = elim (Bool-cases (same q r)) [
  | inl e ↦ ground (arith, same_refl q, ap (λ y. same y q) (same_eq q r e))
  | inr n ↦ n
]

pub has-snoc : (q r : Resource) (rs : List Resource) → has q (rs ++ r ∷ []) ≡ (has q rs || same r q)
has-snoc q r [] = ground arith
has-snoc q r (x ∷ rs) = ground (arith, has-snoc q r rs)

pub Distinct-snoc :
    (r : Resource) (rs : List Resource) → Distinct rs → has r rs ≡ false → Distinct (rs ++ r ∷ [])
Distinct-snoc r [] d h = (refl, tt)
Distinct-snoc r (x ∷ rs) (n, d) h =
    (ground (arith, has-snoc x r rs, n, same_comm x r), Distinct-snoc r rs d (ground arith))

pub tables-snoc :
    (name : Text) (r : Resource) (rs : List Resource)
    → length (tables_of name (rs ++ r ∷ []))
      ≡ length (tables_of name rs) + (if is_table_of name r then 1 else 0)
tables-snoc name r [] = ground arith
tables-snoc name r (x ∷ rs) = ground (arith, tables-snoc name r rs)

pub database-snoc :
    (name : Text) (r : Resource) (rs : List Resource)
    → has_database name (rs ++ r ∷ []) ≡ (has_database name rs || is_database_of name r)
database-snoc name r [] = ground arith
database-snoc name r (x ∷ rs) = ground (arith, database-snoc name r rs)

-- Whether the opt-ins for databases of that name are in one catalog.
abbrev pub in_catalog : Text → Text → List Resource → Bool
in_catalog catalog name = all (λ r. not (is_database_of name r) || same r (database catalog name))

pub catalog-snoc :
    (catalog name : Text) (r : Resource) (rs : List Resource)
    → in_catalog catalog name (rs ++ r ∷ []) ≡ (
        in_catalog catalog name rs
        && (not (is_database_of name r) || same r (database catalog name)))
catalog-snoc catalog name r [] = ground arith
catalog-snoc catalog name r (x ∷ rs) = ground (arith, catalog-snoc catalog name r rs)

pub catalog-without :
    (catalog name : Text) (r : Resource) (rs : List Resource)
    → in_catalog catalog name rs ≡ true
    → in_catalog catalog name (without r rs) ≡ true
catalog-without catalog name r [] h = refl
catalog-without catalog name r (x ∷ rs) h = ground (arith, catalog-without catalog name r rs)

-- A database that is opted in is that of the catalog, and without it there is none.
pub has_database-catalog :
    (catalog name : Text) (rs : List Resource)
    → in_catalog catalog name rs ≡ true
    → (has (database catalog name) rs ≡ has_database name rs)
      × (has_database name (without (database catalog name) rs) ≡ false)
unfolding is_database_of
has_database-catalog catalog name [] h = (refl, refl)
has_database-catalog catalog name (x ∷ rs) h =
    let ih = has_database-catalog catalog name rs in
    elim (Bool-cases (same x (database catalog name))) [
      | inl e ↦ (
        ground (
          arith,
          e,
          ih,
          ap (is_database_of name) (same_eq x (database catalog name) e),
          teq_refl name,
        ),
        ground (arith, e, ih),
      )
      | inr n ↦ (ground (arith, n, ih), ground (arith, n, ih))
    ]

-- What a client that keeps the opt-ins of a principal does with a new one, and with one that is there.
pub record KeepsOptIns {E Store : Type 0} (client : LakeClient E Store) : Type 0 where
  pub created :
      (r : Resource) (s : Store)
      → has r (client.list_opt_ins s) ≡ false
      → ((client.create_opt_in r s).0 ≡ ok tt)
        × (client.list_opt_ins (client.create_opt_in r s).1 ≡ client.list_opt_ins s ++ r ∷ [])
  pub deleted :
      (r : Resource) (s : Store)
      → has r (client.list_opt_ins s) ≡ true
      → ((client.delete_opt_in r s).0 ≡ ok tt)
        × (client.list_opt_ins (client.delete_opt_in r s).1 ≡ without r (client.list_opt_ins s))

-- The invariant, for the databases of a name in a catalog.
pub record IsPaired (catalog name : Text) (rs : List Resource) : Type 0 where
  pub distinct : Distinct rs
  pub catalogs : in_catalog catalog name rs ≡ true
  pub paired : has_database name rs ≡ ltb 0 (length (tables_of name rs))

-- A resource is still there when another is taken out.
pub has-without_other :
    (q r : Resource) (rs : List Resource) → same q r ≡ false → has q (without r rs) ≡ has q rs
has-without_other q r [] h = refl
has-without_other q r (x ∷ rs) h = elim (Bool-cases (same x q)) [
  | inl e ↦ ground (arith, e, ap (λ y. same y r) (same_eq x q e), has-without_other q r rs)
  | inr n ↦ ground (arith, n, has-without_other q r rs)
]

pub has-without_self : (r : Resource) (rs : List Resource) → has r (without r rs) ≡ false
has-without_self r [] = refl
has-without_self r (x ∷ rs) = ground (arith, has-without_self r rs)
