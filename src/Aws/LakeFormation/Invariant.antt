-- ===== src/Aws/LakeFormation/Invariant.antt =====
-- Creating and deleting an opt-in keeps the database opted in just while one of its tables is.
use analytics_platform_contr.Prelude.{
  ◌≡◌, refl, Text, teq_refl, true, false, none, some, List, [], ◌∷◌, ◌++◌, length, arith, ◌==◌, ◌∙◌,
  Bool-cases, Option-cases, inl, inr,
}
use analytics_platform_contr.Prelude.Exec.{ok, ◌>>◌}
use analytics_platform_contr.Aws.LakeFormation.{
  Resource, database, table, LakeClient, is_database_of, is_table_of, list_lf_opt_ins,
  create_lf_opt_in, delete_lf_opt_in,
}
use analytics_platform_contr.Aws.LakeFormation.Listing.{
  same, without, has, tables_of, has_database, list_lf_opt_ins_lem,
}
use analytics_platform_contr.Aws.LakeFormation.Laws.{
  KeepsOptIns, IsPaired, has-snoc, Distinct-snoc, tables-snoc, database-snoc, catalog-snoc,
  has_database-catalog, Distinct-without, length-tables-without, database-without, tables-without,
  catalog-without, has-without_other, has-without_self, same_refl,
}

module _ (catalog name t : Text) (rs : List Resource) (h : IsPaired catalog name rs) where
  abbrev the_table : Resource
  the_table = table catalog name t

  abbrev the_database : Resource
  the_database = database catalog name

  IsPaired-add_table :
      has the_table rs ≡ false
      → has_database name rs ≡ true
      → IsPaired catalog name (rs ++ the_table ∷ [])
  unfolding is_database_of is_table_of
  IsPaired-add_table new there = record {
    distinct = Distinct-snoc the_table rs h.distinct new;
    catalogs = ground (arith, catalog-snoc catalog name the_table rs, h.catalogs);
    paired = ground (
      arith,
      database-snoc name the_table rs,
      tables-snoc name the_table rs,
      there,
      teq_refl name,
    );
  }

  IsPaired-add_both :
      has the_table rs ≡ false
      → has_database name rs ≡ false
      → (has the_database rs ≡ false)
        × (has the_table (rs ++ the_database ∷ []) ≡ false)
        × IsPaired catalog name ((rs ++ the_database ∷ []) ++ the_table ∷ [])
  unfolding is_database_of is_table_of same
  IsPaired-add_both new gone =
      let ds = rs ++ the_database ∷ [] in
      let d = has_database-catalog catalog name rs h.catalogs in
      let absent : has the_database rs ≡ false = ground (arith, d) in
      let fresh : has the_table ds ≡ false = ground (arith, has-snoc the_table the_database rs) in
      (
        absent,
        fresh,
        record {
          distinct =
              Distinct-snoc the_table ds (Distinct-snoc the_database rs h.distinct absent) fresh;
          catalogs = ground (
            arith,
            catalog-snoc catalog name the_table ds,
            catalog-snoc catalog name the_database rs,
            h.catalogs,
            teq_refl name,
            teq_refl catalog,
          );
          paired = ground (
            arith,
            database-snoc name the_table ds,
            database-snoc name the_database rs,
            tables-snoc name the_table ds,
            tables-snoc name the_database rs,
            teq_refl name,
          );
        },
      )

  -- With another table left.
  IsPaired-drop_table :
      has the_table rs ≡ true
      → length (tables_of name rs) == 1 ≡ false
      → IsPaired catalog name (without the_table rs)
  unfolding is_database_of is_table_of
  IsPaired-drop_table there more = record {
    distinct = Distinct-without the_table rs h.distinct;
    catalogs = catalog-without catalog name the_table rs h.catalogs;
    paired = ground (
      arith,
      database-without name the_table rs,
      length-tables-without name the_table rs h.distinct there,
      h.paired,
      teq_refl name,
    );
  }

  -- With no other table left, the database goes first.
  IsPaired-drop_both :
      has the_table rs ≡ true
      → length (tables_of name rs) == 1 ≡ true
      → (has the_database rs ≡ true)
        × (has the_table (without the_database rs) ≡ true)
        × IsPaired catalog name (without the_table (without the_database rs))
  unfolding is_database_of is_table_of same
  IsPaired-drop_both there last =
      let ds = without the_database rs in
      let d = has_database-catalog catalog name rs h.catalogs in
      let listed : has the_table ds ≡ true =
        ground (arith, has-without_other the_table the_database rs refl) in
      let distinct = Distinct-without the_database rs h.distinct in
      (
        ground (arith, d, h.paired),
        listed,
        record {
          distinct = Distinct-without the_table ds distinct;
          catalogs =
              catalog-without catalog name the_table ds
                (catalog-without catalog name the_database rs h.catalogs);
          paired = ground (
            arith,
            database-without name the_table ds refl,
            d,
            length-tables-without name the_table ds distinct listed,
            tables-without name the_database rs refl,
            teq_refl name,
          );
        },
      )

module _ {E Store : Type 0} (client : LakeClient E Store) (laws : KeepsOptIns client)
    (catalog name t : Text) (s : Store) (h : IsPaired catalog name (client.list_opt_ins s)) where
  abbrev listed : List Resource
  listed = client.list_opt_ins s

  create_there :
      {r : Resource}
      → (list_lf_opt_ins name listed).database ≡ some r
      → create_lf_opt_in client catalog name t s ≡ client.create_opt_in (table catalog name t) s
  unfolding create_lf_opt_in
  create_there e = ground (arith, e)

  create_both :
      (list_lf_opt_ins name listed).database ≡ none
      → create_lf_opt_in client catalog name t s
        ≡ (client.create_opt_in (database catalog name)
              >> client.create_opt_in (table catalog name t))
            s
  unfolding create_lf_opt_in
  create_both e = ground (arith, e)

  -- Where the client keeps the opt-ins of a principal, none twice, the databases of a name are in
  -- one catalog, and that database is opted in just while a table of it is: creating the opt-in of
  -- a table that has none succeeds, keeps this, and the table is opted in.
  pub create_lf_opt_in-IsPaired :
      has (table catalog name t) (client.list_opt_ins s) ≡ false
      → let (result, after) = create_lf_opt_in client catalog name t s in
        (result ≡ ok tt)
        × IsPaired catalog name (client.list_opt_ins after)
        × (has (table catalog name t) (client.list_opt_ins after) ≡ true)
  create_lf_opt_in-IsPaired new = elim (Option-cases (list_lf_opt_ins name listed).database) [
    | inr (r, e) ↦
        let T = table catalog name t in
        let (made, now) = laws.created T s new in
        let there : has_database name listed ≡ true =
          ground (arith, list_lf_opt_ins_lem name listed, e) in
        (
          rw (create_there e) made,
          rw (create_there e, now) (IsPaired-add_table catalog name t listed h new there),
          rw (create_there e, now) (ground (arith, has-snoc T T listed, same_refl T)),
        )
    | inl e ↦
        let T = table catalog name t in
        let D = database catalog name in
        let gone : has_database name listed ≡ false =
          ground (arith, list_lf_opt_ins_lem name listed, e) in
        let (absent, fresh, paired) = IsPaired-add_both catalog name t listed h new gone in
        let (made, now) = laws.created D s absent in
        let mid = (client.create_opt_in D s).1 in
        let (made', now') = laws.created T mid (rw now fresh) in
        let run : create_lf_opt_in client catalog name t s ≡ client.create_opt_in T mid =
          create_both e ∙ ground (arith, made) in
        (
          rw run made',
          rw (run, now', now) paired,
          rw (run, now', now) (ground (arith, has-snoc T T (listed ++ D ∷ []), same_refl T)),
        )
  ]

  delete_rest :
      length (tables_of name listed) == 1 ≡ false
      → delete_lf_opt_in client catalog name t s ≡ client.delete_opt_in (table catalog name t) s
  unfolding delete_lf_opt_in
  delete_rest e = ground (arith, e, (list_lf_opt_ins_lem name listed).0)

  delete_both :
      length (tables_of name listed) == 1 ≡ true
      → delete_lf_opt_in client catalog name t s
        ≡ (client.delete_opt_in (database catalog name)
              >> client.delete_opt_in (table catalog name t))
            s
  unfolding delete_lf_opt_in
  delete_both e = ground (arith, e, (list_lf_opt_ins_lem name listed).0)

  -- Under the same conditions, deleting the opt-in of a table that has one succeeds, keeps the
  -- database opted in just while a table of it is, and the table is no longer opted in.
  pub delete_lf_opt_in-IsPaired :
      has (table catalog name t) (client.list_opt_ins s) ≡ true
      → let (result, after) = delete_lf_opt_in client catalog name t s in
        (result ≡ ok tt)
        × IsPaired catalog name (client.list_opt_ins after)
        × (has (table catalog name t) (client.list_opt_ins after) ≡ false)
  delete_lf_opt_in-IsPaired there = elim (Bool-cases (length (tables_of name listed) == 1)) [
    | inr e ↦
        let T = table catalog name t in
        let (made, now) = laws.deleted T s there in
        (
          rw (delete_rest e) made,
          rw (delete_rest e, now) (IsPaired-drop_table catalog name t listed h there e),
          rw (delete_rest e, now) (has-without_self T listed),
        )
    | inl e ↦
        let T = table catalog name t in
        let D = database catalog name in
        let (listed_db, listed_table, paired) =
          IsPaired-drop_both catalog name t listed h there e in
        let (made, now) = laws.deleted D s listed_db in
        let mid = (client.delete_opt_in D s).1 in
        let (made', now') = laws.deleted T mid (rw now listed_table) in
        let run : delete_lf_opt_in client catalog name t s ≡ client.delete_opt_in T mid =
          delete_both e ∙ ground (arith, made) in
        (
          rw run made',
          rw (run, now', now) paired,
          rw (run, now', now) (has-without_self T (without D listed)),
        )
  ]
