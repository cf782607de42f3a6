-- ===== src/Aws/ServiceTests.antt =====
-- Clients that keep what they are given in lists, and the theorems on secrets, opt-ins and the identity
-- store at small states of these.
use analytics_platform_contr.Prelude.{
  ◌≡◌, refl, Text, codes, teq, true, false, Option, none, some, List, [], ◌∷◌, ◌++◌, arith,
  Option-cases,
}
use analytics_platform_contr.Prelude.Dicts.{get, put_key, get-put_key, get_last, IsDict, or_else}
use analytics_platform_contr.Prelude.Exec.{Result, ok, err, ◌>>◌}
use analytics_platform_contr.Aws.Secrets.{
  ClientError, resource_not_found, Secret, secret_string, Base64, SecretsClient, entries,
  create_or_update, get_secret_if_found,
}
use analytics_platform_contr.Aws.Secrets.Laws.{KeepsSecrets, held, create_or_update-get}
use analytics_platform_contr.Aws.LakeFormation.{
  Resource, database, table, LakeClient, create_lf_opt_in, delete_lf_opt_in, is_database_of,
  is_table_of,
}
use analytics_platform_contr.Aws.LakeFormation.Listing.{same, without, has}
use analytics_platform_contr.Aws.LakeFormation.Laws.{KeepsOptIns, IsPaired}
use analytics_platform_contr.Aws.LakeFormation.Invariant.{
  create_lf_opt_in-IsPaired, delete_lf_opt_in-IsPaired,
}

-- Secrets by name
abbrev Secrets : Type 0
Secrets = List (Text × Secret)

abbrev found : Option Secret → Result ClientError Secret
found none = err resource_not_found
found (some v) = ok v

abbrev written : Text → Secret → Secrets → Option Secret → Result ClientError Unit × Secrets
written n v s none = (err resource_not_found, s)
written n v s (some old) = (ok tt, put_key n v s)

abbrev list_secrets : SecretsClient Secrets
list_secrets = record {
  get_secret_value = λ n s. found (get n s);
  create_secret = λ n v s. (ok tt, put_key n v s);
  update_secret = λ n v s. written n v s (get n s);
  delete_secret = λ n b s. (ok tt, s);
}

get-found : (n : Text) (s : Secrets) (old : Secret) → found (get n s) ≡ ok old → get n s ≡ some old
get-found n s old h = ground (arith, Option-cases (get n s))

list_secrets-KeepsSecrets : KeepsSecrets list_secrets
list_secrets-KeepsSecrets = record {
  created = λ n v s h. refl;
  updated_ok = λ n v old s h. ground (arith, get-found n s old h);
  get-create = λ n j v s h. ground (arith, get-put_key n j v s);
  get-update = λ n j v old s h. ground (arith, get-found n s old h, get-put_key n j v s);
}

abbrev plain : Base64
plain = record { b64encode = λ t. t; b64decode = λ t. t }

abbrev app_secret : Text
app_secret = codes "app"

abbrev other_secret : Text
other_secret = codes "other"

abbrev user : Text
user = codes "u"

abbrev key : Text
key = codes "k"

abbrev fresh : Text
fresh = codes "v"

abbrev two_secrets : Secrets
two_secrets =
    (app_secret, secret_string ((user, user) ∷ (key, user) ∷ []))
    ∷ (other_secret, secret_string [])
    ∷ []

abbrev new_entries : List (Text × Text)
new_entries = (key, fresh) ∷ []

new_entries-IsDict : IsDict new_entries
unfolding get_last get
new_entries-IsDict k = ground arith

create_or_update-get_example :
    (e : List (Text × Text)) × ((create_or_update list_secrets plain app_secret
            (entries new_entries)
          >> get_secret_if_found list_secrets plain app_secret)
        two_secrets
      ≡ (
        ok (entries e),
        (create_or_update list_secrets plain app_secret (entries new_entries) two_secrets).1,
      ))
    × (get user e
        ≡ or_else (get user new_entries) (get user (held (found (get app_secret two_secrets)))))
    × (found (
          get other_secret
            (create_or_update list_secrets plain app_secret (entries new_entries) two_secrets).1)
        ≡ found (get other_secret two_secrets))
unfolding get teq
create_or_update-get_example =
    create_or_update-get list_secrets list_secrets-KeepsSecrets plain app_secret two_secrets
      new_entries user other_secret (λ h. ground (arith, h)) new_entries-IsDict refl

-- The opt-ins themselves
abbrev list_lake : LakeClient ClientError (List Resource)
list_lake = record {
  list_opt_ins = λ s. s;
  create_opt_in = λ r s. (ok tt, s ++ r ∷ []);
  delete_opt_in = λ r s. (ok tt, without r s);
}

list_lake-KeepsOptIns : KeepsOptIns list_lake
list_lake-KeepsOptIns = record { created = λ r s h. (refl, refl); deleted = λ r s h. (refl, refl) }

abbrev catalog : Text
catalog = codes "c"

abbrev sales : Text
sales = codes "sales"

abbrev orders : Text
orders = codes "orders"

abbrev returns : Text
returns = codes "returns"

abbrev one_table : List Resource
one_table = database catalog sales ∷ table catalog sales orders ∷ []

one_table-IsPaired : IsPaired catalog sales one_table
unfolding same is_database_of is_table_of teq
one_table-IsPaired = record { distinct = (refl, (refl, tt)); catalogs = refl; paired = refl }

create_lf_opt_in-IsPaired_example :
    let (result, after) = create_lf_opt_in list_lake catalog sales returns one_table in
    (result ≡ ok tt)
    × IsPaired catalog sales after
    × (has (table catalog sales returns) after ≡ true)
unfolding same teq
create_lf_opt_in-IsPaired_example =
    create_lf_opt_in-IsPaired list_lake list_lake-KeepsOptIns catalog sales returns one_table
      one_table-IsPaired refl

delete_lf_opt_in-IsPaired_example :
    let (result, after) = delete_lf_opt_in list_lake catalog sales orders one_table in
    (result ≡ ok tt)
    × IsPaired catalog sales after
    × (has (table catalog sales orders) after ≡ false)
unfolding same teq
delete_lf_opt_in-IsPaired_example =
    delete_lf_opt_in-IsPaired list_lake list_lake-KeepsOptIns catalog sales orders one_table
      one_table-IsPaired refl
