-- ===== src/Aws/IdentityStore/Tests.antt =====
-- An identity store as lists, and the theorem on adding a user to it.
use analytics_platform_contr.Prelude.{
  ◌≡◌, refl, Text, codes, teq, teq_refl, mem, Bool, true, false, none, some, List, [], ◌∷◌, ◌++◌,
  arith, ◌⊎◌, inl, inr, Bool-cases, Option, split,
}
use analytics_platform_contr.Prelude.Exec.{Result, ok, err}
use analytics_platform_contr.Aws.IdentityStore.{Error, not_found, IdentityClient, add_user_to_group}
use analytics_platform_contr.Aws.IdentityStore.Names.{
  get_name_from_email, checked, in_two, titled, title, title_from, title_char, no_digits, is_digit,
  is_lower, is_upper,
}
use analytics_platform_contr.Aws.Arn.{lower}
use analytics_platform_contr.Aws.IdentityStore.Memberships.{KeepsMembers, add_user_to_group_lem}

-- The names of the users, which are their ids, and the ids of the memberships.
abbrev Members : Type 0
Members = List Text × List Text

abbrev found : Bool → Text → Result Error Text
found true t = ok t
found false t = err not_found

abbrev user_of : Option Text → Text
user_of none = []
user_of (some u) = u

abbrev list_members : IdentityClient Members
list_members = record {
  get_user_id = λ e s. found (mem e s.0) e;
  get_group_id = λ g s. ok g;
  get_membership_id = λ g u s. found (mem (g ++ u) s.1) (g ++ u);
  create_user = λ e f l s. (ok tt, (e ∷ s.0, s.1));
  create_membership = λ g u s. (ok tt, (s.0, (g ++ user_of u) ∷ s.1));
  delete_membership = λ m s. (ok tt, s);
}

found_more :
    (x t u : Text) (ts : List Text) → found (mem t ts) t ≡ ok u → found (mem t (x ∷ ts)) t ≡ ok u
unfolding mem
found_more x t u ts h = ground (arith, Bool-cases (mem t ts))

found_first : (t : Text) (ts : List Text) → found (mem t (t ∷ ts)) t ≡ ok t
unfolding mem
found_first t ts = ground (arith, teq_refl t)

found_answers :
    (t : Text) (ts : List Text)
    → (found (mem t ts) t ≡ err not_found) ⊎ ((u : Text) × (found (mem t ts) t ≡ ok u))
found_answers t ts = elim (Bool-cases (mem t ts)) [
  | inl e ↦ inr (t, rw e refl)
  | inr n ↦ inl (rw n refl)
]

list_members-KeepsMembers : KeepsMembers list_members
list_members-KeepsMembers = record {
  user_answers = λ e s. found_answers e s.0;
  membership_answers = λ g u s. found_answers (g ++ u) s.1;
  user_created = λ e f l s h. (
    e,
    refl,
    found_first e s.0,
    record { users = λ t u k. found_more e t u s.0 k; groups = λ g. refl; members = λ g u m k. k },
  );
  membership_created = λ g u s h. (
    g ++ u,
    refl,
    found_first (g ++ u) s.1,
    record {
      users = λ t v k. k;
      groups = λ i. refl;
      members = λ i v m k. found_more (g ++ u) (i ++ v) m s.1 k;
    },
  );
}

abbrev domains : List Text
domains = codes "justice.gov.uk" ∷ []

abbrev email : Text
email = codes "ada.king2@justice.gov.uk"

abbrev readers : Text
readers = codes "readers"

abbrev holding_group : Text
holding_group = codes "holding"

email_name : get_name_from_email domains email ≡ some (codes "Ada", codes "King")
unfolding get_name_from_email checked in_two titled title title_from title_char no_digits is_digit
    is_lower is_upper lower split mem teq
email_name = refl

add_user_to_group_lem_example :
    (s' : Members) × (u : Text) × (m : Text) × (m' : Text) × (add_user_to_group list_members domains
        holding_group email readers
        ([], [])
      ≡ (ok tt, s'))
    × (found (mem email s'.0) email ≡ ok u)
    × (found (mem (readers ++ u) s'.1) (readers ++ u) ≡ ok m)
    × (found (mem (holding_group ++ u) s'.1) (holding_group ++ u) ≡ ok m')
    × (add_user_to_group list_members domains holding_group email readers s' ≡ (ok tt, s'))
unfolding teq
add_user_to_group_lem_example =
    add_user_to_group_lem list_members list_members-KeepsMembers domains holding_group email readers
      readers holding_group (codes "Ada", codes "King") ([], []) refl email_name refl refl
