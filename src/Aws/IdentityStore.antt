-- ===== src/Aws/IdentityStore.antt =====
-- `AWSIdentityStore` of controlpanel/api/aws.py. The client of the identity store is a parameter, and
-- the id of the store, which `AWSSSOAdmin` looks up once, is left to it.
pub mod Names
pub mod Memberships
mod Tests
use analytics_platform_contr.Prelude.{
  Text, codes, teq, mem, Bool, true, false, not, ◌&&◌, ◌||◌, Option, none, some, List, [], ◌∷◌,
  ◌++◌, if◌then◌else◌, leb,
}
use analytics_platform_contr.Prelude.Exec.{Result, Exec, ok, err, pure, raise, ◌>>=◌, ◌>>◌}
use analytics_platform_contr.Aws.IdentityStore.Names.{get_name_from_email}

-- The client's ResourceNotFoundException, another error of the client, and ValueError.
pub data Error : Type 0 where
  not_found client_error value_error : Error

pub record IdentityClient (Store : Type 0) : Type 0 where
  pub get_user_id : Text → Store → Result Error Text
  pub get_group_id : Text → Store → Result Error Text
  pub get_membership_id : Text → Text → Store → Result Error Text
  pub create_user : Text → Text → Text → Exec Error Store Unit
  pub create_membership : Text → Option Text → Exec Error Store Unit
  pub delete_membership : Text → Exec Error Store Unit

-- except ResourceNotFoundException: return None
unfoldable pub none_if_missing : Result Error Text → Result Error (Option Text)
none_if_missing (ok id) = ok (some id)
none_if_missing (err not_found) = ok none
none_if_missing (err client_error) = err client_error
none_if_missing (err value_error) = err value_error

module _ {Store : Type 0} (client : IdentityClient Store) where
  unfoldable pub get_user_id : Text → Exec Error Store (Option Text)
  get_user_id user_email s = (none_if_missing (client.get_user_id user_email s), s)

  unfoldable pub get_group_id : Text → Exec Error Store Text
  get_group_id group_name s = (client.get_group_id group_name s, s)

  membership_of : Text → Option Text → Exec Error Store (Option Text)
  membership_of group_id none s = (ok none, s)
  membership_of group_id (some user_id) s =
      (none_if_missing (client.get_membership_id group_id user_id s), s)

  unfoldable pub get_group_membership_id : Text → Text → Exec Error Store (Option Text)
  unfolding get_group_id get_user_id membership_of
  get_group_membership_id group_name user_email = do
    group_id ← get_group_id group_name
    user_id ← get_user_id user_email
    membership_of group_id user_id

  create_named : Text → Option (Text × Text) → Exec Error Store Unit
  create_named user_email none s = (err value_error, s)
  create_named user_email (some (forename, surname)) s =
      client.create_user user_email forename surname s

  -- The error is sent to a monitor and raised again. A user who is there is left alone.
  unfoldable pub create_user : List Text → Text → Exec Error Store Unit
  unfolding get_user_id create_named
  create_user domains user_email = do
    found ← get_user_id user_email
    elim found [
      | some _ ↦ pure tt
      | none ↦ create_named user_email (get_name_from_email domains user_email)
    ]

  -- A user who is not there has no id, and the client is called with none.
  unfoldable pub create_group_membership : Text → Text → Exec Error Store Unit
  unfolding get_group_id get_user_id get_group_membership_id
  create_group_membership user_email group_name = do
    group_id ← get_group_id group_name
    user_id ← get_user_id user_email
    membership_id ← get_group_membership_id group_name user_email
    elim membership_id [ some _ ↦ pure tt | none ↦ client.create_membership group_id user_id ]

  unfoldable pub delete_group_membership : Text → Text → Exec Error Store Unit
  unfolding get_group_membership_id
  delete_group_membership user_email group_name = do
    membership_id ← get_group_membership_id group_name user_email
    elim membership_id [ none ↦ pure tt | some m ↦ client.delete_membership m ]

  -- `holding` is settings.AZURE_HOLDING_GROUP_NAME.
  unfoldable pub add_user_to_group : List Text → Text → Text → Text → Exec Error Store Unit
  add_user_to_group domains holding justice_email quicksight_group =
      if teq justice_email []
      then raise value_error
      else (create_user domains justice_email
          >> (create_group_membership justice_email quicksight_group
              >> create_group_membership justice_email holding))
