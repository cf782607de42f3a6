-- ===== src/Apps/AuthSettings.antt =====
-- The settings of an app for Auth0, kept under "auth_settings" in its `app_conf`, and the client under "m2m":
-- `App` of controlpanel/api/models/app.py, and `create_m2m_client`, `rotate_m2m_client_secret` and
-- `delete_m2m_client` of controlpanel/api/cluster.py. A dictionary of an environment's settings is an
-- association list. What Auth0 answers is an argument.
pub mod Laws
mod Tests
use analytics_platform_contr.Prelude.{
  Text, codes, teq, Option, none, some, List, [], ◌∷◌, if◌then◌else◌, Bool, true, false, not, ◌&&◌,
}
use analytics_platform_contr.Prelude.Dicts.{get, put_key, put_all, del_key}

-- {"client_id": …, "group_id": …}, either of them None or not there
abbrev pub AuthInfo : Type 0
AuthInfo = List (Text × Option Text)

-- The members of `app_conf` that are read; a member that is not there is `none`, and "m2m" is its client id.
pub record AppConf : Type 0 where
  pub auth_settings : Option (List (Text × AuthInfo))
  pub m2m : Option (Option Text)

-- The object, and the row that `save` writes
pub record AppRow : Type 0 where
  pub app_conf : Option AppConf
  pub stored : Option AppConf

-- {}
abbrev pub empty_conf : AppConf
empty_conf = record { auth_settings = none; m2m = none }

-- self.app_conf or {}
abbrev pub conf_of : AppRow → AppConf
conf_of r = elim r.app_conf [ none ↦ empty_conf | some c ↦ c ]

-- (self.app_conf or {}).get(KEY_WORD_FOR_AUTH_SETTINGS, {})
unfoldable pub auth_settings : AppRow → List (Text × AuthInfo)
auth_settings r = elim (conf_of r).auth_settings [ none ↦ [] | some d ↦ d ]

abbrev pub info_or_empty : Option AuthInfo → AuthInfo
info_or_empty none = []
info_or_empty (some i) = i

-- d.setdefault(env_name, {}), given d.get(env_name)
abbrev pub with_default : Text → List (Text × AuthInfo) → Option AuthInfo → List (Text × AuthInfo)
with_default env_name d none = put_key env_name [] d
with_default env_name d (some i) = d

-- env_name or DEFAULT_AUTH_CATEGORY
unfoldable pub env_or_primary : Text → Text
env_or_primary env_name = if teq env_name [] then codes "primary" else env_name

unfoldable pub get_auth_client : Text → AppRow → AuthInfo
get_auth_client env_name r = info_or_empty (get (env_or_primary env_name) (auth_settings r))

-- info.get(key), where None and a key that is not there are the same
unfoldable pub info_of : Text → AuthInfo → Option Text
info_of key i = elim (get key i) [ none ↦ none | some v ↦ v ]

unfoldable pub save : AppRow → AppRow
save r = record r { stored = r.app_conf }

-- The settings of the environment, with an empty dictionary where there were none
unfoldable pub init_app_conf : Text → AppRow → AppRow
init_app_conf env_name r = record r {
  app_conf = some (record (conf_of r) {
    auth_settings = some (with_default env_name (auth_settings r) (get env_name (auth_settings r)));
  });
}

-- auth_client_info, for a client and a group if there are any; their ids may be missing
unfoldable pub auth_client_info : Option (Option Text) → Option (Option Text) → AuthInfo
auth_client_info none none = []
auth_client_info (some c) none = (codes "client_id", c) ∷ []
auth_client_info none (some g) = (codes "group_id", g) ∷ []
auth_client_info (some c) (some g) = (codes "client_id", c) ∷ (codes "group_id", g) ∷ []

-- app_conf[KEY_WORD_FOR_AUTH_SETTINGS][env_name].update(info), behind `init_app_conf`
unfoldable pub update_info : Text → AuthInfo → AppRow → AppRow
update_info env_name info r = record r {
  app_conf = some (record (conf_of r) {
    auth_settings = some (
        put_key env_name (put_all info (info_or_empty (get env_name (auth_settings r))))
          (auth_settings r));
  });
}

unfoldable pub save_auth_settings :
    Text → Option (Option Text) → Option (Option Text) → AppRow → AppRow
save_auth_settings env_name none none r = r
save_auth_settings env_name client group r =
    save (update_info env_name (auth_client_info client group) (init_app_conf env_name r))

-- An empty dictionary is left where it is.
unfoldable pub clear_auth_settings : Text → AppRow → AppRow
clear_auth_settings env_name r = elim (get env_name (auth_settings r)) [
  | none ↦ r
  | some [] ↦ r
  | some (i ∷ is) ↦ save (record r {
    app_conf =
        some (record (conf_of r) { auth_settings = some (del_key env_name (auth_settings r)) });
  })
]

-- The loop of `get_auth0_group_list`: the environment of each group
unfoldable pub group_list : List (Text × AuthInfo) → List (Text × Text) → List (Text × Text)
group_list [] groups = groups
group_list ((env_name, info) ∷ d) groups = elim (info_of (codes "group_id") info) [
  | none ↦ group_list d groups
  | some [] ↦ group_list d groups
  | some (c ∷ g) ↦ group_list d (put_key (c ∷ g) env_name groups)
]

unfoldable pub get_auth0_group_list : AppRow → List (Text × Text)
get_auth0_group_list r = group_list (auth_settings r) []

unfoldable pub m2m_client_id : AppRow → Option Text
m2m_client_id r = elim r.app_conf [
  | none ↦ none
  | some c ↦ elim c.m2m [ none ↦ none | some id ↦ id ]
]

-- `create_m2m_client`, given the id of the client that Auth0 set up
unfoldable pub create_m2m_client : Text → AppRow → AppRow
create_m2m_client client_id r =
    save (record r { app_conf = some (record (conf_of r) { m2m = some (some client_id) }) })

-- self.app_conf.pop("m2m", None) and save; AttributeError, here none, without a dictionary
unfoldable pub drop_m2m : AppRow → Option AppRow
drop_m2m r = elim r.app_conf [
  | none ↦ none
  | some c ↦ some (save (record r { app_conf = some (record c { m2m = none }) }))
]

-- `rotate_m2m_client_secret`, given whether Auth0 still has the client
unfoldable pub rotate_m2m_client_secret : Bool → AppRow → Option AppRow
rotate_m2m_client_secret true r = some r
rotate_m2m_client_secret false r = drop_m2m r

-- `delete_m2m_client`, behind the call of Auth0
unfoldable pub delete_m2m_client : AppRow → Option AppRow
delete_m2m_client r = drop_m2m r
