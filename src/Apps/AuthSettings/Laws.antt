-- ===== src/Apps/AuthSettings/Laws.antt =====
-- What is saved for an environment is read back, and clearing it takes it away; other environments and the
-- "m2m" client are left alone.
use analytics_platform_contr.Prelude.{
  ◌≡◌, refl, Text, codes, teq, teq_refl, teq_iff, false, Option, some, List, [], ◌∷◌, arith,
  if◌then◌else◌, Option-cases, inl, inr,
}
use analytics_platform_contr.Prelude.Dicts.{get, put_key, put_all, get-put_key, get-del_key}
use analytics_platform_contr.Apps.AuthSettings.{
  AuthInfo, AppRow, auth_settings, env_or_primary, get_auth_client, info_of, save, init_app_conf,
  auth_client_info, update_info, info_or_empty, with_default, save_auth_settings,
  clear_auth_settings, m2m_client_id,
}

get-with_default :
    (env_name e : Text) (d : List (Text × AuthInfo))
    → info_or_empty (get e (with_default env_name d (get env_name d))) ≡ info_or_empty (get e d)
get-with_default env_name e d = elim (Option-cases (get env_name d)) [
  | inl n ↦ ground (arith, n, get-put_key env_name e [] d, teq_iff env_name e)
  | inr (i, h) ↦ rw h refl
]

-- The ids that are saved are read, whatever was there.
module _ (c g : Option Text) where
  client_id_lem :
      (i : AuthInfo)
      → info_of (codes "client_id") (put_all (auth_client_info (some c) (some g)) i) ≡ c
  unfolding info_of put_all auth_client_info teq
  client_id_lem i = ground (
    arith,
    get-put_key (codes "group_id") (codes "client_id") g (put_key (codes "client_id") c i),
    get-put_key (codes "client_id") (codes "client_id") c i,
  )

  group_id_lem :
      (i : AuthInfo)
      → info_of (codes "group_id") (put_all (auth_client_info (some c) (some g)) i) ≡ g
  unfolding info_of put_all auth_client_info teq
  group_id_lem i =
      ground (
        arith,
        get-put_key (codes "group_id") (codes "group_id") g (put_key (codes "client_id") c i),
      )

stored_clear :
    (env_name : Text) (r : AppRow)
    → r.stored ≡ r.app_conf
    → (clear_auth_settings env_name r).stored ≡ (clear_auth_settings env_name r).app_conf
unfolding clear_auth_settings save
stored_clear env_name r kept = elim (Option-cases (get env_name (auth_settings r))) [
  | inl n ↦ ground (arith, n)
  | inr ([], h) ↦ ground (arith, h)
  | inr (i ∷ is, h) ↦ ground (arith, h)
]

module _ (env_name : Text) (r : AppRow) (named : teq env_name [] ≡ false) where
  -- The dictionary after the settings of an environment are updated
  get-update_info :
      (info : AuthInfo) (e : Text)
      → let r' = update_info env_name info (init_app_conf env_name r) in
        (info_or_empty (get e (auth_settings r')) ≡ (
          if teq env_name e
          then put_all info (info_or_empty (get env_name (auth_settings r)))
          else info_or_empty (get e (auth_settings r))))
        × (m2m_client_id r' ≡ m2m_client_id r)
  unfolding update_info init_app_conf auth_settings m2m_client_id
  get-update_info info e =
      let d = auth_settings r in
      (
        ground (
          arith,
          get-put_key env_name e
              (put_all info
                (info_or_empty (get env_name (with_default env_name d (get env_name d)))))
              (with_default env_name d (get env_name d)),
          get-with_default env_name e d,
          get-with_default env_name env_name d,
        ),
        ground (arith, Option-cases r.app_conf),
      )

  get-clear :
      (e : Text)
      → let r' = clear_auth_settings env_name r in
        (info_or_empty (get e (auth_settings r'))
          ≡ (if teq env_name e then [] else info_or_empty (get e (auth_settings r))))
        × (m2m_client_id r' ≡ m2m_client_id r)
  unfolding clear_auth_settings auth_settings m2m_client_id save
  get-clear e = elim (Option-cases (get env_name (auth_settings r))) [
    | inl n ↦ (ground (arith, n, teq_iff env_name e), ground (arith, n))
    | inr ([], h) ↦ (ground (arith, h, teq_iff env_name e), ground (arith, h))
    | inr (i ∷ is, h) ↦ (
      ground (arith, h, get-del_key env_name e (auth_settings r)),
      ground (arith, h, Option-cases r.app_conf),
    )
  ]

  named_env : env_or_primary env_name ≡ env_name
  unfolding env_or_primary
  named_env = rw named refl

module _ (env_name : Text) (r : AppRow) (named : teq env_name [] ≡ false) where
  -- After the ids of a client and of a group are saved for an environment with a name, they are the
  -- ones read for it; the settings of another environment with a name and the id of the m2m client
  -- are as before, and the row is stored.
  pub save_auth_settings-get :
      (c g : Option Text) (e : Text)
      → teq e [] ≡ false
      → teq env_name e ≡ false
      → let r' = save_auth_settings env_name (some c) (some g) r in
        (info_of (codes "client_id") (get_auth_client env_name r') ≡ c)
        × (info_of (codes "group_id") (get_auth_client env_name r') ≡ g)
        × (get_auth_client e r' ≡ get_auth_client e r)
        × (m2m_client_id r' ≡ m2m_client_id r)
        × (r'.stored ≡ r'.app_conf)
  unfolding save_auth_settings get_auth_client save auth_settings m2m_client_id
  save_auth_settings-get c g e other apart =
      let info = auth_client_info (some c) (some g) in
      let (here, m2m) = get-update_info env_name r named info env_name in
      let (there, _) = get-update_info env_name r named info e in
      (
        rw (named_env env_name r named, here, teq_refl env_name)
            (client_id_lem c g (info_or_empty (get env_name (auth_settings r)))),
        rw (named_env env_name r named, here, teq_refl env_name)
            (group_id_lem c g (info_or_empty (get env_name (auth_settings r)))),
        rw (named_env e r other, there, apart) refl,
        m2m,
        refl,
      )

  -- Clearing the settings of an environment leaves those of others, and the m2m client.
  clear_auth_settings-get :
      (e : Text)
      → teq e [] ≡ false
      → teq env_name e ≡ false
      → r.stored ≡ r.app_conf
      → let r' = clear_auth_settings env_name r in
        (get_auth_client env_name r' ≡ [])
        × (get_auth_client e r' ≡ get_auth_client e r)
        × (m2m_client_id r' ≡ m2m_client_id r)
        × (r'.stored ≡ r'.app_conf)
  unfolding get_auth_client
  clear_auth_settings-get e other apart kept =
      let (here, m2m) = get-clear env_name r named env_name in
      let (there, _) = get-clear env_name r named e in
      (
        rw (named_env env_name r named, here, teq_refl env_name) refl,
        rw (named_env e r other, there, apart) refl,
        m2m,
        stored_clear env_name r kept,
      )
