-- ===== src/Apps/Settings/Listing.antt =====
-- What is listed: every mandatory secret once, none of another system, and no value of a secret.
use mathlib.Core.List.{append_assoc, append-nil}
use analytics_platform_contr.Prelude.{
  ◌≡◌, refl, ◌∙◌, Text, teq, teq_comm, mem, mem-append, Bool, true, false, not, ◌&&◌, ◌||◌, none,
  some, List, [], ◌∷◌, ◌++◌, map, arith, all, all-append, map-append, filter-append, teq_refl,
  difference, mem-difference, IsDistinct, IsDistinct-difference, IsDistinct-append, Bool-cases, inl,
  inr, filter, mem-filter_iff, IsDistinct-filter,
}
use analytics_platform_contr.Apps.Settings.{
  Settings, Item, Listed, ip_ranges, app_role_arn, is_hidden_secret, missing_item, add_missing,
  add_missing_mandatory_secrets, created_item, append_value, shown_value, add_secret, add_secrets,
  get_env_secrets,
}

abbrev pub names_of : List Item → List Text
names_of = map (λ i. i.name)

module _ (settings : Settings) (env_name : Text) where
  -- Whether a listed secret is shown: that of the role is shown first.
  abbrev is_shown : Text → Bool
  is_shown name = not (is_hidden_secret settings name || teq name app_role_arn)

  names-add_missing :
      (names : List Text) (items : List Item)
      → names_of (add_missing settings env_name names items) ≡ names_of items ++ names
  unfolding add_missing missing_item
  names-add_missing [] items = simp append-nil
  names-add_missing (n ∷ names) items =
      names-add_missing names (items ++ missing_item settings env_name n ∷ [])
      ∙ rw (map-append (λ i. i.name) items (missing_item settings env_name n ∷ []))
          (append_assoc (names_of items) (n ∷ []) names)

  module _ (ip_names : Text) where
    -- The name is appended to both lists if it is shown.
    names-add_secret :
        (n : Text) (l : Listed)
        → let l' = add_secret settings env_name ip_names n l in
          let new = filter is_shown (n ∷ []) in
          (names_of l'.variables ≡ names_of l.variables ++ new)
          × (l'.created_names ≡ l.created_names ++ new)
    unfolding add_secret append_value created_item
    names-add_secret n l = elim (Bool-cases (is_hidden_secret settings n || teq n app_role_arn)) [
      | inl h ↦ rw h (simp append-nil, simp append-nil)
      | inr s ↦
          let item = created_item settings env_name n (shown_value settings ip_names n) in
          rw s (map-append (λ i. i.name) l.variables (item ∷ []), refl)
    ]

    names-add_secrets :
        (names : List Text) (l : Listed)
        → let l' = add_secrets settings env_name ip_names names l in
          let new = filter is_shown names in
          (names_of l'.variables ≡ names_of l.variables ++ new)
          × (l'.created_names ≡ l.created_names ++ new)
    unfolding add_secrets
    names-add_secrets [] l = (simp append-nil, simp append-nil)
    names-add_secrets (n ∷ names) l =
        let (a, b) = names-add_secrets names (add_secret settings env_name ip_names n l) in
        let (c, d) = names-add_secret n l in
        let split : filter is_shown (n ∷ names)
            ≡ filter is_shown (n ∷ []) ++ filter is_shown names =
          filter-append is_shown (n ∷ []) names in
        (
          a
              ∙ rw (c, split)
                  (append_assoc (names_of l.variables) (filter is_shown (n ∷ []))
                    (filter is_shown names)),
          b
              ∙ rw (d, split)
                  (append_assoc l.created_names (filter is_shown (n ∷ [])) (filter is_shown names)),
        )

    module _ (arn : Text) (names : List Text) where
      abbrev listed : List Text
      listed = app_role_arn ∷ filter is_shown names

      names_lem :
          names_of (get_env_secrets settings arn ip_names env_name names)
          ≡ listed ++ difference settings.auth_settings_secrets listed
      unfolding get_env_secrets add_missing_mandatory_secrets append_value created_item
      names_lem =
          let start =
            append_value settings app_role_arn env_name arn
              (record { variables = []; created_names = [] }) in
          let (a, b) = names-add_secrets names start in
          rw
            (
              names-add_missing
                  (difference settings.auth_settings_secrets
                    (add_secrets settings env_name ip_names names start).created_names)
                  (add_secrets settings env_name ip_names names start).variables,
              a,
              b,
            )
            refl

      -- Where neither the names on GitHub nor the mandatory secrets repeat: the listing names no
      -- secret twice, and names exactly the ARN of the role, the mandatory secrets, and the names
      -- on GitHub that are not hidden.
      pub get_env_secrets-names :
          (n : Text)
          → IsDistinct names
          → IsDistinct settings.auth_settings_secrets
          → let shown = names_of (get_env_secrets settings arn ip_names env_name names) in
            (mem n shown ≡ (
              teq app_role_arn n
              || (mem n settings.auth_settings_secrets
                  || (mem n names && not (is_hidden_secret settings n)))))
            × IsDistinct shown
      unfolding mem
      get_env_secrets-names n h k =
          let missing = difference settings.auth_settings_secrets listed in
          let first : mem app_role_arn (filter is_shown names) ≡ false =
            ground (arith, mem-filter_iff app_role_arn is_shown names, teq_refl app_role_arn) in
          rw names_lem (
            ground (
              arith,
              mem-append n listed missing,
              mem-difference n settings.auth_settings_secrets listed,
              mem-filter_iff n is_shown names,
              teq_comm n app_role_arn,
            ),
            IsDistinct-append listed missing (first, IsDistinct-filter is_shown names h)
                (IsDistinct-difference settings.auth_settings_secrets listed k)
                (λ q m. ground (arith, mem-difference q settings.auth_settings_secrets listed, m)),
          )

  -- Whether an item shows no more than that its value is hidden.
  unfoldable pub is_masked : Item → Bool
  is_masked i =
      teq i.name app_role_arn
      || (teq i.name ip_ranges
          || (elim i.value [ none ↦ true | some v ↦ teq v settings.secret_display_value ]))

  masked-add_missing :
      (names : List Text) (items : List Item)
      → all is_masked items ≡ true
      → all is_masked (add_missing settings env_name names items) ≡ true
  unfolding add_missing missing_item is_masked
  masked-add_missing [] items h = h
  masked-add_missing (n ∷ names) items h =
      masked-add_missing names (items ++ missing_item settings env_name n ∷ [])
        (ground (arith, all-append is_masked items (missing_item settings env_name n ∷ [])))

  masked-add_secret :
      (ip_names n : Text) (l : Listed)
      → all is_masked l.variables ≡ true
      → all is_masked (add_secret settings env_name ip_names n l).variables ≡ true
  unfolding add_secret append_value created_item shown_value is_masked
  masked-add_secret ip_names n l h =
      let item = created_item settings env_name n (shown_value settings ip_names n) in
      ground (
        arith,
        all-append is_masked l.variables (item ∷ []),
        h,
        teq_comm n ip_ranges,
        teq_refl settings.secret_display_value,
      )

  masked-add_secrets :
      (ip_names : Text) (names : List Text) (l : Listed)
      → all is_masked l.variables ≡ true
      → all is_masked (add_secrets settings env_name ip_names names l).variables ≡ true
  unfolding add_secrets
  masked-add_secrets ip_names [] l h = h
  masked-add_secrets ip_names (n ∷ names) l h =
      masked-add_secrets ip_names names (add_secret settings env_name ip_names n l)
        (masked-add_secret ip_names n l h)

  -- For all settings and all names on GitHub, every item of the listing of secrets has no value or
  -- the display value, but the ARN of the role and the IP ranges.
  pub get_env_secrets-masked :
      (arn ip_names : Text) (names : List Text)
      → all is_masked (get_env_secrets settings arn ip_names env_name names) ≡ true
  unfolding get_env_secrets add_missing_mandatory_secrets is_masked append_value created_item
  get_env_secrets-masked arn ip_names names =
      let start =
        append_value settings app_role_arn env_name arn
          (record { variables = []; created_names = [] }) in
      let l = add_secrets settings env_name ip_names names start in
      masked-add_missing (difference settings.auth_settings_secrets l.created_names) l.variables
        (masked-add_secrets ip_names names start (ground (arith, teq_refl app_role_arn)))
