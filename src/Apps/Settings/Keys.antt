-- ===== src/Apps/Settings/Keys.antt =====
-- Names of keys with and without the prefix of self-defined settings.
use analytics_platform_contr.Prelude.{
  ◌≡◌, Text, mem, Bool, false, ◌||◌, ◌++◌, arith, starts_with, starts_with-append,
  remove_once-append, Bool-cases, inl, inr,
}
use analytics_platform_contr.Apps.Settings.{
  Settings, format_github_key_name, get_github_key_display_name,
}

module _ (settings : Settings) where
  abbrev prefix : Text
  prefix = settings.app_self_define_setting_prefix

  -- Whether the name is one of the mandatory settings.
  abbrev pub is_mandatory : Text → Bool
  is_mandatory k = mem k settings.auth_settings_envs || mem k settings.auth_settings_secrets

  -- A key without the prefix, formatted for GitHub and then for display, is itself.
  display-format :
      (k : Text)
      → starts_with k settings.app_self_define_setting_prefix ≡ false
      → get_github_key_display_name settings (format_github_key_name settings k) ≡ k
  unfolding get_github_key_display_name format_github_key_name
  display-format k h = elim (Bool-cases (is_mandatory k)) [
    | inl m ↦ ground (arith, m, h)
    | inr n ↦ ground (arith, n, h, starts_with-append prefix k, remove_once-append prefix k)
  ]

  -- A name with the prefix is displayed without it, and formatted again is itself, where the rest of it is
  -- neither mandatory nor has the prefix once more.
  format-display :
      (rest : Text)
      → (is_mandatory rest || starts_with rest settings.app_self_define_setting_prefix) ≡ false
      → let name = settings.app_self_define_setting_prefix ++ rest in
        (get_github_key_display_name settings name ≡ rest)
        × (format_github_key_name settings (get_github_key_display_name settings name) ≡ name)
  unfolding get_github_key_display_name format_github_key_name
  format-display rest h =
      let e : get_github_key_display_name settings (prefix ++ rest) ≡ rest =
        ground (arith, starts_with-append prefix rest, remove_once-append prefix rest) in
      (e, rw e (ground arith))
