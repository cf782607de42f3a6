-- ===== src/Tools/Helm/Errors.antt =====
-- Which upgrades count as done, and which error any other raises.
use analytics_platform_contr.Prelude.{
  ◌≡◌, refl, Text, mem, teq, true, List, [], ◌∷◌, contains, starts_with, join,
}
use analytics_platform_contr.Aws.Arn.{lower}
use analytics_platform_contr.Tools.Helm.{is_upgrade_with_wait, upgrade_args}

contains-starts : (p s : Text) → starts_with s p ≡ true → contains p s ≡ true
unfolding contains
contains-starts p [] h = h
contains-starts p (c ∷ s) h = rw h refl

-- Every upgrade is one with "--wait", whatever the release, the chart and the values are called.
pub upgrade_waits :
    (release chart : Text) (args : List Text)
    → is_upgrade_with_wait (upgrade_args release chart args) ≡ true
unfolding is_upgrade_with_wait upgrade_args join lower starts_with contains mem teq
upgrade_waits release chart args = refl
