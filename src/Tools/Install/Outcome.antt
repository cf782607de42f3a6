-- ===== src/Tools/Install/Outcome.antt =====
-- When an installation counts as done.
use analytics_platform_contr.Prelude.{
  ◌≡◌, refl, ◌==◌, Text, codes, true, false, [], ◌∷◌, Option, none, some, List, arith,
  if◌then◌else◌, contains, all,
}
use analytics_platform_contr.Prelude.Exec.{Result, ok, err}
use analytics_platform_contr.Aws.Arn.{lower}
use analytics_platform_contr.Tools.Helm.{
  Process, os_error, subprocess_error, finished, is_transient_pattern, is_upgrade_with_wait, failed,
  execute, upgrade_release, transient_error_patterns,
}
use analytics_platform_contr.Tools.Helm.Errors.{upgrade_waits}
use analytics_platform_contr.Tools.Install.{
  Tool, User, Settings, DeploymentError, Value, set_values, deployment_error, timeout_error,
  conflict_error, raised, release_name, chart_reference, install,
}

-- What the errors of a failed upgrade mean, by the phrases that stand in them in lower case.
abbrev meanings : List (List Text × Result DeploymentError (Option Text))
meanings =
    (codes "error: uninstall: release not loaded" ∷ [], err deployment_error)
    ∷ (codes "context deadline exceeded" ∷ [], err timeout_error)
    ∷ (codes "another operation" ∷ codes "in progress" ∷ [], err conflict_error)
    ∷ (codes "\" not found" ∷ [], ok none)
    ∷ (codes "already exists" ∷ [], ok none)
    ∷ []

-- The first that applies, and an error where none does
abbrev meaning_in :
    List (List Text × Result DeploymentError (Option Text))
    → Text
    → Result DeploymentError (Option Text)
meaning_in [] errs = err deployment_error
meaning_in ((phrases, r) ∷ others) errs =
    if all (λ phrase. contains phrase errs) phrases then r else meaning_in others errs

abbrev pub outcome_of : Text → Result DeploymentError (Option Text)
outcome_of errs = meaning_in meanings (lower errs)

abbrev pub process_outcome : Process → Result DeploymentError (Option Text)
process_outcome os_error = err deployment_error
process_outcome subprocess_error = err deployment_error
process_outcome (finished returncode stdout errs) =
    if returncode == 0 then ok (some stdout) else outcome_of errs

-- The outcome of an installation whose values give these arguments, or no arguments.
abbrev pub install_outcome :
    Result DeploymentError (List Text) → Process → Result DeploymentError (Option Text)
install_outcome (err e) proc = err e
install_outcome (ok args) proc = process_outcome proc

raised-failed :
    (args : List Text) (errs : Text)
    → is_upgrade_with_wait args ≡ true
    → raised (failed args errs) ≡ outcome_of errs
unfolding raised failed is_transient_pattern transient_error_patterns lower
raised-failed args errs h = ground (arith, h)

raised-execute :
    (args : List Text) (proc : Process)
    → is_upgrade_with_wait args ≡ true
    → raised (execute args false proc) ≡ process_outcome proc
unfolding raised execute
raised-execute args os_error h = refl
raised-execute args subprocess_error h = refl
raised-execute args (finished returncode stdout errs) h = ground (arith, raised-failed args errs h)

module _ (settings : Settings) (user : User) (tool : Tool) (token_of : Text → Text)
    (kwargs : List (Text × Value)) where
  upgrade-outcome :
      (proc : Process) (args : List Text)
      → raised (
          upgrade_release
            (release_name settings user tool)
            (chart_reference settings user tool)
            args
            proc)
        ≡ process_outcome proc
  unfolding upgrade_release
  upgrade-outcome proc args =
      raised-execute _ proc
        (upgrade_waits (release_name settings user tool) (chart_reference settings user tool) args)

  -- Whatever the tool, the user and the values: an installation is an AttributeError where the
  -- values give no arguments; else one whose process succeeds gives its output, one that cannot be
  -- run is an error, and one that fails is, by the first that stands in its errors, an error for a
  -- release that is not loaded, a timeout for an exceeded deadline, a conflict for another
  -- operation in progress, done for a quoted name that is not found or a resource that already
  -- exists, and an error for anything else.
  pub install_lem :
      (proc : Process)
      → install settings user tool token_of kwargs proc
        ≡ install_outcome (set_values settings user tool token_of kwargs) proc
  unfolding install
  install_lem proc =
      elim (set_values settings user tool token_of kwargs)
        as (λ r.
          elim r [
            | err e ↦ err e
            | ok args ↦ raised (
                upgrade_release (release_name settings user tool)
                  (chart_reference settings user tool)
                  (codes "--version"
                    ∷ tool.version
                    ∷ codes "--namespace"
                    ∷ user.k8s_namespace
                    ∷ args)
                  proc)
          ]
          ≡ install_outcome r proc) [
            | err e ↦ refl
            | ok args ↦
                upgrade-outcome proc (
                  codes "--version"
                  ∷ tool.version
                  ∷ codes "--namespace"
                  ∷ user.k8s_namespace
                  ∷ args)
          ]
