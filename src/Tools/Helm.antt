-- ===== src/Tools/Helm.antt =====
-- controlpanel/api/helm.py. What comes of the process is an argument, and `lower` is that of ASCII.
pub mod Errors
use analytics_platform_contr.Prelude.{
  ℕ, ◌==◌, Text, codes, teq, mem, Bool, true, false, ◌&&◌, ◌||◌, Option, none, some, List, [], ◌∷◌,
  ◌++◌, any, map, contains, join, if◌then◌else◌,
}
use analytics_platform_contr.Prelude.Exec.{Result, ok, err}
use analytics_platform_contr.Aws.Arn.{lower}

-- HelmError and its subclasses, and the ValueError of `delete`
pub data Error : Type 0 where
  helm_error release_not_found timed_out in_progress value_error : Error

-- The process raises OSError or SubprocessError, or ends with a code, its output and its errors.
pub data Process : Type 0 where
  os_error subprocess_error : Process
  finished : ℕ → Text → Text → Process

-- TRANSIENT_ERROR_PATTERNS
unfoldable pub transient_error_patterns : List Text
transient_error_patterns = codes "\" not found" ∷ codes "already exists" ∷ []

unfoldable pub is_transient_pattern : Text → Bool
is_transient_pattern errs =
    any (λ pattern. contains (lower pattern) (lower errs)) transient_error_patterns

unfoldable pub is_upgrade_with_wait : List Text → Bool
is_upgrade_with_wait args =
    contains (codes "upgrade") (lower (join (codes " ") args)) && mem (codes "--wait") args

-- What a process that failed with these errors comes to: an error, or None for a transient one.
unfoldable pub failed : List Text → Text → Result Error (Option Text)
failed args errs =
    let has : Text → Bool = λ pattern. contains pattern (lower errs) in
    if has (codes "error: uninstall: release not loaded")
    then err release_not_found
    else if has (codes "context deadline exceeded")
    then err timed_out
    else if has (codes "another operation") && has (codes "in progress")
    then err in_progress
    else if is_transient_pattern errs && is_upgrade_with_wait args
    then ok none
    else err helm_error

-- `_execute`: the output of the process, or None
unfoldable pub execute : List Text → Bool → Process → Result Error (Option Text)
execute args true proc = ok none
execute args false os_error = err helm_error
execute args false subprocess_error = err helm_error
execute args false (finished returncode stdout errs) =
    if returncode == 0 then ok (some stdout) else failed args errs

unfoldable pub upgrade_args : Text → Text → List Text → List Text
upgrade_args release chart args =
    codes "upgrade"
    ∷ codes "--install"
    ∷ codes "--wait"
    ∷ codes "--timeout"
    ∷ codes "7m0s"
    ∷ release
    ∷ chart
    ∷ args

unfoldable pub upgrade_release : Text → Text → List Text → Process → Result Error (Option Text)
upgrade_release release chart args proc = execute (upgrade_args release chart args) false proc

-- `timeout` is settings.HELM_DELETE_TIMEOUT.
unfoldable pub delete_args : Text → Text → List Text → Bool → List Text
delete_args timeout namespace releases wait =
    codes "uninstall"
    ∷ (releases
        ++ codes "--namespace"
          ∷ namespace
          ∷ (if wait then codes "--wait" ∷ codes "--timeout" ∷ timeout ∷ [] else []))

-- The result is dropped.
unfoldable pub forget : Result Error (Option Text) → Result Error Unit
forget (ok o) = ok tt
forget (err e) = err e

unfoldable pub delete : Text → Text → List Text → Bool → Bool → Process → Result Error Unit
delete timeout namespace releases dry_run wait proc =
    if teq namespace []
    then err value_error
    else forget (execute (delete_args timeout namespace releases wait) dry_run proc)
