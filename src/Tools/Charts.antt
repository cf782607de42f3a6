-- ===== src/Tools/Charts.antt =====
-- `get_chart_details` of `ToolDeployment` in controlpanel/api/cluster.py: the name and the version of a chart.
use analytics_platform_contr.Prelude.{
  ℕ, ◌≡◌, refl, ◌==◌, Text, codes, Bool, true, false, not, Option, none, some, [], ◌∷◌, ◌++◌, any,
  contains, if◌then◌else◌, arith,
}

-- A character in front of the first part
unfoldable pub in_front : ℕ → Option (Text × Text) → Text → Option (Text × Text)
in_front c (some (a, b)) s = some (c ∷ a, b)
in_front c none s = if c == b'-' then some ([], s) else none

-- chart.rsplit("-", 1), taken apart: ValueError, here none, without "-"
unfoldable pub rsplit : Text → Option (Text × Text)
rsplit [] = none
rsplit (c ∷ s) = in_front c (rsplit s) s

-- The version with its "rc" tag behind it
unfoldable pub with_tag : Text → Option (Text × Text) → Option (Text × Text)
with_tag rc_tag none = none
with_tag rc_tag (some (chart_name, chart_version)) =
    some (chart_name, chart_version ++ (codes "-" ++ rc_tag))

unfoldable pub details_of : Option (Text × Text) → Option (Text × Text)
details_of none = none
details_of (some (chart_name, chart_version)) =
    if not (contains (codes "rc") chart_version)
    then some (chart_name, chart_version)
    else with_tag chart_version (rsplit chart_name)

unfoldable pub get_chart_details : Text → Option (Text × Text)
get_chart_details chart = details_of (rsplit chart)

abbrev has_dash : Text → Bool
has_dash = any (λ c. c == b'-')

rsplit_without : (s : Text) → has_dash s ≡ false → rsplit s ≡ none
unfolding rsplit in_front
rsplit_without [] h = refl
rsplit_without (c ∷ s) h = ground (arith, rsplit_without s)

rsplit-append : (a b : Text) → has_dash b ≡ false → rsplit (a ++ (codes "-" ++ b)) ≡ some (a, b)
unfolding rsplit in_front
rsplit-append [] b h = rw (rsplit_without b h) refl
rsplit-append (c ∷ a) b h = rw (rsplit-append a b h) refl

-- The name and the version of a chart are taken apart again, with an "rc" tag or without one.
get_chart_details-join :
    (name version tag : Text)
    → has_dash version ≡ false
    → contains (codes "rc") version ≡ false
    → has_dash tag ≡ false
    → contains (codes "rc") tag ≡ true
    → (get_chart_details (name ++ (codes "-" ++ version)) ≡ some (name, version))
      × (get_chart_details ((name ++ (codes "-" ++ version)) ++ (codes "-" ++ tag))
          ≡ some (name, version ++ (codes "-" ++ tag)))
unfolding get_chart_details details_of with_tag
get_chart_details-join name version tag h plain k tagged = (
  rw (rsplit-append name version h, plain) refl,
  rw (rsplit-append (name ++ (codes "-" ++ version)) tag k, tagged, rsplit-append name version h)
      refl,
)
