-- ===== src/Aws/IdentityStore/Names.antt =====
-- `get_name_from_email` of `AWSIdentityStore` in controlpanel/api/aws.py; `lower`, `title` and `isdigit`
-- are those of ASCII.
use analytics_platform_contr.Prelude.{
  ℕ, ◌+◌, ◌-◌, Text, mem, Bool, true, false, not, ◌&&◌, ◌||◌, ◌==◌, leb, Option, none, some, List,
  [], ◌∷◌, split, filter, any, if◌then◌else◌,
}
use analytics_platform_contr.Aws.Arn.{lower}

unfoldable pub is_lower : ℕ → Bool
is_lower c = leb b'a' c && leb c b'z'

unfoldable pub is_upper : ℕ → Bool
is_upper c = leb b'A' c && leb c b'Z'

-- str.isdigit of a character
unfoldable pub is_digit : ℕ → Bool
is_digit c = leb b'0' c && leb c b'9'

-- One character of str.title, by whether a letter stands before it
unfoldable pub title_char : Bool → ℕ → ℕ
unfolding is_lower is_upper
title_char false c = if is_lower c then c - 32 else c
title_char true c = if is_upper c then c + 32 else c

unfoldable pub title_from : Bool → Text → Text
title_from inside [] = []
title_from inside (c ∷ s) = title_char inside c ∷ title_from (is_lower c || is_upper c) s

-- str.title
unfoldable pub title : Text → Text
title s = title_from false s

-- a, b = parts: ValueError, here none, for any other number of parts
unfoldable pub in_two : List Text → Option (Text × Text)
in_two (a ∷ b ∷ []) = some (a, b)
in_two _ = none

-- "".join((c for c in surname if not c.isdigit()))
unfoldable pub no_digits : Text → Text
no_digits s = filter (λ c. not (is_digit c)) s

unfoldable pub titled : Option (Text × Text) → Option (Text × Text)
titled none = none
titled (some (forename, surname)) = some (title forename, title (no_digits surname))

-- The checks of a name and an address, in their order
unfoldable pub checked : List Text → Option (Text × Text) → Option (Text × Text)
checked allowed_domains none = none
checked allowed_domains (some (name, address)) =
    if mem (lower address) allowed_domains
    then (if any (λ c. c == b'.') name then titled (in_two (split b'.' name)) else none)
    else none

-- ValueError is none.
unfoldable pub get_name_from_email : List Text → Text → Option (Text × Text)
get_name_from_email allowed_domains user_email =
    checked allowed_domains (in_two (split b'@' user_email))
