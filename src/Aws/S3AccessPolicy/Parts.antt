-- ===== src/Aws/S3AccessPolicy/Parts.antt =====
-- Which resources a revocation takes away, and the loop that takes them.
use analytics_platform_contr.Prelude.{
  ◌≡◌, refl, Text, teq_iff, Bool, true, false, not, List, [], ◌∷◌, ◌++◌, sym, ◌∙◌, length, drop,
  filter, starts_with, starts_with-append, drop-length-append, append-drop-starts_with, all, arith,
  Bool-cases, inl, inr,
}
use mathlib.Core.List.{append_assoc}
use mathlib.Core.Logic.{◌↔◌}
use analytics_platform_contr.Aws.S3AccessPolicy.{
  is_arn_part_of_resource, ends_part, remove_first, remove_parts,
}

-- A text that extends the ARN is part of it exactly when the extension ends the name.
pub part-append : (arn rest : Text) → is_arn_part_of_resource (arn ++ rest) arn ≡ ends_part rest
unfolding is_arn_part_of_resource
part-append arn rest = rw (starts_with-append arn rest, drop-length-append arn rest)

-- What follows the ARN in a resource that is part of it.
part-tail :
    (resource arn : Text)
    → is_arn_part_of_resource resource arn ≡ true
    → (rest : Text) × (resource ≡ arn ++ rest) × (ends_part rest ≡ true)
unfolding is_arn_part_of_resource
part-tail resource arn h = elim (Bool-cases (starts_with resource arn)) [
  | inl e ↦ (drop (length arn) resource, sym (append-drop-starts_with resource arn e), ground arith)
  | inr e ↦ ground arith
]

-- A resource is part of an ARN exactly when it is the ARN followed by nothing, or by a character
-- that no bucket name has.
part_iff :
    (resource arn : Text)
    → (is_arn_part_of_resource resource arn ≡ true)
      ↔ ((rest : Text) × (resource ≡ arn ++ rest) × (ends_part rest ≡ true))
part_iff resource arn =
    (part-tail resource arn, λ (rest, e, ends). rw e (part-append arn rest ∙ ends))

-- The test of the comprehension that the loop amounts to.
abbrev pub is_kept : Text → Text → Bool
is_kept arn r = not (is_arn_part_of_resource r arn)

remove_first-append :
    (t : Text) (kept rs : List Text) (p : Text → Bool)
    → all p kept ≡ true
    → p t ≡ false
    → remove_first t (kept ++ t ∷ rs) ≡ kept ++ rs
unfolding remove_first
remove_first-append t [] rs p h k = ground (arith, teq_iff t t)
remove_first-append t (x ∷ kept) rs p h k =
    ground (arith, teq_iff x t, remove_first-append t kept rs p)

all-append :
    (p : Text → Bool) (xs : List Text) (y : Text)
    → all p xs ≡ true
    → p y ≡ true
    → all p (xs ++ y ∷ []) ≡ true
all-append p [] y h k = ground arith
all-append p (x ∷ xs) y h k = ground (arith, all-append p xs y)

remove_parts_from :
    (arn : Text) (kept copy : List Text)
    → all (is_kept arn) kept ≡ true
    → remove_parts arn copy (kept ++ copy) ≡ kept ++ filter (is_kept arn) copy
unfolding remove_parts
remove_parts_from arn kept [] h = refl
remove_parts_from arn kept (r ∷ copy) h = elim (Bool-cases (is_arn_part_of_resource r arn)) [
  | inl e ↦
      rw (e, remove_first-append r kept copy (is_kept arn) h (rw e))
        (remove_parts_from arn kept copy h)
  | inr e ↦ rw e (
      simp append_assoc at
        (remove_parts_from arn (kept ++ r ∷ []) copy (all-append (is_kept arn) kept r h (rw e))))
]

-- The loop that removes from a list while it walks a copy of it removes exactly the parts of the
-- ARN, and keeps the order of the rest.
pub remove_parts-eq-filter :
    (arn : Text) (rs : List Text) → remove_parts arn rs rs ≡ filter (is_kept arn) rs
remove_parts-eq-filter arn rs = remove_parts_from arn [] rs refl
