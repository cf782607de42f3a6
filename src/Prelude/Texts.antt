-- ===== src/Prelude/Texts.antt =====
-- Text as a list of code points, with the Python operations that the program uses.
use Prim.Native.Nat.{ℕ}
use Prim.Native.Char.{code}
use Prim.Native.String.{String}
use mathlib.Core.Path.{◌≡◌, refl, ap}
use mathlib.Core.Logic.{◌↔◌, inl, inr}
use mathlib.Core.Bool.{Bool, true, false, not, ◌&&◌, ◌||◌}
use mathlib.Core.List.{List, [], ◌∷◌, ◌++◌}
use native.Mathlib.Omega.{arith}
use analytics_platform_contr.Prelude.Tests.{Bool-cases, ◌==◌, if◌then◌else◌}
use analytics_platform_contr.Prelude.Lists.{length, drop, filter}

abbrev pub Text : Type 0
Text = List ℕ

-- The code points of a literal.
abbrev pub codes : String → Text
codes String.[] = []
codes (String.◌∷◌ c s) = code c ∷ codes s

-- a == b
unfoldable pub teq : Text → Text → Bool
teq [] [] = true
teq (x ∷ xs) (y ∷ ys) = x == y && teq xs ys
teq _ _ = false

pub teq_iff : (a b : Text) → (teq a b ≡ true) ↔ (a ≡ b)
unfolding teq
teq_iff [] [] = ground arith
teq_iff [] (y ∷ ys) = ground arith
teq_iff (x ∷ xs) [] = ground arith
teq_iff (x ∷ xs) (y ∷ ys) = ground (arith, teq_iff xs ys)

pub teq_refl : (a : Text) → teq a a ≡ true
teq_refl a = (teq_iff a a).1 refl

pub teq_comm : (a b : Text) → teq a b ≡ teq b a
teq_comm a b = ground (arith, teq_iff a b, teq_iff b a)

-- t in ts, for a list of texts.
unfoldable pub mem : Text → List Text → Bool
mem t [] = false
mem t (x ∷ xs) = teq x t || mem t xs

pub mem-append : (t : Text) (xs ys : List Text) → mem t (xs ++ ys) ≡ (mem t xs || mem t ys)
unfolding mem
mem-append t [] ys = refl
mem-append t (x ∷ xs) ys = ground (arith, mem-append t xs ys)

-- What a comprehension lists passes its test.
pub mem-filter :
    (r : Text) (p : Text → Bool) (rs : List Text) → mem r (filter p rs) ≡ true → p r ≡ true
unfolding mem
mem-filter r p [] h = ground arith
mem-filter r p (x ∷ rs) h = ground (arith, teq_iff x r, mem-filter r p rs)

-- A list without one text, and what it holds
pub filter-missing :
    (p : Text) (r : List Text) → mem p r ≡ false → filter (λ q. not (teq q p)) r ≡ r
unfolding mem
filter-missing p [] h = refl
filter-missing p (q ∷ r) h = ground (arith, teq_comm q p, filter-missing p r)

pub mem-filter_out :
    (p q : Text) (r : List Text)
    → mem q (filter (λ x. not (teq x p)) r) ≡ (mem q r && not (teq q p))
unfolding mem
mem-filter_out p q [] = refl
mem-filter_out p q (x ∷ r) =
    grind (arith, mem-filter_out p q r, teq_iff x q, teq_iff x p, teq_iff q p)

-- No text stands twice.
abbrev pub IsDistinct : List Text → Type 0
IsDistinct [] = Unit {0}
IsDistinct (t ∷ ts) = (mem t ts ≡ false) × IsDistinct ts

-- ts - us, for sets as lists in the order in which they are gone through
unfoldable pub difference : List Text → List Text → List Text
difference ts us = filter (λ t. not (mem t us)) ts

pub mem-difference :
    (q : Text) (ts us : List Text) → mem q (difference ts us) ≡ (mem q ts && not (mem q us))
unfolding difference mem
mem-difference q [] us = refl
mem-difference q (t ∷ ts) us = grind (arith, mem-difference q ts us, teq_iff t q)

pub IsDistinct-difference : (ts us : List Text) → IsDistinct ts → IsDistinct (difference ts us)
unfolding difference
IsDistinct-difference [] us h = tt
IsDistinct-difference (t ∷ ts) us (fresh, h) = elim (Bool-cases (mem t us)) [
  | inl e ↦ rw e (IsDistinct-difference ts us h)
  | inr n ↦ rw n (ground (arith, mem-difference t ts us, fresh), IsDistinct-difference ts us h)
]

pub IsDistinct-append :
    (ts us : List Text)
    → IsDistinct ts
    → IsDistinct us
    → ((q : Text) → mem q ts ≡ true → mem q us ≡ false)
    → IsDistinct (ts ++ us)
unfolding mem
IsDistinct-append [] us h k apart = k
IsDistinct-append (t ∷ ts) us (fresh, h) k apart = (
  ground (arith, mem-append t ts us, apart t, teq_refl t),
  IsDistinct-append ts us h k (λ q m. apart q (ground arith)),
)

pub mem-filter_iff :
    (q : Text) (p : Text → Bool) (ts : List Text) → mem q (filter p ts) ≡ (mem q ts && p q)
unfolding mem
mem-filter_iff q p [] = refl
mem-filter_iff q p (t ∷ ts) = elim (Bool-cases (teq t q)) [
  | inl e ↦ ground (arith, (teq_iff t q).0 e, ap p ((teq_iff t q).0 e), mem-filter_iff q p ts)
  | inr n ↦ ground (arith, n, mem-filter_iff q p ts)
]

pub IsDistinct-filter :
    (p : Text → Bool) (ts : List Text) → IsDistinct ts → IsDistinct (filter p ts)
IsDistinct-filter p [] h = tt
IsDistinct-filter p (t ∷ ts) (fresh, h) = elim (Bool-cases (p t)) [
  | inl e ↦ rw e (ground (arith, mem-filter_iff t p ts, fresh), IsDistinct-filter p ts h)
  | inr n ↦ rw n (IsDistinct-filter p ts h)
]

-- s.startswith(prefix)
unfoldable pub starts_with : Text → Text → Bool
starts_with s [] = true
starts_with [] (p ∷ ps) = false
starts_with (c ∷ s) (p ∷ ps) = c == p && starts_with s ps

pub starts_with-append : (p s : Text) → starts_with (p ++ s) p ≡ true
unfolding starts_with
starts_with-append [] s = refl
starts_with-append (x ∷ p) s = ground (arith, starts_with-append p s)

pub drop-length-append : (p s : Text) → drop (length p) (p ++ s) ≡ s
drop-length-append [] s = refl
drop-length-append (x ∷ p) s = drop-length-append p s

pub append-drop-starts_with : (s p : Text) → starts_with s p ≡ true → p ++ drop (length p) s ≡ s
unfolding starts_with
append-drop-starts_with s [] h = refl
append-drop-starts_with [] (y ∷ p) h = ground arith
append-drop-starts_with (x ∷ s) (y ∷ p) h = ground (arith, append-drop-starts_with s p)

-- p in s, for texts
unfoldable pub contains : Text → Text → Bool
contains p [] = starts_with [] p
contains p (c ∷ s) = starts_with (c ∷ s) p || contains p s

-- s.replace(p, "", 1)
unfoldable pub remove_once : Text → Text → Text
remove_once p [] = []
remove_once p (c ∷ s) =
    let rest = remove_once p s in
    if starts_with (c ∷ s) p then drop (length p) (c ∷ s) else c ∷ rest

pub remove_once-append : (p s : Text) → remove_once p (p ++ s) ≡ s
unfolding remove_once
remove_once-append [] [] = refl
remove_once-append [] (c ∷ s) = rw (starts_with-append [] (c ∷ s)) refl
remove_once-append (x ∷ p) s = rw (starts_with-append (x ∷ p) s, drop-length-append p s) refl

-- sep.join(parts)
unfoldable pub join : Text → List Text → Text
join sep [] = []
join sep (p ∷ []) = p
join sep (p ∷ q ∷ ps) = p ++ (sep ++ join sep (q ∷ ps))

-- The first field takes one more character in front.
abbrev cons_first : ℕ → List Text → List Text
cons_first c [] = (c ∷ []) ∷ []
cons_first c (p ∷ ps) = (c ∷ p) ∷ ps

-- s.split(sep), for a separator of one character
unfoldable pub split : ℕ → Text → List Text
split sep [] = [] ∷ []
split sep (c ∷ s) = let rest = split sep s in if c == sep then [] ∷ rest else cons_first c rest

pub join-cons_first :
    (sep : Text) (c : ℕ) (ps : List Text) → join sep (cons_first c ps) ≡ c ∷ join sep ps
unfolding join
join-cons_first sep c [] = refl
join-cons_first sep c (p ∷ []) = refl
join-cons_first sep c (p ∷ q ∷ ps) = refl

-- There is always a part.
pub split_parts : (sep : ℕ) (s : Text) → (p : Text) × (ps : List Text) × (split sep s ≡ p ∷ ps)
unfolding split
split_parts sep [] = ([], [], refl)
split_parts sep (c ∷ s) = elim (Bool-cases (c == sep)) [
  | inl e ↦ ([], split sep s, rw e)
  | inr e ↦ let (p, ps, shape) = split_parts sep s in (c ∷ p, ps, rw (e, shape))
]

-- Splitting and joining again gives the text back.
pub join-split : (sep : ℕ) (s : Text) → join (sep ∷ []) (split sep s) ≡ s
unfolding join split
join-split sep [] = refl
join-split sep (c ∷ s) =
    let (p, ps, shape) = split_parts sep s in
    elim (Bool-cases (c == sep)) [
      | inl e ↦ ground (arith, shape, join-split sep s)
      | inr e ↦ rw (e, join-cons_first (sep ∷ []) c (split sep s), join-split sep s)
    ]
