-- ===== src/Tools/Install/Values.antt =====
-- Which values reach helm.
use analytics_platform_contr.Prelude.{
  ◌≡◌, ◌≢◌, refl, sym, ◌∙◌, ap, Text, codes, teq, teq_refl, teq_iff, mem, false, Option, none, some,
  List, [], ◌∷◌, ◌++◌, map, arith, if◌then◌else◌, Bool-cases, inl, inr, join, split, split_parts,
  join-cons_first, IsDistinct, ◌==◌,
}
use analytics_platform_contr.Prelude.Dicts.{
  get, get_last, or_else, put_all, get-put_all, keys, IsDistinct-put_all, get-missing,
}
use analytics_platform_contr.Prelude.Exec.{ok, err}
use analytics_platform_contr.Tools.Install.{
  Value, text, falsy, truthy, Tool, User, Settings, attribute_error, escaped, assignment, add_arg,
  set_args, with_token, base_values, values_of, set_values,
}

-- The arguments of helm that set these texts, with a backslash in front of each comma
abbrev pub flags : List (Text × Text) → List Text
flags [] = []
flags ((k, v) ∷ ps) =
    codes "--set" ∷ (k ++ (codes "=" ++ join (codes "\\,") (split b',' v))) ∷ flags ps

-- What is set of a value: a text that is not empty
abbrev pub shown : Option Value → Option Text
shown none = none
shown (some falsy) = none
shown (some truthy) = none
shown (some (text v)) = if teq v [] then none else some v

escaped-split : (v : Text) → escaped v ≡ join (codes "\\,") (split b',' v)
unfolding escaped join split
escaped-split [] = refl
escaped-split (c ∷ v) =
    let (p, ps, shape) = split_parts b',' v in
    elim (Bool-cases (c == b',')) [
      | inl e ↦ rw (e, escaped-split v, shape) refl
      | inr n ↦ rw (n, escaped-split v, join-cons_first (codes "\\,") c (split b',' v)) refl
    ]

-- The texts of a dictionary that are not empty
texts_of : List (Text × Value) → List (Text × Text)
texts_of [] = []
texts_of ((k, falsy) ∷ d) = texts_of d
texts_of ((k, truthy) ∷ d) = texts_of d
texts_of ((k, text v) ∷ d) = if teq v [] then texts_of d else (k, v) ∷ texts_of d

mem-texts_of :
    (j : Text) (d : List (Text × Value))
    → mem j (keys d) ≡ false
    → mem j (keys (texts_of d)) ≡ false
unfolding texts_of mem
mem-texts_of j [] h = refl
mem-texts_of j ((k, falsy) ∷ d) h = mem-texts_of j d (ground (arith, h))
mem-texts_of j ((k, truthy) ∷ d) h = mem-texts_of j d (ground (arith, h))
mem-texts_of j ((k, text v) ∷ d) h = elim (Bool-cases (teq v [])) [
  | inl e ↦ rw e (mem-texts_of j d (ground (arith, h)))
  | inr n ↦ rw n (ground (arith, h, mem-texts_of j d))
]

IsDistinct-texts_of :
    (d : List (Text × Value)) → IsDistinct (keys d) → IsDistinct (keys (texts_of d))
unfolding texts_of
IsDistinct-texts_of [] h = tt
IsDistinct-texts_of ((k, falsy) ∷ d) (fresh, h) = IsDistinct-texts_of d h
IsDistinct-texts_of ((k, truthy) ∷ d) (fresh, h) = IsDistinct-texts_of d h
IsDistinct-texts_of ((k, text v) ∷ d) (fresh, h) = elim (Bool-cases (teq v [])) [
  | inl e ↦ rw e (IsDistinct-texts_of d h)
  | inr n ↦ rw n (mem-texts_of k d fresh, IsDistinct-texts_of d h)
]

get-texts_of :
    (j : Text) (d : List (Text × Value))
    → IsDistinct (keys d)
    → get j (texts_of d) ≡ shown (get j d)
unfolding texts_of get
get-texts_of j [] h = refl
get-texts_of j ((k, falsy) ∷ d) (fresh, h) =
    ground (arith, get-texts_of j d h, teq_iff k j, get-missing k d fresh)
get-texts_of j ((k, truthy) ∷ d) (fresh, h) =
    ground (arith, get-texts_of j d h, teq_iff k j, get-missing k d fresh)
get-texts_of j ((k, text v) ∷ d) (fresh, h) =
    ground (arith, get-texts_of j d h, teq_iff k j, get-missing k d fresh)

get-head : (k : Text) (v : Value) (d : List (Text × Value)) → get k ((k, v) ∷ d) ≡ some v
unfolding get
get-head k v d = rw (teq_refl k) refl

get-tail :
    (k j : Text) (v w : Value) (d : List (Text × Value))
    → mem k (keys d) ≡ false
    → get j d ≡ some w
    → get j ((k, v) ∷ d) ≡ some w
unfolding get
get-tail k j v w d fresh e = ground (arith, get-missing k d fresh, teq_iff k j)

-- A dictionary without another value
set_args-flags :
    (d : List (Text × Value))
    → IsDistinct (keys d)
    → ((j : Text) → get j d ≢ some truthy)
    → set_args d ≡ ok (flags (texts_of d))
unfolding set_args add_arg texts_of assignment
set_args-flags [] h none_other = refl
set_args-flags ((k, falsy) ∷ d) (fresh, h) none_other =
    set_args-flags d h (λ j e. none_other j (get-tail k j falsy truthy d fresh e))
set_args-flags ((k, truthy) ∷ d) (fresh, h) none_other =
    ground (arith, none_other k (get-head k truthy d))
set_args-flags ((k, text v) ∷ d) (fresh, h) none_other =
    let rest = set_args-flags d h (λ j e. none_other j (get-tail k j (text v) truthy d fresh e)) in
    elim (Bool-cases (teq v [])) [
      | inl e ↦ rw (rest, e) refl
      | inr n ↦ rw (rest, n, escaped-split v) refl
    ]

-- A value that has no `replace`
set_args-truthy :
    (j : Text) (d : List (Text × Value)) → get j d ≡ some truthy → set_args d ≡ err attribute_error
unfolding get set_args add_arg
set_args-truthy j [] h = ground arith
set_args-truthy j ((k, falsy) ∷ d) h = ground (arith, set_args-truthy j d)
set_args-truthy j ((k, truthy) ∷ d) h = refl
set_args-truthy j ((k, text v) ∷ d) h = ground (arith, set_args-truthy j d)

module _ (settings : Settings) (user : User) (tool : Tool) (token_of : Text → Text)
    (kwargs : List (Text × Value)) where
  -- The precedence of the values.
  abbrev pub value_at : Text → Option Value
  value_at j =
      if teq tool.image_tag_key j
      then some (text tool.image_tag)
      else or_else (get_last j kwargs) (
          or_else (get_last j (map (with_token token_of) tool.values))
            (get j (base_values settings user tool)))

  base-IsDistinct : IsDistinct (keys (base_values settings user tool))
  unfolding base_values mem teq
  base-IsDistinct = (refl, (refl, (refl, (refl, tt))))

  values-IsDistinct : IsDistinct (keys (values_of settings user tool token_of kwargs))
  unfolding values_of
  values-IsDistinct =
      IsDistinct-put_all _ _ (IsDistinct-put_all _ _ (IsDistinct-put_all _ _ base-IsDistinct))

  get-values_of : (j : Text) → get j (values_of settings user tool token_of kwargs) ≡ value_at j
  unfolding values_of get_last
  get-values_of j =
      let own = map (with_token token_of) tool.values in
      let base = base_values settings user tool in
      ground (
        arith,
        get-put_all j ((tool.image_tag_key, text tool.image_tag) ∷ [])
            (put_all kwargs (put_all own base)),
        get-put_all j kwargs (put_all own base),
        get-put_all j own base,
      )

  -- Where the value that comes first for a key, of the image tag, the keyword arguments, the values
  -- of the tool with their tokens and the values of the user, is for every key a text or empty: the
  -- arguments of helm set each key once at most, and set just the keys whose first value is a text
  -- that is not empty, to that text with a backslash in front of each comma.
  pub set_values_lem :
      ((j : Text) → value_at j ≢ some truthy)
      → (ps : List (Text × Text)) × (set_values settings user tool token_of kwargs ≡ ok (flags ps))
        × IsDistinct (keys ps)
        × ((j : Text) → get j ps ≡ shown (value_at j))
  unfolding set_values
  set_values_lem none_other =
      let d = values_of settings user tool token_of kwargs in
      (
        texts_of d,
        set_args-flags d values-IsDistinct (λ j e. none_other j (sym (get-values_of j) ∙ e)),
        IsDistinct-texts_of d values-IsDistinct,
        λ j. get-texts_of j d values-IsDistinct ∙ ap shown (get-values_of j),
      )

  -- A value of the JSON that comes first for its key, and is neither text nor empty, stops the installation.
  pub set_values_raises :
      (j : Text)
      → value_at j ≡ some truthy
      → set_values settings user tool token_of kwargs ≡ err attribute_error
  unfolding set_values
  set_values_raises j h =
      set_args-truthy j (values_of settings user tool token_of kwargs) (get-values_of j ∙ h)
