-- ===== src/Auth0/Paging.antt =====
-- `get_all`, `search_first_match` and `get_or_create` of `ExtendedAPIMethods` in controlpanel/api/auth0.py. What
-- the API answers for a page is an argument.
pub mod Termination
pub mod Pages
use analytics_platform_contr.Prelude.{
  ℕ, zero, suc, ◌+◌, ◌==◌, leb, ltb, Text, teq, Bool, true, false, not, ◌||◌, Option, none, some,
  List, [], ◌∷◌, ◌++◌, length, all, if◌then◌else◌,
}
use analytics_platform_contr.Prelude.Dicts.{get}
use analytics_platform_contr.Prelude.Exec.{Result, ok, err}

-- The Auth0Errors of `get_all`, and one that the client raises
pub data Error : Type 0 where
  missing_total missing_property total_changed client_error : Error

-- What `get_all` reads of a response; a property that is not there is `none`.
pub record Response (A : Type 0) : Type 0 where
  pub total : Option ℕ
  pub items : Option (List A)

-- How a round of the loop ends
pub data Round (A : Type 0) : Type 0 where
  done : Result Error (List A) → Round A
  again : ℕ → List A → Round A

-- `_get_pagination_params` and PER_PAGE: the first page
pub record Start : Type 0 where
  pub has_pagination_option : Bool
  pub page_number : ℕ

-- The total so far, and that of the response
unfoldable pub is_changed : Option ℕ → ℕ → Bool
is_changed none n = false
is_changed (some t) n = not (t == n)

module _ {A : Type 0} where
  -- The breaks of the loop, once the items of the response are in the list
  unfoldable pub go_on : Bool → ℕ → List A → List A → Round A
  go_on has_pagination_option total new items =
      if not has_pagination_option
      then done (ok items)
      else if leb total (length items)
      then done (ok items)
      else if ltb (length new) 1
      then done (ok items)
      else again total items

  -- One round of the loop
  unfoldable pub round : Bool → Option ℕ → List A → Result Error (Response A) → Round A
  round has_pagination_option total items (err e) = done (err e)
  round has_pagination_option total items (ok response) = elim response.total [
    | none ↦ done (err missing_total)
    | some n ↦ elim response.items [
      | none ↦ done (err missing_property)
      | some new ↦
          if is_changed total n
          then done (err total_changed)
          else go_on has_pagination_option n new (items ++ new)
    ]
  ]

  -- The loop, on fuel: `none` where there is not enough
  unfoldable pub pages :
      (ℕ → Result Error (Response A))
      → Bool
      → ℕ
      → Option ℕ
      → List A
      → ℕ
      → Option (Result Error (List A))
  pages fetch has_pagination_option zero total items page = none
  pages fetch has_pagination_option (suc fuel) total items page =
      elim (round has_pagination_option total items (fetch page)) [
        | done r ↦ some r
        | again n xs ↦ pages fetch has_pagination_option fuel (some n) xs (page + 1)
      ]

  unfoldable pub get_all :
      (ℕ → Result Error (Response A)) → Start → ℕ → Option (Result Error (List A))
  get_all fetch start fuel = pages fetch start.has_pagination_option fuel none [] start.page_number

  -- The fuel that is always enough: the total of the first response, and one more.
  unfoldable pub enough : (ℕ → Result Error (Response A)) → Start → ℕ
  enough fetch start = elim (fetch start.page_number) [
    | err e ↦ 1
    | ok response ↦ elim response.total [ none ↦ 1 | some n ↦ suc n ]
  ]
