-- ===== src/Auth0/Paging/Pages.antt =====
-- What the loop reads of an API that serves a list in pages.
use mathlib.Core.List.{append_assoc, append-nil}
use analytics_platform_contr.Prelude.{
  ◌≡◌, refl, ◌∙◌, sym, ap, ℕ, zero, suc, ◌+◌, ◌≤◌, leb, true, false, Option, none, some, List, [],
  ◌∷◌, ◌++◌, length, length-append, take, drop, arith, Bool-cases, inl, inr,
}
use analytics_platform_contr.Prelude.Exec.{Result, ok}
use analytics_platform_contr.Auth0.Paging.{
  Error, Response, Start, is_changed, go_on, round, pages, get_all, enough,
}
use analytics_platform_contr.Auth0.Paging.Termination.{pages_done, pages_again}

module _ {A : Type 0} where
  -- The items of page k of a list, counted from 0
  abbrev pub page_of : ℕ → ℕ → List A → List A
  page_of per_page zero xs = take per_page xs
  page_of per_page (suc k) xs = page_of per_page k (drop per_page xs)

  -- The answer with these items
  abbrev pub answer : ℕ → List A → Result Error (Response A)
  answer total items = ok (record { total = some total; items = some items })

  take-drop : (n : ℕ) (xs : List A) → take n xs ++ drop n xs ≡ xs
  take-drop zero xs = refl
  take-drop (suc n) [] = refl
  take-drop (suc n) (x ∷ xs) = ap (λ t. x ∷ t) (take-drop n xs)

  length-take-drop : (n : ℕ) (xs : List A) → length (take n xs) + length (drop n xs) ≡ length xs
  length-take-drop n xs = ground (arith, length-append (take n xs) (drop n xs), take-drop n xs)

  no_items : (xs : List A) → length xs ≤ 0 → xs ≡ []
  no_items [] h = refl
  no_items (x ∷ xs) h = ground arith

  module _ (fetch : ℕ → Result Error (Response A)) (per : ℕ) where
    first_item : (xs : List A) → 1 ≤ length xs → 1 ≤ length (take (suc per) xs)
    first_item [] h = ground arith
    first_item (x ∷ xs) h = ground arith

    -- A round that has read the page takes the rest of the list up, or ends with the list.
    pages_lem :
        (fuel page : ℕ) (total : Option ℕ) (items ys : List A)
        → suc (length ys) ≤ fuel
        → is_changed total (length items + length ys) ≡ false
        → ((k : ℕ) → fetch (page + k) ≡ answer (length items + length ys) (page_of (suc per) k ys))
        → pages fetch true fuel total items page ≡ some (ok (items ++ ys))
    unfolding round go_on is_changed
    pages_lem zero page total items ys h same served = ground arith
    pages_lem (suc fuel) page total items ys h same served =
        let n = length items + length ys in
        let new = take (suc per) ys in
        let rest = drop (suc per) ys in
        let start : page + 0 ≡ page = omega arith in
        let now : fetch page ≡ answer n new = rw (← start) (served 0) in
        let parts = length-take-drop (suc per) ys in
        let sum = length-append items new in
        elim (Bool-cases (leb n (length (items ++ new)))) [
          | inl e ↦
              let gone : rest ≡ [] = no_items rest (ground (arith, parts, sum)) in
              let whole : new ≡ ys = sym (append-nil new) ∙ rw (← gone) (take-drop (suc per) ys) in
              pages_done fetch true fuel total items page (ok (items ++ ys))
                (rw now (ground (arith, same, e, whole)))
          | inr e ↦
              let count : length (items ++ new) + length rest ≡ n = omega (arith, parts, sum) in
              let more = first_item ys (ground (arith, parts, sum)) in
              pages_again fetch true fuel total items page n (items ++ new)
                (rw now (ground (arith, same, e, more)))
              ∙ (pages_lem fuel (page + 1) (some n) (items ++ new) rest
                    (ground (arith, parts, more, h)) (ground (arith, parts, sum))
                    (λ k.
                      let next : (page + 1) + k ≡ page + suc k = omega arith in
                      rw (next, count) (served (suc k)))
                  ∙ ap (λ xs. some (ok xs))
                      (append_assoc items new rest
                        ∙ ap (λ xs. items ++ xs) (take-drop (suc per) ys)))
        ]

    enough_pages :
        (start : Start) (n : ℕ) (items : List A)
        → fetch start.page_number ≡ answer n items
        → enough fetch start ≡ suc n
    unfolding enough
    enough_pages start n items h = ground (arith, h)

    -- Where the API serves a list in pages of one item or more, with its length as the total:
    -- get_all with pagination gives that list.
    pub get_all_pages :
        (first : ℕ) (xs : List A)
        → ((k : ℕ) → fetch (first + k) ≡ answer (length xs) (page_of (suc per) k xs))
        → let start : Start = record { has_pagination_option = true; page_number = first } in
          get_all fetch start (enough fetch start) ≡ some (ok xs)
    unfolding get_all is_changed
    get_all_pages first xs served =
        let begin : first + 0 ≡ first = omega arith in
        let now : fetch first ≡ answer (length xs) (take (suc per) xs) = rw (← begin) (served 0) in
        let start : Start = record { has_pagination_option = true; page_number = first } in
        rw (enough_pages start (length xs) (take (suc per) xs) now) (
          pages_lem (suc (length xs)) first none [] xs (omega arith) refl
            (λ k. let sum : 0 + length xs ≡ length xs = omega arith in rw sum (served k)))
