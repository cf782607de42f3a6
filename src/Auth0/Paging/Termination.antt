-- ===== src/Auth0/Paging/Termination.antt =====
-- The loop over the pages ends, whatever the API answers.
use analytics_platform_contr.Prelude.{
  ◌≡◌, ◌≢◌, refl, ℕ, zero, suc, ◌+◌, ◌≤◌, leb, ltb, Bool, false, Option, none, some, List, [], ◌++◌,
  length, length-append, arith, ◌⊎◌, inl, inr, Option-cases, ◌∙◌,
}
use analytics_platform_contr.Prelude.Exec.{Result, ok, err}
use analytics_platform_contr.Auth0.Paging.{
  Error, Response, Round, done, again, Start, is_changed, go_on, round, pages, get_all, enough,
}

module _ {A : Type 0} where
  -- A round that goes on has added an item, has not reached the total, and the total is that of before.
  go_on_again :
      (paged : Bool) (n m : ℕ) (new items xs : List A)
      → go_on paged n new items ≡ again m xs
      → (m ≡ n) × (xs ≡ items) × (leb n (length items) ≡ false) × (ltb (length new) 1 ≡ false)
  unfolding go_on
  go_on_again paged n m new items xs h = ground arith

  round_again :
      (paged : Bool) (total : Option ℕ) (m : ℕ) (items xs : List A) (r : Result Error (Response A))
      → round paged total items r ≡ again m xs
      → (suc (length items) ≤ length xs)
        × (suc (length xs) ≤ m)
        × ((t : ℕ) → total ≡ some t → m ≡ t)
        × ((response : Response A) → r ≡ ok response → response.total ≡ some m)
  unfolding round is_changed
  round_again paged total m items xs (err e) h = ground arith
  round_again paged total m items xs (ok response) h = elim (Option-cases response.total) [
    | inl n ↦ ground (arith, n)
    | inr (n, e) ↦ elim (Option-cases response.items) [
      | inl k ↦ ground (arith, e, k)
      | inr (new, k) ↦
          let last = go_on_again paged n m new (items ++ new) xs in
          (
            ground (arith, e, k, last, length-append items new),
            ground (arith, e, k, last, length-append items new),
            λ t g. ground (arith, e, k, last, g),
            λ q g. ground (arith, e, k, last, g),
          )
    ]
  ]

  Round-cases :
      (r : Round A)
      → ((a : Result Error (List A)) × (r ≡ done a)) ⊎ ((n : ℕ) × (xs : List A) × (r ≡ again n xs))
  Round-cases (done a) = inl (a, refl)
  Round-cases (again n xs) = inr (n, xs, refl)

  module _ (fetch : ℕ → Result Error (Response A)) (paged : Bool) (fuel : ℕ) (total : Option ℕ)
      (items : List A) (page : ℕ) where
    pub pages_done :
        (r : Result Error (List A))
        → round paged total items (fetch page) ≡ done r
        → pages fetch paged (suc fuel) total items page ≡ some r
    unfolding pages
    pages_done r h = ground (arith, h)

    pub pages_again :
        (n : ℕ) (xs : List A)
        → round paged total items (fetch page) ≡ again n xs
        → pages fetch paged (suc fuel) total items page
          ≡ pages fetch paged fuel (some n) xs (page + 1)
    unfolding pages
    pages_again n xs h = ground (arith, h)

  module _ (fetch : ℕ → Result Error (Response A)) (paged : Bool) where
    -- A total that is not reached is reached after as many rounds as items are missing.
    pages_end :
        (fuel m : ℕ) (items : List A) (page : ℕ)
        → suc (length items) ≤ m
        → m ≤ length items + fuel
        → (r : Result Error (List A)) × (pages fetch paged fuel (some m) items page ≡ some r)
    pages_end zero m items page h k = ground arith
    pages_end (suc fuel) m items page h k =
        elim (Round-cases (round paged (some m) items (fetch page))) [
          | inl (r, e) ↦ (r, pages_done fetch paged fuel (some m) items page r e)
          | inr (n, xs, e) ↦
              let (more, less, same, _) = round_again paged (some m) n items xs (fetch page) e in
              let m_eq : n ≡ m = same m refl in
              let (r, ran) = pages_end fuel n xs (page + 1) less (ground (arith, m_eq, more)) in
              (r, pages_again fetch paged fuel (some m) items page n xs e ∙ ran)
        ]

    first_end :
        (fuel page : ℕ)
        → ((m : ℕ) (xs : List A) → round paged none [] (fetch page) ≡ again m xs → m ≤ fuel)
        → (r : Result Error (List A)) × (pages fetch paged (suc fuel) none [] page ≡ some r)
    first_end fuel page few = elim (Round-cases (round paged none [] (fetch page))) [
      | inl (r, e) ↦ (r, pages_done fetch paged fuel none [] page r e)
      | inr (n, xs, e) ↦
          let (more, less, _, _) = round_again paged none n [] xs (fetch page) e in
          let (r, ran) = pages_end fuel n xs (page + 1) less (ground (arith, few n xs e)) in
          (r, pages_again fetch paged fuel none [] page n xs e ∙ ran)
    ]

  Result-cases :
      (r : Result Error (Response A))
      → ((q : Response A) × (r ≡ ok q)) ⊎ ((e : Error) × (r ≡ err e))
  Result-cases (ok q) = inl (q, refl)
  Result-cases (err e) = inr (e, refl)

  round_err :
      (paged : Bool) (e : Error) (m : ℕ) (xs : List A)
      → round {A = A} paged none [] (err e) ≢ again m xs
  unfolding round
  round_err paged e m xs h = ground arith

  -- What is enough bounds the total of a first round that goes on.
  enough_lem :
      (fetch : ℕ → Result Error (Response A)) (start : Start)
      → (fuel : ℕ) × (enough fetch start ≡ suc fuel)
        × ((m : ℕ) (xs : List A)
            → round start.has_pagination_option none [] (fetch start.page_number) ≡ again m xs
            → m ≤ fuel)
  unfolding enough
  enough_lem fetch start =
      let paged = start.has_pagination_option in
      let page = start.page_number in
      elim (Result-cases (fetch page)) [
        | inr (e, h) ↦
            (0, ground (arith, h), λ m xs g. absurd (round_err paged e m xs (rw (← h) g)))
        | inl (q, h) ↦ elim (Option-cases q.total) [
          | inl n ↦ (
            0,
            ground (arith, h, n),
            λ m xs g. ground (arith, n, (round_again paged none m [] xs (fetch page) g).3 q h),
          )
          | inr (n, k) ↦ (
            n,
            ground (arith, h, k),
            λ m xs g. ground (arith, k, (round_again paged none m [] xs (fetch page) g).3 q h),
          )
        ]
      ]

  -- Whatever the API answers for each page, the loop of get_all ends: the total of the first
  -- response and one more round are enough.
  pub get_all_ends :
      (fetch : ℕ → Result Error (Response A)) (start : Start)
      → (r : Result Error (List A)) × (get_all fetch start (enough fetch start) ≡ some r)
  unfolding get_all
  get_all_ends fetch start =
      let (fuel, e, few) = enough_lem fetch start in
      rw e (first_end fetch start.has_pagination_option fuel start.page_number few)
