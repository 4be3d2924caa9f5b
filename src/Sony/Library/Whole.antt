-- ===== src/Sony/Library/Whole.antt =====
-- The library that a crawl returns is whole.
use psstore.Prelude.{
  ℕ, zero, suc, ◌+◌, ◌≡◌, refl, sym, ap, ◌∙◌, inl, inr, Bool, true, false, Option, none, some, List,
  [], ◌∷◌, ◌++◌, Result, ok, err, ltb, Bool-cases,
}
use psstore.Prelude.Texts.{Text}
use psstore.Prelude.Actions.{Attempt, ◌>=?◌, pure}
use psstore.Errors.{AccountError}
use psstore.Library.{PurchasedEntry, dedupe_purchased}
use psstore.Sony.Json.{Value}
use psstore.Sony.Purchased.{PurchasedPage}
use psstore.Sony.Library.{
  purchased_page_size, purchased_max_pages, checked_page, crawl, within, fetch_purchased,
}

append_assoc : (xs ys zs : List PurchasedEntry) → (xs ++ ys) ++ zs ≡ xs ++ (ys ++ zs)
append_assoc [] ys zs = refl
append_assoc (x ∷ xs) ys zs = ap (λ rest. x ∷ rest) (append_assoc xs ys zs)

module _ {W : Type 0} (lower : Text → Text) (operation : Text)
    (page_body : ℕ → Attempt W Value AccountError) where
  -- The pages from one page on, each full but the last, with their entries in order; the first number
  -- bounds the pages.
  pub data Pages : ℕ → ℕ → W → List PurchasedEntry → W → Type 0 where
    last :
        (left page : ℕ) (w w' : W) (body : Value) (found : PurchasedPage)
        → page_body page w ≡ (ok body, w')
        → checked_page lower operation body ≡ ok found
        → ltb found.raw_count purchased_page_size ≡ true
        → Pages (suc left) page w found.entries w'
    full :
        (left page : ℕ) (w w' : W) (body : Value) (found : PurchasedPage)
        (rest : List PurchasedEntry) (v : W)
        → page_body page w ≡ (ok body, w')
        → checked_page lower operation body ≡ ok found
        → ltb found.raw_count purchased_page_size ≡ false
        → Pages left (page + 1) w' rest v
        → Pages (suc left) page w (found.entries ++ rest) v

  -- the entries before, and those of the pages, without repeated ids
  abbrev pub IsWhole :
      ℕ → ℕ → W → List PurchasedEntry → Result (List PurchasedEntry) AccountError × W → Type 0
  IsWhole left page w collected (ok entries, v) =
      (read : List PurchasedEntry) × Pages left page w read v
      × (entries ≡ dedupe_purchased (collected ++ read))
  IsWhole left page w collected (err error, v) = Unit

  IsWhole-full :
      (left page : ℕ) (w w' : W) (body : Value) (found : PurchasedPage)
      (collected : List PurchasedEntry) (r : Result (List PurchasedEntry) AccountError × W)
      → page_body page w ≡ (ok body, w')
      → checked_page lower operation body ≡ ok found
      → ltb found.raw_count purchased_page_size ≡ false
      → IsWhole left (page + 1) w' (collected ++ found.entries) r
      → IsWhole (suc left) page w collected r
  IsWhole-full left page w w' body found collected (ok entries, v) asked checked is_full
        (read, pages, same) =
      (
        found.entries ++ read,
        full left page w w' body found read v asked checked is_full pages,
        same ∙ ap dedupe_purchased (append_assoc collected found.entries read),
      )
  IsWhole-full left page w w' body found collected (err error, v) asked checked is_full h = tt

  after_page-IsWhole :
      (left page : ℕ) (w w' : W) (body : Value) (collected : List PurchasedEntry)
      → page_body page w ≡ (ok body, w')
      → ((collected : List PurchasedEntry) (v : W)
          → IsWhole left
              (page + 1)
              v
              collected
              (crawl lower operation page_body left (page + 1) collected v))
      → (found : PurchasedPage) → checked_page lower operation body ≡ ok found
      → (is_short : Bool) → ltb found.raw_count purchased_page_size ≡ is_short
      → IsWhole (suc left) page w collected (
          elim is_short as (λ b. Attempt W (List PurchasedEntry) AccountError) [
            | true ↦ pure (ok (dedupe_purchased (collected ++ found.entries)))
            | false ↦ crawl lower operation page_body left (page + 1) (collected ++ found.entries)
          ]
            w')
  after_page-IsWhole left page w w' body collected asked rest found checked true is_short =
      (found.entries, last left page w w' body found asked checked is_short, refl)
  after_page-IsWhole left page w w' body collected asked rest found checked false is_full =
      IsWhole-full left page w w' body found collected _ asked checked is_full
        (rest (collected ++ found.entries) w')

  -- one page, and the rest of the crawl
  crawl_page-IsWhole :
      (left page : ℕ) (w w' : W) (body : Value) (collected : List PurchasedEntry)
      → page_body page w ≡ (ok body, w')
      → ((collected : List PurchasedEntry) (v : W)
          → IsWhole left
              (page + 1)
              v
              collected
              (crawl lower operation page_body left (page + 1) collected v))
      → (r : Result PurchasedPage AccountError) → checked_page lower operation body ≡ r
      → IsWhole (suc left) page w collected (
          (pure r >=? λ outcome. elim (ltb outcome.raw_count purchased_page_size) [
            | true ↦ pure (ok (dedupe_purchased (collected ++ outcome.entries)))
            | false ↦ crawl lower operation page_body left (page + 1) (collected ++ outcome.entries)
          ])
            w')
  crawl_page-IsWhole left page w w' body collected asked rest (err error) checked = tt
  crawl_page-IsWhole left page w w' body collected asked rest (ok found) checked =
      after_page-IsWhole left page w w' body collected asked rest found checked
        (ltb found.raw_count purchased_page_size) refl

  crawl-IsWhole :
      (left page : ℕ) (collected : List PurchasedEntry) (w : W)
      → IsWhole left page w collected (crawl lower operation page_body left page collected w)
  unfolding crawl
  crawl-IsWhole zero page collected w = tt
  crawl-IsWhole (suc left) page collected w =
      go (λ entries v. crawl-IsWhole left (page + 1) entries v) (page_body page w) refl
    where
      go :
          ((collected : List PurchasedEntry) (v : W)
            → IsWhole left
                (page + 1)
                v
                collected
                (crawl lower operation page_body left (page + 1) collected v))
          → (p : Result Value AccountError × W) → page_body page w ≡ p
          → IsWhole (suc left) page w collected (
              ((λ v. p) >=? λ body. pure (checked_page lower operation body) >=? λ outcome.
              elim (ltb outcome.raw_count purchased_page_size) [
                | true ↦ pure (ok (dedupe_purchased (collected ++ outcome.entries)))
                | false ↦
                    crawl lower operation page_body left (page + 1) (collected ++ outcome.entries)
              ])
                w)
      go rest (ok body, w') asked =
          crawl_page-IsWhole left page w w' body collected asked rest
            (checked_page lower operation body) refl
      go rest (err error, w') asked = tt

  bind_ok :
      {A B : Type 0} (m : Attempt W A AccountError) (f : A → Attempt W B AccountError) (w w' : W)
      (a : A)
      → m w ≡ (ok a, w')
      → (m >=? f) w ≡ f a w'
  bind_ok m f w w' a h = ap (λ p. ((λ v. p) >=? f) w) h

  -- one page that is read and checked
  crawl_page :
      (left page : ℕ) (w w' : W) (body : Value) (found : PurchasedPage)
      (collected : List PurchasedEntry) (is_short : Bool)
      → page_body page w ≡ (ok body, w')
      → checked_page lower operation body ≡ ok found
      → ltb found.raw_count purchased_page_size ≡ is_short
      → crawl lower operation page_body (suc left) page collected w
        ≡ elim is_short as (λ b. Attempt W (List PurchasedEntry) AccountError) [
          | true ↦ pure (ok (dedupe_purchased (collected ++ found.entries)))
          | false ↦ crawl lower operation page_body left (page + 1) (collected ++ found.entries)
        ]
            w'
  unfolding crawl
  crawl_page left page w w' body found collected is_short asked checked short =
      bind_ok (page_body page) (λ body. pure (checked_page lower operation body) >=? on_page) w w'
        body asked
      ∙ bind_ok (pure (checked_page lower operation body)) on_page w' w' found
          (ap (λ r. (r, w')) checked)
      ∙ ap (λ b. next_of_page b found w') short
    where
      next_of_page : Bool → PurchasedPage → Attempt W (List PurchasedEntry) AccountError
      next_of_page b outcome = elim b as (λ b. Attempt W (List PurchasedEntry) AccountError) [
        | true ↦ pure (ok (dedupe_purchased (collected ++ outcome.entries)))
        | false ↦ crawl lower operation page_body left (page + 1) (collected ++ outcome.entries)
      ]

      on_page : PurchasedPage → Attempt W (List PurchasedEntry) AccountError
      on_page outcome = next_of_page (ltb outcome.raw_count purchased_page_size) outcome

  -- the pages are read to the end
  crawl-Pages :
      (left page : ℕ) (w v : W) (read : List PurchasedEntry)
      → Pages left page w read v
      → (collected : List PurchasedEntry)
      → crawl lower operation page_body left page collected w
        ≡ (ok (dedupe_purchased (collected ++ read)), v)
  crawl-Pages _ _ _ _ _ (last left page w v body found asked checked is_short) collected =
      crawl_page left page w v body found collected true asked checked is_short
  crawl-Pages _ _ _ _ _ (full left page w w' body found rest v asked checked is_full pages)
        collected =
      crawl_page left page w w' body found collected false asked checked is_full
      ∙ crawl-Pages left (page + 1) w' v rest pages (collected ++ found.entries)
      ∙ ap (λ entries. (ok (dedupe_purchased entries), v))
          (append_assoc collected found.entries rest)

  within_time :
      {A : Type 0} (time_up : W → Option W) (message : Text) (work : Attempt W A AccountError)
      (w : W)
      → time_up w ≡ none
      → within time_up message work w ≡ work w
  unfolding within
  within_time {A = A} time_up message work w in_time =
      ap
        (λ o. elim o as (λ x. Result A AccountError × W) [
          | none ↦ work w
          | some w' ↦ (err (psstore.Sony.Library.outage message), w')
        ])
        in_time

  -- A library that is returned is whole: its entries are those of the pages from the first one on,
  -- in order and without repeated ids, where every page but the last is full, the last one is not,
  -- and they are at most 20. So a library that needs more pages, or that has a page which cannot be
  -- read, fails and is never cut short. Conversely, such pages are all that a library needs: it is
  -- returned unless the deadline ends the crawl.
  pub fetch_purchased-IsWhole :
      (time_up : W → Option W) (w : W)
      → IsWhole purchased_max_pages 0 w [] (fetch_purchased lower operation page_body time_up w)
        × ((read : List PurchasedEntry) (v : W)
            → time_up w ≡ none
            → Pages purchased_max_pages 0 w read v
            → fetch_purchased lower operation page_body time_up w ≡ (ok (dedupe_purchased read), v))
  unfolding fetch_purchased within
  fetch_purchased-IsWhole time_up w = (go (time_up w), whole)
    where
      go :
          (o : Option W)
          → IsWhole purchased_max_pages 0 w []
              (elim o as (λ x. Result (List PurchasedEntry) AccountError × W) [
                | none ↦ crawl lower operation page_body purchased_max_pages 0 [] w
                | some w' ↦ (
                  err (
                      psstore.Sony.Library.outage
                        (psstore.Prelude.Texts.text "Sony library list timed out")),
                  w',
                )
              ])
      go none = crawl-IsWhole purchased_max_pages 0 [] w
      go (some w') = tt

      whole :
          (read : List PurchasedEntry) (v : W)
          → time_up w ≡ none
          → Pages purchased_max_pages 0 w read v
          → fetch_purchased lower operation page_body time_up w ≡ (ok (dedupe_purchased read), v)
      whole read v in_time pages =
          within_time time_up (psstore.Prelude.Texts.text "Sony library list timed out")
            (crawl lower operation page_body purchased_max_pages 0 []) w in_time
          ∙ crawl-Pages purchased_max_pages 0 w v read pages []
