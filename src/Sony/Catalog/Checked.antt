-- ===== src/Sony/Catalog/Checked.antt =====
-- The answers of the store client by their causes.
use psstore.Prelude.{ℕ, ◌≡◌, refl, inl, inr, true, false, Option, List, Result, ok, err, Bool-cases}
use psstore.Prelude.Texts.{Text, text}
use psstore.Prelude.Actions.{Action, ◌>=?◌, pure}
use psstore.Ids.{ProductId}
use psstore.Game.{Concept, ProductDetail, SonyFeature}
use psstore.Errors.{UpstreamError, unavailable}
use psstore.Transport.{Answer}
use psstore.Sony.Json.{Value}
use psstore.Sony.Grid.{CategoryGridOutcome, grid_drift, grid, extract_category_grid}
use psstore.Sony.Product.{extract_product_detail}
use psstore.Sony.Graphql.{is_persisted_query_rotation, is_graphql_server_error}
use psstore.Sony.Catalog.{
  Request, feature_grid, product, graphql, rotated, checked_json, graphql_checked, grid_result,
  fetch_concepts, fetch_product_detail,
}

module _ {W : Type 0} (lower : Text → Text) (parse_json : List ℕ → Option Value)
    (operation_of : Request → Text) (url_of : Request → Result Text UpstreamError)
    (ask : Text → ℕ → Action W (Option Answer)) (sleep : ℕ → W → W) where
  -- neither a rotation nor a server error
  pub record IsChecked (json : Value) : Type 0 where
    pub no_rotation : is_persisted_query_rotation lower json ≡ false
    pub no_outage : is_graphql_server_error json ≡ false

  -- An answer of the client, by its cause: the failure of the request, a rotated query, an outage, or
  -- what the decoder (`Decoded`) makes of a checked body.
  pub data IsFetched {A : Type 0} (Decoded : Value → Result A UpstreamError → Type 0)
      (request : Request) (w : W) : Result A UpstreamError × W → Type 0 where
    not_answered :
        (e : UpstreamError) (v : W)
        → graphql lower parse_json operation_of url_of ask sleep request w ≡ (err e, v)
        → IsFetched Decoded request w (err e, v)
    rotation :
        (json : Value) (v : W)
        → graphql lower parse_json operation_of url_of ask sleep request w ≡ (ok json, v)
        → is_persisted_query_rotation lower json ≡ true
        → IsFetched Decoded request w (err (rotated (operation_of request)), v)
    server_error :
        (json : Value) (v : W)
        → graphql lower parse_json operation_of url_of ask sleep request w ≡ (ok json, v)
        → is_persisted_query_rotation lower json ≡ false
        → is_graphql_server_error json ≡ true
        → IsFetched Decoded request w
            (err (unavailable (text "Sony upstream reported a server error")), v)
    answered :
        (json : Value) (v : W) (r : Result A UpstreamError)
        → graphql lower parse_json operation_of url_of ask sleep request w ≡ (ok json, v)
        → IsChecked json
        → Decoded json r
        → IsFetched Decoded request w (r, v)

  module _ {A : Type 0} (Decoded : Value → Result A UpstreamError → Type 0)
      (f : Value → Result A UpstreamError) (decodes : (json : Value) → Decoded json (f json)) where
    checked_bind :
        (request : Request) (w v : W) (json : Value)
        → graphql lower parse_json operation_of url_of ask sleep request w ≡ (ok json, v)
        → IsFetched Decoded request w (
            (pure (checked_json lower parse_json operation_of url_of ask sleep request json)
                >=? λ json. pure (f json))
              v)
    unfolding checked_json
    checked_bind request w v json asked =
        elim (Bool-cases (is_persisted_query_rotation lower json)) [
          | inl rotates ↦ rw rotates (rotation json v asked rotates)
          | inr no_rotation ↦ elim (Bool-cases (is_graphql_server_error json)) [
            | inl fails ↦ rw (no_rotation, fails) (server_error json v asked no_rotation fails)
            | inr no_outage ↦
                rw (no_rotation, no_outage)
                  (answered json v (f json) asked
                    (record { no_rotation = no_rotation; no_outage = no_outage }) (decodes json))
          ]
        ]

    fetch-IsFetched :
        (request : Request) (w : W)
        → IsFetched Decoded request w (
            (graphql_checked lower parse_json operation_of url_of ask sleep request >=? λ json.
            pure (f json))
              w)
    unfolding graphql_checked
    fetch-IsFetched request w =
        go (graphql lower parse_json operation_of url_of ask sleep request w) refl
      where
        go :
            (p : Result Value UpstreamError × W)
            → graphql lower parse_json operation_of url_of ask sleep request w ≡ p
            → IsFetched Decoded request w (
                (((λ v. p) >=? λ json.
                pure (checked_json lower parse_json operation_of url_of ask sleep request json))
                    >=? λ json. pure (f json))
                  w)
        go (ok json, v) asked = checked_bind request w v json asked
        go (err e, v) asked = not_answered e v asked

  -- a grid list, and the failure of a body with another shape
  abbrev pub IsGrid : Value → Result (List Concept) UpstreamError → Type 0
  IsGrid json (ok concepts) = (dropped : ℕ) × (extract_category_grid json ≡ grid concepts dropped)
  IsGrid json (err e) =
      (extract_category_grid json ≡ grid_drift)
      × (e ≡ unavailable (text "Sony category grid has an unexpected shape"))

  abbrev pub IsDetail : Value → Result ProductDetail UpstreamError → Type 0
  IsDetail json r = r ≡ ok (extract_product_detail json)

  grid_result-IsGrid :
      (json : Value) → IsGrid json (grid_result lower parse_json operation_of url_of ask sleep json)
  unfolding grid_result
  grid_result-IsGrid json = go (extract_category_grid json) refl
    where
      go :
          (o : CategoryGridOutcome)
          → extract_category_grid json ≡ o
          → IsGrid json (elim o as (λ x. Result (List Concept) UpstreamError) [
            | grid_drift ↦ err (unavailable (text "Sony category grid has an unexpected shape"))
            | grid concepts dropped ↦ ok concepts
          ])
      go grid_drift e = (e, refl)
      go (grid concepts dropped) e = (dropped, e)

  -- A request for a grid list or a product detail fails when the request fails, when Sony reports a
  -- rotated query, and when it reports an outage, each as its own failure. Any other body is decoded:
  -- a grid that is returned, also an empty one, is what the decoder read in it, and a grid of another
  -- shape fails; the detail, also an empty one, is what the decoder read.
  pub fetch_concepts-IsFetched :
      (feature : SonyFeature) (size offset : ℕ) (id : ProductId) (w : W)
      → IsFetched IsGrid
          (feature_grid feature size offset)
          w
          (fetch_concepts lower parse_json operation_of url_of ask sleep feature size offset w)
        × IsFetched IsDetail
            (product id)
            w
            (fetch_product_detail lower parse_json operation_of url_of ask sleep id w)
  unfolding fetch_concepts fetch_product_detail
  fetch_concepts-IsFetched feature size offset id w = (
    fetch-IsFetched IsGrid (grid_result lower parse_json operation_of url_of ask sleep)
        grid_result-IsGrid (feature_grid feature size offset) w,
    fetch-IsFetched IsDetail (λ json. ok (extract_product_detail json)) (λ json. refl) (product id)
        w,
  )
