-- ===== src/Listing/Windows.antt =====
-- NEW and UPCOMING against the split that the client makes at its next local midnight.
use psstore.Prelude.{
  ◌^◌, ◌<◌, ◌≡◌, refl, Bool, true, Option, none, some, List, [], ◌∷◌, arith, filter,
}
use psstore.Prelude.Int.{
  ℤ, pos_part, neg_part, ◌+ℤ◌, ◌-ℤ◌, ◌≤ℤ◌, ◌<ℤ◌, +ℤ_parts, -ℤ_parts, wrap_i64_of_range, InI64,
  +ℤ_bounds, -ℤ_bounds,
}
use psstore.Js.Jiff.{Jiff}
use psstore.Game.{Game}
use psstore.Listing.{
  release_ms, max_local_day_ms, client_clock_margin_ms, add_i64, sub_i64, released_before,
  undated_or_from, in_new_window, in_upcoming_window,
}

-- a filter that keeps all that a second one keeps is not seen by the second one
pub filter-filter_of_imp {ℓ} :
    {A : Type ℓ} (p q : A → Bool) (xs : List A)
    → ((x : A) → p x ≡ true → q x ≡ true)
    → filter p (filter q xs) ≡ filter p xs
filter-filter_of_imp p q [] h = refl
filter-filter_of_imp p q (x ∷ xs) h = ground (arith, h x, filter-filter_of_imp p q xs h)

-- a clock in the range of the timestamps, far from the ends of an `i64`
pub record IsClock (now_ms : ℤ) : Type 0 where
  pub above : pos_part now_ms < 2 ^ 62
  pub below : neg_part now_ms < 2 ^ 62

-- The client's clock is up to the margin off, and its next local midnight is at most the longest
-- local day away.
pub record IsClientMidnight (now_ms client_ms midnight : ℤ) : Type 0 where
  pub not_late : client_ms ≤ℤ now_ms +ℤ client_clock_margin_ms
  pub not_early : now_ms ≤ℤ client_ms +ℤ client_clock_margin_ms
  pub next : client_ms <ℤ midnight
  pub near : midnight ≤ℤ client_ms +ℤ max_local_day_ms

new_window_end :
    (now_ms : ℤ)
    → IsClock now_ms
    → add_i64 (add_i64 now_ms max_local_day_ms) client_clock_margin_ms
      ≡ now_ms +ℤ max_local_day_ms +ℤ client_clock_margin_ms
unfolding add_i64
new_window_end now_ms c =
    let day = now_ms +ℤ max_local_day_ms in
    let in_day : InI64 day = omega (arith, +ℤ_bounds now_ms max_local_day_ms) in
    let in_end : InI64 (day +ℤ client_clock_margin_ms) =
      omega (arith, +ℤ_bounds now_ms max_local_day_ms, +ℤ_bounds day client_clock_margin_ms) in
    rw (wrap_i64_of_range day in_day) (wrap_i64_of_range (day +ℤ client_clock_margin_ms) in_end)

upcoming_window_start :
    (now_ms : ℤ)
    → IsClock now_ms
    → sub_i64 now_ms client_clock_margin_ms ≡ now_ms -ℤ client_clock_margin_ms
unfolding sub_i64
upcoming_window_start now_ms c =
    wrap_i64_of_range (now_ms -ℤ client_clock_margin_ms)
      (omega (arith, -ℤ_bounds now_ms client_clock_margin_ms))

module _ (now_ms client_ms midnight : ℤ) where
  window_end :
      IsClientMidnight now_ms client_ms midnight
      → midnight ≤ℤ now_ms +ℤ max_local_day_ms +ℤ client_clock_margin_ms
  window_end m = omega (
    arith,
    +ℤ_parts now_ms max_local_day_ms,
    +ℤ_parts (now_ms +ℤ max_local_day_ms) client_clock_margin_ms,
    +ℤ_parts now_ms client_clock_margin_ms,
    +ℤ_parts client_ms max_local_day_ms,
  )

  window_start :
      IsClientMidnight now_ms client_ms midnight → now_ms -ℤ client_clock_margin_ms <ℤ midnight
  window_start m =
      omega
        (arith, -ℤ_parts now_ms client_clock_margin_ms, +ℤ_parts client_ms client_clock_margin_ms)

released_mono :
    (a b : ℤ) (d : Option ℤ) → a ≤ℤ b → released_before a d ≡ true → released_before b d ≡ true
released_mono a b none le h = h
released_mono a b (some ms) le h = ground arith

undated_mono :
    (a b : ℤ) (d : Option ℤ) → a <ℤ b → undated_or_from b d ≡ true → undated_or_from a d ≡ true
undated_mono a b none lt h = h
undated_mono a b (some ms) lt h = ground arith

module _ (j : Jiff) (now_ms client_ms midnight : ℤ) where
  -- For a server clock within 2 ^ 62 ms of the epoch, and a client midnight as `IsClientMidnight`
  -- bounds it: the NEW list holds every card that the client shows as released, those before its next local
  -- midnight, and the UPCOMING list every other card: the dated ones from this midnight on and
  -- those without a date. Both keep the order of the cards.
  pub windows_cover_client :
      (games : List Game)
      → IsClock now_ms
      → IsClientMidnight now_ms client_ms midnight
      → (filter
            (λ game. released_before midnight (release_ms j game))
            (in_new_window j games now_ms)
          ≡ filter (λ game. released_before midnight (release_ms j game)) games)
        × (filter
              (λ game. undated_or_from midnight (release_ms j game))
              (in_upcoming_window j games now_ms)
            ≡ filter (λ game. undated_or_from midnight (release_ms j game)) games)
  unfolding in_new_window in_upcoming_window
  windows_cover_client games c m = (
    filter-filter_of_imp _ _ games (λ game.
        released_mono midnight (add_i64 (add_i64 now_ms max_local_day_ms) client_clock_margin_ms)
          (release_ms j game)
          (rw (new_window_end now_ms c) (window_end now_ms client_ms midnight m))),
    filter-filter_of_imp _ _ games (λ game.
        undated_mono (sub_i64 now_ms client_clock_margin_ms) midnight (release_ms j game)
          (rw (upcoming_window_start now_ms c) (window_start now_ms client_ms midnight m))),
  )
