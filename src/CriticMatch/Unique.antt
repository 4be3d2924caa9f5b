-- ===== src/CriticMatch/Unique.antt =====
-- `match_critic_score`: the score of the only candidate.
use psstore.Prelude.{
  ◌≡◌, ◌≤◌, ◌↔◌, refl, ap, ◌∙◌, true, false, Option, none, some, All, ◌++◌, List, [], ◌∷◌, arith,
  filter, is_empty, Bool-cases, inl, inr,
}
use psstore.Prelude.Int.{ℤ, pos, ◌-ℤ◌, leb_ℤ}
use psstore.Prelude.Texts.{Text, text_eq_iff}
use psstore.Mapper.{is_some}
use psstore.Game.{CriticScore}
use psstore.CriticMatch.{
  Unicode, CriticCandidate, normalize_title, is_near_year, is_qualified, only_rating,
  match_critic_score,
}

module _ (u : Unicode) where
  -- A candidate for a title and a year: it was released at most one year away, has a score of at least
  -- three reviews, and the same normalised name.
  pub record IsQualified (title : Text) (year : ℤ) (candidate : CriticCandidate) : Type 0 where
    pub release : ℤ
    pub released : candidate.release_year ≡ some release
    pub not_later : leb_ℤ (release -ℤ year) (pos 1) ≡ true
    pub not_earlier : leb_ℤ (year -ℤ release) (pos 1) ≡ true
    pub score : CriticScore
    pub rated : candidate.rating ≡ some score
    pub reviewed : 3 ≤ candidate.rating_count
    pub same_name : normalize_title u candidate.name ≡ normalize_title u title

  near_year :
      (o : Option ℤ) (year : ℤ)
      → is_near_year u o year ≡ true
      → (release : ℤ) × (o ≡ some release)
        × (leb_ℤ (release -ℤ year) (pos 1) ≡ true)
        × (leb_ℤ (year -ℤ release) (pos 1) ≡ true)
  unfolding is_near_year
  near_year none year h = absurd (cc h)
  near_year (some release) year h = (release, refl, ground (arith, h), ground (arith, h))

  some_rating :
      (o : Option CriticScore) → is_some o ≡ true → (score : CriticScore) × (o ≡ some score)
  some_rating none h = absurd (cc h)
  some_rating (some score) h = (score, refl)

  IsQualified-of :
      (title : Text) (year : ℤ) (candidate : CriticCandidate)
      → is_qualified u (normalize_title u title) year candidate ≡ true
      → IsQualified title year candidate
  unfolding is_qualified
  IsQualified-of title year candidate h =
      let (release, released, not_later, not_earlier) =
        near_year candidate.release_year year (ground (arith, h)) in
      let (score, rated) = some_rating candidate.rating (ground (arith, h)) in
      record {
        release = release;
        released = released;
        not_later = not_later;
        not_earlier = not_earlier;
        score = score;
        rated = rated;
        reviewed = ground (arith, h);
        same_name =
            (text_eq_iff (normalize_title u candidate.name) (normalize_title u title)).0
              (ground (arith, h));
      }

  is_qualified-IsQualified :
      (title : Text) (year : ℤ) (candidate : CriticCandidate)
      → IsQualified title year candidate
      → is_qualified u (normalize_title u title) year candidate ≡ true
  unfolding is_qualified is_near_year
  is_qualified-IsQualified title year candidate q =
      let same =
        (text_eq_iff (normalize_title u candidate.name) (normalize_title u title)).1 q.same_name in
      ground (arith, q.released, q.not_later, q.not_earlier, q.rated, q.reviewed, same)

  -- no candidate of the list is qualified
  abbrev pub NoneQualified : Text → ℤ → List CriticCandidate → Type 0
  NoneQualified title year candidates =
      All (λ candidate. IsQualified title year candidate → ⊥) candidates

  -- one candidate of the list is qualified, and this is its score
  pub record IsOnlyScore (title : Text) (year : ℤ) (candidates : List CriticCandidate)
      (score : CriticScore) : Type 0 where
    pub before : List CriticCandidate
    pub only : CriticCandidate
    pub after : List CriticCandidate
    pub place : candidates ≡ before ++ only ∷ after
    pub none_before : NoneQualified title year before
    pub qualified : IsQualified title year only
    pub none_after : NoneQualified title year after
    pub rated : only.rating ≡ some score

  none_of_filter :
      (title : Text) (year : ℤ) (candidates : List CriticCandidate)
      → filter (is_qualified u (normalize_title u title) year) candidates ≡ []
      → NoneQualified title year candidates
  none_of_filter title year [] h = tt
  none_of_filter title year (c ∷ candidates) h =
      elim (Bool-cases (is_qualified u (normalize_title u title) year c)) [
        | inl kept ↦ absurd (ground (arith, h, kept))
        | inr left ↦ (
          λ q. cc (left, is_qualified-IsQualified title year c q),
          none_of_filter title year candidates (rw left at h),
        )
      ]

  filter_of_none :
      (title : Text) (year : ℤ) (candidates : List CriticCandidate)
      → NoneQualified title year candidates
      → filter (is_qualified u (normalize_title u title) year) candidates ≡ []
  filter_of_none title year [] h = refl
  filter_of_none title year (c ∷ candidates) h =
      elim (Bool-cases (is_qualified u (normalize_title u title) year c)) [
        | inl kept ↦ absurd (h.0 (IsQualified-of title year c kept))
        | inr left ↦ rw left (filter_of_none title year candidates h.1)
      ]

  only_of_filter :
      (title : Text) (year : ℤ) (candidates : List CriticCandidate) (only : CriticCandidate)
      (score : CriticScore)
      → filter (is_qualified u (normalize_title u title) year) candidates ≡ only ∷ []
      → only.rating ≡ some score
      → IsOnlyScore title year candidates score
  only_of_filter title year [] only score h rated = absurd (cc h)
  only_of_filter title year (c ∷ candidates) only score h rated =
      elim (Bool-cases (is_qualified u (normalize_title u title) year c)) [
        | inl kept ↦
            let (same, rest) = cons_parts (rw kept at h) in
            record {
              before = [];
              only = c;
              after = candidates;
              place = refl;
              none_before = tt;
              qualified = IsQualified-of title year c kept;
              none_after = none_of_filter title year candidates rest;
              rated = ap (λ (x : CriticCandidate). x.rating) same ∙ rated;
            }
        | inr left ↦
            let found = only_of_filter title year candidates only score (rw left at h) rated in
            record {
              before = c ∷ found.before;
              only = found.only;
              after = found.after;
              place = ap (λ xs. c ∷ xs) found.place;
              none_before =
                  (λ q. cc (left, is_qualified-IsQualified title year c q), found.none_before);
              qualified = found.qualified;
              none_after = found.none_after;
              rated = found.rated;
            }
      ]
    where
      cons_parts :
          {x y : CriticCandidate} {xs : List CriticCandidate}
          → x ∷ xs ≡ y ∷ []
          → (x ≡ y) × (xs ≡ [])
      cons_parts e = (cc e, cc e)

  filter_of_only :
      (title : Text) (year : ℤ) (before after : List CriticCandidate) (only : CriticCandidate)
      → NoneQualified title year before
      → IsQualified title year only
      → NoneQualified title year after
      → filter (is_qualified u (normalize_title u title) year) (before ++ only ∷ after) ≡ only ∷ []
  filter_of_only title year [] after only none_before q none_after =
      rw (is_qualified-IsQualified title year only q, filter_of_none title year after none_after)
        refl
  filter_of_only title year (c ∷ before) after only none_before q none_after =
      elim (Bool-cases (is_qualified u (normalize_title u title) year c)) [
        | inl kept ↦ absurd (none_before.0 (IsQualified-of title year c kept))
        | inr left ↦
            rw left (filter_of_only title year before after only none_before.1 q none_after)
      ]

  only_rating-IsOnlyScore :
      (title : Text) (year : ℤ) (candidates : List CriticCandidate) (score : CriticScore)
      (found : List CriticCandidate)
      → filter (is_qualified u (normalize_title u title) year) candidates ≡ found
      → only_rating u found ≡ some score
      → IsOnlyScore title year candidates score
  unfolding only_rating
  only_rating-IsOnlyScore title year candidates score [] same h = absurd (cc h)
  only_rating-IsOnlyScore title year candidates score (only ∷ []) same h =
      only_of_filter title year candidates only score same h
  only_rating-IsOnlyScore title year candidates score (only ∷ other ∷ more) same h = absurd (cc h)

  -- A title has a score exactly when its normalised name is not empty and exactly one candidate is
  -- qualified: released at most one year from the year, with a score of at least three reviews, and of
  -- the same normalised name. The score is that candidate's.
  pub match_critic_score_iff :
      (title : Text) (year : ℤ) (candidates : List CriticCandidate) (score : CriticScore)
      → (match_critic_score u title year candidates ≡ some score)
        ↔ ((is_empty (normalize_title u title) ≡ false) × IsOnlyScore title year candidates score)
  unfolding match_critic_score only_rating
  match_critic_score_iff title year candidates score = (
    λ h. elim (Bool-cases (is_empty (normalize_title u title))) [
      | inl empty ↦ absurd (ground (arith, h, empty))
      | inr filled ↦
          (filled, only_rating-IsOnlyScore title year candidates score _ refl (rw filled at h))
    ],
    λ (filled, only).
        let found =
          filter_of_only title year only.before only.after only.only only.none_before only.qualified
            only.none_after in
        rw (filled, only.place, found) only.rated,
  )
