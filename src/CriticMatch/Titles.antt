-- ===== src/CriticMatch/Titles.antt =====
-- `strip_edition_suffixes`: its loop ends with no suffix left, and only cuts the end off.
use mathlib.Core.Path.{subst}
use mathlib.Core.List.{append-nil}
use psstore.Prelude.{
  ℕ, zero, suc, ◌+◌, ◌-◌, ◌≤◌, ◌<◌, ◌≡◌, refl, sym, ◌∙◌, ap, ◌&&◌, Option, none, some, List, [],
  ◌∷◌, ◌++◌, ◌==◌, leb, arith, length, take, drop, filter_map, All, All-filter_map, is_empty,
  Bool-cases, Option-cases, inl, inr, length-take, take-append-drop,
}
use psstore.Prelude.Texts.{Text, text_eq}
use psstore.CriticMatch.{
  edition_suffixes, strip_suffix, suffix_match, longest, longest_match, trim_end_spaces,
  strip_rounds, strip_edition_suffixes,
}

abbrev pub IsPrefix : Text → Text → Type 0
IsPrefix r s = (t : Text) × (r ++ t ≡ s)

append_assoc : (xs ys zs : Text) → (xs ++ ys) ++ zs ≡ xs ++ (ys ++ zs)
append_assoc [] ys zs = refl
append_assoc (x ∷ xs) ys zs = ap (λ (r : Text). x ∷ r) (append_assoc xs ys zs)

IsPrefix-trans : (q r s : Text) → IsPrefix q r → IsPrefix r s → IsPrefix q s
IsPrefix-trans q r s (t, h) (v, k) =
    (t ++ v, sym (append_assoc q t v) ∙ ap (λ (x : Text). x ++ v) h ∙ k)

strip_suffix_lem :
    (suffix s r : Text)
    → strip_suffix suffix s ≡ some r
    → (length r + length suffix ≡ length s) × IsPrefix r s
unfolding strip_suffix
strip_suffix_lem suffix s r h =
    let n = length s - length suffix in
    elim (Bool-cases (leb (length suffix) (length s) && text_eq (drop n s) suffix)) [
      | inr differs ↦ absurd (ground arith)
      | inl ends ↦
          let same : take n s ≡ r = ground arith in
          let fits : length suffix ≤ length s = ground arith in
          (
            omega (arith, length-take n s, ap (λ (x : Text). length x) same),
            (drop n s, ap (λ (x : Text). x ++ drop n s) (sym same) ∙ take-append-drop n s),
          )
    ]

-- a match leaves a shorter part of the front of the title
abbrev pub IsCut : Text → ℕ × Text → Type 0
IsCut s m = (length m.1 < length s) × IsPrefix m.1 s

suffix_match-IsCut :
    (current suffix : Text) (m : ℕ × Text) → suffix_match current suffix ≡ some m → IsCut current m
unfolding suffix_match
suffix_match-IsCut current suffix m h = elim (Option-cases (strip_suffix suffix current)) [
  | inl absent ↦ absurd (ground arith)
  | inr (before, first) ↦ elim (Option-cases (strip_suffix (b' ' ∷ []) before)) [
    | inl absent ↦ absurd (ground arith)
    | inr (rest, second) ↦
        let (sum, front) = strip_suffix_lem suffix current before first in
        let (shorter, start) = strip_suffix_lem (b' ' ∷ []) before rest second in
        let same : rest ≡ m.1 = ground arith in
        (
          omega (arith, ap (λ (x : Text). length x) same),
          subst (λ (x : Text). IsPrefix x current) same
              (IsPrefix-trans rest before current start front),
        )
  ]
]

some-eq : {A : Type 0} {a b : A} → some a ≡ some b → a ≡ b
some-eq h = ground (arith, h)

longest-All :
    (P : ℕ × Text → Type 0) (best : Option (ℕ × Text)) (ms : List (ℕ × Text)) (m : ℕ × Text)
    → ((b : ℕ × Text) → best ≡ some b → P b)
    → All P ms
    → longest best ms ≡ some m
    → P m
unfolding longest
longest-All P best [] m hb all_P h = hb m h
longest-All P none (x ∷ ms) m hb (hx, hs) h =
    longest-All P (some x) ms m (λ b same. subst P (some-eq same) hx) hs h
longest-All P (some best) (x ∷ ms) m hb (hx, hs) h = elim (Bool-cases (leb best.0 x.0)) [
  | inl later ↦ longest-All P (some x) ms m (λ b same. subst P (some-eq same) hx) hs (rw later at h)
  | inr kept ↦ longest-All P (some best) ms m hb hs (rw kept at h)
]

longest_match-IsCut :
    (current : Text) (m : ℕ × Text) → longest_match current ≡ some m → IsCut current m
unfolding longest_match
longest_match-IsCut current m h =
    longest-All (IsCut current) none (filter_map (suffix_match current) edition_suffixes) m
      (λ b same. absurd (ground arith))
      (All-filter_map (IsCut current) (suffix_match current) edition_suffixes
        (suffix_match-IsCut current))
      h

trim_end_spaces_lem :
    (s : Text) → (length (trim_end_spaces s) ≤ length s) × IsPrefix (trim_end_spaces s) s
unfolding trim_end_spaces
trim_end_spaces_lem [] = (omega arith, ([], refl))
trim_end_spaces_lem (c ∷ s) =
    let (le, (t, same)) = trim_end_spaces_lem s in
    elim (Bool-cases (is_empty (trim_end_spaces s) && c == b' ')) [
      | inl cut ↦ rw cut (omega arith, (c ∷ s, refl))
      | inr kept ↦ rw kept (omega arith, (t, ap (λ (r : Text). c ∷ r) same))
    ]

no_match_nil : (s : Text) → length s ≤ 0 → longest_match s ≡ none
unfolding longest_match suffix_match strip_suffix longest
no_match_nil [] h = refl
no_match_nil (c ∷ s) h = absurd (omega arith)

strip_rounds_lem :
    (fuel : ℕ) (s : Text)
    → length s ≤ fuel
    → (longest_match (strip_rounds fuel s) ≡ none) × IsPrefix (strip_rounds fuel s) s
unfolding strip_rounds
strip_rounds_lem zero s h = (no_match_nil s h, ([], append-nil s))
strip_rounds_lem (suc fuel) s h = elim (Option-cases (longest_match s)) [
  | inl done ↦ rw (done, strip_rounds) (done, ([], append-nil s))
  | inr (m, found) ↦
      let (shorter, front) = longest_match-IsCut s m found in
      let (le, trimmed) = trim_end_spaces_lem m.1 in
      let (stripped, start) = strip_rounds_lem fuel (trim_end_spaces m.1) (omega arith) in
      rw (found, strip_rounds)
        (
          stripped,
          IsPrefix-trans _ (trim_end_spaces m.1) s start
              (IsPrefix-trans (trim_end_spaces m.1) m.1 s trimmed front),
        )
]

-- The loop ends for every title: no edition suffix stands behind a space at the end of the result,
-- which is a prefix of the title.
pub strip_edition_suffixes_lem :
    (s : Text)
    → (longest_match (strip_edition_suffixes s) ≡ none) × IsPrefix (strip_edition_suffixes s) s
unfolding strip_edition_suffixes
strip_edition_suffixes_lem s = strip_rounds_lem (length s) s (omega arith)
