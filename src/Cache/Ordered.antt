-- ===== src/Cache/Ordered.antt =====
-- The laws of the `BTreeMap` of cache.rs: pairs in ascending order of their numbers.
use psstore.Prelude.{
  ℕ, ◌≤◌, ◌<◌, ◌≡◌, Option, none, some, List, [], ◌∷◌, ◌==◌, arith, if◌then◌else◌,
}
use psstore.Cache.{recency_insert, recency_remove}

module _ {K : Type 0} where
  -- `BTreeMap::get`
  unfoldable pub recency_get : ℕ → List (ℕ × K) → Option K
  recency_get u [] = none
  recency_get u ((v, k) ∷ r) = let rest = recency_get u r in if u == v then some k else rest

  -- every number is above `u`
  abbrev pub Above : ℕ → List (ℕ × K) → Type 0
  Above u [] = Unit
  Above u ((v, k) ∷ r) = (u < v) × Above u r

  abbrev pub Ascending : List (ℕ × K) → Type 0
  Ascending [] = Unit
  Ascending ((v, k) ∷ r) = Above v r × Ascending r

  -- every number is at most `n`
  abbrev pub AtMost : ℕ → List (ℕ × K) → Type 0
  AtMost n [] = Unit
  AtMost n ((v, k) ∷ r) = (v ≤ n) × AtMost n r

  pub Above-mono : (u v : ℕ) (r : List (ℕ × K)) → u ≤ v → Above v r → Above u r
  Above-mono u v [] le h = tt
  Above-mono u v ((w, k) ∷ r) le h = (omega arith, Above-mono u v r le h.1)

  pub AtMost-mono : (n m : ℕ) (r : List (ℕ × K)) → n ≤ m → AtMost n r → AtMost m r
  AtMost-mono n m [] le h = tt
  AtMost-mono n m ((w, k) ∷ r) le h = (omega arith, AtMost-mono n m r le h.1)

  pub get_of_Above : (u : ℕ) (r : List (ℕ × K)) → Above u r → recency_get u r ≡ none
  unfolding recency_get
  get_of_Above u [] h = ground arith
  get_of_Above u ((v, k) ∷ r) h = ground (arith, get_of_Above u r h.1)

  pub Above-of_get :
      (u w : ℕ) (k : K) (r : List (ℕ × K)) → Above u r → recency_get w r ≡ some k → u < w
  unfolding recency_get
  Above-of_get u w k [] h e = cc
  Above-of_get u w k ((v, j) ∷ r) h e = ground (arith, Above-of_get u w k r h.1)

  pub le_of_get :
      (n u : ℕ) (k : K) (r : List (ℕ × K)) → AtMost n r → recency_get u r ≡ some k → u ≤ n
  unfolding recency_get
  le_of_get n u k [] h e = cc
  le_of_get n u k ((v, j) ∷ r) h e = ground (arith, le_of_get n u k r h.1)

  pub get_of_AtMost : (n u : ℕ) (r : List (ℕ × K)) → AtMost n r → n < u → recency_get u r ≡ none
  unfolding recency_get
  get_of_AtMost n u [] h lt = ground arith
  get_of_AtMost n u ((v, k) ∷ r) h lt = ground (arith, get_of_AtMost n u r h.1)

  pub get-recency_insert :
      (u j : ℕ) (k : K) (r : List (ℕ × K))
      → recency_get j (recency_insert u k r) ≡ (if u == j then some k else recency_get j r)
  unfolding recency_get recency_insert
  get-recency_insert u j k [] = ground arith
  get-recency_insert u j k ((v, i) ∷ r) = ground (arith, get-recency_insert u j k r)

  pub get-recency_remove :
      (u j : ℕ) (r : List (ℕ × K))
      → Ascending r
      → recency_get j (recency_remove u r) ≡ (if u == j then none else recency_get j r)
  unfolding recency_get recency_remove
  get-recency_remove u j [] a = ground arith
  get-recency_remove u j ((v, i) ∷ r) a =
      ground (arith, get-recency_remove u j r a.1, get_of_Above v r a.0)

  pub insert-Above :
      (w u : ℕ) (k : K) (r : List (ℕ × K)) → w < u → Above w r → Above w (recency_insert u k r)
  unfolding recency_insert
  insert-Above w u k [] lt h = ground arith
  insert-Above w u k ((v, i) ∷ r) lt h = ground (arith, insert-Above w u k r lt h.1)

  pub remove-Above : (w u : ℕ) (r : List (ℕ × K)) → Above w r → Above w (recency_remove u r)
  unfolding recency_remove
  remove-Above w u [] h = tt
  remove-Above w u ((v, i) ∷ r) h = ground (arith, remove-Above w u r h.1)

  pub insert-Ascending :
      (u : ℕ) (k : K) (r : List (ℕ × K)) → Ascending r → Ascending (recency_insert u k r)
  unfolding recency_insert
  insert-Ascending u k [] a = ground arith
  insert-Ascending u k ((v, i) ∷ r) a =
      ground (arith, insert-Ascending u k r a.1, insert-Above v u k r, Above-mono u v r)

  pub remove-Ascending : (u : ℕ) (r : List (ℕ × K)) → Ascending r → Ascending (recency_remove u r)
  unfolding recency_remove
  remove-Ascending u [] a = tt
  remove-Ascending u ((v, i) ∷ r) a =
      ground (arith, remove-Ascending u r a.1, remove-Above v u r a.0)

  pub insert-AtMost :
      (n u : ℕ) (k : K) (r : List (ℕ × K)) → u ≤ n → AtMost n r → AtMost n (recency_insert u k r)
  unfolding recency_insert
  insert-AtMost n u k [] le h = ground arith
  insert-AtMost n u k ((v, i) ∷ r) le h = ground (arith, insert-AtMost n u k r le h.1)

  pub remove-AtMost : (n u : ℕ) (r : List (ℕ × K)) → AtMost n r → AtMost n (recency_remove u r)
  unfolding recency_remove
  remove-AtMost n u [] h = tt
  remove-AtMost n u ((v, i) ∷ r) h = ground (arith, remove-AtMost n u r h.1)
