-- ===== src/LogFilters/Labels.antt =====
-- `matchesLabel` of filtering.ts, without its loops.
use logalot.Base.{
  refl, none, some, true, [], ◌∷◌, ◌++◌, Text, List, ℕ, ◌≡◌, ◌≢◌, ◌⊎◌, ◌↔◌, inl, inr, arith, All,
  take, drop, length, ◌===◌, ◌&&◌, ◌+◌, text_eq_iff, Bool-cases, Option-cases, take-append, ◌∙◌,
}
use logalot.Domain.Split.{index_of, starts_with}
use logalot.Domain.Split.Laws.{index_of-splits, index_of-append, index_of-before, drop-separator}
use logalot.Domain.Email.{trim}
use logalot.LogFilters.{includes, some_pair, some_part, matches_query}

abbrev pub Contains : Text → Text → Type 0
Contains s part = (a : Text) × (b : Text) × (s ≡ a ++ (part ++ b))

-- A predicate that holds of some entry.
abbrev pub Any : {A : Type 0} → (A → Type 0) → List A → Type 0
Any P [] = ⊥
Any P (x ∷ xs) = P x ⊎ Any P xs

starts_with-append : (part b : Text) → starts_with (part ++ b) part ≡ true
unfolding starts_with
starts_with-append [] b = refl
starts_with-append (c ∷ part) b = ground (arith, starts_with-append part b)

index_of-start : (s part : Text) → starts_with s part ≡ true → index_of s part ≡ some 0
unfolding index_of
index_of-start [] part h = ground (arith, h)
index_of-start (c ∷ s) part h = ground (arith, h)

includes-append : (a part b : Text) → includes (a ++ (part ++ b)) part ≡ true
unfolding includes index_of
includes-append [] part b =
    ground (arith, index_of-start (part ++ b) part (starts_with-append part b))
includes-append (x ∷ a) part b = elim (Bool-cases (starts_with (x ∷ (a ++ (part ++ b))) part)) [
  | inl at_once ↦ ground (arith, at_once)
  | inr behind ↦ ground (arith, behind, includes-append a part b)
]

includes-Contains : (s part : Text) → includes s part ≡ true → Contains s part
unfolding includes
includes-Contains s part h = elim (Option-cases (index_of s part)) [
  | inl n ↦ absurd (ground (arith, n, h))
  | inr (i, e) ↦ (take i s, drop (i + length part) s, index_of-splits s part i e)
]

-- `includes` finds exactly the parts of a text.
pub includes_iff : (s part : Text) → (includes s part ≡ true) ↔ Contains s part
includes_iff s part =
    (includes-Contains s part, λ h. let (a, b, e) = h in rw e (includes-append a part b))

index_of-lacks : (c : ℕ) (s : Text) → index_of s (c ∷ []) ≡ none → All (λ x. x ≢ c) s
unfolding index_of starts_with
index_of-lacks c [] e = tt
index_of-lacks c (x ∷ s) e = elim (Option-cases (index_of s (c ∷ []))) [
  | inl n ↦ (ground arith, index_of-lacks c s n)
  | inr (i, f) ↦ absurd (ground arith)
]

index_of-none : (c : ℕ) (s : Text) → All (λ x. x ≢ c) s → index_of s (c ∷ []) ≡ none
unfolding index_of starts_with
index_of-none c [] h = refl
index_of-none c (x ∷ s) h = ground (arith, h.0, index_of-none c s h.1)

module _ (lower : Text → Text) where
  -- An entry of the labels with this key, and with the part in its value.
  abbrev pub Pair : Text → Text → Text × Text → Type 0
  Pair key val label = (lower label.0 ≡ key) × Contains (lower label.1) val

  abbrev pub Part : Text → Text × Text → Type 0
  Part q label = Contains (lower label.0) q ⊎ Contains (lower label.1) q

  some_pair-Any :
      (key val : Text) (labels : List (Text × Text))
      → some_pair lower key val labels ≡ true
      → Any (Pair key val) labels
  unfolding some_pair
  some_pair-Any key val [] h = absurd (cc h)
  some_pair-Any key val ((k, v) ∷ labels) h =
      elim (Bool-cases ((lower k === key) && includes (lower v) val)) [
        | inl hit ↦ inl (
          (text_eq_iff (lower k) key).0 (ground (arith, hit)),
          (includes_iff (lower v) val).0 (ground (arith, hit)),
        )
        | inr miss ↦ inr (some_pair-Any key val labels (ground (arith, miss, h)))
      ]

  Any-some_pair :
      (key val : Text) (labels : List (Text × Text))
      → Any (Pair key val) labels
      → some_pair lower key val labels ≡ true
  unfolding some_pair
  Any-some_pair key val [] h = absurd h
  Any-some_pair key val ((k, v) ∷ labels) (inl (same, part)) =
      ground (arith, (text_eq_iff (lower k) key).1 same, (includes_iff (lower v) val).1 part)
  Any-some_pair key val ((k, v) ∷ labels) (inr later) =
      ground (arith, Any-some_pair key val labels later)

  some_part-Any :
      (q : Text) (labels : List (Text × Text))
      → some_part lower q labels ≡ true
      → Any (Part q) labels
  unfolding some_part
  some_part-Any q [] h = absurd (cc h)
  some_part-Any q ((k, v) ∷ labels) h = elim (Bool-cases (includes (lower k) q)) [
    | inl hit ↦ inl (inl ((includes_iff (lower k) q).0 hit))
    | inr miss ↦ elim (Bool-cases (includes (lower v) q)) [
      | inl hit ↦ inl (inr ((includes_iff (lower v) q).0 hit))
      | inr miss_too ↦ inr (some_part-Any q labels (ground (arith, miss, miss_too, h)))
    ]
  ]

  Any-some_part :
      (q : Text) (labels : List (Text × Text))
      → Any (Part q) labels
      → some_part lower q labels ≡ true
  unfolding some_part
  Any-some_part q [] h = absurd h
  Any-some_part q ((k, v) ∷ labels) (inl (inl part)) =
      ground (arith, (includes_iff (lower k) q).1 part)
  Any-some_part q ((k, v) ∷ labels) (inl (inr part)) =
      ground (arith, (includes_iff (lower v) q).1 part)
  Any-some_part q ((k, v) ∷ labels) (inr later) = ground (arith, Any-some_part q labels later)

  -- A query for labels: nothing is asked; or what stands around its first `=` is asked of a key and of
  -- its value; or, without one, all of it is asked of a key or a value.
  pub data LabelMatch (q : Text) (labels : List (Text × Text)) : Type 0 where
    everything : q ≡ [] → LabelMatch q labels
    of_pair :
        (key val : Text)
        → q ≡ key ++ (61 ∷ val)
        → All (λ c. c ≢ 61) key
        → Any (Pair (trim key) (trim val)) labels
        → LabelMatch q labels
    of_part : All (λ c. c ≢ 61) q → Any (Part q) labels → LabelMatch q labels

  pub matches_query-LabelMatch :
      (q : Text) (labels : List (Text × Text))
      → matches_query lower q labels ≡ true
      → LabelMatch q labels
  unfolding matches_query
  matches_query-LabelMatch [] labels h = everything refl
  matches_query-LabelMatch (c ∷ q) labels h = elim (Option-cases (index_of (c ∷ q) (61 ∷ []))) [
    | inl n ↦
        of_part (index_of-lacks 61 (c ∷ q) n) (some_part-Any (c ∷ q) labels (ground (arith, n, h)))
    | inr (i, e) ↦
        of_pair (take i (c ∷ q)) (drop (i + 1) (c ∷ q)) (index_of-splits (c ∷ q) (61 ∷ []) i e)
          (index_of-before (c ∷ q) 61 i e)
          (some_pair-Any (trim (take i (c ∷ q))) (trim (drop (i + 1) (c ∷ q))) labels
            (ground (arith, e, h)))
  ]

  matches_query-Pair :
      (key val : Text) (labels : List (Text × Text))
      → All (λ c. c ≢ 61) key
      → Any (Pair (trim key) (trim val)) labels
      → matches_query lower (key ++ (61 ∷ val)) labels ≡ true
  unfolding matches_query
  matches_query-Pair key val labels h any = ground (
    arith,
    index_of-append key val 61 h,
    take-append key (61 ∷ val),
    drop-separator key val 61,
    Any-some_pair (trim key) (trim val) labels any,
  )

  pub LabelMatch-matches_query :
      (q : Text) (labels : List (Text × Text))
      → LabelMatch q labels
      → matches_query lower q labels ≡ true
  unfolding matches_query
  LabelMatch-matches_query q labels (everything e) = ground (arith, e)
  LabelMatch-matches_query q labels (of_pair key val e h any) =
      (λ i. matches_query lower (e i) labels) ∙ matches_query-Pair key val labels h any
  LabelMatch-matches_query q labels (of_part h any) =
      ground (arith, index_of-none 61 q h, Any-some_part q labels any)
