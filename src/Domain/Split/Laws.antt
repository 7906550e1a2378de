-- ===== src/Domain/Split/Laws.antt =====
-- What `splitN` keeps of its input.
use native.Mathlib.Nat.{zero-add}
use logalot.Base.{
  ℕ, zero, suc, ◌+◌, ◌≤◌, ◌≡◌, refl, ap, sym, ◌∙◌, ◌≢◌, true, none, some, List, [], ◌∷◌, ◌++◌,
  length, take, drop, take-append, Text, All, Option-cases, Bool-cases, inl, inr, arith,
}
use logalot.Domain.Split.{starts_with, index_of, split_loop, split_n, join}

starts_with-prefix : (s sep : Text) → starts_with s sep ≡ true → s ≡ sep ++ drop (length sep) s
unfolding starts_with
starts_with-prefix s [] h = refl
starts_with-prefix [] (p ∷ ps) h = cc
starts_with-prefix (c ∷ s) (p ∷ ps) h = ground (arith, starts_with-prefix s ps)

-- The text around a separator found at place `i`.
abbrev pub Splits : Text → Text → ℕ → Type 0
Splits s sep i = s ≡ take i s ++ (sep ++ drop (i + length sep) s)

at_start : (s sep : Text) → starts_with s sep ≡ true → Splits s sep 0
at_start s sep h = rw zero-add (starts_with-prefix s sep h)

later : (c : ℕ) (s sep : Text) (i : ℕ) → Splits s sep i → Splits (c ∷ s) sep (suc i)
later c s sep i h =
    let e : suc i + length sep ≡ suc (i + length sep) = omega arith in rw e (ap (λ t. c ∷ t) h)

pub index_of-splits : (s sep : Text) (i : ℕ) → index_of s sep ≡ some i → Splits s sep i
unfolding index_of
index_of-splits [] sep i h = elim (Bool-cases (starts_with [] sep)) [
  | inl e ↦ let z : i ≡ 0 = ground arith in rw z (at_start [] sep e)
  | inr e ↦ ground arith
]
index_of-splits (c ∷ s) sep i h = elim (Bool-cases (starts_with (c ∷ s) sep)) [
  | inl e ↦ let z : i ≡ 0 = ground arith in rw z (at_start (c ∷ s) sep e)
  | inr e ↦ elim (Option-cases (index_of s sep)) [
    | inl n ↦ ground arith
    | inr (j, f) ↦
        let z : i ≡ suc j = ground arith in rw z (later c s sep j (index_of-splits s sep j f))
  ]
]

pub split_loop-none :
    (k : ℕ) (s sep : Text) → index_of s sep ≡ none → split_loop (suc k) s sep ≡ s ∷ []
unfolding split_loop
split_loop-none k s sep e = ground arith

pub split_loop-some :
    (k : ℕ) (s sep : Text) (i : ℕ)
    → index_of s sep ≡ some i
    → split_loop (suc k) s sep ≡ take i s ∷ split_loop k (drop (i + length sep) s) sep
unfolding split_loop
split_loop-some k s sep i e = ground arith

split_loop-cons :
    (k : ℕ) (s sep : Text) → (p : Text) × (ps : List Text) × (split_loop k s sep ≡ p ∷ ps)
split_loop-cons zero s sep = (s, [], unfold split_loop in refl)
split_loop-cons (suc k) s sep = elim (Option-cases (index_of s sep)) [
  | inl e ↦ (s, [], split_loop-none k s sep e)
  | inr (i, e) ↦ (take i s, split_loop k (drop (i + length sep) s) sep, split_loop-some k s sep i e)
]

join-cons :
    (p s sep : Text) (k : ℕ)
    → join (p ∷ split_loop k s sep) sep ≡ p ++ (sep ++ join (split_loop k s sep) sep)
unfolding join
join-cons p s sep k = let (q, qs, f) = split_loop-cons k s sep in rw f

join-split_loop : (k : ℕ) (s sep : Text) → join (split_loop k s sep) sep ≡ s
unfolding join
join-split_loop zero s sep = unfold split_loop in refl
join-split_loop (suc k) s sep = elim (Option-cases (index_of s sep)) [
  | inl e ↦ rw (split_loop-none k s sep e)
  | inr (i, e) ↦ rw (split_loop-some k s sep i e) (
      join-cons (take i s) (drop (i + length sep) s) sep k
      ∙ (ap (λ t. take i s ++ (sep ++ t)) (join-split_loop k (drop (i + length sep) s) sep)
          ∙ sym (index_of-splits s sep i e)))
]

-- The parts joined by the separator are the text that was split.
pub join-split_n : (s sep : Text) (n : ℕ) → join (split_n s sep (suc n)) sep ≡ s
unfolding split_n
join-split_n s sep n = join-split_loop n s sep

length-split_loop : (k : ℕ) (s sep : Text) → length (split_loop k s sep) ≤ suc k
length-split_loop zero s sep = unfold split_loop in omega arith
length-split_loop (suc k) s sep = elim (Option-cases (index_of s sep)) [
  | inl e ↦ rw (split_loop-none k s sep e) (omega arith)
  | inr (i, e) ↦
      rw (split_loop-some k s sep i e)
        (omega (arith, length-split_loop k (drop (i + length sep) s) sep))
]

-- There are at most `n` parts.
pub length-split_n : (s sep : Text) (n : ℕ) → length (split_n s sep n) ≤ n
unfolding split_n
length-split_n s sep zero = omega arith
length-split_n s sep (suc n) = length-split_loop n s sep

-- A one-character separator that does not occur in `a` is found right after `a`.
pub index_of-append :
    (a rest : Text) (c : ℕ)
    → All (λ x. x ≢ c) a
    → index_of (a ++ (c ∷ rest)) (c ∷ []) ≡ some (length a)
unfolding index_of
index_of-append [] rest c h = ground arith
index_of-append (x ∷ a) rest c h = ground (arith, h.0, index_of-append a rest c h.1)

-- What is found by a one-character separator has none of it before.
pub index_of-before :
    (s : Text) (c i : ℕ) → index_of s (c ∷ []) ≡ some i → All (λ x. x ≢ c) (take i s)
unfolding index_of
index_of-before [] c i e = ground arith
index_of-before (x ∷ s) c zero e = tt
index_of-before (x ∷ s) c (suc i) e = elim (Option-cases (index_of s (c ∷ []))) [
  | inl n ↦ ground arith
  | inr (j, f) ↦ (ground arith, index_of-before s c i (ground arith))
]

pub drop-separator : (a rest : Text) (c : ℕ) → drop (length a + 1) (a ++ (c ∷ rest)) ≡ rest
drop-separator [] rest c = refl
drop-separator (x ∷ a) rest c =
    let e : suc (length a) + 1 ≡ suc (length a + 1) = omega arith in rw e (drop-separator a rest c)

-- So the loop cuts `a` off and goes on with what follows.
pub split_loop-append :
    (k : ℕ) (a rest : Text) (c : ℕ)
    → All (λ x. x ≢ c) a
    → split_loop (suc k) (a ++ (c ∷ rest)) (c ∷ []) ≡ a ∷ split_loop k rest (c ∷ [])
split_loop-append k a rest c h =
    rw (split_loop-some k (a ++ (c ∷ rest)) (c ∷ []) (length a) (index_of-append a rest c h)) (
      rw (take-append a (c ∷ rest))
        (ap (λ t. a ∷ split_loop k t (c ∷ [])) (drop-separator a rest c)))
