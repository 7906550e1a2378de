-- ===== src/Domain/Split/Fields.antt =====
-- The parts of a text whose first fields hold no separator: the shapes that the credential parsers
-- destructure.
use mathlib.Core.Path.{subst}
use logalot.Base.{
  ℕ, suc, ◌+◌, take, drop, ◌≡◌, refl, ap, sym, ◌∙◌, ◌≢◌, List, [], ◌∷◌, ◌++◌, ◌↔◌, Text, All,
  Option-cases, inl, inr,
}
use logalot.Domain.Split.{index_of, split_loop, split_n, join}
use logalot.Domain.Split.Laws.{
  split_loop-none, split_loop-some, split_loop-append, index_of-before, join-split_n,
}

-- No character of the field is the separator.
abbrev pub Lacks : ℕ → Text → Type 0
Lacks c = All (λ x. x ≢ c)

-- A part that is followed by another lacks the separator, and the rest is split on.
split_loop-head :
    (k : ℕ) (s a b : Text) (l : List Text) (c : ℕ)
    → split_loop (suc k) s (c ∷ []) ≡ a ∷ b ∷ l
    → (t : Text) × Lacks c a × (split_loop k t (c ∷ []) ≡ b ∷ l)
split_loop-head k s a b l c e = elim (Option-cases (index_of s (c ∷ []))) [
  | inl n ↦ absurd (cc (split_loop-none k s (c ∷ []) n))
  | inr (i, f) ↦
      let g = split_loop-some k s (c ∷ []) i f in
      let h : take i s ≡ a = cc g in
      (drop (i + 1) s, subst (Lacks c) h (index_of-before s c i f), cc g)
]

-- `splitN(s, c, 3)` gives three parts exactly when they are the fields of `s`.
pub split_three_iff :
    (s a b d : Text) (c : ℕ)
    → (split_n s (c ∷ []) 3 ≡ a ∷ b ∷ d ∷ [])
      ↔ ((s ≡ a ++ (c ∷ (b ++ (c ∷ d)))) × Lacks c a × Lacks c b)
unfolding split_n join
split_three_iff s a b d c = (parts, fields)
  where
    parts :
        split_n s (c ∷ []) 3 ≡ a ∷ b ∷ d ∷ []
        → (s ≡ a ++ (c ∷ (b ++ (c ∷ d)))) × Lacks c a × Lacks c b
    parts e =
        let (t, la, f) = split_loop-head 1 s a b (d ∷ []) c e in
        let (u, lb, g) = split_loop-head 0 t b d [] c f in
        (sym (join-split_n s (c ∷ []) 2) ∙ ap (λ l. join l (c ∷ [])) e, la, lb)

    fields :
        (s ≡ a ++ (c ∷ (b ++ (c ∷ d)))) × Lacks c a × Lacks c b
        → split_n s (c ∷ []) 3 ≡ a ∷ b ∷ d ∷ []
    fields (e, la, lb) = rw e (
        split_loop-append 1 a (b ++ (c ∷ d)) c la
        ∙ ap (λ l. a ∷ l) (split_loop-append 0 b d c lb ∙ unfold split_loop in refl))

-- `splitN(s, c, 4)` gives four parts exactly when they are the fields of `s`.
pub split_four_iff :
    (s a b d r : Text) (c : ℕ)
    → (split_n s (c ∷ []) 4 ≡ a ∷ b ∷ d ∷ r ∷ [])
      ↔ ((s ≡ a ++ (c ∷ (b ++ (c ∷ (d ++ (c ∷ r)))))) × Lacks c a × Lacks c b × Lacks c d)
unfolding split_n join
split_four_iff s a b d r c = (parts, fields)
  where
    parts :
        split_n s (c ∷ []) 4 ≡ a ∷ b ∷ d ∷ r ∷ []
        → (s ≡ a ++ (c ∷ (b ++ (c ∷ (d ++ (c ∷ r)))))) × Lacks c a × Lacks c b × Lacks c d
    parts e =
        let (t, la, f) = split_loop-head 2 s a b (d ∷ r ∷ []) c e in
        let (u, lb, g) = split_loop-head 1 t b d (r ∷ []) c f in
        let (v, ld, h) = split_loop-head 0 u d r [] c g in
        (sym (join-split_n s (c ∷ []) 3) ∙ ap (λ l. join l (c ∷ [])) e, la, lb, ld)

    fields :
        (s ≡ a ++ (c ∷ (b ++ (c ∷ (d ++ (c ∷ r)))))) × Lacks c a × Lacks c b × Lacks c d
        → split_n s (c ∷ []) 4 ≡ a ∷ b ∷ d ∷ r ∷ []
    fields (e, la, lb, ld) = rw e (
        split_loop-append 2 a (b ++ (c ∷ (d ++ (c ∷ r)))) c la
        ∙ ap (λ l. a ∷ l)
            (split_loop-append 1 b (d ++ (c ∷ r)) c lb
              ∙ ap (λ l. b ∷ l) (split_loop-append 0 d r c ld ∙ unfold split_loop in refl)))
