-- ===== src/LogFilters/Matches.antt =====
-- What the filters of the live tail let through, without their guards and loops.
use logalot.Base.{
  refl, true, false, [], ◌∷◌, Text, List, ◌≡◌, ◌⊎◌, ◌↔◌, inl, inr, arith, is_empty, ◌===◌, ◌&&◌,
  text_eq_iff, Bool-cases, not,
}
use logalot.Domain.Email.{trim}
use logalot.LogTail.{TailLogEvent}
use logalot.LogFilters.{LogFilters, includes, has_level, matches_label, matches_filters, selects}
use logalot.LogFilters.Labels.{
  Contains, Any, includes_iff, LabelMatch, matches_query-LabelMatch, LabelMatch-matches_query,
}

-- A level that is among the selected.
has_level_iff :
    (level : Text) (ls : List Text) → (has_level level ls ≡ true) ↔ Any (λ l. l ≡ level) ls
unfolding has_level
has_level_iff level [] = (λ h. absurd (cc h), λ h. absurd h)
has_level_iff level (l ∷ ls) =
    let rest = has_level_iff level ls in
    let here = text_eq_iff l level in
    (
      λ h. elim (Bool-cases (l === level)) [
        | inl same ↦ inl (here.0 same)
        | inr apart ↦ inr (rest.0 (ground (arith, apart, h)))
      ],
      λ h. elim h [ inl e ↦ ground (arith, here.1 e) | inr later ↦ ground (arith, rest.1 later) ],
    )

module _ (lower : Text → Text) where
  pub record IsMatch (ev : TailLogEvent) (f : LogFilters) : Type 0 where
    pub level : (f.levels ≡ []) ⊎ Any (λ l. l ≡ ev.level) f.levels
    pub service : Contains (lower ev.service) (lower (trim f.service))
    pub text : Contains (lower ev.message) (lower (trim f.text))
    pub label : LabelMatch lower (lower (trim f.label)) ev.labels

  -- A filter that is empty lets everything through, by its guard and without it.
  guarded-Contains :
      (s part : Text) → (not (is_empty part) && not (includes s part)) ≡ false → Contains s part
  guarded-Contains s [] h = ([], s, refl)
  guarded-Contains s (c ∷ part) h = (includes_iff s (c ∷ part)).0 (ground (arith, h))

  Contains-guarded :
      (s part : Text) → Contains s part → (not (is_empty part) && not (includes s part)) ≡ false
  Contains-guarded s part h = ground (arith, (includes_iff s part).1 h)

  guarded-level :
      (level : Text) (ls : List Text)
      → (selects ls && not (has_level level ls)) ≡ false
      → (ls ≡ []) ⊎ Any (λ l. l ≡ level) ls
  guarded-level level [] h = inl refl
  guarded-level level (l ∷ ls) h = inr ((has_level_iff level (l ∷ ls)).0 (ground (arith, h)))

  level-guarded :
      (level : Text) (ls : List Text)
      → (ls ≡ []) ⊎ Any (λ l. l ≡ level) ls
      → (selects ls && not (has_level level ls)) ≡ false
  level-guarded level ls (inl e) = ground (arith, e)
  level-guarded level ls (inr any) = ground (arith, (has_level_iff level ls).1 any)

  matches_filters-IsMatch :
      (ev : TailLogEvent) (f : LogFilters) → matches_filters lower ev f ≡ true → IsMatch ev f
  unfolding matches_filters matches_label
  matches_filters-IsMatch ev f h = record {
    level = guarded-level ev.level f.levels (ground (arith, h));
    service = guarded-Contains (lower ev.service) (lower (trim f.service)) (ground (arith, h));
    text = guarded-Contains (lower ev.message) (lower (trim f.text)) (ground (arith, h));
    label = matches_query-LabelMatch lower (lower (trim f.label)) ev.labels (ground (arith, h));
  }

  IsMatch-matches_filters :
      (ev : TailLogEvent) (f : LogFilters) → IsMatch ev f → matches_filters lower ev f ≡ true
  unfolding matches_filters matches_label
  IsMatch-matches_filters ev f m = ground (
    arith,
    level-guarded ev.level f.levels m.level,
    Contains-guarded (lower ev.service) (lower (trim f.service)) m.service,
    Contains-guarded (lower ev.message) (lower (trim f.text)) m.text,
    LabelMatch-matches_query lower (lower (trim f.label)) ev.labels m.label,
  )

  -- The event is shown exactly if its level is selected (or none is), its service and its message contain
  -- what is asked of them, and its labels match: the guards for the filters that are empty make no
  -- difference.
  pub matches_filters_iff :
      (ev : TailLogEvent) (f : LogFilters) → (matches_filters lower ev f ≡ true) ↔ IsMatch ev f
  matches_filters_iff ev f = (matches_filters-IsMatch ev f, IsMatch-matches_filters ev f)
