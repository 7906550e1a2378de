-- ===== src/LogFilters.antt =====
-- apps/web/src/features/log-explorer/filtering.ts: which events of the live tail are shown.
-- `toLowerCase` is an argument.
pub mod Labels
pub mod Matches
mod Tests
use logalot.Base.{
  none, some, true, false, [], ◌∷◌, if◌then◌else◌, Text, List, ℕ, Option, Bool, ◌&&◌, ◌||◌, not,
  is_empty, is_none, take, drop, ◌===◌, ◌+◌,
}
use logalot.Domain.Email.{trim}
use logalot.Domain.Split.{index_of}
use logalot.LogTail.{TailLogEvent}

pub record LogFilters : Type 0 where
  pub service : Text
  pub levels : List Text
  pub label : Text
  pub text : Text

-- `levels.length > 0`
abbrev pub selects : List Text → Bool
selects [] = false
selects (_ ∷ _) = true

unfoldable pub filters_active : LogFilters → Bool
filters_active f =
    not (is_empty (trim f.service))
    || selects f.levels
    || not (is_empty (trim f.label))
    || not (is_empty (trim f.text))

-- `String.prototype.includes`
unfoldable pub includes : Text → Text → Bool
includes s part = not (is_none (index_of s part))

-- `Array.prototype.includes`
unfoldable pub has_level : Text → List Text → Bool
has_level level [] = false
has_level level (l ∷ ls) = (l === level) || has_level level ls

module _ (lower : Text → Text) where
  -- The first loop of `matchesLabel`, over the entries of the labels.
  unfoldable pub some_pair : Text → Text → List (Text × Text) → Bool
  some_pair key val [] = false
  some_pair key val ((k, v) ∷ labels) =
      if (lower k === key) && includes (lower v) val then true else some_pair key val labels

  unfoldable pub some_part : Text → List (Text × Text) → Bool
  some_part q [] = false
  some_part q ((k, v) ∷ labels) =
      if includes (lower k) q || includes (lower v) q then true else some_part q labels

  unfoldable pub matches_query : Text → List (Text × Text) → Bool
  matches_query q labels = if is_empty q then true else elim (index_of q (61 ∷ [])) [
    | some eq ↦ some_pair (trim (take eq q)) (trim (drop (eq + 1) q)) labels
    | none ↦ some_part q labels
  ]

  unfoldable pub matches_label : List (Text × Text) → Text → Bool
  matches_label labels query = matches_query (lower (trim query)) labels

  unfoldable pub matches_filters : TailLogEvent → LogFilters → Bool
  matches_filters ev f =
      let service = lower (trim f.service) in
      let text = lower (trim f.text) in
      if selects f.levels && not (has_level ev.level f.levels)
      then false
      else if not (is_empty service) && not (includes (lower ev.service) service)
      then false
      else if not (is_empty text) && not (includes (lower ev.message) text)
      then false
      else if not (matches_label ev.labels f.label)
      then false
      else true
