-- ===== src/LogSearch/Query.antt =====
-- apps/web/src/features/log-search/search-query.ts: the filters of a search, and the query string that
-- they become. `toISOString` of a parsed date is an argument; a query string is the list of its pairs.
use logalot.Base.{
  none, some, true, false, [], ◌∷◌, ◌++◌, if◌then◌else◌, Text, List, Option, Bool, ◌||◌, not, codes,
  is_empty, ◌≡◌, refl, arith, inl, inr, ◌&&◌, Option-cases,
}
use logalot.Domain.Email.{trim}

pub record SearchFilters : Type 0 where
  pub text : Text
  pub service : Text
  pub level : Text
  pub labels : List Text
  pub from : Text
  pub to : Text

abbrev pub is_filled : Text → Bool
is_filled s = not (is_empty (trim s))

unfoldable pub some_filled : List Text → Bool
some_filled [] = false
some_filled (l ∷ ls) = is_filled l || some_filled ls

-- A level is the empty text where there is none.
unfoldable pub search_filters_active : SearchFilters → Bool
search_filters_active f =
    is_filled f.text
    || is_filled f.service
    || not (is_empty f.level)
    || is_filled f.from
    || is_filled f.to
    || some_filled f.labels

-- An unparseable value passes through.
unfoldable pub to_rfc3339 : (Text → Option Text) → Text → Text
to_rfc3339 iso value =
    let v = trim value in if is_empty v then [] else elim (iso v) [ none ↦ v | some s ↦ s ]

abbrev pub set : Text → Text → List (Text × Text)
set key value = if is_empty value then [] else (key, value) ∷ []

unfoldable pub label_params : List Text → List (Text × Text)
label_params [] = []
label_params (l ∷ ls) = set (codes "label") (trim l) ++ label_params ls

abbrev pub limit_param : Option Text → List (Text × Text)
limit_param none = []
limit_param (some n) = (codes "limit", n) ∷ []

abbrev pub cursor_param : Option Text → List (Text × Text)
cursor_param none = []
cursor_param (some c) = set (codes "cursor") c

-- The limit is given as its digits.
unfoldable pub build_search_params :
    (Text → Option Text) → SearchFilters → Option Text → Option Text → List (Text × Text)
build_search_params iso f cursor limit =
    set (codes "q") (trim f.text)
    ++ (set (codes "service") (trim f.service)
        ++ (set (codes "level") f.level
            ++ (set (codes "from") (to_rfc3339 iso f.from)
                ++ (set (codes "to") (to_rfc3339 iso f.to)
                    ++ (label_params f.labels ++ (limit_param limit ++ cursor_param cursor))))))

pub record SearchQueryState : Type 0 where
  pub q : Text
  pub service : Text
  pub level : Option Text
  pub labels : List Text
  pub from : Text
  pub to : Text

abbrev pub level_text : Option Text → Text
level_text none = []
level_text (some level) = level

unfoldable pub filters_from_query : SearchQueryState → SearchFilters
filters_from_query s = record {
  text = s.q;
  service = s.service;
  level = level_text s.level;
  labels = s.labels;
  from = s.from;
  to = s.to;
}

unfoldable pub query_from_filters : SearchFilters → SearchQueryState
query_from_filters f = record {
  q = f.text;
  service = f.service;
  level = if is_empty f.level then none else some f.level;
  labels = f.labels;
  from = f.from;
  to = f.to;
}

level_back : (level : Text) → level_text (if is_empty level then none else some level) ≡ level
level_back [] = refl
level_back (c ∷ cs) = refl

-- The filters survive the way through the address bar.
pub filters_from_query-query_from_filters :
    (f : SearchFilters) → filters_from_query (query_from_filters f) ≡ f
unfolding filters_from_query query_from_filters
filters_from_query-query_from_filters f = λ i. record f { level = level_back f.level i }

abbrev pub is_bare : List (Text × Text) → Bool
is_bare [] = true
is_bare (_ ∷ _) = false

is_bare-append : (ps qs : List (Text × Text)) → is_bare (ps ++ qs) ≡ is_bare ps && is_bare qs
is_bare-append [] qs = refl
is_bare-append (p ∷ ps) qs = refl

is_bare-set : (key value : Text) → is_bare (set key value) ≡ is_empty value
is_bare-set key [] = refl
is_bare-set key (c ∷ cs) = refl

label_params-some_filled : (ls : List Text) → is_bare (label_params ls) ≡ not (some_filled ls)
unfolding label_params some_filled
label_params-some_filled [] = refl
label_params-some_filled (l ∷ ls) = ground (
  arith,
  label_params-some_filled ls,
  is_bare-append (set (codes "label") (trim l)) (label_params ls),
  is_bare-set (codes "label") (trim l),
)

module _ (iso : Text → Option Text)
    (printed : (v s : Text) → iso v ≡ some s → is_empty s ≡ false) where
  to_rfc3339-is_filled : (v : Text) → is_empty (to_rfc3339 iso v) ≡ not (is_filled v)
  unfolding to_rfc3339
  to_rfc3339-is_filled v = elim (Option-cases (iso (trim v))) [
    | inl n ↦ ground (arith, n)
    | inr (s, e) ↦ ground (arith, e, printed (trim v) s e)
  ]

  -- A search is shown as filtered exactly if its query string has a parameter besides the page's, as
  -- long as no date is printed as the empty text.
  pub build_search_params-is_bare :
      (f : SearchFilters)
      → is_bare (build_search_params iso f none none) ≡ not (search_filters_active f)
  unfolding build_search_params search_filters_active
  build_search_params-is_bare f = ground (
    arith,
    to_rfc3339-is_filled f.from,
    to_rfc3339-is_filled f.to,
    label_params-some_filled f.labels,
  )
