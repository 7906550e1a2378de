-- ===== src/LogSearch/Tests.antt =====
-- Two queries in a row, with the answer to a further page of the first after the second was asked.
use logalot.Base.{none, some, false, [], ◌∷◌, codes, Text, List, is_empty, ◌≡◌, refl, not, Option}
use logalot.LogTail.{TailLogEvent}
use logalot.LogSearch.{Server, Event, searches, loads, answers, run_all, initial}
use logalot.LogSearch.Pages.{Shows}
use logalot.LogSearch.Pages.History.{run_all-Shows}
use logalot.LogSearch.Query.{
  SearchFilters, build_search_params, build_search_params-is_bare, is_bare, search_filters_active,
}

abbrev entry : Text → TailLogEvent
entry s = record {
  tenant_id = codes "t1";
  ts = codes "2026-01-01T00:00:00Z";
  id = none;
  service = codes "api";
  level = codes "info";
  message = s;
  labels = [];
  trace_id = none;
  span_id = none;
}

abbrev asking : Text → SearchFilters
asking text = record { text = text; service = []; level = []; labels = []; from = []; to = [] }

-- A query has two pages of one event each.
abbrev server : Server
server f none = (entry f.text ∷ [], some (codes "p2"))
server f (some c) = (entry c ∷ [], none)

abbrev story : List Event
story =
    searches (asking (codes "a"))
    ∷ answers 1 none
    ∷ loads
    ∷ searches (asking (codes "b"))
    ∷ answers 2 none
    ∷ answers 3 none
    ∷ loads
    ∷ answers 4 (some (codes "timeout"))
    ∷ []

run_all-Shows_example : Shows server 10 (run_all server 10 story initial)
run_all-Shows_example = run_all-Shows server 10 story

abbrev iso : Text → Option Text
iso [] = none
iso (c ∷ cs) = some (c ∷ cs)

iso_printed : (v s : Text) → iso v ≡ some s → is_empty s ≡ false
iso_printed [] s e = absurd (cc)
iso_printed (c ∷ cs) [] e = absurd (cc)
iso_printed (c ∷ cs) (d ∷ ds) e = refl

build_search_params-is_bare_example :
    is_bare (build_search_params iso (asking (codes " x ")) none none)
    ≡ not (search_filters_active (asking (codes " x ")))
build_search_params-is_bare_example =
    build_search_params-is_bare iso iso_printed (asking (codes " x "))
