-- ===== src/LogSearch.antt =====
-- apps/web/src/features/log-search/use-log-search.ts: the pages of a historical search, as a state
-- machine over the state and the refs of `useLogSearch`. The bound on the results, MAX_SEARCH_RESULTS,
-- is an argument.
pub mod Query
pub mod Pages
mod Tests
use logalot.Base.{
  none, some, true, false, [], ◌∷◌, ◌++◌, if◌then◌else◌, Text, List, ℕ, Option, Bool, leb, length,
  take, find_where, delete_where, ◌+◌, ◌==◌,
}
use logalot.LogTail.{TailLogEvent}
use logalot.LogSearch.Query.{SearchFilters}

pub data SearchStatus : Type 0 where
  idle loading success loading_more error : SearchStatus

pub data SearchOutcome : Type 0 where
  found : List TailLogEvent → Option Text → SearchOutcome
  failed : Text → SearchOutcome

-- A call of `search` that is under way, with its id: the first page of a query, or a further one.
pub data Call : Type 0 where
  first : ℕ → SearchFilters → Call
  further : ℕ → SearchFilters → Text → Call

abbrev pub id_of : Call → ℕ
id_of (first id f) = id
id_of (further id f cursor) = id

-- `State`, the refs, and the calls that are not answered yet.
pub record Search : Type 0 where
  pub status : SearchStatus
  pub events : List TailLogEvent
  pub next_cursor : Option Text
  pub error : Option Text
  pub has_searched : Bool
  pub capped : Bool
  pub req_id : ℕ
  pub last_filters : Option SearchFilters
  pub cursor : Option Text
  pub in_flight : Bool
  pub calls : List Call

abbrev pub initial : Search
initial = record {
  status = SearchStatus.idle;
  events = [];
  next_cursor = none;
  error = none;
  has_searched = false;
  capped = false;
  req_id = 0;
  last_filters = none;
  cursor = none;
  in_flight = false;
  calls = [];
}

unfoldable pub run : SearchFilters → Search → Search
run filters s = record s {
  req_id = s.req_id + 1;
  last_filters = some filters;
  cursor = none;
  in_flight = true;
  status = SearchStatus.loading;
  events = [];
  next_cursor = none;
  error = none;
  has_searched = false;
  capped = false;
  calls = s.calls ++ first (s.req_id + 1) filters ∷ [];
}

-- The results, cut at the bound: the last page is reached then.
abbrev pub show : ℕ → List TailLogEvent → Option Text → Search → Search
show max combined next s =
    let full = leb max (length combined) in
    let cursor = if full then none else next in
    record s {
      in_flight = false;
      cursor = cursor;
      status = SearchStatus.success;
      events = if full then take max combined else combined;
      next_cursor = cursor;
      error = none;
      has_searched = true;
      capped = full;
    }

unfoldable pub on_first : ℕ → SearchOutcome → Search → Search
on_first max (found page next) s = show max page next s
on_first max (failed message) s = record s {
  in_flight = false;
  cursor = none;
  status = SearchStatus.error;
  events = [];
  next_cursor = none;
  error = some message;
  has_searched = true;
  capped = false;
}

unfoldable pub on_further : ℕ → SearchOutcome → Search → Search
on_further max (found page next) s = show max (s.events ++ page) next s
on_further max (failed message) s = record s {
  in_flight = false;
  status = SearchStatus.success;
  error = some message;
}

-- `!filters || !cursor`: an empty cursor is none.
abbrev pub request : Option SearchFilters → Option Text → Search → Search
request (some filters) (some (c ∷ cs)) s = record s {
  req_id = s.req_id + 1;
  in_flight = true;
  status = SearchStatus.loading_more;
  error = none;
  calls = s.calls ++ further (s.req_id + 1) filters (c ∷ cs) ∷ [];
}
request (some filters) (some []) s = s
request (some filters) none s = s
request none cursor s = s

unfoldable pub load_more : Search → Search
load_more s = if s.in_flight then s else request s.last_filters s.cursor s

abbrev pub handle_answer : ℕ → Call → SearchOutcome → Search → Search
handle_answer max (first id filters) out s = on_first max out s
handle_answer max (further id filters cursor) out s = on_further max out s

-- `if (id !== reqId.current) return`
unfoldable pub respond : ℕ → Call → SearchOutcome → Search → Search
respond max call out s = if id_of call == s.req_id then handle_answer max call out s else s

-- The query-service: a page of a query's results, and the cursor of the next.
abbrev pub Server : Type 0
Server = SearchFilters → Option Text → List TailLogEvent × Option Text

-- A call is answered with the page that it asks for, or fails with a message.
abbrev pub outcome_of : Server → Call → Option Text → SearchOutcome
outcome_of server call (some message) = failed message
outcome_of server (first id f) none = found (server f none).0 (server f none).1
outcome_of server (further id f c) none = found (server f (some c)).0 (server f (some c)).1

-- What happens: the user searches or asks for more, or the call with an id is answered.
pub data Event : Type 0 where
  searches : SearchFilters → Event
  loads : Event
  answers : ℕ → Option Text → Event

unfoldable pub step : Server → ℕ → Event → Search → Search
step server max (searches filters) s = run filters s
step server max loads s = load_more s
step server max (answers id failure) s = elim (find_where (λ c. id_of c == id) s.calls) [
  | none ↦ s
  | some call ↦
      respond max call (outcome_of server call failure)
        (record s { calls = delete_where (λ c. id_of c == id) s.calls })
]

unfoldable pub run_all : Server → ℕ → List Event → Search → Search
run_all server max [] s = s
run_all server max (e ∷ es) s = run_all server max es (step server max e s)
