-- ===== src/LogSearch/Pages/History.antt =====
-- Every step of a history keeps what the search shows faithful.
use logalot.Base.{
  refl, none, some, false, [], ◌∷◌, Text, List, ℕ, Option, ◌≡◌, inl, inr, arith, All, find_where,
  delete_where, if_both, if_cases, ◌+◌, sym, ◌==◌, Option-cases, find_where_sound,
}
use mathlib.Core.Path.{subst}
use logalot.LogSearch.Query.{SearchFilters}
use logalot.LogSearch.{
  Search, SearchOutcome, Call, Server, Event, found, failed, first, further, searches, loads,
  answers, id_of, initial, on_first, on_further, request, load_more, handle_answer, respond,
  outcome_of, step, run_all,
}
use logalot.LogSearch.Pages.{
  Shows, untouched, pages, Current, IsFaithful, All-append_one, All-delete, All-found,
  initial-IsFaithful, run-IsFaithful, answer-Shows,
}

respond-Shows :
    (server : Server) (max : ℕ) (call : Call) (failure : Option Text) (s : Search)
    → Shows server max s
    → Current s call
    → Shows server max (respond max call (outcome_of server call failure) s)
unfolding respond
respond-Shows server max call failure s h (old, fits) =
    if_cases (Shows server max) (id_of call == s.req_id)
      (handle_answer max call (outcome_of server call failure) s) s
      (λ now. answer-Shows server max call failure s h (fits (ground (arith, now)))) (λ late. h)

handle_answer-same_id :
    (max : ℕ) (call : Call) (out : SearchOutcome) (s : Search)
    → (handle_answer max call out s).req_id ≡ s.req_id
unfolding on_first on_further
handle_answer-same_id max (first id f) (found page next) s = refl
handle_answer-same_id max (first id f) (failed m) s = refl
handle_answer-same_id max (further id f c) (found page next) s = refl
handle_answer-same_id max (further id f c) (failed m) s = refl

respond-same_calls :
    (max : ℕ) (call : Call) (out : SearchOutcome) (s : Search)
    → (respond max call out s).calls ≡ s.calls
unfolding respond on_first on_further
respond-same_calls max (first id f) (found page next) s = ground arith
respond-same_calls max (first id f) (failed m) s = ground arith
respond-same_calls max (further id f c) (found page next) s = ground arith
respond-same_calls max (further id f c) (failed m) s = ground arith

-- What an answer leaves of another call: it is as current as it was, or the answer was the last's.
respond-Current :
    (max : ℕ) (call other : Call) (out : SearchOutcome) (s : Search)
    → (id_of other == id_of call) ≡ false
    → Current s other
    → Current (respond max call out s) other
unfolding respond
respond-Current max call other out s apart (old, fits) =
    let same = handle_answer-same_id max call out s in
    if_cases (λ t. Current t other) (id_of call == s.req_id) (handle_answer max call out s) s
      (λ now. (ground (arith, same, old), λ e. absurd (ground (arith, now, apart, same, e))))
      (λ late. (old, fits))

left_by : ℕ → Search → Search
left_by id s = record s { calls = delete_where (λ c. id_of c == id) s.calls }

left-Shows :
    (server : Server) (max id : ℕ) (s : Search)
    → Shows server max s
    → Shows server max (left_by id s)
unfolding left_by
left-Shows server max id s (untouched p q r) = untouched p q r
left-Shows server max id s (pages f all next p q r w) = pages f all next p q r w

answered-IsFaithful :
    (server : Server) (max id : ℕ) (call : Call) (failure : Option Text) (s : Search)
    → IsFaithful server max s
    → find_where (λ c. id_of c == id) s.calls ≡ some call
    → IsFaithful server max (respond max call (outcome_of server call failure) (left_by id s))
unfolding left_by
answered-IsFaithful server max id call failure s h e =
    let out = outcome_of server call failure in
    let left = left_by id s in
    let after = respond max call out left in
    let known : Current s call =
      All-found (Current s) (λ c. id_of c == id) s.calls call h.current e in
    let of_id : id_of call ≡ id =
      ground (arith, find_where_sound (λ c. id_of c == id) s.calls call e) in
    let others : All (Current after) left.calls =
      All-delete (Current s) (Current after) (λ c. id_of c == id) s.calls h.current
        (λ other apart still.
          respond-Current max call other out left (ground (arith, apart, of_id)) still) in
    record {
      shows = respond-Shows server max call failure left (left-Shows server max id s h.shows) known;
      current = subst (All (Current after)) (sym (respond-same_calls max call out left)) others;
    }

answers-IsFaithful :
    (server : Server) (max id : ℕ) (failure : Option Text) (s : Search)
    → IsFaithful server max s
    → IsFaithful server max (step server max (answers id failure) s)
unfolding step left_by
answers-IsFaithful server max id failure s h =
    elim (Option-cases (find_where (λ c. id_of c == id) s.calls)) [
      | inl n ↦ rw (step, n) h
      | inr (call, e) ↦ rw (step, e) (answered-IsFaithful server max id call failure s h e)
    ]

requests-IsFaithful :
    (server : Server) (max : ℕ) (asked : Option SearchFilters) (cursor : Option Text) (s : Search)
    → s.last_filters ≡ asked
    → s.cursor ≡ cursor
    → IsFaithful server max s
    → IsFaithful server max (request asked cursor s)
requests-IsFaithful server max none cursor s p q h = h
requests-IsFaithful server max (some f) none s p q h = h
requests-IsFaithful server max (some f) (some []) s p q h = h
requests-IsFaithful server max (some f) (some (c ∷ cs)) s p q h = record {
  shows = request-Shows h.shows;
  current =
      All-append_one (Current s) (Current (request (some f) (some (c ∷ cs)) s)) s.calls
        (further (s.req_id + 1) f (c ∷ cs)) h.current
        (λ x c. (omega (arith, c.0), λ e. absurd (omega (arith, e, c.0))))
        (omega arith, λ e. (p, q));
}
  where
    request-Shows : Shows server max s → Shows server max (request (some f) (some (c ∷ cs)) s)
    request-Shows (untouched a b d) = untouched a b d
    request-Shows (pages g all next a b d w) = pages g all next a b d w

step-IsFaithful :
    (server : Server) (max : ℕ) (e : Event) (s : Search)
    → IsFaithful server max s
    → IsFaithful server max (step server max e s)
unfolding step load_more
step-IsFaithful server max (searches f) s h = run-IsFaithful server max f s h
step-IsFaithful server max loads s h =
    if_both (IsFaithful server max) s.in_flight s (request s.last_filters s.cursor s) h
      (requests-IsFaithful server max s.last_filters s.cursor s refl refl h)
step-IsFaithful server max (answers id failure) s h = answers-IsFaithful server max id failure s h

run_all-IsFaithful :
    (server : Server) (max : ℕ) (es : List Event) (s : Search)
    → IsFaithful server max s
    → IsFaithful server max (run_all server max es s)
unfolding run_all
run_all-IsFaithful server max [] s h = h
run_all-IsFaithful server max (e ∷ es) s h =
    run_all-IsFaithful server max es (step server max e s) (step-IsFaithful server max e s h)

-- Whatever the user asks for, and in whatever order the calls under way are answered or fail, what is
-- shown is the first `max` events of consecutive pages of the last query: no page of another query, none
-- twice and none left out; and the cursor is that of the next page.
pub run_all-Shows :
    (server : Server) (max : ℕ) (es : List Event) → Shows server max (run_all server max es initial)
run_all-Shows server max es =
    (run_all-IsFaithful server max es initial (initial-IsFaithful server max)).shows
