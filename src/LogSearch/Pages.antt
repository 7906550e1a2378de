-- ===== src/LogSearch/Pages.antt =====
-- What a search shows, whatever the order in which its calls are answered.
pub mod History
use logalot.Base.{
  refl, none, some, false, [], ◌∷◌, ◌++◌, Text, List, ℕ, Option, Bool, ◌≡◌, ◌⊎◌, inl, inr, arith,
  All, length, take, find_where, delete_where, leb, if_both, if_cases, ◌≤◌, ◌+◌, zero, suc,
  Bool-cases, sym, ◌∙◌, ◌==◌, Option-cases, find_where_sound,
}
use mathlib.Core.Path.{subst}
use logalot.LogTail.{TailLogEvent}
use logalot.LogSearch.Query.{SearchFilters}
use logalot.LogSearch.{
  Search, SearchOutcome, Call, Server, Event, found, failed, first, further, searches, loads,
  answers, id_of, initial, run, show, on_first, on_further, request, load_more, handle_answer,
  respond, outcome_of, step, run_all,
}

-- Consecutive pages of a query, from the first, and the cursor behind them.
pub data Loaded (server : Server) (f : SearchFilters)
    : List TailLogEvent → Option Text → Type 0 where
  nothing : Loaded server f [] none
  opening : Loaded server f (server f none).0 (server f none).1
  another :
      (all : List TailLogEvent) (c : Text)
      → Loaded server f all (some c)
      → Loaded server f (all ++ (server f (some c)).0) (server f (some c)).1

-- Nothing was asked for, or the events are consecutive pages of the last query, cut at the bound, and
-- the cursor, if there is one, is that of the next page.
pub data Shows (server : Server) (max : ℕ) (s : Search) : Type 0 where
  untouched : s.last_filters ≡ none → s.events ≡ [] → s.cursor ≡ none → Shows server max s
  pages :
      (f : SearchFilters) (all : List TailLogEvent) (next : Option Text)
      → s.last_filters ≡ some f
      → Loaded server f all next
      → s.events ≡ take max all
      → (s.cursor ≡ none) ⊎ ((s.cursor ≡ next) × (leb max (length all) ≡ false))
      → Shows server max s

-- The call is for the last query, and for the page that comes next.
abbrev pub Fits : Search → Call → Type 0
Fits s (first id f) = s.last_filters ≡ some f
Fits s (further id f c) = (s.last_filters ≡ some f) × (s.cursor ≡ some c)

abbrev pub Current : Search → Call → Type 0
Current s call = (id_of call ≤ s.req_id) × (id_of call ≡ s.req_id → Fits s call)

pub record IsFaithful (server : Server) (max : ℕ) (s : Search) : Type 0 where
  pub shows : Shows server max s
  pub current : All (Current s) s.calls

module _ {A : Type 0} (P Q : A → Type 0) where
  pub All-append_one :
      (rs : List A) (r : A) → All P rs → ((x : A) → P x → Q x) → Q r → All Q (rs ++ r ∷ [])
  All-append_one [] r h k q = (q, tt)
  All-append_one (x ∷ rs) r h k q = (k x h.0, All-append_one rs r h.1 k q)

  pub All-delete :
      (p : A → Bool) (rs : List A)
      → All P rs
      → ((x : A) → p x ≡ false → P x → Q x)
      → All Q (delete_where p rs)
  unfolding delete_where
  All-delete p [] h k = tt
  All-delete p (x ∷ rs) h k =
      if_cases (All Q) (p x) (delete_where p rs) (x ∷ delete_where p rs)
        (λ yes. All-delete p rs h.1 k) (λ no. (k x no h.0, All-delete p rs h.1 k))

pub All-found :
    {A : Type 0} (P : A → Type 0) (p : A → Bool) (rs : List A) (r : A)
    → All P rs
    → find_where p rs ≡ some r
    → P r
unfolding find_where
All-found P p [] r h e = absurd (cc)
All-found P p (x ∷ rs) r h e = elim (Bool-cases (p x)) [
  | inl passes ↦ let same : x ≡ r = ground (arith, passes, e) in subst P same h.0
  | inr fails ↦ All-found P p rs r h.1 (ground (arith, fails, e))
]

take-none : {A : Type 0} (n : ℕ) → take {A = A} n [] ≡ []
take-none zero = refl
take-none (suc n) = refl

take-short : {A : Type 0} (n : ℕ) (xs : List A) → leb n (length xs) ≡ false → take n xs ≡ xs
take-short zero xs h = absurd (ground (arith, h))
take-short (suc n) [] h = refl
take-short (suc n) (x ∷ xs) h = λ i. x ∷ take-short n xs (ground (arith, h)) i

pub initial-IsFaithful : (server : Server) (max : ℕ) → IsFaithful server max initial
initial-IsFaithful server max = record { shows = untouched refl refl refl; current = tt }

pub run-IsFaithful :
    (server : Server) (max : ℕ) (f : SearchFilters) (s : Search)
    → IsFaithful server max s
    → IsFaithful server max (run f s)
unfolding run
run-IsFaithful server max f s h = record {
  shows = pages f [] none refl nothing (sym (take-none max)) (inl refl);
  current =
      All-append_one (Current s) (Current (run f s)) s.calls (first (s.req_id + 1) f) h.current
        (λ x c. (omega (arith, c.0), λ e. absurd (omega (arith, e, c.0)))) (omega arith, λ e. refl);
}

-- A page that arrives, shown behind those that were there.
show-Shows :
    (server : Server) (max : ℕ) (f : SearchFilters) (all : List TailLogEvent) (next : Option Text)
    (s : Search)
    → s.last_filters ≡ some f
    → Loaded server f all next
    → Shows server max (show max all next s)
show-Shows server max f all next s asked loaded = elim (Bool-cases (leb max (length all))) [
  | inl full ↦ pages f all next asked loaded (ground (arith, full)) (inl (ground (arith, full)))
  | inr more ↦
      pages f all next asked loaded (ground (arith, more, take-short max all more))
        (inr (ground (arith, more), more))
]

next_page :
    (server : Server) (max : ℕ) (f : SearchFilters) (c : Text) (s : Search)
    → Shows server max s
    → s.last_filters ≡ some f
    → s.cursor ≡ some c
    → Loaded server f s.events (some c)
next_page server max f c s (untouched asked none_yet no_cursor) is at = absurd (ground arith)
next_page server max f c s (pages g all next asked loaded shown (inl no_cursor)) is at =
    absurd (ground arith)
next_page server max f c s (pages g all next asked loaded shown (inr (behind, short))) is at =
    let same_filters : g ≡ f = ground (arith, asked, is) in
    let same_cursor : next ≡ some c = ground (arith, behind, at) in
    let same_events : all ≡ s.events = sym (shown ∙ take-short max all short) in
    subst (λ (g' : SearchFilters). Loaded server g' s.events (some c)) same_filters
      (subst (λ (next' : Option Text). Loaded server g s.events next') same_cursor
        (subst (λ (es : List TailLogEvent). Loaded server g es next) same_events loaded))

pub answer-Shows :
    (server : Server) (max : ℕ) (call : Call) (failure : Option Text) (s : Search)
    → Shows server max s
    → Fits s call
    → Shows server max (handle_answer max call (outcome_of server call failure) s)
unfolding on_first on_further
answer-Shows server max (first id f) none s h asked =
    show-Shows server max f (server f none).0 (server f none).1 s asked opening
answer-Shows server max (first id f) (some m) s h asked =
    pages f [] none asked nothing (sym (take-none max)) (inl refl)
answer-Shows server max (further id f c) none s h (asked, at) =
    show-Shows server max f (s.events ++ (server f (some c)).0) (server f (some c)).1 s asked
      (another s.events c (next_page server max f c s h asked at))
answer-Shows server max (further id f c) (some m) s (untouched p q r) fits = untouched p q r
answer-Shows server max (further id f c) (some m) s (pages g all next p q r w) fits =
    pages g all next p q r w
