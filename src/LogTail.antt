-- ===== src/LogTail.antt =====
-- apps/web/src/features/log-explorer/use-log-tail.ts and tail-event.ts: the state machine of the live
-- tail. A callback of an EventSource, a timer or a button is one step. The state holds the hook's refs
-- and React state, and what the browser keeps for it: the EventSources that are not closed, and the
-- timeouts that are pending. JSON.parse with the zod schemas is a parameter.
pub mod Events
pub mod Ring
pub mod Order
pub mod Wires
pub mod Offline
pub mod Gaps
mod Tests
use logalot.Base.{
  [], none, some, true, false, if◌then◌else◌, Text, List, ℕ, Option, Bool, ◌∷◌, ◌++◌, ◌+◌, ◌-◌,
  ◌==◌, not, ltb, leb, length, drop, delete_where, is_none, zero, suc,
}

pub record TailLogEvent : Type 0 where
  pub tenant_id : Text
  pub ts : Text
  pub id : Option Text
  pub service : Text
  pub level : Text
  pub message : Text
  pub labels : List (Text × Text)
  pub trace_id : Option Text
  pub span_id : Option Text

-- JSON.parse and then the schema of a frame; `none` where one of them throws.
pub record Schemas : Type 0 where
  pub log_event : Text → Option TailLogEvent
  pub gap_frame : Text → Option ℕ

abbrev pub parse_log_frame : Schemas → Text → Option TailLogEvent
parse_log_frame schemas data' = schemas.log_event data'

abbrev pub parse_gap_frame : Schemas → Text → ℕ
parse_gap_frame schemas data' = elim (schemas.gap_frame data') [ none ↦ 0 | some n ↦ n ]

pub data TailStatus : Type 0 where
  connecting streaming reconnecting paused offline : TailStatus

pub data GapReason : Type 0 where
  dropped reconnect : GapReason

pub data TailItem : Type 0 where
  log : ℕ → TailLogEvent → TailItem
  gap : ℕ → GapReason → ℕ → TailItem

pub record Stats : Type 0 where
  pub received : ℕ
  pub dropped : ℕ
  pub reconnects : ℕ

pub record Config : Type 0 where
  pub max_items : ℕ
  pub backoff_ms : List ℕ
  pub max_reconnect_attempts : ℕ

-- An EventSource and a timeout are known by a handle. `timeout` is `reconnectTimerRef`, which keeps the
-- handle of a timeout that has fired; `flushing` is whether `flushTimerRef` is set; `exhausted` counts
-- the calls of `onReconnectExhausted`.
pub record Tail : Type 0 where
  pub items : List TailItem
  pub status : TailStatus
  pub paused : Bool
  pub stats : Stats
  pub source : Option ℕ
  pub timeout : Option ℕ
  pub flushing : Bool
  pub attempt : ℕ
  pub stopped : Bool
  pub saw_open : Bool
  pub want_gap_on_open : Bool
  pub seq : ℕ
  pub pending : List TailItem
  pub counts : Stats
  pub opened : List ℕ
  pub timeouts : List (ℕ × ℕ)
  pub next_handle : ℕ
  pub exhausted : ℕ

abbrev pub push_item : (ℕ → TailItem) → Tail → Tail
push_item item t = record t { pending = t.pending ++ item t.seq ∷ []; seq = t.seq + 1 }

-- `merged.length > max ? merged.slice(merged.length - max) : merged`
unfoldable pub last : ℕ → List TailItem → List TailItem
last max merged = if ltb max (length merged) then drop (length merged - max) merged else merged

-- With nothing pending the items stay as they are.
abbrev pub committed : ℕ → List TailItem → List TailItem → List TailItem
committed max items [] = items
committed max items (i ∷ pending) = last max (items ++ i ∷ pending)

unfoldable pub flush : Config → Tail → Tail
flush c t = record t {
  items = committed c.max_items t.items t.pending;
  pending = [];
  stats = t.counts;
}

abbrev pub close_source : Tail → Tail
close_source t = elim t.source [
  | none ↦ t
  | some s ↦ record t { source = none; opened = delete_where (λ o. o == s) t.opened }
]

unfoldable pub connect : Tail → Tail
connect t = if t.stopped then t else record t {
  source = some t.next_handle;
  opened = t.opened ++ t.next_handle ∷ [];
  next_handle = t.next_handle + 1;
}

abbrev pub mark_gap : Tail → Tail
mark_gap t = record (push_item (λ seq. gap seq GapReason.reconnect 0) t) {
  counts = record t.counts { reconnects = t.counts.reconnects + 1 };
  want_gap_on_open = false;
}

unfoldable pub on_open : Tail → Tail
on_open t =
    let t' = if t.want_gap_on_open then mark_gap t else t in
    record t' { attempt = 0; saw_open = true; status = TailStatus.streaming }

abbrev pub show_log : TailLogEvent → Tail → Tail
show_log event t = record (push_item (λ seq. log seq event) t) {
  counts = record t.counts { received = t.counts.received + 1 };
}

unfoldable pub on_message : Schemas → Text → Tail → Tail
on_message schemas data' t = elim (parse_log_frame schemas data') [
  | none ↦ t
  | some event ↦ show_log event t
]

unfoldable pub on_gap : Schemas → Text → Tail → Tail
on_gap schemas data' t =
    let missed = parse_gap_frame schemas data' in
    record (push_item (λ seq. gap seq GapReason.dropped missed) t) {
      counts = record t.counts { dropped = t.counts.dropped + missed };
    }

-- `backoff[min(attempt, backoff.length - 1)] ?? backoff[backoff.length - 1] ?? 1000`
abbrev pub delay_of : ℕ → List ℕ → ℕ
delay_of attempt [] = 1000
delay_of attempt (d ∷ []) = d
delay_of zero (d ∷ e ∷ ds) = d
delay_of (suc attempt) (d ∷ e ∷ ds) = delay_of attempt (e ∷ ds)

abbrev pub give_up : Tail → Tail
give_up t = record t { status = TailStatus.offline; exhausted = t.exhausted + 1 }

abbrev pub schedule : Config → Tail → Tail
schedule c t = record t {
  status = TailStatus.reconnecting;
  attempt = t.attempt + 1;
  timeout = some t.next_handle;
  timeouts = t.timeouts ++ (t.next_handle, delay_of t.attempt c.backoff_ms) ∷ [];
  next_handle = t.next_handle + 1;
}

unfoldable pub on_error : Config → Tail → Tail
on_error c t =
    if t.stopped
    then t
    else let t' = record (close_source t) { want_gap_on_open = true } in
      if leb c.max_reconnect_attempts t.attempt then give_up t' else schedule c t'

-- `clearTimeout(reconnectTimerRef.current)`
abbrev pub cancel_timeout : Tail → Tail
cancel_timeout t = elim t.timeout [
  | none ↦ t
  | some h ↦ record t { timeout = none; timeouts = delete_where (λ p. p.0 == h) t.timeouts }
]

-- The stream and its timers are torn down, and what is buffered is committed.
unfoldable pub halt : Tail → Tail
halt t = close_source (record (cancel_timeout (record t { stopped = true })) { flushing = false })

unfoldable pub stop : Config → Tail → Tail
stop c t = flush c (halt t)

-- The effect, where the tail is not paused.
unfoldable pub start : Tail → Tail
start t = connect (record t {
  stopped = false;
  attempt = 0;
  want_gap_on_open = if t.saw_open then true else t.want_gap_on_open;
  status = if t.saw_open then TailStatus.reconnecting else TailStatus.connecting;
  flushing = true;
})

abbrev pub no_stats : Stats
no_stats = record { received = 0; dropped = 0; reconnects = 0 }

-- The hook's state before its first effect.
abbrev pub initial : Tail
initial = record {
  items = [];
  status = TailStatus.connecting;
  paused = false;
  stats = no_stats;
  source = none;
  timeout = none;
  flushing = false;
  attempt = 0;
  stopped = false;
  saw_open = false;
  want_gap_on_open = false;
  seq = 0;
  pending = [];
  counts = no_stats;
  opened = [];
  timeouts = [];
  next_handle = 0;
  exhausted = 0;
}

-- setPaused, the cleanup of the last effect, and the next effect. React runs neither where the flag is
-- what it was.
unfoldable pub pause : Config → Tail → Tail
pause c t = if t.paused then t else record (stop c t) { paused = true; status = TailStatus.paused }

unfoldable pub resume : Tail → Tail
resume t = if t.paused then start (record t { paused = false }) else t

-- The effect runs again where the url changes.
unfoldable pub change_url : Config → Tail → Tail
change_url c t = if t.paused then t else start (stop c t)

unfoldable pub reconnect_now : Tail → Tail
reconnect_now t =
    if t.stopped
    then t
    else connect (record (cancel_timeout t) {
      attempt = 0;
      want_gap_on_open = true;
      flushing = true;
      status = TailStatus.reconnecting;
    })

unfoldable pub clear : Tail → Tail
clear t = record t { pending = []; items = [] }
