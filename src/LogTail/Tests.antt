-- ===== src/LogTail/Tests.antt =====
-- A tail that streams, loses its connection, and comes back.
use logalot.LogTail.Offline.History.{Outage-ends}
use logalot.LogTail.Wires.History.{run-IsWired}
use logalot.LogTail.Offline.{Outage, IsTrying, errors}
use logalot.LogTail.Wires.{IsWired, live}
use logalot.LogTail.Ring.{feed_of, tick-shows-feed}
use logalot.Base.{
  refl, none, some, true, false, [], Text, length, ◌∷◌, List, count_where, ◌≡◌, ℕ, arith, codes,
  delete_where, ◌≤◌, ◌+◌, ◌++◌,
}
use logalot.LogTail.{
  Schemas, Config, Tail, TailLogEvent, TailStatus, gap, GapReason, last, connect, on_open,
  on_message, on_error, start, no_stats,
}
use logalot.LogTail.Events.{Event, opens, message, errs, fires, ticks, step, mount, run, is_opened}
use logalot.LogTail.Order.{IsNumbered, shown_consecutive}
use logalot.LogTail.Gaps.{is_same, last_opened, reopened_is_marked}

abbrev log_of : Text → TailLogEvent
log_of s = record {
  tenant_id = codes "t1";
  ts = codes "now";
  id = none;
  service = codes "api";
  level = codes "info";
  message = s;
  labels = [];
  trace_id = none;
  span_id = none;
}

abbrev schemas : Schemas
schemas = record { log_event = λ s. some (log_of s); gap_frame = λ s. some (length s) }

abbrev config : Config
config = record { max_items = 2; backoff_ms = 500 ∷ 1000 ∷ []; max_reconnect_attempts = 1 }

-- The second connection is known by the handle after that of the timeout.
abbrev events : List Event
events = opens 0 ∷ message 0 (codes "a") ∷ message 0 (codes "b") ∷ errs 0 ∷ fires 1 ∷ []

flushes : (run schemas config events mount).flushing ≡ true
unfolding run step mount start connect on_open on_message on_error count_where delete_where
flushes = refl

tick-shows-feed_example :
    ((step schemas config ticks (run schemas config events mount)).pending ≡ [])
    × ((step schemas config ticks (run schemas config events mount)).items
        ≡ last 2 (feed_of schemas config events mount []))
    × (length (step schemas config ticks (run schemas config events mount)).items ≤ 2)
tick-shows-feed_example = tick-shows-feed schemas config events flushes

shown_consecutive_example :
    (k m : ℕ) × IsNumbered k (run schemas config events mount).items m
    × (m + length (run schemas config events mount).pending ≡ (run schemas config events mount).seq)
shown_consecutive_example = shown_consecutive schemas config events

run-IsWired_example : IsWired (run schemas config events mount)
run-IsWired_example = run-IsWired schemas config events (tt, (tt, (tt, (tt, (tt, tt)))))

saw_open : (run schemas config events mount).saw_open ≡ true
unfolding run step mount start connect on_open on_message on_error count_where delete_where
saw_open = refl

reopens : is_opened 2 (run schemas config events mount) ≡ true
unfolding run step mount start connect on_open on_message on_error count_where delete_where
reopens = refl

another : is_same (some 2) (last_opened schemas config events mount none) ≡ false
unfolding step mount start connect on_open on_message on_error count_where delete_where
another = refl

reopened_is_marked_example :
    (step schemas config (opens 2) (run schemas config events mount)).pending
    ≡ (run schemas config events mount).pending
      ++ gap (run schemas config events mount).seq GapReason.reconnect 0 ∷ []
reopened_is_marked_example =
    reopened_is_marked schemas config events 2 (tt, (tt, (tt, (tt, (tt, tt))))) saw_open reopens
      another

abbrev trying_tail : Tail
trying_tail = record {
  items = [];
  status = TailStatus.streaming;
  paused = false;
  stats = no_stats;
  source = some 4;
  timeout = none;
  flushing = true;
  attempt = 0;
  stopped = false;
  saw_open = true;
  want_gap_on_open = false;
  seq = 0;
  pending = [];
  counts = no_stats;
  opened = 4 ∷ [];
  timeouts = [];
  next_handle = 5;
  exhausted = 0;
}

trying_tail-IsTrying : IsTrying trying_tail
trying_tail-IsTrying = record { wired = live 4 refl refl refl refl refl refl; one = refl }

abbrev failures : List Event
failures = errs 4 ∷ fires 5 ∷ errs 6 ∷ []

Outage-ends_example :
    Outage config trying_tail
      (errors schemas config failures trying_tail)
      (run schemas config failures trying_tail)
Outage-ends_example =
    Outage-ends schemas config failures trying_tail trying_tail-IsTrying (omega arith)
      (refl, (refl, (refl, tt)))
