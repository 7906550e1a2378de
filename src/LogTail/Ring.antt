-- ===== src/LogTail/Ring.antt =====
-- What the tail shows, against its specification: the last of everything that was pushed.
pub mod Last
use logalot.LogTail.Ring.Last.{committed-last, last_all, length-last}
use logalot.Base.{
  refl, none, some, [], if◌then◌else◌, zero, suc, ℕ, List, length, ◌≤◌, ◌++◌, ◌&&◌, ◌∷◌, ◌≡◌, drop,
  arith, length-append, length-drop, inl, inr, ◌-◌, ◌∙◌, Bool-cases, ltb, ap, sym, leb, Text, true,
  if_both,
}
use mathlib.Core.List.{append-nil, append_assoc}
use logalot.LogTail.{
  Schemas, Config, Tail, TailItem, GapReason, log, gap, last, flush, connect, on_open, on_message,
  on_gap, on_error, stop, start, pause, resume, change_url, reconnect_now, clear, parse_log_frame,
  parse_gap_frame, committed, halt, TailStatus,
}
use logalot.LogTail.Events.{
  Event, opens, message, misses, errs, fires, ticks, pauses, resumes, moves, reconnects, clears,
  step, mount, run, is_opened,
}

-- What an event adds to the stream that the tail shows.
abbrev pub added : Schemas → Event → Tail → List TailItem
added schemas (opens s) t =
    if is_opened s t && t.want_gap_on_open then gap t.seq GapReason.reconnect 0 ∷ [] else []
added schemas (message s data') t = elim (parse_log_frame schemas data') [
  | none ↦ []
  | some event ↦ if is_opened s t then log t.seq event ∷ [] else []
]
added schemas (misses s data') t =
    if is_opened s t then gap t.seq GapReason.dropped (parse_gap_frame schemas data') ∷ [] else []
added schemas _ t = []

-- The stream since the scrollback was cleared last.
abbrev pub extend : Schemas → Event → Tail → List TailItem → List TailItem
extend schemas clears t feed = []
extend schemas e t feed = feed ++ added schemas e t

unfoldable pub feed_of : Schemas → Config → List Event → Tail → List TailItem → List TailItem
feed_of schemas c [] t feed = feed
feed_of schemas c (e ∷ es) t feed =
    feed_of schemas c es (step schemas c e t) (extend schemas e t feed)

-- A tail shows a feed: what is committed is the last of a part of it, and the rest is pending.
pub record Shows (c : Config) (t : Tail) (feed : List TailItem) : Type 0 where
  pub settled : List TailItem
  pub split : feed ≡ settled ++ t.pending
  pub shown : t.items ≡ last c.max_items settled

flush-shown :
    (c : Config) (t : Tail) (feed : List TailItem)
    → Shows c t feed
    → (flush c t).items ≡ last c.max_items feed
unfolding flush
flush-shown c t feed h = rw (h.shown, h.split) (committed-last c.max_items h.settled t.pending)

flush-Shows :
    (c : Config) (t : Tail) (feed : List TailItem) → Shows c t feed → Shows c (flush c t) feed
unfolding flush
flush-Shows c t feed h = record {
  settled = feed;
  split = sym (append-nil feed);
  shown = flush-shown c t feed h;
}

-- An event that leaves the items, and appends to what is pending.
extends-Shows :
    (c : Config) (t t' : Tail) (feed xs : List TailItem)
    → t'.items ≡ t.items
    → t'.pending ≡ t.pending ++ xs
    → Shows c t feed
    → Shows c t' (feed ++ xs)
extends-Shows c t t' feed xs items pending h = record {
  settled = h.settled;
  split = rw (pending, h.split) (append_assoc h.settled t.pending xs);
  shown = items ∙ h.shown;
}

-- An event that leaves both.
same-Shows :
    (c : Config) (t t' : Tail) (feed : List TailItem)
    → t'.items ≡ t.items
    → t'.pending ≡ t.pending
    → Shows c t feed
    → Shows c t' feed
same-Shows c t t' feed items pending h = record {
  settled = h.settled;
  split = rw pending h.split;
  shown = items ∙ h.shown;
}

Grows : Schemas → Config → Event → Tail → Type 0
Grows schemas c e t =
    ((step schemas c e t).items ≡ t.items)
    × ((step schemas c e t).pending ≡ t.pending ++ added schemas e t)

opens-Grows : (schemas : Schemas) (c : Config) (s : ℕ) (t : Tail) → Grows schemas c (opens s) t
unfolding Grows step on_open
opens-Grows schemas c s t = ground (arith, append-nil t.pending)

message-Grows :
    (schemas : Schemas) (c : Config) (s : ℕ) (data' : Text) (t : Tail)
    → Grows schemas c (message s data') t
unfolding Grows step on_message
message-Grows schemas c s data' t = ground (arith, append-nil t.pending)

misses-Grows :
    (schemas : Schemas) (c : Config) (s : ℕ) (data' : Text) (t : Tail)
    → Grows schemas c (misses s data') t
unfolding Grows step on_gap
misses-Grows schemas c s data' t = ground (arith, append-nil t.pending)

errs-Grows : (schemas : Schemas) (c : Config) (s : ℕ) (t : Tail) → Grows schemas c (errs s) t
unfolding Grows step on_error
errs-Grows schemas c s t = ground (arith, append-nil t.pending)

fires-Grows : (schemas : Schemas) (c : Config) (h : ℕ) (t : Tail) → Grows schemas c (fires h) t
unfolding Grows step connect
fires-Grows schemas c h t = ground (arith, append-nil t.pending)

resumes-Grows : (schemas : Schemas) (c : Config) (t : Tail) → Grows schemas c resumes t
unfolding Grows step resume start connect
resumes-Grows schemas c t = ground (arith, append-nil t.pending)

reconnects-Grows : (schemas : Schemas) (c : Config) (t : Tail) → Grows schemas c reconnects t
unfolding Grows step reconnect_now connect
reconnects-Grows schemas c t = ground (arith, append-nil t.pending)

halt-same : (t : Tail) → ((halt t).items ≡ t.items) × ((halt t).pending ≡ t.pending)
unfolding halt
halt-same t = ground arith

start-same : (t : Tail) → ((start t).items ≡ t.items) × ((start t).pending ≡ t.pending)
unfolding start connect
start-same t = ground arith

stop-Shows :
    (c : Config) (t : Tail) (feed : List TailItem) → Shows c t feed → Shows c (stop c t) feed
unfolding stop
stop-Shows c t feed h =
    let (items, pending) = halt-same t in
    flush-Shows c (halt t) feed (same-Shows c t (halt t) feed items pending h)

pauses-Shows :
    (c : Config) (t : Tail) (feed : List TailItem) → Shows c t feed → Shows c (pause c t) feed
unfolding pause
pauses-Shows c t feed h =
    if_both (λ t'. Shows c t' feed) t.paused t _ h
      (same-Shows c (stop c t) (record (stop c t) { paused = true; status = TailStatus.paused })
        feed refl refl (stop-Shows c t feed h))

moves-Shows :
    (c : Config) (t : Tail) (feed : List TailItem) → Shows c t feed → Shows c (change_url c t) feed
unfolding change_url
moves-Shows c t feed h =
    let (items, pending) = start-same (stop c t) in
    if_both (λ t'. Shows c t' feed) t.paused t _ h
      (same-Shows c (stop c t) (start (stop c t)) feed items pending (stop-Shows c t feed h))

ticks-Shows :
    (c : Config) (t : Tail) (feed : List TailItem)
    → Shows c t feed
    → Shows c (if t.flushing then flush c t else t) feed
ticks-Shows c t feed h =
    if_both (λ t'. Shows c t' feed) t.flushing (flush c t) t (flush-Shows c t feed h) h

grown :
    (schemas : Schemas) (c : Config) (e : Event) (t : Tail) (feed : List TailItem)
    → Grows schemas c e t
    → Shows c t feed
    → Shows c (step schemas c e t) (feed ++ added schemas e t)
unfolding Grows
grown schemas c e t feed g h =
    extends-Shows c t (step schemas c e t) feed (added schemas e t) g.0 g.1 h

clears-Shows : (c : Config) (t : Tail) → Shows c (clear t) []
unfolding clear
clears-Shows c t = record {
  settled = [];
  split = refl;
  shown = sym (last_all c.max_items [] (omega arith));
}

step-Shows :
    (schemas : Schemas) (c : Config) (e : Event) (t : Tail) (feed : List TailItem)
    → Shows c t feed
    → Shows c (step schemas c e t) (extend schemas e t feed)
unfolding step
step-Shows schemas c (opens s) t feed h =
    grown schemas c (opens s) t feed (opens-Grows schemas c s t) h
step-Shows schemas c (message s d) t feed h =
    grown schemas c (message s d) t feed (message-Grows schemas c s d t) h
step-Shows schemas c (misses s d) t feed h =
    grown schemas c (misses s d) t feed (misses-Grows schemas c s d t) h
step-Shows schemas c (errs s) t feed h =
    grown schemas c (errs s) t feed (errs-Grows schemas c s t) h
step-Shows schemas c (fires s) t feed h =
    grown schemas c (fires s) t feed (fires-Grows schemas c s t) h
step-Shows schemas c ticks t feed h = rw (append-nil feed) (ticks-Shows c t feed h)
step-Shows schemas c pauses t feed h = rw (append-nil feed) (pauses-Shows c t feed h)
step-Shows schemas c resumes t feed h = grown schemas c resumes t feed (resumes-Grows schemas c t) h
step-Shows schemas c moves t feed h = rw (append-nil feed) (moves-Shows c t feed h)
step-Shows schemas c reconnects t feed h =
    grown schemas c reconnects t feed (reconnects-Grows schemas c t) h
step-Shows schemas c clears t feed h = clears-Shows c t

pub run-Shows :
    (schemas : Schemas) (c : Config) (es : List Event) (t : Tail) (feed : List TailItem)
    → Shows c t feed
    → Shows c (run schemas c es t) (feed_of schemas c es t feed)
unfolding run feed_of
run-Shows schemas c [] t feed h = h
run-Shows schemas c (e ∷ es) t feed h =
    run-Shows schemas c es (step schemas c e t) (extend schemas e t feed)
      (step-Shows schemas c e t feed h)

flush-pending : (c : Config) (t : Tail) → (flush c t).pending ≡ []
unfolding flush
flush-pending c t = refl

pub mount-Shows : (c : Config) → Shows c mount []
unfolding mount start connect
mount-Shows c = record {
  settled = [];
  split = refl;
  shown = sym (last_all c.max_items [] (omega arith));
}

-- However the events come, a tick of the flush interval leaves nothing pending and shows the last
-- `max_items` of the stream: of all items that the frames and the reopened connections since the last
-- `clear` have added.
pub tick-shows-feed :
    (schemas : Schemas) (c : Config) (es : List Event)
    → (run schemas c es mount).flushing ≡ true
    → ((step schemas c ticks (run schemas c es mount)).pending ≡ [])
      × ((step schemas c ticks (run schemas c es mount)).items
          ≡ last c.max_items (feed_of schemas c es mount []))
      × (length (step schemas c ticks (run schemas c es mount)).items ≤ c.max_items)
unfolding step
tick-shows-feed schemas c es on =
    let t = run schemas c es mount in
    let feed = feed_of schemas c es mount [] in
    let shows = run-Shows schemas c es mount [] (mount-Shows c) in
    let flushed : step schemas c ticks t ≡ flush c t = ground (arith, on) in
    let shown = flush-shown c t feed shows in
    rw flushed (flush-pending c t, shown, rw shown (length-last c.max_items feed))
