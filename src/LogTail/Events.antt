-- ===== src/LogTail/Events.antt =====
-- The steps of the live tail: what the browser and the user call, and when they can. An EventSource
-- that is closed dispatches nothing, and a timeout fires once; the interval of `flush` ticks while it
-- is set.
use logalot.Base.{[], if◌then◌else◌, ℕ, List, Text, Bool, delete_where, ◌∷◌, ltb, ◌==◌, count_where}
use logalot.LogTail.{
  Schemas, Config, Tail, initial, flush, connect, on_open, on_message, on_gap, on_error, start,
  pause, resume, change_url, reconnect_now, clear,
}

pub data Event : Type 0 where
  opens : ℕ → Event
  message : ℕ → Text → Event
  misses : ℕ → Text → Event
  errs : ℕ → Event
  fires : ℕ → Event
  ticks : Event
  pauses : Event
  resumes : Event
  moves : Event
  reconnects : Event
  clears : Event

abbrev pub is_opened : ℕ → Tail → Bool
is_opened s t = ltb 0 (count_where (λ o. o == s) t.opened)

abbrev pub is_pending : ℕ → Tail → Bool
is_pending h t = ltb 0 (count_where (λ p. p.0 == h) t.timeouts)

abbrev pub expire : ℕ → Tail → Tail
expire h t = record t { timeouts = delete_where (λ p. p.0 == h) t.timeouts }

unfoldable pub step : Schemas → Config → Event → Tail → Tail
step schemas c (opens s) t = if is_opened s t then on_open t else t
step schemas c (message s data') t = if is_opened s t then on_message schemas data' t else t
step schemas c (misses s data') t = if is_opened s t then on_gap schemas data' t else t
step schemas c (errs s) t = if is_opened s t then on_error c t else t
step schemas c (fires h) t = if is_pending h t then connect (expire h t) else t
step schemas c ticks t = if t.flushing then flush c t else t
step schemas c pauses t = pause c t
step schemas c resumes t = resume t
step schemas c moves t = change_url c t
step schemas c reconnects t = reconnect_now t
step schemas c clears t = clear t

unfoldable pub mount : Tail
mount = start initial

unfoldable pub run : Schemas → Config → List Event → Tail → Tail
run schemas c [] t = t
run schemas c (e ∷ es) t = run schemas c es (step schemas c e t)
