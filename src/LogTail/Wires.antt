-- ===== src/LogTail/Wires.antt =====
-- The connections and the timeouts of the live tail.
pub mod History
use logalot.Base.{
  refl, none, some, true, false, [], Bool, ◌≡◌, delete_where, arith, if_both, ℕ, sym, ◌∷◌, inl, inr,
  if_cases, ◌∙◌, count_where, Text, Bool-cases, leb, ◌⊎◌, List,
}
use logalot.LogTail.{
  Schemas, Config, Tail, TailStatus, flush, connect, on_open, on_message, on_gap, on_error, halt,
  stop, start, pause, resume, change_url, reconnect_now, clear, delay_of, initial,
}
use logalot.LogTail.Events.{
  Event, opens, message, misses, errs, fires, ticks, pauses, resumes, moves, reconnects, clears,
  step, mount, run, is_opened, is_pending, expire,
}

abbrev pub is_offline : TailStatus → Bool
is_offline TailStatus.offline = true
is_offline TailStatus.connecting = false
is_offline TailStatus.streaming = false
is_offline TailStatus.reconnecting = false
is_offline TailStatus.paused = false

-- Nothing is open or pending; or one EventSource is open, and it is the one that the hook holds; or one
-- timeout is pending, and it is the one that the hook can cancel.
pub data IsWired (t : Tail) : Type 0 where
  idle : t.paused ≡ t.stopped → t.opened ≡ [] → t.source ≡ none → t.timeouts ≡ [] → IsWired t
  live :
      (s : ℕ)
      → t.paused ≡ false
      → t.stopped ≡ false
      → is_offline t.status ≡ false
      → t.opened ≡ s ∷ []
      → t.source ≡ some s
      → t.timeouts ≡ []
      → IsWired t
  waiting :
      (h d : ℕ)
      → t.paused ≡ false
      → t.stopped ≡ false
      → is_offline t.status ≡ false
      → t.opened ≡ []
      → t.source ≡ none
      → t.timeout ≡ some h
      → t.timeouts ≡ (h, d) ∷ []
      → IsWired t

-- What the tail does with its connections shut.
pub record IsQuiet (t : Tail) : Type 0 where
  pub opened : t.opened ≡ []
  pub source : t.source ≡ none
  pub timeouts : t.timeouts ≡ []

pub halt-IsQuiet : (t : Tail) → IsWired t → IsQuiet (halt t)
unfolding halt delete_where
halt-IsQuiet t (idle p o s u) = ground arith
halt-IsQuiet t (live s p q r o e u) = ground arith
halt-IsQuiet t (waiting h d p q r o e u v) = ground arith

pub stop-IsQuiet : (c : Config) (t : Tail) → IsWired t → IsQuiet (stop c t)
unfolding stop flush
stop-IsQuiet c t w = let quiet = halt-IsQuiet t w in ground (arith, quiet)

pub start-IsWired : (t : Tail) → t.paused ≡ false → IsQuiet t → IsWired (start t)
unfolding start connect
start-IsWired t p q =
    live t.next_handle p refl (ground arith) (ground (arith, q.opened)) refl
      (ground (arith, q.timeouts))

pub halt-stopped : (t : Tail) → ((halt t).stopped ≡ true) × ((halt t).paused ≡ t.paused)
unfolding halt
halt-stopped t = ground arith

pub pause-IsWired : (c : Config) (t : Tail) → IsWired t → IsWired (pause c t)
unfolding pause stop flush
pause-IsWired c t w =
    let quiet = halt-IsQuiet t w in
    let (stopped, paused) = halt-stopped t in
    if_both IsWired t.paused t _ w (idle (sym stopped) quiet.opened quiet.source quiet.timeouts)

pub stop-paused : (c : Config) (t : Tail) → (stop c t).paused ≡ t.paused
unfolding stop flush
stop-paused c t = (halt-stopped t).1

pub change_url-IsWired : (c : Config) (t : Tail) → IsWired t → IsWired (change_url c t)
unfolding change_url
change_url-IsWired c t w =
    if_cases IsWired t.paused t (start (stop c t)) (λ p. w)
      (λ p. start-IsWired (stop c t) (stop-paused c t ∙ p) (stop-IsQuiet c t w))

pub paused-IsQuiet : (t : Tail) → t.paused ≡ true → IsWired t → IsQuiet t
paused-IsQuiet t p (idle _ o s u) = record { opened = o; source = s; timeouts = u }
paused-IsQuiet t p (live s q _ _ _ _ _) = cc
paused-IsQuiet t p (waiting h d q _ _ _ _ _ _) = cc

pub resume-IsWired : (t : Tail) → IsWired t → IsWired (resume t)
unfolding resume
resume-IsWired t w =
    if_cases IsWired t.paused (start (record t { paused = false })) t
      (λ p.
        let quiet = paused-IsQuiet t p w in
        start-IsWired (record t { paused = false }) refl
          (record { opened = quiet.opened; source = quiet.source; timeouts = quiet.timeouts }))
      (λ p. w)

-- A change of what the wires do not depend on.
pub same-IsWired :
    (t t' : Tail)
    → t'.paused ≡ t.paused
    → t'.stopped ≡ t.stopped
    → is_offline t'.status ≡ is_offline t.status
    → t'.opened ≡ t.opened
    → t'.source ≡ t.source
    → t'.timeout ≡ t.timeout
    → t'.timeouts ≡ t.timeouts
    → IsWired t
    → IsWired t'
same-IsWired t t' a b c d e f g (idle p o s u) = idle (a ∙ p ∙ sym b) (d ∙ o) (e ∙ s) (g ∙ u)
same-IsWired t t' a b c d e f g (live s p q r o n u) =
    live s (a ∙ p) (b ∙ q) (c ∙ r) (d ∙ o) (e ∙ n) (g ∙ u)
same-IsWired t t' a b c d e f g (waiting h k p q r o n u v) =
    waiting h k (a ∙ p) (b ∙ q) (c ∙ r) (d ∙ o) (e ∙ n) (f ∙ u) (g ∙ v)

-- An EventSource that is not open dispatches nothing.
pub shut : (s : ℕ) (t : Tail) → t.opened ≡ [] → is_opened s t ≡ false
unfolding count_where
shut s t o = ground (arith, o)
