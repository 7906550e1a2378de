-- ===== src/LogTail/Wires/History.antt =====
-- The wiring is kept by every step of a history.
use logalot.LogTail.Wires.{
  IsWired, IsQuiet, idle, same-IsWired, is_offline, pause-IsWired, start-IsWired, shut, waiting,
  live, resume-IsWired, change_url-IsWired,
}
use logalot.Base.{
  refl, some, true, false, [], ◌≡◌, delete_where, arith, if_both, ℕ, ◌∷◌, inl, inr, if_cases,
  count_where, Text, Bool-cases, leb, ◌⊎◌, List,
}
use logalot.LogTail.{
  Schemas, Config, Tail, TailStatus, flush, connect, on_open, on_message, on_gap, on_error,
  reconnect_now, clear, delay_of, initial,
}
use logalot.LogTail.Events.{
  Event, opens, message, misses, errs, fires, ticks, pauses, resumes, moves, reconnects, clears,
  step, mount, run, is_opened, is_pending, expire,
}

opens-IsWired :
    (schemas : Schemas) (c : Config) (s : ℕ) (t : Tail)
    → IsWired t
    → IsWired (step schemas c (opens s) t)
unfolding step on_open
opens-IsWired schemas c s t (idle p o n u) = rw (shut s t o) (idle p o n u)
opens-IsWired schemas c s t (waiting h d p q r o n u v) =
    rw (shut s t o) (waiting h d p q r o n u v)
opens-IsWired schemas c s t (live h p q r o n u) =
    if_both IsWired (is_opened s t) _ t
      (live h (ground arith) (ground arith) refl (ground arith) (ground arith) (ground arith))
      (live h p q r o n u)

message-IsWired :
    (schemas : Schemas) (c : Config) (s : ℕ) (d : Text) (t : Tail)
    → IsWired t
    → IsWired (step schemas c (message s d) t)
unfolding step on_message
message-IsWired schemas c s d t w =
    same-IsWired t (step schemas c (message s d) t) (ground arith) (ground arith) (ground arith)
      (ground arith) (ground arith) (ground arith) (ground arith) w

misses-IsWired :
    (schemas : Schemas) (c : Config) (s : ℕ) (d : Text) (t : Tail)
    → IsWired t
    → IsWired (step schemas c (misses s d) t)
unfolding step on_gap
misses-IsWired schemas c s d t w =
    same-IsWired t (step schemas c (misses s d) t) (ground arith) (ground arith) (ground arith)
      (ground arith) (ground arith) (ground arith) (ground arith) w

ticks-IsWired :
    (schemas : Schemas) (c : Config) (t : Tail) → IsWired t → IsWired (step schemas c ticks t)
unfolding step flush
ticks-IsWired schemas c t w =
    same-IsWired t (step schemas c ticks t) (ground arith) (ground arith) (ground arith)
      (ground arith) (ground arith) (ground arith) (ground arith) w

-- An error of the open source: it is closed, and a timeout is armed, or the tail goes offline.
pub failed-IsWired :
    (c : Config) (s : ℕ) (t : Tail)
    → t.paused ≡ false
    → t.stopped ≡ false
    → t.opened ≡ s ∷ []
    → t.source ≡ some s
    → t.timeouts ≡ []
    → IsWired (on_error c t)
unfolding on_error delete_where
failed-IsWired c s t p q o n u = elim (Bool-cases (leb c.max_reconnect_attempts t.attempt)) [
  | inl spent ↦ idle (ground arith) (ground arith) (ground arith) (ground arith)
  | inr more ↦
      waiting t.next_handle (delay_of t.attempt c.backoff_ms) (ground arith) (ground arith)
        (ground arith) (ground arith) (ground arith) (ground arith) (ground arith)
]

errs-IsWired :
    (schemas : Schemas) (c : Config) (s : ℕ) (t : Tail)
    → IsWired t
    → IsWired (step schemas c (errs s) t)
unfolding step
errs-IsWired schemas c s t (idle p o n u) = rw (shut s t o) (idle p o n u)
errs-IsWired schemas c s t (waiting h d p q r o n u v) = rw (shut s t o) (waiting h d p q r o n u v)
errs-IsWired schemas c s t (live h p q r o n u) =
    if_both IsWired (is_opened s t) _ t (failed-IsWired c h t p q o n u) (live h p q r o n u)

pub unarmed : (k : ℕ) (t : Tail) → t.timeouts ≡ [] → is_pending k t ≡ false
unfolding count_where
unarmed k t u = ground (arith, u)

fired-IsWired :
    (k h d : ℕ) (t : Tail)
    → t.paused ≡ false
    → t.stopped ≡ false
    → is_offline t.status ≡ false
    → t.opened ≡ []
    → t.timeouts ≡ (h, d) ∷ []
    → is_pending k t ≡ true
    → IsWired (connect (expire k t))
unfolding connect count_where delete_where
fired-IsWired k h d t p q r o v is =
    live t.next_handle (ground arith) (ground arith) (ground arith) (ground arith) (ground arith)
      (ground arith)

initial-IsQuiet : IsQuiet initial
initial-IsQuiet = record { opened = refl; source = refl; timeouts = refl }

fires-IsWired :
    (schemas : Schemas) (c : Config) (k : ℕ) (t : Tail)
    → IsWired t
    → IsWired (step schemas c (fires k) t)
unfolding step
fires-IsWired schemas c k t (idle p o n u) = rw (unarmed k t u) (idle p o n u)
fires-IsWired schemas c k t (live s p q r o n u) = rw (unarmed k t u) (live s p q r o n u)
fires-IsWired schemas c k t (waiting h d p q r o n u v) =
    if_cases IsWired (is_pending k t) _ t (λ is. fired-IsWired k h d t p q r o v is)
      (λ not. waiting h d p q r o n u v)

reconnects-IsWired :
    (t : Tail)
    → (t.status ≡ TailStatus.offline) ⊎ (t.stopped ≡ true)
    → IsWired t
    → IsWired (reconnect_now t)
unfolding reconnect_now connect delete_where
reconnects-IsWired t why (idle p o n u) =
    if_cases IsWired t.stopped t _ (λ s. idle p o n u)
      (λ s.
        live t.next_handle (ground arith) (ground arith) (ground arith) (ground arith)
          (ground arith) (ground arith))
reconnects-IsWired t why (live s p q r o n u) = ground arith
reconnects-IsWired t why (waiting h d p q r o n u v) = ground arith

-- The user can ask for a new connection where the tail is offline; where it is stopped, the call does
-- nothing.
abbrev pub Offered : Event → Tail → Type 0
Offered reconnects t = (t.status ≡ TailStatus.offline) ⊎ (t.stopped ≡ true)
Offered _ t = Unit

abbrev pub AllOffered : Schemas → Config → List Event → Tail → Type 0
AllOffered schemas c [] t = Unit
AllOffered schemas c (e ∷ es) t = Offered e t × AllOffered schemas c es (step schemas c e t)

pub step-IsWired :
    (schemas : Schemas) (c : Config) (e : Event) (t : Tail)
    → Offered e t
    → IsWired t
    → IsWired (step schemas c e t)
step-IsWired schemas c (opens s) t a w = opens-IsWired schemas c s t w
step-IsWired schemas c (message s d) t a w = message-IsWired schemas c s d t w
step-IsWired schemas c (misses s d) t a w = misses-IsWired schemas c s d t w
step-IsWired schemas c (errs s) t a w = errs-IsWired schemas c s t w
step-IsWired schemas c (fires h) t a w = fires-IsWired schemas c h t w
step-IsWired schemas c ticks t a w = ticks-IsWired schemas c t w
step-IsWired schemas c pauses t a w = unfold step in pause-IsWired c t w
step-IsWired schemas c resumes t a w = unfold step in resume-IsWired t w
step-IsWired schemas c moves t a w = unfold step in change_url-IsWired c t w
step-IsWired schemas c reconnects t a w = unfold step in reconnects-IsWired t a w
step-IsWired schemas c clears t a w =
    unfold step clear in same-IsWired t (clear t) refl refl refl refl refl refl refl w

run-IsWired_from :
    (schemas : Schemas) (c : Config) (es : List Event) (t : Tail)
    → AllOffered schemas c es t
    → IsWired t
    → IsWired (run schemas c es t)
unfolding run
run-IsWired_from schemas c [] t a w = w
run-IsWired_from schemas c (e ∷ es) t a w =
    run-IsWired_from schemas c es (step schemas c e t) a.1 (step-IsWired schemas c e t a.0 w)

pub mount-IsWired : IsWired mount
unfolding mount
mount-IsWired = start-IsWired initial refl initial-IsQuiet

-- In every history in which the user asks for a new connection only where it is offered, the tail is
-- wired: nothing is open or pending, or one EventSource is open and no timeout is pending, or the other
-- way round; and what is open or pending is what the hook holds, so that it can be shut.
pub run-IsWired :
    (schemas : Schemas) (c : Config) (es : List Event)
    → AllOffered schemas c es mount
    → IsWired (run schemas c es mount)
run-IsWired schemas c es a = run-IsWired_from schemas c es mount a mount-IsWired
