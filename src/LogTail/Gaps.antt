-- ===== src/LogTail/Gaps.antt =====
-- The markers of the live tail: the stream has no replay, so a connection that opens again has missed
-- events.
use logalot.LogTail.Wires.History.{AllOffered, step-IsWired, run-IsWired, unarmed, mount-IsWired}
use logalot.LogTail.Wires.{IsWired, idle, shut, waiting, live}
use logalot.Base.{
  some, true, false, [], if◌then◌else◌, Option, List, ℕ, ◌∷◌, ◌≡◌, ◌⊎◌, refl, none, inl, inr, Bool,
  count_where, arith, Bool-cases, if_cases, Text, if_both, ◌++◌, ◌==◌,
}
use logalot.LogTail.{
  Schemas, Config, Tail, gap, GapReason, flush, connect, on_open, on_message, on_gap, on_error,
  clear, halt, stop, start, pause, resume, change_url, reconnect_now,
}
use logalot.LogTail.Events.{
  Event, opens, message, misses, errs, fires, ticks, pauses, resumes, moves, reconnects, clears,
  step, mount, run, is_opened, is_pending, expire,
}

-- The connection that has opened last.
abbrev pub opened_last : Event → Tail → Option ℕ → Option ℕ
opened_last (opens s) t before = if is_opened s t then some s else before
opened_last _ t before = before

abbrev pub last_opened : Schemas → Config → List Event → Tail → Option ℕ → Option ℕ
last_opened schemas c [] t before = before
last_opened schemas c (e ∷ es) t before =
    last_opened schemas c es (step schemas c e t) (opened_last e t before)

-- A marker is due, unless the connection that the tail has is the one that opened last, or none has
-- opened yet, or the tail is stopped.
abbrev pub is_same : Option ℕ → Option ℕ → Bool
is_same (some a) (some b) = a == b
is_same (some a) none = false
is_same none b = false

abbrev IsDue : Option ℕ → Tail → Type 0
IsDue before t =
    (t.want_gap_on_open ≡ true)
    ⊎ (is_same t.source before ≡ true)
    ⊎ (t.saw_open ≡ false)
    ⊎ (t.stopped ≡ true)

opened-is_same :
    (h s : ℕ) (t : Tail)
    → t.opened ≡ h ∷ []
    → t.source ≡ some h
    → is_opened s t ≡ true
    → is_same (on_open t).source (some s) ≡ true
unfolding on_open count_where
opened-is_same h s t o v is = ground arith

fired-IsDue :
    (k : ℕ) (before : Option ℕ) (t : Tail)
    → t.stopped ≡ false
    → t.source ≡ none
    → IsDue before t
    → IsDue before (connect (expire k t))
unfolding connect
fired-IsDue k before t q v d = ground arith

opens-IsDue :
    (schemas : Schemas) (c : Config) (s : ℕ) (before : Option ℕ) (t : Tail)
    → IsWired t
    → IsDue before t
    → IsDue (opened_last (opens s) t before) (step schemas c (opens s) t)
unfolding step on_open
opens-IsDue schemas c s before t (idle p o r u) d = rw (shut s t o) d
opens-IsDue schemas c s before t (waiting h k p q r o v u w) d = rw (shut s t o) d
opens-IsDue schemas c s before t (live h p q r o v u) d = elim (Bool-cases (is_opened s t)) [
  | inl is ↦ rw is (inr (inl (opened-is_same h s t o v is)))
  | inr not ↦ rw not d
]

fires-IsDue :
    (schemas : Schemas) (c : Config) (k : ℕ) (before : Option ℕ) (t : Tail)
    → IsWired t
    → IsDue before t
    → IsDue before (step schemas c (fires k) t)
unfolding step
fires-IsDue schemas c k before t (idle p o r u) d = rw (unarmed k t u) d
fires-IsDue schemas c k before t (live s p q r o v u) d = rw (unarmed k t u) d
fires-IsDue schemas c k before t (waiting h j p q r o v u w) d =
    if_cases (IsDue before) (is_pending k t) (connect (expire k t)) t
      (λ is. fired-IsDue k before t q v d) (λ not. d)

same-IsDue :
    (before : Option ℕ) (t t' : Tail)
    → t'.want_gap_on_open ≡ t.want_gap_on_open
    → t'.source ≡ t.source
    → t'.saw_open ≡ t.saw_open
    → t'.stopped ≡ t.stopped
    → IsDue before t
    → IsDue before t'
same-IsDue before t t' a b c d h = ground arith

message-IsDue :
    (schemas : Schemas) (c : Config) (s : ℕ) (x : Text) (before : Option ℕ) (t : Tail)
    → IsDue before t
    → IsDue before (step schemas c (message s x) t)
unfolding step on_message
message-IsDue schemas c s x before t d =
    same-IsDue before t (step schemas c (message s x) t) (ground arith) (ground arith)
      (ground arith) (ground arith) d

misses-IsDue :
    (schemas : Schemas) (c : Config) (s : ℕ) (x : Text) (before : Option ℕ) (t : Tail)
    → IsDue before t
    → IsDue before (step schemas c (misses s x) t)
unfolding step on_gap
misses-IsDue schemas c s x before t d =
    same-IsDue before t (step schemas c (misses s x) t) (ground arith) (ground arith) (ground arith)
      (ground arith) d

ticks-IsDue :
    (schemas : Schemas) (c : Config) (before : Option ℕ) (t : Tail)
    → IsDue before t
    → IsDue before (step schemas c ticks t)
unfolding step flush
ticks-IsDue schemas c before t d =
    same-IsDue before t (step schemas c ticks t) (ground arith) (ground arith) (ground arith)
      (ground arith) d

error-IsDue :
    (c : Config) (before : Option ℕ) (t : Tail) → IsDue before t → IsDue before (on_error c t)
unfolding on_error
error-IsDue c before t d = ground arith

halt-stopped : (t : Tail) → (halt t).stopped ≡ true
unfolding halt
halt-stopped t = ground arith

stop-stopped : (c : Config) (t : Tail) → (stop c t).stopped ≡ true
unfolding stop flush
stop-stopped c t = halt-stopped t

pause-IsDue :
    (c : Config) (before : Option ℕ) (t : Tail) → IsDue before t → IsDue before (pause c t)
unfolding pause
pause-IsDue c before t d =
    if_both (IsDue before) t.paused t _ d (inr (inr (inr (stop-stopped c t))))

start-IsDue : (before : Option ℕ) (t : Tail) → IsDue before (start t)
unfolding start connect
start-IsDue before t = ground arith

resume-IsDue : (before : Option ℕ) (t : Tail) → IsDue before t → IsDue before (resume t)
unfolding resume
resume-IsDue before t d =
    if_both (IsDue before) t.paused (start (record t { paused = false })) t
      (start-IsDue before (record t { paused = false })) d

moves-IsDue :
    (c : Config) (before : Option ℕ) (t : Tail) → IsDue before t → IsDue before (change_url c t)
unfolding change_url
moves-IsDue c before t d =
    if_both (IsDue before) t.paused t (start (stop c t)) d (start-IsDue before (stop c t))

reconnects-IsDue : (before : Option ℕ) (t : Tail) → IsDue before t → IsDue before (reconnect_now t)
unfolding reconnect_now connect
reconnects-IsDue before t d = ground arith

step-IsDue :
    (schemas : Schemas) (c : Config) (e : Event) (before : Option ℕ) (t : Tail)
    → IsWired t
    → IsDue before t
    → IsDue (opened_last e t before) (step schemas c e t)
step-IsDue schemas c (opens s) before t w d = opens-IsDue schemas c s before t w d
step-IsDue schemas c (message s x) before t w d = message-IsDue schemas c s x before t d
step-IsDue schemas c (misses s x) before t w d = misses-IsDue schemas c s x before t d
step-IsDue schemas c (errs s) before t w d =
    unfold step in
    if_both (IsDue before) (is_opened s t) (on_error c t) t (error-IsDue c before t d) d
step-IsDue schemas c (fires k) before t w d = fires-IsDue schemas c k before t w d
step-IsDue schemas c ticks before t w d = ticks-IsDue schemas c before t d
step-IsDue schemas c pauses before t w d = unfold step in pause-IsDue c before t d
step-IsDue schemas c resumes before t w d = unfold step in resume-IsDue before t d
step-IsDue schemas c moves before t w d = unfold step in moves-IsDue c before t d
step-IsDue schemas c reconnects before t w d = unfold step in reconnects-IsDue before t d
step-IsDue schemas c clears before t w d =
    unfold step clear in same-IsDue before t (clear t) refl refl refl refl d

run-IsDue :
    (schemas : Schemas) (c : Config) (es : List Event) (before : Option ℕ) (t : Tail)
    → AllOffered schemas c es t
    → IsWired t
    → IsDue before t
    → IsDue (last_opened schemas c es t before) (run schemas c es t)
unfolding run
run-IsDue schemas c [] before t a w d = d
run-IsDue schemas c (e ∷ es) before t a w d =
    run-IsDue schemas c es (opened_last e t before) (step schemas c e t) a.1
      (step-IsWired schemas c e t a.0 w) (step-IsDue schemas c e before t w d)

due-marked :
    (schemas : Schemas) (c : Config) (s : ℕ) (before : Option ℕ) (t : Tail)
    → IsWired t
    → IsDue before t
    → t.saw_open ≡ true
    → is_opened s t ≡ true
    → is_same (some s) before ≡ false
    → (step schemas c (opens s) t).pending ≡ t.pending ++ gap t.seq GapReason.reconnect 0 ∷ []
unfolding step on_open count_where
due-marked schemas c s before t (idle p o r u) d saw is other = ground arith
due-marked schemas c s before t (waiting h k p q r o v u w) d saw is other = ground arith
due-marked schemas c s before t (live h p q r o v u) d saw is other = ground arith

mount-saw_open : mount.saw_open ≡ false
unfolding mount start connect
mount-saw_open = refl

-- In every history in which the user asks for a new connection only where it is offered, a connection
-- that opens after another one had opened before it appends a `reconnect` marker to the stream when
-- it opens.
pub reopened_is_marked :
    (schemas : Schemas) (c : Config) (es : List Event) (s : ℕ)
    → AllOffered schemas c es mount
    → (run schemas c es mount).saw_open ≡ true
    → is_opened s (run schemas c es mount) ≡ true
    → is_same (some s) (last_opened schemas c es mount none) ≡ false
    → (step schemas c (opens s) (run schemas c es mount)).pending
      ≡ (run schemas c es mount).pending
        ++ gap (run schemas c es mount).seq GapReason.reconnect 0 ∷ []
reopened_is_marked schemas c es s a saw is other =
    due-marked schemas c s (last_opened schemas c es mount none) (run schemas c es mount)
      (run-IsWired schemas c es a)
      (run-IsDue schemas c es none mount a mount-IsWired (inr (inr (inl mount-saw_open)))) saw is
      other
