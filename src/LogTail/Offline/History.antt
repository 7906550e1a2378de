-- ===== src/LogTail/Offline/History.antt =====
-- An outage, step by step, and as a whole.
use logalot.LogTail.Wires.History.{step-IsWired, failed-IsWired}
use logalot.LogTail.Wires.{IsWired, idle, shut, live, waiting}
use logalot.LogTail.Offline.{
  Steady, Outage, is_outage, over, IsTrying, delivered, errors, trying, message-Steady,
  misses-Steady, quiet-Still, ticks-Steady, clears-Steady,
}
use mathlib.Core.Path.{subst}
use native.Mathlib.Nat.{add-zero, add_assoc, zero-add}
use logalot.Base.{
  true, false, [], if◌then◌else◌, ℕ, List, length, ◌≡◌, arith, ◌∷◌, ◌+◌, ◌≤◌, ◌∙◌, some, inl, inr,
  delete_where, if_cases, Bool-cases, leb, refl, count_where, All, sym,
}
use logalot.LogTail.{Schemas, Config, Tail, connect, on_error}
use logalot.LogTail.Events.{
  Event, opens, message, misses, errs, fires, ticks, pauses, resumes, moves, reconnects, clears,
  step, run, is_opened,
}

-- Where the tail tries on after `n` errors, an event that delivers no error and opens or closes nothing
-- leaves it so.
Steady-Outage :
    (c : Config) (t₀ t t' : Tail) (n : ℕ)
    → Steady t t'
    → IsWired t'
    → IsTrying t
    → t.attempt ≡ t₀.attempt + n
    → t.attempt ≤ c.max_reconnect_attempts
    → t.exhausted ≡ t₀.exhausted
    → Outage c t₀ n t'
Steady-Outage c t₀ t t' n s w h a m x =
    trying (record { wired = w; one = rw (s.opened, s.timeouts) h.one }) (s.attempt ∙ a)
      (rw s.attempt m) (s.exhausted ∙ x)

-- An error of the open EventSource.
failed-Outage :
    (c : Config) (s : ℕ) (t₀ t : Tail) (n : ℕ)
    → t.paused ≡ false
    → t.stopped ≡ false
    → t.opened ≡ s ∷ []
    → t.source ≡ some s
    → t.timeouts ≡ []
    → t.attempt ≡ t₀.attempt + n
    → t.attempt ≤ c.max_reconnect_attempts
    → t.exhausted ≡ t₀.exhausted
    → Outage c t₀ (n + 1) (on_error c t)
unfolding on_error delete_where
failed-Outage c s t₀ t n p q o r u a m x =
    elim (Bool-cases (leb c.max_reconnect_attempts t.attempt)) [
      | inl spent ↦
          over (record { opened = ground arith; source = ground arith; timeouts = ground arith })
            (ground arith) (ground arith) (ground arith)
      | inr more ↦
          trying (record { wired = failed-IsWired c s t p q o r u; one = ground arith })
            (ground arith) (ground arith) (ground arith)
    ]

errs-Outage :
    (schemas : Schemas) (c : Config) (s : ℕ) (t₀ t : Tail) (n : ℕ)
    → IsTrying t
    → t.attempt ≡ t₀.attempt + n
    → t.attempt ≤ c.max_reconnect_attempts
    → t.exhausted ≡ t₀.exhausted
    → Outage c t₀ (n + delivered (errs s) t) (step schemas c (errs s) t)
unfolding step
errs-Outage schemas c s t₀ t n h a m x =
    if_cases (λ k. Outage c t₀ (n + k) (if is_opened s t then on_error c t else t)) (is_opened s t)
      1 0 (λ is. rw is (errs_open h.wired is)) (λ not. rw (not, add-zero) (trying h a m x))
  where
    errs_open : IsWired t → is_opened s t ≡ true → Outage c t₀ (n + 1) (on_error c t)
    errs_open (idle p o r u) is = let e : true ≡ false = sym is ∙ shut s t o in cc
    errs_open (live k p q r o v u) is = failed-Outage c k t₀ t n p q o v u a m x
    errs_open (waiting k d p q r o v u w) is = let e : true ≡ false = sym is ∙ shut s t o in cc

fires-moved :
    (schemas : Schemas) (c : Config) (k : ℕ) (t : Tail)
    → IsTrying t
    → let t' = step schemas c (fires k) t in
      (length t'.opened + length t'.timeouts ≡ 1)
      × (t'.attempt ≡ t.attempt)
      × (t'.exhausted ≡ t.exhausted)
unfolding step connect count_where delete_where
fires-moved schemas c k t h = fired h.wired
  where
    fired :
        IsWired t
        → let t' = step schemas c (fires k) t in
          (length t'.opened + length t'.timeouts ≡ 1)
          × (t'.attempt ≡ t.attempt)
          × (t'.exhausted ≡ t.exhausted)
    fired (idle p o r u) = ground arith
    fired (live s p q r o v u) = ground arith
    fired (waiting j d p q r o v u w) = ground arith

fires-Outage :
    (schemas : Schemas) (c : Config) (k : ℕ) (t₀ t : Tail) (n : ℕ)
    → IsTrying t
    → t.attempt ≡ t₀.attempt + n
    → t.attempt ≤ c.max_reconnect_attempts
    → t.exhausted ≡ t₀.exhausted
    → Outage c t₀ n (step schemas c (fires k) t)
fires-Outage schemas c k t₀ t n h a m x =
    let w = step-IsWired schemas c (fires k) t tt h.wired in
    let moved = fires-moved schemas c k t h in
    trying (record { wired = w; one = moved.0 }) (moved.1 ∙ a) (rw (moved.1) m) (moved.2 ∙ x)

trying-Outage :
    (schemas : Schemas) (c : Config) (e : Event) (t₀ t : Tail) (n : ℕ)
    → is_outage e ≡ true
    → IsTrying t
    → t.attempt ≡ t₀.attempt + n
    → t.attempt ≤ c.max_reconnect_attempts
    → t.exhausted ≡ t₀.exhausted
    → Outage c t₀ (n + delivered e t) (step schemas c e t)
trying-Outage schemas c (errs s) t₀ t n o h a m x = errs-Outage schemas c s t₀ t n h a m x
trying-Outage schemas c (opens s) t₀ t n o h a m x = cc
trying-Outage schemas c pauses t₀ t n o h a m x = cc
trying-Outage schemas c resumes t₀ t n o h a m x = cc
trying-Outage schemas c moves t₀ t n o h a m x = cc
trying-Outage schemas c reconnects t₀ t n o h a m x = cc
trying-Outage schemas c (fires k) t₀ t n o h a m x =
    rw add-zero (fires-Outage schemas c k t₀ t n h a m x)
trying-Outage schemas c (message s d) t₀ t n o h a m x = rw add-zero (
    Steady-Outage c t₀ t _ n (message-Steady schemas c s d t)
      (step-IsWired schemas c (message s d) t tt h.wired) h a m x)
trying-Outage schemas c (misses s d) t₀ t n o h a m x = rw add-zero (
    Steady-Outage c t₀ t _ n (misses-Steady schemas c s d t)
      (step-IsWired schemas c (misses s d) t tt h.wired) h a m x)
trying-Outage schemas c ticks t₀ t n o h a m x = rw add-zero (
    Steady-Outage c t₀ t _ n (ticks-Steady schemas c t) (step-IsWired schemas c ticks t tt h.wired)
      h a m x)
trying-Outage schemas c clears t₀ t n o h a m x = rw add-zero (
    Steady-Outage c t₀ t _ n (clears-Steady schemas c t)
      (step-IsWired schemas c clears t tt h.wired) h a m x)

step-Outage :
    (schemas : Schemas) (c : Config) (e : Event) (t₀ t : Tail) (n : ℕ)
    → is_outage e ≡ true
    → Outage c t₀ n t
    → Outage c t₀ (n + delivered e t) (step schemas c e t)
step-Outage schemas c e t₀ t n o (trying h a m x) = trying-Outage schemas c e t₀ t n o h a m x
step-Outage schemas c e t₀ t n o (over q s a x) =
    let still = quiet-Still schemas c e t o q in
    rw (still.none_delivered, add-zero)
      (over still.quiet (still.status ∙ s) a (still.exhausted ∙ x))

run-Outage :
    (schemas : Schemas) (c : Config) (es : List Event) (t₀ t : Tail) (n : ℕ)
    → All (λ e. is_outage e ≡ true) es
    → Outage c t₀ n t
    → Outage c t₀ (n + errors schemas c es t) (run schemas c es t)
unfolding run
run-Outage schemas c [] t₀ t n o h = rw add-zero h
run-Outage schemas c (e ∷ es) t₀ t n o h = rw (← add_assoc) (
    run-Outage schemas c es t₀ (step schemas c e t) (n + delivered e t) o.1
      (step-Outage schemas c e t₀ t n o.0 h))

-- An outage ends. From a tail that has one connection or one retry, and through any events but a
-- connection that opens and acts on the connection, the tail tries on for as many errors as it has
-- attempts left, always with one connection or one retry. It goes offline at the next error, neither
-- earlier nor later, with nothing left open or pending, and tells its owner once.
pub Outage-ends :
    (schemas : Schemas) (c : Config) (es : List Event) (t : Tail)
    → IsTrying t
    → t.attempt ≤ c.max_reconnect_attempts
    → All (λ e. is_outage e ≡ true) es
    → Outage c t (errors schemas c es t) (run schemas c es t)
Outage-ends schemas c es t h m o =
    let start : Outage c t 0 t = trying h (sym (add-zero t.attempt)) m refl in
    subst (λ k. Outage c t k (run schemas c es t)) (zero-add (errors schemas c es t))
      (run-Outage schemas c es t t 0 o start)
