-- ===== src/LogTail/Offline.antt =====
-- An outage of the live tail: errors with no reopened connection in between.
pub mod History
use logalot.LogTail.Wires.History.{unarmed}
use logalot.LogTail.Wires.{IsWired, IsQuiet, shut}
use mathlib.Core.Path.{subst}
use native.Mathlib.Nat.{add-zero, add_assoc, zero-add}
use logalot.Base.{
  true, false, [], if◌then◌else◌, Bool, ℕ, List, length, ◌≡◌, arith, ◌∷◌, ◌+◌, ◌≤◌, ◌∙◌, some, inl,
  inr, delete_where, if_cases, Bool-cases, leb, refl, Text, count_where, All, sym,
}
use logalot.LogTail.{
  Schemas, Config, Tail, TailStatus, flush, connect, on_message, on_gap, on_error, clear,
}
use logalot.LogTail.Events.{
  Event, opens, message, misses, errs, fires, ticks, pauses, resumes, moves, reconnects, clears,
  step, run, is_opened,
}

-- What happens in an outage: anything but a connection that opens, and the user's and the page's acts
-- on the connection.
abbrev pub is_outage : Event → Bool
is_outage (opens s) = false
is_outage (message s d) = true
is_outage (misses s d) = true
is_outage (errs s) = true
is_outage (fires h) = true
is_outage ticks = true
is_outage pauses = false
is_outage resumes = false
is_outage moves = false
is_outage reconnects = false
is_outage clears = true

-- The errors that are dispatched.
abbrev pub delivered : Event → Tail → ℕ
delivered (errs s) t = if is_opened s t then 1 else 0
delivered _ t = 0

abbrev pub errors : Schemas → Config → List Event → Tail → ℕ
errors schemas c [] t = 0
errors schemas c (e ∷ es) t = delivered e t + errors schemas c es (step schemas c e t)

-- One EventSource is open or one timeout is pending.
pub record IsTrying (t : Tail) : Type 0 where
  pub wired : IsWired t
  pub one : length t.opened + length t.timeouts ≡ 1

-- After `n` errors from `t` on: the tail tries on, having counted them all; or it has given up, at the
-- error after the last attempt, and has told so once.
pub data Outage (c : Config) (t : Tail) (n : ℕ) (t' : Tail) : Type 0 where
  trying :
      IsTrying t'
      → t'.attempt ≡ t.attempt + n
      → t'.attempt ≤ c.max_reconnect_attempts
      → t'.exhausted ≡ t.exhausted
      → Outage c t n t'
  over :
      IsQuiet t'
      → t'.status ≡ TailStatus.offline
      → t.attempt + n ≡ c.max_reconnect_attempts + 1
      → t'.exhausted ≡ t.exhausted + 1
      → Outage c t n t'

pub record Still (e : Event) (t t' : Tail) : Type 0 where
  pub quiet : IsQuiet t'
  pub status : t'.status ≡ t.status
  pub exhausted : t'.exhausted ≡ t.exhausted
  pub none_delivered : delivered e t ≡ 0

-- Where nothing is open or pending, an outage changes nothing more.
pub quiet-Still :
    (schemas : Schemas) (c : Config) (e : Event) (t : Tail)
    → is_outage e ≡ true
    → IsQuiet t
    → Still e t (step schemas c e t)
unfolding step
quiet-Still schemas c (opens s) t o q = cc
quiet-Still schemas c (message s d) t o q = ground (arith, shut s t q.opened)
quiet-Still schemas c (misses s d) t o q = ground (arith, shut s t q.opened)
quiet-Still schemas c (errs s) t o q = ground (arith, shut s t q.opened)
quiet-Still schemas c (fires h) t o q = ground (arith, unarmed h t q.timeouts)
quiet-Still schemas c ticks t o q = unfold flush in ground arith
quiet-Still schemas c clears t o q = unfold clear in ground arith
quiet-Still schemas c pauses t o q = cc
quiet-Still schemas c resumes t o q = cc
quiet-Still schemas c moves t o q = cc
quiet-Still schemas c reconnects t o q = cc

pub record Steady (t t' : Tail) : Type 0 where
  pub opened : t'.opened ≡ t.opened
  pub timeouts : t'.timeouts ≡ t.timeouts
  pub attempt : t'.attempt ≡ t.attempt
  pub exhausted : t'.exhausted ≡ t.exhausted

pub message-Steady :
    (schemas : Schemas) (c : Config) (s : ℕ) (d : Text) (t : Tail)
    → Steady t (step schemas c (message s d) t)
unfolding step on_message
message-Steady schemas c s d t = ground arith

pub misses-Steady :
    (schemas : Schemas) (c : Config) (s : ℕ) (d : Text) (t : Tail)
    → Steady t (step schemas c (misses s d) t)
unfolding step on_gap
misses-Steady schemas c s d t = ground arith

pub ticks-Steady : (schemas : Schemas) (c : Config) (t : Tail) → Steady t (step schemas c ticks t)
unfolding step flush
ticks-Steady schemas c t = ground arith

pub clears-Steady : (schemas : Schemas) (c : Config) (t : Tail) → Steady t (step schemas c clears t)
unfolding step clear
clears-Steady schemas c t = ground arith
