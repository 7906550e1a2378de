-- ===== src/LogTail/Order.antt =====
-- The sequence numbers of the items, by which the list of rows is keyed.
use logalot.LogTail.Ring.Last.{last-eq-drop}
use logalot.LogTail.Ring.{added, extend, feed_of, run-Shows, mount-Shows}
use mathlib.Core.Path.{subst}
use logalot.Base.{
  refl, [], zero, suc, ℕ, ◌≡◌, arith, List, ◌∷◌, ◌++◌, drop, ◌+◌, length, sym, ◌-◌, ◌∙◌,
}
use logalot.LogTail.{
  Schemas, Config, Tail, TailItem, log, gap, flush, connect, on_open, on_message, on_gap, on_error,
  halt, stop, start, pause, resume, change_url, reconnect_now, clear,
}
use logalot.LogTail.Events.{
  Event, opens, message, misses, errs, fires, ticks, pauses, resumes, moves, reconnects, clears,
  step, mount, run,
}

abbrev pub seq_of : TailItem → ℕ
seq_of (log seq event) = seq
seq_of (gap seq reason n) = seq

-- Items that are numbered from `k` on, without a hole, up to `n`.
abbrev pub IsNumbered : ℕ → List TailItem → ℕ → Type 0
IsNumbered k [] n = k ≡ n
IsNumbered k (i ∷ items) n = (seq_of i ≡ k) × IsNumbered (suc k) items n

append-IsNumbered :
    (k m n : ℕ) (xs ys : List TailItem)
    → IsNumbered k xs m
    → IsNumbered m ys n
    → IsNumbered k (xs ++ ys) n
append-IsNumbered k m n [] ys h g = rw h g
append-IsNumbered k m n (x ∷ xs) ys h g = (h.0, append-IsNumbered (suc k) m n xs ys h.1 g)

drop-IsNumbered :
    (j k n : ℕ) (xs : List TailItem) → IsNumbered k xs n → (l : ℕ) × IsNumbered l (drop j xs) n
drop-IsNumbered zero k n xs h = (k, h)
drop-IsNumbered (suc j) k n [] h = (k, h)
drop-IsNumbered (suc j) k n (x ∷ xs) h = drop-IsNumbered j (suc k) n xs h.1

length-IsNumbered : (k n : ℕ) (xs : List TailItem) → IsNumbered k xs n → k + length xs ≡ n
length-IsNumbered k n [] h = omega (arith, h)
length-IsNumbered k n (x ∷ xs) h = omega (arith, length-IsNumbered (suc k) n xs h.1)

split-IsNumbered :
    (k n : ℕ) (xs ys : List TailItem)
    → IsNumbered k (xs ++ ys) n
    → (m : ℕ) × IsNumbered k xs m × (m + length ys ≡ n)
split-IsNumbered k n [] ys h = (k, refl, length-IsNumbered k n ys h)
split-IsNumbered k n (x ∷ xs) ys h =
    let (m, is, e) = split-IsNumbered (suc k) n xs ys h.1 in (m, (h.0, is), e)

stop-seq : (c : Config) (t : Tail) → (stop c t).seq ≡ t.seq
unfolding stop halt flush
stop-seq c t = ground arith

start-seq : (t : Tail) → (start t).seq ≡ t.seq
unfolding start connect
start-seq t = ground arith

added-IsNumbered :
    (schemas : Schemas) (c : Config) (e : Event) (t : Tail)
    → IsNumbered t.seq (added schemas e t) (step schemas c e t).seq
unfolding step
added-IsNumbered schemas c (opens s) t = unfold on_open in ground arith
added-IsNumbered schemas c (message s d) t = unfold on_message in ground arith
added-IsNumbered schemas c (misses s d) t = unfold on_gap in ground arith
added-IsNumbered schemas c (errs s) t = unfold on_error in ground arith
added-IsNumbered schemas c (fires h) t = unfold connect in ground arith
added-IsNumbered schemas c ticks t = unfold flush in ground arith
added-IsNumbered schemas c pauses t = unfold pause in ground (arith, stop-seq c t)
added-IsNumbered schemas c resumes t = unfold resume start connect in ground arith
added-IsNumbered schemas c moves t =
    unfold change_url in ground (arith, stop-seq c t, start-seq (stop c t))
added-IsNumbered schemas c reconnects t = unfold reconnect_now connect in ground arith
added-IsNumbered schemas c clears t = unfold clear in ground arith

extend-IsNumbered :
    (schemas : Schemas) (c : Config) (e : Event) (t : Tail) (feed : List TailItem) (k : ℕ)
    → IsNumbered k feed t.seq
    → (l : ℕ) × IsNumbered l (extend schemas e t feed) (step schemas c e t).seq
extend-IsNumbered schemas c clears t feed k h = ((step schemas c clears t).seq, refl)
extend-IsNumbered schemas c e t feed k h = (
  k,
  append-IsNumbered k t.seq (step schemas c e t).seq feed (added schemas e t) h
      (added-IsNumbered schemas c e t),
)

feed-IsNumbered :
    (schemas : Schemas) (c : Config) (es : List Event) (t : Tail) (feed : List TailItem) (k : ℕ)
    → IsNumbered k feed t.seq
    → (l : ℕ) × IsNumbered l (feed_of schemas c es t feed) (run schemas c es t).seq
unfolding run feed_of
feed-IsNumbered schemas c [] t feed k h = (k, h)
feed-IsNumbered schemas c (e ∷ es) t feed k h =
    let (l, g) = extend-IsNumbered schemas c e t feed k h in
    feed-IsNumbered schemas c es (step schemas c e t) (extend schemas e t feed) l g

mount-seq : mount.seq ≡ 0
unfolding mount start connect
mount-seq = refl

-- In every history the rows that are shown have consecutive sequence numbers: none is missing, twice
-- there or out of order. Those that are pending follow, up to the next number to be given.
pub shown_consecutive :
    (schemas : Schemas) (c : Config) (es : List Event)
    → (k m : ℕ) × IsNumbered k (run schemas c es mount).items m
      × (m + length (run schemas c es mount).pending ≡ (run schemas c es mount).seq)
shown_consecutive schemas c es =
    let t = run schemas c es mount in
    let shows = run-Shows schemas c es mount [] (mount-Shows c) in
    let (l, numbered) = feed-IsNumbered schemas c es mount [] 0 (sym mount-seq) in
    let (m, settled, e) =
      split-IsNumbered l t.seq shows.settled t.pending
        (subst (λ f. IsNumbered l f t.seq) shows.split numbered) in
    let (k, kept) =
      drop-IsNumbered (length shows.settled - c.max_items) l m shows.settled settled in
    (
      k,
      m,
      subst (λ f. IsNumbered k f m) (sym (shows.shown ∙ last-eq-drop c.max_items shows.settled))
          kept,
      e,
    )
