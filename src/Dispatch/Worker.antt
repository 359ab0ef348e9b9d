-- ===== src/Dispatch/Worker.antt =====
-- worker.go, `handleRequest` and `isAtThreadLimit`: one request for a worker, against what its
-- selects meet. `queued` is `queuedRequests`; the gauges are those of the worker's name. Other
-- requests change the counters by amounts of their own, which commute with these.
use frankenphp.Base.{
  ℕ, Bool, true, false, not, ◌&&◌, List, [], ◌∷◌, any, if◌then◌else◌, Option, none, some, leb,
}
use frankenphp.Base.Int.{ℤ, pos, negsuc, leb_ℤ}
use frankenphp.Text.{Bytes}
use frankenphp.Metrics.{
  Metrics, start_worker_request, stop_worker_request, queued_worker_request,
  dequeued_worker_request, inc, dec, ◌>>=◌,
}
use frankenphp.Dispatch.Regular.{Choice, taken, scaled, cancelled, timed_out}

pub data Answer : Type 0 where
  served gave_up not_running max_wait_time_exceeded : Answer

pub record Counters : Type 0 where
  pub queued : ℤ
  pub metrics : Metrics
  pub rejected : Bool

-- One round of the loop: how many threads the worker has, whether it is stopped, and the select's
-- case.
pub record Round : Type 0 where
  pub threads : ℕ
  pub stopped : Bool
  pub choice : Choice

-- `maxThreads` is not negative.
unfoldable pub is_at_thread_limit : ℕ → ℕ → Bool
is_at_thread_limit max_threads threads =
    if leb max_threads 0 then false else leb max_threads threads

module _ (name : Bytes) (duration : ℕ) (max_threads : ℕ) where
  -- Out of the queue, and the request's end.
  unfoldable pub leave : Counters → Option Counters
  leave d = do
    m1 ← dequeued_worker_request name d.metrics
    m2 ← stop_worker_request name duration m1
    some (record d { queued = dec d.queued; metrics = m2 })

  -- The cases of the select, in the order of the source. `scaleChan` is nil at the thread limit, and
  -- that case is then never taken: the round has to be met again.
  unfoldable pub select :
      Round → (Unit {0} → Option (Answer × Counters)) → Counters → Option (Answer × Counters)
  select round again d = elim round.choice [
    | taken ↦ (do d' ← leave d; some (served, d'))
    | scaled ↦
        if round.stopped && not (is_at_thread_limit max_threads round.threads)
        then (do d' ← leave d; some (not_running, d'))
        else again tt
    | cancelled ↦ (do d' ← leave d; some (gave_up, d'))
    | timed_out ↦ (do d' ← leave d; some (max_wait_time_exceeded, record d' { rejected = true }))
  ]

  -- `none`: it still waits when the list ends.
  unfoldable pub wait_in_queue : List Round → Counters → Option (Answer × Counters)
  wait_in_queue [] d = none
  wait_in_queue (round ∷ rounds) d = let rest = wait_in_queue rounds d in select round (λ _. rest) d

  abbrev pub is_zero : ℤ → Bool
  is_zero (pos n) = leb_ℤ (pos n) (pos 0)
  is_zero (negsuc n) = false

  -- `free` says of each of the worker's threads whether it receives at once.
  unfoldable pub handle_request : List Bool → List Round → Counters → Option (Answer × Counters)
  handle_request free rounds d = do
    m1 ← start_worker_request name d.metrics
    if is_zero d.queued && any (λ f. f) free
        then (do
          m2 ← stop_worker_request name duration m1
          some (served, record d { metrics = m2 }))
        else (do
          m2 ← queued_worker_request name m1
          wait_in_queue rounds (record d { queued = inc d.queued; metrics = m2 }))
