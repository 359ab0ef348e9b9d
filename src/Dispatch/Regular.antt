-- ===== src/Dispatch/Regular.antt =====
-- threadregular.go, `handleRequestWithRegularPHPThreads`: one request, against what its selects
-- meet. `queued` is `queuedRegularThreads`. Other requests change the counters by amounts of their
-- own, which commute with these; the theorem is about this request's share.
use frankenphp.Base.{
  ◌≡◌, refl, ◌∙◌, Bool, true, false, ◌&&◌, ◌≢◌, List, [], ◌∷◌, any, if◌then◌else◌, Option, none,
  some, arith, inl, inr, Bool-cases,
}
use mathlib.Core.Path.{subst}
use frankenphp.Base.Int.{ℤ, pos, negsuc, ◌+ℤ◌, ◌-ℤ◌, leb_ℤ}
use frankenphp.Metrics.{
  Metrics, start_request, stop_request, queued_request, dequeued_request, inc, dec,
}

-- The case that a select takes.
pub data Choice : Type 0 where
  taken : Choice  -- a thread receives the request
  scaled : Choice  -- the scaler receives it
  cancelled : Choice  -- the client's context is done
  timed_out : Choice  -- max_wait_time has passed

pub data Served : Type 0 where
  served : Served
  gave_up : Served  -- nil is returned, and no thread has seen the request
  max_wait_time_exceeded : Served

pub record Counters : Type 0 where
  pub queued : ℤ
  pub metrics : Metrics
  pub rejected : Bool

-- Out of the queue, and the request's end.
abbrev leave : Counters → Counters
leave d = record d { queued = dec d.queued; metrics = stop_request (dequeued_request d.metrics) }

-- The loop over selects; `none`: it still waits when the list ends.
unfoldable pub wait_in_queue : List Choice → Counters → Option (Served × Counters)
wait_in_queue [] d = none
wait_in_queue (taken ∷ cs) d = some (served, leave d)
wait_in_queue (scaled ∷ cs) d = wait_in_queue cs d
wait_in_queue (cancelled ∷ cs) d = some (gave_up, leave d)
wait_in_queue (timed_out ∷ cs) d =
    some (max_wait_time_exceeded, record (leave d) { rejected = true })

abbrev is_zero : ℤ → Bool
is_zero (pos n) = leb_ℤ (pos n) (pos 0)
is_zero (negsuc n) = false

-- `free` says of each regular thread whether it receives at once.
unfoldable pub handle_request : List Bool → List Choice → Counters → Option (Served × Counters)
unfolding wait_in_queue
handle_request free choices d =
    let d1 = record d { metrics = start_request d.metrics } in
    if is_zero d1.queued && any (λ f. f) free
    then some (served, record d1 { metrics = stop_request d1.metrics })
    else wait_in_queue choices
        (record d1 { queued = inc d1.queued; metrics = queued_request d1.metrics })

dec-inc : (a : ℤ) → dec (inc a) ≡ a
unfolding ◌+ℤ◌ ◌-ℤ◌
dec-inc a = ground arith

-- All that a request has counted up is counted down again.
pub record Restored (d d' : Counters) : Type 0 where
  pub queued : d'.queued ≡ d.queued
  pub metrics : d'.metrics ≡ d.metrics

Restored-leave :
    (d : Counters)
    → Restored d (
        leave
          (record d { queued = inc d.queued; metrics = queued_request (start_request d.metrics) }))
unfolding stop_request start_request queued_request dequeued_request
Restored-leave d = record {
  queued = dec-inc d.queued;
  metrics = rw (dec-inc d.metrics.busy_threads, dec-inc d.metrics.queue_depth);
}

-- What a return leaves behind.
abbrev Leaves : Counters → Option (Served × Counters) → Type 0
Leaves d none = Unit
Leaves d (some (r, d')) =
    Restored d d'
    × ((r ≡ max_wait_time_exceeded → d'.rejected ≡ true)
        × (r ≢ max_wait_time_exceeded → d'.rejected ≡ d.rejected))

wait_in_queue-Leaves :
    (choices : List Choice) (d : Counters)
    → Leaves d (
        wait_in_queue choices
          (record d { queued = inc d.queued; metrics = queued_request (start_request d.metrics) }))
unfolding wait_in_queue
wait_in_queue-Leaves [] d = tt
wait_in_queue-Leaves (taken ∷ cs) d = (Restored-leave d, (λ h. cc, λ h. refl))
wait_in_queue-Leaves (scaled ∷ cs) d = wait_in_queue-Leaves cs d
wait_in_queue-Leaves (cancelled ∷ cs) d = (Restored-leave d, (λ h. cc, λ h. refl))
wait_in_queue-Leaves (timed_out ∷ cs) d =
    let r = Restored-leave d in
    (record { queued = r.queued; metrics = r.metrics }, (λ h. refl, λ h. absurd (h refl)))

at_once-Leaves :
    (d : Counters) → Restored d (record d { metrics = stop_request (start_request d.metrics) })
unfolding start_request stop_request
at_once-Leaves d = record { queued = refl; metrics = rw (dec-inc d.metrics.busy_threads) }

handle_request-Leaves :
    (free : List Bool) (choices : List Choice) (d : Counters)
    → Leaves d (handle_request free choices d)
unfolding handle_request
handle_request-Leaves free choices d = elim (Bool-cases (is_zero d.queued && any (λ f. f) free)) [
  | inl h ↦ rw h (at_once-Leaves d, (λ e. cc, λ e. refl))
  | inr h ↦ rw h (wait_in_queue-Leaves choices d)
]

Leaves-some :
    (d : Counters) (o : Option (Served × Counters)) {r : Served} {d' : Counters}
    → Leaves d o
    → o ≡ some (r, d')
    → Leaves d (some (r, d'))
Leaves-some d o h e = subst (Leaves d) e h

-- However a request returns, at once, from the queue, cancelled or timed out, and however often it
-- asked for scaling, the queue counter and every gauge are what they were before it, and the request
-- is rejected exactly where ErrMaxWaitTimeExceeded is returned.
pub handle_request_restores :
    (free : List Bool) (choices : List Choice) (d d' : Counters) (r : Served)
    → handle_request free choices d ≡ some (r, d')
    → Restored d d'
      × ((r ≡ max_wait_time_exceeded → d'.rejected ≡ true)
          × (r ≢ max_wait_time_exceeded → d'.rejected ≡ d.rejected))
handle_request_restores free choices d d' r h =
    Leaves-some d (handle_request free choices d) (handle_request-Leaves free choices d) h

-- A choice that ends the wait.
abbrev pub ends_wait : Choice → Bool
ends_wait scaled = false
ends_wait _ = true

wait_in_queue-returns :
    (choices : List Choice) (d : Counters)
    → any ends_wait choices ≡ true
    → (r : Served) × (d' : Counters) × (wait_in_queue choices d ≡ some (r, d'))
unfolding wait_in_queue
wait_in_queue-returns [] d h = cc
wait_in_queue-returns (taken ∷ cs) d h = (served, leave d, refl)
wait_in_queue-returns (scaled ∷ cs) d h = wait_in_queue-returns cs d h
wait_in_queue-returns (cancelled ∷ cs) d h = (gave_up, leave d, refl)
wait_in_queue-returns (timed_out ∷ cs) d h =
    (max_wait_time_exceeded, record (leave d) { rejected = true }, refl)

queue_entered : Counters → Counters
queue_entered d = record d {
  queued = inc d.queued;
  metrics = queued_request (start_request d.metrics);
}

handle_request-queued :
    (free : List Bool) (choices : List Choice) (d : Counters)
    → (is_zero d.queued && any (λ f. f) free) ≡ false
    → handle_request free choices d ≡ wait_in_queue choices (queue_entered d)
unfolding handle_request queue_entered
handle_request-queued free choices d h = rw h

-- A request returns as soon as a thread takes it, the client goes, or the wait times out; asking for
-- scaling alone never ends it.
pub handle_request_returns :
    (free : List Bool) (choices : List Choice) (d : Counters)
    → any ends_wait choices ≡ true
    → (r : Served) × (d' : Counters) × (handle_request free choices d ≡ some (r, d'))
handle_request_returns free choices d h =
    elim (Bool-cases (is_zero d.queued && any (λ f. f) free)) [
      | inl e ↦ (
        served,
        record d { metrics = stop_request (start_request d.metrics) },
        unfold handle_request in rw e,
      )
      | inr e ↦
          let (r, d', k) = wait_in_queue-returns choices (queue_entered d) h in
          (r, d', handle_request-queued free choices d e ∙ k)
    ]
