-- ===== src/Dispatch/WorkerLaws.antt =====
-- worker.go, `handleRequest`: the queue counter and the worker's gauges balance on every return.
use frankenphp.Base.{
  ℕ, ◌≡◌, ◌≢◌, refl, sym, ◌∙◌, ap, Bool, true, not, ◌&&◌, List, [], ◌∷◌, any, Option, none, some,
  arith, inl, inr, Bool-cases, Option-cases,
}
use mathlib.Core.Path.{fun_ext, subst}
use frankenphp.Base.Int.{ℤ, pos, ◌+ℤ◌, ◌-ℤ◌}
use frankenphp.Text.{Bytes, same}
use frankenphp.Metrics.{
  Metrics, Vec, start_worker_request, stop_worker_request, queued_worker_request,
  dequeued_worker_request, inc, dec, ◌>>=◌, update,
}
use frankenphp.Metrics.Safety.{IsSafe}
use frankenphp.Dispatch.Regular.{Choice, taken, scaled, cancelled, timed_out}
use frankenphp.Dispatch.Worker.{
  Answer, served, gave_up, not_running, max_wait_time_exceeded, Counters, Round, leave, select,
  is_at_thread_limit, is_zero, wait_in_queue, handle_request,
}

dec-inc : (a : ℤ) → dec (inc a) ≡ a
unfolding ◌+ℤ◌ ◌-ℤ◌
dec-inc a = ground arith

update_back : (name : Bytes) (v : Bytes → ℤ) → update name dec (update name inc v) ≡ v
update_back name v =
    fun_ext
      λ n. elim (Bool-cases (same n name)) [ inl h ↦ rw h (rw (dec-inc (v n))) | inr h ↦ rw h ]

-- The gauges.
abbrev pub Gauges : Metrics → Metrics → Type 0
Gauges m m' =
    (m'.busy_workers ≡ m.busy_workers)
    × (m'.worker_queue_depth ≡ m.worker_queue_depth)
    × (m'.busy_threads ≡ m.busy_threads)
    × (m'.ready_workers ≡ m.ready_workers)
    × (m'.total_workers ≡ m.total_workers)
    × (m'.total_threads ≡ m.total_threads)
    × (m'.queue_depth ≡ m.queue_depth)

module _ (name : Bytes) (duration : ℕ) (m : Metrics) where
  -- Into the queue and out of it, and the same without the queue.
  through_queue : Option Metrics
  through_queue = do
    m1 ← start_worker_request name m
    m2 ← queued_worker_request name m1
    m3 ← dequeued_worker_request name m2
    stop_worker_request name duration m3

  past_queue : Option Metrics
  past_queue = do m1 ← start_worker_request name m; stop_worker_request name duration m1

  by_vectors :
      (busy depth time count : Vec)
      → m.busy_workers ≡ busy
      → m.worker_queue_depth ≡ depth
      → m.worker_request_time ≡ time
      → m.worker_request_count ≡ count
      → IsSafe m
      → ((m' : Metrics) × (through_queue ≡ some m') × Gauges m m')
        × ((m' : Metrics) × (past_queue ≡ some m') × Gauges m m')
  unfolding through_queue past_queue start_worker_request stop_worker_request queued_worker_request
      dequeued_worker_request
  by_vectors none none none none eb ed et ec v = (
    (m, ground arith, (refl, refl, refl, refl, refl, refl, refl)),
    (m, ground arith, (refl, refl, refl, refl, refl, refl, refl)),
  )
  by_vectors (some b) (some d) (some t) (some c) eb ed et ec v =
      let busy = ap some (update_back name b) ∙ sym eb in
      let moved = record m {
        worker_request_count = some (update name inc c);
        busy_workers = some (update name dec (update name inc b));
        worker_request_time = some (update name (λ n. n +ℤ pos duration) t);
      } in
      (
        (
          record moved { worker_queue_depth = some (update name dec (update name inc d)) },
          ground arith,
          (busy, ap some (update_back name d) ∙ sym ed, refl, refl, refl, refl, refl),
        ),
        (moved, ground arith, (busy, refl, refl, refl, refl, refl, refl)),
      )
  by_vectors busy depth time count eb ed et ec v =
      absurd (ground (arith, v.busy, v.depth, v.time, v.count))

  cycle :
      IsSafe m
      → ((m' : Metrics) × (through_queue ≡ some m') × Gauges m m')
        × ((m' : Metrics) × (past_queue ≡ some m') × Gauges m m')
  cycle v =
      by_vectors m.busy_workers m.worker_queue_depth m.worker_request_time m.worker_request_count
        refl refl refl refl v

some_inj {ℓ} : {A : Type ℓ} {a b : A} → some a ≡ some b → a ≡ b
some_inj h = cc

abbrev Outcome : Type 0
Outcome = Option (Answer × Counters)

module _ (name : Bytes) (duration max_threads : ℕ) where
  abbrev left : Counters → Option Counters
  left = leave name duration max_threads

  -- Every return from the queue is a `leave`.
  abbrev Left : Counters → Answer → Counters → Type 0
  Left d r d' =
      (d'' : Counters) × (left d ≡ some d'')
      × (d'.queued ≡ d''.queued)
      × (d'.metrics ≡ d''.metrics)
      × (r ≡ max_wait_time_exceeded → d'.rejected ≡ true)
      × (r ≢ max_wait_time_exceeded → d'.rejected ≡ d''.rejected)

  left_by :
      (d : Counters) (o : Option Counters) (r : Answer) (f : Counters → Counters) {r' : Answer}
      {d' : Counters}
      → left d ≡ o
      → ((d'' : Counters)
          → ((f d'').queued ≡ d''.queued)
            × ((f d'').metrics ≡ d''.metrics)
            × (r ≡ max_wait_time_exceeded → (f d'').rejected ≡ true)
            × (r ≢ max_wait_time_exceeded → (f d'').rejected ≡ d''.rejected))
      → ◌>>=◌ {B = Answer × Counters} o (λ x. some (r, f x)) ≡ some (r', d')
      → Left d r' d'
  left_by d none r f e k h = cc
  left_by d (some x) r f e k h =
      let (q, m, y, n) = k x in
      subst (λ (t : Answer × Counters). Left d t.0 t.1) (some_inj h) (x, e, q, m, y, n)

  select-Left :
      (round : Round) (again : Unit {0} → Outcome) (d : Counters) (r : Answer) (d' : Counters)
      (c : Choice)
      → round.choice ≡ c
      → (again tt ≡ some (r, d') → Left d r d')
      → select name duration max_threads round again d ≡ some (r, d')
      → Left d r d'
  unfolding select
  select-Left round again d r d' taken e rec h =
      left_by d (left d) served (λ x. x) refl (λ x. (refl, refl, λ k. cc, λ k. refl)) (ground arith)
  select-Left round again d r d' scaled e rec h =
      elim (Bool-cases (round.stopped && not (is_at_thread_limit max_threads round.threads))) [
        | inl k ↦
            left_by d (left d) not_running (λ x. x) refl (λ x. (refl, refl, λ q. cc, λ q. refl))
              (ground arith)
        | inr k ↦ rec (ground arith)
      ]
  select-Left round again d r d' cancelled e rec h =
      left_by d (left d) gave_up (λ x. x) refl (λ x. (refl, refl, λ k. cc, λ k. refl))
        (ground arith)
  select-Left round again d r d' timed_out e rec h =
      left_by d (left d) max_wait_time_exceeded (λ x. record x { rejected = true }) refl
        (λ x. (refl, refl, λ k. refl, λ k. absurd (k refl))) (ground arith)

  wait_in_queue-Left :
      (rounds : List Round) (d : Counters) (r : Answer) (d' : Counters)
      → wait_in_queue name duration max_threads rounds d ≡ some (r, d')
      → Left d r d'
  unfolding wait_in_queue
  wait_in_queue-Left [] d r d' h = cc
  wait_in_queue-Left (round ∷ rounds) d r d' h =
      select-Left round (λ _. wait_in_queue name duration max_threads rounds d) d r d' round.choice
        refl (wait_in_queue-Left rounds d r d') h

  -- What the statement below says of a return.
  abbrev pub Balanced : Counters → Answer → Counters → Type 0
  Balanced d r d' =
      (d'.queued ≡ d.queued)
      × Gauges d.metrics d'.metrics
      × (r ≡ max_wait_time_exceeded → d'.rejected ≡ true)
      × (r ≢ max_wait_time_exceeded → d'.rejected ≡ d.rejected)

  Balanced-queue :
      (d d' : Counters) (r : Answer) (m1 m2 : Metrics)
      → IsSafe d.metrics
      → start_worker_request name d.metrics ≡ some m1
      → queued_worker_request name m1 ≡ some m2
      → Left (record d { queued = inc d.queued; metrics = m2 }) r d'
      → Balanced d r d'
  unfolding leave through_queue
  Balanced-queue d d' r m1 m2 v e1 e2 (d'', l, q, k, y, n) =
      let ((m', p, g), _) = cycle name duration d.metrics v in
      elim (Option-cases (dequeued_worker_request name m2)) [
        | inl e3 ↦ absurd (ground arith)
        | inr (m3, e3) ↦ elim (Option-cases (stop_worker_request name duration m3)) [
          | inl e4 ↦ absurd (ground arith)
          | inr (m4, e4) ↦
              let z : m4 ≡ m' = ground arith in
              let w : d'.metrics ≡ m' = ground arith in
              (ground (arith, dec-inc d.queued), rw w g, y, λ f. n f ∙ ground arith)
        ]
      ]

  Balanced-at_once :
      (d d' : Counters) (r : Answer) (m1 m2 : Metrics)
      → IsSafe d.metrics
      → start_worker_request name d.metrics ≡ some m1
      → stop_worker_request name duration m1 ≡ some m2
      → ◌≡◌ {A = Outcome} (some (served, record d { metrics = m2 })) (some (r, d'))
      → Balanced d r d'
  unfolding past_queue
  Balanced-at_once d d' r m1 m2 v e1 e2 h =
      let (_, (m', p, g)) = cycle name duration d.metrics v in
      let z : m2 ≡ m' = ground arith in
      let w : d'.metrics ≡ m' = ground arith in
      (ground arith, rw w g, λ f. ground arith, λ f. ground arith)

  -- From metrics whose collectors of workers are all made or all not, which is what IsSafe says: however
  -- a request for a worker returns (at once, from the queue,
  -- because the worker was stopped, cancelled or timed out), the queue counter, the gauges of busy
  -- workers and of their queue's depth, of ready and of all workers, of busy and of all threads, and of
  -- the depth of the other queue are what they were before it, and the request is rejected exactly where ErrMaxWaitTimeExceeded is returned.
  pub handle_request_balances :
      (free : List Bool) (rounds : List Round) (d d' : Counters) (r : Answer)
      → IsSafe d.metrics
      → handle_request name duration max_threads free rounds d ≡ some (r, d')
      → Balanced d r d'
  unfolding handle_request
  handle_request_balances free rounds d d' r v h =
      elim (Option-cases (start_worker_request name d.metrics)) [
        | inl e1 ↦ absurd (ground arith)
        | inr (m1, e1) ↦
            elim (Bool-cases (is_zero name duration max_threads d.queued && any (λ f. f) free)) [
              | inl c ↦ elim (Option-cases (stop_worker_request name duration m1)) [
                | inl e2 ↦ absurd (ground arith)
                | inr (m2, e2) ↦ Balanced-at_once d d' r m1 m2 v e1 e2 (ground arith)
              ]
              | inr c ↦ elim (Option-cases (queued_worker_request name m1)) [
                | inl e2 ↦ absurd (ground arith)
                | inr (m2, e2) ↦ Balanced-queue d d' r m1 m2 v e1 e2 (
                    wait_in_queue-Left rounds (record d { queued = inc d.queued; metrics = m2 }) r
                      d' (ground arith))
              ]
            ]
      ]
