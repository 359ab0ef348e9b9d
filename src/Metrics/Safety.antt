-- ===== src/Metrics/Safety.antt =====
-- metrics.go: whatever is called in whatever order, no method goes through a nil collector, and
-- Shutdown leaves none registered.
use frankenphp.Base.{
  ℕ, ◌≡◌, refl, sym, ap, ◌∙◌, Bool, true, false, List, [], ◌∷◌, Option, none, some, arith,
  Bool-cases, inl, inr,
}
use frankenphp.Base.Int.{ℤ}
use frankenphp.Text.{Bytes}
use frankenphp.Metrics.Defs

-- One call of the interface Metrics or OpcacheMetrics, Shutdown left out.
pub data Call : Type 0 where
  start_worker ready_worker start_worker_request queued_worker_request : Bytes → Call
  dequeued_worker_request opcache_restart : Bytes → Call
  stop_worker : Bytes → Defs.StopReason → Call
  stop_worker_request : Bytes → ℕ → Call
  total_workers start_request stop_request queued_request dequeued_request : Call
  total_threads : ℤ → Call

pub call : Call → Defs.Metrics → Option Defs.Metrics
call (start_worker n) m = Defs.start_worker n m
call (ready_worker n) m = Defs.ready_worker n m
call (stop_worker n r) m = Defs.stop_worker n r m
call total_workers m = some (Defs.total_workers m)
call (total_threads k) m = some (Defs.total_threads k m)
call start_request m = some (Defs.start_request m)
call stop_request m = some (Defs.stop_request m)
call (stop_worker_request n d) m = Defs.stop_worker_request n d m
call (start_worker_request n) m = Defs.start_worker_request n m
call (queued_worker_request n) m = Defs.queued_worker_request n m
call (dequeued_worker_request n) m = Defs.dequeued_worker_request n m
call queued_request m = some (Defs.queued_request m)
call dequeued_request m = some (Defs.dequeued_request m)
call (opcache_restart n) m = Defs.opcache_restart n m

pub calls : List Call → Defs.Metrics → Option Defs.Metrics
calls [] m = some m
calls (c ∷ cs) m = Defs.◌>>=◌ (call c m) (calls cs)

-- The worker vectors are made together, and a collector that is registered has been made.
pub record IsSafe (m : Defs.Metrics) : Type 0 where
  pub ready : Defs.is_nil m.ready_workers ≡ Defs.is_nil m.total_workers
  pub busy : Defs.is_nil m.busy_workers ≡ Defs.is_nil m.total_workers
  pub crashes : Defs.is_nil m.worker_crashes ≡ Defs.is_nil m.total_workers
  pub restarts : Defs.is_nil m.worker_restarts ≡ Defs.is_nil m.total_workers
  pub time : Defs.is_nil m.worker_request_time ≡ Defs.is_nil m.total_workers
  pub count : Defs.is_nil m.worker_request_count ≡ Defs.is_nil m.total_workers
  pub depth : Defs.is_nil m.worker_queue_depth ≡ Defs.is_nil m.total_workers

abbrev pub IsRegistered : Defs.Metrics → Type 0
IsRegistered m =
    (c : Defs.Collector) → m.registered c ≡ true → Defs.is_nil (Defs.vec_of c m) ≡ false

abbrev Ends : (Defs.Metrics → Type 0) → Option Defs.Metrics → Type 0
Ends P none = ⊥
Ends P (some m) = P m

call-IsSafe : (c : Call) (m : Defs.Metrics) → IsSafe m → Ends IsSafe (call c m)
unfolding call Defs.start_worker Defs.ready_worker Defs.stop_worker Defs.total_workers
    Defs.total_threads Defs.start_request Defs.stop_request Defs.stop_worker_request
    Defs.start_worker_request Defs.queued_worker_request Defs.dequeued_worker_request
    Defs.queued_request Defs.dequeued_request Defs.opcache_restart
call-IsSafe (start_worker n) m v = ground arith
call-IsSafe (stop_worker n Defs.crash) m v = ground arith
call-IsSafe (stop_worker n Defs.restart) m v = ground arith
call-IsSafe (stop_worker n Defs.boot_failure) m v = ground arith
call-IsSafe c m v = ground arith

-- The same collectors are registered, and the same have been made.
record SameCollectors (m m' : Defs.Metrics) : Type 0 where
  reg : m'.registered ≡ m.registered
  total : Defs.is_nil m'.total_workers ≡ Defs.is_nil m.total_workers
  opcache : Defs.is_nil m'.opcache_restarts ≡ Defs.is_nil m.opcache_restarts

abbrev makes : Call → Bool
makes total_workers = true
makes _ = false

call-SameCollectors :
    (c : Call) (m : Defs.Metrics) → makes c ≡ false → IsSafe m → Ends (SameCollectors m) (call c m)
unfolding call Defs.start_worker Defs.ready_worker Defs.stop_worker Defs.total_workers
    Defs.total_threads Defs.start_request Defs.stop_request Defs.stop_worker_request
    Defs.start_worker_request Defs.queued_worker_request Defs.dequeued_worker_request
    Defs.queued_request Defs.dequeued_request Defs.opcache_restart
call-SameCollectors (start_worker n) m e v = ground arith
call-SameCollectors (stop_worker n Defs.crash) m e v = ground arith
call-SameCollectors (stop_worker n Defs.restart) m e v = ground arith
call-SameCollectors (stop_worker n Defs.boot_failure) m e v = ground arith
call-SameCollectors c m e v = ground arith

-- Where the collectors are safe and the same, one that is registered is still made.
still_made :
    (k : Defs.Collector) (m m' : Defs.Metrics)
    → IsSafe m
    → IsSafe m'
    → SameCollectors m m'
    → (m.registered k ≡ true → Defs.is_nil (Defs.vec_of k m) ≡ false)
    → m'.registered k ≡ true
    → Defs.is_nil (Defs.vec_of k m') ≡ false
still_made k m m' v v' s h r = go k (h (ap (λ f. f k) (sym s.reg) ∙ r))
  where
    go :
        (j : Defs.Collector)
        → Defs.is_nil (Defs.vec_of j m) ≡ false
        → Defs.is_nil (Defs.vec_of j m') ≡ false
    go Defs.c_total_threads e = refl
    go Defs.c_busy_threads e = refl
    go Defs.c_queue_depth e = refl
    go Defs.c_opcache_restarts e = s.opcache ∙ e
    go Defs.c_total_workers e = s.total ∙ e
    go Defs.c_ready_workers e = ground (arith, v.ready, v'.ready, s.total)
    go Defs.c_busy_workers e = ground (arith, v.busy, v'.busy, s.total)
    go Defs.c_worker_crashes e = ground (arith, v.crashes, v'.crashes, s.total)
    go Defs.c_worker_restarts e = ground (arith, v.restarts, v'.restarts, s.total)
    go Defs.c_worker_request_time e = ground (arith, v.time, v'.time, s.total)
    go Defs.c_worker_request_count e = ground (arith, v.count, v'.count, s.total)
    go Defs.c_worker_queue_depth e = ground (arith, v.depth, v'.depth, s.total)

made_all :
    (k : Defs.Collector) (m : Defs.Metrics)
    → (m.registered k ≡ true → Defs.is_nil (Defs.vec_of k m) ≡ false)
    → (Defs.total_workers m).registered k ≡ true
    → Defs.is_nil (Defs.vec_of k (Defs.total_workers m)) ≡ false
unfolding Defs.total_workers
made_all Defs.c_total_threads m h r = refl
made_all k m h r = ground (arith, h)

pub record IsSound (m : Defs.Metrics) : Type 0 where
  pub safe : IsSafe m
  pub made : IsRegistered m

both-IsSound :
    (m : Defs.Metrics) (o : Option Defs.Metrics)
    → IsSound m
    → Ends IsSafe o
    → Ends (SameCollectors m) o
    → Ends IsSound o
both-IsSound m none v p s = p
both-IsSound m (some m') v p s = record {
  safe = p;
  made = λ k. still_made k m m' v.safe p s (v.made k);
}

-- Unless the call makes the worker vectors.
call-IsSound : (c : Call) (m : Defs.Metrics) → IsSound m → Ends IsSound (call c m)
call-IsSound c m v = elim (Bool-cases (makes c)) [
  | inl h ↦ by_total c h
  | inr h ↦ both-IsSound m (call c m) v (call-IsSafe c m v.safe) (call-SameCollectors c m h v.safe)
]
  where
    by_total : (d : Call) → makes d ≡ true → Ends IsSound (call d m)
    by_total total_workers h =
        unfold call in
        record {
          safe = unfold call in call-IsSafe total_workers m v.safe;
          made = λ k. made_all k m (v.made k);
        }
    by_total (start_worker n) h = cc
    by_total (ready_worker n) h = cc
    by_total (start_worker_request n) h = cc
    by_total (queued_worker_request n) h = cc
    by_total (dequeued_worker_request n) h = cc
    by_total (opcache_restart n) h = cc
    by_total (stop_worker n r) h = cc
    by_total (stop_worker_request n d) h = cc
    by_total start_request h = cc
    by_total stop_request h = cc
    by_total queued_request h = cc
    by_total dequeued_request h = cc
    by_total (total_threads k) h = cc

calls-bind :
    (cs : List Call) (o : Option Defs.Metrics)
    → ((m : Defs.Metrics) → IsSound m → Ends IsSound (calls cs m))
    → Ends IsSound o
    → Ends IsSound (Defs.◌>>=◌ o (calls cs))
calls-bind cs none f h = h
calls-bind cs (some m) f h = f m h

calls-IsSound : (cs : List Call) (m : Defs.Metrics) → IsSound m → Ends IsSound (calls cs m)
unfolding calls
calls-IsSound [] m v = v
calls-IsSound (c ∷ cs) m v = calls-bind cs (call c m) (calls-IsSound cs) (call-IsSound c m v)

new-IsSound : (hook : Bool) → IsSound (Defs.new_prometheus_metrics hook)
unfolding Defs.new_prometheus_metrics
new-IsSound hook = record {
  safe = record {
    ready = refl;
    busy = refl;
    crashes = refl;
    restarts = refl;
    time = refl;
    count = refl;
    depth = refl;
  };
  made = λ k. go k;
}
  where
    go :
        (k : Defs.Collector)
        → (Defs.new_prometheus_metrics hook).registered k ≡ true
        → Defs.is_nil (Defs.vec_of k (Defs.new_prometheus_metrics hook)) ≡ false
    go Defs.c_total_threads r = refl
    go k r = ground arith

Ends-some :
    (o : Option Defs.Metrics) → Ends IsSound o → (m : Defs.Metrics) × (o ≡ some m) × IsSound m
Ends-some none h = absurd h
Ends-some (some m) h = (m, refl, h)

shutdown_all :
    (m : Defs.Metrics)
    → IsRegistered m
    → (k : Defs.Collector) → (Defs.shutdown m).registered k ≡ false
unfolding Defs.shutdown
shutdown_all m h k = ground (arith, h k)

-- Whatever calls are made in whatever order, with the workers' collectors made or not, none of them
-- goes through a nil collector, and a Shutdown after them leaves no collector registered.
pub calls_safe :
    (hook : Bool) (cs : List Call)
    → (m : Defs.Metrics) × (calls cs (Defs.new_prometheus_metrics hook) ≡ some m)
      × ((k : Defs.Collector) → (Defs.shutdown m).registered k ≡ false)
calls_safe hook cs =
    let (m, e, v) =
      Ends-some (calls cs (Defs.new_prometheus_metrics hook))
        (calls-IsSound cs (Defs.new_prometheus_metrics hook) (new-IsSound hook)) in
    (m, e, shutdown_all m v.made)
