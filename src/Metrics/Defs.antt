-- ===== src/Metrics/Defs.antt =====
-- metrics.go, `PrometheusMetrics`. A vector of gauges or counters is a function of the label, `none`
-- for a nil pointer; a method answers `none` where it would call through a nil pointer. Durations are
-- whole nanoseconds. What the registry holds is a set of collectors.
use frankenphp.Base.{ℕ, Bool, true, false, if◌then◌else◌, Option, none, some}
use frankenphp.Base.Int.{ℤ, pos, ◌+ℤ◌, ◌-ℤ◌}
use frankenphp.Text.{Bytes, same}

pub data StopReason : Type 0 where
  crash restart boot_failure : StopReason

abbrev pub Vec : Type 0
Vec = Option (Bytes → ℤ)

pub data Collector : Type 0 where
  c_total_threads c_busy_threads c_queue_depth c_opcache_restarts : Collector
  c_total_workers c_ready_workers c_busy_workers c_worker_crashes : Collector
  c_worker_restarts c_worker_request_time c_worker_request_count c_worker_queue_depth : Collector

pub record Metrics : Type 0 where
  pub registered : Collector → Bool
  pub total_threads : ℤ
  pub busy_threads : ℤ
  pub queue_depth : ℤ
  pub opcache_restarts : Vec
  pub total_workers : Vec
  pub ready_workers : Vec
  pub busy_workers : Vec
  pub worker_crashes : Vec
  pub worker_restarts : Vec
  pub worker_request_time : Vec
  pub worker_request_count : Vec
  pub worker_queue_depth : Vec

infixl 5 ◌>>=◌
abbrev pub ◌>>=◌ {ℓ κ} : {A : Type ℓ} {B : Type κ} → Option A → (A → Option B) → Option B
some a >>= f = f a
none >>= f = none

abbrev pub one : ℤ
one = pos 1

abbrev pub new_vec : Bytes → ℤ
new_vec name = pos 0

-- `WithLabelValues(name).Add(by)`, and the same with a minus.
abbrev pub update : Bytes → (ℤ → ℤ) → (Bytes → ℤ) → Bytes → ℤ
update name by v n = if same n name then by (v n) else v n

abbrev pub with_label : Bytes → (ℤ → ℤ) → Vec → Option Vec
with_label name by none = none
with_label name by (some v) = some (some (update name by v))

abbrev pub inc : ℤ → ℤ
inc a = a +ℤ one

abbrev pub dec : ℤ → ℤ
dec a = a -ℤ one

abbrev pub is_nil : Vec → Bool
is_nil none = true
is_nil (some v) = false

unfoldable pub start_worker : Bytes → Metrics → Option Metrics
start_worker name m =
    let m' = record m { busy_threads = inc m.busy_threads } in
    if is_nil m.total_workers then some m' else (do
      total ← with_label name inc m.total_workers
      some (record m' { total_workers = total }))

unfoldable pub ready_worker : Bytes → Metrics → Option Metrics
ready_worker name m =
    if is_nil m.total_workers
    then some m
    else (do ready ← with_label name inc m.ready_workers; some (record m { ready_workers = ready }))

abbrev drop_ready : StopReason → Bytes → Metrics → Option Metrics
drop_ready boot_failure name m = some m
drop_ready _ name m = do
  ready ← with_label name dec m.ready_workers
  some (record m { ready_workers = ready })

abbrev count_stop : StopReason → Bytes → Metrics → Option Metrics
count_stop restart name m = do
  restarts ← with_label name inc m.worker_restarts
  some (record m { worker_restarts = restarts })
count_stop _ name m = do
  crashes ← with_label name inc m.worker_crashes
  some (record m { worker_crashes = crashes })

unfoldable pub stop_worker : Bytes → StopReason → Metrics → Option Metrics
stop_worker name reason m =
    let m' = record m { busy_threads = dec m.busy_threads } in
    if is_nil m.total_workers then some m' else (do
      total ← with_label name dec m.total_workers
      m1 ← drop_ready reason name (record m' { total_workers = total })
      count_stop reason name m1)

-- A vector made and registered where there is none yet.
abbrev made : Vec → Vec
made none = some new_vec
made (some v) = some v

-- The collectors that `TotalWorkers` makes: each is registered when it is made.
abbrev pub worker_vec : Collector → Bool
worker_vec c_total_threads = false
worker_vec c_busy_threads = false
worker_vec c_queue_depth = false
worker_vec c_opcache_restarts = false
worker_vec _ = true

abbrev pub vec_of : Collector → Metrics → Vec
vec_of c_total_threads m = some (λ n. m.total_threads)
vec_of c_busy_threads m = some (λ n. m.busy_threads)
vec_of c_queue_depth m = some (λ n. m.queue_depth)
vec_of c_opcache_restarts m = m.opcache_restarts
vec_of c_total_workers m = m.total_workers
vec_of c_ready_workers m = m.ready_workers
vec_of c_busy_workers m = m.busy_workers
vec_of c_worker_crashes m = m.worker_crashes
vec_of c_worker_restarts m = m.worker_restarts
vec_of c_worker_request_time m = m.worker_request_time
vec_of c_worker_request_count m = m.worker_request_count
vec_of c_worker_queue_depth m = m.worker_queue_depth

unfoldable pub total_workers : Metrics → Metrics
total_workers m = record m {
  registered = λ c.
      if worker_vec c
      then (if is_nil (vec_of c m) then true else m.registered c)
      else m.registered c;
  total_workers = made m.total_workers;
  ready_workers = made m.ready_workers;
  busy_workers = made m.busy_workers;
  worker_crashes = made m.worker_crashes;
  worker_restarts = made m.worker_restarts;
  worker_request_time = made m.worker_request_time;
  worker_request_count = made m.worker_request_count;
  worker_queue_depth = made m.worker_queue_depth;
}

unfoldable pub total_threads : ℤ → Metrics → Metrics
total_threads num m = record m { total_threads = num }

unfoldable pub start_request : Metrics → Metrics
start_request m = record m { busy_threads = inc m.busy_threads }

unfoldable pub stop_request : Metrics → Metrics
stop_request m = record m { busy_threads = dec m.busy_threads }

unfoldable pub stop_worker_request : Bytes → ℕ → Metrics → Option Metrics
stop_worker_request name duration m = if is_nil m.worker_request_time then some m else (do
  count ← with_label name inc m.worker_request_count
  busy ← with_label name dec m.busy_workers
  time ← with_label name (λ t. t +ℤ pos duration) m.worker_request_time
  some (record m { worker_request_count = count; busy_workers = busy; worker_request_time = time }))

unfoldable pub start_worker_request : Bytes → Metrics → Option Metrics
start_worker_request name m =
    if is_nil m.busy_workers
    then some m
    else (do busy ← with_label name inc m.busy_workers; some (record m { busy_workers = busy }))

unfoldable pub queued_worker_request : Bytes → Metrics → Option Metrics
queued_worker_request name m = if is_nil m.worker_queue_depth then some m else (do
  depth ← with_label name inc m.worker_queue_depth
  some (record m { worker_queue_depth = depth }))

unfoldable pub dequeued_worker_request : Bytes → Metrics → Option Metrics
dequeued_worker_request name m = if is_nil m.worker_queue_depth then some m else (do
  depth ← with_label name dec m.worker_queue_depth
  some (record m { worker_queue_depth = depth }))

unfoldable pub queued_request : Metrics → Metrics
queued_request m = record m { queue_depth = inc m.queue_depth }

unfoldable pub dequeued_request : Metrics → Metrics
dequeued_request m = record m { queue_depth = dec m.queue_depth }

unfoldable pub opcache_restart : Bytes → Metrics → Option Metrics
opcache_restart reason m =
    if is_nil m.opcache_restarts
    then some m
    else (do n ← with_label reason inc m.opcache_restarts; some (record m { opcache_restarts = n }))

-- Every collector that is there is unregistered; the first three always are.
unfoldable pub shutdown : Metrics → Metrics
shutdown m = record m { registered = λ c. if is_nil (vec_of c m) then m.registered c else false }

-- On a registry that holds none of these collectors. `hook` is `opcacheRestartHook`.
unfoldable pub new_prometheus_metrics : Bool → Metrics
new_prometheus_metrics hook = record {
  registered = λ c. elim c [
    | c_total_threads ↦ true
    | c_busy_threads ↦ true
    | c_queue_depth ↦ true
    | c_opcache_restarts ↦ hook
    | _ ↦ false
  ];
  total_threads = pos 0;
  busy_threads = pos 0;
  queue_depth = pos 0;
  opcache_restarts = some new_vec;
  total_workers = none;
  ready_workers = none;
  busy_workers = none;
  worker_crashes = none;
  worker_restarts = none;
  worker_request_time = none;
  worker_request_count = none;
  worker_queue_depth = none;
}
