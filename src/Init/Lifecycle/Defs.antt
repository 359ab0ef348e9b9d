-- ===== src/Init/Lifecycle/Defs.antt =====
-- frankenphp.go: `Init`, `Shutdown`, `shutdown`, `resetGlobals` and `checkPHPConfig`, with
-- `drainPHPThreads` and `initWatchers` as far as they change these globals. What the runtime does to
-- the outside is a list of events, in order. Contexts, loggers, hooks and workers are numbers.
use frankenphp.Base.{
  ℕ, Bool, true, false, ◌&&◌, ◌||◌, List, [], ◌∷◌, ◌++◌, map, ltb, ◌==◌, if◌then◌else◌, Option,
  none, some,
}
use frankenphp.Base.Int.{ℤ, pos, ◌-ℤ◌, ltb_ℤ}
use frankenphp.Text.{Bytes}
use frankenphp.Workers.Servers.{
  Server, Servers, register_servers, activate_servers, unregister_servers,
}
use frankenphp.Init.MaxThreads
use frankenphp.Init.MaxThreads.{BudgetError, calculate_max_threads}

pub data Event : Type 0 where
  startup_hook shutdown_hook : ℕ → Event
  stop_worker : ℕ → Event  -- stopped.Store(true)
  total_threads total_workers : ℤ → Event
  regular_threads : ℤ → Event
  drain_watchers drain_threads metrics_shutdown auto_scaling : Event

pub data InitError : Type 0 where
  already_started option_failed : InitError
  budget : BudgetError → InitError
  invalid_php_version zend_signals : InitError
  main_thread_creation thread_creation workers_failed watchers_failed : InitError
  slice_panic : InitError  -- a negative capacity given to make

-- `opt`: what `Init` reads of it; the hooks are those of the workers.
pub record Options : Type 0 where
  pub ctx : Option ℕ
  pub logger : Option ℕ
  pub metrics : Option ℕ
  pub max_wait_time : ℤ
  pub max_idle_time : ℤ
  pub max_requests : ℤ
  pub threads : MaxThreads.Opt
  pub servers : List ℕ
  pub hooks : List (Option ℕ × Option ℕ)
  pub has_watch : Bool  -- of some worker
  pub has_hot_reload : Bool

abbrev pub no_options : Options
no_options = record {
  ctx = none;
  logger = none;
  metrics = none;
  max_wait_time = pos 0;
  max_idle_time = pos 0;
  max_requests = pos 0;
  threads = record { num_threads = pos 0; max_threads = pos 0; workers = [] };
  servers = [];
  hooks = [];
  has_watch = false;
  has_hot_reload = false;
}

-- The globals. The default context and logger are `none`.
pub record Runtime : Type 0 where
  pub is_running : Bool
  pub global_ctx : Option ℕ
  pub global_logger : Option ℕ
  pub metrics : ℕ
  pub max_wait_time : ℤ
  pub max_idle_time : ℤ
  pub max_requests_per_thread : ℤ
  pub registry : Servers
  pub workers : List ℕ
  pub watcher_is_enabled : Bool
  pub hot_reload_enabled : Bool
  pub main_thread_ready : Bool
  pub on_server_shutdown : List ℕ
  pub events : List Event

pub record PhpConfig : Type 0 where
  pub major_version : ℕ
  pub minor_version : ℕ
  pub zts : Bool
  pub zend_signals : Bool

pub data ThreadsStart : Type 0 where
  started : ThreadsStart
  no_main_thread : ThreadsStart  -- mainThread.start() fails
  boot_failed : ThreadsStart  -- a PHP thread cannot be created

-- What the other components answer. The workers made, and the servers with them; the two flags say
-- whether `initWorkers` and `watcher.InitWatcher` succeed.
pub record Answers : Type 0 where
  pub php : PhpConfig
  pub threads : ThreadsStart
  pub workers : List ℕ
  pub with_workers : (ℕ → Server) → ℕ → Server
  pub workers_ready : Bool
  pub watchers_ready : Bool

abbrev pub default_max_idle_time : ℤ
default_max_idle_time = pos 5000

abbrev pub emit : List Event → Runtime → Runtime
emit es st = record st { events = st.events ++ es }

unfoldable pub reset_globals : Runtime → Runtime
reset_globals st = record st {
  global_ctx = none;
  global_logger = none;
  workers = [];
  registry = record st.registry { servers = [] };
  watcher_is_enabled = false;
  hot_reload_enabled = false;
  max_idle_time = default_max_idle_time;
  max_requests_per_thread = pos 0;
}

unfoldable pub drain_php_threads : Runtime → Runtime
drain_php_threads st =
    if st.main_thread_ready
    then emit (drain_threads ∷ []) (record st { main_thread_ready = false })
    else st

-- `shutdown`
unfoldable pub stop : Runtime → Runtime
unfolding reset_globals drain_php_threads
stop st =
    let hooked = emit (map shutdown_hook st.on_server_shutdown) st in
    let stopped = emit (map stop_worker hooked.workers) hooked in
    let drained = drain_php_threads (emit (drain_watchers ∷ []) stopped) in
    let unregistered = record drained { registry = unregister_servers drained.registry } in
    reset_globals (record (emit (metrics_shutdown ∷ []) unregistered) { is_running = false })

unfoldable pub shutdown : Runtime → Runtime
unfolding stop
shutdown st = if st.is_running then stop st else st

-- The state when it is up, where `Init` calls `shutdown` and returns its error, or where it panics.
pub data Outcome {ℓ} (A : Type ℓ) : Type ℓ where
  ok : A → Outcome A
  fail : InitError → Runtime → Outcome A
  panic : Runtime → Outcome A

infixl 5 ◌>>=◌
abbrev pub ◌>>=◌ {ℓ κ} : {A : Type ℓ} {B : Type κ} → Outcome A → (A → Outcome B) → Outcome B
ok a >>= f = f a
fail e st >>= f = fail e st
panic st >>= f = panic st

-- The options, applied in order; `none` is the error of one.
unfoldable pub apply_options : List (Options → Option Options) → Options → Option Options
apply_options [] o = some o
apply_options (f ∷ fs) o = elim (f o) [ none ↦ none | some o' ↦ apply_options fs o' ]

abbrev or_else {ℓ} : {A : Type ℓ} → Option A → A → A
or_else none a = a
or_else (some b) a = b

-- The globals that the options set.
unfoldable pub configure : Options → Runtime → Runtime
configure o st = record st {
  global_ctx = elim o.ctx [ none ↦ st.global_ctx | some c ↦ some c ];
  global_logger = elim o.logger [ none ↦ st.global_logger | some l ↦ some l ];
  metrics = or_else o.metrics st.metrics;
  max_wait_time = o.max_wait_time;
  max_requests_per_thread = o.max_requests;
  max_idle_time = if ltb_ℤ (pos 0) o.max_idle_time then o.max_idle_time else st.max_idle_time;
}

unfoldable pub check_php_config : PhpConfig → Option InitError
check_php_config c =
    if ltb c.major_version 8 || (c.major_version == 8 && ltb c.minor_version 2)
    then some invalid_php_version
    else if c.zts && c.zend_signals
    then some zend_signals
    else none

abbrev pub num_threads : PhpConfig → MaxThreads.Opt → ℤ
num_threads c o = if c.zts then o.num_threads else pos 1

-- `initPHPThreads`; the main thread is ready also where another thread cannot be created.
unfoldable pub init_php_threads : ThreadsStart → Runtime → Outcome Runtime
init_php_threads started st = ok (record st { main_thread_ready = true })
init_php_threads no_main_thread st = fail main_thread_creation st
init_php_threads boot_failed st = fail thread_creation (record st { main_thread_ready = true })

-- The regular threads: what is left of the threads, once for each.
unfoldable pub init_regular_threads : ℤ → Runtime → Outcome Runtime
init_regular_threads count st =
    if ltb_ℤ count (pos 0) then panic st else ok (emit (regular_threads count ∷ []) st)

unfoldable pub init_workers : Answers → Runtime → Outcome Runtime
init_workers a st =
    let made = record st {
      workers = a.workers;
      registry = record st.registry { at = a.with_workers st.registry.at };
    } in
    if a.workers_ready then ok made else fail workers_failed made

unfoldable pub init_watchers : Answers → Options → Runtime → Outcome Runtime
init_watchers a o st =
    let set = record st { watcher_is_enabled = st.watcher_is_enabled || o.has_watch } in
    if a.watchers_ready then ok set else fail watchers_failed set

abbrev pub startup_hooks : List (Option ℕ × Option ℕ) → List Event
startup_hooks [] = []
startup_hooks ((none, down) ∷ hs) = startup_hooks hs
startup_hooks ((some up, down) ∷ hs) = startup_hook up ∷ startup_hooks hs

abbrev pub shutdown_hooks : List (Option ℕ × Option ℕ) → List ℕ
shutdown_hooks [] = []
shutdown_hooks ((up, none) ∷ hs) = shutdown_hooks hs
shutdown_hooks ((up, some down) ∷ hs) = down ∷ shutdown_hooks hs

-- What follows `initWatchers`.
unfoldable pub open_servers : Options → Runtime → Runtime
open_servers o st =
    let scaled = emit (auto_scaling ∷ []) st in
    let active = record scaled { registry = activate_servers scaled.registry } in
    emit (startup_hooks o.hooks) (record active { on_server_shutdown = shutdown_hooks o.hooks })

module _ (itoa : ℕ → Bytes) (max_procs : ℤ) where
  unfoldable pub budget_threads : Options → Runtime → Outcome (ℤ × MaxThreads.Opt)
  budget_threads o st = elim (calculate_max_threads max_procs o.threads) [
    | MaxThreads.fail e ↦ fail (budget e) st
    | MaxThreads.ok r ↦ ok r
  ]

  unfoldable pub check_php : Answers → Runtime → Outcome Runtime
  check_php a st = elim (check_php_config a.php) [ some e ↦ fail e st | none ↦ ok st ]

  -- `Init` from the globals to the checks of PHP, with the number of regular threads.
  unfoldable pub prepare : Answers → Options → Runtime → Outcome (Runtime × ℤ)
  unfolding configure budget_threads check_php
  prepare a o st = do
    let set = configure o st
    let registered = record set { registry = register_servers itoa o.servers set.registry }
    (worker_threads, counts) ← budget_threads o registered
    let counted =
        emit
          (total_threads counts.num_threads
            ∷ map (λ (w : MaxThreads.WorkerOpt). total_workers w.num) counts.workers)
          registered
    checked ← check_php a counted
    ok (checked, num_threads a.php counts -ℤ worker_threads)

  -- From there on.
  unfoldable pub bring_up : Answers → Options → ℤ → Runtime → Outcome Runtime
  unfolding init_php_threads init_regular_threads init_workers init_watchers open_servers
  bring_up a o regular st = do
    ready ← init_php_threads a.threads (record st { hot_reload_enabled = o.has_hot_reload })
    staffed ← init_regular_threads regular ready
    working ← init_workers a staffed
    watched ← init_watchers a o working
    ok (open_servers o watched)

  -- `Init` behind the options, up to a call of `shutdown` where it fails.
  unfoldable pub start_up : Answers → Options → Runtime → Outcome Runtime
  unfolding prepare bring_up
  start_up a o st = do (checked, regular) ← prepare a o st; bring_up a o regular checked

  abbrev pub settle : Outcome Runtime → Runtime × Option InitError
  settle (ok st) = (st, none)
  settle (fail e st) = (stop st, some e)
  settle (panic st) = (st, some slice_panic)

  unfoldable pub init :
      Answers → List (Options → Option Options) → Runtime → Runtime × Option InitError
  unfolding start_up stop
  init a options st =
      let running = record st { is_running = true } in
      if st.is_running
      then (st, some already_started)
      else settle (elim (apply_options options no_options) [
        | none ↦ fail option_failed running
        | some o ↦ start_up a o running
      ])
