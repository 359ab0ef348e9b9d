-- ===== src/Threads/WorkerScript.antt =====
-- threadworker.go: `setupWorkerScript` and `tearDownWorkerScript`, `waitForWorkerRequest` and
-- `beforeScriptExecution` of worker threads. The calls made on the metrics, the channels and the
-- callbacks are a list of effects, in order; times are in milliseconds. `max_consecutive_failures` is
-- an integer, since a negative one means no limit.
use frankenphp.Base.{
  ℕ, zero, suc, ◌+◌, ◌*◌, Bool, true, false, not, ◌&&◌, List, [], ◌∷◌, ◌++◌, ltb, leb, ◌==◌,
  if◌then◌else◌, Option, none, some,
}
use frankenphp.Base.Int.{ℤ, pos, leb_ℤ}
use frankenphp.Metrics.{StopReason, restart, boot_failure, crash}
use frankenphp.ThreadState.{
  ThreadState, transition_requested, transition_complete, ready, rebooting, force_rebooting,
  reboot_ready, shutting_down, set_state, get, is, mark_as_waiting,
}
use frankenphp.Threads.Creation.{reboot}

pub data Effect : Type 0 where
  start_worker : Effect
  stop_worker : StopReason → Effect
  shutdown_dummy_request : Effect
  ready_worker : Effect
  close_context : ℕ → Effect
  startup_failure : Effect
  sleep : ℕ → Effect
  update_context : Effect
  on_thread_ready : Effect
  on_thread_shutdown : Effect
  detach_thread : Effect

-- A request context is its number.
pub record WorkerThread : Type 0 where
  pub state : ThreadState
  pub is_booting_script : Bool
  pub failure_count : ℕ
  pub request_count : ℕ
  pub dummy_context : Bool
  pub worker_context : Option ℕ

-- What `tearDownWorkerScript` and `waitForWorkerRequest` read of the worker and of the globals.
pub record Config : Type 0 where
  pub max_consecutive_failures : ℤ
  pub startup_fail_chan : Bool
  pub watcher_is_enabled : Bool
  pub max_requests_per_thread : ℕ

abbrev pub backoff : ℕ → ℕ
backoff n = if ltb 1000 (n * n * 100) then 1000 else n * n * 100

-- `created` says whether the dummy request of the worker could be built; `none` is its panic.
unfoldable pub setup_worker_script : Bool → WorkerThread → Option (WorkerThread × List Effect)
setup_worker_script created h =
    if not created
    then none
    else some (
      record h { is_booting_script = true; request_count = 0; dummy_context = true },
      start_worker ∷ [],
    )

abbrev close_request : Option ℕ → List Effect
close_request none = []
close_request (some c) = close_context c ∷ []

abbrev gives_up : Config → WorkerThread → Bool
gives_up cfg h =
    leb_ℤ (pos 0) cfg.max_consecutive_failures
    && cfg.startup_fail_chan
    && not cfg.watcher_is_enabled
    && leb_ℤ cfg.max_consecutive_failures (pos h.failure_count)

-- The handler without its contexts, in state `ts` and after `n` failures.
abbrev torn_down : ThreadState → ℕ → WorkerThread → WorkerThread
torn_down ts n h = record h {
  state = ts;
  failure_count = n;
  dummy_context = false;
  worker_context = none;
}

unfoldable pub tear_down_worker_script : Config → ℕ → WorkerThread → WorkerThread × List Effect
tear_down_worker_script cfg exit_status h =
    let closed = close_request h.worker_context in
    if exit_status == 0 && not h.is_booting_script
    then (torn_down h.state h.failure_count h, closed ++ (stop_worker restart ∷ []))
    else if not h.is_booting_script
    then (torn_down h.state h.failure_count h, closed ++ (stop_worker crash ∷ []))
    else if gives_up cfg h
    then (
      torn_down (set_state shutting_down h.state) h.failure_count h,
      closed ++ (stop_worker boot_failure ∷ startup_failure ∷ []),
    )
    else (
      torn_down h.state (h.failure_count + 1) h,
      closed ++ (stop_worker boot_failure ∷ sleep (backoff h.failure_count) ∷ []),
    )

-- What the select of `waitForWorkerRequest` takes: the drain channel, or a request.
pub data Signal : Type 0 where
  drain : Signal
  request : ℕ → Signal

-- The first part of `waitForWorkerRequest`.
unfoldable pub finish_boot : WorkerThread → WorkerThread × List Effect
finish_boot h =
    if h.is_booting_script
    then (
      record h { is_booting_script = false; failure_count = 0 },
      shutdown_dummy_request ∷ ready_worker ∷ [],
    )
    else (h, [])

abbrev with_state : ThreadState → WorkerThread → WorkerThread
with_state ts h = record h { state = ts }

-- `now` is the time of the clock, which `MarkAsWaiting` stores.
unfoldable pub select_request : ℕ → Signal → WorkerThread → WorkerThread × Bool
select_request now signal h =
    let ts = if is transition_complete h.state then set_state ready h.state else h.state in
    let waiting = mark_as_waiting now true ts in
    elim signal [
      | drain ↦ (with_state waiting h, false)
      | request c ↦ (
        record h {
          state = mark_as_waiting now false waiting;
          request_count = h.request_count + 1;
          worker_context = some c;
        },
        true,
      )
    ]

-- The failure of the C call that shuts the dummy request down, which panics, is left out.
unfoldable pub wait_for_worker_request :
    Config → ℕ → Signal → WorkerThread → WorkerThread × Bool × List Effect
unfolding finish_boot
wait_for_worker_request cfg now signal h =
    let (h1, effects) = finish_boot h in
    let (ts, rebooted) = reboot h1.state in
    let (h2, has_request) = select_request now signal h1 in
    if ltb 0 cfg.max_requests_per_thread
      && leb cfg.max_requests_per_thread h1.request_count
      && rebooted
    then (with_state ts h1, false, effects)
    else (h2, has_request, effects)

-- What `beforeScriptExecution` of a worker thread does: run the script, transition to the next
-- handler, stop, or panic.
pub data Before : Type 0 where
  script : Before
  transition : Before
  stop : Before
  panic : Before

abbrev run_script : Bool → WorkerThread → WorkerThread × Before × List Effect
run_script created h = elim (setup_worker_script created h) [
  | none ↦ (h, panic, update_context ∷ on_thread_ready ∷ start_worker ∷ [])
  | some r ↦ (r.0, script, update_context ∷ on_thread_ready ∷ r.1)
]

unfoldable pub before_script_execution : Bool → WorkerThread → WorkerThread × Before × List Effect
unfolding setup_worker_script
before_script_execution created h =
    let at_ready = run_script created h in
    let rebooted =
      run_script created (record h { state = set_state ready h.state; request_count = 0 }) in
    elim (get h.state) [
      | transition_requested ↦ (h, transition, on_thread_shutdown ∷ detach_thread ∷ [])
      | ready ↦ at_ready
      | transition_complete ↦ at_ready
      | rebooting ↦ (h, stop, [])
      | force_rebooting ↦ (h, stop, [])
      | reboot_ready ↦ rebooted
      | shutting_down ↦ (h, stop, on_thread_shutdown ∷ detach_thread ∷ [])
      | _ ↦ (h, panic, [])
    ]

-- `n` starts of the script in a row, none of which reaches `frankenphp_handle_request`.
unfoldable pub failed_boots : Config → ℕ → ℕ → WorkerThread → WorkerThread
failed_boots cfg exit_status zero h = h
failed_boots cfg exit_status (suc n) h =
    let before = failed_boots cfg exit_status n h in
    elim (setup_worker_script true before) [
      | none ↦ before
      | some r ↦ (tear_down_worker_script cfg exit_status r.0).0
    ]
