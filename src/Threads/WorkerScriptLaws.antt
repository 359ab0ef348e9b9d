-- ===== src/Threads/WorkerScriptLaws.antt =====
-- threadworker.go: what a worker thread does with a script that fails to start, and with requests.
use frankenphp.Base.{
  Bool, any, if◌then◌else◌, ◌⊎◌, ℕ, zero, suc, ◌+◌, ◌≤◌, ◌<◌, ◌≡◌, ◌∷◌, [], refl, ap, ◌∙◌, true,
  false, some, arith,
}
use frankenphp.Base.Int.{pos, negsuc}
use frankenphp.ThreadState.{
  ready, transition_complete, reboot_ready, rebooting, force_rebooting, transition_requested, is,
  get, ThreadState, shutting_down, set_state, mark_as_waiting, compare_and_swap,
}
use frankenphp.ThreadState.Notify.{set_state_lem}
use frankenphp.Threads.Creation.{reboot}
use frankenphp.Threads.WorkerScript.{
  before_script_execution, script, transition, stop, on_thread_shutdown, detach_thread,
  shutdown_dummy_request, ready_worker, WorkerThread, Config, setup_worker_script,
  tear_down_worker_script, Signal, drain, request, finish_boot, select_request,
  wait_for_worker_request, failed_boots,
}

shut_down-state : (ts : ThreadState) → (set_state shutting_down ts).current_state ≡ shutting_down
shut_down-state ts = rw (set_state_lem shutting_down ts)

-- One start that fails, where the limit is not reached.
failed_once :
    (cfg : Config) (k exit_status : ℕ) (h : WorkerThread)
    → cfg.max_consecutive_failures ≡ pos k
    → h.failure_count < k
    → ((failed_boots cfg exit_status 1 h).state ≡ h.state)
      × ((failed_boots cfg exit_status 1 h).failure_count ≡ h.failure_count + 1)
unfolding failed_boots setup_worker_script tear_down_worker_script
failed_once cfg k exit_status h e lt = ground (arith, e, lt)

failed_unlimited :
    (cfg : Config) (m exit_status : ℕ) (h : WorkerThread)
    → cfg.max_consecutive_failures ≡ negsuc m
    → ((failed_boots cfg exit_status 1 h).state ≡ h.state)
      × ((failed_boots cfg exit_status 1 h).failure_count ≡ h.failure_count + 1)
unfolding failed_boots setup_worker_script tear_down_worker_script
failed_unlimited cfg m exit_status h e = ground (arith, e)

failed_last :
    (cfg : Config) (k exit_status : ℕ) (h : WorkerThread)
    → cfg.max_consecutive_failures ≡ pos k
    → cfg.startup_fail_chan ≡ true
    → cfg.watcher_is_enabled ≡ false
    → h.failure_count ≡ k
    → (failed_boots cfg exit_status 1 h).state ≡ set_state shutting_down h.state
unfolding failed_boots setup_worker_script tear_down_worker_script
failed_last cfg k exit_status h e c w lt = ground (arith, e, c, w, lt)

failed_below :
    (cfg : Config) (k exit_status n : ℕ) (h : WorkerThread)
    → cfg.max_consecutive_failures ≡ pos k
    → h.failure_count ≡ 0
    → n ≤ k
    → ((failed_boots cfg exit_status n h).state ≡ h.state)
      × ((failed_boots cfg exit_status n h).failure_count ≡ n)
unfolding failed_boots
failed_below cfg k exit_status zero h e z le = (refl, z)
failed_below cfg k exit_status (suc n) h e z le =
    let before = failed_below cfg k exit_status n h e z (omega arith) in
    let once =
      failed_once cfg k exit_status (failed_boots cfg exit_status n h) e
        (omega (arith, before.1)) in
    (once.0 ∙ before.0, omega (arith, once.1, before.1))

-- Where the workers are still starting, there is no watcher and no failure has been counted, a
-- script that keeps failing before `frankenphp_handle_request` is started k + 1 times for a limit of
-- k failures: the first k failures leave the thread's state and are counted, the next one sends the
-- thread to ShuttingDown.
pub failed_boots_limit :
    (cfg : Config) (k exit_status : ℕ) (h : WorkerThread)
    → cfg.max_consecutive_failures ≡ pos k
    → cfg.startup_fail_chan ≡ true
    → cfg.watcher_is_enabled ≡ false
    → h.failure_count ≡ 0
    → ((n : ℕ)
        → n ≤ k
        → ((failed_boots cfg exit_status n h).state ≡ h.state)
          × ((failed_boots cfg exit_status n h).failure_count ≡ n))
      × ((failed_boots cfg exit_status (suc k) h).state.current_state ≡ shutting_down)
unfolding failed_boots
failed_boots_limit cfg k exit_status h e c w z =
    let below = failed_below cfg k exit_status k h e z (omega arith) in
    let last = failed_last cfg k exit_status (failed_boots cfg exit_status k h) e c w below.1 in
    (
      λ n le. failed_below cfg k exit_status n h e z le,
      ap (λ t. t.current_state) last ∙ shut_down-state (failed_boots cfg exit_status k h).state,
    )

-- With a negative limit no number of failed starts changes the thread's state, and all are counted.
pub failed_boots_unlimited :
    (cfg : Config) (m exit_status n : ℕ) (h : WorkerThread)
    → cfg.max_consecutive_failures ≡ negsuc m
    → ((failed_boots cfg exit_status n h).state ≡ h.state)
      × ((failed_boots cfg exit_status n h).failure_count ≡ h.failure_count + n)
unfolding failed_boots
failed_boots_unlimited cfg m exit_status zero h e = (refl, omega arith)
failed_boots_unlimited cfg m exit_status (suc n) h e =
    let before = failed_boots_unlimited cfg m exit_status n h e in
    let once = failed_unlimited cfg m exit_status (failed_boots cfg exit_status n h) e in
    (once.0 ∙ before.0, omega (arith, once.1, before.1))

-- A call of `frankenphp_handle_request` ends the boot of the script; one that was booting has its
-- failures cleared and becomes ready in the metrics, and no other does. Where a limit of requests is
-- set and reached and the thread is Ready, it answers without a request and the thread is Rebooting;
-- the drain channel answers without a request too, and a request only goes unanswered in that
-- first case. A thread that is TransitionComplete is set to Ready before it waits. With a request, that
-- request is the handler's and is counted, and the thread is no longer marked as waiting; without one,
-- the handler's request and the count stay.
pub wait_for_worker_request_lem :
    (cfg : Config) (now c : ℕ) (signal : Signal) (h : WorkerThread)
    → ((wait_for_worker_request cfg now signal h).0.is_booting_script ≡ false)
      × (h.is_booting_script ≡ true
          → ((wait_for_worker_request cfg now signal h).0.failure_count ≡ 0)
            × ((wait_for_worker_request cfg now signal h).2
                ≡ shutdown_dummy_request ∷ ready_worker ∷ []))
      × (h.is_booting_script ≡ false
          → ((wait_for_worker_request cfg now signal h).0.failure_count ≡ h.failure_count)
            × ((wait_for_worker_request cfg now signal h).2 ≡ []))
      × ((wait_for_worker_request cfg now signal h).1 ≡ false
          → ((wait_for_worker_request cfg now signal h).0.worker_context ≡ h.worker_context)
            × ((wait_for_worker_request cfg now signal h).0.request_count ≡ h.request_count))
      × ((wait_for_worker_request cfg now (request c) h).1 ≡ true
          → ((wait_for_worker_request cfg now (request c) h).0.worker_context ≡ some c)
            × ((wait_for_worker_request cfg now (request c) h).0.request_count
                ≡ h.request_count + 1))
      × ((wait_for_worker_request cfg now drain h).1 ≡ false)
      × ((wait_for_worker_request cfg now (request c) h).1 ≡ false
          → (0 < cfg.max_requests_per_thread)
            × (cfg.max_requests_per_thread ≤ h.request_count)
            × (h.state.current_state ≡ ready))
      × (0 < cfg.max_requests_per_thread
          → cfg.max_requests_per_thread ≤ h.request_count
          → h.state.current_state ≡ ready
          → ((wait_for_worker_request cfg now signal h).1 ≡ false)
            × ((wait_for_worker_request cfg now signal h).0.state ≡ set_state rebooting h.state))
      × (h.state.current_state ≡ transition_complete
          → ((wait_for_worker_request cfg now drain h).0.state
              ≡ mark_as_waiting now true (set_state ready h.state))
            × ((wait_for_worker_request cfg now (request c) h).0.state
                ≡ mark_as_waiting now false (set_state ready h.state)))
      × ((wait_for_worker_request cfg now (request c) h).1 ≡ true
          → (wait_for_worker_request cfg now (request c) h).0.state.waiting_since ≡ 0)
unfolding wait_for_worker_request finish_boot select_request reboot compare_and_swap mark_as_waiting
    is
wait_for_worker_request_lem cfg now c signal h = (
  ground arith,
  λ b. ground arith,
  λ b. ground arith,
  λ b. ground arith,
  λ b. ground arith,
  ground arith,
  λ b. ground arith,
  λ a b e. ground arith,
  λ e. ground arith,
  λ b. ground arith,
)

-- Before each script: where the thread runs it, it was Ready, TransitionComplete or RebootReady, the
-- script is booting with no request counted, and a thread that was RebootReady is Ready. Where the
-- thread goes to another handler or stops for good, it is detached from the worker; where it stops
-- to reboot, nothing happens.
pub before_script_execution_lem :
    (created : Bool) (h : WorkerThread)
    → ((before_script_execution created h).1 ≡ script
        → (any (λ s. is s h.state) (ready ∷ transition_complete ∷ reboot_ready ∷ []) ≡ true)
          × ((before_script_execution created h).0.is_booting_script ≡ true)
          × ((before_script_execution created h).0.request_count ≡ 0)
          × ((before_script_execution created h).0.state
              ≡ (if is reboot_ready h.state then set_state ready h.state else h.state)))
      × ((before_script_execution created h).1 ≡ transition
          → (h.state.current_state ≡ transition_requested)
            × ((before_script_execution created h).2 ≡ on_thread_shutdown ∷ detach_thread ∷ []))
      × ((before_script_execution created h).1 ≡ stop
          → ((h.state.current_state ≡ shutting_down)
              × ((before_script_execution created h).2 ≡ on_thread_shutdown ∷ detach_thread ∷ []))
            ⊎ (((h.state.current_state ≡ rebooting) ⊎ (h.state.current_state ≡ force_rebooting))
                × ((before_script_execution created h).0 ≡ h)
                × ((before_script_execution created h).2 ≡ [])))
unfolding before_script_execution setup_worker_script is get
before_script_execution_lem created h = (λ e. ground arith, λ e. ground arith, λ e. ground arith)
