-- ===== src/Threads/Examples.antt =====
-- scaling.go, phpthread.go and threadworker.go: the theorems at concrete threads.
use frankenphp.Base.{
  inl, inr, ℕ, suc, ◌+◌, ◌≤◌, ◌<◌, ◌≡◌, ◌⊎◌, ◌&&◌, ◌||◌, refl, true, false, none, some, List, [],
  ◌∷◌, All, length, if◌then◌else◌, arith,
}
use Prim.Native.Nat.{min}
use frankenphp.Base.Int.{pos}
use frankenphp.ThreadState.{
  set_state, mark_as_waiting, rebooting, transition_complete, ready, transition_requested, inactive,
  new_thread_state, shutting_down,
}
use frankenphp.Threads.Pool.{occurs}
use frankenphp.Threads.Scaling.{View, deactivate_threads, max_termination_count}
use frankenphp.Threads.ScalingLaws.{IsEligible, deactivate_threads-All, deactivate_threads_keeps}
use frankenphp.Threads.WorkerScript.{
  shutdown_dummy_request, ready_worker, WorkerThread, Config, drain, request, failed_boots,
  wait_for_worker_request,
}
use frankenphp.Threads.WorkerScriptLaws.{failed_boots_limit, wait_for_worker_request_lem}
use frankenphp.Threads.Handoff.Steps.{asked, running, System, Step, initial, Reach, start, step}
use frankenphp.Threads.Handoff.Safety.{is_idle, parties_exclude}

abbrev two : List ℕ
two = 3 ∷ 4 ∷ []

-- Every thread has been idle for ten seconds.
abbrev idle_view : ℕ → View
idle_view t = record { is_reserved = false; is_ready = true; wait_time = 10000 }

abbrev twelve : List ℕ
twelve = 0 ∷ 1 ∷ 2 ∷ 3 ∷ 4 ∷ 5 ∷ 6 ∷ 7 ∷ 8 ∷ 9 ∷ 10 ∷ 11 ∷ []

eligible : (t : ℕ) → IsEligible idle_view 5000 t
eligible t = record { not_reserved = refl; ready = refl; idle = omega arith }

All-IsEligible : (ts : List ℕ) → All (IsEligible idle_view 5000) ts
All-IsEligible [] = tt
All-IsEligible (t ∷ ts) = (eligible t, All-IsEligible ts)

deactivate_threads-All_example :
    length (deactivate_threads idle_view 5000 twelve).inactive
    ≡ min (length twelve) (suc max_termination_count)
deactivate_threads-All_example =
    deactivate_threads-All idle_view 5000 twelve (All-IsEligible twelve)

deactivate_threads_keeps_example :
    occurs 3 (deactivate_threads idle_view 5000 two).auto
      + occurs 3 (deactivate_threads idle_view 5000 two).inactive
    ≡ (if (idle_view 3).is_reserved then 0 else occurs 3 two)
deactivate_threads_keeps_example = deactivate_threads_keeps idle_view 5000 3 two

abbrev strict : Config
strict = record {
  max_consecutive_failures = pos 2;
  startup_fail_chan = true;
  watcher_is_enabled = false;
  max_requests_per_thread = 0;
}

abbrev started : WorkerThread
started = record {
  state = new_thread_state;
  is_booting_script = true;
  failure_count = 0;
  request_count = 0;
  dummy_context = true;
  worker_context = none;
}

failed_boots_limit_example :
    ((n : ℕ)
      → n ≤ 2
      → ((failed_boots strict 1 n started).state ≡ started.state)
        × ((failed_boots strict 1 n started).failure_count ≡ n))
    × ((failed_boots strict 1 3 started).state.current_state ≡ shutting_down)
failed_boots_limit_example = failed_boots_limit strict 2 1 started refl refl refl refl

-- A thread that is ready and has served all the requests that it may.
abbrev limited : Config
limited = record strict { max_requests_per_thread = 2 }

abbrev served : WorkerThread
served = record started {
  state = record new_thread_state { current_state = frankenphp.ThreadState.ready };
  request_count = 2;
}

wait_for_worker_request_lem_example :
    ((wait_for_worker_request limited 1 drain served).0.is_booting_script ≡ false)
    × (served.is_booting_script ≡ true
        → ((wait_for_worker_request limited 1 drain served).0.failure_count ≡ 0)
          × ((wait_for_worker_request limited 1 drain served).2
              ≡ shutdown_dummy_request ∷ ready_worker ∷ []))
    × (served.is_booting_script ≡ false
        → ((wait_for_worker_request limited 1 drain served).0.failure_count ≡ served.failure_count)
          × ((wait_for_worker_request limited 1 drain served).2 ≡ []))
    × ((wait_for_worker_request limited 1 drain served).1 ≡ false
        → ((wait_for_worker_request limited 1 drain served).0.worker_context
            ≡ served.worker_context)
          × ((wait_for_worker_request limited 1 drain served).0.request_count
              ≡ served.request_count))
    × ((wait_for_worker_request limited 1 (request 6) served).1 ≡ true
        → ((wait_for_worker_request limited 1 (request 6) served).0.worker_context ≡ some 6)
          × ((wait_for_worker_request limited 1 (request 6) served).0.request_count
              ≡ served.request_count + 1))
    × ((wait_for_worker_request limited 1 drain served).1 ≡ false)
    × ((wait_for_worker_request limited 1 (request 6) served).1 ≡ false
        → (0 < limited.max_requests_per_thread)
          × (limited.max_requests_per_thread ≤ served.request_count)
          × (served.state.current_state ≡ ready))
    × (0 < limited.max_requests_per_thread
        → limited.max_requests_per_thread ≤ served.request_count
        → served.state.current_state ≡ ready
        → ((wait_for_worker_request limited 1 drain served).1 ≡ false)
          × ((wait_for_worker_request limited 1 drain served).0.state
              ≡ set_state rebooting served.state))
    × (served.state.current_state ≡ transition_complete
        → ((wait_for_worker_request limited 1 drain served).0.state
            ≡ mark_as_waiting 1 true (set_state ready served.state))
          × ((wait_for_worker_request limited 1 (request 6) served).0.state
              ≡ mark_as_waiting 1 false (set_state ready served.state)))
    × ((wait_for_worker_request limited 1 (request 6) served).1 ≡ true
        → (wait_for_worker_request limited 1 (request 6) served).0.state.waiting_since ≡ 0)
wait_for_worker_request_lem_example = wait_for_worker_request_lem limited 1 6 drain served

-- A thread that has booted and become inactive, and a setter that has asked for its state.
settled : Reach (record initial { state = inactive; thread = running })
settled = step (step start (Step.boot refl refl)) (Step.settle refl (inr (inl refl)) refl)

abbrev asked_for : System
asked_for = record initial {
  state = transition_requested;
  setter = asked;
  thread = running;
  next_handler = 5;
}

asked_for-Reach : Reach asked_for
asked_for-Reach = step settled (Step.ask_transition 5 refl refl)

parties_exclude_example :
    ((is_idle asked_for.setter && is_idle asked_for.stopper)
        || ((is_idle asked_for.setter && is_idle asked_for.rebooter)
            || (is_idle asked_for.stopper && is_idle asked_for.rebooter))
      ≡ true)
    × ((asked_for.setter ≡ asked) ⊎ ((asked_for.stopper ≡ asked) ⊎ (asked_for.rebooter ≡ asked))
        → asked_for.drain_open ≡ true)
parties_exclude_example = parties_exclude asked_for-Reach
