-- ===== src/ThreadState/Examples.antt =====
-- internal/state/state.go: the theorems at concrete states.
use frankenphp.Base.{◌≡◌, refl, true, some, List, [], ◌∷◌}
use mathlib.Core.List.{Memᴰ}
use frankenphp.ThreadState.Defs.{
  ThreadState, booting, ready, inactive, done, transition_requested, set_state, wait_for,
  request_check, awaited, Meanwhile, wait_for, request_safe_state_change, wakes, notify_subscribers,
  notify_loop, new_thread_state,
}
use frankenphp.ThreadState.Invariant
use frankenphp.ThreadState.Request.{set_state-wakes, request_safe_state_change_lem, Round, Decided}

-- Three goroutines wait, two of them for Ready.
abbrev waiting : ThreadState
waiting = record {
  current_state = booting;
  subscribers =
      record { states = ready ∷ []; ch = 0 }
      ∷ record { states = inactive ∷ []; ch = 1 }
      ∷ record { states = inactive ∷ ready ∷ []; ch = 2 }
      ∷ [];
  waiting_since = 0;
  made = 3;
  closed = [];
}

-- Two goroutines wait, one is woken, a request is granted, the other wait times out.
abbrev some_ops : List Invariant.Op
some_ops =
    Invariant.do_wait_for (ready ∷ [])
    ∷ Invariant.do_wait_for (done ∷ [])
    ∷ Invariant.do_set ready
    ∷ Invariant.do_request transition_requested
    ∷ Invariant.do_time_out 1
    ∷ []

run-IsSound_example : Invariant.IsSound (Invariant.run some_ops new_thread_state)
run-IsSound_example = Invariant.run-IsSound some_ops

set_state-wakes_example : wakes 0 (set_state ready waiting) ≡ true
set_state-wakes_example =
    set_state-wakes ready (record { states = ready ∷ []; ch = 0 }) waiting (Memᴰ.head refl) refl

-- Another goroutine makes the thread ready while the request waits.
abbrev rounds : List Meanwhile
rounds = record { before_wait = λ ts. ts; while_parked = set_state ready } ∷ []

abbrev granted : ThreadState
granted = set_state transition_requested (set_state ready (wait_for awaited waiting).0)

granted_later : request_safe_state_change transition_requested rounds waiting ≡ some (granted, true)
unfolding request_safe_state_change request_check wait_for set_state notify_subscribers notify_loop
granted_later = refl

request_safe_state_change_lem_example :
    (before : ThreadState) × Round rounds waiting before
    × Decided transition_requested before granted true
request_safe_state_change_lem_example =
    request_safe_state_change_lem transition_requested rounds waiting granted true granted_later
