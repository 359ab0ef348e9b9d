-- ===== src/Threads/RegularThread.antt =====
-- threadregular.go: `beforeScriptExecution` of a regular thread with `waitForRequest`, and
-- `afterRequest`. What the thread meets while it waits is a list; `none` means that it still waits where the
-- list ends. A request context is its number.
use frankenphp.Base.{
  ℕ, ◌+◌, true, false, ◌&&◌, List, [], ◌∷◌, ◌++◌, ltb, leb, if◌then◌else◌, Option, none, some,
}
use frankenphp.ThreadState.{
  ThreadState, transition_requested, transition_complete, ready, rebooting, force_rebooting,
  reboot_ready, shutting_down, set_state, get, mark_as_waiting,
}
use frankenphp.Threads.Creation.{reboot}
use frankenphp.Threads.WorkerScript.{
  Before, script, transition, stop, panic, Effect, update_context, detach_thread, close_context,
}

pub record RegularThread : Type 0 where
  pub state : ThreadState
  pub request_count : ℕ
  pub context : Option ℕ
  pub effects : List Effect

-- A request of either channel, or the drain channel. The state is by then what others have made of it,
-- since a thread whose state was changed may still take a request before its drain channel is closed.
pub data Event : Type 0 where
  request : (ThreadState → ThreadState) → ℕ → Event
  drain : (ThreadState → ThreadState) → Event

-- Whether `beforeScriptExecution` returns at once or waits for a request.
pub data Entry : Type 0 where
  returns : RegularThread → Before → Entry
  waits : RegularThread → Entry

abbrev detached : RegularThread → RegularThread
detached h = record h { effects = h.effects ++ detach_thread ∷ [] }

unfoldable pub enter : RegularThread → Entry
enter h = elim (get h.state) [
  | transition_requested ↦ returns (detached h) transition
  | transition_complete ↦
      waits
        (record h { state = set_state ready h.state; effects = h.effects ++ update_context ∷ [] })
  | ready ↦ waits h
  | rebooting ↦ returns h stop
  | force_rebooting ↦ returns h stop
  | reboot_ready ↦ waits (record h { request_count = 0; state = set_state ready h.state })
  | shutting_down ↦ returns (detached h) stop
  | _ ↦ returns h panic
]

-- The start of `waitForRequest`: the thread reboots itself, or `none`.
unfoldable pub restart : ℕ → RegularThread → Option RegularThread
restart max_requests h =
    let (ts, rebooted) = reboot h.state in
    if ltb 0 max_requests && leb max_requests h.request_count && rebooted
    then some (record h { state = ts })
    else none

-- What `waitForRequest` waits in.
abbrev pub begin_waiting : ℕ → (ThreadState → ThreadState) → RegularThread → RegularThread
begin_waiting now meanwhile h = record h { state = meanwhile (mark_as_waiting now true h.state) }

abbrev pub take_request : ℕ → ℕ → RegularThread → RegularThread
take_request now c h = record h {
  request_count = h.request_count + 1;
  context = some c;
  state = mark_as_waiting now false h.state;
}

unfoldable pub before_script_execution :
    ℕ → ℕ → List Event → RegularThread → Option (RegularThread × Before)
before_script_execution max_requests now [] h = elim (enter h) [
  | returns h1 b ↦ some (h1, b)
  | waits h1 ↦ elim (restart max_requests h1) [ some h2 ↦ some (h2, stop) | none ↦ none ]
]
before_script_execution max_requests now (e ∷ es) h = elim (enter h) [
  | returns h1 b ↦ some (h1, b)
  | waits h1 ↦ elim (restart max_requests h1) [
    | some h2 ↦ some (h2, stop)
    | none ↦ elim e [
      | request meanwhile c ↦ some (take_request now c (begin_waiting now meanwhile h1), script)
      | drain meanwhile ↦
          before_script_execution max_requests now es (begin_waiting now meanwhile h1)
    ]
  ]
]

-- `afterRequest`; a missing context would be a nil pointer, and is left as it is.
unfoldable pub after_request : RegularThread → RegularThread
after_request h = elim h.context [
  | none ↦ h
  | some c ↦ record h { context = none; effects = h.effects ++ close_context c ∷ [] }
]
