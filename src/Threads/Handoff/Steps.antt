-- ===== src/Threads/Handoff/Steps.antt =====
-- phpthread.go: `setHandler`, `transitionToNewHandler`, `shutdown`, `boot`, `reboot`, `forceReboot`,
-- `startRebootedThread` and `go_frankenphp_on_thread_shutdown`, with the part of
-- `rebootAllThreads` that concerns one thread, as steps. Each party has a place in its function; a call
-- of WaitFor is a step with the state as its guard. `handlerMu` and `scalingMu` leave one setter,
-- one stopper and one rebooter of a thread. A handler is a number. That a blocked thread takes a request
-- while a party is at work is no step: the thread comes back to the select, or sees the state sooner.
use frankenphp.Base.{ℕ, ◌≡◌, ◌⊎◌, Bool, true, false}
use frankenphp.ThreadState.{
  State, reserved, booting, shutting_down, done, ready, transition_requested,
  transition_in_progress, transition_complete, rebooting, force_rebooting, reboot_ready,
  yielding_for_reboot, is_stable,
}

-- A party outside of the thread: it has asked for its state, it has closed the drain channel and
-- waits for the thread, it has made a new drain channel.
pub data Place : Type 0 where
  idle asked waiting reopened : Place

pub data ThreadPlace : Type 0 where
  running : ThreadPlace  -- in the handler
  blocked : ThreadPlace  -- in the handler's select, where no request comes
  woken : ThreadPlace  -- out of it by the drain channel
  leaving : ThreadPlace  -- in transitionToNewHandler
  parked : ThreadPlace  -- waits for TransitionComplete
  exiting : ThreadPlace  -- walks the exit path of the C thread
  gone : ThreadPlace  -- there is no C thread

pub record System : Type 0 where
  pub state : State
  pub setter : Place
  pub stopper : Place
  pub rebooter : Place
  pub thread : ThreadPlace
  pub drain_open : Bool
  pub handler : ℕ
  pub next_handler : ℕ  -- the argument of setHandler

-- The handler that `boot` puts in.
abbrev pub inactive_handler : ℕ
inactive_handler = 0

-- Where a thread may be in the select of its handler: the handler has settled, and others may have asked.
abbrev pub may_block : State → Bool
may_block transition_requested = true
may_block shutting_down = true
may_block force_rebooting = true
may_block s = is_stable s

-- A reserved thread, before anything started it.
abbrev pub initial : System
initial = record {
  state = reserved;
  setter = idle;
  stopper = idle;
  rebooter = idle;
  thread = gone;
  drain_open = true;
  handler = inactive_handler;
  next_handler = 0;
}

pub data Step : System → System → Type 0 where
  -- setHandler
  ask_transition :
      {s : System} (n : ℕ)
      → is_stable s.state ≡ true
      → s.setter ≡ idle
      → Step s (record s { state = transition_requested; setter = asked; next_handler = n })
  drain_transition :
      {s : System} → s.setter ≡ asked → Step s (record s { setter = waiting; drain_open = false })
  swap :
      {s : System}
      → s.setter ≡ waiting
      → s.state ≡ transition_in_progress
      → Step s (record s { setter = reopened; handler = s.next_handler; drain_open = true })
  complete :
      {s : System}
      → s.setter ≡ reopened
      → Step s (record s { setter = idle; state = transition_complete })
  -- the select of waitForRequest and waitForWorkerRequest
  block :
      {s : System}
      → s.thread ≡ running
      → may_block s.state ≡ true
      → Step s (record s { thread = blocked })
  serve :
      {s : System}
      → s.thread ≡ blocked
      → is_stable s.state ≡ true
      → Step s (record s { thread = running })
  wake :
      {s : System}
      → s.thread ≡ blocked
      → s.drain_open ≡ false
      → Step s (record s { thread = woken })
  -- transitionToNewHandler, and beforeScriptExecution of the new handler
  see_transition :
      {s : System}
      → (s.thread ≡ running) ⊎ (s.thread ≡ woken)
      → s.state ≡ transition_requested
      → Step s (record s { thread = leaving })
  progress :
      {s : System}
      → s.thread ≡ leaving
      → Step s (record s { thread = parked; state = transition_in_progress })
  resume :
      {s : System}
      → s.thread ≡ parked
      → s.state ≡ transition_complete
      → Step s (record s { thread = running })
  settle :
      {s : System} {stable : State}
      → s.thread ≡ running
      → (s.state ≡ transition_complete) ⊎ ((s.state ≡ booting) ⊎ (s.state ≡ reboot_ready))
      → is_stable stable ≡ true
      → Step s (record s { state = stable })
  -- shutdown
  ask_stop :
      {s : System}
      → is_stable s.state ≡ true
      → s.stopper ≡ idle
      → Step s (record s { state = shutting_down; stopper = asked })
  drain_stop :
      {s : System} → s.stopper ≡ asked → Step s (record s { stopper = waiting; drain_open = false })
  joined :
      {s : System}
      → s.stopper ≡ waiting
      → s.state ≡ done
      → Step s (record s { stopper = reopened; drain_open = true })
  release :
      {s : System} → s.stopper ≡ reopened → Step s (record s { stopper = idle; state = reserved })
  -- forceReboot and rebootAllThreads
  ask_reboot :
      {s : System}
      → is_stable s.state ≡ true
      → s.rebooter ≡ idle
      → Step s (record s { state = force_rebooting; rebooter = asked })
  drain_reboot :
      {s : System}
      → s.rebooter ≡ asked
      → Step s (record s { rebooter = waiting; drain_open = false })
  yielded :
      {s : System}
      → s.rebooter ≡ waiting
      → s.state ≡ yielding_for_reboot
      → Step s (record s { rebooter = reopened; drain_open = true })
  restart :
      {s : System}
      → s.rebooter ≡ reopened
      → s.state ≡ yielding_for_reboot
      → Step s (record s { rebooter = idle; state = reboot_ready })
  -- reboot, by the thread itself
  reboot_itself :
      {s : System}
      → s.thread ≡ running
      → s.state ≡ ready
      → Step s (record s { thread = exiting; state = rebooting })
  -- the C thread leaves and ends
  leave :
      {s : System}
      → (s.thread ≡ running) ⊎ (s.thread ≡ woken)
      → (s.state ≡ shutting_down) ⊎ (s.state ≡ force_rebooting)
      → Step s (record s { thread = exiting })
  end_stopped :
      {s : System}
      → s.thread ≡ exiting
      → s.state ≡ shutting_down
      → Step s (record s { thread = gone; state = done })
  end_rebooting :
      {s : System}
      → s.thread ≡ exiting
      → s.state ≡ rebooting
      → Step s (record s { thread = gone; state = reboot_ready })
  end_forced :
      {s : System}
      → s.thread ≡ exiting
      → s.state ≡ force_rebooting
      → Step s (record s { thread = gone; state = yielding_for_reboot })
  -- boot and startRebootedThread: the C thread is made, or cannot be
  boot :
      {s : System}
      → s.thread ≡ gone
      → s.state ≡ reserved
      → Step s (record s {
        thread = running;
        state = booting;
        handler = inactive_handler;
        drain_open = true;
      })
  recreate :
      {s : System}
      → s.thread ≡ gone
      → s.state ≡ reboot_ready
      → Step s (record s { thread = running })
  give_up :
      {s : System}
      → s.thread ≡ gone
      → s.state ≡ reboot_ready
      → Step s (record s { state = reserved })

pub data Reach : System → Type 0 where
  start : Reach initial
  step : {s s' : System} → Reach s → Step s s' → Reach s'
