-- ===== src/Threads/Handoff/Safety.antt =====
-- phpthread.go: the parties do not get in each other's way.
use frankenphp.Base.{
  ℕ, ◌+◌, ◌<◌, ◌≡◌, refl, ◌⊎◌, inl, inr, Bool, true, false, not, ◌&&◌, ◌||◌, arith,
}
use frankenphp.ThreadState.{
  State, reserved, booting, boot_requested, shutting_down, done, inactive, ready,
  transition_requested, transition_in_progress, transition_complete, rebooting, force_rebooting,
  reboot_ready, yielding_for_reboot,
}
use frankenphp.Threads.Handoff.Steps.{
  Place, idle, asked, waiting, reopened, ThreadPlace, running, blocked, woken, leaving, parked,
  exiting, gone, System, Step, Reach,
}

abbrev pub is_idle : Place → Bool
is_idle idle = true
is_idle _ = false

-- A party at work: the drain channel is closed while it waits only.
abbrev at_work : Place → Bool → Bool
at_work asked true = true
at_work waiting false = true
at_work _ _ = false

-- The same, or the party has made the new drain channel.
abbrev at_end : Place → Bool → Bool
at_end reopened true = true
at_end p d = at_work p d

abbrev nobody : System → Bool
nobody s = is_idle s.setter && (is_idle s.stopper && (is_idle s.rebooter && s.drain_open))

abbrev pub is_running : ThreadPlace → Bool
is_running running = true
is_running _ = false

abbrev pub is_blocked : ThreadPlace → Bool
is_blocked blocked = true
is_blocked _ = false

-- In the handler.
abbrev pub is_inside : ThreadPlace → Bool
is_inside running = true
is_inside blocked = true
is_inside woken = true
is_inside _ = false

abbrev pub is_gone : ThreadPlace → Bool
is_gone gone = true
is_gone _ = false

abbrev pub is_leaving : ThreadPlace → Bool
is_leaving leaving = true
is_leaving _ = false

abbrev pub is_parked : ThreadPlace → Bool
is_parked parked = true
is_parked _ = false

abbrev pub is_exiting : ThreadPlace → Bool
is_exiting exiting = true
is_exiting _ = false

-- Who is at work in each state of the thread, and where the thread is.
abbrev pub fits : State → System → Bool
fits reserved s = nobody s && is_gone s.thread
fits booting s = nobody s && is_running s.thread
fits boot_requested s = false
fits shutting_down s =
    at_work s.stopper s.drain_open
    && (is_idle s.setter && is_idle s.rebooter)
    && (is_inside s.thread || is_exiting s.thread)
fits done s =
    at_end s.stopper s.drain_open && (is_idle s.setter && is_idle s.rebooter) && is_gone s.thread
fits inactive s = nobody s && (is_running s.thread || is_blocked s.thread)
fits ready s = nobody s && (is_running s.thread || is_blocked s.thread)
fits transition_requested s =
    at_work s.setter s.drain_open
    && (is_idle s.stopper && is_idle s.rebooter)
    && (is_inside s.thread || is_leaving s.thread)
fits transition_in_progress s =
    at_end s.setter s.drain_open && (is_idle s.stopper && is_idle s.rebooter) && is_parked s.thread
fits transition_complete s = nobody s && (is_parked s.thread || is_running s.thread)
fits rebooting s = nobody s && is_exiting s.thread
fits force_rebooting s =
    at_work s.rebooter s.drain_open
    && (is_idle s.setter && is_idle s.stopper)
    && (is_inside s.thread || is_exiting s.thread)
fits reboot_ready s = nobody s && (is_gone s.thread || is_running s.thread)
fits yielding_for_reboot s =
    at_end s.rebooter s.drain_open && (is_idle s.setter && is_idle s.stopper) && is_gone s.thread

abbrev pub Fits : System → Type 0
Fits s = fits s.state s ≡ true

step-Fits : {s s' : System} → Fits s → Step s s' → Fits s'
step-Fits h (Step.ask_transition n stable e) = ground arith
step-Fits h (Step.drain_transition e) = ground arith
step-Fits h (Step.swap e f) = ground arith
step-Fits h (Step.complete e) = ground arith
step-Fits h (Step.block e f) = ground arith
step-Fits h (Step.serve e f) = ground arith
step-Fits h (Step.wake e f) = ground arith
step-Fits h (Step.see_transition e f) = ground arith
step-Fits h (Step.progress e) = ground arith
step-Fits h (Step.resume e f) = ground arith
step-Fits h (Step.settle e f g) = ground arith
step-Fits h (Step.ask_stop e f) = ground arith
step-Fits h (Step.drain_stop e) = ground arith
step-Fits h (Step.joined e f) = ground arith
step-Fits h (Step.release e) = ground arith
step-Fits h (Step.ask_reboot e f) = ground arith
step-Fits h (Step.drain_reboot e) = ground arith
step-Fits h (Step.yielded e f) = ground arith
step-Fits h (Step.restart e f) = ground arith
step-Fits h (Step.reboot_itself e f) = ground arith
step-Fits h (Step.leave e f) = ground arith
step-Fits h (Step.end_stopped e f) = ground arith
step-Fits h (Step.end_rebooting e f) = ground arith
step-Fits h (Step.end_forced e f) = ground arith
step-Fits h (Step.boot e f) = ground arith
step-Fits h (Step.recreate e f) = ground arith
step-Fits h (Step.give_up e f) = ground arith

pub Reach-Fits : {s : System} → Reach s → Fits s
Reach-Fits Reach.start = refl
Reach-Fits (Reach.step r t) = step-Fits (Reach-Fits r) t

-- Of the setter, the stopper and the rebooter of a thread at most one is at work, and when it is about to
-- close the drain channel the channel is open: closing it twice would panic.
pub parties_exclude :
    {s : System}
    → Reach s
    → ((is_idle s.setter && is_idle s.stopper)
          || ((is_idle s.setter && is_idle s.rebooter) || (is_idle s.stopper && is_idle s.rebooter))
        ≡ true)
      × ((s.setter ≡ asked) ⊎ ((s.stopper ≡ asked) ⊎ (s.rebooter ≡ asked)) → s.drain_open ≡ true)
parties_exclude {s} r = excluded s (Reach-Fits r)
  where
    excluded :
        (s : System)
        → Fits s
        → ((is_idle s.setter && is_idle s.stopper)
              || ((is_idle s.setter && is_idle s.rebooter)
                  || (is_idle s.stopper && is_idle s.rebooter))
            ≡ true)
          × ((s.setter ≡ asked) ⊎ ((s.stopper ≡ asked) ⊎ (s.rebooter ≡ asked))
              → s.drain_open ≡ true)
    excluded s h = (ground arith, λ e. ground arith)

-- The handler of a thread is replaced only while the thread is parked in transitionToNewHandler or there
-- is no C thread.
pub handler_replaced :
    {s s' : System}
    → Reach s
    → Step s s'
    → (s'.handler ≡ s.handler) ⊎ ((s.thread ≡ parked) ⊎ (s.thread ≡ gone))
handler_replaced r (Step.swap e f) = inr (inl (swapping _ (Reach-Fits r) f))
  where
    swapping : (s : System) → Fits s → s.state ≡ transition_in_progress → s.thread ≡ parked
    swapping s h f = ground arith
handler_replaced r (Step.ask_transition n stable e) = inl refl
handler_replaced r (Step.drain_transition e) = inl refl
handler_replaced r (Step.complete e) = inl refl
handler_replaced r (Step.block e f) = inl refl
handler_replaced r (Step.serve e f) = inl refl
handler_replaced r (Step.wake e f) = inl refl
handler_replaced r (Step.see_transition e f) = inl refl
handler_replaced r (Step.progress e) = inl refl
handler_replaced r (Step.resume e f) = inl refl
handler_replaced r (Step.settle e f g) = inl refl
handler_replaced r (Step.ask_stop e f) = inl refl
handler_replaced r (Step.drain_stop e) = inl refl
handler_replaced r (Step.joined e f) = inl refl
handler_replaced r (Step.release e) = inl refl
handler_replaced r (Step.ask_reboot e f) = inl refl
handler_replaced r (Step.drain_reboot e) = inl refl
handler_replaced r (Step.yielded e f) = inl refl
handler_replaced r (Step.restart e f) = inl refl
handler_replaced r (Step.reboot_itself e f) = inl refl
handler_replaced r (Step.leave e f) = inl refl
handler_replaced r (Step.end_stopped e f) = inl refl
handler_replaced r (Step.end_rebooting e f) = inl refl
handler_replaced r (Step.end_forced e f) = inl refl
handler_replaced r (Step.boot e f) = inr (inr e)
handler_replaced r (Step.recreate e f) = inl refl
handler_replaced r (Step.give_up e f) = inl refl

abbrev pub busy : System → Bool
busy s = not (is_idle s.setter && (is_idle s.stopper && is_idle s.rebooter))

abbrev steps_left : Place → ℕ
steps_left idle = 0
steps_left asked = 3
steps_left waiting = 2
steps_left reopened = 1

abbrev thread_left : ThreadPlace → ℕ
thread_left running = 4
thread_left blocked = 3
thread_left woken = 2
thread_left leaving = 1
thread_left parked = 0
thread_left exiting = 1
thread_left gone = 0

-- What is left to do for the party at work.
abbrev pub rank : System → ℕ
rank s = steps_left s.setter + steps_left s.stopper + steps_left s.rebooter + thread_left s.thread

pub step-rank : {s s' : System} → Fits s → busy s ≡ true → Step s s' → rank s' < rank s
step-rank h b (Step.ask_transition n stable e) = ground arith
step-rank h b (Step.drain_transition e) = ground arith
step-rank h b (Step.swap e f) = ground arith
step-rank h b (Step.complete e) = ground arith
step-rank h b (Step.block e f) = ground arith
step-rank h b (Step.serve e f) = ground arith
step-rank h b (Step.wake e f) = ground arith
step-rank h b (Step.see_transition e f) = ground arith
step-rank h b (Step.progress e) = ground arith
step-rank h b (Step.resume e f) = ground arith
step-rank h b (Step.settle e f g) = ground arith
step-rank h b (Step.ask_stop e f) = ground arith
step-rank h b (Step.drain_stop e) = ground arith
step-rank h b (Step.joined e f) = ground arith
step-rank h b (Step.release e) = ground arith
step-rank h b (Step.ask_reboot e f) = ground arith
step-rank h b (Step.drain_reboot e) = ground arith
step-rank h b (Step.yielded e f) = ground arith
step-rank h b (Step.restart e f) = ground arith
step-rank h b (Step.reboot_itself e f) = ground arith
step-rank h b (Step.leave e f) = ground arith
step-rank h b (Step.end_stopped e f) = ground arith
step-rank h b (Step.end_rebooting e f) = ground arith
step-rank h b (Step.end_forced e f) = ground arith
step-rank h b (Step.boot e f) = ground arith
step-rank h b (Step.recreate e f) = ground arith
step-rank h b (Step.give_up e f) = ground arith
