-- ===== src/Threads/StartExamples.antt =====
-- threadregular.go and phpmainthread.go: the theorems at concrete threads.
use frankenphp.Base.{any, ◌≡◌, ◌⊎◌, true, false, none, List, [], ◌∷◌, ◌++◌, length}
use frankenphp.ThreadState.{ThreadState, reboot_ready, inactive, is, new_thread_state}
use frankenphp.Threads.RegularThread.{RegularThread, Event, drain, request}
use frankenphp.Threads.MainThread.{thread, inactive_php_thread}
use frankenphp.Threads.MainThreadLaws.{FirstBooted, inactive_php_thread_lem}

-- A regular thread made again after two requests meets a drain and then a request.
abbrev remade : RegularThread
remade = record {
  state = record new_thread_state { current_state = reboot_ready };
  request_count = 2;
  context = none;
  effects = [];
}

abbrev meets : List Event
meets = drain (λ ts. ts) ∷ request (λ ts. ts) 8 ∷ []

abbrev two_states : List ThreadState
two_states = new_thread_state ∷ record new_thread_state { current_state = inactive } ∷ []

inactive_php_thread_lem_example :
    ((before : List ThreadState) × (ts : ThreadState) × (after : List ThreadState) × (two_states
        ≡ before ++ ts ∷ after)
      × (any (is inactive) before ≡ false)
      × (is inactive ts ≡ true)
      × (inactive_php_thread true two_states ≡ (two_states, thread (length before))))
    ⊎ ((any (is inactive) two_states ≡ false)
        × FirstBooted true 0 two_states (inactive_php_thread true two_states))
inactive_php_thread_lem_example = inactive_php_thread_lem true two_states
