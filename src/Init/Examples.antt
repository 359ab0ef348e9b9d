-- ===== src/Init/Examples.antt =====
-- frankenphp.go: the theorems on `calculateMaxThreads`, `Init` and `Shutdown` at concrete options.
use frankenphp.Base.{
  ℕ, ◌≡◌, ◌⊎◌, refl, List, [], ◌∷◌, ◌++◌, map, inr, arith, Option, none, some, true, false,
}
use frankenphp.Base.Int.{pos, ◌+ℤ◌, ◌-ℤ◌}
use frankenphp.Init.MaxThreads.{
  Opt, WorkerOpt, ok, effective_num, worker_share, worker_loop, raised_max, settle, finish,
  calculate_max_threads,
}
use frankenphp.Base.GoInt.{◌+int◌, ◌-int◌, wrap_int}
use frankenphp.Text.{Bytes}
use frankenphp.Workers.Servers.{Server}
use frankenphp.Init.Lifecycle.{
  Event, Options, Runtime, Answers, started, already_started, default_max_idle_time, apply_options,
  shutdown, init,
}
use frankenphp.Init.Lifecycle.Rest.{AtRest, IsUp, IsSound}
use frankenphp.Init.Lifecycle.Start.{Ended, init_lem}
use frankenphp.Init.Lifecycle.Runs.{do_init, do_shutdown, run, lifecycle-IsSound}
use frankenphp.Init.Lifecycle.Hooks.{init-hooks_again}
use frankenphp.Init.MaxThreadsLaws.{Accepted, calculate_max_threads_sound, unset_num_unchecked}

-- 4 threads and a worker of 2 that may grow to 5, on two processors.
abbrev declared : Opt
declared = record {
  num_threads = pos 4;
  max_threads = pos 0;
  workers = record { num = pos 2; max_threads = pos 5 } ∷ [];
}

abbrev settled : Opt
settled = record {
  num_threads = pos 6;
  max_threads = pos 9;
  workers = record { num = pos 2; max_threads = pos 5 } ∷ [];
}

declared_settles : calculate_max_threads (pos 4) declared ≡ ok (pos 2, settled)
unfolding calculate_max_threads worker_loop worker_share effective_num finish settle raised_max
    ◌+int◌ ◌-int◌ ◌+ℤ◌ ◌-ℤ◌ wrap_int
declared_settles = refl

calculate_max_threads_sound_example : Accepted (pos 2) settled
calculate_max_threads_sound_example =
    calculate_max_threads_sound (pos 4) declared settled (pos 2) (omega arith) (omega arith)
      declared_settles

-- Three threads at most, sixteen processors.
abbrev unset_worker : WorkerOpt
unset_worker = record { num = pos 0; max_threads = pos 3 }

unset_num_unchecked_example :
    (after : Opt) × (calculate_max_threads
        (pos 32)
        (record { num_threads = pos 4; max_threads = pos 0; workers = unset_worker ∷ [] })
      ≡ ok (pos 32, after))
    × (after.workers ≡ record unset_worker { num = pos 32 } ∷ [])
unset_num_unchecked_example =
    unset_num_unchecked (pos 32) (pos 4) unset_worker refl (omega arith) (omega arith) (omega arith)

abbrev closed_server : Server
closed_server = record {
  idx = pos 0;
  configured_name = [];
  name = [];
  root = [];
  split_path = [];
  workers = [];
  workers_by_path = λ p. none;
  workers_with_request_matcher = [];
  is_registered = false;
}

-- Before any run.
abbrev at_first : Runtime
at_first = record {
  is_running = false;
  global_ctx = none;
  global_logger = none;
  metrics = 0;
  max_wait_time = pos 0;
  max_idle_time = default_max_idle_time;
  max_requests_per_thread = pos 0;
  registry = record { at = λ n. closed_server; servers = []; fallback = closed_server };
  workers = [];
  watcher_is_enabled = false;
  hot_reload_enabled = false;
  main_thread_ready = false;
  on_server_shutdown = [];
  events = [];
}

at_first-AtRest : AtRest at_first
at_first-AtRest = record {
  stopped = refl;
  no_threads = refl;
  no_workers = refl;
  no_servers = refl;
  quiet = λ n. refl;
  fallback_off = refl;
  default_ctx = refl;
  default_logger = refl;
  no_watcher = refl;
  no_hot_reload = refl;
  idle_time = refl;
  no_limit = refl;
}

abbrev php84 : Answers
php84 = record {
  php = record { major_version = 8; minor_version = 4; zts = true; zend_signals = false };
  threads = started;
  workers = [];
  with_workers = λ at. at;
  workers_ready = true;
  watchers_ready = true;
}

-- One server, with a hook for its start and its end.
abbrev one_server : List (Options → Option Options)
one_server = (λ o. some (record o { servers = 3 ∷ []; hooks = (some 1, some 2) ∷ [] })) ∷ []

abbrev itoa : ℕ → Bytes
itoa n = []

init_lem_example :
    (IsUp at_first
      × (init itoa (pos 4) php84 one_server at_first ≡ (at_first, some already_started)))
    ⊎ (AtRest at_first × Ended (init itoa (pos 4) php84 one_server at_first))
init_lem_example =
    init_lem itoa (pos 4) php84 (λ at n h. h) one_server at_first (inr at_first-AtRest)

lifecycle-IsSound_example :
    IsSound
      (run itoa (pos 4) (do_init php84 one_server ∷ do_shutdown ∷ do_init php84 [] ∷ []) at_first)
lifecycle-IsSound_example =
    lifecycle-IsSound itoa (pos 4) (do_init php84 one_server ∷ do_shutdown ∷ do_init php84 [] ∷ [])
      at_first ((λ at n h. h), ((λ at n h. h), tt)) (inr at_first-AtRest)

-- In a run with one hook for its end.
abbrev hooked : Runtime
hooked = record at_first {
  is_running = true;
  main_thread_ready = true;
  on_server_shutdown = 2 ∷ [];
}

abbrev no_option : List (Options → Option Options)
no_option = (λ o. none) ∷ []

init-hooks_again_example :
    (before after : List Event) × ((init itoa (pos 4) php84 no_option (shutdown hooked)).0.events
      ≡ []
        ++ map Event.shutdown_hook (2 ∷ [])
        ++ before
        ++ map Event.shutdown_hook (2 ∷ [])
        ++ after)
init-hooks_again_example =
    init-hooks_again itoa (pos 4) php84 no_option hooked refl (unfold apply_options in refl)
