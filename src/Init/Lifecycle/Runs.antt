-- ===== src/Init/Lifecycle/Runs.antt =====
-- frankenphp.go: any sequence of calls of `Init` and `Shutdown`.
use frankenphp.Base.{ℕ, List, [], ◌∷◌, Option}
use frankenphp.Base.Int.{ℤ}
use frankenphp.Text.{Bytes}
use frankenphp.Init.Lifecycle.Defs.{Options, Runtime, Answers, shutdown, init}
use frankenphp.Init.Lifecycle.Rest.{IsSound, shutdown-IsSound}
use frankenphp.Init.Lifecycle.Start.{KeepsClosed, init-IsSound}

pub data Call : Type 0 where
  do_init : Answers → List (Options → Option Options) → Call
  do_shutdown : Call

unfoldable pub run : (ℕ → Bytes) → ℤ → List Call → Runtime → Runtime
run itoa max_procs [] st = st
run itoa max_procs (do_init a options ∷ cs) st =
    run itoa max_procs cs (init itoa max_procs a options st).0
run itoa max_procs (do_shutdown ∷ cs) st = run itoa max_procs cs (shutdown st)

abbrev pub AllKeepClosed : List Call → Type 0
AllKeepClosed [] = Unit
AllKeepClosed (do_init a options ∷ cs) = KeepsClosed a × AllKeepClosed cs
AllKeepClosed (do_shutdown ∷ cs) = AllKeepClosed cs

-- Where the workers open no server that is closed: after any sequence of calls of `Init` and
-- `Shutdown`, where a run is up its main thread is ready and a server accepts requests only if it is
-- listed; where none is up, nothing is left of those before: no threads, workers or servers, and the
-- context, the logger, the idle time and the limit of requests are the default ones.
pub lifecycle-IsSound :
    (itoa : ℕ → Bytes) (max_procs : ℤ) (cs : List Call) (st : Runtime)
    → AllKeepClosed cs
    → IsSound st
    → IsSound (run itoa max_procs cs st)
unfolding run
lifecycle-IsSound itoa max_procs [] st h v = v
lifecycle-IsSound itoa max_procs (do_init a options ∷ cs) st (k, h) v =
    lifecycle-IsSound itoa max_procs cs _ h (init-IsSound itoa max_procs a k options st v)
lifecycle-IsSound itoa max_procs (do_shutdown ∷ cs) st h v =
    lifecycle-IsSound itoa max_procs cs _ h (shutdown-IsSound st v)
