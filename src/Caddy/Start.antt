-- ===== src/Caddy/Start.antt =====
-- caddy/app.go: `Start` of the frankenphp app, over the globals of the runtime.
use frankenphp.Base.{ℕ, Bool, true, false, List, Option, none, some, if◌then◌else◌}
use frankenphp.Base.Int.{ℤ}
use frankenphp.Text.{Bytes}
use frankenphp.Init.Lifecycle.{Options, Runtime, Answers, InitError, shutdown, init}
use frankenphp.Caddy.Dispenser.{DirectiveError, ok, fail, stuck, Readers}
use frankenphp.Caddy.WorkerConfig.{WorkerConfig}
use frankenphp.Caddy.Collect.{
  FrankenPhpModule, InitOption, Surroundings, Collected, collect_options,
}

pub data StartError : Type 0 where
  not_collected : DirectiveError → StartError
  search_stuck : StartError  -- not an error of the code: a search that has too little fuel
  not_valid : StartError
  init_failed : InitError → StartError

-- The runtime, the flag `hasStarted`, and the error.
abbrev pub Started : Type 0
Started = Runtime × (Bool × Option StartError)

module _ (itoa : ℕ → Bytes) (r : Readers) (s : Surroundings) (max_procs : ℤ) (a : Answers)
    (options_of : Collected → List (Options → Option Options))
    (validate : List (Options → Option Options) → Bool) where
  abbrev pub init_answer : Runtime × Option InitError → Started
  init_answer (st, none) = (st, (true, none))
  init_answer (st, some e) = (st, (false, some (init_failed e)))

  -- The configuration in place is shut down only once the new one is validated.
  unfoldable pub start :
      List InitOption → List WorkerConfig → List FrankenPhpModule → Runtime → Started
  start front workers modules st = elim (collect_options itoa r s front workers modules) [
    | fail e ↦ (st, (false, some (not_collected e)))
    | stuck ↦ (st, (false, some search_stuck))
    | ok c ↦
        if validate (options_of c)
        then init_answer (init itoa max_procs a (options_of c) (shutdown st))
        else (st, (false, some not_valid))
  ]
