-- ===== src/Caddy/StartLaws.antt =====
-- caddy/app.go: a configuration that replaces the one in place.
use frankenphp.Base.{
  ℕ, ◌≡◌, refl, ◌⊎◌, inl, inr, Bool, true, false, List, Option, none, some, arith, if◌then◌else◌,
}
use mathlib.Core.Path.{subst}
use frankenphp.Base.Int.{ℤ}
use frankenphp.Text.{Bytes}
use frankenphp.Init.Lifecycle.{Options, Runtime, Answers, InitError, shutdown, init}
use frankenphp.Init.Lifecycle.Rest.{AtRest, IsUp, IsServing, IsSound, stop-AtRest}
use frankenphp.Init.Lifecycle.Start.{KeepsClosed, Ended, init_lem}
use frankenphp.Caddy.Dispenser.{Parsed, ok, fail, stuck, Readers, Gets}
use frankenphp.Caddy.WorkerConfig.{WorkerConfig}
use frankenphp.Caddy.Collect.{
  FrankenPhpModule, InitOption, Surroundings, Collected, collect_options,
}
use frankenphp.Caddy.CollectNames.{collect_options-AllDistinct}
use frankenphp.Caddy.Start.{
  Started, not_collected, search_stuck, not_valid, init_failed, init_answer, start,
}

pub shutdown-AtRest : (st : Runtime) → IsSound st → AtRest (shutdown st)
unfolding shutdown
shutdown-AtRest st (inl v) = subst AtRest (ground (arith, v.running)) (stop-AtRest st v.listed)
shutdown-AtRest st (inr v) = subst AtRest (ground (arith, v.stopped)) v

-- The options were collected, and this is what `Validate` answers on them: they are accepted or not.
abbrev pub Validated : (Collected → Bool) → Parsed Collected → Bool → Type 0
Validated accepts o b = (c : Collected) × ((o ≡ ok c) × (accepts c ≡ b))

-- How `Start` leaves the runtime that it found, by what was collected and whether it is accepted.
abbrev pub HasStarted : (Collected → Bool) → Parsed Collected → Runtime → Started → Type 0
HasStarted accepts o st (st', (b, none)) = Validated accepts o true × ((b ≡ true) × IsServing st')
HasStarted accepts o st (st', (b, some (init_failed e))) =
    Validated accepts o true
    × ((b ≡ false) × (((e ≡ InitError.slice_panic) × IsUp st') ⊎ AtRest st'))
HasStarted accepts o st (st', (b, some (not_collected e))) =
    (o ≡ fail e) × ((b ≡ false) × (st' ≡ st))
HasStarted accepts o st (st', (b, some search_stuck)) = ⊥
HasStarted accepts o st (st', (b, some not_valid)) =
    Validated accepts o false × ((b ≡ false) × (st' ≡ st))

module _ (itoa : ℕ → Bytes) (itoa-inj : (m n : ℕ) → itoa m ≡ itoa n → m ≡ n) (r : Readers)
    (s : Surroundings) (max_procs : ℤ) (a : Answers) (closed : KeepsClosed a)
    (options_of : Collected → List (Options → Option Options))
    (validate : List (Options → Option Options) → Bool) where
  pub init_answer-HasStarted :
      (o : Parsed Collected) (st : Runtime) (i : Runtime × Option InitError)
      → Validated (λ c. validate (options_of c)) o true
      → Ended i
      → HasStarted
          (λ c. validate (options_of c))
          o
          st
          (init_answer itoa r s max_procs a options_of validate i)
  init_answer-HasStarted o st (st', none) k v = (k, (refl, v))
  init_answer-HasStarted o st (st', some e) k v = (k, (refl, v))

  pub init-AtRest :
      (options : List (Options → Option Options)) (st : Runtime)
      → AtRest st
      → Ended (init itoa max_procs a options st)
  init-AtRest options st v = elim (init_lem itoa max_procs a closed options st (inr v)) [
    | inl (w, e) ↦ absurd (ground (arith, w.running, v.stopped))
    | inr (w, e) ↦ e
  ]

  -- Where `strconv.Itoa` tells numbers apart and the workers open no server that is closed: `Start`
  -- answers with the error of collecting the options, or with the refusal of `Validate`, exactly where
  -- these come, and then leaves the runtime as it was. Where `Validate` accepts the options that were
  -- collected, the runtime in place is shut down. The new one is then up and its servers accept
  -- requests, or nothing is left of either, except where `Init` panics. `hasStarted` is set exactly
  -- where there is no error.
  pub start_lem :
      (front : List InitOption) (workers : List WorkerConfig) (modules : List FrankenPhpModule)
      (st : Runtime)
      → IsSound st
      → HasStarted
          (λ c. validate (options_of c))
          (collect_options itoa r s front workers modules)
          st
          (start itoa r s max_procs a options_of validate front workers modules st)
  unfolding start
  start_lem front workers modules st v =
      split _ (collect_options itoa r s front workers modules)
        (collect_options-AllDistinct itoa itoa-inj r s front workers modules)
    where
      Goal : Parsed Collected → Started → Type 0
      Goal o w = HasStarted (λ c. validate (options_of c)) o st w

      valid :
          (c : Collected) (b : Bool)
          → validate (options_of c) ≡ b
          → Goal (ok c) (
              if b
              then init_answer itoa r s max_procs a options_of validate
                  (init itoa max_procs a (options_of c) (shutdown st))
              else (st, (false, some not_valid)))
      valid c true e =
          init_answer-HasStarted (ok c) st _ (c, (refl, e))
            (init-AtRest (options_of c) (shutdown st) (shutdown-AtRest st v))
      valid c false e = ((c, (refl, e)), (refl, refl))

      split :
          (P : Collected → Type 0) (o : Parsed Collected)
          → Gets P o
          → Goal o (elim o [
            | fail e ↦ (st, (false, some (not_collected e)))
            | stuck ↦ (st, (false, some search_stuck))
            | ok c ↦
                if validate (options_of c)
                then init_answer itoa r s max_procs a options_of validate
                    (init itoa max_procs a (options_of c) (shutdown st))
                else (st, (false, some not_valid))
          ])
      split P (ok c) h = valid c (validate (options_of c)) refl
      split P (fail e) h = (refl, (refl, refl))
      split P stuck h = h
