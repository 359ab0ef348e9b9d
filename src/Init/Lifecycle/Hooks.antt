-- ===== src/Init/Lifecycle/Hooks.antt =====
-- frankenphp.go: the hooks that `shutdown` runs.
use frankenphp.Base.{
  ℕ, ◌≡◌, refl, ap, ◌∙◌, Bool, true, false, List, [], ◌∷◌, ◌++◌, map, Option, none, arith, inl, inr,
  Bool-cases,
}
use mathlib.Core.List.{append_assoc, append-nil}
use frankenphp.Base.Int.{ℤ}
use frankenphp.Text.{Bytes}
use frankenphp.Init.Lifecycle.Defs.{
  Event, Options, Runtime, Answers, emit, reset_globals, drain_php_threads, stop, shutdown,
  apply_options, init, no_options,
}

abbrev drained : Bool → List Event
drained true = Event.drain_threads ∷ []
drained false = []

drained-events :
    (st : Runtime) → (drain_php_threads st).events ≡ st.events ++ drained st.main_thread_ready
unfolding drain_php_threads
drained-events st = elim (Bool-cases st.main_thread_ready) [
  | inl e ↦ ground (arith, e)
  | inr e ↦ ground (arith, e, append-nil st.events)
]

abbrev stop_tail : Runtime → List Event
stop_tail st =
    map Event.stop_worker st.workers
    ++ (Event.drain_watchers ∷ (drained st.main_thread_ready ++ Event.metrics_shutdown ∷ []))

stop-events :
    (st : Runtime)
    → (stop st).events ≡ st.events ++ map Event.shutdown_hook st.on_server_shutdown ++ stop_tail st
unfolding stop reset_globals
stop-events st =
    let hooked = emit (map Event.shutdown_hook st.on_server_shutdown) st in
    ap (λ es. es ++ Event.metrics_shutdown ∷ [])
      (drained-events
        (emit (Event.drain_watchers ∷ []) (emit (map Event.stop_worker st.workers) hooked)))
    ∙ simp (append_assoc)

stop-hooks : (st : Runtime) → (stop st).on_server_shutdown ≡ st.on_server_shutdown
unfolding stop reset_globals drain_php_threads
stop-hooks st = ground arith

failed_init :
    (itoa : ℕ → Bytes) (max_procs : ℤ) (a : Answers) (options : List (Options → Option Options))
    (st : Runtime)
    → st.is_running ≡ false
    → apply_options options no_options ≡ none
    → (init itoa max_procs a options st).0 ≡ stop (record st { is_running = true })
unfolding init
failed_init itoa max_procs a options st r h = ground (arith, r, h)

-- The hooks of a run that is up stay behind its `Shutdown`: an `Init` that then fails at an option
-- runs them a second time.
pub init-hooks_again :
    (itoa : ℕ → Bytes) (max_procs : ℤ) (a : Answers) (options : List (Options → Option Options))
    (st : Runtime)
    → st.is_running ≡ true
    → apply_options options no_options ≡ none
    → (before after : List Event) × ((init itoa max_procs a options (shutdown st)).0.events
        ≡ st.events
          ++ map Event.shutdown_hook st.on_server_shutdown
          ++ before
          ++ map Event.shutdown_hook st.on_server_shutdown
          ++ after)
unfolding shutdown
init-hooks_again itoa max_procs a options st r h =
    let down : shutdown st ≡ stop st = ground (arith, r) in
    let off : (stop st).is_running ≡ false = unfold stop reset_globals in refl in
    let second = stop-events (record (stop st) { is_running = true }) in
    (
      stop_tail st,
      stop_tail (record (stop st) { is_running = true }),
      ap (λ s. (init itoa max_procs a options s).0.events) down
          ∙ ap (λ (s : Runtime). s.events) (failed_init itoa max_procs a options (stop st) off h)
          ∙ second
          ∙ ap
              (λ es.
                es
                ++ map Event.shutdown_hook (stop st).on_server_shutdown
                ++ stop_tail (record (stop st) { is_running = true }))
              (stop-events st)
          ∙ ap
              (λ hs.
                st.events
                ++ map Event.shutdown_hook st.on_server_shutdown
                ++ stop_tail st
                ++ map Event.shutdown_hook hs
                ++ stop_tail (record (stop st) { is_running = true }))
              (stop-hooks st),
    )
