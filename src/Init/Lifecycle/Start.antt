-- ===== src/Init/Lifecycle/Start.antt =====
-- frankenphp.go: how `Init` ends.
use frankenphp.Base.{
  ℕ, ◌+◌, ◌≡◌, refl, sym, ◌∙◌, Bool, true, false, ◌||◌, List, [], ◌∷◌, ◌++◌, if◌then◌else◌, Option,
  none, some, arith, inl, inr, ◌⊎◌,
}
use mathlib.Core.Path.{subst}
use frankenphp.Base.Int.{ℤ, pos, ltb_ℤ}
use frankenphp.Text.{Bytes}
use frankenphp.Workers.Servers.{Server, update, identify, register_from, register_servers}
use frankenphp.Workers.ServerLaws.{identified_registered}
use frankenphp.Init.MaxThreads
use frankenphp.Init.MaxThreads.{calculate_max_threads}
use frankenphp.Init.Lifecycle.Defs.{
  Event, InitError, Options, Runtime, Answers, Outcome, ok, fail, panic, ◌>>=◌, ThreadsStart,
  started, no_main_thread, boot_failed, apply_options, configure, check_php, budget_threads,
  init_php_threads, init_regular_threads, init_workers, init_watchers, open_servers, prepare,
  bring_up, start_up, init, settle, no_options, check_php_config,
}
use frankenphp.Init.Lifecycle.Rest.{
  IsQuiet, AtRest, activated, quiet-IsListed, activated-IsOpen, IsServing, stop-AtRest, IsUp,
  IsSound,
}

-- The workers are put on servers that already exist, and open none.
abbrev pub KeepsClosed : Answers → Type 0
KeepsClosed a =
    (at : ℕ → Server) (n : ℕ)
    → (at n).is_registered ≡ false
    → (a.with_workers at n).is_registered ≡ false

-- While `Init` is under way.
pub record IsStarting (st : Runtime) : Type 0 where
  pub running : st.is_running ≡ true
  pub closed : IsQuiet st.registry

-- A stage that hands on a state with `P`, or fails before any server is open.
abbrev pub Stage {ℓ} : {A : Type ℓ} → (A → Type 0) → Outcome A → Type 0
Stage P (ok a) = P a
Stage P (fail e st) = IsStarting st
Stage P (panic st) = IsUp st

pub Stage-bind {ℓ κ} :
    {A : Type ℓ} {B : Type κ} (P : A → Type 0) (Q : B → Type 0) (m : Outcome A) (f : A → Outcome B)
    → Stage P m
    → ((a : A) → P a → Stage Q (f a))
    → Stage Q (m >>= f)
Stage-bind P Q (ok a) f h k = k a h
Stage-bind P Q (fail e st) f h k = h
Stage-bind P Q (panic st) f h k = h

-- A stage that succeeds or fails in the same state.
pub Stage-if :
    (P : Runtime → Type 0) (b : Bool) (e : InitError) (st : Runtime)
    → P st
    → IsStarting st
    → Stage P (if b then ok st else fail e st)
Stage-if P true e st p v = p
Stage-if P false e st p v = v

pub registered-Quiet :
    (itoa : ℕ → Bytes) (i : ℕ) (ns : List ℕ) (at : ℕ → Server) (n : ℕ)
    → (register_from itoa i ns at n).is_registered ≡ (at n).is_registered
unfolding register_from
registered-Quiet itoa i [] at n = refl
registered-Quiet itoa i (m ∷ ns) at n =
    registered-Quiet itoa (i + 1) ns (update m (identify itoa i) at) n
    ∙ identified_registered itoa i m at n

-- How an `Init` that was not refused ends.
abbrev pub Ended : Runtime × Option InitError → Type 0
Ended (st, none) = IsServing st
Ended (st, some e) = ((e ≡ InitError.slice_panic) × IsUp st) ⊎ AtRest st

module _ (itoa : ℕ → Bytes) (max_procs : ℤ) (a : Answers) (closed : KeepsClosed a) where
  pub registered-IsStarting :
      (o : Options) (st : Runtime)
      → IsStarting st
      → IsStarting (record (configure o st) {
        registry = register_servers itoa o.servers (configure o st).registry;
      })
  unfolding configure register_servers
  registered-IsStarting o st v = record {
    running = v.running;
    closed = λ n. registered-Quiet itoa 0 o.servers st.registry.at n ∙ v.closed n;
  }

  pub budget-Stage :
      (o : Options) (st : Runtime)
      → IsStarting st
      → Stage (λ (r : ℤ × MaxThreads.Opt). Unit {0}) (budget_threads itoa max_procs o st)
  unfolding budget_threads
  budget-Stage o st v = split (calculate_max_threads max_procs o.threads)
    where
      split :
          (b : MaxThreads.Budget (ℤ × MaxThreads.Opt))
          → Stage
              (λ (r : ℤ × MaxThreads.Opt). Unit {0})
              (elim b [ MaxThreads.fail e ↦ fail (InitError.budget e) st | MaxThreads.ok r ↦ ok r ])
      split (MaxThreads.ok r) = tt
      split (MaxThreads.fail e) = v

  pub check-Stage :
      (st : Runtime) → IsStarting st → Stage IsStarting (check_php itoa max_procs a st)
  unfolding check_php
  check-Stage st v = split (check_php_config a.php)
    where
      split :
          (b : Option InitError) → Stage IsStarting (elim b [ some e ↦ fail e st | none ↦ ok st ])
      split none = v
      split (some e) = v

  pub prepare-Stage :
      (o : Options) (st : Runtime)
      → IsStarting st
      → Stage (λ (r : Runtime × ℤ). IsStarting r.0) (prepare itoa max_procs a o st)
  unfolding prepare
  prepare-Stage o st v =
      let w = registered-IsStarting o st v in
      Stage-bind (λ (r : ℤ × MaxThreads.Opt). Unit {0}) (λ (r : Runtime × ℤ). IsStarting r.0) _ _
        (budget-Stage o _ w)
        (λ r _.
          Stage-bind IsStarting (λ (r : Runtime × ℤ). IsStarting r.0) _ _
            (check-Stage _ (record { running = w.running; closed = w.closed })) (λ st' v'. v'))

  -- The threads are up, and no server is open.
  abbrev pub IsReady : Runtime → Type 0
  IsReady st = IsStarting st × (st.main_thread_ready ≡ true)

  pub threads-Stage :
      (t : ThreadsStart) (st : Runtime) → IsStarting st → Stage IsReady (init_php_threads t st)
  unfolding init_php_threads
  threads-Stage started st v = (record { running = v.running; closed = v.closed }, refl)
  threads-Stage no_main_thread st v = v
  threads-Stage boot_failed st v = record { running = v.running; closed = v.closed }

  pub regular-Stage :
      (n : ℤ) (st : Runtime) → IsReady st → Stage IsReady (init_regular_threads n st)
  unfolding init_regular_threads
  regular-Stage n st (v, r) = split (ltb_ℤ n (pos 0))
    where
      split :
          (b : Bool)
          → Stage IsReady (
              if b
              then panic st
              else ok (record st { events = st.events ++ Event.regular_threads n ∷ [] }))
      split true = record {
        running = v.running;
        ready = r;
        listed = quiet-IsListed st.registry v.closed;
      }
      split false = (record { running = v.running; closed = v.closed }, r)

  pub workers-Stage : (st : Runtime) → IsReady st → Stage IsReady (init_workers a st)
  unfolding init_workers
  workers-Stage st (v, r) =
      let w : IsStarting (record st {
        workers = a.workers;
        registry = record st.registry { at = a.with_workers st.registry.at };
      }) =
        record { running = v.running; closed = λ n. closed st.registry.at n (v.closed n) } in
      Stage-if IsReady a.workers_ready InitError.workers_failed _ (w, r) w

  pub watchers-Stage :
      (o : Options) (st : Runtime) → IsReady st → Stage IsReady (init_watchers a o st)
  unfolding init_watchers
  watchers-Stage o st (v, r) =
      let w : IsStarting (record st { watcher_is_enabled = st.watcher_is_enabled || o.has_watch }) =
        record { running = v.running; closed = v.closed } in
      Stage-if IsReady a.watchers_ready InitError.watchers_failed _ (w, r) w

  pub open_servers-IsServing :
      (o : Options) (st : Runtime) → IsReady st → IsServing (open_servers o st)
  unfolding open_servers
  open_servers-IsServing o st (v, r) = (
    record { running = v.running; ready = r; listed = activated st.registry v.closed },
    activated-IsOpen st.registry,
  )

  pub bring_up-Stage :
      (o : Options) (n : ℤ) (st : Runtime)
      → IsStarting st
      → Stage IsServing (bring_up itoa max_procs a o n st)
  unfolding bring_up
  bring_up-Stage o n st v =
      Stage-bind IsReady IsServing _ _
        (threads-Stage a.threads _ (record { running = v.running; closed = v.closed }))
        (λ s1 v1. Stage-bind IsReady IsServing _ _ (regular-Stage n s1 v1) (λ s2 v2.
          Stage-bind IsReady IsServing _ _ (workers-Stage s2 v2) (λ s3 v3.
            Stage-bind IsReady IsServing _ _ (watchers-Stage o s3 v3)
              (λ s4 v4. open_servers-IsServing o s4 v4))))

  pub start_up-Stage :
      (o : Options) (st : Runtime)
      → IsStarting st
      → Stage IsServing (start_up itoa max_procs a o st)
  unfolding start_up
  start_up-Stage o st v =
      Stage-bind (λ (r : Runtime × ℤ). IsStarting r.0) IsServing _ _ (prepare-Stage o st v)
        (λ r v'. bring_up-Stage o r.1 r.0 v')

  pub settle-Ended : (m : Outcome Runtime) → Stage IsServing m → Ended (settle itoa max_procs m)
  settle-Ended (ok st) v = v
  settle-Ended (fail e st) v = inr (stop-AtRest st (quiet-IsListed st.registry v.closed))
  settle-Ended (panic st) v = inl (refl, v)

  pub Ended-IsSound : (r : Runtime × Option InitError) → Ended r → IsSound r.0
  Ended-IsSound (st, none) v = inl v.0
  Ended-IsSound (st, some e) (inl (k, v)) = inl v
  Ended-IsSound (st, some e) (inr v) = inr v

  pub options-Stage :
      (o : Option Options) (st : Runtime)
      → IsStarting st
      → Stage IsServing (elim o [
        | none ↦ fail InitError.option_failed st
        | some o' ↦ start_up itoa max_procs a o' st
      ])
  options-Stage none st v = v
  options-Stage (some o) st v = start_up-Stage o st v

  -- Where the workers open no server that is closed: `Init` is refused where a run is up, and then
  -- changes nothing. Where nothing is left of a run and it succeeds, it is running, the main thread is
  -- ready, every listed server accepts requests, no other one does, and so does the server for requests
  -- of no other. Where it fails, nothing is left of it, except where it panics.
  pub init_lem :
      (options : List (Options → Option Options)) (st : Runtime)
      → IsSound st
      → (IsUp st × (init itoa max_procs a options st ≡ (st, some InitError.already_started)))
        ⊎ (AtRest st × Ended (init itoa max_procs a options st))
  unfolding init
  init_lem options st (inl v) = inl (v, ground (arith, v.running))
  init_lem options st (inr v) =
      let w : IsStarting (record st { is_running = true }) = record {
        running = refl;
        closed = v.quiet;
      } in
      inr (
        v,
        subst Ended (ground (arith, v.stopped))
            (settle-Ended _ (options-Stage (apply_options options no_options) _ w)),
      )

  pub init-IsSound :
      (options : List (Options → Option Options)) (st : Runtime)
      → IsSound st
      → IsSound (init itoa max_procs a options st).0
  init-IsSound options st v = elim (init_lem options st v) [
    | inl (w, e) ↦ subst (λ (r : Runtime × Option InitError). IsSound r.0) (sym e) v
    | inr (w, e) ↦ Ended-IsSound _ e
  ]
