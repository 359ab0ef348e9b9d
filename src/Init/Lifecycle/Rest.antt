-- ===== src/Init/Lifecycle/Rest.antt =====
-- frankenphp.go: what `shutdown` leaves.
use frankenphp.Base.{
  ℕ, ◌≡◌, refl, sym, ap, ◌∙◌, Bool, true, false, List, [], ◌∷◌, mem, none, arith, inl, inr, ◌⊎◌,
  Bool-cases,
}
use mathlib.Core.Path.{subst}
use frankenphp.Base.Int.{pos}
use frankenphp.Workers.Servers.{
  Server, Servers, update, set_registered, set_all, activate_servers, unregister_servers,
}
use frankenphp.Workers.ServerLaws.{set_all_inside}
use frankenphp.Init.Lifecycle.Defs.{
  Runtime, reset_globals, drain_php_threads, stop, shutdown, default_max_idle_time,
}

-- A server that accepts requests is listed.
abbrev pub IsListed : Servers → Type 0
IsListed r = (n : ℕ) → (r.at n).is_registered ≡ true → mem n r.servers ≡ true

-- No server accepts requests.
abbrev pub IsQuiet : Servers → Type 0
IsQuiet r = (n : ℕ) → (r.at n).is_registered ≡ false

-- Nothing is left of a run.
pub record AtRest (st : Runtime) : Type 0 where
  pub stopped : st.is_running ≡ false
  pub no_threads : st.main_thread_ready ≡ false
  pub no_workers : st.workers ≡ []
  pub no_servers : st.registry.servers ≡ []
  pub quiet : IsQuiet st.registry
  pub fallback_off : st.registry.fallback.is_registered ≡ false
  pub default_ctx : st.global_ctx ≡ none
  pub default_logger : st.global_logger ≡ none
  pub no_watcher : st.watcher_is_enabled ≡ false
  pub no_hot_reload : st.hot_reload_enabled ≡ false
  pub idle_time : st.max_idle_time ≡ default_max_idle_time
  pub no_limit : st.max_requests_per_thread ≡ pos 0

pub unlisted_off :
    (b : Bool) (ns : List ℕ) (at : ℕ → Server) (n : ℕ) → mem n ns ≡ false → set_all b ns at n ≡ at n
unfolding set_all
unlisted_off b [] at n h = refl
unlisted_off b (m ∷ ns) at n h =
    unlisted_off b ns (update m (set_registered b) at) n (ground (arith, h)) ∙ ground (arith, h)

pub unregistered : (r : Servers) → IsListed r → IsQuiet (unregister_servers r)
unfolding unregister_servers
unregistered r h n = elim (Bool-cases (mem n r.servers)) [
  | inl e ↦ set_all_inside false r.servers r.at n e
  | inr e ↦
      ap (λ (s : Server). s.is_registered) (unlisted_off false r.servers r.at n e)
      ∙ elim (Bool-cases (r.at n).is_registered) [
        | inl k ↦ absurd (ground (arith, h n k, e))
        | inr k ↦ k
      ]
]

pub activated : (r : Servers) → IsQuiet r → IsListed (activate_servers r)
unfolding activate_servers
activated r h n k = elim (Bool-cases (mem n r.servers)) [
  | inl e ↦ e
  | inr e ↦ absurd (
      ground (
        arith,
        h n,
        k,
        ap (λ (s : Server). s.is_registered) (unlisted_off true r.servers r.at n e),
      ))
]

-- Every listed server accepts requests, and so does the one for requests of no other server.
abbrev pub IsOpen : Servers → Type 0
IsOpen r =
    ((n : ℕ) → mem n r.servers ≡ true → (r.at n).is_registered ≡ true)
    × (r.fallback.is_registered ≡ true)

pub activated-IsOpen : (r : Servers) → IsOpen (activate_servers r)
unfolding activate_servers
activated-IsOpen r = (λ n e. set_all_inside true r.servers r.at n e, refl)

pub quiet-IsListed : (r : Servers) → IsQuiet r → IsListed r
quiet-IsListed r h n k = absurd (ground (arith, h n, k))

pub drained-registry : (st : Runtime) → (drain_php_threads st).registry ≡ st.registry
unfolding drain_php_threads
drained-registry st = ground arith

-- `shutdown` leaves nothing, whatever was reached before.
pub stop-AtRest : (st : Runtime) → IsListed st.registry → AtRest (stop st)
unfolding stop drain_php_threads reset_globals
stop-AtRest st h = record {
  stopped = ground arith;
  no_threads = ground arith;
  no_workers = ground arith;
  no_servers = ground arith;
  quiet =
      subst (λ r. IsQuiet (unregister_servers r)) (sym (drained-registry _))
        (unregistered st.registry h);
  fallback_off = unfold unregister_servers in refl;
  default_ctx = ground arith;
  default_logger = ground arith;
  no_watcher = ground arith;
  no_hot_reload = ground arith;
  idle_time = ground arith;
  no_limit = ground arith;
}

-- The main thread is ready, and the servers that accept requests are listed.
pub record IsUp (st : Runtime) : Type 0 where
  pub running : st.is_running ≡ true
  pub ready : st.main_thread_ready ≡ true
  pub listed : IsListed st.registry

-- What an `Init` that succeeds brings up.
abbrev pub IsServing : Runtime → Type 0
IsServing st = IsUp st × IsOpen st.registry

-- Between the calls of `Init` and `Shutdown`.
abbrev pub IsSound : Runtime → Type 0
IsSound st = IsUp st ⊎ AtRest st

pub shutdown-IsSound : (st : Runtime) → IsSound st → IsSound (shutdown st)
unfolding shutdown
shutdown-IsSound st (inl v) =
    subst IsSound (ground (arith, v.running)) (inr (stop-AtRest st v.listed))
shutdown-IsSound st (inr v) = subst IsSound (ground (arith, v.stopped)) (inr v)
