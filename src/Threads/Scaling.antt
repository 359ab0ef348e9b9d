-- ===== src/Threads/Scaling.antt =====
-- scaling.go: `deactivateThreads`, and one round of `startUpscalingThreads` with what it calls. Times
-- are in milliseconds.
use frankenphp.Base.{
  ℕ, ◌+◌, Bool, true, false, not, ◌&&◌, ◌||◌, List, [], ◌∷◌, ◌++◌, ◌==◌, leb, ltb, if◌then◌else◌,
  Option, none, some, length,
}
use mathlib.Core.List.{reverse}
use frankenphp.Threads.Pool.{delete_at, track_auto_scaled_thread}

abbrev pub max_termination_count : ℕ
max_termination_count = 10

abbrev pub min_stall_time : ℕ
min_stall_time = 5

-- What the loop asks of a thread: `state.Is(Reserved)`, `state.Is(Ready)` and `WaitTime()`.
pub record View : Type 0 where
  pub is_reserved : Bool
  pub is_ready : Bool
  pub wait_time : ℕ

-- The variables of the loop; `inactive` are the threads converted so far.
pub record Sweep : Type 0 where
  pub auto : List ℕ
  pub stopped : ℕ
  pub inactive : List ℕ

module _ (view : ℕ → View) (max_idle_time : ℕ) where
  -- Idle for too long.
  abbrev pub is_idle : ℕ → Bool
  is_idle t = (view t).is_ready && ltb max_idle_time (view t).wait_time

  -- The body for the thread at index `i`.
  unfoldable pub visit : ℕ → ℕ → Sweep → Sweep
  visit i t s =
      if (view t).is_reserved
      then record s { auto = delete_at i s.auto }
      else if ltb max_termination_count s.stopped || (view t).wait_time == 0
      then s
      else if is_idle t
      then record s {
        auto = delete_at i s.auto;
        stopped = s.stopped + 1;
        inactive = s.inactive ++ t ∷ [];
      }
      else s

  -- `slices.Backward`: the argument holds the threads not yet visited, the last one first.
  unfoldable pub sweep_from : List ℕ → Sweep → Sweep
  sweep_from [] s = s
  sweep_from (t ∷ ts) s = sweep_from ts (visit (length ts) t s)

  unfoldable pub deactivate_threads : List ℕ → Sweep
  deactivate_threads auto =
      sweep_from (reverse auto) (record { auto = auto; stopped = 0; inactive = [] })

-- What one request on scaleChan leads to.
pub data Decision : Type 0 where
  check_again_later wait_until_stalled scale_regular skip scale_worker : Decision

-- The worker of a request, as the loop reads it.
pub record WorkerView : Type 0 where
  pub is_stopped : Bool
  pub at_limit : Bool

-- One round: the number of autoscaled threads is checked before a request is taken.
unfoldable pub decide : ℕ → ℕ → ℕ → Option WorkerView → Decision
decide max_scaled_threads scaled_count stalled worker =
    if leb max_scaled_threads scaled_count
    then check_again_later
    else if ltb stalled min_stall_time
    then wait_until_stalled
    else elim worker [
      | none ↦ scale_regular
      | some w ↦ if w.is_stopped then skip else if w.at_limit then skip else scale_worker
    ]

-- The end of `scaleWorkerThread` and `scaleRegularThread`: the CPU probe passed or not, the main
-- thread is ready or not, and `added` is the thread that was added, `none` for an error.
unfoldable pub scale_thread : Bool → Bool → Option ℕ → List ℕ → List ℕ
scale_thread cpu_ok main_ready added auto =
    if not cpu_ok
    then auto
    else if not main_ready
    then auto
    else elim added [ none ↦ auto | some thread ↦ track_auto_scaled_thread thread auto ]

-- The loop over rounds: each with its stall time, the request's worker and what adding a thread
-- gives.
pub record Round : Type 0 where
  pub stalled : ℕ
  pub worker : Option WorkerView
  pub cpu_ok : Bool
  pub main_ready : Bool
  pub added : Option ℕ

abbrev scales : Decision → Bool
scales scale_regular = true
scales scale_worker = true
scales _ = false

unfoldable pub upscale_round : ℕ → Round → List ℕ → List ℕ
unfolding decide scale_thread
upscale_round max_scaled_threads r auto =
    if scales (decide max_scaled_threads (length auto) r.stalled r.worker)
    then scale_thread r.cpu_ok r.main_ready r.added auto
    else auto

unfoldable pub upscale : ℕ → List Round → List ℕ → List ℕ
upscale max_scaled_threads [] auto = auto
upscale max_scaled_threads (r ∷ rs) auto =
    upscale max_scaled_threads rs (upscale_round max_scaled_threads r auto)
