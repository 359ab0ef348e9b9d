-- ===== src/Init/MaxThreads.antt =====
-- frankenphp.go, `calculateMaxThreads`: the thread budget. `max_procs` is `runtime.GOMAXPROCS(0) *
-- 2`. Sums wrap as Go's `int` of 64 bits does.
use frankenphp.Base.{Bool, false, not, ◌&&◌, ◌||◌, List, [], ◌∷◌, if◌then◌else◌}
use frankenphp.Base.Int.{ℤ, pos, negsuc, ltb_ℤ, leb_ℤ}
use frankenphp.Base.GoInt.{◌+int◌, ◌-int◌}

-- options.go, `workerOpt`: the thread counts.
pub record WorkerOpt : Type 0 where
  pub num : ℤ
  pub max_threads : ℤ

-- options.go, `opt`: the thread counts.
pub record Opt : Type 0 where
  pub num_threads : ℤ
  pub max_threads : ℤ
  pub workers : List WorkerOpt

pub data BudgetError : Type 0 where
  worker_max_below_num worker_max_above_total : BudgetError
  max_not_above_workers max_below_threads_and_workers max_below_threads : BudgetError

pub data Budget {ℓ} (A : Type ℓ) : Type ℓ where
  ok : A → Budget A
  fail : BudgetError → Budget A

infixl 5 ◌>>=◌
abbrev pub ◌>>=◌ {ℓ κ} : {A : Type ℓ} {B : Type κ} → Budget A → (A → Budget B) → Budget B
ok a >>= f = f a
fail e >>= f = fail e

abbrev pub zero_ℤ : ℤ
zero_ℤ = pos 0

abbrev pub one_ℤ : ℤ
one_ℤ = pos 1

-- What the loop has added up.
pub record Sums : Type 0 where
  pub workers : List WorkerOpt
  pub num_workers : ℤ
  pub from_workers : ℤ

-- `if w.num <= 0 { opt.workers[i].num = maxProcs }`: `w` itself keeps the number it was declared
-- with.
unfoldable pub effective_num : ℤ → WorkerOpt → ℤ
effective_num max_procs w = if leb_ℤ w.num zero_ℤ then max_procs else w.num

-- The two checks and the share of one worker in `maxThreadsFromWorkers`.
unfoldable pub worker_share : ℤ → WorkerOpt → Budget ℤ
worker_share total w =
    if ltb_ℤ zero_ℤ w.max_threads
    then (if ltb_ℤ w.max_threads w.num
        then fail worker_max_below_num
        else if ltb_ℤ total w.max_threads && ltb_ℤ zero_ℤ total
        then fail worker_max_above_total
        else ok (w.max_threads -int w.num))
    else ok zero_ℤ

unfoldable pub worker_loop : ℤ → ℤ → List WorkerOpt → Budget Sums
worker_loop max_procs total [] =
    ok (record { workers = []; num_workers = zero_ℤ; from_workers = zero_ℤ })
worker_loop max_procs total (w ∷ ws) = do
  share ← worker_share total w
  rest ← worker_loop max_procs total ws
  ok (record {
    workers = record w { num = effective_num max_procs w } ∷ rest.workers;
    num_workers = effective_num max_procs w +int rest.num_workers;
    from_workers = share +int rest.from_workers;
  })

-- The numbers of threads and of at most so many that the rest of the function decides on.
abbrev pub Threads : Type 0
Threads = ℤ × ℤ

-- max_threads after "if max_threads is only defined in workers".
unfoldable pub raised_max : ℤ → ℤ → ℤ → ℤ → ℤ
raised_max num_threads max_threads num_workers from_workers =
    if ltb_ℤ zero_ℤ num_threads
    then num_threads +int from_workers
    else num_workers +int one_ℤ +int from_workers

-- The part below, once it is known which of the two numbers are set and whether the limit is
-- automatic.
unfoldable pub settle : Bool → Bool → Bool → ℤ → ℤ → ℤ → ℤ → Budget Threads
settle num_is_set max_is_set max_is_auto max_procs num_threads max_threads num_workers =
    if num_is_set && not max_is_set
    then ok (num_threads, num_threads)
    else if max_is_set && not num_is_set
    then (if not max_is_auto && ltb_ℤ max_threads (num_workers +int one_ℤ)
        then fail max_not_above_workers
        else ok (num_workers +int one_ℤ, max_threads))
    else if not num_is_set
    then (let threads = if leb_ℤ max_procs num_workers then num_workers +int one_ℤ else max_procs in
        ok (threads, threads))
    else if not max_is_auto && ltb_ℤ max_threads num_threads
    then fail
        (if ltb_ℤ zero_ℤ num_workers then max_below_threads_and_workers else max_below_threads)
    else ok (num_threads, max_threads)

abbrev is_zero : ℤ → Bool
is_zero (pos n) = leb_ℤ (pos n) zero_ℤ
is_zero (negsuc n) = false

unfoldable pub finish : ℤ → ℤ → ℤ → ℤ → ℤ → Budget Threads
unfolding settle raised_max
finish max_procs declared max_threads num_workers from_workers =
    let num_threads = if ltb_ℤ zero_ℤ declared then declared +int num_workers else declared in
    let raise = is_zero max_threads && ltb_ℤ zero_ℤ from_workers in
    settle (ltb_ℤ zero_ℤ num_threads) (not (is_zero max_threads) || raise)
      (ltb_ℤ max_threads zero_ℤ) max_procs num_threads
      (if raise then raised_max num_threads max_threads num_workers from_workers else max_threads)
      num_workers

-- The number of worker threads, and the options as the function leaves them.
unfoldable pub calculate_max_threads : ℤ → Opt → Budget (ℤ × Opt)
calculate_max_threads max_procs opt = do
  sums ← worker_loop max_procs opt.max_threads opt.workers
  (num_threads, max_threads) ←
      finish max_procs opt.num_threads opt.max_threads sums.num_workers sums.from_workers
  ok (
    sums.num_workers,
    record { num_threads = num_threads; max_threads = max_threads; workers = sums.workers },
  )
