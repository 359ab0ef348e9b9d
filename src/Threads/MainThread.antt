-- ===== src/Threads/MainThread.antt =====
-- phpmainthread.go: `inactivePHPThread`, `setAutomaticMaxThreads` and what
-- `go_frankenphp_main_thread_is_ready` makes of the limit. The memory limit of PHP and the memory of the
-- system are arguments.
use frankenphp.Base.{
  ℕ, ◌+◌, ◌-◌, ◌*◌, ◌/◌, ◌^◌, Bool, ◌||◌, List, [], ◌∷◌, ltb, ◌==◌, if◌then◌else◌, Option, none,
  some,
}
use frankenphp.Base.Int.{ℤ, pos, negsuc, leb_ℤ, ltb_ℤ}
use frankenphp.ThreadState.{ThreadState, inactive, reserved, boot_requested, is, compare_and_swap}
use frankenphp.Threads.Creation.{Boot, booted, boot}

pub data Found : Type 0 where
  thread : ℕ → Found  -- its position in phpThreads
  boot_failed : Boot → Found
  max_threads_reached : Found

-- The first loop, from position `i` on.
unfoldable pub first_inactive : ℕ → List ThreadState → Option ℕ
first_inactive i [] = none
first_inactive i (ts ∷ rest) =
    let later = first_inactive (i + 1) rest in if is inactive ts then some i else later

abbrev answer : ℕ → Boot → Found
answer i booted = thread i
answer i failure = boot_failed failure

-- The second loop; `created` is the answer of newCThread.
unfoldable pub boot_reserved : Bool → ℕ → List ThreadState → List ThreadState × Found
boot_reserved created i [] = ([], max_threads_reached)
boot_reserved created i (ts ∷ rest) =
    let (ts1, swapped) = compare_and_swap reserved boot_requested ts in
    let (ts2, result) = boot created ts1 in
    let (rest1, later) = boot_reserved created (i + 1) rest in
    if swapped then (ts2 ∷ rest, answer i result) else (ts1 ∷ rest1, later)

unfoldable pub inactive_php_thread : Bool → List ThreadState → List ThreadState × Found
inactive_php_thread created threads = elim (first_inactive 0 threads) [
  | some i ↦ (threads, thread i)
  | none ↦ boot_reserved created 0 threads
]

pub record MainThread : Type 0 where
  pub num_threads : ℕ
  pub max_threads : ℤ  -- negative: automatic

-- Go's conversion of a uint64 to an int.
abbrev pub to_int : ℕ → ℤ
to_int n = if ltb n (2 ^ 63) then pos n else negsuc (2 ^ 64 - 1 - n)

unfoldable pub set_automatic_max_threads : ℤ → ℕ → MainThread → MainThread
set_automatic_max_threads (pos per_thread) total_memory mt =
    if leb_ℤ (pos 0) mt.max_threads
    then mt
    else if per_thread == 0 || total_memory == 0
    then record mt { max_threads = pos (mt.num_threads * 2) }
    else record mt { max_threads = to_int (total_memory / per_thread) }
set_automatic_max_threads (negsuc n) total_memory mt =
    if leb_ℤ (pos 0) mt.max_threads
    then mt
    else record mt { max_threads = pos (mt.num_threads * 2) }

-- The limit with which the main thread is ready.
unfoldable pub main_thread_is_ready : ℤ → ℕ → MainThread → MainThread
main_thread_is_ready per_thread total_memory mt =
    let mt1 = set_automatic_max_threads per_thread total_memory mt in
    if ltb_ℤ mt1.max_threads (pos mt1.num_threads)
    then record mt1 { max_threads = pos mt1.num_threads }
    else mt1
