-- ===== src/Threads/MainThreadLaws.antt =====
-- phpmainthread.go: which thread is taken for a new handler, and the limit of threads.
use frankenphp.Base.{
  ℕ, suc, ◌+◌, ◌*◌, ◌/◌, ◌^◌, ◌<◌, ◌≡◌, refl, sym, ap, ◌⊎◌, inl, inr, Bool, true, false, List, [],
  ◌∷◌, ◌++◌, any, if◌then◌else◌, none, some, length, arith, Bool-cases,
}
use mathlib.Core.Path.{subst}
use frankenphp.Base.Int.{ℤ, pos, negsuc, leb_ℤ, ◌≤ℤ◌}
use frankenphp.ThreadState.{
  ThreadState, State, inactive, reserved, booting, boot_requested, is, compare_and_swap, set_state,
}
use frankenphp.ThreadState.Notify.{set_state_lem}
use frankenphp.Threads.Creation.{booted, thread_creation, boot}
use frankenphp.Threads.MainThread.{
  Found, thread, boot_failed, max_threads_reached, first_inactive, boot_reserved,
  inactive_php_thread, MainThread, set_automatic_max_threads, main_thread_is_ready,
}

-- Where both are known, the automatic limit is no less than the share of the memory.
known_share :
    (n total_memory : ℕ) (mt : MainThread)
    → leb_ℤ (pos 0) mt.max_threads ≡ false
    → 0 < total_memory
    → total_memory / suc n < 2 ^ 63
    → pos (total_memory / suc n) ≤ℤ (main_thread_is_ready (pos (suc n)) total_memory mt).max_threads
unfolding main_thread_is_ready set_automatic_max_threads
known_share n total_memory mt h t b = known (total_memory / suc n) refl b
  where
    known :
        (q : ℕ)
        → q ≡ total_memory / suc n
        → q < 2 ^ 63
        → pos q ≤ℤ (main_thread_is_ready (pos (suc n)) total_memory mt).max_threads
    known q e b = ground (arith, h, t, b, sym e)

-- Once the main thread is ready the limit is not below the threads that are started; a limit that was
-- configured and is not below them stays; an automatic one is twice these threads where PHP's memory
-- limit or the memory of the system is not known, and else no lower than the quotient of the two, if
-- that is below 2 ^ 63.
pub main_thread_is_ready_lem :
    (per_thread : ℤ) (total_memory : ℕ) (mt : MainThread)
    → (pos mt.num_threads ≤ℤ (main_thread_is_ready per_thread total_memory mt).max_threads)
      × ((main_thread_is_ready per_thread total_memory mt).num_threads ≡ mt.num_threads)
      × (pos mt.num_threads ≤ℤ mt.max_threads
          → main_thread_is_ready per_thread total_memory mt ≡ mt)
      × (leb_ℤ (pos 0) mt.max_threads ≡ false
          → (total_memory ≡ 0) ⊎ (leb_ℤ per_thread (pos 0) ≡ true)
          → (main_thread_is_ready per_thread total_memory mt).max_threads
            ≡ pos (mt.num_threads * 2))
      × (leb_ℤ (pos 0) mt.max_threads ≡ false
          → (n : ℕ) → per_thread ≡ pos (suc n)
          → 0 < total_memory
          → total_memory / suc n < 2 ^ 63
          → pos (total_memory / suc n)
            ≤ℤ (main_thread_is_ready per_thread total_memory mt).max_threads)
unfolding main_thread_is_ready set_automatic_max_threads
main_thread_is_ready_lem (pos k) total_memory mt = (
  ground arith,
  ground arith,
  λ h. ground arith,
  λ h e. ground arith,
  λ h n e t b.
      subst
        (λ (z : ℤ).
          pos (total_memory / suc n) ≤ℤ (main_thread_is_ready z total_memory mt).max_threads)
        (sym e) (known_share n total_memory mt h t b),
)
main_thread_is_ready_lem (negsuc k) total_memory mt =
    (ground arith, ground arith, λ h. ground arith, λ h e. ground arith, λ h n e t b. absurd (cc))

current-set_state : (s : State) (ts : ThreadState) → (set_state s ts).current_state ≡ s
current-set_state s ts = rw (set_state_lem s ts)

-- What comes of a thread that was reserved.
booted_lem :
    (created : Bool) (ts : ThreadState)
    → ts.current_state ≡ boot_requested
    → ((boot created ts).1 ≡ (if created then booted else thread_creation))
      × ((boot created ts).0.current_state ≡ (if created then booting else reserved))
unfolding boot compare_and_swap
booted_lem created ts h =
    ground
      (arith, h, current-set_state booting ts, current-set_state reserved (set_state booting ts))

-- The list after the boot of its first reserved thread, or all of it where none is reserved.
abbrev pub FirstBooted : Bool → ℕ → List ThreadState → List ThreadState × Found → Type 0
FirstBooted created i threads r =
    ((any (is reserved) threads ≡ false) × (r ≡ (threads, max_threads_reached)))
    ⊎ ((before : List ThreadState) × (ts : ThreadState) × (after : List ThreadState)
        × (ts' : ThreadState) × (threads ≡ before ++ ts ∷ after)
        × (any (is reserved) before ≡ false)
        × (is reserved ts ≡ true)
        × (ts'.current_state ≡ (if created then booting else reserved))
        × (r ≡ (
          before ++ ts' ∷ after,
          if created then thread (i + length before) else boot_failed thread_creation,
        )))

boot_reserved-FirstBooted :
    (created : Bool) (i : ℕ) (threads : List ThreadState)
    → FirstBooted created i threads (boot_reserved created i threads)
unfolding boot_reserved compare_and_swap is
boot_reserved-FirstBooted created i [] = inl (refl, refl)
boot_reserved-FirstBooted created i (ts ∷ rest) = elim (Bool-cases (is reserved ts)) [
  | inl e ↦
      let (b, c) =
        booted_lem created (set_state boot_requested ts) (current-set_state boot_requested ts) in
      inr (
        [],
        ts,
        rest,
        (boot created (set_state boot_requested ts)).0,
        refl,
        refl,
        e,
        c,
        ground (arith, e, b),
      )
  | inr e ↦ elim (boot_reserved-FirstBooted created (i + 1) rest) [
    | inl (h, r) ↦ inl (ground (arith, e, h), ground (arith, e, r))
    | inr (before, t, after, t', h, n, y, c, r) ↦
        let number : (if created
              then thread (i + 1 + length before)
              else boot_failed thread_creation)
            ≡ (if created then thread (i + length (ts ∷ before)) else boot_failed thread_creation) =
          ground arith in
        inr (
          ts ∷ before,
          t,
          after,
          t',
          ap (λ l. ts ∷ l) h,
          ground (arith, e, n),
          y,
          c,
          ground (arith, e, r, number),
        )
  ]
]

first_inactive_lem :
    (i : ℕ) (threads : List ThreadState)
    → ((first_inactive i threads ≡ none) × (any (is inactive) threads ≡ false))
      ⊎ ((before : List ThreadState) × (ts : ThreadState) × (after : List ThreadState) × (threads
            ≡ before ++ ts ∷ after)
          × (any (is inactive) before ≡ false)
          × (is inactive ts ≡ true)
          × (first_inactive i threads ≡ some (i + length before)))
unfolding first_inactive is
first_inactive_lem i [] = inl (refl, refl)
first_inactive_lem i (ts ∷ rest) = elim (Bool-cases (is inactive ts)) [
  | inl e ↦ inr ([], ts, rest, refl, refl, e, ground (arith, e))
  | inr e ↦ elim (first_inactive_lem (i + 1) rest) [
    | inl (h, n) ↦ inl (ground (arith, e, h), ground (arith, e, n))
    | inr (before, t, after, h, n, y, r) ↦
        inr
          (ts ∷ before, t, after, ap (λ l. ts ∷ l) h, ground (arith, e, n), y, ground (arith, e, r))
  ]
]

-- The thread for a new handler is the first inactive one, and then no thread changes; where there is
-- none, it is the first reserved one, which boots or, where the C thread cannot be made, is reserved again
-- and no other is tried; ErrMaxThreadsReached is returned exactly where there is neither.
pub inactive_php_thread_lem :
    (created : Bool) (threads : List ThreadState)
    → ((before : List ThreadState) × (ts : ThreadState) × (after : List ThreadState) × (threads
          ≡ before ++ ts ∷ after)
        × (any (is inactive) before ≡ false)
        × (is inactive ts ≡ true)
        × (inactive_php_thread created threads ≡ (threads, thread (length before))))
      ⊎ ((any (is inactive) threads ≡ false)
          × FirstBooted created 0 threads (inactive_php_thread created threads))
unfolding inactive_php_thread
inactive_php_thread_lem created threads = elim (first_inactive_lem 0 threads) [
  | inl (h, n) ↦
      let is_boot : boot_reserved created 0 threads ≡ inactive_php_thread created threads =
        ground (arith, h) in
      inr (
        n,
        subst (FirstBooted created 0 threads) is_boot (boot_reserved-FirstBooted created 0 threads),
      )
  | inr (before, ts, after, h, n, y, r) ↦ inl (before, ts, after, h, n, y, ground (arith, r))
]
