-- ===== src/Threads/Creation.antt =====
-- phpthread.go: `boot`, `reboot`, `retryThreadCreation`, the delay of `restoreThread` and
-- `go_frankenphp_on_thread_shutdown`, over the ThreadState. Times are in milliseconds.
use frankenphp.Base.{
  ℕ, zero, ap, suc, ◌+◌, ◌-◌, ◌*◌, ◌≤◌, ◌<◌, ◌≡◌, refl, ◌∙◌, Bool, true, false, not, leb, ltb,
  if◌then◌else◌, Option, none, some, arith, inl, inr, Bool-cases, ◌≢◌,
}
use Prim.Native.Nat.{min}
use frankenphp.ThreadState.{
  State, ThreadState, reserved, booting, boot_requested, done, ready, rebooting, force_rebooting,
  reboot_ready, yielding_for_reboot, set_state, compare_and_swap, get,
}
use frankenphp.ThreadState.Notify.{set_state_lem}

pub data Boot : Type 0 where
  booted : Boot  -- the caller waits for Inactive
  thread_creation : Boot  -- ErrThreadCreation
  panic : Boot

-- `created` is the answer of newCThread.
unfoldable pub boot : Bool → ThreadState → ThreadState × Boot
boot created ts =
    let (ts1, first) = compare_and_swap reserved booting ts in
    let (ts2, second) =
      if first then (ts1, true) else compare_and_swap boot_requested booting ts1 in
    if not second
    then (ts2, panic)
    else if not created
    then (set_state reserved ts2, thread_creation)
    else (ts2, booted)

unfoldable pub reboot : ThreadState → ThreadState × Bool
reboot ts = compare_and_swap ready rebooting ts

abbrev after_shutdown : State → State
after_shutdown rebooting = reboot_ready
after_shutdown force_rebooting = yielding_for_reboot
after_shutdown _ = done

-- `go_frankenphp_on_thread_shutdown`
unfoldable pub on_thread_shutdown : ThreadState → ThreadState
on_thread_shutdown ts = set_state (after_shutdown (get ts)) ts

abbrev pub max_thread_creation_retry_delay : ℕ
max_thread_creation_retry_delay = 256

abbrev pub max_thread_restore_delay : ℕ
max_thread_restore_delay = 10000

-- The loop of `retryThreadCreation` from attempt `k` on: whether a thread was created, how many calls
-- of `create` were made, and how long it slept. `create k` is the answer of the k-th call; `none`
-- means that the fuel ran out.
unfoldable pub retry_loop : (ℕ → Bool) → ℕ → ℕ → ℕ → ℕ → Option (Bool × ℕ × ℕ)
retry_loop create zero k delay slept = none
retry_loop create (suc fuel) k delay slept =
    let next = retry_loop create fuel (k + 1) (delay * 2) (slept + delay) in
    if create k
    then some (true, k + 1, slept)
    else if ltb max_thread_creation_retry_delay delay
    then some (false, k + 1, slept)
    else next

unfoldable pub retry_thread_creation : (ℕ → Bool) → Option (Bool × ℕ × ℕ)
unfolding retry_loop
retry_thread_creation create = retry_loop create 10 0 1 0

-- The delays of `restoreThread`: the n-th.
unfoldable pub restore_delay : ℕ → ℕ
restore_delay zero = max_thread_creation_retry_delay
restore_delay (suc n) = min (2 * restore_delay n) max_thread_restore_delay

current-set_state : (s : State) (ts : ThreadState) → (set_state s ts).current_state ≡ s
current-set_state s ts = rw (set_state_lem s ts)

-- A thread boots from Reserved or BootRequested only, anything else panics; where the C thread cannot
-- be created it is Reserved again, and can be booted again, else it is Booting.
pub boot_lem :
    (created : Bool) (ts : ThreadState)
    → ((boot created ts).1 ≡ panic
        → (ts.current_state ≢ reserved)
          × (ts.current_state ≢ boot_requested)
          × ((boot created ts).0 ≡ ts))
      × ((boot created ts).1 ≡ thread_creation
          → (created ≡ false) × ((boot created ts).0.current_state ≡ reserved))
      × ((boot created ts).1 ≡ booted
          → (created ≡ true) × ((boot created ts).0.current_state ≡ booting))
unfolding boot compare_and_swap
boot_lem created ts = (
  λ h. (λ e. ground arith, λ e. ground arith, ground arith),
  λ h. (ground arith, ground (arith, current-set_state reserved (set_state booting ts))),
  λ h. (ground arith, ground (arith, current-set_state booting ts)),
)

retry_one :
    (create : ℕ → Bool) (k fuel delay slept : ℕ)
    → create k ≡ true
    → retry_loop create (suc fuel) k delay slept ≡ some (true, k + 1, slept)
unfolding retry_loop
retry_one create k fuel delay slept h = ground (arith, h)

retry_on :
    (create : ℕ → Bool) (k fuel delay slept : ℕ)
    → create k ≡ false
    → ltb max_thread_creation_retry_delay delay ≡ false
    → retry_loop create (suc fuel) k delay slept
      ≡ retry_loop create fuel (k + 1) (delay * 2) (slept + delay)
unfolding retry_loop
retry_on create k fuel delay slept h l = ground (arith, h, l)

abbrev Tried : (ℕ → Bool) → ℕ → Option (Bool × ℕ × ℕ) → Type 0
Tried create k r =
    (ok : Bool) × (calls : ℕ) × (slept : ℕ) × (r ≡ some (ok, calls, slept))
    × (k < calls)
    × (calls ≤ 10)
    × (slept ≤ 511)
    × (ok ≡ true → create (calls - 1) ≡ true)
    × (ok ≡ false → (calls ≡ 10) × ((j : ℕ) → k ≤ j → j < 10 → create j ≡ false))

false_at :
    (create : ℕ → Bool) (k j : ℕ)
    → create k ≡ false
    → (k + 1 ≤ j → j < 10 → create j ≡ false)
    → k ≤ j
    → j < 10
    → create j ≡ false
false_at create k j h rest lo hi = elim (Bool-cases (leb (k + 1) j)) [
  | inl above ↦ rest (ground (arith, above)) hi
  | inr not_above ↦ ap create (ground (arith, not_above, lo)) ∙ h
]

Tried-next :
    (create : ℕ → Bool) (k fuel delay slept : ℕ)
    → k ≤ 9
    → slept ≤ 511
    → ltb max_thread_creation_retry_delay delay ≡ false
    → Tried create (k + 1) (retry_loop create fuel (k + 1) (delay * 2) (slept + delay))
    → Tried create k (retry_loop create (suc fuel) k delay slept)
Tried-next create k fuel delay slept le small l (ok, calls, total, e, a, b, c, d, f) =
    elim (Bool-cases (create k)) [
      | inl h ↦ (
        true,
        k + 1,
        slept,
        retry_one create k fuel delay slept h,
        omega arith,
        omega arith,
        small,
        λ t. ground (arith, h),
        λ t. ground arith,
      )
      | inr h ↦ (
        ok,
        calls,
        total,
        retry_on create k fuel delay slept h l ∙ e,
        omega (arith, a),
        b,
        c,
        d,
        λ t. ((f t).0, λ j lo hi. false_at create k j h ((f t).1 j) lo hi),
      )
    ]

Tried-last : (create : ℕ → Bool) → Tried create 9 (retry_loop create 1 9 512 511)
unfolding retry_loop
Tried-last create = elim (Bool-cases (create 9)) [
  | inl h ↦ (
    true,
    10,
    511,
    ground (arith, h),
    omega arith,
    omega arith,
    omega arith,
    λ t. h,
    λ t. ground arith,
  )
  | inr h ↦ (
    false,
    10,
    511,
    ground (arith, h),
    omega arith,
    omega arith,
    omega arith,
    λ t. ground arith,
    λ t. (refl, λ j lo hi. false_at create 9 j h (λ a b. ground arith) lo hi),
  )
]

-- Creation ends after at most ten calls of `create`, at least one, with sleeps of at most 511 ms in
-- all. Where it answers true the last call made has succeeded; where it answers false all ten
-- calls have failed.
pub retry_thread_creation_lem :
    (create : ℕ → Bool)
    → (ok : Bool) × (calls : ℕ) × (slept : ℕ) × (retry_thread_creation create
        ≡ some (ok, calls, slept))
      × (0 < calls)
      × (calls ≤ 10)
      × (slept ≤ 511)
      × (ok ≡ true → create (calls - 1) ≡ true)
      × (ok ≡ false → (calls ≡ 10) × ((j : ℕ) → 0 ≤ j → j < 10 → create j ≡ false))
unfolding retry_thread_creation
retry_thread_creation_lem create = Tried-next create 0 9 1 0 (omega arith) (omega arith) refl (
    Tried-next create 1 8 2 1 (omega arith) (omega arith) refl (
      Tried-next create 2 7 4 3 (omega arith) (omega arith) refl (
        Tried-next create 3 6 8 7 (omega arith) (omega arith) refl (
          Tried-next create 4 5 16 15 (omega arith) (omega arith) refl (
            Tried-next create 5 4 32 31 (omega arith) (omega arith) refl (
              Tried-next create 6 3 64 63 (omega arith) (omega arith) refl (
                Tried-next create 7 2 128 127 (omega arith) (omega arith) refl (
                  Tried-next create 8 1 256 255 (omega arith) (omega arith) refl
                    (Tried-last create)))))))))

-- The delays between restores lie between 256 ms and 10 s and never decrease.
pub restore_delay_bounds :
    (n : ℕ)
    → (256 ≤ restore_delay n)
      × (restore_delay n ≤ 10000)
      × (restore_delay n ≤ restore_delay (suc n))
unfolding restore_delay
restore_delay_bounds zero = omega arith
restore_delay_bounds (suc n) = omega (arith, restore_delay_bounds n)
