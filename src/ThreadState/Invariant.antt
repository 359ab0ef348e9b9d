-- ===== src/ThreadState/Invariant.antt =====
-- internal/state/state.go: what holds between any two critical sections, for every interleaving of
-- the goroutines that share a ThreadState.
use frankenphp.Base.{
  ℕ, ◌+◌, ◌≤◌, ◌≡◌, refl, Bool, false, not, List, [], ◌∷◌, ◌++◌, arith, ◌==◌, keep, All, inl, inr,
  Bool-cases, if◌then◌else◌,
}
use frankenphp.ThreadState.Defs.{
  State, Subscriber, ThreadState, same_state, contains, set_state, compare_and_swap, wait_for,
  timed_out, request_check, mark_as_waiting, set_wait_time, new_thread_state, is_terminal,
  is_stable,
}
use frankenphp.ThreadState.Notify.{stays, woken, channels, set_state_lem}

-- How often a channel stands in a list of channels.
abbrev pub count : ℕ → List ℕ → ℕ
count c [] = 0
count c (x ∷ xs) = (if x == c then 1 else 0) + count c xs

count-append : (c : ℕ) (xs ys : List ℕ) → count c (xs ++ ys) ≡ count c xs + count c ys
count-append c [] ys = omega arith
count-append c (x ∷ xs) ys = omega (arith, count-append c xs ys)

abbrev parked_count : ℕ → List Subscriber → ℕ
parked_count c subs = count c (channels subs)

parked_count-append :
    (c : ℕ) (xs ys : List Subscriber)
    → parked_count c (xs ++ ys) ≡ parked_count c xs + parked_count c ys
parked_count-append c [] ys = omega arith
parked_count-append c (x ∷ xs) ys = omega (arith, parked_count-append c xs ys)

-- Every channel is parked on or closed, once in all: closing one twice would panic. Nobody is parked
-- for a state that the thread is in: no wake-up is lost.
pub record IsSound (ts : ThreadState) : Type 0 where
  pub once : (c : ℕ) → count c ts.closed + parked_count c ts.subscribers ≤ 1
  pub fresh : (c : ℕ) → ts.made ≤ c → count c ts.closed + parked_count c ts.subscribers ≡ 0
  pub no_lost : All (λ s. contains s.states ts.current_state ≡ false) ts.subscribers

keep_split :
    (c : ℕ) (next : State) (subs : List Subscriber)
    → parked_count c (keep (stays next) subs) + parked_count c (keep (woken next) subs)
      ≡ parked_count c subs
keep_split c next [] = omega arith
keep_split c next (x ∷ xs) = ground (arith, keep_split c next xs)

keep_le :
    (c : ℕ) (p : Subscriber → Bool) (subs : List Subscriber)
    → parked_count c (keep p subs) ≤ parked_count c subs
keep_le c p [] = omega arith
keep_le c p (x ∷ xs) = ground (arith, keep_le c p xs)

All-stays :
    (next : State) (subs : List Subscriber)
    → All (λ s. contains s.states next ≡ false) (keep (stays next) subs)
All-stays next [] = tt
All-stays next (x ∷ xs) = elim (Bool-cases (contains x.states next)) [
  | inl h ↦ rw h (All-stays next xs)
  | inr h ↦ rw h (h, All-stays next xs)
]

All-keep {ℓ} :
    (P : Subscriber → Type ℓ) (p : Subscriber → Bool) (subs : List Subscriber)
    → All P subs
    → All P (keep p subs)
All-keep P p [] h = tt
All-keep P p (x ∷ xs) (hx, hs) = elim (Bool-cases (p x)) [
  | inl e ↦ rw e (hx, All-keep P p xs hs)
  | inr e ↦ rw e (All-keep P p xs hs)
]

All-append {ℓ} :
    (P : Subscriber → Type ℓ) (xs ys : List Subscriber) → All P xs → All P ys → All P (xs ++ ys)
All-append P [] ys hx hy = hy
All-append P (x ∷ xs) ys (h, hx) hy = (h, All-append P xs ys hx hy)

pub set_state-IsSound : (next : State) (ts : ThreadState) → IsSound ts → IsSound (set_state next ts)
set_state-IsSound next ts v = rw (set_state_lem next ts) (record {
  once = λ c. omega (
    arith,
    v.once c,
    keep_split c next ts.subscribers,
    count-append c ts.closed (channels (keep (woken next) ts.subscribers)),
  );
  fresh = λ c h. omega (
    arith,
    v.fresh c h,
    keep_split c next ts.subscribers,
    count-append c ts.closed (channels (keep (woken next) ts.subscribers)),
  );
  no_lost = All-stays next ts.subscribers;
})

pub wait_for-IsSound :
    (states : List State) (ts : ThreadState) → IsSound ts → IsSound (wait_for states ts).0
unfolding wait_for
wait_for-IsSound states ts v = elim (Bool-cases (contains states ts.current_state)) [
  | inl h ↦ rw h v
  | inr h ↦ rw h (record {
    once = λ c. ground (
      arith,
      v.once c,
      v.fresh c,
      parked_count-append c ts.subscribers (record { states = states; ch = ts.made } ∷ []),
    );
    fresh = λ c k. ground (
      arith,
      v.fresh c,
      parked_count-append c ts.subscribers (record { states = states; ch = ts.made } ∷ []),
    );
    no_lost = All-append _ ts.subscribers _ v.no_lost (h, tt);
  })
]

pub compare_and_swap-IsSound :
    (a b : State) (ts : ThreadState) → IsSound ts → IsSound (compare_and_swap a b ts).0
unfolding compare_and_swap
compare_and_swap-IsSound a b ts v = elim (Bool-cases (same_state ts.current_state a)) [
  | inl h ↦ rw h (set_state-IsSound b ts v)
  | inr h ↦ rw h v
]

pub timed_out-IsSound : (ch : ℕ) (ts : ThreadState) → IsSound ts → IsSound (timed_out ch ts).0
unfolding timed_out
timed_out-IsSound ch ts v = record {
  once = λ c. omega (arith, v.once c, keep_le c (λ s. not (ch == s.ch)) ts.subscribers);
  fresh = λ c h. omega (arith, v.fresh c h, keep_le c (λ s. not (ch == s.ch)) ts.subscribers);
  no_lost = All-keep _ (λ s. not (ch == s.ch)) ts.subscribers v.no_lost;
}

pub request_check-IsSound :
    (next : State) (ts : ThreadState) → IsSound ts → IsSound (request_check next ts).0
unfolding request_check
request_check-IsSound next ts v = elim (Bool-cases (is_terminal ts.current_state)) [
  | inl h ↦ rw h v
  | inr h ↦ elim (Bool-cases (is_stable ts.current_state)) [
    | inl k ↦ rw (h, k) (set_state-IsSound next ts v)
    | inr k ↦ rw (h, k) v
  ]
]

-- One critical section of some goroutine.
pub data Op : Type 0 where
  do_set : State → Op
  do_compare_and_swap : State → State → Op
  do_wait_for : List State → Op
  do_time_out : ℕ → Op
  do_request : State → Op
  do_mark : ℕ → Bool → Op
  do_set_wait_time : ℕ → Op

pub step : Op → ThreadState → ThreadState
step (do_set s) ts = set_state s ts
step (do_compare_and_swap a b) ts = (compare_and_swap a b ts).0
step (do_wait_for states) ts = (wait_for states ts).0
step (do_time_out ch) ts = (timed_out ch ts).0
step (do_request s) ts = (request_check s ts).0
step (do_mark now b) ts = mark_as_waiting now b ts
step (do_set_wait_time t) ts = set_wait_time t ts

pub run : List Op → ThreadState → ThreadState
run [] ts = ts
run (o ∷ os) ts = run os (step o ts)

mark-IsSound :
    (now : ℕ) (b : Bool) (ts : ThreadState) → IsSound ts → IsSound (mark_as_waiting now b ts)
unfolding mark_as_waiting
mark-IsSound now b ts v = record { once = v.once; fresh = v.fresh; no_lost = v.no_lost }

set_wait_time-IsSound : (t : ℕ) (ts : ThreadState) → IsSound ts → IsSound (set_wait_time t ts)
unfolding set_wait_time
set_wait_time-IsSound t ts v = record { once = v.once; fresh = v.fresh; no_lost = v.no_lost }

step-IsSound : (o : Op) (ts : ThreadState) → IsSound ts → IsSound (step o ts)
unfolding step
step-IsSound (do_set s) ts v = set_state-IsSound s ts v
step-IsSound (do_compare_and_swap a b) ts v = compare_and_swap-IsSound a b ts v
step-IsSound (do_wait_for states) ts v = wait_for-IsSound states ts v
step-IsSound (do_time_out ch) ts v = timed_out-IsSound ch ts v
step-IsSound (do_request s) ts v = request_check-IsSound s ts v
step-IsSound (do_mark now b) ts v = mark-IsSound now b ts v
step-IsSound (do_set_wait_time t) ts v = set_wait_time-IsSound t ts v

run_from-IsSound : (os : List Op) (ts : ThreadState) → IsSound ts → IsSound (run os ts)
unfolding run
run_from-IsSound [] ts v = v
run_from-IsSound (o ∷ os) ts v = run_from-IsSound os (step o ts) (step-IsSound o ts v)

new_thread_state-IsSound : IsSound new_thread_state
unfolding new_thread_state
new_thread_state-IsSound = record { once = λ c. omega arith; fresh = λ c h. refl; no_lost = tt }

-- After any interleaving of critical sections from a new ThreadState: no channel has been closed
-- twice or is closed while a subscriber still holds it, no two subscribers share one, and no
-- subscriber is parked for the state that the thread is in.
pub run-IsSound : (os : List Op) → IsSound (run os new_thread_state)
run-IsSound os = run_from-IsSound os new_thread_state new_thread_state-IsSound
