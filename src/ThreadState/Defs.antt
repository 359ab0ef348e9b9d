-- ===== src/ThreadState/Defs.antt =====
-- internal/state/state.go, `State` and `ThreadState`. Each critical section of `mu` is one function
-- from the record to the new record: goroutines interleave as sequences of these. A channel made by
-- `make(chan struct{})` is a number; `made` is the next one, `closed` lists those closed so far.
use frankenphp.Base.{
  ℕ, zero, suc, ◌+◌, ◌-◌, Bool, true, false, not, Option, none, some, List, [], ◌∷◌, ◌++◌, String,
  if◌then◌else◌, ◌==◌, any, get_elem?, set, take, length, keep,
}

pub data State : Type 0 where
  reserved booting boot_requested shutting_down done inactive ready : State
  transition_requested transition_in_progress transition_complete : State
  rebooting force_rebooting reboot_ready yielding_for_reboot : State

-- The value that `iota` gives the constant.
abbrev pub index : State → ℕ
index reserved = 0
index booting = 1
index boot_requested = 2
index shutting_down = 3
index done = 4
index inactive = 5
index ready = 6
index transition_requested = 7
index transition_in_progress = 8
index transition_complete = 9
index rebooting = 10
index force_rebooting = 11
index reboot_ready = 12
index yielding_for_reboot = 13

-- `String`; its default case is for numbers that are no constant of the type.
abbrev pub string : State → String
string reserved = "reserved"
string booting = "booting"
string boot_requested = "boot requested"
string shutting_down = "shutting down"
string done = "done"
string inactive = "inactive"
string ready = "ready"
string transition_requested = "transition requested"
string transition_in_progress = "transition in progress"
string transition_complete = "transition complete"
string rebooting = "rebooting"
string force_rebooting = "rebooting (force)"
string reboot_ready = "reboot ready"
string yielding_for_reboot = "yielding for reboot"

abbrev pub same_state : State → State → Bool
same_state a b = index a == index b

-- `slices.Contains(states, s)`
abbrev pub contains : List State → State → Bool
contains states s = any (λ t. same_state t s) states

pub record Subscriber : Type 0 where
  pub states : List State
  pub ch : ℕ

pub record ThreadState : Type 0 where
  pub current_state : State
  pub subscribers : List Subscriber
  pub waiting_since : ℕ  -- unix ms, 0 = not waiting
  pub made : ℕ
  pub closed : List ℕ

-- What a critical section tells its caller.
pub data Outcome : Type 0 where
  answer : Bool → Outcome
  parked : ℕ → Outcome  -- the caller blocks on this channel

unfoldable pub new_thread_state : ThreadState
new_thread_state = record {
  current_state = reserved;
  subscribers = [];
  waiting_since = 0;
  made = 0;
  closed = [];
}

unfoldable pub is : State → ThreadState → Bool
is s ts = same_state ts.current_state s

unfoldable pub get : ThreadState → State
get ts = ts.current_state

unfoldable pub name : ThreadState → String
unfolding get
name ts = string (get ts)

-- The loop of `notifySubscribers`: `i` is the position of `range`, `n` that of the next write into
-- the same slice.
unfoldable pub notify_loop :
    State → ℕ → ℕ → ℕ → List Subscriber → List ℕ → ℕ × List Subscriber × List ℕ
notify_loop next zero i n subs closed = (n, subs, closed)
notify_loop next (suc rounds) i n subs closed = elim (get_elem? subs i) [
  | none ↦ (n, subs, closed)
  | some sub ↦ elim (contains sub.states next) [
    | false ↦ notify_loop next rounds (i + 1) (n + 1) (set subs n sub) closed
    | true ↦ notify_loop next rounds (i + 1) n subs (closed ++ sub.ch ∷ [])
  ]
]

unfoldable pub notify_subscribers : State → ThreadState → ThreadState
notify_subscribers next ts =
    if length ts.subscribers == 0
    then ts
    else (let (n, subs, closed) =
          notify_loop next (length ts.subscribers) 0 0 ts.subscribers ts.closed in
        record ts { subscribers = take n subs; closed = closed })

unfoldable pub set_state : State → ThreadState → ThreadState
set_state next ts = notify_subscribers next (record ts { current_state = next })

unfoldable pub compare_and_swap : State → State → ThreadState → ThreadState × Bool
compare_and_swap compare_to swap_to ts =
    if same_state ts.current_state compare_to then (set_state swap_to ts, true) else (ts, false)

-- Registers a subscriber: the part that `WaitFor` and `WaitForStateWithTimeout` share, up to the
-- receive on the channel.
unfoldable pub wait_for : List State → ThreadState → ThreadState × Outcome
wait_for states ts = if contains states ts.current_state then (ts, answer true) else (
  record ts {
    subscribers = ts.subscribers ++ record { states = states; ch = ts.made } ∷ [];
    made = ts.made + 1;
  },
  parked ts.made,
)

-- The receive `<-sub.ch` goes on when the channel is closed.
unfoldable pub wakes : ℕ → ThreadState → Bool
wakes ch ts = any (λ c. c == ch) ts.closed

-- The timeout branch of `WaitForStateWithTimeout`: `slices.DeleteFunc` of the own subscriber.
unfoldable pub timed_out : ℕ → ThreadState → ThreadState × Bool
timed_out ch ts = (record ts { subscribers = keep (λ s. not (ch == s.ch)) ts.subscribers }, false)

abbrev pub is_terminal : State → Bool
is_terminal reserved = true
is_terminal shutting_down = true
is_terminal done = true
is_terminal _ = false

abbrev pub is_stable : State → Bool
is_stable ready = true
is_stable inactive = true
is_stable _ = false

-- The first critical section of `RequestSafeStateChange`: refuse, change, or `none` for going on to
-- `WaitFor`, which locks anew.
unfoldable pub request_check : State → ThreadState → ThreadState × Option Bool
request_check next ts =
    if is_terminal ts.current_state
    then (ts, some false)
    else if is_stable ts.current_state
    then (set_state next ts, some true)
    else (ts, none)

-- The states that it waits for.
abbrev pub awaited : List State
awaited = ready ∷ inactive ∷ reserved ∷ done ∷ []

-- What other goroutines do between the two critical sections of a round, and while this one is parked
-- up to its next round.
pub record Meanwhile : Type 0 where
  pub before_wait : ThreadState → ThreadState
  pub while_parked : ThreadState → ThreadState

-- The state at the next round: `WaitFor` returns at once where one of its states was set meanwhile.
abbrev pub next_round : Meanwhile → ThreadState → ThreadState
next_round m ts =
    let (waiting, out) = wait_for awaited (m.before_wait ts) in
    elim out [ answer b ↦ waiting | parked ch ↦ m.while_parked waiting ]

-- The recursion, against what happens in each round. `none` means that it has not returned when the
-- list ends.
unfoldable pub request_safe_state_change :
    State → List Meanwhile → ThreadState → Option (ThreadState × Bool)
request_safe_state_change next [] ts =
    let (ts', decided) = request_check next ts in
    elim decided [ some b ↦ some (ts', b) | none ↦ none ]
request_safe_state_change next (m ∷ rest) ts =
    let (ts', decided) = request_check next ts in
    let again = request_safe_state_change next rest (next_round m ts') in
    elim decided [ some b ↦ some (ts', b) | none ↦ again ]

-- `MarkAsWaiting` at the time `now`.
unfoldable pub mark_as_waiting : ℕ → Bool → ThreadState → ThreadState
mark_as_waiting now is_waiting ts = record ts { waiting_since = if is_waiting then now else 0 }

unfoldable pub is_in_waiting_state : ThreadState → Bool
is_in_waiting_state ts = not (ts.waiting_since == 0)

-- Milliseconds; a clock set back would give a negative number in Go, and 0 here.
unfoldable pub wait_time : ℕ → ThreadState → ℕ
wait_time now ts = if ts.waiting_since == 0 then 0 else now - ts.waiting_since

unfoldable pub set_wait_time : ℕ → ThreadState → ThreadState
set_wait_time t ts = record ts { waiting_since = t }
