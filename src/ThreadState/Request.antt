-- ===== src/ThreadState/Request.antt =====
-- internal/state/state.go, `WaitFor` and `RequestSafeStateChange`: who is woken, and what is granted.
use frankenphp.Base.{
  Option-cases, ℕ, ◌+◌, ◌≡◌, refl, ap, Bool, true, false, some, List, [], ◌∷◌, ◌++◌, arith, ◌==◌,
  keep, any, inl, inr, Option, none, ◌≢◌, ◌⊎◌,
}
use mathlib.Core.List.{Memᴰ}
use mathlib.Core.Path.{subst}
use frankenphp.ThreadState.Defs.{
  State, Subscriber, ThreadState, Meanwhile, next_round, parked, contains, set_state, wait_for,
  request_check, request_safe_state_change, wakes, is_terminal, is_stable, ready, inactive,
  reserved, shutting_down, done,
}
use frankenphp.ThreadState.Notify.{woken, channels, set_state_lem}

any-append :
    (c : ℕ) (xs ys : List ℕ) → any (λ x. x == c) ys ≡ true → any (λ x. x == c) (xs ++ ys) ≡ true
any-append c [] ys h = h
any-append c (x ∷ xs) ys h = ground (arith, any-append c xs ys h)

any-channels :
    (next : State) (sub : Subscriber) (subs : List Subscriber)
    → Memᴰ sub subs
    → contains sub.states next ≡ true
    → any (λ c. c == sub.ch) (channels (keep (woken next) subs)) ≡ true
any-channels next sub [] m h = elim m [ ]
any-channels next sub (x ∷ xs) (Memᴰ.head e) h =
    ground
      (arith, ap (λ (t : Subscriber). t.ch) e, ap (λ (t : Subscriber). contains t.states next) e)
any-channels next sub (x ∷ xs) (Memᴰ.tail m) h = ground (arith, any-channels next sub xs m h)

-- A goroutine parked for a state is woken by whoever sets that state.
pub set_state-wakes :
    (next : State) (sub : Subscriber) (ts : ThreadState)
    → Memᴰ sub ts.subscribers
    → contains sub.states next ≡ true
    → wakes sub.ch (set_state next ts) ≡ true
unfolding wakes
set_state-wakes next sub ts m h =
    rw (set_state_lem next ts)
      (any-append sub.ch ts.closed _ (any-channels next sub ts.subscribers m h))

last_mem : (subs : List Subscriber) (sub : Subscriber) → Memᴰ sub (subs ++ sub ∷ [])
last_mem [] sub = Memᴰ.head refl
last_mem (x ∷ xs) sub = Memᴰ.tail (last_mem xs sub)

wait_parked :
    (states : List State) (ts : ThreadState) {ch : ℕ}
    → (wait_for states ts).1 ≡ parked ch
    → (ch ≡ ts.made)
      × ((wait_for states ts).0 ≡ record ts {
        subscribers = ts.subscribers ++ record { states = states; ch = ts.made } ∷ [];
        made = ts.made + 1;
      })
unfolding wait_for
wait_parked states ts h = ground arith

-- A call of WaitFor that parks is woken as soon as the thread is set to one of its states.
pub wait_for-wakes :
    (states : List State) (s : State) (ts : ThreadState) (ch : ℕ)
    → (wait_for states ts).1 ≡ parked ch
    → contains states s ≡ true
    → wakes ch (set_state s (wait_for states ts).0) ≡ true
wait_for-wakes states s ts ch h k =
    let (e, e') = wait_parked states ts h in
    rw (e, e')
      (set_state-wakes s (record { states = states; ch = ts.made }) _ (last_mem ts.subscribers _) k)

-- A change that was made came from the state `before`, which was Ready or Inactive; a refusal found
-- `before` reserved, shutting down or done, and left it alone.
abbrev pub Decided : State → ThreadState → ThreadState → Bool → Type 0
Decided next before after true =
    ((before.current_state ≡ ready) ⊎ (before.current_state ≡ inactive))
    × (after ≡ set_state next before)
Decided next before after false =
    ((before.current_state ≡ reserved)
      ⊎ ((before.current_state ≡ shutting_down) ⊎ (before.current_state ≡ done)))
    × (after ≡ before)

-- A state that neither allows a change nor refuses it.
abbrev pub IsUndecided : State → Type 0
IsUndecided s = (s ≢ ready) × (s ≢ inactive) × (s ≢ reserved) × (s ≢ shutting_down) × (s ≢ done)

-- The rounds of a request: from the thread `ts` a round comes to `before`, after rounds that found no
-- decision and what others did in each.
pub data Round : List Meanwhile → ThreadState → ThreadState → Type 0 where
  now : {rest : List Meanwhile} {ts : ThreadState} → Round rest ts ts
  later :
      {m : Meanwhile} {rest : List Meanwhile} {ts before : ThreadState}
      → IsUndecided ts.current_state
      → Round rest (next_round m ts) before
      → Round (m ∷ rest) ts before

stable-cases : (s : State) → is_stable s ≡ true → (s ≡ ready) ⊎ (s ≡ inactive)
stable-cases s h = ground (arith, h)

terminal-cases :
    (s : State) → is_terminal s ≡ true → (s ≡ reserved) ⊎ ((s ≡ shutting_down) ⊎ (s ≡ done))
terminal-cases s h = ground (arith, h)

undecided : (s : State) → is_stable s ≡ false → is_terminal s ≡ false → IsUndecided s
undecided s h k = (
  λ e. ground (arith, h, e),
  λ e. ground (arith, h, e),
  λ e. ground (arith, k, e),
  λ e. ground (arith, k, e),
  λ e. ground (arith, k, e),
)

request-Decided :
    (next : State) (ts : ThreadState) (b : Bool)
    → (request_check next ts).1 ≡ some b
    → Decided next ts (request_check next ts).0 b
unfolding request_check
request-Decided next ts true h = (stable-cases ts.current_state (ground arith), ground arith)
request-Decided next ts false h = (terminal-cases ts.current_state (ground arith), ground arith)

request-Undecided :
    (next : State) (ts : ThreadState)
    → (request_check next ts).1 ≡ none
    → IsUndecided ts.current_state × ((request_check next ts).0 ≡ ts)
unfolding request_check
request-Undecided next ts h =
    (undecided ts.current_state (ground arith) (ground arith), ground arith)

request_safe_state_change_decided :
    (next : State) (rest : List Meanwhile) (ts : ThreadState) (b : Bool)
    → (request_check next ts).1 ≡ some b
    → request_safe_state_change next rest ts ≡ some ((request_check next ts).0, b)
unfolding request_safe_state_change
request_safe_state_change_decided next [] ts b h = ground arith
request_safe_state_change_decided next (m ∷ ms) ts b h = ground arith

same_answer :
    {p q : ThreadState × Bool} {r : Option (ThreadState × Bool)} → r ≡ some p → r ≡ some q → p ≡ q
same_answer h k = cc

abbrev DecidedIn : State → List Meanwhile → ThreadState → ThreadState → Bool → Type 0
DecidedIn next rest ts after b =
    (before : ThreadState) × Round rest ts before × Decided next before after b

Decided-now :
    (next : State) (rest : List Meanwhile) (ts after : ThreadState) (b b' : Bool)
    → request_safe_state_change next rest ts ≡ some (after, b)
    → (request_check next ts).1 ≡ some b'
    → DecidedIn next rest ts after b
Decided-now next rest ts after b b' h e = (
  ts,
  now,
  subst (λ (p : ThreadState × Bool). Decided next ts p.0 p.1)
      (same_answer (request_safe_state_change_decided next rest ts b' e) h)
      (request-Decided next ts b' e),
)

-- However often it has to wait and whatever the others do meanwhile: a request that returns was decided
-- in the first round whose state is Ready, Inactive, reserved, shutting down or done. One that returns
-- true found the thread Ready or Inactive there and has changed that state; one that returns false
-- found it reserved, shutting down or done and changed nothing.
pub request_safe_state_change_lem :
    (next : State) (rest : List Meanwhile) (ts after : ThreadState) (b : Bool)
    → request_safe_state_change next rest ts ≡ some (after, b)
    → (before : ThreadState) × Round rest ts before × Decided next before after b
unfolding request_safe_state_change
request_safe_state_change_lem next [] ts after b h = elim (Option-cases (request_check next ts).1) [
  | inl e ↦ absurd (ground arith)
  | inr (b', e) ↦ Decided-now next [] ts after b b' h e
]
request_safe_state_change_lem next (m ∷ ms) ts after b h =
    elim (Option-cases (request_check next ts).1) [
      | inl e ↦
          let (none_yet, same) = request-Undecided next ts e in
          let again : request_safe_state_change next ms (next_round m (request_check next ts).0)
              ≡ some (after, b) =
            ground arith in
          let (before, round, d) = request_safe_state_change_lem next ms (next_round m ts) after b (
            subst (λ t. request_safe_state_change next ms (next_round m t) ≡ some (after, b)) same
              again) in
          (before, later none_yet round, d)
      | inr (b', e) ↦ Decided-now next (m ∷ ms) ts after b b' h e
    ]
