-- ===== src/Threads/RegularThreadLaws.antt =====
-- threadregular.go: what a regular thread does before and after a script.
use frankenphp.Base.{
  ℕ, ◌≤◌, ◌<◌, ◌≡◌, refl, ◌⊎◌, inl, inr, ◌∙◌, sym, List, [], ◌∷◌, none, some, arith, Option-cases,
}
use mathlib.Core.Path.{subst}
use frankenphp.ThreadState.{
  ThreadState, State, transition_requested, ready, rebooting, force_rebooting, shutting_down,
  set_state, get, compare_and_swap,
}
use frankenphp.ThreadState.Notify.{set_state_lem}
use frankenphp.Threads.Creation.{reboot}
use frankenphp.Threads.WorkerScript.{Before, script, transition, stop, panic}
use frankenphp.Threads.RegularThread.{
  RegularThread, Event, Entry, returns, waits, enter, restart, before_script_execution,
}

Entry-cases :
    (e : Entry)
    → ((h : RegularThread) × (b : Before) × (e ≡ returns h b))
      ⊎ ((h : RegularThread) × (e ≡ waits h))
Entry-cases (returns h b) = inl (h, b, refl)
Entry-cases (waits h) = inr (h, refl)

current-set_state : (s : State) (ts : ThreadState) → (set_state s ts).current_state ≡ s
current-set_state s ts = rw (set_state_lem s ts)

-- What is known where the thread waits: it is ready, and no more requests are counted than before.
enter-waits :
    (h h1 : RegularThread)
    → enter h ≡ waits h1
    → (h1.state.current_state ≡ ready) × (h1.request_count ≤ h.request_count)
unfolding enter get
enter-waits h h1 e = ground (arith, e, current-set_state ready h.state)

-- How a return leaves a thread that serves at most `m` requests between two reboots.
abbrev pub Left : ℕ → RegularThread → Before → Type 0
Left m h script =
    (h.state.waiting_since ≡ 0)
    × (0 < h.request_count)
    × (h.request_count ≤ m)
    × ((c : ℕ) × (h.context ≡ some c))
Left m h transition = (h.state.current_state ≡ transition_requested) × (h.request_count ≤ m)
Left m h stop =
    ((h.state.current_state ≡ shutting_down)
      ⊎ ((h.state.current_state ≡ rebooting) ⊎ (h.state.current_state ≡ force_rebooting)))
    × (h.request_count ≤ m)
Left m h panic = h.request_count ≤ m

enter-Left :
    (m : ℕ) (h h1 : RegularThread) (b : Before)
    → h.request_count ≤ m
    → enter h ≡ returns h1 b
    → Left m h1 b
unfolding enter get
enter-Left m h h1 script le e = absurd (ground (arith, e))
enter-Left m h h1 transition le e = ground (arith, e, le)
enter-Left m h h1 stop le e = ground (arith, e, le)
enter-Left m h h1 panic le e = ground (arith, e, le)

restarted :
    (m : ℕ) (h h1 : RegularThread) → restart m h ≡ some h1 → h1.state.current_state ≡ rebooting
unfolding restart reboot compare_and_swap
restarted m h h1 e = ground (arith, e, current-set_state rebooting h.state)

restart-Left :
    (m : ℕ) (h h1 : RegularThread) → h.request_count ≤ m → restart m h ≡ some h1 → Left m h1 stop
unfolding restart reboot compare_and_swap
restart-Left m h h1 le e = (inr (inl (restarted m h h1 e)), ground (arith, e, le))

-- A ready thread that does not reboot has not reached the limit.
restart_below :
    (m : ℕ) (h : RegularThread)
    → 0 < m
    → h.state.current_state ≡ ready
    → restart m h ≡ none
    → h.request_count < m
unfolding restart reboot compare_and_swap
restart_below m h p r e = ground (arith, p, r, e)

some_eq : {a b : RegularThread × Before} → some a ≡ some b → a ≡ b
some_eq h = cc

abbrev pub LeftAt : ℕ → RegularThread × Before → Type 0
LeftAt m r = Left m r.0 r.1

before_returns :
    (m now : ℕ) (es : List Event) (h h1 : RegularThread) (b : Before)
    → enter h ≡ returns h1 b
    → before_script_execution m now es h ≡ some (h1, b)
unfolding before_script_execution
before_returns m now [] h h1 b k = ground (arith, k)
before_returns m now (e ∷ es) h h1 b k = ground (arith, k)

before_restarts :
    (m now : ℕ) (es : List Event) (h h1 h2 : RegularThread)
    → enter h ≡ waits h1
    → restart m h1 ≡ some h2
    → before_script_execution m now es h ≡ some (h2, stop)
unfolding before_script_execution
before_restarts m now [] h h1 h2 k l = ground (arith, k, l)
before_restarts m now (e ∷ es) h h1 h2 k l = ground (arith, k, l)

module _ (m : ℕ) (limited : 0 < m) where
  -- What is left to show is the case of a thread that waits, ready and below the limit.
  settle :
      (now : ℕ) (es : List Event) (h : RegularThread) {r : RegularThread × Before}
      → h.request_count ≤ m
      → ((h1 : RegularThread)
          → enter h ≡ waits h1
          → restart m h1 ≡ none
          → h1.state.current_state ≡ ready
          → h1.request_count < m
          → LeftAt m r)
      → before_script_execution m now es h ≡ some r
      → LeftAt m r
  settle now es h le waiting e = elim (Entry-cases (enter h)) [
    | inl (h1, b, k) ↦
        subst (LeftAt m) (some_eq (sym (before_returns m now es h h1 b k) ∙ e))
          (enter-Left m h h1 b le k)
    | inr (h1, k) ↦
        let (is_ready, fewer) = enter-waits h h1 k in
        elim (Option-cases (restart m h1)) [
          | inl l ↦ waiting h1 k l is_ready (restart_below m h1 limited is_ready l)
          | inr (h2, l) ↦
              subst (LeftAt m) (some_eq (sym (before_restarts m now es h h1 h2 k l) ∙ e))
                (restart-Left m h1 h2 (omega (arith, fewer, le)) l)
        ]
  ]
