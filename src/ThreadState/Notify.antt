-- ===== src/ThreadState/Notify.antt =====
-- internal/state/state.go, `notifySubscribers`: the compaction in place against a plain filter.
use frankenphp.Base.{
  ℕ, suc, ◌+◌, ◌≡◌, refl, sym, ap, ◌∙◌, Bool, true, false, not, some, List, [], ◌∷◌, ◌++◌, map,
  arith, get_elem?, set, take, length, length-append, keep, inl, inr, Bool-cases,
}
use mathlib.Core.List.{append-nil, append_assoc}
use frankenphp.ThreadState.Defs.{
  State, Subscriber, ThreadState, contains, notify_loop, notify_subscribers, set_state,
}

module _ {ℓ} {A : Type ℓ} where
  get_elem?-append : (xs ys : List A) (y : A) → get_elem? (xs ++ y ∷ ys) (length xs) ≡ some y
  get_elem?-append [] ys y = refl
  get_elem?-append (x ∷ xs) ys y = get_elem?-append xs ys y

  set-append : (xs ys : List A) (y v : A) → set (xs ++ y ∷ ys) (length xs) v ≡ xs ++ v ∷ ys
  set-append [] ys y v = refl
  set-append (x ∷ xs) ys y v = rw (set-append xs ys y v)

  take-append : (xs ys : List A) → take (length xs) (xs ++ ys) ≡ xs
  take-append [] ys = refl
  take-append (x ∷ xs) ys = rw (take-append xs ys)

-- The subscribers that stay parked when the state becomes `next`, and those that are woken.
abbrev pub stays : State → Subscriber → Bool
stays next sub = not (contains sub.states next)

abbrev pub woken : State → Subscriber → Bool
woken next sub = contains sub.states next

abbrev pub channels : List Subscriber → List ℕ
channels subs = map (λ s. s.ch) subs

module _ (next : State) (rounds i n : ℕ) (subs : List Subscriber) (closed : List ℕ)
    (sub : Subscriber) (at : get_elem? subs i ≡ some sub) where
  notify_loop-stays :
      contains sub.states next ≡ false
      → notify_loop next (suc rounds) i n subs closed
        ≡ notify_loop next rounds (i + 1) (n + 1) (set subs n sub) closed
  unfolding notify_loop
  notify_loop-stays h = ground arith

  notify_loop-woken :
      contains sub.states next ≡ true
      → notify_loop next (suc rounds) i n subs closed
        ≡ notify_loop next rounds (i + 1) n subs (closed ++ sub.ch ∷ [])
  unfolding notify_loop
  notify_loop-woken h = ground arith

-- The write at `n`: over the element itself where no gap has opened, else over the gap's first.
overwrite :
    (kept gap rest : List Subscriber) (x : Subscriber)
    → (gap' : List Subscriber) × (set (kept ++ (gap ++ x ∷ rest)) (length kept) x
        ≡ (kept ++ x ∷ []) ++ (gap' ++ rest))
      × (length gap' ≡ length gap)
overwrite kept [] rest x =
    ([], set-append kept rest x x ∙ sym (append_assoc kept (x ∷ []) rest), refl)
overwrite kept (g ∷ gap) rest x = (
  gap ++ x ∷ [],
  set-append kept (gap ++ x ∷ rest) g x ∙ simp append_assoc,
  omega (arith, length-append {0} gap (x ∷ [])),
)

at_read :
    (kept gap r : List Subscriber) (x : Subscriber) (i : ℕ) (subs : List Subscriber)
    → i ≡ length kept + length gap
    → subs ≡ kept ++ (gap ++ x ∷ r)
    → get_elem? subs i ≡ some x
at_read kept gap r x i subs ei es =
    rw (es, ei, ← length-append kept gap, ← append_assoc kept gap (x ∷ r))
      (get_elem?-append (kept ++ gap) r x)

-- What the loop has to end with.
abbrev Compacts :
    State → List Subscriber → List Subscriber → List ℕ → ℕ × List Subscriber × List ℕ → Type 0
Compacts next rest kept closed (n, subs, closed') =
    (take n subs ≡ kept ++ keep (stays next) rest)
    × (closed' ≡ closed ++ channels (keep (woken next) rest))

-- The array holds what was kept, a gap of entries already read, and the rest.
notify_loop_lem :
    (next : State) (rest kept gap : List Subscriber) (i n : ℕ) (subs : List Subscriber)
    (closed : List ℕ)
    → i ≡ length kept + length gap
    → n ≡ length kept
    → subs ≡ kept ++ (gap ++ rest)
    → Compacts next rest kept closed (notify_loop next (length rest) i n subs closed)
unfolding notify_loop
notify_loop_lem next [] kept gap i n subs closed ei en es =
    (rw (en, es) (take-append kept (gap ++ []) ∙ sym (append-nil kept)), sym (append-nil closed))
notify_loop_lem next (x ∷ r) kept gap i n subs closed ei en es =
    let at = at_read kept gap r x i subs ei es in
    elim (Bool-cases (contains x.states next)) [
      | inl h ↦
          let (a, b) =
            notify_loop_lem next r kept (gap ++ x ∷ []) (i + 1) n subs (closed ++ x.ch ∷ [])
              (omega (arith, length-append {0} gap (x ∷ []))) en
              (es ∙ ap (λ t. kept ++ t) (sym (append_assoc gap (x ∷ []) r))) in
          rw (notify_loop-woken next (length r) i n subs closed x at h)
            (rw h (a, b ∙ append_assoc closed (x.ch ∷ []) (channels (keep (woken next) r))))
      | inr h ↦
          let (gap', wrote, same) = overwrite kept gap r x in
          let (a, b) =
            notify_loop_lem next r (kept ++ x ∷ []) gap' (i + 1) (n + 1) (set subs n x) closed
              (omega (arith, length-append {0} kept (x ∷ [])))
              (omega (arith, length-append {0} kept (x ∷ []))) (rw (es, en) wrote) in
          rw (notify_loop-stays next (length r) i n subs closed x at h)
            (rw h (a ∙ append_assoc kept (x ∷ []) (keep (stays next) r), b))
    ]

abbrev Filtered : State → ThreadState → ThreadState → Type 0
Filtered next ts ts' = ts' ≡ record ts {
  subscribers = keep (stays next) ts.subscribers;
  closed = ts.closed ++ channels (keep (woken next) ts.subscribers);
}

by_subscribers :
    (next : State) (ts : ThreadState) (l : List Subscriber)
    → ts.subscribers ≡ l
    → Filtered next ts (notify_subscribers next ts)
unfolding notify_subscribers
by_subscribers next ts [] e = ground (arith, append-nil ts.closed)
by_subscribers next ts (x ∷ r) e =
    ground (arith, notify_loop_lem next ts.subscribers [] [] 0 0 ts.subscribers ts.closed)

-- The compaction in place is a filter: the subscribers that wait for the new state leave and have
-- their channels closed in order, the others stay in order, and nothing else changes.
pub notify_subscribers_lem :
    (next : State) (ts : ThreadState)
    → notify_subscribers next ts ≡ record ts {
      subscribers = keep (stays next) ts.subscribers;
      closed = ts.closed ++ channels (keep (woken next) ts.subscribers);
    }
notify_subscribers_lem next ts = by_subscribers next ts ts.subscribers refl

pub set_state_lem :
    (next : State) (ts : ThreadState)
    → set_state next ts ≡ record ts {
      current_state = next;
      subscribers = keep (stays next) ts.subscribers;
      closed = ts.closed ++ channels (keep (woken next) ts.subscribers);
    }
unfolding set_state
set_state_lem next ts = notify_subscribers_lem next (record ts { current_state = next })
