-- ===== src/Threads/ScalingLaws.antt =====
-- scaling.go: how many threads a sweep stops, which, and the bound on scaling up.
use frankenphp.Base.{
  ℕ, suc, ◌+◌, ◌-◌, ◌≤◌, ◌<◌, ◌≡◌, refl, sym, ◌∙◌, ap, Bool, true, false, not, ◌&&◌, ◌||◌, List, [],
  ◌∷◌, ◌++◌, ◌==◌, leb, if◌then◌else◌, length, arith, All, inl, inr, Bool-cases, Option-cases,
  length-append,
}
use Prim.Native.Nat.{min}
use mathlib.Core.List.{reverse, reverse-append, reverse-reverse, append_assoc, append-nil}
use frankenphp.Threads.Pool.{occurs, occurs-append, delete_at, track_auto_scaled_thread}
use frankenphp.Threads.Scaling.{
  View, Sweep, is_idle, visit, sweep_from, deactivate_threads, max_termination_count, Round,
  upscale, upscale_round,
}

-- The reference: from the last thread to the first, who stays and who is converted.
module _ (view : ℕ → View) (max_idle_time : ℕ) where
  -- A thread is converted where it is idle and fewer than eleven were before it.
  abbrev pub converted : ℕ → ℕ → Bool
  converted t stopped =
      not (view t).is_reserved
      && (leb stopped max_termination_count
          && (not ((view t).wait_time == 0) && is_idle view max_idle_time t))

  abbrev pub expected : List ℕ → ℕ → List ℕ × List ℕ
  expected [] stopped = ([], [])
  expected (t ∷ ts) stopped =
      let (kept, inactive) = expected ts (if converted t stopped then stopped + 1 else stopped) in
      (
        if (view t).is_reserved || converted t stopped then kept else t ∷ kept,
        if converted t stopped then t ∷ inactive else inactive,
      )

  visit_lem :
      (i t : ℕ) (s : Sweep)
      → visit view max_idle_time i t s ≡ record s {
        auto = if (view t).is_reserved || converted t s.stopped then delete_at i s.auto else s.auto;
        stopped = if converted t s.stopped then s.stopped + 1 else s.stopped;
        inactive = if converted t s.stopped then s.inactive ++ t ∷ [] else s.inactive;
      }
  unfolding visit
  visit_lem i t s = ground arith

  delete_at-length : (ys zs : List ℕ) (x : ℕ) → delete_at (length ys) (ys ++ x ∷ zs) ≡ ys ++ zs
  unfolding delete_at
  delete_at-length [] zs x = refl
  delete_at-length (y ∷ ys) zs x = ap (λ t. y ∷ t) (delete_at-length ys zs x)

  length-reverse : (xs : List ℕ) → length (reverse xs) ≡ length xs
  length-reverse [] = refl
  length-reverse (x ∷ xs) =
      rw (reverse-append (x ∷ []) xs)
        (omega (arith, length-append {0} (reverse xs) (x ∷ []), length-reverse xs))

  reverse-cons : (t : ℕ) (ts kept : List ℕ) → reverse (t ∷ ts) ++ kept ≡ reverse ts ++ t ∷ kept
  reverse-cons t ts kept =
      ap (λ l. l ++ kept) (reverse-append (t ∷ []) ts) ∙ append_assoc (reverse ts) (t ∷ []) kept

  deleted :
      (ts kept : List ℕ) (t : ℕ) {auto : List ℕ}
      → auto ≡ reverse ts ++ t ∷ kept
      → delete_at (length ts) auto ≡ reverse ts ++ kept
  deleted ts kept t e = rw (e, ← length-reverse ts) (delete_at-length (reverse ts) kept t)

  -- The slice holds what is not yet visited, and behind it what was kept.
  abbrev Swept : List ℕ → Sweep → List ℕ → Sweep → Type 0
  Swept ts s kept r =
      (r.auto ≡ reverse (expected ts s.stopped).0 ++ kept)
      × (r.inactive ≡ s.inactive ++ (expected ts s.stopped).1)
      × (r.stopped ≡ s.stopped + length (expected ts s.stopped).1)

  sweep_from_lem :
      (ts kept : List ℕ) (s : Sweep)
      → s.auto ≡ reverse ts ++ kept
      → Swept ts s kept (sweep_from view max_idle_time ts s)
  unfolding sweep_from
  sweep_from_lem [] kept s e = (e, ground (arith, append-nil s.inactive), omega arith)
  sweep_from_lem (t ∷ ts) kept s e =
      let e' : s.auto ≡ reverse ts ++ t ∷ kept = e ∙ reverse-cons t ts kept in
      let gone : delete_at (length ts) s.auto ≡ reverse ts ++ kept = deleted ts kept t e' in
      elim (Bool-cases (converted t s.stopped)) [
        | inl c ↦
            let (a, b, d) =
              sweep_from_lem ts kept
                (record s {
                  auto = delete_at (length ts) s.auto;
                  stopped = s.stopped + 1;
                  inactive = s.inactive ++ t ∷ [];
                })
                gone in
            let g : ((view t).is_reserved || converted t s.stopped) ≡ true = ground arith in
            rw (visit_lem (length ts) t s, sweep_from)
              (rw g (rw c (a, b ∙ append_assoc s.inactive (t ∷ []) _, omega arith)))
        | inr c ↦ elim (Bool-cases (view t).is_reserved) [
          | inl r ↦
              let g : ((view t).is_reserved || converted t s.stopped) ≡ true = ground arith in
              rw (visit_lem (length ts) t s, sweep_from)
                (rw g (
                  rw c (
                    sweep_from_lem ts kept (record s { auto = delete_at (length ts) s.auto })
                      gone)))
          | inr r ↦
              let g : ((view t).is_reserved || converted t s.stopped) ≡ false = ground arith in
              let (a, b, d) = sweep_from_lem ts (t ∷ kept) s e' in
              rw (visit_lem (length ts) t s, sweep_from)
                (rw g (rw c (a ∙ sym (reverse-cons t ((expected ts s.stopped).0) kept), b, d)))
        ]
      ]

  -- A thread that the sweep may stop.
  pub record IsEligible (t : ℕ) : Type 0 where
    pub not_reserved : (view t).is_reserved ≡ false
    pub ready : (view t).is_ready ≡ true
    pub idle : max_idle_time < (view t).wait_time

  converted-IsEligible : (t stopped : ℕ) → converted t stopped ≡ true → IsEligible t
  converted-IsEligible t stopped h = ground arith

  expected-bound :
      (ts : List ℕ) (stopped : ℕ)
      → stopped ≤ suc max_termination_count
      → stopped + length (expected ts stopped).1 ≤ suc max_termination_count
  expected-bound [] stopped h = omega arith
  expected-bound (t ∷ ts) stopped h = elim (Bool-cases (converted t stopped)) [
    | inl c ↦
        let k : stopped + 1 ≤ suc max_termination_count = ground arith in
        rw c (omega (arith, expected-bound ts (stopped + 1) k))
    | inr c ↦ rw c (expected-bound ts stopped h)
  ]

  expected-IsEligible : (ts : List ℕ) (stopped : ℕ) → All IsEligible (expected ts stopped).1
  expected-IsEligible [] stopped = tt
  expected-IsEligible (t ∷ ts) stopped = elim (Bool-cases (converted t stopped)) [
    | inl c ↦ rw c (converted-IsEligible t stopped c, expected-IsEligible ts (stopped + 1))
    | inr c ↦ rw c (expected-IsEligible ts stopped)
  ]

  expected-All :
      (ts : List ℕ) (stopped : ℕ)
      → All IsEligible ts
      → length (expected ts stopped).1 ≡ min (length ts) (suc max_termination_count - stopped)
  expected-All [] stopped h = omega arith
  expected-All (t ∷ ts) stopped (h, hs) = elim (Bool-cases (converted t stopped)) [
    | inl c ↦
        let k : stopped + 1 ≤ suc max_termination_count = ground arith in
        rw c (omega (arith, expected-All ts (stopped + 1) hs))
    | inr c ↦
        let k : max_termination_count < stopped = ground (arith, h.not_reserved, h.ready, h.idle) in
        rw c (omega (arith, expected-All ts stopped hs))
  ]

  expected-occurs :
      (u : ℕ) (ts : List ℕ) (stopped : ℕ)
      → occurs u (expected ts stopped).0 + occurs u (expected ts stopped).1
        ≡ (if (view u).is_reserved then 0 else occurs u ts)
  expected-occurs u [] stopped = ground arith
  expected-occurs u (t ∷ ts) stopped = elim (Bool-cases (t == u)) [
    | inl e ↦
        let q : t ≡ u = ground arith in
        rw q (
          ground
            (arith, expected-occurs u ts (if converted u stopped then stopped + 1 else stopped)))
    | inr e ↦
        ground (arith, expected-occurs u ts (if converted t stopped then stopped + 1 else stopped))
  ]

  deactivate_threads_lem :
      (auto : List ℕ)
      → ((deactivate_threads view max_idle_time auto).auto ≡ reverse (expected (reverse auto) 0).0)
        × ((deactivate_threads view max_idle_time auto).inactive ≡ (expected (reverse auto) 0).1)
  unfolding deactivate_threads
  deactivate_threads_lem auto =
      let start : Sweep = record { auto = auto; stopped = 0; inactive = [] } in
      let (a, b, c) =
        sweep_from_lem (reverse auto) [] start
          (sym (ap (λ l. l ++ []) (reverse-reverse auto) ∙ append-nil auto)) in
      (a ∙ append-nil _, b)

  All-append {ℓ} : (P : ℕ → Type ℓ) (xs ys : List ℕ) → All P xs → All P ys → All P (xs ++ ys)
  All-append P [] ys hx hy = hy
  All-append P (x ∷ xs) ys (h, hx) hy = (h, All-append P xs ys hx hy)

  All-reverse {ℓ} : (P : ℕ → Type ℓ) (xs : List ℕ) → All P xs → All P (reverse xs)
  All-reverse P [] h = tt
  All-reverse P (x ∷ xs) (h, hs) =
      rw (reverse-append (x ∷ []) xs)
        (All-append P (reverse xs) (x ∷ []) (All-reverse P xs hs) (h, tt))

  -- One sweep converts at most eleven threads, and only ones that are ready, not reserved, and idle
  -- for longer than max_idle_time.
  pub deactivate_threads_bound :
      (auto : List ℕ)
      → (length (deactivate_threads view max_idle_time auto).inactive ≤ suc max_termination_count)
        × All IsEligible (deactivate_threads view max_idle_time auto).inactive
  deactivate_threads_bound auto =
      let (_, e) = deactivate_threads_lem auto in
      rw e (
        omega (arith, expected-bound (reverse auto) 0 (omega arith)),
        expected-IsEligible (reverse auto) 0,
      )

  -- Where every thread may be stopped, a sweep stops all of them up to eleven, one more than
  -- maxTerminationCount.
  pub deactivate_threads-All :
      (auto : List ℕ)
      → All IsEligible auto
      → length (deactivate_threads view max_idle_time auto).inactive
        ≡ min (length auto) (suc max_termination_count)
  deactivate_threads-All auto h =
      let (_, e) = deactivate_threads_lem auto in
      rw e
        (expected-All (reverse auto) 0 (All-reverse IsEligible auto h) ∙ rw (length-reverse auto))

module _ (view : ℕ → View) (max_idle_time : ℕ) where
  occurs-reverse : (u : ℕ) (xs : List ℕ) → occurs u (reverse xs) ≡ occurs u xs
  occurs-reverse u [] = refl
  occurs-reverse u (x ∷ xs) =
      rw (reverse-append (x ∷ []) xs)
        (omega (arith, occurs-append u (reverse xs) (x ∷ []), occurs-reverse u xs))

  -- The sweep drops no thread but the reserved ones: each listing of another thread stays listed or
  -- is converted to inactive, never both.
  pub deactivate_threads_keeps :
      (u : ℕ) (auto : List ℕ)
      → occurs u (deactivate_threads view max_idle_time auto).auto
          + occurs u (deactivate_threads view max_idle_time auto).inactive
        ≡ (if (view u).is_reserved then 0 else occurs u auto)
  deactivate_threads_keeps u auto =
      let (a, b) = deactivate_threads_lem view max_idle_time auto in
      rw (a, b)
        (omega (arith, occurs-reverse u (expected view max_idle_time (reverse auto) 0).0)
          ∙ expected-occurs view max_idle_time u (reverse auto) 0
          ∙ rw (occurs-reverse u auto))

length-track : (t : ℕ) (auto : List ℕ) → length (track_auto_scaled_thread t auto) ≤ length auto + 1
unfolding track_auto_scaled_thread
length-track t auto = ground (arith, length-append {0} auto (t ∷ []))

upscale_round-le :
    (max_scaled : ℕ) (r : Round) (auto : List ℕ)
    → length auto ≤ max_scaled
    → length (upscale_round max_scaled r auto) ≤ max_scaled
unfolding upscale_round
upscale_round-le max_scaled r auto h = elim (Option-cases r.added) [
  | inl e ↦ ground arith
  | inr (t, e) ↦ ground (arith, length-track t auto)
]

-- Scaling up from no more threads than `maxScaledThreads`, however many requests ask for it, never
-- lists more.
pub upscale_bound :
    (max_scaled : ℕ) (rs : List Round) (auto : List ℕ)
    → length auto ≤ max_scaled
    → length (upscale max_scaled rs auto) ≤ max_scaled
unfolding upscale
upscale_bound max_scaled [] auto h = h
upscale_bound max_scaled (r ∷ rs) auto h =
    upscale_bound max_scaled rs (upscale_round max_scaled r auto)
      (upscale_round-le max_scaled r auto h)
