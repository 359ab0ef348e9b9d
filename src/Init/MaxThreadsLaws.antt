-- ===== src/Init/MaxThreadsLaws.antt =====
-- frankenphp.go, `calculateMaxThreads`: what an accepted configuration guarantees.
use frankenphp.Base.{
  ℕ, ◌+◌, ◌*◌, ◌<◌, ◌≤◌, ◌≡◌, refl, ap, ◌∙◌, List, [], ◌∷◌, arith, ◌⊎◌, All, inl, inr, Bool-cases,
}
use mathlib.Core.Path.{subst}
use frankenphp.Base.Int.{ℤ, pos_part, neg_part, ◌+ℤ◌, ◌≤ℤ◌, ◌<ℤ◌, -ℤ_parts, ltb_ℤ}
use frankenphp.Base.GoInt.{
  int_bound, ◌+int◌, +int_parts, +int-+ℤ, -int--ℤ, -ℤ_normal, +int-zero, -int-zero, ◌-int◌,
}
use frankenphp.Init.MaxThreads.{
  WorkerOpt, Opt, Budget, ok, fail, ◌>>=◌, Sums, zero_ℤ, one_ℤ, effective_num, worker_share,
  worker_loop, finish, calculate_max_threads, Threads,
}

-- One thread more than the workers take, and a limit that is automatic or has room for all.
abbrev pub Fits : ℤ → Threads → Type 0
Fits num_workers (num_threads, max_threads) =
    (num_workers <ℤ num_threads) × ((max_threads <ℤ zero_ℤ) ⊎ (num_threads ≤ℤ max_threads))

abbrev Ends : (Threads → Type 0) → Budget Threads → Type 0
Ends P (ok t) = P t
Ends P (fail e) = Unit

abbrev pub size : ℤ → ℕ
size a = pos_part a + neg_part a

-- The most that the counts of the workers can add up to.
abbrev pub room : ℤ → List WorkerOpt → ℕ
room max_procs [] = 0
room max_procs (w ∷ ws) = size max_procs + 2 * size w.num + size w.max_threads + room max_procs ws

-- The counts of a configuration stay far enough below 2 ^ 63 to be added.
abbrev pub HasRoom : ℤ → Opt → Type 0
HasRoom max_procs opt =
    size opt.num_threads + size opt.max_threads + room max_procs opt.workers + 1 < int_bound

finish-Fits :
    (max_procs declared max_threads num_workers from_workers : ℤ)
    → zero_ℤ <ℤ max_procs
    → zero_ℤ ≤ℤ num_workers
    → size declared + size num_workers + size from_workers + 1 < int_bound
    → Ends (Fits num_workers) (finish max_procs declared max_threads num_workers from_workers)
unfolding finish
finish-Fits max_procs declared max_threads num_workers from_workers p h r =
    let (p1, a1, b1) = +int_parts declared num_workers (omega (arith, r)) (omega (arith, r)) in
    let (p2, a2, b2) =
      +int_parts (declared +int num_workers) from_workers (omega (arith, r, a1))
        (omega (arith, r, b1)) in
    let (p3, a3, b3) = +int_parts declared from_workers (omega (arith, r)) (omega (arith, r)) in
    let (p4, a4, b4) = +int_parts num_workers one_ℤ (omega (arith, r)) (omega (arith, r)) in
    let (p5, a5, b5) =
      +int_parts (num_workers +int one_ℤ) from_workers (omega (arith, r, a4))
        (omega (arith, r, b4)) in
    ground (arith, p1, p2, p3, p4, p5)

worker_share-bounds :
    (total share : ℤ) (w : WorkerOpt)
    → size w.num + size w.max_threads < int_bound
    → worker_share total w ≡ ok share
    → (neg_part share ≡ 0) × (pos_part share ≤ size w.num + size w.max_threads)
unfolding worker_share
worker_share-bounds total share w r h =
    let e = -int--ℤ w.max_threads w.num (omega (arith, r)) (omega (arith, r)) in
    let k = -ℤ_parts w.max_threads w.num in
    let l = -ℤ_normal w.max_threads w.num in (ground (arith, e, k, l), ground (arith, e, k, l))

-- The threads that the workers ask for.
abbrev pub total_num : List WorkerOpt → ℤ
total_num [] = zero_ℤ
total_num (w ∷ ws) = w.num +ℤ total_num ws

-- What the loop has made of the workers.
pub record Counted (most : ℕ) (sums : Sums) : Type 0 where
  pub each : All (λ w. zero_ℤ <ℤ w.num) sums.workers
  pub total : sums.num_workers ≡ total_num sums.workers
  pub nonneg : zero_ℤ ≤ℤ sums.num_workers
  pub bounded : size sums.num_workers + size sums.from_workers ≤ most

bind_ok {ℓ κ} :
    {A : Type ℓ} {B : Type κ} (m : Budget A) (f : A → Budget B) {b : B}
    → (m >>= f) ≡ ok b
    → (a : A) × (m ≡ ok a) × (f a ≡ ok b)
bind_ok (ok a) f h = (a, refl, h)
bind_ok (fail e) f h = cc

ok_inj {ℓ} : {A : Type ℓ} {a b : A} → ok a ≡ ok b → a ≡ b
ok_inj h = cc

effective_num-pos :
    (max_procs : ℤ) (w : WorkerOpt) → zero_ℤ <ℤ max_procs → zero_ℤ <ℤ effective_num max_procs w
unfolding effective_num
effective_num-pos max_procs w h = ground arith

effective_num-bound :
    (max_procs : ℤ) (w : WorkerOpt) → size (effective_num max_procs w) ≤ size max_procs + size w.num
unfolding effective_num
effective_num-bound max_procs w = ground arith

worker_loop-Counted :
    (max_procs total : ℤ) (ws : List WorkerOpt) {sums : Sums}
    → zero_ℤ <ℤ max_procs
    → room max_procs ws < int_bound
    → worker_loop max_procs total ws ≡ ok sums
    → Counted (room max_procs ws) sums
unfolding worker_loop
worker_loop-Counted max_procs total [] p r h =
    subst (Counted 0) (ok_inj h)
      (record { each = tt; total = refl; nonneg = omega arith; bounded = omega arith })
worker_loop-Counted max_procs total (w ∷ ws) p r h =
    let (share, s, h') = bind_ok (worker_share total w) _ h in
    let (rest, k, e) = bind_ok (worker_loop max_procs total ws) _ h' in
    let c : Counted (room max_procs ws) rest =
      worker_loop-Counted max_procs total ws p (omega (arith, r)) k in
    let (none_less, small) = worker_share-bounds total share w (omega (arith, r)) s in
    let own = effective_num-bound max_procs w in
    let (parts, above, below) =
      +int_parts (effective_num max_procs w) rest.num_workers (omega (arith, r, own, c.bounded))
        (omega (arith, r, own, c.bounded)) in
    let (parts', above', below') =
      +int_parts share rest.from_workers (omega (arith, r, none_less, small, c.bounded))
        (omega (arith, r, none_less, small, c.bounded)) in
    subst (Counted (room max_procs (w ∷ ws))) (ok_inj e) (record {
      each = (effective_num-pos max_procs w p, c.each);
      total =
          +int-+ℤ (effective_num max_procs w) rest.num_workers (omega (arith, r, own, c.bounded))
            (omega (arith, r, own, c.bounded))
          ∙ ap (λ t. effective_num max_procs w +ℤ t) c.total;
      nonneg = omega (arith, c.nonneg, effective_num-pos max_procs w p, parts);
      bounded = omega (arith, c.bounded, own, none_less, small, above, below, above', below');
    })

-- What an accepted configuration is turned into.
pub record Accepted (num_workers : ℤ) (opt : Opt) : Type 0 where
  pub workers_positive : All (λ w. zero_ℤ <ℤ w.num) opt.workers
  pub workers_total : num_workers ≡ total_num opt.workers
  pub fits : Fits num_workers (opt.num_threads, opt.max_threads)

Ends-ok : (P : Threads → Type 0) (b : Budget Threads) {t : Threads} → Ends P b → b ≡ ok t → P t
Ends-ok P (ok t) p h = subst P (ok_inj h) p
Ends-ok P (fail e) p h = cc

-- Where there is a processor and the counts are small enough to be added without overflow: an accepted
-- thread budget gives every worker at least one thread, the number returned is the sum of the workers'
-- threads, more threads than these are started, and the limit on threads is either automatic (negative)
-- or no lower than what is started.
pub calculate_max_threads_sound :
    (max_procs : ℤ) (opt after : Opt) (num_workers : ℤ)
    → zero_ℤ <ℤ max_procs
    → HasRoom max_procs opt
    → calculate_max_threads max_procs opt ≡ ok (num_workers, after)
    → Accepted num_workers after
unfolding calculate_max_threads
calculate_max_threads_sound max_procs opt after num_workers p r h =
    let (sums, k, h') = bind_ok (worker_loop max_procs opt.max_threads opt.workers) _ h in
    let (threads, f, e) =
      bind_ok (finish max_procs opt.num_threads opt.max_threads sums.num_workers sums.from_workers)
        _ h' in
    let c : Counted (room max_procs opt.workers) sums =
      worker_loop-Counted max_procs opt.max_threads opt.workers p (omega (arith, r)) k in
    subst (λ (t : ℤ × Opt). Accepted t.0 t.1) (ok_inj e)
      (record {
        workers_positive = c.each;
        workers_total = c.total;
        fits =
            Ends-ok (Fits sums.num_workers) _
              (finish-Fits max_procs opt.num_threads opt.max_threads sums.num_workers
                sums.from_workers p c.nonneg (omega (arith, r, c.bounded)))
              f;
      })

unset_num-share :
    (total : ℤ) (w : WorkerOpt)
    → total ≡ zero_ℤ
    → w.num ≡ zero_ℤ
    → zero_ℤ <ℤ w.max_threads
    → size w.max_threads < int_bound
    → worker_share total w ≡ ok w.max_threads
unfolding worker_share
unset_num-share total w t n h r =
    ground (arith, t, n, h, ap (λ z. w.max_threads -int z) n, -int-zero w.max_threads r)

-- The rest of the function accepts what such a worker adds up to.
unset_num-finish :
    (max_procs declared more : ℤ)
    → zero_ℤ <ℤ more
    → more <ℤ max_procs
    → size declared + size max_procs + size more + 1 < int_bound
    → (t : Threads) × (finish max_procs declared zero_ℤ max_procs more ≡ ok t)
unfolding finish
unset_num-finish max_procs declared more h m r =
    let (p1, a1, b1) = +int_parts declared max_procs (omega (arith, r)) (omega (arith, r)) in
    let (p2, a2, b2) =
      +int_parts (declared +int max_procs) more (omega (arith, r, a1)) (omega (arith, r, b1)) in
    let (p4, a4, b4) = +int_parts max_procs one_ℤ (omega (arith, r)) (omega (arith, r)) in
    let (p5, a5, b5) =
      +int_parts (max_procs +int one_ℤ) more (omega (arith, r, a4)) (omega (arith, r, b4)) in
    elim (Bool-cases (ltb_ℤ zero_ℤ declared)) [
      | inl e ↦ (
        (declared +int max_procs, declared +int max_procs +int more),
        ground (arith, e, h, m, p1, p2),
      )
      | inr e ↦
          ((max_procs +int one_ℤ, max_procs +int one_ℤ +int more), ground (arith, e, h, m, p4, p5))
    ]

-- One worker, whose number of threads is not set and whose max_threads is positive and below `max_procs`,
-- no limit on all threads, and counts that can be added in an int: the budget is accepted, and the
-- worker gets `max_procs` threads, more than its max_threads.
pub unset_num_unchecked :
    (max_procs declared : ℤ) (w : WorkerOpt)
    → w.num ≡ zero_ℤ
    → zero_ℤ <ℤ w.max_threads
    → w.max_threads <ℤ max_procs
    → size declared + size max_procs + size w.max_threads + 1 < int_bound
    → (after : Opt) × (calculate_max_threads max_procs
          (record { num_threads = declared; max_threads = zero_ℤ; workers = w ∷ [] })
        ≡ ok (max_procs, after))
      × (after.workers ≡ record w { num = max_procs } ∷ [])
unfolding calculate_max_threads worker_loop effective_num
unset_num_unchecked max_procs declared w n h m r =
    let share = unset_num-share zero_ℤ w refl n h (omega (arith, r)) in
    let (t, f) = unset_num-finish max_procs declared w.max_threads h m r in
    let sum = +int-zero max_procs (omega (arith, r)) in
    let more = +int-zero w.max_threads (omega (arith, r)) in
    (
      record { num_threads = t.0; max_threads = t.1; workers = record w { num = max_procs } ∷ [] },
      ground (arith, share, f, sum, more, n),
      refl,
    )
