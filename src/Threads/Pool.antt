-- ===== src/Threads/Pool.antt =====
-- The slices of threads: threadregular.go and worker.go (attach, detach, snapshot, limit), scaling.go
-- (`trackAutoScaledThread`) and phpthread.go (`poolRestored`). A thread is its index in phpThreads.
use frankenphp.Base.{
  ℕ, zero, suc, ◌+◌, ◌≤◌, ◌<◌, ◌≡◌, refl, Bool, true, false, ◌&&◌, List, [], ◌∷◌, ◌++◌, ◌==◌, leb,
  if◌then◌else◌, Option, none, some, mem, length, arith, inl, inr, ◌⊎◌, ◌∙◌, Bool-cases,
  Option-cases,
}

-- `attachRegularThread` and `attachThread`
unfoldable pub attach : ℕ → List ℕ → List ℕ
attach thread threads = threads ++ thread ∷ []

-- `detachRegularThread` and `detachThread`: the first occurrence goes.
unfoldable pub detach : ℕ → List ℕ → List ℕ
detach thread [] = []
detach thread (t ∷ ts) = if t == thread then ts else t ∷ detach thread ts

unfoldable pub track_auto_scaled_thread : ℕ → List ℕ → List ℕ
track_auto_scaled_thread thread auto = if mem thread auto then auto else auto ++ thread ∷ []

-- `slices.Index`
unfoldable pub index_of : ℕ → List ℕ → Option ℕ
index_of thread [] = none
index_of thread (t ∷ ts) =
    let rest = index_of thread ts in
    if t == thread then some 0 else elim rest [ none ↦ none | some i ↦ some (i + 1) ]

-- `slices.Delete(s, i, i+1)`
unfoldable pub delete_at : ℕ → List ℕ → List ℕ
delete_at i [] = []
delete_at zero (t ∷ ts) = ts
delete_at (suc i) (t ∷ ts) = t ∷ delete_at i ts

-- The loop of `poolRestored`: how many are configured, and where the last scaled one stands.
unfoldable pub count_pool : List ℕ → List ℕ → ℕ → Option ℕ → ℕ × Option ℕ
count_pool auto [] configured scaled = (configured, scaled)
count_pool auto (t ∷ ts) configured scaled =
    let found = index_of t auto in
    count_pool auto ts (elim found [ some i ↦ configured | none ↦ configured + 1 ])
      (elim found [ some i ↦ some i | none ↦ scaled ])

unfoldable pub pool_restored : ℕ → List ℕ → List ℕ → Bool × List ℕ
pool_restored size pool auto =
    let (configured, scaled) = count_pool auto pool 0 none in
    if leb size configured
    then (true, auto)
    else elim scaled [ none ↦ (false, auto) | some i ↦ (true, delete_at i auto) ]

-- How often a thread is listed.
abbrev pub occurs : ℕ → List ℕ → ℕ
occurs t [] = 0
occurs t (x ∷ xs) = (if x == t then 1 else 0) + occurs t xs

pub occurs-append : (t : ℕ) (xs ys : List ℕ) → occurs t (xs ++ ys) ≡ occurs t xs + occurs t ys
occurs-append t [] ys = omega arith
occurs-append t (x ∷ xs) ys = omega (arith, occurs-append t xs ys)

mem-occurs : (t : ℕ) (xs : List ℕ) → mem t xs ≡ false → occurs t xs ≡ 0
mem-occurs t [] h = refl
mem-occurs t (x ∷ xs) h = ground (arith, mem-occurs t xs)

occurs-mem : (t : ℕ) (xs : List ℕ) → mem t xs ≡ true → 0 < occurs t xs
occurs-mem t [] h = cc
occurs-mem t (x ∷ xs) h = ground (arith, occurs-mem t xs)

-- Tracking lists a thread, and lists no thread twice where none was listed twice before.
pub track_once :
    (thread : ℕ) (auto : List ℕ)
    → ((t : ℕ) → occurs t auto ≤ 1)
    → (occurs thread (track_auto_scaled_thread thread auto) ≡ 1)
      × ((t : ℕ) → occurs t (track_auto_scaled_thread thread auto) ≤ 1)
unfolding track_auto_scaled_thread
track_once thread auto h = elim (Bool-cases (mem thread auto)) [
  | inl m ↦ rw m (omega (arith, h thread, occurs-mem thread auto m), h)
  | inr m ↦ rw m (
    ground (arith, occurs-append thread auto (thread ∷ []), mem-occurs thread auto m),
    λ t. ground (arith, h t, occurs-append t auto (thread ∷ []), mem-occurs thread auto m),
  )
]

-- Detaching takes one entry of the thread away and leaves every other thread alone.
pub detach-occurs :
    (thread t : ℕ) (threads : List ℕ)
    → occurs t (detach thread threads) + (if thread == t && mem thread threads then 1 else 0)
      ≡ occurs t threads
unfolding detach
detach-occurs thread t [] = ground arith
detach-occurs thread t (x ∷ xs) = ground (arith, detach-occurs thread t xs)

-- The threads of the pool that are not autoscaled.
abbrev pub configured_of : List ℕ → List ℕ → ℕ
configured_of auto [] = 0
configured_of auto (t ∷ ts) = (if mem t auto then 0 else 1) + configured_of auto ts

index_of-mem :
    (t : ℕ) (xs : List ℕ)
    → ((index_of t xs ≡ none) × (mem t xs ≡ false))
      ⊎ ((i : ℕ) × (index_of t xs ≡ some i)
          × (mem t xs ≡ true)
          × (i < length xs)
          × (occurs t (delete_at i xs) + 1 ≡ occurs t xs))
unfolding index_of delete_at
index_of-mem t [] = inl (refl, refl)
index_of-mem t (x ∷ xs) = elim (Bool-cases (x == t)) [
  | inl h ↦ inr (0, ground arith, ground arith, omega arith, ground arith)
  | inr h ↦ elim (index_of-mem t xs) [
    | inl (a, b) ↦ inl (ground arith, ground arith)
    | inr (i, a, b, l, c) ↦ inr (suc i, ground arith, ground arith, omega arith, ground arith)
  ]
]

module _ (auto : List ℕ) (t : ℕ) (ts : List ℕ) (n : ℕ) (scaled : Option ℕ) where
  count_pool-none :
      index_of t auto ≡ none → count_pool auto (t ∷ ts) n scaled ≡ count_pool auto ts (n + 1) scaled
  unfolding count_pool
  count_pool-none h = ground arith

  count_pool-some :
      {i : ℕ}
      → index_of t auto ≡ some i
      → count_pool auto (t ∷ ts) n scaled ≡ count_pool auto ts n (some i)
  unfolding count_pool
  count_pool-some h = ground arith

count_pool-configured :
    (auto pool : List ℕ) (n : ℕ) (scaled : Option ℕ)
    → (count_pool auto pool n scaled).0 ≡ n + configured_of auto pool
count_pool-configured auto [] n scaled = unfold count_pool in omega arith
count_pool-configured auto (t ∷ ts) n scaled = elim (index_of-mem t auto) [
  | inl (a, b) ↦
      rw (count_pool-none auto t ts n scaled a)
        (ground (arith, count_pool-configured auto ts (n + 1) scaled))
  | inr (i, a, b, l, c) ↦
      rw (count_pool-some auto t ts n scaled a)
        (ground (arith, count_pool-configured auto ts n (some i)))
]

-- A position that the loop returns is that of a thread of the pool, or the one it was given.
count_pool-scaled :
    (auto pool : List ℕ) (n : ℕ) (scaled : Option ℕ) (i : ℕ)
    → (count_pool auto pool n scaled).1 ≡ some i
    → ((t : ℕ) × (mem t pool ≡ true) × (index_of t auto ≡ some i)) ⊎ (scaled ≡ some i)
count_pool-scaled auto [] n scaled i h = inr (unfold count_pool in h)
count_pool-scaled auto (t ∷ ts) n scaled i h = elim (index_of-mem t auto) [
  | inl (a, b) ↦
      elim (count_pool-scaled auto ts (n + 1) scaled i
        (rw (count_pool-none auto t ts n scaled a) at h)) [
          | inl (u, m, e) ↦ inl (u, ground arith, e)
          | inr e ↦ inr e
        ]
  | inr (j, a, b, l, c) ↦
      elim (count_pool-scaled auto ts n (some j) i
        (rw (count_pool-some auto t ts n scaled a) at h)) [
          | inl (u, m, e) ↦ inl (u, ground arith, e)
          | inr e ↦ inl (t, ground arith, a ∙ e)
        ]
]

delete_at-found :
    (t i : ℕ) (auto : List ℕ)
    → index_of t auto ≡ some i
    → occurs t (delete_at i auto) + 1 ≡ occurs t auto
delete_at-found t i auto h = elim (index_of-mem t auto) [
  | inl (a, b) ↦ absurd (ground arith)
  | inr (j, a, b, l, c) ↦ let e : j ≡ i = ground arith in rw e at c
]

-- A pool counts as restored because it has its configured threads, and nothing changes, or because a
-- thread of the pool that was autoscaled is taken off that list, once. Where it does not count as
-- restored it is short of configured threads, and nothing changes.
pub pool_restored_lem :
    (size : ℕ) (pool auto : List ℕ)
    → ((pool_restored size pool auto).0 ≡ true
        → ((size ≤ configured_of auto pool) × ((pool_restored size pool auto).1 ≡ auto))
          ⊎ ((t : ℕ) × (mem t pool ≡ true)
              × (occurs t (pool_restored size pool auto).1 + 1 ≡ occurs t auto)))
      × ((pool_restored size pool auto).0 ≡ false
          → (configured_of auto pool < size) × ((pool_restored size pool auto).1 ≡ auto))
unfolding pool_restored
pool_restored_lem size pool auto =
    let k = count_pool-configured auto pool 0 none in
    (
      λ h. elim (Bool-cases (leb size (count_pool auto pool 0 none).0)) [
        | inl e ↦ inl (ground arith, ground arith)
        | inr e ↦ elim (Option-cases (count_pool auto pool 0 none).1) [
          | inl n ↦ absurd (ground arith)
          | inr (i, s) ↦ elim (count_pool-scaled auto pool 0 none i s) [
            | inl (t, m, f) ↦ inr (t, m, ground (arith, delete_at-found t i auto f))
            | inr n ↦ absurd (ground arith)
          ]
        ]
      ],
      λ h. (ground arith, ground arith),
    )
