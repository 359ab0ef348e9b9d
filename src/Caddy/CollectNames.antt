-- ===== src/Caddy/CollectNames.antt =====
-- caddy/app.go: the workers that `collectOptions` declares.
use frankenphp.Base.{
  ℕ, ◌≡◌, refl, sym, ap, Bool, true, false, ◌||◌, List, [], ◌∷◌, ◌++◌, Option, none, some,
  if◌then◌else◌, ◌==◌, arith, inl, inr, Bool-cases,
}
use mathlib.Core.Path.{subst}
use frankenphp.Text.{Bytes}
use frankenphp.Text.Laws.{same_refl, same_eq}
use frankenphp.Caddy.Dispenser.{
  server_refused, invalid_match, Parsed, ok, fail, stuck, ◌>>=◌, Readers, Gets, Gets-bind,
}
use frankenphp.Caddy.WorkerConfig.{WorkerConfig, WorkerOption, to_worker_options}
use frankenphp.Caddy.Distinct.{has, has-append, AllDistinct}
use frankenphp.Caddy.NamesLaws.{create_unique_worker_name_lem}
use frankenphp.Caddy.Collect.{
  FrankenPhpModule, InitOption, setting, with_server, with_workers, Surroundings, server_at,
  Collected, with_module, unique_name, collect_workers, collect_module, collect_next,
  collect_module_options, collect_options,
}

-- What is collected is put behind the options in front.
pub front-Gets :
    (P Q : Collected → Type 0) (front : List InitOption) (m : Parsed Collected)
    → ((c : Collected) → P c → Q (record c { opts = front ++ c.opts }))
    → Gets P m
    → Gets Q (m >>= λ c. ok (record c { opts = front ++ c.opts }))
front-Gets P Q front m f h = Gets-bind P Q m (λ c. ok (record c { opts = front ++ c.opts })) h f

-- The names of the workers that are declared.
abbrev pub names_of : List InitOption → List Bytes
names_of [] = []
names_of (setting n ∷ os) = names_of os
names_of (with_server n ∷ os) = names_of os
names_of (with_workers name file num options scope ∷ os) = name ∷ names_of os

pub names_of-append : (xs ys : List InitOption) → names_of (xs ++ ys) ≡ names_of xs ++ names_of ys
names_of-append [] ys = refl
names_of-append (setting n ∷ os) ys = names_of-append os ys
names_of-append (with_server n ∷ os) ys = names_of-append os ys
names_of-append (with_workers name file num options scope ∷ os) ys =
    ap (λ ns. name ∷ ns) (names_of-append os ys)

-- Names that are new, and used from then on.
abbrev pub AreNew : List Bytes → List Bytes → List Bytes → Type 0
AreNew used names used' =
    AllDistinct names
    × (((n : Bytes) → has n names ≡ true → has n used ≡ false)
        × ((n : Bytes) → has n used' ≡ (has n names || has n used)))

pub append-Disjoint :
    (xs ys : List Bytes)
    → AllDistinct xs
    → AllDistinct ys
    → ((n : Bytes) → has n xs ≡ true → has n ys ≡ false)
    → AllDistinct (xs ++ ys)
append-Disjoint [] ys h k d = k
append-Disjoint (x ∷ xs) ys (h, hs) k d = (
  ground (arith, has-append x xs ys, h, d x (ground (arith, same_refl x))),
  append-Disjoint xs ys hs k (λ n e. d n (ground (arith, e))),
)

pub none-AreNew : (used : List Bytes) → AreNew used [] used
none-AreNew used = (tt, (λ n e. absurd (ground (arith, e)), λ n. refl))

pub one-AreNew :
    (used : List Bytes) (m : Bytes) → has m used ≡ false → AreNew used (m ∷ []) (m ∷ used)
one-AreNew used m h = ((refl, tt), (λ n e. only n e, λ n. ground arith))
  where
    only : (n : Bytes) → has n (m ∷ []) ≡ true → has n used ≡ false
    only n e = subst (λ x. has x used ≡ false) (same_eq m n (ground (arith, e))) h

pub append-AreNew :
    (u v w xs ys : List Bytes) → AreNew u xs v → AreNew v ys w → AreNew u (xs ++ ys) w
append-AreNew u v w xs ys (dx, (nx, ux)) (dy, (ny, uy)) = (
  append-Disjoint xs ys dx dy apart,
  (fresh, λ n. ground (arith, uy n, ux n, has-append n xs ys)),
)
  where
    apart : (n : Bytes) → has n xs ≡ true → has n ys ≡ false
    apart n e = elim (Bool-cases (has n ys)) [
      | inl k ↦ absurd (ground (arith, ny n k, ux n, e))
      | inr k ↦ k
    ]

    fresh : (n : Bytes) → has n (xs ++ ys) ≡ true → has n u ≡ false
    fresh n e = elim (Bool-cases (has n xs)) [
      | inl k ↦ nx n k
      | inr k ↦
          let y : has n ys ≡ true = ground (arith, has-append n xs ys, e, k) in
          ground (arith, ny n y, ux n, k)
    ]

module _ (itoa : ℕ → Bytes) (itoa-inj : (m n : ℕ) → itoa m ≡ itoa n → m ≡ n) (r : Readers)
    (s : Surroundings) where
  abbrev pub NamesAreNew : List Bytes → List InitOption × List Bytes → Type 0
  NamesAreNew used (opts, used') = AreNew used (names_of opts) used'

  pub unique_name-Gets :
      (used : List Bytes) (name file server : Bytes)
      → Gets
          (λ (n : Bytes × List Bytes). AreNew used (n.0 ∷ []) n.1)
          (unique_name itoa r s used name file server)
  unique_name-Gets used name file server =
      let (m, (e, (h, c))) = create_unique_worker_name_lem itoa itoa-inj used name file server in
      subst
        (λ o.
          Gets (λ (n : Bytes × List Bytes). AreNew used (n.0 ∷ []) n.1)
            (elim o [ none ↦ stuck | some n ↦ ok n ]))
        (sym e) (one-AreNew used m h)

  pub to_worker_options-Gets :
      (w : WorkerConfig) → Gets (λ (os : List WorkerOption). Unit {0}) (to_worker_options r w)
  unfolding to_worker_options
  to_worker_options-Gets w = split _ _ _ _
    where
      split :
          (b : Bool) (opts : List WorkerOption) (o : Option (List Bytes))
          (f : List Bytes → List WorkerOption)
          → Gets
              (λ (os : List WorkerOption). Unit {0})
              (if b then ok opts else elim o [ none ↦ fail invalid_match | some ps ↦ ok (f ps) ])
      split true opts o f = tt
      split false opts none f = tt
      split false opts (some ps) f = tt

  pub collect_workers-Gets :
      (used : List Bytes) (server : Bytes) (scope : Option ℕ) (ws : List WorkerConfig)
      → Gets (NamesAreNew used) (collect_workers itoa r s used server scope ws)
  unfolding collect_workers
  collect_workers-Gets used server scope [] = none-AreNew used
  collect_workers-Gets used server scope (w ∷ ws) =
      let file = s.replace_known w.file_name in
      Gets-bind _ (NamesAreNew used) _ _ (unique_name-Gets used w.name (s.fast_abs file) server)
        (λ (name, used') h.
          Gets-bind (λ (os : List WorkerOption). Unit {0}) (NamesAreNew used)
            (to_worker_options r w) _ (to_worker_options-Gets w)
            (λ options k.
              Gets-bind (NamesAreNew used') (NamesAreNew used) _ _
                (collect_workers-Gets used' server scope ws)
                (λ (rest, used2) l.
                  append-AreNew used used' used2 (name ∷ []) (names_of rest) h l)))

  abbrev pub HasNewNames : Collected → Type 0
  HasNewNames c = AreNew [] (names_of c.opts) c.used_worker_names

  pub collect_module-Gets :
      (m : FrankenPhpModule) (c : Collected)
      → HasNewNames c
      → Gets HasNewNames (collect_module itoa r s m c)
  unfolding collect_module
  collect_module-Gets m c h = split (s.new_server m)
    where
      workers : Parsed (List InitOption × List Bytes)
      workers = collect_workers itoa r s c.used_worker_names m.server_name (some c.made) m.workers

      split :
          (b : Bool)
          → Gets HasNewNames
              (if b then (workers >>= λ more. ok (with_module m more c)) else fail server_refused)
      split false = tt
      split true =
          Gets-bind (NamesAreNew c.used_worker_names) HasNewNames workers _
            (collect_workers-Gets c.used_worker_names m.server_name (some c.made) m.workers)
            (λ (more, used) k.
              subst (λ ns. AreNew [] ns used)
                (sym (names_of-append c.opts (with_server c.made ∷ more)))
                (append-AreNew [] c.used_worker_names used (names_of c.opts) (names_of more) h k))

  pub collect_next-Gets :
      (m : FrankenPhpModule) (c : Collected)
      → HasNewNames c
      → Gets HasNewNames (collect_next itoa r s m c)
  unfolding collect_next
  collect_next-Gets m c h =
      split (m.server_index == 0) (server_at m.server_index c.servers_by_index)
    where
      split :
          (b : Bool) (o : Option ℕ)
          → Gets HasNewNames (
              if b then collect_module itoa r s m c else elim o [
                | none ↦ collect_module itoa r s m c
                | some server ↦ ok (record c { module_servers = c.module_servers ++ server ∷ [] })
              ])
      split true o = collect_module-Gets m c h
      split false none = collect_module-Gets m c h
      split false (some server) = h

  pub collect_module_options-Gets :
      (ms : List FrankenPhpModule) (c : Collected)
      → HasNewNames c
      → Gets HasNewNames (collect_module_options itoa r s ms c)
  unfolding collect_module_options
  collect_module_options-Gets [] c h = h
  collect_module_options-Gets (m ∷ ms) c h =
      Gets-bind HasNewNames HasNewNames (collect_next itoa r s m c) _ (collect_next-Gets m c h)
        (λ c' h'. collect_module_options-Gets ms c' h')

  pub collect_options-AllDistinct :
      (front : List InitOption) (workers : List WorkerConfig) (modules : List FrankenPhpModule)
      → Gets
          (λ c. (own : List InitOption) × ((c.opts ≡ front ++ own) × AllDistinct (names_of own)))
          (collect_options itoa r s front workers modules)
  unfolding collect_options
  collect_options-AllDistinct front workers modules =
      Gets-bind (NamesAreNew []) Goal (collect_workers itoa r s [] [] none workers) _
        (collect_workers-Gets [] [] none workers)
        (λ (global, used) h.
          front-Gets HasNewNames Goal front _ (λ c (d, k). (c.opts, (refl, d)))
            (collect_module_options-Gets modules _ h))
    where
      Goal : Collected → Type 0
      Goal c = (own : List InitOption) × ((c.opts ≡ front ++ own) × AllDistinct (names_of own))
