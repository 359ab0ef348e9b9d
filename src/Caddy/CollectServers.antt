-- ===== src/Caddy/CollectServers.antt =====
-- caddy/app.go: the servers that the modules share.
use frankenphp.Base.{
  ℕ, ◌≡◌, ◌≢◌, refl, sym, Bool, true, false, List, [], ◌∷◌, ◌++◌, map, Option, none, some,
  if◌then◌else◌, ◌==◌, arith,
}
use mathlib.Core.Path.{subst}
use mathlib.Core.List.{append_assoc, append-nil}
use frankenphp.Text.{Bytes}
use frankenphp.Caddy.Dispenser.{server_refused, Parsed, ok, fail, ◌>>=◌, Readers, Gets, Gets-bind}
use frankenphp.Caddy.WorkerConfig.{WorkerConfig}
use frankenphp.Caddy.Collect.{
  FrankenPhpModule, InitOption, Surroundings, server_at, Collected, with_module, collect_workers,
  collect_module, collect_next, collect_module_options, collect_options,
}
use frankenphp.Caddy.CollectNames.{front-Gets, NamesAreNew, collect_workers-Gets}
use frankenphp.Caddy.SharedServers.{AllShare, IsShared, with_module-IsShared, sharing-IsShared}

module _ (itoa : ℕ → Bytes) (itoa-inj : (m n : ℕ) → itoa m ≡ itoa n → m ≡ n) (r : Readers)
    (s : Surroundings) where
  pub collect_module-IsShared :
      (ms : List FrankenPhpModule) (m : FrankenPhpModule) (c : Collected)
      → (m.server_index ≢ 0 → server_at m.server_index c.servers_by_index ≡ none)
      → IsShared ms c
      → Gets (IsShared (ms ++ m ∷ [])) (collect_module itoa r s m c)
  unfolding collect_module
  collect_module-IsShared ms m c n v = split (s.new_server m)
    where
      workers : Parsed (List InitOption × List Bytes)
      workers = collect_workers itoa r s c.used_worker_names m.server_name (some c.made) m.workers

      split :
          (b : Bool)
          → Gets
              (IsShared (ms ++ m ∷ []))
              (if b then (workers >>= λ more. ok (with_module m more c)) else fail server_refused)
      split false = tt
      split true =
          Gets-bind (NamesAreNew itoa itoa-inj r s c.used_worker_names) (IsShared (ms ++ m ∷ []))
            workers _
            (collect_workers-Gets itoa itoa-inj r s c.used_worker_names m.server_name (some c.made)
              m.workers)
            (λ more k. with_module-IsShared ms m more c n v)

  pub collect_next-IsShared :
      (ms : List FrankenPhpModule) (m : FrankenPhpModule) (c : Collected)
      → IsShared ms c
      → Gets (IsShared (ms ++ m ∷ [])) (collect_next itoa r s m c)
  unfolding collect_next
  collect_next-IsShared ms m c v =
      split (m.server_index == 0) (server_at m.server_index c.servers_by_index) refl refl
    where
      split :
          (b : Bool) (o : Option ℕ)
          → (m.server_index == 0) ≡ b
          → server_at m.server_index c.servers_by_index ≡ o
          → Gets (IsShared (ms ++ m ∷ [])) (
              if b then collect_module itoa r s m c else elim o [
                | none ↦ collect_module itoa r s m c
                | some server ↦ ok (record c { module_servers = c.module_servers ++ server ∷ [] })
              ])
      split true o e k = collect_module-IsShared ms m c (λ z. absurd (ground (arith, z, e))) v
      split false none e k = collect_module-IsShared ms m c (λ z. k) v
      split false (some server) e k = sharing-IsShared ms m server c (ground (arith, e)) k v

  pub collect_module_options-IsShared :
      (ms rest : List FrankenPhpModule) (c : Collected)
      → IsShared ms c
      → Gets (IsShared (ms ++ rest)) (collect_module_options itoa r s rest c)
  unfolding collect_module_options
  collect_module_options-IsShared ms [] c v = subst (λ l. IsShared l c) (sym (append-nil ms)) v
  collect_module_options-IsShared ms (m ∷ rest) c v =
      Gets-bind (IsShared (ms ++ m ∷ [])) (IsShared (ms ++ m ∷ rest)) (collect_next itoa r s m c) _
        (collect_next-IsShared ms m c v)
        (λ c' v'.
          subst (λ l. Gets (IsShared l) (collect_module_options itoa r s rest c'))
            (append_assoc ms (m ∷ []) rest)
            (collect_module_options-IsShared (ms ++ m ∷ []) rest c' v'))

  -- Where `strconv.Itoa` tells numbers apart, the options are collected or an error is returned, each
  -- module has a server, and two modules have the same one exactly where they have the same index,
  -- which is not 0.
  pub collect_options-AllShare :
      (front : List InitOption) (workers : List WorkerConfig) (modules : List FrankenPhpModule)
      → Gets
          (λ c.
            (pairs : List (FrankenPhpModule × ℕ)) × ((map (λ p. p.0) pairs ≡ modules)
              × ((map (λ p. p.1) pairs ≡ c.module_servers) × AllShare pairs)))
          (collect_options itoa r s front workers modules)
  unfolding collect_options
  collect_options-AllShare front workers modules =
      Gets-bind (NamesAreNew itoa itoa-inj r s []) _ (collect_workers itoa r s [] [] none workers) _
        (collect_workers-Gets itoa itoa-inj r s [] [] none workers)
        (λ (global, used) h.
          front-Gets (IsShared modules) _ front _
            (λ c v. (v.pairs, (v.modules, (v.servers, v.share))))
            (collect_module_options-IsShared [] modules _ (record {
              pairs = [];
              modules = refl;
              servers = refl;
              known = tt;
              fresh = λ i t e. absurd (ground (arith, e));
              single = λ i j t e. absurd (ground (arith, e));
              nonzero = λ t e. ground (arith, e);
              share = tt;
            })))
