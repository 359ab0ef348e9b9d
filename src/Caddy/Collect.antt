-- ===== src/Caddy/Collect.antt =====
-- caddy/app.go: `collectOptions`, `collectModuleOptions` and `collectModule`. The options in front
-- of the workers, which are collected first, are an argument.
use frankenphp.Base.{ℕ, ◌+◌, Bool, List, [], ◌∷◌, ◌++◌, Option, none, some, if◌then◌else◌, ◌==◌}
use frankenphp.Base.Int.{ℤ}
use frankenphp.Text.{Bytes}
use frankenphp.Caddy.Dispenser.{server_refused, Parsed, ok, fail, stuck, ◌>>=◌, Readers}
use frankenphp.Caddy.WorkerConfig.{WorkerConfig, WorkerOption, to_worker_options}
use frankenphp.Caddy.Names.{create_unique_worker_name}

-- A php or php_server directive; an index of 0 is none.
pub record FrankenPhpModule : Type 0 where
  pub server_index : ℕ
  pub server_name : Bytes  -- `resolveServerName`'s
  pub workers : List WorkerConfig

-- The options for `Init`; a server is a number, in the order in which they are made. `setting` is an
-- option that declares neither a server nor workers, by a number.
pub data InitOption : Type 0 where
  setting : ℕ → InitOption
  with_server : ℕ → InitOption
  with_workers : Bytes → Bytes → ℤ → List WorkerOption → Option ℕ → InitOption

-- What Caddy and the system answer: the placeholders replaced, a file made absolute, and whether
-- `NewServer` takes a module's settings.
pub record Surroundings : Type 0 where
  pub replace_known : Bytes → Bytes
  pub fast_abs : Bytes → Bytes
  pub new_server : FrankenPhpModule → Bool

abbrev pub server_at : ℕ → List (ℕ × ℕ) → Option ℕ
server_at index [] = none
server_at index ((i, server) ∷ rest) = if i == index then some server else server_at index rest

-- The servers made, those of an index, the names used, and what the modules serve from, in order.
pub record Collected : Type 0 where
  pub made : ℕ
  pub servers_by_index : List (ℕ × ℕ)
  pub used_worker_names : List Bytes
  pub opts : List InitOption
  pub module_servers : List ℕ

-- A server is made for the module, and its workers are declared.
abbrev pub with_module : FrankenPhpModule → List InitOption × List Bytes → Collected → Collected
with_module m (more, used) c = record {
  made = c.made + 1;
  servers_by_index =
      if m.server_index == 0
      then c.servers_by_index
      else (m.server_index, c.made) ∷ c.servers_by_index;
  used_worker_names = used;
  opts = c.opts ++ with_server c.made ∷ more;
  module_servers = c.module_servers ++ c.made ∷ [];
}

module _ (itoa : ℕ → Bytes) (r : Readers) (s : Surroundings) where
  abbrev pub unique_name : List Bytes → Bytes → Bytes → Bytes → Parsed (Bytes × List Bytes)
  unique_name used name file server = elim (create_unique_worker_name itoa used name file server) [
    | none ↦ stuck
    | some n ↦ ok n
  ]

  -- The workers of a module, or the global ones, which have no server.
  unfoldable pub collect_workers :
      List Bytes → Bytes → Option ℕ → List WorkerConfig → Parsed (List InitOption × List Bytes)
  collect_workers used server scope [] = ok ([], used)
  collect_workers used server scope (w ∷ ws) = do
    let file = s.replace_known w.file_name
    (name, used') ← unique_name used w.name (s.fast_abs file) server
    options ← to_worker_options r w
    (rest, used2) ← collect_workers used' server scope ws
    ok (with_workers name file w.num options scope ∷ rest, used2)

  unfoldable pub collect_module : FrankenPhpModule → Collected → Parsed Collected
  unfolding collect_workers
  collect_module m c =
      if s.new_server m
      then (collect_workers c.used_worker_names m.server_name (some c.made) m.workers >>= λ more.
          ok (with_module m more c))
      else fail server_refused

  -- A module whose index has a server shares it.
  unfoldable pub collect_next : FrankenPhpModule → Collected → Parsed Collected
  unfolding collect_module
  collect_next m c =
      if m.server_index == 0
      then collect_module m c
      else elim (server_at m.server_index c.servers_by_index) [
        | none ↦ collect_module m c
        | some server ↦ ok (record c { module_servers = c.module_servers ++ server ∷ [] })
      ]

  unfoldable pub collect_module_options : List FrankenPhpModule → Collected → Parsed Collected
  unfolding collect_next
  collect_module_options [] c = ok c
  collect_module_options (m ∷ ms) c = do c' ← collect_next m c; collect_module_options ms c'

  -- What stands in front: the options that extensions registered, those of the provisioning, and the
  -- app's own settings. Workers among them are not entered in the names used.
  unfoldable pub collect_options :
      List InitOption → List WorkerConfig → List FrankenPhpModule → Parsed Collected
  unfolding collect_workers collect_module_options
  collect_options front workers modules = do
    (global, used) ← collect_workers [] [] none workers
    c ← collect_module_options modules (record {
      made = 0;
      servers_by_index = [];
      used_worker_names = used;
      opts = global;
      module_servers = [];
    })
    ok (record c { opts = front ++ c.opts })
