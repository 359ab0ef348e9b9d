-- ===== src/Workers/Examples.antt =====
-- worker.go and frankenphp.go: the theorems at two workers of one server.
use frankenphp.Base.{◌≡◌, refl, Bool, true, false, List, [], ◌∷◌, Option, none, some, codes}
use frankenphp.Text.{Bytes}
use frankenphp.Workers.Declaration.{
  Declaration, Names, Paths, ok, validate_workers, resolve_worker_file, check_worker_declaration,
}
use frankenphp.Workers.Registry.{Registry, no_workers, init_workers}
use frankenphp.Workers.Agreement.Round.{Within}
use frankenphp.Workers.Agreement.Forth.{validate_workers-init}
use frankenphp.Workers.Agreement.Back.{IsCanonical, AccountsFor, init_workers-validate}
use frankenphp.Base.{ℕ}
use frankenphp.Base.Int.{pos}
use frankenphp.Workers.Servers.{
  Server, Servers, register_servers, activate_servers, unregister_servers,
}
use frankenphp.Workers.ServerLaws.{register_servers-again}

-- A file system without symbolic links in which every file exists.
abbrev itself : Bytes → Option Bytes
itself p = some p

abbrev exists : Bytes → Bool
exists p = true

abbrev worker_in : Bytes → Declaration
worker_in p = record {
  name = [];
  file_name = p;
  declared_file_name = [];
  server = some 1;
  has_matcher = false;
}

abbrev two_workers : List Declaration
two_workers = worker_in (codes "/a.php") ∷ worker_in (codes "/b.php") ∷ []

abbrev no_names : Names
no_names n = false

abbrev no_paths : Paths
no_paths s p = false

two_workers-init :
    (r : Registry) × (init_workers itself itself exists two_workers no_workers ≡ ok r)
unfolding init_workers frankenphp.Workers.Registry.new_worker frankenphp.Workers.Registry.register
    resolve_worker_file check_worker_declaration no_workers
two_workers-init = (_, refl)

two_workers-valid : validate_workers itself itself exists two_workers no_names no_paths ≡ none
unfolding validate_workers resolve_worker_file check_worker_declaration
two_workers-valid = refl

nothing-Within : Within no_names no_paths no_workers
nothing-Within = (λ n h. cc, λ s p h. cc)

validate_workers-init_example :
    validate_workers itself itself exists two_workers no_names no_paths ≡ none
validate_workers-init_example =
    validate_workers-init itself itself exists two_workers no_workers no_names no_paths
      nothing-Within two_workers-init.1

itself-IsCanonical : IsCanonical itself itself exists
itself-IsCanonical p q d f a b c = cc

nothing-AccountsFor : AccountsFor itself itself exists no_names no_paths no_workers
unfolding no_workers
nothing-AccountsFor = (λ n h. cc, λ s p h. cc)

init_workers-validate_example :
    (r : Registry) × (init_workers itself itself exists two_workers no_workers ≡ ok r)
init_workers-validate_example =
    init_workers-validate itself itself exists itself-IsCanonical two_workers no_workers no_names
      no_paths nothing-AccountsFor two_workers-valid

abbrev unnamed : Server
unnamed = record {
  idx = pos 0;
  configured_name = [];
  name = [];
  root = codes "/srv";
  split_path = codes ".php" ∷ [];
  workers = [];
  workers_by_path = λ p. none;
  workers_with_request_matcher = [];
  is_registered = false;
}

abbrev store : Servers
store = record { at = λ n. unnamed; servers = []; fallback = unnamed }

abbrev one_digit : ℕ → Bytes
one_digit i = i ∷ []

abbrev both : List ℕ
both = 4 ∷ 9 ∷ []

-- Every server has been given a worker.
abbrev staffed : ℕ → Server
staffed n = record ((register_servers one_digit both store).at n) { workers = 7 ∷ [] }

register_servers-again_example :
    (register_servers one_digit both (
        unregister_servers
          (activate_servers (record (register_servers one_digit both store) { at = staffed })))).at
      9
    ≡ (register_servers one_digit both store).at 9
register_servers-again_example =
    register_servers-again one_digit both store staffed 9 (λ m. (refl, refl, refl)) refl refl
