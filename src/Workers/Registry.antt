-- ===== src/Workers/Registry.antt =====
-- worker.go, the first loop of `initWorkers` with `newWorker`, and server.go, `addWorker`: the
-- maps of workers by name and by path. A map answers the number of a worker in `workers`.
use frankenphp.Base.{
  ℕ, Bool, true, false, ◌&&◌, List, [], ◌∷◌, ◌++◌, if◌then◌else◌, Option, none, some,
}
use frankenphp.Text.{Bytes, same}
use frankenphp.Workers.Declaration.{
  Declaration, server_same_file, Checked, ok, fail, ◌>>=◌, Scope, same_scope, Names, Paths,
  check_worker_declaration, resolve_worker_file,
}

pub record Registry : Type 0 where
  pub workers : List Declaration
  pub by_name : Bytes → Option Declaration  -- workersByName
  pub by_path : Scope → Bytes → Option Declaration  -- globalWorkersByPath and each server's map
  pub server_workers : ℕ → List Declaration  -- the workers of a server
  pub matching : ℕ → List Declaration  -- workersWithRequestMatcher of a server

unfoldable pub no_workers : Registry
no_workers = record {
  workers = [];
  by_name = λ n. none;
  by_path = λ s p. none;
  server_workers = λ s. [];
  matching = λ s. [];
}

abbrev pub is_some {ℓ} : {A : Type ℓ} → Option A → Bool
is_some none = false
is_some (some a) = true

abbrev pub put_path : Scope → Bytes → Declaration → Registry → Registry
put_path s p w r = record r {
  by_path = λ s' p'. if same_scope s' s && same p' p then some w else r.by_path s' p';
}

-- Both paths of a worker are keys.
abbrev pub put_paths : Declaration → Registry → Registry
put_paths w r = put_path w.server w.declared_file_name w (put_path w.server w.file_name w r)

abbrev pub put_matching : ℕ → Declaration → Registry → Registry
put_matching s w r = record r {
  matching = λ t. if same_scope (some t) (some s) then r.matching t ++ w ∷ [] else r.matching t;
}

abbrev pub put_server : ℕ → Declaration → Registry → Registry
put_server s w r = record r {
  server_workers = λ t.
      if same_scope (some t) (some s) then r.server_workers t ++ w ∷ [] else r.server_workers t;
}

-- `Server.addWorker`
unfoldable pub add_worker : ℕ → Declaration → Registry → Checked Registry
add_worker s w r =
    let r1 = put_server s w r in
    if w.has_matcher
    then ok (put_matching s w r1)
    else if is_some (r1.by_path (some s) w.file_name)
    then fail server_same_file
    else ok (put_paths w r1)

abbrev pub listed : Declaration → Registry → Registry
listed w r = record r {
  workers = r.workers ++ w ∷ [];
  by_name = λ n. if same n w.name then some w else r.by_name n;
}

-- The worker is listed and named before its paths are put.
unfoldable pub register : Declaration → Registry → Checked Registry
unfolding add_worker
register w r =
    let r1 = listed w r in elim w.server [ none ↦ ok (put_paths w r1) | some s ↦ add_worker s w r1 ]

abbrev pub taken_names : Registry → Names
taken_names r n = is_some (r.by_name n)

abbrev pub taken_paths : Registry → Paths
taken_paths r s p = is_some (r.by_path s p)

module _ (fast_abs eval_symlinks : Bytes → Option Bytes) (stat : Bytes → Bool) where
  -- The checks of `newWorker`.
  unfoldable pub new_worker : Declaration → Registry → Checked Declaration
  new_worker o r = do
    w ← resolve_worker_file fast_abs eval_symlinks stat o
    elim (check_worker_declaration w (taken_names r) (taken_paths r)) [
      | some e ↦ fail e
      | none ↦ ok w
    ]

  unfoldable pub init_workers : List Declaration → Registry → Checked Registry
  init_workers [] r = ok r
  init_workers (o ∷ os) r = do w ← new_worker o r; r' ← register w r; init_workers os r'
