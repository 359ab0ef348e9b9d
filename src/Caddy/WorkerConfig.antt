-- ===== src/Caddy/WorkerConfig.antt =====
-- caddy/workerconfig.go: the worker directive.
use frankenphp.Base.{
  ℕ, zero, suc, List, [], ◌∷◌, ◌++◌, map, is_nil, Option, none, some, if◌then◌else◌, codes,
}
use frankenphp.Base.Int.{ℤ, pos, negsuc, ltb_ℤ}
use frankenphp.Text.{Bytes, same, is_empty}
use frankenphp.Caddy.Distinct.{put}
use frankenphp.Caddy.Dispenser.{
  wrong_arguments, not_a_number, too_many_arguments, invalid_value, wrong_subdirective, no_file,
  invalid_match, Parsed, ok, fail, stuck, ◌>>=◌, Dispenser, Readers, parse_non_negative_int,
  required, block_next,
}

-- `env` is a map, whose order does not count.
pub record WorkerConfig : Type 0 where
  pub name : Bytes
  pub file_name : Bytes
  pub num : ℤ
  pub max_threads : ℤ
  pub env : List (Bytes × Bytes)
  pub watch : List Bytes
  pub match_path : List Bytes
  pub max_consecutive_failures : Option ℤ
  pub options : List ℕ  -- what provisioning collects, by a number each

abbrev pub no_config : WorkerConfig
no_config = record {
  name = [];
  file_name = [];
  num = pos 0;
  max_threads = pos 0;
  env = [];
  watch = [];
  match_path = [];
  max_consecutive_failures = none;
  options = [];
}

abbrev pub default_watch_pattern : Bytes
default_watch_pattern = codes "./**/*.{env,php,twig,yaml,yml}"

pub data WorkerKey : Type 0 where
  name file num max_threads env watch match_ max_consecutive_failures : WorkerKey

unfoldable pub worker_key : Bytes → Option WorkerKey
worker_key v =
    if same v (codes "name")
    then some WorkerKey.name
    else if same v (codes "file")
    then some WorkerKey.file
    else if same v (codes "num")
    then some WorkerKey.num
    else if same v (codes "max_threads")
    then some WorkerKey.max_threads
    else if same v (codes "env")
    then some WorkerKey.env
    else if same v (codes "watch")
    then some WorkerKey.watch
    else if same v (codes "match")
    then some WorkerKey.match_
    else if same v (codes "max_consecutive_failures")
    then some WorkerKey.max_consecutive_failures
    else none

abbrev pub watched : List Bytes → List Bytes
watched [] = default_watch_pattern ∷ []
watched (p ∷ ps) = p ∷ ps

module _ (t : Dispenser) (r : Readers) where
  unfoldable pub worker_subdirective :
      WorkerKey → WorkerConfig → t.Position → Parsed (WorkerConfig × t.Position)
  worker_subdirective WorkerKey.name wc d = do
    (v, d') ← required t d
    ok (record wc { name = v }, d')
  worker_subdirective WorkerKey.file wc d = do
    (v, d') ← required t d
    ok (record wc { file_name = v }, d')
  worker_subdirective WorkerKey.num wc d = do
    (v, d') ← required t d
    n ← parse_non_negative_int r v
    ok (record wc { num = n }, d')
  worker_subdirective WorkerKey.max_threads wc d = do
    (v, d') ← required t d
    n ← parse_non_negative_int r v
    ok (record wc { max_threads = n }, d')
  worker_subdirective WorkerKey.env wc d =
      let (args, d') = t.remaining_args d in
      elim args [
        | k ∷ v ∷ [] ↦ ok (record wc { env = put k v wc.env }, d')
        | _ ↦ fail wrong_arguments
      ]
  worker_subdirective WorkerKey.watch wc d =
      let (patterns, d') = t.remaining_args d in
      ok (record wc { watch = wc.watch ++ watched patterns }, d')
  worker_subdirective WorkerKey.match_ wc d =
      let (patterns, d') = t.remaining_args d in
      elim (r.provision patterns) [
        | none ↦ fail invalid_match
        | some ps ↦ ok (record wc { match_path = ps }, d')
      ]
  worker_subdirective WorkerKey.max_consecutive_failures wc d = do
    (v, d') ← required t d
    elim (r.atoi v) [
      | none ↦ fail not_a_number
      | some n ↦
          if ltb_ℤ n (negsuc 0)
          then fail invalid_value
          else ok (record wc { max_consecutive_failures = some n }, d')
    ]

  abbrev pub known_subdirective :
      Bytes → WorkerConfig → t.Position → Parsed (WorkerConfig × t.Position)
  known_subdirective v wc d = elim (worker_key v) [
    | none ↦ fail (wrong_subdirective v)
    | some k ↦ worker_subdirective k wc d
  ]

  -- `for d.NextBlock(1)`, on fuel.
  unfoldable pub worker_block : ℕ → WorkerConfig → t.Position → Parsed (WorkerConfig × t.Position)
  worker_block zero wc d = block_next t 1 d (λ d'. ok (wc, d')) (λ v d'. stuck)
  worker_block (suc n) wc d =
      block_next t 1 d (λ d'. ok (wc, d'))
        (λ v d'. known_subdirective v wc d' >>= λ next. worker_block n next.0 next.1)

  -- The arguments on the directive's line.
  unfoldable pub worker_file : t.Position → WorkerConfig × t.Position
  worker_file d = elim (t.next_arg d) [
    | none ↦ (no_config, d)
    | some (f, d') ↦ (record no_config { file_name = f }, d')
  ]

  unfoldable pub worker_number : WorkerConfig → t.Position → Parsed (WorkerConfig × t.Position)
  worker_number wc d = elim (t.next_arg d) [
    | none ↦ ok (wc, d)
    | some (v, d') ↦
        if same v (codes "watch")
        then ok (record wc { watch = wc.watch ++ default_watch_pattern ∷ [] }, d')
        else parse_non_negative_int r v >>= λ n. ok (record wc { num = n }, d')
  ]

  abbrev pub no_more : t.Position → Parsed t.Position
  no_more d = elim (t.next_arg d) [ none ↦ ok d | some v ↦ fail too_many_arguments ]

  unfoldable pub located : WorkerConfig → t.Position → Parsed (WorkerConfig × t.Position)
  located wc d =
      if is_empty wc.file_name
      then fail no_file
      else ok (record wc { file_name = r.in_embedded wc.file_name }, d)

  unfoldable pub unmarshal_worker : t.Position → Parsed (WorkerConfig × t.Position)
  unfolding worker_file worker_number worker_block located
  unmarshal_worker d = do
    let (wc, d1) = worker_file d
    (wc2, d2) ← worker_number wc d1
    d3 ← no_more d2
    (wc3, d4) ← worker_block (t.size d3) wc2 d3
    located wc3 d4

-- `frankenphp.WorkerOption`
pub data WorkerOption : Type 0 where
  with_env : List (Bytes × Bytes) → WorkerOption
  with_watch_mode : List Bytes → WorkerOption
  with_max_threads : ℤ → WorkerOption
  with_max_failures : ℤ → WorkerOption
  provisioned : ℕ → WorkerOption
  with_matcher : List Bytes → WorkerOption

abbrev pub failure_options : Option ℤ → List WorkerOption
failure_options none = []
failure_options (some n) = with_max_failures n ∷ []

unfoldable pub to_worker_options : Readers → WorkerConfig → Parsed (List WorkerOption)
to_worker_options r wc =
    let opts =
      with_env wc.env
        ∷ with_watch_mode wc.watch
        ∷ with_max_threads wc.max_threads
        ∷ failure_options wc.max_consecutive_failures
      ++ map provisioned wc.options in
    if is_nil wc.match_path then ok opts else elim (r.provision wc.match_path) [
      | none ↦ fail invalid_match
      | some ps ↦ ok (opts ++ with_matcher ps ∷ [])
    ]
