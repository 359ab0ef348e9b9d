-- ===== src/Caddy/ModuleConfig.antt =====
-- caddy/module.go, `UnmarshalCaddyfile` and `assignServerIndex`, and caddy/hotreload.go: the php directive.
use frankenphp.Base.{
  ℕ, zero, suc, Bool, List, [], ◌∷◌, ◌++◌, is_nil, Option, none, some, if◌then◌else◌, codes,
}
use frankenphp.Base.Int.{ℤ}
use frankenphp.Text.{Bytes, same}
use frankenphp.Caddy.Dispenser.{
  wrong_arguments, invalid_value, wrong_subdirective, duplicate_file, Parsed, ok, fail, stuck,
  ◌>>=◌, Dispenser, Readers, required, block_next,
}
use frankenphp.Caddy.WorkerConfig.{WorkerConfig, unmarshal_worker}
use frankenphp.Caddy.Distinct.{put, has}

pub record HotReload : Type 0 where
  pub topic : Bytes
  pub watch : List Bytes

-- What the subdirectives set of a `FrankenPHPModule`.
pub record PhpModule : Type 0 where
  pub root : Bytes
  pub split_path : List Bytes
  pub resolve_root_symlink : Option Bool
  pub env : List (Bytes × Bytes)
  pub workers : List WorkerConfig
  pub request_body_timeout : Option ℤ
  pub name : Bytes
  pub hot_reload : Option HotReload

abbrev pub no_module : PhpModule
no_module = record {
  root = [];
  split_path = [];
  resolve_root_symlink = none;
  env = [];
  workers = [];
  request_body_timeout = none;
  name = [];
  hot_reload = none;
}

pub data ModuleKey : Type 0 where
  root split env resolve_root_symlink name worker hot_reload request_body_timeout : ModuleKey

unfoldable pub module_key : Bytes → Option ModuleKey
module_key v =
    if same v (codes "root")
    then some ModuleKey.root
    else if same v (codes "split")
    then some ModuleKey.split
    else if same v (codes "env")
    then some ModuleKey.env
    else if same v (codes "resolve_root_symlink")
    then some ModuleKey.resolve_root_symlink
    else if same v (codes "name")
    then some ModuleKey.name
    else if same v (codes "worker")
    then some ModuleKey.worker
    else if same v (codes "hot_reload")
    then some ModuleKey.hot_reload
    else if same v (codes "request_body_timeout")
    then some ModuleKey.request_body_timeout
    else none

-- The loop over the workers, with the files that are taken.
unfoldable pub check_file_names : List Bytes → List WorkerConfig → Option Bytes
check_file_names taken [] = none
check_file_names taken (w ∷ ws) =
    let rest = check_file_names (if is_nil w.match_path then w.file_name ∷ taken else taken) ws in
    if has w.file_name taken then some w.file_name else rest

module _ (t : Dispenser) (r : Readers) where
  unfoldable pub hot_reload_subdirective :
      Bytes → HotReload → t.Position → Parsed (HotReload × t.Position)
  hot_reload_subdirective v h d =
      if same v (codes "topic")
      then (required t d >>= λ a. ok (record h { topic = a.0 }, a.1))
      else if same v (codes "watch")
      then (let (patterns, d') = t.remaining_args d in
          if is_nil patterns
          then fail wrong_arguments
          else ok (record h { watch = h.watch ++ patterns }, d'))
      else fail (wrong_subdirective v)

  -- `for d.NextBlock(1)` of `unmarshalHotReload`, on fuel.
  unfoldable pub hot_reload_block : ℕ → HotReload → t.Position → Parsed (HotReload × t.Position)
  unfolding hot_reload_subdirective
  hot_reload_block zero h d = block_next t 1 d (λ d'. ok (h, d')) (λ v d'. stuck)
  hot_reload_block (suc n) h d =
      block_next t 1 d (λ d'. ok (h, d'))
        (λ v d'. hot_reload_subdirective v h d' >>= λ next. hot_reload_block n next.0 next.1)

  -- A value, and no argument behind it.
  abbrev pub last_value {ℓ} :
      {A : Type ℓ} → (Bytes → Option A) → t.Position → Parsed (A × t.Position)
  last_value read d = required t d >>= λ a. elim (read a.0) [
    | none ↦ fail invalid_value
    | some x ↦ elim (t.next_arg a.1) [ none ↦ ok (x, a.1) | some more ↦ fail wrong_arguments ]
  ]

  unfoldable pub module_subdirective :
      ModuleKey → PhpModule → t.Position → Parsed (PhpModule × t.Position)
  unfolding hot_reload_block
  module_subdirective ModuleKey.root m d = do (v, d') ← required t d; ok (record m { root = v }, d')
  module_subdirective ModuleKey.split m d =
      let (parts, d') = t.remaining_args d in
      if is_nil parts then fail wrong_arguments else ok (record m { split_path = parts }, d')
  module_subdirective ModuleKey.env m d =
      let (args, d') = t.remaining_args d in
      elim args [
        | k ∷ v ∷ [] ↦ ok (record m { env = put k v m.env }, d')
        | _ ↦ fail wrong_arguments
      ]
  module_subdirective ModuleKey.resolve_root_symlink m d = elim (t.next_arg d) [
    | none ↦ ok (m, d)
    | some a ↦
        last_value r.parse_bool d >>= λ b. ok (record m { resolve_root_symlink = some b.0 }, b.1)
  ]
  module_subdirective ModuleKey.name m d = do (v, d') ← required t d; ok (record m { name = v }, d')
  module_subdirective ModuleKey.worker m d = do
    (wc, d') ← unmarshal_worker t r d
    ok (record m { workers = m.workers ++ wc ∷ [] }, d')
  module_subdirective ModuleKey.hot_reload m d = do
    let (patterns, d') = t.remaining_args d
    (h, d2) ← hot_reload_block (t.size d') (record { topic = []; watch = patterns }) d'
    ok (record m { hot_reload = some h }, d2)
  module_subdirective ModuleKey.request_body_timeout m d = do
    (n, d') ← last_value r.parse_caddy_duration d
    ok (record m { request_body_timeout = some n }, d')

  abbrev pub known_module_subdirective :
      Bytes → PhpModule → t.Position → Parsed (PhpModule × t.Position)
  known_module_subdirective v m d = elim (module_key v) [
    | none ↦ fail (wrong_subdirective v)
    | some k ↦ module_subdirective k m d
  ]

  -- `for d.NextBlock(0)`, on fuel.
  unfoldable pub module_block : ℕ → PhpModule → t.Position → Parsed (PhpModule × t.Position)
  module_block zero m d = block_next t 0 d (λ d'. ok (m, d')) (λ v d'. stuck)
  module_block (suc n) m d =
      block_next t 0 d (λ d'. ok (m, d'))
        (λ v d'. known_module_subdirective v m d' >>= λ next. module_block n next.0 next.1)

  -- `for d.Next()`, on fuel.
  unfoldable pub module_segments : ℕ → PhpModule → t.Position → Parsed PhpModule
  unfolding module_block
  module_segments zero m d = elim (t.next d) [ none ↦ ok m | some v ↦ stuck ]
  module_segments (suc n) m d = elim (t.next d) [
    | none ↦ ok m
    | some v ↦ module_block (t.size v.1) m v.1 >>= λ rest. module_segments n rest.0 rest.1
  ]

  unfoldable pub unmarshal_module : PhpModule → t.Position → Parsed PhpModule
  unfolding module_segments check_file_names
  unmarshal_module m d = do
    m' ← module_segments (t.size d) m d
    elim (check_file_names [] m'.workers) [ none ↦ ok m' | some f ↦ fail (duplicate_file f) ]
