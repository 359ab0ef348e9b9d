-- ===== src/Caddy/AppConfig.antt =====
-- caddy/app.go: the frankenphp global option.
use frankenphp.Base.{
  ℕ, zero, suc, Bool, true, false, not, ◌&&◌, List, [], ◌∷◌, ◌++◌, any, is_nil, Option, none, some,
  if◌then◌else◌, codes,
}
use frankenphp.Base.Int.{ℤ, pos, negsuc, ltb_ℤ}
use frankenphp.Text.{Bytes, same}
use frankenphp.Caddy.Distinct.{put}
use frankenphp.Caddy.Dispenser.{
  invalid_value, wrong_subdirective, match_in_global, duplicate_file, ini_format, max_below_num,
  Parsed, ok, fail, stuck, ◌>>=◌, Dispenser, Readers, parse_non_negative_int, required, block_next,
}
use frankenphp.Caddy.WorkerConfig.{WorkerConfig, unmarshal_worker}

-- What the subdirectives set.
pub record FrankenPhpApp : Type 0 where
  pub num_threads : ℤ
  pub max_threads : ℤ
  pub workers : List WorkerConfig
  pub php_ini : List (Bytes × Bytes)
  pub max_wait_time : ℤ
  pub max_idle_time : ℤ
  pub max_requests : ℤ

abbrev pub no_app : FrankenPhpApp
no_app = record {
  num_threads = pos 0;
  max_threads = pos 0;
  workers = [];
  php_ini = [];
  max_wait_time = pos 0;
  max_idle_time = pos 0;
  max_requests = pos 0;
}

pub data AppKey : Type 0 where
  num_threads max_threads max_wait_time max_idle_time max_requests php_ini worker : AppKey

unfoldable pub app_key : Bytes → Option AppKey
app_key v =
    if same v (codes "num_threads")
    then some AppKey.num_threads
    else if same v (codes "max_threads")
    then some AppKey.max_threads
    else if same v (codes "max_wait_time")
    then some AppKey.max_wait_time
    else if same v (codes "max_idle_time")
    then some AppKey.max_idle_time
    else if same v (codes "max_requests")
    then some AppKey.max_requests
    else if same v (codes "php_ini")
    then some AppKey.php_ini
    else if same v (codes "worker")
    then some AppKey.worker
    else none

-- The checks of a global worker, which is added behind the others.
unfoldable pub add_worker : WorkerConfig → FrankenPhpApp → Parsed FrankenPhpApp
add_worker wc app =
    if is_nil wc.match_path
    then if any (λ (w : WorkerConfig). same w.file_name wc.file_name) app.workers
      then fail (duplicate_file wc.file_name)
      else ok (record app { workers = app.workers ++ wc ∷ [] })
    else fail (match_in_global wc.file_name)

module _ (t : Dispenser) (r : Readers) where
  -- `parseIniLine`, where the dispenser is at the key.
  unfoldable pub parse_ini_line :
      Bytes → FrankenPhpApp → t.Position → Parsed (FrankenPhpApp × t.Position)
  parse_ini_line key app d = elim (t.next_arg d) [
    | none ↦ fail ini_format
    | some (v, d') ↦ elim (t.next_arg d') [
      | none ↦ ok (record app { php_ini = put key v app.php_ini }, d')
      | some extra ↦ fail ini_format
    ]
  ]

  -- `for d.NextBlock(1)`, on fuel, with whether there is a block.
  unfoldable pub ini_block :
      ℕ → Bool → FrankenPhpApp → t.Position → Parsed (Bool × (FrankenPhpApp × t.Position))
  unfolding parse_ini_line
  ini_block zero is_block app d =
      block_next t 1 d (λ d'. ok (is_block, (app, d'))) (λ key d'. stuck)
  ini_block (suc n) is_block app d =
      block_next t 1 d (λ d'. ok (is_block, (app, d')))
        (λ key d'. parse_ini_line key app d' >>= λ next. ini_block n true next.0 next.1)

  unfoldable pub php_ini_line : FrankenPhpApp → t.Position → Parsed (FrankenPhpApp × t.Position)
  unfolding parse_ini_line
  php_ini_line app d = elim (t.next_arg d) [
    | none ↦ fail ini_format
    | some (key, d') ↦ parse_ini_line key app d'
  ]

  abbrev pub duration : Bytes → Parsed ℤ
  duration v = elim (r.parse_duration v) [ none ↦ fail invalid_value | some n ↦ ok n ]

  unfoldable pub app_subdirective :
      AppKey → FrankenPhpApp → t.Position → Parsed (FrankenPhpApp × t.Position)
  unfolding ini_block php_ini_line add_worker
  app_subdirective AppKey.num_threads app d = do
    (v, d') ← required t d
    n ← parse_non_negative_int r v
    ok (record app { num_threads = n }, d')
  app_subdirective AppKey.max_threads app d = do
    (v, d') ← required t d
    n ← (if same v (codes "auto") then ok (negsuc 0) else parse_non_negative_int r v)
    ok (record app { max_threads = n }, d')
  app_subdirective AppKey.max_wait_time app d = do
    (v, d') ← required t d
    n ← duration v
    ok (record app { max_wait_time = n }, d')
  app_subdirective AppKey.max_idle_time app d = do
    (v, d') ← required t d
    n ← duration v
    ok (record app { max_idle_time = n }, d')
  app_subdirective AppKey.max_requests app d = do
    (v, d') ← required t d
    n ← parse_non_negative_int r v
    ok (record app { max_requests = n }, d')
  app_subdirective AppKey.php_ini app d = do
    (is_block, (app', d')) ← ini_block (t.size d) false app d
    (if is_block then ok (app', d') else php_ini_line app' d')
  app_subdirective AppKey.worker app d = do
    (wc, d') ← unmarshal_worker t r d
    app' ← add_worker (record wc { file_name = r.in_embedded wc.file_name }) app
    ok (app', d')

  abbrev pub known_app_subdirective :
      Bytes → FrankenPhpApp → t.Position → Parsed (FrankenPhpApp × t.Position)
  known_app_subdirective v app d = elim (app_key v) [
    | none ↦ fail (wrong_subdirective v)
    | some k ↦ app_subdirective k app d
  ]

  -- `for d.NextBlock(0)`, on fuel.
  unfoldable pub app_block : ℕ → FrankenPhpApp → t.Position → Parsed (FrankenPhpApp × t.Position)
  app_block zero app d = block_next t 0 d (λ d'. ok (app, d')) (λ v d'. stuck)
  app_block (suc n) app d =
      block_next t 0 d (λ d'. ok (app, d'))
        (λ v d'. known_app_subdirective v app d' >>= λ next. app_block n next.0 next.1)

  -- `for d.Next()`, on fuel.
  unfoldable pub app_segments : ℕ → FrankenPhpApp → t.Position → Parsed FrankenPhpApp
  unfolding app_block
  app_segments zero app d = elim (t.next d) [ none ↦ ok app | some v ↦ stuck ]
  app_segments (suc n) app d = elim (t.next d) [
    | none ↦ ok app
    | some v ↦ app_block (t.size v.1) app v.1 >>= λ rest. app_segments n rest.0 rest.1
  ]

  abbrev pub has_room : FrankenPhpApp → Bool
  has_room app = not (
      ltb_ℤ (pos 0) app.max_threads
      && (ltb_ℤ (pos 0) app.num_threads && ltb_ℤ app.max_threads app.num_threads))

  unfoldable pub unmarshal_caddyfile : FrankenPhpApp → t.Position → Parsed FrankenPhpApp
  unfolding app_segments
  unmarshal_caddyfile app d = do
    app' ← app_segments (t.size d) app d
    (if has_room app' then ok app' else fail max_below_num)
