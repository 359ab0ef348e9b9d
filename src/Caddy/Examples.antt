-- ===== src/Caddy/Examples.antt =====
-- caddy/: the theorems at concrete configurations, Caddy's part done by small functions.
use frankenphp.Base.{
  ℕ, zero, suc, ◌≤◌, ◌<◌, ◌-◌, ◌≡◌, inl, ◌++◌, ◌↔◌, refl, sym, ap, ◌∙◌, Bool, true, false, ◌&&◌,
  ◌||◌, List, [], ◌∷◌, map, codes, Option, none, some, arith, if◌then◌else◌, length,
}
use frankenphp.Base.Int.{ℤ, pos}
use frankenphp.Text.{Bytes, same, has_suffix, has_prefix, is_empty}
use frankenphp.Caddy.Routes.{
  FileMatch, Matchers, Handler, static_response, rewrite, php, file_server, Route, PhpServer,
  php_server_routes, prepend_worker_routes,
}
use frankenphp.Caddy.Serving.{
  Response, ran_php, sent_file, answered, passed_on, paths_match, none_match, files_match,
  Subroutes,
}
use frankenphp.Caddy.Sources.{php_server_routes-sources, php_server_routes-workers, IsNotSource}
use frankenphp.Caddy.ModuleConfig.{PhpModule, no_module, check_file_names}
use frankenphp.Caddy.FileNames.{DifferBehind, check_file_names_iff}
use frankenphp.Caddy.Provision.{Host, ServerAnswer, provision, serve_http}
use frankenphp.Caddy.DocumentRoot.{Yields, HasRoot, provision-HasRoot}
use frankenphp.Workers.Servers.{Server}
use frankenphp.Init.Lifecycle.{Runtime, Answers, started}
use frankenphp.Init.Lifecycle.Rest.{IsUp}
use frankenphp.Caddy.Start.{start}
use frankenphp.Caddy.StartLaws.{HasStarted, start_lem}
use frankenphp.Caddy.Dispenser.{Dispenser, Readers, Gets}
use frankenphp.Caddy.WorkerConfig.{WorkerConfig, no_config}
use frankenphp.Caddy.AppConfig.{no_app, has_room, unmarshal_caddyfile}
use frankenphp.Caddy.AppConfigLaws.{IsUsable, unmarshal_caddyfile-IsUsable}
use frankenphp.Caddy.Collect.{
  FrankenPhpModule, InitOption, setting, with_workers, Surroundings, collect_options,
}
use frankenphp.Caddy.SharedServers.{AllShare}
use frankenphp.Caddy.CollectServers.{collect_options-AllShare}

-- A pattern is a path, or the end of one behind a `*`.
abbrev fits : Bytes → Bytes → Bool
fits [] p = same [] p
fits (c ∷ cs) p = same (c ∷ cs) p || has_suffix p cs

abbrev only_logo : FileMatch → Bytes → Bool
only_logo f p = same p (codes "/logo.png")

abbrev fit_all : Matchers → Bytes → Bool
fit_all m p =
    paths_match fits m.path p && (none_match fits m.not_path p && files_match only_logo m.file p)

abbrev handled : Handler → Bytes → (Bytes → Response) → Response
handled (static_response status location) p go_on = answered status
handled (rewrite uri) p go_on = go_on (codes "/index.php")
handled php p go_on = ran_php p
handled file_server p go_on = sent_file p

abbrev serve_all : List Route → Bytes → Response
serve_all [] p = passed_on p
serve_all (r ∷ rs) p =
    let rest = serve_all rs in if fit_all r.matchers p then handled r.handler p rest else rest p

serve_all-skip :
    (r : Route) (rs : List Route) (p : Bytes)
    → fit_all r.matchers p ≡ false
    → serve_all (r ∷ rs) p ≡ serve_all rs p
serve_all-skip r rs p e = ground (arith, e)

serve_all-handled :
    (r : Route) (rs : List Route) (p : Bytes) (h : Handler)
    → r.handler ≡ h
    → fit_all r.matchers p ≡ true
    → serve_all (r ∷ rs) p ≡ handled h p (serve_all rs)
serve_all-handled r rs p h k e = ground (arith, e, k)

abbrev small_caddy : Subroutes
small_caddy = record {
  path_matches = fits;
  file_matches = only_logo;
  rewritten = λ m uri p. codes "/index.php";
  serve = serve_all;
  matches = fit_all;
  matches-all = λ m p. refl;
  serve-end = λ p. refl;
  serve-skip = serve_all-skip;
  serve-php = λ r rs p h e. serve_all-handled r rs p php h e;
  serve-file = λ r rs p h e. serve_all-handled r rs p file_server h e;
  serve-static =
      λ r rs status location p h e. serve_all-handled r rs p (static_response status location) h e;
  serve-rewrite = λ r rs uri p h e. serve_all-handled r rs p (rewrite uri) h e;
}

-- A worker for `/api`.
abbrev site : PhpServer
site = record {
  root = codes "/srv";
  extensions = codes ".php" ∷ [];
  index_file = codes "index.php";
  try_files = [];
  disable_file_server = false;
  workers = (codes "/api" ∷ []) ∷ [];
}

abbrev logo : Bytes
logo = codes "/logo.png"

logo_is_sent : serve_all (php_server_routes site) logo ≡ sent_file logo
unfolding php_server_routes prepend_worker_routes
logo_is_sent = refl

php_server_routes-sources_example : IsNotSource small_caddy site logo
php_server_routes-sources_example =
    php_server_routes-sources small_caddy site logo logo logo_is_sent

php_server_routes-workers_example :
    serve_all (php_server_routes site) (codes "/api") ≡ ran_php (codes "/api")
php_server_routes-workers_example =
    php_server_routes-workers small_caddy site (codes "/api") refl refl

-- The tokens that are left, each with whether it starts a line.
abbrev Tokens : Type 0
Tokens = List (Bytes × Bool)

abbrev next_token : Tokens → Option (Bytes × Tokens)
next_token [] = none
next_token ((v, starts) ∷ d) = some (v, d)

abbrev next_in_line : Tokens → Option (Bytes × Tokens)
next_in_line [] = none
next_in_line ((v, starts) ∷ d) = if starts then none else some (v, d)

abbrev next_in_block : ℕ → Tokens → Option Bytes × Tokens
next_in_block n [] = (none, [])
next_in_block n ((v, starts) ∷ d) = if same v (codes "}") then (none, d) else (some v, d)

abbrev rest_of_line : Tokens → List Bytes × Tokens
rest_of_line [] = ([], [])
rest_of_line ((v, starts) ∷ d) =
    let rest = rest_of_line d in if starts then ([], (v, starts) ∷ d) else (v ∷ rest.0, rest.1)

next_token-less :
    (d : Tokens) (v : Bytes) (d' : Tokens) → next_token d ≡ some (v, d') → length d' < length d
next_token-less [] v d' e = absurd (ground (arith, e))
next_token-less ((w, starts) ∷ d) v d' e = ground (arith, e)

next_in_line-less :
    (d : Tokens) (v : Bytes) (d' : Tokens) → next_in_line d ≡ some (v, d') → length d' < length d
next_in_line-less [] v d' e = absurd (ground (arith, e))
next_in_line-less ((w, starts) ∷ d) v d' e = ground (arith, e)

next_in_block-less :
    (n : ℕ) (d : Tokens) (v : Bytes)
    → (next_in_block n d).0 ≡ some v
    → length (next_in_block n d).1 < length d
next_in_block-less n [] v e = absurd (ground (arith, e))
next_in_block-less n ((w, starts) ∷ d) v e = ground arith

next_in_block-le : (n : ℕ) (d : Tokens) → length (next_in_block n d).1 ≤ length d
next_in_block-le n [] = omega arith
next_in_block-le n ((w, starts) ∷ d) = ground arith

rest_of_line-le : (d : Tokens) → length (rest_of_line d).1 ≤ length d
rest_of_line-le [] = omega arith
rest_of_line-le ((w, starts) ∷ d) = ground (arith, rest_of_line-le d)

abbrev small_dispenser : Dispenser
small_dispenser = record {
  Position = Tokens;
  size = length;
  next = next_token;
  next_arg = next_in_line;
  next_block = next_in_block;
  remaining_args = rest_of_line;
  next-less = next_token-less;
  next_arg-less = next_in_line-less;
  next_block-less = next_in_block-less;
  next_block-le = next_in_block-le;
  remaining_args-le = rest_of_line-le;
}

abbrev digit : Bytes → Option ℤ
digit (c ∷ []) = some (pos (c - b'0'))
digit _ = none

abbrev small_readers : Readers
small_readers = record {
  atoi = digit;
  parse_bool = λ v. none;
  parse_duration = digit;
  parse_caddy_duration = digit;
  provision = λ ps. some ps;
  in_embedded = λ f. f;
}

-- `index.php 2`, then the block `max_threads 3`.
abbrev worker_tokens : Tokens
worker_tokens =
    (codes "index.php", false)
    ∷ (codes "2", false)
    ∷ (codes "max_threads", true)
    ∷ (codes "3", false)
    ∷ (codes "}", true)
    ∷ []

abbrev option_tokens : Tokens
option_tokens =
    (codes "frankenphp", true)
    ∷ (codes "num_threads", true)
    ∷ (codes "4", false)
    ∷ (codes "worker", true)
    ∷ worker_tokens

no_app-IsUsable : IsUsable small_dispenser small_readers no_app
no_app-IsUsable = (omega arith, (omega arith, (omega arith, (tt, tt))))

unmarshal_caddyfile-IsUsable_example :
    Gets
      (λ app.
        IsUsable small_dispenser small_readers app
        × (has_room small_dispenser small_readers app ≡ true))
      (unmarshal_caddyfile small_dispenser small_readers no_app option_tokens)
unmarshal_caddyfile-IsUsable_example =
    unmarshal_caddyfile-IsUsable small_dispenser small_readers no_app option_tokens no_app-IsUsable

abbrev tally : ℕ → Bytes
tally zero = []
tally (suc n) = b'1' ∷ tally n

length-tally : (n : ℕ) → length (tally n) ≡ n
length-tally zero = refl
length-tally (suc n) = ap suc (length-tally n)

tally-inj : (m n : ℕ) → tally m ≡ tally n → m ≡ n
tally-inj m n e = sym (length-tally m) ∙ ap length e ∙ length-tally n

abbrev surroundings : Surroundings
surroundings = record { replace_known = λ f. f; fast_abs = λ f. f; new_server = λ m. true }

abbrev api_worker : WorkerConfig
api_worker = record no_config { file_name = codes "api.php" }

-- Two directives of one php_server, and one of another.
abbrev three_modules : List FrankenPhpModule
three_modules =
    record { server_index = 1; server_name = codes "a"; workers = api_worker ∷ [] }
    ∷ record { server_index = 1; server_name = codes "a"; workers = api_worker ∷ [] }
    ∷ record { server_index = 2; server_name = codes "b"; workers = api_worker ∷ [] }
    ∷ []

-- A setting, and an extension's worker of the same name as a worker of the configuration.
abbrev in_front : List InitOption
in_front = setting 1 ∷ with_workers (codes "api") (codes "ext.php") (pos 1) [] none ∷ []

collect_options-AllShare_example :
    Gets
      (λ c.
        (pairs : List (FrankenPhpModule × ℕ)) × ((map (λ p. p.0) pairs ≡ three_modules)
          × ((map (λ p. p.1) pairs ≡ c.module_servers) × AllShare pairs)))
      (collect_options tally small_readers surroundings in_front (api_worker ∷ []) three_modules)
collect_options-AllShare_example =
    collect_options-AllShare tally tally-inj small_readers surroundings in_front (api_worker ∷ [])
      three_modules

-- A worker with a path to match before one of the same file without.
abbrev matched_then_plain : List WorkerConfig
matched_then_plain = record api_worker { match_path = codes "/a" ∷ [] } ∷ api_worker ∷ []

check_file_names_iff_example :
    (check_file_names [] matched_then_plain ≡ none) ↔ DifferBehind matched_then_plain
check_file_names_iff_example = check_file_names_iff matched_then_plain

abbrev full : Bytes → Option Bytes
full f = some (b'/' ∷ f)

full-some : (f root : Bytes) → full f ≡ some root → is_empty root ≡ false
full-some f root e = ground (arith, e)

abbrev small_host : Host
small_host = record {
  is_abs = λ f. has_prefix f (codes "/");
  is_local = λ f. true;
  join = λ a b. a ++ b'/' ∷ b;
  fast_abs = full;
  eval_symlinks = full;
  embedded_app_path = [];
  configure_hot_reload = λ m. some none;
}

abbrev public_module : PhpModule
public_module = record no_module { root = codes "public"; workers = api_worker ∷ [] }

provision-HasRoot_example :
    Yields
      (λ p.
        HasRoot small_host
          (λ s. s)
          p
          (serve_http small_host (λ s. s) true false (λ os. ServerAnswer.handled) p))
      (provision small_host public_module)
provision-HasRoot_example =
    provision-HasRoot small_host full-some full-some public_module (λ s. s) true false
      (λ os. ServerAnswer.handled)

matched_first_accepted : check_file_names [] matched_then_plain ≡ none
unfolding check_file_names
matched_first_accepted = refl

matched_second_refused :
    check_file_names [] (api_worker ∷ record api_worker { match_path = codes "/a" ∷ [] } ∷ [])
    ≡ some (codes "api.php")
unfolding check_file_names
matched_second_refused = refl

-- In the place of a run that is up.
abbrev closed_server : Server
closed_server = record {
  idx = pos 0;
  configured_name = [];
  name = [];
  root = [];
  split_path = [];
  workers = [];
  workers_by_path = λ p. none;
  workers_with_request_matcher = [];
  is_registered = false;
}

abbrev in_place : Runtime
in_place = record {
  is_running = true;
  global_ctx = none;
  global_logger = none;
  metrics = 0;
  max_wait_time = pos 0;
  max_idle_time = pos 0;
  max_requests_per_thread = pos 0;
  registry = record { at = λ n. closed_server; servers = []; fallback = closed_server };
  workers = [];
  watcher_is_enabled = false;
  hot_reload_enabled = false;
  main_thread_ready = true;
  on_server_shutdown = [];
  events = [];
}

in_place-IsUp : IsUp in_place
in_place-IsUp = record { running = refl; ready = refl; listed = λ n e. absurd (ground (arith, e)) }

abbrev php84 : Answers
php84 = record {
  php = record { major_version = 8; minor_version = 4; zts = true; zend_signals = false };
  threads = started;
  workers = [];
  with_workers = λ at. at;
  workers_ready = true;
  watchers_ready = true;
}

start_lem_example :
    HasStarted
      (λ c. true)
      (collect_options tally small_readers surroundings in_front (api_worker ∷ []) three_modules)
      in_place
      (start tally small_readers surroundings
        (pos 4)
        php84
        (λ c. [])
        (λ os. true)
        in_front
        (api_worker ∷ [])
        three_modules
        in_place)
start_lem_example =
    start_lem tally tally-inj small_readers surroundings (pos 4) php84 (λ at n h. h) (λ c. [])
      (λ os. true) in_front (api_worker ∷ []) three_modules in_place (inl in_place-IsUp)
