-- ===== src/Caddy/Provision.antt =====
-- caddy/module.go: `Provision` and `ServeHTTP` of a php directive.
use frankenphp.Base.{
  ℕ, Bool, true, false, not, ◌&&◌, ◌||◌, List, [], ◌∷◌, ◌++◌, map, keep, is_nil, Option, none, some,
  if◌then◌else◌, codes,
}
use frankenphp.Base.Int.{ℤ, pos, ltb_ℤ}
use frankenphp.Text.{Bytes, is_empty, contains_byte}
use frankenphp.Cgi.SplitPos.{normalize_split_path}
use frankenphp.Caddy.Distinct.{put}
use frankenphp.Caddy.WorkerConfig.{WorkerConfig}
use frankenphp.Caddy.ModuleConfig.{PhpModule}

-- The file system's answers and the embedded application. Hot reloading, where it is configured,
-- gives the value of its variable.
pub record Host : Type 0 where
  pub is_abs : Bytes → Bool
  pub is_local : Bytes → Bool
  pub join : Bytes → Bytes → Bytes
  pub fast_abs : Bytes → Option Bytes
  pub eval_symlinks : Bytes → Option Bytes
  pub embedded_app_path : Bytes
  pub configure_hot_reload : PhpModule → Option (Option Bytes)

pub data ProvisionError : Type 0 where
  invalid_split_path no_absolute_root no_root_symlink no_hot_reload : ProvisionError

pub data Provisioning {ℓ} (A : Type ℓ) : Type ℓ where
  ok : A → Provisioning A
  fail : ProvisionError → Provisioning A

infixl 5 ◌>>=◌
abbrev pub ◌>>=◌ {ℓ κ} :
    {A : Type ℓ} {B : Type κ} → Provisioning A → (A → Provisioning B) → Provisioning B
ok a >>= f = f a
fail e >>= f = fail e

-- A request's environment keeps its keys with a null byte behind them.
pub record Provisioned : Type 0 where
  pub config : PhpModule
  pub resolved_document_root : Bytes
  pub request_split_path : List Bytes
  pub request_body_timeout : Option ℤ  -- of the requests, none where it is switched off
  pub resolved_env : List (Bytes × Bytes)
  pub request_env : List (Bytes × Bytes)

abbrev pub or_fail {ℓ} : {A : Type ℓ} → ProvisionError → Option A → Provisioning A
or_fail e none = fail e
or_fail e (some a) = ok a

unfoldable pub need_replacement : Bytes → Bool
need_replacement s = contains_byte b'{' s || contains_byte b'}' s

abbrev pub default_request_body_timeout : ℤ
default_request_body_timeout = pos 60000000000

abbrev pub root_variable : Bytes
root_variable = codes "{http.vars.root}"

abbrev pub with_variable : Option Bytes → List (Bytes × Bytes) → List (Bytes × Bytes)
with_variable none env = env
with_variable (some v) env = put (codes "FRANKENPHP_HOT_RELOAD") v env

abbrev pub or_default {ℓ} : {A : Type ℓ} → A → Option A → A
or_default a none = a
or_default a (some b) = b

abbrev pub null_key : Bytes × Bytes → Bytes × Bytes
null_key (k, v) = (k ++ 0 ∷ [], v)

abbrev pub has_placeholder : Bytes × Bytes → Bool
has_placeholder (k, v) = need_replacement v

module _ (h : Host) where
  abbrev pub embedded : Bytes → Bytes
  embedded f =
      if not (is_empty h.embedded_app_path) && h.is_local f then h.join h.embedded_app_path f else f

  unfoldable pub worker_in_root : Bytes → WorkerConfig → WorkerConfig
  worker_in_root root wc =
      let f =
        if not (h.is_abs wc.file_name) && not (is_empty root)
        then h.join root wc.file_name
        else wc.file_name in
      record wc { file_name = embedded f }

  -- The root, and whether its symbolic links are resolved.
  unfoldable pub set_root : PhpModule → PhpModule
  set_root m =
      if is_empty m.root
      then if is_empty h.embedded_app_path then record m { root = root_variable } else record m {
        root = h.join h.embedded_app_path (codes "public");
        resolve_root_symlink = some false;
      }
      else record m { root = embedded m.root }

  -- A link that cannot be evaluated leaves an empty name.
  unfoldable pub resolved_worker : WorkerConfig → WorkerConfig
  resolved_worker wc =
      if h.is_abs wc.file_name
      then record wc { file_name = or_default [] (h.eval_symlinks wc.file_name) }
      else wc

  -- The document root, which stays empty where the root has a placeholder.
  unfoldable pub resolve_document_root : Bool → PhpModule → Provisioning (PhpModule × Bytes)
  unfolding resolved_worker
  resolve_document_root symlinks m =
      if need_replacement m.root
      then ok (m, [])
      else (or_fail no_absolute_root (h.fast_abs m.root) >>= λ root.
          if symlinks
          then (or_fail no_root_symlink (h.eval_symlinks root) >>= λ resolved.
              ok (record m { workers = map resolved_worker m.workers }, resolved))
          else ok (m, root))

  unfoldable pub rooted_module : PhpModule → PhpModule
  unfolding worker_in_root set_root
  rooted_module m = set_root (record m { workers = map (worker_in_root m.root) m.workers })

  unfoldable pub provision : PhpModule → Provisioning Provisioned
  unfolding rooted_module resolve_document_root
  provision m = do
    let rooted = rooted_module m
    split_path ← or_fail invalid_split_path (normalize_split_path rooted.split_path)
    let timeout = or_default default_request_body_timeout rooted.request_body_timeout
    let symlinks = or_default true rooted.resolve_root_symlink
    (resolved, document_root) ← resolve_document_root symlinks (record rooted {
      split_path = split_path;
      resolve_root_symlink = some symlinks;
      request_body_timeout = some timeout;
    })
    variable ← or_fail no_hot_reload (h.configure_hot_reload resolved)
    let env = with_variable variable resolved.env
    ok (record {
      config = record resolved { env = env };
      resolved_document_root = document_root;
      request_split_path = split_path;
      request_body_timeout = if ltb_ℤ (pos 0) timeout then some timeout else none;
      resolved_env = keep (λ e. not (has_placeholder e)) env;
      request_env = map null_key (keep has_placeholder env);
    })

-- `frankenphp.RequestOption`
pub data RequestOption : Type 0 where
  with_split_path : List Bytes → RequestOption
  with_body_timeout : ℤ → RequestOption
  with_original_request : RequestOption
  with_document_root : Bytes → RequestOption
  with_prepared_env : List (Bytes × Bytes) → RequestOption

-- The error that Caddy is given: 503, or 500.
pub data HttpError : Type 0 where
  service_unavailable internal_error : HttpError

-- What `ServeHTTP` of the server comes to. A request that the server rejects is answered by the server,
-- with the status of the rejection, and `ServeHTTP` returns no error.
pub data ServerAnswer : Type 0 where
  handled : ServerAnswer
  rejected : ℕ → ServerAnswer
  failed : ServerAnswer

abbrev pub replaced : (Bytes → Bytes) → Bytes × Bytes → Bytes × Bytes
replaced known (k, v) = (k, known v)

-- The options of one request; `known` replaces the placeholders.
unfoldable pub request_options : Host → (Bytes → Bytes) → Provisioned → List RequestOption
request_options h known p =
    let replaced_root = known p.config.root in
    let root =
      if is_empty replaced_root && not (is_empty h.embedded_app_path)
      then h.embedded_app_path
      else replaced_root in
    with_split_path p.request_split_path
    ∷ (elim p.request_body_timeout [ none ↦ [] | some n ↦ with_body_timeout n ∷ [] ]
        ++ with_original_request
          ∷ ((if is_empty p.resolved_document_root then with_document_root root ∷ [] else [])
              ++ (if is_nil p.request_env
                  then []
                  else with_prepared_env (map (replaced known) p.request_env) ∷ [])))

-- `ServeHTTP`, where the start of the runtime is over, comes within 10 s, or does not: the options the
-- server was called with, and the error.
unfoldable pub serve_http :
    Host
    → (Bytes → Bytes)
    → Bool
    → Bool
    → (List RequestOption → ServerAnswer)
    → Provisioned
    → Option (List RequestOption) × Option HttpError
unfolding request_options
serve_http h known has_started starts server p =
    if has_started || starts
    then (let options = request_options h known p in
        (
          some options,
          elim (server options) [
            | handled ↦ none
            | rejected status ↦ none
            | failed ↦ some internal_error
          ],
        ))
    else (none, some service_unavailable)
