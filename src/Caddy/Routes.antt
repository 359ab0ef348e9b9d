-- ===== src/Caddy/Routes.antt =====
-- caddy/module.go, `parsePhpServer` from the parsed subdirectives on, and `prependWorkerRoutes`: the
-- routes that a php_server stands for. A set of matchers is a record of those that it has.
use frankenphp.Base.{
  ℕ, Bool, true, not, List, [], ◌∷◌, ◌++◌, any, is_nil, codes, if◌then◌else◌, Option, none, some,
}
use frankenphp.Text.{Bytes, same}

-- `fileserver.MatchFile`
pub record FileMatch : Type 0 where
  pub try_files : List Bytes
  pub split_path : List Bytes
  pub root : Bytes

-- The matchers of one set, all of which must match: `path`, `not` with a `path`, `file`.
pub record Matchers : Type 0 where
  pub path : Option (List Bytes)
  pub not_path : Option (List Bytes)
  pub file : Option FileMatch

pub data Handler : Type 0 where
  static_response : ℕ → Option Bytes → Handler  -- the status and a Location
  rewrite : Bytes → Handler  -- the new URI
  php : Handler
  file_server : Handler

pub record Route : Type 0 where
  pub matchers : Matchers
  pub handler : Handler

-- What the subdirectives have set; a worker is the paths that it matches.
pub record PhpServer : Type 0 where
  pub root : Bytes
  pub extensions : List Bytes
  pub index_file : Bytes
  pub try_files : List Bytes
  pub disable_file_server : Bool
  pub workers : List (List Bytes)

abbrev pub anything : Matchers
anything = record { path = none; not_path = none; file = none }

abbrev pub path_of_uri : Bytes
path_of_uri = codes "{http.request.uri.path}"

abbrev pub canonical_path_location : Bytes
canonical_path_location =
    codes "./{http.request.orig_uri.path.file_escaped}/{http.request.orig_uri.prefixed_query}"

abbrev pub rewrite_uri : Bytes
rewrite_uri = codes "{http.matchers.file.relative}{http.matchers.file.remainder}"

abbrev pub php_sources : List Bytes
php_sources = codes "*.php" ∷ codes "*.php/*" ∷ []

abbrev pub path_list : List Bytes → List Bytes
path_list [] = []
path_list (ext ∷ exts) = (codes "*" ++ ext) ∷ (codes "*" ++ (ext ++ codes "/*")) ∷ path_list exts

abbrev pub concat {ℓ} : {A : Type ℓ} → List (List A) → List A
concat [] = []
concat (xs ∷ xss) = xs ++ concat xss

abbrev pub existing : PhpServer → FileMatch
existing srv = record { try_files = path_of_uri ∷ []; split_path = []; root = srv.root }

-- A file that is there, and is no PHP file, goes before the workers.
abbrev pub checked_route : PhpServer → List Bytes → Route
checked_route srv php_paths = record {
  matchers = record {
    path = none;
    not_path = some (php_sources ++ php_paths);
    file = some (existing srv);
  };
  handler = file_server;
}

abbrev pub php_route : List Bytes → Route
php_route paths = record { matchers = record anything { path = some paths }; handler = php }

-- The paths of the workers, once one has some.
unfoldable pub prepend_worker_routes : PhpServer → List Bytes → List Route
prepend_worker_routes srv php_paths = elim (concat srv.workers) [
  | [] ↦ []
  | m ∷ ms ↦
      (if srv.disable_file_server then [] else checked_route srv php_paths ∷ [])
      ++ php_route (m ∷ ms) ∷ []
]

abbrev dir_index : PhpServer → Bytes
dir_index srv = path_of_uri ++ (codes "/" ++ srv.index_file)

abbrev tried : PhpServer → List Bytes
tried srv =
    if not (is_nil srv.try_files)
    then srv.try_files
    else if srv.disable_file_server
    then dir_index srv ∷ srv.index_file ∷ []
    else path_of_uri ∷ dir_index srv ∷ srv.index_file ∷ []

abbrev dir_redirects : PhpServer → Bool
dir_redirects srv = if is_nil srv.try_files then true else any (same (dir_index srv)) srv.try_files

abbrev pub redirect_route : PhpServer → Route
redirect_route srv = record {
  matchers = record {
    path = none;
    not_path = some (codes "*/" ∷ []);
    file = some (record { try_files = dir_index srv ∷ []; split_path = []; root = srv.root });
  };
  handler = static_response 308 (some canonical_path_location);
}

abbrev pub rewrite_route : PhpServer → Route
rewrite_route srv = record {
  matchers = record anything {
    file = some (record { try_files = tried srv; split_path = srv.extensions; root = srv.root });
  };
  handler = rewrite rewrite_uri;
}

-- The routes for an index, none where it is off.
unfoldable pub index_routes : PhpServer → List Route
index_routes srv =
    if same srv.index_file (codes "off")
    then []
    else (if dir_redirects srv then redirect_route srv ∷ [] else []) ++ rewrite_route srv ∷ []

abbrev pub file_route : Route
file_route = record {
  matchers = record anything { not_path = some php_sources };
  handler = file_server;
}

abbrev pub not_found_route : Route
not_found_route = record {
  matchers = record anything { path = some php_sources };
  handler = static_response 404 none;
}

unfoldable pub file_routes : PhpServer → List Route
file_routes srv = if srv.disable_file_server then [] else file_route ∷ not_found_route ∷ []

unfoldable pub php_server_routes : PhpServer → List Route
unfolding prepend_worker_routes index_routes file_routes
php_server_routes srv =
    let paths = path_list srv.extensions in
    prepend_worker_routes srv paths ++ (index_routes srv ++ php_route paths ∷ file_routes srv)
