-- ===== src/Caddy/Serving.antt =====
-- What caddy/module.go relies on of Caddy: a subroute tries its routes in order, a set of matchers
-- matches when each of them does, and a handler answers, but for `rewrite`, which goes on with
-- another path.
use frankenphp.Base.{◌≡◌, Bool, true, false, not, ◌&&◌, List, [], ◌∷◌, any, ℕ, Option, none, some}
use frankenphp.Text.{Bytes}
use frankenphp.Caddy.Routes.{FileMatch, Matchers, static_response, rewrite, php, file_server, Route}

-- How a request ends: the path is the one that the handler is given.
pub data Response : Type 0 where
  ran_php : Bytes → Response
  sent_file : Bytes → Response
  answered : ℕ → Response
  passed_on : Bytes → Response

abbrev pub paths_match : (Bytes → Bytes → Bool) → Option (List Bytes) → Bytes → Bool
paths_match m none p = true
paths_match m (some patterns) p = any (λ pattern. m pattern p) patterns

abbrev pub none_match : (Bytes → Bytes → Bool) → Option (List Bytes) → Bytes → Bool
none_match m none p = true
none_match m (some patterns) p = not (any (λ pattern. m pattern p) patterns)

abbrev pub files_match : (FileMatch → Bytes → Bool) → Option FileMatch → Bytes → Bool
files_match m none p = true
files_match m (some f) p = m f p

-- The request is its path: all else that Caddy reads, the file system too, is in the operations.
pub record Subroutes : Type 0 where
  pub path_matches : Bytes → Bytes → Bool
  pub file_matches : FileMatch → Bytes → Bool
  pub rewritten : Matchers → Bytes → Bytes → Bytes
  pub serve : List Route → Bytes → Response
  pub matches : Matchers → Bytes → Bool
  pub matches-all :
      (m : Matchers) (p : Bytes)
      → matches m p ≡ (
          paths_match path_matches m.path p
          && (none_match path_matches m.not_path p && files_match file_matches m.file p))
  pub serve-end : (p : Bytes) → serve [] p ≡ passed_on p
  pub serve-skip :
      (r : Route) (rs : List Route) (p : Bytes)
      → matches r.matchers p ≡ false
      → serve (r ∷ rs) p ≡ serve rs p
  pub serve-php :
      (r : Route) (rs : List Route) (p : Bytes)
      → r.handler ≡ php
      → matches r.matchers p ≡ true
      → serve (r ∷ rs) p ≡ ran_php p
  pub serve-file :
      (r : Route) (rs : List Route) (p : Bytes)
      → r.handler ≡ file_server
      → matches r.matchers p ≡ true
      → serve (r ∷ rs) p ≡ sent_file p
  pub serve-static :
      (r : Route) (rs : List Route) (status : ℕ) (location : Option Bytes) (p : Bytes)
      → r.handler ≡ static_response status location
      → matches r.matchers p ≡ true
      → serve (r ∷ rs) p ≡ answered status
  pub serve-rewrite :
      (r : Route) (rs : List Route) (uri p : Bytes)
      → r.handler ≡ rewrite uri
      → matches r.matchers p ≡ true
      → serve (r ∷ rs) p ≡ serve rs (rewritten r.matchers uri p)
