-- ===== src/Caddy/Sources.antt =====
-- caddy/module.go: the files that the routes of a php_server send, and the requests they answer.
use frankenphp.Base.{
  ◌≡◌, refl, sym, ◌∙◌, Bool, true, false, not, ◌||◌, List, [], ◌∷◌, ◌++◌, any, none, arith, inl,
  inr, Bool-cases, if◌then◌else◌, ◌≢◌,
}
use mathlib.Core.Path.{subst}
use frankenphp.Text.{Bytes}
use frankenphp.Caddy.Routes.{
  existing, checked_route, php_route, file_route, not_found_route, Route, PhpServer, path_list,
  concat, php_sources, prepend_worker_routes, index_routes, file_routes, php_server_routes,
  redirect_route, rewrite_route,
}
use frankenphp.Caddy.Serving.{Response, ran_php, sent_file, answered, passed_on, Subroutes}
use frankenphp.Caddy.RoutesLaws.{
  IsAmong, IsNotAmong, Gives, Gives-after_php, Gives-after_static, Gives-after_rewrite,
  Gives-after_file, not_any_append, kept_out, only_path,
}

module _ (s : Subroutes) where
  -- The path has neither PHP's own endings nor those that are executed.
  abbrev pub IsNotSource : PhpServer → Bytes → Type 0
  IsNotSource srv p = IsNotAmong s (php_sources ++ path_list srv.extensions) p

  -- A file that is sent is no source.
  abbrev pub IsSafe : PhpServer → Response → Type 0
  IsSafe srv (sent_file p) = IsNotSource srv p
  IsSafe srv (ran_php p) = Unit
  IsSafe srv (answered status) = Unit
  IsSafe srv (passed_on p) = Unit

  pub Gives-index :
      (R : Response → Type 0) (srv : PhpServer) (rs : List Route)
      → R (answered 308)
      → Gives s R rs
      → Gives s R (index_routes srv ++ rs)
  unfolding index_routes
  Gives-index R srv rs r h = split _ _
    where
      split :
          (off redirects : Bool)
          → Gives s R (
              (if off
                then []
                else (if redirects then redirect_route srv ∷ [] else []) ++ rewrite_route srv ∷ [])
              ++ rs)
      split true b = h
      split false true =
          Gives-after_static s R _ _ _ _ refl r (Gives-after_rewrite s R _ _ _ refl h)
      split false false = Gives-after_rewrite s R _ _ _ refl h

  pub Gives-workers :
      (R : Response → Type 0) (srv : PhpServer) (paths : List Bytes) (rs : List Route)
      → ((p : Bytes) → R (ran_php p))
      → ((p : Bytes) → IsNotAmong s (php_sources ++ paths) p → R (sent_file p))
      → Gives s R rs
      → Gives s R (prepend_worker_routes srv paths ++ rs)
  unfolding prepend_worker_routes
  Gives-workers R srv paths rs r f h = split (concat srv.workers) srv.disable_file_server
    where
      split :
          (ms : List Bytes) (off : Bool)
          → Gives s R (
              elim ms [
                | [] ↦ []
                | m ∷ ms ↦
                    (if off then [] else checked_route srv paths ∷ []) ++ php_route (m ∷ ms) ∷ []
              ]
              ++ rs)
      split [] off = h
      split (m ∷ ms) true = Gives-after_php s R (php_route (m ∷ ms)) rs refl r h
      split (m ∷ ms) false =
          Gives-after_file s R (checked_route srv paths) _ refl
            (λ p k. f p (kept_out s (checked_route srv paths).matchers _ p refl k))
            (Gives-after_php s R (php_route (m ∷ ms)) rs refl r h)

  -- The last routes: what reaches the file server is no path that is executed.
  pub Gives-files :
      (srv : PhpServer)
      → Gives s (IsSafe srv) (php_route (path_list srv.extensions) ∷ file_routes srv)
  unfolding file_routes
  Gives-files srv p = elim (Bool-cases (s.matches route.matchers p)) [
    | inl m ↦ subst (IsSafe srv) (sym (s.serve-php route (file_routes srv) p refl m)) tt
    | inr m ↦
        subst (IsSafe srv) (sym (s.serve-skip route (file_routes srv) p m))
          (split srv.disable_file_server (sym (only_path s paths p) ∙ m))
  ]
    where
      paths : List Bytes
      paths = path_list srv.extensions

      route : Route
      route = php_route paths

      split :
          (off : Bool)
          → IsNotAmong s paths p
          → IsSafe srv (s.serve (if off then [] else file_route ∷ not_found_route ∷ []) p)
      split true out = subst (IsSafe srv) (sym (s.serve-end p)) tt
      split false out = elim (Bool-cases (s.matches file_route.matchers p)) [
        | inl m ↦
            subst (IsSafe srv) (sym (s.serve-file file_route (not_found_route ∷ []) p refl m)) (
              not_any_append s php_sources paths p
                (kept_out s file_route.matchers php_sources p refl m) out)
        | inr m ↦ subst (IsSafe srv) (sym (s.serve-skip file_route (not_found_route ∷ []) p m)) (
            Gives-after_static s (IsSafe srv) not_found_route [] 404 none refl tt
              (λ q. subst (IsSafe srv) (sym (s.serve-end q)) tt) p)
      ]

  -- Whatever a php_server is configured with, and whatever the file system holds, a request that is
  -- answered with a file is not for a path that ends in `.php`, or has it before a slash, nor for one
  -- that the server's own extensions execute: no PHP source is sent.
  pub php_server_routes-sources :
      (srv : PhpServer) (p q : Bytes)
      → s.serve (php_server_routes srv) p ≡ sent_file q
      → IsNotSource srv q
  unfolding php_server_routes
  php_server_routes-sources srv p q e = subst (IsSafe srv) e (
      Gives-workers (IsSafe srv) srv _ _ (λ p. tt) (λ p h. h)
        (Gives-index (IsSafe srv) srv _ tt (Gives-files srv)) p)

  -- The request does not fall through.
  abbrev pub IsAnswer : Response → Type 0
  IsAnswer (passed_on p) = ⊥
  IsAnswer (ran_php p) = Unit
  IsAnswer (sent_file p) = Unit
  IsAnswer (answered status) = Unit

  pub answers_last : Gives s IsAnswer (file_route ∷ not_found_route ∷ [])
  answers_last p = elim (Bool-cases (s.matches file_route.matchers p)) [
    | inl m ↦ subst IsAnswer (sym (s.serve-file file_route (not_found_route ∷ []) p refl m)) tt
    | inr m ↦ subst IsAnswer (sym (s.serve-skip file_route (not_found_route ∷ []) p m)) (
        subst IsAnswer
          (sym (
            s.serve-static not_found_route [] 404 none p refl
              (ground (arith, s.matches-all file_route.matchers p, m, only_path s php_sources p))))
          tt)
  ]

  -- With the file server on, no request falls through the routes of a php_server.
  pub php_server_routes-total :
      (srv : PhpServer) (p : Bytes)
      → srv.disable_file_server ≡ false
      → (q : Bytes) → s.serve (php_server_routes srv) p ≢ passed_on q
  unfolding php_server_routes file_routes
  php_server_routes-total srv p on q e = subst IsAnswer e (
      Gives-workers IsAnswer srv _ _ (λ p. tt) (λ p h. tt)
        (Gives-index IsAnswer srv _ tt (
          Gives-after_php s IsAnswer (php_route (path_list srv.extensions)) _ refl (λ p. tt)
            (subst
              (λ (off : Bool).
                Gives s IsAnswer (if off then [] else file_route ∷ not_found_route ∷ []))
              (sym on) answers_last)))
        p)

  -- A request for a path of a worker is run by PHP, where the file server is off, the path is a PHP
  -- file's, or no file of that name exists.
  pub php_server_routes-workers :
      (srv : PhpServer) (p : Bytes)
      → IsAmong s (concat srv.workers) p
      → (srv.disable_file_server
          || (any (λ pattern. s.path_matches pattern p) (php_sources ++ path_list srv.extensions)
              || not (s.file_matches (existing srv) p)))
        ≡ true
      → s.serve (php_server_routes srv) p ≡ ran_php p
  unfolding php_server_routes prepend_worker_routes
  php_server_routes-workers srv p h k = split (concat srv.workers) srv.disable_file_server h k
    where
      paths : List Bytes
      paths = path_list srv.extensions

      split :
          (ms : List Bytes) (off : Bool)
          → IsAmong s ms p
          → (off
              || (any (λ pattern. s.path_matches pattern p) (php_sources ++ paths)
                  || not (s.file_matches (existing srv) p)))
            ≡ true
          → s.serve
              (elim ms [
                | [] ↦ []
                | m ∷ ms ↦
                    (if off then [] else checked_route srv paths ∷ []) ++ php_route (m ∷ ms) ∷ []
              ]
                ++ (index_routes srv ++ php_route paths ∷ file_routes srv))
              p
            ≡ ran_php p
      split [] off h k = absurd (ground (arith, h))
      split (m ∷ ms) true h k =
          s.serve-php (php_route (m ∷ ms)) _ p refl (only_path s (m ∷ ms) p ∙ h)
      split (m ∷ ms) false h k =
          s.serve-skip (checked_route srv paths) _ p
            (ground (arith, s.matches-all (checked_route srv paths).matchers p, k))
          ∙ s.serve-php (php_route (m ∷ ms)) _ p refl (only_path s (m ∷ ms) p ∙ h)
