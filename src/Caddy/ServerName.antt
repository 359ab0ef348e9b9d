-- ===== src/Caddy/ServerName.antt =====
-- caddy/servername.go: the name of a php_server from the routes of Caddy's servers.
use frankenphp.Base.{
  ℕ, Bool, false, ◌||◌, List, [], ◌∷◌, ◌++◌, All, ◌≡◌, refl, ap, arith, Option, none, some,
  if◌then◌else◌, ◌==◌,
}
use frankenphp.Text.{Bytes, is_empty}

-- The matchers of a route: the hosts, or any other one.
pub data RouteMatcher : Type 0 where
  match_host : List Bytes → RouteMatcher
  other_matcher : RouteMatcher

-- A list of routes and the list of handlers of one, with a module by its number.
mutual
  pub data RouteList : Type 0 where
    no_routes : RouteList
    route : List (List RouteMatcher) → Handlers → RouteList → RouteList

  pub data Handlers : Type 0 where
    no_handlers : Handlers
    handler : ℕ → Handlers → Handlers
    subroute : RouteList → Handlers → Handlers

pub record HttpServer : Type 0 where
  pub routes : RouteList
  pub listen : List Bytes

-- `serverContainsHandler` and the inner loop of `routeContainsHandler`, which are the same.
unfoldable mutual
  pub contains_handler : ℕ → RouteList → Bool
  contains_handler target no_routes = false
  contains_handler target (route ms hs rs) =
      route_contains_handler target hs || contains_handler target rs

  pub route_contains_handler : ℕ → Handlers → Bool
  route_contains_handler target no_handlers = false
  route_contains_handler target (handler n hs) = n == target || route_contains_handler target hs
  route_contains_handler target (subroute rs hs) =
      contains_handler target rs || route_contains_handler target hs

-- The first host of a set of matchers, and of several.
abbrev pub host_in_set : List RouteMatcher → Option Bytes
host_in_set [] = none
host_in_set (match_host (h ∷ hs) ∷ ms) = some h
host_in_set (match_host [] ∷ ms) = host_in_set ms
host_in_set (other_matcher ∷ ms) = host_in_set ms

abbrev pub host_in_sets : List (List RouteMatcher) → Option Bytes
host_in_sets [] = none
host_in_sets (s ∷ ss) =
    let rest = host_in_sets ss in elim (host_in_set s) [ none ↦ rest | some h ↦ some h ]

unfoldable pub find_host_in_routes : ℕ → RouteList → Bytes
unfolding route_contains_handler
find_host_in_routes target no_routes = []
find_host_in_routes target (route ms hs rs) =
    let rest = find_host_in_routes target rs in
    if route_contains_handler target hs
    then elim (host_in_sets ms) [ none ↦ rest | some h ↦ h ]
    else rest

-- The loop over the servers, in the order in which Go gives them.
unfoldable pub name_from_servers : ℕ → List HttpServer → Bytes
unfolding contains_handler find_host_in_routes
name_from_servers target [] = []
name_from_servers target (s ∷ ss) =
    let rest = name_from_servers target ss in
    if contains_handler target s.routes
    then if is_empty (find_host_in_routes target s.routes)
      then elim s.listen [ [] ↦ rest | a ∷ as_ ↦ a ]
      else find_host_in_routes target s.routes
    else rest

-- The name given, no name without the http app, or that of a server.
unfoldable pub resolve_server_name : Bytes → ℕ → Option (List HttpServer) → Bytes
unfolding name_from_servers
resolve_server_name name target app =
    if is_empty name
    then elim app [ none ↦ [] | some servers ↦ name_from_servers target servers ]
    else name

-- A module that stands in one server only has its name from that server, whatever order Go gives the
-- servers in.
pub resolve_server_name-order :
    (name : Bytes) (target : ℕ) (before after : List HttpServer) (s : HttpServer)
    → All (λ (o : HttpServer). contains_handler target o.routes ≡ false) before
    → All (λ (o : HttpServer). contains_handler target o.routes ≡ false) after
    → resolve_server_name name target (some (before ++ s ∷ after))
      ≡ resolve_server_name name target (some (s ∷ []))
unfolding resolve_server_name
resolve_server_name-order name target before after s h k =
    ap (λ (n : Bytes). if is_empty name then n else name) (from_one before h)
  where
    from_none :
        (os : List HttpServer)
        → All (λ (o : HttpServer). contains_handler target o.routes ≡ false) os
        → name_from_servers target os ≡ []
    from_none [] h = refl
    from_none (o ∷ os) (h, hs) = ground (arith, h, from_none os hs)

    from_one :
        (os : List HttpServer)
        → All (λ (o : HttpServer). contains_handler target o.routes ≡ false) os
        → name_from_servers target (os ++ s ∷ after) ≡ name_from_servers target (s ∷ [])
    from_one [] h = ground (arith, from_none after k)
    from_one (o ∷ os) (h, hs) = ground (arith, h, from_one os hs)
