-- ===== src/Workers/Servers.antt =====
-- server.go: the servers that are registered while FrankenPHP runs. A server is a number, and the store
-- holds what it points to, without its environment and logger; a worker is a number. `itoa` is
-- strconv.Itoa.
use frankenphp.Base.{
  ℕ, ◌+◌, Bool, true, false, List, [], ◌∷◌, ◌++◌, ◌==◌, if◌then◌else◌, Option, none, codes,
}
use frankenphp.Base.Int.{ℤ, pos}
use frankenphp.Text.{Bytes, is_empty}

pub record Server : Type 0 where
  pub idx : ℤ
  pub configured_name : Bytes
  pub name : Bytes
  pub root : Bytes
  pub split_path : List Bytes
  pub workers : List ℕ
  pub workers_by_path : Bytes → Option ℕ
  pub workers_with_request_matcher : List ℕ
  pub is_registered : Bool

pub record Servers : Type 0 where
  pub at : ℕ → Server
  pub servers : List ℕ
  pub fallback : Server

unfoldable pub reset_workers : Server → Server
reset_workers s = record s {
  workers = [];
  workers_by_path = λ p. none;
  workers_with_request_matcher = [];
}

-- Writes through the pointer of server `n`.
abbrev pub update : ℕ → (Server → Server) → (ℕ → Server) → ℕ → Server
update n f at m = if m == n then f (at m) else at m

module _ (itoa : ℕ → Bytes) where
  -- The body of the loop of `registerServers`.
  unfoldable pub identify : ℕ → Server → Server
  identify i s = reset_workers (record s {
    idx = pos i;
    name = if is_empty s.configured_name then codes "server_" ++ itoa i else s.configured_name;
  })

  unfoldable pub register_from : ℕ → List ℕ → (ℕ → Server) → ℕ → Server
  register_from i [] at = at
  register_from i (n ∷ ns) at = register_from (i + 1) ns (update n (identify i) at)

  unfoldable pub register_servers : List ℕ → Servers → Servers
  register_servers new_servers st = record {
    servers = new_servers;
    fallback = reset_workers st.fallback;
    at = register_from 0 new_servers st.at;
  }

abbrev pub set_registered : Bool → Server → Server
set_registered b s = record s { is_registered = b }

-- The loops of `activateServers` and `unregisterServers`.
unfoldable pub set_all : Bool → List ℕ → (ℕ → Server) → ℕ → Server
set_all b [] at = at
set_all b (n ∷ ns) at = set_all b ns (update n (set_registered b) at)

unfoldable pub activate_servers : Servers → Servers
activate_servers st = record st {
  fallback = set_registered true st.fallback;
  at = set_all true st.servers st.at;
}

unfoldable pub unregister_servers : Servers → Servers
unregister_servers st = record st {
  fallback = set_registered false st.fallback;
  at = set_all false st.servers st.at;
  servers = [];
}
