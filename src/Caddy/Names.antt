-- ===== src/Caddy/Names.antt =====
-- caddy/app.go, `createUniqueWorkerName`. The names used are a list, the newest first.
use frankenphp.Base.{
  ℕ, zero, suc, ◌+◌, List, [], ◌∷◌, ◌++◌, Option, none, some, if◌then◌else◌, length,
}
use frankenphp.Text.{Bytes, is_empty}
use frankenphp.Caddy.Distinct.{has}

module _ (itoa : ℕ → Bytes) where
  -- `fmt.Sprintf("%s_%d", …)`
  abbrev pub postfixed : Bytes → ℕ → Bytes
  postfixed base n = base ++ b'_' ∷ itoa n

  abbrev pub qualified : Bytes → Bytes → Bytes
  qualified server base = server ++ b':' ∷ base

  -- The loop, on fuel; the server's name is empty once it is used.
  unfoldable pub find_name : ℕ → List Bytes → Bytes → Bytes → Bytes → ℕ → Option Bytes
  find_name zero used base name server suffix = none
  find_name (suc n) used base name server suffix =
      let again =
        if is_empty server
        then find_name n used base (postfixed base (suffix + 1)) [] (suffix + 1)
        else find_name n used base (qualified server base) [] suffix in
      if has name used then again else some name

  -- The name, which is then used; `file` is the worker's file made absolute.
  unfoldable pub create_unique_worker_name :
      List Bytes → Bytes → Bytes → Bytes → Option (Bytes × List Bytes)
  unfolding find_name
  create_unique_worker_name used name file server =
      let base = if is_empty name then file else name in
      elim (find_name (suc (suc (suc (length used)))) used base base server 0) [
        | none ↦ none
        | some n ↦ some (n, n ∷ used)
      ]
