-- ===== src/Workers/Declaration.antt =====
-- worker.go, `resolveWorkerFile` and `checkWorkerDeclaration`, and frankenphp.go, the loop of
-- `Validate`. `fast_abs`, `eval_symlinks` and `stat` ask the operating system, and `none` is their
-- error. A server is a number; a map from paths is a function.
use frankenphp.Base.{
  ℕ, Bool, true, false, not, ◌&&◌, ◌||◌, List, [], ◌∷◌, ◌==◌, if◌then◌else◌, Option, none, some,
}
use frankenphp.Text.{Bytes, same, is_empty}

-- `workerOpt`, as far as a declaration is checked; `server` is `none` for a global worker.
pub record Declaration : Type 0 where
  pub name : Bytes
  pub file_name : Bytes
  pub declared_file_name : Bytes
  pub server : Option ℕ
  pub has_matcher : Bool

pub data DeclError : Type 0 where
  invalid_file file_not_found : DeclError
  global_same_file matcher_without_server server_same_file same_name : DeclError

pub data Checked {ℓ} (A : Type ℓ) : Type ℓ where
  ok : A → Checked A
  fail : DeclError → Checked A

infixl 5 ◌>>=◌
abbrev pub ◌>>=◌ {ℓ κ} : {A : Type ℓ} {B : Type κ} → Checked A → (A → Checked B) → Checked B
ok a >>= f = f a
fail e >>= f = fail e

abbrev pub or_fail {ℓ} : {A : Type ℓ} → DeclError → Option A → Checked A
or_fail e none = fail e
or_fail e (some a) = ok a

-- The scope of a path: `none` for the global workers.
abbrev pub Scope : Type 0
Scope = Option ℕ

abbrev pub same_scope : Scope → Scope → Bool
same_scope none none = true
same_scope (some a) (some b) = a == b
same_scope _ _ = false

-- Whether a name or a path in a scope is taken.
abbrev pub Names : Type 0
Names = Bytes → Bool

abbrev pub Paths : Type 0
Paths = Scope → Bytes → Bool

-- `none` is a nil error.
unfoldable pub check_worker_declaration : Declaration → Names → Paths → Option DeclError
check_worker_declaration o name_taken path_taken =
    let by_name = if name_taken o.name then some same_name else none in
    elim o.server [
      | none ↦
          if path_taken none o.file_name
          then some global_same_file
          else if o.has_matcher
          then some matcher_without_server
          else by_name
      | some s ↦
          if not o.has_matcher && path_taken (some s) o.file_name
          then some server_same_file
          else by_name
    ]

abbrev pub add_name : Bytes → Names → Names
add_name n names m = same m n || names m

abbrev pub add_path : Scope → Bytes → Paths → Paths
add_path s p paths s' p' = (same_scope s' s && same p' p) || paths s' p'

module _ (fast_abs eval_symlinks : Bytes → Option Bytes) (stat : Bytes → Bool) where
  unfoldable pub resolve_worker_file : Declaration → Checked Declaration
  resolve_worker_file o = do
    declared ← or_fail invalid_file (fast_abs o.file_name)
    evaluated ← or_fail invalid_file (eval_symlinks o.file_name)
    absolute ← or_fail invalid_file (fast_abs evaluated)
    if not (stat absolute)
        then fail file_not_found
        else ok (record o {
          declared_file_name = declared;
          file_name = absolute;
          name = if is_empty o.name then absolute else o.name;
        })

  -- The loop of `Validate`; the two functions are the maps filled so far.
  unfoldable pub validate_workers : List Declaration → Names → Paths → Option DeclError
  validate_workers [] names paths = none
  validate_workers (o ∷ os) names paths = elim (resolve_worker_file o) [
    | fail e ↦ some e
    | ok w ↦ elim (check_worker_declaration w names paths) [
      | some e ↦ some e
      | none ↦
          validate_workers os (add_name w.name names)
            (if w.has_matcher then paths else add_path w.server w.file_name paths)
    ]
  ]
