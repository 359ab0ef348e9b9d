-- ===== src/Cgi/Context.antt =====
-- cgi.go, `splitCgiPath`, built for a system other than Windows: the fields of a request context that
-- it reads and writes.
use frankenphp.Base.{
  ℕ, false, List, [], ◌∷◌, ◌==◌, if◌then◌else◌, Option, none, some, drop, take, codes,
}
use frankenphp.Text.{Bytes, slash, cut_prefix, trim_suffix}
use frankenphp.Cgi.RequestPath.{clean_request_path, ensure_leading_slash, sanitized_path_join}
use frankenphp.Cgi.SplitPos.{split_pos}

-- A worker, by the two fields that the CGI view reads: its name stands for its identity.
pub record ScriptWorker : Type 0 where
  pub name : Bytes
  pub file_name : Bytes

pub record Context : Type 0 where
  pub url_path : Bytes
  pub split_path : Option (List Bytes)  -- `none` is nil
  pub document_root : Bytes
  pub worker : Option ScriptWorker
  pub doc_uri : Bytes
  pub path_info : Bytes
  pub script_name : Bytes
  pub script_filename : Bytes

pub data SplitResult : Type 0 where
  ok : Context → SplitResult
  invalid_script_path : SplitResult  -- ErrInvalidScriptPath

abbrev pub splits_of : Context → List Bytes
splits_of fc = elim fc.split_path [ some splits ↦ splits | none ↦ codes ".php" ∷ [] ]

abbrev pub cleaned_path : Context → Bytes
cleaned_path fc = clean_request_path fc.url_path false

-- The fields set where a split was found.
abbrev with_split : Context → Bytes → Option ℕ → Context
with_split fc path none = fc
with_split fc path (some pos) = record fc { doc_uri = take pos path; path_info = drop pos path }

-- `rest != "" && rest[0] == filepath.Separator`
abbrev pub below_root : Option Bytes → Option Bytes
below_root none = none
below_root (some []) = none
below_root (some (c ∷ rest)) = if c == slash then some (c ∷ rest) else none

-- A worker was assigned before: SCRIPT_NAME comes from its file name.
unfoldable pub assigned_worker : ScriptWorker → Context → Context
assigned_worker w fc =
    let fc' = record fc { script_filename = w.file_name } in
    elim (below_root (cut_prefix w.file_name fc.document_root)) [
      | some rest ↦ record fc' { script_name = rest }
      | none ↦ record fc' { doc_uri = []; path_info = [] }
    ]

-- The two maps of workers by path, of the server and global.
module _ (server_workers global_workers : Bytes → Option ScriptWorker) where
  unfoldable pub lookup_worker : Bytes → Option ScriptWorker
  lookup_worker file = elim (server_workers file) [ some w ↦ some w | none ↦ global_workers file ]

  unfoldable pub named_script : Bytes → Context → Context
  named_script path fc =
      let script_name = ensure_leading_slash (trim_suffix path fc.path_info) in
      let script_filename = sanitized_path_join fc.document_root script_name in
      record fc {
        script_name = script_name;
        script_filename = script_filename;
        worker = lookup_worker script_filename;
      }

  unfoldable pub split_cgi_path : Context → SplitResult
  split_cgi_path fc =
      let path = cleaned_path fc in
      let pos = split_pos path (splits_of fc) in
      let fc' = with_split fc path pos in
      elim fc'.worker [
        | some w ↦ ok (assigned_worker w fc')
        | none ↦ elim pos [ none ↦ invalid_script_path | some _ ↦ ok (named_script path fc') ]
      ]
