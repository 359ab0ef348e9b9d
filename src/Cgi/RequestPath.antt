-- ===== src/Cgi/RequestPath.antt =====
-- cgi.go, `cleanRequestPath`, `sanitizedPathJoin` and `ensureLeadingSlash`. `windows` is the argument
-- of that name; `sanitizedPathJoin` is the build for a system other than Windows.
use frankenphp.Base.{
  ℕ, Bool, not, ◌&&◌, ◌||◌, [], ◌∷◌, ◌++◌, ◌==◌, if◌then◌else◌, map, drop, length, ltb,
}
use frankenphp.Text.{
  Bytes, slash, split_on, join, is_empty, same, contains_sub, trim_right, has_suffix,
}
use frankenphp.Text.Clean.{dot, dot_dot, clean, join_paths}

-- A byte of the cut set ". "
abbrev is_dot_or_space : ℕ → Bool
is_dot_or_space c = c == b'.' || c == b' '

unfoldable pub trim_segment : Bytes → Bytes
trim_segment s = if same s dot || same s dot_dot then s else trim_right is_dot_or_space s

abbrev pub to_slashes : Bytes → Bytes
to_slashes s = map (λ c. if c == 92 then slash else c) s

-- The last part of `cleanRequestPath`: `path.Clean`, and the slash at the end put back.
unfoldable pub clean_rooted : Bytes → Bytes
clean_rooted q =
    let cleaned = clean (slash ∷ q) in
    if not (same cleaned (slash ∷ [])) && has_suffix q (slash ∷ [])
    then cleaned ++ slash ∷ []
    else cleaned

unfoldable pub clean_request_path : Bytes → Bool → Bytes
clean_request_path req_path windows =
    let p = if windows then to_slashes req_path else req_path in
    if not (contains_sub p (slash ∷ dot))
    then p
    else clean_rooted (if windows then join slash (map trim_segment (split_on slash p)) else p)

unfoldable pub ensure_leading_slash : Bytes → Bytes
ensure_leading_slash [] = []
ensure_leading_slash (c ∷ p) = if c == slash then c ∷ p else slash ∷ c ∷ p

abbrev pub rel_path : Bytes → Bytes
rel_path req_path = drop 1 (clean (ensure_leading_slash req_path))

unfoldable pub sanitized_path_join : Bytes → Bytes → Bytes
unfolding ensure_leading_slash
sanitized_path_join root req_path =
    let base = if is_empty root then dot else root in
    let joined = join_paths base (rel_path req_path) in
    if has_suffix req_path (slash ∷ []) && ltb 1 (length req_path)
    then joined ++ slash ∷ []
    else joined
