-- ===== src/Watcher/Match.antt =====
-- internal/watcher/pattern.go, `matchPattern`, `matchCurlyBracePattern` and `matchPatterns`. `glob`
-- is `filepath.Match`, whose error is `none`.
use frankenphp.Base.{
  ℕ, zero, suc, ◌+◌, ◌-◌, Bool, true, false, List, [], ◌∷◌, ltb, if◌then◌else◌, Option, none, some,
  length, take, drop, any,
}
use frankenphp.Text.{Bytes, slash, split_on, join, is_empty}
use frankenphp.Watcher.Braces.{expand_curly_braces}

abbrev pub Glob : Type 0
Glob = Bytes → Bytes → Option Bool

unfoldable pub match_pattern : Glob → Bytes → Bytes → Bool
match_pattern glob pattern file_name =
    if is_empty pattern
    then true
    else elim (glob pattern file_name) [ none ↦ false | some matches ↦ matches ]

-- The expansion always ends, so the last case is not met.
unfoldable pub match_curly_brace_pattern : Glob → Bytes → Bytes → Bool
match_curly_brace_pattern glob pattern file_name = elim (expand_curly_braces pattern) [
  | some subs ↦ any (λ p. match_pattern glob p file_name) subs
  | none ↦ false
]

-- `strings.Count(pattern, sep) + 1`
abbrev pub size_of : Bytes → ℕ
size_of pattern = length (split_on slash pattern)

-- `strings.Join(partsToMatch[j:j+patternSize], sep)`
abbrev pub slice : List Bytes → ℕ → ℕ → Bytes
slice parts j size = join slash (take size (drop j parts))

-- `accepts` is `matchCurlyBracePattern`.
module _ (accepts : Bytes → Bytes → Bool) (parts : List Bytes) where
  -- The inner loop from `j` on: the new cursor, or `none` where it returns false. `rounds` is
  -- `len(partsToMatch) - j`.
  unfoldable pub scan_parts : Bytes → ℕ → ℕ → Option ℕ
  scan_parts pattern j zero = some j
  scan_parts pattern j (suc rounds) =
      let next = scan_parts pattern (j + 1) rounds in
      let size = size_of pattern in
      if ltb (length parts) (j + size)
      then none
      else if accepts pattern (slice parts j size)
      then some (j + size - 1)
      else if ltb (length parts) (j + size + 1)
      then none
      else next

  -- The outer loop, from a cursor.
  unfoldable pub match_from_cursor : ℕ → List Bytes → Bool
  match_from_cursor cursor [] = true
  match_from_cursor cursor (pattern ∷ []) =
      let size = size_of pattern in
      if ltb (length parts) size
      then false
      else elim (scan_parts pattern (length parts - size) size) [ none ↦ false | some _ ↦ true ]
  match_from_cursor cursor (pattern ∷ q ∷ patterns) =
      elim (scan_parts pattern cursor (length parts - cursor)) [
        | none ↦ false
        | some cursor' ↦ match_from_cursor cursor' (q ∷ patterns)
      ]

unfoldable pub match_patterns : Glob → List Bytes → Bytes → Bool
match_patterns glob parsed_values file_name =
    match_from_cursor (match_curly_brace_pattern glob) (split_on slash file_name) 0 parsed_values
