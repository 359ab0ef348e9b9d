-- ===== src/Watcher/Examples.antt =====
-- internal/watcher/pattern.go: the theorems at concrete patterns. `literal` is a matcher without
-- wildcards.
use frankenphp.Base.{◌≡◌, ◌↔◌, true, some, [], ◌∷◌, codes}
use frankenphp.Text.{slash, split_on, same}
use frankenphp.Watcher.Match.{Glob, match_patterns, match_curly_brace_pattern}
use frankenphp.Watcher.MatchLaws.{Chain, match_patterns_iff}

abbrev literal : Glob
literal pattern name = some (same pattern name)

match_patterns_iff_example :
    (match_patterns literal (codes "a" ∷ codes "c" ∷ []) (codes "a/b/c") ≡ true)
    ↔ Chain
        (match_curly_brace_pattern literal)
        (split_on slash (codes "a/b/c"))
        0
        (codes "a" ∷ codes "c" ∷ [])
match_patterns_iff_example = match_patterns_iff literal (codes "a" ∷ codes "c" ∷ []) (codes "a/b/c")
