-- ===== src/Watcher/Parse.antt =====
-- internal/watcher/pattern.go, `parse`, for a system without volume names. `fast_abs` and
-- `eval_symlinks` ask the operating system; `none` is their error.
use frankenphp.Base.{
  Bool, ◌&&◌, ◌||◌, List, [], ◌∷◌, ◌++◌, ◌==◌, if◌then◌else◌, Option, none, some, map, any,
}
use frankenphp.Text.{
  Bytes, slash, split_on, join, is_empty, contains_byte, cons_head, trim_left, trim_right,
}
use frankenphp.Text.Clean.{clean}

pub record Pattern : Type 0 where
  pub value : Bytes
  pub parsed_values : List Bytes

-- `filepath.Join` of any number of elements: empty ones in front are left out.
unfoldable pub join_all : List Bytes → Bytes
join_all [] = []
join_all (e ∷ es) =
    let rest = join_all es in if is_empty e then rest else clean (join slash (e ∷ es))

-- `strings.Split(s, "**")`
unfoldable pub split_stars : Bytes → List Bytes
split_stars [] = [] ∷ []
split_stars (c ∷ []) = (c ∷ []) ∷ []
split_stars (c ∷ d ∷ s) =
    let cut_here = [] ∷ split_stars s in
    let go_on = cons_head c (split_stars (d ∷ s)) in
    if c == b'*' && d == b'*' then cut_here else go_on

-- `strings.Trim(s, sep)`
abbrev pub trim : Bytes → Bytes
trim s = trim_right (λ c. c == slash) (trim_left (λ c. c == slash) s)

abbrev pub is_glob : Bytes → Bool
is_glob part = any (λ c. c == b'[' || c == b'*' || c == b'?' || c == b'{') part

-- The loop over the parts: where the directory ends, the parts before and those from there on.
unfoldable pub split_dir : List Bytes → List Bytes → Option (List Bytes × List Bytes)
split_dir dirs [] = none
split_dir dirs (part ∷ []) =
    if contains_byte b'.' part || is_glob part then some (dirs, part ∷ []) else none
split_dir dirs (part ∷ next ∷ parts) =
    let rest = split_dir (dirs ++ part ∷ []) (next ∷ parts) in
    if is_glob part then some (dirs, part ∷ next ∷ parts) else rest

unfoldable pub parse_value : Bytes → Pattern
parse_value value = elim (split_dir [] (split_on slash value)) [
  | none ↦ record { value = slash ∷ trim value; parsed_values = map trim (split_stars []) }
  | some (dirs, rest) ↦ record {
    value = slash ∷ trim (join_all dirs);
    parsed_values = map trim (split_stars (join_all rest));
  }
]

unfoldable pub parse : (Bytes → Option Bytes) → (Bytes → Option Bytes) → Bytes → Option Pattern
parse fast_abs eval_symlinks value = elim (fast_abs value) [
  | none ↦ none
  | some abs_pattern ↦
      let p = parse_value abs_pattern in
      elim (eval_symlinks p.value) [
        | none ↦ some p
        | some canonical ↦ some (record p { value = canonical })
      ]
]
