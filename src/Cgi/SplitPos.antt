-- ===== src/Cgi/SplitPos.antt =====
-- cgi.go, `splitPos` and `scriptPart`, and requestoptions.go, `normalizeSplitPath`.
use frankenphp.Base.{
  ℕ, ◌+◌, ◌-◌, Bool, true, false, not, ◌&&◌, ◌||◌, List, [], ◌∷◌, ◌==◌, leb, ltb, if◌then◌else◌,
  Option, none, some, length, drop, take,
}
use frankenphp.Text.{Bytes, slash}

-- `utf8.RuneSelf`
abbrev pub rune_self : ℕ
rune_self = 128

-- `c += 'a' - 'A'` where `'A' <= c && c <= 'Z'`: the sum stays a byte.
abbrev pub lower : ℕ → ℕ
lower c = if leb b'A' c && leb c b'Z' then c + (b'a' - b'A') else c

-- The loop over `j`: the split against the bytes of the path from `i` on.
unfoldable pub match_from : Bytes → Bytes → Bool
match_from [] p = true
match_from (s ∷ ss) [] = false
match_from (s ∷ ss) (c ∷ p) =
    let rest = match_from ss p in
    if leb rune_self c then false else if not (lower c == s) then false else rest

-- `pos == pathLen || path[pos] == '/'`
unfoldable pub at_boundary : Bytes → Bool
at_boundary [] = true
at_boundary (c ∷ _) = c == slash

-- The loop over `i`: the third argument is `path[i:]`, and the split is not empty.
unfoldable pub scan : Bytes → ℕ → Bytes → Option ℕ
scan split i [] = none
scan split i (c ∷ r) =
    let next = scan split (i + 1) r in
    if ltb (length (c ∷ r)) (length split)
    then none
    else if match_from split (c ∷ r)
    then (if at_boundary (drop (length split) (c ∷ r)) then some (i + length split) else next)
    else next

-- The loop over the splits; `none` is -1.
unfoldable pub first_split : Bytes → List Bytes → Option ℕ
first_split path [] = none
first_split path (split ∷ splits) =
    let rest = first_split path splits in
    if length split == 0 || ltb (length path) (length split)
    then rest
    else elim (scan split 0 path) [ some pos ↦ some pos | none ↦ rest ]

unfoldable pub split_pos : Bytes → List Bytes → Option ℕ
split_pos path [] = some 0
split_pos path (split ∷ splits) = first_split path (split ∷ splits)

unfoldable pub script_part : Bytes → List Bytes → Bytes
script_part path splits = elim (split_pos path splits) [ some pos ↦ take pos path | none ↦ path ]

-- One split of `normalizeSplitPath`; `none` is ErrInvalidSplitPath.
unfoldable pub normalize_split : Bytes → Option Bytes
normalize_split [] = some []
normalize_split (c ∷ s) =
    let rest = normalize_split s in
    if leb rune_self c then none else elim rest [ none ↦ none | some t ↦ some (lower c ∷ t) ]

unfoldable pub normalize_split_path : List Bytes → Option (List Bytes)
normalize_split_path [] = some []
normalize_split_path (s ∷ ss) =
    let rest = normalize_split_path ss in
    elim (normalize_split s) [
      | none ↦ none
      | some t ↦ elim rest [ none ↦ none | some ts ↦ some (t ∷ ts) ]
    ]
