-- ===== src/Watcher/MatchLaws.antt =====
-- internal/watcher/pattern.go, `matchPatterns`: the moving cursor loses no match.
use frankenphp.Base.{
  ℕ, zero, suc, ◌+◌, ◌-◌, ◌≤◌, ◌<◌, ◌≡◌, refl, Bool, true, List, [], ◌∷◌, ◌==◌, ltb, some, length,
  arith, ◌↔◌, inl, inr, Option-cases, Bool-cases,
}
use frankenphp.Text.{Bytes, slash, split_on}
use frankenphp.Text.Split.{split_on-ne-nil}
use frankenphp.Watcher.Match.{
  Glob, size_of, slice, scan_parts, match_from_cursor, match_patterns, match_curly_brace_pattern,
}

parts_pos : (sep : ℕ) (s : Bytes) → 0 < length (split_on sep s)
parts_pos sep s = go (split_on sep s) (split_on-ne-nil sep s)
  where
    go : (ss : List Bytes) → (ss ≡ [] → ⊥) → 0 < length ss
    go [] h = absurd (h refl)
    go (s ∷ ss) h = omega arith

size_of-pos : (p : Bytes) → 0 < size_of p
size_of-pos p = parts_pos slash p

module _ (accepts : Bytes → Bytes → Bool) (parts : List Bytes) where
  -- The sub-patterns between the `**` match runs of parts in order, each no earlier than the last
  -- part of the one before; the last of them matches the end, and is not held to that order.
  pub data Chain : ℕ → List Bytes → Type 0 where
    none_left : {c : ℕ} → Chain c []
    last :
        {c : ℕ} {p : Bytes}
        → size_of p ≤ length parts
        → accepts p (slice parts (length parts - size_of p) (size_of p)) ≡ true
        → Chain c (p ∷ [])
    more :
        {c : ℕ} {p q : Bytes} {ps : List Bytes} (j : ℕ)
        → c ≤ j
        → j + size_of p ≤ length parts
        → accepts p (slice parts j (size_of p)) ≡ true
        → Chain (j + size_of p - 1) (q ∷ ps)
        → Chain c (p ∷ q ∷ ps)

  -- Where the inner loop ends with a cursor it has found a match there, at its first chance.
  scan_parts_sound :
      (p : Bytes) (j rounds : ℕ) {cursor : ℕ}
      → rounds ≡ length parts - j
      → j < length parts
      → scan_parts accepts parts p j rounds ≡ some cursor
      → (k : ℕ) × (j ≤ k)
        × (k + size_of p ≤ length parts)
        × (accepts p (slice parts k (size_of p)) ≡ true)
        × (cursor ≡ k + size_of p - 1)
  unfolding scan_parts
  scan_parts_sound p j zero e l h = absurd (omega arith)
  scan_parts_sound p j (suc rounds) e l h = elim (Bool-cases (ltb (length parts) (j + size_of p))) [
    | inl t ↦ absurd (ground arith)
    | inr t ↦ elim (Bool-cases (accepts p (slice parts j (size_of p)))) [
      | inl a ↦ (j, omega arith, ground arith, a, ground arith)
      | inr a ↦ elim (Bool-cases (ltb (length parts) (j + size_of p + 1))) [
        | inl u ↦ absurd (ground arith)
        | inr u ↦
            let (k, le, fits, m, c) =
              scan_parts_sound p (j + 1) rounds (omega arith) (ground (arith, size_of-pos p))
                (ground arith) in
            (k, omega arith, fits, m, c)
      ]
    ]
  ]

  scan_parts_found :
      (p : Bytes) (j rounds k : ℕ)
      → rounds ≡ length parts - j
      → j ≤ k
      → k + size_of p ≤ length parts
      → accepts p (slice parts k (size_of p)) ≡ true
      → (cursor : ℕ) × (scan_parts accepts parts p j rounds ≡ some cursor)
        × (cursor ≤ k + size_of p - 1)
  unfolding scan_parts
  scan_parts_found p j zero k e le fits m = absurd (omega (arith, size_of-pos p))
  scan_parts_found p j (suc rounds) k e le fits m =
      elim (Bool-cases (accepts p (slice parts j (size_of p)))) [
        | inl a ↦ (j + size_of p - 1, ground arith, omega arith)
        | inr a ↦ elim (Bool-cases (j == k)) [
          | inl q ↦ absurd (let s : j ≡ k = ground arith in ground (arith, rw s at a))
          | inr q ↦
              let (cursor, h, b) =
                scan_parts_found p (j + 1) rounds k (omega arith) (ground arith) fits m in
              (cursor, ground arith, b)
        ]
      ]

  Chain-earlier : {c c' : ℕ} {ps : List Bytes} → c' ≤ c → Chain c ps → Chain c' ps
  Chain-earlier h none_left = none_left
  Chain-earlier h (last fits m) = last fits m
  Chain-earlier h (more j le fits m rest) = more j (omega arith) fits m rest

  match_from_cursor-Chain :
      (c : ℕ) (ps : List Bytes)
      → c < length parts
      → match_from_cursor accepts parts c ps ≡ true
      → Chain c ps
  unfolding match_from_cursor
  match_from_cursor-Chain c [] l h = none_left
  match_from_cursor-Chain c (p ∷ []) l h = elim (Bool-cases (ltb (length parts) (size_of p))) [
    | inl t ↦ absurd (ground arith)
    | inr t ↦
        elim (Option-cases (scan_parts accepts parts p (length parts - size_of p) (size_of p))) [
          | inl e ↦ absurd (ground arith)
          | inr (cursor, e) ↦
              let (k, le, fits, m, _) =
                scan_parts_sound p (length parts - size_of p) (size_of p) (ground arith)
                  (ground (arith, size_of-pos p)) e in
              let s : k ≡ length parts - size_of p = omega arith in last (ground arith) (rw s at m)
        ]
  ]
  match_from_cursor-Chain c (p ∷ q ∷ ps) l h =
      elim (Option-cases (scan_parts accepts parts p c (length parts - c))) [
        | inl e ↦ absurd (ground arith)
        | inr (cursor, e) ↦
            let (k, le, fits, m, s) = scan_parts_sound p c (length parts - c) refl l e in
            more k le fits m (
              rw s at (
                match_from_cursor-Chain cursor (q ∷ ps) (omega (arith, size_of-pos p))
                  (ground arith)))
      ]

  Chain-match_from_cursor :
      (c : ℕ) (ps : List Bytes)
      → c < length parts
      → Chain c ps
      → match_from_cursor accepts parts c ps ≡ true
  unfolding match_from_cursor
  Chain-match_from_cursor c [] l none_left = refl
  Chain-match_from_cursor c (p ∷ []) l (last fits m) =
      let (cursor, e, b) =
        scan_parts_found p (length parts - size_of p) (size_of p) (length parts - size_of p)
          (omega arith) (omega arith) (omega arith) m in
      ground arith
  Chain-match_from_cursor c (p ∷ q ∷ ps) l (more j le fits m rest) =
      let (cursor, e, b) = scan_parts_found p c (length parts - c) j refl le fits m in
      rw (e, match_from_cursor)
        (Chain-match_from_cursor cursor (q ∷ ps) (omega (arith, size_of-pos p))
          (Chain-earlier b rest))

-- The search with one moving cursor accepts a file name exactly where every sub-pattern between the
-- `**` but the last one matches a run of its parts, none of them earlier than the last part of the
-- one before, and the last one matches the parts at the end, wherever the others stand: it may lie
-- over the parts of the one before.
pub match_patterns_iff :
    (glob : Glob) (parsed_values : List Bytes) (file_name : Bytes)
    → (match_patterns glob parsed_values file_name ≡ true)
      ↔ Chain (match_curly_brace_pattern glob) (split_on slash file_name) 0 parsed_values
unfolding match_patterns
match_patterns_iff glob ps f = (
  match_from_cursor-Chain _ (split_on slash f) 0 ps (parts_pos slash f),
  Chain-match_from_cursor _ (split_on slash f) 0 ps (parts_pos slash f),
)
