-- ===== src/Cgi/DotSegments.antt =====
-- cgi.go, `cleanRequestPath`: no dot segment is left behind a separator.
use frankenphp.Base.{
  ℕ, ◌≡◌, refl, Bool, true, false, not, ◌&&◌, List, [], ◌∷◌, ◌++◌, ◌==◌, if◌then◌else◌, inl, inr,
  Bool-cases, All, arith, ◌≢◌,
}
use mathlib.Core.List.{tail}
use frankenphp.Text.{
  Bytes, slash, split_on, join, same, contains_sub, has_prefix, cons_head, has_suffix,
}
use frankenphp.Text.Split.{split_on-join, split_on-append, split_on-ne-nil}
use frankenphp.Text.Clean.{
  dot, dot_dot, is_rooted, elements, render, clean, IsProper, elements-rooted, All-no_slash,
  All-append,
}
use frankenphp.Cgi.RequestPath.{clean_rooted, clean_request_path}

-- A segment that is neither "." nor "..".
abbrev pub IsPlain : Bytes → Type 0
IsPlain seg = (same seg dot ≡ false) × (same seg dot_dot ≡ false)

tail-cons_head : (c : ℕ) (ss : List Bytes) → ss ≢ [] → tail (cons_head c ss) ≡ tail ss
tail-cons_head c [] h = absurd (h refl)
tail-cons_head c (s ∷ ss) h = refl

IsPlain-cons_head :
    (c : ℕ) (ss : List Bytes)
    → (c == b'.') ≡ false
    → All IsPlain (tail ss)
    → All IsPlain (cons_head c ss)
IsPlain-cons_head c [] h hs = (ground arith, tt)
IsPlain-cons_head c (s ∷ ss) h hs = (ground arith, hs)

IsPlain-segments :
    (s : Bytes)
    → has_prefix s dot ≡ false
    → All IsPlain (tail (split_on slash s))
    → All IsPlain (split_on slash s)
unfolding split_on
IsPlain-segments [] h hs = ((refl, refl), tt)
IsPlain-segments (d ∷ s) h hs = elim (Bool-cases (d == slash)) [
  | inl e ↦ rw e ((refl, refl), rw e at hs)
  | inr e ↦ rw e (
      IsPlain-cons_head d (split_on slash s) (ground arith)
        (rw (tail-cons_head d (split_on slash s) (split_on-ne-nil slash s)) at (rw e at hs)))
]

no_dot_segment :
    (s : Bytes) → contains_sub s (slash ∷ dot) ≡ false → All IsPlain (tail (split_on slash s))
unfolding split_on contains_sub
no_dot_segment [] h = tt
no_dot_segment (c ∷ s) h = elim (Bool-cases (c == slash)) [
  | inl e ↦ rw e (IsPlain-segments s (ground arith) (no_dot_segment s (ground arith)))
  | inr e ↦ rw e (
      rw (tail-cons_head c (split_on slash s) (split_on-ne-nil slash s))
        (no_dot_segment s (ground arith)))
]

IsPlain-proper : (es : List Bytes) → All IsProper es → All IsPlain es
IsPlain-proper [] h = tt
IsPlain-proper (e ∷ es) (h, hs) = ((h.not_dot, h.not_dot_dot), IsPlain-proper es hs)

cleaned_segments :
    (q : Bytes)
    → is_rooted q ≡ true
    → (es : List Bytes) × All IsProper es × (clean q ≡ slash ∷ join slash es)
unfolding clean render
cleaned_segments q h = (elements q, elements-rooted q h, rw h)

-- A rooted path with proper elements has plain segments, with a slash at its end or without.
IsPlain-joined : (es : List Bytes) → All IsProper es → All IsPlain (split_on slash (join slash es))
IsPlain-joined [] h = unfold split_on join in ((refl, refl), tt)
IsPlain-joined (e ∷ es) h =
    rw (split_on-join slash e es (All-no_slash (e ∷ es) h)) (IsPlain-proper (e ∷ es) h)

IsPlain-joined_slash :
    (es : List Bytes) → All IsProper es → All IsPlain (split_on slash (join slash es ++ slash ∷ []))
IsPlain-joined_slash es h =
    rw (split_on-append slash (join slash es) [])
      (All-append IsPlain _ _ (IsPlain-joined es h) (unfold split_on in ((refl, refl), tt)))

tail-split_on : (s : Bytes) → tail (split_on slash (slash ∷ s)) ≡ split_on slash s
unfolding split_on
tail-split_on s = refl

clean_rooted-IsPlain : (q : Bytes) → All IsPlain (tail (split_on slash (clean_rooted q)))
unfolding clean_rooted
clean_rooted-IsPlain q =
    let (es, proper, e) = cleaned_segments (slash ∷ q) refl in
    elim (Bool-cases (not (same (clean (slash ∷ q)) (slash ∷ [])) && has_suffix q (slash ∷ []))) [
      | inl h ↦
          rw h (
            rw e
              (rw (tail-split_on (join slash es ++ slash ∷ [])) (IsPlain-joined_slash es proper)))
      | inr h ↦ rw h (rw e (rw (tail-split_on (join slash es)) (IsPlain-joined es proper)))
    ]

-- The choice that the test for a dot segment makes.
IsPlain-either :
    (p q : Bytes)
    → All IsPlain
        (tail (split_on slash (if not (contains_sub p (slash ∷ dot)) then p else clean_rooted q)))
IsPlain-either p q = elim (Bool-cases (contains_sub p (slash ∷ dot))) [
  | inl h ↦ rw h (clean_rooted-IsPlain q)
  | inr h ↦ rw h (no_dot_segment p h)
]

-- In what `cleanRequestPath` returns no segment behind a slash is "." or "..", on Windows and
-- elsewhere, whether the path had to be cleaned or not.
pub clean_request_path-IsPlain :
    (req_path : Bytes) (windows : Bool)
    → All IsPlain (tail (split_on slash (clean_request_path req_path windows)))
unfolding clean_request_path
clean_request_path-IsPlain req_path windows = IsPlain-either _ _
