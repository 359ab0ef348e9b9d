-- ===== src/Sapi/Header.antt =====
-- frankenphp.go, `splitRawHeader`.
use frankenphp.Base.{
  zero, suc, ℕ, ◌≡◌, refl, ap, ◌∙◌, Bool, true, false, [], ◌∷◌, ◌++◌, ◌==◌, Option, none, some,
  arith, Bool-cases, Option-cases, inl, inr, not,
}
use mathlib.Core.Path.{subst}
use frankenphp.Text.{Bytes, cut, contains_byte, trim_left}

abbrev pub space : ℕ
space = 32

abbrev pub colon : ℕ
colon = 58

-- `none` is the pair of empty texts of a header without a colon.
unfoldable pub split_raw_header : Bytes → Option (Bytes × Bytes)
unfolding cut
split_raw_header raw = elim (cut colon raw) [
  | none ↦ none
  | some (key, rest) ↦ some (key, trim_left (λ c. c == space) rest)
]

cut_lem :
    (sep : ℕ) (s : Bytes) {before after : Bytes}
    → cut sep s ≡ some (before, after)
    → (s ≡ before ++ sep ∷ after) × (contains_byte sep before ≡ false)
unfolding cut
cut_lem sep [] h = cc
cut_lem sep (c ∷ s) h = elim (Bool-cases (c == sep)) [
  | inl e ↦ ground (arith, e, h)
  | inr e ↦ elim (Option-cases (cut sep s)) [
    | inl k ↦ absurd (ground (arith, e, k, h))
    | inr ((b, a), k) ↦ ground (arith, e, k, h, cut_lem sep s k)
  ]
]

cut_at :
    (sep : ℕ) (before after : Bytes)
    → contains_byte sep before ≡ false
    → cut sep (before ++ sep ∷ after) ≡ some (before, after)
unfolding cut
cut_at sep [] after h = ground arith
cut_at sep (c ∷ before) after h = ground (arith, h, cut_at sep before after)

abbrev pub spaces : ℕ → Bytes
spaces zero = []
spaces (suc n) = space ∷ spaces n

-- Empty, or begins with something else than a space.
abbrev pub starts_plain : Bytes → Bool
starts_plain [] = true
starts_plain (c ∷ s) = not (c == space)

trim_lem :
    (s : Bytes)
    → (n : ℕ) × (s ≡ spaces n ++ trim_left (λ c. c == space) s)
      × (starts_plain (trim_left (λ c. c == space) s) ≡ true)
trim_lem [] = (0, refl, refl)
trim_lem (c ∷ s) = elim (Bool-cases (c == space)) [
  | inl e ↦ let (n, k, l) = trim_lem s in (suc n, ground (arith, e, k), ground (arith, e, l))
  | inr e ↦ (0, ground (arith, e), ground (arith, e))
]

-- A header that is split is its key, without a colon, a colon, spaces, and its value, which does not
-- begin with a space.
pub split_raw_header_lem :
    (raw key value : Bytes)
    → split_raw_header raw ≡ some (key, value)
    → (n : ℕ) × (raw ≡ key ++ colon ∷ (spaces n ++ value))
      × (contains_byte colon key ≡ false)
      × (starts_plain value ≡ true)
unfolding split_raw_header
split_raw_header_lem raw key value h = elim (Option-cases (cut colon raw)) [
  | inl e ↦ absurd (ground (arith, e, h))
  | inr ((k, rest), e) ↦
      let (whole, none_in) = cut_lem colon raw e in
      let (n, trimmed, plain) = trim_lem rest in
      let same_key : k ≡ key = ground (arith, e, h) in
      let same_value : trim_left (λ c. c == space) rest ≡ value = ground (arith, e, h) in
      (
        n,
        whole
            ∙ ap (λ t. t ++ colon ∷ rest) same_key
            ∙ ap (λ t. key ++ colon ∷ t) (trimmed ∙ ap (λ t. spaces n ++ t) same_value),
        subst (λ t. contains_byte colon t ≡ false) same_key none_in,
        subst (λ t. starts_plain t ≡ true) same_value plain,
      )
]

trim_plain : (s : Bytes) → starts_plain s ≡ true → trim_left (λ c. c == space) s ≡ s
trim_plain [] h = refl
trim_plain (c ∷ s) h = ground (arith, h)

-- A header printed as "Key: value" is split into the two again.
pub split_raw_header-print :
    (key value : Bytes)
    → contains_byte colon key ≡ false
    → starts_plain value ≡ true
    → split_raw_header (key ++ colon ∷ space ∷ value) ≡ some (key, value)
unfolding split_raw_header
split_raw_header-print key value h p =
    ground (arith, cut_at colon key (space ∷ value) h, trim_plain value p)
