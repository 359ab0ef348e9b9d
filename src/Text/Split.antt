-- ===== src/Text/Split.antt =====
-- Splitting at a separator and joining again.
use frankenphp.Base.{
  ℕ, ◌≡◌, refl, ◌∙◌, false, List, [], ◌∷◌, ◌++◌, ◌==◌, inl, inr, Bool-cases, All, arith, ==_iff,
  ◌≢◌,
}
use frankenphp.Text.Defs.{Bytes, contains_byte, cons_head, split_on, join}

cons_head-append :
    (c : ℕ) (xs ys : List Bytes) → xs ≢ [] → cons_head c (xs ++ ys) ≡ cons_head c xs ++ ys
cons_head-append c [] ys h = absurd (h refl)
cons_head-append c (x ∷ xs) ys h = refl

pub split_on-ne-nil : (sep : ℕ) (s : Bytes) → split_on sep s ≢ []
unfolding split_on
split_on-ne-nil sep [] = ground arith
split_on-ne-nil sep (c ∷ s) = ground (arith, split_on-ne-nil sep s)

-- A separator between two texts separates their pieces.
pub split_on-append :
    (sep : ℕ) (s t : Bytes) → split_on sep (s ++ sep ∷ t) ≡ split_on sep s ++ split_on sep t
unfolding split_on
split_on-append sep [] t = rw ((==_iff sep sep).1 refl)
split_on-append sep (c ∷ s) t = elim (Bool-cases (c == sep)) [
  | inl h ↦ rw h (rw (split_on-append sep s t))
  | inr h ↦ rw h (
      rw (split_on-append sep s t)
        (cons_head-append c (split_on sep s) (split_on sep t) (split_on-ne-nil sep s)))
]

pub split_on-free : (sep : ℕ) (s : Bytes) → contains_byte sep s ≡ false → split_on sep s ≡ s ∷ []
unfolding split_on
split_on-free sep [] h = refl
split_on-free sep (c ∷ s) h = ground (arith, split_on-free sep s)

-- Splitting undoes joining, where no piece holds the separator.
pub split_on-join :
    (sep : ℕ) (s : Bytes) (ss : List Bytes)
    → All (λ t. contains_byte sep t ≡ false) (s ∷ ss)
    → split_on sep (join sep (s ∷ ss)) ≡ s ∷ ss
unfolding join
split_on-join sep s [] (h, _) = split_on-free sep s h
split_on-join sep s (t ∷ ss) (h, hs) =
    split_on-append sep s (join sep (t ∷ ss))
    ∙ rw (split_on-free sep s h) (rw (split_on-join sep t ss hs))

cons_head-no_sep :
    (sep c : ℕ) (ss : List Bytes)
    → (c == sep) ≡ false
    → All (λ t. contains_byte sep t ≡ false) ss
    → All (λ t. contains_byte sep t ≡ false) (cons_head c ss)
cons_head-no_sep sep c [] h hs = (rw h, tt)
cons_head-no_sep sep c (s ∷ ss) h (hs, hss) = (rw h hs, hss)

-- No piece holds the separator.
pub split_on-no_sep :
    (sep : ℕ) (s : Bytes) → All (λ t. contains_byte sep t ≡ false) (split_on sep s)
unfolding split_on
split_on-no_sep sep [] = (refl, tt)
split_on-no_sep sep (c ∷ s) = elim (Bool-cases (c == sep)) [
  | inl h ↦ rw h (refl, split_on-no_sep sep s)
  | inr h ↦ rw h (cons_head-no_sep sep c (split_on sep s) h (split_on-no_sep sep s))
]
