-- ===== src/Cgi/SplitPosScan.antt =====
-- cgi.go, `splitPos`: what the loops over one split find.
use frankenphp.Base.{
  ℕ, suc, ◌+◌, ◌≤◌, ◌<◌, ◌≡◌, refl, sym, ap, ◌∙◌, true, [], ◌∷◌, ◌++◌, Option, none, some, length,
  drop, arith, inl, inr, length-append, ◌⊎◌,
}
use mathlib.Core.List.{append_assoc}
use frankenphp.Text.{Bytes}
use frankenphp.Cgi.SplitPos.{lower, match_from, at_boundary, scan}

-- `name` is `split` up to the case of ASCII letters, and is ASCII.
pub data Folds : Bytes → Bytes → Type 0 where
  nothing : Folds [] []
  byte :
      {c s : ℕ} {name split : Bytes}
      → c < 128
      → lower c ≡ s
      → Folds name split
      → Folds (c ∷ name) (s ∷ split)

-- The path ends in `name`, or has a slash behind it, at `pos`.
pub record EndsName (split path : Bytes) (pos : ℕ) : Type 0 where
  pub before : Bytes
  pub name : Bytes
  pub after : Bytes
  pub parts : path ≡ before ++ (name ++ after)
  pub folds : Folds name split
  pub boundary : at_boundary after ≡ true
  pub position : pos ≡ length before + length name

pub Folds-length : {name split : Bytes} → Folds name split → length name ≡ length split
Folds-length nothing = refl
Folds-length (byte h e f) = ap suc (Folds-length f)

pub match_from-Folds :
    (split p : Bytes)
    → match_from split p ≡ true
    → (name : Bytes) × Folds name split × (p ≡ name ++ drop (length split) p)
unfolding match_from
match_from-Folds [] p h = ([], nothing, refl)
match_from-Folds (s ∷ ss) [] h = absurd (ground arith)
match_from-Folds (s ∷ ss) (c ∷ p) h =
    let (name, f, e) = match_from-Folds ss p (ground arith) in
    (c ∷ name, byte (ground arith) (ground arith) f, ap (λ t. c ∷ t) e)

pub Folds-match_from :
    {name split : Bytes} (after : Bytes)
    → Folds name split
    → match_from split (name ++ after) ≡ true
unfolding match_from
Folds-match_from after nothing = refl
Folds-match_from after (byte h e f) = ground (arith, Folds-match_from after f)

pub drop-append : (xs ys : Bytes) (n : ℕ) → n ≡ length xs → drop n (xs ++ ys) ≡ ys
drop-append xs ys n e = rw e (go xs)
  where
    go : (zs : Bytes) → drop (length zs) (zs ++ ys) ≡ ys
    go [] = refl
    go (z ∷ zs) = go zs

pub here_EndsName :
    (split p before : Bytes)
    → match_from split p ≡ true
    → at_boundary (drop (length split) p) ≡ true
    → EndsName split (before ++ p) (length before + length split)
here_EndsName split p before h b =
    let (name, f, e) = match_from-Folds split p h in
    record {
      before = before;
      name = name;
      after = drop (length split) p;
      parts = ap (λ t. before ++ t) e;
      folds = f;
      boundary = b;
      position = omega (arith, Folds-length f);
    }

-- What one round of the loop over `i` does.
module _ (split : Bytes) (i c : ℕ) (r : Bytes) where
  pub scan_step :
      ((match_from split (c ∷ r) ≡ true)
        × (at_boundary (drop (length split) (c ∷ r)) ≡ true)
        × (scan split i (c ∷ r) ≡ some (i + length split)))
      ⊎ ((scan split i (c ∷ r) ≡ scan split (i + 1) r) ⊎ (scan split i (c ∷ r) ≡ none))
  unfolding scan
  scan_step = ground arith

  pub scan_hit :
      match_from split (c ∷ r) ≡ true
      → at_boundary (drop (length split) (c ∷ r)) ≡ true
      → length split ≤ length (c ∷ r)
      → scan split i (c ∷ r) ≡ some (i + length split)
  unfolding scan
  scan_hit h b l = ground arith

  pub scan_on :
      length split ≤ length (c ∷ r)
      → (scan split i (c ∷ r) ≡ some (i + length split))
        ⊎ (scan split i (c ∷ r) ≡ scan split (i + 1) r)
  unfolding scan
  scan_on l = ground arith

pub some_inj {ℓ} : {A : Type ℓ} {a b : A} {o : Option A} → o ≡ some a → o ≡ some b → b ≡ a
some_inj h k = cc

pub scan_sound :
    (split p before path : Bytes) (i pos : ℕ)
    → path ≡ before ++ p
    → i ≡ length before
    → scan split i p ≡ some pos
    → EndsName split path pos
scan_sound split [] before path i pos e k h = absurd (unfold scan in ground arith)
scan_sound split (c ∷ r) before path i pos e k h = elim (scan_step split i c r) [
  | inl (m, b, hit) ↦ rw (some_inj hit h, k, e) (here_EndsName split (c ∷ r) before m b)
  | inr (inl on) ↦
      scan_sound split r (before ++ c ∷ []) path (i + 1) pos
        (e ∙ sym (append_assoc before (c ∷ []) r))
        (omega (arith, length-append {0} before (c ∷ []))) (sym on ∙ h)
  | inr (inr off) ↦ absurd (ground arith)
]

-- A name in the path is found, at its end or before.
pub scan_found :
    (split u name after : Bytes) (i : ℕ)
    → Folds name split
    → at_boundary after ≡ true
    → 0 < length split
    → (pos : ℕ) × (scan split i (u ++ (name ++ after)) ≡ some pos)
      × (pos ≤ i + (length u + length name))
scan_found split [] [] after i f b l = absurd (omega (arith, Folds-length f))
scan_found split [] (c ∷ name) after i f b l = (
  i + length split,
  scan_hit split i c (name ++ after) (Folds-match_from after f)
      (rw (drop-append (c ∷ name) after (length split) (sym (Folds-length f))) b)
      (omega (arith, Folds-length f, length-append {0} (c ∷ name) after)),
  omega (arith, Folds-length f),
)
scan_found split (x ∷ u) name after i f b l =
    let (pos, e, le) = scan_found split u name after (i + 1) f b l in
    elim (scan_on split i x (u ++ (name ++ after)) (
      omega (
        arith,
        Folds-length f,
        length-append {0} u (name ++ after),
        length-append {0} name after,
      ))) [
        | inl hit ↦ (i + length split, hit, omega (arith, Folds-length f))
        | inr on ↦ (pos, on ∙ e, omega arith)
      ]
