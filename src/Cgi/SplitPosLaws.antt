-- ===== src/Cgi/SplitPosLaws.antt =====
-- cgi.go, `splitPos`: exactly the positions that a split names, the leftmost first.
use frankenphp.Base.{
  ℕ, ◌≤◌, ◌<◌, ◌≡◌, refl, sym, ◌∙◌, List, [], ◌∷◌, ◌++◌, none, some, length, arith, inl, inr,
  Option-cases, length-append, ◌≢◌, ◌⊎◌,
}
use mathlib.Core.List.{Memᴰ}
use mathlib.Core.Path.{subst}
use frankenphp.Text.{Bytes}
use frankenphp.Cgi.SplitPos.{scan, first_split, split_pos}
use frankenphp.Cgi.SplitPosScan.{EndsName, Folds-length, scan_sound, scan_found}

-- A position that `splitPos` returns for some split, by the first loop that finds one.
pub record Found (path : Bytes) (splits : List Bytes) (pos : ℕ) : Type 0 where
  pub split : Bytes
  pub listed : Memᴰ split splits
  pub not_empty : 0 < length split
  pub ends : EndsName split path pos

module _ (path split : Bytes) (splits : List Bytes) where
  first_split_step :
      ((0 < length split) × (first_split path (split ∷ splits) ≡ scan split 0 path))
      ⊎ (first_split path (split ∷ splits) ≡ first_split path splits)
  unfolding first_split
  first_split_step = ground arith

  first_split_hit :
      {pos : ℕ}
      → 0 < length split
      → length split ≤ length path
      → scan split 0 path ≡ some pos
      → first_split path (split ∷ splits) ≡ some pos
  unfolding first_split
  first_split_hit l k h = ground arith

  -- One split more never loses a position.
  first_split_more :
      {pos : ℕ}
      → first_split path splits ≡ some pos
      → (q : ℕ) × (first_split path (split ∷ splits) ≡ some q)
  unfolding first_split
  first_split_more h = elim (Option-cases (first_split path (split ∷ splits))) [
    | inl e ↦ absurd (ground arith)
    | inr (q, e) ↦ (q, e)
  ]

first_split_sound :
    (path : Bytes) (splits : List Bytes) (pos : ℕ)
    → first_split path splits ≡ some pos
    → Found path splits pos
first_split_sound path [] pos h = absurd (unfold first_split in ground arith)
first_split_sound path (split ∷ splits) pos h = elim (first_split_step path split splits) [
  | inl (l, e) ↦ record {
    split = split;
    listed = Memᴰ.head refl;
    not_empty = l;
    ends = scan_sound split path [] path 0 pos refl refl (sym e ∙ h);
  }
  | inr e ↦
      let f = first_split_sound path splits pos (sym e ∙ h) in
      record {
        split = f.split;
        listed = Memᴰ.tail f.listed;
        not_empty = f.not_empty;
        ends = f.ends;
      }
]

EndsName-scan :
    (split path : Bytes) (pos : ℕ)
    → 0 < length split
    → EndsName split path pos
    → (q : ℕ) × (scan split 0 path ≡ some q) × (q ≤ pos) × (length split ≤ length path)
EndsName-scan split path pos l f =
    let (q, e, le) = scan_found split f.before f.name f.after 0 f.folds f.boundary l in
    (
      q,
      rw f.parts e,
      omega (arith, f.position),
      rw f.parts (
          omega (
            arith,
            Folds-length f.folds,
            length-append {0} f.before (f.name ++ f.after),
            length-append {0} f.name f.after,
          )),
    )

first_split_found :
    (path split : Bytes) (pos : ℕ) {splits : List Bytes}
    → Memᴰ split splits
    → 0 < length split
    → EndsName split path pos
    → (q : ℕ) × (first_split path splits ≡ some q)
first_split_found path split pos (Memᴰ.head {xs = rest} e) l f =
    let (q, k, _, fits) = EndsName-scan split path pos l f in
    (
      q,
      subst (λ t. first_split path (t ∷ rest) ≡ some q) e
          (first_split_hit path split rest l fits k),
    )
first_split_found path split pos (Memᴰ.tail {x = x} {xs = rest} m) l f =
    first_split_more path x rest (first_split_found path split pos m l f).1

-- `splitPos`, given a split, returns only positions right behind a name that is one of the splits up
-- to the case of ASCII letters, is all ASCII, and ends the path or has a slash behind it.
pub split_pos_sound :
    (path : Bytes) (splits : List Bytes) (pos : ℕ)
    → splits ≢ []
    → split_pos path splits ≡ some pos
    → Found path splits pos
unfolding split_pos
split_pos_sound path [] pos n h = absurd (n refl)
split_pos_sound path (s ∷ ss) pos n h = first_split_sound path (s ∷ ss) pos h

-- `splitPos` returns -1 only where no split names a position.
pub split_pos_complete :
    (path : Bytes) (splits : List Bytes) (pos : ℕ)
    → Found path splits pos
    → split_pos path splits ≢ none
unfolding split_pos
split_pos_complete path [] pos f = elim f.listed [ ]
split_pos_complete path (s ∷ ss) pos f =
    let (q, e) = first_split_found path f.split pos f.listed f.not_empty f.ends in ground arith

-- With one split, not empty, `splitPos` returns the leftmost position that it names.
pub split_pos_leftmost :
    (path split : Bytes) (pos q : ℕ)
    → 0 < length split
    → split_pos path (split ∷ []) ≡ some pos
    → EndsName split path q
    → pos ≤ q
unfolding split_pos
split_pos_leftmost path split pos q l h f =
    let (r, k, le, fits) = EndsName-scan split path q l f in
    let hit = first_split_hit path split [] l fits k in ground arith
