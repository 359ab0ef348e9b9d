-- ===== src/Cgi/SplitPosCase.antt =====
-- cgi.go, `splitPos`: the case of the letters of the path.
use frankenphp.Base.{ℕ, zero, suc, ◌+◌, ◌≡◌, refl, ap, List, [], ◌∷◌, length, drop, arith, map}
use frankenphp.Text.{Bytes}
use frankenphp.Cgi.SplitPos.{lower, match_from, at_boundary, scan, first_split, split_pos}

-- Folding the ASCII letters of the path changes no position.
lower-lower : (c : ℕ) → lower (lower c) ≡ lower c
lower-lower c = ground arith

match_from-lower : (split p : Bytes) → match_from split (map lower p) ≡ match_from split p
unfolding match_from
match_from-lower [] p = refl
match_from-lower (s ∷ ss) [] = refl
match_from-lower (s ∷ ss) (c ∷ p) = ground (arith, match_from-lower ss p, lower-lower c)

length-lower : (p : Bytes) → length (map lower p) ≡ length p
length-lower [] = refl
length-lower (c ∷ p) = ap suc (length-lower p)

drop-lower : (n : ℕ) (p : Bytes) → drop n (map lower p) ≡ map lower (drop n p)
drop-lower zero p = refl
drop-lower (suc n) [] = refl
drop-lower (suc n) (c ∷ p) = drop-lower n p

at_boundary-lower : (p : Bytes) → at_boundary (map lower p) ≡ at_boundary p
unfolding at_boundary
at_boundary-lower [] = refl
at_boundary-lower (c ∷ p) = ground arith

scan-lower : (split : Bytes) (i : ℕ) (p : Bytes) → scan split i (map lower p) ≡ scan split i p
unfolding scan
scan-lower split i [] = refl
scan-lower split i (c ∷ r) = rw (
  scan-lower split (i + 1) r,
  length-lower r,
  match_from-lower split (c ∷ r),
  drop-lower (length split) (c ∷ r),
  at_boundary-lower (drop (length split) (c ∷ r)),
)

first_split-lower :
    (path : Bytes) (splits : List Bytes)
    → first_split (map lower path) splits ≡ first_split path splits
unfolding first_split
first_split-lower path [] = refl
first_split-lower path (split ∷ splits) =
    ground (arith, first_split-lower path splits, length-lower path, scan-lower split 0 path)

-- Matching does not see the case of the ASCII letters of the path: folding them all changes nothing.
pub split_pos-lower :
    (path : Bytes) (splits : List Bytes) → split_pos (map lower path) splits ≡ split_pos path splits
unfolding split_pos
split_pos-lower path [] = refl
split_pos-lower path (s ∷ ss) = first_split-lower path (s ∷ ss)
