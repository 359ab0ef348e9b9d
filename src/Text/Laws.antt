-- ===== src/Text/Laws.antt =====
-- The comparison of byte strings is equality.
use frankenphp.Base.{◌≡◌, refl, true, [], ◌∷◌, arith}
use frankenphp.Text.Defs.{Bytes, same}

pub same_refl : (p : Bytes) → same p p ≡ true
same_refl [] = refl
same_refl (c ∷ p) = ground (arith, same_refl p)

pub same_eq : (a b : Bytes) → same a b ≡ true → a ≡ b
same_eq [] [] h = refl
same_eq [] (d ∷ b) h = cc
same_eq (c ∷ a) [] h = cc
same_eq (c ∷ a) (d ∷ b) h =
    let e : c ≡ d = ground arith in let k : a ≡ b = same_eq a b (ground arith) in rw (e, k) refl

pub same_of_eq : {a b : Bytes} → a ≡ b → same a b ≡ true
same_of_eq {a} {b} h = rw h (same_refl b)

pub same_comm : (a b : Bytes) → same a b ≡ same b a
same_comm [] [] = refl
same_comm [] (d ∷ b) = refl
same_comm (c ∷ a) [] = refl
same_comm (c ∷ a) (d ∷ b) = ground (arith, same_comm a b)
