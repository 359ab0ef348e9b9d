-- ===== src/Caddy/Distinct.antt =====
-- Lists of names without repetition, and maps of strings.
use frankenphp.Base.{
  ◌≡◌, refl, ap, Bool, false, not, keep, ◌||◌, List, [], ◌∷◌, ◌++◌, any, map, All, arith,
}
use frankenphp.Text.{Bytes, same}
use frankenphp.Text.Laws.{same_comm}

abbrev pub has : Bytes → List Bytes → Bool
has x xs = any (λ y. same y x) xs

abbrev pub AllDistinct : List Bytes → Type 0
AllDistinct [] = Unit
AllDistinct (x ∷ xs) = (has x xs ≡ false) × AllDistinct xs

-- A write to a map of strings, whose order does not count.
abbrev pub put : Bytes → Bytes → List (Bytes × Bytes) → List (Bytes × Bytes)
put k v env = (k, v) ∷ keep (λ (e : Bytes × Bytes). not (same e.0 k)) env

pub has-append : (x : Bytes) (xs ys : List Bytes) → has x (xs ++ ys) ≡ (has x xs || has x ys)
has-append x [] ys = refl
has-append x (y ∷ xs) ys = ground (arith, has-append x xs ys)

pub has-map {ℓ} :
    {A : Type ℓ} (f : A → Bytes) (x : Bytes) (as_ : List A)
    → any (λ a. same (f a) x) as_ ≡ has x (map f as_)
has-map f x [] = refl
has-map f x (a ∷ as_) = ground (arith, has-map f x as_)

pub append-AllDistinct :
    (x : Bytes) (xs : List Bytes) → AllDistinct xs → has x xs ≡ false → AllDistinct (xs ++ x ∷ [])
append-AllDistinct x [] h k = (refl, tt)
append-AllDistinct x (y ∷ xs) (h, hs) k = (
  ground (arith, has-append y xs (x ∷ []), same_comm x y, h, k),
  append-AllDistinct x xs hs (ground (arith, k)),
)

pub All-snoc {ℓ κ} :
    {A : Type ℓ} (P : A → Type κ) (as_ : List A) (a : A) → All P as_ → P a → All P (as_ ++ a ∷ [])
All-snoc P [] a h k = (k, tt)
All-snoc P (b ∷ bs) a (h, hs) k = (h, All-snoc P bs a hs k)

pub map-snoc {ℓ κ} :
    {A : Type ℓ} {B : Type κ} (f : A → B) (as_ : List A) (a : A)
    → map f (as_ ++ a ∷ []) ≡ map f as_ ++ f a ∷ []
map-snoc f [] a = refl
map-snoc f (b ∷ bs) a = ap (λ cs. f b ∷ cs) (map-snoc f bs a)
