-- ===== src/Text/Clean.antt =====
-- Go's `path.Clean` and `path.Join`: the rules of their documentation, over the list of elements.
-- (On Unix `filepath.Clean` and `filepath.Join` are the same functions.)
use frankenphp.Base.{
  ◌≡◌, refl, sym, ap, ◌∙◌, Bool, true, false, ◌||◌, List, [], ◌∷◌, ◌++◌, ◌==◌, if◌then◌else◌, All,
  arith,
}
use mathlib.Core.List.{reverse, append_assoc, reverse-append, reverse-reverse}
use frankenphp.Text.Defs.{Bytes, slash, contains_byte, split_on, join, is_empty, same}
use frankenphp.Text.Split.{split_on-append, split_on-join, split_on-no_sep}

abbrev pub dot : Bytes
dot = b'.' ∷ []

abbrev pub dot_dot : Bytes
dot_dot = b'.' ∷ b'.' ∷ []

abbrev pub is_rooted : Bytes → Bool
is_rooted [] = false
is_rooted (c ∷ _) = c == slash

-- The `..` rule: it takes the element before it away; at the root it goes; else it stays.
unfoldable pub pop : Bool → List Bytes → List Bytes
pop rooted [] = if rooted then [] else dot_dot ∷ []
pop rooted (top ∷ rest) = if same top dot_dot then dot_dot ∷ top ∷ rest else rest

-- One element, onto the reversed list of those kept.
unfoldable pub push : Bool → List Bytes → Bytes → List Bytes
push rooted stack seg =
    if is_empty seg || same seg dot
    then stack
    else if same seg dot_dot
    then pop rooted stack
    else seg ∷ stack

unfoldable pub push_all : Bool → List Bytes → List Bytes → List Bytes
push_all rooted stack [] = stack
push_all rooted stack (seg ∷ segs) = push_all rooted (push rooted stack seg) segs

-- The elements that cleaning keeps, in order.
unfoldable pub elements : Bytes → List Bytes
elements p = reverse (push_all (is_rooted p) [] (split_on slash p))

unfoldable pub render : Bool → List Bytes → Bytes
render true es = slash ∷ join slash es
render false [] = dot
render false (e ∷ es) = join slash (e ∷ es)

-- `path.Clean`
unfoldable pub clean : Bytes → Bytes
clean p = render (is_rooted p) (elements p)

-- `path.Join` of two parts: an empty one is left out.
unfoldable pub join_paths : Bytes → Bytes → Bytes
join_paths [] [] = []
join_paths [] q = clean q
join_paths (c ∷ p) [] = clean (c ∷ p)
join_paths (c ∷ p) (d ∷ q) = clean ((c ∷ p) ++ slash ∷ d ∷ q)

-- An element that names something below: not empty, no dot segment, no separator.
pub record IsProper (seg : Bytes) : Type 0 where
  pub not_empty : is_empty seg ≡ false
  pub not_dot : same seg dot ≡ false
  pub not_dot_dot : same seg dot_dot ≡ false
  pub no_slash : contains_byte slash seg ≡ false

push-proper :
    (rooted : Bool) (stack : List Bytes) (seg : Bytes)
    → IsProper seg
    → push rooted stack seg ≡ seg ∷ stack
unfolding push
push-proper rooted stack seg h = rw (h.not_empty, h.not_dot, h.not_dot_dot)

push_all-proper :
    (rooted : Bool) (stack segs : List Bytes)
    → All IsProper segs
    → push_all rooted stack segs ≡ reverse segs ++ stack
unfolding push_all
push_all-proper rooted stack [] h = refl
push_all-proper rooted stack (x ∷ xs) (hx, hs) = rw (push-proper rooted stack x hx) (
    push_all-proper rooted (x ∷ stack) xs hs
    ∙ sym (append_assoc (reverse xs) (x ∷ []) stack)
    ∙ ap (λ t. t ++ stack) (sym (reverse-append (x ∷ []) xs)))

push_all-append :
    (rooted : Bool) (stack xs ys : List Bytes)
    → push_all rooted stack (xs ++ ys) ≡ push_all rooted (push_all rooted stack xs) ys
unfolding push_all
push_all-append rooted stack [] ys = refl
push_all-append rooted stack (x ∷ xs) ys = push_all-append rooted (push rooted stack x) xs ys

push-rooted :
    (stack : List Bytes) (seg : Bytes)
    → contains_byte slash seg ≡ false
    → All IsProper stack
    → All IsProper (push true stack seg)
unfolding push pop
push-rooted [] seg f h = ground arith
push-rooted (top ∷ rest) seg f (ht, hr) = ground arith

push_all-rooted :
    (stack segs : List Bytes)
    → All (λ s. contains_byte slash s ≡ false) segs
    → All IsProper stack
    → All IsProper (push_all true stack segs)
unfolding push_all
push_all-rooted stack [] f h = h
push_all-rooted stack (s ∷ ss) (f, fs) h =
    push_all-rooted (push true stack s) ss fs (push-rooted stack s f h)

pub All-append {ℓ} :
    (P : Bytes → Type ℓ) (xs ys : List Bytes) → All P xs → All P ys → All P (xs ++ ys)
All-append P [] ys hx hy = hy
All-append P (x ∷ xs) ys (h, hx) hy = (h, All-append P xs ys hx hy)

All-reverse {ℓ} : (P : Bytes → Type ℓ) (xs : List Bytes) → All P xs → All P (reverse xs)
All-reverse P [] h = tt
All-reverse P (x ∷ xs) (hx, hs) =
    rw (reverse-append (x ∷ []) xs)
      (All-append P (reverse xs) (x ∷ []) (All-reverse P xs hs) (hx, tt))

-- A rooted path keeps no dot segment.
pub elements-rooted : (p : Bytes) → is_rooted p ≡ true → All IsProper (elements p)
unfolding elements
elements-rooted p h =
    rw h
      (All-reverse IsProper _ (push_all-rooted [] (split_on slash p) (split_on-no_sep slash p) tt))

pub All-no_slash : (es : List Bytes) → All IsProper es → All (λ t. contains_byte slash t ≡ false) es
All-no_slash [] h = tt
All-no_slash (e ∷ es) (h, hs) = (h.no_slash, All-no_slash es hs)

-- Proper elements below a path are the elements that cleaning adds.
pub elements-below :
    (p : Bytes) (e : Bytes) (es : List Bytes)
    → is_empty p ≡ false
    → All IsProper (e ∷ es)
    → elements (p ++ slash ∷ join slash (e ∷ es)) ≡ elements p ++ (e ∷ es)
unfolding elements
elements-below [] e es h hs = cc
elements-below (c ∷ p) e es h hs = rw (split_on-append slash (c ∷ p) (join slash (e ∷ es))) (
    rw (split_on-join slash e es (All-no_slash (e ∷ es) hs)) (
      rw (push_all-append (c == slash) [] (split_on slash (c ∷ p)) (e ∷ es)) (
        rw
          (push_all-proper (c == slash) (push_all (c == slash) [] (split_on slash (c ∷ p))) (e ∷ es)
            hs)
          (reverse-append (reverse (e ∷ es)) _
            ∙ ap (λ t. reverse (push_all (c == slash) [] (split_on slash (c ∷ p))) ++ t)
                (reverse-reverse (e ∷ es))))))
