-- ===== src/Cgi/Containment.antt =====
-- cgi.go, `sanitizedPathJoin`: the joined path never leaves its root.
use frankenphp.Base.{
  ℕ, ◌≡◌, refl, sym, ap, ◌∙◌, true, false, ◌&&◌, List, [], ◌∷◌, ◌++◌, if◌then◌else◌, inl, inr,
  Bool-cases, All, arith, drop, length, ltb,
}
use mathlib.Core.List.{append-nil}
use frankenphp.Text.{Bytes, slash, split_on, join, is_empty, has_suffix}
use frankenphp.Text.Clean.{
  dot, is_rooted, push, push_all, elements, render, clean, join_paths, IsProper, elements-rooted,
  elements-below,
}
use frankenphp.Cgi.RequestPath.{ensure_leading_slash, rel_path, sanitized_path_join}

ensure_leading_slash-rooted : (c : ℕ) (p : Bytes) → is_rooted (ensure_leading_slash (c ∷ p)) ≡ true
unfolding ensure_leading_slash
ensure_leading_slash-rooted c p = ground arith

drop-clean : (q : Bytes) → is_rooted q ≡ true → drop 1 (clean q) ≡ join slash (elements q)
unfolding clean render
drop-clean q h = rw h

rel_path_lem :
    (req_path : Bytes) → (es : List Bytes) × All IsProper es × (rel_path req_path ≡ join slash es)
rel_path_lem [] =
    ([], tt, unfold ensure_leading_slash clean render elements push_all push join split_on in refl)
rel_path_lem (c ∷ p) = (
  elements (ensure_leading_slash (c ∷ p)),
  elements-rooted _ (ensure_leading_slash-rooted c p),
  drop-clean _ (ensure_leading_slash-rooted c p),
)

join_paths_lem :
    (p q : Bytes)
    → is_empty p ≡ false
    → is_empty q ≡ false
    → join_paths p q ≡ clean (p ++ slash ∷ q)
unfolding join_paths
join_paths_lem [] q h k = cc
join_paths_lem (c ∷ p) [] h k = cc
join_paths_lem (c ∷ p) (d ∷ q) h k = refl

join_paths-nil : (p : Bytes) → is_empty p ≡ false → join_paths p [] ≡ clean p
unfolding join_paths
join_paths-nil [] h = cc
join_paths-nil (c ∷ p) h = refl

join-not_empty :
    (e : Bytes) (es : List Bytes) → is_empty e ≡ false → is_empty (join slash (e ∷ es)) ≡ false
unfolding join
join-not_empty [] es h = cc
join-not_empty (c ∷ e) [] h = refl
join-not_empty (c ∷ e) (f ∷ es) h = refl

is_rooted-append : (p q : Bytes) → is_empty p ≡ false → is_rooted (p ++ q) ≡ is_rooted p
is_rooted-append [] q h = cc
is_rooted-append (c ∷ p) q h = refl

below_base :
    (base : Bytes) (es : List Bytes)
    → is_empty base ≡ false
    → All IsProper es
    → join_paths base (join slash es) ≡ render (is_rooted base) (elements base ++ es)
unfolding clean
below_base base [] h hs =
    unfold join in
    (join_paths-nil base h ∙ ap (render (is_rooted base)) (sym (append-nil (elements base))))
below_base base (e ∷ es) h (he, hs) =
    join_paths_lem base (join slash (e ∷ es)) h (join-not_empty e es he.not_empty)
    ∙ rw (is_rooted-append base (slash ∷ join slash (e ∷ es)) h)
        (ap (render (is_rooted base)) (elements-below base e es h (he, hs)))

-- The root that paths are joined to.
abbrev pub base_of : Bytes → Bytes
base_of root = if is_empty root then dot else root

base_of-not_empty : (root : Bytes) → is_empty (base_of root) ≡ false
base_of-not_empty [] = refl
base_of-not_empty (c ∷ r) = refl

-- The separator that is added again where the request path, longer than the root, ends in one.
abbrev pub trailing : Bytes → Bytes
trailing req_path =
    if has_suffix req_path (slash ∷ []) && ltb 1 (length req_path) then slash ∷ [] else []

-- Whatever the request path, the result is the cleaned root with elements below it, none of them
-- empty, a dot segment or holding a separator, and the request path's last slash.
pub sanitized_path_join_contained :
    (root req_path : Bytes)
    → (below : List Bytes) × All IsProper below
      × (sanitized_path_join root req_path
          ≡ render (is_rooted (base_of root)) (elements (base_of root) ++ below)
            ++ trailing req_path)
unfolding sanitized_path_join
sanitized_path_join_contained root req_path =
    let (es, proper, e) = rel_path_lem req_path in
    let k : join_paths (base_of root) (rel_path req_path)
        ≡ render (is_rooted (base_of root)) (elements (base_of root) ++ es) =
      ap (join_paths (base_of root)) e
      ∙ below_base (base_of root) es (base_of-not_empty root) proper in
    (
      es,
      proper,
      elim (Bool-cases (has_suffix req_path (slash ∷ []) && ltb 1 (length req_path))) [
        | inl h ↦ rw h (ap (λ t. t ++ slash ∷ []) k)
        | inr h ↦ rw h (k ∙ sym (append-nil _))
      ],
    )
