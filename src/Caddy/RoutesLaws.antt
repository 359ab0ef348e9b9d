-- ===== src/Caddy/RoutesLaws.antt =====
-- caddy/module.go: what the routes of a php_server do with a request.
use frankenphp.Base.{
  ◌≡◌, refl, sym, Bool, true, false, ◌||◌, List, [], ◌∷◌, ◌++◌, any, ℕ, Option, some, arith, inl,
  inr, Bool-cases,
}
use mathlib.Core.Path.{subst}
use frankenphp.Text.{Bytes}
use frankenphp.Caddy.Routes.{Matchers, static_response, rewrite, php, file_server, Route, anything}
use frankenphp.Caddy.Serving.{Response, ran_php, sent_file, answered, Subroutes}

pub any_append {ℓ} :
    {A : Type ℓ} (p : A → Bool) (xs ys : List A) → any p (xs ++ ys) ≡ (any p xs || any p ys)
any_append p [] ys = refl
any_append p (x ∷ xs) ys = ground (arith, any_append p xs ys)

module _ (s : Subroutes) where
  -- The request is for one of the paths.
  abbrev pub IsAmong : List Bytes → Bytes → Type 0
  IsAmong patterns p = any (λ pattern. s.path_matches pattern p) patterns ≡ true

  abbrev pub IsNotAmong : List Bytes → Bytes → Type 0
  IsNotAmong patterns p = any (λ pattern. s.path_matches pattern p) patterns ≡ false

  -- Every request is answered with `R`.
  abbrev pub Gives : (Response → Type 0) → List Route → Type 0
  Gives R rs = (p : Bytes) → R (s.serve rs p)

  -- A route in front: with what its handler gives, and what the rest gives when it does not match.
  pub Gives-after :
      (R : Response → Type 0) (r : Route) (rs : List Route)
      → ((p : Bytes) → s.matches r.matchers p ≡ true → R (s.serve (r ∷ rs) p))
      → Gives R rs
      → Gives R (r ∷ rs)
  Gives-after R r rs f h p = elim (Bool-cases (s.matches r.matchers p)) [
    | inl m ↦ f p m
    | inr m ↦ subst R (sym (s.serve-skip r rs p m)) (h p)
  ]

  pub Gives-after_php :
      (R : Response → Type 0) (r : Route) (rs : List Route)
      → r.handler ≡ php
      → ((p : Bytes) → R (ran_php p))
      → Gives R rs
      → Gives R (r ∷ rs)
  Gives-after_php R r rs e f =
      Gives-after R r rs (λ p m. subst R (sym (s.serve-php r rs p e m)) (f p))

  pub Gives-after_static :
      (R : Response → Type 0) (r : Route) (rs : List Route) (status : ℕ) (location : Option Bytes)
      → r.handler ≡ static_response status location
      → R (answered status)
      → Gives R rs
      → Gives R (r ∷ rs)
  Gives-after_static R r rs status location e f =
      Gives-after R r rs (λ p m. subst R (sym (s.serve-static r rs status location p e m)) f)

  pub Gives-after_rewrite :
      (R : Response → Type 0) (r : Route) (rs : List Route) (uri : Bytes)
      → r.handler ≡ rewrite uri
      → Gives R rs
      → Gives R (r ∷ rs)
  Gives-after_rewrite R r rs uri e h =
      Gives-after R r rs
        (λ p m. subst R (sym (s.serve-rewrite r rs uri p e m)) (h (s.rewritten r.matchers uri p))) h

  pub Gives-after_file :
      (R : Response → Type 0) (r : Route) (rs : List Route)
      → r.handler ≡ file_server
      → ((p : Bytes) → s.matches r.matchers p ≡ true → R (sent_file p))
      → Gives R rs
      → Gives R (r ∷ rs)
  Gives-after_file R r rs e f =
      Gives-after R r rs (λ p m. subst R (sym (s.serve-file r rs p e m)) (f p m))

  pub not_any_append :
      (ps qs : List Bytes) (p : Bytes) → IsNotAmong ps p → IsNotAmong qs p → IsNotAmong (ps ++ qs) p
  not_any_append ps qs p h k =
      ground (arith, any_append (λ pattern. s.path_matches pattern p) ps qs, h, k)

  -- What the patterns of a route keep out.
  pub kept_out :
      (m : Matchers) (patterns : List Bytes) (p : Bytes)
      → m.not_path ≡ some patterns
      → s.matches m p ≡ true
      → IsNotAmong patterns p
  kept_out m patterns p e h = ground (arith, s.matches-all m p, e, h)

  pub only_path :
      (patterns : List Bytes) (p : Bytes)
      → s.matches (record anything { path = some patterns }) p
        ≡ any (λ pattern. s.path_matches pattern p) patterns
  only_path patterns p = ground (arith, s.matches-all (record anything { path = some patterns }) p)
