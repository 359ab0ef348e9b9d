-- ===== src/Caddy/DocumentRoot.antt =====
-- caddy/module.go: where a request of a provisioned php directive has its document root from.
use frankenphp.Base.{
  ◌≡◌, ◌≢◌, refl, sym, ◌∙◌, ◌⊎◌, inl, inr, Bool, true, false, not, ◌&&◌, ◌||◌, List, [], ◌∷◌, ◌++◌,
  map, is_nil, Option, none, some, if◌then◌else◌, arith, Bool-cases,
}
use frankenphp.Base.Int.{ℤ}
use frankenphp.Text.{Bytes, is_empty}
use frankenphp.Cgi.SplitPos.{normalize_split_path}
use frankenphp.Caddy.ModuleConfig.{PhpModule}
use frankenphp.Caddy.Provision.{
  Host, ProvisionError, Provisioning, ok, fail, ◌>>=◌, Provisioned, or_fail, need_replacement,
  resolve_document_root, resolved_worker, provision, RequestOption, with_split_path,
  with_body_timeout, with_original_request, with_document_root, with_prepared_env, HttpError,
  service_unavailable, internal_error, ServerAnswer, handled, rejected, failed, request_options,
  serve_http, no_absolute_root, no_root_symlink, no_hot_reload, invalid_split_path, replaced,
  rooted_module, or_default, default_request_body_timeout,
}

-- `P` where it succeeds.
abbrev pub Yields {ℓ} : {A : Type ℓ} → (A → Type 0) → Provisioning A → Type 0
Yields P (ok a) = P a
Yields P (fail e) = Unit

pub Yields-bind {ℓ κ} :
    {A : Type ℓ} {B : Type κ} (P : A → Type 0) (Q : B → Type 0) (m : Provisioning A)
    (f : A → Provisioning B)
    → Yields P m
    → ((a : A) → P a → Yields Q (f a))
    → Yields Q (m >>= f)
Yields-bind P Q (ok a) f h k = k a h
Yields-bind P Q (fail e) f h k = tt

pub Yields-or_fail {ℓ κ} :
    {A : Type ℓ} {B : Type κ} (Q : B → Type 0) (e : ProvisionError) (o : Option A)
    (f : A → Provisioning B)
    → ((a : A) → o ≡ some a → Yields Q (f a))
    → Yields Q (or_fail e o >>= f)
Yields-or_fail Q e none f h = tt
Yields-or_fail Q e (some a) f h = h a refl

pub Yields-map {ℓ} :
    {A : Type ℓ} (P Q : A → Type 0) (m : Provisioning A)
    → ((a : A) → P a → Q a)
    → Yields P m
    → Yields Q m
Yields-map P Q (ok a) f h = f a h
Yields-map P Q (fail e) f h = tt

-- The document roots among the options of a request.
abbrev pub roots_of : List RequestOption → List Bytes
roots_of [] = []
roots_of (with_split_path s ∷ os) = roots_of os
roots_of (with_body_timeout n ∷ os) = roots_of os
roots_of (with_original_request ∷ os) = roots_of os
roots_of (with_document_root d ∷ os) = d ∷ roots_of os
roots_of (with_prepared_env e ∷ os) = roots_of os

-- What a placeholder in the root comes to, and the embedded application where that is nothing.
abbrev pub request_root : Host → (Bytes → Bytes) → Provisioned → Bytes
request_root h known p =
    let replaced_root = known p.config.root in
    if is_empty replaced_root && not (is_empty h.embedded_app_path)
    then h.embedded_app_path
    else replaced_root

-- The server has a root exactly where the directive's has no placeholder.
abbrev pub IsRooted : Provisioned → Type 0
IsRooted p = need_replacement p.config.root ≡ is_empty p.resolved_document_root

abbrev pub HasRoot :
    Host → (Bytes → Bytes) → Provisioned → Option (List RequestOption) × Option HttpError → Type 0
HasRoot h known p (none, e) = e ≡ some service_unavailable
HasRoot h known p (some os, e) =
    (e ≢ some service_unavailable)
    × (((need_replacement p.config.root ≡ false)
          × ((is_empty p.resolved_document_root ≡ false) × (roots_of os ≡ [])))
        ⊎ ((need_replacement p.config.root ≡ true) × (roots_of os ≡ request_root h known p ∷ [])))

pub request_options-roots :
    (h : Host) (known : Bytes → Bytes) (p : Provisioned)
    → roots_of (request_options h known p)
      ≡ (if is_empty p.resolved_document_root then request_root h known p ∷ [] else [])
unfolding request_options
request_options-roots h known p =
    split p.request_body_timeout (is_empty p.resolved_document_root) (is_nil p.request_env)
  where
    split :
        (o : Option ℤ) (b c : Bool)
        → roots_of (
            with_split_path p.request_split_path
            ∷ (elim o [ none ↦ [] | some n ↦ with_body_timeout n ∷ [] ]
                ++ with_original_request
                  ∷ ((if b then with_document_root (request_root h known p) ∷ [] else [])
                      ++ (if c
                          then []
                          else with_prepared_env (map (replaced known) p.request_env) ∷ []))))
          ≡ (if b then request_root h known p ∷ [] else [])
    split none true true = refl
    split none true false = refl
    split none false true = refl
    split none false false = refl
    split (some n) true true = refl
    split (some n) true false = refl
    split (some n) false true = refl
    split (some n) false false = refl

pub serve_http-HasRoot :
    (h : Host) (known : Bytes → Bytes) (has_started starts : Bool)
    (server : List RequestOption → ServerAnswer) (p : Provisioned)
    → IsRooted p
    → HasRoot h known p (serve_http h known has_started starts server p)
unfolding serve_http
serve_http-HasRoot h known has_started starts server p v = split (has_started || starts)
  where
    options : List RequestOption
    options = request_options h known p

    error_of : ServerAnswer → Option HttpError
    error_of a = elim a [ handled ↦ none | rejected status ↦ none | failed ↦ some internal_error ]

    no_503 : (a : ServerAnswer) → error_of a ≢ some service_unavailable
    no_503 handled e = ground (arith, e)
    no_503 (rejected status) e = ground (arith, e)
    no_503 failed e = ground (arith, e)

    split :
        (b : Bool)
        → HasRoot h known p (
            if b
            then (some options, error_of (server options))
            else (none, some service_unavailable))
    split false = refl
    split true = (
      no_503 (server options),
      elim (Bool-cases (is_empty p.resolved_document_root)) [
        | inl e ↦ inr (v ∙ e, ground (arith, request_options-roots h known p, e))
        | inr e ↦ inl (v ∙ e, (e, ground (arith, request_options-roots h known p, e)))
      ],
    )

module _ (h : Host) (abs-full : (f root : Bytes) → h.fast_abs f ≡ some root → is_empty root ≡ false)
    (link-full : (f root : Bytes) → h.eval_symlinks f ≡ some root → is_empty root ≡ false) where
  pub resolve_document_root-IsRooted :
      (symlinks : Bool) (m : PhpModule)
      → Yields
          (λ (a : PhpModule × Bytes). need_replacement a.0.root ≡ is_empty a.1)
          (resolve_document_root h symlinks m)
  unfolding resolve_document_root
  resolve_document_root-IsRooted symlinks m = split (need_replacement m.root) symlinks refl
    where
      P : PhpModule × Bytes → Type 0
      P a = need_replacement a.0.root ≡ is_empty a.1

      split :
          (b symlinks : Bool)
          → need_replacement m.root ≡ b
          → Yields P (
              if b
              then ok (m, [])
              else (or_fail no_absolute_root (h.fast_abs m.root) >>= λ root.
                  if symlinks
                  then (or_fail no_root_symlink (h.eval_symlinks root) >>= λ resolved.
                      ok (record m { workers = map (resolved_worker h) m.workers }, resolved))
                  else ok (m, root)))
      split true s e = e
      split false true e = Yields-or_fail P no_absolute_root (h.fast_abs m.root) _ (λ root k.
          Yields-or_fail P no_root_symlink (h.eval_symlinks root)
            (λ resolved. ok (record m { workers = map (resolved_worker h) m.workers }, resolved))
            (λ resolved l. e ∙ sym (link-full root resolved l)))
      split false false e =
          Yields-or_fail P no_absolute_root (h.fast_abs m.root) (λ root. ok (m, root))
            (λ root k. e ∙ sym (abs-full m.root root k))

  pub provision-IsRooted : (m : PhpModule) → Yields IsRooted (provision h m)
  unfolding provision
  provision-IsRooted m =
      Yields-or_fail IsRooted invalid_split_path (normalize_split_path rooted.split_path) _
        (λ split_path k.
          Yields-bind (λ (a : PhpModule × Bytes). need_replacement a.0.root ≡ is_empty a.1) IsRooted
            (resolve_document_root h symlinks (record rooted {
              split_path = split_path;
              resolve_root_symlink = some symlinks;
              request_body_timeout =
                  some (or_default default_request_body_timeout rooted.request_body_timeout);
            }))
            _ (resolve_document_root-IsRooted symlinks _)
            (λ (resolved, root) l.
              Yields-or_fail IsRooted no_hot_reload (h.configure_hot_reload resolved) _
                (λ variable k. l)))
    where
      rooted : PhpModule
      rooted = rooted_module h m

      symlinks : Bool
      symlinks = or_default true rooted.resolve_root_symlink

  -- Where absolute paths and evaluated links are not empty: a request that a provisioned php directive
  -- passes to its server has one document root. It is the server's, which is not empty, where the root
  -- of the directive has no placeholder, and else one option of the request gives it. For a request that
  -- is not passed on, Caddy is given the error 503, and it is given that error for no other one; what a
  -- server that rejects a request answers itself is no error for Caddy.
  pub provision-HasRoot :
      (m : PhpModule) (known : Bytes → Bytes) (has_started starts : Bool)
      (server : List RequestOption → ServerAnswer)
      → Yields
          (λ p. HasRoot h known p (serve_http h known has_started starts server p))
          (provision h m)
  provision-HasRoot m known has_started starts server =
      Yields-map IsRooted _ (provision h m)
        (λ p v. serve_http-HasRoot h known has_started starts server p v) (provision-IsRooted m)
