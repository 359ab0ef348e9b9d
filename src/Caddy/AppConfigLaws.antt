-- ===== src/Caddy/AppConfigLaws.antt =====
-- caddy/app.go: what the frankenphp global option lets through.
use frankenphp.Base.{
  ℕ, zero, suc, ◌≤◌, ◌≡◌, refl, sym, ◌∙◌, Bool, true, false, List, [], ◌∷◌, ◌++◌, any, map, is_nil,
  All, Option, none, some, arith, if◌then◌else◌, codes,
}
use mathlib.Core.Path.{subst}
use frankenphp.Base.Int.{ℤ, pos, negsuc, ◌≤ℤ◌}
use frankenphp.Text.{Bytes, same}
use frankenphp.Caddy.Distinct.{put, AllDistinct, has-map, append-AllDistinct, All-snoc, map-snoc}
use frankenphp.Caddy.Dispenser.{
  invalid_value, wrong_subdirective, match_in_global, duplicate_file, ini_format, max_below_num,
  Parsed, ok, fail, stuck, ◌>>=◌, Dispenser, Readers, parse_non_negative_int, required, Gets,
  Gets-bind, Gets-map, non_negative-Gets, required-Gets, block_next-Gets, next_arg-Gets, next-Gets,
}
use frankenphp.Caddy.WorkerConfig.{WorkerConfig, unmarshal_worker}
use frankenphp.Caddy.WorkerConfigLaws.{IsRead, IsAcceptedBelow, unmarshal_worker-IsAccepted}
use frankenphp.Caddy.AppConfig.{
  FrankenPhpApp, AppKey, app_key, add_worker, parse_ini_line, ini_block, php_ini_line, duration,
  app_subdirective, known_app_subdirective, app_block, app_segments, has_room, unmarshal_caddyfile,
}

module _ (t : Dispenser) (r : Readers) where
  abbrev pub IsGlobal : WorkerConfig → Type 0
  IsGlobal wc = IsRead t r wc × (is_nil wc.match_path ≡ true)

  abbrev pub files : FrankenPhpApp → List Bytes
  files app = map (λ (w : WorkerConfig). w.file_name) app.workers

  -- What the subdirectives keep.
  abbrev pub IsUsable : FrankenPhpApp → Type 0
  IsUsable app =
      (pos 0 ≤ℤ app.num_threads)
      × ((negsuc 0 ≤ℤ app.max_threads)
          × ((pos 0 ≤ℤ app.max_requests) × (All IsGlobal app.workers × AllDistinct (files app))))

  abbrev pub IsUsableBelow : ℕ → FrankenPhpApp × t.Position → Type 0
  IsUsableBelow n (app, d) = IsUsable app × (t.size d ≤ n)

  pub parse_ini_line-Gets :
      (key : Bytes) (app : FrankenPhpApp) (d : t.Position)
      → IsUsable app
      → Gets (IsUsableBelow (t.size d)) (parse_ini_line t r key app d)
  unfolding parse_ini_line
  parse_ini_line-Gets key app d h =
      next_arg-Gets t (IsUsableBelow (t.size d)) d (fail ini_format) _ tt (λ v d' l.
        next_arg-Gets t (IsUsableBelow (t.size d)) d'
          (ok (record app { php_ini = put key v app.php_ini }, d')) _ (h, omega (arith, l))
          (λ e d'' k. tt))

  abbrev pub IsIniBelow : ℕ → Bool × (FrankenPhpApp × t.Position) → Type 0
  IsIniBelow n (b, next) = IsUsableBelow n next

  pub ini_block-Gets :
      (n : ℕ) (b : Bool) (app : FrankenPhpApp) (d : t.Position)
      → t.size d ≤ n
      → IsUsable app
      → Gets (IsIniBelow (t.size d)) (ini_block t r n b app d)
  unfolding ini_block
  ini_block-Gets zero b app d l h =
      block_next-Gets t (IsIniBelow (t.size d)) 1 d (λ d'. ok (b, (app, d'))) (λ v d'. stuck)
        (λ d' k. (h, k)) (λ v d' k. omega (arith, k, l))
  ini_block-Gets (suc n) b app d l h =
      block_next-Gets t (IsIniBelow (t.size d)) 1 d (λ d'. ok (b, (app, d'))) _ (λ d' k. (h, k))
        (λ v d' k.
          Gets-bind (IsUsableBelow (t.size d')) (IsIniBelow (t.size d))
            (parse_ini_line t r v app d') _ (parse_ini_line-Gets v app d' h)
            (λ (app', d'') (h', l').
              Gets-map (IsIniBelow (t.size d'')) (IsIniBelow (t.size d)) _
                (λ (b3, (app3, d3)) (h3, l3). (h3, omega (arith, l3, l', k)))
                (ini_block-Gets n true app' d'' (omega (arith, l', l, k)) h')))

  pub php_ini_line-Gets :
      (app : FrankenPhpApp) (d : t.Position)
      → IsUsable app
      → Gets (IsUsableBelow (t.size d)) (php_ini_line t r app d)
  unfolding php_ini_line
  php_ini_line-Gets app d h =
      next_arg-Gets t (IsUsableBelow (t.size d)) d (fail ini_format) _ tt (λ key d' l.
        Gets-map (IsUsableBelow (t.size d')) (IsUsableBelow (t.size d)) _
          (λ (app', d'') (h', l'). (h', omega (arith, l', l))) (parse_ini_line-Gets key app d' h))

  -- A number or a duration, after a subdirective of one argument.
  pub one_value :
      (P : ℤ → Type 0) (read : Bytes → Parsed ℤ) (f : ℤ → FrankenPhpApp) (d : t.Position)
      → ((v : Bytes) → Gets P (read v))
      → ((n : ℤ) → P n → IsUsable (f n))
      → Gets
          (IsUsableBelow (t.size d))
          (required t d >>= λ (a : Bytes × t.Position). read a.0 >>= λ n. ok (f n, a.1))
  one_value P read f d g h =
      Gets-bind _ (IsUsableBelow (t.size d)) (required t d) _ (required-Gets t d) (λ (v, d') l.
        Gets-bind P (IsUsableBelow (t.size d)) (read v) _ (g v) (λ n k. (h n k, omega (arith, l))))

  pub duration-Gets : (v : Bytes) → Gets (λ n. Unit {0}) (duration t r v)
  duration-Gets v = split (r.parse_duration v)
    where
      split :
          (o : Option ℤ)
          → Gets (λ n. Unit {0}) (elim o [ none ↦ fail invalid_value | some n ↦ ok n ])
      split none = tt
      split (some n) = tt

  pub add_worker-Gets :
      (wc : WorkerConfig) (app : FrankenPhpApp)
      → IsRead t r wc
      → IsUsable app
      → Gets IsUsable (add_worker wc app)
  unfolding add_worker
  add_worker-Gets wc app h (a, (b, (c, (d, e)))) =
      split (is_nil wc.match_path)
        (any (λ (w : WorkerConfig). same w.file_name wc.file_name) app.workers) refl refl
    where
      added : FrankenPhpApp
      added = record app { workers = app.workers ++ wc ∷ [] }

      distinct :
          any (λ (w : WorkerConfig). same w.file_name wc.file_name) app.workers ≡ false
          → AllDistinct (files added)
      distinct k =
          subst AllDistinct (sym (map-snoc (λ (w : WorkerConfig). w.file_name) app.workers wc)) (
            append-AllDistinct wc.file_name (files app) e
              (sym (has-map (λ (w : WorkerConfig). w.file_name) wc.file_name app.workers) ∙ k))

      split :
          (p q : Bool)
          → is_nil wc.match_path ≡ p
          → any (λ (w : WorkerConfig). same w.file_name wc.file_name) app.workers ≡ q
          → Gets IsUsable (
              if p
              then if q then fail (duplicate_file wc.file_name) else ok added
              else fail (match_in_global wc.file_name))
      split false q k l = tt
      split true true k l = tt
      split true false k l = (a, (b, (c, (All-snoc IsGlobal app.workers wc d (h, k), distinct l))))

  pub app_subdirective-Gets :
      (k : AppKey) (app : FrankenPhpApp) (d : t.Position)
      → IsUsable app
      → Gets (IsUsableBelow (t.size d)) (app_subdirective t r k app d)
  unfolding app_subdirective
  app_subdirective-Gets AppKey.num_threads app d (a, h) =
      one_value (λ n. pos 0 ≤ℤ n) (parse_non_negative_int r) (λ n. record app { num_threads = n }) d
        (non_negative-Gets r) (λ n k. (k, h))
  app_subdirective-Gets AppKey.max_threads app d (a, (b, h)) =
      one_value (λ n. negsuc 0 ≤ℤ n)
        (λ v. if same v (codes "auto") then ok (negsuc 0) else parse_non_negative_int r v)
        (λ n. record app { max_threads = n }) d (λ v. auto v (same v (codes "auto")))
        (λ n k. (a, (k, h)))
    where
      auto :
          (v : Bytes) (q : Bool)
          → Gets (λ n. negsuc 0 ≤ℤ n) (if q then ok (negsuc 0) else parse_non_negative_int r v)
      auto v true = ground arith
      auto v false =
          Gets-map (λ n. pos 0 ≤ℤ n) (λ n. negsuc 0 ≤ℤ n) _ (λ n k. omega (arith, k))
            (non_negative-Gets r v)
  app_subdirective-Gets AppKey.max_wait_time app d h =
      one_value (λ n. Unit) (duration t r) (λ n. record app { max_wait_time = n }) d duration-Gets
        (λ n k. h)
  app_subdirective-Gets AppKey.max_idle_time app d h =
      one_value (λ n. Unit) (duration t r) (λ n. record app { max_idle_time = n }) d duration-Gets
        (λ n k. h)
  app_subdirective-Gets AppKey.max_requests app d (a, (b, (c, h))) =
      one_value (λ n. pos 0 ≤ℤ n) (parse_non_negative_int r) (λ n. record app { max_requests = n })
        d (non_negative-Gets r) (λ n k. (a, (b, (k, h))))
  app_subdirective-Gets AppKey.php_ini app d h =
      Gets-bind (IsIniBelow (t.size d)) (IsUsableBelow (t.size d))
        (ini_block t r (t.size d) false app d) _
        (ini_block-Gets (t.size d) false app d (omega arith) h)
        (λ (b, (app', d')) (h', l'). line b app' d' h' l')
    where
      line :
          (b : Bool) (app' : FrankenPhpApp) (d' : t.Position)
          → IsUsable app'
          → t.size d' ≤ t.size d
          → Gets (IsUsableBelow (t.size d)) (if b then ok (app', d') else php_ini_line t r app' d')
      line true app' d' h' l' = (h', l')
      line false app' d' h' l' =
          Gets-map (IsUsableBelow (t.size d')) (IsUsableBelow (t.size d)) _
            (λ (app3, d3) (h3, l3). (h3, omega (arith, l3, l'))) (php_ini_line-Gets app' d' h')
  app_subdirective-Gets AppKey.worker app d h =
      Gets-bind (IsAcceptedBelow t r (t.size d)) (IsUsableBelow (t.size d)) (unmarshal_worker t r d)
        _ (unmarshal_worker-IsAccepted t r d)
        (λ (wc, d') ((w, f), l).
          Gets-bind IsUsable (IsUsableBelow (t.size d)) _ _ (add_worker-Gets _ app w h)
            (λ app' h'. (h', l)))

  pub known_app_subdirective-Gets :
      (v : Bytes) (app : FrankenPhpApp) (d : t.Position)
      → IsUsable app
      → Gets (IsUsableBelow (t.size d)) (known_app_subdirective t r v app d)
  known_app_subdirective-Gets v app d h = split (app_key v)
    where
      split :
          (o : Option AppKey)
          → Gets (IsUsableBelow (t.size d)) (elim o [
            | none ↦ fail (wrong_subdirective v)
            | some k ↦ app_subdirective t r k app d
          ])
      split none = tt
      split (some k) = app_subdirective-Gets k app d h

  -- The tokens are fuel enough.
  pub app_block-Gets :
      (n : ℕ) (app : FrankenPhpApp) (d : t.Position)
      → t.size d ≤ n
      → IsUsable app
      → Gets (IsUsableBelow (t.size d)) (app_block t r n app d)
  unfolding app_block
  app_block-Gets zero app d l h =
      block_next-Gets t (IsUsableBelow (t.size d)) 0 d (λ d'. ok (app, d')) (λ v d'. stuck)
        (λ d' k. (h, k)) (λ v d' k. omega (arith, k, l))
  app_block-Gets (suc n) app d l h =
      block_next-Gets t (IsUsableBelow (t.size d)) 0 d (λ d'. ok (app, d')) _ (λ d' k. (h, k))
        (λ v d' k.
          Gets-bind (IsUsableBelow (t.size d')) (IsUsableBelow (t.size d))
            (known_app_subdirective t r v app d') _ (known_app_subdirective-Gets v app d' h)
            (λ (app', d'') (h', l').
              Gets-map (IsUsableBelow (t.size d'')) (IsUsableBelow (t.size d)) _
                (λ (app3, d3) (h3, l3). (h3, omega (arith, l3, l', k)))
                (app_block-Gets n app' d'' (omega (arith, l', l, k)) h')))

  pub app_segments-Gets :
      (n : ℕ) (app : FrankenPhpApp) (d : t.Position)
      → t.size d ≤ n
      → IsUsable app
      → Gets IsUsable (app_segments t r n app d)
  unfolding app_segments
  app_segments-Gets zero app d l h =
      next-Gets t IsUsable d (ok app) (λ v. stuck) h (λ v d' k. omega (arith, k, l))
  app_segments-Gets (suc n) app d l h = next-Gets t IsUsable d (ok app) _ h (λ v d' k.
      Gets-bind (IsUsableBelow (t.size d')) IsUsable (app_block t r (t.size d') app d') _
        (app_block-Gets (t.size d') app d' (omega arith) h)
        (λ (app', d'') (h', l'). app_segments-Gets n app' d'' (omega (arith, l', l, k)) h'))

  -- The frankenphp option is read to an end on any tokens, from a usable configuration on. Where it is
  -- accepted, the numbers are not negative except that `max_threads` may be -1, for auto, the global
  -- workers have what the worker directive gives, no paths to match and no file twice, and where
  -- `max_threads` and `num_threads` are both positive, `max_threads` is not below `num_threads`.
  pub unmarshal_caddyfile-IsUsable :
      (app : FrankenPhpApp) (d : t.Position)
      → IsUsable app
      → Gets (λ app'. IsUsable app' × (has_room t r app' ≡ true)) (unmarshal_caddyfile t r app d)
  unfolding unmarshal_caddyfile
  unmarshal_caddyfile-IsUsable app d h =
      Gets-bind IsUsable (λ app'. IsUsable app' × (has_room t r app' ≡ true))
        (app_segments t r (t.size d) app d) _ (app_segments-Gets (t.size d) app d (omega arith) h)
        (λ app' h'. split app' h' (has_room t r app') refl)
    where
      split :
          (app' : FrankenPhpApp)
          → IsUsable app'
          → (b : Bool) → has_room t r app' ≡ b
          → Gets
              (λ a. IsUsable a × (has_room t r a ≡ true))
              (if b then ok app' else fail max_below_num)
      split app' h' true e = (h', e)
      split app' h' false e = tt
