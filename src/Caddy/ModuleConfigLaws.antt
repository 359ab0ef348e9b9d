-- ===== src/Caddy/ModuleConfigLaws.antt =====
-- caddy/module.go: what the php directive lets through.
use frankenphp.Base.{
  ℕ, zero, suc, ◌≤◌, ◌<◌, ◌≡◌, refl, Bool, true, false, List, [], ◌∷◌, ◌++◌, is_nil, All, Option,
  none, some, arith, if◌then◌else◌, codes,
}
use frankenphp.Text.{Bytes, same}
use frankenphp.Caddy.Distinct.{put, All-snoc}
use frankenphp.Caddy.Dispenser.{
  wrong_arguments, invalid_value, wrong_subdirective, duplicate_file, ok, fail, stuck, ◌>>=◌,
  Dispenser, Readers, required, Gets, Gets-bind, Gets-map, required-Gets, block_next-Gets,
  next_arg-Gets, next-Gets,
}
use frankenphp.Caddy.WorkerConfig.{unmarshal_worker}
use frankenphp.Caddy.WorkerConfigLaws.{IsRead, IsAcceptedBelow, unmarshal_worker-IsAccepted}
use frankenphp.Caddy.FileNames.{DifferBehind, check_file_names_iff}
use frankenphp.Caddy.ModuleConfig.{
  HotReload, PhpModule, ModuleKey, module_key, check_file_names, hot_reload_subdirective,
  hot_reload_block, last_value, module_subdirective, known_module_subdirective, module_block,
  module_segments, unmarshal_module,
}

module _ (t : Dispenser) (r : Readers) where
  abbrev pub AllRead : PhpModule → Type 0
  AllRead m = All (IsRead t r) m.workers

  abbrev pub AllReadBelow : ℕ → PhpModule × t.Position → Type 0
  AllReadBelow n (m, d) = AllRead m × (t.size d ≤ n)

  abbrev pub IsBelow {ℓ} : {A : Type ℓ} → ℕ → A × t.Position → Type 0
  IsBelow n a = t.size a.1 ≤ n

  pub hot_reload_subdirective-Gets :
      (v : Bytes) (h : HotReload) (d : t.Position)
      → Gets (IsBelow (t.size d)) (hot_reload_subdirective t r v h d)
  unfolding hot_reload_subdirective
  hot_reload_subdirective-Gets v h d =
      split (same v (codes "topic")) (same v (codes "watch")) (is_nil (t.remaining_args d).0)
    where
      split :
          (p q e : Bool)
          → Gets (IsBelow (t.size d)) (
              if p
              then (required t d >>= λ (a : Bytes × t.Position). ok (record h { topic = a.0 }, a.1))
              else if q
              then (if e
                  then fail wrong_arguments
                  else ok (
                    record h { watch = h.watch ++ (t.remaining_args d).0 },
                    (t.remaining_args d).1,
                  ))
              else fail (wrong_subdirective v))
      split true q e =
          Gets-bind _ (IsBelow (t.size d)) (required t d) _ (required-Gets t d)
            (λ (a, d') l. omega (arith, l))
      split false true true = tt
      split false true false = t.remaining_args-le d
      split false false e = tt

  pub hot_reload_block-Gets :
      (n : ℕ) (h : HotReload) (d : t.Position)
      → t.size d ≤ n
      → Gets (IsBelow (t.size d)) (hot_reload_block t r n h d)
  unfolding hot_reload_block
  hot_reload_block-Gets zero h d l =
      block_next-Gets t (IsBelow (t.size d)) 1 d (λ d'. ok (h, d')) (λ v d'. stuck) (λ d' k. k)
        (λ v d' k. omega (arith, k, l))
  hot_reload_block-Gets (suc n) h d l =
      block_next-Gets t (IsBelow (t.size d)) 1 d (λ d'. ok (h, d')) _ (λ d' k. k)
        (λ v d' k.
          Gets-bind (IsBelow (t.size d')) (IsBelow (t.size d)) (hot_reload_subdirective t r v h d')
            _ (hot_reload_subdirective-Gets v h d')
            (λ (h', d'') l'.
              Gets-map (IsBelow (t.size d'')) (IsBelow (t.size d)) _
                (λ (h3, d3) l3. omega (arith, l3, l', k))
                (hot_reload_block-Gets n h' d'' (omega (arith, l', l, k)))))

  pub last_value-Gets {ℓ} :
      {A : Type ℓ} (read : Bytes → Option A) (d : t.Position)
      → Gets (IsBelow (t.size d)) (last_value t r read d)
  last_value-Gets {A = A} read d =
      Gets-bind _ (IsBelow (t.size d)) (required t d) _ (required-Gets t d)
        (λ (v, d') l. split d' l (read v))
    where
      split :
          (d' : t.Position)
          → t.size d' < t.size d
          → (o : Option A)
          → Gets (IsBelow (t.size d)) (elim o [
            | none ↦ fail invalid_value
            | some x ↦ elim (t.next_arg d') [ none ↦ ok (x, d') | some more ↦ fail wrong_arguments ]
          ])
      split d' l none = tt
      split d' l (some x) =
          next_arg-Gets t (IsBelow (t.size d)) d' (ok (x, d')) _ (omega (arith, l)) (λ v d'' k. tt)

  pub module_subdirective-Gets :
      (k : ModuleKey) (m : PhpModule) (d : t.Position)
      → AllRead m
      → Gets (AllReadBelow (t.size d)) (module_subdirective t r k m d)
  unfolding module_subdirective
  module_subdirective-Gets ModuleKey.root m d h =
      Gets-bind _ (AllReadBelow (t.size d)) (required t d) _ (required-Gets t d)
        (λ (v, d') l. (h, omega (arith, l)))
  module_subdirective-Gets ModuleKey.split m d h = split (is_nil (t.remaining_args d).0)
    where
      split :
          (b : Bool)
          → Gets (AllReadBelow (t.size d)) (
              if b
              then fail wrong_arguments
              else ok (record m { split_path = (t.remaining_args d).0 }, (t.remaining_args d).1))
      split true = tt
      split false = (h, t.remaining_args-le d)
  module_subdirective-Gets ModuleKey.env m d h = split (t.remaining_args d).0
    where
      split :
          (args : List Bytes)
          → Gets (AllReadBelow (t.size d)) (elim args [
            | k ∷ v ∷ [] ↦ ok (record m { env = put k v m.env }, (t.remaining_args d).1)
            | _ ↦ fail wrong_arguments
          ])
      split (k ∷ v ∷ []) = (h, t.remaining_args-le d)
      split [] = tt
      split (k ∷ []) = tt
      split (k ∷ v ∷ w ∷ ws) = tt
  module_subdirective-Gets ModuleKey.resolve_root_symlink m d h =
      next_arg-Gets t (AllReadBelow (t.size d)) d (ok (m, d)) _ (h, omega arith)
        (λ v d' l.
          Gets-bind (IsBelow (t.size d)) (AllReadBelow (t.size d)) (last_value t r r.parse_bool d) _
            (last_value-Gets r.parse_bool d) (λ (b, d'') k. (h, k)))
  module_subdirective-Gets ModuleKey.name m d h =
      Gets-bind _ (AllReadBelow (t.size d)) (required t d) _ (required-Gets t d)
        (λ (v, d') l. (h, omega (arith, l)))
  module_subdirective-Gets ModuleKey.worker m d h =
      Gets-bind (IsAcceptedBelow t r (t.size d)) (AllReadBelow (t.size d)) (unmarshal_worker t r d)
        _ (unmarshal_worker-IsAccepted t r d)
        (λ (wc, d') ((w, f), l). (All-snoc (IsRead t r) m.workers wc h w, l))
  module_subdirective-Gets ModuleKey.hot_reload m d h =
      Gets-bind (IsBelow (t.size (t.remaining_args d).1)) (AllReadBelow (t.size d)) _ _
        (hot_reload_block-Gets (t.size (t.remaining_args d).1)
          (record { topic = []; watch = (t.remaining_args d).0 }) (t.remaining_args d).1
          (omega arith))
        (λ (x, d') l. (h, omega (arith, l, t.remaining_args-le d)))
  module_subdirective-Gets ModuleKey.request_body_timeout m d h =
      Gets-bind (IsBelow (t.size d)) (AllReadBelow (t.size d))
        (last_value t r r.parse_caddy_duration d) _ (last_value-Gets r.parse_caddy_duration d)
        (λ (n, d') k. (h, k))

  pub known_module_subdirective-Gets :
      (v : Bytes) (m : PhpModule) (d : t.Position)
      → AllRead m
      → Gets (AllReadBelow (t.size d)) (known_module_subdirective t r v m d)
  known_module_subdirective-Gets v m d h = split (module_key v)
    where
      split :
          (o : Option ModuleKey)
          → Gets (AllReadBelow (t.size d)) (elim o [
            | none ↦ fail (wrong_subdirective v)
            | some k ↦ module_subdirective t r k m d
          ])
      split none = tt
      split (some k) = module_subdirective-Gets k m d h

  -- The tokens are fuel enough.
  pub module_block-Gets :
      (n : ℕ) (m : PhpModule) (d : t.Position)
      → t.size d ≤ n
      → AllRead m
      → Gets (AllReadBelow (t.size d)) (module_block t r n m d)
  unfolding module_block
  module_block-Gets zero m d l h =
      block_next-Gets t (AllReadBelow (t.size d)) 0 d (λ d'. ok (m, d')) (λ v d'. stuck)
        (λ d' k. (h, k)) (λ v d' k. omega (arith, k, l))
  module_block-Gets (suc n) m d l h =
      block_next-Gets t (AllReadBelow (t.size d)) 0 d (λ d'. ok (m, d')) _ (λ d' k. (h, k))
        (λ v d' k.
          Gets-bind (AllReadBelow (t.size d')) (AllReadBelow (t.size d))
            (known_module_subdirective t r v m d') _ (known_module_subdirective-Gets v m d' h)
            (λ (m', d'') (h', l').
              Gets-map (AllReadBelow (t.size d'')) (AllReadBelow (t.size d)) _
                (λ (m3, d3) (h3, l3). (h3, omega (arith, l3, l', k)))
                (module_block-Gets n m' d'' (omega (arith, l', l, k)) h')))

  pub module_segments-Gets :
      (n : ℕ) (m : PhpModule) (d : t.Position)
      → t.size d ≤ n
      → AllRead m
      → Gets AllRead (module_segments t r n m d)
  unfolding module_segments
  module_segments-Gets zero m d l h =
      next-Gets t AllRead d (ok m) (λ v. stuck) h (λ v d' k. omega (arith, k, l))
  module_segments-Gets (suc n) m d l h = next-Gets t AllRead d (ok m) _ h (λ v d' k.
      Gets-bind (AllReadBelow (t.size d')) AllRead (module_block t r (t.size d') m d') _
        (module_block-Gets (t.size d') m d' (omega arith) h)
        (λ (m', d'') (h', l'). module_segments-Gets n m' d'' (omega (arith, l', l, k)) h'))

  -- The php directive is read to an end on any tokens, from a module on whose workers are. Where it is
  -- accepted, each worker has what the worker directive gives, and none stands behind one of the same
  -- file that has no paths to match.
  pub unmarshal_module-AllRead :
      (m : PhpModule) (d : t.Position)
      → AllRead m
      → Gets (λ m'. AllRead m' × DifferBehind m'.workers) (unmarshal_module t r m d)
  unfolding unmarshal_module
  unmarshal_module-AllRead m d h =
      Gets-bind AllRead (λ m'. AllRead m' × DifferBehind m'.workers)
        (module_segments t r (t.size d) m d) _ (module_segments-Gets (t.size d) m d (omega arith) h)
        (λ m' h'. split m' h' (check_file_names [] m'.workers) refl)
    where
      split :
          (m' : PhpModule)
          → AllRead m'
          → (o : Option Bytes) → check_file_names [] m'.workers ≡ o
          → Gets
              (λ a. AllRead a × DifferBehind a.workers)
              (elim o [ none ↦ ok m' | some f ↦ fail (duplicate_file f) ])
      split m' h' none e = (h', (check_file_names_iff m'.workers).0 e)
      split m' h' (some f) e = tt
