-- ===== src/Caddy/WorkerConfigLaws.antt =====
-- caddy/workerconfig.go: what the worker directive lets through.
use frankenphp.Base.{
  ℕ, zero, suc, ◌≤◌, ◌<◌, ◌≡◌, refl, Bool, true, false, List, [], ◌∷◌, ◌++◌, Option, none, some,
  arith, inl, inr, ◌⊎◌, if◌then◌else◌, codes,
}
use frankenphp.Base.Int.{ℤ, pos, negsuc, ltb_ℤ, ◌≤ℤ◌}
use frankenphp.Text.{Bytes, same, is_empty}
use frankenphp.Caddy.Distinct.{put}
use frankenphp.Caddy.Dispenser.{
  wrong_arguments, not_a_number, invalid_value, wrong_subdirective, no_file, invalid_match, ok,
  fail, stuck, ◌>>=◌, Dispenser, Readers, parse_non_negative_int, required, Gets, Gets-bind,
  Gets-map, Gets-if, non_negative-Gets, required-Gets, block_next-Gets, next_arg-Gets,
}
use frankenphp.Caddy.WorkerConfig.{
  WorkerConfig, no_config, WorkerKey, worker_key, worker_subdirective, known_subdirective,
  worker_block, worker_file, worker_number, no_more, located, unmarshal_worker,
  default_watch_pattern,
}

abbrev pub AtLeast : ℤ → Option ℤ → Type 0
AtLeast m none = Unit
AtLeast m (some n) = m ≤ℤ n

module _ (t : Dispenser) (r : Readers) where
  -- What the subdirectives keep of a worker's configuration.
  abbrev pub IsRead : WorkerConfig → Type 0
  IsRead wc =
      (pos 0 ≤ℤ wc.num)
      × ((pos 0 ≤ℤ wc.max_threads)
          × (AtLeast (negsuc 0) wc.max_consecutive_failures
              × ((wc.match_path ≡ [])
                  ⊎ ((ps : List Bytes) × (r.provision ps ≡ some wc.match_path)))))

  -- A configuration, and no more tokens than `n`.
  abbrev pub IsReadBelow : ℕ → WorkerConfig × t.Position → Type 0
  IsReadBelow n (wc, d) = IsRead wc × (t.size d ≤ n)

  pub no_config-IsRead : IsRead no_config
  no_config-IsRead = (ground arith, (ground arith, (tt, inl refl)))

  -- A subdirective of one argument, which is not read further.
  pub one_argument :
      (f : Bytes → WorkerConfig) (d : t.Position)
      → ((v : Bytes) → IsRead (f v))
      → Gets (IsReadBelow (t.size d)) (required t d >>= λ (a : Bytes × t.Position). ok (f a.0, a.1))
  one_argument f d h =
      Gets-bind _ (IsReadBelow (t.size d)) (required t d) _ (required-Gets t d)
        (λ (v, d') l. (h v, omega (arith, l)))

  pub one_number :
      (f : ℤ → WorkerConfig) (d : t.Position)
      → ((n : ℤ) → pos 0 ≤ℤ n → IsRead (f n))
      → Gets (IsReadBelow (t.size d)) (
          required t d >>= λ (a : Bytes × t.Position).
          parse_non_negative_int r a.0 >>= λ n. ok (f n, a.1))
  one_number f d h =
      Gets-bind _ (IsReadBelow (t.size d)) (required t d) _ (required-Gets t d) (λ (v, d') l.
        Gets-bind _ (IsReadBelow (t.size d)) (parse_non_negative_int r v) _ (non_negative-Gets r v)
          (λ n k. (h n k, omega (arith, l))))

  pub worker_subdirective-Gets :
      (k : WorkerKey) (wc : WorkerConfig) (d : t.Position)
      → IsRead wc
      → Gets (IsReadBelow (t.size d)) (worker_subdirective t r k wc d)
  unfolding worker_subdirective
  worker_subdirective-Gets WorkerKey.name wc d h =
      one_argument (λ v. record wc { name = v }) d (λ v. h)
  worker_subdirective-Gets WorkerKey.file wc d h =
      one_argument (λ v. record wc { file_name = v }) d (λ v. h)
  worker_subdirective-Gets WorkerKey.num wc d (a, h) =
      one_number (λ n. record wc { num = n }) d (λ n k. (k, h))
  worker_subdirective-Gets WorkerKey.max_threads wc d (a, (b, h)) =
      one_number (λ n. record wc { max_threads = n }) d (λ n k. (a, (k, h)))
  worker_subdirective-Gets WorkerKey.env wc d h = split (t.remaining_args d).0
    where
      split :
          (args : List Bytes)
          → Gets (IsReadBelow (t.size d)) (elim args [
            | k ∷ v ∷ [] ↦ ok (record wc { env = put k v wc.env }, (t.remaining_args d).1)
            | _ ↦ fail wrong_arguments
          ])
      split (k ∷ v ∷ []) = (h, t.remaining_args-le d)
      split [] = tt
      split (k ∷ []) = tt
      split (k ∷ v ∷ w ∷ ws) = tt
  worker_subdirective-Gets WorkerKey.watch wc d h = (h, t.remaining_args-le d)
  worker_subdirective-Gets WorkerKey.match_ wc d (a, (b, (c, h))) =
      split (r.provision (t.remaining_args d).0) (λ ps e. ((t.remaining_args d).0, e))
    where
      split :
          (o : Option (List Bytes))
          → ((ps : List Bytes) → o ≡ some ps → (qs : List Bytes) × (r.provision qs ≡ some ps))
          → Gets (IsReadBelow (t.size d)) (elim o [
            | none ↦ fail invalid_match
            | some ps ↦ ok (record wc { match_path = ps }, (t.remaining_args d).1)
          ])
      split none k = tt
      split (some ps) k = ((a, (b, (c, inr (k ps refl)))), t.remaining_args-le d)
  worker_subdirective-Gets WorkerKey.max_consecutive_failures wc d (a, (b, (c, h))) =
      Gets-bind _ (IsReadBelow (t.size d)) (required t d) _ (required-Gets t d)
        (λ (v, d') l. split (r.atoi v) d' l)
    where
      split :
          (o : Option ℤ) (d' : t.Position)
          → t.size d' < t.size d
          → Gets (IsReadBelow (t.size d)) (elim o [
            | none ↦ fail not_a_number
            | some n ↦
                if ltb_ℤ n (negsuc 0)
                then fail invalid_value
                else ok (record wc { max_consecutive_failures = some n }, d')
          ])
      split none d' l = tt
      split (some n) d' l =
          Gets-if (IsReadBelow (t.size d)) (ltb_ℤ n (negsuc 0)) _ _
            (λ e. ((a, (b, (ground (arith, e), h))), omega (arith, l)))

  pub known_subdirective-Gets :
      (v : Bytes) (wc : WorkerConfig) (d : t.Position)
      → IsRead wc
      → Gets (IsReadBelow (t.size d)) (known_subdirective t r v wc d)
  known_subdirective-Gets v wc d h = split (worker_key v)
    where
      split :
          (o : Option WorkerKey)
          → Gets (IsReadBelow (t.size d)) (elim o [
            | none ↦ fail (wrong_subdirective v)
            | some k ↦ worker_subdirective t r k wc d
          ])
      split none = tt
      split (some k) = worker_subdirective-Gets k wc d h

  -- The tokens are fuel enough.
  pub worker_block-Gets :
      (n : ℕ) (wc : WorkerConfig) (d : t.Position)
      → t.size d ≤ n
      → IsRead wc
      → Gets (IsReadBelow (t.size d)) (worker_block t r n wc d)
  unfolding worker_block
  worker_block-Gets zero wc d l h =
      block_next-Gets t (IsReadBelow (t.size d)) 1 d (λ d'. ok (wc, d')) (λ v d'. stuck)
        (λ d' k. (h, k)) (λ v d' k. omega (arith, k, l))
  worker_block-Gets (suc n) wc d l h =
      block_next-Gets t (IsReadBelow (t.size d)) 1 d (λ d'. ok (wc, d')) _ (λ d' k. (h, k))
        (λ v d' k.
          Gets-bind (IsReadBelow (t.size d')) (IsReadBelow (t.size d))
            (known_subdirective t r v wc d') _ (known_subdirective-Gets v wc d' h)
            (λ (wc', d'') (h', l').
              Gets-map (IsReadBelow (t.size d'')) (IsReadBelow (t.size d)) _
                (λ (wc3, d3) (h3, l3). (h3, omega (arith, l3, l', k)))
                (worker_block-Gets n wc' d'' (omega (arith, l', l, k)) h')))

  pub worker_file-IsRead : (d : t.Position) → IsReadBelow (t.size d) (worker_file t r d)
  unfolding worker_file
  worker_file-IsRead d = split (t.next_arg d) (t.next_arg-less d)
    where
      split :
          (o : Option (Bytes × t.Position))
          → ((v : Bytes) (d' : t.Position) → o ≡ some (v, d') → t.size d' < t.size d)
          → IsReadBelow (t.size d) (elim o [
            | none ↦ (no_config, d)
            | some (f, d') ↦ (record no_config { file_name = f }, d')
          ])
      split none k = (no_config-IsRead, omega arith)
      split (some (v, d')) k = (no_config-IsRead, omega (arith, k v d' refl))

  pub worker_number-Gets :
      (wc : WorkerConfig) (d : t.Position)
      → IsRead wc
      → Gets (IsReadBelow (t.size d)) (worker_number t r wc d)
  unfolding worker_number
  worker_number-Gets wc d (a, h) =
      next_arg-Gets t (IsReadBelow (t.size d)) d (ok (wc, d)) _ ((a, h), omega arith)
        (λ v d' l. number v d' (same v (codes "watch")) l)
    where
      number :
          (v : Bytes) (d' : t.Position) (b : Bool)
          → t.size d' < t.size d
          → Gets (IsReadBelow (t.size d)) (
              if b
              then ok (record wc { watch = wc.watch ++ default_watch_pattern ∷ [] }, d')
              else parse_non_negative_int r v >>= λ n. ok (record wc { num = n }, d'))
      number v d' true l = ((a, h), omega (arith, l))
      number v d' false l =
          Gets-bind _ (IsReadBelow (t.size d)) (parse_non_negative_int r v) _
            (non_negative-Gets r v) (λ n k. ((k, h), omega (arith, l)))

  -- What a worker's configuration has that is accepted.
  abbrev pub IsAccepted : WorkerConfig → Type 0
  IsAccepted wc =
      IsRead wc × ((f : Bytes) × ((is_empty f ≡ false) × (wc.file_name ≡ r.in_embedded f)))

  abbrev pub IsAcceptedBelow : ℕ → WorkerConfig × t.Position → Type 0
  IsAcceptedBelow n (wc, d) = IsAccepted wc × (t.size d ≤ n)

  pub located-Gets :
      (n : ℕ) (wc : WorkerConfig) (d : t.Position)
      → IsReadBelow n (wc, d)
      → Gets (IsAcceptedBelow n) (located t r wc d)
  unfolding located
  located-Gets n wc d (h, l) =
      Gets-if (IsAcceptedBelow n) (is_empty wc.file_name) no_file _
        (λ e. ((h, (wc.file_name, (e, refl))), l))

  pub no_more-Gets : (d : t.Position) → Gets (λ d'. t.size d' ≤ t.size d) (no_more t r d)
  no_more-Gets d =
      next_arg-Gets t (λ d'. t.size d' ≤ t.size d) d (ok d) _ (omega arith) (λ v d' l. tt)

  -- The worker directive is read to an end on any tokens. Where it is accepted, the numbers are not
  -- negative, `max_consecutive_failures` is at least -1, the paths to match are empty or the matcher's,
  -- and the file is one that was given, put into the embedded application; tokens are only consumed.
  pub unmarshal_worker-IsAccepted :
      (d : t.Position) → Gets (IsAcceptedBelow (t.size d)) (unmarshal_worker t r d)
  unfolding unmarshal_worker
  unmarshal_worker-IsAccepted d =
      let (h1, l1) = worker_file-IsRead d in
      Gets-bind (IsReadBelow (t.size (worker_file t r d).1)) (IsAcceptedBelow (t.size d)) _ _
        (worker_number-Gets _ _ h1)
        (λ (wc2, d2) (h2, l2).
          Gets-bind (λ d3. t.size d3 ≤ t.size d2) (IsAcceptedBelow (t.size d)) _ _ (no_more-Gets d2)
            (λ d3 l3.
              Gets-bind (IsReadBelow (t.size d3)) (IsAcceptedBelow (t.size d)) _ _
                (worker_block-Gets (t.size d3) wc2 d3 (omega arith) h2)
                (λ (wc4, d4) (h4, l4).
                  located-Gets (t.size d) wc4 d4 (h4, omega (arith, l1, l2, l3, l4)))))
