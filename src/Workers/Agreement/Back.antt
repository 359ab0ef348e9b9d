-- ===== src/Workers/Agreement/Back.antt =====
-- worker.go and frankenphp.go: what `Validate` accepts, the first loop of `initWorkers` accepts.
use frankenphp.Base.{
  ◌≡◌, refl, sym, ap, ◌∙◌, Bool, true, ◌||◌, List, [], ◌∷◌, Option, none, some, arith, ◌⊎◌, inl,
  inr, Bool-cases, Option-cases,
}
use mathlib.Core.Path.{subst}
use frankenphp.Text.{Bytes, same}
use frankenphp.Text.Laws.{same_eq, same_refl}
use frankenphp.Workers.Declaration.{
  Declaration, Checked, ok, Scope, Names, Paths, add_name, check_worker_declaration,
  resolve_worker_file, validate_workers,
}
use frankenphp.Workers.Registry.{
  Registry, taken_names, taken_paths, add_worker, register, new_worker, init_workers, put_paths,
  put_matching, put_server, listed,
}
use frankenphp.Workers.Agreement.Round.{
  check_mono, noted, takes, checked_global, Checked-cases, register-names, register-paths,
}

module _ (fast_abs eval_symlinks : Bytes → Option Bytes) (stat : Bytes → Bool) where
  abbrev resolve : Declaration → Checked Declaration
  resolve = resolve_worker_file fast_abs eval_symlinks stat

  -- The file that a path leads to.
  abbrev pub resolved : Bytes → Option Bytes
  resolved p = elim (eval_symlinks p) [ none ↦ none | some q ↦ fast_abs q ]

  -- A path whose absolute form is a resolved path leads to that path.
  abbrev pub IsCanonical : Type 0
  IsCanonical =
      (p q d f : Bytes) → fast_abs p ≡ some d → resolved p ≡ some f → resolved q ≡ some d → f ≡ d

  resolved_lem :
      (o w : Declaration)
      → resolve o ≡ ok w
      → (fast_abs o.file_name ≡ some w.declared_file_name)
        × (resolved o.file_name ≡ some w.file_name)
  unfolding resolve_worker_file
  resolved_lem o w h = elim (Option-cases (fast_abs o.file_name)) [
    | inl e ↦ absurd (ground (arith, e, h))
    | inr (d, e) ↦ elim (Option-cases (eval_symlinks o.file_name)) [
      | inl k ↦ absurd (ground (arith, e, k, h))
      | inr (q, k) ↦ elim (Option-cases (fast_abs q)) [
        | inl l ↦ absurd (ground (arith, e, k, l, h))
        | inr (f, l) ↦ ground (arith, e, k, l, h)
      ]
    ]
  ]

  -- A path that the maps hold is noted, or it is the declared path of a worker whose file is.
  abbrev Accounted : Paths → Scope → Bytes → Type 0
  Accounted paths s p =
      (paths s p ≡ true)
      ⊎ ((q f : Bytes) × (fast_abs q ≡ some p) × (resolved q ≡ some f) × (paths s f ≡ true))

  abbrev pub AccountsFor : Names → Paths → Registry → Type 0
  AccountsFor names paths r =
      ((n : Bytes) → taken_names r n ≡ true → names n ≡ true)
      × ((s : Scope) (p : Bytes) → taken_paths r s p ≡ true → Accounted paths s p)

  check-Accounted :
      (canonical : IsCanonical) (o w : Declaration) (names : Names) (paths : Paths) (r : Registry)
      → resolve o ≡ ok w
      → AccountsFor names paths r
      → taken_paths r w.server w.file_name ≡ true
      → paths w.server w.file_name ≡ true
  check-Accounted canonical o w names paths r e (vn, vp) h = elim (vp w.server w.file_name h) [
    | inl k ↦ k
    | inr (q, f, d, g, k) ↦
        subst (λ x. paths w.server x ≡ true)
          (canonical q o.file_name w.file_name f d g (resolved_lem o w e).1) k
  ]

  takes-Accounted :
      (o w : Declaration) (paths : Paths) (s : Scope) (p : Bytes)
      → resolve o ≡ ok w
      → takes w s p ≡ true
      → Accounted (noted w paths) s p
  takes-Accounted o w paths s p e h = elim (Bool-cases (same p w.file_name)) [
    | inl k ↦ inl (ground (arith, h, k))
    | inr k ↦ inr (
      o.file_name,
      w.file_name,
      (resolved_lem o w e).0
          ∙ ap some (sym (same_eq p w.declared_file_name (ground (arith, h, k)))),
      (resolved_lem o w e).1,
      ground (arith, h, same_refl w.file_name),
    )
  ]

  noted-AccountsFor :
      (o w : Declaration) (names : Names) (paths : Paths) (r r1 : Registry)
      → resolve o ≡ ok w
      → ((n : Bytes) → taken_names r1 n ≡ (same n w.name || taken_names r n))
      → ((s : Scope) (p : Bytes) → taken_paths r1 s p ≡ (takes w s p || taken_paths r s p))
      → AccountsFor names paths r
      → AccountsFor (add_name w.name names) (noted w paths) r1
  noted-AccountsFor o w names paths r r1 e en ep (vn, vp) = (
    λ n h. ground (arith, en n, vn n, h),
    λ s p h. elim (Bool-cases (takes w s p)) [
      | inl k ↦ takes-Accounted o w paths s p e k
      | inr k ↦ elim (vp s p (ground (arith, ep s p, k, h))) [
        | inl l ↦ inl (ground (arith, l))
        | inr (q, f, a, b, l) ↦ inr (q, f, a, b, ground (arith, l))
      ]
    ],
  )

  register_total :
      (w : Declaration) (r : Registry)
      → check_worker_declaration w (taken_names r) (taken_paths r) ≡ none
      → (r1 : Registry) × (register w r ≡ ok r1)
  unfolding register add_worker check_worker_declaration
  register_total w r c = elim (Option-cases w.server) [
    | inl e ↦ (put_paths w (listed w r), ground (arith, e))
    | inr (s, e) ↦ elim (Bool-cases w.has_matcher) [
      | inl m ↦ (put_matching s w (put_server s w (listed w r)), ground (arith, e, m))
      | inr m ↦ (put_paths w (put_server s w (listed w r)), ground (arith, e, m, c))
    ]
  ]

  init_round :
      (o : Declaration) (os : List Declaration) (r : Registry) (w : Declaration) (r1 : Registry)
      → resolve o ≡ ok w
      → check_worker_declaration w (taken_names r) (taken_paths r) ≡ none
      → register w r ≡ ok r1
      → init_workers fast_abs eval_symlinks stat (o ∷ os) r
        ≡ init_workers fast_abs eval_symlinks stat os r1
  unfolding init_workers new_worker
  init_round o os r w r1 e c g = ground (arith, e, c, g)

  validated_step :
      (o : Declaration) (os : List Declaration) (names : Names) (paths : Paths)
      → validate_workers fast_abs eval_symlinks stat (o ∷ os) names paths ≡ none
      → (w : Declaration) × (resolve o ≡ ok w)
        × (check_worker_declaration w names paths ≡ none)
        × (validate_workers fast_abs eval_symlinks stat os (add_name w.name names) (noted w paths)
            ≡ none)
  unfolding validate_workers
  validated_step o os names paths h = elim (Checked-cases (resolve o)) [
    | inl (e, k) ↦ absurd (ground (arith, k, h))
    | inr (w, k) ↦ elim (Option-cases (check_worker_declaration w names paths)) [
      | inl c ↦ (w, k, c, ground (arith, k, c, h))
      | inr (e, c) ↦ absurd (ground (arith, k, c, h))
    ]
  ]

  -- Where resolved paths are canonical, what `Validate` accepts the first loop of `initWorkers`
  -- accepts, from maps whose entries `Validate` has noted.
  pub init_workers-validate :
      (canonical : IsCanonical) (os : List Declaration) (r : Registry) (names : Names)
      (paths : Paths)
      → AccountsFor names paths r
      → validate_workers fast_abs eval_symlinks stat os names paths ≡ none
      → (r' : Registry) × (init_workers fast_abs eval_symlinks stat os r ≡ ok r')
  init_workers-validate canonical [] r names paths v h = (r, unfold init_workers in refl)
  init_workers-validate canonical (o ∷ os) r names paths v h =
      let (w, e, c, rest) = validated_step o os names paths h in
      let c' =
        check_mono w (taken_names r) names (taken_paths r) paths (v.0 w.name)
          (check-Accounted canonical o w names paths r e v) c in
      let (r1, g) = register_total w r c' in
      let global = checked_global w names paths c in
      let v' =
        noted-AccountsFor o w names paths r r1 e (register-names w r g global)
          (register-paths w r g global) v in
      let (r', k) =
        init_workers-validate canonical os r1 (add_name w.name names) (noted w paths) v' rest in
      (r', init_round o os r w r1 e c' g ∙ k)
