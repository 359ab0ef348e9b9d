-- ===== src/Workers/Agreement/Forth.antt =====
-- worker.go and frankenphp.go: what the first loop of `initWorkers` accepts, `Validate` accepts.
use frankenphp.Base.{◌≡◌, refl, sym, ◌∙◌, Bool, List, [], ◌∷◌, Option, none, arith}
use mathlib.Core.Path.{subst}
use frankenphp.Text.{Bytes}
use frankenphp.Workers.Declaration.{
  Declaration, Checked, ok, Names, Paths, add_name, check_worker_declaration, resolve_worker_file,
  validate_workers,
}
use frankenphp.Workers.Registry.{
  Registry, taken_names, taken_paths, register, new_worker, init_workers,
}
use frankenphp.Workers.Agreement.Round.{
  Within, check_mono, noted, checked_global, add_name-Within, noted-Within, bind_ok, checked_ok,
  register-names, register-paths,
}

module _ (fast_abs eval_symlinks : Bytes → Option Bytes) (stat : Bytes → Bool) where
  abbrev resolve : Declaration → Checked Declaration
  resolve = resolve_worker_file fast_abs eval_symlinks stat

  -- One round of `initWorkers` that goes on.
  init_step :
      (o : Declaration) (os : List Declaration) (r : Registry) {r' : Registry}
      → init_workers fast_abs eval_symlinks stat (o ∷ os) r ≡ ok r'
      → (w : Declaration) × (r1 : Registry) × (resolve o ≡ ok w)
        × (check_worker_declaration w (taken_names r) (taken_paths r) ≡ none)
        × (register w r ≡ ok r1)
        × (init_workers fast_abs eval_symlinks stat os r1 ≡ ok r')
  unfolding init_workers new_worker
  init_step o os r h =
      let (w, e, k) = bind_ok (new_worker fast_abs eval_symlinks stat o r) _ h in
      let (w', e', k') = bind_ok (resolve o) _ e in
      let (c, same_w) =
        checked_ok (check_worker_declaration w' (taken_names r) (taken_paths r)) k' in
      let (r1, g, rest) = bind_ok (register w r) _ k in
      (w', r1, e', c, subst (λ (x : Declaration). register x r ≡ ok r1) (sym same_w) g, rest)

  validated :
      (o : Declaration) (os : List Declaration) (names : Names) (paths : Paths) {w : Declaration}
      → resolve o ≡ ok w
      → check_worker_declaration w names paths ≡ none
      → validate_workers fast_abs eval_symlinks stat (o ∷ os) names paths
        ≡ validate_workers fast_abs eval_symlinks stat os (add_name w.name names) (noted w paths)
  unfolding validate_workers
  validated o os names paths e c = ground (arith, e, c)

  -- What `Init` accepts, from maps that hold at least what `Validate` has noted, `Validate` accepts.
  pub validate_workers-init :
      (os : List Declaration) (r : Registry) (names : Names) (paths : Paths) {r' : Registry}
      → Within names paths r
      → init_workers fast_abs eval_symlinks stat os r ≡ ok r'
      → validate_workers fast_abs eval_symlinks stat os names paths ≡ none
  validate_workers-init [] r names paths v h = unfold validate_workers in refl
  validate_workers-init (o ∷ os) r names paths (vn, vp) h =
      let (w, r1, e, c, g, rest) = init_step o os r h in
      let global = checked_global w (taken_names r) (taken_paths r) c in
      validated o os names paths e (
        check_mono w names (taken_names r) paths (taken_paths r) (vn w.name)
          (vp w.server w.file_name) c)
      ∙ validate_workers-init os r1 (add_name w.name names) (noted w paths)
          (
            add_name-Within w names r r1 (register-names w r g global) vn,
            noted-Within w paths r r1 (register-paths w r g global) vp,
          )
          rest
