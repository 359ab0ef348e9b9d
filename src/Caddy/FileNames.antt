-- ===== src/Caddy/FileNames.antt =====
-- caddy/module.go: the workers of one directive that may have the same file.
use frankenphp.Base.{
  ◌≡◌, refl, ◌↔◌, ◌⊎◌, inl, inr, Bool, true, false, List, [], ◌∷◌, is_nil, All, none, some, arith,
  if◌then◌else◌,
}
use frankenphp.Text.{Bytes, same}
use frankenphp.Caddy.Distinct.{has}
use frankenphp.Caddy.WorkerConfig.{WorkerConfig}
use frankenphp.Caddy.ModuleConfig.{check_file_names}

-- No worker stands behind one of the same file that has no paths to match.
abbrev pub DifferBehind : List WorkerConfig → Type 0
DifferBehind [] = Unit
DifferBehind (w ∷ ws) =
    ((is_nil w.match_path ≡ false)
      ⊎ All (λ (v : WorkerConfig). same w.file_name v.file_name ≡ false) ws)
    × DifferBehind ws

abbrev pub AreFree : List Bytes → List WorkerConfig → Type 0
AreFree taken ws = All (λ (w : WorkerConfig). has w.file_name taken ≡ false) ws

pub free_behind :
    (f : Bytes) (taken : List Bytes) (ws : List WorkerConfig)
    → AreFree (f ∷ taken) ws
      ↔ (AreFree taken ws × All (λ (v : WorkerConfig). same f v.file_name ≡ false) ws)
free_behind f taken [] = (λ h. (tt, tt), λ h. tt)
free_behind f taken (w ∷ ws) =
    let (to, from) = free_behind f taken ws in
    (
      λ (h, hs). ((ground (arith, h), (to hs).0), (ground (arith, h), (to hs).1)),
      λ ((h, hs), (k, ks)). (ground (arith, h, k), from (hs, ks)),
    )

pub check_file_names_free :
    (taken : List Bytes) (ws : List WorkerConfig)
    → (check_file_names taken ws ≡ none) ↔ (AreFree taken ws × DifferBehind ws)
unfolding check_file_names
check_file_names_free taken [] = (λ h. (tt, tt), λ h. refl)
check_file_names_free taken (w ∷ ws) =
    split (is_nil w.match_path) (has w.file_name taken)
      (check_file_names_free (w.file_name ∷ taken) ws) (check_file_names_free taken ws)
  where
    f : Bytes
    f = w.file_name

    split :
        (p q : Bool)
        → (check_file_names (f ∷ taken) ws ≡ none) ↔ (AreFree (f ∷ taken) ws × DifferBehind ws)
        → (check_file_names taken ws ≡ none) ↔ (AreFree taken ws × DifferBehind ws)
        → ((if q then some f else check_file_names (if p then f ∷ taken else taken) ws) ≡ none) ↔ (
            ((q ≡ false) × AreFree taken ws)
            × (((p ≡ false) ⊎ All (λ (v : WorkerConfig). same f v.file_name ≡ false) ws)
                × DifferBehind ws))
    split p true plain matched =
        (λ e. absurd (ground (arith, e)), λ ((h, hs), k). absurd (ground (arith, h)))
    split true false (to, from) matched = (
      λ e.
          let (h, k) = to e in
          let (hs, ks) = (free_behind f taken ws).0 h in ((refl, hs), (inr ks, k)),
      λ ((h, hs), (c, k)). elim c [
        | inl e ↦ absurd (ground (arith, e))
        | inr ks ↦ from ((free_behind f taken ws).1 (hs, ks), k)
      ],
    )
    split false false plain (to, from) =
        (λ e. ((refl, (to e).0), (inl refl, (to e).1)), λ ((h, hs), (c, k)). from (hs, k))

-- The check of the files accepts a list of workers exactly where no worker stands behind one of the
-- same file that has no paths to match; one that stands before it is let through, if it has paths.
pub check_file_names_iff :
    (ws : List WorkerConfig) → (check_file_names [] ws ≡ none) ↔ DifferBehind ws
check_file_names_iff ws =
    let (to, from) = check_file_names_free [] ws in (λ e. (to e).1, λ h. from (all_free ws, h))
  where
    all_free : (ws : List WorkerConfig) → AreFree [] ws
    all_free [] = tt
    all_free (w ∷ ws) = (refl, all_free ws)
