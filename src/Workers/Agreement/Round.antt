-- ===== src/Workers/Agreement/Round.antt =====
-- worker.go: one round of the checks against one registration.
use frankenphp.Base.{
  ℕ, ◌≡◌, refl, sym, ap, Bool, true, false, not, ◌&&◌, ◌||◌, if◌then◌else◌, Option, none, some,
  arith, ◌⊎◌, inl, inr, Bool-cases, Option-cases,
}
use mathlib.Core.Path.{subst}
use frankenphp.Text.{Bytes, same}
use frankenphp.Workers.Declaration.{
  Declaration, DeclError, Checked, ok, fail, ◌>>=◌, Scope, same_scope, Names, Paths, add_name,
  add_path, check_worker_declaration,
}
use frankenphp.Workers.Registry.{
  Registry, is_some, taken_names, taken_paths, add_worker, register, put_paths, put_matching,
  put_server, listed,
}

-- What is taken for `Validate` is taken in the maps.
abbrev pub Within : Names → Paths → Registry → Type 0
Within names paths r =
    ((n : Bytes) → names n ≡ true → taken_names r n ≡ true)
    × ((s : Scope) (p : Bytes) → paths s p ≡ true → taken_paths r s p ≡ true)

pub check_mono :
    (w : Declaration) (names names' : Names) (paths paths' : Paths)
    → (names w.name ≡ true → names' w.name ≡ true)
    → (paths w.server w.file_name ≡ true → paths' w.server w.file_name ≡ true)
    → check_worker_declaration w names' paths' ≡ none
    → check_worker_declaration w names paths ≡ none
unfolding check_worker_declaration
check_mono w names names' paths paths' hn hp h = elim (Option-cases w.server) [
  | inl e ↦
      ground
        (arith, e, hn, subst (λ s. paths s w.file_name ≡ true → paths' s w.file_name ≡ true) e hp)
  | inr (s, e) ↦
      ground
        (arith, e, hn, subst (λ s. paths s w.file_name ≡ true → paths' s w.file_name ≡ true) e hp)
]

abbrev pub noted : Declaration → Paths → Paths
noted w paths = if w.has_matcher then paths else add_path w.server w.file_name paths

pub ok_eq {ℓ} : {A : Type ℓ} {a b : A} → ok a ≡ ok b → a ≡ b
ok_eq h = cc

-- A registered worker stands in the list, and its paths in the map unless requests are matched to it.
pub register_cases :
    (w : Declaration) (r : Registry) {r' : Registry}
    → register w r ≡ ok r'
    → (w.server ≡ none → w.has_matcher ≡ false)
    → ((w.has_matcher ≡ false) × (r' ≡ put_paths w (listed w r)))
      ⊎ ((w.has_matcher ≡ false) × (s : ℕ) × (r' ≡ put_paths w (put_server s w (listed w r))))
      ⊎ ((w.has_matcher ≡ true) × (s : ℕ) × (r' ≡ put_matching s w (put_server s w (listed w r))))
unfolding register add_worker
register_cases w r h g = elim (Option-cases w.server) [
  | inl e ↦ inl (g e, sym (ok_eq (ground (arith, e, h))))
  | inr (s, e) ↦ elim (Bool-cases w.has_matcher) [
    | inl m ↦ inr (inr (m, s, sym (ok_eq (ground (arith, e, m, h)))))
    | inr m ↦ elim (Bool-cases (is_some (r.by_path (some s) w.file_name))) [
      | inl k ↦ absurd (ground (arith, e, m, k, h))
      | inr k ↦ inr (inl (m, s, sym (ok_eq (ground (arith, e, m, k, h)))))
    ]
  ]
]

pub same_scope_eq : (s t : Scope) → same_scope s t ≡ true → s ≡ t
same_scope_eq none none h = refl
same_scope_eq (some a) (some b) h = ap some (ground arith)
same_scope_eq none (some b) h = cc
same_scope_eq (some a) none h = cc

-- What registering takes.
abbrev pub takes : Declaration → Scope → Bytes → Bool
takes w s p =
    not w.has_matcher
    && (same_scope s w.server && (same p w.declared_file_name || same p w.file_name))

module _ (w : Declaration) (r : Registry) {r' : Registry} (registered : register w r ≡ ok r')
    (global : w.server ≡ none → w.has_matcher ≡ false) where
  pub register-names : (n : Bytes) → taken_names r' n ≡ (same n w.name || taken_names r n)
  register-names n = elim (register_cases w r registered global) [
    | inl (m, e) ↦ ground (arith, ap (λ t. taken_names t n) e)
    | inr (inl (m, s, e)) ↦ ground (arith, ap (λ t. taken_names t n) e)
    | inr (inr (m, s, e)) ↦ ground (arith, ap (λ t. taken_names t n) e)
  ]

  pub register-paths :
      (s : Scope) (p : Bytes) → taken_paths r' s p ≡ (takes w s p || taken_paths r s p)
  register-paths s p = elim (register_cases w r registered global) [
    | inl (m, e) ↦ ground (arith, m, ap (λ t. taken_paths t s p) e)
    | inr (inl (m, t, e)) ↦ ground (arith, m, ap (λ t. taken_paths t s p) e)
    | inr (inr (m, t, e)) ↦ ground (arith, m, ap (λ t. taken_paths t s p) e)
  ]

-- A declaration that passes the checks has no matcher without a server.
pub checked_global :
    (w : Declaration) (names : Names) (paths : Paths)
    → check_worker_declaration w names paths ≡ none
    → w.server ≡ none
    → w.has_matcher ≡ false
unfolding check_worker_declaration
checked_global w names paths h e = ground (arith, e, h)

pub add_name-Within :
    (w : Declaration) (names : Names) (r r' : Registry)
    → ((n : Bytes) → taken_names r' n ≡ (same n w.name || taken_names r n))
    → ((n : Bytes) → names n ≡ true → taken_names r n ≡ true)
    → (n : Bytes) → add_name w.name names n ≡ true
    → taken_names r' n ≡ true
add_name-Within w names r r' e h n k = ground (arith, e n, h n)

pub noted-Within :
    (w : Declaration) (paths : Paths) (r r' : Registry)
    → ((s : Scope) (p : Bytes) → taken_paths r' s p ≡ (takes w s p || taken_paths r s p))
    → ((s : Scope) (p : Bytes) → paths s p ≡ true → taken_paths r s p ≡ true)
    → (s : Scope) (p : Bytes) → noted w paths s p ≡ true
    → taken_paths r' s p ≡ true
noted-Within w paths r r' e h s p k = ground (arith, e s p, h s p)

pub bind_ok {ℓ κ} :
    {A : Type ℓ} {B : Type κ} (m : Checked A) (f : A → Checked B) {b : B}
    → (m >>= f) ≡ ok b
    → (a : A) × (m ≡ ok a) × (f a ≡ ok b)
bind_ok (ok a) f h = (a, refl, h)
bind_ok (fail e) f h = cc

pub Checked-cases {ℓ} :
    {A : Type ℓ} (m : Checked A) → ((e : DeclError) × (m ≡ fail e)) ⊎ ((a : A) × (m ≡ ok a))
Checked-cases (ok a) = inr (a, refl)
Checked-cases (fail e) = inl (e, refl)

pub checked_ok :
    {w w' : Declaration} (c : Option DeclError)
    → (elim c [ some e ↦ fail e | none ↦ ok w ]) ≡ ok w'
    → (c ≡ none) × (w ≡ w')
checked_ok none h = (refl, ok_eq h)
checked_ok (some e) h = cc
