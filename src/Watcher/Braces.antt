-- ===== src/Watcher/Braces.antt =====
-- internal/watcher/pattern.go, `expandCurlyBraces`.
use frankenphp.Base.{
  ℕ, zero, suc, ◌+◌, ◌≤◌, ◌<◌, ◌≡◌, refl, List, [], ◌∷◌, ◌++◌, ◌==◌, Option, none, some, length,
  arith, length-append, All, inl, inr, Option-cases, Bool-cases,
}
use frankenphp.Text.{Bytes, cut, split_on, cons_head}

-- The parts around the first `{ }`: before, inside and after.
unfoldable pub braces : Bytes → Option (Bytes × Bytes × Bytes)
braces s = elim (cut b'{' s) [
  | none ↦ none
  | some (before, rest) ↦ elim (cut b'}' rest) [
    | none ↦ none
    | some (inside, after) ↦ some (before, inside, after)
  ]
]

-- The loop over the alternatives: appends what each of them expands to.
unfoldable pub expand_each :
    (Bytes → Option (List Bytes)) → Bytes → Bytes → List Bytes → Option (List Bytes)
expand_each expand before after [] = some []
expand_each expand before after (sub ∷ subs) =
    let rest = expand_each expand before after subs in
    elim (expand (before ++ (sub ++ after))) [
      | none ↦ none
      | some out ↦ elim rest [ none ↦ none | some outs ↦ some (out ++ outs) ]
    ]

-- On fuel; `none` means that it ran out.
unfoldable pub expand_fuel : ℕ → Bytes → Option (List Bytes)
expand_fuel zero s = none
expand_fuel (suc fuel) s = elim (braces s) [
  | none ↦ some (s ∷ [])
  | some (before, inside, after) ↦
      expand_each (expand_fuel fuel) before after (split_on b',' inside)
]

-- `expandCurlyBraces`: each round makes the text shorter.
unfoldable pub expand_curly_braces : Bytes → Option (List Bytes)
unfolding expand_fuel expand_each braces
expand_curly_braces s = expand_fuel (suc (length s)) s

-- Cutting takes the text apart.
pub cut_parts :
    (sep : ℕ) (s : Bytes) {before after : Bytes}
    → cut sep s ≡ some (before, after)
    → length before + length after + 1 ≡ length s
unfolding cut
cut_parts sep [] h = absurd (ground arith)
cut_parts sep (c ∷ s) h = elim (Bool-cases (c == sep)) [
  | inl e ↦ ground arith
  | inr e ↦ elim (Option-cases (cut sep s)) [
    | inl n ↦ absurd (ground arith)
    | inr ((b, a), k) ↦ ground (arith, cut_parts sep s k)
  ]
]

braces_shorter :
    (s : Bytes) {before inside after : Bytes}
    → braces s ≡ some (before, inside, after)
    → length before + length inside + length after + 2 ≡ length s
unfolding braces
braces_shorter s h = elim (Option-cases (cut b'{' s)) [
  | inl n ↦ absurd (ground arith)
  | inr ((b, r), k) ↦ elim (Option-cases (cut b'}' r)) [
    | inl n ↦ absurd (ground arith)
    | inr ((i, a), k') ↦ ground (arith, cut_parts b'{' s k, cut_parts b'}' r k')
  ]
]

length-cons_head-le :
    (n c : ℕ) (ss : List Bytes)
    → All (λ t. length t ≤ n) ss
    → All (λ t. length t ≤ suc n) (cons_head c ss)
length-cons_head-le n c [] h = (omega arith, tt)
length-cons_head-le n c (s ∷ ss) (h, hs) = (omega arith, go ss hs)
  where
    go : (ts : List Bytes) → All (λ t. length t ≤ n) ts → All (λ t. length t ≤ suc n) ts
    go [] k = tt
    go (t ∷ ts) (k, ks) = (omega arith, go ts ks)

All-weaken : (n : ℕ) (ts : List Bytes) → All (λ t. length t ≤ n) ts → All (λ t. length t ≤ suc n) ts
All-weaken n [] k = tt
All-weaken n (t ∷ ts) (k, ks) = (omega arith, All-weaken n ts ks)

-- A piece is no longer than the text.
split_on-le : (sep : ℕ) (s : Bytes) → All (λ t. length t ≤ length s) (split_on sep s)
unfolding split_on
split_on-le sep [] = (omega arith, tt)
split_on-le sep (c ∷ s) = elim (Bool-cases (c == sep)) [
  | inl h ↦ rw h (omega arith, All-weaken (length s) (split_on sep s) (split_on-le sep s))
  | inr h ↦ rw h (length-cons_head-le (length s) c (split_on sep s) (split_on-le sep s))
]

module _ (expand : Bytes → Option (List Bytes)) (before after sub : Bytes) (subs : List Bytes) where
  expand_each_step :
      {out outs : List Bytes}
      → expand (before ++ (sub ++ after)) ≡ some out
      → expand_each expand before after subs ≡ some outs
      → expand_each expand before after (sub ∷ subs) ≡ some (out ++ outs)
  unfolding expand_each
  expand_each_step h k = ground arith

expand_each-total :
    (expand : Bytes → Option (List Bytes)) (before after : Bytes) (n : ℕ) (subs : List Bytes)
    → ((t : Bytes)
        → length t ≤ length before + n + length after
        → (out : List Bytes) × (expand t ≡ some out))
    → All (λ t. length t ≤ n) subs
    → (out : List Bytes) × (expand_each expand before after subs ≡ some out)
unfolding expand_each
expand_each-total expand before after n [] ok h = ([], refl)
expand_each-total expand before after n (sub ∷ subs) ok (h, hs) =
    let (out, e) =
      ok (before ++ (sub ++ after))
        (omega (arith, length-append {0} before (sub ++ after), length-append {0} sub after)) in
    let (outs, es) = expand_each-total expand before after n subs ok hs in
    (out ++ outs, expand_each_step expand before after sub subs e es)

expand_fuel-total :
    (fuel : ℕ) (s : Bytes) → length s < fuel → (out : List Bytes) × (expand_fuel fuel s ≡ some out)
unfolding expand_fuel
expand_fuel-total zero s h = absurd (omega arith)
expand_fuel-total (suc fuel) s h = elim (Option-cases (braces s)) [
  | inl e ↦ (s ∷ [], rw (e, expand_fuel))
  | inr ((before, inside, after), e) ↦
      let (out, k) =
        expand_each-total (expand_fuel fuel) before after (length inside) (split_on b',' inside)
          (λ t le. expand_fuel-total fuel t (omega (arith, braces_shorter s e)))
          (split_on-le b',' inside) in
      (out, rw (e, expand_fuel) k)
]

-- The expansion ends on every pattern, however braces nest or stay open.
pub expand_curly_braces-total :
    (s : Bytes) → (out : List Bytes) × (expand_curly_braces s ≡ some out)
unfolding expand_curly_braces
expand_curly_braces-total s = expand_fuel-total (suc (length s)) s (omega arith)
