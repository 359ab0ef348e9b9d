-- ===== src/Caddy/NamesLaws.antt =====
-- caddy/app.go: the worker names that `createUniqueWorkerName` gives.
use frankenphp.Base.{
  ℕ, zero, suc, ◌+◌, ◌≤◌, ◌<◌, ◌≡◌, ◌≢◌, sym, true, false, not, List, [], ◌∷◌, ◌++◌, keep, none,
  some, if◌then◌else◌, length, arith, inl, inr, ◌⊎◌, Bool-cases, Option-cases,
}
use mathlib.Core.Path.{subst}
use frankenphp.Text.{Bytes, same, is_empty}
use frankenphp.Text.Laws.{same_eq}
use frankenphp.Caddy.Distinct.{has}
use frankenphp.Caddy.Names.{postfixed, qualified, find_name, create_unique_worker_name}

-- The others.
abbrev pub without : Bytes → List Bytes → List Bytes
without x xs = keep (λ y. not (same y x)) xs

pub length-without_le : (x : Bytes) (xs : List Bytes) → length (without x xs) ≤ length xs
length-without_le x [] = omega arith
length-without_le x (y ∷ xs) = ground (arith, length-without_le x xs)

pub length-without :
    (x : Bytes) (xs : List Bytes) → has x xs ≡ true → length (without x xs) < length xs
length-without x [] h = ground (arith, h)
length-without x (y ∷ xs) h = elim (Bool-cases (same y x)) [
  | inl e ↦ ground (arith, e, length-without_le x xs)
  | inr e ↦ ground (arith, e, h, length-without x xs)
]

pub has-without :
    (x y : Bytes) (xs : List Bytes)
    → has y xs ≡ true
    → same x y ≡ false
    → has y (without x xs) ≡ true
has-without x y [] h k = ground (arith, h)
has-without x y (z ∷ xs) h k = elim (Bool-cases (same z x)) [
  | inl e ↦
      let eq : z ≡ x = same_eq z x e in
      let ne : same z y ≡ false = subst (λ w. same w y ≡ false) (sym eq) k in
      ground (arith, e, ne, h, has-without x y xs)
  | inr e ↦ ground (arith, e, h, k, has-without x y xs)
]

pub append-inj : (base : Bytes) (xs ys : Bytes) → base ++ xs ≡ base ++ ys → xs ≡ ys
append-inj [] xs ys e = e
append-inj (b ∷ base) xs ys e = append-inj base xs ys (cc e)

-- As many different names as are all used are no more than the names used.
pub pigeonhole :
    (f : ℕ → Bytes)
    → ((m n : ℕ) → f m ≡ f n → m ≡ n)
    → (n k : ℕ) (used : List Bytes) → ((i : ℕ) → k ≤ i → i < k + n → has (f i) used ≡ true)
    → n ≤ length used
pigeonhole f inj zero k used h = omega arith
pigeonhole f inj (suc n) k used h =
    let here : has (f k) used ≡ true = h k (omega arith) (omega arith) in
    let rest : n ≤ length (without (f k) used) =
      pigeonhole f inj n (suc k) (without (f k) used) (λ i l u.
        has-without (f k) (f i) used (h i (omega (arith, l)) (omega (arith, u)))
          (elim (Bool-cases (same (f k) (f i))) [
            | inl e ↦ absurd (omega (arith, inj k i (same_eq (f k) (f i) e), l))
            | inr e ↦ e
          ])) in
    omega (arith, rest, length-without (f k) used here)

-- Where a name comes from: it is not the wanted one only where that is used.
abbrev pub IsCandidate : (ℕ → Bytes) → List Bytes → Bytes → Bytes → Bytes → Type 0
IsCandidate itoa used base server name =
    (name ≡ base)
    ⊎ ((has base used ≡ true)
        × ((name ≡ qualified itoa server base) ⊎ ((k : ℕ) × (name ≡ postfixed itoa base k))))

module _ (itoa : ℕ → Bytes) where
  -- A round that finds nothing found its name used, and so do the next ones.
  pub find_name-none :
      (n : ℕ) (used : List Bytes) (base name server : Bytes) (s : ℕ)
      → find_name itoa (suc n) used base name server s ≡ none
      → (has name used ≡ true)
        × ((if is_empty server
              then find_name itoa n used base (postfixed itoa base (s + 1)) [] (s + 1)
              else find_name itoa n used base (qualified itoa server base) [] s)
            ≡ none)
  unfolding find_name
  find_name-none n used base name server s e = elim (Bool-cases (has name used)) [
    | inl h ↦ (h, ground (arith, e, h))
    | inr h ↦ absurd (ground (arith, e, h))
  ]

  pub find_name-some :
      (n : ℕ) (used : List Bytes) (base name server : Bytes) (s : ℕ) (m : Bytes)
      → find_name itoa (suc n) used base name server s ≡ some m
      → ((has name used ≡ false) × (m ≡ name))
        ⊎ ((has name used ≡ true)
            × ((if is_empty server
                  then find_name itoa n used base (postfixed itoa base (s + 1)) [] (s + 1)
                  else find_name itoa n used base (qualified itoa server base) [] s)
                ≡ some m))
  unfolding find_name
  find_name-some n used base name server s m e = elim (Bool-cases (has name used)) [
    | inl h ↦ inr (h, ground (arith, e, h))
    | inr h ↦ inl (h, ground (arith, e, h))
  ]

  pub find_name-used :
      (n : ℕ) (used : List Bytes) (base : Bytes) (s : ℕ)
      → find_name itoa n used base (postfixed itoa base s) [] s ≡ none
      → (i : ℕ) → s ≤ i
      → i < s + n
      → has (postfixed itoa base i) used ≡ true
  find_name-used zero used base s e i l u = absurd (omega (arith, l, u))
  find_name-used (suc n) used base s e i l u =
      let (h, k) = find_name-none n used base (postfixed itoa base s) [] s e in
      elim (compare_le s i l) [
        | inl q ↦ subst (λ j. has (postfixed itoa base j) used ≡ true) q h
        | inr q ↦ find_name-used n used base (s + 1) k i (omega (arith, q)) (omega (arith, u))
      ]
    where
      compare_le : (a b : ℕ) → a ≤ b → (a ≡ b) ⊎ (a < b)
      compare_le a b l = omega (arith, l)

  -- What is found is new, and of one of the forms.
  pub find_postfixed-some :
      (n : ℕ) (used : List Bytes) (base : Bytes) (s : ℕ) (m : Bytes)
      → find_name itoa n used base (postfixed itoa base s) [] s ≡ some m
      → (has m used ≡ false) × ((k : ℕ) × (m ≡ postfixed itoa base k))
  find_postfixed-some zero used base s m e = absurd (unfold find_name in ground (arith, e))
  find_postfixed-some (suc n) used base s m e =
      elim (find_name-some n used base (postfixed itoa base s) [] s m e) [
        | inl (h, q) ↦ (subst (λ x. has x used ≡ false) (sym q) h, (s, q))
        | inr (b, k) ↦ find_postfixed-some n used base (s + 1) m k
      ]

module _ (itoa : ℕ → Bytes) (itoa-inj : (m n : ℕ) → itoa m ≡ itoa n → m ≡ n) where
  pub postfixed-inj :
      (base : Bytes) (m n : ℕ) → postfixed itoa base m ≡ postfixed itoa base n → m ≡ n
  postfixed-inj base m n e = itoa-inj m n (cc (append-inj base (b'_' ∷ itoa m) (b'_' ∷ itoa n) e))

  -- With fuel for one more than the names used, a number is found.
  pub find_postfixed-total :
      (n : ℕ) (used : List Bytes) (base : Bytes) (s : ℕ)
      → length used < n
      → find_name itoa n used base (postfixed itoa base s) [] s ≢ none
  find_postfixed-total n used base s l e = omega (
    arith,
    l,
    pigeonhole (postfixed itoa base) (postfixed-inj base) n s used
        (find_name-used itoa n used base s e),
  )

  -- The search: it ends, with a new name.
  pub find_name_lem :
      (used : List Bytes) (base server : Bytes)
      → (m : Bytes) × ((find_name itoa (suc (suc (suc (length used)))) used base base server 0
            ≡ some m)
          × ((has m used ≡ false) × IsCandidate itoa used base server m))
  find_name_lem used base [] =
      elim (Option-cases (find_name itoa (suc (suc (suc (length used)))) used base base [] 0)) [
        | inl e ↦
            let (h, k) = find_name-none itoa _ used base base [] 0 e in
            absurd (find_postfixed-total (suc (suc (length used))) used base 1 (omega arith) k)
        | inr (m, e) ↦ (
          m,
          (
            e,
            elim (find_name-some itoa _ used base base [] 0 m e) [
              | inl (h, q) ↦ (subst (λ x. has x used ≡ false) (sym q) h, inl q)
              | inr (b, k) ↦
                  let (h, q) = find_postfixed-some itoa (suc (suc (length used))) used base 1 m k in
                  (h, inr (b, inr q))
            ],
          ),
        )
      ]
  find_name_lem used base (c ∷ cs) =
      elim (Option-cases
        (find_name itoa (suc (suc (suc (length used)))) used base base (c ∷ cs) 0)) [
          | inl e ↦
              let (h, k) = find_name-none itoa _ used base base (c ∷ cs) 0 e in
              let (h2, k2) =
                find_name-none itoa (suc (length used)) used base (qualified itoa (c ∷ cs) base) []
                  0 k in
              absurd (find_postfixed-total (suc (length used)) used base 1 (omega arith) k2)
          | inr (m, e) ↦ (
            m,
            (
              e,
              elim (find_name-some itoa _ used base base (c ∷ cs) 0 m e) [
                | inl (h, q) ↦ (subst (λ x. has x used ≡ false) (sym q) h, inl q)
                | inr (b, k) ↦
                    elim (find_name-some itoa (suc (length used)) used base
                      (qualified itoa (c ∷ cs) base) [] 0 m k) [
                        | inl (h, q) ↦ (subst (λ x. has x used ≡ false) (sym q) h, inr (b, inl q))
                        | inr (b2, k2) ↦
                            let (h, q) =
                              find_postfixed-some itoa (suc (length used)) used base 1 m k2 in
                            (h, inr (b, inr q))
                      ]
              ],
            ),
          )
        ]

  -- Where `strconv.Itoa` tells numbers apart, the search for a name ends: the name is not used before
  -- and is used afterwards, and it is the wanted one, or, where that is used, the one with the
  -- server's name in front or with a number behind.
  pub create_unique_worker_name_lem :
      (used : List Bytes) (name file server : Bytes)
      → (m : Bytes) × ((create_unique_worker_name itoa used name file server ≡ some (m, m ∷ used))
          × ((has m used ≡ false)
              × IsCandidate itoa used (if is_empty name then file else name) server m))
  unfolding create_unique_worker_name
  create_unique_worker_name_lem used name file server =
      let (m, (e, h)) = find_name_lem used (if is_empty name then file else name) server in
      (m, (ground (arith, e), h))
