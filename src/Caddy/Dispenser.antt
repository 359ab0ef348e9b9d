-- ===== src/Caddy/Dispenser.antt =====
-- What caddy/ relies on of Caddy's `caddyfile.Dispenser`, and caddy/caddy.go, `parseNonNegativeInt`:
-- how the directives read their tokens, and the errors of their parsers.
use frankenphp.Base.{
  ℕ, ◌<◌, ◌≤◌, ◌≡◌, refl, Bool, true, false, List, Option, none, some, arith, if◌then◌else◌,
}
use frankenphp.Base.Int.{ℤ, pos, ltb_ℤ, ◌≤ℤ◌}
use frankenphp.Text.{Bytes}

pub data DirectiveError : Type 0 where
  wrong_arguments : DirectiveError  -- `d.ArgErr()`
  not_a_number : DirectiveError
  negative : DirectiveError
  invalid_value : DirectiveError
  too_many_arguments : DirectiveError
  wrong_subdirective : Bytes → DirectiveError
  no_file : DirectiveError
  invalid_match : DirectiveError
  match_in_global : Bytes → DirectiveError
  duplicate_file : Bytes → DirectiveError
  ini_format : DirectiveError
  max_below_num : DirectiveError
  server_refused : DirectiveError  -- by `frankenphp.NewServer`

-- A parser's end; `stuck` is a loop that is given too little fuel.
pub data Parsed {ℓ} (A : Type ℓ) : Type ℓ where
  ok : A → Parsed A
  fail : DirectiveError → Parsed A
  stuck : Parsed A

infixl 5 ◌>>=◌
abbrev pub ◌>>=◌ {ℓ κ} : {A : Type ℓ} {B : Type κ} → Parsed A → (A → Parsed B) → Parsed B
ok a >>= f = f a
fail e >>= f = fail e
stuck >>= f = stuck

-- A position among the tokens. What a call returns goes with the position that it leaves; the size is
-- how many tokens are left.
pub record Dispenser : Type 1 where
  pub Position : Type 0
  pub size : Position → ℕ
  pub next : Position → Option (Bytes × Position)
  pub next_arg : Position → Option (Bytes × Position)
  pub next_block : ℕ → Position → Option Bytes × Position
  pub remaining_args : Position → List Bytes × Position
  pub next-less :
      (d : Position) (v : Bytes) (d' : Position) → next d ≡ some (v, d') → size d' < size d
  pub next_arg-less :
      (d : Position) (v : Bytes) (d' : Position) → next_arg d ≡ some (v, d') → size d' < size d
  pub next_block-less :
      (n : ℕ) (d : Position) (v : Bytes)
      → (next_block n d).0 ≡ some v
      → size (next_block n d).1 < size d
  pub next_block-le : (n : ℕ) (d : Position) → size (next_block n d).1 ≤ size d
  pub remaining_args-le : (d : Position) → size (remaining_args d).1 ≤ size d

-- `strconv.Atoi`, `time.ParseDuration` and the like, `Provision` of Caddy's path matcher, and where
-- the embedded application puts a local file.
pub record Readers : Type 0 where
  pub atoi : Bytes → Option ℤ
  pub parse_bool : Bytes → Option Bool
  pub parse_duration : Bytes → Option ℤ  -- `time`'s
  pub parse_caddy_duration : Bytes → Option ℤ
  pub provision : List Bytes → Option (List Bytes)
  pub in_embedded : Bytes → Bytes  -- the file itself where there is no application, or it is not local

unfoldable pub parse_non_negative_int : Readers → Bytes → Parsed ℤ
parse_non_negative_int r v = elim (r.atoi v) [
  | none ↦ fail not_a_number
  | some n ↦ if ltb_ℤ n (pos 0) then fail negative else ok n
]

module _ (t : Dispenser) where
  -- `if !d.NextArg() { return d.ArgErr() }`
  abbrev pub required : t.Position → Parsed (Bytes × t.Position)
  required d = elim (t.next_arg d) [ none ↦ fail wrong_arguments | some r ↦ ok r ]

  -- `d.NextBlock(n)`, what follows where there is nothing more, and what goes on with a token.
  abbrev pub block_next {ℓ} :
      {A : Type ℓ}
      → ℕ
      → t.Position
      → (t.Position → Parsed A)
      → (Bytes → t.Position → Parsed A)
      → Parsed A
  block_next n d done more =
      let (v, d') = t.next_block n d in elim v [ none ↦ done d' | some v ↦ more v d' ]

-- A parser that is not stuck, and has `P` where it succeeds.
abbrev pub Gets {ℓ} : {A : Type ℓ} → (A → Type 0) → Parsed A → Type 0
Gets P (ok a) = P a
Gets P (fail e) = Unit
Gets P stuck = ⊥

pub Gets-bind {ℓ κ} :
    {A : Type ℓ} {B : Type κ} (P : A → Type 0) (Q : B → Type 0) (m : Parsed A) (f : A → Parsed B)
    → Gets P m
    → ((a : A) → P a → Gets Q (f a))
    → Gets Q (m >>= f)
Gets-bind P Q (ok a) f h k = k a h
Gets-bind P Q (fail e) f h k = tt
Gets-bind P Q stuck f h k = h

pub Gets-map {ℓ} :
    {A : Type ℓ} (P Q : A → Type 0) (m : Parsed A) → ((a : A) → P a → Q a) → Gets P m → Gets Q m
Gets-map P Q (ok a) f h = f a h
Gets-map P Q (fail e) f h = tt
Gets-map P Q stuck f h = h

pub Gets-if {ℓ} :
    {A : Type ℓ} (P : A → Type 0) (b : Bool) (e : DirectiveError) (m : Parsed A)
    → (b ≡ false → Gets P m)
    → Gets P (if b then fail e else m)
Gets-if P true e m h = tt
Gets-if P false e m h = h refl

pub non_negative-Gets :
    (r : Readers) (v : Bytes) → Gets (λ n. pos 0 ≤ℤ n) (parse_non_negative_int r v)
unfolding parse_non_negative_int
non_negative-Gets r v = split (r.atoi v)
  where
    split :
        (o : Option ℤ)
        → Gets
            (λ n. pos 0 ≤ℤ n)
            (elim o [
              | none ↦ fail not_a_number
              | some n ↦ if ltb_ℤ n (pos 0) then fail negative else ok n
            ])
    split none = tt
    split (some n) = Gets-if (λ n. pos 0 ≤ℤ n) (ltb_ℤ n (pos 0)) _ (ok n) (λ e. ground (arith, e))

module _ (t : Dispenser) where
  pub block_next-Gets {ℓ} :
      {A : Type ℓ} (P : A → Type 0) (n : ℕ) (d : t.Position) (done : t.Position → Parsed A)
      (more : Bytes → t.Position → Parsed A)
      → ((d' : t.Position) → t.size d' ≤ t.size d → Gets P (done d'))
      → ((v : Bytes) (d' : t.Position) → t.size d' < t.size d → Gets P (more v d'))
      → Gets P (block_next t n d done more)
  block_next-Gets P n d done more h k = split (t.next_block n d).0 (t.next_block-less n d)
    where
      split :
          (o : Option Bytes)
          → ((v : Bytes) → o ≡ some v → t.size (t.next_block n d).1 < t.size d)
          → Gets P
              (elim o [ none ↦ done (t.next_block n d).1 | some v ↦ more v (t.next_block n d).1 ])
      split none l = h (t.next_block n d).1 (t.next_block-le n d)
      split (some v) l = k v (t.next_block n d).1 (l v refl)

  pub token-Gets {ℓ} :
      {A : Type ℓ} (P : A → Type 0) (d : t.Position) (done : Parsed A)
      (more : Bytes × t.Position → Parsed A) (o : Option (Bytes × t.Position))
      → ((v : Bytes) (d' : t.Position) → o ≡ some (v, d') → t.size d' < t.size d)
      → Gets P done
      → ((v : Bytes) (d' : t.Position) → t.size d' < t.size d → Gets P (more (v, d')))
      → Gets P (elim o [ none ↦ done | some a ↦ more a ])
  token-Gets P d done more none l h k = h
  token-Gets P d done more (some (v, d')) l h k = k v d' (l v d' refl)

  -- What follows where there is no token, and what goes on with one.
  pub next-Gets {ℓ} :
      {A : Type ℓ} (P : A → Type 0) (d : t.Position) (done : Parsed A)
      (more : Bytes × t.Position → Parsed A)
      → Gets P done
      → ((v : Bytes) (d' : t.Position) → t.size d' < t.size d → Gets P (more (v, d')))
      → Gets P (elim (t.next d) [ none ↦ done | some a ↦ more a ])
  next-Gets P d done more = token-Gets P d done more (t.next d) (t.next-less d)

  pub next_arg-Gets {ℓ} :
      {A : Type ℓ} (P : A → Type 0) (d : t.Position) (done : Parsed A)
      (more : Bytes × t.Position → Parsed A)
      → Gets P done
      → ((v : Bytes) (d' : t.Position) → t.size d' < t.size d → Gets P (more (v, d')))
      → Gets P (elim (t.next_arg d) [ none ↦ done | some a ↦ more a ])
  next_arg-Gets P d done more = token-Gets P d done more (t.next_arg d) (t.next_arg-less d)

  pub required-Gets :
      (d : t.Position) → Gets (λ (r : Bytes × t.Position). t.size r.1 < t.size d) (required t d)
  required-Gets d =
      next_arg-Gets (λ (r : Bytes × t.Position). t.size r.1 < t.size d) d (fail wrong_arguments) ok
        tt (λ v d' l. l)
