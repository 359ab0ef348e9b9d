-- ===== src/Sapi/Body.antt =====
-- frankenphp.go, `go_read_post`: the body of a request, into a buffer of PHP's.
use frankenphp.Base.{
  ℕ, zero, suc, ◌+◌, ◌-◌, ◌≤◌, ◌<◌, ◌≡◌, Bool, true, false, not, ◌&&◌, ◌||◌, List, [], ◌∷◌, ◌++◌,
  ltb, if◌then◌else◌, Option, none, some, length,
}
use frankenphp.Text.{Bytes}
use frankenphp.Sapi.Context.{
  Context, Effect, set_read_deadline, clear_read_deadline, request_body_too_large, does, reject,
}

pub data ReadError : Type 0 where
  eof deadline_exceeded max_bytes other : ReadError

-- `Body.Read` into a slice of the given length, the k-th time: what it put there, and its error.
abbrev pub Reader : Type 0
Reader = ℕ → ℕ → Bytes × Option ReadError

-- The loop, on fuel: what was read, the error, and how many reads were made. `none`: it ran out.
unfoldable pub read_loop : Reader → ℕ → ℕ → ℕ → Bytes → Option (Bytes × Option ReadError × ℕ)
read_loop read count zero k got = none
read_loop read count (suc fuel) k got =
    let (chunk, err) = read k (count - length got) in
    let next = read_loop read count fuel (k + 1) (got ++ chunk) in
    if not (ltb (length got) count)
    then some (got, none, k)
    else elim err [ some e ↦ some (got ++ chunk, some e, k + 1) | none ↦ next ]

abbrev pub repeat : ℕ → List Effect
repeat zero = []
repeat (suc n) = set_read_deadline ∷ repeat n

abbrev pub is_deadline : Option ReadError → Bool
is_deadline (some deadline_exceeded) = true
is_deadline _ = false

abbrev pub is_max_bytes : Option ReadError → Bool
is_max_bytes (some max_bytes) = true
is_max_bytes _ = false

-- The deadlines set: one before each read, and taken away unless it has expired.
abbrev pub deadlines : Context → Option ReadError → ℕ → List Effect
deadlines fc err reads =
    if not fc.has_body_timeout
    then []
    else repeat reads ++ (if is_deadline err then [] else clear_read_deadline ∷ [])

-- The new context, what stands in the buffer, and `tooLarge`. `none`: the reads do not end, or there is
-- no request, whose body would be a nil pointer.
unfoldable pub read_post : Reader → ℕ → Bool → ℕ → Context → Option (Context × Bytes × Bool)
read_post read fuel client_gone count fc =
    if not fc.has_writer || fc.is_done
    then some (fc, [], false)
    else if not fc.has_request
    then none
    else elim (read_loop read count fuel 0 []) [
      | none ↦ none
      | some (got, err, reads) ↦
          let fc1 = does (deadlines fc err reads) fc in
          some (
            if is_max_bytes err && not fc.headers_written
                then reject client_gone request_body_too_large fc1
                else fc1,
            got,
            is_max_bytes err,
          )
    ]

-- `Read` never puts more into a slice than its length.
abbrev pub Bounded : Reader → Type 0
Bounded read = (k m : ℕ) → length (read k m).0 ≤ m

-- Without an error `Read` puts something into a slice that is not empty.
abbrev pub Progresses : Reader → Type 0
Progresses read = (k m : ℕ) → 0 < m → (read k m).1 ≡ none → 0 < length (read k m).0

-- What was read: at most what was asked for, and exactly that where there was no error.
abbrev Filled : ℕ → Option (Bytes × Option ReadError × ℕ) → Type 0
Filled count none = Unit
Filled count (some (got, err, reads)) = (length got ≤ count) × (err ≡ none → length got ≡ count)

-- How the reads end, `some max_bytes` being the error of a body that is too large.
abbrev pub Answered : Context → Context → Option ReadError → Bool → Type 0
Answered fc fc' (some max_bytes) too_large =
    (too_large ≡ true) × ((fc'.is_done || fc.headers_written) ≡ true)
Answered fc fc' (some eof) too_large = (too_large ≡ false) × (fc'.is_done ≡ fc.is_done)
Answered fc fc' (some deadline_exceeded) too_large =
    (too_large ≡ false) × (fc'.is_done ≡ fc.is_done)
Answered fc fc' (some other) too_large = (too_large ≡ false) × (fc'.is_done ≡ fc.is_done)
Answered fc fc' none too_large = (too_large ≡ false) × (fc'.is_done ≡ fc.is_done)
