-- ===== src/Sapi/Sound.antt =====
-- context.go and frankenphp.go: no call on a request context closes it twice or sends a status that
-- panics.
use frankenphp.Base.{
  ℕ, zero, suc, ◌≤◌, ◌≡◌, sym, Bool, true, false, not, ◌&&◌, ◌||◌, List, [], ◌∷◌, ◌++◌, leb, ltb,
  if◌then◌else◌, Option, some, All, arith, inl, inr, Bool-cases, Option-cases,
}
use mathlib.Core.Path.{subst}
use frankenphp.Text.{Bytes, is_empty, contains_byte}
use frankenphp.Sapi.Context.{
  Context, Effect, write_header, write, write_error, flush, add_header, clear_headers,
  clear_read_deadline, Rejection, Url, status_of, escaped_path_selects_another_script,
  is_content_length, close_context, reject, validate, does, request_body_too_large,
  invalid_request_path, invalid_content_length,
}
use frankenphp.Sapi.Header.{split_raw_header}
use frankenphp.Sapi.Output.{ub_write, write_headers, header_effects, sapi_flush, valid_status}
use frankenphp.Sapi.Body.{
  Reader, ReadError, read_post, read_loop, deadlines, repeat, is_deadline, is_max_bytes,
}

-- `WriteHeader` panics on a status that has not three digits.
abbrev pub IsSendable : Effect → Type 0
IsSendable (write_header status) = (100 ≤ status) × (status ≤ 999)
IsSendable _ = Unit

pub record IsSound (fc : Context) : Type 0 where
  pub closed : fc.closes ≡ (if fc.is_done then 1 else 0)
  pub sendable : All IsSendable fc.effects

pub All-append :
    (xs ys : List Effect) → All IsSendable xs → All IsSendable ys → All IsSendable (xs ++ ys)
All-append [] ys hx hy = hy
All-append (x ∷ xs) ys (h, hx) hy = (h, All-append xs ys hx hy)

pub does-IsSound :
    (es : List Effect) (fc : Context) → All IsSendable es → IsSound fc → IsSound (does es fc)
does-IsSound es fc h v = record {
  closed = v.closed;
  sendable = All-append fc.effects es v.sendable h;
}

pub becomes : {fc fc' : Context} → fc ≡ fc' → IsSound fc' → IsSound fc
becomes e v = subst IsSound (sym e) v

pub close_context-IsSound :
    (gone : Bool) (fc : Context) → IsSound fc → IsSound (close_context gone fc)
unfolding close_context
close_context-IsSound gone fc v = elim (Bool-cases fc.is_done) [
  | inl h ↦ becomes (ground (arith, h)) v
  | inr h ↦ record {
    closed = ground (arith, h, v.closed);
    sendable = subst (All IsSendable) (ground (arith, h)) v.sendable;
  }
]

abbrev refusal : Rejection → Bool → List Effect
refusal err flusher =
    write_header (status_of err) ∷ write_error err ∷ (if flusher then flush ∷ [] else [])

status_lem : (err : Rejection) → (100 ≤ status_of err) × (status_of err ≤ 999)
status_lem Rejection.invalid_request_path = (omega arith, omega arith)
status_lem Rejection.invalid_content_length = (omega arith, omega arith)
status_lem Rejection.invalid_script_path = (omega arith, omega arith)
status_lem Rejection.max_wait_time_exceeded = (omega arith, omega arith)
status_lem Rejection.request_body_too_large = (omega arith, omega arith)

refusal-IsSendable : (err : Rejection) (flusher : Bool) → All IsSendable (refusal err flusher)
refusal-IsSendable err true = (status_lem err, (tt, (tt, tt)))
refusal-IsSendable err false = (status_lem err, (tt, tt))

pub reject-IsSound :
    (gone : Bool) (err : Rejection) (fc : Context) → IsSound fc → IsSound (reject gone err fc)
unfolding reject
reject-IsSound gone err fc v = elim (Bool-cases fc.is_done) [
  | inl h ↦ becomes (ground (arith, h)) v
  | inr h ↦ elim (Bool-cases fc.has_writer) [
    | inl k ↦
        let e : reject gone err fc ≡ close_context gone (does (refusal err fc.is_flusher) fc) =
          ground (arith, h, k) in
        becomes e (
          close_context-IsSound gone _
            (does-IsSound (refusal err fc.is_flusher) fc (refusal-IsSendable err fc.is_flusher) v))
    | inr k ↦
        let e : reject gone err fc ≡ close_context gone fc = ground (arith, h, k) in
        becomes e (close_context-IsSound gone fc v)
  ]
]

header_effects-IsSendable : (raws : List Bytes) → All IsSendable (header_effects raws)
unfolding header_effects
header_effects-IsSendable [] = tt
header_effects-IsSendable (raw ∷ raws) =
    let rest = header_effects-IsSendable raws in
    elim (Option-cases (split_raw_header raw)) [
      | inl e ↦ subst (All IsSendable) (ground (arith, e)) rest
      | inr (kv, e) ↦ elim (Bool-cases (is_empty kv.0)) [
        | inl k ↦ subst (All IsSendable) (ground (arith, e, k)) rest
        | inr k ↦
            let g : add_header kv.0 kv.1 ∷ header_effects raws ≡ header_effects (raw ∷ raws) =
              ground (arith, e, k) in
            subst (All IsSendable) g (tt, rest)
      ]
    ]

-- What `go_write_headers` sends.
abbrev sent : ℕ → List Bytes → List Effect
sent code headers =
    header_effects headers ++ write_header code ∷ (if ltb code 200 then clear_headers ∷ [] else [])

valid_status_lem : (status : ℕ) → (100 ≤ valid_status status) × (valid_status status ≤ 999)
valid_status_lem status = ground arith

clears : (code : ℕ) → All IsSendable (if ltb code 200 then clear_headers ∷ [] else [])
clears code = go (ltb code 200)
  where
    go : (b : Bool) → All IsSendable (if b then clear_headers ∷ [] else [])
    go true = (tt, tt)
    go false = tt

sent-IsSendable :
    (status : ℕ) (headers : List Bytes) → All IsSendable (sent (valid_status status) headers)
sent-IsSendable status headers =
    All-append (header_effects headers) _ (header_effects-IsSendable headers)
      (valid_status_lem status, clears (valid_status status))

pub write_headers-IsSound :
    (status : ℕ) (headers : List Bytes) (fc : Context)
    → IsSound fc
    → IsSound (write_headers status headers fc).0
unfolding write_headers
write_headers-IsSound status headers fc v = elim (Bool-cases fc.is_done) [
  | inl h ↦ becomes (ground (arith, h)) v
  | inr h ↦ elim (Bool-cases fc.has_writer) [
    | inl k ↦
        let e : (write_headers status headers fc).0
            ≡ record (does (sent (valid_status status) headers) fc) {
              headers_written = leb 200 (valid_status status);
            } =
          ground (arith, h, k) in
        let w =
          does-IsSound (sent (valid_status status) headers) fc (sent-IsSendable status headers) v in
        becomes e (record { closed = w.closed; sendable = w.sendable })
    | inr k ↦ becomes (ground (arith, h, k)) v
  ]
]

pub ub_write-IsSound :
    (gone : Bool) (accepted : ℕ) (buf : Bytes) (fc : Context)
    → IsSound fc
    → IsSound (ub_write gone accepted buf fc).0
unfolding ub_write
ub_write-IsSound gone accepted buf fc v = elim (Bool-cases (fc.is_done || not fc.has_writer)) [
  | inl h ↦ becomes (ground (arith, h)) v
  | inr h ↦
      let e : (ub_write gone accepted buf fc).0 ≡ does (write buf ∷ []) fc = ground (arith, h) in
      becomes e (does-IsSound (write buf ∷ []) fc (tt, tt) v)
]

pub sapi_flush-IsSound : (gone : Bool) (fc : Context) → IsSound fc → IsSound (sapi_flush gone fc).0
unfolding sapi_flush
sapi_flush-IsSound gone fc v =
    elim (Bool-cases (not fc.has_writer || (fc.is_done || (fc.has_request && gone)))) [
      | inl h ↦ becomes (ground (arith, h)) v
      | inr h ↦
          let e : (sapi_flush gone fc).0 ≡ does (flush ∷ []) fc = ground (arith, h) in
          becomes e (does-IsSound (flush ∷ []) fc (tt, tt) v)
    ]

pub validate-IsSound :
    (gone : Bool) (u : Url) (splits : Option (List Bytes)) (len : Bytes) (windows : Bool)
    (fc : Context)
    → IsSound fc
    → IsSound (validate gone u splits len windows fc).0
unfolding validate
validate-IsSound gone u splits len windows fc v =
    let bad = contains_byte 0 u.path || escaped_path_selects_another_script u splits windows in
    elim (Bool-cases bad) [
      | inl h ↦ becomes (ground (arith, h)) (reject-IsSound gone invalid_request_path fc v)
      | inr h ↦ elim (Bool-cases (not (is_empty len) && not (is_content_length len))) [
        | inl k ↦ becomes (ground (arith, h, k)) (reject-IsSound gone invalid_content_length fc v)
        | inr k ↦ becomes (ground (arith, h, k)) v
      ]
    ]

repeat-IsSendable : (n : ℕ) → All IsSendable (repeat n)
repeat-IsSendable zero = tt
repeat-IsSendable (suc n) = (tt, repeat-IsSendable n)

deadlines-IsSendable :
    (fc : Context) (err : Option ReadError) (reads : ℕ) → All IsSendable (deadlines fc err reads)
deadlines-IsSendable fc err reads = go fc.has_body_timeout (is_deadline err)
  where
    go :
        (timed expired : Bool)
        → All IsSendable (
            if not timed
            then []
            else repeat reads ++ (if expired then [] else clear_read_deadline ∷ []))
    go true true = All-append (repeat reads) [] (repeat-IsSendable reads) tt
    go true false = All-append (repeat reads) _ (repeat-IsSendable reads) (tt, tt)
    go false expired = tt

-- The context that `go_read_post` leaves.
pub read_post-IsSound :
    (read : Reader) (fuel : ℕ) (gone : Bool) (count : ℕ) (fc : Context) {r : Context × Bytes × Bool}
    → read_post read fuel gone count fc ≡ some r
    → IsSound fc
    → IsSound r.0
unfolding read_post
read_post-IsSound read fuel gone count fc {r} h v =
    elim (Bool-cases (not fc.has_writer || fc.is_done)) [
      | inl k ↦ becomes (ground (arith, k, h)) v
      | inr k ↦ elim (Option-cases (read_loop read count fuel 0 [])) [
        | inl l ↦ absurd (ground (arith, k, l, h))
        | inr ((got, err, reads), l) ↦
            let w =
              does-IsSound (deadlines fc err reads) fc (deadlines-IsSendable fc err reads) v in
            elim (Bool-cases (is_max_bytes err && not fc.headers_written)) [
              | inl m ↦
                  let e : r.0
                      ≡ reject gone request_body_too_large (does (deadlines fc err reads) fc) =
                    ground (arith, k, l, m, h) in
                  becomes e (reject-IsSound gone request_body_too_large _ w)
              | inr m ↦
                  let e : r.0 ≡ does (deadlines fc err reads) fc = ground (arith, k, l, m, h) in
                  becomes e w
            ]
      ]
    ]
