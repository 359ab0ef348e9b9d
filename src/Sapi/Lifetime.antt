-- ===== src/Sapi/Lifetime.antt =====
-- context.go and frankenphp.go: a request context over all the calls made on it, in any order.
use frankenphp.Base.{
  ℕ, ◌≡◌, refl, Bool, true, List, [], ◌∷◌, Option, none, some, arith, inl, inr, Option-cases,
}
use mathlib.Core.Path.{subst}
use frankenphp.Text.{Bytes}
use frankenphp.Sapi.Context.{Context, Rejection, Url, close_context, reject, validate}
use frankenphp.Sapi.Output.{ub_write, write_headers, sapi_flush}
use frankenphp.Sapi.Body.{Reader, read_post}
use frankenphp.Sapi.Sound.{
  IsSound, close_context-IsSound, reject-IsSound, validate-IsSound, ub_write-IsSound,
  write_headers-IsSound, sapi_flush-IsSound, read_post-IsSound,
}

pub data Call : Type 0 where
  do_close : Bool → Call
  do_reject : Bool → Rejection → Call
  do_validate : Bool → Url → Option (List Bytes) → Bytes → Bool → Call
  do_write : Bool → ℕ → Bytes → Call
  do_headers : ℕ → List Bytes → Call
  do_flush : Bool → Call
  do_read : Reader → ℕ → Bool → ℕ → Call

-- `none`: a read of the body has not come back.
unfoldable pub call : Call → Context → Option Context
call (do_close gone) fc = some (close_context gone fc)
call (do_reject gone err) fc = some (reject gone err fc)
call (do_validate gone u splits len windows) fc = some (validate gone u splits len windows fc).0
call (do_write gone accepted buf) fc = some (ub_write gone accepted buf fc).0
call (do_headers status headers) fc = some (write_headers status headers fc).0
call (do_flush gone) fc = some (sapi_flush gone fc).0
call (do_read read fuel gone count) fc = elim (read_post read fuel gone count fc) [
  | none ↦ none
  | some r ↦ some r.0
]

unfoldable pub calls : List Call → Context → Option Context
calls [] fc = some fc
calls (c ∷ cs) fc = elim (call c fc) [ none ↦ none | some fc' ↦ calls cs fc' ]

some_eq : {a b : Context} → some a ≡ some b → a ≡ b
some_eq h = cc

call_done : (c : Call) (fc : Context) → fc.is_done ≡ true → call c fc ≡ some fc
unfolding call close_context reject validate ub_write write_headers sapi_flush read_post
call_done (do_close gone) fc h = ground (arith, h)
call_done (do_reject gone err) fc h = ground (arith, h)
call_done (do_validate gone u splits len windows) fc h = ground (arith, h)
call_done (do_write gone accepted buf) fc h = ground (arith, h)
call_done (do_headers status headers) fc h = ground (arith, h)
call_done (do_flush gone) fc h = ground (arith, h)
call_done (do_read read fuel gone count) fc h = ground (arith, h)

-- Once a context is done no call changes anything: nothing more reaches the response writer, the
-- state of the client stays as it was, and even a read of the body comes back.
pub calls_done : (cs : List Call) (fc : Context) → fc.is_done ≡ true → calls cs fc ≡ some fc
unfolding calls
calls_done [] fc h = refl
calls_done (c ∷ cs) fc h = ground (arith, call_done c fc h, calls_done cs fc h)

call-IsSound :
    (c : Call) (fc : Context) {fc' : Context} → call c fc ≡ some fc' → IsSound fc → IsSound fc'
unfolding call
call-IsSound (do_close gone) fc h v = subst IsSound (some_eq h) (close_context-IsSound gone fc v)
call-IsSound (do_reject gone err) fc h v = subst IsSound (some_eq h) (reject-IsSound gone err fc v)
call-IsSound (do_validate gone u splits len windows) fc h v =
    subst IsSound (some_eq h) (validate-IsSound gone u splits len windows fc v)
call-IsSound (do_write gone accepted buf) fc h v =
    subst IsSound (some_eq h) (ub_write-IsSound gone accepted buf fc v)
call-IsSound (do_headers status headers) fc h v =
    subst IsSound (some_eq h) (write_headers-IsSound status headers fc v)
call-IsSound (do_flush gone) fc h v = subst IsSound (some_eq h) (sapi_flush-IsSound gone fc v)
call-IsSound (do_read read fuel gone count) fc h v =
    elim (Option-cases (read_post read fuel gone count fc)) [
      | inl e ↦ absurd (ground (arith, e, h))
      | inr (r, e) ↦
          subst IsSound (some_eq (ground (arith, e, h)))
            (read_post-IsSound read fuel gone count fc e v)
    ]

-- Over all calls in any order, a context that was sound stays sound: its channel is closed exactly
-- once where it is done and not at all before, and every status sent has three digits.
pub calls-IsSound :
    (cs : List Call) (fc fc' : Context) → calls cs fc ≡ some fc' → IsSound fc → IsSound fc'
unfolding calls
calls-IsSound [] fc fc' h v = subst IsSound (some_eq h) v
calls-IsSound (c ∷ cs) fc fc' h v = elim (Option-cases (call c fc)) [
  | inl e ↦ absurd (ground (arith, e, h))
  | inr (next, e) ↦ calls-IsSound cs next fc' (ground (arith, e, h)) (call-IsSound c fc e v)
]
