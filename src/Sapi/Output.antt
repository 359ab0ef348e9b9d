-- ===== src/Sapi/Output.antt =====
-- frankenphp.go, `go_ub_write`, `go_write_headers`, `addHeader` and `go_sapi_flush`: what PHP sends.
use frankenphp.Base.{
  ℕ, Bool, true, false, not, ◌||◌, List, [], ◌∷◌, ◌++◌, leb, ltb, if◌then◌else◌, none, some, length,
}
use frankenphp.Text.{Bytes, is_empty}
use frankenphp.Sapi.Context.{
  Context, Effect, write_header, write, flush, add_header, clear_headers, client_has_closed, does,
}
use frankenphp.Sapi.Header.{split_raw_header}

-- `accepted` is how many bytes the writer takes. The answers are the count for PHP and whether the
-- connection is aborted.
unfoldable pub ub_write : Bool → ℕ → Bytes → Context → Context × ℕ × Bool
ub_write client_gone accepted buf fc =
    if fc.is_done
    then (fc, length buf, fc.client_had_closed)
    else if not fc.has_writer
    then (fc, length buf, client_has_closed client_gone fc)
    else (does (write buf ∷ []) fc, accepted, client_has_closed client_gone fc)

-- The loop over `addHeader`: a header without a key is only logged.
unfoldable pub header_effects : List Bytes → List Effect
header_effects [] = []
header_effects (raw ∷ raws) = elim (split_raw_header raw) [
  | none ↦ header_effects raws
  | some (key, value) ↦
      if is_empty key then header_effects raws else add_header key value ∷ header_effects raws
]

abbrev pub valid_status : ℕ → ℕ
valid_status status = if ltb status 100 || ltb 999 status then 500 else status

-- A negative status is one below 100. The answer is whether PHP may take the headers as sent.
unfoldable pub write_headers : ℕ → List Bytes → Context → Context × Bool
unfolding header_effects
write_headers status headers fc =
    let code = valid_status status in
    if fc.is_done then (fc, false) else if not fc.has_writer then (fc, true) else (
      record (does
          (header_effects headers
            ++ write_header code ∷ (if ltb code 200 then clear_headers ∷ [] else []))
          fc) { headers_written = leb 200 code },
      true,
    )

-- The answer is whether the connection is aborted.
unfoldable pub sapi_flush : Bool → Context → Context × Bool
sapi_flush client_gone fc =
    if not fc.has_writer
    then (fc, false)
    else if fc.is_done
    then (fc, fc.client_had_closed)
    else if client_has_closed client_gone fc
    then (fc, true)
    else (does (flush ∷ []) fc, false)
