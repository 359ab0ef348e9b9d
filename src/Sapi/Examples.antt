-- ===== src/Sapi/Examples.antt =====
-- context.go and frankenphp.go: the theorems at one context.
use frankenphp.Base.{zero, suc, ◌≡◌, refl, true, false, List, [], ◌∷◌, none, some, codes}
use frankenphp.Sapi.Context.{Context, max_wait_time_exceeded}
use frankenphp.Sapi.Body.{Reader, eof}
use frankenphp.Sapi.Sound.{IsSound}
use frankenphp.Sapi.Lifetime.{
  Call, do_close, do_reject, do_write, do_headers, do_flush, calls, calls_done, calls-IsSound,
}

abbrev fresh : Context
fresh = record {
  has_request = true;
  has_writer = true;
  is_flusher = true;
  is_done = false;
  client_had_closed = false;
  headers_written = false;
  has_body_timeout = true;
  closes = 0;
  effects = [];
}

abbrev closed : Context
closed = record fresh { is_done = true; closes = 1 }

fresh-IsSound : IsSound fresh
fresh-IsSound = record { closed = refl; sendable = tt }

abbrev late_calls : List Call
late_calls =
    do_write false 2 (codes "ab") ∷ do_headers 200 [] ∷ do_reject false max_wait_time_exceeded ∷ []

calls_done_example : calls late_calls closed ≡ some closed
calls_done_example = calls_done late_calls closed refl

abbrev all_calls : List Call
all_calls =
    do_headers 42 (codes "A: b" ∷ [])
    ∷ do_write false 2 (codes "ab")
    ∷ do_close true
    ∷ do_close true
    ∷ []

all_calls-return : (fc : Context) × (calls all_calls fresh ≡ some fc)
unfolding calls frankenphp.Sapi.Lifetime.call
all_calls-return = (_, refl)

calls-IsSound_example : IsSound all_calls-return.0
calls-IsSound_example =
    calls-IsSound all_calls fresh all_calls-return.0 all_calls-return.1 fresh-IsSound

-- A body of one byte in each read.
abbrev one_byte : Reader
one_byte k zero = ([], some eof)
one_byte k (suc m) = (7 ∷ [], none)
