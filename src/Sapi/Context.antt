-- ===== src/Sapi/Context.antt =====
-- context.go, `closeContext`, `clientHasClosed`, `reject` and `validate`. What is done to the response
-- writer is a list of effects, in order; `client_gone` is whether the context of the request is
-- done at that moment.
use frankenphp.Base.{
  ℕ, ◌+◌, ◌*◌, ◌-◌, Bool, true, false, not, ◌&&◌, ◌||◌, List, [], ◌∷◌, ◌++◌, ◌==◌, leb, ltb,
  if◌then◌else◌, Option, none, some, codes, any, ◌^◌,
}
use frankenphp.Text.{Bytes, same, is_empty, contains_byte}
use frankenphp.Cgi.RequestPath.{clean_request_path, to_slashes}
use frankenphp.Cgi.SplitPos.{script_part}

pub data Rejection : Type 0 where
  invalid_request_path : Rejection
  invalid_content_length : Rejection
  invalid_script_path : Rejection
  max_wait_time_exceeded : Rejection
  request_body_too_large : Rejection

pub data Effect : Type 0 where
  write_header : ℕ → Effect
  write : Bytes → Effect
  write_error : Rejection → Effect  -- the text of the error
  flush : Effect
  add_header : Bytes → Bytes → Effect
  clear_headers : Effect
  set_read_deadline : Effect
  clear_read_deadline : Effect

-- `closes` counts `close(fc.done)`: a second one would panic.
pub record Context : Type 0 where
  pub has_request : Bool
  pub has_writer : Bool
  pub is_flusher : Bool
  pub is_done : Bool
  pub client_had_closed : Bool
  pub headers_written : Bool
  pub has_body_timeout : Bool
  pub closes : ℕ
  pub effects : List Effect

abbrev pub client_has_closed : Bool → Context → Bool
client_has_closed client_gone fc = fc.has_request && client_gone

unfoldable pub close_context : Bool → Context → Context
close_context client_gone fc = if fc.is_done then fc else (record fc {
  client_had_closed = client_has_closed client_gone fc;
  closes = fc.closes + 1;
  is_done = true;
})

abbrev pub does : List Effect → Context → Context
does es fc = record fc { effects = fc.effects ++ es }

abbrev pub status_of : Rejection → ℕ
status_of invalid_request_path = 400
status_of invalid_content_length = 400
status_of invalid_script_path = 404
status_of max_wait_time_exceeded = 503
status_of request_body_too_large = 413

unfoldable pub reject : Bool → Rejection → Context → Context
unfolding close_context
reject client_gone err fc =
    if fc.is_done
    then fc
    else (close_context client_gone (
        if fc.has_writer
        then does
            (write_header (status_of err)
              ∷ write_error err
              ∷ (if fc.is_flusher then flush ∷ [] else []))
            fc
        else fc))

-- The parts of a URL: `raw_path` is empty where the escaped path is the default one.
pub record Url : Type 0 where
  pub path : Bytes
  pub raw_path : Bytes
  pub escaped_path : Bytes

abbrev hex : ℕ → Option ℕ
hex c =
    if leb b'0' c && leb c b'9'
    then some (c - b'0')
    else if leb b'a' c && leb c b'f'
    then some (c - b'a' + 10)
    else if leb b'A' c && leb c b'F'
    then some (c - b'A' + 10)
    else none

-- `url.PathUnescape`: `none` is its error.
unfoldable pub path_unescape : Bytes → Option Bytes
path_unescape [] = some []
path_unescape (c ∷ []) = if c == b'%' then none else some (c ∷ [])
path_unescape (c ∷ d ∷ []) =
    let rest = path_unescape (d ∷ []) in
    if c == b'%' then none else elim rest [ none ↦ none | some s ↦ some (c ∷ s) ]
path_unescape (c ∷ d ∷ e ∷ s) =
    let plain = path_unescape (d ∷ e ∷ s) in
    let rest = path_unescape s in
    if c == b'%'
    then elim (hex d) [
      | none ↦ none
      | some h ↦ elim (hex e) [
        | none ↦ none
        | some l ↦ elim rest [ none ↦ none | some t ↦ some ((h * 16 + l) ∷ t) ]
      ]
    ]
    else elim plain [ none ↦ none | some t ↦ some (c ∷ t) ]

abbrev pub splits_or_php : Option (List Bytes) → List Bytes
splits_or_php none = codes ".php" ∷ []
splits_or_php (some splits) = splits

unfoldable pub escaped_path_selects_another_script : Url → Option (List Bytes) → Bool → Bool
escaped_path_selects_another_script u split_path windows =
    let backslash = windows && contains_byte 92 u.path in
    let splits = splits_or_php split_path in
    if is_empty u.raw_path && not backslash
    then false
    else elim (path_unescape (clean_request_path u.escaped_path windows)) [
      | none ↦ true
      | some escaped ↦ not (
          same (script_part (clean_request_path u.path windows) splits)
            (script_part (if backslash then to_slashes escaped else escaped) splits))
    ]

abbrev is_digit : ℕ → Bool
is_digit c = leb b'0' c && leb c b'9'

abbrev value : ℕ → Bytes → ℕ
value n [] = n
value n (c ∷ s) = value (n * 10 + (c - b'0')) s

abbrev all_digits : Bytes → Bool
all_digits s = not (is_empty s) && not (any (λ c. not (is_digit c)) s)

-- `strconv.Atoi` gives a number that is not negative: digits with a sign or none, in 64 bits.
unfoldable pub is_content_length : Bytes → Bool
is_content_length [] = false
is_content_length (c ∷ s) =
    if c == b'-'
    then all_digits s && value 0 s == 0
    else (let digits = if c == b'+' then s else c ∷ s in
        all_digits digits && ltb (value 0 digits) (2 ^ 63))

-- `content_length` is the header, empty where it is missing; `windows` is `runtime.GOOS`.
unfoldable pub validate :
    Bool → Url → Option (List Bytes) → Bytes → Bool → Context → Context × Option Rejection
validate client_gone u split_path content_length windows fc =
    if contains_byte 0 u.path || escaped_path_selects_another_script u split_path windows
    then (reject client_gone invalid_request_path fc, some invalid_request_path)
    else if not (is_empty content_length) && not (is_content_length content_length)
    then (reject client_gone invalid_content_length fc, some invalid_content_length)
    else (fc, none)
