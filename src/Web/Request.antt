-- ===== src/Web/Request.antt =====
-- frontendServer/request.cc: a request is read from the connection.  A `got` is never longer than
-- the buffer of 4000000 bytes; as the socket has a time-out, `read` fails where no event is left.
-- `stack` is what the 128 bytes of the array `value` hold before they are written.
pub mod Rounds
pub mod Get
use google_cloud_final.Base.{
  ℕ, zero, suc, ◌+◌, ◌-◌, Bool, true, false, not, ◌&&◌, List, [], ◌∷◌, ◌++◌, Option, none, some,
  length, take, drop, get_elem?, ltb, ◌==◌, if◌then◌else◌,
}
use google_cloud_final.Text.{Bytes, codes, position, equal}
use google_cloud_final.Map.{Map, insert}
use google_cloud_final.CText.{strcasecmp, strtok}
use google_cloud_final.Connection.{ReadEvent, got, read_failed, c_str, crlf}
use google_cloud_final.Outcome.{Outcome, done, abort, blocked, ◌>>=◌, or_throw}

pub record Request : Type 0 where
  pub method : Bytes
  pub path : Bytes
  pub version : Bytes
  pub message : Bytes
  pub cookies : Map Bytes

-- What the loop keeps: the request, the buffer, where a line starts and ends, whether the first
-- line was read, and whether the message follows.
pub record Reading : Type 0 where
  pub request : Request
  pub buffer : Bytes
  pub start : ℕ
  pub end_of_line : ℕ
  pub has_line : Bool
  pub message_body : Bool
  pub events : List ReadEvent

-- The array `value` after the first `n` bytes of `token` were written; `none` if it has no zero.
abbrev pub value_of : Bytes → Bytes → ℕ → Option Bytes
value_of stack token n =
    let value = take n token ++ drop n stack in
    if length (c_str value) == length value then none else some (c_str value)

-- How many bytes of the value are copied: without `;`, or without `\r\n`.
abbrev pub value_length : Bytes → ℕ
value_length token = elim (get_elem? token (length token - 2)) [
  | none ↦ length token - 2
  | some c ↦ if c == b';' then length token - 1 else length token - 2
]

-- A text that must fit into an array of `n` bytes.
abbrev pub fits : ℕ → Bytes → Outcome Bytes
fits n text = if ltb (length text) n then done text else abort

-- The pair of one token of the cookies.  The calls of `strtok` for key and value leave no token for
-- the loop to go on with; a token behind a second `=` would be copied over itself.
unfoldable pub parse_cookie : Bytes → Bytes → Map Bytes → Outcome (Map Bytes)
unfolding strtok
parse_cookie stack text cookies = do
  cookie_copy ← fits 512 text
  let one = (λ (token : Bytes). (do
    copy_token ← fits 256 token
    (name, rest) ← or_throw (strtok copy_token (codes "="))
    key ← fits 128 name
    (token2, rest2) ← or_throw (strtok rest (codes "="))
    let set = (do
      value ← or_throw (value_of stack token2 (value_length token2))
      let next : Outcome (Map Bytes) = elim (strtok rest2 (codes " ")) [
        | none ↦ done (insert key value cookies)
        | some p ↦ abort
      ]
      next)
    if length token2 == 1 then abort else if ltb 128 (value_length token2) then abort else set))
  elim (strtok cookie_copy (codes " ")) [ none ↦ done cookies | some (token, rest) ↦ one token ]

-- The method, the path and the version in the first line.
unfoldable pub first_line : Bytes → Request → Outcome Request
first_line copy r = do
  (method, rest) ← or_throw (strtok copy (codes " " ++ 13 ∷ []))
  (path, rest2) ← or_throw (strtok rest (codes " "))
  (version, rest3) ← or_throw (strtok rest2 (codes " "))
  done (record r { method = method; path = path; version = take (length version - 1) version })

abbrev pub go_on : Reading → Outcome (Request × Option Reading)
go_on r = done (r.request, some r)

-- What a line does; `none` says that the loop ends.
unfoldable pub take_line : Bytes → Bytes → Reading → Outcome (Request × Option Reading)
unfolding first_line parse_cookie strcasecmp
take_line stack copy r =
    let req = r.request in
    let first = (do
      req' ← first_line copy req
      go_on (record r { request = req'; has_line = true })) in
    let cookie = (do
      cookies ← parse_cookie stack (drop 8 copy) req.cookies
      go_on (record r { request = record req { cookies = cookies } })) in
    let body = go_on (record r {
      request = record req { message = req.message ++ drop r.start r.buffer };
      end_of_line = length r.buffer;
    }) in
    if not r.has_line
    then first
    else if ltb 8 (length copy) && equal (take 8 copy) (codes "Cookie: ")
    then cookie
    else if strcasecmp copy crlf
    then (if strcasecmp (c_str req.method) (codes "get")
        then done (req, none)
        else go_on (record r { message_body = true }))
    else if r.message_body
    then body
    else go_on r

-- The text from `start` to the end of the line, in its copy of 4000000 bytes.
unfoldable pub cut_line : Bytes → Reading → Outcome (Request × Option Reading)
unfolding take_line
cut_line stack r =
    let past : ℕ = if r.message_body then r.end_of_line else r.end_of_line + 2 in
    let receive = take (past - r.start) (drop r.start r.buffer) in
    do
      copy ← fits 4000000 (c_str receive)
      take_line stack copy
          (record r { start = (if r.message_body then r.start else past); end_of_line = past })

-- The bytes of one call of `read`; `none` if there are none.
abbrev pub read_more : Reading → Option Reading
read_more r = elim r.events [
  | [] ↦ none
  | read_failed ∷ rest ↦ none
  | got [] ∷ rest ↦ none
  | got (c ∷ chunk) ∷ rest ↦ some (record r { buffer = r.buffer ++ c ∷ chunk; events = rest })
]

-- A line without its end is all of the buffer.
abbrev pub to_end : Reading → Reading
to_end r = record r { start = r.end_of_line; end_of_line = length r.buffer }

-- One round of the loop.
unfoldable pub round : Bytes → Reading → Outcome (Request × Option Reading)
unfolding cut_line position
round stack r = elim (position crlf (drop r.end_of_line r.buffer)) [
  | some i ↦ cut_line stack (record r { end_of_line = r.end_of_line + i })
  | none ↦
      if r.message_body
      then (if r.end_of_line == length r.buffer
          then elim (read_more r) [
            | none ↦ done (r.request, none)
            | some r' ↦
                cut_line stack (record r' { start = r.end_of_line; end_of_line = length r'.buffer })
          ]
          else cut_line stack (to_end r))
      else elim (read_more r) [
        | none ↦ done (r.request, none)
        | some r' ↦ done (r.request, some r')
      ]
]

unfoldable pub read_loop : Bytes → ℕ → Reading → Outcome Request
unfolding round
read_loop stack zero r = blocked
read_loop stack (suc fuel) r = do
  (req, next) ← round stack r
  elim next [ none ↦ done req | some r' ↦ read_loop stack fuel r' ]

abbrev pub no_request : Request
no_request = record { method = []; path = []; version = []; message = []; cookies = [] }

abbrev pub start_reading : List ReadEvent → Reading
start_reading events = record {
  request = no_request;
  buffer = [];
  start = 0;
  end_of_line = 0;
  has_line = false;
  message_body = false;
  events = events;
}

-- The constructor of `request`.
unfoldable pub read_request : Bytes → ℕ → List ReadEvent → Outcome Request
unfolding read_loop
read_request stack fuel events = read_loop stack fuel (start_reading events)
