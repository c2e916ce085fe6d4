-- ===== src/Web/Request/Get.antt =====
-- A GET as a browser sends it is read, however it is cut into pieces.
use google_cloud_final.Base.{
  ℕ, zero, suc, ◌+◌, ◌<◌, ◌≡◌, ◌≢◌, append-nil, refl, sym, ap, ◌∙◌, Bool, true, false, List, [],
  ◌∷◌, ◌++◌, none, some, arith, length, drop, drop-append, append_assoc, Option-cases, inl, inr,
}
use google_cloud_final.Text.{Bytes, codes, position}
use google_cloud_final.Text.Search.{Avoids, Avoids-append, position-crlf}
use google_cloud_final.CText.{strcasecmp}
use google_cloud_final.Connection.{ReadEvent, got, c_str, crlf, with_crlf}
use google_cloud_final.Connection.Reads.{c_str-Avoids}
use google_cloud_final.Outcome.{done}
use google_cloud_final.Web.Request.{Request, take_line, round, read_loop, read_request, no_request}
use google_cloud_final.Web.Request.Rounds.{
  at_place, at_line, IsLine, IsHeader, round-line, take_line-header, take_line-blank, split_line,
  continue, IsToken, request_line, first_line_lem,
}

-- What the calls of `read` yield, each at least one byte.
abbrev pub Chunks : Type 0
Chunks = List (ℕ × Bytes)

abbrev pub events_of : Chunks → List ReadEvent
events_of [] = []
events_of ((c, chunk) ∷ chunks) = got (c ∷ chunk) ∷ events_of chunks

abbrev pub bytes_of : Chunks → Bytes
bytes_of [] = []
bytes_of ((c, chunk) ∷ chunks) = (c ∷ chunk) ++ bytes_of chunks

abbrev pub AllHeaders : List Bytes → Type 0
AllHeaders [] = Unit {0}
AllHeaders (line ∷ lines) = IsHeader line × AllHeaders lines

-- The lines, an empty line, and what is behind it.
abbrev pub to_blank : List Bytes → Bytes → Bytes
to_blank lines rest = with_crlf lines ++ (crlf ++ rest)

to_blank-cons :
    (line : Bytes) (lines : List Bytes) (rest : Bytes)
    → to_blank (line ∷ lines) rest ≡ line ++ (crlf ++ to_blank lines rest)
to_blank-cons line lines rest = simp (append_assoc)

module _ (stack : Bytes) where
  -- Without the end of a line, more is read.
  round-more :
      (req : Request) (has_line : Bool) (pre s : Bytes) (c : ℕ) (chunk : Bytes) (chunks : Chunks)
      → position crlf s ≡ none
      → round stack (at_line req has_line pre s (events_of ((c, chunk) ∷ chunks)))
        ≡ done (req, some (at_line req has_line pre (s ++ c ∷ chunk) (events_of chunks)))
  unfolding round
  round-more req has_line pre s c chunk chunks h =
      let found : position crlf (drop (length pre) (pre ++ s)) ≡ none =
        ap (position crlf) (drop-append pre s) ∙ h in
      let buffer : (pre ++ s) ++ c ∷ chunk ≡ pre ++ (s ++ c ∷ chunk) =
        append_assoc pre s (c ∷ chunk) in
      rw (found, round)
        (ap (λ b. done (req, some (at_place req has_line b (length pre) (events_of chunks))))
          buffer)

  -- With no end of a line in the buffer, something is left to read.
  no_line_end :
      (line s t u : Bytes)
      → Avoids 13 line
      → position crlf s ≡ none
      → s ++ t ≡ line ++ (crlf ++ u)
      → t ≢ []
  no_line_end line s t u h e q nil =
      let whole : s ≡ line ++ (crlf ++ u) = sym (append-nil s) ∙ ap (λ r. s ++ r) (sym nil) ∙ q in
      let found = ap (position crlf) whole ∙ position-crlf line u h in cc (found, e)

  module _ (req : Request) (rest : Bytes)
      (get : strcasecmp (c_str req.method) (codes "get") ≡ true) where
    -- The empty line is in the buffer.
    blank_case :
        (fuel : ℕ) (pre s t : Bytes) (events : List ReadEvent) (i : ℕ)
        → position crlf s ≡ some i
        → s ++ t ≡ to_blank [] rest
        → read_loop stack (suc fuel) (at_line req true pre s events) ≡ done req
    unfolding read_loop
    blank_case fuel pre s t events i e q =
        let empty : IsLine [] = record { no_return = tt; no_zero = tt; short = omega arith } in
        let (s', here, later) = split_line [] s t rest i tt e q in
        ap (λ r. continue stack fuel (round stack (at_line req true pre r events))) here
        ∙ ap (continue stack fuel) (
            round-line stack req true pre [] s' events empty
            ∙ take_line-blank stack req s' events (pre ++ crlf) get)

    -- The end of a line of the header is in the buffer.
    line_case :
        (fuel : ℕ) (pre s t line : Bytes) (lines : List Bytes) (events : List ReadEvent) (i : ℕ)
        → IsHeader line
        → position crlf s ≡ some i
        → s ++ t ≡ to_blank (line ∷ lines) rest
        → ((s' : Bytes)
            → s' ++ t ≡ to_blank lines rest
            → read_loop stack fuel (at_line req true (pre ++ (line ++ crlf)) s' events) ≡ done req)
        → read_loop stack (suc fuel) (at_line req true pre s events) ≡ done req
    unfolding read_loop
    line_case fuel pre s t line lines events i h e q next =
        let whole = q ∙ to_blank-cons line lines rest in
        let (s', here, later) =
          split_line line s t (to_blank lines rest) i h.is_line.no_return e whole in
        ap (λ r. continue stack fuel (round stack (at_line req true pre r events))) here
        ∙ ap (continue stack fuel) (
            round-line stack req true pre line s' events h.is_line
            ∙ take_line-header stack req s' events line (pre ++ (line ++ crlf)) h)
        ∙ next s' later

    -- The end of a line is still to come.
    more_case :
        (fuel : ℕ) (pre s : Bytes) (c : ℕ) (chunk : Bytes) (chunks : Chunks) (all : Bytes)
        → position crlf s ≡ none
        → s ++ bytes_of ((c, chunk) ∷ chunks) ≡ all
        → ((s' : Bytes)
            → s' ++ bytes_of chunks ≡ all
            → read_loop stack fuel (at_line req true pre s' (events_of chunks)) ≡ done req)
        → read_loop stack (suc fuel) (at_line req true pre s (events_of ((c, chunk) ∷ chunks)))
          ≡ done req
    unfolding read_loop
    more_case fuel pre s c chunk chunks all e q next =
        ap (continue stack fuel) (round-more req true pre s c chunk chunks e)
        ∙ next (s ++ c ∷ chunk) (append_assoc s (c ∷ chunk) (bytes_of chunks) ∙ q)

    read_loop-chunks :
        (fuel : ℕ) (pre s : Bytes) (chunks : Chunks) (lines : List Bytes)
        → length chunks + length lines < fuel
        → s ++ bytes_of chunks ≡ to_blank lines rest
        → AllHeaders lines
        → read_loop stack fuel (at_line req true pre s (events_of chunks)) ≡ done req
    read_loop-chunks zero pre s chunks lines f q h = absurd (omega arith)
    read_loop-chunks (suc fuel) pre s [] [] f q h = elim (Option-cases (position crlf s)) [
      | inl e ↦ absurd (no_line_end [] s [] rest tt e q refl)
      | inr (i, e) ↦ blank_case fuel pre s [] [] i e q
    ]
    read_loop-chunks (suc fuel) pre s [] (line ∷ lines) f q h =
        elim (Option-cases (position crlf s)) [
          | inl e ↦ absurd (
              no_line_end line s [] (to_blank lines rest) h.0.is_line.no_return e
                (q ∙ to_blank-cons line lines rest) refl)
          | inr (i, e) ↦ line_case fuel pre s [] line lines [] i h.0 e q (λ s' later.
              read_loop-chunks fuel (pre ++ (line ++ crlf)) s' [] lines (omega arith) later h.1)
        ]
    read_loop-chunks (suc fuel) pre s ((c, chunk) ∷ chunks) [] f q h =
        elim (Option-cases (position crlf s)) [
          | inl e ↦
              more_case fuel pre s c chunk chunks _ e q
                (λ s' later. read_loop-chunks fuel pre s' chunks [] (omega arith) later h)
          | inr (i, e) ↦
              blank_case fuel pre s (bytes_of ((c, chunk) ∷ chunks))
                (events_of ((c, chunk) ∷ chunks)) i e q
        ]
    read_loop-chunks (suc fuel) pre s ((c, chunk) ∷ chunks) (line ∷ lines) f q h =
        elim (Option-cases (position crlf s)) [
          | inl e ↦
              more_case fuel pre s c chunk chunks _ e q (λ s' later.
                read_loop-chunks fuel pre s' chunks (line ∷ lines) (omega arith) later h)
          | inr (i, e) ↦
              line_case fuel pre s (bytes_of ((c, chunk) ∷ chunks)) line lines
                (events_of ((c, chunk) ∷ chunks)) i h.0 e q
                (λ s' later.
                  read_loop-chunks fuel (pre ++ (line ++ crlf)) s' ((c, chunk) ∷ chunks) lines
                    (omega arith) later h.1)
        ]

-- A request that was read.
abbrev pub get_of : Bytes → Bytes → Bytes → Request
get_of method path version = record {
  method = method;
  path = path;
  version = version ++ 13 ∷ [];
  message = [];
  cookies = [];
}

-- The text of a request: the first line, the header, an empty line, and what is behind it.
abbrev pub request_text : Bytes → Bytes → Bytes → List Bytes → Bytes → Bytes
request_text method path version lines rest =
    request_line method path version ++ (crlf ++ to_blank lines rest)

module _ (stack method path version : Bytes) (m : IsToken method) (p : IsToken path)
    (v : IsToken version) where
  take_line-first :
      (pre s : Bytes) (events : List ReadEvent)
      → take_line stack
          (request_line method path version ++ crlf)
          (at_line no_request false pre s events)
        ≡ done (
          get_of method path version,
          some (at_line (get_of method path version) true pre s events),
        )
  unfolding take_line
  take_line-first pre s events = rw (first_line_lem method path version no_request m p v) refl

  module _ (short : length (request_line method path version) + 2 < 4000000)
      (get : strcasecmp method (codes "get") ≡ true) (lines : List Bytes) (rest : Bytes)
      (h : AllHeaders lines) where
    is_first : IsLine (request_line method path version)
    is_first = record {
      no_return = Avoids-append 13 method (32 ∷ (path ++ 32 ∷ version)) m.no_return (
        omega arith,
        Avoids-append 13 path (32 ∷ version) p.no_return (omega arith, v.no_return),
      );
      no_zero =
          Avoids-append 0 method (32 ∷ (path ++ 32 ∷ version)) m.no_zero
            (omega arith, Avoids-append 0 path (32 ∷ version) p.no_zero (omega arith, v.no_zero));
      short = short;
    }

    is_get : strcasecmp (c_str method) (codes "get") ≡ true
    is_get = ap (λ t. strcasecmp t (codes "get")) (c_str-Avoids method m.no_zero) ∙ get

    -- The end of the first line is in the buffer.
    first_case :
        (fuel : ℕ) (s : Bytes) (chunks : Chunks) (i : ℕ)
        → position crlf s ≡ some i
        → length chunks + length lines < fuel
        → s ++ bytes_of chunks ≡ request_text method path version lines rest
        → read_loop stack (suc fuel) (at_line no_request false [] s (events_of chunks))
          ≡ done (get_of method path version)
    unfolding read_loop
    first_case fuel s chunks i e f q =
        let line = request_line method path version in
        let (s', here, later) =
          split_line line s (bytes_of chunks) (to_blank lines rest) i is_first.no_return e q in
        let events = events_of chunks in
        ap (λ r. continue stack fuel (round stack (at_line no_request false [] r events))) here
        ∙ ap (continue stack fuel) (
            round-line stack no_request false [] line s' events is_first
            ∙ take_line-first (line ++ crlf) s' events)
        ∙ read_loop-chunks stack (get_of method path version) rest is_get fuel (line ++ crlf) s'
            chunks lines f later h

    read_loop-first :
        (fuel : ℕ) (s : Bytes) (chunks : Chunks)
        → length chunks + length lines + 1 < fuel
        → s ++ bytes_of chunks ≡ request_text method path version lines rest
        → read_loop stack fuel (at_line no_request false [] s (events_of chunks))
          ≡ done (get_of method path version)
    unfolding read_loop
    read_loop-first zero s chunks f q = absurd (omega arith)
    read_loop-first (suc fuel) s [] f q = elim (Option-cases (position crlf s)) [
      | inl e ↦ absurd (no_line_end stack _ s [] (to_blank lines rest) is_first.no_return e q refl)
      | inr (i, e) ↦ first_case fuel s [] i e (omega arith) q
    ]
    read_loop-first (suc fuel) s ((c, chunk) ∷ chunks) f q = elim (Option-cases (position crlf s)) [
      | inl e ↦
          ap (continue stack fuel) (round-more stack no_request false [] s c chunk chunks e)
          ∙ read_loop-first fuel (s ++ c ∷ chunk) chunks (omega arith)
              (append_assoc s (c ∷ chunk) (bytes_of chunks) ∙ q)
      | inr (i, e) ↦ first_case fuel s ((c, chunk) ∷ chunks) i e (omega arith) q
    ]

    -- A GET has a first line of three words with single spaces between them, a header whose lines
    -- are neither empty nor cookies, and an empty line; each line fits into its array of 4000000
    -- bytes and has no zero byte or carriage return.  However the connection cuts the text into
    -- pieces of at least one byte, the request is read in a round for each piece and each line and
    -- one more: it has the method and the path of the first line, the version with a carriage
    -- return behind it, no cookies and no message.  What comes behind the empty line is not read.
    pub read_request-get :
        (fuel : ℕ) (chunks : Chunks)
        → length chunks + length lines + 1 < fuel
        → bytes_of chunks ≡ request_text method path version lines rest
        → read_request stack fuel (events_of chunks) ≡ done (get_of method path version)
    unfolding read_request
    read_request-get fuel chunks f q = read_loop-first fuel [] chunks f q
