-- ===== src/Web/Request/Rounds.antt =====
-- One round of the loop that reads a request: a line, the empty line, the first line.
use google_cloud_final.Base.{
  ℕ, ◌+◌, ◌-◌, ◌<◌, ◌≡◌, refl, sym, ap, ◌∙◌, Bool, true, false, List, [], ◌∷◌, ◌++◌, Option, none,
  some, arith, length, take, drop, length-append, take-append, drop-append, append_assoc,
  Option-cases, inl, inr,
}
use google_cloud_final.Text.{Bytes, codes, is_prefix, position, equal}
use google_cloud_final.Text.Search.{Avoids, Avoids-append, position-crlf}
use google_cloud_final.CText.{strcasecmp}
use google_cloud_final.CText.Tokens.{Free, Free-append, strtok_first, strtok_last}
use google_cloud_final.Connection.{ReadEvent, c_str, crlf}
use google_cloud_final.Connection.Reads.{c_str-Avoids}
use google_cloud_final.Outcome.{Outcome, done, ◌>>=◌}
use google_cloud_final.Web.Request.{
  Request, Reading, fits, first_line, take_line, cut_line, round, read_loop,
}

pub fits_lem : (n : ℕ) (text : Bytes) → length text < n → fits n text ≡ done text
fits_lem n text h = ground arith

-- The bytes of the buffer before `n` were read, and a line starts at `n`.
abbrev pub at_place : Request → Bool → Bytes → ℕ → List ReadEvent → Reading
at_place req has_line buffer n events = record {
  request = req;
  buffer = buffer;
  start = n;
  end_of_line = n;
  has_line = has_line;
  message_body = false;
  events = events;
}

-- The text `pre` was read, and `s` is in the buffer behind it.
abbrev pub at_line : Request → Bool → Bytes → Bytes → List ReadEvent → Reading
at_line req has_line pre s events = at_place req has_line (pre ++ s) (length pre) events

-- A line that the arrays hold: no carriage return, no zero byte, and not too long.
pub record IsLine (line : Bytes) : Type 0 where
  pub no_return : Avoids 13 line
  pub no_zero : Avoids 0 line
  pub short : length line + 2 < 4000000

module _ (stack : Bytes) (req : Request) (has_line : Bool) (pre line s : Bytes)
    (events : List ReadEvent) (w : IsLine line) where
  cut_line_lem :
      cut_line stack (record (at_line req has_line pre (line ++ (crlf ++ s)) events) {
        end_of_line = length pre + length line;
      })
      ≡ take_line stack (line ++ crlf) (at_line req has_line (pre ++ (line ++ crlf)) s events)
  unfolding cut_line
  cut_line_lem =
      let all = pre ++ (line ++ (crlf ++ s)) in
      let past = length pre + length line + 2 in
      let amount : past - length pre ≡ length (line ++ crlf) =
        omega (arith, length-append line crlf) in
      let received : take (past - length pre) (drop (length pre) all) ≡ line ++ crlf =
        ap (λ n. take n (drop (length pre) all)) amount
        ∙ ap (take (length (line ++ crlf))) (drop-append pre (line ++ (crlf ++ s)))
        ∙ ap (take (length (line ++ crlf))) (sym (append_assoc line crlf s))
        ∙ take-append (line ++ crlf) s in
      let text : c_str (line ++ crlf) ≡ line ++ crlf =
        c_str-Avoids (line ++ crlf) (Avoids-append 0 line crlf w.no_zero (omega arith)) in
      let copied : fits 4000000 (c_str (take (past - length pre) (drop (length pre) all)))
          ≡ done (line ++ crlf) =
        ap (λ t. fits 4000000 (c_str t)) received
        ∙ ap (fits 4000000) text
        ∙ fits_lem 4000000 (line ++ crlf) (omega (arith, length-append line crlf, w.short)) in
      let place : past ≡ length (pre ++ (line ++ crlf)) =
        omega (arith, length-append pre (line ++ crlf), length-append line crlf) in
      let buffer : all ≡ (pre ++ (line ++ crlf)) ++ s = simp (append_assoc) in
      ap (λ o. o >>= λ copy. take_line stack copy (at_place req has_line all past events)) copied
      ∙ ap (λ n. take_line stack (line ++ crlf) (at_place req has_line all n events)) place
      ∙ ap
          (λ b.
            take_line stack (line ++ crlf)
              (at_place req has_line b (length (pre ++ (line ++ crlf))) events))
          buffer

  pub round-line :
      round stack (at_line req has_line pre (line ++ (crlf ++ s)) events)
      ≡ take_line stack (line ++ crlf) (at_line req has_line (pre ++ (line ++ crlf)) s events)
  unfolding round
  round-line =
      let found : position crlf (drop (length pre) (pre ++ (line ++ (crlf ++ s))))
          ≡ some (length line) =
        ap (position crlf) (drop-append pre (line ++ (crlf ++ s)))
        ∙ position-crlf line s w.no_return in
      rw (found, round) cut_line_lem

-- The first line of a text that is only partly in the buffer, if its end is.
pub split_line :
    (line s t u : Bytes) (i : ℕ)
    → Avoids 13 line
    → position crlf s ≡ some i
    → s ++ t ≡ line ++ (crlf ++ u)
    → (s' : Bytes) × (s ≡ line ++ (crlf ++ s')) × (s' ++ t ≡ u)
unfolding position is_prefix
split_line [] [] t u i h e q = cc
split_line [] (x ∷ []) t u i h e q = absurd (ground (arith, e))
split_line [] (x ∷ y ∷ s) t u i h e q = (s, cc, cc)
split_line (c ∷ line) [] t u i h e q = cc
split_line (c ∷ line) (x ∷ s) t u i h e q =
    let same : x ≡ c = cc in
    let tails : s ++ t ≡ line ++ (crlf ++ u) = cc in
    elim (Option-cases (position crlf s)) [
      | inl none_left ↦ absurd (ground (arith, e, same, h.0, none_left))
      | inr (j, f) ↦ let (s', p, r) = split_line line s t u j h.1 f tails in (s', cc, r)
    ]

-- A line of the header that is not a cookie.
pub record IsHeader (line : Bytes) : Type 0 where
  pub is_line : IsLine line
  pub not_empty : 0 < length line
  pub not_cookie : equal (take 8 (line ++ crlf)) (codes "Cookie: ") ≡ false

not_crlf :
    (line : Bytes) → Avoids 13 line → 0 < length line → strcasecmp (line ++ crlf) crlf ≡ false
unfolding strcasecmp
not_crlf [] h n = absurd (omega arith)
not_crlf (c ∷ line) h n = ground (arith, h.0)

module _ (stack : Bytes) (req : Request) (s : Bytes) (events : List ReadEvent) where
  pub take_line-header :
      (line pre : Bytes)
      → IsHeader line
      → take_line stack (line ++ crlf) (at_line req true pre s events)
        ≡ done (req, some (at_line req true pre s events))
  unfolding take_line
  take_line-header line pre h =
      ground (arith, h.not_cookie, not_crlf line h.is_line.no_return h.not_empty)

  -- The empty line ends a GET.
  pub take_line-blank :
      (pre : Bytes)
      → strcasecmp (c_str req.method) (codes "get") ≡ true
      → take_line stack crlf (at_line req true pre s events) ≡ done (req, none)
  unfolding take_line
  take_line-blank pre h = ground (arith, h)

-- What follows a round.
abbrev pub continue : Bytes → ℕ → Outcome (Request × Option Reading) → Outcome Request
continue stack fuel o = o >>= λ p. elim p.1 [ none ↦ done p.0 | some r' ↦ read_loop stack fuel r' ]

-- A word of the first line: not empty, no carriage return, zero byte or space.
pub record IsToken (s : Bytes) : Type 0 where
  pub some_byte : 0 < length s
  pub no_zero : Avoids 0 s
  pub no_return : Avoids 13 s
  pub no_space : Avoids 32 s

Free-spaces : (s : Bytes) → Avoids 32 s → Avoids 13 s → Free (codes " " ++ 13 ∷ []) s
Free-spaces [] h k = tt
Free-spaces (c ∷ s) h k = (ground (arith, h.0, k.0), Free-spaces s h.1 k.1)

Free-space : (s : Bytes) → Avoids 32 s → Free (codes " ") s
Free-space [] h = tt
Free-space (c ∷ s) h = (ground (arith, h.0), Free-space s h.1)

-- The first line of a request.
abbrev pub request_line : Bytes → Bytes → Bytes → Bytes
request_line method path version = method ++ 32 ∷ (path ++ 32 ∷ version)

pub first_line_lem :
    (method path version : Bytes) (req : Request)
    → IsToken method
    → IsToken path
    → IsToken version
    → first_line (request_line method path version ++ crlf) req
      ≡ done (record req { method = method; path = path; version = version ++ 13 ∷ [] })
unfolding first_line
first_line_lem method path version req m p v =
    let regroup : request_line method path version ++ crlf
        ≡ method ++ 32 ∷ (path ++ 32 ∷ (version ++ crlf)) =
      simp (append_assoc) in
    let first =
      strtok_first (codes " " ++ 13 ∷ []) method (path ++ 32 ∷ (version ++ crlf)) 32 m.some_byte
        (Free-spaces method m.no_space m.no_return) refl in
    let second =
      strtok_first (codes " ") path (version ++ crlf) 32 p.some_byte (Free-space path p.no_space)
        refl in
    let third =
      strtok_last (codes " ") (version ++ crlf) (omega (arith, length-append version crlf))
        (Free-append (codes " ") version crlf (Free-space version v.no_space) (refl, (refl, tt))) in
    let amount : length (version ++ crlf) - 1 ≡ length (version ++ 13 ∷ []) =
      omega (arith, length-append version crlf, length-append version (13 ∷ [])) in
    let cut : take (length (version ++ crlf) - 1) (version ++ crlf) ≡ version ++ 13 ∷ [] =
      ap (λ n. take n (version ++ crlf)) amount
      ∙ ap (take (length (version ++ 13 ∷ []))) (sym (append_assoc version (13 ∷ []) (10 ∷ [])))
      ∙ take-append (version ++ 13 ∷ []) (10 ∷ []) in
    rw (regroup, first, second, third, cut) refl
