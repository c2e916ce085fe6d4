-- ===== src/Mail/Client/Reading.antt =====
-- A mail that was stored is read back.
use google_cloud_final.Base.{
  ℕ, ◌+◌, ◌≡◌, ◌≤◌, refl, sym, ap, ◌∙◌, false, [], ◌∷◌, ◌++◌, length, length-append, arith,
  append_assoc,
}
use google_cloud_final.Text.{
  Bytes, codes, npos, add64, sub64, find, find_after, position, substr, substr_from,
}
use google_cloud_final.Text.Search.{
  Avoids, Avoids-append, find_after-crlf, substr_middle, substr_rest,
}
use google_cloud_final.Connection.{crlf}
use google_cloud_final.Outcome.{Outcome, done, Option, some, ◌>>=◌, or_throw}
use google_cloud_final.Mail.{Email}
use google_cloud_final.Mail.Wire.{hash_md5}
use google_cloud_final.Mail.Client.{parse_email}

-- The text behind `Header ` up to the end of the line, and the rest.
abbrev pub stored : Bytes → Bytes → Bytes
stored header text = codes "Header " ++ (header ++ (crlf ++ text))

-- What a mail is after it was read.
abbrev pub mail_of : (Bytes → Bytes) → Bytes → Bytes → Bytes → Email
mail_of md5 header subject body = record {
  header = codes "Header " ++ header;
  content = body;
  hash = hash_md5 md5 (subject ++ (crlf ++ body));
  deleted = false;
  opened = false;
}

-- The mail of the three parts.
abbrev assemble : (Bytes → Bytes) → Option Bytes → Option Bytes → Option Bytes → Outcome Email
assemble md5 header stored_text content = do
  h ← or_throw header
  s ← or_throw stored_text
  c ← or_throw content
  let mail : Email = record {
    header = h;
    content = c;
    hash = hash_md5 md5 s;
    deleted = false;
    opened = false;
  }
  done mail

-- The mail by the places of the line ends.
abbrev cut_at : (Bytes → Bytes) → Bytes → ℕ → ℕ → Outcome Email
cut_at md5 response f2 f3 =
    assemble md5 (substr response 0 (sub64 f2 0)) (substr_from response (add64 f2 2))
      (substr_from response (add64 f3 2))

-- The cell of a mail, a header line without a carriage return in it and behind it the text, whose
-- first line has none either, is read as the mail with that header, what is behind the first line
-- of the text as its content, and the hash of the text; the cell is shorter than npos by two.
pub parse_email_lem :
    (md5 : Bytes → Bytes) (header subject body : Bytes)
    → Avoids 13 header
    → Avoids 13 subject
    → length (stored header (subject ++ (crlf ++ body))) + 2 ≤ npos
    → parse_email md5 (stored header (subject ++ (crlf ++ body)))
      ≡ done (mail_of md5 header subject body)
unfolding parse_email
parse_email_lem md5 header subject body h k fits =
    let start = codes "Header " ++ header in
    let text = subject ++ (crlf ++ body) in
    let response = stored header text in
    let first : find response (codes "Header ") ≡ 0 = unfold find position in refl in
    let f2 = length start in
    let end_of_header : find_after response crlf 1 ≡ f2 =
      find_after-crlf (codes "H") (codes "eader " ++ header) text 1 refl
        (Avoids-append 13 (codes "eader ") header (omega arith) h)
      ∙ omega arith in
    let regroup : response ≡ (start ++ 13 ∷ []) ++ ((10 ∷ subject) ++ (crlf ++ body)) =
      sym (append_assoc start (13 ∷ []) (10 ∷ text)) in
    let total = length-append start (crlf ++ text) in
    let total' = length-append subject (crlf ++ body) in
    let end_of_subject : find_after response crlf (f2 + 1) ≡ f2 + (2 + length subject) =
      ap (λ s. find_after s crlf (f2 + 1)) regroup
      ∙ find_after-crlf (start ++ 13 ∷ []) (10 ∷ subject) body (f2 + 1)
          (omega (arith, length-append start (13 ∷ []))) (omega arith, k)
      ∙ omega (arith, length-append start (13 ∷ [])) in
    let f3 = f2 + (2 + length subject) in
    let header_part : substr response 0 (sub64 f2 0) ≡ some start =
      ap (λ n. substr response 0 n) (omega (arith, total, fits))
      ∙ substr_middle [] start (crlf ++ text) in
    let stored_part : substr_from response (add64 f2 2) ≡ some text =
      ap (λ n. substr_from response n) (omega (arith, total, fits, length-append start crlf))
      ∙ ap (λ r. substr_from r (length (start ++ crlf))) (sym (append_assoc start crlf text))
      ∙ substr_rest (start ++ crlf) text npos (omega (arith, total, fits)) in
    let before = start ++ (crlf ++ (subject ++ crlf)) in
    let before_length : length before ≡ f3 + 2 =
      omega (arith, length-append start (crlf ++ (subject ++ crlf)), length-append subject crlf) in
    let content_part : substr_from response (add64 f3 2) ≡ some body =
      ap (λ n. substr_from response n) (omega (arith, total, total', fits, before_length))
      ∙ ap (λ r. substr_from r (length before)) (simp (append_assoc))
      ∙ substr_rest before body npos (omega (arith, total, total', fits)) in
    ap (λ e. cut_at md5 response e (find_after response crlf (add64 e 1))) end_of_header
    ∙ ap (λ e. cut_at md5 response f2 (find_after response crlf e)) (omega (arith, total, fits))
    ∙ ap (λ e. cut_at md5 response f2 e) end_of_subject
    ∙ rw (header_part, stored_part, content_part) refl
