-- ===== src/Web/Paths/Uploads.antt =====
-- The content of a file that is uploaded.
use google_cloud_final.Base.{
  ◌+◌, ◌-◌, ◌≡◌, sym, ap, ◌∙◌, ltb, on_false, [], ◌∷◌, ◌++◌, some, none, arith, length, take, drop,
  length-append, take-append, append_assoc,
}
use google_cloud_final.Text.{Bytes, codes, position}
use google_cloud_final.Text.Search.{position_first, drop-append_add}
use google_cloud_final.Connection.{crlf}
use google_cloud_final.Outcome.{done, abort}
use google_cloud_final.Web.Paths.{cut_content, content_behind, find_file_content}

-- A part of a form: its header, an empty line, the file, and a boundary of dashes.
abbrev pub upload_form : Bytes → Bytes → Bytes → Bytes
upload_form head content rest =
    head ++ ((crlf ++ crlf) ++ (content ++ (crlf ++ (codes "------" ++ rest))))

-- If the header of a part of a form has no empty line in it, and no six dashes begin in the file
-- or in the line end behind it, the content that is found is the file, byte for byte.
pub find_file_content_lem :
    (head content rest : Bytes)
    → position (crlf ++ crlf) (head ++ 13 ∷ 10 ∷ 13 ∷ []) ≡ none
    → position (codes "------") ((content ++ crlf) ++ codes "-----") ≡ none
    → find_file_content (upload_form head content rest) ≡ done content
unfolding find_file_content
find_file_content_lem head content rest h k =
    let body = content ++ (crlf ++ (codes "------" ++ rest)) in
    let blank : position (crlf ++ crlf) (upload_form head content rest) ≡ some (length head) =
      position_first (13 ∷ 10 ∷ 13 ∷ []) 10 head body h in
    let dashes : position (codes "------") body ≡ some (length (content ++ crlf)) =
      ap (λ s. position (codes "------") s)
        (sym (append_assoc content crlf (codes "------" ++ rest)))
      ∙ position_first (codes "-----") b'-' (content ++ crlf) rest k in
    let from : drop (length head + 4) (upload_form head content rest) ≡ body =
      drop-append_add head ((crlf ++ crlf) ++ body) 4 in
    let two : length (content ++ crlf) ≡ length content + 2 =
      omega (arith, length-append content crlf) in
    let size : length (content ++ crlf) - 2 ≡ length content = omega (arith, two) in
    ap (content_behind (upload_form head content rest)) blank
    ∙ ap (λ s. cut_content s (position (codes "------") s)) from
    ∙ ap (cut_content body) dashes
    ∙ on_false {b = ltb (length (content ++ crlf)) 2} abort (ground (arith, two))
    ∙ ap (λ n. done (take n body)) size
    ∙ ap done (take-append content (crlf ++ (codes "------" ++ rest)))
