-- ===== src/Web/Reply.antt =====
-- frontendServer/response.cc: the answers.
use google_cloud_final.Base.{List, [], ◌∷◌, ◌++◌, if◌then◌else◌}
use google_cloud_final.Text.{Bytes, codes, equal}
use google_cloud_final.Map.{insert}
use google_cloud_final.Connection.{c_str, crlf, do_write}
use google_cloud_final.Outcome.{Outcome, done, ◌>>=◌}
use google_cloud_final.Web.Site.{Host, Web}
use google_cloud_final.Web.Template.{Replacements, get_html, replace_get_html}
use google_cloud_final.Web.Request.{fits}

abbrev pub ok : Bytes
ok = codes "200"

abbrev pub redirect : Bytes
redirect = codes "307"

abbrev pub see_other : Bytes
see_other = codes "303"

abbrev pub text_html : Bytes
text_html = codes "text/html"

-- The header, one line for each entry.
unfoldable pub header_lines : Bytes → List (Bytes × Bytes) → Bytes
header_lines separator [] = []
header_lines separator ((name, value) ∷ rest) =
    name ++ (separator ++ (value ++ (crlf ++ header_lines separator rest)))

-- `status_char` in `replace_reply`, and in `reply`.
abbrev pub replaced_reason : Bytes → Bytes
replaced_reason status =
    if equal status ok
    then codes "OK"
    else if equal status redirect
    then codes "Temporary Redirect"
    else []

abbrev pub reason_of : Bytes → Bytes
reason_of status = if equal status see_other then codes "See Other" else replaced_reason status

module _ {D W : Type 0} where
  abbrev pub set_header : Bytes → Bytes → Web D W → Web D W
  set_header name value w = record w { header = insert name value w.header }

  abbrev pub set_status : Bytes → Web D W → Web D W
  set_status status w = record w { status = status }

  -- The page is HTML, and the browser is given the cookie of the user.
  abbrev pub as_html : Web D W → Web D W
  as_html w = set_header (codes "Content-type") text_html w

  abbrev pub with_cookie : Web D W → Web D W
  with_cookie w = set_header (codes "Set-Cookie") (codes "username=" ++ w.username) w

  -- The result of `do_write` is not looked at.
  abbrev pub send : Bytes → Web D W → Web D W
  send text w = record w { client = (do_write w.client text).1 }

  -- The first line and the header.
  unfoldable pub head :
      Bytes → Bytes → (List (Bytes × Bytes) → List (Bytes × Bytes)) → Web D W → Bytes
  unfolding header_lines
  head reason separator walk w =
      w.version
      ++ (codes " "
          ++ (w.status
              ++ (codes " "
                  ++ (reason ++ (crlf ++ (header_lines separator (walk w.header) ++ crlf))))))

  -- `replace_reply`; the text is written up to its first zero byte.
  unfoldable pub replace_reply : Host W → Bytes → Replacements → Web D W → Outcome (Web D W)
  replace_reply host address replacement w = do
    page ← replace_get_html host.html address (host.walk replacement)
    done (send (c_str (head (replaced_reason w.status) (codes ":") host.walk w ++ page)) w)

  -- The text of `reply`.
  abbrev pub reply_text : Host W → Web D W → Bytes → Bytes
  reply_text host w page = c_str (head (reason_of w.status) (codes ": ") host.walk w ++ page)

  -- `reply`; the text is copied into an array of 10000 bytes.
  unfoldable pub reply : Host W → Bytes → Web D W → Outcome (Web D W)
  reply host address w = do
    page ← get_html host.html address
    res ← fits 10000 (reply_text host w page)
    done (send res w)

  -- The replacement of the name of the user, which nearly every page has.
  abbrev pub user_of : Web D W → Replacements
  user_of w = (codes "$user", w.username) ∷ []

  -- The browser is sent to another page of the site.
  unfoldable pub see : Host W → Bytes → Bytes → Web D W → Outcome (Web D W)
  see host address location w =
      replace_reply host address (user_of w)
        (with_cookie (set_header (codes "Location") location (as_html (set_status see_other w))))
