-- ===== src/Tests/Web.antt =====
-- A web server with one page and a storage that accepts one password, and requests to it.
use google_cloud_final.Base.{
  ℕ, ◌<◌, length, ◌≡◌, refl, Bool, true, false, ◌&&◌, leb, List, [], ◌∷◌, ◌++◌, none, some, arith,
}
use google_cloud_final.Text.{Bytes, codes, equal, less, position, substr}
use google_cloud_final.Text.Lines.{lines}
use google_cloud_final.Map.{Map, lookup, has, insert}
use google_cloud_final.CText.{strcasecmp}
use google_cloud_final.Connection.{c_str, Connection, ReadEvent, got, crlf}
use google_cloud_final.Outcome.{Outcome, done, Ensures}
use google_cloud_final.Web.Site.{Drive, Host, Web}
use google_cloud_final.Web.Escape.{parse_email, parse_path}
use google_cloud_final.Web.Escape.RoundTrip.{
  escape, parse_path-escape, EncodesForm, mail_form, parse_email-form,
}
use google_cloud_final.Web.Template.{
  replace, replace_loop, replace_each, replace_lines, replace_get_html, get_html,
}
use google_cloud_final.Web.Reply.{replace_reply, header_lines}
use google_cloud_final.Web.Template.Laws.{Replaced, replace_lem}
use google_cloud_final.Web.Request.{read_request}
use google_cloud_final.Web.Request.Rounds.{IsHeader, IsToken}
use google_cloud_final.Web.Request.Get.{Chunks, events_of, get_of, read_request-get}
use google_cloud_final.Web.Paths.{find_file_content}
use google_cloud_final.Web.Paths.Uploads.{upload_form, find_file_content_lem}
use google_cloud_final.Web.Account.{is_logged_in, handle_signin}
use google_cloud_final.Web.Response.{get_route, handle_get, handle_connections}
use google_cloud_final.Web.Seats.{IsSeated, KeepsSeats}
use google_cloud_final.Web.Seats.Run.{handle_connections-IsSeated}
use google_cloud_final.Web.Access.{
  needs_session, IsStranger, handle_get-signed_out, redirected, redirect_text,
}
use google_cloud_final.Web.Access.SignIn.{IsWord, sign_in_form, SignedIn, handle_signin_lem}

abbrev small_drive : Drive ℕ ℕ
small_drive = record {
  new_storage = λ name w. done (0, w);
  register = λ name password d w. done (true, d, w);
  sign_in = λ name password d w. done (equal password (codes "secret"), d, w);
  path = λ d. [];
  refresh_upload = λ d w. done (some [], d, w);
  open_folder = λ user name d w. done (none, d, w);
  go_back = λ index d w. done (none, d, w);
  delete_file = λ user path_id name d w. done (false, d, w);
  rename_file = λ user old new d w. done (false, d, w);
  create_folder = λ user path_id name d w. done (false, d, w);
  upload_file = λ user path_id name content size d w. done (false, d, w);
  download_file = λ user name d w. done (some (codes "text"), d, w);
  move_file = λ folder name d w. done (false, d, w);
  get_accessible_moving_path = λ name d. [];
}

abbrev pub small_host : {W : Type 0} → Host W
small_host = record {
  html = λ address. some (codes "<p>$user</p>");
  walk = λ m. m;
  get_time = λ w. codes "noon";
  start_process = λ arguments w. w;
  send_to = λ ip port text w. w;
  reach = λ ip port w. (false, w);
  get_state = λ address message w. done ([], w);
  server_file = λ w. [];
  write_file = λ path text w. some w;
  recvfrom_backend = λ master user is_inbox w. done ([], w);
  update_backend = λ master user hashes is_inbox w. done w;
  sendto_smpt_server = λ smtp sender recipients text w. done w;
}

abbrev pub connection : List ReadEvent → Connection
connection events = record { incoming = events; outgoing = []; sent = [] }

abbrev small_web : Map Bytes → Map ℕ → Web ℕ ℕ
small_web sessions storages = record {
  status = [];
  version = codes "HTTP/1.1";
  header = [];
  client = connection [];
  sessions = sessions;
  username = [];
  servers = [];
  server_info = [];
  all_storages = storages;
  inbox = [];
  outbox = [];
  world = 7;
}

no_sessions : IsSeated (small_web [] [])
unfolding has lookup
no_sessions = λ name h. cc

abbrev sign_in_request : List ReadEvent
sign_in_request =
    got (codes "POST / HTTP/1.1" ++ (crlf ++ crlf)) ∷ got (codes "user=ann&pass=secret") ∷ []

connections_example : KeepsSeats (
    handle_connections small_drive small_host [] 9
      (connection sign_in_request ∷ [])
      (small_web [] []))
connections_example =
    handle_connections-IsSeated small_drive small_host [] 9 (connection sign_in_request ∷ [])
      (small_web [] []) no_sessions

-- The request signs the user in.
abbrev sessions_of : Outcome (Web ℕ ℕ) → Map Bytes
sessions_of (done w) = w.sessions
sessions_of _ = []

session_made :
    sessions_of (
      handle_connections small_drive small_host [] 9
        (connection sign_in_request ∷ [])
        (small_web [] []))
    ≡ (codes "ann", codes "noon") ∷ []
unfolding handle_connections equal substr handle_signin replace_reply replace_get_html replace_lines
    lines replace_each replace replace_loop insert
session_made = refl

get-IsToken : IsToken (codes "GET")
get-IsToken = record {
  some_byte = omega arith;
  no_zero = omega arith;
  no_return = omega arith;
  no_space = omega arith;
}

path-IsToken : IsToken (codes "/files")
path-IsToken = record {
  some_byte = omega arith;
  no_zero = omega arith;
  no_return = omega arith;
  no_space = omega arith;
}

version-IsToken : IsToken (codes "HTTP/1.1")
version-IsToken = record {
  some_byte = omega arith;
  no_zero = omega arith;
  no_return = omega arith;
  no_space = omega arith;
}

host-IsHeader : IsHeader (codes "Host: a")
unfolding equal
host-IsHeader = record {
  is_line = record { no_return = omega arith; no_zero = omega arith; short = omega arith };
  not_empty = omega arith;
  not_cookie = refl;
}

get_word : strcasecmp (codes "GET") (codes "get") ≡ true
unfolding strcasecmp
get_word = refl

-- The request in two pieces; the line end is cut in two.
abbrev pieces : Chunks
pieces =
    (b'G', codes "ET /files HTTP/1.1" ++ 13 ∷ [])
    ∷ (10, codes "Host: a" ++ (crlf ++ (crlf ++ codes "more")))
    ∷ []

get_example :
    read_request [] 9 (events_of pieces)
    ≡ done (get_of (codes "GET") (codes "/files") (codes "HTTP/1.1"))
get_example =
    read_request-get [] (codes "GET") (codes "/files") (codes "HTTP/1.1") get-IsToken path-IsToken
      version-IsToken (omega arith) get_word (codes "Host: a" ∷ []) (codes "more")
      (host-IsHeader, tt) 9 pieces (omega arith) refl

no_cookie : (is_logged_in [] (small_web [] [])).0 ≡ false
unfolding is_logged_in
no_cookie = refl

word : IsWord (codes "user")
word = record {
  some_byte = omega arith;
  no_zero = omega arith;
  free = (refl, (refl, (refl, (refl, tt))));
}

name_word : IsWord (codes "ann")
name_word = record {
  some_byte = omega arith;
  no_zero = omega arith;
  free = (refl, (refl, (refl, tt)));
}

wrong_word : IsWord (codes "no")
wrong_word = record { some_byte = omega arith; no_zero = omega arith; free = (refl, (refl, tt)) }

wrong_answer : small_drive.sign_in (codes "ann") (codes "no") 0 7 ≡ done (false, 0, 7)
unfolding equal
wrong_answer = refl

-- A wrong password.
sign_in_example : Ensures (SignedIn small_host false (codes "ann") 0 7 (small_web [] [])) (
    handle_signin small_drive small_host []
      (sign_in_form (codes "user") (codes "ann") (codes "user") (codes "no"))
      (small_web [] []))
sign_in_example =
    handle_signin_lem small_drive small_host [] (small_web [] []) (codes "user") (codes "ann")
      (codes "user") (codes "no") 0 0 7 7 false word name_word word wrong_word (omega arith)
      no_cookie refl wrong_answer

files_page : needs_session (get_route (codes "/files")) ≡ true
unfolding get_route
files_page = refl

abbrev sign_in_page : Bytes
sign_in_page = codes "<p>$user</p>"

nobody : IsStranger [] []
unfolding has lookup
nobody name e = refl

sign_in_found : get_html (small_host {W = ℕ}).html (codes "./html/signin.html") ≡ done sign_in_page
unfolding get_html lines
sign_in_found = refl

sign_in_short : length (redirect_text small_host (small_web [] []) sign_in_page) < 10000
unfolding c_str header_lines insert equal less
sign_in_short = omega arith

signed_out_example :
    handle_get small_drive small_host (codes "/files") [] (small_web [] [])
    ≡ done (redirected small_host (small_web [] []) sign_in_page)
signed_out_example =
    handle_get-signed_out small_drive small_host (codes "/files") [] (small_web [] []) sign_in_page
      files_page nobody sign_in_found sign_in_short

-- The bytes that a browser leaves as they are: letters.
abbrev letters : ℕ → Bool
letters c = leb b'a' c && leb c b'z'

letters_form : EncodesForm letters
letters_form = record { percent_sign = refl; plus_sign = refl; ampersand_sign = refl }

form_example :
    parse_email (mail_form letters (codes "a@b") (codes "Hi you") (codes "1 + 1 = 2"))
    ≡ done (codes "a@b", codes "Hi you", codes "1 + 1 = 2")
form_example =
    parse_email-form letters (codes "a@b") (codes "Hi you") (codes "1 + 1 = 2") letters_form
      (omega arith) (omega arith) (omega arith)

replace_example :
    (t : Bytes) × (replace (codes "Hi $user, $user") (codes "$user") (codes "ann") ≡ done t)
    × Replaced (codes "$user") (codes "ann") (codes "Hi $user, $user") t
replace_example = replace_lem (codes "Hi $user, $user") (codes "$user") (codes "ann") (omega arith)

replace_run :
    replace (codes "Hi $user, $user") (codes "$user") (codes "ann") ≡ done (codes "Hi ann, ann")
unfolding replace replace_loop
replace_run = refl

no_blank : position (crlf ++ crlf) (codes "filename=x" ++ 13 ∷ 10 ∷ 13 ∷ []) ≡ none
unfolding position
no_blank = refl

no_dashes : position (codes "------") ((codes "a-----b" ++ crlf) ++ codes "-----") ≡ none
unfolding position
no_dashes = refl

content_example :
    find_file_content (upload_form (codes "filename=x") (codes "a-----b") (codes "end"))
    ≡ done (codes "a-----b")
content_example =
    find_file_content_lem (codes "filename=x") (codes "a-----b") (codes "end") no_blank no_dashes

path_example : parse_path (escape letters (codes "a b")) ≡ done (codes "a b")
path_example =
    parse_path-escape letters (codes "a b") refl (omega arith, (omega arith, (omega arith, tt)))
