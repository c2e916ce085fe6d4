-- ===== src/Web/Access.antt =====
-- Who gets what: sign-in, the pages that ask for a session, and those that do not.
pub mod SignIn
use google_cloud_final.Base.{
  ℕ, ◌<◌, ◌++◌, length, ◌≡◌, refl, ap, ◌∙◌, Bool, true, false, none, some, arith, if◌then◌else◌,
  Option-cases, inl, inr,
}
use google_cloud_final.Text.{Bytes, codes, equal}
use google_cloud_final.Connection.{c_str, do_write}
use google_cloud_final.Web.Template.{get_html}
use google_cloud_final.Web.Request.{fits}
use google_cloud_final.Web.Reply.{head, header_lines, reply}
use google_cloud_final.Map.{Map, has, lookup, insert}
use google_cloud_final.Outcome.{Outcome, done, or_throw}
use google_cloud_final.Web.Site.{Drive, Host, Web}
use google_cloud_final.Web.Account.{is_logged_in, storage_of, to_sign_in}
use google_cloud_final.Web.Folders.{get_files, get_upload}
use google_cloud_final.Web.Letters.{get_new_email}
use google_cloud_final.Web.Response.{
  GetRoute, home, css, new_email, files, upload, download, move_file, move_folder, logout, signup,
  into_by_file, into_by_folder, back, admin, stop_server, kill, start_server, remove, open_dir,
  email, show_inbox, show_sent, reply_mail, forward_mail, remove_inbox, remove_outbox, stop_backend,
  start_backend, unknown, get_route, serve, handle_get,
}
use google_cloud_final.Web.Seats.{IsSeated, is_logged_in-IsSeated}

-- The pages that send a browser without a session to the sign-in page.
abbrev pub needs_session : GetRoute → Bool
needs_session new_email = true
needs_session files = true
needs_session upload = true
needs_session _ = false

-- Without a session nothing is changed.
pub signed_out :
    {D W : Type 0} (cookies : Map Bytes) (w : Web D W)
    → (is_logged_in cookies w).0 ≡ false
    → is_logged_in cookies w ≡ (false, w)
unfolding is_logged_in
signed_out cookies w h = ground arith

-- The cookies name nobody, or somebody without a session.
abbrev pub IsStranger : Map Bytes → Map Bytes → Type 0
IsStranger cookies sessions =
    (name : Bytes) → lookup (codes "username") cookies ≡ some name → has name sessions ≡ false

stranger_lem :
    {D W : Type 0} (cookies : Map Bytes) (w : Web D W)
    → IsStranger cookies w.sessions
    → (is_logged_in cookies w).0 ≡ false
unfolding is_logged_in
stranger_lem cookies w h = elim (Option-cases (lookup (codes "username") cookies)) [
  | inl e ↦ rw (e, is_logged_in) refl
  | inr (name, e) ↦ rw (e, h name e, is_logged_in) refl
]

pub fits_lem : (n : ℕ) (text : Bytes) → length text < n → fits n text ≡ done text
fits_lem n text h = ground arith

-- The header of the redirect to the sign-in page, its text with the page behind it, and the state
-- once it has been written.
abbrev pub redirect_header : Map Bytes → Map Bytes
redirect_header header =
    insert (codes "Location") (codes "/") (insert (codes "Content-type") (codes "text/html") header)

abbrev pub redirect_text : {D W : Type 0} → Host W → Web D W → Bytes → Bytes
redirect_text host w page = c_str (
    (w.version
      ++ (codes " 307 Temporary Redirect\r\n"
          ++ (header_lines (codes ": ") (host.walk (redirect_header w.header)) ++ codes "\r\n")))
    ++ page)

abbrev pub redirected : {D W : Type 0} → Host W → Web D W → Bytes → Web D W
redirected host w page = record w {
  status = codes "307";
  header = redirect_header w.header;
  client = (do_write w.client (redirect_text host w page)).1;
}

module _ {D W : Type 0} (drive : Drive D W) (host : Host W) where
  serve-signed_out :
      (route : GetRoute) (path : Bytes) (cookies : Map Bytes) (w : Web D W)
      → needs_session route ≡ true
      → (is_logged_in cookies w).0 ≡ false
      → serve drive host route path cookies w ≡ to_sign_in drive host w
  unfolding serve get_new_email get_files get_upload
  serve-signed_out new_email path cookies w n h = rw (signed_out cookies w h) refl
  serve-signed_out files path cookies w n h = rw (signed_out cookies w h) refl
  serve-signed_out upload path cookies w n h = rw (signed_out cookies w h) refl
  serve-signed_out _ path cookies w n h = cc

  to_sign_in_lem :
      (w : Web D W) (page : Bytes)
      → get_html host.html (codes "./html/signin.html") ≡ done page
      → length (redirect_text host w page) < 10000
      → to_sign_in drive host w ≡ done (redirected host w page)
  unfolding reply head c_str insert do_write equal
  to_sign_in_lem w page e fit = rw (e, fits_lem 10000 (redirect_text host w page) fit) refl

  -- If the cookies name nobody, or somebody without a session, and the sign-in page is there and
  -- short enough for the array, a GET of the page of a new mail, of the list of the files or of
  -- the page for uploads answers with the status 307, the Location "/" and the sign-in page, and
  -- changes nothing else.
  pub handle_get-signed_out :
      (path : Bytes) (cookies : Map Bytes) (w : Web D W) (page : Bytes)
      → needs_session (get_route path) ≡ true
      → IsStranger cookies w.sessions
      → get_html host.html (codes "./html/signin.html") ≡ done page
      → length (redirect_text host w page) < 10000
      → handle_get drive host path cookies w ≡ done (redirected host w page)
  unfolding handle_get
  handle_get-signed_out path cookies w page n h e fit =
      serve-signed_out (get_route path) path cookies w n (stranger_lem cookies w h)
      ∙ to_sign_in_lem w page e fit

module _ {D W : Type 0} where
  has_session :
      (cookies : Map Bytes) (w : Web D W)
      → (is_logged_in cookies w).0 ≡ true
      → has (is_logged_in cookies w).1.username (is_logged_in cookies w).1.sessions ≡ true
  unfolding is_logged_in
  has_session cookies w logged = ground arith

  storage_of-has :
      (w : Web D W) → has w.username w.all_storages ≡ true → (d : D) × (storage_of w ≡ done d)
  unfolding storage_of has
  storage_of-has w h = elim (Option-cases (lookup w.username w.all_storages)) [
    | inl e ↦ absurd (ground (arith, e, h))
    | inr (d, e) ↦ (d, ap or_throw e)
  ]

  -- If every session belongs to a user whose storage is there, then a request with the cookie of a
  -- session finds a storage.
  pub is_logged_in-storage :
      (cookies : Map Bytes) (w : Web D W)
      → IsSeated w
      → (is_logged_in cookies w).0 ≡ true
      → (d : D) × (storage_of (is_logged_in cookies w).1 ≡ done d)
  is_logged_in-storage cookies w h logged =
      let w1 = (is_logged_in cookies w).1 in
      storage_of-has w1
        (is_logged_in-IsSeated cookies w h w1.username (has_session cookies w logged))
