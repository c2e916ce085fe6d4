-- ===== src/Web/Response.antt =====
-- frontendServer/response.cc: the handler of a path, and the answer to a request.
use google_cloud_final.Base.{ℕ, List, true, false, ◌&&◌, [], ◌∷◌, leb, length, take, if◌then◌else◌}
use google_cloud_final.Text.{Bytes, codes, substr}
use google_cloud_final.Map.{Map}
use google_cloud_final.CText.{strcasecmp}
use google_cloud_final.Connection.{Connection, c_str}
use google_cloud_final.Outcome.{Outcome, done, abort, ◌>>=◌, or_throw}
use google_cloud_final.Web.Site.{Drive, Host, Web}
use google_cloud_final.Web.Escape.{parse_path}
use google_cloud_final.Web.Request.{Request, read_request}
use google_cloud_final.Web.Reply.{ok}
use google_cloud_final.Web.Paths.{is, starts}
use google_cloud_final.Web.Account.{
  get_home, get_css, get_logout, get_signup, handle_signin, handle_signup,
}
use google_cloud_final.Web.Folders.{
  get_files, get_upload, get_download, get_move, handle_move_file, handle_back, handle_delete,
  handle_open_directory, handle_rename, handle_create_newfolder, handle_upload,
}
use google_cloud_final.Web.Letters.{
  get_new_email, get_email, get_show_inbox, get_show_sent, get_reply, get_forward, get_remove,
  handle_send_email,
}
use google_cloud_final.Web.Admin.{
  get_admin, handle_start_backend, handle_stop_backend, handle_start_server, handle_stop_server,
}

-- The pages and the actions of a GET, in the order in which the path is compared.
pub data GetRoute : Type 0 where
  home css new_email files upload download move_file move_folder logout signup : GetRoute
  into_by_file into_by_folder back admin stop_server kill start_server remove open_dir : GetRoute
  email show_inbox show_sent reply_mail forward_mail remove_inbox remove_outbox : GetRoute
  stop_backend start_backend unknown : GetRoute

-- The path of DELETEOUTBOX is compared as a whole once it has 12 bytes.
unfoldable pub get_route : Bytes → GetRoute
unfolding strcasecmp c_str
get_route path =
    if is path (codes "/")
    then home
    else if is path (codes "/css/signin.css")
    then css
    else if is path (codes "/newemail")
    then new_email
    else if is path (codes "/files")
    then files
    else if is path (codes "/upload")
    then upload
    else if starts path (codes "/download?")
    then download
    else if starts path (codes "/movefile")
    then move_file
    else if starts path (codes "/movefolder")
    then move_folder
    else if is path (codes "/logout")
    then logout
    else if is path (codes "/signup")
    then signup
    else if starts path (codes "/filemove")
    then into_by_file
    else if starts path (codes "/foldermove")
    then into_by_folder
    else if starts path (codes "/back")
    then back
    else if is path (codes "/admin")
    then admin
    else if starts path (codes "/stopserver")
    then stop_server
    else if is path (codes "/kill")
    then kill
    else if starts path (codes "/startserver")
    then start_server
    else if starts path (codes "/delete")
    then remove
    else if starts path (codes "/opendir")
    then open_dir
    else if is path (codes "/email")
    then email
    else if starts path (codes "/showinbox")
    then show_inbox
    else if starts path (codes "/showsent")
    then show_sent
    else if starts path (codes "/reply")
    then reply_mail
    else if starts path (codes "/forward")
    then forward_mail
    else if starts path (codes "/removeinbox")
    then remove_inbox
    else if leb 12 (length path) && is (take 13 path) (codes "/removeoutbox")
    then remove_outbox
    else if starts path (codes "/stopbackend")
    then stop_backend
    else if starts path (codes "/startbackend")
    then start_backend
    else unknown

pub data PostRoute : Type 0 where
  sign_in upload_file send_mail sign_up create_folder rename no_route : PostRoute

unfoldable pub post_route : Bytes → PostRoute
unfolding strcasecmp c_str
post_route path =
    if is path (codes "/")
    then sign_in
    else if is path (codes "/upload")
    then upload_file
    else if is path (codes "/newemail")
    then send_mail
    else if is path (codes "/signup")
    then sign_up
    else if is path (codes "/createFolder")
    then create_folder
    else if is path (codes "/rename")
    then rename
    else no_route

module _ {D W : Type 0} (drive : Drive D W) (host : Host W) where
  -- What a GET of a route does; `kill` is a signal to the server.
  unfoldable pub serve : GetRoute → Bytes → Map Bytes → Web D W → Outcome (Web D W)
  serve home path cookies w = get_home drive host cookies w
  serve css path cookies w = get_css drive host w
  serve new_email path cookies w = get_new_email drive host cookies w
  serve files path cookies w = get_files drive host cookies w
  serve upload path cookies w = get_upload drive host cookies w
  serve download path cookies w = get_download drive host path w
  serve move_file path cookies w = get_move drive host 10 (codes "/filemove") path w
  serve move_folder path cookies w = get_move drive host 12 (codes "/foldermove") path w
  serve logout path cookies w = get_logout drive host w
  serve signup path cookies w = get_signup drive host cookies w
  serve into_by_file path cookies w = handle_move_file drive host path true w
  serve into_by_folder path cookies w = handle_move_file drive host path false w
  serve back path cookies w = handle_back drive host path w
  serve admin path cookies w = get_admin host w
  serve stop_server path cookies w = handle_stop_server host path w
  serve kill path cookies w = abort
  serve start_server path cookies w = handle_start_server host path w
  serve remove path cookies w = handle_delete drive host path w
  serve open_dir path cookies w = handle_open_directory drive host path w
  serve email path cookies w = get_email drive host cookies w
  serve show_inbox path cookies w = get_show_inbox drive host path w
  serve show_sent path cookies w = get_show_sent drive host path w
  serve reply_mail path cookies w = get_reply drive host path w
  serve forward_mail path cookies w = get_forward drive host path w
  serve remove_inbox path cookies w = get_remove drive host true path w
  serve remove_outbox path cookies w = get_remove drive host false path w
  serve stop_backend path cookies w = handle_stop_backend host path w
  serve start_backend path cookies w = handle_start_backend host path w
  serve unknown path cookies w = done w

  unfoldable pub handle_get : Bytes → Map Bytes → Web D W → Outcome (Web D W)
  unfolding get_route serve
  handle_get path cookies w = serve (get_route path) path cookies w

  unfoldable pub accept : PostRoute → Bytes → Map Bytes → Web D W → Outcome (Web D W)
  accept sign_in message cookies w = handle_signin drive host cookies message w
  accept upload_file message cookies w = handle_upload drive host message w
  accept send_mail message cookies w = handle_send_email drive host message w
  accept sign_up message cookies w = handle_signup drive host message w
  accept create_folder message cookies w = handle_create_newfolder drive host message w
  accept rename message cookies w = handle_rename drive host message w
  accept no_route message cookies w = done w

  unfoldable pub handle_post : Bytes → Bytes → Map Bytes → Web D W → Outcome (Web D W)
  unfolding post_route accept
  handle_post path message cookies w = accept (post_route path) message cookies w

  -- The constructor of `response`.
  unfoldable pub respond : Request → Web D W → Outcome (Web D W)
  unfolding parse_path strcasecmp c_str handle_get handle_post
  respond req w = do
    path ← parse_path req.path
    version ← or_throw (substr req.version 0 8)
    let w1 = record w { status = []; version = version; header = [] }
    if strcasecmp (c_str req.method) (codes "get")
        then handle_get path req.cookies w1
        else if strcasecmp (c_str req.method) (codes "post")
        then handle_post path req.message req.cookies (record w1 { status = ok })
        else done w1

  -- `handle_connection` of frontendServer/frontend.cc: a request is read from the connection and
  -- answered.
  unfoldable pub handle_connection : Bytes → ℕ → Connection → Web D W → Outcome (Web D W)
  unfolding read_request respond
  handle_connection stack fuel client w = do
    req ← read_request stack fuel client.incoming
    respond req (record w { client = client })

  -- The connections that are accepted, one after the other.
  unfoldable pub handle_connections : Bytes → ℕ → List Connection → Web D W → Outcome (Web D W)
  unfolding handle_connection
  handle_connections stack fuel [] w = done w
  handle_connections stack fuel (client ∷ clients) w = do
    w1 ← handle_connection stack fuel client w
    handle_connections stack fuel clients w1
