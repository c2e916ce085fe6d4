-- ===== src/Web/Seats/Run.antt =====
-- The requests about the servers, and with them every request, keep the storages of the users.
use google_cloud_final.Base.{ℕ, List, [], ◌∷◌, ◌++◌, true, false}
use google_cloud_final.Text.{Bytes, codes, substr}
use google_cloud_final.Text.Lines.{lines}
use google_cloud_final.Map.{Map}
use google_cloud_final.Number.{atoi}
use google_cloud_final.CText.{strcasecmp}
use google_cloud_final.Connection.{Connection, c_str, crlf}
use google_cloud_final.StateCheck.{parse_id, parse_all_server}
use google_cloud_final.Outcome.{
  Outcome, Ensures, Ensures-bind, Ensures-then, Ensures-if, ◌>>=◌, or_throw,
}
use google_cloud_final.Web.Site.{Drive, Host, Web}
use google_cloud_final.Web.Escape.{parse_path}
use google_cloud_final.Web.Request.{Request, read_request}
use google_cloud_final.Web.Paths.{index_of}
use google_cloud_final.Web.Letters.{master, get_show_inbox, get_show_sent}
use google_cloud_final.Web.Admin.{
  servers_of, at, part, address_of, backend_rows, parse_server, get_admin, to_admin, local_admin,
  without_servers, start_frontend, backend_arguments, handle_start_backend, handle_stop_backend,
  handle_start_server, handle_stop_server,
}
use google_cloud_final.Web.Response.{
  GetRoute, home, css, new_email, files, upload, download, move_file, move_folder, logout, signup,
  into_by_file, into_by_folder, back, admin, stop_server, kill, start_server, remove, open_dir,
  email, show_inbox, show_sent, reply_mail, forward_mail, remove_inbox, remove_outbox, stop_backend,
  start_backend, unknown, PostRoute, sign_in, upload_file, send_mail, sign_up, create_folder,
  rename, no_route, get_route, post_route, serve, accept, handle_get, handle_post, respond,
  handle_connection, handle_connections,
}
use google_cloud_final.Web.Seats.{
  IsSeated, KeepsSeats, replace_reply-IsSeated, get_home-IsSeated, get_signup-IsSeated,
  get_logout-IsSeated, handle_signup-IsSeated, handle_signin-IsSeated, get_css-IsSeated,
}
use google_cloud_final.Web.Seats.Files.{
  get_files-IsSeated, get_upload-IsSeated, get_download-IsSeated, get_move-IsSeated,
  handle_move_file-IsSeated, handle_back-IsSeated, handle_delete-IsSeated,
  handle_open_directory-IsSeated, handle_rename-IsSeated, handle_create_newfolder-IsSeated,
  handle_upload-IsSeated,
}
use google_cloud_final.Web.Seats.Letters.{
  get_email-IsSeated, get_new_email-IsSeated, show_mail-IsSeated, get_reply-IsSeated,
  get_forward-IsSeated, get_remove-IsSeated, handle_send_email-IsSeated,
}

module _ {D W : Type 0} (host : Host W) where
  parse_server-IsSeated :
      (w : Web D W) → IsSeated w → Ensures (λ p. IsSeated p.1) (parse_server host w)
  unfolding parse_server
  parse_server-IsSeated w h =
      Ensures-then (λ p. IsSeated p.1) (servers_of (lines (host.server_file w.world))) _
        (λ read.
          Ensures-then (λ p. IsSeated p.1) (host.get_state master _ _) _
            (λ s.
              Ensures-then (λ p. IsSeated p.1) (parse_all_server s.0) _
                (λ server_info.
                  Ensures-then (λ p. IsSeated p.1) (backend_rows 0 server_info) _ (λ rows. h))))

  -- The table is made, and the page is shown.
  table_page :
      (w : Web D W) (page : Bytes × Web D W → Outcome (Web D W))
      → IsSeated w
      → ((rows : Bytes) (w1 : Web D W) → IsSeated w1 → KeepsSeats (page (rows, w1)))
      → KeepsSeats (parse_server host w >>= page)
  table_page w page h k =
      Ensures-bind (λ p. IsSeated p.1) IsSeated (parse_server host w) page
        (parse_server-IsSeated w h) (λ p seated. k p.0 p.1 seated)

  get_admin-IsSeated : (w : Web D W) → IsSeated w → KeepsSeats (get_admin host w)
  unfolding get_admin
  get_admin-IsSeated w h =
      table_page (record w { servers = []; server_info = [] }) _ h
        (λ rows w1 seated. replace_reply-IsSeated host (codes "./html/admin.html") _ _ seated)

  to_admin-IsSeated :
      (location : Bytes) (w : Web D W) → IsSeated w → KeepsSeats (to_admin host location w)
  to_admin-IsSeated location w h = replace_reply-IsSeated host (codes "./html/admin.html") [] _ h

  handle_start_backend-IsSeated :
      (path : Bytes) (w : Web D W) → IsSeated w → KeepsSeats (handle_start_backend host path w)
  unfolding handle_start_backend
  handle_start_backend-IsSeated path w h = Ensures-then IsSeated (index_of path) _ (λ id.
      Ensures-then IsSeated (at w.server_info id) _ (λ info.
        Ensures-then IsSeated (part (parse_id info) 0) _ (λ node_id.
          Ensures-then IsSeated (part (parse_id info) 1) _ (λ rep_id.
            Ensures-then IsSeated (part (parse_id info) 2) _ (λ address.
              Ensures-then IsSeated (address_of address) _ (λ a.
                table_page
                  (record w {
                    world = host.start_process (backend_arguments node_id rep_id) w.world;
                  })
                  _ h (λ rows w1 seated. to_admin-IsSeated local_admin w1 seated)))))))

  handle_stop_backend-IsSeated :
      (path : Bytes) (w : Web D W) → IsSeated w → KeepsSeats (handle_stop_backend host path w)
  unfolding handle_stop_backend
  handle_stop_backend-IsSeated path w h = Ensures-then IsSeated (index_of path) _ (λ id.
      Ensures-then IsSeated (at w.server_info id) _ (λ info.
        Ensures-then IsSeated (part (parse_id info) 2) _ (λ address.
          Ensures-then IsSeated (address_of address) _ (λ a.
            Ensures-then IsSeated (or_throw (atoi a.1)) _ (λ number.
              to_admin-IsSeated (codes "/admin")
                (without_servers host (host.send_to a.0 number (codes "closeall" ++ crlf) w.world)
                  w)
                h)))))

  handle_start_server-IsSeated :
      (path : Bytes) (w : Web D W) → IsSeated w → KeepsSeats (handle_start_server host path w)
  unfolding handle_start_server
  handle_start_server-IsSeated path w h = Ensures-then IsSeated (index_of path) _ (λ id.
      table_page (without_servers host (start_frontend host w id) w) _ h
        (λ rows w1 seated. to_admin-IsSeated local_admin w1 seated))

  handle_stop_server-IsSeated :
      (path : Bytes) (w : Web D W) → IsSeated w → KeepsSeats (handle_stop_server host path w)
  unfolding handle_stop_server
  handle_stop_server-IsSeated path w h = Ensures-then IsSeated (index_of path) _ (λ id.
      Ensures-then IsSeated (at w.servers id) _ (λ s.
        table_page
          (without_servers host
            (host.send_to s.address s.port (codes "GET /kill HTTP/1.1" ++ (crlf ++ crlf)) w.world)
            w)
          _ h (λ rows w1 seated. to_admin-IsSeated (codes "/admin") w1 seated)))

module _ {D W : Type 0} (drive : Drive D W) (host : Host W) where
  serve-IsSeated :
      (route : GetRoute) (path : Bytes) (cookies : Map Bytes) (w : Web D W)
      → IsSeated w
      → KeepsSeats (serve drive host route path cookies w)
  unfolding serve get_show_inbox get_show_sent
  serve-IsSeated home path cookies w h = get_home-IsSeated drive host cookies w h
  serve-IsSeated css path cookies w h = get_css-IsSeated drive host w h
  serve-IsSeated new_email path cookies w h = get_new_email-IsSeated drive host cookies w h
  serve-IsSeated files path cookies w h = get_files-IsSeated drive host cookies w h
  serve-IsSeated upload path cookies w h = get_upload-IsSeated drive host cookies w h
  serve-IsSeated download path cookies w h = get_download-IsSeated drive host path w h
  serve-IsSeated move_file path cookies w h = get_move-IsSeated drive host 10 _ path w h
  serve-IsSeated move_folder path cookies w h = get_move-IsSeated drive host 12 _ path w h
  serve-IsSeated logout path cookies w h = get_logout-IsSeated drive host w h
  serve-IsSeated signup path cookies w h = get_signup-IsSeated drive host cookies w h
  serve-IsSeated into_by_file path cookies w h = handle_move_file-IsSeated drive host path true w h
  serve-IsSeated into_by_folder path cookies w h =
      handle_move_file-IsSeated drive host path false w h
  serve-IsSeated back path cookies w h = handle_back-IsSeated drive host path w h
  serve-IsSeated admin path cookies w h = get_admin-IsSeated host w h
  serve-IsSeated stop_server path cookies w h = handle_stop_server-IsSeated host path w h
  serve-IsSeated kill path cookies w h = tt
  serve-IsSeated start_server path cookies w h = handle_start_server-IsSeated host path w h
  serve-IsSeated remove path cookies w h = handle_delete-IsSeated drive host path w h
  serve-IsSeated open_dir path cookies w h = handle_open_directory-IsSeated drive host path w h
  serve-IsSeated email path cookies w h = get_email-IsSeated drive host cookies w h
  serve-IsSeated show_inbox path cookies w h = show_mail-IsSeated drive host 0 _ w.inbox path w h
  serve-IsSeated show_sent path cookies w h = show_mail-IsSeated drive host 1 _ w.outbox path w h
  serve-IsSeated reply_mail path cookies w h = get_reply-IsSeated drive host path w h
  serve-IsSeated forward_mail path cookies w h = get_forward-IsSeated drive host path w h
  serve-IsSeated remove_inbox path cookies w h = get_remove-IsSeated drive host true path w h
  serve-IsSeated remove_outbox path cookies w h = get_remove-IsSeated drive host false path w h
  serve-IsSeated stop_backend path cookies w h = handle_stop_backend-IsSeated host path w h
  serve-IsSeated start_backend path cookies w h = handle_start_backend-IsSeated host path w h
  serve-IsSeated unknown path cookies w h = h

  accept-IsSeated :
      (route : PostRoute) (message : Bytes) (cookies : Map Bytes) (w : Web D W)
      → IsSeated w
      → KeepsSeats (accept drive host route message cookies w)
  unfolding accept
  accept-IsSeated sign_in message cookies w h =
      handle_signin-IsSeated drive host cookies message w h
  accept-IsSeated upload_file message cookies w h = handle_upload-IsSeated drive host message w h
  accept-IsSeated send_mail message cookies w h = handle_send_email-IsSeated drive host message w h
  accept-IsSeated sign_up message cookies w h = handle_signup-IsSeated drive host message w h
  accept-IsSeated create_folder message cookies w h =
      handle_create_newfolder-IsSeated drive host message w h
  accept-IsSeated rename message cookies w h = handle_rename-IsSeated drive host message w h
  accept-IsSeated no_route message cookies w h = h

  respond-IsSeated :
      (req : Request) (w : Web D W) → IsSeated w → KeepsSeats (respond drive host req w)
  unfolding respond handle_get handle_post
  respond-IsSeated req w h = Ensures-then IsSeated (parse_path req.path) _ (λ path.
      Ensures-then IsSeated (or_throw (substr req.version 0 8)) _ (λ version.
        Ensures-if IsSeated (strcasecmp (c_str req.method) (codes "get")) _ _
          (serve-IsSeated (get_route path) path req.cookies _ h)
          (Ensures-if IsSeated (strcasecmp (c_str req.method) (codes "post")) _ _
            (accept-IsSeated (post_route path) req.message req.cookies _ h) h)))

  -- Whatever the clients send, one after the other, and whatever the storage, the clock and the
  -- other hosts answer: if before each session belongs to a user whose storage is there, each
  -- session does so afterwards, wherever the web server returns.
  pub handle_connections-IsSeated :
      (stack : Bytes) (fuel : ℕ) (clients : List Connection) (w : Web D W)
      → IsSeated w
      → KeepsSeats (handle_connections drive host stack fuel clients w)
  unfolding handle_connections handle_connection
  handle_connections-IsSeated stack fuel [] w h = h
  handle_connections-IsSeated stack fuel (client ∷ clients) w h =
      Ensures-bind IsSeated IsSeated
        (read_request stack fuel client.incoming >>= λ req.
          respond drive host req (record w { client = client }))
        _
        (Ensures-then IsSeated (read_request stack fuel client.incoming) _
          (λ req. respond-IsSeated req (record w { client = client }) h))
        (λ w1 h1. handle_connections-IsSeated stack fuel clients w1 h1)
