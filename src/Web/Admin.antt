-- ===== src/Web/Admin.antt =====
-- frontendServer/response.cc: the page of the servers, and starting and stopping them.
use google_cloud_final.Base.{ℕ, ◌+◌, Bool, false, List, [], ◌∷◌, ◌++◌, get_elem?, if◌then◌else◌}
use google_cloud_final.Text.{Bytes, codes, add64, equal, find, substr, substr_from}
use google_cloud_final.Text.Lines.{lines}
use google_cloud_final.Number.{ℤ, pos, negsuc, print, print_long, atoi}
use google_cloud_final.CText.{strtok}
use google_cloud_final.Connection.{c_str, crlf}
use google_cloud_final.Outcome.{Outcome, done, abort, blocked, ◌>>=◌, or_throw}
use google_cloud_final.StateCheck.{parse_id, parse_all_server}
use google_cloud_final.Web.Site.{Host, Server, Web}
use google_cloud_final.Web.Template.{concat, Replacements}
use google_cloud_final.Web.Request.{fits}
use google_cloud_final.Web.Reply.{ok, redirect, as_html, set_status, set_header, replace_reply}
use google_cloud_final.Web.Paths.{index_of}
use google_cloud_final.Web.Letters.{master}

-- A line of the file of servers; the arrays hold 256 and 64 bytes.
unfoldable pub server_of : Bytes → Outcome Server
unfolding strtok c_str atoi
server_of line = do
  copy ← fits 256 (c_str line)
  (token, rest) ← or_throw (strtok copy (codes ":"))
  address ← fits 64 token
  (token2, rest2) ← or_throw (strtok rest (codes ":"))
  port ← or_throw (atoi token2)
  let s : Server = record { address = address; port = port; running = false }
  done s

unfoldable pub servers_of : List Bytes → Outcome (List Server)
unfolding server_of
servers_of [] = done []
servers_of (line ∷ rest) = do s ← server_of line; others ← servers_of rest; done (s ∷ others)

-- `vector.at(id)`
unfoldable pub at {ℓ} : {A : Type ℓ} → List A → ℤ → Outcome A
at xs (negsuc n) = abort
at xs (pos n) = or_throw (get_elem? xs n)

-- The parts of a line about a data server, which is accessed up to the third.
abbrev pub part : List Bytes → ℕ → Outcome Bytes
part parts i = or_throw (get_elem? parts i)

-- The ip and the port of a data server.
unfoldable pub address_of : Bytes → Outcome (Bytes × Bytes)
unfolding find substr
address_of address = do
  let colon = find address (codes ":")
  ip ← or_throw (substr address 0 colon)
  port ← or_throw (substr_from address (add64 colon 1))
  done (ip, port)

abbrev state_text : Bool → Bytes
state_text up = if up then codes "RUNNING</td>" else codes "DOWN</td>"

-- The links of a row; `kind` is `server` or `backend`.
abbrev links : Bytes → ℕ → Bytes
links kind i = concat (
    codes "<td><a href=\"/stop"
    ∷ kind
    ∷ codes "?index="
    ∷ print i
    ∷ codes "\">Stop</a><span> <span><a href=\"/start"
    ∷ kind
    ∷ codes "?index="
    ∷ print i
    ∷ codes "\">Start</a></td>"
    ∷ codes "</tr>"
    ∷ [])

unfoldable pub server_row : ℕ → Server → Bytes
unfolding print print_long
server_row i s = concat (
    codes "<tr><td>"
    ∷ print i
    ∷ codes "</td><td>HTTP Server</td><td>"
    ∷ s.address
    ∷ codes "</td><td>"
    ∷ print_long s.port
    ∷ codes "</td><td>"
    ∷ state_text s.running
    ∷ links (codes "server") i
    ∷ [])

unfoldable pub backend_row : ℕ → Bytes → Outcome Bytes
unfolding parse_id address_of print equal
backend_row i line = do
  let cur_server = parse_id line
  node ← part cur_server 0
  replica ← part cur_server 1
  address ← part cur_server 2
  (ip, port) ← address_of address
  state ← part cur_server 3
  done (
      concat (
        codes "<tr><td>"
        ∷ node
        ∷ codes "-"
        ∷ replica
        ∷ codes "</td><td>Backend Server</td><td>"
        ∷ ip
        ∷ codes "</td><td>"
        ∷ port
        ∷ codes "</td><td>"
        ∷ state_text (equal state (codes "alive"))
        ∷ links (codes "backend") i
        ∷ []))

unfoldable pub backend_rows : ℕ → List Bytes → Outcome Bytes
unfolding backend_row
backend_rows i [] = done []
backend_rows i (line ∷ rest) = do
  row ← backend_row i line
  rows ← backend_rows (i + 1) rest
  done (row ++ rows)

-- `check_state` of each server, with its row of the table.
unfoldable pub check_states : {W : Type 0} → Host W → ℕ → List Server → W → Bytes × List Server × W
unfolding server_row
check_states host i [] world = ([], [], world)
check_states host i (s ∷ rest) world =
    let (up, world1) = host.reach s.address s.port world in
    let s' = record s { running = up } in
    let (rows, rest', world2) = check_states host (i + 1) rest world1 in
    (server_row i s' ++ rows, s' ∷ rest', world2)

abbrev pub local_admin : Bytes
local_admin = codes "http://localhost:8080/admin"

-- The arguments of a data server that starts again.
abbrev pub backend_arguments : Bytes → Bytes → List Bytes
backend_arguments node_id rep_id =
    codes "../kvstore/dataserver"
    ∷ codes "-r"
    ∷ codes "-p"
    ∷ (codes "../kvstore/node/" ++ (node_id ++ (codes "/" ++ rep_id)))
    ∷ codes "../kvstore/serverlist.txt"
    ∷ node_id
    ∷ rep_id
    ∷ []

module _ {D W : Type 0} (host : Host W) where
  -- The list of servers is forgotten.
  abbrev pub without_servers : W → Web D W → Web D W
  without_servers world w = record w { servers = []; world = world }

  -- The servers of the file are put behind those that are known.
  unfoldable pub parse_server : Web D W → Outcome (Bytes × Web D W)
  unfolding servers_of check_states parse_all_server backend_rows
  parse_server w = do
    read ← servers_of (lines (host.server_file w.world))
    let (rows, servers, world1) = check_states host 0 (w.servers ++ read) w.world
    (backend_servers, world2) ← host.get_state master (codes "states" ++ crlf) world1
    server_info ← parse_all_server backend_servers
    backend ← backend_rows 0 server_info
    done
        (rows ++ backend, record w { servers = servers; server_info = server_info; world = world2 })

  abbrev pub admin_page : Replacements → Web D W → Outcome (Web D W)
  admin_page replacement w = replace_reply host (codes "./html/admin.html") replacement w

  unfoldable pub get_admin : Web D W → Outcome (Web D W)
  unfolding parse_server
  get_admin w = do
    (servers_html, w1) ← parse_server (record w { servers = []; server_info = [] })
    admin_page ((codes "$servers", servers_html) ∷ []) (set_status ok (as_html w1))

  -- The browser is sent to the page again.
  abbrev pub to_admin : Bytes → Web D W → Outcome (Web D W)
  to_admin location w =
      admin_page [] (set_header (codes "Location") location (as_html (set_status redirect w)))

  unfoldable pub handle_start_backend : Bytes → Web D W → Outcome (Web D W)
  unfolding index_of at parse_id address_of parse_server
  handle_start_backend path w = do
    id ← index_of path
    info ← at w.server_info id
    let cur_server = parse_id info
    node_id ← part cur_server 0
    rep_id ← part cur_server 1
    address ← part cur_server 2
    (ip, port) ← address_of address
    let world = host.start_process (backend_arguments node_id rep_id) w.world
    (servers_html, w1) ← parse_server (record w { world = world })
    to_admin local_admin w1

  unfoldable pub handle_stop_backend : Bytes → Web D W → Outcome (Web D W)
  unfolding index_of at parse_id address_of atoi
  handle_stop_backend path w = do
    id ← index_of path
    info ← at w.server_info id
    address ← part (parse_id info) 2
    (ip, port) ← address_of address
    number ← or_throw (atoi port)
    let world = host.send_to ip number (codes "closeall" ++ crlf) w.world
    to_admin (codes "/admin") (without_servers world w)

  -- Only the new process looks the server up; with no such server it ends.
  abbrev pub start_frontend : Web D W → ℤ → W
  start_frontend w id = elim (at w.servers id) [
    | done s ↦
        host.start_process (codes "./frontend" ∷ codes "-v" ∷ codes "-p" ∷ print_long s.port ∷ [])
          w.world
    | abort ↦ w.world
    | blocked ↦ w.world
  ]

  unfoldable pub handle_start_server : Bytes → Web D W → Outcome (Web D W)
  unfolding index_of at print_long parse_server
  handle_start_server path w = do
    id ← index_of path
    (servers_html, w1) ← parse_server (without_servers (start_frontend w id) w)
    to_admin local_admin w1

  unfoldable pub handle_stop_server : Bytes → Web D W → Outcome (Web D W)
  unfolding index_of at parse_server
  handle_stop_server path w = do
    id ← index_of path
    s ← at w.servers id
    let kill = codes "GET /kill HTTP/1.1" ++ (crlf ++ crlf)
    let world = host.send_to s.address s.port kill w.world
    (servers_html, w1) ← parse_server (without_servers world w)
    to_admin (codes "/admin") w1
