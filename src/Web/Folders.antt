-- ===== src/Web/Folders.antt =====
-- frontendServer/response.cc: the pages and the requests that are about files.
use google_cloud_final.Base.{
  ℕ, Bool, List, [], ◌∷◌, ◌++◌, map, Option, none, some, length, if◌then◌else◌,
}
use google_cloud_final.Text.{Bytes, codes, sub64, substr}
use google_cloud_final.Number.{pos, negsuc}
use google_cloud_final.Map.{Map}
use google_cloud_final.Connection.{c_str, crlf}
use google_cloud_final.Outcome.{Outcome, done, abort, ◌>>=◌, or_throw}
use google_cloud_final.Storage.{FileInfo}
use google_cloud_final.Storage.Files.{from_end}
use google_cloud_final.Web.Site.{Drive, Host, Web}
use google_cloud_final.Web.Escape.{behind}
use google_cloud_final.Web.Reply.{
  ok, redirect, see_other, as_html, with_cookie, set_status, set_header, replace_reply, user_of,
  see, send,
}
use google_cloud_final.Web.Paths.{
  back_index, question, rename_of, move_of, parse_type, find_filename, find_file_content,
  content_size,
}
use google_cloud_final.Web.Listing.{read_files, parse_folder, parse_folders}
use google_cloud_final.Web.Account.{is_logged_in, storage_of, on_storage, to_sign_in}

module _ {D W : Type 0} (drive : Drive D W) (host : Host W) where
  -- The list of the folder that is open; a null pointer would be followed.
  abbrev pub refreshed : Web D W → Outcome (List FileInfo × Web D W)
  refreshed w = do
    (files, w') ← on_storage drive.refresh_upload w
    names ← or_throw files
    done (names, w')

  -- The identifier of the folder that is open.
  abbrev pub open_id : Web D W → Outcome Bytes
  open_id w = do d ← storage_of w; folder ← from_end 1 (drive.path d); done folder.id

  abbrev pub files_page : Bytes
  files_page = codes "./html/files.html"

  -- What a user gets who is signed in; the others are sent to the sign-in page.
  abbrev pub guarded : Map Bytes → (Web D W → Outcome (Web D W)) → Web D W → Outcome (Web D W)
  guarded cookies page w =
      let (logged, w1) = is_logged_in cookies w in
      if logged then page w1 else to_sign_in drive host w1

  unfoldable pub show_files : Web D W → Outcome (Web D W)
  unfolding on_storage storage_of
  show_files w = do
    (names, w1) ← refreshed w
    d ← storage_of w1
    let replacement =
        (codes "$list_files", read_files names)
        ∷ (codes "$user", w1.username)
        ∷ (codes "$path", parse_folders (map (λ (f : FileInfo). f.name) (drive.path d)))
        ∷ []
    replace_reply host files_page replacement (set_status ok (with_cookie (as_html w1)))

  unfoldable pub get_files : Map Bytes → Web D W → Outcome (Web D W)
  unfolding is_logged_in show_files
  get_files cookies w = guarded cookies show_files w

  abbrev pub upload_page : Web D W → Outcome (Web D W)
  upload_page w =
      replace_reply host (codes "./html/upload.html") (user_of w)
        (set_status ok (with_cookie (as_html w)))

  unfoldable pub get_upload : Map Bytes → Web D W → Outcome (Web D W)
  unfolding is_logged_in
  get_upload cookies w = guarded cookies upload_page w

  -- `reply_file`, with the path behind `/download?`
  unfoldable pub get_download : Bytes → Web D W → Outcome (Web D W)
  unfolding on_storage parse_type substr
  get_download path w = do
    filename ← or_throw (substr path 10 (length path))
    (content, w1) ← on_storage (drive.download_file w.username filename) (set_status ok w)
    let file : Bytes = elim content [ none ↦ [] | some bytes ↦ bytes ]
    let first = w1.version ++ (codes " " ++ (w1.status ++ (codes " OK" ++ crlf)))
    let type = codes "Content-type: " ++ (parse_type filename ++ crlf)
    let disposition =
        codes "Content-Disposition: attachment;filename=\"" ++ (filename ++ (codes "\"" ++ crlf))
    done (send (first ++ (type ++ (disposition ++ (crlf ++ file)))) w1)

  -- The folders into which a file can be moved; `skip` is the length of the name and the `?`.
  unfoldable pub get_move : ℕ → Bytes → Bytes → Web D W → Outcome (Web D W)
  unfolding storage_of parse_folder substr
  get_move skip href path w = do
    filename ← or_throw (substr path skip (sub64 (length path) skip))
    d ← storage_of w
    let folders = parse_folder (drive.get_accessible_moving_path filename d) filename href
    replace_reply host (codes "./html/move.html")
        ((codes "$user", w.username) ∷ (codes "$folders", folders) ∷ []) (set_status ok (as_html w))

  -- The browser is sent to the list of the files.
  abbrev pub see_files : Web D W → Outcome (Web D W)
  see_files w = see host files_page (codes "/files") w

  unfoldable pub handle_move_file : Bytes → Bool → Web D W → Outcome (Web D W)
  unfolding move_of on_storage see
  handle_move_file path is_file w = do
    (filename, folder) ← move_of (if is_file then 22 else 24) path
    (moved, w1) ← on_storage (drive.move_file folder filename) w
    see_files w1

  unfoldable pub handle_back : Bytes → Web D W → Outcome (Web D W)
  unfolding back_index on_storage see
  handle_back path w = do
    id ← back_index path
    let back : Outcome (Option (List FileInfo) × Web D W) = elim id [
      | pos n ↦ on_storage (drive.go_back n) w
      | negsuc n ↦ abort
    ]
    (files, w1) ← back
    see_files w1

  unfoldable pub handle_delete : Bytes → Web D W → Outcome (Web D W)
  unfolding behind on_storage storage_of see
  handle_delete path w = do
    filename ← behind question path
    path_id ← open_id w
    (deleted, w1) ← on_storage (drive.delete_file w.username path_id filename) w
    see_files w1

  unfoldable pub handle_open_directory : Bytes → Web D W → Outcome (Web D W)
  unfolding behind on_storage see
  handle_open_directory path w = do
    foldername ← behind question path
    (files, w1) ← on_storage (drive.open_folder w.username foldername) w
    see_files w1

  unfoldable pub handle_rename : Bytes → Web D W → Outcome (Web D W)
  unfolding rename_of on_storage
  handle_rename info w = do
    (new_name, prename) ← rename_of info
    (can_rename, w1) ← on_storage (drive.rename_file w.username prename new_name) w
    let renamed = (do
      (names, w2) ← refreshed (as_html (set_status ok w1))
      replace_reply host files_page (user_of w2) w2)
    let failed = replace_reply host files_page (user_of w1) (as_html (set_status redirect w1))
    if can_rename then renamed else failed

  unfoldable pub handle_create_newfolder : Bytes → Web D W → Outcome (Web D W)
  unfolding on_storage storage_of substr
  handle_create_newfolder info w = do
    foldername ← or_throw (substr info 11 (sub64 (length info) 11))
    path_id ← open_id w
    (created, w1) ← on_storage (drive.create_folder w.username path_id foldername) w
    let w2 = as_html (set_status (if created then ok else redirect) w1)
    (names, w3) ← refreshed w2
    replace_reply host files_page
        ((codes "$list_files", read_files names) ∷ (codes "$user", w3.username) ∷ [])
        (with_cookie w3)

  -- `store_file`; a null pointer is followed if the file cannot be opened.
  unfoldable pub store_file : Bytes → Bytes → Bytes → Web D W → Outcome (Web D W)
  store_file dir filename content w = do
    world ← or_throw (host.write_file (c_str (dir ++ (codes "/" ++ filename))) content w.world)
    done (record w { world = world })

  abbrev pub to_files : Web D W → Web D W
  to_files w = set_header (codes "Location") (codes "/files") (as_html (set_status see_other w))

  unfoldable pub handle_upload : Bytes → Web D W → Outcome (Web D W)
  handle_upload message w = do
    filename ← find_filename message
    content ← find_file_content message
    let size = content_size (length content)
    w1 ← store_file (codes "./Test") filename content w
    let w2 = to_files w1
    current ← open_id w2
    (uploaded, w3) ← on_storage (drive.upload_file w2.username current filename content size) w2
    (names, w4) ← refreshed w3
    replace_reply host files_page (user_of w4) (with_cookie w4)
