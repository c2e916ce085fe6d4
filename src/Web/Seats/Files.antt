-- ===== src/Web/Seats/Files.antt =====
-- The requests about files keep the storages of the users.
use google_cloud_final.Base.{ℕ, Bool, List, length}
use google_cloud_final.Text.{Bytes, codes, sub64, substr}
use google_cloud_final.Map.{Map}
use google_cloud_final.Number.{ℤ, pos, negsuc}
use google_cloud_final.Outcome.{
  Outcome, abort, Ensures, Ensures-bind, Ensures-then, Ensures-if, ◌>>=◌, or_throw,
}
use google_cloud_final.Storage.{FileInfo}
use google_cloud_final.Web.Site.{Drive, Host, Web}
use google_cloud_final.Web.Escape.{behind}
use google_cloud_final.Web.Reply.{ok, as_html, set_status, user_of}
use google_cloud_final.Web.Paths.{
  back_index, question, rename_of, move_of, find_filename, find_file_content, content_size,
}
use google_cloud_final.Web.Account.{storage_of, on_storage}
use google_cloud_final.Web.Folders.{
  refreshed, open_id, files_page, see_files, show_files, get_files, get_upload, get_download,
  get_move, handle_move_file, handle_back, handle_delete, handle_open_directory, handle_rename,
  handle_create_newfolder, handle_upload, store_file, upload_page, to_files,
}
use google_cloud_final.Web.Seats.{
  IsSeated, KeepsSeats, on_storage-IsSeated, replace_reply-IsSeated, see-IsSeated, guarded-IsSeated,
}

module _ {D W : Type 0} (drive : Drive D W) (host : Host W) where
  -- After an operation on the storage comes a page.
  then_page :
      {A : Type 0} (operation : D → W → Outcome (A × D × W)) (w : Web D W)
      (page : A × Web D W → Outcome (Web D W))
      → IsSeated w
      → ((a : A) (w1 : Web D W) → IsSeated w1 → KeepsSeats (page (a, w1)))
      → KeepsSeats (on_storage operation w >>= page)
  then_page operation w page h k =
      Ensures-bind (λ p. IsSeated p.1) IsSeated (on_storage operation w) page
        (on_storage-IsSeated operation w h) (λ p seated. k p.0 p.1 seated)

  refreshed-IsSeated :
      (w : Web D W) → IsSeated w → Ensures (λ p. IsSeated p.1) (refreshed drive host w)
  refreshed-IsSeated w h =
      Ensures-bind (λ p. IsSeated p.1) (λ p. IsSeated p.1) (on_storage drive.refresh_upload w) _
        (on_storage-IsSeated drive.refresh_upload w h)
        (λ p seated. Ensures-then (λ q. IsSeated q.1) (or_throw p.0) _ (λ names. seated))

  see_files-IsSeated : (w : Web D W) → IsSeated w → KeepsSeats (see_files drive host w)
  see_files-IsSeated w h = see-IsSeated host (files_page drive host) (codes "/files") w h

  pub get_files-IsSeated :
      (cookies : Map Bytes) (w : Web D W) → IsSeated w → KeepsSeats (get_files drive host cookies w)
  unfolding get_files show_files
  get_files-IsSeated cookies w h =
      guarded-IsSeated drive host cookies (show_files drive host) w h (λ w1 h1.
        Ensures-bind (λ p. IsSeated p.1) IsSeated (refreshed drive host w1) _
          (refreshed-IsSeated w1 h1)
          (λ p seated.
            Ensures-then IsSeated (storage_of p.1) _
              (λ d. replace_reply-IsSeated host (files_page drive host) _ _ seated)))

  pub get_upload-IsSeated :
      (cookies : Map Bytes) (w : Web D W)
      → IsSeated w
      → KeepsSeats (get_upload drive host cookies w)
  unfolding get_upload
  get_upload-IsSeated cookies w h =
      guarded-IsSeated drive host cookies (upload_page drive host) w h
        (λ w1 h1. replace_reply-IsSeated host (codes "./html/upload.html") (user_of w1) _ h1)

  pub get_download-IsSeated :
      (path : Bytes) (w : Web D W) → IsSeated w → KeepsSeats (get_download drive host path w)
  unfolding get_download
  get_download-IsSeated path w h =
      Ensures-then IsSeated (or_throw (substr path 10 (length path))) _ (λ filename.
        then_page (drive.download_file w.username filename) (set_status ok w) _ h
          (λ content w1 seated. seated))

  pub get_move-IsSeated :
      (skip : ℕ) (href path : Bytes) (w : Web D W)
      → IsSeated w
      → KeepsSeats (get_move drive host skip href path w)
  unfolding get_move
  get_move-IsSeated skip href path w h =
      Ensures-then IsSeated (or_throw (substr path skip (sub64 (length path) skip))) _ (λ filename.
        Ensures-then IsSeated (storage_of w) _
          (λ d. replace_reply-IsSeated host (codes "./html/move.html") _ _ h))

  pub handle_move_file-IsSeated :
      (path : Bytes) (is_file : Bool) (w : Web D W)
      → IsSeated w
      → KeepsSeats (handle_move_file drive host path is_file w)
  unfolding handle_move_file
  handle_move_file-IsSeated path is_file w h =
      Ensures-then IsSeated (move_of _ path) _
        (λ m. then_page (drive.move_file m.1 m.0) w _ h (λ moved w1. see_files-IsSeated w1))

  pub handle_back-IsSeated :
      (path : Bytes) (w : Web D W) → IsSeated w → KeepsSeats (handle_back drive host path w)
  unfolding handle_back
  handle_back-IsSeated path w h = Ensures-then IsSeated (back_index path) _ (λ id. by_index id)
    where
      by_index :
          (id : ℤ)
          → KeepsSeats (
              elim id [ pos n ↦ on_storage (drive.go_back n) w | negsuc n ↦ abort ] >>= λ p.
              see_files drive host p.1)
      by_index (pos n) = then_page (drive.go_back n) w _ h (λ files w1. see_files-IsSeated w1)
      by_index (negsuc n) = tt

  pub handle_delete-IsSeated :
      (path : Bytes) (w : Web D W) → IsSeated w → KeepsSeats (handle_delete drive host path w)
  unfolding handle_delete
  handle_delete-IsSeated path w h = Ensures-then IsSeated (behind question path) _ (λ filename.
      Ensures-then IsSeated (open_id drive host w) _ (λ path_id.
        then_page (drive.delete_file w.username path_id filename) w _ h
          (λ deleted w1. see_files-IsSeated w1)))

  pub handle_open_directory-IsSeated :
      (path : Bytes) (w : Web D W)
      → IsSeated w
      → KeepsSeats (handle_open_directory drive host path w)
  unfolding handle_open_directory
  handle_open_directory-IsSeated path w h =
      Ensures-then IsSeated (behind question path) _ (λ foldername.
        then_page (drive.open_folder w.username foldername) w _ h
          (λ files w1. see_files-IsSeated w1))

  -- The list is read again, and the page is shown.
  refreshed_page :
      (w : Web D W) (page : List FileInfo × Web D W → Outcome (Web D W))
      → IsSeated w
      → ((names : List FileInfo) (w1 : Web D W) → IsSeated w1 → KeepsSeats (page (names, w1)))
      → KeepsSeats (refreshed drive host w >>= page)
  refreshed_page w page h k =
      Ensures-bind (λ p. IsSeated p.1) IsSeated (refreshed drive host w) page
        (refreshed-IsSeated w h) (λ p seated. k p.0 p.1 seated)

  pub handle_rename-IsSeated :
      (info : Bytes) (w : Web D W) → IsSeated w → KeepsSeats (handle_rename drive host info w)
  unfolding handle_rename
  handle_rename-IsSeated info w h = Ensures-then IsSeated (rename_of info) _ (λ r.
      then_page (drive.rename_file w.username r.1 r.0) w _ h (λ can_rename w1 seated.
        Ensures-if IsSeated can_rename _ _
          (refreshed_page (as_html (set_status ok w1)) _ seated
            (λ names w2 h2. replace_reply-IsSeated host (files_page drive host) _ _ h2))
          (replace_reply-IsSeated host (files_page drive host) _ _ seated)))

  pub handle_create_newfolder-IsSeated :
      (info : Bytes) (w : Web D W)
      → IsSeated w
      → KeepsSeats (handle_create_newfolder drive host info w)
  unfolding handle_create_newfolder
  handle_create_newfolder-IsSeated info w h =
      Ensures-then IsSeated (or_throw (substr info 11 (sub64 (length info) 11))) _ (λ foldername.
        Ensures-then IsSeated (open_id drive host w) _ (λ path_id.
          then_page (drive.create_folder w.username path_id foldername) w _ h (λ created w1 seated.
            refreshed_page _ _ seated
              (λ names w3 h3. replace_reply-IsSeated host (files_page drive host) _ _ h3))))

  store_file-IsSeated :
      (filename content : Bytes) (w : Web D W)
      → IsSeated w
      → KeepsSeats (store_file drive host (codes "./Test") filename content w)
  unfolding store_file
  store_file-IsSeated filename content w h =
      Ensures-then IsSeated (or_throw (host.write_file _ content w.world)) _ (λ world. h)

  pub handle_upload-IsSeated :
      (message : Bytes) (w : Web D W) → IsSeated w → KeepsSeats (handle_upload drive host message w)
  unfolding handle_upload
  handle_upload-IsSeated message w h = Ensures-then IsSeated (find_filename message) _ (λ filename.
      Ensures-then IsSeated (find_file_content message) _ (λ content.
        Ensures-bind IsSeated IsSeated (store_file drive host (codes "./Test") filename content w) _
          (store_file-IsSeated filename content w h)
          (λ w1 h1.
            Ensures-then IsSeated (open_id drive host (to_files drive host w1)) _ (λ current.
              then_page
                (drive.upload_file w1.username current filename content
                  (content_size (length content)))
                _ _ h1
                (λ uploaded w3 h3.
                  refreshed_page w3 _ h3
                    (λ names w4 h4. replace_reply-IsSeated host (files_page drive host) _ _ h4))))))
