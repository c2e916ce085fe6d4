-- ===== src/Web/Storages.antt =====
-- The web server over the storages of storage/Storage.cc: each operation works on the object of the
-- user and on the one store.  `stamp` gives the identifier and the time of a new file, and `connect`
-- is the constructor of `Storage`.
pub mod Upload
use google_cloud_final.Base.{ℕ}
use google_cloud_final.Text.{Bytes}
use google_cloud_final.Outcome.{Outcome, done, ◌>>=◌}
use google_cloud_final.Storage.{Backend, Storage}
use google_cloud_final.Storage.Files as Files
use google_cloud_final.Storage.Edits as Edits
use google_cloud_final.Web.Site.{Drive}

-- An operation of a storage, on the store as it is now.
abbrev pub through :
    {S A : Type 0}
    → (Storage S → Outcome (A × Storage S))
    → Storage S
    → S
    → Outcome (A × Storage S × S)
through operation d s = do (a, st) ← operation (record d { store = s }); done (a, st, st.store)

abbrev pub storage_drive :
    {S : Type 0}
    → Backend S
    → ℕ
    → (S → Bytes × Bytes)
    → (Bytes → S → Outcome (Storage S × S))
    → Drive (Storage S) S
storage_drive b fuel stamp connect = record {
  new_storage = connect;
  register = λ name password d s. through (Files.register b fuel name password) d s;
  sign_in = λ name password d s. through (Files.sign_in b fuel name password) d s;
  path = λ d. d.path;
  refresh_upload = λ d s. through (Files.refresh_upload b fuel) d s;
  open_folder = λ user name d s. through (Files.open_folder b fuel user name) d s;
  go_back = λ index d s. through (Edits.go_back b fuel index) d s;
  delete_file = λ user path_id name d s. through (Edits.delete_file b fuel user path_id name) d s;
  rename_file = λ user old new d s. through (Edits.rename_file b fuel user old new) d s;
  create_folder = λ user path_id name d s.
      through (Files.create_folder b fuel (stamp s).0 (stamp s).1 user path_id name) d s;
  upload_file = λ user path_id name content size d s.
      through (Files.upload_file b fuel (stamp s).0 (stamp s).1 user path_id name content size) d s;
  download_file = λ user name d s. through (Edits.download_file b fuel user name) d s;
  move_file = λ folder name d s. through (Edits.move_file b fuel folder name) d s;
  get_accessible_moving_path =
      λ name d. Edits.get_accessible_moving_path b fuel name d.files_in_path;
}
