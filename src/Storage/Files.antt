-- ===== src/Storage/Files.antt =====
-- storage/Storage.cc: the operations on files and folders.  `fuel` bounds the loops that try a
-- change again.  The pointers that the operations return are the records themselves.
use google_cloud_final.Base.{
  ℕ, ◌-◌, Bool, true, false, List, [], ◌∷◌, ◌++◌, length, leb, get_elem?, ◌==◌, if◌then◌else◌,
}
use google_cloud_final.Text.{Bytes, codes, equal}
use google_cloud_final.Map.{Map, lookup, has, insert}
use google_cloud_final.Connection.{has_str}
use google_cloud_final.FileHandler.{convert_binary_to_str}
use google_cloud_final.Outcome.{Outcome, done, abort, Option, none, some, ◌>>=◌, or_throw}
use google_cloud_final.Storage.{FileInfo, Backend, Storage}
use google_cloud_final.Storage.Wire.{err_null, command_parser}
use google_cloud_final.Storage.Records.{
  parse_string_to_class, parse_content_file_names, exist_same_file_name, file_line,
}
use google_cloud_final.Storage.Changes.{lists_name, is_err, send_cput_command_add}

-- `insert(make_pair(name, f))`, which leaves an entry that is there.
abbrev pub insert_new : Bytes → FileInfo → Map FileInfo → Map FileInfo
insert_new name f files = if has name files then files else insert name f files

-- The contents of a folder, and the name of a file, by its identifier.
abbrev pub content_of : Bytes → Bytes → Bytes
content_of user_name id = command_parser user_name (id ++ codes ":content")

abbrev pub name_of : Bytes → Bytes → Bytes
name_of user_name id = command_parser user_name (id ++ codes ":name")

-- The folder that the constructor puts there.
abbrev pub root : FileInfo
root = record {
  is_file = false;
  name = codes "storage";
  id = codes "storage";
  size = codes "0";
  time = codes "0";
}

-- The record of each line.
unfoldable pub parse_all : List Bytes → Outcome (List FileInfo)
unfolding parse_string_to_class
parse_all [] = done []
parse_all (line ∷ lines) = do f ← parse_string_to_class line; fs ← parse_all lines; done (f ∷ fs)

unfoldable pub insert_all : List FileInfo → Map FileInfo → Map FileInfo
unfolding has
insert_all [] files = files
insert_all (f ∷ fs) files = insert_all fs (insert_new f.name f files)

-- `path.at(path.size() - k)`
unfoldable pub from_end : ℕ → List FileInfo → Outcome FileInfo
from_end k path = if leb k (length path) then or_throw (get_elem? path (length path - k)) else abort

-- `nameToID`, and the other members of a file that is not there, follow a null pointer.
unfoldable pub file_at : {S : Type 0} → Storage S → Bytes → Outcome FileInfo
file_at st name = or_throw (lookup name st.files_in_path)

module _ {S : Type 0} (b : Backend S) (fuel : ℕ) where
  unfoldable pub open_folder :
      Bytes → Bytes → Storage S → Outcome (Option (List FileInfo) × Storage S)
  unfolding file_at parse_all insert_all
  open_folder user_name foldername st = do
    folder ← file_at st foldername
    (contents, s1) ← b.send_get (content_of user_name folder.id) st.store
    let opened = (do
      files ← parse_all (parse_content_file_names contents)
      let f : FileInfo = record {
        is_file = false;
        name = foldername;
        id = folder.id;
        size = folder.size;
        time = folder.time;
      }
      done (
        some files,
        record st { path = st.path ++ f ∷ []; files_in_path = insert_all files []; store = s1 },
      ))
    if equal contents err_null then done (none, record st { store = s1 }) else opened

  unfoldable pub refresh_upload : Storage S → Outcome (Option (List FileInfo) × Storage S)
  unfolding from_end parse_all insert_all
  refresh_upload st = do
    folder ← from_end 1 st.path
    (contents, s1) ← b.send_get (content_of st.user_name folder.id) st.store
    let read = (do
      files ← parse_all (parse_content_file_names contents)
      done (some files, record st { files_in_path = insert_all files []; store = s1 }))
    if equal contents err_null then done (none, record st { store = s1 }) else read

  -- `resgister`; the result of `open_folder` is not looked at.
  unfoldable pub register : Bytes → Bytes → Storage S → Outcome (Bool × Storage S)
  unfolding open_folder has_str
  register user_name password st = do
    let index = command_parser user_name (codes "password")
    (contents, s1) ← b.send_get index st.store
    let create = (do
      (temp, s2) ← b.send_cput index (codes "NULL") password s1
      let set_up = (do
        let storage_index = command_parser user_name (codes "storage:name")
        (temp2, s3) ← b.send_put storage_index (codes "storage") s2
        (temp3, s4) ← b.send_put (command_parser user_name (codes "storage:content")) [] s3
        (data_test, s5) ← b.send_get storage_index s4
        (files, st') ← open_folder st.user_name (codes "storage") (record st { store = s5 })
        done (true, st'))
      if is_err temp then done (false, record st { store = s2 }) else set_up)
    if equal contents err_null then create else done (false, record st { store = s1 })

  unfoldable pub sign_in : Bytes → Bytes → Storage S → Outcome (Bool × Storage S)
  unfolding open_folder
  sign_in user_name password st = do
    (contents, s1) ← b.send_get (command_parser user_name (codes "password")) st.store
    let enter = (do
      (files, st') ← open_folder st.user_name (codes "storage") (record st { store = s1 })
      done (true, st'))
    if equal contents password then enter else done (false, record st { store = s1 })

  -- What follows the change of the folder: the cells of the file, if the change was made.
  unfoldable pub finish_upload :
      FileInfo → Bytes → Bytes → Storage S → Bytes × S → Outcome (Bool × Storage S)
  unfolding has_str convert_binary_to_str has
  finish_upload f user_name content st (cput_reply, s2) =
      let put = (do
        (put_reply, s3) ← b.send_put (name_of user_name f.id) f.name s2
        (put_reply2, s4) ← b.send_put (content_of user_name f.id) (convert_binary_to_str content) s3
        done (
          true,
          record st { files_in_path = insert_new f.name f st.files_in_path; store = s4 },
        )) in
      if has_str cput_reply (codes "+OK") then put else done (false, record st { store = s2 })

  -- A file with the identifier `id`, of the time `time`, is put into the folder.
  unfoldable pub upload_file :
      Bytes → Bytes → Bytes → Bytes → Bytes → Bytes → Bytes → Storage S → Outcome (Bool × Storage S)
  unfolding send_cput_command_add exist_same_file_name finish_upload
  upload_file id time user_name path_id filename content size st = do
    let f : FileInfo = record { is_file = true; name = filename; id = id; size = size; time = time }
    let index = content_of user_name path_id
    (complete, s1) ← b.send_get index st.store
    let names = parse_content_file_names complete
    let add_first = (do
      p ← send_cput_command_add b fuel index [] (file_line f ++ codes "\n") filename s1
      finish_upload f user_name content st p)
    let add = (do
      exist ← exist_same_file_name filename names
      let append = (do
        p ← send_cput_command_add b fuel index complete (file_line f ++ codes "\n") filename s1
        finish_upload f user_name content st p)
      if exist then done (false, record st { store = s1 }) else append)
    if equal complete err_null
        then done (false, record st { store = s1 })
        else if length names == 0
        then add_first
        else add

  unfoldable pub create_folder :
      Bytes → Bytes → Bytes → Bytes → Bytes → Storage S → Outcome (Bool × Storage S)
  unfolding send_cput_command_add lists_name refresh_upload has_str has
  create_folder id time user_name path_id folder_name st = do
    let f : FileInfo = record {
      is_file = false;
      name = folder_name;
      id = id;
      size = codes "0";
      time = time;
    }
    let index = content_of user_name path_id
    (contents, s1) ← b.send_get index st.store
    let add = (do
      exist ← lists_name contents folder_name
      let append = (do
        (cput_reply, s2) ←
            send_cput_command_add b fuel index contents (file_line f ++ codes "\n") folder_name s1
        let put = (do
          (put_reply1, s3) ← b.send_put (name_of user_name id) folder_name s2
          (put_reply2, s4) ← b.send_put (content_of user_name id) [] s3
          (files, st') ←
              refresh_upload (record st {
                files_in_path = insert_new folder_name f st.files_in_path;
                store = s4;
              })
          done (true, st'))
        if has_str cput_reply (codes "+OK") then put else done (false, record st { store = s2 }))
      if exist then done (false, record st { store = s1 }) else append)
    if equal contents err_null then done (false, record st { store = s1 }) else add
