-- ===== src/Storage/Edits.antt =====
-- storage/Storage.cc: the operations that read a file, or delete, rename or move it.
use google_cloud_final.Base.{
  ℕ, ◌+◌, ◌-◌, Bool, true, false, not, ◌&&◌, ◌||◌, List, [], ◌∷◌, ◌++◌, length, take, ltb,
  if◌then◌else◌,
}
use google_cloud_final.Text.{Bytes, codes, sub64, equal}
use google_cloud_final.Map.{Map, has, erase}
use google_cloud_final.Connection.{has_str}
use google_cloud_final.FileHandler.{convert_str_to_binary}
use google_cloud_final.CText.{strncasecmp}
use google_cloud_final.Outcome.{Outcome, done, Option, none, some, ◌>>=◌}
use google_cloud_final.Storage.{FileInfo, Backend, Storage}
use google_cloud_final.Storage.Wire.{err_null}
use google_cloud_final.Storage.Records.{parse_content_file_names, file_line}
use google_cloud_final.Storage.Changes.{
  with_name, is_err, send_cput_command_add, send_cput_command_delete, rename_again,
}
use google_cloud_final.Storage.Files.{content_of, name_of, from_end, file_at, refresh_upload}

module _ {S : Type 0} (b : Backend S) (fuel : ℕ) where
  -- The contents of the file, or `none` for the result false.
  unfoldable pub download_file : Bytes → Bytes → Storage S → Outcome (Option Bytes × Storage S)
  unfolding file_at convert_str_to_binary
  download_file user_name filename st = do
    f ← file_at st filename
    (text, s1) ← b.send_get (content_of user_name f.id) st.store
    let read = (do
      content ← convert_str_to_binary text
      done (some content, record st { store = s1 }))
    if equal text err_null then done (none, record st { store = s1 }) else read

  unfoldable pub delete_file : Bytes → Bytes → Bytes → Storage S → Outcome (Bool × Storage S)
  unfolding file_at send_cput_command_delete strncasecmp
  delete_file user_name path_id filename st = do
    f ← file_at st filename
    let index = content_of user_name path_id
    (contents, s1) ← b.send_get index st.store
    let remove = (do
      (try_delete, cput_reply, s2) ← send_cput_command_delete b fuel index contents f.id s1
      let drop_cells = (do
        (delete_reply1, s3) ← b.send_delete (name_of user_name f.id) s2
        (delete_reply2, s4) ← b.send_delete (content_of user_name f.id) s3
        done (true, record st { files_in_path = erase filename st.files_in_path; store = s4 }))
      if not try_delete && strncasecmp cput_reply (codes "+OK") 3
          then drop_cells
          else done (false, record st { store = s2 }))
    if equal contents err_null || equal contents []
        then done (false, record st { store = s1 })
        else remove

  unfoldable pub rename_file : Bytes → Bytes → Bytes → Storage S → Outcome (Bool × Storage S)
  unfolding file_at from_end with_name rename_again strncasecmp has
  rename_file user_name old_name new_name st = do
    let rename = (do
      folder ← from_end 1 st.path
      f ← file_at st old_name
      let path_index = content_of user_name folder.id
      (path_content, s1) ← b.send_get path_index st.store
      let change = (do
        new_contents ← with_name f.is_file old_name new_name (parse_content_file_names path_content)
        (cput_reply, s2) ← b.send_cput path_index path_content new_contents s1
        (last_reply, s3) ← rename_again b fuel path_index f.is_file old_name new_name cput_reply s2
        let give_up : Outcome (Bool × Storage S) = done (false, record st { store = s3 })
        elim last_reply [
          | none ↦ give_up
          | some reply ↦
              let put = (do
                (put_response, s4) ← b.send_put (name_of user_name f.id) new_name s3
                done (true, record st { store = s4 })) in
              if strncasecmp reply (codes "+OK") 3 then put else give_up
        ])
      if equal path_content err_null || equal path_content []
          then done (false, record st { store = s1 })
          else change)
    if has old_name st.files_in_path then rename else done (false, st)

  -- The folders of the path but the one that is moved, in the order of their names.
  unfoldable pub get_accessible_moving_path : Bytes → Map FileInfo → List FileInfo
  get_accessible_moving_path filename [] = []
  get_accessible_moving_path filename ((name, f) ∷ files) =
      let rest = get_accessible_moving_path filename files in
      if not f.is_file && not (equal f.name filename) then f ∷ rest else rest

  unfoldable pub recover_old_path : Bytes → FileInfo → Storage S → Outcome (Bool × Storage S)
  unfolding send_cput_command_add has_str
  recover_old_path old_path_id f st = do
    let index = content_of st.user_name old_path_id
    (get_reply, s1) ← b.send_get index st.store
    let add = (do
      (cput_reply, s2) ←
          send_cput_command_add b fuel index get_reply (file_line f ++ codes "\n") f.name s1
      done (not (is_err cput_reply), record st { store = s2 }))
    if equal get_reply err_null then done (false, record st { store = s1 }) else add

  -- The file is taken out of the folder that is open, and put into a folder in it; if it cannot be
  -- put there, it is put back.
  unfoldable pub move_file : Bytes → Bytes → Storage S → Outcome (Bool × Storage S)
  unfolding file_at from_end send_cput_command_add send_cput_command_delete recover_old_path
      refresh_upload has_str
  move_file new_pathname filename st = do
    folder ← from_end 1 st.path
    target ← file_at st new_pathname
    found ← file_at st filename
    let f = record found { name = filename }
    let old_index = content_of st.user_name folder.id
    (old_contents, s1) ← b.send_get old_index st.store
    let move = (do
      (d, cput_reply, s2) ← send_cput_command_delete b fuel old_index old_contents f.id s1
      let put = (do
        let new_index = content_of st.user_name target.id
        (new_contents, s3) ← b.send_get new_index s2
        let put_back = λ (s : S). (do
          (recovered, st') ← recover_old_path folder.id f (record st { store = s })
          done (false, st'))
        let add = (do
          (cput_reply1, s4) ←
              send_cput_command_add b fuel new_index new_contents (file_line f ++ codes "\n")
                filename s3
          let refresh = (do
            (files, st') ← refresh_upload b fuel (record st { store = s4 })
            done (true, st'))
          if is_err cput_reply1 then put_back s4 else refresh)
        if has_str new_contents err_null then put_back s3 else add)
      if not d && has_str cput_reply (codes "+OK")
          then put
          else done (false, record st { store = s2 }))
    if equal old_contents err_null || equal old_contents []
        then done (false, record st { store = s1 })
        else move

  -- The folders behind `index` are left.
  unfoldable pub go_back : ℕ → Storage S → Outcome (Option (List FileInfo) × Storage S)
  unfolding refresh_upload
  go_back index st = refresh_upload b fuel (record st { path = take (index + 1) st.path })

  unfoldable pub reload_page : ℕ → Storage S → Outcome (Option (List FileInfo) × Storage S)
  unfolding go_back refresh_upload
  reload_page index st =
      if ltb index (sub64 (length st.path) 1) then go_back index st else refresh_upload b fuel st

  unfoldable pub delete_folder : Storage S → Outcome (Bool × Storage S)
  unfolding from_end go_back delete_file
  delete_folder st = do
    folder ← from_end 1 st.path
    parent ← from_end 2 st.path
    (files, st') ← go_back (length st.path - 2) st
    delete_file st'.user_name parent.id folder.name st'
