-- ===== src/Storage/Uploads.antt =====
-- An upload, as a change of the list of files of its folder.
use google_cloud_final.Base.{
  ℕ, suc, ◌≡◌, refl, ap, ◌∙◌, true, false, List, [], ◌∷◌, ◌++◌, length, map, arith, ◌==◌,
  if◌then◌else◌,
}
use google_cloud_final.Text.{Bytes, codes, equal}
use google_cloud_final.Connection.{has_str, crlf}
use google_cloud_final.FileHandler.{convert_binary_to_str}
use google_cloud_final.Outcome.{done, Option, some, ◌>>=◌}
use google_cloud_final.Storage.{FileInfo, Backend, Storage}
use google_cloud_final.Storage.Records.{file_line}
use google_cloud_final.Storage.Records.Listing.{
  listing, listing-ne_null, AllFit, names_lem, named, exist_lem,
}
use google_cloud_final.Storage.Changes.{send_cput_command_add}
use google_cloud_final.Storage.Files.{insert_new, content_of, name_of, finish_upload, upload_file}
use google_cloud_final.Storage.KeyValue.{KeyValue, shown}
use google_cloud_final.Storage.Additions.{add_lem}

suc_ne_zero : (n : ℕ) → (suc n == 0) ≡ false
suc_ne_zero n = ground arith

ok_reply : has_str (codes "+OK" ++ crlf) (codes "+OK") ≡ true
unfolding has_str
ok_reply = refl

module _ {S : Type 0} {b : Backend S} {view : S → Bytes → Option Bytes}
    {IsIndex Holds : Bytes → Type 0} (kv : KeyValue b view IsIndex Holds) where
  -- The cells after an upload.
  abbrev pub uploaded :
      Bytes
      → Bytes
      → FileInfo
      → List FileInfo
      → Bytes
      → (Bytes → Option Bytes)
      → Bytes
      → Option Bytes
  uploaded user_name path_id f fs content before i =
      if equal (content_of user_name f.id) i
      then some (convert_binary_to_str content)
      else if equal (name_of user_name f.id) i
      then some f.name
      else if equal (content_of user_name path_id) i
      then some (listing (fs ++ f ∷ []))
      else before i

  module _ (user_name path_id id time filename size content : Bytes) (fs : List FileInfo)
      (st : Storage S) (listed : view st.store (content_of user_name path_id) ≡ some (listing fs))
      (fit : AllFit fs) (path_index : IsIndex (content_of user_name path_id)) where
    abbrev pub new_file : FileInfo
    new_file = record { is_file = true; name = filename; id = id; size = size; time = time }

    -- An upload changes the list of the folder, and goes on from there.
    upload_file-add :
        (n : ℕ) (s1 : S)
        → named filename fs ≡ false
        → b.send_get (content_of user_name path_id) st.store ≡ done (listing fs, s1)
        → upload_file b (suc n) id time user_name path_id filename content size st ≡ (
            send_cput_command_add b
              (suc n)
              (content_of user_name path_id)
              (listing fs)
              (file_line new_file ++ codes "\n")
              filename
              s1
            >>= finish_upload b (suc n) new_file user_name content st)
    unfolding upload_file
    upload_file-add n s1 fresh e = by_files fs fit fresh e
      where
        by_files :
            (gs : List FileInfo)
            → AllFit gs
            → named filename gs ≡ false
            → b.send_get (content_of user_name path_id) st.store ≡ done (listing gs, s1)
            → upload_file b (suc n) id time user_name path_id filename content size st ≡ (
                send_cput_command_add b
                  (suc n)
                  (content_of user_name path_id)
                  (listing gs)
                  (file_line new_file ++ codes "\n")
                  filename
                  s1
                >>= finish_upload b (suc n) new_file user_name content st)
        by_files [] h new get = rw (get, listing-ne_null []) refl
        by_files (g ∷ gs) h new get =
            rw
              (
                get,
                listing-ne_null (g ∷ gs),
                names_lem (g ∷ gs) h,
                exist_lem filename (g ∷ gs) h,
                new,
                suc_ne_zero (length (map file_line gs)),
              )
              refl

    finish_lem :
        (n : ℕ) (s2 : S)
        → IsIndex (name_of user_name id)
        → IsIndex (content_of user_name id)
        → Holds filename
        → Holds (convert_binary_to_str content)
        → (st' : Storage S) × (finish_upload b
              (suc n)
              new_file
              user_name
              content
              st
              (codes "+OK" ++ crlf, s2)
            ≡ done (true, st'))
          × ((i : Bytes)
              → view st'.store i ≡ (
                  if equal (content_of user_name id) i
                  then some (convert_binary_to_str content)
                  else if equal (name_of user_name id) i
                  then some filename
                  else view s2 i))
          × (st'.files_in_path ≡ insert_new filename new_file st.files_in_path)
          × (st'.path ≡ st.path)
          × (st'.user_name ≡ st.user_name)
    unfolding finish_upload
    finish_lem n s2 name_index content_index name_fits text_fits =
        let (r3, s3, e3, v3) = kv.put (name_of user_name id) filename s2 name_index name_fits in
        let (r4, s4, e4, v4) =
          kv.put (content_of user_name id) (convert_binary_to_str content) s3 content_index
            text_fits in
        (
          record st { files_in_path = insert_new filename new_file st.files_in_path; store = s4 },
          rw (ok_reply, e3, e4) refl,
          λ i. rw (v4 i, v3 i) refl,
          refl,
          refl,
          refl,
        )

    -- In a store that keeps one cell for each index, the upload of a file into a folder whose cell
    -- lists files that fit on a line, none of that name, succeeds.  After it the cell of the
    -- folder lists the file behind the others, the cells of the file's name and contents hold
    -- them, and every other cell is as before; the file is entered in the files of the open
    -- folder, and the path is as before.  The store takes the indices and texts.
    pub upload_lem :
        (n : ℕ)
        → named filename fs ≡ false
        → IsIndex (name_of user_name id)
        → IsIndex (content_of user_name id)
        → Holds (listing fs)
        → Holds (listing (fs ++ new_file ∷ []))
        → Holds filename
        → Holds (convert_binary_to_str content)
        → (st' : Storage S) × (upload_file b
              (suc n)
              id
              time
              user_name
              path_id
              filename
              content
              size
              st
            ≡ done (true, st'))
          × ((i : Bytes)
              → view st'.store i ≡ uploaded user_name path_id new_file fs content (view st.store) i)
          × (st'.files_in_path ≡ insert_new filename new_file st.files_in_path)
          × (st'.path ≡ st.path)
          × (st'.user_name ≡ st.user_name)
    upload_lem n fresh name_index content_index old_fits new_fits name_fits text_fits =
        let index = content_of user_name path_id in
        let (s1, e1, v1) = kv.get index st.store path_index in
        let (s2, e2, v2) =
          add_lem kv n index fs new_file s1 (v1 index ∙ listed) fit fresh path_index old_fits
            new_fits in
        let (st', e, cells, files, path, user) =
          finish_lem n s2 name_index content_index name_fits text_fits in
        (
          st',
          upload_file-add n s1 fresh (e1 ∙ ap (λ o. done (shown o, s1)) listed)
              ∙ (ap (λ o. o >>= finish_upload b (suc n) new_file user_name content st) e2 ∙ e),
          λ i. cells i ∙ rw (v2 i, v1 i) refl,
          files,
          path,
          user,
        )

    -- In a store that keeps one cell for each index, the upload of a file into a folder that has a
    -- file of that name is refused: no cell changes, nor do the files of the open folder and the
    -- path.
    pub refused_lem :
        (n : ℕ)
        → named filename fs ≡ true
        → (st' : Storage S) × (upload_file b n id time user_name path_id filename content size st
            ≡ done (false, st'))
          × ((i : Bytes) → view st'.store i ≡ view st.store i)
          × (st'.files_in_path ≡ st.files_in_path)
          × (st'.path ≡ st.path)
    unfolding upload_file
    refused_lem n taken =
        let index = content_of user_name path_id in
        let (s1, e1, v1) = kv.get index st.store path_index in
        let get : b.send_get index st.store ≡ done (listing fs, s1) =
          e1 ∙ ap (λ o. done (shown o, s1)) listed in
        (record st { store = s1 }, by_files s1 fs fit taken get, v1, refl, refl)
      where
        by_files :
            (s1 : S) (gs : List FileInfo)
            → AllFit gs
            → named filename gs ≡ true
            → b.send_get (content_of user_name path_id) st.store ≡ done (listing gs, s1)
            → upload_file b n id time user_name path_id filename content size st
              ≡ done (false, record st { store = s1 })
        by_files s1 [] h new get = cc
        by_files s1 (g ∷ gs) h new get =
            rw
              (
                get,
                listing-ne_null (g ∷ gs),
                names_lem (g ∷ gs) h,
                exist_lem filename (g ∷ gs) h,
                new,
                suc_ne_zero (length (map file_line gs)),
              )
              refl
