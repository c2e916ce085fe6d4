-- ===== src/Storage/Downloads.antt =====
-- A file that was put into the store is read back.
use google_cloud_final.Base.{ℕ, suc, ◌≡◌, refl, ◌∙◌, true, false, List, [], ◌∷◌, ◌++◌, arith}
use google_cloud_final.Text.{Bytes, equal, equal_refl}
use google_cloud_final.Map.{Map, has}
use google_cloud_final.Map.Laws.{lookup-insert}
use google_cloud_final.FileHandler.{convert_binary_to_str}
use google_cloud_final.FileHandler.RoundTrip.{AllBytes, convert_lem}
use google_cloud_final.Outcome.{done, Option, some}
use google_cloud_final.Storage.{FileInfo, Backend, Storage}
use google_cloud_final.Storage.Wire.{err_null}
use google_cloud_final.Storage.Records.Listing.{listing, AllFit, named}
use google_cloud_final.Storage.Files.{insert_new, content_of, name_of, file_at, upload_file}
use google_cloud_final.Storage.Edits.{download_file}
use google_cloud_final.Storage.KeyValue.{KeyValue}
use google_cloud_final.Storage.Uploads.{upload_lem}

-- The text of a file is not the answer for no cell.
text-ne_null :
    (c : ℕ) (content : Bytes) → equal (convert_binary_to_str (c ∷ content)) err_null ≡ false
unfolding equal convert_binary_to_str
text-ne_null c content = ground arith

file_at-insert :
    {S : Type 0} (st : Storage S) (name : Bytes) (f : FileInfo) (files : Map FileInfo)
    → has name files ≡ false
    → st.files_in_path ≡ insert_new name f files
    → file_at st name ≡ done f
unfolding file_at
file_at-insert st name f files fresh e =
    rw (e, fresh, lookup-insert name name f files, equal_refl name) refl

module _ {S : Type 0} {b : Backend S} {view : S → Bytes → Option Bytes}
    {IsIndex Holds : Bytes → Type 0} (kv : KeyValue b view IsIndex Holds) where
  pub download_lem :
      (user_name filename : Bytes) (f : FileInfo) (n c : ℕ) (content : Bytes) (st : Storage S)
      → file_at st filename ≡ done f
      → view st.store (content_of user_name f.id) ≡ some (convert_binary_to_str (c ∷ content))
      → AllBytes (c ∷ content)
      → IsIndex (content_of user_name f.id)
      → (st' : Storage S) × (download_file b n user_name filename st
          ≡ done (some (c ∷ content), st'))
        × ((i : Bytes) → view st'.store i ≡ view st.store i)
  unfolding download_file
  download_lem user_name filename f n c content st here cell bytes ix =
      let (s1, e, v) = kv.get (content_of user_name f.id) st.store ix in
      (
        record st { store = s1 },
        rw (here, e, cell, text-ne_null c content, convert_lem c content bytes) refl,
        v,
      )

  -- Under the conditions under which an upload succeeds, and if the file is of bytes, is not
  -- empty, and no file of that name is in the files of the open folder, a download after the
  -- upload gives the contents that were uploaded.
  pub upload-download :
      (user_name path_id id time filename size : Bytes) (fs : List FileInfo) (st : Storage S)
      (n c : ℕ) (content : Bytes)
      → view st.store (content_of user_name path_id) ≡ some (listing fs)
      → AllFit fs
      → named filename fs ≡ false
      → has filename st.files_in_path ≡ false
      → AllBytes (c ∷ content)
      → IsIndex (content_of user_name path_id)
      → IsIndex (name_of user_name id)
      → IsIndex (content_of user_name id)
      → Holds (listing fs)
      → Holds (
          listing (
            fs
            ++ record { is_file = true; name = filename; id = id; size = size; time = time } ∷ []))
      → Holds filename
      → Holds (convert_binary_to_str (c ∷ content))
      → (st' : Storage S) × (st'' : Storage S) × (upload_file b
            (suc n)
            id
            time
            user_name
            path_id
            filename
            (c ∷ content)
            size
            st
          ≡ done (true, st'))
        × (download_file b (suc n) user_name filename st' ≡ done (some (c ∷ content), st''))
  upload-download user_name path_id id time filename size fs st n c content listed fit fresh
        new_name bytes path_index name_index content_index old_fits new_fits name_fits text_fits =
      let (st', e, cells, files, path, user) =
        upload_lem kv user_name path_id id time filename size (c ∷ content) fs st listed fit
          path_index n fresh name_index content_index old_fits new_fits name_fits text_fits in
      let f : FileInfo = record {
        is_file = true;
        name = filename;
        id = id;
        size = size;
        time = time;
      } in
      let here = file_at-insert st' filename f st.files_in_path new_name files in
      let cell : view st'.store (content_of user_name id)
          ≡ some (convert_binary_to_str (c ∷ content)) =
        cells (content_of user_name id) ∙ rw (equal_refl (content_of user_name id)) refl in
      let (st'', e', v) =
        download_lem user_name filename f (suc n) c content st' here cell bytes content_index in
      (st', st'', e, e')
