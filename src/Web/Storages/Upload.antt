-- ===== src/Web/Storages/Upload.antt =====
-- A file that is uploaded with a form is in the key-value store afterwards.
use google_cloud_final.Base.{
  ℕ, suc, ◌≡◌, refl, ap, ◌∙◌, true, false, List, [], ◌∷◌, ◌++◌, Option, some, length,
}
use google_cloud_final.Text.{Bytes, codes, equal, equal_refl}
use google_cloud_final.Map.{lookup, insert}
use google_cloud_final.Map.Laws.{lookup-insert}
use google_cloud_final.Connection.{c_str}
use google_cloud_final.FileHandler.{convert_binary_to_str}
use google_cloud_final.Outcome.{
  Outcome, done, Ensures, Ensures-bind, Ensures-then, Ensures-if, or_throw,
}
use google_cloud_final.Storage.{FileInfo, Backend, Storage}
use google_cloud_final.Storage.Wire.{err_null}
use google_cloud_final.Storage.Records.{parse_content_file_names}
use google_cloud_final.Storage.Records.Listing.{listing, AllFit, named}
use google_cloud_final.Storage.Files.{
  content_of, name_of, from_end, parse_all, upload_file, refresh_upload,
}
use google_cloud_final.Storage.KeyValue.{KeyValue, shown}
use google_cloud_final.Storage.Uploads.{uploaded, upload_lem}
use google_cloud_final.Web.Site.{Drive, Host, Web}
use google_cloud_final.Web.Reply.{with_cookie, user_of}
use google_cloud_final.Web.Paths.{find_filename, find_file_content, content_size}
use google_cloud_final.Web.Account.{storage_of, on_storage}
use google_cloud_final.Web.Folders.{
  refreshed, open_id, files_page, store_file, to_files, handle_upload,
}
use google_cloud_final.Web.Seats.{replace_reply_keeps}
use google_cloud_final.Web.Storages.{through, storage_drive}

-- The record of a file that is uploaded: `stamp` is its identifier and its time.
abbrev pub new_entry : Bytes × Bytes → Bytes → Bytes → FileInfo
new_entry stamp filename content = record {
  is_file = true;
  name = filename;
  id = stamp.0;
  size = content_size (length content);
  time = stamp.1;
}

module _ {S : Type 0} {b : Backend S} {view : S → Bytes → Option Bytes}
    {IsIndex Holds : Bytes → Type 0} (kv : KeyValue b view IsIndex Holds) where
  -- The second store has the cells of the first.
  abbrev SameCells : S → S → Type 0
  SameCells s t = (i : Bytes) → view t i ≡ view s i

  -- The list of a folder is read, and no cell changes.
  refresh-view :
      (fuel : ℕ) (folder : FileInfo) (st : Storage S)
      → from_end 1 st.path ≡ done folder
      → IsIndex (content_of st.user_name folder.id)
      → Ensures (λ p. SameCells st.store p.1.store) (refresh_upload b fuel st)
  unfolding refresh_upload
  refresh-view fuel folder st here ix =
      let (s1, e, v) = kv.get (content_of st.user_name folder.id) st.store ix in
      let text = shown (view st.store (content_of st.user_name folder.id)) in
      rw (here, e)
        (Ensures-if (λ p. SameCells st.store p.1.store) (equal text err_null) _ _ v
          (Ensures-then (λ p. SameCells st.store p.1.store)
            (parse_all (parse_content_file_names text)) _ (λ files. v)))

  module _ (host : Host S) (n : ℕ) (stamp : S → Bytes × Bytes)
      (connect : Bytes → S → Outcome (Storage S × S)) where
    abbrev drive : Drive (Storage S) S
    drive = storage_drive b (suc n) stamp connect

    -- What an operation leaves in the store, it leaves in the world of the web server.
    through_lem :
        {A : Type 0} (Q : S → Type 0) (operation : Storage S → Outcome (A × Storage S))
        (d : Storage S) (s : S)
        → Ensures (λ (p : A × Storage S). Q p.1.store) (operation (record d { store = s }))
        → Ensures (λ (t : A × Storage S × S). Q t.2) (through operation d s)
    through_lem {A} Q operation d s h =
        Ensures-bind (λ (p : A × Storage S). Q p.1.store) (λ (t : A × Storage S × S). Q t.2)
          (operation (record d { store = s })) _ h (λ p q. q)

    on_storage_lem :
        {A : Type 0} (Q : S → Type 0) (operation : Storage S → S → Outcome (A × Storage S × S))
        (d : Storage S) (w : Web (Storage S) S)
        → storage_of w ≡ done d
        → Ensures (λ (t : A × Storage S × S). Q t.2) (operation d w.world)
        → Ensures (λ (p : A × Web (Storage S) S). Q p.1.world) (on_storage operation w)
    unfolding on_storage
    on_storage_lem {A} Q operation d w mine h = rw mine (
        Ensures-bind (λ (t : A × Storage S × S). Q t.2) (λ (p : A × Web (Storage S) S). Q p.1.world)
          (operation d w.world) _ h (λ t q. q))

    -- The list of the folder that is open is read for the next page.
    refreshed-view :
        (folder : FileInfo) (d : Storage S) (w : Web (Storage S) S)
        → storage_of w ≡ done d
        → from_end 1 d.path ≡ done folder
        → IsIndex (content_of d.user_name folder.id)
        → Ensures (λ p. SameCells w.world p.1.world) (refreshed drive host w)
    refreshed-view folder d w mine here ix =
        Ensures-bind
          (λ (p : Option (List FileInfo) × Web (Storage S) S). SameCells w.world p.1.world)
          (λ (p : List FileInfo × Web (Storage S) S). SameCells w.world p.1.world)
          (on_storage drive.refresh_upload w) _
          (on_storage_lem (SameCells w.world) drive.refresh_upload d w mine (
            through_lem (SameCells w.world) (refresh_upload b (suc n)) d w.world
              (refresh-view (suc n) folder (record d { store = w.world }) here ix)))
          (λ p v.
            Ensures-then (λ (q : List FileInfo × Web (Storage S) S). SameCells w.world q.1.world)
              (or_throw p.0) _ (λ names. v))

    module _ (w : Web (Storage S) S) (message filename content : Bytes) (d : Storage S)
        (folder : FileInfo) (fs : List FileInfo) (s : S)
        (named_so : find_filename message ≡ done filename)
        (holds_it : find_file_content message ≡ done content)
        (written : host.write_file
            (c_str (codes "./Test" ++ (codes "/" ++ filename)))
            content
            w.world
          ≡ some s)
        (mine : lookup w.username w.all_storages ≡ some d) (here : from_end 1 d.path ≡ done folder)
        (listed : view s (content_of w.username folder.id) ≡ some (listing fs)) (fit : AllFit fs)
        (fresh : named filename fs ≡ false) where
      -- The web server after the copy of the file was written.
      abbrev w1 : Web (Storage S) S
      w1 = record w { world = s }

      store_file_lem : store_file drive host (codes "./Test") filename content w ≡ done w1
      unfolding store_file
      store_file_lem = rw written refl

      storage_lem : storage_of (to_files drive host w1) ≡ done d
      unfolding storage_of
      storage_lem = rw mine refl

      open_lem : open_id drive host (to_files drive host w1) ≡ done folder.id
      open_lem = rw (storage_lem, here) refl

      -- The web server after the file was put into the storage, whose object is now `st'`.
      abbrev w3 : Storage S → Web (Storage S) S
      w3 st' = record (to_files drive host w1) {
        all_storages = insert w.username st' w.all_storages;
        world = st'.store;
      }

      mine_still : (st' : Storage S) → storage_of (w3 st') ≡ done st'
      unfolding storage_of
      mine_still st' =
          rw (lookup-insert w.username w.username st' w.all_storages, equal_refl w.username) refl

      put_lem :
          (st' : Storage S)
          → upload_file b
              (suc n)
              (stamp s).0
              (stamp s).1
              w.username
              folder.id
              filename
              content
              (content_size (length content))
              (record d { store = s })
            ≡ done (true, st')
          → on_storage
              (drive.upload_file w.username folder.id filename content
                (content_size (length content)))
              (to_files drive host w1)
            ≡ done (true, w3 st')
      unfolding on_storage
      put_lem st' e = rw (storage_lem, e) refl

      -- A form with a file comes from a user whose storage is there, with a folder open whose cell
      -- lists files that fit on a line, none of that name; the copy of the file can be written;
      -- and the store, which keeps one cell for each index, takes the indices and the texts.
      -- Wherever the handler then returns, the cell of the folder lists the file behind the
      -- others, the cells of the file's name and contents hold what was uploaded, and every other
      -- cell is as before.
      pub handle_upload_lem :
          IsIndex (content_of w.username folder.id)
          → IsIndex (content_of d.user_name folder.id)
          → IsIndex (name_of w.username (stamp s).0)
          → IsIndex (content_of w.username (stamp s).0)
          → Holds (listing fs)
          → Holds (listing (fs ++ new_entry (stamp s) filename content ∷ []))
          → Holds filename
          → Holds (convert_binary_to_str content)
          → Ensures
              (λ w'.
                (i : Bytes)
                → view w'.world i
                  ≡ uploaded kv w.username folder.id
                      (new_entry (stamp s) filename content)
                      fs
                      content
                      (view s)
                      i)
              (handle_upload drive host message w)
      unfolding handle_upload
      handle_upload_lem ix ix2 ix3 ix4 h1 h2 h3 h4 =
          let (st', e, cells, files, path, user) =
            upload_lem kv w.username folder.id (stamp s).0 (stamp s).1 filename
              (content_size (length content)) content fs (record d { store = s }) listed fit ix n
              fresh ix3 ix4 h1 h2 h3 h4 in
          let index : IsIndex (content_of st'.user_name folder.id) = rw user ix2 in
          rw (named_so, holds_it, store_file_lem, open_lem, put_lem st' e)
            (Ensures-bind (λ (p : List FileInfo × Web (Storage S) S). SameCells st'.store p.1.world)
              (λ (w' : Web (Storage S) S).
                (i : Bytes)
                → view w'.world i
                  ≡ uploaded kv w.username folder.id (new_entry (stamp s) filename content) fs
                      content (view s) i)
              (refreshed drive host (w3 st')) _
              (refreshed-view folder st' (w3 st') (mine_still st') (ap (from_end 1) path ∙ here)
                index)
              (λ p v.
                replace_reply_keeps
                  (λ (w' : Web (Storage S) S).
                    (i : Bytes)
                    → view w'.world i
                      ≡ uploaded kv w.username folder.id (new_entry (stamp s) filename content) fs
                          content (view s) i)
                  host (files_page drive host) (user_of p.1) (with_cookie p.1)
                  (λ client i. v i ∙ cells i)))
