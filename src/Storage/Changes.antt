-- ===== src/Storage/Changes.antt =====
-- storage/Storage.cc: the changes of the contents of a folder, which are tried again when another
-- client was faster.
use google_cloud_final.Base.{
  ℕ, zero, suc, Bool, true, false, ◌&&◌, ◌||◌, List, [], ◌∷◌, ◌++◌, if◌then◌else◌,
}
use google_cloud_final.Text.{Bytes, codes, equal}
use google_cloud_final.Connection.{has_str}
use google_cloud_final.Outcome.{Outcome, done, blocked, Option, none, some, ◌>>=◌}
use google_cloud_final.Storage.{Backend}
use google_cloud_final.Storage.Wire.{err_null}
use google_cloud_final.Storage.Records.{
  parse_string_to_class, parse_content_file_names, exist_same_file_name, file_line,
}

-- Whether the contents, if there are any, list the name.
unfoldable pub lists_name : Bytes → Bytes → Outcome Bool
unfolding exist_same_file_name parse_content_file_names
lists_name [] filename = done false
lists_name (c ∷ contents) filename =
    exist_same_file_name filename (parse_content_file_names (c ∷ contents))

-- The lines but those of the identifier, and whether there was none.
unfoldable pub without_id : Bytes → List Bytes → Outcome (Bytes × Bool)
unfolding parse_string_to_class
without_id delete_name [] = done ([], true)
without_id delete_name (line ∷ lines) = do
  f ← parse_string_to_class line
  (rest, has_deleted) ← without_id delete_name lines
  done (
      if equal f.id delete_name then (rest, false) else (line ++ (codes "\n" ++ rest), has_deleted))

-- The lines, with that of the file of the old name written again with the new one.
unfoldable pub with_name : Bool → Bytes → Bytes → List Bytes → Outcome Bytes
unfolding parse_string_to_class
with_name is_file old_name new_name [] = done []
with_name is_file old_name new_name (line ∷ lines) = do
  f ← parse_string_to_class line
  rest ← with_name is_file old_name new_name lines
  let renamed = file_line (record f { is_file = is_file; name = new_name })
  done ((if equal f.name old_name then renamed else line) ++ (codes "\n" ++ rest))

abbrev pub is_err : Bytes → Bool
is_err response = has_str response (codes "-ERR")

module _ {S : Type 0} (b : Backend S) where
  -- The loop of `send_cput_command_add`.
  unfoldable pub add_again : ℕ → Bytes → Bytes → Bytes → Bytes → S → Outcome (Bytes × S)
  unfolding lists_name has_str
  add_again zero index new_line filename response s = blocked
  add_again (suc fuel) index new_line filename response s =
      let again = (do
        (contents, s1) ← b.send_get index s
        let retry = (do
          exists ← lists_name contents filename
          let swap = (do
            (response', s2) ← b.send_cput index contents (contents ++ new_line) s1
            add_again fuel index new_line filename response' s2)
          if exists then done ([], s1) else swap)
        if equal contents err_null then done (response, s1) else retry) in
      if is_err response then again else done (response, s)

  unfoldable pub send_cput_command_add : ℕ → Bytes → Bytes → Bytes → Bytes → S → Outcome (Bytes × S)
  unfolding add_again lists_name
  send_cput_command_add fuel index old_data new_line filename s = do
    exists ← lists_name old_data filename
    let swap = (do
      (response, s1) ← b.send_cput index old_data (old_data ++ new_line) s
      add_again fuel index new_line filename response s1)
    if exists then done (codes "-ERR", s) else swap

  -- The loop of `send_cput_command_delete`; the flag is false once a line was left out.
  unfoldable pub delete_again : ℕ → Bytes → Bytes → Bool → Bytes → S → Outcome (Bool × Bytes × S)
  unfolding without_id has_str
  delete_again zero index delete_name has_deleted response s = blocked
  delete_again (suc fuel) index delete_name has_deleted response s =
      let again = (do
        (contents, s1) ← b.send_get index s
        let swap = (do
          (new_content, absent) ← without_id delete_name (parse_content_file_names contents)
          (response', s2) ← b.send_cput index contents new_content s1
          delete_again fuel index delete_name (has_deleted && absent) response' s2)
        if equal contents err_null || equal contents []
            then done (has_deleted, response, s1)
            else swap) in
      if is_err response then again else done (has_deleted, response, s)

  unfoldable pub send_cput_command_delete :
      ℕ → Bytes → Bytes → Bytes → S → Outcome (Bool × Bytes × S)
  unfolding delete_again without_id
  send_cput_command_delete fuel index old_data delete_name s = do
    (new_content, has_deleted) ← without_id delete_name (parse_content_file_names old_data)
    (response, s1) ← b.send_cput index old_data new_content s
    delete_again fuel index delete_name has_deleted response s1

  -- The loop of `rename_file`; `none` is the early `return false`.
  unfoldable pub rename_again :
      ℕ → Bytes → Bool → Bytes → Bytes → Bytes → S → Outcome (Option Bytes × S)
  unfolding with_name has_str
  rename_again zero index is_file old_name new_name response s = blocked
  rename_again (suc fuel) index is_file old_name new_name response s =
      let again = (do
        (contents, s1) ← b.send_get index s
        let swap = (do
          new_contents ← with_name is_file old_name new_name (parse_content_file_names contents)
          (response', s2) ← b.send_cput index contents new_contents s1
          rename_again fuel index is_file old_name new_name response' s2)
        if equal contents err_null || equal contents [] then done (none, s1) else swap) in
      if is_err response then again else done (some response, s)
