-- ===== src/Checkpointing.antt =====
-- kvstore/checkpointing.cc: the checkpoint of the table, and the replay of checkpoint and log.
-- The result of the functions that end without a `return` is left out; no caller reads it.
pub mod Entries
pub mod Replay
pub mod Recovery
use google_cloud_final.Base.{
  ℕ, ◌+◌, Bool, true, false, List, [], ◌∷◌, ◌++◌, length, take, if◌then◌else◌,
}
use google_cloud_final.Text.{
  Bytes, codes, npos, add64, sub64, equal, position, find, find_after, last_position, or_npos,
  substr, substr_from,
}
use google_cloud_final.Text.Lines.{lines}
use google_cloud_final.Map.{Map, lookup}
use google_cloud_final.Number.{ℤ, pos, print_long, stol}
use google_cloud_final.RowCol.{row_col}
use google_cloud_final.FileTool.{Disk, file_exist, read_file, write_file, rename}
use google_cloud_final.ServerState.{ServerState}
use google_cloud_final.Outcome.{Outcome, done, abort, Option, none, some, ◌>>=◌, or_throw}
use google_cloud_final.DataServer.{SMap, BMap}
use google_cloud_final.DataServer.Table.{set_cell, erase_cell, has_cell}

-- The line `PUT <row> <col>`.
abbrev pub put_line : Bytes → Bytes → Bytes
put_line row col = codes "PUT <" ++ (row ++ (codes "> <" ++ (col ++ codes ">\n")))

-- "\n.\n"
abbrev pub end_mark : Bytes
end_mark = 10 ∷ 46 ∷ 10 ∷ []

-- The loop over the columns of a row; a null cell is a null dereference.
unfoldable pub write_row : Bytes → SMap → Outcome Bytes
write_row row [] = done []
write_row row ((col, none) ∷ cols) = abort
write_row row ((col, some contents) ∷ cols) = do
  rest ← write_row row cols
  done (put_line row col ++ (contents ++ (end_mark ++ rest)))

-- The loop over the rows.
unfoldable pub write_table : BMap → Outcome Bytes
unfolding write_row
write_table [] = done []
write_table ((row, cols) ∷ rows) = do
  here ← write_row row cols
  rest ← write_table rows
  done (here ++ rest)

abbrev pub version_line : ℕ → Bytes
version_line seq_id = codes "Version number: <" ++ (print_long (pos seq_id) ++ codes ">\n")

-- The checkpoint is written to a file beside, which then takes its place, and the log is emptied.
unfoldable pub write_to_disk : ServerState → BMap → Disk → Outcome (Bool × Disk)
unfolding write_table write_file rename
write_to_disk s table d = do
  let tem_path = s.file_path ++ codes "/tem.txt"
  let contents = do body ← write_table table; done (version_line s.seq_id ++ body)
  if d.writable tem_path
      then (do
        text ← contents
        let (ok, written) = write_file d tem_path text
        let (ok', emptied) = write_file (rename written tem_path s.checkpointing_path) s.log_path []
        done (true, emptied))
      else done (false, d)

-- The loop over the lines of a file: a line with a dot alone ends a command, which is handed over.
unfoldable pub replay_lines :
    (Bytes → BMap → Outcome BMap) → Bytes → List Bytes → BMap → Outcome BMap
replay_lines command so_far [] table = done table
replay_lines command so_far (line ∷ rest) table =
    let text = so_far ++ (line ++ codes "\n") in
    let ended = (do table' ← command text table; replay_lines command [] rest table') in
    let longer = replay_lines command text rest table in
    if equal line (codes ".") then ended else longer

-- The first line, and where it ends.
unfoldable pub reply_checkpoint_command : Bytes → BMap → Outcome BMap
reply_checkpoint_command str table = do
  let line_end = find str (codes "\n")
  line ← or_throw (substr str 0 line_end)
  (row, col) ← or_throw (row_col line)
  contents ← or_throw (substr str (add64 line_end 1) (sub64 (sub64 (find str end_mark) line_end) 1))
  done (set_cell table row col contents)

abbrev pub tail_lines : List Bytes → List Bytes
tail_lines [] = []
tail_lines (line ∷ rest) = rest

unfoldable pub recover_checkpoint : ServerState → Disk → BMap → Outcome BMap
unfolding replay_lines reply_checkpoint_command
recover_checkpoint s d table = elim (lookup s.checkpointing_path d.files) [
  | none ↦ done table
  | some text ↦ replay_lines reply_checkpoint_command [] (tail_lines (lines text)) table
]

-- The deletion erases the column that is named like the row.
unfoldable pub replay_log_command : Bytes → BMap → Outcome BMap
replay_log_command str table = do
  verb ← or_throw (substr str 0 (find str (codes " ")))
  let line_end = find str (codes "\n")
  line ← or_throw (substr str 0 line_end)
  (row, col) ← or_throw (row_col line)
  rest ← or_throw (substr_from str (add64 line_end 1))
  let seq_end = find rest (codes "\n")
  if equal verb (codes "DELETE")
      then done (if has_cell table row col then erase_cell table row row else table)
      else (do
        body ← or_throw (substr_from rest (add64 seq_end 1))
        contents ← or_throw (substr body 0 (find body end_mark))
        done (set_cell table row col contents))

unfoldable pub recover_log : ServerState → Disk → BMap → Outcome BMap
unfolding replay_lines replay_log_command
recover_log s d table = elim (lookup s.log_path d.files) [
  | none ↦ done table
  | some text ↦ replay_lines replay_log_command [] (lines text) table
]

-- The end of the last command line, of which the next line is the sequence number.
unfoldable pub last_command_end : Bytes → Option ℕ
last_command_end contents = elim (last_position (codes ">\n") contents) [
  | none ↦ none
  | some at ↦ elim (last_position (codes ".\n") (take (at + 2) contents)) [
    | none ↦ some (find contents (codes ">\n"))
    | some before ↦ some (find_after contents (codes ">\n") before)
  ]
]

unfoldable pub last_log_seq : ServerState → Disk → Outcome ℤ
unfolding last_command_end
last_log_seq s d = elim (lookup s.log_path d.files) [
  | none ↦ done (pos 0)
  | some contents ↦ elim (last_command_end contents) [
    | none ↦ done (pos 0)
    | some at ↦ (do
      rest ← or_throw (substr_from contents (add64 at 2))
      line ← or_throw (substr rest 0 (find rest (codes "\n")))
      or_throw (stol line))
  ]
]

abbrev pub first_line : List Bytes → Bytes
first_line [] = []
first_line (line ∷ rest) = line

unfoldable pub find_version_num : ServerState → Disk → Outcome ℤ
find_version_num s d = elim (lookup s.checkpointing_path d.files) [
  | none ↦ done (pos 0)
  | some text ↦ (do
    let line = first_line (lines text)
    let start = add64 (find line (codes "<")) 1
    number ← or_throw (substr line start (sub64 (find line (codes ">")) start))
    or_throw (stol number))
]
