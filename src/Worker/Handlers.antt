-- ===== src/Worker/Handlers.antt =====
-- The commands of clients and of the primary: GET, PUT, CPUT, DELETE and LIST.
use google_cloud_final.Base.{
  ℕ, ◌+◌, Bool, true, false, ◌&&◌, [], ◌∷◌, ◌++◌, length, take, drop, ◌==◌, if◌then◌else◌,
}
use google_cloud_final.Text.{Bytes, codes, add64, sub64, equal, find, substr, substr_from}
use google_cloud_final.Map.{lookup, has}
use google_cloud_final.Number.{stol}
use google_cloud_final.ServerState.{update_seq}
use google_cloud_final.BackStore.{push, poll}
use google_cloud_final.Connection.{crlf, dot_line}
use google_cloud_final.Outcome.{Outcome, done, abort, Option, none, some, ◌>>=◌, or_throw}
use google_cloud_final.DataServer.{SMap, BMap, StringStream, set_str, Worker, reply}
use google_cloud_final.DataServer.Table.{row_at, set_cell, erase_cell, has_cell}
use google_cloud_final.Worker.Input.{await_data}
use google_cloud_final.Worker.Log.{put_to_log, put_to_log_seq, delete_to_log, delete_to_log_seq}

-- A pointer that must not be null.
abbrev pub deref {ℓ} : {A : Type ℓ} → Option A → Outcome A
deref none = abort
deref (some a) = done a

unfoldable pub parse_get : Bytes → Bytes → Worker → Outcome Worker
parse_get row col s = elim (lookup row s.table) [
  | none ↦ done (reply s (codes "-ERR NULL row" ++ crlf))
  | some cols ↦ elim (lookup col cols) [
    | none ↦ done (reply s (codes "-ERR NULL colmn" ++ crlf))
    | some cell ↦ (do
      contents ← deref cell
      done (reply (reply (reply s (codes "DATA" ++ crlf)) contents) (b'.' ∷ crlf)))
  ]
]

-- What is left of the buffer behind the data, `w.str(...)`; one byte more than the data and its
-- end is dropped.
abbrev pub rest_after : Bytes → ℕ → Outcome StringStream
rest_after buffer data_end =
    if data_end + 5 == length buffer
    then done (set_str [])
    else (do rest ← or_throw (substr_from buffer (data_end + 6)); done (set_str rest))

-- The data, from behind its first line up to and with the `\r\n` before the dot.
abbrev pub data_from : Bytes → ℕ → ℕ → Outcome Bytes
data_from buffer start data_end = or_throw (substr buffer start (add64 (sub64 data_end start) 2))

-- The data of a PUT, logged: with the sequence number that the primary gave it.
unfoldable pub receive_put :
    Bool → Bytes → Bytes → Bytes → ℕ → Worker → Outcome (Bytes × ℕ × Worker)
unfolding update_seq
receive_put true row col buffer data_end s = do
  contents ← data_from buffer (add64 (find buffer (codes "DATA" ++ crlf)) 6) data_end
  let (seq, logged) = put_to_log s contents row col
  done (contents, seq, logged)
receive_put false row col buffer data_end s = do
  let start = add64 (find buffer crlf) 2
  contents ← data_from buffer start data_end
  line ← or_throw (substr buffer 0 (sub64 start 2))
  seq ← or_throw (stol line)
  let updated = record s { server = update_seq s.server seq }
  done (contents, 0, put_to_log_seq updated seq contents row col)

-- The write to the table: `table.count(row) == 0 || table.count(col) == 0` asks for a row of the
-- column's name.  Where there is one, the cell is written through its pointer, which is null if
-- the cell is new.
unfoldable pub store_put : BMap → Bytes → Bytes → Bytes → Outcome BMap
unfolding has set_cell
store_put table row col contents =
    let overwrite = (do
      cell ← deref (lookup col (row_at table row))
      old ← deref cell
      done (set_cell table row col contents)) in
    if has row table && has col table then overwrite else done (set_cell table row col contents)

-- The primary passes a change on.
unfoldable pub push_if_primary : Worker → Bytes → Bytes → Bytes → ℕ → Outcome Worker
push_if_primary s row col contents seq =
    if s.server.primary
    then (do
      b ← deref s.back_store
      b' ← push b row col contents seq
      done (record s { back_store = some b' }))
    else done s

unfoldable pub parse_put : Bytes → Bytes → Worker → Outcome Worker
unfolding receive_put store_put push_if_primary
parse_put row col s = do
  (buffer, data_end, task) ← await_data dot_line s.w.text s.task
  (contents, seq, logged) ←
      receive_put s.server.primary row col buffer data_end (record s { task = task })
  table ← store_put logged.table row col contents
  pushed ← push_if_primary (record logged { table = table }) row col contents seq
  rest ← rest_after buffer data_end
  done (record (reply pushed (codes "+OK" ++ crlf)) { w = rest })

-- The two data parts of a CPUT.
unfoldable pub receive_cput : Worker → Outcome (Bytes × Bytes × Worker)
receive_cput s = do
  (buffer, data_end, task) ← await_data dot_line s.w.text s.task
  old ← data_from buffer (add64 (find buffer (codes "OLD" ++ crlf)) 5) data_end
  behind ← or_throw (substr_from buffer (data_end + 3))
  (buffer', data_end', task') ← await_data dot_line behind task
  new ← data_from buffer' (add64 (find buffer' (codes "NEW" ++ crlf)) 5) data_end'
  rest ← rest_after buffer' data_end'
  done (old, new, record s { task = task'; w = rest })

-- The write of a CPUT that is allowed.
unfoldable pub accept_cput : Bytes → Bytes → Bytes → Worker → Outcome Worker
unfolding set_cell push_if_primary
accept_cput row col new s = do
  let (seq, logged) = put_to_log s new row col
  let written = record logged { table = set_cell logged.table row col new }
  pushed ← push_if_primary written row col new seq
  done (reply pushed (codes "+OK" ++ crlf))

-- A cell that is not there is taken to hold "NULL\r\n".
unfoldable pub decide_cput : Bytes → Bytes → Bytes → Bytes → Worker → Outcome Worker
unfolding accept_cput
decide_cput row col old new s =
    let accepted = accept_cput row col new s in
    let refused = done (reply s (codes "-ERR" ++ crlf)) in
    elim (lookup col (row_at s.table row)) [
      | none ↦ if equal old (codes "NULL" ++ crlf) then accepted else refused
      | some cell ↦ (do contents ← deref cell; if equal contents old then accepted else refused)
    ]

unfoldable pub parse_cput : Bytes → Bytes → Worker → Outcome Worker
unfolding receive_cput decide_cput
parse_cput row col s = do
  (old, new, received) ← receive_cput s
  decide_cput row col old new received

-- A deletion is logged first; a replica reads the sequence number from the line behind.
unfoldable pub receive_delete : Bool → Bytes → Bytes → Worker → Outcome (ℕ × Worker)
receive_delete true row col s = done (delete_to_log s row col)
receive_delete false row col s = do
  (buffer, data_end, task) ← await_data crlf s.w.text s.task
  seq ← or_throw (stol (take data_end buffer))
  let received = record s { task = task; w = set_str (drop (data_end + 2) buffer) }
  done (0, delete_to_log_seq received seq row col)

unfoldable pub poll_if_primary : Worker → Bytes → Bytes → ℕ → Outcome Worker
poll_if_primary s row col seq =
    if s.server.primary
    then (do
      b ← deref s.back_store
      b' ← poll b row col seq
      done (record s { back_store = some b' }))
    else done s

unfoldable pub parse_dele : Bytes → Bytes → Worker → Outcome Worker
unfolding receive_delete poll_if_primary erase_cell has
parse_dele row col s = do
  (seq, logged) ← receive_delete s.server.primary row col s
  if has row logged.table
      then (if has_cell logged.table row col
          then (do
            polled ←
                poll_if_primary (record logged { table = erase_cell logged.table row col }) row col
                  seq
            done (reply polled (codes "+OK deleted" ++ crlf)))
          else done (reply logged (codes "-ERR NULL colmn" ++ crlf)))
      else done (reply logged (codes "-ERR NULL row" ++ crlf))

-- The loop over the columns of a row.
unfoldable pub list_row : Bytes → SMap → Worker → Outcome Worker
list_row row [] s = done s
list_row row ((col, cell) ∷ cols) s = do
  contents ← deref cell
  let line = b'<' ∷ (row ++ (codes "> <" ++ (col ++ (codes "> " ++ (contents ++ codes "\n")))))
  list_row row cols (reply s line)

unfoldable pub list_rows : BMap → Worker → Outcome Worker
unfolding list_row
list_rows [] s = done s
list_rows ((row, cols) ∷ rows) s = do s' ← list_row row cols s; list_rows rows s'

unfoldable pub parse_list : Worker → Outcome Worker
unfolding list_rows
parse_list s = do s' ← list_rows s.table s; done (reply s' (b'.' ∷ crlf))
