-- ===== src/Worker/Deletion.antt =====
-- What a DELETE does on the primary.
use google_cloud_final.Base.{
  ℕ, ◌+◌, ◌≡◌, refl, sym, ap, ◌∙◌, true, false, ◌&&◌, ◌++◌, arith, if◌then◌else◌, Bool-cases,
  Option-cases, inl, inr,
}
use google_cloud_final.Text.{Bytes, codes, equal, equal_iff}
use google_cloud_final.Map.{lookup, has}
use google_cloud_final.FileTool.Laws.{Appended}
use google_cloud_final.Connection.{crlf, do_write}
use google_cloud_final.Outcome.{Outcome, done, none, ◌>>=◌}
use google_cloud_final.DataServer.{BMap, Worker, reply}
use google_cloud_final.DataServer.Table.{row_at, erase_cell, has_cell, cell_at}
use google_cloud_final.DataServer.Table.Laws.{cell_at-erase_cell}
use google_cloud_final.Worker.Log.{delete_to_log}
use google_cloud_final.Worker.Log.Laws.{delete_entry, delete_to_log-Appended}
use google_cloud_final.Worker.Handlers.{receive_delete, poll_if_primary, parse_dele}
use google_cloud_final.Worker.Invariant.{Inv}
use google_cloud_final.Worker.Keeps.{poll_if_primary_total, erase_cell-Good}

-- The answer of a DELETE.
abbrev pub delete_answer : BMap → Bytes → Bytes → Bytes
delete_answer table row col =
    if has row table
    then (if has_cell table row col
        then codes "+OK deleted" ++ crlf
        else codes "-ERR NULL colmn" ++ crlf)
    else codes "-ERR NULL row" ++ crlf

pub record Deleted (row col : Bytes) (s s' : Worker) : Type 0 where
  pub cells :
      (r c : Bytes)
      → cell_at s'.table r c ≡ (if equal row r && equal col c then none else cell_at s.table r c)
  pub seq : s'.server.seq_id ≡ s.server.seq_id + 1
  pub logged :
      Appended s.server.log_path (delete_entry (s.server.seq_id + 1) row col) s.disk s'.disk
  pub answered : s'.task ≡ (do_write s.task (delete_answer s.table row col)).1

cell_at-absent :
    (table : BMap) (row col : Bytes) → has_cell table row col ≡ false → cell_at table row col ≡ none
unfolding cell_at has_cell has
cell_at-absent table row col h = elim (Option-cases (lookup col (row_at table row))) [
  | inl e ↦ ground (arith, e)
  | inr (cell, e) ↦ ground (arith, e, h)
]

has_cell-no_row :
    (table : BMap) (row col : Bytes) → has row table ≡ false → has_cell table row col ≡ false
unfolding has_cell has lookup
has_cell-no_row table row col h = elim (Option-cases (lookup row table)) [
  | inl e ↦ ground (arith, e)
  | inr (cols, e) ↦ ground (arith, e, h)
]

-- Where there is no cell, there is nothing to delete.
unchanged :
    (table : BMap) (row col r c : Bytes)
    → has_cell table row col ≡ false
    → cell_at table r c ≡ (if equal row r && equal col c then none else cell_at table r c)
unchanged table row col r c h =
    ground (arith, equal_iff row r, equal_iff col c, cell_at-absent table row col h)

logged_only :
    (row col text : Bytes) (s : Worker)
    → has_cell s.table row col ≡ false
    → delete_answer s.table row col ≡ text
    → Deleted row col s (reply (delete_to_log s row col).1 text)
unfolding reply delete_to_log
logged_only row col text s h e = record {
  cells = λ r c. unchanged s.table row col r c h;
  seq = refl;
  logged = delete_to_log-Appended s row col;
  answered = ap (λ t. (do_write s.task t).1) (sym e);
}

-- A DELETE behind its log entry.
abbrev finish : Bytes → Bytes → ℕ × Worker → Outcome Worker
finish row col (seq, logged) =
    if has row logged.table
    then (if has_cell logged.table row col
        then (do
          polled ←
              poll_if_primary (record logged { table = erase_cell logged.table row col }) row col
                seq
          done (reply polled (codes "+OK deleted" ++ crlf)))
        else done (reply logged (codes "-ERR NULL colmn" ++ crlf)))
    else done (reply logged (codes "-ERR NULL row" ++ crlf))

parse_dele-finish :
    (row col : Bytes) (s : Worker)
    → s.server.primary ≡ true
    → parse_dele row col s ≡ finish row col (delete_to_log s row col)
unfolding parse_dele receive_delete
parse_dele-finish row col s on = ap (λ b. receive_delete b row col s >>= finish row col) on

-- On a primary with the table in order, no null pointer in it, and its replicas, a DELETE always
-- answers: with "+OK deleted" if the cell is there, and else with which of row and column is
-- missing.  After it the cell is not there and every other cell is as before; the sequence number
-- has gone up by one, whatever the answer; the log, if it can be written, has behind what it held
-- a DELETE with row, column and the new number and a line with a dot, and no other file changes.
pub parse_dele_lem :
    (row col : Bytes) (s : Worker)
    → Inv s
    → s.server.primary ≡ true
    → (s' : Worker) × (parse_dele row col s ≡ done s') × Deleted row col s s'
unfolding delete_to_log reply
parse_dele_lem row col s inv on = elim (Bool-cases (has row s.table)) [
  | inr no_row ↦
      let none_there = has_cell-no_row s.table row col no_row in
      let text = codes "-ERR NULL row" ++ crlf in
      (
        reply (delete_to_log s row col).1 text,
        parse_dele-finish row col s on ∙ rw no_row refl,
        logged_only row col text s none_there (rw no_row refl),
      )
  | inl is_row ↦ elim (Bool-cases (has_cell s.table row col)) [
    | inr no_cell ↦
        let text = codes "-ERR NULL colmn" ++ crlf in
        (
          reply (delete_to_log s row col).1 text,
          parse_dele-finish row col s on ∙ rw (is_row, no_cell) refl,
          logged_only row col text s no_cell (rw (is_row, no_cell) refl),
        )
    | inl is_cell ↦
        let erased = record (delete_to_log s row col).1 { table = erase_cell s.table row col } in
        let (store, e, g) =
          poll_if_primary_total erased row col (s.server.seq_id + 1)
            (erase_cell-Good row col inv) in
        (
          reply (record erased { back_store = store }) (codes "+OK deleted" ++ crlf),
          parse_dele-finish row col s on ∙ rw (is_row, is_cell, e) refl,
          record {
            cells = λ r c. cell_at-erase_cell s.table row col r c;
            seq = refl;
            logged = delete_to_log-Appended s row col;
            answered = rw (is_row, is_cell) refl;
          },
        )
  ]
]
