-- ===== src/Worker/Effects.antt =====
-- What a PUT, a CPUT and a DELETE do to the table, the sequence number and the stream.
use google_cloud_final.Base.{
  ◌+◌, ◌≡◌, refl, sym, ap, ◌∙◌, Bool, not, ◌&&◌, ◌++◌, arith, if◌then◌else◌, Bool-cases,
  Option-cases, inl, inr,
}
use google_cloud_final.Text.{Bytes, codes, equal, equal_sym}
use google_cloud_final.Map.{lookup, has}
use google_cloud_final.FileTool.Laws.{Appended}
use google_cloud_final.Connection.{crlf, do_write}
use google_cloud_final.Outcome.{Outcome, done, abort, none, some}
use google_cloud_final.DataServer.{BMap, Worker, reply}
use google_cloud_final.DataServer.Table.{row_at, set_cell, has_cell, cell_at}
use google_cloud_final.DataServer.Table.Laws.{cell_at-set_cell}
use google_cloud_final.Worker.Log.{put_to_log}
use google_cloud_final.Worker.Log.Laws.{put_entry, put_to_log-Appended}
use google_cloud_final.Worker.Handlers.{store_put, accept_cput, decide_cput}
use google_cloud_final.Worker.Invariant.{Inv, NoNull, row_at-RowSet, lookup-RowSet}
use google_cloud_final.Worker.Keeps.{push_if_primary_total, set_cell-Good}

-- In a table with no null pointer, the write of a PUT succeeds but in one case: the row is there,
-- a row of the column's name is there too, and the cell is not.  Then a null pointer is followed.
pub store_put_lem :
    (table : BMap) (row col contents : Bytes)
    → NoNull table
    → store_put table row col contents ≡ (
        if has row table && (has col table && not (has_cell table row col))
        then abort
        else done (set_cell table row col contents))
unfolding store_put has_cell
store_put_lem table row col contents h = elim (Option-cases (lookup col (row_at table row))) [
  | inl e ↦ ground (arith, e)
  | inr (cell, e) ↦
      let (x, ex) = lookup-RowSet col (row_at table row) cell (row_at-RowSet table row h) e in
      ground (arith, e, ex)
]

-- What a CPUT compares with: the cell, or "NULL\r\n" where there is none.
abbrev pub current : BMap → Bytes → Bytes → Bytes
current table row col = elim (cell_at table row col) [
  | none ↦ codes "NULL" ++ crlf
  | some contents ↦ contents
]

accept_cput_lem :
    (row col new : Bytes) (s : Worker)
    → Inv s
    → (s' : Worker) × (accept_cput row col new s ≡ done s')
      × (s'.table ≡ set_cell s.table row col new)
      × (s'.server.seq_id ≡ s.server.seq_id + 1)
      × Appended s.server.log_path (put_entry (s.server.seq_id + 1) new row col) s.disk s'.disk
      × (s'.task ≡ (do_write s.task (codes "+OK" ++ crlf)).1)
unfolding accept_cput put_to_log reply
accept_cput_lem row col new s inv =
    let written = record (put_to_log s new row col).1 { table = set_cell s.table row col new } in
    let (store, e, g) =
      push_if_primary_total written row col new (s.server.seq_id + 1)
        (set_cell-Good row col new inv) in
    (
      reply (record written { back_store = store }) (codes "+OK" ++ crlf),
      rw e refl,
      refl,
      refl,
      put_to_log-Appended s new row col,
      refl,
    )

-- What a CPUT does to the worker's state, as a compare and swap.
pub record Swapped (row col old new : Bytes) (s s' : Worker) : Type 0 where
  pub cells :
      (r c : Bytes)
      → cell_at s'.table r c ≡ (
          if equal (current s.table row col) old && (equal row r && equal col c)
          then some new
          else cell_at s.table r c)
  pub seq :
      s'.server.seq_id
      ≡ (if equal (current s.table row col) old then s.server.seq_id + 1 else s.server.seq_id)
  pub logged :
      if equal (current s.table row col) old
      then Appended s.server.log_path (put_entry (s.server.seq_id + 1) new row col) s.disk s'.disk
      else s'.disk ≡ s.disk
  pub answered :
      s'.task
      ≡ (do_write s.task (
          if equal (current s.table row col) old
          then codes "+OK" ++ crlf
          else codes "-ERR" ++ crlf)).1

current-missing :
    (table : BMap) (row col : Bytes)
    → lookup col (row_at table row) ≡ none
    → current table row col ≡ codes "NULL" ++ crlf
unfolding cell_at
current-missing table row col e = ground arith

current-present :
    (table : BMap) (row col contents : Bytes)
    → lookup col (row_at table row) ≡ some (some contents)
    → current table row col ≡ contents
unfolding cell_at
current-present table row col contents e = ground arith

-- The new state of a CPUT, by the answer of the comparison.
swap_or_refuse : Bytes → Bytes → Bytes → Worker → Bool → Outcome Worker
swap_or_refuse row col new s same =
    if same then accept_cput row col new s else done (reply s (codes "-ERR" ++ crlf))

decide_cput-branch :
    (row col old new : Bytes) (s : Worker)
    → Inv s
    → decide_cput row col old new s ≡ (
        if equal (current s.table row col) old
        then accept_cput row col new s
        else done (reply s (codes "-ERR" ++ crlf)))
unfolding decide_cput swap_or_refuse
decide_cput-branch row col old new s inv =
    let choose = swap_or_refuse row col new s in
    elim (Option-cases (lookup col (row_at s.table row))) [
      | inl e ↦
          rw (e, decide_cput) refl
          ∙ ap choose (equal_sym old (codes "NULL" ++ crlf))
          ∙ ap (λ c. choose (equal c old)) (sym (current-missing s.table row col e))
      | inr (cell, e) ↦
          let (x, ex) =
            lookup-RowSet col (row_at s.table row) cell (row_at-RowSet s.table row inv.no_null) e in
          rw (e, ex, decide_cput) refl
          ∙ ap (λ c. choose (equal c old))
              (sym (current-present s.table row col x (e ∙ ap some ex)))
    ]

-- In a state with the table in order, no null pointer in it, and the replicas that a primary
-- needs, a CPUT whose data has come always answers, and it is a compare and swap.  If the cell
-- equals the old data ("NULL\r\n" standing for no cell), it alone gets the new data, the sequence
-- number goes up by one, and the answer is "+OK"; the log, if it can be written, gets behind what
-- it holds a PUT with row, column, the new number, the data and the end mark, and no other file
-- changes.  If not, no cell, no number and no file changes, and the answer is "-ERR".
pub decide_cput_lem :
    (row col old new : Bytes) (s : Worker)
    → Inv s
    → (s' : Worker) × (decide_cput row col old new s ≡ done s') × Swapped row col old new s s'
decide_cput_lem row col old new s inv = elim (Bool-cases (equal (current s.table row col) old)) [
  | inl same ↦
      let (t, e, table, seq, logged, task) = accept_cput_lem row col new s inv in
      (
        t,
        decide_cput-branch row col old new s inv ∙ rw same e,
        record {
          cells = λ r c. rw (same, table) (cell_at-set_cell s.table row col new r c);
          seq = rw same seq;
          logged = rw same logged;
          answered = rw same task;
        },
      )
  | inr other ↦
      unfold reply in
      (
        reply s (codes "-ERR" ++ crlf),
        decide_cput-branch row col old new s inv ∙ rw other refl,
        record {
          cells = λ r c. rw other refl;
          seq = rw other refl;
          logged = rw other refl;
          answered = rw other refl;
        },
      )
]
