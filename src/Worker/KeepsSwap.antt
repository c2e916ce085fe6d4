-- ===== src/Worker/KeepsSwap.antt =====
-- CPUT, DELETE and LIST keep the invariant.
use google_cloud_final.Base.{
  take, ℕ, ◌+◌, ◌≡◌, refl, Bool, true, false, [], ◌∷◌, ◌++◌, arith, if◌then◌else◌,
}
use google_cloud_final.Text.{Bytes, codes, equal, add64, find, substr_from}
use google_cloud_final.Connection.{crlf, dot_line}
use google_cloud_final.Worker.Input.{await_data}
use google_cloud_final.Map.{lookup, has}
use google_cloud_final.Number.{stol}
use google_cloud_final.Outcome.{
  Outcome, done, none, some, ◌>>=◌, or_throw, Ensures, Ensures-bind, Ensures-then, Ensures-if,
}
use google_cloud_final.DataServer.{SMap, BMap, Worker, reply}
use google_cloud_final.DataServer.Table.{row_at, set_cell, erase_cell, has_cell}
use google_cloud_final.Worker.Log.{put_to_log, delete_to_log, delete_to_log_seq}
use google_cloud_final.Worker.Handlers.{
  deref, rest_after, data_from, receive_cput, accept_cput, decide_cput, parse_cput, receive_delete,
  poll_if_primary, parse_dele, list_row, list_rows, parse_list,
}
use google_cloud_final.Worker.Invariant.{Inv, Kept}
use google_cloud_final.Worker.Keeps.{
  Ensures-trans, set_cell-Good, erase_cell-Good, finish_put-Kept, poll_if_primary_total,
}

pub receive_cput-Kept :
    (s : Worker)
    → Inv s
    → Ensures
        (λ r. (Kept s r.2) × (r.2.server ≡ s.server) × (r.2.table ≡ s.table) × (r.2.disk ≡ s.disk))
        (receive_cput s)
unfolding receive_cput
receive_cput-Kept s inv =
    Ensures-then _ (await_data dot_line s.w.text s.task) _ λ (buffer, data_end, task).
      Ensures-then _ (data_from buffer (add64 (find buffer (codes "OLD" ++ crlf)) 5) data_end) _
        λ old. Ensures-then _ (or_throw (substr_from buffer (data_end + 3))) _ λ behind.
          Ensures-then _ (await_data dot_line behind task) _ λ (buffer', data_end', task').
            Ensures-then _
              (data_from buffer' (add64 (find buffer' (codes "NEW" ++ crlf)) 5) data_end') _
              λ new.
                Ensures-then _ (rest_after buffer' data_end') _
                  (λ rest. ((inv, omega arith), refl, refl, refl))

accept_cput-Kept :
    (row col new : Bytes) (s : Worker) → Inv s → Ensures (Kept s) (accept_cput row col new s)
unfolding accept_cput put_to_log reply
accept_cput-Kept row col new s inv =
    finish_put-Kept s (record (put_to_log s new row col).1 { table = set_cell s.table row col new })
      row col new (s.server.seq_id + 1) _ (set_cell-Good row col new inv, omega arith) (λ u h. h)

pub decide_cput-Kept :
    (row col old new : Bytes) (s : Worker)
    → Inv s
    → Ensures (Kept s) (decide_cput row col old new s)
unfolding decide_cput reply
decide_cput-Kept row col old new s inv =
    let accepted = accept_cput-Kept row col new s inv in
    elim (lookup col (row_at s.table row))
      as (λ found. Ensures (Kept s) (elim found as (λ _. Outcome Worker) [
        | none ↦
            if equal old (codes "NULL" ++ crlf)
            then accept_cput row col new s
            else done (reply s (codes "-ERR" ++ crlf))
        | some cell ↦ deref cell >>= λ contents.
            if equal contents old
            then accept_cput row col new s
            else done (reply s (codes "-ERR" ++ crlf))
      ])) [
        | none ↦ Ensures-if _ (equal old (codes "NULL" ++ crlf)) _ _ accepted (inv, omega arith)
        | some cell ↦
            Ensures-then _ (deref cell) _
              (λ contents. Ensures-if _ (equal contents old) _ _ accepted (inv, omega arith))
      ]

pub parse_cput-Kept :
    (row col : Bytes) (s : Worker) → Inv s → Ensures (Kept s) (parse_cput row col s)
unfolding parse_cput
parse_cput-Kept row col s inv =
    Ensures-bind _ (Kept s) _ _ (receive_cput-Kept s inv)
      λ (old, new, t) k. Ensures-trans s t _ k.0 (decide_cput-Kept row col old new t k.0.0)

receive_delete-Kept :
    (primary : Bool) (row col : Bytes) (s : Worker)
    → Inv s
    → Ensures (λ r. Kept s r.1) (receive_delete primary row col s)
unfolding receive_delete delete_to_log delete_to_log_seq
receive_delete-Kept true row col s inv = (inv, omega arith)
receive_delete-Kept false row col s inv =
    Ensures-then _ (await_data crlf s.w.text s.task) _ λ (buffer, data_end, task).
      Ensures-then _ (or_throw (stol (take data_end buffer))) _ (λ seq. (inv, omega arith))

pub parse_dele-Kept :
    (row col : Bytes) (s : Worker) → Inv s → Ensures (Kept s) (parse_dele row col s)
unfolding parse_dele reply
parse_dele-Kept row col s inv =
    Ensures-bind (λ r. Kept s r.1) (Kept s) _ _ (receive_delete-Kept s.server.primary row col s inv)
      λ (seq, t) k.
        Ensures-if _ (has row t.table) _ _
          (Ensures-if _ (has_cell t.table row col) _ _ (erased seq t k) k) k
  where
    erased :
        (seq : ℕ) (t : Worker)
        → Kept s t
        → Ensures (Kept s) (
            poll_if_primary (record t { table = erase_cell t.table row col }) row col seq
            >>= λ polled. done (reply polled (codes "+OK deleted" ++ crlf)))
    erased seq t k =
        let (store, e, g) =
          poll_if_primary_total (record t { table = erase_cell t.table row col }) row col seq
            (erase_cell-Good row col k.0) in
        rw e (g, k.1)

list_row-Kept :
    (row : Bytes) (cols : SMap) (s t : Worker) → Kept s t → Ensures (Kept s) (list_row row cols t)
unfolding list_row reply
list_row-Kept row [] s t k = k
list_row-Kept row ((col, cell) ∷ cols) s t k =
    Ensures-then _ (deref cell) _ (λ contents. list_row-Kept row cols s _ k)

list_rows-Kept : (rows : BMap) (s t : Worker) → Kept s t → Ensures (Kept s) (list_rows rows t)
unfolding list_rows
list_rows-Kept [] s t k = k
list_rows-Kept ((row, cols) ∷ rows) s t k =
    Ensures-bind (Kept s) (Kept s) _ _ (list_row-Kept row cols s t k)
      (λ u h. list_rows-Kept rows s u h)

pub parse_list-Kept : (s : Worker) → Inv s → Ensures (Kept s) (parse_list s)
unfolding parse_list reply
parse_list-Kept s inv =
    Ensures-bind (Kept s) (Kept s) _ _ (list_rows-Kept s.table s s (inv, omega arith)) (λ t k. k)
