-- ===== src/Worker/Log.antt =====
-- `putToLog` and `deleteToLog`: on the primary with a new sequence number, on a replica with the
-- one that it was sent.
pub mod Laws
use google_cloud_final.Base.{ℕ, ◌++◌}
use google_cloud_final.Text.{Bytes, codes}
use google_cloud_final.Number.{ℤ, pos, print_long}
use google_cloud_final.FileTool.{Disk, append_to_file}
use google_cloud_final.ServerState.{increase_seq}
use google_cloud_final.Checkpointing.{put_line, end_mark}
use google_cloud_final.DataServer.{Worker}

abbrev pub seq_line : ℤ → Bytes
seq_line seq = print_long seq ++ codes "\n"

abbrev pub delete_line : Bytes → Bytes → Bytes
delete_line row col = codes "DELETE <" ++ (row ++ (codes "> <" ++ (col ++ codes ">\n")))

-- Appended one after the other; what `append_to_file` answers is not looked at.
abbrev append : Disk → Bytes → Bytes → Disk
append d path text = (append_to_file d path text).1

unfoldable pub put_to_log_seq : Worker → ℤ → Bytes → Bytes → Bytes → Worker
put_to_log_seq s seq contents row col =
    let path = s.server.log_path in
    let d1 = append s.disk path (put_line row col ++ seq_line seq) in
    let d2 = append d1 path contents in record s { disk = append d2 path (codes ".\n") }

unfoldable pub put_to_log : Worker → Bytes → Bytes → Bytes → ℕ × Worker
unfolding increase_seq
put_to_log s contents row col =
    let (seq, server) = increase_seq s.server in
    let path = s.server.log_path in
    let d1 = append s.disk path (put_line row col ++ seq_line (pos seq)) in
    let d2 = append d1 path contents in
    (seq, record s { server = server; disk = append d2 path end_mark })

unfoldable pub delete_to_log_seq : Worker → ℤ → Bytes → Bytes → Worker
delete_to_log_seq s seq row col =
    let path = s.server.log_path in
    let d1 = append s.disk path (delete_line row col ++ seq_line seq) in
    record s { disk = append d1 path (codes ".\n") }

unfoldable pub delete_to_log : Worker → Bytes → Bytes → ℕ × Worker
unfolding increase_seq
delete_to_log s row col =
    let (seq, server) = increase_seq s.server in
    let path = s.server.log_path in
    let d1 = append s.disk path (delete_line row col ++ seq_line (pos seq)) in
    (seq, record s { server = server; disk = append d1 path (codes ".\n") })
