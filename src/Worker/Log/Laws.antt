-- ===== src/Worker/Log/Laws.antt =====
-- What stands in the log after `putToLog` and `deleteToLog`.
use google_cloud_final.Base.{ℕ, ◌+◌, sym, ◌++◌, append_assoc}
use google_cloud_final.Text.{Bytes, codes}
use google_cloud_final.Number.{pos, print_long}
use google_cloud_final.FileTool.{append_to_file}
use google_cloud_final.FileTool.Laws.{Appended, append_to_file-Appended, Appended-trans}
use google_cloud_final.Checkpointing.{put_line, end_mark}
use google_cloud_final.DataServer.{Worker}
use google_cloud_final.Worker.Log.{seq_line, delete_line, put_to_log, delete_to_log}

-- The entries of the log, written out.
abbrev pub put_entry : ℕ → Bytes → Bytes → Bytes → Bytes
put_entry seq contents row col =
    (codes "PUT <" ++ (row ++ (codes "> <" ++ (col ++ codes ">\n"))))
    ++ ((print_long (pos seq) ++ codes "\n") ++ (contents ++ codes "\n.\n"))

abbrev pub delete_entry : ℕ → Bytes → Bytes → Bytes
delete_entry seq row col =
    (codes "DELETE <" ++ (row ++ (codes "> <" ++ (col ++ codes ">\n"))))
    ++ ((print_long (pos seq) ++ codes "\n") ++ codes ".\n")

pub put_to_log-Appended :
    (s : Worker) (contents row col : Bytes)
    → Appended s.server.log_path
        (put_entry (s.server.seq_id + 1) contents row col)
        s.disk
        (put_to_log s contents row col).1.disk
unfolding put_to_log
put_to_log-Appended s contents row col =
    let path = s.server.log_path in
    let line = put_line row col in
    let number = seq_line (pos (s.server.seq_id + 1)) in
    let d1 = (append_to_file s.disk path (line ++ number)).1 in
    let d2 = (append_to_file d1 path contents).1 in
    let d3 = (append_to_file d2 path end_mark).1 in
    let body =
      Appended-trans path contents end_mark d1 d2 d3 (append_to_file-Appended d1 path contents)
        (append_to_file-Appended d2 path end_mark) in
    rw (sym (append_assoc line number (contents ++ end_mark))) (
      Appended-trans path (line ++ number) (contents ++ end_mark) s.disk d1 d3
        (append_to_file-Appended s.disk path (line ++ number)) body)

pub delete_to_log-Appended :
    (s : Worker) (row col : Bytes)
    → Appended s.server.log_path
        (delete_entry (s.server.seq_id + 1) row col)
        s.disk
        (delete_to_log s row col).1.disk
unfolding delete_to_log
delete_to_log-Appended s row col =
    let path = s.server.log_path in
    let line = delete_line row col in
    let number = seq_line (pos (s.server.seq_id + 1)) in
    let d1 = (append_to_file s.disk path (line ++ number)).1 in
    rw (sym (append_assoc line number (codes ".\n"))) (
      Appended-trans path (line ++ number) (codes ".\n") s.disk d1
        (append_to_file d1 path (codes ".\n")).1
        (append_to_file-Appended s.disk path (line ++ number))
        (append_to_file-Appended d1 path (codes ".\n")))
