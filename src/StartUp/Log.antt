-- ===== src/StartUp/Log.antt =====
-- What a primary sends of a file, and what the server that starts again receives.
use google_cloud_final.Base.{
  ℕ, suc, ◌<◌, ◌≡◌, refl, sym, ap, ◌∙◌, false, List, [], ◌∷◌, ◌++◌, length, leb, arith,
  append_assoc,
}
use google_cloud_final.Text.{Bytes, codes, find, substr}
use google_cloud_final.Map.{lookup}
use google_cloud_final.Text.Search.{Avoids, substr_middle}
use google_cloud_final.Connection.{Connection, ReadEvent, got, crlf}
use google_cloud_final.Connection.Reads.{c_str-Avoids, has_str-end, do_read-line}
use google_cloud_final.FileTool.{read_file}
use google_cloud_final.DataServer.{Worker, reply}
use google_cloud_final.DataServer.Replies.{reply-free}
use google_cloud_final.Worker.Recovery.{parse_log}
use google_cloud_final.StartUp.{read_line, receive_lines, receive, receive_log}
use google_cloud_final.Outcome.{done, some}

read_line-text :
    (c : Connection) (line : Bytes) (events : List ReadEvent)
    → c.incoming ≡ got (line ++ crlf) ∷ events
    → Avoids 0 (line ++ crlf)
    → length (line ++ crlf) < 1000
    → read_line c ≡ done (line ++ crlf, record c { incoming = events })
unfolding read_line
read_line-text c line events e z f =
    let short : leb 1000 (length (line ++ crlf)) ≡ false = ground (arith, f) in
    rw (e, do_read-line 1000 line events z f, c_str-Avoids (line ++ crlf) z, short) refl

pub receive_lem :
    (fuel : ℕ) (mark contents : Bytes) (events : List ReadEvent) (c : Connection)
    → c.incoming ≡ got (contents ++ (mark ++ crlf)) ∷ events
    → Avoids 0 (contents ++ (mark ++ crlf))
    → length (contents ++ (mark ++ crlf)) < 1000
    → find (contents ++ (mark ++ crlf)) mark ≡ length contents
    → receive (suc fuel) mark c ≡ done (contents, record c { incoming = events })
unfolding receive receive_lines
receive_lem fuel mark contents events c e z f at =
    let text = contents ++ (mark ++ crlf) in
    let regroup : (contents ++ mark) ++ crlf ≡ text = append_assoc contents mark crlf in
    let line : read_line c ≡ done (text, record c { incoming = events }) =
      read_line-text c (contents ++ mark) events (e ∙ ap (λ t. got t ∷ events) (sym regroup))
        (rw regroup z) (rw regroup f)
      ∙ ap (λ t. done (t, record c { incoming = events })) regroup in
    let cut : substr text 0 (length contents) ≡ some contents =
      substr_middle [] contents (mark ++ crlf) in
    rw (line, has_str-end contents (mark ++ crlf) z, at, cut) refl

-- What a primary answers to LOG.
abbrev pub log_answer : Bytes → Bytes
log_answer contents = contents ++ (codes "LOG END" ++ crlf)

read_file-there :
    (s : Worker) (contents : Bytes)
    → lookup s.server.log_path s.disk.files ≡ some contents
    → (read_file s.disk s.server.log_path []).1 ≡ contents
unfolding read_file
read_file-there s contents h = ground (arith, h)

-- A primary whose kernel takes everything answers a LOG with its log and the end mark.  A server
-- that starts again and gets that answer in one piece receives the log as it is, if the answer is
-- shorter than the buffer, has no zero byte, and the end mark does not stand in the log.
pub transfer_lem :
    (s : Worker) (fuel : ℕ) (contents : Bytes) (events : List ReadEvent) (c : Connection)
    → s.task.outgoing ≡ []
    → lookup s.server.log_path s.disk.files ≡ some contents
    → c.incoming ≡ got (log_answer contents) ∷ events
    → Avoids 0 (log_answer contents)
    → length (log_answer contents) < 1000
    → find (log_answer contents) (codes "LOG END") ≡ length contents
    → (s' : Worker) × (parse_log s ≡ done s')
      × (s'.task.sent ≡ s.task.sent ++ log_answer contents)
      × (receive_log (suc fuel) c ≡ done (contents, record c { incoming = events }))
unfolding parse_log
transfer_lem s fuel contents events c free file e z f at =
    let text = (read_file s.disk s.server.log_path []).1 in
    let is_file : text ≡ contents = read_file-there s contents file in
    let (sent1, free1) = reply-free s text free in
    let (sent2, free2) = reply-free (reply s text) (codes "LOG END" ++ crlf) free1 in
    (
      reply (reply s text) (codes "LOG END" ++ crlf),
      refl,
      sent2
          ∙ ap (λ t. t ++ (codes "LOG END" ++ crlf)) sent1
          ∙ append_assoc s.task.sent text (codes "LOG END" ++ crlf)
          ∙ ap (λ t. s.task.sent ++ (t ++ (codes "LOG END" ++ crlf))) is_file,
      receive_lem fuel (codes "LOG END") contents events c e z f at,
    )
