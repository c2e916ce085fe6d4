-- ===== src/Tests/Start.antt =====
-- A log that is sent to a server that starts again, and a list of mails that grows.
use google_cloud_final.Base.{
  ℕ, ◌≡◌, refl, ap, ◌∙◌, ◌-◌, [], ◌∷◌, ◌++◌, arith, false, length, take, drop, drop-append,
  take-append, length-append, append_assoc, ◌==◌, if◌then◌else◌,
}
use google_cloud_final.Text.{Bytes, codes, equal, find, position, is_prefix, substr}
use google_cloud_final.Map.{lookup}
use google_cloud_final.Connection.{Connection, c_str, has_str, got, crlf}
use google_cloud_final.DataServer.{Worker}
use google_cloud_final.Worker.Recovery.{parse_log}
use google_cloud_final.StartUp.{receive_log}
use google_cloud_final.StartUp.Log.{log_answer, transfer_lem}
use google_cloud_final.Outcome.{Outcome, done, Option, none, some}
use google_cloud_final.Mail.HashList.{says, cell_of, put_of, cput_of}
use google_cloud_final.Mail.HashList.Append.{ListStore, empty_list}
use google_cloud_final.Worker.Handlers.{parse_get}
use google_cloud_final.Storage.Wire.{shutting_down, read_get_data}
use google_cloud_final.Storage.Wire.Answers.{get_answer, get_lem}
use google_cloud_final.Tests.{worker, open_line}

abbrev log_text : Bytes
log_text = codes "PUT <a> <b>\n1\nx\n.\n"

abbrev primary : Worker
primary = record worker { disk = record worker.disk { files = (codes "n/log.txt", log_text) ∷ [] } }

abbrev received : Connection
received = record open_line { incoming = got (log_answer log_text) ∷ [] }

log_there : lookup (codes "n/log.txt") primary.disk.files ≡ some log_text
unfolding lookup equal
log_there = refl

mark_at : find (log_answer log_text) (codes "LOG END") ≡ 18
unfolding find position
mark_at = refl

transfer_example :
    (s' : Worker) × (parse_log primary ≡ done s')
    × (s'.task.sent ≡ [] ++ log_answer log_text)
    × (receive_log 1 received ≡ done (log_text, open_line))
transfer_example =
    transfer_lem primary 0 log_text [] received refl log_there refl (ground arith) (omega arith)
      mark_at

abbrev ann : Bytes
ann = codes "ann"

abbrev inbox : Bytes
inbox = codes "mail/inbox/list"

-- What stands in front of the new list in a CPUT.
abbrev front : Bytes → Bytes
front old =
    codes "CPUT"
    ++ (cell_of ann inbox
        ++ (codes "OLD" ++ (crlf ++ (old ++ (codes "." ++ (crlf ++ (codes "NEW" ++ crlf)))))))

abbrev new_of : Bytes → Bytes → Bytes
new_of old msg = let rest = drop (length (front old)) msg in take (length rest - 3) rest

abbrev first : Bytes → ℕ
first [] = 0
first (c ∷ msg) = c

-- A store of one list, which tells the requests by their first bytes.
abbrev one_list : Bytes → Bytes → Option Bytes → Outcome (Bytes × Option Bytes)
one_list addr msg none =
    if first msg == b'G'
    then done (codes "-ERR" ++ crlf, none)
    else done (codes "+OK" ++ crlf, some empty_list)
one_list addr msg (some old) =
    if first msg == b'G'
    then done (old, some old)
    else if first msg == b'P'
    then done (codes "+OK" ++ crlf, some empty_list)
    else done (codes "+OK" ++ crlf, some (new_of old msg))

abbrev shown_list : Option Bytes → Option Bytes
shown_list o = o

new_of-cput : (old new : Bytes) → new_of old (cput_of ann inbox old new) ≡ new
new_of-cput old new =
    let ending = codes "." ++ crlf in
    let regroup : cput_of ann inbox old new ≡ front old ++ (new ++ ending) = simp (append_assoc) in
    ap (new_of old) regroup
    ∙ ap (λ r. take (length r - 3) r) (drop-append (front old) (new ++ ending))
    ∙ ap (λ n. take n (new ++ ending)) (omega (arith, length-append new ending))
    ∙ take-append new ending

one_list-ListStore : ListStore one_list [] ann inbox shown_list
unfolding says equal substr
one_list-ListStore = record {
  get_value = λ value w h. (some value, rw h refl, refl);
  get_nothing = λ w h. (codes "-ERR" ++ crlf, none, rw h refl, refl, refl);
  put = λ w. (codes "+OK" ++ crlf, some empty_list, put_any w, refl);
  cput = λ old new w h. (codes "+OK" ++ crlf, some new, cput_any old new w h, refl, refl);
}
  where
    put_any :
        (w : Option Bytes)
        → one_list [] (put_of ann inbox empty_list) w ≡ done (codes "+OK" ++ crlf, some empty_list)
    put_any none = refl
    put_any (some old) = refl

    cput_any :
        (old new : Bytes) (w : Option Bytes)
        → w ≡ some old
        → one_list [] (cput_of ann inbox old new) w ≡ done (codes "+OK" ++ crlf, some new)
    cput_any old new w h =
        ap (one_list [] (cput_of ann inbox old new)) h
        ∙ ap (λ t. done (codes "+OK" ++ crlf, some t)) (new_of-cput old new)

abbrev holding : Worker
holding = record worker { table = (codes "bob", (codes "m1", some (codes "hi" ++ crlf)) ∷ []) ∷ [] }

bob_there : lookup (codes "bob") holding.table ≡ some ((codes "m1", some (codes "hi" ++ crlf)) ∷ [])
unfolding lookup equal
bob_there = refl

m1_there :
    lookup {V = Option Bytes} (codes "m1") ((codes "m1", some (codes "hi" ++ crlf)) ∷ [])
    ≡ some (some (codes "hi" ++ crlf))
unfolding lookup equal
m1_there = refl

no_notice : has_str (get_answer (codes "hi")) shutting_down ≡ false
unfolding has_str c_str position is_prefix
no_notice = refl

get_answer_example :
    (s' : Worker) × (parse_get (codes "bob") (codes "m1") holding ≡ done s')
    × (s'.task.sent ≡ [] ++ get_answer (codes "hi"))
    × (read_get_data [] (got (get_answer (codes "hi")) ∷ []) ≡ done (codes "hi", []))
get_answer_example =
    get_lem holding (codes "bob") (codes "m1") (codes "hi") _ [] refl bob_there m1_there
      (ground arith) (omega arith) no_notice
