-- ===== src/Tests/Mail.antt =====
-- A mail server with a store that always agrees, and mails, on which the theorems on mail are
-- applied.
use google_cloud_final.Base.{ℕ, ◌≡◌, refl, true, false, List, [], ◌∷◌, ◌++◌, arith}
use google_cloud_final.Text.{codes, equal, substr}
use google_cloud_final.Text.Lines.{unlines}
use google_cloud_final.Connection.{ReadEvent, got, c_str, crlf, with_crlf}
use google_cloud_final.Outcome.{Outcome, done, Ensures}
use google_cloud_final.Mail.{Post}
use google_cloud_final.Mail.Wire.{do_read}
use google_cloud_final.Mail.Wire.Answers.{answer_text, do_read_lem}
use google_cloud_final.Mail.HashList.{update_hash}
use google_cloud_final.Mail.HashList.Laws.{kept, update_hash_lem}
use google_cloud_final.Mail.Client.{parse_email}
use google_cloud_final.Mail.Client.Reading.{stored, mail_of, parse_email_lem}
use google_cloud_final.Mail.Queue.{read_mqueue, update_mqueue}
use google_cloud_final.Mail.Queue.Growth.{unsent_lem}
use google_cloud_final.Mail.Session.{Session}
use google_cloud_final.Mail.Session.Diagram.{Valid}
use google_cloud_final.Mail.Commands.{command, worker_thread}
use google_cloud_final.Mail.Commands.Safety.{Commanded, command_lem}

abbrev World : Type 0
World = Unit {0}

abbrev agreeing : Post World
agreeing = record {
  sendto_backend = λ addr msg w. done (codes "+OK" ++ crlf, w);
  md5 = λ text. 1 ∷ 2 ∷ [];
  ctime = λ w. codes "noon";
  handle_forward = λ host sender rcpt text w. done (true, w);
}

abbrev greeted : Session World
greeted = record {
  state = 0;
  sender = [];
  rcpts = [];
  text = [];
  replies = [];
  mqueue = [];
  world = tt;
}

greeted-Valid : Valid greeted
greeted-Valid = record {
  local = λ p q. absurd (omega (arith, p));
  has_rcpts = λ p q. absurd (omega (arith, p));
  no_text = λ p. refl;
}

abbrev conversation : List ReadEvent
conversation =
    got (codes "HELO me" ++ (crlf ++ (codes "MAIL FROM:<ann@localhost>" ++ crlf)))
    ∷ got (codes "RCPT TO:<bob@localhost>" ++ crlf)
    ∷ got (codes "DATA" ++ crlf)
    ∷ got (codes "Subject: hello" ++ crlf)
    ∷ got (codes "." ++ crlf)
    ∷ got (codes "QUIT" ++ crlf)
    ∷ []

abbrev state_of : Outcome (Session World) → ℕ
state_of (done s) = s.state
state_of _ = 0

-- The conversation comes to its end.
conversation_ends :
    state_of (worker_thread agreeing (codes "10.0.0.1:80") 5 [] conversation greeted) ≡ 6
unfolding worker_thread c_str substr
conversation_ends = refl

first_command_example : Ensures (Commanded (codes "HELO me" ++ crlf) greeted) (
    command agreeing
      (codes "10.0.0.1:80")
      5
      (codes "HELO me" ++ crlf)
      (codes "HELO me" ++ crlf)
      greeted)
first_command_example =
    command_lem agreeing (codes "10.0.0.1:80") 5 (codes "HELO me" ++ crlf) (codes "HELO me" ++ crlf)
      greeted greeted-Valid

update_hash_example :
    update_hash (with_crlf (codes "ab" ∷ codes "cd" ∷ codes "list" ∷ [])) (codes "ab" ∷ [])
    ≡ done (with_crlf (kept (codes "ab" ∷ []) (codes "ab" ∷ codes "cd" ∷ codes "list" ∷ [])))
update_hash_example =
    update_hash_lem (codes "ab" ∷ codes "cd" ∷ codes "list" ∷ []) (codes "ab" ∷ []) (ground arith)

stored_mail_example :
    parse_email agreeing.md5
      (stored (codes "|localhost|") (codes "Subject: hi" ++ (crlf ++ codes "text")))
    ≡ done (mail_of agreeing.md5 (codes "|localhost|") (codes "Subject: hi") (codes "text"))
stored_mail_example =
    parse_email_lem agreeing.md5 (codes "|localhost|") (codes "Subject: hi") (codes "text")
      (ground arith) (ground arith) (omega arith)

unsent_example :
    let (messages, headers) = read_mqueue (unlines (codes "Header |a|" ∷ codes "text" ∷ [])) in
    update_mqueue messages headers ≡ with_crlf (codes "Header |a|" ∷ codes "text" ∷ [])
unsent_example =
    unsent_lem (codes "Header |a|") (codes "text" ∷ []) (unfold equal in refl) (ground arith)

answer_example :
    do_read [] [] false (got (answer_text (codes "ab" ∷ codes "." ∷ [])) ∷ [])
    ≡ done (with_crlf (codes "ab" ∷ codes "." ∷ []))
answer_example =
    do_read_lem (codes "ab" ∷ codes "." ∷ []) [] (ground arith) (ground arith) (omega arith)
