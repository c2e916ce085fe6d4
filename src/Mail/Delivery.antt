-- ===== src/Mail/Delivery.antt =====
-- webmail/server.cc: the end of the data of a mail, which goes into the sender's outbox and the
-- inboxes of the recipients, or into the file of mails for other hosts.
pub mod Moves
use google_cloud_final.Base.{
  ℕ, ◌-◌, Bool, true, false, ◌||◌, List, [], ◌∷◌, ◌++◌, length, take, ltb, if◌then◌else◌, ◌==◌,
}
use google_cloud_final.Text.{
  Bytes, codes, npos, add64, sub64, equal, find, find_after, substr, substr_from,
}
use google_cloud_final.Connection.{crlf}
use google_cloud_final.Outcome.{Outcome, done, ◌>>=◌, or_throw}
use google_cloud_final.Mail.{Post}
use google_cloud_final.Mail.Wire.{hash_md5, hash_text, ask_master}
use google_cloud_final.Mail.HashList.{put_of, append_hash}
use google_cloud_final.Mail.Queue.{mail_relay}
use google_cloud_final.Mail.Session.{Session, ok, bad_seq, start_mail, mailbox_na, respond, warn}

-- What is behind `Subject: ` on its line.  Without a subject the numbers wrap around, and the title
-- starts at the ninth byte.
unfoldable pub title_of : Bytes → Outcome Bytes
unfolding find find_after
title_of text = do
  let f1 = find text (codes "Subject: ")
  let f2 = find_after text crlf (add64 f1 1)
  or_throw (substr text (add64 f1 9) (sub64 (sub64 f2 f1) 9))

-- `for (auto rcpt: rcpts) header += rcpt + ","`
abbrev pub with_commas : List Bytes → Bytes
with_commas [] = []
with_commas (rcpt ∷ rcpts) = rcpt ++ (codes "," ++ with_commas rcpts)

-- The header of the outbox; the last byte of its first part is taken away.
abbrev pub outbox_header : Bytes → List Bytes → Bytes → Bytes → Bytes
outbox_header sender rcpts title time =
    let start = codes "Header |localhost|" ++ (sender ++ (codes "|" ++ with_commas rcpts)) in
    take (length start - 1) start ++ (codes "|" ++ (title ++ (codes "|" ++ time)))

abbrev pub inbox_header : Bytes → Bytes → Bytes → Bytes → Bytes → Bytes
inbox_header server_name sender rcpt title time =
    codes "Header |"
    ++ (server_name
        ++ (codes "|"
            ++ (sender ++ (codes "|" ++ (rcpt ++ (codes "|" ++ (title ++ (codes "|" ++ time))))))))

-- What is behind the header of a mail for another host.
abbrev pub from_to_date : Bytes → Bytes → Bytes → Bytes → Bytes → Bytes
from_to_date sender_name sender user_name rcpt time =
    codes "From: "
    ++ (sender_name
        ++ (codes " <"
            ++ (sender
                ++ (codes ">"
                    ++ (crlf
                        ++ (codes "To: "
                            ++ (user_name
                                ++ (codes " <"
                                    ++ (rcpt
                                        ++ (codes ">"
                                            ++ (crlf ++ (codes "Date: " ++ time))))))))))))

module _ {S : Type 0} (post : Post S) (master_addr : Bytes) (fuel : ℕ) where
  -- A mail for a user of this host.
  unfoldable pub deliver_here : Bytes → Bytes → Bytes → Session S → Outcome (Session S × Bool)
  unfolding ask_master append_hash
  deliver_here user_name hash mail s = do
    (node_addr, w1) ← ask_master post.sendto_backend master_addr user_name s.world
    let store = (do
      w2 ←
          append_hash post.sendto_backend fuel node_addr user_name (codes "mail/inbox/list") hash w1
      (response, w3) ←
          post.sendto_backend node_addr (put_of user_name (codes "mail/inbox/" ++ hash) mail) w2
      done (record s { world = w3 }, true))
    if equal node_addr (codes "NULL")
        then done (respond mailbox_na (record s { world = w1 }), false)
        else store

  -- One recipient: into the inbox, or into the file.
  unfoldable pub place_mail :
      Bytes → Bytes → Bytes → Bytes → Bytes → Bytes → Bytes → Session S → Outcome (Session S × Bool)
  unfolding deliver_here
  place_mail sender_name title time hash rcpt user_name server_name s =
      let header = inbox_header server_name s.sender rcpt title time in
      let queued : Session S = record s {
        mqueue =
            s.mqueue
            ++ (header ++ (from_to_date sender_name s.sender user_name rcpt time ++ s.text));
      } in
      let here = deliver_here user_name hash (header ++ s.text) s in
      if equal (take 9 server_name) (codes "localhost") then here else done (queued, true)

  abbrev pub relay : Session S → Outcome (Session S)
  relay s = mail_relay post s.mqueue s.world >>= λ (file, w1).
      done (record s { mqueue = file; world = w1 })

  -- The file is sent on, unless there is no such user.
  unfoldable pub deliver_to :
      Bytes → Bytes → Bytes → Bytes → Bytes → Session S → Outcome (Session S)
  unfolding find place_mail mail_relay
  deliver_to sender_name title time hash rcpt s = do
    let found = find rcpt (codes "@")
    user_name ← or_throw (substr rcpt 0 found)
    server_name ← or_throw (substr_from rcpt (add64 found 1))
    (s1, go_on) ← place_mail sender_name title time hash rcpt user_name server_name s
    if go_on then relay s1 else done s1

  unfoldable pub deliver_all :
      Bytes → Bytes → Bytes → Bytes → List Bytes → Session S → Outcome (Session S)
  unfolding deliver_to
  deliver_all sender_name title time hash [] s = done s
  deliver_all sender_name title time hash (rcpt ∷ rcpts) s = do
    s1 ← deliver_to sender_name title time hash rcpt s
    deliver_all sender_name title time hash rcpts s1

  -- The line with a dot: the mail is stored and sent, and the session is cleared.
  unfoldable pub end_data : Session S → Outcome (Session S)
  unfolding title_of ask_master append_hash deliver_all hash_text find
  end_data s0 = do
    let time = post.ctime s0.world ++ crlf
    let s =
        warn (find s0.text (codes "Subject: ") == npos)
          (codes "email content must include Subject: " ++ crlf) (record s0 { state = 5 })
    title ← title_of s.text
    sender_name ← or_throw (substr s.sender 0 (find s.sender (codes "@")))
    (sender_node, w1) ← ask_master post.sendto_backend master_addr sender_name s.world
    let hash = hash_md5 post.md5 s.text
    w2 ←
        append_hash post.sendto_backend fuel sender_node sender_name (codes "mail/outbox/list") hash
          w1
    let header = outbox_header s.sender s.rcpts title time
    (response, w3) ←
        post.sendto_backend sender_node
          (put_of sender_name (codes "mail/outbox/" ++ hash) (header ++ s.text)) w2
    s1 ← deliver_all sender_name title time hash s.rcpts (record s { world = w3 })
    done (respond ok (record s1 { text = []; sender = []; rcpts = [] }))

  -- `line` is the first line of `buff`.
  unfoldable pub handle_data : Bytes → Bytes → Session S → Outcome (Session S)
  unfolding end_data
  handle_data buff line s =
      let ended = end_data s in
      if ltb s.state 3 || ltb 4 s.state
      then done (respond bad_seq s)
      else if s.state == 3
      then done (respond start_mail (record s { state = 4 }))
      else if equal buff (codes "." ++ crlf)
      then ended
      else done (record s { text = s.text ++ line })
