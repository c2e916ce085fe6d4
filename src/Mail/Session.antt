-- ===== src/Mail/Session.antt =====
-- webmail/server.cc: the state of a connection to the mail server, and the commands that build up a
-- mail.  `extra[5]`, `extra[3]` and `command[CMD_SIZE]` are written behind their arrays; that
-- byte is taken to be of no use to anyone.
pub mod Diagram
use google_cloud_final.Base.{
  ℕ, zero, suc, ◌+◌, ◌-◌, Bool, true, false, not, ◌||◌, List, [], ◌∷◌, ◌++◌, length, take, drop,
  leb, ltb, if◌then◌else◌, ◌==◌,
}
use google_cloud_final.Text.{Bytes, codes, equal, less, last_position, position, substr}
use google_cloud_final.CText.{strcasecmp}
use google_cloud_final.Connection.{crlf}
use google_cloud_final.Outcome.{Outcome, done, abort, Option, none, some, ◌>>=◌, or_throw}

-- 0: no HELO yet, 1: HELO or RSET, 2: MAIL, 3: RCPT, 4: in the DATA, 5: after it, 6: QUIT
pub record Session (S : Type 0) : Type 0 where
  pub state : ℕ
  pub sender : Bytes
  pub rcpts : List Bytes
  pub text : Bytes
  pub replies : List Bytes
  pub mqueue : Bytes
  pub world : S

abbrev pub ok : Bytes
ok = codes "250 OK" ++ crlf

abbrev pub helo : Bytes
helo = codes "250 localhost" ++ crlf

abbrev pub start_mail : Bytes
start_mail = codes "354 Start mail input; end with <CRLF>." ++ crlf

abbrev pub unknown_cmd : Bytes
unknown_cmd = codes "500 Syntax error, command unrecognized" ++ crlf

abbrev pub syntax_err : Bytes
syntax_err = codes "501 Syntax error in parameters or arguments" ++ crlf

abbrev pub bad_seq : Bytes
bad_seq = codes "503 Bad sequence of commands" ++ crlf

abbrev pub mailbox_na : Bytes
mailbox_na = codes "550 Requested action not taken: mailbox unavailable" ++ crlf

abbrev pub service_close : Bytes
service_close = codes "221 localhost service closing transmission channel" ++ crlf

-- The text between the first `<` and the `>` behind it, in the whole buffer, for an array of 50
-- bytes; without them it is read behind the buffer.
unfoldable pub parse_mailbox : Bytes → Outcome Bytes
unfolding position
parse_mailbox src = do
  i ← or_throw (position (codes "<") src)
  let rest = drop (i + 1) src
  j ← or_throw (position (codes ">") rest)
  if ltb j 50 then done (take j rest) else abort

-- `rcpts.insert(mailbox)`, in a set
unfoldable pub insert_rcpt : Bytes → List Bytes → List Bytes
unfolding equal less
insert_rcpt r [] = r ∷ []
insert_rcpt r (q ∷ qs) =
    if equal q r then q ∷ qs else if less r q then r ∷ q ∷ qs else q ∷ insert_rcpt r qs

-- Whether ten bytes from the last `@` on are `@localhost`; without an `@`, `compare` throws.
unfoldable pub from_localhost : Bytes → Outcome Bool
unfolding last_position equal
from_localhost domain = do
  found ← or_throw (last_position (codes "@") domain)
  host ← or_throw (substr domain found 10)
  done (equal host (codes "@localhost"))

module _ {S : Type 0} where
  -- `handle_response`
  abbrev pub respond : Bytes → Session S → Session S
  respond response s = record s { replies = s.replies ++ response ∷ [] }

  -- A reply that does not end the handler.
  abbrev pub warn : Bool → Bytes → Session S → Session S
  warn wrong response s = record s {
    replies = if wrong then s.replies ++ response ∷ [] else s.replies;
  }

  unfoldable pub handle_helo : Bytes → Session S → Outcome (Session S)
  handle_helo buff s =
      let s1 = warn (leb (length buff) 5) syntax_err s in
      if ltb 1 s1.state
      then done (respond bad_seq s1)
      else done (respond helo (record s1 { state = 1 }))

  unfoldable pub handle_from : Bytes → Session S → Outcome (Session S)
  unfolding strcasecmp parse_mailbox from_localhost
  handle_from buff s =
      let s1 = warn (not (strcasecmp (take 5 (drop 5 buff)) (codes "from:"))) unknown_cmd s in
      let accept = (do
        domain ← parse_mailbox buff
        local ← from_localhost domain
        if local
            then done (respond ok (record s1 { state = 2; sender = domain }))
            else done (respond syntax_err s1)) in
      if s1.state == 1 then accept else done (respond bad_seq s1)

  unfoldable pub handle_to : Bytes → Session S → Outcome (Session S)
  unfolding strcasecmp parse_mailbox insert_rcpt
  handle_to buff s =
      let s1 = warn (not (strcasecmp (take 3 (drop 5 buff)) (codes "to:"))) unknown_cmd s in
      let accept = (do
        mailbox ← parse_mailbox buff
        done (respond ok (record s1 { state = 3; rcpts = insert_rcpt mailbox s1.rcpts }))) in
      if ltb s1.state 2 || ltb 3 s1.state then done (respond bad_seq s1) else accept

  unfoldable pub handle_rset : Session S → Outcome (Session S)
  handle_rset s =
      if s.state == 0
      then done (respond bad_seq s)
      else done (respond ok (record s { state = 1; text = []; sender = []; rcpts = [] }))
