-- ===== src/Mail/Commands.antt =====
-- webmail/server.cc: the loop of a connection to the mail server.  The buffer is taken to be empty at
-- first.
pub mod Safety
use google_cloud_final.Base.{
  ℕ, zero, suc, ◌+◌, ◌-◌, Bool, true, false, not, ◌||◌, List, [], ◌∷◌, ◌++◌, length, take, drop,
  leb, ltb, if◌then◌else◌, ◌==◌,
}
use google_cloud_final.Text.{Bytes, codes, equal, position}
use google_cloud_final.CText.{strcasecmp}
use google_cloud_final.Connection.{ReadEvent, crlf}
use google_cloud_final.Outcome.{Outcome, done, abort, blocked, Option, none, some, ◌>>=◌, or_throw}
use google_cloud_final.Mail.{Post}
use google_cloud_final.Mail.Wire.{filled}
use google_cloud_final.Mail.Session.{
  Session, ok, unknown_cmd, service_close, respond, handle_helo, handle_from, handle_to,
  handle_rset,
}
use google_cloud_final.Mail.Delivery.{handle_data}

pub data Verb : Type 0 where
  data_line helo_line mail_line rcpt_line rset_line noop_line quit_line other : Verb

-- The first five bytes; in the data every line is one of the data.
unfoldable pub verb_of : ℕ → Bytes → Verb
unfolding strcasecmp
verb_of state buff =
    let command = take 5 buff in
    if strcasecmp command (codes "data" ++ 13 ∷ []) || state == 4
    then data_line
    else if strcasecmp command (codes "helo ")
    then helo_line
    else if strcasecmp command (codes "mail ")
    then mail_line
    else if strcasecmp command (codes "rcpt ")
    then rcpt_line
    else if strcasecmp command (codes "rset" ++ 13 ∷ [])
    then rset_line
    else if strcasecmp command (codes "noop" ++ 13 ∷ [])
    then noop_line
    else if strcasecmp command (codes "quit" ++ 13 ∷ [])
    then quit_line
    else other

module _ {S : Type 0} (post : Post S) (master_addr : Bytes) (fuel : ℕ) where
  unfoldable pub handle : Verb → Bytes → Bytes → Session S → Outcome (Session S)
  unfolding handle_data handle_helo handle_from handle_to handle_rset
  handle data_line buff line s = handle_data post master_addr fuel buff line s
  handle helo_line buff line s = handle_helo buff s
  handle mail_line buff line s = handle_from buff s
  handle rcpt_line buff line s = handle_to buff s
  handle rset_line buff line s = handle_rset s
  handle noop_line buff line s = done (respond ok s)
  handle quit_line buff line s = done (respond service_close (record s { state = 6 }))
  handle other buff line s = done (respond unknown_cmd s)

  -- One command, the first line of the buffer.
  unfoldable pub command : Bytes → Bytes → Session S → Outcome (Session S)
  unfolding verb_of handle
  command buff line s = handle (verb_of s.state buff) buff line s

  -- The lines in the buffer, fewer than its bytes, up to a QUIT: what is left of the buffer.
  unfoldable pub commands : ℕ → Bytes → Session S → Outcome (Bytes × Session S)
  unfolding command position
  commands zero buff s = done (buff, s)
  commands (suc n) buff s = elim (position crlf buff) [
    | none ↦ done (buff, s)
    | some k ↦ command buff (take (k + 2) buff) s >>= λ s1.
        if s1.state == 6 then done (buff, s1) else commands n (drop (k + 2) buff) s1
  ]

  -- The loop of `worker_thread`, behind the greeting and up to the QUIT.
  unfoldable pub worker_thread : Bytes → List ReadEvent → Session S → Outcome (Session S)
  unfolding commands
  worker_thread buff [] s = blocked
  worker_thread buff (event ∷ events) s = do
    full ← filled 5000 buff event
    (rest, s1) ← commands (length full) full s
    let more = worker_thread rest events s1
    if s1.state == 6 then done s1 else more
