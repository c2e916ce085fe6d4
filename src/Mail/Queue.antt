-- ===== src/Mail/Queue.antt =====
-- webmail/deliver.cc: the file of mails for other hosts, which is read, sent and written back.
pub mod Growth
use google_cloud_final.Base.{
  ℕ, zero, suc, ◌+◌, ◌-◌, Bool, true, false, List, [], ◌∷◌, ◌++◌, length, take, drop, leb,
  if◌then◌else◌, ◌==◌, map,
}
use google_cloud_final.Text.{Bytes, codes, add64, sub64, equal, find, find_after, substr}
use google_cloud_final.Text.Lines.{lines}
use google_cloud_final.Connection.{crlf}
use google_cloud_final.Outcome.{Outcome, done, abort, Option, none, some, ◌>>=◌, or_throw}
use google_cloud_final.Mail.{Post}

-- `Message`
pub record Message : Type 0 where
  pub text : Bytes
  pub deleted : Bool

abbrev pub new_message : Bytes → Message
new_message text = record { text = text; deleted = false }

-- The loop over the lines of the file: the messages and headers so far, and the text of the last
-- message.
pub record Reading : Type 0 where
  pub messages : List Message
  pub headers : List Bytes
  pub text : Bytes

abbrev pub is_header : Bytes → Bool
is_header line = equal (take 7 line) (codes "Header ")

unfoldable pub read_lines : List Bytes → Reading → Reading
unfolding equal
read_lines [] r = r
read_lines (line ∷ rest) r =
    let header = read_lines rest (record {
      messages = r.messages ++ new_message r.text ∷ [];
      headers = r.headers ++ (line ++ crlf) ∷ [];
      text = [];
    }) in
    let more = read_lines rest (record r { text = r.text ++ (line ++ crlf) }) in
    if is_header line then header else more

-- The first message stands before the first header; the last one ends with the file.
abbrev pub finished : Reading → List Message
finished r = elim r.messages [ [] ↦ [] | first ∷ others ↦ others ++ new_message r.text ∷ [] ]

-- `read_mqueue`: the messages and their headers.
unfoldable pub read_mqueue : Bytes → List Message × List Bytes
unfolding read_lines lines
read_mqueue file =
    let r = read_lines (lines file) (record { messages = []; headers = []; text = [] }) in
    (finished r, r.headers)

-- `update_mqueue`: the file that is written; the vectors are of one length.
unfoldable pub update_mqueue : List Message → List Bytes → Bytes
update_mqueue [] headers = []
update_mqueue (m ∷ messages) [] = []
update_mqueue (m ∷ messages) (header ∷ headers) =
    let rest = update_mqueue messages headers in
    if m.deleted then rest else header ++ (m.text ++ rest)

-- The host, the sender and the recipient.
unfoldable pub parse_header : Bytes → Outcome (Bytes × Bytes × Bytes)
unfolding find find_after
parse_header header = do
  let bar = codes "|"
  let f1 = find header bar
  let f2 = find_after header bar (add64 f1 1)
  let f3 = find_after header bar (add64 f2 1)
  let f4 = find_after header bar (add64 f3 1)
  host ← or_throw (substr header (add64 f1 1) (sub64 (sub64 f2 f1) 1))
  sender ← or_throw (substr header (add64 f2 1) (sub64 (sub64 f3 f2) 1))
  rcpt ← or_throw (substr header (add64 f3 1) (sub64 (sub64 f4 f3) 1))
  done (host, sender, rcpt)

module _ {S : Type 0} (post : Post S) where
  -- Each mail is sent, and marked if that went well.
  unfoldable pub forward_all : List Message → List Bytes → S → Outcome (List Message × S)
  unfolding parse_header
  forward_all (m ∷ messages) (header ∷ headers) world = do
    (host, sender, rcpt) ← parse_header header
    (sent, w1) ← post.handle_forward host sender rcpt m.text world
    (others, w2) ← forward_all messages headers w1
    done (record m { deleted = sent } ∷ others, w2)
  forward_all messages headers world = done (messages, world)

  -- `mail_relay`: the file afterwards.
  unfoldable pub mail_relay : Bytes → S → Outcome (Bytes × S)
  unfolding read_mqueue forward_all update_mqueue
  mail_relay file world = do
    let (messages, headers) = read_mqueue file
    (messages', w1) ← forward_all messages headers world
    done (update_mqueue messages' headers, w1)
