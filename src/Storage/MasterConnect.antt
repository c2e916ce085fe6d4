-- ===== src/Storage/MasterConnect.antt =====
-- storage/masterConnect.cc: the question to the master, and the address in its answer.  The connection
-- that is made is given.
pub mod Address
use google_cloud_final.Base.{
  ℕ, suc, ◌+◌, Bool, true, false, List, [], ◌∷◌, ◌++◌, length, leb, ◌==◌, if◌then◌else◌,
}
use google_cloud_final.Text.{Bytes, codes, add64, sub64, substr}
use google_cloud_final.Connection.{Connection, ReadEvent, has_str, crlf, do_write}
use google_cloud_final.Outcome.{Outcome, done, abort, blocked, Option, ◌>>=◌, or_throw}
use google_cloud_final.Storage.Wire.{piece_of}

-- The request for the node of a user, in an array of 100 bytes.
unfoldable pub where_message : Bytes → Outcome Bytes
where_message user_name =
    let message = codes "Where <" ++ (user_name ++ (codes ">" ++ crlf)) in
    if leb 100 (length message) then abort else done message

-- The loop over the answer: where the first `>` stands, and the last `<` before it.
unfoldable pub find_angles : ℕ → ℕ → Bytes → ℕ × ℕ
find_angles i j [] = (i, j)
find_angles i j (c ∷ response) =
    let after_open = find_angles (suc i) i response in
    let later = find_angles (suc i) j response in
    if c == b'<' then after_open else if c == b'>' then (i, j) else later

-- The address between them.
unfoldable pub address_in : Bytes → Outcome Bytes
unfolding find_angles
address_in response = do
  let (i, j) = find_angles 0 0 response
  or_throw (substr response (add64 j 1) (sub64 (sub64 i j) 1))

-- `do_read`: up to a `\r\n`; what `read` answers is not looked at.
unfoldable pub read_answer : Bytes → List ReadEvent → Outcome Bytes
unfolding has_str
read_answer complete [] = blocked
read_answer complete (event ∷ events) = do
  put_reply ← piece_of 100 event
  let longer = complete ++ put_reply
  let more = read_answer longer events
  if has_str longer crlf then done longer else more

-- `sendto_backend`, which ends the process if it cannot write; the connection as it is closed.
unfoldable pub ask_address : Connection → Bytes → Outcome (Bytes × Connection)
unfolding read_answer address_in do_write
ask_address c message = do
  let (ok, c1) = do_write c message
  let answered = (do
    response ← read_answer [] c1.incoming
    addr ← address_in response
    done (addr, (do_write c1 (codes "QUIT" ++ crlf)).1))
  if ok then answered else abort
