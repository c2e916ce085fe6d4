-- ===== src/Storage/Wire.antt =====
-- storage/Storage.cc: the requests on the wire, and what is done when a server goes away.  The
-- results of `read` are given, one for each call, so a `got` is never longer than the buffer; its
-- bytes are read as a C string, which runs over the end of a full buffer.
pub mod Answers
use google_cloud_final.Base.{
  ℕ, zero, suc, ◌-◌, Bool, true, false, ◌&&◌, ◌||◌, List, [], ◌∷◌, ◌++◌, length, take, leb,
  if◌then◌else◌,
}
use google_cloud_final.Text.{Bytes, codes, equal, substr}
use google_cloud_final.Connection.{
  Connection, ReadEvent, got, read_failed, WriteEvent, took, write_failed, c_str, has_str, crlf,
  dot_line,
}
use google_cloud_final.Outcome.{Outcome, done, abort, blocked, Option, none, some, ◌>>=◌}

abbrev pub crash : Bytes
crash = codes "SERVER CRASH"

abbrev pub err_null : Bytes
err_null = codes "-ERR NULL"

unfoldable pub command_parser : Bytes → Bytes → Bytes
command_parser user_name column_name =
    codes "<" ++ (user_name ++ (codes "> " ++ (codes "<" ++ (column_name ++ (codes ">" ++ crlf)))))

unfoldable pub complete_data : Bytes → Bool
unfolding has_str
complete_data str = has_str str dot_line

unfoldable pub complete_reply : Bytes → Bool
unfolding has_str
complete_reply str = has_str str crlf

abbrev pub shutting_down : Bytes
shutting_down = codes "-ERR Server shutting down"

-- What the answer to a GET is once `complete` has come, if it is whole.
unfoldable pub get_reply : Bool → Bytes → Option Bytes
unfolding complete_data complete_reply
get_reply closed complete =
    if has_str complete shutting_down || closed
    then some crash
    else if has_str complete (codes "DATA" ++ crlf) && complete_data complete
    then (if leb (length complete) 11 then some [] else substr complete 6 (length complete - 11))
    else if has_str complete err_null && complete_reply complete
    then some err_null
    else none

-- The bytes of one call of `read` in a buffer of `len` bytes.
abbrev pub piece_of : ℕ → ReadEvent → Outcome Bytes
piece_of len read_failed = done []
piece_of len (got chunk) = if leb len (length (c_str chunk)) then abort else done (c_str chunk)

abbrev pub is_closed : ReadEvent → Bool
is_closed (got []) = true
is_closed _ = false

-- The read loop: the answer, and the calls of `read` that are left.
unfoldable pub read_get_data : Bytes → List ReadEvent → Outcome (Bytes × List ReadEvent)
unfolding get_reply
read_get_data so_far [] = blocked
read_get_data so_far (event ∷ events) = do
  piece ← piece_of 7000000 event
  let complete = so_far ++ piece
  let more = read_get_data complete events
  elim (get_reply (is_closed event) complete) [ none ↦ more | some reply ↦ done (reply, events) ]

-- The notice of a shut down is looked for in what came before the last `read`.
unfoldable pub read_put_reply : Bytes → List ReadEvent → Outcome (Bytes × List ReadEvent)
unfolding has_str
read_put_reply complete [] = blocked
read_put_reply complete (event ∷ events) =
    let crashed = done (crash, events) in
    let next = (do
      piece ← piece_of 100 event
      let longer = complete ++ piece
      let more = read_put_reply longer events
      if has_str longer crlf then done (longer, events) else more) in
    if has_str complete shutting_down || is_closed event then crashed else next

-- The connection to the primary, and those that the next calls of `server_recover` make.
pub record Session : Type 0 where
  pub task : Connection
  pub next : List Connection

unfoldable pub server_recover : Session → Outcome Session
server_recover s = go s.next
  where
    go : List Connection → Outcome Session
    go [] = blocked
    go (c ∷ rest) = done (record { task = c; next = rest })

-- One call of `write`, which may take a part of the text; its result is not looked at.
unfoldable pub write_once : Connection → Bytes → Connection
write_once c msg = go c.outgoing
  where
    go : List WriteEvent → Connection
    go [] = record c { sent = c.sent ++ msg }
    go (took n ∷ events) = record c { outgoing = events; sent = c.sent ++ take n msg }
    go (write_failed ∷ events) = record c { outgoing = events }

abbrev pub write_each : Connection → List Bytes → Connection
write_each c [] = c
write_each c (msg ∷ msgs) = write_each (write_once c msg) msgs

-- The texts of one command are written, and its answer is read.
abbrev pub ask :
    (List ReadEvent → Outcome (Bytes × List ReadEvent))
    → List Bytes
    → Session
    → Outcome (Bytes × Session)
ask read msgs s = do
  let written = write_each s.task msgs
  (response, events) ← read written.incoming
  done (response, record s { task = record written { incoming = events } })

-- The loop of each command: after a crash the call is made again within the loop, and the loop
-- then goes round once more.
unfoldable pub retry :
    ℕ → (Session → Outcome (Bytes × Session)) → Session → Outcome (Bytes × Session)
unfolding server_recover
retry zero exchange s = blocked
retry (suc fuel) exchange s = do
  (response, s1) ← exchange s
  let again = (do
    s2 ← server_recover s1
    (inner, s3) ← retry fuel exchange s2
    retry fuel exchange s3)
  if equal response crash then again else done (response, s1)

unfoldable pub send_get_command : ℕ → Bytes → Session → Outcome (Bytes × Session)
unfolding retry read_get_data write_once
send_get_command fuel index = retry fuel (ask (read_get_data []) ((codes "GET " ++ index) ∷ []))

-- A part of a command: its name on a line, and the data up to a line with a dot.
abbrev pub data_part : Bytes → Bytes → Bytes
data_part name contents = name ++ (crlf ++ (contents ++ dot_line))

unfoldable pub send_put_command : ℕ → Bytes → Bytes → Session → Outcome (Bytes × Session)
unfolding retry read_put_reply write_once
send_put_command fuel index contents =
    retry fuel
      (ask (read_put_reply []) ((codes "PUT " ++ index) ∷ data_part (codes "DATA") contents ∷ []))

unfoldable pub send_cput_command : ℕ → Bytes → Bytes → Bytes → Session → Outcome (Bytes × Session)
unfolding retry read_put_reply write_once
send_cput_command fuel index old_data new_data = retry fuel (
    ask (read_put_reply []) (
      (codes "CPUT " ++ index)
      ∷ data_part (codes "OLD") old_data
      ∷ data_part (codes "NEW") new_data
      ∷ []))

unfoldable pub send_delete_command : ℕ → Bytes → Session → Outcome (Bytes × Session)
unfolding retry read_put_reply write_once
send_delete_command fuel index =
    retry fuel (ask (read_put_reply []) ((codes "DELETE " ++ index) ∷ []))

-- `delete_recover`
unfoldable pub delete_recover : ℕ → Bytes → Session → Outcome (Bytes × Session)
unfolding send_get_command send_delete_command
delete_recover fuel index s = do
  (get_data, s1) ← send_get_command fuel index s
  let deletion = send_delete_command fuel index s1
  if equal get_data err_null then done (codes "+OK", s1) else deletion
