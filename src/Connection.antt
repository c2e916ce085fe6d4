-- ===== src/Connection.antt =====
-- kvstore/Connection.cc, and kvstore/master/masterConnection.cc, which repeats it.  What `read` and
-- `write` answer is given: a list of events for each direction.  Once the `write` events are
-- used up, the kernel takes whatever is left.
pub mod Reads
pub mod Writes
use google_cloud_final.Base.{
  ℕ, suc, ◌+◌, ◌-◌, ◌&&◌, Bool, true, false, List, [], ◌∷◌, ◌++◌, length, take, drop, leb, ltb,
  ◌==◌, if◌then◌else◌,
}
use google_cloud_final.Text.{Bytes, codes, position}
use google_cloud_final.Outcome.{Outcome, done, abort, blocked, Option, none, some}

-- `failed` is a negative result.  `got []` is the 0 of a closed peer.
pub data ReadEvent : Type 0 where
  got : Bytes → ReadEvent
  read_failed : ReadEvent

pub data WriteEvent : Type 0 where
  took : ℕ → WriteEvent
  write_failed : WriteEvent

pub record Connection : Type 0 where
  pub incoming : List ReadEvent
  pub outgoing : List WriteEvent
  pub sent : Bytes

-- A buffer as a C string: up to the first zero byte.
unfoldable pub c_str : Bytes → Bytes
c_str [] = []
c_str (c ∷ s) = if c == 0 then [] else c ∷ c_str s

-- `strstr(buf, needle) != NULL`
unfoldable pub has_str : Bytes → Bytes → Bool
unfolding c_str position
has_str buf needle = elim (position needle (c_str buf)) [ none ↦ false | some i ↦ true ]

-- What `read` leaves in the kernel if the chunk is larger than the room.
abbrev pub unread : Bytes → List ReadEvent → List ReadEvent
unread [] events = events
unread (c ∷ s) events = got (c ∷ s) ∷ events

-- The read loop: the result, the bytes in the buffer of `len` bytes, and the events left.  The
-- flag says that the loop writes `buf[revd] = '\0'` before it returns, which is out of bounds if
-- the buffer is full.
unfoldable pub read_until :
    Bool → Bytes → ℕ → Bytes → List ReadEvent → Outcome (Bool × Bytes × List ReadEvent)
unfolding has_str
read_until terminate needle len buf [] =
    if ltb (length buf) len then blocked else done (true, buf, [])
read_until terminate needle len buf (read_failed ∷ events) =
    if ltb (length buf) len
    then done (false, buf, events)
    else done (true, buf, read_failed ∷ events)
read_until terminate needle len buf (got chunk ∷ events) =
    let room = len - length buf in
    let buf' = buf ++ take room chunk in
    let left = unread (drop room chunk) events in
    let more = read_until terminate needle len buf' events in
    if leb len (length buf)
    then done (true, buf, got chunk ∷ events)
    else if has_str buf' needle
    then (if terminate && leb len (length buf') then abort else done (true, buf', left))
    else if leb len (length buf')
    then done (true, buf', left)
    else more

abbrev pub crlf : Bytes
crlf = 13 ∷ 10 ∷ []

-- The lines, each with `\r\n` behind it.
abbrev pub with_crlf : List Bytes → Bytes
with_crlf [] = []
with_crlf (l ∷ ls) = l ++ (crlf ++ with_crlf ls)

-- "\r\n.\r\n"
abbrev pub dot_line : Bytes
dot_line = 13 ∷ 10 ∷ 46 ∷ 13 ∷ 10 ∷ []

-- `do_read`: a line; `do_read_data`: up to a line with a dot alone.
unfoldable pub do_read : ℕ → List ReadEvent → Outcome (Bool × Bytes × List ReadEvent)
unfolding read_until
do_read len = read_until true crlf len []

unfoldable pub do_read_data : ℕ → List ReadEvent → Outcome (Bool × Bytes × List ReadEvent)
unfolding read_until
do_read_data len = read_until false dot_line len []

-- The write loop over what is left of the buffer: the events left, the bytes taken, the result.
unfoldable pub write_all : List WriteEvent → Bytes → List WriteEvent × Bytes × Bool
write_all events [] = (events, [], true)
write_all [] buf = ([], buf, true)
write_all (write_failed ∷ events) buf = (events, [], false)
write_all (took n ∷ events) buf =
    let (events', taken, result) = write_all events (drop n buf) in
    (events', take n buf ++ taken, result)

-- `do_write`
unfoldable pub do_write : Connection → Bytes → Bool × Connection
unfolding write_all
do_write c buf =
    let (events, taken, result) = write_all c.outgoing buf in
    (result, record c { outgoing = events; sent = c.sent ++ taken })
