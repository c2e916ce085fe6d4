-- ===== src/Worker/Dispatch.antt =====
-- The main loop of a worker: which command a line is, and what is done with it.  `closed` is never
-- set.  The loops take fuel: `blocked` also stands for a run that is cut off, so what is said of a
-- worker that returns says nothing of how long it runs.
use google_cloud_final.Base.{ℕ, zero, suc, Bool, false, ◌++◌, length, if◌then◌else◌}
use google_cloud_final.Text.{Bytes, codes}
use google_cloud_final.Connection.{c_str, do_read, crlf}
use google_cloud_final.Outcome.{Outcome, done, abort, blocked, none, some, ◌>>=◌}
use google_cloud_final.DataServer.{Net, Worker, stream_write, reply}
use google_cloud_final.Worker.Input.{rlen, strnicmp, extract_command, parse_command}
use google_cloud_final.Worker.Handlers.{parse_get, parse_put, parse_cput, parse_dele, parse_list}
use google_cloud_final.Worker.Recovery.{
  parse_ready, parse_recovery, parse_promote, parse_log, parse_checkpoint,
}

pub data Verb : Type 0 where
  quit put cput get dele alive promote recovery ready log checkpoint closeall list : Verb
  unsupported : Verb

abbrev is_verb : Bytes → Bytes → Bool
is_verb command verb = strnicmp command verb (length verb)

-- The tests of `run`, in their order.
unfoldable pub verb_of : Bytes → Verb
unfolding strnicmp
verb_of command =
    if is_verb command (codes "QUIT")
    then quit
    else if is_verb command (codes "PUT")
    then put
    else if is_verb command (codes "CPUT")
    then cput
    else if is_verb command (codes "GET")
    then get
    else if is_verb command (codes "DELETE")
    then dele
    else if is_verb command (codes "ALIVE")
    then alive
    else if is_verb command (codes "PROMOTE")
    then promote
    else if is_verb command (codes "RECOVERY")
    then recovery
    else if is_verb command (codes "READY")
    then ready
    else if is_verb command (codes "LOG")
    then log
    else if is_verb command (codes "CHECKPOINT")
    then checkpoint
    else if is_verb command (codes "CLOSEALL")
    then closeall
    else if is_verb command (codes "LIST")
    then list
    else unsupported

-- What `run` does for each command.
unfoldable pub handle : Net → Verb → Bytes → Worker → Outcome Worker
handle net quit command s =
    done (record (reply s (codes "+OK server signing off" ++ crlf)) { run_flag = false })
handle net put command s = do (row, col) ← parse_command command; parse_put row col s
handle net cput command s = do (row, col) ← parse_command command; parse_cput row col s
handle net get command s = do (row, col) ← parse_command command; parse_get row col s
handle net dele command s = do (row, col) ← parse_command command; parse_dele row col s
handle net alive command s = done s
handle net promote command s = parse_promote net command s
handle net recovery command s = parse_recovery net command s
handle net ready command s = parse_ready net command s
handle net log command s = parse_log s
handle net checkpoint command s = parse_checkpoint s
handle net closeall command s = abort
handle net list command s = parse_list s
handle net unsupported command s = done (reply s (codes "-ERR Not supported" ++ crlf))

unfoldable pub dispatch : Net → Bytes → Worker → Outcome Worker
unfolding verb_of handle
dispatch net command s = handle net (verb_of command) command s

-- `do_read` and `w << buf`
unfoldable pub read_more : Worker → Outcome Worker
unfolding stream_write
read_more s = do
  (result, buf, events) ← do_read rlen s.task.incoming
  done (record s { task = record s.task { incoming = events }; w = stream_write s.w (c_str buf) })

-- The commands that are complete.
unfoldable pub drain : ℕ → Net → Worker → Outcome Worker
unfolding extract_command dispatch
drain zero net s = blocked
drain (suc fuel) net s = elim (extract_command s.w) [
  | none ↦ done s
  | some (command, w) ↦ (do s' ← dispatch net command (record s { w = w }); drain fuel net s')
]

unfoldable pub run : ℕ → Net → Worker → Outcome Worker
unfolding read_more drain
run zero net s = blocked
run (suc fuel) net s =
    let round = (do s1 ← read_more s; s2 ← drain fuel net s1; run fuel net s2) in
    if s.run_flag then round else done s
