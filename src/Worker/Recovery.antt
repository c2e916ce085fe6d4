-- ===== src/Worker/Recovery.antt =====
-- The commands of the master and of a recovering replica: PROMOTE, RECOVERY, READY, LOG,
-- CHECKPOINT.  The debug line of `parse_recovery`, which adds the number to a `char*`, is left
-- out.
use google_cloud_final.Base.{[], ◌++◌, if◌then◌else◌}
use google_cloud_final.Text.{Bytes, codes, add64, sub64, equal, find, substr, substr_from}
use google_cloud_final.Number.{stol, le_long}
use google_cloud_final.FileTool.{read_file, ip_to_string}
use google_cloud_final.ServerState.{
  pause_checkpoint, resume_checkpoint, set_primary, set_primary_addr,
}
use google_cloud_final.BackStore.{new_back_store, reconnect, recover}
use google_cloud_final.Checkpointing.{find_version_num}
use google_cloud_final.Connection.{crlf}
use google_cloud_final.Outcome.{Outcome, done, some, ◌>>=◌, or_throw}
use google_cloud_final.DataServer.{Net, Worker, reply}
use google_cloud_final.Worker.Handlers.{deref}

-- The argument between the first space and the end of the line.
unfoldable pub argument : Bytes → Outcome Bytes
argument command = do
  let start = add64 (find command (codes " ")) 1
  or_throw (substr command start (sub64 (find command crlf) start))

unfoldable pub parse_ready : Net → Bytes → Worker → Outcome Worker
unfolding argument resume_checkpoint
parse_ready net command s = do
  address ← argument command
  b ← deref s.back_store
  (found, b') ← reconnect net.inet_ntop net.dial b address
  done (record s { back_store = some b'; server = resume_checkpoint s.server })

-- The first word behind the verb is taken for the address, the second for the sequence number.
unfoldable pub parse_recovery : Net → Bytes → Worker → Outcome Worker
unfolding pause_checkpoint
parse_recovery net command s = do
  let paused = record s { server = pause_checkpoint s.server }
  words ← or_throw (substr_from command (add64 (find command (codes " ")) 1))
  address ← or_throw (substr words 0 (find words (codes " ")))
  b ← deref s.back_store
  (found, b') ← recover net.inet_ntop b address
  words' ← or_throw (substr_from words (add64 (find words (codes " ")) 1))
  seq_str ← or_throw (substr words' 0 (find words' (codes " ")))
  start_seq ← or_throw (stol seq_str)
  version ← find_version_num s.server s.disk
  let marked = record paused { back_store = some b' }
  done (
      reply marked (
        if le_long version start_seq
        then codes "+OK tansfering log" ++ crlf
        else codes "-ERR tansfering checkpoint file" ++ crlf))

unfoldable pub parse_promote : Net → Bytes → Worker → Outcome Worker
unfolding argument set_primary set_primary_addr new_back_store
parse_promote net command s = do
  address ← argument command
  if equal address (ip_to_string net.inet_ntop s.server.my_addr)
      then done (
          reply
            (record s {
              server = set_primary s.server;
              back_store = some (new_back_store net.dial s.server.server_list s.server.rep_id);
            })
            (codes "+OK" ++ crlf))
      else (do
        server ← set_primary_addr net.inet_pton s.server address
        done (reply (record s { server = server }) (codes "+OK" ++ crlf)))

-- A file that is not there is an empty reply.
unfoldable pub parse_log : Worker → Outcome Worker
parse_log s =
    done (reply (reply s (read_file s.disk s.server.log_path []).1) (codes "LOG END" ++ crlf))

unfoldable pub parse_checkpoint : Worker → Outcome Worker
parse_checkpoint s = done (
    reply (reply s (read_file s.disk s.server.checkpointing_path []).1)
      (codes "CHECKPOINT END" ++ crlf))
