-- ===== src/StartUp.antt =====
-- kvstore/dataserver.cc: a data server that starts again asks the master for the primary of its node,
-- and the primary for what it missed.  `connect` answers with the connection, if there is one;
-- which fails only if the peer cannot be reached.  The results of functions that end without a
-- `return` are left out; no caller reads them.
pub mod Log
use google_cloud_final.Base.{
  ℕ, zero, suc, ◌+◌, Bool, true, false, not, List, [], ◌∷◌, ◌++◌, length, leb, ◌==◌, if◌then◌else◌,
}
use google_cloud_final.Text.{Bytes, codes, add64, sub64, equal, find, substr}
use google_cloud_final.Number.{ℤ, pos, print, print_long}
use google_cloud_final.FileTool.{Disk, Sockaddr, ip_to_string, file_exist, write_file, delete_file}
use google_cloud_final.Connection.{Connection, c_str, has_str, crlf, do_read, do_write}
use google_cloud_final.ServerState.{ServerState, set_primary_addr}
use google_cloud_final.DataServer.{BMap}
use google_cloud_final.Checkpointing.{recover_checkpoint, recover_log, last_log_seq, write_to_disk}
use google_cloud_final.Outcome.{Outcome, done, abort, blocked, Option, none, some, ◌>>=◌, or_throw}

-- The server's state, its table and its files.
pub record Node : Type 0 where
  pub server : ServerState
  pub table : BMap
  pub disk : Disk

-- What is not under `src/`, and the peers that can be reached.
pub record Network : Type 0 where
  pub inet_ntop : ℕ → Bytes
  pub inet_pton : Bytes → Option ℕ
  pub connect : Sockaddr → Option Connection

-- `do_write`, whose result is not looked at.
abbrev pub tell : Connection → Bytes → Connection
tell c text = (do_write c text).1

-- One `do_read` in a buffer of 1000 zero bytes, which is then read as a C string.
unfoldable pub read_line : Connection → Outcome (Bytes × Connection)
unfolding do_read c_str
read_line c = do
  (ok, buf, events) ← do_read 1000 c.incoming
  if leb 1000 (length (c_str buf)) then abort else done (c_str buf, record c { incoming = events })

unfoldable pub contact_server : Connection → Bytes → Outcome (Bytes × Connection)
unfolding read_line
contact_server c request = read_line (tell c request)

-- The loops of `receiveCheckpoint` and `receiveLog`: lines up to one with the mark and `\r\n`.
unfoldable pub receive_lines : ℕ → Bytes → Bytes → Connection → Outcome (Bytes × Connection)
unfolding read_line has_str
receive_lines zero mark so_far c = blocked
receive_lines (suc fuel) mark so_far c = do
  (buf, c') ← read_line c
  let more = receive_lines fuel mark (so_far ++ buf) c'
  if has_str buf (mark ++ crlf) then done (so_far ++ buf, c') else more

-- What stands before the mark.
unfoldable pub receive : ℕ → Bytes → Connection → Outcome (Bytes × Connection)
unfolding receive_lines find
receive fuel mark c = do
  (tem, c') ← receive_lines fuel mark [] c
  contents ← or_throw (substr tem 0 (find tem mark))
  done (contents, c')

abbrev pub receive_checkpoint : ℕ → Connection → Outcome (Bytes × Connection)
receive_checkpoint fuel = receive fuel (codes "CHECKPOINT END")

abbrev pub receive_log : ℕ → Connection → Outcome (Bytes × Connection)
receive_log fuel = receive fuel (codes "LOG END")

-- `response.substr(0, response.find(" ")) == "+OK"`
abbrev pub is_ok : Bytes → Outcome Bool
is_ok response = do
  verb ← or_throw (substr response 0 (find response (codes " ")))
  done (equal verb (codes "+OK"))

-- The address of the primary, which the master knows; `none` if there is none.
unfoldable pub ask_primary : Network → ServerState → Outcome (Option ServerState)
unfolding contact_server find set_primary_addr
ask_primary net s = elim (net.connect s.master_addr) [
  | none ↦ done none
  | some c ↦ (do
    (response, c1) ← contact_server c (codes "PRIMARY " ++ (print s.node_id ++ crlf))
    known ← is_ok response
    let found = (do
      let at = find response (codes " ")
      addr ← or_throw (substr response (add64 at 1) (sub64 (sub64 (find response crlf) at) 1))
      s' ← set_primary_addr net.inet_pton s addr
      (last, c2) ← contact_server c1 (codes "QUIT" ++ crlf)
      done (some s'))
    if known then found else done none)
]

-- The own checkpoint and log, if the primary agrees, or the checkpoint of the primary.
unfoldable pub restore : ℕ → Bool → Connection → Node → Outcome (Node × Connection)
unfolding receive recover_checkpoint recover_log write_file
restore fuel agreed c n =
    let own = (do
      t1 ← recover_checkpoint n.server n.disk n.table
      t2 ← recover_log n.server n.disk t1
      done (record n { table = t2 }, c)) in
    let sent = (do
      (contents, c1) ← receive_checkpoint fuel (tell c (codes "CHECKPOINT" ++ crlf))
      let (ok, d) = write_file n.disk n.server.checkpointing_path contents
      t1 ← recover_checkpoint n.server d n.table
      done (record n { table = t1; disk = d }, c1)) in
    if agreed then own else sent

-- The log of the primary, which is replayed.
unfoldable pub catch_up_log : ℕ → Connection → Node → Outcome (Node × Connection)
unfolding receive recover_log write_file
catch_up_log fuel c n = do
  (contents, c1) ← receive_log fuel (tell c (codes "LOG" ++ crlf))
  let (ok, d) = write_file n.disk n.server.log_path contents
  table ← recover_log n.server d n.table
  done (record n { table = table; disk = d }, c1)

unfoldable pub recover_process : ℕ → Network → Node → Outcome (Bool × Node)
unfolding ask_primary restore catch_up_log contact_server ip_to_string last_log_seq
recover_process fuel net n = do
  found ← ask_primary net n.server
  elim found [
    | none ↦ done (false, n)
    | some s ↦ (do
      let asked = record n { server = s }
      seq ← last_log_seq s n.disk
      let my_addr = ip_to_string net.inet_ntop s.my_addr
      elim (net.connect s.primary_addr) [
        | none ↦ done (false, asked)
        | some c ↦ (do
          (response, c1) ←
              contact_server c
                (codes "RECOVERY " ++ (print_long seq ++ (codes " " ++ (my_addr ++ crlf))))
          agreed ← is_ok response
          (n1, c2) ← restore fuel agreed c1 asked
          (n2, c3) ← catch_up_log fuel c2 n1
          done (true, n2))
      ])
  ]

-- The files of a server that does not start again are dropped.
abbrev pub drop_file : Bytes → Disk → Disk
drop_file path d = if file_exist d path then (delete_file d path).1 else d

-- `main`, from the recovery up to the accept loop; `none` ends the process.
unfoldable pub start : ℕ → Network → Node → Outcome (Option Node)
unfolding recover_process file_exist delete_file
start fuel net n =
    let recovered = (do
      (ok, n') ←
          recover_process fuel net (record n { server = record n.server { primary = false } })
      done (if ok then some (record n' { server = record n'.server { status = 1 } }) else none)) in
    let fresh : Outcome (Option Node) = done (
      some (record n {
        server = record n.server { status = 1 };
        disk = drop_file n.server.checkpointing_path (drop_file n.server.log_path n.disk);
      })) in
    if n.server.status == 2 then recovered else fresh

-- One round of the thread that writes checkpoints.
unfoldable pub checkpoint_round : Node → Outcome Node
unfolding write_to_disk
checkpoint_round n =
    let write = (do
      (ok, d) ← write_to_disk n.server n.table n.disk
      done (record n { disk = d })) in
    if n.server.can_checkpoint then write else done n
