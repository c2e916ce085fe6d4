-- ===== src/Master/Heartbeat.antt =====
-- kvstore/master/master.h: the heartbeat of a node, and the promotion of a new primary; and the
-- round of kvstore/master/master.cc over the nodes.  `reach` is what `connect` to an address
-- answers, with what the server will send.
pub mod Laws
pub mod Round
use google_cloud_final.Base.{ℕ, Bool, true, false, List, [], ◌∷◌, ◌++◌, map, if◌then◌else◌}
use google_cloud_final.Text.{Bytes, codes}
use google_cloud_final.FileTool.{Sockaddr, ip_to_string}
use google_cloud_final.Connection.{Connection, do_read, do_write, crlf}
use google_cloud_final.Outcome.{Outcome, done, abort, blocked, Option, none, some, ◌>>=◌}
use google_cloud_final.Master.{Node, Master}

-- A line that is sent to a server.
abbrev pub Message : Type 0
Message = Sockaddr × Bytes

-- `contactServer`: the request, a wait for a line of less than 1000 bytes, and a QUIT.  What comes
-- back is not looked at.
unfoldable pub contact_server : Connection → Bytes → Outcome Connection
unfolding do_write do_read
contact_server c request = do
  (result, buf, events) ← do_read 1000 (do_write c request).1.incoming
  done (do_write (record (do_write c request).1 { incoming = events }) (codes "QUIT" ++ crlf)).1

-- What is sent so far, and whether the calls return.
abbrev pub Told : Type 0
Told = List Sockaddr × Outcome (Unit {0})

-- A server is told; if it does not answer, that is the end.
abbrev pub tell_server : Sockaddr → Told → Outcome Connection → Told
tell_server addr rest (done c) = (addr ∷ rest.0, rest.1)
tell_server addr rest abort = (addr ∷ [], abort)
tell_server addr rest blocked = (addr ∷ [], blocked)

-- The servers that `multicastNodes` reaches.  All rounds use one socket, which the destructor of
-- the first connection closes; a `connect` with it fails from then on.
unfoldable pub told : (Sockaddr → Option Connection) → Bytes → Bool → List Sockaddr → Told
unfolding contact_server
told reach command is_open [] = ([], done tt)
told reach command is_open (addr ∷ addrs) =
    let closed = told reach command false addrs in
    let still = told reach command is_open addrs in
    let first : Told = elim (reach addr) [
      | none ↦ still
      | some c ↦ tell_server addr closed (contact_server c command)
    ] in
    if is_open then first else still

abbrev pub promote_line : (ℕ → Bytes) → Sockaddr → Bytes
promote_line inet_ntop addr = codes "PROMOTE " ++ (ip_to_string inet_ntop addr ++ crlf)

-- `multicastNodes`: what is sent, and whether the call returns.
unfoldable pub multicast_nodes :
    (Sockaddr → Option Connection) → Node → Bytes → List Message × Outcome (Unit {0})
unfolding told
multicast_nodes reach n command =
    let (addrs, returns) = told reach command true n.rep_addrs in
    (map (λ addr. (addr, command)) addrs, returns)

-- The loop over the replicas up to one that answers.
unfoldable pub find_primary :
    (Sockaddr → Option Connection) → List Sockaddr → Option (Sockaddr × Connection)
find_primary reach [] = none
find_primary reach (addr ∷ addrs) =
    let later = find_primary reach addrs in
    elim (reach addr) [ none ↦ later | some c ↦ some (addr, c) ]

unfoldable pub promote_new_primary :
    (ℕ → Bytes) → (Sockaddr → Option Connection) → Node → Outcome (Node × List Message)
unfolding find_primary multicast_nodes
promote_new_primary inet_ntop reach n = elim (find_primary reach n.rep_addrs) [
  | none ↦ done (n, [])
  | some (addr, c) ↦
      let (messages, returns) = multicast_nodes reach n (promote_line inet_ntop addr) in
      returns >>= λ _.
      done (record n { primary_addr = addr; conn = some c; running = true }, messages)
]

-- A connection that fails is deleted.
abbrev alive_or_promote :
    (ℕ → Bytes)
    → (Sockaddr → Option Connection)
    → Node
    → Bool × Connection
    → Outcome (Node × List Message)
alive_or_promote inet_ntop reach n (true, c) = done (record n { conn = some c }, [])
alive_or_promote inet_ntop reach n (false, c) =
    promote_new_primary inet_ntop reach (record n { conn = none; running = false })

unfoldable pub heartbeat :
    (ℕ → Bytes) → (Sockaddr → Option Connection) → Node → Outcome (Node × List Message)
unfolding promote_new_primary
heartbeat inet_ntop reach n =
    let ping : Outcome (Node × List Message) = elim n.conn [
      | none ↦ abort
      | some c ↦ alive_or_promote inet_ntop reach n (do_write c (codes "ALIVE" ++ crlf))
    ] in
    if n.running then ping else promote_new_primary inet_ntop reach n

-- One round of the heartbeat thread.
unfoldable pub beat_all :
    (ℕ → Bytes) → (Sockaddr → Option Connection) → List Node → Outcome (List Node × List Message)
unfolding heartbeat
beat_all inet_ntop reach [] = done ([], [])
beat_all inet_ntop reach (n ∷ ns) = do
  (n', sent) ← heartbeat inet_ntop reach n
  (ns', more) ← beat_all inet_ntop reach ns
  done (n' ∷ ns', sent ++ more)

unfoldable pub heartbeat_round :
    (ℕ → Bytes) → (Sockaddr → Option Connection) → Master → Outcome (Master × List Message)
unfolding beat_all
heartbeat_round inet_ntop reach s = do
  (nodes, sent) ← beat_all inet_ntop reach s.nodes_list
  done (record s { nodes_list = nodes }, sent)
