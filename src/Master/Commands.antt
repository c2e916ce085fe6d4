-- ===== src/Master/Commands.antt =====
-- kvstore/master/masterWorker.cc: the other commands, and the main loop.  Its `strnicmp` and its
-- `reply` are those of kvstore/Worker.cc.  `isAlive` is a parameter: whether a connection to the
-- address succeeds.
pub mod Laws
use google_cloud_final.Base.{
  ℕ, zero, suc, ◌+◌, Bool, true, false, List, [], ◌∷◌, ◌++◌, length, take, drop, ltb, get_elem?,
  if◌then◌else◌,
}
use google_cloud_final.Text.{Bytes, codes, add64, sub64, find, position, substr}
use google_cloud_final.Map.{Map}
use google_cloud_final.Number.{ℤ, pos, negsuc, atoi, print}
use google_cloud_final.FileTool.{Sockaddr, ip_to_string}
use google_cloud_final.Connection.{c_str, do_read, crlf}
use google_cloud_final.Outcome.{Outcome, done, abort, blocked, Option, none, some, ◌>>=◌, or_throw}
use google_cloud_final.Worker.Input.{strnicmp}
use google_cloud_final.Master.{Node, Master, reply, parse_where}

-- What is not under `src/`: the printed form of an address, and who answers.
pub record Net : Type 0 where
  pub inet_ntop : ℕ → Bytes
  pub is_alive : Sockaddr → Bool

-- The answer for a node, if there is one.
abbrev pub primary_answer : (ℕ → Bytes) → Option Node → Bytes
primary_answer inet_ntop none = codes "-ERR" ++ crlf
primary_answer inet_ntop (some n) = codes "+OK " ++ (ip_to_string inet_ntop n.primary_addr ++ crlf)

-- The node of a number; there is none for a negative one or one that is too large.
abbrev pub node_of : List Node → ℤ → Option Node
node_of nodes (pos id) = get_elem? nodes id
node_of nodes (negsuc id) = none

unfoldable pub parse_primary : Net → Bytes → Master → Outcome Master
parse_primary net command s = do
  let start = add64 (find command (codes " ")) 1
  text ← or_throw (substr command start (sub64 (find command crlf) start))
  id ← or_throw (atoi text)
  done (reply s (primary_answer net.inet_ntop (node_of s.nodes_list id)))

-- The loop over the index.
unfoldable pub list_rows : Map ℕ → Master → Master
list_rows [] s = s
list_rows ((row, id) ∷ index) s = list_rows index (reply s (row ++ crlf))

unfoldable pub parse_list : Master → Master
unfolding list_rows
parse_list s = reply (list_rows s.node_index s) (b'.' ∷ crlf)

abbrev pub state_line : Net → ℕ → ℕ → Sockaddr → Bytes
state_line net i j addr =
    let state = if net.is_alive addr then codes "alive" else codes "down" in
    print i
    ++ (codes "|"
        ++ (print j
            ++ (codes "|"
                ++ (ip_to_string net.inet_ntop addr ++ (codes "|" ++ (state ++ codes "\n"))))))

-- The loop over the servers of node `i`, from number `j` on.
unfoldable pub states_of_node : Net → ℕ → ℕ → List Sockaddr → Master → Master
states_of_node net i j [] s = s
states_of_node net i j (addr ∷ addrs) s =
    states_of_node net i (suc j) addrs (reply s (state_line net i j addr))

unfoldable pub states_of_nodes : Net → ℕ → List Node → Master → Master
unfolding states_of_node
states_of_nodes net i [] s = s
states_of_nodes net i (n ∷ ns) s =
    states_of_nodes net (suc i) ns (states_of_node net i 0 n.rep_addrs s)

unfoldable pub parse_states : Net → Master → Master
unfolding states_of_nodes
parse_states net s = reply (states_of_nodes net 0 s.nodes_list s) crlf

abbrev is_verb : Bytes → Bytes → Bool
is_verb command verb = strnicmp command verb (length verb)

pub data Verb : Type 0 where
  quit place primary list states unsupported : Verb

-- The tests of `run`, in their order.
unfoldable pub verb_of : Bytes → Verb
unfolding strnicmp
verb_of command =
    if is_verb command (codes "QUIT")
    then quit
    else if is_verb command (codes "WHERE")
    then place
    else if is_verb command (codes "PRIMARY")
    then primary
    else if is_verb command (codes "LIST")
    then list
    else if is_verb command (codes "STATES")
    then states
    else unsupported

-- What `run` does for a command: whether it goes on, and the state.
unfoldable pub handle : Net → Verb → Bytes → Master → Outcome (Bool × Master)
handle net quit command s = done (false, reply s (codes "+OK server signing off" ++ crlf))
handle net place command s = do s' ← parse_where net.inet_ntop command s; done (true, s')
handle net primary command s = do s' ← parse_primary net command s; done (true, s')
handle net list command s = done (true, parse_list s)
handle net states command s = done (true, parse_states net s)
handle net unsupported command s = done (true, reply s (codes "-ERR Not supported" ++ crlf))

unfoldable pub dispatch : Net → Bytes → Master → Outcome (Bool × Master)
unfolding verb_of handle
dispatch net command s = handle net (verb_of command) command s

-- The inner loop: what is left of the waiting area, the run flag, and the state.  A byte of the
-- waiting area is taken in each round.
unfoldable pub drain : ℕ → Net → Bytes → Bool → Master → Outcome (Bytes × Bool × Master)
unfolding dispatch
drain zero net wait flag s = blocked
drain (suc fuel) net wait flag s = elim (position crlf wait) [
  | none ↦ done (wait, flag, s)
  | some at ↦ (do
    (go_on, s') ← dispatch net (take (at + 2) wait) s
    drain fuel net (drop (at + 2) wait) (if go_on then flag else false) s')
]

-- The size of each buffer.
abbrev pub rlen : ℕ
rlen = 1000

-- `strcat(wait, buf)`, which must leave room for the zero behind.
abbrev pub strcat : Bytes → Bytes → Outcome Bytes
strcat wait buf = if ltb (length wait + length buf) rlen then done (wait ++ buf) else abort

-- The main loop; `blocked` also stands for a run whose fuel is used up.
unfoldable pub run : ℕ → Net → Bytes → Bool → Master → Outcome Master
unfolding drain
run zero net wait flag s = blocked
run (suc fuel) net wait flag s =
    let round = (do
      (result, buf, events) ← do_read rlen s.task.incoming
      wait' ← strcat wait (c_str buf)
      (left, flag', s') ←
          drain (suc (length wait')) net wait' flag
            (record s { task = record s.task { incoming = events } })
      run fuel net left flag' s') in
    if flag then round else done s
