-- ===== src/Master.antt =====
-- kvstore/master/masterWorker.cc and kvstore/master/master.h: where the rows are.  A worker of the
-- master runs each command whole: the mutex is not modelled.  `row_num` is an `int` that starts
-- at 0 and only grows, so it is a natural number; the 2^31st row is out of reach.
pub mod Nodes
pub mod Counts
pub mod Where
pub mod Commands
pub mod Heartbeat
use google_cloud_final.Base.{
  ℕ, zero, suc, ◌+◌, Bool, true, false, List, [], ◌∷◌, ◌++◌, length, ltb, get_elem?, if◌then◌else◌,
}
use google_cloud_final.Text.{Bytes, codes, add64, sub64, find, substr}
use google_cloud_final.Map.{Map, lookup, insert}
use google_cloud_final.FileTool.{Sockaddr, ip_to_string}
use google_cloud_final.Connection.{Connection, do_write, crlf}
use google_cloud_final.Outcome.{Outcome, done, abort, Option, none, some, ◌>>=◌, or_throw}

pub record Node : Type 0 where
  pub rep_addrs : List Sockaddr
  pub primary_addr : Sockaddr
  pub node_id : ℕ
  pub row_num : ℕ
  pub running : Bool
  pub conn : Option Connection

-- The globals of the master, and the connection of one worker.
pub record Master : Type 0 where
  pub node_index : Map ℕ
  pub nodes_list : List Node
  pub task : Connection

unfoldable pub reply : Master → Bytes → Master
reply s text = record s { task = (do_write s.task text).1 }

-- The loop for the node with the least rows: `min`, and `minID`.
unfoldable pub least : ℕ → ℕ → List Node → ℕ
least min min_id [] = min_id
least min min_id (n ∷ ns) =
    let better = least n.row_num n.node_id ns in
    let same = least min min_id ns in if ltb n.row_num min then better else same

-- `nodes_list[id].row_num = nodes_list[id].row_num + 1`
unfoldable pub add_row : ℕ → List Node → List Node
add_row id [] = []
add_row zero (n ∷ ns) = record n { row_num = n.row_num + 1 } ∷ ns
add_row (suc id) (n ∷ ns) = n ∷ add_row id ns

-- `nodes_list[0]`
abbrev pub first_node : List Node → Outcome Node
first_node [] = abort
first_node (n ∷ ns) = done n

-- What stands between the first `<` and the first `>` of a WHERE.
unfoldable pub where_row : Bytes → Outcome Bytes
where_row command =
    let start = add64 (find command (codes "<")) 1 in
    or_throw (substr command start (sub64 (find command (codes ">")) start))

abbrev pub server_line : (ℕ → Bytes) → Node → Bytes
server_line inet_ntop n =
    codes "SERVER <" ++ (ip_to_string inet_ntop n.primary_addr ++ (codes ">" ++ crlf))

-- A row that is not known goes to the node with the least rows; one that is known stays.
unfoldable pub place_row : (ℕ → Bytes) → Bytes → Master → Outcome Master
unfolding least add_row reply
place_row inet_ntop row s = elim (lookup row s.node_index) [
  | none ↦ (do
    first ← first_node s.nodes_list
    let min_id = least first.row_num 0 s.nodes_list
    n ← or_throw (get_elem? s.nodes_list min_id)
    let placed = record s {
      node_index = insert row min_id s.node_index;
      nodes_list = add_row min_id s.nodes_list;
    }
    done (reply placed (server_line inet_ntop n)))
  | some id ↦ (do
    n ← or_throw (get_elem? s.nodes_list id)
    done (reply s (server_line inet_ntop n)))
]

unfoldable pub parse_where : (ℕ → Bytes) → Bytes → Master → Outcome Master
unfolding where_row place_row
parse_where inet_ntop command s = do row ← where_row command; place_row inet_ntop row s
