-- ===== src/BackStore.antt =====
-- kvstore/backStore.h and kvstore/backStore.cc: the primary's view of the replicas of its node.
-- The member `connections` is written and never read, and is left out.  `socket` is taken to
-- succeed.  What the calls of `connect` to an address answer is a list: a connection, or `none`.
pub mod Links
pub mod HoldBack
use google_cloud_final.Base.{
  ℕ, zero, suc, Bool, true, false, List, [], ◌∷◌, ◌++◌, if◌then◌else◌, ◌==◌,
}
use google_cloud_final.Text.{Bytes, codes, equal}
use google_cloud_final.Number.{ℤ, pos, print_long}
use google_cloud_final.FileTool.{Sockaddr, ip_to_string}
use google_cloud_final.Connection.{Connection, do_write, crlf}
use google_cloud_final.Outcome.{Outcome, done, abort, blocked, Option, none, some, ◌>>=◌}

-- 1-running 2-recovering 3-fail
pub data ReplicateState : Type 0 where
  running recovering failed : ReplicateState

pub record Replicate : Type 0 where
  pub addr : Sockaddr
  pub state : ReplicateState
  pub hold_back : List Bytes
  pub connection : Option Connection

pub record BackStore : Type 0 where
  pub nodes : List Replicate
  pub my_id : ℕ

abbrev pub Dial : Type 0
Dial = Sockaddr → List (Option Connection)

abbrev first_answer : List (Option Connection) → Option Connection
first_answer [] = none
first_answer (c ∷ cs) = c

unfoldable pub new_replicate : Sockaddr → Option Connection → Replicate
new_replicate addr none = record { addr = addr; state = failed; hold_back = []; connection = none }
new_replicate addr (some c) = record {
  addr = addr;
  state = running;
  hold_back = [];
  connection = some c;
}

-- The loop over the addresses from index `i`, which passes over the server itself.
unfoldable pub establish_conn : Dial → ℕ → ℕ → List Sockaddr → List Replicate
unfolding new_replicate
establish_conn dial my_id i [] = []
establish_conn dial my_id i (addr ∷ rest) =
    let others = establish_conn dial my_id (suc i) rest in
    if i == my_id then others else new_replicate addr (first_answer (dial addr)) ∷ others

-- The constructor.
unfoldable pub new_back_store : Dial → List Sockaddr → ℕ → BackStore
unfolding establish_conn
new_back_store dial list my_id = record { nodes = establish_conn dial my_id 0 list; my_id = my_id }

unfoldable pub push_line : Bytes → Bytes → Bytes → ℕ → Bytes
unfolding print_long
push_line row col contents seq =
    codes "PUT <"
    ++ (row
        ++ (codes "> <"
            ++ (col
                ++ (codes ">"
                    ++ (crlf ++ (print_long (pos seq) ++ (crlf ++ (contents ++ (b'.' ∷ crlf)))))))))

unfoldable pub poll_line : Bytes → Bytes → ℕ → Bytes
unfolding print_long
poll_line row col seq =
    codes "DELETE <"
    ++ (row ++ (codes "> <" ++ (col ++ (codes ">" ++ (crlf ++ (print_long (pos seq) ++ crlf))))))

abbrev pub written : Replicate → Bool × Connection → Replicate
written r sent = record r { connection = some sent.1; state = if sent.0 then r.state else failed }

-- What `push` does for one replica, by its state; a running one with no connection is a null
-- dereference.
pub push_in : ReplicateState → Option Connection → Bytes → Replicate → Outcome Replicate
push_in running none command r = abort
push_in running (some c) command r = done (written r (do_write c command))
push_in recovering _ command r = done (record r { hold_back = r.hold_back ++ command ∷ [] })
push_in failed _ command r = done r

unfoldable pub push_one : Bytes → Replicate → Outcome Replicate
unfolding push_in
push_one command r = push_in r.state r.connection command r

-- `poll` passes over a running replica with no connection.
pub poll_in : ReplicateState → Option Connection → Bytes → Replicate → Outcome Replicate
poll_in running none command r = done r
poll_in running (some c) command r = done (written r (do_write c command))
poll_in recovering _ command r = done (record r { hold_back = r.hold_back ++ command ∷ [] })
poll_in failed _ command r = done r

unfoldable pub poll_one : Bytes → Replicate → Outcome Replicate
unfolding poll_in
poll_one command r = poll_in r.state r.connection command r

unfoldable pub for_each :
    (Replicate → Outcome Replicate) → List Replicate → Outcome (List Replicate)
for_each f [] = done []
for_each f (r ∷ rs) = do r' ← f r; rs' ← for_each f rs; done (r' ∷ rs')

unfoldable pub push : BackStore → Bytes → Bytes → Bytes → ℕ → Outcome BackStore
unfolding for_each
push b row col contents seq = do
  nodes ← for_each (push_one (push_line row col contents seq)) b.nodes
  done (record b { nodes = nodes })

unfoldable pub poll : BackStore → Bytes → Bytes → ℕ → Outcome BackStore
unfolding for_each
poll b row col seq = do
  nodes ← for_each (poll_one (poll_line row col seq)) b.nodes
  done (record b { nodes = nodes })

-- The loop that sends the held back commands; what `do_write` answers is not looked at.
unfoldable pub send_all : Connection → List Bytes → Connection
send_all c [] = c
send_all c (command ∷ rest) = send_all (do_write c command).1 rest

-- `connect` is tried until it succeeds.
unfoldable pub redial : List (Option Connection) → Outcome Connection
redial [] = blocked
redial (none ∷ answers) = redial answers
redial (some c ∷ answers) = done c

unfoldable pub revive : Dial → Replicate → Outcome Replicate
unfolding redial
revive dial r = do
  c ← redial (dial r.addr)
  done (record r { connection = some (send_all c r.hold_back); hold_back = []; state = running })

-- The replica with the address, changed by `f`, and whether there is one.
unfoldable pub at_address :
    (Sockaddr → Bytes)
    → Bytes
    → (Replicate → Outcome Replicate)
    → List Replicate
    → Outcome (Bool × List Replicate)
at_address show_addr address f [] = done (false, [])
at_address show_addr address f (r ∷ rs) =
    let hit = (do r' ← f r; done (true, r' ∷ rs)) in
    let miss = (do (found, rs') ← at_address show_addr address f rs; done (found, r ∷ rs')) in
    if equal (show_addr r.addr) address then hit else miss

unfoldable pub reconnect : (ℕ → Bytes) → Dial → BackStore → Bytes → Outcome (Bool × BackStore)
unfolding at_address revive
reconnect inet_ntop dial b address = do
  (found, nodes) ← at_address (ip_to_string inet_ntop) address (revive dial) b.nodes
  done (found, record b { nodes = nodes })

unfoldable pub set_recovering : Replicate → Outcome Replicate
set_recovering r = done (record r { state = recovering })

unfoldable pub recover : (ℕ → Bytes) → BackStore → Bytes → Outcome (Bool × BackStore)
unfolding at_address set_recovering
recover inet_ntop b address = do
  (found, nodes) ← at_address (ip_to_string inet_ntop) address set_recovering b.nodes
  done (found, record b { nodes = nodes })
