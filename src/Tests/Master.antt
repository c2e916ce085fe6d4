-- ===== src/Tests/Master.antt =====
-- A master with two nodes, on which the theorems are applied.
use google_cloud_final.Base.{
  ℕ, ◌≤◌, ◌≡◌, refl, true, false, List, [], ◌∷◌, ◌++◌, map, length, arith, ◌==◌, if◌then◌else◌, sym,
  Bool-cases, inl, inr,
}
use google_cloud_final.Text.{Bytes, codes, npos}
use google_cloud_final.Text.Search.{Avoids}
use google_cloud_final.Storage.MasterConnect.{address_in}
use google_cloud_final.Storage.MasterConnect.Address.{address_lem}
use google_cloud_final.Master.{server_line}
use google_cloud_final.Number.{print}
use google_cloud_final.FileTool.{Sockaddr, ip_to_string}
use google_cloud_final.Connection.{Connection, got, do_read, crlf}
use google_cloud_final.Outcome.{done, some, none, Ensures}
use google_cloud_final.Master.{Node, Master, reply, place_row}
use google_cloud_final.Master.Where.{Good, Placed, place_row_lem}
use google_cloud_final.StateCheck.{parse_id, parse_all_server}
use google_cloud_final.StateCheck.States.{fields, rows_of}
use google_cloud_final.StateCheck.Listing.{states_text, states_lem}
use google_cloud_final.Master.Commands.{parse_states, Net, parse_primary, run}
use google_cloud_final.Master.Commands.Laws.{primary_line, parse_primary_lem, run-Good}
use google_cloud_final.Master.Heartbeat.{Message, heartbeat, heartbeat_round, multicast_nodes}
use google_cloud_final.Master.Heartbeat.Laws.{
  Reach, AllAnswer, Primary, SameShare, HasConn, heartbeat_lem, multicast_nodes-le,
}
use google_cloud_final.Master.Heartbeat.Round.{EachBeaten, AllHaveConn, heartbeat_round_lem}

abbrev address : ℕ → Sockaddr
address port_number = record { ip = 1; port = port_number }

abbrev inet_ntop : ℕ → Bytes
inet_ntop ip = codes "10.0.0.1"

abbrev open_line : Connection
open_line = record { incoming = []; outgoing = []; sent = [] }

-- A line on which the server answers.
abbrev answering : Connection
answering = record { incoming = got (codes "+OK" ++ crlf) ∷ []; outgoing = []; sent = [] }

-- Only the second server of each node answers.
abbrev reach : Reach
reach addr = if addr.port == 8001 then none else some answering

abbrev net : Net
net = record { inet_ntop = inet_ntop; is_alive = λ addr. true }

abbrev first : Node
first = record {
  rep_addrs = address 8001 ∷ address 8002 ∷ [];
  primary_addr = address 8001;
  node_id = 0;
  row_num = 1;
  running = false;
  conn = none;
}

abbrev second : Node
second = record {
  rep_addrs = address 8003 ∷ [];
  primary_addr = address 8003;
  node_id = 1;
  row_num = 0;
  running = true;
  conn = some open_line;
}

abbrev master : Master
master = record {
  node_index = (codes "bob", 0) ∷ [];
  nodes_list = first ∷ second ∷ [];
  task = record {
    incoming = got (codes "WHERE <ann>" ++ (crlf ++ (codes "QUIT" ++ crlf))) ∷ [];
    outgoing = [];
    sent = [];
  };
}

master-Good : Good master
master-Good = record {
  numbered = (refl, (refl, tt));
  some_node = omega arith;
  in_range = (omega arith, tt);
  counted = (refl, (refl, tt));
  balanced = record {
    low = 0;
    at_least = (omega arith, (omega arith, tt));
    at_most = (omega arith, (omega arith, tt));
  };
}

first-HasConn : HasConn first
first-HasConn on = cc

master-AllHaveConn : AllHaveConn master.nodes_list
master-AllHaveConn = (first-HasConn, ((λ on. (open_line, refl)), tt))

place_row_example :
    (s' : Master) × (place_row inet_ntop (codes "ann") master ≡ done s')
    × Placed inet_ntop (codes "ann") master s'
place_row_example = place_row_lem inet_ntop (codes "ann") master master-Good

whole_session_example : Ensures Good (run 2 net [] true master)
whole_session_example = run-Good 2 net [] true master master-Good

parse_primary_example :
    parse_primary net (primary_line 1) master
    ≡ done
        (reply master (codes "+OK " ++ ((inet_ntop 1 ++ codes ":" ++ print 8003) ++ codes "\r\n")))
parse_primary_example = parse_primary_lem net 1 master (omega arith)

-- What is read of the line that a server sends.
answering-read :
    (c : Connection)
    → answering ≡ c
    → do_read 1000 c.incoming ≡ done (true, codes "+OK" ++ crlf, [])
unfolding do_read
answering-read c e = rw (sym e) refl

reach-AllAnswer : AllAnswer reach
reach-AllAnswer addr c e = elim (Bool-cases (addr.port == 8001)) [
  | inl p ↦ absurd (ground (arith, p, e))
  | inr p ↦ ((true, codes "+OK" ++ crlf, []), answering-read c (ground (arith, p, e)))
]

multicast_example : length (multicast_nodes reach first (codes "PROMOTE")).0 ≤ 1
multicast_example = multicast_nodes-le reach first (codes "PROMOTE")

heartbeat_example :
    (n' : Node) × (sent : List Message) × (heartbeat inet_ntop reach first ≡ done (n', sent))
    × Primary reach first n'
    × SameShare first n'
    × HasConn n'
heartbeat_example = heartbeat_lem inet_ntop reach first reach-AllAnswer first-HasConn

heartbeat_round_example :
    (s' : Master) × (sent : List Message) × (heartbeat_round inet_ntop reach master
      ≡ done (s', sent))
    × EachBeaten reach master.nodes_list s'.nodes_list
    × (s'.node_index ≡ master.node_index)
    × Good s'
    × AllHaveConn s'.nodes_list
heartbeat_round_example =
    heartbeat_round_lem inet_ntop reach master master-Good reach-AllAnswer master-AllHaveConn

states_example :
    ((parse_states net master).task.sent ≡ [] ++ states_text net master)
    × (ls : List Bytes) × (parse_all_server (states_text net master) ≡ done ls)
    × (map parse_id ls ≡ map fields (rows_of net 0 (first ∷ second ∷ [])))
states_example =
    states_lem net master (λ ip. ground arith) refl (unfold ip_to_string print in omega arith)

no_open : Avoids 60 (ip_to_string inet_ntop second.primary_addr)
unfolding ip_to_string print
no_open = omega arith

no_close : Avoids 62 (ip_to_string inet_ntop second.primary_addr)
unfolding ip_to_string print
no_close = omega arith

short_line : length (server_line inet_ntop second) ≤ npos
unfolding ip_to_string print
short_line = omega arith

address_example :
    address_in (server_line inet_ntop second) ≡ done (ip_to_string inet_ntop second.primary_addr)
address_example = address_lem inet_ntop second no_open no_close short_line
