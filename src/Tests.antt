-- ===== src/Tests.antt =====
-- A primary data server with one replica and one cell, on which the theorems are applied.
mod Master
mod Files
mod Mail
mod Services
mod Start
mod Threads
mod Web
use google_cloud_final.Base.{ℕ, ◌≡◌, refl, true, false, List, [], ◌∷◌, ◌++◌, map, some, arith}
use google_cloud_final.Text.{Bytes, codes, equal, find, substr}
use google_cloud_final.Text.Lines.{lines}
use google_cloud_final.Map.{has, lookup}
use google_cloud_final.Number.{pos, print, stol}
use google_cloud_final.Number.RoundTrip.{stol-print}
use google_cloud_final.RowCol.{row_col}
use google_cloud_final.RowCol.Laws.{line, row_col_lem}
use google_cloud_final.FileTool.{Disk, Sockaddr, ip_to_string}
use google_cloud_final.Connection.{Connection, got, do_read, do_write, crlf}
use google_cloud_final.Connection.Writes.{do_write_lem}
use google_cloud_final.ServerState.{ServerState}
use google_cloud_final.BackStore.{Replicate, BackStore, Dial, running, redial}
use google_cloud_final.BackStore.Links.{AllLinked, replica_at}
use google_cloud_final.BackStore.HoldBack.{
  Update, put, delete, line_of, concat, catch_up, catch_up_lem,
}
use google_cloud_final.Outcome.{Outcome, done}
use google_cloud_final.DataServer.{reply, BMap, set_str, Net, Worker}
use google_cloud_final.DataServer.Table.{set_cell, cell_at}
use google_cloud_final.Checkpointing.{
  write_to_disk, recover_checkpoint, find_version_num, reply_checkpoint_command, put_line, end_mark,
}
use google_cloud_final.Checkpointing.Entries.{IsName, IsStorable, reply_checkpoint_command_lem}
use google_cloud_final.Checkpointing.Replay.{TableFits}
use google_cloud_final.Checkpointing.Recovery.{checkpoint_recovers, find_version_num_lem}
use google_cloud_final.Worker.Handlers.{parse_get, store_put, decide_cput, parse_dele}
use google_cloud_final.Worker.Dispatch.{dispatch, run}
use google_cloud_final.Worker.Invariant.{Inv}
use google_cloud_final.Worker.Effects.{Swapped, decide_cput_lem, store_put_lem}
use google_cloud_final.Worker.Deletion.{Deleted, parse_dele_lem}
use google_cloud_final.Worker.Input.{parse_command}
use google_cloud_final.Worker.KeepsRun.{dispatch-Kept}

abbrev address : Sockaddr
address = record { ip = 1; port = 80 }

abbrev inet_ntop : ℕ → Bytes
inet_ntop ip = codes "10.0.0.1"

abbrev pub open_line : Connection
open_line = record { incoming = []; outgoing = []; sent = [] }

abbrev dial : Dial
dial addr = some open_line ∷ []

abbrev net : Net
net = record { inet_ntop = inet_ntop; inet_pton = λ s. some 1; dial = dial }

abbrev replica : Replicate
replica = record { addr = address; state = running; hold_back = []; connection = some open_line }

abbrev replicas : BackStore
replicas = record { nodes = replica ∷ []; my_id = 1 }

abbrev server : ServerState
server = record {
  primary = true;
  node_id = 0;
  rep_id = 1;
  server_list = address ∷ [];
  status = 1;
  seq_id = 4;
  can_checkpoint = true;
  file_path = codes "n";
  log_path = codes "n/log.txt";
  checkpointing_path = codes "n/checkpoint.txt";
  my_addr = address;
  master_addr = address;
  primary_addr = address;
}

abbrev mail : Bytes
mail = codes "hello\n"

abbrev table : BMap
table = (codes "bob", (codes "m1", some mail) ∷ []) ∷ []

abbrev disk : Disk
disk = record { files = []; writable = λ path. true }

abbrev pub worker : Worker
worker = record {
  table = table;
  server = server;
  disk = disk;
  back_store = some replicas;
  task = record {
    incoming = got (codes "GET <bob> <m1>" ++ (crlf ++ (codes "QUIT" ++ crlf))) ∷ [];
    outgoing = [];
    sent = [];
  };
  w = set_str [];
  run_flag = true;
}

worker-Inv : Inv worker
worker-Inv = record {
  sorted = record { keys = (tt, tt); rows = ((tt, tt), tt) };
  no_null = (tt, tt);
  equipped = (tt, tt);
}

bob-IsName : IsName (codes "bob")
bob-IsName = record { no_close = omega arith; no_newline = omega arith }

m1-IsName : IsName (codes "m1")
m1-IsName = record { no_close = omega arith; no_newline = omega arith }

mail-IsStorable : IsStorable mail
unfolding lines equal
mail-IsStorable = (refl, (refl, tt))

table-TableFits : TableFits table
table-TableFits = (
  bob-IsName,
  (record { col_name = m1-IsName; fits = omega arith; storable = mail-IsStorable }, tt),
  tt,
)

files_differ : equal server.log_path server.checkpointing_path ≡ false
unfolding equal
files_differ = refl

decide_cput_example :
    (s' : Worker) × (decide_cput (codes "bob") (codes "m1") mail (codes "new\n") worker ≡ done s')
    × Swapped (codes "bob") (codes "m1") mail (codes "new\n") worker s'
decide_cput_example =
    decide_cput_lem (codes "bob") (codes "m1") mail (codes "new\n") worker worker-Inv

checkpoint_example :
    (d' : Disk) × (write_to_disk server table disk ≡ done (true, d'))
    × ((t' : BMap) × (recover_checkpoint server d' [] ≡ done t')
        × ((r c : Bytes) → cell_at t' r c ≡ cell_at table r c))
checkpoint_example =
    checkpoint_recovers server disk table table-TableFits refl files_differ worker-Inv.sorted

entry_example :
    reply_checkpoint_command (put_line (codes "bob") (codes "m1") ++ (mail ++ end_mark)) []
    ≡ done (set_cell [] (codes "bob") (codes "m1") mail)
entry_example =
    reply_checkpoint_command_lem (codes "bob") (codes "m1") mail [] bob-IsName m1-IsName
      (omega arith) mail-IsStorable

abbrev updates : List Update
updates = put (codes "bob") (codes "m1") mail 5 ∷ delete (codes "bob") (codes "m1") 6 ∷ []

found : replica_at (ip_to_string inet_ntop) (codes "10.0.0.1:80") replicas.nodes ≡ some replica
unfolding ip_to_string equal print
found = refl

answered : redial (dial address) ≡ done open_line
unfolding redial
answered = refl

catch_up_example :
    (b' : BackStore) × (catch_up inet_ntop dial (codes "10.0.0.1:80") updates replicas ≡ done b')
    × (replica_at (ip_to_string inet_ntop) (codes "10.0.0.1:80") b'.nodes
        ≡ some (record replica {
          state = running;
          hold_back = [];
          connection = some (record open_line { sent = [] ++ concat ([] ++ map line_of updates) });
        }))
    × AllLinked b'.nodes
catch_up_example =
    catch_up_lem inet_ntop dial (codes "10.0.0.1:80") updates replicas replica open_line (tt, tt)
      found answered refl

-- A GET and a QUIT: the run ends.
abbrev ended_run : Outcome Worker
ended_run = run 4 net worker

abbrev sent_by : Outcome Worker → Bytes
sent_by (done s) = s.task.sent
sent_by _ = []

run_answers :
    sent_by ended_run ≡ codes "DATA\r\n" ++ (mail ++ codes ".\r\n+OK server signing off\r\n")
unfolding run do_read parse_command substr find row_col parse_get lookup equal reply do_write
run_answers = refl

store_put_example :
    store_put table (codes "bob") (codes "m2") mail
    ≡ done (set_cell table (codes "bob") (codes "m2") mail)
unfolding has equal
store_put_example = store_put_lem table (codes "bob") (codes "m2") mail (tt, tt)

stol_example : stol (print 120 ++ crlf) ≡ some (pos 120)
stol_example = stol-print 120 crlf (omega arith) refl

parse_dele_example :
    (s' : Worker) × (parse_dele (codes "bob") (codes "m1") worker ≡ done s')
    × Deleted (codes "bob") (codes "m1") worker s'
parse_dele_example = parse_dele_lem (codes "bob") (codes "m1") worker worker-Inv refl

do_write_example :
    (left : Bytes) × ((do_write worker.task (codes "+OK")).1.sent ++ left ≡ [] ++ codes "+OK")
    × ((do_write worker.task (codes "+OK")).0 ≡ true → left ≡ [])
do_write_example = do_write_lem worker.task (codes "+OK")

row_col_example :
    row_col (line [] (codes "bob") (line (codes " ") (codes "m1") crlf))
    ≡ some (codes "bob", codes "m1")
row_col_example =
    row_col_lem [] (codes "bob") (codes " ") (codes "m1") crlf (omega arith) (omega arith)
      (omega arith) (omega arith) (omega arith) (omega arith) (omega arith) (omega arith)
