-- ===== src/Worker/KeepsRun.antt =====
-- The commands of the master and of replicas keep the invariant, and so does every run.
use google_cloud_final.Base.{ℕ, ◌≤◌, ◌≡◌, refl, arith}
use google_cloud_final.Text.{Bytes, codes, equal, add64, find, substr, substr_from}
use google_cloud_final.Number.{stol}
use google_cloud_final.FileTool.{string_to_ip, ip_to_string}
use google_cloud_final.ServerState.{ServerState, set_primary_addr}
use google_cloud_final.BackStore.Links.{AllLinked}
use google_cloud_final.Outcome.{Option, or_throw, Ensures, Ensures-bind, Ensures-then, Ensures-if}
use google_cloud_final.Checkpointing.{find_version_num}
use google_cloud_final.DataServer.{Net, Worker, reply}
use google_cloud_final.Worker.Input.{parse_command}
use google_cloud_final.Worker.Recovery.{
  argument, parse_ready, parse_recovery, parse_promote, parse_log, parse_checkpoint,
}
use google_cloud_final.Worker.Dispatch.{
  Verb, quit, put, cput, get, dele, alive, promote, recovery, ready, log, checkpoint, closeall,
  list, unsupported, verb_of, handle, dispatch,
}
use google_cloud_final.Worker.Invariant.{Inv, Good, Kept}
use google_cloud_final.Worker.Keeps.{parse_get-Kept, parse_put-Kept}
use google_cloud_final.Worker.KeepsSwap.{parse_cput-Kept, parse_dele-Kept, parse_list-Kept}
use google_cloud_final.Worker.KeepsLinks.{
  establish_conn-AllLinked, StoreLinked, recover-AllLinked, reconnect-AllLinked, deref-AllLinked,
  with_store,
}

parse_ready-Kept :
    (net : Net) (command : Bytes) (s : Worker)
    → Inv s
    → Ensures (Kept s) (parse_ready net command s)
unfolding parse_ready
parse_ready-Kept net command s inv = Ensures-then (Kept s) (argument command) _ λ address.
    Ensures-bind (λ b. AllLinked b.nodes) (Kept s) _ _
      (deref-AllLinked s.server.primary s.back_store inv.equipped)
      λ b l.
        Ensures-bind StoreLinked (Kept s) _ _
          (reconnect-AllLinked net.inet_ntop net.dial b address l) (λ p k. with_store s p.1 inv k)

parse_recovery-Kept :
    (net : Net) (command : Bytes) (s : Worker)
    → Inv s
    → Ensures (Kept s) (parse_recovery net command s)
unfolding parse_recovery reply
parse_recovery-Kept net command s inv =
    Ensures-then (Kept s) (or_throw (substr_from command (add64 (find command (codes " ")) 1))) _
      λ words.
        Ensures-then (Kept s) (or_throw (substr words 0 (find words (codes " ")))) _ λ address.
          Ensures-bind (λ b. AllLinked b.nodes) (Kept s) _ _
            (deref-AllLinked s.server.primary s.back_store inv.equipped)
            λ b l.
              Ensures-bind StoreLinked (Kept s) _ _ (recover-AllLinked net.inet_ntop b address l)
                λ p k.
                  Ensures-then (Kept s)
                    (or_throw (substr_from words (add64 (find words (codes " ")) 1))) _
                    λ words'.
                      Ensures-then (Kept s) (or_throw (substr words' 0 (find words' (codes " ")))) _
                        λ seq_str. Ensures-then (Kept s) (or_throw (stol seq_str)) _ λ start_seq.
                          Ensures-then (Kept s) (find_version_num s.server s.disk) _
                            (λ version. with_store s p.1 inv k)

abbrev SameRole : ServerState → ServerState → Type 0
SameRole old new = (new.primary ≡ old.primary) × (new.seq_id ≡ old.seq_id)

set_primary_addr-SameRole :
    (inet_pton : Bytes → Option ℕ) (server : ServerState) (address : Bytes)
    → Ensures (SameRole server) (set_primary_addr inet_pton server address)
unfolding set_primary_addr
set_primary_addr-SameRole inet_pton server address =
    Ensures-then (SameRole server) (or_throw (string_to_ip inet_pton server.primary_addr address)) _
      (λ addr. (refl, refl))

same_role :
    (s : Worker) (server : ServerState)
    → Inv s
    → SameRole s.server server
    → Good s.table server.primary s.back_store × (s.server.seq_id ≤ server.seq_id)
same_role s server inv k = (rw (k.0) inv, omega arith)

parse_promote-Kept :
    (net : Net) (command : Bytes) (s : Worker)
    → Inv s
    → Ensures (Kept s) (parse_promote net command s)
unfolding parse_promote reply
parse_promote-Kept net command s inv = Ensures-then (Kept s) (argument command) _ λ address.
    Ensures-if (Kept s) (equal address (ip_to_string net.inet_ntop s.server.my_addr)) _ _
      (
        record {
          sorted = inv.sorted;
          no_null = inv.no_null;
          equipped = establish_conn-AllLinked net.dial s.server.rep_id 0 s.server.server_list;
        },
        omega arith,
      )
      (Ensures-bind (SameRole s.server) (Kept s) _ _
        (set_primary_addr-SameRole net.inet_pton s.server address)
        (λ server k. same_role s server inv k))

handle-Kept :
    (net : Net) (verb : Verb) (command : Bytes) (s : Worker)
    → Inv s
    → Ensures (Kept s) (handle net verb command s)
unfolding handle reply parse_log parse_checkpoint
handle-Kept net quit command s inv = (inv, omega arith)
handle-Kept net put command s inv =
    Ensures-then (Kept s) (parse_command command) _ (λ p. parse_put-Kept p.0 p.1 s inv)
handle-Kept net cput command s inv =
    Ensures-then (Kept s) (parse_command command) _ (λ p. parse_cput-Kept p.0 p.1 s inv)
handle-Kept net get command s inv =
    Ensures-then (Kept s) (parse_command command) _ (λ p. parse_get-Kept p.0 p.1 s inv)
handle-Kept net dele command s inv =
    Ensures-then (Kept s) (parse_command command) _ (λ p. parse_dele-Kept p.0 p.1 s inv)
handle-Kept net alive command s inv = (inv, omega arith)
handle-Kept net promote command s inv = parse_promote-Kept net command s inv
handle-Kept net recovery command s inv = parse_recovery-Kept net command s inv
handle-Kept net ready command s inv = parse_ready-Kept net command s inv
handle-Kept net log command s inv = (inv, omega arith)
handle-Kept net checkpoint command s inv = (inv, omega arith)
handle-Kept net closeall command s inv = tt
handle-Kept net list command s inv = parse_list-Kept s inv
handle-Kept net unsupported command s inv = (inv, omega arith)

-- Whatever the line is, a command that returns keeps the invariant: the table is in order, no cell
-- is a null pointer, a primary has its replicas and a running replica its connection; and the
-- sequence number does not fall.
pub dispatch-Kept :
    (net : Net) (command : Bytes) (s : Worker) → Inv s → Ensures (Kept s) (dispatch net command s)
unfolding dispatch
dispatch-Kept net command s inv = handle-Kept net (verb_of command) command s inv
