-- ===== src/Worker/KeepsLinks.antt =====
-- The replicas of a primary keep their connections.
use google_cloud_final.Base.{
  ℕ, suc, ◌≤◌, Bool, true, false, List, [], ◌∷◌, arith, ◌==◌, Bool-cases, inl, inr,
}
use google_cloud_final.Text.{Bytes, equal}
use google_cloud_final.FileTool.{Sockaddr, ip_to_string}
use google_cloud_final.Connection.{Connection}
use google_cloud_final.BackStore.{
  BackStore, Replicate, Dial, new_replicate, establish_conn, at_address, revive, redial, recover,
  reconnect, set_recovering,
}
use google_cloud_final.BackStore.Links.{Linked, AllLinked}
use google_cloud_final.Outcome.{
  Outcome, Option, none, some, Ensures, Ensures-bind, Ensures-then, Ensures-if,
}
use google_cloud_final.DataServer.{Worker}
use google_cloud_final.Worker.Handlers.{deref}
use google_cloud_final.Worker.Invariant.{Inv, Good, Equipped}

new_replicate-Linked :
    (addr : Sockaddr) (answer : Option Connection)
    → Linked (new_replicate addr answer).state (new_replicate addr answer).connection
unfolding new_replicate
new_replicate-Linked addr none = tt
new_replicate-Linked addr (some c) = tt

pub establish_conn-AllLinked :
    (dial : Dial) (my_id i : ℕ) (addrs : List Sockaddr)
    → AllLinked (establish_conn dial my_id i addrs)
unfolding establish_conn
establish_conn-AllLinked dial my_id i [] = tt
establish_conn-AllLinked dial my_id i (addr ∷ rest) = elim (Bool-cases (i == my_id)) [
  | inl e ↦ rw e (establish_conn-AllLinked dial my_id (suc i) rest)
  | inr e ↦ rw e (new_replicate-Linked addr _, establish_conn-AllLinked dial my_id (suc i) rest)
]

abbrev NodesLinked : Bool × List Replicate → Type 0
NodesLinked p = AllLinked p.1

abbrev pub StoreLinked : Bool × BackStore → Type 0
StoreLinked p = AllLinked p.1.nodes

abbrev ReplicateLinked : Replicate → Type 0
ReplicateLinked r = Linked r.state r.connection

-- A change at an address that keeps the links.
at_address-AllLinked :
    (show_addr : Sockaddr → Bytes) (address : Bytes) (f : Replicate → Outcome Replicate)
    (nodes : List Replicate)
    → ((r : Replicate) → Ensures ReplicateLinked (f r))
    → AllLinked nodes
    → Ensures NodesLinked (at_address show_addr address f nodes)
unfolding at_address
at_address-AllLinked show_addr address f [] h l = tt
at_address-AllLinked show_addr address f (r ∷ rs) h l =
    Ensures-if NodesLinked (equal (show_addr r.addr) address) _ _
      (Ensures-bind ReplicateLinked NodesLinked _ _ (h r) (λ r' k. (k, l.1)))
      (Ensures-bind NodesLinked NodesLinked _ _ (at_address-AllLinked show_addr address f rs h l.1)
        (λ p k. (l.0, k)))

pub recover-AllLinked :
    (inet_ntop : ℕ → Bytes) (b : BackStore) (address : Bytes)
    → AllLinked b.nodes
    → Ensures StoreLinked (recover inet_ntop b address)
unfolding recover set_recovering
recover-AllLinked inet_ntop b address l =
    Ensures-bind NodesLinked StoreLinked _ _
      (at_address-AllLinked (ip_to_string inet_ntop) address set_recovering b.nodes (λ r. tt) l)
      (λ p k. k)

pub reconnect-AllLinked :
    (inet_ntop : ℕ → Bytes) (dial : Dial) (b : BackStore) (address : Bytes)
    → AllLinked b.nodes
    → Ensures StoreLinked (reconnect inet_ntop dial b address)
unfolding reconnect revive
reconnect-AllLinked inet_ntop dial b address l =
    Ensures-bind NodesLinked StoreLinked _ _
      (at_address-AllLinked (ip_to_string inet_ntop) address (revive dial) b.nodes
        (λ r. Ensures-then ReplicateLinked (redial (dial r.addr)) _ (λ c. tt)) l)
      (λ p k. k)

Equipped-some : (primary : Bool) (b : BackStore) → AllLinked b.nodes → Equipped primary (some b)
Equipped-some true b l = l
Equipped-some false b l = l

pub deref-AllLinked :
    (primary : Bool) (store : Option BackStore)
    → Equipped primary store
    → Ensures (λ b. AllLinked b.nodes) (deref store)
deref-AllLinked true none h = absurd h
deref-AllLinked false none h = tt
deref-AllLinked true (some b) h = h
deref-AllLinked false (some b) h = h

pub with_store :
    (s : Worker) (b : BackStore)
    → Inv s
    → AllLinked b.nodes
    → Good s.table s.server.primary (some b) × (s.server.seq_id ≤ s.server.seq_id)
with_store s b inv l = (
  record {
    sorted = inv.sorted;
    no_null = inv.no_null;
    equipped = Equipped-some s.server.primary b l;
  },
  omega arith,
)
