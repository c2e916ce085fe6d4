-- ===== src/Master/Heartbeat/Laws.antt =====
-- The primary after a heartbeat, and how many replicas hear of it.
use google_cloud_final.Base.{
  ℕ, suc, ◌≤◌, ◌≡◌, refl, sym, ap, ◌∙◌, Bool, true, false, List, [], ◌∷◌, ◌++◌, length, map, arith,
  if◌then◌else◌, inl, inr, Option-cases, Bool-cases,
}
use google_cloud_final.Text.{Bytes, codes}
use google_cloud_final.FileTool.{Sockaddr}
use google_cloud_final.Connection.{Connection, ReadEvent, do_read, do_write, crlf}
use google_cloud_final.Outcome.{Outcome, done, abort, blocked, Option, none, some}
use google_cloud_final.Master.{Node}
use google_cloud_final.Master.Heartbeat.{
  Message, Told, tell_server, contact_server, told, multicast_nodes, promote_line, find_primary,
  promote_new_primary, alive_or_promote, heartbeat,
}

abbrev pub Reach : Type 0
Reach = Sockaddr → Option Connection

-- None of the addresses answers.
abbrev pub NoneAnswers : Reach → List Sockaddr → Type 0
NoneAnswers reach [] = Unit {0}
NoneAnswers reach (a ∷ addrs) = (reach a ≡ none) × NoneAnswers reach addrs

-- The first address that answers, and its connection.
pub record FirstAnswer (reach : Reach) (addrs : List Sockaddr) (addr : Sockaddr) (c : Connection)
    : Type 0 where
  pub before : List Sockaddr
  pub after : List Sockaddr
  pub splits : addrs ≡ before ++ addr ∷ after
  pub silent : NoneAnswers reach before
  pub replies : reach addr ≡ some c

find_primary-none :
    (reach : Reach) (addrs : List Sockaddr)
    → find_primary reach addrs ≡ none
    → NoneAnswers reach addrs
unfolding find_primary
find_primary-none reach [] e = tt
find_primary-none reach (a ∷ addrs) e = elim (Option-cases (reach a)) [
  | inl h ↦ (h, find_primary-none reach addrs (ground (arith, h, e)))
  | inr (c, h) ↦ ground (arith, h, e)
]

find_primary-some :
    (reach : Reach) (addrs : List Sockaddr) (addr : Sockaddr) (c : Connection)
    → find_primary reach addrs ≡ some (addr, c)
    → FirstAnswer reach addrs addr c
unfolding find_primary
find_primary-some reach [] addr c e = cc
find_primary-some reach (a ∷ addrs) addr c e = elim (Option-cases (reach a)) [
  | inl h ↦
      let rest = find_primary-some reach addrs addr c (ground (arith, h, e)) in
      record {
        before = a ∷ rest.before;
        after = rest.after;
        splits = ap (λ l. a ∷ l) rest.splits;
        silent = (h, rest.silent);
        replies = rest.replies;
      }
  | inr (d, h) ↦
      let same_addr : a ≡ addr = ground (arith, h, e) in
      let same_conn : d ≡ c = ground (arith, h, e) in
      record {
        before = [];
        after = addrs;
        splits = ap (λ x. x ∷ addrs) same_addr;
        silent = tt;
        replies = ap reach (sym same_addr) ∙ h ∙ ap some same_conn;
      }
]

-- A node that is thought to run has its connection.
abbrev pub HasConn : Node → Type 0
HasConn n = n.running ≡ true → (c : Connection) × (n.conn ≡ some c)

-- How a node's primary can be after a heartbeat: it was alive, or it is the first replica that
-- answers, or no replica answers and the node does not run.
pub data Primary (reach : Reach) (n n' : Node) : Type 0 where
  still_alive :
      (c : Connection)
      → n.running ≡ true
      → n.conn ≡ some c
      → (do_write c (codes "ALIVE" ++ crlf)).0 ≡ true
      → n'.running ≡ true
      → n'.primary_addr ≡ n.primary_addr
      → Primary reach n n'
  promoted :
      (c : Connection)
      → FirstAnswer reach n.rep_addrs n'.primary_addr c
      → n'.running ≡ true
      → n'.conn ≡ some c
      → Primary reach n n'
  down : NoneAnswers reach n.rep_addrs → n'.running ≡ false → Primary reach n n'

-- What a heartbeat leaves alone.
pub record SameShare (n n' : Node) : Type 0 where
  pub rep_addrs : n'.rep_addrs ≡ n.rep_addrs
  pub node_id : n'.node_id ≡ n.node_id
  pub row_num : n'.row_num ≡ n.row_num

-- Each server that is reached sends a line, or fails, before the wait for it would go on for ever.
abbrev pub AllAnswer : Reach → Type 0
AllAnswer reach =
    (addr : Sockaddr) (c : Connection)
    → reach addr ≡ some c
    → (r : Bool × Bytes × List ReadEvent) × (do_read 1000 c.incoming ≡ done r)

contact_server-returns :
    (c : Connection) (request : Bytes) (r : Bool × Bytes × List ReadEvent)
    → do_read 1000 c.incoming ≡ done r
    → (c' : Connection) × (contact_server c request ≡ done c')
unfolding contact_server do_write
contact_server-returns c request r e = (
  (do_write (record (do_write c request).1 { incoming = r.2 }) (codes "QUIT" ++ crlf)).1,
  rw e refl,
)

told-returns :
    (reach : Reach) (command : Bytes) (is_open : Bool) (addrs : List Sockaddr)
    → AllAnswer reach
    → (told reach command is_open addrs).1 ≡ done tt
unfolding told
told-returns reach command is_open [] h = refl
told-returns reach command false (a ∷ addrs) h = told-returns reach command false addrs h
told-returns reach command true (a ∷ addrs) h = elim (Option-cases (reach a)) [
  | inl e ↦ rw (e, told) (told-returns reach command true addrs h)
  | inr (c, e) ↦
      let (r, read) = h a c e in
      let (c', contacted) = contact_server-returns c command r read in
      rw (e, contacted, told) (told-returns reach command false addrs h)
]

-- A heartbeat that returns, with the node as it should be.
abbrev Returns : Reach → Node → Outcome (Node × List Message) → Type 0
Returns reach n o =
    (n' : Node) × (sent : List Message) × (o ≡ done (n', sent))
    × Primary reach n n'
    × SameShare n n'
    × HasConn n'

-- The promotion, from a node `m` that has the share of `n` and does not run.
promote_lem :
    (inet_ntop : ℕ → Bytes) (reach : Reach) (n m : Node)
    → AllAnswer reach
    → SameShare n m
    → m.running ≡ false
    → Returns reach n (promote_new_primary inet_ntop reach m)
unfolding promote_new_primary multicast_nodes
promote_lem inet_ntop reach n m answer same off =
    elim (Option-cases (find_primary reach m.rep_addrs)) [
      | inl e ↦ (
        m,
        [],
        rw (e, promote_new_primary) refl,
        down (rw same.rep_addrs at (find_primary-none reach m.rep_addrs e)) off,
        same,
        λ on. absurd (true-ne-false (sym on ∙ off)),
      )
      | inr ((addr, c), e) ↦
          let returns = told-returns reach (promote_line inet_ntop addr) true m.rep_addrs answer in
          (
            record m { primary_addr = addr; conn = some c; running = true },
            (multicast_nodes reach m (promote_line inet_ntop addr)).0,
            rw (e, returns, promote_new_primary) refl,
            promoted c (rw same.rep_addrs at (find_primary-some reach m.rep_addrs addr c e)) refl
                refl,
            record { rep_addrs = same.rep_addrs; node_id = same.node_id; row_num = same.row_num },
            λ on. (c, refl),
          )
    ]
  where
    true-ne-false : true ≡ false → ⊥
    true-ne-false h = cc

alive_or_promote_lem :
    (inet_ntop : ℕ → Bytes) (reach : Reach) (n : Node) (c : Connection) (ok : Bool)
    (c' : Connection)
    → AllAnswer reach
    → n.running ≡ true
    → n.conn ≡ some c
    → (do_write c (codes "ALIVE" ++ crlf)).0 ≡ ok
    → Returns reach n (alive_or_promote inet_ntop reach n (ok, c'))
alive_or_promote_lem inet_ntop reach n c true c' answer on e w = (
  record n { conn = some c' },
  [],
  refl,
  still_alive c on e w on refl,
  record { rep_addrs = refl; node_id = refl; row_num = refl },
  λ h. (c', refl),
)
alive_or_promote_lem inet_ntop reach n c false c' answer on e w =
    promote_lem inet_ntop reach n (record n { conn = none; running = false }) answer
      (record { rep_addrs = refl; node_id = refl; row_num = refl }) refl

-- A node that does not run looks for a primary.
heartbeat-off :
    (inet_ntop : ℕ → Bytes) (reach : Reach) (n : Node)
    → n.running ≡ false
    → heartbeat inet_ntop reach n ≡ promote_new_primary inet_ntop reach n
unfolding heartbeat
heartbeat-off inet_ntop reach n off =
    let ping : Outcome (Node × List Message) = elim n.conn [
      | none ↦ abort
      | some c ↦ alive_or_promote inet_ntop reach n (do_write c (codes "ALIVE" ++ crlf))
    ] in
    ap (λ b. if b then ping else promote_new_primary inet_ntop reach n) off

-- If every server that is reached sends a line or fails, so that the wait for its answer ends, the
-- heartbeat of a node that has a connection if it runs returns.  Then the node was alive and is as
-- before, or it runs with the first replica that is reached as its primary, or no replica is
-- reached and it does not run; its replicas, number and rows are as before, and it has a
-- connection if it runs.
pub heartbeat_lem :
    (inet_ntop : ℕ → Bytes) (reach : Reach) (n : Node)
    → AllAnswer reach
    → HasConn n
    → (n' : Node) × (sent : List Message) × (heartbeat inet_ntop reach n ≡ done (n', sent))
      × Primary reach n n'
      × SameShare n n'
      × HasConn n'
unfolding heartbeat do_write
heartbeat_lem inet_ntop reach n answer has = elim (Bool-cases n.running) [
  | inl on ↦
      let (c, e) = has on in
      let written = do_write c (codes "ALIVE" ++ crlf) in
      let (n', sent, returns, p, same, conn) =
        alive_or_promote_lem inet_ntop reach n c written.0 written.1 answer on e refl in
      (n', sent, rw (on, e) returns, p, same, conn)
  | inr off ↦
      let (n', sent, returns, p, same, conn) =
        promote_lem inet_ntop reach n n answer
          (record { rep_addrs = refl; node_id = refl; row_num = refl }) off in
      (n', sent, heartbeat-off inet_ntop reach n off ∙ returns, p, same, conn)
]

told-closed :
    (reach : Reach) (command : Bytes) (addrs : List Sockaddr)
    → (told reach command false addrs).0 ≡ []
unfolding told
told-closed reach command [] = refl
told-closed reach command (a ∷ addrs) = told-closed reach command addrs

tell_server-le :
    (addr : Sockaddr) (rest : Told) (o : Outcome Connection)
    → rest.0 ≡ []
    → length (tell_server addr rest o).0 ≤ 1
tell_server-le addr rest (done c) h = rw h (omega arith)
tell_server-le addr rest abort h = omega arith
tell_server-le addr rest blocked h = omega arith

told-le :
    (reach : Reach) (command : Bytes) (addrs : List Sockaddr)
    → length (told reach command true addrs).0 ≤ 1
unfolding told
told-le reach command [] = omega arith
told-le reach command (a ∷ addrs) = elim (Option-cases (reach a)) [
  | inl e ↦ rw (e, told) (told-le reach command addrs)
  | inr (c, e) ↦
      rw (e, told)
        (tell_server-le a (told reach command false addrs) (contact_server c command)
          (told-closed reach command addrs))
]

length-map {ℓ κ} :
    {A : Type ℓ} {B : Type κ} (f : A → B) (xs : List A) → length (map f xs) ≡ length xs
length-map f [] = refl
length-map f (x ∷ xs) = ap suc (length-map f xs)

-- At most one replica is sent what is meant for all replicas of a node.
pub multicast_nodes-le :
    (reach : Reach) (n : Node) (command : Bytes) → length (multicast_nodes reach n command).0 ≤ 1
unfolding multicast_nodes
multicast_nodes-le reach n command =
    let message : Sockaddr → Message = λ addr. (addr, command) in
    omega (
      arith,
      length-map message (told reach command true n.rep_addrs).0,
      told-le reach command n.rep_addrs,
    )
