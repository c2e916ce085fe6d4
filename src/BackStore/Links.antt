-- ===== src/BackStore/Links.antt =====
-- No operation on the replicas meets a null connection.
use google_cloud_final.Base.{
  ◌≡◌, refl, Bool, true, List, [], ◌∷◌, ◌++◌, arith, Bool-cases, inl, inr, if◌then◌else◌,
}
use google_cloud_final.Text.{Bytes, equal}
use google_cloud_final.FileTool.{Sockaddr}
use google_cloud_final.Connection.{Connection, do_write}
use google_cloud_final.Outcome.{Outcome, done, Option, none, some}
use google_cloud_final.BackStore.{
  ReplicateState, running, recovering, failed, Replicate, push_in, poll_in, written, push_one,
  poll_one, for_each, at_address,
}

-- A running replica has a connection, so that no pointer is null where `push` follows it.
abbrev pub Linked : ReplicateState → Option Connection → Type 0
Linked running none = ⊥
Linked _ _ = Unit {0}

abbrev pub AllLinked : List Replicate → Type 0
AllLinked [] = Unit {0}
AllLinked (r ∷ rs) = Linked r.state r.connection × AllLinked rs

-- The first replica with the address.
abbrev pub replica_at : (Sockaddr → Bytes) → Bytes → List Replicate → Option Replicate
replica_at show_addr address [] = none
replica_at show_addr address (r ∷ rs) =
    if equal (show_addr r.addr) address then some r else replica_at show_addr address rs

-- `f` does not fault on a linked replica, and keeps its address and its link.
abbrev pub Sends : (Replicate → Outcome Replicate) → Type 0
Sends f =
    (n : Replicate)
    → Linked n.state n.connection
    → (n' : Replicate) × (f n ≡ done n') × (n'.addr ≡ n.addr) × Linked n'.state n'.connection

Linked-written : (n : Replicate) (p : Bool × Connection) → Linked (written n p).state (some p.1)
Linked-written n p = elim (written n p).state as (λ st. Linked st (some p.1)) [
  | running ↦ tt
  | recovering ↦ tt
  | failed ↦ tt
]

push_in-Sends :
    (st : ReplicateState) (c : Option Connection) (command : Bytes) (n : Replicate)
    → n.state ≡ st
    → n.connection ≡ c
    → Linked st c
    → (n' : Replicate) × (push_in st c command n ≡ done n')
      × (n'.addr ≡ n.addr)
      × Linked n'.state n'.connection
unfolding push_in
push_in-Sends running none command n e k l = absurd l
push_in-Sends running (some c) command n e k l =
    (written n (do_write c command), refl, refl, Linked-written n (do_write c command))
push_in-Sends recovering c command n e k l =
    (record n { hold_back = n.hold_back ++ command ∷ [] }, refl, refl, rw e tt)
push_in-Sends failed c command n e k l = (n, refl, refl, rw e tt)

pub push_one-Sends : (command : Bytes) → Sends (push_one command)
unfolding push_one
push_one-Sends command n l = push_in-Sends n.state n.connection command n refl refl l

poll_in-Sends :
    (st : ReplicateState) (c : Option Connection) (command : Bytes) (n : Replicate)
    → n.state ≡ st
    → n.connection ≡ c
    → Linked st c
    → (n' : Replicate) × (poll_in st c command n ≡ done n')
      × (n'.addr ≡ n.addr)
      × Linked n'.state n'.connection
unfolding poll_in
poll_in-Sends running none command n e k l = absurd l
poll_in-Sends running (some c) command n e k l =
    (written n (do_write c command), refl, refl, Linked-written n (do_write c command))
poll_in-Sends recovering c command n e k l =
    (record n { hold_back = n.hold_back ++ command ∷ [] }, refl, refl, rw e tt)
poll_in-Sends failed c command n e k l = (n, refl, refl, rw e tt)

pub poll_one-Sends : (command : Bytes) → Sends (poll_one command)
unfolding poll_one
poll_one-Sends command n l = poll_in-Sends n.state n.connection command n refl refl l

pub for_each_total :
    (f : Replicate → Outcome Replicate) (nodes : List Replicate)
    → Sends f
    → AllLinked nodes
    → (nodes' : List Replicate) × (for_each f nodes ≡ done nodes') × AllLinked nodes'
unfolding for_each
for_each_total f [] ok l = ([], refl, tt)
for_each_total f (n ∷ ns) ok l =
    let (n', fn, an, ln) = ok n l.0 in
    let (ns', fns, lns) = for_each_total f ns ok l.1 in (n' ∷ ns', rw (fn, fns), (ln, lns))

module _ (show_addr : Sockaddr → Bytes) (address : Bytes) where
  pub at_address_lem :
      (f : Replicate → Outcome Replicate) (nodes : List Replicate) (r r' : Replicate)
      → replica_at show_addr address nodes ≡ some r
      → f r ≡ done r'
      → r'.addr ≡ r.addr
      → AllLinked nodes
      → Linked r'.state r'.connection
      → (nodes' : List Replicate) × (at_address show_addr address f nodes ≡ done (true, nodes'))
        × (replica_at show_addr address nodes' ≡ some r')
        × AllLinked nodes'
  unfolding at_address
  at_address_lem f [] r r' e fe ae l l' = cc
  at_address_lem f (n ∷ ns) r r' e fe ae l l' =
      elim (Bool-cases (equal (show_addr n.addr) address)) [
        | inl hit ↦ (r' ∷ ns, ground arith, ground arith, (l', l.1))
        | inr miss ↦
            let (ns', a, b, c) = at_address_lem f ns r r' (ground arith) fe ae l.1 l' in
            (n ∷ ns', ground arith, ground arith, (l.0, c))
      ]

  -- A pass over the replicas returns, and changes the one at the address by `f`.
  pub for_each_lem :
      (f : Replicate → Outcome Replicate) (nodes : List Replicate) (r r' : Replicate)
      → Sends f
      → replica_at show_addr address nodes ≡ some r
      → f r ≡ done r'
      → AllLinked nodes
      → (nodes' : List Replicate) × (for_each f nodes ≡ done nodes')
        × (replica_at show_addr address nodes' ≡ some r')
        × AllLinked nodes'
  unfolding for_each
  for_each_lem f [] r r' ok e fe l = cc
  for_each_lem f (n ∷ ns) r r' ok e fe l =
      let (n', fn, an, ln) = ok n l.0 in
      elim (Bool-cases (equal (show_addr n.addr) address)) [
        | inl hit ↦
            let (ns', fns, lns) = for_each_total f ns ok l.1 in
            (n' ∷ ns', rw (fn, fns), ground arith, (ln, lns))
        | inr miss ↦
            let (ns', a, b, c) = for_each_lem f ns r r' ok (ground arith) fe l.1 in
            (n' ∷ ns', rw (fn, a), ground arith, (ln, c))
      ]
