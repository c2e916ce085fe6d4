-- ===== src/BackStore/HoldBack.antt =====
-- The commands that a recovering replica misses, and gets when it is back.
use google_cloud_final.Base.{
  ℕ, ◌≡◌, refl, ap, sym, ◌∙◌, true, List, [], ◌∷◌, ◌++◌, map, append_assoc, append-nil,
}
use google_cloud_final.Text.{Bytes}
use google_cloud_final.FileTool.{Sockaddr, ip_to_string}
use google_cloud_final.Connection.{Connection, do_write, write_all}
use google_cloud_final.Outcome.{Outcome, done, some, ◌>>=◌}
use google_cloud_final.BackStore.{
  running, recovering, Replicate, BackStore, Dial, push_line, poll_line, push_in, poll_in, push_one,
  poll_one, push, poll, send_all, redial, revive, reconnect, recover, set_recovering,
}
use google_cloud_final.BackStore.Links.{
  AllLinked, replica_at, push_one-Sends, poll_one-Sends, at_address_lem, for_each_lem,
}

-- One change that the primary passes on.
pub data Update : Type 0 where
  put : Bytes → Bytes → Bytes → ℕ → Update
  delete : Bytes → Bytes → ℕ → Update

abbrev pub line_of : Update → Bytes
line_of (put row col contents seq) = push_line row col contents seq
line_of (delete row col seq) = poll_line row col seq

abbrev pub send : Update → BackStore → Outcome BackStore
send (put row col contents seq) b = push b row col contents seq
send (delete row col seq) b = poll b row col seq

abbrev pub send_each : List Update → BackStore → Outcome BackStore
send_each [] b = done b
send_each (u ∷ us) b = do b' ← send u b; send_each us b'

push_one_recovering :
    (command : Bytes) (r : Replicate)
    → r.state ≡ recovering
    → push_one command r ≡ done (record r { hold_back = r.hold_back ++ command ∷ [] })
unfolding push_one push_in
push_one_recovering command r st = rw (st, push_in)

poll_one_recovering :
    (command : Bytes) (r : Replicate)
    → r.state ≡ recovering
    → poll_one command r ≡ done (record r { hold_back = r.hold_back ++ command ∷ [] })
unfolding poll_one poll_in
poll_one_recovering command r st = rw (st, poll_in)

module _ (show_addr : Sockaddr → Bytes) (address : Bytes) where
  send_lem :
      (u : Update) (b : BackStore) (r : Replicate)
      → replica_at show_addr address b.nodes ≡ some r
      → r.state ≡ recovering
      → AllLinked b.nodes
      → (b' : BackStore) × (send u b ≡ done b')
        × (replica_at show_addr address b'.nodes
            ≡ some (record r { hold_back = r.hold_back ++ line_of u ∷ [] }))
        × AllLinked b'.nodes
  unfolding push poll
  send_lem (put row col contents seq) b r e st l =
      let (ns, a, c, d) =
        for_each_lem show_addr address (push_one (push_line row col contents seq)) b.nodes r _
          (push_one-Sends (push_line row col contents seq)) e (push_one_recovering _ r st) l in
      (record b { nodes = ns }, rw a, c, d)
  send_lem (delete row col seq) b r e st l =
      let (ns, a, c, d) =
        for_each_lem show_addr address (poll_one (poll_line row col seq)) b.nodes r _
          (poll_one-Sends (poll_line row col seq)) e (poll_one_recovering _ r st) l in
      (record b { nodes = ns }, rw a, c, d)

  send_each_lem :
      (us : List Update) (b : BackStore) (r : Replicate)
      → replica_at show_addr address b.nodes ≡ some r
      → r.state ≡ recovering
      → AllLinked b.nodes
      → (b' : BackStore) × (send_each us b ≡ done b')
        × (replica_at show_addr address b'.nodes
            ≡ some (record r { hold_back = r.hold_back ++ map line_of us }))
        × AllLinked b'.nodes
  send_each_lem [] b r e st l = (b, refl, rw (append-nil r.hold_back) e, l)
  send_each_lem (u ∷ us) b r e st l =
      let (b', a, c, d) = send_lem u b r e st l in
      let (b'', a', c', d') =
        send_each_lem us b' (record r { hold_back = r.hold_back ++ line_of u ∷ [] }) c st d in
      (
        b'',
        rw a a',
        c'
            ∙ ap (λ h. some (record r { hold_back = h }))
                (append_assoc r.hold_back (line_of u ∷ []) (map line_of us)),
        d',
      )

abbrev pub concat : List Bytes → Bytes
concat [] = []
concat (s ∷ ss) = s ++ concat ss

do_write_open :
    (c : Connection) (s : Bytes)
    → c.outgoing ≡ []
    → do_write c s ≡ (true, record c { sent = c.sent ++ s })
unfolding do_write write_all
do_write_open c [] h = rw h
do_write_open c (x ∷ s) h = rw h

send_all_lem :
    (commands : List Bytes) (c : Connection)
    → c.outgoing ≡ []
    → send_all c commands ≡ record c { sent = c.sent ++ concat commands }
unfolding send_all
send_all_lem [] c h = ap (λ s. record c { sent = s }) (sym (append-nil c.sent))
send_all_lem (s ∷ ss) c h = rw (do_write_open c s h) (
    send_all_lem ss (record c { sent = c.sent ++ s }) h
    ∙ ap (λ t. record c { sent = t }) (append_assoc c.sent s (concat ss)))

-- A replica announces that it recovers, updates are made meanwhile, and it announces that it is
-- ready.
abbrev pub catch_up : (ℕ → Bytes) → Dial → Bytes → List Update → BackStore → Outcome BackStore
catch_up inet_ntop dial address us b = do
  (found, recovering_store) ← recover inet_ntop b address
  updated ← send_each us recovering_store
  (found', ready) ← reconnect inet_ntop dial updated address
  done ready

revive_lem :
    (dial : Dial) (r : Replicate) (c : Connection)
    → redial (dial r.addr) ≡ done c
    → c.outgoing ≡ []
    → revive dial r
      ≡ done (record r {
        state = running;
        hold_back = [];
        connection = some (record c { sent = c.sent ++ concat r.hold_back });
      })
unfolding revive
revive_lem dial r c answer open_end = rw (answer, send_all_lem r.hold_back c open_end)

-- A replica announces that it recovers, changes are made meanwhile, and it announces that it is
-- ready.  If it can be reached again over a connection that takes what is written, all steps
-- return; the replica is running, and has been sent every change that was made meanwhile, in order
-- and behind what was held back for it before, and nothing else.
pub catch_up_lem :
    (inet_ntop : ℕ → Bytes) (dial : Dial) (address : Bytes) (us : List Update) (b : BackStore)
    (r : Replicate) (c : Connection)
    → AllLinked b.nodes
    → replica_at (ip_to_string inet_ntop) address b.nodes ≡ some r
    → redial (dial r.addr) ≡ done c
    → c.outgoing ≡ []
    → (b' : BackStore) × (catch_up inet_ntop dial address us b ≡ done b')
      × (replica_at (ip_to_string inet_ntop) address b'.nodes
          ≡ some (record r {
            state = running;
            hold_back = [];
            connection =
                some (record c { sent = c.sent ++ concat (r.hold_back ++ map line_of us) });
          }))
      × AllLinked b'.nodes
unfolding recover reconnect set_recovering
catch_up_lem inet_ntop dial address us b r c l e answer open_end =
    let show_addr = ip_to_string inet_ntop in
    let (ns, a1, e1, l1) =
      at_address_lem show_addr address set_recovering b.nodes r _ e refl refl l tt in
    let (b2, a2, e2, l2) =
      send_each_lem show_addr address us (record b { nodes = ns }) (record r { state = recovering })
        e1 refl l1 in
    let (ns3, a3, e3, l3) =
      at_address_lem show_addr address (revive dial) b2.nodes
        (record r { state = recovering; hold_back = r.hold_back ++ map line_of us })
        (record r {
          state = running;
          hold_back = [];
          connection = some (record c { sent = c.sent ++ concat (r.hold_back ++ map line_of us) });
        })
        e2
        (revive_lem dial
          (record r { state = recovering; hold_back = r.hold_back ++ map line_of us }) c answer
          open_end)
        refl l2 tt in
    (record b2 { nodes = ns3 }, rw (a1, a2, a3), e3, l3)
