-- ===== src/Worker/Keeps.antt =====
-- GET and PUT keep the invariant.
use google_cloud_final.Base.{ℕ, ◌≤◌, ◌≡◌, refl, Bool, true, false, ◌&&◌, ◌++◌, arith}
use google_cloud_final.Text.{Bytes, codes, add64, sub64, find, substr}
use google_cloud_final.Connection.{crlf, dot_line}
use google_cloud_final.Worker.Input.{await_data}
use google_cloud_final.Map.{lookup, has}
use google_cloud_final.Number.{ℤ, pos, negsuc, stol}
use google_cloud_final.ServerState.{max_seq}
use google_cloud_final.BackStore.{BackStore, push, poll, push_one, poll_one, push_line, poll_line}
use google_cloud_final.BackStore.Links.{AllLinked, for_each_total, push_one-Sends, poll_one-Sends}
use google_cloud_final.Outcome.{
  Outcome, done, abort, blocked, Option, none, some, ◌>>=◌, or_throw, Ensures, Ensures-bind,
  Ensures-then, Ensures-if,
}
use google_cloud_final.DataServer.{BMap, Worker, reply}
use google_cloud_final.DataServer.Table.{row_at, set_cell, erase_cell}
use google_cloud_final.DataServer.Table.Laws.{set_cell-TableSorted, erase_cell-TableSorted}
use google_cloud_final.Worker.Log.{put_to_log, put_to_log_seq}
use google_cloud_final.Worker.Handlers.{
  deref, parse_get, rest_after, data_from, receive_put, store_put, push_if_primary, parse_put,
  poll_if_primary,
}
use google_cloud_final.Worker.Invariant.{
  Inv, Good, Kept, Equipped, set_cell-NoNull, erase_cell-NoNull,
}

-- A command that goes on from where an earlier part has come.
pub Ensures-trans :
    (s t : Worker) (o : Outcome Worker) → Kept s t → Ensures (Kept t) o → Ensures (Kept s) o
Ensures-trans s t (done u) k h = (h.0, omega arith)
Ensures-trans s t abort k h = tt
Ensures-trans s t blocked k h = tt

pub parse_get-Kept : (row col : Bytes) (s : Worker) → Inv s → Ensures (Kept s) (parse_get row col s)
unfolding parse_get reply
parse_get-Kept row col s inv = ground arith

max_seq-le : (n : ℕ) (z : ℤ) → n ≤ max_seq n z
unfolding max_seq
max_seq-le n (pos m) = ground arith
max_seq-le n (negsuc m) = omega arith

-- What a new table with one cell written keeps.
pub set_cell-Good :
    {table : BMap} {primary : Bool} {back_store : Option BackStore} (row col contents : Bytes)
    → Good table primary back_store
    → Good (set_cell table row col contents) primary back_store
set_cell-Good row col contents g = record {
  sorted = set_cell-TableSorted _ row col contents g.sorted;
  no_null = set_cell-NoNull _ row col contents g.no_null;
  equipped = g.equipped;
}

pub erase_cell-Good :
    {table : BMap} {primary : Bool} {back_store : Option BackStore} (row col : Bytes)
    → Good table primary back_store
    → Good (erase_cell table row col) primary back_store
erase_cell-Good row col g = record {
  sorted = erase_cell-TableSorted _ row col g.sorted;
  no_null = erase_cell-NoNull _ row col g.no_null;
  equipped = g.equipped;
}

-- A push from an equipped primary returns.
pub push_total :
    (b : BackStore) (row col contents : Bytes) (seq : ℕ)
    → AllLinked b.nodes
    → (b' : BackStore) × (push b row col contents seq ≡ done b') × AllLinked b'.nodes
unfolding push
push_total b row col contents seq l =
    let (ns, e, l') =
      for_each_total (push_one (push_line row col contents seq)) b.nodes
        (push_one-Sends (push_line row col contents seq)) l in
    (record b { nodes = ns }, rw e, l')

pub poll_total :
    (b : BackStore) (row col : Bytes) (seq : ℕ)
    → AllLinked b.nodes
    → (b' : BackStore) × (poll b row col seq ≡ done b') × AllLinked b'.nodes
unfolding poll
poll_total b row col seq l =
    let (ns, e, l') =
      for_each_total (poll_one (poll_line row col seq)) b.nodes
        (poll_one-Sends (poll_line row col seq)) l in
    (record b { nodes = ns }, rw e, l')

push_in :
    (primary : Bool) (store : Option BackStore) (s : Worker) (row col contents : Bytes) (seq : ℕ)
    → s.server.primary ≡ primary
    → s.back_store ≡ store
    → Equipped primary store
    → (store' : Option BackStore) × (push_if_primary s row col contents seq
        ≡ done (record s { back_store = store' }))
      × Equipped primary store'
unfolding push_if_primary
push_in true none s row col contents seq e k h = absurd h
push_in true (some b) s row col contents seq e k h =
    let (b', pushed, l) = push_total b row col contents seq h in (some b', rw (e, k, pushed), l)
push_in false store s row col contents seq e k h = (store, rw (e, ← k), h)

-- Passing a change on returns, and changes nothing but the replicas.
pub push_if_primary_total :
    (s : Worker) (row col contents : Bytes) (seq : ℕ)
    → Inv s
    → (store : Option BackStore) × (push_if_primary s row col contents seq
        ≡ done (record s { back_store = store }))
      × Good s.table s.server.primary store
push_if_primary_total s row col contents seq g =
    let (store, e, h) =
      push_in s.server.primary s.back_store s row col contents seq refl refl g.equipped in
    (store, e, record { sorted = g.sorted; no_null = g.no_null; equipped = h })

poll_in :
    (primary : Bool) (store : Option BackStore) (s : Worker) (row col : Bytes) (seq : ℕ)
    → s.server.primary ≡ primary
    → s.back_store ≡ store
    → Equipped primary store
    → (store' : Option BackStore) × (poll_if_primary s row col seq
        ≡ done (record s { back_store = store' }))
      × Equipped primary store'
unfolding poll_if_primary
poll_in true none s row col seq e k h = absurd h
poll_in true (some b) s row col seq e k h =
    let (b', pushed, l) = poll_total b row col seq h in (some b', rw (e, k, pushed), l)
poll_in false store s row col seq e k h = (store, rw (e, ← k), h)

-- Passing a change on returns, and changes nothing but the replicas.
pub poll_if_primary_total :
    (s : Worker) (row col : Bytes) (seq : ℕ)
    → Inv s
    → (store : Option BackStore) × (poll_if_primary s row col seq
        ≡ done (record s { back_store = store }))
      × Good s.table s.server.primary store
poll_if_primary_total s row col seq g =
    let (store, e, h) = poll_in s.server.primary s.back_store s row col seq refl refl g.equipped in
    (store, e, record { sorted = g.sorted; no_null = g.no_null; equipped = h })

-- The write of a PUT puts its cell, where it meets no null pointer.
store_put-Ensures :
    (table : BMap) (row col contents : Bytes)
    → Ensures (λ t. t ≡ set_cell table row col contents) (store_put table row col contents)
unfolding store_put
store_put-Ensures table row col contents =
    Ensures-if _ (has row table && has col table) _ (done (set_cell table row col contents))
      (Ensures-then _ (deref (lookup col (row_at table row))) _
        (λ cell. Ensures-then _ (deref cell) _ (λ old. refl)))
      refl

receive_put-Kept :
    (primary : Bool) (row col buffer : Bytes) (data_end : ℕ) (s : Worker)
    → Inv s
    → Ensures (λ r. Kept s r.2) (receive_put primary row col buffer data_end s)
unfolding receive_put put_to_log put_to_log_seq
receive_put-Kept true row col buffer data_end s inv =
    Ensures-then _ (data_from buffer (add64 (find buffer (codes "DATA" ++ crlf)) 6) data_end) _
      (λ contents. (inv, omega arith))
receive_put-Kept false row col buffer data_end s inv =
    Ensures-then _ (data_from buffer (add64 (find buffer crlf) 2) data_end) _ λ contents.
      Ensures-then _ (or_throw (substr buffer 0 (sub64 (add64 (find buffer crlf) 2) 2))) _ λ line.
        Ensures-then _ (or_throw (stol line)) _ (λ seq. (inv, max_seq-le s.server.seq_id seq))

-- From a good state with the cell written, the change is passed on.
pub finish_put-Kept :
    (s t : Worker) (row col contents : Bytes) (seq : ℕ) (f : Worker → Outcome Worker)
    → Kept s t
    → ((u : Worker) → Kept s u → Ensures (Kept s) (f u))
    → Ensures (Kept s) (push_if_primary t row col contents seq >>= f)
finish_put-Kept s t row col contents seq f k next =
    let (store, e, g) = push_if_primary_total t row col contents seq k.0 in
    rw e (next (record t { back_store = store }) (g, k.1))

pub parse_put-Kept : (row col : Bytes) (s : Worker) → Inv s → Ensures (Kept s) (parse_put row col s)
unfolding parse_put reply
parse_put-Kept row col s inv =
    Ensures-then _ (await_data dot_line s.w.text s.task) _ λ (buffer, data_end, task).
      Ensures-bind (λ r. Kept s r.2) _ _ _
        (receive_put-Kept s.server.primary row col buffer data_end (record s { task = task }) inv)
        λ (contents, seq, logged) k.
          Ensures-bind (λ t. t ≡ set_cell logged.table row col contents) (Kept s) _ _
            (store_put-Ensures logged.table row col contents)
            λ table e.
              finish_put-Kept s (record logged { table = table }) row col contents seq _
                (rw e (set_cell-Good row col contents k.0), k.1)
                λ u h. Ensures-then (Kept s) (rest_after buffer data_end) _ (λ rest. h)
