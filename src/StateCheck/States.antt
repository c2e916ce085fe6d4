-- ===== src/StateCheck/States.antt =====
-- The states that the master lists are read back.
use google_cloud_final.Base.{
  ℕ, suc, ◌+◌, ◌≤◌, ◌≡◌, refl, sym, ap, ◌∙◌, List, [], ◌∷◌, ◌++◌, map, length, length-append, arith,
  append_assoc, append-nil, if◌then◌else◌,
}
use google_cloud_final.Text.{Bytes, codes, npos, substr}
use google_cloud_final.Text.Search.{Avoids, substr_middle}
use google_cloud_final.Text.Lines.{unlines, AllAvoid}
use google_cloud_final.Number.{print}
use google_cloud_final.Number.RoundTrip.{print-Avoids}
use google_cloud_final.FileTool.{Sockaddr, ip_to_string}
use google_cloud_final.Connection.{crlf, do_write, write_all}
use google_cloud_final.Outcome.{done, ◌>>=◌, or_throw}
use google_cloud_final.Master.{Node, Master, reply}
use google_cloud_final.Master.Commands.{
  Net, state_line, states_of_node, states_of_nodes, parse_states,
}
use google_cloud_final.Storage.Records.{split_lines}
use google_cloud_final.Storage.Records.Listing.{split_lines-line}
use google_cloud_final.StateCheck.{split_parts, parse_id, parse_all_server}

-- The fields of a server: its node, its number, its address and its state.
abbrev pub Row : Type 0
Row = ℕ × ℕ × Bytes × Bytes

abbrev pub fields : Row → List Bytes
fields (i, j, addr, state) = print i ∷ print j ∷ addr ∷ state ∷ []

abbrev pub row_text : Row → Bytes
row_text (i, j, addr, state) =
    print i ++ (codes "|" ++ (print j ++ (codes "|" ++ (addr ++ (codes "|" ++ state)))))

-- The rows of a node from number `j` on, and those of all nodes.
abbrev pub row_of : Net → ℕ → ℕ → Sockaddr → Row
row_of net i j addr = (
  i,
  j,
  ip_to_string net.inet_ntop addr,
  (if net.is_alive addr then codes "alive" else codes "down"),
)

abbrev pub rows_of_node : Net → ℕ → ℕ → List Sockaddr → List Row
rows_of_node net i j [] = []
rows_of_node net i j (addr ∷ addrs) = row_of net i j addr ∷ rows_of_node net i (suc j) addrs

abbrev pub rows_of : Net → ℕ → List Node → List Row
rows_of net i [] = []
rows_of net i (n ∷ ns) = rows_of_node net i 0 n.rep_addrs ++ rows_of net (suc i) ns

-- What the master sends.
abbrev pub Sends : Bytes → Master → Master → Type 0
Sends text s s' = (s'.task.sent ≡ s.task.sent ++ text) × (s'.task.outgoing ≡ [])

reply-Sends : (s : Master) (text : Bytes) → s.task.outgoing ≡ [] → Sends text s (reply s text)
unfolding reply do_write
reply-Sends s [] h = unfold write_all in (refl, h)
reply-Sends s (x ∷ text) h = unfold write_all in (rw h refl, rw h refl)

Sends-trans : (t u : Bytes) (s s1 s2 : Master) → Sends t s s1 → Sends u s1 s2 → Sends (t ++ u) s s2
Sends-trans t u s s1 s2 p q = (q.0 ∙ ap (λ x. x ++ u) p.0 ∙ append_assoc s.task.sent t u, q.1)

-- The text of the rows.
abbrev pub rows_text : List Row → Bytes
rows_text rows = unlines (map row_text rows)

line_of :
    (net : Net) (i j : ℕ) (addr : Sockaddr)
    → state_line net i j addr ≡ row_text (row_of net i j addr) ++ codes "\n"
line_of net i j addr = simp (append_assoc)

node-Sends :
    (net : Net) (i j : ℕ) (addrs : List Sockaddr) (s : Master)
    → s.task.outgoing ≡ []
    → Sends (rows_text (rows_of_node net i j addrs)) s (states_of_node net i j addrs s)
unfolding states_of_node
node-Sends net i j [] s h = (sym (append-nil s.task.sent), h)
node-Sends net i j (addr ∷ addrs) s h =
    let line = state_line net i j addr in
    let s1 = reply s line in
    let s2 = states_of_node net i (suc j) addrs s1 in
    let first = reply-Sends s line h in
    let rest = node-Sends net i (suc j) addrs s1 first.1 in
    let later = rows_text (rows_of_node net i (suc j) addrs) in
    let both = Sends-trans line later s s1 s2 first rest in
    let text : line ++ later ≡ row_text (row_of net i j addr) ++ (codes "\n" ++ later) =
      ap (λ x. x ++ later) (line_of net i j addr)
      ∙ append_assoc (row_text (row_of net i j addr)) (codes "\n") later in
    (both.0 ∙ ap (λ x. s.task.sent ++ x) text, both.1)

rows_text-append : (xs ys : List Row) → rows_text (xs ++ ys) ≡ rows_text xs ++ rows_text ys
rows_text-append [] ys = refl
rows_text-append (x ∷ xs) ys =
    ap (λ t. row_text x ++ 10 ∷ t) (rows_text-append xs ys)
    ∙ sym (append_assoc (row_text x) (10 ∷ rows_text xs) (rows_text ys))

nodes-Sends :
    (net : Net) (i : ℕ) (ns : List Node) (s : Master)
    → s.task.outgoing ≡ []
    → Sends (rows_text (rows_of net i ns)) s (states_of_nodes net i ns s)
unfolding states_of_nodes
nodes-Sends net i [] s h = (sym (append-nil s.task.sent), h)
nodes-Sends net i (n ∷ ns) s h =
    let s1 = states_of_node net i 0 n.rep_addrs s in
    let s2 = states_of_nodes net (suc i) ns s1 in
    let first = node-Sends net i 0 n.rep_addrs s h in
    let rest = nodes-Sends net (suc i) ns s1 first.1 in
    let here = rows_of_node net i 0 n.rep_addrs in
    let later = rows_of net (suc i) ns in
    let both = Sends-trans (rows_text here) (rows_text later) s s1 s2 first rest in
    (both.0 ∙ ap (λ x. s.task.sent ++ x) (sym (rows_text-append here later)), both.1)

pub states-Sends :
    (net : Net) (s : Master)
    → s.task.outgoing ≡ []
    → Sends (rows_text (rows_of net 0 s.nodes_list) ++ crlf) s (parse_states net s)
unfolding parse_states
states-Sends net s h =
    let s1 = states_of_nodes net 0 s.nodes_list s in
    let first = nodes-Sends net 0 s.nodes_list s h in
    Sends-trans (rows_text (rows_of net 0 s.nodes_list)) crlf s s1 (reply s1 crlf) first
      (reply-Sends s1 crlf first.1)

-- The lines are found again.
split_lines-unlines : (ls : List Bytes) → AllAvoid 10 ls → split_lines [] (unlines ls) ≡ ls
split_lines-unlines [] h = unfold split_lines in refl
split_lines-unlines (l ∷ ls) h =
    split_lines-line [] l (unlines ls) h.0 ∙ ap (λ r. l ∷ r) (split_lines-unlines ls h.1)

pub parse_all_server_lem :
    (ls : List Bytes)
    → AllAvoid 10 ls
    → length (unlines ls) + 2 ≤ npos
    → parse_all_server (unlines ls ++ crlf) ≡ done ls
unfolding parse_all_server
parse_all_server_lem ls h fits =
    ap (λ n. or_throw (substr (unlines ls ++ crlf) 0 n) >>= λ str. done (split_lines [] str))
      (omega (arith, length-append (unlines ls) crlf, fits))
    ∙ ap (λ o. or_throw o >>= λ str. done (split_lines [] str)) (substr_middle [] (unlines ls) crlf)
    ∙ ap done (split_lines-unlines ls h)

-- And so are the parts of a line.
split_parts-part :
    (part p s : Bytes)
    → Avoids 124 p
    → split_parts part (p ++ 124 ∷ s) ≡ (part ++ p) ∷ split_parts [] s
unfolding split_parts
split_parts-part part [] s h = ap (λ x. x ∷ split_parts [] s) (sym (append-nil part))
split_parts-part part (c ∷ p) s h =
    ground (arith, h)
    ∙ split_parts-part (part ++ c ∷ []) p s h.1
    ∙ ap (λ x. x ∷ split_parts [] s) (append_assoc part (c ∷ []) p)

split_parts-last : (part p : Bytes) → Avoids 124 p → split_parts part p ≡ (part ++ p) ∷ []
unfolding split_parts
split_parts-last part [] h = ap (λ x. x ∷ []) (sym (append-nil part))
split_parts-last part (c ∷ p) h =
    ground (arith, h)
    ∙ split_parts-last (part ++ c ∷ []) p h.1
    ∙ ap (λ x. x ∷ []) (append_assoc part (c ∷ []) p)

pub parse_id_lem :
    (i j : ℕ) (addr state : Bytes)
    → Avoids 124 addr
    → Avoids 124 state
    → parse_id (row_text (i, j, addr, state)) ≡ fields (i, j, addr, state)
unfolding parse_id
parse_id_lem i j addr state a b =
    split_parts-part [] (print i) _ (print-Avoids 124 i refl)
    ∙ ap (λ r. print i ∷ r)
        (split_parts-part [] (print j) _ (print-Avoids 124 j refl)
          ∙ ap (λ r. print j ∷ r)
              (split_parts-part [] addr _ a ∙ ap (λ r. addr ∷ r) (split_parts-last [] state b)))
