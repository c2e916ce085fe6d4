-- ===== src/Master/Commands/Laws.antt =====
-- What PRIMARY answers, and that the master's loop keeps the rows balanced.
use mathlib.Core.Path.{ap₂}
use google_cloud_final.Base.{
  ℕ, zero, suc, ◌+◌, ◌≤◌, ◌≡◌, refl, sym, ap, ◌∙◌, Bool, false, List, [], ◌∷◌, ◌++◌, append_assoc,
  append-nil, length, length-append, arith, get_elem?, Option-cases, inl, inr, if◌then◌else◌, take,
  drop,
}
use google_cloud_final.Text.{Bytes, codes, add64, sub64, find, position, substr}
use google_cloud_final.Text.Search.{Avoids-append, find-char, find-crlf, substr_middle}
use google_cloud_final.Map.{Map}
use google_cloud_final.Number.{atoi, print, int_max}
use google_cloud_final.Number.RoundTrip.{atoi-print, print-Avoids, length-print-le}
use google_cloud_final.FileTool.{Sockaddr}
use google_cloud_final.Connection.{ReadEvent, crlf, do_read, c_str}
use google_cloud_final.FileTool.{ip_to_string}
use google_cloud_final.Outcome.{
  Option, none, some, done, some, ◌>>=◌, or_throw, Ensures, Ensures-bind, Ensures-then, Ensures-if,
}
use google_cloud_final.Master.{Node, Master, reply, parse_where, where_row, place_row}
use google_cloud_final.Master.Where.{Good, place_row_lem}
use google_cloud_final.Master.Commands.{
  Net, primary_answer, parse_primary, list_rows, parse_list, states_of_node, states_of_nodes,
  parse_states, Verb, quit, place, primary, list, states, unsupported, verb_of, handle, dispatch,
  drain, run, rlen, strcat, node_of,
}

-- The line of a PRIMARY.
abbrev pub primary_line : ℕ → Bytes
primary_line id = codes "PRIMARY " ++ (print id ++ crlf)

primary_line-argument :
    (id : ℕ)
    → id ≤ int_max
    → substr
        (primary_line id)
        (add64 (find (primary_line id) (codes " ")) 1)
        (sub64 (find (primary_line id) crlf) (add64 (find (primary_line id) (codes " ")) 1))
      ≡ some (print id)
primary_line-argument id small =
    let pre = codes "PRIMARY " in
    let at_space : find (primary_line id) (codes " ") ≡ 7 =
      find-char 32 (codes "PRIMARY") (print id ++ crlf) (omega arith) in
    let at_end : find (primary_line id) crlf ≡ length pre + length (print id) =
      ap (λ s. find s crlf) (sym (append_assoc pre (print id) crlf))
      ∙ find-crlf (pre ++ print id) []
          (Avoids-append 13 pre (print id) (omega arith) (print-Avoids 13 id refl))
      ∙ length-append pre (print id) in
    rw (at_space, at_end)
      (ap₂ (λ a n. substr (primary_line id) a n) (omega arith) (omega (arith, length-print-le id))
        ∙ substr_middle pre (print id) crlf)

answer_text :
    (inet_ntop : ℕ → Bytes) (o : Option Node)
    → primary_answer inet_ntop o ≡ elim o [
      | none ↦ codes "-ERR\r\n"
      | some n ↦
          codes "+OK "
          ++ ((inet_ntop n.primary_addr.ip ++ codes ":" ++ print n.primary_addr.port)
              ++ codes "\r\n")
    ]
unfolding ip_to_string
answer_text inet_ntop none = refl
answer_text inet_ntop (some n) = refl

-- A PRIMARY with a number that fits an int always answers: with "+OK " and the address and port of
-- the primary of that node, and with "-ERR" if there is no such node; it does nothing but reply.
pub parse_primary_lem :
    (net : Net) (id : ℕ) (s : Master)
    → id ≤ int_max
    → parse_primary net (primary_line id) s
      ≡ done (
          reply s (elim (get_elem? s.nodes_list id) [
            | none ↦ codes "-ERR\r\n"
            | some n ↦
                codes "+OK "
                ++ ((net.inet_ntop n.primary_addr.ip ++ codes ":" ++ print n.primary_addr.port)
                    ++ codes "\r\n")
          ]))
unfolding parse_primary
parse_primary_lem net id s small =
    ap
      (λ o. or_throw o >>= λ text. or_throw (atoi text) >>= λ n.
        done (reply s (primary_answer net.inet_ntop (node_of s.nodes_list n))))
      (primary_line-argument id small)
    ∙ ap
        (λ o. or_throw o >>= λ n.
          done (reply s (primary_answer net.inet_ntop (node_of s.nodes_list n))))
        (ap atoi (sym (append-nil (print id))) ∙ atoi-print id [] small tt)
    ∙ ap (λ text. done (reply s text)) (answer_text net.inet_ntop (get_elem? s.nodes_list id))

-- Nodes and index are left alone.
record SameNodes (s s' : Master) : Type 0 where
  nodes : s'.nodes_list ≡ s.nodes_list
  index : s'.node_index ≡ s.node_index

SameNodes-Good : (s s' : Master) → SameNodes s s' → Good s → Good s'
SameNodes-Good s s' same g = record {
  numbered = rw same.nodes g.numbered;
  some_node = rw same.nodes g.some_node;
  in_range = rw (same.nodes, same.index) g.in_range;
  counted = rw (same.nodes, same.index) g.counted;
  balanced = rw same.nodes g.balanced;
}

reply-Good : (s : Master) (text : Bytes) → Good s → Good (reply s text)
unfolding reply
reply-Good s text g = SameNodes-Good s (reply s text) (record { nodes = refl; index = refl }) g

list_rows-Good : (rows : Map ℕ) (s : Master) → Good s → Good (list_rows rows s)
unfolding list_rows
list_rows-Good [] s g = g
list_rows-Good ((row, id) ∷ rows) s g =
    list_rows-Good rows (reply s (row ++ crlf)) (reply-Good s (row ++ crlf) g)

states_of_node-Good :
    (net : Net) (i j : ℕ) (addrs : List Sockaddr) (s : Master)
    → Good s
    → Good (states_of_node net i j addrs s)
unfolding states_of_node
states_of_node-Good net i j [] s g = g
states_of_node-Good net i j (addr ∷ addrs) s g =
    states_of_node-Good net i (suc j) addrs _ (reply-Good s _ g)

states_of_nodes-Good :
    (net : Net) (i : ℕ) (ns : List Node) (s : Master) → Good s → Good (states_of_nodes net i ns s)
unfolding states_of_nodes
states_of_nodes-Good net i [] s g = g
states_of_nodes-Good net i (n ∷ ns) s g =
    states_of_nodes-Good net (suc i) ns _ (states_of_node-Good net i 0 n.rep_addrs s g)

place_row-Good :
    (inet_ntop : ℕ → Bytes) (row : Bytes) (s : Master)
    → Good s
    → Ensures Good (place_row inet_ntop row s)
place_row-Good inet_ntop row s g =
    let (s', e, placed) = place_row_lem inet_ntop row s g in rw e placed.good

abbrev GoodNext : Bool × Master → Type 0
GoodNext p = Good p.1

abbrev GoodLeft : Bytes × Bool × Master → Type 0
GoodLeft p = Good p.2

handle-Good :
    (net : Net) (verb : Verb) (command : Bytes) (s : Master)
    → Good s
    → Ensures GoodNext (handle net verb command s)
unfolding handle parse_where parse_primary parse_list parse_states
handle-Good net quit command s g = reply-Good s _ g
handle-Good net place command s g =
    Ensures-bind Good GoodNext (parse_where net.inet_ntop command s) _
      (Ensures-then Good (where_row command) _ λ row. place_row-Good net.inet_ntop row s g)
      (λ s' h. h)
handle-Good net primary command s g =
    Ensures-bind Good GoodNext (parse_primary net command s) _
      (Ensures-then Good (or_throw (substr command _ _)) _
        λ text. Ensures-then Good (or_throw (atoi text)) _ λ id. reply-Good s _ g)
      (λ s' h. h)
handle-Good net list command s g = reply-Good _ _ (list_rows-Good s.node_index s g)
handle-Good net states command s g = reply-Good _ _ (states_of_nodes-Good net 0 s.nodes_list s g)
handle-Good net unsupported command s g = reply-Good s _ g

drain-Good :
    (fuel : ℕ) (net : Net) (wait : Bytes) (flag : Bool) (s : Master)
    → Good s
    → Ensures GoodLeft (drain fuel net wait flag s)
unfolding drain dispatch
drain-Good zero net wait flag s g = tt
drain-Good (suc fuel) net wait flag s g = elim (Option-cases (position crlf wait)) [
  | inl e ↦ rw (e, drain) g
  | inr (at_end, e) ↦
      rw (e, drain)
        (Ensures-bind GoodNext GoodLeft (dispatch net (take (at_end + 2) wait) s)
          (λ p. drain fuel net (drop (at_end + 2) wait) (if p.0 then flag else false) p.1)
          (handle-Good net (verb_of (take (at_end + 2) wait)) (take (at_end + 2) wait) s g)
          (λ p h. drain-Good fuel net (drop (at_end + 2) wait) (if p.0 then flag else false) p.1 h))
]

read-Good :
    (s : Master) (events : List ReadEvent)
    → Good s
    → Good (record s { task = record s.task { incoming = events } })
read-Good s events g = SameNodes-Good s _ (record { nodes = refl; index = refl }) g

-- A run of the master on any input and from a good state leaves a good state wherever it returns:
-- the rows of the nodes are those of the index, and two nodes differ by one row at most.
pub run-Good :
    (fuel : ℕ) (net : Net) (wait : Bytes) (flag : Bool) (s : Master)
    → Good s
    → Ensures Good (run fuel net wait flag s)
unfolding run
run-Good zero net wait flag s g = tt
run-Good (suc fuel) net wait flag s g =
    Ensures-if Good flag _ (done s)
      (Ensures-then Good (do_read rlen s.task.incoming) _ λ p.
        Ensures-then Good (strcat wait (c_str p.1)) _ λ wait'.
          Ensures-bind GoodLeft Good
            (drain (suc (length wait')) net wait' flag
              (record s { task = record s.task { incoming = p.2 } }))
            (λ q. run fuel net q.0 q.1 q.2)
            (drain-Good (suc (length wait')) net wait' flag _ (read-Good s p.2 g))
            (λ q h. run-Good fuel net q.0 q.1 q.2 h))
      g
