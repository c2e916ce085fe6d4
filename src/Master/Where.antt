-- ===== src/Master/Where.antt =====
-- What a WHERE does to the master.
use google_cloud_final.Base.{
  ℕ, ◌<◌, ◌≡◌, refl, sym, ap, ◌∙◌, false, List, [], ◌∷◌, length, arith, get_elem?, inl, inr,
  Option-cases,
}
use google_cloud_final.Text.{Bytes, equal, equal_refl}
use google_cloud_final.Map.{lookup, insert}
use google_cloud_final.Map.Laws.{lookup-insert}
use google_cloud_final.Connection.{do_write}
use google_cloud_final.Outcome.{done, none, some}
use google_cloud_final.Master.{
  Node, Master, reply, least, add_row, server_line, first_node, place_row,
}
use google_cloud_final.Master.Nodes.{
  Numbered, Balanced, IsLeast, least_lem, add_row-Numbered, length-add_row, add_row-Balanced,
}
use google_cloud_final.Master.Counts.{
  Counted, InRange, Counted-add_row, insert-InRange, lookup-InRange, elem-of-length, length-of-elem,
}

-- The nodes stand in the order of their numbers, there is one, the index names no other, each node
-- has the rows that the index gives it, and two nodes differ by one row at most.
pub record Good (s : Master) : Type 0 where
  pub numbered : Numbered 0 s.nodes_list
  pub some_node : 0 < length s.nodes_list
  pub in_range : InRange (length s.nodes_list) s.node_index
  pub counted : Counted 0 s.nodes_list s.node_index
  pub balanced : Balanced s.nodes_list

-- What a WHERE leaves: the row is on a node, which is named in the answer; a row that was known
-- stays where it was, and no other row moves.
pub record Placed (inet_ntop : ℕ → Bytes) (row : Bytes) (s s' : Master) : Type 0 where
  pub id : ℕ
  pub node : Node
  pub stands : get_elem? s.nodes_list id ≡ some node
  pub indexed : lookup row s'.node_index ≡ some id
  pub stays : (old : ℕ) → lookup row s.node_index ≡ some old → s'.node_index ≡ s.node_index
  pub others :
      (other : Bytes)
      → equal row other ≡ false
      → lookup other s'.node_index ≡ lookup other s.node_index
  pub answered : s'.task ≡ (do_write s.task (server_line inet_ntop node)).1
  pub good : Good s'

place_known :
    (inet_ntop : ℕ → Bytes) (row : Bytes) (s : Master) (id : ℕ)
    → Good s
    → lookup row s.node_index ≡ some id
    → (s' : Master) × (place_row inet_ntop row s ≡ done s') × Placed inet_ntop row s s'
unfolding place_row reply
place_known inet_ntop row s id g e =
    let (n, stands) =
      elem-of-length s.nodes_list id
        (lookup-InRange (length s.nodes_list) row s.node_index id g.in_range e) in
    (
      reply s (server_line inet_ntop n),
      rw (e, stands, place_row) refl,
      record {
        id = id;
        node = n;
        stands = stands;
        indexed = e;
        stays = λ old h. refl;
        others = λ other h. refl;
        answered = refl;
        good = record {
          numbered = g.numbered;
          some_node = g.some_node;
          in_range = g.in_range;
          counted = g.counted;
          balanced = g.balanced;
        };
      },
    )

-- The state with the row on the node at `k`, and the answer sent.
abbrev with_row : (ℕ → Bytes) → Bytes → ℕ → Node → Master → Master
with_row inet_ntop row k n s =
    reply (record s { node_index = insert row k s.node_index; nodes_list = add_row k s.nodes_list })
      (server_line inet_ntop n)

with_row-Good :
    (inet_ntop : ℕ → Bytes) (row : Bytes) (s : Master) (k : ℕ)
    → Good s
    → lookup row s.node_index ≡ none
    → (found : IsLeast s.nodes_list k) → Good (with_row inet_ntop row k found.node s)
unfolding reply
with_row-Good inet_ntop row s k g e found =
    let same = length-add_row k s.nodes_list in
    let below = length-of-elem s.nodes_list k found.node found.stands in
    record {
      numbered = add_row-Numbered k 0 s.nodes_list g.numbered;
      some_node = omega (arith, same, g.some_node);
      in_range = rw same (insert-InRange (length s.nodes_list) row k s.node_index below g.in_range);
      counted = Counted-add_row 0 k k row s.nodes_list s.node_index (omega arith) e g.counted;
      balanced = add_row-Balanced k s.nodes_list found g.balanced;
    }

place_new-nodes :
    (inet_ntop : ℕ → Bytes) (row : Bytes) (s : Master) (n : Node) (ns : List Node)
    → Good s
    → lookup row s.node_index ≡ none
    → s.nodes_list ≡ n ∷ ns
    → (k : ℕ) × (found : IsLeast s.nodes_list k) × (place_row inet_ntop row s
        ≡ done (with_row inet_ntop row k found.node s))
unfolding place_row
place_new-nodes inet_ntop row s n ns g e nodes =
    let found : IsLeast s.nodes_list (least n.row_num 0 s.nodes_list) =
      rw nodes (least_lem n ns (rw nodes at g.numbered)) in
    (
      least n.row_num 0 s.nodes_list,
      found,
      rw (e, ap first_node nodes, found.stands, place_row) refl,
    )

nodes-cases : (ns : List Node) → 0 < length ns → (n : Node) × (rest : List Node) × (ns ≡ n ∷ rest)
nodes-cases [] h = absurd (omega arith)
nodes-cases (n ∷ rest) h = (n, rest, refl)

place_new :
    (inet_ntop : ℕ → Bytes) (row : Bytes) (s : Master)
    → Good s
    → lookup row s.node_index ≡ none
    → (s' : Master) × (place_row inet_ntop row s ≡ done s') × Placed inet_ntop row s s'
unfolding reply
place_new inet_ntop row s g e =
    let (n, rest, nodes) = nodes-cases s.nodes_list g.some_node in
    let (k, found, runs) = place_new-nodes inet_ntop row s n rest g e nodes in
    (
      with_row inet_ntop row k found.node s,
      runs,
      record {
        id = k;
        node = found.node;
        stands = found.stands;
        indexed = lookup-insert row row k s.node_index ∙ ground (arith, equal_refl row);
        stays = λ old h. absurd (none-ne-some (sym e ∙ h));
        others = λ other h. lookup-insert row other k s.node_index ∙ rw h refl;
        answered = refl;
        good = with_row-Good inet_ntop row s k g e found;
      },
    )
  where
    none-ne-some : {i : ℕ} → none ≡ some i → ⊥
    none-ne-some h = cc

-- On a good state of the master (the nodes in the order of their numbers, at least one, each with
-- as many rows as the index gives it, no two further apart than one row) a WHERE always answers,
-- with the node that has the row; a row that was known stays where it was, no other row moves, and
-- the state is good again, so the rows stay balanced.
pub place_row_lem :
    (inet_ntop : ℕ → Bytes) (row : Bytes) (s : Master)
    → Good s
    → (s' : Master) × (place_row inet_ntop row s ≡ done s') × Placed inet_ntop row s s'
place_row_lem inet_ntop row s g = elim (Option-cases (lookup row s.node_index)) [
  | inl e ↦ place_new inet_ntop row s g e
  | inr (id, e) ↦ place_known inet_ntop row s id g e
]
