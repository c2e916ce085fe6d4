-- ===== src/Master/Nodes.antt =====
-- The nodes: their numbers, the one with the least rows, and the balance of the rows.
use google_cloud_final.Base.{
  ℕ, zero, suc, ◌+◌, ◌≤◌, ◌<◌, ◌≡◌, refl, ap, ◌∙◌, List, [], ◌∷◌, length, ltb, get_elem?, arith,
  ◌⊎◌, inl, inr, Bool-cases, some, none, Option,
}
use google_cloud_final.Master.{Node, least, add_row}

-- The nodes are numbered from `i`.
abbrev pub Numbered : ℕ → List Node → Type 0
Numbered i [] = Unit {0}
Numbered i (n ∷ ns) = (n.node_id ≡ i) × Numbered (suc i) ns

-- No node has less than `low` rows.
abbrev pub AtLeast : ℕ → List Node → Type 0
AtLeast low [] = Unit {0}
AtLeast low (n ∷ ns) = (low ≤ n.row_num) × AtLeast low ns

-- No node has more than `high` rows.
abbrev pub AtMost : ℕ → List Node → Type 0
AtMost high [] = Unit {0}
AtMost high (n ∷ ns) = (n.row_num ≤ high) × AtMost high ns

-- Two nodes differ by one row at most.
pub record Balanced (nodes : List Node) : Type 0 where
  pub low : ℕ
  pub at_least : AtLeast low nodes
  pub at_most : AtMost (suc low) nodes

AtLeast-le : (a b : ℕ) (ns : List Node) → a ≤ b → AtLeast b ns → AtLeast a ns
AtLeast-le a b [] h k = tt
AtLeast-le a b (n ∷ ns) h k = (omega arith, AtLeast-le a b ns h k.1)

pub AtMost-le : (a b : ℕ) (ns : List Node) → a ≤ b → AtMost a ns → AtMost b ns
AtMost-le a b [] h k = tt
AtMost-le a b (n ∷ ns) h k = (omega arith, AtMost-le a b ns h k.1)

-- The node that stands at `k`, with the least rows of all.
pub record IsLeast (ns : List Node) (k : ℕ) : Type 0 where
  pub node : Node
  pub stands : get_elem? ns k ≡ some node
  pub least_rows : AtLeast node.row_num ns

-- The loop either keeps what it starts with, or finds a node with less rows.
least-cases :
    (min min_id i : ℕ) (ns : List Node)
    → Numbered i ns
    → ((least min min_id ns ≡ min_id) × AtLeast min ns)
      ⊎ ((k : ℕ) × (found : IsLeast ns k) × (least min min_id ns ≡ i + k)
          × (found.node.row_num < min))
unfolding least
least-cases min min_id i [] h = inl (refl, tt)
least-cases min min_id i (n ∷ ns) h = elim (Bool-cases (ltb n.row_num min)) [
  | inl less ↦ elim (least-cases n.row_num n.node_id (suc i) ns h.1) [
    | inl (e, all) ↦ inr (
      0,
      record { node = n; stands = refl; least_rows = (omega arith, all) },
      rw less (e ∙ h.0 ∙ omega arith),
      ground arith,
    )
    | inr (k, found, e, smaller) ↦ inr (
      suc k,
      record {
        node = found.node;
        stands = found.stands;
        least_rows = (omega arith, found.least_rows);
      },
      rw less (e ∙ omega arith),
      ground arith,
    )
  ]
  | inr more ↦ elim (least-cases min min_id (suc i) ns h.1) [
    | inl (e, all) ↦ inl (rw more e, (ground arith, all))
    | inr (k, found, e, smaller) ↦ inr (
      suc k,
      record {
        node = found.node;
        stands = found.stands;
        least_rows = (ground arith, found.least_rows);
      },
      rw more (e ∙ omega arith),
      smaller,
    )
  ]
]

-- The search from the first node finds a node with the least rows.
pub least_lem :
    (n : Node) (ns : List Node)
    → Numbered 0 (n ∷ ns)
    → IsLeast (n ∷ ns) (least n.row_num 0 (n ∷ ns))
least_lem n ns h = elim (least-cases n.row_num 0 0 (n ∷ ns) h) [
  | inl (e, all) ↦ rw e (record { node = n; stands = refl; least_rows = all })
  | inr (k, found, e, smaller) ↦
      let at_k : least n.row_num 0 (n ∷ ns) ≡ k = e ∙ omega arith in rw at_k found
]

pub add_row-Numbered : (k i : ℕ) (ns : List Node) → Numbered i ns → Numbered i (add_row k ns)
unfolding add_row
add_row-Numbered k i [] h = tt
add_row-Numbered zero i (n ∷ ns) h = (h.0, h.1)
add_row-Numbered (suc k) i (n ∷ ns) h = (h.0, add_row-Numbered k (suc i) ns h.1)

pub length-add_row : (k : ℕ) (ns : List Node) → length (add_row k ns) ≡ length ns
unfolding add_row
length-add_row k [] = refl
length-add_row zero (n ∷ ns) = refl
length-add_row (suc k) (n ∷ ns) = ap suc (length-add_row k ns)

add_row-AtLeast : (low k : ℕ) (ns : List Node) → AtLeast low ns → AtLeast low (add_row k ns)
unfolding add_row
add_row-AtLeast low k [] h = tt
add_row-AtLeast low zero (n ∷ ns) h = (omega arith, h.1)
add_row-AtLeast low (suc k) (n ∷ ns) h = (h.0, add_row-AtLeast low k ns h.1)

add_row-AtMost :
    (high k : ℕ) (ns : List Node) (n : Node)
    → get_elem? ns k ≡ some n
    → n.row_num < high
    → AtMost high ns
    → AtMost high (add_row k ns)
unfolding add_row
add_row-AtMost high k [] m e less h = tt
add_row-AtMost high zero (n ∷ ns) m e less h = (omega (arith, less, ap (λ o. rows_of o) e), h.1)
  where
    rows_of : Option Node → ℕ
    rows_of none = 0
    rows_of (some n) = n.row_num
add_row-AtMost high (suc k) (n ∷ ns) m e less h = (h.0, add_row-AtMost high k ns m e less h.1)

-- What stands in the list is at most the bound.
pub elem-AtMost :
    (high k : ℕ) (ns : List Node) (n : Node)
    → get_elem? ns k ≡ some n
    → AtMost high ns
    → n.row_num ≤ high
elem-AtMost high k [] m e h = cc
elem-AtMost high zero (n ∷ ns) m e h = ground (arith, e, h)
elem-AtMost high (suc k) (n ∷ ns) m e h = elem-AtMost high k ns m e h.1

elem-AtLeast :
    (low k : ℕ) (ns : List Node) (n : Node)
    → get_elem? ns k ≡ some n
    → AtLeast low ns
    → low ≤ n.row_num
elem-AtLeast low k [] m e h = cc
elem-AtLeast low zero (n ∷ ns) m e h = ground (arith, e, h)
elem-AtLeast low (suc k) (n ∷ ns) m e h = elem-AtLeast low k ns m e h.1

-- A row more on a node with the least rows keeps the balance.
pub add_row-Balanced :
    (k : ℕ) (ns : List Node) → IsLeast ns k → Balanced ns → Balanced (add_row k ns)
add_row-Balanced k ns found h =
    let m = found.node.row_num in
    let above = elem-AtLeast h.low k ns found.node found.stands h.at_least in
    record {
      low = m;
      at_least = add_row-AtLeast m k ns found.least_rows;
      at_most =
          add_row-AtMost (suc m) k ns found.node found.stands (omega arith)
            (AtMost-le (suc h.low) (suc m) ns (omega arith) h.at_most);
    }
