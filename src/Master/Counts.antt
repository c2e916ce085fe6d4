-- ===== src/Master/Counts.antt =====
-- The row numbers of the nodes count the rows of the index.
use google_cloud_final.Base.{
  ℕ, zero, suc, ◌+◌, ◌<◌, ◌≡◌, refl, List, [], ◌∷◌, length, arith, get_elem?, some, none, ◌==◌,
  if◌then◌else◌,
}
use google_cloud_final.Text.{Bytes, equal_iff}
use google_cloud_final.Map.{Map, lookup, insert}
use google_cloud_final.Master.{Node, add_row}

-- The rows of the index that are on node `i`.
abbrev pub rows_on : ℕ → Map ℕ → ℕ
rows_on i [] = 0
rows_on i ((row, id) ∷ index) = let rest = rows_on i index in if id == i then suc rest else rest

-- Each node, from number `i` on, has as many rows as the index says.
abbrev pub Counted : ℕ → List Node → Map ℕ → Type 0
Counted i [] index = Unit {0}
Counted i (n ∷ ns) index = (n.row_num ≡ rows_on i index) × Counted (suc i) ns index

-- Every row of the index is on a node below `count`.
abbrev pub InRange : ℕ → Map ℕ → Type 0
InRange count [] = Unit {0}
InRange count ((row, id) ∷ index) = (id < count) × InRange count index

pub rows_on-insert :
    (i : ℕ) (row : Bytes) (id : ℕ) (index : Map ℕ)
    → lookup row index ≡ none
    → rows_on i (insert row id index) ≡ (if id == i then suc (rows_on i index) else rows_on i index)
unfolding insert lookup
rows_on-insert i row id [] h = refl
rows_on-insert i row id ((r, j) ∷ index) h =
    ground (arith, equal_iff r row, rows_on-insert i row id index)

Counted-insert-other :
    (i : ℕ) (row : Bytes) (id : ℕ) (ns : List Node) (index : Map ℕ)
    → lookup row index ≡ none
    → id < i
    → Counted i ns index
    → Counted i ns (insert row id index)
Counted-insert-other i row id [] index h less c = tt
Counted-insert-other i row id (n ∷ ns) index h less c = (
  ground (arith, rows_on-insert i row id index h, c.0),
  Counted-insert-other (suc i) row id ns index h (omega arith) c.1,
)

-- A new row on the node at `k`, counted on both sides.
pub Counted-add_row :
    (i k id : ℕ) (row : Bytes) (ns : List Node) (index : Map ℕ)
    → id ≡ i + k
    → lookup row index ≡ none
    → Counted i ns index
    → Counted i (add_row k ns) (insert row id index)
unfolding add_row
Counted-add_row i k id row [] index e h c = tt
Counted-add_row i zero id row (n ∷ ns) index e h c = (
  ground (arith, rows_on-insert i row id index h, c.0),
  Counted-insert-other (suc i) row id ns index h (omega arith) c.1,
)
Counted-add_row i (suc k) id row (n ∷ ns) index e h c = (
  ground (arith, rows_on-insert i row id index h, c.0),
  Counted-add_row (suc i) k id row ns index (omega arith) h c.1,
)

pub insert-InRange :
    (count : ℕ) (row : Bytes) (id : ℕ) (index : Map ℕ)
    → id < count
    → InRange count index
    → InRange count (insert row id index)
unfolding insert
insert-InRange count row id [] h r = (h, tt)
insert-InRange count row id ((j, v) ∷ index) h r =
    ground (arith, insert-InRange count row id index h r.1)

pub lookup-InRange :
    (count : ℕ) (row : Bytes) (index : Map ℕ) (id : ℕ)
    → InRange count index
    → lookup row index ≡ some id
    → id < count
unfolding lookup
lookup-InRange count row [] id r e = cc
lookup-InRange count row ((j, v) ∷ index) id r e =
    ground (arith, lookup-InRange count row index id r.1)

pub elem-of-length :
    (ns : List Node) (k : ℕ) → k < length ns → (n : Node) × (get_elem? ns k ≡ some n)
elem-of-length [] k h = absurd (omega arith)
elem-of-length (n ∷ ns) zero h = (n, refl)
elem-of-length (n ∷ ns) (suc k) h = elem-of-length ns k (omega arith)

pub length-of-elem : (ns : List Node) (k : ℕ) (n : Node) → get_elem? ns k ≡ some n → k < length ns
length-of-elem [] k n e = cc
length-of-elem (m ∷ ns) zero n e = omega arith
length-of-elem (m ∷ ns) (suc k) n e = omega (arith, length-of-elem ns k n e)
