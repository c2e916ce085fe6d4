-- ===== src/DataServer/Table/Laws.antt =====
-- What a cell holds after a write or a deletion, and the order of the keys.
use google_cloud_final.Base.{◌≡◌, ◌&&◌, [], ◌∷◌, none, some, arith, if◌then◌else◌}
use google_cloud_final.Text.{Bytes, equal, equal_iff}
use google_cloud_final.Map.{lookup, insert, erase}
use google_cloud_final.Map.Laws.{
  lookup-insert, lookup-erase, IsSorted, insert-IsSorted, erase-IsSorted,
}
use google_cloud_final.DataServer.{SMap, BMap}
use google_cloud_final.DataServer.Table.{
  row_at, set_cell, erase_cell, cell_at, RowsSorted, TableSorted,
}

-- A write changes one cell.
pub cell_at-set_cell :
    (table : BMap) (row col contents r c : Bytes)
    → cell_at (set_cell table row col contents) r c
      ≡ (if equal row r && equal col c then some contents else cell_at table r c)
unfolding cell_at set_cell
cell_at-set_cell table row col contents r c = ground (
  arith,
  equal_iff row r,
  lookup-insert row r (insert col (some contents) (row_at table row)) table,
  lookup-insert col c (some contents) (row_at table row),
)

-- A deletion empties one cell.
pub cell_at-erase_cell :
    (table : BMap) (row col r c : Bytes)
    → cell_at (erase_cell table row col) r c
      ≡ (if equal row r && equal col c then none else cell_at table r c)
unfolding cell_at erase_cell
cell_at-erase_cell table row col r c = ground (
  arith,
  equal_iff row r,
  lookup-insert row r (erase col (row_at table row)) table,
  lookup-erase col c (row_at table row),
)

RowsSorted-insert :
    (row : Bytes) (cols : SMap) (table : BMap)
    → IsSorted cols
    → RowsSorted table
    → RowsSorted (insert row cols table)
unfolding insert
RowsSorted-insert row cols [] h k = (h, tt)
RowsSorted-insert row cols ((r, m) ∷ rest) h k =
    ground (arith, RowsSorted-insert row cols rest h k.1)

row_at-IsSorted : (table : BMap) (row : Bytes) → RowsSorted table → IsSorted (row_at table row)
unfolding lookup
row_at-IsSorted [] row h = tt
row_at-IsSorted ((r, m) ∷ rest) row h = ground (arith, row_at-IsSorted rest row h.1)

pub set_cell-TableSorted :
    (table : BMap) (row col contents : Bytes)
    → TableSorted table
    → TableSorted (set_cell table row col contents)
unfolding set_cell
set_cell-TableSorted table row col contents h = record {
  keys = insert-IsSorted row _ table h.keys;
  rows =
      RowsSorted-insert row _ table
        (insert-IsSorted col (some contents) _ (row_at-IsSorted table row h.rows)) h.rows;
}

pub erase_cell-TableSorted :
    (table : BMap) (row col : Bytes) → TableSorted table → TableSorted (erase_cell table row col)
unfolding erase_cell
erase_cell-TableSorted table row col h = record {
  keys = insert-IsSorted row _ table h.keys;
  rows =
      RowsSorted-insert row _ table (erase-IsSorted col _ (row_at-IsSorted table row h.rows))
        h.rows;
}
