-- ===== src/DataServer/Table.antt =====
-- Cells by row and column: `table[row][col]`, `count` and `erase`.
pub mod Laws
use google_cloud_final.Base.{
  ◌≡◌, refl, ap, Bool, true, false, ◌&&◌, List, [], ◌∷◌, Option, none, some, arith, if◌then◌else◌,
  Bool-cases, Option-cases, inl, inr,
}
use google_cloud_final.Text.{Bytes, equal, equal_iff}
use google_cloud_final.Map.{Map, lookup, has, insert, erase}
use google_cloud_final.Map.Laws.{
  lookup-insert, lookup-erase, IsSorted, insert-IsSorted, erase-IsSorted,
}
use google_cloud_final.DataServer.{SMap, BMap}

abbrev pub row_of : Option SMap → SMap
row_of none = []
row_of (some m) = m

-- `table[row]`, which puts an empty row in if there is none
abbrev pub row_at : BMap → Bytes → SMap
row_at table row = row_of (lookup row table)

-- `table[row][col] = cell`
unfoldable pub set_cell : BMap → Bytes → Bytes → Bytes → BMap
set_cell table row col contents = insert row (insert col (some contents) (row_at table row)) table

-- `table.at(row).erase(col)`, for a row that is there
unfoldable pub erase_cell : BMap → Bytes → Bytes → BMap
erase_cell table row col = insert row (erase col (row_at table row)) table

-- `table.count(row) != 0 && table.at(row).count(col) != 0`
unfoldable pub has_cell : BMap → Bytes → Bytes → Bool
unfolding has
has_cell table row col = has col (row_at table row)

-- What `*(table.at(row).at(col)->contents)` is, if both are there and no pointer is null.
unfoldable pub cell_at : BMap → Bytes → Bytes → Option Bytes
cell_at table row col = elim (lookup col (row_at table row)) [ none ↦ none | some c ↦ c ]

-- Every row is a map in order, and so is the table.
abbrev pub RowsSorted : BMap → Type 0
RowsSorted [] = Unit {0}
RowsSorted ((row, m) ∷ rest) = IsSorted m × RowsSorted rest

pub record TableSorted (table : BMap) : Type 0 where
  pub keys : IsSorted table
  pub rows : RowsSorted table
