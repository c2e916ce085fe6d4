-- ===== src/Worker/Invariant.antt =====
-- What every command keeps: the order of the table, that no pointer in it is null, the
-- replicas that a primary needs, and that the sequence number never falls.
use google_cloud_final.Base.{◌≤◌, ◌≡◌, ap, Bool, true, false, [], ◌∷◌, arith, Bool-cases, inl, inr}
use google_cloud_final.Text.{Bytes, equal}
use google_cloud_final.Map.{lookup, insert, erase}
use google_cloud_final.BackStore.{BackStore}
use google_cloud_final.BackStore.Links.{AllLinked}
use google_cloud_final.Outcome.{Option, none, some}
use google_cloud_final.DataServer.{SMap, BMap, Worker}
use google_cloud_final.DataServer.Table.{row_of, row_at, set_cell, erase_cell, TableSorted}

-- No cell is a null pointer.
abbrev pub RowSet : SMap → Type 0
RowSet [] = Unit {0}
RowSet ((col, none) ∷ cols) = ⊥
RowSet ((col, some contents) ∷ cols) = RowSet cols

abbrev pub NoNull : BMap → Type 0
NoNull [] = Unit {0}
NoNull ((row, cols) ∷ rows) = RowSet cols × NoNull rows

-- A primary has its replicas, and each running replica has its connection.
abbrev pub Equipped : Bool → Option BackStore → Type 0
Equipped true none = ⊥
Equipped false none = Unit {0}
Equipped primary (some b) = AllLinked b.nodes

pub record Good (table : BMap) (primary : Bool) (back_store : Option BackStore) : Type 0 where
  pub sorted : TableSorted table
  pub no_null : NoNull table
  pub equipped : Equipped primary back_store

abbrev pub Inv : Worker → Type 0
Inv s = Good s.table s.server.primary s.back_store

-- A command from `s` to `s'`.
abbrev pub Kept : Worker → Worker → Type 0
Kept s s' = Inv s' × (s.server.seq_id ≤ s'.server.seq_id)

insert-RowSet :
    (col contents : Bytes) (cols : SMap) → RowSet cols → RowSet (insert col (some contents) cols)
unfolding insert
insert-RowSet col contents [] h = tt
insert-RowSet col contents ((c, none) ∷ cols) h = absurd h
insert-RowSet col contents ((c, some x) ∷ cols) h =
    ground (arith, insert-RowSet col contents cols h)

erase-RowSet : (col : Bytes) (cols : SMap) → RowSet cols → RowSet (erase col cols)
unfolding erase
erase-RowSet col [] h = tt
erase-RowSet col ((c, none) ∷ cols) h = absurd h
erase-RowSet col ((c, some x) ∷ cols) h = ground (arith, erase-RowSet col cols h)

insert-NoNull :
    (row : Bytes) (cols : SMap) (table : BMap)
    → RowSet cols
    → NoNull table
    → NoNull (insert row cols table)
unfolding insert
insert-NoNull row cols [] h k = (h, tt)
insert-NoNull row cols ((r, m) ∷ rest) h k = ground (arith, insert-NoNull row cols rest h k.1)

pub row_at-RowSet : (table : BMap) (row : Bytes) → NoNull table → RowSet (row_at table row)
unfolding lookup
row_at-RowSet [] row h = tt
row_at-RowSet ((r, m) ∷ rest) row h = ground (arith, row_at-RowSet rest row h.1)

pub set_cell-NoNull :
    (table : BMap) (row col contents : Bytes)
    → NoNull table
    → NoNull (set_cell table row col contents)
unfolding set_cell
set_cell-NoNull table row col contents h =
    insert-NoNull row _ table (insert-RowSet col contents _ (row_at-RowSet table row h)) h

pub erase_cell-NoNull :
    (table : BMap) (row col : Bytes) → NoNull table → NoNull (erase_cell table row col)
unfolding erase_cell
erase_cell-NoNull table row col h =
    insert-NoNull row _ table (erase-RowSet col _ (row_at-RowSet table row h)) h

-- A cell that is found holds something.
pub lookup-RowSet :
    (col : Bytes) (cols : SMap) (cell : Option Bytes)
    → RowSet cols
    → lookup col cols ≡ some cell
    → (contents : Bytes) × (cell ≡ some contents)
unfolding lookup
lookup-RowSet col [] cell h e = cc
lookup-RowSet col ((c, none) ∷ cols) cell h e = absurd h
lookup-RowSet col ((c, some x) ∷ cols) cell h e = elim (Bool-cases (equal c col)) [
  | inl hit ↦ (x, ground arith)
  | inr miss ↦ lookup-RowSet col cols cell h (ground arith)
]

pub lookup-row-RowSet :
    (table : BMap) (row : Bytes) (cols : SMap)
    → NoNull table
    → lookup row table ≡ some cols
    → RowSet cols
lookup-row-RowSet table row cols h e = rw (ap row_of e) at (row_at-RowSet table row h)
