-- ===== src/Checkpointing/Replay.antt =====
-- The replay of a whole checkpoint file.
use google_cloud_final.Base.{
  ◌≡◌, refl, sym, ap, ◌∙◌, false, List, [], ◌∷◌, ◌++◌, append_assoc, arith,
}
use google_cloud_final.Text.{Bytes, codes, equal}
use google_cloud_final.Text.Search.{Avoids}
use google_cloud_final.Text.Lines.{
  newline, lines, unlines, AllAvoid, lines-unlines-append, lines-AllAvoid, unlines-lines,
  unlines-append,
}
use google_cloud_final.Outcome.{Outcome, done, none, some, ◌>>=◌}
use google_cloud_final.DataServer.{SMap, BMap}
use google_cloud_final.DataServer.Table.{set_cell}
use google_cloud_final.Checkpointing.{
  put_line, end_mark, write_row, write_table, replay_lines, reply_checkpoint_command,
}
use google_cloud_final.Checkpointing.Entries.{
  IsStorable, IsName, FitsLine, dot, named_line, named_line-Avoids, put_line-append,
  replay_lines-block, reply_checkpoint_command_lem,
}

-- What a cell and a row must be to stand in a checkpoint.
pub record CellFits (row col contents : Bytes) : Type 0 where
  pub col_name : IsName col
  pub fits : FitsLine row col contents
  pub storable : IsStorable contents

abbrev pub CellsFit : Bytes → SMap → Type 0
CellsFit row [] = Unit {0}
CellsFit row ((col, none) ∷ cols) = ⊥
CellsFit row ((col, some contents) ∷ cols) = CellFits row col contents × CellsFit row cols

abbrev pub TableFits : BMap → Type 0
TableFits [] = Unit {0}
TableFits ((row, cols) ∷ rows) = IsName row × CellsFit row cols × TableFits rows

-- The cells, put into a table one by one.
abbrev pub restore_row : Bytes → SMap → BMap → BMap
restore_row row [] table = table
restore_row row ((col, none) ∷ cols) table = restore_row row cols table
restore_row row ((col, some contents) ∷ cols) table =
    restore_row row cols (set_cell table row col contents)

abbrev pub restore : BMap → BMap → BMap
restore [] table = table
restore ((row, cols) ∷ rows) table = restore rows (restore_row row cols table)

abbrev pub replay : Bytes → BMap → Outcome BMap
replay text = replay_lines reply_checkpoint_command [] (lines text)

named_line-ne-dot : (row col : Bytes) → equal (named_line row col) (codes ".") ≡ false
unfolding equal
named_line-ne-dot row col = refl

-- A block of lines, the dot and the rest.
block_lines :
    (l contents rest : Bytes)
    → l ++ newline ∷ (contents ++ (end_mark ++ rest))
      ≡ unlines ((l ∷ lines (contents ++ newline ∷ [])) ++ dot ∷ []) ++ rest
block_lines l contents rest = simp (unlines-append, unlines-lines, append_assoc)

unlines_block :
    (l contents : Bytes)
    → unlines (l ∷ lines (contents ++ newline ∷ [])) ++ (dot ++ newline ∷ [])
      ≡ l ++ newline ∷ (contents ++ end_mark)
unlines_block l contents = simp (unlines-lines, append_assoc)

block-AllAvoid :
    (l : Bytes) (ls : List Bytes)
    → Avoids newline l
    → AllAvoid newline ls
    → AllAvoid newline ((l ∷ ls) ++ dot ∷ [])
block-AllAvoid l [] a aa = (a, omega arith)
block-AllAvoid l (l' ∷ ls) a aa = (a, block-AllAvoid l' ls aa.0 aa.1)

-- One entry is replayed, and the rest goes on from its cell.
replay-entry :
    (row col contents rest : Bytes) (table : BMap)
    → IsName row
    → CellFits row col contents
    → replay (put_line row col ++ (contents ++ (end_mark ++ rest))) table
      ≡ replay rest (set_cell table row col contents)
replay-entry row col contents rest table r f =
    let l = named_line row col in
    let ls = lines (contents ++ newline ∷ []) in
    let read = lines-unlines-append ((l ∷ ls) ++ dot ∷ []) rest (
      block-AllAvoid l ls (named_line-Avoids row col r f.col_name)
        (lines-AllAvoid (contents ++ newline ∷ []))) in
    ap (λ t. replay t table)
      (put_line-append row col (contents ++ (end_mark ++ rest)) ∙ block_lines l contents rest)
    ∙ (ap (λ t. replay_lines reply_checkpoint_command [] t table)
          (read ∙ append_assoc (l ∷ ls) (dot ∷ []) (lines rest))
        ∙ (replay_lines-block reply_checkpoint_command [] (l ∷ ls) (lines rest) table
              (named_line-ne-dot row col, f.storable)
            ∙ ap (λ o. o >>= replay_lines reply_checkpoint_command [] (lines rest))
                (ap (λ t. reply_checkpoint_command t table)
                    (unlines_block l contents
                      ∙ sym (put_line-append row col (contents ++ end_mark)))
                  ∙ reply_checkpoint_command_lem row col contents table r f.col_name f.fits
                      f.storable)))

replay-write_row :
    (row : Bytes) (cols : SMap)
    → IsName row
    → CellsFit row cols
    → (text : Bytes) × (write_row row cols ≡ done text)
      × ((rest : Bytes) (table : BMap)
          → replay (text ++ rest) table ≡ replay rest (restore_row row cols table))
unfolding write_row
replay-write_row row [] r f = ([], refl, λ rest table. refl)
replay-write_row row ((col, none) ∷ cols) r f = absurd f
replay-write_row row ((col, some contents) ∷ cols) r f =
    let (text, written, read) = replay-write_row row cols r f.1 in
    (
      put_line row col ++ (contents ++ (end_mark ++ text)),
      rw written,
      λ rest table.
          ap (λ t. replay t table)
            (append_assoc (put_line row col) (contents ++ (end_mark ++ text)) rest
              ∙ ap (λ t. put_line row col ++ t) (append_assoc contents (end_mark ++ text) rest))
          ∙ (replay-entry row col contents (text ++ rest) table r f.0
              ∙ read rest (set_cell table row col contents)),
    )

-- A table that fits is written, and its replay puts back its cells.
pub replay-write_table :
    (rows : BMap)
    → TableFits rows
    → (text : Bytes) × (write_table rows ≡ done text)
      × ((rest : Bytes) (table : BMap)
          → replay (text ++ rest) table ≡ replay rest (restore rows table))
unfolding write_table
replay-write_table [] f = ([], refl, λ rest table. refl)
replay-write_table ((row, cols) ∷ rows) f =
    let (here, written, read) = replay-write_row row cols f.0 f.1 in
    let (text, written', read') = replay-write_table rows f.2 in
    (
      here ++ text,
      rw (written, written'),
      λ rest table.
          ap (λ t. replay t table) (append_assoc here text rest)
          ∙ (read (text ++ rest) table ∙ read' rest (restore_row row cols table)),
    )
