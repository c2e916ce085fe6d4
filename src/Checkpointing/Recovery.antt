-- ===== src/Checkpointing/Recovery.antt =====
-- A checkpoint that is written and read back, in the files of the server.
use google_cloud_final.Base.{
  length, ℕ, ◌+◌, ◌≤◌, ◌≡◌, refl, sym, ap, ◌∙◌, true, false, ◌&&◌, [], ◌∷◌, ◌++◌, append_assoc,
  append-nil, arith, if◌then◌else◌,
}
use google_cloud_final.Text.{Bytes, codes, npos, substr, equal, equal_iff, equal_refl}
use google_cloud_final.Text.Search.{Avoids, Avoids-append}
use google_cloud_final.Text.Lines.{newline, lines, lines-line}
use google_cloud_final.Number.{pos, stol, long_max, print, print_long}
use google_cloud_final.Number.RoundTrip.{print-Avoids, length-print-le, stol-print}
use google_cloud_final.RowCol.Laws.{line, find_open, find_close, slice}
use google_cloud_final.Map.{lookup}
use google_cloud_final.Map.Laws.{lookup-Above, IsSorted}
use google_cloud_final.FileTool.Laws.{lookup-write_file, lookup-rename}
use google_cloud_final.FileTool.{Disk, write_file, rename}
use google_cloud_final.ServerState.{ServerState}
use google_cloud_final.Outcome.{done, Option, none, some, ◌>>=◌, or_throw}
use google_cloud_final.DataServer.{SMap, BMap}
use google_cloud_final.DataServer.Table.{set_cell, cell_at, RowsSorted, TableSorted}
use google_cloud_final.DataServer.Table.Laws.{cell_at-set_cell}
use google_cloud_final.Checkpointing.{
  version_line, tail_lines, write_to_disk, recover_checkpoint, find_version_num, replay_lines,
  reply_checkpoint_command,
}
use google_cloud_final.Checkpointing.Replay.{
  CellsFit, TableFits, restore_row, restore, replay, replay-write_table,
}

abbrev cell_of : SMap → Bytes → Option Bytes
cell_of cols col = elim (lookup col cols) [ none ↦ none | some c ↦ c ]

-- The cell that a later write to the row hides.
abbrev or_before : Option Bytes → Option Bytes → Option Bytes
or_before none old = old
or_before (some contents) old = some contents

cell_at-restore_row :
    (row : Bytes) (cols : SMap) (table : BMap) (r c : Bytes)
    → IsSorted cols
    → CellsFit row cols
    → cell_at (restore_row row cols table) r c
      ≡ (if equal row r then or_before (cell_of cols c) (cell_at table r c) else cell_at table r c)
unfolding lookup
cell_at-restore_row row [] table r c s f = ground arith
cell_at-restore_row row ((col, none) ∷ cols) table r c s f = absurd f
cell_at-restore_row row ((col, some contents) ∷ cols) table r c s f =
    cell_at-restore_row row cols (set_cell table row col contents) r c s.1 f.1
    ∙ ground (
      arith,
      cell_at-set_cell table row col contents r c,
      equal_iff col c,
      lookup-Above col cols s.0,
    )

cell_at-absent : (r c : Bytes) (rows : BMap) → lookup r rows ≡ none → cell_at rows r c ≡ none
unfolding cell_at lookup
cell_at-absent r c rows h = rw (h, cell_at)

cell_at-cons :
    (row : Bytes) (cols : SMap) (rows : BMap) (r c : Bytes)
    → cell_at ((row, cols) ∷ rows) r c ≡ (if equal row r then cell_of cols c else cell_at rows r c)
unfolding cell_at lookup
cell_at-cons row cols rows r c = ground arith

-- The restored table has the cells of the written one over those of the table before.
cell_at-restore :
    (rows table : BMap) (r c : Bytes)
    → IsSorted rows
    → RowsSorted rows
    → TableFits rows
    → cell_at (restore rows table) r c ≡ or_before (cell_at rows r c) (cell_at table r c)
cell_at-restore [] table r c s rs f = unfold cell_at lookup in refl
cell_at-restore ((row, cols) ∷ rows) table r c s rs f =
    cell_at-restore rows (restore_row row cols table) r c s.1 rs.1 f.2
    ∙ ground (
      arith,
      equal_iff row r,
      cell_at-restore_row row cols table r c rs.0 f.1,
      cell_at-cons row cols rows r c,
      cell_at-absent r c rows,
      lookup-Above row rows s.0,
    )

abbrev tem_path : ServerState → Bytes
tem_path s = s.file_path ++ codes "/tem.txt"

version_line-append :
    (n : ℕ) (s : Bytes)
    → version_line n ++ s ≡ (codes "Version number: <" ++ (print n ++ codes ">")) ++ newline ∷ s
unfolding print_long
version_line-append n s = simp append_assoc

header-Avoids : (n : ℕ) → Avoids newline (codes "Version number: <" ++ (print n ++ codes ">"))
header-Avoids n =
    Avoids-append newline (codes "Version number: <") (print n ++ codes ">") (omega arith)
      (Avoids-append newline (print n) (codes ">") (print-Avoids newline n refl) (omega arith))

-- The first line of a checkpoint is its version, and the commands follow.
pub lines-version_line :
    (n : ℕ) (s : Bytes)
    → lines (version_line n ++ s) ≡ (codes "Version number: <" ++ (print n ++ codes ">")) ∷ lines s
lines-version_line n s =
    ap lines (version_line-append n s)
    ∙ lines-line (codes "Version number: <" ++ (print n ++ codes ">")) s (header-Avoids n)

replay_nothing : (table : BMap) → replay [] table ≡ done table
unfolding replay_lines lines
replay_nothing table = refl

or_before_nil :
    (table : BMap) (r c : Bytes)
    → or_before (cell_at table r c) (cell_at [] r c) ≡ cell_at table r c
unfolding cell_at lookup
or_before_nil table r c = ground arith

recover_checkpoint-file :
    (s : ServerState) (d : Disk) (table : BMap) (text : Bytes)
    → lookup s.checkpointing_path d.files ≡ some text
    → recover_checkpoint s d table
      ≡ replay_lines reply_checkpoint_command [] (tail_lines (lines text)) table
unfolding recover_checkpoint
recover_checkpoint-file s d table text h = rw (h, recover_checkpoint)

-- The version stands between the angle brackets of the first line.
find_version_num-file :
    (s : ServerState) (d : Disk) (n : ℕ) (body : Bytes)
    → lookup s.checkpointing_path d.files ≡ some (version_line n ++ body)
    → n ≤ long_max
    → find_version_num s d ≡ done (pos n)
unfolding find_version_num
find_version_num-file s d n body h small =
    let pre = codes "Version number: " in
    let no_open : Avoids b'<' pre = omega arith in
    let no_close : Avoids b'>' pre = omega arith in
    let name = print-Avoids b'>' n refl in
    let fits : length pre + length (print n) + 2 ≤ npos = omega (arith, length-print-le n) in
    rw (h, find_version_num)
      (rw
        (
          lines-version_line n body,
          find_open pre (print n) [] no_open no_close name fits,
          find_close pre (print n) [] no_open no_close name fits,
        )
        (ap (λ o. or_throw o >>= (λ number. or_throw (stol number)))
            (ap (λ k. substr (line pre (print n) []) 17 k) (omega arith)
              ∙ slice pre (print n) [] no_open no_close name fits)
          ∙ ap or_throw (ap stol (sym (append-nil (print n))) ∙ stol-print n [] small tt)))

module _ (s : ServerState) (d : Disk) (table : BMap) (fits : TableFits table)
    (can_write : d.writable (s.file_path ++ codes "/tem.txt") ≡ true)
    (two_files : equal s.log_path s.checkpointing_path ≡ false) where
  -- The checkpoint file holds the version and the entries.
  pub write_to_disk_lem :
      (d' : Disk) × (write_to_disk s table d ≡ done (true, d'))
      × (lookup s.checkpointing_path d'.files
          ≡ some (version_line s.seq_id ++ (replay-write_table table fits).0))
  unfolding write_to_disk
  write_to_disk_lem =
      let (body, written, read) = replay-write_table table fits in
      let text = version_line s.seq_id ++ body in
      let saved = (write_file d (tem_path s) text).1 in
      let renamed = rename saved (tem_path s) s.checkpointing_path in
      (
        (write_file renamed s.log_path []).1,
        rw (can_write, written),
        lookup-write_file renamed s.log_path [] s.checkpointing_path
            ∙ (if_skipped renamed
                ∙ lookup-rename saved (tem_path s) s.checkpointing_path text (
                    lookup-write_file d (tem_path s) text (tem_path s)
                    ∙ ground (arith, equal_refl (tem_path s)))),
      )
    where
      if_skipped :
          (e : Disk)
          → (if e.writable s.log_path && equal s.log_path s.checkpointing_path
              then some []
              else lookup s.checkpointing_path e.files)
            ≡ lookup s.checkpointing_path e.files
      if_skipped e = ground arith

  -- If the names and the data of a sorted table can stand in a checkpoint (no ">" and no newline
  -- in a name, no line of the data that is a dot alone), the temporary file can be written and log
  -- and checkpoint are two files, then the checkpoint is written, and reading it into an empty
  -- table gives a table with the same cells.
  pub checkpoint_recovers :
      TableSorted table
      → (d' : Disk) × (write_to_disk s table d ≡ done (true, d'))
        × ((t' : BMap) × (recover_checkpoint s d' [] ≡ done t')
            × ((r c : Bytes) → cell_at t' r c ≡ cell_at table r c))
  checkpoint_recovers sorted =
      let (body, written, read) = replay-write_table table fits in
      let (d', saved, stored) = write_to_disk_lem in
      (
        d',
        saved,
        (
          restore table [],
          recover_checkpoint-file s d' [] (version_line s.seq_id ++ body) stored
              ∙ (ap (λ ls. replay_lines reply_checkpoint_command [] (tail_lines ls) [])
                    (lines-version_line s.seq_id body)
                  ∙ (ap (λ t. replay t []) (sym (append-nil body))
                      ∙ (read [] [] ∙ replay_nothing (restore table [])))),
          λ r c.
              cell_at-restore table [] r c sorted.keys sorted.rows fits ∙ or_before_nil table r c,
        ),
      )

  -- Under the conditions on the table and the files under which a checkpoint is written, and if
  -- the sequence number fits a long, the version that is read from the checkpoint is the sequence
  -- number at which it was written.
  pub find_version_num_lem :
      s.seq_id ≤ long_max
      → (d' : Disk) × (write_to_disk s table d ≡ done (true, d'))
        × (find_version_num s d' ≡ done (pos s.seq_id))
  find_version_num_lem small =
      let (d', saved, stored) = write_to_disk_lem in
      (
        d',
        saved,
        find_version_num-file s d' s.seq_id (replay-write_table table fits).0 stored small,
      )
