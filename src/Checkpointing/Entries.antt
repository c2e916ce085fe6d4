-- ===== src/Checkpointing/Entries.antt =====
-- One command of a checkpoint or a log, read back from its text.
use mathlib.Core.Path.{ap₂}
use google_cloud_final.Base.{
  ℕ, ◌+◌, ◌≤◌, ◌≡◌, refl, sym, ap, ◌∙◌, false, List, [], ◌∷◌, ◌++◌, length, append_assoc,
  length-append, arith, Option, none, some,
}
use google_cloud_final.Text.{
  Bytes, codes, npos, add64, sub64, or_npos, equal, is_prefix, position, find, substr,
}
use google_cloud_final.Text.Search.{Avoids, Avoids-append, find-char, substr_middle}
use google_cloud_final.Text.Lines.{newline, lines, unlines, AllAvoid, lines-AllAvoid, unlines-lines}
use google_cloud_final.RowCol.{row_col}
use google_cloud_final.RowCol.Laws.{line, row_col_lem}
use google_cloud_final.Outcome.{Outcome, done, ◌>>=◌}
use google_cloud_final.DataServer.{BMap}
use google_cloud_final.DataServer.Table.{set_cell}
use google_cloud_final.Checkpointing.{put_line, end_mark, replay_lines, reply_checkpoint_command}

-- No line is a dot alone.
abbrev pub NoDots : List Bytes → Type 0
NoDots [] = Unit {0}
NoDots (l ∷ ls) = (equal l (codes ".") ≡ false) × NoDots ls

-- No line of the data is a dot alone, so that the data can stand in a checkpoint.
abbrev pub IsStorable : Bytes → Type 0
IsStorable contents = NoDots (lines (contents ++ newline ∷ []))

-- A row or column that can be written between angle brackets on a line.
pub record IsName (name : Bytes) : Type 0 where
  pub no_close : Avoids b'>' name
  pub no_newline : Avoids newline name

abbrev pub dot : Bytes
dot = b'.' ∷ []

-- The lines up to a dot are handed over as one command.
pub replay_lines-block :
    (command : Bytes → BMap → Outcome BMap) (so_far : Bytes) (ls rest : List Bytes) (table : BMap)
    → NoDots ls
    → replay_lines command so_far (ls ++ dot ∷ rest) table ≡ (
        command (so_far ++ (unlines ls ++ (dot ++ newline ∷ []))) table
        >>= replay_lines command [] rest)
unfolding replay_lines equal
replay_lines-block command so_far [] rest table h = refl
replay_lines-block command so_far (l ∷ ls) rest table h = rw h.0 (
    replay_lines-block command (so_far ++ (l ++ newline ∷ [])) ls rest table h.1
    ∙ ap (λ t. command t table >>= replay_lines command [] rest)
        (append_assoc so_far (l ++ newline ∷ []) (unlines ls ++ (dot ++ newline ∷ []))
          ∙ ap (λ t. so_far ++ t)
              (append_assoc l (newline ∷ []) (unlines ls ++ (dot ++ newline ∷ []))
                ∙ sym (append_assoc l (newline ∷ unlines ls) (dot ++ newline ∷ [])))))

-- A line other than a dot does not begin the end mark.
no_dot-prefix :
    (l s : Bytes)
    → equal l (codes ".") ≡ false
    → Avoids newline l
    → is_prefix (b'.' ∷ newline ∷ []) (l ++ newline ∷ s) ≡ false
unfolding is_prefix equal
no_dot-prefix [] s h a = refl
no_dot-prefix (c ∷ []) s h a = ground arith
no_dot-prefix (c ∷ d ∷ l) s h a = ground (arith, a.1.0)

shift : ℕ → Option ℕ → Option ℕ
shift k none = none
shift k (some i) = some (k + i)

-- The end mark is not within a line.
position_skip :
    (l s : Bytes)
    → Avoids newline l
    → position end_mark (l ++ s) ≡ shift (length l) (position end_mark s)
unfolding position shift
position_skip [] s a = ground arith
position_skip (c ∷ l) s a = ground (arith, position_skip l s a.1)

end_mark_at_once : position end_mark end_mark ≡ some 0
unfolding position
end_mark_at_once = refl

-- A newline that does not begin the end mark is passed over.
position_next :
    (s : Bytes)
    → is_prefix (b'.' ∷ newline ∷ []) s ≡ false
    → position end_mark (newline ∷ s) ≡ shift 1 (position end_mark s)
unfolding position shift
position_next s h = ground (arith, h)

-- The end mark first stands before the dot that ends the lines.
end_mark-position :
    (l : Bytes) (ls : List Bytes)
    → Avoids newline l
    → AllAvoid newline ls
    → NoDots ls
    → position end_mark (l ++ newline ∷ (unlines ls ++ (dot ++ newline ∷ [])))
      ≡ some (length l + length (unlines ls))
unfolding shift
end_mark-position l [] a aa h =
    position_skip l (newline ∷ (dot ++ newline ∷ [])) a ∙ ap (shift (length l)) end_mark_at_once
end_mark-position l (l' ∷ ls) a aa h =
    position_skip l (newline ∷ (unlines (l' ∷ ls) ++ (dot ++ newline ∷ []))) a
    ∙ (ap (λ s. shift (length l) (position end_mark (newline ∷ s)))
          (append_assoc l' (newline ∷ unlines ls) (dot ++ newline ∷ []))
        ∙ (ap (shift (length l)) (
              position_next (l' ++ newline ∷ (unlines ls ++ (dot ++ newline ∷ [])))
                (no_dot-prefix l' (unlines ls ++ (dot ++ newline ∷ [])) h.0 aa.0)
              ∙ ap (shift 1) (end_mark-position l' ls aa.0 aa.1 h.1))
            ∙ ap some (omega (arith, length-append l' (newline ∷ unlines ls)))))

-- The first line of an entry, without its newline.
abbrev pub named_line : Bytes → Bytes → Bytes
named_line row col = line (codes "PUT ") row (line (codes " ") col [])

pub put_line-append :
    (row col s : Bytes) → put_line row col ++ s ≡ named_line row col ++ newline ∷ s
put_line-append row col s = simp append_assoc

-- What follows the names fits a `size_t`.
abbrev pub FitsLine : Bytes → Bytes → Bytes → Type 0
FitsLine row col contents = length row + length col + length contents + 16 ≤ npos

pub named_line-names :
    (row col : Bytes)
    → IsName row
    → IsName col
    → length row + length col + 16 ≤ npos
    → row_col (named_line row col) ≡ some (row, col)
named_line-names row col r c h =
    row_col_lem (codes "PUT ") row (codes " ") col [] (omega arith) (omega arith) r.no_close
      (omega arith) (omega arith) c.no_close (omega arith)
      (omega (arith, length-append col (b'>' ∷ [])))

pub named_line-Avoids :
    (row col : Bytes) → IsName row → IsName col → Avoids newline (named_line row col)
named_line-Avoids row col r c = Avoids-append newline (codes "PUT <") _ (omega arith) (
    Avoids-append newline row _ r.no_newline (
      Avoids-append newline (codes "> <") _ (omega arith)
        (Avoids-append newline col (codes ">") c.no_newline (omega arith))))

length-named_line : (row col : Bytes) → length (named_line row col) ≡ length row + length col + 9
length-named_line row col =
    omega (arith, length-append row (b'>' ∷ line (codes " ") col []), length-append col (b'>' ∷ []))

-- The parts of an entry, as the replay finds them.
module _ (l contents : Bytes) (one_line : Avoids newline l) (storable : IsStorable contents)
    (fits : length l + length contents + 2 ≤ npos) where
  abbrev pub entry : Bytes
  entry = l ++ newline ∷ (contents ++ end_mark)

  pub entry-line_end : find entry (codes "\n") ≡ length l
  entry-line_end = find-char newline l (contents ++ end_mark) one_line

  pub entry-line : substr entry 0 (length l) ≡ some l
  entry-line = substr_middle [] l (newline ∷ (contents ++ end_mark))

  pub entry-end_mark : find entry end_mark ≡ length l + length contents + 1
  unfolding find
  entry-end_mark =
      ap (λ s. or_npos (position end_mark s)) regroup
      ∙ (ap or_npos (
            end_mark-position l (lines (contents ++ newline ∷ [])) one_line
              (lines-AllAvoid (contents ++ newline ∷ [])) storable)
          ∙ (ap (λ s. length l + length s) (unlines-lines contents)
              ∙ omega (arith, length-append contents (newline ∷ []))))
    where
      regroup :
          entry
          ≡ l ++ newline ∷ (unlines (lines (contents ++ newline ∷ [])) ++ (dot ++ newline ∷ []))
      regroup =
          ap (λ s. l ++ newline ∷ s)
            (sym (append_assoc contents (newline ∷ []) (dot ++ newline ∷ []))
              ∙ ap (λ s. s ++ (dot ++ newline ∷ [])) (sym (unlines-lines contents)))

  pub entry-contents :
      substr entry
        (add64 (length l) 1)
        (sub64 (sub64 (length l + length contents + 1) (length l)) 1)
      ≡ some contents
  entry-contents =
      ap₂ (λ a n. substr entry a n) (omega (arith, length-append l (newline ∷ []))) (omega arith)
      ∙ (ap (λ s. substr s (length (l ++ newline ∷ [])) (length contents))
            (sym (append_assoc l (newline ∷ []) (contents ++ end_mark)))
          ∙ substr_middle (l ++ newline ∷ []) contents end_mark)

-- The entry that a checkpoint holds for a cell, read back, writes that cell: for names with no ">"
-- and no newline, and data with no line that is a dot alone, of a length that fits a size_t.
pub reply_checkpoint_command_lem :
    (row col contents : Bytes) (table : BMap)
    → IsName row
    → IsName col
    → FitsLine row col contents
    → IsStorable contents
    → reply_checkpoint_command (put_line row col ++ (contents ++ end_mark)) table
      ≡ done (set_cell table row col contents)
unfolding reply_checkpoint_command
reply_checkpoint_command_lem row col contents table r c h st =
    let l = named_line row col in
    let one_line = named_line-Avoids row col r c in
    let fits : length l + length contents + 2 ≤ npos = omega (arith, length-named_line row col) in
    rw (
      put_line-append row col (contents ++ end_mark),
      entry-line_end l contents one_line st fits,
      entry-line l contents one_line st fits,
      named_line-names row col r c (omega arith),
      entry-end_mark l contents one_line st fits,
      entry-contents l contents one_line st fits,
    )
