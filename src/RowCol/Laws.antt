-- ===== src/RowCol/Laws.antt =====
-- Names without angle brackets are read back from a line.
use google_cloud_final.Base.{
  ◌+◌, ◌≤◌, ◌≡◌, ap, sym, ◌∙◌, [], ◌∷◌, ◌++◌, append_assoc, some, arith, length, length-append,
}
use mathlib.Core.Path.{ap₂}
use google_cloud_final.Text.{Bytes, codes, npos, add64, find, substr, substr_from}
use google_cloud_final.Text.Search.{Avoids, Avoids-append, find-char, substr_middle, substr_rest}
use google_cloud_final.RowCol.{angle, row_col}

-- A line with a name in angle brackets, which stands behind `pre`.
abbrev pub line : Bytes → Bytes → Bytes → Bytes
line pre name rest = pre ++ b'<' ∷ (name ++ b'>' ∷ rest)

module _ (pre name rest : Bytes) (no_open : Avoids b'<' pre) (no_close : Avoids b'>' pre)
    (name_no_close : Avoids b'>' name) (fits : length pre + length name + 2 ≤ npos) where
  pub find_open : find (line pre name rest) (codes "<") ≡ length pre
  find_open = find-char b'<' pre (name ++ b'>' ∷ rest) no_open

  pub find_close : find (line pre name rest) (codes ">") ≡ length pre + length name + 1
  find_close =
      ap (λ s. find s (codes ">")) (sym (append_assoc pre (b'<' ∷ name) (b'>' ∷ rest)))
      ∙ (find-char b'>' (pre ++ b'<' ∷ name) rest
            (Avoids-append b'>' pre (b'<' ∷ name) no_close ((λ e. omega (arith, e)), name_no_close))
          ∙ omega (arith, length-append pre (b'<' ∷ name)))

  pub slice : substr (line pre name rest) (length pre + 1) (length name) ≡ some name
  slice =
      ap (λ s. substr s (length pre + 1) (length name))
        (sym (append_assoc pre (b'<' ∷ []) (name ++ b'>' ∷ rest)))
      ∙ (ap (λ n. substr ((pre ++ b'<' ∷ []) ++ (name ++ b'>' ∷ rest)) n (length name))
            (omega (arith, length-append pre (b'<' ∷ [])))
          ∙ substr_middle (pre ++ b'<' ∷ []) name (b'>' ∷ rest))

  -- What stands between the first `<` and the first `>`.
  pub angle_lem : angle (line pre name rest) ≡ some name
  unfolding angle
  angle_lem =
      rw (find_open, find_close)
        (ap₂ (λ a n. substr (line pre name rest) a n) (omega arith) (omega arith) ∙ slice)

  -- What stands behind the first `>`.
  pub rest_lem :
      length rest ≤ npos
      → substr_from (line pre name rest) (add64 (find (line pre name rest) (codes ">")) 1)
        ≡ some rest
  rest_lem short = rw find_close (
      ap₂ (λ l n. substr l n npos) regroup
        (omega
          (arith, length-append pre (b'<' ∷ (name ++ b'>' ∷ [])), length-append name (b'>' ∷ [])))
      ∙ substr_rest (pre ++ b'<' ∷ (name ++ b'>' ∷ [])) rest npos short)
    where
      regroup : line pre name rest ≡ (pre ++ b'<' ∷ (name ++ b'>' ∷ [])) ++ rest
      regroup =
          ap (λ t. pre ++ b'<' ∷ t) (sym (append_assoc name (b'>' ∷ []) rest))
          ∙ sym (append_assoc pre (b'<' ∷ (name ++ b'>' ∷ [])) rest)

-- Row and column are read back from a line that holds them in angle brackets, whatever stands
-- behind them, if no bracket stands where it misleads: no "<" in front of a name, no ">" in front
-- of or in a name, and all lengths fit a size_t.
pub row_col_lem :
    (pre row mid col rest : Bytes)
    → Avoids b'<' pre
    → Avoids b'>' pre
    → Avoids b'>' row
    → Avoids b'<' mid
    → Avoids b'>' mid
    → Avoids b'>' col
    → length pre + length row + 2 ≤ npos
    → length (line mid col rest) ≤ npos
    → row_col (line pre row (line mid col rest)) ≡ some (row, col)
unfolding row_col
row_col_lem pre row mid col rest a b c d e f g h = rw (
  angle_lem pre row (line mid col rest) a b c g,
  rest_lem pre row (line mid col rest) a b c g h,
  angle_lem mid col rest d e f (
      omega
        (arith, length-append mid (b'<' ∷ (col ++ b'>' ∷ rest)), length-append col (b'>' ∷ rest))),
)
