-- ===== src/RowCol.antt =====
-- The two names `<row> <col>` of a command line, which `parse_command` of kvstore/Worker.cc and
-- the replay functions of kvstore/checkpointing.cc read in the same way.
pub mod Laws
use google_cloud_final.Base.{◌≡◌, refl, [], ◌∷◌, Option, none, some}
use google_cloud_final.Text.{Bytes, codes, npos, add64, sub64, find, substr, substr_from}

infixl 5 ◌>>=◌
abbrev pub ◌>>=◌ {ℓ κ} : {A : Type ℓ} {B : Type κ} → Option A → (A → Option B) → Option B
none >>= f = none
some a >>= f = f a

-- `s.substr(s.find("<") + 1, s.find(">") - s.find("<") - 1)`
unfoldable pub angle : Bytes → Option Bytes
angle s =
    let open_at = find s (codes "<") in
    let close_at = find s (codes ">") in
    substr s (add64 open_at 1) (sub64 (sub64 close_at open_at) 1)

-- The row, and the column in what stands behind the first `>`.  `none` is an exception.
unfoldable pub row_col : Bytes → Option (Bytes × Bytes)
unfolding angle
row_col s = do
  row ← angle s
  rest ← substr_from s (add64 (find s (codes ">")) 1)
  col ← angle rest
  some (row, col)

row_col_put : row_col (codes "PUT <alice> <f1:name>") ≡ some (codes "alice", codes "f1:name")
unfolding row_col find substr
row_col_put = refl

-- A line with no angle bracket is its own row.
row_col_bare : row_col (codes "PUT") ≡ some (codes "PUT", codes "PUT")
unfolding row_col find substr
row_col_bare = refl
