-- ===== src/Storage/Records.antt =====
-- storage/Storage.cc: the line of a file in the contents of its folder, and how it is read.
pub mod RoundTrip
pub mod Listing
use google_cloud_final.Base.{
  ℕ, zero, suc, ◌+◌, Bool, true, false, ◌&&◌, List, [], ◌∷◌, ◌++◌, length, leb, get_elem?, ◌==◌,
  if◌then◌else◌, map,
}
use google_cloud_final.Text.{Bytes, codes, sub64, equal, substr, substr_from}
use google_cloud_final.Outcome.{Outcome, done, abort, Option, none, some, ◌>>=◌, or_throw}
use google_cloud_final.Storage.{FileInfo}

-- The loop for `||`: `i` and `previous` in `name_id`, of which the rest from `i` on is the last
-- argument.  Behind a `|||` the second match is of length -1, which is `npos`.
unfoldable pub split_bars : Bytes → ℕ → ℕ → Bytes → Outcome (List Bytes)
split_bars name_id i previous [] = do
  last ← or_throw (substr_from name_id previous)
  done (last ∷ [])
split_bars name_id i previous (a ∷ []) = do
  last ← or_throw (substr_from name_id previous)
  done (last ∷ [])
split_bars name_id i previous (a ∷ b ∷ rest) =
    let found = (do
      temp ← or_throw (substr name_id previous (sub64 i previous))
      others ← split_bars name_id (suc i) (i + 2) (b ∷ rest)
      done (temp ∷ others)) in
    let later = split_bars name_id (suc i) previous (b ∷ rest) in
    if a == b'|' && b == b'|' then found else later

-- An empty `name_id` is read out of bounds, and so is a missing part.
abbrev pub parts_of : Bytes → Outcome (List Bytes)
parts_of [] = abort
parts_of (c ∷ name_id) = split_bars (c ∷ name_id) 0 0 (c ∷ name_id)

abbrev pub file_of : Bytes → List Bytes → Outcome FileInfo
file_of type (id ∷ name ∷ time ∷ size ∷ more) =
    done
      (record { is_file = equal type (codes "f"); name = name; id = id; size = size; time = time })
file_of type _ = abort

unfoldable pub parse_string_to_class : Bytes → Outcome FileInfo
unfolding split_bars
parse_string_to_class str = do
  type ← or_throw (substr str 0 1)
  name_id ← or_throw (substr_from str 2)
  result ← parts_of name_id
  file_of type result

-- The line of a file, without its newline, as each operation writes it.
abbrev pub file_line : FileInfo → Bytes
file_line f =
    (if f.is_file then codes "f:" else codes "o:")
    ++ (f.id ++ (codes "||" ++ (f.name ++ (codes "||" ++ (f.time ++ (codes "||" ++ f.size))))))

-- The lines that end in a newline; a last line without one is left out.
unfoldable pub split_lines : Bytes → Bytes → List Bytes
split_lines line [] = []
split_lines line (c ∷ str) =
    let here = split_lines [] str in
    let longer = split_lines (line ++ c ∷ []) str in if c == 10 then line ∷ here else longer

unfoldable pub parse_content_file_names : Bytes → List Bytes
unfolding split_lines
parse_content_file_names str = split_lines [] str

unfoldable pub exist_same_file_name : Bytes → List Bytes → Outcome Bool
unfolding parse_string_to_class
exist_same_file_name filename [] = done false
exist_same_file_name filename (line ∷ lines) = do
  f ← parse_string_to_class line
  let rest = exist_same_file_name filename lines
  if equal f.name filename then done true else rest
