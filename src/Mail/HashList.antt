-- ===== src/Mail/HashList.antt =====
-- webmail/server.cc and webmail/client.cc: the list of the hashes of a user's mails, the newest first,
-- with the line `list` at its end.
pub mod Laws
pub mod Append
use google_cloud_final.Base.{
  ℕ, zero, suc, ◌+◌, ◌-◌, Bool, true, false, not, ◌||◌, List, [], ◌∷◌, ◌++◌, length, take, drop,
  leb, if◌then◌else◌, ◌==◌,
}
use google_cloud_final.Text.{Bytes, codes, npos, add64, sub64, equal, find, find_after, substr}
use google_cloud_final.Text.Lines.{lines}
use google_cloud_final.Connection.{crlf}
use google_cloud_final.Outcome.{Outcome, done, abort, blocked, Option, none, some, ◌>>=◌, or_throw}

-- `s.compare(1, n, t) == 0`
unfoldable pub says : Bytes → ℕ → Bytes → Outcome Bool
unfolding equal
says s n t = do part ← or_throw (substr s 1 n); done (equal part t)

-- `GET`, `PUT`, `CPUT` and `DELETE` of a cell of the user.
abbrev pub cell_of : Bytes → Bytes → Bytes
cell_of user column = codes " <" ++ (user ++ (codes "> <" ++ (column ++ (codes ">" ++ crlf))))

abbrev pub get_of : Bytes → Bytes → Bytes
get_of user column = codes "GET" ++ cell_of user column

abbrev pub put_of : Bytes → Bytes → Bytes → Bytes
put_of user column text =
    codes "PUT"
    ++ (cell_of user column ++ (codes "DATA" ++ (crlf ++ (text ++ (codes "." ++ crlf)))))

abbrev pub cput_of : Bytes → Bytes → Bytes → Bytes → Bytes
cput_of user column old new =
    codes "CPUT"
    ++ (cell_of user column
        ++ (codes "OLD"
            ++ (crlf
                ++ (old
                    ++ (codes "."
                        ++ (crlf ++ (codes "NEW" ++ (crlf ++ (new ++ (codes "." ++ crlf))))))))))

abbrev pub delete_of : Bytes → Bytes → Bytes
delete_of user column = codes "DELETE" ++ cell_of user column

-- The first line with the hash is taken out, as a mail with it is put in again; the numbers are
-- of type `size_t`.
unfoldable pub without_hash : Bytes → Bytes → Bytes
unfolding find find_after
without_hash hash value =
    let f1 = find value hash in
    let f2 = find_after value crlf (add64 f1 1) in
    if f1 == npos then value else take f1 value ++ drop (f1 + add64 (sub64 f2 f1) 2) value

-- `update_hash`: the lines but those of the deleted mails.  An empty line has no last byte.
unfoldable pub is_member : Bytes → List Bytes → Bool
unfolding equal
is_member hash [] = false
is_member hash (h ∷ hs) = equal h hash || is_member hash hs

abbrev pub pop_back : Bytes → Outcome Bytes
pop_back [] = abort
pop_back (c ∷ s) = done (take (length s) (c ∷ s))

unfoldable pub keep_lines : List Bytes → List Bytes → Outcome Bytes
unfolding is_member
keep_lines delete_hash [] = done []
keep_lines delete_hash (line ∷ rest) = do
  hash ← pop_back line
  new_hash ← keep_lines delete_hash rest
  done (if is_member hash delete_hash then new_hash else hash ++ (crlf ++ new_hash))

unfoldable pub update_hash : Bytes → List Bytes → Outcome Bytes
unfolding keep_lines lines
update_hash old_hash delete_hash = keep_lines delete_hash (lines old_hash)

module _ {S : Type 0} (send : Bytes → Bytes → S → Outcome (Bytes × S)) where
  -- The loop that puts a hash in front of the list in `column`.
  unfoldable pub append_hash : ℕ → Bytes → Bytes → Bytes → Bytes → S → Outcome S
  unfolding says without_hash
  append_hash zero node user column hash world = blocked
  append_hash (suc fuel) node user column hash world = do
    (response, w1) ← send node (get_of user column) world
    is_error ← says response 3 (codes "ERR")
    let init = (do
      (init_reply, w2) ← send node (put_of user column (codes "list" ++ crlf)) w1
      append_hash fuel node user column hash w2)
    let change = (do
      let value = hash ++ (crlf ++ without_hash hash response)
      (cput_reply, w2) ← send node (cput_of user column response value) w1
      is_ok ← says cput_reply 2 (codes "OK")
      let again = append_hash fuel node user column hash w2
      if is_ok then done w2 else again)
    if is_error then init else change
