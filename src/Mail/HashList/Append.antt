-- ===== src/Mail/HashList/Append.antt =====
-- A hash is put in front of a list.
use google_cloud_final.Base.{ℕ, suc, ◌≡◌, refl, true, false, ◌++◌}
use google_cloud_final.Text.{Bytes, codes}
use google_cloud_final.Connection.{crlf}
use google_cloud_final.Outcome.{Outcome, done, Option, none, some}
use google_cloud_final.Mail.HashList.{says, get_of, put_of, cput_of, without_hash, append_hash}

-- The text of a new list.
abbrev pub empty_list : Bytes
empty_list = codes "list" ++ crlf

-- What the loop relies on in a store that nobody else writes to: `view` is the cell of the list.  A
-- list is shown as it is.
pub record ListStore {S : Type 0} (send : Bytes → Bytes → S → Outcome (Bytes × S))
    (node user column : Bytes) (view : S → Option Bytes) : Type 0 where
  pub get_value :
      (value : Bytes) (w : S)
      → view w ≡ some value
      → (w' : S) × (send node (get_of user column) w ≡ done (value, w')) × (view w' ≡ some value)
  pub get_nothing :
      (w : S)
      → view w ≡ none
      → (reply : Bytes) × (w' : S) × (send node (get_of user column) w ≡ done (reply, w'))
        × (says reply 3 (codes "ERR") ≡ done true)
        × (view w' ≡ none)
  pub put :
      (w : S)
      → (reply : Bytes) × (w' : S) × (send node (put_of user column empty_list) w
          ≡ done (reply, w'))
        × (view w' ≡ some empty_list)
  pub cput :
      (old new : Bytes) (w : S)
      → view w ≡ some old
      → (reply : Bytes) × (w' : S) × (send node (cput_of user column old new) w ≡ done (reply, w'))
        × (says reply 2 (codes "OK") ≡ done true)
        × (view w' ≡ some new)

-- The list before: a new one holds its last line alone.
abbrev pub list_before : Option Bytes → Bytes
list_before none = empty_list
list_before (some value) = value

-- The list with the hash in front.
abbrev pub list_after : Bytes → Option Bytes → Bytes
list_after hash o = hash ++ (crlf ++ without_hash hash (list_before o))

module _ {S : Type 0} {send : Bytes → Bytes → S → Outcome (Bytes × S)} {view : S → Option Bytes}
    {node user column : Bytes} (store : ListStore send node user column view) (hash : Bytes) where
  -- A list that is there takes one round.
  append_hash-there :
      (n : ℕ) (value : Bytes) (w : S)
      → view w ≡ some value
      → says value 3 (codes "ERR") ≡ done false
      → (w' : S) × (append_hash send (suc n) node user column hash w ≡ done w')
        × (view w' ≡ some (list_after hash (some value)))
  unfolding append_hash
  append_hash-there n value w v fine =
      let (w1, e1, v1) = store.get_value value w v in
      let new = hash ++ (crlf ++ without_hash hash value) in
      let (reply, w2, e2, ok, v2) = store.cput value new w1 v1 in
      (w2, rw (e1, fine, e2, ok) refl, v2)

  -- In a store of one list that nobody else writes to, the loop that puts a hash into the list
  -- ends within two rounds.  After it the list is the hash on a line and behind it the list of
  -- before without the hash, where a list that was not there counts as its last line alone; the
  -- list of before does not start like an error.
  pub append_hash_lem :
      (n : ℕ) (w : S)
      → says (list_before (view w)) 3 (codes "ERR") ≡ done false
      → (w' : S) × (append_hash send (suc (suc n)) node user column hash w ≡ done w')
        × (view w' ≡ some (list_after hash (view w)))
  unfolding append_hash
  append_hash_lem n w fine = by_cell (view w) refl fine
    where
      by_cell :
          (o : Option Bytes)
          → view w ≡ o
          → says (list_before o) 3 (codes "ERR") ≡ done false
          → (w' : S) × (append_hash send (suc (suc n)) node user column hash w ≡ done w')
            × (view w' ≡ some (list_after hash o))
      by_cell (some value) e ok = append_hash-there (suc n) value w e ok
      by_cell none e ok =
          let (r1, w1, e1, err, v1) = store.get_nothing w e in
          let (r2, w2, e2, v2) = store.put w1 in
          let (w3, e3, v3) = append_hash-there n empty_list w2 v2 ok in
          (w3, rw (e1, err, e2, e3) refl, v3)
