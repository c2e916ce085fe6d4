-- ===== src/Web/Paths.antt =====
-- frontendServer/response.cc: what is read out of a path, a form and an uploaded file.
pub mod Uploads
use google_cloud_final.Base.{
  ℕ, ◌+◌, ◌-◌, ◌*◌, ◌/◌, Bool, true, false, ◌&&◌, ◌||◌, [], ◌∷◌, ◌++◌, Option, none, some, length,
  take, drop, leb, ltb, ◌==◌, if◌then◌else◌,
}
use google_cloud_final.Text.{
  Bytes, codes, add64, sub64, find, find_after, position, substr, substr_from,
}
use google_cloud_final.Number.{ℤ, pos, negsuc, print, int_max}
use google_cloud_final.CText.{strcasecmp, strtok}
use google_cloud_final.Connection.{c_str, crlf}
use google_cloud_final.Outcome.{Outcome, done, abort, ◌>>=◌, or_throw}
use google_cloud_final.Web.Escape.{behind, equals, ampersand}
use google_cloud_final.Web.Request.{fits}

-- `strcasecmp(path.c_str(), name) == 0`
abbrev pub is : Bytes → Bytes → Bool
is path name = strcasecmp (c_str path) name

-- `path.size() >= n && strcasecmp(path.substr(0, n).c_str(), name) == 0`, where `n` is the length
-- of the name
abbrev pub starts : Bytes → Bytes → Bool
starts path name = leb (length name) (length path) && is (take (length name) path) name

-- The number p - n, if it is an `int`.
abbrev pub int_of : ℕ → ℕ → Outcome ℤ
int_of p n =
    if leb n p
    then (if leb (p - n) int_max then done (pos (p - n)) else abort)
    else (if leb (n - p) (int_max + 1) then done (negsuc (n - p - 1)) else abort)

-- `id * factor + c - '0'` for each byte; a `char` above 127 is negative.  The value so far is
-- p - n.
unfoldable pub read_id : ℕ → ℕ → ℕ → Bytes → Outcome ℤ
read_id factor p n [] = int_of p n
read_id factor p n (c ∷ s) =
    let negative : ℕ = if ltb c 128 then 0 else 256 in
    let p' = p * factor + c in
    let n' = n * factor + 48 + negative in
    do sum ← int_of (p * 10 + c) (n * 10 + negative); value ← int_of p' n'; read_id factor p' n' s

-- The index behind the `=` of a path.
unfoldable pub index_of : Bytes → Outcome ℤ
unfolding behind read_id
index_of path = do digits ← behind equals path; read_id 10 0 0 digits

-- `handle_back` adds ten times the index to the index.
unfoldable pub back_index : Bytes → Outcome ℤ
unfolding behind read_id
back_index path = do digits ← behind equals path; read_id 11 0 0 digits

abbrev pub question : ℕ
question = 63

-- The text up to `c`, and from there on.
unfoldable pub up_to : ℕ → Bytes → Bytes × Bytes
up_to c [] = ([], [])
up_to c (x ∷ s) = let (front, rest) = up_to c s in if x == c then ([], x ∷ s) else (x ∷ front, rest)

unfoldable pub parse_mailid : Bytes → Outcome ℤ
unfolding behind read_id up_to
parse_mailid path = do digits ← behind equals path; read_id 10 0 0 (up_to question digits).0

-- The text up to a `c` that must be there.
abbrev pub until : ℕ → Bytes → Outcome (Bytes × Bytes)
until c s = elim (up_to c s).1 [ [] ↦ abort | x ∷ rest ↦ done ((up_to c s).0, x ∷ rest) ]

-- The new name and the old name in the form of `handle_rename`.
unfoldable pub rename_of : Bytes → Outcome (Bytes × Bytes)
unfolding behind up_to
rename_of info = do
  s1 ← behind equals info
  (new_name, s2) ← until ampersand s1
  old_name ← behind equals (drop 1 s2)
  done (new_name, old_name)

-- The file and the folder in the path of `handle_move_file`, whose first `skip` bytes are left out.
unfoldable pub move_of : ℕ → Bytes → Outcome (Bytes × Bytes)
unfolding behind up_to substr
move_of skip path = do
  info ← or_throw (substr path skip (sub64 (length path) skip))
  s1 ← behind equals info
  (filename, s2) ← until ampersand s1
  folder ← behind equals s2
  done (filename, folder)

-- The name and the password in the form of a sign-in, which is copied into 256 bytes.
unfoldable pub credentials : Bytes → Outcome (Bytes × Bytes)
credentials message = do
  copy ← fits 256 (c_str message)
  (token, rest) ← or_throw (strtok copy (codes "&"))
  (name_key, rest1) ← or_throw (strtok token (codes "="))
  (name, rest2) ← or_throw (strtok rest1 (codes "="))
  (token2, rest3) ← or_throw (strtok rest (codes " &"))
  (password_key, rest4) ← or_throw (strtok token2 (codes "="))
  (password, rest5) ← or_throw (strtok rest4 (codes "="))
  done (name, password)

-- Whether the text occurs in the name; `filename.find(text) != npos`.
abbrev pub occurs : Bytes → Bytes → Bool
occurs text s = elim (position text s) [ none ↦ false | some i ↦ true ]

unfoldable pub parse_type : Bytes → Bytes
unfolding position
parse_type filename =
    if occurs (codes "jpeg") filename || occurs (codes "jpg") filename
    then codes "image/jpeg"
    else if occurs (codes "png") filename
    then codes "image/png"
    else if occurs (codes "pdf") filename
    then codes "application/pdf"
    else codes "text/plain"

unfoldable pub find_filename : Bytes → Outcome Bytes
unfolding find find_after substr
find_filename tmp =
    let index = add64 (find tmp (codes "filename=")) 10 in
    let end_index = find_after tmp (34 ∷ []) index in
    or_throw (substr tmp index (sub64 end_index index))

-- The bytes of `rest` up to the two before the place `found`, or before its end.
abbrev pub cut_content : Bytes → Option ℕ → Outcome Bytes
cut_content rest found =
    let stop : ℕ = elim found [ none ↦ length rest | some j ↦ j ] in
    if ltb stop 2 then abort else done (take (stop - 2) rest)

abbrev pub content_behind : Bytes → Option ℕ → Outcome Bytes
content_behind message found = elim found [
  | none ↦ abort
  | some i ↦ cut_content (drop (i + 4) message) (position (codes "------") (drop (i + 4) message))
]

-- The bytes between the first empty line and the two bytes before six dashes.
unfoldable pub find_file_content : Bytes → Outcome Bytes
unfolding position
find_file_content message = content_behind message (position (crlf ++ crlf) message)

-- The size of a file for its user; the division of the third case is that of integers.
unfoldable pub content_size : ℕ → Bytes
unfolding print
content_size n =
    if ltb n 1024
    then print n ++ codes "B"
    else if ltb n 1000000
    then print (n / 1024) ++ codes "KB"
    else print (n / 900000) ++ codes ".00MB"

-- The sender, the recipient, the title and the time in the header of a mail, between its bars.
unfoldable pub parse_header : Bytes → Outcome (Bytes × Bytes × Bytes × Bytes)
unfolding find find_after substr
parse_header header = do
  let bar = codes "|"
  let p1 = find header bar
  let p2 = find_after header bar (add64 p1 1)
  let p3 = find_after header bar (add64 p2 1)
  let p4 = find_after header bar (add64 p3 1)
  let p5 = find_after header bar (add64 p4 1)
  sender ← or_throw (substr header (add64 p2 1) (sub64 (sub64 p3 p2) 1))
  recipient ← or_throw (substr header (add64 p3 1) (sub64 (sub64 p4 p3) 1))
  title ← or_throw (substr header (add64 p4 1) (sub64 (sub64 p5 p4) 1))
  time ← or_throw (substr_from header (add64 p5 1))
  done (sender, recipient, title, time)
