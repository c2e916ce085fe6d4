-- ===== src/Web/Listing.antt =====
-- frontendServer/response.cc: files, folders and mails as HTML.
use google_cloud_final.Base.{
  ℕ, ◌+◌, ◌%◌, Bool, true, false, ◌||◌, List, [], ◌∷◌, ◌++◌, ◌==◌, if◌then◌else◌,
}
use google_cloud_final.Text.{Bytes, codes, equal}
use google_cloud_final.Number.{print}
use google_cloud_final.Outcome.{Outcome, done, ◌>>=◌}
use google_cloud_final.Storage.{FileInfo}
use google_cloud_final.Mail.{Email}
use google_cloud_final.Web.Template.{concat}
use google_cloud_final.Web.Paths.{parse_type, parse_header}

-- The pictures.
abbrev picture : Bytes → Bytes
picture type =
    if equal type (codes "image/jpeg")
    then codes "https://image.flaticon.com/icons/svg/29/29513.svg"
    else if equal type (codes "image/png")
    then codes "https://image.flaticon.com/icons/svg/29/29064.svg"
    else if equal type (codes "application/pdf")
    then codes "https://image.flaticon.com/icons/svg/29/29587.svg"
    else if equal type (codes "text/plain")
    then codes "https://image.flaticon.com/icons/svg/29/29076.svg"
    else codes "https://image.flaticon.com/icons/svg/149/149325.svg"

abbrev is_nil : {A : Type 0} → List A → Bool
is_nil [] = true
is_nil (x ∷ xs) = false

abbrev open_row : ℕ → Bytes
open_row i = if i % 6 == 0 then codes "<div class=\"row\" style=\"margin-top: 3px;\">" else []

-- After every sixth entry, and after the last.
abbrev close_row : ℕ → Bool → Bytes
close_row i is_last = if (i + 1) % 6 == 0 || is_last then codes "</div>" else []

abbrev icon : Bytes → Bytes
icon address = concat (
    codes "<div style=\"width:80px; font-size:80%; text-align:center;\">"
    ∷ codes "<img src=\""
    ∷ address
    ∷ codes "\" alt=\"alternate text\" width=\"80\" "
    ∷ codes "height=\"80\" style=\"padding-bottom:0.5em;\"/>"
    ∷ [])

abbrev type_of : FileInfo → Bytes
type_of f = if f.is_file then parse_type f.name else codes "folder"

-- The entry of one file.
unfoldable pub file_entry : FileInfo → Bytes
unfolding parse_type equal
file_entry f =
    let type = type_of f in
    let is_folder = equal type (codes "folder") in
    let move = if is_folder then codes "movefolder?" else codes "movefile?" in
    concat (
      codes "<div class=\"col-2\">"
      ∷ (if is_folder then codes "<a href=\"/opendir?" else codes "<a href=\"/download?")
      ∷ f.name
      ∷ codes "\">"
      ∷ icon (picture type)
      ∷ f.name
      ∷ codes "</a>"
      ∷ (if is_folder then [] else codes "<div>size: " ++ (f.size ++ codes "</div>"))
      ∷ codes "<div>time: "
      ∷ f.time
      ∷ codes "</div>"
      ∷ (if is_folder
          then []
          else codes "<div><a href=\"download?"
            ++ (f.name
                ++ codes
                    "\"><button class=\"btn-small btn-primary\"\">Download</button></a></div>"))
      ∷ codes "<div><button class=\"btn-small btn-primary\" onclick=\"Rename('"
      ∷ f.name
      ∷ codes "')\" style=\"margin-top: 2px;\">Rename</button></div>"
      ∷ codes "<div><a href=\""
      ∷ move
      ∷ f.name
      ∷ codes "\"><button class=\"btn-small btn-primary\" style=\"margin-top: 2px;\">"
      ∷ codes "Move</button></a></div>"
      ∷ codes "<div><a href=\"delete?"
      ∷ f.name
      ∷ codes "\"><button class=\"btn-small btn-danger\" "
      ∷ codes " style=\"margin-top: 2px;\">Delete</button></a></div>"
      ∷ codes "</div>"
      ∷ codes "</div>"
      ∷ [])

-- The entries from the one with the index `i` on, in rows of six.
unfoldable pub files_from : ℕ → List FileInfo → Bytes
unfolding file_entry
files_from i [] = []
files_from i (f ∷ rest) =
    open_row i ++ (file_entry f ++ (close_row i (is_nil rest) ++ files_from (i + 1) rest))

unfoldable pub read_files : List FileInfo → Bytes
unfolding files_from
read_files names = files_from 0 names

-- The folders into which a file can be moved.
unfoldable pub folders_from : ℕ → Bytes → Bytes → List FileInfo → Bytes
folders_from i filename href [] = []
folders_from i filename href (f ∷ rest) = concat (
    open_row i
    ∷ codes "<div class=\"col-2\">"
    ∷ codes "<a href=\""
    ∷ href
    ∷ codes "choosefolder?move="
    ∷ filename
    ∷ codes "&to="
    ∷ f.name
    ∷ codes "\">"
    ∷ icon (picture (codes "folder"))
    ∷ f.name
    ∷ codes "</a>"
    ∷ codes "</div>"
    ∷ codes "</div>"
    ∷ close_row i (is_nil rest)
    ∷ folders_from (i + 1) filename href rest
    ∷ [])

unfoldable pub parse_folder : List FileInfo → Bytes → Bytes → Bytes
unfolding folders_from
parse_folder folders filename href = folders_from 0 filename href folders

-- `parse_path` of the folders of a path: a link back to each.
unfoldable pub links_from : ℕ → List Bytes → Bytes
unfolding print
links_from i [] = []
links_from i (name ∷ rest) = concat (
    codes "<a href=\"/back?index="
    ∷ print i
    ∷ codes "\" style=\"font-size: 25px; font-family: 'Gothic A1', sans-serif;\">"
    ∷ codes "/"
    ∷ name
    ∷ codes "</a>"
    ∷ links_from (i + 1) rest
    ∷ [])

unfoldable pub parse_folders : List Bytes → Bytes
unfolding links_from
parse_folders path = links_from 0 path

-- One mail; `kind` is 0 in the inbox and 1 in the outbox.
unfoldable pub mail_entry : ℕ → ℕ → Email → Outcome Bytes
unfolding parse_header print
mail_entry kind i mail = do
  (sender, recipient, title, time) ← parse_header mail.header
  let show =
      if kind == 0
      then codes "/showinbox?id="
      else if kind == 1
      then codes "/showsent?id="
      else codes "/showtrash?id="
  let whom = if kind == 0 then sender else if kind == 1 then recipient else []
  done (
      concat (
        codes "<a href=\""
        ∷ show
        ∷ print i
        ∷ codes "\">"
        ∷ (if mail.opened then [] else codes "<b>")
        ∷ codes "<li class=\"list-group-item\" style=\"color: black;\">"
        ∷ whom
        ∷ codes "<span style=\"float: right;\">"
        ∷ title
        ∷ codes "</span></li>"
        ∷ (if mail.opened then [] else codes "</b>")
        ∷ codes "</a>"
        ∷ []))

unfoldable pub mails_from : ℕ → ℕ → List Email → Outcome Bytes
unfolding mail_entry
mails_from kind i [] = done []
mails_from kind i (mail ∷ rest) = do
  entry ← mail_entry kind i mail
  others ← mails_from kind (i + 1) rest
  done (entry ++ others)

unfoldable pub read_all_emails : List Email → ℕ → Outcome Bytes
unfolding mails_from
read_all_emails emails kind = mails_from kind 0 emails

abbrev form_button : Bytes → Bytes → Bytes
form_button action label = concat (
    codes "<form action=\"/"
    ∷ action
    ∷ codes "\" method=\"GET\" class=\"flex-item\">"
    ∷ codes "<button type=\"submit\" class=\"btn btn-primary\">"
    ∷ label
    ∷ codes "</button></form>"
    ∷ [])

-- The buttons under a mail.
unfoldable pub parse_command : ℕ → Bytes → ℕ → Bytes
unfolding print
parse_command kind hash id =
    if kind == 0
    then form_button (codes "replyid=" ++ print id) (codes "Reply")
      ++ (form_button (codes "forwardid=" ++ print id) (codes "Forward")
          ++ form_button (codes "removeinboxhash=" ++ hash) (codes "Delete"))
    else form_button (codes "removeoutboxhash=" ++ hash) (codes "Delete")
