-- ===== src/Mail/Client.antt =====
-- webmail/client.cc: the mails of a user, read from the store, and deleted from it.
pub mod Reading
use google_cloud_final.Base.{
  ℕ, zero, suc, ◌+◌, ◌-◌, Bool, true, false, List, [], ◌∷◌, ◌++◌, length, take, drop, leb,
  if◌then◌else◌, ◌==◌,
}
use google_cloud_final.Text.{
  Bytes, codes, npos, add64, sub64, equal, find, find_after, substr, substr_from,
}
use google_cloud_final.Text.Lines.{lines}
use google_cloud_final.Connection.{crlf}
use google_cloud_final.Outcome.{Outcome, done, abort, blocked, Option, none, some, ◌>>=◌, or_throw}
use google_cloud_final.Mail.{Email}
use google_cloud_final.Mail.Wire.{hash_md5, hash_text, ask_master}
use google_cloud_final.Mail.HashList.{says, get_of, cput_of, delete_of, pop_back, update_hash}

-- The mail in the text of its cell.
unfoldable pub parse_email : (Bytes → Bytes) → Bytes → Outcome Email
unfolding find find_after hash_text
parse_email md5 response = do
  let f1 = find response (codes "Header ")
  let f2 = find_after response crlf (add64 f1 1)
  header ← or_throw (substr response f1 (sub64 f2 f1))
  stored ← or_throw (substr_from response (add64 f2 2))
  let f3 = find_after response crlf (add64 f2 1)
  content ← or_throw (substr_from response (add64 f3 2))
  let mail : Email = record {
    header = header;
    content = content;
    hash = hash_md5 md5 stored;
    deleted = false;
    opened = false;
  }
  done mail

abbrev pub prefix_of : Bool → Bytes
prefix_of inbox = if inbox then codes "mail/inbox/" else codes "mail/outbox/"

module _ {S : Type 0} (send : Bytes → Bytes → S → Outcome (Bytes × S)) (md5 : Bytes → Bytes) where
  unfoldable pub extract_email : Bytes → Bytes → Bytes → S → Outcome (Email × S)
  unfolding parse_email
  extract_email node_address user column_key world = do
    (response, w1) ← send node_address (get_of user column_key) world
    mail ← parse_email md5 response
    done (mail, w1)

  -- Each line of the list but those that start with `list`.
  unfoldable pub extract_all : Bytes → Bytes → Bytes → List Bytes → S → Outcome (List Email × S)
  unfolding extract_email
  extract_all node_address user prefix [] world = done ([], world)
  extract_all node_address user prefix (line ∷ rest) world =
      let skip = extract_all node_address user prefix rest world in
      let read = (do
        hash ← pop_back line
        (mail, w1) ← extract_email node_address user (prefix ++ hash) world
        (mails, w2) ← extract_all node_address user prefix rest w1
        done (mail ∷ mails, w2)) in
      if equal (take 4 line) (codes "list") then skip else read

  unfoldable pub recvfrom_backend : Bytes → Bytes → Bool → S → Outcome (List Email × S)
  unfolding extract_all ask_master says lines
  recvfrom_backend master_address user inbox world = do
    (node_address, w1) ← ask_master send master_address user world
    let load = (do
      (response, w2) ← send node_address (get_of user (prefix_of inbox ++ codes "list")) w1
      is_error ← says response 3 (codes "ERR")
      let read = extract_all node_address user (prefix_of inbox) (lines response) w2
      if is_error then done ([], w2) else read)
    if equal node_address (codes "NULL") then done ([], w1) else load

  -- The loop that takes the hashes out of the list, on fuel.
  unfoldable pub update_list : ℕ → Bytes → Bytes → Bytes → List Bytes → S → Outcome S
  unfolding update_hash says
  update_list zero node_address user prefix delete_hash world = blocked
  update_list (suc fuel) node_address user prefix delete_hash world = do
    let column = prefix ++ codes "list"
    (response, w1) ← send node_address (get_of user column) world
    value ← update_hash response delete_hash
    let drop_list = (do (delete_reply, w2) ← send node_address (delete_of user column) w1; done w2)
    let change = (do
      (cput_reply, w2) ← send node_address (cput_of user column response value) w1
      is_ok ← says cput_reply 2 (codes "OK")
      let again = update_list fuel node_address user prefix delete_hash w2
      if is_ok then done w2 else again)
    if equal value (codes "list" ++ crlf) then drop_list else change

  unfoldable pub delete_mails : Bytes → Bytes → Bytes → List Bytes → S → Outcome S
  delete_mails node_address user prefix [] world = done world
  delete_mails node_address user prefix (hash ∷ hashes) world = do
    (response, w1) ← send node_address (delete_of user (prefix ++ hash)) world
    delete_mails node_address user prefix hashes w1

  unfoldable pub update_backend : ℕ → Bytes → Bytes → List Bytes → Bool → S → Outcome S
  unfolding update_list delete_mails ask_master
  update_backend fuel master_address user delete_hash inbox world = do
    (node_address, w1) ← ask_master send master_address user world
    let update = (do
      w2 ← update_list fuel node_address user (prefix_of inbox) delete_hash w1
      delete_mails node_address user (prefix_of inbox) delete_hash w2)
    if equal node_address (codes "NULL") then done w1 else update
