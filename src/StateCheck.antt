-- ===== src/StateCheck.antt =====
-- state/StateCheck.cc: the states of the servers, as the master lists them.  The results of `read` are
-- given; a `got` is never longer than the buffer, and its bytes are read as a C string.
pub mod States
pub mod Listing
use google_cloud_final.Base.{
  ℕ, ◌+◌, Bool, true, false, List, [], ◌∷◌, ◌++◌, length, ◌==◌, if◌then◌else◌,
}
use google_cloud_final.Text.{Bytes, codes, sub64, substr, substr_from}
use google_cloud_final.Number.{ℤ, print_long, atoi}
use google_cloud_final.Connection.{Connection, ReadEvent, has_str, crlf}
use google_cloud_final.Outcome.{Outcome, done, abort, blocked, Option, ◌>>=◌, or_throw}
use google_cloud_final.Storage.Records.{split_lines}
use google_cloud_final.Storage.Wire.{piece_of, write_once}

-- The read loop of `getState` and of `getList`, up to a `\r\n`; what `read` answers is not looked at.
unfoldable pub read_result : Bytes → List ReadEvent → Outcome Bytes
unfolding has_str
read_result result [] = blocked
read_result result (event ∷ events) = do
  buffer ← piece_of 1000 event
  let longer = result ++ buffer
  let more = read_result longer events
  if has_str longer crlf then done longer else more

-- `getState` and `getList`, over the connection that was made.
unfoldable pub get_state : Bytes → Connection → Outcome (Bytes × Connection)
unfolding read_result write_once
get_state message c = do result ← read_result [] c.incoming; done (result, write_once c message)

-- `closeAll`
unfoldable pub close_all : Connection → Connection
unfolding write_once
close_all c = write_once c (codes "closeall" ++ crlf)

-- The texts of the ip and the port.
unfoldable pub parse_addr : Bytes → Outcome (Bytes × ℤ)
parse_addr address = split [] address
  where
    split : Bytes → Bytes → Outcome (Bytes × ℤ)
    split ip [] = abort
    split ip (c ∷ rest) =
        let here = (do port ← or_throw (atoi rest); done (ip, port)) in
        let later = split (ip ++ c ∷ []) rest in if c == b':' then here else later

-- The loop over the bytes: the parts between bars.
unfoldable pub split_parts : Bytes → Bytes → List Bytes
split_parts part [] = part ∷ []
split_parts part (c ∷ str) =
    let here = split_parts [] str in
    let longer = split_parts (part ++ c ∷ []) str in if c == b'|' then part ∷ here else longer

unfoldable pub parse_id : Bytes → List Bytes
unfolding split_parts
parse_id str = split_parts [] str

-- The lines that end in a newline, without the last two bytes of the text.
unfoldable pub parse_all_server : Bytes → Outcome (List Bytes)
unfolding split_lines
parse_all_server s = do str ← or_throw (substr s 0 (sub64 (length s) 2)); done (split_lines [] str)

unfoldable pub start_node_command : ℤ → ℤ → Bool → Bytes
start_node_command node_id rep_id recovery =
    let ids = print_long node_id ++ (codes " " ++ print_long rep_id) in
    codes "../kvstore/dataserver -p ../kvstore/node/"
    ++ (print_long node_id
        ++ (codes "/"
            ++ (print_long rep_id
                ++ ((if recovery
                      then codes " -r ../kvstore/serverlist.txt "
                      else codes " ../kvstore/serverlist.txt ")
                    ++ ids))))
