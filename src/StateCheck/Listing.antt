-- ===== src/StateCheck/Listing.antt =====
-- The listing of the master and its reading by the state check.
use mathlib.Core.Path.{ap₂}
use google_cloud_final.Base.{
  ℕ, suc, ◌+◌, ◌≤◌, ◌≡◌, refl, Bool, true, false, List, [], ◌∷◌, ◌++◌, map, length, arith,
  if◌then◌else◌,
}
use google_cloud_final.Text.{Bytes, codes, npos}
use google_cloud_final.Text.Search.{Avoids, Avoids-append}
use google_cloud_final.Text.Lines.{AllAvoid}
use google_cloud_final.Number.{print}
use google_cloud_final.Number.RoundTrip.{print-Avoids}
use google_cloud_final.FileTool.{Sockaddr, ip_to_string}
use google_cloud_final.Connection.{crlf}
use google_cloud_final.Outcome.{done}
use google_cloud_final.Master.{Node, Master}
use google_cloud_final.Master.Commands.{Net, parse_states}
use google_cloud_final.StateCheck.{parse_id, parse_all_server}
use google_cloud_final.StateCheck.States.{
  Row, fields, row_text, rows_of_node, rows_of, rows_text, states-Sends, parse_all_server_lem,
  parse_id_lem,
}

-- A text without a bar and without a newline.
abbrev pub Plain : Bytes → Type 0
Plain s = Avoids 124 s × Avoids 10 s

Plain-append : (s t : Bytes) → Plain s → Plain t → Plain (s ++ t)
Plain-append s t h k = (Avoids-append 124 s t h.0 k.0, Avoids-append 10 s t h.1 k.1)

Plain-print : (n : ℕ) → Plain (print n)
Plain-print n = (print-Avoids 124 n refl, print-Avoids 10 n refl)

abbrev AllPlain : List Row → Type 0
AllPlain [] = Unit {0}
AllPlain ((i, j, addr, state) ∷ rows) = (Plain addr × Plain state) × AllPlain rows

AllPlain-append : (xs ys : List Row) → AllPlain xs → AllPlain ys → AllPlain (xs ++ ys)
AllPlain-append [] ys h k = k
AllPlain-append (x ∷ xs) ys h k = (h.0, AllPlain-append xs ys h.1 k)

module _ (net : Net) (plain : (ip : ℕ) → Plain (net.inet_ntop ip)) where
  addr-Plain : (addr : Sockaddr) → Plain (ip_to_string net.inet_ntop addr)
  unfolding ip_to_string
  addr-Plain addr =
      Plain-append (net.inet_ntop addr.ip ++ codes ":") (print addr.port)
        (Plain-append (net.inet_ntop addr.ip) (codes ":") (plain addr.ip) (ground arith))
        (Plain-print addr.port)

  state-Plain : (alive : Bool) → Plain (if alive then codes "alive" else codes "down")
  state-Plain true = ground arith
  state-Plain false = ground arith

  node-AllPlain : (i j : ℕ) (addrs : List Sockaddr) → AllPlain (rows_of_node net i j addrs)
  node-AllPlain i j [] = tt
  node-AllPlain i j (addr ∷ addrs) =
      ((addr-Plain addr, state-Plain (net.is_alive addr)), node-AllPlain i (suc j) addrs)

  rows-AllPlain : (i : ℕ) (ns : List Node) → AllPlain (rows_of net i ns)
  rows-AllPlain i [] = tt
  rows-AllPlain i (n ∷ ns) =
      AllPlain-append (rows_of_node net i 0 n.rep_addrs) _ (node-AllPlain i 0 n.rep_addrs)
        (rows-AllPlain (suc i) ns)

rows-AllAvoid : (rows : List Row) → AllPlain rows → AllAvoid 10 (map row_text rows)
rows-AllAvoid [] h = tt
rows-AllAvoid ((i, j, addr, state) ∷ rows) h =
    let bar : Avoids 10 (codes "|") = (omega arith, tt) in
    let tail = Avoids-append 10 addr _ h.0.0.1 (Avoids-append 10 (codes "|") state bar h.0.1.1) in
    let middle =
      Avoids-append 10 (print j) _ (print-Avoids 10 j refl)
        (Avoids-append 10 (codes "|") _ bar tail) in
    (
      Avoids-append 10 (print i) _ (print-Avoids 10 i refl)
          (Avoids-append 10 (codes "|") _ bar middle),
      rows-AllAvoid rows h.1,
    )

parts_lem : (rows : List Row) → AllPlain rows → map parse_id (map row_text rows) ≡ map fields rows
parts_lem [] h = refl
parts_lem ((i, j, addr, state) ∷ rows) h =
    ap₂ (λ x xs. x ∷ xs) (parse_id_lem i j addr state h.0.0.0 h.0.1.0) (parts_lem rows h.1)

-- What the master lists.
abbrev pub states_text : Net → Master → Bytes
states_text net s = rows_text (rows_of net 0 s.nodes_list) ++ crlf

-- A master whose kernel takes everything answers STATES with a line for each server and a line
-- end; the state check finds the lines in that text, and in each line the node, the number, the
-- address and the state of the server.  The printed form of an address has no bar and no newline,
-- and the text is shorter than npos.
pub states_lem :
    (net : Net) (s : Master)
    → ((ip : ℕ) → Plain (net.inet_ntop ip))
    → s.task.outgoing ≡ []
    → length (rows_text (rows_of net 0 s.nodes_list)) + 2 ≤ npos
    → ((parse_states net s).task.sent ≡ s.task.sent ++ states_text net s)
      × (ls : List Bytes) × (parse_all_server (states_text net s) ≡ done ls)
      × (map parse_id ls ≡ map fields (rows_of net 0 s.nodes_list))
states_lem net s plain free fits =
    let rows = rows_of net 0 s.nodes_list in
    let fine = rows-AllPlain net plain 0 s.nodes_list in
    (
      (states-Sends net s free).0,
      map row_text rows,
      parse_all_server_lem (map row_text rows) (rows-AllAvoid rows fine) fits,
      parts_lem rows fine,
    )
