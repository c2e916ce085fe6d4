-- ===== src/Storage/MasterConnect/Address.antt =====
-- The address in the answer of the master.
use google_cloud_final.Base.{
  ℕ, suc, ◌+◌, ◌≤◌, ◌≡◌, ap, ◌∙◌, [], ◌∷◌, ◌++◌, length, length-append, arith,
}
use google_cloud_final.Text.{Bytes, codes, npos, add64, sub64, substr}
use google_cloud_final.Text.Search.{Avoids, substr_middle}
use google_cloud_final.Connection.{crlf}
use google_cloud_final.FileTool.{ip_to_string}
use google_cloud_final.Outcome.{done, or_throw}
use google_cloud_final.Master.{Node, server_line}
use google_cloud_final.Storage.MasterConnect.{find_angles, address_in}

find_angles-close :
    (i j : ℕ) (s rest : Bytes)
    → Avoids 60 s
    → Avoids 62 s
    → find_angles i j (s ++ b'>' ∷ rest) ≡ (i + length s, j)
unfolding find_angles
find_angles-close i j [] rest h k = ap (λ n. (n, j)) (omega arith)
find_angles-close i j (c ∷ s) rest h k =
    ground (arith, h, k)
    ∙ find_angles-close (suc i) j s rest h.1 k.1
    ∙ ap (λ n. (n, j)) (omega arith)

-- From the line with which the master answers a WHERE the storage client takes the address of the
-- primary of the node, if the printed address has no angle bracket in it and the line is no longer
-- than npos.
pub address_lem :
    (inet_ntop : ℕ → Bytes) (n : Node)
    → Avoids 60 (ip_to_string inet_ntop n.primary_addr)
    → Avoids 62 (ip_to_string inet_ntop n.primary_addr)
    → length (server_line inet_ntop n) ≤ npos
    → address_in (server_line inet_ntop n) ≡ done (ip_to_string inet_ntop n.primary_addr)
unfolding address_in
address_lem inet_ntop n h k fits =
    let addr = ip_to_string inet_ntop n.primary_addr in
    let line = server_line inet_ntop n in
    let total = length-append addr (codes ">" ++ crlf) in
    let found : find_angles 0 0 line ≡ (8 + length addr, 7) =
      unfold find_angles in find_angles-close 8 7 addr crlf h k in
    ap (λ p. or_throw (substr line (add64 p.1 1) (sub64 (sub64 p.0 p.1) 1))) found
    ∙ ap (λ m. or_throw (substr line 8 m)) (omega (arith, total, fits))
    ∙ ap (λ o. or_throw o) (substr_middle (codes "SERVER <") addr (codes ">" ++ crlf))
