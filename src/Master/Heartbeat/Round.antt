-- ===== src/Master/Heartbeat/Round.antt =====
-- A round of the heartbeat over all nodes.
use google_cloud_final.Base.{ℕ, suc, ◌≡◌, refl, ap, ◌∙◌, List, [], ◌∷◌, ◌++◌, length, arith}
use google_cloud_final.Text.{Bytes}
use google_cloud_final.Map.{Map}
use google_cloud_final.Outcome.{done}
use google_cloud_final.Master.{Node, Master}
use google_cloud_final.Master.Nodes.{Numbered, AtLeast, AtMost}
use google_cloud_final.Master.Counts.{Counted}
use google_cloud_final.Master.Where.{Good}
use google_cloud_final.Master.Heartbeat.{Message, beat_all, heartbeat_round}
use google_cloud_final.Master.Heartbeat.Laws.{
  Reach, AllAnswer, HasConn, SameShare, Primary, heartbeat_lem,
}

-- Each node is a heartbeat after the other.
abbrev pub EachBeaten : Reach → List Node → List Node → Type 0
EachBeaten reach [] [] = Unit {0}
EachBeaten reach (n ∷ ns) (n' ∷ ns') =
    (Primary reach n n' × SameShare n n') × EachBeaten reach ns ns'
EachBeaten reach _ _ = ⊥

abbrev pub AllHaveConn : List Node → Type 0
AllHaveConn [] = Unit {0}
AllHaveConn (n ∷ ns) = HasConn n × AllHaveConn ns

beat_all_lem :
    (inet_ntop : ℕ → Bytes) (reach : Reach) (ns : List Node)
    → AllAnswer reach
    → AllHaveConn ns
    → (ns' : List Node) × (sent : List Message) × (beat_all inet_ntop reach ns ≡ done (ns', sent))
      × EachBeaten reach ns ns'
      × AllHaveConn ns'
unfolding beat_all
beat_all_lem inet_ntop reach [] answer h = ([], [], refl, tt, tt)
beat_all_lem inet_ntop reach (n ∷ ns) answer h =
    let (n', sent, e, p, same, conn) = heartbeat_lem inet_ntop reach n answer h.0 in
    let (ns', more, e', each, conns) = beat_all_lem inet_ntop reach ns answer h.1 in
    (n' ∷ ns', sent ++ more, rw (e, e') refl, ((p, same), each), (conn, conns))

beaten-length :
    (reach : Reach) (ns ns' : List Node) → EachBeaten reach ns ns' → length ns' ≡ length ns
beaten-length reach [] [] h = refl
beaten-length reach [] (n' ∷ ns') h = absurd h
beaten-length reach (n ∷ ns) [] h = absurd h
beaten-length reach (n ∷ ns) (n' ∷ ns') h = ap suc (beaten-length reach ns ns' h.1)

beaten-Numbered :
    (reach : Reach) (i : ℕ) (ns ns' : List Node)
    → EachBeaten reach ns ns'
    → Numbered i ns
    → Numbered i ns'
beaten-Numbered reach i [] [] h k = tt
beaten-Numbered reach i [] (n' ∷ ns') h k = absurd h
beaten-Numbered reach i (n ∷ ns) [] h k = absurd h
beaten-Numbered reach i (n ∷ ns) (n' ∷ ns') h k =
    (h.0.1.node_id ∙ k.0, beaten-Numbered reach (suc i) ns ns' h.1 k.1)

beaten-Counted :
    (reach : Reach) (i : ℕ) (ns ns' : List Node) (index : Map ℕ)
    → EachBeaten reach ns ns'
    → Counted i ns index
    → Counted i ns' index
beaten-Counted reach i [] [] index h k = tt
beaten-Counted reach i [] (n' ∷ ns') index h k = absurd h
beaten-Counted reach i (n ∷ ns) [] index h k = absurd h
beaten-Counted reach i (n ∷ ns) (n' ∷ ns') index h k =
    (h.0.1.row_num ∙ k.0, beaten-Counted reach (suc i) ns ns' index h.1 k.1)

beaten-between :
    (reach : Reach) (low high : ℕ) (ns ns' : List Node)
    → EachBeaten reach ns ns'
    → AtLeast low ns
    → AtMost high ns
    → AtLeast low ns' × AtMost high ns'
beaten-between reach low high [] [] h k l = (tt, tt)
beaten-between reach low high [] (n' ∷ ns') h k l = absurd h
beaten-between reach low high (n ∷ ns) [] h k l = absurd h
beaten-between reach low high (n ∷ ns) (n' ∷ ns') h k l =
    let (a, b) = beaten-between reach low high ns ns' h.1 k.1 l.1 in
    let same = h.0.1.row_num in ((omega (arith, same, k.0), a), (omega (arith, same, l.0), b))

-- If every server that is reached sends a line or fails, then on a good state in which each
-- running node has its connection a round of the heartbeat returns; each node is after it what a
-- heartbeat makes of it, no row moves, and the state is good and each running node has its
-- connection.
pub heartbeat_round_lem :
    (inet_ntop : ℕ → Bytes) (reach : Reach) (s : Master)
    → Good s
    → AllAnswer reach
    → AllHaveConn s.nodes_list
    → (s' : Master) × (sent : List Message) × (heartbeat_round inet_ntop reach s ≡ done (s', sent))
      × EachBeaten reach s.nodes_list s'.nodes_list
      × (s'.node_index ≡ s.node_index)
      × Good s'
      × AllHaveConn s'.nodes_list
unfolding heartbeat_round
heartbeat_round_lem inet_ntop reach s g answer h =
    let (ns, sent, e, each, conns) = beat_all_lem inet_ntop reach s.nodes_list answer h in
    let same = beaten-length reach s.nodes_list ns each in
    let (low, high) =
      beaten-between reach g.balanced.low (suc g.balanced.low) s.nodes_list ns each
        g.balanced.at_least g.balanced.at_most in
    (
      record s { nodes_list = ns },
      sent,
      rw e refl,
      each,
      refl,
      record {
        numbered = beaten-Numbered reach 0 s.nodes_list ns each g.numbered;
        some_node = omega (arith, same, g.some_node);
        in_range = rw same g.in_range;
        counted = beaten-Counted reach 0 s.nodes_list ns s.node_index each g.counted;
        balanced = record { low = g.balanced.low; at_least = low; at_most = high };
      },
      conns,
    )
