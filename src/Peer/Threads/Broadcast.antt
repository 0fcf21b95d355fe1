-- ===== src/Peer/Threads/Broadcast.antt =====
-- BroadcastProcessThread of src/peer_client.cpp, over the sockets of the neighbours.
use p2p_file_sharing_system.Prelude.{
  ℕ, ◌≡◌, List, [], ◌∷◌, ◌++◌, map, append_assoc, append-nil, arith, eq_ℤ, if◌then◌else◌,
}
use p2p_file_sharing_system.Result.{ok}
use p2p_file_sharing_system.Text.{Bytes}
use p2p_file_sharing_system.Ids.{PeerId}
use p2p_file_sharing_system.Buffer.{fill_buffer}
use p2p_file_sharing_system.Peer.{Peer}
use p2p_file_sharing_system.Peer.Threads.{send_to_peers, broadcast_round}

-- The sockets of the other neighbours.
abbrev pub others : PeerId → List (PeerId × ℕ) → List ℕ
others exclude [] = []
others exclude ((peer, sock_fd) ∷ rest) =
    if eq_ℤ exclude peer then others exclude rest else sock_fd ∷ others exclude rest

send_to_peers_lem :
    (m : Bytes) (exclude : PeerId) (b : Bytes) (peers : List (PeerId × ℕ)) (s : Peer)
    → fill_buffer m ≡ ok b
    → send_to_peers m exclude peers s
      ≡ ok (record s { sent = s.sent ++ map (λ fd. (fd, b)) (others exclude peers) })
unfolding send_to_peers
send_to_peers_lem m exclude b [] s e = rw append-nil
send_to_peers_lem m exclude b ((peer, fd) ∷ rest) s e =
    let s' = record s { sent = s.sent ++ (fd, b) ∷ [] } in
    ground (
      arith,
      e,
      send_to_peers_lem m exclude b rest s e,
      send_to_peers_lem m exclude b rest s' e,
      append_assoc s.sent ((fd, b) ∷ []) (map (λ f. (f, b)) (others exclude rest)),
    )

-- A message at the head of the queue that fits a buffer goes, padded, to every neighbour but the one
-- to be left out, once each and in the order of the sockets; it leaves the queue, and no other state
-- changes.
pub broadcast_round_lem :
    (m : Bytes) (exclude : PeerId) (rest : List (Bytes × PeerId)) (b : Bytes) (s : Peer)
    → s.broadcast_queue ≡ (m, exclude) ∷ rest
    → fill_buffer m ≡ ok b
    → broadcast_round s
      ≡ ok (record s {
        broadcast_queue = rest;
        sent = s.sent ++ map (λ fd. (fd, b)) (others exclude s.peer_id_to_sockfd);
      })
unfolding broadcast_round
broadcast_round_lem m exclude rest b s queue e =
    rw queue
      (send_to_peers_lem m exclude b s.peer_id_to_sockfd (record s { broadcast_queue = rest }) e)
