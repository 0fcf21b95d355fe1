-- ===== src/Network/Obtain.antt =====
-- A download by way of other peers: ObtainFile of src/peer_client.cpp, the peers that hand its query on,
-- and the answer.
use p2p_file_sharing_system.Prelude.{
  ℕ, ◌<◌, ◌≤◌, ◌≡◌, refl, sym, ap, ◌∙◌, false, none, some, List, [], ◌∷◌, ◌++◌, map, arith, ℤ, eq_ℤ,
  length,
}
use p2p_file_sharing_system.Result.{ok}
use p2p_file_sharing_system.Text.{Bytes, Lacks}
use p2p_file_sharing_system.Containers.{lookup}
use p2p_file_sharing_system.Containers.Laws.{Distinct, insert-Distinct, lookup-insert}
use p2p_file_sharing_system.Ids.{
  message_id_key, peer_id_key, same_id_refl, msg_buf_size, own_query, get_file_server_port,
}
use p2p_file_sharing_system.Peer.{Peer, set_wait_query_hit, broadcast, cache_query, is_query_cached}
use p2p_file_sharing_system.Peer.Wire.{create_query_message}
use p2p_file_sharing_system.Peer.Operations.{obtain_file}
use p2p_file_sharing_system.Peer.Operations.Queries.{
  next_id, own_query_for, obtain_file_fields, receive_own_cached,
}
use p2p_file_sharing_system.Peer.Threads.{broadcast_round}
use p2p_file_sharing_system.Peer.Threads.Broadcast.{others, broadcast_round_lem}
use p2p_file_sharing_system.Peer.Queries.Refinement.{IsWellFormed, encode_query}
use p2p_file_sharing_system.Peer.Hits.Refinement.{IsWellFormed as IsWellFormedHit, encode_hit}
use p2p_file_sharing_system.Peer.Hits.Transfer.{request_to, accept_first_hit}
use p2p_file_sharing_system.Network.{to_peer, next_of, obtain_over}
use p2p_file_sharing_system.Network.Sockets.{sent_on-append, sent_on-others, to_peer-sent}
use p2p_file_sharing_system.Network.Hop.{
  passes, IsIdle, query_hit, received-dispatch, dispatch-hit, hit_text-filled,
}
use p2p_file_sharing_system.Network.Conversation.{Row, converse-Row, encode_query-Passes}

-- What ObtainFile leaves in the queues, and which sockets the peer has then.
obtain_file_queues :
    (filename : Bytes) (s : Peer)
    → let t = (obtain_file filename s).1 in
      (t.messages_queue ≡ s.messages_queue)
      × (t.broadcast_queue
          ≡ s.broadcast_queue ++ (encode_query (own_query_for filename s), own_query) ∷ [])
      × (t.peer_id_to_sockfd ≡ s.peer_id_to_sockfd)
unfolding obtain_file set_wait_query_hit create_query_message broadcast cache_query encode_query
obtain_file_queues filename s = ground arith

-- A peer asks for a file, and the first of a row of at most four relays is its neighbour, at the end of
-- which there is a peer with the file. Each has nothing else to do and has not seen the query, no relay
-- has the file, and each is a neighbour of the one before and the one behind it, which are two peers.
-- The texts of the query and of the answer are well-formed, without a zero byte, and fit a buffer. The
-- query then passes down the row, the answer comes back, and the peer asks the holder for the file,
-- once. No results were held under the id before.
pub obtain_over_lem :
    (filename ip : Bytes) (s : Peer) (relays : List Peer) (holder : Peer) (port : ℤ) (down : ℕ)
    → IsIdle s
    → IsWellFormed (own_query_for filename s)
    → Lacks 0 filename
    → length filename ≤ 900
    → length relays ≤ 4
    → Row (next_id s) filename ip holder s.peer_id relays
    → lookup (next_of relays holder) s.peer_id_to_sockfd ≡ some down
    → eq_ℤ own_query (next_of relays holder) ≡ false
    → IsWellFormedHit (query_hit (next_id s) holder.peer_id ip filename)
    → Lacks 0 (encode_hit (query_hit (next_id s) holder.peer_id ip filename))
    → length (encode_hit (query_hit (next_id s) holder.peer_id ip filename)) < msg_buf_size
    → get_file_server_port holder.peer_id ≡ ok port
    → lookup (next_id s) s.query_hit_result ≡ none
    → Distinct s.wait_queryhit
    → (t : Peer) × (obtain_over filename s relays holder ≡ ok t)
      × (t.requests
          ≡ s.requests
            ++ request_to (query_hit (next_id s) holder.peer_id ip filename) port filename ∷ [])
unfolding obtain_over is_query_cached
obtain_over_lem filename ip s relays holder port down idle wf no_zero short hops row socket other
      hit_wf hit_no_zero hit_short has_port fresh d =
    let q = own_query_for filename s in
    let h = query_hit (next_id s) holder.peer_id ip filename in
    let s' = (obtain_file filename s).1 in
    let (messages, broadcasts, sockets) = obtain_file_queues filename s in
    let (same_peer, cached, waits, results, requests) = obtain_file_fields filename s in
    let (b, through) = encode_query-Passes q wf no_zero short in
    let (answer, back) = passes (encode_hit h) hit_no_zero hit_short in
    let asked : Peer = record s' {
      broadcast_queue = [];
      sent = s'.sent ++ map (λ fd. (fd, b)) (others own_query s'.peer_id_to_sockfd);
    } in
    let queue : s'.broadcast_queue ≡ (encode_query q, own_query) ∷ [] =
      broadcasts ∙ ap (λ m. m ++ (encode_query q, own_query) ∷ []) idle.no_broadcasts in
    let asks : broadcast_round s' ≡ ok asked =
      broadcast_round_lem (encode_query q) own_query [] b s' queue through.filled in
    let socket' : lookup (next_of relays holder) s'.peer_id_to_sockfd ≡ some down =
      rw sockets socket in
    let gets : to_peer (next_of relays holder) asked ≡ ok b =
      to_peer-sent (next_of relays holder) down b asked socket' (
        sent_on-append down b s'.sent _ (
          sent_on-others (next_of relays holder) own_query down b s'.peer_id_to_sockfd socket'
            other)) in
    let (relays', holder', talk) =
      converse-Row relays q holder ip 5 b answer wf no_zero short refl (omega arith) row hit_wf back
        through in
    let u : Peer = record asked { messages_queue = [] } in
    let (t, accepted, requested, _) =
      accept_first_hit h u filename port refl has_port
        (rw waits (
          lookup-insert (next_id s) (next_id s) filename s.wait_queryhit
          ∙ rw (same_id_refl (next_id s)) refl))
        (rw results fresh) (rw waits (insert-Distinct (next_id s) filename s.wait_queryhit d)) in
    (
      t,
      rw (asks, gets, talk)
          (received-dispatch (encode_hit h) answer asked back (messages ∙ idle.no_messages)
              (hit_text-filled (next_id s) holder.peer_id ip filename)
            ∙ dispatch-hit (next_id s) holder.peer_id ip filename u hit_wf
            ∙ receive_own_cached h u (sym same_peer) cached
            ∙ accepted),
      requested ∙ ap (λ r. r ++ request_to h port filename ∷ []) requests,
    )
