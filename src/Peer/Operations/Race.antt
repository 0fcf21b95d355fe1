-- ===== src/Peer/Operations/Race.antt =====
-- An answer that comes between the two steps of ObtainFile (src/peer_client.cpp), which holds no lock over
-- both.
use p2p_file_sharing_system.Prelude.{◌≡◌, refl, sym, ap, ◌∙◌, true, none, some, arith, ℤ}
use p2p_file_sharing_system.Result.{ok}
use p2p_file_sharing_system.Text.{Bytes}
use p2p_file_sharing_system.Containers.{lookup}
use p2p_file_sharing_system.Containers.Laws.{lookup-insert, contains-insert}
use p2p_file_sharing_system.Ids.{
  MessageId, message_id_key, same_id_refl, own_query, get_file_server_port,
}
use p2p_file_sharing_system.Peer.{Peer, is_query_cached, cache_query, broadcast, set_wait_query_hit}
use p2p_file_sharing_system.Peer.Wire.{create_query_message}
use p2p_file_sharing_system.Peer.Hits.{handle_query_hit}
use p2p_file_sharing_system.Peer.Hits.Refinement.{
  Hit, IsWellFormed, encode_hit, handle_query_hit-encode_hit,
}
use p2p_file_sharing_system.Peer.Hits.Transfer.{
  remembered, remembered_fields, accept_hit_not_waiting,
}
use p2p_file_sharing_system.Peer.Operations.{send_query, obtain_file}
use p2p_file_sharing_system.Peer.Operations.Queries.{next_id, receive_own_cached}

send_query_fields :
    (filename : Bytes) (s : Peer)
    → let t = (send_query filename s).1 in
      (t.peer_id ≡ s.peer_id)
      × (is_query_cached t (next_id s) ≡ true)
      × (t.wait_queryhit ≡ s.wait_queryhit)
      × (t.requests ≡ s.requests)
unfolding send_query create_query_message broadcast cache_query is_query_cached
send_query_fields filename s =
    ground
      (arith, contains-insert (next_id s) (next_id s) own_query s.queries, same_id_refl (next_id s))

obtain_file_steps :
    (filename : Bytes) (s : Peer)
    → (obtain_file filename s).1 ≡ set_wait_query_hit (send_query filename s).1 (next_id s) filename
unfolding obtain_file send_query create_query_message
obtain_file_steps filename s = refl

-- ObtainFile is SendQuery and then SetWaitQueryHit. Where a well-formed answer, from a peer whose port
-- does not overflow, is handled between the two, no transfer is started by it, and once both are done
-- the operation waits for another answer. Nothing waited for the id before.
pub early_answer_starts_nothing :
    (filename : Bytes) (s : Peer) (h : Hit) (port : ℤ)
    → IsWellFormed h
    → h.id ≡ next_id s
    → get_file_server_port h.originator ≡ ok port
    → lookup (next_id s) s.wait_queryhit ≡ none
    → let sent = (send_query filename s).1 in
      ((obtain_file filename s).1 ≡ set_wait_query_hit sent (next_id s) filename)
      × (t : Peer) × (handle_query_hit (encode_hit h) sent ≡ ok t)
      × ((set_wait_query_hit t (next_id s) filename).requests ≡ s.requests)
      × (lookup (next_id s) (set_wait_query_hit t (next_id s) filename).wait_queryhit
          ≡ some filename)
unfolding set_wait_query_hit
early_answer_starts_nothing filename s h port wf is_next has_port idle =
    let sent = (send_query filename s).1 in
    let (same_peer, cached, waits, requests) = send_query_fields filename s in
    let t = remembered h port sent in
    let (t_requests, t_waits, _, _) = remembered_fields h port sent in
    (
      obtain_file_steps filename s,
      t,
      handle_query_hit-encode_hit h sent wf
          ∙ receive_own_cached h sent (ap (λ (i : MessageId). i.peer_id) is_next ∙ sym same_peer)
              (rw is_next cached)
          ∙ accept_hit_not_waiting h sent port has_port (rw (is_next, waits) idle),
      t_requests ∙ requests,
      lookup-insert (next_id s) (next_id s) filename t.wait_queryhit
          ∙ rw (same_id_refl (next_id s)) refl,
    )
