-- ===== src/Peer/Hits/Second.antt =====
-- Two answers to one replication: HandleQueryHit with HandleWaitQueryHit of src/peer_client.cpp.
use p2p_file_sharing_system.Prelude.{
  ◌≡◌, sym, ap, ◌∙◌, true, none, some, [], ◌∷◌, ◌++◌, arith, ℤ, pos, ◌≤ℤ◌, Option-cases, inl, inr,
}
use p2p_file_sharing_system.Result.{ok, ◌>>=◌, OnOk_use}
use p2p_file_sharing_system.Text.{Bytes}
use p2p_file_sharing_system.Containers.{lookup}
use p2p_file_sharing_system.Containers.Laws.{Distinct, contains-lookup}
use p2p_file_sharing_system.Ids.{
  MessageId, message_id_key, get_file_server_port, peer_msg_inv_query_hit,
}
use p2p_file_sharing_system.Peer.{Peer, has_file, is_query_cached}
use p2p_file_sharing_system.Peer.Hits.{handle_query_hit}
use p2p_file_sharing_system.Peer.Hits.Refinement.{
  Hit, IsWellFormed, encode_hit, handle_query_hit-encode_hit,
}
use p2p_file_sharing_system.Peer.Hits.Transfer.{
  push_to, accept_first_inv_hit, remembered, remembered_fields, accept_hit_not_waiting,
}
use p2p_file_sharing_system.Peer.Operations.Queries.{receive_own_cached}
use p2p_file_sharing_system.Peer.Extends.{Extends}
use p2p_file_sharing_system.Peer.Extends.Messages.{handle_query_hit-Extends}

Extends-cached :
    (s t : Peer) (id : MessageId)
    → Extends s t
    → is_query_cached s id ≡ true
    → is_query_cached t id ≡ true
unfolding is_query_cached
Extends-cached s t id x cached = elim (Option-cases (lookup id s.queries)) [
  | inl missing ↦ absurd (ground (arith, contains-lookup id s.queries, cached, missing))
  | inr (u, found) ↦ ground (arith, contains-lookup id t.queries, x.keeps id u found)
]

-- Where a replication waits for answers under an id of the peer's own that is cached, has none yet, wants
-- two copies or more in all, of which the peer holds one, the file is pushed to the first peer that
-- answers, and a second answer under the id, which comes when the first has been dealt with, pushes it to
-- no other peer, however many copies are wanted. Both answers are well-formed inverse query hits, the
-- second maybe of the other kind, from peers whose ports do not overflow.
pub second_inv_hit_pushes_nothing :
    (h h' : Hit) (s : Peer) (filename : Bytes) (port port' : ℤ)
    → IsWellFormed h
    → IsWellFormed h'
    → h.msg_type ≡ peer_msg_inv_query_hit
    → h'.id ≡ h.id
    → h.id.peer_id ≡ s.peer_id
    → is_query_cached s h.id ≡ true
    → get_file_server_port h.originator ≡ ok port
    → get_file_server_port h'.originator ≡ ok port'
    → lookup h.id s.wait_queryhit ≡ some filename
    → lookup h.id s.query_hit_result ≡ none
    → Distinct s.wait_queryhit
    → has_file s filename ≡ true
    → pos 2 ≤ℤ s.replication_factor
    → (t : Peer) × ((handle_query_hit (encode_hit h) s >>= handle_query_hit (encode_hit h')) ≡ ok t)
      × (t.requests ≡ s.requests ++ push_to h port filename ∷ [])
second_inv_hit_pushes_nothing h h' s filename port port' wf wf' inv_hit same_id own cached has_port
      has_port' waits fresh d has copies =
    let (u, first, pushed, over) =
      accept_first_inv_hit h s filename port inv_hit has_port waits fresh d has copies in
    let handled : handle_query_hit (encode_hit h) s ≡ ok u =
      handle_query_hit-encode_hit h s wf ∙ receive_own_cached h s own cached ∙ first in
    let x =
      OnOk_use (Extends s) (handle_query_hit (encode_hit h) s) handled
        (handle_query_hit-Extends (encode_hit h) s) in
    let own' : h'.id.peer_id ≡ u.peer_id =
      ap (λ (i : MessageId). i.peer_id) same_id ∙ own ∙ sym x.same_peer in
    let cached' : is_query_cached u h'.id ≡ true =
      ap (is_query_cached u) same_id ∙ Extends-cached s u h.id x cached in
    (
      remembered h' port' u,
      ap (λ m. m >>= handle_query_hit (encode_hit h')) handled
          ∙ handle_query_hit-encode_hit h' u wf'
          ∙ receive_own_cached h' u own' cached'
          ∙ accept_hit_not_waiting h' u port' has_port'
              (ap (λ i. lookup i u.wait_queryhit) same_id ∙ over),
      (remembered_fields h' port' u).0 ∙ pushed,
    )
