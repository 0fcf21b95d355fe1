-- ===== src/Network/World/Hits.antt =====
-- A hit that comes to a peer in a network: HandleQueryHit and HandleWaitQueryHit of
-- src/peer_client.cpp.
use mathlib.Core.Path.{subst}
use p2p_file_sharing_system.Prelude.{
  ℕ, ◌≡◌, ◌≢◌, refl, sym, true, Bool-cases, if_both, Option-cases, inl, inr, some, arith, pos,
  leb_ℤ, eq_ℤ, eq_ℤ_iff, if◌then◌else◌,
}
use p2p_file_sharing_system.Result.{ok}
use p2p_file_sharing_system.Text.{Bytes, bytes_eq}
use p2p_file_sharing_system.Text.Split.{join_string}
use p2p_file_sharing_system.Containers.{lookup, contains}
use p2p_file_sharing_system.Containers.Laws.{contains-lookup}
use p2p_file_sharing_system.Ids.{PeerId, MessageId, message_id_key, peer_id_key}
use p2p_file_sharing_system.Peer.{Peer, is_query_cached, relay_query_hit}
use p2p_file_sharing_system.Peer.Wire.{header_vec}
use p2p_file_sharing_system.Peer.Hits.{handle_inv_query_hit}
use p2p_file_sharing_system.Peer.Hits.Refinement.{
  Hit, IsWellFormed, encode_hit, hit_vec, receive_hit, accept_hit, handle_query_hit-encode_hit,
}
use p2p_file_sharing_system.Peer.Threads.{dispatch, command_of}
use p2p_file_sharing_system.Network.Hop.{dispatch-hit}
use p2p_file_sharing_system.Network.World.{Net, IsNet}
use p2p_file_sharing_system.Network.World.Invariant.{
  Caches, Origin, Origin.own, Origin.from, IsSound, IsSendableHit, IsAnswer, IsAnswer.to_query,
  IsAnswer.to_inv_query, inv_query_hit,
}
use p2p_file_sharing_system.Network.World.Accepting.{accept_hit-Takes}
use p2p_file_sharing_system.Network.World.Goes.{Goes, idle-Goes, same-Goes, along-Goes}
use p2p_file_sharing_system.Network.World.Caching.{relay_hit-Goes}

dispatch-inv_query_hit :
    (id : MessageId) (originator : PeerId) (ip : Bytes) (s : Peer)
    → IsWellFormed (inv_query_hit id originator ip)
    → dispatch (encode_hit (inv_query_hit id originator ip)) s
      ≡ receive_hit (inv_query_hit id originator ip) s
unfolding dispatch command_of handle_inv_query_hit encode_hit hit_vec header_vec join_string
    bytes_eq
dispatch-inv_query_hit id originator ip s wf =
    handle_query_hit-encode_hit (inv_query_hit id originator ip) s wf

-- HandleQueryHit or HandleInvQueryHit, as the type of the message says.
pub dispatch-answer :
    (h : Hit) (s : Peer) → IsAnswer h → IsWellFormed h → dispatch (encode_hit h) s ≡ receive_hit h s
dispatch-answer h s (to_query id originator ip filename e) wf =
    subst (λ k. dispatch (encode_hit k) s ≡ receive_hit k s) (sym e)
      (dispatch-hit id originator ip filename s (subst IsWellFormed e wf))
dispatch-answer h s (to_inv_query id originator ip e) wf =
    subst (λ k. dispatch (encode_hit k) s ≡ receive_hit k s) (sym e)
      (dispatch-inv_query_hit id originator ip s (subst IsWellFormed e wf))

module _ (net : Net) (c : Caches) (i : ℕ) where
  pass-Goes :
      (h : Hit) (up : PeerId) (s : Peer)
      → IsNet net
      → IsSound net c i s
      → IsSendableHit net h
      → h.id.peer_id ≢ pos i
      → lookup h.id s.queries ≡ some up
      → Origin net c i h.id up
      → Goes net c i s (relay_query_hit s (encode_hit h) h.id)
  pass-Goes h up s is_net sound sendable foreign found (own e) = absurd (foreign e)
  pass-Goes h up s is_net sound sendable foreign found (from n fd e socket knows) =
      relay_hit-Goes net c i h up n fd s is_net sound sendable found e socket knows

  own-Goes :
      (h : Hit) (s : Peer)
      → IsSound net c i s
      → IsSendableHit net h
      → Goes net c i s (accept_hit h s)
  own-Goes h s sound sendable =
      let (t, takes, same) =
        accept_hit-Takes net h sendable.port s sendable.has_port sendable.server sound.honest in
      along-Goes net c i s _ (ok t) takes (same-Goes net c i s t same.0 same.1 sound)

  -- A hit for a query that the peer knows is accepted or sent on without a fault.
  pub receive_hit-Goes :
      (h : Hit) (s : Peer)
      → IsNet net
      → IsSound net c i s
      → IsSendableHit net h
      → contains h.id s.queries ≡ true
      → Goes net c i s (receive_hit h s)
  unfolding receive_hit
  receive_hit-Goes h s is_net sound sendable mine =
      elim (Bool-cases (eq_ℤ h.id.peer_id s.peer_id)) [
        | inl its_own ↦
            along-Goes net c i s _ (if is_query_cached s h.id then accept_hit h s else ok s)
              (rw its_own refl)
              (if_both (Goes net c i s) (is_query_cached s h.id) _ _ (own-Goes h s sound sendable)
                (idle-Goes net c i s sound))
        | inr foreign ↦
            let apart : h.id.peer_id ≢ pos i =
              λ e. ground (arith, foreign, sound.self, e, eq_ℤ_iff h.id.peer_id s.peer_id) in
            elim (Option-cases (lookup h.id s.queries)) [
              | inl missing ↦ absurd (ground (arith, contains-lookup h.id s.queries, mine, missing))
              | inr (up, found) ↦
                  along-Goes net c i s _
                    (if leb_ℤ h.ttl (pos 1) then ok s else relay_query_hit s (encode_hit h) h.id)
                    (rw foreign refl)
                    (if_both (Goes net c i s) (leb_ℤ h.ttl (pos 1)) _ _ (idle-Goes net c i s sound)
                      (pass-Goes h up s is_net sound sendable apart found
                        (sound.known h.id up found)))
            ]
      ]
