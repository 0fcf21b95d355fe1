-- ===== src/Peer/Extends/Queries.antt =====
-- HandleQuery and HandleInvQuery of src/peer_client.cpp, by the relation Extends.
use p2p_file_sharing_system.Prelude.{refl, List, ◌∷◌, ℤ, pos, leb_ℤ, if_both}
use p2p_file_sharing_system.Result.{Result, OnOk, OnOk->>=}
use p2p_file_sharing_system.Text.{Bytes}
use p2p_file_sharing_system.Text.Number.{stoi}
use p2p_file_sharing_system.Text.Split.{split_string}
use p2p_file_sharing_system.Ids.{PeerId, MessageId, delim, no_limit, decrement}
use p2p_file_sharing_system.Peer.{
  Peer, member, has_file, is_query_cached, cache_query, relay_query_hit, at, read_message_id,
}
use p2p_file_sharing_system.Peer.Wire.{
  create_query_hit_message, create_inv_query_hit_message, own_ip,
}
use p2p_file_sharing_system.Peer.Queries.{
  relay_if_alive, decrease_ttl_and_relay, answer_or_relay, receive_once, offer_to_hold,
  decrease_factor_and_relay, replicate_or_relay,
}
use p2p_file_sharing_system.Peer.Extends.{
  Extends, Extends-refl, cache_query-Extends, relay_query-Extends, relay_query_hit-Extends,
  own_ip-Extends, then-Extends, Extends-bind,
}

relay_if_alive-Extends :
    (s : Peer) (vec : List Bytes) (u : PeerId) (ttl : ℤ) → Extends s (relay_if_alive s vec u ttl)
unfolding relay_if_alive
relay_if_alive-Extends s vec u ttl =
    if_both (Extends s) (leb_ℤ ttl (pos 0)) _ _ (Extends-refl s) (relay_query-Extends s _ u)

pub decrease_ttl-Extends :
    (s : Peer) (vec : List Bytes) (u : PeerId) → OnOk (Extends s) (decrease_ttl_and_relay s vec u)
unfolding decrease_ttl_and_relay
decrease_ttl-Extends s vec u = OnOk->>= (Extends s) (at vec 4) _ λ field.
    OnOk->>= (Extends s) (stoi field) _
      λ ttl. OnOk->>= (Extends s) (decrement ttl) _ λ ttl'. relay_if_alive-Extends s vec u ttl'

query_hit-Extends :
    (s : Peer) (filename hit : Bytes) (id : MessageId)
    → OnOk (Extends s) (relay_query_hit (own_ip s).1 hit id)
query_hit-Extends s filename hit id =
    then-Extends s (own_ip s).1 _ (own_ip-Extends s) (relay_query_hit-Extends (own_ip s).1 hit id)

pub answer_or_relay-Extends :
    (s : Peer) (vec : List Bytes) (id : MessageId) (u : PeerId)
    → OnOk (Extends s) (answer_or_relay s vec id u)
unfolding answer_or_relay create_query_hit_message
answer_or_relay-Extends s vec id u = OnOk->>= (Extends s) (at vec 6) _ λ filename.
    if_both (OnOk (Extends s)) (has_file s filename) _ _ (query_hit-Extends s filename _ id)
      (decrease_ttl-Extends s vec u)

-- A new query is cached, and from there on the state is extended.
pub receive_once-Extends :
    (next : Peer → List Bytes → MessageId → PeerId → Result Peer) (m : Bytes) (s : Peer)
    → ((t : Peer) (vec : List Bytes) (id : MessageId) (u : PeerId)
        → OnOk (Extends t) (next t vec id u))
    → OnOk (Extends s) (receive_once next m s)
unfolding receive_once
receive_once-Extends next m s h =
    let vec = split_string m delim no_limit in
    OnOk->>= (Extends s) (read_message_id vec) _ λ id.
      if_both (OnOk (Extends s)) (is_query_cached s id) _ _ (Extends-refl s) (
        OnOk->>= (Extends s) (at vec 5) _ λ field. OnOk->>= (Extends s) (stoi field) _ λ u.
          then-Extends s (cache_query s id u) _ (cache_query-Extends s id u)
            (h (cache_query s id u) vec id u))

offer_to_hold-Extends :
    (s : Peer) (id : MessageId) (filename : Bytes) → OnOk (Extends s) (offer_to_hold s id filename)
unfolding offer_to_hold create_inv_query_hit_message
offer_to_hold-Extends s id filename =
    if_both (OnOk (Extends s)) (has_file s filename) _ _ (Extends-refl s)
      (query_hit-Extends s filename _ id)

decrease_factor-Extends :
    (s : Peer) (vec : List Bytes) (u : PeerId) (factor : ℤ)
    → OnOk (Extends s) (decrease_factor_and_relay s vec u factor)
unfolding decrease_factor_and_relay
decrease_factor-Extends s vec u factor = OnOk->>= (Extends s) (decrement factor) _ λ factor'.
    if_both (OnOk (Extends s)) (leb_ℤ factor' (pos 0)) _ _ (Extends-refl s)
      (decrease_ttl-Extends s _ u)

record_filename-Extends :
    (s : Peer) (filename : Bytes)
    → Extends s (record s { replicate_query_filename = filename ∷ s.replicate_query_filename })
record_filename-Extends s filename = record {
  same_peer = refl;
  same_factor = refl;
  same_sockets = refl;
  same_files = refl;
  keeps = λ j u h. h;
}

pub replicate_or_relay-Extends :
    (s : Peer) (vec : List Bytes) (id : MessageId) (u : PeerId)
    → OnOk (Extends s) (replicate_or_relay s vec id u)
unfolding replicate_or_relay
replicate_or_relay-Extends s vec id u = OnOk->>= (Extends s) (at vec 7) _ λ field₇.
    OnOk->>= (Extends s) (stoi field₇) _ λ factor. OnOk->>= (Extends s) (at vec 6) _ λ filename.
      if_both (OnOk (Extends s)) (member filename s.replicate_query_filename) _ _ (Extends-refl s) (
        then-Extends s _ _ (record_filename-Extends s filename) (
          Extends-bind _ _ _ (offer_to_hold-Extends _ id filename)
            λ s''. decrease_factor-Extends s'' vec u factor))
