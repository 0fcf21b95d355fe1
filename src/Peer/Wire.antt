-- ===== src/Peer/Wire.antt =====
-- The text of the messages: CreateCommonQueryMsgVec, CreateQueryMessage, CreateInvQueryMessage,
-- CreateQueryHitMessage and CreateInvQueryHitMessage of src/peer_client.cpp. A message that takes a
-- new id also returns the id, and the client with its counter moved on (modulo 2^64).
pub mod Fields
pub mod Bounds
use p2p_file_sharing_system.Prelude.{
  ℕ, ◌+◌, ◌%◌, ◌≡◌, refl, List, [], ◌∷◌, ◌++◌, ℤ, pos, ◌-ℤ◌, negsuc,
}
use p2p_file_sharing_system.Text.{Bytes, codes}
use p2p_file_sharing_system.Text.Number.{format, to_string, uint64_mod}
use p2p_file_sharing_system.Text.Split.{join_string}
use p2p_file_sharing_system.Containers.{index}
use p2p_file_sharing_system.Ids.{
  MessageId, peer_id_key, delim, initial_ttl, peer_msg_query, peer_msg_query_hit,
  peer_msg_inv_query, peer_msg_inv_query_hit,
}
use p2p_file_sharing_system.Peer.{Peer, get_timestamp}

-- A new id, under the lock of the counter.
unfoldable pub new_message_id : Peer → MessageId × Peer
unfolding get_timestamp
new_message_id s =
    let (now, s') = get_timestamp s in
    (
      record { peer_id = s.peer_id; msg_id = s.msg_id_counter; timestamp = now },
      record s' { msg_id_counter = (s.msg_id_counter + 1) % uint64_mod },
    )

-- Fields 0 to 5: type, id, time to live, and the peer that a query comes from or a hit began at.
unfoldable pub header_vec : Bytes → MessageId → ℤ → ℤ → List Bytes
header_vec msg_type id ttl sender =
    msg_type
    ∷ to_string id.peer_id
    ∷ format id.msg_id
    ∷ to_string id.timestamp
    ∷ to_string ttl
    ∷ to_string sender
    ∷ []

unfoldable pub create_common_query_msg_vec : Bytes → Peer → List Bytes × MessageId × Peer
unfolding new_message_id header_vec
create_common_query_msg_vec msg_type s =
    let (id, s') = new_message_id s in (header_vec msg_type id initial_ttl s.peer_id, id, s')

unfoldable pub create_query_message : Bytes → Peer → Bytes × MessageId × Peer
unfolding new_message_id header_vec
create_query_message filename s =
    let (id, s') = new_message_id s in
    (
      join_string (header_vec peer_msg_query id initial_ttl s.peer_id ++ filename ∷ []) delim,
      id,
      s',
    )

unfoldable pub create_inv_query_message : Bytes → Peer → Bytes × MessageId × Peer
unfolding new_message_id header_vec
create_inv_query_message filename s =
    let (id, s') = new_message_id s in
    (
      join_string
          (header_vec peer_msg_inv_query id initial_ttl s.peer_id
            ++ filename ∷ to_string (s.replication_factor -ℤ pos 1) ∷ [])
          delim,
      id,
      s',
    )

-- `m_peer_id_to_ip[m_peer_id]`, which makes an empty entry where there is none.
unfoldable pub own_ip : Peer → Bytes × Peer
own_ip s =
    let (ip, ips) = index s.peer_id [] s.peer_id_to_ip in (ip, record s { peer_id_to_ip = ips })

unfoldable pub create_query_hit_message : Bytes → MessageId → Peer → Bytes × Peer
unfolding own_ip header_vec
create_query_hit_message filename id s =
    let (ip, s') = own_ip s in
    (
      join_string (header_vec peer_msg_query_hit id initial_ttl s.peer_id ++ ip ∷ filename ∷ [])
          delim,
      s',
    )

unfoldable pub create_inv_query_hit_message : Bytes → MessageId → Peer → Bytes × Peer
unfolding own_ip header_vec
create_inv_query_hit_message filename id s =
    let (ip, s') = own_ip s in
    (join_string (header_vec peer_msg_inv_query_hit id initial_ttl s.peer_id ++ ip ∷ []) delim, s')
