-- ===== src/Peer/Hits.antt =====
-- HandleQueryHit and HandleWaitQueryHit of src/peer_client.cpp: what a peer does with the answer to a
-- query, its own or another's.
pub mod Refinement
pub mod Transfer
pub mod Pushes
pub mod Second
mod Tests
use p2p_file_sharing_system.Prelude.{
  ℕ, zero, suc, ◌≡◌, Bool, true, false, not, Option, none, some, List, [], ◌∷◌, ◌++◌, if◌then◌else◌,
  ℤ, pos, leb_ℤ, eq_ℤ, ◌-ℤ◌, ◌+◌,
}
use p2p_file_sharing_system.Result.{
  Result, ok, fault, Fault, invalid_argument, number_out_of_range, index_out_of_range, ◌>>=◌,
}
use p2p_file_sharing_system.Text.{Bytes, bytes_eq}
use p2p_file_sharing_system.Text.Number.{to_string, stoi}
use p2p_file_sharing_system.Text.Split.{split_string, join_string}
use p2p_file_sharing_system.Containers.{lookup, insert, erase}
use p2p_file_sharing_system.Ids.{
  PeerId, MessageId, message_id_key, PeerServerInfo, QueryResult, delim, no_limit, decrement,
  get_file_server_port, peer_msg_query_hit, peer_msg_inv_query_hit,
}
use p2p_file_sharing_system.Peer.{
  Peer, get_timestamp, is_query_cached, relay_query_hit, start_file_transfer, start_push_file, at,
  read_message_id,
}

-- The loop over the results of an inverse query: at most `replication_factor - 1` pushes. The difference,
-- which overflows for the least int alone, is an integer.
unfoldable pub push_to_results : Peer → Bytes → List QueryResult → ℕ → Peer
push_to_results s filename [] count = s
push_to_results s filename (elem ∷ elems) count =
    let rest =
      push_to_results (start_push_file s filename elem.server_info) filename elems (count + 1) in
    if leb_ℤ (s.replication_factor -ℤ pos 1) (pos count) then s else rest

-- `front()` of an empty list is undefined.
unfoldable pub transfer_from_front : Peer → Bytes → List QueryResult → Result Peer
transfer_from_front s filename [] = fault index_out_of_range
transfer_from_front s filename (elem ∷ elems) = ok (start_file_transfer s filename elem.server_info)

unfoldable pub use_results : Peer → Bytes → Bytes → List QueryResult → Result Peer
unfolding transfer_from_front push_to_results
use_results s message_type filename results =
    if bytes_eq message_type peer_msg_query_hit
    then transfer_from_front s filename results
    else if bytes_eq message_type peer_msg_inv_query_hit
    then ok (push_to_results s filename results 0)
    else ok s

-- The entry of the waiting operation is erased first, so that one hit starts it.
unfoldable pub handle_wait_query_hit : Bytes → MessageId → Peer → Result Peer
unfolding use_results
handle_wait_query_hit message_type id s = elim (lookup id s.wait_queryhit) [
  | none ↦ ok s
  | some filename ↦
      let s' = record s { wait_queryhit = erase id s.wait_queryhit } in
      elim (lookup id s.query_hit_result) [
        | none ↦ ok s'
        | some results ↦ use_results s' message_type filename results
      ]
]

-- WaitReplicateFileQueryHit, behind its delay: the pushes to the peers that have answered by then.
unfoldable pub wait_replicate_file_query_hit : MessageId → Bytes → Peer → Peer
unfolding push_to_results
wait_replicate_file_query_hit id filename s = elim (lookup id s.query_hit_result) [
  | none ↦ s
  | some results ↦ push_to_results s filename results 0
]

-- `m_query_hit_result[message_id].push_back(result)`, after an empty list was put where none was.
unfoldable pub add_result : MessageId → QueryResult → Peer → Peer
add_result id result s = elim (lookup id s.query_hit_result) [
  | none ↦ record s { query_hit_result = insert id (result ∷ []) s.query_hit_result }
  | some results ↦ record s {
    query_hit_result = insert id (results ++ result ∷ []) s.query_hit_result;
  }
]

-- The branch of the peer that issued the query, without the latency that it prints.
unfoldable pub receive_own_hit : List Bytes → MessageId → Peer → Result Peer
unfolding add_result handle_wait_query_hit
receive_own_hit vec id s = if not (is_query_cached s id) then ok s else do
  originator ← stoi (← at vec 5)
  let (now, s₁) = get_timestamp s
  port ← get_file_server_port originator
  ip ← at vec 6
  let server : PeerServerInfo = record { ip = ip; port = port }
  message_type ← at vec 0
  handle_wait_query_hit message_type id
      (add_result id (record { server_info = server; timestamp = now }) s₁)

-- The branch of every other peer. The time to live is counted down for the test alone: the message
-- that goes on is joined from the fields as they came.
unfoldable pub pass_hit_on : List Bytes → MessageId → Peer → Result Peer
pass_hit_on vec id s = do
  ttl ← stoi (← at vec 4)
  ttl' ← decrement ttl
  if leb_ℤ ttl' (pos 0) then ok s else relay_query_hit s (join_string vec delim) id

-- `catch (const std::exception&)` round the three conversions: the exceptions end the handler, and
-- undefined behaviour is not caught.
unfoldable pub catch_number : {A : Type 0} → Result A → (A → Result Peer) → Peer → Result Peer
catch_number (ok a) k s = k a
catch_number (fault invalid_argument) k s = ok s
catch_number (fault number_out_of_range) k s = ok s
catch_number (fault e) k s = fault e

unfoldable pub handle_query_hit : Bytes → Peer → Result Peer
unfolding catch_number
handle_query_hit message s =
    let vec = split_string message delim no_limit in
    catch_number (read_message_id vec)
      (λ id. if eq_ℤ id.peer_id s.peer_id then receive_own_hit vec id s else pass_hit_on vec id s) s

unfoldable pub handle_inv_query_hit : Bytes → Peer → Result Peer
unfolding handle_query_hit
handle_inv_query_hit message s = handle_query_hit message s
