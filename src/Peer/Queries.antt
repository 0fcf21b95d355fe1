-- ===== src/Peer/Queries.antt =====
-- HandleQuery and HandleInvQuery of src/peer_client.cpp, and the step that every handler of a query
-- ends with: the time to live is counted down and the message goes on to the other neighbours.
pub mod Refinement
pub mod Replication
use p2p_file_sharing_system.Prelude.{
  ◌≡◌, Bool, true, false, List, [], ◌∷◌, ◌++◌, if◌then◌else◌, ℤ, pos, leb_ℤ, set,
}
use p2p_file_sharing_system.Result.{Result, ok, ◌>>=◌}
use p2p_file_sharing_system.Text.{Bytes}
use p2p_file_sharing_system.Text.Number.{to_string, stoi}
use p2p_file_sharing_system.Text.Split.{split_string, join_string}
use p2p_file_sharing_system.Ids.{PeerId, MessageId, delim, no_limit, decrement}
use p2p_file_sharing_system.Peer.{
  Peer, member, has_file, is_query_cached, cache_query, relay_query, relay_query_hit, at,
  read_message_id,
}
use p2p_file_sharing_system.Peer.Wire.{create_query_hit_message, create_inv_query_hit_message}

-- `ttl` is the time to live, counted down.
unfoldable pub relay_if_alive : Peer → List Bytes → PeerId → ℤ → Peer
relay_if_alive s vec upstream ttl =
    if leb_ℤ ttl (pos 0)
    then s
    else relay_query s (join_string (set (set vec 4 (to_string ttl)) 5 (to_string s.peer_id)) delim)
        upstream

unfoldable pub decrease_ttl_and_relay : Peer → List Bytes → PeerId → Result Peer
unfolding relay_if_alive
decrease_ttl_and_relay s vec upstream = do
  ttl ← stoi (← at vec 4)
  ttl' ← decrement ttl
  ok (relay_if_alive s vec upstream ttl')

-- What HandleQuery does with a query that it has not seen, once the query is cached.
unfoldable pub answer_or_relay : Peer → List Bytes → MessageId → PeerId → Result Peer
unfolding decrease_ttl_and_relay
answer_or_relay s vec id upstream = do
  filename ← at vec 6
  let (hit, s') = create_query_hit_message filename id s
  if has_file s filename then relay_query_hit s' hit id else decrease_ttl_and_relay s vec upstream

-- How every handler of a query begins: the fields and the id are read, a query that is cached is
-- dropped, and another is cached with its upstream before anything else is done with it.
unfoldable pub receive_once :
    (Peer → List Bytes → MessageId → PeerId → Result Peer) → Bytes → Peer → Result Peer
receive_once next message s = do
  let vec = split_string message delim no_limit
  id ← read_message_id vec
  if is_query_cached s id
      then ok s
      else do upstream ← stoi (← at vec 5); next (cache_query s id upstream) vec id upstream

unfoldable pub handle_query : Bytes → Peer → Result Peer
unfolding receive_once answer_or_relay
handle_query message s = receive_once answer_or_relay message s

-- An inverse query is answered by a peer that lacks the file.
unfoldable pub offer_to_hold : Peer → MessageId → Bytes → Result Peer
offer_to_hold s id filename =
    let (hit, s') = create_inv_query_hit_message filename id s in
    if has_file s filename then ok s else relay_query_hit s' hit id

-- The replication factor is counted down first, and then the time to live.
unfoldable pub decrease_factor_and_relay : Peer → List Bytes → PeerId → ℤ → Result Peer
unfolding decrease_ttl_and_relay
decrease_factor_and_relay s vec upstream factor = do
  factor' ← decrement factor
  if leb_ℤ factor' (pos 0)
      then ok s
      else decrease_ttl_and_relay s (set vec 7 (to_string factor')) upstream

-- What HandleInvQuery does with a query that it has not seen, once the query is cached: a file name is
-- dealt with once.
unfoldable pub replicate_or_relay : Peer → List Bytes → MessageId → PeerId → Result Peer
unfolding offer_to_hold decrease_factor_and_relay
replicate_or_relay s vec id upstream = do
  factor ← stoi (← at vec 7)
  filename ← at vec 6
  let s' = record s { replicate_query_filename = filename ∷ s.replicate_query_filename }
  if member filename s.replicate_query_filename
      then ok s
      else do s'' ← offer_to_hold s' id filename; decrease_factor_and_relay s'' vec upstream factor

unfoldable pub handle_inv_query : Bytes → Peer → Result Peer
unfolding receive_once replicate_or_relay
handle_inv_query message s = receive_once replicate_or_relay message s
