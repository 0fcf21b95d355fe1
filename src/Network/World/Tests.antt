-- ===== src/Network/World/Tests.antt =====
-- A download between two peers of src/peer_client.cpp, round by round.
use p2p_file_sharing_system.Prelude.{ℕ, ◌<◌, ◌≡◌, refl, List, [], ◌∷◌, arith, pos, All}
use p2p_file_sharing_system.Result.{Result, ok, fault}
use p2p_file_sharing_system.Text.{Bytes, codes, bytes_eq}
use p2p_file_sharing_system.Buffer.{fill_buffer, c_string}
use p2p_file_sharing_system.Ids.{
  ClientRequest, download_file, add_port, decrement, get_file_server_port,
}
use p2p_file_sharing_system.Peer.{
  Peer, set_wait_query_hit, broadcast, cache_query, read_message_id, get_timestamp, has_file,
  is_query_cached, member, relay_query_hit, start_file_transfer,
}
use p2p_file_sharing_system.Peer.Operations.{send_query}
use p2p_file_sharing_system.Peer.Operations.Queries.{next_id}
use p2p_file_sharing_system.Peer.Threads.{
  deal_with_request, broadcast_round, handle_message_round, dispatch, command_of, push_message,
  send_to_peers,
}
use p2p_file_sharing_system.Containers.{lookup, contains, erase, index, insert}
use p2p_file_sharing_system.Peer.Wire.{
  create_query_message, create_query_hit_message, header_vec, new_message_id, own_ip,
}
use p2p_file_sharing_system.Text.Split.{join_string, split_string}
use p2p_file_sharing_system.Text.Number.{to_string, stoi, stoull, stoll, format}
use p2p_file_sharing_system.Peer.Queries.{handle_query, answer_or_relay, receive_once}
use p2p_file_sharing_system.Peer.Hits.{
  add_result, catch_number, handle_query_hit, handle_wait_query_hit, receive_own_hit,
  transfer_from_front, use_results,
}
use p2p_file_sharing_system.Network.World.{
  World, update, IsNameable, Reach, Reach.here, Reach.next, Round.asks, Round.waits, Round.receives,
  Round.handles, Round.broadcasts,
}
use p2p_file_sharing_system.Network.World.Pair.{peer_at, pair, pair-IsNet, peer_at-IsFresh}
use p2p_file_sharing_system.Network.World.Safety.{no_reachable_fault, requests_go_to_peers}

abbrev behind : Peer → Result Peer → Peer
behind s (ok t) = t
behind s (fault e) = s

abbrev last_sent : List (ℕ × Bytes) → Bytes
last_sent [] = []
last_sent ((fd, b) ∷ sent) = b

abbrev name : Bytes
name = codes "mine"

abbrev asked : World
asked = update peer_at 0 (send_query name (peer_at 0)).1

abbrev waiting : World
waiting = update asked 0 (set_wait_query_hit (asked 0) (next_id (peer_at 0)) name)

abbrev sent : World
sent = update waiting 0 (behind (waiting 0) (broadcast_round (waiting 0)))

abbrev received : World
received = update sent 1 (behind (sent 1) (deal_with_request (last_sent (sent 0).sent) (sent 1)))

abbrev answered : World
answered = update received 1 (behind (received 1) (handle_message_round (received 1)))

abbrev returned : World
returned =
    update answered 0
      (behind (answered 0) (deal_with_request (last_sent (answered 1).sent) (answered 0)))

abbrev done : World
done = update returned 0 (behind (returned 0) (handle_message_round (returned 0)))

name-IsNameable : IsNameable name
name-IsNameable = record {
  named = λ e. cc;
  one_line = omega arith;
  zero_free = omega arith;
  short = omega arith;
}

sent-Reach : Reach pair peer_at sent
unfolding send_query broadcast_round fill_buffer set_wait_query_hit broadcast cache_query contains
    create_query_message join_string to_string
sent-Reach =
    next {u = waiting} 0 (sent 0)
      (next {u = asked} 0 (waiting 0)
        (next 0 (asked 0) here (omega arith) (asks name name-IsNameable refl) refl) (omega arith)
        (waits (next_id (peer_at 0)) name refl) refl)
      (omega arith) (broadcasts refl) refl

received-Reach : Reach pair peer_at received
unfolding send_query broadcast_round fill_buffer deal_with_request handle_message_round lookup
    set_wait_query_hit broadcast cache_query contains create_query_message join_string to_string
    c_string dispatch bytes_eq handle_query read_message_id split_string stoi stoull stoll erase
    index insert add_port decrement get_file_server_port add_result catch_number handle_query_hit
    handle_wait_query_hit receive_own_hit transfer_from_front use_results answer_or_relay
    receive_once command_of push_message send_to_peers create_query_hit_message header_vec
    new_message_id own_ip get_timestamp has_file is_query_cached member relay_query_hit
    start_file_transfer format
received-Reach =
    next {u = sent} 1 (received 1) sent-Reach (omega arith)
      (receives 0 5 (last_sent (sent 0).sent) [] [] (omega arith) refl refl refl) refl

done-Reach : Reach pair peer_at done
unfolding send_query broadcast_round fill_buffer deal_with_request handle_message_round lookup
    set_wait_query_hit broadcast cache_query contains create_query_message join_string to_string
    c_string dispatch bytes_eq handle_query read_message_id split_string stoi stoull stoll erase
    index insert add_port decrement get_file_server_port add_result catch_number handle_query_hit
    handle_wait_query_hit receive_own_hit transfer_from_front use_results answer_or_relay
    receive_once command_of push_message send_to_peers create_query_hit_message header_vec
    new_message_id own_ip get_timestamp has_file is_query_cached member relay_query_hit
    start_file_transfer format
done-Reach =
    next {u = returned} 0 (done 0)
      (next {u = answered} 0 (returned 0)
        (next {u = received} 1 (answered 1) received-Reach (omega arith) (handles refl) refl)
        (omega arith)
        (receives 1 6 (last_sent (answered 1).sent) [] [] (omega arith) refl refl refl) refl)
      (omega arith) (handles refl) refl

-- The peer that holds the file has the query to deal with.
no_reachable_fault_example : (t : Peer) × (handle_message_round (received 1) ≡ ok t)
no_reachable_fault_example =
    no_reachable_fault pair peer_at received 1 (handle_message_round (received 1)) pair-IsNet
      peer_at-IsFresh received-Reach (omega arith) (handles refl)

-- The peer that asked has queued the download.
requests_go_to_peers_example :
    All
      (λ (r : ClientRequest).
        (n : ℕ) × (n < 2) × (r.ip ≡ pair.ips n) × (get_file_server_port (pos n) ≡ ok r.port))
      (done 0).requests
requests_go_to_peers_example =
    requests_go_to_peers pair peer_at done 0 pair-IsNet peer_at-IsFresh done-Reach (omega arith)

download_requested :
    (done 0).requests
    ≡ record { req_type = download_file; filename = name; ip = codes "10.0.0.1"; port = pos 3001 }
      ∷ []
unfolding send_query broadcast_round fill_buffer deal_with_request handle_message_round lookup
    set_wait_query_hit broadcast cache_query contains create_query_message join_string to_string
    c_string dispatch bytes_eq handle_query read_message_id split_string stoi stoull stoll erase
    index insert add_port decrement get_file_server_port add_result catch_number handle_query_hit
    handle_wait_query_hit receive_own_hit transfer_from_front use_results answer_or_relay
    receive_once command_of push_message send_to_peers create_query_hit_message header_vec
    new_message_id own_ip get_timestamp has_file is_query_cached member relay_query_hit
    start_file_transfer format
download_requested = refl
