-- ===== src/Peer/Threads.antt =====
-- The threads of CPeerClient as one round each: HandleMessageThread with the handlers of the test
-- messages, BroadcastProcessThread, MantainQueryMapSize and UpdateFileInfoPeriodically, and
-- HandleMessage, by which the server thread feeds the first. Nothing in the program starts a thread of
-- UpdateFileInfoPeriodically, so that the flag that SetFileInfoDirty sets is never read.
pub mod Broadcast
pub mod Maintain
use p2p_file_sharing_system.Prelude.{
  ℕ, ◌*◌, ◌≡◌, Bool, true, false, not, List, [], ◌∷◌, ◌++◌, ◌==◌, ltb, if◌then◌else◌, ℤ, pos, ltb_ℤ,
  eq_ℤ, ◌-ℤ◌, length, ◌-◌, leb_ℤ, negsuc, ◌&&◌,
}
use p2p_file_sharing_system.Result.{Result, ok, fault, signed_overflow, ◌>>=◌}
use p2p_file_sharing_system.Text.{Bytes, codes, bytes_eq, newline}
use p2p_file_sharing_system.Text.Number.{stoi, int64_limit}
use p2p_file_sharing_system.Text.Split.{split_string}
use p2p_file_sharing_system.Containers.{erase_all}
use p2p_file_sharing_system.Ids.{
  PeerId, MessageId, message_id_key, delim, no_limit, peer_msg_query, peer_msg_query_hit,
  peer_msg_inv_query, peer_msg_inv_query_hit, peer_msg_con_test_query, peer_msg_test_obtain2,
}
use p2p_file_sharing_system.Buffer.{fill_buffer, c_string}
use p2p_file_sharing_system.Peer.{
  Peer, member, get_timestamp, is_query_cached, cache_query, at, read_message_id,
}
use p2p_file_sharing_system.Peer.Queries.{
  handle_query, handle_inv_query, decrease_ttl_and_relay, receive_once,
}
use p2p_file_sharing_system.Peer.Hits.{handle_query_hit, handle_inv_query_hit}
use p2p_file_sharing_system.Peer.Operations.{
  send_test_query, send_test_obtain, send_test_obtain_large,
}

-- What HandleConcurrentTestQuery does with a message that it has not seen.
unfoldable pub test_query_and_relay : Peer → List Bytes → MessageId → PeerId → Result Peer
test_query_and_relay s vec id upstream = do
  bound ← stoi (← at vec 6)
  decrease_ttl_and_relay (if ltb_ℤ s.peer_id bound then send_test_query s else s) vec upstream

unfoldable pub handle_concurrent_test_query : Bytes → Peer → Result Peer
unfolding receive_once test_query_and_relay
handle_concurrent_test_query message s = receive_once test_query_and_relay message s

-- Which of the two tests field 7 asks for, read by the peers below the bound alone.
unfoldable pub run_test_obtain : Bool → List Bytes → Peer → Result Peer
run_test_obtain false vec s = ok s
run_test_obtain true vec s = do
  kind ← at vec 7
  ok (if bytes_eq kind (codes "2") then send_test_obtain s else send_test_obtain_large s)

-- What HandleConcurrentTestObtain does with a message that it has not seen.
unfoldable pub test_obtain_and_relay : Peer → List Bytes → MessageId → PeerId → Result Peer
unfolding run_test_obtain
test_obtain_and_relay s vec id upstream = do
  bound ← stoi (← at vec 6)
  s' ← run_test_obtain (ltb_ℤ s.peer_id bound) vec s
  decrease_ttl_and_relay s' vec upstream

unfoldable pub handle_concurrent_test_obtain : Bytes → Peer → Result Peer
unfolding receive_once test_obtain_and_relay
handle_concurrent_test_obtain message s = receive_once test_obtain_and_relay message s

-- `message.substr(0, message.find("\n"))`
unfoldable pub command_of : Bytes → Bytes
command_of [] = []
command_of (c ∷ s) = if c == newline then [] else c ∷ command_of s

unfoldable pub dispatch : Bytes → Peer → Result Peer
unfolding command_of
dispatch message s =
    let command = command_of message in
    if bytes_eq command peer_msg_query
    then handle_query message s
    else if bytes_eq command peer_msg_inv_query
    then handle_inv_query message s
    else if bytes_eq command peer_msg_query_hit
    then handle_query_hit message s
    else if bytes_eq command peer_msg_inv_query_hit
    then handle_inv_query_hit message s
    else if bytes_eq command peer_msg_con_test_query
    then handle_concurrent_test_query message s
    else if bytes_eq command peer_msg_test_obtain2
    then handle_concurrent_test_obtain message s
    else ok s

-- HandleMessage
unfoldable pub push_message : Bytes → Peer → Peer
push_message message s = record s { messages_queue = s.messages_queue ++ message ∷ [] }

-- CPeerServer::DealWithRequest on a buffer that was received; an empty message is ignored.
unfoldable pub deal_with_request : Bytes → Peer → Result Peer
unfolding push_message
deal_with_request buffer s = do
  message ← c_string buffer
  ok (if length message == 0 then s else push_message message s)

take_message : List Bytes → Peer → Result Peer
take_message [] s = ok s
take_message (m ∷ ms) s = dispatch m (record s { messages_queue = ms })

-- With an empty queue the thread waits.
unfoldable pub handle_message_round : Peer → Result Peer
unfolding take_message
handle_message_round s = take_message s.messages_queue s

-- One buffer for each neighbour but the one to leave out.
unfoldable pub send_to_peers : Bytes → PeerId → List (PeerId × ℕ) → Peer → Result Peer
send_to_peers message exclude [] s = ok s
send_to_peers message exclude ((peer, sock_fd) ∷ rest) s = elim (eq_ℤ exclude peer) [
  | true ↦ send_to_peers message exclude rest s
  | false ↦ fill_buffer message >>= λ buffer.
      send_to_peers message exclude rest (record s { sent = s.sent ++ (sock_fd, buffer) ∷ [] })
]

take_broadcast : List (Bytes × PeerId) → Peer → Result Peer
unfolding send_to_peers
take_broadcast [] s = ok s
take_broadcast ((message, exclude) ∷ rest) s =
    send_to_peers message exclude s.peer_id_to_sockfd (record s { broadcast_queue = rest })

unfoldable pub broadcast_round : Peer → Result Peer
unfolding take_broadcast
broadcast_round s = take_broadcast s.broadcast_queue s

abbrev pub time_out_ms : ℕ
time_out_ms = 120 * 1000

-- `now_timestamp - timestamp > time_out_ms`, of which the difference may overflow.
unfoldable pub is_old : ℤ → MessageId → Result Bool
is_old now id =
    let age = now -ℤ id.timestamp in
    if leb_ℤ (negsuc (int64_limit - 1)) age && ltb_ℤ age (pos int64_limit)
    then ok (ltb_ℤ (pos time_out_ms) age)
    else fault signed_overflow

-- The walk of a map that fills `to_remove`.
unfoldable pub collect_old {ℓ} : {V : Type ℓ} → ℤ → List (MessageId × V) → Result (List MessageId)
unfolding is_old
collect_old now [] = ok []
collect_old now ((id, v) ∷ m) = do
  old ← is_old now id
  to_remove ← collect_old now m
  ok (if old then id ∷ to_remove else to_remove)

unfoldable pub mantain_query_map_size : Peer → Result Peer
unfolding collect_old
mantain_query_map_size s =
    let (now, s') = get_timestamp s in
    let cleared = do
      old_queries ← collect_old now s.queries
      old_results ← collect_old now s.query_hit_result
      old_waits ← collect_old now s.wait_queryhit
      ok (record s' {
        queries = erase_all old_queries s.queries;
        query_hit_result = erase_all old_results s.query_hit_result;
        wait_queryhit = erase_all old_waits s.wait_queryhit;
      })
    in if ltb (length s.queries) time_out_ms then ok s else cleared

-- LoadFileInfo over the entries of the directory, each with whether it is a directory itself.
unfoldable pub load_file_info : List (Bool × Bytes) → Peer → Peer
load_file_info [] s = s
load_file_info ((is_dir, name) ∷ entries) s =
    load_file_info entries
      (if is_dir then s else if member name s.files then s else record s { files = name ∷ s.files })

unfoldable pub set_file_info_dirty : Peer → Peer
set_file_info_dirty s = record s { file_info_dirty = true }

unfoldable pub update_file_info : List (Bool × Bytes) → Peer → Peer
unfolding load_file_info
update_file_info entries s =
    if s.file_info_dirty then load_file_info entries (record s { file_info_dirty = false }) else s
