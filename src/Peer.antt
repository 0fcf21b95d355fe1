-- ===== src/Peer.antt =====
-- The state of CPeerClient (src/peer_client.h) and the operations that its handlers are made of.
-- The queue of CPeerFileClient, to which the client hands its transfers, is the field `requests`;
-- `sent` is what was handed to the sockets, each entry a socket with the buffer that the send loop of
-- module Transport writes to it. The clock is the environment's: `clock i` is what the i-th call of
-- GetTimestamp returns.
use p2p_file_sharing_system.Prelude.{
  ℕ, ◌+◌, ◌%◌, ◌≡◌, Bool, true, false, ◌||◌, Option, none, some, List, [], ◌∷◌, ◌++◌, if◌then◌else◌,
  ℤ, pos, get_elem?, set,
}
use p2p_file_sharing_system.Result.{
  Result, ok, fault, index_out_of_range, assert_failed, or_fault, ◌>>=◌,
}
use p2p_file_sharing_system.Text.{Bytes, bytes_eq}
use p2p_file_sharing_system.Text.Number.{stoi, stoll, stoull}
use p2p_file_sharing_system.Containers.{Key, lookup, insert, contains, index}
use p2p_file_sharing_system.Ids.{
  PeerId, MessageId, message_id_key, peer_id_key, PeerServerInfo, QueryResult, ClientRequest,
  RequestType, push_file, download_file,
}
use p2p_file_sharing_system.Buffer.{fill_buffer}
pub mod Wire
pub mod Queries
pub mod Hits
pub mod Operations
pub mod Threads
pub mod Sample
mod Tests
mod Crowd
pub mod Extends

pub record Peer : Type 0 where
  pub peer_id : PeerId
  pub replication_factor : ℤ
  pub register_server_ip : Bytes
  pub ensure_queryhit_file : Bytes
  pub large_file_name : Bytes
  pub peer_id_to_ip : List (PeerId × Bytes)
  pub peer_id_to_sockfd : List (PeerId × ℕ)
  pub msg_id_counter : ℕ
  pub query_hit_result : List (MessageId × List QueryResult)
  pub files : List Bytes
  pub file_info_dirty : Bool
  pub queries : List (MessageId × PeerId)
  pub wait_queryhit : List (MessageId × Bytes)
  pub replicate_query_filename : List Bytes
  pub broadcast_queue : List (Bytes × PeerId)
  pub messages_queue : List Bytes
  pub requests : List ClientRequest
  pub sent : List (ℕ × Bytes)
  pub clock : ℕ → ℤ
  pub reads : ℕ

-- std::unordered_set::find of a name.
unfoldable pub member : Bytes → List Bytes → Bool
member name [] = false
member name (f ∷ fs) = bytes_eq f name || member name fs

unfoldable pub has_file : Peer → Bytes → Bool
unfolding member
has_file s filename = member filename s.files

unfoldable pub get_timestamp : Peer → ℤ × Peer
get_timestamp s = (s.clock s.reads, record s { reads = s.reads + 1 })

unfoldable pub is_query_cached : Peer → MessageId → Bool
is_query_cached s id = contains id s.queries

unfoldable pub cache_query : Peer → MessageId → PeerId → Peer
cache_query s id upstream =
    if contains id s.queries then s else record s { queries = insert id upstream s.queries }

unfoldable pub broadcast : Peer → Bytes → PeerId → Peer
broadcast s message exclude = record s {
  broadcast_queue = s.broadcast_queue ++ (message, exclude) ∷ [];
}

unfoldable pub relay_query : Peer → Bytes → PeerId → Peer
unfolding broadcast
relay_query s message exclude = broadcast s message exclude

-- To the recorded upstream peer only. `m_queries[message_id]` makes an entry for peer 0 where there
-- is none, and the assert wants a socket for the upstream peer.
unfoldable pub relay_query_hit : Peer → Bytes → MessageId → Result Peer
relay_query_hit s message id = do
  let (upstream, queries) = index id (pos 0) s.queries
  sock_fd ← or_fault (lookup upstream s.peer_id_to_sockfd) assert_failed
  buffer ← fill_buffer message
  ok (record s { queries = queries; sent = s.sent ++ (sock_fd, buffer) ∷ [] })

-- CPeerFileClient::PushFile and CPeerFileClient::ObtainFile: one more entry in the request queue.
unfoldable pub start_file_transfer : Peer → Bytes → PeerServerInfo → Peer
start_file_transfer s filename server = record s { requests = s.requests ++ request ∷ [] }
  where
    request : ClientRequest
    request = record {
      req_type = download_file;
      filename = filename;
      ip = server.ip;
      port = server.port;
    }

unfoldable pub start_push_file : Peer → Bytes → PeerServerInfo → Peer
unfolding has_file
start_push_file s filename server =
    if has_file s filename then record s { requests = s.requests ++ request ∷ [] } else s
  where
    request : ClientRequest
    request = record {
      req_type = push_file;
      filename = filename;
      ip = server.ip;
      port = server.port;
    }

unfoldable pub set_wait_query_hit : Peer → MessageId → Bytes → Peer
set_wait_query_hit s id filename = record s { wait_queryhit = insert id filename s.wait_queryhit }

-- `message_vec[i]`; past the end it is undefined.
abbrev pub at : List Bytes → ℕ → Result Bytes
at vec i = or_fault (get_elem? vec i) index_out_of_range

-- The three fields of the message id, as every handler reads them.
unfoldable pub read_message_id : List Bytes → Result MessageId
read_message_id vec = do
  peer_id ← stoi (← at vec 1)
  msg_id ← stoull (← at vec 2)
  timestamp ← stoll (← at vec 3)
  ok (record { peer_id = peer_id; msg_id = msg_id; timestamp = timestamp })
