-- ===== src/Network.antt =====
-- Peers in a row, each a neighbour of the next: how a message passes through the threads of
-- src/peer_client.cpp and src/peer_server.cpp of one after another. Which thread runs when is the
-- environment's choice; here each peer deals with a message before the next one comes.
use p2p_file_sharing_system.Prelude.{ℕ, Option, none, some, List, [], ◌∷◌, ◌==◌, if◌then◌else◌}
use p2p_file_sharing_system.Result.{Result, ok, assert_failed, or_fault, ◌>>=◌}
use p2p_file_sharing_system.Text.{Bytes}
use p2p_file_sharing_system.Containers.{lookup}
use p2p_file_sharing_system.Ids.{PeerId, peer_id_key}
use p2p_file_sharing_system.Peer.{Peer}
use p2p_file_sharing_system.Peer.Operations.{obtain_file}
use p2p_file_sharing_system.Peer.Threads.{deal_with_request, handle_message_round, broadcast_round}
pub mod Sockets
pub mod Hop
pub mod Conversation
pub mod Obtain
pub mod World
mod Tests

-- A buffer comes in: the server thread queues the message, the message thread handles it, and the
-- broadcast thread sends what was queued.
unfoldable pub hop : Bytes → Peer → Result Peer
hop buffer s = do
  queued ← deal_with_request buffer s
  handled ← handle_message_round queued
  broadcast_round handled

-- The last buffer that was sent on a socket.
unfoldable pub sent_on : ℕ → List (ℕ × Bytes) → Option Bytes
sent_on fd [] = none
sent_on fd ((g, buffer) ∷ sent) = elim (sent_on fd sent) [
  | none ↦ if g == fd then some buffer else none
  | some last ↦ some last
]

-- What a neighbour gets last from a peer.
unfoldable pub to_peer : PeerId → Peer → Result Bytes
unfolding sent_on
to_peer id s = do
  fd ← or_fault (lookup id s.peer_id_to_sockfd) assert_failed
  or_fault (sent_on fd s.sent) assert_failed

-- The peer that comes next.
abbrev pub next_of : List Peer → Peer → PeerId
next_of [] holder = holder.peer_id
next_of (s ∷ relays) holder = s.peer_id

-- A buffer comes from the peer `prev` to the first of a row and passes down to the last, and what the
-- last sends back passes up again. The result is the peers behind it and what `prev` gets.
unfoldable pub converse : PeerId → List Peer → Peer → Bytes → Result (List Peer × Peer × Bytes)
unfolding hop to_peer
converse prev [] holder buffer = do t ← hop buffer holder; back ← to_peer prev t; ok ([], t, back)
converse prev (s ∷ relays) holder buffer = do
  t ← hop buffer s
  forward ← to_peer (next_of relays holder) t
  (relays', holder', back) ← converse s.peer_id relays holder forward
  t' ← hop back t
  answer ← to_peer prev t'
  ok (t' ∷ relays', holder', answer)

-- ObtainFile of a peer in front of a row, up to the answer.
unfoldable pub obtain_over : Bytes → Peer → List Peer → Peer → Result Peer
obtain_over filename s relays holder = do
  asked ← broadcast_round (obtain_file filename s).1
  query ← to_peer (next_of relays holder) asked
  (_, _, answer) ← converse s.peer_id relays holder query
  queued ← deal_with_request answer asked
  handle_message_round queued
