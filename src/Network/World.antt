-- ===== src/Network/World.antt =====
-- A network of peers as a step relation: what src/peer_client.cpp and src/peer_server.cpp do at all the
-- peers in any order, a round at a time: what happens inside a round of two threads at once is not
-- modelled, nor are the threads that transfer files. The sockets are those that the peers have once they are
-- connected. A buffer that was sent may arrive later, after others, more than once or never, which
-- allows more than TCP does. The test commands are left out.
pub mod Invariant
pub mod Goes
pub mod Caching
pub mod Answers
pub mod Questions
pub mod Accepting
pub mod Hits
pub mod Queries
pub mod InvQueries
pub mod Rounds
pub mod Sending
pub mod Starting
pub mod Safety
pub mod Pair
mod Tests
use p2p_file_sharing_system.Prelude.{
  ℕ, ◌≤◌, ◌<◌, ◌≡◌, ◌≢◌, Bool, Option, some, List, [], ◌∷◌, ◌++◌, ◌==◌, if◌then◌else◌, pos, length,
  false, leb_ℤ,
}
use p2p_file_sharing_system.Result.{Result, ok, ◌>>=◌}
use p2p_file_sharing_system.Text.{Bytes, Lacks, newline}
use p2p_file_sharing_system.Text.Number.{int_limit, int64_limit, uint64_mod}
use p2p_file_sharing_system.Text.Number.RoundTrip.{Fits}
use p2p_file_sharing_system.Containers.{lookup}
use p2p_file_sharing_system.Ids.{PeerId, MessageId, peer_id_key}
use p2p_file_sharing_system.Peer.{Peer, set_wait_query_hit}
use p2p_file_sharing_system.Peer.Operations.{send_query, send_inv_query, replicate_file}
use p2p_file_sharing_system.Peer.Threads.{
  deal_with_request, handle_message_round, broadcast_round, update_file_info,
  mantain_query_map_size, time_out_ms,
}

-- The peer n has the id n.
abbrev pub World : Type 0
World = ℕ → Peer

abbrev pub update : World → ℕ → Peer → World
update w i s j = if i == j then s else w j

-- The peers, the neighbours of each with their sockets, and the address of each.
pub record Net : Type 0 where
  pub size : ℕ
  pub sockets : ℕ → List (PeerId × ℕ)
  pub ips : ℕ → Bytes

-- A neighbour's neighbours, and one socket for each. The ids leave room for the ports.
pub record IsNet (net : Net) : Type 0 where
  pub bounded : net.size ≤ 2147480648
  pub mutual_sockets :
      (i : ℕ) (j : PeerId) (fd : ℕ)
      → lookup j (net.sockets i) ≡ some fd
      → (n : ℕ) × (fd' : ℕ) × (j ≡ pos n) × (lookup (pos i) (net.sockets n) ≡ some fd')
  pub apart :
      (i n k fd : ℕ)
      → lookup (pos n) (net.sockets i) ≡ some fd
      → lookup (pos k) (net.sockets i) ≡ some fd
      → n ≡ k
  pub ip_line : (i : ℕ) → Lacks newline (net.ips i)
  pub ip_zero_free : (i : ℕ) → Lacks 0 (net.ips i)
  pub ip_filled : (i : ℕ) → net.ips i ≢ []
  pub ip_short : (i : ℕ) → length (net.ips i) ≤ 15

-- A peer that is connected and has done nothing else.
pub record IsFresh (net : Net) (i : ℕ) (s : Peer) : Type 0 where
  pub self : s.peer_id ≡ pos i
  pub wired : s.peer_id_to_sockfd ≡ net.sockets i
  pub addressed : lookup s.peer_id s.peer_id_to_ip ≡ some (net.ips i)
  pub timed : (n : ℕ) → Fits int64_limit (s.clock n)
  pub counted : s.msg_id_counter < uint64_mod
  pub factored : Fits int_limit s.replication_factor
  pub no_queries : s.queries ≡ []
  pub no_messages : s.messages_queue ≡ []
  pub no_broadcasts : s.broadcast_queue ≡ []
  pub none_sent : s.sent ≡ []
  pub no_results : s.query_hit_result ≡ []
  pub no_requests : s.requests ≡ []

-- The names that a user asks for.
pub record IsNameable (filename : Bytes) : Type 0 where
  pub named : filename ≢ []
  pub one_line : Lacks newline filename
  pub zero_free : Lacks 0 filename
  pub short : length filename ≤ 900

-- One round of the peer i, taken as one step, and what it ends with: SendQuery, SendInvQuery,
-- SetWaitQueryHit and, where two copies or more are wanted, ReplicateFile; DealWithRequest of a buffer that
-- a neighbour sent; a round of HandleMessageThreadFunc, of BroadcastThreadFunc and, while it finds fewer
-- queries than it clears, of the thread that clears the caches. UpdateFileInfo is a step too, although
-- nothing starts its thread.
pub data Round (net : Net) (w : World) (i : ℕ) (r : Result Peer) : Type 0 where
  asks :
      (filename : Bytes)
      → IsNameable filename
      → r ≡ ok (send_query filename (w i)).1
      → Round net w i r
  offers :
      (filename : Bytes) (out : Option MessageId)
      → IsNameable filename
      → r ≡ ok (send_inv_query filename out (w i)).1
      → Round net w i r
  replicates :
      (filename : Bytes) (out : Option MessageId)
      → IsNameable filename
      → leb_ℤ (w i).replication_factor (pos 1) ≡ false
      → r ≡ (replicate_file filename out (w i) >>= λ p. ok p.1)
      → Round net w i r
  waits :
      (id : MessageId) (filename : Bytes)
      → r ≡ ok (set_wait_query_hit (w i) id filename)
      → Round net w i r
  receives :
      (j fd : ℕ) (buffer : Bytes) (before after : List (ℕ × Bytes))
      → j < net.size
      → lookup (pos i) (net.sockets j) ≡ some fd
      → (w j).sent ≡ before ++ (fd, buffer) ∷ after
      → r ≡ deal_with_request buffer (w i)
      → Round net w i r
  handles : r ≡ handle_message_round (w i) → Round net w i r
  broadcasts : r ≡ broadcast_round (w i) → Round net w i r
  maintains :
      length (w i).queries < time_out_ms → r ≡ mantain_query_map_size (w i) → Round net w i r
  refreshes :
      (entries : List (Bool × Bytes)) → r ≡ ok (update_file_info entries (w i)) → Round net w i r

-- The worlds that rounds without a fault lead to.
pub data Reach (net : Net) (w : World) : World → Type 0 where
  here : Reach net w w
  next :
      {u v : World} (i : ℕ) (t : Peer)
      → Reach net w u
      → i < net.size
      → Round net u i (ok t)
      → v ≡ update u i t
      → Reach net w v
