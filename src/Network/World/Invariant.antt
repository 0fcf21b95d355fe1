-- ===== src/Network/World/Invariant.antt =====
-- What holds of every peer of a network between two rounds: its caches, its queues in
-- src/peer_client.cpp, and the buffers that it has sent.
use p2p_file_sharing_system.Prelude.{
  ℕ, ◌<◌, ◌≤◌, ◌≡◌, true, some, List, [], sym, ◌∙◌, arith, eq_ℤ_iff, ℤ, pos, All, All-mono, length,
}
use p2p_file_sharing_system.Result.{ok}
use p2p_file_sharing_system.Text.{Bytes, Lacks}
use p2p_file_sharing_system.Text.Number.{int_limit, int64_limit, uint64_mod}
use p2p_file_sharing_system.Text.Number.RoundTrip.{Fits}
use p2p_file_sharing_system.Containers.{lookup, contains}
use p2p_file_sharing_system.Containers.Laws.{contains_congr}
use p2p_file_sharing_system.Ids.{
  PeerId, QueryResult, ClientRequest, MessageId, same_id, message_id_key, peer_id_key,
  get_file_server_port, initial_ttl, peer_msg_inv_query_hit,
}
use p2p_file_sharing_system.Peer.{Peer}
use p2p_file_sharing_system.Peer.Queries.Refinement.{Query, IsWellFormed, encode_query}
use p2p_file_sharing_system.Peer.Queries.Replication.{
  InvQuery, IsWellFormed as IsWellFormedInv, encode_inv_query,
}
use p2p_file_sharing_system.Peer.Hits.Refinement.{Hit, IsWellFormed as IsWellFormedHit, encode_hit}
use p2p_file_sharing_system.Network.Hop.{Passes, query_hit}
use p2p_file_sharing_system.Network.World.{Net}

-- The queries that each peer has cached.
abbrev pub Caches : Type 0
Caches = ℕ → List (MessageId × PeerId)

abbrev pub Knows : Caches → ℕ → MessageId → Type 0
Knows c i id = contains id (c i) ≡ true

-- Caches that have grown.
abbrev pub Grows : Caches → Caches → Type 0
Grows c c' = (i : ℕ) (id : MessageId) → Knows c i id → Knows c' i id

-- A query whose text passes through a buffer.
pub record IsSendable (q : Query) : Type 0 where
  pub wf : IsWellFormed q
  pub zero_free : Lacks 0 q.filename
  pub short : length q.filename ≤ 900

pub record IsSendableInv (q : InvQuery) : Type 0 where
  pub wf : IsWellFormedInv q
  pub zero_free : Lacks 0 q.filename
  pub short : length q.filename ≤ 900

-- The offer of a peer that lacks the file.
abbrev pub inv_query_hit : MessageId → PeerId → Bytes → Hit
inv_query_hit id originator ip = record {
  msg_type = peer_msg_inv_query_hit;
  id = id;
  ttl = initial_ttl;
  originator = originator;
  ip = ip;
  rest = [];
}

-- The two kinds of hits.
pub data IsAnswer (h : Hit) : Type 0 where
  to_query :
      (id : MessageId) (originator : PeerId) (ip filename : Bytes)
      → h ≡ query_hit id originator ip filename
      → IsAnswer h
  to_inv_query :
      (id : MessageId) (originator : PeerId) (ip : Bytes)
      → h ≡ inv_query_hit id originator ip
      → IsAnswer h

-- An address and a port at which a peer of the network serves files.
abbrev pub IsServer : Net → Bytes → ℤ → Type 0
IsServer net ip port =
    (n : ℕ) × (n < net.size) × (ip ≡ net.ips n) × (get_file_server_port (pos n) ≡ ok port)

-- A hit whose text passes through a buffer, from a peer of the network.
pub record IsSendableHit (net : Net) (h : Hit) : Type 0 where
  pub answer : IsAnswer h
  pub wf : IsWellFormedHit h
  pub buffer : Bytes
  pub through : Passes (encode_hit h) buffer
  pub port : ℤ
  pub has_port : get_file_server_port h.originator ≡ ok port
  pub server : IsServer net h.ip port

-- The answers that a peer has got, and its transfers, name peers of the network.
abbrev pub Servers : Net → List QueryResult → Type 0
Servers net = All (λ (r : QueryResult). IsServer net r.server_info.ip r.server_info.port)

abbrev pub IsHonest : Net → Peer → Type 0
IsHonest net s =
    ((id : MessageId) (results : List QueryResult)
      → lookup id s.query_hit_result ≡ some results
      → Servers net results)
    × All (λ (r : ClientRequest). IsServer net r.ip r.port) s.requests

-- A cached query is the peer's own, or a neighbour sent it that has cached it.
pub data Origin (net : Net) (c : Caches) (i : ℕ) (id : MessageId) (up : PeerId) : Type 0 where
  own : id.peer_id ≡ pos i → Origin net c i id up
  from :
      (n fd : ℕ)
      → up ≡ pos n
      → lookup up (net.sockets i) ≡ some fd
      → Knows c n id
      → Origin net c i id up

pub Origin-congr :
    (net : Net) (c : Caches) (i : ℕ) (id j : MessageId) (up u : PeerId)
    → same_id id j ≡ true
    → u ≡ up
    → Origin net c i id up
    → Origin net c i j u
Origin-congr net c i id j up u same e (own h) =
    own (ground (arith, h, eq_ℤ_iff id.peer_id j.peer_id))
Origin-congr net c i id j up u same e (from n fd h socket knows) =
    from n fd (e ∙ h) (rw e socket) (sym (contains_congr id j (c n) same) ∙ knows)

-- The messages that come to the peer i: queries of its neighbours, and answers to queries that it
-- knows.
pub data Comes (net : Net) (c : Caches) (i : ℕ) (m : Bytes) : Type 0 where
  query :
      (q : Query) (n fd : ℕ)
      → m ≡ encode_query q
      → IsSendable q
      → q.upstream ≡ pos n
      → lookup q.upstream (net.sockets i) ≡ some fd
      → Knows c n q.id
      → Comes net c i m
  inv_query :
      (q : InvQuery) (n fd : ℕ)
      → m ≡ encode_inv_query q
      → IsSendableInv q
      → q.upstream ≡ pos n
      → lookup q.upstream (net.sockets i) ≡ some fd
      → Knows c n q.id
      → Comes net c i m
  hit : (h : Hit) → m ≡ encode_hit h → IsSendableHit net h → Knows c i h.id → Comes net c i m

-- The messages that the peer i has for its neighbours pass through a buffer and may come to each.
pub record Leaves (net : Net) (c : Caches) (i : ℕ) (m : Bytes) : Type 0 where
  pub buffer : Bytes
  pub through : Passes m buffer
  pub comes : (k fd : ℕ) → lookup (pos i) (net.sockets k) ≡ some fd → Comes net c k m

-- A buffer on a socket of the peer i is a message that may come to the neighbour at its end.
pub record Sent (net : Net) (c : Caches) (i fd : ℕ) (b : Bytes) : Type 0 where
  pub message : Bytes
  pub through : Passes message b
  pub comes : (k : ℕ) → lookup (pos k) (net.sockets i) ≡ some fd → Comes net c k message

pub record IsSound (net : Net) (c : Caches) (i : ℕ) (s : Peer) : Type 0 where
  pub self : s.peer_id ≡ pos i
  pub wired : s.peer_id_to_sockfd ≡ net.sockets i
  pub addressed : lookup s.peer_id s.peer_id_to_ip ≡ some (net.ips i)
  pub timed : (n : ℕ) → Fits int64_limit (s.clock n)
  pub counted : s.msg_id_counter < uint64_mod
  pub factored : Fits int_limit s.replication_factor
  pub honest : IsHonest net s
  pub known : (id : MessageId) (up : PeerId) → lookup id s.queries ≡ some up → Origin net c i id up
  pub inbox : All (Comes net c i) s.messages_queue
  pub outbox : All (λ (e : Bytes × PeerId). Leaves net c i e.0) s.broadcast_queue
  pub wire : All (λ (e : ℕ × Bytes). Sent net c i e.0 e.1) s.sent

module _ (net : Net) (c c' : Caches) (grows : Grows c c') where
  Origin-Grows :
      (i : ℕ) (id : MessageId) (up : PeerId) → Origin net c i id up → Origin net c' i id up
  Origin-Grows i id up (own e) = own e
  Origin-Grows i id up (from n fd e socket knows) = from n fd e socket (grows n id knows)

  Comes-Grows : (i : ℕ) (m : Bytes) → Comes net c i m → Comes net c' i m
  Comes-Grows i m (query q n fd e sendable up socket knows) =
      query q n fd e sendable up socket (grows n q.id knows)
  Comes-Grows i m (inv_query q n fd e sendable up socket knows) =
      inv_query q n fd e sendable up socket (grows n q.id knows)
  Comes-Grows i m (hit h e sendable knows) = hit h e sendable (grows i h.id knows)

  Leaves-Grows : (i : ℕ) (m : Bytes) → Leaves net c i m → Leaves net c' i m
  Leaves-Grows i m l = record {
    buffer = l.buffer;
    through = l.through;
    comes = λ k fd socket. Comes-Grows k m (l.comes k fd socket);
  }

  Sent-Grows : (i fd : ℕ) (b : Bytes) → Sent net c i fd b → Sent net c' i fd b
  Sent-Grows i fd b e = record {
    message = e.message;
    through = e.through;
    comes = λ k socket. Comes-Grows k e.message (e.comes k socket);
  }

  -- What holds of a peer goes on to hold when the others' caches grow.
  pub IsSound-Grows : (i : ℕ) (s : Peer) → IsSound net c i s → IsSound net c' i s
  IsSound-Grows i s sound = record {
    self = sound.self;
    wired = sound.wired;
    addressed = sound.addressed;
    timed = sound.timed;
    counted = sound.counted;
    factored = sound.factored;
    honest = sound.honest;
    known = λ id up found. Origin-Grows i id up (sound.known id up found);
    inbox = All-mono _ _ s.messages_queue (Comes-Grows i) sound.inbox;
    outbox =
        All-mono _ _ s.broadcast_queue (λ (e : Bytes × PeerId). Leaves-Grows i e.0) sound.outbox;
    wire = All-mono _ _ s.sent (λ (e : ℕ × Bytes). Sent-Grows i e.0 e.1) sound.wire;
  }
