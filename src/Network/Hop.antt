-- ===== src/Network/Hop.antt =====
-- One message through the threads of one peer: src/peer_client.cpp and src/peer_server.cpp.
use p2p_file_sharing_system.Prelude.{
  ℕ, ◌<◌, ◌≡◌, refl, ap, ◌∙◌, true, false, some, [], ◌∷◌, ◌++◌, map, arith, pos, leb_ℤ, eq_ℤ, ◌==◌,
  length, ◌-◌, replicate,
}
use p2p_file_sharing_system.Result.{ok, ◌>>=◌, >>=-assoc}
use p2p_file_sharing_system.Text.{Bytes, Lacks, bytes_eq}
use p2p_file_sharing_system.Text.Split.{join_string}
use p2p_file_sharing_system.Containers.{lookup, insert, index}
use p2p_file_sharing_system.Containers.Laws.{lookup-insert}
use p2p_file_sharing_system.Ids.{
  PeerId, MessageId, message_id_key, peer_id_key, same_id_refl, msg_buf_size, initial_ttl,
  peer_msg_query_hit,
}
use p2p_file_sharing_system.Buffer.{fill_buffer, c_string}
use p2p_file_sharing_system.Buffer.RoundTrip.{c_string-fill_buffer}
use p2p_file_sharing_system.Peer.{
  Peer, has_file, is_query_cached, cache_query, relay_query, broadcast, relay_query_hit,
}
use p2p_file_sharing_system.Peer.Wire.{header_vec, create_query_hit_message, own_ip}
use p2p_file_sharing_system.Peer.Threads.{
  deal_with_request, handle_message_round, broadcast_round, push_message, dispatch, command_of,
}
use p2p_file_sharing_system.Peer.Threads.Broadcast.{others, broadcast_round_lem}
use p2p_file_sharing_system.Peer.Queries.Refinement.{
  Query, IsWellFormed, encode_query, forwarded, receive_query, handle_query-encode_query,
}
use p2p_file_sharing_system.Peer.Hits.Refinement.{
  Hit, IsWellFormed as IsWellFormedHit, encode_hit, hit_vec, receive_hit,
  handle_query_hit-encode_hit,
}
use p2p_file_sharing_system.Network.{hop}

-- A text that passes through a buffer.
pub record Passes (m b : Bytes) : Type 0 where
  pub filled : fill_buffer m ≡ ok b
  pub read : c_string b ≡ ok m

pub passes : (m : Bytes) → Lacks 0 m → length m < msg_buf_size → (b : Bytes) × Passes m b
unfolding fill_buffer
passes m h short =
    let whole = c_string-fill_buffer m h in
    (
      m ++ replicate (msg_buf_size - length m) 0,
      record { filled = ground arith; read = ground (arith, whole) },
    )

-- Both queues of a peer are empty.
pub record IsIdle (s : Peer) : Type 0 where
  pub no_messages : s.messages_queue ≡ []
  pub no_broadcasts : s.broadcast_queue ≡ []

-- A message that comes to a peer whose queue is empty is handled next.
pub received-dispatch :
    (m b : Bytes) (s : Peer)
    → Passes m b
    → s.messages_queue ≡ []
    → (length m == 0) ≡ false
    → (deal_with_request b s >>= handle_message_round)
      ≡ dispatch m (record s { messages_queue = [] })
unfolding deal_with_request push_message handle_message_round
received-dispatch m b s through no_messages filled = rw (through.read, filled, no_messages) refl

hop-dispatch :
    (m b : Bytes) (s : Peer)
    → Passes m b
    → IsIdle s
    → (length m == 0) ≡ false
    → hop b s ≡ (dispatch m (record s { messages_queue = [] }) >>= broadcast_round)
unfolding hop
hop-dispatch m b s through idle filled =
    >>=-assoc (deal_with_request b s) handle_message_round broadcast_round
    ∙ ap (λ r. r >>= broadcast_round) (received-dispatch m b s through idle.no_messages filled)

pub dispatch-query :
    (q : Query) (s : Peer) → IsWellFormed q → dispatch (encode_query q) s ≡ receive_query q s
unfolding dispatch command_of encode_query header_vec join_string bytes_eq
dispatch-query q s wf = handle_query-encode_query q s wf

-- The answer of a peer that has the file.
abbrev pub query_hit : MessageId → PeerId → Bytes → Bytes → Hit
query_hit id originator ip filename = record {
  msg_type = peer_msg_query_hit;
  id = id;
  ttl = initial_ttl;
  originator = originator;
  ip = ip;
  rest = filename ∷ [];
}

pub dispatch-hit :
    (id : MessageId) (originator : PeerId) (ip filename : Bytes) (s : Peer)
    → IsWellFormedHit (query_hit id originator ip filename)
    → dispatch (encode_hit (query_hit id originator ip filename)) s
      ≡ receive_hit (query_hit id originator ip filename) s
unfolding dispatch command_of encode_hit hit_vec header_vec join_string bytes_eq
dispatch-hit id originator ip filename s wf =
    handle_query_hit-encode_hit (query_hit id originator ip filename) s wf

pub query_text-filled : (q : Query) → (length (encode_query q) == 0) ≡ false
unfolding encode_query header_vec join_string
query_text-filled q = ground arith

pub hit_text-filled :
    (id : MessageId) (originator : PeerId) (ip filename : Bytes)
    → (length (encode_hit (query_hit id originator ip filename)) == 0) ≡ false
unfolding encode_hit hit_vec header_vec join_string
hit_text-filled id originator ip filename = ground arith

-- What a peer is after it has handed a query on to its other neighbours.
abbrev pub relayed : Query → Bytes → Peer → Peer
relayed q b s = record s {
  messages_queue = [];
  broadcast_queue = [];
  queries = insert q.id q.upstream s.queries;
  sent = s.sent ++ map (λ fd. (fd, b)) (others q.upstream s.peer_id_to_sockfd);
}

-- A query that is new to a peer without the file, and that is not at its end, goes on.
pub hop-relay :
    (q : Query) (b b' : Bytes) (s : Peer)
    → IsWellFormed q
    → Passes (encode_query q) b
    → Passes (encode_query (forwarded s q)) b'
    → IsIdle s
    → is_query_cached s q.id ≡ false
    → has_file s q.filename ≡ false
    → leb_ℤ q.ttl (pos 1) ≡ false
    → hop b s ≡ ok (relayed q b' s)
unfolding receive_query is_query_cached cache_query has_file relay_query broadcast forwarded
hop-relay q b b' s wf through onward idle new lacks alive =
    let s' = record s {
      messages_queue = [];
      broadcast_queue = [];
      queries = insert q.id q.upstream s.queries;
    } in
    hop-dispatch (encode_query q) b s through idle (query_text-filled q)
    ∙ ap (λ m. m >>= broadcast_round) (dispatch-query q (record s { messages_queue = [] }) wf)
    ∙ rw (new, lacks, alive, idle.no_broadcasts)
        (broadcast_round_lem (encode_query (forwarded s q)) q.upstream [] b'
          (record s' { broadcast_queue = (encode_query (forwarded s q), q.upstream) ∷ [] }) refl
          onward.filled)

pub relay_query_hit-known :
    (m b : Bytes) (id : MessageId) (up : PeerId) (fd : ℕ) (s : Peer)
    → fill_buffer m ≡ ok b
    → lookup id s.queries ≡ some up
    → lookup up s.peer_id_to_sockfd ≡ some fd
    → relay_query_hit s m id ≡ ok (record s { sent = s.sent ++ (fd, b) ∷ [] })
unfolding relay_query_hit index
relay_query_hit-known m b id up fd s filled cached socket =
    rw (relay_query_hit, index, cached, socket, filled) refl

pub broadcast_round-idle : (s : Peer) → s.broadcast_queue ≡ [] → broadcast_round s ≡ ok s
unfolding broadcast_round
broadcast_round-idle s h = rw (broadcast_round, h) refl

-- A hit goes on to the upstream peer of its query.
pub hop-back :
    (id : MessageId) (originator : PeerId) (ip filename b : Bytes) (up : PeerId) (fd : ℕ) (s : Peer)
    → let h = query_hit id originator ip filename in
      IsWellFormedHit h
      → Passes (encode_hit h) b
      → IsIdle s
      → eq_ℤ id.peer_id s.peer_id ≡ false
      → lookup id s.queries ≡ some up
      → lookup up s.peer_id_to_sockfd ≡ some fd
      → hop b s ≡ ok (record s { messages_queue = []; sent = s.sent ++ (fd, b) ∷ [] })
unfolding receive_hit
hop-back id originator ip filename b up fd s wf through idle foreign cached socket =
    let h = query_hit id originator ip filename in
    let s' : Peer = record s { messages_queue = [] } in
    let t : Peer = record s { messages_queue = []; sent = s.sent ++ (fd, b) ∷ [] } in
    let relays : receive_hit h s' ≡ ok t =
      rw foreign
        (relay_query_hit-known (encode_hit h) b id up fd s' through.filled cached socket) in
    hop-dispatch (encode_hit h) b s through idle (hit_text-filled id originator ip filename)
    ∙ ap (λ m. m >>= broadcast_round) (dispatch-hit id originator ip filename s' wf ∙ relays)
    ∙ broadcast_round-idle t idle.no_broadcasts

pub create_query_hit_message-known :
    (id : MessageId) (ip filename : Bytes) (s : Peer)
    → lookup s.peer_id s.peer_id_to_ip ≡ some ip
    → create_query_hit_message filename id s ≡ (encode_hit (query_hit id s.peer_id ip filename), s)
unfolding create_query_hit_message own_ip index encode_hit hit_vec
create_query_hit_message-known id ip filename s own =
    rw (create_query_hit_message, own_ip, index, own) refl

-- A peer with the file answers.
pub hop-answer :
    (q : Query) (b b' ip : Bytes) (fd : ℕ) (s : Peer)
    → IsWellFormed q
    → Passes (encode_query q) b
    → Passes (encode_hit (query_hit q.id s.peer_id ip q.filename)) b'
    → IsIdle s
    → is_query_cached s q.id ≡ false
    → has_file s q.filename ≡ true
    → lookup s.peer_id s.peer_id_to_ip ≡ some ip
    → lookup q.upstream s.peer_id_to_sockfd ≡ some fd
    → hop b s
      ≡ ok (record s {
        messages_queue = [];
        queries = insert q.id q.upstream s.queries;
        sent = s.sent ++ (fd, b') ∷ [];
      })
unfolding receive_query is_query_cached cache_query has_file
hop-answer q b b' ip fd s wf through back idle new has own socket =
    let s' : Peer = record s { messages_queue = [] } in
    let s'' : Peer = record s { messages_queue = []; queries = insert q.id q.upstream s.queries } in
    let t : Peer = record s'' { sent = s.sent ++ (fd, b') ∷ [] } in
    let cached : lookup q.id s''.queries ≡ some q.upstream =
      lookup-insert q.id q.id q.upstream s.queries ∙ rw (same_id_refl q.id) refl in
    let answers : receive_query q s' ≡ ok t =
      rw (new, has, create_query_hit_message-known q.id ip q.filename s'' own)
        (relay_query_hit-known (encode_hit (query_hit q.id s.peer_id ip q.filename)) b' q.id
          q.upstream fd s'' back.filled cached socket) in
    hop-dispatch (encode_query q) b s through idle (query_text-filled q)
    ∙ ap (λ m. m >>= broadcast_round) (dispatch-query q s' wf ∙ answers)
    ∙ broadcast_round-idle t idle.no_broadcasts
