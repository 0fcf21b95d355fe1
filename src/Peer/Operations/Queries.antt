-- ===== src/Peer/Operations/Queries.antt =====
-- What SendQuery queues, and what becomes of ObtainFile when the first answer comes.
use p2p_file_sharing_system.Prelude.{
  ◌+◌, ◌%◌, ◌≡◌, sym, ap, ◌∙◌, true, none, some, [], ◌∷◌, ◌++◌, arith, ℤ, pos, if◌then◌else◌, ◌≤ℤ◌,
}
use p2p_file_sharing_system.Result.{ok, fault, uninitialised}
use p2p_file_sharing_system.Text.{Bytes}
use p2p_file_sharing_system.Text.Number.{uint64_mod}
use p2p_file_sharing_system.Containers.{lookup, insert, contains}
use p2p_file_sharing_system.Containers.Laws.{
  Distinct, insert-Distinct, lookup-insert, contains-insert,
}
use p2p_file_sharing_system.Ids.{
  MessageId, message_id_key, same_id_refl, own_query, initial_ttl, get_file_server_port,
  peer_msg_query_hit,
}
use p2p_file_sharing_system.Peer.{
  Peer, has_file, is_query_cached, cache_query, broadcast, set_wait_query_hit,
}
use p2p_file_sharing_system.Peer.Wire.{create_query_message}
use p2p_file_sharing_system.Peer.Queries.Refinement.{Query, encode_query}
use p2p_file_sharing_system.Peer.Hits.{handle_query_hit}
use p2p_file_sharing_system.Peer.Hits.Refinement.{
  Hit, IsWellFormed, encode_hit, receive_hit, accept_hit, handle_query_hit-encode_hit,
}
use p2p_file_sharing_system.Peer.Hits.Transfer.{request_to, accept_first_hit}
use p2p_file_sharing_system.Peer.Operations.{send_query, obtain_file, replicate_file}

-- The id that the next message of a peer gets.
abbrev pub next_id : Peer → MessageId
next_id s = record { peer_id = s.peer_id; msg_id = s.msg_id_counter; timestamp = s.clock s.reads }

-- A query of one's own for a file.
abbrev pub own_query_for : Bytes → Peer → Query
own_query_for filename s = record {
  id = next_id s;
  ttl = initial_ttl;
  upstream = s.peer_id;
  filename = filename;
}

-- SendQuery gives the query the next id, queues its text for every neighbour, caches it as the peer's
-- own where the id is new, and moves the counter on; it starts no transfer.
pub send_query_lem :
    (filename : Bytes) (s : Peer)
    → let (id, t) = send_query filename s in
      (id ≡ next_id s)
      × (t.broadcast_queue
          ≡ s.broadcast_queue ++ (encode_query (own_query_for filename s), own_query) ∷ [])
      × (t.queries ≡ (
          if contains (next_id s) s.queries
          then s.queries
          else insert (next_id s) own_query s.queries))
      × (t.msg_id_counter ≡ (s.msg_id_counter + 1) % uint64_mod)
      × (t.requests ≡ s.requests)
unfolding send_query create_query_message broadcast cache_query encode_query
send_query_lem filename s = ground arith

pub obtain_file_fields :
    (filename : Bytes) (s : Peer)
    → let t = (obtain_file filename s).1 in
      (t.peer_id ≡ s.peer_id)
      × (is_query_cached t (next_id s) ≡ true)
      × (t.wait_queryhit ≡ insert (next_id s) filename s.wait_queryhit)
      × (t.query_hit_result ≡ s.query_hit_result)
      × (t.requests ≡ s.requests)
unfolding obtain_file set_wait_query_hit create_query_message broadcast cache_query is_query_cached
obtain_file_fields filename s =
    ground
      (arith, contains-insert (next_id s) (next_id s) own_query s.queries, same_id_refl (next_id s))

pub receive_own_cached :
    (h : Hit) (t : Peer)
    → h.id.peer_id ≡ t.peer_id
    → is_query_cached t h.id ≡ true
    → receive_hit h t ≡ accept_hit h t
unfolding receive_hit
receive_own_cached h t own cached = ground arith

-- After ObtainFile, the first answer that comes, a well-formed query hit with the id that the query
-- got and from a peer whose port does not overflow, makes one request, for that file and at the peer
-- that answered, and nothing waits for the id any longer. No results were held under the id before.
pub obtain_file_first_hit :
    (filename : Bytes) (s : Peer) (h : Hit) (port : ℤ)
    → IsWellFormed h
    → h.id ≡ next_id s
    → h.msg_type ≡ peer_msg_query_hit
    → get_file_server_port h.originator ≡ ok port
    → lookup (next_id s) s.query_hit_result ≡ none
    → Distinct s.wait_queryhit
    → (t : Peer) × (handle_query_hit (encode_hit h) (obtain_file filename s).1 ≡ ok t)
      × (t.requests ≡ s.requests ++ request_to h port filename ∷ [])
      × (lookup h.id t.wait_queryhit ≡ none)
obtain_file_first_hit filename s h port wf is_next query_hit has_port fresh d =
    let s' = (obtain_file filename s).1 in
    let (same_peer, cached, waits, results, requests) = obtain_file_fields filename s in
    let wait : lookup h.id s'.wait_queryhit ≡ some filename = ground (
      arith,
      is_next,
      waits,
      lookup-insert (next_id s) (next_id s) filename s.wait_queryhit,
      same_id_refl (next_id s),
    ) in
    let no_result : lookup h.id s'.query_hit_result ≡ none = rw (is_next, results) fresh in
    let distinct : Distinct s'.wait_queryhit =
      rw waits (insert-Distinct (next_id s) filename s.wait_queryhit d) in
    let (t, accepted, requested, over) =
      accept_first_hit h s' filename port query_hit has_port wait no_result distinct in
    (
      t,
      handle_query_hit-encode_hit h s' wf
          ∙ receive_own_cached h s' (ap (λ (i : MessageId). i.peer_id) is_next ∙ sym same_peer)
              (rw is_next cached)
          ∙ accepted,
      requested ∙ ap (λ r. r ++ request_to h port filename ∷ []) requests,
      over,
    )

-- With a replication factor of 1 or less ReplicateFile sends nothing for a file that the peer holds,
-- and yet waits for answers under the id that its caller passed; where the caller's id was never
-- written it reads it all the same.
pub replicate_file_stale_id :
    (filename : Bytes) (s : Peer) (id : MessageId)
    → has_file s filename ≡ true
    → s.replication_factor ≤ℤ pos 1
    → (t : Peer) × (replicate_file filename (some id) s ≡ ok (some id, t))
      × (t.broadcast_queue ≡ s.broadcast_queue)
      × (lookup id t.wait_queryhit ≡ some filename)
      × (replicate_file filename none s ≡ fault uninitialised)
unfolding replicate_file set_wait_query_hit
replicate_file_stale_id filename s id has few = (
  set_wait_query_hit s id filename,
  ground arith,
  ground arith,
  ground (arith, lookup-insert id id filename s.wait_queryhit, same_id_refl id),
  ground arith,
)
