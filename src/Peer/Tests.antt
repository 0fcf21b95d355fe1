-- ===== src/Peer/Tests.antt =====
-- Runs of the handlers of src/peer_client.cpp on a peer with two neighbours, and the theorems about
-- them at concrete inputs.
use p2p_file_sharing_system.Prelude.{
  ◌+◌, ◌-◌, ◌%◌, ◌<◌, ◌≡◌, refl, [], ◌∷◌, ◌++◌, map, arith, pos, none, some, length, replicate,
  if◌then◌else◌,
}
use p2p_file_sharing_system.Result.{Result, ok, fault, uninitialised, assert_failed, ◌>>=◌}
use p2p_file_sharing_system.Text.{Bytes, codes, bytes_eq}
use p2p_file_sharing_system.Text.Number.{stoi, stoll, stoull, to_string, uint64_mod}
use p2p_file_sharing_system.Text.Split.{split_string, join_string}
use p2p_file_sharing_system.Containers.{lookup, insert, contains, index}
use p2p_file_sharing_system.Ids.{
  MessageId, message_id_key, peer_id_key, decrement, get_file_server_port, own_query,
  peer_msg_query_hit, peer_msg_inv_query_hit, msg_buf_size,
}
use p2p_file_sharing_system.Buffer.{fill_buffer}
use p2p_file_sharing_system.Peer.{
  Peer, has_file, is_query_cached, cache_query, relay_query, relay_query_hit, read_message_id,
}
use p2p_file_sharing_system.Peer.Sample.{home}
use p2p_file_sharing_system.Peer.Wire.{create_query_hit_message}
use p2p_file_sharing_system.Peer.Wire.Bounds.{length-encode_query}
use p2p_file_sharing_system.Peer.Queries.{handle_query, handle_inv_query}
use p2p_file_sharing_system.Peer.Queries.Refinement.{
  Query, IsWellFormed, encode_query, receive_query, handle_query-encode_query,
}
use p2p_file_sharing_system.Peer.Queries.Replication.{
  InvQuery, encode_inv_query, receive_inv_query, handle_inv_query-encode_inv_query,
}
use p2p_file_sharing_system.Peer.Hits.{handle_query_hit, pass_hit_on}
use p2p_file_sharing_system.Peer.Hits.Refinement.{
  Hit, IsWellFormed as IsWellFormedHit, encode_hit, receive_hit, handle_query_hit-encode_hit,
}
use p2p_file_sharing_system.Peer.Hits.Transfer.{push_to, request_to}
use p2p_file_sharing_system.Peer.Hits.Second.{second_inv_hit_pushes_nothing}
use p2p_file_sharing_system.Peer.Operations.{send_query, obtain_file, replicate_file}
use p2p_file_sharing_system.Peer.Operations.Queries.{
  next_id, own_query_for, send_query_lem, obtain_file_first_hit, replicate_file_stale_id,
}
use p2p_file_sharing_system.Peer.Threads.{dispatch, broadcast_round}
use p2p_file_sharing_system.Peer.Threads.Broadcast.{others, broadcast_round_lem}
use p2p_file_sharing_system.Peer.Extends.Messages.{dispatch_keeps, first_of}
use p2p_file_sharing_system.Peer.Extends.Once.{dispatch_twice}

abbrev after : Result Peer → Peer → Peer
after (ok t) s = t
after (fault e) s = s

abbrev foreign_id : MessageId
foreign_id = record { peer_id = pos 0; msg_id = 9; timestamp = pos 50 }

abbrev foreign_query : Query
foreign_query = record { id = foreign_id; ttl = pos 5; upstream = pos 0; filename = codes "theirs" }

foreign_query-IsWellFormed : IsWellFormed foreign_query
foreign_query-IsWellFormed = record {
  id_fits = omega arith;
  ttl_fits = (omega arith, λ e. cc);
  upstream_fits = omega arith;
  named = λ e. cc;
  one_line = omega arith;
}

handle_query-encode_query_example :
    handle_query (encode_query foreign_query) home ≡ receive_query foreign_query home
handle_query-encode_query_example =
    handle_query-encode_query foreign_query home foreign_query-IsWellFormed

abbrev foreign_inv_query : InvQuery
foreign_inv_query = record {
  id = foreign_id;
  ttl = pos 5;
  upstream = pos 0;
  filename = codes "theirs";
  factor = pos 2;
}

handle_inv_query-encode_inv_query_example :
    handle_inv_query (encode_inv_query foreign_inv_query) home
    ≡ receive_inv_query foreign_inv_query home
handle_inv_query-encode_inv_query_example =
    handle_inv_query-encode_inv_query foreign_inv_query home (record {
      id_fits = omega arith;
      ttl_fits = (omega arith, λ e. cc);
      upstream_fits = omega arith;
      factor_fits = (omega arith, λ e. cc);
      one_line = omega arith;
    })

abbrev query_text : Bytes
query_text = codes "peer_query\n0\n9\n50\n5\n0\ntheirs"

abbrev relayed_text : Bytes
relayed_text = codes "peer_query\n0\n9\n50\n4\n1\ntheirs"

-- The query goes on with its time to live counted down, under the peer's own name.
query_is_relayed :
    handle_query query_text home
    ≡ ok (record home {
      queries = (foreign_id, pos 0) ∷ [];
      broadcast_queue = (relayed_text, pos 0) ∷ [];
    })
unfolding handle_query split_string join_string read_message_id stoi stoll stoull is_query_cached
    contains cache_query insert has_file decrement relay_query to_string bytes_eq
query_is_relayed = refl

-- A query for a file that the peer holds.
abbrev held_text : Bytes
held_text = codes "peer_query\n0\n9\n50\n5\n0\nmine"

abbrev own_hit_text : Bytes
own_hit_text = codes "peer_query_hit\n0\n9\n50\n5\n1\n10.0.0.2\nmine"

held_query_is_answered :
    dispatch held_text home
    ≡ ok (record home {
      queries = (foreign_id, pos 0) ∷ [];
      sent = (7, own_hit_text ++ replicate (1024 - length own_hit_text) 0) ∷ [];
    })
unfolding dispatch handle_query split_string join_string read_message_id stoi stoll stoull
    is_query_cached contains cache_query insert has_file bytes_eq create_query_hit_message
    relay_query_hit index lookup fill_buffer to_string
held_query_is_answered = refl

abbrev relaying : Peer
relaying = record home { queries = (foreign_id, pos 0) ∷ [] }

abbrev later_text : Bytes
later_text = codes "peer_query\n0\n10\n60\n5\n2\ntheirs"

dispatch_keeps_example :
    ((after (dispatch later_text relaying) relaying).peer_id ≡ pos 1)
    × ((after (dispatch later_text relaying) relaying).replication_factor ≡ pos 3)
    × ((after (dispatch later_text relaying) relaying).peer_id_to_sockfd
        ≡ relaying.peer_id_to_sockfd)
    × ((after (dispatch later_text relaying) relaying).files ≡ relaying.files)
    × (lookup foreign_id (after (dispatch later_text relaying) relaying).queries
        ≡ first_of
            (lookup foreign_id relaying.queries)
            (lookup foreign_id (after (dispatch later_text relaying) relaying).queries))
unfolding dispatch handle_query split_string join_string read_message_id stoi stoll stoull
    is_query_cached contains cache_query insert has_file bytes_eq decrement relay_query to_string
    lookup
dispatch_keeps_example =
    dispatch_keeps later_text relaying (after (dispatch later_text relaying) relaying) foreign_id
      refl

dispatch_twice_example :
    dispatch query_text (after (dispatch query_text home) home)
    ≡ ok (after (dispatch query_text home) home)
unfolding dispatch handle_query split_string join_string read_message_id stoi stoll stoull
    is_query_cached contains cache_query insert has_file bytes_eq decrement relay_query to_string
dispatch_twice_example =
    dispatch_twice query_text home (after (dispatch query_text home) home) (λ e. cc) (λ e. cc) refl

-- An answer to what `home` asks next.
abbrev answer : Hit
answer = record {
  msg_type = peer_msg_query_hit;
  id = next_id home;
  ttl = pos 5;
  originator = pos 2;
  ip = codes "10.0.0.3";
  rest = codes "theirs" ∷ [];
}

answer-IsWellFormed : IsWellFormedHit answer
answer-IsWellFormed = record {
  type_line = omega arith;
  id_fits = omega arith;
  ttl_fits = (omega arith, λ e. cc);
  originator_fits = omega arith;
  lines = omega arith;
  filled = λ e. cc;
}

handle_query_hit-encode_hit_example :
    handle_query_hit (encode_hit answer) home ≡ receive_hit answer home
handle_query_hit-encode_hit_example = handle_query_hit-encode_hit answer home answer-IsWellFormed

-- A hit for a query that the peer does not know, or no longer: it takes peer 0 for the upstream.
abbrev unknown_hit_text : Bytes
unknown_hit_text = codes "peer_query_hit\n5\n9\n50\n5\n2\n10.0.0.3\nmine"

abbrev lonely : Peer
lonely = record home { peer_id_to_sockfd = (pos 2, 8) ∷ [] }

unknown_hit_aborts : handle_query_hit unknown_hit_text lonely ≡ fault assert_failed
unfolding handle_query_hit pass_hit_on split_string read_message_id stoi stoll stoull decrement
    relay_query_hit index lookup insert join_string
unknown_hit_aborts = refl

send_query_lem_example :
    let (id, t) = send_query (codes "theirs") home in
    (id ≡ next_id home)
    × (t.broadcast_queue
        ≡ home.broadcast_queue
          ++ (encode_query (own_query_for (codes "theirs") home), own_query) ∷ [])
    × (t.queries ≡ (
        if contains (next_id home) home.queries
        then home.queries
        else insert (next_id home) own_query home.queries))
    × (t.msg_id_counter ≡ (home.msg_id_counter + 1) % uint64_mod)
    × (t.requests ≡ home.requests)
send_query_lem_example = send_query_lem (codes "theirs") home

obtain_file_first_hit_example :
    (t : Peer) × (handle_query_hit (encode_hit answer) (obtain_file (codes "theirs") home).1 ≡ ok t)
    × (t.requests ≡ home.requests ++ request_to answer (pos 3002) (codes "theirs") ∷ [])
    × (lookup answer.id t.wait_queryhit ≡ none)
unfolding lookup get_file_server_port
obtain_file_first_hit_example =
    obtain_file_first_hit (codes "theirs") home answer (pos 3002) answer-IsWellFormed refl refl refl
      refl tt

abbrev replicating : Peer
replicating = record home {
  wait_queryhit = (next_id home, codes "mine") ∷ [];
  queries = (next_id home, own_query) ∷ [];
}

abbrev inv_answer : Hit
inv_answer = record answer { msg_type = peer_msg_inv_query_hit; rest = [] }

abbrev other_answer : Hit
other_answer = record inv_answer { originator = pos 3; ip = codes "10.0.0.4" }

inv_answer-IsWellFormed : IsWellFormedHit inv_answer
inv_answer-IsWellFormed = record {
  type_line = omega arith;
  id_fits = omega arith;
  ttl_fits = (omega arith, λ e. cc);
  originator_fits = omega arith;
  lines = omega arith;
  filled = λ e. cc;
}

other_answer-IsWellFormed : IsWellFormedHit other_answer
other_answer-IsWellFormed = record {
  type_line = omega arith;
  id_fits = omega arith;
  ttl_fits = (omega arith, λ e. cc);
  originator_fits = omega arith;
  lines = omega arith;
  filled = λ e. cc;
}

second_inv_hit_pushes_nothing_example :
    (t : Peer) × ((handle_query_hit (encode_hit inv_answer) replicating
        >>= handle_query_hit (encode_hit other_answer))
      ≡ ok t)
    × (t.requests ≡ replicating.requests ++ push_to inv_answer (pos 3002) (codes "mine") ∷ [])
unfolding lookup get_file_server_port contains has_file bytes_eq is_query_cached
second_inv_hit_pushes_nothing_example =
    second_inv_hit_pushes_nothing inv_answer other_answer replicating (codes "mine") (pos 3002)
      (pos 3003) inv_answer-IsWellFormed other_answer-IsWellFormed refl refl refl refl refl refl
      refl refl (refl, tt) refl (omega arith)

abbrev frugal : Peer
frugal = record home { replication_factor = pos 1 }

replicate_file_stale_id_example :
    (t : Peer) × (replicate_file (codes "mine") (some (next_id home)) frugal
      ≡ ok (some (next_id home), t))
    × (t.broadcast_queue ≡ frugal.broadcast_queue)
    × (lookup (next_id home) t.wait_queryhit ≡ some (codes "mine"))
    × (replicate_file (codes "mine") none frugal ≡ fault uninitialised)
unfolding has_file bytes_eq
replicate_file_stale_id_example =
    replicate_file_stale_id (codes "mine") frugal (next_id home) refl (omega arith)

abbrev broadcasting : Peer
broadcasting = record home { broadcast_queue = (codes "hello", pos 0) ∷ [] }

abbrev hello_buffer : Bytes
hello_buffer = codes "hello" ++ replicate 1019 0

broadcast_round_lem_example :
    broadcast_round broadcasting
    ≡ ok (record broadcasting {
      broadcast_queue = [];
      sent =
          broadcasting.sent
          ++ map (λ fd. (fd, hello_buffer)) (others (pos 0) broadcasting.peer_id_to_sockfd);
    })
unfolding fill_buffer
broadcast_round_lem_example =
    broadcast_round_lem (codes "hello") (pos 0) [] hello_buffer broadcasting refl refl

length-encode_query_example : length (encode_query foreign_query) < msg_buf_size
length-encode_query_example =
    length-encode_query foreign_query foreign_query-IsWellFormed (omega arith)
