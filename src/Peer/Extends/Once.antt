-- ===== src/Peer/Extends/Once.antt =====
-- The same message handled twice by HandleMessageThread of src/peer_client.cpp.
use p2p_file_sharing_system.Prelude.{
  ◌≡◌, ◌≢◌, refl, true, List, inl, inr, arith, Bool-cases, Option-cases,
}
use p2p_file_sharing_system.Result.{Result, Fault, ok, fault, OnOk, OnOk->>=, OnOk-map, OnOk_use}
use p2p_file_sharing_system.Text.{Bytes, bytes_eq_iff}
use p2p_file_sharing_system.Text.Number.{stoi}
use p2p_file_sharing_system.Text.Split.{split_string}
use p2p_file_sharing_system.Containers.{lookup}
use p2p_file_sharing_system.Containers.Laws.{contains-lookup, contains-insert}
use p2p_file_sharing_system.Ids.{
  PeerId, MessageId, message_id_key, delim, no_limit, same_id_refl, peer_msg_query_hit,
  peer_msg_inv_query_hit,
}
use p2p_file_sharing_system.Peer.{Peer, is_query_cached, cache_query, at, read_message_id}
use p2p_file_sharing_system.Peer.Queries.{
  receive_once, answer_or_relay, replicate_or_relay, handle_query, handle_inv_query,
}
use p2p_file_sharing_system.Peer.Threads.{
  test_query_and_relay, test_obtain_and_relay, handle_concurrent_test_query,
  handle_concurrent_test_obtain, dispatch, command_of,
}
use p2p_file_sharing_system.Peer.Extends.{Extends}
use p2p_file_sharing_system.Peer.Extends.Queries.{
  answer_or_relay-Extends, replicate_or_relay-Extends,
}
use p2p_file_sharing_system.Peer.Extends.Messages.{
  test_query_and_relay-Extends, test_obtain_and_relay-Extends,
}

cached_by_cache_query :
    (s : Peer) (id : MessageId) (u : PeerId) → is_query_cached (cache_query s id u) id ≡ true
unfolding is_query_cached cache_query
cached_by_cache_query s id u = ground (arith, contains-insert id id u s.queries, same_id_refl id)

cached_by_Extends :
    (s t : Peer) (id : MessageId)
    → Extends s t
    → is_query_cached s id ≡ true
    → is_query_cached t id ≡ true
unfolding is_query_cached
cached_by_Extends s t id e c = elim (Option-cases (lookup id s.queries)) [
  | inl missing ↦ ground (arith, contains-lookup id s.queries)
  | inr (u, found) ↦ ground (arith, contains-lookup id t.queries, e.keeps id u found)
]

module _ (next : Peer → List Bytes → MessageId → PeerId → Result Peer)
    (extends : (t : Peer) (vec : List Bytes) (id : MessageId) (u : PeerId)
      → OnOk (Extends t) (next t vec id u))
    (m : Bytes) where
  -- A handler that ends well leaves the query cached.
  receive_once_caches :
      (s : Peer) (id : MessageId)
      → read_message_id (split_string m delim no_limit) ≡ ok id
      → OnOk (λ t. is_query_cached t id ≡ true) (receive_once next m s)
  unfolding receive_once
  receive_once_caches s id e =
      let vec = split_string m delim no_limit in
      let Cached = λ (t : Peer). is_query_cached t id ≡ true in
      rw e (elim (Bool-cases (is_query_cached s id)) [
        | inl old ↦ rw old old
        | inr new ↦ rw new (
            OnOk->>= Cached (at vec 5) _ λ field. OnOk->>= Cached (stoi field) _ λ u.
              let s' = cache_query s id u in
              OnOk-map Cached (Extends s') (next s' vec id u)
                (λ t x. cached_by_Extends s' t id x (cached_by_cache_query s id u))
                (extends s' vec id u))
      ])

  receive_cached :
      (s : Peer) (id : MessageId)
      → read_message_id (split_string m delim no_limit) ≡ ok id
      → is_query_cached s id ≡ true
      → receive_once next m s ≡ ok s
  unfolding receive_once
  receive_cached s id e c = rw (e, c)

  receive_fault :
      (s : Peer) (f : Fault)
      → read_message_id (split_string m delim no_limit) ≡ fault f
      → receive_once next m s ≡ fault f
  unfolding receive_once
  receive_fault s f e = rw e

  receive_twice : (s t : Peer) → receive_once next m s ≡ ok t → receive_once next m t ≡ ok t
  receive_twice s t e = go (read_message_id (split_string m delim no_limit)) refl
    where
      go :
          (r : Result MessageId)
          → read_message_id (split_string m delim no_limit) ≡ r
          → receive_once next m t ≡ ok t
      go (ok id) h = receive_cached t id h (
          OnOk_use (λ u. is_query_cached u id ≡ true) (receive_once next m s) e
            (receive_once_caches s id h))
      go (fault f) h = cc (receive_fault s f h)

-- A message that is not a hit, and that a peer has handled without a fault, changes nothing when it is
-- handled again.
pub dispatch_twice :
    (m : Bytes) (s t : Peer)
    → command_of m ≢ peer_msg_query_hit
    → command_of m ≢ peer_msg_inv_query_hit
    → dispatch m s ≡ ok t
    → dispatch m t ≡ ok t
unfolding dispatch handle_query handle_inv_query handle_concurrent_test_query
    handle_concurrent_test_obtain
dispatch_twice m s t no_hit no_inv_hit e = ground (
  arith,
  bytes_eq_iff (command_of m) peer_msg_query_hit,
  bytes_eq_iff (command_of m) peer_msg_inv_query_hit,
  receive_twice answer_or_relay answer_or_relay-Extends m s t,
  receive_twice replicate_or_relay replicate_or_relay-Extends m s t,
  receive_twice test_query_and_relay test_query_and_relay-Extends m s t,
  receive_twice test_obtain_and_relay test_obtain_and_relay-Extends m s t,
)
