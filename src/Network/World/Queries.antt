-- ===== src/Network/World/Queries.antt =====
-- A query of either kind that comes to a peer in a network: HandleQuery and HandleInvQuery of
-- src/peer_client.cpp.
use p2p_file_sharing_system.Prelude.{
  ℕ, ◌<◌, ◌≡◌, refl, ◌∙◌, true, false, Bool-cases, if_both, inl, inr, some, pos, leb_ℤ,
  if◌then◌else◌,
}
use p2p_file_sharing_system.Result.{Result, ok}
use p2p_file_sharing_system.Containers.{lookup, contains, insert}
use p2p_file_sharing_system.Containers.Laws.{contains-lookup}
use p2p_file_sharing_system.Ids.{message_id_key, peer_id_key}
use p2p_file_sharing_system.Peer.{
  Peer, cache_query, has_file, is_query_cached, relay_query, relay_query_hit, broadcast,
}
use p2p_file_sharing_system.Peer.Wire.{create_query_hit_message}
use p2p_file_sharing_system.Peer.Queries.Refinement.{Query, encode_query, forwarded, receive_query}
use p2p_file_sharing_system.Peer.Hits.Refinement.{encode_hit}
use p2p_file_sharing_system.Network.Hop.{query_hit, create_query_hit_message-known}
use p2p_file_sharing_system.Network.World.{Net, IsNet}
use p2p_file_sharing_system.Network.World.Invariant.{Caches, Knows, IsSound, IsSendable}
use p2p_file_sharing_system.Network.World.Goes.{
  Goes, idle-Goes, along-Goes, then-Goes, broadcast-IsSound,
}
use p2p_file_sharing_system.Network.World.Caching.{once-Goes, relay_hit-Goes}
use p2p_file_sharing_system.Network.World.Answers.{query_hit-IsSendable}
use p2p_file_sharing_system.Network.World.Questions.{query-Leaves, forwarded-IsSendable}

-- A query that is new, once it is cached: the answer, the end of its life, or the next neighbours.
after_caching : Query → Peer → Result Peer
after_caching q s =
    let (hit, s') = create_query_hit_message q.filename q.id s in
    if has_file s q.filename
    then relay_query_hit s' hit q.id
    else if leb_ℤ q.ttl (pos 1)
    then ok s
    else ok (relay_query s (encode_query (forwarded s q)) q.upstream)

receive_new_query :
    (q : Query) (s : Peer)
    → is_query_cached s q.id ≡ false
    → receive_query q s ≡ after_caching q (record s { queries = insert q.id q.upstream s.queries })
unfolding receive_query after_caching is_query_cached cache_query
receive_new_query q s new = rw new refl

module _ (net : Net) (c : Caches) (i : ℕ) (is_net : IsNet net) (lt : i < net.size) where
  -- The answer to a query goes back to where the query came from.
  answer-Goes :
      (q : Query) (n fd : ℕ) (s : Peer)
      → IsSound net c i s
      → IsSendable q
      → lookup q.id s.queries ≡ some q.upstream
      → q.upstream ≡ pos n
      → lookup q.upstream (net.sockets i) ≡ some fd
      → Knows c n q.id
      → Goes net c i s (
          let (hit, s') = create_query_hit_message q.filename q.id s in relay_query_hit s' hit q.id)
  answer-Goes q n fd s sound sendable cached up socket knows =
      let hit = query_hit q.id (pos i) (net.ips i) q.filename in
      along-Goes net c i s _ (relay_query_hit s (encode_hit hit) q.id)
        (rw
          (create_query_hit_message-known q.id (net.ips i) q.filename s sound.addressed, sound.self)
          refl)
        (relay_hit-Goes net c i hit q.upstream n fd s is_net sound
          (query_hit-IsSendable net is_net i lt q sendable) cached up socket knows)

  -- A query with hops left is handed on.
  relay-Goes :
      (q : Query) (s : Peer)
      → IsSound net c i s
      → IsSendable q
      → contains q.id s.queries ≡ true
      → leb_ℤ q.ttl (pos 1) ≡ false
      → Goes net c i s (ok (relay_query s (encode_query (forwarded s q)) q.upstream))
  unfolding relay_query forwarded
  relay-Goes q s sound sendable cached alive =
      then-Goes net c i s (ok s) (λ t. broadcast t (encode_query (forwarded s q)) q.upstream)
        (idle-Goes net c i s sound) (λ t. unfold broadcast in refl)
        (λ c' t covered t_sound.
          broadcast-IsSound net c' i (encode_query (forwarded s q)) q.upstream t t_sound (
            query-Leaves net c' i (forwarded s q)
              (forwarded-IsSendable net is_net i lt s sound.self q sendable alive) sound.self
              (covered q.id cached)))

  after_caching-Goes :
      (q : Query) (n fd : ℕ) (s : Peer)
      → IsSound net c i s
      → IsSendable q
      → lookup q.id s.queries ≡ some q.upstream
      → q.upstream ≡ pos n
      → lookup q.upstream (net.sockets i) ≡ some fd
      → Knows c n q.id
      → Goes net c i s (after_caching q s)
  unfolding after_caching
  after_caching-Goes q n fd s sound sendable cached up socket knows =
      if_both (Goes net c i s) (has_file s q.filename) _ _
        (answer-Goes q n fd s sound sendable cached up socket knows)
        (elim (Bool-cases (leb_ℤ q.ttl (pos 1))) [
          | inl over ↦ along-Goes net c i s _ (ok s) (rw over refl) (idle-Goes net c i s sound)
          | inr alive ↦
              along-Goes net c i s _ (ok (relay_query s (encode_query (forwarded s q)) q.upstream))
                (rw alive refl)
                (relay-Goes q s sound sendable (contains-lookup q.id s.queries ∙ rw cached refl)
                  alive)
        ])

  pub receive_query-Goes :
      (q : Query) (n fd : ℕ) (s : Peer)
      → IsSound net c i s
      → IsSendable q
      → q.upstream ≡ pos n
      → lookup q.upstream (net.sockets i) ≡ some fd
      → Knows c n q.id
      → Goes net c i s (receive_query q s)
  unfolding is_query_cached
  receive_query-Goes q n fd s sound sendable up socket knows =
      elim (Bool-cases (is_query_cached s q.id)) [
        | inl seen ↦
            along-Goes net c i s _ (ok s) (unfold receive_query in rw seen refl)
              (idle-Goes net c i s sound)
        | inr new ↦ along-Goes net c i s _ _ (receive_new_query q s new) (
            once-Goes net c i q.id q.upstream n fd s (after_caching q) sound up socket knows
              (λ u u_sound cached.
                after_caching-Goes q n fd u u_sound sendable cached up socket knows))
      ]
