-- ===== src/Network/World/InvQueries.antt =====
-- An inverse query that comes to a peer in a network: HandleInvQuery of src/peer_client.cpp.
use p2p_file_sharing_system.Prelude.{
  ℕ, ◌<◌, ◌≡◌, refl, ◌∙◌, false, Bool-cases, if_both, ◌||◌, inl, inr, some, ◌∷◌, arith, pos, leb_ℤ,
  if◌then◌else◌,
}
use p2p_file_sharing_system.Result.{Result, ok, ◌>>=◌}
use p2p_file_sharing_system.Text.{Bytes}
use p2p_file_sharing_system.Containers.{lookup, index, insert}
use p2p_file_sharing_system.Containers.Laws.{contains-lookup}
use p2p_file_sharing_system.Ids.{MessageId, message_id_key, peer_id_key}
use p2p_file_sharing_system.Peer.{
  Peer, member, cache_query, has_file, is_query_cached, relay_query, relay_query_hit, broadcast,
}
use p2p_file_sharing_system.Peer.Wire.{create_inv_query_hit_message, own_ip}
use p2p_file_sharing_system.Peer.Queries.Replication.{
  InvQuery, encode_inv_query, handed_on, receive_inv_query,
}
use p2p_file_sharing_system.Peer.Hits.Refinement.{encode_hit, hit_vec}
use p2p_file_sharing_system.Network.World.{Net, IsNet}
use p2p_file_sharing_system.Network.World.Invariant.{
  Caches, Knows, IsSound, IsSendableInv, inv_query_hit,
}
use p2p_file_sharing_system.Network.World.Goes.{
  Goes, idle-Goes, same-IsSound, along-Goes, onward-Goes, then-Goes, broadcast-IsSound,
}
use p2p_file_sharing_system.Network.World.Caching.{once-Goes, relay_hit-Goes}
use p2p_file_sharing_system.Network.World.Answers.{inv_query_hit-IsSendable}
use p2p_file_sharing_system.Network.World.Questions.{inv_query-Leaves, handed_on-IsSendable}

-- What is left of an inverse query behind the offer.
then_hand_on : InvQuery → Peer → Peer
then_hand_on q t =
    if leb_ℤ q.factor (pos 1) || leb_ℤ q.ttl (pos 1)
    then t
    else relay_query t (encode_inv_query (handed_on t q)) q.upstream

-- An inverse query that is new, once it is cached.
after_caching_inv : InvQuery → Peer → Result Peer
unfolding then_hand_on
after_caching_inv q s =
    let s' = record s { replicate_query_filename = q.filename ∷ s.replicate_query_filename } in
    let (hit, s'') = create_inv_query_hit_message q.filename q.id s' in
    if member q.filename s.replicate_query_filename
    then ok s
    else ((if has_file s' q.filename then ok s' else relay_query_hit s'' hit q.id) >>= λ t.
        ok (then_hand_on q t))

receive_new_inv_query :
    (q : InvQuery) (s : Peer)
    → is_query_cached s q.id ≡ false
    → receive_inv_query q s
      ≡ after_caching_inv q (record s { queries = insert q.id q.upstream s.queries })
unfolding receive_inv_query after_caching_inv is_query_cached cache_query then_hand_on
receive_new_inv_query q s new = rw new refl

create_inv_query_hit_message-known :
    (id : MessageId) (ip filename : Bytes) (s : Peer)
    → lookup s.peer_id s.peer_id_to_ip ≡ some ip
    → create_inv_query_hit_message filename id s ≡ (encode_hit (inv_query_hit id s.peer_id ip), s)
unfolding create_inv_query_hit_message own_ip index encode_hit hit_vec
create_inv_query_hit_message-known id ip filename s known =
    rw (create_inv_query_hit_message, own_ip, index, known) refl

then_hand_on-queries : (q : InvQuery) (t : Peer) → (then_hand_on q t).queries ≡ t.queries
unfolding then_hand_on relay_query broadcast
then_hand_on-queries q t = ground arith

module _ (net : Net) (c : Caches) (i : ℕ) (is_net : IsNet net) (lt : i < net.size) where
  -- An inverse query is handed on by a peer that knows it.
  then_hand_on-IsSound :
      (q : InvQuery) (t : Peer)
      → IsSendableInv q
      → IsSound net c i t
      → Knows c i q.id
      → IsSound net c i (then_hand_on q t)
  unfolding then_hand_on relay_query handed_on
  then_hand_on-IsSound q t sendable sound knows = elim (Bool-cases (leb_ℤ q.factor (pos 1))) [
    | inl enough ↦ rw enough sound
    | inr wanted ↦ elim (Bool-cases (leb_ℤ q.ttl (pos 1))) [
      | inl over ↦ rw (wanted, over) sound
      | inr alive ↦
          rw (wanted, alive)
            (broadcast-IsSound net c i (encode_inv_query (handed_on t q)) q.upstream t sound (
              inv_query-Leaves net c i (handed_on t q)
                (handed_on-IsSendable net is_net i lt t sound.self q sendable wanted alive)
                sound.self knows))
    ]
  ]

module _ (net : Net) (c : Caches) (i : ℕ) (is_net : IsNet net) (lt : i < net.size) where
  offer-Goes :
      (q : InvQuery) (n fd : ℕ) (s : Peer)
      → IsSound net c i s
      → IsSendableInv q
      → lookup q.id s.queries ≡ some q.upstream
      → q.upstream ≡ pos n
      → lookup q.upstream (net.sockets i) ≡ some fd
      → Knows c n q.id
      → Goes net c i s (
          let (hit, s') = create_inv_query_hit_message q.filename q.id s in
          relay_query_hit s' hit q.id)
  offer-Goes q n fd s sound sendable cached up socket knows =
      let hit = inv_query_hit q.id (pos i) (net.ips i) in
      along-Goes net c i s _ (relay_query_hit s (encode_hit hit) q.id)
        (rw
          (
            create_inv_query_hit_message-known q.id (net.ips i) q.filename s sound.addressed,
            sound.self,
          )
          refl)
        (relay_hit-Goes net c i hit q.upstream n fd s is_net sound
          (inv_query_hit-IsSendable net is_net i lt q.id sendable.wf.id_fits) cached up socket
          knows)

  after_caching_inv-Goes :
      (q : InvQuery) (n fd : ℕ) (s : Peer)
      → IsSound net c i s
      → IsSendableInv q
      → lookup q.id s.queries ≡ some q.upstream
      → q.upstream ≡ pos n
      → lookup q.upstream (net.sockets i) ≡ some fd
      → Knows c n q.id
      → Goes net c i s (after_caching_inv q s)
  unfolding after_caching_inv
  after_caching_inv-Goes q n fd s sound sendable cached up socket knows =
      let u : Peer = record s {
        replicate_query_filename = q.filename ∷ s.replicate_query_filename;
      } in
      let u_sound = same-IsSound net c i s u refl sound.honest sound in
      if_both (Goes net c i s) (member q.filename s.replicate_query_filename) _ _
        (idle-Goes net c i s sound)
        (then-Goes net c i s _ (then_hand_on q)
          (onward-Goes net c i s u _ (λ id h. h)
            (if_both (Goes net c i u) (has_file u q.filename) _ _ (idle-Goes net c i u u_sound)
              (offer-Goes q n fd u u_sound sendable cached up socket knows)))
          (then_hand_on-queries q)
          (λ c' t covered t_sound.
            then_hand_on-IsSound net c' i is_net lt q t sendable t_sound
              (covered q.id (contains-lookup q.id s.queries ∙ rw cached refl))))

  pub receive_inv_query-Goes :
      (q : InvQuery) (n fd : ℕ) (s : Peer)
      → IsSound net c i s
      → IsSendableInv q
      → q.upstream ≡ pos n
      → lookup q.upstream (net.sockets i) ≡ some fd
      → Knows c n q.id
      → Goes net c i s (receive_inv_query q s)
  unfolding is_query_cached
  receive_inv_query-Goes q n fd s sound sendable up socket knows =
      elim (Bool-cases (is_query_cached s q.id)) [
        | inl seen ↦
            along-Goes net c i s _ (ok s) (unfold receive_inv_query in rw seen refl)
              (idle-Goes net c i s sound)
        | inr new ↦ along-Goes net c i s _ _ (receive_new_inv_query q s new) (
            once-Goes net c i q.id q.upstream n fd s (after_caching_inv q) sound up socket knows
              (λ u u_sound cached.
                after_caching_inv-Goes q n fd u u_sound sendable cached up socket knows))
      ]
