-- ===== src/Network/World/Starting.antt =====
-- What a user starts at a peer in a network: SendQuery, SendInvQuery and
-- ReplicateFile of src/peer_client.cpp.
use p2p_file_sharing_system.Prelude.{
  ℕ, ◌+◌, ◌%◌, ◌<◌, ◌≡◌, refl, true, false, Bool-cases, if_both, inl, inr, arith, leb_ℤ, Option,
  pos,
}
use p2p_file_sharing_system.Result.{ok, ◌>>=◌}
use p2p_file_sharing_system.Text.{Bytes}
use p2p_file_sharing_system.Text.Number.{uint64_mod}
use p2p_file_sharing_system.Containers.{contains}
use p2p_file_sharing_system.Containers.Laws.{contains-insert}
use p2p_file_sharing_system.Ids.{
  PeerId, MessageId, message_id_key, peer_id_key, same_id_refl, own_query,
}
use p2p_file_sharing_system.Peer.{Peer, broadcast, cache_query, has_file, set_wait_query_hit}
use p2p_file_sharing_system.Peer.Wire.{create_query_message, create_inv_query_message}
use p2p_file_sharing_system.Peer.Queries.Refinement.{encode_query}
use p2p_file_sharing_system.Peer.Queries.Replication.{encode_inv_query}
use p2p_file_sharing_system.Peer.Operations.{send_query, send_inv_query, replicate_file}
use p2p_file_sharing_system.Peer.Operations.Queries.{next_id, own_query_for}
use p2p_file_sharing_system.Network.World.{Net, IsNet, IsNameable}
use p2p_file_sharing_system.Network.World.Invariant.{Caches, Knows, Origin.own, Leaves, IsSound}
use p2p_file_sharing_system.Network.World.Goes.{
  Goes, idle-Goes, along-Goes, onward-Goes, then-Goes, broadcast-IsSound, same-IsSound,
}
use p2p_file_sharing_system.Network.World.Caching.{cached-IsSound}
use p2p_file_sharing_system.Network.World.Questions.{
  query-Leaves, inv_query-Leaves, own_query-IsSendable, own_inv_query-IsSendable, own_inv_query_for,
}

-- The peer once a message has got the next id.
abbrev numbered : Peer → Peer
numbered s = record s { reads = s.reads + 1; msg_id_counter = (s.msg_id_counter + 1) % uint64_mod }

cache_query_keeps :
    (id j : MessageId) (up : PeerId) (s : Peer)
    → contains j s.queries ≡ true
    → contains j (cache_query s id up).queries ≡ true
unfolding cache_query
cache_query_keeps id j up s h = ground (arith, contains-insert id j up s.queries)

cache_query_caches :
    (id : MessageId) (up : PeerId) (s : Peer) → contains id (cache_query s id up).queries ≡ true
unfolding cache_query
cache_query_caches id up s = ground (arith, contains-insert id id up s.queries, same_id_refl id)

module _ (net : Net) (c : Caches) (i : ℕ) (is_net : IsNet net) (lt : i < net.size) where
  counted-IsSound : (s : Peer) → IsSound net c i s → IsSound net c i (numbered s)
  counted-IsSound s sound = record {
    self = sound.self;
    wired = sound.wired;
    addressed = sound.addressed;
    timed = sound.timed;
    counted = omega arith;
    factored = sound.factored;
    honest = sound.honest;
    known = sound.known;
    inbox = sound.inbox;
    outbox = sound.outbox;
    wire = sound.wire;
  }

  cache_own-IsSound :
      (id : MessageId) (s : Peer)
      → id.peer_id ≡ pos i
      → IsSound net c i s
      → IsSound net c i (cache_query s id own_query)
  unfolding cache_query
  cache_own-IsSound id s e sound =
      if_both (IsSound net c i) (contains id s.queries) s _ sound
        (cached-IsSound net c i id own_query s sound (own e))

  -- A query of one's own is cached and handed to every neighbour.
  start-Goes :
      (m : Bytes) (s : Peer)
      → IsSound net c i s
      → ((c' : Caches) → Knows c' i (next_id s) → Leaves net c' i m)
      → Goes net c i s (ok (broadcast (cache_query (numbered s) (next_id s) own_query) m own_query))
  start-Goes m s sound leaves =
      let v = cache_query (numbered s) (next_id s) own_query in
      let v_sound =
        cache_own-IsSound (next_id s) (numbered s) sound.self (counted-IsSound s sound) in
      onward-Goes net c i s v _ (λ id h. cache_query_keeps (next_id s) id own_query (numbered s) h)
        (then-Goes net c i v (ok v) (λ t. broadcast t m own_query) (idle-Goes net c i v v_sound)
          (λ t. unfold broadcast in refl)
          (λ c' t covered t_sound. broadcast-IsSound net c' i m own_query t t_sound (
            leaves c'
              (covered (next_id s) (cache_query_caches (next_id s) own_query (numbered s))))))

  pub ask-Goes :
      (filename : Bytes) (s : Peer)
      → IsNameable filename
      → IsSound net c i s
      → Goes net c i s (ok (send_query filename s).1)
  unfolding send_query create_query_message encode_query
  ask-Goes filename s nameable sound =
      let q = own_query_for filename s in
      start-Goes (encode_query q) s sound (λ c' knows.
        query-Leaves net c' i q
          (own_query-IsSendable net is_net i lt s sound.self c filename sound nameable) sound.self
          knows)

  offer_copy-Goes :
      (filename : Bytes) (s : Peer)
      → leb_ℤ s.replication_factor (pos 1) ≡ false
      → IsNameable filename
      → IsSound net c i s
      → Goes net c i s (
          ok (
            broadcast
              (cache_query (numbered s) (next_id s) own_query)
              (encode_inv_query (own_inv_query_for filename s))
              own_query))
  offer_copy-Goes filename s wanted nameable sound =
      let q = own_inv_query_for filename s in
      start-Goes (encode_inv_query q) s sound (λ c' knows.
        inv_query-Leaves net c' i q
          (own_inv_query-IsSendable net is_net i lt s sound.self c filename sound nameable wanted)
          sound.self knows)

  pub offer-Goes :
      (filename : Bytes) (out : Option MessageId) (s : Peer)
      → IsNameable filename
      → IsSound net c i s
      → Goes net c i s (ok (send_inv_query filename out s).1)
  unfolding send_inv_query create_inv_query_message encode_inv_query
  offer-Goes filename out s nameable sound =
      elim (Bool-cases (leb_ℤ s.replication_factor (pos 1))) [
        | inl few ↦ along-Goes net c i s _ (ok s) (rw few refl) (idle-Goes net c i s sound)
        | inr wanted ↦
            along-Goes net c i s _ _ (rw wanted refl)
              (offer_copy-Goes filename s wanted nameable sound)
      ]

  -- ReplicateFile of a peer that wants two copies or more.
  pub replicate-Goes :
      (filename : Bytes) (out : Option MessageId) (s : Peer)
      → leb_ℤ s.replication_factor (pos 1) ≡ false
      → IsNameable filename
      → IsSound net c i s
      → Goes net c i s (replicate_file filename out s >>= λ p. ok p.1)
  unfolding replicate_file send_inv_query create_inv_query_message encode_inv_query
      set_wait_query_hit
  replicate-Goes filename out s wanted nameable sound = elim (Bool-cases (has_file s filename)) [
    | inr missing ↦ along-Goes net c i s _ (ok s) (rw missing refl) (idle-Goes net c i s sound)
    | inl has ↦ along-Goes net c i s _ _ (rw (has, wanted) refl) (
        then-Goes net c i s _ (λ t. set_wait_query_hit t (next_id s) filename)
          (offer_copy-Goes filename s wanted nameable sound) (λ t. refl)
          (λ c' t covered t_sound. same-IsSound net c' i t _ refl t_sound.honest t_sound))
  ]
