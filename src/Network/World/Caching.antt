-- ===== src/Network/World/Caching.antt =====
-- A query that a peer of a network caches, and the hit that goes to the peer that the query came from:
-- CacheQuery and RelayQueryHit of src/peer_client.cpp.
use mathlib.Core.Path.{subst}
use p2p_file_sharing_system.Prelude.{
  ℕ, ◌≡◌, refl, sym, ◌∙◌, Bool-cases, inl, inr, some, [], ◌∷◌, ◌++◌, arith, pos, All-append,
}
use p2p_file_sharing_system.Result.{Result}
use p2p_file_sharing_system.Text.{Bytes}
use p2p_file_sharing_system.Containers.{lookup, insert}
use p2p_file_sharing_system.Containers.Laws.{lookup-insert, contains-insert}
use p2p_file_sharing_system.Ids.{
  PeerId, MessageId, message_id_key, peer_id_key, same_id, same_id_refl,
}
use p2p_file_sharing_system.Peer.{Peer, relay_query_hit}
use p2p_file_sharing_system.Peer.Hits.Refinement.{Hit, encode_hit}
use p2p_file_sharing_system.Network.Hop.{relay_query_hit-known}
use p2p_file_sharing_system.Network.World.{Net, IsNet}
use p2p_file_sharing_system.Network.World.Invariant.{
  Caches, Knows, Origin, Origin.from, Comes, Comes.hit, Sent, IsSound, IsSendableHit, IsSound-Grows,
  Origin-congr,
}
use p2p_file_sharing_system.Network.World.Goes.{Goes, onward-Goes}

module _ (net : Net) (c : Caches) (i : ℕ) where
  cached-Origin :
      (id j : MessageId) (up u : PeerId) (s : Peer)
      → IsSound net c i s
      → Origin net c i id up
      → lookup j (insert id up s.queries) ≡ some u
      → Origin net c i j u
  cached-Origin id j up u s sound origin found = elim (Bool-cases (same_id id j)) [
    | inl e ↦
        let met : some up ≡ some u = sym (lookup-insert id j up s.queries ∙ rw e refl) ∙ found in
        Origin-congr net c i id j up u e (cc) origin
    | inr e ↦ sound.known j u (sym (lookup-insert id j up s.queries ∙ rw e refl) ∙ found)
  ]

  -- A query that is cached.
  pub cached-IsSound :
      (id : MessageId) (up : PeerId) (s : Peer)
      → IsSound net c i s
      → Origin net c i id up
      → IsSound net c i (record s { queries = insert id up s.queries })
  cached-IsSound id up s sound origin = record {
    self = sound.self;
    wired = sound.wired;
    addressed = sound.addressed;
    timed = sound.timed;
    counted = sound.counted;
    factored = sound.factored;
    honest = sound.honest;
    known = λ j u found. cached-Origin id j up u s sound origin found;
    inbox = sound.inbox;
    outbox = sound.outbox;
    wire = sound.wire;
  }

  sent-IsSound :
      (fd : ℕ) (b : Bytes) (s : Peer)
      → IsSound net c i s
      → Sent net c i fd b
      → IsSound net c i (record s { sent = s.sent ++ (fd, b) ∷ [] })
  sent-IsSound fd b s sound e = record {
    self = sound.self;
    wired = sound.wired;
    addressed = sound.addressed;
    timed = sound.timed;
    counted = sound.counted;
    factored = sound.factored;
    honest = sound.honest;
    known = sound.known;
    inbox = sound.inbox;
    outbox = sound.outbox;
    wire = All-append _ s.sent ((fd, b) ∷ []) sound.wire (e, tt);
  }

  -- A hit goes to the neighbour that the query came from, which knows the query.
  pub relay_hit-Goes :
      (h : Hit) (up : PeerId) (n fd : ℕ) (s : Peer)
      → IsNet net
      → IsSound net c i s
      → IsSendableHit net h
      → lookup h.id s.queries ≡ some up
      → up ≡ pos n
      → lookup up (net.sockets i) ≡ some fd
      → Knows c n h.id
      → Goes net c i s (relay_query_hit s (encode_hit h) h.id)
  relay_hit-Goes h up n fd s is_net sound sendable cached e socket knows =
      let b = sendable.buffer in
      let socket' = subst (λ u. lookup u (net.sockets i) ≡ some fd) e socket in
      let comes : (k : ℕ)
          → lookup (pos k) (net.sockets i) ≡ some fd
          → Comes net c k (encode_hit h) =
        λ k other.
          subst (λ j. Comes net c j (encode_hit h)) (is_net.apart i n k fd socket' other)
            (hit h refl sendable knows) in
      let sent : Sent net c i fd b = record {
        message = encode_hit h;
        through = sendable.through;
        comes = comes;
      } in
      record {
        after = record s { sent = s.sent ++ (fd, b) ∷ [] };
        runs =
            relay_query_hit-known (encode_hit h) b h.id up fd s sendable.through.filled cached
              (rw sound.wired socket);
        keeps = λ j e. e;
        sound =
            λ c' grows covered. IsSound-Grows net c c' grows i _ (sent-IsSound fd b s sound sent);
      }

  -- A query that is new is cached before anything else is done with it.
  pub once-Goes :
      (id : MessageId) (up : PeerId) (n fd : ℕ) (s : Peer) (f : Peer → Result Peer)
      → IsSound net c i s
      → up ≡ pos n
      → lookup up (net.sockets i) ≡ some fd
      → Knows c n id
      → ((u : Peer) → IsSound net c i u → lookup id u.queries ≡ some up → Goes net c i u (f u))
      → Goes net c i s (f (record s { queries = insert id up s.queries }))
  once-Goes id up n fd s f sound e socket knows next =
      let u : Peer = record s { queries = insert id up s.queries } in
      onward-Goes net c i s u (f u) (λ j h. contains-insert id j up s.queries ∙ ground (arith, h))
        (next u (cached-IsSound id up s sound (from n fd e socket knows))
          (lookup-insert id id up s.queries ∙ rw (same_id_refl id) refl))
