-- ===== src/Startup/Sockets.antt =====
-- The connections of ConnectToPeers (src/peer_client.cpp) where every peer that is called answers.
use p2p_file_sharing_system.Prelude.{
  ℕ, ◌≡◌, refl, true, false, ◌||◌, ◌&&◌, not, Option, some, List, [], ◌∷◌, arith, Bool-cases, ◌⊎◌,
  inl, inr, ℤ, eq_ℤ, All,
}
use p2p_file_sharing_system.Result.{ok}
use p2p_file_sharing_system.Text.{Bytes}
use p2p_file_sharing_system.Containers.{insert, contains, lookup}
use p2p_file_sharing_system.Containers.Laws.{
  Distinct, contains-insert, contains-lookup, contains_congr,
}
use p2p_file_sharing_system.Ids.{PeerId, peer_id_key, get_peer_server_port}
use p2p_file_sharing_system.Peer.{Peer}
use p2p_file_sharing_system.Register.{connect_to_peers}

-- At this address, and at the port of the peer, a connection is made.
abbrev pub Answers : (PeerId → Bytes → ℤ → Option ℕ) → PeerId → Bytes → Type 0
Answers connect id ip =
    (port : ℤ) × (get_peer_server_port id ≡ ok port) × (fd : ℕ) × (connect id ip port ≡ some fd)

-- The peer that calls is skipped, and any other answers.
abbrev pub Callable : (PeerId → Bytes → ℤ → Option ℕ) → PeerId → PeerId → Bytes → Type 0
Callable connect self id ip = (eq_ℤ id self ≡ true) ⊎ Answers connect id ip

-- A peer with other sockets.
abbrev pub with_sockets : Peer → List (PeerId × ℕ) → Peer
with_sockets s m = record s { peer_id_to_sockfd = m }

module _ (connect : PeerId → Bytes → ℤ → Option ℕ) where
  answering :
      (id self : PeerId) (ip : Bytes)
      → eq_ℤ id self ≡ false
      → Callable connect self id ip
      → Answers connect id ip
  answering id self ip other (inl same) = absurd (ground arith)
  answering id self ip other (inr a) = a

  pub connect_to_peers-sockets :
      (m : List (PeerId × Bytes)) (s : Peer)
      → All (λ (p : PeerId × Bytes). Callable connect s.peer_id p.0 p.1) m
      → (sockets : List (PeerId × ℕ)) × (connect_to_peers connect m s ≡ ok (with_sockets s sockets))
        × ((j : PeerId)
            → contains j sockets
              ≡ (contains j s.peer_id_to_sockfd || contains j m && not (eq_ℤ j s.peer_id)))
  unfolding connect_to_peers contains
  connect_to_peers-sockets [] s h = (s.peer_id_to_sockfd, refl, λ j. ground arith)
  connect_to_peers-sockets ((id, ip) ∷ m) s (callable, h) = elim (Bool-cases (eq_ℤ id s.peer_id)) [
    | inl self ↦
        let (sockets, made, which) = connect_to_peers-sockets m s h in
        (sockets, rw self made, λ j. ground (arith, which j))
    | inr other ↦
        let (port, port_is, fd, called) = answering id s.peer_id ip other callable in
        let s' = with_sockets s (insert id fd s.peer_id_to_sockfd) in
        let (sockets, made, which) = connect_to_peers-sockets m s' h in
        (
          sockets,
          rw (other, port_is, called) made,
          λ j. ground (arith, which j, contains-insert id j fd s.peer_id_to_sockfd),
        )
  ]

-- What holds of whatever is found in a map holds of its entries.
pub All-lookup :
    (P : PeerId → Bytes → Type 0) (m : List (PeerId × Bytes))
    → Distinct m
    → ((j : PeerId) (ip : Bytes) → lookup j m ≡ some ip → P j ip)
    → All (λ (p : PeerId × Bytes). P p.0 p.1) m
unfolding lookup
All-lookup P [] d h = tt
All-lookup P ((k, v) ∷ m) (new, d) h = (
  h k v (ground arith),
  All-lookup P m d (λ j ip found.
      h j ip (ground (arith, contains-lookup j m, contains_congr k j m, found, new))),
)
