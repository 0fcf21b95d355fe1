-- ===== src/Network/Sockets.antt =====
-- What a neighbour gets of the buffers that src/peer_client.cpp sends.
use p2p_file_sharing_system.Prelude.{
  ℕ, ◌≡◌, refl, false, ◌⊎◌, inl, none, some, List, [], ◌∷◌, ◌++◌, map, arith, eq_ℤ, eq_ℤ_iff,
}
use p2p_file_sharing_system.Result.{ok}
use p2p_file_sharing_system.Text.{Bytes}
use p2p_file_sharing_system.Containers.{lookup}
use p2p_file_sharing_system.Ids.{PeerId, message_id_key, peer_id_key}
use p2p_file_sharing_system.Peer.{Peer}
use p2p_file_sharing_system.Peer.Threads.Broadcast.{others}
use p2p_file_sharing_system.Network.{sent_on, to_peer}

-- What was sent last, after what was sent before.
pub sent_on-append :
    (fd : ℕ) (b : Bytes) (xs ys : List (ℕ × Bytes))
    → sent_on fd ys ≡ some b
    → sent_on fd (xs ++ ys) ≡ some b
unfolding sent_on
sent_on-append fd b [] ys h = h
sent_on-append fd b ((g, a) ∷ xs) ys h = rw (sent_on-append fd b xs ys h) refl

pub sent_on-one : (fd : ℕ) (b : Bytes) → sent_on fd ((fd, b) ∷ []) ≡ some b
unfolding sent_on
sent_on-one fd b = ground arith

-- One buffer on every socket of a list.
sent_on-all :
    (fd : ℕ) (b : Bytes) (fds : List ℕ)
    → (sent_on fd (map (λ f. (f, b)) fds) ≡ none) ⊎ (sent_on fd (map (λ f. (f, b)) fds) ≡ some b)
unfolding sent_on
sent_on-all fd b [] = inl refl
sent_on-all fd b (g ∷ fds) = ground (arith, sent_on-all fd b fds)

pub sent_on-others :
    (id up : PeerId) (fd : ℕ) (b : Bytes) (sockets : List (PeerId × ℕ))
    → lookup id sockets ≡ some fd
    → eq_ℤ up id ≡ false
    → sent_on fd (map (λ f. (f, b)) (others up sockets)) ≡ some b
unfolding sent_on lookup
sent_on-others id up fd b [] h apart = cc
sent_on-others id up fd b ((peer, g) ∷ sockets) h apart = ground (
  arith,
  sent_on-others id up fd b sockets,
  sent_on-all fd b (others up sockets),
  eq_ℤ_iff peer id,
)

pub to_peer-sent :
    (id : PeerId) (fd : ℕ) (b : Bytes) (s : Peer)
    → lookup id s.peer_id_to_sockfd ≡ some fd
    → sent_on fd s.sent ≡ some b
    → to_peer id s ≡ ok b
unfolding to_peer
to_peer-sent id fd b s socket sent = rw (socket, sent) refl
