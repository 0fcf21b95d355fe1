-- ===== src/Network/World/Pair.antt =====
-- Two peers of src/peer_client.cpp that are neighbours and have done nothing else, for the runs of the test
-- module.
use p2p_file_sharing_system.Prelude.{
  ℕ, zero, suc, ◌<◌, ◌≡◌, refl, some, List, [], ◌∷◌, arith, pos, eq_ℤ_iff,
}
use p2p_file_sharing_system.Text.{codes}
use p2p_file_sharing_system.Containers.{lookup}
use p2p_file_sharing_system.Ids.{PeerId, peer_id_key}
use p2p_file_sharing_system.Peer.Sample.{home}
use p2p_file_sharing_system.Network.World.{World, Net, IsNet, IsFresh}

abbrev pub sockets : ℕ → List (PeerId × ℕ)
sockets zero = (pos 1, 5) ∷ []
sockets (suc zero) = (pos 0, 6) ∷ []
sockets (suc (suc n)) = []

abbrev pub pair : Net
pair = record { size = 2; sockets = sockets; ips = λ i. codes "10.0.0.1" }

pair_mutual :
    (i : ℕ) (j : PeerId) (fd : ℕ)
    → lookup j (sockets i) ≡ some fd
    → (n : ℕ) × (fd' : ℕ) × (j ≡ pos n) × (lookup (pos i) (sockets n) ≡ some fd')
unfolding lookup
pair_mutual zero j fd h = (1, 6, ground (arith, eq_ℤ_iff (pos 1) j), refl)
pair_mutual (suc zero) j fd h = (0, 5, ground (arith, eq_ℤ_iff (pos 0) j), refl)
pair_mutual (suc (suc n)) j fd h = absurd (cc)

pair_apart :
    (i n k fd : ℕ)
    → lookup (pos n) (sockets i) ≡ some fd
    → lookup (pos k) (sockets i) ≡ some fd
    → n ≡ k
unfolding lookup
pair_apart zero n k fd h h' = ground arith
pair_apart (suc zero) n k fd h h' = ground arith
pair_apart (suc (suc i)) n k fd h h' = absurd (cc)

pub pair-IsNet : IsNet pair
pair-IsNet = record {
  bounded = omega arith;
  mutual_sockets = pair_mutual;
  apart = pair_apart;
  ip_line = λ i. omega arith;
  ip_zero_free = λ i. omega arith;
  ip_filled = λ i e. cc;
  ip_short = λ i. omega arith;
}

abbrev pub peer_at : World
peer_at i = record home {
  peer_id = pos i;
  peer_id_to_ip = (pos i, codes "10.0.0.1") ∷ [];
  peer_id_to_sockfd = sockets i;
  clock = λ n. pos 1700000000;
}

pub peer_at-IsFresh : (i : ℕ) → i < 2 → IsFresh pair i (peer_at i)
unfolding lookup
peer_at-IsFresh i h = record {
  self = refl;
  wired = refl;
  addressed = ground arith;
  timed = λ n. omega arith;
  counted = omega arith;
  factored = omega arith;
  no_queries = refl;
  no_messages = refl;
  no_broadcasts = refl;
  none_sent = refl;
  no_results = refl;
  no_requests = refl;
}
