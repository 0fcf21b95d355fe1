-- ===== src/Network/Tests.antt =====
-- A download by way of a relay at concrete inputs.
use p2p_file_sharing_system.Prelude.{◌≡◌, refl, [], ◌∷◌, ◌++◌, arith, pos}
use p2p_file_sharing_system.Result.{ok}
use p2p_file_sharing_system.Text.{codes, bytes_eq}
use p2p_file_sharing_system.Text.Number.{to_string, format}
use p2p_file_sharing_system.Text.Split.{join_string}
use p2p_file_sharing_system.Containers.{lookup, contains}
use p2p_file_sharing_system.Ids.{peer_id_key, message_id_key, get_file_server_port}
use p2p_file_sharing_system.Peer.{Peer, has_file, is_query_cached}
use p2p_file_sharing_system.Peer.Sample.{home}
use p2p_file_sharing_system.Peer.Wire.{header_vec}
use p2p_file_sharing_system.Peer.Operations.Queries.{next_id, own_query_for}
use p2p_file_sharing_system.Peer.Queries.Refinement.{IsWellFormed}
use p2p_file_sharing_system.Peer.Hits.Refinement.{
  IsWellFormed as IsWellFormedHit, encode_hit, hit_vec,
}
use p2p_file_sharing_system.Peer.Hits.Transfer.{request_to}
use p2p_file_sharing_system.Network.{obtain_over}
use p2p_file_sharing_system.Network.Hop.{query_hit}
use p2p_file_sharing_system.Network.Conversation.{Row}
use p2p_file_sharing_system.Network.Obtain.{obtain_over_lem}

-- Peer 2 lies between peer 1, which asks, and peer 3, which has the file.
abbrev between : Peer
between = record home { peer_id = pos 2; peer_id_to_sockfd = (pos 1, 5) ∷ (pos 3, 6) ∷ [] }

abbrev holder : Peer
holder = record home {
  peer_id = pos 3;
  files = codes "theirs" ∷ [];
  peer_id_to_ip = (pos 3, codes "10.0.0.4") ∷ [];
  peer_id_to_sockfd = (pos 2, 9) ∷ [];
}

asked-IsWellFormed : IsWellFormed (own_query_for (codes "theirs") home)
asked-IsWellFormed = record {
  id_fits = record { peer_fits = omega arith; counter_fits = omega arith; time_fits = omega arith };
  ttl_fits = (omega arith, λ e. cc);
  upstream_fits = omega arith;
  named = λ e. cc;
  one_line = omega arith;
}

answer-IsWellFormed :
    IsWellFormedHit (query_hit (next_id home) (pos 3) (codes "10.0.0.4") (codes "theirs"))
answer-IsWellFormed = record {
  type_line = omega arith;
  id_fits = record { peer_fits = omega arith; counter_fits = omega arith; time_fits = omega arith };
  ttl_fits = (omega arith, λ e. cc);
  originator_fits = omega arith;
  lines = (omega arith, (omega arith, tt));
  filled = λ e. cc;
}

row : Row (next_id home) (codes "theirs") (codes "10.0.0.4") holder (pos 1) (between ∷ [])
unfolding lookup contains is_query_cached has_file bytes_eq
row = (
  record {
    idle = record { no_messages = refl; no_broadcasts = refl };
    new = refl;
    lacks = refl;
    up = 5;
    up_socket = refl;
    down = 6;
    down_socket = refl;
    apart = refl;
    foreign = refl;
    fits = omega arith;
  },
  record {
    idle = record { no_messages = refl; no_broadcasts = refl };
    new = refl;
    has = refl;
    own_ip = refl;
    up = 9;
    up_socket = refl;
  },
)

obtain_over_lem_example :
    (t : Peer) × (obtain_over (codes "theirs") home (between ∷ []) holder ≡ ok t)
    × (t.requests
        ≡ home.requests
          ++ request_to
              (query_hit (next_id home) (pos 3) (codes "10.0.0.4") (codes "theirs"))
              (pos 3003)
              (codes "theirs")
            ∷ [])
unfolding lookup get_file_server_port encode_hit hit_vec header_vec join_string to_string format
obtain_over_lem_example =
    obtain_over_lem (codes "theirs") (codes "10.0.0.4") home (between ∷ []) holder (pos 3003) 8
      (record { no_messages = refl; no_broadcasts = refl }) asked-IsWellFormed (omega arith)
      (omega arith) (omega arith) row refl refl answer-IsWellFormed (omega arith) (omega arith) refl
      refl tt
