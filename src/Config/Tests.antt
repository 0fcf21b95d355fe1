-- ===== src/Config/Tests.antt =====
-- The configuration of a peer at concrete inputs.
use p2p_file_sharing_system.Prelude.{ℕ, ◌≡◌, refl, ◌||◌, some, List, [], ◌∷◌, map, arith, pos}
use p2p_file_sharing_system.Result.{ok, fault, index_out_of_range}
use p2p_file_sharing_system.Text.{codes, bytes_eq}
use p2p_file_sharing_system.Text.Number.{stoi, to_string}
use p2p_file_sharing_system.Text.Split.{split_string, join_string}
use p2p_file_sharing_system.Containers.{contains}
use p2p_file_sharing_system.Ids.{peer_id_key}
use p2p_file_sharing_system.Peer.{Peer}
use p2p_file_sharing_system.Peer.Sample.{home}
use p2p_file_sharing_system.Config.{load_topology, load_settings}
use p2p_file_sharing_system.Config.Neighbours.{
  topology_line, neighbours_of, names, load_topology_lem,
}

abbrev mesh : List (ℕ × List ℕ)
mesh = (0, 1 ∷ 4 ∷ []) ∷ (1, 0 ∷ 2 ∷ 5 ∷ []) ∷ []

second_line : topology_line (1, 0 ∷ 2 ∷ 5 ∷ []) ≡ codes "1: 0 2 5"
unfolding topology_line join_string to_string
second_line = refl

load_topology_lem_example :
    (t : Peer) × (load_topology (some (map topology_line mesh)) home ≡ ok t)
    × (contains (pos 5) t.peer_id_to_ip
        ≡ (contains (pos 5) home.peer_id_to_ip || names (pos 5) (neighbours_of home.peer_id mesh)))
load_topology_lem_example =
    load_topology_lem mesh home (pos 5)
      ((omega arith, omega arith, λ e. cc), ((omega arith, omega arith, λ e. cc), tt)) (λ e. cc)

settings :
    load_settings (some (codes "server_ip 10.0.2.7" ∷ codes "replication_factor 1" ∷ [])) home
    ≡ ok (record home { register_server_ip = codes "10.0.2.7"; replication_factor = pos 1 })
unfolding load_settings split_string bytes_eq stoi
settings = refl

-- An empty line has no first part.
empty_line : load_settings (some ([] ∷ [])) home ≡ fault index_out_of_range
unfolding load_settings split_string
empty_line = refl
