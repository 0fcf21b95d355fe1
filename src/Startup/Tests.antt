-- ===== src/Startup/Tests.antt =====
-- The start of a peer at concrete inputs.
use p2p_file_sharing_system.Prelude.{
  ℕ, ◌≡◌, ltb, length, if◌then◌else◌, refl, Bool, true, false, ◌&&◌, not, Option, some, none, List,
  [], ◌∷◌, map, arith, ℤ, pos, eq_ℤ,
}
use p2p_file_sharing_system.Result.{ok, fault, buffer_overflow, null_pointer}
use p2p_file_sharing_system.Text.{Bytes, codes, bytes_eq}
use p2p_file_sharing_system.Text.Number.{stoi, to_string}
use p2p_file_sharing_system.Text.Split.{split_string}
use p2p_file_sharing_system.Containers.{contains, lookup}
use p2p_file_sharing_system.Containers.Laws.{Distinct}
use p2p_file_sharing_system.Ids.{PeerId, msg_buf_size, peer_id_key, get_peer_server_port}
use p2p_file_sharing_system.Peer.{Peer}
use p2p_file_sharing_system.Peer.Sample.{home}
use p2p_file_sharing_system.Register.{atoi, all_peers_response, handle_register_response}
use p2p_file_sharing_system.Config.{load_settings}
use p2p_file_sharing_system.Config.Neighbours.{topology_line, neighbours_of, names}
use p2p_file_sharing_system.Startup.{
  settings_file, topology_file_name, read_arguments, run_start, register_with,
}
use p2p_file_sharing_system.Startup.Response.{register_with_lem}
use p2p_file_sharing_system.Startup.Ready.{run_start_lem, Listed}

abbrev alone : Peer
alone = record home { peer_id_to_ip = []; peer_id_to_sockfd = [] }

abbrev seventh_socket : PeerId → Bytes → ℤ → Option ℕ
seventh_socket id ip port = some 7

-- Connections are made to two addresses only.
abbrev some_listen : PeerId → Bytes → ℤ → Option ℕ
unfolding bytes_eq
some_listen id ip port =
    if bytes_eq ip (codes "10.0.0.7")
    then some 7
    else if bytes_eq ip (codes "10.0.0.8")
    then some 8
    else none

abbrev mesh : List (ℕ × List ℕ)
mesh = (0, 1 ∷ 4 ∷ []) ∷ (1, 0 ∷ 2 ∷ []) ∷ []

abbrev settings : List Bytes
settings = codes "replication_factor 1" ∷ []

abbrev shared : List (Bool × Bytes)
shared = (true, codes "received1") ∷ (false, codes "1.bin") ∷ []

abbrev peers : List (PeerId × Bytes)
peers = (pos 0, codes "10.0.0.7") ∷ (pos 2, codes "10.0.0.8") ∷ []

abbrev lines_of : Bytes → Option (List Bytes)
lines_of name = if bytes_eq name settings_file then some settings else some (map topology_line mesh)

settings_read :
    load_settings (lines_of settings_file) alone ≡ ok (record alone { replication_factor = pos 1 })
unfolding load_settings split_string bytes_eq stoi
settings_read = refl

answer_0 : Listed some_listen peers (pos 0)
unfolding get_peer_server_port lookup bytes_eq
answer_0 = (codes "10.0.0.7", refl, (_, refl, 7, refl))

answer_2 : Listed some_listen peers (pos 2)
unfolding get_peer_server_port lookup bytes_eq
answer_2 = (codes "10.0.0.8", refl, (_, refl, 8, refl))

distinct : Distinct peers
unfolding contains lookup
distinct = (refl, (refl, tt))

run_start_lem_example :
    (t : Peer) × (run_start some_listen
        (record {
          lines_of = lines_of;
          shared = shared;
          registration = record {
            connected = true;
            sent = pos 1024;
            arrived = some (all_peers_response peers);
          };
        })
        (pos 2)
        alone
      ≡ ok t)
    × (contains (pos 2) t.peer_id_to_sockfd
        ≡ (names (pos 2) (neighbours_of alone.peer_id mesh) && not (eq_ℤ (pos 2) alone.peer_id)))
unfolding all_peers_response to_string topology_file_name bytes_eq
run_start_lem_example =
    run_start_lem some_listen lines_of (pos 2) (codes "top_mesh_2d.config") mesh shared peers alone
      (record alone { replication_factor = pos 1 }) 1024 (pos 2) settings_read refl refl refl refl
      ((omega arith, omega arith, λ e. cc), ((omega arith, omega arith, λ e. cc), tt)) (λ e. cc)
      ((omega arith, omega arith), ((omega arith, omega arith), tt)) distinct
      (answer_0, (answer_2, tt)) (omega arith) (omega arith)

register_with_lem_example :
    register_with seventh_socket
      (record { connected = true; sent = pos 1024; arrived = some (all_peers_response peers) })
      home
    ≡ (if ltb (length (all_peers_response peers)) msg_buf_size
        then handle_register_response seventh_socket (all_peers_response peers) home
        else fault buffer_overflow)
unfolding all_peers_response to_string
register_with_lem_example =
    register_with_lem seventh_socket 1024 (all_peers_response peers) home (omega arith)

-- With the topology alone the number of the peer is read through a null pointer.
no_peer : read_arguments (codes "2" ∷ []) ≡ fault null_pointer
unfolding read_arguments atoi stoi
no_peer = refl
