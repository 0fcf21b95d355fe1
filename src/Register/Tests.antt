-- ===== src/Register/Tests.antt =====
-- The registration of two peers at concrete inputs.
use p2p_file_sharing_system.Prelude.{
  ℕ, ◌≤◌, ◌≡◌, refl, true, Option, none, some, List, [], ◌∷◌, arith, ◌==◌, if◌then◌else◌, ℤ, pos,
  length,
}
use p2p_file_sharing_system.Result.{ok}
use p2p_file_sharing_system.Text.{Bytes, codes, bytes_eq}
use p2p_file_sharing_system.Text.Number.{stoi, to_string}
use p2p_file_sharing_system.Containers.{lookup, insert, contains}
use p2p_file_sharing_system.Ids.{PeerId, peer_id_key}
use p2p_file_sharing_system.Peer.{Peer}
use p2p_file_sharing_system.Peer.Sample.{home}
use p2p_file_sharing_system.Register.{
  RegisterServer, respond, all_peers_response, connect_to_peers, handle_register_response, atoi,
  create_register_message, register, enter, cut, is_keep_running,
}
use p2p_file_sharing_system.Register.Stop.{
  Reach, initially, step, registers, responds, start, stops_when_all_registered,
}
use p2p_file_sharing_system.Register.RoundTrip.{learned, handle_register_response_lem}
use p2p_file_sharing_system.Register.Everyone.{register_all, registered, register_all_lem}

abbrev peers : List (PeerId × Bytes)
peers = (pos 0, codes "10.0.0.7") ∷ (pos 5, codes "10.0.0.8") ∷ []

abbrev seventh_socket : PeerId → Bytes → ℤ → Option ℕ
seventh_socket id ip port = some 7

handle_register_response_lem_example :
    (t : Peer) × (handle_register_response seventh_socket (all_peers_response peers) home
      ≡ connect_to_peers seventh_socket t.peer_id_to_ip t)
    × (lookup (pos 0) t.peer_id_to_ip ≡ learned home peers (pos 0))
unfolding contains
handle_register_response_lem_example =
    handle_register_response_lem seventh_socket peers home (pos 0)
      ((omega arith, omega arith), ((omega arith, omega arith), tt)) (refl, (refl, tt))

register_all_lem_example :
    (s : RegisterServer) × (register_all peers (registered 2 []) ≡ ok s)
    × (s.client_info ≡ peers)
    × (respond s ≡ (
        if length peers == 2
        then some (all_peers_response peers, record s { thread_exit_count = 1 })
        else none))
unfolding contains
register_all_lem_example =
    register_all_lem 2 peers (omega arith) (omega arith) (omega arith, (omega arith, tt))
      (refl, (refl, tt))

no_number : atoi (codes "peer") ≡ ok (pos 0)
unfolding atoi stoi
no_number = refl

-- One peer, which has registered, and has been sent the response.
abbrev one_left : RegisterServer
one_left = record {
  num_of_peers = pos 1;
  all_peers_registered = true;
  client_info = (pos 0, codes "10.0.0.7") ∷ [];
  thread_exit_count = 1;
}

one_left-Reach : Reach 1 one_left
unfolding create_register_message register enter cut insert respond bytes_eq atoi stoi to_string
one_left-Reach =
    step
      (step initially (
        registers (create_register_message (pos 0)) (codes "10.0.0.7") (start 1)
          (record one_left { thread_exit_count = 0 }) refl))
      (responds (all_peers_response one_left.client_info)
        (record one_left { thread_exit_count = 0 }) one_left refl)

stops_when_all_registered_example :
    (one_left.all_peers_registered ≡ true)
    × (1 ≤ length one_left.client_info)
    × (1 ≤ one_left.thread_exit_count)
unfolding is_keep_running
stops_when_all_registered_example =
    stops_when_all_registered 1 one_left one_left-Reach (omega arith) refl
