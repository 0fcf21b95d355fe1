-- ===== src/Commands/Tests.antt =====
-- Commands of the user at concrete inputs.
use p2p_file_sharing_system.Prelude.{
  ◌≡◌, refl, false, none, some, [], ◌∷◌, ◌++◌, arith, ltb, if◌then◌else◌, pos, length, take, drop,
}
use p2p_file_sharing_system.Result.{ok, fault, index_out_of_range, ◌>>=◌}
use p2p_file_sharing_system.Text.{Bytes, codes, space, newline, bytes_eq}
use p2p_file_sharing_system.Containers.{lookup, contains}
use p2p_file_sharing_system.Ids.{
  message_id_key, get_file_server_port, peer_msg_query_hit, own_query,
}
use p2p_file_sharing_system.Peer.{Peer, has_file, is_query_cached}
use p2p_file_sharing_system.Peer.Queries.{handle_query}
use p2p_file_sharing_system.Peer.Sample.{home}
use p2p_file_sharing_system.Peer.Hits.{handle_query_hit}
use p2p_file_sharing_system.Peer.Hits.Refinement.{Hit, encode_hit}
use p2p_file_sharing_system.Peer.Hits.Transfer.{request_to}
use p2p_file_sharing_system.Peer.Operations.Queries.{next_id}
use p2p_file_sharing_system.Register.{cut, cut_at}
use p2p_file_sharing_system.Commands.{
  Console, choose, execute, read_command, user_command_size, run_command, is_valid_user_command,
}
use p2p_file_sharing_system.Commands.Reading.{read_command_lem}
use p2p_file_sharing_system.Commands.Choice.{run_command_lem}
use p2p_file_sharing_system.Commands.EmptyName.{empty_query_faults}
use p2p_file_sharing_system.Commands.Hijack.{replicate_hijacks_obtain}

abbrev console : Console
console = record {
  peer = record home { replication_factor = pos 1 };
  message_id = none;
  con_test_query_max_peer = pos 9;
}

abbrev neighbour : Peer
neighbour = record home { peer_id = pos 2; peer_id_to_sockfd = (pos 1, 5) ∷ [] }

read_command_lem_example : read_command (codes "query mine" ++ newline ∷ codes "help") ≡ (
    if ltb (length (codes "query mine")) user_command_size
    then (codes "query mine", codes "help")
    else (
      take user_command_size (codes "query mine"),
      drop user_command_size (codes "query mine") ++ newline ∷ codes "help",
    ))
read_command_lem_example =
    read_command_lem (codes "query mine") (codes "help") (omega arith) (omega arith)

run_command_lem_example :
    run_command (codes "query mine") console ≡ elim (choose (cut_at space (codes "query mine")).0) [
      | none ↦ ok console
      | some branch ↦ execute branch (cut_at space (codes "query mine")).1 console
    ]
run_command_lem_example = run_command_lem (codes "query mine") console

abbrev answer : Hit
answer = record {
  msg_type = peer_msg_query_hit;
  id = next_id console.peer;
  ttl = pos 5;
  originator = pos 2;
  ip = codes "10.0.0.3";
  rest = codes "theirs" ∷ [];
}

replicate_hijacks_obtain_example :
    (d : Console) × (t : Peer) × ((run_command (codes "obtain" ++ space ∷ codes "theirs") console
        >>= run_command (codes "replicate" ++ space ∷ codes "mine"))
      ≡ ok d)
    × (handle_query_hit (encode_hit answer) d.peer ≡ ok t)
    × (t.requests ≡ console.peer.requests ++ request_to answer (pos 3002) (codes "mine") ∷ [])
unfolding lookup get_file_server_port has_file bytes_eq
replicate_hijacks_obtain_example =
    replicate_hijacks_obtain (codes "theirs") (codes "mine") console answer (pos 3002)
      (record {
        type_line = omega arith;
        id_fits = omega arith;
        ttl_fits = (omega arith, λ e. cc);
        originator_fits = omega arith;
        lines = omega arith;
        filled = λ e. cc;
      })
      refl refl refl refl tt refl (omega arith)

-- A word that only begins like a command is none.
no_command : is_valid_user_command (codes "querys mine") ≡ false
unfolding is_valid_user_command cut_at bytes_eq cut
no_command = refl

empty_query_faults_example :
    (d : Console) × (message : Bytes) × (run_command (codes "query ") console ≡ ok d)
    × (d.peer.broadcast_queue ≡ console.peer.broadcast_queue ++ (message, own_query) ∷ [])
    × (handle_query message neighbour ≡ fault index_out_of_range)
unfolding is_query_cached contains
empty_query_faults_example =
    empty_query_faults console neighbour
      (record { peer_fits = omega arith; counter_fits = omega arith; time_fits = omega arith })
      (omega arith) refl
