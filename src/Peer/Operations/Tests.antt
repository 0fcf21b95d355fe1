-- ===== src/Peer/Operations/Tests.antt =====
-- An answer that comes early, at concrete inputs.
use p2p_file_sharing_system.Prelude.{◌≡◌, refl, some, [], ◌∷◌, arith, pos}
use p2p_file_sharing_system.Result.{ok}
use p2p_file_sharing_system.Text.{codes}
use p2p_file_sharing_system.Containers.{lookup}
use p2p_file_sharing_system.Ids.{message_id_key, get_file_server_port, peer_msg_query_hit}
use p2p_file_sharing_system.Peer.{Peer, set_wait_query_hit}
use p2p_file_sharing_system.Peer.Sample.{home}
use p2p_file_sharing_system.Peer.Hits.{handle_query_hit}
use p2p_file_sharing_system.Peer.Hits.Refinement.{Hit, IsWellFormed, encode_hit}
use p2p_file_sharing_system.Peer.Operations.{send_query, obtain_file}
use p2p_file_sharing_system.Peer.Operations.Queries.{next_id}
use p2p_file_sharing_system.Peer.Operations.Race.{early_answer_starts_nothing}

abbrev early : Hit
early = record {
  msg_type = peer_msg_query_hit;
  id = next_id home;
  ttl = pos 5;
  originator = pos 2;
  ip = codes "10.0.0.3";
  rest = codes "theirs" ∷ [];
}

early-IsWellFormed : IsWellFormed early
early-IsWellFormed = record {
  type_line = omega arith;
  id_fits = omega arith;
  ttl_fits = (omega arith, λ e. cc);
  originator_fits = omega arith;
  lines = omega arith;
  filled = λ e. cc;
}

early_answer_starts_nothing_example :
    ((obtain_file (codes "theirs") home).1
      ≡ set_wait_query_hit (send_query (codes "theirs") home).1 (next_id home) (codes "theirs"))
    × (t : Peer) × (handle_query_hit (encode_hit early) (send_query (codes "theirs") home).1 ≡ ok t)
    × ((set_wait_query_hit t (next_id home) (codes "theirs")).requests ≡ home.requests)
    × (lookup (next_id home) (set_wait_query_hit t (next_id home) (codes "theirs")).wait_queryhit
        ≡ some (codes "theirs"))
unfolding lookup get_file_server_port
early_answer_starts_nothing_example =
    early_answer_starts_nothing (codes "theirs") home early (pos 3002) early-IsWellFormed refl refl
      refl
