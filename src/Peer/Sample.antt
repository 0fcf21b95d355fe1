-- ===== src/Peer/Sample.antt =====
-- A peer of src/peer_client.h with two neighbours and a file, for the runs of the test modules.
use p2p_file_sharing_system.Prelude.{◌+◌, ◌∷◌, [], false, pos}
use p2p_file_sharing_system.Text.{codes}
use p2p_file_sharing_system.Peer.{Peer}

abbrev pub home : Peer
home = record {
  peer_id = pos 1;
  replication_factor = pos 3;
  register_server_ip = codes "10.0.2.9";
  ensure_queryhit_file = codes "1_small_file_1.bin";
  large_file_name = codes "1_large_file_1.bin";
  peer_id_to_ip = (pos 0, codes "10.0.0.1") ∷ (pos 1, codes "10.0.0.2") ∷ [];
  peer_id_to_sockfd = (pos 0, 7) ∷ (pos 2, 8) ∷ [];
  msg_id_counter = 4;
  query_hit_result = [];
  files = codes "mine" ∷ [];
  file_info_dirty = false;
  queries = [];
  wait_queryhit = [];
  replicate_query_filename = [];
  broadcast_queue = [];
  messages_queue = [];
  requests = [];
  sent = [];
  clock = λ n. pos (1000 + n);
  reads = 0;
}
