-- ===== src/Peer/Crowd.antt =====
-- A peer with as many cached queries as MantainQueryMapSize waits for.
use p2p_file_sharing_system.Prelude.{
  ℕ, zero, suc, ◌+◌, ◌≤◌, ◌≡◌, refl, false, List, [], ◌∷◌, arith, ℤ, pos, length, ltb,
  if◌then◌else◌,
}
use p2p_file_sharing_system.Result.{ok}
use p2p_file_sharing_system.Text.{codes}
use p2p_file_sharing_system.Containers.{contains}
use p2p_file_sharing_system.Containers.Laws.{Distinct}
use p2p_file_sharing_system.Containers.Sweep.{keep_entries}
use p2p_file_sharing_system.Ids.{PeerId, MessageId, message_id_key, own_query}
use p2p_file_sharing_system.Peer.{Peer}
use p2p_file_sharing_system.Peer.Threads.{mantain_query_map_size, time_out_ms}
use p2p_file_sharing_system.Peer.Threads.Maintain.{mantain_query_map_size_lem, is_over, AllTimed}

crowd : ℕ → List (MessageId × PeerId)
crowd zero = []
crowd (suc n) = (record { peer_id = pos 1; msg_id = n; timestamp = pos n }, own_query) ∷ crowd n

crowd_below :
    (n k : ℕ) (t : ℤ)
    → n ≤ k
    → contains (record { peer_id = pos 1; msg_id = k; timestamp = t }) (crowd n) ≡ false
unfolding crowd contains
crowd_below zero k t h = refl
crowd_below (suc n) k t h = ground (arith, crowd_below n k t)

crowd-Distinct : (n : ℕ) → Distinct (crowd n)
unfolding crowd
crowd-Distinct zero = tt
crowd-Distinct (suc n) = (crowd_below n n (pos n) (omega arith), crowd-Distinct n)

crowd-AllTimed : (n : ℕ) → n ≤ time_out_ms → AllTimed (pos 150000) (crowd n)
unfolding crowd
crowd-AllTimed zero h = tt
crowd-AllTimed (suc n) h = (ground arith, crowd-AllTimed n (omega (arith, h)))

crowded : Peer
crowded = record {
  peer_id = pos 1;
  replication_factor = pos 1;
  register_server_ip = codes "10.0.2.9";
  ensure_queryhit_file = codes "1_small_file_1.bin";
  large_file_name = codes "1_large_file_1.bin";
  peer_id_to_ip = [];
  peer_id_to_sockfd = (pos 0, 7) ∷ [];
  msg_id_counter = time_out_ms;
  query_hit_result = [];
  files = [];
  file_info_dirty = false;
  queries = crowd time_out_ms;
  wait_queryhit = [];
  replicate_query_filename = [];
  broadcast_queue = [];
  messages_queue = [];
  requests = [];
  sent = [];
  clock = λ n. pos 150000;
  reads = 0;
}

mantain_query_map_size_lem_example :
    mantain_query_map_size crowded
    ≡ ok (
        if ltb (length crowded.queries) time_out_ms then crowded else record crowded {
          reads = crowded.reads + 1;
          queries = keep_entries (is_over (crowded.clock crowded.reads)) crowded.queries;
          query_hit_result =
              keep_entries (is_over (crowded.clock crowded.reads)) crowded.query_hit_result;
          wait_queryhit =
              keep_entries (is_over (crowded.clock crowded.reads)) crowded.wait_queryhit;
        })
unfolding crowded
mantain_query_map_size_lem_example =
    mantain_query_map_size_lem crowded (crowd-Distinct time_out_ms) tt tt
      (crowd-AllTimed time_out_ms (omega arith)) tt tt
