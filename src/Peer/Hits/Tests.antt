-- ===== src/Peer/Hits/Tests.antt =====
-- A replication that has been answered by three peers, at concrete inputs.
use p2p_file_sharing_system.Prelude.{
  ℕ, ◌+◌, ◌≡◌, refl, [], ◌∷◌, ◌++◌, map, pos, pos_part, ◌-ℤ◌, take,
}
use p2p_file_sharing_system.Text.{codes, bytes_eq}
use p2p_file_sharing_system.Containers.{lookup}
use p2p_file_sharing_system.Ids.{MessageId, message_id_key, QueryResult}
use p2p_file_sharing_system.Peer.{Peer, has_file, start_push_file}
use p2p_file_sharing_system.Peer.Sample.{home}
use p2p_file_sharing_system.Peer.Hits.{wait_replicate_file_query_hit}
use p2p_file_sharing_system.Peer.Hits.Pushes.{
  pushed_to, answered, wait_replicate_file_query_hit_lem,
}

abbrev replication : MessageId
replication = record { peer_id = pos 1; msg_id = 3; timestamp = pos 900 }

abbrev from : ℕ → QueryResult
from n = record {
  server_info = record { ip = codes "10.0.0.9"; port = pos (3000 + n) };
  timestamp = pos 1000;
}

abbrev waiting : Peer
waiting = record home { query_hit_result = (replication, from 2 ∷ from 3 ∷ from 4 ∷ []) ∷ [] }

wait_replicate_file_query_hit_lem_example :
    (wait_replicate_file_query_hit replication (codes "mine") waiting).requests
    ≡ waiting.requests
      ++ map (pushed_to (codes "mine")) (
          take
            (pos_part (waiting.replication_factor -ℤ pos 1))
            (answered (lookup replication waiting.query_hit_result)))
unfolding has_file bytes_eq
wait_replicate_file_query_hit_lem_example =
    wait_replicate_file_query_hit_lem replication (codes "mine") waiting refl

-- The replication factor is three, so that two copies are made.
two_copies :
    (wait_replicate_file_query_hit replication (codes "mine") waiting).requests
    ≡ pushed_to (codes "mine") (from 2) ∷ pushed_to (codes "mine") (from 3) ∷ []
unfolding wait_replicate_file_query_hit lookup has_file bytes_eq start_push_file
two_copies = refl
