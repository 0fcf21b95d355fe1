-- ===== src/Peer/Extends/Operations.antt =====
-- SendQuery, ObtainFile and the test senders of src/peer_client.cpp, by the relation Extends.
use p2p_file_sharing_system.Prelude.{ℕ, zero, suc, ◌+◌, refl}
use p2p_file_sharing_system.Text.{Bytes}
use p2p_file_sharing_system.Text.Number.{format}
use p2p_file_sharing_system.Ids.{message_id_key, own_query}
use p2p_file_sharing_system.Peer.{Peer, broadcast, set_wait_query_hit}
use p2p_file_sharing_system.Peer.Wire.{create_query_message, new_message_id}
use p2p_file_sharing_system.Peer.Operations.{
  send_query, obtain_file, send_test_queries, send_test_query, obtain_times, test_query_count,
}
use p2p_file_sharing_system.Peer.Extends.{
  Extends, Extends-refl, Extends-trans, cache_query-Extends, same_core,
}

-- The operations that the test messages start.
pub send_query-Extends : (f : Bytes) (s : Peer) → Extends s (send_query f s).1
unfolding send_query create_query_message broadcast
send_query-Extends f s =
    let (id, s') = new_message_id s in
    Extends-trans (same_core s s' refl refl refl refl refl)
      (Extends-trans (cache_query-Extends s' id own_query) (same_core _ _ refl refl refl refl refl))

pub obtain_file-Extends : (f : Bytes) (s : Peer) → Extends s (obtain_file f s).1
unfolding obtain_file set_wait_query_hit
obtain_file-Extends f s =
    Extends-trans (send_query-Extends f s) (same_core _ _ refl refl refl refl refl)

pub send_test_queries-Extends : (n i : ℕ) (s : Peer) → Extends s (send_test_queries n i s)
unfolding send_test_queries
send_test_queries-Extends zero i s = Extends-refl s
send_test_queries-Extends (suc n) i s =
    Extends-trans (send_query-Extends (format i) s)
      (send_test_queries-Extends n (i + 1) (send_query (format i) s).1)

pub send_test_query-Extends : (s : Peer) → Extends s (send_test_query s)
unfolding send_test_query
send_test_query-Extends s =
    Extends-trans (send_test_queries-Extends test_query_count 0 s) (send_query-Extends _ _)

pub obtain_times-Extends : (n : ℕ) (f : Bytes) (s : Peer) → Extends s (obtain_times n f s)
unfolding obtain_times
obtain_times-Extends zero f s = Extends-refl s
obtain_times-Extends (suc n) f s =
    Extends-trans (obtain_file-Extends f s) (obtain_times-Extends n f (obtain_file f s).1)
