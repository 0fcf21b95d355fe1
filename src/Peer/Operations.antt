-- ===== src/Peer/Operations.antt =====
-- What the user and the tests start: SendQuery, SendInvQuery, ObtainFile, ReplicateFile,
-- StartReplicateAllFiles and the test senders of src/peer_client.cpp. The message id that a caller
-- passes by pointer is `none` until something wrote it; reading it before is a fault.
pub mod Queries
pub mod Race
mod Tests
use p2p_file_sharing_system.Prelude.{
  ℕ, zero, suc, ◌+◌, ◌≡◌, Bool, true, false, Option, none, some, List, [], ◌∷◌, ◌++◌, if◌then◌else◌,
  ℤ, pos, leb_ℤ,
}
use p2p_file_sharing_system.Result.{Result, ok, fault, uninitialised, or_fault, ◌>>=◌}
use p2p_file_sharing_system.Text.{Bytes}
use p2p_file_sharing_system.Text.Number.{format, to_string}
use p2p_file_sharing_system.Text.Split.{join_string}
use p2p_file_sharing_system.Ids.{
  MessageId, delim, own_query, peer_msg_con_test_query, peer_msg_test_obtain2,
}
use p2p_file_sharing_system.Peer.{
  Peer, member, has_file, cache_query, broadcast, set_wait_query_hit,
}
use p2p_file_sharing_system.Peer.Wire.{
  create_query_message, create_inv_query_message, create_common_query_msg_vec,
}

unfoldable pub send_query : Bytes → Peer → MessageId × Peer
send_query filename s =
    let (message, id, s') = create_query_message filename s in
    (id, broadcast (cache_query s' id own_query) message own_query)

-- With a replication factor of 1 or less the caller's id is left as it was.
unfoldable pub send_inv_query : Bytes → Option MessageId → Peer → Option MessageId × Peer
send_inv_query filename out s =
    let (message, id, s') = create_inv_query_message filename s in
    if leb_ℤ s.replication_factor (pos 1)
    then (out, s)
    else (some id, broadcast (cache_query s' id own_query) message own_query)

unfoldable pub obtain_file : Bytes → Peer → MessageId × Peer
unfolding send_query
obtain_file filename s =
    let (id, s') = send_query filename s in (id, set_wait_query_hit s' id filename)

unfoldable pub replicate_file : Bytes → Option MessageId → Peer → Result (Option MessageId × Peer)
unfolding send_inv_query
replicate_file filename out s =
    let (out', s') = send_inv_query filename out s in
    let waiting = do id ← or_fault out' uninitialised; ok (out', set_wait_query_hit s' id filename)
    in if has_file s filename then waiting else ok (out, s)

-- `ReplicateFile` of each name, every time with a new variable for the id.
unfoldable pub replicate_files : List Bytes → Peer → Result Peer
unfolding replicate_file
replicate_files [] s = ok s
replicate_files (f ∷ fs) s = do (out, s') ← replicate_file f none s; replicate_files fs s'

-- The files that no other peer has asked to replicate.
unfoldable pub not_yet_replicated : List Bytes → List Bytes → List Bytes
not_yet_replicated seen [] = []
not_yet_replicated seen (f ∷ fs) =
    if member f seen then not_yet_replicated seen fs else f ∷ not_yet_replicated seen fs

unfoldable pub start_replicate_all_files : Peer → Result Peer
unfolding replicate_files not_yet_replicated
start_replicate_all_files s =
    if leb_ℤ s.replication_factor (pos 1)
    then ok s
    else replicate_files (not_yet_replicated s.replicate_query_filename s.files) s

-- `for (int i = 0; i < TEST_QUERY_COUNT; i++) SendQuery(std::to_string(i))`: `rounds` are left.
unfoldable pub send_test_queries : ℕ → ℕ → Peer → Peer
unfolding send_query
send_test_queries zero i s = s
send_test_queries (suc rounds) i s = send_test_queries rounds (i + 1) (send_query (format i) s).1

abbrev pub test_query_count : ℕ
test_query_count = 10000

abbrev pub test_obtain_count : ℕ
test_obtain_count = 10000

abbrev pub test_obtain_large_count : ℕ
test_obtain_large_count = 10

unfoldable pub send_test_query : Peer → Peer
send_test_query s =
    let s' = send_test_queries test_query_count 0 s in (send_query s'.ensure_queryhit_file s').1

unfoldable pub obtain_times : ℕ → Bytes → Peer → Peer
unfolding obtain_file
obtain_times zero filename s = s
obtain_times (suc rounds) filename s = obtain_times rounds filename (obtain_file filename s).1

unfoldable pub send_test_obtain : Peer → Peer
send_test_obtain s = obtain_times test_obtain_count s.ensure_queryhit_file s

unfoldable pub send_test_obtain_large : Peer → Peer
send_test_obtain_large s = obtain_times test_obtain_large_count s.large_file_name s

-- A message for the peers below `requirement`, with the fields behind the common ones.
unfoldable pub announce_test : Bytes → List Bytes → Peer → Peer
announce_test msg_type fields s =
    let (vec, id, s') = create_common_query_msg_vec msg_type s in
    broadcast (cache_query s' id own_query) (join_string (vec ++ fields) delim) own_query

unfoldable pub send_concurrent_test_query : ℤ → Peer → Peer
unfolding announce_test
send_concurrent_test_query requirement s =
    send_test_query (announce_test peer_msg_con_test_query (to_string requirement ∷ []) s)

unfoldable pub send_test_obtain2 : ℤ → Peer → Peer
unfolding announce_test
send_test_obtain2 requirement s =
    send_test_obtain
      (announce_test peer_msg_test_obtain2 (to_string requirement ∷ to_string (pos 2) ∷ []) s)

unfoldable pub send_test_obtain3 : ℤ → Peer → Peer
unfolding announce_test
send_test_obtain3 requirement s =
    send_test_obtain_large
      (announce_test peer_msg_test_obtain2 (to_string requirement ∷ to_string (pos 3) ∷ []) s)
