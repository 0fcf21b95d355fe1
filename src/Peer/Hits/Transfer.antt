-- ===== src/Peer/Hits/Transfer.antt =====
-- The transfers that answers start: HandleQueryHit with HandleWaitQueryHit of src/peer_client.cpp.
use mathlib.Core.Path.{subst}
use p2p_file_sharing_system.Prelude.{
  ◌≡◌, sym, ap, ◌∙◌, true, none, some, List, [], ◌∷◌, ◌++◌, arith, ℤ, pos, ◌≤ℤ◌,
}
use p2p_file_sharing_system.Result.{ok}
use p2p_file_sharing_system.Text.{Bytes, bytes_eq, bytes_eq_iff}
use p2p_file_sharing_system.Containers.{lookup, erase}
use p2p_file_sharing_system.Containers.Laws.{lookup-insert, lookup-erase, Distinct}
use p2p_file_sharing_system.Ids.{
  MessageId, message_id_key, same_id_refl, QueryResult, PeerServerInfo, ClientRequest,
  download_file, push_file, get_file_server_port, peer_msg_query_hit, peer_msg_inv_query_hit,
}
use p2p_file_sharing_system.Peer.{
  Peer, get_timestamp, start_file_transfer, start_push_file, has_file, member,
}
use p2p_file_sharing_system.Peer.Hits.{
  push_to_results, use_results, handle_wait_query_hit, add_result,
}
use p2p_file_sharing_system.Peer.Hits.Refinement.{Hit, accept_hit}

-- The request for a file at the peer that a hit names.
abbrev pub request_to : Hit → ℤ → Bytes → ClientRequest
request_to h port filename = record {
  req_type = download_file;
  filename = filename;
  ip = h.ip;
  port = port;
}

abbrev pub push_to : Hit → ℤ → Bytes → ClientRequest
push_to h port filename = record {
  req_type = push_file;
  filename = filename;
  ip = h.ip;
  port = port;
}

abbrev pub result_of : Hit → ℤ → Peer → QueryResult
result_of h port s = record {
  server_info = record { ip = h.ip; port = port };
  timestamp = s.clock s.reads;
}

-- The peer after a hit that it only remembers.
unfoldable pub remembered : Hit → ℤ → Peer → Peer
remembered h port s = add_result h.id (result_of h port s) (get_timestamp s).1

-- With nothing waiting for the id the hit is remembered, and no transfer is started.
pub accept_hit_not_waiting :
    (h : Hit) (s : Peer) (port : ℤ)
    → get_file_server_port h.originator ≡ ok port
    → lookup h.id s.wait_queryhit ≡ none
    → accept_hit h s ≡ ok (remembered h port s)
unfolding accept_hit remembered handle_wait_query_hit get_timestamp add_result
accept_hit_not_waiting h s port has_port none_waits = rw has_port (ground arith)

pub remembered_fields :
    (h : Hit) (port : ℤ) (s : Peer)
    → ((remembered h port s).requests ≡ s.requests)
      × ((remembered h port s).wait_queryhit ≡ s.wait_queryhit)
      × ((remembered h port s).files ≡ s.files)
      × ((remembered h port s).replication_factor ≡ s.replication_factor)
unfolding remembered get_timestamp add_result
remembered_fields h port s = ground arith

remembered_first :
    (h : Hit) (port : ℤ) (s : Peer)
    → lookup h.id s.query_hit_result ≡ none
    → lookup h.id (remembered h port s).query_hit_result ≡ some (result_of h port s ∷ [])
unfolding remembered get_timestamp add_result
remembered_first h port s fresh =
    ground (
      arith,
      lookup-insert h.id h.id (result_of h port s ∷ []) s.query_hit_result,
      same_id_refl h.id,
    )

pub wait_over :
    (msg_type : Bytes) (id : MessageId) (s : Peer) (filename : Bytes) (results : List QueryResult)
    → lookup id s.wait_queryhit ≡ some filename
    → lookup id s.query_hit_result ≡ some results
    → handle_wait_query_hit msg_type id s
      ≡ use_results
          (record s { wait_queryhit = erase id s.wait_queryhit })
          msg_type
          filename
          results
unfolding handle_wait_query_hit
wait_over msg_type id s filename results e r = ground arith

-- The peer whose waiting operation an answer has started.
unfoldable pub no_longer_waiting : Hit → ℤ → Peer → Peer
no_longer_waiting h port s =
    let t = remembered h port s in record t { wait_queryhit = erase h.id t.wait_queryhit }

accept_hit_waiting :
    (h : Hit) (s : Peer) (filename : Bytes) (port : ℤ)
    → get_file_server_port h.originator ≡ ok port
    → lookup h.id s.wait_queryhit ≡ some filename
    → lookup h.id s.query_hit_result ≡ none
    → accept_hit h s
      ≡ use_results (no_longer_waiting h port s) h.msg_type filename (result_of h port s ∷ [])
unfolding accept_hit no_longer_waiting
accept_hit_waiting h s filename port has_port waits fresh = rw has_port (
    unfold remembered get_timestamp in
    wait_over h.msg_type h.id (remembered h port s) filename (result_of h port s ∷ [])
      (ap (lookup h.id) (remembered_fields h port s).1 ∙ waits) (remembered_first h port s fresh))

no_longer_waiting_fields :
    (h : Hit) (port : ℤ) (s : Peer)
    → Distinct s.wait_queryhit
    → ((no_longer_waiting h port s).requests ≡ s.requests)
      × (lookup h.id (no_longer_waiting h port s).wait_queryhit ≡ none)
      × ((no_longer_waiting h port s).files ≡ s.files)
      × ((no_longer_waiting h port s).replication_factor ≡ s.replication_factor)
unfolding no_longer_waiting
no_longer_waiting_fields h port s d =
    ground (
      arith,
      remembered_fields h port s,
      lookup-erase h.id h.id s.wait_queryhit d,
      same_id_refl h.id,
    )

-- The first answer to a waiting download fetches the file from the peer that answered, ends the wait,
-- and changes no other request.
pub accept_first_hit :
    (h : Hit) (s : Peer) (filename : Bytes) (port : ℤ)
    → h.msg_type ≡ peer_msg_query_hit
    → get_file_server_port h.originator ≡ ok port
    → lookup h.id s.wait_queryhit ≡ some filename
    → lookup h.id s.query_hit_result ≡ none
    → Distinct s.wait_queryhit
    → (t : Peer) × (accept_hit h s ≡ ok t)
      × (t.requests ≡ s.requests ++ request_to h port filename ∷ [])
      × (lookup h.id t.wait_queryhit ≡ none)
unfolding use_results start_file_transfer
accept_first_hit h s filename port query_hit has_port waits fresh d =
    let (same, over, _, _) = no_longer_waiting_fields h port s d in
    (
      start_file_transfer (no_longer_waiting h port s) filename (result_of h port s).server_info,
      accept_hit_waiting h s filename port has_port waits fresh
          ∙ ground (arith, bytes_eq_iff h.msg_type peer_msg_query_hit),
      ap (λ r. r ++ request_to h port filename ∷ []) same,
      over,
    )

use_first_inv_result :
    (s : Peer) (filename : Bytes) (r : QueryResult)
    → pos 2 ≤ℤ s.replication_factor
    → use_results s peer_msg_inv_query_hit filename (r ∷ [])
      ≡ ok (start_push_file s filename r.server_info)
unfolding use_results push_to_results bytes_eq
use_first_inv_result s filename r copies = ground arith

push_of_held :
    (s : Peer) (filename : Bytes) (server : PeerServerInfo)
    → has_file s filename ≡ true
    → start_push_file s filename server ≡ record s {
      requests =
          s.requests
          ++ record {
            req_type = push_file;
            filename = filename;
            ip = server.ip;
            port = server.port;
          }
            ∷ [];
    }
unfolding start_push_file
push_of_held s filename server has = rw has

-- The first answer to a waiting replication pushes the file to the peer that answered, if more than
-- one copy is wanted, and ends the wait.
pub accept_first_inv_hit :
    (h : Hit) (s : Peer) (filename : Bytes) (port : ℤ)
    → h.msg_type ≡ peer_msg_inv_query_hit
    → get_file_server_port h.originator ≡ ok port
    → lookup h.id s.wait_queryhit ≡ some filename
    → lookup h.id s.query_hit_result ≡ none
    → Distinct s.wait_queryhit
    → has_file s filename ≡ true
    → pos 2 ≤ℤ s.replication_factor
    → (t : Peer) × (accept_hit h s ≡ ok t)
      × (t.requests ≡ s.requests ++ push_to h port filename ∷ [])
      × (lookup h.id t.wait_queryhit ≡ none)
accept_first_inv_hit h s filename port inv_hit has_port waits fresh d has copies =
    let u = no_longer_waiting h port s in
    let (same, over, files, factor) = no_longer_waiting_fields h port s d in
    let server = (result_of h port s).server_info in
    let started =
      use_first_inv_result u filename (result_of h port s)
        (subst (λ n. pos 2 ≤ℤ n) (sym factor) copies) in
    let held : has_file u filename ≡ true = unfold has_file in ap (member filename) files ∙ has in
    (
      record u { requests = u.requests ++ push_to h port filename ∷ [] },
      accept_hit_waiting h s filename port has_port waits fresh
          ∙ ap (λ m. use_results u m filename (result_of h port s ∷ [])) inv_hit
          ∙ started
          ∙ ap ok (push_of_held u filename server held),
      ap (λ r. r ++ push_to h port filename ∷ []) same,
      over,
    )
