-- ===== src/Commands/Hijack.antt =====
-- Two commands in a row: `obtain` and then `replicate` in the loop of CPeerClient::Run
-- (src/peer_client.cpp), which keep the id of the last query in one variable.
use p2p_file_sharing_system.Prelude.{
  ◌≡◌, refl, sym, ap, ◌∙◌, true, none, some, [], ◌∷◌, ◌++◌, arith, ℤ, pos, ◌≤ℤ◌,
}
use p2p_file_sharing_system.Result.{ok, ◌>>=◌}
use p2p_file_sharing_system.Text.{Bytes, codes, space, bytes_eq}
use p2p_file_sharing_system.Containers.{lookup}
use p2p_file_sharing_system.Containers.Laws.{Distinct, insert-Distinct, lookup-insert}
use p2p_file_sharing_system.Ids.{
  MessageId, message_id_key, same_id_refl, get_file_server_port, peer_msg_query_hit,
}
use p2p_file_sharing_system.Peer.{Peer, member, has_file, is_query_cached, set_wait_query_hit}
use p2p_file_sharing_system.Peer.Extends.{Extends}
use p2p_file_sharing_system.Peer.Extends.Operations.{obtain_file-Extends}
use p2p_file_sharing_system.Peer.Wire.{create_query_message}
use p2p_file_sharing_system.Peer.Hits.{handle_query_hit}
use p2p_file_sharing_system.Peer.Hits.Refinement.{
  Hit, IsWellFormed, encode_hit, handle_query_hit-encode_hit,
}
use p2p_file_sharing_system.Peer.Hits.Transfer.{request_to, accept_first_hit}
use p2p_file_sharing_system.Peer.Operations.{obtain_file, replicate_file, send_query}
use p2p_file_sharing_system.Peer.Operations.Queries.{
  next_id, obtain_file_fields, receive_own_cached,
}
use p2p_file_sharing_system.Register.{cut, cut_at, parts_or_whole}
use p2p_file_sharing_system.Commands.{obtain, replicate_one, Console, run_command, execute}

run-obtain :
    (f : Bytes) (c : Console) → run_command (codes "obtain" ++ space ∷ f) c ≡ execute obtain f c
unfolding run_command cut_at cut parts_or_whole bytes_eq
run-obtain f c = refl

run-replicate :
    (f : Bytes) (c : Console)
    → run_command (codes "replicate" ++ space ∷ f) c ≡ execute replicate_one f c
unfolding run_command cut_at cut parts_or_whole bytes_eq
run-replicate f c = refl

obtain_id : (f : Bytes) (s : Peer) → (obtain_file f s).0 ≡ next_id s
unfolding obtain_file send_query create_query_message
obtain_id f s = refl

replicate_unsent :
    (g : Bytes) (s : Peer) (id : MessageId)
    → has_file s g ≡ true
    → s.replication_factor ≤ℤ pos 1
    → replicate_file g (some id) s ≡ ok (some id, set_wait_query_hit s id g)
unfolding replicate_file
replicate_unsent g s id has few = ground arith

execute-replicate :
    (g : Bytes) (c : Console) (id : MessageId)
    → c.message_id ≡ some id
    → has_file c.peer g ≡ true
    → c.peer.replication_factor ≤ℤ pos 1
    → execute replicate_one g c
      ≡ ok (record c { peer = set_wait_query_hit c.peer id g; message_id = some id })
unfolding execute
execute-replicate g c id e has few = rw (e, replicate_unsent g c.peer id has few) refl

-- `replicate` right behind `obtain`, where no inverse query is sent: the new name waits under the id of
-- the query that was sent for the other.
obtain_replicate :
    (f g : Bytes) (c : Console)
    → has_file c.peer g ≡ true
    → c.peer.replication_factor ≤ℤ pos 1
    → let s = (obtain_file f c.peer).1 in
      (d : Console) × ((run_command (codes "obtain" ++ space ∷ f) c
          >>= run_command (codes "replicate" ++ space ∷ g))
        ≡ ok d)
      × (d.peer ≡ set_wait_query_hit s (next_id c.peer) g)
unfolding execute replicate_file has_file
obtain_replicate f g c has few =
    let s = (obtain_file f c.peer).1 in
    let x : Extends c.peer s = obtain_file-Extends f c.peer in
    let id = (obtain_file f c.peer).0 in
    let sent : Console = record c { peer = s; message_id = some id } in
    let has' : has_file s g ≡ true = ap (member g) x.same_files ∙ has in
    (
      record sent { peer = set_wait_query_hit s id g },
      rw (run-obtain f c)
          (run-replicate g sent ∙ execute-replicate g sent id refl has' (rw x.same_factor few)),
      ap (λ i. set_wait_query_hit s i g) (obtain_id f c.peer),
    )

-- Where a peer holds a file `g` and its replication factor is 1 or less, `obtain f` and `replicate g`
-- one after the other make the first answer to the query for `f`, well-formed and from a peer whose
-- port does not overflow, start the download of `g` from the peer that answered, and `f` is not asked
-- for. No results were held under the id of the query before.
pub replicate_hijacks_obtain :
    (f g : Bytes) (c : Console) (h : Hit) (port : ℤ)
    → IsWellFormed h
    → h.id ≡ next_id c.peer
    → h.msg_type ≡ peer_msg_query_hit
    → get_file_server_port h.originator ≡ ok port
    → lookup (next_id c.peer) c.peer.query_hit_result ≡ none
    → Distinct c.peer.wait_queryhit
    → has_file c.peer g ≡ true
    → c.peer.replication_factor ≤ℤ pos 1
    → (d : Console) × (t : Peer) × ((run_command (codes "obtain" ++ space ∷ f) c
          >>= run_command (codes "replicate" ++ space ∷ g))
        ≡ ok d)
      × (handle_query_hit (encode_hit h) d.peer ≡ ok t)
      × (t.requests ≡ c.peer.requests ++ request_to h port g ∷ [])
unfolding set_wait_query_hit is_query_cached
replicate_hijacks_obtain f g c h port wf is_next query_hit has_port fresh distinct has few =
    let s = (obtain_file f c.peer).1 in
    let s' = set_wait_query_hit s (next_id c.peer) g in
    let (same_peer, cached, waits, results, requests) = obtain_file_fields f c.peer in
    let (d, ran, is_s') = obtain_replicate f g c has few in
    let wait : lookup h.id s'.wait_queryhit ≡ some g = ground (
      arith,
      is_next,
      lookup-insert (next_id c.peer) (next_id c.peer) g s.wait_queryhit,
      same_id_refl (next_id c.peer),
    ) in
    let no_result : lookup h.id s'.query_hit_result ≡ none = rw (is_next, results) fresh in
    let all_distinct : Distinct s'.wait_queryhit =
      insert-Distinct (next_id c.peer) g s.wait_queryhit
        (rw waits (insert-Distinct (next_id c.peer) f c.peer.wait_queryhit distinct)) in
    let (t, accepted, requested, over) =
      accept_first_hit h s' g port query_hit has_port wait no_result all_distinct in
    (
      d,
      t,
      ran,
      rw is_s' (
          handle_query_hit-encode_hit h s' wf
          ∙ receive_own_cached h s' (ap (λ (i : MessageId). i.peer_id) is_next ∙ sym same_peer)
              (rw is_next cached)
          ∙ accepted),
      requested ∙ ap (λ r. r ++ request_to h port g ∷ []) requests,
    )
