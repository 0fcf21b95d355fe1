-- ===== src/Peer/Hits/Pushes.antt =====
-- The pushes of a replication to all who have answered: the loop of HandleWaitQueryHit and of
-- WaitReplicateFileQueryHit of src/peer_client.cpp.
use p2p_file_sharing_system.Prelude.{
  ℕ, zero, suc, ◌+◌, ◌-◌, ◌≡◌, refl, ap, ◌∙◌, true, false, Option, none, some, List, [], ◌∷◌, ◌++◌,
  map, arith, append_assoc, append-nil, Bool-cases, inl, inr, ℤ, pos, negsuc, pos_part, leb_ℤ, ◌-ℤ◌,
  take,
}
use p2p_file_sharing_system.Text.{Bytes}
use p2p_file_sharing_system.Containers.{lookup}
use p2p_file_sharing_system.Ids.{MessageId, message_id_key, QueryResult, ClientRequest, push_file}
use p2p_file_sharing_system.Peer.{Peer, has_file, start_push_file}
use p2p_file_sharing_system.Peer.Hits.{push_to_results, wait_replicate_file_query_hit}

-- The request to push a file to a peer that answered.
abbrev pub pushed_to : Bytes → QueryResult → ClientRequest
pushed_to filename r = record {
  req_type = push_file;
  ip = r.server_info.ip;
  port = r.server_info.port;
  filename = filename;
}

minus_zero : (n : ℕ) → n - 0 ≡ n
minus_zero n = omega arith

take-nil : (n : ℕ) → take {A = QueryResult} n [] ≡ []
take-nil zero = refl
take-nil (suc n) = refl

enough : (z : ℤ) (n : ℕ) → leb_ℤ z (pos n) ≡ true → pos_part z - n ≡ 0
enough (pos m) n h = ground arith
enough (negsuc m) n h = omega arith

more : (z : ℤ) (n : ℕ) → leb_ℤ z (pos n) ≡ false → pos_part z - n ≡ suc (pos_part z - (n + 1))
more (pos m) n h = ground arith
more (negsuc m) n h = absurd (ground arith)

push_to_results_lem :
    (filename : Bytes) (results : List QueryResult) (count : ℕ) (s : Peer)
    → has_file s filename ≡ true
    → (push_to_results s filename results count).requests
      ≡ s.requests
        ++ map
            (pushed_to filename)
            (take (pos_part (s.replication_factor -ℤ pos 1) - count) results)
unfolding push_to_results start_push_file has_file
push_to_results_lem filename [] count s has =
    rw (take-nil (pos_part (s.replication_factor -ℤ pos 1) - count), append-nil) refl
push_to_results_lem filename (r ∷ results) count s has =
    let wanted = s.replication_factor -ℤ pos 1 in
    let s' : Peer = record s { requests = s.requests ++ pushed_to filename r ∷ [] } in
    elim (Bool-cases (leb_ℤ wanted (pos count))) [
      | inl done ↦ rw (done, enough wanted count done) (rw append-nil refl)
      | inr wants ↦
          rw (wants, has, more wanted count wants)
            (push_to_results_lem filename results (count + 1) s' has
              ∙ append_assoc s.requests (pushed_to filename r ∷ []) _)
    ]

-- The peers that have answered under an id.
abbrev pub answered : Option (List QueryResult) → List QueryResult
answered none = []
answered (some results) = results

push_to_answered :
    (id : MessageId) (filename : Bytes) (s : Peer) (found : Option (List QueryResult))
    → has_file s filename ≡ true
    → lookup id s.query_hit_result ≡ found
    → (wait_replicate_file_query_hit id filename s).requests
      ≡ s.requests
        ++ map
            (pushed_to filename)
            (take (pos_part (s.replication_factor -ℤ pos 1)) (answered found))
unfolding wait_replicate_file_query_hit
push_to_answered id filename s none has e =
    rw
      (
        wait_replicate_file_query_hit,
        e,
        take-nil (pos_part (s.replication_factor -ℤ pos 1)),
        append-nil,
      )
      refl
push_to_answered id filename s (some results) has e =
    let wanted = pos_part (s.replication_factor -ℤ pos 1) in
    rw (wait_replicate_file_query_hit, e)
      (push_to_results_lem filename results 0 s has
        ∙ ap (λ n. s.requests ++ map (pushed_to filename) (take n results)) (minus_zero wanted))

-- WaitReplicateFileQueryHit, which nothing calls, pushes a file that the peer holds to those who have
-- answered under the id, in the order of their answers, and to one less than the replication factor of
-- them at most.
pub wait_replicate_file_query_hit_lem :
    (id : MessageId) (filename : Bytes) (s : Peer)
    → has_file s filename ≡ true
    → (wait_replicate_file_query_hit id filename s).requests
      ≡ s.requests
        ++ map (pushed_to filename) (
            take
              (pos_part (s.replication_factor -ℤ pos 1))
              (answered (lookup id s.query_hit_result)))
wait_replicate_file_query_hit_lem id filename s has =
    push_to_answered id filename s (lookup id s.query_hit_result) has refl
