-- ===== src/Peer/Extends/Messages.antt =====
-- HandleQueryHit, the handlers of the test messages and the dispatch of HandleMessageThread
-- (src/peer_client.cpp), by the relation Extends.
use p2p_file_sharing_system.Prelude.{
  Option, none, some, Option-cases, inl, inr, refl, ◌≡◌, ℕ, ◌+◌, ◌≡◌, refl, Bool, true, false, not,
  Option, none, some, List, [], ◌∷◌, ◌++◌, pos, leb_ℤ, ltb_ℤ, eq_ℤ, ◌-ℤ◌, if_both,
}
use p2p_file_sharing_system.Result.{
  Result, ok, fault, OnOk, OnOk->>=, OnOk_use, invalid_argument, number_out_of_range,
}
use p2p_file_sharing_system.Text.{Bytes, codes, bytes_eq}
use p2p_file_sharing_system.Text.Number.{stoi}
use p2p_file_sharing_system.Text.Split.{split_string}
use p2p_file_sharing_system.Containers.{lookup, insert, erase}
use p2p_file_sharing_system.Ids.{
  PeerId, MessageId, message_id_key, QueryResult, PeerServerInfo, delim, no_limit, decrement,
  get_file_server_port, peer_msg_query_hit, peer_msg_inv_query_hit, peer_msg_query,
  peer_msg_inv_query, peer_msg_con_test_query, peer_msg_test_obtain2,
}
use p2p_file_sharing_system.Peer.{
  Peer, has_file, get_timestamp, is_query_cached, start_push_file, start_file_transfer, at,
  read_message_id,
}
use p2p_file_sharing_system.Peer.Queries.{
  answer_or_relay, replicate_or_relay, handle_query, handle_inv_query,
}
use p2p_file_sharing_system.Peer.Hits.{
  push_to_results, transfer_from_front, use_results, handle_wait_query_hit, add_result,
  receive_own_hit, pass_hit_on, catch_number, handle_query_hit, handle_inv_query_hit,
}
use p2p_file_sharing_system.Peer.Operations.{
  send_test_obtain, send_test_obtain_large, test_obtain_count,
}
use p2p_file_sharing_system.Peer.Threads.{
  test_query_and_relay, test_obtain_and_relay, handle_concurrent_test_query, run_test_obtain,
  handle_concurrent_test_obtain, dispatch, command_of,
}
use p2p_file_sharing_system.Peer.Extends.{
  Extends, Extends-refl, Extends-trans, relay_query_hit-Extends, then-Extends, Extends-bind,
  same_core,
}
use p2p_file_sharing_system.Peer.Extends.Operations.{send_test_query-Extends, obtain_times-Extends}
use p2p_file_sharing_system.Peer.Extends.Queries.{
  decrease_ttl-Extends, answer_or_relay-Extends, receive_once-Extends, replicate_or_relay-Extends,
}

start_push-Extends : (s : Peer) (f : Bytes) (i : PeerServerInfo) → Extends s (start_push_file s f i)
unfolding start_push_file
start_push-Extends s f i =
    if_both (Extends s) (has_file s f) _ _ (same_core s _ refl refl refl refl refl) (Extends-refl s)

push_to_results-Extends :
    (s : Peer) (f : Bytes) (rs : List QueryResult) (n : ℕ) → Extends s (push_to_results s f rs n)
unfolding push_to_results
push_to_results-Extends s f [] n = Extends-refl s
push_to_results-Extends s f (r ∷ rs) n =
    if_both (Extends s) (leb_ℤ (s.replication_factor -ℤ pos 1) (pos n)) _ _ (Extends-refl s) (
      Extends-trans (start_push-Extends s f r.server_info)
        (push_to_results-Extends (start_push_file s f r.server_info) f rs (n + 1)))

use_results-Extends :
    (s : Peer) (t f : Bytes) (rs : List QueryResult) → OnOk (Extends s) (use_results s t f rs)
unfolding use_results start_file_transfer
use_results-Extends s t f rs =
    if_both (OnOk (Extends s)) (bytes_eq t peer_msg_query_hit) _ _ (front rs) (
      if_both (OnOk (Extends s)) (bytes_eq t peer_msg_inv_query_hit) _ _
        (push_to_results-Extends s f rs 0) (Extends-refl s))
  where
    front : (rs : List QueryResult) → OnOk (Extends s) (transfer_from_front s f rs)
    front [] = tt
    front (r ∷ rs) = same_core s _ refl refl refl refl refl

wait_query_hit-Extends :
    (t : Bytes) (id : MessageId) (s : Peer) → OnOk (Extends s) (handle_wait_query_hit t id s)
unfolding handle_wait_query_hit
wait_query_hit-Extends t id s = waiting (lookup id s.wait_queryhit)
  where
    s' : Peer
    s' = record s { wait_queryhit = erase id s.wait_queryhit }

    results :
        (f : Bytes) (o : Option (List QueryResult))
        → OnOk (Extends s) (elim o [ none ↦ ok s' | some rs ↦ use_results s' t f rs ])
    results f none = same_core s s' refl refl refl refl refl
    results f (some rs) =
        then-Extends s s' _ (same_core s s' refl refl refl refl refl)
          (use_results-Extends s' t f rs)

    waiting :
        (o : Option Bytes)
        → OnOk (Extends s) (elim o [
          | none ↦ ok s
          | some f ↦ elim (lookup id s.query_hit_result) [
            | none ↦ ok s'
            | some rs ↦ use_results s' t f rs
          ]
        ])
    waiting none = Extends-refl s
    waiting (some f) = results f (lookup id s.query_hit_result)

add_result-Extends : (id : MessageId) (r : QueryResult) (s : Peer) → Extends s (add_result id r s)
unfolding add_result
add_result-Extends id r s =
    elim (lookup id s.query_hit_result)
      as (λ o. Extends s (elim o [
        | none ↦ record s { query_hit_result = insert id (r ∷ []) s.query_hit_result }
        | some rs ↦ record s { query_hit_result = insert id (rs ++ r ∷ []) s.query_hit_result }
      ])) [
        | none ↦ same_core s _ refl refl refl refl refl
        | some rs ↦ same_core s _ refl refl refl refl refl
      ]

receive_own_hit-Extends :
    (vec : List Bytes) (id : MessageId) (s : Peer) → OnOk (Extends s) (receive_own_hit vec id s)
unfolding receive_own_hit get_timestamp
receive_own_hit-Extends vec id s =
    if_both (OnOk (Extends s)) (not (is_query_cached s id)) _ _ (Extends-refl s) (
      OnOk->>= (Extends s) (at vec 5) _ λ field. OnOk->>= (Extends s) (stoi field) _ λ originator.
        OnOk->>= (Extends s) (get_file_server_port originator) _ λ port.
          OnOk->>= (Extends s) (at vec 6) _ λ ip. OnOk->>= (Extends s) (at vec 0) _ λ message_type.
            then-Extends s (get_timestamp s).1 _ (same_core s _ refl refl refl refl refl) (
              then-Extends _ _ _ (add_result-Extends id _ (get_timestamp s).1)
                (wait_query_hit-Extends message_type id _)))

pass_hit_on-Extends :
    (vec : List Bytes) (id : MessageId) (s : Peer) → OnOk (Extends s) (pass_hit_on vec id s)
unfolding pass_hit_on
pass_hit_on-Extends vec id s = OnOk->>= (Extends s) (at vec 4) _ λ field.
    OnOk->>= (Extends s) (stoi field) _ λ ttl. OnOk->>= (Extends s) (decrement ttl) _ λ ttl'.
      if_both (OnOk (Extends s)) (leb_ℤ ttl' (pos 0)) _ _ (Extends-refl s)
        (relay_query_hit-Extends s _ id)

catch_number-Extends :
    {A : Type 0} (m : Result A) (k : A → Result Peer) (s : Peer)
    → ((a : A) → OnOk (Extends s) (k a))
    → OnOk (Extends s) (catch_number m k s)
unfolding catch_number
catch_number-Extends (ok a) k s h = h a
catch_number-Extends (fault invalid_argument) k s h = Extends-refl s
catch_number-Extends (fault number_out_of_range) k s h = Extends-refl s
catch_number-Extends (fault e) k s h = tt

pub handle_query_hit-Extends : (m : Bytes) (s : Peer) → OnOk (Extends s) (handle_query_hit m s)
unfolding handle_query_hit
handle_query_hit-Extends m s =
    catch_number-Extends (read_message_id (split_string m delim no_limit)) _ s λ id.
      if_both (OnOk (Extends s)) (eq_ℤ id.peer_id s.peer_id) _ _ (receive_own_hit-Extends _ id s)
        (pass_hit_on-Extends _ id s)

pub test_query_and_relay-Extends :
    (s : Peer) (vec : List Bytes) (id : MessageId) (u : PeerId)
    → OnOk (Extends s) (test_query_and_relay s vec id u)
unfolding test_query_and_relay
test_query_and_relay-Extends s vec id u = OnOk->>= (Extends s) (at vec 6) _ λ field.
    OnOk->>= (Extends s) (stoi field) _ λ bound.
      then-Extends s _ _
        (if_both (Extends s) (ltb_ℤ s.peer_id bound) _ _ (send_test_query-Extends s)
          (Extends-refl s))
        (decrease_ttl-Extends _ vec u)

run_test_obtain-Extends :
    (b : Bool) (vec : List Bytes) (s : Peer) → OnOk (Extends s) (run_test_obtain b vec s)
unfolding run_test_obtain send_test_obtain send_test_obtain_large
run_test_obtain-Extends false vec s = Extends-refl s
run_test_obtain-Extends true vec s = OnOk->>= (Extends s) (at vec 7) _ λ kind.
    if_both (Extends s) (bytes_eq kind (codes "2")) _ _ (obtain_times-Extends test_obtain_count _ s)
      (obtain_times-Extends _ _ s)

pub test_obtain_and_relay-Extends :
    (s : Peer) (vec : List Bytes) (id : MessageId) (u : PeerId)
    → OnOk (Extends s) (test_obtain_and_relay s vec id u)
unfolding test_obtain_and_relay
test_obtain_and_relay-Extends s vec id u = OnOk->>= (Extends s) (at vec 6) _ λ field.
    OnOk->>= (Extends s) (stoi field) _ λ bound.
      Extends-bind s _ _ (run_test_obtain-Extends (ltb_ℤ s.peer_id bound) vec s)
        λ s'. decrease_ttl-Extends s' vec u

every_message : (m : Bytes) (s : Peer) → OnOk (Extends s) (dispatch m s)
unfolding dispatch handle_inv_query_hit handle_query handle_inv_query handle_concurrent_test_query
    handle_concurrent_test_obtain
every_message m s =
    let P = λ (r : Result Peer). OnOk (Extends s) r in
    let command = command_of m in
    if_both P (bytes_eq command peer_msg_query) _ _
      (receive_once-Extends answer_or_relay m s answer_or_relay-Extends)
      (if_both P (bytes_eq command peer_msg_inv_query) _ _
        (receive_once-Extends replicate_or_relay m s replicate_or_relay-Extends)
        (if_both P (bytes_eq command peer_msg_query_hit) _ _ (handle_query_hit-Extends m s) (
          if_both P (bytes_eq command peer_msg_inv_query_hit) _ _ (handle_query_hit-Extends m s) (
            if_both P (bytes_eq command peer_msg_con_test_query) _ _
              (receive_once-Extends test_query_and_relay m s test_query_and_relay-Extends)
              (if_both P (bytes_eq command peer_msg_test_obtain2) _ _
                (receive_once-Extends test_obtain_and_relay m s test_obtain_and_relay-Extends)
                (Extends-refl s))))))

pub dispatch-Extends : (m : Bytes) (s t : Peer) → dispatch m s ≡ ok t → Extends s t
dispatch-Extends m s t e = OnOk_use (Extends s) (dispatch m s) e (every_message m s)

-- The first of two options that is there.
abbrev pub first_of {ℓ} : {A : Type ℓ} → Option A → Option A → Option A
first_of (some a) other = some a
first_of none other = other

-- Where a message is handled without a fault, the peer keeps its identity, its replication factor, its
-- neighbours and its files, and a query that it had cached keeps the upstream peer it came from.
pub dispatch_keeps :
    (m : Bytes) (s t : Peer) (j : MessageId)
    → dispatch m s ≡ ok t
    → (t.peer_id ≡ s.peer_id)
      × (t.replication_factor ≡ s.replication_factor)
      × (t.peer_id_to_sockfd ≡ s.peer_id_to_sockfd)
      × (t.files ≡ s.files)
      × (lookup j t.queries ≡ first_of (lookup j s.queries) (lookup j t.queries))
dispatch_keeps m s t j e =
    let x = dispatch-Extends m s t e in
    (
      x.same_peer,
      x.same_factor,
      x.same_sockets,
      x.same_files,
      elim (Option-cases (lookup j s.queries)) [
        | inl missing ↦ rw missing refl
        | inr (u, cached) ↦ rw cached (x.keeps j u cached)
      ],
    )
