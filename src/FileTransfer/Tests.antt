-- ===== src/FileTransfer/Tests.antt =====
-- Runs of the transfers of src/peer_file_client.cpp and src/peer_file_server.cpp at concrete inputs.
use mathlib.Core.List.{flatten}
use p2p_file_sharing_system.Prelude.{
  replicate, ◌-◌, ◌+◌, none, ℕ, zero, suc, ◌≤◌, ◌<◌, ◌≡◌, refl, Bool, some, [], ◌∷◌, ◌++◌, map,
  arith, ℤ, pos, length, ◌==◌, if◌then◌else◌,
}
use p2p_file_sharing_system.Result.{ok, fault, buffer_overflow}
use p2p_file_sharing_system.Text.Number.{to_string, format}
use p2p_file_sharing_system.Buffer.{fill_buffer}
use p2p_file_sharing_system.Text.{Bytes, newline, codes}
use p2p_file_sharing_system.Ids.{ClientRequest, download_file, push_file, msg_buf_size}
use p2p_file_sharing_system.FileTransfer.{
  request_code, create_request_header, parse_request, handle_request_round, request_buffer, started,
  requeued, send_file, receive_file,
}
use p2p_file_sharing_system.FileTransfer.Header.{parse_request-header}
use p2p_file_sharing_system.FileTransfer.Download.{
  handle_request_round_lem, some_attempt, file_arrives_whole,
}
use p2p_file_sharing_system.FileTransfer.Server.{
  Server, start, Reach, socket_fd_counts_lem, accepts, pushes, begins, initially, step,
  accept_client, push_client, begin_client, held, max_socket_fd_queue_size, file_server_thread_num,
}

-- A send() that takes two bytes at most.
abbrev two_at_a_time : ℕ → ℕ → ℤ
two_at_a_time i zero = pos 0
two_at_a_time i (suc zero) = pos 1
two_at_a_time i (suc (suc n)) = pos 2

two_at_a_time_works : (i n : ℕ) → 0 < n → (r : ℕ) × (two_at_a_time i n ≡ pos r) × (0 < r) × (r ≤ n)
two_at_a_time_works i zero h = absurd (omega arith)
two_at_a_time_works i (suc zero) h = (1, refl, omega arith, omega arith)
two_at_a_time_works i (suc (suc n)) h = (2, refl, omega arith, omega arith)

file_arrives_whole_example :
    (calls : ℕ) × (send_file two_at_a_time (codes "a file") ≡ some (calls, codes "a file"))
    × (receive_file (map some (codes "a fi" ∷ codes "le" ∷ []) ++ some [] ∷ [])
        ≡ some (codes "a file"))
unfolding flatten
file_arrives_whole_example =
    file_arrives_whole two_at_a_time (codes "a file") (codes "a fi" ∷ codes "le" ∷ []) []
      two_at_a_time_works (λ e. cc, (λ e. cc, tt)) refl

parse_request-header_example :
    parse_request (create_request_header push_file (codes "photo") ++ 0 ∷ 0 ∷ []) ≡ (
      if length (create_request_header push_file (codes "photo") ++ 0 ∷ 0 ∷ []) == msg_buf_size
      then fault buffer_overflow
      else ok (request_code push_file, codes "photo"))
parse_request-header_example =
    parse_request-header push_file (codes "photo") (0 ∷ 0 ∷ []) (omega arith)

abbrev third_time : ℕ → Bool
third_time i = i == 2

abbrev wanted : ClientRequest
wanted = record {
  req_type = download_file;
  ip = codes "10.0.0.3";
  port = pos 3002;
  filename = codes "theirs";
}

abbrev wanted_header : Bytes
wanted_header =
    let header = codes "0" ++ newline ∷ codes "theirs" ++ newline ∷ [] in
    header ++ replicate (msg_buf_size - length header) 0

handle_request_round_lem_example :
    handle_request_round third_time (pos 1024) (wanted ∷ [])
    ≡ ok (
        if some_attempt third_time 11
        then ([], started wanted wanted_header)
        else (wanted ∷ [], requeued wanted))
unfolding request_buffer fill_buffer create_request_header to_string format
handle_request_round_lem_example =
    handle_request_round_lem third_time 1023 wanted [] wanted_header (λ e. cc) refl

-- One client is being served, another waits, and the loop has a third in hand.
abbrev one_more : Server
one_more = push_client (some 7) (accept_client 7 start)

abbrev serving : Server
serving =
    accept_client 9 (
      push_client (some 8) (accept_client 8 (begin_client [] (replicate 3 none) (7 ∷ []) one_more)))

serving-Reach : Reach serving
unfolding accept_client push_client begin_client
serving-Reach =
    step
      {s = push_client (some 8)
        (accept_client 8 (begin_client [] (replicate 3 none) (7 ∷ []) one_more))}
      (step
        (step
          (step (step (step initially (accepts 7 start refl)) (pushes (accept_client 7 start)))
            (begins [] (replicate 3 none) one_more refl))
          (accepts 8 (begin_client [] (replicate 3 none) (7 ∷ []) one_more) refl))
        (pushes (accept_client 8 (begin_client [] (replicate 3 none) (7 ∷ []) one_more))))
      (accepts 9 _ refl)

socket_fd_counts_lem_example :
    (serving.socket_fd_counts
      ≡ held (serving.accepted ∷ []) + length serving.socket_fd_queue + held serving.threads)
    × (serving.socket_fd_counts ≤ max_socket_fd_queue_size + 1)
    × (held serving.threads ≤ file_server_thread_num)
socket_fd_counts_lem_example = socket_fd_counts_lem serving-Reach
