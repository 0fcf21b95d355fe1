-- ===== src/FileTransfer/Header.antt =====
-- The request header of CPeerFileClient (src/peer_file_client.cpp) and how CPeerFileServer
-- (src/peer_file_server.cpp) reads it; CalcChunkNums of src/defines.cpp.
use p2p_file_sharing_system.Prelude.{
  ℕ, ◌+◌, ◌*◌, ◌≤◌, ◌≡◌, refl, some, [], ◌∷◌, ◌++◌, arith, append_assoc, length, ◌==◌,
  if◌then◌else◌, pos,
}
use p2p_file_sharing_system.Result.{ok, fault, buffer_overflow}
use p2p_file_sharing_system.Text.{Bytes, Lacks, newline}
use p2p_file_sharing_system.Text.Number.{stoi, to_string, uint64_mod}
use p2p_file_sharing_system.Text.Number.RoundTrip.{stoi-to_string, to_string-Lacks}
use p2p_file_sharing_system.Ids.{RequestType, download_file, push_file, msg_buf_size}
use p2p_file_sharing_system.FileTransfer.{
  request_code, create_request_header, cut_line, parse_request, calc_chunk_nums, file_chunk_size,
}

cut_line-newline :
    (line behind : Bytes)
    → Lacks newline line
    → cut_line (line ++ newline ∷ behind) ≡ some (line, behind)
unfolding cut_line
cut_line-newline [] behind h = refl
cut_line-newline (c ∷ line) behind (h, hs) = ground (arith, cut_line-newline line behind hs)

stoi-request_code : (t : RequestType) → stoi (to_string (request_code t)) ≡ ok (request_code t)
stoi-request_code download_file = stoi-to_string (pos 0) (omega arith)
stoi-request_code push_file = stoi-to_string (pos 1) (omega arith)

header_shape :
    (req_type : RequestType) (filename padding : Bytes)
    → create_request_header req_type filename ++ padding
      ≡ to_string (request_code req_type) ++ newline ∷ (filename ++ newline ∷ padding)
unfolding create_request_header
header_shape req_type filename padding = simp append_assoc

-- A request that arrives with its header whole, followed by any bytes, is read as it was made, if recv
-- returned fewer bytes than the buffer holds; where recv returned the whole buffer, which is what the
-- client sends, the server writes behind its own.
pub parse_request-header :
    (req_type : RequestType) (filename padding : Bytes)
    → Lacks newline filename
    → let received = create_request_header req_type filename ++ padding in
      parse_request received ≡ (
        if length received == msg_buf_size
        then fault buffer_overflow
        else ok (request_code req_type, filename))
unfolding parse_request
parse_request-header req_type filename padding one_line = rw (
  header_shape req_type filename padding,
  cut_line-newline (to_string (request_code req_type)) (filename ++ newline ∷ padding)
      (to_string-Lacks (request_code req_type)),
  stoi-request_code req_type,
  cut_line-newline filename padding one_line,
)

-- The number of chunks is the least that covers the file, unless the sum wraps around.
pub calc_chunk_nums_least :
    (size n : ℕ)
    → size + file_chunk_size ≤ uint64_mod
    → size ≤ n * file_chunk_size
    → (size ≤ calc_chunk_nums size * file_chunk_size) × (calc_chunk_nums size ≤ n)
unfolding calc_chunk_nums
calc_chunk_nums_least size n fits covers = omega arith
