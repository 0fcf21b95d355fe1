-- ===== src/Buffer.antt =====
-- The fixed message buffers: memset and memcpy of a message before it is sent (BroadcastProcessThread
-- and RelayQueryHit of src/peer_client.cpp), and the C string that the receiver takes out of it
-- (CPeerServer::DealWithRequest of src/peer_server.cpp).
use p2p_file_sharing_system.Prelude.{
  ℕ, ◌-◌, ◌≡◌, Bool, true, false, List, [], ◌∷◌, ◌++◌, ltb, ◌==◌, if◌then◌else◌, length, replicate,
}
use p2p_file_sharing_system.Result.{Result, ok, fault, buffer_overflow, ◌>>=◌}
use p2p_file_sharing_system.Text.{Bytes}
use p2p_file_sharing_system.Ids.{msg_buf_size}
pub mod RoundTrip
mod Tests

-- A message longer than the buffer is copied over its end.
unfoldable pub fill_buffer : Bytes → Result Bytes
fill_buffer message =
    if ltb msg_buf_size (length message)
    then fault buffer_overflow
    else ok (message ++ replicate (msg_buf_size - length message) 0)

-- std::string(const char*): the bytes before the first zero. Without one the read leaves the buffer.
unfoldable pub c_string : Bytes → Result Bytes
c_string [] = fault buffer_overflow
c_string (c ∷ s) = elim (c == 0) [ true ↦ ok [] | false ↦ c_string s >>= λ t. ok (c ∷ t) ]
