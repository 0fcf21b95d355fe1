-- ===== src/Buffer/Tests.antt =====
-- The theorem about the message buffers at a concrete input.
use p2p_file_sharing_system.Prelude.{◌≡◌, arith, length, ltb, if◌then◌else◌, replicate, refl}
use p2p_file_sharing_system.Result.{ok, fault, buffer_overflow, ◌>>=◌}
use p2p_file_sharing_system.Text.{codes}
use p2p_file_sharing_system.Ids.{msg_buf_size}
use p2p_file_sharing_system.Buffer.{fill_buffer, c_string}
use p2p_file_sharing_system.Buffer.RoundTrip.{c_string-fill_buffer}

c_string-fill_buffer_example : (fill_buffer (codes "peer_query") >>= c_string) ≡ (
    if ltb (length (codes "peer_query")) msg_buf_size
    then ok (codes "peer_query")
    else fault buffer_overflow)
c_string-fill_buffer_example = c_string-fill_buffer (codes "peer_query") (omega arith)

full : (fill_buffer (replicate 1024 b'x') >>= c_string) ≡ fault buffer_overflow
unfolding fill_buffer c_string
full = refl
