-- ===== src/Peer/Wire/Bounds.antt =====
-- The length of the messages of src/peer_client.cpp against MSG_BUF_SIZE.
use p2p_file_sharing_system.Prelude.{◌≤◌, ◌<◌, arith, length, length-append}
use p2p_file_sharing_system.Text.Number.Width.{
  length-format_uint64, length-to_string_int, length-to_string_int64,
}
use p2p_file_sharing_system.Text.Split.{join_string}
use p2p_file_sharing_system.Ids.{msg_buf_size}
use p2p_file_sharing_system.Peer.Wire.{header_vec}
use p2p_file_sharing_system.Peer.Queries.Refinement.{Query, IsWellFormed, encode_query}

-- The text of a well-formed query for a name of at most 900 bytes is shorter than a message buffer.
pub length-encode_query :
    (q : Query) → IsWellFormed q → length q.filename ≤ 900 → length (encode_query q) < msg_buf_size
unfolding encode_query header_vec join_string
length-encode_query q wf h = simp length-append (
    omega (
      arith,
      length-to_string_int q.id.peer_id wf.id_fits.peer_fits,
      length-format_uint64 q.id.msg_id wf.id_fits.counter_fits,
      length-to_string_int64 q.id.timestamp wf.id_fits.time_fits,
      length-to_string_int q.ttl wf.ttl_fits.0,
      length-to_string_int q.upstream wf.upstream_fits,
    ))
