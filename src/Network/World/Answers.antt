-- ===== src/Network/World/Answers.antt =====
-- The answers that the peers of a network make pass through a buffer: CreateQueryHitMessage and
-- CreateInvQueryHitMessage of src/peer_client.cpp.
use p2p_file_sharing_system.Prelude.{
  ℕ, ◌+◌, ◌≤◌, ◌<◌, ◌≡◌, refl, inl, arith, ℤ, pos, length, length-append, All,
}
use p2p_file_sharing_system.Result.{ok}
use p2p_file_sharing_system.Text.{Bytes, Lacks, newline}
use p2p_file_sharing_system.Text.Number.{to_string}
use p2p_file_sharing_system.Text.Number.RoundTrip.{to_string-Lacks_other, format-Lacks_other}
use p2p_file_sharing_system.Text.Number.Width.{
  length-format_uint64, length-to_string_int, length-to_string_int64,
}
use p2p_file_sharing_system.Text.Split.{join_string}
use p2p_file_sharing_system.Text.Split.Join.{join_string-Lacks}
use p2p_file_sharing_system.Ids.{MessageId, PeerId, msg_buf_size, get_file_server_port, initial_ttl}
use p2p_file_sharing_system.Peer.Wire.{header_vec}
use p2p_file_sharing_system.Peer.Wire.Fields.{FitsId}
use p2p_file_sharing_system.Peer.Queries.Refinement.{Query}
use p2p_file_sharing_system.Peer.Hits.Refinement.{Hit, IsWellFormed, encode_hit, hit_vec}
use p2p_file_sharing_system.Network.Hop.{passes, query_hit}
use p2p_file_sharing_system.Network.World.{Net, IsNet}
use p2p_file_sharing_system.Network.World.Invariant.{
  IsSendable, IsSendableHit, inv_query_hit, to_query, to_inv_query,
}

encode_hit-Lacks :
    (h : Hit) → Lacks 0 h.msg_type → Lacks 0 h.ip → All (Lacks 0) h.rest → Lacks 0 (encode_hit h)
unfolding encode_hit hit_vec header_vec
encode_hit-Lacks h kind ip rest =
    let digits : (z : ℤ) → Lacks 0 (to_string z) =
      to_string-Lacks_other 0 (omega arith, inl (omega arith)) in
    join_string-Lacks 0 newline _ (omega arith) (
      kind,
      (
        digits h.id.peer_id,
        (
          format-Lacks_other 0 (omega arith, inl (omega arith)) h.id.msg_id,
          (digits h.id.timestamp, (digits h.ttl, (digits h.originator, (ip, rest)))),
        ),
      ),
    )

length-query_hit :
    (id : MessageId) (originator : PeerId) (ip filename : Bytes)
    → IsWellFormed (query_hit id originator ip filename)
    → length ip ≤ 15
    → length filename ≤ 900
    → length (encode_hit (query_hit id originator ip filename)) < msg_buf_size
unfolding encode_hit hit_vec header_vec join_string
length-query_hit id originator ip filename wf h k = simp length-append (
    omega (
      arith,
      length-to_string_int id.peer_id wf.id_fits.peer_fits,
      length-format_uint64 id.msg_id wf.id_fits.counter_fits,
      length-to_string_int64 id.timestamp wf.id_fits.time_fits,
      length-to_string_int initial_ttl wf.ttl_fits.0,
      length-to_string_int originator wf.originator_fits,
    ))

length-inv_query_hit :
    (id : MessageId) (originator : PeerId) (ip : Bytes)
    → IsWellFormed (inv_query_hit id originator ip)
    → length ip ≤ 15
    → length (encode_hit (inv_query_hit id originator ip)) < msg_buf_size
unfolding encode_hit hit_vec header_vec join_string
length-inv_query_hit id originator ip wf h = simp length-append (
    omega (
      arith,
      length-to_string_int id.peer_id wf.id_fits.peer_fits,
      length-format_uint64 id.msg_id wf.id_fits.counter_fits,
      length-to_string_int64 id.timestamp wf.id_fits.time_fits,
      length-to_string_int initial_ttl wf.ttl_fits.0,
      length-to_string_int originator wf.originator_fits,
    ))

port_of_peer : (i : ℕ) → i < 2147480648 → (port : ℤ) × (get_file_server_port (pos i) ≡ ok port)
unfolding get_file_server_port
port_of_peer i h = (pos (3000 + i), ground arith)

module _ (net : Net) (is_net : IsNet net) (i : ℕ) (lt : i < net.size) where
  -- The answer of the peer i to a query.
  pub query_hit-IsSendable :
      (q : Query) → IsSendable q → IsSendableHit net (query_hit q.id (pos i) (net.ips i) q.filename)
  query_hit-IsSendable q sendable =
      let h = query_hit q.id (pos i) (net.ips i) q.filename in
      let wf : IsWellFormed h = record {
        type_line = omega arith;
        id_fits = sendable.wf.id_fits;
        ttl_fits = (omega arith, λ e. cc);
        originator_fits = omega (arith, is_net.bounded, lt);
        lines = (is_net.ip_line i, (sendable.wf.one_line, tt));
        filled = sendable.wf.named;
      } in
      let (b, through) =
        passes (encode_hit h)
          (encode_hit-Lacks h (omega arith) (is_net.ip_zero_free i) (sendable.zero_free, tt))
          (length-query_hit q.id (pos i) (net.ips i) q.filename wf (is_net.ip_short i)
            sendable.short) in
      let (port, has_port) = port_of_peer i (omega (arith, is_net.bounded, lt)) in
      record {
        answer = to_query q.id (pos i) (net.ips i) q.filename refl;
        wf = wf;
        buffer = b;
        through = through;
        port = port;
        has_port = has_port;
        server = (i, lt, refl, has_port);
      }

  -- Its offer to hold a copy.
  pub inv_query_hit-IsSendable :
      (id : MessageId) → FitsId id → IsSendableHit net (inv_query_hit id (pos i) (net.ips i))
  inv_query_hit-IsSendable id fits =
      let h = inv_query_hit id (pos i) (net.ips i) in
      let wf : IsWellFormed h = record {
        type_line = omega arith;
        id_fits = fits;
        ttl_fits = (omega arith, λ e. cc);
        originator_fits = omega (arith, is_net.bounded, lt);
        lines = (is_net.ip_line i, tt);
        filled = is_net.ip_filled i;
      } in
      let (b, through) =
        passes (encode_hit h) (encode_hit-Lacks h (omega arith) (is_net.ip_zero_free i) tt)
          (length-inv_query_hit id (pos i) (net.ips i) wf (is_net.ip_short i)) in
      let (port, has_port) = port_of_peer i (omega (arith, is_net.bounded, lt)) in
      record {
        answer = to_inv_query id (pos i) (net.ips i) refl;
        wf = wf;
        buffer = b;
        through = through;
        port = port;
        has_port = has_port;
        server = (i, lt, refl, has_port);
      }
