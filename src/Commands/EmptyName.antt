-- ===== src/Commands/EmptyName.antt =====
-- The command `query` with nothing behind it, in the loop of CPeerClient::Run, and the peers that get the
-- message (src/peer_client.cpp).
use p2p_file_sharing_system.Prelude.{
  ◌≡◌, refl, ap, ◌∙◌, false, [], ◌∷◌, ◌++◌, append_assoc, append-nil, arith, ℤ,
}
use p2p_file_sharing_system.Result.{ok, fault, index_out_of_range}
use p2p_file_sharing_system.Text.{Bytes, codes, newline, bytes_eq}
use p2p_file_sharing_system.Text.Number.{int_limit}
use p2p_file_sharing_system.Text.Number.RoundTrip.{
  Fits, stoi-to_string, to_string-Lacks, format-Lacks,
}
use p2p_file_sharing_system.Text.Split.{split_string, join_string}
use p2p_file_sharing_system.Text.Split.Join.{terminated, split_string-terminated}
use p2p_file_sharing_system.Ids.{
  PeerId, MessageId, own_query, delim, no_limit, peer_msg_query, initial_ttl,
}
use p2p_file_sharing_system.Peer.{Peer, is_query_cached}
use p2p_file_sharing_system.Peer.Wire.{header_vec}
use p2p_file_sharing_system.Peer.Wire.Fields.{FitsId, read_message_id-header}
use p2p_file_sharing_system.Peer.Queries.{handle_query}
use p2p_file_sharing_system.Peer.Queries.Refinement.{Query, encode_query}
use p2p_file_sharing_system.Peer.Operations.Queries.{next_id, own_query_for, send_query_lem}
use p2p_file_sharing_system.Register.{cut, cut_at, parts_or_whole}
use p2p_file_sharing_system.Commands.{Console, run_command, execute}

-- A query for no name.
abbrev nameless : MessageId → ℤ → PeerId → Query
nameless id ttl upstream = record { id = id; ttl = ttl; upstream = upstream; filename = [] }

nameless-terminated :
    (id : MessageId) (ttl : ℤ) (upstream : PeerId)
    → encode_query (nameless id ttl upstream)
      ≡ terminated newline (header_vec peer_msg_query id ttl upstream)
unfolding encode_query join_string header_vec terminated
nameless-terminated id ttl upstream = simp (append_assoc, append-nil)

-- The text of a query for no name falls into six parts, not seven.
split_string-nameless :
    (id : MessageId) (ttl : ℤ) (upstream : PeerId)
    → split_string (encode_query (nameless id ttl upstream)) delim no_limit
      ≡ header_vec peer_msg_query id ttl upstream
unfolding header_vec
split_string-nameless id ttl upstream =
    ap (λ t. split_string t delim no_limit) (nameless-terminated id ttl upstream)
    ∙ split_string-terminated (header_vec peer_msg_query id ttl upstream) newline (
      omega arith,
      (
        to_string-Lacks id.peer_id,
        (
          format-Lacks id.msg_id,
          (to_string-Lacks id.timestamp, (to_string-Lacks ttl, (to_string-Lacks upstream, tt))),
        ),
      ),
    )

handle_query-nameless :
    (id : MessageId) (ttl : ℤ) (upstream : PeerId) (t : Peer)
    → FitsId id
    → Fits int_limit upstream
    → is_query_cached t id ≡ false
    → handle_query (encode_query (nameless id ttl upstream)) t ≡ fault index_out_of_range
unfolding handle_query header_vec
handle_query-nameless id ttl upstream t fits upstream_fits new =
    rw
      (
        split_string-nameless id ttl upstream,
        read_message_id-header peer_msg_query id ttl upstream [] fits,
        new,
        stoi-to_string upstream upstream_fits,
      )
      refl

-- The command `query` with nothing behind it but the space queues a message for every neighbour, and a
-- peer that has not seen it reads past the end of its parts. The id of the message fits its types, and
-- the id of the peer that asks fits an int.
pub empty_query_faults :
    (c : Console) (t : Peer)
    → FitsId (next_id c.peer)
    → Fits int_limit c.peer.peer_id
    → is_query_cached t (next_id c.peer) ≡ false
    → (d : Console) × (message : Bytes) × (run_command (codes "query ") c ≡ ok d)
      × (d.peer.broadcast_queue ≡ c.peer.broadcast_queue ++ (message, own_query) ∷ [])
      × (handle_query message t ≡ fault index_out_of_range)
unfolding run_command execute cut_at cut parts_or_whole bytes_eq
empty_query_faults c t fits peer_fits new =
    let (_, queued, _, _, _) = send_query_lem [] c.peer in
    (
      _,
      encode_query (own_query_for [] c.peer),
      refl,
      queued,
      handle_query-nameless (next_id c.peer) initial_ttl c.peer.peer_id t fits peer_fits new,
    )
